-- ===== src/Store/Runners.antt =====
-- internal/store/runners.go, and TouchRunner of jobs.go.
use quarry.Base.{
  ℕ, String, List, [], ◌∷◌, ◌++◌, Option, none, some, Bool, ◌&&◌, not, ◌==◌, ℕ-eq, String-eq, ltb,
  if◌then◌else◌, length, select, find, update, any, map,
}
use quarry.Store.Types.{Runner, RunnerState, RunnerState-eq, online, offline, Labels}
use quarry.Store.Monad.{
  not_found, constraint, required, ok, M, ◌>>=◌, ◌>>◌, return, throw, now, guard,
}

-- What a caller of UpsertRunner gives.
pub record NewRunner : Type 0 where
  pub id : String
  pub name : String
  pub labels : Labels
  pub capacity : ℕ
  pub state : Option RunnerState
  pub version : String

abbrev runner_state_or : Option RunnerState → RunnerState
runner_state_or none = online
runner_state_or (some s) = s

unfoldable pub runner_row : NewRunner → ℕ → Runner
runner_row r time = record {
  id = r.id;
  name = r.name;
  labels = r.labels;
  capacity = if r.capacity == 0 then 1 else r.capacity;
  state = runner_state_or r.state;
  version = r.version;
  last_seen_at = time;
  registered_at = time;
}

-- ON CONFLICT(id) DO UPDATE: registered_at stays.
abbrev pub refreshed : Runner → Runner → Runner
refreshed new old = record new { registered_at = old.registered_at }

-- PRIMARY KEY (id); migration 0002 makes names unique.
unfoldable pub put_runner : Runner → M (Unit {0})
put_runner r s =
    if any (λ (q : Runner). q.name == r.name && not (q.id == r.id)) s.runners
    then throw constraint s
    else if any (λ (q : Runner). q.id == r.id) s.runners
    then ok tt (record s { runners = update (λ q. q.id == r.id) (refreshed r) s.runners })
    else ok tt (record s { runners = s.runners ++ r ∷ [] })

unfoldable pub upsert_runner : NewRunner → M (Unit {0})
unfolding put_runner runner_row
upsert_runner r = do
  guard (not (r.id == "")) (required "runner.ID is required")
  time ← now
  put_runner (runner_row r time)

unfoldable pub list_runners : M (List Runner)
list_runners s = ok s.runners s

unfoldable pub get_runner_by_name : String → M Runner
get_runner_by_name name s = elim (find (λ (r : Runner). r.name == name) s.runners) [
  | none ↦ throw not_found s
  | some r ↦ ok r s
]

abbrev seen_at : ℕ → Runner → Runner
seen_at time r = record r { last_seen_at = time; state = online }

unfoldable pub update_runners : (Runner → Bool) → (Runner → Runner) → M Bool
update_runners p f s =
    ok (length (select p s.runners) == 1) (record s { runners = update p f s.runners })

abbrev pub unknown_runner : String → NewRunner
unknown_runner id = record {
  id = id;
  name = id;
  labels = [];
  capacity = 0;
  state = none;
  version = "";
}

-- An unknown runner is registered with its id as its name.
unfoldable pub touch_runner : String → M (Unit {0})
unfolding update_runners upsert_runner
touch_runner id = do
  time ← now
  known ← update_runners (λ r. r.id == id) (seen_at time)
  if known then return tt else upsert_runner (unknown_runner id)

abbrev pub is_silent : ℕ → Runner → Bool
is_silent before r = r.state == online && ltb r.last_seen_at before

-- The ids are read first; the updates then touch exactly those rows, one id at a time.
unfoldable pub set_offline : List String → M (Unit {0})
unfolding update_runners
set_offline [] = return tt
set_offline (id ∷ ids) = do
  done ← update_runners (λ r. r.id == id && r.state == online) (λ r. record r { state = offline })
  set_offline ids

unfoldable pub mark_runners_offline : ℕ → M (List String)
mark_runners_offline before s =
    let ids = map (λ (r : Runner). r.id) (select (is_silent before) s.runners) in
    (do set_offline ids; return ids) s
