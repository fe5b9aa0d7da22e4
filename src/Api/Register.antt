-- ===== src/Api/Register.antt =====
-- internal/api/runner.go: handleRegister, the part between the decoded request and the reply.
use quarry.Base.{ℕ, String, Option, none, some, not, ◌==◌, String-eq, find}
use quarry.Store.Types.{Runner, Labels}
use quarry.Store.Monad.{required, M, ◌>>=◌, ◌>>◌, return, guard, tx}
use quarry.Store.Runners.{NewRunner, upsert_runner}

-- The capacity is not negative: a negative one is refused before.
pub record RegisterRequest : Type 0 where
  pub name : String
  pub labels : Labels
  pub capacity : ℕ

abbrev pub registered : RegisterRequest → String → String → NewRunner
registered q id version = record {
  id = id;
  name = q.name;
  labels = q.labels;
  capacity = q.capacity;
  state = none;
  version = version;
}

-- The id of the name: the one that is known, or a new one.
abbrev pub resolve : RegisterRequest → String → Option Runner → NewRunner
resolve q fresh none = registered q fresh ""
resolve q fresh (some r) = registered q r.id r.version

unfoldable pub find_runner : String → M (Option Runner)
find_runner name s = return (find (λ (r : Runner). r.name == name) s.runners) s

-- A new id is random: a parameter.
unfoldable pub register : RegisterRequest → String → M String
register q fresh = do
  guard (not (q.name == "")) (required "name is required")
  tx (do
    existing ← find_runner q.name
    upsert_runner (resolve q fresh existing)
    return (resolve q fresh existing).id)
