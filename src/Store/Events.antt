-- ===== src/Store/Events.antt =====
-- internal/store/events.go
use quarry.Base.{
  ℕ, suc, String, List, [], ◌∷◌, ◌++◌, Option, none, some, Bool, false, ◌&&◌, not, ◌==◌, ℕ-eq,
  String-eq, ltb, if◌then◌else◌, select, any,
}
use quarry.Store.Types.{Event, Detail, num}
use quarry.Store.Monad.{required, ok, M, ◌>>=◌, ◌>>◌, now, guard, null_str}

abbrev event_row : String → String → String → List (String × Detail) → ℕ → ℕ → Event
event_row run_id job_id type detail time id = record {
  id = id;
  run_id = run_id;
  job_id = null_str job_id;
  type = type;
  detail = detail;
  created_at = time;
}

-- INSERT INTO events with an AUTOINCREMENT id.
unfoldable pub insert_event : String → String → String → List (String × Detail) → ℕ → M (Unit {0})
insert_event run_id job_id type detail time s = ok tt (record s {
  events = s.events ++ event_row run_id job_id type detail time s.next_event ∷ [];
  next_event = suc s.next_event;
})

unfoldable pub append_event : String → String → String → List (String × Detail) → M (Unit {0})
append_event run_id job_id type detail = do
  guard (not (run_id == "") && not (type == "")) (required "RunID and Type are required")
  time ← now
  insert_event run_id job_id type detail time

-- LIMIT, where `none` is no limit.
abbrev pub limited {ℓ} : {A : Type ℓ} → Option ℕ → List A → List A
limited limit [] = []
limited none (x ∷ xs) = x ∷ xs
limited (some n) (x ∷ xs) = elim n [ ℕ.zero ↦ [] | ℕ.suc k ↦ x ∷ limited (some k) xs ]

-- Ids are given in order of insertion, so the rows stand in id order.
unfoldable pub list_events : String → ℕ → ℕ → M (List Event)
list_events run_id after limit s =
    ok
      (limited (if limit == 0 then none else some limit)
        (select (λ e. e.run_id == run_id && ltb after e.id) s.events))
      s

-- The number under a key of the JSON object, 0 if it is absent or no number.
abbrev num_at : String → List (String × Detail) → ℕ
num_at key [] = 0
num_at key ((k, num n) ∷ rest) = if k == key then n else num_at key rest
num_at key ((k, _) ∷ rest) = num_at key rest

abbrev is_for : String → Option String → Bool
is_for job_id none = false
is_for job_id (some id) = id == job_id

unfoldable pub has_job_event : String → String → String → ℕ → M Bool
has_job_event run_id job_id type attempt s =
    ok
      (any
        (λ (e : Event).
          e.run_id == run_id
          && (is_for job_id e.job_id && (e.type == type && num_at "attempt" e.detail == attempt)))
        s.events)
      s
