-- ===== src/Pipeline/Topo.antt =====
-- internal/pipeline/pipeline.go: topo, which is Kahn's algorithm, and the queries on a pipeline.
use quarry.Base.{
  ℕ, zero, suc, String, List, [], ◌∷◌, ◌++◌, Option, none, some, ◌==◌, ℕ-eq, String-eq,
  if◌then◌else◌, length, select, sort_on, map, get, put, ℤ, pos, decrement, is_zero, is_positive,
}
use quarry.Pipeline.Types.{PipelineJob}

-- The map deps: the dependents of a need, as pairs of a need and a job in the order of the appends.
abbrev pub Deps : Type 0
Deps = List (String × String)

abbrev pub dependents_of : Deps → String → List String
dependents_of deps n =
    map (λ (e : String × String). e.1) (select (λ (e : String × String). e.0 == n) deps)

abbrev pub Degrees : Type 0
Degrees = List (String × ℤ)

abbrev pub degree : Degrees → String → ℤ
degree m k = get (pos 0) m k

unfoldable pub degrees_from : Degrees → List PipelineJob → Degrees
degrees_from m [] = m
degrees_from m (j ∷ js) = degrees_from (put m j.name (pos (length j.needs))) js

unfoldable pub order_from : List (String × ℕ) → ℕ → List PipelineJob → List (String × ℕ)
order_from m i [] = m
order_from m i (j ∷ js) = order_from (put m j.name i) (suc i) js

unfoldable pub initial : Degrees → List PipelineJob → List String
initial m [] = []
initial m (j ∷ js) =
    let rest = initial m js in if is_zero (degree m j.name) then j.name ∷ rest else rest

-- The loop over the dependents of a job that is out: the degrees, and the jobs that became ready.
unfoldable pub release : List String → Degrees → List String → Degrees × List String
release [] m ready = (m, ready)
release (d ∷ ds) m ready =
    let m' = put m d (decrement (degree m d)) in
    release ds m' (if is_zero (degree m' d) then ready ++ d ∷ [] else ready)

-- The error is a cycle, with the names of the jobs that are stuck.
pub data Sorted : Type 0 where
  sorted cycle : List String → Sorted
  out_of_fuel : Sorted

unfoldable pub stuck : Degrees → List PipelineJob → List String
stuck m [] = []
stuck m (j ∷ js) =
    let rest = stuck m js in if is_positive (degree m j.name) then j.name ∷ rest else rest

-- The variables of the loop.
pub record Kahn : Type 0 where
  pub degrees : Degrees
  pub ready : List String
  pub out : List String

module _ (deps : Deps) (order : List (String × ℕ)) where
  -- One round, with n the first of the ready jobs.
  unfoldable pub round : String → List String → Kahn → Kahn
  round n rest k =
      let (m, ready) = release (dependents_of deps n) k.degrees rest in
      record { degrees = m; ready = ready; out = k.out ++ n ∷ [] }

  -- The names of the ready jobs differ, so the order of equal keys does not matter.
  unfoldable pub rounds : ℕ → Kahn → Option Kahn
  rounds zero k = elim (sort_on (get 0 order) k.ready) [ [] ↦ some k | n ∷ rest ↦ none ]
  rounds (suc fuel) k = elim (sort_on (get 0 order) k.ready) [
    | [] ↦ some k
    | n ∷ rest ↦ rounds fuel (round n rest k)
  ]

abbrev pub finish : List PipelineJob → Option Kahn → Sorted
finish jobs none = out_of_fuel
finish jobs (some k) =
    if length k.out == length jobs then sorted k.out else cycle (stuck k.degrees jobs)

-- Each round puts out a job that was not out: there is fuel for one round per job.
unfoldable pub topo : List PipelineJob → Deps → Sorted
topo jobs deps =
    let m = degrees_from [] jobs in
    finish jobs (
      rounds deps (order_from [] 0 jobs) (length jobs)
        (record { degrees = m; ready = initial m jobs; out = [] }))
