-- ===== src/Tests/Documents.antt =====
-- Small pipelines, what finalize and topo make of them, and the results at them.
use native.Mathlib.Decide.{ℕ_discrete}
use quarry.Base.{
  String-discrete, sort_on, insert_on, get, put, select, any, String, List, [], ◌∷◌, pos, ◌≡◌, refl,
}
use quarry.Pipeline.Types.{PipelineJob}
use quarry.Pipeline.Topo.{
  Deps, sorted, topo, degrees_from, order_from, initial, release, stuck, rounds, round,
}
use quarry.Pipeline.Order.{IsTopological, IsRight, topo-IsRight}
use quarry.Pipeline.Validate.{
  finalize, valid, invalid, dependency_cycle, check_jobs, check_edges, check_needs, place,
}
use quarry.Pipeline.Mirror.{finalize-IsAccepted, finalize_ordered}

abbrev step : String → List String → PipelineJob
step name needs = record {
  name = name;
  image = "go";
  steps = "make" ∷ [];
  needs = needs;
  env = [];
  labels = [];
  artifacts = [];
  timeout = pos 1;
  resources = record { cpu = pos 0; memory = "" };
}

-- A diamond, declared with its end first.
abbrev diamond : List PipelineJob
diamond =
    step "ship" ("unit" ∷ "lint" ∷ [])
    ∷ step "build" []
    ∷ step "lint" ("build" ∷ [])
    ∷ step "unit" ("build" ∷ [])
    ∷ []

abbrev diamond_deps : Deps
diamond_deps = ("unit", "ship") ∷ ("lint", "ship") ∷ ("build", "lint") ∷ ("build", "unit") ∷ []

diamond_valid : finalize diamond ≡ valid diamond diamond_deps
unfolding finalize check_jobs place check_edges check_needs topo degrees_from order_from initial
    release stuck rounds round sort_on insert_on get put select any String-discrete ℕ_discrete
diamond_valid = refl

diamond_order : topo diamond diamond_deps ≡ sorted ("build" ∷ "lint" ∷ "unit" ∷ "ship" ∷ [])
unfolding finalize check_jobs place check_edges check_needs topo degrees_from order_from initial
    release stuck rounds round sort_on insert_on get put select any String-discrete ℕ_discrete
diamond_order = refl

-- A job that waits comes after one that is declared later and is ready.
late_order :
    topo (step "a" ("c" ∷ []) ∷ step "b" [] ∷ step "c" [] ∷ []) (("c", "a") ∷ [])
    ≡ sorted ("b" ∷ "c" ∷ "a" ∷ [])
unfolding finalize check_jobs place check_edges check_needs topo degrees_from order_from initial
    release stuck rounds round sort_on insert_on get put select any String-discrete ℕ_discrete
late_order = refl

loop_invalid :
    finalize (step "a" ("b" ∷ []) ∷ step "b" ("a" ∷ []) ∷ step "c" [] ∷ [])
    ≡ invalid (dependency_cycle ("a" ∷ "b" ∷ []) ∷ [])
unfolding finalize check_jobs place check_edges check_needs topo degrees_from order_from initial
    release stuck rounds round sort_on insert_on get put select any String-discrete ℕ_discrete
loop_invalid = refl

topo-IsRight_example : IsRight diamond (topo diamond diamond_deps)
topo-IsRight_example =
    topo-IsRight diamond diamond_deps
      (finalize-IsAccepted diamond diamond diamond_deps diamond_valid).graph

finalize_ordered_example :
    (out : List String) × (topo diamond diamond_deps ≡ sorted out) × IsTopological diamond out
finalize_ordered_example = finalize_ordered diamond diamond diamond_deps diamond_valid
