-- ===== src/Pipeline/Mirror.antt =====
-- The second loop of finalize: when it finds no problem, deps lists the dependents of each job.
use quarry.Base.{
  ℕ, ℕ-eq, suc, ◌+◌, ◌≤◌, String, List, [], ◌∷◌, ◌++◌, none, some, Bool, true, false, ◌≡◌, refl, ap,
  ◌∙◌, subst, inl, inr, arith, Bool-cases, ◌==◌, String-eq, if◌then◌else◌, select, any, leb,
}
use quarry.Pipeline.Types.{PipelineJob}
use quarry.Pipeline.Topo.{Deps, dependents_of, Sorted, sorted, cycle, out_of_fuel, topo}
use quarry.Pipeline.Counts.{
  count, count-nil, count-cons_same, count-cons_other, count-cons_sum, same,
}
use quarry.Pipeline.Needs.{names, needs_in, needs_in-count, IsGraph}
use quarry.Pipeline.Order.{IsTopological, IsRight, topo-IsRight}
use quarry.Pipeline.Validate.{
  Names, Problem, needs_itself, needs_twice, needs_unknown, is_known, Edges, one_need, check_needs,
  is_place, check_edges, check_jobs, finalize, valid, by_problems, by_topo, no_job,
}
use quarry.Pipeline.Placed.{append-empty, Placed, check_jobs-Clean}

-- How often the second job depends on the first.
abbrev edges : Deps → String → String → ℕ
edges deps n x = count (dependents_of deps n) x

edges-nil : (n x : String) → edges [] n x ≡ 0
unfolding select
edges-nil n x = refl

edges-snoc :
    (deps : Deps) (need name n x : String)
    → edges (deps ++ (need, name) ∷ []) n x
      ≡ edges deps n x + (if need == n then same name x else 0)
unfolding select
edges-snoc [] need name n x = ground arith
edges-snoc ((a, b) ∷ deps) need name n x = ground (arith, edges-snoc deps need name n x)

-- The edges that one job adds.
abbrev added : String → List String → String → String → ℕ
added name needs n x = if name == x then count needs n else 0

added-nil : (name n x : String) → added name [] n x ≡ 0
added-nil name n x = elim (Bool-cases (name == x)) [
  | inl t ↦ rw t (count-nil n)
  | inr t ↦ rw t refl
]

added-cons :
    (name need : String) (needs : List String) (n x : String)
    → added name (need ∷ needs) n x ≡ (if need == n then same name x else 0) + added name needs n x
added-cons name need needs n x = elim (Bool-cases (need == n)) [
  | inl t ↦ rw t (elim (Bool-cases (name == x)) [
    | inl u ↦ rw u (omega (arith, count-cons_same need needs n t))
    | inr u ↦ rw u (omega arith)
  ])
  | inr t ↦ rw t (elim (Bool-cases (name == x)) [
    | inl u ↦ rw u (omega (arith, count-cons_other need needs n t))
    | inr u ↦ rw u (omega arith)
  ])
]

added-needs :
    (j : PipelineJob) (js : List PipelineJob) (n x : String)
    → count (names (j ∷ js)) x ≤ 1
    → added j.name j.needs n x + count (needs_in js x) n ≡ count (needs_in (j ∷ js) x) n
unfolding needs_in
added-needs j js n x u = elim (Bool-cases (j.name == x)) [
  | inl t ↦ rw t (elim (Bool-cases (leb 1 (count (needs_in js x) n))) [
    | inl l ↦ absurd (
        omega (
          arith,
          u,
          count-cons_same j.name (names js) x t,
          needs_in-count js x n (ground (arith, l)),
        ))
    | inr l ↦ ground (arith, l)
  ])
  | inr t ↦ rw t (omega arith)
]

record Extended (name : String) (needs : List String) (e f : Edges) : Type 0 where
  pub no_problem : e.problems ≡ []
  pub edged : (n x : String) → edges f.deps n x ≡ edges e.deps n x + added name needs n x

snoc-empty : {A : Type 0} (xs : List A) (x : A) → xs ++ x ∷ [] ≡ [] → ⊥
snoc-empty [] x h = grind (arith, h)
snoc-empty (y ∷ ys) x h = grind (arith, h)

one_need-deps :
    (m : Names) (name : String) (seen : List String) (need : String) (e : Edges)
    → (one_need m name seen need e).problems ≡ []
    → (e.problems ≡ []) × ((one_need m name seen need e).deps ≡ e.deps ++ (need, name) ∷ [])
one_need-deps m name seen need e h =
    go (need == name) (any (λ (s : String). s == need) seen) (is_known m need) h
  where
    go :
        (a b c : Bool)
        → (if a
            then record e { problems = e.problems ++ needs_itself name ∷ [] }
            else if b
            then record e { problems = e.problems ++ needs_twice name need ∷ [] }
            else if c
            then record e { deps = e.deps ++ (need, name) ∷ [] }
            else record e { problems = e.problems ++ needs_unknown name need ∷ [] }).problems
          ≡ []
        → (e.problems ≡ [])
          × ((if a
                then record e { problems = e.problems ++ needs_itself name ∷ [] }
                else if b
                then record e { problems = e.problems ++ needs_twice name need ∷ [] }
                else if c
                then record e { deps = e.deps ++ (need, name) ∷ [] }
                else record e { problems = e.problems ++ needs_unknown name need ∷ [] }).deps
              ≡ e.deps ++ (need, name) ∷ [])
    go true b c h = absurd (snoc-empty _ _ h)
    go false true c h = absurd (snoc-empty _ _ h)
    go false false true h = (h, refl)
    go false false false h = absurd (snoc-empty _ _ h)

check_needs-Extended :
    (m : Names) (name : String) (seen needs : List String) (e : Edges)
    → (check_needs m name seen needs e).problems ≡ []
    → Extended name needs e (check_needs m name seen needs e)
unfolding check_needs
check_needs-Extended m name seen [] e h = record {
  no_problem = h;
  edged = λ n x. omega (arith, added-nil name n x);
}
check_needs-Extended m name seen (need ∷ needs) e h =
    let r = check_needs-Extended m name (need ∷ seen) needs (one_need m name seen need e) h in
    let (z, d) = one_need-deps m name seen need e r.no_problem in
    record {
      no_problem = z;
      edged = λ n x. omega (
        arith,
        r.edged n x,
        ap (λ ds. edges ds n x) d,
        edges-snoc e.deps need name n x,
        added-cons name need needs n x,
      );
    }

check_edges-no_problem :
    (m : Names) (i : ℕ) (js : List PipelineJob) (e : Edges)
    → (check_edges m i js e).problems ≡ []
    → e.problems ≡ []
unfolding check_edges
check_edges-no_problem m i [] e h = h
check_edges-no_problem m i (j ∷ js) e h = elim (Bool-cases (is_place m j.name i)) [
  | inl t ↦
      (check_needs-Extended m j.name [] j.needs e (
        check_edges-no_problem m (suc i) js (check_needs m j.name [] j.needs e)
          (rw (t, check_edges) at h))).no_problem
  | inr t ↦ check_edges-no_problem m (suc i) js e (rw (t, check_edges) at h)
]

number_self : (i : ℕ) → (i == i) ≡ true
number_self i = ground arith

edges-check_edges :
    (m : Names) (i : ℕ) (js : List PipelineJob) (e : Edges)
    → Placed m i js
    → ((x : String) → count (names js) x ≤ 1)
    → (check_edges m i js e).problems ≡ []
    → (n x : String)
    → edges (check_edges m i js e).deps n x ≡ edges e.deps n x + count (needs_in js x) n
unfolding check_edges needs_in
edges-check_edges m i [] e p u h n x = omega (arith, count-nil n)
edges-check_edges m i (j ∷ js) e p u h n x =
    let here : is_place m j.name i ≡ true =
      ap (λ o. elim o [ none ↦ false | some k ↦ k == i ]) p.0 ∙ number_self i in
    let c = check_needs m j.name [] j.needs e in
    let rest = rw (here, check_edges) at h in
    let g =
      check_needs-Extended m j.name [] j.needs e (check_edges-no_problem m (suc i) js c rest) in
    rw (here, check_edges)
      (omega (
        arith,
        g.edged n x,
        added-needs j js n x (u x),
        edges-check_edges m (suc i) js c p.1
            (λ z. omega (arith, u z, count-cons_sum j.name (names js) z)) rest n x,
      ))

-- What finalize accepts: a graph of jobs that topo can order.
pub record IsAccepted (jobs : List PipelineJob) (deps : Deps) : Type 0 where
  pub graph : IsGraph jobs deps
  pub order : (out : List String) × (topo jobs deps ≡ sorted out)

by_topo-valid :
    (jobs : List PipelineJob) (deps : Deps) (s : Sorted) (js : List PipelineJob) (ds : Deps)
    → by_topo jobs deps s ≡ valid js ds
    → (jobs ≡ js) × (deps ≡ ds) × ((out : List String) × (s ≡ sorted out))
by_topo-valid jobs deps (sorted out) js ds h = (grind (arith, h), grind (arith, h), (out, refl))
by_topo-valid jobs deps (cycle names) js ds h = absurd (grind (arith, h))
by_topo-valid jobs deps out_of_fuel js ds h = absurd (grind (arith, h))

by_problems-valid :
    (jobs : List PipelineJob) (deps : Deps) (ps : List Problem) (js : List PipelineJob) (ds : Deps)
    → by_problems jobs deps ps ≡ valid js ds
    → (ps ≡ [])
      × ((jobs ≡ js) × (deps ≡ ds) × ((out : List String) × (topo jobs deps ≡ sorted out)))
by_problems-valid jobs deps [] js ds h = (refl, by_topo-valid jobs deps (topo jobs deps) js ds h)
by_problems-valid jobs deps (p ∷ ps) js ds h = absurd (grind (arith, h))

pub finalize-IsAccepted :
    (document jobs : List PipelineJob) (deps : Deps)
    → finalize document ≡ valid jobs deps
    → IsAccepted jobs deps
unfolding finalize
finalize-IsAccepted document jobs deps h =
    let c = check_jobs 0 [] document in
    let start : Edges = record { problems = no_job document ++ c.problems; deps = [] } in
    let e = check_edges c.names 0 c.jobs start in
    let (none_left, (same_jobs, same_deps, order)) =
      by_problems-valid c.jobs e.deps e.problems jobs deps h in
    let clean =
      check_jobs-Clean 0 [] document
        (append-empty (no_job document) c.problems
          (check_edges-no_problem c.names 0 c.jobs start none_left)).1 in
    subst (λ js. IsAccepted js deps) same_jobs
      (subst (IsAccepted c.jobs) same_deps (record {
        graph = record {
          distinct = clean.distinct;
          mirrored = λ n x. omega (
            arith,
            edges-nil n x,
            edges-check_edges c.names 0 c.jobs start clean.placed clean.distinct none_left n x,
          );
        };
        order = order;
      }))

-- For a document that finalize accepts, topo gives an order of the jobs, each once and after its needs.
pub finalize_ordered :
    (document jobs : List PipelineJob) (deps : Deps)
    → finalize document ≡ valid jobs deps
    → (out : List String) × (topo jobs deps ≡ sorted out) × IsTopological jobs out
finalize_ordered document jobs deps h =
    let a = finalize-IsAccepted document jobs deps h in
    let (out, e) = a.order in (out, e, subst (IsRight jobs) e (topo-IsRight jobs deps a.graph))
