-- ===== src/Pipeline/Validate.antt =====
-- internal/pipeline/pipeline.go: finalize, on the document as it was decoded.
use Prim.Native.Char.{code}
use quarry.Base.{
  ℕ, suc, ◌*◌, String, List, [], ◌∷◌, ◌++◌, Option, none, some, Bool, true, false, ◌&&◌, ◌||◌, ◌==◌,
  ℕ-eq, String-eq, leb, if◌then◌else◌, any, ℤ, pos, is_negative, is_zero,
}
use quarry.Pipeline.Types.{PipelineJob}
use quarry.Pipeline.Topo.{Deps, Sorted, sorted, cycle, out_of_fuel, topo}

-- One message each. Numbers of jobs and steps count from 1; `dependency_cycle` is the error of topo.
pub data Problem : Type 0 where
  no_jobs : Problem
  nameless : ℕ → Problem
  duplicate no_image no_steps : String → Problem
  empty_step : String → ℕ → Problem
  negative_timeout negative_cpu needs_itself : String → Problem
  needs_twice needs_unknown : String → String → Problem
  dependency_cycle : List String → Problem
  unreachable : Problem

-- unicode.IsSpace
abbrev is_space : ℕ → Bool
is_space c =
    leb 9 c && leb c 13
    || (c == 32
        || (c == 133
            || (c == 160
                || (c == 5760
                    || (leb 8192 c && leb c 8202
                        || (c == 8232
                            || (c == 8233 || (c == 8239 || (c == 8287 || c == 12288)))))))))

-- strings.TrimSpace(s) == ""
abbrev is_blank : String → Bool
is_blank String.[] = true
is_blank (String.◌∷◌ c s) = is_space (code c) && is_blank s

-- The map byName, which holds the place of a job for its pointer.
abbrev pub Names : Type 0
Names = List (String × ℕ)

unfoldable pub place : Names → String → Option ℕ
place [] k = none
place ((j, i) ∷ m) k = if j == k then some i else place m k

abbrev pub is_known : Names → String → Bool
is_known m k = elim (place m k) [ none ↦ false | some i ↦ true ]

abbrev blank_steps : String → ℕ → List String → List Problem
blank_steps name k [] = []
blank_steps name k (s ∷ rest) =
    (if is_blank s then empty_step name k ∷ [] else []) ++ blank_steps name (suc k) rest

abbrev when : Bool → Problem → List Problem
when b p = if b then p ∷ [] else []

abbrev has_no_steps : List String → Bool
has_no_steps [] = true
has_no_steps (s ∷ ss) = false

abbrev pub job_problems : PipelineJob → List Problem
job_problems j =
    when (j.image == "") (no_image j.name)
    ++ (when (has_no_steps j.steps) (no_steps j.name)
        ++ (blank_steps j.name 1 j.steps
            ++ (when (is_negative j.timeout) (negative_timeout j.name)
                ++ when (is_negative j.resources.cpu) (negative_cpu j.name))))

-- 30 minutes, in nanoseconds.
abbrev default_timeout : ℤ
default_timeout = pos (30 * 60 * 1000000000)

abbrev pub with_default : PipelineJob → PipelineJob
with_default j = record j { timeout = if is_zero j.timeout then default_timeout else j.timeout }

pub record Checked : Type 0 where
  pub problems : List Problem
  pub names : Names
  pub jobs : List PipelineJob

-- A job without a name, or with the name of an earlier one, is reported and left out.
abbrev pub is_left_out : Names → PipelineJob → Bool
is_left_out m j = j.name == "" || is_known m j.name

abbrev pub problems_of : ℕ → Names → PipelineJob → List Problem
problems_of i m j =
    if j.name == ""
    then nameless (suc i) ∷ []
    else if is_known m j.name
    then duplicate j.name ∷ []
    else job_problems j

-- The first loop, from the job with number i.
unfoldable pub check_jobs : ℕ → Names → List PipelineJob → Checked
check_jobs i m [] = record { problems = []; names = m; jobs = [] }
check_jobs i m (j ∷ js) =
    let c = check_jobs (suc i) (if is_left_out m j then m else m ++ (j.name, i) ∷ []) js in
    record c {
      problems = problems_of i m j ++ c.problems;
      jobs = (if is_left_out m j then j else with_default j) ∷ c.jobs;
    }

pub record Edges : Type 0 where
  pub problems : List Problem
  pub deps : Deps

abbrev pub one_need : Names → String → List String → String → Edges → Edges
one_need m name seen need e =
    if need == name
    then record e { problems = e.problems ++ needs_itself name ∷ [] }
    else if any (λ (s : String). s == need) seen
    then record e { problems = e.problems ++ needs_twice name need ∷ [] }
    else if is_known m need
    then record e { deps = e.deps ++ (need, name) ∷ [] }
    else record e { problems = e.problems ++ needs_unknown name need ∷ [] }

unfoldable pub check_needs : Names → String → List String → List String → Edges → Edges
check_needs m name seen [] e = e
check_needs m name seen (need ∷ needs) e =
    check_needs m name (need ∷ seen) needs (one_need m name seen need e)

abbrev pub is_place : Names → String → ℕ → Bool
is_place m name i = elim (place m name) [ none ↦ false | some k ↦ k == i ]

-- The second loop: an unnamed or duplicate job is left out.
unfoldable pub check_edges : Names → ℕ → List PipelineJob → Edges → Edges
check_edges m i [] e = e
check_edges m i (j ∷ js) e =
    check_edges m (suc i) js (if is_place m j.name i then check_needs m j.name [] j.needs e else e)

-- The document with its defaults, and the map deps; or every problem found.
pub data Finalized : Type 0 where
  valid : List PipelineJob → Deps → Finalized
  invalid : List Problem → Finalized

abbrev pub by_topo : List PipelineJob → Deps → Sorted → Finalized
by_topo jobs deps (sorted order) = valid jobs deps
by_topo jobs deps (cycle names) = invalid (dependency_cycle names ∷ [])
by_topo jobs deps out_of_fuel = invalid (unreachable ∷ [])

abbrev pub by_problems : List PipelineJob → Deps → List Problem → Finalized
by_problems jobs deps [] = by_topo jobs deps (topo jobs deps)
by_problems jobs deps (p ∷ ps) = invalid (p ∷ ps)

abbrev pub no_job : List PipelineJob → List Problem
no_job [] = no_jobs ∷ []
no_job (j ∷ js) = []

unfoldable pub finalize : List PipelineJob → Finalized
finalize jobs =
    let c = check_jobs 0 [] jobs in
    let e =
      check_edges c.names 0 c.jobs (record { problems = no_job jobs ++ c.problems; deps = [] }) in
    by_problems c.jobs e.deps e.problems
