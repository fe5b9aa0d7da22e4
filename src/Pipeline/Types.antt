-- ===== src/Pipeline/Types.antt =====
-- The document of internal/pipeline/pipeline.go, as the YAML decoder hands it over.
use quarry.Base.{ℤ, String, List, [], ◌∷◌}

-- Of the number of CPUs (a float in the source) only the sign is read: it is in thousandths here.
pub record Resources : Type 0 where
  pub cpu : ℤ
  pub memory : String

-- The timeout is in nanoseconds.
pub record PipelineJob : Type 0 where
  pub name : String
  pub image : String
  pub steps : List String
  pub needs : List String
  pub env : List (String × String)
  pub labels : List (String × String)
  pub artifacts : List String
  pub timeout : ℤ
  pub resources : Resources

pub record Pipeline : Type 0 where
  pub name : String
  pub jobs : List PipelineJob

abbrev root_names : PipelineJob → List String → List String → List String
root_names j [] rest = j.name ∷ rest
root_names j (n ∷ ns) rest = rest

-- Roots: the jobs with no needs, in declaration order.
unfoldable pub roots : List PipelineJob → List String
roots [] = []
roots (j ∷ js) = root_names j j.needs (roots js)
