-- ===== src/Artifact/Path.antt =====
-- internal/artifact/artifact.go: the keys of artifacts, and the checks of paths and keys.
use quarry.Base.{
  ℕ, List, [], ◌∷◌, ◌++◌, Option, none, some, Bool, true, false, ◌||◌, ◌==◌, ℕ-eq, ltb,
  if◌then◌else◌, length, any, codes, split, decimal,
}

abbrev pub slash : ℕ
slash = 47

-- Ids and paths are their bytes.
abbrev pub source_key : List ℕ → List ℕ
source_key run_id = codes "sources/" ++ run_id ++ codes ".tar"

abbrev pub job_prefix : List ℕ → List ℕ → ℕ → List ℕ
job_prefix run_id job_id attempt =
    codes "runs/"
    ++ (run_id ++ (codes "/jobs/" ++ (job_id ++ (codes "/" ++ (decimal attempt ++ codes "/")))))

abbrev pub job_key : List ℕ → List ℕ → ℕ → List ℕ → List ℕ
job_key run_id job_id attempt path = job_prefix run_id job_id attempt ++ path

abbrev pub max_path_len : ℕ
max_path_len = 1024

-- One constructor for each message.
pub data PathError : Type 0 where
  empty_path too_long forbidden absolute empty_segment dot dot_dot : PathError

-- A control character, DEL or a backslash. The loop runs over runes: those tested for are one byte,
-- and no byte of a longer rune is one of them.
abbrev pub is_forbidden : ℕ → Bool
is_forbidden c = ltb c 32 || (c == 127 || c == 92)

abbrev pub is_absolute : List ℕ → Bool
is_absolute [] = false
is_absolute (c ∷ cs) = c == slash

abbrev pub is_text : List ℕ → List ℕ → Bool
is_text [] [] = true
is_text (c ∷ cs) (d ∷ ds) = if c == d then is_text cs ds else false
is_text cs ds = false

abbrev pub check_segment : List ℕ → Option PathError → Option PathError
check_segment seg rest =
    if is_text seg []
    then some empty_segment
    else if is_text seg (codes ".")
    then some dot
    else if is_text seg (codes "..")
    then some dot_dot
    else rest

-- The first bad segment.
unfoldable pub check_segments : List (List ℕ) → Option PathError
check_segments [] = none
check_segments (seg ∷ segs) = check_segment seg (check_segments segs)

-- No error is `none`.
unfoldable pub validate_path : List ℕ → Option PathError
validate_path p =
    if is_text p []
    then some empty_path
    else if ltb max_path_len (length p)
    then some too_long
    else if any is_forbidden p
    then some forbidden
    else if is_absolute p
    then some absolute
    else check_segments (split slash p)

-- The error is wrapped.
abbrev pub validate_key : List ℕ → Option PathError
validate_key key = validate_path key
