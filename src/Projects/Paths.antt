-- ===== src/Projects/Paths.antt =====
-- The roots of projects: `normalize_path` and `normalise_root` of src/project.rs, and the methods of `Path`
-- that they call. A path is the list of its components. The environment variables that are not
-- blank, the current directory and the file system are a parameter.
pub mod Roots
mod Tests
use Prim.Native.String.{String}
use text.Mathlib.Text
use mmat.Prelude.{
  ℕ, ◌≡◌, Bool, true, false, ◌&&◌, ◌||◌, not, Option, none, some, List, [], ◌∷◌, ◌++◌, Result, ok,
  err, and_then, if◌then◌else◌,
}
use mmat.Deliver.Queue.{ProjectId}
use mmat.Projects.{Component, root_dir, cur_dir, parent_dir, normal, PathBuf}

-- The errors of SQLite and of input and output are kept as their texts.
pub data ProjectRegistryError : Type 0 where
  sqlite io invalid_project_id : String → ProjectRegistryError
  duplicate_root root_not_allowed : PathBuf → ProjectRegistryError
  not_found : ProjectId → ProjectRegistryError

pub record Environment : Type 0 where
  -- `MMAT_PROJECT_PATH`
  pub project_path : Option PathBuf
  pub current_dir : Result String PathBuf
  pub exists : PathBuf → Bool
  pub canonicalize : PathBuf → Result String PathBuf

abbrev pub component_eq : Component → Component → Bool
component_eq root_dir root_dir = true
component_eq cur_dir cur_dir = true
component_eq parent_dir parent_dir = true
component_eq (normal a) (normal b) = Text.◌==◌ a b
component_eq _ _ = false

-- `path.starts_with(base)`
abbrev pub starts_with : PathBuf → PathBuf → Bool
starts_with path [] = true
starts_with [] (c ∷ base) = false
starts_with (d ∷ path) (c ∷ base) = component_eq d c && starts_with path base

abbrev pub is_absolute : PathBuf → Bool
is_absolute (root_dir ∷ path) = true
is_absolute _ = false

-- `base.join(path)`
abbrev pub join : PathBuf → PathBuf → PathBuf
join base path = if is_absolute path then path else base ++ path

-- `result.pop()`: the root stays.
abbrev pub pop : PathBuf → PathBuf
pop [] = []
pop (root_dir ∷ []) = root_dir ∷ []
pop (c ∷ []) = []
pop (c ∷ d ∷ path) = c ∷ pop (d ∷ path)

-- `result.push(component)`
abbrev pub push : PathBuf → Component → PathBuf
push result root_dir = root_dir ∷ []
push result component = result ++ component ∷ []

-- The `for` loop
unfoldable pub normalize_loop : PathBuf → PathBuf → PathBuf
normalize_loop result [] = result
normalize_loop result (parent_dir ∷ path) = normalize_loop (pop result) path
normalize_loop result (cur_dir ∷ path) = normalize_loop result path
normalize_loop result (root_dir ∷ path) = normalize_loop (push result root_dir) path
normalize_loop result (normal name ∷ path) = normalize_loop (push result (normal name)) path

unfoldable pub normalize_path : PathBuf → PathBuf
unfolding normalize_loop
normalize_path path = normalize_loop [] path

abbrev pub io_error : {A : Type 0} → Result String A → Result ProjectRegistryError A
io_error (ok a) = ok a
io_error (err text) = err (io text)

module _ (env : Environment) where
  abbrev pub resolve : PathBuf → PathBuf
  resolve root = elim env.project_path [
    | none ↦ root
    | some base ↦ if is_absolute root then root else join base root
  ]

  unfoldable pub normalised : PathBuf → Result ProjectRegistryError PathBuf
  unfolding normalize_path
  normalised resolved =
      if env.exists resolved
      then io_error (env.canonicalize resolved)
      else if is_absolute resolved
      then ok (normalize_path resolved)
      else and_then (io_error env.current_dir) (λ dir. ok (normalize_path (join dir resolved)))

  abbrev pub canonical_base : PathBuf → Result ProjectRegistryError PathBuf
  canonical_base base = if env.exists base then io_error (env.canonicalize base) else ok base

  -- The check of the base, where there is one.
  unfoldable pub check_base : Option PathBuf → PathBuf → Result ProjectRegistryError PathBuf
  check_base none path = ok path
  check_base (some base) path = and_then (canonical_base base) (λ canonical.
      if not (starts_with path base) && not (starts_with path canonical)
      then err (root_not_allowed path)
      else ok path)

  unfoldable pub normalise_root : PathBuf → Result ProjectRegistryError PathBuf
  unfolding normalised check_base
  normalise_root root =
      and_then (normalised (resolve root)) (λ path. check_base env.project_path path)
