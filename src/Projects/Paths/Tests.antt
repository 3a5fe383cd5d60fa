-- ===== src/Projects/Paths/Tests.antt =====
-- Roots of projects, and the theorem at one.
use mmat.Prelude.{arith, ◌≡◌, refl, true, false, some, [], ◌∷◌, ok, err}
use mmat.Projects.{root_dir, parent_dir, normal, PathBuf}
use mmat.Projects.Paths.{
  Environment, normalize_loop, normalize_path, normalised, check_base, normalise_root,
  root_not_allowed,
}
use mmat.Projects.Paths.Roots.{is_resolved, IsUsual, IsInside, normalise_root-IsInside}

program : Unit {0}
unfolding normalize_loop normalize_path normalised check_base normalise_root
program = tt

-- `/projects`, and nothing in it exists.
abbrev projects : PathBuf
projects = root_dir ∷ normal "projects" ∷ []

abbrev env : Environment
env = record {
  project_path = some projects;
  current_dir = ok (root_dir ∷ []);
  exists = λ path. false;
  canonicalize = λ path. ok (root_dir ∷ []);
}

relative :
    normalise_root env (normal "a" ∷ parent_dir ∷ normal "b" ∷ [])
    ≡ ok (root_dir ∷ normal "projects" ∷ normal "b" ∷ [])
unfolding program
relative = refl

escapes :
    normalise_root env (normal "a" ∷ parent_dir ∷ parent_dir ∷ normal "etc" ∷ [])
    ≡ err (root_not_allowed (root_dir ∷ normal "etc" ∷ []))
unfolding program
escapes = refl

env-IsUsual : IsUsual env
env-IsUsual = record {
  canonical = λ path path' e. ground (arith, e);
  current = λ dir e. ground (arith, e);
}

normalise_root-IsInside_example :
    (is_resolved (root_dir ∷ normal "projects" ∷ normal "b" ∷ []) ≡ true)
    × ((base : PathBuf)
        → some projects ≡ some base
        → IsInside env env-IsUsual base (root_dir ∷ normal "projects" ∷ normal "b" ∷ []))
normalise_root-IsInside_example =
    normalise_root-IsInside env env-IsUsual (normal "a" ∷ parent_dir ∷ normal "b" ∷ [])
      (root_dir ∷ normal "projects" ∷ normal "b" ∷ []) relative
