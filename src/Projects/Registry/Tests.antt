-- ===== src/Projects/Registry/Tests.antt =====
-- A registry, and the theorem at it.
use mmat.Prelude.{ℕ, ◌≡◌, ◌⊎◌, refl, false, none, some, List, [], ◌∷◌, ok, err}
use mmat.Projects.{root_dir, normal, PathBuf, ProjectConfig}
use mmat.Projects.Paths.{
  Environment, duplicate_root, normalize_loop, normalize_path, normalised, check_base,
  normalise_root,
}
use mmat.Projects.Registry.{
  NewProject, ProjectRegistryStore, default_data_dir_for_root, from_root, row_with_root,
  get_project, find_by_root, insert_project, register_project, update_project,
  ensure_default_project,
}
use mmat.Projects.Registry.Registered.{IsConfigured, IsRegistered, register_project-IsRegistered}

program : Unit {0}
unfolding normalize_loop normalize_path normalised check_base normalise_root find_by_root
    insert_project register_project update_project ensure_default_project get_project
program = tt

abbrev env : Environment
env = record {
  project_path = none;
  current_dir = ok (root_dir ∷ []);
  exists = λ path. false;
  canonicalize = λ path. ok (root_dir ∷ []);
}

abbrev code : PathBuf
code = root_dir ∷ normal "code" ∷ []

abbrev id_text : ℕ → List ℕ
id_text id = id ∷ []

normalised_code : normalise_root env code ≡ ok code
unfolding program
normalised_code = refl

-- The project brings its own data directory, and no prefix.
abbrev new_project : NewProject
new_project = record (from_root "Code" code) { data_dir = some (root_dir ∷ normal "data" ∷ []) }

register_project-IsRegistered_example :
    (((other : ProjectConfig) × (row_with_root code [] ≡ some other))
      × (register_project env none id_text 98 10 new_project [] ≡ err (duplicate_root code)))
    ⊎ ((row_with_root code [] ≡ none)
        × ((config : ProjectConfig) × (rows' : ProjectRegistryStore) × (register_project env none
                id_text 98 10 new_project []
              ≡ ok (rows', config))
            × IsConfigured none id_text 98 new_project code config
            × IsRegistered env none id_text 10 config [] rows'))
register_project-IsRegistered_example =
    register_project-IsRegistered env none id_text 98 10 new_project [] code refl normalised_code
      normalised_code

stored_below_data_path :
    default_data_dir_for_root (some (root_dir ∷ normal "var" ∷ [])) code
    ≡ root_dir ∷ normal "var" ∷ normal "code" ∷ []
stored_below_data_path = refl
