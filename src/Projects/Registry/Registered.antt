-- ===== src/Projects/Registry/Registered.antt =====
-- Registering a project: `register_project` of src/project.rs.
use mmat.Prelude.{
  ℕ, ◌≡◌, refl, ◌⊎◌, inl, inr, true, false, String, Option, none, some, [], ◌∷◌, ◌++◌, arith, ok,
  err, ◌==◌, ==_refl, if◌then◌else◌, Option-cases,
}
use text.Mathlib.TextEquality.{eq_iff}
use mmat.Deliver.Queue.{ProjectId}
use mmat.Projects.{root_dir, cur_dir, parent_dir, normal, Component, PathBuf, ProjectConfig}
use mmat.Projects.Paths.{duplicate_root, Environment, component_eq, normalise_root}
use mmat.Projects.Collections.{Chars, sanitise_collection_component, default_collection_prefix}
use mmat.Projects.Registry.{
  NewProject, ProjectRow, ProjectRegistryStore, path_eq, file_name, row_with_root, row_with_id,
  get_project, find_by_root, insert_row, insert_project, config_of, register_project,
}

-- Looking up by id behind a new row
row_with_id-append :
    (id : ProjectId) (rows : ProjectRegistryStore) (row : ProjectRow)
    → row_with_id id (rows ++ row ∷ []) ≡ elim (row_with_id id rows) [
      | some config ↦ some config
      | none ↦ if row.config.id == id then some row.config else none
    ]
row_with_id-append id [] row = ground arith
row_with_id-append id (first ∷ rows) row = ground (arith, row_with_id-append id rows row)

-- The name at the end of a path
file_name-append :
    (front : PathBuf) (name : String) → file_name (front ++ normal name ∷ []) ≡ some name
file_name-append [] name = refl
file_name-append (c ∷ []) name = refl
file_name-append (c ∷ d ∷ front) name = file_name-append (d ∷ front) name

component_eq_refl : (c : Component) → component_eq c c ≡ true
component_eq_refl root_dir = refl
component_eq_refl cur_dir = refl
component_eq_refl parent_dir = refl
component_eq_refl (normal name) = (eq_iff name name).1 refl

path_eq_refl : (path : PathBuf) → path_eq path path ≡ true
path_eq_refl [] = refl
path_eq_refl (c ∷ path) = rw (component_eq_refl c) (path_eq_refl path)

row_with_root-append :
    (root : PathBuf) (rows : ProjectRegistryStore) (row : ProjectRow)
    → row_with_root root rows ≡ none
    → path_eq row.config.root root ≡ true
    → row_with_root root (rows ++ row ∷ []) ≡ some row.config
row_with_root-append root [] row free same = ground arith
row_with_root-append root (first ∷ rows) row free same =
    ground (arith, row_with_root-append root rows row)

-- The configuration that a new project should get.
pub record IsConfigured (data_path : Option PathBuf) (id_text : ProjectId → Chars) (id : ProjectId)
    (project : NewProject) (root : PathBuf) (config : ProjectConfig) : Type 0 where
  pub same_id : config.id ≡ id
  pub name : config.name ≡ project.name
  pub same_root : config.root ≡ root
  pub enabled : config.enabled ≡ project.enabled
  pub repo_label : config.repo_label ≡ project.repo_label
  pub own_data_dir : (dir : PathBuf) → project.data_dir ≡ some dir → config.data_dir ≡ dir
  pub inside_root :
      project.data_dir ≡ none → data_path ≡ none → config.data_dir ≡ root ++ normal ".mmat" ∷ []
  pub below_data_path :
      (base front : PathBuf) (last : String)
      → project.data_dir ≡ none
      → data_path ≡ some base
      → root ≡ front ++ normal last ∷ []
      → config.data_dir ≡ base ++ normal last ∷ []
  pub own_prefix :
      (prefix : Chars)
      → project.qdrant_collection_prefix ≡ some prefix
      → config.qdrant_collection_prefix ≡ prefix
  pub default_prefix :
      project.qdrant_collection_prefix ≡ none
      → config.qdrant_collection_prefix ≡ 112 ∷ 95 ∷ sanitise_collection_component (id_text id)

module _ (env : Environment) (data_path : Option PathBuf) (id_text : ProjectId → Chars) where
  config_of-IsConfigured :
      (id : ProjectId) (project : NewProject) (root : PathBuf)
      → IsConfigured data_path id_text id project root
          (config_of env data_path id_text id project root)
  unfolding default_collection_prefix
  config_of-IsConfigured id project root = record {
    same_id = refl;
    name = refl;
    same_root = refl;
    enabled = refl;
    repo_label = refl;
    own_data_dir = λ dir e. rw e refl;
    inside_root = λ own e. rw (own, e) refl;
    below_data_path =
        λ base front last own e f. rw (own, e) (rw (f, file_name-append front last) refl);
    own_prefix = λ prefix e. rw e refl;
    default_prefix = λ own. rw own refl;
  }

  -- What becomes of the registry.
  pub record IsRegistered (now : ℕ) (config : ProjectConfig) (rows rows' : ProjectRegistryStore)
      : Type 0 where
    pub added : rows' ≡ rows ++ record { config = config; created_at = now; updated_at = now } ∷ []
    pub found_root : row_with_root config.root rows' ≡ some config
    pub found : get_project config.id rows' ≡ ok config
    pub others :
        (id : ProjectId) → (config.id == id) ≡ false → get_project id rows' ≡ get_project id rows

  -- A new project is registered under an id that no project has, with a root that is accepted, and
  -- whose accepted form is accepted unchanged. If a project with that accepted root is registered
  -- already, the result is the error that names the root. Otherwise a configuration is returned
  -- with that id and root, the project's name, label and whether it is enabled, and the project's own
  -- data directory and collection prefix. Without an own directory it is `.mmat` in the root, or,
  -- where a data path is set, the directory there with the last name of the root; without an own
  -- prefix it is `p_` and the sanitised id. The configuration is added to the registry: its id
  -- and its root give it back, and every other id gives what it gave before.
  pub register_project-IsRegistered :
      (id : ProjectId) (now : ℕ) (project : NewProject) (rows : ProjectRegistryStore)
      (root : PathBuf)
      → row_with_id id rows ≡ none
      → normalise_root env project.root ≡ ok root
      → normalise_root env root ≡ ok root
      → (((other : ProjectConfig) × (row_with_root root rows ≡ some other))
          × (register_project env data_path id_text id now project rows
              ≡ err (duplicate_root root)))
        ⊎ ((row_with_root root rows ≡ none)
            × ((config : ProjectConfig) × (rows' : ProjectRegistryStore) × (register_project env
                    data_path id_text id now project rows
                  ≡ ok (rows', config))
                × IsConfigured data_path id_text id project root config
                × IsRegistered now config rows rows'))
  unfolding register_project insert_project find_by_root get_project
  register_project-IsRegistered id now project rows root new e f =
      let config = config_of env data_path id_text id project root in
      let row : ProjectRow = record { config = config; created_at = now; updated_at = now } in
      elim (Option-cases (row_with_root root rows)) [
        | inr (other, known) ↦
            inl (
              (other, known),
              rw (register_project, e, insert_project, find_by_root, f, known) refl,
            )
        | inl free ↦ inr (
          free,
          (
            config,
            rows ++ row ∷ [],
            rw (register_project, e, insert_project, find_by_root, f, free, insert_row, new, free)
                refl,
            config_of-IsConfigured id project root,
            record {
              added = refl;
              found_root = row_with_root-append root rows row free (path_eq_refl root);
              found = rw (get_project, row_with_id-append id rows row, new, ==_refl id) refl;
              others = λ other different. elim (Option-cases (row_with_id other rows)) [
                | inl absent ↦
                    rw (get_project, row_with_id-append other rows row, absent, different) refl
                | inr (there, present) ↦
                    rw (get_project, row_with_id-append other rows row, present) refl
              ];
            },
          ),
        )
      ]
