-- ===== src/Projects/Registry.antt =====
-- The registry of projects: `ProjectRegistryStore` of src/project.rs. The table `projects` is the list of
-- its rows in the order of insertion; its two constraints are written out. The clock and the
-- generated id are arguments, and so is the text of an id.
pub mod Registered
mod Tests
use Prim.Native.String.{String}
use mmat.Prelude.{
  ℕ, ◌≡◌, Bool, true, false, ◌&&◌, ◌||◌, not, Option, none, some, List, [], ◌∷◌, ◌++◌, any, find,
  Result, ok, err, and_then, ◌==◌, if◌then◌else◌, unwrap_or,
}
use mathlib.Core.Option
use mmat.Deliver.Queue.{ProjectId}
use mmat.Projects.{
  Component, root_dir, cur_dir, parent_dir, normal, PathBuf, ProjectConfig, default_id,
}
use mmat.Projects.Paths.{
  ProjectRegistryError, sqlite, io, invalid_project_id, duplicate_root, root_not_allowed, not_found,
  Environment, component_eq, normalise_root,
}
use mmat.Projects.Collections.{Chars, default_collection_prefix}

pub record NewProject : Type 0 where
  pub name : String
  pub root : PathBuf
  pub data_dir : Option PathBuf
  pub enabled : Bool
  pub qdrant_collection_prefix : Option Chars
  pub repo_label : Option String

pub record ProjectRow : Type 0 where
  pub config : ProjectConfig
  pub created_at : ℕ
  pub updated_at : ℕ

abbrev pub ProjectRegistryStore : Type 0
ProjectRegistryStore = List ProjectRow

abbrev pub path_eq : PathBuf → PathBuf → Bool
path_eq [] [] = true
path_eq [] (d ∷ other) = false
path_eq (c ∷ path) [] = false
path_eq (c ∷ path) (d ∷ other) = component_eq c d && path_eq path other

abbrev pub file_name : PathBuf → Option String
file_name [] = none
file_name (normal name ∷ []) = some name
file_name (c ∷ []) = none
file_name (c ∷ d ∷ path) = file_name (d ∷ path)

-- `MMAT_DATA_PATH` is `data_path`.
abbrev pub default_data_dir_for_root : Option PathBuf → PathBuf → PathBuf
default_data_dir_for_root (some base) root =
    base ++ normal (unwrap_or "default" (file_name root)) ∷ []
default_data_dir_for_root none root = root ++ normal ".mmat" ∷ []

-- Constructor of `NewProject`
abbrev pub from_root : String → PathBuf → NewProject
from_root name root = record {
  name = name;
  root = root;
  data_dir = none;
  enabled = true;
  qdrant_collection_prefix = none;
  repo_label = none;
}

abbrev pub row_with_root : PathBuf → ProjectRegistryStore → Option ProjectConfig
row_with_root root [] = none
row_with_root root (row ∷ rows) =
    let rest = row_with_root root rows in
    if path_eq row.config.root root then some row.config else rest

abbrev pub row_with_id : ProjectId → ProjectRegistryStore → Option ProjectConfig
row_with_id id [] = none
row_with_id id (row ∷ rows) =
    let rest = row_with_id id rows in if row.config.id == id then some row.config else rest

unfoldable pub get_project :
    ProjectId → ProjectRegistryStore → Result ProjectRegistryError ProjectConfig
get_project id rows = elim (row_with_id id rows) [
  | none ↦ err (not_found id)
  | some config ↦ ok config
]

module _ (env : Environment) (data_path : Option PathBuf) (id_text : ProjectId → Chars) where
  unfoldable pub find_by_root :
      PathBuf → ProjectRegistryStore → Result ProjectRegistryError (Option ProjectConfig)
  find_by_root root rows = and_then (normalise_root env root) (λ path. ok (row_with_root path rows))

  abbrev pub default_for_root : PathBuf → Result ProjectRegistryError ProjectConfig
  default_for_root root = and_then (normalise_root env root) (λ path.
      let name = unwrap_or "workspace" (file_name path) in
      ok (record {
        id = default_id;
        name = name;
        root = path;
        data_dir = default_data_dir_for_root data_path path;
        enabled = true;
        qdrant_collection_prefix = default_collection_prefix (id_text default_id);
        repo_label = some name;
      }))

  -- The statement, with the constraints `PRIMARY KEY` and `UNIQUE`
  abbrev pub insert_row :
      ℕ → ProjectConfig → ProjectRegistryStore → Result ProjectRegistryError ProjectRegistryStore
  insert_row now config rows = elim (row_with_id config.id rows) [
    | some other ↦ err (sqlite "UNIQUE constraint failed: projects.id")
    | none ↦ elim (row_with_root config.root rows) [
      | some other ↦ err (sqlite "UNIQUE constraint failed: projects.root")
      | none ↦ ok (rows ++ record { config = config; created_at = now; updated_at = now } ∷ [])
    ]
  ]

  unfoldable pub insert_project :
      ℕ → ProjectConfig → ProjectRegistryStore → Result ProjectRegistryError ProjectRegistryStore
  unfolding find_by_root
  insert_project now config rows = and_then (find_by_root config.root rows) (λ found. elim found [
    | some other ↦ err (duplicate_root config.root)
    | none ↦ insert_row now config rows
  ])

  abbrev pub config_of : ProjectId → NewProject → PathBuf → ProjectConfig
  config_of id project root = record {
    id = id;
    name = project.name;
    root = root;
    data_dir = unwrap_or (default_data_dir_for_root data_path root) project.data_dir;
    enabled = project.enabled;
    qdrant_collection_prefix =
        unwrap_or (default_collection_prefix (id_text id)) project.qdrant_collection_prefix;
    repo_label = project.repo_label;
  }

  unfoldable pub register_project :
      ProjectId
      → ℕ
      → NewProject
      → ProjectRegistryStore
      → Result ProjectRegistryError (ProjectRegistryStore × ProjectConfig)
  unfolding insert_project
  register_project id now project rows = and_then (normalise_root env project.root) (λ root.
      let config = config_of id project root in
      and_then (insert_project now config rows) (λ rows'. ok (rows', config)))

  -- The `UPDATE`, where the id is there
  abbrev pub set_row : ℕ → ProjectConfig → PathBuf → ProjectRegistryStore → ProjectRegistryStore
  set_row now config root [] = []
  set_row now config root (row ∷ rows) =
      let rest = set_row now config root rows in
      if row.config.id == config.id
      then record {
        config = record config { root = root };
        created_at = row.created_at;
        updated_at = now;
      }
        ∷ rest
      else row ∷ rest

  unfoldable pub update_project :
      ℕ → ProjectConfig → ProjectRegistryStore → Result ProjectRegistryError ProjectRegistryStore
  unfolding find_by_root
  update_project now config rows = and_then (normalise_root env config.root) (λ root.
      and_then (find_by_root root rows) (λ found.
        if elim found [ none ↦ false | some existing ↦ not (existing.id == config.id) ]
        then err (duplicate_root root)
        else elim (row_with_id config.id rows) [
          | none ↦ err (not_found config.id)
          | some existing ↦ ok (set_row now config root rows)
        ]))

  unfoldable pub ensure_default_project :
      ℕ
      → PathBuf
      → ProjectRegistryStore
      → Result ProjectRegistryError (ProjectRegistryStore × ProjectConfig)
  unfolding find_by_root update_project insert_project
  ensure_default_project now root rows = and_then (normalise_root env root) (λ path.
      and_then (find_by_root path rows) (λ found. elim found [
        | some project ↦ ok (rows, project)
        | none ↦ elim (row_with_id default_id rows) [
          | some existing ↦
              let moved = record existing {
                root = path;
                data_dir = default_data_dir_for_root data_path path;
                name = unwrap_or "workspace" (file_name path);
              } in
              and_then (update_project now moved rows) (λ rows'. ok (rows', moved))
          | none ↦
              and_then (default_for_root path)
                (λ config. and_then (insert_project now config rows) (λ rows'. ok (rows', config)))
        ]
      ]))
