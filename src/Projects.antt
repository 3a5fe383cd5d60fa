-- ===== src/Projects.antt =====
-- Projects: the data of src/project.rs.
pub mod Collections
pub mod Paths
pub mod Registry
use mmat.Prelude.{ℕ, Bool, Option, List, String}
use mmat.Deliver.Queue.{ProjectId}

-- The literal ids `placeholder` and `default` have the numbers 0 and 1.
abbrev pub placeholder_id : ProjectId
placeholder_id = 0

abbrev pub default_id : ProjectId
default_id = 1

-- A collection prefix is the list of its code points.

-- The components of a path.
pub data Component : Type 0 where
  root_dir cur_dir parent_dir : Component
  normal : String → Component

abbrev pub PathBuf : Type 0
PathBuf = List Component

pub record ProjectConfig : Type 0 where
  pub id : ProjectId
  pub name : String
  pub root : PathBuf
  pub data_dir : PathBuf
  pub enabled : Bool
  pub qdrant_collection_prefix : List ℕ
  pub repo_label : Option String
