-- ===== src/Projects/Collections/Tests.antt =====
-- Names of collections, and the theorems at some; code points stand for characters.
use mmat.Prelude.{◌≡◌, refl, ◌↔◌, [], ◌∷◌}
use mmat.Projects.Collections.{
  Chars, replace_pairs, collapse, sanitise_collection_component, default_collection_prefix,
  prefix_collection_id,
}
use mmat.Projects.Collections.Names.{IsName, sanitise_collection_component_lem}
use mmat.Projects.Collections.Split.{prefix_collection_id-injective}

program : Unit {0}
unfolding replace_pairs collapse sanitise_collection_component default_collection_prefix
    prefix_collection_id
program = tt

-- `p_a`
abbrev p_a : Chars
p_a = 112 ∷ 95 ∷ 97 ∷ []

-- `-Code  Repo-` becomes `code_repo`
abbrev code_repo : Chars
code_repo = 45 ∷ 67 ∷ 111 ∷ 100 ∷ 101 ∷ 32 ∷ 32 ∷ 82 ∷ 101 ∷ 112 ∷ 111 ∷ 45 ∷ []

sanitised :
    sanitise_collection_component code_repo ≡ 99 ∷ 111 ∷ 100 ∷ 101 ∷ 95 ∷ 114 ∷ 101 ∷ 112 ∷ 111 ∷ []
unfolding program
sanitised = refl

prefixed : prefix_collection_id p_a (66 ∷ []) ≡ 112 ∷ 95 ∷ 97 ∷ 95 ∷ 95 ∷ 98 ∷ []
unfolding program
prefixed = refl

sanitise_collection_component_lem_example :
    IsName (sanitise_collection_component code_repo)
    × ((sanitise_collection_component code_repo ≡ code_repo) ↔ IsName code_repo)
sanitise_collection_component_lem_example = sanitise_collection_component_lem code_repo

prefix_collection_id-injective_example :
    (sanitise_collection_component p_a ≡ sanitise_collection_component (80 ∷ 95 ∷ 65 ∷ []))
    × (sanitise_collection_component (66 ∷ []) ≡ sanitise_collection_component (98 ∷ 95 ∷ []))
unfolding program
prefix_collection_id-injective_example =
    prefix_collection_id-injective p_a (80 ∷ 95 ∷ 65 ∷ []) (66 ∷ []) (98 ∷ 95 ∷ []) refl refl refl
