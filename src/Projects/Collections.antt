-- ===== src/Projects/Collections.antt =====
-- The names of knowledge collections: `sanitise_collection_component`, `default_collection_prefix` and
-- `prefix_collection_id` of src/project.rs. A text is the list of its code points; `_` is 95.
pub mod Clean
pub mod Split
pub mod Names
mod Tests
use mmat.Prelude.{
  ℕ, zero, suc, ◌+◌, Bool, true, false, ◌&&◌, ◌||◌, List, [], ◌∷◌, ◌++◌, map, leb, ◌==◌,
  if◌then◌else◌, length,
}

abbrev pub Chars : Type 0
Chars = List ℕ

-- A digit, an upper case letter, a lower case letter
abbrev pub is_ascii_alphanumeric : ℕ → Bool
is_ascii_alphanumeric c =
    (leb 48 c && leb c 57) || (leb 65 c && leb c 90) || (leb 97 c && leb c 122)

abbrev pub to_ascii_lowercase : ℕ → ℕ
to_ascii_lowercase c = if leb 65 c && leb c 90 then c + 32 else c

abbrev pub replace_char : ℕ → ℕ
replace_char c = if is_ascii_alphanumeric c then to_ascii_lowercase c else 95

-- `contains("__")`
abbrev pub has_pair : Chars → Bool
has_pair [] = false
has_pair (c ∷ []) = false
has_pair (c ∷ d ∷ s) = (c == 95 && d == 95) || has_pair (d ∷ s)

-- `replace("__", "_")`: the matches from the left that do not overlap.
unfoldable pub replace_pairs : Chars → Chars
replace_pairs [] = []
replace_pairs (c ∷ []) = c ∷ []
replace_pairs (c ∷ d ∷ s) =
    let matched = replace_pairs s in
    let unmatched = replace_pairs (d ∷ s) in
    if c == 95 && d == 95 then 95 ∷ matched else c ∷ unmatched

-- The `while` loop, on fuel: each round makes the text shorter.
unfoldable pub collapse : ℕ → Chars → Chars
unfolding replace_pairs
collapse zero s = s
collapse (suc fuel) s = let rest = collapse fuel (replace_pairs s) in if has_pair s then rest else s

abbrev pub is_empty : Chars → Bool
is_empty [] = true
is_empty (c ∷ s) = false

-- `trim_matches('_')`
abbrev pub trim_left : Chars → Chars
trim_left [] = []
trim_left (c ∷ s) = let rest = trim_left s in if c == 95 then rest else c ∷ s

abbrev pub trim_right : Chars → Chars
trim_right [] = []
trim_right (c ∷ s) = let rest = trim_right s in if is_empty rest && c == 95 then [] else c ∷ rest

unfoldable pub sanitise_collection_component : Chars → Chars
unfolding collapse
sanitise_collection_component value =
    let output = map replace_char value in trim_right (trim_left (collapse (length output) output))

-- `p_` is 112 and 95.
unfoldable pub default_collection_prefix : Chars → Chars
unfolding sanitise_collection_component
default_collection_prefix project_id = 112 ∷ 95 ∷ sanitise_collection_component project_id

unfoldable pub prefix_collection_id : Chars → Chars → Chars
unfolding sanitise_collection_component
prefix_collection_id prefix collection =
    let prefix' = sanitise_collection_component prefix in
    let collection' = sanitise_collection_component collection in
    if is_empty prefix' then collection' else prefix' ++ (95 ∷ 95 ∷ collection')
