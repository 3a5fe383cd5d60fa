-- ===== src/Projects/Collections/Names.antt =====
-- The names that `sanitise_collection_component` of src/project.rs leaves alone, and that it returns.
use mmat.Prelude.{
  ℕ, zero, suc, ◌≡◌, refl, ap, ◌∙◌, subst, ◌↔◌, inl, inr, Bool, true, false, ◌&&◌, ◌||◌, not, [],
  ◌∷◌, map, all, arith, ◌==◌, length, leb, Bool-cases,
}
use mmat.Projects.Collections.{
  Chars, replace_char, has_pair, replace_pairs, collapse, trim_left, trim_right,
  sanitise_collection_component,
}
use mmat.Projects.Collections.Clean.{is_clean, sanitise_collection_component-clean}

-- A digit, a lower case letter or `_`
abbrev pub is_name_char : ℕ → Bool
is_name_char c = (leb 48 c && leb c 57) || (leb 97 c && leb c 122) || c == 95

abbrev pub starts_plain : Chars → Bool
starts_plain [] = true
starts_plain (c ∷ s) = not (c == 95)

-- Lower case letters and digits, in groups that are separated by single underscores.
pub record IsName (s : Chars) : Type 0 where
  pub chars : all s is_name_char ≡ true
  pub starts : starts_plain s ≡ true
  pub clean : is_clean s ≡ true

replace_char-name : (c : ℕ) → is_name_char (replace_char c) ≡ true
replace_char-name c = ground arith

map-names : (s : Chars) → all (map replace_char s) is_name_char ≡ true
map-names [] = refl
map-names (c ∷ s) = ground (arith, replace_char-name c, map-names s)

replace_pairs-names :
    (s : Chars) → all s is_name_char ≡ true → all (replace_pairs s) is_name_char ≡ true
unfolding replace_pairs
replace_pairs-names [] h = refl
replace_pairs-names (c ∷ []) h = h
replace_pairs-names (c ∷ d ∷ s) h =
    ground (arith, replace_pairs-names s, replace_pairs-names (d ∷ s))

collapse-names :
    (fuel : ℕ) (s : Chars) → all s is_name_char ≡ true → all (collapse fuel s) is_name_char ≡ true
unfolding collapse
collapse-names zero s h = h
collapse-names (suc fuel) s h = elim (Bool-cases (has_pair s)) [
  | inl pair ↦ rw (collapse, pair) (collapse-names fuel (replace_pairs s) (replace_pairs-names s h))
  | inr none_left ↦ rw (collapse, none_left) h
]

trim_left-names : (s : Chars) → all s is_name_char ≡ true → all (trim_left s) is_name_char ≡ true
trim_left-names [] h = refl
trim_left-names (c ∷ s) h = ground (arith, trim_left-names s)

trim_right-names : (s : Chars) → all s is_name_char ≡ true → all (trim_right s) is_name_char ≡ true
trim_right-names [] h = refl
trim_right-names (c ∷ s) h = ground (arith, trim_right-names s)

trim_left-starts : (s : Chars) → starts_plain (trim_left s) ≡ true
trim_left-starts [] = refl
trim_left-starts (c ∷ s) = ground (arith, trim_left-starts s)

trim_right-starts : (s : Chars) → starts_plain s ≡ true → starts_plain (trim_right s) ≡ true
trim_right-starts [] h = refl
trim_right-starts (c ∷ s) h = ground arith

pub sanitise_collection_component-IsName :
    (value : Chars) → IsName (sanitise_collection_component value)
unfolding sanitise_collection_component
sanitise_collection_component-IsName value =
    let output = map replace_char value in
    let collapsed = collapse (length output) output in
    record {
      chars =
          trim_right-names (trim_left collapsed)
            (trim_left-names collapsed (collapse-names (length output) output (map-names value)));
      starts = trim_right-starts (trim_left collapsed) (trim_left-starts collapsed);
      clean = sanitise_collection_component-clean value;
    }

map_kept : (s : Chars) → all s is_name_char ≡ true → map replace_char s ≡ s
map_kept [] h = refl
map_kept (c ∷ s) h = ground (arith, map_kept s)

has_pair_of_clean : (s : Chars) → is_clean s ≡ true → has_pair s ≡ false
has_pair_of_clean [] h = refl
has_pair_of_clean (c ∷ []) h = refl
has_pair_of_clean (c ∷ d ∷ s) h = ground (arith, has_pair_of_clean (d ∷ s))

collapse_kept : (fuel : ℕ) (s : Chars) → has_pair s ≡ false → collapse fuel s ≡ s
unfolding collapse
collapse_kept zero s h = refl
collapse_kept (suc fuel) s h = rw (collapse, h) refl

trim_left_kept : (s : Chars) → starts_plain s ≡ true → trim_left s ≡ s
trim_left_kept [] h = refl
trim_left_kept (c ∷ s) h = ground arith

trim_right_kept : (s : Chars) → is_clean s ≡ true → trim_right s ≡ s
trim_right_kept [] h = refl
trim_right_kept (c ∷ []) h = ground arith
trim_right_kept (c ∷ d ∷ s) h = ground (arith, trim_right_kept (d ∷ s))

sanitise_kept : (s : Chars) → IsName s → sanitise_collection_component s ≡ s
unfolding sanitise_collection_component
sanitise_kept s name =
    ap (λ output. trim_right (trim_left (collapse (length output) output))) (map_kept s name.chars)
    ∙ ap (λ t. trim_right (trim_left t))
        (collapse_kept (length s) s (has_pair_of_clean s name.clean))
    ∙ ap trim_right (trim_left_kept s name.starts)
    ∙ trim_right_kept s name.clean

-- A sanitised text consists of lower case letters and digits in groups that are separated by single
-- underscores, with none at the ends; and a text is left as it is exactly if it is of that form.
pub sanitise_collection_component_lem :
    (value : Chars)
    → IsName (sanitise_collection_component value)
      × ((sanitise_collection_component value ≡ value) ↔ IsName value)
sanitise_collection_component_lem value = (
  sanitise_collection_component-IsName value,
  ((λ e. subst IsName e (sanitise_collection_component-IsName value)), sanitise_kept value),
)
