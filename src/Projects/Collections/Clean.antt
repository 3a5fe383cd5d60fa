-- ===== src/Projects/Collections/Clean.antt =====
-- The result of `sanitise_collection_component` of src/project.rs: single underscores, and none at the ends.
use mmat.Prelude.{
  ℕ, zero, suc, ◌≤◌, ◌<◌, ◌≡◌, refl, inl, inr, Bool, true, false, ◌&&◌, not, [], ◌∷◌, map, arith,
  ◌==◌, if◌then◌else◌, length, Bool-cases,
}
use mmat.Projects.Collections.{
  Chars, replace_char, has_pair, replace_pairs, collapse, is_empty, trim_left, trim_right,
  sanitise_collection_component,
}

length-replace_pairs_le : (s : Chars) → length (replace_pairs s) ≤ length s
unfolding replace_pairs
length-replace_pairs_le [] = omega arith
length-replace_pairs_le (c ∷ []) = omega arith
length-replace_pairs_le (c ∷ d ∷ s) =
    ground (arith, length-replace_pairs_le s, length-replace_pairs_le (d ∷ s))

length-replace_pairs : (s : Chars) → has_pair s ≡ true → length (replace_pairs s) < length s
unfolding replace_pairs
length-replace_pairs [] h = absurd (ground arith)
length-replace_pairs (c ∷ []) h = absurd (ground arith)
length-replace_pairs (c ∷ d ∷ s) h =
    ground (arith, length-replace_pairs_le s, length-replace_pairs (d ∷ s))

-- The fuel is enough: the loop ends with no pair left.
has_pair-collapse : (fuel : ℕ) (s : Chars) → length s ≤ fuel → has_pair (collapse fuel s) ≡ false
unfolding collapse
has_pair-collapse zero [] h = refl
has_pair-collapse zero (c ∷ s) h = absurd (omega arith)
has_pair-collapse (suc fuel) s h = elim (Bool-cases (has_pair s)) [
  | inl pair ↦
      rw (collapse, pair)
        (has_pair-collapse fuel (replace_pairs s) (omega (arith, length-replace_pairs s pair)))
  | inr none_left ↦ rw (collapse, none_left) none_left
]

has_pair-trim_left : (s : Chars) → has_pair s ≡ false → has_pair (trim_left s) ≡ false
has_pair-trim_left [] h = refl
has_pair-trim_left (c ∷ []) h = ground arith
has_pair-trim_left (c ∷ d ∷ s) h = ground (arith, has_pair-trim_left (d ∷ s))

-- No two underscores follow each other, and none is the last character.
abbrev pub is_clean : Chars → Bool
is_clean [] = true
is_clean (c ∷ []) = not (c == 95)
is_clean (c ∷ d ∷ s) = not (c == 95 && d == 95) && is_clean (d ∷ s)

-- Put before what is trimmed already.
unfoldable cons_trimmed : ℕ → Chars → Chars
cons_trimmed c rest = if is_empty rest && c == 95 then [] else c ∷ rest

is_clean-cons_trimmed :
    (c d : ℕ) (rest : Chars)
    → (c == 95 && d == 95) ≡ false
    → is_clean (cons_trimmed d rest) ≡ true
    → is_clean (cons_trimmed c (cons_trimmed d rest)) ≡ true
unfolding cons_trimmed
is_clean-cons_trimmed c d [] h k = ground arith
is_clean-cons_trimmed c d (e ∷ rest) h k = ground arith

is_clean-trim_right : (s : Chars) → has_pair s ≡ false → is_clean (trim_right s) ≡ true
unfolding cons_trimmed
is_clean-trim_right [] h = refl
is_clean-trim_right (c ∷ []) h = ground arith
is_clean-trim_right (c ∷ d ∷ s) h =
    is_clean-cons_trimmed c d (trim_right s) (ground arith)
      (is_clean-trim_right (d ∷ s) (ground arith))

pub sanitise_collection_component-clean :
    (value : Chars) → is_clean (sanitise_collection_component value) ≡ true
unfolding sanitise_collection_component
sanitise_collection_component-clean value =
    let output = map replace_char value in
    is_clean-trim_right (trim_left (collapse (length output) output)) (
      has_pair-trim_left (collapse (length output) output)
        (has_pair-collapse (length output) output (omega arith)))
