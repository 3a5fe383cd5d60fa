-- ===== src/Projects/Collections/Split.antt =====
-- Collections of different prefixes: `prefix_collection_id` of src/project.rs.
use mmat.Prelude.{◌≡◌, refl, true, false, [], ◌∷◌, ◌++◌, arith}
use mmat.Projects.Collections.{Chars, is_empty, sanitise_collection_component, prefix_collection_id}
use mmat.Projects.Collections.Clean.{is_clean, sanitise_collection_component-clean}

-- The first pair of underscores ends a clean prefix.
split_unique :
    (p q c d : Chars)
    → is_clean p ≡ true
    → is_clean q ≡ true
    → p ++ (95 ∷ 95 ∷ c) ≡ q ++ (95 ∷ 95 ∷ d)
    → (p ≡ q) × (c ≡ d)
split_unique [] [] c d h k e = (refl, ground (arith, e))
split_unique [] (y ∷ []) c d h k e = absurd (ground (arith, e))
split_unique [] (y ∷ z ∷ q) c d h k e = absurd (ground (arith, e))
split_unique (x ∷ []) [] c d h k e = absurd (ground (arith, e))
split_unique (x ∷ z ∷ p) [] c d h k e = absurd (ground (arith, e))
split_unique (x ∷ []) (y ∷ []) c d h k e =
    let (same, rest) = split_unique [] [] c d refl refl (ground (arith, e)) in
    (ground (arith, e), rest)
split_unique (x ∷ []) (y ∷ z ∷ q) c d h k e =
    let (same, rest) = split_unique [] (z ∷ q) c d refl (ground arith) (ground (arith, e)) in
    absurd (ground (arith, same))
split_unique (x ∷ z ∷ p) (y ∷ []) c d h k e =
    let (same, rest) = split_unique (z ∷ p) [] c d (ground arith) refl (ground (arith, e)) in
    absurd (ground (arith, same))
split_unique (x ∷ w ∷ p) (y ∷ z ∷ q) c d h k e =
    let (same, rest) =
      split_unique (w ∷ p) (z ∷ q) c d (ground arith) (ground arith) (ground (arith, e)) in
    (ground (arith, e, same), rest)

-- Two collections with the same id, under prefixes of which something is left when they are
-- sanitised, have the same sanitised prefix and the same sanitised name: the collections of two
-- projects whose prefixes stay different never coincide.
pub prefix_collection_id-injective :
    (prefix other_prefix collection other : Chars)
    → is_empty (sanitise_collection_component prefix) ≡ false
    → is_empty (sanitise_collection_component other_prefix) ≡ false
    → prefix_collection_id prefix collection ≡ prefix_collection_id other_prefix other
    → (sanitise_collection_component prefix ≡ sanitise_collection_component other_prefix)
      × (sanitise_collection_component collection ≡ sanitise_collection_component other)
unfolding prefix_collection_id
prefix_collection_id-injective prefix other_prefix collection other h k e =
    split_unique (sanitise_collection_component prefix) (sanitise_collection_component other_prefix)
      _ _ (sanitise_collection_component-clean prefix)
      (sanitise_collection_component-clean other_prefix) (rw (h, k) at e)
