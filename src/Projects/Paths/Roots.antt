-- ===== src/Projects/Paths/Roots.antt =====
-- Where the root of a project can be: `normalise_root` of src/project.rs.
use Prim.Native.String.{String}
use mmat.Prelude.{
  ◌≡◌, refl, ap, sym, subst, ◌∙◌, ◌⊎◌, inl, inr, Bool, true, false, ◌&&◌, not, Option, none, some,
  [], ◌∷◌, ◌++◌, arith, ok, Bool-cases, Result-cases,
}
use mmat.Projects.{root_dir, cur_dir, parent_dir, normal, PathBuf}
use mmat.Projects.Paths.{
  Environment, starts_with, is_absolute, join, pop, normalize_loop, normalize_path, resolve,
  normalised, canonical_base, check_base, normalise_root,
}

abbrev pub are_names : PathBuf → Bool
are_names [] = true
are_names (normal name ∷ path) = are_names path
are_names (_ ∷ path) = false

-- From the root, with no `.` or `..`.
abbrev pub is_resolved : PathBuf → Bool
is_resolved (root_dir ∷ path) = are_names path
is_resolved _ = false

are_names-pop : (path : PathBuf) → are_names path ≡ true → are_names (pop path) ≡ true
are_names-pop [] h = refl
are_names-pop (root_dir ∷ path) h = absurd (ground arith)
are_names-pop (cur_dir ∷ path) h = absurd (ground arith)
are_names-pop (parent_dir ∷ path) h = absurd (ground arith)
are_names-pop (normal name ∷ []) h = refl
are_names-pop (normal name ∷ c ∷ path) h = are_names-pop (c ∷ path) h

is_resolved-pop : (path : PathBuf) → is_resolved path ≡ true → is_resolved (pop path) ≡ true
is_resolved-pop [] h = absurd (ground arith)
is_resolved-pop (cur_dir ∷ path) h = absurd (ground arith)
is_resolved-pop (parent_dir ∷ path) h = absurd (ground arith)
is_resolved-pop (normal name ∷ path) h = absurd (ground arith)
is_resolved-pop (root_dir ∷ []) h = refl
is_resolved-pop (root_dir ∷ c ∷ path) h = are_names-pop (c ∷ path) h

are_names-push :
    (path : PathBuf) (name : String)
    → are_names path ≡ true
    → are_names (path ++ normal name ∷ []) ≡ true
are_names-push [] name h = refl
are_names-push (root_dir ∷ path) name h = absurd (ground arith)
are_names-push (cur_dir ∷ path) name h = absurd (ground arith)
are_names-push (parent_dir ∷ path) name h = absurd (ground arith)
are_names-push (normal first ∷ path) name h = are_names-push path name h

is_resolved-push :
    (path : PathBuf) (name : String)
    → is_resolved path ≡ true
    → is_resolved (path ++ normal name ∷ []) ≡ true
is_resolved-push [] name h = absurd (ground arith)
is_resolved-push (cur_dir ∷ path) name h = absurd (ground arith)
is_resolved-push (parent_dir ∷ path) name h = absurd (ground arith)
is_resolved-push (normal first ∷ path) name h = absurd (ground arith)
is_resolved-push (root_dir ∷ path) name h = are_names-push path name h

normalize_loop-resolved :
    (path result : PathBuf)
    → is_resolved result ≡ true
    → is_resolved (normalize_loop result path) ≡ true
unfolding normalize_loop
normalize_loop-resolved [] result h = h
normalize_loop-resolved (parent_dir ∷ path) result h =
    normalize_loop-resolved path (pop result) (is_resolved-pop result h)
normalize_loop-resolved (cur_dir ∷ path) result h = normalize_loop-resolved path result h
normalize_loop-resolved (root_dir ∷ path) result h =
    normalize_loop-resolved path (root_dir ∷ []) refl
normalize_loop-resolved (normal name ∷ path) result h =
    normalize_loop-resolved path (result ++ normal name ∷ []) (is_resolved-push result name h)

normalize_path-resolved :
    (path : PathBuf) → is_absolute path ≡ true → is_resolved (normalize_path path) ≡ true
unfolding normalize_path normalize_loop
normalize_path-resolved [] h = absurd (ground arith)
normalize_path-resolved (cur_dir ∷ path) h = absurd (ground arith)
normalize_path-resolved (parent_dir ∷ path) h = absurd (ground arith)
normalize_path-resolved (normal name ∷ path) h = absurd (ground arith)
normalize_path-resolved (root_dir ∷ path) h = normalize_loop-resolved path (root_dir ∷ []) refl

join-absolute : (dir path : PathBuf) → is_absolute dir ≡ true → is_absolute (join dir path) ≡ true
join-absolute dir path h = elim (Bool-cases (is_absolute path)) [
  | inl absolute ↦ rw (join, absolute) absolute
  | inr relative ↦ rw (join, relative) (append_absolute dir h)
]
  where
    append_absolute : (dir : PathBuf) → is_absolute dir ≡ true → is_absolute (dir ++ path) ≡ true
    append_absolute [] h = absurd (ground arith)
    append_absolute (cur_dir ∷ dir) h = absurd (ground arith)
    append_absolute (parent_dir ∷ dir) h = absurd (ground arith)
    append_absolute (normal name ∷ dir) h = absurd (ground arith)
    append_absolute (root_dir ∷ dir) h = refl

-- What the operating system promises: canonical paths are resolved, and the current directory
-- is absolute.
pub record IsUsual (env : Environment) : Type 0 where
  pub canonical :
      (path path' : PathBuf) → env.canonicalize path ≡ ok path' → is_resolved path' ≡ true
  pub current : (dir : PathBuf) → env.current_dir ≡ ok dir → is_absolute dir ≡ true

module _ (env : Environment) (usual : IsUsual env) where
  normalised-resolved :
      (path path' : PathBuf) → normalised env path ≡ ok path' → is_resolved path' ≡ true
  unfolding normalised
  normalised-resolved path path' e = elim (Bool-cases (env.exists path)) [
    | inl there ↦ elim (Result-cases (env.canonicalize path)) [
      | inl (error, f) ↦ absurd (ground (arith, e, there, f))
      | inr (found, f) ↦
          let same : found ≡ path' = ground (arith, e, there, f) in
          ap is_resolved (sym same) ∙ usual.canonical path found f
    ]
    | inr gone ↦ elim (Bool-cases (is_absolute path)) [
      | inl absolute ↦
          let same : normalize_path path ≡ path' = ground (arith, e, gone, absolute) in
          ap is_resolved (sym same) ∙ normalize_path-resolved path absolute
      | inr relative ↦ elim (Result-cases env.current_dir) [
        | inl (error, f) ↦ absurd (ground (arith, e, gone, relative, f))
        | inr (dir, f) ↦
            let same : normalize_path (join dir path) ≡ path' =
              ground (arith, e, gone, relative, f) in
            ap is_resolved (sym same)
            ∙ normalize_path-resolved (join dir path) (join-absolute dir path (usual.current dir f))
      ]
    ]
  ]

  -- The path starts with the base as it is written or as the file system resolves it.
  abbrev pub IsInside : PathBuf → PathBuf → Type 0
  IsInside base path =
      (starts_with path base ≡ true)
      ⊎ ((canonical : PathBuf) × (canonical_base env base ≡ ok canonical)
          × (starts_with path canonical ≡ true))

  check_base-same :
      (base : Option PathBuf) (path path' : PathBuf)
      → check_base env base path ≡ ok path'
      → path ≡ path'
  unfolding check_base
  check_base-same none path path' e = ground (arith, e)
  check_base-same (some base) path path' e = elim (Result-cases (canonical_base env base)) [
    | inl (error, f) ↦ absurd (ground (arith, e, f))
    | inr (canonical, f) ↦
        elim (Bool-cases (not (starts_with path base) && not (starts_with path canonical))) [
          | inl outside ↦ absurd (ground (arith, e, f, outside))
          | inr inside ↦ ground (arith, e, f, inside)
        ]
  ]

  check_base-IsInside :
      (base path path' : PathBuf) → check_base env (some base) path ≡ ok path' → IsInside base path
  unfolding check_base
  check_base-IsInside base path path' e = elim (Result-cases (canonical_base env base)) [
    | inl (error, f) ↦ absurd (ground (arith, e, f))
    | inr (canonical, f) ↦ elim (Bool-cases (starts_with path base)) [
      | inl under ↦ inl under
      | inr other ↦ elim (Bool-cases (starts_with path canonical)) [
        | inl under ↦ inr (canonical, f, under)
        | inr outside ↦ absurd (ground (arith, e, f, other, outside))
      ]
    ]
  ]

  -- Take the root that is accepted for a project, however it is written, and suppose that canonical
  -- paths have no `.` or `..` and that the current directory is absolute. The root starts at the
  -- root of the file system and has no `.` or `..`; and if a project path is configured, it lies
  -- inside that path, as it is written or as the file system resolves it.
  pub normalise_root-IsInside :
      (root path : PathBuf)
      → normalise_root env root ≡ ok path
      → (is_resolved path ≡ true)
        × ((base : PathBuf) → env.project_path ≡ some base → IsInside base path)
  unfolding normalise_root
  normalise_root-IsInside root path e = elim (Result-cases (normalised env (resolve env root))) [
    | inl (error, f) ↦ absurd (ground (arith, e, f))
    | inr (found, f) ↦
        let checked : check_base env env.project_path found ≡ ok path = (rw f at e) in
        let same = check_base-same env.project_path found path checked in
        (
          ap is_resolved (sym same) ∙ normalised-resolved (resolve env root) found f,
          λ base g.
              subst (IsInside base) same (check_base-IsInside base found path (rw g at checked)),
        )
  ]
