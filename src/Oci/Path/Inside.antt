-- ===== src/Oci/Path/Inside.antt =====
-- A path that `validateTarPath` returns stays inside the directory it is put in.
use toolhive_core.Base.{
  ◌≡◌, ◌≢◌, ◌⊎◌, inl, inr, refl, sym, ap, ◌∙◌, true, false, ◌||◌, List, [], ◌∷◌, ◌++◌, reverse,
  reverse_aux, reverse-append, arith, Bool-cases, All, Bytes, bytes_eq, bytes_eq_iff, codes,
  has_prefix, contains, split_at, split_at-All, ok,
}
use toolhive_core.Base.Texts.Split.{join_at}
use toolhive_core.Base.Clean.{
  dot, dot_dot, go_up, clean_step, clean_elements, cleaned, is_abs, clean,
}
use toolhive_core.Oci.Path.{check_cleaned, validate_tar_path}

-- The name of a file or a directory: an element that neither stands still nor goes up.
abbrev pub IsName : Bytes → Type 0
IsName s = (s ≢ []) × (s ≢ dot) × (s ≢ dot_dot) × All (λ c. c ≢ b'/') s

-- A relative path of names alone, or the directory itself.
abbrev pub IsInside : Bytes → Type 0
IsInside path =
    (path ≡ dot) ⊎ ((names : List Bytes) × (path ≡ join_at b'/' names) × All IsName names)

-- Names alone, or a first element that goes up.
abbrev IsKept : List Bytes → Type 0
IsKept kept = All IsName kept ⊎ ((later : List Bytes) × (kept ≡ later ++ dot_dot ∷ []))

differs : (s t : Bytes) → bytes_eq s t ≡ false → s ≢ t
differs s t e = λ same. let yes = (bytes_eq_iff s t).1 same in cc

go_up-IsKept : (kept : List Bytes) → IsKept kept → IsKept (go_up false kept)
unfolding go_up
go_up-IsKept [] k = inr ([], refl)
go_up-IsKept (top ∷ rest) (inl (name, names)) = elim (Bool-cases (bytes_eq top dot_dot)) [
  | inl up ↦ absurd (name.2 ((bytes_eq_iff top dot_dot).0 up))
  | inr e ↦ rw e (inl names)
]
go_up-IsKept (top ∷ rest) (inr (later, shape)) = elim (Bool-cases (bytes_eq top dot_dot)) [
  | inl up ↦ rw up (inr (dot_dot ∷ later, ap (λ l. dot_dot ∷ l) shape))
  | inr e ↦ rw e (below later shape e)
]
  where
    below :
        (later : List Bytes)
        → (top ∷ rest) ≡ later ++ dot_dot ∷ []
        → bytes_eq top dot_dot ≡ false
        → IsKept rest
    below [] shape e = let same : top ≡ dot_dot = cc in absurd (differs top dot_dot e same)
    below (x ∷ later) shape e = inr (later, cc)

clean_step-IsKept :
    (kept : List Bytes) (s : Bytes)
    → All (λ c. c ≢ b'/') s
    → IsKept kept
    → IsKept (clean_step false kept s)
unfolding clean_step
clean_step-IsKept kept s plain k = elim (Bool-cases (bytes_eq s [])) [
  | inl e ↦ rw e k
  | inr nonempty ↦ elim (Bool-cases (bytes_eq s dot)) [
    | inl e ↦ rw (nonempty, e) k
    | inr moving ↦ elim (Bool-cases (bytes_eq s dot_dot)) [
      | inl e ↦ rw (nonempty, moving, e) (go_up-IsKept kept k)
      | inr down ↦
          rw (nonempty, moving, down)
            (put k (differs s [] nonempty, differs s dot moving, differs s dot_dot down, plain))
    ]
  ]
]
  where
    put : IsKept kept → IsName s → IsKept (s ∷ kept)
    put (inl names) name = inl (name, names)
    put (inr (later, shape)) name = inr (s ∷ later, ap (λ l. s ∷ l) shape)

clean_elements-IsKept :
    (kept elements : List Bytes)
    → All (λ s. All (λ c. c ≢ b'/') s) elements
    → IsKept kept
    → IsKept (clean_elements false kept elements)
unfolding clean_elements
clean_elements-IsKept kept [] plain k = k
clean_elements-IsKept kept (s ∷ rest) (one, others) k =
    clean_elements-IsKept (clean_step false kept s) rest others (clean_step-IsKept kept s one k)

-- What passes the checks is returned unchanged.
passed : (p path : Bytes) → check_cleaned p ≡ ok path → p ≡ path
unfolding check_cleaned
passed p path e = ground arith

-- The elements of a relative path in the order of the path, without the `.` and `..` of its text.
reverse-IsName :
    (kept done : List Bytes)
    → All IsName kept
    → All IsName done
    → All IsName (reverse_aux kept done)
reverse-IsName [] done k d = d
reverse-IsName (s ∷ rest) done (one, others) d = reverse-IsName rest (s ∷ done) others (one, d)

-- The text of elements of which the first goes up.
starts_up :
    (elements : List Bytes)
    → bytes_eq (join_at b'/' (dot_dot ∷ elements)) dot_dot
        || has_prefix (join_at b'/' (dot_dot ∷ elements)) (codes "../")
      ≡ true
unfolding bytes_eq has_prefix join_at
starts_up [] = refl
starts_up (s ∷ rest) = refl

check_cleaned-ok :
    (kept : List Bytes) (path : Bytes)
    → IsKept kept
    → check_cleaned (cleaned false kept) ≡ ok path
    → IsInside path
unfolding check_cleaned cleaned
check_cleaned-ok [] path k e = inl (sym (passed dot path e))
check_cleaned-ok (s ∷ rest) path (inl names) e = inr (
  reverse (s ∷ rest),
  sym (passed (join_at b'/' (reverse (s ∷ rest))) path e),
  reverse-IsName (s ∷ rest) [] names tt,
)
check_cleaned-ok (s ∷ rest) path (inr (later, shape)) e =
    let first : reverse (s ∷ rest) ≡ dot_dot ∷ reverse later =
      ap reverse shape ∙ reverse-append later (dot_dot ∷ []) in
    cc (rw (starts_up (reverse later)) at (rw first at e))

-- A rooted path is refused.
refused : (kept : List Bytes) (path : Bytes) → check_cleaned (cleaned true kept) ≢ ok path
unfolding check_cleaned cleaned bytes_eq has_prefix
refused kept path e = cc

-- A path that `validateTarPath` returns is `.`, or names joined by slashes: none of its elements is
-- empty, `.` or `..`, and none holds a slash.
pub validate_tar_path-IsInside : (p path : Bytes) → validate_tar_path p ≡ ok path → IsInside path
unfolding validate_tar_path clean
validate_tar_path-IsInside p path e = elim (Bool-cases (contains p (b'\\' ∷ b'\\' ∷ []))) [
  | inl bad ↦ cc (rw bad at e)
  | inr good ↦ elim (Bool-cases (is_abs p)) [
    | inl rooted ↦
        absurd
          (refused (clean_elements true [] (split_at b'/' p)) path (rw rooted at (rw good at e)))
    | inr relative ↦
        check_cleaned-ok (clean_elements false [] (split_at b'/' p)) path
          (clean_elements-IsKept [] (split_at b'/' p) (split_at-All b'/' p) (inl tt))
          (rw relative at (rw good at e))
  ]
]
