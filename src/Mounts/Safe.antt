-- ===== src/Mounts/Safe.antt =====
-- Which characters are in no source and no target that a mount declaration parses to.
use toolhive_core.Base.{
  ℕ, ◌+◌, ◌≡◌, ◌≢◌, inl, inr, refl, Bool, true, false, ◌&&◌, ◌||◌, List, [], ◌∷◌, ◌++◌, Option,
  none, some, if◌then◌else◌, leb, ◌==◌, all, any, All, All-append, take, drop, Bytes, bytes_eq,
  codes, has_byte, ok, err, arith, Bool-cases,
}
use toolhive_core.Base.Clean.{clean}
use toolhive_core.Base.Clean.Kept.{clean-keeps}
use toolhive_core.Mounts.{
  MountError, Parsed, is_letter, is_injection, validate_path, has_drive, is_windows_path,
  validate_resource_scheme, find_colon_positions, find_resource_uri_separator, cut_on, with_scheme,
  split_resource_uri, or_else, cleaned_pair, parse_pair, resource_at, of_resource,
  parse_resource_uri, single, parse_single_path, parse_windows_path, parse_host_container_path,
  if_unhandled, parse_by, handled, parse,
}

-- None of `$`, `&`, `;`, `|` and the backquote, nor a null byte.
abbrev pub IsHarmless : ℕ → Type 0
IsHarmless c = (c ≢ b'$') × (c ≢ b'&') × (c ≢ b';') × (c ≢ b'|') × (c ≢ b'`') × (c ≢ 0)

IsHarmless-All :
    (s : Bytes)
    → any (λ c. c == b'$' || c == b'&' || c == b';' || c == b'|') s ≡ false
    → has_byte b'`' s ≡ false
    → has_byte 0 s ≡ false
    → All IsHarmless s
IsHarmless-All [] h k l = tt
IsHarmless-All (c ∷ s) h k l =
    (ground arith, IsHarmless-All s (ground arith) (ground arith) (ground arith))

validate_path-IsHarmless : (path : Bytes) → validate_path path ≡ none → All IsHarmless path
unfolding validate_path is_injection
validate_path-IsHarmless path e = IsHarmless-All path (ground arith) (ground arith) (ground arith)

scheme-IsHarmless : (s : Bytes) → validate_resource_scheme s ≡ true → All IsHarmless s
unfolding validate_resource_scheme
scheme-IsHarmless [] h = tt
scheme-IsHarmless (a ∷ s) h = (ground arith, of_rest s (ground arith))
  where
    of_rest :
        (s : Bytes)
        → all (λ c. is_letter c || (leb b'0' c && leb c b'9') || c == b'_' || c == b'-') s ≡ true
        → All IsHarmless s
    of_rest [] h = tt
    of_rest (c ∷ s) h = (ground arith, of_rest s (ground arith))

clean-IsHarmless : (path : Bytes) → All IsHarmless path → All IsHarmless (clean path)
clean-IsHarmless path h = clean-keeps IsHarmless (ground arith) (ground arith) path h

-- Both paths are harmless, if there are any.
abbrev HarmlessPair : Parsed → Type 0
HarmlessPair (err e) = Unit
HarmlessPair (ok none) = Unit
HarmlessPair (ok (some (source, target))) = All IsHarmless source × All IsHarmless target

parse_pair-HarmlessPair :
    (scheme host target : Bytes)
    → All IsHarmless scheme
    → HarmlessPair (parse_pair scheme host target)
unfolding parse_pair cleaned_pair
parse_pair-HarmlessPair scheme host target h = elim (Bool-cases (is_windows_path target)) [
  | inl windows ↦ rw windows tt
  | inr plain ↦ rw plain (of_host (validate_path host) refl (validate_path target) refl)
]
  where
    of_host :
        (e : Option MountError)
        → validate_path host ≡ e
        → (f : Option MountError) → validate_path target ≡ f
        → HarmlessPair (cleaned_pair scheme host target (or_else e f))
    of_host (some x) e f g = tt
    of_host none e (some x) g = tt
    of_host none e none g = (
      All-append IsHarmless scheme (clean host) h
          (clean-IsHarmless host (validate_path-IsHarmless host e)),
      clean-IsHarmless target (validate_path-IsHarmless target g),
    )

single-HarmlessPair : (declaration : Bytes) → HarmlessPair (parse_single_path declaration)
unfolding parse_single_path single
single-HarmlessPair declaration = of_check (validate_path declaration) refl
  where
    of_check :
        (e : Option MountError)
        → validate_path declaration ≡ e
        → HarmlessPair (single declaration e)
    of_check (some x) e = tt
    of_check none e =
        let safe = clean-IsHarmless declaration (validate_path-IsHarmless declaration e) in
        (safe, safe)

resource-HarmlessPair : (declaration : Bytes) → HarmlessPair (parse_resource_uri declaration)
unfolding parse_resource_uri of_resource split_resource_uri with_scheme resource_at
resource-HarmlessPair declaration = of_cut (cut_on (codes "://") declaration)
  where
    of_separator :
        (scheme remainder : Bytes)
        → All IsHarmless scheme
        → (i : Option ℕ) → HarmlessPair (resource_at scheme remainder i)
    of_separator scheme remainder h none = tt
    of_separator scheme remainder h (some i) =
        elim (Bool-cases (bytes_eq (take i remainder) [] || bytes_eq (drop (i + 1) remainder) [])) [
          | inl empty ↦ rw empty tt
          | inr both ↦ rw both (
              parse_pair-HarmlessPair (scheme ++ codes "://") (take i remainder)
                (drop (i + 1) remainder)
                (All-append IsHarmless scheme (codes "://") h (ground arith)))
        ]

    of_cut : (p : Option (Bytes × Bytes)) → HarmlessPair (of_resource (with_scheme p))
    of_cut none = tt
    of_cut (some (scheme, remainder)) = elim (Bool-cases (validate_resource_scheme scheme)) [
      | inl valid ↦ rw valid (
          of_separator scheme remainder (scheme-IsHarmless scheme valid)
            (find_resource_uri_separator remainder))
      | inr other ↦ rw other tt
    ]

windows-HarmlessPair : (d : Bytes) (colons : List ℕ) → HarmlessPair (parse_windows_path d colons)
unfolding parse_windows_path
windows-HarmlessPair d [] = tt
windows-HarmlessPair d (i ∷ []) = elim (Bool-cases (i == 1)) [
  | inl e ↦ rw e (single-HarmlessPair d)
  | inr e ↦ rw e tt
]
windows-HarmlessPair d (i ∷ j ∷ []) = elim (Bool-cases (i == 1)) [
  | inl e ↦ rw e (parse_pair-HarmlessPair [] (take j d) (drop (j + 1) d) tt)
  | inr e ↦ rw e tt
]
windows-HarmlessPair d (i ∷ j ∷ k ∷ rest) = elim (Bool-cases (i == 1)) [
  | inl e ↦ rw e tt
  | inr e ↦ rw e tt
]

host-HarmlessPair :
    (d : Bytes) (colons : List ℕ) → HarmlessPair (parse_host_container_path d colons)
unfolding parse_host_container_path
host-HarmlessPair d [] = tt
host-HarmlessPair d (i ∷ []) = parse_pair-HarmlessPair [] (take i d) (drop (i + 1) d) tt
host-HarmlessPair d (i ∷ j ∷ rest) = tt

unhandled-HarmlessPair :
    (p q : Parsed) → HarmlessPair p → HarmlessPair q → HarmlessPair (if_unhandled p q)
unfolding if_unhandled
unhandled-HarmlessPair (err e) q h k = tt
unhandled-HarmlessPair (ok none) q h k = k
unhandled-HarmlessPair (ok (some pair)) q h k = h

parse_by-HarmlessPair : (d : Bytes) → HarmlessPair (parse_by d)
unfolding parse_by
parse_by-HarmlessPair d =
    unhandled-HarmlessPair (parse_resource_uri d) _ (resource-HarmlessPair d)
      (of_colon (has_byte b':' d))
  where
    of_drive :
        (drive : Bool)
        → HarmlessPair (if drive then parse_windows_path d (find_colon_positions d) else ok none)
    of_drive true = windows-HarmlessPair d (find_colon_positions d)
    of_drive false = tt

    of_colon :
        (colon : Bool)
        → HarmlessPair (
            if colon
            then if_unhandled
                (if has_drive d then parse_windows_path d (find_colon_positions d) else ok none)
                (parse_host_container_path d (find_colon_positions d))
            else parse_single_path d)
    of_colon true =
        unhandled-HarmlessPair _ (parse_host_container_path d (find_colon_positions d))
          (of_drive (has_drive d)) (host-HarmlessPair d (find_colon_positions d))
    of_colon false = single-HarmlessPair d

-- Neither the source nor the target that `Parse` returns has one of the five characters `$`, `&`,
-- `;`, `|` and the backquote, or a null byte. It says nothing of other characters.
pub parse-IsHarmless :
    (d source target : Bytes)
    → parse d ≡ ok (source, target)
    → All IsHarmless source × All IsHarmless target
unfolding parse handled
parse-IsHarmless d source target e = of_result (parse_by d) (parse_by-HarmlessPair d) e
  where
    of_result :
        (p : Parsed)
        → HarmlessPair p
        → handled p ≡ ok (source, target)
        → All IsHarmless source × All IsHarmless target
    of_result (err x) h e = cc
    of_result (ok none) h e = cc
    of_result (ok (some (s, t))) (hs, ht) e =
        let is_source : s ≡ source = cc in
        let is_target : t ≡ target = cc in (rw is_source at hs, rw is_target at ht)
