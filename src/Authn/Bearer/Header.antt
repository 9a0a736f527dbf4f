-- ===== src/Authn/Bearer/Header.antt =====
-- What the headers are that `ParseBearer` accepts.
use toolhive_core.Base.{
  ℕ, suc, ◌≡◌, ◌≤◌, ◌≢◌, ◌↔◌, ◌++◌, ◌∷◌, [], refl, sym, ap, ◌∙◌, false, ◌||◌, none, some, Bytes,
  codes, bytes_eq, bytes_eq_iff, trim_left, to_lower, lower, cut_at, cut_at_sound, cut_at-append,
  trim_left_sound, trim_left-replicate, length, any, All, ltb, ◌==◌, Except, ok, err, arith,
  Bool-cases, Option-cases, inl, inr, replicate,
}
use toolhive_core.Authn.Types.{Error, error, invalid_request, malformed, max_token_length}
use toolhive_core.Authn.Bearer.{is_bearer, check_credential, check_scheme, parse_bearer}

abbrev pub IsPrintable : ℕ → Type 0
IsPrintable c = (0x21 ≤ c) × (c ≤ 0x7e)

-- A credential of printable ASCII, neither empty nor over the limit.
abbrev pub IsCredential : Bytes → Type 0
IsCredential t = (t ≢ []) × (length t ≤ max_token_length) × All IsPrintable t

-- "Bearer" in any case, one space or more, and the credential.
abbrev pub IsBearerHeader : Bytes → Bytes → Type 0
IsBearerHeader h t =
    (scheme : Bytes) × (n : ℕ) × (h ≡ scheme ++ (replicate (suc n) b' ' ++ t))
    × (to_lower scheme ≡ codes "bearer")
    × IsCredential t

IsPrintable-iff : (t : Bytes) → (any (λ c. ltb c 0x21 || ltb 0x7e c) t ≡ false) ↔ All IsPrintable t
IsPrintable-iff [] = (λ _. tt, λ _. refl)
IsPrintable-iff (c ∷ t) = ground (arith, IsPrintable-iff t)

check_credential_iff : (s t : Bytes) → (check_credential s ≡ ok t) ↔ ((s ≡ t) × IsCredential s)
unfolding check_credential
check_credential_iff s t = (
  λ h. ground (arith, bytes_eq_iff s [], IsPrintable-iff s),
  λ (e, c). ground (arith, bytes_eq_iff s [], IsPrintable-iff s),
)

-- The bytes of the scheme are letters, so none is a space.
lower_space : (c : ℕ) → c ≡ b' ' → lower c ≡ b' '
lower_space c e = ground arith

no_space :
    (scheme word : Bytes)
    → to_lower scheme ≡ word
    → All (λ c. c ≢ b' ') word
    → All (λ c. c ≢ b' ') scheme
no_space [] word e h = tt
no_space (c ∷ scheme) [] e h = cc
no_space (c ∷ scheme) (w ∷ word) e (p, h) = (
  λ q. p (let u : lower c ≡ w = cc in ground (arith, lower_space c)),
  no_space scheme word (cc) h,
)

printable_no_space : (t : Bytes) → All IsPrintable t → All (λ c. c ≢ b' ') t
printable_no_space [] h = tt
printable_no_space (c ∷ t) (p, h) = (λ e. omega arith, printable_no_space t h)

abbrev after_spaces : Bytes → Bytes
after_spaces rest = trim_left (λ c. c == b' ') rest

check_scheme_iff :
    (l r t : Bytes)
    → (check_scheme (some (l, r)) ≡ ok t)
      ↔ ((to_lower l ≡ codes "bearer") × (after_spaces r ≡ t) × IsCredential t)
unfolding check_scheme bytes_eq
check_scheme_iff l r t =
    let (to, from) = check_credential_iff (after_spaces r) t in
    let scheme = bytes_eq_iff (to_lower l) (codes "bearer") in
    (
      λ h. elim (Bool-cases (bytes_eq l [])) [
        | inl e ↦ let g : bad_error ≡ ok t = rw e at h in cc
        | inr e ↦ elim (Bool-cases (is_bearer l)) [
          | inl b ↦ let (same, c) = to (rw (e, b) at h) in (scheme.0 b, same, rw same at c)
          | inr b ↦ let g : bad_error ≡ ok t = rw (e, b) at h in cc
        ]
      ],
      λ (b, same, c). rw (nonempty l b, scheme.1 b) (from (same, rw (← same) at c)),
    )
  where
    bad_error : Except Error Bytes
    bad_error = err (error invalid_request malformed)

    nonempty : (l : Bytes) → to_lower l ≡ codes "bearer" → bytes_eq l [] ≡ false
    nonempty [] b = cc
    nonempty (c ∷ l) b = refl

parse_bearer_of_cut :
    (h : Bytes) {p : Bytes × Bytes}
    → cut_at b' ' h ≡ some p
    → parse_bearer h ≡ check_scheme (some p)
unfolding parse_bearer
parse_bearer_of_cut [] e = cc
parse_bearer_of_cut (c ∷ s) e = ap check_scheme e

parse_bearer_uncut : (h t : Bytes) → cut_at b' ' h ≡ none → parse_bearer h ≢ ok t
unfolding parse_bearer check_scheme
parse_bearer_uncut [] t e h = cc
parse_bearer_uncut (c ∷ s) t e h = cc (ap check_scheme e)

-- `ParseBearer` returns a token exactly when the header is "Bearer" in any case, one space or more,
-- and the token, which is printable ASCII, not empty and at most 16384 bytes long.
pub parse_bearer_iff : (h t : Bytes) → (parse_bearer h ≡ ok t) ↔ IsBearerHeader h t
parse_bearer_iff h t = (
  λ e. elim (Option-cases (cut_at b' ' h)) [
    | inl uncut ↦ absurd (parse_bearer_uncut h t uncut e)
    | inr (p, cut) ↦
        let (whole, _) = cut_at_sound b' ' h cut in
        let (b, same, c) = (check_scheme_iff p.0 p.1 t).0 (sym (parse_bearer_of_cut h cut) ∙ e) in
        let (n, run) = trim_left_sound b' ' p.1 in
        (
          p.0,
          n,
          whole ∙ ap (λ x. p.0 ++ b' ' ∷ x) (run ∙ ap (λ x. replicate n b' ' ++ x) same),
          b,
          c,
        )
  ],
  λ (scheme, n, whole, b, c).
      let cut =
        cut_at-append b' ' scheme (replicate n b' ' ++ t) (no_space scheme _ b (omega arith)) in
      rw whole (
        parse_bearer_of_cut (scheme ++ b' ' ∷ (replicate n b' ' ++ t)) cut
        ∙ (check_scheme_iff scheme (replicate n b' ' ++ t) t).1
            (b, trim_left-replicate b' ' n t (printable_no_space t c.2), c)),
)
