-- ===== src/Authn/Token/Gates.antt =====
-- What `checkLifetime` and `checkTokenType` let pass, stated without their tests.
use toolhive_core.Base.{
  ℕ, ◌+◌, ◌*◌, ◌^◌, ◌≤◌, ◌≡◌, ◌≢◌, ◌⊎◌, inl, inr, refl, ◌==◌, Bool, true, false, List, [], ◌∷◌,
  ◌++◌, Option, none, some, Any, any, if◌then◌else◌, arith, Bool-cases, Bytes, bytes_eq,
  bytes_eq_iff, codes, has_prefix, drop, to_lower, trim_space,
}
use toolhive_core.Base.Int.{ℤ, pos_part, neg_part}
use toolhive_core.Authn.Types.{Config, error, invalid_token, token_type, second}
use toolhive_core.Authn.Token.{
  IatClaim, float, int64, int, number, other_value, Claims, issued_at, outlives, check_lifetime,
  normalize_token_type, typ_or_empty, check_token_type,
}

-- The seconds from `iat` to `exp` are at most the bound, in nanoseconds. No bound is set by 0, and
-- the largest duration bounds nothing, since `Sub` saturates at it.
abbrev pub IsWithin : ℕ → ℤ → ℤ → Type 0
IsWithin most exp iat =
    (most ≡ 0)
    ⊎ ((2 ^ 63 ≤ most + 1)
        ⊎ (second * (pos_part exp + neg_part iat) ≤ most + second * (neg_part exp + pos_part iat)))

-- Where a token has an expiration and an issuing time that denotes a number, its lifetime is within
-- the bound.
abbrev pub LivesWithin : ℕ → Option ℤ → Option IatClaim → Type 0
LivesWithin most (some exp) (some (float iat)) = IsWithin most exp iat
LivesWithin most (some exp) (some (int64 iat)) = IsWithin most exp iat
LivesWithin most (some exp) (some (int iat)) = IsWithin most exp iat
LivesWithin most (some exp) (some (number (some iat))) = IsWithin most exp iat
LivesWithin most _ _ = Unit

within :
    (most : ℕ) (exp iat : ℤ) → outlives most (some exp) (some iat) ≡ false → IsWithin most exp iat
within most exp iat h = ground arith

LivesWithin-outlives :
    (most : ℕ) (exp : Option ℤ) (iat : Option IatClaim)
    → outlives most exp (issued_at iat) ≡ false
    → LivesWithin most exp iat
unfolding issued_at
LivesWithin-outlives most none iat h = tt
LivesWithin-outlives most (some exp) none h = tt
LivesWithin-outlives most (some exp) (some (float iat)) h = within most exp iat h
LivesWithin-outlives most (some exp) (some (int64 iat)) h = within most exp iat h
LivesWithin-outlives most (some exp) (some (int iat)) h = within most exp iat h
LivesWithin-outlives most (some exp) (some (number (some iat))) h = within most exp iat h
LivesWithin-outlives most (some exp) (some (number none)) h = tt
LivesWithin-outlives most (some exp) (some other_value) h = tt

unbounded : (exp : Option ℤ) (iat : Option IatClaim) → LivesWithin 0 exp iat
unbounded none iat = tt
unbounded (some exp) none = tt
unbounded (some exp) (some (float iat)) = inl refl
unbounded (some exp) (some (int64 iat)) = inl refl
unbounded (some exp) (some (int iat)) = inl refl
unbounded (some exp) (some (number (some iat))) = inl refl
unbounded (some exp) (some (number none)) = tt
unbounded (some exp) (some other_value) = tt

pub check_lifetime-LivesWithin :
    (cfg : Config) (claims : Claims)
    → check_lifetime cfg claims ≡ none
    → LivesWithin cfg.max_token_lifetime claims.expiration claims.iat
unfolding check_lifetime
check_lifetime-LivesWithin cfg claims h = elim (Bool-cases (cfg.max_token_lifetime == 0)) [
  | inl e ↦
      let zero_bound : cfg.max_token_lifetime ≡ 0 = ground arith in
      rw zero_bound (unbounded claims.expiration claims.iat)
  | inr n ↦ LivesWithin-outlives cfg.max_token_lifetime claims.expiration claims.iat (ground arith)
]

-- The name that a "typ" header gives: trimmed, in lower case, without "application/".
abbrev pub Names : Bytes → Bytes → Type 0
Names typ name =
    (to_lower (trim_space typ) ≡ codes "application/" ++ name)
    ⊎ ((has_prefix (to_lower (trim_space typ)) (codes "application/") ≡ false)
        × (to_lower (trim_space typ) ≡ name))

-- The header's type is one of the accepted ones, where any are named.
abbrev pub IsAcceptedType : List Bytes → Option Bytes → Type 0
IsAcceptedType [] typ = Unit
IsAcceptedType (a ∷ more) none = ⊥
IsAcceptedType (a ∷ more) (some typ) =
    (name : Bytes) × Names typ name × (name ≢ []) × Any (λ want. Names want name) (a ∷ more)

split_prefix : (s p : Bytes) → has_prefix s p ≡ true → (r : Bytes) × (s ≡ p ++ r)
unfolding has_prefix
split_prefix s [] h = (s, refl)
split_prefix [] (b ∷ p) h = cc
split_prefix (a ∷ s) (b ∷ p) h =
    let (r, e) = split_prefix s p (ground arith) in
    let same : a ≡ b = ground arith in (r, rw (same, e) refl)

normalize_token_type-Names : (typ : Bytes) → Names typ (normalize_token_type typ)
unfolding normalize_token_type
normalize_token_type-Names typ = by_prefix (to_lower (trim_space typ)) _ refl
  where
    by_prefix :
        (t : Bytes) (b : Bool)
        → has_prefix t (codes "application/") ≡ b
        → (t ≡ codes "application/" ++ (if b then drop 12 t else t))
          ⊎ ((b ≡ false) × (t ≡ (if b then drop 12 t else t)))
    by_prefix t true h = let (r, s) = split_prefix t (codes "application/") h in inl (rw s refl)
    by_prefix t false h = inr (refl, refl)

any-Names :
    (got : Bytes) (more : List Bytes)
    → any (λ want. bytes_eq got (normalize_token_type want)) more ≡ true
    → Any (λ want. Names want got) more
any-Names got [] h = cc
any-Names got (a ∷ more) h = elim (Bool-cases (bytes_eq got (normalize_token_type a))) [
  | inl e ↦
      inl (rw ((bytes_eq_iff got (normalize_token_type a)).0 e) (normalize_token_type-Names a))
  | inr n ↦ inr (any-Names got more (ground arith))
]

empty_name : normalize_token_type [] ≡ []
unfolding normalize_token_type trim_space has_prefix
empty_name = refl

pub check_token_type-IsAcceptedType :
    (cfg : Config) (typ : Option Bytes)
    → check_token_type cfg typ ≡ none
    → IsAcceptedType cfg.accepted_token_types typ
unfolding check_token_type
check_token_type-IsAcceptedType cfg typ h = by_types cfg.accepted_token_types typ h
  where
    by_types :
        (types : List Bytes) (typ : Option Bytes)
        → elim types [
          | [] ↦ none
          | a ∷ more ↦
              if bytes_eq (normalize_token_type (typ_or_empty typ)) []
              then some (error invalid_token token_type)
              else if any
                  (λ want.
                    bytes_eq (normalize_token_type (typ_or_empty typ)) (normalize_token_type want))
                  (a ∷ more)
              then none
              else some (error invalid_token token_type)
        ]
          ≡ none
        → IsAcceptedType types typ
    by_types [] typ h = tt
    by_types (a ∷ more) none h =
        let no_name : bytes_eq (normalize_token_type []) [] ≡ true =
          (bytes_eq_iff (normalize_token_type []) []).1 empty_name in
        ground arith
    by_types (a ∷ more) (some t) h =
        let got = normalize_token_type t in
        (
          got,
          normalize_token_type-Names t,
          ground (arith, bytes_eq_iff got []),
          any-Names got (a ∷ more) (ground arith),
        )
