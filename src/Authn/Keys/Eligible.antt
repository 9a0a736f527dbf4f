-- ===== src/Authn/Keys/Eligible.antt =====
-- What `keyEligible` accepts, and that every key it accepts can be exported.
use text.Mathlib.Text.{starts_with}
use toolhive_core.Base.{
  ◌≡◌, refl, Bool, true, false, not, List, [], ◌∷◌, Option, none, some, String, ◌↔◌, arith,
  Option-cases, inl, inr, any, Any, str_eq, eq_iff, if◌then◌else◌, ◌⊎◌,
}
use toolhive_core.Authn.Types.{
  KeyRejection, reject_none, reject_key_type, reject_key_use, reject_key_ops, reject_declared_alg,
}
use toolhive_core.Authn.Keys.{
  Jwk, CryptoKey, rsa, ecdsa, key_type_matches_alg, key_eligible, if_present, is_rsa_alg, is_ec_alg,
  export_key, exported_rsa, exported_ec,
}
use toolhive_core.Authn.Keys.Strength.{
  IsStrongRsa, IsCurveOf, IsOnCurve, IsStrongFor, rsa_rejection_iff, ec_rejection_iff,
}

-- A member of a JWK that, where it is present, satisfies a predicate.
abbrev pub IfPresent {ℓ} : {A : Type ℓ} → (A → Type 0) → Option A → Type 0
IfPresent P none = Unit
IfPresent P (some a) = P a

-- The restrictions that a JWK declares on its own use allow a verification with the algorithm.
abbrev pub AllowsVerify : Jwk → String → Type 0
AllowsVerify key alg =
    IfPresent (λ u. u ≡ "sig") key.key_usage
    × IfPresent (Any (λ op. op ≡ "verify")) key.key_ops
    × IfPresent (λ a. a ≡ alg) key.algorithm

abbrev pub IfExported : {A : Type 0} → (A → Type 0) → Option A → Type 0
IfExported {A} P o = (a : A) × (o ≡ some a) × P a

-- An RSA key of 2048 bits or more for the algorithms RS and PS, or an EC key on the algorithm's curve.
abbrev pub FitsAlg : Jwk → String → Type 0
FitsAlg key alg =
    (((starts_with alg "RS" ≡ true) ⊎ (starts_with alg "PS" ≡ true))
      × (key.key_type ≡ "RSA")
      × IfExported IsStrongRsa key.as_rsa)
    ⊎ ((key.key_type ≡ "EC") × IfExported (IsOnCurve alg) key.as_ec)

-- The same in the order of the code's tests.
abbrev FitsByTests : Jwk → String → Type 0
FitsByTests key alg =
    ((is_rsa_alg alg ≡ true) × (key.key_type ≡ "RSA") × IfExported IsStrongRsa key.as_rsa)
    ⊎ ((is_rsa_alg alg ≡ false)
        × (is_ec_alg alg ≡ true)
        × (key.key_type ≡ "EC")
        × IfExported (IsOnCurve alg) key.as_ec)

any_iff :
    (ops : List String)
    → (any (λ op. str_eq op "verify") ops ≡ true) ↔ Any (λ op. op ≡ "verify") ops
any_iff [] = (λ h. cc, λ h. absurd h)
any_iff (op ∷ ops) = ground (arith, any_iff ops, eq_iff op "verify")

module _ {R C F G : Type 0} where
  by_tests :
      (rsa_alg ec_alg is_rsa is_ec : Bool) {r e : KeyRejection}
      → (is_rsa ≡ true) ↔ R
      → (is_ec ≡ true) ↔ C
      → (r ≡ reject_none) ↔ F
      → (e ≡ reject_none) ↔ G
      → ((if rsa_alg
            then (if not is_rsa then reject_key_type else r)
            else if ec_alg
            then (if not is_ec then reject_key_type else e)
            else reject_key_type)
          ≡ reject_none)
        ↔ (((rsa_alg ≡ true) × R × F) ⊎ ((rsa_alg ≡ false) × (ec_alg ≡ true) × C × G))
  by_tests true b true d h k f g =
      (λ q. inl (refl, h.0 refl, f.0 q), elim [ inl (_, _, p) ↦ f.1 p | inr (p, _, _, _) ↦ cc ])
  by_tests true b false d h k f g = ground arith
  by_tests false true a true h k f g = ground arith
  by_tests false true a false h k f g = ground arith
  by_tests false false a d h k f g = ground arith

module _ {U O A F : Type 0} where
  by_gates :
      (u o a : Bool) {r : KeyRejection}
      → (u ≡ true) ↔ U
      → (o ≡ true) ↔ O
      → (a ≡ true) ↔ A
      → (r ≡ reject_none) ↔ F
      → ((if not u
            then reject_key_use
            else if not o
            then reject_key_ops
            else if not a
            then reject_declared_alg
            else r)
          ≡ reject_none)
        ↔ ((U × O × A) × F)
  by_gates true true true h k l f = (λ q. ((h.0 refl, k.0 refl, l.0 refl), f.0 q), λ q. f.1 q.1)
  by_gates false b c h k l f = (λ q. cc, λ q. cc (h.1 q.0.0))
  by_gates true false c h k l f = (λ q. cc, λ q. cc (k.1 q.0.1))
  by_gates true true false h k l f = (λ q. cc, λ q. cc (l.1 q.0.2))

exported_rsa_iff :
    (key : Jwk) → (exported_rsa key ≡ reject_none) ↔ IfExported IsStrongRsa key.as_rsa
unfolding exported_rsa
exported_rsa_iff key = elim (Option-cases key.as_rsa) [
  | inl e ↦ rw (e, exported_rsa) (λ h. cc, λ (k, d, s). cc)
  | inr (k, e) ↦
      rw (e, exported_rsa)
        (
          λ h. (k, refl, (rsa_rejection_iff k).0 h),
          λ (k', d, s). let same : k ≡ k' = cc in rw same ((rsa_rejection_iff k').1 s),
        )
]

exported_ec_iff :
    (key : Jwk) (alg : String)
    → (exported_ec key alg ≡ reject_none) ↔ IfExported (IsOnCurve alg) key.as_ec
unfolding exported_ec
exported_ec_iff key alg = elim (Option-cases key.as_ec) [
  | inl e ↦ rw (e, exported_ec) (λ h. cc, λ (k, d, s). cc)
  | inr (k, e) ↦
      rw (e, exported_ec)
        (
          λ h. (k, refl, (ec_rejection_iff k alg).0 h),
          λ (k', d, s). let same : k ≡ k' = cc in rw same ((ec_rejection_iff k' alg).1 s),
        )
]

key_type_matches_alg_iff :
    (key : Jwk) (alg : String) → (key_type_matches_alg key alg ≡ reject_none) ↔ FitsByTests key alg
unfolding key_type_matches_alg
key_type_matches_alg_iff key alg =
    by_tests (is_rsa_alg alg) (is_ec_alg alg) (str_eq key.key_type "RSA") (str_eq key.key_type "EC")
      (eq_iff key.key_type "RSA") (eq_iff key.key_type "EC") (exported_rsa_iff key)
      (exported_ec_iff key alg)

if_present_iff {ℓ} :
    {A : Type ℓ} (p : A → Bool) (P : A → Type 0) (o : Option A)
    → ((a : A) → (p a ≡ true) ↔ P a)
    → (if_present p o ≡ true) ↔ IfPresent P o
if_present_iff p P none h = (λ _. tt, λ _. refl)
if_present_iff p P (some a) h = h a

by_tests_iff :
    (key : Jwk) (alg : String)
    → (key_eligible key alg ≡ reject_none) ↔ (AllowsVerify key alg × FitsByTests key alg)
unfolding key_eligible
by_tests_iff key alg =
    let use_iff =
      if_present_iff (λ u. str_eq u "sig") (λ u. u ≡ "sig") key.key_usage (λ u. eq_iff u "sig") in
    let ops_iff = if_present_iff _ (Any (λ op. op ≡ "verify")) key.key_ops any_iff in
    let alg_iff =
      if_present_iff (λ a. str_eq a alg) (λ a. a ≡ alg) key.algorithm (λ a. eq_iff a alg) in
    by_gates _ _ _ use_iff ops_iff alg_iff (key_type_matches_alg_iff key alg)

curve_alg :
    (alg name : String) → IsCurveOf alg name → (is_rsa_alg alg ≡ false) × (is_ec_alg alg ≡ true)
curve_alg alg name (inl (e, c)) = rw e (refl, refl)
curve_alg alg name (inr (inl (e, c))) = rw e (refl, refl)
curve_alg alg name (inr (inr (e, c))) = rw e (refl, refl)

fits_iff : (key : Jwk) (alg : String) → FitsByTests key alg ↔ FitsAlg key alg
fits_iff key alg = (
  elim [ inl (r, t, k) ↦ inl (ground arith, t, k) | inr (nr, c, t, k) ↦ inr (t, k) ],
  elim [
    | inl (inl r, t, k) ↦ inl (ground arith, t, k)
    | inl (inr p, t, k) ↦ inl (ground arith, t, k)
    | inr (t, (k, e, (name, n, c))) ↦
        let (nr, ec) = curve_alg alg name c in inr (nr, ec, t, (k, e, (name, n, c)))
  ],
)

-- `keyEligible` accepts a key exactly when what the key declares of its use allows verification
-- with the algorithm, and it is an RSA key with a modulus of 2048 bits or more for an algorithm RS or PS, or
-- an EC key on the curve of the algorithm: P-256 for ES256, P-384 for ES384, P-521 for ES512.
pub key_eligible_iff :
    (key : Jwk) (alg : String)
    → (key_eligible key alg ≡ reject_none) ↔ (AllowsVerify key alg × FitsAlg key alg)
key_eligible_iff key alg =
    let (to, from) = by_tests_iff key alg in
    let (there, back) = fits_iff key alg in
    (λ h. ((to h).0, there (to h).1), λ (a, f). from (a, back f))

-- An eligible key is exported, to a key that is strong enough for the algorithm.
pub export_key_of_eligible :
    (key : Jwk) (alg : String)
    → key_eligible key alg ≡ reject_none
    → (raw : CryptoKey) × (export_key key alg ≡ some raw) × IsStrongFor alg raw
unfolding export_key
export_key_of_eligible key alg h = elim ((by_tests_iff key alg).0 h).1 [
  | inl (r, t, (k, e, s)) ↦ (rsa (some k), rw (r, e), (r, s))
  | inr (nr, c, t, (k, e, s)) ↦ (ecdsa (some k), rw (nr, c, e), (c, s))
]
