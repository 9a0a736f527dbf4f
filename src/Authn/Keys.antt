-- ===== src/Authn/Keys.antt =====
-- Which keys may verify a token of an algorithm (authn/validate.go, authn/keyprovider.go).
pub mod Strength
pub mod Eligible
pub mod Candidates
use mathlib.Core.List.{foldl}
use text.Mathlib.Text.{starts_with}
use toolhive_core.Base.{
  ℕ, zero, suc, ◌/◌, ◌≡◌, Bool, true, false, not, ◌&&◌, ◌||◌, List, [], ◌∷◌, ◌++◌, Option, none,
  some, String, str_eq, ltb, ◌==◌, if◌then◌else◌, any, length, take, Except, ok, err, ◌>>=◌,
}
use toolhive_core.Authn.Types.{
  KeyRejection, reject_none, reject_key_use, reject_key_ops, reject_declared_alg, reject_key_type,
  reject_curve, reject_weak_rsa, reject_export, is_none, Error, error, unavailable,
  keys_unavailable, max_key_candidates, min_rsa_key_bits,
}

-- `big.Int.BitLen`.
bit_len_from : ℕ → ℕ → ℕ
bit_len_from zero n = 0
bit_len_from (suc f) n = elim (n == 0) [ true ↦ 0 | false ↦ suc (bit_len_from f (n / 2)) ]

unfoldable pub bit_len : ℕ → ℕ
unfolding bit_len_from
bit_len n = bit_len_from n n

-- `rsa.PublicKey`; the modulus may be nil.
pub record RsaKey : Type 0 where
  pub modulus : Option ℕ
  pub exponent : ℕ

-- `ecdsa.PublicKey`; the curve may be nil, and so may its `Params()`, which hold its name.
pub record EcKey : Type 0 where
  pub curve : Option (Option String)
  pub point : ℕ

-- `crypto.PublicKey`: a pointer that may be nil, or a key of another type.
pub data CryptoKey : Type 0 where
  rsa : Option RsaKey → CryptoKey
  ecdsa : Option EcKey → CryptoKey
  other_key : CryptoKey

-- What the accessors of a `jwk.Key` return; `as_rsa` and `as_ec` are `jwk.Export` into the two
-- key types, with `none` for an error.
pub record Jwk : Type 0 where
  pub key_id : Option String
  pub key_usage : Option String
  pub key_ops : Option (List String)
  pub algorithm : Option String
  pub key_type : String
  pub as_rsa : Option RsaKey
  pub as_ec : Option EcKey

unfoldable pub curve_matches_alg : String → String → Bool
curve_matches_alg curve alg =
    if str_eq alg "ES256"
    then str_eq curve "P-256"
    else if str_eq alg "ES384"
    then str_eq curve "P-384"
    else if str_eq alg "ES512"
    then str_eq curve "P-521"
    else false

-- The tests on an exported RSA key: a nil modulus, then its length.
unfoldable pub rsa_rejection : RsaKey → KeyRejection
rsa_rejection k = elim k.modulus [
  | none ↦ reject_export
  | some n ↦ if ltb (bit_len n) min_rsa_key_bits then reject_weak_rsa else reject_none
]

-- The tests on an exported EC key: a nil curve, nil parameters, then the curve's name.
unfoldable pub ec_rejection : EcKey → String → KeyRejection
ec_rejection k alg = elim k.curve [
  | none ↦ reject_export
  | some none ↦ reject_export
  | some (some name) ↦ if not (curve_matches_alg name alg) then reject_curve else reject_none
]

-- `strings.HasPrefix(alg, "RS") || strings.HasPrefix(alg, "PS")`.
abbrev pub is_rsa_alg : String → Bool
is_rsa_alg alg = starts_with alg "RS" || starts_with alg "PS"

abbrev pub is_ec_alg : String → Bool
is_ec_alg alg = starts_with alg "ES"

exported_rsa : Jwk → KeyRejection
exported_rsa key = elim key.as_rsa [ none ↦ reject_export | some k ↦ rsa_rejection k ]

exported_ec : Jwk → String → KeyRejection
exported_ec key alg = elim key.as_ec [ none ↦ reject_export | some k ↦ ec_rejection k alg ]

key_type_matches_alg : Jwk → String → KeyRejection
unfolding exported_rsa exported_ec rsa_rejection ec_rejection
key_type_matches_alg key alg =
    if is_rsa_alg alg
    then (if not (str_eq key.key_type "RSA") then reject_key_type else exported_rsa key)
    else if is_ec_alg alg
    then (if not (str_eq key.key_type "EC") then reject_key_type else exported_ec key alg)
    else reject_key_type

-- An absent member passes.
abbrev pub if_present {ℓ} : {A : Type ℓ} → (A → Bool) → Option A → Bool
if_present p none = true
if_present p (some a) = p a

unfoldable pub key_eligible : Jwk → String → KeyRejection
unfolding key_type_matches_alg
key_eligible key alg =
    if not (if_present (λ u. str_eq u "sig") key.key_usage)
    then reject_key_use
    else if not (if_present (any (λ op. str_eq op "verify")) key.key_ops)
    then reject_key_ops
    else if not (if_present (λ a. str_eq a alg) key.algorithm)
    then reject_declared_alg
    else key_type_matches_alg key alg

-- `kid != "" && (!hasID || keyID != kid)`, as the test that a key is skipped.
abbrev pub is_skipped : String → Jwk → Bool
is_skipped kid key =
    not (str_eq kid "") && not (elim key.key_id [ none ↦ false | some i ↦ str_eq i kid ])

-- `if why == rejectNone { why = r }`.
abbrev pub first_rejection : KeyRejection → KeyRejection → KeyRejection
first_rejection why r = if is_none why then r else why

-- One round of the loop of `candidateKeys`.
candidate_step : String → String → List Jwk × KeyRejection → Jwk → List Jwk × KeyRejection
candidate_step kid alg (out, why) key =
    if is_skipped kid key
    then (out, why)
    else if not (is_none (key_eligible key alg))
    then (out, first_rejection why (key_eligible key alg))
    else (out ++ key ∷ [], why)

-- What follows the loop: the cap, and the reason only if nothing is left.
finish_candidates : List Jwk × KeyRejection → List Jwk × KeyRejection
finish_candidates ([], why) = ([], why)
finish_candidates (k ∷ ks, why) = (
  if ltb max_key_candidates (length (k ∷ ks)) then take max_key_candidates (k ∷ ks) else k ∷ ks,
  reject_none,
)

unfoldable pub candidate_keys : List Jwk → String → String → List Jwk × KeyRejection
unfolding candidate_step finish_candidates
candidate_keys set kid alg =
    finish_candidates (foldl (candidate_step kid alg) ([], reject_none) set)

unfoldable pub export_key : Jwk → String → Option CryptoKey
export_key key alg =
    if is_rsa_alg alg
    then elim key.as_rsa [ none ↦ none | some k ↦ some (rsa (some k)) ]
    else if is_ec_alg alg
    then elim key.as_ec [ none ↦ none | some k ↦ some (ecdsa (some k)) ]
    else none

unfoldable pub export_candidates : List Jwk → String → Except Error (List CryptoKey)
unfolding export_key
export_candidates [] alg = ok []
export_candidates (key ∷ keys) alg = elim (export_key key alg) [
  | none ↦ err (error unavailable keys_unavailable)
  | some raw ↦ export_candidates keys alg >>= λ set. ok (raw ∷ set)
]
