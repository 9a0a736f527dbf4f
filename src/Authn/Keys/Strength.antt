-- ===== src/Authn/Keys/Strength.antt =====
-- When a public key is strong enough for a token's algorithm: a modulus of 2048 bits or more, or the curve
-- that the algorithm names, stated without the code's tests of either. Which algorithms take RSA and
-- which take ECDSA keys is told in `IsStrongFor` by the code's prefixes (`is_rsa_alg`, `is_ec_alg`).
use native.Mathlib.Decide.{dec_le}
use native.Mathlib.Nat.{pow-suc}
use toolhive_core.Base.{
  ℕ, false, ◌≢◌, zero, suc, ◌/◌, ◌^◌, ◌≤◌, ◌<◌, ◌≡◌, true, some, String, str_eq, ◌↔◌, ◌==◌, arith,
  Bool-cases, Option-cases, inl, inr, ◌⊎◌, refl, none, eq_iff,
}
use toolhive_core.Authn.Types.{reject_none}
use toolhive_core.Authn.Keys.{
  bit_len_from, bit_len, RsaKey, EcKey, CryptoKey, rsa, ecdsa, curve_matches_alg, rsa_rejection,
  ec_rejection, is_rsa_alg, is_ec_alg,
}

pow_halves : (n k : ℕ) → (n / 2 < 2 ^ k) ↔ (n < 2 ^ (suc k))
pow_halves n k = (λ h. rw pow-suc (omega arith), λ h. let g = rw pow-suc at h in omega arith)

pow_pos_of_zero : (n k : ℕ) → n ≡ 0 → n < 2 ^ k
pow_pos_of_zero n zero e = omega arith
pow_pos_of_zero n (suc k) e = rw pow-suc (omega (arith, pow_pos_of_zero n k e))

positive_case :
    (f n k : ℕ)
    → 0 < n
    → ((k : ℕ) → n / 2 ≤ f → (bit_len_from f (n / 2) ≤ k) ↔ (n / 2 < 2 ^ k))
    → n ≤ suc f
    → (suc (bit_len_from f (n / 2)) ≤ k) ↔ (n < 2 ^ k)
positive_case f n zero p ih h = (λ q. absurd (omega arith), λ q. absurd (omega arith))
positive_case f n (suc k) p ih h =
    let (to, from) = ih k (omega arith) in
    (λ q. (pow_halves n k).0 (to (omega arith)), λ q. omega (arith, from ((pow_halves n k).1 q)))

bit_len_from-le_iff : (f n k : ℕ) → n ≤ f → (bit_len_from f n ≤ k) ↔ (n < 2 ^ k)
unfolding bit_len_from
bit_len_from-le_iff zero n k h = (λ _. pow_pos_of_zero n k (omega arith), λ _. omega arith)
bit_len_from-le_iff (suc f) n k h = elim (Bool-cases (n == 0)) [
  | inl e ↦ rw (e, bit_len_from) (λ _. pow_pos_of_zero n k (ground arith), λ _. omega arith)
  | inr e ↦
      rw (e, bit_len_from) (positive_case f n k (ground arith) (bit_len_from-le_iff f (n / 2)) h)
]

pub bit_len-le_iff : (n k : ℕ) → (bit_len n ≤ k) ↔ (n < 2 ^ k)
unfolding bit_len
bit_len-le_iff n k = bit_len_from-le_iff n n k (omega arith)

-- The least modulus of 2048 bits.
pub min_modulus : ℕ
min_modulus = 2 ^ 2047

bit_len-min_modulus : (n : ℕ) → (2048 ≤ bit_len n) ↔ (min_modulus ≤ n)
unfolding min_modulus
bit_len-min_modulus n =
    let (to, from) = bit_len-le_iff n 2047 in
    (
      λ h. elim (dec_le (2 ^ 2047) n) [
        | yes p ↦ p
        | no p ↦ absurd (omega (arith, from (omega arith)))
      ],
      λ h. elim (dec_le 2048 (bit_len n)) [
        | yes p ↦ p
        | no p ↦ absurd (omega (arith, to (omega arith)))
      ],
    )

abbrev pub IsStrongRsa : RsaKey → Type 0
IsStrongRsa k = (n : ℕ) × (k.modulus ≡ some n) × (min_modulus ≤ n)

-- The curve of each ECDSA algorithm (RFC 7518, 3.4).
abbrev pub IsCurveOf : String → String → Type 0
IsCurveOf alg name =
    ((alg ≡ "ES256") × (name ≡ "P-256"))
    ⊎ (((alg ≡ "ES384") × (name ≡ "P-384")) ⊎ ((alg ≡ "ES512") × (name ≡ "P-521")))

apart : (a b : String) → str_eq a b ≡ false → a ≢ b
apart a b h = λ e. ground (arith, eq_iff a b)

curve_matches_alg_iff :
    (name alg : String) → (curve_matches_alg name alg ≡ true) ↔ IsCurveOf alg name
unfolding curve_matches_alg
curve_matches_alg_iff name alg = elim (Bool-cases (str_eq alg "ES256")) [
  | inl e ↦
      rw ((eq_iff alg "ES256").0 e) (
        ground (arith, apart "ES256" "ES384" refl, apart "ES256" "ES512" refl, eq_iff name "P-256"))
  | inr n ↦ elim (Bool-cases (str_eq alg "ES384")) [
    | inl e ↦ rw ((eq_iff alg "ES384").0 e) (
        ground (arith, apart "ES384" "ES256" refl, apart "ES384" "ES512" refl, eq_iff name "P-384"))
    | inr m ↦ elim (Bool-cases (str_eq alg "ES512")) [
      | inl e ↦ rw ((eq_iff alg "ES512").0 e) (
          ground
            (arith, apart "ES512" "ES256" refl, apart "ES512" "ES384" refl, eq_iff name "P-521"))
      | inr l ↦
          rw (n, m, l, curve_matches_alg)
            (ground (arith, eq_iff alg "ES256", eq_iff alg "ES384", eq_iff alg "ES512"))
    ]
  ]
]

abbrev pub IsOnCurve : String → EcKey → Type 0
IsOnCurve alg k = (name : String) × (k.curve ≡ some (some name)) × IsCurveOf alg name

-- The type of the key is that of the algorithm, and the key is strong enough or on its curve.
abbrev pub IsStrongFor : String → CryptoKey → Type 0
IsStrongFor alg (rsa (some k)) = (is_rsa_alg alg ≡ true) × IsStrongRsa k
IsStrongFor alg (ecdsa (some k)) = (is_ec_alg alg ≡ true) × IsOnCurve alg k
IsStrongFor alg _ = ⊥

pub rsa_rejection_iff : (k : RsaKey) → (rsa_rejection k ≡ reject_none) ↔ IsStrongRsa k
unfolding rsa_rejection
rsa_rejection_iff k = elim (Option-cases k.modulus) [
  | inl e ↦ ground arith
  | inr (n, e) ↦ (
    λ h. (n, e, (bit_len-min_modulus n).0 (ground arith)),
    λ (m, d, q). ground (arith, (bit_len-min_modulus m).1 q),
  )
]

pub ec_rejection_iff :
    (k : EcKey) (alg : String) → (ec_rejection k alg ≡ reject_none) ↔ IsOnCurve alg k
unfolding ec_rejection
ec_rejection_iff k alg = elim (Option-cases k.curve) [
  | inl e ↦ rw (e, ec_rejection) (λ h. cc, λ (name, d, q). cc)
  | inr (none, e) ↦ rw (e, ec_rejection) (λ h. cc, λ (name, d, q). cc)
  | inr (some name, e) ↦
      rw (e, ec_rejection)
        (
          λ h. (name, refl, (curve_matches_alg_iff name alg).0 (ground arith)),
          λ (other, d, q).
              let same : name ≡ other = cc in
              let on : curve_matches_alg name alg ≡ true =
                rw same ((curve_matches_alg_iff other alg).1 q) in
              rw on refl,
        )
]
