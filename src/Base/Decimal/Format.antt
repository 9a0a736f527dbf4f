-- ===== src/Base/Decimal/Format.antt =====
-- Reading a number that was printed gives the number.
use Prim.Native.Nat.{ℕ, zero, suc, ◌+◌, ◌-◌, ◌*◌, ◌/◌, ◌%◌, ◌^◌, ◌<◌}
use mathlib.Core.Path.{◌≡◌, refl, ap, ◌∙◌}
use mathlib.Core.Logic.{◌≢◌, inl, inr}
use mathlib.Core.Bool.{true}
use mathlib.Core.Option.{some}
use mathlib.Core.List.{[], ◌∷◌, foldl}
use native.Mathlib.Omega.{arith}
use toolhive_core.Base.Tests.{ltb, Bool-cases}
use toolhive_core.Base.Lists.{all}
use toolhive_core.Base.Texts.Defs.{Bytes}
use toolhive_core.Base.Int.{pos}
use toolhive_core.Base.Decimal.{
  is_digit, value_of, digits_value, positive, atoi, format_from, format_nat,
}

abbrev add_digit : ℕ → ℕ → ℕ
add_digit n c = n * 10 + (c - b'0')

format_from-value :
    (fuel n : ℕ) (out : Bytes)
    → n < fuel
    → foldl add_digit 0 (format_from fuel n out) ≡ foldl add_digit n out
unfolding format_from
format_from-value zero n out h = absurd (omega arith)
format_from-value (suc fuel) n out h = elim (Bool-cases (ltb n 10)) [
  | inl small ↦ rw (small, format_from) (ap (λ (k : ℕ). foldl add_digit k out) (omega arith))
  | inr large ↦
      rw (large, format_from)
        (format_from-value fuel (n / 10) ((n % 10 + b'0') ∷ out) (ground arith)
          ∙ ap (λ (k : ℕ). foldl add_digit k out) (omega arith))
]

format_from-digits :
    (fuel n : ℕ) (out : Bytes)
    → n < fuel
    → all is_digit out ≡ true
    → all is_digit (format_from fuel n out) ≡ true
unfolding format_from
format_from-digits zero n out h d = absurd (omega arith)
format_from-digits (suc fuel) n out h d = elim (Bool-cases (ltb n 10)) [
  | inl small ↦ rw (small, format_from) (ground arith)
  | inr large ↦
      rw (large, format_from)
        (format_from-digits fuel (n / 10) ((n % 10 + b'0') ∷ out) (ground arith) (ground arith))
]

format_from-nonempty : (fuel n c : ℕ) (out : Bytes) → format_from fuel n (c ∷ out) ≢ []
unfolding format_from
format_from-nonempty zero n c out e = cc
format_from-nonempty (suc fuel) n c out e = elim (Bool-cases (ltb n 10)) [
  | inl small ↦ cc (rw (small, format_from) at e)
  | inr large ↦
      format_from-nonempty fuel (n / 10) (n % 10 + b'0') (c ∷ out) (rw (large, format_from) at e)
]

pub format_nat-nonempty : (n : ℕ) → format_nat n ≢ []
unfolding format_nat format_from
format_nat-nonempty n e = elim (Bool-cases (ltb n 10)) [
  | inl small ↦ cc (rw (small, format_from) at e)
  | inr large ↦ format_from-nonempty n (n / 10) (n % 10 + b'0') [] (rw (large, format_from) at e)
]

atoi_of_digits :
    (s : Bytes)
    → s ≢ []
    → all is_digit s ≡ true
    → value_of s < 2 ^ 63
    → atoi s ≡ some (pos (value_of s))
unfolding atoi digits_value positive
atoi_of_digits [] h d b = absurd (h refl)
atoi_of_digits (c ∷ s) h d b = ground arith

pub atoi-format_nat : (n : ℕ) → n < 2 ^ 63 → atoi (format_nat n) ≡ some (pos n)
unfolding format_nat value_of
atoi-format_nat n h =
    atoi_of_digits (format_nat n) (format_nat-nonempty n)
      (format_from-digits (suc n) n [] (omega arith) refl) (omega (arith, value))
    ∙ ap (λ (k : ℕ). some (pos k)) value
  where
    value : value_of (format_nat n) ≡ n
    value = format_from-value (suc n) n [] (omega arith)
