-- ===== src/Base/Decimal.antt =====
-- Decimal numbers: Go's `strconv.Atoi` on a 64-bit int, and `%d` of a number that is not negative.
pub mod Format
use Prim.Native.Nat.{ℕ, zero, suc, ◌+◌, ◌-◌, ◌*◌, ◌/◌, ◌%◌, ◌^◌}
use mathlib.Core.Bool.{Bool, true, false, ◌&&◌}
use mathlib.Core.Option.{Option, none, some}
use mathlib.Core.List.{[], ◌∷◌, foldl}
use toolhive_core.Base.Tests.{ltb, leb, ◌==◌, if◌then◌else◌}
use toolhive_core.Base.Lists.{all}
use toolhive_core.Base.Texts.Defs.{Bytes}
use toolhive_core.Base.Int.{ℤ, pos, negsuc}

abbrev is_digit : ℕ → Bool
is_digit c = leb b'0' c && leb c b'9'

unfoldable pub value_of : Bytes → ℕ
value_of s = foldl (λ n c. n * 10 + (c - b'0')) 0 s

-- The digits of a number, or nothing.
digits_value : Bytes → Option ℕ
unfolding value_of
digits_value [] = none
digits_value (c ∷ s) = if all is_digit (c ∷ s) then some (value_of (c ∷ s)) else none

positive : Option ℕ → Option ℤ
positive none = none
positive (some n) = if ltb n (2 ^ 63) then some (pos n) else none

negative : Option ℕ → Option ℤ
negative none = none
negative (some zero) = some (pos 0)
negative (some (suc n)) = if leb (suc n) (2 ^ 63) then some (negsuc n) else none

unfoldable pub atoi : Bytes → Option ℤ
unfolding digits_value positive negative
atoi [] = none
atoi (c ∷ s) =
    if c == b'-'
    then negative (digits_value s)
    else if c == b'+'
    then positive (digits_value s)
    else positive (digits_value (c ∷ s))

format_from : ℕ → ℕ → Bytes → Bytes
format_from zero n out = out
format_from (suc fuel) n out = elim (ltb n 10) [
  | true ↦ (n + b'0') ∷ out
  | false ↦ format_from fuel (n / 10) ((n % 10 + b'0') ∷ out)
]

unfoldable pub format_nat : ℕ → Bytes
unfolding format_from
format_nat n = format_from (suc n) n []
