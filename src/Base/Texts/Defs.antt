-- ===== src/Base/Texts/Defs.antt =====
-- Byte strings, with the operations of Go's `strings` that the code uses.
use Prim.Native.Nat.{ℕ, ◌+◌}
use Prim.Native.Char.{code}
use Prim.Native.String.{String}
use mathlib.Core.Path.{◌≡◌}
use mathlib.Core.Logic.{◌↔◌}
use mathlib.Core.Bool.{Bool, true, false, ◌&&◌, ◌||◌}
use mathlib.Core.Option.{Option, none, some}
use mathlib.Core.List.{List, [], ◌∷◌, map, reverse}
use native.Mathlib.Omega.{arith}
use toolhive_core.Base.Tests.{leb, ◌==◌, if◌then◌else◌}
use toolhive_core.Base.Lists.{any}

abbrev pub Bytes : Type 0
Bytes = List ℕ

-- The bytes of an ASCII text. `String` has its own `[]` and `∷`.
abbrev pub codes : String → Bytes
codes String.[] = []
codes (String.◌∷◌ c s) = code c ∷ codes s

-- `s == t`.
unfoldable pub bytes_eq : Bytes → Bytes → Bool
bytes_eq [] [] = true
bytes_eq (a ∷ s) (b ∷ t) = a == b && bytes_eq s t
bytes_eq _ _ = false

pub bytes_eq_iff : (s t : Bytes) → (bytes_eq s t ≡ true) ↔ (s ≡ t)
unfolding bytes_eq
bytes_eq_iff [] [] = ground arith
bytes_eq_iff [] (b ∷ t) = ground arith
bytes_eq_iff (a ∷ s) [] = ground arith
bytes_eq_iff (a ∷ s) (b ∷ t) = ground (arith, bytes_eq_iff s t)

-- `strings.HasPrefix(s, p)`.
unfoldable pub has_prefix : Bytes → Bytes → Bool
has_prefix s [] = true
has_prefix [] (b ∷ p) = false
has_prefix (a ∷ s) (b ∷ p) = a == b && has_prefix s p

-- `strings.Contains(s, p)`.
unfoldable pub contains : Bytes → Bytes → Bool
unfolding has_prefix
contains [] p = has_prefix [] p
contains (a ∷ s) p = has_prefix (a ∷ s) p || contains s p

-- Whether a byte occurs: `strings.Contains` of a text of one byte, `strings.IndexByte(s, c) >= 0`.
abbrev pub has_byte : ℕ → Bytes → Bool
has_byte c s = any (λ b. b == c) s

-- `strings.TrimLeft(s, cutset)`, the cut set as a test.
abbrev pub trim_left : (ℕ → Bool) → Bytes → Bytes
trim_left cut [] = []
trim_left cut (a ∷ s) = let rest = trim_left cut s in if cut a then rest else a ∷ s

unfoldable pub trim_right : (ℕ → Bool) → Bytes → Bytes
trim_right cut s = reverse (trim_left cut (reverse s))

-- `unicode.IsSpace`, on ASCII.
abbrev pub is_space : ℕ → Bool
is_space c = c == b' ' || (leb 9 c && leb c 13)

-- `strings.TrimSpace`, on ASCII.
unfoldable pub trim_space : Bytes → Bytes
unfolding trim_right
trim_space s = trim_right is_space (trim_left is_space s)

-- `strings.ToLower`, on ASCII.
abbrev pub lower : ℕ → ℕ
lower c = if leb b'A' c && leb c b'Z' then c + 32 else c

abbrev pub to_lower : Bytes → Bytes
to_lower s = map lower s

-- A byte put before the first part of a cut.
abbrev pub before_cut : ℕ → Option (Bytes × Bytes) → Option (Bytes × Bytes)
before_cut a none = none
before_cut a (some (l, r)) = some (a ∷ l, r)

-- `strings.Cut(s, sep)` at a separator of one byte.
abbrev pub cut_at : ℕ → Bytes → Option (Bytes × Bytes)
cut_at c [] = none
cut_at c (a ∷ s) = let rest = cut_at c s in if a == c then some ([], s) else before_cut a rest

-- `strings.Split(s, sep)` at a separator of one byte: never the empty list.
unfoldable pub split_at : ℕ → Bytes → List Bytes
split_at c [] = [] ∷ []
split_at c (a ∷ s) = elim (a == c) [
  | true ↦ [] ∷ split_at c s
  | false ↦ elim (split_at c s) [ [] ↦ (a ∷ []) ∷ [] | w ∷ ws ↦ (a ∷ w) ∷ ws ]
]
