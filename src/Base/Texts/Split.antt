-- ===== src/Base/Texts/Split.antt =====
-- Splitting a text at a byte, and joining the parts again.
use Prim.Native.Nat.{ℕ}
use mathlib.Core.Path.{◌≡◌, refl, ap, ap₂, sym, ◌∙◌}
use mathlib.Core.Logic.{◌≢◌, inl, inr}
use mathlib.Core.List.{List, [], ◌∷◌, ◌++◌}
use native.Mathlib.Omega.{arith}
use toolhive_core.Base.Tests.{◌==◌, ==_iff, Bool-cases}
use toolhive_core.Base.Lists.{All}
use toolhive_core.Base.Texts.Defs.{Bytes, split_at}

-- `strings.Join(parts, sep)` with a separator of one byte.
unfoldable pub join_at : ℕ → List Bytes → Bytes
join_at c [] = []
join_at c (w ∷ []) = w
join_at c (w ∷ x ∷ ws) = w ++ c ∷ join_at c (x ∷ ws)

pub split_at-cons : (c : ℕ) (s : Bytes) → (w : Bytes) × (ws : List Bytes) × (split_at c s ≡ w ∷ ws)
unfolding split_at
split_at-cons c [] = ([], [], refl)
split_at-cons c (a ∷ s) = elim (Bool-cases (a == c)) [
  | inl e ↦ ([], split_at c s, rw (e, split_at))
  | inr e ↦ let (w, ws, h) = split_at-cons c s in (a ∷ w, ws, rw (e, split_at) (rw h))
]

-- Joining what a split gives is the text again.
pub join_at-split_at : (c : ℕ) (s : Bytes) → join_at c (split_at c s) ≡ s
unfolding split_at join_at
join_at-split_at c [] = refl
join_at-split_at c (a ∷ s) =
    let (w, ws, h) = split_at-cons c s in
    let ih = join_at-split_at c s in
    elim (Bool-cases (a == c)) [
      | inl e ↦ rw (e, split_at) (rw h (ap₂ ◌∷◌ (sym ((==_iff a c).0 e)) (rw h at ih)))
      | inr e ↦ rw (e, split_at) (rw h (join_cons c a w ws ∙ ap (λ t. a ∷ t) (rw h at ih)))
    ]
  where
    join_cons :
        (c a : ℕ) (w : Bytes) (ws : List Bytes) → join_at c ((a ∷ w) ∷ ws) ≡ a ∷ join_at c (w ∷ ws)
    join_cons c a w [] = refl
    join_cons c a w (x ∷ ws) = refl

-- No part of a split holds the separator.
pub split_at-All : (c : ℕ) (s : Bytes) → All (λ w. All (λ a. a ≢ c) w) (split_at c s)
unfolding split_at
split_at-All c [] = (tt, tt)
split_at-All c (a ∷ s) =
    let (w, ws, h) = split_at-cons c s in
    let ih = split_at-All c s in
    elim (Bool-cases (a == c)) [
      | inl e ↦ rw (e, split_at) (tt, ih)
      | inr e ↦
          let (first, rest) = rw h at ih in rw (e, split_at) (rw h ((ground arith, first), rest))
    ]
