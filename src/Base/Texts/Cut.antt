-- ===== src/Base/Texts/Cut.antt =====
-- What cutting and trimming a text gives.
use Prim.Native.Nat.{ℕ, zero, suc}
use mathlib.Core.Path.{◌≡◌, refl, ap, ap₂, ◌∙◌}
use mathlib.Core.Logic.{◌≢◌, inl, inr}
use mathlib.Core.Option.{Option, none, some}
use mathlib.Core.List.{[], ◌∷◌, ◌++◌}
use native.Mathlib.Omega.{arith}
use toolhive_core.Base.Tests.{◌==◌, ==_iff, Bool-cases}
use toolhive_core.Base.Lists.{All, replicate}
use toolhive_core.Base.Texts.Defs.{Bytes, trim_left, cut_at, before_cut}

before_cut_sound :
    (a : ℕ) (o : Option (Bytes × Bytes)) {p : Bytes × Bytes}
    → before_cut a o ≡ some p
    → (q : Bytes × Bytes) × (o ≡ some q) × (p.0 ≡ a ∷ q.0) × (p.1 ≡ q.1)
before_cut_sound a none h = cc
before_cut_sound a (some q) {p} h =
    let same : p ≡ (a ∷ q.0, q.1) = cc in
    (q, refl, ap (λ (x : Bytes × Bytes). x.0) same, ap (λ (x : Bytes × Bytes). x.1) same)

-- The text before the cut has no separator, and the parts make up the text.
pub cut_at_sound :
    (c : ℕ) (s : Bytes) {p : Bytes × Bytes}
    → cut_at c s ≡ some p
    → (s ≡ p.0 ++ c ∷ p.1) × All (λ a. a ≢ c) p.0
cut_at_sound c [] h = cc
cut_at_sound c (a ∷ s) {p} h = elim (Bool-cases (a == c)) [
  | inl e ↦
      let at : p ≡ ([], s) = cc (rw e at h) in
      rw (ap (λ (x : Bytes × Bytes). x.0) at, ap (λ (x : Bytes × Bytes). x.1) at) (ground arith, tt)
  | inr e ↦
      let (q, found, l, r) = before_cut_sound a (cut_at c s) (rw e at h) in
      let (same, none_in) = cut_at_sound c s found in
      rw (l, r) (ap (λ x. a ∷ x) same, (ground arith, none_in))
]

pub cut_at-append : (c : ℕ) (l r : Bytes) → All (λ a. a ≢ c) l → cut_at c (l ++ c ∷ r) ≡ some (l, r)
cut_at-append c [] r h = ground arith
cut_at-append c (a ∷ l) r (ne, h) = ground (arith, cut_at-append c l r h)

-- What a trim takes off is a run of the byte.
pub trim_left_sound :
    (c : ℕ) (s : Bytes) → (n : ℕ) × (s ≡ replicate n c ++ trim_left (λ a. a == c) s)
trim_left_sound c [] = (0, refl)
trim_left_sound c (a ∷ s) = elim (Bool-cases (a == c)) [
  | inl e ↦ let (n, p) = trim_left_sound c s in (suc n, ap₂ ◌∷◌ ((==_iff a c).0 e) (p ∙ rw e))
  | inr e ↦ (0, rw e)
]

pub trim_left-replicate :
    (c : ℕ) (n : ℕ) (s : Bytes)
    → All (λ a. a ≢ c) s
    → trim_left (λ a. a == c) (replicate n c ++ s) ≡ s
trim_left-replicate c zero [] h = refl
trim_left-replicate c zero (a ∷ s) (ne, h) = ground arith
trim_left-replicate c (suc n) s h = ground (arith, trim_left-replicate c n s h)
