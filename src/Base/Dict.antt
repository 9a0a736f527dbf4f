-- ===== src/Base/Dict.antt =====
-- A Go map with string keys, as an association list in an order of iteration.
use Prim.Native.Nat.{◌+◌, ◌≤◌}
use Prim.Native.String.{String}
use mathlib.Core.Path.{◌≡◌, refl, ap, sym, ◌∙◌}
use mathlib.Core.Logic.{inl, inr}
use mathlib.Core.Option.{Option, none, some}
use mathlib.Core.List.{List, [], ◌∷◌}
use native.Mathlib.Omega.{arith}
use text.Mathlib.Text.{◌==◌}
use text.Mathlib.TextEquality.{eq_iff}
use toolhive_core.Base.Tests.{if◌then◌else◌, Bool-cases}
use toolhive_core.Base.Lists.{length}

module _ {ℓ} {Val : Type ℓ} where
  -- `m[key]`, and whether it is there.
  unfoldable pub lookup : String → List (String × Val) → Option Val
  lookup key [] = none
  lookup key (entry ∷ m) = let rest = lookup key m in if entry.0 == key then some entry.1 else rest

  -- `m[key] = val`, in the place of the entry that it overwrites, or at the end.
  unfoldable pub insert : String → Val → List (String × Val) → List (String × Val)
  insert key val [] = (key, val) ∷ []
  insert key val (entry ∷ m) =
      let rest = insert key val m in if entry.0 == key then (key, val) ∷ m else entry ∷ rest

  -- `delete(m, key)`.
  unfoldable pub delete : String → List (String × Val) → List (String × Val)
  delete key [] = []
  delete key (entry ∷ m) = let rest = delete key m in if entry.0 == key then rest else entry ∷ rest

  abbrev pub IsDistinct : List (String × Val) → Type ℓ
  IsDistinct [] = Unit
  IsDistinct ((key, val) ∷ m) = (lookup key m ≡ none) × IsDistinct m

  pub lookup-delete :
      (gone key : String) (m : List (String × Val))
      → lookup key (delete gone m) ≡ (if gone == key then none else lookup key m)
  unfolding lookup delete
  lookup-delete gone key [] = ground arith
  lookup-delete gone key ((at, w) ∷ m) =
      let ih = lookup-delete gone key m in
      ground (arith, ih, eq_iff gone key, eq_iff at gone, eq_iff at key)

  pub lookup-insert :
      (new key : String) (val : Val) (m : List (String × Val))
      → lookup key (insert new val m) ≡ (if new == key then some val else lookup key m)
  unfolding lookup insert
  lookup-insert new key val [] = ground arith
  lookup-insert new key val ((at, w) ∷ m) =
      let ih = lookup-insert new key val m in
      ground (arith, ih, eq_iff at new, eq_iff at key, eq_iff new key)

  pub delete_absent : (k : String) (m : List (String × Val)) → lookup k m ≡ none → delete k m ≡ m
  unfolding lookup delete
  delete_absent k [] h = refl
  delete_absent k ((i, w) ∷ m) h = ground (arith, delete_absent k m)

  pub length-insert :
      (k : String) (v : Val) (m : List (String × Val)) → length (insert k v m) ≤ length m + 1
  unfolding insert
  length-insert k v [] = omega arith
  length-insert k v ((i, w) ∷ m) = ground (arith, length-insert k v m)

  pub length-delete :
      (k : String) (m : List (String × Val)) {v : Val}
      → IsDistinct m
      → lookup k m ≡ some v
      → length (delete k m) + 1 ≡ length m
  unfolding lookup delete
  length-delete k [] d h = cc
  length-delete k ((i, w) ∷ m) (a, d) h = elim (Bool-cases (i == k)) [
    | inl e ↦ rw e (
        omega (
          arith,
          ap length (delete_absent k m (ap (λ x. lookup x m) (sym ((eq_iff i k).0 e)) ∙ a)),
        ))
    | inr e ↦ rw e (omega (arith, length-delete k m d (rw e at h)))
  ]

  pub delete-IsDistinct :
      (k : String) (m : List (String × Val)) → IsDistinct m → IsDistinct (delete k m)
  unfolding delete
  delete-IsDistinct k [] d = tt
  delete-IsDistinct k ((i, w) ∷ m) (a, d) = elim (Bool-cases (i == k)) [
    | inl e ↦ rw e (delete-IsDistinct k m d)
    | inr e ↦ rw e (ground (arith, lookup-delete k i m), delete-IsDistinct k m d)
  ]

  pub insert-IsDistinct :
      (k : String) (v : Val) (m : List (String × Val)) → IsDistinct m → IsDistinct (insert k v m)
  unfolding insert lookup
  insert-IsDistinct k v [] d = (refl, tt)
  insert-IsDistinct k v ((i, w) ∷ m) (a, d) = elim (Bool-cases (i == k)) [
    | inl e ↦ rw e (ap (λ x. lookup x m) (sym ((eq_iff i k).0 e)) ∙ a, d)
    | inr e ↦
        rw e
          (ground (arith, lookup-insert k i v m, eq_iff k i, eq_iff i k), insert-IsDistinct k v m d)
  ]
