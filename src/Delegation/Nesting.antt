-- ===== src/Delegation/Nesting.antt =====
-- The parsed chain against the nesting of the objects.
use toolhive_core.Base.{
  ℕ, zero, suc, ◌+◌, ◌≤◌, ◌<◌, ◌≡◌, ◌⊎◌, inl, inr, refl, ap, ◌∙◌, Bool, true, false, List, [], ◌∷◌,
  Option, none, some, String, str_eq, length, arith, Bool-cases,
}
use toolhive_core.Delegation.{
  Value, nil, str, obj, other, Members, end, member, member_at, stop, violation, go_on, next_act,
  count_remaining_hops, depth, depth_members,
}

-- The act member of an object is there and no map, and not nil.
abbrev pub IsViolation : Value → Type 0
IsViolation (str s) = Unit
IsViolation (other n) = Unit
IsViolation _ = ⊥

-- The objects of a chain, the outermost first, and whether the innermost has an act member that is
-- no object.
pub data Nested : Members → List Members → Bool → Type 0 where
  innermost :
      {ms : Members}
      → (member_at "act" ms ≡ none) ⊎ (member_at "act" ms ≡ some nil)
      → Nested ms (ms ∷ []) false
  broken :
      {ms : Members} (v : Value)
      → member_at "act" ms ≡ some v
      → IsViolation v
      → Nested ms (ms ∷ []) true
  around :
      {ms inner : Members} {hs : List Members} {b : Bool}
      → member_at "act" ms ≡ some (obj inner)
      → Nested inner hs b
      → Nested ms (ms ∷ hs) b

depth-member_at :
    (key : String) (ms : Members) (v : Value)
    → member_at key ms ≡ some v
    → depth v ≤ depth_members ms
unfolding member_at depth
depth-member_at key end v h = cc
depth-member_at key (member k w ms) v h = elim (Bool-cases (str_eq k key)) [
  | inl e ↦ let same : w ≡ v = cc (rw e at h) in rw (← same) (omega arith)
  | inr e ↦ omega (arith, depth-member_at key ms v (rw e at h))
]

pub depth-inner :
    (ms inner : Members)
    → member_at "act" ms ≡ some (obj inner)
    → depth_members inner < depth_members ms
unfolding depth
depth-inner ms inner h = depth-member_at "act" ms (obj inner) h

pub next_innermost :
    (ms : Members)
    → (member_at "act" ms ≡ none) ⊎ (member_at "act" ms ≡ some nil)
    → next_act ms ≡ stop
unfolding next_act
next_innermost ms (inl h) = rw h
next_innermost ms (inr h) = rw h

pub next_broken :
    (ms : Members) (v : Value)
    → member_at "act" ms ≡ some v
    → IsViolation v
    → next_act ms ≡ violation
unfolding next_act
next_broken ms (str s) h i = rw h
next_broken ms (other n) h i = rw h
next_broken ms nil h i = absurd i
next_broken ms (obj m) h i = absurd i

pub next_around :
    (ms inner : Members) → member_at "act" ms ≡ some (obj inner) → next_act ms ≡ go_on inner
unfolding next_act
next_around ms inner h = rw h

-- Every object has its chain of objects.
Nested-below :
    (n : ℕ) (ms : Members)
    → depth_members ms < n
    → (hs : List Members) × (b : Bool) × Nested ms hs b
Nested-below zero ms h = absurd (omega arith)
Nested-below (suc n) ms h =
    of_act (member_at "act" ms) refl
      (λ inner e. Nested-below n inner (omega (arith, depth-inner ms inner e)))
  where
    of_act :
        (v : Option Value)
        → member_at "act" ms ≡ v
        → ((inner : Members)
            → member_at "act" ms ≡ some (obj inner)
            → (hs : List Members) × (b : Bool) × Nested inner hs b)
        → (hs : List Members) × (b : Bool) × Nested ms hs b
    of_act none e ih = (ms ∷ [], false, innermost (inl e))
    of_act (some nil) e ih = (ms ∷ [], false, innermost (inr e))
    of_act (some (str s)) e ih = (ms ∷ [], true, broken (str s) e tt)
    of_act (some (other x)) e ih = (ms ∷ [], true, broken (other x) e tt)
    of_act (some (obj inner)) e ih =
        let (hs, b, deeper) = ih inner e in (ms ∷ hs, b, around e deeper)

pub Nested-total : (ms : Members) → (hs : List Members) × (b : Bool) × Nested ms hs b
Nested-total ms = Nested-below (suc (depth_members ms)) ms (omega arith)

pub count-Nested :
    {ms : Members} {hs : List Members} {b : Bool} (fuel count : ℕ)
    → depth_members ms < fuel
    → Nested ms hs b
    → count_remaining_hops fuel count ms ≡ some (count + length hs, b)
unfolding count_remaining_hops
count-Nested zero count h n = absurd (omega arith)
count-Nested {ms} (suc fuel) count h (innermost e) =
    rw (next_innermost ms e, count_remaining_hops) refl
count-Nested {ms} (suc fuel) count h (broken v e i) =
    rw (next_broken ms v e i, count_remaining_hops) refl
count-Nested {ms} (suc fuel) count h (around {inner} {hs} {b} e n) =
    rw (next_around ms inner e, count_remaining_hops)
      (count-Nested fuel (count + 1) (omega (arith, depth-inner ms inner e)) n
        ∙ ap (λ t. some (t, b)) (omega arith))
