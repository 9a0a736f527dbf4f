-- ===== src/Base/Clean/Kept.antt =====
-- Cleaning a path makes up no character but the slash and the dot.
use Prim.Native.Nat.{ℕ}
use mathlib.Core.Bool.{Bool, true, false}
use mathlib.Core.Logic.{inl, inr}
use mathlib.Core.List.{List, [], ◌∷◌, reverse, reverse_aux}
use toolhive_core.Base.Tests.{◌==◌, Bool-cases}
use toolhive_core.Base.Lists.{All, All-append}
use toolhive_core.Base.Texts.Defs.{Bytes, bytes_eq, split_at}
use toolhive_core.Base.Texts.Split.{join_at, split_at-cons}
use toolhive_core.Base.Clean.{
  dot, dot_dot, go_up, clean_step, clean_elements, cleaned, is_abs, clean,
}

module _ (P : ℕ → Type 0) (slash : P b'/') (point : P b'.') where
  split_at-keeps : (s : Bytes) → All P s → All (All P) (split_at b'/' s)
  unfolding split_at
  split_at-keeps [] h = (tt, tt)
  split_at-keeps (a ∷ s) (one, others) =
      let (w, ws, e) = split_at-cons b'/' s in
      let (first, rest) = rw e at (split_at-keeps s others) in
      elim (Bool-cases (a == b'/')) [
        | inl at_slash ↦ rw (at_slash, split_at) (tt, split_at-keeps s others)
        | inr inside ↦ rw (inside, split_at) (rw e ((one, first), rest))
      ]

  join_at-keeps : (parts : List Bytes) → All (All P) parts → All P (join_at b'/' parts)
  unfolding join_at
  join_at-keeps [] h = tt
  join_at-keeps (w ∷ []) (one, others) = one
  join_at-keeps (w ∷ x ∷ ws) (one, others) =
      All-append P w (b'/' ∷ join_at b'/' (x ∷ ws)) one (slash, join_at-keeps (x ∷ ws) others)

  reverse-keeps :
      (parts done : List Bytes)
      → All (All P) parts
      → All (All P) done
      → All (All P) (reverse_aux parts done)
  reverse-keeps [] done h d = d
  reverse-keeps (w ∷ ws) done (one, others) d = reverse-keeps ws (w ∷ done) others (one, d)

  go_up-keeps :
      (rooted : Bool) (kept : List Bytes) → All (All P) kept → All (All P) (go_up rooted kept)
  unfolding go_up
  go_up-keeps true [] h = tt
  go_up-keeps false [] h = ((point, (point, tt)), tt)
  go_up-keeps rooted (top ∷ rest) (one, others) = elim (Bool-cases (bytes_eq top dot_dot)) [
    | inl up ↦ rw up ((point, (point, tt)), (one, others))
    | inr down ↦ rw down others
  ]

  clean_step-keeps :
      (rooted : Bool) (kept : List Bytes) (s : Bytes)
      → All (All P) kept
      → All P s
      → All (All P) (clean_step rooted kept s)
  unfolding clean_step
  clean_step-keeps rooted kept s h one = elim (Bool-cases (bytes_eq s [])) [
    | inl e ↦ rw e h
    | inr nonempty ↦ elim (Bool-cases (bytes_eq s dot)) [
      | inl e ↦ rw (nonempty, e) h
      | inr moving ↦ elim (Bool-cases (bytes_eq s dot_dot)) [
        | inl e ↦ rw (nonempty, moving, e) (go_up-keeps rooted kept h)
        | inr down ↦ rw (nonempty, moving, down) (one, h)
      ]
    ]
  ]

  clean_elements-keeps :
      (rooted : Bool) (kept elements : List Bytes)
      → All (All P) kept
      → All (All P) elements
      → All (All P) (clean_elements rooted kept elements)
  unfolding clean_elements
  clean_elements-keeps rooted kept [] h k = h
  clean_elements-keeps rooted kept (s ∷ rest) h (one, others) =
      clean_elements-keeps rooted (clean_step rooted kept s) rest
        (clean_step-keeps rooted kept s h one) others

  cleaned-keeps :
      (rooted : Bool) (kept : List Bytes) → All (All P) kept → All P (cleaned rooted kept)
  unfolding cleaned
  cleaned-keeps true kept h = (slash, join_at-keeps (reverse kept) (reverse-keeps kept [] h tt))
  cleaned-keeps false [] h = (point, tt)
  cleaned-keeps false (top ∷ rest) h =
      join_at-keeps (reverse (top ∷ rest)) (reverse-keeps (top ∷ rest) [] h tt)

  pub clean-keeps : (p : Bytes) → All P p → All P (clean p)
  unfolding clean
  clean-keeps p h =
      cleaned-keeps (is_abs p) _
        (clean_elements-keeps (is_abs p) [] (split_at b'/' p) tt (split_at-keeps p h))
