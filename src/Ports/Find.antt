-- ===== src/Ports/Find.antt =====
-- What the search for a free port finds.
use native.Mathlib.Decide.{ℕ_discrete}
use toolhive_core.Base.{
  ℕ, zero, suc, ◌+◌, ◌-◌, ◌≤◌, ◌<◌, ◌≡◌, inl, inr, refl, ap, Bool, true, false, Option, none, some,
  arith, Bool-cases,
}
use toolhive_core.Ports.{
  Os, min_port, max_port, max_attempts, Probe, is_available, try_random, try_sequential,
  or_sequential, find_with, find_available,
}

module _ (os : Os) where
  -- The probe of the port succeeded, and its world is the one that is left.
  abbrev pub Probed : Probe os → ℕ → os.World → Type 0
  Probed probe port w' = (w : os.World) × (probe port w ≡ (true, w'))

  abbrev pub IsFound : Probe os → ℕ → os.World → Type 0
  IsFound probe port w' = (min_port ≤ port) × (port ≤ max_port) × Probed probe port w'

  -- What is found, if anything is.
  abbrev Found : Probe os → Option ℕ × os.World → Type 0
  Found probe (none, w') = Unit
  Found probe (some port, w') = IsFound probe port w'

  Found-by :
      (probe : Probe os) (port : ℕ) (w : os.World) (p : Bool × os.World)
      (rest : Option ℕ × os.World)
      → probe port w ≡ p
      → min_port ≤ port
      → port ≤ max_port
      → Found probe rest
      → Found probe (elim p.0 [ true ↦ (some port, p.1) | false ↦ rest ])
  Found-by probe port w (true, w') rest e lo hi f = (lo, hi, (w, e))
  Found-by probe port w (false, w') rest e lo hi f = f

  of_draw :
      (probe : Probe os) (n : ℕ) (w : os.World) (d : Option ℕ × os.World)
      → os.random (max_port - min_port) w ≡ d
      → ((u : os.World) → Found probe (try_random os probe n u))
      → Found probe (elim d.0 [
        | none ↦ (none, d.1)
        | some r ↦ elim (probe (r + min_port) d.1).0 [
          | true ↦ (some (r + min_port), (probe (r + min_port) d.1).1)
          | false ↦ try_random os probe n (probe (r + min_port) d.1).1
        ]
      ])
  of_draw probe n w (none, w1) e ih = tt
  of_draw probe n w (some r, w1) e ih =
      let below : r < max_port - min_port =
        os.random_lt (max_port - min_port) w (ap (λ (d : Option ℕ × os.World). d.0) e) in
      Found-by probe (r + min_port) w1 (probe (r + min_port) w1) _ refl (omega arith) (omega arith)
        (ih (probe (r + min_port) w1).1)

  try_random-Found :
      (probe : Probe os) (n : ℕ) (w : os.World) → Found probe (try_random os probe n w)
  unfolding try_random
  try_random-Found probe zero w = tt
  try_random-Found probe (suc n) w =
      of_draw probe n w (os.random (max_port - min_port) w) refl (λ u. try_random-Found probe n u)

  try_sequential-Found :
      (probe : Probe os) (count port : ℕ) (w : os.World)
      → min_port ≤ port
      → port + count ≤ max_port + 1
      → Found probe (try_sequential os probe count port w)
  unfolding try_sequential
  try_sequential-Found probe zero port w lo hi = tt
  try_sequential-Found probe (suc count) port w lo hi =
      Found-by probe port w (probe port w) _ refl lo (omega arith)
        (try_sequential-Found probe count (port + 1) (probe port w).1 (omega arith) (omega arith))

  -- Every port from one on, so many of them, was probed in vain.
  abbrev pub AllTaken : Probe os → ℕ → ℕ → Type 0
  AllTaken probe port count =
      (p : ℕ) → port ≤ p → p < port + count → (w : os.World) × ((probe p w).0 ≡ false)

  try_sequential-AllTaken :
      (probe : Probe os) (count port : ℕ) (w : os.World)
      → (try_sequential os probe count port w).0 ≡ none
      → AllTaken probe port count
  unfolding try_sequential
  try_sequential-AllTaken probe zero port w h = λ p lo hi. absurd (omega arith)
  try_sequential-AllTaken probe (suc count) port w h = elim (Bool-cases (probe port w).0) [
    | inl free ↦ cc (rw (free, try_sequential) at h)
    | inr busy ↦
        let later =
          try_sequential-AllTaken probe count (port + 1) (probe port w).1
            (rw (busy, try_sequential) at h) in
        λ p lo hi. elim (ℕ_discrete p port) [
          | yes same ↦ (w, rw same busy)
          | no other ↦ later p (omega arith) (omega arith)
        ]
  ]

  -- What a search for a port owes its caller: a port it found, or that none is free.
  abbrev pub IsAnswer : Probe os → Option ℕ × os.World → Type 0
  IsAnswer probe (none, w') = AllTaken probe min_port (max_port - min_port + 1)
  IsAnswer probe (some port, w') = IsFound probe port w'

  pub find_with-IsAnswer : (probe : Probe os) (w : os.World) → IsAnswer probe (find_with os probe w)
  unfolding find_with
  find_with-IsAnswer probe w =
      of_random (try_random os probe max_attempts w) (try_random-Found probe max_attempts w)
    where
      of_sequence :
          (p : Option ℕ × os.World)
          → Found probe p
          → (p.0 ≡ none → AllTaken probe min_port (max_port - min_port + 1))
          → IsAnswer probe p
      of_sequence (none, w') f taken = taken refl
      of_sequence (some q, w') f taken = f

      of_random :
          (p : Option ℕ × os.World) → Found probe p → IsAnswer probe (or_sequential os probe p)
      of_random (some q, w') f = f
      of_random (none, w') f =
          of_sequence (try_sequential os probe (max_port - min_port + 1) min_port w')
            (try_sequential-Found probe (max_port - min_port + 1) min_port w' (omega arith)
              (omega arith))
            (try_sequential-AllTaken probe (max_port - min_port + 1) min_port w')

  -- `FindAvailable` returns a port from 10000 to 65535 whose probe just succeeded, in the world that
  -- it leaves, or none, and then every port of that range was probed in vain.
  pub find_available_lem : (w : os.World) → IsAnswer (is_available os) (find_available os w)
  unfolding find_available
  find_available_lem w = find_with-IsAnswer (is_available os) w
