-- ===== src/Ports/Spec.antt =====
-- What a caller may rely on of the port it is given, and of a port specification it parsed.
use toolhive_core.Base.{
  ℕ, zero, suc, ◌≤◌, ◌≡◌, ◌⊎◌, inl, inr, refl, sym, ap, Bool, true, false, Option, none, some,
  if◌then◌else◌, ok, arith, Option-cases,
}
use toolhive_core.Base.Int.{ℤ, pos, negsuc}
use toolhive_core.Ports.{
  Os, max_port, PortError, no_port, no_alternative, Probe, try_listen_tcp, is_available, find_with,
  in_range, or_error, use_or_find, use_in_range, find_or_use_port, find_or_use_listener,
}
use toolhive_core.Ports.Find.{Probed, IsFound, IsAnswer, find_with-IsAnswer}

module _ (os : Os) where
  in_range-some : (z : ℤ) (n : ℕ) → in_range os z ≡ some n → (z ≡ pos n) × (n ≤ max_port)
  unfolding in_range
  in_range-some (negsuc m) n e = cc
  in_range-some (pos m) n e = ground arith

  -- The port that was asked for, not 0 and probed, or one that the search found.
  abbrev pub IsUsable : Probe os → ℤ → ℕ → os.World → Type 0
  IsUsable probe port q w' =
      ((port ≡ pos q) × (1 ≤ q) × (q ≤ max_port) × Probed os probe q w') ⊎ IsFound os probe q w'

  or_error-ok :
      (probe : Probe os) (port : ℤ) (e : PortError) (p : Option ℕ × os.World) (q : ℕ)
      → IsAnswer os probe p
      → (or_error os e p).0 ≡ ok q
      → IsUsable probe port q (or_error os e p).1
  unfolding or_error
  or_error-ok probe port e (none, w') q f h = cc
  or_error-ok probe port e (some n, w') q f h = let same : q ≡ n = cc in inr (rw same f)

  use_or_find-ok :
      (probe : Probe os) (n : ℕ) (w : os.World) (q : ℕ)
      → n ≤ max_port
      → (use_or_find os probe n w).0 ≡ ok q
      → IsUsable probe (pos n) q (use_or_find os probe n w).1
  unfolding use_or_find
  use_or_find-ok probe zero w q hi h =
      or_error-ok probe (pos 0) no_port (find_with os probe w) q (find_with-IsAnswer os probe w) h
  use_or_find-ok probe (suc n) w q hi h = of_probe (probe (suc n) w) refl h
    where
      of_probe :
          (p : Bool × os.World)
          → probe (suc n) w ≡ p
          → (if p.0
              then (ok (suc n), p.1)
              else or_error os no_alternative (find_with os probe p.1)).0
            ≡ ok q
          → IsUsable probe
              (pos (suc n))
              q
              (if p.0
                then (ok (suc n), p.1)
                else or_error os no_alternative (find_with os probe p.1)).1
      of_probe (true, w1) e h =
          let same : q ≡ suc n = cc in
          inl (ap pos (sym same), omega arith, omega arith, (w, rw same e))
      of_probe (false, w1) e h =
          or_error-ok probe (pos (suc n)) no_alternative (find_with os probe w1) q
            (find_with-IsAnswer os probe w1) h

  use_in_range-ok :
      (probe : Probe os) (port : ℤ) (w : os.World) (q : ℕ)
      → (use_in_range os probe (in_range os port) w).0 ≡ ok q
      → IsUsable probe port q (use_in_range os probe (in_range os port) w).1
  unfolding use_in_range
  use_in_range-ok probe port w q h = elim (Option-cases (in_range os port)) [
    | inr (n, e) ↦
        let (is_n, hi) = in_range-some port n e in
        rw (e, use_in_range) (rw is_n (use_or_find-ok probe n w q hi (rw (e, use_in_range) at h)))
    | inl e ↦ cc (rw (e, use_in_range) at h)
  ]

  -- A port that `FindOrUsePort` returns was just probed with success, in the world that is left: it is
  -- the port asked for, from 1 to 65535, or one found from 10000 on.
  pub find_or_use_port_lem :
      (port : ℤ) (w : os.World) (q : ℕ)
      → (find_or_use_port os port w).0 ≡ ok q
      → IsUsable (is_available os) port q (find_or_use_port os port w).1
  unfolding find_or_use_port
  find_or_use_port_lem port w q h = use_in_range-ok (is_available os) port w q h

  -- A listener that `FindOrUseListener` returns is open on the port it was just opened on: the port
  -- asked for, from 1 to 65535, or one found from 10000 on.
  pub find_or_use_listener_lem :
      (port : ℤ) (w : os.World) (q : ℕ)
      → (find_or_use_listener os port w).0 ≡ ok q
      → IsUsable (try_listen_tcp os) port q (find_or_use_listener os port w).1
  unfolding find_or_use_listener
  find_or_use_listener_lem port w q h = use_in_range-ok (try_listen_tcp os) port w q h
