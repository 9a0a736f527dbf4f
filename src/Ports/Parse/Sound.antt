-- ===== src/Ports/Parse/Sound.antt =====
-- What a port specification that `ParsePortSpec` accepts looks like.
use toolhive_core.Base.{
  ℕ, ◌≤◌, ◌≡◌, ◌⊎◌, inl, inr, sym, ap, ◌∙◌, List, [], ◌∷◌, ◌++◌, Option, none, some, ltb, ◌||◌, ok,
  arith, Bool-cases, Option-cases, Bytes, has_byte, split_at,
}
use toolhive_core.Base.Texts.Split.{join_at, join_at-split_at}
use toolhive_core.Base.Int.{ℤ, pos, negsuc}
use toolhive_core.Base.Decimal.{atoi, format_nat}
use toolhive_core.Ports.{Os, max_port, is_available, find_available, port_from}
use toolhive_core.Ports.Parse.{
  port_of, container_part, host_part, of_parts, with_host, in_container_range, of_container,
  parse_port_spec,
}
use toolhive_core.Ports.Find.{IsFound, IsAnswer, find_available_lem}

-- A port from a range, and nothing else.
port_from-some :
    (low : ℕ) (z : ℤ) (n : ℕ) → port_from low z ≡ some n → (z ≡ pos n) × (low ≤ n) × (n ≤ max_port)
unfolding port_from
port_from-some low (negsuc m) n e = cc
port_from-some low (pos m) n e = elim (Bool-cases (ltb m low || ltb max_port m)) [
  | inl bad ↦ cc (rw bad at e)
  | inr good ↦ ground arith
]

port_of-some :
    (low : ℕ) (s : Bytes) (n : ℕ)
    → port_of low s ≡ some n
    → (atoi s ≡ some (pos n)) × (low ≤ n) × (n ≤ max_port)
port_of-some low s n e = elim (Option-cases (atoi s)) [
  | inl bad ↦ cc (rw (bad, port_of) at e)
  | inr (z, good) ↦
      let (is_n, lo, hi) = port_from-some low z n (rw (good, port_of) at e) in
      (good ∙ ap some is_n, lo, hi)
]

-- The two ports that a specification names, as `host:container`.
abbrev pub IsPair : Bytes → Bytes → ℕ → Type 0
IsPair spec host c =
    (text : Bytes) × (spec ≡ host ++ b':' ∷ text)
    × (atoi text ≡ some (pos c))
    × (h : ℕ) × (atoi host ≡ some (pos h))
    × (h ≤ max_port)

of_parts-ok :
    (spec : Bytes) (parts : List Bytes) (host : Bytes) (c : ℕ)
    → join_at b':' parts ≡ spec
    → of_parts parts ≡ ok (host, c)
    → (1 ≤ c) × (c ≤ max_port) × IsPair spec host c
unfolding of_parts host_part container_part join_at
of_parts-ok spec [] host c j e = cc
of_parts-ok spec (a ∷ []) host c j e = cc
of_parts-ok spec (a ∷ b ∷ d ∷ rest) host c j e = cc
of_parts-ok spec (a ∷ b ∷ []) host c j e = elim (Option-cases (port_of 0 a)) [
  | inl bad ↦ cc (rw (bad, host_part) at e)
  | inr (h, good) ↦ elim (Option-cases (port_of 1 b)) [
    | inl bad ↦ cc (rw (bad, container_part) at (rw (good, host_part) at e))
    | inr (d, right) ↦
        let same = rw (right, container_part) at (rw (good, host_part) at e) in
        let same_host : a ≡ host = cc in
        let same_port : d ≡ c = cc in
        let (is_h, _, h_hi) = port_of-some 0 a h good in
        let (is_d, lo, hi) = port_of-some 1 b d right in
        rw (sym same_host) (rw (sym same_port) (lo, hi, (b, sym j, is_d, h, is_h, h_hi)))
  ]
]

module _ (os : Os) where
  -- A specification of the container's port alone: the host's port was found.
  abbrev pub IsSingle : Bytes → Bytes → ℕ → os.World → Type 0
  IsSingle spec host c w' =
      (atoi spec ≡ some (pos c))
      × (h : ℕ) × (host ≡ format_nat h)
      × IsFound os (is_available os) h w'

  with_host-ok :
      (c d : ℕ) (p : Option ℕ × os.World) (host : Bytes)
      → IsAnswer os (is_available os) p
      → (with_host os d p).0 ≡ ok (host, c)
      → (d ≡ c)
        × (h : ℕ) × (host ≡ format_nat h)
        × IsFound os (is_available os) h (with_host os d p).1
  unfolding with_host
  with_host-ok c d (none, w) host f e = cc
  with_host-ok c d (some h, w) host f e = (cc, h, cc, f)

  of_container-ok :
      (z : Option ℤ) (w : os.World) (host : Bytes) (c : ℕ)
      → (of_container os z w).0 ≡ ok (host, c)
      → (1 ≤ c)
        × (c ≤ max_port)
        × (z ≡ some (pos c))
        × (h : ℕ) × (host ≡ format_nat h)
        × IsFound os (is_available os) h (of_container os z w).1
  unfolding of_container in_container_range
  of_container-ok none w host c e = cc
  of_container-ok (some z) w host c e = elim (Option-cases (port_from 1 z)) [
    | inl bad ↦ cc (rw (bad, in_container_range) at e)
    | inr (d, good) ↦
        let (is_d, lo, hi) = port_from-some 1 z d good in
        let (same, h, is_h, found) =
          with_host-ok c d (find_available os w) host (find_available_lem os w)
            (rw (good, in_container_range) at e) in
        rw (good, in_container_range)
          (rw same at lo, rw same at hi, ap some (is_d ∙ ap pos same), h, is_h, found)
  ]

  -- A specification that `ParsePortSpec` accepts has a container port from 1 to 65535, and either is
  -- `host:container` with a host port up to 65535, whose text is returned unchanged, or is the
  -- container's port alone, and then the host port is one that was just probed from 10000 on.
  pub parse_port_spec_sound :
      (spec host : Bytes) (c : ℕ) (w : os.World)
      → (parse_port_spec os spec w).0 ≡ ok (host, c)
      → (1 ≤ c)
        × (c ≤ max_port)
        × (IsPair spec host c ⊎ IsSingle spec host c (parse_port_spec os spec w).1)
  unfolding parse_port_spec
  parse_port_spec_sound spec host c w e = elim (Bool-cases (has_byte b':' spec)) [
    | inl colon ↦
        let (lo, hi, pair) =
          of_parts-ok spec (split_at b':' spec) host c (join_at-split_at b':' spec)
            (rw colon at e) in
        (lo, hi, inl pair)
    | inr plain ↦
        let (lo, hi, whole, h, is_h, found) =
          of_container-ok (atoi spec) w host c (rw plain at e) in
        (lo, hi, inr (whole, h, is_h, rw plain found))
  ]
