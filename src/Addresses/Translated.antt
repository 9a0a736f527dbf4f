-- ===== src/Addresses/Translated.antt =====
-- Which addresses are private.
use toolhive_core.Base.{
  Bool, if◌then◌else◌, ◌%◌, ◌/◌, any, ℕ, suc, ◌+◌, ◌*◌, ◌^◌, ◌≡◌, ◌<◌, ◌≤◌, ◌⊎◌, inl, inr, refl,
  sym, true, false, none, some, arith, Bool-cases, Option-cases,
}
use toolhive_core.Addresses.{
  ipv4, is_ipv4, contains_ip, nat64_prefixes, six_to_four_prefix, embedded_ipv4, is_special,
  private_within, is_private_ip,
}

-- The addresses of 64:ff9b::/96, of 64:ff9b:1::/96 and of 2002::/16 (6to4), with the IPv4 address
-- that each embeds. The rest of 64:ff9b:1::/48 is in `IsLocalUse` below.
abbrev pub Translates : ℕ → ℕ → Type 0
Translates ip v =
    (ip ≡ 0x64ff9b * 2 ^ 96 + v)
    ⊎ ((ip ≡ 0x64ff9b0001 * 2 ^ 80 + v)
        ⊎ ((s : ℕ) × (s < 2 ^ 80) × (ip ≡ 0x2002 * 2 ^ 112 + v * 2 ^ 80 + s)))

mapped : (v : ℕ) → v < 2 ^ 32 → is_ipv4 (ipv4 v) ≡ true
mapped v h = ground arith

pub embedded-ipv4 : (v : ℕ) → v < 2 ^ 32 → embedded_ipv4 (ipv4 v) ≡ none
unfolding embedded_ipv4
embedded-ipv4 v h = rw (mapped v h) refl

-- One more than one call is enough for an IPv4 address.
enough : (v n : ℕ) → v < 2 ^ 32 → private_within (suc n) (ipv4 v) ≡ private_within 1 (ipv4 v)
unfolding private_within
enough v n h = elim (Bool-cases (is_special (ipv4 v))) [
  | inl e ↦ rw (e, private_within) refl
  | inr e ↦ rw (e, private_within) (rw (embedded-ipv4 v h, private_within) refl)
]

-- An address with an embedded one is judged by that one.
by_embedded :
    (ip v : ℕ)
    → v < 2 ^ 32
    → is_special ip ≡ false
    → embedded_ipv4 ip ≡ some (ipv4 v)
    → is_private_ip ip ≡ is_private_ip (ipv4 v)
unfolding is_private_ip private_within
by_embedded ip v h plain e =
    rw (plain, private_within) (rw (e, private_within) (sym (enough v 1 h)))

well_known_plain : (v : ℕ) → v < 2 ^ 32 → is_special (0x64ff9b * 2 ^ 96 + v) ≡ false
unfolding is_special
well_known_plain v h = ground arith

local_use_plain : (v : ℕ) → v < 2 ^ 32 → is_special (0x64ff9b0001 * 2 ^ 80 + v) ≡ false
unfolding is_special
local_use_plain v h = ground arith

six_to_four_plain :
    (v s : ℕ) → v < 2 ^ 32 → s < 2 ^ 80 → is_special (0x2002 * 2 ^ 112 + v * 2 ^ 80 + s) ≡ false
unfolding is_special
six_to_four_plain v s h k = ground arith

well_known : (v : ℕ) → v < 2 ^ 32 → embedded_ipv4 (0x64ff9b * 2 ^ 96 + v) ≡ some (ipv4 v)
unfolding embedded_ipv4
well_known v h = ground arith

local_use : (v : ℕ) → v < 2 ^ 32 → embedded_ipv4 (0x64ff9b0001 * 2 ^ 80 + v) ≡ some (ipv4 v)
unfolding embedded_ipv4
local_use v h = ground arith

six_to_four :
    (v s : ℕ)
    → v < 2 ^ 32
    → s < 2 ^ 80
    → embedded_ipv4 (0x2002 * 2 ^ 112 + v * 2 ^ 80 + s) ≡ some (ipv4 v)
unfolding embedded_ipv4
six_to_four v s h k = ground arith

-- The addresses of 64:ff9b:1::/48 that are not in 64:ff9b:1::/96, by their offset.
abbrev IsLocalUse : ℕ → Type 0
IsLocalUse ip = (s : ℕ) × (2 ^ 32 ≤ s) × (s < 2 ^ 80) × (ip ≡ 0x64ff9b0001 * 2 ^ 80 + s)

-- An address of 64:ff9b:1::/48 outside 64:ff9b:1::/96 is private.
is_private_ip-IsLocalUse : (ip : ℕ) → IsLocalUse ip → is_private_ip ip ≡ true
unfolding is_private_ip private_within is_special embedded_ipv4
is_private_ip-IsLocalUse ip (s, h, k, e) = rw e (ground arith)

-- An address of 64:ff9b::/96, of 64:ff9b:1::/96 or of 2002::/16 (6to4) is private exactly when the
-- IPv4 address that it embeds is. It says nothing of the rest of 64:ff9b:1::/48.
pub is_private_ip-Translates :
    (ip v : ℕ) → v < 2 ^ 32 → Translates ip v → is_private_ip ip ≡ is_private_ip (ipv4 v)
is_private_ip-Translates ip v h (inl e) =
    rw e (by_embedded _ v h (well_known_plain v h) (well_known v h))
is_private_ip-Translates ip v h (inr (inl e)) =
    rw e (by_embedded _ v h (local_use_plain v h) (local_use v h))
is_private_ip-Translates ip v h (inr (inr (s, k, e))) =
    rw e (by_embedded _ v h (six_to_four_plain v s h k) (six_to_four v s h k))

-- The result of two tests that give a value, under one that gives none.
either :
    (a b c : Bool) (x y v : ℕ)
    → (if a then none else if b then some x else if c then some y else none) ≡ some v
    → (v ≡ x) ⊎ (v ≡ y)
either true b c x y v e = cc
either false true c x y v e = inl cc
either false false true x y v e = inr cc
either false false false x y v e = cc

-- What is embedded is an IPv4 address.
embedded-is_ipv4 : (ip v : ℕ) → embedded_ipv4 ip ≡ some v → (w : ℕ) × (w < 2 ^ 32) × (v ≡ ipv4 w)
unfolding embedded_ipv4
embedded-is_ipv4 ip v e =
    elim (either (is_ipv4 ip) (any (contains_ip ip) nat64_prefixes)
      (contains_ip ip six_to_four_prefix) _ _ v e) [
        | inl nat64 ↦ (ip % 2 ^ 32, omega arith, nat64)
        | inr six_four ↦ (ip / 2 ^ 80 % 2 ^ 32, omega arith, six_four)
      ]

enough_at : (v w n : ℕ) → w < 2 ^ 32 → v ≡ ipv4 w → private_within (suc n) v ≡ private_within 1 v
enough_at v w n h same = rw same (enough w n h)

-- Two calls are enough for every address: more fuel gives the same answer.
pub private_within_enough : (n ip : ℕ) → private_within (suc (suc n)) ip ≡ is_private_ip ip
unfolding private_within is_private_ip
private_within_enough n ip = elim (Bool-cases (is_special ip)) [
  | inl special ↦ rw (special, private_within) refl
  | inr plain ↦ elim (Option-cases (embedded_ipv4 ip)) [
    | inl e ↦ rw (plain, private_within) (rw (e, private_within) refl)
    | inr (v, e) ↦
        let (w, h, same) = embedded-is_ipv4 ip v e in
        rw (plain, private_within) (rw (e, private_within) (enough_at v w n h same))
  ]
]
