-- ===== src/Addresses/Reserved.antt =====
-- Which IPv4 addresses are private.
use toolhive_core.Base.{
  ℕ, ◌+◌, ◌*◌, ◌^◌, ◌≡◌, ◌<◌, ◌≤◌, ◌⊎◌, ◌↔◌, inl, inr, refl, true, ◌||◌, any, arith, Bool-cases,
}
use toolhive_core.Addresses.{
  ipv4, contains_ip, private_ip_blocks, is_special, private_within, is_private_ip,
}
use toolhive_core.Addresses.Translated.{embedded-ipv4}

-- From one number to another, both included.
abbrev pub IsBetween : ℕ → ℕ → ℕ → Type 0
IsBetween low high v = (low ≤ v) × (v ≤ high)

abbrev dotted : ℕ → ℕ → ℕ → ℕ → ℕ
dotted a b c d = ((a * 256 + b) * 256 + c) * 256 + d

-- The ranges of the addresses that no host on the internet has.
abbrev pub IsReserved : ℕ → Type 0
IsReserved v =
    IsBetween (dotted 0 0 0 0) (dotted 0 255 255 255) v
    ⊎ (IsBetween (dotted 10 0 0 0) (dotted 10 255 255 255) v
        ⊎ (IsBetween (dotted 100 64 0 0) (dotted 100 127 255 255) v
            ⊎ (IsBetween (dotted 127 0 0 0) (dotted 127 255 255 255) v
                ⊎ (IsBetween (dotted 169 254 0 0) (dotted 169 254 255 255) v
                    ⊎ (IsBetween (dotted 172 16 0 0) (dotted 172 31 255 255) v
                        ⊎ (IsBetween (dotted 192 0 2 0) (dotted 192 0 2 255) v
                            ⊎ (IsBetween (dotted 192 168 0 0) (dotted 192 168 255 255) v
                                ⊎ (IsBetween (dotted 198 51 100 0) (dotted 198 51 100 255) v
                                    ⊎ (IsBetween (dotted 203 0 113 0) (dotted 203 0 113 255) v
                                        ⊎ IsBetween (dotted 224 0 0 0) (dotted 255 255 255 255)
                                            v)))))))))

-- The tests on the number of an IPv4 address, without those that a later block covers.
is_private_ip-ipv4 :
    (v : ℕ)
    → v < 2 ^ 32
    → is_private_ip (ipv4 v) ≡ (is_special (ipv4 v) || any (contains_ip (ipv4 v)) private_ip_blocks)
unfolding is_private_ip private_within
is_private_ip-ipv4 v h = elim (Bool-cases (is_special (ipv4 v))) [
  | inl e ↦ rw (e, private_within) refl
  | inr e ↦ rw (e, private_within) (rw (embedded-ipv4 v h, private_within) refl)
]

of_blocks :
    (v : ℕ)
    → v < 2 ^ 32
    → ((is_special (ipv4 v) || any (contains_ip (ipv4 v)) private_ip_blocks) ≡ true) ↔ IsReserved v
unfolding is_special
of_blocks v h = ground arith

-- An IPv4 address is private exactly when it lies in one of eleven ranges: 0/8, 10/8, 100.64/10,
-- 127/8, 169.254/16, 172.16/12, 192.0.2/24, 192.168/16, 198.51.100/24, 203.0.113/24 and from 224 on.
pub is_private_ip_iff : (v : ℕ) → v < 2 ^ 32 → (is_private_ip (ipv4 v) ≡ true) ↔ IsReserved v
is_private_ip_iff v h = rw (is_private_ip-ipv4 v h) (of_blocks v h)
