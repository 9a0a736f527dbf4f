-- ===== src/Addresses.antt =====
-- Private addresses (networking/utilities.go). An address is the number of its sixteen bytes: Go's
-- library reads an address of four bytes as the sixteen that map it, and so does the model.
pub mod Translated
pub mod Reserved
mod Tests
use toolhive_core.Base.{
  ℕ, zero, suc, ◌+◌, ◌-◌, ◌*◌, ◌/◌, ◌%◌, ◌^◌, Bool, true, false, not, ◌&&◌, ◌||◌, List, [], ◌∷◌,
  Option, none, some, if◌then◌else◌, ◌==◌, any,
}

-- `net.IPv4` of the four bytes of a number.
abbrev pub ipv4 : ℕ → ℕ
ipv4 v = 0xffff * 2 ^ 32 + v

-- Whether `To4` gives four bytes, which are then the low ones.
abbrev pub is_ipv4 : ℕ → Bool
is_ipv4 ip = ip / 2 ^ 32 == 0xffff

-- A network: of IPv4 or not, its address, and the number of the bits that the mask leaves free.
pub record IpNet : Type 0 where
  pub four : Bool
  pub network : ℕ
  pub free : ℕ

abbrev four_bytes : ℕ → ℕ → ℕ → ℕ → ℕ → IpNet
four_bytes a b c d prefix = record {
  four = true;
  network = ((a * 256 + b) * 256 + c) * 256 + d;
  free = 32 - prefix;
}

abbrev sixteen_bytes : ℕ → ℕ → IpNet
sixteen_bytes network prefix = record { four = false; network = network; free = 128 - prefix }

-- `(*IPNet).Contains`.
abbrev pub contains_ip : ℕ → IpNet → Bool
contains_ip ip n =
    if is_ipv4 ip
    then n.four && (ip % 2 ^ 32) / 2 ^ n.free == n.network / 2 ^ n.free
    else not n.four && ip / 2 ^ n.free == n.network / 2 ^ n.free

abbrev pub private_ip_blocks : List IpNet
private_ip_blocks =
    four_bytes 0 0 0 0 8
    ∷ four_bytes 127 0 0 0 8
    ∷ four_bytes 10 0 0 0 8
    ∷ four_bytes 172 16 0 0 12
    ∷ four_bytes 192 168 0 0 16
    ∷ four_bytes 169 254 0 0 16
    ∷ sixteen_bytes (0x2001 * 2 ^ 112) 32
    ∷ sixteen_bytes 1 128
    ∷ sixteen_bytes (0xfe80 * 2 ^ 112) 10
    ∷ sixteen_bytes (0xfc00 * 2 ^ 112) 7
    ∷ four_bytes 100 64 0 0 10
    ∷ four_bytes 192 0 2 0 24
    ∷ four_bytes 198 51 100 0 24
    ∷ four_bytes 203 0 113 0 24
    ∷ four_bytes 224 0 0 0 4
    ∷ four_bytes 240 0 0 0 4
    ∷ sixteen_bytes (0xff00 * 2 ^ 112) 8
    ∷ sixteen_bytes (0x64ff9b0001 * 2 ^ 80) 48
    ∷ []

abbrev pub nat64_prefixes : List IpNet
nat64_prefixes =
    sixteen_bytes (0x64ff9b * 2 ^ 96) 96 ∷ sixteen_bytes (0x64ff9b0001 * 2 ^ 80) 96 ∷ []

abbrev pub six_to_four_prefix : IpNet
six_to_four_prefix = sixteen_bytes (0x2002 * 2 ^ 112) 16

-- The low four bytes, or bytes 2 to 5.
unfoldable pub embedded_ipv4 : ℕ → Option ℕ
embedded_ipv4 ip =
    if is_ipv4 ip
    then none
    else if any (contains_ip ip) nat64_prefixes
    then some (ipv4 (ip % 2 ^ 32))
    else if contains_ip ip six_to_four_prefix
    then some (ipv4 (ip / 2 ^ 80 % 2 ^ 32))
    else none

-- `IsLoopback`, `IsUnspecified`, `IsLinkLocalUnicast` and `IsLinkLocalMulticast` of Go's library.
abbrev pub is_loopback : ℕ → Bool
is_loopback ip = if is_ipv4 ip then (ip % 2 ^ 32) / 2 ^ 24 == 127 else ip == 1

abbrev is_unspecified : ℕ → Bool
is_unspecified ip = if is_ipv4 ip then ip % 2 ^ 32 == 0 else ip == 0

abbrev is_link_local_unicast : ℕ → Bool
is_link_local_unicast ip =
    if is_ipv4 ip then (ip % 2 ^ 32) / 2 ^ 16 == 169 * 256 + 254 else ip / 2 ^ 118 == 0x3fa

abbrev is_link_local_multicast : ℕ → Bool
is_link_local_multicast ip =
    if is_ipv4 ip
    then (ip % 2 ^ 32) / 2 ^ 8 == 224 * 65536
    else ip / 2 ^ 120 == 0xff && ip / 2 ^ 112 % 16 == 2

unfoldable pub is_special : ℕ → Bool
is_special ip =
    is_loopback ip || is_unspecified ip || is_link_local_unicast ip || is_link_local_multicast ip

-- On fuel for the calls on embedded addresses: see is_private_ip.
unfoldable pub private_within : ℕ → ℕ → Bool
private_within zero ip = false
private_within (suc fuel) ip = elim (is_special ip) [
  | true ↦ true
  | false ↦ elim (embedded_ipv4 ip) [
    | none ↦ any (contains_ip ip) private_ip_blocks
    | some v ↦ private_within fuel v
  ]
]

-- An embedded address embeds no other.
unfoldable pub is_private_ip : ℕ → Bool
is_private_ip ip = private_within 2 ip
