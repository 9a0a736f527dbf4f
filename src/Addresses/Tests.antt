-- ===== src/Addresses/Tests.antt =====
-- 10.0.0.1, and the same by NAT64.
use toolhive_core.Base.{ℕ, ◌+◌, ◌*◌, ◌^◌, ◌≡◌, ◌↔◌, refl, inl, true, false, arith}
use toolhive_core.Addresses.{ipv4, embedded_ipv4, is_special, private_within, is_private_ip}
use toolhive_core.Addresses.Translated.{is_private_ip-Translates, private_within_enough}
use toolhive_core.Addresses.Reserved.{IsReserved, is_private_ip_iff}

abbrev inner : ℕ
inner = 0x0a000001

abbrev translated : ℕ
translated = 0x64ff9b * 2 ^ 96 + inner

private_test : is_private_ip (ipv4 inner) ≡ true
unfolding is_private_ip private_within is_special embedded_ipv4
private_test = refl

public_test : is_private_ip (ipv4 0x08080808) ≡ false
unfolding is_private_ip private_within is_special embedded_ipv4
public_test = refl

is_private_ip-Translates_example : is_private_ip translated ≡ is_private_ip (ipv4 inner)
is_private_ip-Translates_example =
    is_private_ip-Translates translated inner (omega arith) (inl refl)

is_private_ip_iff_example : (is_private_ip (ipv4 inner) ≡ true) ↔ IsReserved inner
is_private_ip_iff_example = is_private_ip_iff inner (omega arith)

private_within_enough_test : private_within 5 translated ≡ is_private_ip translated
private_within_enough_test = private_within_enough 3 translated
