-- ===== src/Ports/Tests.antt =====
-- A machine on which every port but 8080 is free, and whose random numbers are all 0.
use toolhive_core.Base.{
  ℕ, zero, suc, ◌<◌, ◌≤◌, ◌≡◌, ◌⊎◌, refl, sym, true, not, Option, some, none, split_at, ◌==◌, ok,
  codes, arith,
}
use toolhive_core.Base.Int.{pos}
use toolhive_core.Base.Decimal.{atoi}
use toolhive_core.Ports.{
  Os, max_port, is_available, try_listen_tcp, port_from, find_available, find_or_use_port,
  find_or_use_listener, in_range, try_random, find_with,
}
use toolhive_core.Ports.Parse.{parse_port_spec}
use toolhive_core.Ports.Find.{IsAnswer, find_available_lem}
use toolhive_core.Ports.Spec.{IsUsable, find_or_use_port_lem, find_or_use_listener_lem}
use toolhive_core.Ports.Parse.Sound.{IsPair, IsSingle, parse_port_spec_sound}

abbrev first_number : ℕ → Option ℕ
first_number zero = none
first_number (suc n) = some 0

first_number_below : (n : ℕ) {r : ℕ} → first_number n ≡ some r → r < n
first_number_below zero e = cc
first_number_below (suc n) {r} e = let same : 0 ≡ r = cc in rw (sym same) (omega arith)

-- The world counts the calls.
abbrev machine : Os
machine = record {
  World = ℕ;
  listen_tcp = λ port w. (not (port == 8080), suc w);
  close_tcp = λ port w. suc w;
  listen_udp = λ port w. (true, suc w);
  close_udp = λ port w. suc w;
  random = λ n w. (first_number n, suc w);
  random_lt = λ n w. first_number_below n;
}

find_available_test : (find_available machine 0).0 ≡ some 10000
unfolding find_available find_with try_random is_available
find_available_test = refl

parse_port_spec_test : (parse_port_spec machine (codes "8080:80") 0).0 ≡ ok (codes "8080", 80)
unfolding parse_port_spec split_at atoi port_from
parse_port_spec_test = refl

find_available_lem_test : IsAnswer machine (is_available machine) (find_available machine 0)
find_available_lem_test = find_available_lem machine 0

moved : (find_or_use_port machine (pos 8080) 0).0 ≡ ok 10000
unfolding find_or_use_port find_available find_with try_random is_available in_range
moved = refl

kept : (find_or_use_listener machine (pos 80) 0).0 ≡ ok 80
unfolding find_or_use_listener in_range try_listen_tcp
kept = refl

find_or_use_port_lem_example :
    IsUsable machine
      (is_available machine)
      (pos 8080)
      10000
      (find_or_use_port machine (pos 8080) 0).1
find_or_use_port_lem_example = find_or_use_port_lem machine (pos 8080) 0 10000 moved

find_or_use_listener_lem_test :
    IsUsable machine
      (try_listen_tcp machine)
      (pos 80)
      80
      (find_or_use_listener machine (pos 80) 0).1
find_or_use_listener_lem_test = find_or_use_listener_lem machine (pos 80) 0 80 kept

parse_port_spec_sound_test :
    (1 ≤ 80)
    × (80 ≤ max_port)
    × (IsPair (codes "8080:80") (codes "8080") 80
        ⊎ IsSingle machine
            (codes "8080:80")
            (codes "8080")
            80
            (parse_port_spec machine (codes "8080:80") 0).1)
parse_port_spec_sound_test =
    parse_port_spec_sound machine (codes "8080:80") (codes "8080") 80 0 parse_port_spec_test
