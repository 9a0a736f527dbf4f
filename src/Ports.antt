-- ===== src/Ports.antt =====
-- Choosing and checking network ports (networking/port.go).
pub mod Find
pub mod Parse
pub mod Spec
mod Tests
use toolhive_core.Base.{
  ℕ, zero, suc, ◌+◌, ◌-◌, ◌≡◌, ◌<◌, Bool, true, false, not, ◌&&◌, ◌||◌, List, [], ◌∷◌, Option, none,
  some, String, ltb, leb, ◌==◌, if◌then◌else◌, length, Bytes, bytes_eq, codes, has_byte, split_at,
  Except, ok, err,
}
use toolhive_core.Base.Int.{ℤ, pos, negsuc}
use toolhive_core.Base.Decimal.{atoi, format_nat}

abbrev pub min_port : ℕ
min_port = 10000

abbrev pub max_port : ℕ
max_port = 65535

abbrev pub max_attempts : ℕ
max_attempts = 10

-- What the code asks of the operating system, each time in the world that the last call left:
-- whether a listener on 127.0.0.1 opens, closing one, and a random number below a bound, with
-- `none` for an error. The last field is what `crypto/rand` documents.
pub record Os : Type 1 where
  pub World : Type 0
  pub listen_tcp : ℕ → World → Bool × World
  pub close_tcp : ℕ → World → World
  pub listen_udp : ℕ → World → Bool × World
  pub close_udp : ℕ → World → World
  pub random : ℕ → World → Option ℕ × World
  pub random_lt : (n : ℕ) (w : World) {r : ℕ} → (random n w).0 ≡ some r → r < n

-- A connection of the process table, as far as it is read.
pub record Connection : Type 0 where
  pub local_port : ℕ
  pub status : String
  pub pid : ℤ

pub data PortError : Type 0 where
  invalid_port not_available no_alternative no_port bad_spec bad_host bad_container table_error :
      PortError

module _ (os : Os) where
  pub try_listen_tcp : ℕ → os.World → Bool × os.World
  try_listen_tcp port w = os.listen_tcp port w

  -- The errors of the two closes are logged and passed over.
  unfoldable pub is_available : ℕ → os.World → Bool × os.World
  unfolding try_listen_tcp
  is_available port w =
      let (tcp, w1) = try_listen_tcp port w in
      if not tcp
      then (false, w1)
      else (let (udp, w2) = os.listen_udp port (os.close_tcp port w1) in
          if not udp then (false, w2) else (true, os.close_udp port w2))

  abbrev pub Probe : Type 0
  Probe = ℕ → os.World → Bool × os.World

  -- The attempts at random ports; an error of the generator ends them.
  unfoldable pub try_random : Probe → ℕ → os.World → Option ℕ × os.World
  try_random probe zero w = (none, w)
  try_random probe (suc attempts) w =
      let (n, w1) = os.random (max_port - min_port) w in
      elim n [
        | none ↦ (none, w1)
        | some r ↦
            let (free, w2) = probe (r + min_port) w1 in
            elim free [ true ↦ (some (r + min_port), w2) | false ↦ try_random probe attempts w2 ]
      ]

  -- The ports one after another, so many from `port` on.
  unfoldable pub try_sequential : Probe → ℕ → ℕ → os.World → Option ℕ × os.World
  try_sequential probe zero port w = (none, w)
  try_sequential probe (suc count) port w =
      let (free, w1) = probe port w in
      elim free [ true ↦ (some port, w1) | false ↦ try_sequential probe count (port + 1) w1 ]

  -- After the random attempts.
  or_sequential : Probe → Option ℕ × os.World → Option ℕ × os.World
  or_sequential probe (some port, w) = (some port, w)
  or_sequential probe (none, w) = try_sequential probe (max_port - min_port + 1) min_port w

  unfoldable pub find_with : Probe → os.World → Option ℕ × os.World
  unfolding or_sequential
  find_with probe w = or_sequential probe (try_random probe max_attempts w)

  -- `FindAvailable`, which returns 0 for `none` here; no port that it finds is 0.
  unfoldable pub find_available : os.World → Option ℕ × os.World
  find_available w = find_with is_available w

  -- `FindAvailableListener`: the port of the listener that is left open.
  unfoldable pub find_available_listener : os.World → Option ℕ × os.World
  find_available_listener w = find_with try_listen_tcp w

  -- `port != 0 && (port < 1 || port > 65535)`, else the port.
  unfoldable pub in_range : ℤ → Option ℕ
  in_range (negsuc n) = none
  in_range (pos n) = if ltb max_port n then none else some n

  or_error : PortError → Option ℕ × os.World → Except PortError ℕ × os.World
  or_error e (none, w) = (err e, w)
  or_error e (some port, w) = (ok port, w)

  -- The body of `FindOrUsePort` and `FindOrUseListener` on a port in range.
  use_or_find : Probe → ℕ → os.World → Except PortError ℕ × os.World
  unfolding or_error
  use_or_find probe zero w = or_error no_port (find_with probe w)
  use_or_find probe (suc n) w =
      let (free, w1) = probe (suc n) w in
      if free then (ok (suc n), w1) else or_error no_alternative (find_with probe w1)

  use_in_range : Probe → Option ℕ → os.World → Except PortError ℕ × os.World
  use_in_range probe none w = (err invalid_port, w)
  use_in_range probe (some port) w = use_or_find probe port w

  unfoldable pub find_or_use_port : ℤ → os.World → Except PortError ℕ × os.World
  unfolding use_or_find use_in_range
  find_or_use_port port w = use_in_range is_available (in_range port) w

  unfoldable pub find_or_use_listener : ℤ → os.World → Except PortError ℕ × os.World
  unfolding use_or_find use_in_range
  find_or_use_listener port w = use_in_range try_listen_tcp (in_range port) w

  abbrev pub is_pre_registered_client : Bytes → Bool
  is_pre_registered_client client_id = not (bytes_eq client_id [])

  -- On a port that is not 0 and in the range of the callback ports.
  check_callback : ℕ → Bytes → os.World → Option PortError × os.World
  check_callback port client_id w =
      if is_pre_registered_client client_id
      then (let (free, w1) = is_available port w in
          (if not free then some not_available else none, w1))
      else (none, w)

  unfoldable pub validate_callback_port : ℤ → Bytes → os.World → Option PortError × os.World
  unfolding check_callback
  validate_callback_port (negsuc n) client_id w = (some invalid_port, w)
  validate_callback_port (pos zero) client_id w = (none, w)
  validate_callback_port (pos (suc n)) client_id w =
      if ltb (suc n) 1024 || ltb max_port (suc n)
      then (some invalid_port, w)
      else check_callback (suc n) client_id w

-- `port < low || port > 65535` refused, on a parsed integer.
unfoldable pub port_from : ℕ → ℤ → Option ℕ
port_from low (negsuc n) = none
port_from low (pos n) = if ltb n low || ltb max_port n then none else some n
