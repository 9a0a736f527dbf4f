-- ===== src/Ports/Parse.antt =====
-- `ParsePortSpec` and `GetProcessOnPort` (networking/port.go).
pub mod Sound
use toolhive_core.Base.{
  ℕ, zero, suc, Bool, true, false, not, ◌&&◌, List, [], ◌∷◌, Option, none, some, String, str_eq,
  ltb, ◌==◌, if◌then◌else◌, Bytes, has_byte, split_at, Except, ok, err,
}
use toolhive_core.Base.Int.{ℤ, pos, negsuc}
use toolhive_core.Base.Decimal.{atoi, format_nat}
use toolhive_core.Ports.{
  Os, Connection, PortError, invalid_port, no_port, bad_spec, bad_host, bad_container, table_error,
  port_from, max_port, find_available,
}

-- The integer that a text is, refused below a bound or above 65535.
abbrev pub port_of : ℕ → Bytes → Option ℕ
port_of low s = elim (atoi s) [ none ↦ none | some n ↦ port_from low n ]

container_part : Bytes → Option ℕ → Except PortError (Bytes × ℕ)
container_part host none = err bad_container
container_part host (some c) = ok (host, c)

-- The host's text is returned as it stands, once it has been checked.
host_part : Bytes → Bytes → Option ℕ → Except PortError (Bytes × ℕ)
unfolding container_part
host_part host container none = err bad_host
host_part host container (some h) = container_part host (port_of 1 container)

-- On the parts between the colons.
of_parts : List Bytes → Except PortError (Bytes × ℕ)
unfolding host_part
of_parts (host ∷ container ∷ []) = host_part host container (port_of 0 host)
of_parts _ = err bad_spec

module _ (os : Os) where
  with_host : ℕ → Option ℕ × os.World → Except PortError (Bytes × ℕ) × os.World
  with_host container (none, w) = (err no_port, w)
  with_host container (some port, w) = (ok (format_nat port, container), w)

  in_container_range : Option ℕ → os.World → Except PortError (Bytes × ℕ) × os.World
  unfolding with_host
  in_container_range none w = (err bad_container, w)
  in_container_range (some c) w = with_host c (find_available os w)

  of_container : Option ℤ → os.World → Except PortError (Bytes × ℕ) × os.World
  unfolding in_container_range
  of_container none w = (err bad_spec, w)
  of_container (some n) w = in_container_range (port_from 1 n) w

  unfoldable pub parse_port_spec : Bytes → os.World → Except PortError (Bytes × ℕ) × os.World
  unfolding of_parts of_container
  parse_port_spec spec w =
      if has_byte b':' spec then (of_parts (split_at b':' spec), w) else of_container (atoi spec) w

-- The first listener with a process.
abbrev pub is_holder : ℕ → Connection → Bool
is_holder port c =
    c.local_port == port
    && str_eq c.status "LISTEN"
    && elim c.pid [ pos n ↦ ltb 0 n | negsuc n ↦ false ]

unfoldable pub holder_of : ℕ → List Connection → ℤ
holder_of port [] = pos 0
holder_of port (c ∷ conns) =
    let later = holder_of port conns in if is_holder port c then c.pid else later

-- On what the table of connections answers, with `none` for an error.
process_in : Option ℕ → Option (List Connection) → Except PortError ℤ
process_in none conns = err invalid_port
process_in (some port) none = err table_error
process_in (some port) (some conns) = ok (holder_of port conns)

unfoldable pub get_process_on_port : ℤ → Option (List Connection) → Except PortError ℤ
unfolding process_in
get_process_on_port port conns = process_in (port_from 1 port) conns
