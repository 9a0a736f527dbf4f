-- ===== src/Redis.antt =====
-- The configuration of a Redis client (redis/config.go): its tests, its defaults, and the kind of
-- client that is built for it (redis/client.go). Durations are nanoseconds.
pub mod Topology
mod Tests
use toolhive_core.Base.{
  ℕ, ◌*◌, ◌^◌, ◌≡◌, Bool, true, false, not, ◌&&◌, ◌||◌, List, [], ◌∷◌, Option, none, some, String,
  str_eq, if◌then◌else◌, ◌==◌, length, Bytes,
}
use toolhive_core.Base.Int.{ℤ, pos, negsuc}

abbrev second : ℕ
second = 1000 * 1000 * 1000

abbrev pub default_dial_timeout : ℕ
default_dial_timeout = 5 * second

abbrev pub default_read_timeout : ℕ
default_read_timeout = 3 * second

abbrev pub default_write_timeout : ℕ
default_write_timeout = 3 * second

pub record SentinelConfig : Type 0 where
  pub master_name : String
  pub sentinel_addrs : List String

pub record TlsConfig : Type 0 where
  pub insecure_skip_verify : Bool
  pub ca_cert : Bytes
  pub client_cert : Bytes
  pub client_key : Bytes

pub record Config : Type 0 where
  pub addr : String
  pub cluster_mode : Bool
  pub sentinel_config : Option SentinelConfig
  pub username : String
  pub password : String
  pub db : ℤ
  pub dial_timeout : ℤ
  pub read_timeout : ℤ
  pub write_timeout : ℤ
  pub tls : Option TlsConfig
  pub sentinel_tls : Option TlsConfig

pub data ConfigError : Type 0 where
  config_nil cluster_with_sentinel addr_with_sentinel no_address cluster_without_addr : ConfigError
  no_master_name no_sentinel_address bad_tls bad_sentinel_tls : ConfigError

abbrev pub is_empty {ℓ} : {A : Type ℓ} → List A → Bool
is_empty [] = true
is_empty (a ∷ s) = false

-- Whether two Booleans differ.
abbrev pub differ : Bool → Bool → Bool
differ true b = not b
differ false b = b

-- `validateTLSConfig`: whether a certificate comes without a key, or a key without a certificate.
unfoldable pub validate_tls_config : Option TlsConfig → Bool
validate_tls_config none = true
validate_tls_config (some cfg) = not (differ (is_empty cfg.client_cert) (is_empty cfg.client_key))

abbrev pub is_set {ℓ} : {A : Type ℓ} → Option A → Bool
is_set none = false
is_set (some a) = true

-- The tests of the sentinels, if there are any, and then those of both TLS configurations.
check_tls : Config → Option ConfigError
check_tls c =
    if not (validate_tls_config c.tls)
    then some bad_tls
    else if not (validate_tls_config c.sentinel_tls)
    then some bad_sentinel_tls
    else none

check_sentinel : Config → Option SentinelConfig → Option ConfigError
unfolding check_tls
check_sentinel c none = check_tls c
check_sentinel c (some s) =
    if str_eq s.master_name ""
    then some no_master_name
    else if is_empty s.sentinel_addrs
    then some no_sentinel_address
    else check_tls c

check_config : Config → Option ConfigError
unfolding check_sentinel
check_config c =
    if c.cluster_mode && is_set c.sentinel_config
    then some cluster_with_sentinel
    else if not (str_eq c.addr "") && is_set c.sentinel_config
    then some addr_with_sentinel
    else if str_eq c.addr "" && not (is_set c.sentinel_config)
    then some no_address
    else if c.cluster_mode && str_eq c.addr ""
    then some cluster_without_addr
    else check_sentinel c c.sentinel_config

-- The error, `none` for a valid configuration; the first argument is none for a nil pointer.
unfoldable pub validate_config : Option Config → Option ConfigError
unfolding check_config
validate_config none = some config_nil
validate_config (some c) = check_config c

-- A timeout of zero is replaced.
abbrev pub or_default : ℕ → ℤ → ℤ
or_default d (negsuc n) = negsuc n
or_default d (pos n) = if n == 0 then pos d else pos n

unfoldable pub apply_defaults : Config → Config
apply_defaults c = record c {
  dial_timeout = or_default default_dial_timeout c.dial_timeout;
  read_timeout = or_default default_read_timeout c.read_timeout;
  write_timeout = or_default default_write_timeout c.write_timeout;
}

pub data ClientKind : Type 0 where
  sentinel cluster standalone : ClientKind

-- The branches of `buildClient`.
unfoldable pub client_kind : Config → ClientKind
client_kind c =
    if is_set c.sentinel_config then sentinel else if c.cluster_mode then cluster else standalone
