-- ===== src/Hosts.antt =====
-- The tests of hosts and URLs (networking/utilities.go). Parsing of URLs, of addresses and the
-- comparison of texts regardless of case are of Go's library, and the variables of the environment are
-- read outside.
use toolhive_core.Base.{
  ℕ, ◌-◌, Bool, false, not, ◌&&◌, ◌||◌, [], Option, none, some, String, if◌then◌else◌, Bytes,
  bytes_eq, codes, length, take, drop, ltb,
}
use toolhive_core.Addresses.{is_private_ip}

pub record Url : Type 0 where
  pub scheme : Bytes
  pub host : Bytes

-- `url.Parse`, the host that `net.SplitHostPort` gives, `net.ParseIP`, `IsLoopback` and
-- `strings.EqualFold`, with `none` for an error; the certificates in a file and the token in one, with
-- none for a file that cannot be read or has nothing that serves.
pub record Library : Type 0 where
  pub parse_url : Bytes → Option Url
  pub split_host_port : Bytes → Option Bytes
  pub parse_ip : Bytes → Option ℕ
  pub is_loopback : ℕ → Bool
  pub equal_fold : Bytes → Bytes → Bool
  pub read_certificates : String → Option ℕ
  pub read_token : String → Option Bytes

abbrev pub https_scheme : Bytes
https_scheme = codes "https"

abbrev pub http_scheme : Bytes
http_scheme = codes "http"

abbrev pub max_redirects : ℕ
max_redirects = 10

abbrev pub http_timeout : ℕ
http_timeout = 30000000000

-- Why a connection, a URL, a redirect or a client is refused.
pub data Refusal : Type 0 where
  no_port not_an_ip private_ip invalid_url no_host must_use_https not_loopback : Refusal
  too_many_redirects cross_host downgrade : Refusal
  no_certificates no_token : Refusal

-- A variable of the environment, by its name.
abbrev pub Reader : Type 0
Reader = String → Bytes

module _ (lib : Library) where
  -- Without brackets around it.
  abbrev pub unbracketed : Bytes → Bytes
  unbracketed h =
      if ltb 2 (length h)
        && bytes_eq (take 1 h) (codes "[")
        && bytes_eq (drop (length h - 1) h) (codes "]")
      then take (length h - 2) (drop 1 h)
      else h

  abbrev pub bare_host : Bytes → Bytes
  bare_host host = elim (lib.split_host_port host) [ none ↦ unbracketed host | some h ↦ h ]

  abbrev pub loopback_ip : Option ℕ → Bool
  loopback_ip none = false
  loopback_ip (some ip) = lib.is_loopback ip

  unfoldable pub is_loopback_host : Bytes → Bool
  is_loopback_host host =
      let h = bare_host host in lib.equal_fold h (codes "localhost") || loopback_ip (lib.parse_ip h)

  abbrev pub is_localhost : Bytes → Bool
  is_localhost host = is_loopback_host host

  -- The error of an address, if it has one.
  unfoldable pub address_references_private_ip : Bytes → Option Refusal
  address_references_private_ip address = elim (lib.split_host_port address) [
    | none ↦ some no_port
    | some host ↦ elim (lib.parse_ip host) [
      | none ↦ some not_an_ip
      | some ip ↦ if is_private_ip ip then some private_ip else none
    ]
  ]

  -- `INSECURE_DISABLE_URL_VALIDATION`.
  abbrev pub validation_disabled : Reader → Bool
  validation_disabled reader =
      lib.equal_fold (reader "INSECURE_DISABLE_URL_VALIDATION") (codes "true")

  unfoldable pub validate_endpoint_url_with_skip : Bytes → Bool → Option Refusal
  validate_endpoint_url_with_skip endpoint skip =
      if skip then none else elim (lib.parse_url endpoint) [
        | none ↦ some invalid_url
        | some u ↦
            if not (bytes_eq u.scheme https_scheme) && not (is_localhost u.host)
            then some must_use_https
            else none
      ]

  unfoldable pub validate_endpoint_url_with_reader : Bytes → Reader → Option Refusal
  validate_endpoint_url_with_reader endpoint reader =
      validate_endpoint_url_with_skip endpoint (validation_disabled reader)

  unfoldable pub validate_endpoint_url_with_insecure_and_reader :
      Bytes → Bool → Reader → Option Refusal
  validate_endpoint_url_with_insecure_and_reader endpoint insecure_allow_http reader =
      validate_endpoint_url_with_skip endpoint (validation_disabled reader || insecure_allow_http)

  unfoldable pub validate_https_url : Bytes → Option Refusal
  validate_https_url raw = elim (lib.parse_url raw) [
    | none ↦ some invalid_url
    | some u ↦
        if bytes_eq u.host []
        then some no_host
        else if not (bytes_eq u.scheme https_scheme)
        then some must_use_https
        else none
  ]

  unfoldable pub validate_issuer_url : Bytes → Option Refusal
  validate_issuer_url raw = elim (lib.parse_url raw) [
    | none ↦ some invalid_url
    | some u ↦
        if bytes_eq u.host []
        then some no_host
        else if not (bytes_eq u.scheme https_scheme) && not (is_localhost u.host)
        then some must_use_https
        else none
  ]

  unfoldable pub validate_loopback_address : Bytes → Option Refusal
  validate_loopback_address addr = elim (lib.split_host_port addr) [
    | none ↦ some no_port
    | some host ↦ if loopback_ip (lib.parse_ip host) then none else some not_loopback
  ]

  unfoldable pub is_url : Bytes → Bool
  is_url input = elim (lib.parse_url input) [
    | none ↦ false
    | some u ↦
        (bytes_eq u.scheme http_scheme || bytes_eq u.scheme https_scheme)
        && not (bytes_eq u.host [])
        && not (bytes_eq u.host (codes "//"))
  ]
