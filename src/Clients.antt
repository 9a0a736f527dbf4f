-- ===== src/Clients.antt =====
-- Clients over HTTP (networking/http_client.go).
-- Files and certificates are read outside.
pub mod Guarded
pub mod Redirects
mod Tests
use toolhive_core.Base.{
  ℕ, ◌-◌, ◌+◌, ◌≡◌, Bool, true, false, not, ◌&&◌, ◌||◌, List, [], ◌∷◌, ◌++◌, Option, none, some,
  String, str_eq, if◌then◌else◌, Bytes, bytes_eq, codes, trim_space, length, take, drop, ltb, leb,
  Except, ok, err,
}
use toolhive_core.Hosts.{
  Url, Library, https_scheme, http_scheme, max_redirects, http_timeout, Refusal, Reader, no_port,
  not_an_ip, private_ip, invalid_url, no_host, must_use_https, not_loopback, too_many_redirects,
  cross_host, downgrade, no_certificates, no_token, unbracketed, bare_host, loopback_ip,
  is_loopback_host, is_localhost, address_references_private_ip, validation_disabled,
  validate_endpoint_url_with_skip, validate_endpoint_url_with_reader,
  validate_endpoint_url_with_insecure_and_reader, validate_https_url, validate_issuer_url,
  validate_loopback_address, is_url,
}

module _ (lib : Library) where
  -- The policy on a request and those before it, the first one of which is the original.
  unfoldable pub same_host_redirect_policy : Url → Url → List Url → Option Refusal
  same_host_redirect_policy req original later =
      if leb max_redirects (length later + 1)
      then some too_many_redirects
      else if not (lib.equal_fold req.host original.host)
      then some cross_host
      else if bytes_eq original.scheme https_scheme && not (bytes_eq req.scheme https_scheme)
      then some downgrade
      else none

  -- `ca_cert_path` and `auth_token_file` are empty where they are not set.
  pub record HttpClientBuilder : Type 0 where
    pub client_timeout : ℕ
    pub ca_cert_path : String
    pub auth_token_file : String
    pub allow_private : Bool
    pub insecure_allow_http : Bool
    pub env_reader : Reader

  unfoldable pub new_http_client_builder : Reader → HttpClientBuilder
  new_http_client_builder os = record {
    client_timeout = http_timeout;
    ca_cert_path = "";
    auth_token_file = "";
    allow_private = false;
    insecure_allow_http = false;
    env_reader = os;
  }

  unfoldable pub new_host_scoped_client_builder_with_reader :
      Bytes → Bool → Bool → Reader → HttpClientBuilder
  new_host_scoped_client_builder_with_reader host allow_private_ips insecure reader =
      let allow_insecure = is_localhost lib host || insecure || validation_disabled lib reader in
      record (new_http_client_builder reader) {
        insecure_allow_http = allow_insecure;
        allow_private = allow_insecure || allow_private_ips;
      }

  -- A client: whether its dialer has the guard, whether it keeps connections alive, its roots, the token
  -- that it adds to each request, and whether it has the redirect policy.
  pub record HttpClient : Type 0 where
    pub timeout : ℕ
    pub guarded : Bool
    pub disable_keep_alives : Bool
    pub root_certificates : Option ℕ
    pub insecure_allow_http : Bool
    pub env_reader : Reader
    pub token : Option Bytes
    pub checks_redirects : Bool

  unfoldable pub built : HttpClientBuilder → Option ℕ → Option Bytes → HttpClient
  built b roots token = record {
    timeout = b.client_timeout;
    guarded = not b.allow_private;
    disable_keep_alives = not b.allow_private;
    root_certificates = roots;
    insecure_allow_http = b.insecure_allow_http;
    env_reader = b.env_reader;
    token = token;
    checks_redirects = not (str_eq b.auth_token_file "");
  }

  unfoldable pub with_token : HttpClientBuilder → Option ℕ → Except Refusal HttpClient
  with_token b roots =
      if str_eq b.auth_token_file ""
      then ok (built b roots none)
      else elim (lib.read_token b.auth_token_file) [
        | none ↦ err no_token
        | some text ↦
            let token = trim_space text in
            if bytes_eq token [] then err no_token else ok (built b roots (some token))
      ]

  unfoldable pub build : HttpClientBuilder → Except Refusal HttpClient
  build b =
      if str_eq b.ca_cert_path ""
      then with_token b none
      else elim (lib.read_certificates b.ca_cert_path) [
        | none ↦ err no_certificates
        | some roots ↦ with_token b (some roots)
      ]

  -- The refusal of a request before it is sent, with the text of its URL.
  unfoldable pub round_trip : HttpClient → Bytes → Option Refusal
  round_trip c text =
      if validation_disabled lib c.env_reader || c.insecure_allow_http
      then none
      else elim (lib.parse_url text) [
        | none ↦ some invalid_url
        | some u ↦ if not (bytes_eq u.scheme https_scheme) then some must_use_https else none
      ]

  unfoldable pub protected_dialer_control : Bytes → Option Refusal
  protected_dialer_control address = address_references_private_ip lib address

  -- The refusal of an address that is dialed.
  unfoldable pub dial : HttpClient → Bytes → Option Refusal
  dial c address = if c.guarded then protected_dialer_control address else none

  -- The requests of one fetch that the policy lets follow: the targets are those of the redirects, as the
  -- servers choose them, and the requests so far are the original and the later ones.
  unfoldable pub follow : Url → List Url → List Url → List Url
  follow original later [] = later
  follow original later (target ∷ targets) =
      elim (same_host_redirect_policy target original later) [
        | some refusal ↦ later
        | none ↦ follow original (later ++ target ∷ []) targets
      ]
