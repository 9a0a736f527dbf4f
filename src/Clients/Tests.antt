-- ===== src/Clients/Tests.antt =====
-- Runs of clients with a small library.
use toolhive_core.Base.{
  ◌≡◌, refl, true, false, List, [], ◌∷◌, Option, none, some, String, if◌then◌else◌, Bytes, bytes_eq,
  codes, cut_at, trim_space, ok,
}
use toolhive_core.Addresses.{is_private_ip, is_special, embedded_ipv4, private_within, ipv4}
use toolhive_core.Hosts.{
  Url, Library, private_ip, must_use_https, Reader, is_loopback_host, address_references_private_ip,
}
use toolhive_core.Clients.{
  same_host_redirect_policy, HttpClientBuilder, new_http_client_builder,
  new_host_scoped_client_builder_with_reader, HttpClient, built, with_token, build, round_trip,
  protected_dialer_control, dial, follow,
}
use toolhive_core.Clients.Guarded.{
  IsBuiltBy, build-IsBuiltBy, IsHttps, IsPublic, build-new_host_scoped_client_builder_with_reader,
}

abbrev first_part : Option (Bytes × Bytes) → Option Bytes
first_part none = none
first_part (some (a, b)) = some a

abbrev url : String → String → Url
url scheme host = record { scheme = codes scheme; host = codes host }

-- A text of a URL is its scheme here.
abbrev library : Library
library = record {
  parse_url = λ text. some (record { scheme = text; host = codes "api.example.com" });
  split_host_port = λ address. first_part (cut_at b':' address);
  parse_ip = λ host.
      if bytes_eq host (codes "10.0.0.1") then some (ipv4 0x0a000001) else some (ipv4 0x08080808);
  is_loopback = λ ip. false;
  equal_fold = bytes_eq;
  read_certificates = λ path. some 1;
  read_token = λ path. some (codes " secret ");
}

abbrev reader : Reader
reader name = []

abbrev builder : HttpClientBuilder library
builder =
    new_host_scoped_client_builder_with_reader library (codes "api.example.com") false false reader

abbrev client : HttpClient library
client = record {
  timeout = 30000000000;
  guarded = true;
  disable_keep_alives = true;
  root_certificates = none;
  insecure_allow_http = false;
  env_reader = reader;
  token = none;
  checks_redirects = false;
}

built_test : build library builder ≡ ok client
unfolding build with_token built new_host_scoped_client_builder_with_reader new_http_client_builder
    is_loopback_host bytes_eq
built_test = refl

private_test : dial library client (codes "10.0.0.1:80") ≡ some private_ip
unfolding dial protected_dialer_control address_references_private_ip bytes_eq is_private_ip
    private_within embedded_ipv4 is_special
private_test = refl

plain_test : round_trip library client (codes "http") ≡ some must_use_https
unfolding round_trip bytes_eq
plain_test = refl

build-new_host_scoped_client_builder_with_reader_example :
    IsHttps library (codes "https")
    × IsPublic library (codes "8.8.8.8:443")
    × (client.disable_keep_alives ≡ true)
unfolding build with_token built new_host_scoped_client_builder_with_reader new_http_client_builder
    is_loopback_host round_trip dial protected_dialer_control address_references_private_ip bytes_eq
    is_private_ip private_within embedded_ipv4 is_special
build-new_host_scoped_client_builder_with_reader_example =
    build-new_host_scoped_client_builder_with_reader library (codes "api.example.com") reader client
      (codes "https") (codes "8.8.8.8:443") refl refl refl refl refl

abbrev token_builder : HttpClientBuilder library
token_builder = record builder { auth_token_file = "token" }

abbrev token_client : HttpClient library
token_client = record client { token = some (codes "secret"); checks_redirects = true }

build-IsBuiltBy_example : IsBuiltBy library token_builder token_client
unfolding build with_token built new_host_scoped_client_builder_with_reader new_http_client_builder
    is_loopback_host bytes_eq trim_space
build-IsBuiltBy_example = build-IsBuiltBy library token_builder token_client refl

abbrev targets : List Url
targets =
    url "https" "api.example.com"
    ∷ url "https" "other.example.com"
    ∷ url "https" "api.example.com"
    ∷ []

followed_test :
    follow library (url "https" "api.example.com") [] targets ≡ url "https" "api.example.com" ∷ []
unfolding follow same_host_redirect_policy bytes_eq
followed_test = refl
