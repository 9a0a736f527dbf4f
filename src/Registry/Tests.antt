-- ===== src/Registry/Tests.antt =====
-- An image that listens on a port, and a codec that loses the metadata of what it marshals.
use toolhive_core.Base.{
  ℕ, ◌≡◌, ◌≢◌, refl, true, false, [], ◌∷◌, Option, none, some, Bytes, codes, drop, ok, bytes_eq,
  split_at, arith,
}
use toolhive_core.Base.Int.{pos}
use toolhive_core.Registry.Types.{
  EnvVar, BaseServerMetadata, ImageMetadata, RemoteServerMetadata, ServerExtensions,
}
use toolhive_core.Registry.Upstream.{Codec, Argument, named, ServerJson}
use toolhive_core.Registry.ToUpstream.{
  build_reverse_dns_name, extract_server_name, image_metadata_to_server_json,
  remote_server_metadata_to_server_json,
}
use toolhive_core.Registry.EnvVars.{
  find_variable, parse_env_var_from_value, extract_env_from_runtime_args,
}
use toolhive_core.Registry.FromUpstream.{
  server_json_to_image_metadata, server_json_to_remote_server_metadata,
}
use toolhive_core.Registry.RoundTrip.{
  IsStored, image_document, remote_document, restored_image, restored_remote, image_round_trip,
  remote_round_trip,
}

abbrev after_colon : Bytes → Option Bytes
after_colon [] = some []
after_colon (c ∷ rest) = some rest

abbrev codec : Codec ℕ
codec = record {
  Document = ServerExtensions ℕ;
  schema_url = codes "schema";
  to_map = λ ext. some ext;
  status_map = λ status. record {
    status = status;
    tier = [];
    tools = [];
    tags = [];
    overview = [];
    metadata = none;
    custom_metadata = none;
    permissions = none;
    args = [];
    provenance = none;
    docker_tags = [];
    proxy_port = pos 0;
    stateless = false;
    oauth_config = none;
    env_vars = [];
    tool_definitions = none;
  };
  of_map = λ doc. some (record doc { metadata = none });
  url_port = λ url. after_colon (drop 16 url);
  port_of_localhost = refl;
  port_of_localhost_port = λ n. refl;
}

abbrev fetch_base : BaseServerMetadata ℕ
fetch_base = record {
  name = [];
  title = codes "Fetch";
  description = codes "Fetches";
  tier = codes "Community";
  status = [];
  transport = codes "sse";
  stateless = false;
  tools = codes "fetch" ∷ [];
  metadata = some 3;
  repository_url = codes "https://x";
  tags = [];
  overview = [];
  tool_definitions = none;
  custom_metadata = some 4;
}

abbrev token : EnvVar
token = record {
  name = codes "TOKEN";
  description = [];
  required = true;
  default = [];
  secret = true;
}

abbrev fetch : ImageMetadata ℕ
fetch = record {
  base = fetch_base;
  image = codes "ghcr.io/x/fetch:1";
  target_port = pos 8080;
  proxy_port = pos 9;
  permissions = some 5;
  env_vars = token ∷ [];
  args = codes "-v" ∷ [];
  docker_tags = [];
  provenance = none;
}

abbrev remote : RemoteServerMetadata ℕ
remote = record {
  base = fetch_base;
  url = codes "https://r";
  proxy_port = pos 0;
  headers = [];
  oauth_config = some 6;
  env_vars = token ∷ [];
}

name_test : build_reverse_dns_name (codes "fetch") ≡ codes "io.github.stacklok/fetch"
unfolding build_reverse_dns_name
name_test = refl

server_name_test : extract_server_name (codes "io.github.stacklok/fetch") ≡ codes "fetch"
unfolding extract_server_name split_at
server_name_test = refl

-- The variable is required and the argument is not.
abbrev env_argument : Argument
env_argument = record {
  argument_type = named;
  name = codes "-e";
  value = codes "KEY={token}";
  description = [];
  is_required = false;
  variables =
      (
        codes "token",
        record {
          description = [];
          is_required = true;
          is_secret = true;
          default = [];
          choices = [];
        },
      )
      ∷ [];
}

env_test :
    extract_env_from_runtime_args (env_argument ∷ [])
    ≡ record { name = codes "KEY"; description = []; required = false; default = []; secret = true }
      ∷ []
unfolding extract_env_from_runtime_args parse_env_var_from_value find_variable bytes_eq
env_test = refl

nonempty : codes "fetch" ≢ []
nonempty e = cc

image_round_trip_example :
    (s : ServerJson codec.Document) × (image_metadata_to_server_json codec
        (codes "fetch")
        (some fetch)
      ≡ ok s)
    × IsStored codec (codes "ghcr.io/x/fetch:1") (image_document fetch) s
    × (server_json_to_image_metadata codec (some s)
        ≡ ok (
            restored_image
              (codes "fetch")
              fetch
              (record (image_document fetch) { metadata = none })))
image_round_trip_example =
    image_round_trip codec (codes "fetch") fetch (image_document fetch)
      (record (image_document fetch) { metadata = none }) nonempty (omega arith) refl refl

remote_round_trip_example :
    (s : ServerJson codec.Document) × (remote_server_metadata_to_server_json codec
        (codes "fetch")
        (some remote)
      ≡ ok s)
    × IsStored codec (codes "https://r") (remote_document remote) s
    × (server_json_to_remote_server_metadata codec (some s)
        ≡ ok (
            restored_remote
              (codes "fetch")
              remote
              (record (remote_document remote) { metadata = none })))
remote_round_trip_example =
    remote_round_trip codec (codes "fetch") remote (remote_document remote)
      (record (remote_document remote) { metadata = none }) nonempty refl refl
