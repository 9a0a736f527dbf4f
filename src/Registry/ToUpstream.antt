-- ===== src/Registry/ToUpstream.antt =====
-- From a registry's entry to the upstream format (registry/converters/toolhive_to_upstream.go, utils.go).
use toolhive_core.Base.{
  zero, suc, Bool, not, ◌||◌, List, [], ◌∷◌, ◌++◌, map, Option, none, some, if◌then◌else◌, Bytes,
  bytes_eq, codes, has_byte, split_at, Except, ok, err,
}
use toolhive_core.Base.Int.{ℤ, pos, negsuc}
use toolhive_core.Registry.Types.{
  EnvVar, Header, BaseServerMetadata, ImageMetadata, RemoteServerMetadata, ServerExtensions,
  tool_hive_publisher_namespace,
}
use toolhive_core.Registry.Upstream.{
  KeyValueInput, Transport, Package, Repository, Provided, extensions, ServerJson, Codec,
  registry_type_oci, transport_type_stdio, transport_type_sse, transport_type_streamable_http,
  localhost_url, localhost_port_url,
}

abbrev pub default_version : Bytes
default_version = codes "1.0.0"

abbrev pub repo_source_git_hub : Bytes
repo_source_git_hub = codes "github"

abbrev pub default_status : Bytes
default_status = codes "active"

pub data ToError : Type 0 where
  nil_metadata empty_name : ToError

unfoldable pub build_reverse_dns_name : Bytes → Bytes
build_reverse_dns_name name =
    if has_byte b'/' name then name else codes "io.github.stacklok/" ++ name

second_of : Bytes → List Bytes → Bytes
second_of name (a ∷ b ∷ []) = b
second_of name _ = name

unfoldable pub extract_server_name : Bytes → Bytes
unfolding second_of
extract_server_name name = second_of name (split_at b'/' name)

-- `if s == "" { s = d }`.
abbrev pub or_text : Bytes → Bytes → Bytes
or_text s d = if bytes_eq s [] then d else s

-- The name of the entry, or the one built from the parameter.
abbrev pub canonical_name : Bytes → Bytes → Bytes
canonical_name given name = if bytes_eq given [] then build_reverse_dns_name name else given

abbrev pub repository_of : Bytes → Option Repository
repository_of url =
    if not (bytes_eq url [])
    then some (record { url = url; source = repo_source_git_hub })
    else none

abbrev pub env_var_input : EnvVar → KeyValueInput
env_var_input e = record {
  name = e.name;
  input = record {
    description = e.description;
    is_required = e.required;
    is_secret = e.secret;
    default = e.default;
    choices = [];
  };
}

abbrev pub header_input : Header → KeyValueInput
header_input h = record {
  name = h.name;
  input = record {
    description = h.description;
    is_required = h.required;
    is_secret = h.secret;
    default = h.default;
    choices = h.choices;
  };
}

abbrev pub has_url : Bytes → Bool
has_url transport =
    bytes_eq transport transport_type_streamable_http || bytes_eq transport transport_type_sse

-- `TargetPort > 0` in the URL.
abbrev pub port_url : ℤ → Bytes
port_url (pos (suc n)) = localhost_port_url (suc n)
port_url (pos zero) = localhost_url
port_url (negsuc n) = localhost_url

module _ {Value : Type 0} where
  unfoldable pub create_packages_from_image_metadata : ImageMetadata Value → List Package
  create_packages_from_image_metadata m =
      let transport = or_text m.base.transport transport_type_stdio in
      record {
        registry_type = registry_type_oci;
        identifier = m.image;
        transport = record {
          transport_type = transport;
          url = if has_url transport then port_url m.target_port else [];
          headers = [];
        };
        runtime_arguments = [];
        package_arguments = [];
        environment_variables = map env_var_input m.env_vars;
      }
      ∷ []

  unfoldable pub create_remotes_from_remote_metadata : RemoteServerMetadata Value → List Transport
  create_remotes_from_remote_metadata m =
      record {
        transport_type = m.base.transport;
        url = m.url;
        headers = map header_input m.headers;
      }
      ∷ []

  -- The extensions of an image, and those of a remote server, before the default of the status.
  abbrev pub image_extensions : ImageMetadata Value → ServerExtensions Value
  image_extensions m = record {
    status = m.base.status;
    tier = m.base.tier;
    tools = m.base.tools;
    tags = m.base.tags;
    overview = m.base.overview;
    metadata = m.base.metadata;
    custom_metadata = m.base.custom_metadata;
    permissions = m.permissions;
    args = m.args;
    provenance = m.provenance;
    docker_tags = m.docker_tags;
    proxy_port = m.proxy_port;
    stateless = m.base.stateless;
    oauth_config = none;
    env_vars = [];
    tool_definitions = m.base.tool_definitions;
  }

  abbrev pub remote_extensions : RemoteServerMetadata Value → ServerExtensions Value
  remote_extensions m = record {
    status = m.base.status;
    tier = m.base.tier;
    tools = m.base.tools;
    tags = m.base.tags;
    overview = m.base.overview;
    metadata = m.base.metadata;
    custom_metadata = m.base.custom_metadata;
    permissions = none;
    args = [];
    provenance = none;
    docker_tags = [];
    proxy_port = m.proxy_port;
    stateless = m.base.stateless;
    oauth_config = m.oauth_config;
    env_vars = m.env_vars;
    tool_definitions = m.base.tool_definitions;
  }

  abbrev pub with_status : ServerExtensions Value → ServerExtensions Value
  with_status ext = record ext { status = or_text ext.status default_status }

module _ {Value : Type 0} (codec : Codec Value) where
  unfoldable pub or_status_map : Bytes → Option codec.Document → codec.Document
  or_status_map status none = codec.status_map status
  or_status_map status (some doc) = doc

  unfoldable pub server_extensions_to_map : ServerExtensions Value → codec.Document
  unfolding or_status_map
  server_extensions_to_map ext = or_status_map ext.status (codec.to_map ext)

  unfoldable pub build_publisher_extensions_map :
      ServerExtensions Value → Bytes → List (Bytes × Provided codec.Document)
  build_publisher_extensions_map ext inner_key =
      (
        tool_hive_publisher_namespace,
        extensions ((inner_key, some (server_extensions_to_map (with_status ext))) ∷ []),
      )
      ∷ []

  -- The fields that both conversions set.
  unfoldable pub server_json :
      Bytes
      → BaseServerMetadata Value
      → List Package
      → List Transport
      → List (Bytes × Provided codec.Document)
      → ServerJson codec.Document
  server_json name base packages remotes provided = record {
    schema = codec.schema_url;
    name = canonical_name base.name name;
    title = base.title;
    description = base.description;
    version = default_version;
    repository = repository_of base.repository_url;
    packages = packages;
    remotes = remotes;
    publisher_provided = some provided;
  }

  unfoldable pub image_metadata_to_server_json :
      Bytes → Option (ImageMetadata Value) → Except ToError (ServerJson codec.Document)
  unfolding server_json
  image_metadata_to_server_json name none = err nil_metadata
  image_metadata_to_server_json name (some m) =
      if bytes_eq name []
      then err empty_name
      else ok (
          server_json name m.base (create_packages_from_image_metadata m) []
            (build_publisher_extensions_map (image_extensions m) m.image))

  unfoldable pub remote_server_metadata_to_server_json :
      Bytes → Option (RemoteServerMetadata Value) → Except ToError (ServerJson codec.Document)
  unfolding server_json
  remote_server_metadata_to_server_json name none = err nil_metadata
  remote_server_metadata_to_server_json name (some m) =
      if bytes_eq name []
      then err empty_name
      else ok (
          server_json name m.base [] (create_remotes_from_remote_metadata m)
            (build_publisher_extensions_map (remote_extensions m) m.url))
