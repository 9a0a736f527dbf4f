-- ===== src/Registry/FromUpstream.antt =====
-- From the upstream format to a registry's entry (registry/converters/upstream_to_toolhive.go).
use toolhive_core.Base.{
  false, List, [], ◌∷◌, map, Option, none, some, if◌then◌else◌, Bytes, bytes_eq, Except, ok, err,
  ◌>>=◌,
}
use toolhive_core.Base.Int.{ℤ, pos}
use toolhive_core.Base.Decimal.{atoi}
use toolhive_core.Registry.Types.{
  Header, BaseServerMetadata, ImageMetadata, RemoteServerMetadata, ServerExtensions,
  tool_hive_publisher_namespace,
}
use toolhive_core.Registry.Upstream.{
  KeyValueInput, Transport, Package, Repository, Provided, extensions, no_map, ServerJson, Codec,
  registry_type_oci,
}
use toolhive_core.Registry.EnvVars.{extract_environment_variables, flatten_package_arguments}

pub data FromError : Type 0 where
  nil_server no_packages no_oci_package several_oci_packages no_remotes bad_url bad_port : FromError

unfoldable pub oci_packages : List Package → List Package
oci_packages [] = []
oci_packages (p ∷ ps) =
    let rest = oci_packages ps in
    if bytes_eq p.registry_type registry_type_oci then p ∷ rest else rest

unfoldable pub single_package : List Package → Except FromError Package
single_package [] = err no_oci_package
single_package (p ∷ []) = ok p
single_package (p ∷ q ∷ ps) = err several_oci_packages

unfoldable pub extract_single_oci_package : List Package → Except FromError Package
unfolding single_package
extract_single_oci_package [] = err no_packages
extract_single_oci_package (p ∷ ps) = single_package (oci_packages (p ∷ ps))

abbrev pub repository_url_of : Option Repository → Bytes
repository_url_of none = []
repository_url_of (some r) = r.url

abbrev pub converted_header : KeyValueInput → Header
converted_header v = record {
  name = v.name;
  description = v.input.description;
  required = v.input.is_required;
  default = v.input.default;
  secret = v.input.is_secret;
  choices = v.input.choices;
}

-- A port's text.
unfoldable pub port_number : Option ℤ → Except FromError ℤ
port_number none = err bad_port
port_number (some n) = ok n

unfoldable pub port_text : Option Bytes → Except FromError ℤ
unfolding port_number
port_text none = err bad_url
port_text (some port) = if bytes_eq port [] then ok (pos 0) else port_number (atoi port)

-- The first value that is a map.
unfoldable pub first_map {ℓ} : {D : Type ℓ} → List (Bytes × Option D) → Option D
first_map [] = none
first_map ((key, some doc) ∷ rest) = some doc
first_map ((key, none) ∷ rest) = first_map rest

module _ {Value : Type 0} (codec : Codec Value) where
  unfoldable pub extract_target_port : Bytes → Except FromError ℤ
  unfolding port_text
  extract_target_port transport_url =
      if bytes_eq transport_url [] then ok (pos 0) else port_text (codec.url_port transport_url)

  unfoldable pub find_provided :
      Bytes → List (Bytes × Provided codec.Document) → Option (Provided codec.Document)
  find_provided namespace [] = none
  find_provided namespace (p ∷ ps) =
      let rest = find_provided namespace ps in if bytes_eq p.0 namespace then some p.1 else rest

  unfoldable pub map_of : Option (Provided codec.Document) → Option codec.Document
  map_of none = none
  map_of (some no_map) = none
  map_of (some (extensions docs)) = first_map docs

  unfoldable pub get_stacklok_extensions_map : ServerJson codec.Document → Option codec.Document
  unfolding map_of
  get_stacklok_extensions_map s = elim s.publisher_provided [
    | none ↦ none
    | some provided ↦ map_of (find_provided tool_hive_publisher_namespace provided)
  ]

  unfoldable pub get_stacklok_server_extensions :
      ServerJson codec.Document → Option (ServerExtensions Value)
  get_stacklok_server_extensions s = elim (get_stacklok_extensions_map s) [
    | none ↦ none
    | some doc ↦ codec.of_map doc
  ]

  unfoldable pub apply_base_extensions :
      ServerExtensions Value → BaseServerMetadata Value → BaseServerMetadata Value
  apply_base_extensions ext base = record base {
    status = ext.status;
    tier = ext.tier;
    tools = ext.tools;
    tags = ext.tags;
    overview = ext.overview;
    tool_definitions = ext.tool_definitions;
    metadata = ext.metadata;
    custom_metadata = ext.custom_metadata;
    stateless = ext.stateless;
  }

  unfoldable pub extract_image_extensions :
      Option (ServerExtensions Value) → ImageMetadata Value → ImageMetadata Value
  extract_image_extensions none m = m
  extract_image_extensions (some ext) m = record m {
    base = apply_base_extensions ext m.base;
    permissions = ext.permissions;
    provenance = ext.provenance;
    docker_tags = ext.docker_tags;
    proxy_port = ext.proxy_port;
    args = elim m.args [ [] ↦ ext.args | a ∷ rest ↦ a ∷ rest ];
  }

  unfoldable pub extract_remote_extensions :
      Option (ServerExtensions Value) → RemoteServerMetadata Value → RemoteServerMetadata Value
  extract_remote_extensions none m = m
  extract_remote_extensions (some ext) m = record m {
    base = apply_base_extensions ext m.base;
    oauth_config = ext.oauth_config;
    env_vars = ext.env_vars;
    proxy_port = ext.proxy_port;
  }

  -- The fields that a server names itself.
  abbrev pub base_of : ServerJson codec.Document → Bytes → BaseServerMetadata Value
  base_of s transport = record {
    name = s.name;
    title = s.title;
    description = s.description;
    tier = [];
    status = [];
    transport = transport;
    stateless = false;
    tools = [];
    metadata = none;
    repository_url = repository_url_of s.repository;
    tags = [];
    overview = [];
    tool_definitions = none;
    custom_metadata = none;
  }

  unfoldable pub image_of_package :
      ServerJson codec.Document → Package → Except FromError (ImageMetadata Value)
  image_of_package s pkg = extract_target_port pkg.transport.url >>= λ port. ok (
      extract_image_extensions (get_stacklok_server_extensions s) (record {
        base = base_of s pkg.transport.transport_type;
        image = pkg.identifier;
        target_port = port;
        proxy_port = pos 0;
        permissions = none;
        env_vars = extract_environment_variables pkg;
        args = flatten_package_arguments pkg.package_arguments;
        docker_tags = [];
        provenance = none;
      }))

  unfoldable pub server_json_to_image_metadata :
      Option (ServerJson codec.Document) → Except FromError (ImageMetadata Value)
  server_json_to_image_metadata none = err nil_server
  server_json_to_image_metadata (some s) =
      extract_single_oci_package s.packages >>= λ pkg. image_of_package s pkg

  unfoldable pub remote_of :
      ServerJson codec.Document → List Transport → Except FromError (RemoteServerMetadata Value)
  remote_of s [] = err no_remotes
  remote_of s (remote ∷ others) = ok (
      extract_remote_extensions (get_stacklok_server_extensions s) (record {
        base = base_of s remote.transport_type;
        url = remote.url;
        proxy_port = pos 0;
        headers = map converted_header remote.headers;
        oauth_config = none;
        env_vars = [];
      }))

  unfoldable pub server_json_to_remote_server_metadata :
      Option (ServerJson codec.Document) → Except FromError (RemoteServerMetadata Value)
  unfolding remote_of
  server_json_to_remote_server_metadata none = err nil_server
  server_json_to_remote_server_metadata (some s) = remote_of s s.remotes
