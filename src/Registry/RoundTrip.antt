-- ===== src/Registry/RoundTrip.antt =====
-- What is left of an entry that is converted to the upstream format and back, whatever JSON makes of
-- the extensions on the way.
use toolhive_core.Base.{
  ℕ, none, zero, suc, ◌<◌, ◌^◌, ◌≡◌, ◌≢◌, refl, ap, true, false, List, [], ◌∷◌, map, append-nil,
  some, if◌then◌else◌, Bytes, codes, bytes_eq, bytes_eq_iff, ok, Bool-cases, inl, inr,
}
use toolhive_core.Base.Int.{ℤ, pos, negsuc}
use toolhive_core.Base.Decimal.{atoi, format_nat}
use toolhive_core.Base.Decimal.Format.{atoi-format_nat, format_nat-nonempty}
use toolhive_core.Registry.Types.{
  EnvVar, Header, BaseServerMetadata, ImageMetadata, RemoteServerMetadata, ServerExtensions,
}
use toolhive_core.Registry.Upstream.{
  Package, Transport, extensions, ServerJson, Codec, transport_type_stdio, localhost_url,
  localhost_port_url,
}
use toolhive_core.Registry.ToUpstream.{
  default_status, or_text, canonical_name, env_var_input, header_input, has_url, port_url,
  repository_of, image_extensions, remote_extensions, with_status,
  create_packages_from_image_metadata, create_remotes_from_remote_metadata, or_status_map,
  server_extensions_to_map, build_publisher_extensions_map, server_json,
  image_metadata_to_server_json, remote_server_metadata_to_server_json,
}
use toolhive_core.Registry.EnvVars.{
  converted, convert_environment_variables, extract_env_from_runtime_args,
  extract_environment_variables, flatten_package_arguments,
}
use toolhive_core.Registry.FromUpstream.{
  oci_packages, single_package, extract_single_oci_package, repository_url_of, converted_header,
  port_number, port_text, first_map, extract_target_port, find_provided, map_of,
  get_stacklok_extensions_map, get_stacklok_server_extensions, apply_base_extensions,
  extract_image_extensions, extract_remote_extensions, image_of_package,
  server_json_to_image_metadata, remote_of, server_json_to_remote_server_metadata,
}

-- The port that a container's URL keeps: none for stdio, none that is not positive.
abbrev pub kept_port : Bytes → ℤ → ℤ
kept_port transport (pos n) = if has_url transport then pos n else pos 0
kept_port transport (negsuc n) = pos 0

abbrev FitsInt : ℤ → Type 0
FitsInt (pos n) = n < 2 ^ 63
FitsInt (negsuc n) = Unit

map-env_vars : (vs : List EnvVar) → map converted (map env_var_input vs) ≡ vs
map-env_vars [] = refl
map-env_vars (v ∷ vs) = ap (λ rest. v ∷ rest) (map-env_vars vs)

map-headers : (hs : List Header) → map converted_header (map header_input hs) ≡ hs
map-headers [] = refl
map-headers (h ∷ hs) = ap (λ rest. h ∷ rest) (map-headers hs)

repository-url : (url : Bytes) → repository_url_of (repository_of url) ≡ url
unfolding bytes_eq
repository-url [] = refl
repository-url (c ∷ s) = refl

module _ {Value : Type 0} where
  -- The extensions that an image's document is made of: each field is the entry's.
  abbrev pub image_document : ImageMetadata Value → ServerExtensions Value
  image_document m = record {
    status = or_text m.base.status default_status;
    tier = m.base.tier;
    tools = m.base.tools;
    tags = m.base.tags;
    overview = m.base.overview;
    metadata = m.base.metadata;
    custom_metadata = m.base.custom_metadata;
    permissions = m.permissions;
    args = m.args;
    provenance = m.provenance;
    docker_tags = m.docker_tags;
    proxy_port = m.proxy_port;
    stateless = m.base.stateless;
    oauth_config = none;
    env_vars = [];
    tool_definitions = m.base.tool_definitions;
  }

  abbrev pub remote_document : RemoteServerMetadata Value → ServerExtensions Value
  remote_document m = record {
    status = or_text m.base.status default_status;
    tier = m.base.tier;
    tools = m.base.tools;
    tags = m.base.tags;
    overview = m.base.overview;
    metadata = m.base.metadata;
    custom_metadata = m.base.custom_metadata;
    permissions = none;
    args = [];
    provenance = none;
    docker_tags = [];
    proxy_port = m.proxy_port;
    stateless = m.base.stateless;
    oauth_config = m.oauth_config;
    env_vars = m.env_vars;
    tool_definitions = m.base.tool_definitions;
  }

  -- The entry under its canonical name, with what the document holds of it.
  abbrev pub restored_base :
      Bytes → Bytes → BaseServerMetadata Value → ServerExtensions Value → BaseServerMetadata Value
  restored_base name transport base ext = record {
    name = canonical_name base.name name;
    title = base.title;
    description = base.description;
    transport = transport;
    repository_url = base.repository_url;
    tier = ext.tier;
    status = ext.status;
    stateless = ext.stateless;
    tools = ext.tools;
    metadata = ext.metadata;
    tags = ext.tags;
    overview = ext.overview;
    tool_definitions = ext.tool_definitions;
    custom_metadata = ext.custom_metadata;
  }

  abbrev pub restored_image :
      Bytes → ImageMetadata Value → ServerExtensions Value → ImageMetadata Value
  restored_image name m ext =
      let transport = or_text m.base.transport transport_type_stdio in
      record {
        base = restored_base name transport m.base ext;
        image = m.image;
        target_port = kept_port transport m.target_port;
        env_vars = m.env_vars;
        proxy_port = ext.proxy_port;
        permissions = ext.permissions;
        args = ext.args;
        docker_tags = ext.docker_tags;
        provenance = ext.provenance;
      }

  abbrev pub restored_remote :
      Bytes → RemoteServerMetadata Value → ServerExtensions Value → RemoteServerMetadata Value
  restored_remote name m ext = record {
    base = restored_base name m.base.transport m.base ext;
    url = m.url;
    headers = m.headers;
    proxy_port = ext.proxy_port;
    oauth_config = ext.oauth_config;
    env_vars = ext.env_vars;
  }

module _ {Value : Type 0} (codec : Codec Value) where
  url_of-port : (n : ℕ) → n < 2 ^ 63 → extract_target_port codec (localhost_port_url n) ≡ ok (pos n)
  unfolding extract_target_port port_text port_number bytes_eq
  url_of-port n h =
      rw (codec.port_of_localhost_port n)
        (of_text (format_nat n) (format_nat-nonempty n) (atoi-format_nat n h))
    where
      of_text : (s : Bytes) → s ≢ [] → atoi s ≡ some (pos n) → port_text (some s) ≡ ok (pos n)
      of_text [] ne e = absurd (ne refl)
      of_text (c ∷ s) ne e = rw (e, port_number) refl

  extract-port_url :
      (transport : Bytes) (port : ℤ)
      → FitsInt port
      → extract_target_port codec (if has_url transport then port_url port else [])
        ≡ ok (kept_port transport port)
  unfolding extract_target_port bytes_eq
  extract-port_url transport port h = elim (Bool-cases (has_url transport)) [
    | inl e ↦ rw e (of_port port e h)
    | inr e ↦ rw e (ap ok (of_none port e))
  ]
    where
      host : extract_target_port codec localhost_url ≡ ok (pos 0)
      host = rw (codec.port_of_localhost, port_text) refl

      of_port :
          (port : ℤ)
          → has_url transport ≡ true
          → FitsInt port
          → extract_target_port codec (port_url port) ≡ ok (kept_port transport port)
      of_port (pos zero) e h = rw e host
      of_port (pos (suc n)) e h = rw e (url_of-port (suc n) h)
      of_port (negsuc n) e h = host

      of_none : (port : ℤ) → has_url transport ≡ false → pos 0 ≡ kept_port transport port
      of_none (pos n) e = rw e refl
      of_none (negsuc n) e = refl

  -- The publisher's part of a server is one document under ToolHive's name and the key.
  abbrev pub IsStored : Bytes → codec.Document → ServerJson codec.Document → Type 0
  IsStored key doc s =
      s.publisher_provided
      ≡ some ((codes "io.github.stacklok", extensions ((key, some doc) ∷ [])) ∷ [])

  mapped :
      (ext : ServerExtensions Value) (doc : codec.Document)
      → codec.to_map ext ≡ some doc
      → server_extensions_to_map codec ext ≡ doc
  unfolding server_extensions_to_map
  mapped ext doc e = rw (e, or_status_map) refl

  -- What is found is what the stored document is unmarshalled to.
  stored :
      (name : Bytes) (base : BaseServerMetadata Value) (packages : List Package)
      (remotes : List Transport) (ext back : ServerExtensions Value) (key : Bytes)
      (doc : codec.Document)
      → codec.to_map (with_status ext) ≡ some doc
      → codec.of_map doc ≡ some back
      → get_stacklok_server_extensions codec (
          server_json codec name base packages remotes
            (build_publisher_extensions_map codec ext key))
        ≡ some back
  unfolding server_json get_stacklok_server_extensions get_stacklok_extensions_map
      build_publisher_extensions_map find_provided map_of first_map bytes_eq
  stored name base packages remotes ext back key doc e found =
      rw (mapped (with_status ext) doc e) found

  -- Where the document is stored.
  published :
      (name : Bytes) (base : BaseServerMetadata Value) (packages : List Package)
      (remotes : List Transport) (ext : ServerExtensions Value) (key : Bytes) (doc : codec.Document)
      → codec.to_map (with_status ext) ≡ some doc
      → IsStored key doc (
          server_json codec name base packages remotes
            (build_publisher_extensions_map codec ext key))
  unfolding server_json build_publisher_extensions_map
  published name base packages remotes ext key doc e = rw (mapped (with_status ext) doc e) refl

  named : (name : Bytes) → name ≢ [] → bytes_eq name [] ≡ false
  named name h = elim (Bool-cases (bytes_eq name [])) [
    | inl e ↦ absurd (h ((bytes_eq_iff name []).0 e))
    | inr e ↦ e
  ]

  -- An image's entry with a name that is converted to the upstream format stores one document,
  -- under ToolHive's name and the image: the entry's extensions, with the default status where it has
  -- none. Converted back, it is the entry
  -- under its canonical name, with its title, description, repository, image and environment
  -- variables, the default transport where it has none, and its port where the transport has a URL
  -- and the port is positive; the rest is what JSON makes of that document. The port is an `int`, and
  -- the extensions can be marshalled and unmarshalled.
  pub image_round_trip :
      (name : Bytes) (m : ImageMetadata Value) (doc : codec.Document)
      (back : ServerExtensions Value)
      → name ≢ []
      → FitsInt m.target_port
      → codec.to_map (image_document m) ≡ some doc
      → codec.of_map doc ≡ some back
      → (s : ServerJson codec.Document) × (image_metadata_to_server_json codec name (some m) ≡ ok s)
        × IsStored m.image doc s
        × (server_json_to_image_metadata codec (some s) ≡ ok (restored_image name m back))
  unfolding image_metadata_to_server_json server_json server_json_to_image_metadata image_of_package
      create_packages_from_image_metadata extract_single_oci_package single_package oci_packages
      extract_image_extensions apply_base_extensions extract_environment_variables
      convert_environment_variables extract_env_from_runtime_args flatten_package_arguments bytes_eq
  image_round_trip name m doc back h fits e found = (
    server_json codec name m.base (create_packages_from_image_metadata m) []
        (build_publisher_extensions_map codec (image_extensions m) m.image),
    rw (named name h) refl,
    published name m.base (create_packages_from_image_metadata m) [] (image_extensions m) m.image
        doc e,
    rw (extract-port_url (or_text m.base.transport transport_type_stdio) m.target_port fits) (
        rw
          (stored name m.base (create_packages_from_image_metadata m) [] (image_extensions m) back
            m.image doc e found)
          (rw (map-env_vars m.env_vars, append-nil, repository-url m.base.repository_url) refl)),
  )

  -- A remote server's entry with a name that is converted stores one document, under ToolHive's name
  -- and the URL: the entry's extensions, with the default status where it has none. Converted back, it is the entry under its
  -- canonical name, with its title, description, repository, transport, URL and headers; the rest is
  -- what JSON makes of that document. The extensions can be marshalled and unmarshalled.
  pub remote_round_trip :
      (name : Bytes) (m : RemoteServerMetadata Value) (doc : codec.Document)
      (back : ServerExtensions Value)
      → name ≢ []
      → codec.to_map (remote_document m) ≡ some doc
      → codec.of_map doc ≡ some back
      → (s : ServerJson codec.Document) × (remote_server_metadata_to_server_json codec name (some m)
          ≡ ok s)
        × IsStored m.url doc s
        × (server_json_to_remote_server_metadata codec (some s) ≡ ok (restored_remote name m back))
  unfolding remote_server_metadata_to_server_json server_json server_json_to_remote_server_metadata
      remote_of create_remotes_from_remote_metadata extract_remote_extensions apply_base_extensions
      bytes_eq
  remote_round_trip name m doc back h e found = (
    server_json codec name m.base [] (create_remotes_from_remote_metadata m)
        (build_publisher_extensions_map codec (remote_extensions m) m.url),
    rw (named name h) refl,
    published name m.base [] (create_remotes_from_remote_metadata m) (remote_extensions m) m.url doc
        e,
    rw
        (stored name m.base [] (create_remotes_from_remote_metadata m) (remote_extensions m) back
          m.url doc e found)
        (rw (map-headers m.headers, repository-url m.base.repository_url) refl),
  )
