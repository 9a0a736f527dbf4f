-- ===== src/Registry/Upstream.antt =====
-- What the converters use of the upstream registry's packages, of JSON and of URLs.
use toolhive_core.Base.{ℕ, ◌≡◌, Bool, List, [], ◌++◌, Option, some, Bytes, codes}
use toolhive_core.Base.Decimal.{format_nat}
use toolhive_core.Registry.Types.{ServerExtensions}

pub record Input : Type 0 where
  pub description : Bytes
  pub is_required : Bool
  pub is_secret : Bool
  pub default : Bytes
  pub choices : List Bytes

pub record KeyValueInput : Type 0 where
  pub name : Bytes
  pub input : Input

pub data ArgumentType : Type 0 where
  named positional : ArgumentType

pub record Argument : Type 0 where
  pub argument_type : ArgumentType
  pub name : Bytes
  pub value : Bytes
  pub description : Bytes
  pub is_required : Bool
  pub variables : List (Bytes × Input)

pub record Transport : Type 0 where
  pub transport_type : Bytes
  pub url : Bytes
  pub headers : List KeyValueInput

pub record Package : Type 0 where
  pub registry_type : Bytes
  pub identifier : Bytes
  pub transport : Transport
  pub runtime_arguments : List Argument
  pub package_arguments : List Argument
  pub environment_variables : List KeyValueInput

pub record Repository : Type 0 where
  pub url : Bytes
  pub source : Bytes

-- What stands under a publisher's name: a map, in an order of iteration, of which a value is a map
-- of its own or `none`; or something else.
pub data Provided (Document : Type 0) : Type 0 where
  extensions : List (Bytes × Option Document) → Provided Document
  no_map : Provided Document

pub record ServerJson (Document : Type 0) : Type 0 where
  pub schema : Bytes
  pub name : Bytes
  pub title : Bytes
  pub description : Bytes
  pub version : Bytes
  pub repository : Option Repository
  pub packages : List Package
  pub remotes : List Transport
  pub publisher_provided : Option (List (Bytes × Provided Document))

abbrev pub registry_type_oci : Bytes
registry_type_oci = codes "oci"

abbrev pub transport_type_stdio : Bytes
transport_type_stdio = codes "stdio"

abbrev pub transport_type_sse : Bytes
transport_type_sse = codes "sse"

abbrev pub transport_type_streamable_http : Bytes
transport_type_streamable_http = codes "streamable-http"

abbrev pub localhost_url : Bytes
localhost_url = codes "http://localhost"

abbrev pub localhost_port_url : ℕ → Bytes
localhost_port_url port = codes "http://localhost:" ++ format_nat port

-- JSON documents, by marshalling and unmarshalling, and the port of a URL as `url.Parse` reads it,
-- with `none` for an error. Nothing is asked of JSON; the port of a URL of localhost is what follows
-- the colon.
pub record Codec (Value : Type 0) : Type 1 where
  pub Document : Type 0
  pub schema_url : Bytes
  pub to_map : ServerExtensions Value → Option Document
  pub status_map : Bytes → Document
  pub of_map : Document → Option (ServerExtensions Value)
  pub url_port : Bytes → Option Bytes
  pub port_of_localhost : url_port localhost_url ≡ some []
  pub port_of_localhost_port : (n : ℕ) → url_port (localhost_port_url n) ≡ some (format_nat n)
