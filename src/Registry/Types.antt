-- ===== src/Registry/Types.antt =====
-- The entries of a registry (registry/types/registry_types.go, publisher_provided_types.go). A nil and
-- an empty slice are both `[]`; a nil pointer or map is `none`.
use toolhive_core.Base.{Bool, List, Option, Bytes, codes}
use toolhive_core.Base.Int.{ℤ}

pub record EnvVar : Type 0 where
  pub name : Bytes
  pub description : Bytes
  pub required : Bool
  pub default : Bytes
  pub secret : Bool

pub record Header : Type 0 where
  pub name : Bytes
  pub description : Bytes
  pub required : Bool
  pub default : Bytes
  pub secret : Bool
  pub choices : List Bytes

pub record BaseServerMetadata (Value : Type 0) : Type 0 where
  pub name : Bytes
  pub title : Bytes
  pub description : Bytes
  pub tier : Bytes
  pub status : Bytes
  pub transport : Bytes
  pub stateless : Bool
  pub tools : List Bytes
  pub metadata : Option Value
  pub repository_url : Bytes
  pub tags : List Bytes
  pub overview : Bytes
  pub tool_definitions : Option Value
  pub custom_metadata : Option Value

pub record ImageMetadata (Value : Type 0) : Type 0 where
  pub base : BaseServerMetadata Value
  pub image : Bytes
  pub target_port : ℤ
  pub proxy_port : ℤ
  pub permissions : Option Value
  pub env_vars : List EnvVar
  pub args : List Bytes
  pub docker_tags : List Bytes
  pub provenance : Option Value

pub record RemoteServerMetadata (Value : Type 0) : Type 0 where
  pub base : BaseServerMetadata Value
  pub url : Bytes
  pub proxy_port : ℤ
  pub headers : List Header
  pub oauth_config : Option Value
  pub env_vars : List EnvVar

pub record ServerExtensions (Value : Type 0) : Type 0 where
  pub status : Bytes
  pub tier : Bytes
  pub tools : List Bytes
  pub tags : List Bytes
  pub overview : Bytes
  pub metadata : Option Value
  pub custom_metadata : Option Value
  pub permissions : Option Value
  pub args : List Bytes
  pub provenance : Option Value
  pub docker_tags : List Bytes
  pub proxy_port : ℤ
  pub stateless : Bool
  pub oauth_config : Option Value
  pub env_vars : List EnvVar
  pub tool_definitions : Option Value

abbrev pub tool_hive_publisher_namespace : Bytes
tool_hive_publisher_namespace = codes "io.github.stacklok"
