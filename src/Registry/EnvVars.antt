-- ===== src/Registry/EnvVars.antt =====
-- Environment variables and arguments of an upstream package (registry/converters/upstream_to_toolhive.go).
use toolhive_core.Base.{
  ◌-◌, Bool, true, false, not, ◌&&◌, ◌||◌, List, [], ◌∷◌, ◌++◌, map, Option, none, some,
  if◌then◌else◌, Bytes, bytes_eq, codes, cut_at, length, take, drop, ltb,
}
use toolhive_core.Registry.Types.{EnvVar}
use toolhive_core.Registry.Upstream.{Input, KeyValueInput, named, positional, Argument, Package}

abbrev pub converted : KeyValueInput → EnvVar
converted v = record {
  name = v.name;
  description = v.input.description;
  required = v.input.is_required;
  default = v.input.default;
  secret = v.input.is_secret;
}

unfoldable pub convert_environment_variables : List KeyValueInput → List EnvVar
convert_environment_variables vars = map converted vars

-- `variables[name]`.
unfoldable pub find_variable : Bytes → List (Bytes × Input) → Option Input
find_variable name [] = none
find_variable name (v ∷ vs) =
    let rest = find_variable name vs in if bytes_eq v.0 name then some v.1 else rest

-- Whether a text of more than two bytes stands in braces.
abbrev pub is_reference : Bytes → Bool
is_reference s =
    ltb 2 (length s)
    && bytes_eq (take 1 s) (codes "{")
    && bytes_eq (drop (length s - 1) s) (codes "}")

abbrev pub referenced : Bytes → Bytes
referenced s = take (length s - 2) (drop 1 s)

abbrev static : Bytes → Bytes → Bytes → EnvVar
static name description default = record {
  name = name;
  description = description;
  required = false;
  default = default;
  secret = false;
}

-- The variable that a value refers to, if it is there.
abbrev from_variable : Bytes → Bytes → Option Input → EnvVar
from_variable name description none = static name description []
from_variable name description (some v) = record {
  name = name;
  description = description;
  required = v.is_required;
  default = v.default;
  secret = v.is_secret;
}

-- The two parts at the first `=`.
from_parts : Bytes → List (Bytes × Input) → Option (Bytes × Bytes) → Option EnvVar
from_parts description variables none = none
from_parts description variables (some (name, part)) =
    if is_reference part
    then some (from_variable name description (find_variable (referenced part) variables))
    else some (static name description part)

unfoldable pub parse_env_var_from_value : Bytes → Bytes → List (Bytes × Input) → Option EnvVar
unfolding from_parts
parse_env_var_from_value value description variables =
    if bytes_eq value [] then none else from_parts description variables (cut_at b'=' value)

abbrev is_env_flag : Argument → Bool
is_env_flag arg =
    elim arg.argument_type [ named ↦ true | positional ↦ false ]
    && (bytes_eq arg.name (codes "-e") || bytes_eq arg.name (codes "--env"))

-- The requirement is that of the argument, whatever that of the variable was.
put_env_var : Bool → Option EnvVar → List EnvVar → List EnvVar
put_env_var is_required none rest = rest
put_env_var is_required (some e) rest = record e { required = is_required } ∷ rest

unfoldable pub extract_env_from_runtime_args : List Argument → List EnvVar
unfolding put_env_var
extract_env_from_runtime_args [] = []
extract_env_from_runtime_args (arg ∷ args) =
    let rest = extract_env_from_runtime_args args in
    if not (is_env_flag arg)
    then rest
    else put_env_var arg.is_required
        (parse_env_var_from_value arg.value arg.description arg.variables) rest

unfoldable pub extract_environment_variables : Package → List EnvVar
extract_environment_variables pkg =
    convert_environment_variables pkg.environment_variables
    ++ extract_env_from_runtime_args pkg.runtime_arguments

-- A part of an argument, left out when it is empty.
abbrev unless_empty : Bytes → List Bytes → List Bytes
unless_empty s rest = if bytes_eq s [] then rest else s ∷ rest

unfoldable pub flatten_package_arguments : List Argument → List Bytes
flatten_package_arguments [] = []
flatten_package_arguments (arg ∷ args) =
    unless_empty arg.name (unless_empty arg.value (flatten_package_arguments args))
