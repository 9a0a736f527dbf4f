-- ===== src/Mounts.antt =====
-- Mount declarations (permissions/profile.go), on a host whose paths have slashes, where
-- `filepath.Clean` is `path.Clean`. A parser that does not handle a text returns empty texts in the
-- code and `none` here: a cleaned path is never empty.
pub mod Safe
pub mod Listed
mod Tests
use toolhive_core.Base.{
  ℕ, zero, suc, ◌+◌, ◌≡◌, Bool, true, false, not, ◌&&◌, ◌||◌, List, [], ◌∷◌, ◌++◌, reverse, Option,
  none, some, if◌then◌else◌, leb, ltb, ◌==◌, all, any, length, take, drop, Bytes, bytes_eq, codes,
  contains, has_prefix, has_byte, Except, ok, err,
}
use toolhive_core.Base.Clean.{clean}

pub data MountError : Type 0 where
  command_injection null_byte windows_target invalid_format : MountError

-- What a parser gives: an error, or a source and a target if it handles the text.
abbrev pub Parsed : Type 0
Parsed = Except MountError (Option (Bytes × Bytes))

abbrev pub is_letter : ℕ → Bool
is_letter c = (leb b'a' c && leb c b'z') || (leb b'A' c && leb c b'Z')

-- ``[$&;|]|\$\(|\` ``.
unfoldable pub is_injection : Bytes → Bool
is_injection path =
    any (λ c. c == b'$' || c == b'&' || c == b';' || c == b'|') path
    || contains path (codes "$(")
    || has_byte b'`' path

unfoldable pub validate_path : Bytes → Option MountError
validate_path path =
    if is_injection path
    then some command_injection
    else if has_byte 0 path
    then some null_byte
    else none

-- `^[a-zA-Z]:[/\\]`.
unfoldable pub has_drive : Bytes → Bool
has_drive (a ∷ b ∷ c ∷ rest) = is_letter a && b == b':' && (c == b'/' || c == b'\\')
has_drive _ = false

unfoldable pub is_windows_path : Bytes → Bool
is_windows_path path = has_drive path || has_prefix path (b'\\' ∷ [])

-- `^[a-zA-Z][a-zA-Z0-9_-]*$`.
unfoldable pub validate_resource_scheme : Bytes → Bool
validate_resource_scheme [] = false
validate_resource_scheme (a ∷ s) =
    is_letter a && all (λ c. is_letter c || (leb b'0' c && leb c b'9') || c == b'_' || c == b'-') s

unfoldable pub is_valid_container_path : Bytes → Bool
is_valid_container_path path =
    has_prefix path (codes "/")
    || is_windows_path path
    || (not (bytes_eq path []) && not (has_byte b':' path))

-- The positions from `i` on.
unfoldable pub colons_from : ℕ → Bytes → List ℕ
colons_from i [] = []
colons_from i (a ∷ s) = let later = colons_from (suc i) s in if a == b':' then i ∷ later else later

unfoldable pub find_colon_positions : Bytes → List ℕ
find_colon_positions s = colons_from 0 s

-- The first of the positions after which a container's path stands.
unfoldable pub separator_among : Bytes → List ℕ → Option ℕ
separator_among remainder [] = none
separator_among remainder (i ∷ rest) =
    let later = separator_among remainder rest in
    if ltb (i + 1) (length remainder) && is_valid_container_path (drop (i + 1) remainder)
    then some i
    else later

unfoldable pub find_resource_uri_separator : Bytes → Option ℕ
find_resource_uri_separator remainder =
    separator_among remainder (reverse (find_colon_positions remainder))

-- `strings.SplitN(s, sep, 2)`: what is before and after the first occurrence of a text.
unfoldable pub cut_on : Bytes → Bytes → Option (Bytes × Bytes)
cut_on sep [] = none
cut_on sep (a ∷ s) = elim (has_prefix (a ∷ s) sep) [
  | true ↦ some ([], drop (length sep) (a ∷ s))
  | false ↦ elim (cut_on sep s) [ none ↦ none | some p ↦ some (a ∷ p.0, p.1) ]
]

-- The scheme and the remainder of a resource's declaration.
with_scheme : Option (Bytes × Bytes) → Option (Bytes × Bytes)
with_scheme none = none
with_scheme (some (scheme, remainder)) =
    if validate_resource_scheme scheme then some (scheme, remainder) else none

unfoldable pub split_resource_uri : Bytes → Option (Bytes × Bytes)
unfolding with_scheme
split_resource_uri declaration = with_scheme (cut_on (codes "://") declaration)

-- The first error of two.
abbrev pub or_else : Option MountError → Option MountError → Option MountError
or_else (some e) second = some e
or_else none second = second

-- A pair of paths unless there is an error.
unfoldable pub cleaned_pair : Bytes → Bytes → Bytes → Option MountError → Parsed
cleaned_pair scheme host target (some e) = err e
cleaned_pair scheme host target none = ok (some (scheme ++ clean host, clean target))

-- A host's path and a container's, which is not a Windows path.
unfoldable pub parse_pair : Bytes → Bytes → Bytes → Parsed
parse_pair scheme host target =
    if is_windows_path target
    then err windows_target
    else cleaned_pair scheme host target (or_else (validate_path host) (validate_path target))

resource_at : Bytes → Bytes → Option ℕ → Parsed
resource_at scheme remainder none = ok none
resource_at scheme remainder (some i) =
    if bytes_eq (take i remainder) [] || bytes_eq (drop (i + 1) remainder) []
    then ok none
    else parse_pair (scheme ++ codes "://") (take i remainder) (drop (i + 1) remainder)

of_resource : Option (Bytes × Bytes) → Parsed
unfolding resource_at
of_resource none = ok none
of_resource (some (scheme, remainder)) =
    resource_at scheme remainder (find_resource_uri_separator remainder)

unfoldable pub parse_resource_uri : Bytes → Parsed
unfolding of_resource
parse_resource_uri declaration = of_resource (split_resource_uri declaration)

-- The same path on both sides.
single : Bytes → Option MountError → Parsed
single declaration (some e) = err e
single declaration none = ok (some (clean declaration, clean declaration))

unfoldable pub parse_single_path : Bytes → Parsed
unfolding single
parse_single_path declaration = single declaration (validate_path declaration)

unfoldable pub parse_windows_path : Bytes → List ℕ → Parsed
parse_windows_path declaration (i ∷ []) = if i == 1 then parse_single_path declaration else ok none
parse_windows_path declaration (i ∷ j ∷ []) =
    if i == 1 then parse_pair [] (take j declaration) (drop (j + 1) declaration) else ok none
parse_windows_path declaration (i ∷ j ∷ k ∷ rest) = if i == 1 then err invalid_format else ok none
parse_windows_path declaration [] = ok none

unfoldable pub parse_host_container_path : Bytes → List ℕ → Parsed
parse_host_container_path declaration [] = ok none
parse_host_container_path declaration (i ∷ []) =
    parse_pair [] (take i declaration) (drop (i + 1) declaration)
parse_host_container_path declaration (i ∷ j ∷ rest) = err invalid_format

-- The next parser, where the first one does not handle the text.
unfoldable pub if_unhandled : Parsed → Parsed → Parsed
if_unhandled (err e) next = err e
if_unhandled (ok (some pair)) next = ok (some pair)
if_unhandled (ok none) next = next

-- The parsers in their order.
unfoldable pub parse_by : Bytes → Parsed
parse_by declaration = if_unhandled (parse_resource_uri declaration) (
    if has_byte b':' declaration
    then if_unhandled
        (if has_drive declaration
          then parse_windows_path declaration (find_colon_positions declaration)
          else ok none)
        (parse_host_container_path declaration (find_colon_positions declaration))
    else parse_single_path declaration)

handled : Parsed → Except MountError (Bytes × Bytes)
handled (err e) = err e
handled (ok none) = err invalid_format
handled (ok (some pair)) = ok pair

-- `Parse`: the source and the target.
unfoldable pub parse : Bytes → Except MountError (Bytes × Bytes)
unfolding handled
parse declaration = handled (parse_by declaration)

abbrev succeeds : Except MountError (Bytes × Bytes) → Bool
succeeds (err e) = false
succeeds (ok pair) = true

unfoldable pub is_valid : Bytes → Bool
is_valid declaration = succeeds (parse declaration)

named : Bytes → Option ℕ → Bool
named remainder none = false
named remainder (some i) =
    not (bytes_eq (take i remainder) []) && not (bytes_eq (drop (i + 1) remainder) [])

is_resource : Option (Bytes × Bytes) → Bool
unfolding named
is_resource none = false
is_resource (some (scheme, remainder)) = named remainder (find_resource_uri_separator remainder)

unfoldable pub is_resource_uri : Bytes → Bool
unfolding is_resource
is_resource_uri declaration = is_resource (split_resource_uri declaration)

-- `ParseMountDeclarations`: the first error, or the declarations as they stand.
mount_put :
    Bytes
    → Except MountError (Bytes × Bytes)
    → Except MountError (List Bytes)
    → Except MountError (List Bytes)
mount_put declaration (err e) rest = err e
mount_put declaration (ok pair) (err e) = err e
mount_put declaration (ok pair) (ok mounts) = ok (declaration ∷ mounts)

unfoldable pub parse_mount_declarations : List Bytes → Except MountError (List Bytes)
unfolding mount_put
parse_mount_declarations [] = ok []
parse_mount_declarations (d ∷ rest) = mount_put d (parse d) (parse_mount_declarations rest)
