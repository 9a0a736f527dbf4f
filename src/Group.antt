-- ===== src/Group.antt =====
-- Names of groups (validation/group/group.go), on the bytes of a name. Lower case and white space are
-- those of ASCII: a name with another character is refused all the same, by the test of the characters.
pub mod Accepted
mod Tests
use toolhive_core.Base.{
  ℕ, ◌≡◌, Bool, true, false, not, ◌&&◌, ◌||◌, List, [], ◌∷◌, Option, none, some, if◌then◌else◌, leb,
  ◌==◌, all, Bytes, bytes_eq, codes, contains, has_byte, trim_space, to_lower,
}

pub data NameError : Type 0 where
  empty_name null_byte not_lowercase bad_character edge_space double_space : NameError

-- `[a-z0-9_\-\s]`, where `\s` is a space, a tab, a line feed, a form feed or a carriage return.
unfoldable pub in_class : ℕ → Bool
in_class c =
    (leb b'a' c && leb c b'z')
    || (leb b'0' c && leb c b'9')
    || c == b'_'
    || c == b'-'
    || c == b' '
    || c == 9
    || c == 10
    || c == 12
    || c == 13

-- `validNameRegex.MatchString(name)`.
unfoldable pub matches_name : Bytes → Bool
matches_name name = not (bytes_eq name []) && all in_class name

-- The error, `none` for a valid name.
unfoldable pub validate_name : Bytes → Option NameError
validate_name name =
    if bytes_eq name [] || bytes_eq (trim_space name) []
    then some empty_name
    else if has_byte 0 name
    then some null_byte
    else if not (bytes_eq name (to_lower name))
    then some not_lowercase
    else if not (matches_name name)
    then some bad_character
    else if not (bytes_eq (trim_space name) name)
    then some edge_space
    else if contains name (codes "  ")
    then some double_space
    else none
