-- ===== src/Group/Tests.antt =====
-- A tab inside a name is accepted.
use toolhive_core.Base.{
  ◌≡◌, ◌↔◌, refl, none, codes, ◌++◌, ◌∷◌, bytes_eq, contains, has_prefix, trim_space, trim_right,
  Bytes,
}
use toolhive_core.Group.{in_class, matches_name, validate_name}
use toolhive_core.Group.Accepted.{IsValidName, validate_name_iff}

abbrev tabbed : Bytes
tabbed = codes "my" ++ 9 ∷ codes "group-1"

tab_test : validate_name tabbed ≡ none
unfolding validate_name matches_name in_class bytes_eq contains has_prefix trim_space trim_right
tab_test = refl

validate_name_iff_example : (validate_name tabbed ≡ none) ↔ IsValidName tabbed
validate_name_iff_example = validate_name_iff tabbed
