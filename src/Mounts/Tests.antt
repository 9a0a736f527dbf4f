-- ===== src/Mounts/Tests.antt =====
-- Declarations of each form.
use toolhive_core.Base.{
  ◌≡◌, ◌↔◌, refl, true, List, [], ◌∷◌, all, All, Bytes, bytes_eq, codes, contains, has_prefix,
  split_at, ok, err,
}
use toolhive_core.Base.Texts.Split.{join_at}
use toolhive_core.Base.Clean.{clean, clean_elements, clean_step, go_up, cleaned}
use toolhive_core.Mounts.{
  is_injection, validate_path, has_drive, is_windows_path, validate_resource_scheme,
  is_valid_container_path, colons_from, find_colon_positions, separator_among,
  find_resource_uri_separator, cut_on, split_resource_uri, cleaned_pair, parse_pair,
  parse_resource_uri, parse_host_container_path, if_unhandled, parse_by, parse, is_valid,
  parse_mount_declarations, command_injection,
}
use toolhive_core.Mounts.Safe.{IsHarmless, parse-IsHarmless}
use toolhive_core.Mounts.Listed.{parse_mount_declarations_iff}

pair_test : parse (codes "/a/../b:/x/") ≡ ok (codes "/b", codes "/x")
unfolding is_injection validate_path has_drive is_windows_path colons_from find_colon_positions
    cut_on split_resource_uri cleaned_pair parse_pair parse_resource_uri parse_host_container_path
    if_unhandled parse_by parse clean clean_elements clean_step go_up cleaned bytes_eq contains
    has_prefix split_at join_at
pair_test = refl

resource_test : parse (codes "volume://data:/x") ≡ ok (codes "volume://data", codes "/x")
unfolding is_injection validate_path has_drive is_windows_path colons_from find_colon_positions
    separator_among find_resource_uri_separator is_valid_container_path validate_resource_scheme
    cut_on split_resource_uri cleaned_pair parse_pair parse_resource_uri if_unhandled parse_by parse
    clean clean_elements clean_step go_up cleaned bytes_eq contains has_prefix split_at join_at
resource_test = refl

injection_test : parse (codes "/a;ls:/x") ≡ err command_injection
unfolding is_injection validate_path has_drive is_windows_path colons_from find_colon_positions
    cut_on split_resource_uri cleaned_pair parse_pair parse_resource_uri parse_host_container_path
    if_unhandled parse_by parse bytes_eq contains has_prefix
injection_test = refl

parse-IsHarmless_example : All IsHarmless (codes "volume://data") × All IsHarmless (codes "/x")
parse-IsHarmless_example =
    parse-IsHarmless (codes "volume://data:/x") (codes "volume://data") (codes "/x") resource_test

abbrev two_mounts : List Bytes
two_mounts = codes "/a:/b" ∷ codes "/c" ∷ []

parse_mount_declarations_iff_test :
    (parse_mount_declarations two_mounts ≡ ok two_mounts)
    ↔ ((two_mounts ≡ two_mounts) × (all is_valid two_mounts ≡ true))
parse_mount_declarations_iff_test = parse_mount_declarations_iff two_mounts two_mounts
