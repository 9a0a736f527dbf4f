-- ===== src/Oci/Path.antt =====
-- `validateTarPath` (oci/artifact/tar.go).
pub mod Inside
use toolhive_core.Base.{
  ℕ, ◌≡◌, Bool, true, false, ◌||◌, List, [], ◌∷◌, reverse, if◌then◌else◌, Bytes, bytes_eq, codes,
  has_prefix, contains, split_at, Except, ok, err,
}
use toolhive_core.Base.Clean.{dot_dot, clean, is_abs}

pub data PathError : Type 0 where
  backslash traversal absolute : PathError

check_cleaned : Bytes → Except PathError Bytes
check_cleaned path =
    if bytes_eq path dot_dot || has_prefix path (codes "../")
    then err traversal
    else if is_abs path
    then err absolute
    else ok path

-- The first test is for two backslashes: in Go's raw text, a backslash stands for itself.
unfoldable pub validate_tar_path : Bytes → Except PathError Bytes
unfolding check_cleaned
validate_tar_path p =
    if contains p (b'\\' ∷ b'\\' ∷ []) then err backslash else check_cleaned (clean p)
