-- ===== src/Base/Clean.antt =====
-- `path.Clean` of Go's library, on a path's elements; `filepath.Clean` is the same where the separator
-- is a slash.
pub mod Kept
use Prim.Native.Nat.{ℕ}
use mathlib.Core.Bool.{Bool, true, false, ◌||◌}
use mathlib.Core.List.{List, [], ◌∷◌, reverse}
use toolhive_core.Base.Tests.{if◌then◌else◌}
use toolhive_core.Base.Texts.Defs.{Bytes, bytes_eq, codes, has_prefix, split_at}
use toolhive_core.Base.Texts.Split.{join_at}

abbrev pub dot : Bytes
dot = codes "."

abbrev pub dot_dot : Bytes
dot_dot = codes ".."

-- `..` takes the last element away, unless there is none or it is itself a `..`.
unfoldable pub go_up : Bool → List Bytes → List Bytes
go_up rooted [] = if rooted then [] else dot_dot ∷ []
go_up rooted (top ∷ rest) = if bytes_eq top dot_dot then dot_dot ∷ top ∷ rest else rest

-- One element of the path put on those kept so far, the last one first.
unfoldable pub clean_step : Bool → List Bytes → Bytes → List Bytes
unfolding go_up
clean_step rooted kept element =
    if bytes_eq element [] || bytes_eq element dot
    then kept
    else if bytes_eq element dot_dot
    then go_up rooted kept
    else element ∷ kept

unfoldable pub clean_elements : Bool → List Bytes → List Bytes → List Bytes
clean_elements rooted kept [] = kept
clean_elements rooted kept (element ∷ rest) =
    clean_elements rooted (clean_step rooted kept element) rest

-- The path of the kept elements.
unfoldable pub cleaned : Bool → List Bytes → Bytes
cleaned true kept = b'/' ∷ join_at b'/' (reverse kept)
cleaned false [] = dot
cleaned false (top ∷ rest) = join_at b'/' (reverse (top ∷ rest))

abbrev pub is_abs : Bytes → Bool
is_abs p = has_prefix p (codes "/")

-- `path.Clean`.
unfoldable pub clean : Bytes → Bytes
unfolding clean_elements cleaned
clean p = cleaned (is_abs p) (clean_elements (is_abs p) [] (split_at b'/' p))
