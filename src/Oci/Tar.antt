-- ===== src/Oci/Tar.antt =====
-- Taking the files out of a tar archive (oci/artifact/tar.go). The archive is what the library's
-- reader makes of the data: its entries one after another, then the end or an error.
pub mod Sound
use toolhive_core.Base.{
  ℕ, ◌+◌, ◌*◌, ◌-◌, ◌^◌, Bool, true, false, not, ◌||◌, List, [], ◌∷◌, if◌then◌else◌, ltb, ◌==◌,
  length, take, Bytes, Except, ok, err,
}
use toolhive_core.Oci.Path.{PathError, validate_tar_path}

pub data TypeFlag : Type 0 where
  type_reg type_dir type_symlink type_link : TypeFlag
  type_other : ℕ → TypeFlag

-- The content of an entry is the bytes up to its end, or up to an error.
pub record Header : Type 0 where
  pub name : Bytes
  pub type_flag : TypeFlag
  pub size : ℕ
  pub mode : ℕ

pub data Archive : Type 0 where
  end_of_archive : Archive
  broken_header : Archive
  entry : Header → Bytes → Bool → Archive → Archive

pub record FileEntry : Type 0 where
  pub path : Bytes
  pub content : Bytes
  pub mode : ℕ

abbrev pub file : Bytes → Bytes → ℕ → FileEntry
file path content mode = record { path = path; content = content; mode = mode }

pub data TarError : Type 0 where
  bad_header disallowed_link disallowed_type too_large bad_content : TarError
  bad_path : PathError → TarError

abbrev pub max_tar_file_size : ℕ
max_tar_file_size = 100 * 1024 * 1024

-- `io.ReadAll(io.LimitReader(r, n))`: an error beyond the limit is not seen.
unfoldable pub read_limited : ℕ → Bytes → Bool → Except TarError Bytes
read_limited n content faulty =
    if ltb (length content) n
    then (if faulty then err bad_content else ok content)
    else ok (take n content)

-- `maxFileSize + 1` of a limit that is not negative, in 64 bits: the largest limit wraps to a
-- negative bound, and a reader limited by that gives no byte.
unfoldable pub read_bound : ℕ → ℕ
read_bound limit = if limit == 2 ^ 63 - 1 then 0 else limit + 1

sized_content : ℕ → Except TarError Bytes → Except TarError Bytes
sized_content limit (err e) = err e
sized_content limit (ok content) = if ltb limit (length content) then err too_large else ok content

-- The content of a regular file: the declared size is tested, then what is read.
unfoldable pub file_content : ℕ → ℕ → Bytes → Bool → Except TarError Bytes
unfolding sized_content
file_content limit size content faulty =
    if ltb limit size
    then err too_large
    else sized_content limit (read_limited (read_bound limit) content faulty)

-- A file put before those of the rest of the archive.
with_file :
    Bytes
    → ℕ
    → Except TarError Bytes
    → Except TarError (List FileEntry)
    → Except TarError (List FileEntry)
with_file path mode (err e) rest = err e
with_file path mode (ok content) (err e) = err e
with_file path mode (ok content) (ok files) = ok (file path content mode ∷ files)

-- An entry whose path is clean, before what the rest of the archive gives.
with_entry :
    ℕ
    → Bytes
    → Header
    → Bytes
    → Bool
    → TypeFlag
    → Except TarError (List FileEntry)
    → Except TarError (List FileEntry)
unfolding with_file
with_entry limit path h content faulty type_dir rest = rest
with_entry limit path h content faulty type_symlink rest = err disallowed_link
with_entry limit path h content faulty type_link rest = err disallowed_link
with_entry limit path h content faulty (type_other n) rest = err disallowed_type
with_entry limit path h content faulty type_reg rest =
    with_file path h.mode (file_content limit h.size content faulty) rest

at_path :
    ℕ
    → Except PathError Bytes
    → Header
    → Bytes
    → Bool
    → Except TarError (List FileEntry)
    → Except TarError (List FileEntry)
unfolding with_entry
at_path limit (err e) h content faulty rest = err (bad_path e)
at_path limit (ok path) h content faulty rest =
    with_entry limit path h content faulty h.type_flag rest

-- The path of an entry is tested before its type, of a directory too.
unfoldable pub extract_tar_with_limit : ℕ → Archive → Except TarError (List FileEntry)
unfolding at_path
extract_tar_with_limit limit end_of_archive = ok []
extract_tar_with_limit limit broken_header = err bad_header
extract_tar_with_limit limit (entry h content faulty rest) =
    at_path limit (validate_tar_path h.name) h content faulty (extract_tar_with_limit limit rest)

unfoldable pub extract_tar : Archive → Except TarError (List FileEntry)
extract_tar archive = extract_tar_with_limit max_tar_file_size archive
