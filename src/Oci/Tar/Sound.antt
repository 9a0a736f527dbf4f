-- ===== src/Oci/Tar/Sound.antt =====
-- What is taken out of an archive is what its regular files hold, at paths inside.
use toolhive_core.Base.{ℕ, ◌≡◌, ◌≤◌, Bool, false, List, [], ◌∷◌, length, Bytes, ok}
use toolhive_core.Oci.Path.{validate_tar_path}
use toolhive_core.Oci.Path.Inside.{IsInside}
use toolhive_core.Oci.Tar.{
  type_reg, type_dir, Header, Archive, end_of_archive, entry, FileEntry, file,
}

-- The files of an archive: of each entry that is a regular file, its whole content, at a clean path
-- inside, in the archive's order. Directories give nothing, and there is no other entry.
pub data Extracted (limit : ℕ) : Archive → List FileEntry → Type 0 where
  at_end : Extracted limit end_of_archive []
  past_directory :
      {h : Header} {content : Bytes} {faulty : Bool} {rest : Archive} {files : List FileEntry}
      → (path : Bytes) → validate_tar_path h.name ≡ ok path
      → h.type_flag ≡ type_dir
      → Extracted limit rest files
      → Extracted limit (entry h content faulty rest) files
  with_regular :
      {h : Header} {content path : Bytes} {rest : Archive} {files : List FileEntry}
      → h.type_flag ≡ type_reg
      → validate_tar_path h.name ≡ ok path
      → IsInside path
      → h.size ≤ limit
      → length content ≤ limit
      → Extracted limit rest files
      → Extracted limit (entry h content false rest) (file path content h.mode ∷ files)
