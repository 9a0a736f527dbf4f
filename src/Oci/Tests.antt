-- ===== src/Oci/Tests.antt =====
-- An archive with a directory, a file and a path that leaves, and a target that counts its pushes.
use toolhive_core.Base.{
  ℕ, suc, ◌≡◌, refl, true, false, List, [], ◌∷◌, none, some, codes, length, ok, err, bytes_eq,
  has_prefix, contains, split_at,
}
use toolhive_core.Base.Texts.Split.{join_at}
use toolhive_core.Base.Int.{pos}
use toolhive_core.Base.Clean.{clean, clean_elements, clean_step, go_up, cleaned}
use toolhive_core.Oci.Path.{validate_tar_path, traversal, backslash}
use toolhive_core.Oci.Path.Inside.{IsInside, validate_tar_path-IsInside}
use toolhive_core.Oci.Tar.{
  Header, type_reg, type_dir, Archive, end_of_archive, entry, FileEntry, file, file_content,
  read_limited, read_bound, extract_tar_with_limit,
}
use toolhive_core.Oci.Target.{
  Descriptor, Libraries, Reader, push, max_size, read_all, is_manifest_media_type,
  validate_manifest_counts,
}
use toolhive_core.Oci.Target.Checked.{Outcome, push-Outcome}

clean_test : validate_tar_path (codes "./a/../skill//SKILL.md") ≡ ok (codes "skill/SKILL.md")
unfolding validate_tar_path clean clean_elements clean_step go_up cleaned bytes_eq has_prefix
    contains split_at join_at
clean_test = refl

escape_test : validate_tar_path (codes "a/../../etc/passwd") ≡ err traversal
unfolding validate_tar_path clean clean_elements clean_step go_up cleaned bytes_eq has_prefix
    contains split_at join_at
escape_test = refl

-- One backslash passes, two do not.
backslash_test : validate_tar_path (b'a' ∷ b'\\' ∷ b'b' ∷ []) ≡ ok (b'a' ∷ b'\\' ∷ b'b' ∷ [])
unfolding validate_tar_path clean clean_elements clean_step go_up cleaned bytes_eq has_prefix
    contains split_at join_at
backslash_test = refl

backslashes_test : validate_tar_path (b'a' ∷ b'\\' ∷ b'\\' ∷ b'b' ∷ []) ≡ err backslash
unfolding validate_tar_path clean clean_elements clean_step go_up cleaned bytes_eq has_prefix
    contains split_at join_at
backslashes_test = refl

validate_tar_path-IsInside_example : IsInside (codes "skill/SKILL.md")
validate_tar_path-IsInside_example =
    validate_tar_path-IsInside (codes "./a/../skill//SKILL.md") (codes "skill/SKILL.md") clean_test

abbrev folder : Header
folder = record { name = codes "skill/"; type_flag = type_dir; size = 0; mode = 493 }

abbrev page : Header
page = record { name = codes "skill/SKILL.md"; type_flag = type_reg; size = 3; mode = 420 }

abbrev archive : Archive
archive = entry folder [] false (entry page (1 ∷ 2 ∷ 3 ∷ []) false end_of_archive)

abbrev page_files : List FileEntry
page_files = file (codes "skill/SKILL.md") (1 ∷ 2 ∷ 3 ∷ []) 420 ∷ []

extract_test : extract_tar_with_limit 3 archive ≡ ok page_files
unfolding extract_tar_with_limit file_content read_limited read_bound validate_tar_path clean
    clean_elements clean_step go_up cleaned bytes_eq has_prefix contains split_at join_at
extract_test = refl

abbrev libraries : Libraries
libraries = record {
  World = ℕ;
  from_bytes = λ s. "sha256:0";
  index_manifests = λ s. some 2;
  manifest_layers = λ s. some (length s);
  inner_push = λ d s w. (true, suc w);
}

abbrev image : Descriptor
image = record {
  media_type = "application/vnd.oci.image.manifest.v1+json";
  digest = "sha256:0";
  size = pos 2;
}

abbrev image_content : Reader
image_content = record { bytes = 123 ∷ 125 ∷ []; faulty = false }

push_test : push libraries image image_content 0 ≡ (none, 1)
unfolding push max_size read_all is_manifest_media_type validate_manifest_counts
push_test = refl

push-Outcome_example :
    Outcome libraries image image_content 0 (push libraries image image_content 0)
push-Outcome_example = push-Outcome libraries image image_content 0
