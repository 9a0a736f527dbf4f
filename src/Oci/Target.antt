-- ===== src/Oci/Target.antt =====
-- `ValidatingTarget` (oci/artifact/validate.go): limits on what is pushed to a target.
pub mod Checked
use toolhive_core.Base.{
  ℕ, ◌+◌, ◌*◌, ◌≡◌, Bool, true, false, not, ◌||◌, List, [], ◌∷◌, Option, none, some, String, str_eq,
  if◌then◌else◌, ltb, length, take, Bytes,
}
use toolhive_core.Base.Int.{ℤ, pos, negsuc}

abbrev pub max_manifest_size : ℕ
max_manifest_size = 1 * 1024 * 1024

abbrev pub max_blob_size : ℕ
max_blob_size = 100 * 1024 * 1024

abbrev pub max_index_manifests : ℕ
max_index_manifests = 32

abbrev pub max_manifest_layers : ℕ
max_manifest_layers = 64

abbrev pub media_type_image_index : String
media_type_image_index = "application/vnd.oci.image.index.v1+json"

abbrev pub media_type_image_manifest : String
media_type_image_manifest = "application/vnd.oci.image.manifest.v1+json"

pub record Descriptor : Type 0 where
  pub media_type : String
  pub digest : String
  pub size : ℤ

pub data PushError : Type 0 where
  negative_size size_exceeded reading_failed actual_size_exceeded digest_mismatch : PushError
  bad_index bad_manifest too_many_manifests too_many_layers inner_failed : PushError

-- What the code asks of the libraries: a digest of bytes, the numbers of manifests and of layers in
-- a JSON text, `none` where it does not parse, and the target that is wrapped.
pub record Libraries : Type 1 where
  pub World : Type 0
  pub from_bytes : Bytes → String
  pub index_manifests : Bytes → Option ℕ
  pub manifest_layers : Bytes → Option ℕ
  pub inner_push : Descriptor → Bytes → World → Bool × World

-- The content of a push: its bytes up to the end or to an error.
pub record Reader : Type 0 where
  pub bytes : Bytes
  pub faulty : Bool

unfoldable pub is_manifest_media_type : String → Bool
is_manifest_media_type media_type =
    str_eq media_type media_type_image_manifest
    || str_eq media_type media_type_image_index
    || str_eq media_type "application/vnd.docker.distribution.manifest.v2+json"
    || str_eq media_type "application/vnd.docker.distribution.manifest.list.v2+json"

unfoldable pub max_size : String → ℕ
max_size media_type = if is_manifest_media_type media_type then max_manifest_size else max_blob_size

-- The bytes of a reader limited to one more than the largest size; an error beyond is not seen.
unfoldable pub read_all : ℕ → Reader → Option Bytes
read_all bound content =
    if ltb (length content.bytes) (bound + 1)
    then (if content.faulty then none else some content.bytes)
    else some (take (bound + 1) content.bytes)

-- A count within its bound.
count_within : ℕ → PushError → PushError → Option ℕ → Option PushError
count_within bound unread excess none = some unread
count_within bound unread excess (some n) = if ltb bound n then some excess else none

module _ (lib : Libraries) where
  unfoldable pub validate_manifest_counts : String → Bytes → Option PushError
  unfolding count_within
  validate_manifest_counts media_type data_bytes =
      if str_eq media_type media_type_image_index
      then count_within max_index_manifests bad_index too_many_manifests
          (lib.index_manifests data_bytes)
      else if str_eq media_type media_type_image_manifest
      then count_within max_manifest_layers bad_manifest too_many_layers
          (lib.manifest_layers data_bytes)
      else none

  -- The answer of the wrapped target is the answer of the push.
  answer : Bool × lib.World → Option PushError × lib.World
  answer (true, w) = (none, w)
  answer (false, w) = (some inner_failed, w)

  push_inner : Descriptor → Bytes → Option PushError → lib.World → Option PushError × lib.World
  unfolding answer
  push_inner desc read (some e) w = (some e, w)
  push_inner desc read none w = answer (lib.inner_push desc read w)

  push_read : Descriptor → Option Bytes → lib.World → Option PushError × lib.World
  unfolding push_inner
  push_read desc none w = (some reading_failed, w)
  push_read desc (some read) w =
      if ltb (max_size desc.media_type) (length read)
      then (some actual_size_exceeded, w)
      else if not (str_eq (lib.from_bytes read) desc.digest)
      then (some digest_mismatch, w)
      else push_inner desc read (validate_manifest_counts desc.media_type read) w

  push_sized : Descriptor → ℤ → Reader → lib.World → Option PushError × lib.World
  unfolding push_read
  push_sized desc (negsuc n) content w = (some negative_size, w)
  push_sized desc (pos n) content w =
      if ltb (max_size desc.media_type) n
      then (some size_exceeded, w)
      else push_read desc (read_all (max_size desc.media_type) content) w

  -- The error of a push, `none` for success, with what the wrapped target did.
  unfoldable pub push : Descriptor → Reader → lib.World → Option PushError × lib.World
  unfolding push_sized
  push desc content w = push_sized desc desc.size content w
