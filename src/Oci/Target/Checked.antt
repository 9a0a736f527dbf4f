-- ===== src/Oci/Target/Checked.antt =====
-- What reaches the wrapped target.
use toolhive_core.Base.{
  ℕ, ◌+◌, ◌≡◌, ◌≢◌, ◌↔◌, ◌≤◌, ◌⊎◌, inl, inr, refl, sym, ap, ◌∙◌, Bool, true, false, not, Option,
  none, some, str_eq, eq_iff, if◌then◌else◌, ltb, length, length-take, take, Bytes, Bool-cases,
  Option-cases, arith,
}
use toolhive_core.Base.Int.{ℤ, pos, negsuc}
use toolhive_core.Oci.Target.{
  max_index_manifests, max_manifest_layers, media_type_image_index, media_type_image_manifest,
  Descriptor, PushError, answer, digest_mismatch, Libraries, Reader, max_size, read_all,
  count_within, validate_manifest_counts, push_inner, push_read, push_sized, push,
}

-- The whole content, when no more than the bound was read.
read_all-whole :
    (bound : ℕ) (content : Reader) (read : Bytes)
    → read_all bound content ≡ some read
    → length read ≤ bound
    → (content.bytes ≡ read) × (content.faulty ≡ false)
unfolding read_all
read_all-whole bound content read e fits =
    elim (Bool-cases (ltb (length content.bytes) (bound + 1))) [
      | inl all ↦ elim (Bool-cases content.faulty) [
        | inl bad ↦ cc (rw (all, bad) at e)
        | inr good ↦ (cc (rw (all, good) at e), good)
      ]
      | inr more ↦
          let cut : take (bound + 1) content.bytes ≡ read = cc (rw more at e) in
          let long : length read ≡ bound + 1 =
            ap length (sym cut) ∙ length-take (bound + 1) content.bytes ∙ ground arith in
          absurd (omega arith)
    ]

module _ (lib : Libraries) where
  -- What a push to the wrapped target is known to satisfy.
  abbrev pub IsChecked : Descriptor → Reader → Type 0
  IsChecked desc content =
      (content.faulty ≡ false)
      × (length content.bytes ≤ max_size desc.media_type)
      × (lib.from_bytes content.bytes ≡ desc.digest)
      × (n : ℕ) × (desc.size ≡ pos n)
      × (n ≤ max_size desc.media_type)
      × (desc.media_type ≡ media_type_image_index
          → (k : ℕ) × (lib.index_manifests content.bytes ≡ some k) × (k ≤ max_index_manifests))
      × (desc.media_type ≡ media_type_image_manifest
          → (k : ℕ) × (lib.manifest_layers content.bytes ≡ some k) × (k ≤ max_manifest_layers))

  -- Refused with nothing done, or checked and pushed whole, the answer that of the wrapped target.
  abbrev pub Outcome : Descriptor → Reader → lib.World → Option PushError × lib.World → Type 0
  Outcome desc content w r =
      ((r.1 ≡ w) × (r.0 ≢ none))
      ⊎ (IsChecked desc content
          × (r.1 ≡ (lib.inner_push desc content.bytes w).1)
          × ((r.0 ≡ none) ↔ ((lib.inner_push desc content.bytes w).0 ≡ true)))

  count_within-none :
      (bound : ℕ) (unread excess : PushError) (n : Option ℕ)
      → count_within bound unread excess n ≡ none
      → (k : ℕ) × (n ≡ some k) × (k ≤ bound)
  unfolding count_within
  count_within-none bound unread excess none e = cc
  count_within-none bound unread excess (some k) e = (k, refl, ground arith)

  counts_of_index :
      (desc : Descriptor) (read : Bytes)
      → validate_manifest_counts lib desc.media_type read ≡ none
      → desc.media_type ≡ media_type_image_index
      → (k : ℕ) × (lib.index_manifests read ≡ some k) × (k ≤ max_index_manifests)
  unfolding validate_manifest_counts
  counts_of_index desc read e same =
      count_within-none _ _ _ (lib.index_manifests read)
        (rw ((eq_iff desc.media_type media_type_image_index).1 same) at e)

  counts_of_manifest :
      (desc : Descriptor) (read : Bytes)
      → validate_manifest_counts lib desc.media_type read ≡ none
      → desc.media_type ≡ media_type_image_manifest
      → (k : ℕ) × (lib.manifest_layers read ≡ some k) × (k ≤ max_manifest_layers)
  unfolding validate_manifest_counts
  counts_of_manifest desc read e same =
      count_within-none _ _ _ (lib.manifest_layers read) (rw same at e)

  push_inner-Outcome :
      (desc : Descriptor) (content : Reader) (w : lib.World) (faults : Option PushError)
      → (faults ≡ none → IsChecked desc content)
      → Outcome desc content w (push_inner lib desc content.bytes faults w)
  unfolding push_inner answer
  push_inner-Outcome desc content w (some e) checked = inl (refl, λ h. cc)
  push_inner-Outcome desc content w none checked =
      inr (of_push (lib.inner_push desc content.bytes w))
    where
      of_push :
          (p : Bool × lib.World)
          → IsChecked desc content
            × ((answer lib p).1 ≡ p.1)
            × (((answer lib p).0 ≡ none) ↔ (p.0 ≡ true))
      of_push (true, w1) = (checked refl, refl, ground arith)
      of_push (false, w1) = (checked refl, refl, ground arith)

  push_read-Outcome :
      (desc : Descriptor) (n : ℕ) (content : Reader) (w : lib.World)
      → desc.size ≡ pos n
      → n ≤ max_size desc.media_type
      → Outcome desc content w (push_read lib desc (read_all (max_size desc.media_type) content) w)
  unfolding push_read
  push_read-Outcome desc n content w sized declared =
      elim (Option-cases (read_all (max_size desc.media_type) content)) [
        | inl failed ↦ rw (failed, push_read) (inl (refl, λ h. cc))
        | inr (read, e) ↦
            rw (e, push_read)
              (of_size read e (Bool-cases (ltb (max_size desc.media_type) (length read))))
      ]
    where
      of_digest :
          (faulty : content.faulty ≡ false) (fits : length content.bytes ≤ max_size desc.media_type)
          (d : Bool)
          → str_eq (lib.from_bytes content.bytes) desc.digest ≡ d
          → Outcome desc content w (
              if not d
              then (some digest_mismatch, w)
              else push_inner lib desc content.bytes
                  (validate_manifest_counts lib desc.media_type content.bytes)
                  w)
      of_digest faulty fits false d = inl (refl, λ h. cc)
      of_digest faulty fits true d =
          push_inner-Outcome desc content w
            (validate_manifest_counts lib desc.media_type content.bytes)
            (λ counted. (
              faulty,
              fits,
              (eq_iff (lib.from_bytes content.bytes) desc.digest).0 d,
              n,
              sized,
              declared,
              counts_of_index desc content.bytes counted,
              counts_of_manifest desc content.bytes counted,
            ))

      of_size :
          (read : Bytes)
          → read_all (max_size desc.media_type) content ≡ some read
          → (ltb (max_size desc.media_type) (length read) ≡ true)
            ⊎ (ltb (max_size desc.media_type) (length read) ≡ false)
          → Outcome desc content w (push_read lib desc (some read) w)
      of_size read e (inl over) = rw (over, push_read) (inl (refl, λ h. cc))
      of_size read e (inr under) =
          let (whole, faulty) =
            read_all-whole (max_size desc.media_type) content read e (ground arith) in
          rw (under, push_read)
            (rw (sym whole) (
              of_digest faulty (rw whole (ground arith))
                (str_eq (lib.from_bytes content.bytes) desc.digest) refl))

  -- A push either is refused with the wrapped target untouched, or is passed on unchanged, and then
  -- the descriptor's size and the content are within the limit of the media type, the content's digest
  -- is the descriptor's, and an index or an image manifest lists no more than 32 manifests or 64 layers.
  -- What is passed on succeeds exactly where the wrapped target does.
  pub push-Outcome :
      (desc : Descriptor) (content : Reader) (w : lib.World)
      → Outcome desc content w (push lib desc content w)
  unfolding push push_sized
  push-Outcome desc content w = of_sign desc.size refl
    where
      of_sign : (z : ℤ) → desc.size ≡ z → Outcome desc content w (push_sized lib desc z content w)
      of_sign (negsuc n) e = inl (refl, λ h. cc)
      of_sign (pos n) e = elim (Bool-cases (ltb (max_size desc.media_type) n)) [
        | inl over ↦ rw (over, push_sized) (inl (refl, λ h. cc))
        | inr under ↦ rw (under, push_sized) (push_read-Outcome desc n content w e (ground arith))
      ]
