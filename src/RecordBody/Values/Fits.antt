-- ===== src/RecordBody/Values/Fits.antt =====
-- What the value of each family decodes to, and the choice of the family.
use apfs_fastindex.Base.{
  ℕ, ◌≤◌, ◌≡◌, ◌≢◌, refl, false, Option, none, some, List, [], length, ltb, leb, ◌==◌,
  if◌then◌else◌, tests, All,
}
use apfs_fastindex.Outcome.{
  Outcome, ok, ◌>>=◌, ◌>>◌, Settles, Settles-reject_if, Settles-bind, Settles-if, Settles-Returns,
  Settles-ok, reject_if, sibling_map_too_short,
}
use apfs_fastindex.BlockIo.{IsByte, le_u32, le_u64}
use apfs_fastindex.BlockIo.Fields.{field, le_u32_lem, le_u64_lem}
use apfs_fastindex.RecordBody.{FsRecordValue, RecordNote}
use apfs_fastindex.RecordBody.Keys.Fits.{same, other}
use apfs_fastindex.RecordBody.Values.{
  decode_file_extent, decode_inode, decode_drec, decode_xattr, decode_sibling_link, decode_value,
}
use apfs_fastindex.RecordBody.Values.Xattr.{IsXattr, DescribesXattr, decode_xattr-IsXattr}
use apfs_fastindex.RecordBody.Values.Bodies.{
  IsFileExtent, IsInode, IsDirRec, IsSiblingLink, decode_file_extent-IsFileExtent,
  decode_inode-IsInode, decode_drec-IsDirRec, decode_sibling_link-IsSiblingLink,
}

module _ (from_utf8 : List ℕ → Option (List ℕ)) (value : List ℕ) (b : All IsByte value) where
  -- What the value of each family holds; no other value comes of that family.
  abbrev pub ValueFits : ℕ → FsRecordValue × List RecordNote → Type 0
  ValueFits raw_type (FsRecordValue.inode body, notes) =
      (raw_type ≡ 3) × IsInode from_utf8 value b (body, notes)
  ValueFits raw_type (FsRecordValue.xattr body, notes) =
      (raw_type ≡ 4)
      × (notes ≡ [])
      × IsXattr from_utf8 value b
      × DescribesXattr from_utf8 value b body
  ValueFits raw_type (FsRecordValue.sibling_link body, notes) =
      (raw_type ≡ 5) × (notes ≡ []) × IsSiblingLink from_utf8 value b body
  ValueFits raw_type (FsRecordValue.dstream_id refcnt, notes) =
      (raw_type ≡ 6)
      × (notes ≡ [])
      × (refcnt ≡ (if leb 4 (length value) then some (field 4 value 0) else none))
  ValueFits raw_type (FsRecordValue.dir_rec body, notes) =
      (raw_type ≡ 9) × IsDirRec from_utf8 value b (body, notes)
  ValueFits raw_type (FsRecordValue.sibling_map file_id, notes) =
      (raw_type ≡ 12) × (notes ≡ []) × (8 ≤ length value) × (file_id ≡ some (field 8 value 0))
  ValueFits raw_type (FsRecordValue.file_extent body, notes) =
      (raw_type ≡ 8) × (notes ≡ []) × IsFileExtent value body
  ValueFits raw_type (FsRecordValue.unsupported, notes) =
      (notes ≡ [])
      × (raw_type ≢ 3)
      × (raw_type ≢ 4)
      × (raw_type ≢ 5)
      × (raw_type ≢ 6)
      × (raw_type ≢ 9)
      × (raw_type ≢ 12)
      × (raw_type ≢ 8)

  -- A decoded body, wrapped in the constructor of its family.
  wrapped {ℓ} :
      {A : Type ℓ} (P : A → Type 0) (Q : Type 0) (raw_type : ℕ) (m : Outcome A)
      (wrap : A → FsRecordValue × List RecordNote)
      → Settles P Q m
      → ((a : A) → P a → ValueFits raw_type (wrap a))
      → Settles (ValueFits raw_type) Unit (m >>= λ a. ok (wrap a))
  wrapped P Q raw_type m wrap h fits =
      Settles-bind _ _ m _ (Settles-Returns P Q m h) (λ e p. tt)
        (λ a p. fits a (Settles-ok P Q m p h))

  dstream_id-ValueFits :
      (raw_type : ℕ)
      → raw_type ≡ 6
      → Settles (ValueFits raw_type) Unit (
          if leb 4 (length value)
          then (le_u32 value 0 >>= λ refcnt. ok (FsRecordValue.dstream_id (some refcnt), []))
          else ok (FsRecordValue.dstream_id none, []))
  dstream_id-ValueFits raw_type r =
      Settles-if _ _ (leb 4 (length value)) _ _
        (λ long. rw (le_u32_lem value 0 (omega (tests, long))) (r, refl, rw long refl))
        (λ short. (r, refl, rw short refl))

  -- The families that come after the first four tests.
  later_families :
      (raw_type : ℕ)
      → (raw_type == 3) ≡ false
      → (raw_type == 4) ≡ false
      → (raw_type == 5) ≡ false
      → (raw_type == 6) ≡ false
      → Settles (ValueFits raw_type) Unit (
          if raw_type == 9
          then (decode_drec from_utf8 value >>= λ (body, notes).
              ok (FsRecordValue.dir_rec body, notes))
          else if raw_type == 12
          then (reject_if (ltb (length value) 8) sibling_map_too_short
              >> (le_u64 value 0 >>= λ file_id. ok (FsRecordValue.sibling_map (some file_id), [])))
          else if raw_type == 8
          then (decode_file_extent value >>= λ body. ok (FsRecordValue.file_extent body, []))
          else ok (FsRecordValue.unsupported, []))
  later_families raw_type n3 n4 n5 n6 =
      Settles-if _ _ (raw_type == 9) _ _
        (λ r.
          wrapped _ _ raw_type (decode_drec from_utf8 value)
            (λ (body, notes). (FsRecordValue.dir_rec body, notes))
            (decode_drec-IsDirRec from_utf8 value b) (λ body h. (same _ _ r, h)))
        (λ n9.
          Settles-if _ _ (raw_type == 12) _ _
            (λ r.
              Settles-reject_if _ _ (ltb (length value) 8) _ _ (λ t. tt)
                (λ long.
                  rw (le_u64_lem value 0 (omega (tests, long)))
                    (same _ _ r, refl, omega (tests, long), refl)))
            (λ n12.
              Settles-if _ _ (raw_type == 8) _ _
                (λ r.
                  wrapped _ _ raw_type (decode_file_extent value)
                    (λ body. (FsRecordValue.file_extent body, []))
                    (decode_file_extent-IsFileExtent value) (λ body h. (same _ _ r, refl, h)))
                (λ n8. (
                  refl,
                  other _ _ n3,
                  other _ _ n4,
                  other _ _ n5,
                  other _ _ n6,
                  other _ _ n9,
                  other _ _ n12,
                  other _ _ n8,
                ))))

  pub decode_value-ValueFits :
      (raw_type : ℕ) → Settles (ValueFits raw_type) Unit (decode_value from_utf8 raw_type value)
  unfolding decode_value
  decode_value-ValueFits raw_type =
      Settles-if _ _ (raw_type == 3) _ _
        (λ r.
          wrapped _ _ raw_type (decode_inode from_utf8 value)
            (λ (body, notes). (FsRecordValue.inode body, notes))
            (decode_inode-IsInode from_utf8 value b) (λ body h. (same _ _ r, h)))
        (λ n3.
          Settles-if _ _ (raw_type == 4) _ _
            (λ r.
              wrapped _ _ raw_type (decode_xattr from_utf8 value)
                (λ body. (FsRecordValue.xattr body, [])) (decode_xattr-IsXattr from_utf8 value b)
                (λ body h. (same _ _ r, refl, h.0, h.1)))
            (λ n4.
              Settles-if _ _ (raw_type == 5) _ _
                (λ r.
                  wrapped _ _ raw_type (decode_sibling_link from_utf8 value)
                    (λ body. (FsRecordValue.sibling_link body, []))
                    (decode_sibling_link-IsSiblingLink from_utf8 value b)
                    (λ body h. (same _ _ r, refl, h)))
                (λ n5.
                  Settles-if _ _ (raw_type == 6) _ _
                    (λ r. dstream_id-ValueFits raw_type (same _ _ r))
                    (λ n6. later_families raw_type n3 n4 n5 n6))))
