-- ===== src/RecordBody/Values/Bodies.antt =====
-- What the values of inodes, directory records, sibling links and file extents decode to.
use apfs_fastindex.Base.{
  ℕ, ◌+◌, ◌-◌, ◌/◌, ◌%◌, ◌^◌, ◌≤◌, ◌<◌, ◌≡◌, refl, sym, true, not, ◌||◌, Option, List, [], length,
  take, drop, ltb, ◌==◌, if◌then◌else◌, inl, inr, arith, tests, All, All-take, All-drop,
  opposite_false, ◌∷◌,
}
use apfs_fastindex.Base.Int.{i32_of_word, is_negative}
use apfs_fastindex.Base.Bits.{bit_and_low, bit_and_bit}
use mathlib.Core.Path.{subst}
use apfs_fastindex.Outcome.{Settles, Settles-reject_if, Settles-bind, Settles-Returns, Settles-ok}
use apfs_fastindex.BlockIo.{IsByte}
use apfs_fastindex.BlockIo.Fields.{
  field, le_u16_lem, le_u32_lem, le_u64_lem, slice-eq-ok, slice_width,
}
use apfs_fastindex.Object.{has_bit}
use apfs_fastindex.RecordBody.{
  InodeBody, DirRecBody, SiblingLinkBody, FileExtentBody, RecordNote, inode_padding, drec_padding,
  to_hex, decode_name,
}
use apfs_fastindex.RecordBody.Names.{IsName, decode_name-IsName}
use apfs_fastindex.RecordBody.Keys.Fits.{fits_key}
use apfs_fastindex.RecordBody.Xfields.{XfieldContext, XfieldResult, decode_xfields}
use apfs_fastindex.RecordBody.Xfields.Layout.{AreFresh}
use apfs_fastindex.RecordBody.Xfields.Walk.{AreXfields, decode_xfields-IsBlob}
use apfs_fastindex.RecordBody.Values.{
  decode_file_extent, decode_inode, decode_drec, decode_sibling_link, is_known_drec_entry_type,
}
use apfs_fastindex.RecordBody.Values.Fields.{
  meaning, as_dstream, as_u64, as_utf8, inode_fields-meaning, drec_fields-meaning,
}

size_flag : (flags : ℕ) → has_bit flags 0x40000 ≡ (flags / 2 ^ 18 % 2 == 1)
size_flag flags = ground (arith, bit_and_bit 18 flags)

-- The length takes the low 60 bits, the flags the high four.
pub record IsFileExtent (value : List ℕ) (body : FileExtentBody) : Type 0 where
  pub header : 24 ≤ length value
  pub length_read : body.length_bytes ≡ field 8 value 0 % 2 ^ 60
  pub flags_read : body.flags ≡ field 8 value 0 / 2 ^ 60 % 16
  pub phys_block_num : body.phys_block_num ≡ field 8 value 8
  pub crypto_id : body.crypto_id ≡ field 8 value 16

-- `decode_file_extent` returns: a body exactly if the value has 24 bytes.
pub decode_file_extent-IsFileExtent :
    (value : List ℕ) → Settles (IsFileExtent value) (length value < 24) (decode_file_extent value)
unfolding decode_file_extent
decode_file_extent-IsFileExtent value =
    Settles-reject_if _ _ (ltb (length value) 24) _ _ (λ short. omega (tests, short))
      (λ long.
        rw
          (
            le_u64_lem value 0 (omega (tests, long)),
            le_u64_lem value 8 (omega (tests, long)),
            le_u64_lem value 16 (omega (tests, long)),
          )
          (record {
            header = omega (tests, long);
            length_read = bit_and_low 60 (field 8 value 0);
            flags_read = omega (arith, bit_and_low 4 (field 8 value 0 / 2 ^ 60 % 256));
            phys_block_num = refl;
            crypto_id = refl;
          }))

module _ (from_utf8 : List ℕ → Option (List ℕ)) (value : List ℕ) (b : All IsByte value) where
  -- What stands behind the first `size` bytes.
  abbrev pub blob_of : ℕ → List ℕ
  blob_of size = take (length value - size) (drop size value)

  pub record IsInode (decoded : InodeBody × List RecordNote) : Type 0 where
    pub header : 92 ≤ length value
    pub parent_id : decoded.0.parent_id ≡ field 8 value 0
    pub private_id : decoded.0.private_id ≡ field 8 value 8
    pub internal_flags : decoded.0.internal_flags ≡ field 8 value 0x30
    pub nchildren_or_nlink : decoded.0.nchildren_or_nlink ≡ i32_of_word (field 4 value 0x38)
    pub bsd_flags : decoded.0.bsd_flags ≡ field 4 value 0x44
    pub owner : decoded.0.owner ≡ field 4 value 0x48
    pub group : decoded.0.group ≡ field 4 value 0x4c
    pub mode : decoded.0.mode ≡ field 2 value 0x50
    pub uncompressed_size : decoded.0.uncompressed_size ≡ field 8 value 0x54
    pub flagged : decoded.0.has_uncompressed_size ≡ (decoded.0.internal_flags / 2 ^ 18 % 2 == 1)
    pub xfields : AreXfields from_utf8 XfieldContext.inode (blob_of 92) (record {
      fields = decoded.0.xfields;
      xf_used_data = decoded.0.xfield_used_data;
      padded_total = decoded.0.xfield_padded_total;
      unused_trailing_bytes = decoded.0.xfield_unused_trailing_bytes;
    })
    pub dstream : decoded.0.dstream ≡ as_dstream (meaning 8 decoded.0.xfields)
    pub sparse_bytes : decoded.0.sparse_bytes ≡ as_u64 (meaning 13 decoded.0.xfields)
    pub inode_name : decoded.0.inode_name ≡ as_utf8 (meaning 4 decoded.0.xfields)
    pub noted : decoded.1 ≡ (
        if is_negative decoded.0.xfield_unused_trailing_bytes
        then inode_padding (length (blob_of 92)) ∷ []
        else [])

  pub record IsDirRec (decoded : DirRecBody × List RecordNote) : Type 0 where
    pub header : 18 ≤ length value
    pub file_id : decoded.0.file_id ≡ field 8 value 0
    pub date_added : decoded.0.date_added ≡ field 8 value 8
    pub flags : decoded.0.flags ≡ field 2 value 16
    pub entry_type : decoded.0.entry_type ≡ decoded.0.flags % 16
    pub known_type : is_known_drec_entry_type decoded.0.entry_type ≡ true
    pub xfields : AreXfields from_utf8 XfieldContext.drec (blob_of 18) (record {
      fields = decoded.0.xfields;
      xf_used_data = decoded.0.xfield_used_data;
      padded_total = decoded.0.xfield_padded_total;
      unused_trailing_bytes = decoded.0.xfield_unused_trailing_bytes;
    })
    pub sibling_id : decoded.0.sibling_id ≡ as_u64 (meaning 1 decoded.0.xfields)
    pub noted : decoded.1 ≡ (
        if is_negative decoded.0.xfield_unused_trailing_bytes
        then drec_padding (length (blob_of 18)) ∷ []
        else [])

  pub record IsSiblingLink (body : SiblingLinkBody) : Type 0 where
    pub parent_id : body.parent_id ≡ field 8 value 0
    pub name_len : body.name_len ≡ field 2 value 8
    pub some_byte : 0 < body.name_len
    pub inside : 10 + body.name_len ≤ length value
    pub spelled : body.name_bytes_hex ≡ to_hex (take body.name_len (drop 10 value))
    pub named : IsName from_utf8 (take body.name_len (drop 10 value)) body.name

  fresh_of :
      (context : XfieldContext) (blob : List ℕ) (r : XfieldResult)
      → AreXfields from_utf8 context blob r
      → AreFresh [] r.fields
  fresh_of context blob r (inl (_, none_there, _, _, _)) = subst (AreFresh []) (sym none_there) tt
  fresh_of context blob r (inr h) = h.fresh

  -- On bytes `decode_inode` returns. A body has the fields of the value, the extended fields of the
  -- blob behind them, and as size, sparse bytes and name what the field of each of these types means;
  -- the note is there exactly if the padding runs past the blob.
  pub decode_inode-IsInode : Settles IsInode Unit (decode_inode from_utf8 value)
  unfolding decode_inode
  decode_inode-IsInode =
      Settles-reject_if _ _ (ltb (length value) 92) _ _ (λ t. tt)
        (λ long.
          let parsed =
            decode_xfields-IsBlob from_utf8 XfieldContext.inode (blob_of 92)
              (All-take IsByte _ _ (All-drop IsByte 92 value b)) in
          rw
            (
              le_u64_lem value 0x30 (omega (tests, long)),
              slice-eq-ok value 92 (length value) (omega (tests, long)) (omega arith),
              le_u64_lem value 0x00 (omega (tests, long)),
              le_u64_lem value 0x08 (omega (tests, long)),
              le_u32_lem value 0x38 (omega (tests, long)),
              le_u32_lem value 0x44 (omega (tests, long)),
              le_u32_lem value 0x48 (omega (tests, long)),
              le_u32_lem value 0x4c (omega (tests, long)),
              le_u16_lem value 0x50 (omega (tests, long)),
              le_u64_lem value 0x54 (omega (tests, long)),
            )
            (Settles-bind _ _ (decode_xfields from_utf8 XfieldContext.inode (blob_of 92)) _
              (Settles-Returns _ _ _ parsed) (λ e p. tt)
              (λ r p.
                let xfields = Settles-ok _ _ _ p parsed in
                let found = inode_fields-meaning r.fields (fresh_of _ _ r xfields) in
                record {
                  header = omega (tests, long);
                  parent_id = refl;
                  private_id = refl;
                  internal_flags = refl;
                  nchildren_or_nlink = refl;
                  bsd_flags = refl;
                  owner = refl;
                  group = refl;
                  mode = refl;
                  uncompressed_size = refl;
                  flagged = size_flag (field 8 value 0x30);
                  xfields = xfields;
                  dstream = found.0;
                  sparse_bytes = found.1;
                  inode_name = found.2;
                  noted = refl;
                })))

  -- On bytes `decode_drec` returns. A body has the fields of the value, a known entry type, the
  -- extended fields of the blob behind them, and as sibling id what the field of that type means;
  -- the note is there exactly if the padding runs past the blob.
  pub decode_drec-IsDirRec : Settles IsDirRec Unit (decode_drec from_utf8 value)
  unfolding decode_drec
  decode_drec-IsDirRec =
      Settles-reject_if _ _ (ltb (length value) 18) _ _ (λ t. tt)
        (λ long.
          let parsed =
            decode_xfields-IsBlob from_utf8 XfieldContext.drec (blob_of 18)
              (All-take IsByte _ _ (All-drop IsByte 18 value b)) in
          rw
            (
              le_u16_lem value 0x10 (omega (tests, long)),
              slice-eq-ok value 18 (length value) (omega (tests, long)) (omega arith),
              le_u64_lem value 0 (omega (tests, long)),
              le_u64_lem value 8 (omega (tests, long)),
              bit_and_low 4 (field 2 value 0x10),
            )
            (Settles-reject_if _ _ (not (is_known_drec_entry_type (field 2 value 0x10 % 16))) _ _
              (λ t. tt)
              (λ known.
                Settles-bind _ _ (decode_xfields from_utf8 XfieldContext.drec (blob_of 18)) _
                  (Settles-Returns _ _ _ parsed) (λ e p. tt)
                  (λ r p.
                    let xfields = Settles-ok _ _ _ p parsed in
                    record {
                      header = omega (tests, long);
                      file_id = refl;
                      date_added = refl;
                      flags = refl;
                      entry_type = refl;
                      known_type = opposite_false _ known;
                      xfields = xfields;
                      sibling_id = drec_fields-meaning r.fields (fresh_of _ _ r xfields);
                      noted = refl;
                    }))))

  pub decode_sibling_link-IsSiblingLink :
      Settles IsSiblingLink Unit (decode_sibling_link from_utf8 value)
  unfolding decode_sibling_link
  decode_sibling_link-IsSiblingLink =
      Settles-reject_if _ _ (ltb (length value) 10) _ _ (λ t. tt)
        (λ long.
          let len = field 2 value 8 in
          rw (le_u64_lem value 0 (omega (tests, long)), le_u16_lem value 8 (omega (tests, long)))
            (Settles-reject_if _ _ (len == 0 || ltb (length value) (10 + len)) _ _ (λ t. tt)
              (λ fits.
                let (some_byte, inside) = fits_key len (length value) fits in
                rw (slice_width value 10 len inside) (
                  let settles = decode_name-IsName from_utf8 (take len (drop 10 value)) in
                  Settles-bind _ _ (decode_name from_utf8 (take len (drop 10 value))) _
                    (Settles-Returns _ _ _ settles) (λ e p. tt)
                    (λ name p. record {
                      parent_id = refl;
                      name_len = refl;
                      some_byte = some_byte;
                      inside = inside;
                      spelled = refl;
                      named = Settles-ok _ _ _ p settles;
                    })))))
