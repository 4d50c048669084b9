-- ===== src/RecordBody/Xfields.antt =====
-- The extended fields of an inode or a directory record: `decode_xfields` and what it calls.
pub mod Layout
pub mod Walk
pub mod Accepted
use apfs_fastindex.Base.{
  ℕ, zero, suc, ◌+◌, ◌-◌, ◌*◌, ◌%◌, ◌^◌, Bool, true, false, not, ◌&&◌, ◌||◌, Option, none, some,
  List, [], ◌∷◌, length, take, drop, ltb, ◌==◌, if◌then◌else◌, bit_and,
}
use apfs_fastindex.Base.Int.{ℤ, pos, i32_sub}
use apfs_fastindex.Outcome.{
  Outcome, ok, err, panic, hang, ◌>>=◌, ◌>>◌, reject_if, checked, checked_u32,
  xfield_blob_too_short, xfield_metadata_overflow, xfield_past_metadata, duplicate_xfield,
  xfield_cursor_overflow, xfield_past_blob, xfield_wrong_size, xfield_total_overflow,
  xfield_padding_past_blob, xfield_used_mismatch,
}
use apfs_fastindex.BlockIo.{slice, le_u16, le_u64}
use apfs_fastindex.Omap.{contains}
use apfs_fastindex.RecordBody.{
  XfieldInterpreted, XfieldEntry, DstreamFields, dstream_size, parse_dstream, strip_trailing_nul,
  to_hex,
}

-- The `context` of a blob, whose fields are numbered apart.
pub data XfieldContext : Type 0 where
  inode drec : XfieldContext

pub record XfieldResult : Type 0 where
  pub fields : List XfieldEntry
  pub xf_used_data : ℕ
  pub padded_total : ℕ
  pub unused_trailing_bytes : ℤ

abbrev pub ino_ext_type_name : ℕ
ino_ext_type_name = 4

abbrev pub ino_ext_type_dstream : ℕ
ino_ext_type_dstream = 8

abbrev pub ino_ext_type_sparse_bytes : ℕ
ino_ext_type_sparse_bytes = 13

abbrev pub drec_ext_type_sibling_id : ℕ
drec_ext_type_sibling_id = 1

-- `!7` on 32 bits
abbrev pub multiple_of_8_mask : ℕ
multiple_of_8_mask = 0xffff_fff8

unfoldable pub round_up_8 : ℕ → ℕ
round_up_8 value = bit_and ((value + 7) % 2 ^ 32) multiple_of_8_mask

-- `blob[index]`
unfoldable pub byte_at : List ℕ → ℕ → Outcome ℕ
byte_at [] index = panic
byte_at (b ∷ blob) zero = ok b
byte_at (b ∷ blob) (suc index) = byte_at blob index

unfoldable pub required_xfield_size : XfieldContext → ℕ → Option ℕ
required_xfield_size inode x_type =
    if x_type == ino_ext_type_dstream
    then some 40
    else if x_type == ino_ext_type_sparse_bytes
    then some 8
    else none
required_xfield_size drec x_type = if x_type == drec_ext_type_sibling_id then some 8 else none

-- `if let Some(expected_size) = expected`
unfoldable pub check_size : Option ℕ → ℕ → Outcome (Unit {0})
check_size none x_size = ok tt
check_size (some expected) x_size = reject_if (not (x_size == expected)) xfield_wrong_size

unfoldable pub validate_required_xfield_size : XfieldContext → ℕ → ℕ → Outcome (Unit {0})
validate_required_xfield_size context x_type x_size =
    check_size (required_xfield_size context x_type) x_size

-- The types that `interpret_xfield` reads as a `u64`.
unfoldable pub is_u64_type : ℕ → Bool
is_u64_type x_type =
    x_type == 1
    || x_type == 2
    || x_type == 3
    || x_type == 5
    || x_type == 13
    || x_type == 14
    || x_type == 16

-- `match result { Ok(d) => Some(..), Err(_) => None }`
unfoldable pub dstream_or_none : Outcome DstreamFields → Outcome (Option XfieldInterpreted)
dstream_or_none (ok fields) = ok (some (XfieldInterpreted.dstream fields))
dstream_or_none (err e) = ok none
dstream_or_none panic = panic
dstream_or_none hang = hang

unfoldable pub utf8_or_none : Option (List ℕ) → Option XfieldInterpreted
utf8_or_none none = none
utf8_or_none (some text) = some (XfieldInterpreted.utf8 text)

module _ (from_utf8 : List ℕ → Option (List ℕ)) where
  unfoldable pub interpret_xfield : ℕ → List ℕ → Outcome (Option XfieldInterpreted)
  interpret_xfield x_type data_bytes =
      if is_u64_type x_type
      then (if length data_bytes == 8
          then (do value ← le_u64 data_bytes 0; ok (some (XfieldInterpreted.u64 value)))
          else ok none)
      else if x_type == ino_ext_type_name
      then ok (utf8_or_none (from_utf8 (strip_trailing_nul data_bytes)))
      else if x_type == ino_ext_type_dstream
      then (if ltb (length data_bytes) dstream_size then ok none else (do
        prefix ← slice data_bytes 0 dstream_size
        dstream_or_none (parse_dstream prefix)))
      else ok none

  module _ (context : XfieldContext) (blob : List ℕ) (xf_num_exts : ℕ) where
    -- `for index in 0..xf_num_exts` from `index` on, with its variables `seen_types`, `cursor` and
    -- `padded_total`: the fields it pushes, and the last `padded_total`.
    unfoldable pub xfield_loop : ℕ → ℕ → List ℕ → ℕ → ℕ → Outcome (List XfieldEntry × ℕ)
    xfield_loop zero index seen_types cursor padded_total = ok ([], padded_total)
    xfield_loop (suc left) index seen_types cursor padded_total = do
      let meta_off = 4 + index * 4
      x_type ← byte_at blob meta_off
      x_flags ← byte_at blob (meta_off + 1)
      x_size ← le_u16 blob (meta_off + 2)
      reject_if (contains seen_types x_type) duplicate_xfield
      end_value ← checked (cursor + x_size) xfield_cursor_overflow
      reject_if (ltb (length blob) end_value) xfield_past_blob
      data_bytes ← slice blob cursor end_value
      let padded_length = round_up_8 x_size
      validate_required_xfield_size context x_type x_size
      interpreted ← interpret_xfield x_type data_bytes
      padded_total ← checked_u32 (padded_total + padded_length) xfield_total_overflow
      cursor ← checked (cursor + padded_length) xfield_cursor_overflow
      reject_if (ltb (length blob) cursor && ltb (index + 1) xf_num_exts) xfield_padding_past_blob
      (fields, total) ← xfield_loop left (index + 1) (x_type ∷ seen_types) cursor padded_total
      ok (
        record {
          x_type = x_type;
          x_flags = x_flags;
          x_size = x_size;
          padded_length = padded_length;
          value_hex = to_hex data_bytes;
          interpreted = interpreted;
        }
            ∷ fields,
        total,
      )

  unfoldable pub decode_xfields : XfieldContext → List ℕ → Outcome XfieldResult
  decode_xfields context blob =
      if length blob == 0
      then ok (record {
        fields = [];
        xf_used_data = 0;
        padded_total = 0;
        unused_trailing_bytes = pos 0;
      })
      else (do
        reject_if (ltb (length blob) 4) xfield_blob_too_short
        xf_num_exts ← le_u16 blob 0
        xf_used_data ← le_u16 blob 2
        table ← checked (xf_num_exts * 4) xfield_metadata_overflow
        metadata_end ← checked (4 + table) xfield_metadata_overflow
        reject_if (ltb (length blob) metadata_end) xfield_past_metadata
        (fields, padded_total) ←
            xfield_loop context blob xf_num_exts xf_num_exts 0 [] metadata_end 0
        reject_if (not (xf_used_data == padded_total)) xfield_used_mismatch
        ok (record {
          fields = fields;
          xf_used_data = xf_used_data;
          padded_total = padded_total;
          unused_trailing_bytes = i32_sub (length blob) (metadata_end + padded_total);
        }))
