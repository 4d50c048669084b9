-- ===== src/RecordBody/Keys.antt =====
-- The keys of records: `decode_key` and the decoder of each family with a key of its own.
pub mod Fits
use apfs_fastindex.Base.{
  ℕ, ◌+◌, Bool, true, false, ◌&&◌, ◌||◌, Option, none, some, List, [], ◌∷◌, length, take, drop, ltb,
  leb, ◌==◌, if◌then◌else◌, bit_and,
}
use apfs_fastindex.Outcome.{
  Outcome, ok, err, panic, hang, ◌>>=◌, ◌>>◌, reject_if, file_extent_key_too_short,
  drec_key_too_short, drec_name_misfit, xattr_key_too_short, xattr_name_misfit,
  sibling_key_too_short,
}
use apfs_fastindex.BlockIo.{slice, le_u16, le_u32, le_u64}
use apfs_fastindex.RecordBody.{
  FsRecordKey, KeyForm, plain, named, decode_name, to_hex, raw_type_dir_rec, raw_type_xattr,
  raw_type_sibling_link, raw_type_file_extent,
}

abbrev pub j_drec_len_mask : ℕ
j_drec_len_mask = 0x3ff

unfoldable pub decode_file_extent_key : List ℕ → Outcome FsRecordKey
decode_file_extent_key key = do
  reject_if (ltb (length key) 16) file_extent_key_too_short
  logical_addr ← le_u64 key 8
  ok (FsRecordKey.file_extent logical_addr)

unfoldable pub decode_sibling_link_key : List ℕ → Outcome FsRecordKey
decode_sibling_link_key key = do
  reject_if (ltb (length key) 16) sibling_key_too_short
  sibling_id ← le_u64 key 8
  ok (FsRecordKey.sibling_link sibling_id)

module _ (from_utf8 : List ℕ → Option (List ℕ)) where
  -- The end of the three decoders of named keys: the name of `name_len` bytes at `offset`.
  unfoldable pub named_key : KeyForm → List ℕ → ℕ → ℕ → Outcome FsRecordKey
  named_key form key offset name_len = do
    name_bytes ← slice key offset (offset + name_len)
    name ← decode_name from_utf8 name_bytes
    ok (named form name_len name (to_hex name_bytes))

  -- `decode_drec_key` after the hashed form
  unfoldable pub unhashed_drec_key : List ℕ → Outcome FsRecordKey
  unhashed_drec_key key = do
    reject_if (ltb (length key) 10) drec_key_too_short
    name_len ← le_u16 key 8
    reject_if (name_len == 0 || ltb (length key) (10 + name_len)) drec_name_misfit
    named_key KeyForm.unhashed key 10 name_len

  unfoldable pub decode_drec_key : List ℕ → Outcome FsRecordKey
  decode_drec_key key =
      if leb 12 (length key)
      then (do
        hash_word ← le_u32 key 8
        let name_len = bit_and hash_word j_drec_len_mask
        if ltb 0 name_len && leb (12 + name_len) (length key)
            then named_key KeyForm.hashed key 12 name_len
            else unhashed_drec_key key)
      else unhashed_drec_key key

  unfoldable pub decode_xattr_key : List ℕ → Outcome FsRecordKey
  decode_xattr_key key = do
    reject_if (ltb (length key) 10) xattr_key_too_short
    name_len ← le_u16 key 8
    reject_if (name_len == 0 || ltb (length key) (10 + name_len)) xattr_name_misfit
    named_key KeyForm.xattr key 10 name_len

  unfoldable pub decode_key : ℕ → List ℕ → Outcome FsRecordKey
  decode_key raw_type key =
      if raw_type == raw_type_dir_rec
      then decode_drec_key key
      else if raw_type == raw_type_xattr
      then decode_xattr_key key
      else if raw_type == raw_type_sibling_link
      then decode_sibling_link_key key
      else if raw_type == raw_type_file_extent
      then decode_file_extent_key key
      else ok plain
