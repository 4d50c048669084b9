-- ===== src/RecordBody/Row.antt =====
-- `decode_fs_record`: one entry of a leaf of a file-system tree as a row.
pub mod Total
use apfs_fastindex.Base.{
  ℕ, ◌/◌, ◌%◌, ◌^◌, Bool, true, false, Option, List, length, ltb, if◌then◌else◌, bit_and,
}
use apfs_fastindex.Outcome.{Outcome, ok, err, panic, hang, ◌>>=◌, ◌>>◌, reject_if, key_too_short}
use apfs_fastindex.BlockIo.{le_u64}
use apfs_fastindex.RecordBody.{
  FsRecordRow, fs_object_id_mask, fs_record_type_shift, record_family_name,
}
use apfs_fastindex.RecordBody.Keys.{decode_key}
use apfs_fastindex.RecordBody.Values.{decode_value}

unfoldable pub decode_fs_record :
    (List ℕ → Option (List ℕ)) → ℕ → ℕ → List ℕ → List ℕ → Outcome FsRecordRow
decode_fs_record from_utf8 node_paddr entry_index key value = do
  reject_if (ltb (length key) 8) key_too_short
  key_word ← le_u64 key 0
  let raw_type = key_word / 2 ^ fs_record_type_shift % 256
  key_decoded ← decode_key from_utf8 raw_type key
  (value_decoded, notes) ← decode_value from_utf8 raw_type value
  ok (record {
    node_paddr = node_paddr;
    entry_index = entry_index;
    object_id = bit_and key_word fs_object_id_mask;
    raw_type = raw_type;
    family = record_family_name raw_type;
    key_len = length key % 2 ^ 32;
    value_len = length value % 2 ^ 32;
    key = key_decoded;
    value = value_decoded;
    validation_notes = notes;
  })
