-- ===== src/RecordBody/Row/Total.antt =====
-- What a row says of the key and the value that it was decoded from.
use apfs_fastindex.Base.{
  ℕ, ◌/◌, ◌%◌, ◌^◌, ◌≤◌, ◌<◌, ◌≡◌, refl, Option, List, length, ltb, All, arith, tests,
}
use apfs_fastindex.Base.Bits.{bit_and_low}
use apfs_fastindex.Outcome.{Settles, Settles-reject_if, Settles-bind, Settles-Returns, Settles-ok}
use apfs_fastindex.BlockIo.{IsByte}
use apfs_fastindex.BlockIo.Fields.{field, field-lt, le_u64_lem}
use apfs_fastindex.RecordBody.{FsRecordRow, record_family_name}
use apfs_fastindex.RecordBody.Keys.{decode_key}
use apfs_fastindex.RecordBody.Keys.Fits.{KeyFits, decode_key-KeyFits}
use apfs_fastindex.RecordBody.Values.{decode_value}
use apfs_fastindex.RecordBody.Values.Fits.{ValueFits, decode_value-ValueFits}
use apfs_fastindex.RecordBody.Row.{decode_fs_record}

module _ (from_utf8 : List ℕ → Option (List ℕ)) (node_paddr entry_index : ℕ) (key value : List ℕ)
    (k : All IsByte key) (v : All IsByte value) where
  -- A row of this key and this value: the header of the key is taken apart into the object and the
  -- type, and key and value fit the type.
  pub record IsRow (row : FsRecordRow) : Type 0 where
    pub header : 8 ≤ length key
    pub paddr : row.node_paddr ≡ node_paddr
    pub index : row.entry_index ≡ entry_index
    pub object_id : row.object_id ≡ field 8 key 0 % 2 ^ 60
    pub raw_type : row.raw_type ≡ field 8 key 0 / 2 ^ 60
    pub known : row.raw_type < 16
    pub family : row.family ≡ record_family_name row.raw_type
    pub key_fits : KeyFits from_utf8 row.raw_type key row.key
    pub value_fits : ValueFits from_utf8 value v row.raw_type (row.value, row.validation_notes)

  -- `decode_fs_record` returns on any key and any value: no slice leaves its bytes. A row that it
  -- gives takes the object from the low 60 bits of the key's header and the type from the other
  -- four, and both its key and its value are as the bytes of that type say.
  pub decode_fs_record-IsRow :
      Settles IsRow Unit (decode_fs_record from_utf8 node_paddr entry_index key value)
  unfolding decode_fs_record
  decode_fs_record-IsRow =
      Settles-reject_if _ _ (ltb (length key) 8) _ _ (λ t. tt)
        (λ long.
          let word = field 8 key 0 in
          let small = field-lt 8 key 0 k (omega (tests, long)) in
          rw (le_u64_lem key 0 (omega (tests, long)), bit_and_low 60 word, whole_type word small)
            (let key_settles = decode_key-KeyFits from_utf8 (word / 2 ^ 60) key in
              Settles-bind _ _ (decode_key from_utf8 (word / 2 ^ 60) key) _
                (Settles-Returns _ _ _ key_settles) (λ e p. tt)
                (λ key_decoded p.
                  let value_settles = decode_value-ValueFits from_utf8 value v (word / 2 ^ 60) in
                  Settles-bind _ _ (decode_value from_utf8 (word / 2 ^ 60) value) _
                    (Settles-Returns _ _ _ value_settles) (λ e p. tt)
                    (λ (value_decoded, notes) q. record {
                      header = omega (tests, long);
                      paddr = refl;
                      index = refl;
                      object_id = refl;
                      raw_type = refl;
                      known = omega (arith, small);
                      family = refl;
                      key_fits = Settles-ok _ _ _ p key_settles;
                      value_fits = Settles-ok _ _ _ q value_settles;
                    }))))
    where
      whole_type : (word : ℕ) → word < 256 ^ 8 → word / 2 ^ 60 % 256 ≡ word / 2 ^ 60
      whole_type word h = omega (arith, h)
