-- ===== src/RecordBody.antt =====
-- crates/apfs-fastindex/src/fs_record_body.rs: the decoder of one record of a file-system tree. Here
-- are its types and the pieces that several families share. A string is the list of its bytes;
-- `std::str::from_utf8` is a parameter that gives the string, or nothing where it returns an error.
pub mod Names
pub mod Xfields
pub mod Keys
pub mod Values
pub mod Row
use apfs_fastindex.Base.{
  ℕ, zero, suc, ◌+◌, ◌-◌, ◌/◌, Bool, true, false, not, ◌&&◌, Option, none, some, List, [], ◌∷◌,
  length, take, ltb, ◌==◌, if◌then◌else◌, bit_and,
}
use apfs_fastindex.Base.Int.{ℤ}
use apfs_fastindex.Outcome.{
  Outcome, ok, err, panic, hang, invalid_object, ◌>>=◌, ◌>>◌, reject_if, empty_name, only_nul_name,
  embedded_nul, not_utf8, dstream_too_short,
}
use apfs_fastindex.BlockIo.{le_u64}
use apfs_fastindex.Container.{hex_digit}
use apfs_fastindex.Omap.{contains}

pub data Family : Type 0 where
  any snap_metadata extent_reference inode xattr sibling_link dstream_id : Family
  crypto_state file_extent dir_rec dir_stats snap_name sibling_map file_info unknown : Family

-- The strings that `raw_key_form` can be.
pub data KeyForm : Type 0 where
  hashed unhashed xattr : KeyForm

pub data FsRecordKey : Type 0 where
  plain : FsRecordKey
  -- the form, `name_len`, `name` and `name_bytes_hex`
  named : KeyForm → ℕ → List ℕ → List ℕ → FsRecordKey
  sibling_link : ℕ → FsRecordKey
  file_extent : ℕ → FsRecordKey

pub record DstreamFields : Type 0 where
  pub size : ℕ
  pub alloced_size : ℕ
  pub default_crypto_id : ℕ
  pub total_bytes_written : ℕ
  pub total_bytes_read : ℕ

pub data XfieldInterpreted : Type 0 where
  u64 : ℕ → XfieldInterpreted
  utf8 : List ℕ → XfieldInterpreted
  dstream : DstreamFields → XfieldInterpreted

pub record XfieldEntry : Type 0 where
  pub x_type : ℕ
  pub x_flags : ℕ
  pub x_size : ℕ
  pub padded_length : ℕ
  pub value_hex : List ℕ
  pub interpreted : Option XfieldInterpreted

pub record InodeBody : Type 0 where
  pub parent_id : ℕ
  pub private_id : ℕ
  pub internal_flags : ℕ
  pub nchildren_or_nlink : ℤ
  pub bsd_flags : ℕ
  pub owner : ℕ
  pub group : ℕ
  pub mode : ℕ
  pub uncompressed_size : ℕ
  pub has_uncompressed_size : Bool
  pub xfields : List XfieldEntry
  pub xfield_used_data : ℕ
  pub xfield_padded_total : ℕ
  pub xfield_unused_trailing_bytes : ℤ
  pub dstream : Option DstreamFields
  pub sparse_bytes : Option ℕ
  pub inode_name : Option (List ℕ)

pub record DirRecBody : Type 0 where
  pub file_id : ℕ
  pub date_added : ℕ
  pub flags : ℕ
  pub entry_type : ℕ
  pub sibling_id : Option ℕ
  pub xfields : List XfieldEntry
  pub xfield_used_data : ℕ
  pub xfield_padded_total : ℕ
  pub xfield_unused_trailing_bytes : ℤ

pub record XattrBody : Type 0 where
  pub flags : ℕ
  pub xdata_len : ℕ
  pub embedded : Bool
  pub stream : Bool
  pub payload_hex : List ℕ
  pub payload_utf8 : Option (List ℕ)
  pub stream_xattr_obj_id : Option ℕ
  pub stream_dstream : Option DstreamFields

pub record SiblingLinkBody : Type 0 where
  pub parent_id : ℕ
  pub name_len : ℕ
  pub name : List ℕ
  pub name_bytes_hex : List ℕ

pub record FileExtentBody : Type 0 where
  pub length_bytes : ℕ
  pub flags : ℕ
  pub phys_block_num : ℕ
  pub crypto_id : ℕ

pub data FsRecordValue : Type 0 where
  inode : InodeBody → FsRecordValue
  xattr : XattrBody → FsRecordValue
  sibling_link : SiblingLinkBody → FsRecordValue
  dstream_id : Option ℕ → FsRecordValue
  dir_rec : DirRecBody → FsRecordValue
  sibling_map : Option ℕ → FsRecordValue
  file_extent : FileExtentBody → FsRecordValue
  unsupported : FsRecordValue

-- The two notes, with the length of the blob that they print.
pub data RecordNote : Type 0 where
  inode_padding drec_padding : ℕ → RecordNote

pub record FsRecordRow : Type 0 where
  pub node_paddr : ℕ
  pub entry_index : ℕ
  pub object_id : ℕ
  pub raw_type : ℕ
  pub family : Family
  pub key_len : ℕ
  pub value_len : ℕ
  pub key : FsRecordKey
  pub value : FsRecordValue
  pub validation_notes : List RecordNote

abbrev pub fs_object_id_mask : ℕ
fs_object_id_mask = 0x0fff_ffff_ffff_ffff

abbrev pub fs_record_type_shift : ℕ
fs_record_type_shift = 60

abbrev pub dstream_size : ℕ
dstream_size = 40

abbrev pub raw_type_inode : ℕ
raw_type_inode = 3

abbrev pub raw_type_xattr : ℕ
raw_type_xattr = 4

abbrev pub raw_type_sibling_link : ℕ
raw_type_sibling_link = 5

abbrev pub raw_type_dstream_id : ℕ
raw_type_dstream_id = 6

abbrev pub raw_type_file_extent : ℕ
raw_type_file_extent = 8

abbrev pub raw_type_dir_rec : ℕ
raw_type_dir_rec = 9

abbrev pub raw_type_sibling_map : ℕ
raw_type_sibling_map = 12

-- The family of the type with this place in the table, `unknown` behind it.
unfoldable pub family_at : List Family → ℕ → Family
family_at [] raw_type = Family.unknown
family_at (name ∷ names) zero = name
family_at (name ∷ names) (suc raw_type) = family_at names raw_type

unfoldable pub record_family_name : ℕ → Family
record_family_name = family_at (
    Family.any ∷ Family.snap_metadata ∷ Family.extent_reference ∷ Family.inode ∷ Family.xattr
    ∷ Family.sibling_link ∷ Family.dstream_id ∷ Family.crypto_state ∷ Family.file_extent
    ∷ Family.dir_rec ∷ Family.dir_stats ∷ Family.snap_name ∷ Family.sibling_map ∷ Family.file_info
    ∷ [])

-- The table `HEX` holds the lower-case digits.
unfoldable pub to_hex : List ℕ → List ℕ
to_hex [] = []
to_hex (b ∷ bytes) = hex_digit (b / 16) ∷ hex_digit (bit_and b 0x0f) ∷ to_hex bytes

-- `bytes.last() == Some(&0)`
unfoldable pub ends_in_nul : List ℕ → Bool
ends_in_nul [] = false
ends_in_nul (b ∷ []) = b == 0
ends_in_nul (b ∷ c ∷ bytes) = ends_in_nul (c ∷ bytes)

unfoldable pub strip_trailing_nul : List ℕ → List ℕ
strip_trailing_nul bytes = if ends_in_nul bytes then take (length bytes - 1) bytes else bytes

-- `map_err` of `from_utf8`
unfoldable pub utf8_or_error : Option (List ℕ) → Outcome (List ℕ)
utf8_or_error none = err (invalid_object not_utf8)
utf8_or_error (some text) = ok text

-- It strips the NUL as `strip_trailing_nul` does.
unfoldable pub decode_name : (List ℕ → Option (List ℕ)) → List ℕ → Outcome (List ℕ)
decode_name from_utf8 name_bytes = do
  reject_if (length name_bytes == 0) empty_name
  let stripped = strip_trailing_nul name_bytes
  reject_if (length stripped == 0) only_nul_name
  reject_if (contains stripped 0) embedded_nul
  utf8_or_error (from_utf8 stripped)

unfoldable pub parse_dstream : List ℕ → Outcome DstreamFields
parse_dstream bytes = do
  reject_if (ltb (length bytes) dstream_size) dstream_too_short
  size ← le_u64 bytes 0
  alloced_size ← le_u64 bytes 8
  default_crypto_id ← le_u64 bytes 16
  total_bytes_written ← le_u64 bytes 24
  total_bytes_read ← le_u64 bytes 32
  ok (record {
    size = size;
    alloced_size = alloced_size;
    default_crypto_id = default_crypto_id;
    total_bytes_written = total_bytes_written;
    total_bytes_read = total_bytes_read;
  })
