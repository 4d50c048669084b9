-- ===== src/Object.antt =====
-- crates/apfs-fastindex/src/object.rs: the header of an APFS object, and the one gate that every
-- block passes before its body is trusted.
pub mod Gate
pub mod TypeWord
use apfs_fastindex.Base.{
  ℕ, ◌<◌, bit_and, Bool, true, false, not, ◌&&◌, ◌||◌, Option, none, some, List, [], ◌∷◌, ◌++◌,
  length, ltb, ◌==◌, if◌then◌else◌,
}
use apfs_fastindex.Outcome.{
  Outcome, ok, ◌>>=◌, ◌>>◌, reject_if, object_too_short, checksum_mismatch, wrong_object_type,
  not_virtual, not_physical, not_ephemeral, encrypted_object, noheader_object, oid_not_paddr,
  newer_than_scan_state,
}
use apfs_fastindex.BlockIo.{le_u32, le_u64, checksum_matches}

abbrev pub object_type_mask : ℕ
object_type_mask = 0x0000_ffff

abbrev pub object_type_flags_mask : ℕ
object_type_flags_mask = 0xffff_0000

abbrev pub obj_ephemeral : ℕ
obj_ephemeral = 0x8000_0000

abbrev pub obj_physical : ℕ
obj_physical = 0x4000_0000

abbrev pub obj_noheader : ℕ
obj_noheader = 0x2000_0000

abbrev pub obj_encrypted : ℕ
obj_encrypted = 0x1000_0000

abbrev pub object_type_nx_superblock : ℕ
object_type_nx_superblock = 0x0001

abbrev pub object_type_btree : ℕ
object_type_btree = 0x0002

abbrev pub object_type_btree_node : ℕ
object_type_btree_node = 0x0003

abbrev pub object_type_omap : ℕ
object_type_omap = 0x000b

abbrev pub object_type_checkpoint_map : ℕ
object_type_checkpoint_map = 0x000c

abbrev pub obj_header_size : ℕ
obj_header_size = 32

pub record ObjectHeader : Type 0 where
  pub block_address : ℕ
  pub checksum : ℕ
  pub oid : ℕ
  pub xid : ℕ
  pub object_type_raw : ℕ
  pub object_type : ℕ
  pub object_type_flags : ℕ
  pub object_subtype : ℕ

unfoldable pub from_block : List ℕ → ℕ → Outcome ObjectHeader
from_block block block_address = do
  object_type_raw ← le_u32 block 0x18
  checksum ← le_u64 block 0x00
  oid ← le_u64 block 0x08
  xid ← le_u64 block 0x10
  object_subtype ← le_u32 block 0x1c
  ok (record {
    block_address = block_address;
    checksum = checksum;
    oid = oid;
    xid = xid;
    object_type_raw = object_type_raw;
    object_type = bit_and object_type_raw object_type_mask;
    object_type_flags = bit_and object_type_raw object_type_flags_mask;
    object_subtype = object_subtype;
  })

-- `flags & bit != 0`
abbrev pub has_bit : ℕ → ℕ → Bool
has_bit flags bit = not (bit_and flags bit == 0)

unfoldable pub is_physical : ObjectHeader → Bool
is_physical header = has_bit header.object_type_flags obj_physical

unfoldable pub is_ephemeral : ObjectHeader → Bool
is_ephemeral header = has_bit header.object_type_flags obj_ephemeral

unfoldable pub is_encrypted : ObjectHeader → Bool
is_encrypted header = has_bit header.object_type_flags obj_encrypted

unfoldable pub is_noheader : ObjectHeader → Bool
is_noheader header = has_bit header.object_type_flags obj_noheader

pub data ExpectedStorage : Type 0 where
  virtual ephemeral physical any : ExpectedStorage

pub record ObjectExpectation : Type 0 where
  pub object_type : ℕ
  pub storage : ExpectedStorage
  pub max_xid : Option ℕ
  pub require_oid_eq_paddr : Bool

abbrev pub expect_physical : ℕ → ObjectExpectation
expect_physical object_type = record {
  object_type = object_type;
  storage = ExpectedStorage.physical;
  max_xid = none;
  require_oid_eq_paddr = true;
}

abbrev pub expect_virtual : ℕ → Option ℕ → ObjectExpectation
expect_virtual object_type max_xid = record {
  object_type = object_type;
  storage = ExpectedStorage.virtual;
  max_xid = max_xid;
  require_oid_eq_paddr = false;
}

abbrev pub expect_ephemeral : ℕ → ObjectExpectation
expect_ephemeral object_type = record {
  object_type = object_type;
  storage = ExpectedStorage.ephemeral;
  max_xid = none;
  require_oid_eq_paddr = false;
}

abbrev pub expect_any_storage : ℕ → ObjectExpectation
expect_any_storage object_type = record {
  object_type = object_type;
  storage = ExpectedStorage.any;
  max_xid = none;
  require_oid_eq_paddr = false;
}

unfoldable pub check_storage : ExpectedStorage → ObjectHeader → Outcome (Unit {0})
check_storage virtual header = reject_if (is_physical header || is_ephemeral header) not_virtual
check_storage physical header = reject_if (not (is_physical header)) not_physical
check_storage ephemeral header = reject_if (not (is_ephemeral header)) not_ephemeral
check_storage any header = ok tt

unfoldable pub check_xid : Option ℕ → ObjectHeader → Outcome (Unit {0})
check_xid none header = ok tt
check_xid (some max_xid) header = reject_if (ltb max_xid header.xid) newer_than_scan_state

-- The gates of `validate_object_block` on the parsed header.
unfoldable pub check_header : ObjectHeader → ℕ → ObjectExpectation → Outcome ObjectHeader
check_header header block_address expectation = do
  reject_if (not (header.object_type == expectation.object_type)) wrong_object_type
  check_storage expectation.storage header
  reject_if (is_encrypted header) encrypted_object
  reject_if (is_noheader header) noheader_object
  reject_if (expectation.require_oid_eq_paddr && not (header.oid == block_address)) oid_not_paddr
  check_xid expectation.max_xid header
  ok header

unfoldable pub validate_object_block : List ℕ → ℕ → ObjectExpectation → Outcome ObjectHeader
validate_object_block block block_address expectation = do
  reject_if (ltb (length block) obj_header_size) object_too_short
  matches ← checksum_matches block
  reject_if (not matches) checksum_mismatch
  header ← from_block block block_address
  check_header header block_address expectation

-- The words that `flags_summary` lists.
pub data StorageWord : Type 0 where
  physical ephemeral virtual encrypted noheader : StorageWord

unfoldable pub flags_summary : ObjectHeader → List StorageWord
flags_summary header =
    (if is_physical header
      then StorageWord.physical ∷ []
      else if is_ephemeral header
      then StorageWord.ephemeral ∷ []
      else if header.object_type_flags == 0
      then StorageWord.virtual ∷ []
      else [])
    ++ (if is_encrypted header then StorageWord.encrypted ∷ [] else [])
    ++ (if is_noheader header then StorageWord.noheader ∷ [] else [])
