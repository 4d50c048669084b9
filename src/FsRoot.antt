-- ===== src/FsRoot.antt =====
-- crates/apfs-fastindex/src/lib.rs: the check of the root of a volume's file-system tree, which the
-- volume's object map gave.
pub mod Accepted
use apfs_fastindex.Base.{ℕ, Bool, false, not, some, ◌==◌}
use apfs_fastindex.Outcome.{
  Outcome, ok, err, panic, hang, ◌>>=◌, ◌>>◌, reject_if, fs_root_wrong_oid, fs_root_wrong_subtype,
}
use apfs_fastindex.BlockIo.{Reader, read_block}
use apfs_fastindex.Object.{
  object_type_btree, ExpectedStorage, ObjectExpectation, validate_object_block,
}
use apfs_fastindex.Omap.{OmapValue}

abbrev pub object_type_fstree : ℕ
object_type_fstree = 0x000e

abbrev pub expect_fs_root : ℕ → ObjectExpectation
expect_fs_root max_xid = record {
  object_type = object_type_btree;
  storage = ExpectedStorage.virtual;
  max_xid = some max_xid;
  require_oid_eq_paddr = false;
}

unfoldable pub validate_fs_root_header : Reader → ℕ → OmapValue → ℕ → Outcome (Unit {0})
validate_fs_root_header reader block_size root_value max_xid = do
  block ← read_block reader root_value.paddr block_size
  header ← validate_object_block block root_value.paddr (expect_fs_root max_xid)
  reject_if (not (header.oid == root_value.oid)) fs_root_wrong_oid
  reject_if (not (header.object_subtype == object_type_fstree)) fs_root_wrong_subtype
