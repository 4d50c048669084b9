-- ===== src/Btree.antt =====
-- crates/apfs-fastindex/src/btree.rs: the layout of a B-tree node, its table of contents (TOC),
-- and the bytes of its keys and values. `usize` has 64 bits.
pub mod Geometry
pub mod Slots
use apfs_fastindex.Base.{
  ℕ, ◌+◌, ◌-◌, ◌*◌, ◌%◌, ◌^◌, ◌<◌, Bool, true, false, not, ◌||◌, Option, none, some, List, length,
  ltb, leb, if◌then◌else◌,
}
use apfs_fastindex.Outcome.{
  Outcome, ok, ◌>>=◌, ◌>>◌, reject_if, checked, checked_sub, node_too_short, key_count_overflow,
  key_count_past_toc, toc_offset_overflow, key_area_overflow, root_too_small, key_area_overlaps,
  entry_out_of_range, toc_entry_overflow, toc_entry_past_toc, key_offset_overflow,
  value_offset_underflow, key_end_overflow, key_past_block, value_end_overflow, value_past_block,
}
use apfs_fastindex.BlockIo.{Reader, slice, le_u16, le_u32, add_u64, read_block}
use apfs_fastindex.Object.{
  obj_header_size, has_bit, object_type_btree, object_type_btree_node, ObjectHeader,
  ExpectedStorage, virtual, physical, ephemeral, any, validate_object_block,
}

abbrev pub btnode_root : ℕ
btnode_root = 0x0001

abbrev pub btnode_leaf : ℕ
btnode_leaf = 0x0002

abbrev pub btnode_fixed_kv_size : ℕ
btnode_fixed_kv_size = 0x0004

abbrev pub btree_info_size : ℕ
btree_info_size = 40

pub record BtreeNode : Type 0 where
  pub block : List ℕ
  pub block_size : ℕ
  pub flags : ℕ
  pub level : ℕ
  pub nkeys : ℕ
  pub data_offset : ℕ
  pub toc_offset : ℕ
  pub toc_len : ℕ
  pub key_area_offset : ℕ
  pub value_area_end : ℕ
  pub fixed_kv_size : Bool
  pub is_root : Bool
  pub is_leaf : Bool

abbrev pub toc_entry_size : Bool → ℕ
toc_entry_size fixed = if fixed then 4 else 8

unfoldable pub parse : List ℕ → ℕ → Outcome BtreeNode
parse block block_size = do
  reject_if (ltb block_size (obj_header_size + 24) || ltb (length block) block_size) node_too_short
  flags ← le_u16 block 0x20
  level ← le_u16 block 0x22
  nkeys ← le_u32 block 0x24
  toc_off_rel ← le_u16 block 0x28
  toc_len ← le_u16 block 0x2a
  let fixed_kv_size = has_bit flags btnode_fixed_kv_size
  required_toc_len ← checked (nkeys * toc_entry_size fixed_kv_size) key_count_overflow
  reject_if (ltb toc_len required_toc_len) key_count_past_toc
  let data_offset = obj_header_size + 24
  toc_offset ← checked (data_offset + toc_off_rel) toc_offset_overflow
  key_area_offset ← checked (toc_offset + toc_len) key_area_overflow
  let is_root = has_bit flags btnode_root
  value_area_end ←
      (if is_root then checked_sub block_size btree_info_size root_too_small else ok block_size)
  reject_if (ltb value_area_end key_area_offset) key_area_overlaps
  ok (record {
    block = block;
    block_size = block_size;
    flags = flags;
    level = level;
    nkeys = nkeys;
    data_offset = data_offset;
    toc_offset = toc_offset;
    toc_len = toc_len;
    key_area_offset = key_area_offset;
    value_area_end = value_area_end;
    fixed_kv_size = fixed_kv_size;
    is_root = is_root;
    is_leaf = has_bit flags btnode_leaf;
  })

pub record BtreeEntry : Type 0 where
  pub key_offset : ℕ
  pub key_len : Option ℕ
  pub value_start : ℕ
  pub value_len : Option ℕ

unfoldable pub fixed_entry : BtreeNode → ℕ → Outcome BtreeEntry
fixed_entry node index = do
  entry_off ← checked (node.toc_offset + 4 * index) toc_entry_overflow
  reject_if (ltb (add_u64 node.toc_offset node.toc_len) (add_u64 entry_off 4)) toc_entry_past_toc
  k_off ← le_u16 node.block entry_off
  v_off ← le_u16 node.block (entry_off + 2)
  key_start ← checked (node.key_area_offset + k_off) key_offset_overflow
  value_start ← checked_sub node.value_area_end v_off value_offset_underflow
  ok (record {
    key_offset = key_start;
    key_len = none;
    value_start = value_start;
    value_len = none;
  })

unfoldable pub variable_entry : BtreeNode → ℕ → Outcome BtreeEntry
variable_entry node index = do
  entry_off ← checked (node.toc_offset + 8 * index) toc_entry_overflow
  reject_if (ltb (add_u64 node.toc_offset node.toc_len) (add_u64 entry_off 8)) toc_entry_past_toc
  k_off ← le_u16 node.block entry_off
  k_len ← le_u16 node.block (entry_off + 2)
  v_off ← le_u16 node.block (entry_off + 4)
  v_len ← le_u16 node.block (entry_off + 6)
  key_start ← checked (node.key_area_offset + k_off) key_offset_overflow
  value_start ← checked_sub node.value_area_end v_off value_offset_underflow
  ok (record {
    key_offset = key_start;
    key_len = some k_len;
    value_start = value_start;
    value_len = some v_len;
  })

unfoldable pub entry : BtreeNode → ℕ → Outcome BtreeEntry
entry node index = do
  reject_if (leb node.nkeys index) entry_out_of_range
  if node.fixed_kv_size then fixed_entry node index else variable_entry node index

-- `unwrap_or`
abbrev pub unwrap_or : Option ℕ → ℕ → ℕ
unwrap_or none n = n
unwrap_or (some k) n = k

unfoldable pub key_bytes : BtreeNode → BtreeEntry → ℕ → Outcome (List ℕ)
key_bytes node entry fixed_key_size = do
  let len = unwrap_or entry.key_len fixed_key_size
  end ← checked (entry.key_offset + len) key_end_overflow
  reject_if (ltb (length node.block) end) key_past_block
  slice node.block entry.key_offset end

unfoldable pub value_bytes : BtreeNode → BtreeEntry → ℕ → Outcome (List ℕ)
value_bytes node entry fixed_value_size = do
  let len = unwrap_or entry.value_len fixed_value_size
  end ← checked (entry.value_start + len) value_end_overflow
  reject_if (ltb (length node.block) end) value_past_block
  slice node.block entry.value_start end

-- `matches!(storage, ExpectedStorage::Physical)`
abbrev pub is_physical_storage : ExpectedStorage → Bool
is_physical_storage virtual = false
is_physical_storage ephemeral = false
is_physical_storage physical = true
is_physical_storage any = false

unfoldable pub read_btree_node :
    Reader → ℕ → ℕ → Bool → ExpectedStorage → Option ℕ → Outcome (List ℕ × ObjectHeader)
read_btree_node reader block_size paddr is_root storage max_xid = do
  block ← read_block reader paddr block_size
  header ← validate_object_block block paddr (record {
    object_type = if is_root then object_type_btree else object_type_btree_node;
    storage = storage;
    max_xid = max_xid;
    require_oid_eq_paddr = is_physical_storage storage;
  })
  ok (block, header)
