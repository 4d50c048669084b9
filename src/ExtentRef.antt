-- ===== src/ExtentRef.antt =====
-- crates/apfs-fastindex/src/extent_ref.rs: the walk of the extent-reference tree of a volume, which
-- lists the physical extents. The tree is physical or virtual.
pub mod Kept
pub mod Extents
use apfs_fastindex.Base.{
  ℕ, zero, suc, ◌+◌, ◌/◌, ◌%◌, ◌^◌, Bool, true, false, not, Option, none, some, List, [], ◌∷◌, ◌++◌,
  length, ltb, leb, ◌==◌, if◌then◌else◌, bit_and,
}
use apfs_fastindex.Base.Int.{ℤ, i32_of_word}
use apfs_fastindex.Outcome.{
  Outcome, ok, err, panic, hang, invalid_object, ◌>>=◌, ◌>>◌, reject_if, extent_depth_exceeded,
  extent_cycle, extent_fixed, extent_child_too_short, extent_child_unmapped,
  extent_storage_unsupported, extent_key_too_short, extent_value_too_short,
}
use apfs_fastindex.BlockIo.{Reader, le_u32, le_u64}
use apfs_fastindex.Object.{ExpectedStorage}
use apfs_fastindex.Btree.{parse, read_btree_node}
use apfs_fastindex.Omap.{max_tree_depth, OmapResolver, contains}
use apfs_fastindex.Omap.Summarize.{add_one}
use apfs_fastindex.RecordBody.{fs_object_id_mask, fs_record_type_shift}
use apfs_fastindex.TreeWalk.{entries_loop, child_oids, resolve_child, descend}

abbrev pub raw_type_extent_reference : ℕ
raw_type_extent_reference = 0x2

abbrev pub phys_ext_key_size : ℕ
phys_ext_key_size = 8

abbrev pub phys_ext_val_size : ℕ
phys_ext_val_size = 20

pub data ExtentRefStorage : Type 0 where
  physical virtual : ExtentRefStorage

unfoldable pub from_type_raw : ℕ → Outcome ExtentRefStorage
from_type_raw type_raw =
    let storage_class = bit_and (type_raw / 2 ^ 24) 0xff in
    if storage_class == 0x00
    then ok ExtentRefStorage.virtual
    else if storage_class == 0x40
    then ok ExtentRefStorage.physical
    else err (invalid_object extent_storage_unsupported)

unfoldable pub expected_storage : ExtentRefStorage → ExpectedStorage
expected_storage ExtentRefStorage.physical = ExpectedStorage.physical
expected_storage ExtentRefStorage.virtual = ExpectedStorage.virtual

pub record PhysExtRecord : Type 0 where
  pub paddr_first : ℕ
  pub length_blocks : ℕ
  pub kind : ℕ
  pub owning_obj_id : ℕ
  pub refcnt : ℤ

-- The notes of the walk, with the numbers that they print.
pub data ExtentNote : Type 0 where
  newer_node : ℕ → ℕ → ExtentNote
  unexpected_type : ℕ → ℕ → ℕ → ExtentNote

-- `DumpState` without the parameters that never change, and with `visited`.
pub record ExtentDumpState : Type 0 where
  pub leaf_node_count : ℕ
  pub index_node_count : ℕ
  pub leaf_record_count : ℕ
  pub unsupported_record_count : ℕ
  pub records : List PhysExtRecord
  pub validation_notes : List ExtentNote
  pub visited : List ℕ

pub record ExtentRefDump : Type 0 where
  pub root_paddr : ℕ
  pub storage_class : ExtentRefStorage
  pub leaf_node_count : ℕ
  pub index_node_count : ℕ
  pub leaf_record_count : ℕ
  pub unsupported_record_count : ℕ
  pub max_xid : ℕ
  pub records : List PhysExtRecord
  pub validation_notes : List ExtentNote

abbrev pub count_unexpected : ExtentNote → ExtentDumpState → ExtentDumpState
count_unexpected note state = record {
  leaf_node_count = state.leaf_node_count;
  index_node_count = state.index_node_count;
  leaf_record_count = state.leaf_record_count;
  unsupported_record_count = add_one state.unsupported_record_count;
  records = state.records;
  validation_notes = state.validation_notes ++ (note ∷ []);
  visited = state.visited;
}

abbrev pub push_extent : PhysExtRecord → ExtentDumpState → ExtentDumpState
push_extent extent state = record {
  leaf_node_count = state.leaf_node_count;
  index_node_count = state.index_node_count;
  leaf_record_count = add_one state.leaf_record_count;
  unsupported_record_count = state.unsupported_record_count;
  records = state.records ++ (extent ∷ []);
  validation_notes = state.validation_notes;
  visited = state.visited;
}

abbrev pub note_extent_node : Bool → ℕ → ℕ → List ExtentNote → List ExtentNote
note_extent_node newer paddr xid notes =
    if newer then notes ++ (newer_node paddr xid ∷ []) else notes

-- The visit of a node: its address, the note, and its counter.
abbrev pub visit_extent_node : Bool → Bool → ℕ → ℕ → ExtentDumpState → ExtentDumpState
visit_extent_node newer is_leaf paddr xid state = record {
  leaf_node_count = if is_leaf then add_one state.leaf_node_count else state.leaf_node_count;
  index_node_count = if is_leaf then state.index_node_count else add_one state.index_node_count;
  leaf_record_count = state.leaf_record_count;
  unsupported_record_count = state.unsupported_record_count;
  records = state.records;
  validation_notes = note_extent_node newer paddr xid state.validation_notes;
  visited = paddr ∷ state.visited;
}

-- The body of the loop over the entries of a leaf.
unfoldable pub add_extent : ℕ → ℕ → List ℕ → List ℕ → ExtentDumpState → Outcome ExtentDumpState
add_extent paddr index key value state = do
  reject_if (ltb (length key) phys_ext_key_size) extent_key_too_short
  key_word ← le_u64 key 0
  let raw_type = key_word / 2 ^ fs_record_type_shift % 256
  if not (raw_type == raw_type_extent_reference)
      then ok (count_unexpected (unexpected_type paddr index raw_type) state)
      else (do
        reject_if (ltb (length value) phys_ext_val_size) extent_value_too_short
        len_and_kind ← le_u64 value 0
        owning_obj_id ← le_u64 value 8
        refcnt ← le_u32 value 16
        ok (
            push_extent
              (record {
                paddr_first = bit_and key_word fs_object_id_mask;
                length_blocks = bit_and len_and_kind fs_object_id_mask;
                kind = bit_and (len_and_kind / 2 ^ fs_record_type_shift % 256) 0xf;
                owning_obj_id = owning_obj_id;
                refcnt = i32_of_word refcnt;
              })
              state))

module _ (reader : Reader) (block_size max_xid : ℕ) (storage : ExtentRefStorage)
    (volume_omap : OmapResolver) where
  -- `let child_paddr = match state.storage`
  unfoldable pub extent_child : ExtentRefStorage → ℕ → Outcome ℕ
  extent_child ExtentRefStorage.physical child_oid = ok child_oid
  extent_child ExtentRefStorage.virtual child_oid =
      resolve_child extent_child_unmapped volume_omap reader block_size max_xid child_oid

  -- `walk_node`
  unfoldable pub walk_extent_node : ℕ → ℕ → Bool → ℕ → ExtentDumpState → Outcome ExtentDumpState
  walk_extent_node zero paddr is_root depth state = hang
  walk_extent_node (suc fuel) paddr is_root depth state =
      let walk_child =
        λ (child : ℕ) (s : ExtentDumpState). walk_extent_node fuel child false (depth + 1) s in
      reject_if (leb max_tree_depth depth) extent_depth_exceeded
      >> (reject_if (contains state.visited paddr) extent_cycle
          >> (read_btree_node reader block_size paddr is_root (expected_storage storage)
                (some max_xid)
              >>= λ (block, header). parse block block_size >>= λ node.
                  reject_if node.fixed_kv_size extent_fixed
                  >> (let newer = ltb max_xid header.xid in
                      let visited_state =
                        visit_extent_node newer node.is_leaf paddr header.xid state in
                      if node.is_leaf
                      then entries_loop (add_extent paddr) node node.nkeys 0 visited_state
                      else (do
                        children ← child_oids extent_child_too_short node node.nkeys 0
                        descend (extent_child storage) walk_child children visited_state))))

-- The test of `depth` ends the descent at the 129th level.
unfoldable pub dump_extent_refs :
    Reader → ℕ → ℕ → ExtentRefStorage → ℕ → OmapResolver → Outcome ExtentRefDump
dump_extent_refs reader block_size root_paddr storage max_xid volume_omap = do
  state ←
      walk_extent_node reader block_size max_xid storage volume_omap (suc max_tree_depth) root_paddr
        true 0
        (record {
          leaf_node_count = 0;
          index_node_count = 0;
          leaf_record_count = 0;
          unsupported_record_count = 0;
          records = [];
          validation_notes = [];
          visited = [];
        })
  ok (record {
    root_paddr = root_paddr;
    storage_class = storage;
    leaf_node_count = state.leaf_node_count;
    index_node_count = state.index_node_count;
    leaf_record_count = state.leaf_record_count;
    unsupported_record_count = state.unsupported_record_count;
    max_xid = max_xid;
    records = state.records;
    validation_notes = state.validation_notes;
  })
