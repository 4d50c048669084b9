-- ===== src/FsRecords.antt =====
-- crates/apfs-fastindex/src/fs_records.rs: the walk of a file-system tree, which decodes and counts
-- its records. The tree is virtual: an index node holds oids that go through the volume's object map.
pub mod Counts
pub mod Kept
pub mod Walk
use apfs_fastindex.Base.{
  ℕ, zero, suc, ◌+◌, ◌/◌, ◌%◌, ◌^◌, Bool, true, false, not, ◌&&◌, ◌||◌, Option, none, some, List,
  [], ◌∷◌, ◌++◌, length, ltb, leb, ◌==◌, if◌then◌else◌, bit_and,
}
use apfs_fastindex.Outcome.{
  Outcome, ok, err, panic, hang, ◌>>=◌, ◌>>◌, reject_if, key_too_short, fs_tree_depth_exceeded,
  fs_tree_cycle, fs_tree_fixed, fs_child_too_short, fs_child_unmapped,
}
use apfs_fastindex.BlockIo.{Reader, le_u64}
use apfs_fastindex.Object.{ObjectHeader, ExpectedStorage}
use apfs_fastindex.Btree.{BtreeNode, parse, read_btree_node}
use apfs_fastindex.Omap.{max_tree_depth, OmapResolver, contains}
use apfs_fastindex.Omap.Summarize.{add_one}
use apfs_fastindex.RecordBody.{
  Family, FsRecordRow, record_family_name, fs_object_id_mask, fs_record_type_shift,
}
use apfs_fastindex.RecordBody.Row.{decode_fs_record}
use apfs_fastindex.TreeWalk.{entries_loop, child_oids, resolve_child, descend}

abbrev pub fs_tree_storage : ExpectedStorage
fs_tree_storage = ExpectedStorage.virtual

pub record FamilyCount : Type 0 where
  pub raw_type : ℕ
  pub name : Family
  pub count : ℕ
  pub in_v1_namespace_scope : Bool

-- The notes of the walk, with the numbers that they print.
pub data DumpNote : Type 0 where
  newer_node : ℕ → ℕ → DumpNote
  unknown_type : ℕ → ℕ → ℕ → DumpNote

-- `DumpState` without the two parameters that never change, and with `visited`. A `BTreeMap` is the
-- list of its entries in the order of their keys; of the object ids only the set is kept.
pub record DumpState : Type 0 where
  pub leaf_node_count : ℕ
  pub index_node_count : ℕ
  pub leaf_record_count : ℕ
  pub family_counts : List (ℕ × ℕ)
  pub unsupported_record_count : ℕ
  pub unique_object_ids : List ℕ
  pub validation_notes : List DumpNote
  pub records : List FsRecordRow
  pub visited : List ℕ

pub record FsRecordDump : Type 0 where
  pub volume_index : ℕ
  pub volume_oid : ℕ
  pub root_paddr : ℕ
  pub leaf_node_count : ℕ
  pub index_node_count : ℕ
  pub leaf_record_count : ℕ
  pub family_counts : List FamilyCount
  pub unsupported_record_count : ℕ
  pub unique_object_ids : ℕ
  pub max_xid : ℕ
  pub validation_notes : List DumpNote
  pub records : List FsRecordRow

unfoldable pub is_known_record_family : ℕ → Bool
is_known_record_family raw_type = leb 0x1 raw_type && leb raw_type 0xd

unfoldable pub family_in_v1_namespace_scope : ℕ → Bool
family_in_v1_namespace_scope raw_type =
    raw_type == 0x3
    || raw_type == 0x4
    || raw_type == 0x5
    || raw_type == 0x6
    || raw_type == 0x9
    || raw_type == 0xc

-- `*counts.entry(raw_type).or_insert(0) += 1`
unfoldable pub count_family : ℕ → List (ℕ × ℕ) → List (ℕ × ℕ)
count_family raw_type [] = (raw_type, 1) ∷ []
count_family raw_type ((t, n) ∷ counts) =
    let rest = count_family raw_type counts in
    if ltb raw_type t
    then (raw_type, 1) ∷ (t, n) ∷ counts
    else if raw_type == t
    then (t, add_one n) ∷ counts
    else (t, n) ∷ rest

-- `unique_object_ids.insert(object_id, ())`
unfoldable pub insert_id : ℕ → List ℕ → List ℕ
insert_id object_id ids = if contains ids object_id then ids else object_id ∷ ids

-- What a record adds to the counters, whatever its family.
abbrev pub count_record : ℕ → ℕ → DumpState → DumpState
count_record raw_type object_id state = record {
  leaf_node_count = state.leaf_node_count;
  index_node_count = state.index_node_count;
  leaf_record_count = add_one state.leaf_record_count;
  family_counts = count_family raw_type state.family_counts;
  unsupported_record_count = state.unsupported_record_count;
  unique_object_ids = insert_id object_id state.unique_object_ids;
  validation_notes = state.validation_notes;
  records = state.records;
  visited = state.visited;
}

-- A record of a family that is not known is counted and noted.
abbrev pub count_unsupported : DumpNote → DumpState → DumpState
count_unsupported note state = record {
  leaf_node_count = state.leaf_node_count;
  index_node_count = state.index_node_count;
  leaf_record_count = state.leaf_record_count;
  family_counts = state.family_counts;
  unsupported_record_count = add_one state.unsupported_record_count;
  unique_object_ids = state.unique_object_ids;
  validation_notes = state.validation_notes ++ (note ∷ []);
  records = state.records;
  visited = state.visited;
}

abbrev pub push_row : FsRecordRow → DumpState → DumpState
push_row row state = record {
  leaf_node_count = state.leaf_node_count;
  index_node_count = state.index_node_count;
  leaf_record_count = state.leaf_record_count;
  family_counts = state.family_counts;
  unsupported_record_count = state.unsupported_record_count;
  unique_object_ids = state.unique_object_ids;
  validation_notes = state.validation_notes;
  records = state.records ++ (row ∷ []);
  visited = state.visited;
}

-- The note of a node that is newer than the scan.
abbrev pub note_node : Bool → ℕ → ℕ → List DumpNote → List DumpNote
note_node newer paddr xid notes = if newer then notes ++ (newer_node paddr xid ∷ []) else notes

-- The visit of a node: its address, the note, and its counter.
abbrev pub visit_node : Bool → Bool → ℕ → ℕ → DumpState → DumpState
visit_node newer is_leaf paddr xid state = record {
  leaf_node_count = if is_leaf then add_one state.leaf_node_count else state.leaf_node_count;
  index_node_count = if is_leaf then state.index_node_count else add_one state.index_node_count;
  leaf_record_count = state.leaf_record_count;
  family_counts = state.family_counts;
  unsupported_record_count = state.unsupported_record_count;
  unique_object_ids = state.unique_object_ids;
  validation_notes = note_node newer paddr xid state.validation_notes;
  records = state.records;
  visited = paddr ∷ state.visited;
}

-- The rows of the report, in the order of the types.
unfoldable pub family_rows : List (ℕ × ℕ) → List FamilyCount
family_rows [] = []
family_rows ((t, n) ∷ counts) =
    record {
      raw_type = t;
      name = record_family_name t;
      count = n;
      in_v1_namespace_scope = family_in_v1_namespace_scope t;
    }
    ∷ family_rows counts

module _ (from_utf8 : List ℕ → Option (List ℕ)) where
  -- The body of the loop over the entries of a leaf.
  unfoldable pub add_record : ℕ → ℕ → List ℕ → List ℕ → DumpState → Outcome DumpState
  add_record paddr index key value state = do
    reject_if (ltb (length key) 8) key_too_short
    key_word ← le_u64 key 0
    let object_id = bit_and key_word fs_object_id_mask
    let raw_type = key_word / 2 ^ fs_record_type_shift % 256
    let counted = count_record raw_type object_id state
    if not (is_known_record_family raw_type)
        then ok (count_unsupported (unknown_type paddr index raw_type) counted)
        else (do row ← decode_fs_record from_utf8 paddr index key value; ok (push_row row counted))

  module _ (reader : Reader) (block_size max_xid : ℕ) (volume_omap : OmapResolver) where
    unfoldable pub walk_fs_node : ℕ → ℕ → Bool → ℕ → DumpState → Outcome DumpState
    walk_fs_node zero paddr is_root depth state = hang
    walk_fs_node (suc fuel) paddr is_root depth state =
        let walk_child =
          λ (child : ℕ) (s : DumpState). walk_fs_node fuel child false (depth + 1) s in
        reject_if (leb max_tree_depth depth) fs_tree_depth_exceeded
        >> (reject_if (contains state.visited paddr) fs_tree_cycle
            >> (read_btree_node reader block_size paddr is_root fs_tree_storage (some max_xid)
                >>= λ (block, header). parse block block_size >>= λ node.
                    reject_if node.fixed_kv_size fs_tree_fixed
                    >> (let newer = ltb max_xid header.xid in
                        let visited_state = visit_node newer node.is_leaf paddr header.xid state in
                        if node.is_leaf
                        then entries_loop (add_record paddr) node node.nkeys 0 visited_state
                        else (do
                          children ← child_oids fs_child_too_short node node.nkeys 0
                          descend
                              (resolve_child fs_child_unmapped volume_omap reader block_size
                                max_xid)
                              walk_child children visited_state))))

  -- The test of `depth` ends the descent at the 129th level. The report's sort finds the rows in
  -- order already.
  unfoldable pub dump_fs_records : Reader → ℕ → ℕ → ℕ → ℕ → ℕ → OmapResolver → Outcome FsRecordDump
  dump_fs_records reader block_size volume_index volume_oid root_paddr max_xid volume_omap = do
    state ←
        walk_fs_node reader block_size max_xid volume_omap (suc max_tree_depth) root_paddr true 0
          (record {
            leaf_node_count = 0;
            index_node_count = 0;
            leaf_record_count = 0;
            family_counts = [];
            unsupported_record_count = 0;
            unique_object_ids = [];
            validation_notes = [];
            records = [];
            visited = [];
          })
    ok (record {
      volume_index = volume_index;
      volume_oid = volume_oid;
      root_paddr = root_paddr;
      leaf_node_count = state.leaf_node_count;
      index_node_count = state.index_node_count;
      leaf_record_count = state.leaf_record_count;
      family_counts = family_rows state.family_counts;
      unsupported_record_count = state.unsupported_record_count;
      unique_object_ids = length state.unique_object_ids % 2 ^ 32;
      max_xid = max_xid;
      validation_notes = state.validation_notes;
      records = state.records;
    })
