-- ===== src/Omap/Summarize.antt =====
-- crates/apfs-fastindex/src/omap.rs: the walk of a whole object map, `OmapResolver::summarize`.
pub mod Kept
pub mod Totals
use apfs_fastindex.Base.{
  ℕ, zero, suc, ◌+◌, ◌^◌, ◌%◌, Bool, true, false, not, Option, none, some, List, [], ◌∷◌, ◌++◌,
  length, ltb, leb, if◌then◌else◌,
}
use apfs_fastindex.Outcome.{
  Outcome, ok, err, panic, hang, ◌>>=◌, ◌>>◌, reject_if, omap_depth_exceeded, omap_cycle,
  omap_not_fixed,
}
use apfs_fastindex.BlockIo.{Reader, le_u32, le_u64}
use apfs_fastindex.Object.{has_bit}
use apfs_fastindex.Btree.{BtreeNode, parse, entry, key_bytes, value_bytes, read_btree_node}
use apfs_fastindex.Omap.{
  max_tree_depth, omap_tree_storage, omap_key_size, omap_val_size, omap_internal_val_size,
  omap_val_deleted, omap_val_saved, omap_val_encrypted, omap_val_noheader,
  omap_val_crypto_generation, OmapPhysSummary, OmapResolver, whole_u64, contains,
}

pub record OmapDumpEntry : Type 0 where
  pub oid : ℕ
  pub xid : ℕ
  pub paddr : ℕ
  pub flags : ℕ
  pub size : ℕ

-- `BTreeMap<&'static str, u32>` over the five names that it can have; `none` is a missing key.
pub record FlagCounts : Type 0 where
  pub crypto_generation : Option ℕ
  pub deleted : Option ℕ
  pub encrypted : Option ℕ
  pub noheader : Option ℕ
  pub saved : Option ℕ

-- `+= 1` on 32 bits, as a release build computes it
abbrev pub add_one : ℕ → ℕ
add_one n = (n + 1) % 2 ^ 32

-- `*counts.entry(name).or_insert(0) += 1`
abbrev pub count_up : Option ℕ → Option ℕ
count_up none = some 1
count_up (some n) = some (add_one n)

abbrev pub count_if : Bool → Option ℕ → Option ℕ
count_if true count = count_up count
count_if false count = count

unfoldable pub classify_flags : ℕ → FlagCounts → FlagCounts
classify_flags flags counts = record {
  crypto_generation = count_if (has_bit flags omap_val_crypto_generation) counts.crypto_generation;
  deleted = count_if (has_bit flags omap_val_deleted) counts.deleted;
  encrypted = count_if (has_bit flags omap_val_encrypted) counts.encrypted;
  noheader = count_if (has_bit flags omap_val_noheader) counts.noheader;
  saved = count_if (has_bit flags omap_val_saved) counts.saved;
}

-- What the walk changes: the fields of `SummarizeState` that it writes, and `visited`.
pub record SummarizeState : Type 0 where
  pub leaf_node_count : ℕ
  pub index_node_count : ℕ
  pub mapping_count : ℕ
  pub max_observed_xid : ℕ
  pub flagged_values : FlagCounts
  pub samples : List OmapDumpEntry
  pub visited : List ℕ

pub record OmapSummary : Type 0 where
  pub phys : OmapPhysSummary
  pub leaf_node_count : ℕ
  pub index_node_count : ℕ
  pub mapping_count : ℕ
  pub max_observed_xid : ℕ
  pub flagged_values : FlagCounts
  pub sample_mappings : List OmapDumpEntry

abbrev pub visit : ℕ → SummarizeState → SummarizeState
visit paddr state = record {
  leaf_node_count = state.leaf_node_count;
  index_node_count = state.index_node_count;
  mapping_count = state.mapping_count;
  max_observed_xid = state.max_observed_xid;
  flagged_values = state.flagged_values;
  samples = state.samples;
  visited = paddr ∷ state.visited;
}

abbrev pub count_node : Bool → SummarizeState → SummarizeState
count_node is_leaf state = record {
  leaf_node_count = if is_leaf then add_one state.leaf_node_count else state.leaf_node_count;
  index_node_count = if is_leaf then state.index_node_count else add_one state.index_node_count;
  mapping_count = state.mapping_count;
  max_observed_xid = state.max_observed_xid;
  flagged_values = state.flagged_values;
  samples = state.samples;
  visited = state.visited;
}

module _ (max_xid sample_limit : ℕ) where
  -- What one mapping of a leaf adds.
  unfoldable pub add_mapping : OmapDumpEntry → SummarizeState → SummarizeState
  add_mapping mapping state =
      let counted = leb mapping.xid max_xid in
      record {
        leaf_node_count = state.leaf_node_count;
        index_node_count = state.index_node_count;
        mapping_count = if counted then add_one state.mapping_count else state.mapping_count;
        max_observed_xid =
            if counted
            then (if ltb state.max_observed_xid mapping.xid
                then mapping.xid
                else state.max_observed_xid)
            else state.max_observed_xid;
        flagged_values = classify_flags mapping.flags state.flagged_values;
        samples =
            if counted
            then (if ltb (length state.samples) sample_limit
                then state.samples ++ (mapping ∷ [])
                else state.samples)
            else state.samples;
        visited = state.visited;
      }

module _ (reader : Reader) (block_size max_xid sample_limit : ℕ) where
  -- `for index in 0..node.nkeys` of a leaf, with the rounds that are left
  unfoldable pub mappings_loop : BtreeNode → ℕ → ℕ → SummarizeState → Outcome SummarizeState
  mappings_loop node zero index state = ok state
  mappings_loop node (suc left) index state = do
    slot ← entry node index
    key ← key_bytes node slot omap_key_size
    value ← value_bytes node slot omap_val_size
    oid ← le_u64 key 0
    xid ← le_u64 key 8
    flags ← le_u32 value 0
    size ← le_u32 value 4
    val_paddr ← le_u64 value 8
    mappings_loop node left (index + 1) (
        add_mapping max_xid sample_limit
          (record { oid = oid; xid = xid; paddr = val_paddr; flags = flags; size = size }) state)

  -- The loop over the children of a node, given the walk of a child.
  unfoldable pub children_loop :
      (ℕ → SummarizeState → Outcome SummarizeState)
      → BtreeNode
      → ℕ
      → ℕ
      → SummarizeState
      → Outcome SummarizeState
  children_loop walk_child node zero index state = ok state
  children_loop walk_child node (suc left) index state = do
    slot ← entry node index
    value ← value_bytes node slot omap_internal_val_size
    child_paddr ← whole_u64 value
    state ← walk_child child_paddr state
    children_loop walk_child node left (index + 1) state

  unfoldable pub walk_node : ℕ → ℕ → Bool → ℕ → SummarizeState → Outcome SummarizeState
  walk_node zero paddr is_root depth state = hang
  walk_node (suc fuel) paddr is_root depth state =
      let walk_child =
        λ (child : ℕ) (s : SummarizeState). walk_node fuel child false (depth + 1) s in
      reject_if (leb max_tree_depth depth) omap_depth_exceeded
      >> (reject_if (contains state.visited paddr) omap_cycle
          >> (read_btree_node reader block_size paddr is_root omap_tree_storage none
              >>= λ (block, header). parse block block_size >>= λ node.
                  reject_if (not node.fixed_kv_size) omap_not_fixed
                  >> (if node.is_leaf
                      then mappings_loop node node.nkeys 0 (count_node true (visit paddr state))
                      else children_loop walk_child node node.nkeys 0
                          (count_node false (visit paddr state)))))

-- The test of `depth` ends the descent at the 129th level.
unfoldable pub summarize : OmapResolver → Reader → ℕ → ℕ → ℕ → Outcome OmapSummary
summarize resolver reader block_size max_xid sample_limit = do
  state ←
      walk_node reader block_size max_xid sample_limit (suc max_tree_depth) resolver.tree_root_paddr
        true 0
        (record {
          leaf_node_count = 0;
          index_node_count = 0;
          mapping_count = 0;
          max_observed_xid = 0;
          flagged_values = record {
            crypto_generation = none;
            deleted = none;
            encrypted = none;
            noheader = none;
            saved = none;
          };
          samples = [];
          visited = [];
        })
  ok (record {
    phys = resolver.phys;
    leaf_node_count = state.leaf_node_count;
    index_node_count = state.index_node_count;
    mapping_count = state.mapping_count;
    max_observed_xid = state.max_observed_xid;
    flagged_values = state.flagged_values;
    sample_mappings = state.samples;
  })
