-- ===== src/Omap.antt =====
-- crates/apfs-fastindex/src/omap.rs: opening an object map, and the lookup of `(oid, max_xid)` in
-- its B-tree.
pub mod Flags
pub mod Leaf
pub mod Search
pub mod Summarize
use apfs_fastindex.Base.{
  ℕ, zero, suc, ◌+◌, Bool, true, false, not, ◌&&◌, ◌||◌, Option, none, some, List, [], ◌∷◌, length,
  ltb, leb, ◌==◌, if◌then◌else◌, bit_and,
}
use apfs_fastindex.Outcome.{
  Outcome, ok, err, panic, hang, invalid_object, ◌>>=◌, ◌>>◌, reject_if, omap_flags_unsupported,
  omap_depth_exceeded, omap_cycle, omap_not_fixed, internal_without_keys, omap_value_unsupported,
}
use apfs_fastindex.BlockIo.{Reader, from_le_bytes, le_u32, le_u64, read_block}
use apfs_fastindex.Object.{
  has_bit, expect_physical, object_type_omap, ExpectedStorage, validate_object_block,
}
use apfs_fastindex.Btree.{BtreeNode, parse, entry, key_bytes, value_bytes, read_btree_node}

-- crates/apfs-fastindex/src/lib.rs
abbrev pub max_tree_depth : ℕ
max_tree_depth = 128

abbrev pub omap_tree_storage : ExpectedStorage
omap_tree_storage = ExpectedStorage.physical

abbrev pub omap_key_size : ℕ
omap_key_size = 16

abbrev pub omap_val_size : ℕ
omap_val_size = 16

abbrev pub omap_internal_val_size : ℕ
omap_internal_val_size = 8

abbrev pub omap_val_deleted : ℕ
omap_val_deleted = 0x1

abbrev pub omap_val_saved : ℕ
omap_val_saved = 0x2

abbrev pub omap_val_encrypted : ℕ
omap_val_encrypted = 0x4

abbrev pub omap_val_noheader : ℕ
omap_val_noheader = 0x8

abbrev pub omap_val_crypto_generation : ℕ
omap_val_crypto_generation = 0x10

-- `!OMAP_VAL_KNOWN_BITS` and `!OMAP_PHYS_ALLOWED_BITS` on 32 bits
abbrev pub omap_val_unknown_bits : ℕ
omap_val_unknown_bits = 0xffff_ffe0

abbrev pub omap_phys_unknown_bits : ℕ
omap_phys_unknown_bits = 0xffff_fffe

-- The reasons that the two tests of flags give.
pub data FlagReason : Type 0 where
  encrypted noheader crypto_generation unknown_value_bits : FlagReason
  encrypting decrypting keyrolling crypto_generation_flag unknown_phys_bits : FlagReason

unfoldable pub value_flag_hard_stop_reason : ℕ → Option FlagReason
value_flag_hard_stop_reason flags =
    if has_bit flags omap_val_encrypted
    then some encrypted
    else if has_bit flags omap_val_noheader
    then some noheader
    else if has_bit flags omap_val_crypto_generation
    then some crypto_generation
    else if has_bit flags omap_val_unknown_bits
    then some unknown_value_bits
    else none

unfoldable pub phys_flag_hard_stop_reason : ℕ → Option FlagReason
phys_flag_hard_stop_reason flags =
    if has_bit flags 0x2
    then some encrypting
    else if has_bit flags 0x4
    then some decrypting
    else if has_bit flags 0x8
    then some keyrolling
    else if has_bit flags 0x10
    then some crypto_generation_flag
    else if has_bit flags omap_phys_unknown_bits
    then some unknown_phys_bits
    else none

abbrev pub is_some {ℓ} : {A : Type ℓ} → Option A → Bool
is_some none = false
is_some (some a) = true

pub record OmapPhysSummary : Type 0 where
  pub block_address : ℕ
  pub flags : ℕ
  pub snapshot_count : ℕ
  pub tree_type_raw : ℕ
  pub snapshot_tree_type_raw : ℕ
  pub tree_oid : ℕ
  pub snapshot_tree_oid : ℕ
  pub most_recent_snap : ℕ
  pub pending_revert_min : ℕ
  pub pending_revert_max : ℕ

pub record OmapResolver : Type 0 where
  pub phys : OmapPhysSummary
  pub tree_root_paddr : ℕ

-- `OmapResolver::open`
unfoldable pub open_omap : Reader → ℕ → ℕ → Outcome OmapResolver
open_omap reader block_size omap_paddr = do
  block ← read_block reader omap_paddr block_size
  header ← validate_object_block block omap_paddr (expect_physical object_type_omap)
  flags ← le_u32 block 0x20
  reject_if (is_some (phys_flag_hard_stop_reason flags)) omap_flags_unsupported
  snapshot_count ← le_u32 block 0x24
  tree_type_raw ← le_u32 block 0x28
  snapshot_tree_type_raw ← le_u32 block 0x2c
  tree_oid ← le_u64 block 0x30
  snapshot_tree_oid ← le_u64 block 0x38
  most_recent_snap ← le_u64 block 0x40
  pending_revert_min ← le_u64 block 0x48
  pending_revert_max ← le_u64 block 0x50
  ok (record {
    phys = record {
      block_address = omap_paddr;
      flags = flags;
      snapshot_count = snapshot_count;
      tree_type_raw = tree_type_raw;
      snapshot_tree_type_raw = snapshot_tree_type_raw;
      tree_oid = tree_oid;
      snapshot_tree_oid = snapshot_tree_oid;
      most_recent_snap = most_recent_snap;
      pending_revert_min = pending_revert_min;
      pending_revert_max = pending_revert_max;
    };
    tree_root_paddr = tree_oid;
  })

pub record OmapValue : Type 0 where
  pub oid : ℕ
  pub xid : ℕ
  pub paddr : ℕ
  pub flags : ℕ
  pub size : ℕ

-- `(oid, xid) <= (other_oid, other_xid)`, the order of pairs
abbrev pub key_leb : ℕ → ℕ → ℕ → ℕ → Bool
key_leb oid xid other_oid other_xid = ltb oid other_oid || oid == other_oid && leb xid other_xid

-- `u64::from_le_bytes(value.try_into().expect(..))`
unfoldable pub whole_u64 : List ℕ → Outcome ℕ
whole_u64 value = if length value == 8 then ok (from_le_bytes value) else panic

module _ (node : BtreeNode) (oid max_xid : ℕ) where
  -- `for index in 0..node.nkeys`, with the rounds that are left
  unfoldable pub internal_loop : ℕ → ℕ → Option ℕ → Outcome (Option ℕ)
  internal_loop zero index chosen = ok chosen
  internal_loop (suc left) index chosen = do
    slot ← entry node index
    key ← key_bytes node slot omap_key_size
    entry_oid ← le_u64 key 0
    entry_xid ← le_u64 key 8
    let rest = internal_loop left (index + 1) (some index)
    if key_leb entry_oid entry_xid oid max_xid then rest else ok chosen

  unfoldable pub leaf_loop : ℕ → ℕ → Option OmapValue → Outcome (Option OmapValue)
  leaf_loop zero index best = ok best
  leaf_loop (suc left) index best = do
    slot ← entry node index
    key ← key_bytes node slot omap_key_size
    entry_oid ← le_u64 key 0
    entry_xid ← le_u64 key 8
    if key_leb entry_oid entry_xid oid max_xid
        then (do
          value ← value_bytes node slot omap_val_size
          flags ← le_u32 value 0
          size ← le_u32 value 4
          paddr ← le_u64 value 8
          leaf_loop left (index + 1) (
              some (record {
                oid = entry_oid;
                xid = entry_xid;
                paddr = paddr;
                flags = flags;
                size = size;
              })))
        else ok best

abbrev pub unwrap_index : Option ℕ → ℕ
unwrap_index none = 0
unwrap_index (some index) = index

unfoldable pub select_internal_lower_bound : BtreeNode → ℕ → ℕ → Outcome ℕ
select_internal_lower_bound node oid max_xid = do
  reject_if (node.nkeys == 0) internal_without_keys
  chosen ← internal_loop node oid max_xid node.nkeys 0 none
  ok (unwrap_index chosen)

-- What becomes of the best entry once the loop is done.
unfoldable pub conclude_leaf : ℕ → Option OmapValue → Outcome (Option OmapValue)
conclude_leaf oid none = ok none
conclude_leaf oid (some best) =
    if not (best.oid == oid)
    then ok none
    else if has_bit best.flags omap_val_deleted
    then ok none
    else if is_some (value_flag_hard_stop_reason best.flags)
    then err (invalid_object omap_value_unsupported)
    else ok (some best)

unfoldable pub select_leaf_lower_bound : BtreeNode → ℕ → ℕ → Outcome (Option OmapValue)
select_leaf_lower_bound node oid max_xid = do
  best ← leaf_loop node oid max_xid node.nkeys 0 none
  conclude_leaf oid best

unfoldable pub contains : List ℕ → ℕ → Bool
contains [] paddr = false
contains (seen ∷ visited) paddr = seen == paddr || contains visited paddr

module _ (reader : Reader) (block_size oid max_xid : ℕ) where
  -- The loop of `lookup`, with its variables `depth`, `visited`, `current_paddr` and `is_root`.
  unfoldable pub lookup_loop : ℕ → ℕ → List ℕ → ℕ → Bool → Outcome (Option OmapValue)
  lookup_loop zero depth visited current_paddr is_root = hang
  lookup_loop (suc fuel) depth visited current_paddr is_root = do
    reject_if (leb max_tree_depth depth) omap_depth_exceeded
    reject_if (contains visited current_paddr) omap_cycle
    (block, header) ← read_btree_node reader block_size current_paddr is_root omap_tree_storage none
    node ← parse block block_size
    if node.nkeys == 0 then ok none else (do
      reject_if (not node.fixed_kv_size) omap_not_fixed
      if node.is_leaf then select_leaf_lower_bound node oid max_xid else (do
        child_index ← select_internal_lower_bound node oid max_xid
        slot ← entry node child_index
        value ← value_bytes node slot omap_internal_val_size
        child_paddr ← whole_u64 value
        lookup_loop fuel (depth + 1) (current_paddr ∷ visited) child_paddr false))

-- The test of `depth` ends the loop in its 129th round.
unfoldable pub lookup : OmapResolver → Reader → ℕ → ℕ → ℕ → Outcome (Option OmapValue)
lookup resolver reader block_size oid max_xid =
    lookup_loop reader block_size oid max_xid (suc max_tree_depth) 0 [] resolver.tree_root_paddr
      true
