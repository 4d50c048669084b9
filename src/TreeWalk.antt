-- ===== src/TreeWalk.antt =====
-- The steps that the walks of the file-system tree (crates/apfs-fastindex/src/fs_records.rs) and of
-- the extent-reference tree (crates/apfs-fastindex/src/extent_ref.rs) share, word for word: the loop
-- over the entries of a leaf, the list of children of an index node, and the loop over that list.
pub mod Trace
pub mod Variable
pub mod Descent
use apfs_fastindex.Base.{ℕ, zero, suc, ◌+◌, Option, none, some, List, [], ◌∷◌, length, ltb}
use apfs_fastindex.Outcome.{
  Outcome, ok, err, panic, hang, ◌>>=◌, ◌>>◌, Reason, invalid_object, reject_if,
}
use apfs_fastindex.BlockIo.{Reader, le_u64}
use apfs_fastindex.Btree.{BtreeNode, entry, key_bytes, value_bytes}
use apfs_fastindex.Omap.{OmapResolver, OmapValue, lookup}

abbrev pub fs_internal_val_size : ℕ
fs_internal_val_size = 8

-- `for index in 0..node.nkeys` of a leaf, given what becomes of an index, a key and a value.
unfoldable pub entries_loop {ℓ} :
    {S : Type ℓ} → (ℕ → List ℕ → List ℕ → S → Outcome S) → BtreeNode → ℕ → ℕ → S → Outcome S
entries_loop add node zero index state = ok state
entries_loop add node (suc left) index state = do
  slot ← entry node index
  key ← key_bytes node slot 0
  value ← value_bytes node slot 0
  state ← add index key value state
  entries_loop add node left (index + 1) state

-- The loop that fills `children`; the index beside each oid goes into messages only.
unfoldable pub child_oids : Reason → BtreeNode → ℕ → ℕ → Outcome (List ℕ)
child_oids too_short node zero index = ok []
child_oids too_short node (suc left) index = do
  slot ← entry node index
  value ← value_bytes node slot fs_internal_val_size
  reject_if (ltb (length value) fs_internal_val_size) too_short
  child_oid ← le_u64 value 0
  children ← child_oids too_short node left (index + 1)
  ok (child_oid ∷ children)

-- `ok_or_else(..)?` on a mapping, and its address
unfoldable pub mapped_paddr : Reason → Option OmapValue → Outcome ℕ
mapped_paddr unmapped none = err (invalid_object unmapped)
mapped_paddr unmapped (some mapping) = ok mapping.paddr

-- A child's virtual oid through the object map of the volume.
unfoldable pub resolve_child : Reason → OmapResolver → Reader → ℕ → ℕ → ℕ → Outcome ℕ
resolve_child unmapped volume_omap reader block_size max_xid child_oid = do
  mapping ← lookup volume_omap reader block_size child_oid max_xid
  mapped_paddr unmapped mapping

-- `for (index, child_oid) in children`, given how an oid is resolved and how a child is walked.
unfoldable pub descend {ℓ} :
    {S : Type ℓ} → (ℕ → Outcome ℕ) → (ℕ → S → Outcome S) → List ℕ → S → Outcome S
descend resolve walk_child [] state = ok state
descend resolve walk_child (child_oid ∷ children) state = do
  paddr ← resolve child_oid
  state ← walk_child paddr state
  descend resolve walk_child children state
