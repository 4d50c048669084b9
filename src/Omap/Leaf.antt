-- ===== src/Omap/Leaf.antt =====
-- The choice in a leaf, against the rows that the leaf holds.
pub mod Newest
use apfs_fastindex.Base.{
  ℕ, zero, suc, ◌+◌, ◌-◌, ◌<◌, ◌≤◌, ◌≡◌, ◌⊎◌, ◌≢◌, refl, sym, ap, ◌∙◌, inl, inr, Bool, true, false,
  not, ◌&&◌, ◌||◌, Option, none, some, List, [], ◌∷◌, ◌++◌, length, ltb, leb, ◌==◌, if◌then◌else◌,
  All, Bool-cases, arith,
}
use apfs_fastindex.Outcome.{Outcome, ok, err, ◌>>=◌, >>=-eq-ok}
use apfs_fastindex.BlockIo.{le_u32, le_u64}
use apfs_fastindex.Btree.{BtreeNode, BtreeEntry, entry, key_bytes, value_bytes}
use apfs_fastindex.Omap.{OmapValue, key_leb, leaf_loop, conclude_leaf, select_leaf_lower_bound}

-- The row of a leaf at an index.
unfoldable pub leaf_row : BtreeNode → ℕ → Outcome OmapValue
leaf_row node index = do
  slot ← entry node index
  key ← key_bytes node slot 16
  oid ← le_u64 key 0
  xid ← le_u64 key 8
  value ← value_bytes node slot 16
  flags ← le_u32 value 0
  size ← le_u32 value 4
  paddr ← le_u64 value 8
  ok (record { oid = oid; xid = xid; paddr = paddr; flags = flags; size = size })

-- `rows` are the rows of the leaf from `index` on.
abbrev pub AreRows : BtreeNode → ℕ → List OmapValue → Type 0
AreRows node index [] = Unit
AreRows node index (row ∷ rows) = (leaf_row node index ≡ ok row) × AreRows node (index + 1) rows

-- The key of a row is at most `(oid, xid)`.
abbrev pub row_leb : OmapValue → ℕ → ℕ → Bool
row_leb row oid xid = key_leb row.oid row.xid oid xid

-- The last row before the first one that lies above the target.
pub last_below : ℕ → ℕ → Option OmapValue → List OmapValue → Option OmapValue
last_below oid max_xid best [] = best
last_below oid max_xid best (row ∷ rows) =
    let rest = last_below oid max_xid (some row) rows in
    if row_leb row oid max_xid then rest else best

-- A round at a row at most the target takes it, and one at a row above it ends the loop.
module _ (node : BtreeNode) (oid max_xid left index : ℕ) (best : Option OmapValue) (row : OmapValue)
    (e : leaf_row node index ≡ ok row) where
  leaf_loop_below :
      row_leb row oid max_xid ≡ true
      → leaf_loop node oid max_xid (suc left) index best
        ≡ leaf_loop node oid max_xid left (index + 1) (some row)
  unfolding leaf_row leaf_loop
  leaf_loop_below h = ground arith

  leaf_loop_above :
      row_leb row oid max_xid ≡ false → leaf_loop node oid max_xid (suc left) index best ≡ ok best
  unfolding leaf_row leaf_loop
  leaf_loop_above h = ground arith

leaf_loop-last_below :
    (node : BtreeNode) (oid max_xid index : ℕ) (best : Option OmapValue) (rows : List OmapValue)
    → AreRows node index rows
    → leaf_loop node oid max_xid (length rows) index best ≡ ok (last_below oid max_xid best rows)
unfolding last_below
leaf_loop-last_below node oid max_xid index best [] h = unfold leaf_loop in refl
leaf_loop-last_below node oid max_xid index best (row ∷ rows) (h, hs) =
    elim (Bool-cases (row_leb row oid max_xid)) [
      | inl below ↦ rw below (
          leaf_loop_below node oid max_xid (length rows) index best row h below
          ∙ leaf_loop-last_below node oid max_xid (index + 1) (some row) rows hs)
      | inr above ↦ rw above (leaf_loop_above node oid max_xid (length rows) index best row h above)
    ]
