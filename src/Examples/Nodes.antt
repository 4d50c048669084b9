-- ===== src/Examples/Nodes.antt =====
-- A leaf of an object map with two rows for one object, on which the theorems on nodes are tried.
use apfs_fastindex.Base.{
  ℕ, ◌<◌, ◌≤◌, ◌≡◌, refl, ap, ◌⊎◌, inl, inr, ◌↔◌, take, drop, true, false, none, List, [], ◌∷◌,
  Memᴰ, arith,
}
use mathlib.Core.List.Memᴰ.{head, tail}
use apfs_fastindex.Outcome.{ok, Settles, Returns}
use apfs_fastindex.Btree.{BtreeNode, BtreeEntry, parse, entry, key_bytes, value_bytes, unwrap_or}
use apfs_fastindex.Btree.Geometry.{IsNode, parse-Settles}
use apfs_fastindex.Btree.Slots.{IsSlot, entry-IsSlot, key_value_bytes_iff}
use apfs_fastindex.Omap.{
  OmapValue, select_leaf_lower_bound, value_flag_hard_stop_reason, phys_flag_hard_stop_reason,
}
use apfs_fastindex.Omap.Flags.{accepted_flags}
use apfs_fastindex.Omap.Leaf.{AreRows, leaf_row}
use apfs_fastindex.Omap.Leaf.Newest.{
  IsSorted, IsNewest, HasNone, reply, select_leaf_lower_bound-IsNewest,
  select_leaf_lower_bound-HasNone,
}
use apfs_fastindex.BlockIo as B
use apfs_fastindex.Btree as T

abbrev leaf_block : List ℕ
leaf_block =
    0 ∷ 0 ∷ 0 ∷ 0 ∷ 0 ∷ 0 ∷ 0 ∷ 0 ∷ 0 ∷ 0 ∷ 0 ∷ 0 ∷ 0 ∷ 0 ∷ 0 ∷ 0 ∷ 0 ∷ 0 ∷ 0 ∷ 0 ∷ 0 ∷ 0 ∷ 0 ∷ 0
    ∷ 0 ∷ 0 ∷ 0 ∷ 0 ∷ 0 ∷ 0 ∷ 0 ∷ 0 ∷ 6 ∷ 0 ∷ 0 ∷ 0 ∷ 2 ∷ 0 ∷ 0 ∷ 0 ∷ 0 ∷ 0 ∷ 8 ∷ 0 ∷ 0 ∷ 0 ∷ 0 ∷ 0
    ∷ 0 ∷ 0 ∷ 0 ∷ 0 ∷ 0 ∷ 0 ∷ 0 ∷ 0 ∷ 0 ∷ 0 ∷ 16 ∷ 0 ∷ 16 ∷ 0 ∷ 32 ∷ 0 ∷ 7 ∷ 0 ∷ 0 ∷ 0 ∷ 0 ∷ 0 ∷ 0
    ∷ 0 ∷ 3 ∷ 0 ∷ 0 ∷ 0 ∷ 0 ∷ 0 ∷ 0 ∷ 0 ∷ 7 ∷ 0 ∷ 0 ∷ 0 ∷ 0 ∷ 0 ∷ 0 ∷ 0 ∷ 5 ∷ 0 ∷ 0 ∷ 0 ∷ 0 ∷ 0 ∷ 0
    ∷ 0 ∷ 0 ∷ 0 ∷ 0 ∷ 0 ∷ 0 ∷ 0 ∷ 0 ∷ 0 ∷ 0 ∷ 0 ∷ 0 ∷ 0 ∷ 0 ∷ 0 ∷ 0 ∷ 0 ∷ 0 ∷ 0 ∷ 0 ∷ 0 ∷ 0 ∷ 0 ∷ 0
    ∷ 0 ∷ 0 ∷ 0 ∷ 0 ∷ 0 ∷ 0 ∷ 0 ∷ 0 ∷ 0 ∷ 0 ∷ 0 ∷ 0 ∷ 0 ∷ 0 ∷ 0 ∷ 0 ∷ 0 ∷ 0 ∷ 0 ∷ 0 ∷ 0 ∷ 0 ∷ 0 ∷ 0
    ∷ 0 ∷ 0 ∷ 0 ∷ 0 ∷ 0 ∷ 0 ∷ 0 ∷ 0 ∷ 0 ∷ 0 ∷ 0 ∷ 0 ∷ 0 ∷ 0 ∷ 0 ∷ 0 ∷ 0 ∷ 0 ∷ 0 ∷ 0 ∷ 0 ∷ 0 ∷ 0 ∷ 0
    ∷ 0 ∷ 0 ∷ 0 ∷ 0 ∷ 0 ∷ 0 ∷ 0 ∷ 0 ∷ 0 ∷ 0 ∷ 0 ∷ 0 ∷ 0 ∷ 0 ∷ 0 ∷ 0 ∷ 0 ∷ 0 ∷ 0 ∷ 0 ∷ 0 ∷ 0 ∷ 0 ∷ 0
    ∷ 0 ∷ 0 ∷ 0 ∷ 0 ∷ 0 ∷ 0 ∷ 0 ∷ 0 ∷ 0 ∷ 0 ∷ 0 ∷ 0 ∷ 0 ∷ 0 ∷ 0 ∷ 0 ∷ 0 ∷ 0 ∷ 0 ∷ 0 ∷ 0 ∷ 0 ∷ 0 ∷ 0
    ∷ 0 ∷ 0 ∷ 0 ∷ 0 ∷ 0 ∷ 0 ∷ 0 ∷ 0 ∷ 0 ∷ 0 ∷ 0 ∷ 0 ∷ 0 ∷ 0 ∷ 16 ∷ 0 ∷ 0 ∷ 200 ∷ 0 ∷ 0 ∷ 0 ∷ 0 ∷ 0
    ∷ 0 ∷ 0 ∷ 0 ∷ 0 ∷ 0 ∷ 0 ∷ 0 ∷ 16 ∷ 0 ∷ 0 ∷ 100 ∷ 0 ∷ 0 ∷ 0 ∷ 0 ∷ 0 ∷ 0 ∷ 0 ∷ []

abbrev leaf : BtreeNode
leaf = record {
  block = leaf_block;
  block_size = 256;
  flags = 6;
  level = 0;
  nkeys = 2;
  data_offset = 56;
  toc_offset = 56;
  toc_len = 8;
  key_area_offset = 64;
  value_area_end = 256;
  fixed_kv_size = true;
  is_root = false;
  is_leaf = true;
}

leaf_run : parse leaf_block 256 ≡ ok leaf
unfolding parse B.slice B.from_le_bytes B.le_u16 B.le_u32
leaf_run = refl

leaf-IsNode : IsNode leaf_block 256 leaf
leaf-IsNode = record {
  same_block = refl;
  fits = omega arith;
  toc_behind_header = omega arith;
  toc_before_keys = refl;
  toc_holds_keys = omega arith;
  keys_before_values = omega arith;
  values_in_block = refl;
  addressable = omega arith;
}

abbrev row : ℕ → ℕ → OmapValue
row xid paddr = record { oid = 7; xid = xid; paddr = paddr; flags = 0; size = 4096 }

abbrev rows : List OmapValue
rows = row 3 100 ∷ row 5 200 ∷ []

rows-AreRows : AreRows leaf 0 rows
unfolding leaf_row entry T.fixed_entry key_bytes value_bytes B.slice B.from_le_bytes B.le_u16
    B.le_u32 B.le_u64
rows-AreRows = (refl, (refl, tt))

rows-IsSorted : IsSorted rows
rows-IsSorted = ((refl, tt), (tt, tt))

xid_eq : (other : OmapValue) → Memᴰ other rows → (other.xid ≡ 3) ⊎ (other.xid ≡ 5)
xid_eq other (head e) = inl (ap (λ (r : OmapValue). r.xid) e)
xid_eq other (tail (head e)) = inr (ap (λ (r : OmapValue). r.xid) e)
xid_eq other (tail (tail m)) = elim m [ ]

row-IsNewest : IsNewest rows 7 4 (row 3 100)
row-IsNewest = record {
  held = head refl;
  of_oid = refl;
  not_later = omega arith;
  newest = λ other m same l. omega (arith, xid_eq other m, l);
}

select_leaf_lower_bound-IsNewest_example : select_leaf_lower_bound leaf 7 4 ≡ reply (row 3 100)
select_leaf_lower_bound-IsNewest_example =
    select_leaf_lower_bound-IsNewest leaf 7 4 rows rows-AreRows refl rows-IsSorted (row 3 100)
      row-IsNewest

rows-HasNone : HasNone rows 7 2
rows-HasNone other m same l = omega (arith, xid_eq other m, l)

select_leaf_lower_bound-HasNone_example : select_leaf_lower_bound leaf 7 2 ≡ ok none
select_leaf_lower_bound-HasNone_example =
    select_leaf_lower_bound-HasNone leaf 7 2 rows rows-AreRows refl rows-IsSorted rows-HasNone

parse-Settles_example : Settles (IsNode leaf_block 256) Unit (parse leaf_block 256)
parse-Settles_example = parse-Settles leaf_block 256

entry-IsSlot_example : Settles (λ e. (1 < 2) × IsSlot leaf 1 e) Unit (entry leaf 1)
entry-IsSlot_example = entry-IsSlot leaf_block 256 leaf 1 leaf-IsNode

abbrev slot : BtreeEntry
slot = record { key_offset = 80; key_len = none; value_start = 224; value_len = none }

abbrev key : List ℕ
key = 7 ∷ 0 ∷ 0 ∷ 0 ∷ 0 ∷ 0 ∷ 0 ∷ 0 ∷ 5 ∷ 0 ∷ 0 ∷ 0 ∷ 0 ∷ 0 ∷ 0 ∷ 0 ∷ []

key_value_bytes_iff_example :
    ((key_bytes leaf slot 16 ≡ ok key) ↔ ((96 ≤ 256) × (key ≡ take 16 (drop 80 leaf_block))))
    × ((value_bytes leaf slot 16 ≡ ok key) ↔ ((240 ≤ 256) × (key ≡ take 16 (drop 224 leaf_block))))
    × Returns (key_bytes leaf slot 16)
    × Returns (value_bytes leaf slot 16)
key_value_bytes_iff_example = key_value_bytes_iff leaf slot 16 key (omega arith)

accepted_flags_example :
    ((value_flag_hard_stop_reason 2 ≡ none) ↔ (2 < 4))
    × ((phys_flag_hard_stop_reason 2 ≡ none) ↔ (2 < 2))
accepted_flags_example = accepted_flags 2 (omega arith)
