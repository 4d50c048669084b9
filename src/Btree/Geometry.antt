-- ===== src/Btree/Geometry.antt =====
-- `parse`: its outcomes, and the areas of a node.
use apfs_fastindex.Base.{
  ℕ, ◌+◌, ◌*◌, ◌^◌, ◌≤◌, ◌<◌, ◌≡◌, Bool, true, false, ◌||◌, List, length, ltb, Bool-cases, inl, inr,
  if◌then◌else◌, arith,
}
use apfs_fastindex.Outcome.{
  ok, Returns, returns_rules, Settles, Settles-self, Returns-checked_sub, checked_sub,
  root_too_small,
}
use apfs_fastindex.BlockIo.Fields.{le_u16_lem, le_u32_lem}
use apfs_fastindex.Btree.{BtreeNode, toc_entry_size, parse}

-- Header, TOC, keys and values lie in this order within the block; the TOC has room for every key.
pub record IsNode (block : List ℕ) (size : ℕ) (node : BtreeNode) : Type 0 where
  pub same_block : node.block ≡ block
  pub fits : size ≤ length block
  pub toc_behind_header : 56 ≤ node.toc_offset
  pub toc_before_keys : node.key_area_offset ≡ node.toc_offset + node.toc_len
  pub toc_holds_keys : node.nkeys * toc_entry_size node.fixed_kv_size ≤ node.toc_len
  pub keys_before_values : node.key_area_offset ≤ node.value_area_end
  pub values_in_block : node.value_area_end + (if node.is_root then 40 else 0) ≡ size
  pub addressable : node.key_area_offset < 2 ^ 64

module _ (block : List ℕ) (size : ℕ) where
  pub parse-IsNode : (node : BtreeNode) → parse block size ≡ ok node → IsNode block size node
  unfolding parse
  parse-IsNode node e = ground arith

  Returns-value_area :
      (b : Bool) → Returns (if b then checked_sub size 40 root_too_small else ok size)
  Returns-value_area true = Returns-checked_sub size 40 root_too_small
  Returns-value_area false = tt

  pub Returns-parse : Returns (parse block size)
  unfolding parse
  Returns-parse = elim (Bool-cases (ltb size 56 || ltb (length block) size)) [
    | inl short ↦ rw short tt
    | inr long ↦
        rw
          (
            long,
            le_u16_lem block 0x20 (ground arith),
            le_u16_lem block 0x22 (ground arith),
            le_u32_lem block 0x24 (ground arith),
            le_u16_lem block 0x28 (ground arith),
            le_u16_lem block 0x2a (ground arith),
          )
          (search (returns_rules, Returns-value_area) depth 12)
  ]

  -- `parse` returns, whatever the block and whatever size is claimed for it. In a node that it
  -- accepts, header, TOC, keys and values lie in this order within the block, a root leaves the last
  -- 40 bytes alone, and the TOC has room for every key.
  pub parse-Settles : Settles (IsNode block size) Unit (parse block size)
  parse-Settles =
      Settles-self _ _ (parse block size) Returns-parse (λ node p. parse-IsNode node p) (λ e p. tt)
