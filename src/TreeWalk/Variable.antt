-- ===== src/TreeWalk/Variable.antt =====
-- Nodes whose entries have lengths of their own.
use apfs_fastindex.Base.{
  ℕ, ◌^◌, ◌<◌, ◌≡◌, Bool, false, Option, List, [], length, leb, All, All-take, All-drop, sym, tests,
  arith,
}
use mathlib.Core.Path.{subst}
use apfs_fastindex.Outcome.{
  Outcome, ok, ◌>>=◌, ◌>>◌, Reason, reject_if, Returns, Settles, Settles-bind, Settles-reject_if,
  Settles-Returns,
}
use apfs_fastindex.BlockIo.{Reader, IsByte}
use apfs_fastindex.BlockIo.Reading.{IsReader}
use apfs_fastindex.Object.{ObjectHeader, ExpectedStorage}
use apfs_fastindex.Btree.{
  BtreeNode, BtreeEntry, parse, entry, key_bytes, value_bytes, read_btree_node, unwrap_or,
}
use apfs_fastindex.Btree.Geometry.{parse-IsNode, Returns-parse}
use apfs_fastindex.TreeWalk.Trace.{IsNodeAt}
use apfs_fastindex.Btree.Slots.{entry-IsSlot, key_value_bytes_iff}
use apfs_fastindex.Omap.{contains}
use apfs_fastindex.Omap.Search.{read_btree_node-IsBlock}

-- A node in a block of bytes that can be addressed.
pub record IsReadable (node : BtreeNode) : Type 0 where
  pub slots : (i : ℕ) → Returns (entry node i)
  pub small : length node.block < 2 ^ 64
  pub bytes : All IsByte node.block

module _ (node : BtreeNode) (n : IsReadable node) (e : BtreeEntry) (width : ℕ) where
  pub Returns-key_bytes : Returns (key_bytes node e width)
  Returns-key_bytes = (key_value_bytes_iff node e width [] n.small).2

  pub Returns-value_bytes : Returns (value_bytes node e width)
  Returns-value_bytes = (key_value_bytes_iff node e width [] n.small).3

  pub key_bytes-IsByte : (key : List ℕ) → key_bytes node e width ≡ ok key → All IsByte key
  key_bytes-IsByte key p =
      let (inside, same) = ((key_value_bytes_iff node e width key n.small).0).0 p in
      subst (All IsByte) (sym same)
        (All-take IsByte (unwrap_or e.key_len width) _ (All-drop IsByte e.key_offset _ n.bytes))

  pub value_bytes-IsByte : (value : List ℕ) → value_bytes node e width ≡ ok value → All IsByte value
  value_bytes-IsByte value p =
      let (inside, same) = ((key_value_bytes_iff node e width value n.small).1).0 p in
      subst (All IsByte) (sym same)
        (All-take IsByte (unwrap_or e.value_len width) _ (All-drop IsByte e.value_start _ n.bytes))

-- The guards of a walk, the read of a node and its parse: what comes next gets a node that can be
-- read, at a depth and an address that are new.
pub node_steps {ℓ} :
    {S : Type ℓ} (P : S → Type 0) (reader : Reader) (block_size paddr depth : ℕ) (is_root : Bool)
    (storage : ExpectedStorage) (max_xid : Option ℕ) (visited : List ℕ) (deep cycle fixed : Reason)
    (next : ObjectHeader → BtreeNode → Outcome S)
    → IsReader reader
    → ((header : ObjectHeader) (node : BtreeNode)
        → IsNodeAt reader block_size storage max_xid paddr is_root node
        → IsReadable node
        → depth < 128
        → contains visited paddr ≡ false
        → Settles P Unit (next header node))
    → Settles P Unit (
        reject_if (leb 128 depth) deep
        >> (reject_if (contains visited paddr) cycle
            >> (read_btree_node reader block_size paddr is_root storage max_xid
                >>= λ (block, header). parse block block_size >>= λ node.
                    reject_if node.fixed_kv_size fixed >> next header node)))
node_steps P reader block_size paddr depth is_root storage max_xid visited deep cycle fixed next r
      k =
    Settles-reject_if _ _ (leb 128 depth) _ _ (λ t. tt)
      (λ shallow.
        Settles-reject_if _ _ (contains visited paddr) _ _ (λ t. tt)
          (λ fresh.
            let (returns, facts) =
              read_btree_node-IsBlock reader block_size paddr is_root storage max_xid r in
            Settles-bind _ _ (read_btree_node reader block_size paddr is_root storage max_xid) _
              returns (λ e p. tt)
              (λ (block, header) p.
                let ((full, bytes), low, high) = facts block header p in
                Settles-bind _ _ (parse block block_size) _ (Returns-parse block block_size)
                  (λ e p. tt)
                  (λ node q.
                    let n = parse-IsNode block block_size node q in
                    Settles-reject_if _ _ node.fixed_kv_size _ _ (λ t. tt)
                      (λ variable.
                        k header node
                          (record { block = block; header = header; read = p; parsed = q })
                          (record {
                            slots =
                                λ i. Settles-Returns _ _ _ (entry-IsSlot block block_size node i n);
                            small = rw n.same_block (omega (arith, full, high));
                            bytes = rw n.same_block bytes;
                          })
                          (omega (tests, shallow)) fresh)))))
