-- ===== src/Omap/Search.antt =====
-- How `lookup` ends: the outcomes of its steps and of its loop.
use apfs_fastindex.Base.{
  opposite_false, ℕ, zero, suc, ◌+◌, ◌<◌, ◌≤◌, ◌≡◌, ◌^◌, refl, ap, take, drop, ◌∙◌, Bool, true,
  false, not, Option, none, some, List, [], ◌∷◌, length, leb, ◌==◌, tests, arith,
}
use mathlib.Core.Path.{subst}
use apfs_fastindex.Outcome.{
  Outcome, ok, ◌>>=◌, Returns, Returns-bind, >>=-eq-ok, Returns-if, Returns-reject_if,
  returns_rules, Settles-Returns, Settles-ok, reject_if-eq-ok,
}
use apfs_fastindex.BlockIo.{Reader, le_u32, le_u64, read_block}
use apfs_fastindex.BlockIo.Fields.{field, le_u32_lem, le_u64_lem, length-slice}
use apfs_fastindex.BlockIo.Reading.{IsReader, IsBlock, read_block-IsBlock}
use apfs_fastindex.Object.{ObjectHeader, ObjectExpectation, ExpectedStorage, validate_object_block}
use apfs_fastindex.Object.Gate.{validate_object_block_iff}
use apfs_fastindex.Btree.{
  BtreeNode, BtreeEntry, parse, entry, key_bytes, value_bytes, unwrap_or, read_btree_node,
}
use apfs_fastindex.Btree.Geometry.{parse-IsNode, Returns-parse}
use apfs_fastindex.Btree.Slots.{is_none, entry-IsSlot, key_value_bytes_iff}
use apfs_fastindex.Omap.{
  OmapResolver, OmapValue, key_leb, whole_u64, internal_loop, leaf_loop,
  select_internal_lower_bound, conclude_leaf, select_leaf_lower_bound, contains, lookup_loop,
  lookup,
}

-- A node of fixed-size entries in a block that can be addressed.
pub record IsFixedNode (node : BtreeNode) : Type 0 where
  pub slots : (i : ℕ) → Returns (entry node i)
  pub lengths :
      (i : ℕ) (e : BtreeEntry) → entry node i ≡ ok e → (e.key_len ≡ none) × (e.value_len ≡ none)
  pub small : length node.block < 2 ^ 64

no_length : (o : Option ℕ) → is_none o ≡ true → o ≡ none
no_length none h = refl
no_length (some k) h = cc

pub parse-IsFixedNode :
    (block : List ℕ) (size : ℕ) (node : BtreeNode)
    → length block ≡ size
    → size ≤ 65536
    → parse block size ≡ ok node
    → node.fixed_kv_size ≡ true
    → IsFixedNode node
parse-IsFixedNode block size node l b p f =
    let n = parse-IsNode block size node p in
    record {
      slots = λ i. Settles-Returns _ _ _ (entry-IsSlot block size node i n);
      lengths = λ i e q.
          let s = (Settles-ok _ _ _ q (entry-IsSlot block size node i n)).1 in
          (no_length e.key_len (s.key_length ∙ f), no_length e.value_len (s.value_length ∙ f));
      small = rw n.same_block (omega (arith, l));
    }

Returns-value_fields {ℓ} :
    {B : Type ℓ} (value : List ℕ) (k : ℕ → ℕ → ℕ → Outcome B)
    → length value ≡ 16
    → ((a b c : ℕ) → Returns (k a b c))
    → Returns (
        le_u32 value 0 >>= λ flags.
        le_u32 value 4 >>= λ size. le_u64 value 8 >>= λ paddr. k flags size paddr)
Returns-value_fields value k l h =
    rw
      (
        le_u32_lem value 0 (omega (arith, l)),
        le_u32_lem value 4 (omega (arith, l)),
        le_u64_lem value 8 (omega (arith, l)),
      )
      (h _ _ _)

module _ (node : BtreeNode) (n : IsFixedNode node) where
  -- In such a node keys and values have the width that the caller asks for.
  pub widths :
      (i : ℕ) (e : BtreeEntry) (width : ℕ)
      → entry node i ≡ ok e
      → Returns (key_bytes node e width)
        × Returns (value_bytes node e width)
        × ((bytes : List ℕ) → key_bytes node e width ≡ ok bytes → length bytes ≡ width)
        × ((bytes : List ℕ) → value_bytes node e width ≡ ok bytes → length bytes ≡ width)
  widths i e width p =
      let (no_key, no_value) = n.lengths i e p in
      let facts = key_value_bytes_iff node e width [] n.small in
      (
        facts.2,
        facts.3,
        λ bytes q.
            let (inside, same) = ((key_value_bytes_iff node e width bytes n.small).0).0 q in
            exact e.key_len e.key_offset width bytes no_key inside same,
        λ bytes q.
            let (inside, same) = ((key_value_bytes_iff node e width bytes n.small).1).0 q in
            exact e.value_len e.value_start width bytes no_value inside same,
      )
    where
      exact :
          (o : Option ℕ) (offset width : ℕ) (bytes : List ℕ)
          → o ≡ none
          → offset + unwrap_or o width ≤ length node.block
          → bytes ≡ take (unwrap_or o width) (drop offset node.block)
          → length bytes ≡ width
      exact none offset width bytes h inside same =
          ap (λ (t : List ℕ). length t) same ∙ length-slice node.block offset width inside
      exact (some k) offset width bytes h inside same = cc

  Returns-internal_loop :
      (oid max_xid left index : ℕ) (chosen : Option ℕ)
      → Returns (internal_loop node oid max_xid left index chosen)
  unfolding internal_loop
  Returns-internal_loop oid max_xid zero index chosen = tt
  Returns-internal_loop oid max_xid (suc left) index chosen =
      Returns-bind (entry node index) _ (n.slots index) (λ e p.
        let (key_returns, value_returns, key_width, value_width) = widths index e 16 p in
        Returns-bind (key_bytes node e 16) _ key_returns (λ key q.
          rw
            (
              le_u64_lem key 0 (omega (arith, key_width key q)),
              le_u64_lem key 8 (omega (arith, key_width key q)),
            )
            (search (returns_rules, Returns-internal_loop oid max_xid left (index + 1)))))

  -- The value of an entry, read field by field.
  Returns-value_bytes {ℓ} :
      {B : Type ℓ} (i : ℕ) (e : BtreeEntry) (k : ℕ → ℕ → ℕ → Outcome B)
      → entry node i ≡ ok e
      → ((a b c : ℕ) → Returns (k a b c))
      → Returns (
          value_bytes node e 16 >>= λ value. le_u32 value 0 >>= λ flags.
          le_u32 value 4 >>= λ size. le_u64 value 8 >>= λ paddr. k flags size paddr)
  Returns-value_bytes i e k p h =
      let (key_returns, value_returns, key_width, value_width) = widths i e 16 p in
      Returns-bind (value_bytes node e 16) _ value_returns
        (λ value t. Returns-value_fields value k (value_width value t) h)

  Returns-leaf_loop :
      (oid max_xid left index : ℕ) (best : Option OmapValue)
      → Returns (leaf_loop node oid max_xid left index best)
  unfolding leaf_loop
  Returns-leaf_loop oid max_xid zero index best = tt
  Returns-leaf_loop oid max_xid (suc left) index best =
      Returns-bind (entry node index) _ (n.slots index) (λ e p.
        let (key_returns, value_returns, key_width, value_width) = widths index e 16 p in
        Returns-bind (key_bytes node e 16) _ key_returns (λ key q.
          rw
            (
              le_u64_lem key 0 (omega (arith, key_width key q)),
              le_u64_lem key 8 (omega (arith, key_width key q)),
            )
            (Returns-if (key_leb (field 8 key 0) (field 8 key 8) oid max_xid) _ (ok best)
              (Returns-value_bytes index e
                (λ flags size paddr. leaf_loop node oid max_xid left (index + 1) (
                  some (record {
                    oid = field 8 key 0;
                    xid = field 8 key 8;
                    paddr = paddr;
                    flags = flags;
                    size = size;
                  })))
                p (λ a b c. Returns-leaf_loop oid max_xid left (index + 1) _))
              tt)))

  Returns-conclude_leaf : (oid : ℕ) (best : Option OmapValue) → Returns (conclude_leaf oid best)
  unfolding conclude_leaf
  Returns-conclude_leaf oid none = tt
  Returns-conclude_leaf oid (some best) = ground arith

  Returns-select_leaf_lower_bound :
      (oid max_xid : ℕ) → Returns (select_leaf_lower_bound node oid max_xid)
  unfolding select_leaf_lower_bound
  Returns-select_leaf_lower_bound oid max_xid =
      search (returns_rules, Returns-leaf_loop, Returns-conclude_leaf)

  Returns-select_internal_lower_bound :
      (oid max_xid : ℕ) → Returns (select_internal_lower_bound node oid max_xid)
  unfolding select_internal_lower_bound
  Returns-select_internal_lower_bound oid max_xid = search (returns_rules, Returns-internal_loop)

pub Returns-whole_u64 : (value : List ℕ) → length value ≡ 8 → Returns (whole_u64 value)
unfolding whole_u64
Returns-whole_u64 value h = rw h tt

module _ (node : BtreeNode) (n : IsFixedNode node) where
  -- The child that a node points to, read whole.
  pub Returns-child {ℓ} :
      {B : Type ℓ} (index : ℕ) (k : ℕ → Outcome B)
      → ((child : ℕ) → Returns (k child))
      → Returns
          (entry node index >>= λ slot. value_bytes node slot 8 >>= λ value. whole_u64 value >>= k)
  Returns-child index k h = Returns-bind (entry node index) _ (n.slots index) (λ e p.
      let (key_returns, value_returns, key_width, value_width) = widths node n index e 8 p in
      Returns-bind (value_bytes node e 8) _ value_returns (λ value t.
        Returns-bind (whole_u64 value) k (Returns-whole_u64 value (value_width value t))
          (λ child _. h child)))

-- Reading a node: it returns, and what it returns is a block.
pub read_btree_node-IsBlock :
    (reader : Reader) (block_size paddr : ℕ) (is_root : Bool) (storage : ExpectedStorage)
    (max_xid : Option ℕ)
    → IsReader reader
    → Returns (read_btree_node reader block_size paddr is_root storage max_xid)
      × ((block : List ℕ) (header : ObjectHeader)
          → read_btree_node reader block_size paddr is_root storage max_xid ≡ ok (block, header)
          → IsBlock block_size block × (4096 ≤ block_size) × (block_size ≤ 65536))
unfolding read_btree_node
read_btree_node-IsBlock reader block_size paddr is_root storage max_xid r =
    let (returns, facts) = read_block-IsBlock reader paddr block_size r in
    (
      search (returns_rules, returns, gate),
      λ block header p.
          let (block', q, rest) = >>=-eq-ok (read_block reader paddr block_size) _ p in
          let (header', q', same) = >>=-eq-ok (validate_object_block block' paddr _) _ rest in
          subst (λ b. IsBlock block_size b × (4096 ≤ block_size) × (block_size ≤ 65536)) (cc)
            (facts block' q),
    )
  where
    gate : (block : List ℕ) (e : ObjectExpectation) → Returns (validate_object_block block paddr e)
    gate block e = (validate_object_block_iff block paddr e).1

module _ (reader : Reader) (r : IsReader reader) (block_size oid max_xid : ℕ) where
  Returns-lookup_loop :
      (fuel depth : ℕ) (visited : List ℕ) (current_paddr : ℕ) (is_root : Bool)
      → 128 < fuel + depth
      → depth ≤ 128
      → Returns (lookup_loop reader block_size oid max_xid fuel depth visited current_paddr is_root)
  unfolding lookup_loop
  Returns-lookup_loop zero depth visited paddr is_root h l = absurd (omega arith)
  Returns-lookup_loop (suc fuel) depth visited paddr is_root h l =
      Returns-bind _ _ (Returns-reject_if (leb 128 depth) _) (λ u shallow.
        let room = reject_if-eq-ok (leb 128 depth) _ shallow in
        Returns-bind _ _ (Returns-reject_if (contains visited paddr) _) (λ u _.
          let (node_returns, block_facts) =
            read_btree_node-IsBlock reader block_size paddr is_root ExpectedStorage.physical none
              r in
          Returns-bind _ _ node_returns (λ (block, header) p.
            let ((full, bytes), low, high) = block_facts block header p in
            Returns-bind (parse block block_size) _ (Returns-parse block block_size) (λ node q.
              Returns-if (node.nkeys == 0) (ok none) _ tt (
                Returns-bind _ _ (Returns-reject_if (not node.fixed_kv_size) _) (λ u fixed.
                  let n =
                    parse-IsFixedNode block block_size node full high q
                      (opposite_false node.fixed_kv_size (reject_if-eq-ok _ _ fixed)) in
                  Returns-if node.is_leaf _ _ (Returns-select_leaf_lower_bound node n oid max_xid) (
                    Returns-bind (select_internal_lower_bound node oid max_xid) _
                      (Returns-select_internal_lower_bound node n oid max_xid)
                      (λ index _. Returns-child node n index _ (λ child.
                        Returns-lookup_loop fuel (depth + 1) (paddr ∷ visited) child false
                          (omega arith) (omega (tests, room)))))))))))

-- `lookup` returns on any source that keeps the contract of `Read`, whatever bytes it holds: a
-- value, nothing, or an error. It neither panics nor runs past its 129 rounds.
pub Returns-lookup :
    (resolver : OmapResolver) (reader : Reader) (block_size oid max_xid : ℕ)
    → IsReader reader
    → Returns (lookup resolver reader block_size oid max_xid)
unfolding lookup
Returns-lookup resolver reader block_size oid max_xid r =
    Returns-lookup_loop reader r block_size oid max_xid 129 0 [] resolver.tree_root_paddr true
      (omega arith) (omega arith)
