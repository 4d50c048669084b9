-- ===== src/Omap/Summarize/Totals.antt =====
-- The walk of an object map: its outcomes, and what its totals count.
use apfs_fastindex.Base.{
  opposite_false, ℕ, zero, suc, ◌+◌, ◌^◌, ◌%◌, ◌<◌, ◌≤◌, ◌≡◌, refl, Bool, true, false, not, none,
  List, [], ◌∷◌, ◌++◌, length, take, sym, leb, tests, arith,
}
use mathlib.Core.List.{append_assoc, append-nil}
use mathlib.Core.Path.{subst}
use apfs_fastindex.TreeWalk.Trace.{
  Tree, Forest, leaf, inner, bare, grow, Event, visited_node, met_entry, entry_events, events,
  forest_events, number_visited, addresses_onto, AreEntries, IsNodeAt, IsTree, AreTrees,
}
use apfs_fastindex.Outcome.{
  ok, Settles-weaken, Outcome, Settles, Settles-bind, Settles-if, Settles-reject_if,
  Settles-Returns, Settles-ok,
}
use apfs_fastindex.BlockIo.{Reader}
use apfs_fastindex.BlockIo.Fields.{le_u32_lem, le_u64_lem}
use apfs_fastindex.BlockIo.Reading.{IsReader}
use apfs_fastindex.Object.{ExpectedStorage}
use apfs_fastindex.Btree.{
  BtreeNode, BtreeEntry, parse, entry, key_bytes, value_bytes, read_btree_node,
}
use apfs_fastindex.Btree.Geometry.{Returns-parse}
use apfs_fastindex.Omap.{OmapResolver, whole_u64, contains}
use apfs_fastindex.Omap.Search.{
  IsFixedNode, parse-IsFixedNode, widths, Returns-whole_u64, read_btree_node-IsBlock,
}
use apfs_fastindex.Omap.Summarize.{
  OmapDumpEntry, SummarizeState, OmapSummary, visit, count_node, add_mapping, mappings_loop,
  children_loop, walk_node, summarize,
}
use apfs_fastindex.Omap.Summarize.Kept.{
  IsConsistent, visit-IsConsistent, add_mapping-IsConsistent, take-nil, mapping_of, mappings_in,
  top_xid, flags_in, no_flags, IsUnique,
}

-- A child of an index node, as its address stands in the node.
pub record IsChild (node : BtreeNode) (index child : ℕ) : Type 0 where
  pub slot : BtreeEntry
  pub value : List ℕ
  pub slot_read : entry node index ≡ ok slot
  pub value_read : value_bytes node slot 8 ≡ ok value
  pub child_read : whole_u64 value ≡ ok child

abbrev pub AreChildren : BtreeNode → ℕ → ℕ → List ℕ → Type 0
AreChildren node zero index [] = Unit
AreChildren node zero index (child ∷ children) = ⊥
AreChildren node (suc left) index [] = ⊥
AreChildren node (suc left) index (child ∷ children) =
    IsChild node index child × AreChildren node left (index + 1) children

-- The nodes, entries and children as this walk finds them.
abbrev pub OmapNodeAt : Reader → ℕ → ℕ → Bool → BtreeNode → Type 0
OmapNodeAt reader block_size = IsNodeAt reader block_size ExpectedStorage.physical none

abbrev pub IsOmapTree : Reader → ℕ → ℕ → Bool → Tree → Type 0
IsOmapTree reader block_size =
    IsTree (OmapNodeAt reader block_size)
      (λ node entries. AreEntries 16 16 node node.nkeys 0 entries)
      (λ node children. AreChildren node node.nkeys 0 children) (λ child at. child ≡ at)

abbrev pub AreOmapTrees : Reader → ℕ → List ℕ → Forest → Type 0
AreOmapTrees reader block_size =
    AreTrees (OmapNodeAt reader block_size)
      (λ node entries. AreEntries 16 16 node node.nkeys 0 entries)
      (λ node children. AreChildren node node.nkeys 0 children) (λ child at. child ≡ at)

module _ (max_xid sample_limit : ℕ) (reader : Reader) (r : IsReader reader) (block_size : ℕ) where
  abbrev Kept : List Event → SummarizeState → Type 0
  Kept = IsConsistent max_xid sample_limit

  joined :
      (es : List Event) (e : Event) (more : List Event) (s : SummarizeState)
      → Kept ((es ++ (e ∷ [])) ++ more) s
      → Kept (es ++ (e ∷ more)) s
  joined es e more s h = subst (λ all. Kept all s) (append_assoc es (e ∷ []) more) h

  mappings_loop-Settles :
      (node : BtreeNode) (paddr left index : ℕ) (es : List Event) (s : SummarizeState)
      → IsFixedNode node
      → Kept es s
      → Settles
          (λ t.
            (entries : List (List ℕ × List ℕ)) × AreEntries 16 16 node left index entries
            × Kept (es ++ entry_events paddr index entries) t)
          Unit
          (mappings_loop reader block_size max_xid sample_limit node left index s)
  unfolding mappings_loop
  mappings_loop-Settles node paddr zero index es s n c =
      ([], tt, subst (λ all. Kept all s) (sym (append-nil es)) c)
  mappings_loop-Settles node paddr (suc left) index es s n c =
      Settles-bind _ _ (entry node index) _ (n.slots index) (λ e p. tt)
        (λ slot p.
          let (key_returns, value_returns, key_width, value_width) =
            widths node n index slot 16 p in
          Settles-bind _ _ (key_bytes node slot 16) _ key_returns (λ e p. tt)
            (λ key q.
              Settles-bind _ _ (value_bytes node slot 16) _ value_returns (λ e p. tt)
                (λ value t.
                  rw
                    (
                      le_u64_lem key 0 (omega (arith, key_width key q)),
                      le_u64_lem key 8 (omega (arith, key_width key q)),
                      le_u32_lem value 0 (omega (arith, value_width value t)),
                      le_u32_lem value 4 (omega (arith, value_width value t)),
                      le_u64_lem value 8 (omega (arith, value_width value t)),
                    )
                    (Settles-weaken _ Unit _
                      (mappings_loop reader block_size max_xid sample_limit node left (index + 1)
                        (add_mapping max_xid sample_limit (mapping_of key value) s))
                      (λ u (entries, met, kept). (
                        (key, value) ∷ entries,
                        (record { slot = slot; slot_read = p; key_read = q; value_read = t }, met),
                        joined es (met_entry paddr index key value) _ u kept,
                      ))
                      (mappings_loop-Settles node paddr left (index + 1) _ _ n (
                        add_mapping-IsConsistent max_xid sample_limit paddr index key value es s
                          c))))))

  abbrev Walked : ℕ → Bool → List Event → SummarizeState → Type 0
  Walked paddr is_root es t =
      (tree : Tree) × IsOmapTree reader block_size paddr is_root tree × Kept (es ++ events tree) t

  children_loop-Settles :
      (walk_child : ℕ → SummarizeState → Outcome SummarizeState) (node : BtreeNode) (left index : ℕ)
      (es : List Event) (s : SummarizeState)
      → IsFixedNode node
      → ((child : ℕ) (es : List Event) (t : SummarizeState)
          → Kept es t
          → Settles (Walked child false es) Unit (walk_child child t))
      → Kept es s
      → Settles
          (λ t.
            (children : List ℕ) × (forest : Forest) × AreChildren node left index children
            × AreOmapTrees reader block_size children forest
            × Kept (es ++ forest_events forest) t)
          Unit
          (children_loop reader block_size max_xid sample_limit walk_child node left index s)
  unfolding children_loop AreTrees forest_events
  children_loop-Settles walk_child node zero index es s n w c =
      ([], bare, tt, tt, subst (λ all. Kept all s) (sym (append-nil es)) c)
  children_loop-Settles walk_child node (suc left) index es s n w c =
      Settles-bind _ _ (entry node index) _ (n.slots index) (λ e p. tt)
        (λ slot p.
          let (key_returns, value_returns, key_width, value_width) = widths node n index slot 8 p in
          Settles-bind _ _ (value_bytes node slot 8) _ value_returns (λ e p. tt)
            (λ value t.
              Settles-bind _ _ (whole_u64 value) _ (Returns-whole_u64 value (value_width value t))
                (λ e p. tt)
                (λ child q.
                  let below = w child es s c in
                  Settles-bind _ _ (walk_child child s) _ (Settles-Returns _ _ _ below) (λ e p. tt)
                    (λ next u.
                      let (tree, is_tree, kept) = Settles-ok _ _ _ u below in
                      Settles-weaken _ Unit _
                        (children_loop reader block_size max_xid sample_limit walk_child node left
                          (index + 1) next)
                        (λ last (children, forest, are_children, trees, all_kept). (
                          child ∷ children,
                          grow tree forest,
                          (
                            record {
                              slot = slot;
                              value = value;
                              slot_read = p;
                              value_read = t;
                              child_read = q;
                            },
                            are_children,
                          ),
                          ((child, refl, is_tree), trees),
                          subst (λ all. Kept all last)
                              (append_assoc es (events tree) (forest_events forest)) all_kept,
                        ))
                        (children_loop-Settles walk_child node left (index + 1) _ next n w kept)))))

  walk_node-Settles :
      (fuel paddr : ℕ) (is_root : Bool) (depth : ℕ) (es : List Event) (s : SummarizeState)
      → 128 < fuel + depth
      → depth ≤ 128
      → Kept es s
      → Settles
          (Walked paddr is_root es)
          Unit
          (walk_node reader block_size max_xid sample_limit fuel paddr is_root depth s)
  unfolding walk_node IsTree events
  walk_node-Settles zero paddr is_root depth es s h l c = absurd (omega arith)
  walk_node-Settles (suc fuel) paddr is_root depth es s h l c =
      Settles-reject_if _ _ (leb 128 depth) _ _ (λ t. tt)
        (λ shallow.
          Settles-reject_if _ _ (contains s.visited paddr) _ _ (λ t. tt)
            (λ fresh.
              let (returns, facts) =
                read_btree_node-IsBlock reader block_size paddr is_root ExpectedStorage.physical
                  none r in
              Settles-bind _ _
                (read_btree_node reader block_size paddr is_root ExpectedStorage.physical none) _
                returns (λ e p. tt)
                (λ (block, header) p.
                  let ((full, bytes), low, high) = facts block header p in
                  Settles-bind _ _ (parse block block_size) _ (Returns-parse block block_size)
                    (λ e p. tt)
                    (λ node q.
                      Settles-reject_if _ _ (not node.fixed_kv_size) _ _ (λ t. tt)
                        (λ fixed.
                          let n =
                            parse-IsFixedNode block block_size node full high q
                              (opposite_false _ fixed) in
                          Settles-if _ _ node.is_leaf _ _
                            (λ is_leaf.
                              Settles-weaken _ Unit (Walked paddr is_root es)
                                (mappings_loop reader block_size max_xid sample_limit node
                                  node.nkeys 0 (count_node true (visit paddr s)))
                                (λ t (entries, met, kept). (
                                  leaf paddr node entries,
                                  (
                                    refl,
                                    record { block = block; header = header; read = p; parsed = q },
                                    is_leaf,
                                    met,
                                  ),
                                  joined es (visited_node true paddr) _ t kept,
                                ))
                                (mappings_loop-Settles node paddr node.nkeys 0 _ _ n (
                                  visit-IsConsistent max_xid sample_limit true paddr es s fresh c)))
                            (λ is_inner.
                              Settles-weaken _ Unit (Walked paddr is_root es)
                                (children_loop reader block_size max_xid sample_limit _ node
                                  node.nkeys 0 (count_node false (visit paddr s)))
                                (λ t (children, forest, are_children, trees, kept). (
                                  inner paddr node forest,
                                  (
                                    refl,
                                    record { block = block; header = header; read = p; parsed = q },
                                    is_inner,
                                    (children, are_children, trees),
                                  ),
                                  joined es (visited_node false paddr) _ t kept,
                                ))
                                (children_loop-Settles _ node node.nkeys 0 _ _ n
                                  (λ child es t d.
                                    walk_node-Settles fuel child false (depth + 1) es t
                                      (omega arith) (omega (tests, shallow)) d)
                                  (visit-IsConsistent max_xid sample_limit false paddr es s fresh
                                    c))))))))

-- What a summary counts.
pub record IsTotal (resolver : OmapResolver) (reader : Reader) (block_size max_xid sample_limit : ℕ)
    (summary : OmapSummary) : Type 0 where
  pub same_phys : summary.phys ≡ resolver.phys
  pub tree : Tree
  pub is_tree : IsOmapTree reader block_size resolver.tree_root_paddr true tree
  pub leaves : summary.leaf_node_count ≡ number_visited true (events tree) % 2 ^ 32
  pub inners : summary.index_node_count ≡ number_visited false (events tree) % 2 ^ 32
  pub unique : IsUnique (addresses_onto (events tree) [])
  pub counted : summary.mapping_count ≡ length (mappings_in max_xid (events tree)) % 2 ^ 32
  pub sampled : summary.sample_mappings ≡ take sample_limit (mappings_in max_xid (events tree))
  pub observed : summary.max_observed_xid ≡ top_xid (mappings_in max_xid (events tree))
  pub flagged : summary.flagged_values ≡ flags_in (events tree) no_flags

-- The walk of a whole map returns on any source that keeps the contract of `Read`. Its summary is
-- that of a tree: the node at the root of the map, as the reader has it, and below each index node
-- the trees at the addresses that stand in it; no address comes twice. On 32 bits, the leaves, the
-- index nodes and the mappings of transactions up to `max_xid` in the leaves are counted; the
-- samples are the first of these mappings up to the limit, with every field, the highest transaction
-- is theirs, and the flags of all mappings are counted.
pub summarize-IsTotal :
    (resolver : OmapResolver) (reader : Reader) (block_size max_xid sample_limit : ℕ)
    → IsReader reader
    → Settles
        (IsTotal resolver reader block_size max_xid sample_limit)
        Unit
        (summarize resolver reader block_size max_xid sample_limit)
unfolding summarize IsUnique mappings_in top_xid flags_in number_visited addresses_onto
summarize-IsTotal resolver reader block_size max_xid sample_limit r =
    let walk =
      walk_node-Settles max_xid sample_limit reader r block_size 129 resolver.tree_root_paddr true 0
        [] start (omega arith) (omega arith) started in
    Settles-bind _ _
      (walk_node reader block_size max_xid sample_limit 129 resolver.tree_root_paddr true 0 start) _
      (Settles-Returns _ _ _ walk) (λ e p. tt)
      (λ t p.
        let (tree, is_tree, c) = Settles-ok _ _ _ p walk in
        record {
          same_phys = refl;
          tree = tree;
          is_tree = is_tree;
          leaves = c.leaves;
          inners = c.inners;
          unique = subst IsUnique c.places c.unique;
          counted = c.counted;
          sampled = c.sampled;
          observed = c.observed;
          flagged = c.flagged;
        })
  where
    start : SummarizeState
    start = record {
      leaf_node_count = 0;
      index_node_count = 0;
      mapping_count = 0;
      max_observed_xid = 0;
      flagged_values = no_flags;
      samples = [];
      visited = [];
    }

    started : IsConsistent max_xid sample_limit [] start
    started = record {
      leaves = refl;
      inners = refl;
      counted = refl;
      sampled = sym (take-nil {A = OmapDumpEntry} sample_limit);
      observed = refl;
      flagged = refl;
      places = refl;
      unique = tt;
    }
