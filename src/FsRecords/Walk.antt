-- ===== src/FsRecords/Walk.antt =====
-- What the walk of a file-system tree keeps: its counters agree with the rows that it lists.
use apfs_fastindex.Base.{
  ℕ, zero, suc, ◌+◌, ◌%◌, ◌^◌, ◌≤◌, ◌<◌, ◌≡◌, refl, ◌∙◌, Bool, true, false, Option, some, List, [],
  ◌∷◌, ◌++◌, length, ltb, arith,
}
use mathlib.Core.Path.{subst}
use mathlib.Core.List.{append_assoc}
use apfs_fastindex.Outcome.{
  ok, Settles-weaken, Settles, Settles-bind, Settles-if, Settles-Returns, Settles-ok,
  fs_tree_depth_exceeded, fs_tree_cycle, fs_tree_fixed, fs_child_too_short, fs_child_unmapped,
}
use apfs_fastindex.BlockIo.{Reader}
use apfs_fastindex.BlockIo.Reading.{IsReader}
use apfs_fastindex.Omap.{OmapResolver, contains}
use apfs_fastindex.Omap.Summarize.Kept.{IsUnique}
use apfs_fastindex.TreeWalk.{entries_loop, child_oids, resolve_child, descend}
use apfs_fastindex.TreeWalk.Trace.{
  Tree, leaf, inner, Event, visited_node, entry_events, events, forest_events, number_visited,
  addresses_onto, AreEntries, IsNodeAt, IsTree,
}
use apfs_fastindex.TreeWalk.Variable.{node_steps}
use apfs_fastindex.TreeWalk.Descent.{
  entries_loop-Settles, descend-Settles, Returns-child_oids, Returns-resolve_child,
}
use apfs_fastindex.FsRecords.{
  DumpState, FsRecordDump, fs_tree_storage, is_known_record_family, visit_node, add_record,
  walk_fs_node, dump_fs_records,
}
use apfs_fastindex.FsRecords.Counts.{AreRows, reported, family_rows-AreRows, count_of, number_of}
use apfs_fastindex.FsRecords.Kept.{
  IsConsistent, visit_node-IsConsistent, add_record-IsConsistent, rows_in, unknown_in, names_object,
}

module _ (from_utf8 : List ℕ → Option (List ℕ)) where
  module _ (reader : Reader) (block_size max_xid : ℕ) (volume_omap : OmapResolver) where
    -- The nodes, entries and children as this walk finds them.
    abbrev pub IsFsTree : ℕ → Bool → Tree → Type 0
    IsFsTree =
        IsTree (IsNodeAt reader block_size fs_tree_storage (some max_xid))
          (λ node entries. AreEntries 0 0 node node.nkeys 0 entries)
          (λ node children. child_oids fs_child_too_short node node.nkeys 0 ≡ ok children)
          (λ child at.
            resolve_child fs_child_unmapped volume_omap reader block_size max_xid child ≡ ok at)

    -- What a dump of a file-system tree says.
    pub record IsDump (root_paddr : ℕ) (dump : FsRecordDump) : Type 0 where
      pub root : dump.root_paddr ≡ root_paddr
      pub xid : dump.max_xid ≡ max_xid
      pub tree : Tree
      pub is_tree : IsFsTree root_paddr true tree
      pub leaves : dump.leaf_node_count ≡ number_visited true (events tree) % 2 ^ 32
      pub inners : dump.index_node_count ≡ number_visited false (events tree) % 2 ^ 32
      pub unique : IsUnique (addresses_onto (events tree) [])
      pub listed : dump.records ≡ rows_in from_utf8 (events tree)
      pub counted :
          dump.leaf_record_count ≡ (length dump.records + unknown_in (events tree)) % 2 ^ 32
      pub unsupported : dump.unsupported_record_count ≡ unknown_in (events tree) % 2 ^ 32
      pub rows : AreRows 0 dump.family_counts
      pub families :
          (t : ℕ)
          → is_known_record_family t ≡ true
          → reported t dump.family_counts ≡ number_of t dump.records % 2 ^ 32
      pub object_ids : List ℕ
      pub objects : (id : ℕ) → contains object_ids id ≡ names_object id (events tree)
      pub distinct : IsUnique object_ids
      pub ids_counted : dump.unique_object_ids ≡ length object_ids % 2 ^ 32

  module _ (reader : Reader) (r : IsReader reader) (block_size max_xid : ℕ)
      (volume_omap : OmapResolver) where
    abbrev Walked : ℕ → Bool → List Event → DumpState → Type 0
    Walked paddr is_root es t =
        (tree : Tree) × IsFsTree reader block_size max_xid volume_omap paddr is_root tree
        × IsConsistent from_utf8 (es ++ events tree) t

    walk_fs_node-Settles :
        (fuel paddr : ℕ) (is_root : Bool) (depth : ℕ) (es : List Event) (s : DumpState)
        → 128 < fuel + depth
        → depth ≤ 128
        → IsConsistent from_utf8 es s
        → Settles (Walked paddr is_root es) Unit (
            walk_fs_node from_utf8 reader block_size max_xid volume_omap fuel paddr is_root depth s)
    unfolding walk_fs_node IsTree events
    walk_fs_node-Settles zero paddr is_root depth es s h l c = absurd (omega arith)
    walk_fs_node-Settles (suc fuel) paddr is_root depth es s h l c =
        node_steps (Walked paddr is_root es) reader block_size paddr depth is_root fs_tree_storage
          (some max_xid) s.visited fs_tree_depth_exceeded fs_tree_cycle fs_tree_fixed _ r
          (λ header node at n shallow fresh.
            let visited =
              visit_node-IsConsistent from_utf8 (ltb max_xid header.xid) node.is_leaf paddr
                header.xid es s fresh c in
            Settles-if _ _ node.is_leaf _ _
              (λ is_leaf.
                Settles-weaken _ Unit (Walked paddr is_root es)
                  (entries_loop (add_record from_utf8 paddr) node node.nkeys 0 _)
                  (λ t (entries, met, kept). (
                    leaf paddr node entries,
                    (refl, at, is_leaf, met),
                    joined_visit es true paddr (entry_events paddr 0 entries) t kept,
                  ))
                  (entries_loop-Settles (IsConsistent from_utf8) (add_record from_utf8 paddr) node
                    paddr node.nkeys 0 _ _ n
                    (λ es index key value s k v c.
                      add_record-IsConsistent from_utf8 paddr index key value es s c k v)
                    (subst
                      (λ b.
                        IsConsistent from_utf8 (es ++ (visited_node b paddr ∷ []))
                          (visit_node (ltb max_xid header.xid) node.is_leaf paddr header.xid s))
                      is_leaf visited)))
              (λ is_inner.
                Settles-bind _ _ (child_oids fs_child_too_short node node.nkeys 0) _
                  (Returns-child_oids fs_child_too_short node node.nkeys 0 n) (λ e p. tt)
                  (λ children p.
                    Settles-weaken _ Unit (Walked paddr is_root es) (descend _ _ children _)
                      (λ t (forest, trees, kept). (
                        inner paddr node forest,
                        (refl, at, is_inner, (children, p, trees)),
                        joined_visit es false paddr (forest_events forest) t kept,
                      ))
                      (descend-Settles (IsConsistent from_utf8) _ _ _ _ _ _ children _ _
                        (λ child.
                          Returns-resolve_child fs_child_unmapped volume_omap reader block_size
                            max_xid child r)
                        (λ child at p. p)
                        (λ paddr es t d.
                          walk_fs_node-Settles fuel paddr false (depth + 1) es t (omega arith)
                            (omega arith) d)
                        (subst
                          (λ b.
                            IsConsistent from_utf8 (es ++ (visited_node b paddr ∷ []))
                              (visit_node (ltb max_xid header.xid) node.is_leaf paddr header.xid s))
                          is_inner visited)))))
      where
        joined_visit :
            (es : List Event) (b : Bool) (paddr : ℕ) (more : List Event) (t : DumpState)
            → IsConsistent from_utf8 ((es ++ (visited_node b paddr ∷ [])) ++ more) t
            → IsConsistent from_utf8 (es ++ (visited_node b paddr ∷ more)) t
        joined_visit es b paddr more t k =
            subst (λ all. IsConsistent from_utf8 all t)
              (append_assoc es (visited_node b paddr ∷ []) more) k

  pub dump_fs_records-IsDump :
      (reader : Reader) (block_size volume_index volume_oid root_paddr max_xid : ℕ)
      (volume_omap : OmapResolver) (r : IsReader reader)
      → Settles (IsDump reader block_size max_xid volume_omap root_paddr) Unit (
          dump_fs_records from_utf8 reader block_size volume_index volume_oid root_paddr max_xid
            volume_omap)
  unfolding dump_fs_records IsUnique count_of number_of rows_in unknown_in names_object
      number_visited addresses_onto contains
  dump_fs_records-IsDump reader block_size volume_index volume_oid root_paddr max_xid volume_omap
        r =
      let walk =
        walk_fs_node-Settles reader r block_size max_xid volume_omap 129 root_paddr true 0 [] start
          (omega arith) (omega arith) started in
      Settles-bind _ _
        (walk_fs_node from_utf8 reader block_size max_xid volume_omap 129 root_paddr true 0 start) _
        (Settles-Returns _ _ _ walk) (λ e p. tt)
        (λ t p.
          let (tree, is_tree, c) = Settles-ok _ _ _ p walk in
          let (rows, families) = family_rows-AreRows 0 t.family_counts c.sorted in
          record {
            root = refl;
            xid = refl;
            tree = tree;
            is_tree = is_tree;
            leaves = c.leaves;
            inners = c.inners;
            unique = subst IsUnique c.places c.unique;
            listed = c.listed;
            counted = c.counted;
            unsupported = c.unsupported;
            rows = rows;
            families = λ u k. families u ∙ c.families u k;
            object_ids = t.unique_object_ids;
            objects = c.objects;
            distinct = c.ids;
            ids_counted = refl;
          })
    where
      start : DumpState
      start = record {
        leaf_node_count = 0;
        index_node_count = 0;
        leaf_record_count = 0;
        family_counts = [];
        unsupported_record_count = 0;
        unique_object_ids = [];
        validation_notes = [];
        records = [];
        visited = [];
      }

      started : IsConsistent from_utf8 [] start
      started = record {
        leaves = refl;
        inners = refl;
        listed = refl;
        counted = refl;
        unsupported = refl;
        sorted = tt;
        families = λ t k. refl;
        objects = λ id. refl;
        ids = tt;
        places = refl;
        unique = tt;
      }
