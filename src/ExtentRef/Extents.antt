-- ===== src/ExtentRef/Extents.antt =====
-- What the walk of an extent-reference tree keeps, and which trees it accepts.
use apfs_fastindex.Base.{
  ℕ, zero, suc, ◌+◌, ◌/◌, ◌%◌, ◌^◌, ◌≤◌, ◌<◌, ◌≡◌, ◌≢◌, refl, Bool, true, false, some, List, [],
  ◌∷◌, length, ltb, ◌==◌, ◌++◌, arith,
}
use mathlib.Core.List.{append_assoc}
use mathlib.Core.Path.{subst}
use apfs_fastindex.Base.Bits.{bit_and_low}
use apfs_fastindex.Outcome.{
  ok, Settles-weaken, Settles, Settles-bind, Settles-if, Settles-Returns, Settles-ok, Returns,
  extent_depth_exceeded, extent_cycle, extent_fixed, extent_child_too_short, extent_child_unmapped,
}
use apfs_fastindex.BlockIo.{Reader}
use apfs_fastindex.BlockIo.Reading.{IsReader}
use apfs_fastindex.Omap.{OmapResolver}
use apfs_fastindex.Omap.Summarize.Kept.{IsUnique}
use apfs_fastindex.RecordBody.Keys.Fits.{same, other}
use apfs_fastindex.TreeWalk.{entries_loop, child_oids, descend}
use apfs_fastindex.TreeWalk.Trace.{
  Tree, leaf, inner, Event, visited_node, entry_events, events, forest_events, number_visited,
  addresses_onto, AreEntries, IsNodeAt, IsTree,
}
use apfs_fastindex.TreeWalk.Variable.{node_steps}
use apfs_fastindex.TreeWalk.Descent.{
  entries_loop-Settles, descend-Settles, Returns-child_oids, Returns-resolve_child,
}
use apfs_fastindex.ExtentRef.{
  ExtentRefStorage, from_type_raw, expected_storage, ExtentDumpState, ExtentRefDump,
  visit_extent_node, add_extent, extent_child, walk_extent_node, dump_extent_refs,
}
use apfs_fastindex.ExtentRef.Kept.{
  IsConsistent, visit_extent_node-IsConsistent, add_extent-IsConsistent, extents_in, others_in,
}

-- The byte of the storage class.
abbrev pub class_byte : ℕ → ℕ
class_byte type_raw = type_raw / 2 ^ 24 % 2 ^ 8

abbrev pub StorageFits : ℕ → ExtentRefStorage → Type 0
StorageFits type_raw ExtentRefStorage.virtual = class_byte type_raw ≡ 0x00
StorageFits type_raw ExtentRefStorage.physical = class_byte type_raw ≡ 0x40

-- `from_type_raw` gives the storage class that the high byte names, and an error exactly if it
-- names neither.
pub from_type_raw-StorageFits :
    (type_raw : ℕ)
    → Settles
        (StorageFits type_raw)
        ((class_byte type_raw ≢ 0x00) × (class_byte type_raw ≢ 0x40))
        (from_type_raw type_raw)
unfolding from_type_raw
from_type_raw-StorageFits type_raw = rw (bit_and_low 8 (type_raw / 2 ^ 24)) (
    Settles-if _ _ (class_byte type_raw == 0x00) _ _ (λ v. same _ _ v)
      (λ no_virtual.
        Settles-if _ _ (class_byte type_raw == 0x40) _ _ (λ p. same _ _ p)
          (λ no_physical. (other _ _ no_virtual, other _ _ no_physical))))

module _ (reader : Reader) (block_size max_xid : ℕ) (storage : ExtentRefStorage)
    (volume_omap : OmapResolver) where
  -- The nodes, entries and children as this walk finds them.
  abbrev pub IsExtentTree : ℕ → Bool → Tree → Type 0
  IsExtentTree =
      IsTree (IsNodeAt reader block_size (expected_storage storage) (some max_xid))
        (λ node entries. AreEntries 0 0 node node.nkeys 0 entries)
        (λ node children. child_oids extent_child_too_short node node.nkeys 0 ≡ ok children)
        (λ child at.
          extent_child reader block_size max_xid storage volume_omap storage child ≡ ok at)

module _ (reader : Reader) (r : IsReader reader) (block_size max_xid : ℕ)
    (storage : ExtentRefStorage) (volume_omap : OmapResolver) where
  Returns-extent_child :
      (kind : ExtentRefStorage) (child : ℕ)
      → Returns (extent_child reader block_size max_xid storage volume_omap kind child)
  unfolding extent_child
  Returns-extent_child ExtentRefStorage.physical child = tt
  Returns-extent_child ExtentRefStorage.virtual child =
      Returns-resolve_child extent_child_unmapped volume_omap reader block_size max_xid child r

  abbrev Walked : ℕ → Bool → List Event → ExtentDumpState → Type 0
  Walked paddr is_root es t =
      (tree : Tree) × IsExtentTree reader block_size max_xid storage volume_omap paddr is_root tree
      × IsConsistent (es ++ events tree) t

  walk_extent_node-Settles :
      (fuel paddr : ℕ) (is_root : Bool) (depth : ℕ) (es : List Event) (s : ExtentDumpState)
      → 128 < fuel + depth
      → depth ≤ 128
      → IsConsistent es s
      → Settles (Walked paddr is_root es) Unit (
          walk_extent_node reader block_size max_xid storage volume_omap fuel paddr is_root depth s)
  unfolding walk_extent_node IsTree events
  walk_extent_node-Settles zero paddr is_root depth es s h l c = absurd (omega arith)
  walk_extent_node-Settles (suc fuel) paddr is_root depth es s h l c =
      node_steps (Walked paddr is_root es) reader block_size paddr depth is_root
        (expected_storage storage) (some max_xid) s.visited extent_depth_exceeded extent_cycle
        extent_fixed _ r
        (λ header node at n shallow fresh.
          let visited =
            visit_extent_node-IsConsistent (ltb max_xid header.xid) node.is_leaf paddr header.xid es
              s fresh c in
          Settles-if _ _ node.is_leaf _ _
            (λ is_leaf.
              Settles-weaken _ Unit (Walked paddr is_root es)
                (entries_loop (add_extent paddr) node node.nkeys 0 _)
                (λ t (entries, met, kept). (
                  leaf paddr node entries,
                  (refl, at, is_leaf, met),
                  joined_visit es true paddr (entry_events paddr 0 entries) t kept,
                ))
                (entries_loop-Settles IsConsistent (add_extent paddr) node paddr node.nkeys 0 _ _ n
                  (λ es index key value. add_extent-IsConsistent paddr index key value es)
                  (subst
                    (λ b.
                      IsConsistent (es ++ (visited_node b paddr ∷ [])) (
                        visit_extent_node (ltb max_xid header.xid) node.is_leaf paddr header.xid s))
                    is_leaf visited)))
            (λ is_inner.
              Settles-bind _ _ (child_oids extent_child_too_short node node.nkeys 0) _
                (Returns-child_oids extent_child_too_short node node.nkeys 0 n) (λ e p. tt)
                (λ children p.
                  Settles-weaken _ Unit (Walked paddr is_root es) (descend _ _ children _)
                    (λ t (forest, trees, kept). (
                      inner paddr node forest,
                      (refl, at, is_inner, (children, p, trees)),
                      joined_visit es false paddr (forest_events forest) t kept,
                    ))
                    (descend-Settles IsConsistent _ _ _ _ _ _ children _ _
                      (Returns-extent_child storage) (λ child at p. p)
                      (λ paddr es t d.
                        walk_extent_node-Settles fuel paddr false (depth + 1) es t (omega arith)
                          (omega arith) d)
                      (subst
                        (λ b. IsConsistent (es ++ (visited_node b paddr ∷ [])) (
                          visit_extent_node (ltb max_xid header.xid) node.is_leaf paddr header.xid
                            s))
                        is_inner visited)))))
    where
      joined_visit :
          (es : List Event) (b : Bool) (paddr : ℕ) (more : List Event) (t : ExtentDumpState)
          → IsConsistent ((es ++ (visited_node b paddr ∷ [])) ++ more) t
          → IsConsistent (es ++ (visited_node b paddr ∷ more)) t
      joined_visit es b paddr more t k =
          subst (λ all. IsConsistent all t) (append_assoc es (visited_node b paddr ∷ []) more) k

-- What a dump of an extent-reference tree says.
pub record IsExtentDump (reader : Reader) (block_size root_paddr max_xid : ℕ)
    (storage : ExtentRefStorage) (volume_omap : OmapResolver) (dump : ExtentRefDump) : Type 0 where
  pub root : dump.root_paddr ≡ root_paddr
  pub xid : dump.max_xid ≡ max_xid
  pub class : dump.storage_class ≡ storage
  pub tree : Tree
  pub is_tree : IsExtentTree reader block_size max_xid storage volume_omap root_paddr true tree
  pub leaves : dump.leaf_node_count ≡ number_visited true (events tree) % 2 ^ 32
  pub inners : dump.index_node_count ≡ number_visited false (events tree) % 2 ^ 32
  pub unique : IsUnique (addresses_onto (events tree) [])
  pub listed : dump.records ≡ extents_in (events tree)
  pub counted : dump.leaf_record_count ≡ length dump.records % 2 ^ 32
  pub unsupported : dump.unsupported_record_count ≡ others_in (events tree) % 2 ^ 32

pub dump_extent_refs-IsExtentDump :
    (reader : Reader) (block_size root_paddr : ℕ) (storage : ExtentRefStorage) (max_xid : ℕ)
    (volume_omap : OmapResolver)
    → (r : IsReader reader)
    → Settles
        (IsExtentDump reader block_size root_paddr max_xid storage volume_omap)
        Unit
        (dump_extent_refs reader block_size root_paddr storage max_xid volume_omap)
unfolding dump_extent_refs IsUnique extents_in others_in number_visited addresses_onto
dump_extent_refs-IsExtentDump reader block_size root_paddr storage max_xid volume_omap r =
    let walk =
      walk_extent_node-Settles reader r block_size max_xid storage volume_omap 129 root_paddr true 0
        [] start (omega arith) (omega arith) started in
    Settles-bind _ _
      (walk_extent_node reader block_size max_xid storage volume_omap 129 root_paddr true 0 start) _
      (Settles-Returns _ _ _ walk) (λ e p. tt)
      (λ t p.
        let (tree, is_tree, c) = Settles-ok _ _ _ p walk in
        record {
          root = refl;
          xid = refl;
          class = refl;
          tree = tree;
          is_tree = is_tree;
          leaves = c.leaves;
          inners = c.inners;
          unique = subst IsUnique c.places c.unique;
          listed = c.listed;
          counted = c.counted;
          unsupported = c.unsupported;
        })
  where
    start : ExtentDumpState
    start = record {
      leaf_node_count = 0;
      index_node_count = 0;
      leaf_record_count = 0;
      unsupported_record_count = 0;
      records = [];
      validation_notes = [];
      visited = [];
    }

    started : IsConsistent [] start
    started = record {
      leaves = refl;
      inners = refl;
      listed = refl;
      counted = refl;
      unsupported = refl;
      places = refl;
      unique = tt;
    }
