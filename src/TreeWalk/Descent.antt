-- ===== src/TreeWalk/Descent.antt =====
-- What the shared loops keep: they return if their steps do, and what each step keeps holds at the
-- end.
use apfs_fastindex.Base.{
  ℕ, zero, suc, ◌+◌, Option, none, some, List, [], ◌∷◌, ◌++◌, ◌≡◌, sym, Bool, false, length, ltb,
  All, tests,
}
use mathlib.Core.List.{append_assoc, append-nil}
use mathlib.Core.Path.{subst}
use apfs_fastindex.TreeWalk.Trace.{
  Tree, Forest, bare, grow, Event, met_entry, entry_events, events, forest_events, AreEntries,
  IsTree, AreTrees,
}
use apfs_fastindex.Outcome.{
  ok, Settles-weaken, Outcome, Reason, Returns, Returns-bind, Returns-reject_if, reject_if-eq-ok,
  Settles, Settles-bind, Settles-Returns, Settles-ok,
}
use apfs_fastindex.BlockIo.{Reader, IsByte}
use apfs_fastindex.BlockIo.Fields.{le_u64_lem}
use apfs_fastindex.BlockIo.Reading.{IsReader}
use apfs_fastindex.Btree.{BtreeNode, entry, key_bytes, value_bytes}
use apfs_fastindex.Omap.{OmapResolver, OmapValue}
use apfs_fastindex.Omap.Search.{Returns-lookup}
use apfs_fastindex.TreeWalk.{entries_loop, child_oids, mapped_paddr, resolve_child, descend}
use apfs_fastindex.TreeWalk.Variable.{
  IsReadable, Returns-key_bytes, Returns-value_bytes, key_bytes-IsByte, value_bytes-IsByte,
}

-- A state goes with the events of the walk so far.
module _ {ℓ} {S : Type ℓ} (P : List Event → S → Type 0) where
  joined :
      (es : List Event) (e : Event) (more : List Event) (s : S)
      → P ((es ++ (e ∷ [])) ++ more) s
      → P (es ++ (e ∷ more)) s
  joined es e more s h = subst (λ all. P all s) (append_assoc es (e ∷ []) more) h

  -- A leaf keeps what each of its entries keeps.
  pub entries_loop-Settles :
      (add : ℕ → List ℕ → List ℕ → S → Outcome S) (node : BtreeNode) (paddr left index : ℕ)
      (es : List Event) (state : S)
      → IsReadable node
      → ((es : List Event) (index : ℕ) (key value : List ℕ) (state : S)
          → All IsByte key
          → All IsByte value
          → P es state
          → Settles
              (P (es ++ (met_entry paddr index key value ∷ [])))
              Unit
              (add index key value state))
      → P es state
      → Settles
          (λ t.
            (entries : List (List ℕ × List ℕ)) × AreEntries 0 0 node left index entries
            × P (es ++ entry_events paddr index entries) t)
          Unit
          (entries_loop add node left index state)
  unfolding entries_loop
  entries_loop-Settles add node paddr zero index es state n step h =
      ([], tt, subst (λ all. P all state) (sym (append-nil es)) h)
  entries_loop-Settles add node paddr (suc left) index es state n step h =
      Settles-bind _ _ (entry node index) _ (n.slots index) (λ e p. tt)
        (λ slot i.
          Settles-bind _ _ (key_bytes node slot 0) _ (Returns-key_bytes node n slot 0) (λ e p. tt)
            (λ key p.
              Settles-bind _ _ (value_bytes node slot 0) _ (Returns-value_bytes node n slot 0)
                (λ e p. tt)
                (λ value q.
                  let added =
                    step es index key value state (key_bytes-IsByte node n slot 0 key p)
                      (value_bytes-IsByte node n slot 0 value q) h in
                  Settles-bind _ _ (add index key value state) _ (Settles-Returns _ _ _ added)
                    (λ e p. tt)
                    (λ next t.
                      Settles-weaken _ Unit _ (entries_loop add node left (index + 1) next)
                        (λ u (entries, met, kept). (
                          (key, value) ∷ entries,
                          (
                            record { slot = slot; slot_read = i; key_read = p; value_read = q },
                            met,
                          ),
                          joined es (met_entry paddr index key value) _ u kept,
                        ))
                        (entries_loop-Settles add node paddr left (index + 1) _ next n step
                          (Settles-ok _ _ _ t added))))))

  module _ (NodeAt : ℕ → Bool → BtreeNode → Type 0)
      (Entries : BtreeNode → List (List ℕ × List ℕ) → Type 0)
      (Children : BtreeNode → List ℕ → Type 0) (ChildAt : ℕ → ℕ → Type 0) where
    -- The walk of the tree at an address keeps it.
    abbrev pub Walks : ℕ → Bool → List Event → S → Type 0
    Walks paddr is_root es t =
        (tree : Tree) × IsTree NodeAt Entries Children ChildAt paddr is_root tree
        × P (es ++ events tree) t

    -- A loop over children keeps what the walk of each child keeps.
    pub descend-Settles :
        (resolve : ℕ → Outcome ℕ) (walk_child : ℕ → S → Outcome S) (children : List ℕ)
        (es : List Event) (state : S)
        → ((child : ℕ) → Returns (resolve child))
        → ((child at : ℕ) → resolve child ≡ ok at → ChildAt child at)
        → ((paddr : ℕ) (es : List Event) (state : S)
            → P es state
            → Settles (Walks paddr false es) Unit (walk_child paddr state))
        → P es state
        → Settles
            (λ t.
              (forest : Forest) × AreTrees NodeAt Entries Children ChildAt children forest
              × P (es ++ forest_events forest) t)
            Unit
            (descend resolve walk_child children state)
    unfolding descend AreTrees forest_events
    descend-Settles resolve walk_child [] es state r c w h =
        (bare, tt, subst (λ all. P all state) (sym (append-nil es)) h)
    descend-Settles resolve walk_child (child ∷ children) es state r c w h =
        Settles-bind _ _ (resolve child) _ (r child) (λ e p. tt)
          (λ paddr p.
            let below = w paddr es state h in
            Settles-bind _ _ (walk_child paddr state) _ (Settles-Returns _ _ _ below) (λ e p. tt)
              (λ next t.
                let (tree, is_tree, kept) = Settles-ok _ _ _ t below in
                Settles-weaken _ Unit _ (descend resolve walk_child children next)
                  (λ u (forest, trees, all_kept). (
                    grow tree forest,
                    ((paddr, c child paddr p, is_tree), trees),
                    subst (λ all. P all u) (append_assoc es (events tree) (forest_events forest))
                        all_kept,
                  ))
                  (descend-Settles resolve walk_child children _ next r c w kept)))

pub Returns-child_oids :
    (too_short : Reason) (node : BtreeNode) (left index : ℕ)
    → IsReadable node
    → Returns (child_oids too_short node left index)
unfolding child_oids
Returns-child_oids too_short node zero index n = tt
Returns-child_oids too_short node (suc left) index n =
    Returns-bind (entry node index) _ (n.slots index) (λ slot _.
      Returns-bind (value_bytes node slot 8) _ (Returns-value_bytes node n slot 8) (λ value _.
        Returns-bind _ _ (Returns-reject_if (ltb (length value) 8) _) (λ u long.
          rw (le_u64_lem value 0 (omega (tests, reject_if-eq-ok (ltb (length value) 8) _ long))) (
            Returns-bind _ _ (Returns-child_oids too_short node left (index + 1) n)
              (λ children _. tt)))))

pub Returns-resolve_child :
    (unmapped : Reason) (volume_omap : OmapResolver) (reader : Reader)
    (block_size max_xid child_oid : ℕ)
    → IsReader reader
    → Returns (resolve_child unmapped volume_omap reader block_size max_xid child_oid)
unfolding resolve_child mapped_paddr
Returns-resolve_child unmapped volume_omap reader block_size max_xid child_oid r =
    Returns-bind _ _ (Returns-lookup volume_omap reader block_size child_oid max_xid r)
      (λ mapping _. found mapping)
  where
    found : (mapping : Option OmapValue) → Returns (mapped_paddr unmapped mapping)
    found none = tt
    found (some mapping) = tt
