-- ===== src/ExtentRef/Kept.antt =====
-- What the walk of an extent-reference tree keeps, node by node and entry by entry.
use apfs_fastindex.Base.{
  ℕ, ◌+◌, ◌/◌, ◌%◌, ◌^◌, ◌<◌, ◌≡◌, refl, Bool, true, false, not, List, [], ◌∷◌, length,
  length-append, ltb, ◌==◌, All, ◌++◌, sym, ap, ◌∙◌, opposite_false, Bool-cases, inl, inr,
  if◌then◌else◌, tests, arith, bit_and,
}
use mathlib.Core.List.{append-nil}
use apfs_fastindex.Base.Bits.{bit_and_low}
use apfs_fastindex.Base.Int.{i32_of_word}
use apfs_fastindex.Outcome.{Settles, Settles-if, Settles-reject_if}
use apfs_fastindex.BlockIo.{IsByte}
use apfs_fastindex.BlockIo.Fields.{field, field-lt, le_u32_lem, le_u64_lem}
use apfs_fastindex.Omap.{contains}
use apfs_fastindex.Omap.Summarize.Kept.{IsUnique}
use apfs_fastindex.TreeWalk.Trace.{
  Event, visited_node, met_entry, number_visited, addresses_onto, count_leaf, count_inner,
  addresses_onto-visit, entry_places,
}
use apfs_fastindex.ExtentRef.{PhysExtRecord, ExtentDumpState, visit_extent_node, add_extent}

-- The extent that a key and a value spell: address, length and kind take the words apart.
abbrev pub extent_of : List ℕ → List ℕ → PhysExtRecord
extent_of key value = record {
  paddr_first = field 8 key 0 % 2 ^ 60;
  length_blocks = field 8 value 0 % 2 ^ 60;
  kind = field 8 value 0 / 2 ^ 60 % 16;
  owning_obj_id = field 8 value 8;
  refcnt = i32_of_word (field 4 value 16);
}

-- The high four bits of a key's word name extents.
abbrev pub is_extent_key : List ℕ → Bool
is_extent_key key = field 8 key 0 / 2 ^ 60 == 2

-- The extents of the entries of a walk, in its order.
unfoldable pub extents_in : List Event → List PhysExtRecord
extents_in [] = []
extents_in (visited_node is_leaf paddr ∷ es) = extents_in es
extents_in (met_entry paddr index key value ∷ es) =
    if is_extent_key key then extent_of key value ∷ extents_in es else extents_in es

-- How many entries are no extents.
unfoldable pub others_in : List Event → ℕ
others_in [] = 0
others_in (visited_node is_leaf paddr ∷ es) = others_in es
others_in (met_entry paddr index key value ∷ es) =
    (if is_extent_key key then 0 else 1) + others_in es

extents_in-append :
    (es more : List Event) → extents_in (es ++ more) ≡ extents_in es ++ extents_in more
unfolding extents_in
extents_in-append [] more = refl
extents_in-append (visited_node is_leaf paddr ∷ es) more = extents_in-append es more
extents_in-append (met_entry paddr index key value ∷ es) more =
    elim (Bool-cases (is_extent_key key)) [
      | inl e ↦
          rw e
            (ap (λ (t : List PhysExtRecord). extent_of key value ∷ t) (extents_in-append es more))
      | inr d ↦ rw d (extents_in-append es more)
    ]

others_in-append : (es more : List Event) → others_in (es ++ more) ≡ others_in es + others_in more
unfolding others_in
others_in-append [] more = omega arith
others_in-append (visited_node is_leaf paddr ∷ es) more = others_in-append es more
others_in-append (met_entry paddr index key value ∷ es) more =
    omega (arith, others_in-append es more)

-- What the walk has after these events.
pub record IsConsistent (es : List Event) (s : ExtentDumpState) : Type 0 where
  pub leaves : s.leaf_node_count ≡ number_visited true es % 2 ^ 32
  pub inners : s.index_node_count ≡ number_visited false es % 2 ^ 32
  pub listed : s.records ≡ extents_in es
  pub counted : s.leaf_record_count ≡ length s.records % 2 ^ 32
  pub unsupported : s.unsupported_record_count ≡ others_in es % 2 ^ 32
  pub places : s.visited ≡ addresses_onto es []
  pub unique : IsUnique s.visited

pub visit_extent_node-IsConsistent :
    (newer is_leaf : Bool) (paddr xid : ℕ) (es : List Event) (s : ExtentDumpState)
    → contains s.visited paddr ≡ false
    → IsConsistent es s
    → IsConsistent
        (es ++ (visited_node is_leaf paddr ∷ []))
        (visit_extent_node newer is_leaf paddr xid s)
unfolding IsUnique extents_in others_in number_visited addresses_onto
visit_extent_node-IsConsistent newer is_leaf paddr xid es s fresh c = record {
  leaves = count_leaf es is_leaf paddr s.leaf_node_count c.leaves;
  inners = count_inner es is_leaf paddr s.index_node_count c.inners;
  listed = c.listed ∙ sym (extents_in-append es (_ ∷ []) ∙ append-nil (extents_in es));
  counted = c.counted;
  unsupported = omega (arith, c.unsupported, others_in-append es (visited_node is_leaf paddr ∷ []));
  places = ap (λ (t : List ℕ). paddr ∷ t) c.places ∙ sym (addresses_onto-visit es is_leaf paddr);
  unique = (fresh, c.unique);
}

module _ (paddr index : ℕ) (key value : List ℕ) (es : List Event) where
  abbrev after : List Event
  after = es ++ (met_entry paddr index key value ∷ [])

  other_entry :
      is_extent_key key ≡ false
      → (extents_in after ≡ extents_in es) × (others_in after ≡ others_in es + 1)
  unfolding extents_in others_in
  other_entry d = (
    extents_in-append es (met_entry paddr index key value ∷ []) ∙ rw d (append-nil (extents_in es)),
    others_in-append es (met_entry paddr index key value ∷ []) ∙ rw d (omega arith),
  )

  extent_entry :
      is_extent_key key ≡ true
      → (extents_in after ≡ extents_in es ++ (extent_of key value ∷ []))
        × (others_in after ≡ others_in es)
  unfolding extents_in others_in
  extent_entry e = (
    extents_in-append es (met_entry paddr index key value ∷ []) ∙ rw e refl,
    others_in-append es (met_entry paddr index key value ∷ []) ∙ rw e (omega arith),
  )

  pub add_extent-IsConsistent :
      (s : ExtentDumpState)
      → All IsByte key
      → All IsByte value
      → IsConsistent es s
      → Settles (IsConsistent after) Unit (add_extent paddr index key value s)
  unfolding add_extent
  add_extent-IsConsistent s k v c =
      Settles-reject_if _ _ (ltb (length key) 8) _ _ (λ t. tt)
        (λ long.
          let word = field 8 key 0 in
          let (leaves, inners, places) = entry_places paddr index key value es in
          rw
            (
              le_u64_lem key 0 (omega (tests, long)),
              whole_type word (field-lt 8 key 0 k (omega (tests, long))),
              bit_and_low 60 word,
            )
            (Settles-if _ _ (not (word / 2 ^ 60 == 2)) _ _
              (λ unexpected.
                let (same_extents, more) = other_entry (not_true _ unexpected) in
                record {
                  leaves = omega (arith, c.leaves, leaves);
                  inners = omega (arith, c.inners, inners);
                  listed = c.listed ∙ sym same_extents;
                  counted = c.counted;
                  unsupported = omega (arith, c.unsupported, more);
                  places = c.places ∙ sym places;
                  unique = c.unique;
                })
              (λ tagged.
                let (more, same_others) = extent_entry (opposite_false _ tagged) in
                Settles-reject_if _ _ (ltb (length value) 20) _ _ (λ t. tt)
                  (λ whole.
                    rw
                      (
                        le_u64_lem value 0 (omega (tests, whole)),
                        le_u64_lem value 8 (omega (tests, whole)),
                        le_u32_lem value 16 (omega (tests, whole)),
                        bit_and_low 60 (field 8 value 0),
                        kind_of (field 8 value 0),
                      )
                      (record {
                        leaves = omega (arith, c.leaves, leaves);
                        inners = omega (arith, c.inners, inners);
                        listed =
                            ap (λ (t : List PhysExtRecord). t ++ (extent_of key value ∷ []))
                              c.listed
                            ∙ sym more;
                        counted =
                            omega (
                              arith,
                              c.counted,
                              length-append s.records (extent_of key value ∷ []),
                            );
                        unsupported = omega (arith, c.unsupported, same_others);
                        places = c.places ∙ sym places;
                        unique = c.unique;
                      })))))
    where
      whole_type : (word : ℕ) → word < 256 ^ 8 → word / 2 ^ 60 % 256 ≡ word / 2 ^ 60
      whole_type word h = omega (arith, h)

      kind_of : (word : ℕ) → bit_and (word / 2 ^ 60 % 256) 0xf ≡ word / 2 ^ 60 % 16
      kind_of word = omega (arith, bit_and_low 4 (word / 2 ^ 60 % 256))

      not_true : (b : Bool) → not b ≡ true → b ≡ false
      not_true true h = cc
      not_true false h = refl
