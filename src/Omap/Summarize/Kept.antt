-- ===== src/Omap/Summarize/Kept.antt =====
-- What the walk of an object map counts, node by node and entry by entry.
use apfs_fastindex.Base.{
  ℕ, zero, suc, ◌^◌, ◌%◌, ◌≡◌, refl, inl, inr, Bool, true, false, none, List, [], ◌∷◌, ◌++◌, length,
  length-append, take, sym, ap, ◌∙◌, ltb, leb, if◌then◌else◌, Bool-cases, arith,
}
use Prim.Native.Nat.{max}
use mathlib.Core.List.{append-nil}
use apfs_fastindex.TreeWalk.Trace.{
  Event, visited_node, met_entry, number_visited, addresses_onto, count_leaf, count_inner,
  addresses_onto-visit, entry_places,
}
use apfs_fastindex.BlockIo.Fields.{field}
use apfs_fastindex.Omap.{contains}
use apfs_fastindex.Omap.Summarize.{
  OmapDumpEntry, FlagCounts, classify_flags, add_one, SummarizeState, visit, count_node,
  add_mapping,
}

-- No address twice.
unfoldable pub IsUnique : List ℕ → Type 0
IsUnique [] = Unit
IsUnique (p ∷ visited) = (contains visited p ≡ false) × IsUnique visited

-- The mapping that a key and a value of a leaf spell.
abbrev pub mapping_of : List ℕ → List ℕ → OmapDumpEntry
mapping_of key value = record {
  oid = field 8 key 0;
  xid = field 8 key 8;
  paddr = field 8 value 8;
  flags = field 4 value 0;
  size = field 4 value 4;
}

module _ (max_xid : ℕ) where
  -- The mappings of transactions up to `max_xid` among the entries of a walk, in its order.
  unfoldable pub mappings_in : List Event → List OmapDumpEntry
  mappings_in [] = []
  mappings_in (visited_node is_leaf paddr ∷ es) = mappings_in es
  mappings_in (met_entry paddr index key value ∷ es) =
      if leb (field 8 key 8) max_xid then mapping_of key value ∷ mappings_in es else mappings_in es

  mappings_in-append :
      (es more : List Event) → mappings_in (es ++ more) ≡ mappings_in es ++ mappings_in more
  unfolding mappings_in
  mappings_in-append [] more = refl
  mappings_in-append (visited_node is_leaf paddr ∷ es) more = mappings_in-append es more
  mappings_in-append (met_entry paddr index key value ∷ es) more =
      elim (Bool-cases (leb (field 8 key 8) max_xid)) [
        | inl e ↦
            rw e (
              ap (λ (t : List OmapDumpEntry). mapping_of key value ∷ t)
                (mappings_in-append es more))
        | inr d ↦ rw d (mappings_in-append es more)
      ]

-- The highest transaction of some mappings.
unfoldable pub top_xid : List OmapDumpEntry → ℕ
top_xid [] = 0
top_xid (m ∷ mappings) = max m.xid (top_xid mappings)

top_xid-append :
    (mappings : List OmapDumpEntry) (m : OmapDumpEntry)
    → top_xid (mappings ++ (m ∷ [])) ≡ max (top_xid mappings) m.xid
unfolding top_xid
top_xid-append [] m = omega arith
top_xid-append (d ∷ mappings) m = omega (arith, top_xid-append mappings m)

-- The flags of all mappings, whatever their transactions, counted one after the other.
unfoldable pub flags_in : List Event → FlagCounts → FlagCounts
flags_in [] counts = counts
flags_in (visited_node is_leaf paddr ∷ es) counts = flags_in es counts
flags_in (met_entry paddr index key value ∷ es) counts =
    flags_in es (classify_flags (field 4 value 0) counts)

flags_in-append :
    (es more : List Event) (counts : FlagCounts)
    → flags_in (es ++ more) counts ≡ flags_in more (flags_in es counts)
unfolding flags_in
flags_in-append [] more counts = refl
flags_in-append (visited_node is_leaf paddr ∷ es) more counts = flags_in-append es more counts
flags_in-append (met_entry paddr index key value ∷ es) more counts =
    flags_in-append es more (classify_flags (field 4 value 0) counts)

abbrev pub no_flags : FlagCounts
no_flags = record {
  crypto_generation = none;
  deleted = none;
  encrypted = none;
  noheader = none;
  saved = none;
}

pub take-nil {ℓ} : {A : Type ℓ} (n : ℕ) → take {A = A} n [] ≡ []
take-nil zero = refl
take-nil (suc n) = refl

-- One more sample, while there is room.
take-snoc {ℓ} :
    {A : Type ℓ} (limit : ℕ) (xs : List A) (x : A)
    → take limit (xs ++ (x ∷ []))
      ≡ (if ltb (length (take limit xs)) limit then take limit xs ++ (x ∷ []) else take limit xs)
take-snoc zero xs x = refl
take-snoc (suc limit) [] x = rw (room limit, take-nil limit) refl
  where
    room : (n : ℕ) → ltb 0 (suc n) ≡ true
    room n = ground arith
take-snoc (suc limit) (y ∷ xs) x =
    ap (λ t. y ∷ t) (take-snoc limit xs x)
    ∙ pushed (ltb (length (take limit xs)) limit) (ltb (suc (length (take limit xs))) (suc limit))
        (ground arith)
  where
    pushed :
        (b c : Bool)
        → b ≡ c
        → y ∷ (if b then take limit xs ++ (x ∷ []) else take limit xs)
          ≡ (if c then y ∷ (take limit xs ++ (x ∷ [])) else y ∷ take limit xs)
    pushed true true e = refl
    pushed true false e = cc
    pushed false true e = cc
    pushed false false e = refl

module _ (max_xid sample_limit : ℕ) where
  -- What the walk has after these events.
  pub record IsConsistent (es : List Event) (s : SummarizeState) : Type 0 where
    pub leaves : s.leaf_node_count ≡ number_visited true es % 2 ^ 32
    pub inners : s.index_node_count ≡ number_visited false es % 2 ^ 32
    pub counted : s.mapping_count ≡ length (mappings_in max_xid es) % 2 ^ 32
    pub sampled : s.samples ≡ take sample_limit (mappings_in max_xid es)
    pub observed : s.max_observed_xid ≡ top_xid (mappings_in max_xid es)
    pub flagged : s.flagged_values ≡ flags_in es no_flags
    pub places : s.visited ≡ addresses_onto es []
    pub unique : IsUnique s.visited

  pub visit-IsConsistent :
      (is_leaf : Bool) (paddr : ℕ) (es : List Event) (s : SummarizeState)
      → contains s.visited paddr ≡ false
      → IsConsistent es s
      → IsConsistent (es ++ (visited_node is_leaf paddr ∷ [])) (count_node is_leaf (visit paddr s))
  unfolding IsUnique mappings_in flags_in
  visit-IsConsistent is_leaf paddr es s fresh c = record {
    leaves = count_leaf es is_leaf paddr s.leaf_node_count c.leaves;
    inners = count_inner es is_leaf paddr s.index_node_count c.inners;
    counted = c.counted ∙ ap (λ (l : List OmapDumpEntry). length l % 2 ^ 32) (sym same_mappings);
    sampled = c.sampled ∙ ap (λ (l : List OmapDumpEntry). take sample_limit l) (sym same_mappings);
    observed = c.observed ∙ ap (λ (l : List OmapDumpEntry). top_xid l) (sym same_mappings);
    flagged = c.flagged ∙ sym (flags_in-append es (visited_node is_leaf paddr ∷ []) no_flags);
    places = ap (λ (t : List ℕ). paddr ∷ t) c.places ∙ sym (addresses_onto-visit es is_leaf paddr);
    unique = (fresh, c.unique);
  }
    where
      same_mappings :
          mappings_in max_xid (es ++ (visited_node is_leaf paddr ∷ [])) ≡ mappings_in max_xid es
      same_mappings =
          mappings_in-append max_xid es (visited_node is_leaf paddr ∷ [])
          ∙ append-nil (mappings_in max_xid es)

  pub add_mapping-IsConsistent :
      (paddr index : ℕ) (key value : List ℕ) (es : List Event) (s : SummarizeState)
      → IsConsistent es s
      → IsConsistent
          (es ++ (met_entry paddr index key value ∷ []))
          (add_mapping max_xid sample_limit (mapping_of key value) s)
  unfolding add_mapping mappings_in flags_in
  add_mapping-IsConsistent paddr index key value es s c =
      of_test (leb (field 8 key 8) max_xid) (mappings_in-append max_xid es (_ ∷ []))
    where
      m : OmapDumpEntry
      m = mapping_of key value

      after : List Event
      after = es ++ (met_entry paddr index key value ∷ [])

      flags : classify_flags m.flags s.flagged_values ≡ flags_in after no_flags
      flags =
          ap (classify_flags m.flags) c.flagged
          ∙ sym (flags_in-append es (met_entry paddr index key value ∷ []) no_flags)

      raised : (top xid : ℕ) → (if ltb top xid then xid else top) ≡ max top xid
      raised top xid = ground arith

      of_test :
          (t : Bool)
          → mappings_in max_xid after ≡ mappings_in max_xid es ++ (if t then m ∷ [] else [])
          → IsConsistent after (record {
            leaf_node_count = s.leaf_node_count;
            index_node_count = s.index_node_count;
            mapping_count = if t then add_one s.mapping_count else s.mapping_count;
            max_observed_xid =
                if t
                then (if ltb s.max_observed_xid m.xid then m.xid else s.max_observed_xid)
                else s.max_observed_xid;
            flagged_values = classify_flags m.flags s.flagged_values;
            samples =
                if t
                then (if ltb (length s.samples) sample_limit
                    then s.samples ++ (m ∷ [])
                    else s.samples)
                else s.samples;
            visited = s.visited;
          })
      of_test true more =
          let (leaves, inners, places) = entry_places paddr index key value es in
          record {
            leaves = omega (arith, c.leaves, leaves);
            inners = omega (arith, c.inners, inners);
            counted = omega (
              arith,
              c.counted,
              ap (λ (l : List OmapDumpEntry). length l) more,
              length-append (mappings_in max_xid es) (m ∷ []),
            );
            sampled =
                ap
                  (λ (l : List OmapDumpEntry).
                    if ltb (length l) sample_limit then l ++ (m ∷ []) else l)
                  c.sampled
                ∙ sym (
                    ap (λ (l : List OmapDumpEntry). take sample_limit l) more
                    ∙ take-snoc sample_limit (mappings_in max_xid es) m);
            observed =
                raised s.max_observed_xid m.xid
                ∙ ap (λ (n : ℕ). max n m.xid) c.observed
                ∙ sym (
                    ap (λ (l : List OmapDumpEntry). top_xid l) more
                    ∙ top_xid-append (mappings_in max_xid es) m);
            flagged = flags;
            places = c.places ∙ sym places;
            unique = c.unique;
          }
      of_test false more =
          let (leaves, inners, places) = entry_places paddr index key value es in
          let same_mappings = sym (more ∙ append-nil (mappings_in max_xid es)) in
          record {
            leaves = omega (arith, c.leaves, leaves);
            inners = omega (arith, c.inners, inners);
            counted = c.counted ∙ ap (λ (l : List OmapDumpEntry). length l % 2 ^ 32) same_mappings;
            sampled =
                c.sampled ∙ ap (λ (l : List OmapDumpEntry). take sample_limit l) same_mappings;
            observed = c.observed ∙ ap (λ (l : List OmapDumpEntry). top_xid l) same_mappings;
            flagged = flags;
            places = c.places ∙ sym places;
            unique = c.unique;
          }
