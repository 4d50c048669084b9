-- ===== src/FsRecords/Kept.antt =====
-- What the walk of a file-system tree keeps, node by node and entry by entry.
use apfs_fastindex.Base.{
  ℕ, ◌+◌, ◌/◌, ◌%◌, ◌^◌, ◌<◌, ◌≡◌, refl, sym, ap, ◌||◌, ◌∙◌, Bool, true, false, not, Option, List,
  [], ◌∷◌, ◌++◌, length, length-append, ltb, ◌==◌, if◌then◌else◌, All, opposite_false, Bool-cases,
  inl, inr, tests, arith,
}
use mathlib.Core.Path.{subst}
use mathlib.Core.List.{append_assoc, append-nil}
use apfs_fastindex.Base.Bits.{bit_and_low}
use apfs_fastindex.Outcome.{
  Outcome, ok, err, panic, hang, Settles, Settles-bind, Settles-if, Settles-reject_if,
  Settles-Returns, Settles-ok,
}
use apfs_fastindex.BlockIo.{IsByte}
use apfs_fastindex.BlockIo.Fields.{field, field-lt, le_u64_lem}
use apfs_fastindex.Omap.{contains}
use apfs_fastindex.Omap.Summarize.{add_one}
use apfs_fastindex.Omap.Summarize.Kept.{IsUnique}
use apfs_fastindex.RecordBody.{FsRecordRow}
use apfs_fastindex.RecordBody.Row.{decode_fs_record}
use apfs_fastindex.RecordBody.Row.Total.{decode_fs_record-IsRow}
use apfs_fastindex.RecordBody.Keys.Fits.{same}
use apfs_fastindex.TreeWalk.Trace.{
  Event, visited_node, met_entry, number_visited, addresses_onto, count_leaf, count_inner,
  addresses_onto-visit, entry_places,
}
use apfs_fastindex.FsRecords.{
  DumpNote, DumpState, is_known_record_family, insert_id, count_record, count_unsupported, push_row,
  visit_node, add_record,
}
use apfs_fastindex.FsRecords.Counts.{
  count_of, AreSorted, number_of, number_of-append, count_family-AreSorted, count_of-count_family,
  insert_id-IsUnique,
}

-- How many entries are of no known family.
unfoldable pub unknown_in : List Event → ℕ
unknown_in [] = 0
unknown_in (visited_node is_leaf paddr ∷ es) = unknown_in es
unknown_in (met_entry paddr index key value ∷ es) =
    (if is_known_record_family (field 8 key 0 / 2 ^ 60) then 0 else 1) + unknown_in es

-- Some entry belongs to the object.
unfoldable pub names_object : ℕ → List Event → Bool
names_object id [] = false
names_object id (visited_node is_leaf paddr ∷ es) = names_object id es
names_object id (met_entry paddr index key value ∷ es) =
    field 8 key 0 % 2 ^ 60 == id || names_object id es

unknown_in-append :
    (es more : List Event) → unknown_in (es ++ more) ≡ unknown_in es + unknown_in more
unfolding unknown_in
unknown_in-append [] more = omega arith
unknown_in-append (visited_node is_leaf paddr ∷ es) more = unknown_in-append es more
unknown_in-append (met_entry paddr index key value ∷ es) more =
    omega (arith, unknown_in-append es more)

names_object-append :
    (id : ℕ) (es more : List Event)
    → names_object id (es ++ more) ≡ (names_object id es || names_object id more)
unfolding names_object
names_object-append id [] more = refl
names_object-append id (visited_node is_leaf paddr ∷ es) more = names_object-append id es more
names_object-append id (met_entry paddr index key value ∷ es) more =
    either (field 8 key 0 % 2 ^ 60 == id) _ _ _ (names_object-append id es more)
  where
    either : (b x y z : Bool) → x ≡ (y || z) → (b || x) ≡ ((b || y) || z)
    either true x y z p = refl
    either false x y z p = p

contains-insert_id :
    (id other : ℕ) (ids : List ℕ)
    → contains (insert_id id ids) other ≡ (id == other || contains ids other)
unfolding insert_id contains
contains-insert_id id other ids = elim (Bool-cases (contains ids id)) [
  | inl known ↦ rw known (already (id == other) (λ e. same id other e) known)
  | inr new ↦ rw new refl
]
  where
    already :
        (b : Bool)
        → (b ≡ true → id ≡ other)
        → contains ids id ≡ true
        → contains ids other ≡ (b || contains ids other)
    already true e k = subst (λ n. contains ids n ≡ true) (e refl) k
    already false e k = refl

module _ (from_utf8 : List ℕ → Option (List ℕ)) where
  unfoldable pub row_of : Outcome FsRecordRow → List FsRecordRow
  row_of (ok row) = row ∷ []
  row_of (err e) = []
  row_of panic = []
  row_of hang = []

  -- The rows that the entries of known families decode to, in the order of a walk.
  unfoldable pub rows_in : List Event → List FsRecordRow
  rows_in [] = []
  rows_in (visited_node is_leaf paddr ∷ es) = rows_in es
  rows_in (met_entry paddr index key value ∷ es) =
      (if is_known_record_family (field 8 key 0 / 2 ^ 60)
        then row_of (decode_fs_record from_utf8 paddr index key value)
        else [])
      ++ rows_in es

  rows_in-append : (es more : List Event) → rows_in (es ++ more) ≡ rows_in es ++ rows_in more
  unfolding rows_in
  rows_in-append [] more = refl
  rows_in-append (visited_node is_leaf paddr ∷ es) more = rows_in-append es more
  rows_in-append (met_entry paddr index key value ∷ es) more =
      ap (λ (t : List FsRecordRow). first ++ t) (rows_in-append es more)
      ∙ sym (append_assoc first (rows_in es) (rows_in more))
    where
      first : List FsRecordRow
      first =
          if is_known_record_family (field 8 key 0 / 2 ^ 60)
          then row_of (decode_fs_record from_utf8 paddr index key value)
          else []

  -- What the walk has after these events.
  pub record IsConsistent (es : List Event) (s : DumpState) : Type 0 where
    pub leaves : s.leaf_node_count ≡ number_visited true es % 2 ^ 32
    pub inners : s.index_node_count ≡ number_visited false es % 2 ^ 32
    pub listed : s.records ≡ rows_in es
    pub counted : s.leaf_record_count ≡ (length s.records + unknown_in es) % 2 ^ 32
    pub unsupported : s.unsupported_record_count ≡ unknown_in es % 2 ^ 32
    pub sorted : AreSorted 0 s.family_counts
    pub families :
        (t : ℕ)
        → is_known_record_family t ≡ true
        → count_of t s.family_counts ≡ number_of t s.records % 2 ^ 32
    pub objects : (id : ℕ) → contains s.unique_object_ids id ≡ names_object id es
    pub ids : IsUnique s.unique_object_ids
    pub places : s.visited ≡ addresses_onto es []
    pub unique : IsUnique s.visited

  pub visit_node-IsConsistent :
      (newer is_leaf : Bool) (paddr xid : ℕ) (es : List Event) (s : DumpState)
      → contains s.visited paddr ≡ false
      → IsConsistent es s
      → IsConsistent
          (es ++ (visited_node is_leaf paddr ∷ []))
          (visit_node newer is_leaf paddr xid s)
  unfolding IsUnique rows_in unknown_in names_object
  visit_node-IsConsistent newer is_leaf paddr xid es s fresh c = record {
    leaves = count_leaf es is_leaf paddr s.leaf_node_count c.leaves;
    inners = count_inner es is_leaf paddr s.index_node_count c.inners;
    listed = c.listed ∙ sym (rows_in-append es (_ ∷ []) ∙ append-nil (rows_in es));
    counted = omega (arith, c.counted, same_unknown);
    unsupported = omega (arith, c.unsupported, same_unknown);
    sorted = c.sorted;
    families = c.families;
    objects = λ id.
        c.objects id
        ∙ sym (
            names_object-append id es (visited_node is_leaf paddr ∷ [])
            ∙ or_false (names_object id es));
    ids = c.ids;
    places = ap (λ (t : List ℕ). paddr ∷ t) c.places ∙ sym (addresses_onto-visit es is_leaf paddr);
    unique = (fresh, c.unique);
  }
    where
      same_unknown : unknown_in (es ++ (visited_node is_leaf paddr ∷ [])) ≡ unknown_in es
      same_unknown = omega (arith, unknown_in-append es (visited_node is_leaf paddr ∷ []))

      or_false : (b : Bool) → (b || false) ≡ b
      or_false true = refl
      or_false false = refl

  module _ (paddr index : ℕ) (key value : List ℕ) (es : List Event) (s : DumpState)
      (c : IsConsistent es s) where
    abbrev after : List Event
    after = es ++ (met_entry paddr index key value ∷ [])

    abbrev raw : ℕ
    raw = field 8 key 0 / 2 ^ 60

    abbrev id : ℕ
    id = field 8 key 0 % 2 ^ 60

    objects_after : (x : ℕ) → contains (insert_id id s.unique_object_ids) x ≡ names_object x after
    unfolding names_object
    objects_after x =
        contains-insert_id id x s.unique_object_ids
        ∙ ap (λ b. id == x || b) (c.objects x)
        ∙ swap (id == x) (names_object x es)
        ∙ sym (names_object-append x es (met_entry paddr index key value ∷ []))
      where
        swap : (a b : Bool) → (a || b) ≡ (b || (a || false))
        swap true true = refl
        swap true false = refl
        swap false true = refl
        swap false false = refl

    count_unsupported-IsConsistent :
        (note : DumpNote)
        → is_known_record_family raw ≡ false
        → IsConsistent after (count_unsupported note (count_record raw id s))
    unfolding rows_in unknown_in
    count_unsupported-IsConsistent note h =
        let (leaves, inners, places) = entry_places paddr index key value es in
        record {
          leaves = omega (arith, c.leaves, leaves);
          inners = omega (arith, c.inners, inners);
          listed =
              c.listed
              ∙ sym (
                  rows_in-append es (met_entry paddr index key value ∷ [])
                  ∙ rw h (append-nil (rows_in es)));
          counted = omega (arith, c.counted, one_more);
          unsupported = omega (arith, c.unsupported, one_more);
          sorted = count_family-AreSorted raw 0 s.family_counts (omega arith) c.sorted;
          families = λ t k.
              count_of-count_family raw t 0 s.family_counts c.sorted
              ∙ (other_type raw t (count_of t s.family_counts) h k ∙ c.families t k);
          objects = objects_after;
          ids = insert_id-IsUnique id s.unique_object_ids c.ids;
          places = c.places ∙ sym places;
          unique = c.unique;
        }
      where
        one_more : unknown_in after ≡ unknown_in es + 1
        one_more = unknown_in-append es (met_entry paddr index key value ∷ []) ∙ rw h (omega arith)

        clash :
            (raw t : ℕ)
            → raw ≡ t
            → is_known_record_family raw ≡ false
            → is_known_record_family t ≡ true
            → ⊥
        clash raw t e h k = cc

        other_type :
            (raw t n : ℕ)
            → is_known_record_family raw ≡ false
            → is_known_record_family t ≡ true
            → (if raw == t then add_one n else n) ≡ n
        other_type raw t n h k = elim (Bool-cases (raw == t)) [
          | inl e ↦ absurd (clash raw t (same raw t e) h k)
          | inr d ↦ rw d refl
        ]

    push_row-IsConsistent :
        (row : FsRecordRow)
        → is_known_record_family raw ≡ true
        → decode_fs_record from_utf8 paddr index key value ≡ ok row
        → row.raw_type ≡ raw
        → IsConsistent after (push_row row (count_record raw id s))
    unfolding number_of rows_in unknown_in row_of
    push_row-IsConsistent row h decoded typed =
        let (leaves, inners, places) = entry_places paddr index key value es in
        record {
          leaves = omega (arith, c.leaves, leaves);
          inners = omega (arith, c.inners, inners);
          listed =
              ap (λ (t : List FsRecordRow). t ++ (row ∷ [])) c.listed
              ∙ sym
                  (rows_in-append es (met_entry paddr index key value ∷ []) ∙ rw (h, decoded) refl);
          counted = omega (arith, c.counted, no_more, length-append s.records (row ∷ []));
          unsupported = omega (arith, c.unsupported, no_more);
          sorted = count_family-AreSorted raw 0 s.family_counts (omega arith) c.sorted;
          families = λ t k.
              count_of-count_family raw t 0 s.family_counts c.sorted
              ∙ one_more raw t (count_of t s.family_counts) (number_of t s.records)
                  (number_of t (s.records ++ (row ∷ []))) (c.families t k)
                  (number_of-append t s.records (row ∷ []) ∙ rw typed (alone raw t));
          objects = objects_after;
          ids = insert_id-IsUnique id s.unique_object_ids c.ids;
          places = c.places ∙ sym places;
          unique = c.unique;
        }
      where
        no_more : unknown_in after ≡ unknown_in es
        no_more = unknown_in-append es (met_entry paddr index key value ∷ []) ∙ rw h (omega arith)

        alone :
            (raw t : ℕ)
            → number_of t s.records + (if raw == t then 1 else 0)
              ≡ number_of t s.records + (if raw == t then 1 else 0)
        alone raw t = refl

        one_more :
            (raw t n rows more : ℕ)
            → n ≡ rows % 2 ^ 32
            → more ≡ rows + (if raw == t then 1 else 0)
            → (if raw == t then add_one n else n) ≡ more % 2 ^ 32
        one_more raw t n rows more h k = ground arith

    pub add_record-IsConsistent :
        All IsByte key
        → All IsByte value
        → Settles (IsConsistent after) Unit (add_record from_utf8 paddr index key value s)
    unfolding add_record
    add_record-IsConsistent k v =
        Settles-reject_if _ _ (ltb (length key) 8) _ _ (λ t. tt)
          (λ long.
            let word = field 8 key 0 in
            let small = field-lt 8 key 0 k (omega (tests, long)) in
            rw (le_u64_lem key 0 (omega (tests, long)), bit_and_low 60 word, whole_type word small)
              (Settles-if _ _ (not (is_known_record_family (word / 2 ^ 60))) _ _
                (λ unknown. count_unsupported-IsConsistent _ (opposite_true _ unknown))
                (λ known.
                  let row_settles = decode_fs_record-IsRow from_utf8 paddr index key value k v in
                  Settles-bind _ _ (decode_fs_record from_utf8 paddr index key value) _
                    (Settles-Returns _ _ _ row_settles) (λ e p. tt)
                    (λ row p.
                      push_row-IsConsistent row (opposite_false _ known) p
                        (Settles-ok _ _ _ p row_settles).raw_type))))
      where
        whole_type : (word : ℕ) → word < 256 ^ 8 → word / 2 ^ 60 % 256 ≡ word / 2 ^ 60
        whole_type word h = omega (arith, h)

        opposite_true : (b : Bool) → not b ≡ true → b ≡ false
        opposite_true true h = cc
        opposite_true false h = refl
