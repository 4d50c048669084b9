-- ===== src/Omap/Leaf/Newest.antt =====
-- The choice in a leaf, against the newest row of an object among sorted rows.
use apfs_fastindex.Base.{
  ℕ, ◌≤◌, ◌≡◌, ◌⊎◌, ◌≢◌, refl, sym, ap, ◌∙◌, inl, inr, true, false, Option, none, some, List, [],
  ◌∷◌, length, if◌then◌else◌, All, Memᴰ, All-mem, All-of_mem, Bool-cases, arith,
}
use mathlib.Core.Bool.{true≢false}
use mathlib.Core.Path.{subst}
use apfs_fastindex.Outcome.{Outcome, ok, err, invalid_object, omap_value_unsupported}
use apfs_fastindex.Object.{has_bit}
use apfs_fastindex.Btree.{BtreeNode}
use apfs_fastindex.Omap.{
  OmapValue, key_leb, is_some, omap_val_deleted, value_flag_hard_stop_reason, leaf_loop,
  conclude_leaf, select_leaf_lower_bound,
}
use apfs_fastindex.Omap.Leaf.{AreRows, row_leb, last_below, leaf_loop-last_below}

-- Keys rise strictly from row to row.
abbrev pub KeyLt : OmapValue → OmapValue → Type 0
KeyLt a b = key_leb b.oid b.xid a.oid a.xid ≡ false

abbrev pub IsSorted : List OmapValue → Type 0
IsSorted [] = Unit
IsSorted (row ∷ rows) = All (KeyLt row) rows × IsSorted rows

-- The greatest of the rows that are at most the target.
record IsBest (rows : List OmapValue) (oid max_xid : ℕ) (best : OmapValue) : Type 0 where
  held : Memᴰ best rows
  below : row_leb best oid max_xid ≡ true
  greatest :
      (row : OmapValue)
      → Memᴰ row rows
      → row_leb row oid max_xid ≡ true
      → row_leb row best.oid best.xid ≡ true

above_of_KeyLt :
    (a b : OmapValue) (oid max_xid : ℕ)
    → row_leb a oid max_xid ≡ false
    → KeyLt a b
    → row_leb b oid max_xid ≡ false
above_of_KeyLt a b oid max_xid h k = ground arith

leb_of_KeyLt : (a b : OmapValue) → KeyLt a b → row_leb a b.oid b.xid ≡ true
leb_of_KeyLt a b h = ground arith

row_leb_self : (a : OmapValue) → row_leb a a.oid a.xid ≡ true
row_leb_self a = ground arith

module _ (oid max_xid : ℕ) where
  last_below-IsBest :
      (best : Option OmapValue) (rows : List OmapValue)
      → IsSorted rows
      → ((last_below oid max_xid best rows ≡ best)
          × All (λ (row : OmapValue). row_leb row oid max_xid ≡ false) rows)
        ⊎ ((row : OmapValue) × (last_below oid max_xid best rows ≡ some row)
            × IsBest rows oid max_xid row)
  unfolding last_below
  last_below-IsBest best [] s = inl (refl, tt)
  last_below-IsBest best (row ∷ rows) (above, s) = elim (Bool-cases (row_leb row oid max_xid)) [
    | inr past ↦ rw past (
        inl (
          refl,
          (
            refl,
            All-of_mem _ rows
                (λ x m. above_of_KeyLt row x oid max_xid past (All-mem (KeyLt row) rows above m)),
          ),
        ))
    | inl within ↦ rw within (inr (go within (last_below-IsBest (some row) rows s)))
  ]
    where
      go :
          row_leb row oid max_xid ≡ true
          → ((last_below oid max_xid (some row) rows ≡ some row)
              × All (λ (x : OmapValue). row_leb x oid max_xid ≡ false) rows)
            ⊎ ((x : OmapValue) × (last_below oid max_xid (some row) rows ≡ some x)
                × IsBest rows oid max_xid x)
          → (x : OmapValue) × (last_below oid max_xid (some row) rows ≡ some x)
            × IsBest (row ∷ rows) oid max_xid x
      go within (inl (e, past)) =
          (row, e, record { held = Memᴰ.head refl; below = within; greatest = elim_first past })
        where
          elim_first :
              All (λ (x : OmapValue). row_leb x oid max_xid ≡ false) rows
              → (x : OmapValue) → Memᴰ x (row ∷ rows)
              → row_leb x oid max_xid ≡ true
              → row_leb x row.oid row.xid ≡ true
          elim_first past x (Memᴰ.head e) h = rw e (row_leb_self row)
          elim_first past x (Memᴰ.tail m) h = cc (All-mem _ rows past m, h)
      go within (inr (x, e, b)) =
          (x, e, record { held = Memᴰ.tail b.held; below = b.below; greatest = later })
        where
          later :
              (y : OmapValue)
              → Memᴰ y (row ∷ rows)
              → row_leb y oid max_xid ≡ true
              → row_leb y x.oid x.xid ≡ true
          later y (Memᴰ.head e) h =
              rw e (leb_of_KeyLt row x (All-mem (KeyLt row) rows above b.held))
          later y (Memᴰ.tail m) h = b.greatest y m h

unordered : (a b : OmapValue) → KeyLt a b → a.oid ≡ b.oid → a.xid ≡ b.xid → ⊥
unordered a b h p q = ground arith

-- Sorted rows with equal keys are the same row.
same_row :
    (rows : List OmapValue) (a b : OmapValue)
    → IsSorted rows
    → Memᴰ a rows
    → Memᴰ b rows
    → a.oid ≡ b.oid
    → a.xid ≡ b.xid
    → a ≡ b
same_row [] a b s m n p q = elim m [ ]
same_row (row ∷ rows) a b s (Memᴰ.head e) (Memᴰ.head f) p q = e ∙ sym f
same_row (row ∷ rows) a b s (Memᴰ.head e) (Memᴰ.tail n) p q = absurd (
    unordered row b (All-mem (KeyLt row) rows s.0 n) (sym (ap (λ (r : OmapValue). r.oid) e) ∙ p)
      (sym (ap (λ (r : OmapValue). r.xid) e) ∙ q))
same_row (row ∷ rows) a b s (Memᴰ.tail m) (Memᴰ.head f) p q = absurd (
    unordered row a (All-mem (KeyLt row) rows s.0 m) (sym (ap (λ (r : OmapValue). r.oid) f) ∙ sym p)
      (sym (ap (λ (r : OmapValue). r.xid) f) ∙ sym q))
same_row (row ∷ rows) a b s (Memᴰ.tail m) (Memᴰ.tail n) p q = same_row rows a b s.1 m n p q

-- What the rows hold for `oid` at a transaction of at most `max_xid`: the newest row.
pub record IsNewest (rows : List OmapValue) (oid max_xid : ℕ) (row : OmapValue) : Type 0 where
  pub held : Memᴰ row rows
  pub of_oid : row.oid ≡ oid
  pub not_later : row.xid ≤ max_xid
  pub newest :
      (other : OmapValue)
      → Memᴰ other rows
      → other.oid ≡ oid
      → other.xid ≤ max_xid
      → other.xid ≤ row.xid

-- No row of `oid` has a transaction of at most `max_xid`.
abbrev pub HasNone : List OmapValue → ℕ → ℕ → Type 0
HasNone rows oid max_xid = (row : OmapValue) → Memᴰ row rows → row.oid ≡ oid → ¬ (row.xid ≤ max_xid)

-- What a lookup says of the row that it found: a deleted mapping is none, and a flag that the
-- resolver cannot read is an error.
pub reply : OmapValue → Outcome (Option OmapValue)
reply row =
    if has_bit row.flags omap_val_deleted
    then ok none
    else if is_some (value_flag_hard_stop_reason row.flags)
    then err (invalid_object omap_value_unsupported)
    else ok (some row)

-- Arithmetic of the order of keys.
module _ (a b : OmapValue) (oid max_xid : ℕ) where
  within_target : a.oid ≡ oid → a.xid ≤ max_xid → row_leb a oid max_xid ≡ true
  within_target h k = ground arith

  within_xid : a.oid ≡ oid → row_leb a oid max_xid ≡ true → a.xid ≤ max_xid
  within_xid h k = ground arith

  between_oid :
      a.oid ≡ oid → row_leb a b.oid b.xid ≡ true → row_leb b oid max_xid ≡ true → b.oid ≡ oid
  between_oid h k l = ground arith

  conclude-reply : a.oid ≡ oid → conclude_leaf oid (some a) ≡ reply a
  unfolding conclude_leaf reply
  conclude-reply h = ground arith

  conclude_other : a.oid ≢ oid → conclude_leaf oid (some a) ≡ ok none
  unfolding conclude_leaf
  conclude_other h = ground arith

module _ (oid max_xid : ℕ) (rows : List OmapValue) (s : IsSorted rows) where
  -- The greatest row below the target is the newest one.
  IsBest-eq-IsNewest :
      (row best : OmapValue)
      → IsNewest rows oid max_xid row
      → IsBest rows oid max_xid best
      → best ≡ row
  IsBest-eq-IsNewest row best n b =
      let above = b.greatest row n.held (within_target row best oid max_xid n.of_oid n.not_later) in
      let same_oid = between_oid row best oid max_xid n.of_oid above b.below in
      let later =
        n.newest best b.held same_oid (within_xid best row oid max_xid same_oid b.below) in
      let earlier = within_xid row best best.oid best.xid (n.of_oid ∙ sym same_oid) above in
      same_row rows best row s b.held n.held (same_oid ∙ sym n.of_oid)
        (omega (arith, later, earlier))

  conclude-IsNewest :
      (row : OmapValue)
      → IsNewest rows oid max_xid row
      → conclude_leaf oid (last_below oid max_xid none rows) ≡ reply row
  conclude-IsNewest row n = elim (last_below-IsBest oid max_xid none rows s) [
    | inl (e, past) ↦ absurd (
        true≢false (
          sym (within_target row row oid max_xid n.of_oid n.not_later)
          ∙ All-mem _ rows past n.held))
    | inr (best, e, b) ↦
        rw (e, IsBest-eq-IsNewest row best n b) (conclude-reply row row oid max_xid n.of_oid)
  ]

  conclude-HasNone :
      HasNone rows oid max_xid → conclude_leaf oid (last_below oid max_xid none rows) ≡ ok none
  conclude-HasNone n = elim (last_below-IsBest oid max_xid none rows s) [
    | inl (e, past) ↦ rw e (unfold conclude_leaf in refl)
    | inr (best, e, b) ↦ rw e (
        conclude_other best best oid max_xid
          (λ h. n best b.held h (within_xid best best oid max_xid h b.below)))
  ]

module _ (node : BtreeNode) (oid max_xid : ℕ) (rows : List OmapValue) (r : AreRows node 0 rows)
    (l : length rows ≡ node.nkeys) (s : IsSorted rows) where
  leaf_loop-rows :
      leaf_loop node oid max_xid node.nkeys 0 none ≡ ok (last_below oid max_xid none rows)
  leaf_loop-rows =
      subst (λ n. leaf_loop node oid max_xid n 0 none ≡ ok (last_below oid max_xid none rows)) l
        (leaf_loop-last_below node oid max_xid 0 none rows r)

  -- In a leaf whose rows can be read and are sorted by `(oid, xid)`, the choice is the row of `oid`
  -- with the greatest transaction of at most `max_xid`: it is returned, or none if it is marked
  -- deleted, or an error if its flags are a hard stop.
  pub select_leaf_lower_bound-IsNewest :
      (row : OmapValue)
      → IsNewest rows oid max_xid row
      → select_leaf_lower_bound node oid max_xid ≡ reply row
  unfolding select_leaf_lower_bound
  select_leaf_lower_bound-IsNewest row n =
      rw leaf_loop-rows (conclude-IsNewest oid max_xid rows s row n)

  -- If such a leaf has no row of `oid` with a transaction of at most `max_xid`, the choice is none.
  pub select_leaf_lower_bound-HasNone :
      HasNone rows oid max_xid → select_leaf_lower_bound node oid max_xid ≡ ok none
  unfolding select_leaf_lower_bound
  select_leaf_lower_bound-HasNone n = rw leaf_loop-rows (conclude-HasNone oid max_xid rows s n)
