-- ===== src/Btree/Slots.antt =====
-- Entries of a node and the bytes of their keys and values.
use apfs_fastindex.Base.{
  ℕ, ◌+◌, ◌-◌, ◌*◌, ◌^◌, ◌≤◌, ◌<◌, ◌≡◌, ◌↔◌, refl, sym, ap, Bool, true, false, Option, none, some,
  List, length, take, drop, ltb, leb, leb→lt, leb→le, Bool-cases, inl, inr, if◌then◌else◌, arith,
}
use native.Mathlib.Nat.{mul-le-mul_right}
use apfs_fastindex.Outcome.{
  ok, Returns, Settles, Settles-reject_if, Settles-bind, Settles-weaken, checked_sub, checked-eq-ok,
  Returns-checked, Returns-checked_sub, ◌>>=◌, ◌>>◌, Reason, checked, reject_if, key_end_overflow,
  key_past_block, value_end_overflow, value_past_block,
}
use apfs_fastindex.BlockIo.{slice, add_u64}
use apfs_fastindex.BlockIo.Fields.{field, le_u16_lem, slice-eq-ok}
use apfs_fastindex.Btree.{
  BtreeNode, BtreeEntry, toc_entry_size, fixed_entry, variable_entry, entry, unwrap_or, key_bytes,
  value_bytes,
}
use apfs_fastindex.Btree.Geometry.{IsNode}

checked_sub-eq-ok : (a b : ℕ) (r : Reason) {m : ℕ} → checked_sub a b r ≡ ok m → m + b ≡ a
checked_sub-eq-ok a b r h = ground arith

below : (a : ℕ) → a < 2 ^ 64 → ltb a (2 ^ 64) ≡ true
below a h = ground arith

abbrev pub is_none : Option ℕ → Bool
is_none none = true
is_none (some n) = false

-- Where the TOC has its slot number `i`.
abbrev pub slot_offset : BtreeNode → ℕ → ℕ
slot_offset node i = node.toc_offset + toc_entry_size node.fixed_kv_size * i

-- The offset of a value stands in the second half of a slot.
abbrev pub value_half : Bool → ℕ
value_half true = 2
value_half false = 4

-- A length stands in the TOC where the node is not of fixed size.
abbrev pub length_at : Bool → List ℕ → ℕ → Option ℕ
length_at true block offset = none
length_at false block offset = some (field 2 block offset)

-- The slot number `i`: a key is placed from the start of the key area on, a value back from the
-- end of the value area.
pub record IsSlot (node : BtreeNode) (i : ℕ) (e : BtreeEntry) : Type 0 where
  pub key_placed : e.key_offset ≡ node.key_area_offset + field 2 node.block (slot_offset node i)
  pub value_placed :
      e.value_start + field 2 node.block (slot_offset node i + value_half node.fixed_kv_size)
      ≡ node.value_area_end
  pub key_len_read : e.key_len ≡ length_at node.fixed_kv_size node.block (slot_offset node i + 2)
  pub value_len_read :
      e.value_len ≡ length_at node.fixed_kv_size node.block (slot_offset node i + 6)
  pub key_length : is_none e.key_len ≡ node.fixed_kv_size
  pub value_length : is_none e.value_len ≡ node.fixed_kv_size

module _ (block : List ℕ) (size : ℕ) (node : BtreeNode) (n : IsNode block size node) (i : ℕ) where
  -- The TOC slot of an index in range lies in the TOC, and so in the block.
  toc_slot :
      (width : ℕ)
      → toc_entry_size node.fixed_kv_size ≡ width
      → i < node.nkeys
      → (node.toc_offset + width * i + width ≤ node.key_area_offset)
        × (node.key_area_offset ≤ length node.block)
  toc_slot width w h = (
    omega (arith, n.toc_holds_keys, n.toc_before_keys, scaled, ap (λ (t : ℕ). node.nkeys * t) w),
    rw n.same_block (omega (arith, n.keys_before_values, values, n.fits)),
  )
    where
      scaled : (i + 1) * width ≤ node.nkeys * width
      scaled = mul-le-mul_right width (omega arith)

      values : node.value_area_end ≤ size
      values = omega (arith, n.values_in_block)

  module _ (h : i < node.nkeys) where
    fixed_entry-IsSlot :
        node.fixed_kv_size ≡ true → Settles (IsSlot node i) Unit (fixed_entry node i)
    unfolding fixed_entry
    fixed_entry-IsSlot f =
        let (slot, within) = toc_slot 4 (rw f refl) h in
        let at = node.toc_offset + 4 * i in
        rw
          (
            below at (omega (arith, n.addressable)),
            le_u16_lem node.block at (omega arith),
            le_u16_lem node.block (at + 2) (omega arith),
          )
          (Settles-reject_if _ _ (ltb (add_u64 node.toc_offset node.toc_len) (add_u64 at 4)) _ _
            (λ t. tt)
            (λ inside.
              Settles-bind _ _ (checked (node.key_area_offset + field 2 node.block at) _) _
                (Returns-checked _ _) (λ e p. tt)
                (λ key p.
                  Settles-bind _ _ (checked_sub node.value_area_end (field 2 node.block (at + 2)) _)
                    _ (Returns-checked_sub _ _ _) (λ e q. tt)
                    (λ value q. rw f (record {
                      key_placed = checked-eq-ok _ _ p;
                      value_placed = checked_sub-eq-ok _ _ _ q;
                      key_len_read = refl;
                      value_len_read = refl;
                      key_length = refl;
                      value_length = refl;
                    })))))

    variable_entry-IsSlot :
        node.fixed_kv_size ≡ false → Settles (IsSlot node i) Unit (variable_entry node i)
    unfolding variable_entry
    variable_entry-IsSlot f =
        let (slot, within) = toc_slot 8 (rw f refl) h in
        let at = node.toc_offset + 8 * i in
        rw
          (
            below at (omega (arith, n.addressable)),
            le_u16_lem node.block at (omega arith),
            le_u16_lem node.block (at + 2) (omega arith),
            le_u16_lem node.block (at + 4) (omega arith),
            le_u16_lem node.block (at + 6) (omega arith),
          )
          (Settles-reject_if _ _ (ltb (add_u64 node.toc_offset node.toc_len) (add_u64 at 8)) _ _
            (λ t. tt)
            (λ inside.
              Settles-bind _ _ (checked (node.key_area_offset + field 2 node.block at) _) _
                (Returns-checked _ _) (λ e p. tt)
                (λ key p.
                  Settles-bind _ _ (checked_sub node.value_area_end (field 2 node.block (at + 4)) _)
                    _ (Returns-checked_sub _ _ _) (λ e q. tt)
                    (λ value q. rw f (record {
                      key_placed = checked-eq-ok _ _ p;
                      value_placed = checked_sub-eq-ok _ _ _ q;
                      key_len_read = refl;
                      value_len_read = refl;
                      key_length = refl;
                      value_length = refl;
                    })))))

-- On a node that `parse` accepted, `entry` returns for every index. It returns an entry only for an
-- index below `nkeys`: the key offset of its slot counted from the start of the key area on, the
-- value offset of its slot counted back from the end of the value area, and the lengths of its slot
-- exactly if the node is not of fixed size. On an index that is not below `nkeys` it is an error.
pub entry-IsSlot :
    (block : List ℕ) (size : ℕ) (node : BtreeNode) (i : ℕ)
    → IsNode block size node
    → Settles (λ e. (i < node.nkeys) × IsSlot node i e) Unit (entry node i)
unfolding entry
entry-IsSlot block size node i n =
    Settles-reject_if _ _ (leb node.nkeys i) _ _ (λ t. tt)
      (λ within. by_width (leb→lt _ _ within) node.fixed_kv_size refl)
  where
    by_width :
        (h : i < node.nkeys) (b : Bool)
        → node.fixed_kv_size ≡ b
        → Settles
            (λ e. (i < node.nkeys) × IsSlot node i e)
            Unit
            (if b then fixed_entry node i else variable_entry node i)
    by_width h true f =
        Settles-weaken _ Unit _ (fixed_entry node i) (λ e slot. (h, slot))
          (fixed_entry-IsSlot block size node n i h f)
    by_width h false f =
        Settles-weaken _ Unit _ (variable_entry node i) (λ e slot. (h, slot))
          (variable_entry-IsSlot block size node n i h f)

-- Both accessors cut a checked range out of the block.
cut_iff :
    (r s : Reason) (block : List ℕ) (offset len : ℕ)
    → length block < 2 ^ 64
    → ((bytes : List ℕ)
        → ((checked (offset + len) r >>= λ end.
              reject_if (ltb (length block) end) s >> slice block offset end)
            ≡ ok bytes)
          ↔ ((offset + len ≤ length block) × (bytes ≡ take len (drop offset block))))
      × Returns (
          checked (offset + len) r >>= λ end.
          reject_if (ltb (length block) end) s >> slice block offset end)
cut_iff r s block offset len h = elim (Bool-cases (leb (offset + len) (length block))) [
  | inl within ↦
      let inside = leb→le _ _ within in
      rw
        (
          below (offset + len) (omega (arith, inside)),
          not_past (length block) (offset + len) inside,
          slice-eq-ok block offset (offset + len) (omega arith) inside,
          width,
        )
        (λ bytes. (λ p. (inside, ground arith), λ p. ap ok (sym p.1)), tt)
  | inr past ↦
      let outside = leb→lt _ _ past in
      (
        λ bytes. (λ p. ground (arith, outside), λ p. absurd (omega (arith, outside))),
        ground (arith, outside),
      )
]
  where
    not_past : (a b : ℕ) → b ≤ a → ltb a b ≡ false
    not_past a b p = ground arith

    width : offset + len - offset ≡ len
    width = omega arith

-- For any node and any entry, however made: `key_bytes` and `value_bytes` return, and they return
-- bytes exactly if the key, or the value, ends within the block; then these are the block's bytes
-- from its offset on, as many as the entry says, or the caller where the entry has no length.
pub key_value_bytes_iff :
    (node : BtreeNode) (e : BtreeEntry) (width : ℕ) (bytes : List ℕ)
    → length node.block < 2 ^ 64
    → ((key_bytes node e width ≡ ok bytes) ↔ (
        (e.key_offset + unwrap_or e.key_len width ≤ length node.block)
        × (bytes ≡ take (unwrap_or e.key_len width) (drop e.key_offset node.block))))
      × ((value_bytes node e width ≡ ok bytes) ↔ (
          (e.value_start + unwrap_or e.value_len width ≤ length node.block)
          × (bytes ≡ take (unwrap_or e.value_len width) (drop e.value_start node.block))))
      × Returns (key_bytes node e width)
      × Returns (value_bytes node e width)
unfolding key_bytes value_bytes
key_value_bytes_iff node e width bytes h =
    let key =
      cut_iff key_end_overflow key_past_block node.block e.key_offset (unwrap_or e.key_len width)
        h in
    let value =
      cut_iff value_end_overflow value_past_block node.block e.value_start
        (unwrap_or e.value_len width) h in
    (key.0 bytes, value.0 bytes, key.1, value.1)
