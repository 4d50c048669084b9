-- ===== src/RecordBody/Xfields/Accepted.antt =====
-- Which blobs `decode_xfields` accepts: every blob that holds fields as its table says.
use apfs_fastindex.Base.{
  ℕ, ◌+◌, ◌*◌, ◌^◌, ◌≤◌, ◌<◌, ◌≡◌, ◌↔◌, refl, ap, ◌∙◌, false, not, ◌&&◌, Option, none, some, List,
  [], ◌∷◌, length, take, drop, ltb, ◌==◌, inl, inr, All, arith,
}
use apfs_fastindex.Base.Int.{ℤ}
use mathlib.Core.Path.{subst}
use apfs_fastindex.Outcome.{
  Outcome, Reason, ok, Returns, Settles-Returns, checked, checked_u32, Settles-ok,
}
use apfs_fastindex.BlockIo.{IsByte}
use apfs_fastindex.BlockIo.Fields.{field, field-lt, le_u16_lem, slice_width}
use apfs_fastindex.RecordBody.{XfieldEntry, to_hex}
use apfs_fastindex.RecordBody.Xfields.{
  XfieldContext, XfieldResult, required_xfield_size, check_size, validate_required_xfield_size,
  xfield_loop, decode_xfields,
}
use apfs_fastindex.RecordBody.Xfields.Layout.{
  padded, round_up_8_lem, SizeFits, padded_sum, AreFresh, IsField, AreFields,
}
use apfs_fastindex.RecordBody.Xfields.Walk.{AreXfields, decode_xfields-IsBlob}

check_size-ok :
    (expected : Option ℕ) (size : ℕ) → SizeFits expected size → check_size expected size ≡ ok tt
unfolding check_size
check_size-ok none size h = refl
check_size-ok (some n) size h = ground arith

checked-ok : (n : ℕ) (r : Reason) → n < 2 ^ 64 → checked n r ≡ ok n
checked-ok n r h = ground arith

checked_u32-ok : (n : ℕ) (r : Reason) → n < 2 ^ 32 → checked_u32 n r ≡ ok n
checked_u32-ok n r h = ground arith

not_past : (a b : ℕ) → b ≤ a → ltb a b ≡ false
not_past a b h = ground arith

nonempty : (n : ℕ) → 0 < n → (n == 0) ≡ false
nonempty n h = ground arith

joined :
    {f g : XfieldEntry} {m n : ℕ} (fields : List XfieldEntry)
    → f ≡ g
    → m ≡ n
    → ◌≡◌ {A = Outcome (List XfieldEntry × ℕ)} (ok (f ∷ fields, m)) (ok (g ∷ fields, n))
joined fields p q = cc

same_test : (a b : ℕ) → a ≡ b → not (a == b) ≡ false
same_test a b h = ground arith

same_result :
    (r : XfieldResult) {fields : List XfieldEntry} {used total : ℕ} {unused : ℤ}
    → r.fields ≡ fields
    → r.xf_used_data ≡ used
    → r.padded_total ≡ total
    → r.unused_trailing_bytes ≡ unused
    → ok (record {
      fields = fields;
      xf_used_data = used;
      padded_total = total;
      unused_trailing_bytes = unused;
    })
      ≡ ok r
same_result r p q s t = rw (← p, ← q, ← s, ← t) refl

module _ (from_utf8 : List ℕ → Option (List ℕ)) (context : XfieldContext) (blob : List ℕ)
    (num : ℕ) where
  -- The padding of a field ends within the blob, or no field follows.
  room_left :
      (index cursor : ℕ) (f : XfieldEntry) (fields : List XfieldEntry)
      → length (f ∷ fields) + index ≡ num
      → AreFields from_utf8 context blob (index + 1) cursor fields
      → (ltb (length blob) cursor && ltb (index + 1) num) ≡ false
  room_left index cursor f [] n placed = ground arith
  room_left index cursor f (g ∷ fields) n (placed, _) =
      rw (not_past (length blob) cursor (omega (arith, placed.in_blob))) refl

  same_entry :
      (index cursor : ℕ) (f : XfieldEntry)
      → IsField from_utf8 context blob index cursor f
      → record {
        x_type = f.x_type;
        x_flags = f.x_flags;
        x_size = f.x_size;
        padded_length = padded f.x_size;
        value_hex = to_hex (take f.x_size (drop cursor blob));
        interpreted = f.interpreted;
      }
        ≡ f
  same_entry index cursor f h = rw (← h.padding, ← h.value_spelled) refl

  xfield_loop-AreFields :
      (fields : List XfieldEntry) (index : ℕ) (seen : List ℕ) (cursor total : ℕ)
      → length fields + index ≡ num
      → AreFields from_utf8 context blob index cursor fields
      → AreFresh seen fields
      → cursor + padded_sum fields < 2 ^ 64
      → total + padded_sum fields < 2 ^ 32
      → xfield_loop from_utf8 context blob num (length fields) index seen cursor total
        ≡ ok (fields, total + padded_sum fields)
  unfolding xfield_loop validate_required_xfield_size
  xfield_loop-AreFields [] index seen cursor total n placed fresh c t =
      ap (λ (m : ℕ). ok ([], m)) (omega arith)
  xfield_loop-AreFields (f ∷ fields) index seen cursor total n (here, placed) (new, fresh) c t =
      rw
        (
          here.type_read,
          here.flags_read,
          here.size_read,
          new,
          checked-ok (cursor + f.x_size) _ (omega (arith, c)),
          not_past (length blob) (cursor + f.x_size) here.in_blob,
          slice_width blob cursor f.x_size here.in_blob,
          check_size-ok (required_xfield_size context f.x_type) f.x_size here.size_fits,
          here.value_read,
          round_up_8_lem f.x_size (omega (arith, t)),
          checked_u32-ok (total + padded f.x_size) _ (omega (arith, t)),
          checked-ok (cursor + padded f.x_size) _ (omega (arith, c)),
          room_left index (cursor + padded f.x_size) f fields n placed,
          xfield_loop-AreFields fields (index + 1) (f.x_type ∷ seen) (cursor + padded f.x_size)
              (total + padded f.x_size) (omega (arith, n)) placed fresh (omega (arith, c))
              (omega (arith, t)),
        )
        (joined fields (same_entry index cursor f here) (omega arith))

module _ (from_utf8 : List ℕ → Option (List ℕ)) (context : XfieldContext) (blob : List ℕ)
    (b : All IsByte blob) (l : length blob < 2 ^ 63) where
  decode_xfields_complete :
      (r : XfieldResult)
      → AreXfields from_utf8 context blob r
      → decode_xfields from_utf8 context blob ≡ ok r
  unfolding decode_xfields
  decode_xfields_complete r (inl (empty, no_fields, no_data, no_total, no_rest)) =
      rw empty (same_result r no_fields no_data no_total no_rest)
  decode_xfields_complete r (inr h) =
      let used = field-lt 2 blob 2 b (omega (arith, h.table)) in
      let num = field 2 blob 0 in
      let loop =
        xfield_loop-AreFields from_utf8 context blob num r.fields 0 [] (4 + num * 4) 0
          (omega (arith, h.counted)) h.placed h.fresh
          (omega (arith, l, h.table, h.summed, h.filled, h.used, used))
          (omega (arith, h.summed, h.filled, h.used, used)) in
      rw
        (
          nonempty (length blob) (omega (arith, h.table)),
          not_past (length blob) 4 (omega (arith, h.table)),
          le_u16_lem blob 0 (omega (arith, h.table)),
          le_u16_lem blob 2 (omega (arith, h.table)),
          checked-ok (num * 4) _ (omega (arith, l, h.table)),
          checked-ok (4 + num * 4) _ (omega (arith, l, h.table)),
          not_past (length blob) (4 + num * 4) h.table,
          subst
              (λ (left : ℕ).
                xfield_loop from_utf8 context blob num left 0 [] (4 + num * 4) 0
                ≡ ok (r.fields, r.padded_total))
              h.counted (loop ∙ ap (λ (m : ℕ). ok (r.fields, m)) (omega (arith, h.summed))),
          same_test (field 2 blob 2) r.padded_total (omega (arith, h.used, h.filled)),
        )
        (same_result r refl h.used refl h.unused)

  -- Below 2^63 bytes, as every slice is, `decode_xfields` gives a result exactly for the blobs that
  -- are empty or hold fields as their table says: as many as the header counts, each type once,
  -- each value behind the last one and its padding, within the blob, of the size that its type
  -- asks for, and all of them with their padding as long as the header says; and the result is the
  -- list of those fields. It returns on every blob.
  pub decode_xfields_iff :
      (r : XfieldResult)
      → ((decode_xfields from_utf8 context blob ≡ ok r) ↔ AreXfields from_utf8 context blob r)
        × Returns (decode_xfields from_utf8 context blob)
  decode_xfields_iff r =
      let settles = decode_xfields-IsBlob from_utf8 context blob b in
      ((λ p. Settles-ok _ _ _ p settles, decode_xfields_complete r), Settles-Returns _ _ _ settles)
