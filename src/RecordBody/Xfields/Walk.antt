-- ===== src/RecordBody/Xfields/Walk.antt =====
-- What `decode_xfields` accepts.
use apfs_fastindex.Base.{
  ℕ, zero, suc, ◌+◌, ◌*◌, ◌≤◌, ◌≡◌, refl, sym, false, not, ◌&&◌, Option, none, some, List, [], ◌∷◌,
  length, take, drop, length-take, ltb, ◌==◌, same_number, ◌⊎◌, Bool-cases, inl, inr, All, arith,
  tests, if◌then◌else◌,
}
use apfs_fastindex.Base.Int.{i32_sub, pos}
use apfs_fastindex.Outcome.{
  ok, ◌>>=◌, ◌>>◌, Returns, Settles, Settles-bind, Settles-reject_if, Settles-if, Returns-if,
  Settles-Returns, Settles-ok, checked, checked_u32, Returns-checked, checked-eq-ok,
  Returns-checked_u32, checked_u32-eq-ok, xfield_cursor_overflow, xfield_total_overflow,
  xfield_metadata_overflow, xfield_padding_past_blob, xfield_used_mismatch, reject_if,
}
use apfs_fastindex.BlockIo.{IsByte, le_u64, slice}
use apfs_fastindex.BlockIo.Fields.{
  field, field-lt, le_u16_lem, le_u64_lem, slice-eq-ok, slice_width,
}
use apfs_fastindex.Omap.{contains}
use apfs_fastindex.RecordBody.{XfieldEntry, XfieldInterpreted, to_hex, parse_dstream}
use apfs_fastindex.RecordBody.Names.{parse_dstream_lem}
use apfs_fastindex.RecordBody.Xfields.{
  XfieldContext, XfieldResult, byte_at, validate_required_xfield_size, is_u64_type,
  interpret_xfield, dstream_or_none, xfield_loop, decode_xfields,
}
use apfs_fastindex.RecordBody.Xfields.Layout.{
  padded, round_up_8_lem, byte_at-some, validate-SizeFits, padded_sum, AreFresh, IsField, AreFields,
}

pub Returns-interpret_xfield :
    (from_utf8 : List ℕ → Option (List ℕ)) (x_type : ℕ) (bytes : List ℕ)
    → Returns (interpret_xfield from_utf8 x_type bytes)
unfolding interpret_xfield dstream_or_none
Returns-interpret_xfield from_utf8 x_type bytes =
    Returns-if (is_u64_type x_type) _ _ number
      (Returns-if (x_type == 4) _ _ tt (Returns-if (x_type == 8) _ _ stream tt))
  where
    number : Returns (
        if length bytes == 8
        then (le_u64 bytes 0 >>= λ value. ok (some (XfieldInterpreted.u64 value)))
        else ok none)
    number = elim (Bool-cases (length bytes == 8)) [
      | inl long ↦ rw (long, le_u64_lem bytes 0 (ground (arith, long))) tt
      | inr other ↦ rw other tt
    ]

    stream : Returns (
        if ltb (length bytes) 40
        then ok none
        else (slice bytes 0 40 >>= λ prefix. dstream_or_none (parse_dstream prefix)))
    stream = elim (Bool-cases (ltb (length bytes) 40)) [
      | inl short ↦ rw short tt
      | inr long ↦
          rw
            (
              long,
              slice-eq-ok bytes 0 40 (omega arith) (omega (tests, long)),
              parse_dstream_lem (take 40 bytes) (omega (tests, long, length-take 40 bytes)),
            )
            tt
    ]

module _ (from_utf8 : List ℕ → Option (List ℕ)) (context : XfieldContext) (blob : List ℕ)
    (b : All IsByte blob) (num : ℕ) (table : 4 + num * 4 ≤ length blob) where
  abbrev entry_of : ℕ → ℕ → ℕ → ℕ → Option XfieldInterpreted → XfieldEntry
  entry_of cursor x_type x_flags size interpreted = record {
    x_type = x_type;
    x_flags = x_flags;
    x_size = size;
    padded_length = padded size;
    value_hex = to_hex (take size (drop cursor blob));
    interpreted = interpreted;
  }

  -- What the rounds from `index` on give.
  record IsRest (index : ℕ) (seen : List ℕ) (cursor total : ℕ) (result : List XfieldEntry × ℕ)
      : Type 0 where
    placed : AreFields from_utf8 context blob index cursor result.0
    fresh : AreFresh seen result.0
    summed : result.1 ≡ total + padded_sum result.0
    counted : length result.0 + index ≡ num

  -- The end of a round, once its field is read.
  after_value :
      (left index : ℕ) (seen : List ℕ) (cursor total x_type x_flags size : ℕ)
      (interpreted : Option XfieldInterpreted)
      → IsField from_utf8 context blob index cursor
          (entry_of cursor x_type x_flags size interpreted)
      → contains seen x_type ≡ false
      → ((seen : List ℕ) (cursor total : ℕ)
          → Settles
              (IsRest (index + 1) seen cursor total)
              Unit
              (xfield_loop from_utf8 context blob num left (index + 1) seen cursor total))
      → Settles (IsRest index seen cursor total) Unit (
          checked_u32 (total + padded size) xfield_total_overflow >>= λ padded_total.
          checked (cursor + padded size) xfield_cursor_overflow >>= λ next.
          reject_if (ltb (length blob) next && ltb (index + 1) num) xfield_padding_past_blob
          >> (xfield_loop from_utf8 context blob num left
                (index + 1)
                (x_type ∷ seen)
                next
                padded_total
              >>= λ (fields, sum).
                  ok (entry_of cursor x_type x_flags size interpreted ∷ fields, sum)))
  after_value left index seen cursor total x_type x_flags size interpreted field fresh behind =
      Settles-bind _ _ (checked_u32 (total + padded size) xfield_total_overflow) _
        (Returns-checked_u32 _ _) (λ e p. tt)
        (λ sum p. rw (checked_u32-eq-ok (total + padded size) _ p) (
          Settles-bind _ _ (checked (cursor + padded size) xfield_cursor_overflow) _
            (Returns-checked _ _) (λ e p. tt)
            (λ next p. rw (checked-eq-ok (cursor + padded size) _ p) (
              Settles-reject_if _ _
                (ltb (length blob) (cursor + padded size) && ltb (index + 1) num) _ _ (λ t. tt)
                (λ room.
                  let rest = behind (x_type ∷ seen) (cursor + padded size) (total + padded size) in
                  Settles-bind _ _
                    (xfield_loop from_utf8 context blob num left (index + 1) (x_type ∷ seen)
                      (cursor + padded size) (total + padded size))
                    _ (Settles-Returns _ _ _ rest) (λ e p. tt)
                    (λ (fields, sum) q.
                      let r = Settles-ok _ _ _ q rest in
                      record {
                        placed = (field, r.placed);
                        fresh = (fresh, r.fresh);
                        summed = omega (arith, r.summed);
                        counted = omega (arith, r.counted);
                      }))))))

  -- One round, given what the rounds behind it give.
  field_round :
      (left index : ℕ) (seen : List ℕ) (cursor total x_type x_flags : ℕ)
      → suc left + index ≡ num
      → byte_at blob (4 + index * 4) ≡ ok x_type
      → byte_at blob (4 + index * 4 + 1) ≡ ok x_flags
      → ((seen : List ℕ) (cursor total : ℕ)
          → Settles
              (IsRest (index + 1) seen cursor total)
              Unit
              (xfield_loop from_utf8 context blob num left (index + 1) seen cursor total))
      → Settles
          (IsRest index seen cursor total)
          Unit
          (xfield_loop from_utf8 context blob num (suc left) index seen cursor total)
  unfolding xfield_loop
  field_round left index seen cursor total x_type x_flags h type_read flags_read behind =
      let small = field-lt 2 blob (4 + index * 4 + 2) b (omega (arith, table, h)) in
      let size = field 2 blob (4 + index * 4 + 2) in
      let size_read = le_u16_lem blob (4 + index * 4 + 2) (omega (arith, table, h)) in
      rw (type_read, flags_read, size_read, round_up_8_lem size (omega (arith, small)))
        (Settles-reject_if _ _ (contains seen x_type) _ _ (λ t. tt)
          (λ fresh.
            Settles-bind _ _ (checked (cursor + size) xfield_cursor_overflow) _
              (Returns-checked (cursor + size) _) (λ e p. tt)
              (λ end p. rw (checked-eq-ok (cursor + size) _ p) (
                Settles-reject_if _ _ (ltb (length blob) (cursor + size)) _ _ (λ t. tt)
                  (λ within.
                    let inside : cursor + size ≤ length blob = omega (tests, within) in
                    let (size_returns, size_fits) = validate-SizeFits context x_type size in
                    rw (slice_width blob cursor size inside) (
                      Settles-bind _ _ (validate_required_xfield_size context x_type size) _
                        size_returns (λ e p. tt)
                        (λ u fits.
                          Settles-bind _ _
                            (interpret_xfield from_utf8 x_type (take size (drop cursor blob))) _
                            (Returns-interpret_xfield from_utf8 x_type _) (λ e p. tt)
                            (λ interpreted read.
                              after_value left index seen cursor total x_type x_flags size
                                interpreted
                                (record {
                                  type_read = type_read;
                                  flags_read = flags_read;
                                  size_read = size_read;
                                  in_blob = inside;
                                  size_fits = size_fits u fits;
                                  padding = refl;
                                  value_spelled = refl;
                                  value_read = read;
                                })
                                fresh behind))))))))

  xfield_loop-IsRest :
      (left index : ℕ) (seen : List ℕ) (cursor total : ℕ)
      → left + index ≡ num
      → Settles
          (IsRest index seen cursor total)
          Unit
          (xfield_loop from_utf8 context blob num left index seen cursor total)
  unfolding xfield_loop
  xfield_loop-IsRest zero index seen cursor total h = record {
    placed = tt;
    fresh = tt;
    summed = omega arith;
    counted = h;
  }
  xfield_loop-IsRest (suc left) index seen cursor total h =
      let (x_type, type_read) = byte_at-some blob (4 + index * 4) (omega (arith, table, h)) in
      let (x_flags, flags_read) = byte_at-some blob (4 + index * 4 + 1) (omega (arith, table, h)) in
      field_round left index seen cursor total x_type x_flags h type_read flags_read
        (λ seen cursor total.
          xfield_loop-IsRest left (index + 1) seen cursor total (omega (arith, h)))

-- What a blob that is not empty must be, and what is read from it.
pub record IsBlob (from_utf8 : List ℕ → Option (List ℕ)) (context : XfieldContext) (blob : List ℕ)
    (r : XfieldResult) : Type 0 where
  pub table : 4 + field 2 blob 0 * 4 ≤ length blob
  pub counted : length r.fields ≡ field 2 blob 0
  pub used : r.xf_used_data ≡ field 2 blob 2
  pub placed : AreFields from_utf8 context blob 0 (4 + field 2 blob 0 * 4) r.fields
  pub fresh : AreFresh [] r.fields
  pub summed : r.padded_total ≡ padded_sum r.fields
  pub filled : r.padded_total ≡ r.xf_used_data
  pub unused :
      r.unused_trailing_bytes ≡ i32_sub (length blob) (4 + field 2 blob 0 * 4 + r.padded_total)

-- An empty blob, which has no fields, or such a blob.
abbrev pub AreXfields : (List ℕ → Option (List ℕ)) → XfieldContext → List ℕ → XfieldResult → Type 0
AreXfields from_utf8 context blob r =
    ((length blob ≡ 0)
      × (r.fields ≡ [])
      × (r.xf_used_data ≡ 0)
      × (r.padded_total ≡ 0)
      × (r.unused_trailing_bytes ≡ pos 0))
    ⊎ IsBlob from_utf8 context blob r

-- `decode_xfields` returns on any bytes.
pub decode_xfields-IsBlob :
    (from_utf8 : List ℕ → Option (List ℕ)) (context : XfieldContext) (blob : List ℕ)
    → All IsByte blob
    → Settles (AreXfields from_utf8 context blob) Unit (decode_xfields from_utf8 context blob)
unfolding decode_xfields
decode_xfields-IsBlob from_utf8 context blob b =
    Settles-if _ _ (length blob == 0) _ _
      (λ empty. inl (ground (arith, empty), refl, refl, refl, refl))
      (λ nonempty.
        Settles-reject_if _ _ (ltb (length blob) 4) _ _ (λ t. tt)
          (λ header.
            rw
              (le_u16_lem blob 0 (omega (tests, header)), le_u16_lem blob 2 (omega (tests, header)))
              (Settles-bind _ _ (checked (field 2 blob 0 * 4) xfield_metadata_overflow) _
                (Returns-checked _ _) (λ e p. tt)
                (λ table p. rw (checked-eq-ok (field 2 blob 0 * 4) _ p) (
                  Settles-bind _ _ (checked (4 + field 2 blob 0 * 4) xfield_metadata_overflow) _
                    (Returns-checked _ _) (λ e p. tt)
                    (λ metadata_end p. rw (checked-eq-ok (4 + field 2 blob 0 * 4) _ p) (
                      Settles-reject_if _ _ (ltb (length blob) (4 + field 2 blob 0 * 4)) _ _
                        (λ t. tt)
                        (λ inside.
                          after_header (field 2 blob 0) refl (omega (tests, inside))))))))))
  where
    after_header :
        (num : ℕ)
        → num ≡ field 2 blob 0
        → 4 + num * 4 ≤ length blob
        → Settles (AreXfields from_utf8 context blob) Unit (
            xfield_loop from_utf8 context blob num num 0 [] (4 + num * 4) 0
            >>= λ (fields, padded_total).
                reject_if (not (field 2 blob 2 == padded_total)) xfield_used_mismatch
                >> ok (record {
                  fields = fields;
                  xf_used_data = field 2 blob 2;
                  padded_total = padded_total;
                  unused_trailing_bytes = i32_sub (length blob) (4 + num * 4 + padded_total);
                }))
    after_header num n table =
        let rest =
          xfield_loop-IsRest from_utf8 context blob b num table num 0 [] (4 + num * 4) 0
            (omega arith) in
        Settles-bind _ _ (xfield_loop from_utf8 context blob num num 0 [] (4 + num * 4) 0) _
          (Settles-Returns _ _ _ rest) (λ e p. tt)
          (λ (fields, padded_total) p.
            let r = Settles-ok _ _ _ p rest in
            Settles-reject_if _ _ (not (field 2 blob 2 == padded_total)) _ _ (λ t. tt)
              (λ used. inr (record {
                table = rw (← n) table;
                counted = omega (arith, r.counted, n);
                used = refl;
                placed = rw (← n) r.placed;
                fresh = r.fresh;
                summed = omega (arith, r.summed);
                filled = sym (same_number _ _ used);
                unused = rw (← n) refl;
              })))
