-- ===== src/RecordBody/Values/Xattr.antt =====
-- What the value of an extended attribute decodes to.
use apfs_fastindex.Base.{
  ℕ, ◌+◌, ◌-◌, ◌/◌, ◌%◌, ◌^◌, ◌≤◌, ◌<◌, ◌≡◌, refl, Bool, true, false, not, ◌&&◌, ◌||◌, ◌⊎◌, Option,
  none, some, List, length, take, drop, ltb, ◌==◌, inl, inr, arith, tests, All, length-drop,
  length-take, same_number, other_number,
}
use apfs_fastindex.Base.Bits.{bit_and_low, bit_and_bit, bit_and_shifted}
use apfs_fastindex.Outcome.{Settles, Settles-reject_if, Settles-if}
use apfs_fastindex.BlockIo.{IsByte}
use apfs_fastindex.BlockIo.Fields.{
  field, field-lt, le_u16_lem, le_u64_lem, slice-eq-ok, slice_width, length-slice,
}
use apfs_fastindex.Object.{has_bit}
use apfs_fastindex.RecordBody.{XattrBody, to_hex, strip_trailing_nul}
use apfs_fastindex.RecordBody.Names.{dstream_of, parse_dstream_lem}
use apfs_fastindex.RecordBody.Values.{decode_xattr}

-- The attribute's words: one of the two kinds of storage, and no bit that is not known.
abbrev pub AreXattrFlags : ℕ → Type 0
AreXattrFlags flags = (flags < 8) × ((flags % 4 ≡ 1) ⊎ (flags % 4 ≡ 2))

known_flags : (flags : ℕ) → flags < 2 ^ 16 → has_bit flags 0xfff8 ≡ ltb 7 flags
known_flags flags h = ground (arith, bit_and_shifted 3 flags 0x1fff, bit_and_low 13 (flags / 8))

embedded_flag : (flags : ℕ) → has_bit flags 2 ≡ (flags / 2 % 2 == 1)
embedded_flag flags = ground (arith, bit_and_bit 1 flags)

stream_flag : (flags : ℕ) → has_bit flags 1 ≡ (flags % 2 == 1)
stream_flag flags = ground (arith, bit_and_low 1 flags)

abbrev both_or_neither : ℕ → Bool
both_or_neither flags =
    flags / 2 % 2 == 1 && flags % 2 == 1 || not (flags / 2 % 2 == 1) && not (flags % 2 == 1)

both_or_neither-true : (flags : ℕ) → both_or_neither flags ≡ true → AreXattrFlags flags → ⊥
both_or_neither-true flags h x = ground (arith, x.1)

both_or_neither-false :
    (flags : ℕ)
    → both_or_neither flags ≡ false
    → ((flags / 2 % 2 == 1) ≡ true → (flags % 4 ≡ 2) × ((flags % 2 == 1) ≡ false))
      × ((flags / 2 % 2 == 1) ≡ false → (flags % 4 ≡ 1) × ((flags % 2 == 1) ≡ true))
both_or_neither-false flags h = (λ e. ground arith, λ e. ground arith)

module _ (from_utf8 : List ℕ → Option (List ℕ)) (value : List ℕ) (b : All IsByte value) where
  abbrev pub payload_of : List ℕ
  payload_of = take (length value - 4) (drop 4 value)

  pub record IsXattr : Type 0 where
    pub header : 4 ≤ length value
    pub flags : AreXattrFlags (field 2 value 0)
    pub sized : length value ≡ 4 + field 2 value 2
    pub stream_fits : field 2 value 0 % 4 ≡ 1 → 52 ≤ length value

  pub record DescribesXattr (body : XattrBody) : Type 0 where
    pub flags : body.flags ≡ field 2 value 0
    pub xdata_len : body.xdata_len ≡ field 2 value 2
    pub payload : body.payload_hex ≡ to_hex payload_of
    pub when_embedded :
        field 2 value 0 % 4 ≡ 2
        → (body.embedded ≡ true)
          × (body.stream ≡ false)
          × (body.payload_utf8 ≡ from_utf8 (strip_trailing_nul payload_of))
          × (body.stream_xattr_obj_id ≡ none)
          × (body.stream_dstream ≡ none)
    pub when_stream :
        field 2 value 0 % 4 ≡ 1
        → (body.embedded ≡ false)
          × (body.stream ≡ true)
          × (body.payload_utf8 ≡ none)
          × (body.stream_xattr_obj_id ≡ some (field 8 payload_of 0))
          × (body.stream_dstream ≡ some (dstream_of (take 40 (drop 8 payload_of))))

  payload_length : length payload_of ≡ length value - 4
  payload_length = omega (arith, length-take (length value - 4) (drop 4 value), length-drop 4 value)

  -- `decode_xattr` returns. It gives a body exactly if the value has its header, no unknown flag,
  -- one of the two kinds of storage, as many bytes behind the header as the header says, and with
  -- a stream at least 48 of them. The body has the payload, and of the fields of the two kinds
  -- those of its own.
  pub decode_xattr-IsXattr :
      Settles (λ body. IsXattr × DescribesXattr body) (¬ IsXattr) (decode_xattr from_utf8 value)
  unfolding decode_xattr
  decode_xattr-IsXattr =
      Settles-reject_if _ _ (ltb (length value) 4) _ _ (λ short x. omega (tests, short, x.header))
        (λ long.
          let flags = field 2 value 0 in
          let small = field-lt 2 value 0 b (omega (tests, long)) in
          rw
            (
              le_u16_lem value 0 (omega (tests, long)),
              le_u16_lem value 2 (omega (tests, long)),
              known_flags flags small,
              embedded_flag flags,
              stream_flag flags,
              slice-eq-ok value 4 (length value) (omega (tests, long)) (omega arith),
            )
            (Settles-reject_if _ _ (ltb 7 flags) _ _ (λ big x. omega (tests, big, x.flags.0))
              (λ known.
                Settles-reject_if _ _ (both_or_neither flags) _ _
                  (λ clash x. both_or_neither-true flags clash x.flags)
                  (λ exclusive.
                    Settles-reject_if _ _ (not (length payload_of == field 2 value 2)) _ _
                      (λ other x. other_number _ _ other (omega (arith, payload_length, x.sized)))
                      (λ sized.
                        Settles-if _ _ (flags / 2 % 2 == 1) _ _
                          (λ embedded.
                            let (two, no_stream) =
                              (both_or_neither-false flags exclusive).0 embedded in
                            rw (embedded, no_stream)
                              (
                                record {
                                  header = omega (tests, long);
                                  flags = (omega (tests, known), inr two);
                                  sized =
                                      omega (tests, long, payload_length, same_number _ _ sized);
                                  stream_fits = λ one. absurd (omega (arith, one, two));
                                },
                                record {
                                  flags = refl;
                                  xdata_len = refl;
                                  payload = refl;
                                  when_embedded = λ _. (refl, refl, refl, refl, refl);
                                  when_stream = λ one. absurd (omega (arith, one, two));
                                },
                              ))
                          (λ stream.
                            let (one, no_embedded) =
                              (both_or_neither-false flags exclusive).1 stream in
                            Settles-reject_if _ _ (ltb (length payload_of) 48) _ _
                              (λ short x. omega (tests, short, payload_length, x.stream_fits one))
                              (λ room.
                                rw
                                  (
                                    stream,
                                    no_embedded,
                                    le_u64_lem payload_of 0 (omega (tests, room)),
                                    slice_width payload_of 8 40 (omega (tests, room)),
                                    parse_dstream_lem (take 40 (drop 8 payload_of)) (
                                        omega (
                                          tests,
                                          room,
                                          length-slice payload_of 8 40 (omega (tests, room)),
                                        )),
                                  )
                                  (
                                    record {
                                      header = omega (tests, long);
                                      flags = (omega (tests, known), inl one);
                                      sized =
                                          omega
                                            (tests, long, payload_length, same_number _ _ sized);
                                      stream_fits = λ _. omega (tests, room, payload_length);
                                    },
                                    record {
                                      flags = refl;
                                      xdata_len = refl;
                                      payload = refl;
                                      when_embedded = λ two. absurd (omega (arith, one, two));
                                      when_stream = λ _. (refl, refl, refl, refl, refl);
                                    },
                                  ))))))))
