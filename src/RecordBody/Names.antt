-- ===== src/RecordBody/Names.antt =====
-- The pieces that several families share: names, hexadecimal spellings and data streams.
use apfs_fastindex.Base.{
  ℕ, zero, suc, take, ◌+◌, ◌-◌, ◌*◌, ◌/◌, ◌%◌, ◌≤◌, ◌<◌, ◌≡◌, refl, ap, ◌⊎◌, inl, inr, ◌++◌,
  length-append, Bool, true, false, ◌&&◌, Option, none, some, List, [], ◌∷◌, length, ltb, leb, ◌==◌,
  All, if◌then◌else◌, arith, tests,
}
use apfs_fastindex.Base.Bits.{bit_and_low}
use apfs_fastindex.Outcome.{ok, Settles, Settles-reject_if}
use apfs_fastindex.BlockIo.{IsByte}
use apfs_fastindex.BlockIo.Fields.{field, le_u64_lem}
use apfs_fastindex.Container.{hex_digit}
use apfs_fastindex.Omap.{contains}
use apfs_fastindex.RecordBody.{
  ends_in_nul, DstreamFields, to_hex, strip_trailing_nul, decode_name, parse_dstream, utf8_or_error,
}

-- What a digit of a lower-case hexadecimal number is worth.
abbrev digit_value : ℕ → Option ℕ
digit_value c =
    if leb 0x30 c && leb c 0x39
    then some (c - 0x30)
    else if leb 0x61 c && leb c 0x66
    then some (c - 0x57)
    else none

unfoldable pub join_digits : Option ℕ → Option ℕ → Option (List ℕ) → Option (List ℕ)
join_digits (some high) (some low) (some bytes) = some ((16 * high + low) ∷ bytes)
join_digits _ _ _ = none

-- The bytes that a hexadecimal text spells, two digits each.
unfoldable pub from_hex : List ℕ → Option (List ℕ)
from_hex [] = some []
from_hex (c ∷ []) = none
from_hex (c ∷ d ∷ text) = join_digits (digit_value c) (digit_value d) (from_hex text)

digit_value-hex_digit : (n : ℕ) → n < 16 → digit_value (hex_digit n) ≡ some n
unfolding hex_digit
digit_value-hex_digit n h = ground arith

-- The hexadecimal text of any bytes spells them back.
pub from_hex-to_hex : (bytes : List ℕ) → All IsByte bytes → from_hex (to_hex bytes) ≡ some bytes
unfolding to_hex from_hex join_digits
from_hex-to_hex [] h = refl
from_hex-to_hex (b ∷ bytes) (hb, h) =
    rw
      (
        bit_and_low 4 b,
        digit_value-hex_digit (b / 16) (omega (arith, hb)),
        digit_value-hex_digit (b % 16) (omega arith),
        from_hex-to_hex bytes h,
      )
      (ap (λ (n : ℕ). some (n ∷ bytes)) (omega arith))

-- The bytes are those of the stem, or these and one NUL.
abbrev pub IsStem : List ℕ → List ℕ → Type 0
IsStem name_bytes stem = (name_bytes ≡ stem) ⊎ (name_bytes ≡ stem ++ (0 ∷ []))

-- What a text of records accepts as a name.
abbrev pub IsName : (List ℕ → Option (List ℕ)) → List ℕ → List ℕ → Type 0
IsName from_utf8 name_bytes name =
    (stem : List ℕ) × IsStem name_bytes stem
    × (0 < length stem)
    × (contains stem 0 ≡ false)
    × (from_utf8 stem ≡ some name)

last_nul :
    (bytes : List ℕ) (n : ℕ)
    → ends_in_nul bytes ≡ true
    → length bytes ≡ suc n
    → bytes ≡ take n bytes ++ (0 ∷ [])
unfolding ends_in_nul
last_nul [] n e l = cc
last_nul (b ∷ []) zero e l = ap (λ (c : ℕ). c ∷ []) (ground (arith, e))
last_nul (b ∷ []) (suc n) e l = absurd (omega (arith, l))
last_nul (b ∷ c ∷ bytes) zero e l = absurd (omega (arith, l))
last_nul (b ∷ c ∷ bytes) (suc n) e l =
    ap (λ (t : List ℕ). b ∷ t) (last_nul (c ∷ bytes) n e (omega (arith, l)))

ends_in_nul-clean : (stem : List ℕ) → contains stem 0 ≡ false → ends_in_nul stem ≡ false
unfolding ends_in_nul contains
ends_in_nul-clean [] c = refl
ends_in_nul-clean (b ∷ []) c = ground (arith, c)
ends_in_nul-clean (b ∷ d ∷ stem) c = ends_in_nul-clean (d ∷ stem) (ground (arith, c))

ends_in_nul-append : (stem : List ℕ) → ends_in_nul (stem ++ (0 ∷ [])) ≡ true
unfolding ends_in_nul
ends_in_nul-append [] = refl
ends_in_nul-append (b ∷ []) = refl
ends_in_nul-append (b ∷ d ∷ stem) = ends_in_nul-append (d ∷ stem)

take-append : (stem : List ℕ) → take (length stem) (stem ++ (0 ∷ [])) ≡ stem
take-append [] = refl
take-append (b ∷ stem) = ap (λ (t : List ℕ). b ∷ t) (take-append stem)

strip_trailing_nul-IsStem : (bytes : List ℕ) → IsStem bytes (strip_trailing_nul bytes)
unfolding strip_trailing_nul ends_in_nul
strip_trailing_nul-IsStem bytes = of_test (ends_in_nul bytes) refl
  where
    some_byte : (bytes : List ℕ) → ends_in_nul bytes ≡ true → length bytes ≡ suc (length bytes - 1)
    some_byte [] e = cc
    some_byte (b ∷ bytes) e = omega arith

    of_test :
        (t : Bool)
        → ends_in_nul bytes ≡ t
        → IsStem bytes (if t then take (length bytes - 1) bytes else bytes)
    of_test true e = inr (last_nul bytes (length bytes - 1) e (some_byte bytes e))
    of_test false e = inl refl

strip_trailing_nul-stem :
    (bytes stem : List ℕ)
    → IsStem bytes stem
    → contains stem 0 ≡ false
    → strip_trailing_nul bytes ≡ stem
unfolding strip_trailing_nul
strip_trailing_nul-stem bytes stem (inl same) c = rw (same, ends_in_nul-clean stem c) refl
strip_trailing_nul-stem bytes stem (inr same) c =
    rw (same, ends_in_nul-append stem, less_one stem) (take-append stem)
  where
    less_one : (stem : List ℕ) → length (stem ++ (0 ∷ [])) - 1 ≡ length stem
    less_one stem = omega (arith, length-append stem (0 ∷ []))

module _ (from_utf8 : List ℕ → Option (List ℕ)) (name_bytes : List ℕ) where
  -- `decode_name` returns; it gives a name exactly if the bytes are a stem or a stem and one NUL,
  -- where the stem is not empty, holds no NUL and is accepted by `from_utf8`, and the name is the
  -- text of the stem.
  pub decode_name-IsName :
      Settles
        (IsName from_utf8 name_bytes)
        (¬ ((name : List ℕ) × IsName from_utf8 name_bytes name))
        (decode_name from_utf8 name_bytes)
  unfolding decode_name utf8_or_error strip_trailing_nul ends_in_nul
  decode_name-IsName =
      Settles-reject_if _ _ (length name_bytes == 0) _ _
        (λ empty n. none_in_empty (same (length name_bytes) empty) (stripped n))
        (λ nonempty.
          Settles-reject_if _ _ (length (strip_trailing_nul name_bytes) == 0) _ _
            (λ empty n.
              omega (tests, (stripped n).1, same (length (strip_trailing_nul name_bytes)) empty))
            (λ rest.
              Settles-reject_if _ _ (contains (strip_trailing_nul name_bytes) 0) _ _
                (λ nul n. with_nul nul (stripped n).2)
                (λ clean.
                  of_text (from_utf8 (strip_trailing_nul name_bytes)) refl (ground (arith, rest))
                    clean)))
    where
      Accepts : Type 0
      Accepts =
          (name : List ℕ) × (0 < length (strip_trailing_nul name_bytes))
          × (contains (strip_trailing_nul name_bytes) 0 ≡ false)
          × (from_utf8 (strip_trailing_nul name_bytes) ≡ some name)

      stripped : ((name : List ℕ) × IsName from_utf8 name_bytes name) → Accepts
      stripped (name, (stem, stands, some_byte, clean, text)) =
          let same_stem = strip_trailing_nul-stem name_bytes stem stands clean in
          (name, rw same_stem some_byte, rw same_stem clean, rw same_stem text)

      same : (n : ℕ) → (n == 0) ≡ true → n ≡ 0
      same n h = ground arith

      with_nul : {b : Bool} → b ≡ true → b ≡ false → ⊥
      with_nul p q = cc

      strip_empty : (bytes : List ℕ) → length bytes ≡ 0 → strip_trailing_nul bytes ≡ []
      strip_empty [] e = refl
      strip_empty (b ∷ bytes) e = absurd (omega (arith, e))

      none_in_empty : length name_bytes ≡ 0 → Accepts → ⊥
      none_in_empty empty n =
          omega (arith, n.1, ap (λ (t : List ℕ). length t) (strip_empty name_bytes empty))

      no_text : {o : Option (List ℕ)} {text : List ℕ} → (o ≡ none) × (o ≡ some text) → ⊥
      no_text h = cc

      of_text :
          (o : Option (List ℕ))
          → from_utf8 (strip_trailing_nul name_bytes) ≡ o
          → 0 < length (strip_trailing_nul name_bytes)
          → contains (strip_trailing_nul name_bytes) 0 ≡ false
          → Settles
              (IsName from_utf8 name_bytes)
              (¬ ((name : List ℕ) × IsName from_utf8 name_bytes name))
              (utf8_or_error o)
      of_text none p b c = λ n. no_text (p, (stripped n).3)
      of_text (some text) p b c =
          (strip_trailing_nul name_bytes, strip_trailing_nul-IsStem name_bytes, b, c, p)

-- The five fields that a data stream begins with.
abbrev pub dstream_of : List ℕ → DstreamFields
dstream_of bytes = record {
  size = field 8 bytes 0;
  alloced_size = field 8 bytes 8;
  default_crypto_id = field 8 bytes 16;
  total_bytes_written = field 8 bytes 24;
  total_bytes_read = field 8 bytes 32;
}

pub parse_dstream_lem :
    (bytes : List ℕ) → 40 ≤ length bytes → parse_dstream bytes ≡ ok (dstream_of bytes)
unfolding parse_dstream
parse_dstream_lem bytes h =
    rw
      (
        not_below (length bytes) 40 h,
        le_u64_lem bytes 0 (omega arith),
        le_u64_lem bytes 8 (omega arith),
        le_u64_lem bytes 16 (omega arith),
        le_u64_lem bytes 24 (omega arith),
        le_u64_lem bytes 32 (omega arith),
      )
      refl
  where
    not_below : (a b : ℕ) → b ≤ a → ltb a b ≡ false
    not_below a b h = ground arith
