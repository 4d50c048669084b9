-- ===== src/Namespace/Payload.antt =====
-- Hexadecimal payloads: what `to_hex` of the record bodies spells, the namespace reads back.
use apfs_fastindex.Base.{
  ℕ, ◌*◌, ◌/◌, ◌%◌, ◌^◌, ◌<◌, ◌≡◌, refl, ap, true, none, some, List, [], ◌∷◌, length, ltb, ◌==◌,
  All, if◌then◌else◌, arith, bit_or,
}
use apfs_fastindex.Base.Bits.{bit_and_low, bit_or_fields}
use apfs_fastindex.Outcome.{ok}
use apfs_fastindex.BlockIo.{IsByte}
use apfs_fastindex.BlockIo.Fields.{field, le_u64_lem}
use apfs_fastindex.Container.{hex_digit}
use apfs_fastindex.RecordBody.{to_hex}
use apfs_fastindex.Namespace.{
  hex_nibble, push_byte, nibble_loop, hex_to_vec, header_size, decmpfs_uncompressed_size,
}

hex_nibble-hex_digit : (n : ℕ) → n < 16 → hex_nibble (hex_digit n) ≡ some n
unfolding hex_digit hex_nibble
hex_nibble-hex_digit n h = ground arith

length-to_hex : (bytes : List ℕ) → length (to_hex bytes) ≡ 2 * length bytes
unfolding to_hex
length-to_hex [] = refl
length-to_hex (b ∷ bytes) = omega (arith, length-to_hex bytes)

-- `(high << 4) | low` joins the digits of a byte.
joined : (b : ℕ) → b < 256 → bit_or (b / 16 * 2 ^ 4 % 256) (b % 16) ≡ b
joined b h = rw (below, bit_or_fields 4 (b / 16) (b % 16) (omega arith)) (omega arith)
  where
    below : b / 16 * 2 ^ 4 % 256 ≡ b / 16 * 2 ^ 4
    below = omega arith

nibble_loop-to_hex : (bytes : List ℕ) → All IsByte bytes → nibble_loop (to_hex bytes) ≡ some bytes
unfolding to_hex nibble_loop push_byte
nibble_loop-to_hex [] h = refl
nibble_loop-to_hex (b ∷ bytes) (hb, h) =
    rw
      (
        bit_and_low 4 b,
        hex_nibble-hex_digit (b / 16) (omega (arith, hb)),
        hex_nibble-hex_digit (b % 16) (omega arith),
        nibble_loop-to_hex bytes h,
      )
      (ap (λ (n : ℕ). some (n ∷ bytes)) (joined b hb))

-- `hex_to_vec` reads back the bytes that `to_hex` spelled.
pub hex_to_vec-to_hex : (bytes : List ℕ) → All IsByte bytes → hex_to_vec (to_hex bytes) ≡ some bytes
unfolding hex_to_vec
hex_to_vec-to_hex bytes h =
    rw (length-to_hex bytes, even (length bytes)) (nibble_loop-to_hex bytes h)
  where
    even : (n : ℕ) → (2 * n % 2 == 0) ≡ true
    even n = ground arith

-- Of a payload of bytes as `decode_xattr` spells it, `decmpfs_uncompressed_size` reads the
-- eight bytes from 8 on, or nothing if the payload is shorter than 16 bytes.
pub decmpfs_uncompressed_size-to_hex :
    (bytes : List ℕ)
    → All IsByte bytes
    → decmpfs_uncompressed_size (to_hex bytes)
      ≡ ok (if ltb (length bytes) 16 then none else some (field 8 bytes 8))
unfolding decmpfs_uncompressed_size header_size
decmpfs_uncompressed_size-to_hex bytes h =
    rw (hex_to_vec-to_hex bytes h) (ground (arith, le_u64_lem bytes 8))
