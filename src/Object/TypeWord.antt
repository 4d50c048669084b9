-- ===== src/Object/TypeWord.antt =====
-- The type word of a header, taken apart by arithmetic instead of masks.
use apfs_fastindex.Base.{ℕ, ◌*◌, ◌/◌, ◌%◌, ◌^◌, ◌≡◌, bit_and, Bool, ◌==◌, arith}
use apfs_fastindex.Base.Bits.{bit_and_low, bit_and_shifted, bit_and_bit}
use apfs_fastindex.Object.{
  object_type_mask, object_type_flags_mask, has_bit, obj_ephemeral, obj_physical, obj_noheader,
  obj_encrypted,
}

-- Bit `k` of a word.
abbrev pub bit : ℕ → ℕ → Bool
bit k word = word / 2 ^ k % 2 == 1

pub low_word : (raw : ℕ) → bit_and raw object_type_mask ≡ raw % 2 ^ 16
low_word raw = bit_and_low 16 raw

pub high_word : (raw : ℕ) → bit_and raw object_type_flags_mask ≡ raw / 2 ^ 16 % 2 ^ 16 * 2 ^ 16
high_word raw = omega (arith, bit_and_shifted 16 raw 0xffff, bit_and_low 16 (raw / 2 ^ 16))

module _ (raw : ℕ) where
  pub ephemeral_bit : has_bit (bit_and raw object_type_flags_mask) obj_ephemeral ≡ bit 31 raw
  ephemeral_bit = ground (arith, high_word raw, bit_and_bit 31 (bit_and raw object_type_flags_mask))

  pub physical_bit : has_bit (bit_and raw object_type_flags_mask) obj_physical ≡ bit 30 raw
  physical_bit = ground (arith, high_word raw, bit_and_bit 30 (bit_and raw object_type_flags_mask))

  pub noheader_bit : has_bit (bit_and raw object_type_flags_mask) obj_noheader ≡ bit 29 raw
  noheader_bit = ground (arith, high_word raw, bit_and_bit 29 (bit_and raw object_type_flags_mask))

  pub encrypted_bit : has_bit (bit_and raw object_type_flags_mask) obj_encrypted ≡ bit 28 raw
  encrypted_bit = ground (arith, high_word raw, bit_and_bit 28 (bit_and raw object_type_flags_mask))
