-- ===== src/Omap/Flags.antt =====
-- Which flag words of an object map and of its values the resolver accepts.
use apfs_fastindex.Base.{ℕ, ◌*◌, ◌/◌, ◌%◌, ◌^◌, ◌<◌, ◌≡◌, ◌↔◌, bit_and, none, arith}
use apfs_fastindex.Base.Bits.{bit_and_bit, bit_and_low, bit_and_shifted}
use apfs_fastindex.Omap.{value_flag_hard_stop_reason, phys_flag_hard_stop_reason}

unknown_value_bits_lem : (f : ℕ) → bit_and f 0xffff_ffe0 ≡ f / 2 ^ 5 % 2 ^ 27 * 2 ^ 5
unknown_value_bits_lem f = omega (arith, bit_and_shifted 5 f 0x7ff_ffff, bit_and_low 27 (f / 2 ^ 5))

unknown_phys_bits_lem : (f : ℕ) → bit_and f 0xffff_fffe ≡ f / 2 % 2 ^ 31 * 2
unknown_phys_bits_lem f = omega (arith, bit_and_shifted 1 f 0x7fff_ffff, bit_and_low 31 (f / 2))

-- Of the 32-bit flag words of a value exactly those below 4, that is with no bit but DELETED and
-- SAVED, are no hard stop, and of the flag words of an object map exactly 0 and MANUALLY_MANAGED.
pub accepted_flags :
    (flags : ℕ)
    → flags < 2 ^ 32
    → ((value_flag_hard_stop_reason flags ≡ none) ↔ (flags < 4))
      × ((phys_flag_hard_stop_reason flags ≡ none) ↔ (flags < 2))
unfolding value_flag_hard_stop_reason phys_flag_hard_stop_reason
accepted_flags flags h = ground (
  arith,
  bit_and_bit 1 flags,
  bit_and_bit 2 flags,
  bit_and_bit 3 flags,
  bit_and_bit 4 flags,
  unknown_value_bits_lem flags,
  unknown_phys_bits_lem flags,
)
