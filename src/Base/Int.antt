-- ===== src/Base/Int.antt =====
-- Signed integers: `i32` read from its 32 bits, and an `i64` difference cut down to `i32`.
use apfs_fastindex.Base.{ℕ, ◌-◌, ◌%◌, ◌^◌, Bool, true, false, ltb, leb, if◌then◌else◌}

-- `negsuc n` is -(n + 1).
pub data ℤ : Type 0 where
  pos : ℕ → ℤ
  negsuc : ℕ → ℤ

abbrev pub is_negative : ℤ → Bool
is_negative (pos n) = false
is_negative (negsuc n) = true

-- The number that 32 bits spell in two's complement.
unfoldable pub i32_of_word : ℕ → ℤ
i32_of_word word = if ltb word (2 ^ 31) then pos word else negsuc (2 ^ 32 - 1 - word)

-- `(a - b) as i32`
unfoldable pub i32_sub : ℕ → ℕ → ℤ
i32_sub a b = i32_of_word (if leb b a then (a - b) % 2 ^ 32 else 2 ^ 32 - 1 - (b - a - 1) % 2 ^ 32)
