-- ===== src/BlockIo/Fields.antt =====
-- Little-endian fields: where they can be read, what they hold, and how large they are.
use apfs_fastindex.Base.{
  ℕ, ◌+◌, ◌-◌, ◌^◌, ◌≤◌, ◌<◌, ◌≡◌, ap, ◌∙◌, List, [], ◌∷◌, length, take, drop, length-take,
  length-drop, All, All-take, All-drop, arith,
}
use mathlib.Core.Path.{subst}
use native.Mathlib.Nat.{pow-succ'}
use apfs_fastindex.Outcome.{ok}
use apfs_fastindex.BlockIo.{IsByte, slice, from_le_bytes, le_u16, le_u32, le_u64}

-- The number that `width` bytes from `offset` on spell, lowest byte first.
abbrev pub field : ℕ → List ℕ → ℕ → ℕ
field width block offset = from_le_bytes (take width (drop offset block))

pub slice-eq-ok :
    (block : List ℕ) (start end : ℕ)
    → start ≤ end
    → end ≤ length block
    → slice block start end ≡ ok (take (end - start) (drop start block))
unfolding slice
slice-eq-ok block start end h k = ground arith

-- `&block[start..start + width]`
pub slice_width :
    (block : List ℕ) (start width : ℕ)
    → start + width ≤ length block
    → slice block start (start + width) ≡ ok (take width (drop start block))
slice_width block start width h =
    slice-eq-ok block start (start + width) (omega arith) h
    ∙ ap (λ (n : ℕ). ok (take n (drop start block))) (omega arith)

pub slice-ne-panic :
    (block : List ℕ) (start end : ℕ) {bytes : List ℕ}
    → slice block start end ≡ ok bytes
    → (start ≤ end) × (end ≤ length block) × (bytes ≡ take (end - start) (drop start block))
unfolding slice
slice-ne-panic block start end h = ground arith

pub length-slice :
    (block : List ℕ) (start width : ℕ)
    → start + width ≤ length block
    → length (take width (drop start block)) ≡ width
length-slice block start width h =
    omega (arith, length-take width (drop start block), length-drop start block)

pub from_le_bytes-lt :
    (bytes : List ℕ) → All IsByte bytes → from_le_bytes bytes < 256 ^ length bytes
unfolding from_le_bytes
from_le_bytes-lt [] h = omega arith
from_le_bytes-lt (b ∷ bs) (hb, hbs) =
    rw (pow-succ' 256 (length bs)) (omega (arith, from_le_bytes-lt bs hbs))

pub field-lt :
    (width : ℕ) (block : List ℕ) (offset : ℕ)
    → All IsByte block
    → offset + width ≤ length block
    → field width block offset < 256 ^ width
field-lt width block offset h k =
    subst (λ n. field width block offset < 256 ^ n) (length-slice block offset width k)
      (from_le_bytes-lt (take width (drop offset block))
        (All-take IsByte width _ (All-drop IsByte offset block h)))

module _ (block : List ℕ) (offset : ℕ) where
  pub le_u16_lem : offset + 2 ≤ length block → le_u16 block offset ≡ ok (field 2 block offset)
  unfolding le_u16
  le_u16_lem h = ground arith

  pub le_u32_lem : offset + 4 ≤ length block → le_u32 block offset ≡ ok (field 4 block offset)
  unfolding le_u32
  le_u32_lem h = ground arith

  pub le_u64_lem : offset + 8 ≤ length block → le_u64 block offset ≡ ok (field 8 block offset)
  unfolding le_u64
  le_u64_lem h = ground arith
