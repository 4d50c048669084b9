-- ===== src/Namespace/Dedup.antt =====
-- The bytes that a file extent counts for, against what its length says.
use apfs_fastindex.Base.{
  ℕ, ◌+◌, ◌-◌, ◌*◌, ◌/◌, ◌%◌, ◌^◌, ◌<◌, ◌≤◌, ◌≡◌, refl, ap, sym, ◌∙◌, Bool, false, true, List,
  length, drop, leb, ◌==◌, All, All-drop, if◌then◌else◌, arith,
}
use mathlib.Core.Path.{subst}
use native.Mathlib.Nat.{
  add-mul, mul-le-mul_right, mod-lt, div-eq_of_lt, add-mul-div_right, div-add-mod, mul_comm,
}
use apfs_fastindex.Outcome.{ok, panic}
use apfs_fastindex.RecordBody.{FileExtentBody}
use apfs_fastindex.ExtentRef.{PhysExtRecord}
use apfs_fastindex.Namespace.{
  saturating_add, blocks_of, sharers, overlap_loop, count_tail, slice_from, file_extent_dedup_bytes,
}
use apfs_fastindex.Namespace.Overlaps.{IsWithin, overlap_loop-IsWithin, count_tail-IsWithin}

-- The blocks that hold the bytes, the last one perhaps in part.
abbrev pub ceil_div : ℕ → ℕ → ℕ
ceil_div n k = (n + (k - 1)) / k

ceil_div_lem : (q r k : ℕ) → r < k → ceil_div (k * q + r) k ≡ (if r == 0 then q else q + 1)
ceil_div_lem q r k h = of_test (r == 0) (λ t. ground arith) (λ t. ground arith)
  where
    shifted : (x m : ℕ) → x < k → (x + m * k) / k ≡ m
    shifted x m l =
        omega (arith, add-mul-div_right x m {z = k} (omega arith), div-eq_of_lt {n = x} {m = k} l)

    of_test :
        (t : Bool)
        → (t ≡ true → r ≡ 0)
        → (t ≡ false → 0 < r)
        → ceil_div (k * q + r) k ≡ (if t then q else q + 1)
    of_test true z p =
        ap (λ (n : ℕ). n / k) (omega (arith, z refl, mul_comm k q))
        ∙ shifted (k - 1) q (omega arith)
    of_test false z p =
        ap (λ (n : ℕ). n / k) (omega (arith, p refl, mul_comm k q, add-mul q 1 k))
        ∙ shifted (r - 1) (q + 1) (omega arith)

blocks_of-ceil_div : (n k : ℕ) → 0 < k → blocks_of n k ≡ ok (ceil_div n k)
unfolding blocks_of
blocks_of-ceil_div n k h = of_test (k == 0) (n % k == 0) refl (ground arith)
  where
    whole : ceil_div n k ≡ (if n % k == 0 then n / k else n / k + 1)
    whole =
        ap (λ (m : ℕ). ceil_div m k) (sym (div-add-mod n k))
        ∙ ceil_div_lem (n / k) (n % k) k (mod-lt n h)

    of_test :
        (z t : Bool)
        → (n % k == 0) ≡ t
        → z ≡ false
        → (if z then panic else if t then ok (n / k) else ok (n / k + 1)) ≡ ok (ceil_div n k)
    of_test true t p q = cc
    of_test false true p q = sym (ap ok (whole ∙ ap (λ b. if b then n / k else n / k + 1) p))
    of_test false false p q = sym (ap ok (whole ∙ ap (λ b. if b then n / k else n / k + 1) p))

module _ (partition_point : (PhysExtRecord → Bool) → List PhysExtRecord → ℕ) (fe : FileExtentBody)
    (sorted_phys : List PhysExtRecord) (block_size : ℕ)
    (in_range : (test : PhysExtRecord → Bool) (phys : List PhysExtRecord)
      → partition_point test phys ≤ length phys)
    (sized : 0 < block_size) where
  abbrev file_end : ℕ
  file_end = saturating_add fe.phys_block_num (ceil_div fe.length_bytes block_size)

  abbrev phys_start : ℕ
  phys_start =
      partition_point (λ p. leb ((p.paddr_first + p.length_blocks) % 2 ^ 64) fe.phys_block_num)
        sorted_phys

  abbrev dedup_total : ℕ
  dedup_total =
      count_tail block_size file_end
        (overlap_loop block_size file_end (drop phys_start sorted_phys) (fe.phys_block_num, 0))

  dedup_total_lem :
      file_extent_dedup_bytes partition_point fe sorted_phys block_size ≡ ok dedup_total
  unfolding file_extent_dedup_bytes slice_from
  dedup_total_lem =
      rw
        (
          blocks_of-ceil_div fe.length_bytes block_size sized,
          within phys_start (length sorted_phys) (in_range _ sorted_phys),
        )
        refl
    where
      within : (a b : ℕ) → a ≤ b → leb a b ≡ true
      within a b h = ground arith

  dedup_total-IsWithin :
      (Exact : Type 0)
      → fe.phys_block_num < 2 ^ 64
      → (small : Exact → (file_end - fe.phys_block_num) * block_size < 2 ^ 64)
      → (Exact → All (λ p. sharers p.refcnt ≡ 1) sorted_phys)
      → IsWithin Exact block_size fe.phys_block_num file_end small (file_end, dedup_total)
  dedup_total-IsWithin Exact fits small alone =
      count_tail-IsWithin Exact block_size fe.phys_block_num file_end small _ _ (
        overlap_loop-IsWithin Exact block_size fe.phys_block_num file_end small
          (drop phys_start sorted_phys) (fe.phys_block_num, 0)
          (λ e. All-drop _ phys_start sorted_phys (alone e))
          (omega arith, omega (arith, fits), omega arith, λ e. none_passed fe.phys_block_num))
    where
      cancelled : (a : ℕ) → a - a ≡ 0
      cancelled a = omega arith

      none_passed : (a : ℕ) → 0 ≡ (a - a) * block_size
      none_passed a = omega (arith, ap (λ (n : ℕ). n * block_size) (cancelled a))

  -- With a block size of at least one, a slice method that stays within its slice and an address
  -- of 64 bits, `file_extent_dedup_bytes` returns for any extent records, in any order, and counts
  -- at most the bytes of the blocks that the length fills.
  pub file_extent_dedup_bytes-le :
      fe.phys_block_num < 2 ^ 64
      → (total : ℕ) × (file_extent_dedup_bytes partition_point fe sorted_phys block_size ≡ ok total)
        × (total ≤ ceil_div fe.length_bytes block_size * block_size)
  file_extent_dedup_bytes-le fits =
      let (a, b, c, d) = dedup_total-IsWithin ⊥ fits (λ e. absurd e) (λ e. absurd e) in
      (
        dedup_total,
        dedup_total_lem,
        omega (
          arith,
          c,
          mul-le-mul_right {m = file_end - fe.phys_block_num}
              {n = ceil_div fe.length_bytes block_size} block_size (omega arith),
        ),
      )

  -- With a block size of at least one and a slice method that stays within its slice, if no record
  -- is shared and neither the extent's end nor its bytes overflow 64 bits, `file_extent_dedup_bytes`
  -- counts exactly the bytes of the blocks that the length fills.
  pub file_extent_dedup_bytes_unshared :
      fe.phys_block_num + ceil_div fe.length_bytes block_size < 2 ^ 64
      → ceil_div fe.length_bytes block_size * block_size < 2 ^ 64
      → All (λ p. sharers p.refcnt ≡ 1) sorted_phys
      → file_extent_dedup_bytes partition_point fe sorted_phys block_size
        ≡ ok (ceil_div fe.length_bytes block_size * block_size)
  file_extent_dedup_bytes_unshared fits small alone =
      let (a, b, c, d) =
        dedup_total-IsWithin (Unit {0}) (omega (arith, fits))
          (λ e. subst (λ n. n * block_size < 2 ^ 64) (sym length_is) small) (λ e. alone) in
      dedup_total_lem ∙ ap ok (d tt ∙ ap (λ (n : ℕ). n * block_size) length_is)
    where
      length_is : file_end - fe.phys_block_num ≡ ceil_div fe.length_bytes block_size
      length_is = omega (arith, fits)
