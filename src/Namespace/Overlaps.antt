-- ===== src/Namespace/Overlaps.antt =====
-- The blocks of an extent that the loop over the extent records has passed, and their bytes.
use apfs_fastindex.Base.{
  ℕ, ◌+◌, ◌-◌, ◌*◌, ◌/◌, ◌%◌, ◌^◌, ◌<◌, ◌≤◌, ◌≡◌, refl, ap, sym, ◌∙◌, Bool, false, true, List, [],
  ◌∷◌, ltb, leb, All, if◌then◌else◌, arith, ltb→lt, ltb→le, leb→lt, min,
}
use Prim.Native.Nat.{max}
use mathlib.Core.Path.{subst}
use native.Mathlib.Nat.{add-mul, mul-le-mul_right, mod-le, mod-eq_of_lt, div-le_self, div-one}
use apfs_fastindex.ExtentRef.{PhysExtRecord}
use apfs_fastindex.Namespace.{
  saturating_add, sharers, fill_gap, share_overlap, overlap_loop, count_tail,
}

-- A run from `a` to `b` and one from `b` to `c` make up the run from `a` to `c`.
runs_add : (a b c k : ℕ) → a ≤ b → b ≤ c → (b - a) * k + (c - b) * k ≡ (c - a) * k
runs_add a b c k h l = sym (add-mul (b - a) (c - b) k) ∙ ap (λ (n : ℕ). n * k) (omega arith)

-- `Exact` is a case in which nothing is shared and nothing overflows.
module _ (Exact : Type 0) (block_size first end : ℕ)
    (small : Exact → (end - first) * block_size < 2 ^ 64) where
  -- The bytes counted so far are at most those of the blocks passed, and exactly those in that case.
  abbrev pub IsWithin : ℕ × ℕ → Type 0
  IsWithin (cursor, total) =
      (first ≤ cursor)
      × (cursor ≤ end)
      × (total ≤ (cursor - first) * block_size)
      × (Exact → total ≡ (cursor - first) * block_size)

  -- A run of blocks within the extent does not overflow in that case.
  run_mod :
      (start stop : ℕ)
      → first ≤ start
      → stop ≤ end
      → Exact
      → (stop - start) * block_size % 2 ^ 64 ≡ (stop - start) * block_size
  run_mod start stop a b e = mod-eq_of_lt (
      omega (
        arith,
        small e,
        mul-le-mul_right {m = stop - start} {n = end - first} block_size (omega arith),
      ))

  add_run :
      (cursor next total bytes : ℕ)
      → IsWithin (cursor, total)
      → cursor ≤ next
      → next ≤ end
      → bytes ≤ (next - cursor) * block_size
      → (Exact → bytes ≡ (next - cursor) * block_size)
      → IsWithin (next, saturating_add total bytes)
  add_run cursor next total bytes (a, b, c, d) le fits few same = (
    omega arith,
    fits,
    omega (arith, runs_add first cursor next block_size a le),
    λ e. omega (
      arith,
      runs_add first cursor next block_size a le,
      d e,
      same e,
      small e,
      mul-le-mul_right {m = next - first} {n = end - first} block_size (omega arith),
    ),
  )

  fill_gap-IsWithin :
      (p : PhysExtRecord) (cursor total : ℕ)
      → p.paddr_first < end
      → IsWithin (cursor, total)
      → IsWithin (fill_gap block_size p (cursor, total))
        × (p.paddr_first ≤ (fill_gap block_size p (cursor, total)).0)
  unfolding fill_gap
  fill_gap-IsWithin p cursor total fits h =
      of_test (ltb cursor p.paddr_first) (ltb→lt cursor p.paddr_first) (ltb→le cursor p.paddr_first)
    where
      gap : ℕ
      gap = (p.paddr_first - cursor) * block_size % 2 ^ 64

      step : Bool → ℕ × ℕ
      step t = if t then (p.paddr_first, saturating_add total gap) else (cursor, total)

      of_test :
          (t : Bool)
          → (t ≡ true → cursor < p.paddr_first)
          → (t ≡ false → p.paddr_first ≤ cursor)
          → IsWithin (step t) × (p.paddr_first ≤ (step t).0)
      of_test false l m = (h, m refl)
      of_test true l m = (
        add_run cursor p.paddr_first total gap h (omega (arith, l refl)) (omega arith)
            (mod-le ((p.paddr_first - cursor) * block_size) (2 ^ 64))
            (run_mod cursor p.paddr_first h.0 (omega arith)),
        omega arith,
      )

  share_overlap-IsWithin :
      (p : PhysExtRecord) (cursor total : ℕ)
      → (Exact → sharers p.refcnt ≡ 1)
      → p.paddr_first ≤ cursor
      → IsWithin (cursor, total)
      → IsWithin (share_overlap block_size end p (cursor, total))
  unfolding share_overlap
  share_overlap-IsWithin p cursor total alone begun h =
      of_test (max cursor p.paddr_first) (min end ((p.paddr_first + p.length_blocks) % 2 ^ 64))
        (ltb _ _) (ltb→lt _ _) (omega arith) (omega arith)
    where
      of_test :
          (start stop : ℕ) (t : Bool)
          → (t ≡ true → start < stop)
          → start ≡ cursor
          → stop ≤ end
          → IsWithin (
              if t
              then (
                stop,
                saturating_add total ((stop - start) * block_size % 2 ^ 64 / sharers p.refcnt),
              )
              else (cursor, total))
      of_test start stop false l a b = h
      of_test start stop true l a b =
          add_run cursor stop total _ h (omega (arith, l refl)) b
            (omega (
              arith,
              div-le_self ((stop - start) * block_size % 2 ^ 64) (sharers p.refcnt),
              mod-le ((stop - start) * block_size) (2 ^ 64),
              ap (λ (n : ℕ). (stop - n) * block_size) a,
            ))
            (λ e.
              ap (λ (n : ℕ). (stop - start) * block_size % 2 ^ 64 / n) (alone e)
              ∙ div-one ((stop - start) * block_size % 2 ^ 64)
              ∙ ap (λ (n : ℕ). (stop - n) * block_size % 2 ^ 64) a
              ∙ run_mod cursor stop h.0 b e)

  pub overlap_loop-IsWithin :
      (phys : List PhysExtRecord) (reached : ℕ × ℕ)
      → (Exact → All (λ p. sharers p.refcnt ≡ 1) phys)
      → IsWithin reached
      → IsWithin (overlap_loop block_size end phys reached)
  unfolding overlap_loop
  overlap_loop-IsWithin [] reached alone h = h
  overlap_loop-IsWithin (p ∷ phys) reached alone h =
      of_test (leb end p.paddr_first) (leb→lt end p.paddr_first) (λ fits.
        overlap_loop-IsWithin phys (share_overlap block_size end p (fill_gap block_size p reached))
          (λ e. (alone e).1)
          (let (filled, begun) = fill_gap-IsWithin p reached.0 reached.1 fits h in
            share_overlap-IsWithin p _ _ (λ e. (alone e).0) begun filled))
    where
      rest : ℕ × ℕ
      rest =
          overlap_loop block_size end phys
            (share_overlap block_size end p (fill_gap block_size p reached))

      of_test :
          (t : Bool)
          → (t ≡ false → p.paddr_first < end)
          → (p.paddr_first < end → IsWithin rest)
          → IsWithin (if t then reached else rest)
      of_test true l k = h
      of_test false l k = k (l refl)

  pub count_tail-IsWithin :
      (cursor total : ℕ)
      → IsWithin (cursor, total)
      → IsWithin (end, count_tail block_size end (cursor, total))
  unfolding count_tail
  count_tail-IsWithin cursor total h = of_test (ltb cursor end) (ltb→le cursor end)
    where
      of_test :
          (t : Bool)
          → (t ≡ false → end ≤ cursor)
          → IsWithin (
            end,
            if t then saturating_add total ((end - cursor) * block_size % 2 ^ 64) else total,
          )
      of_test true l =
          add_run cursor end total _ h h.1 (omega arith)
            (mod-le ((end - cursor) * block_size) (2 ^ 64)) (run_mod cursor end h.0 (omega arith))
      of_test false l = subst (λ n. IsWithin (n, total)) (omega (arith, h.1, l refl)) h
