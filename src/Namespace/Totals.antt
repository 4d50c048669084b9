-- ===== src/Namespace/Totals.antt =====
-- The totals of the streams: `compute_dstream_real_totals`, over the extents of each stream. The
-- maps are the lists of their entries, the result in the order of the map that it is made from.
use apfs_fastindex.Base.{
  ℕ, ◌+◌, ◌*◌, ◌^◌, ◌≤◌, ◌<◌, ◌≡◌, refl, Bool, true, false, ◌||◌, List, [], ◌∷◌, length, leb, ◌==◌,
  if◌then◌else◌, All, arith,
}
use apfs_fastindex.Outcome.{Outcome, ok, ◌>>=◌}
use apfs_fastindex.RecordBody.{FileExtentBody}
use apfs_fastindex.ExtentRef.{PhysExtRecord}
use apfs_fastindex.Namespace.{saturating_add, file_extent_dedup_bytes}
use apfs_fastindex.Namespace.Dedup.{ceil_div, file_extent_dedup_bytes-le}

-- `sort_by_key(|p| p.paddr_first)`, which keeps the order of equals
unfoldable pub insert_by_paddr : PhysExtRecord → List PhysExtRecord → List PhysExtRecord
insert_by_paddr p [] = p ∷ []
insert_by_paddr p (q ∷ phys) =
    let rest = insert_by_paddr p phys in
    if leb p.paddr_first q.paddr_first then p ∷ q ∷ phys else q ∷ rest

unfoldable pub sort_by_paddr : List PhysExtRecord → List PhysExtRecord
sort_by_paddr [] = []
sort_by_paddr (p ∷ phys) = insert_by_paddr p (sort_by_paddr phys)

module _ (partition_point : (PhysExtRecord → Bool) → List PhysExtRecord → ℕ) where
  unfoldable pub extents_loop : List PhysExtRecord → ℕ → List (ℕ × FileExtentBody) → ℕ → Outcome ℕ
  extents_loop sorted_phys block_size [] dedup_total = ok dedup_total
  extents_loop sorted_phys block_size ((logical_addr, fe) ∷ extents) dedup_total =
      let skipped = extents_loop sorted_phys block_size extents dedup_total in
      if fe.length_bytes == 0 || fe.phys_block_num == 0 then skipped else (do
        bytes ← file_extent_dedup_bytes partition_point fe sorted_phys block_size
        extents_loop sorted_phys block_size extents (saturating_add dedup_total bytes))

  unfoldable pub dstreams_loop :
      List PhysExtRecord → ℕ → List (ℕ × List (ℕ × FileExtentBody)) → Outcome (List (ℕ × ℕ))
  dstreams_loop sorted_phys block_size [] = ok []
  dstreams_loop sorted_phys block_size ((dstream_id, extents) ∷ dstreams) = do
    dedup_total ← extents_loop sorted_phys block_size extents 0
    totals ← dstreams_loop sorted_phys block_size dstreams
    ok ((dstream_id, dedup_total) ∷ totals)

  unfoldable pub compute_dstream_real_totals :
      List (ℕ × List (ℕ × FileExtentBody)) → List PhysExtRecord → ℕ → Outcome (List (ℕ × ℕ))
  compute_dstream_real_totals file_extents_by_dstream phys_exts block_size =
      dstreams_loop (sort_by_paddr phys_exts) block_size file_extents_by_dstream

-- The bytes of the blocks that the extents fill.
abbrev pub filled_bytes : ℕ → List (ℕ × FileExtentBody) → ℕ
filled_bytes block_size [] = 0
filled_bytes block_size ((logical_addr, fe) ∷ extents) =
    ceil_div fe.length_bytes block_size * block_size + filled_bytes block_size extents

-- The same streams in the same order, and no total above the bytes of the stream's blocks.
abbrev pub AreBounded : ℕ → List (ℕ × List (ℕ × FileExtentBody)) → List (ℕ × ℕ) → Type 0
AreBounded block_size [] [] = Unit
AreBounded block_size ((dstream_id, extents) ∷ dstreams) ((id, total) ∷ totals) =
    (id ≡ dstream_id)
    × (total ≤ filled_bytes block_size extents)
    × AreBounded block_size dstreams totals
AreBounded block_size _ _ = ⊥

-- Addresses of 64 bits.
abbrev pub AreAddresses : List (ℕ × FileExtentBody) → Type 0
AreAddresses [] = Unit
AreAddresses ((logical_addr, fe) ∷ extents) = (fe.phys_block_num < 2 ^ 64) × AreAddresses extents

module _ (partition_point : (PhysExtRecord → Bool) → List PhysExtRecord → ℕ) (block_size : ℕ)
    (in_range : (test : PhysExtRecord → Bool) (phys : List PhysExtRecord)
      → partition_point test phys ≤ length phys)
    (sized : 0 < block_size) where
  extents_loop-le :
      (sorted_phys : List PhysExtRecord) (extents : List (ℕ × FileExtentBody)) (before : ℕ)
      → AreAddresses extents
      → (total : ℕ) × (extents_loop partition_point sorted_phys block_size extents before
          ≡ ok total)
        × (total ≤ before + filled_bytes block_size extents)
  unfolding extents_loop
  extents_loop-le sorted_phys [] before h = (before, refl, omega arith)
  extents_loop-le sorted_phys ((logical_addr, fe) ∷ extents) before (fits, h) =
      of_test (fe.length_bytes == 0 || fe.phys_block_num == 0)
        (λ n. extents_loop-le sorted_phys extents n h)
        (file_extent_dedup_bytes-le partition_point fe sorted_phys block_size in_range sized fits)
    where
      filled : ℕ
      filled = ceil_div fe.length_bytes block_size * block_size

      of_test :
          (skip : Bool)
          → ((n : ℕ)
              → (total : ℕ) × (extents_loop partition_point sorted_phys block_size extents n
                  ≡ ok total)
                × (total ≤ n + filled_bytes block_size extents))
          → (bytes : ℕ) × (file_extent_dedup_bytes partition_point fe sorted_phys block_size
              ≡ ok bytes)
            × (bytes ≤ filled)
          → (total : ℕ) × ((if skip
                then extents_loop partition_point sorted_phys block_size extents before
                else (do
                  bytes ← file_extent_dedup_bytes partition_point fe sorted_phys block_size
                  extents_loop partition_point sorted_phys block_size extents
                      (saturating_add before bytes)))
              ≡ ok total)
            × (total ≤ before + (filled + filled_bytes block_size extents))
      of_test true rest (bytes, p, few) =
          let (total, q, le) = rest before in (total, q, omega (arith, le))
      of_test false rest (bytes, p, few) =
          let (total, q, le) = rest (saturating_add before bytes) in
          (total, rw (p, q) refl, omega (arith, le, few))

  dstreams_loop-AreBounded :
      (sorted_phys : List PhysExtRecord) (dstreams : List (ℕ × List (ℕ × FileExtentBody)))
      → All (λ (d : ℕ × List (ℕ × FileExtentBody)). AreAddresses d.1) dstreams
      → (totals : List (ℕ × ℕ)) × (dstreams_loop partition_point sorted_phys block_size dstreams
          ≡ ok totals)
        × AreBounded block_size dstreams totals
  unfolding dstreams_loop
  dstreams_loop-AreBounded sorted_phys [] h = ([], refl, tt)
  dstreams_loop-AreBounded sorted_phys ((dstream_id, extents) ∷ dstreams) (fits, h) =
      let (total, p, le) = extents_loop-le sorted_phys extents 0 fits in
      let (totals, q, bounded) = dstreams_loop-AreBounded sorted_phys dstreams h in
      ((dstream_id, total) ∷ totals, rw (p, q) refl, (refl, omega (arith, le), bounded))

  -- With a block size of at least one, a slice method that stays within its slice and addresses of
  -- 64 bits, `compute_dstream_real_totals` returns one total for each stream, in order, and none is
  -- above the bytes of the blocks that the extents of the stream fill.
  pub compute_dstream_real_totals-AreBounded :
      (dstreams : List (ℕ × List (ℕ × FileExtentBody))) (phys_exts : List PhysExtRecord)
      → All (λ (d : ℕ × List (ℕ × FileExtentBody)). AreAddresses d.1) dstreams
      → (totals : List (ℕ × ℕ)) × (compute_dstream_real_totals partition_point dstreams phys_exts
            block_size
          ≡ ok totals)
        × AreBounded block_size dstreams totals
  unfolding compute_dstream_real_totals
  compute_dstream_real_totals-AreBounded dstreams phys_exts h =
      dstreams_loop-AreBounded (sort_by_paddr phys_exts) dstreams h
