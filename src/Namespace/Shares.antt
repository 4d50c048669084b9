-- ===== src/Namespace/Shares.antt =====
-- The shares of the files that hold one stream, against the total of the stream.
use apfs_fastindex.Base.{
  ℕ, ◌+◌, ◌-◌, ◌*◌, ◌/◌, ◌<◌, ◌≡◌, ◌≢◌, refl, ap, sym, ◌∙◌, true, false, some, List, [], ◌∷◌, ◌++◌,
  length, length-append, ◌==◌, All, arith,
}
use native.Mathlib.Nat.{div-mul-le_self, add-mul, mul_comm}
use apfs_fastindex.RecordBody.{InodeBody}
use apfs_fastindex.Btree.{unwrap_or}
use apfs_fastindex.Namespace.{
  NamespaceIndex, refcnt_or_one, share_of, inode_share, real_size, dt_reg,
}

-- The real sizes of regular files, added up.
unfoldable pub sum_real_sizes : NamespaceIndex → List ℕ → ℕ
sum_real_sizes index [] = 0
sum_real_sizes index (file_id ∷ ids) =
    unwrap_or (real_size index file_id dt_reg) 0 + sum_real_sizes index ids

sum-append :
    (index : NamespaceIndex) (ids others : List ℕ)
    → sum_real_sizes index (ids ++ others) ≡ sum_real_sizes index ids + sum_real_sizes index others
unfolding sum_real_sizes
sum-append index [] others = omega arith
sum-append index (i ∷ ids) others = omega (arith, sum-append index ids others)

-- A file that holds the stream.
abbrev pub Holds : NamespaceIndex → ℕ → ℕ → Type 0
Holds index dstream_id file_id =
    (inode : InodeBody) × (index.inode_by_id file_id ≡ some inode) × (inode.private_id ≡ dstream_id)

module _ (index : NamespaceIndex) (dstream_id total refcnt : ℕ)
    (available : index.extent_refs_available ≡ true)
    (total_known : index.dstream_real_total dstream_id ≡ some total)
    (refcnt_known : index.dstream_refcnt dstream_id ≡ some refcnt) (counted : 0 < refcnt) where
  real_size_lem :
      (file_id : ℕ)
      → Holds index dstream_id file_id
      → real_size index file_id dt_reg ≡ some (share_of total refcnt (file_id == dstream_id))
  unfolding real_size inode_share refcnt_or_one
  real_size_lem file_id (inode, found, held) =
      rw (available, found, held, total_known, refcnt_known, positive) refl
    where
      positive : refcnt_or_one (some refcnt) ≡ refcnt
      positive = ground (arith, counted)

  others_sum :
      (ids : List ℕ)
      → All (λ i. Holds index dstream_id i × (i ≢ dstream_id)) ids
      → sum_real_sizes index ids ≡ length ids * (total / refcnt)
  unfolding sum_real_sizes share_of
  others_sum [] h = omega arith
  others_sum (i ∷ ids) ((holds, other), h) =
      rw (real_size_lem i holds, differs i other, others_sum ids h)
        (omega (arith, add-mul (length ids) 1 (total / refcnt)))
    where
      differs : (i : ℕ) → i ≢ dstream_id → (i == dstream_id) ≡ false
      differs i h = ground (arith, h)

  source_share :
      Holds index dstream_id dstream_id
      → unwrap_or (real_size index dstream_id dt_reg) 0
        ≡ total / refcnt + (total - total / refcnt * refcnt)
  unfolding share_of
  source_share holds = rw (real_size_lem dstream_id holds, same dstream_id) refl
    where
      same : (n : ℕ) → (n == n) ≡ true
      same n = ground arith

  -- Where the extent references are available, the total of a stream is known and its reference
  -- count is known and not zero: if as many regular files as that count hold the stream, the one
  -- whose id is the stream's among them and once, then `real_size` of these files adds up to the
  -- total of the stream, with nothing lost in the division.
  pub real_size-sum :
      (before after : List ℕ)
      → Holds index dstream_id dstream_id
      → All (λ i. Holds index dstream_id i × (i ≢ dstream_id)) before
      → All (λ i. Holds index dstream_id i × (i ≢ dstream_id)) after
      → length (before ++ (dstream_id ∷ after)) ≡ refcnt
      → sum_real_sizes index (before ++ (dstream_id ∷ after)) ≡ total
  unfolding sum_real_sizes
  real_size-sum before after holds b a count =
      rw
        (
          sum-append index before (dstream_id ∷ after),
          source_share holds,
          others_sum before b,
          others_sum after a,
        )
        (omega (
          arith,
          div-mul-le_self total refcnt,
          mul_comm (total / refcnt) refcnt,
          ap (λ (n : ℕ). n * (total / refcnt))
              (sym count ∙ length-append before (dstream_id ∷ after)),
          add-mul (length before) (length after + 1) (total / refcnt),
          add-mul (length after) 1 (total / refcnt),
        ))
