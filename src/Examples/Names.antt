-- ===== src/Examples/Names.antt =====
-- Files, streams and extents, on which the sizes of the namespace are tried.
use apfs_fastindex.Base.{
  ℕ, suc, ◌+◌, ◌*◌, ◌≤◌, ◌≡◌, ◌≢◌, ◌↔◌, refl, Bool, true, false, Option, none, some, List, [], ◌∷◌,
  ◌++◌, length, if◌then◌else◌, All, arith,
}
use apfs_fastindex.Base.Int.{pos}
use apfs_fastindex.Outcome.{ok}
use apfs_fastindex.BlockIo.{IsByte, from_le_bytes}
use apfs_fastindex.RecordBody.{InodeBody, DstreamFields, FileExtentBody, to_hex}
use apfs_fastindex.ExtentRef.{PhysExtRecord}
use apfs_fastindex.Namespace.{
  NamespaceIndex, Xattrs, dt_reg, dt_lnk, sharers, hex_to_vec, decmpfs_uncompressed_size, blocks_of,
  slice_from, count_tail, overlap_loop, share_overlap, fill_gap, file_extent_dedup_bytes,
  compute_allocated_size, logical_size_and_target,
}
use apfs_fastindex.Namespace.Payload.{hex_to_vec-to_hex, decmpfs_uncompressed_size-to_hex}
use apfs_fastindex.Namespace.Dedup.{
  ceil_div, file_extent_dedup_bytes-le, file_extent_dedup_bytes_unshared,
}
use apfs_fastindex.Namespace.Totals.{
  compute_dstream_real_totals, AreBounded, compute_dstream_real_totals-AreBounded,
}
use apfs_fastindex.Namespace.Allocated.{HasNoSize, compute_allocated_size-eq-none}
use apfs_fastindex.Namespace.Sizes.{IsTarget, logical_size_and_target-IsTarget}
use apfs_fastindex.Namespace.Shares.{sum_real_sizes, Holds, real_size-sum}

-- The header of a compressed file of 300 bytes.
abbrev decmpfs_bytes : List ℕ
decmpfs_bytes = 102 ∷ 112 ∷ 109 ∷ 99 ∷ 3 ∷ 0 ∷ 0 ∷ 0 ∷ 44 ∷ 1 ∷ 0 ∷ 0 ∷ 0 ∷ 0 ∷ 0 ∷ 0 ∷ []

decmpfs_bytes-IsByte : All IsByte decmpfs_bytes
decmpfs_bytes-IsByte = ground arith

hex_to_vec-to_hex_example : hex_to_vec (to_hex decmpfs_bytes) ≡ some decmpfs_bytes
hex_to_vec-to_hex_example = hex_to_vec-to_hex decmpfs_bytes decmpfs_bytes-IsByte

decmpfs_uncompressed_size-to_hex_example :
    decmpfs_uncompressed_size (to_hex decmpfs_bytes) ≡ ok (some 300)
unfolding from_le_bytes
decmpfs_uncompressed_size-to_hex_example =
    decmpfs_uncompressed_size-to_hex decmpfs_bytes decmpfs_bytes-IsByte

-- The number of elements before the first that fails the test.
unfoldable partition_point : (PhysExtRecord → Bool) → List PhysExtRecord → ℕ
partition_point test [] = 0
partition_point test (p ∷ phys) = let n = partition_point test phys in if test p then n + 1 else 0

partition_point-le :
    (test : PhysExtRecord → Bool) (phys : List PhysExtRecord)
    → partition_point test phys ≤ length phys
unfolding partition_point
partition_point-le test [] = omega arith
partition_point-le test (p ∷ phys) =
    of_test (test p) (partition_point test phys) (partition_point-le test phys)
  where
    of_test : (t : Bool) (n : ℕ) → n ≤ length phys → (if t then n + 1 else 0) ≤ suc (length phys)
    of_test true n h = omega arith
    of_test false n h = omega arith

abbrev extent : FileExtentBody
extent = record { length_bytes = 10000; flags = 0; phys_block_num = 40; crypto_id = 0 }

-- Block 41 is shared by `refcnt` files.
abbrev phys_of : ℕ → List PhysExtRecord
phys_of refcnt =
    record { paddr_first = 41; length_blocks = 1; kind = 1; owning_obj_id = 7; refcnt = pos refcnt }
    ∷ []

shared_total :
    file_extent_dedup_bytes partition_point extent (phys_of 2) 4096 ≡ ok (4096 + 2048 + 4096)
unfolding partition_point file_extent_dedup_bytes blocks_of slice_from count_tail overlap_loop
    share_overlap fill_gap sharers
shared_total = refl

file_extent_dedup_bytes-le_example :
    (total : ℕ) × (file_extent_dedup_bytes partition_point extent (phys_of 2) 4096 ≡ ok total)
    × (total ≤ ceil_div 10000 4096 * 4096)
file_extent_dedup_bytes-le_example =
    file_extent_dedup_bytes-le partition_point extent (phys_of 2) 4096 partition_point-le
      (omega arith) (omega arith)

phys_of_one-sharers : All (λ p. sharers p.refcnt ≡ 1) (phys_of 1)
unfolding sharers
phys_of_one-sharers = (refl, tt)

file_extent_dedup_bytes_unshared_example :
    file_extent_dedup_bytes partition_point extent (phys_of 1) 4096 ≡ ok (3 * 4096)
file_extent_dedup_bytes_unshared_example =
    file_extent_dedup_bytes_unshared partition_point extent (phys_of 1) 4096 partition_point-le
      (omega arith) (omega arith) (omega arith) phys_of_one-sharers

-- Files that hold the stream 7.
abbrev file_of_stream : Option DstreamFields → InodeBody
file_of_stream stream = record {
  parent_id = 2;
  private_id = 7;
  internal_flags = 0;
  nchildren_or_nlink = pos 1;
  bsd_flags = 0;
  owner = 0;
  group = 0;
  mode = 0;
  uncompressed_size = 0;
  has_uncompressed_size = false;
  xfields = [];
  xfield_used_data = 0;
  xfield_padded_total = 0;
  xfield_unused_trailing_bytes = pos 0;
  dstream = stream;
  sparse_bytes = none;
  inode_name = none;
}

abbrev index : NamespaceIndex
index = record {
  inode_by_id = λ id. some (file_of_stream none);
  dstream_real_total = λ id. some 10000;
  dstream_refcnt = λ id. some 3;
  extent_refs_available = true;
}

holds : (id : ℕ) → Holds index 7 id
holds id = (file_of_stream none, refl, refl)

real_size-sum_example : sum_real_sizes index ((5 ∷ []) ++ (7 ∷ 8 ∷ [])) ≡ 10000
real_size-sum_example =
    real_size-sum index 7 10000 3 refl refl refl (omega arith) (5 ∷ []) (8 ∷ []) (holds 7)
      ((holds 5, λ p. omega (arith, p)), tt) ((holds 8, λ p. omega (arith, p)), tt) refl

abbrev link_attributes : Xattrs
link_attributes name = some (record {
  flags = 2;
  xdata_len = 3;
  embedded = true;
  stream = false;
  payload_hex = [];
  payload_utf8 = some (97 ∷ 98 ∷ 0 ∷ []);
  stream_xattr_obj_id = none;
  stream_dstream = none;
})

logical_size_and_target-IsTarget_example :
    (size : ℕ) × (target : Option (List ℕ)) × (logical_size_and_target 10
        (some (file_of_stream none))
        (some link_attributes)
      ≡ ok (size, target))
    × IsTarget size target
    × (10 ≢ dt_lnk → target ≡ none)
    × (10 ≢ dt_reg → target ≡ none → size ≡ 0)
logical_size_and_target-IsTarget_example =
    logical_size_and_target-IsTarget 10 (some (file_of_stream none)) (some link_attributes)

compute_allocated_size-eq-none_example :
    (compute_allocated_size 8 (some (file_of_stream none)) none ≡ none)
    ↔ HasNoSize 8 (some (file_of_stream none)) none
compute_allocated_size-eq-none_example =
    compute_allocated_size-eq-none 8 (some (file_of_stream none)) none

-- One stream with one extent.
abbrev dstreams : List (ℕ × List (ℕ × FileExtentBody))
dstreams = (7, (0, extent) ∷ []) ∷ []

compute_dstream_real_totals-AreBounded_example :
    (totals : List (ℕ × ℕ)) × (compute_dstream_real_totals partition_point dstreams (phys_of 2) 4096
      ≡ ok totals)
    × AreBounded 4096 dstreams totals
compute_dstream_real_totals-AreBounded_example =
    compute_dstream_real_totals-AreBounded partition_point 4096 partition_point-le (omega arith)
      dstreams (phys_of 2) ((omega arith, tt), tt)
