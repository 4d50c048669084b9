-- ===== src/Checkpoint.antt =====
-- crates/apfs-fastindex/src/lib.rs: the scan of the checkpoint descriptor area for superblocks, and
-- the choice of the highest one.
pub mod Candidates
pub mod Highest
pub mod Scan
use apfs_fastindex.Base.{
  ℕ, zero, suc, ◌+◌, ◌^◌, ◌/◌, Bool, true, false, not, ◌&&◌, ◌||◌, Option, none, some, List, [],
  ◌∷◌, ◌++◌, length, ltb, leb, ◌==◌, if◌then◌else◌, bit_and,
}
use apfs_fastindex.Outcome.{
  Outcome, ok, err, panic, hang, ◌>>=◌, ◌>>◌, ScanError, invalid_block_zero,
  unsupported_descriptor_layout, no_checkpoint_candidates, size_outside_allowlist,
  size_not_power_of_two, missing_magic, type_not_superblock, oid_not_superblock, checksum_invalid,
  descriptor_count_zero, descriptor_count_over_limit, non_contiguous,
}
use apfs_fastindex.BlockIo.{Reader, le_u32, le_u64, checksum_matches, read_block}
use apfs_fastindex.Object.{object_type_mask, object_type_nx_superblock}
use apfs_fastindex.Container.{address_mask}

abbrev pub nx_magic : ℕ
nx_magic = 0x4253_584e

abbrev pub nx_superblock_oid : ℕ
nx_superblock_oid = 1

abbrev pub min_block_size : ℕ
min_block_size = 4096

abbrev pub max_block_size : ℕ
max_block_size = 65536

abbrev pub max_descriptor_blocks : ℕ
max_descriptor_blocks = 10000

-- `if refused { return Err(e) }`
abbrev pub fail_if : Bool → ScanError → Outcome (Unit {0})
fail_if true e = err e
fail_if false e = ok tt

-- `u32::is_power_of_two`: one of the powers below `2 ^ bits`
unfoldable pub is_power_of_two : ℕ → ℕ → Bool
is_power_of_two zero n = false
is_power_of_two (suc bits) n = n == 2 ^ bits || is_power_of_two bits n

unfoldable pub validate_block_size : ℕ → Outcome (Unit {0})
validate_block_size block_size = do
  fail_if (not (leb min_block_size block_size && leb block_size max_block_size))
      (invalid_block_zero size_outside_allowlist)
  fail_if (not (is_power_of_two 32 block_size)) (invalid_block_zero size_not_power_of_two)

unfoldable pub is_nxsb_type : ℕ → Bool
is_nxsb_type object_type_raw = bit_and object_type_raw object_type_mask == object_type_nx_superblock

unfoldable pub validate_nxsb_block0 : List ℕ → Outcome (Unit {0})
validate_nxsb_block0 block = do
  magic ← le_u32 block 0x20
  fail_if (not (magic == nx_magic)) (invalid_block_zero missing_magic)
  object_type_raw ← le_u32 block 0x18
  fail_if (not (is_nxsb_type object_type_raw)) (invalid_block_zero type_not_superblock)
  oid ← le_u64 block 0x08
  fail_if (not (oid == nx_superblock_oid)) (invalid_block_zero oid_not_superblock)
  matches ← checksum_matches block
  fail_if (not matches) (invalid_block_zero checksum_invalid)

pub record NxsbCandidate : Type 0 where
  pub descriptor_index : ℕ
  pub block_address : ℕ
  pub oid : ℕ
  pub xid : ℕ
  pub object_type_raw : ℕ
  pub object_subtype : ℕ
  pub checksum : ℕ

pub data SkipReason : Type 0 where
  wrong_type checksum_differs : SkipReason

pub record SkippedDescriptor : Type 0 where
  pub descriptor_index : ℕ
  pub block_address : ℕ
  pub reason : SkipReason

-- `Result<Option<NxsbCandidate>, String>`
pub data Parsed : Type 0 where
  candidate : NxsbCandidate → Parsed
  absent : Parsed
  refused : SkipReason → Parsed

unfoldable pub parse_nxsb_candidate : List ℕ → ℕ → ℕ → Outcome Parsed
parse_nxsb_candidate block descriptor_index block_address = do
  magic ← le_u32 block 0x20
  if not (magic == nx_magic) then ok absent else (do
    object_type_raw ← le_u32 block 0x18
    if not (is_nxsb_type object_type_raw) then ok (refused wrong_type) else (do
      matches ← checksum_matches block
      if not matches then ok (refused checksum_differs) else (do
        oid ← le_u64 block 0x08
        xid ← le_u64 block 0x10
        object_subtype ← le_u32 block 0x1c
        checksum ← le_u64 block 0x00
        ok (
            candidate (record {
              descriptor_index = descriptor_index;
              block_address = block_address;
              oid = oid;
              xid = xid;
              object_type_raw = object_type_raw;
              object_subtype = object_subtype;
              checksum = checksum;
            })))))

-- The two lists that the loop over the descriptors fills.
pub record Found : Type 0 where
  pub candidates : List NxsbCandidate
  pub skipped_descriptors : List SkippedDescriptor

unfoldable pub add_parsed : ℕ → ℕ → Parsed → Found → Found
add_parsed index address (candidate c) found = record {
  candidates = found.candidates ++ (c ∷ []);
  skipped_descriptors = found.skipped_descriptors;
}
add_parsed index address absent found = found
add_parsed index address (refused why) found = record {
  candidates = found.candidates;
  skipped_descriptors =
      found.skipped_descriptors
      ++ (record { descriptor_index = index; block_address = address; reason = why } ∷ []);
}

-- `for descriptor_index in 0..descriptor_blocks`, with the rounds that are left; the base is below
-- `2 ^ 63`, so that the sum does not wrap.
unfoldable pub descriptor_loop : Reader → ℕ → ℕ → ℕ → ℕ → Found → Outcome Found
descriptor_loop reader block_size descriptor_base zero index found = ok found
descriptor_loop reader block_size descriptor_base (suc left) index found = do
  let block_address = descriptor_base + index
  block ← read_block reader block_address block_size
  parsed ← parse_nxsb_candidate block index block_address
  descriptor_loop reader block_size descriptor_base left (index + 1)
      (add_parsed index block_address parsed found)

pub record ScanReport : Type 0 where
  pub block_size : ℕ
  pub descriptor_blocks : ℕ
  pub descriptor_base : ℕ
  pub descriptor_base_non_contiguous : Bool
  pub candidates : List NxsbCandidate
  pub skipped_descriptors : List SkippedDescriptor

unfoldable pub scan_reader : Reader → Outcome ScanReport
scan_reader reader = do
  initial ← read_block reader 0 min_block_size
  block_size ← le_u32 initial 0x24
  validate_block_size block_size
  block0 ← if block_size == min_block_size then ok initial else read_block reader 0 block_size
  validate_nxsb_block0 block0
  descriptor_blocks ← le_u32 block0 0x68
  fail_if (descriptor_blocks == 0) (unsupported_descriptor_layout descriptor_count_zero)
  fail_if (ltb max_descriptor_blocks descriptor_blocks)
      (unsupported_descriptor_layout descriptor_count_over_limit)
  descriptor_base_raw ← le_u64 block0 0x70
  let descriptor_base_non_contiguous = not (descriptor_base_raw / 2 ^ 63 == 0)
  let descriptor_base = bit_and descriptor_base_raw address_mask
  fail_if descriptor_base_non_contiguous (unsupported_descriptor_layout non_contiguous)
  found ←
      descriptor_loop reader block_size descriptor_base descriptor_blocks 0
        (record { candidates = []; skipped_descriptors = [] })
  fail_if (length found.candidates == 0) no_checkpoint_candidates
  ok (record {
    block_size = block_size;
    descriptor_blocks = descriptor_blocks;
    descriptor_base = descriptor_base;
    descriptor_base_non_contiguous = descriptor_base_non_contiguous;
    candidates = found.candidates;
    skipped_descriptors = found.skipped_descriptors;
  })

-- `max_by_key`, which keeps the later of two elements with the same key
unfoldable pub highest_of : List NxsbCandidate → Option NxsbCandidate → Option NxsbCandidate
highest_of [] best = best
highest_of (c ∷ candidates) none = highest_of candidates (some c)
highest_of (c ∷ candidates) (some best) =
    highest_of candidates (if leb best.xid c.xid then some c else some best)

unfoldable pub highest_candidate : ScanReport → Option NxsbCandidate
highest_candidate report = highest_of report.candidates none
