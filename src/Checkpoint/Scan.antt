-- ===== src/Checkpoint/Scan.antt =====
-- `scan_reader`.
use apfs_fastindex.Base.{
  opposite_false, ℕ, zero, suc, ◌/◌, ◌^◌, ◌<◌, ◌≤◌, ◌≡◌, refl, sym, ap, ◌∙◌, inl, inr, Bool, true,
  false, not, ◌&&◌, ◌||◌, List, [], length, leb, ltb, ltb→le, ◌==◌, ==_iff, if◌then◌else◌,
  Bool-cases, bit_and, arith,
}
use mathlib.Core.Path.{subst}
use apfs_fastindex.Base.Bits.{bit_and_low}
use apfs_fastindex.Outcome.{
  Outcome, ok, ◌>>=◌, ◌>>◌, ScanError, no_checkpoint_candidates, Settles, Settles-bind, Settles-if,
  Settles-Returns, Settles-self, Settles-ok,
}
use apfs_fastindex.BlockIo.{Reader, read_block}
use apfs_fastindex.BlockIo.Fields.{field, le_u32_lem, le_u64_lem}
use apfs_fastindex.BlockIo.Reading.{IsReader, read_block-IsBlock}
use apfs_fastindex.Object.Gate.{checksum_matches-ok}
use apfs_fastindex.Container.{address_mask}
use apfs_fastindex.Checkpoint.{
  fail_if, is_power_of_two, validate_block_size, is_nxsb_type, validate_nxsb_block0, Found,
  ScanReport, descriptor_loop, scan_reader,
}
use apfs_fastindex.Checkpoint.Candidates.{
  IsNxsb, is_nxsb_type_iff, IsSorted, descriptor_loop-Settles,
}

module _ {ℓ} {A : Type ℓ} (P : A → Type 0) where
  Settles-fail_if :
      (b : Bool) (e : ScanError) (m : Outcome A)
      → (b ≡ false → Settles P Unit m)
      → Settles P Unit (fail_if b e >> m)
  Settles-fail_if true e m h = tt
  Settles-fail_if false e m h = h refl

Settles-last :
    (P : Type 0) (b : Bool) (e : ScanError) → (b ≡ false → P) → Settles (λ u. P) Unit (fail_if b e)
Settles-last P true e h = tt
Settles-last P false e h = h refl

is_power_of_two_lem : (bits n : ℕ) → is_power_of_two bits n ≡ true → (k : ℕ) × (n ≡ 2 ^ k)
unfolding is_power_of_two
is_power_of_two_lem zero n h = cc
is_power_of_two_lem (suc bits) n h = elim (Bool-cases (n == 2 ^ bits)) [
  | inl found ↦ (bits, (==_iff _ _).0 found)
  | inr other ↦ is_power_of_two_lem bits n (later _ _ other h)
]
  where
    later : (b c : Bool) → b ≡ false → b || c ≡ true → c ≡ true
    later true c e k = cc
    later false c e k = k

-- A size that the scan accepts.
pub IsSize : ℕ → Type 0
IsSize size = (4096 ≤ size) × (size ≤ 65536) × ((k : ℕ) × (size ≡ 2 ^ k))

validate_block_size-Settles :
    (size : ℕ) → Settles (λ u. IsSize size) Unit (validate_block_size size)
unfolding validate_block_size IsSize
validate_block_size-Settles size =
    Settles-fail_if _ (not (leb 4096 size && leb size 65536)) _ _ (λ range.
      Settles-last _ (not (is_power_of_two 32 size)) _ (λ power.
        let (low, high) = in_range size range in
        (low, high, is_power_of_two_lem 32 size (opposite_false _ power))))
  where
    in_range : (n : ℕ) → not (leb 4096 n && leb n 65536) ≡ false → (4096 ≤ n) × (n ≤ 65536)
    in_range n h = ground arith

-- Block zero names the container's superblock.
pub IsBlockZero : List ℕ → Type 0
IsBlockZero block = IsNxsb block × (field 8 block 0x08 ≡ 1)

validate_nxsb_block0-Settles :
    (block : List ℕ)
    → 40 ≤ length block
    → Settles (λ u. IsBlockZero block) Unit (validate_nxsb_block0 block)
unfolding validate_nxsb_block0 IsBlockZero
validate_nxsb_block0-Settles block l =
    let (matches, computed) = checksum_matches-ok block (omega arith) in
    rw
      (
        le_u32_lem block 0x20 (omega arith),
        le_u32_lem block 0x18 (omega arith),
        le_u64_lem block 0x08 (omega arith),
        computed,
      )
      (Settles-fail_if _ (not (field 4 block 0x20 == 0x4253_584e)) _ _ (λ magic.
        Settles-fail_if _ (not (is_nxsb_type (field 4 block 0x18))) _ _ (λ kind.
          Settles-fail_if _ (not (field 8 block 0x08 == 1)) _ _ (λ oid.
            Settles-last _ (not matches) _ (λ sealed. (
              record {
                magic = (==_iff _ _).0 (opposite_false _ magic);
                kind = (is_nxsb_type_iff _).0 (opposite_false _ kind);
                sealed = computed ∙ ap ok (opposite_false _ sealed);
              },
              (==_iff _ _).0 (opposite_false _ oid),
            ))))))

-- What the report of a scan says.
pub record IsReport (reader : Reader) (report : ScanReport) : Type 0 where
  pub size : IsSize report.block_size
  pub block0 : List ℕ
  pub stored : read_block reader 0 report.block_size ≡ ok block0
  pub superblock : IsBlockZero block0
  pub descriptors : report.descriptor_blocks ≡ field 4 block0 0x68
  pub some_descriptors : 0 < report.descriptor_blocks
  pub few_descriptors : report.descriptor_blocks ≤ 10000
  pub base : report.descriptor_base ≡ field 8 block0 0x70
  pub low_base : report.descriptor_base < 2 ^ 63
  pub contiguous : report.descriptor_base_non_contiguous ≡ false
  pub some_candidates : 0 < length report.candidates
  pub candidates :
      IsSorted reader report.block_size report.descriptor_base report.descriptor_blocks
        report.candidates

abbrev no_descriptors : Found
no_descriptors = record { candidates = []; skipped_descriptors = [] }

module _ (reader : Reader) (r : IsReader reader) where
  -- Block zero, read again where the block size is not the smallest.
  block_zero-Settles :
      (size : ℕ) (initial : List ℕ)
      → read_block reader 0 4096 ≡ ok initial
      → Settles
          (λ block. (read_block reader 0 size ≡ ok block) × (4096 ≤ length block))
          Unit
          (if size == 4096 then ok initial else read_block reader 0 size)
  block_zero-Settles size initial p =
      Settles-if _ _ (size == 4096) _ _
        (λ smallest. (
          subst (λ n. read_block reader 0 n ≡ ok initial) (sym ((==_iff _ _).0 smallest)) p,
          whole 4096 initial p,
        ))
        (λ larger. itself size)
    where
      whole :
          (size : ℕ) (block : List ℕ) → read_block reader 0 size ≡ ok block → 4096 ≤ length block
      whole size block p =
          let ((full, bytes), low, high) = (read_block-IsBlock reader 0 size r).1 block p in
          omega arith

      itself :
          (size : ℕ)
          → Settles
              (λ block. (read_block reader 0 size ≡ ok block) × (4096 ≤ length block))
              Unit
              (read_block reader 0 size)
      itself size =
          Settles-self _ _ (read_block reader 0 size) (read_block-IsBlock reader 0 size r).0
            (λ block p. (p, whole size block p)) (λ e p. tt)

  low_half :
      (n : ℕ) → not (n / 2 ^ 63 == 0) ≡ false → (n < 2 ^ 63) × (bit_and n 0x7fff_ffff_ffff_ffff ≡ n)
  low_half n h =
      let low : n < 2 ^ 63 = omega (arith, (==_iff _ _).0 (opposite_false _ h)) in
      (low, omega (arith, low, bit_and_low 63 n))

  -- The scan from the descriptors on, once block zero is accepted.
  descriptors :
      (size : ℕ) (initial block0 : List ℕ)
      → IsSize size
      → read_block reader 0 size ≡ ok block0
      → IsBlockZero block0
      → (field 4 block0 0x68 == 0) ≡ false
      → ltb 10000 (field 4 block0 0x68) ≡ false
      → not (field 8 block0 0x70 / 2 ^ 63 == 0) ≡ false
      → Settles (IsReport reader) Unit (
          descriptor_loop reader size
            (bit_and (field 8 block0 0x70) address_mask)
            (field 4 block0 0x68)
            0
            no_descriptors
          >>= λ found.
              fail_if (length found.candidates == 0) no_checkpoint_candidates
              >> ok (record {
                block_size = size;
                descriptor_blocks = field 4 block0 0x68;
                descriptor_base = bit_and (field 8 block0 0x70) address_mask;
                descriptor_base_non_contiguous = not (field 8 block0 0x70 / 2 ^ 63 == 0);
                candidates = found.candidates;
                skipped_descriptors = found.skipped_descriptors;
              }))
  descriptors size initial block0 sized stored named some few contiguous =
      let (low_base, same) = low_half (field 8 block0 0x70) contiguous in
      let base = bit_and (field 8 block0 0x70) address_mask in
      let count = field 4 block0 0x68 in
      let loop = descriptor_loop-Settles reader size base count 0 no_descriptors r nothing in
      Settles-bind _ _ (descriptor_loop reader size base count 0 no_descriptors) _
        (Settles-Returns _ _ _ loop) (λ e p. tt)
        (λ found p. Settles-fail_if _ (length found.candidates == 0) _ _ (λ filled. record {
          size = sized;
          block0 = block0;
          stored = stored;
          superblock = named;
          descriptors = refl;
          some_descriptors = positive _ some;
          few_descriptors = ltb→le _ _ few;
          base = same;
          low_base = omega (arith, same, low_base);
          contiguous = contiguous;
          some_candidates = positive _ filled;
          candidates =
              subst (λ n. IsSorted reader size base n found.candidates) (omega arith)
                (Settles-ok _ _ _ p loop);
        }))
    where
      positive : (n : ℕ) → (n == 0) ≡ false → 0 < n
      positive n h = ground arith

      nothing : {base : ℕ} → IsSorted reader size base 0 []
      nothing = record { sound = tt; complete = λ i block l. absurd (omega (arith, l)) }

  -- The scan of any source that keeps the contract of `Read` returns. A report has an allowed block
  -- size that is a power of two, comes from a block zero that is a superblock of oid 1 with its
  -- checksum, covers 1 to 10000 contiguous descriptors from a base below `2 ^ 63`, and has at least
  -- one candidate. Its candidates are what the valid superblocks among those descriptors spell: each
  -- comes from such a block, and each such block gives one.
  pub scan_reader-IsReport : Settles (IsReport reader) Unit (scan_reader reader)
  unfolding scan_reader IsSize IsBlockZero
  scan_reader-IsReport =
      let (returns, facts) = read_block-IsBlock reader 0 4096 r in
      Settles-bind _ _ (read_block reader 0 4096) _ returns (λ e p. tt)
        (λ initial p.
          let ((full, bytes), low, high) = facts initial p in
          rw (le_u32_lem initial 0x24 (omega (arith, full))) (
            let size = field 4 initial 0x24 in
            let sized = validate_block_size-Settles size in
            Settles-bind _ _ (validate_block_size size) _ (Settles-Returns _ _ _ sized) (λ e p. tt)
              (λ u q.
                let zero = block_zero-Settles size initial p in
                Settles-bind _ _ (if size == 4096 then ok initial else read_block reader 0 size) _
                  (Settles-Returns _ _ _ zero) (λ e p. tt)
                  (λ block0 t.
                    let (stored, whole) = Settles-ok _ _ _ t zero in
                    let named = validate_nxsb_block0-Settles block0 (omega (arith, whole)) in
                    Settles-bind _ _ (validate_nxsb_block0 block0) _ (Settles-Returns _ _ _ named)
                      (λ e p. tt)
                      (λ u v.
                        rw
                          (
                            le_u32_lem block0 0x68 (omega (arith, whole)),
                            le_u64_lem block0 0x70 (omega (arith, whole)),
                          )
                          (let count = field 4 block0 0x68 in
                            let raw = field 8 block0 0x70 in
                            Settles-fail_if _ (count == 0) _ _ (λ some.
                              Settles-fail_if _ (ltb 10000 count) _ _ (λ few.
                                Settles-fail_if _ (not (raw / 2 ^ 63 == 0)) _ _ (λ contiguous.
                                  descriptors size initial block0 (Settles-ok _ _ _ q sized) stored
                                    (Settles-ok _ _ _ v named) some few contiguous)))))))))
