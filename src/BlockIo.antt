-- ===== src/BlockIo.antt =====
-- crates/apfs-fastindex/src/block_io.rs: little-endian fields of a block, the Fletcher-64 checksum
-- of an object, and the read of one block. A block is the list of its bytes. `usize` has 64 bits.
pub mod Fields
pub mod Fletcher
pub mod Reading
use apfs_fastindex.Base.{
  ℕ, zero, suc, ◌+◌, ◌-◌, ◌*◌, ◌%◌, ◌^◌, ◌<◌, bit_or, Bool, true, false, List, [], ◌∷◌, ◌++◌,
  length, take, drop, ltb, leb, ◌==◌, ◌&&◌, not, if◌then◌else◌,
}
use apfs_fastindex.Outcome.{
  Outcome, ok, err, panic, hang, ◌>>=◌, ◌>>◌, reject_if, block_size_out_of_range, io, short_read,
  unsupported_descriptor_layout, offset_overflow,
}

abbrev pub IsByte : ℕ → Type 0
IsByte b = b < 256

-- `&block[start..end]`
unfoldable pub slice : List ℕ → ℕ → ℕ → Outcome (List ℕ)
slice block start end =
    if leb start end && leb end (length block)
    then ok (take (end - start) (drop start block))
    else panic

-- `from_le_bytes`
unfoldable pub from_le_bytes : List ℕ → ℕ
from_le_bytes [] = 0
from_le_bytes (b ∷ bs) = b + 256 * from_le_bytes bs

-- An `offset + width` that wraps gives an empty or reversed range, which panics as well.
unfoldable pub le_u16 : List ℕ → ℕ → Outcome ℕ
unfolding slice from_le_bytes
le_u16 block offset = do bytes ← slice block offset (offset + 2); ok (from_le_bytes bytes)

unfoldable pub le_u32 : List ℕ → ℕ → Outcome ℕ
unfolding slice from_le_bytes
le_u32 block offset = do bytes ← slice block offset (offset + 4); ok (from_le_bytes bytes)

unfoldable pub le_u64 : List ℕ → ℕ → Outcome ℕ
unfolding slice from_le_bytes
le_u64 block offset = do bytes ← slice block offset (offset + 8); ok (from_le_bytes bytes)

-- `a += b` on `u64`
abbrev pub add_u64 : ℕ → ℕ → ℕ
add_u64 a b = (a + b) % 2 ^ 64

abbrev pub fletcher_modulus : ℕ
fletcher_modulus = 0xffff_ffff

-- `chunks(4)`, each read as a `u32`; a short last chunk is filled up with zeros.
unfoldable pub chunk_words : List ℕ → List ℕ
unfolding from_le_bytes
chunk_words [] = []
chunk_words (a ∷ []) = a ∷ []
chunk_words (a ∷ b ∷ []) = from_le_bytes (a ∷ b ∷ []) ∷ []
chunk_words (a ∷ b ∷ c ∷ []) = from_le_bytes (a ∷ b ∷ c ∷ []) ∷ []
chunk_words (a ∷ b ∷ c ∷ d ∷ rest) = from_le_bytes (a ∷ b ∷ c ∷ d ∷ []) ∷ chunk_words rest

-- `for chunk in batch`, over the sums `(lower, upper)`
unfoldable pub add_batch : List ℕ → ℕ × ℕ → ℕ × ℕ
add_batch [] sums = sums
add_batch (word ∷ words) (lower, upper) =
    add_batch words (add_u64 lower word, add_u64 upper (add_u64 lower word))

-- The loop over batches of 1024 words, each followed by the two remainders.
unfoldable pub add_batches : ℕ → List ℕ → ℕ × ℕ → ℕ × ℕ
unfolding add_batch
add_batches fuel [] sums = sums
add_batches zero (word ∷ words) sums = sums
add_batches (suc fuel) (word ∷ words) sums =
    let (lower, upper) = add_batch (take 1024 (word ∷ words)) sums in
    add_batches fuel (drop 1024 (word ∷ words)) (lower % fletcher_modulus, upper % fletcher_modulus)

unfoldable pub finish_checksum : ℕ × ℕ → ℕ
finish_checksum (lower, upper) =
    let checksum_lower = fletcher_modulus - add_u64 lower upper % fletcher_modulus in
    let checksum_upper = fletcher_modulus - add_u64 lower checksum_lower % fletcher_modulus in
    bit_or (checksum_upper * 2 ^ 32 % 2 ^ 64) checksum_lower

-- Each batch takes one word at least, so as many rounds as words are enough.
unfoldable pub apfs_fletcher64 : List ℕ → Outcome ℕ
apfs_fletcher64 block = do
  body ← slice block 8 (length block)
  let words = chunk_words body
  ok (finish_checksum (add_batches (length words) words (0, 0)))

unfoldable pub checksum_matches : List ℕ → Outcome Bool
checksum_matches block = do
  stored ← le_u64 block 0
  computed ← apfs_fletcher64 block
  ok (stored == computed)

-- What one call of `read` on the source does: the bytes are those put at the front of the buffer.
pub data ReadOutcome : Type 0 where
  interrupted failed : ReadOutcome
  got : List ℕ → ReadOutcome

-- A source (`R: Read + Seek`), which nothing writes while it is scanned. `read position room k` is
-- the call for at most `room` bytes at `position` that follows `k` interrupted ones in a row.
-- `patience` says how many rounds to allow for interruptions.
pub record Reader : Type 0 where
  pub seekable : ℕ → Bool
  pub read : ℕ → ℕ → ℕ → ReadOutcome
  pub patience : ℕ

abbrev pub apfs_min_block_size : ℕ
apfs_min_block_size = 4096

abbrev pub apfs_max_block_size : ℕ
apfs_max_block_size = 65536

module _ (reader : Reader) (block_address block_size offset : ℕ) where
  -- `while read_total < block_size`; `block` holds what is read so far.
  unfoldable pub read_loop : ℕ → ℕ → List ℕ → Outcome (List ℕ)
  read_loop zero retries block = hang
  read_loop (suc fuel) retries block =
      if ltb (length block) block_size
      then elim (reader.read (offset + length block) (block_size - length block) retries) [
        | interrupted ↦ read_loop fuel (suc retries) block
        | failed ↦ err io
        | got [] ↦ err (short_read block_address block_size (length block))
        | got (byte ∷ bytes) ↦ read_loop fuel 0 (block ++ (byte ∷ bytes))
      ]
      else ok block

-- Rounds for every byte alone, each after as many interruptions as are allowed for.
abbrev pub read_rounds : Reader → ℕ → ℕ
read_rounds reader block_size = suc (block_size * suc reader.patience + reader.patience)

unfoldable pub read_block : Reader → ℕ → ℕ → Outcome (List ℕ)
read_block reader block_address block_size = do
  reject_if (not (leb apfs_min_block_size block_size && leb block_size apfs_max_block_size))
      block_size_out_of_range
  let offset = block_address * block_size
  if ltb offset (2 ^ 64)
      then (if reader.seekable offset
          then read_loop reader block_address block_size offset (read_rounds reader block_size) 0 []
          else err io)
      else err (unsupported_descriptor_layout offset_overflow)
