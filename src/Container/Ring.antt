-- ===== src/Container/Ring.antt =====
-- The checkpoint ring that `walk_checkpoint_maps` walks: its addresses, and what its maps add up to.
pub mod Walk
use apfs_fastindex.Base.{
  same_number, ℕ, zero, suc, ◌+◌, ◌-◌, ◌*◌, ◌^◌, ◌%◌, ◌<◌, ◌≤◌, ◌≡◌, refl, sym, ap, ◌∙◌, Bool, true,
  false, not, ◌||◌, List, [], ◌∷◌, ◌++◌, length, length-append, ltb, ◌==◌, ==_iff, if◌then◌else◌,
  ltb→le, All, All-append, tests, arith,
}
use mathlib.Core.Path.{subst}
use mathlib.Core.List.{append_assoc, append-nil}
use apfs_fastindex.Outcome.{
  Outcome, ok, err, panic, hang, checked, checked-eq-ok, Returns-checked, Settles, Settles-bind,
  Settles-weaken, Settles-reject_if, Settles-Returns, Settles-ok,
}
use apfs_fastindex.BlockIo.{Reader, read_block}
use apfs_fastindex.BlockIo.Fields.{field, le_u32_lem, le_u64_lem}
use apfs_fastindex.BlockIo.Reading.{IsReader, read_block-IsBlock}
use apfs_fastindex.Object.{ObjectHeader, validate_object_block, expect_physical, expect_any_storage}
use apfs_fastindex.Object.Gate.{IsAccepted, header_of, validate_object_block_iff}
use apfs_fastindex.Container.{
  ContainerSummary, CheckpointMapping, CheckpointMapBlock, CheckpointMapSummary, mapping_loop,
  RingState, trailing_step, map_step, ring_step, ring_loop, walk_checkpoint_maps,
}

-- The mappings that a map spells from slot `index` on, `left` of them.
pub mapping_slots : List ℕ → ℕ → ℕ → ℕ → List CheckpointMapping
mapping_slots block address zero index = []
mapping_slots block address (suc left) index =
    record {
      map_block = address;
      object_type_raw = field 4 block (40 + 40 * index);
      object_subtype = field 4 block (40 + 40 * index + 4);
      size = field 4 block (40 + 40 * index + 8);
      fs_oid = field 8 block (40 + 40 * index + 0x10);
      oid = field 8 block (40 + 40 * index + 0x18);
      paddr = field 8 block (40 + 40 * index + 0x20);
    }
    ∷ mapping_slots block address left (index + 1)

pub length-mapping_slots :
    (block : List ℕ) (address left index : ℕ)
    → length (mapping_slots block address left index) ≡ left
unfolding mapping_slots
length-mapping_slots block address zero index = refl
length-mapping_slots block address (suc left) index =
    omega (arith, length-mapping_slots block address left (index + 1))

pub mapping_loop-slots :
    (block : List ℕ) (address left index : ℕ) (mappings : List CheckpointMapping)
    → 40 + 40 * (left + index) ≤ length block
    → mapping_loop block address left index mappings
      ≡ ok (mappings ++ mapping_slots block address left index)
unfolding mapping_loop mapping_slots
mapping_loop-slots block address zero index mappings h = ap ok (sym (append-nil mappings))
mapping_loop-slots block address (suc left) index mappings h =
    rw
      (
        le_u32_lem block (40 + 40 * index) (omega arith),
        le_u32_lem block (40 + 40 * index + 4) (omega arith),
        le_u32_lem block (40 + 40 * index + 8) (omega arith),
        le_u64_lem block (40 + 40 * index + 0x10) (omega arith),
        le_u64_lem block (40 + 40 * index + 0x18) (omega arith),
        le_u64_lem block (40 + 40 * index + 0x20) (omega arith),
      )
      (mapping_loop-slots block address left (index + 1) _ (omega arith)
        ∙ ap ok (append_assoc mappings (_ ∷ []) (mapping_slots block address left (index + 1))))

module _ (container : ContainerSummary) where
  -- Where the block number `i` of the checkpoint stands.
  pub ring_address : ℕ → ℕ
  ring_address i =
      container.xp_desc_base + (container.xp_desc_index + i) % 2 ^ 32 % container.xp_desc_blocks

  pub ring_addresses : ℕ → ℕ → List ℕ
  ring_addresses zero from = []
  ring_addresses (suc left) from = ring_address from ∷ ring_addresses left (from + 1)

pub addresses : List CheckpointMapBlock → List ℕ
addresses [] = []
addresses (b ∷ bs) = b.block_address ∷ addresses bs

pub any_last : List CheckpointMapBlock → Bool
any_last [] = false
any_last (b ∷ bs) = b.last || any_last bs

ring_addresses-add :
    (container : ContainerSummary) (left from to : ℕ)
    → to ≡ from + left
    → ring_addresses container (suc left) from
      ≡ ring_addresses container left from ++ (ring_address container to ∷ [])
unfolding ring_addresses
ring_addresses-add container zero from to h = ap (λ n. ring_address container n ∷ []) (omega arith)
ring_addresses-add container (suc left) from to h =
    ap (λ t. ring_address container from ∷ t)
      (ring_addresses-add container left (from + 1) to (omega arith))

addresses-append :
    (bs : List CheckpointMapBlock) (b : CheckpointMapBlock)
    → addresses (bs ++ (b ∷ [])) ≡ addresses bs ++ (b.block_address ∷ [])
unfolding addresses
addresses-append [] b = refl
addresses-append (c ∷ bs) b = ap (λ t. c.block_address ∷ t) (addresses-append bs b)

any_last-append :
    (bs : List CheckpointMapBlock) (b : CheckpointMapBlock)
    → any_last (bs ++ (b ∷ [])) ≡ b.last || any_last bs
unfolding any_last
any_last-append [] b = refl
any_last-append (c ∷ bs) b =
    ap (λ t. c.last || t) (any_last-append bs b) ∙ swap c.last b.last (any_last bs)
  where
    swap : (x y z : Bool) → x || (y || z) ≡ y || (x || z)
    swap true true z = refl
    swap true false z = refl
    swap false y z = refl

-- The mappings that a map spells, as it was read.
unfoldable pub slots_in : Outcome (List ℕ) → ℕ → ℕ → List CheckpointMapping
slots_in (ok block) address count = mapping_slots block address count 0
slots_in (err e) address count = []
slots_in panic address count = []
slots_in hang address count = []

module _ (reader : Reader) (block_size : ℕ) where
  -- A map that the reader has at its address: an object of that kind that is its own oid, of the
  -- transaction of the superblock.
  pub record IsMap (container : ContainerSummary) (b : CheckpointMapBlock) : Type 0 where
    pub block : List ℕ
    pub read : read_block reader b.block_address block_size ≡ ok block
    pub accepted : IsAccepted block b.block_address (expect_physical 0x0c)
    pub header : b.object ≡ header_of block b.block_address
    pub transaction : b.object.xid ≡ container.xid
    pub flags : b.flags ≡ field 4 block 0x20
    pub count : b.mapping_count ≡ field 4 block 0x24
    pub last : b.last ≡ (field 4 block 0x20 % 2 == 1)

  -- The superblock that ends the ring, as the reader has it at the selected address.
  pub record IsTrailing (container : ContainerSummary) (selected : ℕ) : Type 0 where
    pub block : List ℕ
    pub read : read_block reader selected block_size ≡ ok block
    pub accepted : IsAccepted block selected (expect_any_storage 0x01)
    pub transaction : field 8 block 0x10 ≡ container.xid

  -- The mappings of the maps that the reader has at these addresses.
  unfoldable pub all_slots : List CheckpointMapBlock → List CheckpointMapping
  all_slots [] = []
  all_slots (b ∷ bs) =
      slots_in (read_block reader b.block_address block_size) b.block_address b.mapping_count
      ++ all_slots bs

  pub all_slots-append :
      (bs : List CheckpointMapBlock) (b : CheckpointMapBlock)
      → all_slots (bs ++ (b ∷ []))
        ≡ all_slots bs
          ++ slots_in (read_block reader b.block_address block_size) b.block_address b.mapping_count
  unfolding all_slots
  all_slots-append [] b = append-nil _
  all_slots-append (c ∷ bs) b =
      ap
        (λ t.
          slots_in (read_block reader c.block_address block_size) c.block_address c.mapping_count
          ++ t)
        (all_slots-append bs b)
      ∙ sym (append_assoc _ (all_slots bs) _)

if_or : (b c : Bool) → (if b then true else c) ≡ b || c
if_or true c = refl
if_or false c = refl
