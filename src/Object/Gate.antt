-- ===== src/Object/Gate.antt =====
-- Exactly which blocks `validate_object_block` lets through, and what it returns for them.
use apfs_fastindex.Base.{
  ℕ, ◌*◌, ◌/◌, ◌%◌, ◌^◌, ◌≤◌, ◌≡◌, ◌↔◌, refl, sym, ap, ◌∙◌, Bool, true, false, not, ◌&&◌, ◌||◌,
  Option, none, some, List, length, take, drop, ◌-◌, ltb, ltb→le, ◌==◌, Bool-cases, inl, inr, arith,
}
use apfs_fastindex.Outcome.{
  not_virtual, not_physical, not_ephemeral, ok, reject_if, Returns, Returns-bind, Returns-reject_if,
}
use apfs_fastindex.BlockIo.{
  checksum_matches, apfs_fletcher64, finish_checksum, add_batches, chunk_words,
}
use apfs_fastindex.BlockIo.Fields.{field, le_u32_lem, le_u64_lem, slice-eq-ok}
use apfs_fastindex.Object.{
  ObjectHeader, from_block, is_physical, is_ephemeral, is_encrypted, is_noheader, ExpectedStorage,
  virtual, ephemeral, physical, any, ObjectExpectation, check_storage, check_xid, check_header,
  validate_object_block,
}
use apfs_fastindex.Object.TypeWord.{
  bit, low_word, high_word, ephemeral_bit, physical_bit, noheader_bit, encrypted_bit,
}

-- The header that a block spells.
abbrev pub header_of : List ℕ → ℕ → ObjectHeader
header_of block address = record {
  block_address = address;
  checksum = field 8 block 0x00;
  oid = field 8 block 0x08;
  xid = field 8 block 0x10;
  object_type_raw = field 4 block 0x18;
  object_type = field 4 block 0x18 % 2 ^ 16;
  object_type_flags = field 4 block 0x18 / 2 ^ 16 % 2 ^ 16 * 2 ^ 16;
  object_subtype = field 4 block 0x1c;
}

pub from_block-header_of :
    (block : List ℕ) (address : ℕ)
    → 32 ≤ length block
    → from_block block address ≡ ok (header_of block address)
unfolding from_block
from_block-header_of block address h = ground (
  arith,
  le_u32_lem block 0x18 (omega arith),
  le_u64_lem block 0x00 (omega arith),
  le_u64_lem block 0x08 (omega arith),
  le_u64_lem block 0x10 (omega arith),
  le_u32_lem block 0x1c (omega arith),
  low_word (field 4 block 0x18),
  high_word (field 4 block 0x18),
)

-- The storage class that the expectation asks for.
abbrev pub FitsStorage : ExpectedStorage → ℕ → Type 0
FitsStorage virtual raw = (bit 30 raw ≡ false) × (bit 31 raw ≡ false)
FitsStorage physical raw = bit 30 raw ≡ true
FitsStorage ephemeral raw = bit 31 raw ≡ true
FitsStorage any raw = Unit

abbrev pub NotNewer : Option ℕ → ℕ → Type 0
NotNewer none xid = Unit
NotNewer (some max_xid) xid = xid ≤ max_xid

abbrev pub OidFits : Bool → ℕ → ℕ → Type 0
OidFits true oid address = oid ≡ address
OidFits false oid address = Unit

pub record IsAccepted (block : List ℕ) (address : ℕ) (expectation : ObjectExpectation)
    : Type 0 where
  pub long : 32 ≤ length block
  pub sealed : checksum_matches block ≡ ok true
  pub kind : field 4 block 0x18 % 2 ^ 16 ≡ expectation.object_type
  pub storage : FitsStorage expectation.storage (field 4 block 0x18)
  pub not_encrypted : bit 28 (field 4 block 0x18) ≡ false
  pub with_header : bit 29 (field 4 block 0x18) ≡ false
  pub oid : OidFits expectation.require_oid_eq_paddr (field 8 block 0x08) address
  pub xid : NotNewer expectation.max_xid (field 8 block 0x10)

module _ (block : List ℕ) (address : ℕ) where
  physical_header : is_physical (header_of block address) ≡ bit 30 (field 4 block 0x18)
  unfolding is_physical
  physical_header = rw (← high_word (field 4 block 0x18)) (physical_bit (field 4 block 0x18))

  ephemeral_header : is_ephemeral (header_of block address) ≡ bit 31 (field 4 block 0x18)
  unfolding is_ephemeral
  ephemeral_header = rw (← high_word (field 4 block 0x18)) (ephemeral_bit (field 4 block 0x18))

  encrypted_header : is_encrypted (header_of block address) ≡ bit 28 (field 4 block 0x18)
  unfolding is_encrypted
  encrypted_header = rw (← high_word (field 4 block 0x18)) (encrypted_bit (field 4 block 0x18))

  noheader_header : is_noheader (header_of block address) ≡ bit 29 (field 4 block 0x18)
  unfolding is_noheader
  noheader_header = rw (← high_word (field 4 block 0x18)) (noheader_bit (field 4 block 0x18))

-- What `check_header` passes, gate by gate.
record Passes (header : ObjectHeader) (address : ℕ) (e : ObjectExpectation) : Type 0 where
  kind : header.object_type ≡ e.object_type
  storage : check_storage e.storage header ≡ ok tt
  not_encrypted : is_encrypted header ≡ false
  with_header : is_noheader header ≡ false
  oid : (e.require_oid_eq_paddr && not (header.oid == address)) ≡ false
  xid : check_xid e.max_xid header ≡ ok tt

check_header-Passes :
    (header h : ObjectHeader) (address : ℕ) (e : ObjectExpectation)
    → check_header header address e ≡ ok h
    → Passes header address e × (h ≡ header)
unfolding check_header
check_header-Passes header h address e p = ground arith

Passes-check_header :
    (header : ObjectHeader) (address : ℕ) (e : ObjectExpectation)
    → Passes header address e
    → check_header header address e ≡ ok header
unfolding check_header
Passes-check_header header address e p = ground arith

Returns-check_storage :
    (s : ExpectedStorage) (header : ObjectHeader) → Returns (check_storage s header)
unfolding check_storage
Returns-check_storage virtual header = Returns-reject_if _ _
Returns-check_storage physical header = Returns-reject_if _ _
Returns-check_storage ephemeral header = Returns-reject_if _ _
Returns-check_storage any header = tt

Returns-check_xid : (m : Option ℕ) (header : ObjectHeader) → Returns (check_xid m header)
unfolding check_xid
Returns-check_xid none header = tt
Returns-check_xid (some m) header = Returns-reject_if _ _

Returns-check_header :
    (header : ObjectHeader) (address : ℕ) (e : ObjectExpectation)
    → Returns (check_header header address e)
unfolding check_header
Returns-check_header header address e =
    search (Returns-bind, Returns-reject_if, Returns-check_storage, Returns-check_xid) depth 9

-- The gates on the header that a block spells are the conditions of `IsAccepted`.
check_storage_iff :
    (s : ExpectedStorage) (block : List ℕ) (address : ℕ)
    → (check_storage s (header_of block address) ≡ ok tt) ↔ FitsStorage s (field 4 block 0x18)
unfolding check_storage
check_storage_iff virtual block address =
    rw (physical_header, ephemeral_header)
      (both (bit 30 (field 4 block 0x18)) (bit 31 (field 4 block 0x18)))
  where
    both : (a b : Bool) → (reject_if (a || b) not_virtual ≡ ok tt) ↔ ((a ≡ false) × (b ≡ false))
    both a b = ground arith
check_storage_iff physical block address = rw physical_header (one (bit 30 (field 4 block 0x18)))
  where
    one : (a : Bool) → (reject_if (not a) not_physical ≡ ok tt) ↔ (a ≡ true)
    one a = ground arith
check_storage_iff ephemeral block address = rw ephemeral_header (one (bit 31 (field 4 block 0x18)))
  where
    one : (a : Bool) → (reject_if (not a) not_ephemeral ≡ ok tt) ↔ (a ≡ true)
    one a = ground arith
check_storage_iff any block address = (λ _. tt, λ _. refl)

check_xid_iff :
    (m : Option ℕ) (header : ObjectHeader) → (check_xid m header ≡ ok tt) ↔ NotNewer m header.xid
unfolding check_xid
check_xid_iff none header = (λ _. tt, λ _. refl)
check_xid_iff (some m) header = ground arith

oid_gate_iff :
    (b : Bool) (oid address : ℕ) → ((b && not (oid == address)) ≡ false) ↔ OidFits b oid address
oid_gate_iff true oid address = ground arith
oid_gate_iff false oid address = (λ _. tt, λ _. refl)

-- The checksum can be computed for a block that has its field.
pub checksum_matches-ok :
    (block : List ℕ) → 8 ≤ length block → (b : Bool) × (checksum_matches block ≡ ok b)
unfolding checksum_matches apfs_fletcher64
checksum_matches-ok block h =
    let words = chunk_words (take (length block - 8) (drop 8 block)) in
    (
      field 8 block 0 == finish_checksum (add_batches (length words) words (0, 0)),
      rw (le_u64_lem block 0 (omega arith), slice-eq-ok block 8 (length block) h (omega arith))
          refl,
    )

module _ (block : List ℕ) (address : ℕ) (e : ObjectExpectation) where
  -- A block of at least a header's length whose checksum matches comes to its header's gates.
  validate-check_header :
      32 ≤ length block
      → checksum_matches block ≡ ok true
      → validate_object_block block address e ≡ check_header (header_of block address) address e
  unfolding validate_object_block
  validate-check_header h c = ground (arith, c, from_block-header_of block address)

  accepted_before_header :
      (h : ObjectHeader)
      → validate_object_block block address e ≡ ok h
      → (32 ≤ length block) × (checksum_matches block ≡ ok true)
  unfolding validate_object_block
  accepted_before_header h p = ground arith

  Returns-validate : Returns (validate_object_block block address e)
  unfolding validate_object_block
  Returns-validate = elim (Bool-cases (ltb (length block) 32)) [
    | inl short ↦ rw short tt
    | inr long ↦
        let (matches, computed) = checksum_matches-ok block (omega (arith, ltb→le _ _ long)) in
        rw (long, computed, from_block-header_of block address (ltb→le _ _ long))
          (search (Returns-bind, Returns-reject_if, Returns-check_header) depth 9)
  ]

  -- The gate passes a block exactly if the block is long enough for a header, has its checksum, the
  -- expected kind and storage class, neither the encrypted nor the no-header flag, the block's
  -- address as its oid where that is asked for, and no transaction newer than the scan state where
  -- one is given; it returns the header that the block spells. On any block it returns.
  pub validate_object_block_iff :
      ((h : ObjectHeader)
        → (validate_object_block block address e ≡ ok h)
          ↔ (IsAccepted block address e × (h ≡ header_of block address)))
      × Returns (validate_object_block block address e)
  validate_object_block_iff = (λ h. (accepts h, passes h), Returns-validate)
    where
      accepts :
          (h : ObjectHeader)
          → validate_object_block block address e ≡ ok h
          → IsAccepted block address e × (h ≡ header_of block address)
      accepts h p =
          let (long, sealed) = accepted_before_header h p in
          let (gates, same) =
            check_header-Passes (header_of block address) h address e
              (sym (validate-check_header long sealed) ∙ p) in
          (
            record {
              long = long;
              sealed = sealed;
              kind = gates.kind;
              storage = (check_storage_iff e.storage block address).0 gates.storage;
              not_encrypted = sym (encrypted_header block address) ∙ gates.not_encrypted;
              with_header = sym (noheader_header block address) ∙ gates.with_header;
              oid = (oid_gate_iff e.require_oid_eq_paddr _ address).0 gates.oid;
              xid = (check_xid_iff e.max_xid (header_of block address)).0 gates.xid;
            },
            same,
          )

      passes :
          (h : ObjectHeader)
          → IsAccepted block address e × (h ≡ header_of block address)
          → validate_object_block block address e ≡ ok h
      passes h (a, same) =
          validate-check_header a.long a.sealed
          ∙ Passes-check_header (header_of block address) address e (record {
            kind = a.kind;
            storage = (check_storage_iff e.storage block address).1 a.storage;
            not_encrypted = encrypted_header block address ∙ a.not_encrypted;
            with_header = noheader_header block address ∙ a.with_header;
            oid = (oid_gate_iff e.require_oid_eq_paddr _ address).1 a.oid;
            xid = (check_xid_iff e.max_xid (header_of block address)).1 a.xid;
          })
          ∙ ap ok (sym same)
