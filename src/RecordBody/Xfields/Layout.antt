-- ===== src/RecordBody/Xfields/Layout.antt =====
-- Where the extended fields of a blob stand: the description that the decoder is held against.
use apfs_fastindex.Base.{
  ℕ, zero, suc, ◌+◌, ◌*◌, ◌/◌, ◌%◌, ◌^◌, ◌≤◌, ◌<◌, ◌≡◌, refl, false, not, Option, none, some, List,
  [], ◌∷◌, length, take, drop, ◌==◌, same_number, arith,
}
use apfs_fastindex.Base.Bits.{bit_and_shifted, bit_and_low}
use apfs_fastindex.Outcome.{ok, Returns, reject_if-eq-ok, Returns-reject_if}
use apfs_fastindex.Omap.{contains}
use apfs_fastindex.BlockIo.{le_u16}
use apfs_fastindex.RecordBody.{XfieldEntry, to_hex}
use apfs_fastindex.RecordBody.Xfields.{
  XfieldContext, round_up_8, byte_at, required_xfield_size, check_size,
  validate_required_xfield_size, interpret_xfield,
}

-- The size with its padding, by division.
abbrev pub padded : ℕ → ℕ
padded size = 8 * ((size + 7) / 8)

pub round_up_8_lem : (size : ℕ) → size + 7 < 2 ^ 32 → round_up_8 size ≡ padded size
unfolding round_up_8
round_up_8_lem size h = omega (
  arith,
  bit_and_shifted 3 ((size + 7) % 4294967296) 536870911,
  bit_and_low 29 ((size + 7) % 4294967296 / 8),
)

pub byte_at-some : (blob : List ℕ) (i : ℕ) → i < length blob → (b : ℕ) × (byte_at blob i ≡ ok b)
unfolding byte_at
byte_at-some [] i h = absurd (omega arith)
byte_at-some (b ∷ blob) zero h = (b, refl)
byte_at-some (b ∷ blob) (suc i) h = byte_at-some blob i (omega arith)

pub Returns-byte_at : (blob : List ℕ) (i : ℕ) → i < length blob → Returns (byte_at blob i)
Returns-byte_at blob i h = let (b, p) = byte_at-some blob i h in rw p tt

abbrev pub SizeFits : Option ℕ → ℕ → Type 0
SizeFits none size = Unit
SizeFits (some n) size = size ≡ n

check_size-SizeFits :
    (expected : Option ℕ) (x_size : ℕ)
    → Returns (check_size expected x_size)
      × ((u : Unit {0}) → check_size expected x_size ≡ ok u → SizeFits expected x_size)
unfolding check_size
check_size-SizeFits none x_size = (tt, λ u p. tt)
check_size-SizeFits (some n) x_size =
    (Returns-reject_if (not (x_size == n)) _, λ u p. same_number x_size n (reject_if-eq-ok _ _ p))

pub validate-SizeFits :
    (context : XfieldContext) (x_type x_size : ℕ)
    → Returns (validate_required_xfield_size context x_type x_size)
      × ((u : Unit {0})
          → validate_required_xfield_size context x_type x_size ≡ ok u
          → SizeFits (required_xfield_size context x_type) x_size)
unfolding validate_required_xfield_size
validate-SizeFits context x_type x_size =
    check_size-SizeFits (required_xfield_size context x_type) x_size

abbrev pub types : List XfieldEntry → List ℕ
types [] = []
types (f ∷ fields) = f.x_type ∷ types fields

abbrev pub padded_sum : List XfieldEntry → ℕ
padded_sum [] = 0
padded_sum (f ∷ fields) = padded f.x_size + padded_sum fields

-- No type stands in `seen` or comes twice.
abbrev pub AreFresh : List ℕ → List XfieldEntry → Type 0
AreFresh seen [] = Unit
AreFresh seen (f ∷ fields) = (contains seen f.x_type ≡ false) × AreFresh (f.x_type ∷ seen) fields

module _ (from_utf8 : List ℕ → Option (List ℕ)) (context : XfieldContext) (blob : List ℕ) where
  -- The field of row `index` of the table, with its value at `cursor`.
  pub record IsField (index cursor : ℕ) (f : XfieldEntry) : Type 0 where
    pub type_read : byte_at blob (4 + index * 4) ≡ ok f.x_type
    pub flags_read : byte_at blob (4 + index * 4 + 1) ≡ ok f.x_flags
    pub size_read : le_u16 blob (4 + index * 4 + 2) ≡ ok f.x_size
    pub in_blob : cursor + f.x_size ≤ length blob
    pub size_fits : SizeFits (required_xfield_size context f.x_type) f.x_size
    pub padding : f.padded_length ≡ padded f.x_size
    pub value_spelled : f.value_hex ≡ to_hex (take f.x_size (drop cursor blob))
    pub value_read :
        interpret_xfield from_utf8 f.x_type (take f.x_size (drop cursor blob)) ≡ ok f.interpreted

  -- Values stand one behind the other, each filled up to a multiple of eight.
  abbrev pub AreFields : ℕ → ℕ → List XfieldEntry → Type 0
  AreFields index cursor [] = Unit
  AreFields index cursor (f ∷ fields) =
      IsField index cursor f × AreFields (index + 1) (cursor + padded f.x_size) fields
