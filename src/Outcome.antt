-- ===== src/Outcome.antt =====
-- What a fallible function of the crate comes to (crates/apfs-fastindex/src/lib.rs, `ScanError`).
-- The text of a message is an enumeration with one value for each place that builds one; the
-- numbers that a message prints are left out. A slice out of range, and an `expect` that fails,
-- are `panic`. `hang` is no outcome of the program: it says that a bounded loop of the model ran
-- out of rounds.
use apfs_fastindex.Base.{ℕ, ◌-◌, ◌^◌, ◌≡◌, Bool, true, false, refl, ltb, leb, if◌then◌else◌, arith}
use mathlib.Core.Path.{subst}

pub data Reason : Type 0 where
  block_size_out_of_range object_too_short checksum_mismatch wrong_object_type : Reason
  not_virtual not_physical not_ephemeral encrypted_object noheader_object : Reason
  oid_not_paddr newer_than_scan_state : Reason
  node_too_short key_count_overflow key_count_past_toc toc_offset_overflow : Reason
  key_area_overflow root_too_small key_area_overlaps : Reason
  entry_out_of_range toc_entry_overflow toc_entry_past_toc key_offset_overflow : Reason
  value_offset_underflow key_end_overflow key_past_block value_end_overflow value_past_block :
      Reason
  omap_flags_unsupported omap_depth_exceeded omap_cycle omap_not_fixed : Reason
  internal_without_keys omap_value_unsupported : Reason
  max_file_systems_out_of_range superblock_too_short empty_descriptor_area : Reason
  descriptor_length_too_large descriptor_address_overflow trailing_not_selected : Reason
  trailing_xid_mismatch map_xid_mismatch mapping_count_overflow mappings_past_block : Reason
  key_too_short file_extent_key_too_short drec_key_too_short drec_name_misfit : Reason
  xattr_key_too_short xattr_name_misfit sibling_key_too_short : Reason
  empty_name only_nul_name embedded_nul not_utf8 : Reason
  inode_too_short drec_too_short unknown_entry_type xattr_too_short unknown_xattr_flags : Reason
  xattr_both_or_neither xattr_length_mismatch xattr_stream_too_short : Reason
  sibling_link_too_short sibling_name_misfit sibling_map_too_short file_extent_too_short : Reason
  dstream_too_short xfield_blob_too_short xfield_metadata_overflow xfield_past_metadata : Reason
  duplicate_xfield xfield_cursor_overflow xfield_past_blob xfield_wrong_size : Reason
  xfield_total_overflow xfield_padding_past_blob xfield_used_mismatch : Reason
  fs_tree_depth_exceeded fs_tree_cycle fs_tree_fixed fs_child_too_short fs_child_unmapped : Reason
  extent_depth_exceeded extent_cycle extent_fixed extent_child_too_short extent_child_unmapped :
      Reason
  extent_storage_unsupported extent_key_too_short extent_value_too_short : Reason
  block_size_mismatch descriptor_base_mismatch : Reason
  no_trailing_superblock wrong_volume_oid missing_volume_magic fs_root_wrong_oid
        fs_root_wrong_subtype :
      Reason

pub data BlockZeroReason : Type 0 where
  size_outside_allowlist size_not_power_of_two missing_magic : BlockZeroReason
  type_not_superblock oid_not_superblock checksum_invalid : BlockZeroReason

pub data LayoutReason : Type 0 where
  offset_overflow descriptor_count_zero descriptor_count_over_limit non_contiguous : LayoutReason

pub data ScanError : Type 0 where
  io : ScanError
  short_read : ℕ → ℕ → ℕ → ScanError
  invalid_block_zero : BlockZeroReason → ScanError
  unsupported_descriptor_layout : LayoutReason → ScanError
  no_checkpoint_candidates : ScanError
  invalid_object : Reason → ScanError
  unsupported_container_feature : ScanError

pub data Outcome {ℓ} (A : Type ℓ) : Type ℓ where
  ok : A → Outcome A
  err : ScanError → Outcome A
  panic : Outcome A
  hang : Outcome A

infixl 5 ◌>>=◌ ◌>>◌
abbrev pub ◌>>=◌ {ℓ κ} : {A : Type ℓ} {B : Type κ} → Outcome A → (A → Outcome B) → Outcome B
ok a >>= f = f a
err e >>= f = err e
panic >>= f = panic
hang >>= f = hang

abbrev pub ◌>>◌ {ℓ} : {B : Type ℓ} → Outcome (Unit {0}) → Outcome B → Outcome B
m >> k = m >>= λ _. k

-- `if refused { return Err(InvalidObject(..)) }`
abbrev pub reject_if : Bool → Reason → Outcome (Unit {0})
reject_if true r = err (invalid_object r)
reject_if false r = ok tt

-- `checked_add(..).ok_or_else(..)?` and `checked_mul(..)`, given the exact sum or product, and
-- `checked_sub`, all on 64 bits
abbrev pub checked : ℕ → Reason → Outcome ℕ
checked n r = if ltb n (2 ^ 64) then ok n else err (invalid_object r)

-- `checked_add` on 32 bits
abbrev pub checked_u32 : ℕ → Reason → Outcome ℕ
checked_u32 n r = if ltb n (2 ^ 32) then ok n else err (invalid_object r)

abbrev pub checked_sub : ℕ → ℕ → Reason → Outcome ℕ
checked_sub a b r = if leb b a then ok (a - b) else err (invalid_object r)

-- A result as a value, for a `match` that goes on after an error.
pub data Caught {ℓ} (A : Type ℓ) : Type ℓ where
  value : A → Caught A
  failed : ScanError → Caught A

unfoldable pub caught {ℓ} : {A : Type ℓ} → Outcome A → Outcome (Caught A)
caught (ok a) = ok (value a)
caught (err e) = ok (failed e)
caught panic = panic
caught hang = hang

-- The function returned: a value or an error that it states.
abbrev pub Returns {ℓ} : {A : Type ℓ} → Outcome A → Type 0
Returns (ok a) = Unit
Returns (err e) = Unit
Returns panic = ⊥
Returns hang = ⊥

module _ {ℓ κ} {A : Type ℓ} {B : Type κ} where
  pub >>=-eq-ok :
      (m : Outcome A) (next : A → Outcome B) {value : B}
      → (m >>= next) ≡ ok value
      → (first : A) × (m ≡ ok first) × (next first ≡ ok value)
  >>=-eq-ok (ok first) next p = (first, refl, p)
  >>=-eq-ok (err e) next p = cc
  >>=-eq-ok panic next p = cc
  >>=-eq-ok hang next p = cc

  -- A chain returns if its first step does, and the rest does on each value of the first.
  pub Returns-bind :
      (m : Outcome A) (f : A → Outcome B)
      → Returns m
      → ((a : A) → m ≡ ok a → Returns (f a))
      → Returns (m >>= f)
  Returns-bind (ok a) f h k = k a refl
  Returns-bind (err e) f h k = tt
  Returns-bind panic f h k = h
  Returns-bind hang f h k = h

pub Returns-reject_if : (b : Bool) (r : Reason) → Returns (reject_if b r)
Returns-reject_if true r = tt
Returns-reject_if false r = tt

pub reject_if-eq-ok : (b : Bool) (r : Reason) {u : Unit {0}} → reject_if b r ≡ ok u → b ≡ false
reject_if-eq-ok true r h = cc
reject_if-eq-ok false r h = refl

pub Returns-checked : (n : ℕ) (r : Reason) → Returns (checked n r)
Returns-checked n r = ground arith

pub checked-eq-ok : (n : ℕ) (r : Reason) {m : ℕ} → checked n r ≡ ok m → m ≡ n
checked-eq-ok n r h = ground arith

pub Returns-checked_sub : (a b : ℕ) (r : Reason) → Returns (checked_sub a b r)
Returns-checked_sub a b r = ground arith

pub Returns-checked_u32 : (n : ℕ) (r : Reason) → Returns (checked_u32 n r)
Returns-checked_u32 n r = ground arith

pub checked_u32-eq-ok : (n : ℕ) (r : Reason) {m : ℕ} → checked_u32 n r ≡ ok m → m ≡ n
checked_u32-eq-ok n r h = ground arith

pub Returns-if {ℓ} :
    {A : Type ℓ} (b : Bool) (m n : Outcome A) → Returns m → Returns n → Returns (if b then m else n)
Returns-if true m n h k = h
Returns-if false m n h k = k

-- For `search`: a chain of guards and checked sums returns.
pub ruleset returns_rules = (
  Returns-bind, Returns-reject_if, Returns-checked, Returns-checked_u32, Returns-checked_sub,
  Returns-if,
)

-- The function returned: a value that satisfies `P`, or an error, and then `Q` holds.
abbrev pub Settles {ℓ} : {A : Type ℓ} → (A → Type 0) → Type 0 → Outcome A → Type 0
Settles P Q (ok a) = P a
Settles P Q (err e) = Q
Settles P Q panic = ⊥
Settles P Q hang = ⊥

module _ {ℓ κ} {A : Type ℓ} {B : Type κ} (P : B → Type 0) (Q : Type 0) where
  pub Settles-bind :
      (m : Outcome A) (f : A → Outcome B)
      → Returns m
      → ((e : ScanError) → m ≡ err e → Q)
      → ((a : A) → m ≡ ok a → Settles P Q (f a))
      → Settles P Q (m >>= f)
  Settles-bind (ok a) f h q k = k a refl
  Settles-bind (err e) f h q k = q e refl
  Settles-bind panic f h q k = h
  Settles-bind hang f h q k = h

module _ {ℓ} {A : Type ℓ} (P : A → Type 0) (Q : Type 0) where
  pub Settles-reject_if :
      (b : Bool) (r : Reason) (m : Outcome A)
      → (b ≡ true → Q)
      → (b ≡ false → Settles P Q m)
      → Settles P Q (reject_if b r >> m)
  Settles-reject_if true r m q h = q refl
  Settles-reject_if false r m q h = h refl

  pub Settles-if :
      (b : Bool) (m n : Outcome A)
      → (b ≡ true → Settles P Q m)
      → (b ≡ false → Settles P Q n)
      → Settles P Q (if b then m else n)
  Settles-if true m n h k = h refl
  Settles-if false m n h k = k refl

  pub Settles-Returns : (m : Outcome A) → Settles P Q m → Returns m
  Settles-Returns (ok a) h = tt
  Settles-Returns (err e) h = tt
  Settles-Returns panic h = h
  Settles-Returns hang h = h

  pub Settles-ok : (m : Outcome A) {a : A} → m ≡ ok a → Settles P Q m → P a
  Settles-ok m e h = subst (Settles P Q) e h

  -- If `Q` fails there is a value.
  pub Settles-succeeds : (m : Outcome A) → ¬ Q → Settles P Q m → (a : A) × (m ≡ ok a) × P a
  Settles-succeeds (ok a) n h = (a, refl, h)
  Settles-succeeds (err e) n h = absurd (n h)
  Settles-succeeds panic n h = absurd h
  Settles-succeeds hang n h = absurd h

  pub Settles-weaken :
      (P' : A → Type 0) (m : Outcome A) → ((a : A) → P a → P' a) → Settles P Q m → Settles P' Q m
  Settles-weaken P' (ok a) k h = k a h
  Settles-weaken P' (err e) k h = h
  Settles-weaken P' panic k h = h
  Settles-weaken P' hang k h = h

  pub Settles-self :
      (m : Outcome A)
      → Returns m
      → ((a : A) → m ≡ ok a → P a)
      → ((e : ScanError) → m ≡ err e → Q)
      → Settles P Q m
  Settles-self (ok a) r h q = h a refl
  Settles-self (err e) r h q = q e refl
  Settles-self panic r h q = r
  Settles-self hang r h q = r
