-- ===== src/Namespace/Sizes.antt =====
-- The allocated and the logical size of an entry, on every branch.
use apfs_fastindex.Base.{
  ℕ, ◌≤◌, ◌≡◌, ◌≢◌, refl, Bool, true, false, not, ◌||◌, Option, none, some, List, [], ◌∷◌, length,
  ◌==◌, ltb, ltb→le, if◌then◌else◌, arith,
}
use apfs_fastindex.Outcome.{ok, ◌>>=◌}
use apfs_fastindex.BlockIo.{le_u64}
use apfs_fastindex.BlockIo.Fields.{field, le_u64_lem}
use apfs_fastindex.RecordBody.{ends_in_nul, InodeBody, XattrBody}
use apfs_fastindex.Object.{has_bit}
use apfs_fastindex.Btree.{unwrap_or}
use apfs_fastindex.RecordBody.Values.{inode_has_uncompressed_size}
use apfs_fastindex.Namespace.{
  Xattrs, dt_reg, dt_lnk, hex_to_vec, header_size, decmpfs_uncompressed_size, push_front_trimmed,
  trim_end_nul, target_of_text, target_of_link, find_xattr, size_of_stream, logical_size_of_file,
  logical_size_of_inode, logical_size_and_target, xattr_symlink_name, xattr_decmpfs_name,
}

trim_end_nul-clean : (text : List ℕ) → ends_in_nul (trim_end_nul text) ≡ false
unfolding trim_end_nul ends_in_nul push_front_trimmed
trim_end_nul-clean [] = refl
trim_end_nul-clean (c ∷ text) = pushed c (trim_end_nul text) (trim_end_nul-clean text)
  where
    last : (c : ℕ) (b : Bool) → (c == 0) ≡ b → ends_in_nul (if b then [] else c ∷ []) ≡ false
    last c true p = refl
    last c false p = p

    pushed :
        (c : ℕ) (rest : List ℕ)
        → ends_in_nul rest ≡ false
        → ends_in_nul (push_front_trimmed c rest) ≡ false
    pushed c [] h = last c (c == 0) refl
    pushed c (d ∷ rest) h = h

header_size-returns : (bytes : Option (List ℕ)) → (size : Option ℕ) × (header_size bytes ≡ ok size)
unfolding header_size
header_size-returns none = (none, refl)
header_size-returns (some bytes) = of_test (ltb (length bytes) 16) (ltb→le (length bytes) 16)
  where
    of_test :
        (t : Bool)
        → (t ≡ false → 16 ≤ length bytes)
        → (size : Option ℕ) × ((if t then ok none else (le_u64 bytes 8 >>= λ n. ok (some n)))
            ≡ ok size)
    of_test true l = (none, refl)
    of_test false l = (some (field 8 bytes 8), rw (le_u64_lem bytes 8 (omega (arith, l refl))) refl)

size_of_inode-returns :
    (inode : Option InodeBody) (decmpfs : Option XattrBody)
    → (size : ℕ) × (logical_size_of_inode inode decmpfs ≡ ok size)
unfolding logical_size_of_inode logical_size_of_file decmpfs_uncompressed_size
size_of_inode-returns none decmpfs = (0, refl)
size_of_inode-returns (some inode) none = (size_of_stream inode.dstream, refl)
size_of_inode-returns (some inode) (some decmpfs) =
    of_test
      (inode.has_uncompressed_size || has_bit inode.internal_flags inode_has_uncompressed_size)
  where
    of_test :
        (t : Bool)
        → (size : ℕ) × ((if t
              then ok inode.uncompressed_size
              else (header_size (hex_to_vec decmpfs.payload_hex) >>= λ n. ok (unwrap_or n 0)))
            ≡ ok size)
    of_test true = (inode.uncompressed_size, refl)
    of_test false =
        let (size, p) = header_size-returns (hex_to_vec decmpfs.payload_hex) in
        (unwrap_or size 0, rw p refl)

-- A target comes with its length as the size and does not end in a NUL.
abbrev pub IsTarget : ℕ → Option (List ℕ) → Type 0
IsTarget size none = Unit
IsTarget size (some target) = (size ≡ length target) × (ends_in_nul target ≡ false)

target_of_text-IsTarget :
    (text : Option (List ℕ))
    → IsTarget (target_of_text text).0 (target_of_text text).1
      × ((target_of_text text).1 ≡ none → (target_of_text text).0 ≡ 0)
unfolding target_of_text
target_of_text-IsTarget none = (tt, λ p. refl)
target_of_text-IsTarget (some text) = ((refl, trim_end_nul-clean text), λ p. cc)

target_of_link-IsTarget :
    (x : Option XattrBody)
    → IsTarget (target_of_link x).0 (target_of_link x).1
      × ((target_of_link x).1 ≡ none → (target_of_link x).0 ≡ 0)
unfolding target_of_link
target_of_link-IsTarget none = (tt, λ p. refl)
target_of_link-IsTarget (some x) = of_test x.embedded
  where
    of_test :
        (t : Bool)
        → IsTarget
            (if t then target_of_text x.payload_utf8 else (0, none)).0
            (if t then target_of_text x.payload_utf8 else (0, none)).1
          × ((if t then target_of_text x.payload_utf8 else (0, none)).1 ≡ none
              → (if t then target_of_text x.payload_utf8 else (0, none)).0 ≡ 0)
    of_test true = target_of_text-IsTarget x.payload_utf8
    of_test false = (tt, λ p. refl)

-- `logical_size_and_target` gives a size for every entry, whatever its payload spells. A target
-- is given only for a link, has the size as its length and does not end in a NUL; an entry that
-- is no regular file and has no target has size 0.
pub logical_size_and_target-IsTarget :
    (entry_type : ℕ) (inode : Option InodeBody) (xattrs : Option Xattrs)
    → (size : ℕ) × (target : Option (List ℕ)) × (logical_size_and_target entry_type inode xattrs
        ≡ ok (size, target))
      × IsTarget size target
      × (entry_type ≢ dt_lnk → target ≡ none)
      × (entry_type ≢ dt_reg → target ≡ none → size ≡ 0)
unfolding logical_size_and_target
logical_size_and_target-IsTarget entry_type inode xattrs =
    of_tests (entry_type == dt_lnk) (entry_type == dt_reg) (λ p. ground arith) (λ p. ground arith)
  where
    link : Option XattrBody
    link = find_xattr xattrs xattr_symlink_name

    of_tests :
        (is_link is_file : Bool)
        → (is_link ≡ true → entry_type ≡ dt_lnk)
        → (is_file ≡ true → entry_type ≡ dt_reg)
        → (size : ℕ) × (target : Option (List ℕ)) × ((if is_link
              then ok (target_of_link link)
              else if not is_file
              then ok (0, none)
              else (do
                size ← logical_size_of_inode inode (find_xattr xattrs xattr_decmpfs_name)
                ok (size, none)))
            ≡ ok (size, target))
          × IsTarget size target
          × (entry_type ≢ dt_lnk → target ≡ none)
          × (entry_type ≢ dt_reg → target ≡ none → size ≡ 0)
    of_tests true t p q = (
      (target_of_link link).0,
      (target_of_link link).1,
      refl,
      (target_of_link-IsTarget link).0,
      λ n. absurd (n (p refl)),
      λ n. (target_of_link-IsTarget link).1,
    )
    of_tests false false p q = (0, none, refl, tt, λ n. refl, λ n m. refl)
    of_tests false true p q =
        let (size, r) = size_of_inode-returns inode (find_xattr xattrs xattr_decmpfs_name) in
        (size, none, rw r refl, tt, λ n. refl, λ n. absurd (n (q refl)))
