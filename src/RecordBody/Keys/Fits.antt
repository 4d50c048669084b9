-- ===== src/RecordBody/Keys/Fits.antt =====
-- What the keys of records decode to.
use apfs_fastindex.Base.{
  ℕ, ◌+◌, ◌%◌, ◌^◌, ◌≤◌, ◌<◌, ◌≡◌, ◌≢◌, refl, true, false, ◌&&◌, ◌||◌, Option, List, length, take,
  drop, ltb, leb, ◌==◌, arith, tests,
}
use apfs_fastindex.Base.Bits.{bit_and_low}
use apfs_fastindex.Outcome.{
  Settles, Settles-reject_if, Settles-bind, Settles-if, Settles-Returns, Settles-ok,
}
use apfs_fastindex.BlockIo.Fields.{field, le_u16_lem, le_u32_lem, le_u64_lem, slice_width}
use apfs_fastindex.RecordBody.{FsRecordKey, KeyForm, plain, named, to_hex, decode_name}
use apfs_fastindex.RecordBody.Names.{IsName, decode_name-IsName}
use apfs_fastindex.RecordBody.Keys.{
  decode_file_extent_key, decode_sibling_link_key, named_key, unhashed_drec_key, decode_drec_key,
  decode_xattr_key, decode_key,
}

-- `name_len` of a hashed key.
abbrev pub hashed_len : List ℕ → ℕ
hashed_len key = field 4 key 8 % 2 ^ 10

-- Where the name of each form begins, and which key takes that form.
abbrev pub name_offset : KeyForm → ℕ
name_offset KeyForm.hashed = 12
name_offset KeyForm.unhashed = 10
name_offset KeyForm.xattr = 10

abbrev pub FormFits : KeyForm → ℕ → List ℕ → ℕ → Type 0
FormFits KeyForm.hashed raw_type key name_len = (raw_type ≡ 9) × (name_len ≡ hashed_len key)
FormFits KeyForm.unhashed raw_type key name_len =
    (raw_type ≡ 9)
    × (name_len ≡ field 2 key 8)
    × (12 ≤ length key → 0 < hashed_len key → length key < 12 + hashed_len key)
FormFits KeyForm.xattr raw_type key name_len = (raw_type ≡ 4) × (name_len ≡ field 2 key 8)

pub fits_key : (n l : ℕ) → (n == 0 || ltb l (10 + n)) ≡ false → (0 < n) × (10 + n ≤ l)
fits_key n l h = ground arith

pub same : (a b : ℕ) → (a == b) ≡ true → a ≡ b
same a b h = ground arith

pub other : (a b : ℕ) → (a == b) ≡ false → a ≢ b
other a b h = ground arith

module _ (from_utf8 : List ℕ → Option (List ℕ)) (raw_type : ℕ) (key : List ℕ) where
  abbrev pub KeyFits : FsRecordKey → Type 0
  KeyFits plain = (raw_type ≢ 9) × (raw_type ≢ 4) × (raw_type ≢ 5) × (raw_type ≢ 8)
  KeyFits (named form name_len name hex) =
      FormFits form raw_type key name_len
      × (0 < name_len)
      × (name_offset form + name_len ≤ length key)
      × (hex ≡ to_hex (take name_len (drop (name_offset form) key)))
      × IsName from_utf8 (take name_len (drop (name_offset form) key)) name
  KeyFits (FsRecordKey.sibling_link id) = (raw_type ≡ 5) × (16 ≤ length key) × (id ≡ field 8 key 8)
  KeyFits (FsRecordKey.file_extent address) =
      (raw_type ≡ 8) × (16 ≤ length key) × (address ≡ field 8 key 8)

  named_key-KeyFits :
      (form : KeyForm) (offset name_len : ℕ)
      → offset ≡ name_offset form
      → FormFits form raw_type key name_len
      → 0 < name_len
      → offset + name_len ≤ length key
      → Settles KeyFits Unit (named_key from_utf8 form key offset name_len)
  unfolding named_key
  named_key-KeyFits form offset name_len o fits some_byte inside =
      rw (slice_width key offset name_len inside) (
        let settles = decode_name-IsName from_utf8 (take name_len (drop offset key)) in
        Settles-bind _ _ (decode_name from_utf8 (take name_len (drop offset key))) _
          (Settles-Returns _ _ _ settles) (λ e p. tt)
          (λ name p. (
            fits,
            some_byte,
            rw (← o) inside,
            rw (← o) refl,
            rw (← o) (Settles-ok _ _ _ p settles),
          )))

  unhashed_drec_key-KeyFits :
      raw_type ≡ 9
      → (12 ≤ length key → 0 < hashed_len key → length key < 12 + hashed_len key)
      → Settles KeyFits Unit (unhashed_drec_key from_utf8 key)
  unfolding unhashed_drec_key
  unhashed_drec_key-KeyFits r other =
      Settles-reject_if _ _ (ltb (length key) 10) _ _ (λ t. tt)
        (λ long. rw (le_u16_lem key 8 (omega (tests, long))) (
          Settles-reject_if _ _ (field 2 key 8 == 0 || ltb (length key) (10 + field 2 key 8)) _ _
            (λ t. tt)
            (λ fits.
              let (some_byte, inside) = fits_key _ _ fits in
              named_key-KeyFits KeyForm.unhashed 10 (field 2 key 8) refl (r, refl, other) some_byte
                inside)))

  decode_drec_key-KeyFits : raw_type ≡ 9 → Settles KeyFits Unit (decode_drec_key from_utf8 key)
  unfolding decode_drec_key
  decode_drec_key-KeyFits r =
      Settles-if _ _ (leb 12 (length key)) _ _
        (λ long.
          rw (le_u32_lem key 8 (omega (tests, long)), bit_and_low 10 (field 4 key 8))
            (Settles-if _ _ (ltb 0 (hashed_len key) && leb (12 + hashed_len key) (length key)) _ _
              (λ fits.
                let (some_byte, inside) = in_key _ _ fits in
                named_key-KeyFits KeyForm.hashed 12 (hashed_len key) refl (r, refl) some_byte
                  inside)
              (λ misfit. unhashed_drec_key-KeyFits r (λ l s. past _ _ misfit s))))
        (λ short. unhashed_drec_key-KeyFits r (λ l. absurd (omega (tests, short, l))))
    where
      in_key : (n l : ℕ) → (ltb 0 n && leb (12 + n) l) ≡ true → (0 < n) × (12 + n ≤ l)
      in_key n l h = ground arith

      past : (n l : ℕ) → (ltb 0 n && leb (12 + n) l) ≡ false → 0 < n → l < 12 + n
      past n l h s = ground arith

  decode_xattr_key-KeyFits : raw_type ≡ 4 → Settles KeyFits Unit (decode_xattr_key from_utf8 key)
  unfolding decode_xattr_key
  decode_xattr_key-KeyFits r =
      Settles-reject_if _ _ (ltb (length key) 10) _ _ (λ t. tt)
        (λ long. rw (le_u16_lem key 8 (omega (tests, long))) (
          Settles-reject_if _ _ (field 2 key 8 == 0 || ltb (length key) (10 + field 2 key 8)) _ _
            (λ t. tt)
            (λ fits.
              let (some_byte, inside) = fits_key _ _ fits in
              named_key-KeyFits KeyForm.xattr 10 (field 2 key 8) refl (r, refl) some_byte inside)))

  -- `decode_key` returns on any key. A key of a directory entry is read in its hashed form exactly
  -- if that form's name is not empty and fits, and otherwise in the other form; its name, and the
  -- name of an attribute, lies within the key and is an acceptable name. Keys of links and of file
  -- extents give the word behind the header, keys of other types nothing.
  pub decode_key-KeyFits : Settles KeyFits Unit (decode_key from_utf8 raw_type key)
  unfolding decode_key decode_file_extent_key decode_sibling_link_key
  decode_key-KeyFits =
      Settles-if _ _ (raw_type == 9) _ _ (λ r. decode_drec_key-KeyFits (same _ _ r))
        (λ no_drec.
          Settles-if _ _ (raw_type == 4) _ _ (λ r. decode_xattr_key-KeyFits (same _ _ r))
            (λ no_xattr.
              Settles-if _ _ (raw_type == 5) _ _
                (λ r.
                  Settles-reject_if _ _ (ltb (length key) 16) _ _ (λ t. tt)
                    (λ long.
                      rw (le_u64_lem key 8 (omega (tests, long)))
                        (same _ _ r, omega (tests, long), refl)))
                (λ no_link.
                  Settles-if _ _ (raw_type == 8) _ _
                    (λ r.
                      Settles-reject_if _ _ (ltb (length key) 16) _ _ (λ t. tt)
                        (λ long.
                          rw (le_u64_lem key 8 (omega (tests, long)))
                            (same _ _ r, omega (tests, long), refl)))
                    (λ no_extent. (
                      other _ _ no_drec,
                      other _ _ no_xattr,
                      other _ _ no_link,
                      other _ _ no_extent,
                    )))))
