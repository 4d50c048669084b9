-- ===== src/RecordBody/Values/Fields.antt =====
-- What the loops over the extended fields of an inode and of a directory record find.
use apfs_fastindex.Base.{
  ℕ, ◌≡◌, refl, ap, sym, ◌∙◌, true, false, Option, none, some, List, [], ◌∷◌, ◌==◌, Bool-cases, inl,
  inr, if◌then◌else◌, arith,
}
use apfs_fastindex.Omap.{contains}
use apfs_fastindex.RecordBody.{XfieldInterpreted, XfieldEntry, DstreamFields}
use apfs_fastindex.RecordBody.Xfields.Layout.{AreFresh}
use apfs_fastindex.RecordBody.Values.{
  InodeXfields, inode_field, inode_fields, no_inode_xfields, drec_field, drec_fields,
}

-- What the first field of a type means.
abbrev pub meaning : ℕ → List XfieldEntry → Option XfieldInterpreted
meaning x_type [] = none
meaning x_type (f ∷ fields) = if f.x_type == x_type then f.interpreted else meaning x_type fields

abbrev pub as_dstream : Option XfieldInterpreted → Option DstreamFields
as_dstream (some (XfieldInterpreted.dstream value)) = some value
as_dstream (some (XfieldInterpreted.u64 value)) = none
as_dstream (some (XfieldInterpreted.utf8 value)) = none
as_dstream none = none

abbrev pub as_u64 : Option XfieldInterpreted → Option ℕ
as_u64 (some (XfieldInterpreted.u64 value)) = some value
as_u64 (some (XfieldInterpreted.dstream value)) = none
as_u64 (some (XfieldInterpreted.utf8 value)) = none
as_u64 none = none

abbrev pub as_utf8 : Option XfieldInterpreted → Option (List ℕ)
as_utf8 (some (XfieldInterpreted.utf8 value)) = some value
as_utf8 (some (XfieldInterpreted.u64 value)) = none
as_utf8 (some (XfieldInterpreted.dstream value)) = none
as_utf8 none = none

abbrev or_else {ℓ} : {A : Type ℓ} → Option A → Option A → Option A
or_else (some a) o = some a
or_else none o = o

or_else-none {ℓ} : {A : Type ℓ} (o : Option A) → or_else o none ≡ o
or_else-none (some a) = refl
or_else-none none = refl

same_number_of : (a b : ℕ) → (a == b) ≡ true → a ≡ b
same_number_of a b h = ground arith

clash : (seen : List ℕ) (a b : ℕ) → a ≡ b → contains seen b ≡ true → contains seen a ≡ false → ⊥
clash seen a b e h n = cc

module _ {ℓ} {A : Type ℓ} (x_type : ℕ) (view : Option XfieldInterpreted → Option A) where
  -- One variable of such a loop: the last field of the type that has the right meaning.
  unfoldable last_view : List XfieldEntry → Option A → Option A
  last_view [] found = found
  last_view (f ∷ fields) found =
      last_view fields (if f.x_type == x_type then or_else (view f.interpreted) found else found)

  last_view-taken :
      (seen : List ℕ) (fields : List XfieldEntry) (found : Option A)
      → contains seen x_type ≡ true
      → AreFresh seen fields
      → last_view fields found ≡ found
  unfolding last_view contains
  last_view-taken seen [] found h fresh = refl
  last_view-taken seen (f ∷ fields) found h (new, fresh) = rw (apart seen f.x_type h new) (
      last_view-taken (f.x_type ∷ seen) fields found (rw (h, apart seen f.x_type h new) refl) fresh)
    where
      apart :
          (seen : List ℕ) (t : ℕ)
          → contains seen x_type ≡ true
          → contains seen t ≡ false
          → (t == x_type) ≡ false
      apart seen t h n = elim (Bool-cases (t == x_type)) [
        | inl e ↦ absurd (clash seen t x_type (same_number_of t x_type e) h n)
        | inr d ↦ d
      ]

  -- With no type twice the last such field is the first.
  last_view-meaning :
      (seen : List ℕ) (fields : List XfieldEntry)
      → view none ≡ none
      → AreFresh seen fields
      → last_view fields none ≡ view (meaning x_type fields)
  unfolding last_view contains
  last_view-meaning seen [] v fresh = sym v
  last_view-meaning seen (f ∷ fields) v (new, fresh) = elim (Bool-cases (f.x_type == x_type)) [
    | inl e ↦ rw e (
        last_view-taken (f.x_type ∷ seen) fields (or_else (view f.interpreted) none) (rw e refl)
          fresh
        ∙ or_else-none (view f.interpreted))
    | inr d ↦ rw d (last_view-meaning (f.x_type ∷ seen) fields v fresh)
  ]

dstream_step :
    (x_type : ℕ) (i : Option XfieldInterpreted) (found : InodeXfields)
    → (inode_field x_type i found).found_dstream
      ≡ (if x_type == 8 then or_else (as_dstream i) found.found_dstream else found.found_dstream)
unfolding inode_field
dstream_step x_type i found = ground arith

sparse_bytes_step :
    (x_type : ℕ) (i : Option XfieldInterpreted) (found : InodeXfields)
    → (inode_field x_type i found).found_sparse_bytes ≡ (
        if x_type == 13
        then or_else (as_u64 i) found.found_sparse_bytes
        else found.found_sparse_bytes)
unfolding inode_field
sparse_bytes_step x_type i found = ground arith

name_step :
    (x_type : ℕ) (i : Option XfieldInterpreted) (found : InodeXfields)
    → (inode_field x_type i found).found_name
      ≡ (if x_type == 4 then or_else (as_utf8 i) found.found_name else found.found_name)
unfolding inode_field
name_step x_type i found = ground arith

sibling_step :
    (x_type : ℕ) (i : Option XfieldInterpreted) (found : Option ℕ)
    → drec_field x_type i found ≡ (if x_type == 1 then or_else (as_u64 i) found else found)
unfolding drec_field
sibling_step x_type i found = ground arith

inode_fields-last_view :
    (fields : List XfieldEntry) (found : InodeXfields)
    → ((inode_fields fields found).found_dstream
        ≡ last_view 8 as_dstream fields found.found_dstream)
      × ((inode_fields fields found).found_sparse_bytes
          ≡ last_view 13 as_u64 fields found.found_sparse_bytes)
      × ((inode_fields fields found).found_name ≡ last_view 4 as_utf8 fields found.found_name)
unfolding inode_fields last_view
inode_fields-last_view [] found = (refl, refl, refl)
inode_fields-last_view (f ∷ fields) found =
    let rest = inode_fields-last_view fields (inode_field f.x_type f.interpreted found) in
    (
      rest.0 ∙ ap (last_view 8 as_dstream fields) (dstream_step f.x_type f.interpreted found),
      rest.1 ∙ ap (last_view 13 as_u64 fields) (sparse_bytes_step f.x_type f.interpreted found),
      rest.2 ∙ ap (last_view 4 as_utf8 fields) (name_step f.x_type f.interpreted found),
    )

drec_fields-last_view :
    (fields : List XfieldEntry) (found : Option ℕ)
    → drec_fields fields found ≡ last_view 1 as_u64 fields found
unfolding drec_fields last_view
drec_fields-last_view [] found = refl
drec_fields-last_view (f ∷ fields) found =
    drec_fields-last_view fields (drec_field f.x_type f.interpreted found)
    ∙ ap (last_view 1 as_u64 fields) (sibling_step f.x_type f.interpreted found)

-- Where no type comes twice, the loops find what the fields of the types asked for mean.
pub inode_fields-meaning :
    (fields : List XfieldEntry)
    → AreFresh [] fields
    → ((inode_fields fields no_inode_xfields).found_dstream ≡ as_dstream (meaning 8 fields))
      × ((inode_fields fields no_inode_xfields).found_sparse_bytes ≡ as_u64 (meaning 13 fields))
      × ((inode_fields fields no_inode_xfields).found_name ≡ as_utf8 (meaning 4 fields))
inode_fields-meaning fields fresh =
    let views = inode_fields-last_view fields no_inode_xfields in
    (
      views.0 ∙ last_view-meaning 8 as_dstream [] fields refl fresh,
      views.1 ∙ last_view-meaning 13 as_u64 [] fields refl fresh,
      views.2 ∙ last_view-meaning 4 as_utf8 [] fields refl fresh,
    )

pub drec_fields-meaning :
    (fields : List XfieldEntry)
    → AreFresh [] fields
    → drec_fields fields none ≡ as_u64 (meaning 1 fields)
drec_fields-meaning fields fresh =
    drec_fields-last_view fields none ∙ last_view-meaning 1 as_u64 [] fields refl fresh
