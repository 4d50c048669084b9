-- ===== src/Namespace/Allocated.antt =====
-- Which entries have no allocated size.
use apfs_fastindex.Base.{
  ℕ, ◌≡◌, ◌≢◌, ◌↔◌, ◌⊎◌, inl, inr, refl, Bool, true, false, ◌||◌, Option, none, some, ◌==◌,
  if◌then◌else◌, arith,
}
use apfs_fastindex.Omap.{is_some}
use apfs_fastindex.RecordBody.{InodeBody, XattrBody, DstreamFields}
use apfs_fastindex.Namespace.{
  Xattrs, dt_dir, dt_reg, dt_lnk, find_xattr, alloced, unsparse, allocated_of_file,
  compute_allocated_size, xattr_decmpfs_name,
}

-- A file without inode, or with one that has neither the attribute of a compressed file nor a
-- stream.
abbrev pub IsUnsized : Option InodeBody → Option Xattrs → Type 0
IsUnsized none xattrs = Unit
IsUnsized (some inode) xattrs =
    (find_xattr xattrs xattr_decmpfs_name ≡ none) × (inode.dstream ≡ none)

abbrev pub HasNoSize : ℕ → Option InodeBody → Option Xattrs → Type 0
HasNoSize entry_type inode xattrs =
    (entry_type ≢ dt_lnk) × (entry_type ≢ dt_dir) × ((entry_type ≢ dt_reg) ⊎ IsUnsized inode xattrs)

unsparse-eq-none :
    (sparse : Option ℕ) (stream : Option DstreamFields)
    → (unsparse sparse (alloced stream) ≡ none) ↔ (stream ≡ none)
unfolding unsparse alloced
unsparse-eq-none none none = (λ p. refl, λ p. refl)
unsparse-eq-none none (some d) = (λ p. cc, λ p. cc)
unsparse-eq-none (some n) none = (λ p. refl, λ p. refl)
unsparse-eq-none (some n) (some d) = (λ p. cc, λ p. cc)

allocated_of_file-eq-none :
    (inode : Option InodeBody) (xattrs : Option Xattrs)
    → (allocated_of_file inode xattrs ≡ none) ↔ IsUnsized inode xattrs
unfolding allocated_of_file
allocated_of_file-eq-none none xattrs = (λ p. tt, λ p. refl)
allocated_of_file-eq-none (some inode) xattrs =
    of_attribute (find_xattr xattrs xattr_decmpfs_name) _
  where
    of_attribute :
        (decmpfs : Option XattrBody) (compressed : ℕ)
        → ((if is_some decmpfs
              then some compressed
              else unsparse inode.sparse_bytes (alloced inode.dstream))
            ≡ none)
          ↔ ((decmpfs ≡ none) × (inode.dstream ≡ none))
    of_attribute (some x) n = (λ p. cc, λ p. cc)
    of_attribute none n =
        let (to, from) = unsparse-eq-none inode.sparse_bytes inode.dstream in
        (λ p. (refl, to p), λ (p, q). from q)

-- `compute_allocated_size` gives no size exactly if the entry is neither a link nor a directory,
-- and either no regular file or one without inode, or with neither the attribute of a compressed
-- file nor a stream.
pub compute_allocated_size-eq-none :
    (entry_type : ℕ) (inode : Option InodeBody) (xattrs : Option Xattrs)
    → (compute_allocated_size entry_type inode xattrs ≡ none) ↔ HasNoSize entry_type inode xattrs
unfolding compute_allocated_size
compute_allocated_size-eq-none entry_type inode xattrs =
    of_tests (entry_type == dt_lnk) (entry_type == dt_dir) (entry_type == dt_reg) (ground arith)
      (ground arith) (ground arith)
  where
    of_tests :
        (is_link is_dir is_file : Bool)
        → (is_link ≡ true) ↔ (entry_type ≡ dt_lnk)
        → (is_dir ≡ true) ↔ (entry_type ≡ dt_dir)
        → (is_file ≡ true) ↔ (entry_type ≡ dt_reg)
        → ((if is_link || is_dir
              then some 0
              else if is_file
              then allocated_of_file inode xattrs
              else none)
            ≡ none)
          ↔ HasNoSize entry_type inode xattrs
    of_tests true d f l e r = (λ p. cc, λ h. absurd (h.0 (l.0 refl)))
    of_tests false true f l e r = (λ p. cc, λ h. absurd (h.1 (e.0 refl)))
    of_tests false false false l e r =
        (λ p. (λ q. other (l.1 q), λ q. other (e.1 q), inl (λ q. other (r.1 q))), λ h. refl)
      where
        other : false ≡ true → ⊥
        other p = cc
    of_tests false false true l e r = (
      λ p. (
        λ q. other (l.1 q),
        λ q. other (e.1 q),
        inr ((allocated_of_file-eq-none inode xattrs).0 p),
      ),
      λ h. elim h.2 [
        | inl n ↦ absurd (n (r.0 refl))
        | inr u ↦ (allocated_of_file-eq-none inode xattrs).1 u
      ],
    )
      where
        other : false ≡ true → ⊥
        other p = cc
