-- ===== src/FsRoot/Accepted.antt =====
-- Which roots of a file-system tree are accepted.
use apfs_fastindex.Base.{
  other_number, ℕ, ◌≡◌, refl, sym, ap, ◌∙◌, Bool, true, false, not, List, ◌==◌, same_number,
}
use mathlib.Core.Path.{subst}
use apfs_fastindex.Outcome.{
  Outcome, ok, err, ScanError, Reason, reject_if, Settles, Settles-bind, Settles-reject_if,
}
use apfs_fastindex.BlockIo.{Reader, read_block}
use apfs_fastindex.BlockIo.Fields.{field}
use apfs_fastindex.BlockIo.Reading.{IsReader, read_block-IsBlock}
use apfs_fastindex.Object.{ObjectHeader, validate_object_block}
use apfs_fastindex.Object.Gate.{IsAccepted, header_of, validate_object_block_iff}
use apfs_fastindex.Omap.{OmapValue}
use apfs_fastindex.FsRoot.{expect_fs_root, validate_fs_root_header}

-- The block at the mapped address is a virtual B-tree root of the mapped oid, for a file-system
-- tree, and not newer than the scan.
pub record IsFsRoot (reader : Reader) (block_size : ℕ) (root : OmapValue) (max_xid : ℕ)
    : Type 0 where
  pub block : List ℕ
  pub stored : read_block reader root.paddr block_size ≡ ok block
  pub accepted : IsAccepted block root.paddr (expect_fs_root max_xid)
  pub named : field 8 block 0x08 ≡ root.oid
  pub fstree : field 4 block 0x1c ≡ 0x0e

clash {ℓ} : {A : Type ℓ} {m : Outcome A} {e : ScanError} {a : A} → m ≡ err e → m ≡ ok a → ⊥
clash p q = cc

same_block : {m : Outcome (List ℕ)} {a b : List ℕ} → m ≡ ok a → m ≡ ok b → a ≡ b
same_block p q = cc

Settles-last :
    (P : Type 0) (b : Bool) (r : Reason)
    → (b ≡ true → ¬ P)
    → (b ≡ false → P)
    → Settles (λ u. P) (¬ P) (reject_if b r)
Settles-last P true r n h = n refl
Settles-last P false r n h = h refl

-- From a source that keeps the contract of `Read` the check returns; it passes exactly if the block
-- at the mapped address is the root of a file-system tree with the mapped oid.
pub validate_fs_root_header-Settles :
    (reader : Reader) (block_size : ℕ) (root : OmapValue) (max_xid : ℕ)
    → IsReader reader
    → Settles
        (λ u. IsFsRoot reader block_size root max_xid)
        (¬ IsFsRoot reader block_size root max_xid)
        (validate_fs_root_header reader block_size root max_xid)
unfolding validate_fs_root_header
validate_fs_root_header-Settles reader block_size root max_xid r =
    Settles-bind _ _ (read_block reader root.paddr block_size) _
      (read_block-IsBlock reader root.paddr block_size r).0 (λ e p f. clash p f.stored)
      (λ block p.
        let gate = validate_object_block_iff block root.paddr (expect_fs_root max_xid) in
        Settles-bind _ _ (validate_object_block block root.paddr (expect_fs_root max_xid)) _ gate.1
          (λ e q f. clash q (
            (gate.0 (header_of block root.paddr)).1 (
              subst (λ b. IsAccepted b root.paddr (expect_fs_root max_xid)) (same_block f.stored p)
                  f.accepted,
              refl,
            )))
          (λ header q.
            let (accepted, same) = (gate.0 header).0 q in
            let oids : header.oid ≡ field 8 block 0x08 = ap (λ (h : ObjectHeader). h.oid) same in
            let subtypes : header.object_subtype ≡ field 4 block 0x1c =
              ap (λ (h : ObjectHeader). h.object_subtype) same in
            Settles-reject_if _ _ (not (header.oid == root.oid)) _ _
              (λ wrong f.
                other_number _ _ wrong
                  (oids ∙ ap (λ b. field 8 b 0x08) (same_block p f.stored) ∙ f.named))
              (λ named.
                Settles-last _ (not (header.object_subtype == 0x0e)) _
                  (λ wrong f.
                    other_number _ _ wrong
                      (subtypes ∙ ap (λ b. field 4 b 0x1c) (same_block p f.stored) ∙ f.fstree))
                  (λ fstree. record {
                    block = block;
                    stored = p;
                    accepted = accepted;
                    named = sym oids ∙ same_number _ _ named;
                    fstree = sym subtypes ∙ same_number _ _ fstree;
                  }))))
