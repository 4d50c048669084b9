-- ===== src/NativeDump/Dumps.antt =====
-- The two dumps of a volume: they return, and what they dump comes from an accepted root.
use apfs_fastindex.Base.{ℕ, ◌%◌, ◌^◌, ◌≡◌, refl, Option, none, some, List, arith}
use apfs_fastindex.Outcome.{
  Outcome, ok, err, panic, hang, ScanError, ◌>>=◌, Returns, Returns-bind, returns_rules, Settles,
  Settles-bind, Settles-Returns, Settles-ok, Caught, value, failed, caught,
}
use apfs_fastindex.BlockIo.{Reader, read_block}
use apfs_fastindex.BlockIo.Fields.{le_u32_lem, le_u64_lem}
use apfs_fastindex.BlockIo.Reading.{IsReader, read_block-IsBlock}
use apfs_fastindex.Object.{validate_object_block}
use apfs_fastindex.Object.Gate.{validate_object_block_iff}
use apfs_fastindex.Omap.{OmapResolver, OmapValue, open_omap}
use apfs_fastindex.Volume.{VolumeSummary}
use apfs_fastindex.FsRoot.{validate_fs_root_header}
use apfs_fastindex.FsRoot.Accepted.{validate_fs_root_header-Settles}
use apfs_fastindex.FsRecords.{dump_fs_records}
use apfs_fastindex.FsRecords.Walk.{dump_fs_records-IsDump}
use apfs_fastindex.ExtentRef.{ExtentRefStorage, from_type_raw, dump_extent_refs}
use apfs_fastindex.ExtentRef.Extents.{
  StorageFits, from_type_raw-StorageFits, dump_extent_refs-IsExtentDump,
}
use apfs_fastindex.NativeDump.{
  fs_dump_checked, fs_dump_of, extent_root, extent_dump_caught, extent_dump_at, extent_dump_stored,
  extent_dump_of,
}
use apfs_fastindex.NativeDump.Reports.{RecordsFit, ExtentsFit}

-- A caught result is the value with its equation, or the error with its own.
pub Settles-caught {ℓ κ} :
    {A : Type ℓ} {B : Type κ} (P : B → Type 0) (m : Outcome A) (f : Caught A → Outcome B)
    → Returns m
    → ((a : A) → m ≡ ok a → Settles P Unit (f (value a)))
    → ((e : ScanError) → m ≡ err e → Settles P Unit (f (failed e)))
    → Settles P Unit (caught m >>= f)
unfolding caught
Settles-caught P (ok a) f r v e = v a refl
Settles-caught P (err x) f r v e = e x refl
Settles-caught P panic f r v e = r
Settles-caught P hang f r v e = r

pub Returns-open_omap :
    (reader : Reader) (block_size paddr : ℕ)
    → IsReader reader
    → Returns (open_omap reader block_size paddr)
unfolding open_omap
Returns-open_omap reader block_size paddr r =
    let (returns, facts) = read_block-IsBlock reader paddr block_size r in
    Returns-bind (read_block reader paddr block_size) _ returns (λ block p.
      let ((full, bytes), low, high) = facts block p in
      rw
        (
          le_u32_lem block 0x20 (omega (arith, full, low)),
          le_u32_lem block 0x24 (omega (arith, full, low)),
          le_u32_lem block 0x28 (omega (arith, full, low)),
          le_u32_lem block 0x2c (omega (arith, full, low)),
          le_u64_lem block 0x30 (omega (arith, full, low)),
          le_u64_lem block 0x38 (omega (arith, full, low)),
          le_u64_lem block 0x40 (omega (arith, full, low)),
          le_u64_lem block 0x48 (omega (arith, full, low)),
          le_u64_lem block 0x50 (omega (arith, full, low)),
        )
        (Returns-bind (validate_object_block block paddr _) _
          (validate_object_block_iff block paddr _).1 (λ header q. search returns_rules)))

nothing : {root : OmapValue} → none ≡ some root → ⊥
nothing p = cc

module _ (from_utf8 : List ℕ → Option (List ℕ)) (from_utf8_lossy : List ℕ → List ℕ)
    (reader : Reader) (r : IsReader reader) (block_size xid : ℕ) where
  other_root :
      {root : OmapValue} {e : ScanError} (other : OmapValue)
      → validate_fs_root_header reader block_size root xid ≡ err e
      → some root ≡ some other
      → validate_fs_root_header reader block_size other xid ≡ ok tt
      → ⊥
  other_root other p q h = cc

  pub fs_dump_of-RecordsFit :
      (index volume_oid : ℕ) (volume_omap : OmapResolver) (mapping : Option OmapValue)
      → Settles
          (λ result.
            RecordsFit from_utf8 from_utf8_lossy reader block_size xid volume_omap mapping result.0)
          Unit
          (fs_dump_of from_utf8 from_utf8_lossy reader block_size xid index volume_oid volume_omap
            mapping)
  unfolding fs_dump_of fs_dump_checked
  fs_dump_of-RecordsFit index volume_oid volume_omap none = λ h. nothing h.1.0
  fs_dump_of-RecordsFit index volume_oid volume_omap (some root) =
      let check = validate_fs_root_header-Settles reader block_size root xid r in
      Settles-caught _ (validate_fs_root_header reader block_size root xid) _
        (Settles-Returns _ _ _ check)
        (λ u p.
          let walk =
            dump_fs_records-IsDump from_utf8 reader block_size (index % 2 ^ 32) volume_oid
              root.paddr xid volume_omap r in
          Settles-bind _ _
            (dump_fs_records from_utf8 reader block_size (index % 2 ^ 32) volume_oid root.paddr xid
              volume_omap)
            _ (Settles-Returns _ _ _ walk) (λ e p. tt)
            (λ dump q. (root, (refl, p), Settles-ok _ _ _ q walk)))
        (λ e p h. other_root h.0 p h.1.0 h.1.1)

  extent_dump_at-ExtentsFit :
      (volume_oid : ℕ) (summary : VolumeSummary) (storage : ExtentRefStorage)
      (volume_omap : OmapResolver) (mapping : Option OmapValue) (root : Option ℕ)
      → StorageFits summary.extentref_tree_type_raw storage
      → extent_root storage summary.extentref_tree_oid mapping ≡ root
      → Settles
          (λ result.
            ExtentsFit from_utf8 from_utf8_lossy reader block_size xid volume_omap summary mapping
              result.0)
          Unit
          (extent_dump_at from_utf8 from_utf8_lossy reader block_size xid volume_oid storage
            volume_omap root)
  unfolding extent_dump_at extent_dump_caught
  extent_dump_at-ExtentsFit volume_oid summary storage volume_omap mapping none fits same = tt
  extent_dump_at-ExtentsFit volume_oid summary storage volume_omap mapping (some paddr) fits same =
      let walk = dump_extent_refs-IsExtentDump reader block_size paddr storage xid volume_omap r in
      Settles-caught _ (dump_extent_refs reader block_size paddr storage xid volume_omap) _
        (Settles-Returns _ _ _ walk)
        (λ dump p. (storage, paddr, fits, same, Settles-ok _ _ _ p walk)) (λ e p. tt)

  pub extent_dump_of-ExtentsFit :
      (volume_oid : ℕ) (summary : VolumeSummary) (volume_omap : OmapResolver)
      (mapping : Option OmapValue)
      → Settles
          (λ result.
            ExtentsFit from_utf8 from_utf8_lossy reader block_size xid volume_omap summary mapping
              result.0)
          Unit
          (extent_dump_of from_utf8 from_utf8_lossy reader block_size xid volume_oid summary
            volume_omap mapping)
  unfolding extent_dump_of extent_dump_stored
  extent_dump_of-ExtentsFit volume_oid summary volume_omap mapping =
      let class = from_type_raw-StorageFits summary.extentref_tree_type_raw in
      Settles-caught _ (from_type_raw summary.extentref_tree_type_raw) _
        (Settles-Returns _ _ _ class)
        (λ storage p.
          extent_dump_at-ExtentsFit volume_oid summary storage volume_omap mapping _
            (Settles-ok _ _ _ p class) refl)
        (λ e p. tt)
