-- ===== src/Volume/Support.antt =====
-- Which volume superblocks are accepted, and which volumes the gate supports.
use apfs_fastindex.Base.{
  other_number, same_number, ℕ, take, drop, ◌*◌, ◌/◌, ◌%◌, ◌^◌, ◌<◌, ◌≤◌, ◌≡◌, ◌↔◌, refl, sym, ap,
  ◌∙◌, not, ◌++◌, List, [], length, some, ltb, leb, Bool-cases, inl, inr, ◌==◌, bit_and,
  if◌then◌else◌, tests, arith,
}
use apfs_fastindex.Base.Bits.{bit_and_bit, bit_and_low, bit_and_shifted}
use apfs_fastindex.Outcome.{
  Outcome, ok, err, ◌>>=◌, ScanError, Settles, Settles-bind, Settles-reject_if,
}
use apfs_fastindex.BlockIo.{slice, le_u16}
use apfs_fastindex.BlockIo.Fields.{field, le_u16_lem, le_u32_lem, le_u64_lem, slice-eq-ok}
use apfs_fastindex.Object.{
  ObjectHeader, expect_virtual, validate_object_block, flags_summary, has_bit,
}
use apfs_fastindex.Object.Gate.{IsAccepted, header_of, validate_object_block_iff}
use apfs_fastindex.Container.{format_uuid}
use apfs_fastindex.Volume.{
  VolumeSummary, supported, support_status_of, word_if, case_folding, dataless_snapshots,
  enc_rolled, normalization_folding, incomplete_restore, sealed_volume, unencrypted, onekey,
  spilledover, run_spillover_cleaner, always_check_extentref, decode_role, decode_volname,
  decode_volume_summary,
}

unknown_volume_bits_lem : (f : ℕ) → bit_and f 0xffff_ffff_ffff_ffc0 ≡ f / 2 ^ 6 % 2 ^ 58 * 2 ^ 6
unknown_volume_bits_lem f =
    omega (arith, bit_and_shifted 6 f 0x3ff_ffff_ffff_ffff, bit_and_low 58 (f / 2 ^ 6))

-- The gate on 64-bit words supports a volume exactly if its flags have the unencrypted bit, which
-- is the lowest, and its incompatible features are none, or one or both of the bits for case and
-- normalization insensitivity.
pub support_status_of_iff :
    (flags incompat : ℕ)
    → incompat < 2 ^ 64
    → (support_status_of flags incompat ≡ supported)
      ↔ ((flags % 2 ≡ 1) × (incompat < 16) × (incompat / 2 % 4 ≡ 0))
unfolding support_status_of
support_status_of_iff flags incompat h = ground (
  arith,
  bit_and_bit 0 flags,
  bit_and_bit 1 incompat,
  bit_and_bit 2 incompat,
  bit_and_bit 4 incompat,
  bit_and_bit 5 incompat,
  unknown_volume_bits_lem incompat,
)

-- What the decoder asks of a volume superblock.
pub record IsVolume (block : List ℕ) (address oid max_xid : ℕ) : Type 0 where
  pub accepted : IsAccepted block address (expect_virtual 0x0d (some max_xid))
  pub named : field 8 block 0x08 ≡ oid
  pub magic : field 4 block 0x20 ≡ 0x4253_5041

-- The role and the name, or defaults where the block is too short for them.
abbrev pub role_of : List ℕ → ℕ
role_of block = if ltb 0x3c6 (length block) then field 2 block 0x3c4 else 0

abbrev pub name_of : (List ℕ → List ℕ) → List ℕ → List ℕ
name_of from_utf8_lossy block =
    if leb 0x3c0 (length block)
    then decode_volname from_utf8_lossy (take 256 (drop 0x2c0 block))
    else []

-- What it reads there.
pub record DescribesVolume (from_utf8_lossy : List ℕ → List ℕ) (block : List ℕ) (address oid : ℕ)
    (s : VolumeSummary) : Type 0 where
  pub header : s.object_header ≡ header_of block address
  pub virtual_oid : s.virtual_oid ≡ oid
  pub xid : s.xid ≡ field 8 block 0x10
  pub omap : s.omap_oid ≡ field 8 block 0x80
  pub root_tree : s.root_tree_virtual_oid ≡ field 8 block 0x88
  pub extentref_tree : s.extentref_tree_oid ≡ field 8 block 0x90
  pub status : s.support_status ≡ support_status_of (field 8 block 0x108) (field 8 block 0x38)
  pub fs_index : s.fs_index ≡ field 4 block 0x24
  pub features_raw : s.features_raw ≡ field 8 block 0x28
  pub readonly_compatible_features_raw : s.readonly_compatible_features_raw ≡ field 8 block 0x30
  pub incompatible_features_raw : s.incompatible_features_raw ≡ field 8 block 0x38
  pub fs_flags_raw : s.fs_flags_raw ≡ field 8 block 0x108
  pub root_tree_type_raw : s.root_tree_type_raw ≡ field 4 block 0x74
  pub extentref_tree_type_raw : s.extentref_tree_type_raw ≡ field 4 block 0x78
  pub snap_meta_tree_type_raw : s.snap_meta_tree_type_raw ≡ field 4 block 0x7c
  pub snap_meta_tree_oid : s.snap_meta_tree_oid ≡ field 8 block 0x98
  pub num_files : s.num_files ≡ field 8 block 0xb8
  pub num_directories : s.num_directories ≡ field 8 block 0xc0
  pub num_symlinks : s.num_symlinks ≡ field 8 block 0xc8
  pub num_other_fsobjects : s.num_other_fsobjects ≡ field 8 block 0xd0
  pub num_snapshots : s.num_snapshots ≡ field 8 block 0xd8
  pub block_address : s.block_address ≡ address
  pub incompatible_features : s.incompatible_features ≡ (
      word_if (field 8 block 0x38) 0x1 case_folding
      ++ (word_if (field 8 block 0x38) 0x2 dataless_snapshots
          ++ (word_if (field 8 block 0x38) 0x4 enc_rolled
              ++ (word_if (field 8 block 0x38) 0x8 normalization_folding
                  ++ (word_if (field 8 block 0x38) 0x10 incomplete_restore
                      ++ word_if (field 8 block 0x38) 0x20 sealed_volume)))))
  pub fs_flags : s.fs_flags ≡ (
      word_if (field 8 block 0x108) 0x1 unencrypted
      ++ (word_if (field 8 block 0x108) 0x8 onekey
          ++ (word_if (field 8 block 0x108) 0x10 spilledover
              ++ (word_if (field 8 block 0x108) 0x20 run_spillover_cleaner
                  ++ word_if (field 8 block 0x108) 0x40 always_check_extentref))))
  pub unknown : s.unsupported_incompatible_features ≡ field 8 block 0x38 / 2 ^ 6 % 2 ^ 58 * 2 ^ 6
  pub name : s.volume_name ≡ name_of from_utf8_lossy block
  pub uuid : s.volume_uuid_hex ≡ format_uuid (take 16 (drop 0xf0 block))
  pub role : s.role_raw ≡ role_of block
  pub role_names : s.role_names ≡ decode_role (role_of block)
  pub storage : s.object_storage_summary ≡ flags_summary (header_of block address)
  pub case_insensitive : s.case_insensitive ≡ has_bit (field 8 block 0x38) 0x1
  pub normalization_insensitive : s.normalization_insensitive ≡ has_bit (field 8 block 0x38) 0x8
  pub encrypted_runtime : s.encrypted_runtime ≡ not (has_bit (field 8 block 0x108) 0x1)

module _ (from_utf8_lossy : List ℕ → List ℕ) (block : List ℕ) (address oid max_xid : ℕ)
    (l : 272 ≤ length block) where
  role_read : (if ltb 0x3c6 (length block) then le_u16 block 0x3c4 else ok 0) ≡ ok (role_of block)
  role_read = elim (Bool-cases (ltb 0x3c6 (length block))) [
    | inl long ↦ rw (long, le_u16_lem block 0x3c4 (omega (tests, long))) refl
    | inr short ↦ rw short refl
  ]

  name_read :
      (if leb 0x3c0 (length block)
        then (slice block 0x2c0 0x3c0 >>= λ name. ok (decode_volname from_utf8_lossy name))
        else ok [])
      ≡ ok (name_of from_utf8_lossy block)
  name_read = elim (Bool-cases (leb 0x3c0 (length block))) [
    | inl long ↦ rw (long, slice-eq-ok block 0x2c0 0x3c0 (omega arith) (omega (tests, long))) refl
    | inr short ↦ rw short refl
  ]

  -- On a block of at least 272 bytes, as every block that is read has, the decoder returns: a
  -- summary exactly if the block passes the gate for a virtual file-system object of the scan's
  -- transactions, has the expected oid and the volume magic. The summary has the header's oid and
  -- transaction, the fields of the block, with its role and name if the block is long enough for
  -- them, and the support status of the block's flags.
  pub decode_volume_summary-Settles :
      Settles
        (λ s.
          IsVolume block address oid max_xid × DescribesVolume from_utf8_lossy block address oid s)
        (¬ IsVolume block address oid max_xid)
        (decode_volume_summary from_utf8_lossy block address oid max_xid)
  unfolding decode_volume_summary
  decode_volume_summary-Settles =
      rw
        (
          le_u32_lem block 0x20 (omega arith),
          le_u32_lem block 0x24 (omega arith),
          le_u64_lem block 0x28 (omega arith),
          le_u64_lem block 0x30 (omega arith),
          le_u64_lem block 0x38 (omega arith),
          le_u32_lem block 0x74 (omega arith),
          le_u32_lem block 0x78 (omega arith),
          le_u32_lem block 0x7c (omega arith),
          le_u64_lem block 0x80 (omega arith),
          le_u64_lem block 0x88 (omega arith),
          le_u64_lem block 0x90 (omega arith),
          le_u64_lem block 0x98 (omega arith),
          le_u64_lem block 0xb8 (omega arith),
          le_u64_lem block 0xc0 (omega arith),
          le_u64_lem block 0xc8 (omega arith),
          le_u64_lem block 0xd0 (omega arith),
          le_u64_lem block 0xd8 (omega arith),
          slice-eq-ok block 0xf0 0x100 (omega arith) (omega arith),
          le_u64_lem block 0x108 (omega arith),
        )
        (Settles-bind _ _ (validate_object_block block address _) _
          (validate_object_block_iff block address _).1
          (λ e p v. refused p (
            ((validate_object_block_iff block address _).0 (header_of block address)).1
              (v.accepted, refl)))
          (λ header p.
            let (accepted, same) = ((validate_object_block_iff block address _).0 header).0 p in
            let oids : header.oid ≡ field 8 block 0x08 = ap (λ (h : ObjectHeader). h.oid) same in
            Settles-reject_if _ _ (not (header.oid == oid)) _ _
              (λ wrong v. other_number _ _ wrong (oids ∙ v.named))
              (λ named.
                Settles-reject_if _ _ (not (field 4 block 0x20 == 0x4253_5041)) _ _
                  (λ wrong v. other_number _ _ wrong v.magic)
                  (λ magic.
                    rw (role_read, name_read)
                      (
                        record {
                          accepted = accepted;
                          named = sym oids ∙ same_number _ _ named;
                          magic = same_number _ _ magic;
                        },
                        record {
                          header = same;
                          virtual_oid = same_number _ _ named;
                          xid = ap (λ (h : ObjectHeader). h.xid) same;
                          omap = refl;
                          root_tree = refl;
                          extentref_tree = refl;
                          status = refl;
                          fs_index = refl;
                          features_raw = refl;
                          readonly_compatible_features_raw = refl;
                          incompatible_features_raw = refl;
                          fs_flags_raw = refl;
                          root_tree_type_raw = refl;
                          extentref_tree_type_raw = refl;
                          snap_meta_tree_type_raw = refl;
                          snap_meta_tree_oid = refl;
                          num_files = refl;
                          num_directories = refl;
                          num_symlinks = refl;
                          num_other_fsobjects = refl;
                          num_snapshots = refl;
                          block_address = refl;
                          incompatible_features = refl;
                          fs_flags = refl;
                          name = refl;
                          uuid = refl;
                          role = refl;
                          role_names = refl;
                          case_insensitive = refl;
                          normalization_insensitive = refl;
                          encrypted_runtime = refl;
                          unknown = unknown_volume_bits_lem _;
                          storage = ap flags_summary same;
                        },
                      )))))
    where
      refused :
          {m : Outcome ObjectHeader} {e : ScanError} {h : ObjectHeader} → m ≡ err e → m ≡ ok h → ⊥
      refused p q = cc
