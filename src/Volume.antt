-- ===== src/Volume.antt =====
-- crates/apfs-fastindex/src/volume.rs: the decoder of a volume superblock, and the gate that says
-- whether the volume can be walked. The text conversion `String::from_utf8_lossy` is a parameter.
pub mod Support
use apfs_fastindex.Base.{
  ℕ, ◌+◌, Bool, true, false, not, List, [], ◌∷◌, ◌++◌, Option, some, length, ltb, leb, ◌==◌,
  if◌then◌else◌, bit_and,
}
use apfs_fastindex.Outcome.{
  Outcome, ok, err, panic, hang, ◌>>=◌, ◌>>◌, reject_if, wrong_volume_oid, missing_volume_magic,
}
use apfs_fastindex.BlockIo.{slice, le_u16, le_u32, le_u64}
use apfs_fastindex.Object.{
  ObjectHeader, has_bit, expect_virtual, validate_object_block, StorageWord, flags_summary,
}
use apfs_fastindex.Container.{format_uuid}

abbrev pub object_type_fs : ℕ
object_type_fs = 0x000d

abbrev pub apfs_magic : ℕ
apfs_magic = 0x4253_5041

abbrev pub apfs_volname_offset : ℕ
apfs_volname_offset = 0x2c0

abbrev pub apfs_volname_len : ℕ
apfs_volname_len = 256

abbrev pub apfs_role_offset : ℕ
apfs_role_offset = 0x3c4

-- `!known_incompat_mask` on 64 bits
abbrev pub unknown_volume_bits : ℕ
unknown_volume_bits = 0xffff_ffff_ffff_ffc0

pub data IncompatWord : Type 0 where
  case_folding dataless_snapshots enc_rolled normalization_folding : IncompatWord
  incomplete_restore sealed_volume : IncompatWord

pub data FsFlagWord : Type 0 where
  unencrypted onekey spilledover run_spillover_cleaner always_check_extentref : FsFlagWord

pub data RoleWord : Type 0 where
  no_role system user recovery vm preboot installer data_volume baseband unknown : RoleWord

-- `if raw & mask != 0 { words.push(word) }`
abbrev pub word_if {ℓ} : {A : Type ℓ} → ℕ → ℕ → A → List A
word_if raw mask word = if has_bit raw mask then word ∷ [] else []

unfoldable pub or_unknown : List RoleWord → List RoleWord
or_unknown [] = unknown ∷ []
or_unknown (role ∷ roles) = role ∷ roles

unfoldable pub decode_role : ℕ → List RoleWord
decode_role role =
    if role == 0
    then no_role ∷ []
    else or_unknown (
        word_if role 0x1 system
        ++ (word_if role 0x2 user
            ++ (word_if role 0x4 recovery
                ++ (word_if role 0x8 vm
                    ++ (word_if role 0x10 preboot
                        ++ (word_if role 0x20 installer
                            ++ (word_if role 0x40 data_volume ++ word_if role 0x80 baseband)))))))

-- The bytes before the first zero.
unfoldable pub before_zero : List ℕ → List ℕ
before_zero [] = []
before_zero (b ∷ bytes) = if b == 0 then [] else b ∷ before_zero bytes

-- The reasons that `VolumeSupportStatus::Unsupported` gives.
pub data UnsupportedReason : Type 0 where
  encrypted_at_runtime unknown_incompatible encryption_rolling dataless restoring sealed :
      UnsupportedReason

pub data VolumeSupportStatus : Type 0 where
  supported : VolumeSupportStatus
  unsupported : UnsupportedReason → VolumeSupportStatus

-- The chain that sets `support_status`.
unfoldable pub support_status_of : ℕ → ℕ → VolumeSupportStatus
support_status_of fs_flags_raw incompat_raw =
    if not (has_bit fs_flags_raw 0x1)
    then unsupported encrypted_at_runtime
    else if not (bit_and incompat_raw unknown_volume_bits == 0)
    then unsupported unknown_incompatible
    else if has_bit incompat_raw 0x4
    then unsupported encryption_rolling
    else if has_bit incompat_raw 0x2
    then unsupported dataless
    else if has_bit incompat_raw 0x10
    then unsupported restoring
    else if has_bit incompat_raw 0x20
    then unsupported sealed
    else supported

pub record VolumeSummary : Type 0 where
  pub block_address : ℕ
  pub virtual_oid : ℕ
  pub xid : ℕ
  pub fs_index : ℕ
  pub features_raw : ℕ
  pub readonly_compatible_features_raw : ℕ
  pub incompatible_features_raw : ℕ
  pub fs_flags_raw : ℕ
  pub incompatible_features : List IncompatWord
  pub fs_flags : List FsFlagWord
  pub unsupported_incompatible_features : ℕ
  pub volume_name : List ℕ
  pub volume_uuid_hex : List ℕ
  pub role_raw : ℕ
  pub role_names : List RoleWord
  pub root_tree_type_raw : ℕ
  pub extentref_tree_type_raw : ℕ
  pub snap_meta_tree_type_raw : ℕ
  pub omap_oid : ℕ
  pub root_tree_virtual_oid : ℕ
  pub extentref_tree_oid : ℕ
  pub snap_meta_tree_oid : ℕ
  pub num_files : ℕ
  pub num_directories : ℕ
  pub num_symlinks : ℕ
  pub num_other_fsobjects : ℕ
  pub num_snapshots : ℕ
  pub object_header : ObjectHeader
  pub object_storage_summary : List StorageWord
  pub case_insensitive : Bool
  pub normalization_insensitive : Bool
  pub encrypted_runtime : Bool
  pub support_status : VolumeSupportStatus

module _ (from_utf8_lossy : List ℕ → List ℕ) where
  unfoldable pub decode_volname : List ℕ → List ℕ
  decode_volname bytes = from_utf8_lossy (before_zero bytes)

  unfoldable pub decode_volume_summary : List ℕ → ℕ → ℕ → ℕ → Outcome VolumeSummary
  decode_volume_summary block block_address expected_oid max_xid = do
    header ←
        validate_object_block block block_address (expect_virtual object_type_fs (some max_xid))
    reject_if (not (header.oid == expected_oid)) wrong_volume_oid
    magic ← le_u32 block 0x20
    reject_if (not (magic == apfs_magic)) missing_volume_magic
    fs_index ← le_u32 block 0x24
    features_raw ← le_u64 block 0x28
    ro_compat_raw ← le_u64 block 0x30
    incompat_raw ← le_u64 block 0x38
    root_tree_type_raw ← le_u32 block 0x74
    extentref_tree_type_raw ← le_u32 block 0x78
    snap_meta_tree_type_raw ← le_u32 block 0x7c
    omap_oid ← le_u64 block 0x80
    root_tree_virtual_oid ← le_u64 block 0x88
    extentref_tree_oid ← le_u64 block 0x90
    snap_meta_tree_oid ← le_u64 block 0x98
    num_files ← le_u64 block 0xb8
    num_directories ← le_u64 block 0xc0
    num_symlinks ← le_u64 block 0xc8
    num_other_fsobjects ← le_u64 block 0xd0
    num_snapshots ← le_u64 block 0xd8
    uuid ← slice block 0xf0 0x100
    fs_flags_raw ← le_u64 block 0x108
    role_raw ←
        (if ltb (apfs_role_offset + 2) (length block) then le_u16 block apfs_role_offset else ok 0)
    volume_name ←
        (if leb (apfs_volname_offset + apfs_volname_len) (length block)
          then (do
            name ← slice block apfs_volname_offset (apfs_volname_offset + apfs_volname_len)
            ok (decode_volname name))
          else ok [])
    ok (record {
      block_address = block_address;
      virtual_oid = header.oid;
      xid = header.xid;
      fs_index = fs_index;
      features_raw = features_raw;
      readonly_compatible_features_raw = ro_compat_raw;
      incompatible_features_raw = incompat_raw;
      fs_flags_raw = fs_flags_raw;
      incompatible_features =
          word_if incompat_raw 0x1 case_folding
          ++ (word_if incompat_raw 0x2 dataless_snapshots
              ++ (word_if incompat_raw 0x4 enc_rolled
                  ++ (word_if incompat_raw 0x8 normalization_folding
                      ++ (word_if incompat_raw 0x10 incomplete_restore
                          ++ word_if incompat_raw 0x20 sealed_volume))));
      fs_flags =
          word_if fs_flags_raw 0x1 unencrypted
          ++ (word_if fs_flags_raw 0x8 onekey
              ++ (word_if fs_flags_raw 0x10 spilledover
                  ++ (word_if fs_flags_raw 0x20 run_spillover_cleaner
                      ++ word_if fs_flags_raw 0x40 always_check_extentref)));
      unsupported_incompatible_features = bit_and incompat_raw unknown_volume_bits;
      volume_name = volume_name;
      volume_uuid_hex = format_uuid uuid;
      role_raw = role_raw;
      role_names = decode_role role_raw;
      root_tree_type_raw = root_tree_type_raw;
      extentref_tree_type_raw = extentref_tree_type_raw;
      snap_meta_tree_type_raw = snap_meta_tree_type_raw;
      omap_oid = omap_oid;
      root_tree_virtual_oid = root_tree_virtual_oid;
      extentref_tree_oid = extentref_tree_oid;
      snap_meta_tree_oid = snap_meta_tree_oid;
      num_files = num_files;
      num_directories = num_directories;
      num_symlinks = num_symlinks;
      num_other_fsobjects = num_other_fsobjects;
      num_snapshots = num_snapshots;
      object_header = header;
      object_storage_summary = flags_summary header;
      case_insensitive = has_bit incompat_raw 0x1;
      normalization_insensitive = has_bit incompat_raw 0x8;
      encrypted_runtime = not (has_bit fs_flags_raw 0x1);
      support_status = support_status_of fs_flags_raw incompat_raw;
    })
