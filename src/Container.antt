-- ===== src/Container.antt =====
-- crates/apfs-fastindex/src/container.rs: the decoder of the container superblock, and the walk of
-- the checkpoint that it ends.
pub mod Ring
pub mod Superblock
use apfs_fastindex.Base.{
  ℕ, zero, suc, ◌+◌, ◌-◌, ◌*◌, ◌^◌, ◌/◌, ◌%◌, Bool, true, false, not, ◌&&◌, ◌||◌, Option, none,
  some, List, [], ◌∷◌, ◌++◌, length, take, drop, ltb, leb, ◌==◌, if◌then◌else◌, bit_and,
}
use apfs_fastindex.Outcome.{
  Outcome, ok, err, panic, hang, ◌>>=◌, ◌>>◌, reject_if, checked, max_file_systems_out_of_range,
  superblock_too_short, empty_descriptor_area, descriptor_length_too_large,
  descriptor_address_overflow, trailing_not_selected, trailing_xid_mismatch, map_xid_mismatch,
  mapping_count_overflow, mappings_past_block, no_trailing_superblock,
}
use apfs_fastindex.BlockIo.{Reader, slice, le_u32, le_u64, read_block}
use apfs_fastindex.Object.{
  ObjectHeader, has_bit, expect_physical, expect_any_storage, object_type_nx_superblock,
  object_type_checkpoint_map, validate_object_block, StorageWord, flags_summary,
}

abbrev pub nx_max_file_systems : ℕ
nx_max_file_systems = 100

abbrev pub fs_oid_array_offset : ℕ
fs_oid_array_offset = 0xb8

-- `!(1u64 << 63)`
abbrev pub address_mask : ℕ
address_mask = 0x7fff_ffff_ffff_ffff

-- `!known_incompat_mask` on 64 bits
abbrev pub unknown_incompat_bits : ℕ
unknown_incompat_bits = 0xffff_ffff_ffff_fefc

abbrev pub checkpoint_map_last : ℕ
checkpoint_map_last = 0x1

abbrev pub checkpoint_mapping_size : ℕ
checkpoint_mapping_size = 40

-- The names of `features` and `incompatible_features`.
pub data FeatureWord : Type 0 where
  defrag lcfd version1 version2 fusion : FeatureWord

abbrev pub feature_if : ℕ → ℕ → FeatureWord → List FeatureWord
feature_if raw mask word = if has_bit raw mask then word ∷ [] else []

-- One lower-case digit of `{:02x}`, as a byte of the string.
unfoldable pub hex_digit : ℕ → ℕ
hex_digit n = if ltb n 10 then 0x30 + n else 0x57 + n

unfoldable pub hex_bytes : List ℕ → List ℕ
hex_bytes [] = []
hex_bytes (b ∷ bytes) = hex_digit (b / 16) ∷ hex_digit (b % 16) ∷ hex_bytes bytes

abbrev pub dash : List ℕ
dash = 0x2d ∷ []

unfoldable pub format_uuid : List ℕ → List ℕ
format_uuid bytes =
    if ltb (length bytes) 16
    then []
    else hex_bytes (take 4 bytes)
      ++ (dash
          ++ (hex_bytes (take 2 (drop 4 bytes))
              ++ (dash
                  ++ (hex_bytes (take 2 (drop 6 bytes))
                      ++ (dash
                          ++ (hex_bytes (take 2 (drop 8 bytes))
                              ++ (dash ++ hex_bytes (take 6 (drop 10 bytes)))))))))

pub record ContainerSummary : Type 0 where
  pub block_address : ℕ
  pub xid : ℕ
  pub block_size : ℕ
  pub block_count : ℕ
  pub features_raw : ℕ
  pub readonly_compatible_features_raw : ℕ
  pub incompatible_features_raw : ℕ
  pub features : List FeatureWord
  pub incompatible_features : List FeatureWord
  pub unsupported_incompatible_features : ℕ
  pub uuid_hex : List ℕ
  pub next_oid : ℕ
  pub next_xid : ℕ
  pub xp_desc_blocks : ℕ
  pub xp_desc_base : ℕ
  pub xp_desc_index : ℕ
  pub xp_desc_len : ℕ
  pub xp_data_blocks : ℕ
  pub xp_data_base : ℕ
  pub xp_data_index : ℕ
  pub xp_data_len : ℕ
  pub spaceman_oid : ℕ
  pub omap_oid : ℕ
  pub reaper_oid : ℕ
  pub max_file_systems : ℕ
  pub volume_oids : List ℕ
  pub object_header : ObjectHeader
  pub object_storage_summary : List StorageWord

-- `for index in 0..NX_MAX_FILE_SYSTEMS`, with the rounds that are left
unfoldable pub volume_oid_loop : List ℕ → ℕ → ℕ → List ℕ → Outcome (List ℕ)
volume_oid_loop block zero index volume_oids = ok volume_oids
volume_oid_loop block (suc left) index volume_oids = do
  oid ← le_u64 block (fs_oid_array_offset + 8 * index)
  volume_oid_loop block left (index + 1)
      (if not (oid == 0) then volume_oids ++ (oid ∷ []) else volume_oids)

unfoldable pub decode_container_summary : List ℕ → ℕ → Outcome ContainerSummary
decode_container_summary block block_address = do
  header ← validate_object_block block block_address (expect_any_storage object_type_nx_superblock)
  block_size ← le_u32 block 0x24
  block_count ← le_u64 block 0x28
  features_raw ← le_u64 block 0x30
  ro_compat_raw ← le_u64 block 0x38
  incompat_raw ← le_u64 block 0x40
  next_oid ← le_u64 block 0x58
  next_xid ← le_u64 block 0x60
  xp_desc_blocks ← le_u32 block 0x68
  xp_data_blocks ← le_u32 block 0x6c
  xp_desc_base_raw ← le_u64 block 0x70
  xp_data_base_raw ← le_u64 block 0x78
  xp_desc_next ← le_u32 block 0x80
  xp_data_next ← le_u32 block 0x84
  xp_desc_index ← le_u32 block 0x88
  xp_desc_len ← le_u32 block 0x8c
  xp_data_index ← le_u32 block 0x90
  xp_data_len ← le_u32 block 0x94
  spaceman_oid ← le_u64 block 0x98
  omap_oid ← le_u64 block 0xa0
  reaper_oid ← le_u64 block 0xa8
  max_file_systems ← le_u32 block 0xb4
  reject_if (max_file_systems == 0 || ltb nx_max_file_systems max_file_systems)
      max_file_systems_out_of_range
  reject_if (ltb (length block) (fs_oid_array_offset + 8 * nx_max_file_systems))
      superblock_too_short
  volume_oids ← volume_oid_loop block nx_max_file_systems 0 []
  uuid ← slice block 0x48 0x58
  ok (record {
    block_address = block_address;
    xid = header.xid;
    block_size = block_size;
    block_count = block_count;
    features_raw = features_raw;
    readonly_compatible_features_raw = ro_compat_raw;
    incompatible_features_raw = incompat_raw;
    features = feature_if features_raw 0x1 defrag ++ feature_if features_raw 0x2 lcfd;
    incompatible_features =
        feature_if incompat_raw 0x1 version1
        ++ (feature_if incompat_raw 0x2 version2 ++ feature_if incompat_raw 0x100 fusion);
    unsupported_incompatible_features = bit_and incompat_raw unknown_incompat_bits;
    uuid_hex = format_uuid uuid;
    next_oid = next_oid;
    next_xid = next_xid;
    xp_desc_blocks = xp_desc_blocks;
    xp_desc_base = bit_and xp_desc_base_raw address_mask;
    xp_desc_index = xp_desc_index;
    xp_desc_len = xp_desc_len;
    xp_data_blocks = xp_data_blocks;
    xp_data_base = bit_and xp_data_base_raw address_mask;
    xp_data_index = xp_data_index;
    xp_data_len = xp_data_len;
    spaceman_oid = spaceman_oid;
    omap_oid = omap_oid;
    reaper_oid = reaper_oid;
    max_file_systems = max_file_systems;
    volume_oids = volume_oids;
    object_header = header;
    object_storage_summary = flags_summary header;
  })

pub record CheckpointMapping : Type 0 where
  pub map_block : ℕ
  pub object_type_raw : ℕ
  pub object_subtype : ℕ
  pub size : ℕ
  pub fs_oid : ℕ
  pub oid : ℕ
  pub paddr : ℕ

pub record CheckpointMapBlock : Type 0 where
  pub block_address : ℕ
  pub flags : ℕ
  pub mapping_count : ℕ
  pub last : Bool
  pub object : ObjectHeader

-- The one note that the walk can leave.
pub data ValidationNote : Type 0 where
  no_last_flag : ValidationNote

pub record CheckpointMapSummary : Type 0 where
  pub map_blocks : List CheckpointMapBlock
  pub mappings : List CheckpointMapping
  pub trailing_nxsb_block : ℕ
  pub last_flag_seen : Bool
  pub validation_notes : List ValidationNote

-- `for index in 0..count`, with the rounds that are left
unfoldable pub mapping_loop :
    List ℕ → ℕ → ℕ → ℕ → List CheckpointMapping → Outcome (List CheckpointMapping)
mapping_loop block block_address zero index mappings = ok mappings
mapping_loop block block_address (suc left) index mappings = do
  let entry_off = 0x28 + checkpoint_mapping_size * index
  cpm_type ← le_u32 block entry_off
  cpm_subtype ← le_u32 block (entry_off + 4)
  cpm_size ← le_u32 block (entry_off + 8)
  cpm_fs_oid ← le_u64 block (entry_off + 0x10)
  cpm_oid ← le_u64 block (entry_off + 0x18)
  cpm_paddr ← le_u64 block (entry_off + 0x20)
  mapping_loop block block_address left (index + 1) (
      mappings
      ++ (record {
        map_block = block_address;
        object_type_raw = cpm_type;
        object_subtype = cpm_subtype;
        size = cpm_size;
        fs_oid = cpm_fs_oid;
        oid = cpm_oid;
        paddr = cpm_paddr;
      }
          ∷ []))

-- The variables of `walk_checkpoint_maps` that its loop changes.
pub record RingState : Type 0 where
  pub map_blocks : List CheckpointMapBlock
  pub mappings : List CheckpointMapping
  pub last_flag_seen : Bool
  pub trailing_nxsb_block : ℕ

module _ (reader : Reader) (block_size : ℕ) (container : ContainerSummary)
    (selected_block_address : ℕ) where
  -- The trailing block of the ring, up to `continue`.
  unfoldable pub trailing_step : List ℕ → ℕ → RingState → Outcome RingState
  trailing_step block block_address state = do
    header ←
        validate_object_block block block_address (expect_any_storage object_type_nx_superblock)
    reject_if (not (block_address == selected_block_address)) trailing_not_selected
    reject_if (not (header.xid == container.xid)) trailing_xid_mismatch
    ok (record {
      map_blocks = state.map_blocks;
      mappings = state.mappings;
      last_flag_seen = state.last_flag_seen;
      trailing_nxsb_block = block_address;
    })

  -- The rest of the loop's body: one checkpoint map.
  unfoldable pub map_step : List ℕ → ℕ → RingState → Outcome RingState
  map_step block block_address state = do
    map_header ←
        validate_object_block block block_address (expect_physical object_type_checkpoint_map)
    reject_if (not (map_header.xid == container.xid)) map_xid_mismatch
    flags ← le_u32 block 0x20
    count ← le_u32 block 0x24
    let last = has_bit flags checkpoint_map_last
    entries_end ← checked (0x28 + checkpoint_mapping_size * count) mapping_count_overflow
    reject_if (ltb (length block) entries_end) mappings_past_block
    mappings ← mapping_loop block block_address count 0 state.mappings
    ok (record {
      map_blocks =
          state.map_blocks
          ++ (record {
            block_address = block_address;
            flags = flags;
            mapping_count = count;
            last = last;
            object = map_header;
          }
              ∷ []);
      mappings = mappings;
      last_flag_seen = if last then true else state.last_flag_seen;
      trailing_nxsb_block = state.trailing_nxsb_block;
    })

  -- `xp_desc_index + offset` is on 32 bits and wraps in a release build.
  unfoldable pub ring_step : ℕ → RingState → Outcome RingState
  ring_step offset state = do
    let position = (container.xp_desc_index + offset) % 2 ^ 32 % container.xp_desc_blocks
    block_address ← checked (container.xp_desc_base + position) descriptor_address_overflow
    block ← read_block reader block_address block_size
    if offset == container.xp_desc_len - 1
        then trailing_step block block_address state
        else map_step block block_address state

  -- `for offset in 0..container.xp_desc_len`, with the rounds that are left
  unfoldable pub ring_loop : ℕ → ℕ → RingState → Outcome RingState
  ring_loop zero offset state = ok state
  ring_loop (suc left) offset state = do
    state ← ring_step offset state
    ring_loop left (offset + 1) state

  unfoldable pub walk_checkpoint_maps : Outcome CheckpointMapSummary
  walk_checkpoint_maps = do
    reject_if (container.xp_desc_blocks == 0 || container.xp_desc_len == 0) empty_descriptor_area
    reject_if (ltb container.xp_desc_blocks container.xp_desc_len) descriptor_length_too_large
    state ←
        ring_loop container.xp_desc_len 0 (record {
          map_blocks = [];
          mappings = [];
          last_flag_seen = false;
          trailing_nxsb_block = 0;
        })
    reject_if (state.trailing_nxsb_block == 0) no_trailing_superblock
    ok (record {
      map_blocks = state.map_blocks;
      mappings = state.mappings;
      trailing_nxsb_block = state.trailing_nxsb_block;
      last_flag_seen = state.last_flag_seen;
      validation_notes =
          if not state.last_flag_seen && not (length state.map_blocks == 0)
          then no_last_flag ∷ []
          else [];
    })
