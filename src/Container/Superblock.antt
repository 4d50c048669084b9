-- ===== src/Container/Superblock.antt =====
-- `decode_container_summary`: which blocks it accepts, and what it reads in them.
use apfs_fastindex.Base.{
  ℕ, zero, suc, ◌+◌, ◌*◌, ◌^◌, ◌%◌, ◌<◌, ◌≤◌, ◌≡◌, refl, sym, ap, ◌∙◌, true, false, ◌||◌, List, [],
  ◌∷◌, ◌++◌, length, take, drop, ltb, ◌==◌, if◌then◌else◌, bit_and, Bool-cases, ltb→le, inl, inr,
  tests, arith,
}
use mathlib.Core.List.{append_assoc, append-nil}
use apfs_fastindex.Base.Bits.{bit_and_low}
use apfs_fastindex.Outcome.{Outcome, ok, err, ScanError, Settles, Settles-bind, Settles-reject_if}
use apfs_fastindex.BlockIo.Fields.{field, le_u32_lem, le_u64_lem, slice-eq-ok}
use apfs_fastindex.Object.{ObjectHeader, expect_any_storage, validate_object_block, flags_summary}
use apfs_fastindex.Object.Gate.{IsAccepted, header_of, validate_object_block_iff}
use apfs_fastindex.Container.{
  ContainerSummary, volume_oid_loop, decode_container_summary, feature_if, defrag, lcfd, version1,
  version2, fusion, format_uuid,
}

-- The `left` slots of the array of volumes from slot `index` on, as the block spells them.
pub oid_slots : List ℕ → ℕ → ℕ → List ℕ
oid_slots block zero index = []
oid_slots block (suc left) index =
    field 8 block (0xb8 + 8 * index) ∷ oid_slots block left (index + 1)

pub nonzero : List ℕ → List ℕ
nonzero [] = []
nonzero (n ∷ ns) = if n == 0 then nonzero ns else n ∷ nonzero ns

volume_oid_loop-nonzero :
    (block : List ℕ) (left index : ℕ) (found : List ℕ)
    → 0xb8 + 8 * (left + index) ≤ length block
    → volume_oid_loop block left index found ≡ ok (found ++ nonzero (oid_slots block left index))
unfolding volume_oid_loop oid_slots nonzero
volume_oid_loop-nonzero block zero index found h = ap ok (sym (append-nil found))
volume_oid_loop-nonzero block (suc left) index found h =
    rw (le_u64_lem block (0xb8 + 8 * index) (omega arith))
      (elim (Bool-cases (field 8 block (0xb8 + 8 * index) == 0)) [
        | inl unused ↦
            rw unused (volume_oid_loop-nonzero block left (index + 1) found (omega arith))
        | inr used ↦ rw used (
            volume_oid_loop-nonzero block left (index + 1) _ (omega arith)
            ∙ ap ok (append_assoc found (field 8 block (0xb8 + 8 * index) ∷ []) _))
      ])

-- What the decoder asks of a block.
pub record IsDecodable (block : List ℕ) (address : ℕ) : Type 0 where
  pub accepted : IsAccepted block address (expect_any_storage 1)
  pub some_systems : 0 < field 4 block 0xb4
  pub few_systems : field 4 block 0xb4 ≤ 100
  pub whole : 984 ≤ length block

-- What it reads there.
pub record Describes (block : List ℕ) (address : ℕ) (s : ContainerSummary) : Type 0 where
  pub header : s.object_header ≡ header_of block address
  pub xid : s.xid ≡ field 8 block 0x10
  pub volumes : s.volume_oids ≡ nonzero (oid_slots block 100 0)
  pub base : s.xp_desc_base ≡ field 8 block 0x70 % 2 ^ 63
  pub data_base : s.xp_data_base ≡ field 8 block 0x78 % 2 ^ 63
  pub unknown :
      s.unsupported_incompatible_features ≡ bit_and (field 8 block 0x40) 0xffff_ffff_ffff_fefc
  pub descriptor_blocks : s.xp_desc_blocks ≡ field 4 block 0x68
  pub descriptor_index : s.xp_desc_index ≡ field 4 block 0x88
  pub descriptor_len : s.xp_desc_len ≡ field 4 block 0x8c
  pub block_size : s.block_size ≡ field 4 block 0x24
  pub block_count : s.block_count ≡ field 8 block 0x28
  pub features_raw : s.features_raw ≡ field 8 block 0x30
  pub readonly_compatible_features_raw : s.readonly_compatible_features_raw ≡ field 8 block 0x38
  pub incompatible_features_raw : s.incompatible_features_raw ≡ field 8 block 0x40
  pub next_oid : s.next_oid ≡ field 8 block 0x58
  pub next_xid : s.next_xid ≡ field 8 block 0x60
  pub xp_data_blocks : s.xp_data_blocks ≡ field 4 block 0x6c
  pub xp_data_index : s.xp_data_index ≡ field 4 block 0x90
  pub xp_data_len : s.xp_data_len ≡ field 4 block 0x94
  pub spaceman_oid : s.spaceman_oid ≡ field 8 block 0x98
  pub omap_oid : s.omap_oid ≡ field 8 block 0xa0
  pub reaper_oid : s.reaper_oid ≡ field 8 block 0xa8
  pub max_file_systems : s.max_file_systems ≡ field 4 block 0xb4
  pub block_address : s.block_address ≡ address
  pub features :
      s.features
      ≡ feature_if (field 8 block 0x30) 0x1 defrag ++ feature_if (field 8 block 0x30) 0x2 lcfd
  pub incompatible_features : s.incompatible_features ≡ (
      feature_if (field 8 block 0x40) 0x1 version1
      ++ (feature_if (field 8 block 0x40) 0x2 version2
          ++ feature_if (field 8 block 0x40) 0x100 fusion))
  pub uuid : s.uuid_hex ≡ format_uuid (take 16 (drop 0x48 block))
  pub storage : s.object_storage_summary ≡ flags_summary (header_of block address)

in_range : (n : ℕ) → n == 0 || ltb 100 n ≡ false → (0 < n) × (n ≤ 100)
in_range n h = ground arith

out_of_range : (n : ℕ) → n == 0 || ltb 100 n ≡ true → 0 < n → ¬ (n ≤ 100)
out_of_range n h = ground arith

module _ (block : List ℕ) (address : ℕ) (l : 184 ≤ length block) where
  -- On a block of at least 184 bytes, as every block that is read has, the decoder returns. It returns
  -- a summary exactly if the block passes the gate for a superblock, names 1 to 100 file systems and
  -- holds the whole array of volumes. The summary then has the header's transaction, the nonzero oids
  -- of the 100 slots in their order, the checkpoint areas' bases without their top bit, the
  -- incompatible features outside the allowlist, and the fields of the block.
  pub decode_container_summary-Settles :
      Settles
        (λ s. IsDecodable block address × Describes block address s)
        (¬ IsDecodable block address)
        (decode_container_summary block address)
  unfolding decode_container_summary
  decode_container_summary-Settles =
      rw
        (
          le_u32_lem block 0x24 (omega arith),
          le_u64_lem block 0x28 (omega arith),
          le_u64_lem block 0x30 (omega arith),
          le_u64_lem block 0x38 (omega arith),
          le_u64_lem block 0x40 (omega arith),
          le_u64_lem block 0x58 (omega arith),
          le_u64_lem block 0x60 (omega arith),
          le_u32_lem block 0x68 (omega arith),
          le_u32_lem block 0x6c (omega arith),
          le_u64_lem block 0x70 (omega arith),
          le_u64_lem block 0x78 (omega arith),
          le_u32_lem block 0x80 (omega arith),
          le_u32_lem block 0x84 (omega arith),
          le_u32_lem block 0x88 (omega arith),
          le_u32_lem block 0x8c (omega arith),
          le_u32_lem block 0x90 (omega arith),
          le_u32_lem block 0x94 (omega arith),
          le_u64_lem block 0x98 (omega arith),
          le_u64_lem block 0xa0 (omega arith),
          le_u64_lem block 0xa8 (omega arith),
          le_u32_lem block 0xb4 (omega arith),
        )
        (Settles-bind _ _ (validate_object_block block address _) _
          (validate_object_block_iff block address _).1
          (λ e p d. refused p (
            ((validate_object_block_iff block address _).0 (header_of block address)).1
              (d.accepted, refl)))
          (λ header p.
            let (accepted, same) = ((validate_object_block_iff block address _).0 header).0 p in
            Settles-reject_if _ _ (field 4 block 0xb4 == 0 || ltb 100 (field 4 block 0xb4)) _ _
              (λ wrong d. out_of_range _ wrong d.some_systems d.few_systems)
              (λ systems.
                Settles-reject_if _ _ (ltb (length block) 984) _ _
                  (λ short d. omega (tests, short, d.whole))
                  (λ whole.
                    rw
                      (
                        volume_oid_loop-nonzero block 100 0 [] (omega (tests, whole)),
                        slice-eq-ok block 0x48 0x58 (omega arith) (omega arith),
                      )
                      (
                        record {
                          accepted = accepted;
                          some_systems = (in_range _ systems).0;
                          few_systems = (in_range _ systems).1;
                          whole = ltb→le _ _ whole;
                        },
                        record {
                          header = same;
                          xid = ap (λ (h : ObjectHeader). h.xid) same;
                          volumes = refl;
                          base = bit_and_low 63 _;
                          data_base = bit_and_low 63 _;
                          unknown = refl;
                          descriptor_blocks = refl;
                          descriptor_index = refl;
                          descriptor_len = refl;
                          block_size = refl;
                          block_count = refl;
                          features_raw = refl;
                          readonly_compatible_features_raw = refl;
                          incompatible_features_raw = refl;
                          next_oid = refl;
                          next_xid = refl;
                          xp_data_blocks = refl;
                          xp_data_index = refl;
                          xp_data_len = refl;
                          spaceman_oid = refl;
                          omap_oid = refl;
                          reaper_oid = refl;
                          max_file_systems = refl;
                          block_address = refl;
                          features = refl;
                          incompatible_features = refl;
                          uuid = refl;
                          storage = ap flags_summary same;
                        },
                      )))))
    where
      refused :
          {m : Outcome ObjectHeader} {e : ScanError} {h : ObjectHeader} → m ≡ err e → m ≡ ok h → ⊥
      refused p q = cc
