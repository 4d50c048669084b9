-- ===== src/Examples/Whole.antt =====
-- A whole container of ten blocks, on which the dump is tried.
use apfs_fastindex.Base.{ℕ, false, List, [], ◌∷◌, ◌++◌, All}
use apfs_fastindex.BlockIo.{IsByte, Reader}
use apfs_fastindex.Checkpoint.{NxsbCandidate, ScanReport}
use apfs_fastindex.Examples.Sources.{zeros, image_reader}

-- Runs of bytes, each with the zeros that follow it.
unfoldable pub spread : List (List ℕ × ℕ) → List ℕ
spread [] = []
spread ((bytes, n) ∷ parts) = bytes ++ (zeros n ++ spread parts)

AreBytes : List (List ℕ × ℕ) → Type 0
AreBytes [] = Unit
AreBytes ((bytes, n) ∷ parts) = All IsByte bytes × AreBytes parts

-- The container superblock, in block zero and as the trailing block of the checkpoint.
abbrev superblock_0 : List ℕ
superblock_0 =
    54 ∷ 237 ∷ 150 ∷ 2 ∷ 93 ∷ 166 ∷ 21 ∷ 59 ∷ 1 ∷ 0 ∷ 0 ∷ 0 ∷ 0 ∷ 0 ∷ 0 ∷ 0 ∷ 5 ∷ 0 ∷ 0 ∷ 0 ∷ 0 ∷ 0
    ∷ 0 ∷ 0 ∷ 1 ∷ 0 ∷ 0 ∷ 128 ∷ 0 ∷ 0 ∷ 0 ∷ 0 ∷ 78 ∷ 88 ∷ 83 ∷ 66 ∷ 0 ∷ 16 ∷ 0 ∷ 0 ∷ 10 ∷ []

abbrev superblock_1 : List ℕ
superblock_1 = 2 ∷ []

abbrev superblock_2 : List ℕ
superblock_2 = 2 ∷ 0 ∷ 0 ∷ 0 ∷ 0 ∷ 0 ∷ 0 ∷ 0 ∷ 1 ∷ []

abbrev superblock_3 : List ℕ
superblock_3 =
    2 ∷ 0 ∷ 0 ∷ 0 ∷ 0 ∷ 0 ∷ 0 ∷ 0 ∷ 0 ∷ 0 ∷ 0 ∷ 0 ∷ 0 ∷ 0 ∷ 0 ∷ 0 ∷ 0 ∷ 0 ∷ 0 ∷ 0 ∷ 3 ∷ 0 ∷ 0 ∷ 0
    ∷ 0 ∷ 0 ∷ 0 ∷ 0 ∷ 0 ∷ 0 ∷ 0 ∷ 0 ∷ 0 ∷ 0 ∷ 0 ∷ 0 ∷ 0 ∷ 0 ∷ 0 ∷ 0 ∷ 1 ∷ 0 ∷ 0 ∷ 0 ∷ 2 ∷ 4 ∷ []

-- The checkpoint map.
abbrev map_bytes : List ℕ
map_bytes =
    84 ∷ 179 ∷ 255 ∷ 63 ∷ 152 ∷ 76 ∷ 0 ∷ 128 ∷ 1 ∷ 0 ∷ 0 ∷ 0 ∷ 0 ∷ 0 ∷ 0 ∷ 0 ∷ 5 ∷ 0 ∷ 0 ∷ 0 ∷ 0 ∷ 0
    ∷ 0 ∷ 0 ∷ 12 ∷ 0 ∷ 0 ∷ 64 ∷ 0 ∷ 0 ∷ 0 ∷ 0 ∷ 1 ∷ []

-- The object map of the container and its tree: volume 0x402 is in block 5.
abbrev container_omap_0 : List ℕ
container_omap_0 =
    115 ∷ 167 ∷ 255 ∷ 63 ∷ 118 ∷ 88 ∷ 0 ∷ 128 ∷ 3 ∷ 0 ∷ 0 ∷ 0 ∷ 0 ∷ 0 ∷ 0 ∷ 0 ∷ 4 ∷ 0 ∷ 0 ∷ 0 ∷ 0
    ∷ 0 ∷ 0 ∷ 0 ∷ 11 ∷ 0 ∷ 0 ∷ 64 ∷ []

abbrev container_omap_1 : List ℕ
container_omap_1 = 4 ∷ []

abbrev container_tree_0 : List ℕ
container_tree_0 =
    176 ∷ 203 ∷ 226 ∷ 240 ∷ 38 ∷ 32 ∷ 9 ∷ 207 ∷ 4 ∷ 0 ∷ 0 ∷ 0 ∷ 0 ∷ 0 ∷ 0 ∷ 0 ∷ 4 ∷ 0 ∷ 0 ∷ 0 ∷ 0
    ∷ 0 ∷ 0 ∷ 0 ∷ 2 ∷ 0 ∷ 0 ∷ 64 ∷ 11 ∷ 0 ∷ 0 ∷ 0 ∷ 7 ∷ 0 ∷ 0 ∷ 0 ∷ 1 ∷ 0 ∷ 0 ∷ 0 ∷ 0 ∷ 0 ∷ 4 ∷ 0
    ∷ 0 ∷ 0 ∷ 0 ∷ 0 ∷ 0 ∷ 0 ∷ 0 ∷ 0 ∷ 0 ∷ 0 ∷ 0 ∷ 0 ∷ 0 ∷ 0 ∷ 16 ∷ 0 ∷ 2 ∷ 4 ∷ 0 ∷ 0 ∷ 0 ∷ 0 ∷ 0 ∷ 0
    ∷ 4 ∷ []

abbrev container_tree_1 : List ℕ
container_tree_1 = 16 ∷ 0 ∷ 0 ∷ 5 ∷ []

-- The volume superblock.
abbrev volume_0 : List ℕ
volume_0 =
    22 ∷ 15 ∷ 230 ∷ 194 ∷ 125 ∷ 152 ∷ 198 ∷ 186 ∷ 2 ∷ 4 ∷ 0 ∷ 0 ∷ 0 ∷ 0 ∷ 0 ∷ 0 ∷ 4 ∷ 0 ∷ 0 ∷ 0 ∷ 0
    ∷ 0 ∷ 0 ∷ 0 ∷ 13 ∷ 0 ∷ 0 ∷ 0 ∷ 0 ∷ 0 ∷ 0 ∷ 0 ∷ 65 ∷ 80 ∷ 83 ∷ 66 ∷ []

abbrev volume_1 : List ℕ
volume_1 = 1 ∷ []

abbrev volume_2 : List ℕ
volume_2 =
    2 ∷ 0 ∷ 0 ∷ 64 ∷ 0 ∷ 0 ∷ 0 ∷ 0 ∷ 6 ∷ 0 ∷ 0 ∷ 0 ∷ 0 ∷ 0 ∷ 0 ∷ 0 ∷ 4 ∷ 4 ∷ 0 ∷ 0 ∷ 0 ∷ 0 ∷ 0 ∷ 0
    ∷ 9 ∷ []

abbrev volume_3 : List ℕ
volume_3 = 1 ∷ []

-- The object map of the volume and its tree: the root 0x404 is in block 8.
abbrev volume_omap_0 : List ℕ
volume_omap_0 =
    151 ∷ 143 ∷ 255 ∷ 63 ∷ 76 ∷ 112 ∷ 0 ∷ 128 ∷ 6 ∷ 0 ∷ 0 ∷ 0 ∷ 0 ∷ 0 ∷ 0 ∷ 0 ∷ 4 ∷ 0 ∷ 0 ∷ 0 ∷ 0
    ∷ 0 ∷ 0 ∷ 0 ∷ 11 ∷ 0 ∷ 0 ∷ 64 ∷ []

abbrev volume_omap_1 : List ℕ
volume_omap_1 = 7 ∷ []

abbrev volume_tree_0 : List ℕ
volume_tree_0 =
    168 ∷ 183 ∷ 226 ∷ 240 ∷ 38 ∷ 52 ∷ 9 ∷ 207 ∷ 7 ∷ 0 ∷ 0 ∷ 0 ∷ 0 ∷ 0 ∷ 0 ∷ 0 ∷ 4 ∷ 0 ∷ 0 ∷ 0 ∷ 0
    ∷ 0 ∷ 0 ∷ 0 ∷ 2 ∷ 0 ∷ 0 ∷ 64 ∷ 11 ∷ 0 ∷ 0 ∷ 0 ∷ 7 ∷ 0 ∷ 0 ∷ 0 ∷ 1 ∷ 0 ∷ 0 ∷ 0 ∷ 0 ∷ 0 ∷ 4 ∷ 0
    ∷ 0 ∷ 0 ∷ 0 ∷ 0 ∷ 0 ∷ 0 ∷ 0 ∷ 0 ∷ 0 ∷ 0 ∷ 0 ∷ 0 ∷ 0 ∷ 0 ∷ 16 ∷ 0 ∷ 4 ∷ 4 ∷ 0 ∷ 0 ∷ 0 ∷ 0 ∷ 0 ∷ 0
    ∷ 4 ∷ []

abbrev volume_tree_1 : List ℕ
volume_tree_1 = 16 ∷ 0 ∷ 0 ∷ 8 ∷ []

-- The file-system tree.
abbrev records_0 : List ℕ
records_0 =
    134 ∷ 107 ∷ 208 ∷ 219 ∷ 204 ∷ 142 ∷ 49 ∷ 1 ∷ 4 ∷ 4 ∷ 0 ∷ 0 ∷ 0 ∷ 0 ∷ 0 ∷ 0 ∷ 4 ∷ 0 ∷ 0 ∷ 0 ∷ 0
    ∷ 0 ∷ 0 ∷ 0 ∷ 2 ∷ 0 ∷ 0 ∷ 0 ∷ 14 ∷ 0 ∷ 0 ∷ 0 ∷ 3 ∷ 0 ∷ 0 ∷ 0 ∷ 2 ∷ 0 ∷ 0 ∷ 0 ∷ 0 ∷ 0 ∷ 16 ∷ 0
    ∷ 0 ∷ 0 ∷ 0 ∷ 0 ∷ 0 ∷ 0 ∷ 0 ∷ 0 ∷ 0 ∷ 0 ∷ 0 ∷ 0 ∷ 0 ∷ 0 ∷ 14 ∷ 0 ∷ 18 ∷ 0 ∷ 18 ∷ 0 ∷ 14 ∷ 0 ∷ 8
    ∷ 0 ∷ 170 ∷ 0 ∷ 152 ∷ 0 ∷ 2 ∷ 0 ∷ 0 ∷ 0 ∷ 0 ∷ 0 ∷ 0 ∷ 144 ∷ 2 ∷ 208 ∷ 72 ∷ 0 ∷ 97 ∷ 0 ∷ 5 ∷ 0
    ∷ 0 ∷ 0 ∷ 0 ∷ 0 ∷ 0 ∷ 48 ∷ []

abbrev records_1 : List ℕ
records_1 = 2 ∷ 0 ∷ 0 ∷ 0 ∷ 0 ∷ 0 ∷ 0 ∷ 0 ∷ 5 ∷ []

abbrev records_2 : List ℕ
records_2 = 255 ∷ 255 ∷ 255 ∷ 255 ∷ []

abbrev records_3 : List ℕ
records_3 =
    164 ∷ 129 ∷ 0 ∷ 0 ∷ 0 ∷ 0 ∷ 0 ∷ 0 ∷ 0 ∷ 0 ∷ 0 ∷ 0 ∷ 2 ∷ 0 ∷ 48 ∷ 0 ∷ 8 ∷ 0 ∷ 40 ∷ 0 ∷ 13 ∷ 0 ∷ 8
    ∷ 0 ∷ 10 ∷ 0 ∷ 0 ∷ 0 ∷ 0 ∷ 0 ∷ 0 ∷ 0 ∷ 0 ∷ 16 ∷ []

abbrev records_4 : List ℕ
records_4 =
    7 ∷ 0 ∷ 0 ∷ 0 ∷ 0 ∷ 0 ∷ 0 ∷ 0 ∷ 5 ∷ 0 ∷ 0 ∷ 0 ∷ 0 ∷ 0 ∷ 0 ∷ 0 ∷ 0 ∷ 0 ∷ 0 ∷ 0 ∷ 0 ∷ 0 ∷ 0 ∷ 0
    ∷ 8 ∷ []

-- The extent-reference tree.
abbrev extents_0 : List ℕ
extents_0 =
    137 ∷ 157 ∷ 197 ∷ 193 ∷ 210 ∷ 97 ∷ 22 ∷ 206 ∷ 9 ∷ 0 ∷ 0 ∷ 0 ∷ 0 ∷ 0 ∷ 0 ∷ 0 ∷ 4 ∷ 0 ∷ 0 ∷ 0 ∷ 0
    ∷ 0 ∷ 0 ∷ 0 ∷ 2 ∷ 0 ∷ 0 ∷ 64 ∷ 15 ∷ 0 ∷ 0 ∷ 0 ∷ 3 ∷ 0 ∷ 0 ∷ 0 ∷ 1 ∷ 0 ∷ 0 ∷ 0 ∷ 0 ∷ 0 ∷ 8 ∷ 0
    ∷ 0 ∷ 0 ∷ 0 ∷ 0 ∷ 0 ∷ 0 ∷ 0 ∷ 0 ∷ 0 ∷ 0 ∷ 0 ∷ 0 ∷ 0 ∷ 0 ∷ 8 ∷ 0 ∷ 20 ∷ 0 ∷ 20 ∷ 0 ∷ 100 ∷ 0 ∷ 0
    ∷ 0 ∷ 0 ∷ 0 ∷ 0 ∷ 32 ∷ []

abbrev extents_1 : List ℕ
extents_1 = 3 ∷ 0 ∷ 0 ∷ 0 ∷ 0 ∷ 0 ∷ 0 ∷ 16 ∷ 5 ∷ 0 ∷ 0 ∷ 0 ∷ 0 ∷ 0 ∷ 0 ∷ 0 ∷ 1 ∷ []

abbrev pub container_parts : List (List ℕ × ℕ)
container_parts =
    (superblock_0, 23)
    ∷ (superblock_1, 39)
    ∷ (superblock_2, 27)
    ∷ (superblock_3, 3910)
    ∷ (map_bytes, 4063)
    ∷ (superblock_0, 23)
    ∷ (superblock_1, 39)
    ∷ (superblock_2, 27)
    ∷ (superblock_3, 3910)
    ∷ (container_omap_0, 20)
    ∷ (container_omap_1, 4047)
    ∷ (container_tree_0, 3976)
    ∷ (container_tree_1, 47)
    ∷ (volume_0, 20)
    ∷ (volume_1, 63)
    ∷ (volume_2, 119)
    ∷ (volume_3, 3831)
    ∷ (volume_omap_0, 20)
    ∷ (volume_omap_1, 4047)
    ∷ (volume_tree_0, 3976)
    ∷ (volume_tree_1, 47)
    ∷ (records_0, 3792)
    ∷ (records_1, 47)
    ∷ (records_2, 20)
    ∷ (records_3, 30)
    ∷ (records_4, 41)
    ∷ (extents_0, 3964)
    ∷ (extents_1, 43)
    ∷ []

abbrev pub container_source : Reader
container_source = image_reader (spread container_parts)

abbrev pub container_report : ScanReport
container_report = record {
  block_size = 4096;
  descriptor_blocks = 2;
  descriptor_base = 1;
  descriptor_base_non_contiguous = false;
  candidates = [];
  skipped_descriptors = [];
}

abbrev pub container_candidate : NxsbCandidate
container_candidate = record {
  descriptor_index = 1;
  block_address = 2;
  oid = 1;
  xid = 5;
  object_type_raw = 0x8000_0001;
  object_subtype = 0;
  checksum = 0;
}
