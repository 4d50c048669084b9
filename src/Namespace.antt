-- ===== src/Namespace.antt =====
-- crates/apfs-fastindex/src/namespace.rs, the sizes: hexadecimal payloads, the size that a
-- compressed file states, the bytes that an extent shares, and the allocated size of an entry.
pub mod Payload
pub mod Overlaps
pub mod Dedup
pub mod Totals
pub mod Allocated
pub mod Sizes
pub mod Shares
use apfs_fastindex.Base.{
  ℕ, ◌+◌, ◌-◌, ◌*◌, ◌/◌, ◌%◌, ◌^◌, Bool, true, false, not, ◌&&◌, ◌||◌, Option, none, some, List, [],
  ◌∷◌, length, drop, ltb, leb, ◌==◌, if◌then◌else◌, min, bit_or,
}
use Prim.Native.Nat.{max}
use apfs_fastindex.Base.Int.{ℤ, pos, negsuc}
use apfs_fastindex.Outcome.{Outcome, ok, panic, ◌>>=◌}
use apfs_fastindex.BlockIo.{le_u64}
use apfs_fastindex.Object.{has_bit}
use apfs_fastindex.Btree.{unwrap_or}
use apfs_fastindex.Omap.{is_some}
use apfs_fastindex.RecordBody.Values.{inode_has_uncompressed_size}
use apfs_fastindex.RecordBody.{FileExtentBody, InodeBody, XattrBody, DstreamFields}
use apfs_fastindex.ExtentRef.{PhysExtRecord}

unfoldable pub hex_nibble : ℕ → Option ℕ
hex_nibble byte =
    if leb 0x30 byte && leb byte 0x39
    then some (byte - 0x30)
    else if leb 0x61 byte && leb byte 0x66
    then some (byte - 0x61 + 10)
    else if leb 0x41 byte && leb byte 0x46
    then some (byte - 0x41 + 10)
    else none

-- `out.push((high << 4) | low)`, on 8 bits, before the bytes that follow
unfoldable pub push_byte : Option ℕ → Option ℕ → Option (List ℕ) → Option (List ℕ)
push_byte (some high) (some low) (some out) = some (bit_or (high * 2 ^ 4 % 256) low ∷ out)
push_byte _ _ _ = none

-- The loop over pairs; a text of odd length does not come here.
unfoldable pub nibble_loop : List ℕ → Option (List ℕ)
nibble_loop [] = some []
nibble_loop (c ∷ []) = none
nibble_loop (c ∷ d ∷ hex) = push_byte (hex_nibble c) (hex_nibble d) (nibble_loop hex)

unfoldable pub hex_to_vec : List ℕ → Option (List ℕ)
hex_to_vec hex = if not (length hex % 2 == 0) then none else nibble_loop hex

unfoldable pub header_size : Option (List ℕ) → Outcome (Option ℕ)
header_size none = ok none
header_size (some bytes) =
    if ltb (length bytes) 16
    then ok none
    else (do uncompressed_size ← le_u64 bytes 8; ok (some uncompressed_size))

unfoldable pub decmpfs_uncompressed_size : List ℕ → Outcome (Option ℕ)
decmpfs_uncompressed_size payload_hex = header_size (hex_to_vec payload_hex)

-- `saturating_add` on 64 bits
abbrev pub saturating_add : ℕ → ℕ → ℕ
saturating_add a b = min (a + b) (2 ^ 64 - 1)

-- A division by zero panics in both branches.
unfoldable pub blocks_of : ℕ → ℕ → Outcome ℕ
blocks_of length_bytes block_size =
    if block_size == 0
    then panic
    else if length_bytes % block_size == 0
    then ok (length_bytes / block_size)
    else ok (length_bytes / block_size + 1)

-- `if p.refcnt > 0 { p.refcnt as u64 } else { 1 }`
unfoldable pub sharers : ℤ → ℕ
sharers (pos n) = if ltb 0 n then n else 1
sharers (negsuc n) = 1

-- `cursor` and `total`.
unfoldable pub fill_gap : ℕ → PhysExtRecord → ℕ × ℕ → ℕ × ℕ
fill_gap block_size p (cursor, total) =
    if ltb cursor p.paddr_first
    then (p.paddr_first, saturating_add total ((p.paddr_first - cursor) * block_size % 2 ^ 64))
    else (cursor, total)

unfoldable pub share_overlap : ℕ → ℕ → PhysExtRecord → ℕ × ℕ → ℕ × ℕ
share_overlap block_size fe_paddr_end p (cursor, total) =
    let overlap_start = max cursor p.paddr_first in
    let overlap_end = min fe_paddr_end ((p.paddr_first + p.length_blocks) % 2 ^ 64) in
    if ltb overlap_start overlap_end
    then (
      overlap_end,
      saturating_add total ((overlap_end - overlap_start) * block_size % 2 ^ 64 / sharers p.refcnt),
    )
    else (cursor, total)

unfoldable pub overlap_loop : ℕ → ℕ → List PhysExtRecord → ℕ × ℕ → ℕ × ℕ
overlap_loop block_size fe_paddr_end [] reached = reached
overlap_loop block_size fe_paddr_end (p ∷ phys) reached =
    let rest =
      overlap_loop block_size fe_paddr_end phys
        (share_overlap block_size fe_paddr_end p (fill_gap block_size p reached)) in
    if leb fe_paddr_end p.paddr_first then reached else rest

unfoldable pub count_tail : ℕ → ℕ → ℕ × ℕ → ℕ
count_tail block_size fe_paddr_end (cursor, total) =
    if ltb cursor fe_paddr_end
    then saturating_add total ((fe_paddr_end - cursor) * block_size % 2 ^ 64)
    else total

-- `&sorted_phys[start_index..]`
unfoldable pub slice_from : List PhysExtRecord → ℕ → Outcome (List PhysExtRecord)
slice_from phys start_index =
    if leb start_index (length phys) then ok (drop start_index phys) else panic

-- `partition_point` is the method of slices; its result is not specified where the slice is not
-- partitioned by the test.
module _ (partition_point : (PhysExtRecord → Bool) → List PhysExtRecord → ℕ) where
  unfoldable pub file_extent_dedup_bytes : FileExtentBody → List PhysExtRecord → ℕ → Outcome ℕ
  file_extent_dedup_bytes fe sorted_phys block_size = do
    length_blocks ← blocks_of fe.length_bytes block_size
    let fe_paddr_end = saturating_add fe.phys_block_num length_blocks
    phys ← slice_from sorted_phys (
        partition_point (λ p. leb ((p.paddr_first + p.length_blocks) % 2 ^ 64) fe.phys_block_num)
          sorted_phys)
    ok (
        count_tail block_size fe_paddr_end
          (overlap_loop block_size fe_paddr_end phys (fe.phys_block_num, 0)))

abbrev pub dt_dir : ℕ
dt_dir = 4

abbrev pub dt_reg : ℕ
dt_reg = 8

abbrev pub dt_lnk : ℕ
dt_lnk = 10

-- The parts of the index that the sizes read, each map as the function of its `get`.
pub record NamespaceIndex : Type 0 where
  pub inode_by_id : ℕ → Option InodeBody
  pub dstream_real_total : ℕ → Option ℕ
  pub dstream_refcnt : ℕ → Option ℕ
  pub extent_refs_available : Bool

-- `.filter(|r| *r > 0).unwrap_or(1)`
unfoldable pub refcnt_or_one : Option ℕ → ℕ
refcnt_or_one none = 1
refcnt_or_one (some r) = if ltb 0 r then r else 1

-- The share, with the residue for the inode whose id is that of the stream.
unfoldable pub share_of : ℕ → ℕ → Bool → ℕ
share_of dstream_total refcnt is_source =
    let share = dstream_total / refcnt in
    let residue = dstream_total - share * refcnt in if is_source then share + residue else share

unfoldable pub inode_share : NamespaceIndex → ℕ → Option InodeBody → Option ℕ
inode_share index file_id none = none
inode_share index file_id (some inode) = some (
    share_of (unwrap_or (index.dstream_real_total inode.private_id) 0)
      (refcnt_or_one (index.dstream_refcnt inode.private_id)) (file_id == inode.private_id))

unfoldable pub real_size : NamespaceIndex → ℕ → ℕ → Option ℕ
real_size index file_id entry_type =
    if not index.extent_refs_available
    then none
    else if entry_type == dt_lnk || entry_type == dt_dir
    then some 0
    else if entry_type == dt_reg
    then inode_share index file_id (index.inode_by_id file_id)
    else none

-- The attributes of an inode by name, a map as the function of its `get`.
abbrev pub Xattrs : Type 0
Xattrs = List ℕ → Option XattrBody

abbrev pub xattr_symlink_name : List ℕ
xattr_symlink_name =
    99 ∷ 111 ∷ 109 ∷ 46 ∷ 97 ∷ 112 ∷ 112 ∷ 108 ∷ 101 ∷ 46 ∷ 102 ∷ 115 ∷ 46 ∷ 115 ∷ 121 ∷ 109 ∷ 108
    ∷ 105 ∷ 110 ∷ 107 ∷ []

abbrev pub xattr_decmpfs_name : List ℕ
xattr_decmpfs_name =
    99 ∷ 111 ∷ 109 ∷ 46 ∷ 97 ∷ 112 ∷ 112 ∷ 108 ∷ 101 ∷ 46 ∷ 100 ∷ 101 ∷ 99 ∷ 109 ∷ 112 ∷ 102 ∷ 115
    ∷ []

abbrev pub xattr_rfork_name : List ℕ
xattr_rfork_name =
    99 ∷ 111 ∷ 109 ∷ 46 ∷ 97 ∷ 112 ∷ 112 ∷ 108 ∷ 101 ∷ 46 ∷ 82 ∷ 101 ∷ 115 ∷ 111 ∷ 117 ∷ 114 ∷ 99
    ∷ 101 ∷ 70 ∷ 111 ∷ 114 ∷ 107 ∷ []

-- `xattrs.and_then(|m| m.get(name))`
unfoldable pub find_xattr : Option Xattrs → List ℕ → Option XattrBody
find_xattr none name = none
find_xattr (some xattrs) name = xattrs name

-- `.as_ref().map(|d| d.alloced_size)`
unfoldable pub alloced : Option DstreamFields → Option ℕ
alloced none = none
alloced (some d) = some d.alloced_size

unfoldable pub stream_of : Option XattrBody → Option DstreamFields
stream_of none = none
stream_of (some x) = x.stream_dstream

-- `sparse_bytes` taken off, down to 0
unfoldable pub unsparse : Option ℕ → Option ℕ → Option ℕ
unsparse none size = size
unsparse (some sparse_bytes) none = none
unsparse (some sparse_bytes) (some size) = some (size - sparse_bytes)

unfoldable pub allocated_of_file : Option InodeBody → Option Xattrs → Option ℕ
allocated_of_file none xattrs = none
allocated_of_file (some inode) xattrs =
    if is_some (find_xattr xattrs xattr_decmpfs_name)
    then some (
        saturating_add
          (saturating_add (unwrap_or (alloced inode.dstream) 0)
            (unwrap_or (alloced (stream_of (find_xattr xattrs xattr_decmpfs_name))) 0))
          (unwrap_or (alloced (stream_of (find_xattr xattrs xattr_rfork_name))) 0))
    else unsparse inode.sparse_bytes (alloced inode.dstream)

unfoldable pub compute_allocated_size : ℕ → Option InodeBody → Option Xattrs → Option ℕ
compute_allocated_size entry_type inode xattrs =
    if entry_type == dt_lnk || entry_type == dt_dir
    then some 0
    else if entry_type == dt_reg
    then allocated_of_file inode xattrs
    else none

unfoldable pub push_front_trimmed : ℕ → List ℕ → List ℕ
push_front_trimmed c [] = if c == 0 then [] else c ∷ []
push_front_trimmed c (d ∷ text) = c ∷ d ∷ text

-- `trim_end_matches('\u{0}')`
unfoldable pub trim_end_nul : List ℕ → List ℕ
trim_end_nul [] = []
trim_end_nul (c ∷ text) = push_front_trimmed c (trim_end_nul text)

-- The size and the target of a link, from the text of its attribute.
unfoldable pub target_of_text : Option (List ℕ) → ℕ × Option (List ℕ)
target_of_text none = (0, none)
target_of_text (some text) = (length (trim_end_nul text), some (trim_end_nul text))

unfoldable pub target_of_link : Option XattrBody → ℕ × Option (List ℕ)
target_of_link none = (0, none)
target_of_link (some x) = if x.embedded then target_of_text x.payload_utf8 else (0, none)

unfoldable pub size_of_stream : Option DstreamFields → ℕ
size_of_stream none = 0
size_of_stream (some d) = d.size

unfoldable pub logical_size_of_file : InodeBody → Option XattrBody → Outcome ℕ
logical_size_of_file inode none = ok (size_of_stream inode.dstream)
logical_size_of_file inode (some decmpfs) =
    if inode.has_uncompressed_size || has_bit inode.internal_flags inode_has_uncompressed_size
    then ok inode.uncompressed_size
    else (do size ← decmpfs_uncompressed_size decmpfs.payload_hex; ok (unwrap_or size 0))

unfoldable pub logical_size_of_inode : Option InodeBody → Option XattrBody → Outcome ℕ
logical_size_of_inode none decmpfs = ok 0
logical_size_of_inode (some inode) decmpfs = logical_size_of_file inode decmpfs

-- `logical_size_and_target` of the inode and the attributes that the index has for the file.
unfoldable pub logical_size_and_target :
    ℕ → Option InodeBody → Option Xattrs → Outcome (ℕ × Option (List ℕ))
logical_size_and_target entry_type inode xattrs =
    if entry_type == dt_lnk
    then ok (target_of_link (find_xattr xattrs xattr_symlink_name))
    else if not (entry_type == dt_reg)
    then ok (0, none)
    else (do
      size ← logical_size_of_inode inode (find_xattr xattrs xattr_decmpfs_name)
      ok (size, none))
