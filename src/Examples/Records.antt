-- ===== src/Examples/Records.antt =====
-- Records on which the theorems on record bodies are tried.
use apfs_fastindex.Base.{
  ℕ, ◌≡◌, ◌↔◌, refl, Bool, true, ◌&&◌, Option, none, some, List, [], ◌∷◌, ltb, All, if◌then◌else◌,
  arith,
}
use apfs_fastindex.Base.Int.{pos}
use apfs_fastindex.Outcome.{ok, Returns, Settles}
use apfs_fastindex.BlockIo.{IsByte}
use apfs_fastindex.RecordBody.{decode_name, to_hex}
use apfs_fastindex.RecordBody.Names.{IsName, from_hex, decode_name-IsName, from_hex-to_hex}
use apfs_fastindex.RecordBody.Xfields.{XfieldContext, XfieldResult, decode_xfields}
use apfs_fastindex.RecordBody.Xfields.Walk.{AreXfields}
use apfs_fastindex.RecordBody.Xfields.Accepted.{decode_xfields_iff}
use apfs_fastindex.RecordBody.Keys.{decode_key}
use apfs_fastindex.RecordBody.Keys.Fits.{KeyFits, decode_key-KeyFits}
use apfs_fastindex.RecordBody.Values.{decode_inode, decode_drec, decode_xattr}
use apfs_fastindex.RecordBody.Values.Bodies.{
  IsInode, IsDirRec, decode_inode-IsInode, decode_drec-IsDirRec,
}
use apfs_fastindex.RecordBody.Values.Xattr.{IsXattr, DescribesXattr, decode_xattr-IsXattr}
use apfs_fastindex.RecordBody.Row.{decode_fs_record}
use apfs_fastindex.RecordBody.Row.Total.{IsRow, decode_fs_record-IsRow}
use apfs_fastindex.Examples.Sources.{bytes_by_test}

abbrev is_ascii : List ℕ → Bool
is_ascii [] = true
is_ascii (b ∷ bytes) = ltb b 128 && is_ascii bytes

-- A `from_utf8` that knows the texts of seven bits, which are their own bytes.
abbrev pub ascii : List ℕ → Option (List ℕ)
ascii bytes = if is_ascii bytes then some bytes else none

-- An entry "a" of directory 2, with its hash and a NUL.
abbrev pub entry_key : List ℕ
entry_key = 2 ∷ 0 ∷ 0 ∷ 0 ∷ 0 ∷ 0 ∷ 0 ∷ 144 ∷ 2 ∷ 208 ∷ 72 ∷ 0 ∷ 97 ∷ 0 ∷ []

-- It leads to the regular file 5.
abbrev pub entry_value : List ℕ
entry_value = 5 ∷ 0 ∷ 0 ∷ 0 ∷ 0 ∷ 0 ∷ 0 ∷ 0 ∷ 0 ∷ 0 ∷ 0 ∷ 0 ∷ 0 ∷ 0 ∷ 0 ∷ 0 ∷ 8 ∷ 0 ∷ []

abbrev pub inode_key : List ℕ
inode_key = 5 ∷ 0 ∷ 0 ∷ 0 ∷ 0 ∷ 0 ∷ 0 ∷ 48 ∷ []

-- The inode of the file: of directory 2, with a data stream of ten bytes and seven sparse ones.
abbrev pub inode_value : List ℕ
inode_value =
    2 ∷ 0 ∷ 0 ∷ 0 ∷ 0 ∷ 0 ∷ 0 ∷ 0 ∷ 5 ∷ 0 ∷ 0 ∷ 0 ∷ 0 ∷ 0 ∷ 0 ∷ 0 ∷ 0 ∷ 0 ∷ 0 ∷ 0 ∷ 0 ∷ 0 ∷ 0 ∷ 0
    ∷ 0 ∷ 0 ∷ 0 ∷ 0 ∷ 0 ∷ 0 ∷ 0 ∷ 0 ∷ 0 ∷ 0 ∷ 0 ∷ 0 ∷ 0 ∷ 0 ∷ 0 ∷ 0 ∷ 0 ∷ 0 ∷ 0 ∷ 0 ∷ 0 ∷ 0 ∷ 0 ∷ 0
    ∷ 0 ∷ 0 ∷ 0 ∷ 0 ∷ 0 ∷ 0 ∷ 0 ∷ 0 ∷ 255 ∷ 255 ∷ 255 ∷ 255 ∷ 0 ∷ 0 ∷ 0 ∷ 0 ∷ 0 ∷ 0 ∷ 0 ∷ 0 ∷ 0 ∷ 0
    ∷ 0 ∷ 0 ∷ 0 ∷ 0 ∷ 0 ∷ 0 ∷ 0 ∷ 0 ∷ 0 ∷ 0 ∷ 164 ∷ 129 ∷ 0 ∷ 0 ∷ 0 ∷ 0 ∷ 0 ∷ 0 ∷ 0 ∷ 0 ∷ 0 ∷ 0 ∷ 2
    ∷ 0 ∷ 48 ∷ 0 ∷ 8 ∷ 0 ∷ 40 ∷ 0 ∷ 13 ∷ 0 ∷ 8 ∷ 0 ∷ 10 ∷ 0 ∷ 0 ∷ 0 ∷ 0 ∷ 0 ∷ 0 ∷ 0 ∷ 0 ∷ 16 ∷ 0 ∷ 0
    ∷ 0 ∷ 0 ∷ 0 ∷ 0 ∷ 0 ∷ 0 ∷ 0 ∷ 0 ∷ 0 ∷ 0 ∷ 0 ∷ 0 ∷ 0 ∷ 0 ∷ 0 ∷ 0 ∷ 0 ∷ 0 ∷ 0 ∷ 0 ∷ 0 ∷ 0 ∷ 0 ∷ 0
    ∷ 0 ∷ 0 ∷ 0 ∷ 0 ∷ 7 ∷ 0 ∷ 0 ∷ 0 ∷ 0 ∷ 0 ∷ 0 ∷ 0 ∷ []

-- Its extended fields.
abbrev pub inode_blob : List ℕ
inode_blob =
    2 ∷ 0 ∷ 48 ∷ 0 ∷ 8 ∷ 0 ∷ 40 ∷ 0 ∷ 13 ∷ 0 ∷ 8 ∷ 0 ∷ 10 ∷ 0 ∷ 0 ∷ 0 ∷ 0 ∷ 0 ∷ 0 ∷ 0 ∷ 0 ∷ 16 ∷ 0
    ∷ 0 ∷ 0 ∷ 0 ∷ 0 ∷ 0 ∷ 0 ∷ 0 ∷ 0 ∷ 0 ∷ 0 ∷ 0 ∷ 0 ∷ 0 ∷ 0 ∷ 0 ∷ 0 ∷ 0 ∷ 0 ∷ 0 ∷ 0 ∷ 0 ∷ 0 ∷ 0 ∷ 0
    ∷ 0 ∷ 0 ∷ 0 ∷ 0 ∷ 0 ∷ 7 ∷ 0 ∷ 0 ∷ 0 ∷ 0 ∷ 0 ∷ 0 ∷ 0 ∷ []

-- An attribute of three bytes.
abbrev pub xattr_value : List ℕ
xattr_value = 2 ∷ 0 ∷ 3 ∷ 0 ∷ 120 ∷ 121 ∷ 122 ∷ []

pub entry_key-bytes : All IsByte entry_key
entry_key-bytes = bytes_by_test entry_key refl

pub entry_value-bytes : All IsByte entry_value
entry_value-bytes = bytes_by_test entry_value refl

inode_key-bytes : All IsByte inode_key
inode_key-bytes = bytes_by_test inode_key refl

inode_value-bytes : All IsByte inode_value
inode_value-bytes = bytes_by_test inode_value refl

inode_blob-bytes : All IsByte inode_blob
inode_blob-bytes = bytes_by_test inode_blob refl

xattr_value-bytes : All IsByte xattr_value
xattr_value-bytes = bytes_by_test xattr_value refl

decode_name-IsName_example :
    Settles
      (IsName ascii (97 ∷ 0 ∷ []))
      (¬ ((name : List ℕ) × IsName ascii (97 ∷ 0 ∷ []) name))
      (decode_name ascii (97 ∷ 0 ∷ []))
decode_name-IsName_example = decode_name-IsName ascii (97 ∷ 0 ∷ [])

from_hex-to_hex_example : from_hex (to_hex xattr_value) ≡ some xattr_value
from_hex-to_hex_example = from_hex-to_hex xattr_value xattr_value-bytes

abbrev no_fields : XfieldResult
no_fields = record {
  fields = [];
  xf_used_data = 0;
  padded_total = 0;
  unused_trailing_bytes = pos 0;
}

decode_xfields_iff_example :
    ((decode_xfields ascii XfieldContext.inode inode_blob ≡ ok no_fields)
      ↔ AreXfields ascii XfieldContext.inode inode_blob no_fields)
    × Returns (decode_xfields ascii XfieldContext.inode inode_blob)
decode_xfields_iff_example =
    decode_xfields_iff ascii XfieldContext.inode inode_blob inode_blob-bytes (omega arith) no_fields

decode_key-KeyFits_example : Settles (KeyFits ascii 9 entry_key) Unit (decode_key ascii 9 entry_key)
decode_key-KeyFits_example = decode_key-KeyFits ascii 9 entry_key

decode_xattr-IsXattr_example :
    Settles
      (λ body.
        IsXattr ascii xattr_value xattr_value-bytes
        × DescribesXattr ascii xattr_value xattr_value-bytes body)
      (¬ IsXattr ascii xattr_value xattr_value-bytes)
      (decode_xattr ascii xattr_value)
decode_xattr-IsXattr_example = decode_xattr-IsXattr ascii xattr_value xattr_value-bytes

decode_inode-IsInode_example :
    Settles (IsInode ascii inode_value inode_value-bytes) Unit (decode_inode ascii inode_value)
decode_inode-IsInode_example = decode_inode-IsInode ascii inode_value inode_value-bytes

decode_drec-IsDirRec_example :
    Settles (IsDirRec ascii entry_value entry_value-bytes) Unit (decode_drec ascii entry_value)
decode_drec-IsDirRec_example = decode_drec-IsDirRec ascii entry_value entry_value-bytes

decode_fs_record-IsRow_example :
    Settles
      (IsRow ascii 7 1 inode_key inode_value inode_key-bytes inode_value-bytes)
      Unit
      (decode_fs_record ascii 7 1 inode_key inode_value)
decode_fs_record-IsRow_example =
    decode_fs_record-IsRow ascii 7 1 inode_key inode_value inode_key-bytes inode_value-bytes
