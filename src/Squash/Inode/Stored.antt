-- ===== src/Squash/Inode/Stored.antt =====
-- Inodes as the image stores them, and what `readInode` of src/squashfs.js makes of them.
use noopsys.Base.{
  ℕ, ◌+◌, ◌^◌, ◌<◌, ◌≡◌, refl, ◌∙◌, Bool, true, false, List, [], ◌++◌, length, drop, some, bit_or,
  arith,
}
use noopsys.Base.Result.{ok, >>=-ok}
use noopsys.Squash.{Reader}
use noopsys.Squash.Parse.{
  advance, Parses, bytes16, bytes32, Parses-read16, Parses-read32, Parses-read_string, Parses-bind,
  Parses-pure,
}
use noopsys.Squash.Superblock.{Superblock}
use noopsys.Squash.Table.{Table}
use noopsys.Constants.{s_iflnk, s_ifreg, s_ifdir, s_ifchr, s_ifblk}
use noopsys.Squash.Inode.{
  Head, Directory, Inode, symlink, device, file, lreg, dir, ldir, read_head, read_symlink,
  read_device, read_dir, read_ldir, read_typed, seek_table, read_inode,
}

unfoldable pub encode_head : Head → List ℕ
encode_head h =
    bytes16 h.mode ++ (bytes16 h.uid ++ (bytes16 h.gid ++ (bytes32 h.mtime ++ bytes32 h.inode)))

pub record Fits (h : Head) : Type 0 where
  pub mode : h.mode < 2 ^ 16
  pub uid : h.uid < 2 ^ 16
  pub gid : h.gid < 2 ^ 16
  pub mtime : h.mtime < 2 ^ 32
  pub inode : h.inode < 2 ^ 32

pub Parses-read_head :
    (h : Head) (kind : ℕ)
    → Fits h
    → Parses (read_head kind) (encode_head h) (record h { mode = bit_or h.mode kind })
unfolding read_head encode_head
Parses-read_head h kind fits = Parses-bind _ (Parses-read16 h.mode fits.mode) (
    Parses-bind _ (Parses-read16 h.uid fits.uid) (
      Parses-bind _ (Parses-read16 h.gid fits.gid) (
        Parses-bind _ (Parses-read32 h.mtime fits.mtime)
          (Parses-pure _ (Parses-read32 h.inode fits.inode)))))

-- The fields of a directory in the order of its two forms.
pub record Spans (d : Directory) (size_bits : ℕ) : Type 0 where
  pub start_block : d.start_block < 2 ^ 32
  pub nlink : d.nlink < 2 ^ 32
  pub size : d.size < 2 ^ size_bits
  pub offset : d.offset < 2 ^ 16
  pub parent_inode : d.parent_inode < 2 ^ 32

-- The number before an inode of the image.
unfoldable pub stored_type : Inode → ℕ
stored_type (symlink _ _ _ _) = 3
stored_type (device _ true _ _) = 4
stored_type (device _ false _ _) = 5
stored_type (file _ _ _) = 2
stored_type (lreg _ _ _ _ _) = 9
stored_type (dir _ _) = 1
stored_type (ldir _ _ _ _) = 8

-- What follows that number. The contents of a file are elsewhere, so a file is not laid out here.
unfoldable pub encode_fields : Inode → List ℕ
encode_fields (symlink h nlink size target) =
    encode_head h ++ (bytes32 nlink ++ (bytes32 size ++ target))
encode_fields (device h _ nlink number) = encode_head h ++ (bytes32 nlink ++ bytes32 number)
encode_fields (dir h d) =
    encode_head h
    ++ (bytes32 d.start_block
        ++ (bytes32 d.nlink ++ (bytes16 d.size ++ (bytes16 d.offset ++ bytes32 d.parent_inode))))
encode_fields (ldir h d i_count xattr) =
    encode_head h
    ++ (bytes32 d.nlink
        ++ (bytes32 d.size
            ++ (bytes32 d.start_block
                ++ (bytes32 d.parent_inode
                    ++ (bytes16 i_count ++ (bytes16 d.offset ++ bytes32 xattr))))))
encode_fields (file _ _ _) = []
encode_fields (lreg _ _ _ _ _) = []

unfoldable pub encode_inode : Inode → List ℕ
encode_inode i = bytes16 (stored_type i) ++ encode_fields i

-- The inodes that the layout can hold: every number fits its field.
pub data IsStored : Inode → Type 0 where
  symlink_fits :
      (h : Head) (nlink : ℕ) (target : List ℕ)
      → Fits h
      → nlink < 2 ^ 32
      → length target < 2 ^ 32
      → IsStored (symlink h nlink (length target) target)
  device_fits :
      (h : Head) (is_block : Bool) (nlink number : ℕ)
      → Fits h
      → nlink < 2 ^ 32
      → number < 2 ^ 32
      → IsStored (device h is_block nlink number)
  dir_fits : (h : Head) (d : Directory) → Fits h → Spans d 16 → IsStored (dir h d)
  ldir_fits :
      (h : Head) (d : Directory) (i_count xattr : ℕ)
      → Fits h
      → Spans d 32
      → i_count < 2 ^ 16
      → xattr < 2 ^ 32
      → IsStored (ldir h d i_count xattr)

-- The inode in memory has the bits of its type in its mode.
abbrev pub typed : Head → ℕ → Head
typed h kind = record h { mode = bit_or h.mode kind }

unfoldable pub with_kind : Inode → Inode
with_kind (symlink h nlink size target) = symlink (typed h s_iflnk) nlink size target
with_kind (device h true nlink number) = device (typed h s_ifblk) true nlink number
with_kind (device h false nlink number) = device (typed h s_ifchr) false nlink number
with_kind (file h e contents) = file (typed h s_ifreg) e contents
with_kind (lreg h e sparse nlink xattr) = lreg (typed h s_ifreg) e sparse nlink xattr
with_kind (dir h d) = dir (typed h s_ifdir) d
with_kind (ldir h d i_count xattr) = ldir (typed h s_ifdir) d i_count xattr

Parses-read_typed :
    (sb : Superblock) (i : Inode)
    → IsStored i
    → Parses (read_typed sb (stored_type i)) (encode_fields i) (with_kind i)
unfolding read_typed stored_type encode_fields with_kind read_symlink read_device read_dir read_ldir
Parses-read_typed sb _ (symlink_fits h nlink target fits ln ls) =
    Parses-bind _ (Parses-read_head h s_iflnk fits) (
      Parses-bind _ (Parses-read32 nlink ln) (
        Parses-bind _ (Parses-read32 (length target) ls)
          (Parses-pure _ (Parses-read_string target))))
Parses-read_typed sb _ (device_fits h true nlink number fits ln ld) =
    Parses-bind _ (Parses-read_head h s_ifblk fits)
      (Parses-bind _ (Parses-read32 nlink ln) (Parses-pure _ (Parses-read32 number ld)))
Parses-read_typed sb _ (device_fits h false nlink number fits ln ld) =
    Parses-bind _ (Parses-read_head h s_ifchr fits)
      (Parses-bind _ (Parses-read32 nlink ln) (Parses-pure _ (Parses-read32 number ld)))
Parses-read_typed sb _ (dir_fits h d fits spans) = Parses-bind _ (Parses-read_head h s_ifdir fits) (
    Parses-bind _ (Parses-read32 d.start_block spans.start_block) (
      Parses-bind _ (Parses-read32 d.nlink spans.nlink) (
        Parses-bind _ (Parses-read16 d.size spans.size) (
          Parses-bind _ (Parses-read16 d.offset spans.offset)
            (Parses-pure _ (Parses-read32 d.parent_inode spans.parent_inode))))))
Parses-read_typed sb _ (ldir_fits h d i_count xattr fits spans li lx) =
    Parses-bind _ (Parses-read_head h s_ifdir fits) (
      Parses-bind _ (Parses-read32 d.nlink spans.nlink) (
        Parses-bind _ (Parses-read32 d.size spans.size) (
          Parses-bind _ (Parses-read32 d.start_block spans.start_block) (
            Parses-bind _ (Parses-read32 d.parent_inode spans.parent_inode) (
              Parses-bind _ (Parses-read16 i_count li) (
                Parses-bind _ (Parses-read16 d.offset spans.offset)
                  (Parses-pure _ (Parses-read32 xattr lx))))))))

small_type : (i : Inode) → stored_type i < 2 ^ 16
unfolding stored_type
small_type (symlink _ _ _ _) = omega arith
small_type (device _ true _ _) = omega arith
small_type (device _ false _ _) = omega arith
small_type (file _ _ _) = omega arith
small_type (lreg _ _ _ _ _) = omega arith
small_type (dir _ _) = omega arith
small_type (ldir _ _ _ _) = omega arith

-- An inode other than a file's that the inode table holds, at the offset of a block that the
-- table's hash knows, is read back with the bits of its type in its mode. The cursor ends in the
-- table after the inode, and the image is the same.
pub read_inode-encode_inode :
    (sb : Superblock) (table : Table) (i : Inode) (block offset at : ℕ) (rest : List ℕ) (r : Reader)
    → IsStored i
    → table.hash (sb.inode_table_start + block) ≡ some at
    → drop (at + offset) table.bytes ≡ encode_inode i ++ rest
    → read_inode sb table (block, offset) r
      ≡ ok (
        with_kind i,
        record {
          data_bytes = r.data_bytes;
          buffer = table.bytes;
          offset = at + offset + length (encode_inode i);
          next_block = r.next_block;
        },
      )
unfolding read_inode encode_inode seek_table advance
read_inode-encode_inode sb table i block offset at rest r stored known laid =
    let p =
      Parses-bind (read_typed sb) (Parses-read16 (stored_type i) (small_type i))
        (Parses-read_typed sb i stored) in
    let here : Reader = record {
      data_bytes = r.data_bytes;
      buffer = table.bytes;
      offset = at + offset;
      next_block = r.next_block;
    } in
    >>=-ok (seek_table table (sb.inode_table_start + block) offset) _ r here tt
      (rw (seek_table, known) refl)
    ∙ p.runs here rest laid
