-- ===== src/Squash/Inode.antt =====
-- The inodes of src/squashfs.js: the `SquashFS…Inode` functions and `readInode`.

pub mod Stored
use noopsys.Base.{
  ℕ, ◌+◌, ◌/◌, ◌%◌, ◌^◌, Bool, true, false, Option, none, some, List, ◌==◌, if◌then◌else◌, bit_or,
  min,
}
use noopsys.Base.Result.{
  Error, unknown_block, bad_inode_type, Action, pure, throw, ◌>>=◌, ◌>>◌, Result, ok, err,
}
use noopsys.Constants.{s_iflnk, s_ifreg, s_ifdir, s_ifchr, s_ifblk}
use noopsys.Squash.{Reader, read16, read32, read_words, read_string}
use noopsys.Squash.Superblock.{Superblock}
use noopsys.Squash.Table.{Table}
use noopsys.Squash.Block.{block_count, block_count_signed, read_contents}

abbrev pub squashfs_dir_type : ℕ
squashfs_dir_type = 1

abbrev pub squashfs_file_type : ℕ
squashfs_file_type = 2

abbrev pub squashfs_symlink_type : ℕ
squashfs_symlink_type = 3

abbrev pub squashfs_blkdev_type : ℕ
squashfs_blkdev_type = 4

abbrev pub squashfs_chrdev_type : ℕ
squashfs_chrdev_type = 5

abbrev pub squashfs_ldir_type : ℕ
squashfs_ldir_type = 8

abbrev pub squashfs_lreg_type : ℕ
squashfs_lreg_type = 9

-- `SquashFSInode`, the fields that every inode begins with.
pub record Head : Type 0 where
  pub mode : ℕ
  pub uid : ℕ
  pub gid : ℕ
  pub mtime : ℕ
  pub inode : ℕ

-- What a directory's entries are read from, with its parent.
pub record Directory : Type 0 where
  pub start_block : ℕ
  pub nlink : ℕ
  pub size : ℕ
  pub offset : ℕ
  pub parent_inode : ℕ

-- Where a file's blocks are.
pub record Extent : Type 0 where
  pub start_block : ℕ
  pub fragment : ℕ
  pub offset : ℕ
  pub size : ℕ
  pub block_list : List ℕ

pub data Inode : Type 0 where
  symlink : Head → (nlink size : ℕ) → (target : List ℕ) → Inode
  device : Head → (is_block : Bool) → (nlink number : ℕ) → Inode
  file : Head → Extent → (contents : List ℕ) → Inode
  lreg : Head → Extent → (sparse nlink xattr : ℕ) → Inode
  dir : Head → Directory → Inode
  ldir : Head → Directory → (i_count xattr : ℕ) → Inode

-- The field `inode_type` that each of the functions sets.
unfoldable pub inode_type : Inode → ℕ
inode_type (symlink _ _ _ _) = squashfs_dir_type
inode_type (device _ true _ _) = squashfs_blkdev_type
inode_type (device _ false _ _) = squashfs_chrdev_type
inode_type (file _ _ _) = squashfs_file_type
inode_type (lreg _ _ _ _ _) = squashfs_lreg_type
inode_type (dir _ _) = squashfs_dir_type
inode_type (ldir _ _ _ _) = squashfs_ldir_type

-- The head, with the bits `kind` that the function puts in the mode.
unfoldable pub read_head : ℕ → Action Reader Head
read_head kind = do
  mode ← read16
  uid ← read16
  gid ← read16
  mtime ← read32
  inode ← read32
  pure record { mode = bit_or mode kind; uid = uid; gid = gid; mtime = mtime; inode = inode }

unfoldable pub read_symlink : Action Reader Inode
read_symlink = do
  head ← read_head s_iflnk
  nlink ← read32
  size ← read32
  target ← read_string size
  pure (symlink head nlink size target)

unfoldable pub read_device : Bool → Action Reader Inode
read_device is_block = do
  head ← read_head (if is_block then s_ifblk else s_ifchr)
  nlink ← read32
  number ← read32
  pure (device head is_block nlink number)

unfoldable pub read_file : Superblock → Action Reader Inode
read_file sb = do
  head ← read_head s_ifreg
  start_block ← read32
  fragment ← read32
  offset ← read32
  size ← read32
  blocks ← read_words (block_count size sb.block_size sb.block_log)
  contents ← read_contents start_block sb.block_size size blocks
  pure (
      file head
        (record {
          start_block = start_block;
          fragment = fragment;
          offset = offset;
          size = size;
          block_list = blocks;
        })
        contents)

unfoldable pub read_lreg : Superblock → Action Reader Inode
read_lreg sb = do
  head ← read_head s_ifreg
  start_block ← read32
  size ← read32
  sparse ← read32
  nlink ← read32
  fragment ← read32
  offset ← read32
  xattr ← read32
  blocks ← read_words (block_count_signed size sb.block_size sb.block_log)
  pure (
      lreg head
        (record {
          start_block = start_block;
          fragment = fragment;
          offset = offset;
          size = size;
          block_list = blocks;
        })
        sparse nlink xattr)

unfoldable pub read_dir : Action Reader Inode
read_dir = do
  head ← read_head s_ifdir
  start_block ← read32
  nlink ← read32
  size ← read16
  offset ← read16
  parent_inode ← read32
  pure (
      dir head (record {
        start_block = start_block;
        nlink = nlink;
        size = size;
        offset = offset;
        parent_inode = parent_inode;
      }))

unfoldable pub read_ldir : Action Reader Inode
read_ldir = do
  head ← read_head s_ifdir
  nlink ← read32
  size ← read32
  start_block ← read32
  parent_inode ← read32
  i_count ← read16
  offset ← read16
  xattr ← read32
  pure (
      ldir head
        (record {
          start_block = start_block;
          nlink = nlink;
          size = size;
          offset = offset;
          parent_inode = parent_inode;
        })
        i_count xattr)

-- The `switch` of `readInode`.
unfoldable pub read_typed : Superblock → ℕ → Action Reader Inode
read_typed sb kind =
    if kind == squashfs_dir_type
    then read_dir
    else if kind == squashfs_file_type
    then read_file sb
    else if kind == squashfs_symlink_type
    then read_symlink
    else if kind == squashfs_blkdev_type
    then read_device true
    else if kind == squashfs_chrdev_type
    then read_device false
    else if kind == squashfs_ldir_type
    then read_ldir
    else if kind == squashfs_lreg_type
    then read_lreg sb
    else throw bad_inode_type

-- The cursor at a block of a table and an offset in it: the hash knows where the block begins.
unfoldable pub seek_table : Table → (block offset : ℕ) → Action Reader (Unit {0})
seek_table table block offset r = elim (table.hash block) [
  | none ↦ err unknown_block
  | some start ↦ ok (
    tt,
    record {
      data_bytes = r.data_bytes;
      buffer = table.bytes;
      offset = start + offset;
      next_block = r.next_block;
    },
  )
]

unfoldable pub read_inode : Superblock → Table → ℕ × ℕ → Action Reader Inode
read_inode sb table (block, offset) = do
  seek_table table (sb.inode_table_start + block) offset
  kind ← read16
  read_typed sb kind
