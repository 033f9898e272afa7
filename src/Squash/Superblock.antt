-- ===== src/Squash/Superblock.antt =====
-- `SquashFS_superblock` of src/squashfs.js.
use noopsys.Base.{ℕ, not, ◌||◌, ◌==◌}
use noopsys.Base.Result.{bad_magic, bad_version, Action, pure, ◌>>=◌, ◌>>◌, throw_if}
use noopsys.Squash.{Reader, read16, read32, read64, read_inode_id}

abbrev pub squashfs_magic : ℕ
squashfs_magic = 0x7371_7368

pub record Superblock : Type 0 where
  pub inodes : ℕ
  pub mkfs_time : ℕ
  pub block_size : ℕ
  pub fragments : ℕ
  pub compression : ℕ
  pub block_log : ℕ
  pub flags : ℕ
  pub no_ids : ℕ
  pub root_inode : ℕ × ℕ
  pub bytes_used : ℕ
  pub id_table_start : ℕ
  pub xattr_table_start : ℕ
  pub inode_table_start : ℕ
  pub directory_table_start : ℕ
  pub fragment_table_start : ℕ
  pub lookup_table_start : ℕ
  pub directory_table_end : ℕ

unfoldable pub read_superblock : Action Reader Superblock
unfolding read16 read32 read64 read_inode_id
read_superblock = do
  magic ← read32
  throw_if (not (magic == squashfs_magic)) bad_magic
  inodes ← read32
  mkfs_time ← read32
  block_size ← read32
  fragments ← read32
  compression ← read16
  block_log ← read16
  flags ← read16
  no_ids ← read16
  s_major ← read16
  s_minor ← read16
  root_inode ← read_inode_id
  bytes_used ← read64
  id_table_start ← read64
  xattr_table_start ← read64
  inode_table_start ← read64
  directory_table_start ← read64
  fragment_table_start ← read64
  lookup_table_start ← read64
  throw_if (not (s_major == 4) || not (s_minor == 0)) bad_version
  pure record {
    inodes = inodes;
    mkfs_time = mkfs_time;
    block_size = block_size;
    fragments = fragments;
    compression = compression;
    block_log = block_log;
    flags = flags;
    no_ids = no_ids;
    root_inode = root_inode;
    bytes_used = bytes_used;
    id_table_start = id_table_start;
    xattr_table_start = xattr_table_start;
    inode_table_start = inode_table_start;
    directory_table_start = directory_table_start;
    fragment_table_start = fragment_table_start;
    lookup_table_start = lookup_table_start;
    directory_table_end = fragment_table_start;
  }
