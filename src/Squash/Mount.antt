-- ===== src/Squash/Mount.antt =====
-- `new SquashFS(inputdata)` of src/squashfs.js.
use noopsys.Base.{ℕ, ◌==◌, ◌&&◌, not, List}
use noopsys.Base.Result.{Result, bad_root, Action, pure, throw, ◌>>=◌, ◌>>◌, throw_if}
use noopsys.Squash.{Reader, new_reader}
use noopsys.Squash.Superblock.{read_superblock}
use noopsys.Squash.Table.{read_table}
use noopsys.Squash.Ids.{read_id_table}
use noopsys.Squash.Inode.{
  Inode, symlink, device, file, lreg, dir, ldir, inode_type, squashfs_dir_type, squashfs_ldir_type,
  read_inode,
}
use noopsys.Squash.Directory.{Mounted, Child, read_entries}

pub record FileSystem : Type 0 where
  pub mounted : Mounted
  pub id_table : List ℕ
  pub root : Inode
  pub children : List (List ℕ × Child)

-- `readEntries` of a directory's inode. Another inode has no such method.
unfoldable pub entries_of : Mounted → Inode → Action Reader (List (List ℕ × Child))
entries_of fs (dir _ this) = read_entries fs this
entries_of fs (ldir _ this _ _) = read_entries fs this
entries_of fs (symlink _ _ _ _) = throw bad_root
entries_of fs (device _ _ _ _) = throw bad_root
entries_of fs (file _ _ _) = throw bad_root
entries_of fs (lreg _ _ _ _ _) = throw bad_root

-- The constructor, with `n` rounds for the loops over the tables' blocks. The entries `.` and `..` of
-- the root, which are the root itself, are left out.
unfoldable pub mount : ℕ → List ℕ → Result (FileSystem × Reader)
mount n image =
    (do
      sb ← read_superblock
      ids ← read_id_table sb
      inodes ← read_table n sb.inode_table_start sb.directory_table_start
      directories ← read_table n sb.directory_table_start sb.directory_table_end
      root ← read_inode sb inodes sb.root_inode
      throw_if
          (not (inode_type root == squashfs_dir_type)
            && not (inode_type root == squashfs_ldir_type))
          bad_root
      children ←
          entries_of
            (record { superblock = sb; inode_table = inodes; directory_table = directories }) root
      pure record {
        mounted = record { superblock = sb; inode_table = inodes; directory_table = directories };
        id_table = ids;
        root = root;
        children = children;
      })
      (new_reader image)
