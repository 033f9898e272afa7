-- ===== src/Squash/Tests.antt =====
-- Runs of the readers of src/squashfs.js on small images.
use noopsys.Base.{
  ℕ, ◌+◌, ◌≡◌, refl, none, some, List, [], ◌∷◌, ◌++◌, length, replicate, update, arith,
}
use noopsys.Base.Result.{ok}
use noopsys.Squash.{Reader, new_reader}
use noopsys.Squash.Superblock.{Superblock}
use noopsys.Squash.Parse.{bytes16, bytes32, encode_words}
use noopsys.Squash.Table.{Table, read_table}
use noopsys.Squash.Table.Layout.{encode_block, encode_blocks, concat, no_blocks, block}
use noopsys.Squash.Table.RoundTrip.{read_table-encode_blocks}
use noopsys.Squash.Inode.{Head, Directory, Inode, symlink, read_inode}
use noopsys.Squash.Inode.Stored.{
  encode_inode, IsStored, with_kind, symlink_fits, read_inode-encode_inode,
}
use noopsys.Squash.Directory.{Mounted, Child, same_name, read_entries}
use noopsys.Squash.Directory.Named.{find_file}
use noopsys.Squash.Directory.Stored.{
  Entry, Run, last_of, encode_run, encode_entries, encode_entry, no_entries, entry,
}
use noopsys.Squash.Directory.RoundTrip.{
  encode_runs, entries_of, no_runs, one_run, read_entries-encode_runs,
}
use noopsys.Squash.Ids.{read_id_table}
use noopsys.Squash.Ids.Stored.{encode_offset, read_id_table-full}

-- Two blocks between other bytes.
abbrev two_blocks : List (List ℕ)
two_blocks = (1 ∷ (2 ∷ [])) ∷ ((3 ∷ (4 ∷ (5 ∷ []))) ∷ [])

abbrev table_image : Reader
table_image = new_reader ((9 ∷ []) ++ (encode_blocks two_blocks ++ (7 ∷ [])))

read_table-encode_blocks_example :
    (t : Table) × (s : Reader) × (read_table 2 1 (1 + length (encode_blocks two_blocks)) table_image
      ≡ ok (t, s))
    × (t.bytes ≡ concat two_blocks)
    × (t.hash (1 + length (encode_blocks ((1 ∷ (2 ∷ [])) ∷ [])))
        ≡ some (length (concat ((1 ∷ (2 ∷ [])) ∷ []))))
unfolding new_reader
read_table-encode_blocks_example =
    read_table-encode_blocks ((1 ∷ (2 ∷ [])) ∷ []) (3 ∷ (4 ∷ (5 ∷ []))) [] (9 ∷ []) (7 ∷ []) 2
      table_image (block _ _ (omega arith) (block _ _ (omega arith) no_blocks)) (omega arith) refl

-- A file of five bytes in two blocks of three.
abbrev file_image : Reader
file_image = new_reader (9 ∷ (10 ∷ (11 ∷ (12 ∷ (13 ∷ (14 ∷ (15 ∷ [])))))))

-- A symbolic link to `sh`, behind four other bytes of the inode table.
abbrev head : Head
head = record { mode = 0x1ff; uid = 0; gid = 0; mtime = 1000; inode = 7 }

abbrev link : Inode
link = symlink head 1 2 (115 ∷ (104 ∷ []))

abbrev superblock : Superblock
superblock = record {
  inodes = 2;
  mkfs_time = 0;
  block_size = 0x20000;
  fragments = 0;
  compression = 1;
  block_log = 17;
  flags = 0;
  no_ids = 2;
  root_inode = (0, 0);
  bytes_used = 200;
  id_table_start = 0;
  xattr_table_start = 0xffff_ffff;
  inode_table_start = 96;
  directory_table_start = 150;
  fragment_table_start = 180;
  lookup_table_start = 0xffff_ffff;
  directory_table_end = 180;
}

abbrev inode_table : Table
inode_table = record {
  bytes = 0 ∷ (0 ∷ (0 ∷ (0 ∷ (encode_inode link ++ []))));
  hash = update (λ _. none) 96 (some 0);
}

link_IsStored : IsStored link
link_IsStored =
    symlink_fits head 1 (115 ∷ (104 ∷ []))
      (record {
        mode = omega arith;
        uid = omega arith;
        gid = omega arith;
        mtime = omega arith;
        inode = omega arith;
      })
      (omega arith) (omega arith)

read_inode-encode_inode_example :
    read_inode superblock inode_table (0, 4) file_image
    ≡ ok (
      with_kind link,
      record {
        data_bytes = file_image.data_bytes;
        buffer = inode_table.bytes;
        offset = 0 + 4 + length (encode_inode link);
        next_block = file_image.next_block;
      },
    )
read_inode-encode_inode_example =
    read_inode-encode_inode superblock inode_table link 0 4 0 [] file_image link_IsStored refl refl

-- A directory of one entry, `sh`, which is that link.
abbrev link_entry : Entry
link_entry = record {
  first = 115;
  others = 104 ∷ [];
  offset = 4;
  number = 0;
  kind = 3;
  node = link;
}

abbrev link_run : Run
link_run = record { start_block = 0; number = 7; entry = link_entry; entries = [] }

abbrev directory : Directory
directory = record { start_block = 0; nlink = 2; size = 25; offset = 0; parent_inode = 1 }

abbrev mounted : Mounted
mounted = record {
  superblock = superblock;
  inode_table = inode_table;
  directory_table = record {
    bytes = encode_runs (link_run ∷ []) ++ [];
    hash = update (λ _. none) 150 (some 0);
  };
}

read_entries-encode_runs_example :
    (files : List (List ℕ × Child)) × (s : Reader) × (read_entries mounted directory file_image
      ≡ ok (files, s))
    × ((name : List ℕ)
        → find_file name files ≡ last_of directory name (entries_of (link_run ∷ [])) none)
unfolding encode_runs encode_run bytes32 encode_entries encode_entry bytes16
read_entries-encode_runs_example =
    read_entries-encode_runs mounted directory link_run [] 0 [] file_image
      (one_run link_run []
        (record {
          count = omega arith;
          start_block = omega arith;
          number = omega arith;
          sound =
              entry link_entry []
                (record {
                  offset = omega arith;
                  number = omega arith;
                  kind = omega arith;
                  short = omega arith;
                  own = unfold same_name in refl;
                  stored = link_IsStored;
                  at = 0;
                  rest = [];
                  known = refl;
                  held = refl;
                })
                no_entries;
        })
        no_runs)
      refl refl refl

-- One number in the table of identities, and a table of 2048 that are all 0.
abbrev id_image : Reader
id_image = new_reader (encode_offset 8 ++ (encode_block (encode_words (1000 ∷ [])) ++ []))

abbrev full_image : Reader
full_image = new_reader (encode_offset 8 ++ (encode_block (encode_words (replicate 2048 0)) ++ []))

read_id_table-full_example :
    (s : Reader) × (read_id_table
        (record superblock { no_ids = 2048; id_table_start = 0 })
        full_image
      ≡ ok ([], s))
unfolding new_reader encode_offset bytes32
read_id_table-full_example =
    read_id_table-full (record superblock { no_ids = 2048; id_table_start = 0 }) (replicate 2048 0)
      (encode_offset 8) [] (encode_block (encode_words (replicate 2048 0)) ++ []) full_image refl
      refl (omega arith) refl refl
