-- ===== src/Squash/Directory.antt =====
-- The entries of a directory: `readEntries` of src/squashfs.js.
pub mod Named
pub mod Stored
pub mod RoundTrip
use noopsys.Base.{
  ℕ, zero, suc, ◌+◌, ◌-◌, Bool, true, false, List, [], ◌∷◌, ltb, ◌==◌, ◌&&◌, if◌then◌else◌,
}
use noopsys.Base.Result.{
  Result, ok, err, bad_directory, Action, pure, throw, ◌>>=◌, ◌>>◌, gets, modify,
}
use noopsys.Squash.{Reader, read16, read32, read_string}
use noopsys.Squash.Superblock.{Superblock}
use noopsys.Squash.Table.{Table}
use noopsys.Squash.Inode.{Inode, Directory, seek_table, read_inode}

-- A file system whose tables have been read.
pub record Mounted : Type 0 where
  pub superblock : Superblock
  pub inode_table : Table
  pub directory_table : Table

-- A value of `files`, with the directory that `parent` points to.
pub record Child : Type 0 where
  pub node : Inode
  pub parent : Directory

-- The names of an object's properties, compared.
unfoldable pub same_name : List ℕ → List ℕ → Bool
same_name [] [] = true
same_name [] (_ ∷ _) = false
same_name (_ ∷ _) [] = false
same_name (c ∷ cs) (d ∷ ds) = (c == d) && same_name cs ds

-- `__proto__`
abbrev pub proto : List ℕ
proto = 95 ∷ 95 ∷ 112 ∷ 114 ∷ 111 ∷ 116 ∷ 111 ∷ 95 ∷ 95 ∷ []

-- A child under a name of the object's own, which replaces a child of the same name.
unfoldable pub put_own : List ℕ → Child → List (List ℕ × Child) → List (List ℕ × Child)
put_own name child [] = (name, child) ∷ []
put_own name child ((other, old) ∷ files) =
    let rest = put_own name child files in
    if same_name name other then (other, child) ∷ files else (other, old) ∷ rest

-- `files[filename] = child`. The list stands for the map from the object's own names: `Object.keys`
-- puts names that look like array indices first, and the list does not. Under `__proto__` no name is
-- stored; that it sets the prototype, from which the object inherits, is left out.
unfoldable pub put : List ℕ → Child → List (List ℕ × Child) → List (List ℕ × Child)
put name child files = if same_name name proto then files else put_own name child files

-- One entry: its name, its child and the bytes that it takes. Reading the inode moves the cursor
-- to the inode table, and the cursor comes back.
unfoldable pub read_entry :
    Mounted → Directory → (start_block : ℕ) → Action Reader (List ℕ × Child × ℕ)
read_entry fs this start_block = do
  offset ← read16
  inode_number ← read16
  kind ← read16
  size ← read16
  name ← read_string (size + 1)
  old ← gets λ r. r
  node ← read_inode fs.superblock fs.inode_table (start_block, offset)
  modify λ r. record r { buffer = old.buffer; offset = old.offset }
  pure (name, record { node = node; parent = this }, 8 + size + 1)

-- The inner loop: `count` entries, after `bytes` bytes.
unfoldable pub read_run :
    Mounted
    → Directory
    → (start_block count bytes : ℕ) → List (List ℕ × Child)
    → Action Reader (ℕ × List (List ℕ × Child))
read_run fs this start_block zero bytes files = pure (bytes, files)
read_run fs this start_block (suc n) bytes files = do
  (name, child, used) ← read_entry fs this start_block
  read_run fs this start_block n (bytes + used) (put name child files)

-- A header, and the entries that it counts.
unfoldable pub read_headed :
    Mounted
    → Directory
    → (bytes : ℕ) → List (List ℕ × Child)
    → Action Reader (ℕ × List (List ℕ × Child))
read_headed fs this bytes files = do
  count ← read32
  start_block ← read32
  inode_number_2 ← read32
  read_run fs this start_block (count + 1) (bytes + 12) files

-- The outer loop, with `n` rounds left.
unfoldable pub read_runs :
    Mounted
    → Directory
    → (n bytes : ℕ) → List (List ℕ × Child)
    → Action Reader (List (List ℕ × Child))
read_runs fs this zero bytes files r = ok (files, r)
read_runs fs this (suc n) bytes files r =
    if ltb bytes (this.size - 3)
    then elim (read_headed fs this bytes files r) [
      | ok ((bytes', files'), s) ↦ read_runs fs this n bytes' files' s
      | err e ↦ err e
    ]
    else ok (files, r)

-- `readEntries`. A directory of size 3 has no entries; each round takes more than one byte, so the
-- size is rounds enough.
unfoldable pub read_entries : Mounted → Directory → Action Reader (List (List ℕ × Child))
read_entries fs this =
    if ltb this.size 3 then throw bad_directory else if this.size == 3 then pure [] else (do
      seek_table fs.directory_table (fs.superblock.directory_table_start + this.start_block)
          this.offset
      read_runs fs this this.size 0 [])
