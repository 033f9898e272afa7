-- ===== src/Squash/Directory/Stored.antt =====
-- Directories as the image stores them, and what `readEntries` of src/squashfs.js makes of them.
use noopsys.Base.{
  ℕ, ◌+◌, ◌^◌, ◌<◌, ◌≡◌, ap, ◌∙◌, refl, false, Option, some, if◌then◌else◌, List, [], ◌∷◌, ◌++◌,
  length, drop, arith, length-append,
}
use mathlib.Core.Path.{ap₂}
use noopsys.Base.Result.{ok, Action, pure, ◌>>=◌, ◌>>◌, gets, modify, >>=-ok}
use noopsys.Squash.{Reader, read_string}
use noopsys.Squash.Parse.{
  advance, Parses, bytes16, bytes32, Parses-read16, Parses-read_string, Parses-bind,
}
use noopsys.Squash.Inode.{Inode, Directory, read_inode}
use noopsys.Squash.Inode.Stored.{encode_inode, IsStored, with_kind, read_inode-encode_inode}
use noopsys.Squash.Directory.Named.{find_file, find_file-put}
use noopsys.Squash.Directory.{Mounted, Child, same_name, proto, put, read_entry, read_run}

-- An entry, whose name is not empty: its first byte and the others.
pub record Entry : Type 0 where
  pub first : ℕ
  pub others : List ℕ
  pub offset : ℕ
  pub number : ℕ
  pub kind : ℕ
  pub node : Inode

-- The numbers of an entry fit their fields, its name is not `__proto__`, and the inode table holds its
-- inode, which is not that of a regular file.
pub record Sound (fs : Mounted) (start_block : ℕ) (e : Entry) : Type 0 where
  pub offset : e.offset < 2 ^ 16
  pub number : e.number < 2 ^ 16
  pub kind : e.kind < 2 ^ 16
  pub short : length e.others < 2 ^ 16
  pub own : same_name (e.first ∷ e.others) proto ≡ false
  pub stored : IsStored e.node
  pub at : ℕ
  pub rest : List ℕ
  pub known : fs.inode_table.hash (fs.superblock.inode_table_start + start_block) ≡ some at
  pub held : drop (at + e.offset) fs.inode_table.bytes ≡ encode_inode e.node ++ rest

unfoldable pub encode_entry : Entry → List ℕ
encode_entry e =
    bytes16 e.offset
    ++ (bytes16 e.number
        ++ (bytes16 e.kind ++ (bytes16 (length e.others) ++ ((e.first ∷ e.others) ++ []))))

pub length-encode_entry : (e : Entry) → length (encode_entry e) ≡ 8 + length e.others + 1
unfolding encode_entry bytes16
length-encode_entry e = omega (arith, length-append e.others [])

abbrev pub child_of : Directory → Entry → Child
child_of this e = record { node = with_kind e.node; parent = this }

-- Reading the inode of an entry leaves the cursor where it was.
abbrev get_child :
    Mounted
    → Directory
    → (start_block offset size : ℕ) → List ℕ
    → Action Reader (List ℕ × Child × ℕ)
get_child fs this start_block offset size name = do
  old ← gets λ r. r
  node ← read_inode fs.superblock fs.inode_table (start_block, offset)
  modify λ r. record r { buffer = old.buffer; offset = old.offset }
  pure (name, record { node = node; parent = this }, 8 + size + 1)

Parses-get_child :
    (fs : Mounted) (this : Directory) (start_block size : ℕ) (name : List ℕ) (e : Entry)
    → Sound fs start_block e
    → Parses
        (get_child fs this start_block e.offset size name)
        []
        (name, child_of this e, 8 + size + 1)
unfolding advance
Parses-get_child fs this start_block size name e sound = record {
  runs = λ r rest laid.
      let reads =
        read_inode-encode_inode fs.superblock fs.inode_table e.node start_block e.offset sound.at
          sound.rest r sound.stored sound.known sound.held in
      let stay : r.offset ≡ r.offset + 0 = omega arith in
      >>=-ok (read_inode fs.superblock fs.inode_table (start_block, e.offset)) _ r _
        (with_kind e.node) reads
      ∙ ap (λ o. ok ((name, child_of this e, 8 + size + 1), record r { offset = o })) stay;
}

Parses-name : (c : ℕ) (cs : List ℕ) → Parses (read_string (length cs + 1)) (c ∷ cs) (c ∷ cs)
Parses-name c cs =
    let more : length cs + 1 ≡ length (c ∷ cs) = omega arith in
    rw (more) (Parses-read_string (c ∷ cs))

Parses-read_entry :
    (fs : Mounted) (this : Directory) (start_block : ℕ) (e : Entry)
    → Sound fs start_block e
    → Parses
        (read_entry fs this start_block)
        (encode_entry e)
        (e.first ∷ e.others, child_of this e, 8 + length e.others + 1)
unfolding read_entry encode_entry
Parses-read_entry fs this start_block e sound =
    Parses-bind _ (Parses-read16 e.offset sound.offset) (
      Parses-bind _ (Parses-read16 e.number sound.number) (
        Parses-bind _ (Parses-read16 e.kind sound.kind) (
          Parses-bind _ (Parses-read16 (length e.others) sound.short) (
            Parses-bind _ (Parses-name e.first e.others) (
              Parses-get_child fs this start_block (length e.others) (e.first ∷ e.others) e
                sound)))))

-- A run of entries behind its header, which counts one less than there are.
pub record Run : Type 0 where
  pub start_block : ℕ
  pub number : ℕ
  pub entry : Entry
  pub entries : List Entry

unfoldable pub encode_entries : List Entry → List ℕ
encode_entries [] = []
encode_entries (e ∷ es) = encode_entry e ++ encode_entries es

unfoldable pub encode_run : Run → List ℕ
encode_run run =
    bytes32 (length run.entries)
    ++ (bytes32 run.start_block ++ (bytes32 run.number ++ encode_entries (run.entry ∷ run.entries)))

pub data AreSound (fs : Mounted) (start_block : ℕ) : List Entry → Type 0 where
  no_entries : AreSound fs start_block []
  entry :
      (e : Entry) (es : List Entry)
      → Sound fs start_block e
      → AreSound fs start_block es
      → AreSound fs start_block (e ∷ es)

-- The entries put in a list of children, one after the other.
unfoldable pub put_entries : Directory → List Entry → List (List ℕ × Child) → List (List ℕ × Child)
put_entries this [] files = files
put_entries this (e ∷ es) files =
    put_entries this es (put (e.first ∷ e.others) (child_of this e) files)

pub Parses-read_run :
    (fs : Mounted) (this : Directory) (start_block bytes total : ℕ) (es : List Entry)
    (files : List (List ℕ × Child))
    → AreSound fs start_block es
    → total ≡ bytes + length (encode_entries es)
    → Parses
        (read_run fs this start_block (length es) bytes files)
        (encode_entries es)
        (total, put_entries this es files)
unfolding read_run encode_entries put_entries advance
Parses-read_run fs this start_block bytes total [] files no_entries sum = record {
  runs = λ r rest e.
      let same : bytes ≡ total = omega arith in
      let stay : r.offset ≡ r.offset + 0 = omega arith in
      ap₂ (λ b o. ok ((b, files), record r { offset = o })) same stay;
}
Parses-read_run fs this start_block bytes total (e ∷ es) files (entry _ _ sound sounds) sum =
    let more : total ≡ bytes + (8 + length e.others + 1) + length (encode_entries es) =
      omega (arith, length-append (encode_entry e) (encode_entries es), length-encode_entry e) in
    Parses-bind _ (Parses-read_entry fs this start_block e sound) (
      Parses-read_run fs this start_block (bytes + (8 + length e.others + 1)) total es
        (put (e.first ∷ e.others) (child_of this e) files) sounds more)

-- The child under a name after entries were put one after the other: that of the last entry with the
-- name, or what was there before.
unfoldable pub last_of : Directory → List ℕ → List Entry → Option Child → Option Child
last_of this name [] before = before
last_of this name (e ∷ es) before =
    last_of this name es
      (if same_name name (e.first ∷ e.others) then some (child_of this e) else before)

pub find_file-put_entries :
    (fs : Mounted) (this : Directory) (start_block : ℕ) (name : List ℕ) (es : List Entry)
    (files : List (List ℕ × Child))
    → AreSound fs start_block es
    → find_file name (put_entries this es files) ≡ last_of this name es (find_file name files)
unfolding put_entries last_of
find_file-put_entries fs this start_block name [] files no_entries = refl
find_file-put_entries fs this start_block name (e ∷ es) files (entry _ _ sound sounds) =
    let own = e.first ∷ e.others in
    find_file-put_entries fs this start_block name es (put own (child_of this e) files) sounds
    ∙ ap (last_of this name es) (find_file-put own name (child_of this e) files sound.own)
