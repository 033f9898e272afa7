-- ===== src/Squash/Directory/RoundTrip.antt =====
-- `readEntries` of src/squashfs.js on a directory that was laid out as runs of entries.
use noopsys.Base.{
  ℕ, zero, suc, ◌+◌, ◌-◌, ◌^◌, ◌<◌, ◌≤◌, ◌≡◌, refl, ap, ◌∙◌, false, Option, none, some,
  if◌then◌else◌, sym, List, [], ◌∷◌, ◌++◌, length, drop, ltb, ◌==◌, arith, append_assoc,
  length-append, drop-append, drop_add,
}
use noopsys.Base.Result.{ok, >>=-ok}
use noopsys.Squash.{Reader}
use noopsys.Squash.Parse.{advance, Parses, bytes32, Parses-read32, Parses-bind}
use noopsys.Squash.Inode.{Directory, seek_table}
use noopsys.Squash.Directory.{Mounted, Child, same_name, read_headed, read_runs, read_entries}
use noopsys.Squash.Directory.Stored.{
  Run, encode_entries, encode_run, AreSound, put_entries, Parses-read_run, Entry, child_of, last_of,
  find_file-put_entries,
}
use noopsys.Squash.Directory.Named.{find_file}

-- The numbers of a run fit its header, and its entries are sound.
pub record Headed (fs : Mounted) (run : Run) : Type 0 where
  pub count : length run.entries < 2 ^ 32
  pub start_block : run.start_block < 2 ^ 32
  pub number : run.number < 2 ^ 32
  pub sound : AreSound fs run.start_block (run.entry ∷ run.entries)

unfoldable pub encode_runs : List Run → List ℕ
encode_runs [] = []
encode_runs (run ∷ runs) = encode_run run ++ encode_runs runs

pub data AreHeaded (fs : Mounted) : List Run → Type 0 where
  no_runs : AreHeaded fs []
  one_run :
      (run : Run) (runs : List Run) → Headed fs run → AreHeaded fs runs → AreHeaded fs (run ∷ runs)

unfoldable pub put_runs : Directory → List Run → List (List ℕ × Child) → List (List ℕ × Child)
put_runs this [] files = files
put_runs this (run ∷ runs) files =
    put_runs this runs (put_entries this (run.entry ∷ run.entries) files)

length-encode_run :
    (run : Run) → length (encode_run run) ≡ 12 + length (encode_entries (run.entry ∷ run.entries))
unfolding encode_run bytes32
length-encode_run run = omega arith

Parses-read_headed :
    (fs : Mounted) (this : Directory) (bytes : ℕ) (run : Run) (files : List (List ℕ × Child))
    → Headed fs run
    → Parses
        (read_headed fs this bytes files)
        (encode_run run)
        (bytes + length (encode_run run), put_entries this (run.entry ∷ run.entries) files)
unfolding read_headed encode_run
Parses-read_headed fs this bytes run files h =
    let es = run.entry ∷ run.entries in
    let more : length run.entries + 1 ≡ length es = omega arith in
    let total : bytes + length (encode_run run) ≡ bytes + 12 + length (encode_entries es) =
      omega (arith, length-encode_run run) in
    Parses-bind _ (Parses-read32 (length run.entries) h.count) (
      Parses-bind _ (Parses-read32 run.start_block h.start_block) (
        Parses-bind _ (Parses-read32 run.number h.number) (
          rw (more) (
            Parses-read_run fs this run.start_block (bytes + 12) (bytes + length (encode_run run))
              es files h.sound total))))

runs_step :
    (fs : Mounted) (this : Directory) (n bytes bytes' : ℕ) (files files' : List (List ℕ × Child))
    (r s : Reader)
    → bytes < this.size - 3
    → read_headed fs this bytes files r ≡ ok ((bytes', files'), s)
    → read_runs fs this (suc n) bytes files r ≡ read_runs fs this n bytes' files' s
unfolding read_runs
runs_step fs this n bytes bytes' files files' r s below e = ground arith

read_runs-encode_runs :
    (fs : Mounted) (this : Directory) (n bytes : ℕ) (runs : List Run)
    (files : List (List ℕ × Child)) (r : Reader) (rest : List ℕ)
    → AreHeaded fs runs
    → length runs ≤ n
    → this.size ≡ 3 + bytes + length (encode_runs runs)
    → drop r.offset r.buffer ≡ encode_runs runs ++ rest
    → read_runs fs this n bytes files r
      ≡ ok (put_runs this runs files, advance (length (encode_runs runs)) r)
unfolding encode_runs put_runs advance
read_runs-encode_runs fs this zero bytes [] files r rest headed le size laid =
    let stay : r.offset ≡ r.offset + 0 = omega arith in
    unfold read_runs in ap (λ o. ok (files, record r { offset = o })) stay
read_runs-encode_runs fs this (suc n) bytes [] files r rest headed le size laid =
    let stay : r.offset ≡ r.offset + 0 = omega arith in
    let stop : ltb bytes (this.size - 3) ≡ false = ground arith in
    unfold read_runs in rw (stop) (ap (λ o. ok (files, record r { offset = o })) stay)
read_runs-encode_runs fs this zero bytes (run ∷ runs) files r rest headed le size laid =
    absurd (omega arith)
read_runs-encode_runs fs this (suc n) bytes (run ∷ runs) files r rest (one_run _ _ h headed) le size
      laid =
    let xs = encode_run run in
    let whole = laid ∙ append_assoc xs (encode_runs runs) rest in
    let lengths = length-append xs (encode_runs runs) in
    let after : drop (r.offset + length xs) r.buffer ≡ encode_runs runs ++ rest =
      drop_add r.offset (length xs) r.buffer
      ∙ ap (drop (length xs)) whole
      ∙ drop-append xs (encode_runs runs ++ rest) in
    let sum : r.offset + length xs + length (encode_runs runs)
        ≡ r.offset + length (xs ++ encode_runs runs) =
      omega (arith, lengths) in
    runs_step fs this n bytes (bytes + length xs) files _ r (advance (length xs) r)
      (omega (arith, lengths, length-encode_run run))
      ((Parses-read_headed fs this bytes run files h).runs r (encode_runs runs ++ rest) whole)
    ∙ read_runs-encode_runs fs this n (bytes + length xs) runs _ (advance (length xs) r) rest headed
        (omega arith) (omega (arith, lengths)) after
    ∙ ap (λ o. ok (put_runs this (run ∷ runs) files, record r { offset = o })) sum

length-encode_runs : (runs : List Run) → length runs ≤ length (encode_runs runs)
unfolding encode_runs
length-encode_runs [] = omega arith
length-encode_runs (run ∷ runs) = omega (
  arith,
  length-encode_runs runs,
  length-append (encode_run run) (encode_runs runs),
  length-encode_run run,
)

read_entries-put_runs :
    (fs : Mounted) (this : Directory) (run : Run) (runs : List Run) (at : ℕ) (rest : List ℕ)
    (r : Reader)
    → AreHeaded fs (run ∷ runs)
    → this.size ≡ 3 + length (encode_runs (run ∷ runs))
    → fs.directory_table.hash (fs.superblock.directory_table_start + this.start_block) ≡ some at
    → drop (at + this.offset) fs.directory_table.bytes ≡ encode_runs (run ∷ runs) ++ rest
    → (s : Reader) × (read_entries fs this r ≡ ok (put_runs this (run ∷ runs) [], s))
unfolding seek_table read_entries
read_entries-put_runs fs this run runs at rest r headed size known held =
    let here : Reader = record {
      data_bytes = r.data_bytes;
      buffer = fs.directory_table.bytes;
      offset = at + this.offset;
      next_block = r.next_block;
    } in
    let grows : length (encode_runs (run ∷ runs))
        ≡ length (encode_run run) + length (encode_runs runs) =
      unfold encode_runs in length-append (encode_run run) (encode_runs runs) in
    let big : ltb this.size 3 ≡ false = ground (arith) in
    let more : (this.size == 3) ≡ false = ground (arith, grows, length-encode_run run) in
    let seeks : seek_table fs.directory_table
          (fs.superblock.directory_table_start + this.start_block) this.offset r
        ≡ ok (tt, here) =
      rw (seek_table, known) refl in
    let rounds = length-encode_runs (run ∷ runs) in
    (
      advance (length (encode_runs (run ∷ runs))) here,
      rw (read_entries, big, more)
          (>>=-ok
              (seek_table fs.directory_table
                (fs.superblock.directory_table_start + this.start_block) this.offset)
              _ r here tt seeks
            ∙ read_runs-encode_runs fs this this.size 0 (run ∷ runs) [] here rest headed
                (omega (arith, rounds)) (omega arith) held),
    )

-- The entries of all runs.
unfoldable pub entries_of : List Run → List Entry
entries_of [] = []
entries_of (run ∷ runs) = (run.entry ∷ run.entries) ++ entries_of runs

last_of-append :
    (this : Directory) (name : List ℕ) (es rest : List Entry) (before : Option Child)
    → last_of this name (es ++ rest) before ≡ last_of this name rest (last_of this name es before)
unfolding last_of
last_of-append this name [] rest before = refl
last_of-append this name (e ∷ es) rest before =
    last_of-append this name es rest
      (if same_name name (e.first ∷ e.others) then some (child_of this e) else before)

find_file-put_runs :
    (fs : Mounted) (this : Directory) (name : List ℕ) (runs : List Run)
    (files : List (List ℕ × Child))
    → AreHeaded fs runs
    → find_file name (put_runs this runs files)
      ≡ last_of this name (entries_of runs) (find_file name files)
unfolding put_runs entries_of
find_file-put_runs fs this name [] files no_runs = unfold last_of in refl
find_file-put_runs fs this name (run ∷ runs) files (one_run _ _ h headed) =
    let es = run.entry ∷ run.entries in
    find_file-put_runs fs this name runs (put_entries this es files) headed
    ∙ ap (last_of this name (entries_of runs))
        (find_file-put_entries fs this run.start_block name es files h.sound)
    ∙ sym (last_of-append this name es (entries_of runs) (find_file name files))

-- A directory that is not empty and is laid out as runs of entries, where the directory table's hash
-- knows its block, no entry's inode is that of a regular file, no name is `__proto__`, and the inode
-- table holds the inodes, is read back: under each name `readEntries` returns the inode, from the
-- inode table, of the last entry with that name, with this directory as its parent, and no other
-- names.
pub read_entries-encode_runs :
    (fs : Mounted) (this : Directory) (run : Run) (runs : List Run) (at : ℕ) (rest : List ℕ)
    (r : Reader)
    → AreHeaded fs (run ∷ runs)
    → this.size ≡ 3 + length (encode_runs (run ∷ runs))
    → fs.directory_table.hash (fs.superblock.directory_table_start + this.start_block) ≡ some at
    → drop (at + this.offset) fs.directory_table.bytes ≡ encode_runs (run ∷ runs) ++ rest
    → (files : List (List ℕ × Child)) × (s : Reader) × (read_entries fs this r ≡ ok (files, s))
      × ((name : List ℕ) → find_file name files ≡ last_of this name (entries_of (run ∷ runs)) none)
read_entries-encode_runs fs this run runs at rest r headed size known held =
    let (s, reads) = read_entries-put_runs fs this run runs at rest r headed size known held in
    (
      put_runs this (run ∷ runs) [],
      s,
      reads,
      λ name. find_file-put_runs fs this name (run ∷ runs) [] headed ∙ unfold find_file in refl,
    )
