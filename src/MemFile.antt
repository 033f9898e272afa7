-- ===== src/MemFile.antt =====
-- The open files of src/noopfs.js (`memFSBackedFile`), with `do_lseek` of src/syscalls.js.
-- The node that an open file points to is a part of its state: an operation on one file is modelled
-- with that file's node.
pub mod Splice
pub mod Laws
pub mod Tests
use noopsys.Base.{
  ℕ, zero, suc, ◌+◌, ◌-◌, Bool, true, false, List, [], ◌∷◌, ◌++◌, length, take, drop, min, ltb,
  ◌==◌, if◌then◌else◌,
}
use noopsys.Base.Word.{has}
use noopsys.Base.Int.{ℤ, pos, negsuc, ◌+ℤ◌}
use noopsys.Base.Result.{memfs_write, no_slice, out_of_range, Result, ok, err}
use noopsys.Constants.{s_ifdir}

-- What a node holds: a string, as the codes of its characters, an `ArrayBuffer`, or nothing.
pub data Contents : Type 0 where
  text : List ℕ → Contents
  array_buffer : List ℕ → Contents
  undefined_data : Contents

pub record Node : Type 0 where
  pub mode : ℕ
  pub size : ℕ
  pub contents : Contents

-- `memFSBackedFile`, with its node.
pub record File : Type 0 where
  pub node : Node
  pub pos_in_file : ℕ
  pub fetched : List ℕ

-- The answer of a call: a count, or the error that it names.
pub data Answer : Type 0 where
  count : ℕ → Answer
  eisdir eio ebadf espipe einval : Answer

unfoldable pub new_file : Node → File
new_file node = record { node = node; pos_in_file = 0; fetched = [] }

unfoldable pub s_isdir : ℕ → Bool
s_isdir m = has m s_ifdir

-- `this.data = …; this.pos = this.pos + len`
unfoldable pub fetch : List ℕ → File → Answer × File
fetch cs file = (
  count (length cs),
  record { node = file.node; pos_in_file = file.pos_in_file + length cs; fetched = cs },
)

-- A view of an `ArrayBuffer` from a place behind its end is refused by the host, which throws.
unfoldable pub read : ℕ → File → Result (Answer × File)
read size file = if s_isdir file.node.mode then ok (eisdir, file) else elim file.node.contents [
  | undefined_data ↦ ok (eio, file)
  | text cs ↦ ok (fetch (take size (drop file.pos_in_file cs)) file)
  | array_buffer bs ↦
      if ltb (length bs) file.pos_in_file
      then err out_of_range
      else ok
          (fetch (take (min size (length bs - file.pos_in_file)) (drop file.pos_in_file bs)) file)
]

-- `"[object ArrayBuffer]"` and `"undefined"`, which the operator `+` makes of what is no string.
unfoldable pub object_name : List ℕ
object_name =
    91
    ∷ (111
        ∷ (98
            ∷ (106
                ∷ (101
                    ∷ (99
                        ∷ (116
                            ∷ (32
                                ∷ (65
                                    ∷ (114
                                        ∷ (114
                                            ∷ (97
                                                ∷ (121
                                                    ∷ (66
                                                        ∷ (117
                                                            ∷ (102
                                                            ∷ (102
                                                            ∷ (101
                                                            ∷ (114 ∷ (93 ∷ [])))))))))))))))))))

unfoldable pub undefined_name : List ℕ
undefined_name = 117 ∷ (110 ∷ (100 ∷ (101 ∷ (102 ∷ (105 ∷ (110 ∷ (101 ∷ (100 ∷ []))))))))

-- `this.node.data` as the left operand of `+` on strings.
unfoldable pub as_string : Contents → List ℕ
as_string (text cs) = cs
as_string (array_buffer bs) = object_name
as_string undefined_data = undefined_name

-- `this.node.data = this.node.data + …`
unfoldable pub add_data : List ℕ → Node → Node
add_data cs node = record node { contents = text (as_string node.contents ++ cs) }

-- `while (this.pos > this.node.size)`: a 0 for each place that is missing.
unfoldable pub pad : ℕ → Node → Node
pad zero node = node
pad (suc n) node = pad n (record (add_data (0 ∷ []) node) { size = node.size + 1 })

-- The bytes that are there when a write begins before the end: an `ArrayBuffer` is made a string.
unfoldable pub converted : Contents → List ℕ
converted (text cs) = cs
converted (array_buffer bs) = bs
converted undefined_data = []

-- The branch of `write` that begins before the end: `undefined` has no method `slice`.
unfoldable pub write_before_end : List ℕ → File → Result (Answer × File)
write_before_end cs file =
    let at = file.pos_in_file in
    let old = converted file.node.contents in
    let written : File = record {
      node = record {
        mode = file.node.mode;
        size = if ltb file.node.size (at + length cs) then at + length cs else file.node.size;
        contents = text (take at old ++ (cs ++ drop (at + length cs) old));
      };
      pos_in_file = at + length cs;
      fetched = file.fetched;
    } in
    elim file.node.contents [
      | undefined_data ↦ err no_slice
      | text _ ↦ ok (count (length cs), written)
      | array_buffer _ ↦ ok (count (length cs), written)
    ]

unfoldable pub write_at_end : List ℕ → File → Answer × File
write_at_end cs file =
    let longer = add_data cs file.node in
    (
      count (length cs),
      record {
        node = record longer { size = length (as_string file.node.contents ++ cs) };
        pos_in_file = file.pos_in_file + length cs;
        fetched = file.fetched;
      },
    )

-- `write`: after the padding the place is not behind the end, so the second test of the source
-- never throws.
unfoldable pub write : List ℕ → File → Result (Answer × File)
write cs file =
    let padded = record file { node = pad (file.pos_in_file - file.node.size) file.node } in
    if ltb padded.pos_in_file padded.node.size
    then write_before_end cs padded
    else if padded.pos_in_file == padded.node.size
    then ok (write_at_end cs padded)
    else err memfs_write

-- The clone has the same node.
unfoldable pub clone : File → File
clone file = record { node = file.node; pos_in_file = file.pos_in_file; fetched = file.fetched }

-- The place that `do_lseek` computes; a `whence` that it does not know is an error.
pub data Whence : Type 0 where
  seek_set seek_cur seek_end : Whence
  other_whence : Whence

unfoldable pub seek_place : Whence → ℤ → File → ℤ
seek_place seek_set offset file = offset
seek_place seek_cur offset file = pos file.pos_in_file +ℤ offset
seek_place seek_end offset file = pos file.node.size +ℤ offset
seek_place other_whence offset file = negsuc 0

-- A descriptor: not open, open without a node (a pipe or a terminal), or open on a node.
pub data Descriptor : Type 0 where
  closed : Descriptor
  without_node : Descriptor
  opened : File → Descriptor

unfoldable pub do_lseek : Descriptor → Whence → ℤ → Answer × Descriptor
do_lseek closed whence offset = (ebadf, closed)
do_lseek without_node whence offset = (espipe, without_node)
do_lseek (opened file) whence offset = elim (seek_place whence offset file) [
  | pos n ↦ (count n, opened (record file { pos_in_file = n }))
  | negsuc _ ↦ (einval, opened file)
]
