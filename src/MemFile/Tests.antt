-- ===== src/MemFile/Tests.antt =====
-- Runs of the open files of src/noopfs.js.
use noopsys.Base.{ℕ, ◌+◌, ◌≡◌, refl, List, [], ◌∷◌, length, get_or, max}
use noopsys.Base.Int.{pos}
use noopsys.Base.Result.{ok}
use noopsys.Base.Word.{has}
use noopsys.MemFile.{File, text, count, opened, seek_set, s_isdir, read, write, do_lseek}
use noopsys.MemFile.Splice.{byte_after}
use noopsys.MemFile.Laws.{write-bytes, write-read}

-- Three bytes, and a place behind their end.
abbrev three : List ℕ
three = 1 ∷ (2 ∷ (3 ∷ []))

abbrev three_file : File
three_file = record {
  node = record { mode = 0x81a4; size = 3; contents = text three };
  pos_in_file = 5;
  fetched = [];
}

abbrev two : List ℕ
two = 8 ∷ (9 ∷ [])

write-bytes_example :
    (after : File) × (new : List ℕ) × (write two three_file ≡ ok (count (length two), after))
    × (after.node.contents ≡ text new)
    × (after.node.size ≡ length new)
    × (length new ≡ max (length three) (three_file.pos_in_file + length two))
    × (after.pos_in_file ≡ three_file.pos_in_file + length two)
    × ((i : ℕ) → get_or new i 0 ≡ byte_after three_file.pos_in_file two three i)
write-bytes_example = write-bytes two three three_file refl refl

write-read_example :
    (after sought end : File) × (write two three_file ≡ ok (count (length two), after))
    × (do_lseek (opened after) seek_set (pos three_file.pos_in_file)
        ≡ (count three_file.pos_in_file, opened sought))
    × (read (length two) sought ≡ ok (count (length two), end))
    × (end.fetched ≡ two)
unfolding s_isdir has
write-read_example = write-read two three three_file refl refl refl
