-- ===== src/Dirents/Tests.antt =====
-- A directory of two files, listed as in src/syscalls.js into a buffer that one of them fills.
use noopsys.Base.{ℕ, ◌≡◌, refl, true, false, some, [], ◌∷◌, arith}
use noopsys.Base.Int.{◌+ℤ◌}
use noopsys.Base.Word.{has, meets}
use noopsys.Base.Result.{Result, ok, err}
use noopsys.Base.Seal.{pure, ◌>>=◌, ◌>>◌, gets, modify, throw_if}
use noopsys.Physical.{find_page, allocate_page, duplicate_page, free_page}
use noopsys.Physical.Words.{write_word, read_word}
use noopsys.Space.{Space, cached, remember, copy_on_write, invalidate_hacks}
use noopsys.Space.Translate.{translate, translate_miss, reach, resolve, take_over}
use noopsys.Space.Accessors.{stored, stored_word, store32, write8, write16, write32, copy_to_user}
use noopsys.Space.Tests.{world}
use noopsys.Dirents.{
  Directory, Answer, einval, needed_size, put_entry, turn, put_entries, sys_getdents_core,
}
use noopsys.Dirents.Fitting.{answer, next_position, sys_getdents_core-answer}

abbrev two_files : Directory
two_files = record {
  is_dir = true;
  children = record { name = 97 ∷ []; inode = 5 } ∷ record { name = 98 ∷ []; inode = 6 } ∷ [];
  position = 0;
}

-- A buffer of exactly one entry: the first is written, an error is returned, and both are passed.
abbrev ran : Result ((Answer × ℕ) × Space)
ran = sys_getdents_core false (some (some two_files)) 64 12 world

abbrev written : Space
written = elim ran [ ok (_, s) ↦ s | err e ↦ world ]

dirents_run : ran ≡ ok ((einval, 2), written)
unfolding sys_getdents_core put_entries turn needed_size put_entry copy_to_user write8 write16
    write32 store32 stored_word ◌+ℤ◌ translate cached translate_miss reach resolve take_over
    copy_on_write duplicate_page allocate_page free_page find_page invalidate_hacks remember stored
    write_word read_word ◌>>=◌ ◌>>◌ modify gets pure throw_if has meets
dirents_run = refl

abbrev reply : Answer × ℕ
reply = (einval, 2)

sys_getdents_core-answer_example :
    reply ≡ (answer false 12 0 two_files.children, next_position false 12 0 two_files.children)
sys_getdents_core-answer_example =
    sys_getdents_core-answer false two_files 64 12 reply world written refl (omega arith)
      dirents_run
