-- ===== src/Stat/Tests.antt =====
-- The description of a terminal's node, written by `sys_fstat` of src/syscalls.js.
use noopsys.Base.{◌+◌, ◌^◌, ◌≤◌, ◌≡◌, refl, false, some, [], ◌∷◌, arith}
use noopsys.Base.Int.{◌+ℤ◌}
use noopsys.Base.Word.{has, meets}
use noopsys.Base.Result.{Result, ok, err}
use noopsys.Base.Seal.{pure, ◌>>=◌, ◌>>◌, gets, modify, throw_if}
use noopsys.Physical.{find_page, allocate_page, duplicate_page, free_page}
use noopsys.Physical.Words.{write_word, read_word}
use noopsys.Space.{Space, cached, remember, copy_on_write, invalidate_hacks}
use noopsys.Space.Translate.{translate, translate_miss, reach, resolve, take_over}
use noopsys.Space.Accessors.{stored, stored_word, store32, write32}
use noopsys.Space.Tests.{child, world, world-IsSafe}
use noopsys.Space.Fields.{IsFilled}
use noopsys.Stat.{Node, Outcome, done, do_stat_core, sys_fstat}
use noopsys.Stat.Filled.{layout, filled_size, sys_fstat-IsFilled}

abbrev terminal : Node
terminal = record { inode = 7; mode = 0x2190; data_word = 0x400; size = 0 }

abbrev ran : Result (Outcome × Space)
ran = sys_fstat false (some terminal) 64 world

abbrev written : Space
written = elim ran [ ok (_, s) ↦ s | err e ↦ world ]

stat_run : ran ≡ ok (done, written)
unfolding sys_fstat do_stat_core write32 store32 stored_word ◌+ℤ◌ translate cached translate_miss
    reach resolve take_over copy_on_write duplicate_page allocate_page free_page find_page
    invalidate_hacks remember stored write_word read_word ◌>>=◌ ◌>>◌ modify gets pure throw_if has
    meets
stat_run = refl

abbrev reply : Outcome
reply = done

filled_size-fits : 64 + filled_size false ≤ 2 ^ 32
unfolding filled_size
filled_size-fits = omega arith

sys_fstat-IsFilled_example :
    (reply ≡ done)
    × IsFilled (child ∷ []) 64 0 (filled_size false) (layout false terminal) world written
sys_fstat-IsFilled_example =
    sys_fstat-IsFilled false (child ∷ []) terminal 64 reply world written
      (record {
        inode = omega arith;
        mode = omega arith;
        data_word = omega arith;
        size = omega arith;
      })
      refl filled_size-fits world-IsSafe stat_run
