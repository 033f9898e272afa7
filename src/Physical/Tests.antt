-- ===== src/Physical/Tests.antt =====
-- The allocator of src/process.js on small tables.
use noopsys.Base.{ℕ, ◌*◌, ◌%◌, ◌≡◌, refl, false, arith, update}
use noopsys.Base.Result.{out_of_memory, Result, ok, err}
use noopsys.Physical.{Phys, find_page, allocate_page, cow_dup_page}
use noopsys.Physical.Words.{copy_words, copy_page}
use noopsys.Physical.Loops.{AreBytes, copy_words-copy_page}

-- Page 10 is in use, and the zero page.
abbrev table : Phys
table = record {
  refs = update (update (λ _. 0) 1 1) 10 1;
  flags = update (λ _. 0) 10 3;
  mem = λ a. a % 7;
  in_use = λ _. false;
}

abbrev after : {A : Type 0} → Result (A × Phys) → Phys
after (ok (_, s)) = s
after (err e) = table

abbrev allocated : Phys
allocated = after (allocate_page 3 table)

allocates : allocate_page 3 table ≡ ok (11, allocated)
unfolding allocate_page find_page
allocates = refl

abbrev shared_page : ℕ
shared_page = 10

abbrev shared : Phys
shared = after (cow_dup_page 10 table)

shares : cow_dup_page 10 table ≡ ok (10, shared)
unfolding cow_dup_page
shares = refl

abbrev full_table : Phys
full_table = record { refs = λ _. 1; flags = λ _. 0; mem = λ _. 0; in_use = λ _. false }

runs_out : allocate_page 3 full_table ≡ err out_of_memory
unfolding allocate_page find_page
runs_out = refl

table-AreBytes : AreBytes table.mem
table-AreBytes a = omega arith

copy_words-copy_page_example :
    copy_words 16384 (11 * 16384) (10 * 16384) table.mem ≡ copy_page 11 10 table.mem
copy_words-copy_page_example = copy_words-copy_page 11 10 table.mem (omega arith) table-AreBytes
