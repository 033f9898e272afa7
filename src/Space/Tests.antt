-- ===== src/Space/Tests.antt =====
-- Two processes that share a page after a fork, to run the memory operations of src/process.js on.
use noopsys.Base.{
  ℕ, zero, suc, ◌≤◌, ◌≡◌, ◌<◌, ◌^◌, ◌≢◌, refl, true, false, some, [], ◌∷◌, arith, ◌==◌,
  if◌then◌else◌, update, get_elem?, Bool-cases, inl, inr,
}
use noopsys.Base.Word.{has, meets}
use noopsys.Base.Int.{pos}
use noopsys.Base.Result.{Result, ok, err}
use noopsys.Base.Seal.{pure, ◌>>=◌, ◌>>◌, gets, modify, throw_if}
use noopsys.Constants.{prot_write}
use noopsys.Physical.{Phys, find_page, allocate_page, duplicate_page, free_page}
use noopsys.Physical.Words.{write_word, read_word, zero_page_bytes}
use noopsys.Space.{Vm, Space, write, empty_tlb, cached, remember, copy_on_write, invalidate_hacks}
use noopsys.Space.Count.{mapped, mapped-none, mapped-update}
use noopsys.Space.Safe.{local_pages, held, IsCoherent, IsCoherent-empty, IsSafe}
use noopsys.Space.Translate.{take_over, resolve, reach, translate_miss, translate}
use noopsys.Space.Accessors.{stored, read8, write8}
use noopsys.Base.Int.{◌+ℤ◌}
use noopsys.Base.Result.{out_of_memory}
use noopsys.Constants.{vm_shared}
use noopsys.Physical.{do_zero_page}
use noopsys.Space.{fill_zero_page}
use noopsys.Space.Accessors.{stored_word, store32, write32, read32, copy_to_user}
use noopsys.Space.Coherent.{IsTranslated, translate-IsTranslated}
use noopsys.Space.Progress.{can_copy, write8-total}
use noopsys.Space.RoundTrip.{write32-read32}
use noopsys.Physical.{allocate_state_entry, find_entry, cow_dup_page, zero_page}
use noopsys.Space.Fork.{init_memory, clone_page, clone_pages, fork_memory}
use noopsys.Space.Fork.Child.{IsForked, fork_memory-IsForked}
use noopsys.Space.Exit.{free_entries}
use noopsys.Space.Exit.Returned.{free_entries-IsSafe}
use noopsys.Base.{List, Option}
use noopsys.Space.Accessors.{prepend, string_from_user}
use noopsys.Space.Strings.{AreBytes, no_bytes, byte}
use noopsys.Space.ReadBack.{string_from_user-copy_to_user}
use noopsys.Space.Isolation.{IsByteStore, write8-IsByteStore}

-- Page 10 is mapped by both, with two instructions at its start; page 1 of the parent is not
-- written to yet. Page 20 is the one of trampolines.
abbrev parent_pages : ℕ → ℕ
parent_pages = update (update (λ _. 0) 0 10) 1 1

abbrev child_pages : ℕ → ℕ
child_pages = update (λ _. 0) 0 10

abbrev pub parent : Vm
parent = record { pagemap = parent_pages; pageflags = λ _. 7; tlb = empty_tlb }

abbrev pub child : Vm
child = record { pagemap = child_pages; pageflags = λ _. 7; tlb = empty_tlb }

abbrev pub phys : Phys
phys = record {
  refs = update (update (update (λ _. 0) 1 2) 10 2) 20 1;
  flags = update (update (update (λ _. 0) 1 1) 10 13) 20 5;
  mem = write_word (write_word (λ _. 0) 163840 0x2002_012c) 163841 0xa002_0040;
  in_use = λ _. false;
}

abbrev pub world : Space
world = record { phys = phys; vm = parent }

parent-mapped :
    (p : ℕ)
    → p ≢ 0
    → mapped local_pages parent_pages p ≡ (if p == 10 then 1 else if p == 1 then 1 else 0)
parent-mapped p h = ground (
  arith,
  mapped-none local_pages p h,
  mapped-update local_pages (λ _. 0) 0 10 p (omega arith),
  mapped-update local_pages (update (λ _. 0) 0 10) 1 1 p (omega arith),
)

child-mapped : (p : ℕ) → p ≢ 0 → mapped local_pages child_pages p ≡ (if p == 10 then 1 else 0)
child-mapped p h =
    ground
      (arith, mapped-none local_pages p h, mapped-update local_pages (λ _. 0) 0 10 p (omega arith))

held-world :
    (p : ℕ)
    → p ≢ 0
    → held (parent ∷ child ∷ []) p ≡ (if p == 10 then 2 else if p == 1 then 1 else 0)
unfolding held
held-world p h = ground (arith, parent-mapped p h, child-mapped p h)

pub world-IsSafe : IsSafe phys (parent ∷ child ∷ [])
unfolding write_word
world-IsSafe = record {
  counted = λ p h. ground (arith, held-world p h);
  exclusive = λ p h open_page. shut p h open_page;
  zero_base = ground (arith, held-world 1 (omega arith));
  zero_flags = refl;
  zero_clean = λ i h. ground arith;
  coherent = λ k vm e. cached_none k vm e;
}
  where
    cached_none :
        (k : ℕ) (vm : Vm) → get_elem? (parent ∷ child ∷ []) k ≡ some vm → IsCoherent phys vm
    cached_none zero vm e = IsCoherent-empty phys vm (ground arith)
    cached_none (suc zero) vm e = IsCoherent-empty phys vm (ground arith)
    cached_none (suc (suc k)) vm e = absurd (cc)

    shut : (p : ℕ) → p ≢ 0 → has (phys.flags p) prot_write ≡ true → held (parent ∷ child ∷ []) p ≤ 1
    shut p h open_page = elim (Bool-cases (p == 10)) [
      | inl ten ↦
          let e : phys.flags p ≡ 13 = ground arith in
          let bad : has 13 prot_write ≡ true = rw (← e) open_page in
          absurd (unfold has in ground (arith, bad))
      | inr other ↦ ground (arith, held-world p h)
    ]

-- The parent stores a byte into the shared page, which is copied for it, and reads it back.
abbrev after : {A : Type 0} → Result (A × Space) → Space
after (ok (_, s)) = s
after (err e) = world

abbrev stored_world : Space
stored_world = after (write8 (pos 5) 300 world)

store_runs : write8 (pos 5) 300 world ≡ ok (tt, stored_world)
unfolding write8 translate cached translate_miss reach resolve take_over copy_on_write
    duplicate_page allocate_page free_page find_page invalidate_hacks remember stored write_word
    read_word ◌>>=◌ ◌>>◌ modify gets pure throw_if has meets
store_runs = refl

abbrev loaded_world : Space
loaded_world = after (read8 (pos 5) stored_world)

load_runs : read8 (pos 5) stored_world ≡ ok (44, loaded_world)
unfolding read8 write8 translate cached translate_miss reach resolve take_over copy_on_write
    duplicate_page allocate_page free_page find_page invalidate_hacks remember stored write_word
    read_word ◌>>=◌ ◌>>◌ modify gets pure throw_if has meets
load_runs = refl

write8-IsByteStore_example : IsByteStore (child ∷ []) 5 44 world stored_world
write8-IsByteStore_example =
    write8-IsByteStore (child ∷ []) (pos 5) 300 world stored_world world-IsSafe store_runs

-- The child's code is read from the shared page.
abbrev read_world : Space
read_world = after (read8 (pos 3) world)

read_runs : read8 (pos 3) world ≡ ok (32, read_world)
unfolding read8 translate cached translate_miss reach resolve take_over copy_on_write duplicate_page
    allocate_page free_page find_page invalidate_hacks remember stored write_word read_word ◌>>=◌
    ◌>>◌ modify gets pure throw_if has meets
read_runs = refl

-- A first write to the page that is mapped to the zero page.
abbrev filled_world : Space
filled_world = after (translate (pos 0x10008) write world)

fill_runs : translate (pos 0x10008) write world ≡ ok (720904, filled_world)
unfolding fill_zero_page do_zero_page translate cached translate_miss reach resolve take_over
    copy_on_write duplicate_page allocate_page free_page find_page invalidate_hacks remember stored
    write_word read_word ◌>>=◌ ◌>>◌ modify gets pure throw_if has meets
fill_runs = refl

translate-IsTranslated_example : IsTranslated (child ∷ []) write 0x10008 720904 world filled_world
translate-IsTranslated_example =
    translate-IsTranslated (child ∷ []) write (pos 0x10008) 720904 world filled_world world-IsSafe
      fill_runs

page_allows : has 7 prot_write ≡ true
unfolding has
page_allows = refl

page_shared : meets 13 vm_shared ≡ true
unfolding meets
page_shared = refl

write8-total_example : write8 (pos 5) 300 world ≢ err out_of_memory
write8-total_example =
    write8-total (child ∷ []) 5 300 world out_of_memory (omega arith) world-IsSafe (omega arith)
      page_allows (can_copy page_shared (11, omega arith, omega arith, refl))

abbrev word : ℕ
word = 0xdead_beef

-- A word, at an aligned address and across a page border.
abbrev word_world : Space
word_world = after (write32 (pos 8) 0xdead_beef world)

word_runs : write32 (pos 8) 0xdead_beef world ≡ ok (tt, word_world)
unfolding write32 store32 stored_word translate cached translate_miss reach resolve take_over
    copy_on_write duplicate_page allocate_page free_page find_page invalidate_hacks remember stored
    write_word read_word ◌>>=◌ ◌>>◌ modify gets pure throw_if has meets
word_runs = refl

abbrev word_loaded : Space
word_loaded = after (read32 (pos 8) word_world)

word_loads : read32 (pos 8) word_world ≡ ok (0xdead_beef, word_loaded)
unfolding read32 write32 store32 stored_word translate cached translate_miss reach resolve take_over
    copy_on_write duplicate_page allocate_page free_page find_page invalidate_hacks remember stored
    write_word read_word ◌>>=◌ ◌>>◌ modify gets pure throw_if has meets
word_loads = refl

write32-read32_example : word ≡ 0xdead_beef
write32-read32_example =
    write32-read32 (child ∷ []) (pos 8) 0xdead_beef word world word_world word_loaded world-IsSafe
      refl (omega arith) word_runs word_loads

abbrev border_world : Space
border_world = after (write32 (pos 0xfffe) 0xdead_beef world)

border_runs : write32 (pos 0xfffe) 0xdead_beef world ≡ ok (tt, border_world)
unfolding write32 store32 stored_word write8 fill_zero_page do_zero_page ◌+ℤ◌ translate cached
    translate_miss reach resolve take_over copy_on_write duplicate_page allocate_page free_page
    find_page invalidate_hacks remember stored write_word read_word ◌>>=◌ ◌>>◌ modify gets pure
    throw_if has meets
border_runs = refl

abbrev copied_world : Space
copied_world = after (copy_to_user (pos 0xffff) (104 ∷ 105 ∷ []) true world)

copy_runs : copy_to_user (pos 0xffff) (104 ∷ 105 ∷ []) true world ≡ ok (tt, copied_world)
unfolding copy_to_user write8 fill_zero_page do_zero_page ◌+ℤ◌ translate cached translate_miss reach
    resolve take_over copy_on_write duplicate_page allocate_page free_page find_page
    invalidate_hacks remember stored write_word read_word ◌>>=◌ ◌>>◌ modify gets pure throw_if has
    meets
copy_runs = refl

-- The parent forks once more.
abbrev forked : Result (Vm × Phys)
forked = fork_memory 0x7fff 20 parent phys

abbrev new_child : Vm
new_child = elim forked [ ok (vm, _) ↦ vm | err _ ↦ parent ]

abbrev forked_phys : Phys
forked_phys = elim forked [ ok (_, p) ↦ p | err _ ↦ phys ]

fork_runs : fork_memory 0x7fff 20 parent phys ≡ ok (new_child, forked_phys)
unfolding fork_memory init_memory allocate_state_entry find_entry allocate_page find_page
    clone_pages clone_page cow_dup_page zero_page
fork_runs = refl

phys-small : (p : ℕ) → phys.refs p < 2 ^ 31
phys-small p = ground arith

vdso_shut : has 5 prot_write ≡ false
unfolding has
vdso_shut = refl

fork_memory-IsForked_example : IsForked parent new_child (child ∷ []) phys forked_phys
fork_memory-IsForked_example =
    fork_memory-IsForked 0x7fff 20 parent new_child (child ∷ []) phys forked_phys (omega arith)
      (omega arith) (omega arith) vdso_shut phys-small world-IsSafe fork_runs

-- The parent ends.
free_entries-IsSafe_example :
    (t : Phys) × (free_entries 32768 0 parent phys ≡ ok (tt, t))
    × IsSafe t (child ∷ [])
    × (t.mem ≡ phys.mem)
free_entries-IsSafe_example = free_entries-IsSafe parent (child ∷ []) phys world-IsSafe

abbrev string_read : Space
string_read = after (string_from_user 10 (pos 0xffff) copied_world)

string_runs :
    string_from_user 10 (pos 0xffff) copied_world ≡ ok (some (104 ∷ 105 ∷ []), string_read)
unfolding copy_to_user write8 fill_zero_page do_zero_page ◌+ℤ◌ translate cached translate_miss reach
    resolve take_over copy_on_write duplicate_page allocate_page free_page find_page
    invalidate_hacks remember stored write_word read_word ◌>>=◌ ◌>>◌ modify gets pure throw_if has
    meets string_from_user prepend read8 zero_page_bytes
string_runs = refl

hi_AreBytes : AreBytes (104 ∷ 105 ∷ [])
hi_AreBytes =
    byte 104 (105 ∷ []) (omega arith) (omega arith)
      (byte 105 [] (omega arith) (omega arith) no_bytes)

abbrev hi : Option (List ℕ)
hi = some (104 ∷ 105 ∷ [])

string_from_user-copy_to_user_example : hi ≡ some (104 ∷ 105 ∷ [])
string_from_user-copy_to_user_example =
    string_from_user-copy_to_user (child ∷ []) 10 0xffff (104 ∷ 105 ∷ []) hi world copied_world
      string_read (omega arith) (omega arith) hi_AreBytes world-IsSafe copy_runs string_runs
