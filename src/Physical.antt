-- ===== src/Physical.antt =====
-- The physical pages of src/process.js: reference counters, page flags, the bytes of `memory` and
-- the table of state entries. Pages 0 to 9 and the pages that hold page tables are never mapped
-- by a guest; what the program keeps in them are fields of their own in the models.
pub mod Words
pub mod Loops
pub mod Laws
pub mod Tests
use noopsys.Base.{
  ℕ, zero, suc, ◌+◌, ◌-◌, ◌≡◌, refl, Bool, true, false, Option, none, some, bit_and, bit_or, ◌==◌,
  if◌then◌else◌, update,
}
use noopsys.Base.Word.{u32}
use noopsys.Base.Result.{
  Error, out_of_memory, not_in_use, zero_page_unreferenced, no_refs, refs_not_one,
  too_many_processes, Result, ok, err, Action, pure, throw, ◌>>=◌, ◌>>◌, gets, modify, throw_if,
}
use noopsys.Constants.{prot_none, vm_shared, not_prot_write, not_vm_shared}
use Words.{Bytes, copy_page, zero_page_bytes}

abbrev pub total_pages : ℕ
total_pages = 4096

abbrev pub first_free_page : ℕ
first_free_page = 10

abbrev pub state_entries : ℕ
state_entries = 1024

pub record Phys : Type 0 where
  pub refs : ℕ → ℕ
  pub flags : ℕ → ℕ
  pub mem : Bytes
  pub in_use : ℕ → Bool

-- `for (p = first; …) if (!stateEntriesInUse[p])`, with `n` rounds left.
unfoldable pub find_entry : ℕ → ℕ → (ℕ → Bool) → Option ℕ
find_entry zero p in_use = none
find_entry (suc n) p in_use =
    let rest = find_entry n (p + 1) in_use in if in_use p then rest else some p

unfoldable pub allocate_state_entry : Action Phys ℕ
allocate_state_entry s = elim (find_entry state_entries 0 s.in_use) [
  | none ↦ err too_many_processes
  | some p ↦ ok (p, record s { in_use = update s.in_use p true })
]

unfoldable pub free_state_entry : ℕ → Action Phys (Unit {0})
free_state_entry p = modify λ s. record s { in_use = update s.in_use p false }

-- `for (b = firstFreePage; …) if (pageRefCounts[b] == 0)`, with `n` rounds left.
unfoldable pub find_page : ℕ → ℕ → (ℕ → ℕ) → Option ℕ
find_page zero b refs = none
find_page (suc n) b refs =
    let rest = find_page n (b + 1) refs in if refs b == 0 then some b else rest

unfoldable pub allocate_page : ℕ → Action Phys ℕ
allocate_page flags s = elim (find_page (total_pages - first_free_page) first_free_page s.refs) [
  | none ↦ err out_of_memory
  | some b ↦
      ok (
        b,
        record s { refs = update s.refs b (u32 (s.refs b + 1)); flags = update s.flags b flags },
      )
]

unfoldable pub zero_page : Action Phys ℕ
zero_page s = ok (1, record s { refs = update s.refs 1 (u32 (s.refs 1 + 1)) })

unfoldable pub cow_dup_page : ℕ → Action Phys ℕ
unfolding zero_page
cow_dup_page page s =
    if page == 1
    then zero_page s
    else ok (
      page,
      record s {
        flags = update s.flags page (bit_and (bit_or (s.flags page) vm_shared) not_prot_write);
        refs = update s.refs page (u32 (s.refs page + 1));
      },
    )

unfoldable pub duplicate_page : ℕ → Action Phys ℕ
unfolding allocate_page
duplicate_page old = do
  refs ← gets λ s. s.refs
  throw_if (refs old == 0) no_refs
  flags ← gets λ s. s.flags
  new ← allocate_page (bit_and (flags old) not_vm_shared)
  modify λ s. record s { mem = copy_page new old s.mem }
  pure new

unfoldable pub do_zero_page : ℕ → Action Phys (Unit {0})
do_zero_page page = do
  refs ← gets λ s. s.refs
  throw_if (if refs page == 1 then false else true) refs_not_one
  modify λ s. record s { mem = zero_page_bytes page s.mem }

-- The counter goes down, and a page that nobody uses loses its flags. The zero page may not.
unfoldable pub free_page : ℕ → Action Phys (Unit {0})
free_page page s =
    if s.refs page == 0
    then err not_in_use
    else if s.refs page == 1
    then if page == 1
      then err zero_page_unreferenced
      else ok (tt, record s { refs = update s.refs page 0; flags = update s.flags page 0 })
    else ok (tt, record s { refs = update s.refs page (s.refs page - 1) })
