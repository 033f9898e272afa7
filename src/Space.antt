-- ===== src/Space.antt =====
-- A process's view of memory (src/process.js): its page table, the cache in front of it, and the
-- accessors that every load, store and system call goes through.
pub mod Safe
pub mod Count
pub mod Translate
pub mod Accessors
pub mod Outcome
pub mod Preserve
pub mod Views
pub mod Coherent
pub mod Isolation
pub mod Progress
pub mod Kept
pub mod RoundTrip
pub mod WordStore
pub mod Strings
pub mod ReadBack
pub mod Fields
pub mod Fork
pub mod Exit
pub mod Tests
use noopsys.Base.{
  ℕ, zero, suc, ◌+◌, ◌-◌, ◌*◌, ◌/◌, ◌%◌, ◌^◌, ◌≡◌, refl, Bool, true, false, ◌&&◌, Option, none,
  some, List, [], ◌∷◌, ltb, leb, ◌==◌, if◌then◌else◌, update,
}
use noopsys.Base.Int.{ℤ, pos, negsuc, to_uint32, ltb_ℤ, ◌+ℤ◌}
use noopsys.Base.Word.{◌>>>◌, has, meets, byte_of, word_of}
use noopsys.Base.Result.{
  Error, negative_address, bad_address, fault, unmapped, unhandled_fault, Result, ok, err, Action,
  pure, throw, ◌>>=◌, ◌>>◌, gets, modify, throw_if,
}
use noopsys.Constants.{prot_none, prot_read, prot_write, prot_exec, vm_shared}
use noopsys.Physical.{Phys, allocate_page, duplicate_page, do_zero_page, free_page}
use noopsys.Physical.Words.{read_word, write_word}

-- The cached translations. A virtual page number is below 2^16, so `no_page` matches none.
pub record Tlb : Type 0 where
  pub opt_old_addr : ℕ
  pub opt_old_phys_page : ℕ
  pub opt_older_addr : ℕ
  pub opt_older_phys_page : ℕ
  pub opt_old_write_addr : ℕ
  pub opt_old_write_phys_page : ℕ
  pub opt_old_code_addr : ℕ
  pub opt_old_code_phys_page : ℕ
  pub opt_older_code_addr : ℕ
  pub opt_older_code_phys_page : ℕ

pub record Vm : Type 0 where
  pub pagemap : ℕ → ℕ
  pub pageflags : ℕ → ℕ
  pub tlb : Tlb

pub record Space : Type 0 where
  pub phys : Phys
  pub vm : Vm

-- The `prot` argument, always one of four constants.
pub data Access : Type 0 where
  any read write exec : Access

abbrev pub prot_of : Access → ℕ
prot_of any = prot_none
prot_of read = prot_read
prot_of write = prot_write
prot_of exec = prot_exec

abbrev pub no_page : ℕ
no_page = 0xffff_ffff

abbrev pub empty_tlb : Tlb
empty_tlb = record {
  opt_old_addr = no_page;
  opt_old_phys_page = no_page;
  opt_older_addr = no_page;
  opt_older_phys_page = no_page;
  opt_old_write_addr = no_page;
  opt_old_write_phys_page = no_page;
  opt_old_code_addr = no_page;
  opt_old_code_phys_page = no_page;
  opt_older_code_addr = no_page;
  opt_older_code_phys_page = no_page;
}

unfoldable pub invalidate_hacks : Vm → Vm
invalidate_hacks vm = record vm { tlb = empty_tlb }

-- The cached physical page of a virtual page, for a kind of access.
unfoldable pub cached : Access → ℕ → Tlb → Option ℕ
cached exec page t = if page == t.opt_older_code_addr then some t.opt_older_code_phys_page else none
cached write page t = if page == t.opt_old_write_addr then some t.opt_old_write_phys_page else none
cached _ page t =
    if page == t.opt_old_addr
    then some t.opt_old_phys_page
    else if page == t.opt_older_addr
    then some t.opt_older_phys_page
    else none

-- The end of `translateMiss`: the newest translation moves in, the one before it moves down.
unfoldable pub remember : Access → ℕ → ℕ → Tlb → Tlb
remember exec page phys t = record t {
  opt_older_code_phys_page = t.opt_old_code_phys_page;
  opt_older_code_addr = t.opt_old_code_addr;
  opt_old_code_phys_page = phys;
  opt_old_code_addr = page;
}
remember write page phys t = record t { opt_old_write_phys_page = phys; opt_old_write_addr = page }
remember _ page phys t = record t {
  opt_older_phys_page = t.opt_old_phys_page;
  opt_older_addr = t.opt_old_addr;
  opt_old_phys_page = phys;
  opt_old_addr = page;
}

abbrev pub on_phys : {A : Type 0} → Action Phys A → Action Space A
on_phys m s = elim (m s.phys) [ ok (a, p) ↦ ok (a, record { phys = p; vm = s.vm }) | err e ↦ err e ]

abbrev pub set_page : ℕ → ℕ → Action Space (Unit {0})
set_page local page = modify λ s. record s {
  vm = record {
    pagemap = update s.vm.pagemap local page;
    pageflags = s.vm.pageflags;
    tlb = s.vm.tlb;
  };
}

-- A write to a page that is shared after a fork: copy it if others use it, then open it.
unfoldable pub copy_on_write : ℕ → ℕ → Action Space ℕ
copy_on_write local page s =
    let grant = λ (p : ℕ) (t : Space). ok (
      p,
      record t {
        phys = record {
          refs = t.phys.refs;
          flags = update t.phys.flags p (t.vm.pageflags local);
          mem = t.phys.mem;
          in_use = t.phys.in_use;
        };
      },
    ) in
    if s.phys.refs page == 1
    then grant page s
    else (do
      new ← on_phys (duplicate_page page)
      on_phys (free_page page)
      set_page local new
      grant new)
        s

-- A first write to a page that is mapped to the zero page.
unfoldable pub fill_zero_page : ℕ → ℕ → Action Space ℕ
fill_zero_page local page = do
  flags ← gets λ s. s.vm.pageflags local
  new ← on_phys (allocate_page flags)
  on_phys (free_page page)
  on_phys (do_zero_page new)
  set_page local new
  pure new
