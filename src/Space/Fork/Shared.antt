-- ===== src/Space/Fork/Shared.antt =====
-- The invariant of the pages while `cloneFrom` of src/process.js shares them, and after it.
use noopsys.Base.{
  ℕ, zero, suc, ◌+◌, ◌-◌, ◌%◌, ◌^◌, ◌≤◌, ◌<◌, ◌≡◌, ◌≢◌, refl, ◌∙◌, true, false, List, ◌∷◌, arith,
  ◌==◌, if◌then◌else◌, update, Bool-cases, inl, inr, bit_and, bit_or,
}
use noopsys.Base.Bits.{bit_and_two, clear_two}
use noopsys.Base.Word.{has, u32}
use noopsys.Base.Result.{ok}
use noopsys.Constants.{prot_read, prot_write, vm_shared, not_prot_write}
use noopsys.Physical.{cow_dup_page, zero_page}
use noopsys.Space.{Vm, Space}
use noopsys.Space.Count.{one_if, mapped, mapped-update}
use noopsys.Space.Safe.{local_pages, held}
use noopsys.Space.Fork.{clone_page, clone_pages}

-- What one round does for an entry `i` that the source maps to page `q`.
record IsShared (source : Vm) (i : ℕ) (s t : Space) : Type 0 where
  refs_at :
      (p : ℕ)
      → t.phys.refs p
        ≡ (if p == source.pagemap i then (s.phys.refs p + 1) % 2 ^ 32 else s.phys.refs p)
  closed :
      (p : ℕ)
      → has (t.phys.flags p) prot_write ≡ true
      → (p ≢ source.pagemap i) × (has (s.phys.flags p) prot_write ≡ true)
  flags_one : t.phys.flags 1 ≡ s.phys.flags 1
  mem_kept : t.phys.mem ≡ s.phys.mem
  pagemap_at : (k : ℕ) → t.vm.pagemap k ≡ update s.vm.pagemap i (source.pagemap i) k
  pageflags_at : (k : ℕ) → t.vm.pageflags k ≡ update s.vm.pageflags i (source.pageflags i) k
  mapped_at :
      (p : ℕ)
      → i < local_pages
      → mapped local_pages t.vm.pagemap p + one_if (s.vm.pagemap i == p)
        ≡ mapped local_pages s.vm.pagemap p + one_if (source.pagemap i == p)

shut_page : (f : ℕ) → has (bit_and (bit_or f vm_shared) not_prot_write) prot_write ≡ false
unfolding has
shut_page f =
    let x = bit_and (bit_or f vm_shared) not_prot_write in
    ground (arith, bit_and_two x, clear_two (bit_or f vm_shared))

-- The zero page is read-only already.
zero_shut : (f : ℕ) → f ≡ prot_read → has f prot_write ≡ false
unfolding has
zero_shut f e = rw e refl

-- The child's table with entry `i` set to page `q`.
abbrev with_entry : Vm → ℕ → ℕ → Vm → Vm
with_entry source i q vm = record {
  pagemap = update vm.pagemap i q;
  pageflags = update vm.pageflags i (source.pageflags i);
  tlb = vm.tlb;
}

clone_page-IsShared :
    (source : Vm) (i : ℕ) (s : Space)
    → source.pagemap i ≢ 0
    → s.phys.flags 1 ≡ prot_read
    → (t : Space) × (clone_page source i s ≡ ok (tt, t)) × IsShared source i s t
unfolding clone_page cow_dup_page zero_page
clone_page-IsShared source i s used zero_flags = elim (Bool-cases (source.pagemap i == 1)) [
  | inl one ↦
      let is_one : source.pagemap i ≡ 1 = ground arith in
      (
        record {
          phys = record s.phys { refs = update s.phys.refs 1 (u32 (s.phys.refs 1 + 1)) };
          vm = with_entry source i 1 s.vm;
        },
        ground arith,
        record {
          refs_at = λ p. ground arith;
          closed = λ p h. (
            (λ e.
                let f : s.phys.flags p ≡ prot_read = ground arith in
                let z = zero_shut (s.phys.flags p) f in absurd (ground arith)),
            h,
          );
          flags_one = refl;
          mem_kept = refl;
          pagemap_at = λ k. ground arith;
          pageflags_at = λ k. refl;
          mapped_at = λ p h. rw is_one (mapped-update local_pages s.vm.pagemap i 1 p h);
        },
      )
  | inr other ↦
      let q = source.pagemap i in
      (
        record {
          phys = record s.phys {
            flags =
                update s.phys.flags q (bit_and (bit_or (s.phys.flags q) vm_shared) not_prot_write);
            refs = update s.phys.refs q (u32 (s.phys.refs q + 1));
          };
          vm = with_entry source i q s.vm;
        },
        ground arith,
        record {
          refs_at = λ p. ground arith;
          closed = λ p h. let shut = shut_page (s.phys.flags q) in ground arith;
          flags_one = ground arith;
          mem_kept = refl;
          pagemap_at = λ k. refl;
          pageflags_at = λ k. refl;
          mapped_at = λ p h. mapped-update local_pages s.vm.pagemap i q p h;
        },
      )
]

-- The invariant while entries below `i` are shared; `vms` has the tables of the other processes,
-- the source among them.
pub record IsSharing (vms : List Vm) (source : Vm) (i : ℕ) (mem : ℕ → ℕ) (s : Space) : Type 0 where
  pub counted : (p : ℕ) → p ≢ 0 → held (s.vm ∷ vms) p ≤ s.phys.refs p
  pub exclusive : (p : ℕ) → p ≢ 0 → has (s.phys.flags p) prot_write ≡ true → held (s.vm ∷ vms) p ≤ 1
  pub zero_base : held (s.vm ∷ vms) 1 < s.phys.refs 1
  pub zero_flags : s.phys.flags 1 ≡ prot_read
  pub same_mem : s.phys.mem ≡ mem
  pub copied :
      (k : ℕ)
      → k < i
      → source.pagemap k ≢ 0
      → (s.vm.pagemap k ≡ source.pagemap k) × (s.vm.pageflags k ≡ source.pageflags k)
  pub small : (p : ℕ) → s.phys.refs p + (local_pages - i) < 2 ^ 32

IsSharing-next :
    (vms : List Vm) (source : Vm) (i : ℕ) (mem : ℕ → ℕ) (s t : Space)
    → i < local_pages
    → IsSharing vms source i mem s
    → IsShared source i s t
    → IsSharing vms source (i + 1) mem t
unfolding held
IsSharing-next vms source i mem s t below inv sh = record {
  counted = λ p h.
      let m = sh.mapped_at p below in
      let c = inv.counted p h in let r = sh.refs_at p in let b = inv.small p in ground arith;
  exclusive = λ p h o.
      let m = sh.mapped_at p below in
      let c = sh.closed p o in let e = inv.exclusive p h c.1 in let ne = c.0 in ground arith;
  zero_base =
      let m = sh.mapped_at 1 below in
      let c = inv.zero_base in let r = sh.refs_at 1 in let b = inv.small 1 in ground arith;
  zero_flags = sh.flags_one ∙ inv.zero_flags;
  same_mem = sh.mem_kept ∙ inv.same_mem;
  copied = λ k h u.
      let a = sh.pagemap_at k in let f = sh.pageflags_at k in let c = inv.copied k in ground arith;
  small = λ p. let r = sh.refs_at p in let b = inv.small p in ground arith;
}

pub clone_pages-IsSharing :
    (n i : ℕ) (vms : List Vm) (source : Vm) (mem : ℕ → ℕ) (s : Space)
    → i + n ≡ local_pages
    → IsSharing vms source i mem s
    → (t : Space) × (clone_pages n i source s ≡ ok (tt, t)) × IsSharing vms source local_pages mem t
unfolding clone_pages
clone_pages-IsSharing zero i vms source mem s e inv =
    let same : i ≡ local_pages = omega arith in (s, refl, rw (← same) inv)
clone_pages-IsSharing (suc n) i vms source mem s e inv = elim (Bool-cases (source.pagemap i == 0)) [
  | inl hole ↦
      let skip : clone_page source i s ≡ ok (tt, s) = unfold clone_page in ground arith in
      let next : IsSharing vms source (i + 1) mem s = record {
        counted = inv.counted;
        exclusive = inv.exclusive;
        zero_base = inv.zero_base;
        zero_flags = inv.zero_flags;
        same_mem = inv.same_mem;
        copied = λ k h u. let c = inv.copied k in ground arith;
        small = λ p. let b = inv.small p in omega (arith, b);
      } in
      let (t, runs, done) = clone_pages-IsSharing n (i + 1) vms source mem s (omega arith) next in
      (t, ground arith, done)
  | inr used ↦
      let (u, one, sh) = clone_page-IsShared source i s (ground arith) inv.zero_flags in
      let next = IsSharing-next vms source i mem s u (omega arith) inv sh in
      let (t, runs, done) = clone_pages-IsSharing n (i + 1) vms source mem u (omega arith) next in
      (t, ground arith, done)
]
