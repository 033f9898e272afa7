-- ===== src/Space/Exit/Release.antt =====
-- The invariant of the pages while `freeResources` of src/process.js gives a table back.
use mathlib.Core.Path.{fun_ext}
use noopsys.Base.{
  ℕ, ◌+◌, ◌-◌, ◌≤◌, ◌<◌, ◌≡◌, ◌≢◌, refl, ◌∙◌, ap, true, false, some, List, arith, ◌==◌,
  if◌then◌else◌, update, get_elem?, Bool-cases, inl, inr, ltb,
}
use noopsys.Base.Word.{has}
use noopsys.Base.Result.{ok}
use noopsys.Constants.{prot_read, prot_write}
use noopsys.Physical.{Phys, free_page}
use noopsys.Space.{Vm}
use noopsys.Space.Count.{one_if, mapped, mapped-update}
use noopsys.Space.Safe.{local_pages, held, held-pos, IsCoherent}

-- The entries that are still to be given back.
abbrev pub rest_of : Vm → ℕ → ℕ → ℕ
rest_of vm i k = if ltb k i then 0 else vm.pagemap k

rest_of-next : (vm : Vm) (i : ℕ) → rest_of vm (i + 1) ≡ update (rest_of vm i) i 0
rest_of-next vm i = fun_ext λ k. ground arith

-- The invariant while entries below `i` are given back.
pub record IsReleasing (vm : Vm) (others : List Vm) (i : ℕ) (mem : ℕ → ℕ) (s : Phys) : Type 0 where
  pub counted : (p : ℕ) → p ≢ 0 → mapped local_pages (rest_of vm i) p + held others p ≤ s.refs p
  pub exclusive :
      (p : ℕ)
      → p ≢ 0
      → has (s.flags p) prot_write ≡ true
      → mapped local_pages (rest_of vm i) p + held others p ≤ 1
  pub zero_base : mapped local_pages (rest_of vm i) 1 + held others 1 < s.refs 1
  pub zero_flags : s.flags 1 ≡ prot_read
  pub same_mem : s.mem ≡ mem
  pub coherent : (k : ℕ) (v : Vm) → get_elem? others k ≡ some v → IsCoherent s v

-- What giving back page `q` does.
pub record IsFreed (q : ℕ) (s t : Phys) : Type 0 where
  pub refs_at : (p : ℕ) → t.refs p ≡ (if p == q then s.refs p - 1 else s.refs p)
  pub flags_at : (p : ℕ) → t.refs p ≢ 0 → t.flags p ≡ s.flags p
  pub closed : (p : ℕ) → has (t.flags p) prot_write ≡ true → has (s.flags p) prot_write ≡ true
  pub mem_kept : t.mem ≡ s.mem

none_shut : has 0 prot_write ≡ false
unfolding has
none_shut = refl

pub free_page-IsFreed :
    (q : ℕ) (s : Phys)
    → 1 ≤ s.refs q
    → (q ≡ 1 → 2 ≤ s.refs q)
    → (t : Phys) × (free_page q s ≡ ok (tt, t)) × IsFreed q s t
unfolding free_page
free_page-IsFreed q s used base = elim (Bool-cases (s.refs q == 1)) [
  | inl last ↦
      let shut = none_shut in
      (
        record s { refs = update s.refs q 0; flags = update s.flags q 0 },
        ground arith,
        record {
          refs_at = λ p. ground arith;
          flags_at = λ p h. ground arith;
          closed = λ p h. ground arith;
          mem_kept = refl;
        },
      )
  | inr more ↦ (
    record s { refs = update s.refs q (s.refs q - 1) },
    ground arith,
    record {
      refs_at = λ p. ground arith;
      flags_at = λ p h. refl;
      closed = λ p h. h;
      mem_kept = refl;
    },
  )
]

-- An open page of a cached store is still in use, so it stays open.
IsCoherent-freed :
    (q : ℕ) (others : List Vm) (k : ℕ) (v : Vm) (s t : Phys)
    → get_elem? others k ≡ some v
    → IsFreed q s t
    → ((p : ℕ) → p ≢ 0 → held others p ≤ t.refs p)
    → IsCoherent s v
    → IsCoherent t v
IsCoherent-freed q others k v s t e f counted c = record {
  old = c.old;
  older = c.older;
  writes = c.writes;
  code = c.code;
  older_code = c.older_code;
  writable = λ h.
      let (below, used, same) = c.writes h in
      let page = v.pagemap v.tlb.opt_old_write_addr in
      let alive : t.refs page ≢ 0 =
        omega (arith, held-pos others k v v.tlb.opt_old_write_addr e below, counted page used) in
      ap (λ x. has x prot_write) (f.flags_at page alive) ∙ c.writable h;
}

pub IsReleasing-next :
    (vm : Vm) (others : List Vm) (i : ℕ) (mem : ℕ → ℕ) (s t : Phys)
    → i < local_pages
    → vm.pagemap i ≢ 0
    → IsReleasing vm others i mem s
    → IsFreed (vm.pagemap i) s t
    → IsReleasing vm others (i + 1) mem t
IsReleasing-next vm others i mem s t below used inv f =
    let moved : (p : ℕ)
        → p ≢ 0
        → mapped local_pages (rest_of vm (i + 1)) p + one_if (vm.pagemap i == p)
          ≡ mapped local_pages (rest_of vm i) p =
      λ p h. ground (
        arith,
        ap (λ g. mapped local_pages g p) (rest_of-next vm i),
        mapped-update local_pages (rest_of vm i) i 0 p below,
      ) in
    let counted : (p : ℕ)
        → p ≢ 0
        → mapped local_pages (rest_of vm (i + 1)) p + held others p ≤ t.refs p =
      λ p h. let m = moved p h in let c = inv.counted p h in let r = f.refs_at p in ground arith in
    record {
      counted = counted;
      exclusive =
          λ p h o. let m = moved p h in let x = inv.exclusive p h (f.closed p o) in omega arith;
      zero_base =
          let m = moved 1 (omega arith) in
          let z = inv.zero_base in let r = f.refs_at 1 in ground arith;
      zero_flags =
          f.flags_at 1 (
            let z = inv.zero_base in
            let r = f.refs_at 1 in let m = moved 1 (omega arith) in ground arith)
          ∙ inv.zero_flags;
      same_mem = f.mem_kept ∙ inv.same_mem;
      coherent = λ k v e.
          IsCoherent-freed (vm.pagemap i) others k v s t e f (λ p h. omega (arith, counted p h))
            (inv.coherent k v e);
    }
