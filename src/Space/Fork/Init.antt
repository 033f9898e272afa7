-- ===== src/Space/Fork/Init.antt =====
-- `initMemory` of src/process.js, and what it does to the pages.
use noopsys.Base.{
  ℕ, ◌+◌, ◌^◌, ◌≤◌, ◌<◌, ◌≡◌, refl, ◌∙◌, ap, true, false, arith, ◌==◌, update, Option-cases, inl,
  inr,
}
use noopsys.Base.Word.{has, u32}
use noopsys.Base.Result.{Result, ok, err}
use noopsys.Constants.{prot_none, prot_write}
use noopsys.Physical.{Phys, allocate_page, allocate_state_entry, find_entry}
use noopsys.Physical.Laws.{allocate_page-IsAllocated}
use noopsys.Space.{Vm}
use noopsys.Space.Count.{one_if}
use noopsys.Space.Fork.{init_memory}

-- An unused page comes into use for a table.
record IsReserved (s t : Phys) : Type 0 where
  refs_up : (p : ℕ) → s.refs p ≤ t.refs p
  refs_small : (p : ℕ) → t.refs p ≤ s.refs p + 1
  closed : (p : ℕ) → has (t.flags p) prot_write ≡ true → has (s.flags p) prot_write ≡ true
  flags_one : t.flags 1 ≡ s.flags 1
  mem_kept : t.mem ≡ s.mem

none_shut : has 0 prot_write ≡ false
unfolding has
none_shut = refl

allocate_page-IsReserved :
    (b : ℕ) (s t : Phys) → allocate_page prot_none s ≡ ok (b, t) → IsReserved s t
allocate_page-IsReserved b s t h =
    let a = allocate_page-IsAllocated prot_none b s t h in
    let low = a.low in
    let now = a.refs_now in
    let unused = a.unused in
    let flags_now = a.flags_now in
    let shut = none_shut in
    record {
      refs_up = λ p. let k = a.refs_kept p in ground arith;
      refs_small = λ p. let k = a.refs_kept p in ground arith;
      closed = λ p o. let k = a.flags_kept p in ground arith;
      flags_one = a.flags_kept 1 (omega arith);
      mem_kept = a.mem_kept;
    }

allocate_state_entry-IsReserved :
    (e : ℕ) (s t : Phys) → allocate_state_entry s ≡ ok (e, t) → IsReserved s t
unfolding allocate_state_entry
allocate_state_entry-IsReserved e s t h = elim (Option-cases (find_entry 1024 0 s.in_use)) [
  | inl full ↦ absurd (ground arith)
  | inr (p, found) ↦
      let refs_is : t.refs ≡ s.refs = ground arith in
      let flags_is : t.flags ≡ s.flags = ground arith in
      record {
        refs_up = λ p. omega (arith, ap (λ f. f p) refs_is);
        refs_small = λ p. omega (arith, ap (λ f. f p) refs_is);
        closed = λ p o. rw flags_is at o;
        flags_one = ap (λ f. f 1) flags_is;
        mem_kept = ground arith;
      }
]

-- What `initMemory` has done to the pages.
pub record IsInitialised (vdso_at vdso_page : ℕ) (s t : Phys) (vm : Vm) : Type 0 where
  pub refs_up : (p : ℕ) → s.refs p + one_if (vdso_page == p) ≤ t.refs p
  pub refs_small : (p : ℕ) → t.refs p ≤ s.refs p + 4
  pub closed : (p : ℕ) → has (t.flags p) prot_write ≡ true → has (s.flags p) prot_write ≡ true
  pub flags_one : t.flags 1 ≡ s.flags 1
  pub mem_kept : t.mem ≡ s.mem
  pub pagemap_is : vm.pagemap ≡ update (λ _. 0) vdso_at vdso_page

pub init_memory-IsInitialised :
    (vdso_at vdso_page : ℕ) (s t : Phys) (vm : Vm)
    → ((p : ℕ) → s.refs p < 2 ^ 31)
    → init_memory vdso_at vdso_page s ≡ ok (vm, t)
    → IsInitialised vdso_at vdso_page s t vm
unfolding init_memory
init_memory-IsInitialised vdso_at vdso_page s t vm small h = first (allocate_state_entry s) refl
  where
    third :
        (e b : ℕ) (s1 s2 : Phys)
        → allocate_state_entry s ≡ ok (e, s1)
        → IsReserved s s1
        → allocate_page prot_none s1 ≡ ok (b, s2)
        → (r : Result (ℕ × Phys)) → allocate_page prot_none s2 ≡ r
        → IsInitialised vdso_at vdso_page s t vm
    third e b s1 s2 g0 r1 g1 (ok (c, s3)) g2 =
        let r2 = allocate_page-IsReserved b s1 s2 g1 in
        let r3 = allocate_page-IsReserved c s2 s3 g2 in
        let refs_is : (p : ℕ)
            → t.refs p ≡ update s3.refs vdso_page (u32 (s3.refs vdso_page + 1)) p =
          λ p. ground arith in
        let flags_is : t.flags ≡ s3.flags = ground arith in
        let mem_is : t.mem ≡ s3.mem = ground arith in
        record {
          refs_up = λ p. ground (
            arith,
            refs_is p,
            small p,
            small vdso_page,
            r1.refs_up p,
            r2.refs_up p,
            r3.refs_up p,
            r1.refs_small p,
            r2.refs_small p,
            r3.refs_small p,
            r1.refs_small vdso_page,
            r2.refs_small vdso_page,
            r3.refs_small vdso_page,
          );
          refs_small =
              λ p. ground (arith, refs_is p, r1.refs_small p, r2.refs_small p, r3.refs_small p);
          closed = λ p o. r1.closed p (r2.closed p (r3.closed p (rw flags_is at o)));
          flags_one = ap (λ f. f 1) flags_is ∙ r3.flags_one ∙ r2.flags_one ∙ r1.flags_one;
          mem_kept = mem_is ∙ r3.mem_kept ∙ r2.mem_kept ∙ r1.mem_kept;
          pagemap_is = ground arith;
        }
    third e b s1 s2 g0 r1 g1 (err x) g2 = absurd (ground arith)

    second :
        (e : ℕ) (s1 : Phys)
        → allocate_state_entry s ≡ ok (e, s1)
        → IsReserved s s1
        → (r : Result (ℕ × Phys)) → allocate_page prot_none s1 ≡ r
        → IsInitialised vdso_at vdso_page s t vm
    second e s1 g0 r1 (ok (b, s2)) g1 = third e b s1 s2 g0 r1 g1 (allocate_page prot_none s2) refl
    second e s1 g0 r1 (err x) g1 = absurd (ground arith)

    first :
        (r : Result (ℕ × Phys))
        → allocate_state_entry s ≡ r
        → IsInitialised vdso_at vdso_page s t vm
    first (ok (e, s1)) g0 =
        second e s1 g0 (allocate_state_entry-IsReserved e s s1 g0) (allocate_page prot_none s1) refl
    first (err x) g0 = absurd (ground arith)
