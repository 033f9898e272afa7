-- ===== src/Space/Fork/Child.antt =====
-- The child that `cloneFrom` of src/process.js makes, against its parent.
use noopsys.Base.{
  ℕ, zero, suc, ◌+◌, ◌^◌, ◌<◌, ◌≡◌, ◌≢◌, refl, ◌∙◌, ap, false, some, List, [], ◌∷◌, arith, ◌==◌,
  get_elem?,
}
use noopsys.Base.Word.{has}
use noopsys.Base.Result.{Error, Result, ok, err}
use noopsys.Constants.{prot_write}
use noopsys.Physical.{Phys}
use noopsys.Space.{Vm, Space, invalidate_hacks, empty_tlb}
use noopsys.Space.Count.{one_if, mapped, mapped-update, mapped-none}
use noopsys.Space.Safe.{local_pages, held, IsCoherent-empty, IsSafe}
use noopsys.Space.Fork.{init_memory, fork_memory, invalidate_all}
use noopsys.Space.Fork.Shared.{IsSharing, clone_pages-IsSharing}
use noopsys.Space.Fork.Init.{IsInitialised, init_memory-IsInitialised}

held-invalidate_all : (vms : List Vm) (p : ℕ) → held (invalidate_all vms) p ≡ held vms p
unfolding held invalidate_all invalidate_hacks
held-invalidate_all [] p = refl
held-invalidate_all (vm ∷ vms) p =
    ap (λ h. mapped local_pages vm.pagemap p + h) (held-invalidate_all vms p)

invalidate_all-empty :
    (vms : List Vm) (k : ℕ) (vm : Vm)
    → get_elem? (invalidate_all vms) k ≡ some vm
    → vm.tlb ≡ empty_tlb
unfolding invalidate_all invalidate_hacks
invalidate_all-empty [] k vm h = cc
invalidate_all-empty (v ∷ vms) zero vm h = ground arith
invalidate_all-empty (v ∷ vms) (suc k) vm h = invalidate_all-empty vms k vm h

-- The state in which `cloneFrom` starts to share pages.
IsSharing-start :
    (vdso_at vdso_page : ℕ) (source : Vm) (others : List Vm) (s t : Phys) (vm : Vm)
    → vdso_at < local_pages
    → vdso_page ≢ 0
    → vdso_page ≢ 1
    → has (s.flags vdso_page) prot_write ≡ false
    → ((p : ℕ) → s.refs p < 2 ^ 31)
    → IsSafe s (source ∷ others)
    → IsInitialised vdso_at vdso_page s t vm
    → IsSharing (source ∷ others) source 0 s.mem (record { phys = t; vm = vm })
unfolding held
IsSharing-start vdso_at vdso_page source others s t vm below ne0 ne1 shut small safe i =
    let entry : (p : ℕ) → p ≢ 0 → mapped local_pages vm.pagemap p ≡ one_if (vdso_page == p) = λ p h.
      ground (
        arith,
        ap (λ f. mapped local_pages f p) i.pagemap_is,
        mapped-none local_pages p h,
        mapped-update local_pages (λ _. 0) vdso_at vdso_page p below,
      ) in
    record {
      counted = λ p h.
          let e = entry p h in let c = safe.counted p h in let r = i.refs_up p in omega arith;
      exclusive = λ p h o.
          let e = entry p h in let w = i.closed p o in let x = safe.exclusive p h w in ground arith;
      zero_base =
          let e = entry 1 (omega arith) in
          let c = safe.zero_base in let r = i.refs_up 1 in ground arith;
      zero_flags = i.flags_one ∙ safe.zero_flags;
      same_mem = i.mem_kept;
      copied = λ k h u. absurd (omega arith);
      small = λ p. let r = i.refs_small p in let b = small p in omega arith;
    }

-- What a fork has done: `child` is the new table, which maps what the parent maps.
pub record IsForked (source child : Vm) (others : List Vm) (s t : Phys) : Type 0 where
  pub safe : IsSafe t (invalidate_all (child ∷ source ∷ others))
  pub same_mem : t.mem ≡ s.mem
  pub copied :
      (k : ℕ)
      → k < local_pages
      → source.pagemap k ≢ 0
      → (child.pagemap k ≡ source.pagemap k) × (child.pageflags k ≡ source.pageflags k)

IsSharing-IsForked :
    (source : Vm) (others : List Vm) (s : Phys) (u : Space)
    → IsSafe s (source ∷ others)
    → IsSharing (source ∷ others) source local_pages s.mem u
    → IsForked source u.vm others s u.phys
IsSharing-IsForked source others s u safe inv =
    let all = u.vm ∷ source ∷ others in
    record {
      safe = record {
        counted = λ p h. rw (held-invalidate_all all p) (inv.counted p h);
        exclusive = λ p h o. rw (held-invalidate_all all p) (inv.exclusive p h o);
        zero_base = rw (held-invalidate_all all 1) inv.zero_base;
        zero_flags = inv.zero_flags;
        zero_clean = λ i h. ap (λ m. m (65536 + i)) inv.same_mem ∙ safe.zero_clean i h;
        coherent = λ k vm e. IsCoherent-empty u.phys vm (invalidate_all-empty all k vm e);
      };
      same_mem = inv.same_mem;
      copied = inv.copied;
    }

-- A fork that gets its table from the allocators keeps the invariant, with the child as one more
-- process and every cache of translations emptied. No byte of memory changes, and what the parent
-- maps the child maps to the same page with the same protection. The page of trampolines is an
-- ordinary page that no process may write, and the counters have room.
pub fork_memory-IsForked :
    (vdso_at vdso_page : ℕ) (source child : Vm) (others : List Vm) (s t : Phys)
    → vdso_at < local_pages
    → vdso_page ≢ 0
    → vdso_page ≢ 1
    → has (s.flags vdso_page) prot_write ≡ false
    → ((p : ℕ) → s.refs p < 2 ^ 31)
    → IsSafe s (source ∷ others)
    → fork_memory vdso_at vdso_page source s ≡ ok (child, t)
    → IsForked source child others s t
unfolding fork_memory
fork_memory-IsForked vdso_at vdso_page source child others s t below ne0 ne1 shut small safe h =
    go (init_memory vdso_at vdso_page s) refl
  where
    go :
        (r : Result (Vm × Phys))
        → init_memory vdso_at vdso_page s ≡ r
        → IsForked source child others s t
    go (ok (vm, p)) e =
        let i = init_memory-IsInitialised vdso_at vdso_page s p vm small e in
        let start =
          IsSharing-start vdso_at vdso_page source others s p vm below ne0 ne1 shut small safe i in
        let (u, runs, done) =
          clone_pages-IsSharing 32768 0 (source ∷ others) source s.mem
            (record { phys = p; vm = vm }) (omega arith) start in
        let is_child : u.vm ≡ child = ground arith in
        let is_t : u.phys ≡ t = ground arith in
        rw (← is_child, ← is_t) (IsSharing-IsForked source others s u safe done)
    go (err x) e = absurd (ground arith)

-- A fork fails only if a new process's table or entry cannot be allocated.
pub fork_memory-fails :
    (vdso_at vdso_page : ℕ) (source : Vm) (others : List Vm) (s : Phys) (e : Error)
    → vdso_at < local_pages
    → vdso_page ≢ 0
    → vdso_page ≢ 1
    → has (s.flags vdso_page) prot_write ≡ false
    → ((p : ℕ) → s.refs p < 2 ^ 31)
    → IsSafe s (source ∷ others)
    → fork_memory vdso_at vdso_page source s ≡ err e
    → init_memory vdso_at vdso_page s ≡ err e
unfolding fork_memory
fork_memory-fails vdso_at vdso_page source others s e below ne0 ne1 shut small safe h =
    go (init_memory vdso_at vdso_page s) refl
  where
    go :
        (r : Result (Vm × Phys))
        → init_memory vdso_at vdso_page s ≡ r
        → init_memory vdso_at vdso_page s ≡ err e
    go (ok (vm, p)) g =
        let i = init_memory-IsInitialised vdso_at vdso_page s p vm small g in
        let start =
          IsSharing-start vdso_at vdso_page source others s p vm below ne0 ne1 shut small safe i in
        let (u, runs, done) =
          clone_pages-IsSharing 32768 0 (source ∷ others) source s.mem
            (record { phys = p; vm = vm }) (omega arith) start in
        absurd (ground arith)
    go (err x) g = ground arith
