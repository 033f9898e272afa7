-- ===== src/Space/Exit/Returned.antt =====
-- The loop of `freeResources` in src/process.js, whole.
use mathlib.Core.Path.{fun_ext}
use noopsys.Base.{
  ℕ, zero, suc, ◌+◌, ◌≤◌, ◌≡◌, ◌≢◌, refl, ◌∙◌, ap, List, ◌∷◌, arith, ◌==◌, Bool-cases, inl, inr,
}
use noopsys.Base.Result.{ok}
use noopsys.Physical.{Phys}
use noopsys.Space.{Vm}
use noopsys.Space.Count.{mapped, mapped-pos}
use noopsys.Space.Safe.{local_pages, held, IsSafe}
use noopsys.Space.Exit.{free_entry, free_entries}
use noopsys.Space.Exit.Release.{rest_of, IsReleasing, free_page-IsFreed, IsReleasing-next}

free_entries-IsReleasing :
    (n i : ℕ) (vm : Vm) (others : List Vm) (mem : ℕ → ℕ) (s : Phys)
    → i + n ≡ local_pages
    → IsReleasing vm others i mem s
    → (t : Phys) × (free_entries n i vm s ≡ ok (tt, t)) × IsReleasing vm others local_pages mem t
unfolding free_entries free_entry
free_entries-IsReleasing zero i vm others mem s e inv =
    let same : i ≡ local_pages = omega arith in (s, refl, rw (← same) inv)
free_entries-IsReleasing (suc n) i vm others mem s e inv = elim (Bool-cases (vm.pagemap i == 0)) [
  | inl hole ↦
      let same : rest_of vm (i + 1) ≡ rest_of vm i = fun_ext λ k. ground arith in
      let count : (p : ℕ)
          → mapped local_pages (rest_of vm (i + 1)) p ≡ mapped local_pages (rest_of vm i) p =
        λ p. ap (λ g. mapped local_pages g p) same in
      let next : IsReleasing vm others (i + 1) mem s = record {
        counted = λ p h. let c = inv.counted p h in let m = count p in omega arith;
        exclusive = λ p h o. let c = inv.exclusive p h o in let m = count p in omega arith;
        zero_base = let c = inv.zero_base in let m = count 1 in omega arith;
        zero_flags = inv.zero_flags;
        same_mem = inv.same_mem;
        coherent = inv.coherent;
      } in
      let (t, runs, done) = free_entries-IsReleasing n (i + 1) vm others mem s (omega arith) next in
      (t, ground arith, done)
  | inr used ↦
      let present : vm.pagemap i ≢ 0 = ground arith in
      let here : rest_of vm i i ≡ vm.pagemap i = ground arith in
      let one_left : 1 ≤ mapped local_pages (rest_of vm i) (vm.pagemap i) = omega (
        arith,
        mapped-pos local_pages (rest_of vm i) i (omega arith),
        ap (mapped local_pages (rest_of vm i)) here,
      ) in
      let base : vm.pagemap i ≡ 1 → 2 ≤ s.refs (vm.pagemap i) = λ one. omega (
        arith,
        inv.zero_base,
        one_left,
        ap (mapped local_pages (rest_of vm i)) one,
        ap s.refs one,
      ) in
      let (u, freed, f) =
        free_page-IsFreed (vm.pagemap i) s
          (omega (arith, one_left, inv.counted (vm.pagemap i) present)) base in
      let next = IsReleasing-next vm others i mem s u (omega arith) present inv f in
      let (t, runs, done) = free_entries-IsReleasing n (i + 1) vm others mem u (omega arith) next in
      (t, ground arith, done)
]

-- The pages of a process that ends can always be given back: the loop never throws. Afterwards the
-- other processes' page tables are safe, and no byte of memory has changed.
pub free_entries-IsSafe :
    (vm : Vm) (others : List Vm) (s : Phys)
    → IsSafe s (vm ∷ others)
    → (t : Phys) × (free_entries 32768 0 vm s ≡ ok (tt, t)) × IsSafe t others × (t.mem ≡ s.mem)
unfolding held
free_entries-IsSafe vm others s safe =
    let all : rest_of vm 0 ≡ vm.pagemap = fun_ext λ k. ground arith in
    let count : (p : ℕ) → mapped local_pages (rest_of vm 0) p ≡ mapped local_pages vm.pagemap p =
      λ p. ap (λ g. mapped local_pages g p) all in
    let start : IsReleasing vm others 0 s.mem s = record {
      counted = λ p h. let c = safe.counted p h in let m = count p in omega arith;
      exclusive = λ p h o. let c = safe.exclusive p h o in let m = count p in omega arith;
      zero_base = let c = safe.zero_base in let m = count 1 in omega arith;
      zero_flags = safe.zero_flags;
      same_mem = refl;
      coherent = λ k v e. safe.coherent (suc k) v e;
    } in
    let (t, runs, done) = free_entries-IsReleasing 32768 0 vm others s.mem s (omega arith) start in
    (
      t,
      runs,
      record {
        counted = λ p h. omega (arith, done.counted p h);
        exclusive = λ p h o. omega (arith, done.exclusive p h o);
        zero_base = omega (arith, done.zero_base);
        zero_flags = done.zero_flags;
        zero_clean = λ i h. ap (λ m. m (65536 + i)) done.same_mem ∙ safe.zero_clean i h;
        coherent = done.coherent;
      },
      done.same_mem,
    )
