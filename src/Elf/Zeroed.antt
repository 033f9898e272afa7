-- ===== src/Elf/Zeroed.antt =====
-- The page of zeros, mapped once more by `loadElf` of src/process.js.
use noopsys.Base.{
  ℕ, zero, suc, ◌+◌, ◌/◌, ◌%◌, ◌^◌, ◌<◌, ◌≡◌, ◌≢◌, refl, true, false, some, List, ◌∷◌, arith, ◌==◌,
  if◌then◌else◌, update, get_elem?, Bool-cases, inl, inr,
}
use noopsys.Base.Word.{u32, has}
use noopsys.Base.Result.{ok}
use noopsys.Constants.{prot_write}
use noopsys.Physical.{zero_page}
use noopsys.Space.{Vm, Space}
use noopsys.Space.Count.{one_if, mapped-update}
use noopsys.Space.Safe.{local_pages, held, IsCoherent, IsSafe, view}
use noopsys.Elf.Load.{new_zero_page, set_flags}
use noopsys.Elf.Mapped.{seen, IsCoherent-same, IsCoherent-filled}

pub record IsZeroMapped (local : ℕ) (s s' : Space) : Type 0 where
  pub refs_at :
      (q : ℕ) → s'.phys.refs q ≡ (if q == 1 then u32 (s.phys.refs 1 + 1) else s.phys.refs q)
  pub flags_same : s'.phys.flags ≡ s.phys.flags
  pub mem_same : s'.phys.mem ≡ s.phys.mem
  pub map_at : s'.vm.pagemap ≡ update s.vm.pagemap local 1
  pub tlb_same : s'.vm.tlb ≡ s.vm.tlb

pub new_zero_page-IsZeroMapped :
    (local prot : ℕ) (s s' : Space)
    → new_zero_page local prot s ≡ ok (tt, s')
    → IsZeroMapped local s s'
unfolding new_zero_page set_flags zero_page
new_zero_page-IsZeroMapped local prot s s' h = record {
  refs_at = λ q. ground arith;
  flags_same = ground arith;
  mem_same = ground arith;
  map_at = ground arith;
  tlb_same = ground arith;
}

module _ (others : List Vm) (local : ℕ) (s s' : Space) (below : local < local_pages)
    (hole : s.vm.pagemap local ≡ 0) (m : IsZeroMapped local s s')
    (room : s.phys.refs 1 + 1 < 2 ^ 32) (safe : IsSafe s.phys (s.vm ∷ others)) where
  pub held-zeroed :
      (p : ℕ) → p ≢ 0 → held (s'.vm ∷ others) p ≡ held (s.vm ∷ others) p + one_if (1 == p)
  unfolding held
  held-zeroed p some_p =
      ground (arith, m.map_at, hole, mapped-update local_pages s.vm.pagemap local 1 p below)

  not_open : (p : ℕ) → p ≡ 1 → has (s.phys.flags p) prot_write ≡ false
  unfolding has
  not_open p one = ground (arith, safe.zero_flags)

  pub zeroed-IsSafe : IsSafe s'.phys (s'.vm ∷ others)
  zeroed-IsSafe = record {
    counted = λ p h. ground (arith, held-zeroed p h, safe.counted p h, m.refs_at p);
    exclusive = λ p h w.
        let was : has (s.phys.flags p) prot_write ≡ true = rw (← m.flags_same) w in
        ground (arith, held-zeroed p h, safe.exclusive p h, not_open p);
    zero_base = ground (arith, held-zeroed 1, safe.zero_base, m.refs_at 1);
    zero_flags = rw m.flags_same safe.zero_flags;
    zero_clean = λ i h. rw m.mem_same (safe.zero_clean i h);
    coherent = all_coherent;
  }
    where
      all_coherent :
          (k : ℕ) (vm : Vm) → get_elem? (s'.vm ∷ others) k ≡ some vm → IsCoherent s'.phys vm
      all_coherent zero vm e =
          let same : s'.vm ≡ vm = ground arith in
          rw (← same) (
            IsCoherent-filled s.phys s'.phys s.vm s'.vm local 1 hole m.map_at m.tlb_same
              (λ i within w. rw m.flags_same w) (safe.coherent 0 s.vm refl))
      all_coherent (suc k) vm e =
          IsCoherent-same s.phys s'.phys vm (λ i within w. rw m.flags_same w)
            (safe.coherent (suc k) vm e)

  pub zeroed-seen : (a : ℕ) → seen s' a ≡ seen s a
  zeroed-seen a = elim (Bool-cases (a / 65536 == local)) [
    | inl here ↦
        let at : a / 65536 ≡ local = ground arith in
        let now : s'.vm.pagemap (a / 65536) ≡ 1 = ground (arith, m.map_at) in
        let was : s.vm.pagemap (a / 65536) ≡ 0 = rw at hole in
        rw (now, was, m.mem_same) (ground (arith, safe.zero_clean (a % 65536) (omega arith)))
    | inr away ↦
        let same : s'.vm.pagemap (a / 65536) ≡ s.vm.pagemap (a / 65536) =
          ground (arith, m.map_at) in
        rw m.mem_same (ground (arith, same))
  ]

  pub zeroed-other : (vm : Vm) (a : ℕ) → view s'.phys vm a ≡ view s.phys vm a
  zeroed-other vm a = rw m.mem_same refl
