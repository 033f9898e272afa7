-- ===== src/Elf/Mapped.antt =====
-- The pages that `loadElf` of src/process.js maps: pages of zeros where there was nothing.
use noopsys.Base.{
  ℕ, zero, suc, ◌+◌, ◌*◌, ◌/◌, ◌%◌, ◌≤◌, ◌<◌, ◌≡◌, ◌≢◌, refl, ap, true, some, List, ◌∷◌, arith,
  ◌==◌, if◌then◌else◌, update, get_elem?, Option-cases, Bool-cases, inl, inr,
}
use noopsys.Base.Word.{has}
use noopsys.Base.Result.{ok}
use noopsys.Constants.{prot_write}
use noopsys.Physical.{Phys, find_page, allocate_page, do_zero_page}
use noopsys.Physical.Laws.{find_page-some}
use noopsys.Physical.Words.{zero_page_bytes}
use noopsys.Space.{Vm, Space}
use noopsys.Space.Count.{one_if, mapped-update}
use noopsys.Space.Safe.{local_pages, held, held-pos, Agrees, IsCoherent, IsSafe, view}
use noopsys.Elf.Load.{new_page, set_flags}

-- What the process sees at an address, where nothing mapped is as good as zeros.
abbrev pub seen : Space → ℕ → ℕ
seen s a = if s.vm.pagemap (a / 65536) == 0 then 0 else view s.phys s.vm a

-- A page that nobody used, full of zeros, has been mapped.
pub record IsMapped (local prot new : ℕ) (s s' : Space) : Type 0 where
  pub fresh : s.phys.refs new ≡ 0
  pub above : 10 ≤ new
  pub refs_at : (q : ℕ) → s'.phys.refs q ≡ (if q == new then 1 else s.phys.refs q)
  pub flags_at : (q : ℕ) → s'.phys.flags q ≡ (if q == new then prot else s.phys.flags q)
  pub mem_at : (a : ℕ) → s'.phys.mem a ≡ (if a / 65536 == new then 0 else s.phys.mem a)
  pub map_at : s'.vm.pagemap ≡ update s.vm.pagemap local new
  pub tlb_same : s'.vm.tlb ≡ s.vm.tlb

pub new_page-IsMapped :
    (local prot : ℕ) (s s' : Space)
    → new_page local prot s ≡ ok (tt, s')
    → (new : ℕ) × IsMapped local prot new s s'
unfolding new_page set_flags allocate_page do_zero_page zero_page_bytes
new_page-IsMapped local prot s s' h = elim (Option-cases (find_page 4086 10 s.phys.refs)) [
  | inl full ↦ absurd (ground arith)
  | inr (n, e) ↦
      let found = find_page-some 4086 10 s.phys.refs n e in
      (
        n,
        record {
          fresh = ground arith;
          above = ground arith;
          refs_at = λ q. ground arith;
          flags_at = λ q. ground arith;
          mem_at = λ a. ground arith;
          map_at = ground arith;
          tlb_same = ground arith;
        },
      )
]

-- The writable pages that a page table maps stay writable.
abbrev StaysOpen : Phys → Phys → Vm → Type 0
StaysOpen phys phys' vm =
    (i : ℕ)
    → i < local_pages
    → has (phys.flags (vm.pagemap i)) prot_write ≡ true
    → has (phys'.flags (vm.pagemap i)) prot_write ≡ true

-- The cached translations of a process whose page table is as before.
pub IsCoherent-same :
    (phys phys' : Phys) (vm : Vm)
    → StaysOpen phys phys' vm
    → IsCoherent phys vm
    → IsCoherent phys' vm
IsCoherent-same phys phys' vm stays c = record {
  old = c.old;
  older = c.older;
  writes = c.writes;
  code = c.code;
  older_code = c.older_code;
  writable = λ h. stays vm.tlb.opt_old_write_addr (c.writes h).0 (c.writable h);
}

-- The cached entries of a process are for pages that were mapped before a hole was filled.
module _ (phys phys' : Phys) (vm vm' : Vm) (local new : ℕ) (hole : vm.pagemap local ≡ 0)
    (map_at : vm'.pagemap ≡ update vm.pagemap local new) (tlb_same : vm'.tlb ≡ vm.tlb)
    (stays : StaysOpen phys phys' vm) (c : IsCoherent phys vm) where
  agrees : (a page : ℕ) → Agrees vm.pagemap a page → Agrees vm'.pagemap a page
  agrees a page entry small =
      let (within, used, e) = entry small in
      let same : vm'.pagemap a ≡ vm.pagemap a = ground (arith, map_at) in
      (within, rw same used, rw same e)

  pub IsCoherent-filled : IsCoherent phys' vm'
  IsCoherent-filled = record {
    old = rw tlb_same (agrees vm.tlb.opt_old_addr vm.tlb.opt_old_phys_page c.old);
    older = rw tlb_same (agrees vm.tlb.opt_older_addr vm.tlb.opt_older_phys_page c.older);
    writes = rw tlb_same (agrees vm.tlb.opt_old_write_addr vm.tlb.opt_old_write_phys_page c.writes);
    code = rw tlb_same (agrees vm.tlb.opt_old_code_addr vm.tlb.opt_old_code_phys_page c.code);
    older_code =
        rw tlb_same
          (agrees vm.tlb.opt_older_code_addr vm.tlb.opt_older_code_phys_page c.older_code);
    writable = rw tlb_same (λ h.
        let (within, used, e) = c.writes h in
        let at = vm.tlb.opt_old_write_addr in
        let same : vm'.pagemap at ≡ vm.pagemap at = ground (arith, map_at) in
        rw same (stays at within (c.writable h)));
  }

module _ (others : List Vm) (local prot new : ℕ) (s s' : Space) (below : local < local_pages)
    (hole : s.vm.pagemap local ≡ 0) (m : IsMapped local prot new s s')
    (safe : IsSafe s.phys (s.vm ∷ others)) where
  pub held-mapped :
      (p : ℕ) → p ≢ 0 → held (s'.vm ∷ others) p ≡ held (s.vm ∷ others) p + one_if (new == p)
  unfolding held
  held-mapped p some_p =
      ground (arith, m.map_at, hole, mapped-update local_pages s.vm.pagemap local new p below)

  pub unheld : held (s.vm ∷ others) new ≡ 0
  unheld = omega (arith, safe.counted new (omega (arith, m.above)), m.fresh)

  pub elsewhere :
      (k i : ℕ) (vm : Vm)
      → get_elem? (s.vm ∷ others) k ≡ some vm
      → i < local_pages
      → vm.pagemap i ≢ new
  elsewhere k i vm e h same =
      omega (arith, held-pos (s.vm ∷ others) k vm i e h, ap (held (s.vm ∷ others)) same, unheld)

  -- No page that was mapped before has changed.
  stays_open :
      (k : ℕ) (vm : Vm) → get_elem? (s.vm ∷ others) k ≡ some vm → StaysOpen s.phys s'.phys vm
  stays_open k vm e i within w =
      let apart = elsewhere k i vm e within in ground (arith, m.flags_at (vm.pagemap i))

  pub mapped-IsSafe : IsSafe s'.phys (s'.vm ∷ others)
  mapped-IsSafe = record {
    counted = λ p h. ground (arith, held-mapped p h, unheld, safe.counted p h, m.refs_at p);
    exclusive = λ p h w. ground (arith, held-mapped p h, unheld, safe.exclusive p h, m.flags_at p);
    zero_base = ground (arith, held-mapped 1, safe.zero_base, m.refs_at 1, m.above);
    zero_flags = ground (arith, m.flags_at 1, m.above, safe.zero_flags);
    zero_clean = λ i h. ground (arith, m.mem_at (65536 + i), m.above, safe.zero_clean i h);
    coherent = all_coherent;
  }
    where
      all_coherent :
          (k : ℕ) (vm : Vm) → get_elem? (s'.vm ∷ others) k ≡ some vm → IsCoherent s'.phys vm
      all_coherent zero vm e =
          let same : s'.vm ≡ vm = ground arith in
          rw (← same) (
            IsCoherent-filled s.phys s'.phys s.vm s'.vm local new hole m.map_at m.tlb_same
              (stays_open 0 s.vm refl) (safe.coherent 0 s.vm refl))
      all_coherent (suc k) vm e =
          IsCoherent-same s.phys s'.phys vm (stays_open (suc k) vm e) (safe.coherent (suc k) vm e)

  pub mapped-other :
      (k : ℕ) (vm : Vm) (a : ℕ)
      → get_elem? others k ≡ some vm
      → a / 65536 < local_pages
      → view s'.phys vm a ≡ view s.phys vm a
  mapped-other k vm a e h = ground (
    arith,
    m.mem_at (vm.pagemap (a / 65536) * 65536 + a % 65536),
    elsewhere (suc k) (a / 65536) vm e h,
  )

  pub mapped-seen : (a : ℕ) → a / 65536 < local_pages → seen s' a ≡ seen s a
  mapped-seen a h = elim (Bool-cases (a / 65536 == local)) [
    | inl here ↦
        let at : a / 65536 ≡ local = ground arith in
        let now : s'.vm.pagemap (a / 65536) ≡ new = ground (arith, m.map_at) in
        let was : s.vm.pagemap (a / 65536) ≡ 0 = rw at hole in
        rw (now, was) (ground (arith, m.mem_at (new * 65536 + a % 65536), m.above))
    | inr away ↦
        let same : s'.vm.pagemap (a / 65536) ≡ s.vm.pagemap (a / 65536) =
          ground (arith, m.map_at) in
        let apart = elsewhere 0 (a / 65536) s.vm refl h in
        rw same (ground (arith, m.mem_at (s.vm.pagemap (a / 65536) * 65536 + a % 65536)))
  ]
