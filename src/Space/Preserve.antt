-- ===== src/Space/Preserve.antt =====
-- The invariant after each outcome of a fault (`translateMiss` in src/process.js).
use noopsys.Base.{
  ℕ, zero, suc, ◌+◌, ◌≤◌, ◌<◌, ◌≡◌, ◌≢◌, refl, true, some, List, ◌∷◌, arith, ◌==◌, get_elem?,
}
use noopsys.Base.Word.{has, meets}
use noopsys.Constants.{prot_write, vm_shared}
use noopsys.Space.{Vm, Space, Access, empty_tlb}
use noopsys.Space.Count.{one_if, mapped, mapped-update, mapped-pos}
use noopsys.Space.Safe.{local_pages, held, held-pos, IsCoherent, IsCoherent-empty, IsSafe}
use noopsys.Space.Outcome.{IsOpened, IsMoved, Outcome, kept, opened, copied, filled, page_bytes}

module _ (others : List Vm) (local page : ℕ) (s s' : Space) (below : local < local_pages) where
  module _ (old : ℕ) (is_old : s.vm.pagemap local ≡ old) (old_used : old ≢ 0) (fill : ℕ → ℕ)
      (moved : IsMoved fill local old page s s') (safe : IsSafe s.phys (s.vm ∷ others)) where
    held-moved :
        (p : ℕ)
        → held (s'.vm ∷ others) p + one_if (old == p) ≡ held (s.vm ∷ others) p + one_if (page == p)
    unfolding held
    held-moved p =
        ground
          (arith, moved.map_at, is_old, mapped-update local_pages s.vm.pagemap local page p below)

    pub fresh_unheld : held (s.vm ∷ others) page ≡ 0
    fresh_unheld = omega (arith, safe.counted page (omega (arith, moved.above)), moved.fresh)

    held-page : held (s'.vm ∷ others) page ≡ 1
    held-page = ground (arith, held-moved page, fresh_unheld, moved.fresh, moved.shared)

    held-le : (p : ℕ) → p ≢ page → held (s'.vm ∷ others) p ≤ held (s.vm ∷ others) p
    held-le p ne = ground (arith, held-moved p)

    counted-moved : (p : ℕ) → p ≢ 0 → held (s'.vm ∷ others) p ≤ s'.phys.refs p
    counted-moved p used =
        ground (
          arith,
          held-moved p,
          safe.counted p,
          moved.refs_at p,
          held-page,
          moved.fresh,
          moved.shared,
        )

    exclusive-moved :
        (p : ℕ) → p ≢ 0 → has (s'.phys.flags p) prot_write ≡ true → held (s'.vm ∷ others) p ≤ 1
    exclusive-moved p used open_page =
        ground (arith, held-le p, safe.exclusive p, moved.flags_at p, held-page)

    -- The page that is new was mapped by nobody, so no other process sees a change.
    pub other_page :
        (k i : ℕ) (vm : Vm) → get_elem? others k ≡ some vm → i < local_pages → vm.pagemap i ≢ page
    other_page k i vm e small same =
        omega (arith, fresh_unheld, held-pos (s.vm ∷ others) (suc k) vm i e small, ap_held)
      where
        ap_held : held (s.vm ∷ others) (vm.pagemap i) ≡ held (s.vm ∷ others) page
        ap_held = rw same

    IsCoherent-other : (k : ℕ) (vm : Vm) → get_elem? others k ≡ some vm → IsCoherent s'.phys vm
    IsCoherent-other k vm e =
        let c = safe.coherent (suc k) vm e in
        record {
          old = c.old;
          older = c.older;
          writes = c.writes;
          code = c.code;
          older_code = c.older_code;
          writable = λ h.
              let small = (c.writes h).0 in
              ground (
                arith,
                moved.flags_at (vm.pagemap vm.tlb.opt_old_write_addr),
                c.writable h,
                other_page k vm.tlb.opt_old_write_addr vm e small,
              );
        }

    pub moved-IsSafe : s'.vm.tlb ≡ empty_tlb → IsSafe s'.phys (s'.vm ∷ others)
    moved-IsSafe dropped = record {
      counted = counted-moved;
      exclusive = exclusive-moved;
      zero_base =
          ground (arith, held-moved 1, safe.zero_base, moved.refs_at 1, moved.above, moved.shared);
      zero_flags = ground (arith, moved.flags_at 1, moved.above, safe.zero_flags);
      zero_clean =
          λ i h. ground (arith, moved.mem_at (65536 + i), moved.above, safe.zero_clean i h);
      coherent = all_coherent;
    }
      where
        all_coherent :
            (k : ℕ) (vm : Vm) → get_elem? (s'.vm ∷ others) k ≡ some vm → IsCoherent s'.phys vm
        all_coherent zero vm e = IsCoherent-empty s'.phys vm (ground arith)
        all_coherent (suc k) vm e = IsCoherent-other k vm e

  module _ (is_page : page ≡ s.vm.pagemap local) (used : page ≢ 0)
      (marked : meets (s.phys.flags page) vm_shared ≡ true) (opened : IsOpened local page s s')
      (safe : IsSafe s.phys (s.vm ∷ others)) where
    held-same : (p : ℕ) → held (s'.vm ∷ others) p ≡ held (s.vm ∷ others) p
    unfolding held
    held-same p = rw opened.map_same refl

    -- Its one user is this process.
    pub not_shared :
        (k i : ℕ) (vm : Vm) → get_elem? others k ≡ some vm → i < local_pages → vm.pagemap i ≢ page
    unfolding held
    not_shared k i vm e small same =
        omega (arith, safe.counted page used, opened.sole, other_maps, this_maps)
      where
        other_maps : 1 ≤ held others page
        other_maps = rw same at (held-pos others k vm i e small)

        this_maps : 1 ≤ mapped local_pages s.vm.pagemap page
        this_maps = rw is_page (mapped-pos local_pages s.vm.pagemap local below)

    page_ne_one : page ≢ 1
    unfolding meets
    page_ne_one one = ground (arith, safe.zero_flags)

    IsCoherent-opened : (k : ℕ) (vm : Vm) → get_elem? others k ≡ some vm → IsCoherent s'.phys vm
    IsCoherent-opened k vm e =
        let c = safe.coherent (suc k) vm e in
        record {
          old = c.old;
          older = c.older;
          writes = c.writes;
          code = c.code;
          older_code = c.older_code;
          writable = λ h.
              let small = (c.writes h).0 in
              ground (
                arith,
                opened.flags_at (vm.pagemap vm.tlb.opt_old_write_addr),
                c.writable h,
                not_shared k vm.tlb.opt_old_write_addr vm e small,
              );
        }

    pub opened-IsSafe : s'.vm.tlb ≡ empty_tlb → IsSafe s'.phys (s'.vm ∷ others)
    opened-IsSafe dropped = record {
      counted = λ p h. ground (arith, held-same p, safe.counted p h, opened.refs_same);
      exclusive = λ p h w. ground (
        arith,
        held-same p,
        safe.counted p h,
        safe.exclusive p h,
        opened.flags_at p,
        opened.sole,
      );
      zero_base = ground (arith, held-same 1, safe.zero_base, opened.refs_same);
      zero_flags = ground (arith, opened.flags_at 1, safe.zero_flags, page_ne_one);
      zero_clean = λ i h. rw opened.mem_same (safe.zero_clean i h);
      coherent = all_coherent;
    }
      where
        all_coherent :
            (k : ℕ) (vm : Vm) → get_elem? (s'.vm ∷ others) k ≡ some vm → IsCoherent s'.phys vm
        all_coherent zero vm e = IsCoherent-empty s'.phys vm (ground arith)
        all_coherent (suc k) vm e = IsCoherent-opened k vm e

-- A resolved fault keeps the invariant, and a page that was opened for writing is open.
module _ (others : List Vm) (access : Access) (local page : ℕ) (s s' : Space) where
  pub Outcome-IsSafe :
      local < local_pages
      → s.vm.pagemap local ≢ 0
      → Outcome access local s page s'
      → IsSafe s.phys (s.vm ∷ others)
      → IsSafe s'.phys (s'.vm ∷ others)
  Outcome-IsSafe below used (kept e f same) safe = rw same safe
  Outcome-IsSafe below used (opened w e m o t) safe =
      opened-IsSafe others local page s s' below e (rw e used) m o safe t
  Outcome-IsSafe below used (copied w m t) safe =
      moved-IsSafe others local page s s' below (s.vm.pagemap local) refl used
        (page_bytes s (s.vm.pagemap local)) m safe t
  Outcome-IsSafe below used (filled w one m t) safe =
      moved-IsSafe others local page s s' below (s.vm.pagemap local) refl used (λ _. 0) m safe t
