-- ===== src/Space/Outcome.antt =====
-- The outcomes of a page fault in `translateMiss` of src/process.js: nothing, a page opened that
-- has one user left, or a page of the process's own with the same contents.
use noopsys.Base.{
  ℕ, ◌+◌, ◌-◌, ◌*◌, ◌/◌, ◌%◌, ◌≤◌, ◌≡◌, ◌≢◌, refl, inl, inr, true, false, arith, ◌==◌,
  if◌then◌else◌, update, Bool-cases, Option-cases,
}
use noopsys.Base.Word.{has, meets}
use noopsys.Base.Result.{Result, ok, err}
use noopsys.Constants.{prot_write, vm_shared}
use noopsys.Physical.{allocate_page, duplicate_page, do_zero_page, free_page, find_page}
use noopsys.Physical.Laws.{find_page-some}
use noopsys.Physical.Words.{copy_page, zero_page_bytes}
use noopsys.Space.{
  Space, Access, write, prot_of, empty_tlb, invalidate_hacks, copy_on_write, fill_zero_page,
}
use noopsys.Space.Translate.{take_over, invalidated, resolve, reach}

-- The page had one user and takes the flags of the mapping.
pub record IsOpened (local page : ℕ) (s s' : Space) : Type 0 where
  pub sole : s.phys.refs page ≡ 1
  pub refs_same : s'.phys.refs ≡ s.phys.refs
  pub mem_same : s'.phys.mem ≡ s.phys.mem
  pub map_same : s'.vm.pagemap ≡ s.vm.pagemap
  pub flags_at :
      (q : ℕ) → s'.phys.flags q ≡ (if q == page then s.vm.pageflags local else s.phys.flags q)

-- A page that nobody used replaces `page`, with the bytes `fill` in it.
pub record IsMoved (fill : ℕ → ℕ) (local page new : ℕ) (s s' : Space) : Type 0 where
  pub fresh : s.phys.refs new ≡ 0
  pub above : 10 ≤ new
  pub shared : 2 ≤ s.phys.refs page
  pub refs_at :
      (q : ℕ)
      → s'.phys.refs q
        ≡ (if q == new then 1 else if q == page then s.phys.refs page - 1 else s.phys.refs q)
  pub flags_at :
      (q : ℕ) → s'.phys.flags q ≡ (if q == new then s.vm.pageflags local else s.phys.flags q)
  pub mem_at :
      (a : ℕ) → s'.phys.mem a ≡ (if a / 65536 == new then fill (a % 65536) else s.phys.mem a)
  pub map_at : s'.vm.pagemap ≡ update s.vm.pagemap local new

-- The bytes of a page.
abbrev pub page_bytes : Space → ℕ → ℕ → ℕ
page_bytes s page i = s.phys.mem (page * 65536 + i)

module _ (local page : ℕ) (s : Space) where
  copy_on_write-Moved :
      (new : ℕ) (s' : Space)
      → (s.phys.refs page == 1) ≡ false
      → copy_on_write local page s ≡ ok (new, s')
      → IsMoved (page_bytes s page) local page new s s'
  unfolding copy_on_write duplicate_page free_page copy_page
  copy_on_write-Moved new s' many h = elim (Option-cases (find_page 4086 10 s.phys.refs)) [
    | inl full ↦ ground arith
    | inr (n, e) ↦
        let found = find_page-some 4086 10 s.phys.refs n e in
        record {
          fresh = ground arith;
          above = ground arith;
          shared = ground arith;
          refs_at = λ q. ground arith;
          flags_at = λ q. ground arith;
          mem_at = λ a. ground arith;
          map_at = ground arith;
        }
  ]

  copy_on_write-Opened :
      (new : ℕ) (s' : Space)
      → (s.phys.refs page == 1) ≡ true
      → copy_on_write local page s ≡ ok (new, s')
      → (new ≡ page) × IsOpened local page s s'
  unfolding copy_on_write
  copy_on_write-Opened new s' one h = (
    ground arith,
    record {
      sole = ground arith;
      refs_same = ground arith;
      mem_same = ground arith;
      map_same = ground arith;
      flags_at = λ q. ground arith;
    },
  )

  fill_zero_page-Moved :
      (new : ℕ) (s' : Space)
      → page ≡ 1
      → fill_zero_page local page s ≡ ok (new, s')
      → IsMoved (λ _. 0) local page new s s'
  unfolding fill_zero_page allocate_page do_zero_page free_page zero_page_bytes
  fill_zero_page-Moved new s' one h = elim (Option-cases (find_page 4086 10 s.phys.refs)) [
    | inl full ↦ ground arith
    | inr (n, e) ↦
        let found = find_page-some 4086 10 s.phys.refs n e in
        record {
          fresh = ground arith;
          above = ground arith;
          shared = ground arith;
          refs_at = λ q. ground arith;
          flags_at = λ q. ground arith;
          mem_at = λ a. ground arith;
          map_at = ground arith;
        }
  ]

-- The three outcomes of a fault that is not an error.
pub data Outcome (access : Access) (local : ℕ) (s : Space) (page : ℕ) (s' : Space) : Type 0 where
  kept :
      page ≡ s.vm.pagemap local
      → has (s.phys.flags page) (prot_of access) ≡ true
      → s' ≡ s
      → Outcome access local s page s'
  opened :
      access ≡ write
      → page ≡ s.vm.pagemap local
      → meets (s.phys.flags page) vm_shared ≡ true
      → IsOpened local page s s'
      → s'.vm.tlb ≡ empty_tlb
      → Outcome access local s page s'
  copied :
      access ≡ write
      → IsMoved (page_bytes s (s.vm.pagemap local)) local (s.vm.pagemap local) page s s'
      → s'.vm.tlb ≡ empty_tlb
      → Outcome access local s page s'
  filled :
      access ≡ write
      → s.vm.pagemap local ≡ 1
      → IsMoved (λ _. 0) local (s.vm.pagemap local) page s s'
      → s'.vm.tlb ≡ empty_tlb
      → Outcome access local s page s'

-- Dropping the cached translations moves no page.
IsOpened-invalidated :
    (local page : ℕ) (s t : Space) → IsOpened local page s t → IsOpened local page s (invalidated t)
unfolding invalidate_hacks
IsOpened-invalidated local page s t o = record {
  sole = o.sole;
  refs_same = o.refs_same;
  mem_same = o.mem_same;
  map_same = o.map_same;
  flags_at = o.flags_at;
}

IsMoved-invalidated :
    (fill : ℕ → ℕ) (local page new : ℕ) (s t : Space)
    → IsMoved fill local page new s t
    → IsMoved fill local page new s (invalidated t)
unfolding invalidate_hacks
IsMoved-invalidated fill local page new s t m = record {
  fresh = m.fresh;
  above = m.above;
  shared = m.shared;
  refs_at = m.refs_at;
  flags_at = m.flags_at;
  mem_at = m.mem_at;
  map_at = m.map_at;
}

module _ (local : ℕ) (s : Space) (page : ℕ) (s' : Space) where
  resolve-take_over :
      (old : ℕ)
      → resolve write local old s ≡ ok (page, s')
      → (t : Space) × (take_over local old s ≡ ok (page, t)) × (s' ≡ invalidated t)
  unfolding resolve
  resolve-take_over old h = go (take_over local old s) refl
    where
      go :
          (r : Result (ℕ × Space))
          → take_over local old s ≡ r
          → (t : Space) × (take_over local old s ≡ ok (page, t)) × (s' ≡ invalidated t)
      go (ok (n, t)) e = (t, ground arith, ground arith)
      go (err x) e = ground arith

  Outcome-copy_on_write :
      (t : Space)
      → meets (s.phys.flags (s.vm.pagemap local)) vm_shared ≡ true
      → s' ≡ invalidated t
      → copy_on_write local (s.vm.pagemap local) s ≡ ok (page, t)
      → Outcome write local s page s'
  Outcome-copy_on_write t marked same e =
      let old = s.vm.pagemap local in
      rw same (elim (Bool-cases (s.phys.refs old == 1)) [
        | inl one ↦
            let (p, o) = copy_on_write-Opened local old s page t one e in
            opened refl p (rw p marked) (IsOpened-invalidated local page s t (rw p o)) tlb_empty
        | inr many ↦
            copied refl
              (IsMoved-invalidated (page_bytes s old) local old page s t
                (copy_on_write-Moved local old s page t many e))
              tlb_empty
      ])
    where
      tlb_empty : (invalidated t).vm.tlb ≡ empty_tlb
      tlb_empty = unfold invalidate_hacks in refl

  Outcome-fill_zero_page :
      (t : Space)
      → s' ≡ invalidated t
      → s.vm.pagemap local ≡ 1
      → fill_zero_page local (s.vm.pagemap local) s ≡ ok (page, t)
      → Outcome write local s page s'
  Outcome-fill_zero_page t same one e =
      let old = s.vm.pagemap local in
      rw same (
        filled refl one
          (IsMoved-invalidated (λ _. 0) local old page s t
            (fill_zero_page-Moved local old s page t one e))
          (unfold invalidate_hacks in refl))

  resolve-Outcome :
      resolve write local (s.vm.pagemap local) s ≡ ok (page, s') → Outcome write local s page s'
  resolve-Outcome h =
      let old = s.vm.pagemap local in
      let (t, e, same) = resolve-take_over old h in
      elim (Bool-cases (meets (s.phys.flags old) vm_shared)) [
        | inl shared ↦ Outcome-copy_on_write t shared same (unfold take_over in ground arith)
        | inr private ↦
            Outcome-fill_zero_page t same (unfold take_over in ground arith)
              (unfold take_over in ground arith)
      ]

  -- Every access that is let through has one of the outcomes.
  pub reach-Outcome :
      (access : Access)
      → reach access local s ≡ ok (page, s')
      → (s.vm.pagemap local ≢ 0)
        × (has (s.vm.pageflags local) (prot_of access) ≡ true)
        × Outcome access local s page s'
  reach-Outcome write h = elim (Bool-cases (has (s.phys.flags (s.vm.pagemap local)) prot_write)) [
    | inl open_page ↦ (
      unfold reach in ground arith,
      unfold reach in ground arith,
      kept (unfold reach in ground arith) (unfold reach in ground arith)
          (unfold reach in ground arith),
    )
    | inr shut_page ↦ (
      unfold reach in ground arith,
      unfold reach in ground arith,
      resolve-Outcome (unfold reach in ground arith),
    )
  ]
  reach-Outcome access h = (
    unfold reach resolve in ground arith,
    unfold reach resolve in ground arith,
    kept (unfold reach resolve in ground arith) (unfold reach resolve in ground arith)
        (unfold reach resolve in ground arith),
  )
