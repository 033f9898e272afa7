-- ===== src/Space/Views.antt =====
-- What the processes see of memory after each outcome of a fault (`translateMiss` in
-- src/process.js).
use noopsys.Base.{
  ℕ, ◌+◌, ◌*◌, ◌/◌, ◌%◌, ◌<◌, ◌≡◌, ◌≢◌, refl, ap, inl, inr, ◌∙◌, true, some, List, ◌∷◌, arith, ◌==◌,
  get_elem?, Bool-cases,
}
use noopsys.Base.Word.{has}
use noopsys.Physical.{Phys}
use noopsys.Space.{Vm, Space, Access, prot_of}
use noopsys.Space.Safe.{local_pages, held, held-pos, IsSafe, view}
use noopsys.Space.Preserve.{other_page, fresh_unheld}
use noopsys.Space.Outcome.{IsMoved, Outcome, kept, opened, copied, filled, page_bytes}

-- What process `vm` maps reads the same before and after.
abbrev pub SameView : Phys → Vm → Phys → Vm → Type 0
SameView phys vm phys' vm' =
    (a : ℕ)
    → a / 65536 < local_pages
    → vm.pagemap (a / 65536) ≢ 0
    → (vm'.pagemap (a / 65536) ≢ 0) × (view phys' vm' a ≡ view phys vm a)

module _ (others : List Vm) (local page : ℕ) (s s' : Space) (below : local < local_pages) (old : ℕ)
    (is_old : s.vm.pagemap local ≡ old) (used : old ≢ 0) (fill : ℕ → ℕ)
    (moved : IsMoved fill local old page s s') (safe : IsSafe s.phys (s.vm ∷ others)) where
  -- The bytes of every page but the new one stay.
  mem_elsewhere :
      (p i : ℕ) → i < 65536 → p ≢ page → s'.phys.mem (p * 65536 + i) ≡ s.phys.mem (p * 65536 + i)
  mem_elsewhere p i h ne = ground (arith, moved.mem_at (p * 65536 + i))

  mem_filled : (i : ℕ) → i < 65536 → s'.phys.mem (page * 65536 + i) ≡ fill i
  mem_filled i h =
      moved.mem_at (page * 65536 + i)
      ∙ ground (arith, ap fill (let e : (page * 65536 + i) % 65536 ≡ i = omega arith in e))

  own_page : (i : ℕ) → i < local_pages → s.vm.pagemap i ≢ page
  own_page i h same = omega (
    arith,
    fresh_unheld others local page s s' below old is_old used fill moved safe,
    held-pos (s.vm ∷ others) 0 s.vm i refl h,
    ap (held (s.vm ∷ others)) same,
  )

  pub own-SameView :
      ((i : ℕ) → i < 65536 → fill i ≡ s.phys.mem (old * 65536 + i))
      → SameView s.phys s.vm s'.phys s'.vm
  own-SameView same_bytes a h m = elim (Bool-cases (a / 65536 == local)) [
    | inl here ↦
        let there : s'.vm.pagemap (a / 65536) ≡ page = ground (arith, moved.map_at) in
        let was : old ≡ s.vm.pagemap (a / 65536) = ground (arith, is_old) in
        (
          rw there (ground (arith, moved.above)),
          ap (λ q. s'.phys.mem (q * 65536 + a % 65536)) there
              ∙ mem_filled (a % 65536) (omega arith)
              ∙ same_bytes (a % 65536) (omega arith)
              ∙ ap (λ q. s.phys.mem (q * 65536 + a % 65536)) was,
        )
    | inr away ↦
        let there : s'.vm.pagemap (a / 65536) ≡ s.vm.pagemap (a / 65536) =
          ground (arith, moved.map_at) in
        (
          rw there m,
          ap (λ q. s'.phys.mem (q * 65536 + a % 65536)) there
              ∙ mem_elsewhere (s.vm.pagemap (a / 65536)) (a % 65536) (omega arith)
                  (own_page (a / 65536) h),
        )
  ]

  pub other-SameView :
      (k : ℕ) (vm : Vm) → get_elem? others k ≡ some vm → SameView s.phys vm s'.phys vm
  other-SameView k vm e a h m = (
    m,
    mem_elsewhere (vm.pagemap (a / 65536)) (a % 65536) (omega arith) (
        other_page others local page s s' below old is_old used fill moved safe k (a / 65536) vm e
          h),
  )

module _ (others : List Vm) (access : Access) (local page : ℕ) (s s' : Space)
    (below : local < local_pages) (used : s.vm.pagemap local ≢ 0)
    (safe : IsSafe s.phys (s.vm ∷ others)) where
  pub Outcome-own : Outcome access local s page s' → SameView s.phys s.vm s'.phys s'.vm
  Outcome-own (kept e f same) = λ a h m. rw same (m, refl)
  Outcome-own (opened w e k o t) = λ a h m. rw (o.map_same, o.mem_same) (m, refl)
  Outcome-own (copied w m t) =
      own-SameView others local page s s' below (s.vm.pagemap local) refl used
        (page_bytes s (s.vm.pagemap local)) m safe (λ i h. refl)
  Outcome-own (filled w one m t) =
      own-SameView others local page s s' below (s.vm.pagemap local) refl used (λ _. 0) m safe
        (λ i h. ground (arith, safe.zero_clean i h))

  pub Outcome-other :
      Outcome access local s page s'
      → (k : ℕ) (vm : Vm) → get_elem? others k ≡ some vm
      → SameView s.phys vm s'.phys vm
  Outcome-other (kept e f same) = λ k vm g a h m. rw same (m, refl)
  Outcome-other (opened w e u o t) = λ k vm g a h m. rw o.mem_same (m, refl)
  Outcome-other (copied w m t) =
      other-SameView others local page s s' below (s.vm.pagemap local) refl used
        (page_bytes s (s.vm.pagemap local)) m safe
  Outcome-other (filled w one m t) =
      other-SameView others local page s s' below (s.vm.pagemap local) refl used (λ _. 0) m safe

  -- The page that the access goes to is the one that is mapped, and is open to it.
  pub Outcome-page :
      has (s.vm.pageflags local) (prot_of access) ≡ true
      → Outcome access local s page s'
      → (page ≡ s'.vm.pagemap local)
        × (page ≢ 0)
        × (has (s'.phys.flags page) (prot_of access) ≡ true)
  Outcome-page allowed (kept e f same) = rw same (e, rw e used, f)
  Outcome-page allowed (opened w e u o t) =
      (rw o.map_same e, rw e used, ground (arith, o.flags_at page))
  Outcome-page allowed (copied w m t) =
      (ground (arith, m.map_at), ground (arith, m.above), ground (arith, m.flags_at page))
  Outcome-page allowed (filled w one m t) =
      (ground (arith, m.map_at), ground (arith, m.above), ground (arith, m.flags_at page))
