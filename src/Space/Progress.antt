-- ===== src/Space/Progress.antt =====
-- The faults that are not errors (`translateMiss` in src/process.js), and what resolves them.
use noopsys.Base.{
  ℕ, ◌/◌, ◌%◌, ◌^◌, ◌≤◌, ◌<◌, ◌≡◌, ◌≢◌, ◌⊎◌, refl, ap, inl, inr, true, false, some, List, ◌∷◌,
  arith, Bool-cases, Option-cases,
}
use noopsys.Base.Int.{pos}
use noopsys.Base.Word.{has, meets}
use noopsys.Base.Result.{Error, err}
use noopsys.Constants.{prot_write, vm_shared}
use noopsys.Physical.{Phys, find_page, allocate_page, duplicate_page, free_page, do_zero_page}
use noopsys.Physical.Laws.{find_page-none, find_page-some}
use noopsys.Space.{Vm, Space, write, copy_on_write, fill_zero_page}
use noopsys.Space.Translate.{resolve, take_over, reach, translate, translate_miss}
use noopsys.Space.Accessors.{write8}
use noopsys.Space.Safe.{local_pages, held, held-pos, IsSafe}

-- Some page that may be handed out is unused.
abbrev pub HasFreePage : Phys → Type 0
HasFreePage phys = (q : ℕ) × (10 ≤ q) × (q < 4096) × (phys.refs q ≡ 0)

find_page-found :
    (phys : Phys) → HasFreePage phys → (p : ℕ) × (find_page 4086 10 phys.refs ≡ some p)
find_page-found phys (q, low, high, unused) = elim (Option-cases (find_page 4086 10 phys.refs)) [
  | inl full ↦ absurd (find_page-none 4086 10 phys.refs q full low high unused)
  | inr found ↦ found
]

copy_on_write-total :
    (local page : ℕ) (s : Space) (e : Error)
    → s.phys.refs page ≢ 0
    → (s.phys.refs page ≡ 1) ⊎ HasFreePage s.phys
    → copy_on_write local page s ≢ err e
unfolding copy_on_write duplicate_page free_page
copy_on_write-total local page s e used (inl one) h = ground arith
copy_on_write-total local page s e used (inr free) h =
    let (p, found) = find_page-found s.phys free in
    let new = find_page-some 4086 10 s.phys.refs p found in ground arith

fill_zero_page-total :
    (local : ℕ) (s : Space) (e : Error)
    → 2 ≤ s.phys.refs 1
    → HasFreePage s.phys
    → fill_zero_page local 1 s ≢ err e
unfolding fill_zero_page allocate_page free_page do_zero_page
fill_zero_page-total local s e base free h =
    let (p, found) = find_page-found s.phys free in
    let new = find_page-some 4086 10 s.phys.refs p found in ground arith

-- The page of a mapping that allows writes is open, or can be had for this process alone.
pub data CanOpen (phys : Phys) (page : ℕ) : Type 0 where
  open_page : has (phys.flags page) prot_write ≡ true → CanOpen phys page
  last_user : meets (phys.flags page) vm_shared ≡ true → phys.refs page ≡ 1 → CanOpen phys page
  can_copy : meets (phys.flags page) vm_shared ≡ true → HasFreePage phys → CanOpen phys page
  can_fill : page ≡ 1 → HasFreePage phys → CanOpen phys page

module _ (others : List Vm) (local : ℕ) (s : Space) (e : Error) (below : local < local_pages)
    (used : s.vm.pagemap local ≢ 0) (safe : IsSafe s.phys (s.vm ∷ others)) where
  refs_pos : s.phys.refs (s.vm.pagemap local) ≢ 0
  refs_pos none_left = omega (
    arith,
    safe.counted (s.vm.pagemap local) used,
    held-pos (s.vm ∷ others) 0 s.vm local refl below,
    none_left,
  )

  take_over-total :
      CanOpen s.phys (s.vm.pagemap local)
      → has (s.phys.flags (s.vm.pagemap local)) prot_write ≡ false
      → take_over local (s.vm.pagemap local) s ≢ err e
  take_over-total (open_page o) shut = cc
  take_over-total (last_user m one) shut =
      unfold take_over in
      ground (arith, copy_on_write-total local (s.vm.pagemap local) s e refs_pos (inl one))
  take_over-total (can_copy m free) shut =
      unfold take_over in
      ground (arith, copy_on_write-total local (s.vm.pagemap local) s e refs_pos (inr free))
  take_over-total (can_fill one free) shut =
      unfold take_over meets in
      ground (arith, fill_zero_page-total local s e base free, safe.zero_flags, one)
    where
      base : 2 ≤ s.phys.refs 1
      base = omega (
        arith,
        safe.zero_base,
        ap (held (s.vm ∷ others)) one,
        held-pos (s.vm ∷ others) 0 s.vm local refl below,
      )

  reach-total :
      has (s.vm.pageflags local) prot_write ≡ true
      → CanOpen s.phys (s.vm.pagemap local)
      → reach write local s ≢ err e
  unfolding reach resolve
  reach-total allowed can h =
      elim (Bool-cases (has (s.phys.flags (s.vm.pagemap local)) prot_write)) [
        | inl o ↦ ground arith
        | inr shut ↦ let total = take_over-total can shut in ground arith
      ]

-- When the page tables of all processes are safe, a store below 2^31 to a page that the process maps
-- for writing goes through, if the page is open to writes already, or it is marked shared (VM_SHARED)
-- and has one user left or an unused page is there to copy it to, or it is the page of zeros and an
-- unused page is there.
pub write8-total :
    (others : List Vm) (n v : ℕ) (s : Space) (e : Error)
    → n < 2 ^ 31
    → IsSafe s.phys (s.vm ∷ others)
    → s.vm.pagemap (n / 65536) ≢ 0
    → has (s.vm.pageflags (n / 65536)) prot_write ≡ true
    → CanOpen s.phys (s.vm.pagemap (n / 65536))
    → write8 (pos n) v s ≢ err e
unfolding write8 translate translate_miss
write8-total others n v s e small safe used allowed can =
    let total = reach-total others (n / 65536) s e (omega arith) used safe allowed can in
    let same : n % 2 ^ 32 ≡ n = omega arith in ground arith
