-- ===== src/Physical/Laws.antt =====
-- The allocators of src/process.js against what they search for.
use noopsys.Base.{
  ℕ, zero, suc, ◌+◌, ◌-◌, ◌≤◌, ◌<◌, ◌≡◌, ◌≢◌, none, some, arith, ◌^◌, update, Option-cases, inl,
  inr,
}
use noopsys.Base.Result.{Error, out_of_memory, ok, err}
use noopsys.Physical.{Phys, find_page, allocate_page, free_page, cow_dup_page, zero_page}

-- A page that the search finds is the first unused one of its range.
pub find_page-some :
    (n b : ℕ) (refs : ℕ → ℕ) (p : ℕ)
    → find_page n b refs ≡ some p
    → (refs p ≡ 0) × (b ≤ p) × (p < b + n)
unfolding find_page
find_page-some zero b refs p h = cc
find_page-some (suc n) b refs p h = ground (arith, find_page-some n (b + 1) refs p)

pub find_page-first :
    (n b : ℕ) (refs : ℕ → ℕ) (p q : ℕ) → find_page n b refs ≡ some p → b ≤ q → q < p → refs q ≢ 0
unfolding find_page
find_page-first zero b refs p q h = cc
find_page-first (suc n) b refs p q h = ground (arith, find_page-first n (b + 1) refs p q)

-- It fails only if every page of the range is in use.
pub find_page-none :
    (n b : ℕ) (refs : ℕ → ℕ) (q : ℕ) → find_page n b refs ≡ none → b ≤ q → q < b + n → refs q ≢ 0
unfolding find_page
find_page-none zero b refs q h l u = absurd (omega arith)
find_page-none (suc n) b refs q h l u = ground (arith, find_page-none n (b + 1) refs q)

-- What a successful `allocatePage` has done: `b` is the first unused page.
pub record IsAllocated (page_flags b : ℕ) (s s' : Phys) : Type 0 where
  pub low : 10 ≤ b
  pub high : b < 4096
  pub unused : s.refs b ≡ 0
  pub first : (q : ℕ) → 10 ≤ q → q < b → s.refs q ≢ 0
  pub refs_now : s'.refs b ≡ 1
  pub flags_now : s'.flags b ≡ page_flags
  pub refs_kept : (q : ℕ) → q ≢ b → s'.refs q ≡ s.refs q
  pub flags_kept : (q : ℕ) → q ≢ b → s'.flags q ≡ s.flags q
  pub mem_kept : s'.mem ≡ s.mem

-- A page that `allocatePage` returns is the first unused one from page 10 on, and has one user and
-- the flags asked for; nothing else changes.
pub allocate_page-IsAllocated :
    (page_flags b : ℕ) (s s' : Phys)
    → allocate_page page_flags s ≡ ok (b, s')
    → IsAllocated page_flags b s s'
unfolding allocate_page
allocate_page-IsAllocated page_flags b s s' h = elim (Option-cases (find_page 4086 10 s.refs)) [
  | inl full ↦ absurd (ground arith)
  | inr (p, found) ↦
      let fresh = find_page-some 4086 10 s.refs p found in
      let same : b ≡ p = ground arith in
      let found' : find_page 4086 10 s.refs ≡ some b = ground arith in
      let new = find_page-some 4086 10 s.refs b found' in
      record {
        low = ground arith;
        high = ground arith;
        unused = ground arith;
        first = λ q l u. find_page-first 4086 10 s.refs b q found' l u;
        refs_now = ground arith;
        flags_now = ground arith;
        refs_kept = λ q ne. ground arith;
        flags_kept = λ q ne. ground arith;
        mem_kept = ground arith;
      }
]

-- `allocatePage` throws only `Out of memory`, and only if every page from 10 on is in use.
allocate_page-full :
    (page_flags q : ℕ) (s : Phys) (e : Error)
    → allocate_page page_flags s ≡ err e
    → 10 ≤ q
    → q < 4096
    → (e ≡ out_of_memory) × (s.refs q ≢ 0)
unfolding allocate_page
allocate_page-full page_flags q s e h low high = elim (Option-cases (find_page 4086 10 s.refs)) [
  | inl full ↦ (ground arith, find_page-none 4086 10 s.refs q full low high)
  | inr (p, found) ↦ absurd (ground arith)
]

-- What is allocated can be freed, and then every counter is as before.
free_page-allocate_page :
    (page_flags b : ℕ) (s s' : Phys)
    → allocate_page page_flags s ≡ ok (b, s')
    → (t : Phys) × (free_page b s' ≡ ok (tt, t)) × ((q : ℕ) → t.refs q ≡ s.refs q)
unfolding free_page
free_page-allocate_page page_flags b s s' h =
    let a = allocate_page-IsAllocated page_flags b s s' h in
    let low = a.low in
    let now = a.refs_now in
    let unused = a.unused in
    (
      record s' { refs = update s'.refs b 0; flags = update s'.flags b 0 },
      ground arith,
      λ q. ground (arith, a.refs_kept q),
    )

-- A page shared by `cowDupPage` can be given back, and then every counter is as before.
free_page-cow_dup_page :
    (page p : ℕ) (s s' : Phys)
    → s.refs page ≢ 0
    → s.refs page + 1 < 2 ^ 32
    → cow_dup_page page s ≡ ok (p, s')
    → (p ≡ page) × ((t : Phys) × (free_page p s' ≡ ok (tt, t)) × ((q : ℕ) → t.refs q ≡ s.refs q))
unfolding free_page cow_dup_page zero_page
free_page-cow_dup_page page p s s' used small h =
    let same : p ≡ page = ground arith in
    let counted : (q : ℕ) → s'.refs q ≡ update s.refs page (s.refs page + 1) q =
      λ q. ground arith in
    let now : s'.refs page ≡ s.refs page + 1 = ground (arith, counted page) in
    (
      same,
      (
        record s' { refs = update s'.refs page (s'.refs page - 1) },
        ground arith,
        λ q. ground (arith, counted q),
      ),
    )
