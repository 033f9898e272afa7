-- ===== src/Mmap/Free.antt =====
-- A mapping that is not fixed (src/syscalls.js) never covers a page in use.
use noopsys.Base.{
  ℕ, zero, suc, ◌+◌, ◌*◌, ◌≤◌, ◌<◌, ◌≡◌, refl, Bool, true, false, ◌&&◌, Option, some, ltb, leb,
  ◌==◌, if◌then◌else◌, inl, inr, Bool-cases, arith,
}
use noopsys.Base.Word.{meets}
use noopsys.Mmap.{
  map_fixed, pages_of, Probe, past_end, taken, all_free, probe, page_of, Region, enomem, region_at,
  find_region, place,
}

-- Whether the page is free and below the end of user memory.
unfoldable pub is_free : (pagemap : ℕ → ℕ) → ℕ → Bool
is_free pagemap page = ltb page 0x8000 && (pagemap page == 0)

-- How many of the pages from this one on are not free.
unfoldable pub not_free : (pagemap : ℕ → ℕ) → (k page : ℕ) → ℕ
not_free pagemap zero page = 0
not_free pagemap (suc k) page =
    let rest = not_free pagemap k (page + 1) in if is_free pagemap page then rest else suc rest

-- The answer of the inner loop.
data Probed (pagemap : ℕ → ℕ) (k page : ℕ) : Probe → Type 0 where
  end_there : Probed pagemap k page past_end
  used_there : (used : ℕ) → page ≤ used → used < 0x8000 → Probed pagemap k page (taken used)
  free_there : not_free pagemap k page ≡ 0 → Probed pagemap k page all_free

Probed-later :
    (pagemap : ℕ → ℕ) (k page : ℕ) (p : Probe)
    → is_free pagemap page ≡ true
    → Probed pagemap k (page + 1) p
    → Probed pagemap (suc k) page p
unfolding not_free
Probed-later pagemap k page _ free end_there = end_there
Probed-later pagemap k page _ free (used_there used le lt) = used_there used (omega arith) lt
Probed-later pagemap k page _ free (free_there none_used) = free_there (rw (free) none_used)

Probed-probe : (pagemap : ℕ → ℕ) (k page : ℕ) → Probed pagemap k page (probe pagemap k page)
unfolding probe
Probed-probe pagemap zero page = free_there (unfold not_free in refl)
Probed-probe pagemap (suc k) page = elim (Bool-cases (leb 0x8000 page)) [
  | inl high ↦ rw (high) end_there
  | inr low ↦ elim (Bool-cases (pagemap page == 0)) [
    | inr used ↦ rw (low, used) (used_there page (omega arith) (ground arith))
    | inl free ↦
        rw (low, free)
          (Probed-later pagemap k page _ (unfold is_free in ground arith)
            (Probed-probe pagemap k (page + 1)))
  ]
]

-- An answer: an error, or a region of which every page is free.
pub data IsRegion (pagemap : ℕ → ℕ) (pages : ℕ) : Region → Type 0 where
  no_room : IsRegion pagemap pages enomem
  room :
      (start : ℕ)
      → not_free pagemap pages (page_of start) ≡ 0
      → IsRegion pagemap pages (region_at start)

IsRegion-find_region :
    (pagemap : ℕ → ℕ) (n pages start : ℕ)
    → 0x8000 < n + page_of start
    → 0 < n
    → (r : Region) × (find_region pagemap n pages start ≡ some r) × IsRegion pagemap pages r
unfolding find_region
IsRegion-find_region pagemap zero pages start enough some_left = absurd (omega arith)
IsRegion-find_region pagemap (suc n) pages start enough some_left =
    go (probe pagemap pages (page_of start)) (Probed-probe pagemap pages (page_of start))
      (λ used le lt.
        let next : page_of ((used + 1) * 0x1_0000) ≡ used + 1 = unfold page_of in omega arith in
        IsRegion-find_region pagemap n pages ((used + 1) * 0x1_0000) (omega (arith, next))
          (omega arith))
  where
    round : Probe → Option Region
    round past_end = some enomem
    round (taken page) = find_region pagemap n pages ((page + 1) * 0x1_0000)
    round all_free = some (region_at start)

    go :
        (p : Probe)
        → Probed pagemap pages (page_of start) p
        → ((used : ℕ)
            → page_of start ≤ used
            → used < 0x8000
            → (r : Region) × (find_region pagemap n pages ((used + 1) * 0x1_0000) ≡ some r)
              × IsRegion pagemap pages r)
        → (r : Region) × (round p ≡ some r) × IsRegion pagemap pages r
    go past_end end_there rec = (enomem, refl, no_room)
    go (taken page) (used_there _ le lt) rec = rec page le lt
    go all_free (free_there none_used) rec = (region_at start, refl, room start none_used)

-- The place of a mapping that is not fixed, of a length above 0, is always found within 32769 rounds:
-- it is out of memory, or a region of which every page lies below 0x8000 and is not mapped.
pub place-IsRegion :
    (pagemap : ℕ → ℕ) (mmap_hack_start addr len flags : ℕ)
    → meets flags map_fixed ≡ false
    → 0 < len
    → (r : Region) × (place pagemap 0x8001 mmap_hack_start addr len flags ≡ some r)
      × IsRegion pagemap (pages_of len) r
unfolding place
place-IsRegion pagemap mmap_hack_start addr len flags loose some_bytes =
    let start = if addr == 0 then mmap_hack_start else addr in
    let (r, found, free) =
      IsRegion-find_region pagemap 0x8001 (pages_of len) start (omega arith) (omega arith) in
    let has_length : (len == 0) ≡ false = ground arith in (r, rw (has_length, loose) found, free)
