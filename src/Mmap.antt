-- ===== src/Mmap.antt =====
-- Where `sys_mmap_core` of src/syscalls.js puts a mapping, and the pages that it reserves there.
pub mod Free
pub mod Tests
use noopsys.Base.{
  ℕ, zero, suc, ◌+◌, ◌-◌, ◌*◌, ◌/◌, ◌%◌, ◌^◌, Bool, true, false, not, ◌&&◌, Option, none, some, ltb,
  leb, ◌==◌, if◌then◌else◌, update,
}
use noopsys.Base.Word.{u32, meets}
use noopsys.Base.Result.{Action, pure, ◌>>=◌, ◌>>◌, gets, modify}
use noopsys.Physical.{allocate_page, zero_page, free_page, do_zero_page}
use noopsys.Space.{Space, on_phys, set_page, invalidate_hacks}

abbrev pub map_fixed : ℕ
map_fixed = 0x10

-- The number of pages of a length in bytes.
unfoldable pub pages_of : ℕ → ℕ
pages_of len = (len + 0xffff) / 0x1_0000

-- `start >>> 16`
unfoldable pub page_of : ℕ → ℕ
page_of start = u32 start / 0x1_0000

-- What the inner loop finds: it passes the end of user memory, it meets a page in use, or all the
-- pages are free.
pub data Probe : Type 0 where
  past_end : Probe
  taken : (page : ℕ) → Probe
  all_free : Probe

-- The inner loop, with `k` pages left, from this page on.
unfoldable pub probe : (pagemap : ℕ → ℕ) → (k page : ℕ) → Probe
probe pagemap zero page = all_free
probe pagemap (suc k) page =
    let rest = probe pagemap k (page + 1) in
    if leb 0x8000 page then past_end else if not (pagemap page == 0) then taken page else rest

-- `-EINVAL`, `-ENOMEM`, or the address of the region.
pub data Region : Type 0 where
  einval enomem : Region
  region_at : (start : ℕ) → Region

-- The outer loop, with `n` rounds left. There is no answer when the rounds run out.
unfoldable pub find_region : (pagemap : ℕ → ℕ) → (n pages start : ℕ) → Option Region
find_region pagemap zero pages start = none
find_region pagemap (suc n) pages start = elim (probe pagemap pages (page_of start)) [
  | past_end ↦ some enomem
  | taken page ↦ find_region pagemap n pages ((page + 1) * 0x1_0000)
  | all_free ↦ some (region_at start)
]

-- The address for a mapping of `len` bytes: where the last mappings ended, or at `addr` if it is
-- given, and behind what is in use there unless it is fixed.
unfoldable pub place : (pagemap : ℕ → ℕ) → (n mmap_hack_start addr len flags : ℕ) → Option Region
place pagemap n mmap_hack_start addr len flags =
    let start = if addr == 0 then mmap_hack_start else addr in
    if len == 0
    then some einval
    else if meets flags map_fixed && (addr == 0)
    then some einval
    else if meets flags map_fixed
    then some (region_at start)
    else find_region pagemap n (pages_of len) start

-- Where the next mapping begins: behind a gap of five pages.
unfoldable pub next_start : (mmap_hack_start start pages : ℕ) → ℕ
next_start mmap_hack_start start pages =
    let end = start + 0x1_0000 * (pages + 5) in
    if ltb mmap_hack_start end then end else mmap_hack_start

-- A page to reserve: what was there is given back, and a page of zeros takes its place.
unfoldable pub reserve_page : (anonymous : Bool) → (prot page : ℕ) → Action Space (Unit {0})
reserve_page anonymous prot page = do
  old ← gets λ s. s.vm.pagemap page
  if old == 0 then pure tt else on_phys (free_page old)
  new ←
      if anonymous
      then on_phys zero_page
      else (do own ← on_phys (allocate_page prot); on_phys (do_zero_page own); pure own)
  set_page page new
  modify λ s. record s { vm = record s.vm { pageflags = update s.vm.pageflags page prot } }

-- The loop over the pages, and the end of the translations that were cached.
unfoldable pub reserve : (anonymous : Bool) → (prot k page : ℕ) → Action Space (Unit {0})
reserve anonymous prot zero page = modify λ s. record s { vm = invalidate_hacks s.vm }
reserve anonymous prot (suc k) page = do
  reserve_page anonymous prot page
  reserve anonymous prot k (page + 1)
