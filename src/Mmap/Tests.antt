-- ===== src/Mmap/Tests.antt =====
-- Runs of the search of `sys_mmap_core` in src/syscalls.js.
use noopsys.Base.{ℕ, ◌≡◌, refl, some, arith, if◌then◌else◌, ◌==◌}
use noopsys.Base.Word.{meets}
use noopsys.Mmap.{pages_of, Region, region_at, place, find_region, probe, page_of}
use noopsys.Mmap.Free.{IsRegion, place-IsRegion}

-- The pages 2 and 4 are in use.
abbrev two_pages : ℕ → ℕ
two_pages page = if page == 2 then 11 else if page == 4 then 12 else 0

-- Two pages, asked for at the page 1, fit behind both.
place_runs : place two_pages 4 0x10_0000 0x1_0000 0x1_8000 0x802 ≡ some (region_at 0x5_0000)
unfolding place find_region probe page_of pages_of meets
place_runs = refl

place-IsRegion_example :
    (r : Region) × (place two_pages 0x8001 0x10_0000 0x1_0000 0x1_8000 0x802 ≡ some r)
    × IsRegion two_pages (pages_of 0x1_8000) r
unfolding meets
place-IsRegion_example =
    place-IsRegion two_pages 0x10_0000 0x1_0000 0x1_8000 0x802 refl (omega arith)
