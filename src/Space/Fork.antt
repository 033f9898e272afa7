-- ===== src/Space/Fork.antt =====
-- The page tables in a fork: the loops of `cloneFrom` in src/process.js. The child's own table
-- comes from `initMemory`.
pub mod Shared
pub mod Init
pub mod Child
use noopsys.Base.{
  ℕ, zero, suc, ◌+◌, Bool, true, false, List, map, ◌∷◌, [], ◌==◌, if◌then◌else◌, update,
}
use noopsys.Base.Result.{Result, ok, err, Action, pure, ◌>>=◌, ◌>>◌, modify}
use noopsys.Base.Word.{u32}
use noopsys.Constants.{prot_none}
use noopsys.Physical.{Phys, allocate_state_entry, allocate_page, cow_dup_page}
use noopsys.Space.{Vm, Space, invalidate_hacks, empty_tlb}

-- `initMemory`: two pages for the tables, and nothing mapped but `vdso_page`, at `vdso_at`.
unfoldable pub init_memory : (vdso_at vdso_page : ℕ) → Action Phys Vm
init_memory vdso_at vdso_page = do
  entry ← allocate_state_entry
  pagemap_page ← allocate_page prot_none
  pageflags_page ← allocate_page prot_none
  modify λ s. record s { refs = update s.refs vdso_page (u32 (s.refs vdso_page + 1)) }
  pure record {
    pagemap = update (λ _. 0) vdso_at vdso_page;
    pageflags = update (λ _. 0) vdso_at 5;
    tlb = empty_tlb;
  }

-- `if (source.pagemap[n])`, with the child's table in the space.
unfoldable pub clone_page : Vm → ℕ → Action Space (Unit {0})
clone_page source n s =
    if source.pagemap n == 0 then ok (tt, s) else (elim (cow_dup_page (source.pagemap n) s.phys) [
      | ok (new, p) ↦ ok (
        tt,
        record {
          phys = p;
          vm = record {
            pagemap = update s.vm.pagemap n new;
            pageflags = update s.vm.pageflags n (source.pageflags n);
            tlb = s.vm.tlb;
          };
        },
      )
      | err e ↦ err e
    ])

-- The loop over the table, from entry `i` on, with `n` rounds left.
unfoldable pub clone_pages : ℕ → ℕ → Vm → Action Space (Unit {0})
unfolding clone_page
clone_pages zero i source s = ok (tt, s)
clone_pages (suc n) i source s = elim (clone_page source i s) [
  | ok (_, t) ↦ clone_pages n (i + 1) source t
  | err e ↦ err e
]

-- The loop over `processes`, the child among them.
unfoldable pub invalidate_all : List Vm → List Vm
invalidate_all vms = map invalidate_hacks vms

-- A new process and `cloneFrom`: the child's table, and the pages after it.
unfoldable pub fork_memory : (vdso_at vdso_page : ℕ) → Vm → Action Phys Vm
unfolding clone_pages
fork_memory vdso_at vdso_page source s = elim (init_memory vdso_at vdso_page s) [
  | ok (child, p) ↦ elim (clone_pages 32768 0 source (record { phys = p; vm = child })) [
    | ok (_, t) ↦ ok (t.vm, t.phys)
    | err e ↦ err e
  ]
  | err e ↦ err e
]
