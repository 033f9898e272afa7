-- ===== src/Space/Exit.antt =====
-- The end of a process: the loop of `freeResources` in src/process.js over the page table.
pub mod Release
pub mod Returned
use noopsys.Base.{ℕ, zero, suc, ◌+◌, ◌==◌, if◌then◌else◌}
use noopsys.Base.Result.{Result, ok, err, Action}
use noopsys.Physical.{Phys, free_page}
use noopsys.Space.{Vm}

-- `if (this.pagemap[n]) freePage(this.pagemap[n])`
unfoldable pub free_entry : Vm → ℕ → Action Phys (Unit {0})
free_entry vm n s = if vm.pagemap n == 0 then ok (tt, s) else free_page (vm.pagemap n) s

-- The loop over the table, from entry `i` on, with `n` rounds left.
unfoldable pub free_entries : ℕ → ℕ → Vm → Action Phys (Unit {0})
unfolding free_entry
free_entries zero i vm s = ok (tt, s)
free_entries (suc n) i vm s = elim (free_entry vm i s) [
  | ok (_, t) ↦ free_entries n (i + 1) vm t
  | err e ↦ err e
]
