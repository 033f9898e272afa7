-- ===== src/Space/Safe.antt =====
-- The invariant of the physical pages and of the page tables of all processes (src/process.js).
use noopsys.Base.{
  ℕ, zero, suc, ◌+◌, ◌*◌, ◌/◌, ◌%◌, ◌≤◌, ◌<◌, ◌≡◌, ◌≢◌, true, some, List, [], ◌∷◌, arith, get_elem?,
}
use noopsys.Base.Word.{has}
use noopsys.Constants.{prot_read, prot_write}
use noopsys.Physical.{Phys}
use noopsys.Space.{Vm, empty_tlb}
use noopsys.Space.Count.{mapped, mapped-pos}

-- A page table has 2^15 entries of 64 kB.
abbrev pub local_pages : ℕ
local_pages = 32768

-- How often the processes map page `p`.
unfoldable pub held : List Vm → ℕ → ℕ
held [] p = 0
held (vm ∷ vms) p = mapped local_pages vm.pagemap p + held vms p

-- A cached entry, unless it is empty, agrees with the page table.
abbrev pub Agrees : (ℕ → ℕ) → ℕ → ℕ → Type 0
Agrees pagemap a page = a < 65536 → (a < local_pages) × (pagemap a ≢ 0) × (page ≡ pagemap a * 65536)

pub record IsCoherent (phys : Phys) (vm : Vm) : Type 0 where
  pub old : Agrees vm.pagemap vm.tlb.opt_old_addr vm.tlb.opt_old_phys_page
  pub older : Agrees vm.pagemap vm.tlb.opt_older_addr vm.tlb.opt_older_phys_page
  pub writes : Agrees vm.pagemap vm.tlb.opt_old_write_addr vm.tlb.opt_old_write_phys_page
  pub code : Agrees vm.pagemap vm.tlb.opt_old_code_addr vm.tlb.opt_old_code_phys_page
  pub older_code : Agrees vm.pagemap vm.tlb.opt_older_code_addr vm.tlb.opt_older_code_phys_page
  pub writable :
      vm.tlb.opt_old_write_addr < 65536
      → has (phys.flags (vm.pagemap vm.tlb.opt_old_write_addr)) prot_write ≡ true

pub record IsSafe (phys : Phys) (vms : List Vm) : Type 0 where
  pub counted : (p : ℕ) → p ≢ 0 → held vms p ≤ phys.refs p
  pub exclusive : (p : ℕ) → p ≢ 0 → has (phys.flags p) prot_write ≡ true → held vms p ≤ 1
  pub zero_base : held vms 1 < phys.refs 1
  pub zero_flags : phys.flags 1 ≡ prot_read
  pub zero_clean : (i : ℕ) → i < 65536 → phys.mem (65536 + i) ≡ 0
  pub coherent : (k : ℕ) (vm : Vm) → get_elem? vms k ≡ some vm → IsCoherent phys vm

-- With no cached entry there is nothing to agree with.
pub IsCoherent-empty : (phys : Phys) (vm : Vm) → vm.tlb ≡ empty_tlb → IsCoherent phys vm
IsCoherent-empty phys vm e = record {
  old = λ h. ground arith;
  older = λ h. ground arith;
  writes = λ h. ground arith;
  code = λ h. ground arith;
  older_code = λ h. ground arith;
  writable = λ h. ground arith;
}

pub mapped-le-held :
    (vms : List Vm) (k : ℕ) (vm : Vm) (p : ℕ)
    → get_elem? vms k ≡ some vm
    → mapped local_pages vm.pagemap p ≤ held vms p
unfolding held
mapped-le-held [] k vm p h = cc
mapped-le-held (v ∷ vms) zero vm p h = ground arith
mapped-le-held (v ∷ vms) (suc k) vm p h = omega (arith, mapped-le-held vms k vm p h)

-- A process maps what its page table holds.
pub held-pos :
    (vms : List Vm) (k : ℕ) (vm : Vm) (i : ℕ)
    → get_elem? vms k ≡ some vm
    → i < local_pages
    → 1 ≤ held vms (vm.pagemap i)
held-pos vms k vm i h below =
    omega
      (arith, mapped-le-held vms k vm (vm.pagemap i) h, mapped-pos local_pages vm.pagemap i below)

-- The byte that a process sees at an address.
abbrev pub view : Phys → Vm → ℕ → ℕ
view phys vm a = phys.mem (vm.pagemap (a / 65536) * 65536 + a % 65536)
