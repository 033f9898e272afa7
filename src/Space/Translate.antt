-- ===== src/Space/Translate.antt =====
-- `translate` and `translateMiss` of src/process.js.
use noopsys.Base.{ℕ, ◌+◌, ◌*◌, ◌%◌, ◌^◌, not, none, some, leb, ◌==◌, if◌then◌else◌}
use noopsys.Base.Int.{ℤ, pos, negsuc, to_uint32}
use noopsys.Base.Word.{◌>>>◌, has, meets}
use noopsys.Base.Result.{
  negative_address, bad_address, fault, unmapped, unhandled_fault, ok, err, Action, pure, throw,
  ◌>>=◌, ◌>>◌, modify, throw_if,
}
use noopsys.Constants.{vm_shared}
use noopsys.Space.{
  Space, Access, write, prot_of, invalidate_hacks, cached, remember, copy_on_write, fill_zero_page,
}

-- The local flags allow a write and the page's own flags do not.
unfoldable pub take_over : ℕ → ℕ → Action Space ℕ
take_over local page s =
    if meets (s.phys.flags page) vm_shared
    then copy_on_write local page s
    else if page == 1
    then fill_zero_page local page s
    else err unhandled_fault

abbrev pub invalidated : Space → Space
invalidated s = record { phys = s.phys; vm = invalidate_hacks s.vm }

unfoldable pub resolve : Access → ℕ → ℕ → Action Space ℕ
resolve write local page = do new ← take_over local page; modify invalidated; pure new
resolve _ local page = throw unhandled_fault

-- The page that an allowed access to virtual page `local` ends up at.
unfoldable pub reach : Access → ℕ → Action Space ℕ
reach access local s =
    let page = s.vm.pagemap local in
    if not (has (s.vm.pageflags local) (prot_of access))
    then err fault
    else if page == 0
    then err unmapped
    else if has (s.phys.flags page) (prot_of access)
    then ok (page, s)
    else resolve access local page s

unfoldable pub translate_miss : ℤ → Access → Action Space ℕ
translate_miss (negsuc n) access = throw negative_address
translate_miss (pos addr) access = do
  throw_if (leb 0x8000_0000 addr) bad_address
  page ← reach access (addr >>> 16)
  modify λ s. record {
    phys = s.phys;
    vm = record {
      pagemap = s.vm.pagemap;
      pageflags = s.vm.pageflags;
      tlb = remember access (addr >>> 16) (page * 2 ^ 16) s.vm.tlb;
    };
  }
  pure (page * 2 ^ 16 + addr % 2 ^ 16)

unfoldable pub translate : ℤ → Access → Action Space ℕ
translate addr access s = elim (cached access (to_uint32 addr >>> 16) s.vm.tlb) [
  | some page ↦ ok (page + to_uint32 addr % 2 ^ 16, s)
  | none ↦ translate_miss addr access s
]
