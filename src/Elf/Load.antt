-- ===== src/Elf/Load.antt =====
-- `loadElf` of src/process.js, from the file that `ELFFile` has read: the segments, the heap, the
-- stack, and what the program finds on the stack. The page table is that of the process.
use noopsys.Base.{
  ℕ, zero, suc, ◌+◌, ◌-◌, ◌*◌, ◌/◌, Bool, true, false, Option, none, some, List, [], ◌∷◌, length,
  bit_or, ltb, ◌==◌, if◌then◌else◌, update,
}
use noopsys.Base.Int.{ℤ, pos, negsuc, ◌+ℤ◌, sub_ℕ, to_uint32}
use noopsys.Base.Word.{u32, meets}
use noopsys.Base.Result.{elf_overlap, ok, err, Action, pure, ◌>>=◌, ◌>>◌, gets, modify}
use noopsys.Constants.{prot_read, prot_write, prot_exec}
use noopsys.Physical.{allocate_page, do_zero_page, zero_page}
use noopsys.Space.{Space, any, on_phys, set_page}
use noopsys.Space.Translate.{translate}
use noopsys.Space.Accessors.{stored, write8, write32}
use noopsys.Cpu.{Cpu, on_space}
use noopsys.Elf.{Image, Header, Elf, et_dyn, pt_load}

unfoldable pub make_prot_flags : ℕ → ℕ
make_prot_flags p_flags =
    let exec = if meets p_flags 1 then prot_exec else 0 in
    let write = if meets p_flags 2 then bit_or exec prot_write else exec in
    if meets p_flags 4 then bit_or write prot_read else write

-- `u8a[i]`, as a store into memory takes it: what is behind the end of the file is stored as 0.
unfoldable pub image_byte : Image → ℕ → ℕ
image_byte f i = if ltb i f.size then f.byte i else 0

-- `this.pageflags[local] = prot`
unfoldable pub set_flags : (local prot : ℕ) → Action Space (Unit {0})
set_flags local prot = modify λ s. record {
  phys = s.phys;
  vm = record {
    pagemap = s.vm.pagemap;
    pageflags = update s.vm.pageflags local prot;
    tlb = s.vm.tlb;
  };
}

-- A page of zeros of the process's own.
unfoldable pub new_page : (local prot : ℕ) → Action Space (Unit {0})
new_page local prot = do
  new ← on_phys (allocate_page prot)
  set_page local new
  on_phys (do_zero_page new)
  set_flags local prot

-- A mapping of the page of zeros.
unfoldable pub new_zero_page : (local prot : ℕ) → Action Space (Unit {0})
new_zero_page local prot = do new ← on_phys zero_page; set_page local new; set_flags local prot

-- `this.mem8[this.translate(addr, PROT_NONE)] = v`
unfoldable pub put_byte : (addr v : ℕ) → Action Space (Unit {0})
put_byte addr v = do at ← translate (pos addr) any; modify (stored at v)

-- The page of an address of the file's part of a segment is there, or is made.
unfoldable pub provide : (local prot : ℕ) → Action Space (Unit {0})
provide local prot s =
    let page = s.vm.pagemap local in
    if page == 1 then err elf_overlap else if page == 0 then new_page local prot s else ok (tt, s)

-- One byte of the file's part of a segment.
unfoldable pub load_byte : (prot addr v : ℕ) → Action Space (Unit {0})
load_byte prot addr v = do provide (u32 addr / 0x1_0000) prot; put_byte addr v

-- The loop over the bytes of the file, `n` of them from `offset` on.
unfoldable pub load_bytes : (f : Image) → (prot n addr offset : ℕ) → Action Space (Unit {0})
load_bytes f prot zero addr offset = pure tt
load_bytes f prot (suc n) addr offset = do
  load_byte prot addr (image_byte f offset)
  load_bytes f prot n (addr + 1) (offset + 1)

-- One byte of the part of a segment that is not in the file.
unfoldable pub clear_byte : (prot addr : ℕ) → Action Space (Unit {0})
clear_byte prot addr s =
    let local = u32 addr / 0x1_0000 in
    if s.vm.pagemap local == 0 then new_zero_page local prot s else ok (tt, s)

unfoldable pub clear_bytes : (prot n addr : ℕ) → Action Space (Unit {0})
clear_bytes prot zero addr = pure tt
clear_bytes prot (suc n) addr = do clear_byte prot addr; clear_bytes prot n (addr + 1)

-- A header of the type PT_LOAD, with `bias` added to its address.
unfoldable pub load_segment : (f : Image) → (bias : ℕ) → Header → Action Space (Unit {0})
load_segment f bias h = do
  load_bytes f (make_prot_flags h.p_flags) h.p_filesz (h.p_vaddr + bias) h.p_offset
  clear_bytes (make_prot_flags h.p_flags) (h.p_memsz - h.p_filesz) (h.p_vaddr + bias + h.p_filesz)

-- The loop over the headers.
unfoldable pub load_segments : (f : Image) → (bias : ℕ) → List Header → Action Space (Unit {0})
load_segments f bias [] = pure tt
load_segments f bias (h ∷ hs) = do
  if h.p_type == pt_load then load_segment f bias h else pure tt
  load_segments f bias hs

-- `load_bias`, by which a shared object is moved.
unfoldable pub bias_of : Elf → ℕ
bias_of e = if e.obj_type == et_dyn then 0x200_0000 else 0

-- The loops that map pages of zeros, `n` of them: up from `local` for the heap, down for the stack.
unfoldable pub heap_pages : (n local : ℕ) → Action Space (Unit {0})
heap_pages zero local = pure tt
heap_pages (suc n) local = do
  new_zero_page local (bit_or prot_read prot_write)
  heap_pages n (local + 1)

unfoldable pub stack_pages : (n local : ℕ) → Action Space (Unit {0})
stack_pages zero local = pure tt
stack_pages (suc n) local = do
  new_zero_page local (bit_or prot_read prot_write)
  stack_pages n (local - 1)

abbrev pub heap_start : ℕ
heap_start = 0x800_0000

abbrev pub args_start : ℕ
args_start = 0xb00_0000

abbrev pub stack_top : ℕ
stack_top = 0xc00_0ff0

-- The characters of a string and a 0, from `dummy` on.
unfoldable pub put_string : (cs : List ℕ) → (dummy : ℕ) → Action Space (Unit {0})
put_string [] dummy = write8 (pos dummy) 0
put_string (c ∷ cs) dummy = do write8 (pos dummy) c; put_string cs (dummy + 1)

-- The loop over `argv` or `envp`: the addresses of the strings, and the next free one.
unfoldable pub put_strings : List (List ℕ) → (dummy : ℕ) → Action Space (List ℕ × ℕ)
put_strings [] dummy = pure ([], dummy)
put_strings (cs ∷ css) dummy = do
  put_string cs dummy
  more ← put_strings css (dummy + (length cs + 1))
  pure (dummy ∷ more.0, more.1)

-- Words one behind the other, from `sp` on; the next address.
unfoldable pub put_words : List ℕ → (sp : ℕ) → Action Space ℕ
put_words [] sp = pure sp
put_words (w ∷ ws) sp = do write32 (pos sp) w; put_words ws (sp + 4)

-- The pairs of a number and a value behind the environment; `phEntSize` is always 32. That of AT_RANDOM is the address at
-- which it stands.
unfoldable pub put_aux : (phdr base entry ph_num sp : ℕ) → Action Space ℕ
put_aux phdr base entry ph_num sp = do
  sp ← put_words (3 ∷ phdr ∷ 4 ∷ 32 ∷ 5 ∷ ph_num ∷ 7 ∷ base ∷ 25 ∷ []) sp
  write32 (pos sp) sp
  put_words (9 ∷ entry ∷ 6 ∷ 65536 ∷ 0 ∷ 0 ∷ []) (sp + 4)

-- What is mapped besides the segments.
unfoldable pub map_areas : Action Space (Unit {0})
map_areas = do
  heap_pages 100 0x800
  stack_pages 10 0xc00
  new_zero_page 0xb00 (bit_or prot_read prot_write)

-- The arguments and the environment, and the stack pointer at which the program begins.
unfoldable pub put_stack :
    (argv envp : List (List ℕ)) → (phdr base entry ph_num : ℕ) → Action Space ℕ
put_stack argv envp phdr base entry ph_num = do
  args ← put_strings argv args_start
  envs ← put_strings envp args.1
  sp ← gets λ _. stack_top - (19 + length args.0 + length envs.0) * 4
  at ← put_words (length args.0 ∷ []) sp
  at ← put_words args.0 at
  at ← put_words (0 ∷ []) at
  at ← put_words envs.0 at
  at ← put_words (0 ∷ []) at
  put_aux phdr base entry ph_num at
  pure sp

-- By how much the interpreter is moved.
abbrev pub interp_bias : ℕ
interp_bias = 0x1_0000

-- `interp_baseaddr == baseaddr`
unfoldable pub same_base : Option ℤ → Option ℤ → Bool
same_base none none = true
same_base none (some b) = false
same_base (some a) none = false
same_base (some (pos a)) (some (pos b)) = a == b
same_base (some (negsuc a)) (some (negsuc b)) = a == b
same_base (some (pos a)) (some (negsuc b)) = false
same_base (some (negsuc a)) (some (pos b)) = false

-- `baseaddr`: where the first byte of the file would be, by the first segment. It is undefined
-- without one.
unfoldable pub base_of : (bias : ℕ) → List Header → Option ℤ
base_of bias [] = none
base_of bias (h ∷ hs) =
    let rest = base_of bias hs in
    if h.p_type == pt_load then some (sub_ℕ (h.p_vaddr + bias) h.p_offset) else rest

-- `interp_baseaddr`, which every header of the interpreter sets while it is still `baseaddr`.
unfoldable pub interp_base : (base now : Option ℤ) → List Header → Option ℤ
interp_base base now [] = now
interp_base base now (h ∷ hs) =
    let own = some (sub_ℕ (h.p_vaddr + interp_bias) h.p_offset) in
    interp_base base (if same_base now base then own else now) hs

-- What `write32` stores of an address that may be undefined: NaN is stored as 0.
unfoldable pub base_word : Option ℤ → ℕ → ℕ
base_word none offset = 0
base_word (some b) offset = to_uint32 (b +ℤ pos offset)

-- The program and, if it has an interpreter, that one's segments.
unfoldable pub load_program : (f : Image) → Elf → Option (Image × Elf) → Action Space (Unit {0})
load_program f e interpreter = do
  load_segments f (bias_of e) e.headers
  elim interpreter [ none ↦ pure tt | some (g, i) ↦ load_segments g interp_bias i.headers ]

-- Where the program begins: in its interpreter, if it has one.
unfoldable pub entry_of : Elf → Option (Image × Elf) → ℕ
entry_of e none = e.entry_point + bias_of e
entry_of e (some (g, i)) = i.entry_point + interp_bias

unfoldable pub interp_base_of : Elf → Option (Image × Elf) → Option ℤ
interp_base_of e none = base_of (bias_of e) e.headers
interp_base_of e (some (g, i)) =
    interp_base (base_of (bias_of e) e.headers) (base_of (bias_of e) e.headers) i.headers

-- `loadElf`, once the files of the program and of its interpreter are found and read. The break is
-- at `heap_start` then.
unfoldable pub load_elf :
    (f : Image)
    → Elf
    → (interpreter : Option (Image × Elf)) → (argv envp : List (List ℕ)) → Action Cpu (Unit {0})
load_elf f e interpreter argv envp = do
  on_space (load_program f e interpreter)
  on_space map_areas
  sp ← on_space (
      put_stack argv envp (base_word (base_of (bias_of e) e.headers) e.ph_offset)
        (base_word (interp_base_of e interpreter) 0) (e.entry_point + bias_of e) e.ph_num)
  modify λ c. record c { regs = update c.regs 29 sp; pc = entry_of e interpreter; pending = 0 }
