-- ===== src/Elf.antt =====
-- Executables: `ELFFile` of src/elf.js.
pub mod Layout
pub mod Accepts
pub mod Load
pub mod Mapped
pub mod Zeroed
pub mod Segment
pub mod Segments
pub mod Placed
pub mod Tests
use noopsys.Base.{
  ℕ, zero, suc, ◌+◌, ◌-◌, ◌*◌, ◌/◌, ◌^◌, Bool, not, ◌&&◌, ◌||◌, List, [], ◌∷◌, ◌++◌, leb, ltb, ◌==◌,
  if◌then◌else◌,
}
use noopsys.Base.Word.{u32, word_of}
use noopsys.Base.Result.{
  Error, bad_elf, out_of_range, Result, ok, err, Action, pure, ◌>>=◌, ◌>>◌, throw_if,
}

-- The buffer of a file.
pub record Image : Type 0 where
  pub byte : ℕ → ℕ
  pub size : ℕ

abbrev pub et_exec : ℕ
et_exec = 2

abbrev pub et_dyn : ℕ
et_dyn = 3

abbrev pub pt_load : ℕ
pt_load = 1

abbrev pub pt_interp : ℕ
pt_interp = 3

pub record Header : Type 0 where
  pub p_type : ℕ
  pub p_offset : ℕ
  pub p_vaddr : ℕ
  pub p_filesz : ℕ
  pub p_memsz : ℕ
  pub p_flags : ℕ
  pub p_align : ℕ

pub record Elf : Type 0 where
  pub obj_type : ℕ
  pub machine_type : ℕ
  pub entry_point : ℕ
  pub ph_offset : ℕ
  pub flags : ℕ
  pub ph_ent_size : ℕ
  pub ph_num : ℕ
  pub headers : List Header
  pub elf_interpreter : List ℕ

-- `u8a[i]`, `u16a[i]` and `u32a[i]`. An element behind the end, which is undefined, is an error here.
unfoldable pub read_u8 : ℕ → Action Image ℕ
read_u8 i f = if ltb i f.size then ok (f.byte i, f) else err out_of_range

unfoldable pub read_u16 : ℕ → Action Image ℕ
read_u16 i f =
    if leb (2 * i + 2) f.size
    then ok (f.byte (2 * i) + f.byte (2 * i + 1) * 2 ^ 8, f)
    else err out_of_range

unfoldable pub read_u32 : ℕ → Action Image ℕ
read_u32 i f =
    if leb (4 * i + 4) f.size
    then ok
        (word_of (f.byte (4 * i)) (f.byte (4 * i + 1)) (f.byte (4 * i + 2)) (f.byte (4 * i + 3)), f)
    else err out_of_range

-- A program header that begins at the word `at`.
unfoldable pub read_header : (at : ℕ) → Action Image Header
read_header at = do
  p_type ← read_u32 (at + 0)
  p_offset ← read_u32 (at + 1)
  p_vaddr ← read_u32 (at + 2)
  p_filesz ← read_u32 (at + 4)
  p_memsz ← read_u32 (at + 5)
  p_flags ← read_u32 (at + 6)
  p_align ← read_u32 (at + 7)
  pure record {
    p_type = p_type;
    p_offset = p_offset;
    p_vaddr = p_vaddr;
    p_filesz = p_filesz;
    p_memsz = p_memsz;
    p_flags = p_flags;
    p_align = p_align;
  }

-- The loop over the characters of the interpreter's name.
unfoldable pub read_chars : (n at : ℕ) → Action Image (List ℕ)
read_chars zero at = pure []
read_chars (suc n) at = do c ← read_u8 at; cs ← read_chars n (at + 1); pure (c ∷ cs)

unfoldable pub read_interpreter : Header → Action Image (List ℕ)
read_interpreter h =
    if h.p_type == pt_interp then read_chars (h.p_filesz - 1) h.p_offset else pure []

-- The loop over the program headers, `n` of them from number `p` on.
unfoldable pub read_headers : (n p ph_offset ph_ent_size : ℕ) → Action Image (List Header × List ℕ)
read_headers zero p ph_offset ph_ent_size = pure ([], [])
read_headers (suc n) p ph_offset ph_ent_size = do
  header ← read_header (u32 (ph_offset + p * ph_ent_size) / 4)
  chars ← read_interpreter header
  more ← read_headers n (p + 1) ph_offset ph_ent_size
  pure (header ∷ more.0, chars ++ more.1)

-- The checks of the first 24 bytes. The type of the file is an executable or a shared object, for
-- the processor 8.
unfoldable pub check_ident : Action Image (Unit {0})
check_ident = do
  m0 ← read_u8 0
  m1 ← read_u8 1
  m2 ← read_u8 2
  m3 ← read_u8 3
  throw_if (not ((m0 == 0x7f) && (m1 == 0x45) && (m2 == 0x4c) && (m3 == 0x46))) bad_elf
  class ← read_u8 4
  throw_if (not (class == 1)) bad_elf
  data_order ← read_u8 5
  throw_if (not (data_order == 1)) bad_elf
  version ← read_u8 6
  throw_if (not (version == 1)) bad_elf

unfoldable pub read_elf : Action Image Elf
read_elf = do
  check_ident
  obj_type ← read_u16 8
  throw_if (not ((obj_type == et_exec) || (obj_type == et_dyn))) bad_elf
  machine_type ← read_u16 9
  throw_if (not (machine_type == 8)) bad_elf
  version ← read_u32 5
  throw_if (not (version == 1)) bad_elf
  entry_point ← read_u32 6
  ph_offset ← read_u32 7
  flags ← read_u32 9
  ph_ent_size ← read_u16 21
  throw_if (not (ph_ent_size == 32)) bad_elf
  ph_num ← read_u16 22
  found ← read_headers ph_num 0 ph_offset ph_ent_size
  pure record {
    obj_type = obj_type;
    machine_type = machine_type;
    entry_point = entry_point;
    ph_offset = ph_offset;
    flags = flags;
    ph_ent_size = ph_ent_size;
    ph_num = ph_num;
    headers = found.0;
    elf_interpreter = found.1;
  }
