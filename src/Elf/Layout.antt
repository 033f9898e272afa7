-- ===== src/Elf/Layout.antt =====
-- Executables as the ELF specification lays them out, for `ELFFile` of src/elf.js.
use noopsys.Base.{
  ℕ, ◌+◌, ◌-◌, ◌*◌, ◌%◌, ◌^◌, ◌<◌, ◌≤◌, ◌≡◌, ◌⊎◌, false, List, [], ◌∷◌, ◌++◌, length, ◌==◌,
}
use noopsys.Base.Word.{word_of}
use noopsys.Elf.{Image, Header, Elf, pt_interp}

-- The little-endian numbers at a byte of the file, which lie inside of it.
pub record IsHalf (f : Image) (at v : ℕ) : Type 0 where
  pub inside : at + 2 ≤ f.size
  pub value : f.byte at + f.byte (at + 1) * 2 ^ 8 ≡ v

pub record IsWord (f : Image) (at v : ℕ) : Type 0 where
  pub inside : at + 4 ≤ f.size
  pub value : word_of (f.byte at) (f.byte (at + 1)) (f.byte (at + 2)) (f.byte (at + 3)) ≡ v

-- A program header that begins at a byte of the file, laid out as the ELF specification says.
pub record IsHeader (f : Image) (at : ℕ) (h : Header) : Type 0 where
  pub p_type : IsWord f at h.p_type
  pub p_offset : IsWord f (at + 4) h.p_offset
  pub p_vaddr : IsWord f (at + 8) h.p_vaddr
  pub p_filesz : IsWord f (at + 16) h.p_filesz
  pub p_memsz : IsWord f (at + 20) h.p_memsz
  pub p_flags : IsWord f (at + 24) h.p_flags
  pub p_align : IsWord f (at + 28) h.p_align

-- The characters from a byte of the file on.
pub data AreChars (f : Image) : ℕ → List ℕ → Type 0 where
  no_chars : (at : ℕ) → AreChars f at []
  char :
      (at : ℕ) (cs : List ℕ) → at < f.size → AreChars f (at + 1) cs → AreChars f at (f.byte at ∷ cs)

-- The program headers from a byte of the file on, 32 bytes each, with the name of the interpreter
-- that they hold together: the characters of a header for it, but for the last.
pub data AreHeaders (f : Image) : ℕ → List Header → List ℕ → Type 0 where
  no_headers : (at : ℕ) → AreHeaders f at [] []
  other :
      (at : ℕ) (h : Header) (hs : List Header) (name : List ℕ)
      → at + 32 < 2 ^ 32
      → IsHeader f at h
      → (h.p_type == pt_interp) ≡ false
      → AreHeaders f (at + 32) hs name
      → AreHeaders f at (h ∷ hs) name
  interpreter :
      (at : ℕ) (h : Header) (hs : List Header) (name cs : List ℕ)
      → at + 32 < 2 ^ 32
      → IsHeader f at h
      → h.p_type ≡ pt_interp
      → AreChars f h.p_offset cs
      → length cs ≡ h.p_filesz - 1
      → AreHeaders f (at + 32) hs name
      → AreHeaders f at (h ∷ hs) (cs ++ name)

-- An executable or shared object for 32-bit little-endian MIPS, with its headers at a multiple of
-- four.
pub record IsElf (f : Image) (e : Elf) : Type 0 where
  pub magic : (f.byte 0 ≡ 0x7f) × (f.byte 1 ≡ 0x45) × (f.byte 2 ≡ 0x4c) × (f.byte 3 ≡ 0x46)
  pub class : f.byte 4 ≡ 1
  pub data_order : f.byte 5 ≡ 1
  pub ident_version : f.byte 6 ≡ 1
  pub obj_type : IsHalf f 16 e.obj_type
  pub executable : (e.obj_type ≡ 2) ⊎ (e.obj_type ≡ 3)
  pub machine_type : IsHalf f 18 e.machine_type
  pub mips : e.machine_type ≡ 8
  pub version : IsWord f 20 1
  pub entry_point : IsWord f 24 e.entry_point
  pub ph_offset : IsWord f 28 e.ph_offset
  pub flags : IsWord f 36 e.flags
  pub ph_ent_size : IsHalf f 42 e.ph_ent_size
  pub size_of_header : e.ph_ent_size ≡ 32
  pub ph_num : IsHalf f 44 e.ph_num
  pub number : length e.headers ≡ e.ph_num
  pub aligned : e.ph_offset % 4 ≡ 0
  pub headers : AreHeaders f e.ph_offset e.headers e.elf_interpreter
