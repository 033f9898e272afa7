-- ===== src/Elf/Tests.antt =====
-- A small executable, to read as src/elf.js does.
use noopsys.Base.{ℕ, ◌+◌, ◌*◌, ◌≤◌, ◌≡◌, refl, inl, List, [], ◌∷◌, arith, get_or}
use noopsys.Base.Word.{word_of}
use noopsys.Base.Result.{Result, ok, err}
use noopsys.Base.Seal.{pure, ◌>>=◌, gets, modify, throw_if}
use noopsys.Base.Word.{has, meets}
use noopsys.Physical.{find_page, allocate_page, do_zero_page}
use noopsys.Physical.Words.{zero_page_bytes}
use noopsys.Space.{Space, cached, remember}
use noopsys.Space.Translate.{translate, translate_miss, reach, resolve}
use noopsys.Space.Accessors.{stored}
use noopsys.Space.Tests.{world, child, world-IsSafe}
use noopsys.Elf.Load.{
  load_segment, load_bytes, load_byte, provide, new_page, set_flags, put_byte, clear_bytes,
  clear_byte, make_prot_flags, image_byte,
}
use noopsys.Elf.Mapped.{seen}
use noopsys.Elf.Segment.{IsLoaded}
use noopsys.Elf.Segments.{AreOwn, AreMapped}
use noopsys.Elf.Placed.{loaded, load_segment-IsLoaded}
use noopsys.Elf.{Image, Header, Elf, read_elf}
use noopsys.Elf.Layout.{
  IsHalf, IsWord, IsHeader, no_chars, char, no_headers, other, interpreter, IsElf,
}
use noopsys.Elf.Accepts.{read_elf-IsElf}

abbrev file_bytes : List ℕ
file_bytes =
    127 ∷ 69 ∷ 76 ∷ 70 ∷ 1 ∷ 1 ∷ 1 ∷ 0 ∷ 0 ∷ 0 ∷ 0 ∷ 0 ∷ 0 ∷ 0 ∷ 0 ∷ 0 ∷ 2 ∷ 0 ∷ 8 ∷ 0 ∷ 1 ∷ 0 ∷ 0
    ∷ 0 ∷ 0 ∷ 0 ∷ 64 ∷ 0 ∷ 52 ∷ 0 ∷ 0 ∷ 0 ∷ 0 ∷ 0 ∷ 0 ∷ 0 ∷ 7 ∷ 16 ∷ 0 ∷ 80 ∷ 52 ∷ 0 ∷ 32 ∷ 0 ∷ 2
    ∷ 0 ∷ 0 ∷ 0 ∷ 0 ∷ 0 ∷ 0 ∷ 0 ∷ 3 ∷ 0 ∷ 0 ∷ 0 ∷ 116 ∷ 0 ∷ 0 ∷ 0 ∷ 116 ∷ 0 ∷ 64 ∷ 0 ∷ 116 ∷ 0 ∷ 64
    ∷ 0 ∷ 4 ∷ 0 ∷ 0 ∷ 0 ∷ 4 ∷ 0 ∷ 0 ∷ 0 ∷ 4 ∷ 0 ∷ 0 ∷ 0 ∷ 1 ∷ 0 ∷ 0 ∷ 0 ∷ 1 ∷ 0 ∷ 0 ∷ 0 ∷ 120 ∷ 0
    ∷ 0 ∷ 0 ∷ 64 ∷ 0 ∷ 2 ∷ 0 ∷ 64 ∷ 0 ∷ 2 ∷ 0 ∷ 3 ∷ 0 ∷ 0 ∷ 0 ∷ 6 ∷ 0 ∷ 0 ∷ 0 ∷ 7 ∷ 0 ∷ 0 ∷ 0 ∷ 0
    ∷ 0 ∷ 1 ∷ 0 ∷ 47 ∷ 97 ∷ 98 ∷ 0 ∷ 1 ∷ 2 ∷ 3 ∷ []

abbrev pub image : Image
image = record { byte = λ i. get_or file_bytes i 0; size = 123 }

abbrev name_header : Header
name_header = record {
  p_type = 3;
  p_offset = 116;
  p_vaddr = 4194420;
  p_filesz = 4;
  p_memsz = 4;
  p_flags = 4;
  p_align = 1;
}

abbrev pub load_header : Header
load_header = record {
  p_type = 1;
  p_offset = 120;
  p_vaddr = 131136;
  p_filesz = 3;
  p_memsz = 6;
  p_flags = 7;
  p_align = 65536;
}

abbrev elf : Elf
elf = record {
  obj_type = 2;
  machine_type = 8;
  entry_point = 0x400000;
  ph_offset = 52;
  flags = 0x5000_1007;
  ph_ent_size = 32;
  ph_num = 2;
  headers = name_header ∷ load_header ∷ [];
  elf_interpreter = 47 ∷ 97 ∷ 98 ∷ [];
}

half : (at v : ℕ) → at + 2 ≤ 123 → image.byte at + image.byte (at + 1) * 256 ≡ v → IsHalf image at v
half at v h e = record { inside = h; value = e }

word :
    (at v : ℕ)
    → at + 4 ≤ 123
    → word_of (image.byte at) (image.byte (at + 1)) (image.byte (at + 2)) (image.byte (at + 3)) ≡ v
    → IsWord image at v
word at v h e = record { inside = h; value = e }

name_header-IsHeader : IsHeader image 52 name_header
name_header-IsHeader = record {
  p_type = word 52 3 (omega arith) refl;
  p_offset = word 56 116 (omega arith) refl;
  p_vaddr = word 60 _ (omega arith) refl;
  p_filesz = word 68 4 (omega arith) refl;
  p_memsz = word 72 4 (omega arith) refl;
  p_flags = word 76 4 (omega arith) refl;
  p_align = word 80 1 (omega arith) refl;
}

load_header-IsHeader : IsHeader image 84 load_header
load_header-IsHeader = record {
  p_type = word 84 1 (omega arith) refl;
  p_offset = word 88 _ (omega arith) refl;
  p_vaddr = word 92 _ (omega arith) refl;
  p_filesz = word 100 _ (omega arith) refl;
  p_memsz = word 104 _ (omega arith) refl;
  p_flags = word 108 _ (omega arith) refl;
  p_align = word 112 _ (omega arith) refl;
}

image-IsElf : IsElf image elf
image-IsElf = record {
  magic = (refl, refl, refl, refl);
  class = refl;
  data_order = refl;
  ident_version = refl;
  obj_type = half 16 2 (omega arith) refl;
  executable = inl refl;
  machine_type = half 18 8 (omega arith) refl;
  mips = refl;
  version = word 20 1 (omega arith) refl;
  entry_point = word 24 _ (omega arith) refl;
  ph_offset = word 28 _ (omega arith) refl;
  flags = word 36 _ (omega arith) refl;
  ph_ent_size = half 42 _ (omega arith) refl;
  size_of_header = refl;
  ph_num = half 44 _ (omega arith) refl;
  number = refl;
  aligned = refl;
  headers =
      interpreter 52 name_header (load_header ∷ []) [] (47 ∷ 97 ∷ 98 ∷ []) (omega arith)
        name_header-IsHeader refl
        (char 116 (97 ∷ 98 ∷ []) (omega arith)
          (char 117 (98 ∷ []) (omega arith) (char 118 [] (omega arith) (no_chars 119))))
        refl (other 84 load_header [] [] (omega arith) load_header-IsHeader refl (no_headers 116));
}

read_elf-IsElf_example : read_elf image ≡ ok (elf, image)
read_elf-IsElf_example = read_elf-IsElf image elf image-IsElf

-- The segment, loaded by a process that has nothing mapped there.
abbrev after_load : Result (Unit {0} × Space) → Space
after_load r = elim r [ ok (_, s) ↦ s | err e ↦ world ]

abbrev loaded_world : Space
loaded_world = after_load (load_segment image 0 load_header world)

segment_runs : load_segment image 0 load_header world ≡ ok (tt, loaded_world)
unfolding load_segment load_bytes load_byte provide new_page set_flags put_byte clear_bytes
    clear_byte make_prot_flags image_byte allocate_page find_page do_zero_page zero_page_bytes
    translate cached translate_miss reach resolve remember stored ◌>>=◌ modify gets pure throw_if
    has meets
segment_runs = refl

load_segment-IsLoaded_example :
    IsLoaded (child ∷ []) 3 (loaded image 0 load_header (seen world)) world loaded_world
    × AreMapped loaded_world 131136 6
load_segment-IsLoaded_example =
    load_segment-IsLoaded (child ∷ []) image 0 load_header world loaded_world world-IsSafe
      (omega arith) (omega arith) (omega arith) nothing_there segment_runs
  where
    nothing_there : AreOwn (child ∷ []) world 131136 3
    nothing_there a low high used = absurd (ground arith)
