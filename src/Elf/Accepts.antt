-- ===== src/Elf/Accepts.antt =====
-- The files that `ELFFile` of src/elf.js accepts, and what it makes of them.
use noopsys.Base.{
  ℕ, suc, ◌+◌, ◌-◌, ◌*◌, ◌/◌, ◌%◌, ◌^◌, ◌<◌, ◌≤◌, ◌≡◌, refl, ◌∙◌, true, false, Bool, List, [], ◌∷◌,
  ◌++◌, length, arith, ◌==◌,
}
use noopsys.Base.Word.{u32}
use noopsys.Base.Result.{bad_elf, ok, Error, Action, pure, ◌>>=◌, ◌>>◌, throw_if, >>=-ok}
use noopsys.Elf.{
  Image, Header, Elf, read_u8, read_u16, read_u32, read_header, read_chars, read_interpreter,
  read_headers, check_ident, read_elf, pt_interp,
}
use noopsys.Elf.Layout.{
  IsHalf, IsWord, IsHeader, AreChars, no_chars, char, AreHeaders, no_headers, other, interpreter,
  IsElf,
}

-- Run on the image, the reader returns this value.
record Reads {A : Type 0} (f : Image) (m : Action Image A) (a : A) : Type 0 where
  runs : m f ≡ ok (a, f)

module _ {A B : Type 0} {f : Image} {m : Action Image A} {a : A} where
  bind : (k : A → Action Image B) {b : B} → Reads f m a → Reads f (k a) b → Reads f (m >>= k) b
  bind k p q = record { runs = >>=-ok m k f f a p.runs ∙ q.runs }

  seq : {k : Action Image B} {b : B} → Reads f m a → Reads f k b → Reads f (m >> k) b
  seq {k} p q = record { runs = >>=-ok m (λ _. k) f f a p.runs ∙ q.runs }

Reads-pure : {A : Type 0} (f : Image) (a : A) → Reads f (pure a) a
Reads-pure f a = record { runs = refl }

read_u8-inside : (f : Image) (at v : ℕ) → at < f.size → f.byte at ≡ v → Reads f (read_u8 at) v
unfolding read_u8
read_u8-inside f at v h e = record { runs = ground arith }

read_u16-IsHalf : (f : Image) (i v : ℕ) → IsHalf f (2 * i) v → Reads f (read_u16 i) v
unfolding read_u16
read_u16-IsHalf f i v h = record { runs = ground (arith, h.inside, h.value) }

read_u32-IsWord :
    (f : Image) (at k v : ℕ)
    → at % 4 ≡ 0
    → IsWord f (at + 4 * k) v
    → Reads f (read_u32 (at / 4 + k)) v
unfolding read_u32
read_u32-IsWord f at k v aligned w =
    let e : 4 * (at / 4 + k) ≡ at + 4 * k = omega (arith, aligned) in
    record { runs = rw e (ground (arith, w.inside, w.value)) }

read_header-IsHeader :
    (f : Image) (at : ℕ) (h : Header)
    → at % 4 ≡ 0
    → IsHeader f at h
    → Reads f (read_header (at / 4)) h
unfolding read_header
read_header-IsHeader f at h aligned l =
    let zero_word : at + 4 * 0 ≡ at = omega arith in
    bind _ (read_u32-IsWord f at 0 h.p_type aligned (rw zero_word l.p_type)) (
      bind _ (read_u32-IsWord f at 1 h.p_offset aligned l.p_offset) (
        bind _ (read_u32-IsWord f at 2 h.p_vaddr aligned l.p_vaddr) (
          bind _ (read_u32-IsWord f at 4 h.p_filesz aligned l.p_filesz) (
            bind _ (read_u32-IsWord f at 5 h.p_memsz aligned l.p_memsz) (
              bind _ (read_u32-IsWord f at 6 h.p_flags aligned l.p_flags)
                (bind _ (read_u32-IsWord f at 7 h.p_align aligned l.p_align) (Reads-pure f h)))))))

read_chars-AreChars :
    (f : Image) (at : ℕ) (cs : List ℕ) → AreChars f at cs → Reads f (read_chars (length cs) at) cs
unfolding read_chars
read_chars-AreChars f at [] (no_chars _) = Reads-pure f []
read_chars-AreChars f at (_ ∷ cs) (char _ _ inside rest) =
    bind _ (read_u8-inside f at (f.byte at) inside refl)
      (bind _ (read_chars-AreChars f (at + 1) cs rest) (Reads-pure f (f.byte at ∷ cs)))

read_interpreter-other :
    (f : Image) (h : Header) → (h.p_type == pt_interp) ≡ false → Reads f (read_interpreter h) []
unfolding read_interpreter
read_interpreter-other f h e = record { runs = rw e refl }

read_interpreter-name :
    (f : Image) (h : Header) (cs : List ℕ)
    → h.p_type ≡ pt_interp
    → AreChars f h.p_offset cs
    → length cs ≡ h.p_filesz - 1
    → Reads f (read_interpreter h) cs
unfolding read_interpreter
read_interpreter-name f h cs is_name chars long =
    let yes : (h.p_type == pt_interp) ≡ true = ground arith in
    record { runs = rw (yes, ← long) (read_chars-AreChars f h.p_offset cs chars).runs }

module _ (f : Image) (ph_offset : ℕ) (aligned : ph_offset % 4 ≡ 0) where
  -- One round of the loop.
  read_headers_step :
      (h : Header) (cs : List ℕ) (n p : ℕ) (rest : List Header × List ℕ)
      → ph_offset + p * 32 + 32 < 2 ^ 32
      → IsHeader f (ph_offset + p * 32) h
      → Reads f (read_interpreter h) cs
      → Reads f (read_headers n (p + 1) ph_offset 32) rest
      → Reads f (read_headers (suc n) p ph_offset 32) (h ∷ rest.0, cs ++ rest.1)
  unfolding read_headers
  read_headers_step h cs n p rest fits l name more =
      let at : u32 (ph_offset + p * 32) ≡ ph_offset + p * 32 = omega arith in
      let header : Reads f (read_header (u32 (ph_offset + p * 32) / 4)) h =
        rw at (read_header-IsHeader f (ph_offset + p * 32) h (omega (arith, aligned)) l) in
      bind _ header (bind _ name (bind _ more (Reads-pure f _)))

  read_headers-AreHeaders :
      (hs : List Header) (name : List ℕ) (p : ℕ)
      → AreHeaders f (ph_offset + p * 32) hs name
      → Reads f (read_headers (length hs) p ph_offset 32) (hs, name)
  unfolding read_headers
  read_headers-AreHeaders [] _ p (no_headers _) = Reads-pure f ([], [])
  read_headers-AreHeaders (h ∷ hs) name p (other _ _ _ _ fits l not_name rest) =
      let next : ph_offset + p * 32 + 32 ≡ ph_offset + (p + 1) * 32 = omega arith in
      read_headers_step h [] (length hs) p (hs, name) fits l (read_interpreter-other f h not_name)
        (read_headers-AreHeaders hs name (p + 1) (rw (← next) rest))
  read_headers-AreHeaders (h ∷ hs) _ p (interpreter _ _ _ name cs fits l is_name chars long rest) =
      let next : ph_offset + p * 32 + 32 ≡ ph_offset + (p + 1) * 32 = omega arith in
      read_headers_step h cs (length hs) p (hs, name) fits l
        (read_interpreter-name f h cs is_name chars long)
        (read_headers-AreHeaders hs name (p + 1) (rw (← next) rest))

throw_if-passes : (f : Image) (b : Bool) (e : Error) → b ≡ false → Reads f (throw_if b e) tt
throw_if-passes f b e h = record { runs = rw h refl }

check_ident-IsElf : (f : Image) (e : Elf) → IsElf f e → Reads f check_ident tt
unfolding check_ident
check_ident-IsElf f e i =
    let inside : 46 ≤ f.size = i.ph_num.inside in
    bind _ (read_u8-inside f 0 _ (omega arith) i.magic.0) (
      bind _ (read_u8-inside f 1 _ (omega arith) i.magic.1) (
        bind _ (read_u8-inside f 2 _ (omega arith) i.magic.2) (
          bind _ (read_u8-inside f 3 _ (omega arith) i.magic.3) (
            seq (throw_if-passes f _ bad_elf refl) (
              bind _ (read_u8-inside f 4 _ (omega arith) i.class) (
                seq (throw_if-passes f _ bad_elf refl) (
                  bind _ (read_u8-inside f 5 _ (omega arith) i.data_order) (
                    seq (throw_if-passes f _ bad_elf refl) (
                      bind _ (read_u8-inside f 6 _ (omega arith) i.ident_version)
                        (throw_if-passes f _ bad_elf refl))))))))))

-- A file that is laid out as an executable or a shared object for 32-bit little-endian MIPS, with
-- its program headers at a multiple of four, is accepted, and every field, every program header and
-- the name of the interpreter are read as they stand in the file.
pub read_elf-IsElf : (f : Image) (e : Elf) → IsElf f e → read_elf f ≡ ok (e, f)
unfolding read_elf
read_elf-IsElf f e i =
    let start : e.ph_offset ≡ e.ph_offset + 0 * 32 = omega arith in
    let found : Reads f (read_headers e.ph_num 0 e.ph_offset e.ph_ent_size)
        (e.headers, e.elf_interpreter) =
      rw (← i.number, i.size_of_header)
        (read_headers-AreHeaders f e.ph_offset i.aligned e.headers e.elf_interpreter 0
          (rw (← start) i.headers)) in
    (seq (check_ident-IsElf f e i) (
      bind _ (read_u16-IsHalf f 8 e.obj_type i.obj_type) (
        seq (throw_if-passes f _ bad_elf (ground (arith, i.executable))) (
          bind _ (read_u16-IsHalf f 9 e.machine_type i.machine_type) (
            seq (throw_if-passes f _ bad_elf (ground (arith, i.mips))) (
              bind _ (read_u32-IsWord f 0 5 1 refl i.version) (
                seq (throw_if-passes f _ bad_elf refl) (
                  bind _ (read_u32-IsWord f 0 6 e.entry_point refl i.entry_point) (
                    bind _ (read_u32-IsWord f 0 7 e.ph_offset refl i.ph_offset) (
                      bind _ (read_u32-IsWord f 0 9 e.flags refl i.flags) (
                        bind _ (read_u16-IsHalf f 21 e.ph_ent_size i.ph_ent_size) (
                          seq (throw_if-passes f _ bad_elf (ground (arith, i.size_of_header))) (
                            bind _ (read_u16-IsHalf f 22 e.ph_num i.ph_num)
                              (bind _ found (Reads-pure f e))))))))))))))).runs
