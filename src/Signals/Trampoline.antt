-- ===== src/Signals/Trampoline.antt =====
-- The page of trampolines of src/process.js, to which a handler of a signal returns.
use noopsys.Base.{
  ℕ, ◌+◌, ◌*◌, ◌/◌, ◌%◌, ◌^◌, ◌<◌, ◌≡◌, ◌≢◌, refl, ap, ◌∙◌, true, List, ◌∷◌, Option, none, some,
  arith, inl, inr, Bool-cases, ◌==◌, if◌then◌else◌,
}
use noopsys.Base.Int.{pos, to_uint32}
use noopsys.Base.Word.{has, ◌>>>◌, word_of-byte_of}
use noopsys.Base.Result.{ok}
use noopsys.Base.Seal.{pure, ◌>>=◌, ◌>>◌, modify, throw_if}
use noopsys.Physical.Words.{Bytes, write_word, read_word}
use noopsys.Space.{Vm, Space, exec, prot_of, cached, remember}
use noopsys.Space.Safe.{IsSafe}
use noopsys.Space.Coherent.{translate-IsTranslated}
use noopsys.Space.Translate.{translate, translate_miss, reach}

-- `li sigreturn` and `syscall`, `li rt_sigreturn` and `syscall`, at indices of words.
unfoldable pub put_trampolines : (vdso_page : ℕ) → Bytes → Bytes
put_trampolines vdso_page mem =
    write_word
      (write_word
        (write_word (write_word mem (vdso_page * 2 ^ 14 + 0) 0x2002_1017) (vdso_page * 2 ^ 14 + 4)
          0xc)
        (vdso_page * 2 ^ 14 + 8) 0x2002_1061)
      (vdso_page * 2 ^ 14 + 12) 0xc

-- A process that has the trampolines where `initMemory` maps them.
pub record HasTrampolines (others : List Vm) (vdso_page : ℕ) (s : Space) : Type 0 where
  pub safe : IsSafe s.phys (s.vm ∷ others)
  pub mapped : s.vm.pagemap 14 ≡ vdso_page
  pub used : vdso_page ≢ 0
  pub allowed : has (s.vm.pageflags 14) (prot_of exec) ≡ true
  pub executable : has (s.phys.flags vdso_page) (prot_of exec) ≡ true
  pub stored : (a : ℕ) → a / 65536 ≡ vdso_page → s.phys.mem a ≡ put_trampolines vdso_page (λ _. 0) a

-- The first words of the page.
abbrev pub trampoline_word : ℕ → ℕ
trampoline_word j = if j == 0 then 0x2002_1017 else if j == 4 then 0xc else 0

read_word-write_word :
    (mem : Bytes) (i j w : ℕ)
    → w < 2 ^ 32
    → read_word (write_word mem i w) j ≡ (if j == i then w else read_word mem j)
unfolding read_word write_word
read_word-write_word mem i j w small = elim (Bool-cases (j == i)) [
  | inl same ↦
      let e : j ≡ i = ground arith in rw (same, e) (ground (arith, word_of-byte_of w small))
  | inr other ↦ rw other (ground arith)
]

empty-word : (i : ℕ) → read_word (λ _. 0) i ≡ 0
unfolding read_word
empty-word i = refl

put_trampolines-word :
    (page j : ℕ)
    → j < 8
    → read_word (put_trampolines page (λ _. 0)) (page * 16384 + j) ≡ trampoline_word j
unfolding put_trampolines
put_trampolines-word page j small =
    let k = page * 16384 + j in
    let first = write_word (λ _. 0) (page * 2 ^ 14 + 0) 0x2002_1017 in
    let second = write_word first (page * 2 ^ 14 + 4) 0xc in
    let third = write_word second (page * 2 ^ 14 + 8) 0x2002_1061 in
    read_word-write_word third (page * 2 ^ 14 + 12) k 0xc (omega arith)
    ∙ ground (
      arith,
      read_word-write_word second (page * 2 ^ 14 + 8) k 0x2002_1061 (omega arith),
      read_word-write_word first (page * 2 ^ 14 + 4) k 0xc (omega arith),
      read_word-write_word (λ _. 0) (page * 2 ^ 14 + 0) k 0x2002_1017 (omega arith),
      empty-word k,
    )

pub HasTrampolines-word :
    (others : List Vm) (vdso_page : ℕ) (s : Space) (j : ℕ)
    → HasTrampolines others vdso_page s
    → j < 8
    → read_word s.phys.mem (vdso_page * 16384 + j) ≡ trampoline_word j
unfolding read_word
HasTrampolines-word others vdso_page s j t small =
    let k = vdso_page * 16384 + j in
    let same : read_word s.phys.mem k ≡ read_word (put_trampolines vdso_page (λ _. 0)) k =
      rw
        (
          t.stored (4 * k + 0) (omega arith),
          t.stored (4 * k + 1) (omega arith),
          t.stored (4 * k + 2) (omega arith),
          t.stored (4 * k + 3) (omega arith),
        )
        refl in
    same ∙ put_trampolines-word vdso_page j small

-- The space with one more cached translation.
abbrev cached_exec : ℕ → Space → Space
cached_exec page s = record {
  phys = s.phys;
  vm = record {
    pagemap = s.vm.pagemap;
    pageflags = s.vm.pageflags;
    tlb = remember exec 14 (page * 2 ^ 16) s.vm.tlb;
  };
}

cached-page :
    (others : List Vm) (page p : ℕ) (s : Space)
    → HasTrampolines others page s
    → cached exec 14 s.vm.tlb ≡ some p
    → p ≡ page * 65536
unfolding cached
cached-page others page p s t e =
    let c = t.safe.coherent 0 s.vm refl in
    elim (Bool-cases (14 == s.vm.tlb.opt_older_code_addr)) [
      | inr other ↦ absurd (ground (arith, e, other))
      | inl here ↦
          let is_14 : s.vm.tlb.opt_older_code_addr ≡ 14 = ground arith in
          let (below, used, is_page) = c.older_code (omega (arith, is_14)) in
          let maps : s.vm.pagemap s.vm.tlb.opt_older_code_addr ≡ page =
            ap s.vm.pagemap is_14 ∙ t.mapped in
          ground (arith, e, here, is_page, maps)
    ]

translate_miss-runs :
    (others : List Vm) (page i : ℕ) (s : Space)
    → HasTrampolines others page s
    → i < 65536
    → translate_miss (pos (14 * 65536 + i)) exec s ≡ ok (page * 65536 + i, cached_exec page s)
unfolding translate_miss reach ◌>>=◌ ◌>>◌ pure modify throw_if
translate_miss-runs others page i s t small =
    let local : (14 * 65536 + i) >>> 16 ≡ 14 = omega arith in
    let rest : (14 * 65536 + i) % 2 ^ 16 ≡ i = omega arith in
    rw (local, rest) (ground (arith, t.mapped, t.used, t.allowed, t.executable))

pub translate-runs :
    (others : List Vm) (page i : ℕ) (s : Space)
    → HasTrampolines others page s
    → i < 65536
    → (t : Space) × (translate (pos (14 * 65536 + i)) exec s ≡ ok (page * 65536 + i, t))
      × HasTrampolines others page t
unfolding translate
translate-runs others page i s t small = go (cached exec 14 s.vm.tlb) refl
  where
    at : to_uint32 (pos (14 * 65536 + i)) >>> 16 ≡ 14
    at = omega arith

    go :
        (o : Option ℕ)
        → cached exec 14 s.vm.tlb ≡ o
        → (u : Space) × (translate (pos (14 * 65536 + i)) exec s ≡ ok (page * 65536 + i, u))
          × HasTrampolines others page u
    go (some p) e =
        let same = cached-page others page p s t e in (s, ground (arith, at, e, same), t)
    go none e =
        let runs : translate (pos (14 * 65536 + i)) exec s
            ≡ ok (page * 65536 + i, cached_exec page s) =
          ground (arith, at, e, translate_miss-runs others page i s t small) in
        (
          cached_exec page s,
          runs,
          record {
            safe =
                (translate-IsTranslated others exec (pos (14 * 65536 + i)) (page * 65536 + i) s
                  (cached_exec page s) t.safe runs).safe;
            mapped = t.mapped;
            used = t.used;
            allowed = t.allowed;
            executable = t.executable;
            stored = t.stored;
          },
        )
