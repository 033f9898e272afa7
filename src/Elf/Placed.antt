-- ===== src/Elf/Placed.antt =====
-- The loop of `loadElf` in src/process.js over the part of a segment that is not in its file, and
-- the whole segment.
use noopsys.Base.{
  ℕ, zero, suc, ◌+◌, ◌-◌, ◌/◌, ◌^◌, ◌≤◌, ◌<◌, ◌≡◌, ◌≢◌, refl, ◌∙◌, List, ◌∷◌, arith, ltb, ◌==◌,
  if◌then◌else◌, Bool-cases, inl, inr,
}
use noopsys.Base.Word.{u32}
use noopsys.Base.Result.{Result, ok, err}
use noopsys.Space.{Vm, Space}
use noopsys.Space.Safe.{local_pages, IsSafe}
use noopsys.Elf.{Image, Header}
use noopsys.Elf.Load.{
  image_byte, load_bytes, clear_byte, clear_bytes, load_segment, make_prot_flags, new_zero_page,
}
use noopsys.Elf.Mapped.{seen}
use noopsys.Elf.Zeroed.{
  new_zero_page-IsZeroMapped, held-zeroed, zeroed-IsSafe, zeroed-seen, zeroed-other,
}
use noopsys.Elf.Segment.{IsLoaded, IsLoaded-refl, IsLoaded-trans}
use noopsys.Elf.Segments.{within, AreOwn, AreMapped, load_bytes-IsLoaded}

clear_byte-IsLoaded :
    (others : List Vm) (prot n : ℕ) (s s' : Space)
    → IsSafe s.phys (s.vm ∷ others)
    → n < 2 ^ 31
    → s.phys.refs 1 + 1 < 2 ^ 32
    → clear_byte prot n s ≡ ok (tt, s')
    → IsLoaded others 1 (seen s) s s' × (s'.vm.pagemap (n / 65536) ≢ 0)
unfolding clear_byte
clear_byte-IsLoaded others prot n s s' safe small room h =
    let is_n : u32 n ≡ n = omega arith in
    elim (Bool-cases (s.vm.pagemap (n / 65536) == 0)) [
      | inl hole ↦
          let local = n / 65536 in
          let empty : s.vm.pagemap local ≡ 0 = ground arith in
          let runs : new_zero_page local prot s ≡ ok (tt, s') = ground arith in
          let m = new_zero_page-IsZeroMapped local prot s s' runs in
          let below : local < local_pages = omega arith in
          let now : s'.vm.pagemap local ≡ 1 = ground (arith, m.map_at) in
          (
            record {
              safe = zeroed-IsSafe others local s s' below empty m room safe;
              seen_at = λ a g. zeroed-seen others local s s' below empty m room safe a;
              kept = λ i z. ground (arith, m.map_at);
              own = λ i within o. elim (Bool-cases (i == local)) [
                | inl here ↦ λ used zeros. absurd (ground (arith, m.map_at))
                | inr away ↦ λ used zeros.
                    let same : s'.vm.pagemap i ≡ s.vm.pagemap i = ground (arith, m.map_at) in
                    rw same (
                      ground (
                        arith,
                        held-zeroed others local s s' below empty m room safe (s.vm.pagemap i),
                        o,
                      ))
              ];
              other = λ k vm a e z. zeroed-other others local s s' below empty m room safe vm a;
              refs_one = ground (arith, m.refs_at 1);
            },
            rw now (ground arith),
          )
      | inr there ↦
          let same : s ≡ s' = ground arith in
          let start = IsLoaded-refl others s safe in
          rw (← same) (
            record {
              safe = safe;
              seen_at = start.seen_at;
              kept = start.kept;
              own = start.own;
              other = start.other;
              refs_one = omega arith;
            },
            λ z. ground arith,
          )
    ]

clear_bytes_step :
    (prot n addr : ℕ) (s s' : Space)
    → clear_bytes prot (suc n) addr s ≡ ok (tt, s')
    → (t : Space) × (clear_byte prot addr s ≡ ok (tt, t))
      × (clear_bytes prot n (addr + 1) t ≡ ok (tt, s'))
unfolding clear_bytes
clear_bytes_step prot n addr s s' h = go (clear_byte prot addr s) refl
  where
    go :
        (r : Result (Unit {0} × Space))
        → clear_byte prot addr s ≡ r
        → (t : Space) × (clear_byte prot addr s ≡ ok (tt, t))
          × (clear_bytes prot n (addr + 1) t ≡ ok (tt, s'))
    go (ok (tt, t)) e = (t, e, ground arith)
    go (err x) e = absurd (ground arith)

clear_bytes-IsLoaded :
    (others : List Vm) (prot n addr : ℕ) (s s' : Space)
    → IsSafe s.phys (s.vm ∷ others)
    → addr + n ≤ 2 ^ 31
    → s.phys.refs 1 + n < 2 ^ 32
    → clear_bytes prot n addr s ≡ ok (tt, s')
    → IsLoaded others n (seen s) s s' × AreMapped s' addr n
clear_bytes-IsLoaded others prot zero addr s s' safe fits room h =
    let same : s ≡ s' = unfold clear_bytes in ground arith in
    rw (← same) (IsLoaded-refl others s safe, λ a low high. absurd (omega arith))
clear_bytes-IsLoaded others prot (suc n) addr s s' safe fits room h =
    let (t, one, rest) = clear_bytes_step prot n addr s s' h in
    let (first, here) =
      clear_byte-IsLoaded others prot addr s t safe (omega arith) (omega arith) one in
    let (more, there) =
      clear_bytes-IsLoaded others prot n (addr + 1) t s' first.safe (omega arith)
        (omega (arith, first.refs_one)) rest in
    let all = IsLoaded-trans others 1 n (seen s) (seen t) s t s' first more in
    (
      record {
        safe = more.safe;
        seen_at = λ a g. more.seen_at a g ∙ first.seen_at a g;
        kept = all.kept;
        own = all.own;
        other = all.other;
        refs_one = omega (arith, first.refs_one, more.refs_one);
      },
      λ a low high. elim (Bool-cases (a == addr)) [
        | inl here' ↦ let same : a ≡ addr = ground arith in rw same (more.kept (addr / 65536) here)
        | inr away ↦ there a (ground arith) (ground arith)
      ],
    )

load_segment_step :
    (f : Image) (bias : ℕ) (h : Header) (s s' : Space)
    → load_segment f bias h s ≡ ok (tt, s')
    → (t : Space) × (load_bytes f
          (make_prot_flags h.p_flags)
          h.p_filesz
          (h.p_vaddr + bias)
          h.p_offset
          s
        ≡ ok (tt, t))
      × (clear_bytes
            (make_prot_flags h.p_flags)
            (h.p_memsz - h.p_filesz)
            (h.p_vaddr + bias + h.p_filesz)
            t
          ≡ ok (tt, s'))
unfolding load_segment
load_segment_step f bias h s s' e =
    go (load_bytes f (make_prot_flags h.p_flags) h.p_filesz (h.p_vaddr + bias) h.p_offset s) refl
  where
    go :
        (r : Result (Unit {0} × Space))
        → load_bytes f (make_prot_flags h.p_flags) h.p_filesz (h.p_vaddr + bias) h.p_offset s ≡ r
        → (t : Space) × (load_bytes f
              (make_prot_flags h.p_flags)
              h.p_filesz
              (h.p_vaddr + bias)
              h.p_offset
              s
            ≡ ok (tt, t))
          × (clear_bytes
                (make_prot_flags h.p_flags)
                (h.p_memsz - h.p_filesz)
                (h.p_vaddr + bias + h.p_filesz)
                t
              ≡ ok (tt, s'))
    go (ok (tt, t)) g = (t, g, ground arith)
    go (err x) g = absurd (ground arith)

-- What the process sees once a segment is loaded: the bytes of the file at its addresses, and all
-- else as before. What is not mapped counts as zeros.
unfoldable pub loaded : (f : Image) → (bias : ℕ) → Header → (before : ℕ → ℕ) → ℕ → ℕ
loaded f bias h before a =
    if within (h.p_vaddr + bias) h.p_filesz a
    then image_byte f (h.p_offset + (a - (h.p_vaddr + bias)))
    else before a

-- A segment of an executable that is loaded below 2^31, on pages that are not mapped or are the
-- process's own, leaves its bytes of the file at its addresses and all its addresses mapped; the
-- rest of what the process sees is as before, zeros where nothing was mapped, so that the part of
-- the segment that is not in the file reads as zeros; no other process sees a change, and the
-- invariant of all page tables is kept.
pub load_segment-IsLoaded :
    (others : List Vm) (f : Image) (bias : ℕ) (h : Header) (s s' : Space)
    → IsSafe s.phys (s.vm ∷ others)
    → h.p_filesz ≤ h.p_memsz
    → h.p_vaddr + bias + h.p_memsz ≤ 2 ^ 31
    → s.phys.refs 1 + h.p_memsz < 2 ^ 32
    → AreOwn others s (h.p_vaddr + bias) h.p_filesz
    → load_segment f bias h s ≡ ok (tt, s')
    → IsLoaded others (h.p_memsz - h.p_filesz) (loaded f bias h (seen s)) s s'
      × AreMapped s' (h.p_vaddr + bias) h.p_memsz
unfolding loaded
load_segment-IsLoaded others f bias h s s' safe sizes fits room mine e =
    let (t, file, rest) = load_segment_step f bias h s s' e in
    let prot = make_prot_flags h.p_flags in
    let at = h.p_vaddr + bias in
    let (first, here) =
      load_bytes-IsLoaded others f prot h.p_filesz at h.p_offset s t safe (omega arith) mine file in
    let (more, there) =
      clear_bytes-IsLoaded others prot (h.p_memsz - h.p_filesz) (at + h.p_filesz) t s' first.safe
        (omega arith) (omega (arith, first.refs_one)) rest in
    let all =
      IsLoaded-trans others 0 (h.p_memsz - h.p_filesz)
        (λ a. if within at h.p_filesz a then image_byte f (h.p_offset + (a - at)) else seen s a)
        (seen t) s t s' first more in
    (
      record {
        safe = all.safe;
        seen_at = λ a g. more.seen_at a g ∙ first.seen_at a g;
        kept = all.kept;
        own = all.own;
        other = all.other;
        refs_one = omega (arith, all.refs_one);
      },
      λ a low high. elim (Bool-cases (ltb a (at + h.p_filesz))) [
        | inl in_file ↦ more.kept (a / 65536) (here a low (ground arith))
        | inr behind ↦ there a (ground arith) (omega (arith, sizes))
      ],
    )
