-- ===== src/Space/Isolation.antt =====
-- `write8` and `read8` of src/process.js, against what each process sees of memory.
use noopsys.Base.{
  ℕ, ◌+◌, ◌*◌, ◌/◌, ◌%◌, ◌≤◌, ◌<◌, ◌≡◌, ◌≢◌, refl, ap, ◌∙◌, true, some, List, [], ◌∷◌, arith,
  get_elem?,
}
use noopsys.Base.Int.{ℤ, to_uint32}
use noopsys.Base.Word.{has}
use noopsys.Base.Result.{Result, ok, err}
use noopsys.Constants.{prot_write}
use noopsys.Space.{Vm, Space, read, write}
use noopsys.Space.Translate.{translate}
use noopsys.Space.Accessors.{read8, write8, stored, stored_word}
use noopsys.Physical.Words.{write_word}
use noopsys.Space.Count.{mapped_two}
use noopsys.Space.Safe.{local_pages, held, held-pos, mapped-le-held, IsSafe, view}
use noopsys.Space.Coherent.{translate-IsTranslated}

-- One entry of all page tables maps the page, and it is not the page of zeros.
abbrev pub IsSole : List Vm → Space → ℕ → Type 0
IsSole others s page = (held (s.vm ∷ others) page ≤ 1) × (page ≢ 1)

-- A page that is open to writes is one entry's own.
pub open_page-IsSole :
    (others : List Vm) (page : ℕ) (s : Space)
    → IsSafe s.phys (s.vm ∷ others)
    → page ≢ 0
    → has (s.phys.flags page) prot_write ≡ true
    → IsSole others s page
unfolding has
open_page-IsSole others page s safe used open_page =
    (safe.exclusive page used open_page, λ one. ground (arith, safe.zero_flags))

-- The space `s` with byte `v` stored at physical address `at`.
module _ (others : List Vm) (n at v : ℕ) (s : Space) (safe : IsSafe s.phys (s.vm ∷ others))
    (in_range : n / 65536 < local_pages) (present : s.vm.pagemap (n / 65536) ≢ 0)
    (address : at ≡ s.vm.pagemap (n / 65536) * 65536 + n % 65536)
    (only : IsSole others s (s.vm.pagemap (n / 65536))) where
  page : ℕ
  page = s.vm.pagemap (n / 65536)

  sole : held (s.vm ∷ others) page ≤ 1
  unfolding page
  sole = only.0

  page_ne_one : page ≢ 1
  unfolding page
  page_ne_one = only.1

  stored-zero_clean : (i : ℕ) → i < 65536 → (stored at v s).phys.mem (65536 + i) ≡ 0
  unfolding stored page
  stored-zero_clean i h = ground (arith, safe.zero_clean i h, page_ne_one)

  pub stored-IsSafe : IsSafe (stored at v s).phys ((stored at v s).vm ∷ others)
  unfolding stored
  stored-IsSafe = record {
    counted = safe.counted;
    exclusive = safe.exclusive;
    zero_base = safe.zero_base;
    zero_flags = safe.zero_flags;
    zero_clean = stored-zero_clean;
    coherent = λ k vm e.
        let c = safe.coherent k vm e in
        record {
          old = c.old;
          older = c.older;
          writes = c.writes;
          code = c.code;
          older_code = c.older_code;
          writable = c.writable;
        };
  }

  -- No other entry of this page table maps the page, and none of another process's.
  own_apart : (i : ℕ) → i < local_pages → i ≢ n / 65536 → s.vm.pagemap i ≢ page
  unfolding page
  own_apart i h ne same = omega (
    arith,
    sole,
    mapped_two local_pages s.vm.pagemap (n / 65536) i in_range h (λ e. ne (rw e)) (rw same),
    mapped-le-held (s.vm ∷ others) 0 s.vm page refl,
  )

  other_apart :
      (k i : ℕ) (vm : Vm) → get_elem? others k ≡ some vm → i < local_pages → vm.pagemap i ≢ page
  unfolding held page
  other_apart k i vm e h same = omega (
    arith,
    sole,
    held-pos others k vm i e h,
    ap (held others) same,
    held-pos (s.vm ∷ []) 0 s.vm (n / 65536) refl in_range,
  )

  pub stored-view : view (stored at v s).phys (stored at v s).vm n ≡ v
  unfolding stored
  stored-view = ground arith

  pub stored-own :
      (a : ℕ)
      → a / 65536 < local_pages
      → a ≢ n
      → view (stored at v s).phys (stored at v s).vm a ≡ view s.phys s.vm a
  unfolding stored page
  stored-own a h ne = ground (arith, own_apart (a / 65536) h)

  pub stored-other :
      (k : ℕ) (vm : Vm) (a : ℕ)
      → get_elem? others k ≡ some vm
      → a / 65536 < local_pages
      → view (stored at v s).phys vm a ≡ view s.phys vm a
  unfolding stored page
  stored-other k vm a e h = ground (arith, other_apart k (a / 65536) vm e h)

  -- A word of the page stored at once.
  pub stored_word-own :
      (w a : ℕ)
      → a / 65536 < local_pages
      → a / 4 ≢ n / 4
      → view (stored_word (at / 4) w s).phys (stored_word (at / 4) w s).vm a ≡ view s.phys s.vm a
  unfolding stored_word write_word page
  stored_word-own w a h ne = ground (arith, own_apart (a / 65536) h)

  pub stored_word-IsSafe :
      (w : ℕ) → IsSafe (stored_word (at / 4) w s).phys ((stored_word (at / 4) w s).vm ∷ others)
  unfolding stored_word write_word page
  stored_word-IsSafe w = record {
    counted = safe.counted;
    exclusive = safe.exclusive;
    zero_base = safe.zero_base;
    zero_flags = safe.zero_flags;
    zero_clean = λ i h. ground (arith, safe.zero_clean i h, page_ne_one);
    coherent = λ k vm e.
        let c = safe.coherent k vm e in
        record {
          old = c.old;
          older = c.older;
          writes = c.writes;
          code = c.code;
          older_code = c.older_code;
          writable = c.writable;
        };
  }

  pub stored_word-other :
      (w k : ℕ) (vm : Vm) (a : ℕ)
      → get_elem? others k ≡ some vm
      → a / 65536 < local_pages
      → view (stored_word (at / 4) w s).phys vm a ≡ view s.phys vm a
  unfolding stored_word write_word page
  stored_word-other w k vm a e h = ground (arith, other_apart k (a / 65536) vm e h)

-- What a store of byte `v` at address `n` has done.
pub record IsByteStore (others : List Vm) (n v : ℕ) (s s' : Space) : Type 0 where
  pub safe : IsSafe s'.phys (s'.vm ∷ others)
  pub written : view s'.phys s'.vm n ≡ v
  pub own :
      (a : ℕ)
      → a / 65536 < local_pages
      → s.vm.pagemap (a / 65536) ≢ 0
      → a ≢ n
      → view s'.phys s'.vm a ≡ view s.phys s.vm a
  pub other :
      (k : ℕ) (vm : Vm) (a : ℕ)
      → get_elem? others k ≡ some vm
      → a / 65536 < local_pages
      → vm.pagemap (a / 65536) ≢ 0
      → view s'.phys vm a ≡ view s.phys vm a

pub write8-translate :
    (addr : ℤ) (v : ℕ) (s s' : Space)
    → write8 addr v s ≡ ok (tt, s')
    → (at : ℕ) × (t : Space) × (translate addr write s ≡ ok (at, t)) × (s' ≡ stored at (v % 256) t)
unfolding write8
write8-translate addr v s s' h = go (translate addr write s) refl
  where
    go :
        (r : Result (ℕ × Space))
        → translate addr write s ≡ r
        → (at : ℕ) × (t : Space) × (translate addr write s ≡ ok (at, t))
          × (s' ≡ stored at (v % 256) t)
    go (ok (at, t)) e = (at, t, e, ground arith)
    go (err x) e = absurd (ground arith)

-- A successful `write8` keeps the invariant of all page tables, stores the low byte of its value
-- at its address, and changes no other byte of this process or of any other.
pub write8-IsByteStore :
    (others : List Vm) (addr : ℤ) (v : ℕ) (s s' : Space)
    → IsSafe s.phys (s.vm ∷ others)
    → write8 addr v s ≡ ok (tt, s')
    → IsByteStore others (to_uint32 addr) (v % 256) s s'
write8-IsByteStore others addr v s s' safe h =
    let (at, t, e, same) = write8-translate addr v s s' h in
    let n = to_uint32 addr in
    let d = translate-IsTranslated others write addr at s t safe e in
    let w =
      open_page-IsSole others (t.vm.pagemap (n / 65536)) t d.safe d.present (d.writable refl) in
    rw same (record {
      safe = stored-IsSafe others n at (v % 256) t d.safe d.in_range d.present d.address w;
      written = stored-view others n at (v % 256) t d.safe d.in_range d.present d.address w;
      own = λ a r m ne.
          stored-own others n at (v % 256) t d.safe d.in_range d.present d.address w a r ne
          ∙ (d.own a r m).1;
      other = λ k vm a g r m.
          stored-other others n at (v % 256) t d.safe d.in_range d.present d.address w k vm a g r
          ∙ (d.other k vm g a r m).1;
    })

pub read8-translate :
    (addr : ℤ) (v : ℕ) (s s' : Space)
    → read8 addr s ≡ ok (v, s')
    → (at : ℕ) × (translate addr read s ≡ ok (at, s')) × (v ≡ s'.phys.mem at)
unfolding read8
read8-translate addr v s s' h = go (translate addr read s) refl
  where
    go :
        (r : Result (ℕ × Space))
        → translate addr read s ≡ r
        → (at : ℕ) × (translate addr read s ≡ ok (at, s')) × (v ≡ s'.phys.mem at)
    go (ok (at, t)) e = (at, ground arith, ground arith)
    go (err x) e = absurd (ground arith)

-- A successful `read8` of a mapped address gives the byte that the page table maps there,
-- whatever the cache holds, and keeps the invariant.
pub read8-view :
    (others : List Vm) (addr : ℤ) (v : ℕ) (s s' : Space)
    → IsSafe s.phys (s.vm ∷ others)
    → s.vm.pagemap (to_uint32 addr / 65536) ≢ 0
    → read8 addr s ≡ ok (v, s')
    → (v ≡ view s.phys s.vm (to_uint32 addr)) × IsSafe s'.phys (s'.vm ∷ others)
read8-view others addr v s s' safe present h =
    let (at, e, is_v) = read8-translate addr v s s' h in
    let d = translate-IsTranslated others read addr at s s' safe e in
    (is_v ∙ ap s'.phys.mem d.address ∙ (d.own (to_uint32 addr) d.in_range present).1, d.safe)
