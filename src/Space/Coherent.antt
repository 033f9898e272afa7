-- ===== src/Space/Coherent.antt =====
-- The cache in front of the page table (`translate` and the end of `translateMiss` in
-- src/process.js), against the page table.
use noopsys.Base.{
  ℕ, zero, suc, ◌+◌, ◌*◌, ◌/◌, ◌%◌, ◌^◌, ◌<◌, ◌≡◌, ◌≢◌, refl, ap, true, Option, none, some, List,
  ◌∷◌, arith, get_elem?,
}
use mathlib.Core.Path.{subst}
use noopsys.Base.Int.{ℤ, pos, negsuc, to_uint32, to_uint32-lt}
use noopsys.Base.Word.{has, ◌>>>◌}
use noopsys.Base.Result.{Result, ok, err}
use noopsys.Constants.{prot_write}
use noopsys.Physical.{Phys}
use noopsys.Space.{Vm, Space, Access, any, write, exec, prot_of, cached, remember}
use noopsys.Space.Translate.{reach, translate, translate_miss}
use noopsys.Space.Safe.{local_pages, held, IsCoherent, IsSafe}
use noopsys.Space.Outcome.{Outcome, kept, opened, copied, filled, reach-Outcome}
use noopsys.Space.Preserve.{Outcome-IsSafe}
use noopsys.Space.Views.{SameView, Outcome-own, Outcome-other, Outcome-page}

-- What a translation of address `n` to `at` has done.
pub record IsTranslated (others : List Vm) (access : Access) (n at : ℕ) (s s' : Space)
    : Type 0 where
  pub safe : IsSafe s'.phys (s'.vm ∷ others)
  pub in_range : n / 65536 < local_pages
  pub present : s'.vm.pagemap (n / 65536) ≢ 0
  pub address : at ≡ s'.vm.pagemap (n / 65536) * 65536 + n % 65536
  pub writable : access ≡ write → has (s'.phys.flags (s'.vm.pagemap (n / 65536))) prot_write ≡ true
  pub own : SameView s.phys s.vm s'.phys s'.vm
  pub other : (k : ℕ) (vm : Vm) → get_elem? others k ≡ some vm → SameView s.phys vm s'.phys vm

remembered : Access → ℕ → ℕ → Space → Space
remembered access local page s = record {
  phys = s.phys;
  vm = record {
    pagemap = s.vm.pagemap;
    pageflags = s.vm.pageflags;
    tlb = remember access local (page * 2 ^ 16) s.vm.tlb;
  };
}

-- A new entry that agrees with the page table keeps the cache coherent.
IsCoherent-remember :
    (access : Access) (local : ℕ) (s : Space)
    → local < local_pages
    → s.vm.pagemap local ≢ 0
    → (access ≡ write → has (s.phys.flags (s.vm.pagemap local)) prot_write ≡ true)
    → IsCoherent s.phys s.vm
    → IsCoherent s.phys (remembered access local (s.vm.pagemap local) s).vm
unfolding remembered remember
IsCoherent-remember write local s below used open_page c = record {
  old = c.old;
  older = c.older;
  writes = λ _. (below, used, refl);
  code = c.code;
  older_code = c.older_code;
  writable = λ _. open_page refl;
}
IsCoherent-remember exec local s below used open_page c = record {
  old = c.old;
  older = c.older;
  writes = c.writes;
  code = λ _. (below, used, refl);
  older_code = c.code;
  writable = c.writable;
}
IsCoherent-remember access local s below used open_page c = record {
  old = λ _. (below, used, refl);
  older = c.old;
  writes = c.writes;
  code = c.code;
  older_code = c.older_code;
  writable = c.writable;
}

module _ (others : List Vm) (access : Access) (local page : ℕ) (s : Space)
    (below : local < local_pages) (is_page : page ≡ s.vm.pagemap local) (used : page ≢ 0)
    (open_page : has (s.phys.flags page) (prot_of access) ≡ true)
    (safe : IsSafe s.phys (s.vm ∷ others)) where
  opened_for_write : access ≡ write → has (s.phys.flags (s.vm.pagemap local)) prot_write ≡ true
  opened_for_write w = rw (← is_page) (ground arith)

  remembered-IsCoherent :
      (k : ℕ) (vm : Vm)
      → get_elem? ((remembered access local page s).vm ∷ others) k ≡ some vm
      → IsCoherent s.phys vm
  remembered-IsCoherent zero vm e =
      let first : (remembered access local page s).vm ≡ vm = ground arith in
      rw (← first, is_page)
        (IsCoherent-remember access local s below (rw (← is_page) used) opened_for_write
          (safe.coherent 0 s.vm refl))
  remembered-IsCoherent (suc k) vm e = safe.coherent (suc k) vm e

  remembered-IsSafe :
      IsSafe (remembered access local page s).phys ((remembered access local page s).vm ∷ others)
  unfolding remembered held
  remembered-IsSafe = record {
    counted = safe.counted;
    exclusive = safe.exclusive;
    zero_base = safe.zero_base;
    zero_flags = safe.zero_flags;
    zero_clean = safe.zero_clean;
    coherent = remembered-IsCoherent;
  }

-- A cached entry is what the page table says.
cached-agrees :
    (access : Access) (page : ℕ) (phys : Phys) (vm : Vm) (p : ℕ)
    → IsCoherent phys vm
    → page < 65536
    → cached access page vm.tlb ≡ some p
    → (page < local_pages)
      × (vm.pagemap page ≢ 0)
      × (p ≡ vm.pagemap page * 65536)
      × (access ≡ write → has (phys.flags (vm.pagemap page)) prot_write ≡ true)
unfolding cached
cached-agrees write page phys vm p c small h =
    let entry = c.writes in
    (ground arith, ground arith, ground arith, λ _. ground (arith, c.writable))
cached-agrees exec page phys vm p c small h =
    let entry = c.older_code in (ground arith, ground arith, ground arith, λ w. ground arith)
cached-agrees access page phys vm p c small h =
    let entry = c.old in
    let older_entry = c.older in (ground arith, ground arith, ground arith, λ w. ground arith)

module _ (others : List Vm) (access : Access) (n at : ℕ) (s s' : Space)
    (safe : IsSafe s.phys (s.vm ∷ others)) where
  translate_miss-reach :
      translate_miss (pos n) access s ≡ ok (at, s')
      → (n < 2 ^ 31)
        × (page : ℕ) × (t : Space) × (reach access (n >>> 16) s ≡ ok (page, t))
        × (at ≡ page * 2 ^ 16 + n % 2 ^ 16)
        × (s' ≡ remembered access (n >>> 16) page t)
  unfolding translate_miss remembered
  translate_miss-reach h = go (reach access (n >>> 16) s) refl
    where
      go :
          (r : Result (ℕ × Space))
          → reach access (n >>> 16) s ≡ r
          → (n < 2 ^ 31)
            × (page : ℕ) × (t : Space) × (reach access (n >>> 16) s ≡ ok (page, t))
            × (at ≡ page * 2 ^ 16 + n % 2 ^ 16)
            × (s' ≡ remembered access (n >>> 16) page t)
      go (ok (p, t)) e = (ground arith, p, t, e, ground arith, ground arith)
      go (err x) e = absurd (ground arith)

  hit-IsTranslated :
      (p : ℕ)
      → n < 2 ^ 32
      → cached access (n >>> 16) s.vm.tlb ≡ some p
      → IsTranslated others access n (p + n % 2 ^ 16) s s
  hit-IsTranslated p small h =
      let (below, used, e, w) =
        cached-agrees access (n >>> 16) s.phys s.vm p (safe.coherent 0 s.vm refl) (omega arith) h in
      record {
        safe = safe;
        in_range = below;
        present = used;
        address = ap (λ t. t + n % 65536) e;
        writable = w;
        own = λ a _ m. (m, refl);
        other = λ k vm _ a _ m. (m, refl);
      }

  miss-IsTranslated :
      translate_miss (pos n) access s ≡ ok (at, s') → IsTranslated others access n at s s'
  miss-IsTranslated h =
      let (small, page, t, e, is_at, is_s') = translate_miss-reach h in
      let local = n >>> 16 in
      let below : local < local_pages = omega arith in
      let (used, allowed, out) = reach-Outcome local s page t access e in
      let (is_page, page_used, open_page) =
        Outcome-page others access local page s t below used safe allowed out in
      let safe_t = Outcome-IsSafe others access local page s t below used out safe in
      rw is_s' (record {
        safe =
            remembered-IsSafe others access local page t below is_page page_used open_page safe_t;
        in_range = below;
        present = unfold remembered in rw (← is_page) page_used;
        address = unfold remembered in rw (is_at, ← is_page) refl;
        writable =
            unfold remembered in
            opened_for_write others access local page t below is_page page_used open_page safe_t;
        own = unfold remembered in Outcome-own others access local page s t below used safe out;
        other = unfold remembered in Outcome-other others access local page s t below used safe out;
      })

-- A translation that succeeds, with the cache or without, leaves the invariant standing, gives
-- the address of the page table, and changes no byte that any process sees.
pub translate-IsTranslated :
    (others : List Vm) (access : Access) (addr : ℤ) (at : ℕ) (s s' : Space)
    → IsSafe s.phys (s.vm ∷ others)
    → translate addr access s ≡ ok (at, s')
    → IsTranslated others access (to_uint32 addr) at s s'
unfolding translate
translate-IsTranslated others access addr at s s' safe h =
    go (cached access (to_uint32 addr >>> 16) s.vm.tlb) refl
  where
    miss :
        (v : ℤ)
        → translate_miss v access s ≡ ok (at, s')
        → IsTranslated others access (to_uint32 v) at s s'
    miss (pos n) e =
        let small = (translate_miss-reach others access n at s s' safe e).0 in
        let same : n ≡ n % 2 ^ 32 = omega arith in
        subst (λ m. IsTranslated others access m at s s') same
          (miss-IsTranslated others access n at s s' safe e)
    miss (negsuc n) e = absurd (unfold translate_miss in ground arith)

    go :
        (o : Option ℕ)
        → cached access (to_uint32 addr >>> 16) s.vm.tlb ≡ o
        → IsTranslated others access (to_uint32 addr) at s s'
    go none e = miss addr (ground arith)
    go (some p) e =
        let is_at : at ≡ p + to_uint32 addr % 2 ^ 16 = ground arith in
        let is_s' : s' ≡ s = ground arith in
        rw (is_at, is_s')
          (hit-IsTranslated others access (to_uint32 addr) at s s' safe p (to_uint32-lt addr) e)

-- A translation that does not ask for the right to write changes the cache at most.
pub translate-same :
    (others : List Vm) (access : Access) (n at : ℕ) (s s' : Space)
    → access ≢ write
    → IsSafe s.phys (s.vm ∷ others)
    → translate (pos n) access s ≡ ok (at, s')
    → (s'.phys ≡ s.phys) × (s'.vm.pagemap ≡ s.vm.pagemap)
unfolding translate remembered
translate-same others access n at s s' reads safe h =
    go (cached access (to_uint32 (pos n) >>> 16) s.vm.tlb) refl
  where
    missed :
        translate_miss (pos n) access s ≡ ok (at, s')
        → (s'.phys ≡ s.phys) × (s'.vm.pagemap ≡ s.vm.pagemap)
    missed e =
        let (small, page, t, r, is_at, is_s') =
          translate_miss-reach others access n at s s' safe e in
        let (used, allowed, out) = reach-Outcome (n >>> 16) s page t access r in
        rw is_s' (unmoved page t out)
      where
        unmoved :
            (page : ℕ) (t : Space)
            → Outcome access (n >>> 16) s page t
            → (t.phys ≡ s.phys) × (t.vm.pagemap ≡ s.vm.pagemap)
        unmoved page t (kept p f same) = (ap (λ u. u.phys) same, ap (λ u. u.vm.pagemap) same)
        unmoved page t (opened w _ _ _ _) = absurd (reads w)
        unmoved page t (copied w _ _) = absurd (reads w)
        unmoved page t (filled w _ _ _) = absurd (reads w)

    go :
        (o : Option ℕ)
        → cached access (to_uint32 (pos n) >>> 16) s.vm.tlb ≡ o
        → (s'.phys ≡ s.phys) × (s'.vm.pagemap ≡ s.vm.pagemap)
    go none e = missed (ground arith)
    go (some p) e = (ground arith, ground arith)

pub translate_any-same :
    (others : List Vm) (n at : ℕ) (s s' : Space)
    → IsSafe s.phys (s.vm ∷ others)
    → translate (pos n) any s ≡ ok (at, s')
    → (s'.phys ≡ s.phys) × (s'.vm.pagemap ≡ s.vm.pagemap)
translate_any-same others n at s s' safe h = translate-same others any n at s s' (λ e. cc) safe h
