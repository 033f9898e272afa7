-- ===== src/Elf/Segment.antt =====
-- What the loops of `loadElf` in src/process.js leave in memory for a segment.
use noopsys.Base.{
  ℕ, ◌+◌, ◌*◌, ◌/◌, ◌%◌, ◌^◌, ◌≤◌, ◌<◌, ◌≡◌, ◌≢◌, refl, ap, ◌∙◌, true, false, some, List, ◌∷◌,
  arith, ◌==◌, if◌then◌else◌, get_elem?, Bool-cases, inl, inr,
}
use noopsys.Base.Int.{pos}
use noopsys.Base.Word.{u32}
use noopsys.Base.Result.{Result, ok, err}
use noopsys.Space.{Vm, Space, any}
use noopsys.Space.Translate.{translate}
use noopsys.Space.Accessors.{stored}
use noopsys.Space.Safe.{local_pages, held, IsSafe, view}
use noopsys.Space.Coherent.{translate-IsTranslated, translate_any-same}
use noopsys.Space.Isolation.{IsSole, stored-IsSafe, stored-view, stored-own, stored-other}
use noopsys.Elf.Load.{put_byte, provide, load_byte}
use noopsys.Elf.Mapped.{
  seen, new_page-IsMapped, mapped-IsSafe, mapped-other, mapped-seen, IsMapped, held-mapped, unheld,
  elsewhere,
}

put_byte_step :
    (n v : ℕ) (s s' : Space)
    → put_byte n v s ≡ ok (tt, s')
    → (at : ℕ) × (t : Space) × (translate (pos n) any s ≡ ok (at, t)) × (s' ≡ stored at v t)
unfolding put_byte
put_byte_step n v s s' h = go (translate (pos n) any s) refl
  where
    go :
        (r : Result (ℕ × Space))
        → translate (pos n) any s ≡ r
        → (at : ℕ) × (t : Space) × (translate (pos n) any s ≡ ok (at, t)) × (s' ≡ stored at v t)
    go (ok (at, t)) e = (at, t, e, ground arith)
    go (err x) e = absurd (ground arith)

-- A page of the process that no other entry maps, if it is not the page of zeros.
abbrev pub Own : List Vm → Space → ℕ → Type 0
Own others s i = s.vm.pagemap i ≢ 0 → s.vm.pagemap i ≢ 1 → held (s.vm ∷ others) (s.vm.pagemap i) ≤ 1

-- A step of the loader: the process sees `want` afterwards, no other process sees a change, and the
-- page of zeros has at most `grow` more users.
pub record IsLoaded (others : List Vm) (grow : ℕ) (want : ℕ → ℕ) (s s' : Space) : Type 0 where
  pub safe : IsSafe s'.phys (s'.vm ∷ others)
  pub seen_at : (a : ℕ) → a / 65536 < local_pages → seen s' a ≡ want a
  pub kept : (i : ℕ) → s.vm.pagemap i ≢ 0 → s'.vm.pagemap i ≢ 0
  pub own : (i : ℕ) → i < local_pages → Own others s i → Own others s' i
  pub other :
      (k : ℕ) (vm : Vm) (a : ℕ)
      → get_elem? others k ≡ some vm
      → a / 65536 < local_pages
      → view s'.phys vm a ≡ view s.phys vm a
  pub refs_one : s'.phys.refs 1 ≤ s.phys.refs 1 + grow

pub IsLoaded-refl :
    (others : List Vm) (s : Space) → IsSafe s.phys (s.vm ∷ others) → IsLoaded others 0 (seen s) s s
IsLoaded-refl others s safe = record {
  safe = safe;
  seen_at = λ a h. refl;
  kept = λ i h. h;
  own = λ i h o. o;
  other = λ k vm a e h. refl;
  refs_one = omega arith;
}

pub IsLoaded-trans :
    (others : List Vm) (g h : ℕ) (first last : ℕ → ℕ) (s t u : Space)
    → IsLoaded others g first s t
    → IsLoaded others h last t u
    → IsLoaded others (g + h) last s u
IsLoaded-trans others g h first last s t u f l = record {
  safe = l.safe;
  seen_at = l.seen_at;
  kept = λ i z. l.kept i (f.kept i z);
  own = λ i z o. l.own i z (f.own i z o);
  other = λ k vm a e z. l.other k vm a e z ∙ f.other k vm a e z;
  refs_one = omega (arith, f.refs_one, l.refs_one);
}

stored-IsLoaded :
    (others : List Vm) (n at v : ℕ) (t : Space)
    → IsSafe t.phys (t.vm ∷ others)
    → n / 65536 < local_pages
    → t.vm.pagemap (n / 65536) ≢ 0
    → at ≡ t.vm.pagemap (n / 65536) * 65536 + n % 65536
    → IsSole others t (t.vm.pagemap (n / 65536))
    → IsLoaded others 0 (λ a. if a == n then v else seen t a) t (stored at v t)
stored-IsLoaded others n at v t safe in_range present address only = record {
  safe = stored-IsSafe others n at v t safe in_range present address only;
  seen_at = λ a h. elim (Bool-cases (a == n)) [
    | inl here ↦
        let same : a ≡ n = ground arith in
        let mapped : (t.vm.pagemap (n / 65536) == 0) ≡ false = ground arith in
        let here' : (n == n) ≡ true = ground arith in
        let page : (stored at v t).vm.pagemap ≡ t.vm.pagemap = unfold stored in refl in
        rw (same, here', page, mapped)
          (stored-view others n at v t safe in_range present address only)
    | inr away ↦
        let ne : a ≢ n = λ z. ground arith in
        rw away
          (stored-own-seen a (stored-own others n at v t safe in_range present address only a h ne))
  ];
  kept = unfold stored in λ i h. h;
  own = unfold stored in λ i h o. o;
  other = λ k vm a e h. stored-other others n at v t safe in_range present address only k vm a e h;
  refs_one = unfold stored in omega arith;
}
  where
    stored-own-seen :
        (a : ℕ)
        → view (stored at v t).phys (stored at v t).vm a ≡ view t.phys t.vm a
        → seen (stored at v t) a ≡ seen t a
    stored-own-seen a e = unfold stored in ground arith

seen-same :
    (s t : Space) → t.phys ≡ s.phys → t.vm.pagemap ≡ s.vm.pagemap → (a : ℕ) → seen t a ≡ seen s a
seen-same s t phys pages a =
    ap (λ f. if f (a / 65536) == 0 then 0 else t.phys.mem (f (a / 65536) * 65536 + a % 65536)) pages
    ∙ ap
        (λ p.
          if s.vm.pagemap (a / 65536) == 0
          then 0
          else p.mem (s.vm.pagemap (a / 65536) * 65536 + a % 65536))
        phys

put_byte-IsLoaded :
    (others : List Vm) (n v : ℕ) (s s' : Space)
    → IsSafe s.phys (s.vm ∷ others)
    → n < 2 ^ 31
    → IsSole others s (s.vm.pagemap (n / 65536))
    → put_byte n v s ≡ ok (tt, s')
    → IsLoaded others 0 (λ a. if a == n then v else seen s a) s s'
unfolding held
put_byte-IsLoaded others n v s s' safe small only h =
    let (at, t, e, same) = put_byte_step n v s s' h in
    let (phys, pages) = translate_any-same others n at s t safe e in
    let is_n : n % 2 ^ 32 ≡ n = omega arith in
    let d = rw is_n at (translate-IsTranslated others any (pos n) at s t safe e) in
    let looked_up : IsLoaded others 0 (seen s) s t = record {
      safe = d.safe;
      seen_at = λ a h. seen-same s t phys pages a;
      kept = λ i h. rw pages h;
      own = λ i h o. rw pages o;
      other = λ k vm a g h. rw phys refl;
      refs_one = rw phys (omega arith);
    } in
    let put =
      stored-IsLoaded others n at v t d.safe d.in_range d.present d.address (rw pages only) in
    IsLoaded-trans others 0 0 (seen s) (λ a. if a == n then v else seen s a) s t s' looked_up
      (rw same (record {
        safe = put.safe;
        seen_at = λ a h. put.seen_at a h ∙ rw (looked_up.seen_at a h) refl;
        kept = put.kept;
        own = put.own;
        other = put.other;
        refs_one = put.refs_one;
      }))

mapped-IsLoaded :
    (others : List Vm) (local prot new : ℕ) (s s' : Space)
    → local < local_pages
    → s.vm.pagemap local ≡ 0
    → IsMapped local prot new s s'
    → IsSafe s.phys (s.vm ∷ others)
    → IsLoaded others 0 (seen s) s s'
mapped-IsLoaded others local prot new s s' below empty m safe = record {
  safe = mapped-IsSafe others local prot new s s' below empty m safe;
  seen_at = λ a h. mapped-seen others local prot new s s' below empty m safe a h;
  kept = λ i h. ground (arith, m.map_at, m.above);
  own = λ i h o. elim (Bool-cases (i == local)) [
    | inl here ↦ λ used zeros.
        let now : s'.vm.pagemap i ≡ new = ground (arith, m.map_at) in
        let low = m.above in
        rw now (
          ground (
            arith,
            held-mapped others local prot new s s' below empty m safe new,
            unheld others local prot new s s' below empty m safe,
          ))
    | inr away ↦ λ used zeros.
        let now : s'.vm.pagemap i ≡ s.vm.pagemap i = ground (arith, m.map_at) in
        let apart = elsewhere others local prot new s s' below empty m safe 0 i s.vm refl h in
        rw now (
          ground
            (arith, held-mapped others local prot new s s' below empty m safe (s.vm.pagemap i), o))
  ];
  other = λ k vm a e h. mapped-other others local prot new s s' below empty m safe k vm a e h;
  refs_one = ground (arith, m.refs_at 1, m.above);
}

provide-IsLoaded :
    (others : List Vm) (local prot : ℕ) (s s' : Space)
    → IsSafe s.phys (s.vm ∷ others)
    → local < local_pages
    → Own others s local
    → provide local prot s ≡ ok (tt, s')
    → IsLoaded others 0 (seen s) s s'
      × (s'.vm.pagemap local ≢ 0)
      × IsSole others s' (s'.vm.pagemap local)
unfolding provide
provide-IsLoaded others local prot s s' safe below mine h =
    elim (Bool-cases (s.vm.pagemap local == 1)) [
      | inl one ↦ absurd (ground arith)
      | inr zeros ↦ elim (Bool-cases (s.vm.pagemap local == 0)) [
        | inl hole ↦
            let (new, m) = new_page-IsMapped local prot s s' (ground arith) in
            let empty : s.vm.pagemap local ≡ 0 = ground arith in
            let now : s'.vm.pagemap local ≡ new = ground (arith, m.map_at) in
            let low = m.above in
            let none_yet = unheld others local prot new s s' below empty m safe in
            let one : held (s'.vm ∷ others) new ≡ 1 =
              ground (arith, held-mapped others local prot new s s' below empty m safe new) in
            (
              mapped-IsLoaded others local prot new s s' below empty m safe,
              rw now (ground arith),
              rw now (omega (arith, one), ground arith),
            )
        | inr there ↦
            let same : s ≡ s' = ground arith in
            rw (← same) (
              IsLoaded-refl others s safe,
              (λ z. ground arith),
              (mine (λ z. ground arith) (λ z. ground arith), λ z. ground arith),
            )
      ]
    ]

pub load_byte-IsLoaded :
    (others : List Vm) (prot n v : ℕ) (s s' : Space)
    → IsSafe s.phys (s.vm ∷ others)
    → n < 2 ^ 31
    → Own others s (n / 65536)
    → load_byte prot n v s ≡ ok (tt, s')
    → IsLoaded others 0 (λ a. if a == n then v else seen s a) s s' × (s'.vm.pagemap (n / 65536) ≢ 0)
unfolding load_byte
load_byte-IsLoaded others prot n v s s' safe small mine h = go (provide (u32 n / 65536) prot s) refl
  where
    go :
        (r : Result (Unit {0} × Space))
        → provide (u32 n / 65536) prot s ≡ r
        → IsLoaded others 0 (λ a. if a == n then v else seen s a) s s'
          × (s'.vm.pagemap (n / 65536) ≢ 0)
    go (ok (tt, t)) e =
        let is_n : u32 n ≡ n = omega arith in
        let e' : provide (n / 65536) prot s ≡ ok (tt, t) = rw is_n at e in
        let (first, present, only) =
          provide-IsLoaded others (n / 65536) prot s t safe (omega arith) mine e' in
        let put = put_byte-IsLoaded others n v t s' first.safe small only (ground arith) in
        (
          IsLoaded-trans others 0 0 (seen s) (λ a. if a == n then v else seen s a) s t s' first
              (record {
                safe = put.safe;
                seen_at = λ a g. put.seen_at a g ∙ rw (first.seen_at a g) refl;
                kept = put.kept;
                own = put.own;
                other = put.other;
                refs_one = put.refs_one;
              }),
          put.kept (n / 65536) present,
        )
    go (err x) e = absurd (ground arith)
