-- ===== src/Elf/Segments.antt =====
-- The loops of `loadElf` in src/process.js over the bytes of a segment.
use noopsys.Base.{
  ℕ, zero, suc, ◌+◌, ◌-◌, ◌/◌, ◌^◌, ◌≤◌, ◌<◌, ◌≡◌, ◌≢◌, refl, ap, ◌∙◌, Bool, true, false, List, ◌∷◌,
  arith, ltb, leb, ◌&&◌, ◌==◌, if◌then◌else◌, Bool-cases, inl, inr,
}
use noopsys.Base.Result.{Result, ok, err}
use noopsys.Space.{Vm, Space}
use noopsys.Space.Safe.{IsSafe}
use noopsys.Elf.{Image}
use noopsys.Elf.Load.{image_byte, load_byte, load_bytes}
use noopsys.Elf.Mapped.{seen}
use noopsys.Elf.Segment.{Own, IsLoaded, IsLoaded-refl, IsLoaded-trans, load_byte-IsLoaded}

-- Whether an address lies in the `n` from `addr` on.
abbrev pub within : (addr n a : ℕ) → Bool
within addr n a = leb addr a && ltb a (addr + n)

-- Every page of the `n` addresses from `addr` on that is mapped is the process's own.
abbrev pub AreOwn : List Vm → Space → (addr n : ℕ) → Type 0
AreOwn others s addr n = (a : ℕ) → addr ≤ a → a < addr + n → Own others s (a / 65536)

abbrev pub AreMapped : Space → (addr n : ℕ) → Type 0
AreMapped s addr n = (a : ℕ) → addr ≤ a → a < addr + n → s.vm.pagemap (a / 65536) ≢ 0

load_bytes_step :
    (f : Image) (prot n addr offset : ℕ) (s s' : Space)
    → load_bytes f prot (suc n) addr offset s ≡ ok (tt, s')
    → (t : Space) × (load_byte prot addr (image_byte f offset) s ≡ ok (tt, t))
      × (load_bytes f prot n (addr + 1) (offset + 1) t ≡ ok (tt, s'))
unfolding load_bytes
load_bytes_step f prot n addr offset s s' h = go (load_byte prot addr (image_byte f offset) s) refl
  where
    go :
        (r : Result (Unit {0} × Space))
        → load_byte prot addr (image_byte f offset) s ≡ r
        → (t : Space) × (load_byte prot addr (image_byte f offset) s ≡ ok (tt, t))
          × (load_bytes f prot n (addr + 1) (offset + 1) t ≡ ok (tt, s'))
    go (ok (tt, t)) e = (t, e, ground arith)
    go (err x) e = absurd (ground arith)

-- The first byte and the others, together.
joined :
    (g : ℕ → ℕ) (n addr offset a u v w : ℕ)
    → u ≡ (if within (addr + 1) n a then g (offset + 1 + (a - (addr + 1))) else v)
    → v ≡ (if a == addr then g offset else w)
    → u ≡ (if within addr (suc n) a then g (offset + (a - addr)) else w)
joined g n addr offset a u v w is_u is_v = elim (Bool-cases (within (addr + 1) n a)) [
  | inl later ↦
      let all : within addr (suc n) a ≡ true = ground arith in
      let index : offset + 1 + (a - (addr + 1)) ≡ offset + (a - addr) = ground arith in
      rw all (is_u ∙ rw later (ap g index))
  | inr not_later ↦ elim (Bool-cases (a == addr)) [
    | inl here ↦
        let all : within addr (suc n) a ≡ true = ground arith in
        let index : offset ≡ offset + (a - addr) = ground arith in
        rw all (is_u ∙ rw not_later (is_v ∙ rw here (ap g index)))
    | inr away ↦
        let outside : within addr (suc n) a ≡ false = ground arith in
        rw outside (is_u ∙ rw not_later (is_v ∙ rw away refl))
  ]
]

pub load_bytes-IsLoaded :
    (others : List Vm) (f : Image) (prot n addr offset : ℕ) (s s' : Space)
    → IsSafe s.phys (s.vm ∷ others)
    → addr + n ≤ 2 ^ 31
    → AreOwn others s addr n
    → load_bytes f prot n addr offset s ≡ ok (tt, s')
    → IsLoaded others 0
        (λ a. if within addr n a then image_byte f (offset + (a - addr)) else seen s a)
        s
        s'
      × AreMapped s' addr n
load_bytes-IsLoaded others f prot zero addr offset s s' safe fits mine h =
    let same : s ≡ s' = unfold load_bytes in ground arith in
    let start = IsLoaded-refl others s safe in
    (
      rw (← same) (record {
        safe = start.safe;
        seen_at = λ a g. ground arith;
        kept = start.kept;
        own = start.own;
        other = start.other;
        refs_one = start.refs_one;
      }),
      λ a low high. absurd (omega arith),
    )
load_bytes-IsLoaded others f prot (suc n) addr offset s s' safe fits mine h =
    let (t, one, rest) = load_bytes_step f prot n addr offset s s' h in
    let (first, here) =
      load_byte-IsLoaded others prot addr (image_byte f offset) s t safe (omega arith)
        (mine addr (omega arith) (omega arith)) one in
    let mine' : AreOwn others t (addr + 1) n =
      λ a low high. first.own (a / 65536) (omega arith) (mine a (omega arith) (omega arith)) in
    let (more, there) =
      load_bytes-IsLoaded others f prot n (addr + 1) (offset + 1) t s' first.safe (omega arith)
        mine' rest in
    (
      IsLoaded-trans others 0 0 (λ a. if a == addr then image_byte f offset else seen s a)
          (λ a. if within addr (suc n) a then image_byte f (offset + (a - addr)) else seen s a) s t
          s' first
          (record {
            safe = more.safe;
            seen_at = λ a g.
                joined (image_byte f) n addr offset a (seen s' a) (seen t a) (seen s a)
                  (more.seen_at a g) (first.seen_at a g);
            kept = more.kept;
            own = more.own;
            other = more.other;
            refs_one = more.refs_one;
          }),
      λ a low high. elim (Bool-cases (a == addr)) [
        | inl here' ↦ let same : a ≡ addr = ground arith in rw same (more.kept (addr / 65536) here)
        | inr away ↦ there a (ground arith) (ground arith)
      ],
    )
