-- ===== src/Space/Strings.antt =====
-- `copyToUser` of src/process.js: a string put into a process's memory.
use noopsys.Base.{
  ℕ, ◌+◌, ◌/◌, ◌%◌, ◌^◌, ◌<◌, ◌≡◌, ◌≢◌, refl, ◌∙◌, true, List, [], ◌∷◌, length, arith,
}
use noopsys.Base.Int.{pos, ◌+ℤ◌}
use noopsys.Base.Result.{Result, ok, err}
use noopsys.Base.Seal.{◌>>◌}
use noopsys.Space.{Vm, Space, write}
use noopsys.Space.Accessors.{write8, stored, copy_to_user}
use noopsys.Space.Safe.{local_pages, IsSafe, view}
use noopsys.Space.Views.{SameView}
use noopsys.Space.Coherent.{translate-IsTranslated}
use noopsys.Space.Isolation.{
  open_page-IsSole, stored-IsSafe, stored-view, stored-own, write8-translate,
}

-- What a store of the byte `v` at `n` has done to the process's own memory.
record IsByteKept (others : List Vm) (n v : ℕ) (s s' : Space) : Type 0 where
  safe : IsSafe s'.phys (s'.vm ∷ others)
  in_range : n / 65536 < local_pages
  present : s'.vm.pagemap (n / 65536) ≢ 0
  written : view s'.phys s'.vm n ≡ v
  own :
      (a : ℕ)
      → a / 65536 < local_pages
      → s.vm.pagemap (a / 65536) ≢ 0
      → a ≢ n
      → (s'.vm.pagemap (a / 65536) ≢ 0) × (view s'.phys s'.vm a ≡ view s.phys s.vm a)

write8-IsByteKept :
    (others : List Vm) (n v : ℕ) (s s' : Space)
    → n < 2 ^ 32
    → IsSafe s.phys (s.vm ∷ others)
    → write8 (pos n) v s ≡ ok (tt, s')
    → IsByteKept others n (v % 256) s s'
write8-IsByteKept others n v s s' word safe h =
    let (at, t, e, same) = write8-translate (pos n) v s s' h in
    let is_n : n % 2 ^ 32 ≡ n = omega arith in
    let d = rw is_n at (translate-IsTranslated others write (pos n) at s t safe e) in
    let only =
      open_page-IsSole others (t.vm.pagemap (n / 65536)) t d.safe d.present (d.writable refl) in
    rw same (record {
      safe = stored-IsSafe others n at (v % 256) t d.safe d.in_range d.present d.address only;
      in_range = d.in_range;
      present = unfold stored in d.present;
      written = stored-view others n at (v % 256) t d.safe d.in_range d.present d.address only;
      own = λ a r m ne. (
        unfold stored in (d.own a r m).0,
        stored-own others n at (v % 256) t d.safe d.in_range d.present d.address only a r ne
            ∙ (d.own a r m).1,
      );
    })

-- The string, and the 0 behind it, at an address of the process's memory.
pub data IsStringAt (s : Space) : ℕ → List ℕ → Type 0 where
  ends :
      (n : ℕ)
      → n / 65536 < local_pages
      → s.vm.pagemap (n / 65536) ≢ 0
      → view s.phys s.vm n ≡ 0
      → IsStringAt s n []
  char :
      (n c : ℕ) (cs : List ℕ)
      → n / 65536 < local_pages
      → s.vm.pagemap (n / 65536) ≢ 0
      → c ≢ 0
      → view s.phys s.vm n ≡ c
      → IsStringAt s (n + 1) cs
      → IsStringAt s n (c ∷ cs)

-- The characters of a string that memory can hold: bytes other than 0.
pub data AreBytes : List ℕ → Type 0 where
  no_bytes : AreBytes []
  byte : (c : ℕ) (cs : List ℕ) → 0 < c → c < 256 → AreBytes cs → AreBytes (c ∷ cs)

pub IsStringAt-SameView :
    (s s' : Space) (n : ℕ) (cs : List ℕ)
    → SameView s.phys s.vm s'.phys s'.vm
    → IsStringAt s n cs
    → IsStringAt s' n cs
IsStringAt-SameView s s' n [] same (ends _ r m v) = ends n r (same n r m).0 ((same n r m).1 ∙ v)
IsStringAt-SameView s s' n (c ∷ cs) same (char _ _ _ r m some_c v rest) =
    char n c cs r (same n r m).0 some_c ((same n r m).1 ∙ v)
      (IsStringAt-SameView s s' (n + 1) cs same rest)

pub plus_one : (n : ℕ) → pos n +ℤ pos 1 ≡ pos (n + 1)
unfolding ◌+ℤ◌
plus_one n = ground arith

copy_to_user_step :
    (n c : ℕ) (cs : List ℕ) (s s' : Space)
    → copy_to_user (pos n) (c ∷ cs) true s ≡ ok (tt, s')
    → (t : Space) × (write8 (pos n) c s ≡ ok (tt, t))
      × (copy_to_user (pos (n + 1)) cs true t ≡ ok (tt, s'))
unfolding copy_to_user ◌>>◌
copy_to_user_step n c cs s s' h = go (write8 (pos n) c s) refl
  where
    go :
        (r : Result (Unit {0} × Space))
        → write8 (pos n) c s ≡ r
        → (t : Space) × (write8 (pos n) c s ≡ ok (tt, t))
          × (copy_to_user (pos (n + 1)) cs true t ≡ ok (tt, s'))
    go (ok (tt, t)) e =
        let next : copy_to_user (pos n +ℤ pos 1) cs true t ≡ ok (tt, s') = ground arith in
        (t, e, rw (plus_one n) at next)
    go (err x) e = absurd (ground arith)

-- A string has been put at `n`, and what lies below is as before.
pub record IsCopied (others : List Vm) (n : ℕ) (cs : List ℕ) (s s' : Space) : Type 0 where
  pub safe : IsSafe s'.phys (s'.vm ∷ others)
  pub string : IsStringAt s' n cs
  below :
      (a : ℕ)
      → a < n
      → a / 65536 < local_pages
      → s.vm.pagemap (a / 65536) ≢ 0
      → (s'.vm.pagemap (a / 65536) ≢ 0) × (view s'.phys s'.vm a ≡ view s.phys s.vm a)

pub copy_to_user-IsCopied :
    (others : List Vm) (n : ℕ) (cs : List ℕ) (s s' : Space)
    → n + length cs < 2 ^ 32
    → AreBytes cs
    → IsSafe s.phys (s.vm ∷ others)
    → copy_to_user (pos n) cs true s ≡ ok (tt, s')
    → IsCopied others n cs s s'
copy_to_user-IsCopied others n [] s s' fits bytes safe h =
    let store : write8 (pos n) 0 s ≡ ok (tt, s') = unfold copy_to_user in h in
    let w = write8-IsByteKept others n 0 s s' (omega arith) safe store in
    record {
      safe = w.safe;
      string = ends n w.in_range w.present w.written;
      below = λ a lt r m. w.own a r m (λ z. omega arith);
    }
copy_to_user-IsCopied others n (c ∷ cs) s s' fits (byte _ _ low high bytes) safe h =
    let (t, store, rest) = copy_to_user_step n c cs s s' h in
    let w = write8-IsByteKept others n c s t (omega arith) safe store in
    let more = copy_to_user-IsCopied others (n + 1) cs t s' (omega arith) bytes w.safe rest in
    let here = more.below n (omega arith) w.in_range w.present in
    let low_byte : c % 256 ≡ c = omega arith in
    record {
      safe = more.safe;
      string =
          char n c cs w.in_range here.0 (λ z. omega arith) (here.1 ∙ w.written ∙ low_byte)
            more.string;
      below = λ a lt r m.
          let kept = w.own a r m (λ z. omega arith) in
          let still = more.below a (omega arith) r kept.0 in (still.0, still.1 ∙ kept.1);
    }
