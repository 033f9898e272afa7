-- ===== src/Space/Fields.antt =====
-- Structures that a system call of src/syscalls.js fills for a process: words at offsets of a
-- buffer, one `write32` after the other.
use noopsys.Base.{
  ℕ, ◌+◌, ◌/◌, ◌%◌, ◌^◌, ◌≤◌, ◌<◌, ◌≡◌, ◌≢◌, ◌⊎◌, inl, inr, refl, ◌∙◌, List, [], ◌∷◌, arith,
}
use noopsys.Base.Int.{pos}
use noopsys.Base.Word.{byte_of}
use noopsys.Base.Result.{Result, ok, err, Action}
use noopsys.Base.Seal.{pure, ◌>>◌}
use noopsys.Space.{Vm, Space}
use noopsys.Space.Accessors.{write32}
use noopsys.Space.Safe.{local_pages, IsSafe, view}
use noopsys.Space.Views.{SameView}
use noopsys.Space.WordStore.{write32-IsWordStore}

-- The words, each at its offset.
unfoldable pub put_fields : (buf : ℕ) → List (ℕ × ℕ) → Action Space (Unit {0})
put_fields buf [] = pure tt
put_fields buf (f ∷ fs) = write32 (pos (buf + f.0)) f.1 >> put_fields buf fs

-- The offsets are multiples of four from `low` on, in ascending order, and the values are words.
pub data AreFields : (low : ℕ) → List (ℕ × ℕ) → Type 0 where
  no_fields : (low : ℕ) → AreFields low []
  field :
      (low offset value : ℕ) (fs : List (ℕ × ℕ))
      → low ≤ offset
      → offset % 4 ≡ 0
      → value < 2 ^ 32
      → AreFields (offset + 4) fs
      → AreFields low ((offset, value) ∷ fs)

-- The structure ends within `size` bytes.
pub data AreBelow (size : ℕ) : List (ℕ × ℕ) → Type 0 where
  nothing : AreBelow size []
  under :
      (offset value : ℕ) (fs : List (ℕ × ℕ))
      → offset + 4 ≤ size
      → AreBelow size fs
      → AreBelow size ((offset, value) ∷ fs)

-- The bytes of the words lie in the process's memory, at their offsets of the buffer.
pub data HasFields (s : Space) (buf : ℕ) : List (ℕ × ℕ) → Type 0 where
  none_left : HasFields s buf []
  word :
      (offset value : ℕ) (fs : List (ℕ × ℕ))
      → (buf + offset) / 65536 < local_pages
      → s.vm.pagemap ((buf + offset) / 65536) ≢ 0
      → ((k : ℕ) → k < 4 → view s.phys s.vm (buf + offset + k) ≡ byte_of value k)
      → HasFields s buf fs
      → HasFields s buf ((offset, value) ∷ fs)

pub HasFields-SameView :
    (s s' : Space) (buf low : ℕ) (fs : List (ℕ × ℕ))
    → buf % 4 ≡ 0
    → AreFields low fs
    → SameView s.phys s.vm s'.phys s'.vm
    → HasFields s buf fs
    → HasFields s' buf fs
HasFields-SameView s s' buf low [] aligned shape same none_left = none_left
HasFields-SameView s s' buf low (_ ∷ fs) aligned (field _ offset value _ above four small shape)
      same (word _ _ _ within present bytes rest) =
    word offset value fs within (same (buf + offset) within present).0
      (λ k hk.
        let page : (buf + offset + k) / 65536 ≡ (buf + offset) / 65536 =
          omega (arith, aligned, four) in
        (same (buf + offset + k) (rw page within) (rw page present)).1 ∙ bytes k hk)
      (HasFields-SameView s s' buf (offset + 4) fs aligned shape same rest)

put_fields_step :
    (buf offset value : ℕ) (fs : List (ℕ × ℕ)) (s s' : Space)
    → put_fields buf ((offset, value) ∷ fs) s ≡ ok (tt, s')
    → (t : Space) × (write32 (pos (buf + offset)) value s ≡ ok (tt, t))
      × (put_fields buf fs t ≡ ok (tt, s'))
unfolding put_fields ◌>>◌
put_fields_step buf offset value fs s s' h = go (write32 (pos (buf + offset)) value s) refl
  where
    go :
        (r : Result (Unit {0} × Space))
        → write32 (pos (buf + offset)) value s ≡ r
        → (t : Space) × (write32 (pos (buf + offset)) value s ≡ ok (tt, t))
          × (put_fields buf fs t ≡ ok (tt, s'))
    go (ok (tt, t)) e = (t, e, ground arith)
    go (err x) e = absurd (ground arith)

-- The words are there, and what lies outside the structure, from the first of them on, is as before.
pub record IsFilled (others : List Vm) (buf low size : ℕ) (fs : List (ℕ × ℕ)) (s s' : Space)
    : Type 0 where
  pub safe : IsSafe s'.phys (s'.vm ∷ others)
  pub has : HasFields s' buf fs
  pub outside :
      (a : ℕ)
      → (a < buf + low) ⊎ (buf + size ≤ a)
      → a / 65536 < local_pages
      → s.vm.pagemap (a / 65536) ≢ 0
      → (s'.vm.pagemap (a / 65536) ≢ 0) × (view s'.phys s'.vm a ≡ view s.phys s.vm a)

pub put_fields-IsFilled :
    (others : List Vm) (buf low size : ℕ) (fs : List (ℕ × ℕ)) (s s' : Space)
    → buf % 4 ≡ 0
    → low % 4 ≡ 0
    → AreFields low fs
    → AreBelow size fs
    → buf + size ≤ 2 ^ 32
    → IsSafe s.phys (s.vm ∷ others)
    → put_fields buf fs s ≡ ok (tt, s')
    → IsFilled others buf low size fs s s'
put_fields-IsFilled others buf low size [] s s' aligned four shape inside fits safe h =
    let same : s ≡ s' = unfold put_fields pure in ground arith in
    rw (← same) (record { safe = safe; has = none_left; outside = λ a lt r m. (m, refl) })
put_fields-IsFilled others buf low size (_ ∷ fs) s s' aligned four
      (field _ offset value _ above at_four small shape) (under _ _ _ lt inside) fits safe h =
    let apart : (a : ℕ) → (a < buf + low) ⊎ (buf + size ≤ a) → a / 4 ≢ (buf + offset) / 4 = λ a far.
      elim far [
        | inl l ↦ omega (arith, aligned, at_four)
        | inr g ↦ omega (arith, aligned, at_four)
      ] in
    let (t, store, rest) = put_fields_step buf offset value fs s s' h in
    let n : (buf + offset) % 2 ^ 32 ≡ buf + offset = omega arith in
    let w = rw n at (
      write32-IsWordStore others (pos (buf + offset)) value s t safe
        (rw n (omega (arith, aligned, at_four))) store) in
    let more =
      put_fields-IsFilled others buf (offset + 4) size fs t s' aligned (omega (arith, at_four))
        shape inside fits w.safe rest in
    record {
      safe = more.safe;
      has =
          word offset value fs w.in_range
            (more.outside (buf + offset) (inl (omega arith)) w.in_range w.present).0
            (λ k hk.
              let page : (buf + offset + k) / 65536 ≡ (buf + offset) / 65536 =
                omega (arith, aligned, at_four) in
              (more.outside (buf + offset + k) (inl (omega arith)) (rw page w.in_range)
                (rw page w.present)).1
              ∙ w.written k hk)
            more.has;
      outside = λ a far r m.
          let kept = w.own a r m (apart a far) in
          let still =
            more.outside a (elim far [ inl l ↦ inl (omega arith) | inr g ↦ inr g ]) r kept.0 in
          (still.0, still.1 ∙ kept.1);
    }
