-- ===== src/Space/ReadBack.antt =====
-- `stringFromUser` of src/process.js, against the string in memory that it reads.
use noopsys.Base.{
  ℕ, zero, suc, ◌+◌, ◌/◌, ◌%◌, ◌^◌, ◌≤◌, ◌<◌, ◌≡◌, ◌≢◌, refl, ◌∙◌, ap, true, Option, none, some,
  List, [], ◌∷◌, length, arith, ◌==◌, Bool-cases, inl, inr,
}
use noopsys.Base.Int.{pos, ◌+ℤ◌}
use noopsys.Base.Result.{Result, ok, err}
use noopsys.Base.Seal.{pure, ◌>>=◌}
use noopsys.Space.{Vm, Space, read}
use noopsys.Space.Accessors.{read8, copy_to_user, prepend, string_from_user}
use noopsys.Space.Safe.{local_pages, IsSafe, view}
use noopsys.Space.Views.{SameView}
use noopsys.Space.Coherent.{translate-IsTranslated}
use noopsys.Space.Isolation.{read8-translate}
use noopsys.Space.Strings.{
  IsStringAt, ends, char, AreBytes, IsStringAt-SameView, plus_one, copy_to_user-IsCopied,
}

-- A round of `stringFromUser`.
string_from_user_step :
    (k n : ℕ) (r : Option (List ℕ)) (s s' : Space)
    → string_from_user (suc k) (pos n) s ≡ ok (r, s')
    → (v : ℕ) × (t : Space) × (read8 (pos n) s ≡ ok (v, t))
      × ((v ≡ 0 → r ≡ some [])
          × (v ≢ 0
              → (q : Option (List ℕ)) × (string_from_user k (pos (n + 1)) t ≡ ok (q, s'))
                × (r ≡ prepend v q)))
unfolding string_from_user ◌>>=◌ pure
string_from_user_step k n r s s' h = go (read8 (pos n) s) refl
  where
    next :
        (v : ℕ) (t : Space)
        → read8 (pos n) s ≡ ok (v, t)
        → v ≢ 0
        → (q : Option (List ℕ)) × (string_from_user k (pos (n + 1)) t ≡ ok (q, s'))
          × (r ≡ prepend v q)
    next v t e some_v = more (string_from_user k (pos (n + 1)) t) refl
      where
        more :
            (z : Result (Option (List ℕ) × Space))
            → string_from_user k (pos (n + 1)) t ≡ z
            → (q : Option (List ℕ)) × (string_from_user k (pos (n + 1)) t ≡ ok (q, s'))
              × (r ≡ prepend v q)
        more (ok (q, u)) g =
            let g' : string_from_user k (pos n +ℤ pos 1) t ≡ ok (q, u) = rw (plus_one n) g in
            let both : (r ≡ prepend v q) × (u ≡ s') = ground arith in
            (q, g ∙ ap (λ w. ok (q, w)) both.1, both.0)
        more (err x) g =
            let g' : string_from_user k (pos n +ℤ pos 1) t ≡ err x = rw (plus_one n) g in
            absurd (ground arith)

    go :
        (z : Result (ℕ × Space))
        → read8 (pos n) s ≡ z
        → (v : ℕ) × (t : Space) × (read8 (pos n) s ≡ ok (v, t))
          × ((v ≡ 0 → r ≡ some [])
              × (v ≢ 0
                  → (q : Option (List ℕ)) × (string_from_user k (pos (n + 1)) t ≡ ok (q, s'))
                    × (r ≡ prepend v q)))
    go (ok (v, t)) e = (v, t, e, ((λ z. ground arith), next v t e))
    go (err x) e = absurd (ground arith)

-- A byte read: where it is, what it is, and that nothing else changes.
read8-SameView :
    (others : List Vm) (n v : ℕ) (s t : Space)
    → n < 2 ^ 32
    → IsSafe s.phys (s.vm ∷ others)
    → read8 (pos n) s ≡ ok (v, t)
    → (n / 65536 < local_pages)
      × IsSafe t.phys (t.vm ∷ others)
      × SameView s.phys s.vm t.phys t.vm
      × (s.vm.pagemap (n / 65536) ≢ 0 → v ≡ view s.phys s.vm n)
read8-SameView others n v s t word safe h =
    let (at, e, value) = read8-translate (pos n) v s t h in
    let is_n : n % 2 ^ 32 ≡ n = omega arith in
    let d = rw is_n at (translate-IsTranslated others read (pos n) at s t safe e) in
    (
      d.in_range,
      d.safe,
      d.own,
      λ present. value ∙ ap t.phys.mem d.address ∙ (d.own n d.in_range present).1,
    )

string_from_user-IsStringAt :
    (others : List Vm) (k n : ℕ) (cs : List ℕ) (r : Option (List ℕ)) (s s' : Space)
    → length cs < k
    → n + length cs < 2 ^ 32
    → IsSafe s.phys (s.vm ∷ others)
    → IsStringAt s n cs
    → string_from_user k (pos n) s ≡ ok (r, s')
    → r ≡ some cs
string_from_user-IsStringAt others zero n cs r s s' enough fits safe string h = absurd (omega arith)
string_from_user-IsStringAt others (suc k) n [] r s s' enough fits safe (ends _ within m zero_byte)
      h =
    let (v, t, load, (done, more)) = string_from_user_step k n r s s' h in
    let (_, safe', same, value) = read8-SameView others n v s t (omega arith) safe load in
    done (value m ∙ zero_byte)
string_from_user-IsStringAt others (suc k) n (c ∷ cs) r s s' enough fits safe
      (char _ _ _ within m some_c here rest) h =
    let (v, t, load, (done, more)) = string_from_user_step k n r s s' h in
    let (_, safe', same, value) = read8-SameView others n v s t (omega arith) safe load in
    let is_c : v ≡ c = value m ∙ here in
    let (q, loaded, is_r) = more (λ z. some_c (ground arith)) in
    let rest' =
      string_from_user-IsStringAt others k (n + 1) cs q t s' (omega arith) (omega arith) safe'
        (IsStringAt-SameView s t (n + 1) cs same rest) loaded in
    rw (is_r, is_c, rest') (unfold prepend in refl)

-- A string of bytes other than 0 that `copyToUser` puts into memory is what `stringFromUser` reads
-- from its address, when it is given more rounds than the string has characters, whatever pages
-- the string crosses.
pub string_from_user-copy_to_user :
    (others : List Vm) (k n : ℕ) (cs : List ℕ) (r : Option (List ℕ)) (s s' s'' : Space)
    → length cs < k
    → n + length cs < 2 ^ 32
    → AreBytes cs
    → IsSafe s.phys (s.vm ∷ others)
    → copy_to_user (pos n) cs true s ≡ ok (tt, s')
    → string_from_user k (pos n) s' ≡ ok (r, s'')
    → r ≡ some cs
string_from_user-copy_to_user others k n cs r s s' s'' enough fits bytes safe store load =
    let w = copy_to_user-IsCopied others n cs s s' fits bytes safe store in
    string_from_user-IsStringAt others k n cs r s' s'' enough fits w.safe w.string load

-- `stringFromUser` always comes to an end: a run with more rounds than there are addresses below
-- 2^31 never uses them up, since at 2^31 it meets an address that is no process's.
string_from_user-ends :
    (others : List Vm) (k n : ℕ) (s s' : Space)
    → n ≤ 2 ^ 31
    → 2 ^ 31 < n + k
    → IsSafe s.phys (s.vm ∷ others)
    → string_from_user k (pos n) s ≢ ok (none, s')
string_from_user-ends others zero n s s' small enough safe h = omega arith
string_from_user-ends others (suc k) n s s' small enough safe h =
    let (v, t, load, (done, more)) = string_from_user_step k n none s s' h in
    let (within, safe', same, value) = read8-SameView others n v s t (omega arith) safe load in
    elim (Bool-cases (v == 0)) [
      | inl last ↦ let e = done (ground arith) in cc
      | inr goes_on ↦
          let (q, loaded, is_none) = more (λ z. ground arith) in
          string_from_user-prepend q v is_none (λ e.
            string_from_user-ends others k (n + 1) t s' (omega arith) (omega arith) safe'
              (rw e at loaded))
    ]
  where
    string_from_user-prepend :
        (q : Option (List ℕ)) (v : ℕ) → none ≡ prepend v q → (q ≡ none → ⊥) → ⊥
    string_from_user-prepend none v e never = never refl
    string_from_user-prepend (some cs) v e never =
        let e' : none ≡ some (v ∷ cs) = unfold prepend in e in cc
