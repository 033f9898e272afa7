-- ===== src/MemFile/Splice.antt =====
-- A string with some bytes written over it, as `slice` and `+` make it in src/noopfs.js.
use noopsys.Base.{
  ℕ, zero, suc, ◌+◌, ◌-◌, ◌≤◌, ◌<◌, ◌≡◌, refl, sym, ap, ◌∙◌, List, [], ◌∷◌, ◌++◌, length, take,
  drop, replicate, get_or, inl, inr, Bool-cases, get_or-append, get_or-drop, drop_add, max, ltb,
  if◌then◌else◌, arith, append-nil, length-append, length-take, length-drop, length-replicate,
  take-append, drop-append,
}
use mathlib.Core.Path.{ap₂}

-- The string after a write at a place.
unfoldable pub splice : ℕ → List ℕ → List ℕ → List ℕ
splice at cs old = take at old ++ (cs ++ drop (at + length cs) old)

pub length-splice :
    (at : ℕ) (cs old : List ℕ)
    → at ≤ length old
    → length (splice at cs old) ≡ max (length old) (at + length cs)
unfolding splice
length-splice at cs old le = omega (
  arith,
  length-append (take at old) (cs ++ drop (at + length cs) old),
  length-append cs (drop (at + length cs) old),
  length-take at old,
  length-drop (at + length cs) old,
)

get_or-past : (xs : List ℕ) (i : ℕ) → length xs ≤ i → get_or xs i 0 ≡ 0
get_or-past [] i le = refl
get_or-past (x ∷ xs) zero le = absurd (omega arith)
get_or-past (x ∷ xs) (suc i) le = get_or-past xs i (omega arith)

-- The byte at a place after a write.
abbrev pub byte_after : (at : ℕ) (cs old : List ℕ) (i : ℕ) → ℕ
byte_after at cs old i =
    if ltb i at
    then get_or old i 0
    else if ltb i (at + length cs)
    then get_or cs (i - at) 0
    else get_or old i 0

get_or-left : (xs ys : List ℕ) (i : ℕ) → i < length xs → get_or (xs ++ ys) i 0 ≡ get_or xs i 0
get_or-left [] ys i lt = absurd (omega arith)
get_or-left (x ∷ xs) ys zero lt = refl
get_or-left (x ∷ xs) ys (suc i) lt = get_or-left xs ys i (omega arith)

get_or-take : (n : ℕ) (xs : List ℕ) (i : ℕ) → i < n → get_or (take n xs) i 0 ≡ get_or xs i 0
get_or-take zero xs i lt = absurd (omega arith)
get_or-take (suc n) [] i lt = refl
get_or-take (suc n) (x ∷ xs) zero lt = refl
get_or-take (suc n) (x ∷ xs) (suc i) lt = get_or-take n xs i (omega arith)

get_or-right :
    (xs ys : List ℕ) (i k : ℕ) → i ≡ length xs + k → get_or (xs ++ ys) i 0 ≡ get_or ys k 0
get_or-right xs ys i k e = ap (λ n. get_or (xs ++ ys) n 0) e ∙ get_or-append xs ys k 0

pub get_or-splice :
    (at : ℕ) (cs old : List ℕ) (i : ℕ)
    → at ≤ length old
    → get_or (splice at cs old) i 0 ≡ byte_after at cs old i
unfolding splice
get_or-splice at cs old i le =
    let rest = cs ++ drop (at + length cs) old in
    let size = length-take at old in
    elim (Bool-cases (ltb i at)) [
      | inl before ↦ rw (before) (
          get_or-left (take at old) rest i (ground (arith, size))
          ∙ get_or-take at old i (ground arith))
      | inr after ↦ elim (Bool-cases (ltb i (at + length cs))) [
        | inl inside ↦
            rw (after, inside)
              (get_or-right (take at old) rest i (i - at) (ground (arith, size))
                ∙ get_or-left cs (drop (at + length cs) old) (i - at) (ground arith))
        | inr behind ↦
            let place : at + length cs + (i - at - length cs) ≡ i = ground arith in
            rw (after, behind)
              (get_or-right (take at old) rest i (i - at) (ground (arith, size))
                ∙ get_or-right cs (drop (at + length cs) old) (i - at) (i - at - length cs)
                    (ground arith)
                ∙ get_or-drop (at + length cs) old (i - at - length cs) 0
                ∙ ap (λ n. get_or old n 0) place)
      ]
    ]

pub get_or-padding : (xs : List ℕ) (n i : ℕ) → get_or (xs ++ replicate n 0) i 0 ≡ get_or xs i 0
get_or-padding [] zero i = refl
get_or-padding [] (suc n) zero = refl
get_or-padding [] (suc n) (suc i) = get_or-padding [] n i
get_or-padding (x ∷ xs) n zero = refl
get_or-padding (x ∷ xs) n (suc i) = get_or-padding xs n i

drop-nil : (n : ℕ) → drop {A = ℕ} n [] ≡ []
drop-nil zero = refl
drop-nil (suc n) = refl

pub splice-end : (cs old : List ℕ) → old ++ cs ≡ splice (length old) cs old
unfolding splice
splice-end cs old =
    let none_left : drop (length old + length cs) old ≡ [] =
      drop_add (length old) (length cs) old
      ∙ ap (drop (length cs)) (ap (drop (length old)) (sym (append-nil old)) ∙ drop-append old [])
      ∙ drop-nil (length cs) in
    let all : take (length old) old ≡ old =
      ap (take (length old)) (sym (append-nil old)) ∙ take-append old [] in
    sym (ap₂ (λ xs ys. xs ++ (cs ++ ys)) all none_left ∙ ap (λ ys. old ++ ys) (append-nil cs))

pub padded_size : (old : List ℕ) (gap : ℕ) → length old + gap ≡ length (old ++ replicate gap 0)
padded_size old gap =
    omega (arith, length-append old (replicate gap 0), length-replicate {A = ℕ} gap 0)

pub splice-read :
    (at : ℕ) (cs old : List ℕ)
    → at ≤ length old
    → take (length cs) (drop at (splice at cs old)) ≡ cs
unfolding splice
splice-read at cs old fits =
    let rest = cs ++ drop (at + length cs) old in
    let size : length (take at old) ≡ at = omega (arith, length-take at old) in
    ap (take (length cs))
      (ap (λ n. drop n (take at old ++ rest)) (sym size) ∙ drop-append (take at old) rest)
    ∙ take-append cs (drop (at + length cs) old)
