-- ===== src/Dirents/Fitting.antt =====
-- Which entries `sys_getdents_core` of src/syscalls.js gives.
use noopsys.Base.{
  ℕ, zero, suc, ◌+◌, ◌-◌, ◌≤◌, ◌≡◌, refl, ◌∙◌, Bool, true, false, some, List, [], ◌∷◌, length, drop,
  ltb, ◌==◌, if◌then◌else◌, arith, Bool-cases, inl, inr,
}
use mathlib.Core.Path.{subst}
use noopsys.Base.Result.{Result, ok, err}
use noopsys.Base.Seal.{pure, ◌>>◌}
use noopsys.Space.{Space}
use noopsys.Dirents.{
  Entry, Directory, Answer, bytes, einval, needed_size, put_entry, Turn, passed, too_long, no_room,
  given, turn, put_entries, sys_getdents_core,
}

-- The first entries that fit into `count` bytes together, how many they are and how long.
unfoldable pub fitting : (wide : Bool) → (count : ℕ) → List Entry → ℕ
fitting wide count [] = 0
fitting wide count (e ∷ es) =
    let more = fitting wide (count - needed_size wide e) es in
    if ltb count (needed_size wide e) then 0 else suc more

unfoldable pub total : (wide : Bool) → (k : ℕ) → List Entry → ℕ
total wide zero es = 0
total wide (suc k) [] = 0
total wide (suc k) (e ∷ es) = needed_size wide e + total wide k es

-- What the caller is told: the bytes given, but an error if there is no byte left for the entry
-- behind them.
unfoldable pub answer : (wide : Bool) → (count ret : ℕ) → List Entry → Answer
answer wide count ret es =
    let k = fitting wide count es in
    if (k == length es)
    then bytes (ret + total wide k es)
    else if count - total wide k es == 0
    then einval
    else bytes (ret + total wide k es)

-- Where the position is left: behind the entries that were given, and behind one more that was not
-- if there is one.
unfoldable pub next_position : (wide : Bool) → (count position : ℕ) → List Entry → ℕ
next_position wide count position es =
    let k = fitting wide count es in if k == length es then position + k else position + k + 1

put_entries-given :
    (wide : Bool) (e : Entry) (es : List Entry) (n position count ret dirp : ℕ) (r : Answer × ℕ)
    (s s' : Space)
    → turn wide n position count e ≡ given
    → put_entries wide (e ∷ es) n position count ret dirp s ≡ ok (r, s')
    → (t : Space) × (put_entries wide es
          (n + 1)
          (position + 1)
          (count - needed_size wide e)
          (ret + needed_size wide e)
          (dirp + needed_size wide e)
          t
        ≡ ok (r, s'))
unfolding put_entries ◌>>◌
put_entries-given wide e es n position count ret dirp r s s' is_given h =
    go (put_entry wide dirp (ret + needed_size wide e) e s) refl
  where
    go :
        (z : Result (Unit {0} × Space))
        → put_entry wide dirp (ret + needed_size wide e) e s ≡ z
        → (t : Space) × (put_entries wide es
              (n + 1)
              (position + 1)
              (count - needed_size wide e)
              (ret + needed_size wide e)
              (dirp + needed_size wide e)
              t
            ≡ ok (r, s'))
    go (ok (tt, t)) g = (t, ground arith)
    go (err x) g = absurd (ground arith)

-- An entry that fits, in front of the others.
answer-given :
    (wide : Bool) (count ret : ℕ) (e : Entry) (es : List Entry)
    → ltb count (needed_size wide e) ≡ false
    → answer wide count ret (e ∷ es)
      ≡ answer wide (count - needed_size wide e) (ret + needed_size wide e) es
unfolding answer fitting total
answer-given wide count ret e es fits =
    let size = needed_size wide e in
    let k = fitting wide (count - size) es in
    let sum : ret + (size + total wide k es) ≡ ret + size + total wide k es = omega arith in
    let left : count - (size + total wide k es) ≡ count - size - total wide k es = omega arith in
    let same : (suc k == suc (length es)) ≡ (k == length es) = ground arith in
    rw (fits, same, sum, left) refl

next_position-given :
    (wide : Bool) (count n : ℕ) (e : Entry) (es : List Entry)
    → ltb count (needed_size wide e) ≡ false
    → next_position wide count n (e ∷ es)
      ≡ next_position wide (count - needed_size wide e) (n + 1) es
unfolding next_position fitting
next_position-given wide count n e es fits = ground arith

-- From the position on.
put_entries-answer :
    (wide : Bool) (es : List Entry) (n count ret dirp : ℕ) (r : Answer × ℕ) (s s' : Space)
    → put_entries wide es n n count ret dirp s ≡ ok (r, s')
    → r ≡ (answer wide count ret es, next_position wide count n es)
put_entries-answer wide [] n count ret dirp r s s' h =
    unfold put_entries pure answer fitting total next_position in ground arith
put_entries-answer wide (e ∷ es) n count ret dirp r s s' h =
    go (λ c q d t g. put_entries-answer wide es (n + 1) c q d r t s' g) (turn wide n n count e) refl
  where
    go :
        ((c q d : ℕ) (t : Space)
          → put_entries wide es (n + 1) (n + 1) c q d t ≡ ok (r, s')
          → r ≡ (answer wide c q es, next_position wide c (n + 1) es))
        → (t : Turn) → turn wide n n count e ≡ t
        → r ≡ (answer wide count ret (e ∷ es), next_position wide count n (e ∷ es))
    go rest_of passed g = absurd (unfold turn in ground arith)
    go rest_of too_long g =
        let long : ltb count (needed_size wide e) ≡ true = unfold turn in ground arith in
        let some_room : (count == 0) ≡ false = unfold turn in ground arith in
        unfold put_entries pure answer fitting total next_position in ground arith
    go rest_of no_room g =
        let long : ltb count (needed_size wide e) ≡ true = unfold turn in ground arith in
        let no_byte : (count == 0) ≡ true = unfold turn in ground arith in
        unfold put_entries pure answer fitting total next_position in ground arith
    go rest_of given g =
        let fits : ltb count (needed_size wide e) ≡ false = unfold turn in ground arith in
        let (t, rest) = put_entries-given wide e es n n count ret dirp r s s' g h in
        rest_of (count - needed_size wide e) (ret + needed_size wide e) (dirp + needed_size wide e)
          t rest
        ∙ rw (answer-given wide count ret e es fits, next_position-given wide count n e es fits)
            refl

-- The children that were given before are passed.
put_entries-drop :
    (wide : Bool) (es : List Entry) (n position count ret dirp : ℕ) (r : Answer × ℕ) (s s' : Space)
    → n ≤ position
    → position ≤ n + length es
    → put_entries wide es n position count ret dirp s ≡ ok (r, s')
    → put_entries wide (drop (position - n) es) position position count ret dirp s ≡ ok (r, s')
put_entries-drop wide [] n position count ret dirp r s s' low high h =
    let at : n ≡ position = omega arith in
    let none_left : position - n ≡ 0 = omega arith in
    let same : put_entries wide [] position position count ret dirp s ≡ ok (r, s') =
      subst (λ m. put_entries wide [] m position count ret dirp s ≡ ok (r, s')) at h in
    rw none_left same
put_entries-drop wide (e ∷ es) n position count ret dirp r s s' low high h =
    elim (Bool-cases (n == position)) [
      | inl here ↦
          let none_left : position - n ≡ 0 = ground arith in
          let at : n ≡ position = ground arith in
          let same : put_entries wide (e ∷ es) position position count ret dirp s ≡ ok (r, s') =
            subst (λ m. put_entries wide (e ∷ es) m position count ret dirp s ≡ ok (r, s')) at h in
          rw none_left same
      | inr later ↦
          let one_more : position - n ≡ suc (position - (n + 1)) = ground arith in
          let is_passed : turn wide n position count e ≡ passed = unfold turn in ground arith in
          let next : put_entries wide es (n + 1) position count ret dirp s ≡ ok (r, s') =
            unfold put_entries in ground arith in
          rw one_more (
            put_entries-drop wide es (n + 1) position count ret dirp r s s' (ground arith)
              (omega (arith, high)) next)
    ]

-- What a call of `getdents` on a directory answers when it returns, where the position is not behind
-- the end of the directory: the size of the longest run of the entries from the position on that
-- fits into the buffer, or EINVAL where the run fills the buffer to the last byte and is not the end
-- of the directory. The position moves behind this run, and, unless it is all that was left, behind
-- one more entry. Nothing is said of the bytes that are written.
pub sys_getdents_core-answer :
    (wide : Bool) (d : Directory) (dirp count : ℕ) (r : Answer × ℕ) (s s' : Space)
    → d.is_dir ≡ true
    → d.position ≤ length d.children
    → sys_getdents_core wide (some (some d)) dirp count s ≡ ok (r, s')
    → r ≡ (
      answer wide count 0 (drop d.position d.children),
      next_position wide count d.position (drop d.position d.children),
    )
unfolding sys_getdents_core
sys_getdents_core-answer wide d dirp count r s s' is_dir within h =
    let run : put_entries wide d.children 0 d.position count 0 dirp s ≡ ok (r, s') = ground arith in
    let whole : d.position - 0 ≡ d.position = omega arith in
    put_entries-answer wide (drop d.position d.children) d.position count 0 dirp r s s' (
      rw whole at (
        put_entries-drop wide d.children 0 d.position count 0 dirp r s s' (omega arith)
          (omega arith) run))
