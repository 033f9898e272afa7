-- ===== src/Pipe/Laws.antt =====
-- The pipes of src/noopfs.js as queues that wake their readers.
use noopsys.Base.{
  ℕ, zero, suc, ◌-◌, ◌≡◌, ◌≢◌, ◌⊎◌, inl, inr, refl, sym, ◌∙◌, get_elem?, ap, Bool, true, false,
  Option, none, some, List, [], ◌∷◌, ◌++◌, length, take, drop, leb, ◌==◌, update, arith, Bool-cases,
}
use noopsys.Base.Result.{ok}
use noopsys.Pipe.{
  Pipe, Answer, count, einval, eagain, run_callbacks, write, close, clone, read, take_read, wait,
  taken,
}

-- Whoever waits, waits for something that can still come: the pipe is empty and has a writer.
pub data IsSettled (pipe : Pipe) : Type 0 where
  nobody : pipe.waiting ≡ [] → IsSettled pipe
  empty : pipe.data_held ≡ [] → pipe.refs ≢ 0 → IsSettled pipe

-- The operations of both ends.
pub data Move : Pipe → Pipe → Type 0 where
  writes : (cs : List ℕ) (pipe : Pipe) → Move pipe (write cs pipe).1
  clones : (pipe : Pipe) → Move pipe (clone pipe)
  closes : (pipe after : Pipe) → close pipe ≡ ok after → Move pipe after
  reads : (process : Option ℕ) (size : ℕ) (pipe : Pipe) → Move pipe (read process size pipe).1
  takes : (p size : ℕ) (pipe : Pipe) → Move pipe (take_read p size pipe).1

take-drop : (n : ℕ) (cs : List ℕ) → take n cs ++ drop n cs ≡ cs
take-drop zero cs = refl
take-drop (suc n) [] = refl
take-drop (suc n) (c ∷ cs) = ap (λ t. c ∷ t) (take-drop n cs)

close-IsSettled : (pipe after : Pipe) → close pipe ≡ ok after → IsSettled pipe → IsSettled after
unfolding close
close-IsSettled pipe after h (nobody w) = nobody (ground arith)
close-IsSettled pipe after h (empty e u) = elim (Bool-cases (pipe.refs - 1 == 0)) [
  | inl last ↦ nobody (ground arith)
  | inr more ↦ empty (ground arith) (ground arith)
]

no_bytes : (cs : List ℕ) → leb 1 (length cs) ≡ false → cs ≡ []
no_bytes [] h = refl
no_bytes (c ∷ cs) h = absurd (ground arith)

-- What `read` answers, and when.
pub data Reading (size : ℕ) (pipe : Pipe) (answer : Answer) (after : Pipe) : Type 0 where
  counted : (n : ℕ) → answer ≡ count n → after ≡ pipe → Reading size pipe answer after
  refused : answer ≡ einval → after ≡ pipe → Reading size pipe answer after
  blocked :
      answer ≡ eagain
      → pipe.data_held ≡ []
      → pipe.refs ≢ 0
      → after.data_held ≡ []
      → after.refs ≢ 0
      → Reading size pipe answer after

read-Reading :
    (process : Option ℕ) (size : ℕ) (pipe : Pipe)
    → Reading size pipe (read process size pipe).0 (read process size pipe).1
unfolding read wait
read-Reading process size pipe = elim (Bool-cases (leb size (length pipe.data_held))) [
  | inl full ↦ counted size (ground arith) (ground arith)
  | inr short ↦ elim (Bool-cases (pipe.refs == 0)) [
    | inl closed ↦ counted (length pipe.data_held) (ground arith) (ground arith)
    | inr live ↦ elim (Bool-cases (leb 1 (length pipe.data_held))) [
      | inl some_bytes ↦ counted (length pipe.data_held) (ground arith) (ground arith)
      | inr none_left ↦
          waits process (no_bytes pipe.data_held none_left) (ground arith) (ground arith)
    ]
  ]
]
  where
    waits :
        (process : Option ℕ)
        → pipe.data_held ≡ []
        → pipe.refs ≢ 0
        → read process size pipe ≡ wait process pipe
        → Reading size pipe (read process size pipe).0 (read process size pipe).1
    waits none e u same = rw same (refused refl refl)
    waits (some p) e u same = rw same (blocked refl e u e u)

read-IsSettled :
    (process : Option ℕ) (size : ℕ) (pipe : Pipe)
    → IsSettled pipe
    → IsSettled (read process size pipe).1
read-IsSettled process size pipe s = elim (read-Reading process size pipe) [
  | counted n a same ↦ rw same s
  | refused a same ↦ rw same s
  | blocked a e u e' u' ↦ empty e' u'
]

drop-none : (n : ℕ) (cs : List ℕ) → cs ≡ [] → drop n cs ≡ []
drop-none zero cs e = e
drop-none (suc n) [] e = refl
drop-none (suc n) (c ∷ cs) e = absurd (cc)

taken-IsSettled : (r : Answer × Pipe) → IsSettled r.1 → IsSettled (taken r).1
unfolding taken
taken-IsSettled (count n, pipe) (nobody w) = nobody w
taken-IsSettled (count n, pipe) (empty e u) = empty (drop-none n pipe.data_held e) u
taken-IsSettled (einval, pipe) s = s
taken-IsSettled (eagain, pipe) s = s

take_read-IsSettled :
    (p size : ℕ) (pipe : Pipe) → IsSettled pipe → IsSettled (take_read p size pipe).1
unfolding take_read
take_read-IsSettled p size pipe s =
    taken-IsSettled (read (some p) size pipe) (read-IsSettled (some p) size pipe s)

-- Every operation of either end keeps this: a pipe that somebody waits for is empty and has a
-- writer.
pub Move-IsSettled : (pipe after : Pipe) → Move pipe after → IsSettled pipe → IsSettled after
unfolding write clone close read take_read
Move-IsSettled _ _ (writes cs pipe) h = nobody refl
Move-IsSettled _ _ (clones pipe) (nobody w) = nobody w
Move-IsSettled _ _ (clones pipe) (empty e u) = empty e (omega arith)
Move-IsSettled _ _ (closes pipe after h) s = close-IsSettled pipe after h s
Move-IsSettled _ _ (reads process size pipe) s = read-IsSettled process size pipe s
Move-IsSettled _ _ (takes p size pipe) s = take_read-IsSettled p size pipe s

run_callbacks-true :
    (ps : List ℕ) (running : ℕ → Bool) (q : ℕ)
    → running q ≡ true
    → run_callbacks ps running q ≡ true
unfolding run_callbacks
run_callbacks-true [] running q h = h
run_callbacks-true (p ∷ ps) running q h =
    run_callbacks-true ps (update running p true) q (ground arith)

run_callbacks-wakes :
    (ps : List ℕ) (running : ℕ → Bool) (k q : ℕ)
    → get_elem? ps k ≡ some q
    → run_callbacks ps running q ≡ true
unfolding run_callbacks
run_callbacks-wakes [] running k q h = cc
run_callbacks-wakes (p ∷ ps) running zero q h =
    run_callbacks-true ps (update running p true) q (ground arith)
run_callbacks-wakes (p ∷ ps) running (suc k) q h =
    run_callbacks-wakes ps (update running p true) k q h

-- A write and the last close set every process that waits for the pipe running, and leave nobody
-- waiting.
pub write-close-wakes :
    (cs : List ℕ) (pipe after : Pipe) (k q : ℕ)
    → get_elem? pipe.waiting k ≡ some q
    → (after ≡ (write cs pipe).1) ⊎ ((pipe.refs ≡ 1) × (close pipe ≡ ok after))
    → (after.running q ≡ true) × (after.waiting ≡ [])
unfolding write close
write-close-wakes cs pipe after k q h (inl e) =
    let woken = run_callbacks-wakes pipe.waiting pipe.running k q h in rw e (woken, refl)
write-close-wakes cs pipe after k q h (inr (last, e)) =
    let woken = run_callbacks-wakes pipe.waiting pipe.running k q h in (ground arith, ground arith)

taken-order :
    (n : ℕ) (pipe : Pipe) (cs : List ℕ) (after : Pipe)
    → taken (count n, pipe) ≡ (some cs, after)
    → cs ++ after.data_held ≡ pipe.data_held
unfolding taken
taken-order n pipe cs after h =
    let is_cs : take n pipe.data_held ≡ cs = ground arith in
    let is_rest : drop n pipe.data_held ≡ after.data_held = ground arith in
    rw (← is_cs, ← is_rest) (take-drop n pipe.data_held)

taken-some :
    (answer : Answer) (pipe : Pipe) (cs : List ℕ) (after : Pipe)
    → taken (answer, pipe) ≡ (some cs, after)
    → cs ++ after.data_held ≡ pipe.data_held
unfolding taken
taken-some (count n) pipe cs after h = taken-order n pipe cs after h
taken-some einval pipe cs after h = absurd (ground arith)
taken-some eagain pipe cs after h = absurd (ground arith)

read-data :
    (process : Option ℕ) (size : ℕ) (pipe : Pipe)
    → (read process size pipe).1.data_held ≡ pipe.data_held
read-data process size pipe = elim (read-Reading process size pipe) [
  | counted n a same ↦ ap (λ q. q.data_held) same
  | refused a same ↦ ap (λ q. q.data_held) same
  | blocked a e u e' u' ↦ e' ∙ sym e
]

-- A pipe is a queue: what a read takes and what it leaves, after a write of `ws`, are what was
-- there and `ws`, in order.
take_read-write-order :
    (p size : ℕ) (ws cs : List ℕ) (pipe after : Pipe)
    → take_read p size (write ws pipe).1 ≡ (some cs, after)
    → cs ++ after.data_held ≡ pipe.data_held ++ ws
unfolding take_read write
take_read-write-order p size ws cs pipe after h =
    taken-some (read (some p) size (write ws pipe).1).0 (read (some p) size (write ws pipe).1).1 cs
      after h
    ∙ read-data (some p) size (write ws pipe).1
