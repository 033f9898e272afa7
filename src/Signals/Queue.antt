-- ===== src/Signals/Queue.antt =====
-- The queue of signals of src/process.js.
use noopsys.Base.{
  ℕ, suc, ◌+◌, ◌<◌, ◌≤◌, ◌≡◌, refl, ap, ◌∙◌, true, false, not, ◌&&◌, List, [], ◌∷◌, ◌++◌, ltb, leb,
  ◌==◌, if◌then◌else◌, inl, inr, Bool-cases, arith,
}
use noopsys.Base.Result.{ok}
use noopsys.Constants.{sigrtmin}
use noopsys.Signals.{
  Process, is_queued, is_fatal_signal, is_stop_signal, is_ignored_signal, complete, send_signal,
}

-- How often a signal stands in the queue.
unfoldable pub occurrences : ℕ → List ℕ → ℕ
occurrences signo [] = 0
occurrences signo (other ∷ rest) =
    if other == signo then suc (occurrences signo rest) else occurrences signo rest

occurrences-append :
    (signo new : ℕ) (queue : List ℕ)
    → occurrences signo (queue ++ (new ∷ []))
      ≡ occurrences signo queue + (if new == signo then 1 else 0)
unfolding occurrences
occurrences-append signo new [] = ground arith
occurrences-append signo new (other ∷ rest) = ground (arith, occurrences-append signo new rest)

occurrences-is_queued :
    (signo : ℕ) (queue : List ℕ) → is_queued signo queue ≡ false → occurrences signo queue ≡ 0
unfolding occurrences is_queued
occurrences-is_queued signo [] e = refl
occurrences-is_queued signo (other ∷ rest) e = ground (arith, occurrences-is_queued signo rest)

is_queued-append : (signo : ℕ) (queue : List ℕ) → is_queued signo (queue ++ (signo ∷ [])) ≡ true
unfolding is_queued
is_queued-append signo [] = ground arith
is_queued-append signo (other ∷ rest) = ground (arith, is_queued-append signo rest)

-- How often a signal below SIGRTMIN stands in the queue; the others may be queued many times.
unfoldable pub standard_count : ℕ → List ℕ → ℕ
standard_count signo queue = if ltb signo sigrtmin then occurrences signo queue else 0

-- No signal below SIGRTMIN is queued twice.
pub record IsOnce (queue : List ℕ) : Type 0 where
  pub once : (signo : ℕ) → standard_count signo queue ≤ 1

complete-queue :
    (signo : ℕ) (p : Process)
    → 0 < signo
    → signo ≤ 128
    → (q : Process) × (complete signo p ≡ ok q) × (q.queue ≡ p.queue)
unfolding complete
complete-queue signo p low high =
    let has_action : (not (signo == 0) && leb signo 128) ≡ true = ground arith in
    let may_fail : (not (is_stop_signal signo)
          && not (is_ignored_signal signo)
          && not (not (signo == 0) && leb signo 128))
        ≡ false =
      ground arith in
    elim (Bool-cases (is_fatal_signal p signo)) [
      | inl fatal ↦ (
        record p { cpu = record p.cpu { running = false; exited = true }; exit_code = signo },
        ground arith,
        refl,
      )
      | inr wakes ↦
          (record p { cpu = record p.cpu { running = true }; woken = true }, ground arith, refl)
    ]

IsOnce-append :
    (signo : ℕ) (queue : List ℕ)
    → (ltb signo sigrtmin && is_queued signo queue) ≡ false
    → IsOnce queue
    → IsOnce (queue ++ (signo ∷ []))
unfolding standard_count
IsOnce-append signo queue fresh h = record {
  once = λ k.
      ground (arith, h.once k, occurrences-append k signo queue, occurrences-is_queued signo queue);
}

-- `sendSignal` of any signal from 1 to 128 succeeds. In the queue that it leaves the signal is queued,
-- and no signal below SIGRTMIN is queued twice if none was before.
pub send_signal-IsOnce :
    (signo : ℕ) (p : Process)
    → 0 < signo
    → signo ≤ 128
    → IsOnce p.queue
    → (q : Process) × (send_signal signo p ≡ ok q)
      × (is_queued signo q.queue ≡ true)
      × IsOnce q.queue
unfolding send_signal
send_signal-IsOnce signo p low high h =
    elim (Bool-cases (ltb signo sigrtmin && is_queued signo p.queue)) [
      | inl there ↦ (p, rw (there) refl, ground arith, h)
      | inr fresh ↦
          let (q, runs, same) =
            complete-queue signo (record p { queue = p.queue ++ (signo ∷ []) }) low high in
          (
            q,
            rw (fresh) runs,
            ap (is_queued signo) same ∙ is_queued-append signo p.queue,
            rw (same) (IsOnce-append signo p.queue fresh h),
          )
    ]
