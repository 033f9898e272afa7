-- ===== src/Processes/Wakes.antt =====
-- The end of a process (src/startup.js, src/process.js) wakes those that its callbacks name.
use noopsys.Base.{
  ℕ, ◌-◌, ◌≡◌, ◌⊎◌, refl, sym, ap, ◌∙◌, true, ◌&&◌, List, [], ◌∷◌, ◌++◌, ltb, ◌==◌, inl, inr,
  Bool-cases, arith,
}
use noopsys.Base.Result.{ok}
use noopsys.Constants.{sigchld, sigrtmin}
use noopsys.Signals.{
  Process, send_signal, complete, is_fatal_signal, is_stop_signal, is_ignored_signal, is_queued,
}
use noopsys.Processes.{
  Table, is_running, set_proc, with_running, set_running, run_all, exit_notify, notify,
}

-- SIGCHLD ends no process: it can be sent to any, and a process that runs goes on running.
send_signal-sigchld :
    (p : Process)
    → (q : Process) × (send_signal sigchld p ≡ ok q)
      × ((q.cpu.running ≡ true) ⊎ (q.cpu.running ≡ p.cpu.running))
unfolding send_signal complete is_fatal_signal is_ignored_signal is_stop_signal
send_signal-sigchld p = elim (Bool-cases (ltb sigchld sigrtmin && is_queued sigchld p.queue)) [
  | inl there ↦ (p, rw (there) refl, inr refl)
  | inr fresh ↦ (
    record p {
      queue = p.queue ++ (sigchld ∷ []);
      cpu = record p.cpu { running = true };
      woken = true;
    },
    rw (fresh) refl,
    inl refl,
  )
]

-- A process that runs before a step of the others runs after it.
running-set_running :
    (i m : ℕ) (t : Table)
    → is_running (t.procs m) ≡ true
    → is_running ((set_running i true t).procs m) ≡ true
unfolding set_running set_proc with_running
running-set_running i m t runs = elim (Bool-cases (m == i)) [
  | inl same ↦ rw (same) refl
  | inr other ↦ rw (other) runs
]

running-run_all :
    (is : List ℕ) (m : ℕ) (t : Table)
    → is_running (t.procs m) ≡ true
    → is_running ((run_all is t).procs m) ≡ true
unfolding run_all
running-run_all [] m t runs = runs
running-run_all (i ∷ is) m t runs =
    running-run_all is m (set_running i true t) (running-set_running i m t runs)

-- The callbacks wake the process that stands among them.
pub data IsIn (m : ℕ) : List ℕ → Type 0 where
  here : (is : List ℕ) → IsIn m (m ∷ is)
  later : (i : ℕ) (is : List ℕ) → IsIn m is → IsIn m (i ∷ is)

run_all-wakes :
    (m : ℕ) (is : List ℕ) (t : Table) → IsIn m is → is_running ((run_all is t).procs m) ≡ true
unfolding run_all set_running set_proc with_running
run_all-wakes m _ t (here is) = running-run_all is m (set_running m true t) (ground arith)
run_all-wakes m _ t (later i is inside) = run_all-wakes m is (set_running i true t) inside

exit_notify-running :
    (i m : ℕ) (t : Table)
    → is_running (t.procs m) ≡ true
    → (t' : Table) × (exit_notify i t ≡ ok t') × (is_running (t'.procs m) ≡ true)
unfolding exit_notify set_proc
exit_notify-running i m t runs =
    let parent = (t.procs i).ppid - 1 in
    elim (Bool-cases ((t.procs i).ppid == 0)) [
      | inl orphan ↦ (t, rw (orphan) refl, runs)
      | inr has_parent ↦
          let (q, sent, still) = send_signal-sigchld (t.procs parent).signals in
          (
            set_proc parent (record (t.procs parent) { signals = q }) t,
            rw (has_parent, sent) refl,
            elim (Bool-cases (m == parent)) [
              | inr other ↦ rw (other) runs
              | inl same ↦
                  let at : m ≡ parent = ground arith in
                  rw (same) (elim still [
                    | inl woken ↦ woken
                    | inr as_before ↦ as_before ∙ ap (λ k. is_running (t.procs k)) (sym at) ∙ runs
                  ])
            ],
          )
    ]

pub notify-wakes :
    (c m : ℕ) (t : Table)
    → IsIn m (t.procs c).callbacks
    → (t' : Table) × (notify c t ≡ ok t') × (is_running (t'.procs m) ≡ true)
unfolding notify
notify-wakes c m t inside =
    exit_notify-running c m (run_all (t.procs c).callbacks t)
      (run_all-wakes m (t.procs c).callbacks t inside)

pub IsIn-append : (m : ℕ) (is more : List ℕ) → IsIn m is → IsIn m (is ++ more)
IsIn-append m _ more (here is) = here (is ++ more)
IsIn-append m _ more (later i is inside) = later i _ (IsIn-append m is more inside)

pub IsIn-last : (m : ℕ) (is : List ℕ) → IsIn m (is ++ (m ∷ []))
IsIn-last m [] = here []
IsIn-last m (i ∷ is) = later i _ (IsIn-last m is)
