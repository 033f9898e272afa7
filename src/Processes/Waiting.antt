-- ===== src/Processes/Waiting.antt =====
-- A process that waits for its children (src/syscalls.js) is woken when one of them ends
-- (src/startup.js).
use noopsys.Base.{
  ℕ, zero, suc, ◌-◌, ◌<◌, ◌≤◌, ◌≡◌, ◌≢◌, refl, sym, ap, ◌∙◌, Bool, true, false, List, ◌∷◌, [], ◌++◌,
  ◌==◌, inl, inr, Bool-cases, arith,
}
use noopsys.Base.Result.{Result, ok, err}
use noopsys.Processes.{
  Proc, Table, is_running, has_exited, set_proc, with_running, set_running, Waited, child,
  no_change, reap, put_status, watch, Look, look, stranger, zombie, gone, alive, keep_waiting,
  wait_loop, sys_waitpid, notify,
}
use noopsys.Processes.Wakes.{IsIn, notify-wakes, IsIn-append, IsIn-last}

-- What the loop does to an entry: it may add the caller to the callbacks.
record Watches (me : ℕ) (before after : Proc) : Type 0 where
  same_pid : after.pid ≡ before.pid
  same_ppid : after.ppid ≡ before.ppid
  same_exited : has_exited after ≡ has_exited before
  kept : IsIn me before.callbacks → IsIn me after.callbacks

Watches-watch : (me n c : ℕ) (t : Table) → Watches me (t.procs c) ((watch me n t).procs c)
unfolding watch set_proc
Watches-watch me n c t = elim (Bool-cases (c == n)) [
  | inl same ↦
      let at : c ≡ n = ground arith in
      rw (same) (record {
        same_pid = ap (λ k. (t.procs k).pid) (sym at);
        same_ppid = ap (λ k. (t.procs k).ppid) (sym at);
        same_exited = ap (λ k. has_exited (t.procs k)) (sym at);
        kept = λ inside. IsIn-append me (t.procs n).callbacks (me ∷ []) (rw (← at) inside);
      })
  | inr other ↦
      rw (other)
        (record { same_pid = refl; same_ppid = refl; same_exited = refl; kept = λ inside. inside })
]

-- The outcome of the loop, when it takes no child and hangs.
record Blocked (me n : ℕ) (t t' : Table) : Type 0 where
  asleep : is_running (t'.procs me) ≡ false
  keeps : (c : ℕ) → Watches me (t.procs c) (t'.procs c)
  watched :
      (c : ℕ)
      → 0 < c
      → c ≤ n
      → (t.procs c).ppid ≡ (t.procs me).pid
      → has_exited (t.procs c) ≡ false
      → IsIn me (t'.procs c).callbacks

Watches-trans : (me : ℕ) (p q r : Proc) → Watches me p q → Watches me q r → Watches me p r
Watches-trans me p q r f g = record {
  same_pid = g.same_pid ∙ f.same_pid;
  same_ppid = g.same_ppid ∙ f.same_ppid;
  same_exited = g.same_exited ∙ f.same_exited;
  kept = λ inside. g.kept (f.kept inside);
}

IsIn-at :
    (m a b : ℕ) (t : Table) → a ≡ b → IsIn m (t.procs a).callbacks → IsIn m (t.procs b).callbacks
IsIn-at m a b t e inside = rw (← e) inside

Watches-set_running :
    (me c : ℕ) (t : Table) → Watches me (t.procs c) ((set_running me false t).procs c)
unfolding set_running set_proc with_running
Watches-set_running me c t = elim (Bool-cases (c == me)) [
  | inl same ↦
      let at : c ≡ me = ground arith in
      rw (same) (record {
        same_pid = ap (λ k. (t.procs k).pid) (sym at);
        same_ppid = ap (λ k. (t.procs k).ppid) (sym at);
        same_exited = ap (λ k. has_exited (t.procs k)) (sym at);
        kept = λ inside. IsIn-at me c me t at inside;
      })
  | inr other ↦
      rw (other)
        (record { same_pid = refl; same_ppid = refl; same_exited = refl; kept = λ inside. inside })
]

Blocked-asleep : (me : ℕ) (t : Table) → Blocked me 0 t (set_running me false t)
Blocked-asleep me t = record {
  asleep = unfold set_running set_proc with_running in ground arith;
  keeps = λ c. Watches-set_running me c t;
  watched = λ c low high _ _. absurd (omega arith);
}

table_of : Table → Result (Waited × Table) → Table
table_of t (ok (w, s)) = s
table_of t (err e) = t

Blocked-end :
    (me : ℕ) (found : Bool) (t t' : Table)
    → keep_waiting me true found t ≡ ok (no_change, t')
    → Blocked me 0 t t'
unfolding keep_waiting table_of
Blocked-end me false t t' h = absurd (ground arith)
Blocked-end me true t t' h =
    let e : set_running me false t ≡ t' = ap (table_of t) h in rw (← e) (Blocked-asleep me t)

look-alive :
    (parent : ℕ) (p : Proc) → p.ppid ≡ parent → has_exited p ≡ false → look parent p ≡ alive
unfolding look
look-alive parent p mine lives = ground arith

reap-takes : (me status n : ℕ) (t t' : Table) → reap me status n t ≢ ok (no_change, t')
unfolding reap
reap-takes me status n t t' h = go (put_status me status (t.procs n).signals.exit_code t) h
  where
    taken : Result Table → Result (Waited × Table)
    taken (ok s) = ok (child (t.procs n).pid, set_proc n (record (s.procs n) { reaped = true }) s)
    taken (err e) = err e

    go : (r : Result Table) → taken r ≢ ok (no_change, t')
    go (ok s) e = ground arith
    go (err x) e = ground arith

-- An entry that is skipped is no child that lives.
Blocked-skip :
    (k me : ℕ) (t t' : Table)
    → look (t.procs me).pid (t.procs (suc k)) ≢ alive
    → Blocked me k t t'
    → Blocked me (suc k) t t'
Blocked-skip k me t t' skipped b = record {
  asleep = b.asleep;
  keeps = b.keeps;
  watched = λ c low high mine lives. elim (Bool-cases (c == suc k)) [
    | inr other ↦ b.watched c low (ground arith) mine lives
    | inl same ↦
        let at : c ≡ suc k = ground arith in
        absurd (
          skipped (
            ap (λ n. look (t.procs me).pid (t.procs n)) (sym at)
            ∙ look-alive (t.procs me).pid (t.procs c) mine lives))
  ];
}

Blocked-watch :
    (k me : ℕ) (t t' : Table) → Blocked me k (watch me (suc k) t) t' → Blocked me (suc k) t t'
unfolding watch set_proc
Blocked-watch k me t t' b = record {
  asleep = b.asleep;
  keeps = λ c. Watches-trans me _ _ _ (Watches-watch me (suc k) c t) (b.keeps c);
  watched = λ c low high mine lives.
      let w = Watches-watch me (suc k) in
      elim (Bool-cases (c == suc k)) [
        | inr other ↦
            b.watched c low (ground arith) ((w c t).same_ppid ∙ mine ∙ sym (w me t).same_pid)
              ((w c t).same_exited ∙ lives)
        | inl same ↦
            let at : c ≡ suc k = ground arith in
            (b.keeps c).kept (
              let self : (suc k == suc k) ≡ true = ground arith in
              rw (at, watch, set_proc, self) (IsIn-last me (t.procs (suc k)).callbacks))
      ];
}

Blocked-wait_loop :
    (n me status : ℕ) (found : Bool) (t t' : Table)
    → wait_loop n me true status found t ≡ ok (no_change, t')
    → Blocked me n t t'
unfolding wait_loop
Blocked-wait_loop zero me status found t t' h = Blocked-end me found t t' h
Blocked-wait_loop (suc k) me status found t t' h =
    go (look (t.procs me).pid (t.procs (suc k))) refl
      (λ f s e. Blocked-wait_loop k me status f s t' e) h
  where
    round : Look → Result (Waited × Table)
    round stranger = wait_loop k me true status found t
    round zombie = reap me status (suc k) t
    round gone = wait_loop k me true status found t
    round alive = wait_loop k me true status true (watch me (suc k) t)

    go :
        (l : Look)
        → look (t.procs me).pid (t.procs (suc k)) ≡ l
        → ((f : Bool) (s : Table)
            → wait_loop k me true status f s ≡ ok (no_change, t')
            → Blocked me k s t')
        → round l ≡ ok (no_change, t')
        → Blocked me (suc k) t t'
    go stranger is rec e = Blocked-skip k me t t' (λ lives. ground arith) (rec found t e)
    go zombie is rec e = absurd (reap-takes me status (suc k) t t' e)
    go gone is rec e = Blocked-skip k me t t' (λ lives. ground arith) (rec found t e)
    go alive is rec e = Blocked-watch k me t t' (rec true (watch me (suc k) t) e)

-- When `sys_waitpid` without WNOHANG takes no child and does not fail, the caller sleeps. If at any
-- later time a child that had not exited still has the callbacks that it has then, with others behind
-- them or not, then running its callbacks and notifying its parent, which is how the scheduler ends a
-- child whose resources are freed and whose descriptors are closed, throws nothing, and the caller
-- runs again.
pub sys_waitpid-notify :
    (me c status : ℕ) (t t' later : Table) (more : List ℕ)
    → 0 < c
    → c < t.size
    → (t.procs c).ppid ≡ (t.procs me).pid
    → has_exited (t.procs c) ≡ false
    → sys_waitpid me true status t ≡ ok (no_change, t')
    → (later.procs c).callbacks ≡ (t'.procs c).callbacks ++ more
    → (is_running (t'.procs me) ≡ false)
      × ((t'' : Table) × (notify c later ≡ ok t'') × (is_running (t''.procs me) ≡ true))
unfolding sys_waitpid
sys_waitpid-notify me c status t t' later more low high mine lives h kept =
    let b = Blocked-wait_loop (t.size - 1) me status false t t' h in
    let inside = IsIn-append me _ more (b.watched c low (omega arith) mine lives) in
    (b.asleep, notify-wakes c me later (rw kept inside))
