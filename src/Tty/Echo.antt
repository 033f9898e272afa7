-- ===== src/Tty/Echo.antt =====
-- What src/tty.js does with the characters that are typed.
use noopsys.Base.{
  ℕ, ◌≡◌, ◌≤◌, refl, sym, ap, ◌∙◌, Bool, true, false, ◌&&◌, Option, none, some, List, [], ◌∷◌, ◌++◌,
  length, if◌then◌else◌, arith, append_assoc, append-nil, length-append,
}
use noopsys.Base.Word.{meets}
use noopsys.Base.Result.{Result, ok}
use noopsys.Constants.{
  echo, extproc, ixon, isig_flag, vstart, vstop, vintr, vquit, vsusp, sigint, sigquit, sigtstp,
}
use noopsys.Tty.{
  Tty, is_special, queue, emit, accept, translate, isig, receive_char_special, receive_char, update,
}

-- One state after another, where the same characters were queued and written.
pub record Echoes (before after : Tty) (most : ℕ) : Type 0 where
  pub taken : List ℕ
  pub short : length taken ≤ most
  pub in_queue : after.queued ≡ before.queued ++ taken
  pub on_screen : after.written ≡ before.written ++ taken
  pub same_lflag : after.c_lflag ≡ before.c_lflag
  pub same_group : after.has_group ≡ before.has_group

Echoes-none :
    (tty after : Tty)
    → after.queued ≡ tty.queued
    → after.written ≡ tty.written
    → after.c_lflag ≡ tty.c_lflag
    → after.has_group ≡ tty.has_group
    → Echoes tty after 1
Echoes-none tty after q w l g = record {
  taken = [];
  short = omega arith;
  in_queue = q ∙ sym (append-nil tty.queued);
  on_screen = w ∙ sym (append-nil tty.written);
  same_lflag = l;
  same_group = g;
}

Echoes-accept :
    (o : Option ℕ) (tty : Tty) → meets tty.c_lflag echo ≡ true → Echoes tty (accept o tty) 1
unfolding accept queue emit
Echoes-accept none tty on = Echoes-none tty tty refl refl refl refl
Echoes-accept (some c) tty on = rw (on) (record {
  taken = c ∷ [];
  short = omega arith;
  in_queue = refl;
  on_screen = refl;
  same_lflag = refl;
  same_group = refl;
})

-- A result that is a state with an echo.
record Answers (tty : Tty) (r : Result Tty) : Type 0 where
  after : Tty
  runs : r ≡ ok after
  echoes : Echoes tty after 1

Answers-if :
    (tty : Tty) (b : Bool) {x y : Result Tty}
    → Answers tty x
    → Answers tty y
    → Answers tty (if b then x else y)
Answers-if tty true p q = p
Answers-if tty false p q = q

Answers-isig : (signo : ℕ) (tty : Tty) → tty.has_group ≡ true → Answers tty (isig signo tty)
unfolding isig
Answers-isig signo tty group =
    let after : Tty = record tty { sent = tty.sent ++ (signo ∷ []) } in
    record {
      after = after;
      runs = rw (group) refl;
      echoes = Echoes-none tty after refl refl refl refl;
    }

Answers-special :
    (c : ℕ) (tty : Tty)
    → meets tty.c_lflag echo ≡ true
    → tty.has_group ≡ true
    → Answers tty (receive_char_special c tty)
unfolding receive_char_special
Answers-special c tty on group =
    let same : Answers tty (ok tty) = record {
      after = tty;
      runs = refl;
      echoes = Echoes-none tty tty refl refl refl refl;
    } in
    let taken : Answers tty (ok (accept (translate tty c) tty)) = record {
      after = accept (translate tty c) tty;
      runs = refl;
      echoes = Echoes-accept (translate tty c) tty on;
    } in
    let xon : ℕ → Bool = λ place. meets tty.c_iflag ixon && is_special tty place c in
    let signals : ℕ → Bool = λ place. meets tty.c_lflag isig_flag && is_special tty place c in
    Answers-if tty (xon vstart) same (
      Answers-if tty (xon vstop) same (
        Answers-if tty (signals vintr) (Answers-isig sigint tty group) (
          Answers-if tty (signals vquit) (Answers-isig sigquit tty group)
            (Answers-if tty (signals vsusp) (Answers-isig sigtstp tty group) taken))))

Answers-receive_char :
    (c : ℕ) (tty : Tty)
    → meets tty.c_lflag echo ≡ true
    → meets tty.c_lflag extproc ≡ false
    → tty.has_group ≡ true
    → Answers tty (receive_char c tty)
unfolding receive_char
Answers-receive_char c tty on off group = rw (off) (Answers-special _ tty on group)

-- With echo on and external processing off, and a process to signal, `update` takes all the
-- characters that arrived without an error: at most as many are put in the queue, and exactly these
-- are shown on the screen, in the same order, behind what was there.
pub update-echo :
    (cs : List ℕ) (tty : Tty)
    → meets tty.c_lflag echo ≡ true
    → meets tty.c_lflag extproc ≡ false
    → tty.has_group ≡ true
    → (t : Tty) × (update cs tty ≡ ok t)
      × ((taken : List ℕ) × (length taken ≤ length cs)
          × (t.queued ≡ tty.queued ++ taken)
          × (t.written ≡ tty.written ++ taken))
unfolding update
update-echo [] tty on off group =
    (tty, refl, ([], omega arith, sym (append-nil tty.queued), sym (append-nil tty.written)))
update-echo (c ∷ cs) tty on off group =
    let first = Answers-receive_char c tty on off group in
    let u = first.after in
    let e = first.echoes in
    let (t, rest, (taken, short, queued, shown)) =
      update-echo cs u (ap (λ f. meets f echo) e.same_lflag ∙ on)
        (ap (λ f. meets f extproc) e.same_lflag ∙ off) (e.same_group ∙ group) in
    (
      t,
      rw (update, first.runs) rest,
      (
        e.taken ++ taken,
        omega (arith, e.short, length-append e.taken taken),
        queued ∙ ap (λ q. q ++ taken) e.in_queue ∙ append_assoc tty.queued e.taken taken,
        shown ∙ ap (λ q. q ++ taken) e.on_screen ∙ append_assoc tty.written e.taken taken,
      ),
    )
