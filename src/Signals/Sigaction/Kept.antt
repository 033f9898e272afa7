-- ===== src/Signals/Sigaction/Kept.antt =====
-- Actions of signals that `sys_rt_sigaction` of src/syscalls.js saves and takes back.
use noopsys.Base.{
  ℕ, ◌+◌, ◌-◌, ◌%◌, ◌^◌, ◌≤◌, ◌<◌, ◌≡◌, ◌≢◌, refl, List, [], ◌∷◌, arith, ltb, ◌||◌, ◌==◌,
  Bool-cases, inl, inr, false, zero, suc,
}
use noopsys.Base.Int.{pos}
use noopsys.Base.Result.{Result, ok, err, Action}
use noopsys.Base.Seal.{pure, ◌>>=◌, ◌>>◌}
use noopsys.Space.{Vm, Space}
use noopsys.Space.Accessors.{read32}
use noopsys.Space.Safe.{IsSafe}
use noopsys.Space.Views.{SameView}
use noopsys.Space.WordStore.{read32-view}
use noopsys.Space.Fields.{
  put_fields, AreFields, no_fields, field, nothing, under, HasFields, word, HasFields-SameView,
  IsFilled, put_fields-IsFilled,
}
use noopsys.Signals.{nsig, SigAction, Process}
use noopsys.Signals.Sigaction.{
  done, save_action, read_action, swap_action, with_action, swapped, sys_rt_sigaction,
}

abbrev pub action_fields : SigAction → List (ℕ × ℕ)
action_fields a = (0, a.sa_flags) ∷ (4, a.sa_handler) ∷ (8, a.sa_mask) ∷ []

pub record IsAction (a : SigAction) : Type 0 where
  pub handler : a.sa_handler < 2 ^ 32
  pub flags : a.sa_flags < 2 ^ 32
  pub mask : a.sa_mask < 2 ^ 32

action_fields-AreFields : (a : SigAction) → IsAction a → AreFields 0 (action_fields a)
action_fields-AreFields a fits = field 0 0 a.sa_flags _ (omega arith) refl fits.flags (
    field _ 4 _ _ (omega arith) refl fits.handler
      (field _ 8 _ _ (omega arith) refl fits.mask (no_fields _)))

pub save_action-IsFilled :
    (others : List Vm) (a : SigAction) (buf : ℕ) (s s' : Space)
    → IsAction a
    → buf % 4 ≡ 0
    → buf + 12 ≤ 2 ^ 32
    → IsSafe s.phys (s.vm ∷ others)
    → save_action buf a s ≡ ok (tt, s')
    → IsFilled others buf 0 12 (action_fields a) s s'
save_action-IsFilled others a buf s s' fits aligned room safe h =
    let same : save_action buf a ≡ put_fields buf (action_fields a) =
      unfold save_action put_fields in refl in
    put_fields-IsFilled others buf 0 12 (action_fields a) s s' aligned refl
      (action_fields-AreFields a fits)
      (under _ _ _ (omega arith) (under _ _ _ (omega arith) (under _ _ _ (omega arith) nothing)))
      room safe (rw (← same) h)

read_field :
    (others : List Vm) (buf offset value v : ℕ) (fs : List (ℕ × ℕ)) (s t : Space)
    → buf % 4 ≡ 0
    → offset % 4 ≡ 0
    → buf + offset < 2 ^ 32
    → value < 2 ^ 32
    → IsSafe s.phys (s.vm ∷ others)
    → HasFields s buf ((offset, value) ∷ fs)
    → read32 (pos (buf + offset)) s ≡ ok (v, t)
    → (v ≡ value) × IsSafe t.phys (t.vm ∷ others) × SameView s.phys s.vm t.phys t.vm
read_field others buf offset value v fs s t aligned four room small safe
      (word _ _ _ within present bytes rest) load =
    let at : (buf + offset) % 2 ^ 32 ≡ buf + offset = omega arith in
    read32-view others (pos (buf + offset)) value v s t safe (rw at (omega (arith, aligned, four)))
      small (rw at present) (λ k hk. rw at (bytes k hk)) load

tail_fields :
    {s : Space} {buf : ℕ} {f : ℕ × ℕ} {fs : List (ℕ × ℕ)}
    → HasFields s buf (f ∷ fs)
    → HasFields s buf fs
tail_fields (word _ _ _ within present bytes rest) = rest

bind_step :
    {A B : Type 0} (m : Action Space A) (f : A → Action Space B) (b : B) (s s' : Space)
    → (m >>= f) s ≡ ok (b, s')
    → (a : A) × (t : Space) × (m s ≡ ok (a, t)) × (f a t ≡ ok (b, s'))
unfolding ◌>>=◌
bind_step {A} m f b s s' h = go (m s) refl
  where
    go :
        (r : Result (A × Space))
        → m s ≡ r
        → (a : A) × (t : Space) × (m s ≡ ok (a, t)) × (f a t ≡ ok (b, s'))
    go (ok (a, t)) e = (a, t, e, ground arith)
    go (err x) e = absurd (ground arith)

-- What was saved is read as it was.
read_action-saved :
    (others : List Vm) (a a' : SigAction) (buf : ℕ) (s s' : Space)
    → IsAction a
    → buf % 4 ≡ 0
    → buf + 12 ≤ 2 ^ 32
    → IsSafe s.phys (s.vm ∷ others)
    → HasFields s buf (action_fields a)
    → read_action buf s ≡ ok (a', s')
    → a' ≡ a
unfolding read_action pure
read_action-saved others a a' buf s s' fits aligned room safe has h =
    let shape = action_fields-AreFields a fits in
    let (flags, t, e, more) = bind_step _ _ a' s s' h in
    let (is_flags, safe_t, same_t) =
      read_field others buf 0 a.sa_flags flags _ s t aligned refl (omega arith) fits.flags safe has
        e in
    let (handler, u, e', rest) = bind_step _ _ a' t s' more in
    let has_t = HasFields-SameView s t buf 0 (action_fields a) aligned shape same_t has in
    let (is_handler, safe_u, same_u) =
      read_field others buf 4 a.sa_handler handler _ t u aligned refl (omega arith) fits.handler
        safe_t (tail_fields has_t) e' in
    let (mask, v, e'', last) = bind_step _ _ a' u s' rest in
    let has_u = HasFields-SameView t u buf 0 (action_fields a) aligned shape same_u has_t in
    let (is_mask, safe_v, same_v) =
      read_field others buf 8 a.sa_mask mask _ u v aligned refl (omega arith) fits.mask safe_u
        (tail_fields (tail_fields has_u)) e'' in
    cc

sigaction_step :
    (signum act oldact : ℕ) (p p' : Process)
    → sys_rt_sigaction signum act oldact p ≡ ok (done, p')
    → (action : SigAction) × (s : Space) × (swap_action act oldact
          (p.actions (signum - 1))
          p.cpu.space
        ≡ ok (action, s))
      × (with_action p signum action s ≡ p')
unfolding sys_rt_sigaction swapped
sigaction_step signum act oldact p p' h = elim (Bool-cases (ltb signum 1 || ltb nsig signum)) [
  | inl e ↦ absurd (let f = rw e at h in ground arith)
  | inr e ↦ go (swap_action act oldact (p.actions (signum - 1)) p.cpu.space) refl (rw e at h)
]
  where
    go :
        (r : Result (SigAction × Space))
        → swap_action act oldact (p.actions (signum - 1)) p.cpu.space ≡ r
        → swapped p signum (swap_action act oldact (p.actions (signum - 1)) p.cpu.space)
          ≡ ok (done, p')
        → (action : SigAction) × (s : Space) × (swap_action act oldact
              (p.actions (signum - 1))
              p.cpu.space
            ≡ ok (action, s))
          × (with_action p signum action s ≡ p')
    go (ok (action, s)) e f = let g = rw e at f in (action, s, e, ground arith)
    go (err x) e f = absurd (let g = rw e at f in ground arith)

query_step :
    (buf : ℕ) (a a' : SigAction) (s s' : Space)
    → buf ≢ 0
    → swap_action 0 buf a s ≡ ok (a', s')
    → save_action buf a s ≡ ok (tt, s')
unfolding swap_action ◌>>◌ pure
query_step zero a a' s s' present h = absurd (present refl)
query_step (suc n) a a' s s' present h = go (save_action (suc n) a s) refl
  where
    go :
        (r : Result (Unit {0} × Space))
        → save_action (suc n) a s ≡ r
        → save_action (suc n) a s ≡ ok (tt, s')
    go (ok (tt, t)) e = ground arith
    go (err x) e = absurd (ground arith)

restore_step :
    (buf : ℕ) (a a' : SigAction) (s s' : Space)
    → buf ≢ 0
    → swap_action buf 0 a s ≡ ok (a', s')
    → read_action buf s ≡ ok (a', s')
unfolding swap_action ◌>>◌ pure
restore_step buf a a' s s' present h =
    let e : (buf == 0) ≡ false = ground (arith, present) in rw e at h

-- When sigaction gives the action of a signal into an aligned buffer below 2 ^ 32, then the program
-- leaves its memory as it is, and sigaction takes the buffer as the signal's new action, that action
-- is the one of before, and the actions of all other signals are left as they are.
pub sys_rt_sigaction-restored :
    (others : List Vm) (signum buf : ℕ) (p p' q q' : Process)
    → IsAction (p.actions (signum - 1))
    → buf ≢ 0
    → buf % 4 ≡ 0
    → buf + 12 ≤ 2 ^ 32
    → IsSafe p.cpu.space.phys (p.cpu.space.vm ∷ others)
    → sys_rt_sigaction signum 0 buf p ≡ ok (done, p')
    → SameView p'.cpu.space.phys p'.cpu.space.vm q.cpu.space.phys q.cpu.space.vm
    → IsSafe q.cpu.space.phys (q.cpu.space.vm ∷ others)
    → sys_rt_sigaction signum buf 0 q ≡ ok (done, q')
    → (q'.actions (signum - 1) ≡ p.actions (signum - 1))
      × ((n : ℕ) → n ≢ signum - 1 → q'.actions n ≡ q.actions n)
sys_rt_sigaction-restored others signum buf p p' q q' fits present aligned room safe query same
      safe' restore =
    let old = p.actions (signum - 1) in
    let (a, s, swap, is_p') = sigaction_step signum 0 buf p p' query in
    let filled =
      save_action-IsFilled others old buf p.cpu.space s fits aligned room safe
        (query_step buf old a p.cpu.space s present swap) in
    let (b, t, swap', is_q') = sigaction_step signum buf 0 q q' restore in
    let at : s ≡ p'.cpu.space = ground (arith, is_p') in
    let has =
      HasFields-SameView p'.cpu.space q.cpu.space buf 0 (action_fields old) aligned
        (action_fields-AreFields old fits) same (rw (← at) filled.has) in
    let is_old : b ≡ old =
      read_action-saved others old b buf q.cpu.space t fits aligned room safe' has
        (restore_step buf (q.actions (signum - 1)) b q.cpu.space t present swap') in
    (rw (← is_q', is_old) (ground arith), λ n ne. rw (← is_q') (ground arith))
