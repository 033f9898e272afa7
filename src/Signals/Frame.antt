-- ===== src/Signals/Frame.antt =====
-- What `popFrameAfterSignal` of src/process.js takes back from the stack.
use noopsys.Base.{
  ℕ, zero, suc, ◌+◌, ◌*◌, ◌/◌, ◌%◌, ◌^◌, ◌≤◌, ◌<◌, ◌≡◌, ◌≢◌, refl, ◌∙◌, Bool, List, ◌∷◌, inl, inr,
  arith, ◌==◌, if◌then◌else◌, Bool-cases,
}
use noopsys.Base.Int.{pos}
use noopsys.Base.Result.{Result, ok, err}
use noopsys.Space.{Vm, Space}
use noopsys.Space.Accessors.{read32}
use noopsys.Space.Safe.{IsSafe, view}
use noopsys.Space.Views.{SameView}
use noopsys.Space.WordStore.{read32-view}
use noopsys.Cpu.{Cpu, on_space}
use noopsys.Signals.{
  state_copy_count, state_word, put_state_word, setup_frame, load_frame, pop_frame,
}
use noopsys.Signals.Saved.{IsFrame, setup_frame-IsFrame}

state_word-put_state_word :
    (n m v : ℕ) (c : Cpu)
    → state_word (put_state_word n v c) m ≡ (if m == n then v else state_word c m)
unfolding state_word put_state_word
state_word-put_state_word n m v c = ground arith

load_frame_step :
    (n k sp : ℕ) (c c' : Cpu)
    → load_frame (suc n) k sp c ≡ ok (tt, c')
    → (v : ℕ) × (s : Space) × (read32 (pos (sp + k * 4)) c.space ≡ ok (v, s))
      × (load_frame n (k + 1) sp (put_state_word k v (record c { space = s })) ≡ ok (tt, c'))
unfolding load_frame on_space
load_frame_step n k sp c c' h = go (read32 (pos (sp + k * 4)) c.space) refl
  where
    go :
        (r : Result (ℕ × Space))
        → read32 (pos (sp + k * 4)) c.space ≡ r
        → (v : ℕ) × (s : Space) × (read32 (pos (sp + k * 4)) c.space ≡ ok (v, s))
          × (load_frame n (k + 1) sp (put_state_word k v (record c { space = s })) ≡ ok (tt, c'))
    go (ok (v, s)) e = (v, s, e, ground arith)
    go (err x) e = absurd (ground arith)

put_state_word-space : (n v : ℕ) (c : Cpu) → (put_state_word n v c).space ≡ c.space
unfolding put_state_word
put_state_word-space n v c = ground arith

-- A load leaves a frame as it is.
IsFrame-SameView :
    (words : ℕ → ℕ) (sp n : ℕ) (s s' : Space)
    → sp % 4 ≡ 0
    → SameView s.phys s.vm s'.phys s'.vm
    → IsFrame words sp n s
    → IsFrame words sp n s'
IsFrame-SameView words sp n s s' aligned same f = record {
  in_range = f.in_range;
  present = λ j h. (same (sp + j * 4) (f.in_range j h) (f.present j h)).0;
  byte = λ j k h hk.
      let page : (sp + j * 4 + k) / 65536 ≡ (sp + j * 4) / 65536 = omega (arith, aligned) in
      (same (sp + j * 4 + k) (rw page (f.in_range j h)) (rw page (f.present j h))).1
      ∙ f.byte j k h hk;
}

-- One more word restored.
put_state_word-restored :
    (words : ℕ → ℕ) (k v : ℕ) (c : Cpu) (s : Space)
    → v ≡ words k
    → ((j : ℕ) → j < k → state_word c j ≡ words j)
    → (j : ℕ) → j < k + 1
    → state_word (put_state_word k v (record c { space = s })) j ≡ words j
put_state_word-restored words k v c s is_v same j lt =
    let moved : state_word (record c { space = s }) j ≡ state_word c j =
      unfold state_word in refl in
    elim (Bool-cases (j == k)) [
      | inl e ↦
          let here : j ≡ k = ground arith in
          state_word-put_state_word k j v (record c { space = s }) ∙ rw (e) (is_v ∙ rw here refl)
      | inr e ↦
          state_word-put_state_word k j v (record c { space = s })
          ∙ rw (e) (moved ∙ same j (ground arith))
    ]

load_frame-words :
    (others : List Vm) (words : ℕ → ℕ) (n k sp m : ℕ) (c c' : Cpu)
    → sp % 4 ≡ 0
    → k + n ≡ m
    → sp + m * 4 ≤ 2 ^ 32
    → ((j : ℕ) → j < m → words j < 2 ^ 32)
    → ((j : ℕ) → j < k → state_word c j ≡ words j)
    → IsSafe c.space.phys (c.space.vm ∷ others)
    → IsFrame words sp m c.space
    → load_frame n k sp c ≡ ok (tt, c')
    → (j : ℕ) → j < m
    → state_word c' j ≡ words j
load_frame-words others words zero k sp m c c' aligned all fits word same safe f h j lt =
    let e : c ≡ c' = unfold load_frame in ground arith in rw (← e) (same j (omega arith))
load_frame-words others words (suc n) k sp m c c' aligned all fits word same safe f h j lt =
    let (v, s, load, rest) = load_frame_step n k sp c c' h in
    let at : (sp + k * 4) % 2 ^ 32 ≡ sp + k * 4 = omega arith in
    let (is_v, safe', view') =
      read32-view others (pos (sp + k * 4)) (words k) v c.space s safe
        (rw at (omega (arith, aligned))) (word k (omega arith)) (rw at (f.present k (omega arith)))
        (λ b hb. rw at (f.byte k b (omega arith) hb)) load in
    let d = put_state_word k v (record c { space = s }) in
    let space : d.space ≡ s = put_state_word-space k v (record c { space = s }) in
    load_frame-words others words n (k + 1) sp m d c' aligned (omega arith) fits word
      (put_state_word-restored words k v c s is_v same) (rw space safe')
      (rw space (IsFrame-SameView words sp m c.space s aligned view' f)) rest j lt

-- How a handler is to leave the processor for the frame to be found: the stack pointer and the
-- bytes of the frame are as they were when it was called.
pub record LeavesFrame (others : List Vm) (before after : Cpu) : Type 0 where
  pub safe : IsSafe after.space.phys (after.space.vm ∷ others)
  pub stack : after.regs 29 ≡ before.regs 29
  pub present :
      (a : ℕ)
      → before.regs 29 ≤ a
      → a < before.regs 29 + 272
      → before.space.vm.pagemap (a / 65536) ≢ 0
      → after.space.vm.pagemap (a / 65536) ≢ 0
  pub bytes :
      (a : ℕ)
      → before.regs 29 ≤ a
      → a < before.regs 29 + 272
      → view after.space.phys after.space.vm a ≡ view before.space.phys before.space.vm a

IsFrame-LeavesFrame :
    (others : List Vm) (words : ℕ → ℕ) (before after : Cpu)
    → LeavesFrame others before after
    → IsFrame words (before.regs 29) state_copy_count before.space
    → IsFrame words (before.regs 29) state_copy_count after.space
IsFrame-LeavesFrame others words before after leaves f = record {
  in_range = f.in_range;
  present =
      λ j h. leaves.present (before.regs 29 + j * 4) (omega arith) (omega arith) (f.present j h);
  byte = λ j k h hk.
      leaves.bytes (before.regs 29 + j * 4 + k) (omega arith) (omega arith) ∙ f.byte j k h hk;
}

-- A signal's handler comes and goes without a trace in the registers: if the stack pointer is
-- aligned and has room below it, and the handler leaves the frame that `setupFrameForSignal` made
-- on the stack, then `popFrameAfterSignal` gives each of the 68 saved registers (integer and
-- floating-point registers, pc, pending branch, low and high) the value it had before the signal.
pub pop_frame-setup_frame :
    (others : List Vm) (is_rt : Bool) (signo handler : ℕ) (c called returned c' : Cpu)
    → c.regs 29 % 4 ≡ 0
    → 272 ≤ c.regs 29
    → ((j : ℕ) → j < state_copy_count → state_word c j < 2 ^ 32)
    → IsSafe c.space.phys (c.space.vm ∷ others)
    → setup_frame is_rt signo handler c ≡ ok (tt, called)
    → LeavesFrame others called returned
    → pop_frame returned ≡ ok (tt, c')
    → (j : ℕ) → j < state_copy_count
    → state_word c' j ≡ state_word c j
unfolding pop_frame
pop_frame-setup_frame others is_rt signo handler c called returned c' aligned room word safe set
      leaves pop j lt =
    let low : c.regs 29 < 2 ^ 32 = unfold state_word in word 29 (omega arith) in
    let (sp, saved, _) =
      setup_frame-IsFrame others is_rt signo handler c called aligned room low safe set in
    load_frame-words others (state_word c) state_copy_count 0 (called.regs 29) state_copy_count
      returned c' (rw sp (omega (arith, aligned))) refl (rw sp (omega arith)) word
      (λ i below. absurd (omega arith)) leaves.safe
      (IsFrame-LeavesFrame others (state_word c) called returned leaves (rw sp saved))
      (rw (← leaves.stack) pop) j lt
