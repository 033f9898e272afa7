-- ===== src/Signals/Saved.antt =====
-- The frame that `setupFrameForSignal` of src/process.js puts on the stack.
use noopsys.Base.{
  ℕ, zero, suc, ◌+◌, ◌-◌, ◌*◌, ◌/◌, ◌%◌, ◌^◌, ◌≤◌, ◌<◌, ◌≡◌, ◌≢◌, refl, ◌∙◌, Bool, List, ◌∷◌, inl,
  inr, arith, ◌==◌, Bool-cases,
}
use noopsys.Base.Int.{ℤ, pos, ◌+ℤ◌, sub_ℕ, to_uint32}
use noopsys.Base.Word.{byte_of}
use noopsys.Base.Result.{Result, ok, err}
use noopsys.Space.{Vm, Space}
use noopsys.Space.Accessors.{write32}
use noopsys.Space.Safe.{local_pages, IsSafe, view}
use noopsys.Space.WordStore.{IsWordStore, write32-IsWordStore}
use noopsys.Cpu.{Cpu, on_space}
use noopsys.Signals.{state_copy_count, state_word, put_state_word, save_frame, setup_frame}

-- The bytes from `sp` on hold the words `words 0` to `words (n - 1)`.
pub record IsFrame (words : ℕ → ℕ) (sp n : ℕ) (s : Space) : Type 0 where
  pub in_range : (j : ℕ) → j < n → (sp + j * 4) / 65536 < local_pages
  pub present : (j : ℕ) → j < n → s.vm.pagemap ((sp + j * 4) / 65536) ≢ 0
  pub byte : (j k : ℕ) → j < n → k < 4 → view s.phys s.vm (sp + j * 4 + k) ≡ byte_of (words j) k

-- One more word stored behind a frame.
IsFrame-suc :
    (others : List Vm) (words : ℕ → ℕ) (sp n v : ℕ) (s s' : Space)
    → sp % 4 ≡ 0
    → v ≡ words n
    → IsFrame words sp n s
    → IsWordStore others (sp + n * 4) v s s'
    → IsFrame words sp (n + 1) s'
IsFrame-suc others words sp n v s s' aligned is_v f w = record {
  in_range = λ j h. elim (Bool-cases (j == n)) [
    | inl e ↦ let same : j ≡ n = ground arith in rw same w.in_range
    | inr e ↦ f.in_range j (ground arith)
  ];
  present = λ j h. elim (Bool-cases (j == n)) [
    | inl e ↦ let same : j ≡ n = ground arith in rw same w.present
    | inr e ↦
        let lt : j < n = ground arith in
        (w.own (sp + j * 4) (f.in_range j lt) (f.present j lt) (omega (arith, aligned))).0
  ];
  byte = λ j k h hk. elim (Bool-cases (j == n)) [
    | inl e ↦ let same : j ≡ n = ground arith in rw (same, ← is_v) (w.written k hk)
    | inr e ↦
        let lt : j < n = ground arith in
        let page : (sp + j * 4 + k) / 65536 ≡ (sp + j * 4) / 65536 = omega (arith, aligned) in
        (w.own (sp + j * 4 + k) (rw page (f.in_range j lt)) (rw page (f.present j lt))
          (omega (arith, aligned))).1
        ∙ f.byte j k lt hk
  ];
}

save_frame_step :
    (n k : ℕ) (sp : ℤ) (c c' : Cpu)
    → save_frame (suc n) k sp c ≡ ok (tt, c')
    → (s : Space) × (write32 (sp +ℤ pos (k * 4)) (state_word c k) c.space ≡ ok (tt, s))
      × (save_frame n (k + 1) sp (record c { space = s }) ≡ ok (tt, c'))
unfolding save_frame on_space
save_frame_step n k sp c c' h = go (write32 (sp +ℤ pos (k * 4)) (state_word c k) c.space) refl
  where
    go :
        (r : Result (Unit {0} × Space))
        → write32 (sp +ℤ pos (k * 4)) (state_word c k) c.space ≡ r
        → (s : Space) × (write32 (sp +ℤ pos (k * 4)) (state_word c k) c.space ≡ ok (tt, s))
          × (save_frame n (k + 1) sp (record c { space = s }) ≡ ok (tt, c'))
    go (ok (tt, s)) e = (s, e, ground arith)
    go (err x) e = absurd (ground arith)

-- What `save_frame` has done.
record IsSaved (others : List Vm) (words : ℕ → ℕ) (sp n : ℕ) (c' : Cpu) : Type 0 where
  frame : IsFrame words sp n c'.space
  safe : IsSafe c'.space.phys (c'.space.vm ∷ others)

save_frame-IsSaved :
    (others : List Vm) (words : ℕ → ℕ) (n k sp : ℕ) (c c' : Cpu)
    → sp % 4 ≡ 0
    → sp + (k + n) * 4 ≤ 2 ^ 32
    → ((j : ℕ) → j < k + n → state_word c j ≡ words j)
    → IsSafe c.space.phys (c.space.vm ∷ others)
    → IsFrame words sp k c.space
    → save_frame n k (pos sp) c ≡ ok (tt, c')
    → IsSaved others words sp (k + n) c'
save_frame-IsSaved others words zero k sp c c' aligned fits same safe f h =
    let e : c ≡ c' = unfold save_frame in ground arith in
    let all : k + 0 ≡ k = omega arith in rw (← e, all) (record { frame = f; safe = safe })
save_frame-IsSaved others words (suc n) k sp c c' aligned fits same safe f h =
    let (s, store, rest) = save_frame_step n k (pos sp) c c' h in
    let at : to_uint32 (pos sp +ℤ pos (k * 4)) ≡ sp + k * 4 = unfold ◌+ℤ◌ in ground arith in
    let w =
      write32-IsWordStore others (pos sp +ℤ pos (k * 4)) (state_word c k) c.space s safe
        (rw at (omega (arith, aligned))) store in
    let more : k + suc n ≡ k + 1 + n = omega arith in
    rw more (
      save_frame-IsSaved others words n (k + 1) sp (record c { space = s }) c' aligned (omega arith)
        (λ j lt. unfold state_word in same j (omega arith)) w.safe
        (IsFrame-suc others words sp k (state_word c k) c.space s aligned (same k (omega arith)) f
          (subst_at at w))
        rest)
  where
    subst_at :
        {s t : Space} {a b v : ℕ} → a ≡ b → IsWordStore others a v s t → IsWordStore others b v s t
    subst_at e w = rw (← e) w

setup_frame_step :
    (is_rt : Bool) (signo handler : ℕ) (c c' : Cpu)
    → setup_frame is_rt signo handler c ≡ ok (tt, c')
    → (d : Cpu) × (save_frame state_copy_count 0 (sub_ℕ (c.regs 29) 272) c ≡ ok (tt, d))
      × (c'.space ≡ d.space)
      × (c'.regs 29 ≡ to_uint32 (sub_ℕ (c.regs 29) 272))
unfolding setup_frame put_state_word
setup_frame_step is_rt signo handler c c' h =
    go (save_frame state_copy_count 0 (sub_ℕ (c.regs 29) 272) c) refl
  where
    go :
        (r : Result (Unit {0} × Cpu))
        → save_frame state_copy_count 0 (sub_ℕ (c.regs 29) 272) c ≡ r
        → (d : Cpu) × (save_frame state_copy_count 0 (sub_ℕ (c.regs 29) 272) c ≡ ok (tt, d))
          × (c'.space ≡ d.space)
          × (c'.regs 29 ≡ to_uint32 (sub_ℕ (c.regs 29) 272))
    go (ok (tt, d)) e = (d, e, ground arith, ground arith)
    go (err x) e = absurd (ground arith)

-- The saved frame lies where the stack pointer is left.
pub setup_frame-IsFrame :
    (others : List Vm) (is_rt : Bool) (signo handler : ℕ) (c c' : Cpu)
    → c.regs 29 % 4 ≡ 0
    → 272 ≤ c.regs 29
    → c.regs 29 < 2 ^ 32
    → IsSafe c.space.phys (c.space.vm ∷ others)
    → setup_frame is_rt signo handler c ≡ ok (tt, c')
    → (c'.regs 29 ≡ c.regs 29 - 272)
      × IsFrame (state_word c) (c.regs 29 - 272) state_copy_count c'.space
      × IsSafe c'.space.phys (c'.space.vm ∷ others)
setup_frame-IsFrame others is_rt signo handler c c' aligned room word safe h =
    let (d, save, space, stack) = setup_frame_step is_rt signo handler c c' h in
    let sp : sub_ℕ (c.regs 29) 272 ≡ pos (c.regs 29 - 272) = ground arith in
    let saved =
      save_frame-IsSaved others (state_word c) state_copy_count 0 (c.regs 29 - 272) c d
        (omega (arith, aligned)) (omega arith) (λ j lt. refl) safe
        (record {
          in_range = λ j lt. absurd (omega arith);
          present = λ j lt. absurd (omega arith);
          byte = λ j k lt hk. absurd (omega arith);
        })
        (rw (← sp) save) in
    (stack ∙ rw sp (omega arith), rw space saved.frame, rw space saved.safe)
