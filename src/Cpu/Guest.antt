-- ===== src/Cpu/Guest.antt =====
-- What the instructions of src/process.js keep: an invariant of the registers, and the one of the
-- page tables, as a relation between two states of the processor.
pub mod Flow
pub mod Special
pub mod Transfer
pub mod Run
use noopsys.Base.{
  ℕ, suc, zero, ◌+◌, ◌/◌, ◌%◌, ◌^◌, ◌<◌, ◌≡◌, ◌≢◌, refl, Bool, true, false, List, ◌∷◌, ◌⊎◌, arith,
  ◌==◌, if◌then◌else◌, Bool-cases, inl, inr, update,
}
use noopsys.Base.Int.{ℤ, to_uint32-lt}
use noopsys.Base.Word.{u32}
use noopsys.Base.Result.{Action, Result, ok, err}
use noopsys.Base.Seal.{Keeps, pure, gets, modify, ◌>>=◌, ◌>>◌, Keeps-pure, Keeps-gets, Keeps-modify}
use noopsys.Space.{Vm, Space}
use noopsys.Space.Safe.{IsSafe}
use noopsys.Space.Kept.{Kept, IsolatedFrom, isolated_refl, isolated_trans}
use noopsys.Cpu.{
  Cpu, Step, put_reg, write_reg, on_space, branch_to, skip, save_pc, restore_pc, state_pc,
  state_pending_branch,
}

pub record IsSound (c : Cpu) : Type 0 where
  pub zero_reg : c.regs 0 ≡ 0
  pub words : (r : ℕ) → c.regs r < 2 ^ 32

module _ (others : List Vm) where
  pub record Effect (c c' : Cpu) : Type 0 where
    pub sound : IsSound c'
    pub kept : Kept others c.space c'.space

  abbrev pub Guest : Cpu → Cpu → Type 0
  Guest c c' = IsSound c → IsSafe c.space.phys (c.space.vm ∷ others) → Effect c c'

  pub Guest-refl : (c : Cpu) → Guest c c
  Guest-refl c sound safe = record { sound = sound; kept = isolated_refl others c.space safe }

  pub Guest-trans : (c d e : Cpu) → Guest c d → Guest d e → Guest c e
  Guest-trans c d e first then_rest sound safe =
      let f = first sound safe in
      let g = then_rest f.sound f.kept.safe in
      record {
        sound = g.sound;
        kept = isolated_trans others c.space d.space e.space (λ _. f.kept) (λ _. g.kept) safe;
      }

  -- A change of registers and of the loop's variables only.
  pub put_reg-Guest : (r v : ℕ) (c : Cpu) → r ≢ 0 → Guest c (put_reg r v c)
  unfolding put_reg
  put_reg-Guest r v c ne sound safe = record {
    sound = record {
      zero_reg = ground (arith, sound.zero_reg);
      words = λ q. ground (arith, sound.words q);
    };
    kept = isolated_refl others c.space safe;
  }

  pub write_reg-Keeps : (r v : ℕ) → Keeps Guest (write_reg r v)
  unfolding write_reg
  write_reg-Keeps r v =
      Keeps-modify Guest Guest-refl Guest-trans _ (λ c. step c (Bool-cases (r == 0)))
    where
      step :
          (c : Cpu)
          → ((r == 0) ≡ true) ⊎ ((r == 0) ≡ false)
          → Guest c (if r == 0 then c else put_reg r v c)
      step c (inl z) = rw z (Guest-refl c)
      step c (inr nz) = rw nz (put_reg-Guest r v c (ground arith))

  pub put_reg-Keeps : (r v : ℕ) → r ≢ 0 → Keeps Guest (modify (put_reg r v))
  put_reg-Keeps r v ne =
      Keeps-modify Guest Guest-refl Guest-trans (put_reg r v) (λ c. put_reg-Guest r v c ne)

  pub on_space-Keeps :
      {A : Type 0} (m : Action Space A) → Keeps (IsolatedFrom others) m → Keeps Guest (on_space m)
  unfolding on_space
  on_space-Keeps {A} m k = record {
    holds = λ c c' a h sound safe. go c c' a sound safe (m c.space) refl h;
  }
    where
      go :
          (c c' : Cpu) (a : A)
          → IsSound c
          → IsSafe c.space.phys (c.space.vm ∷ others)
          → (r : Result (A × Space)) → m c.space ≡ r
          → on_space m c ≡ ok (a, c')
          → Effect c c'
      go c c' a sound safe (ok (b, s)) e h =
          let g : record c { space = s } ≡ c' = ground arith in
          rw (← g) (record {
            sound = record { zero_reg = sound.zero_reg; words = sound.words };
            kept = k.holds c.space s b e safe;
          })
      go c c' a sound safe (err x) e h = absurd (ground arith)

  -- A change of the loop's variables only.
  pub flow-Keeps :
      (f : Cpu → Cpu)
      → ((c : Cpu) → (f c).regs ≡ c.regs)
      → ((c : Cpu) → (f c).space ≡ c.space)
      → Keeps Guest (modify f)
  flow-Keeps f same_regs same_space = Keeps-modify Guest Guest-refl Guest-trans f (λ c sound safe.
      record {
        sound = record {
          zero_reg = rw (same_regs c) sound.zero_reg;
          words = λ r. rw (same_regs c) (sound.words r);
        };
        kept = rw (same_space c) (isolated_refl others c.space safe);
      })

  pub save_pc-Guest : (c : Cpu) → Guest c (save_pc c)
  unfolding save_pc
  save_pc-Guest c =
      Guest-trans c (put_reg state_pc c.pc c) (save_pc c)
        (put_reg-Guest state_pc c.pc c (omega arith))
        (put_reg-Guest state_pending_branch c.pending (put_reg state_pc c.pc c) (omega arith))

  pub save_pc-Keeps : Keeps Guest (modify save_pc)
  save_pc-Keeps = Keeps-modify Guest Guest-refl Guest-trans save_pc save_pc-Guest

  pub restore_pc-Keeps : Keeps Guest (modify restore_pc)
  unfolding restore_pc
  restore_pc-Keeps = flow-Keeps restore_pc (λ c. refl) (λ c. refl)
