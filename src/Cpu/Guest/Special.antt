-- ===== src/Cpu/Guest/Special.antt =====
-- The instructions under opcode 0 (`runInstLoop` in src/process.js).
use noopsys.Base.{ℕ, List, refl, arith}
use noopsys.Base.Seal.{
  Keeps, modify, Keeps-pure, Keeps-gets, Keeps-if, Keeps-throw, Keeps-throw_if, Keeps-modify,
  Keeps->>=, Keeps->>,
}
use noopsys.Space.{Vm}
use noopsys.Cpu.{Step, put_reg, state_reg_low, state_reg_high}
use noopsys.Cpu.Guest.{
  Guest, Guest-refl, Guest-trans, put_reg-Guest, put_reg-Keeps, write_reg-Keeps, flow-Keeps,
  save_pc-Keeps, restore_pc-Keeps,
}
use noopsys.Cpu.Decode.{
  Special, sll, srl, sra, sllv, srlv, srav, jr, jalr, syscall, breakpoint, sync, mfhi, mthi, mflo,
  mtlo, mult, multu, div, divu, add, addu, sub, subu, and, or, xor, nor, slt, sltu, tge, tgeu, tlt,
  tltu, teq, tne, unknown, Fields,
}
use noopsys.Cpu.Special.{exec_special, put_product, with_saved_pc}

module _ (others : List Vm) where
  put_product-Keeps : (p : ℕ × ℕ) → Keeps (Guest others) (put_product p)
  put_product-Keeps p = Keeps-modify (Guest others) (Guest-refl others) (Guest-trans others) _ (λ c.
      Guest-trans others c (put_reg state_reg_low p.0 c) _
        (put_reg-Guest others state_reg_low p.0 c (omega arith))
        (put_reg-Guest others state_reg_high p.1 (put_reg state_reg_low p.0 c) (omega arith)))

  put_low-Keeps : (v : ℕ) → Keeps (Guest others) (modify (put_reg state_reg_low v))
  put_low-Keeps v = put_reg-Keeps others state_reg_low v (omega arith)

  put_high-Keeps : (v : ℕ) → Keeps (Guest others) (modify (put_reg state_reg_high v))
  put_high-Keeps v = put_reg-Keeps others state_reg_high v (omega arith)

  pub with_saved_pc-Keeps :
      (handler : Step) → Keeps (Guest others) handler → Keeps (Guest others) (with_saved_pc handler)
  with_saved_pc-Keeps handler k =
      Keeps->> (Guest others) (Guest-refl others) (Guest-trans others) (save_pc-Keeps others) (
        Keeps->> (Guest others) (Guest-refl others) (Guest-trans others) k
          (restore_pc-Keeps others))

  jump_register-Keeps : (s : ℕ) → Keeps (Guest others) (modify λ c. record c { pending = s })
  jump_register-Keeps s = flow-Keeps others _ (λ c. refl) (λ c. refl)

  module _ (handler : Step) (k : Keeps (Guest others) handler) where
    ruleset special_rules = (
      Keeps->>=, Keeps->>, Keeps-pure, Keeps-gets, Keeps-if, Keeps-throw, Keeps-throw_if,
      Guest-refl, Guest-trans, write_reg-Keeps, put_low-Keeps, put_high-Keeps, put_product-Keeps,
      jump_register-Keeps,
    )

    pub exec_special-Keeps :
        (l : Special) (f : Fields) → Keeps (Guest others) (exec_special handler l f)
    unfolding exec_special
    exec_special-Keeps sll f = search special_rules depth 12
    exec_special-Keeps srl f = search special_rules depth 12
    exec_special-Keeps sra f = search special_rules depth 12
    exec_special-Keeps sllv f = search special_rules depth 12
    exec_special-Keeps srlv f = search special_rules depth 12
    exec_special-Keeps srav f = search special_rules depth 12
    exec_special-Keeps jr f = search special_rules depth 12
    exec_special-Keeps jalr f = search special_rules depth 12
    exec_special-Keeps syscall f = with_saved_pc-Keeps handler k
    exec_special-Keeps breakpoint f = search special_rules depth 12
    exec_special-Keeps sync f = search special_rules depth 12
    exec_special-Keeps mfhi f = search special_rules depth 12
    exec_special-Keeps mthi f = search special_rules depth 12
    exec_special-Keeps mflo f = search special_rules depth 12
    exec_special-Keeps mtlo f = search special_rules depth 12
    exec_special-Keeps mult f = search special_rules depth 12
    exec_special-Keeps multu f = search special_rules depth 12
    exec_special-Keeps div f = search special_rules depth 12
    exec_special-Keeps divu f = search special_rules depth 12
    exec_special-Keeps add f = search special_rules depth 12
    exec_special-Keeps addu f = search special_rules depth 12
    exec_special-Keeps sub f = search special_rules depth 12
    exec_special-Keeps subu f = search special_rules depth 12
    exec_special-Keeps and f = search special_rules depth 12
    exec_special-Keeps or f = search special_rules depth 12
    exec_special-Keeps xor f = search special_rules depth 12
    exec_special-Keeps nor f = search special_rules depth 12
    exec_special-Keeps slt f = search special_rules depth 12
    exec_special-Keeps sltu f = search special_rules depth 12
    exec_special-Keeps tge f = search special_rules depth 12
    exec_special-Keeps tgeu f = search special_rules depth 12
    exec_special-Keeps tlt f = search special_rules depth 12
    exec_special-Keeps tltu f = search special_rules depth 12
    exec_special-Keeps teq f = search special_rules depth 12
    exec_special-Keeps tne f = search special_rules depth 12
    exec_special-Keeps unknown f = search special_rules depth 12
