-- ===== src/Cpu/Guest/Transfer.antt =====
-- Loads and stores (`runInstLoop` in src/process.js).
use noopsys.Base.{ℕ, ◌+◌, List, arith}
use noopsys.Base.Seal.{
  Keeps, modify, Keeps-pure, Keeps-gets, Keeps-if, Keeps-throw, Keeps->>=, Keeps->>,
}
use noopsys.Space.{Vm}
use noopsys.Cpu.{put_reg}
use noopsys.Cpu.Guest.{
  Guest, Guest-refl, Guest-trans, put_reg-Keeps, write_reg-Keeps, on_space-Keeps,
}
use noopsys.Space.Kept.{
  read8-Kept, read16-Kept, read32-Kept, write8-Kept, write16-Kept, write32-Kept,
}
use noopsys.Cpu.Decode.{Fields}
use noopsys.Cpu.Transfer.{
  lb, lh, lwl, lw, lbu, lhu, lwr, sb, sh, swl, sw, swr, ll, sc, lwc1, ldc1, swc1, sdc1,
}
use noopsys.Cpu.Loop.{exec_load, exec_store, exec_linked}

module _ (others : List Vm) where
  even_float-Keeps : (r v : ℕ) → Keeps (Guest others) (modify (put_reg (32 + r) v))
  even_float-Keeps r v = put_reg-Keeps others (32 + r) v (omega arith)

  odd_float-Keeps : (r v : ℕ) → Keeps (Guest others) (modify (put_reg (33 + r) v))
  odd_float-Keeps r v = put_reg-Keeps others (33 + r) v (omega arith)

  ruleset transfer_rules = (
    Keeps->>=, Keeps->>, Keeps-pure, Keeps-gets, Keeps-if, Keeps-throw, Guest-refl, Guest-trans,
    write_reg-Keeps, on_space-Keeps, read8-Kept, read16-Kept, read32-Kept, write8-Kept,
    write16-Kept, write32-Kept, even_float-Keeps, odd_float-Keeps,
  )

  lb-Keeps : (f : Fields) → Keeps (Guest others) (lb f)
  unfolding lb
  lb-Keeps f = search transfer_rules depth 16

  lh-Keeps : (f : Fields) → Keeps (Guest others) (lh f)
  unfolding lh
  lh-Keeps f = search transfer_rules depth 16

  lwl-Keeps : (f : Fields) → Keeps (Guest others) (lwl f)
  unfolding lwl
  lwl-Keeps f = search transfer_rules depth 16

  lw-Keeps : (f : Fields) → Keeps (Guest others) (lw f)
  unfolding lw
  lw-Keeps f = search transfer_rules depth 16

  lbu-Keeps : (f : Fields) → Keeps (Guest others) (lbu f)
  unfolding lbu
  lbu-Keeps f = search transfer_rules depth 16

  lhu-Keeps : (f : Fields) → Keeps (Guest others) (lhu f)
  unfolding lhu
  lhu-Keeps f = search transfer_rules depth 16

  lwr-Keeps : (f : Fields) → Keeps (Guest others) (lwr f)
  unfolding lwr
  lwr-Keeps f = search transfer_rules depth 16

  pub exec_load-Keeps : (f : Fields) → Keeps (Guest others) (exec_load f)
  unfolding exec_load
  exec_load-Keeps f =
      search
        (
          Keeps-if, Keeps-throw, Guest-refl, Guest-trans, lb-Keeps, lh-Keeps, lwl-Keeps, lw-Keeps,
          lbu-Keeps, lhu-Keeps, lwr-Keeps,
        )
        depth 20

  sb-Keeps : (f : Fields) → Keeps (Guest others) (sb f)
  unfolding sb
  sb-Keeps f = search transfer_rules depth 16

  sh-Keeps : (f : Fields) → Keeps (Guest others) (sh f)
  unfolding sh
  sh-Keeps f = search transfer_rules depth 16

  swl-Keeps : (f : Fields) → Keeps (Guest others) (swl f)
  unfolding swl
  swl-Keeps f = search transfer_rules depth 16

  sw-Keeps : (f : Fields) → Keeps (Guest others) (sw f)
  unfolding sw
  sw-Keeps f = search transfer_rules depth 16

  swr-Keeps : (f : Fields) → Keeps (Guest others) (swr f)
  unfolding swr
  swr-Keeps f = search transfer_rules depth 16

  pub exec_store-Keeps : (f : Fields) → Keeps (Guest others) (exec_store f)
  unfolding exec_store
  exec_store-Keeps f =
      search
        (
          Keeps-if, Keeps-throw, Guest-refl, Guest-trans, sb-Keeps, sh-Keeps, swl-Keeps, sw-Keeps,
          swr-Keeps,
        )
        depth 20

  ll-Keeps : (f : Fields) → Keeps (Guest others) (ll f)
  unfolding ll lw
  ll-Keeps f = search transfer_rules depth 16

  sc-Keeps : (f : Fields) → Keeps (Guest others) (sc f)
  unfolding sc
  sc-Keeps f = search transfer_rules depth 16

  lwc1-Keeps : (f : Fields) → Keeps (Guest others) (lwc1 f)
  unfolding lwc1
  lwc1-Keeps f = search transfer_rules depth 16

  ldc1-Keeps : (f : Fields) → Keeps (Guest others) (ldc1 f)
  unfolding ldc1
  ldc1-Keeps f = search transfer_rules depth 16

  swc1-Keeps : (f : Fields) → Keeps (Guest others) (swc1 f)
  unfolding swc1
  swc1-Keeps f = search transfer_rules depth 16

  sdc1-Keeps : (f : Fields) → Keeps (Guest others) (sdc1 f)
  unfolding sdc1
  sdc1-Keeps f = search transfer_rules depth 16

  pub exec_linked-Keeps : (f : Fields) → Keeps (Guest others) (exec_linked f)
  unfolding exec_linked
  exec_linked-Keeps f =
      search
        (
          Keeps-if, Keeps-throw, Guest-refl, Guest-trans, ll-Keeps, sc-Keeps, lwc1-Keeps,
          ldc1-Keeps, swc1-Keeps, sdc1-Keeps,
        )
        depth 20
