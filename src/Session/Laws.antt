-- ===== src/Session/Laws.antt =====
-- What the calls of src/syscalls.js about sessions do together, and how a program reads the value
-- of a call from its registers.
use noopsys.Base.{
  ℕ, suc, ◌+◌, ◌%◌, ◌^◌, ◌<◌, ◌≡◌, ◌≢◌, refl, true, false, none, some, ◌==◌, if◌then◌else◌, arith,
  update,
}
use noopsys.Base.Int.{ℤ, pos, negsuc, to_uint32, to_int32}
use noopsys.Session.{Proc, eperm, returned, sys_setsid, set_controlling, negated, put_result}

-- How the C library of the program reads the registers 2 and 7, for a number of 32 bits with sign.
unfoldable pub decoded : (ℕ → ℕ) → ℤ
decoded regs = if regs 7 == 0 then pos (regs 2) else negated (pos (regs 2))

-- The numbers that 32 bits can hold.
pub data IsInt32 : ℤ → Type 0 where
  not_negative : (k : ℕ) → k < 2 ^ 31 → IsInt32 (pos k)
  negative : (k : ℕ) → k < 2 ^ 31 → IsInt32 (negsuc k)

put_pos :
    (k : ℕ) (regs : ℕ → ℕ)
    → k < 2 ^ 31
    → put_result true (pos k) regs ≡ update (update regs 2 k) 7 0
unfolding put_result
put_pos k regs h =
    let e : to_int32 (to_uint32 (pos k)) ≡ pos k = ground arith in
    let word : k % 2 ^ 32 ≡ k = omega arith in rw (e, word) refl

put_negsuc :
    (k : ℕ) (regs : ℕ → ℕ)
    → k < 2 ^ 31
    → put_result true (negsuc k) regs ≡ update (update regs 2 (suc k)) 7 1
unfolding put_result negated
put_negsuc k regs h =
    let e : to_int32 (to_uint32 (negsuc k)) ≡ negsuc k = ground arith in
    let word : (k + 1) % 2 ^ 32 ≡ suc k = omega arith in rw (e, word) refl

-- A value of 32 bits with sign that a call returns to a running process is what the program reads
-- from its registers, a negative one as an error, and no register but 2 and 7 is changed.
pub put_result-decoded :
    (ret : ℤ) (regs : ℕ → ℕ)
    → IsInt32 ret
    → (decoded (put_result true ret regs) ≡ ret)
      × ((r : ℕ) → r ≢ 2 → r ≢ 7 → put_result true ret regs r ≡ regs r)
unfolding decoded put_result
put_result-decoded _ regs (not_negative k h) =
    let e : put_result true (pos k) regs ≡ update (update regs 2 k) 7 0 = put_pos k regs h in
    rw e (refl, λ r not_2 not_7. ground arith)
put_result-decoded _ regs (negative k h) =
    let e : put_result true (negsuc k) regs ≡ update (update regs 2 (suc k)) 7 1 =
      put_negsuc k regs h in
    rw e (unfold negated in refl, λ r not_2 not_7. ground arith)

-- A process after `setsid`, and after it has taken the terminal `tty` then.
abbrev pub led : Proc → Proc
led p = (sys_setsid p).1

abbrev pub with_terminal : (tty : ℕ) → Proc → Proc
with_terminal tty p = (set_controlling tty 0 (led p)).1

-- A process that is no session leader becomes one by `setsid`, with its own number for its session
-- and group. It can take one terminal then that has no session, and the terminal gets its
-- session; a second terminal, or a second `setsid`, is refused, and changes nothing.
set_controlling-sys_setsid :
    (p : Proc) (tty other : ℕ)
    → p.leader ≡ false
    → (sys_setsid p ≡ (returned 0, led p))
      × (set_controlling tty 0 (led p) ≡ (some p.pid, with_terminal tty p))
      × ((with_terminal tty p).pgid ≡ p.pid)
      × ((with_terminal tty p).controlling ≡ some tty)
      × (set_controlling other 0 (with_terminal tty p) ≡ (none, with_terminal tty p))
      × (sys_setsid (with_terminal tty p) ≡ (eperm, with_terminal tty p))
unfolding sys_setsid set_controlling
set_controlling-sys_setsid p tty other no_leader =
    (ground arith, ground arith, ground arith, ground arith, ground arith, ground arith)
