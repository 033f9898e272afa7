-- ===== src/Tty.antt =====
-- The terminal, src/tty.js: what is typed at it and what programs write to it.
-- `written` is what went to `writeStream`, `sent` the signals given to the group's process.
pub mod Cursor
pub mod Echo
pub mod Tests
use noopsys.Base.{
  ℕ, zero, suc, ◌+◌, ◌-◌, ◌%◌, ◌^◌, Bool, true, false, not, ◌&&◌, Option, none, some, List, [], ◌∷◌,
  ◌++◌, length, get_or, replicate, ltb, leb, ◌==◌, if◌then◌else◌, bit_and,
}
use noopsys.Base.Word.{meets}
use noopsys.Base.Result.{no_group, Result, ok, err}
use noopsys.Constants.{
  inlcr, igncr, icrnl, istrip, ixon, iutf8, opost, onlcr, ocrnl, onocr, onlret, tabdly, xtabs,
  isig_flag, echo, extproc, vintr, vquit, vstart, vstop, vsusp, sigint, sigquit, sigtstp,
}

pub record Tty : Type 0 where
  pub c_iflag : ℕ
  pub c_oflag : ℕ
  pub c_lflag : ℕ
  pub c_cc : List ℕ
  pub queued : List ℕ
  pub column : ℕ
  pub canon_column : ℕ
  pub written : List ℕ
  pub sent : List ℕ
  -- Whether `processes[this.pgrp-1]` is a process.
  pub has_group : Bool

-- `new TTY(reads, writes)`: ICRNL and IXON; OPOST and ONLCR; ISIG, ICANON, ECHO, ECHOE, ECHOK,
-- ECHOCTL, ECHOKE and IEXTEN. The group is 0, so there is no such process.
unfoldable pub new_tty : Tty
new_tty = record {
  c_iflag = 0x500;
  c_oflag = 0x5;
  c_lflag = 0xb3b;
  c_cc =
      3
      ∷ (28
          ∷ (127
              ∷ (21
                  ∷ (1
                      ∷ (0
                          ∷ (0
                              ∷ (0
                                  ∷ (17
                                      ∷ (19
                                          ∷ (26
                                              ∷ (0
                                                  ∷ (18
                                                      ∷ (15
                                                          ∷ (23
                                                            ∷ (22
                                                            ∷ (4
                                                            ∷ (0
                                                            ∷ (0
                                                            ∷ (0
                                                            ∷ (0
                                                            ∷ (0 ∷ (0 ∷ []))))))))))))))))))))));
  queued = [];
  column = 0;
  canon_column = 0;
  written = [];
  sent = [];
  has_group = false;
}

unfoldable pub is_continuation : Tty → ℕ → Bool
is_continuation tty c = meets tty.c_iflag iutf8 && (bit_and c 0xc0 == 0x80)

unfoldable pub queue : ℕ → Tty → Tty
queue c tty = record tty { queued = tty.queued ++ (c ∷ []) }

-- `this.writeStream.write(null, …)`
unfoldable pub emit : List ℕ → Tty → Tty
emit cs tty = record tty { written = tty.written ++ cs }

abbrev pub move : ℕ → Tty → Tty
move n tty = record tty { column = n }

abbrev pub move_both : ℕ → Tty → Tty
move_both n tty = record tty { column = n; canon_column = n }

-- The cases of `do_output_char`, one function each.
unfoldable pub put_newline : Tty → Tty
put_newline tty =
    let back = if meets tty.c_oflag onlret then move 0 tty else tty in
    if meets tty.c_oflag onlcr
    then emit (0xd ∷ (0xa ∷ [])) (move_both 0 back)
    else emit (0xa ∷ []) (record back { canon_column = back.column })

unfoldable pub put_return : Tty → Tty
put_return tty =
    if meets tty.c_oflag onocr && (tty.column == 0)
    then tty
    else if meets tty.c_oflag ocrnl
    then (if meets tty.c_oflag onlret
        then emit (0xa ∷ []) (move_both 0 tty)
        else emit (0xa ∷ []) tty)
    else emit (0xd ∷ []) (move_both 0 tty)

unfoldable pub put_tab : Tty → Tty
put_tab tty =
    let spaces = 8 - tty.column % 8 in
    if bit_and tty.c_oflag tabdly == xtabs
    then emit (replicate spaces 0x20) (move (tty.column + spaces) tty)
    else emit (0x9 ∷ []) (move (tty.column + spaces) tty)

unfoldable pub put_other : ℕ → Tty → Tty
put_other c tty =
    if leb 32 c && not (is_continuation tty c)
    then emit (c ∷ []) (move (tty.column + 1) tty)
    else emit (c ∷ []) tty

unfoldable pub do_output_char : ℕ → Tty → Tty
do_output_char c tty =
    if c == 0xa
    then put_newline tty
    else if c == 0xd
    then put_return tty
    else if c == 0x9
    then put_tab tty
    else if c == 0x8
    then emit (0x8 ∷ []) (move (tty.column - 1) tty)
    else put_other c tty

unfoldable pub output_all : List ℕ → Tty → Tty
output_all [] tty = tty
output_all (c ∷ cs) tty = output_all cs (do_output_char c tty)

unfoldable pub write : List ℕ → Tty → ℕ × Tty
write cs tty = (length cs, if meets tty.c_oflag opost then output_all cs tty else emit cs tty)

unfoldable pub isig : ℕ → Tty → Result Tty
isig signo tty =
    if tty.has_group then ok (record tty { sent = tty.sent ++ (signo ∷ []) }) else err no_group

-- What `receive_char_special` makes of a character that is not special: nothing, or another.
unfoldable pub translate : Tty → ℕ → Option ℕ
translate tty c =
    if c == 0xd
    then (if meets tty.c_iflag igncr
        then none
        else if meets tty.c_iflag icrnl
        then some 0xa
        else some c)
    else if (c == 0xa) && meets tty.c_iflag inlcr
    then some 0xd
    else some c

-- The end of `receive_char_special`: the echo, and the queue.
unfoldable pub accept : Option ℕ → Tty → Tty
accept none tty = tty
accept (some c) tty = queue c (if meets tty.c_lflag echo then emit (c ∷ []) tty else tty)

unfoldable pub is_special : Tty → (place c : ℕ) → Bool
is_special tty place c = c == get_or tty.c_cc place 0

-- Flow control is not there yet: the characters that start and stop the output are dropped.
unfoldable pub receive_char_special : ℕ → Tty → Result Tty
receive_char_special c tty =
    let signals = meets tty.c_lflag isig_flag in
    if meets tty.c_iflag ixon && is_special tty vstart c
    then ok tty
    else if meets tty.c_iflag ixon && is_special tty vstop c
    then ok tty
    else if signals && is_special tty vintr c
    then isig sigint tty
    else if signals && is_special tty vquit c
    then isig sigquit tty
    else if signals && is_special tty vsusp c
    then isig sigtstp tty
    else ok (accept (translate tty c) tty)

unfoldable pub receive_char : ℕ → Tty → Result Tty
receive_char c tty =
    let c' = if meets tty.c_iflag istrip then c % 2 ^ 7 else c in
    if meets tty.c_lflag extproc then ok (queue c' tty) else receive_char_special c' tty

-- `update`, with the characters that `readStream.read` gave.
unfoldable pub update : List ℕ → Tty → Result Tty
update [] tty = ok tty
update (c ∷ cs) tty = elim (receive_char c tty) [ ok t ↦ update cs t | err e ↦ err e ]

-- `read`, with what `readStream.read` answers: `none` is `-EAGAIN`. The answer is a count.
unfoldable pub read : ℕ → Option (List ℕ) → Tty → Result (Option ℕ × Tty)
read size arrived tty =
    if not (length tty.queued == 0) then ok (some (length tty.queued), tty) else elim arrived [
      | none ↦ ok (none, tty)
      | some cs ↦ elim (update cs tty) [
        | ok t ↦ ok (some (if ltb size (length t.queued) then size else length t.queued), t)
        | err e ↦ err e
      ]
    ]
