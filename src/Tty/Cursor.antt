-- ===== src/Tty/Cursor.antt =====
-- The column that src/tty.js keeps, against the cursor of the screen that shows what it writes.
use noopsys.Base.{
  ℕ, zero, suc, ◌+◌, ◌-◌, ◌%◌, ◌≡◌, refl, sym, ap, ◌∙◌, Bool, true, false, not, ◌&&◌, List, [], ◌∷◌,
  ◌++◌, length, replicate, leb, ◌==◌, if◌then◌else◌, bit_and, inl, inr, Bool-cases, arith,
  append_assoc, append-nil,
}
use mathlib.Core.Path.{ap₂}
use noopsys.Base.Word.{meets}
use noopsys.Constants.{opost, onlret, onlcr, ocrnl, onocr, xtabs, tabdly, iutf8}
use noopsys.Tty.{
  Tty, is_continuation, emit, move, put_newline, put_return, put_tab, put_other, do_output_char,
  output_all, write,
}

-- A screen: whether a new line also goes back to the first column, and whether it shows UTF-8.
pub record Screen : Type 0 where
  pub returns : Bool
  pub utf8 : Bool

-- The column after one byte.
unfoldable pub after_byte : Screen → ℕ → ℕ → ℕ
after_byte screen column c =
    if c == 0xa
    then (if screen.returns then 0 else column)
    else if c == 0xd
    then 0
    else if c == 0x9
    then column + (8 - column % 8)
    else if c == 0x8
    then column - 1
    else if leb 32 c && not (screen.utf8 && (bit_and c 0xc0 == 0x80))
    then column + 1
    else column

unfoldable pub cursor : Screen → ℕ → List ℕ → ℕ
cursor screen column [] = column
cursor screen column (c ∷ cs) = cursor screen (after_byte screen column c) cs

unfoldable pub screen_of : Tty → Screen
screen_of tty = record { returns = meets tty.c_oflag onlret; utf8 = meets tty.c_iflag iutf8 }

cursor-append :
    (screen : Screen) (column : ℕ) (xs ys : List ℕ)
    → cursor screen column (xs ++ ys) ≡ cursor screen (cursor screen column xs) ys
unfolding cursor
cursor-append screen column [] ys = refl
cursor-append screen column (x ∷ xs) ys = cursor-append screen (after_byte screen column x) xs ys

cursor-spaces :
    (screen : Screen) (column n : ℕ) → cursor screen column (replicate n 0x20) ≡ column + n
unfolding cursor after_byte
cursor-spaces screen column zero = omega arith
cursor-spaces screen column (suc n) =
    let one : (if not (screen.utf8 && false) then column + 1 else column) ≡ column + 1 =
      ground arith in
    ap (λ k. cursor screen k (replicate n 0x20)) one
    ∙ cursor-spaces screen (column + 1) n
    ∙ omega arith

-- One state after another: what was written in between moves the cursor to the new column, and the
-- flags are the same.
pub record Shows (before after : Tty) : Type 0 where
  pub output : List ℕ
  pub appended : after.written ≡ before.written ++ output
  pub shown : after.column ≡ cursor (screen_of before) before.column output
  pub same_oflag : after.c_oflag ≡ before.c_oflag
  pub same_iflag : after.c_iflag ≡ before.c_iflag

Shows-newline : (tty : Tty) → Shows tty (put_newline tty)
unfolding put_newline emit cursor after_byte screen_of
Shows-newline tty = record {
  output = if meets tty.c_oflag onlcr then 0xd ∷ (0xa ∷ []) else 0xa ∷ [];
  appended = ground arith;
  shown = ground arith;
  same_oflag = ground arith;
  same_iflag = ground arith;
}

Shows-return : (tty : Tty) → Shows tty (put_return tty)
unfolding put_return emit cursor after_byte screen_of
Shows-return tty = record {
  output =
      if meets tty.c_oflag onocr && (tty.column == 0)
      then []
      else (if meets tty.c_oflag ocrnl then 0xa ∷ [] else 0xd ∷ []);
  appended = ground (arith, append-nil tty.written);
  shown = ground arith;
  same_oflag = ground arith;
  same_iflag = ground arith;
}

Shows-tab : (tty : Tty) → Shows tty (put_tab tty)
unfolding put_tab emit cursor after_byte screen_of
Shows-tab tty = record {
  output =
      if bit_and tty.c_oflag tabdly == xtabs then replicate (8 - tty.column % 8) 0x20 else 0x9 ∷ [];
  appended = ground arith;
  shown = ground (arith, cursor-spaces (screen_of tty) tty.column (8 - tty.column % 8));
  same_oflag = ground arith;
  same_iflag = ground arith;
}

Shows-other :
    (c : ℕ) (tty : Tty)
    → (c == 0xa) ≡ false
    → (c == 0xd) ≡ false
    → (c == 0x9) ≡ false
    → (c == 0x8) ≡ false
    → Shows tty (put_other c tty)
unfolding put_other is_continuation emit cursor after_byte screen_of
Shows-other c tty a b d e = record {
  output = c ∷ [];
  appended = ground arith;
  shown = ground arith;
  same_oflag = ground arith;
  same_iflag = ground arith;
}

Shows-back : (tty : Tty) → Shows tty (emit (0x8 ∷ []) (move (tty.column - 1) tty))
unfolding emit cursor after_byte screen_of
Shows-back tty = record {
  output = 0x8 ∷ [];
  appended = refl;
  shown = refl;
  same_oflag = refl;
  same_iflag = refl;
}

Shows-do_output_char : (c : ℕ) (tty : Tty) → Shows tty (do_output_char c tty)
unfolding do_output_char
Shows-do_output_char c tty = elim (Bool-cases (c == 0xa)) [
  | inl a ↦ rw (a) (Shows-newline tty)
  | inr a ↦ elim (Bool-cases (c == 0xd)) [
    | inl b ↦ rw (a, b) (Shows-return tty)
    | inr b ↦ elim (Bool-cases (c == 0x9)) [
      | inl d ↦ rw (a, b, d) (Shows-tab tty)
      | inr d ↦ elim (Bool-cases (c == 0x8)) [
        | inl e ↦ rw (a, b, d, e) (Shows-back tty)
        | inr e ↦ rw (a, b, d, e) (Shows-other c tty a b d e)
      ]
    ]
  ]
]

Shows-output_all : (cs : List ℕ) (tty : Tty) → Shows tty (output_all cs tty)
unfolding output_all cursor
Shows-output_all [] tty = record {
  output = [];
  appended = sym (append-nil tty.written);
  shown = refl;
  same_oflag = refl;
  same_iflag = refl;
}
Shows-output_all (c ∷ cs) tty =
    let first = Shows-do_output_char c tty in
    let rest = Shows-output_all cs (do_output_char c tty) in
    let screen : screen_of (do_output_char c tty) ≡ screen_of tty =
      unfold screen_of in
      ap₂ (λ o i. record { returns = meets o onlret; utf8 = meets i iutf8 }) first.same_oflag
        first.same_iflag in
    record {
      output = first.output ++ rest.output;
      appended =
          rest.appended
          ∙ ap (λ w. w ++ rest.output) first.appended
          ∙ append_assoc tty.written first.output rest.output;
      shown =
          rest.shown
          ∙ ap₂ (λ s k. cursor s k rest.output) screen first.shown
          ∙ sym (cursor-append (screen_of tty) tty.column first.output rest.output);
      same_oflag = rest.same_oflag ∙ first.same_oflag;
      same_iflag = rest.same_iflag ∙ first.same_iflag;
    }

-- With output processing on, whatever the other flags are, `write` answers the number of characters
-- given to it, it only appends to what was written before, and the column that it then keeps is
-- where a screen's cursor stands which was in the old column and has shown what was appended.
pub write-cursor :
    (cs : List ℕ) (tty : Tty)
    → meets tty.c_oflag opost ≡ true
    → ((write cs tty).0 ≡ length cs)
      × ((output : List ℕ) × ((write cs tty).1.written ≡ tty.written ++ output)
          × ((write cs tty).1.column ≡ cursor (screen_of tty) tty.column output))
unfolding write
write-cursor cs tty processed =
    let all = Shows-output_all cs tty in
    rw (processed) (refl, (all.output, all.appended, all.shown))
