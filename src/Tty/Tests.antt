-- ===== src/Tty/Tests.antt =====
-- Runs of src/tty.js.
use noopsys.Base.{ℕ, ◌≡◌, ◌≤◌, refl, true, List, [], ◌∷◌, ◌++◌, length}
use noopsys.Base.Result.{ok}
use noopsys.Base.Word.{meets}
use noopsys.Tty.{Tty, new_tty, write, update}
use noopsys.Tty.Cursor.{cursor, screen_of, write-cursor}
use noopsys.Tty.Echo.{update-echo}

-- A new terminal whose group has a process.
abbrev terminal : Tty
terminal = record new_tty { has_group = true }

-- `a`, a tab, a new line and `b`.
abbrev line : List ℕ
line = 97 ∷ (9 ∷ (10 ∷ (98 ∷ [])))

write-cursor_example :
    ((write line terminal).0 ≡ length line)
    × ((output : List ℕ) × ((write line terminal).1.written ≡ terminal.written ++ output)
        × ((write line terminal).1.column ≡ cursor (screen_of terminal) terminal.column output))
unfolding new_tty meets
write-cursor_example = write-cursor line terminal refl

-- `a`, the interrupt character and a return.
abbrev keys : List ℕ
keys = 97 ∷ (3 ∷ (13 ∷ []))

update-echo_example :
    (t : Tty) × (update keys terminal ≡ ok t)
    × ((taken : List ℕ) × (length taken ≤ length keys)
        × (t.queued ≡ terminal.queued ++ taken)
        × (t.written ≡ terminal.written ++ taken))
unfolding new_tty meets
update-echo_example = update-echo keys terminal refl refl refl
