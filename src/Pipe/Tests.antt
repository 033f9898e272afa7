-- ===== src/Pipe/Tests.antt =====
-- The pipes of src/noopfs.js at work.
use noopsys.Base.{◌≡◌, refl, inl, true, false, some, [], ◌∷◌, ◌==◌, if◌then◌else◌}
use noopsys.Pipe.{Pipe, new_pipe, write, read, taken, take_read}
use noopsys.Pipe.Laws.{IsSettled, nobody, reads, Move-IsSettled, write-close-wakes}

abbrev fresh : Pipe
fresh = new_pipe λ _. true

-- Process 3 reads first, and waits.
abbrev blocked_pipe : Pipe
blocked_pipe = record {
  data_held = [];
  refs = 1;
  waiting = 3 ∷ [];
  running = λ p. if p == 3 then false else true;
}

Move-IsSettled_example : IsSettled (read (some 3) 10 fresh).1
unfolding new_pipe
Move-IsSettled_example =
    Move-IsSettled fresh (read (some 3) 10 fresh).1 (reads (some 3) 10 fresh) (nobody refl)

abbrev woken : Pipe
woken = (write (104 ∷ 105 ∷ []) blocked_pipe).1

write-close-wakes_example : (woken.running 3 ≡ true) × (woken.waiting ≡ [])
write-close-wakes_example =
    write-close-wakes (104 ∷ 105 ∷ []) blocked_pipe woken 0 3 refl (inl refl)

abbrev left : Pipe
left = (take_read 3 1 woken).1

takes_one : take_read 3 1 woken ≡ (some (104 ∷ []), left)
unfolding write read taken take_read
takes_one = refl
