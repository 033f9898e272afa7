-- ===== src/Descriptors/Tests.antt =====
-- A shell that makes a pipe (src/syscalls.js), to run the calls on.
use noopsys.Base.{ltb, ◌≡◌, refl, arith, ◌==◌, if◌then◌else◌}
use noopsys.Base.Result.{ok}
use noopsys.Space.Count.{mapped}
use noopsys.Descriptors.{
  writer, reader, terminal, Files, set_fd, set_kind, add_ref, close_object, close_kind, counted_up,
  returned, sys_dup2, close_old,
}
use noopsys.Descriptors.Calls.{IsWell, Well, dup2, call, call-IsWell}

-- Descriptors 0 to 2 are the terminal, 3 is the writer of a pipe and 4 its reader.
abbrev shell : Files
shell = record {
  objects = record {
    kinds = λ o. if o == 2 then writer 1 else if o == 3 then reader else terminal;
    next = 4;
  };
  fds = record {
    table = λ i. if i == 3 then 2 else if i == 4 then 3 else if ltb i 3 then 1 else 0;
    size = 5;
    bound = 5;
  };
}

shell-IsWell : IsWell (λ _. 0) shell
unfolding mapped
shell-IsWell = record {
  tidy = λ i h. ground arith;
  counted = record {
    counted = λ o refs some_o w. ground arith;
    fresh = λ o h. ground arith;
    some_next = omega arith;
  };
}

-- The output of the shell goes to the pipe: the pipe has two writers then.
redirected :
    (s : Files) × (call (dup2 3 1) shell ≡ ok (returned 1, s)) × (s.objects.kinds 2 ≡ writer 2)
unfolding call sys_dup2 close_old close_object close_kind add_ref set_kind counted_up set_fd
redirected = (_, refl, refl)

call-IsWell_example : Well (λ _. 0) (call (dup2 3 1) shell)
call-IsWell_example = call-IsWell (λ _. 0) (dup2 3 1) shell (omega arith) (omega arith) shell-IsWell
