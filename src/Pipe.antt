-- ===== src/Pipe.antt =====
-- The pipes of src/noopfs.js, with the part of `sys_read` in src/syscalls.js that takes the data.
-- A writer and its reader are one record: `data` is the reader's, `refs` and `waiting`, the
-- processes of the callbacks, the writer's. `running` has the flag of each process.
pub mod Laws
pub mod Tests
use noopsys.Base.{
  ℕ, zero, suc, ◌+◌, ◌-◌, Bool, true, false, Option, none, some, List, [], ◌∷◌, ◌++◌, length, take,
  drop, ltb, leb, ◌==◌, if◌then◌else◌, update,
}
use noopsys.Base.Result.{Error, pipe_closed, Result, ok, err}

pub record Pipe : Type 0 where
  pub data_held : List ℕ
  pub refs : ℕ
  pub waiting : List ℕ
  pub running : ℕ → Bool

-- The answer of `read`: a count, `-EINVAL` or `-EAGAIN`.
pub data Answer : Type 0 where
  count : ℕ → Answer
  einval eagain : Answer

-- `new PipeWriter()` and `new PipeReader(outPipe)`, as `sys_pipe` makes them.
unfoldable pub new_pipe : (ℕ → Bool) → Pipe
new_pipe running = record { data_held = []; refs = 1; waiting = []; running = running }

-- The callbacks set the flags of their processes.
unfoldable pub run_callbacks : List ℕ → (ℕ → Bool) → ℕ → Bool
run_callbacks [] running = running
run_callbacks (p ∷ ps) running = run_callbacks ps (update running p true)

unfoldable pub write : List ℕ → Pipe → ℕ × Pipe
write cs pipe = (
  length cs,
  record {
    data_held = pipe.data_held ++ cs;
    refs = pipe.refs;
    waiting = [];
    running = run_callbacks pipe.waiting pipe.running;
  },
)

unfoldable pub close : Pipe → Result Pipe
close pipe =
    if pipe.refs == 0
    then err pipe_closed
    else if pipe.refs - 1 == 0
    then ok (record {
      data_held = pipe.data_held;
      refs = 0;
      waiting = [];
      running = run_callbacks pipe.waiting pipe.running;
    })
    else ok (record pipe { refs = pipe.refs - 1 })

unfoldable pub clone : Pipe → Pipe
clone pipe = record pipe { refs = pipe.refs + 1 }

-- The end of `read`, when there is nothing yet.
unfoldable pub wait : Option ℕ → Pipe → Answer × Pipe
wait none pipe = (einval, pipe)
wait (some p) pipe = (
  eagain,
  record {
    data_held = pipe.data_held;
    refs = pipe.refs;
    waiting = pipe.waiting ++ (p ∷ []);
    running = update pipe.running p false;
  },
)

-- `process` is missing when `sys_poll` asks.
unfoldable pub read : Option ℕ → ℕ → Pipe → Answer × Pipe
unfolding wait
read process size pipe =
    if leb size (length pipe.data_held)
    then (count size, pipe)
    else if pipe.refs == 0
    then (count (length pipe.data_held), pipe)
    else if leb 1 (length pipe.data_held)
    then (count (length pipe.data_held), pipe)
    else wait process pipe

-- What `sys_read` copies to the process after `read`, and what is left.
unfoldable pub taken : Answer × Pipe → Option (List ℕ) × Pipe
taken (count n, pipe) =
    (some (take n pipe.data_held), record pipe { data_held = drop n pipe.data_held })
taken (einval, pipe) = (none, pipe)
taken (eagain, pipe) = (none, pipe)

-- `sys_read` on a pipe.
unfoldable pub take_read : ℕ → ℕ → Pipe → Option (List ℕ) × Pipe
unfolding read taken
take_read p size pipe = taken (read (some p) size pipe)
