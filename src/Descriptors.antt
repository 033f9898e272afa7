-- ===== src/Descriptors.antt =====
-- The table of descriptors `fds` of a process: `sys_dup`, `sys_dup2`, `sys_pipe`, `sys_close` and
-- `sys_fcntl64` of src/syscalls.js, what `cloneFrom` and `closeFds` of src/process.js do with it,
-- and the reference counters that the writers of pipes keep (src/noopfs.js).
pub mod Count
pub mod Refs
pub mod Calls
pub mod Forked
pub mod Tests
use noopsys.Base.{
  ℕ, zero, suc, ◌+◌, ◌-◌, ◌^◌, max, Bool, Option, none, some, ltb, ◌==◌, if◌then◌else◌, update,
}
use noopsys.Base.Result.{Result, ok, err, pipe_closed, array_length}

-- What an object that a descriptor refers to is. A `PipeWriter` has `refs`; the others have no
-- counter, so what adds one to it has no effect on them.
pub data Kind : Type 0 where
  writer : (refs : ℕ) → Kind
  reader terminal : Kind
  file : (node pos : ℕ) → Kind

-- The objects, by a number from 1 on: a descriptor that is missing or null has the number 0. The
-- number of the next new object is `next`.
pub record Objects : Type 0 where
  pub kinds : ℕ → Kind
  pub next : ℕ

-- `size` is `fds.length`. From `bound` on no number was ever set: this is another number than `size`
-- only where a number was set that is no index of an array.
pub record Fds : Type 0 where
  pub table : ℕ → ℕ
  pub size : ℕ
  pub bound : ℕ

pub record Files : Type 0 where
  pub objects : Objects
  pub fds : Fds

-- The greatest length of an array.
abbrev pub max_length : ℕ
max_length = 2 ^ 32 - 1

-- `fds[i] = o`. From 2^32 - 1 on a number is no index of an array: the property is set, and the
-- length stays.
unfoldable pub set_fd : (i o : ℕ) → Fds → Fds
set_fd i o fds = record {
  table = update fds.table i o;
  size = if ltb i max_length then max fds.size (i + 1) else fds.size;
  bound = max fds.bound (i + 1);
}

-- An array with one more element.
unfoldable pub append_fd : ℕ → Fds → Fds
append_fd o fds = record {
  table = update fds.table fds.size o;
  size = fds.size + 1;
  bound = max fds.bound (fds.size + 1);
}

-- `fds.push(o)`
unfoldable pub push_fd : ℕ → Fds → Result Fds
push_fd o fds = if ltb fds.size max_length then ok (append_fd o fds) else err array_length

unfoldable pub set_kind : ℕ → Kind → Objects → Objects
set_kind o k os = record os { kinds = update os.kinds o k }

-- `new …`: the number of the object, and the objects with it.
unfoldable pub add_object : Kind → Objects → Objects
add_object k os = record { kinds = update os.kinds os.next k; next = os.next + 1 }

unfoldable pub counted_up : Kind → Kind
counted_up (writer refs) = writer (refs + 1)
counted_up reader = reader
counted_up terminal = terminal
counted_up (file node pos) = file node pos

-- `refs++`
unfoldable pub add_ref : ℕ → Objects → Objects
unfolding set_kind counted_up
add_ref o os = set_kind o (counted_up (os.kinds o)) os

-- `close`. What the end of the last writer does to the processes that wait is in `Pipe`.
unfoldable pub close_kind : Kind → Result Kind
close_kind (writer refs) = if refs == 0 then err pipe_closed else ok (writer (refs - 1))
close_kind reader = ok reader
close_kind terminal = ok terminal
close_kind (file node pos) = ok (file node pos)

unfoldable pub close_object : ℕ → Objects → Result Objects
close_object o os = elim (close_kind (os.kinds o)) [ ok k ↦ ok (set_kind o k os) | err e ↦ err e ]

-- What a call returns: a number; for `sys_pipe` two, of which the second goes to register 3.
pub data Answer : Type 0 where
  returned : ℕ → Answer
  two_ends : (infd outfd : ℕ) → Answer
  ebadf einval : Answer

unfoldable pub sys_dup : (fd : ℕ) → Files → Result (Answer × Files)
sys_dup fd s =
    let o = s.fds.table fd in
    if o == 0 then ok (ebadf, s) else elim (push_fd o s.fds) [
      | ok fds ↦ ok (returned s.fds.size, record { objects = add_ref o s.objects; fds = fds })
      | err e ↦ err e
    ]

-- `if (proc.fds[newfd]) proc.fds[newfd].close()`
unfoldable pub close_old : ℕ → Objects → Result Objects
close_old o os = if o == 0 then ok os else close_object o os

unfoldable pub sys_dup2 : (oldfd newfd : ℕ) → Files → Result (Answer × Files)
sys_dup2 oldfd newfd s =
    let o = s.fds.table oldfd in
    if oldfd == newfd
    then ok (returned newfd, s)
    else if o == 0
    then ok (ebadf, s)
    else elim (close_old (s.fds.table newfd) s.objects) [
      | ok os ↦ ok (returned newfd, record { objects = add_ref o os; fds = set_fd newfd o s.fds })
      | err e ↦ err e
    ]

unfoldable pub sys_pipe : Files → Result (Answer × Files)
sys_pipe s =
    let out = s.objects.next in
    elim (push_fd out s.fds) [
      | ok one ↦ elim (push_fd (out + 1) one) [
        | ok two ↦ ok (
          two_ends (s.fds.size + 1) s.fds.size,
          record { objects = add_object reader (add_object (writer 1) s.objects); fds = two },
        )
        | err e ↦ err e
      ]
      | err e ↦ err e
    ]

unfoldable pub sys_close : (fd : ℕ) → Files → Result (Answer × Files)
sys_close fd s =
    let o = s.fds.table fd in
    if o == 0 then ok (ebadf, s) else elim (close_object o s.objects) [
      | ok os ↦ ok (returned 0, record { objects = os; fds = set_fd fd 0 s.fds })
      | err e ↦ err e
    ]

-- `while (proc.fds[f]) f++`, with `n` rounds left: nothing is set from `size` and `bound` on.
unfoldable pub free_fd : (n f : ℕ) → (ℕ → ℕ) → ℕ
free_fd zero f table = f
free_fd (suc n) f table = let rest = free_fd n (f + 1) table in if table f == 0 then f else rest

abbrev pub f_dupfd : ℕ
f_dupfd = 0

abbrev pub f_setfd : ℕ
f_setfd = 2

unfoldable pub sys_fcntl64 : (fd cmd arg : ℕ) → Files → Result (Answer × Files)
sys_fcntl64 fd cmd arg s =
    let o = s.fds.table fd in
    let f = free_fd (max s.fds.size s.fds.bound - arg) arg s.fds.table in
    if o == 0
    then ok (ebadf, s)
    else if cmd == f_dupfd
    then ok (returned f, record { objects = add_ref o s.objects; fds = set_fd f o s.fds })
    else if cmd == f_setfd
    then ok (returned 0, s)
    else ok (einval, s)

-- `clone` of an object: a file is copied, the others are shared.
unfoldable pub clone_object : ℕ → Objects → ℕ × Objects
clone_object o os = elim (os.kinds o) [
  | writer refs ↦ (o, set_kind o (writer (refs + 1)) os)
  | reader ↦ (o, os)
  | terminal ↦ (o, os)
  | file node pos ↦ (os.next, add_object (file node pos) os)
]

-- `source.fds[n] ? source.fds[n].clone() : null`
unfoldable pub clone_entry : ℕ → Objects → ℕ × Objects
clone_entry o os = if o == 0 then (0, os) else clone_object o os

-- The loop of `cloneFrom` over the descriptors, `n` of them from number `i` on. What it pushes on is
-- shorter than the source, which is an array, so that there is room.
unfoldable pub clone_fds : (n i : ℕ) → (source : ℕ → ℕ) → (child : Fds) → Objects → Fds × Objects
clone_fds zero i source child os = (child, os)
clone_fds (suc n) i source child os =
    let (o, os') = clone_entry (source i) os in clone_fds n (i + 1) source (append_fd o child) os'

-- The loop of `closeFds`.
unfoldable pub close_fds : (n i : ℕ) → (table : ℕ → ℕ) → Objects → Result Objects
close_fds zero i table os = ok os
close_fds (suc n) i table os = elim (close_old (table i) os) [
  | ok os' ↦ close_fds n (i + 1) table os'
  | err e ↦ err e
]
