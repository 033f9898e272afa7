-- ===== src/Descriptors/Calls.antt =====
-- The calls of src/syscalls.js that change the table of descriptors.
use noopsys.Base.{
  ltb, ap, max, ◌<◌, ℕ, zero, suc, ◌+◌, ◌-◌, ◌≤◌, ◌≡◌, ◌≢◌, refl, arith, ◌==◌, inl, inr, Bool-cases,
}
use noopsys.Base.Result.{Result, ok}
use noopsys.Space.Count.{mapped-pos}
use noopsys.Descriptors.{
  writer, reader, Objects, Fds, Files, max_length, set_fd, append_fd, push_fd, add_object, add_ref,
  close_old, Answer, returned, ebadf, einval, two_ends, sys_dup, sys_dup2, sys_pipe, sys_close,
  sys_fcntl64, free_fd, f_dupfd, f_setfd,
}
use noopsys.Descriptors.Count.{
  count, IsTidy, IsCounted, set_fd-count, set_fd-IsTidy, append_fd-count, append_fd-IsTidy,
}
use noopsys.Descriptors.Refs.{add_ref-IsCounted, close_object-IsCounted, add_object-IsCounted}

-- The descriptors of a process are well formed: nothing lies behind the end of the table, and the
-- counters of the pipes count the descriptors of this process and the `elsewhere o` of others.
pub record IsWell (elsewhere : ℕ → ℕ) (s : Files) : Type 0 where
  pub tidy : IsTidy s.fds
  pub counted : IsCounted s.objects (λ o. count s.fds o + elsewhere o)

-- A call that returns leaves the descriptors well formed.
abbrev pub Well : (ℕ → ℕ) → Result (Answer × Files) → Type 0
Well elsewhere r = (a : Answer) × (s : Files) × (r ≡ ok (a, s)) × IsWell elsewhere s

-- A descriptor that refers to something is one of the table.
pub count-pos : (fds : Fds) (i : ℕ) → IsTidy fds → fds.table i ≢ 0 → 1 ≤ count fds (fds.table i)
count-pos fds i tidy some_o = elim (Bool-cases (ltb i fds.size)) [
  | inl inside ↦ mapped-pos fds.size fds.table i (ground arith)
  | inr outside ↦ absurd (some_o (tidy i (ground arith)))
]

push_fd-runs : (o : ℕ) (fds : Fds) → fds.size < max_length → push_fd o fds ≡ ok (append_fd o fds)
unfolding push_fd
push_fd-runs o fds room = ground arith

module _ (elsewhere : ℕ → ℕ) (s : Files) (well : IsWell elsewhere s) where
  -- A descriptor without an object, set to an object that has one already.
  shared-IsWell :
      (fd i : ℕ)
      → s.fds.table fd ≢ 0
      → s.fds.table i ≡ 0
      → i < max_length
      → IsWell elsewhere (record {
        objects = add_ref (s.fds.table fd) s.objects;
        fds = set_fd i (s.fds.table fd) s.fds;
      })
  shared-IsWell fd i some_o empty index = record {
    tidy = set_fd-IsTidy s.fds i (s.fds.table fd) (λ _. index) well.tidy;
    counted =
        add_ref-IsCounted s.objects (λ o. count s.fds o + elsewhere o)
          (λ o. count (set_fd i (s.fds.table fd) s.fds) o + elsewhere o) (s.fds.table fd) some_o
          (omega (arith, count-pos s.fds fd well.tidy some_o))
          (λ x some_x.
            ground (arith, set_fd-count s.fds i (s.fds.table fd) x (λ _. index) well.tidy some_x))
          well.counted;
  }

  sys_dup-Well : (fd : ℕ) → s.fds.size < max_length → Well elsewhere (sys_dup fd s)
  unfolding sys_dup
  sys_dup-Well fd room = elim (Bool-cases (s.fds.table fd == 0)) [
    | inl e ↦ (ebadf, s, rw (e) refl, well)
    | inr e ↦
        let o = s.fds.table fd in
        let some_o : o ≢ 0 = λ z. ground arith in
        (
          returned s.fds.size,
          record { objects = add_ref o s.objects; fds = append_fd o s.fds },
          rw (e, push_fd-runs o s.fds room) refl,
          record {
            tidy = append_fd-IsTidy s.fds o well.tidy;
            counted =
                add_ref-IsCounted s.objects (λ x. count s.fds x + elsewhere x)
                  (λ x. count (append_fd o s.fds) x + elsewhere x) o some_o
                  (omega (arith, count-pos s.fds fd well.tidy some_o))
                  (λ x some_x. omega (arith, append_fd-count s.fds o x well.tidy some_x))
                  well.counted;
          },
        )
  ]

  free_fd-below :
      (n f : ℕ) → f < max_length → s.fds.size < max_length → free_fd n f s.fds.table < max_length
  unfolding free_fd
  free_fd-below zero f h room = h
  free_fd-below (suc n) f h room = elim (Bool-cases (s.fds.table f == 0)) [
    | inl e ↦ rw (e) h
    | inr e ↦ elim (Bool-cases (ltb f s.fds.size)) [
      | inl inside ↦ rw (e) (free_fd-below n (f + 1) (ground arith) room)
      | inr outside ↦ absurd (let z = well.tidy f (ground arith) in ground arith)
    ]
  ]

  free_fd-free : (n f : ℕ) → s.fds.size ≤ f + n → s.fds.table (free_fd n f s.fds.table) ≡ 0
  unfolding free_fd
  free_fd-free zero f h = well.tidy f (omega arith)
  free_fd-free (suc n) f h = ground (arith, free_fd-free n (f + 1))

  sys_fcntl64-Well :
      (fd cmd arg : ℕ)
      → arg < max_length
      → s.fds.size < max_length
      → Well elsewhere (sys_fcntl64 fd cmd arg s)
  unfolding sys_fcntl64
  sys_fcntl64-Well fd cmd arg index room =
      let n = max s.fds.size s.fds.bound - arg in
      elim (Bool-cases (s.fds.table fd == 0)) [
        | inl e ↦ (ebadf, s, rw (e) refl, well)
        | inr e ↦ elim (Bool-cases (cmd == f_dupfd)) [
          | inl d ↦ (
            returned (free_fd n arg s.fds.table),
            _,
            rw (e, d) refl,
            shared-IsWell fd (free_fd n arg s.fds.table) (λ z. ground arith)
                (free_fd-free n arg (ground arith)) (free_fd-below n arg index room),
          )
          | inr d ↦ elim (Bool-cases (cmd == f_setfd)) [
            | inl t ↦ (returned 0, s, rw (e, d, t) refl, well)
            | inr t ↦ (einval, s, rw (e, d, t) refl, well)
          ]
        ]
      ]

  sys_close-Well : (fd : ℕ) → Well elsewhere (sys_close fd s)
  unfolding sys_close
  sys_close-Well fd = elim (Bool-cases (s.fds.table fd == 0)) [
    | inl e ↦ (ebadf, s, rw (e) refl, well)
    | inr e ↦
        let (os, closed, counted) =
          close_object-IsCounted s.objects (λ o. count s.fds o + elsewhere o)
            (λ o. count (set_fd fd 0 s.fds) o + elsewhere o) (s.fds.table fd) (λ z. ground arith)
            (λ x some_x.
              ground (arith, set_fd-count s.fds fd 0 x (λ ne. absurd (ne refl)) well.tidy some_x))
            well.counted in
        (
          returned 0,
          record { objects = os; fds = set_fd fd 0 s.fds },
          rw (e, closed) refl,
          record {
            tidy = set_fd-IsTidy s.fds fd 0 (λ ne. absurd (ne refl)) well.tidy;
            counted = counted;
          },
        )
  ]

  -- After the object of `i`, if there is one, is closed.
  pub close_old-IsCounted :
      (i : ℕ)
      → (os : Objects) × (close_old (s.fds.table i) s.objects ≡ ok os)
        × IsCounted os (λ o. count (set_fd i 0 s.fds) o + elsewhere o)
  unfolding close_old
  close_old-IsCounted i = elim (Bool-cases (s.fds.table i == 0)) [
    | inl e ↦ (
      s.objects,
      rw (e) refl,
      record {
        counted = λ o refs some_o is_writer. ground (
          arith,
          set_fd-count s.fds i 0 o (λ ne. absurd (ne refl)) well.tidy some_o,
          well.counted.counted o refs some_o is_writer,
        );
        fresh = λ o h. ground (
          arith,
          set_fd-count s.fds i 0 o (λ ne. absurd (ne refl)) well.tidy,
          well.counted.fresh o h,
          well.counted.some_next,
        );
        some_next = well.counted.some_next;
      },
    )
    | inr e ↦
        let (os, closed, counted) =
          close_object-IsCounted s.objects (λ o. count s.fds o + elsewhere o)
            (λ o. count (set_fd i 0 s.fds) o + elsewhere o) (s.fds.table i) (λ z. ground arith)
            (λ x some_x.
              ground (arith, set_fd-count s.fds i 0 x (λ ne. absurd (ne refl)) well.tidy some_x))
            well.counted in
        (os, rw (e) closed, counted)
  ]

  sys_dup2-Well : (oldfd newfd : ℕ) → newfd < max_length → Well elsewhere (sys_dup2 oldfd newfd s)
  unfolding sys_dup2
  sys_dup2-Well oldfd newfd index = elim (Bool-cases (oldfd == newfd)) [
    | inl same ↦ (returned newfd, s, rw (same) refl, well)
    | inr apart ↦ elim (Bool-cases (s.fds.table oldfd == 0)) [
      | inl e ↦ (ebadf, s, rw (apart, e) refl, well)
      | inr e ↦
          let (os, closed, counted) = close_old-IsCounted newfd in
          let o = s.fds.table oldfd in
          let left : (set_fd newfd 0 s.fds).table oldfd ≡ o = unfold set_fd in ground arith in
          let some_o : o ≢ 0 = λ z. ground arith in
          let used =
            count-pos (set_fd newfd 0 s.fds) oldfd
              (set_fd-IsTidy s.fds newfd 0 (λ ne. absurd (ne refl)) well.tidy) (rw left some_o) in
          (
            returned newfd,
            record { objects = add_ref o os; fds = set_fd newfd o s.fds },
            rw (apart, e, closed) refl,
            record {
              tidy = set_fd-IsTidy s.fds newfd o (λ _. index) well.tidy;
              counted =
                  add_ref-IsCounted os (λ x. count (set_fd newfd 0 s.fds) x + elsewhere x)
                    (λ x. count (set_fd newfd o s.fds) x + elsewhere x) o some_o
                    (omega (arith, ap (count (set_fd newfd 0 s.fds)) left, used))
                    (λ x some_x. ground (
                      arith,
                      set_fd-count s.fds newfd o x (λ _. index) well.tidy some_x,
                      set_fd-count s.fds newfd 0 x (λ ne. absurd (ne refl)) well.tidy some_x,
                    ))
                    counted;
            },
          )
    ]
  ]

  sys_pipe-Well : s.fds.size + 1 < max_length → Well elsewhere (sys_pipe s)
  unfolding sys_pipe add_object append_fd
  sys_pipe-Well room =
      let out = s.objects.next in
      let one = append_fd out s.fds in
      let two = append_fd (out + 1) one in
      let tidy = append_fd-IsTidy s.fds out well.tidy in
      let unused = well.counted.fresh out (omega arith) in
      let some_out = well.counted.some_next in
      let room' : one.size < max_length = unfold append_fd in room in
      let first =
        add_object-IsCounted s.objects (λ o. count s.fds o + elsewhere o)
          (λ o. count one o + elsewhere o) (writer 1)
          (λ refs e. ground (arith, append_fd-count s.fds out out well.tidy))
          (λ x some_x new. ground (arith, append_fd-count s.fds out x well.tidy some_x))
          well.counted in
      (
        two_ends (s.fds.size + 1) s.fds.size,
        record { objects = add_object reader (add_object (writer 1) s.objects); fds = two },
        rw (sys_pipe, push_fd-runs out s.fds (omega arith), push_fd-runs (out + 1) one room') refl,
        record {
          tidy = append_fd-IsTidy one (out + 1) tidy;
          counted =
              add_object-IsCounted (add_object (writer 1) s.objects)
                (λ o. count one o + elsewhere o) (λ o. count two o + elsewhere o) reader
                (λ refs e. absurd (cc))
                (λ x some_x new.
                  unfold add_object in ground (arith, append_fd-count one (out + 1) x tidy some_x))
                first;
        },
      )

-- The calls that change the table.
pub data Call : Type 0 where
  dup close : (fd : ℕ) → Call
  dup2 : (oldfd newfd : ℕ) → Call
  fcntl64 : (fd cmd arg : ℕ) → Call
  pipe : Call

unfoldable pub call : Call → Files → Result (Answer × Files)
call (dup fd) s = sys_dup fd s
call (close fd) s = sys_close fd s
call (dup2 oldfd newfd) s = sys_dup2 oldfd newfd s
call (fcntl64 fd cmd arg) s = sys_fcntl64 fd cmd arg s
call pipe s = sys_pipe s

-- The number from the program at which a call may set a descriptor.
abbrev pub number : Call → ℕ
number (dup fd) = 0
number (close fd) = 0
number (dup2 oldfd newfd) = newfd
number (fcntl64 fd cmd arg) = arg
number pipe = 0

-- When the number at which `dup2` or `fcntl64` is asked to set a descriptor is an index of an array,
-- below 2^32 - 1, and the array has room for two more, then `dup`, `dup2`, `pipe`, `close` and
-- `fcntl64` of any descriptors never fail on a pipe that is closed already, and afterwards the
-- counter of each writer of a pipe is again the number of descriptors, of this process and of
-- others, that refer to it. Before the call nothing lies behind the end of the array, and the
-- counters are right.
pub call-IsWell :
    (elsewhere : ℕ → ℕ) (c : Call) (s : Files)
    → number c < max_length
    → s.fds.size + 1 < max_length
    → IsWell elsewhere s
    → Well elsewhere (call c s)
unfolding call
call-IsWell elsewhere (dup fd) s index room well = sys_dup-Well elsewhere s well fd (omega arith)
call-IsWell elsewhere (close fd) s index room well = sys_close-Well elsewhere s well fd
call-IsWell elsewhere (dup2 oldfd newfd) s index room well =
    sys_dup2-Well elsewhere s well oldfd newfd index
call-IsWell elsewhere (fcntl64 fd cmd arg) s index room well =
    sys_fcntl64-Well elsewhere s well fd cmd arg index (omega arith)
call-IsWell elsewhere pipe s index room well = sys_pipe-Well elsewhere s well room
