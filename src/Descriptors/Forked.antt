-- ===== src/Descriptors/Forked.antt =====
-- The descriptors of a process that forks (`cloneFrom` of src/process.js) and of one that is
-- finished (`closeFds`).
use noopsys.Base.{ℕ, ◌+◌}
use noopsys.Descriptors.{Objects, Fds, Files, append_fd, clone_fds}
use noopsys.Descriptors.Count.{count, IsTidy, IsCounted}

module _ (child : Fds) (held : ℕ → ℕ) (os : Objects) (o : ℕ) (tidy : IsTidy child)
    (c : IsCounted os (λ x. count child x + held x)) where
  -- What is right of an object, and the objects, that a descriptor of the child is given.
  abbrev Cloned : ℕ × Objects → Type 0
  Cloned r = IsCounted r.1 (λ x. count (append_fd r.0 child) x + held x)

-- What the loop of `cloneFrom` leaves.
abbrev Forked : (held : ℕ → ℕ) → Fds × Objects → Type 0
Forked held r = IsTidy r.0 × IsCounted r.1 (λ x. count r.0 x + held x)

abbrev pub no_fds : Fds
no_fds = record { table = λ _. 0; size = 0; bound = 0 }

abbrev pub child_of : Files → Fds × Objects
child_of s = clone_fds s.fds.size 0 s.fds.table no_fds s.objects
