-- ===== src/Processes/Clone/Child.antt =====
-- What `sys_clone` of src/syscalls.js makes of the caller and of its child.
use noopsys.Base.{
  ℕ, ◌+◌, ◌/◌, ◌%◌, ◌^◌, ◌<◌, ◌≡◌, ◌≢◌, refl, ap, ◌∙◌, true, ◌∷◌, map, length, arith,
}
use noopsys.Base.Int.{pos}
use noopsys.Base.Word.{byte_of, meets}
use noopsys.Base.Result.{Result, ok, err}
use noopsys.Constants.{clone_child_settid}
use noopsys.Space.{Space}
use noopsys.Space.Accessors.{read32}
use noopsys.Space.Safe.{local_pages, IsSafe, view}
use noopsys.Space.Views.{SameView}
use noopsys.Space.WordStore.{read32-view, read32-same}
use noopsys.Signals.{nsig, state_copy_count}
use noopsys.Processes.Clone.{
  Task, System, new_ids, invalidate_task, return_zero, clone_from, set_tid, start_child, sys_clone,
}
use noopsys.Processes.Clone.Memory.{
  tables, CanFork, clone_from_step, clone_from-IsShared, IsSafe-swap, set_tid-IsNumbered,
}

-- What has become of the system `s` once a child was made: the caller's memory reads as before, the
-- child's reads as the caller's but for the word at `ctid`, which holds the child's number if the
-- flags ask for it; the child's registers are the caller's but for a result of 0; it has the
-- caller's actions of signals; and the page tables are safe with the child among them.
pub record IsStarted (flags ctid : ℕ) (s : System) (pid : ℕ) (t : System) : Type 0 where
  pub child : Task
  pub are_others : t.others ≡ child ∷ map invalidate_task s.others
  pub is_pid : pid ≡ length s.others + 2
  pub is_ids : child.ids ≡ new_ids pid s.caller.ids
  pub is_caller : record t.caller { vm = s.caller.vm } ≡ s.caller
  pub safe : IsSafe t.phys (t.caller.vm ∷ tables t.others)
  pub kept : SameView s.phys s.caller.vm t.phys t.caller.vm
  pub same :
      (a : ℕ)
      → a / 65536 < local_pages
      → s.caller.vm.pagemap (a / 65536) ≢ 0
      → (meets flags clone_child_settid ≡ true → a / 4 ≢ ctid / 4)
      → (child.vm.pagemap (a / 65536) ≢ 0) × (view t.phys child.vm a ≡ view s.phys s.caller.vm a)
  pub tid :
      meets flags clone_child_settid ≡ true
      → (k : ℕ) → k < 4
      → view t.phys child.vm (ctid + k) ≡ byte_of pid k
  pub results : (child.state 2 ≡ 0) × (child.state 7 ≡ 0)
  pub registers : (n : ℕ) → n < state_copy_count → n ≢ 2 → n ≢ 7 → child.state n ≡ s.caller.state n
  pub actions : (n : ℕ) → n < nsig → child.actions n ≡ s.caller.actions n

-- How `start_child` comes to its result.
abbrev StartParts : (vdso_page flags ctid pid : ℕ) → (s t : System) → Type 0
StartParts vdso_page flags ctid pid s t =
    (child : Task) × (u : System) × (m : Space) × (clone_from vdso_page (length s.others + 2) s
      ≡ ok (child, u))
    × (set_tid flags ctid pid (record { phys = u.phys; vm = child.vm }) ≡ ok (tt, m))
    × (pid ≡ length s.others + 2)
    × (t ≡ record u { phys = m.phys; others = return_zero (record child { vm = m.vm }) ∷ u.others })

start_child_step :
    (vdso_page flags ctid pid : ℕ) (s t : System)
    → start_child vdso_page flags ctid s ≡ ok (pid, t)
    → StartParts vdso_page flags ctid pid s t
unfolding start_child
start_child_step vdso_page flags ctid pid s t h =
    go (clone_from vdso_page (length s.others + 2) s) refl
  where
    stored :
        (child : Task) (u : System) (r : Result (Unit {0} × Space))
        → clone_from vdso_page (length s.others + 2) s ≡ ok (child, u)
        → set_tid flags ctid (length s.others + 2) (record { phys = u.phys; vm = child.vm }) ≡ r
        → StartParts vdso_page flags ctid pid s t
    stored child u (ok (tt, m)) e w =
        let is_pid : pid ≡ length s.others + 2 = ground arith in
        (child, u, m, e, rw is_pid w, is_pid, ground arith)
    stored child u (err x) e w = absurd (ground arith)

    go :
        (r : Result (Task × System))
        → clone_from vdso_page (length s.others + 2) s ≡ r
        → StartParts vdso_page flags ctid pid s t
    go (ok (child, u)) e =
        stored child u
          (set_tid flags ctid (length s.others + 2) (record { phys = u.phys; vm = child.vm })) e
          refl
    go (err x) e = absurd (ground arith)

start_child-IsStarted :
    (vdso_page flags ctid pid : ℕ) (s t : System)
    → CanFork vdso_page s
    → ctid % 4 ≡ 0
    → ctid < 2 ^ 32
    → start_child vdso_page flags ctid s ≡ ok (pid, t)
    → IsStarted flags ctid s pid t
unfolding return_zero
start_child-IsStarted vdso_page flags ctid pid s t can aligned small h =
    let (child, u, m, cloned, stored, is_pid, is_t) =
      start_child_step vdso_page flags ctid pid s t h in
    let (vm, phys, forked, c) = clone_from_step vdso_page (length s.others + 2) s u child cloned in
    let shared =
      clone_from-IsShared vdso_page (length s.others + 2) s u child vm phys can forked c in
    let space : Space = record { phys = u.phys; vm = child.vm } in
    let w =
      set_tid-IsNumbered flags ctid pid (u.caller.vm ∷ tables u.others) space m aligned small
        shared.safe stored in
    rw is_t (record {
      child = return_zero (record child { vm = m.vm });
      are_others = rw c.are_others refl;
      is_pid = is_pid;
      is_ids = rw is_pid c.is_ids;
      is_caller = rw c.is_caller (unfold invalidate_task in refl);
      safe = IsSafe-swap m.phys m.vm u.caller.vm (tables u.others) w.safe;
      kept = λ a r p.
          let before = shared.kept a r p in
          let after = w.other 0 u.caller.vm refl a r before.0 in (after.0, after.1 ∙ before.1);
      same = λ a r p apart.
          let before = shared.same a r p in
          let after = w.own a r before.0 apart in (after.0, after.1 ∙ before.1);
      tid = w.tid;
      results = (refl, refl);
      registers = λ n lt two seven. ground (arith, c.is_state n lt);
      actions = c.are_actions;
    })

-- The system once the word has been read from the caller's stack.
abbrev after_read : System → Space → System
after_read s m = record s { phys = m.phys; caller = record s.caller { vm = m.vm } }

sys_clone_step :
    (vdso_page pid : ℕ) (s t : System)
    → sys_clone vdso_page s ≡ ok (pid, t)
    → (ctid : ℕ) × (m : Space) × (read32
          (pos (s.caller.state 29 + 16))
          (record { phys = s.phys; vm = s.caller.vm })
        ≡ ok (ctid, m))
      × (start_child vdso_page (s.caller.state 4) ctid (after_read s m) ≡ ok (pid, t))
unfolding sys_clone
sys_clone_step vdso_page pid s t h =
    go (read32 (pos (s.caller.state 29 + 16)) (record { phys = s.phys; vm = s.caller.vm })) refl
  where
    go :
        (r : Result (ℕ × Space))
        → read32 (pos (s.caller.state 29 + 16)) (record { phys = s.phys; vm = s.caller.vm }) ≡ r
        → (ctid : ℕ) × (m : Space) × (read32
              (pos (s.caller.state 29 + 16))
              (record { phys = s.phys; vm = s.caller.vm })
            ≡ ok (ctid, m))
          × (start_child vdso_page (s.caller.state 4) ctid (after_read s m) ≡ ok (pid, t))
    go (ok (ctid, m)) e = (ctid, m, e, ground arith)
    go (err x) e = absurd (ground arith)

-- When a process whose stack holds the aligned address `ctid` behind its fourth word makes a child,
-- its number is the next free one, the caller's memory reads as before, the child's memory reads as
-- the caller's but for the child's number at `ctid` if the flags ask for it, its registers are the
-- caller's but for the results, which are 0, it has the caller's actions of signals, and the page
-- tables of all processes are safe again.
pub sys_clone-IsStarted :
    (vdso_page ctid pid : ℕ) (s t : System)
    → CanFork vdso_page s
    → s.caller.state 29 % 4 ≡ 0
    → s.caller.state 29 + 16 < 2 ^ 32
    → s.caller.vm.pagemap ((s.caller.state 29 + 16) / 65536) ≢ 0
    → ((k : ℕ) → k < 4 → view s.phys s.caller.vm (s.caller.state 29 + 16 + k) ≡ byte_of ctid k)
    → ctid % 4 ≡ 0
    → ctid < 2 ^ 32
    → sys_clone vdso_page s ≡ ok (pid, t)
    → IsStarted (s.caller.state 4) ctid s pid t
sys_clone-IsStarted vdso_page ctid pid s t can stack room present bytes aligned small h =
    let (found, m, load, started) = sys_clone_step vdso_page pid s t h in
    let start : Space = record { phys = s.phys; vm = s.caller.vm } in
    let at = s.caller.state 29 + 16 in
    let at_is : at % 2 ^ 32 ≡ at = omega arith in
    let four : at % 4 ≡ 0 = omega (arith, stack) in
    let (is_ctid, safe, same) =
      read32-view (tables s.others) (pos at) ctid found start m can.safe (rw at_is four) small
        (rw at_is present) (λ k lt. rw at_is (bytes k lt)) load in
    let (phys, pagemap) = read32-same (tables s.others) at found start m four room can.safe load in
    let can_still : CanFork vdso_page (after_read s m) = record {
      not_none = can.not_none;
      not_zero = can.not_zero;
      shut = rw phys can.shut;
      room = rw phys can.room;
      safe = safe;
    } in
    let i =
      start_child-IsStarted vdso_page (s.caller.state 4) ctid pid (after_read s m) t can_still
        aligned small (rw is_ctid at started) in
    record {
      child = i.child;
      are_others = i.are_others;
      is_pid = i.is_pid;
      is_ids = i.is_ids;
      is_caller = ap (λ (c : Task). record c { vm = s.caller.vm }) i.is_caller;
      safe = i.safe;
      kept = λ a r p.
          let first = same a r p in let after = i.kept a r first.0 in (after.0, after.1 ∙ first.1);
      same = λ a r p apart.
          let first = same a r p in
          let after = i.same a r first.0 apart in (after.0, after.1 ∙ first.1);
      tid = i.tid;
      results = i.results;
      registers = i.registers;
      actions = i.actions;
    }
