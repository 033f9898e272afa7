-- ===== src/Processes/Clone/Memory.antt =====
-- The memory of the processes when `cloneFrom` of src/process.js has made a child.
use noopsys.Base.{
  ℕ, zero, suc, ◌+◌, ◌/◌, ◌%◌, ◌^◌, ◌<◌, ◌≡◌, ◌≢◌, refl, ap, true, false, List, [], ◌∷◌, map, some,
  arith, inl, inr, Bool-cases, get_elem?,
}
use noopsys.Base.Int.{pos}
use noopsys.Base.Word.{byte_of, has, meets}
use noopsys.Base.Result.{Result, ok, err}
use noopsys.Base.Seal.{pure}
use noopsys.Constants.{prot_write, clone_child_settid}
use noopsys.Physical.{Phys}
use noopsys.Space.{Vm, Space, invalidate_hacks}
use noopsys.Space.Safe.{local_pages, held, IsCoherent, IsSafe, view}
use noopsys.Space.Views.{SameView}
use noopsys.Space.WordStore.{write32-IsWordStore}
use noopsys.Space.Fork.{fork_memory, invalidate_all}
use noopsys.Space.Fork.Child.{fork_memory-IsForked}
use noopsys.Signals.{nsig, state_copy_count}
use noopsys.Processes.Clone.{Task, System, new_ids, new_task, invalidate_task, clone_from, set_tid}

abbrev pub tables : List Task → List Vm
tables tasks = map (λ t. t.vm) tasks

tables-invalidate_task :
    (tasks : List Task) → tables (map invalidate_task tasks) ≡ invalidate_all (tables tasks)
unfolding invalidate_task invalidate_all
tables-invalidate_task [] = refl
tables-invalidate_task (t ∷ tasks) =
    ap (λ l. invalidate_hacks t.vm ∷ l) (tables-invalidate_task tasks)

-- The page of trampolines is an ordinary page that no process may write, the counters have room, and
-- the page tables of all processes are safe.
pub record CanFork (vdso_page : ℕ) (s : System) : Type 0 where
  pub not_none : vdso_page ≢ 0
  pub not_zero : vdso_page ≢ 1
  pub shut : has (s.phys.flags vdso_page) prot_write ≡ false
  pub room : (p : ℕ) → s.phys.refs p < 2 ^ 31
  pub safe : IsSafe s.phys (s.caller.vm ∷ tables s.others)

-- The pages are safe with the child among the processes, and the child maps what the caller maps to
-- the same bytes.
pub record IsShared (s : System) (child : Task) (t : System) : Type 0 where
  pub safe : IsSafe t.phys (child.vm ∷ t.caller.vm ∷ tables t.others)
  pub same : SameView s.phys s.caller.vm t.phys child.vm
  pub kept : SameView s.phys s.caller.vm t.phys t.caller.vm

-- The parts that `clone_from` leaves.
pub record HasCloned (pid : ℕ) (s : System) (vm : Vm) (phys : Phys) (child : Task) (t : System)
    : Type 0 where
  pub is_phys : t.phys ≡ phys
  pub is_caller : t.caller ≡ invalidate_task s.caller
  pub are_others : t.others ≡ map invalidate_task s.others
  pub is_vm : child.vm ≡ invalidate_hacks vm
  pub is_ids : child.ids ≡ new_ids pid s.caller.ids
  pub is_state : (n : ℕ) → n < state_copy_count → child.state n ≡ s.caller.state n
  pub are_actions : (n : ℕ) → n < nsig → child.actions n ≡ s.caller.actions n

pub clone_from_step :
    (vdso_page pid : ℕ) (s t : System) (child : Task)
    → clone_from vdso_page pid s ≡ ok (child, t)
    → (vm : Vm) × (phys : Phys) × (fork_memory 14 vdso_page s.caller.vm s.phys ≡ ok (vm, phys))
      × HasCloned pid s vm phys child t
unfolding clone_from new_task
clone_from_step vdso_page pid s t child h = go (fork_memory 14 vdso_page s.caller.vm s.phys) refl
  where
    go :
        (r : Result (Vm × Phys))
        → fork_memory 14 vdso_page s.caller.vm s.phys ≡ r
        → (vm : Vm) × (phys : Phys) × (fork_memory 14 vdso_page s.caller.vm s.phys ≡ ok (vm, phys))
          × HasCloned pid s vm phys child t
    go (ok (vm, phys)) e = (
      vm,
      phys,
      e,
      record {
        is_phys = ground arith;
        is_caller = ground arith;
        are_others = ground arith;
        is_vm = ground arith;
        is_ids = ground arith;
        is_state = λ n lt. ground arith;
        are_actions = λ n lt. ground arith;
      },
    )
    go (err x) e = absurd (ground arith)

pub clone_from-IsShared :
    (vdso_page pid : ℕ) (s t : System) (child : Task) (vm : Vm) (phys : Phys)
    → CanFork vdso_page s
    → fork_memory 14 vdso_page s.caller.vm s.phys ≡ ok (vm, phys)
    → HasCloned pid s vm phys child t
    → IsShared s child t
unfolding invalidate_task invalidate_all invalidate_hacks
clone_from-IsShared vdso_page pid s t child vm phys can e c =
    let f =
      fork_memory-IsForked 14 vdso_page s.caller.vm vm (tables s.others) s.phys phys (omega arith)
        can.not_none can.not_zero can.shut can.room can.safe e in
    let mem : t.phys.mem ≡ s.phys.mem = rw c.is_phys f.same_mem in
    let map_is : child.vm.pagemap ≡ vm.pagemap = rw c.is_vm refl in
    let kept_map : t.caller.vm.pagemap ≡ s.caller.vm.pagemap = rw c.is_caller refl in
    record {
      safe =
          rw (c.is_phys, c.is_vm, c.is_caller, c.are_others, tables-invalidate_task s.others)
            f.safe;
      same = λ a r m. let k = f.copied (a / 65536) r m in rw (map_is, mem, k.0) (m, refl);
      kept = λ a r m. rw (kept_map, mem) (m, refl);
    }

pub IsSafe-swap :
    (phys : Phys) (a b : Vm) (vms : List Vm) → IsSafe phys (a ∷ b ∷ vms) → IsSafe phys (b ∷ a ∷ vms)
unfolding held
IsSafe-swap phys a b vms safe = record {
  counted = λ p h. let c = safe.counted p h in omega arith;
  exclusive = λ p h o. let c = safe.exclusive p h o in omega arith;
  zero_base = let c = safe.zero_base in omega arith;
  zero_flags = safe.zero_flags;
  zero_clean = safe.zero_clean;
  coherent = coherent_swapped;
}
  where
    coherent_swapped : (k : ℕ) (vm : Vm) → get_elem? (b ∷ a ∷ vms) k ≡ some vm → IsCoherent phys vm
    coherent_swapped zero vm e = safe.coherent 1 vm e
    coherent_swapped (suc zero) vm e = safe.coherent 0 vm e
    coherent_swapped (suc (suc k)) vm e = safe.coherent (suc (suc k)) vm e

-- What storing the child's number does.
pub record IsNumbered (flags ctid pid : ℕ) (others : List Vm) (s m : Space) : Type 0 where
  pub safe : IsSafe m.phys (m.vm ∷ others)
  pub own :
      (a : ℕ)
      → a / 65536 < local_pages
      → s.vm.pagemap (a / 65536) ≢ 0
      → (meets flags clone_child_settid ≡ true → a / 4 ≢ ctid / 4)
      → (m.vm.pagemap (a / 65536) ≢ 0) × (view m.phys m.vm a ≡ view s.phys s.vm a)
  pub other : (j : ℕ) (vm : Vm) → get_elem? others j ≡ some vm → SameView s.phys vm m.phys vm
  pub tid :
      meets flags clone_child_settid ≡ true
      → (k : ℕ) → k < 4
      → view m.phys m.vm (ctid + k) ≡ byte_of pid k

pub set_tid-IsNumbered :
    (flags ctid pid : ℕ) (others : List Vm) (s m : Space)
    → ctid % 4 ≡ 0
    → ctid < 2 ^ 32
    → IsSafe s.phys (s.vm ∷ others)
    → set_tid flags ctid pid s ≡ ok (tt, m)
    → IsNumbered flags ctid pid others s m
unfolding set_tid pure
set_tid-IsNumbered flags ctid pid others s m aligned small safe h =
    elim (Bool-cases (meets flags clone_child_settid)) [
      | inl asked ↦
          let at : ctid % 2 ^ 32 ≡ ctid = omega arith in
          let w =
            rw at at (
              write32-IsWordStore others (pos ctid) pid s m safe (rw at aligned) (rw asked at h)) in
          record {
            safe = w.safe;
            own = λ a r p apart. w.own a r p (apart asked);
            other = w.other;
            tid = λ _ k lt. w.written k lt;
          }
      | inr not_asked ↦
          let e : ◌≡◌ {A = Result (Unit {0} × Space)} (ok (tt, s)) (ok (tt, m)) =
            rw not_asked at h in
          let same : s ≡ m = ground arith in
          rw (← same) (record {
            safe = safe;
            own = λ a r p apart. (p, refl);
            other = λ j vm here a r p. (p, refl);
            tid = λ asked. absurd (cc);
          })
    ]
