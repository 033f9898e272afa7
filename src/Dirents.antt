-- ===== src/Dirents.antt =====
-- The entries of a directory that a process is given: `sys_getdents` and `sys_getdents64` of
-- src/syscalls.js. The children of a directory are a list, in the order of `Object.keys`.
pub mod Fitting
pub mod Tests
use noopsys.Base.{
  ℕ, zero, suc, ◌+◌, ◌-◌, ◌*◌, Bool, true, false, not, Option, none, some, List, [], ◌∷◌, length,
  ltb, ◌==◌, if◌then◌else◌,
}
use noopsys.Base.Int.{pos}
use noopsys.Base.Result.{Action, no_node}
use noopsys.Base.Seal.{pure, throw, ◌>>=◌, ◌>>◌}
use noopsys.Space.{Space}
use noopsys.Space.Accessors.{write8, write16, write32, copy_to_user}

pub record Entry : Type 0 where
  pub name : List ℕ
  pub inode : ℕ

-- What a descriptor with a node holds, of a directory or of something else.
pub record Directory : Type 0 where
  pub is_dir : Bool
  pub children : List Entry
  pub position : ℕ

-- The number of bytes, or what stands for `-EBADF`, `-ENOTDIR` and `-EINVAL`.
pub data Answer : Type 0 where
  bytes : ℕ → Answer
  ebadf enotdir einval : Answer

unfoldable pub needed_size : (wide : Bool) → Entry → ℕ
needed_size wide e = if wide then 19 + (length e.name + 1) else 10 + (length e.name + 1)

-- One entry is written; `ret` counts it already.
unfoldable pub put_entry : (wide : Bool) → (dirp ret : ℕ) → Entry → Action Space (Unit {0})
put_entry true dirp ret e = do
  write32 (pos dirp) e.inode
  write32 (pos (dirp + 4)) 0
  write32 (pos (dirp + 8)) ret
  write32 (pos (dirp + 12)) ret
  write16 (pos (dirp + 16)) (needed_size true e)
  write8 (pos (dirp + 18)) 0
  copy_to_user (pos (dirp + 19)) e.name true
put_entry false dirp ret e = do
  write32 (pos dirp) e.inode
  write32 (pos (dirp + 4)) ret
  write16 (pos (dirp + 8)) (needed_size false e)
  copy_to_user (pos (dirp + 10)) e.name true

-- What the loop does with an entry: it was given before, it does not fit, it does not fit and there
-- is no room at all, or it is given.
pub data Turn : Type 0 where
  passed too_long no_room given : Turn

unfoldable pub turn : (wide : Bool) → (n position count : ℕ) → Entry → Turn
turn wide n position count e =
    if ltb n position
    then passed
    else if ltb count (needed_size wide e)
    then (if count == 0 then no_room else too_long)
    else given

-- The loop over the children, those from number `n` on; the answer and the new position. The
-- position moves on before it is known whether the entry fits.
unfoldable pub put_entries :
    (wide : Bool) → List Entry → (n position count ret dirp : ℕ) → Action Space (Answer × ℕ)
put_entries wide [] n position count ret dirp = pure (bytes ret, position)
put_entries wide (e ∷ es) n position count ret dirp = elim (turn wide n position count e) [
  | passed ↦ put_entries wide es (n + 1) position count ret dirp
  | too_long ↦ pure (bytes ret, position + 1)
  | no_room ↦ pure (einval, position + 1)
  | given ↦
      put_entry wide dirp (ret + needed_size wide e) e
      >> put_entries wide es (n + 1) (position + 1) (count - needed_size wide e)
          (ret + needed_size wide e) (dirp + needed_size wide e)
]

-- `sys_getdents_core`: the answer, and the position that the descriptor is left at. The descriptor may
-- be missing, or be without a node, as the ends of pipes and the terminal are: `node.mode` throws.
unfoldable pub sys_getdents_core :
    (wide : Bool) → Option (Option Directory) → (dirp count : ℕ) → Action Space (Answer × ℕ)
sys_getdents_core wide none dirp count = pure (ebadf, 0)
sys_getdents_core wide (some none) dirp count = throw no_node
sys_getdents_core wide (some (some d)) dirp count =
    if not d.is_dir
    then pure (enotdir, d.position)
    else put_entries wide d.children 0 d.position count 0 dirp
