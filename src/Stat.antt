-- ===== src/Stat.antt =====
-- The description of a file that a process is given: `do_stat_core`, `do_stat64_core`, `sys_fstat`
-- and `sys_fstat64` of src/syscalls.js.
pub mod Filled
pub mod Tests
use noopsys.Base.{ℕ, ◌+◌, Bool, true, false, Option, none, some, if◌then◌else◌}
use noopsys.Base.Int.{pos}
use noopsys.Base.Word.{meets}
use noopsys.Base.Result.{Action}
use noopsys.Base.Seal.{pure, ◌>>=◌, ◌>>◌}
use noopsys.Constants.{s_ifchr}
use noopsys.Space.{Space}
use noopsys.Space.Accessors.{write32}

-- What the calls read of a node; `data_word` is the number that its `data` stands for.
pub record Node : Type 0 where
  pub inode : ℕ
  pub mode : ℕ
  pub data_word : ℕ
  pub size : ℕ

unfoldable pub do_stat_core : (buf : ℕ) → Node → Action Space (Unit {0})
do_stat_core buf node = do
  write32 (pos (buf + 0)) 1
  write32 (pos (buf + 16)) node.inode
  write32 (pos (buf + 20)) node.mode
  write32 (pos (buf + 24)) 1
  write32 (pos (buf + 28)) 0
  write32 (pos (buf + 32)) 0
  if meets node.mode s_ifchr
      then write32 (pos (buf + 36)) node.data_word
      else write32 (pos (buf + 36)) 0
  write32 (pos (buf + 48)) node.size
  write32 (pos (buf + 52)) 0
  write32 (pos (buf + 56)) 0
  write32 (pos (buf + 64)) 0
  write32 (pos (buf + 72)) 0
  write32 (pos (buf + 80)) 0
  write32 (pos (buf + 84)) 0
  pure tt

unfoldable pub do_stat64_core : (buf : ℕ) → Node → Action Space (Unit {0})
do_stat64_core buf node = do
  write32 (pos (buf + 0)) 1
  write32 (pos (buf + 16)) node.inode
  write32 (pos (buf + 20)) 0
  write32 (pos (buf + 24)) node.mode
  write32 (pos (buf + 28)) 1
  write32 (pos (buf + 32)) 0
  write32 (pos (buf + 36)) 0
  if meets node.mode s_ifchr
      then write32 (pos (buf + 40)) node.data_word
      else write32 (pos (buf + 40)) 0
  write32 (pos (buf + 56)) node.size
  write32 (pos (buf + 60)) 0
  write32 (pos (buf + 64)) 0
  write32 (pos (buf + 72)) 0
  write32 (pos (buf + 80)) 0
  write32 (pos (buf + 88)) 0
  write32 (pos (buf + 96)) 0
  write32 (pos (buf + 100)) 0
  pure tt

-- What the calls return: `-EBADF`, or 0.
pub data Outcome : Type 0 where
  ebadf done : Outcome

-- `sys_fstat`, and `sys_fstat64` where `wide` holds, of what the descriptor's number finds.
unfoldable pub sys_fstat : (wide : Bool) → Option Node → (buf : ℕ) → Action Space Outcome
sys_fstat wide none buf = pure ebadf
sys_fstat true (some node) buf = do_stat64_core buf node >> pure done
sys_fstat false (some node) buf = do_stat_core buf node >> pure done
