-- ===== src/Squash/Block.antt =====
-- The data blocks of a file, as `SquashFSFileInode` of src/squashfs.js reads them.
pub mod Contents
use noopsys.Base.{
  ℕ, zero, suc, ◌+◌, ◌-◌, ◌/◌, ◌%◌, ◌^◌, Bool, true, false, List, [], ◌∷◌, ◌++◌, length, replicate,
  min, ltb, ◌==◌, if◌then◌else◌,
}
use noopsys.Base.Word.{u32}
use noopsys.Base.Result.{compressed_block, Result, ok, err, Action, pure, throw, ◌>>=◌, ◌>>◌}
use noopsys.Squash.{Reader, read32, read_string, seek}

-- `(size + block_size - 1) >>> block_log`
unfoldable pub block_count : (size block_size block_log : ℕ) → ℕ
block_count size block_size block_log = u32 (size + block_size + 2 ^ 32 - 1) / 2 ^ (block_log % 32)

-- The same with `>>`: a negative count is none.
unfoldable pub block_count_signed : (size block_size block_log : ℕ) → ℕ
block_count_signed size block_size block_log =
    let w = u32 (size + block_size + 2 ^ 32 - 1) in
    if ltb w (2 ^ 31) then w / 2 ^ (block_log % 32) else 0

-- One block of `size` bytes: 0 stands for a hole, and bit 24 for a block that is not compressed.
unfoldable pub read_block : ℕ → ℕ → Action Reader (List ℕ)
unfolding read_string
read_block block size =
    if block == 0
    then pure (replicate size 0)
    else if block / 2 ^ 24 % 2 == 0
    then throw compressed_block
    else read_string size

-- The loop over the blocks, with what the file still lacks.
unfoldable pub read_blocks : (block_size remaining : ℕ) → List ℕ → Action Reader (List ℕ)
unfolding read_block
read_blocks block_size remaining [] = pure []
read_blocks block_size remaining (block ∷ blocks) = do
  cs ← read_block block (min block_size remaining)
  rest ← read_blocks block_size (remaining - min block_size remaining) blocks
  pure (cs ++ rest)

-- The file's buffer of `size` bytes: what no block fills stays 0.
unfoldable pub read_contents : (start_block block_size size : ℕ) → List ℕ → Action Reader (List ℕ)
unfolding read_blocks seek
read_contents start_block block_size size blocks r =
    elim (read_blocks block_size size blocks (seek start_block r)) [
      | ok (cs, s) ↦ ok (cs ++ replicate (size - length cs) 0, s)
      | err e ↦ err e
    ]
