-- ===== src/Squash/Ids.antt =====
-- `read_id_table` of src/squashfs.js: the user and group numbers, in blocks of metadata.
pub mod Stored
use noopsys.Base.{
  ℕ, zero, suc, ◌+◌, ◌*◌, ◌-◌, ◌/◌, ◌%◌, Bool, List, [], ◌∷◌, ◌++◌, ◌==◌, if◌then◌else◌,
}
use noopsys.Base.Result.{Action, pure, ◌>>=◌, ◌>>◌, modify}
use noopsys.Squash.{Reader, read64, read_words, use_block}
use noopsys.Squash.Superblock.{Superblock}

abbrev pub squashfs_metadata_size : ℕ
squashfs_metadata_size = 8192

unfoldable pub no_blocks_of : ℕ → ℕ
no_blocks_of no_bytes = (no_bytes + squashfs_metadata_size - 1) / squashfs_metadata_size

-- The numbers that block `n` holds, as the loop counts them.
unfoldable pub ids_in_block : (no_bytes n : ℕ) → ℕ
ids_in_block no_bytes n =
    let size =
      if n + 1 == no_blocks_of no_bytes
      then no_bytes % squashfs_metadata_size
      else squashfs_metadata_size in
    size / 4

unfoldable pub read_offsets : ℕ → Action Reader (List ℕ)
read_offsets zero = pure []
read_offsets (suc n) = do offset ← read64; offsets ← read_offsets n; pure (offset ∷ offsets)

-- The second loop, from block `n` on.
unfoldable pub read_id_blocks : (no_bytes n : ℕ) → List ℕ → Action Reader (List ℕ)
read_id_blocks no_bytes n [] = pure []
read_id_blocks no_bytes n (offset ∷ offsets) = do
  use_block offset 0
  ids ← read_words (ids_in_block no_bytes n)
  rest ← read_id_blocks no_bytes (n + 1) offsets
  pure (ids ++ rest)

unfoldable pub read_id_table : Superblock → Action Reader (List ℕ)
read_id_table sb = do
  modify λ r. record r { offset = sb.id_table_start }
  offsets ← read_offsets (no_blocks_of (sb.no_ids * 4))
  read_id_blocks (sb.no_ids * 4) 0 offsets
