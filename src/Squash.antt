-- ===== src/Squash.antt =====
-- The reader of the root file system, src/squashfs.js: a cursor in a buffer, and what it reads.
-- A byte past the end of a buffer is `undefined`, which every reader turns into 0.
pub mod Table
pub mod Superblock
pub mod Inode
pub mod Directory
pub mod Block
pub mod Ids
pub mod Mount
pub mod Parse
pub mod Tests
use noopsys.Base.{
  ℕ, zero, suc, ◌+◌, ◌*◌, ◌/◌, ◌%◌, ◌^◌, ◌-◌, Bool, true, false, not, ◌&&◌, ◌||◌, List, [], ◌∷◌,
  length, get_or, take, drop, leb, ◌==◌, if◌then◌else◌,
}
use noopsys.Base.Word.{u32, word_of}
use noopsys.Base.Result.{
  Error, high_word, bad_inode_id, compressed_block, wrong_block_size, out_of_range, Result, ok, err,
  Action, pure, throw, ◌>>=◌, ◌>>◌, gets, modify, throw_if,
}

-- `data` is the image; `buffer` is what the cursor `offset` runs over.
pub record Reader : Type 0 where
  pub data_bytes : List ℕ
  pub buffer : List ℕ
  pub offset : ℕ
  pub next_block : ℕ

-- A new cursor, at the start of the image.
unfoldable pub new_reader : List ℕ → Reader
new_reader image = record { data_bytes = image; buffer = image; offset = 0; next_block = 0 }

abbrev pub byte_at : Reader → ℕ → ℕ
byte_at r i = get_or r.buffer (r.offset + i) 0

unfoldable pub read16 : Action Reader ℕ
read16 r = ok (byte_at r 0 + byte_at r 1 * 2 ^ 8, record r { offset = r.offset + 2 })

unfoldable pub read32 : Action Reader ℕ
read32 r = ok (
  u32 (word_of (byte_at r 0) (byte_at r 1) (byte_at r 2) (byte_at r 3)),
  record r { offset = r.offset + 4 },
)

-- A loop that reads so many words.
unfoldable pub read_words : ℕ → Action Reader (List ℕ)
read_words zero = pure []
read_words (suc n) = do word ← read32; words ← read_words n; pure (word ∷ words)

-- There are no 64-bit integers in JavaScript: the high word is 0, or all ones for an absent table.
unfoldable pub read64 : Action Reader ℕ
read64 = do
  low ← read32
  high ← read32
  throw_if (not (high == 0) && not (high == 0xffff_ffff)) high_word
  pure low

-- A block and an offset in it.
unfoldable pub read_inode_id : Action Reader (ℕ × ℕ)
unfolding read16 read32
read_inode_id = do
  offset ← read16
  block ← read32
  padding ← read16
  throw_if (not (padding == 0)) bad_inode_id
  pure (block, offset)

-- `length` bytes, as the codes of a string.
unfoldable pub read_string : ℕ → Action Reader (List ℕ)
read_string zero = pure []
read_string (suc n) = do
  c ← λ r. ok (byte_at r 0, record r { offset = r.offset + 1 })
  cs ← read_string n
  pure (c ∷ cs)

-- `this.buffer = new Uint8Array(this.data); this.offset = offset`
unfoldable pub seek : ℕ → Reader → Reader
seek offset r = record {
  data_bytes = r.data_bytes;
  buffer = r.data_bytes;
  offset = offset;
  next_block = r.next_block;
}

-- A view of `size` bytes of the image, which the host refuses past its end.
unfoldable pub view_block : ℕ → ℕ → Action Reader (Unit {0})
view_block start size r =
    if leb (start + size) (length r.data_bytes)
    then ok (
      tt,
      record {
        data_bytes = r.data_bytes;
        buffer = take size (drop start r.data_bytes);
        offset = 0;
        next_block = start + size;
      },
    )
    else err out_of_range

-- The header of a block: a bit for a block that is not compressed, and the size.
abbrev pub is_compressed : ℕ → Bool
is_compressed header = not (leb 0x8000 header)

-- `useBlock`, where `expected` is 0 if it is not given.
unfoldable pub use_block : ℕ → ℕ → Action Reader (Unit {0})
unfolding read16 view_block seek
use_block offset expected = do
  modify (seek offset)
  header ← read16
  throw_if (is_compressed header) compressed_block
  throw_if (not (expected == 0) && not (header % 0x8000 == expected)) wrong_block_size
  start ← gets λ r. r.offset
  view_block start (header % 0x8000)
