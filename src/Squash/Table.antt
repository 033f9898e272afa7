-- ===== src/Squash/Table.antt =====
-- `read_table` of src/squashfs.js, which reads a whole table of metadata blocks.
pub mod Layout
pub mod RoundTrip
use noopsys.Base.{
  ℕ, zero, suc, ◌+◌, ◌%◌, ◌^◌, Bool, Option, none, some, List, [], ◌∷◌, length, set, replicate, ltb,
  if◌then◌else◌, update,
}
use noopsys.Base.Result.{Result, ok, err, Action, pure, ◌>>=◌, ◌>>◌, gets, modify}
use noopsys.Squash.{Reader, read16, seek, use_block}

-- The table's bytes, and where each block of the image begins in them.
pub record Table : Type 0 where
  pub bytes : List ℕ
  pub hash : ℕ → Option ℕ

-- The first loop: the bytes that the blocks before `end` need, with `n` rounds left.
unfoldable pub needed_size : ℕ → ℕ → ℕ → Action Reader ℕ
unfolding read16
needed_size zero end needed r = ok (needed, r)
needed_size (suc n) end needed r =
    let rest = λ (s : Reader) (c_byte : ℕ).
      needed_size n end (needed + c_byte) (record s { offset = s.offset + c_byte }) in
    if ltb r.offset end
    then elim (read16 r) [ ok (header, s) ↦ rest s (header % 0x8000) | err e ↦ err e ]
    else ok (needed, r)

-- `for (n = 0; …) buffer[offset++] = this.buffer[n]`: a typed array drops what does not fit.
unfoldable pub copy_bytes : List ℕ → ℕ → List ℕ → List ℕ
copy_bytes [] offset dest = dest
copy_bytes (c ∷ cs) offset dest = copy_bytes cs (offset + 1) (set dest offset c)

-- The second loop: `offset` is the place in the table's buffer.
unfoldable pub fill_table : ℕ → ℕ → ℕ → Table → Action Reader Table
unfolding copy_bytes use_block
fill_table zero end offset table r = ok (table, r)
fill_table (suc n) end offset table r =
    let rest = λ (s : Reader).
      fill_table n end (offset + length s.buffer)
        (record {
          bytes = copy_bytes s.buffer offset table.bytes;
          hash = update table.hash r.offset (some offset);
        })
        (record s { offset = s.next_block }) in
    if ltb r.offset end
    then elim (use_block r.offset 0 r) [ ok (_, s) ↦ rest s | err e ↦ err e ]
    else ok (table, r)

-- `read_table`, with `n` rounds for each of the loops.
unfoldable pub read_table : ℕ → ℕ → ℕ → Action Reader Table
unfolding needed_size fill_table
read_table n start end = do
  modify (seek start)
  needed ← needed_size n end 0
  modify λ r. record r { offset = start }
  fill_table n end 0 (record { bytes = replicate needed 0; hash = λ _. none })
