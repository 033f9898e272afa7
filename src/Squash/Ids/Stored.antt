-- ===== src/Squash/Ids/Stored.antt =====
-- `read_id_table` of src/squashfs.js on a table that one block holds.
use noopsys.Base.{
  ℕ, ◌*◌, ◌^◌, ◌<◌, ◌≡◌, refl, sym, ap, ◌∙◌, List, [], ◌∷◌, ◌++◌, length, drop, arith, append-nil,
}
use noopsys.Base.Result.{ok, pure, >>=-ok}
use noopsys.Squash.{Reader, read_words, use_block, seek}
use noopsys.Squash.Superblock.{Superblock}
use noopsys.Squash.Parse.{
  advance, Parses, bytes32, AreWords, no_words, encode_words, length-encode_words, Parses-read64,
  Parses-read_words, Parses-bind, Parses-nothing,
}
use noopsys.Squash.Table.Layout.{encode_block, use_block-encode_block}
use noopsys.Squash.Ids.{no_blocks_of, ids_in_block, read_offsets, read_id_blocks, read_id_table}

-- The address of a block, where the table begins.
unfoldable pub encode_offset : ℕ → List ℕ
encode_offset v = bytes32 v ++ (bytes32 0 ++ [])

one_offset : (v : ℕ) → v < 2 ^ 32 → Parses (read_offsets 1) (encode_offset v ++ ([] ++ [])) (v ∷ [])
unfolding read_offsets encode_offset
one_offset v small =
    Parses-bind _ (Parses-read64 v small)
      (Parses-bind (λ vs. pure (v ∷ vs)) (Parses-nothing {B = List ℕ} []) (Parses-nothing (v ∷ [])))

-- The block is used, and then the first `length ids` words of it are read.
one_block :
    (no_bytes : ℕ) (ids others pre post : List ℕ) (r : Reader)
    → ids_in_block no_bytes 0 ≡ length ids
    → AreWords ids
    → length (encode_words ids ++ others) < 0x8000
    → r.data_bytes ≡ pre ++ (encode_block (encode_words ids ++ others) ++ post)
    → (s : Reader) × (read_id_blocks no_bytes 0 (length pre ∷ []) r ≡ ok (ids, s))
unfolding read_id_blocks
one_block no_bytes ids others pre post r count words short d =
    let p = encode_words ids ++ others in
    let (u, used, buffer, next, same, start) =
      use_block-encode_block p post pre (record r { offset = length pre }) short d refl in
    let used' : use_block (length pre) 0 r ≡ ok (tt, u) = unfold use_block seek in used in
    let laid : drop u.offset u.buffer ≡ p = ap (λ o. drop o u.buffer) start ∙ buffer in
    let reads : read_words (ids_in_block no_bytes 0) u
        ≡ ok (ids, advance (length (encode_words ids)) u) =
      ap (λ k. read_words k u) count ∙ (Parses-read_words ids words).runs u others laid in
    (
      advance (length (encode_words ids)) u,
      >>=-ok (use_block (length pre) 0) _ r u tt used'
          ∙ >>=-ok (read_words (ids_in_block no_bytes 0)) _ u _ ids reads
          ∙ ap (λ xs. ok (xs, advance (length (encode_words ids)) u)) (append-nil ids),
    )

one_table :
    (sb : Superblock) (ids others pre post rest : List ℕ) (r : Reader)
    → no_blocks_of (sb.no_ids * 4) ≡ 1
    → ids_in_block (sb.no_ids * 4) 0 ≡ length ids
    → AreWords ids
    → length (encode_words ids ++ others) < 0x8000
    → length pre < 2 ^ 32
    → drop sb.id_table_start r.buffer ≡ encode_offset (length pre) ++ rest
    → r.data_bytes ≡ pre ++ (encode_block (encode_words ids ++ others) ++ post)
    → (s : Reader) × (read_id_table sb r ≡ ok (ids, s))
unfolding read_id_table
one_table sb ids others pre post rest r blocks count words short small table d =
    let here : Reader = record r { offset = sb.id_table_start } in
    let offsets : read_offsets (no_blocks_of (sb.no_ids * 4)) here
        ≡ ok (length pre ∷ [], advance (length (encode_offset (length pre) ++ ([] ++ []))) here) =
      ap (λ k. read_offsets k here) blocks
      ∙ (one_offset (length pre) small).runs here rest
          (table ∙ ap (λ xs. xs ++ rest) (sym (append-nil (encode_offset (length pre))))) in
    let (s, e) =
      one_block (sb.no_ids * 4) ids others pre post
        (advance (length (encode_offset (length pre) ++ ([] ++ []))) here) count words short
        (unfold advance in d) in
    (s, >>=-ok (read_offsets (no_blocks_of (sb.no_ids * 4))) _ here _ _ offsets ∙ e)

-- A table of one to 2047 numbers, in the block that the word at the table's start points to, is read
-- back in full.
read_id_table-encode_words :
    (sb : Superblock) (ids pre post rest : List ℕ) (r : Reader)
    → 0 < length ids
    → length ids < 2048
    → sb.no_ids ≡ length ids
    → AreWords ids
    → length pre < 2 ^ 32
    → drop sb.id_table_start r.buffer ≡ encode_offset (length pre) ++ rest
    → r.data_bytes ≡ pre ++ (encode_block (encode_words ids) ++ post)
    → (s : Reader) × (read_id_table sb r ≡ ok (ids, s))
unfolding ids_in_block no_blocks_of
read_id_table-encode_words sb ids pre post rest r some_ids few counted words small table d =
    let whole = append-nil (encode_words ids) in
    let blocks : no_blocks_of (sb.no_ids * 4) ≡ 1 = omega arith in
    one_table sb ids [] pre post rest r blocks (rw (blocks) (omega arith)) words
      (omega (arith, ap length whole, length-encode_words ids)) small table
      (d ∙ ap (λ xs. pre ++ (encode_block xs ++ post)) (sym whole))

-- A table of 2048 numbers, which fill one block, is read as an empty table.
pub read_id_table-full :
    (sb : Superblock) (ids pre post rest : List ℕ) (r : Reader)
    → length ids ≡ 2048
    → sb.no_ids ≡ length ids
    → length pre < 2 ^ 32
    → drop sb.id_table_start r.buffer ≡ encode_offset (length pre) ++ rest
    → r.data_bytes ≡ pre ++ (encode_block (encode_words ids) ++ post)
    → (s : Reader) × (read_id_table sb r ≡ ok ([], s))
unfolding ids_in_block no_blocks_of encode_words
read_id_table-full sb ids pre post rest r full counted small table d =
    let blocks : no_blocks_of (sb.no_ids * 4) ≡ 1 = omega arith in
    one_table sb [] (encode_words ids) pre post rest r blocks (rw (blocks) (omega arith)) no_words
      (omega (arith, length-encode_words ids)) small table d
