-- ===== src/Squash/Table/RoundTrip.antt =====
-- `read_table` of src/squashfs.js on a table that was laid out as blocks.
use mathlib.Core.Path.{ap₂}
use noopsys.Base.{
  ℕ, zero, suc, ◌+◌, ◌≤◌, ◌<◌, ◌≡◌, refl, sym, ap, ◌∙◌, Option, none, some, List, [], ◌∷◌, ◌++◌,
  length, replicate, update, arith, append_assoc, length-append,
}
use noopsys.Base.Result.{ok}
use noopsys.Squash.{Reader, seek}
use noopsys.Squash.Table.{Table, needed_size, copy_bytes, fill_table, read_table}
use noopsys.Squash.Table.Layout.{
  encode_block, encode_blocks, concat, AreShort, block, length-encode_block,
  needed_size-encode_blocks, use_block-encode_block, copy_bytes-append, fill_step,
}

-- Where the blocks `ps`, at address `disk` of the image, begin in the table.
hash_of : List (List ℕ) → (disk at : ℕ) → (ℕ → Option ℕ) → ℕ → Option ℕ
hash_of [] disk at h = h
hash_of (p ∷ ps) disk at h =
    hash_of ps (disk + length (encode_block p)) (at + length p) (update h disk (some at))

hash_of-below :
    (ps : List (List ℕ)) (disk at a : ℕ) (h : ℕ → Option ℕ)
    → a < disk
    → hash_of ps disk at h a ≡ h a
unfolding hash_of
hash_of-below [] disk at a h below = refl
hash_of-below (p ∷ ps) disk at a h below =
    hash_of-below ps (disk + length (encode_block p)) (at + length p) a (update h disk (some at))
      (omega arith)
    ∙ ground arith

hash_of-block :
    (qs : List (List ℕ)) (p : List ℕ) (ps : List (List ℕ)) (disk at : ℕ) (h : ℕ → Option ℕ)
    → hash_of (qs ++ (p ∷ ps)) disk at h (disk + length (encode_blocks qs))
      ≡ some (at + length (concat qs))
unfolding hash_of encode_blocks concat
hash_of-block [] p ps disk at h =
    let here : disk + 0 ≡ disk = omega arith in
    let there : at + 0 ≡ at = omega arith in
    ap (hash_of (p ∷ ps) disk at h) here
    ∙ hash_of-below ps (disk + length (encode_block p)) (at + length p) disk
        (update h disk (some at)) (omega (arith, length-encode_block p))
    ∙ ground arith
hash_of-block (q ∷ qs) p ps disk at h =
    let place : disk + length (encode_block q ++ encode_blocks qs)
        ≡ disk + length (encode_block q) + length (encode_blocks qs) =
      omega (arith, length-append (encode_block q) (encode_blocks qs)) in
    let size : at + length q + length (concat qs) ≡ at + length (q ++ concat qs) =
      omega (arith, length-append q (concat qs)) in
    ap
      (hash_of (qs ++ (p ∷ ps)) (disk + length (encode_block q)) (at + length q)
        (update h disk (some at)))
      place
    ∙ hash_of-block qs p ps (disk + length (encode_block q)) (at + length q)
        (update h disk (some at))
    ∙ ap some size

fill_table-encode_blocks :
    (ps : List (List ℕ)) (pre post filled : List ℕ) (n end : ℕ) (table : Table) (r : Reader)
    → AreShort ps
    → length ps ≤ n
    → r.data_bytes ≡ pre ++ (encode_blocks ps ++ post)
    → r.offset ≡ length pre
    → end ≡ length pre + length (encode_blocks ps)
    → table.bytes ≡ filled ++ replicate (length (concat ps)) 0
    → (t : Table) × (s : Reader) × (fill_table n end (length filled) table r ≡ ok (t, s))
      × (t.bytes ≡ filled ++ concat ps)
      × (t.hash ≡ hash_of ps (length pre) (length filled) table.hash)
unfolding encode_blocks concat hash_of
fill_table-encode_blocks [] pre post filled zero end table r short le d o e b =
    (table, r, unfold fill_table in refl, b, refl)
fill_table-encode_blocks [] pre post filled (suc n) end table r short le d o e b =
    (table, r, unfold fill_table in ground arith, b, refl)
fill_table-encode_blocks (p ∷ ps) pre post filled zero end table r short le d o e b =
    absurd (omega arith)
fill_table-encode_blocks (p ∷ ps) pre post filled (suc n) end table r (block _ _ hp short) le d o e
      b =
    let rest = encode_blocks ps ++ post in
    let layout : r.data_bytes ≡ pre ++ (encode_block p ++ rest) =
      d ∙ ap (λ t. pre ++ t) (append_assoc (encode_block p) (encode_blocks ps) post) in
    let sizes = length-append (encode_block p) (encode_blocks ps) in
    let before = length-append pre (encode_block p) in
    let size = length-encode_block p in
    let (u, used, buffer, next, same, _) = use_block-encode_block p rest pre r hp layout o in
    let copied : copy_bytes u.buffer (length filled) table.bytes
        ≡ (filled ++ p) ++ replicate (length (concat ps)) 0 =
      ap₂ (λ cs t. copy_bytes cs (length filled) t) buffer
        (b ∙ ap (λ k. filled ++ replicate k 0) (length-append p (concat ps)))
      ∙ copy_bytes-append p filled (length (concat ps)) in
    let table' : Table = record {
      bytes = copy_bytes u.buffer (length filled) table.bytes;
      hash = update table.hash r.offset (some (length filled));
    } in
    let place : length filled + length u.buffer ≡ length (filled ++ p) =
      omega (arith, ap length buffer, length-append filled p) in
    let (t, s, runs, bytes, hash) =
      fill_table-encode_blocks ps (pre ++ encode_block p) post (filled ++ p) n end table'
        (record u { offset = u.next_block }) short (omega arith)
        (same ∙ layout ∙ sym (append_assoc pre (encode_block p) rest)) (omega (arith, next, before))
        (omega (arith, before, size, sizes)) copied in
    (
      t,
      s,
      fill_step n end (length filled) table r u (omega (arith, sizes, size)) used
          ∙ ap (λ k. fill_table n end k table' (record u { offset = u.next_block })) place
          ∙ runs,
      bytes ∙ append_assoc filled p (concat ps),
      hash
          ∙ ap₂ (λ k m. hash_of ps k m (update table.hash r.offset (some (length filled)))) before
              (length-append filled p)
          ∙ ap
              (λ k.
                hash_of ps (length pre + length (encode_block p)) (length filled + length p)
                  (update table.hash k (some (length filled))))
              o,
    )

read_step :
    (n start end size : ℕ) (r u s : Reader) (t : Table)
    → needed_size n end 0 (seek start r) ≡ ok (size, u)
    → fill_table n end 0
        (record { bytes = replicate size 0; hash = λ _. none })
        (record u { offset = start })
      ≡ ok (t, s)
    → read_table n start end r ≡ ok (t, s)
unfolding read_table
read_step n start end size r u s t e f = ground arith

-- Reading a table back: from an image that holds blocks of less than 2^15 bytes, with enough rounds for
-- their number, `read_table` returns the bytes of the blocks in order, and its hash gives for the
-- address of any one of them, `p`, where that block's bytes begin.
pub read_table-encode_blocks :
    (qs : List (List ℕ)) (p : List ℕ) (rest : List (List ℕ)) (pre post : List ℕ) (n : ℕ)
    (r : Reader)
    → AreShort (qs ++ (p ∷ rest))
    → length (qs ++ (p ∷ rest)) ≤ n
    → r.data_bytes ≡ pre ++ (encode_blocks (qs ++ (p ∷ rest)) ++ post)
    → (t : Table) × (s : Reader) × (read_table n
          (length pre)
          (length pre + length (encode_blocks (qs ++ (p ∷ rest))))
          r
        ≡ ok (t, s))
      × (t.bytes ≡ concat (qs ++ (p ∷ rest)))
      × (t.hash (length pre + length (encode_blocks qs)) ≡ some (length (concat qs)))
read_table-encode_blocks qs p rest pre post n r short le d =
    let ps = qs ++ (p ∷ rest) in
    let end = length pre + length (encode_blocks ps) in
    let (u, sized, same) =
      needed_size-encode_blocks ps pre post n 0 end (seek (length pre) r) short le
        (unfold seek in d) (unfold seek in refl) refl in
    let total : 0 + length (concat ps) ≡ length (concat ps) = omega arith in
    let (t, s, runs, bytes, hash) =
      fill_table-encode_blocks ps pre post [] n end
        (record { bytes = replicate (length (concat ps)) 0; hash = λ _. none })
        (record u { offset = length pre }) short le (same ∙ unfold seek in d) refl refl refl in
    (
      t,
      s,
      read_step n (length pre) end (length (concat ps)) r u s t (sized ∙ ap (λ k. ok (k, u)) total)
          runs,
      bytes,
      ap (λ h. h (length pre + length (encode_blocks qs))) hash
          ∙ hash_of-block qs p rest (length pre) 0 (λ _. none)
          ∙ ap some (let e : 0 + length (concat qs) ≡ length (concat qs) = omega arith in e),
    )
