-- ===== src/Squash/Table/Layout.antt =====
-- The blocks of a table on the disk, each with a header of two bytes, and one round of each loop of
-- `read_table` in src/squashfs.js over them.
use noopsys.Base.{
  ℕ, zero, suc, ◌+◌, ◌*◌, ◌/◌, ◌%◌, ◌^◌, ◌≤◌, ◌<◌, ◌≡◌, refl, sym, ap, ◌∙◌, some, List, [], ◌∷◌,
  ◌++◌, length, set, replicate, get_or, take, drop, update, arith, get_or-append, drop-append,
  take-append, append_assoc, append-nil, length-append, set-append,
}
use mathlib.Core.Path.{ap₂}
use noopsys.Base.Result.{ok}
use noopsys.Squash.{Reader, read16, seek, view_block, use_block}
use noopsys.Squash.Table.{Table, needed_size, copy_bytes, fill_table}

-- A block that is not compressed, on the disk.
unfoldable pub encode_block : List ℕ → List ℕ
encode_block p = (length p % 256) ∷ ((0x80 + length p / 256) ∷ p)

unfoldable pub encode_blocks : List (List ℕ) → List ℕ
encode_blocks [] = []
encode_blocks (p ∷ ps) = encode_block p ++ encode_blocks ps

unfoldable pub concat : List (List ℕ) → List ℕ
concat [] = []
concat (p ∷ ps) = p ++ concat ps

pub data AreShort : List (List ℕ) → Type 0 where
  no_blocks : AreShort []
  block : (p : List ℕ) (ps : List (List ℕ)) → length p < 0x8000 → AreShort ps → AreShort (p ∷ ps)

pub length-encode_block : (p : List ℕ) → length (encode_block p) ≡ length p + 2
unfolding encode_block
length-encode_block p = omega arith

header_bytes :
    (p rest pre : List ℕ)
    → (get_or (pre ++ (encode_block p ++ rest)) (length pre + 0) 0 ≡ length p % 256)
      × (get_or (pre ++ (encode_block p ++ rest)) (length pre + 1) 0 ≡ 0x80 + length p / 256)
unfolding encode_block
header_bytes p rest pre =
    (get_or-append pre (encode_block p ++ rest) 0 0, get_or-append pre (encode_block p ++ rest) 1 0)

-- The header that is read at the start of a block.
read16-header :
    (p rest pre : List ℕ) (r : Reader)
    → r.buffer ≡ pre ++ (encode_block p ++ rest)
    → r.offset ≡ length pre
    → read16 r
      ≡ ok (length p % 256 + (0x80 + length p / 256) * 2 ^ 8, record r { offset = r.offset + 2 })
unfolding read16
read16-header p rest pre r b o = let h = header_bytes p rest pre in rw (b, o, h.0, h.1) refl

needed_step :
    (n end needed header c : ℕ) (r s : Reader)
    → r.offset < end
    → read16 r ≡ ok (header, s)
    → header % 0x8000 ≡ c
    → needed_size (suc n) end needed r
      ≡ needed_size n end (needed + c) (record s { offset = s.offset + c })
unfolding needed_size
needed_step n end needed header c r s below e is_c = ground arith

pub needed_size-encode_blocks :
    (ps : List (List ℕ)) (pre post : List ℕ) (n needed end : ℕ) (r : Reader)
    → AreShort ps
    → length ps ≤ n
    → r.buffer ≡ pre ++ (encode_blocks ps ++ post)
    → r.offset ≡ length pre
    → end ≡ length pre + length (encode_blocks ps)
    → (s : Reader) × (needed_size n end needed r ≡ ok (needed + length (concat ps), s))
      × (s.data_bytes ≡ r.data_bytes)
unfolding needed_size encode_blocks concat
needed_size-encode_blocks [] pre post zero needed end r short le b o e = (r, ground arith, refl)
needed_size-encode_blocks [] pre post (suc n) needed end r short le b o e = (r, ground arith, refl)
needed_size-encode_blocks (p ∷ ps) pre post zero needed end r short le b o e = absurd (omega arith)
needed_size-encode_blocks (p ∷ ps) pre post (suc n) needed end r (block _ _ hp short) le b o e =
    let rest = encode_blocks ps ++ post in
    let layout : r.buffer ≡ pre ++ (encode_block p ++ rest) =
      b ∙ ap (λ t. pre ++ t) (append_assoc (encode_block p) (encode_blocks ps) post) in
    let header = read16-header p rest pre r layout o in
    let low : (length p % 256 + (0x80 + length p / 256) * 2 ^ 8) % 0x8000 ≡ length p =
      omega arith in
    let sizes = length-append (encode_block p) (encode_blocks ps) in
    let size = length-encode_block p in
    let total = length-append p (concat ps) in
    let before = length-append pre (encode_block p) in
    let (s, runs, same) =
      needed_size-encode_blocks ps (pre ++ encode_block p) post n (needed + length p) end
        (record r { offset = r.offset + 2 + length p }) short (omega arith)
        (layout ∙ sym (append_assoc pre (encode_block p) rest)) (omega (arith, before, size))
        (omega (arith, before, size, sizes)) in
    let sum : needed + length p + length (concat ps) ≡ needed + length (p ++ concat ps) =
      omega (arith, total) in
    (
      s,
      needed_step n end needed _ (length p) r _ (omega (arith, sizes, size)) header low
          ∙ runs
          ∙ ap (λ k. ok (k, s)) sum,
      same,
    )

use_step :
    (offset header c : ℕ) (r s t : Reader)
    → read16 (seek offset r) ≡ ok (header, s)
    → 0x8000 ≤ header
    → header % 0x8000 ≡ c
    → view_block s.offset c s ≡ ok (tt, t)
    → use_block offset 0 r ≡ ok (tt, t)
unfolding use_block
use_step offset header c r s t e plain is_c v = ground arith

length-image :
    (p rest pre : List ℕ)
    → length (pre ++ (encode_block p ++ rest)) ≡ length pre + (2 + length p) + length rest
length-image p rest pre = omega (
  arith,
  length-append pre (encode_block p ++ rest),
  length-append (encode_block p) rest,
  length-encode_block p,
)

-- The payload of a block, cut out of the image.
payload :
    (p rest pre : List ℕ) (start : ℕ)
    → start ≡ length pre + 2
    → take (length p) (drop start (pre ++ (encode_block p ++ rest))) ≡ p
unfolding encode_block
payload p rest pre start e =
    let header = (length p % 256) ∷ ((0x80 + length p / 256) ∷ []) in
    let regroup : pre ++ (encode_block p ++ rest) ≡ (pre ++ header) ++ (p ++ rest) =
      sym (append_assoc pre header (p ++ rest)) in
    let at : start ≡ length (pre ++ header) = omega (arith, length-append pre header) in
    ap₂ (λ k cs. take (length p) (drop k cs)) at regroup
    ∙ ap (take (length p)) (drop-append (pre ++ header) (p ++ rest))
    ∙ take-append p rest

pub use_block-encode_block :
    (p rest pre : List ℕ) (r : Reader)
    → length p < 0x8000
    → r.data_bytes ≡ pre ++ (encode_block p ++ rest)
    → r.offset ≡ length pre
    → (s : Reader) × (use_block r.offset 0 r ≡ ok (tt, s))
      × (s.buffer ≡ p)
      × (s.next_block ≡ length pre + length (encode_block p))
      × (s.data_bytes ≡ r.data_bytes)
      × (s.offset ≡ 0)
unfolding seek
use_block-encode_block p rest pre r hp d o =
    let header = read16-header p rest pre (seek r.offset r) d o in
    let low : (length p % 256 + (0x80 + length p / 256) * 2 ^ 8) % 0x8000 ≡ length p =
      omega arith in
    let plain : 0x8000 ≤ length p % 256 + (0x80 + length p / 256) * 2 ^ 8 = omega arith in
    let start = r.offset + 2 in
    let room : start + length p ≤ length r.data_bytes =
      omega (arith, ap length d, length-image p rest pre) in
    let s : Reader = record {
      data_bytes = r.data_bytes;
      buffer = take (length p) (drop start r.data_bytes);
      offset = 0;
      next_block = start + length p;
    } in
    (
      s,
      use_step r.offset _ (length p) r _ s header plain low
          (unfold view_block in ground (arith, room)),
      ap (λ cs. take (length p) (drop start cs)) d ∙ payload p rest pre start (omega arith),
      omega (arith, length-encode_block p),
      refl,
      refl,
    )

-- Copying into the part of the table that is still empty.
pub copy_bytes-append :
    (cs filled : List ℕ) (m : ℕ)
    → copy_bytes cs (length filled) (filled ++ replicate (length cs + m) 0)
      ≡ (filled ++ cs) ++ replicate m 0
unfolding copy_bytes
copy_bytes-append [] filled m =
    let none_left : 0 + m ≡ m = omega arith in
    ap (λ k. filled ++ replicate k 0) none_left
    ∙ ap (λ t. t ++ replicate m 0) (sym (append-nil filled))
copy_bytes-append (c ∷ cs) filled m =
    let more : suc (length cs) + m ≡ suc (length cs + m) = omega arith in
    let next : length filled + 1 ≡ length (filled ++ (c ∷ [])) =
      omega (arith, length-append filled (c ∷ [])) in
    ap (λ k. copy_bytes cs (length filled + 1) (set (filled ++ replicate k 0) (length filled) c))
      more
    ∙ ap₂ (λ k d. copy_bytes cs k d) next
        (set-append filled 0 c (replicate (length cs + m) 0)
          ∙ sym (append_assoc filled (c ∷ []) (replicate (length cs + m) 0)))
    ∙ copy_bytes-append cs (filled ++ (c ∷ [])) m
    ∙ ap (λ t. t ++ replicate m 0) (append_assoc filled (c ∷ []) cs)

pub fill_step :
    (n end offset : ℕ) (table : Table) (r s : Reader)
    → r.offset < end
    → use_block r.offset 0 r ≡ ok (tt, s)
    → fill_table (suc n) end offset table r
      ≡ fill_table n end
          (offset + length s.buffer)
          (record {
            bytes = copy_bytes s.buffer offset table.bytes;
            hash = update table.hash r.offset (some offset);
          })
          (record s { offset = s.next_block })
unfolding fill_table
fill_step n end offset table r s below e = ground arith
