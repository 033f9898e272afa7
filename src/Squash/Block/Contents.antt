-- ===== src/Squash/Block/Contents.antt =====
-- The contents of a file of src/squashfs.js against the bytes of the image.
use noopsys.Base.{
  ℕ, zero, suc, ◌+◌, ◌-◌, ◌*◌, ◌/◌, ◌%◌, ◌^◌, ◌≤◌, ◌≡◌, refl, sym, ap, ◌∙◌, List, [], ◌∷◌, ◌++◌,
  length, replicate, get_or, min, arith, append-nil,
}
use mathlib.Core.Path.{ap₂}
use noopsys.Base.Result.{Result, ok, err, >>=-ok}
use noopsys.Squash.{Reader, read_string, seek}
use noopsys.Squash.Block.{read_block, read_blocks, read_contents}

-- The bytes of a buffer from `at` on; past its end they are 0.
unfoldable pub bytes_at : List ℕ → ℕ → ℕ → List ℕ
bytes_at buffer at zero = []
bytes_at buffer at (suc n) = get_or buffer at 0 ∷ bytes_at buffer (at + 1) n

read_string-bytes_at :
    (n : ℕ) (r : Reader)
    → read_string n r ≡ ok (bytes_at r.buffer r.offset n, record r { offset = r.offset + n })
unfolding read_string bytes_at
read_string-bytes_at zero r =
    let e : r.offset ≡ r.offset + 0 = omega arith in ap (λ o. ok ([], record r { offset = o })) e
read_string-bytes_at (suc n) r =
    let here : r.offset + 0 ≡ r.offset = omega arith in
    let there : r.offset + 1 + n ≡ r.offset + suc n = omega arith in
    >>=-ok (read_string n) _ (record r { offset = r.offset + 1 }) _ _
      (read_string-bytes_at n (record r { offset = r.offset + 1 }))
    ∙ (ap₂
        (λ i o.
          ok (get_or r.buffer i 0 ∷ bytes_at r.buffer (r.offset + 1) n, record r { offset = o }))
        here there)

bytes_at-append :
    (buffer : List ℕ) (at m n : ℕ)
    → bytes_at buffer at m ++ bytes_at buffer (at + m) n ≡ bytes_at buffer at (m + n)
unfolding bytes_at
bytes_at-append buffer at zero n =
    let e : at + 0 ≡ at = omega arith in
    let f : n ≡ 0 + n = omega arith in ap₂ (bytes_at buffer) e f
bytes_at-append buffer at (suc m) n =
    let e : at + suc m ≡ at + 1 + m = omega arith in
    let f : suc (m + n) ≡ suc m + n = omega arith in
    ap (λ k. get_or buffer at 0 ∷ (bytes_at buffer (at + 1) m ++ bytes_at buffer k n)) e
    ∙ ap (λ t. get_or buffer at 0 ∷ t) (bytes_at-append buffer (at + 1) m n)
    ∙ ap (bytes_at buffer at) f

length-bytes_at : (buffer : List ℕ) (at n : ℕ) → length (bytes_at buffer at n) ≡ n
unfolding bytes_at
length-bytes_at buffer at zero = refl
length-bytes_at buffer at (suc n) = ap suc (length-bytes_at buffer (at + 1) n)

-- Blocks that are neither holes nor compressed.
pub data AreRaw : List ℕ → Type 0 where
  no_more : AreRaw []
  raw : (b : ℕ) (bs : List ℕ) → b / 2 ^ 24 % 2 ≡ 1 → AreRaw bs → AreRaw (b ∷ bs)

read_block-raw :
    (b size : ℕ) (r : Reader)
    → b / 2 ^ 24 % 2 ≡ 1
    → read_block b size r
      ≡ ok (bytes_at r.buffer r.offset size, record r { offset = r.offset + size })
unfolding read_block
read_block-raw b size r is_raw = ground (arith, read_string-bytes_at size r)

read_blocks-raw :
    (bs : List ℕ) (block_size remaining total : ℕ) (r : Reader)
    → AreRaw bs
    → total ≡ min (length bs * block_size) remaining
    → read_blocks block_size remaining bs r
      ≡ ok (bytes_at r.buffer r.offset total, record r { offset = r.offset + total })
unfolding read_blocks bytes_at
read_blocks-raw [] block_size remaining total r raws t =
    let none_left : total ≡ 0 = omega arith in
    let stay : r.offset ≡ r.offset + total = omega arith in
    ap₂ (λ n o. ok (bytes_at r.buffer r.offset n, record r { offset = o })) (sym none_left) stay
read_blocks-raw (b ∷ bs) block_size remaining total r (raw _ _ is_raw raws) t =
    let size = min block_size remaining in
    let rest = min (length bs * block_size) (remaining - size) in
    let more : suc (length bs) * block_size ≡ block_size + length bs * block_size = omega arith in
    let sum : size + rest ≡ total = ground (arith, more, t) in
    let there : r.offset + size + rest ≡ r.offset + total = omega arith in
    >>=-ok (read_block b size) _ r _ _ (read_block-raw b size r is_raw)
    ∙ >>=-ok (read_blocks block_size (remaining - size) bs) _
        (record r { offset = r.offset + size }) _ _
        (read_blocks-raw bs block_size (remaining - size) rest
          (record r { offset = r.offset + size }) raws refl)
    ∙ (ap₂ (λ cs o. ok (cs, record r { offset = o }))
        (bytes_at-append r.buffer r.offset size rest ∙ ap (bytes_at r.buffer r.offset) sum) there)

-- A file whose blocks are neither holes nor compressed, and are enough for its size, holds the
-- bytes of the image from its start on.
read_contents-raw :
    (start_block block_size size : ℕ) (bs : List ℕ) (r : Reader)
    → AreRaw bs
    → size ≤ length bs * block_size
    → (s : Reader) × (read_contents start_block block_size size bs r
        ≡ ok (bytes_at r.data_bytes start_block size, s))
unfolding read_contents seek
read_contents-raw start_block block_size size bs r raws enough =
    let runs = read_blocks-raw bs block_size size size (seek start_block r) raws (omega arith) in
    let padding : size - length (bytes_at r.data_bytes start_block size) ≡ 0 =
      omega (arith, length-bytes_at r.data_bytes start_block size) in
    let whole : bytes_at r.data_bytes start_block size
          ++ replicate (size - length (bytes_at r.data_bytes start_block size)) 0
        ≡ bytes_at r.data_bytes start_block size =
      ap (λ k. bytes_at r.data_bytes start_block size ++ replicate k 0) padding ∙ append-nil _ in
    let s : Reader = record (seek start_block r) { offset = start_block + size } in
    (s, ap padded runs ∙ ap (λ cs. ok (cs, s)) whole)
  where
    padded : Result (List ℕ × Reader) → Result (List ℕ × Reader)
    padded (ok (cs, s)) = ok (cs ++ replicate (size - length cs) 0, s)
    padded (err e) = err e
