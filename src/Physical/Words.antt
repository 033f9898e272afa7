-- ===== src/Physical/Words.antt =====
-- `memory` is one buffer with two views, `mem8` and `mem32`. It is kept here as bytes; a word is
-- four of them, least significant first, as on the little-endian hosts the program assumes.
use noopsys.Base.{ℕ, zero, suc, ◌+◌, ◌*◌, ◌/◌, ◌%◌, ◌==◌, if◌then◌else◌}
use noopsys.Base.Word.{word_of, byte_of}

abbrev pub Bytes : Type 0
Bytes = ℕ → ℕ

-- `mem32[i]`
unfoldable pub read_word : Bytes → ℕ → ℕ
read_word mem i = word_of (mem (4 * i + 0)) (mem (4 * i + 1)) (mem (4 * i + 2)) (mem (4 * i + 3))

-- `mem32[i] = w`
unfoldable pub write_word : Bytes → ℕ → ℕ → Bytes
write_word mem i w a = if a / 4 == i then byte_of w (a % 4) else mem a

-- The loop of `duplicatePage`, with `n` rounds left.
unfoldable pub copy_words : ℕ → (dest src : ℕ) → Bytes → Bytes
copy_words zero dest src mem = mem
copy_words (suc n) dest src mem =
    copy_words n (dest + 1) (src + 1) (write_word mem dest (read_word mem src))

-- The loop of `doZeroPage`, with `n` rounds left.
unfoldable pub zero_words : ℕ → (dest : ℕ) → Bytes → Bytes
zero_words zero dest mem = mem
zero_words (suc n) dest mem = zero_words n (dest + 1) (write_word mem dest 0)

-- What the two loops leave when they run over a whole page: `set` and `fill` of a page.
unfoldable pub copy_page : (new old : ℕ) → Bytes → Bytes
copy_page new old mem a = if a / 65536 == new then mem (old * 65536 + a % 65536) else mem a

unfoldable pub zero_page_bytes : ℕ → Bytes → Bytes
zero_page_bytes page mem a = if a / 65536 == page then 0 else mem a
