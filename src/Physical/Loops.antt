-- ===== src/Physical/Loops.antt =====
-- The word loops of `duplicatePage` and `doZeroPage` (src/process.js) against bulk operations.
use mathlib.Core.Path.{fun_ext}
use noopsys.Base.{
  ℕ, zero, suc, ◌+◌, ◌-◌, ◌*◌, ◌/◌, ◌%◌, ◌≤◌, ◌<◌, ◌≡◌, ◌≢◌, ◌⊎◌, ◌&&◌, arith, ltb, leb, ◌==◌,
  if◌then◌else◌,
}
use noopsys.Base.Word.{word_of, byte_of}
use noopsys.Physical.Words.{
  Bytes, read_word, write_word, copy_words, zero_words, copy_page, zero_page_bytes,
}

abbrev pub AreBytes : Bytes → Type 0
AreBytes mem = (a : ℕ) → mem a < 256

byte_of-word_of :
    (f : Bytes) (k : ℕ) → AreBytes f → k < 4 → byte_of (word_of (f 0) (f 1) (f 2) (f 3)) k ≡ f k
byte_of-word_of f zero h hk = omega (arith, h 0, h 1, h 2, h 3)
byte_of-word_of f (suc zero) h hk = omega (arith, h 0, h 1, h 2, h 3)
byte_of-word_of f (suc (suc zero)) h hk = omega (arith, h 0, h 1, h 2, h 3)
byte_of-word_of f (suc (suc (suc zero))) h hk = omega (arith, h 0, h 1, h 2, h 3)
byte_of-word_of f (suc (suc (suc (suc k)))) h hk = absurd (omega arith)

-- A word copied is its four bytes copied.
write_word-read_word :
    (mem : Bytes) (dest src a : ℕ)
    → AreBytes mem
    → write_word mem dest (read_word mem src) a
      ≡ (if a / 4 == dest then mem (4 * src + a % 4) else mem a)
unfolding write_word read_word
write_word-read_word mem dest src a bytes =
    rw (byte_of-word_of (λ k. mem (4 * src + k)) (a % 4) (λ k. bytes (4 * src + k)) (omega arith))

copy_step-AreBytes :
    (mem : Bytes) (dest src : ℕ) → AreBytes mem → AreBytes (write_word mem dest (read_word mem src))
copy_step-AreBytes mem dest src bytes a =
    rw (write_word-read_word mem dest src a bytes)
      (ground (arith, bytes a, bytes (4 * src + a % 4)))

copy_words_lem :
    (n dest src : ℕ) (mem : Bytes)
    → AreBytes mem
    → (src + n ≤ dest) ⊎ (dest + n ≤ src)
    → (a : ℕ)
    → copy_words n dest src mem a ≡ (
        if leb dest (a / 4) && ltb (a / 4) (dest + n)
        then mem (4 * src + (a - 4 * dest))
        else mem a)
unfolding copy_words
copy_words_lem zero dest src mem bytes apart a = ground arith
copy_words_lem (suc n) dest src mem bytes apart a =
    let mem' = write_word mem dest (read_word mem src) in
    let moved = 4 * (src + 1) + (a - 4 * (dest + 1)) in
    let rest =
      copy_words_lem n (dest + 1) (src + 1) mem' (copy_step-AreBytes mem dest src bytes)
        (omega arith) a in
    ground (
      arith,
      rest,
      write_word-read_word mem dest src a bytes,
      write_word-read_word mem dest src moved bytes,
    )

write_word-zero : (mem : Bytes) (i a : ℕ) → write_word mem i 0 a ≡ (if a / 4 == i then 0 else mem a)
unfolding write_word
write_word-zero mem i a = ground arith

zero_words_lem :
    (n dest : ℕ) (mem : Bytes) (a : ℕ)
    → zero_words n dest mem a ≡ (if leb dest (a / 4) && ltb (a / 4) (dest + n) then 0 else mem a)
unfolding zero_words
zero_words_lem zero dest mem a = ground arith
zero_words_lem (suc n) dest mem a =
    ground
      (arith, zero_words_lem n (dest + 1) (write_word mem dest 0) a, write_word-zero mem dest a)

-- The loop of `duplicatePage` copies the old page into the new one, byte for byte, and changes
-- nothing else, if the pages differ.
pub copy_words-copy_page :
    (new old : ℕ) (mem : Bytes)
    → new ≢ old
    → AreBytes mem
    → copy_words 16384 (new * 16384) (old * 16384) mem ≡ copy_page new old mem
unfolding copy_page
copy_words-copy_page new old mem apart bytes =
    fun_ext λ a.
      ground (arith, copy_words_lem 16384 (new * 16384) (old * 16384) mem bytes (omega arith) a)

-- The loop of `doZeroPage` clears the page and changes nothing else.
zero_words-zero_page :
    (page : ℕ) (mem : Bytes) → zero_words 16384 (page * 16384) mem ≡ zero_page_bytes page mem
unfolding zero_page_bytes
zero_words-zero_page page mem =
    fun_ext λ a. ground (arith, zero_words_lem 16384 (page * 16384) mem a)
