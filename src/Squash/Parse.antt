-- ===== src/Squash/Parse.antt =====
-- The readers of src/squashfs.js as parsers: what each makes of bytes that were laid out for it.
use noopsys.Base.{
  ℕ, ◌+◌, ◌*◌, ◌^◌, ◌<◌, ◌≡◌, refl, sym, ap, ◌∙◌, List, [], ◌∷◌, ◌++◌, length, get_or, drop, arith,
  append_assoc, drop-append, length-append, get_or-drop, drop_add,
}
use noopsys.Base.Result.{ok, Action, pure, ◌>>=◌, >>=-ok}
use noopsys.Base.Word.{u32, byte_of, word_of, word_of-byte_of}
use noopsys.Squash.{Reader, byte_at, read16, read32, read64, read_words, read_string}

-- The cursor, moved over so many bytes.
unfoldable pub advance : ℕ → Reader → Reader
advance k r = record r { offset = r.offset + k }

-- With these bytes before the cursor, the reader returns this value and moves over them.
pub record Parses {B : Type 0} (m : Action Reader B) (bytes : List ℕ) (b : B) : Type 0 where
  pub runs :
      (r : Reader) (rest : List ℕ)
      → drop r.offset r.buffer ≡ bytes ++ rest
      → m r ≡ ok (b, advance (length bytes) r)

-- The two bytes and the four bytes of a number.
unfoldable pub bytes16 : ℕ → List ℕ
bytes16 v = byte_of v 0 ∷ (byte_of v 1 ∷ [])

unfoldable pub bytes32 : ℕ → List ℕ
bytes32 v = byte_of v 0 ∷ (byte_of v 1 ∷ (byte_of v 2 ∷ (byte_of v 3 ∷ [])))

-- A byte before the cursor.
byte_at-drop :
    (r : Reader) (bytes : List ℕ) (i : ℕ)
    → drop r.offset r.buffer ≡ bytes
    → byte_at r i ≡ get_or bytes i 0
byte_at-drop r bytes i e = sym (get_or-drop r.offset r.buffer i 0) ∙ ap (λ xs. get_or xs i 0) e

pub Parses-read16 : (v : ℕ) → v < 2 ^ 16 → Parses read16 (bytes16 v) v
unfolding read16 bytes16 advance
Parses-read16 v small = record { runs = go }
  where
    go :
        (r : Reader) (rest : List ℕ)
        → drop r.offset r.buffer ≡ bytes16 v ++ rest
        → read16 r ≡ ok (v, advance 2 r)
    go r rest e =
        let b0 = byte_at-drop r _ 0 e in
        let b1 = byte_at-drop r _ 1 e in
        let sum : byte_of v 0 + byte_of v 1 * 2 ^ 8 ≡ v = omega arith in
        ap (λ n. ok (n, record r { offset = r.offset + 2 })) (rw (b0, b1) sum)

pub Parses-read32 : (v : ℕ) → v < 2 ^ 32 → Parses read32 (bytes32 v) v
unfolding read32 bytes32 advance
Parses-read32 v small = record { runs = go }
  where
    go :
        (r : Reader) (rest : List ℕ)
        → drop r.offset r.buffer ≡ bytes32 v ++ rest
        → read32 r ≡ ok (v, advance 4 r)
    go r rest e =
        let b0 = byte_at-drop r _ 0 e in
        let b1 = byte_at-drop r _ 1 e in
        let b2 = byte_at-drop r _ 2 e in
        let b3 = byte_at-drop r _ 3 e in
        let fits : u32 v ≡ v = omega arith in
        let sum : u32 (word_of (byte_of v 0) (byte_of v 1) (byte_of v 2) (byte_of v 3)) ≡ v =
          ap u32 (word_of-byte_of v small) ∙ fits in
        ap (λ n. ok (n, record r { offset = r.offset + 4 })) (rw (b0, b1, b2, b3) sum)

module _ {B C : Type 0} {m : Action Reader B} {xs : List ℕ} {b : B} where
  pub Parses-bind :
      (f : B → Action Reader C) {ys : List ℕ} {c : C}
      → Parses m xs b
      → Parses (f b) ys c
      → Parses (m >>= f) (xs ++ ys) c
  unfolding advance
  Parses-bind f {ys = ys} {c = c} p q = record {
    runs = λ r rest e.
        let whole = e ∙ append_assoc xs ys rest in
        let after : drop (r.offset + length xs) r.buffer ≡ ys ++ rest =
          drop_add r.offset (length xs) r.buffer
          ∙ ap (drop (length xs)) whole
          ∙ drop-append xs (ys ++ rest) in
        let sum : r.offset + length xs + length ys ≡ r.offset + length (xs ++ ys) =
          omega (arith, length-append xs ys) in
        >>=-ok m f r (advance (length xs) r) b (p.runs r (ys ++ rest) whole)
        ∙ q.runs (advance (length xs) r) rest after
        ∙ ap (λ o. ok (c, record r { offset = o })) sum;
  }

  -- The last action of a chain, with what `pure` makes of its value.
  pub Parses-pure : (g : B → C) → Parses m xs b → Parses (m >>= λ x. pure (g x)) xs (g b)
  Parses-pure g p = record {
    runs = λ r rest e. >>=-ok m (λ x. pure (g x)) r (advance (length xs) r) b (p.runs r rest e);
  }

pub Parses-read_string : (cs : List ℕ) → Parses (read_string (length cs)) cs cs
unfolding read_string advance
Parses-read_string [] = record {
  runs = λ r rest e.
      let stay : r.offset ≡ r.offset + 0 = omega arith in
      ap (λ o. ok ([], record r { offset = o })) stay;
}
Parses-read_string (c ∷ cs) =
    Parses-bind (λ x. read_string (length cs) >>= λ ds. pure (x ∷ ds)) one
      (Parses-pure (λ ds. c ∷ ds) (Parses-read_string cs))
  where
    one : Parses (λ r. ok (byte_at r 0, record r { offset = r.offset + 1 })) (c ∷ []) c
    one = record {
      runs =
          λ r rest e. ap (λ n. ok (n, record r { offset = r.offset + 1 })) (byte_at-drop r _ 0 e);
    }

unfoldable pub encode_words : List ℕ → List ℕ
encode_words [] = []
encode_words (w ∷ ws) = bytes32 w ++ (encode_words ws ++ [])

pub data AreWords : List ℕ → Type 0 where
  no_words : AreWords []
  word : (w : ℕ) (ws : List ℕ) → w < 2 ^ 32 → AreWords ws → AreWords (w ∷ ws)

pub Parses-nothing : {B : Type 0} (b : B) → Parses (pure b) [] b
unfolding advance
Parses-nothing b = record {
  runs = λ r rest e.
      let stay : r.offset ≡ r.offset + 0 = omega arith in
      ap (λ o. ok (b, record r { offset = o })) stay;
}

pub Parses-read_words :
    (ws : List ℕ) → AreWords ws → Parses (read_words (length ws)) (encode_words ws) ws
unfolding read_words encode_words
Parses-read_words [] no_words = Parses-nothing []
Parses-read_words (w ∷ ws) (word _ _ small words) =
    Parses-bind _ (Parses-read32 w small)
      (Parses-bind _ (Parses-read_words ws words) (Parses-nothing (w ∷ ws)))

pub Parses-read64 : (v : ℕ) → v < 2 ^ 32 → Parses read64 (bytes32 v ++ (bytes32 0 ++ [])) v
unfolding read64
Parses-read64 v small =
    Parses-bind _ (Parses-read32 v small)
      (Parses-bind _ (Parses-read32 0 (omega arith)) (Parses-nothing v))

pub length-encode_words : (ws : List ℕ) → length (encode_words ws) ≡ 4 * length ws
unfolding encode_words bytes32
length-encode_words [] = refl
length-encode_words (w ∷ ws) =
    omega (arith, length-encode_words ws, length-append (encode_words ws) [])
