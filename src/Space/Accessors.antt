-- ===== src/Space/Accessors.antt =====
-- `read8` to `write32` and `copyToUser` of src/process.js.
use noopsys.Base.{
  ℕ, zero, suc, ◌+◌, ◌*◌, ◌/◌, ◌%◌, ◌^◌, Bool, true, false, Option, none, some, List, [], ◌∷◌, ◌==◌,
  if◌then◌else◌, update,
}
use noopsys.Base.Int.{ℤ, pos, ◌+ℤ◌, to_uint32}
use noopsys.Base.Word.{u32, ◌>>>◌, word_of}
use noopsys.Base.Result.{Action}
use noopsys.Base.Seal.{pure, ◌>>=◌, ◌>>◌, gets, modify}
use noopsys.Physical.Words.{read_word, write_word}
use noopsys.Space.{Space, read, write}
use noopsys.Space.Translate.{translate}

abbrev load : ℕ → Action Space ℕ
load a = gets λ s. s.phys.mem a

unfoldable pub stored : ℕ → ℕ → Space → Space
stored a v s = record {
  phys = record {
    refs = s.phys.refs;
    flags = s.phys.flags;
    mem = update s.phys.mem a v;
    in_use = s.phys.in_use;
  };
  vm = s.vm;
}

abbrev store : ℕ → ℕ → Action Space (Unit {0})
store a v = modify (stored a v)

unfoldable pub stored_word : ℕ → ℕ → Space → Space
stored_word i w s = record {
  phys = record {
    refs = s.phys.refs;
    flags = s.phys.flags;
    mem = write_word s.phys.mem i w;
    in_use = s.phys.in_use;
  };
  vm = s.vm;
}

abbrev store_word : ℕ → ℕ → Action Space (Unit {0})
store_word i w = modify (stored_word i w)

unfoldable pub read8 : ℤ → Action Space ℕ
unfolding ◌>>=◌ gets
read8 addr = do load (← translate addr read)

unfoldable pub write8 : ℤ → ℕ → Action Space (Unit {0})
unfolding ◌>>=◌ modify
write8 addr value = do store (← translate addr write) (value % 256)

unfoldable pub read16 : ℤ → Action Space ℕ
unfolding read8
read16 addr = do b0 ← read8 addr; b1 ← read8 (addr +ℤ pos 1); pure (b0 + b1 * 2 ^ 8)

unfoldable pub write16 : ℤ → ℕ → Action Space (Unit {0})
unfolding write8
write16 addr value = do write8 addr value; write8 (addr +ℤ pos 1) (value >>> 8)

unfoldable pub read32 : ℤ → Action Space ℕ
unfolding read8
read32 addr = do
  at ← translate addr read
  if to_uint32 addr % 4 == 0 then (gets λ s. read_word s.phys.mem (at / 4)) else do
    b0 ← load at
    b1 ← read8 (addr +ℤ pos 1)
    b2 ← read8 (addr +ℤ pos 2)
    b3 ← read8 (addr +ℤ pos 3)
    pure (u32 (word_of b0 b1 b2 b3))

-- `write32` after its first translation, which gave `at`.
unfoldable pub store32 : ℤ → ℕ → ℕ → Action Space (Unit {0})
store32 addr value at = if to_uint32 addr % 4 == 0 then store_word (at / 4) value else do
  store at (value % 256)
  write8 (addr +ℤ pos 1) (value >>> 8)
  write8 (addr +ℤ pos 2) (value >>> 16)
  write8 (addr +ℤ pos 3) (value >>> 24)

unfoldable pub write32 : ℤ → ℕ → Action Space (Unit {0})
write32 addr value = do store32 addr value (← translate addr write)

unfoldable pub copy_to_user : ℤ → List ℕ → Bool → Action Space (Unit {0})
unfolding write8
copy_to_user addr [] true = write8 addr 0
copy_to_user addr [] false = pure tt
copy_to_user addr (c ∷ cs) is_string = write8 addr c >> copy_to_user (addr +ℤ pos 1) cs is_string

-- A character in front of a string, if there is one.
unfoldable pub prepend : ℕ → Option (List ℕ) → Option (List ℕ)
prepend c none = none
prepend c (some cs) = some (c ∷ cs)

-- `stringFromUser`, with `n` rounds left. There is no answer when they run out.
unfoldable pub string_from_user : (n : ℕ) → ℤ → Action Space (Option (List ℕ))
unfolding read8 ◌>>=◌
string_from_user zero addr = pure none
string_from_user (suc n) addr = read8 addr >>= λ v. elim (v == 0) [
  | true ↦ pure (some [])
  | false ↦ string_from_user n (addr +ℤ pos 1) >>= λ r. pure (prepend v r)
]
