-- ===== src/Space/RoundTrip.antt =====
-- Stores and loads of one address (src/process.js), and stores seen from other processes.
use noopsys.Base.{ℕ, ◌+◌, ◌*◌, ◌/◌, ◌%◌, ◌^◌, ◌<◌, ◌≡◌, ◌≢◌, refl, ◌∙◌, ap, Bool, List, ◌∷◌, arith}
use noopsys.Base.Int.{ℤ, to_uint32}
use noopsys.Base.Word.{byte_of, word_of-byte_of}
use noopsys.Base.Result.{Result, ok, err}
use noopsys.Base.Seal.{gets, ◌>>=◌, modify}
use noopsys.Physical.Words.{read_word, write_word}
use noopsys.Space.{Vm, Space, read, write}
use noopsys.Space.Translate.{translate}
use noopsys.Space.Accessors.{
  read8, write8, read32, write32, store32, stored, stored_word, copy_to_user,
}
use noopsys.Space.Safe.{local_pages, IsSafe, view}
use noopsys.Space.Views.{SameView}
use noopsys.Space.Coherent.{translate-IsTranslated}
use noopsys.Space.Isolation.{write8-IsByteStore, read8-view, write8-translate}
use noopsys.Space.Kept.{Kept, write32-Kept, copy_to_user-Kept}

-- What `write8` stores, `read8` of the same address gives back, as a byte.
write8-read8 :
    (others : List Vm) (addr : ℤ) (v w : ℕ) (s s' s'' : Space)
    → IsSafe s.phys (s.vm ∷ others)
    → write8 addr v s ≡ ok (tt, s')
    → read8 addr s' ≡ ok (w, s'')
    → w ≡ v % 256
unfolding stored
write8-read8 others addr v w s s' s'' safe store load =
    let (at, t, e, same) = write8-translate addr v s s' store in
    let d = translate-IsTranslated others write addr at s t safe e in
    let present : s'.vm.pagemap (to_uint32 addr / 65536) ≢ 0 = rw same d.present in
    let b = write8-IsByteStore others addr v s s' safe store in
    (read8-view others addr w s' s'' b.safe present load).0 ∙ b.written

pub write32-translate :
    (addr : ℤ) (v : ℕ) (s s' : Space)
    → to_uint32 addr % 4 ≡ 0
    → write32 addr v s ≡ ok (tt, s')
    → (at : ℕ) × (t : Space) × (translate addr write s ≡ ok (at, t))
      × (s' ≡ stored_word (at / 4) v t)
unfolding write32 store32 ◌>>=◌ modify
write32-translate addr v s s' aligned h = go (translate addr write s) refl
  where
    go :
        (r : Result (ℕ × Space))
        → translate addr write s ≡ r
        → (at : ℕ) × (t : Space) × (translate addr write s ≡ ok (at, t))
          × (s' ≡ stored_word (at / 4) v t)
    go (ok (at, t)) e = (at, t, e, ground arith)
    go (err x) e = absurd (ground arith)

pub read32-translate :
    (addr : ℤ) (w : ℕ) (s s' : Space)
    → to_uint32 addr % 4 ≡ 0
    → read32 addr s ≡ ok (w, s')
    → (at : ℕ) × (translate addr read s ≡ ok (at, s')) × (w ≡ read_word s'.phys.mem (at / 4))
unfolding read32 ◌>>=◌ gets
read32-translate addr w s s' aligned h = go (translate addr read s) refl
  where
    go :
        (r : Result (ℕ × Space))
        → translate addr read s ≡ r
        → (at : ℕ) × (translate addr read s ≡ ok (at, s')) × (w ≡ read_word s'.phys.mem (at / 4))
    go (ok (at, t)) e = (at, ground arith, ground arith)
    go (err x) e = absurd (ground arith)

-- A word stored at an aligned address, read byte by byte through the page table.
pub stored_word-view :
    (n at v k : ℕ) (t : Space)
    → k < 4
    → n % 4 ≡ 0
    → at ≡ t.vm.pagemap (n / 65536) * 65536 + n % 65536
    → view (stored_word (at / 4) v t).phys (stored_word (at / 4) v t).vm (n + k) ≡ byte_of v k
unfolding stored_word write_word
stored_word-view n at v k t hk aligned address =
    let page : (n + k) / 65536 ≡ n / 65536 = omega arith in
    let low : (n + k) % 65536 ≡ n % 65536 + k = omega arith in rw (page, low) (ground arith)

pub read_word-view :
    (n at : ℕ) (t : Space)
    → n % 4 ≡ 0
    → at ≡ t.vm.pagemap (n / 65536) * 65536 + n % 65536
    → (k : ℕ) → k < 4
    → t.phys.mem (4 * (at / 4) + k)
      ≡ t.phys.mem (t.vm.pagemap ((n + k) / 65536) * 65536 + (n + k) % 65536)
read_word-view n at t aligned address k hk =
    let page : (n + k) / 65536 ≡ n / 65536 = omega arith in
    let low : (n + k) % 65536 ≡ n % 65536 + k = omega arith in
    rw (page, low) (ap t.phys.mem (omega arith))

-- The bytes that a later translation of the same address finds are the bytes of the word.
loaded_byte :
    (n at at' v : ℕ) (t u : Space)
    → n / 65536 < local_pages
    → t.vm.pagemap (n / 65536) ≢ 0
    → n % 4 ≡ 0
    → at ≡ t.vm.pagemap (n / 65536) * 65536 + n % 65536
    → at' ≡ u.vm.pagemap (n / 65536) * 65536 + n % 65536
    → SameView (stored_word (at / 4) v t).phys (stored_word (at / 4) v t).vm u.phys u.vm
    → (k : ℕ) → k < 4
    → u.phys.mem (4 * (at' / 4) + k) ≡ byte_of v k
loaded_byte n at at' v t u below present aligned address address' same_view k hk =
    let page : (n + k) / 65536 ≡ n / 65536 = omega arith in
    read_word-view n at' u aligned address' k hk
    ∙ (same_view (n + k) (omega arith) (unfold stored_word in rw page present)).1
    ∙ stored_word-view n at v k t hk aligned address

-- What `write32` stores at an aligned address, `read32` gives back.
pub write32-read32 :
    (others : List Vm) (addr : ℤ) (v w : ℕ) (s s' s'' : Space)
    → IsSafe s.phys (s.vm ∷ others)
    → to_uint32 addr % 4 ≡ 0
    → v < 2 ^ 32
    → write32 addr v s ≡ ok (tt, s')
    → read32 addr s' ≡ ok (w, s'')
    → w ≡ v
unfolding read_word
write32-read32 others addr v w s s' s'' safe aligned word store load =
    let n = to_uint32 addr in
    let (at, t, e, same) = write32-translate addr v s s' aligned store in
    let d = translate-IsTranslated others write addr at s t safe e in
    let kept = (write32-Kept others addr v).holds s s' tt store safe in
    let (at', e', value) = read32-translate addr w s' s'' aligned load in
    let d' = translate-IsTranslated others read addr at' s' s'' kept.safe e' in
    let byte =
      loaded_byte n at at' v t s'' d.in_range d.present aligned d.address d'.address
        (λ a r m. rw (← same) (d'.own a r (rw same m))) in
    value ∙ ground (arith, byte 0, byte 1, byte 2, byte 3, word_of-byte_of v word)

-- `write32` at any address keeps the invariant of all page tables, and no other process sees a
-- byte of its memory change.
write32-isolated :
    (others : List Vm) (addr : ℤ) (v : ℕ) (s s' : Space)
    → IsSafe s.phys (s.vm ∷ others)
    → write32 addr v s ≡ ok (tt, s')
    → Kept others s s'
write32-isolated others addr v s s' safe h = (write32-Kept others addr v).holds s s' tt h safe

-- `copyToUser` of any bytes to any address keeps the invariant of all page tables, and no other
-- process sees a byte of its memory change.
copy_to_user-isolated :
    (others : List Vm) (addr : ℤ) (cs : List ℕ) (is_string : Bool) (s s' : Space)
    → IsSafe s.phys (s.vm ∷ others)
    → copy_to_user addr cs is_string s ≡ ok (tt, s')
    → Kept others s s'
copy_to_user-isolated others addr cs is_string s s' safe h =
    (copy_to_user-Kept others cs addr is_string).holds s s' tt h safe
