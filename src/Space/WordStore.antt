-- ===== src/Space/WordStore.antt =====
-- `write32` and `read32` of src/process.js at aligned addresses, against what a process sees of its
-- own memory.
use noopsys.Base.{
  ℕ, ◌+◌, ◌*◌, ◌/◌, ◌%◌, ◌^◌, ◌<◌, ◌≡◌, ◌≢◌, refl, ◌∙◌, List, ◌∷◌, some, arith, get_elem?,
}
use noopsys.Base.Int.{ℤ, pos, to_uint32}
use noopsys.Base.Word.{byte_of, word_of-byte_of}
use noopsys.Base.Result.{ok}
use noopsys.Physical.Words.{read_word}
use noopsys.Space.{Vm, Space, read, write}
use noopsys.Space.Accessors.{read32, write32, stored_word}
use noopsys.Space.Safe.{local_pages, IsSafe, view}
use noopsys.Space.Views.{SameView}
use noopsys.Space.Coherent.{translate-IsTranslated, translate-same}
use noopsys.Space.Isolation.{
  open_page-IsSole, stored_word-IsSafe, stored_word-own, stored_word-other,
}
use noopsys.Space.RoundTrip.{write32-translate, read32-translate, stored_word-view, read_word-view}

-- What a store of the word `v` at the aligned address `n` has done to the process's own memory.
pub record IsWordStore (others : List Vm) (n v : ℕ) (s s' : Space) : Type 0 where
  pub safe : IsSafe s'.phys (s'.vm ∷ others)
  pub in_range : n / 65536 < local_pages
  pub present : s'.vm.pagemap (n / 65536) ≢ 0
  pub written : (k : ℕ) → k < 4 → view s'.phys s'.vm (n + k) ≡ byte_of v k
  pub own :
      (a : ℕ)
      → a / 65536 < local_pages
      → s.vm.pagemap (a / 65536) ≢ 0
      → a / 4 ≢ n / 4
      → (s'.vm.pagemap (a / 65536) ≢ 0) × (view s'.phys s'.vm a ≡ view s.phys s.vm a)
  pub other : (j : ℕ) (vm : Vm) → get_elem? others j ≡ some vm → SameView s.phys vm s'.phys vm

pub write32-IsWordStore :
    (others : List Vm) (addr : ℤ) (v : ℕ) (s s' : Space)
    → IsSafe s.phys (s.vm ∷ others)
    → to_uint32 addr % 4 ≡ 0
    → write32 addr v s ≡ ok (tt, s')
    → IsWordStore others (to_uint32 addr) v s s'
unfolding stored_word
write32-IsWordStore others addr v s s' safe aligned h =
    let n = to_uint32 addr in
    let (at, t, e, same) = write32-translate addr v s s' aligned h in
    let d = translate-IsTranslated others write addr at s t safe e in
    let only =
      open_page-IsSole others (t.vm.pagemap (n / 65536)) t d.safe d.present (d.writable refl) in
    rw same (record {
      safe = stored_word-IsSafe others n at v t d.safe d.in_range d.present d.address only v;
      in_range = d.in_range;
      present = d.present;
      written = λ k lt. stored_word-view n at v k t lt aligned d.address;
      own = λ a r m ne. (
        (d.own a r m).0,
        stored_word-own others n at v t d.safe d.in_range d.present d.address only v a r ne
            ∙ (d.own a r m).1,
      );
      other = λ j vm here a r m.
          let before = d.other j vm here a r m in
          (
            before.0,
            stored_word-other others n at v t d.safe d.in_range d.present d.address only v j vm a
                  here r
                ∙ before.1,
          );
    })

-- A word loaded at an aligned address whose four bytes are those of `v` is `v`; a load keeps the
-- invariant and changes nothing that the process sees.
pub read32-view :
    (others : List Vm) (addr : ℤ) (v w : ℕ) (s s' : Space)
    → IsSafe s.phys (s.vm ∷ others)
    → to_uint32 addr % 4 ≡ 0
    → v < 2 ^ 32
    → s.vm.pagemap (to_uint32 addr / 65536) ≢ 0
    → ((k : ℕ) → k < 4 → view s.phys s.vm (to_uint32 addr + k) ≡ byte_of v k)
    → read32 addr s ≡ ok (w, s')
    → (w ≡ v) × IsSafe s'.phys (s'.vm ∷ others) × SameView s.phys s.vm s'.phys s'.vm
unfolding read_word
read32-view others addr v w s s' safe aligned word present bytes h =
    let n = to_uint32 addr in
    let (at, e, value) = read32-translate addr w s s' aligned h in
    let d = translate-IsTranslated others read addr at s s' safe e in
    let byte : (k : ℕ) → k < 4 → s'.phys.mem (4 * (at / 4) + k) ≡ byte_of v k = λ k lt.
      let page : (n + k) / 65536 ≡ n / 65536 = omega arith in
      read_word-view n at s' aligned d.address k lt
      ∙ (d.own (n + k) (rw page d.in_range) (rw page present)).1
      ∙ bytes k lt in
    (value ∙ ground (arith, byte 0, byte 1, byte 2, byte 3, word_of-byte_of v word), d.safe, d.own)

-- A load at an aligned address below 2 ^ 32 changes the cache at most.
pub read32-same :
    (others : List Vm) (n w : ℕ) (s s' : Space)
    → n % 4 ≡ 0
    → n < 2 ^ 32
    → IsSafe s.phys (s.vm ∷ others)
    → read32 (pos n) s ≡ ok (w, s')
    → (s'.phys ≡ s.phys) × (s'.vm.pagemap ≡ s.vm.pagemap)
read32-same others n w s s' aligned small safe h =
    let at_n : n % 2 ^ 32 ≡ n = omega arith in
    let (at, e, value) = read32-translate (pos n) w s s' (rw at_n aligned) h in
    translate-same others read n at s s' (λ same. cc) safe e
