-- ===== src/Descriptors/Count.antt =====
-- How many descriptors refer to an object (`fds` of src/process.js).
use noopsys.Base.{
  ltb, ap, sym, ◌-◌, ℕ, ◌+◌, ◌≤◌, ◌<◌, refl, if◌then◌else◌, ◌≡◌, ◌≢◌, ◌∙◌, max, arith, ◌==◌, inl,
  inr, Bool-cases,
}
use noopsys.Space.Count.{one_if, mapped, mapped-update, mapped-update_above, mapped-beyond}
use noopsys.Descriptors.{writer, Objects, Fds, max_length, set_fd, append_fd}

abbrev pub count : Fds → ℕ → ℕ
count fds o = mapped fds.size fds.table o

-- There is nothing behind the end of the table.
abbrev pub IsTidy : Fds → Type 0
IsTidy fds = (i : ℕ) → fds.size ≤ i → fds.table i ≡ 0

-- Each writer of a pipe has counted its descriptors, of which there are `held o` for the object
-- `o`, and no descriptor refers to an object that is not there yet.
pub record IsCounted (os : Objects) (held : ℕ → ℕ) : Type 0 where
  pub counted : (o refs : ℕ) → o ≢ 0 → os.kinds o ≡ writer refs → refs ≡ held o
  pub fresh : (o : ℕ) → os.next ≤ o → held o ≡ 0
  pub some_next : 1 ≤ os.next

-- Setting a descriptor takes one reference from what it referred to, and gives one to the object.
pub set_fd-count :
    (fds : Fds) (i q o : ℕ)
    → (q ≢ 0 → i < max_length)
    → IsTidy fds
    → o ≢ 0
    → count (set_fd i q fds) o + one_if (fds.table i == o) ≡ count fds o + one_if (q == o)
unfolding set_fd
set_fd-count fds i q o index tidy some_o = elim (Bool-cases (ltb i fds.size)) [
  | inl inside ↦
      let same : (if ltb i max_length then max fds.size (i + 1) else fds.size) ≡ fds.size =
        ground arith in
      rw same (mapped-update fds.size fds.table i q o (ground arith))
  | inr outside ↦ elim (Bool-cases (ltb i max_length)) [
    | inl below ↦
        let more : max fds.size (i + 1) ≡ i + 1 = ground arith in
        let grown : (i + 1 - fds.size) + fds.size ≡ i + 1 = ground arith in
        let wider = mapped-beyond fds.size (i + 1 - fds.size) fds.table o some_o tidy in
        rw (below, more)
          (mapped-update (i + 1) fds.table i q o (omega arith)
            ∙ ap (λ n. n + one_if (q == o)) (ap (λ n. mapped n fds.table o) (sym grown) ∙ wider))
    | inr above ↦
        let empty : fds.table i ≡ 0 = tidy i (ground arith) in
        let cleared : q ≡ 0 = elim (Bool-cases (q == 0)) [
          | inl e ↦ ground arith
          | inr e ↦ absurd (let h = index (λ z. ground arith) in ground arith)
        ] in
        let same = mapped-update_above fds.size fds.table i q o (ground arith) in
        rw (above, same, empty, cleared) refl
  ]
]

pub set_fd-IsTidy :
    (fds : Fds) (i q : ℕ) → (q ≢ 0 → i < max_length) → IsTidy fds → IsTidy (set_fd i q fds)
unfolding set_fd
set_fd-IsTidy fds i q index tidy j h = ground (arith, tidy j, index)

pub append_fd-count :
    (fds : Fds) (q o : ℕ)
    → IsTidy fds
    → o ≢ 0
    → count (append_fd q fds) o ≡ count fds o + one_if (q == o)
unfolding append_fd
append_fd-count fds q o tidy some_o =
    let empty : fds.table fds.size ≡ 0 = tidy fds.size (omega arith) in
    let grown : fds.size + 1 ≡ 1 + fds.size = omega arith in
    let updated = mapped-update (fds.size + 1) fds.table fds.size q o (omega arith) in
    let wider : mapped (fds.size + 1) fds.table o ≡ mapped fds.size fds.table o =
      ap (λ n. mapped n fds.table o) grown ∙ mapped-beyond fds.size 1 fds.table o some_o tidy in
    ground (arith, updated, wider, empty)

pub append_fd-IsTidy : (fds : Fds) (q : ℕ) → IsTidy fds → IsTidy (append_fd q fds)
unfolding append_fd
append_fd-IsTidy fds q tidy j h = ground (arith, tidy j)
