-- ===== src/Squash/Directory/Named.antt =====
-- The names in the object that `readEntries` of src/squashfs.js fills.
use noopsys.Base.{
  ℕ, ◌≡◌, refl, true, false, Option, none, some, List, [], ◌∷◌, if◌then◌else◌, inl, inr, Bool-cases,
  arith,
}
use noopsys.Squash.Directory.{Child, same_name, proto, put_own, put}

same_name-eq : (a b : List ℕ) → same_name a b ≡ true → a ≡ b
unfolding same_name
same_name-eq [] [] h = refl
same_name-eq [] (b ∷ bs) h = absurd (cc)
same_name-eq (a ∷ as_) [] h = absurd (cc)
same_name-eq (a ∷ as_) (b ∷ bs) h =
    let first : a ≡ b = ground arith in
    let rest : same_name as_ bs ≡ true = ground arith in rw (first, same_name-eq as_ bs rest) refl

same_name_refl : (a : List ℕ) → same_name a a ≡ true
unfolding same_name
same_name_refl [] = refl
same_name_refl (a ∷ as_) = ground (arith, same_name_refl as_)

-- `files[name]`, of the object's own names.
unfoldable pub find_file : List ℕ → List (List ℕ × Child) → Option Child
find_file name [] = none
find_file name ((other, child) ∷ files) =
    let rest = find_file name files in if same_name name other then some child else rest

-- A child that was put is found under its name, and the others are found as before.
find_file-put_own :
    (name other : List ℕ) (child : Child) (files : List (List ℕ × Child))
    → find_file other (put_own name child files)
      ≡ (if same_name other name then some child else find_file other files)
unfolding find_file put_own
find_file-put_own name other child [] = refl
find_file-put_own name other child ((first, old) ∷ files) =
    elim (Bool-cases (same_name name first)) [
      | inl here ↦
          let e : name ≡ first = same_name-eq name first here in
          rw (here, e)
            (elim (Bool-cases (same_name other first)) [ inl y ↦ rw y refl | inr n ↦ rw n refl ])
      | inr there ↦
          rw (there, find_file-put_own name other child files)
            (elim (Bool-cases (same_name other first)) [
              | inl y ↦
                  let e : other ≡ first = same_name-eq other first y in
                  elim (Bool-cases (same_name other name)) [
                    | inl z ↦
                        let e' : other ≡ name = same_name-eq other name z in
                        let both : same_name name first ≡ true =
                          rw (← e', ← e) (same_name_refl other) in
                        absurd (cc)
                    | inr n ↦ rw (y, n) refl
                  ]
              | inr n ↦ rw n refl
            ])
    ]

pub find_file-put :
    (name other : List ℕ) (child : Child) (files : List (List ℕ × Child))
    → same_name name proto ≡ false
    → find_file other (put name child files)
      ≡ (if same_name other name then some child else find_file other files)
unfolding put
find_file-put name other child files own = rw own (find_file-put_own name other child files)
