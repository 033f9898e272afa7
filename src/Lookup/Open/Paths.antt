-- ===== src/Lookup/Open/Paths.antt =====
-- The components of a path, as `sys_open` of src/syscalls.js takes them apart and together.
use noopsys.Base.{
  ℕ, ◌≡◌, refl, ap, ◌∙◌, true, some, List, [], ◌∷◌, ◌++◌, inl, inr, Bool-cases, arith, ◌==◌,
}
use noopsys.Base.Word.{meets, has}
use noopsys.Base.Result.{ok}
use noopsys.Constants.{o_creat, o_nofollow}
use noopsys.Lookup.{slash, split, split_off, enoent, get_node_for_path, is_empty}
use noopsys.Lookup.Open.{Fs, pop, join, or_here, parent_path, create, open_found, sys_open}

-- A name without `/`.
abbrev pub IsComponent : List ℕ → Type 0
IsComponent name = split name ≡ name ∷ []

pub split_off-slash :
    (path rest : List ℕ)
    → split_off (path ++ slash ∷ rest) ≡ ((split_off path).0, (split_off path).1 ++ split rest)
unfolding split_off split
split_off-slash [] rest = refl
split_off-slash (c ∷ path) rest = elim (Bool-cases (c == slash)) [
  | inl here ↦ rw (here, split_off-slash path rest) refl
  | inr there ↦ rw (there, split_off-slash path rest) refl
]

-- The components of a path with one more name at its end.
pub split-append :
    (path name : List ℕ) → IsComponent name → split (path ++ slash ∷ name) ≡ split path ++ name ∷ []
unfolding split
split-append path name whole = rw (split_off-slash path name, ← whole) refl

pub pop-append : (names : List (List ℕ)) (name : List ℕ) → pop (names ++ name ∷ []) ≡ (names, name)
unfolding pop
pop-append [] name = refl
pop-append (first ∷ []) name = refl
pop-append (first ∷ next ∷ names) name = rw (pop-append (next ∷ names) name) refl

pub join-split : (path : List ℕ) → join (split path) ≡ path
unfolding split split_off join
join-split [] = refl
join-split (c ∷ path) = elim (Bool-cases (c == slash)) [
  | inl here ↦
      let is_slash : c ≡ slash = ground arith in
      rw (here, is_slash) (ap (λ l. slash ∷ l) (join-split path))
  | inr there ↦
      rw there (joined (split_off path).0 (split_off path).1 ∙ ap (λ l. c ∷ l) (join-split path))
]
  where
    joined :
        (first : List ℕ) (rest : List (List ℕ))
        → join ((c ∷ first) ∷ rest) ≡ c ∷ join (first ∷ rest)
    joined first [] = refl
    joined first (next ∷ rest) = refl

-- The path of the directory in which a new file is made.
pub parent_path-append :
    (c : ℕ) (path name : List ℕ)
    → IsComponent name
    → parent_path ((c ∷ path) ++ slash ∷ name) ≡ c ∷ path
unfolding or_here is_empty
parent_path-append c path name whole =
    rw (
      split-append (c ∷ path) name whole,
      pop-append (split (c ∷ path)) name,
      join-split (c ∷ path),
    )

pub split-root : (name : List ℕ) → IsComponent name → split (slash ∷ name) ≡ [] ∷ name ∷ []
unfolding split split_off
split-root name whole = split-append [] name whole

pub parent_path-root :
    (name : List ℕ) → IsComponent name → parent_path (slash ∷ name) ≡ parent_path name
unfolding or_here is_empty pop join
parent_path-root name whole = rw (split-root name whole, whole) refl

-- A path that is not there, when a file may be made.
pub sys_open-create :
    (n flags mode : ℕ) (cwd filename : List ℕ) (fs : Fs)
    → meets flags o_creat ≡ true
    → get_node_for_path fs.tree (has flags o_nofollow) n cwd filename ≡ some (ok enoent)
    → sys_open n flags mode cwd filename fs ≡ create n flags mode cwd filename fs
unfolding sys_open open_found
sys_open-create n flags mode cwd filename fs creates missing = ground arith
