-- ===== src/Lookup/Open/Walks.antt =====
-- Lookups of src/noopfs.js that do not stop at links, in a tree that has gained a node.
use noopsys.Base.{
  ℕ, zero, suc, ◌+◌, ◌≡◌, ◌≢◌, refl, ◌∙◌, Bool, true, false, Option, none, some, List, [], ◌∷◌,
  ◌++◌, if◌then◌else◌, inl, inr, Bool-cases, arith, ltb, append_assoc,
}
use noopsys.Base.Result.{Error, Result, ok, err}
use noopsys.Lookup.{
  Tree, split, is_empty, is_link, is_absolute, Answer, node_at, enoent, eloop, child_of, Step,
  go_on, over, follow_link, enter, step, walk,
}

-- What is found among the nodes other than `new` is found in the other tree too, and is not `new`.
pub record Agrees (new : ℕ) (t t' : Tree) : Type 0 where
  pub same_root : t'.root ≡ t.root
  pub old_root : t.root ≢ new
  pub mode : (n : ℕ) → n ≢ new → t'.mode n ≡ t.mode n
  pub target : (n : ℕ) → n ≢ new → t'.target n ≡ t.target n
  pub child :
      (n : ℕ) (name : List ℕ) (m : ℕ)
      → n ≢ new
      → child_of t n name ≡ ok (some m)
      → (m ≢ new) × (child_of t' n name ≡ ok (some m))

-- A round that goes on does the same in the other tree, whatever follows.
data Round (new : ℕ) (tail : List (List ℕ)) : Step → Step → Type 0 where
  goes :
      (node : ℕ) (names : List (List ℕ)) (links : ℕ)
      → node ≢ new
      → Round new tail (go_on node names links) (go_on node (names ++ tail) links)
  fails : (e : Error) (s : Step) → Round new tail (over (err e)) s
  missing : (s : Step) → Round new tail (over (ok enoent)) s
  too_many : (s : Step) → Round new tail (over (ok eloop)) s

Round-follow_link :
    (new : ℕ) (tail : List (List ℕ)) (t t' : Tree) (node link : ℕ) (rest : List (List ℕ))
    (links : ℕ)
    → Agrees new t t'
    → node ≢ new
    → link ≢ new
    → Round new tail
        (follow_link t false node link rest links)
        (follow_link t' false node link (rest ++ tail) links)
unfolding follow_link
Round-follow_link new tail t t' node link rest links a old_node old_link =
    rw (a.target link old_link, a.same_root, ← append_assoc (split (t.target link)) rest tail)
      (followed (ltb 10 links))
  where
    base : (b : Bool) → (if b then t.root else node) ≢ new
    base true = a.old_root
    base false = old_node

    followed :
        (many : Bool)
        → Round new tail
            (if many
              then over (ok eloop)
              else go_on
                  (if is_absolute (t.target link) then t.root else node)
                  (split (t.target link) ++ rest)
                  (links + 1))
            (if many
              then over (ok eloop)
              else go_on
                  (if is_absolute (t.target link) then t.root else node)
                  ((split (t.target link) ++ rest) ++ tail)
                  (links + 1))
    followed true = too_many _
    followed false = goes _ _ _ (base (is_absolute (t.target link)))

Round-step :
    (new : ℕ) (tail : List (List ℕ)) (t t' : Tree) (node : ℕ) (name : List ℕ) (rest : List (List ℕ))
    (links : ℕ)
    → Agrees new t t'
    → node ≢ new
    → Round new tail
        (step t false node name rest links)
        (step t' false node name (rest ++ tail) links)
unfolding step enter
Round-step new tail t t' node name rest links a old = elim (Bool-cases (is_empty name)) [
  | inl nothing ↦ rw nothing (goes node rest links old)
  | inr named ↦ rw named (entered (child_of t node name) refl)
]
  where
    entered :
        (r : Result (Option ℕ))
        → child_of t node name ≡ r
        → Round new tail
            (enter t false node rest links r)
            (enter t' false node (rest ++ tail) links (child_of t' node name))
    entered (err e) h = fails e _
    entered (ok none) h = missing _
    entered (ok (some m)) h =
        let (old_m, found) = a.child node name m old h in
        let same : is_link t' m ≡ is_link t m = unfold is_link in rw (a.mode m old_m) refl in
        rw found (elim (Bool-cases (is_link t m)) [
          | inl link ↦
              rw (same, link) (Round-follow_link new tail t t' node m rest links a old old_m)
          | inr plain ↦ rw (same, plain) (goes m rest links old_m)
        ])

Round-goes :
    (new : ℕ) (tail : List (List ℕ)) (node : ℕ) (names : List (List ℕ)) (links : ℕ) (s : Step)
    → Round new tail (go_on node names links) s
    → (node ≢ new) × (s ≡ go_on node (names ++ tail) links)
Round-goes new tail node names links s (goes _ _ _ old) = (old, refl)

Round-over :
    (new : ℕ) (tail : List (List ℕ)) (r : Result Answer) (s : Step) (p : ℕ)
    → Round new tail (over r) s
    → r ≢ ok (node_at p)
Round-over new tail (err e) s p round same = cc
Round-over new tail (ok enoent) s p round same = cc
Round-over new tail (ok eloop) s p round same = cc
Round-over new tail (ok (node_at q)) s p round same = elim round [ ]

-- Where the walk comes to `p`, the walk in the other tree goes on from `p` with what follows.
pub record Reaches (t' : Tree) (n node p : ℕ) (names : List (List ℕ)) (links : ℕ) : Type 0 where
  pub rounds : ℕ
  pub followed : ℕ
  pub onwards :
      (tail : List (List ℕ))
      → walk t' false (suc n) node (names ++ tail) links
        ≡ walk t' false (suc rounds) p tail followed

walk-go_on :
    (t : Tree) (n node node' : ℕ) (name : List ℕ) (names names' : List (List ℕ)) (links links' : ℕ)
    → step t false node name names links ≡ go_on node' names' links'
    → walk t false (suc n) node (name ∷ names) links ≡ walk t false n node' names' links'
unfolding walk
walk-go_on t n node node' name names names' links links' e = ground (arith, e)

pub walk-Reaches :
    (new : ℕ) (t t' : Tree) (n node p : ℕ) (names : List (List ℕ)) (links : ℕ)
    → Agrees new t t'
    → node ≢ new
    → walk t false n node names links ≡ some (ok (node_at p))
    → (p ≢ new) × Reaches t' n node p names links
unfolding walk
walk-Reaches new t t' zero node p [] links a old h =
    let e : node ≡ p = ground arith in
    rw (← e) (old, record { rounds = 0; followed = links; onwards = λ tail. refl })
walk-Reaches new t t' (suc n) node p [] links a old h =
    let e : node ≡ p = ground arith in
    rw (← e) (old, record { rounds = suc n; followed = links; onwards = λ tail. refl })
walk-Reaches new t t' zero node p (name ∷ names) links a old h = absurd (ground arith)
walk-Reaches new t t' (suc n) node p (name ∷ names) links a old h =
    go (step t false node name names links) refl h
      (λ node' names' links' old' e. walk-Reaches new t t' n node' p names' links' a old' e)
  where
    go :
        (s : Step)
        → step t false node name names links ≡ s
        → elim s [
          | go_on node' names' links' ↦ walk t false n node' names' links'
          | over result ↦ some result
        ]
          ≡ some (ok (node_at p))
        → ((node' : ℕ) (names' : List (List ℕ)) (links' : ℕ)
            → node' ≢ new
            → walk t false n node' names' links' ≡ some (ok (node_at p))
            → (p ≢ new) × Reaches t' n node' p names' links')
        → (p ≢ new) × Reaches t' (suc n) node p (name ∷ names) links
    go (over r) e h rec = absurd (
        Round-over new [] r (step t' false node name (names ++ []) links) p
          (rw e at (Round-step new [] t t' node name names links a old)) (ground arith))
    go (go_on node' names' links') e h rec =
        let round = λ (tail : List (List ℕ)).
          Round-goes new tail node' names' links' (step t' false node name (names ++ tail) links)
            (rw e at (Round-step new tail t t' node name names links a old)) in
        let (old_p, r) = rec node' names' links' (round []).0 h in
        (
          old_p,
          record {
            rounds = r.rounds;
            followed = r.followed;
            onwards = λ tail.
                walk-go_on t' (suc n) node node' name (names ++ tail) (names' ++ tail) links links'
                  ((round tail).1)
                ∙ r.onwards tail;
          },
        )
