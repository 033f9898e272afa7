-- ===== src/Lookup/Laws.antt =====
-- The lookup of src/noopfs.js ends, and what it ends in.
use noopsys.Base.{
  ℕ, zero, suc, ◌+◌, ◌-◌, ◌*◌, ◌≤◌, ◌<◌, ◌≡◌, refl, sym, ap, ◌∙◌, Bool, true, false, ◌&&◌, Option,
  none, some, List, [], ◌∷◌, ◌++◌, length, ltb, if◌then◌else◌, inl, inr, Bool-cases, arith,
  length-append,
}
use noopsys.Base.Result.{Error, bad_path, Result, ok, err}
use noopsys.Lookup.{
  Tree, Step, go_on, over, follow_link, step, split, split_off, is_empty, is_link, is_absolute,
  Answer, node_at, enoent, eloop, child_of, enter, walk, get_node_for_abs_path,
}

-- Rounds that are enough: one for each component, and for each link that may still be followed as
-- many as its target has components.
abbrev pub rounds_for : (components most links : ℕ) → ℕ
rounds_for components most links = components + (11 - links) * most

-- Some answer.
record Ends (o : Option (Result Answer)) : Type 0 where
  result : Result Answer
  ended : o ≡ some result

-- A round that goes on leaves fewer rounds to go.
data Shrinks (most before : ℕ) : Step → Type 0 where
  is_over : (r : Result Answer) → Shrinks most before (over r)
  smaller :
      (node : ℕ) (names : List (List ℕ)) (links : ℕ)
      → rounds_for (length names) most links < before
      → Shrinks most before (go_on node names links)

Shrinks-follow_link :
    (tree : Tree) (stop : Bool) (most node new : ℕ) (rest : List (List ℕ)) (links : ℕ)
    → ((link : ℕ) → length (split (tree.target link)) ≤ most)
    → Shrinks most
        (suc (rounds_for (length rest) most links))
        (follow_link tree stop node new rest links)
unfolding follow_link
Shrinks-follow_link tree stop most node new rest links short =
    elim (Bool-cases (stop && is_empty rest)) [
      | inl last ↦ rw (last) (is_over _)
      | inr more ↦ elim (Bool-cases (ltb 10 links)) [
        | inl many ↦ rw (more, many) (is_over _)
        | inr few ↦
            let next = 11 - (links + 1) in
            let one_less : 11 - links ≡ suc next = ground arith in
            let product : suc next * most ≡ most + next * most = omega arith in
            let fewer = ap (λ k. k * most) one_less ∙ product in
            rw (more, few)
              (smaller _ _ (links + 1)
                (omega (arith, fewer, short new, length-append (split (tree.target new)) rest)))
      ]
    ]

Shrinks-step :
    (tree : Tree) (stop : Bool) (most node : ℕ) (name : List ℕ) (rest : List (List ℕ)) (links : ℕ)
    → ((link : ℕ) → length (split (tree.target link)) ≤ most)
    → Shrinks most (suc (rounds_for (length rest) most links)) (step tree stop node name rest links)
unfolding step enter
Shrinks-step tree stop most node name rest links short = elim (Bool-cases (is_empty name)) [
  | inl none_there ↦ rw (none_there) (smaller _ _ _ (omega arith))
  | inr there ↦ rw (there) (entered (child_of tree node name))
]
  where
    entered :
        (r : Result (Option ℕ))
        → Shrinks most
            (suc (rounds_for (length rest) most links))
            (enter tree stop node rest links r)
    entered (err e) = is_over _
    entered (ok none) = is_over _
    entered (ok (some new)) = elim (Bool-cases (is_link tree new)) [
      | inl link ↦ rw (link) (Shrinks-follow_link tree stop most node new rest links short)
      | inr plain ↦ rw (plain) (smaller _ _ _ (omega arith))
    ]

Ends-walk :
    (tree : Tree) (stop : Bool) (most n node : ℕ) (names : List (List ℕ)) (links : ℕ)
    → ((link : ℕ) → length (split (tree.target link)) ≤ most)
    → rounds_for (length names) most links ≤ n
    → Ends (walk tree stop n node names links)
unfolding walk
Ends-walk tree stop most zero node [] links short enough = record { result = _; ended = refl }
Ends-walk tree stop most (suc n) node [] links short enough = record { result = _; ended = refl }
Ends-walk tree stop most zero node (name ∷ rest) links short enough = absurd (omega arith)
Ends-walk tree stop most (suc n) node (name ∷ rest) links short enough =
    go (step tree stop node name rest links)
      (Shrinks-step tree stop most node name rest links short)
      (λ node' names' links' lt. Ends-walk tree stop most n node' names' links' short (omega arith))
  where
    go :
        (s : Step)
        → Shrinks most (suc (rounds_for (length rest) most links)) s
        → ((node' : ℕ) (names' : List (List ℕ)) (links' : ℕ)
            → rounds_for (length names') most links' < suc (rounds_for (length rest) most links)
            → Ends (walk tree stop n node' names' links'))
        → Ends (elim s [
          | go_on node' names' links' ↦ walk tree stop n node' names' links'
          | over result ↦ some result
        ])
    go (over r) _ rec = record { result = r; ended = refl }
    go (go_on node' names' links') (smaller _ _ _ lt) rec = rec node' names' links' lt

-- Every lookup of an absolute path ends: when no link's target has more than `most` components, the
-- path's number of components and eleven times `most` are rounds enough, in a tree with any loops of
-- links.
pub get_node_for_abs_path-enough :
    (tree : Tree) (stop : Bool) (most : ℕ) (path : List ℕ)
    → ((link : ℕ) → length (split (tree.target link)) ≤ most)
    → (result : Result Answer) × (get_node_for_abs_path tree stop
          (length (split path) + 11 * most)
          path
        ≡ some result)
unfolding get_node_for_abs_path split
get_node_for_abs_path-enough tree stop most path short =
    elim (Bool-cases (is_empty (split_off path).0)) [
      | inl absolute ↦
          let e =
            Ends-walk tree stop most (length (split path) + 11 * most) tree.root (split_off path).1
              0 short (omega arith) in
          (e.result, rw (absolute) e.ended)
      | inr relative ↦ (err bad_path, rw (relative) refl)
    ]

-- A result that is not a symbolic link.
pub data NoLink (tree : Tree) : Result Answer → Type 0 where
  fails : (e : Error) → NoLink tree (err e)
  not_there : NoLink tree (ok enoent)
  too_many : NoLink tree (ok eloop)
  plain : (node : ℕ) → is_link tree node ≡ false → NoLink tree (ok (node_at node))

data NoLinkStep (tree : Tree) : Step → Type 0 where
  over_plain : (r : Result Answer) → NoLink tree r → NoLinkStep tree (over r)
  at_plain :
      (node : ℕ) (names : List (List ℕ)) (links : ℕ)
      → is_link tree node ≡ false
      → NoLinkStep tree (go_on node names links)

NoLinkStep-step :
    (tree : Tree) (node : ℕ) (name : List ℕ) (rest : List (List ℕ)) (links : ℕ)
    → is_link tree tree.root ≡ false
    → is_link tree node ≡ false
    → NoLinkStep tree (step tree false node name rest links)
unfolding step enter follow_link
NoLinkStep-step tree node name rest links root here = elim (Bool-cases (is_empty name)) [
  | inl none_there ↦ rw (none_there) (at_plain node rest links here)
  | inr there ↦ rw (there) (entered (child_of tree node name))
]
  where
    base : (b : Bool) → is_link tree (if b then tree.root else node) ≡ false
    base true = root
    base false = here

    followed :
        (many : Bool) (new : ℕ)
        → NoLinkStep tree (
            if many
            then over (ok eloop)
            else go_on
                (if is_absolute (tree.target new) then tree.root else node)
                (split (tree.target new) ++ rest)
                (links + 1))
    followed true new = over_plain _ too_many
    followed false new = at_plain _ _ _ (base (is_absolute (tree.target new)))

    entered : (r : Result (Option ℕ)) → NoLinkStep tree (enter tree false node rest links r)
    entered (err e) = over_plain _ (fails e)
    entered (ok none) = over_plain _ not_there
    entered (ok (some new)) = elim (Bool-cases (is_link tree new)) [
      | inl link ↦ rw (link) (followed (ltb 10 links) new)
      | inr no_link ↦ rw (no_link) (at_plain new rest links no_link)
    ]

value_of : {q : Result Answer} (r : Result Answer) → some q ≡ some r → q ≡ r
value_of r e = ap (λ o. elim o [ some x ↦ x | none ↦ r ]) e

NoLink-walk :
    (tree : Tree) (n node : ℕ) (names : List (List ℕ)) (links : ℕ) (r : Result Answer)
    → is_link tree tree.root ≡ false
    → is_link tree node ≡ false
    → walk tree false n node names links ≡ some r
    → NoLink tree r
unfolding walk
NoLink-walk tree zero node [] links r root here e = rw (sym (value_of r e)) (plain node here)
NoLink-walk tree (suc n) node [] links r root here e = rw (sym (value_of r e)) (plain node here)
NoLink-walk tree zero node (name ∷ rest) links r root here e = absurd (ground arith)
NoLink-walk tree (suc n) node (name ∷ rest) links r root here e =
    go (step tree false node name rest links) (NoLinkStep-step tree node name rest links root here)
      (λ node' names' links' here' e'. NoLink-walk tree n node' names' links' r root here' e') e
  where
    go :
        (s : Step)
        → NoLinkStep tree s
        → ((node' : ℕ) (names' : List (List ℕ)) (links' : ℕ)
            → is_link tree node' ≡ false
            → walk tree false n node' names' links' ≡ some r
            → NoLink tree r)
        → elim s [
          | go_on node' names' links' ↦ walk tree false n node' names' links'
          | over result ↦ some result
        ]
          ≡ some r
        → NoLink tree r
    go (over q) (over_plain _ p) rec e = rw (sym (value_of r e)) p
    go (go_on node' names' links') (at_plain _ _ _ here') rec e = rec node' names' links' here' e

-- A lookup that does not stop at links ends, with the same number of rounds, in a node that is no
-- link, in an error or in a failure, when the root is not a link.
pub get_node_for_abs_path-NoLink :
    (tree : Tree) (most : ℕ) (path : List ℕ)
    → ((link : ℕ) → length (split (tree.target link)) ≤ most)
    → is_link tree tree.root ≡ false
    → (result : Result Answer) × (get_node_for_abs_path tree false
          (length (split path) + 11 * most)
          path
        ≡ some result)
      × NoLink tree result
unfolding get_node_for_abs_path split
get_node_for_abs_path-NoLink tree most path short root =
    elim (Bool-cases (is_empty (split_off path).0)) [
      | inl absolute ↦
          let n = length (split path) + 11 * most in
          let e = Ends-walk tree false most n tree.root (split_off path).1 0 short (omega arith) in
          (
            e.result,
            rw (absolute) e.ended,
            NoLink-walk tree n tree.root (split_off path).1 0 e.result root root e.ended,
          )
      | inr relative ↦ (err bad_path, rw (relative) refl, fails bad_path)
    ]
