-- ===== src/Lookup.antt =====
-- `getNodeForAbsPath` and `getNodeForPath` of src/noopfs.js: from a path to a node.
pub mod Laws
pub mod Open
pub mod Tests
use noopsys.Base.{
  ℕ, zero, suc, ◌+◌, Bool, true, false, not, ◌&&◌, Option, none, some, List, [], ◌∷◌, ◌++◌, ltb,
  ◌==◌, if◌then◌else◌,
}
use noopsys.Base.Word.{has}
use noopsys.Base.Result.{no_method, bad_path, Result, ok, err}
use noopsys.Constants.{s_iflnk}

-- The nodes, by number, as the lookup sees them. `children` is what `getChildren` returns, where
-- the node has that method: files of the image have not. `inherited` are the properties that every
-- object of JavaScript has, which the operator `in` finds too: the language's own code.
pub record Tree : Type 0 where
  pub root : ℕ
  pub mode : ℕ → ℕ
  pub target : ℕ → List ℕ
  pub children : ℕ → Option (List (List ℕ × ℕ))
  pub inherited : List ℕ → Option ℕ

-- The character `/`.
abbrev pub slash : ℕ
slash = 47

-- `path.split("/")`: the first component, and the others.
unfoldable pub split_off : List ℕ → List ℕ × List (List ℕ)
split_off [] = ([], [])
split_off (c ∷ cs) =
    let rest = split_off cs in if c == slash then ([], rest.0 ∷ rest.1) else (c ∷ rest.0, rest.1)

unfoldable pub split : List ℕ → List (List ℕ)
split cs = let parts = split_off cs in parts.0 ∷ parts.1

unfoldable pub is_empty {ℓ} : {A : Type ℓ} → List A → Bool
is_empty [] = true
is_empty (_ ∷ _) = false

unfoldable pub same_name : List ℕ → List ℕ → Bool
same_name [] [] = true
same_name [] (_ ∷ _) = false
same_name (_ ∷ _) [] = false
same_name (c ∷ cs) (d ∷ ds) = (c == d) && same_name cs ds

-- `children[name]`, where `name in children`.
unfoldable pub find_child : Tree → List ℕ → List (List ℕ × ℕ) → Option ℕ
find_child tree name [] = tree.inherited name
find_child tree name ((other, node) ∷ children) =
    let rest = find_child tree name children in if same_name name other then some node else rest

unfoldable pub is_link : Tree → ℕ → Bool
is_link tree node = has (tree.mode node) s_iflnk

-- `newNode.data[0] == "/"`
unfoldable pub is_absolute : List ℕ → Bool
is_absolute [] = false
is_absolute (c ∷ _) = c == slash

pub data Answer : Type 0 where
  node_at : ℕ → Answer
  enoent eloop : Answer

-- One component, looked up in a node that is not at the end of the path.
unfoldable pub child_of : Tree → (node : ℕ) → (name : List ℕ) → Result (Option ℕ)
child_of tree node name = elim (tree.children node) [
  | none ↦ err no_method
  | some children ↦ ok (find_child tree name children)
]

-- What one round of the loop comes to: it goes on with a node, the components that are left and
-- `numLinks`, or it is over.
pub data Step : Type 0 where
  go_on : (node : ℕ) → List (List ℕ) → (links : ℕ) → Step
  over : Result Answer → Step

unfoldable pub follow_link :
    Tree → (stop_on_links : Bool) → (node new : ℕ) → List (List ℕ) → (links : ℕ) → Step
follow_link tree stop node new rest links =
    if stop && is_empty rest
    then over (ok (node_at new))
    else if ltb 10 links
    then over (ok eloop)
    else go_on (if is_absolute (tree.target new) then tree.root else node)
        (split (tree.target new) ++ rest) (links + 1)

-- The round, once the component has been looked up.
unfoldable pub enter :
    Tree
    → (stop_on_links : Bool) → (node : ℕ) → List (List ℕ)
    → (links : ℕ) → Result (Option ℕ)
    → Step
enter tree stop node rest links (err e) = over (err e)
enter tree stop node rest links (ok none) = over (ok enoent)
enter tree stop node rest links (ok (some new)) =
    if is_link tree new then follow_link tree stop node new rest links else go_on new rest links

unfoldable pub step :
    Tree → (stop_on_links : Bool) → (node : ℕ) → List ℕ → List (List ℕ) → (links : ℕ) → Step
step tree stop node name rest links =
    if is_empty name
    then go_on node rest links
    else enter tree stop node rest links (child_of tree node name)

-- The loop, with `n` rounds left. There is no answer when the rounds run out.
unfoldable pub walk :
    Tree
    → (stop_on_links : Bool) → (n node : ℕ) → List (List ℕ)
    → (links : ℕ) → Option (Result Answer)
walk tree stop n node [] links = some (ok (node_at node))
walk tree stop zero node (name ∷ rest) links = none
walk tree stop (suc n) node (name ∷ rest) links = elim (step tree stop node name rest links) [
  | go_on node' names links' ↦ walk tree stop n node' names links'
  | over result ↦ some result
]

-- `getNodeForAbsPath`, with `n` rounds: a path must begin with `/`.
unfoldable pub get_node_for_abs_path : Tree → Bool → ℕ → List ℕ → Option (Result Answer)
get_node_for_abs_path tree stop n path =
    let parts = split_off path in
    if is_empty parts.0 then walk tree stop n tree.root parts.1 0 else some (err bad_path)

unfoldable pub get_node_for_path : Tree → Bool → ℕ → (cwd path : List ℕ) → Option (Result Answer)
get_node_for_path tree stop n cwd [] = some (ok enoent)
get_node_for_path tree stop n cwd (c ∷ cs) =
    if c == slash
    then get_node_for_abs_path tree stop n (c ∷ cs)
    else get_node_for_abs_path tree stop n (cwd ++ (slash ∷ (c ∷ cs)))
