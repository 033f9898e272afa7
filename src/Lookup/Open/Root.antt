-- ===== src/Lookup/Open/Root.antt =====
-- A file that `sys_open` of src/syscalls.js makes by a path with a single `/`, at its start.
use noopsys.Base.{
  ℕ, zero, suc, ◌+◌, ◌^◌, ◌<◌, ◌≡◌, ◌≢◌, refl, ap, sym, ◌∙◌, true, false, Option, some, List, [],
  ◌∷◌, ◌++◌, length, arith, append_assoc,
}
use noopsys.Base.Word.{has, meets}
use noopsys.Base.Result.{Result, ok}
use noopsys.Constants.{o_append, o_creat, o_nofollow}
use noopsys.Lookup.{
  Tree, slash, split, split_off, is_empty, is_link, node_at, enoent, find_child, step, walk,
  get_node_for_path, get_node_for_abs_path,
}
use noopsys.Lookup.Open.{
  Fs, Children, Outcome, opened, put_child, pop, join, or_here, create_in, parent_path, sys_open,
}
use noopsys.Lookup.Open.Paths.{IsComponent, split-root, sys_open-create}
use noopsys.Lookup.Open.Created.{
  IsNumbered, IsNumbered-Agrees, made_file, made_file-IsMade, create_in-made_file,
}
use noopsys.Lookup.Open.Found.{child_of-some}
use noopsys.Lookup.Open.Reopened.{abs-Leads, walk-there, create-found}

empty-IsComponent : IsComponent []
unfolding split split_off
empty-IsComponent = refl

dot-IsComponent : IsComponent (46 ∷ [])
unfolding split split_off
dot-IsComponent = refl

-- An empty component changes nothing.
walk-empty :
    (t : Tree) (n node links : ℕ)
    → walk t false (suc n) node ([] ∷ []) links ≡ some (ok (node_at node))
unfolding walk step is_empty
walk-empty t zero node links = refl
walk-empty t (suc n) node links = refl

-- `./` leads to the working directory.
here-found :
    (n : ℕ) (cwd : List ℕ) (here : ℕ) (children : Children) (fs : Fs)
    → IsNumbered fs
    → get_node_for_abs_path fs.tree false n cwd ≡ some (ok (node_at here))
    → fs.tree.children here ≡ some children
    → find_child fs.tree (46 ∷ []) children ≡ some here
    → is_link fs.tree here ≡ false
    → get_node_for_path fs.tree false (suc (suc n)) cwd (46 ∷ slash ∷ []) ≡ some (ok (node_at here))
unfolding get_node_for_path
here-found n cwd here children fs numbered leads has_children dot plain =
    let a = IsNumbered-Agrees fs numbered in
    let first = abs-Leads (fs.inode + 1) fs.tree fs.tree n here cwd a leads in
    let dotted : get_node_for_abs_path fs.tree false (suc n) (cwd ++ slash ∷ 46 ∷ [])
        ≡ some (ok (node_at here)) =
      first.onwards (46 ∷ []) dot-IsComponent
      ∙ walk-there fs.tree first.rounds here here (46 ∷ []) first.links (unfold is_empty in refl)
          (child_of-some fs.tree here (46 ∷ []) children has_children ∙ ap ok dot) plain in
    let second =
      abs-Leads (fs.inode + 1) fs.tree fs.tree (suc n) here (cwd ++ slash ∷ 46 ∷ []) a dotted in
    ap (get_node_for_abs_path fs.tree false (suc (suc n)))
      (sym (append_assoc cwd (slash ∷ 46 ∷ []) (slash ∷ [])))
    ∙ second.onwards [] empty-IsComponent
    ∙ walk-empty fs.tree second.rounds here second.links

parent_path-here : (name : List ℕ) → IsComponent name → parent_path (slash ∷ name) ≡ 46 ∷ slash ∷ []
unfolding or_here is_empty pop join
parent_path-here name whole = rw (split-root name whole) refl

-- What `sys_open` does with a path that has a single `/`, at its start, and leads to nothing.
pub record IsMadeHere (here : ℕ) (name : List ℕ) (children : Children) (fs : Fs)
    (outcome : Option (Result (Outcome × Fs))) : Type 0 where
  pub made : Fs
  pub is_made : outcome ≡ some (ok (opened (length fs.fds), made))
  pub in_here : made.tree.children here ≡ some (put_child name (fs.inode + 1) children)
  pub elsewhere : (k : ℕ) → k ≢ here → k ≢ fs.inode + 1 → made.tree.children k ≡ fs.tree.children k

-- When the path of the working directory leads to a node that is no link, whose getChildren returns
-- the object it keeps and whose child `.` is the node itself, no node is numbered above the counter
-- of nodes, and /name leads to nothing, then opening /name with O_CREAT, without O_APPEND and without
-- O_NOFOLLOW, with permission bits below 2^12, makes the file among the children of the working
-- directory: the children of every other node, so of the root where it is another one, stay as they
-- are.
pub sys_open-IsMadeHere :
    (n flags mode : ℕ) (cwd name : List ℕ) (here : ℕ) (children : Children) (fs : Fs)
    → IsNumbered fs
    → IsComponent name
    → mode < 2 ^ 12
    → meets flags o_creat ≡ true
    → meets flags o_append ≡ false
    → has flags o_nofollow ≡ false
    → get_node_for_abs_path fs.tree false n cwd ≡ some (ok (node_at here))
    → fs.tree.children here ≡ some children
    → find_child fs.tree (46 ∷ []) children ≡ some here
    → is_link fs.tree here ≡ false
    → fs.rebuilt here ≡ false
    → get_node_for_path fs.tree false (suc (suc n)) cwd (slash ∷ name) ≡ some (ok enoent)
    → IsMadeHere here name children fs (sys_open (suc (suc n)) flags mode cwd (slash ∷ name) fs)
sys_open-IsMadeHere n flags mode cwd name here children fs numbered whole small creates no_append
      follows leads has_children dot plain kept missing =
    let a = IsNumbered-Agrees fs numbered in
    let old = (abs-Leads (fs.inode + 1) fs.tree fs.tree n here cwd a leads).old in
    let made = made_file flags mode here name children fs in
    let m = made_file-IsMade flags mode here name children fs in
    let parent_found : get_node_for_path fs.tree false (suc (suc n)) cwd
          (parent_path (slash ∷ name))
        ≡ some (ok (node_at here)) =
      ap (get_node_for_path fs.tree false (suc (suc n)) cwd) (parent_path-here name whole)
      ∙ here-found n cwd here children fs numbered leads has_children dot plain in
    let last : (pop (split (slash ∷ name))).1 ≡ name =
      unfold pop in ap (λ l. (pop l).1) (split-root name whole) in
    record {
      made = made;
      is_made =
          sys_open-create (suc (suc n)) flags mode cwd (slash ∷ name) fs creates
            (rw follows missing)
          ∙ create-found (suc (suc n)) flags mode cwd (slash ∷ name) fs here follows parent_found
          ∙ ap (λ l. some (create_in flags mode l fs (ok (node_at here)))) last
          ∙ ap some (
              create_in-made_file flags mode here name children fs small no_append old has_children
                kept);
      in_here = rw m.are_children (ground arith);
      elsewhere = λ k other older. rw m.are_children (ground (arith, other, older));
    }
