-- ===== src/Lookup/Open.antt =====
-- `sys_open` of src/syscalls.js, with the new node of `memFSNode` in src/noopfs.js.
pub mod Created
pub mod Found
pub mod Paths
pub mod Reopened
pub mod Root
pub mod Walks
pub mod Tests
use noopsys.Base.{
  ℕ, ◌+◌, ◌-◌, Bool, true, false, Option, none, some, List, [], ◌∷◌, ◌++◌, length, ◌&&◌, bit_or,
  if◌then◌else◌, update,
}
use noopsys.Base.Word.{has, meets}
use noopsys.Base.Result.{no_method, append_mode, Result, ok, err}
use noopsys.Constants.{s_ifreg, s_ifdir, o_append, o_creat, o_trunc, o_excl, o_nofollow}
use noopsys.Lookup.{
  Tree, slash, split, is_empty, same_name, Answer, node_at, enoent, eloop, get_node_for_path,
}

-- The nodes: `inode` is `globalInodeHack`, after which new nodes are numbered. `rebuilt` holds for
-- the nodes whose `getChildren` makes a new object at each call, as those of procFS do. `fds` are the
-- descriptors of the process, with the node of each file that was opened here.
pub record Fs : Type 0 where
  pub tree : Tree
  pub size : ℕ → ℕ
  pub inode : ℕ
  pub rebuilt : ℕ → Bool
  pub fds : List (Option ℕ)

abbrev pub Children : Type 0
Children = List (List ℕ × ℕ)

-- `children[name] = node`
unfoldable pub put_child : List ℕ → ℕ → Children → Children
put_child name node [] = (name, node) ∷ []
put_child name node ((other, old) ∷ children) =
    let rest = put_child name node children in
    if same_name name other then (other, node) ∷ children else (other, old) ∷ rest

abbrev pub put_children : ℕ → Option Children → Fs → Fs
put_children node children fs = record fs {
  tree = record fs.tree { children = update fs.tree.children node children };
}

-- `new memFSNode(null, parent)`, then `node.mode = mode`: the new node has the number behind
-- `inode`, no data and no children.
unfoldable pub new_node : (mode : ℕ) → Fs → Fs
new_node mode fs =
    let node = fs.inode + 1 in
    record {
      tree = record fs.tree {
        mode = update fs.tree.mode node mode;
        target = update fs.tree.target node [];
        children = update fs.tree.children node (some []);
      };
      size = update fs.size node 0;
      inode = node;
      rebuilt = update fs.rebuilt node false;
      fds = fs.fds;
    }

-- `parentnode.getChildren()[basename] = node`
unfoldable pub link_child : (parent : ℕ) → (name : List ℕ) → (node : ℕ) → Fs → Result Fs
link_child parent name node fs = elim (fs.tree.children parent) [
  | none ↦ err no_method
  | some children ↦ ok (
      if fs.rebuilt parent
      then fs
      else put_children parent (some (put_child name node children)) fs)
]

-- What the call returns: a descriptor, or an error.
pub data Outcome : Type 0 where
  opened : (fd : ℕ) → Outcome
  eexist enodev : Outcome
  not_found : Answer → Outcome

-- `if (flags & O_TRUNC)`
unfoldable pub truncate : (flags node : ℕ) → Fs → Fs
truncate flags node fs =
    if meets flags o_trunc
    then record fs {
      tree = record fs.tree { target = update fs.tree.target node [] };
      size = update fs.size node 0;
    }
    else fs

-- The end of the call, for a node.
unfoldable pub open_node : (flags node : ℕ) → Fs → Result (Outcome × Fs)
open_node flags node fs =
    let after = truncate flags node fs in
    if meets flags o_append
    then err append_mode
    else if meets (after.tree.mode node) s_ifreg
    then ok (opened (length after.fds), record after { fds = after.fds ++ some node ∷ [] })
    else if meets (after.tree.mode node) s_ifdir
    then ok (opened (length after.fds), record after { fds = after.fds ++ some node ∷ [] })
    else ok (enodev, after)

-- `path.pop()`: the last component, and the others.
unfoldable pub pop : List (List ℕ) → List (List ℕ) × List ℕ
pop [] = ([], [])
pop (name ∷ []) = ([], name)
pop (name ∷ next ∷ names) = let rest = pop (next ∷ names) in (name ∷ rest.0, rest.1)

-- `path.join("/")`
unfoldable pub join : List (List ℕ) → List ℕ
join [] = []
join (name ∷ []) = name
join (name ∷ next ∷ names) = name ++ slash ∷ join (next ∷ names)

-- `if (pathname == "") pathname = "./"`
unfoldable pub or_here : List ℕ → List ℕ
or_here path = if is_empty path then 46 ∷ slash ∷ [] else path

abbrev pub parent_path : List ℕ → List ℕ
parent_path filename = or_here (join (pop (split filename)).0)

-- The new node in the directory that was found for it, or `-ENOENT`.
unfoldable pub create_in :
    (flags mode : ℕ) → (name : List ℕ) → Fs → Result Answer → Result (Outcome × Fs)
create_in flags mode name fs (err e) = err e
create_in flags mode name fs (ok (node_at parent)) =
    elim (link_child parent name (fs.inode + 1) (new_node (bit_or mode s_ifreg) fs)) [
      | ok made ↦ open_node flags (fs.inode + 1) made
      | err e ↦ err e
    ]
create_in flags mode name fs (ok _) = ok (not_found enoent, fs)

-- The rounds that a lookup takes may run out.
unfoldable pub create :
    (n flags mode : ℕ) → (cwd filename : List ℕ) → Fs → Option (Result (Outcome × Fs))
create n flags mode cwd filename fs =
    elim (get_node_for_path fs.tree (has flags o_nofollow) n cwd (parent_path filename)) [
      | none ↦ none
      | some found ↦ some (create_in flags mode (pop (split filename)).1 fs found)
    ]

-- What the call comes to after the lookup of the path, `rest` being the creation of a file.
unfoldable pub open_found :
    (flags : ℕ)
    → Fs
    → Result Answer
    → (rest : Option (Result (Outcome × Fs))) → Option (Result (Outcome × Fs))
open_found flags fs (err e) rest = some (err e)
open_found flags fs (ok (node_at node)) rest =
    if has flags o_excl && has flags o_creat
    then some (ok (eexist, fs))
    else some (open_node flags node fs)
open_found flags fs (ok enoent) rest =
    if meets flags o_creat then rest else some (ok (not_found enoent, fs))
open_found flags fs (ok eloop) rest = some (ok (not_found eloop, fs))

unfoldable pub sys_open :
    (n flags mode : ℕ) → (cwd filename : List ℕ) → Fs → Option (Result (Outcome × Fs))
sys_open n flags mode cwd filename fs =
    elim (get_node_for_path fs.tree (has flags o_nofollow) n cwd filename) [
      | none ↦ none
      | some found ↦ open_found flags fs found (create n flags mode cwd filename fs)
    ]
