-- ===== src/Lookup/Open/Created.antt =====
-- The file that `sys_open` of src/syscalls.js makes is found again.
use noopsys.Base.{
  ℕ, ◌+◌, ◌*◌, ◌^◌, ◌≤◌, ◌<◌, ◌≡◌, ◌≢◌, refl, true, false, some, List, [], ◌∷◌, ◌++◌, length,
  if◌then◌else◌, inl, inr, Bool-cases, arith, update, bit_or, ◌==◌,
}
use noopsys.Base.Bits.{bit_or_join_low, bit_and_high}
use noopsys.Base.Word.{has, meets}
use noopsys.Base.Result.{ok}
use noopsys.Constants.{s_ifreg, s_iflnk, o_append, o_trunc}
use noopsys.Lookup.{Tree, same_name, node_at, child_of, find_child}
use noopsys.Lookup.Open.{
  Fs, Children, put_child, new_node, link_child, put_children, opened, truncate, open_node,
  create_in,
}
use noopsys.Lookup.Open.Walks.{Agrees}

pub same_name-eq : (a b : List ℕ) → same_name a b ≡ true → a ≡ b
unfolding same_name
same_name-eq [] [] h = refl
same_name-eq [] (b ∷ bs) h = absurd (cc)
same_name-eq (a ∷ as_) [] h = absurd (cc)
same_name-eq (a ∷ as_) (b ∷ bs) h =
    let first : a ≡ b = ground arith in
    let rest : same_name as_ bs ≡ true = ground arith in rw (first, same_name-eq as_ bs rest) refl

pub same_name_refl : (a : List ℕ) → same_name a a ≡ true
unfolding same_name
same_name_refl [] = refl
same_name_refl (a ∷ as_) = ground (arith, same_name_refl as_)

-- A child that was put is found under its name, and the others are found as before.
pub find_child-put_child :
    (t : Tree) (name other : List ℕ) (node : ℕ) (children : Children)
    → find_child t other (put_child name node children)
      ≡ (if same_name other name then some node else find_child t other children)
unfolding find_child put_child
find_child-put_child t name other node [] = refl
find_child-put_child t name other node ((first, old) ∷ children) =
    elim (Bool-cases (same_name name first)) [
      | inl here ↦
          let e : name ≡ first = same_name-eq name first here in
          rw (here, e)
            (elim (Bool-cases (same_name other first)) [ inl y ↦ rw y refl | inr n ↦ rw n refl ])
      | inr there ↦
          rw (there, find_child-put_child t name other node children)
            (elim (Bool-cases (same_name other first)) [
              | inl y ↦
                  let e : other ≡ first = same_name-eq other first y in
                  elim (Bool-cases (same_name other name)) [
                    | inl z ↦
                        let e' : other ≡ name = same_name-eq other name z in
                        let both : same_name name first ≡ true =
                          rw (← e', ← e) (same_name_refl other) in
                        absurd (cc)
                    | inr n ↦ rw (y, n) refl
                  ]
              | inr n ↦ rw n refl
            ])
    ]

-- No node has a number above `inode`.
pub record IsNumbered (fs : Fs) : Type 0 where
  pub root : fs.tree.root ≤ fs.inode
  pub child : (n : ℕ) (name : List ℕ) (m : ℕ) → child_of fs.tree n name ≡ ok (some m) → m ≤ fs.inode

-- The lookups of the tree that a file is made in.
pub IsNumbered-Agrees : (fs : Fs) → IsNumbered fs → Agrees (fs.inode + 1) fs.tree fs.tree
IsNumbered-Agrees fs numbered = record {
  same_root = refl;
  old_root = λ e. let r = numbered.root in omega (arith, e);
  mode = λ n old. refl;
  target = λ n old. refl;
  child = λ n name m old h. ((λ e. let b = numbered.child n name m h in omega (arith, e)), h);
}

-- The permissions of a new file, which is no link.
file_mode : (mode : ℕ) → mode < 2 ^ 12 → bit_or mode s_ifreg ≡ 8 * 2 ^ 12 + mode
file_mode mode small = bit_or_join_low 12 8 mode small

file_mode-meets : (mode : ℕ) → mode < 2 ^ 12 → meets (bit_or mode s_ifreg) s_ifreg ≡ true
unfolding meets
file_mode-meets mode small = rw (file_mode mode small, bit_and_high 12 8 mode 8 small) refl

pub file_mode-has : (mode : ℕ) → mode < 2 ^ 12 → has (bit_or mode s_ifreg) s_iflnk ≡ false
unfolding has
file_mode-has mode small = rw (file_mode mode small, bit_and_high 12 8 mode 10 small) refl

-- A node was made, and put under a name among the children `children` of the node `parent`.
pub record IsMade (mode parent : ℕ) (name : List ℕ) (children : Children) (fs made : Fs)
    : Type 0 where
  pub is_root : made.tree.root ≡ fs.tree.root
  pub is_inherited : made.tree.inherited ≡ fs.tree.inherited
  pub is_mode : made.tree.mode ≡ update fs.tree.mode (fs.inode + 1) (bit_or mode s_ifreg)
  pub target : (n : ℕ) → n ≢ fs.inode + 1 → made.tree.target n ≡ fs.tree.target n
  pub are_children :
      made.tree.children
      ≡ update
          (update fs.tree.children (fs.inode + 1) (some []))
          parent
          (some (put_child name (fs.inode + 1) children))

abbrev pub made_file : (flags mode parent : ℕ) → (name : List ℕ) → Children → Fs → Fs
made_file flags mode parent name children fs =
    let after = truncate flags (fs.inode + 1) (
      put_children parent (some (put_child name (fs.inode + 1) children))
        (new_node (bit_or mode s_ifreg) fs)) in
    record after { fds = after.fds ++ some (fs.inode + 1) ∷ [] }

pub made_file-IsMade :
    (flags mode parent : ℕ) (name : List ℕ) (children : Children) (fs : Fs)
    → IsMade mode parent name children fs (made_file flags mode parent name children fs)
unfolding truncate new_node
made_file-IsMade flags mode parent name children fs = elim (Bool-cases (meets flags o_trunc)) [
  | inl cut ↦ rw cut (record {
    is_root = refl;
    is_inherited = refl;
    is_mode = refl;
    target = λ n ne. ground (arith, ne);
    are_children = refl;
  })
  | inr whole ↦ rw whole (record {
    is_root = refl;
    is_inherited = refl;
    is_mode = refl;
    target = λ n ne. ground (arith, ne);
    are_children = refl;
  })
]

link_child-new_node :
    (mode parent : ℕ) (name : List ℕ) (children : Children) (fs : Fs)
    → parent ≢ fs.inode + 1
    → fs.tree.children parent ≡ some children
    → fs.rebuilt parent ≡ false
    → link_child parent name (fs.inode + 1) (new_node mode fs)
      ≡ ok (put_children parent (some (put_child name (fs.inode + 1) children)) (new_node mode fs))
unfolding link_child new_node
link_child-new_node mode parent name children fs old has_children kept =
    let other : (parent == fs.inode + 1) ≡ false = ground (arith, old) in
    let there : (new_node mode fs).tree.children parent ≡ some children = rw other has_children in
    let fixed : (new_node mode fs).rebuilt parent ≡ false = rw other kept in
    ground (arith, there, fixed)

open_node-regular :
    (flags node : ℕ) (fs : Fs)
    → meets flags o_append ≡ false
    → meets (fs.tree.mode node) s_ifreg ≡ true
    → open_node flags node fs
      ≡ ok (
        opened (length fs.fds),
        record (truncate flags node fs) { fds = (truncate flags node fs).fds ++ some node ∷ [] },
      )
unfolding open_node truncate
open_node-regular flags node fs no_append regular = ground (arith, no_append, regular)

pub create_in-made_file :
    (flags mode parent : ℕ) (name : List ℕ) (children : Children) (fs : Fs)
    → mode < 2 ^ 12
    → meets flags o_append ≡ false
    → parent ≢ fs.inode + 1
    → fs.tree.children parent ≡ some children
    → fs.rebuilt parent ≡ false
    → create_in flags mode name fs (ok (node_at parent))
      ≡ ok (opened (length fs.fds), made_file flags mode parent name children fs)
unfolding create_in
create_in-made_file flags mode parent name children fs small no_append old has_children kept =
    let linked =
      put_children parent (some (put_child name (fs.inode + 1) children))
        (new_node (bit_or mode s_ifreg) fs) in
    let regular : meets (linked.tree.mode (fs.inode + 1)) s_ifreg ≡ true =
      unfold new_node in ground (arith, file_mode-meets mode small) in
    let size : linked.fds ≡ fs.fds = unfold new_node in refl in
    ground (
      arith,
      size,
      link_child-new_node (bit_or mode s_ifreg) parent name children fs old has_children kept,
      open_node-regular flags (fs.inode + 1) linked no_append regular,
    )
