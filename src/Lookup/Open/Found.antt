-- ===== src/Lookup/Open/Found.antt =====
-- Lookups of src/noopfs.js after `sys_open` of src/syscalls.js has made a file.
use noopsys.Base.{
  ℕ, ◌+◌, ◌≡◌, ◌≢◌, refl, ap, sym, ◌∙◌, Option, none, some, List, [], ◌∷◌, if◌then◌else◌, inl, inr,
  Bool-cases, arith, ◌==◌,
}
use noopsys.Base.Result.{ok}
use noopsys.Lookup.{Tree, same_name, child_of, find_child}
use noopsys.Lookup.Open.{Fs, Children, put_child}
use noopsys.Lookup.Open.Walks.{Agrees}
use noopsys.Lookup.Open.Created.{
  IsNumbered, IsNumbered-Agrees, IsMade, find_child-put_child, same_name-eq,
}

find_child-inherited :
    (t t' : Tree) (name : List ℕ) (children : Children)
    → t'.inherited ≡ t.inherited
    → find_child t' name children ≡ find_child t name children
unfolding find_child
find_child-inherited t t' name [] same = rw same refl
find_child-inherited t t' name ((other, node) ∷ children) same =
    rw (find_child-inherited t t' name children same) refl

pub child_of-some :
    (t : Tree) (n : ℕ) (name : List ℕ) (children : Children)
    → t.children n ≡ some children
    → child_of t n name ≡ ok (find_child t name children)
unfolding child_of
child_of-some t n name children e = ground (arith, e)

module _ (mode parent : ℕ) (name : List ℕ) (children : Children) (fs made : Fs)
    (m : IsMade mode parent name children fs made) (old_parent : parent ≢ fs.inode + 1)
    (has_children : fs.tree.children parent ≡ some children) where
  pub child_of-parent :
      (other : List ℕ)
      → child_of made.tree parent other
        ≡ ok (
            if same_name other name then some (fs.inode + 1) else find_child fs.tree other children)
  child_of-parent other =
      let here : made.tree.children parent ≡ some (put_child name (fs.inode + 1) children) =
        rw m.are_children (ground arith) in
      child_of-some made.tree parent other (put_child name (fs.inode + 1) children) here
      ∙ ap ok (
          find_child-put_child made.tree name other (fs.inode + 1) children
          ∙ rw (find_child-inherited fs.tree made.tree other children m.is_inherited) refl)

  child_of-elsewhere :
      (n : ℕ) (other : List ℕ)
      → n ≢ fs.inode + 1
      → n ≢ parent
      → child_of made.tree n other ≡ child_of fs.tree n other
  unfolding child_of
  child_of-elsewhere n other old elsewhere =
      let same : made.tree.children n ≡ fs.tree.children n =
        rw m.are_children (ground (arith, old, elsewhere)) in
      go (fs.tree.children n) same refl
    where
      go :
          (o : Option Children)
          → made.tree.children n ≡ fs.tree.children n
          → fs.tree.children n ≡ o
          → child_of made.tree n other ≡ child_of fs.tree n other
      go none same e = ground (arith, same, e)
      go (some cs) same e =
          ground (arith, same, e, find_child-inherited fs.tree made.tree other cs m.is_inherited)

  pub IsMade-Agrees :
      IsNumbered fs
      → find_child fs.tree name children ≡ none
      → Agrees (fs.inode + 1) fs.tree made.tree
  IsMade-Agrees numbered missing =
      let before = IsNumbered-Agrees fs numbered in
      record {
        same_root = m.is_root;
        old_root = before.old_root;
        mode = λ n old. rw m.is_mode (ground (arith, old));
        target = m.target;
        child = λ n other k old h. (
          (before.child n other k old h).0,
          elim (Bool-cases (n == parent)) [
            | inr elsewhere ↦ child_of-elsewhere n other old (ground arith) ∙ h
            | inl here ↦
                let e : n ≡ parent = ground arith in
                let there : child_of fs.tree parent other ≡ ok (find_child fs.tree other children) =
                  child_of-some fs.tree parent other children has_children in
                elim (Bool-cases (same_name other name)) [
                  | inl same ↦
                      let is_name : other ≡ name = same_name-eq other name same in
                      let none_there : child_of fs.tree n other ≡ ok none =
                        rw (e, is_name) (rw is_name at there ∙ ap ok missing) in
                      absurd (ground (arith, none_there))
                  | inr differs ↦ rw e (child_of-parent other ∙ rw differs (sym there ∙ rw e at h))
                ]
          ],
        );
      }
