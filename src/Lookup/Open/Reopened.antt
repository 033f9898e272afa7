-- ===== src/Lookup/Open/Reopened.antt =====
-- A path under which `sys_open` of src/syscalls.js has made a file leads to it.
use noopsys.Base.{
  ℕ, zero, suc, ◌+◌, ◌^◌, ◌<◌, ◌≡◌, ◌≢◌, refl, ap, sym, ◌∙◌, true, false, Option, none, some, List,
  [], ◌∷◌, ◌++◌, length, if◌then◌else◌, inl, inr, Bool-cases, arith, append_assoc, append-nil, ◌==◌,
}
use noopsys.Base.Word.{has, meets}
use noopsys.Base.Result.{Result, ok}
use noopsys.Constants.{s_iflnk, o_append, o_creat, o_nofollow}
use noopsys.Lookup.{
  Tree, slash, split, split_off, is_empty, is_link, node_at, enoent, child_of, find_child, step,
  enter, walk, get_node_for_path, get_node_for_abs_path,
}
use noopsys.Lookup.Open.{
  Fs, Children, Outcome, opened, pop, create_in, create, parent_path, sys_open,
}
use noopsys.Lookup.Open.Paths.{
  IsComponent, split-append, split_off-slash, pop-append, parent_path-append, sys_open-create,
}
use noopsys.Lookup.Open.Walks.{Agrees, walk-Reaches}
use noopsys.Lookup.Open.Created.{
  IsNumbered, IsNumbered-Agrees, made_file, made_file-IsMade, create_in-made_file, file_mode-has,
  same_name_refl,
}
use noopsys.Lookup.Open.Found.{child_of-some, child_of-parent, IsMade-Agrees}

-- The path that the lookup of a path comes to.
abbrev full : (cwd : List ℕ) → ℕ → List ℕ → List ℕ
full cwd c cs = if c == slash then c ∷ cs else cwd ++ slash ∷ c ∷ cs

get_node_for_path-full :
    (t : Tree) (n : ℕ) (cwd : List ℕ) (c : ℕ) (cs : List ℕ)
    → get_node_for_path t false n cwd (c ∷ cs) ≡ get_node_for_abs_path t false n (full cwd c cs)
unfolding get_node_for_path
get_node_for_path-full t n cwd c cs = elim (Bool-cases (c == slash)) [
  | inl absolute ↦ rw absolute refl
  | inr relative ↦ rw relative refl
]

full-append :
    (cwd : List ℕ) (c : ℕ) (cs name : List ℕ)
    → full cwd c (cs ++ slash ∷ name) ≡ full cwd c cs ++ slash ∷ name
full-append cwd c cs name = elim (Bool-cases (c == slash)) [
  | inl absolute ↦ rw absolute refl
  | inr relative ↦ rw relative (sym (append_assoc cwd (slash ∷ c ∷ cs) (slash ∷ name)))
]

-- What is known of the other tree when an absolute path leads to `p`.
pub record Leads (t' : Tree) (new n p : ℕ) (path : List ℕ) : Type 0 where
  pub old : p ≢ new
  pub rounds : ℕ
  pub links : ℕ
  pub again : get_node_for_abs_path t' false (suc n) path ≡ some (ok (node_at p))
  pub onwards :
      (name : List ℕ)
      → IsComponent name
      → get_node_for_abs_path t' false (suc n) (path ++ slash ∷ name)
        ≡ walk t' false (suc rounds) p (name ∷ []) links

abs-walk :
    (t : Tree) (n root : ℕ) (path : List ℕ)
    → is_empty (split_off path).0 ≡ true
    → t.root ≡ root
    → get_node_for_abs_path t false n path ≡ walk t false n root (split_off path).1 0
unfolding get_node_for_abs_path
abs-walk t n root path absolute same =
    rw absolute (ap (λ r. walk t false n r (split_off path).1 0) same)

pub abs-Leads :
    (new : ℕ) (t t' : Tree) (n p : ℕ) (path : List ℕ)
    → Agrees new t t'
    → get_node_for_abs_path t false n path ≡ some (ok (node_at p))
    → Leads t' new n p path
unfolding get_node_for_abs_path
abs-Leads new t t' n p path a h = elim (Bool-cases (is_empty (split_off path).0)) [
  | inr relative ↦ absurd (let e = rw relative at h in ground arith)
  | inl absolute ↦
      let (old, r) =
        walk-Reaches new t t' n t.root p (split_off path).1 0 a a.old_root (rw absolute at h) in
      record {
        old = old;
        rounds = r.rounds;
        links = r.followed;
        again =
            abs-walk t' (suc n) t.root path absolute a.same_root
            ∙ sym
                (ap (λ names. walk t' false (suc n) t.root names 0) (append-nil (split_off path).1))
            ∙ r.onwards []
            ∙ unfold walk in refl;
        onwards = λ name whole.
            let parts : split_off (path ++ slash ∷ name)
                ≡ ((split_off path).0, (split_off path).1 ++ name ∷ []) =
              split_off-slash path name
              ∙ ap (λ l. ((split_off path).0, (split_off path).1 ++ l)) whole in
            abs-walk t' (suc n) t.root (path ++ slash ∷ name) (rw (ap (λ q. q.0) parts) absolute)
              a.same_root
            ∙ ap (λ q. walk t' false (suc n) t.root q.1 0) parts
            ∙ r.onwards (name ∷ []);
      }
]

-- The last component, when it is not there, and when it is a node that is no link.
walk-missing :
    (t : Tree) (n node : ℕ) (name : List ℕ) (links : ℕ)
    → is_empty name ≡ false
    → child_of t node name ≡ ok none
    → walk t false (suc n) node (name ∷ []) links ≡ some (ok enoent)
unfolding walk step enter
walk-missing t n node name links named missing = ground (arith, named, missing)

pub walk-there :
    (t : Tree) (n node m : ℕ) (name : List ℕ) (links : ℕ)
    → is_empty name ≡ false
    → child_of t node name ≡ ok (some m)
    → is_link t m ≡ false
    → walk t false (suc n) node (name ∷ []) links ≡ some (ok (node_at m))
unfolding walk step enter
walk-there t zero node m name links named there plain = ground (arith, named, there, plain)
walk-there t (suc n) node m name links named there plain = ground (arith, named, there, plain)

path-Leads :
    (new : ℕ) (t t' : Tree) (n p : ℕ) (cwd : List ℕ) (c : ℕ) (cs : List ℕ)
    → Agrees new t t'
    → get_node_for_path t false n cwd (c ∷ cs) ≡ some (ok (node_at p))
    → Leads t' new n p (full cwd c cs)
path-Leads new t t' n p cwd c cs a h =
    abs-Leads new t t' n p (full cwd c cs) a (sym (get_node_for_path-full t n cwd c cs) ∙ h)

-- What was found is found still.
path-again :
    (new : ℕ) (t t' : Tree) (n p : ℕ) (cwd path : List ℕ)
    → Agrees new t t'
    → get_node_for_path t false n cwd path ≡ some (ok (node_at p))
    → get_node_for_path t' false (suc n) cwd path ≡ some (ok (node_at p))
path-again new t t' n p cwd [] a h = absurd (unfold get_node_for_path in ground (arith, h))
path-again new t t' n p cwd (c ∷ cs) a h =
    get_node_for_path-full t' (suc n) cwd c cs ∙ (path-Leads new t t' n p cwd c cs a h).again

pub create-found :
    (n flags mode : ℕ) (cwd filename : List ℕ) (fs : Fs) (parent : ℕ)
    → has flags o_nofollow ≡ false
    → get_node_for_path fs.tree false n cwd (parent_path filename) ≡ some (ok (node_at parent))
    → create n flags mode cwd filename fs
      ≡ some (create_in flags mode (pop (split filename)).1 fs (ok (node_at parent)))
unfolding create
create-found n flags mode cwd filename fs parent follows h = ground (arith, follows, h)

-- What `sys_open` does with a path to a directory, with a name behind it that is not there.
pub record IsOpened (n : ℕ) (cwd filename : List ℕ) (fs : Fs)
    (outcome : Option (Result (Outcome × Fs))) : Type 0 where
  pub made : Fs
  pub is_made : outcome ≡ some (ok (opened (length fs.fds), made))
  pub found :
      get_node_for_path made.tree false (suc n) cwd filename ≡ some (ok (node_at (fs.inode + 1)))
  pub others :
      (k q : ℕ) (from path : List ℕ)
      → get_node_for_path fs.tree false k from path ≡ some (ok (node_at q))
      → get_node_for_path made.tree false (suc k) from path ≡ some (ok (node_at q))

-- When the path of a directory leads, links followed, to a node whose getChildren returns the object
-- it keeps and which has no child of a name, the name is one component that is not empty, and no node
-- is numbered above the counter of nodes, then opening that name in the directory with O_CREAT, without
-- O_APPEND and without O_NOFOLLOW, with permission bits below 2^12, gives the next descriptor;
-- afterwards the path leads to the new file, and every path that led to a node leads to it still.
pub sys_open-IsOpened :
    (n flags mode : ℕ) (cwd : List ℕ) (c : ℕ) (path name : List ℕ) (parent : ℕ)
    (children : Children) (fs : Fs)
    → IsNumbered fs
    → IsComponent name
    → is_empty name ≡ false
    → mode < 2 ^ 12
    → meets flags o_creat ≡ true
    → meets flags o_append ≡ false
    → has flags o_nofollow ≡ false
    → get_node_for_path fs.tree false n cwd (c ∷ path) ≡ some (ok (node_at parent))
    → fs.tree.children parent ≡ some children
    → find_child fs.tree name children ≡ none
    → fs.rebuilt parent ≡ false
    → IsOpened n cwd
        (c ∷ path ++ slash ∷ name)
        fs
        (sys_open (suc n) flags mode cwd (c ∷ path ++ slash ∷ name) fs)
sys_open-IsOpened n flags mode cwd c path name parent children fs numbered whole named small creates
      no_append follows leads has_children missing kept =
    let new = fs.inode + 1 in
    let filename = c ∷ path ++ slash ∷ name in
    let before =
      path-Leads new fs.tree fs.tree n parent cwd c path (IsNumbered-Agrees fs numbered) leads in
    let made = made_file flags mode parent name children fs in
    let m = made_file-IsMade flags mode parent name children fs in
    let a =
      IsMade-Agrees mode parent name children fs made m before.old has_children numbered missing in
    let after = path-Leads new fs.tree made.tree n parent cwd c path a leads in
    let to_full = λ (t : Tree).
      get_node_for_path-full t (suc n) cwd c (path ++ slash ∷ name)
      ∙ ap (get_node_for_abs_path t false (suc n)) (full-append cwd c path name) in
    let not_there : get_node_for_path fs.tree false (suc n) cwd filename ≡ some (ok enoent) =
      to_full fs.tree
      ∙ before.onwards name whole
      ∙ walk-missing fs.tree before.rounds parent name before.links named
          (child_of-some fs.tree parent name children has_children ∙ ap ok missing) in
    let plain : is_link made.tree new ≡ false =
      unfold is_link in
      ap (λ f. has (f new) s_iflnk) m.is_mode ∙ ground (arith, file_mode-has mode small) in
    let there : child_of made.tree parent name ≡ ok (some new) =
      child_of-parent mode parent name children fs made m before.old has_children name
      ∙ ground (arith, same_name_refl name) in
    let parent_found : get_node_for_path fs.tree false (suc n) cwd (parent_path filename)
        ≡ some (ok (node_at parent)) =
      ap (get_node_for_path fs.tree false (suc n) cwd) (parent_path-append c path name whole)
      ∙ path-again new fs.tree fs.tree n parent cwd (c ∷ path) (IsNumbered-Agrees fs numbered)
          leads in
    let last : (pop (split filename)).1 ≡ name =
      ap (λ l. (pop l).1) (split-append (c ∷ path) name whole)
      ∙ ap (λ q. q.1) (pop-append (split (c ∷ path)) name) in
    record {
      made = made;
      is_made =
          sys_open-create (suc n) flags mode cwd filename fs creates (rw follows not_there)
          ∙ create-found (suc n) flags mode cwd filename fs parent follows parent_found
          ∙ ap (λ l. some (create_in flags mode l fs (ok (node_at parent)))) last
          ∙ ap some (
              create_in-made_file flags mode parent name children fs small no_append before.old
                has_children kept);
      found =
          to_full made.tree
          ∙ after.onwards name whole
          ∙ walk-there made.tree after.rounds parent new name after.links named there plain;
      others = λ k q from other h. path-again new fs.tree made.tree k q from other a h;
    }
