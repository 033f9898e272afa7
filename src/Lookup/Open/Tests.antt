-- ===== src/Lookup/Open/Tests.antt =====
-- A root with a directory `d`, in which `sys_open` of src/syscalls.js makes `f`.
use noopsys.Base.{
  ℕ, ◌≤◌, ◌≡◌, refl, true, false, none, some, List, [], ◌∷◌, ◌++◌, ◌==◌, if◌then◌else◌, arith, inl,
  inr, Bool-cases,
}
use noopsys.Base.Word.{has, meets}
use noopsys.Base.Result.{ok}
use noopsys.Lookup.{
  split, split_off, is_empty, same_name, is_link, node_at, enoent, child_of, find_child, step,
  enter, walk, get_node_for_path, get_node_for_abs_path,
}
use noopsys.Lookup.Open.{Fs, Children, sys_open}
use noopsys.Lookup.Open.Root.{IsMadeHere, sys_open-IsMadeHere}
use noopsys.Lookup.Open.Created.{IsNumbered}
use noopsys.Lookup.Open.Reopened.{IsOpened, sys_open-IsOpened}

-- `/d` and `f`
abbrev directory : List ℕ
directory = 47 ∷ 100 ∷ []

abbrev name : List ℕ
name = 102 ∷ []

abbrev root_children : Children
root_children = (46 ∷ [], 0) ∷ (100 ∷ [], 1) ∷ []

abbrev files : Fs
files = record {
  tree = record {
    root = 0;
    mode = λ _. 0x416d;
    target = λ _. [];
    children = λ n. if n == 0 then some root_children else some ((46 ∷ [], 1) ∷ []);
    inherited = λ _. none;
  };
  size = λ _. 0;
  inode = 1;
  rebuilt = λ _. false;
  fds = [];
}

files-IsNumbered : IsNumbered files
unfolding child_of find_child
files-IsNumbered = record { root = omega arith; child = below }
  where
    below : (n : ℕ) (other : List ℕ) (m : ℕ) → child_of files.tree n other ≡ ok (some m) → m ≤ 1
    below n other m h = elim (Bool-cases (n == 0)) [
      | inl top ↦ ground arith
      | inr low ↦ ground arith
    ]

leads : get_node_for_path files.tree false 5 (47 ∷ []) directory ≡ some (ok (node_at 1))
unfolding get_node_for_path get_node_for_abs_path split_off is_empty walk step enter child_of
    find_child same_name is_link has
leads = refl

no_f : find_child files.tree name ((46 ∷ [], 1) ∷ []) ≡ none
unfolding find_child same_name
no_f = refl

f-IsComponent : split name ≡ name ∷ []
unfolding split split_off
f-IsComponent = refl

f_named : is_empty name ≡ false
unfolding is_empty
f_named = refl

creates : meets 0x100 0x100 ≡ true
unfolding meets
creates = refl

no_append : meets 0x100 8 ≡ false
unfolding meets
no_append = refl

follows : has 0x100 0x2_0000 ≡ false
unfolding has
follows = refl

sys_open-IsOpened_example :
    IsOpened 5
      (47 ∷ [])
      (directory ++ 47 ∷ name)
      files
      (sys_open 6 0x100 0x1a4 (47 ∷ []) (directory ++ 47 ∷ name) files)
sys_open-IsOpened_example =
    sys_open-IsOpened 5 0x100 0x1a4 (47 ∷ []) 47 (100 ∷ []) name 1 ((46 ∷ [], 1) ∷ []) files
      files-IsNumbered f-IsComponent f_named (omega arith) creates no_append follows leads refl no_f
      refl

leads_here : get_node_for_abs_path files.tree false 5 directory ≡ some (ok (node_at 1))
unfolding get_node_for_abs_path split_off is_empty walk step enter child_of find_child same_name
    is_link has
leads_here = refl

dot_here : find_child files.tree (46 ∷ []) ((46 ∷ [], 1) ∷ []) ≡ some 1
unfolding find_child same_name
dot_here = refl

plain_here : is_link files.tree 1 ≡ false
unfolding is_link has
plain_here = refl

not_at_root : get_node_for_path files.tree false 7 directory (47 ∷ name) ≡ some (ok enoent)
unfolding get_node_for_path get_node_for_abs_path split_off is_empty walk step enter child_of
    find_child same_name is_link has
not_at_root = refl

sys_open-IsMadeHere_example :
    IsMadeHere 1 name ((46 ∷ [], 1) ∷ []) files (sys_open 7 0x100 0x1a4 directory (47 ∷ name) files)
sys_open-IsMadeHere_example =
    sys_open-IsMadeHere 5 0x100 0x1a4 directory name 1 ((46 ∷ [], 1) ∷ []) files files-IsNumbered
      f-IsComponent (omega arith) creates no_append follows leads_here refl dot_here plain_here refl
      not_at_root
