-- ===== src/Lookup/Tests.antt =====
-- Runs of the lookup of src/noopfs.js.
use noopsys.Base.{
  ℕ, ◌+◌, ◌*◌, ◌≡◌, ◌≤◌, refl, Bool, true, false, none, some, [], ◌∷◌, length, ◌==◌, if◌then◌else◌,
  arith,
}
use noopsys.Base.Result.{Result}
use noopsys.Base.Word.{has}
use noopsys.Lookup.{Tree, split, split_off, is_link, Answer, get_node_for_abs_path}
use noopsys.Lookup.Laws.{NoLink, get_node_for_abs_path-NoLink}

-- A root with a link `a` to itself: `/a` leads from link to link.
abbrev loop_tree : Tree
loop_tree = record {
  root = 0;
  mode = λ node. if node == 1 then 0xa1ff else 0x41ed;
  target = λ node. if node == 1 then 47 ∷ (97 ∷ []) else [];
  children = λ _. some ((97 ∷ [], 1) ∷ []);
  inherited = λ _. none;
}

short_targets : (link : ℕ) → length (split (loop_tree.target link)) ≤ 2
unfolding split split_off
short_targets link = go (link == 1)
  where
    go : (b : Bool) → length (split (if b then 47 ∷ (97 ∷ []) else [])) ≤ 2
    go true = omega arith
    go false = omega arith

get_node_for_abs_path-NoLink_example :
    (result : Result Answer) × (get_node_for_abs_path loop_tree false
        (length (split (47 ∷ (97 ∷ []))) + 11 * 2)
        (47 ∷ (97 ∷ []))
      ≡ some result)
    × NoLink loop_tree result
unfolding is_link has
get_node_for_abs_path-NoLink_example =
    get_node_for_abs_path-NoLink loop_tree 2 (47 ∷ (97 ∷ [])) short_targets refl
