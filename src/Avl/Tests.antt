-- ===== src/Avl/Tests.antt =====
-- Runs of src/avl/avl.c on trees of numbers of 8 bytes.
use seqc.Prelude.{List, ℕ, ◌≡◌, refl, some, [], ◌∷◌, arith, ok, none, ◌⊎◌, Allocator}
use seqc.Prelude.Collect.{collect, Collected}
use seqc.Avl.Iter.{IterState, iter_next, iter_rev_next, pending, pending_rev, Stuck}
use seqc.Avl.Iter.Open.{sizeof_iter_state, avl_iter, avl_iter_rev, avl_iter_drop, collect-avl_iter}
use seqc.Samples.{budget, zeroed, ascending, plenty}
use seqc.Avl.{Tree, leaf, node, Avl, node_height, rebalance}
use seqc.Avl.Height.{Change, adding, removing, changed, IsLow, avl_changed-IsLow}
use seqc.Avl.Api.{add, remove}
use seqc.Avl.Balance.{IsAvl, Rebalanced, rebalance-Rebalanced}
use seqc.Avl.Inorder.{to_list}
use seqc.Avl.Methods.{IsValid, Added, Taken, avl_add-Added, avl_remove-Taken}

abbrev single : ℕ → Tree ℕ
single x = node leaf x 1 leaf

-- 2 and 6 under 4, and the chain of 1 and 2 that a rotation would level.
abbrev three : Tree ℕ
three = node (single 2) 4 2 (single 6)

abbrev chain : Tree ℕ
chain = node (single 1) 2 2 leaf

abbrev tree : Avl ℕ
tree = record { root = three; len = 3; elem_size = 8 }

three-IsAvl : IsAvl three
unfolding node_height
three-IsAvl = (
  (tt, tt, refl, omega arith, omega arith),
  (tt, tt, refl, omega arith, omega arith),
  refl,
  omega arith,
  omega arith,
)

chain-IsAvl : IsAvl chain
unfolding node_height
chain-IsAvl = ((tt, tt, refl, omega arith, omega arith), tt, refl, omega arith, omega arith)

tree-IsValid : IsValid tree
unfolding to_list
tree-IsValid = record {
  balanced = three-IsAvl;
  ordered = ((refl, (refl, tt)), ((refl, tt), (tt, tt)));
  counted = refl;
  bounded = omega arith;
}

added : (add (some tree) (some 5) plenty).0 ≡ ok
unfolding add
added = refl

rebalance_example : Rebalanced chain leaf (rebalance (node chain 3 0 leaf))
unfolding node_height
rebalance_example = rebalance-Rebalanced chain 3 0 leaf chain-IsAvl tt (omega arith) (omega arith)

avl_add_example : Added tree 5 plenty (add (some tree) (some 5) plenty)
avl_add_example = avl_add-Added tree 5 plenty tree-IsValid (omega arith)

avl_remove_example : Taken tree 4 (remove (some tree) (some 4) plenty)
avl_remove_example = avl_remove-Taken tree 4 plenty tree-IsValid

collect-avl_iter_example :
    ((Allocator.alloc budget (sizeof_iter_state 16) plenty ≡ none)
      × (avl_iter (some tree) plenty ≡ (none, plenty))
      × (avl_iter_rev (some tree) plenty ≡ (none, plenty)))
    ⊎ ((s : IterState ℕ) × (h : ℕ) × (Allocator.alloc budget (sizeof_iter_state 16) plenty ≡ some h)
        × (avl_iter (some tree) plenty ≡ (some s, h))
        × (avl_iter_rev (some tree) plenty ≡ (some s, h))
        × (avl_iter_drop s h ≡ Allocator.free budget (sizeof_iter_state 16) h)
        × Collected pending Stuck (2 ∷ (4 ∷ (6 ∷ []))) (collect iter_next 4 s h)
        × Collected pending_rev Stuck (6 ∷ (4 ∷ (2 ∷ []))) (collect iter_rev_next 4 s h))
unfolding to_list
collect-avl_iter_example = collect-avl_iter tree 4 plenty (omega arith)

abbrev calls : List (Change ℕ)
calls = adding 5 ∷ (removing 4 ∷ (adding 5 ∷ []))

avl_changed_example :
    (t : Avl ℕ) × (h : ℕ) × (changed calls (some tree) plenty ≡ (some t, h)) × IsValid t × IsLow t
avl_changed_example = avl_changed-IsLow calls tree plenty tree-IsValid (omega arith)
