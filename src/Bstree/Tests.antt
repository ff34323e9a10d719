-- ===== src/Bstree/Tests.antt =====
-- Runs of src/bstree/bstree.c on a tree of numbers of 8 bytes.
use seqc.Prelude.{ℕ, refl, some, [], ◌∷◌, arith, none, ◌⊎◌, Allocator, ◌≡◌}
use seqc.Prelude.Collect.{collect, Collected}
use seqc.Bstree.Iter.{IterState, iter_next, iter_rev_next, pending, pending_rev, Stuck}
use seqc.Bstree.Iter.Open.{
  sizeof_iter_state, bstree_iter, bstree_iter_rev, bstree_iter_drop, collect-bstree_iter,
}
use seqc.Order.Cuts.{keep}
use seqc.Bstree.Iter.Range.{RangeState, sizeof_range_state, copy_hi, iter_range, range_iter_next}
use seqc.Bstree.Iter.Range.Walks.{pending_range, StuckRange, collect-bstree_range}
use seqc.Samples.{budget, ascending, plenty}
use seqc.Bstree.{leaf, node, Bstree, add, remove}
use seqc.Bstree.Refine.{to_list}
use seqc.Bstree.Methods.{IsValid, Added, Taken, bstree_add-Added, bstree_remove-Taken}

abbrev tree : Bstree ℕ
tree = record { root = node (node leaf 2 leaf) 4 (node leaf 6 leaf); len = 3; elem_size = 8 }

tree-IsValid : IsValid tree
unfolding to_list
tree-IsValid = record {
  ordered = ((refl, (refl, tt)), ((refl, tt), (tt, tt)));
  counted = refl;
  bounded = omega arith;
}

bstree_add_example : Added tree 5 plenty (add (some tree) (some 5) plenty)
bstree_add_example = bstree_add-Added tree 5 plenty tree-IsValid (omega arith)

bstree_remove_example : Taken tree 4 (remove (some tree) (some 4) plenty)
bstree_remove_example = bstree_remove-Taken tree 4 plenty tree-IsValid

collect-bstree_iter_example :
    ((Allocator.alloc budget (sizeof_iter_state 16) plenty ≡ none)
      × (bstree_iter (some tree) plenty ≡ (none, plenty))
      × (bstree_iter_rev (some tree) plenty ≡ (none, plenty)))
    ⊎ ((s : IterState ℕ) × (h : ℕ) × (Allocator.alloc budget (sizeof_iter_state 16) plenty ≡ some h)
        × (bstree_iter (some tree) plenty ≡ (some s, h))
        × (bstree_iter_rev (some tree) plenty ≡ (some s, h))
        × (bstree_iter_drop s h ≡ Allocator.free budget (sizeof_iter_state 16) h)
        × Collected pending Stuck (2 ∷ (4 ∷ (6 ∷ []))) (collect iter_next 4 s h)
        × Collected pending_rev Stuck (6 ∷ (4 ∷ (2 ∷ []))) (collect iter_rev_next 4 s h))
unfolding to_list
collect-bstree_iter_example = collect-bstree_iter tree 4 plenty (omega arith)

collect-bstree_range_example :
    ((h : ℕ) × (iter_range (some tree) (some 3) (some 5) plenty ≡ (none, h))
      × ((Allocator.alloc budget (sizeof_range_state 16) plenty ≡ none)
          ⊎ ((h₁ : ℕ) × (Allocator.alloc budget (sizeof_range_state 16) plenty ≡ some h₁)
              × (copy_hi {A = ℕ} 8 (some 5) h₁ ≡ none))))
    ⊎ ((s : RangeState ℕ) × (h : ℕ) × (iter_range (some tree) (some 3) (some 5) plenty
          ≡ (some s, h))
        × (Collected pending_range StuckRange (4 ∷ []) (collect range_iter_next 4 s h)
            ⊎ Stuck s.walk h))
unfolding to_list keep
collect-bstree_range_example =
    collect-bstree_range tree (some 3) (some 5) 4 plenty tree-IsValid (omega arith)
