-- ===== src/Omap/Tests.antt =====
-- Runs of src/omap/omap.c on maps from numbers to numbers of 8 bytes.
use seqc.Prelude.{◌++◌, ℕ, ◌≡◌, ◌⊎◌, refl, none, some, List, [], ◌∷◌, ◌++◌, arith, ok, Uninit}
use seqc.Prelude.Collect.{collect, Collected}
use seqc.Prelude.Int.{ltb_ℤ, sub_ℕ}
use seqc.Samples.{budget, zeroed, ascending, plenty}
use seqc.Avl as Avls
use seqc.Avl.{Tree, leaf, node, node_height}
use seqc.Avl.Inorder.{to_list}
use seqc.Avl.Iter.{Stuck}
use seqc.Avl.Iter.Range.{RangeState, sizeof_range_state}
use seqc.Avl.Iter.Range.Walks.{pending_range, StuckRange, between}
use seqc.Iter.Slice.{SliceIter, slice_source, slice_drop}
use seqc.Iter.Pair.{Steady}
use seqc.Iter.Slice.Reads.{slice-iters}
use seqc.Omap.{Entry, Omap, get_ptr, set, do_set, remove, do_remove, rebalance, find}
use seqc.Omap.Methods.{IsValid, Written, omap_set-Written}
use seqc.Omap.Remove.{Taken, omap_remove-Taken}
use seqc.Omap.Laws.{omap_get-set, omap_get-remove}
use seqc.Omap.Iter.{iter_range, omap_range_iter_next, above, low_test, omap_extend, MapEntry}
use seqc.Omap.Iter.Reads.{collect-omap_range}
use seqc.Omap.Iter.Adds.{pointers, Outcome, omap_extend-Written}

abbrev at : ℕ → ℕ → Entry ℕ ℕ
at k v = record { key = k; value = v }

abbrev three : Tree (Entry ℕ ℕ)
three = node (node leaf (at 2 20) 1 leaf) (at 4 40) 2 (node leaf (at 6 60) 1 leaf)

abbrev map : Omap ℕ ℕ
map = record { root = three; len = 3; key_size = 8; val_size = 8 }

abbrev pairs : List (Entry ℕ ℕ)
pairs = at 2 20 ∷ (at 4 40 ∷ (at 6 60 ∷ []))

map-IsValid : IsValid map
unfolding to_list node_height
map-IsValid = record {
  balanced = (
    (tt, tt, refl, omega arith, omega arith),
    (tt, tt, refl, omega arith, omega arith),
    refl,
    omega arith,
    omega arith,
  );
  ordered = ((refl, (refl, tt)), ((refl, tt), (tt, tt)));
  counted = refl;
  bounded = omega arith;
}

-- A value is changed in place, and a key that is taken out is not there any more.
changed : get_ptr (set (some map) (some 4) (some 41) plenty).1 (some 4) ≡ some 41
unfolding get_ptr find set do_set rebalance Avls.rebalance Avls.update_height Avls.balance_factor
    Avls.max2
changed = refl

gone : get_ptr (remove (some map) (some 4) plenty).1 (some 4) ≡ none
unfolding get_ptr find remove do_remove rebalance Avls.rebalance Avls.update_height
    Avls.balance_factor Avls.max2 Avls.min_of Avls.min_from ltb_ℤ sub_ℕ
gone = refl

omap_set_example : Written map 5 50 plenty (set (some map) (some 5) (some 50) plenty)
omap_set_example = omap_set-Written map 5 50 plenty map-IsValid (omega arith)

omap_remove_example : Taken map 4 (remove (some map) (some 4) plenty)
omap_remove_example = omap_remove-Taken map 4 plenty map-IsValid

abbrev updated : Omap ℕ ℕ
updated = record map {
  root = node (node leaf (at 2 20) 1 leaf) (at 4 41) 2 (node leaf (at 6 60) 1 leaf);
}

update_done : set (some map) (some 4) (some 41) plenty ≡ (ok, some updated, plenty)
unfolding set do_set
update_done = refl

omap_get-set_example : get_ptr (some updated) (some 6) ≡ get_ptr (some map) (some 6)
omap_get-set_example =
    omap_get-set map updated 6 4 41 plenty plenty map-IsValid (omega arith) update_done

omap_get-remove_example :
    get_ptr (remove (some map) (some 4) plenty).1 (some 6) ≡ get_ptr (some map) (some 6)
omap_get-remove_example = omap_get-remove map 6 4 plenty map-IsValid

collect-omap_range_example :
    ((h' : ℕ) × (iter_range (some map) (some 3) (some 5) plenty ≡ (none, h'))
      × ((budget.alloc (sizeof_range_state 16) plenty ≡ none)
          ⊎ ((h₁ : ℕ) × (budget.alloc (sizeof_range_state 16) plenty ≡ some h₁)
              × (budget.alloc 8 h₁ ≡ none))))
    ⊎ ((s : RangeState (Entry ℕ ℕ) ℕ) × (h' : ℕ) × (iter_range (some map) (some 3) (some 5) plenty
          ≡ (some s, h'))
        × (Collected
              (pending_range above)
              StuckRange
              (between above (low_test (some 3)) (some 5) pairs)
              (collect omap_range_iter_next 4 s h')
            ⊎ Stuck s.walk h'))
unfolding to_list
collect-omap_range_example =
    collect-omap_range map (some 3) (some 5) 4 plenty map-IsValid (omega arith)

-- Two entries in a block, and one without a value, and the iterator over them.
instance abbrev blank : Uninit (MapEntry ℕ ℕ)
blank = record { junk = record { key = none; value = none } }

abbrev news : List (MapEntry ℕ ℕ)
news = pointers (at 4 41 ∷ (at 5 50 ∷ [])) ++ (record { key = some 7; value = none } ∷ [])

abbrev walk : ℕ → SliceIter (MapEntry ℕ ℕ)
walk pos = record { ptr = some news; len = 3; elem_size = 16; pos = pos }

news-Steady : Steady {H = ℕ} (slice_source 16) (walk 0) news (walk 3)
news-Steady = (slice-iters 16 news 3 16 (omega arith) (omega arith)).0

omap_extend_example : Outcome map plenty news (walk 3) (λ st m s h.
    omap_extend (slice_source 16) 4 (some map) (some (walk 0)) plenty
    ≡ some (st, m, slice_drop s h))
unfolding slice_source
omap_extend_example =
    omap_extend-Written (slice_source 16) 4 map plenty refl news-Steady (omega arith) map-IsValid
      (omega arith)
