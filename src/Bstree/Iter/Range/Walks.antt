-- ===== src/Bstree/Iter/Range/Walks.antt =====
-- A client's loop over bstree_iter_range of src/bstree/bstree.c.
use mathlib.Core.Bool.{true≢false}
use Prim.Native.Nat.Ordering.{lt}
use seqc.Prelude.{
  ℕ, ◌≡◌, refl, sym, ap, ◌∙◌, ◌⊎◌, inl, inr, ◌<◌, length, Bool, true, not, Bool-cases, Option, none,
  some, Option-cases, List, [], ◌∷◌, append-nil, Allocator, arith,
}
use seqc.Prelude.Collect.{collect, Collected, Yields, collect_lem}
use seqc.Order.{Compare, is_lt, is_gt, Ordering-cases}
use seqc.Order.Sorted.{All-imp, IsSorted}
use seqc.Order.Cuts.{keep, until, until-keep, IsCut, IsCut-keep, length-keep, allowed}
use seqc.Bstree.{Tree, leaf, Bstree}
use seqc.Bstree.Refine.{to_list}
use seqc.Bstree.Methods.{IsValid}
use seqc.Bstree.Iter.{Node, descend, stacked, pending, Stuck}
use seqc.Bstree.Iter.Forward.{descend_lem}
use seqc.Bstree.Iter.Range.{
  RangeState, past_end, below, range_pop, range_iter_next, start, copy_hi, iter_range,
  sizeof_range_state,
}
use seqc.Bstree.Iter.Range.Reads.{push_lo_lem}

module _ {ℓ} {A : Type ℓ} ⦃o : Compare A⦄ where
  upper-IsCut : (hi : Option A) (xs : List A) → IsSorted xs → IsCut (past_end hi) xs
  upper-IsCut hi [] s = tt
  upper-IsCut none (x ∷ xs) s = (λ h. absurd (true≢false (sym h)), upper-IsCut none xs s.1)
  upper-IsCut (some b) (x ∷ xs) s = (λ h. All-imp (further h) xs s.0, upper-IsCut (some b) xs s.1)
    where
      further : is_gt (o.cmp x b) ≡ true → (y : A) → o.cmp x y ≡ lt → is_gt (o.cmp y b) ≡ true
      further h y p = elim (Ordering-cases (o.cmp x b)) [
        | inl c ↦ absurd (cc (rw c at h))
        | inr (inl c) ↦ absurd (cc (rw c at h))
        | inr (inr c) ↦ rw (o.gt_of_lt b y (o.lt_trans b x y (o.lt_of_gt x b c) p)) refl
      ]

  lower-IsCut : (lo : A) (xs : List A) → IsSorted xs → IsCut (allowed (below lo)) xs
  lower-IsCut lo [] s = tt
  lower-IsCut lo (x ∷ xs) s = (λ h. All-imp (later h) xs s.0, lower-IsCut lo xs s.1)
    where
      later :
          not (is_lt (o.cmp x lo)) ≡ true
          → (y : A) → o.cmp x y ≡ lt
          → not (is_lt (o.cmp y lo)) ≡ true
      later h y p = elim (Ordering-cases (o.cmp y lo)) [
        | inl c ↦ absurd (cc (rw (o.lt_trans x y lo p c) at h))
        | inr (inl c) ↦ rw c refl
        | inr (inr c) ↦ rw c refl
      ]

  -- What is left to yield.
  abbrev pub pending_range : RangeState A → List A
  pending_range s = until (past_end s.hi) (pending s.walk)

  -- The elements between the two ends, which belong to the range.
  abbrev pub between : Option A → Option A → List A → List A
  between none hi xs = keep (λ x. not (past_end hi x)) xs
  between (some lo) hi xs = keep (λ x. not (past_end hi x)) (keep (allowed (below lo)) xs)

module _ {ℓ κ} {A : Type ℓ} {H : Type κ} ⦃al : Allocator H⦄ where
  abbrev pub StuckRange : RangeState A → H → Type κ
  StuckRange s h = Stuck s.walk h

module _ {ℓ κ} {A : Type ℓ} {H : Type κ} ⦃o : Compare A⦄ ⦃al : Allocator H⦄ where
  range_iter_next-Yields :
      (s : RangeState A) (h : H) → Yields pending_range StuckRange s (range_iter_next s h)
  unfolding range_iter_next range_pop pending stacked to_list until
  range_iter_next-Yields s h =
      let hi = s.hi in
      let p : A → Bool = past_end hi in
      elim (descend_lem s.walk.current s.walk h) [
        | inr (w, h', e, refused, same) ↦
            inl (record { walk = w; hi = hi }, h', ap (range_pop hi) e, refused, ap (until p) same)
        | inl (w, h', e, ended, left) ↦ inr (popped w.stack w.stack_cap w.current h' e ended left)
      ]
    where
      popped :
          (ns : List (Node A)) (slots : ℕ) (cur : Tree A) (h' : H)
          → descend s.walk.current s.walk h
            ≡ (true, record { stack = ns; stack_cap = slots; current = cur }, h')
          → cur ≡ leaf
          → stacked ns ≡ pending s.walk
          → ((s₂ : RangeState A) × (h₂ : H) × (range_iter_next s h ≡ (none, s₂, h₂))
              × (pending_range s ≡ [])
              × (pending_range s₂ ≡ []))
            ⊎ ((x : A) × (s₂ : RangeState A) × (h₂ : H) × (range_iter_next s h ≡ (some x, s₂, h₂))
                × (pending_range s ≡ x ∷ pending_range s₂))
      popped [] slots cur h' e ended left = inl (
        record { walk = record { stack = []; stack_cap = slots; current = cur }; hi = s.hi },
        h',
        ap (range_pop s.hi) e,
        ap (until (past_end s.hi)) (sym left),
        rw ended refl,
      )
      popped (n ∷ ns) slots cur h' e ended left = elim (Bool-cases (past_end s.hi n.elem)) [
        | inl past ↦ inl (
          record { walk = record { stack = []; stack_cap = slots; current = leaf }; hi = s.hi },
          h',
          ap (range_pop s.hi) e ∙ rw (past, range_pop) refl,
          ap (until (past_end s.hi)) (sym left) ∙ rw (past, until) refl,
          refl,
        )
        | inr within ↦ inr (
          n.elem,
          record { walk = record { stack = ns; stack_cap = slots; current = n.right }; hi = s.hi },
          h',
          ap (range_pop s.hi) e ∙ rw (within, range_pop) refl,
          ap (until (past_end s.hi)) (sym left) ∙ rw (within, until) refl,
        )
      ]

  collect-range :
      (s : RangeState A) (fuel : ℕ) (h : H) {xs : List A}
      → pending_range s ≡ xs
      → length xs < fuel
      → Collected pending_range StuckRange xs (collect (range_iter_next) fuel s h)
  collect-range s fuel h {xs} e less =
      let (all, why) =
        collect_lem (range_iter_next) pending_range StuckRange range_iter_next-Yields fuel s h
          (rw e less) in
      (sym e ∙ all, why)

  -- Where no push was refused on the way to the first element, the loop reads the elements between
  -- the ends.
  collect-start :
      (t : Tree A) (lo hi : Option A) (fuel : ℕ) (h : H)
      → IsSorted (to_list t)
      → length (to_list t) < fuel
      → let w = start t lo h in
        Collected pending_range StuckRange
          (between lo hi (to_list t))
          (collect range_iter_next fuel (record { walk = w.0; hi = hi }) w.1)
        ⊎ Stuck w.0 w.1
  unfolding start pending stacked to_list
  collect-start t none hi fuel h sorted less =
      let p = past_end hi in
      let xs = to_list t in
      inl (
        collect-range (record { walk = record { stack = []; stack_cap = 0; current = t }; hi = hi })
          fuel h (ap (until p) (append-nil xs) ∙ until-keep p xs (upper-IsCut hi xs sorted))
          (omega (arith, length-keep (λ x. not (p x)) xs)))
  collect-start t (some lo) hi fuel h sorted less =
      let p = past_end hi in
      let xs = to_list t in
      let ys = keep (allowed (below lo)) xs in
      elim (push_lo_lem lo t (record { stack = []; stack_cap = 0; current = leaf }) h
        (lower-IsCut lo xs sorted) refl) [
          | inr stuck ↦ inr stuck
          | inl (ended, left) ↦ inl (
              collect-range (record { walk = (start t (some lo) h).0; hi = hi }) fuel
                (start t (some lo) h).1
                (rw ended (ap (until p) (left ∙ append-nil ys))
                  ∙ until-keep p ys
                      (IsCut-keep p (allowed (below lo)) xs (upper-IsCut hi xs sorted)))
                (omega
                  (arith, length-keep (λ x. not (p x)) ys, length-keep (allowed (below lo)) xs)))
        ]

  -- bstree_iter_range on a valid tree fails because the allocator refuses the state or the copy of
  -- the upper end; or a loop over it with more rounds than the tree has elements collects the
  -- elements from the lower end to the upper end in order, both ends included, cut short only where
  -- its stack is full and the allocator refuses the larger one; or that was so already on the way
  -- to the first element.
  pub collect-bstree_range :
      (t : Bstree A) (lo hi : Option A) (fuel : ℕ) (h : H)
      → IsValid t
      → length (to_list t.root) < fuel
      → ((h' : H) × (iter_range (some t) lo hi h ≡ (none, h'))
          × ((al.alloc (sizeof_range_state al.handle_size) h ≡ none)
              ⊎ ((h₁ : H) × (al.alloc (sizeof_range_state al.handle_size) h ≡ some h₁)
                  × (copy_hi t.elem_size hi h₁ ≡ none))))
        ⊎ ((s : RangeState A) × (h' : H) × (iter_range (some t) lo hi h ≡ (some s, h'))
            × (Collected pending_range StuckRange
                  (between lo hi (to_list t.root))
                  (collect range_iter_next fuel s h')
                ⊎ Stuck s.walk h'))
  unfolding iter_range
  collect-bstree_range t lo hi fuel h valid less =
      elim (Option-cases (al.alloc (sizeof_range_state al.handle_size) h)) [
        | inl refused ↦ inl (h, rw (refused, iter_range) refl, inl refused)
        | inr (h₁, given) ↦ elim (Option-cases (copy_hi t.elem_size hi h₁)) [
          | inl refused ↦ inl (
            al.free (sizeof_range_state al.handle_size) h₁,
            rw (given, iter_range, refused) refl,
            inr (h₁, given, refused),
          )
          | inr (h₂, copied) ↦
              let w = start t.root lo h₂ in
              inr (
                record { walk = w.0; hi = hi },
                w.1,
                rw (given, iter_range, copied) refl,
                collect-start t.root lo hi fuel h₂ valid.ordered less,
              )
        ]
      ]
