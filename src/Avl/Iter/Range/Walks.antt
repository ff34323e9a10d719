-- ===== src/Avl/Iter/Range/Walks.antt =====
-- A client's loop over avl_iter_range of src/avl/avl.c.
use seqc.Prelude.{
  ℕ, ◌≡◌, refl, sym, ap, ◌∙◌, ◌⊎◌, inl, inr, ◌<◌, length, Bool, true, not, Bool-cases, Option, none,
  some, List, [], ◌∷◌, append-nil, Allocator, arith,
}
use seqc.Prelude.Collect.{collect, Collected, Yields, collect_lem}
use seqc.Avl.{Tree, leaf}
use seqc.Avl.Inorder.{to_list}
use seqc.Avl.Iter.{Node, descend, stacked, pending, Stuck}
use seqc.Avl.Iter.Forward.{descend_lem}
use seqc.Avl.Iter.Range.{RangeState, past_end, range_pop, range_next, start}
use seqc.Avl.Iter.Range.Reads.{push_lo_lem}
use seqc.Order.Cuts.{keep, until, until-keep, IsCut, IsCut-keep, length-keep, allowed}

module _ {ℓ κ} {A : Type ℓ} {B : Type κ} (above : A → B → Bool) where
  -- What is left to yield.
  abbrev pub pending_range : RangeState A B → List A
  pending_range s = until (λ x. past_end above x s.hi) (pending s.walk)

  -- The elements between the two ends.
  abbrev pub between : Option (A → Bool) → Option B → List A → List A
  between none hi xs = keep (λ x. not (past_end above x hi)) xs
  between (some below) hi xs = keep (λ x. not (past_end above x hi)) (keep (allowed below) xs)

module _ {ℓ κ μ} {A : Type ℓ} {B : Type κ} {H : Type μ} ⦃al : Allocator H⦄ where
  abbrev pub StuckRange : RangeState A B → H → Type μ
  StuckRange s h = Stuck s.walk h

module _ {ℓ κ μ} {A : Type ℓ} {B : Type κ} {H : Type μ} ⦃al : Allocator H⦄
    (above : A → B → Bool) where
  range_next-Yields :
      (s : RangeState A B) (h : H)
      → Yields (pending_range above) StuckRange s (range_next above s h)
  unfolding range_next range_pop pending stacked to_list until
  range_next-Yields s h =
      let hi = s.hi in
      let p : A → Bool = λ x. past_end above x hi in
      elim (descend_lem s.walk.current s.walk h) [
        | inr (w, h', e, refused, same) ↦ inl (
          record { walk = w; hi = hi },
          h',
          ap (range_pop above hi) e,
          refused,
          ap (until p) same,
        )
        | inl (w, h', e, ended, left) ↦ inr (popped w.stack w.stack_cap w.current h' e ended left)
      ]
    where
      popped :
          (ns : List (Node A)) (slots : ℕ) (cur : Tree A) (h' : H)
          → descend s.walk.current s.walk h
            ≡ (true, record { stack = ns; stack_cap = slots; current = cur }, h')
          → cur ≡ leaf
          → stacked ns ≡ pending s.walk
          → ((s₂ : RangeState A B) × (h₂ : H) × (range_next above s h ≡ (none, s₂, h₂))
              × (pending_range above s ≡ [])
              × (pending_range above s₂ ≡ []))
            ⊎ ((x : A) × (s₂ : RangeState A B) × (h₂ : H) × (range_next above s h
                  ≡ (some x, s₂, h₂))
                × (pending_range above s ≡ x ∷ pending_range above s₂))
      popped [] slots cur h' e ended left = inl (
        record { walk = record { stack = []; stack_cap = slots; current = cur }; hi = s.hi },
        h',
        ap (range_pop above s.hi) e,
        ap (until (λ x. past_end above x s.hi)) (sym left),
        rw ended refl,
      )
      popped (n ∷ ns) slots cur h' e ended left = elim (Bool-cases (past_end above n.elem s.hi)) [
        | inl past ↦ inl (
          record { walk = record { stack = []; stack_cap = slots; current = leaf }; hi = s.hi },
          h',
          ap (range_pop above s.hi) e ∙ rw (past, range_pop) refl,
          ap (until (λ x. past_end above x s.hi)) (sym left) ∙ rw (past, until) refl,
          refl,
        )
        | inr within ↦ inr (
          n.elem,
          record { walk = record { stack = ns; stack_cap = slots; current = n.right }; hi = s.hi },
          h',
          ap (range_pop above s.hi) e ∙ rw (within, range_pop) refl,
          ap (until (λ x. past_end above x s.hi)) (sym left) ∙ rw (within, until) refl,
        )
      ]

  collect-range :
      (s : RangeState A B) (fuel : ℕ) (h : H) {xs : List A}
      → pending_range above s ≡ xs
      → length xs < fuel
      → Collected (pending_range above) StuckRange xs (collect (range_next above) fuel s h)
  collect-range s fuel h {xs} e less =
      let (all, why) =
        collect_lem (range_next above) (pending_range above) StuckRange range_next-Yields fuel s h
          (rw e less) in
      (sym e ∙ all, why)

  -- Where no push was refused on the way to the first element, the loop reads the elements between
  -- the ends.
  pub collect-start :
      (t : Tree A) (below : Option (A → Bool)) (hi : Option B) (fuel : ℕ) (h : H)
      → IsCut (λ x. past_end above x hi) (to_list t)
      → ((p : A → Bool) → below ≡ some p → IsCut (allowed p) (to_list t))
      → length (to_list t) < fuel
      → let w = start t below h in
        Collected
          (pending_range above)
          StuckRange
          (between above below hi (to_list t))
          (collect (range_next above) fuel (record { walk = w.0; hi = hi }) w.1)
        ⊎ Stuck w.0 w.1
  unfolding start pending stacked to_list
  collect-start t none hi fuel h upper lower less =
      let p : A → Bool = λ x. past_end above x hi in
      let xs = to_list t in
      inl (
        collect-range (record { walk = record { stack = []; stack_cap = 0; current = t }; hi = hi })
          fuel h (ap (until p) (append-nil xs) ∙ until-keep p xs upper)
          (omega (arith, length-keep (λ x. not (p x)) xs)))
  collect-start t (some below) hi fuel h upper lower less =
      let p : A → Bool = λ x. past_end above x hi in
      let xs = to_list t in
      let ys = keep (allowed below) xs in
      elim (push_lo_lem below t (record { stack = []; stack_cap = 0; current = leaf }) h
        (lower below refl) refl) [
          | inr stuck ↦ inr stuck
          | inl (ended, left) ↦ inl (
              collect-range (record { walk = (start t (some below) h).0; hi = hi }) fuel
                (start t (some below) h).1
                (rw ended (ap (until p) (left ∙ append-nil ys))
                  ∙ until-keep p ys (IsCut-keep p (allowed below) xs upper))
                (omega (arith, length-keep (λ x. not (p x)) ys, length-keep (allowed below) xs)))
        ]
