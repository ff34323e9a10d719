-- ===== src/Bstree/Iter/Range/Reads.antt =====
-- What bstree_iter_range of src/bstree/bstree.c yields.
use seqc.Prelude.{
  ◌≡◌, refl, sym, ap, ◌∙◌, ◌⊎◌, inl, inr, not, Bool-cases, List, ◌∷◌, ◌++◌, append_assoc, Allocator,
}
use seqc.Order.{Compare}
use seqc.Order.Cuts.{
  keep, keep-append, keep_all, keep_none, IsCut, IsCut-left, IsCut-right, IsCut-front, allowed,
}
use seqc.Bstree.{Tree, leaf, node}
use seqc.Bstree.Refine.{to_list}
use seqc.Bstree.Iter.{Node, IterState, stacked, stack_push_lem, Stuck}
use seqc.Bstree.Iter.Range.{push_lo, below}

module _ {ℓ μ} {A : Type ℓ} {H : Type μ} ⦃o : Compare A⦄ ⦃al : Allocator H⦄ (lo : A) where
  -- The walk down to the first element stands in front of those that the lower end allows, or has
  -- been stopped by the allocator.
  pub push_lo_lem :
      (t : Tree A) (s : IterState A) (h : H)
      → IsCut (allowed (below lo)) (to_list t)
      → s.current ≡ leaf
      → let r = push_lo lo t s h in
        ((r.0.current ≡ leaf)
          × (stacked r.0.stack ≡ keep (allowed (below lo)) (to_list t) ++ stacked s.stack))
        ⊎ Stuck r.0 r.1
  unfolding push_lo to_list stacked keep
  push_lo_lem leaf s h c e = inl (e, refl)
  push_lo_lem (node l x r) s h c e =
      let xs = to_list l in
      let ys = to_list r in
      let n : Node A = record { left = l; elem = x; right = r } in
      let halves = keep-append (allowed (below lo)) xs (x ∷ ys) in
      elim (Bool-cases (below lo x)) [
        | inl low ↦
            let skipped : keep (allowed (below lo)) (x ∷ ys) ≡ keep (allowed (below lo)) ys =
              rw (low, keep) in
            let none_left =
              keep_none (allowed (below lo)) xs
                (IsCut-front (allowed (below lo)) xs x ys c (ap not low)) in
            let same : keep (allowed (below lo)) (xs ++ (x ∷ ys)) ≡ keep (allowed (below lo)) ys =
              halves ∙ rw none_left skipped in
            rw (low, push_lo, same)
              (push_lo_lem r s h (IsCut-right (allowed (below lo)) xs (x ∷ ys) c).1 e)
        | inr high ↦
            let right_all : keep (allowed (below lo)) (x ∷ ys) ≡ x ∷ ys =
              keep_all (allowed (below lo)) (x ∷ ys)
                (ap not high, (IsCut-right (allowed (below lo)) xs (x ∷ ys) c).0 (ap not high)) in
            let same : keep (allowed (below lo)) (xs ++ (x ∷ ys))
                ≡ keep (allowed (below lo)) xs ++ (x ∷ ys) =
              halves ∙ ap (λ zs. keep (allowed (below lo)) xs ++ zs) right_all in
            elim (stack_push_lem s n h) [
              | inl (failed, stuck) ↦ rw (high, push_lo, failed) (inr stuck)
              | inr (s', h', pushed, top, cur) ↦
                  rw (high, push_lo, pushed)
                    (elim (push_lo_lem l s' h' (IsCut-left (allowed (below lo)) xs (x ∷ ys) c)
                      (cur ∙ e)) [
                        | inr stuck ↦ inr stuck
                        | inl (ended, left) ↦ inl (
                          ended,
                          left
                              ∙ ap
                                  (λ (ns : List (Node A)).
                                    keep (allowed (below lo)) xs ++ stacked ns)
                                  top
                              ∙ sym (
                                  append_assoc (keep (allowed (below lo)) xs) (x ∷ ys)
                                    (stacked s.stack))
                              ∙ ap (λ (zs : List A). zs ++ stacked s.stack) (sym same),
                        )
                      ])
            ]
      ]
