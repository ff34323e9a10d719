-- ===== src/Avl/Iter/Forward.antt =====
-- What avl_iter of src/avl/avl.c yields.
use seqc.Prelude.{
  ℕ, ◌≡◌, refl, sym, ap, ◌∙◌, ◌⊎◌, inl, inr, ◌<◌, length, true, false, none, some, List, [], ◌∷◌,
  ◌++◌, append_assoc, append-nil, Allocator,
}
use seqc.Prelude.Collect.{collect, Collected, Yields, collect_lem}
use seqc.Avl.{Tree, leaf, node, Avl}
use seqc.Avl.Inorder.{to_list}
use seqc.Avl.Iter.{
  Node, IterState, iter, iter_next, descend, pop_top, stacked, pending, stack_push_lem, Stuck,
  grown_cap,
}

module _ {ℓ κ} {A : Type ℓ} {H : Type κ} ⦃al : Allocator H⦄ where
  pub descend_lem :
      (t : Tree A) (s : IterState A) (h : H)
      → ((s' : IterState A) × (h' : H) × (descend t s h ≡ (true, s', h'))
          × (s'.current ≡ leaf)
          × (stacked s'.stack ≡ to_list t ++ stacked s.stack))
        ⊎ ((s' : IterState A) × (h' : H) × (descend t s h ≡ (false, s', h'))
            × Stuck s' h'
            × (pending s' ≡ to_list t ++ stacked s.stack))
  unfolding descend stacked pending to_list grown_cap
  descend_lem leaf s h = inl (record s { current = leaf }, h, refl, refl, refl)
  descend_lem (node l x k r) s h =
      let n : Node A = record { left = l; elem = x; right = r } in
      elim (stack_push_lem s n h) [
        | inl (e, refused) ↦
            inr (record s { current = node l x k r }, h, rw (e, descend), refused, refl)
        | inr (s', h', e, top, cur) ↦
            let round =
              ap (λ (ns : List (Node A)). to_list l ++ stacked ns) top
              ∙ sym (append_assoc (to_list l) (x ∷ to_list r) (stacked s.stack)) in
            elim (descend_lem l s' h') [
              | inl (s₂, h₂, f, ended, left) ↦ inl (s₂, h₂, rw (e, descend) f, ended, left ∙ round)
              | inr (s₂, h₂, f, refused, left) ↦
                  inr (s₂, h₂, rw (e, descend) f, refused, left ∙ round)
            ]
      ]

  iter_next-Yields : (s : IterState A) (h : H) → Yields pending Stuck s (iter_next s h)
  unfolding iter_next pop_top pending stacked to_list
  iter_next-Yields s h = elim (descend_lem s.current s h) [
    | inr (s', h', e, refused, same) ↦ inl (s', h', ap pop_top e, refused, same)
    | inl (s', h', e, ended, left) ↦ inr (popped s'.stack s'.stack_cap s'.current h' e ended left)
  ]
    where
      popped :
          (ns : List (Node A)) (slots : ℕ) (cur : Tree A) (h' : H)
          → descend s.current s h
            ≡ (true, record { stack = ns; stack_cap = slots; current = cur }, h')
          → cur ≡ leaf
          → stacked ns ≡ to_list s.current ++ stacked s.stack
          → ((s₂ : IterState A) × (h₂ : H) × (iter_next s h ≡ (none, s₂, h₂))
              × (pending s ≡ [])
              × (pending s₂ ≡ []))
            ⊎ ((x : A) × (s₂ : IterState A) × (h₂ : H) × (iter_next s h ≡ (some x, s₂, h₂))
                × (pending s ≡ x ∷ pending s₂))
      popped [] slots cur h' e ended left = inl (
        record { stack = []; stack_cap = slots; current = cur },
        h',
        ap pop_top e,
        sym left,
        rw ended refl,
      )
      popped (n ∷ ns) slots cur h' e ended left = inr (
        n.elem,
        record { stack = ns; stack_cap = slots; current = n.right },
        h',
        ap pop_top e,
        sym left,
      )

  pub collect-iter :
      (t : Avl A) (fuel : ℕ) (h : H)
      → length (to_list t.root) < fuel
      → Collected pending Stuck (to_list t.root) (collect iter_next fuel (iter t) h)
  unfolding iter pending stacked
  collect-iter t fuel h less =
      let whole = append-nil (to_list t.root) in
      let (all, why) =
        collect_lem iter_next pending Stuck iter_next-Yields fuel (iter t) h (rw whole less) in
      (sym whole ∙ all, why)
