-- ===== src/Bstree/Iter/Backward.antt =====
-- What bstree_iter_rev of src/bstree/bstree.c yields.
use mathlib.Core.List.{reverse-append}
use seqc.Prelude.{length-reverse}
use seqc.Prelude.{
  ℕ, ◌≡◌, refl, sym, ap, ◌∙◌, ◌⊎◌, inl, inr, ◌<◌, length, true, false, none, some, List, [], ◌∷◌,
  ◌++◌, append_assoc, append-nil, reverse, Allocator,
}
use seqc.Prelude.Collect.{collect, Collected, Yields, collect_lem}
use seqc.Bstree.{Tree, leaf, node, Bstree}
use seqc.Bstree.Refine.{to_list}
use seqc.Bstree.Iter.{
  Node, IterState, iter, iter_rev_next, descend_rev, pop_top_rev, stacked_rev, pending_rev,
  stack_push_lem, Stuck, grown_cap,
}

module _ {ℓ} {A : Type ℓ} where
  turned :
      (l : Tree A) (x : A) (r : Tree A) (zs : List A)
      → reverse (to_list (node l x r)) ++ zs
        ≡ reverse (to_list r) ++ (x ∷ (reverse (to_list l) ++ zs))
  unfolding to_list
  turned l x r zs =
      let xs = reverse (to_list l) in
      let ys = reverse (to_list r) in
      ap (λ (v : List A). v ++ zs)
        (reverse-append (to_list l) (x ∷ to_list r)
          ∙ ap (λ (v : List A). v ++ xs) (reverse-append (x ∷ []) (to_list r)))
      ∙ append_assoc (ys ++ (x ∷ [])) xs zs
      ∙ append_assoc ys (x ∷ []) (xs ++ zs)

module _ {ℓ κ} {A : Type ℓ} {H : Type κ} ⦃al : Allocator H⦄ where
  descend_rev_lem :
      (t : Tree A) (s : IterState A) (h : H)
      → ((s' : IterState A) × (h' : H) × (descend_rev t s h ≡ (true, s', h'))
          × (s'.current ≡ leaf)
          × (stacked_rev s'.stack ≡ reverse (to_list t) ++ stacked_rev s.stack))
        ⊎ ((s' : IterState A) × (h' : H) × (descend_rev t s h ≡ (false, s', h'))
            × Stuck s' h'
            × (pending_rev s' ≡ reverse (to_list t) ++ stacked_rev s.stack))
  unfolding descend_rev stacked_rev pending_rev to_list grown_cap
  descend_rev_lem leaf s h = inl (record s { current = leaf }, h, refl, refl, refl)
  descend_rev_lem (node l x r) s h =
      let n : Node A = record { left = l; elem = x; right = r } in
      elim (stack_push_lem s n h) [
        | inl (e, refused) ↦
            inr (record s { current = node l x r }, h, rw (e, descend_rev), refused, refl)
        | inr (s', h', e, top, same) ↦
            let round =
              ap (λ (ns : List (Node A)). reverse (to_list r) ++ stacked_rev ns) top
              ∙ sym (turned l x r (stacked_rev s.stack)) in
            elim (descend_rev_lem r s' h') [
              | inl (s₂, h₂, f, ended, left) ↦
                  inl (s₂, h₂, rw (e, descend_rev) f, ended, left ∙ round)
              | inr (s₂, h₂, f, refused, left) ↦
                  inr (s₂, h₂, rw (e, descend_rev) f, refused, left ∙ round)
            ]
      ]

  iter_rev_next-Yields : (s : IterState A) (h : H) → Yields pending_rev Stuck s (iter_rev_next s h)
  unfolding iter_rev_next pop_top_rev pending_rev stacked_rev to_list
  iter_rev_next-Yields s h = elim (descend_rev_lem s.current s h) [
    | inr (s', h', e, refused, same) ↦ inl (s', h', ap pop_top_rev e, refused, same)
    | inl (s', h', e, ended, left) ↦ inr (popped s'.stack s'.stack_cap s'.current h' e ended left)
  ]
    where
      popped :
          (ns : List (Node A)) (slots : ℕ) (cur : Tree A) (h' : H)
          → descend_rev s.current s h
            ≡ (true, record { stack = ns; stack_cap = slots; current = cur }, h')
          → cur ≡ leaf
          → stacked_rev ns ≡ reverse (to_list s.current) ++ stacked_rev s.stack
          → ((s₂ : IterState A) × (h₂ : H) × (iter_rev_next s h ≡ (none, s₂, h₂))
              × (pending_rev s ≡ [])
              × (pending_rev s₂ ≡ []))
            ⊎ ((x : A) × (s₂ : IterState A) × (h₂ : H) × (iter_rev_next s h ≡ (some x, s₂, h₂))
                × (pending_rev s ≡ x ∷ pending_rev s₂))
      popped [] slots cur h' e ended left =
          let s' : IterState A = record { stack = []; stack_cap = slots; current = cur } in
          inl (s', h', ap pop_top_rev e, sym left, rw ended refl)
      popped (n ∷ ns) slots cur h' e ended left = inr (
        n.elem,
        record { stack = ns; stack_cap = slots; current = n.left },
        h',
        ap pop_top_rev e,
        sym left,
      )

  pub collect-iter_rev :
      (t : Bstree A) (fuel : ℕ) (h : H)
      → length (to_list t.root) < fuel
      → Collected pending_rev Stuck
          (reverse (to_list t.root))
          (collect iter_rev_next fuel (iter t) h)
  unfolding iter pending_rev stacked_rev
  collect-iter_rev t fuel h less =
      let whole = append-nil (reverse (to_list t.root)) in
      let (all, why) =
        collect_lem iter_rev_next pending_rev Stuck iter_rev_next-Yields fuel (iter t) h
          (rw whole (rw (length-reverse (to_list t.root)) less)) in
      (sym whole ∙ all, why)
