-- ===== src/Omap/Delete.antt =====
-- omap_remove's descent is avl_remove's on entries in the order of their keys.
use Prim.Native.Nat.Ordering.{eq}
use seqc.Prelude.{ℕ, ◌≡◌, refl, ap, inl, inr, Allocator}
use seqc.Order.{Compare, Ordering-cases}
use seqc.Avl as Avls
use seqc.Avl.{Tree, leaf, node, min_of, node_alloc_size}
use seqc.Avl.Api as Api
use seqc.Omap.{Entry, Removal, rebalance, do_remove}
use seqc.Omap.Entries.{by_key}

module _ {ℓ κ μ} {K : Type ℓ} {V : Type κ} {H : Type μ} ⦃o : Compare K⦄ ⦃al : Allocator H⦄ where
  -- The two results are the same.
  abbrev pub Same : Removal K V H → Api.Removal (Entry K V) H → Type (ℓ ⊔ κ ⊔ μ)
  Same d a = (d.tree ≡ a.tree) × (d.removed ≡ a.removed) × (d.heap ≡ a.heap)

  abbrev pub removal : ℕ → Tree (Entry K V) → K → V → H → Api.Removal (Entry K V) H
  removal n t k v h = Api.do_remove ⦃o = by_key V⦄ n t (record { key = k; value = v }) h

  at_root :
      (n : ℕ) (l r : Tree (Entry K V)) (e : Entry K V) (ht : ℕ) (k : K) (v : V) (h : H)
      → o.cmp k e.key ≡ eq
      → let succ = min_of r e in
        Same (do_remove (node_alloc_size n) r succ.key h) (removal n r succ.key succ.value h)
        → Same (do_remove (node_alloc_size n) (node l e ht r) k h) (removal n (node l e ht r) k v h)
  unfolding do_remove rebalance Api.do_remove
  at_root n leaf r e ht k v h c same = (
    rw (c, do_remove, Api.do_remove) refl,
    rw (c, do_remove, Api.do_remove) refl,
    rw (c, do_remove, Api.do_remove) refl,
  )
  at_root n (node a b i z) leaf e ht k v h c same = (
    rw (c, do_remove, Api.do_remove) refl,
    rw (c, do_remove, Api.do_remove) refl,
    rw (c, do_remove, Api.do_remove) refl,
  )
  at_root n (node a b i z) (node f g j w) e ht k v h c (tree, removed, heap) =
      let succ = min_of (node f g j w) e in
      (
        rw (c, do_remove, Api.do_remove)
            (ap (λ (t : Tree (Entry K V)). Avls.rebalance (node (node a b i z) succ ht t)) tree),
        rw (c, do_remove, Api.do_remove) refl,
        rw (c, do_remove, Api.do_remove) heap,
      )

  pub do_remove-Same :
      (n : ℕ) (t : Tree (Entry K V)) (k : K) (v : V) (h : H)
      → Same (do_remove (node_alloc_size n) t k h) (removal n t k v h)
  unfolding do_remove rebalance Api.do_remove
  do_remove-Same n leaf k v h = (refl, refl, refl)
  do_remove-Same n (node l e ht r) k v h = elim (Ordering-cases (o.cmp k e.key)) [
    | inl c ↦
        let (tree, removed, heap) = do_remove-Same n l k v h in
        (
          rw (c, do_remove, Api.do_remove)
              (ap (λ (t : Tree (Entry K V)). Avls.rebalance (node t e ht r)) tree),
          rw (c, do_remove, Api.do_remove) removed,
          rw (c, do_remove, Api.do_remove) heap,
        )
    | inr (inl c) ↦
        let succ = min_of r e in
        at_root n l r e ht k v h c (do_remove-Same n r succ.key succ.value h)
    | inr (inr c) ↦
        let (tree, removed, heap) = do_remove-Same n r k v h in
        (
          rw (c, do_remove, Api.do_remove)
              (ap (λ (t : Tree (Entry K V)). Avls.rebalance (node l e ht t)) tree),
          rw (c, do_remove, Api.do_remove) removed,
          rw (c, do_remove, Api.do_remove) heap,
        )
  ]
