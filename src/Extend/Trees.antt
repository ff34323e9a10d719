-- ===== src/Extend/Trees.antt =====
-- bstree_extend of src/bstree/bstree.c puts the elements into the tree's set, one after the other.
use seqc.Prelude.{
  ℕ, ◌+◌, ◌<◌, ◌≡◌, refl, ap, ◌∙◌, inl, inr, none, some, List, length, Bool-cases, ok, duplicate,
  size_mod, Allocator, arith,
}
use seqc.Order.{Compare}
use seqc.Order.Sorted
use seqc.Iter.{Source}
use seqc.Iter.Pair.{Steady}
use seqc.Bstree.{Bstree, node_alloc_size}
use seqc.Bstree.Refine.{to_list}
use seqc.Bstree as Bstrees
use seqc.Bstree.Methods.{IsValid, bstree_add-Added}
use seqc.Extend.{goes_on, seqc_extend, bstree_extend}
use seqc.Extend.Adds.{Adds, Extended, put_all, extend_with_lem}

-- A valid tree of the elements `xs` that can count `n` more.
abbrev Tree {ℓ} : {A : Type ℓ} ⦃o : Compare A⦄ → ℕ → ℕ → List A → Bstree A → Type ℓ
Tree size n xs t =
    IsValid t × (to_list t.root ≡ xs) × (t.elem_size ≡ size) × (length xs + n < size_mod)

module _ {ℓ κ} {A : Type ℓ} {H : Type κ} ⦃al : Allocator H⦄ where
  -- The allocator refuses a node.
  abbrev pub IsOut : Bstree A → H → Type κ
  IsOut t h = al.alloc (node_alloc_size t.elem_size) h ≡ none

module _ {ℓ κ} {A : Type ℓ} {H : Type κ} ⦃o : Compare A⦄ ⦃al : Allocator H⦄ (size : ℕ) where
  bstree-Adds :
      Adds {A = A} {C = Bstree A} {H = H} goes_on
        (λ coll x. Bstrees.add coll (some x))
        (λ xs x. Sorted.add x xs)
        (Tree size)
        IsOut
  bstree-Adds = record {
    at_oom = refl;
    adds = λ n xs t x h tree.
        let valid = tree.0 in
        let counted : t.len + 1 < size_mod =
          omega (arith, valid.counted, ap length tree.1, tree.3) in
        elim (bstree_add-Added t x h valid counted) [
          | inl failed ↦ inr failed
          | inr (t', h', added, valid', elements, kept) ↦
              let now : to_list t'.root ≡ Sorted.add x xs =
                elements ∙ ap (λ l. Sorted.add x l) tree.1 in
              let grown = Sorted.length-add x (to_list t.root) valid.ordered in
              elim (Bool-cases (Sorted.member x (to_list t.root))) [
                | inl old ↦ inl (
                  duplicate,
                  t',
                  h',
                  rw old at added,
                  refl,
                  (
                    valid',
                    now,
                    kept ∙ tree.2,
                    omega (
                      arith,
                      rw old at grown,
                      ap length tree.1,
                      ap length elements,
                      ap length now,
                      tree.3,
                    ),
                  ),
                )
                | inr new ↦ inl (
                  ok,
                  t',
                  h',
                  rw new at added,
                  refl,
                  (
                    valid',
                    now,
                    kept ∙ tree.2,
                    omega (
                      arith,
                      rw new at grown,
                      ap length tree.1,
                      ap length elements,
                      ap length now,
                      tree.3,
                    ),
                  ),
                )
              ]
        ];
  }

module _ {ℓ κ μ} {A : Type ℓ} {S : Type κ} {H : Type μ} ⦃o : Compare A⦄ ⦃al : Allocator H⦄
    (src : Source A S H) where
  -- Where the allocator gives the temporary element and the elements can be counted, of a source
  -- that yields some elements of the tree's element size without touching the heap, bstree_extend
  -- on a valid tree leaves the tree and the heap that bstree_add of all of them leaves, with all in
  -- its set, and returns SEQC_OK; or it leaves those that bstree_add of the elements in front of
  -- one leaves, where the allocator then refuses a node, and returns SEQC_OOM. Either way the
  -- source is then destroyed, the temporary element released, and the tree valid.
  pub bstree_extend-Tree :
      (t : Bstree A) (fuel : ℕ) {s s' : S} (h h₁ : H) {xs : List A}
      → IsValid t
      → length (to_list t.root) + length xs < size_mod
      → src.elem_size ≡ t.elem_size
      → al.alloc t.elem_size h ≡ some h₁
      → Steady src s xs s'
      → length xs < fuel
      → Extended src
          (λ coll x. Bstrees.add coll (some x))
          IsOut
          (λ zs t'.
            IsValid t'
            × (to_list t'.root ≡ put_all (λ ys y. Sorted.add y ys) (to_list t.root) zs)
            × (t'.elem_size ≡ t.elem_size))
          t.elem_size
          t
          h₁
          xs
          s'
          (bstree_extend src fuel (some t) (some s) h)
  unfolding bstree_extend seqc_extend
  bstree_extend-Tree t fuel h h₁ valid room same given p less =
      extend_with_lem src (bstree-Adds t.elem_size) t.elem_size fuel (to_list t.root) t h h₁
        (λ n zs t' tree. (tree.0, tree.1, tree.2)) same given p less (valid, refl, refl, room)
