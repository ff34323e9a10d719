-- ===== src/Avl/Ends.antt =====
-- The least and the greatest element of the tree of src/avl/avl.c: `avl_min_ptr` and `avl_max_ptr`.
use seqc.Prelude.{ℕ, ◌≡◌, refl, sym, ap, ◌∙◌, some, ◌∷◌}
use seqc.Order.Sets.{head, last, last_append}
use seqc.Avl.{Tree, leaf, node, Avl, max_from, min_ptr, max_ptr}
use seqc.Avl.Inorder.{to_list}
use seqc.Avl.Remove.{first}

module _ {ℓ} {A : Type ℓ} where
  last_max : (x : A) (r : Tree A) → last (x ∷ to_list r) ≡ some (max_from x r)
  unfolding last max_from to_list
  last_max x leaf = refl
  last_max x (node l y h r) = last_append (x ∷ to_list l) y (to_list r) ∙ last_max y r

  -- avl_min_ptr finds the first element in order and avl_max_ptr the last, and both NULL in an
  -- empty tree.
  pub avl_ends :
      (t : Avl A)
      → (min_ptr (some t) ≡ head (to_list t.root)) × (max_ptr (some t) ≡ last (to_list t.root))
  unfolding min_ptr max_ptr to_list head last
  avl_ends t = at_root t.root t.len t.elem_size
    where
      at_root :
          (root : Tree A) (n size : ℕ)
          → let t : Avl A = record { root = root; len = n; elem_size = size } in
            (min_ptr (some t) ≡ head (to_list root)) × (max_ptr (some t) ≡ last (to_list root))
      at_root leaf n size = (refl, refl)
      at_root (node l x h r) n size =
          let (ys, e) = first l x (to_list r) in
          (sym (ap head e), sym (last_append (to_list l) x (to_list r) ∙ last_max x r))
