-- ===== src/Avl/Iter/Open.antt =====
-- The creation and the release of the iterators of src/avl/avl.c, avl_iter and avl_iter_rev, and a
-- client's loop over them. An `iter_t` is its state, or `none` for the one of zeros.
use seqc.Prelude.{
  ℕ, ◌+◌, ◌<◌, ◌==◌, ◌≡◌, refl, ◌⊎◌, inl, inr, if◌then◌else◌, Option, none, some, Option-cases,
  length, reverse, bytes, Allocator,
}
use seqc.Prelude.Collect.{collect, Collected}
use seqc.Avl.{Avl}
use seqc.Avl.Inorder.{to_list}
use seqc.Avl.Iter.{IterState, iter, iter_next, iter_rev_next, pending, pending_rev, Stuck}
use seqc.Avl.Iter.Both.{collect-avl_iters}

-- `sizeof(avl_iter_state_t)`, with an `allocator_t` of `handle` bytes.
abbrev pub sizeof_iter_state : ℕ → ℕ
sizeof_iter_state handle = 40 + handle

module _ {ℓ κ} {A : Type ℓ} {H : Type κ} ⦃al : Allocator H⦄ where
  pub avl_iter : Option (Avl A) → H → Option (IterState A) × H
  unfolding iter
  avl_iter none h = (none, h)
  avl_iter (some t) h = elim (al.alloc (sizeof_iter_state al.handle_size) h) [
    | none ↦ (none, h)
    | some h' ↦ (some (iter t), h')
  ]

  pub avl_iter_rev : Option (Avl A) → H → Option (IterState A) × H
  unfolding iter
  avl_iter_rev none h = (none, h)
  avl_iter_rev (some t) h = elim (al.alloc (sizeof_iter_state al.handle_size) h) [
    | none ↦ (none, h)
    | some h' ↦ (some (iter t), h')
  ]

  -- The stack is NULL until the first push.
  pub avl_iter_drop : IterState A → H → H
  avl_iter_drop s h =
      let h' = if s.stack_cap == 0 then h else al.free (bytes s.stack_cap 8) h in
      al.free (sizeof_iter_state al.handle_size) h'

  -- avl_iter and avl_iter_rev on a tree fail with the heap as it was if the allocator refuses the
  -- state. Otherwise avl_iter_drop at once frees only that state, and a loop over avl_iter with
  -- more rounds than the tree has elements collects the elements in order, and one over
  -- avl_iter_rev in reverse order; either is cut short, with the first of them collected, only
  -- where its stack is full and the allocator refuses the larger one.
  pub collect-avl_iter :
      (t : Avl A) (fuel : ℕ) (h : H)
      → length (to_list t.root) < fuel
      → ((al.alloc (sizeof_iter_state al.handle_size) h ≡ none)
          × (avl_iter (some t) h ≡ (none, h))
          × (avl_iter_rev (some t) h ≡ (none, h)))
        ⊎ ((s : IterState A) × (h' : H) × (al.alloc (sizeof_iter_state al.handle_size) h ≡ some h')
            × (avl_iter (some t) h ≡ (some s, h'))
            × (avl_iter_rev (some t) h ≡ (some s, h'))
            × (avl_iter_drop s h' ≡ al.free (sizeof_iter_state al.handle_size) h')
            × Collected pending Stuck (to_list t.root) (collect iter_next fuel s h')
            × Collected pending_rev Stuck
                (reverse (to_list t.root))
                (collect iter_rev_next fuel s h'))
  unfolding avl_iter avl_iter_rev avl_iter_drop iter
  collect-avl_iter t fuel h less =
      elim (Option-cases (al.alloc (sizeof_iter_state al.handle_size) h)) [
        | inl refused ↦ inl (refused, rw (refused, avl_iter) refl, rw (refused, avl_iter_rev) refl)
        | inr (h', given) ↦
            let (forward, backward) = collect-avl_iters t fuel h' less in
            inr (
              iter t,
              h',
              given,
              rw (given, avl_iter) refl,
              rw (given, avl_iter_rev) refl,
              refl,
              forward,
              backward,
            )
      ]
