-- ===== src/Queue/Iter/Open.antt =====
-- The creation and the release of the iterators of src/queue/queue.c, queue_iter and
-- queue_iter_rev. An `iter_t` is its state, or `none` for the one of zeros.
use seqc.Prelude.{
  ℕ, suc, ◌≡◌, refl, ◌⊎◌, inl, inr, Option, none, some, Option-cases, reverse, drain, Allocator,
  Uninit,
}
use seqc.Queue.{Queue}
use seqc.Queue.Valid.{IsValid, contents}
use seqc.Queue.Iter.{IterState, iter, iter_rev, iter_next, iter_rev_next, drain-queue_iters}

-- `sizeof(queue_iter_state_t)`, which is that of `queue_iter_rev_state_t`.
abbrev sizeof_iter_state : ℕ
sizeof_iter_state = 40

module _ {ℓ κ} {A : Type ℓ} {H : Type κ} ⦃al : Allocator H⦄ where
  queue_iter : Option (Queue A) → H → Option (IterState A) × H
  unfolding iter
  queue_iter none h = (none, h)
  queue_iter (some c) h = elim (al.alloc sizeof_iter_state h) [
    | none ↦ (none, h)
    | some h' ↦ (some (iter c), h')
  ]

  queue_iter_rev : Option (Queue A) → H → Option (IterState A) × H
  unfolding iter_rev
  queue_iter_rev none h = (none, h)
  queue_iter_rev (some c) h = elim (al.alloc sizeof_iter_state h) [
    | none ↦ (none, h)
    | some h' ↦ (some (iter_rev c), h')
  ]

module _ {κ} {H : Type κ} ⦃al : Allocator H⦄ where
  -- `queue_iter_drop` and `queue_iter_rev_drop`, which do the same.
  queue_iter_drop : H → H
  queue_iter_drop h = al.free sizeof_iter_state h

module _ {ℓ κ} {A : Type ℓ} {H : Type κ} ⦃u : Uninit A⦄ ⦃al : Allocator H⦄ where
  -- Over a valid queue, queue_iter and queue_iter_rev fail, with the heap as it was, where the
  -- allocator refuses the state; otherwise draining the one yields the elements in order, and
  -- draining the other yields them in reverse order, within len + 1 calls.
  drain-queue_iter :
      (c : Queue A) (h : H)
      → IsValid c
      → ((al.alloc sizeof_iter_state h ≡ none)
          × (queue_iter (some c) h ≡ (none, h))
          × (queue_iter_rev (some c) h ≡ (none, h)))
        ⊎ ((s : IterState A) × (s' : IterState A) × (h' : H) × (al.alloc sizeof_iter_state h
              ≡ some h')
            × (queue_iter (some c) h ≡ (some s, h'))
            × (queue_iter_rev (some c) h ≡ (some s', h'))
            × (drain iter_next (suc c.len) s ≡ some (contents c))
            × (drain iter_rev_next (suc c.len) s' ≡ some (reverse (contents c))))
  unfolding queue_iter queue_iter_rev
  drain-queue_iter c h valid = elim (Option-cases (al.alloc sizeof_iter_state h)) [
    | inl refused ↦ inl (refused, rw (refused, queue_iter) refl, rw (refused, queue_iter_rev) refl)
    | inr (h', given) ↦
        let (forward, backward) = drain-queue_iters c valid in
        inr (
          iter c,
          iter_rev c,
          h',
          given,
          rw (given, queue_iter) refl,
          rw (given, queue_iter_rev) refl,
          forward,
          backward,
        )
  ]
