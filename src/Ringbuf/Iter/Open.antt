-- ===== src/Ringbuf/Iter/Open.antt =====
-- The creation and the release of the iterators of src/ringbuf/ringbuf.c, ringbuf_iter and
-- ringbuf_iter_rev. An `iter_t` is its state, or `none` for the one of zeros.
use seqc.Prelude.{
  ℕ, suc, ◌≡◌, refl, ◌⊎◌, inl, inr, Option, none, some, Option-cases, reverse, drain, Allocator,
  Uninit,
}
use seqc.Ringbuf.{Ringbuf}
use seqc.Ringbuf.Valid.{IsValid, contents}
use seqc.Ringbuf.Iter.{IterState, iter, iter_rev, iter_next, iter_rev_next, drain-ringbuf_iters}

-- `sizeof(ringbuf_iter_state_t)`.
abbrev sizeof_iter_state : ℕ
sizeof_iter_state = 16

module _ {ℓ κ} {A : Type ℓ} {H : Type κ} ⦃al : Allocator H⦄ where
  ringbuf_iter : Option (Ringbuf A) → H → Option (IterState A) × H
  unfolding iter
  ringbuf_iter none h = (none, h)
  ringbuf_iter (some c) h = elim (al.alloc sizeof_iter_state h) [
    | none ↦ (none, h)
    | some h' ↦ (some (iter c), h')
  ]

  ringbuf_iter_rev : Option (Ringbuf A) → H → Option (IterState A) × H
  unfolding iter_rev
  ringbuf_iter_rev none h = (none, h)
  ringbuf_iter_rev (some c) h = elim (al.alloc sizeof_iter_state h) [
    | none ↦ (none, h)
    | some h' ↦ (some (iter_rev c), h')
  ]

module _ {κ} {H : Type κ} ⦃al : Allocator H⦄ where
  -- `ringbuf_iter_drop`, of both iterators.
  ringbuf_iter_drop : H → H
  ringbuf_iter_drop h = al.free sizeof_iter_state h

module _ {ℓ κ} {A : Type ℓ} {H : Type κ} ⦃u : Uninit A⦄ ⦃al : Allocator H⦄ where
  -- Over a valid buffer, ringbuf_iter and ringbuf_iter_rev fail, with the heap as it was, where the
  -- allocator refuses the state; otherwise draining the one yields the elements in order, and
  -- draining the other yields them in reverse order, within len + 1 calls.
  drain-ringbuf_iter :
      (c : Ringbuf A) (h : H)
      → IsValid c
      → ((al.alloc sizeof_iter_state h ≡ none)
          × (ringbuf_iter (some c) h ≡ (none, h))
          × (ringbuf_iter_rev (some c) h ≡ (none, h)))
        ⊎ ((s : IterState A) × (s' : IterState A) × (h' : H) × (al.alloc sizeof_iter_state h
              ≡ some h')
            × (ringbuf_iter (some c) h ≡ (some s, h'))
            × (ringbuf_iter_rev (some c) h ≡ (some s', h'))
            × (drain iter_next (suc c.len) s ≡ some (contents c))
            × (drain iter_rev_next (suc c.len) s' ≡ some (reverse (contents c))))
  unfolding ringbuf_iter ringbuf_iter_rev
  drain-ringbuf_iter c h valid = elim (Option-cases (al.alloc sizeof_iter_state h)) [
    | inl refused ↦
        inl (refused, rw (refused, ringbuf_iter) refl, rw (refused, ringbuf_iter_rev) refl)
    | inr (h', given) ↦
        let (forward, backward) = drain-ringbuf_iters c valid in
        inr (
          iter c,
          iter_rev c,
          h',
          given,
          rw (given, ringbuf_iter) refl,
          rw (given, ringbuf_iter_rev) refl,
          forward,
          backward,
        )
  ]
