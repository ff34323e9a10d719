-- ===== src/Queue/Refine.antt =====
-- A valid queue is the sequence of its elements: queue_push, queue_pop, queue_front, queue_back,
-- queue_clear, and any client's run_fifo of them.
use native.Mathlib.Nat.{mod-eq_of_lt, mod-mod}
use seqc.Prelude.{
  suc, ◌+◌, ◌-◌, ◌%◌, ◌<◌, ◌≡◌, refl, ap, ap₂, ◌∙◌, inl, inr, Option, none, some, List, [], ◌∷◌,
  ◌++◌, arith, length-set, ◌==◌, Bool-cases, ok, size_mod, bytes, Grows, Takes, Allocator,
  IsBounded, Uninit,
}
use seqc.Window.{window, window-set, window_cong}
use seqc.Fifo.{Op, Reply, Trace}
use seqc.Queue.{Queue, slot, append, push, pop, next_cap}
use seqc.Queue.Valid.{IsValid, Holds, contents, cap_bound, queue_grow_lem}

module _ {ℓ} {A : Type ℓ} ⦃u : Uninit A⦄ where
  queue_append-Holds :
      {q : Queue A} (x : A)
      → IsValid q
      → q.len < q.cap
      → Holds q.elem_size (contents q ++ (x ∷ [])) (append q x)
  unfolding append
  queue_append-Holds {q} x p room =
      let exact : (q.head + q.len) % size_mod ≡ q.head + q.len = omega (arith, cap_bound p) in
      let count : (q.len + 1) % size_mod ≡ suc q.len = omega (arith, cap_bound p) in
      (
        record {
          slots = length-set q.buf _ x ∙ p.slots;
          filled = omega arith;
          head_in = p.head_in;
          sized = p.sized;
          narrow = p.narrow;
          small = p.small;
        },
        rw (exact, count) (window-set q.buf q.cap x q.head q.len (omega (arith, p.slots)) room),
        refl,
      )

  -- queue_pop on a valid queue takes the oldest element off, hands it out and keeps the queue
  -- valid, or fails with all as it was because the queue is empty.
  pub queue_pop_lem :
      (q : Queue A)
      → IsValid q
      → Takes q
          (pop (some q))
          (contents q ≡ [])
          (λ x r. Holds q.elem_size (contents r) r × (contents q ≡ x ∷ contents r))
  unfolding pop slot
  queue_pop_lem q p = elim (Bool-cases (q.len == 0)) [
    | inl e ↦ inl (rw e, ap (window q.buf q.cap q.head) (let z : q.len ≡ 0 = ground arith in z))
    | inr e ↦
        let n = q.len - 1 in
        let count : q.len ≡ suc n = ground arith in
        let inside : q.head < q.cap = omega (arith, p.head_in, p.filled) in
        let exact : (q.head + 1) % size_mod ≡ suc q.head = omega (arith, cap_bound p) in
        let r = record q { head = (q.head + 1) % size_mod % q.cap; len = n } in
        inr (
          slot q q.head,
          r,
          rw e,
          (
            (
              record {
                slots = p.slots;
                filled = omega (arith, p.filled);
                head_in = omega arith;
                sized = p.sized;
                narrow = p.narrow;
                small = p.small;
              },
              refl,
              refl,
            ),
            ap (window q.buf q.cap q.head) count
                ∙ ap₂ ◌∷◌ (rw (mod-eq_of_lt inside))
                    (window_cong q.buf q.cap (suc q.head) r.head n (rw (exact, mod-mod))),
          ),
        )
  ]

module _ {ℓ κ} {A : Type ℓ} {H : Type κ} ⦃u : Uninit A⦄ ⦃al : Allocator H⦄ where
  -- With an allocator that refuses requests of more than PTRDIFF_MAX bytes, queue_push on a valid
  -- queue appends the element and keeps the queue valid, or fails with all as it was, only where
  -- the queue is full and the allocator refuses the next block.
  pub queue_push_lem :
      (q : Queue A) (x : A) (h : H)
      → IsBounded al
      → IsValid q
      → Grows q h
          (push (some q) (some x) h)
          ((q.len ≡ q.cap) × (al.alloc (bytes (next_cap q) q.elem_size) h ≡ none))
          (Holds q.elem_size (contents q ++ (x ∷ [])))
  unfolding push
  queue_push_lem q x h b p = elim (Bool-cases (q.len == q.cap)) [
    | inr room ↦ inr (append q x, h, rw room, queue_append-Holds x p (ground (arith, p.filled)))
    | inl full ↦ elim (queue_grow_lem q h b p) [
      | inl (e, refused) ↦ inl (rw (full, e), (ground arith, refused))
      | inr (r, h', e, (v, same, size), larger, count) ↦
          let room : r.len < r.cap = ground arith in
          inr (append r x, h', rw (full, e), rw (← same, ← size) (queue_append-Holds x v room))
    ]
  ]

  -- A client's calls in turn.
  unfoldable pub run_fifo : List (Op A) → Option (Queue A) → H → List (Reply A)
  run_fifo [] q h = []
  run_fifo (Op.put x ∷ ops) q h =
      let (st, r, h') = push q (some x) h in
      elim st [ ok ↦ Reply.pushed | _ ↦ Reply.refused ] ∷ run_fifo ops r h'
  run_fifo (Op.get ∷ ops) q h =
      let (st, out, r) = pop q in
      elim out [ some x ↦ Reply.got x | none ↦ Reply.nothing ] ∷ run_fifo ops r h

  -- With an allocator that refuses requests of more than PTRDIFF_MAX bytes, whatever sequence of
  -- queue_push and queue_pop a client calls on a valid queue, the replies are those of a first-in-
  -- first-out sequence whose pushes may be refused.
  pub run_fifo-Trace :
      (ops : List (Op A)) (q : Queue A) (h : H)
      → IsBounded al
      → IsValid q
      → Trace (contents q) ops (run_fifo ops (some q) h)
  unfolding run_fifo
  run_fifo-Trace [] q h b p = Trace.done
  run_fifo-Trace (Op.put x ∷ ops) q h b p = elim (queue_push_lem q x h b p) [
    | inl (e, refused) ↦ rw e (Trace.put_refused (run_fifo-Trace ops q h b p))
    | inr (r, h', e, (v, same, size)) ↦
        rw e (Trace.put_pushed (rw same at (run_fifo-Trace ops r h' b v)))
  ]
  run_fifo-Trace (Op.get ∷ ops) q h b p = elim (queue_pop_lem q p) [
    | inl (e, empty) ↦ rw (e, empty) (Trace.get_nothing (rw empty at (run_fifo-Trace ops q h b p)))
    | inr (x, r, e, ((v, _, size), front)) ↦
        rw (e, front) (Trace.get_got (run_fifo-Trace ops r h b v))
  ]
