-- ===== src/Ringbuf/Refine/Run.antt =====
-- Any client's calls of the four ends.
use seqc.Prelude.{
  inl, inr, Option, none, some, List, [], ◌∷◌, Status, ok, Allocator, IsBounded, Uninit,
}
use seqc.Deque.{Op, Reply, Trace}
use seqc.Ringbuf.{Ringbuf, push_back, push_front, pop_front, pop_back}
use seqc.Ringbuf.Valid.{IsValid, contents}
use seqc.Ringbuf.Refine.Push.{ringbuf_push_back_lem, ringbuf_push_front_lem}
use seqc.Ringbuf.Refine.Pop.{ringbuf_pop_front_lem, ringbuf_pop_back_lem}

abbrev on_put {ℓ} : {A : Type ℓ} → Status → Reply A
on_put ok = Reply.pushed
on_put _ = Reply.refused

abbrev on_get {ℓ} : {A : Type ℓ} → Option A → Reply A
on_get none = Reply.nothing
on_get (some x) = Reply.got x

module _ {ℓ κ} {A : Type ℓ} {H : Type κ} ⦃u : Uninit A⦄ ⦃al : Allocator H⦄ where
  -- A client's calls in turn.
  unfoldable pub run_deque : List (Op A) → Option (Ringbuf A) → H → List (Reply A)
  run_deque [] r h = []
  run_deque (Op.put_back x ∷ ops) r h =
      let (st, s, h') = push_back r (some x) h in on_put st ∷ run_deque ops s h'
  run_deque (Op.put_front x ∷ ops) r h =
      let (st, s, h') = push_front r (some x) h in on_put st ∷ run_deque ops s h'
  run_deque (Op.get_front ∷ ops) r h =
      let (st, out, s) = pop_front r in on_get out ∷ run_deque ops s h
  run_deque (Op.get_back ∷ ops) r h =
      let (st, out, s) = pop_back r in on_get out ∷ run_deque ops s h

  -- With an allocator that refuses requests of more than PTRDIFF_MAX bytes, whatever sequence of
  -- ringbuf_push_back, ringbuf_push_front, ringbuf_pop_front and ringbuf_pop_back a client calls on
  -- a valid buffer, the replies are those of a sequence with two ends whose pushes may be refused.
  pub run_deque-Trace :
      (ops : List (Op A)) (r : Ringbuf A) (h : H)
      → IsBounded al
      → IsValid r
      → Trace (contents r) ops (run_deque ops (some r) h)
  unfolding run_deque
  run_deque-Trace [] r h b p = Trace.done
  run_deque-Trace (Op.put_back x ∷ ops) r h b p = elim (ringbuf_push_back_lem r x h b p) [
    | inl (e, refused) ↦ rw e (Trace.back_refused (run_deque-Trace ops r h b p))
    | inr (s, h', e, (v, same, size)) ↦
        rw e (Trace.back_pushed (rw same at (run_deque-Trace ops s h' b v)))
  ]
  run_deque-Trace (Op.put_front x ∷ ops) r h b p = elim (ringbuf_push_front_lem r x h b p) [
    | inl (e, refused) ↦ rw e (Trace.front_refused (run_deque-Trace ops r h b p))
    | inr (s, h', e, (v, same, size)) ↦
        rw e (Trace.front_pushed (rw same at (run_deque-Trace ops s h' b v)))
  ]
  run_deque-Trace (Op.get_front ∷ ops) r h b p = elim (ringbuf_pop_front_lem r p) [
    | inl (e, empty) ↦
        rw (e, empty) (Trace.front_nothing (rw empty at (run_deque-Trace ops r h b p)))
    | inr (x, s, e, ((v, _, size), front)) ↦
        rw (e, front) (Trace.front_got (run_deque-Trace ops s h b v))
  ]
  run_deque-Trace (Op.get_back ∷ ops) r h b p = elim (ringbuf_pop_back_lem r p) [
    | inl (e, empty) ↦
        rw (e, empty) (Trace.back_nothing (rw empty at (run_deque-Trace ops r h b p)))
    | inr (x, s, e, ((v, _, size), back)) ↦ rw e (Trace.back_got (run_deque-Trace ops s h b v) back)
  ]
