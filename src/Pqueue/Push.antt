-- ===== src/Pqueue/Push.antt =====
-- pqueue_push of src/pqueue/pqueue.c keeps the heap.
use mathlib.Core.List.{perm_middle}
use mathlib.Core.List.Perm
use seqc.Prelude.{
  ℕ, suc, ◌-◌, ◌<◌, ◌≡◌, refl, sym, ap, ◌∙◌, inl, inr, some, List, [], ◌∷◌, ◌++◌, append-nil,
  length, get_or, length-append, get_or-append_left, Uninit, Allocator, IsBounded, Grows, arith,
}
use seqc.Order.{Compare}
use seqc.Vec as Array
use seqc.Vec.{Vec, slot, store}
use seqc.Vec.Valid.{IsValid, contents, Holds, length-contents}
use seqc.Vec.Grow.{Blocked, vec_push_lem}
use seqc.Pqueue.{Pqueue, parent, push, sift_up, sift_up_loop}
use seqc.Pqueue.Order.{IsHeap, IsQueue, Sifted, slot-contents}
use seqc.Pqueue.Up.{sift_up-Sifted}

module _ {ℓ} {A : Type ℓ} ⦃u : Uninit A⦄ ⦃o : Compare A⦄ where
  -- The vector behind `vec_push`: all but the last slot are as they were.
  slot-pushed :
      (v w : Vec A) (x : A) (c : ℕ)
      → IsValid v
      → contents w ≡ contents v ++ (x ∷ [])
      → w.len ≡ suc v.len
      → c < v.len
      → slot w c ≡ slot v c
  slot-pushed v w x c valid grown count p =
      sym (slot-contents w c (omega arith))
      ∙ ap (λ l. get_or l c u.junk) grown
      ∙ get_or-append_left (contents v) (x ∷ []) c u.junk (omega (arith, length-contents valid))
      ∙ slot-contents v c p

  sift_pushed :
      (v w : Vec A) (x : A)
      → IsValid v
      → IsHeap v
      → Holds v.elem_size (contents v ++ (x ∷ [])) w
      → Sifted 0 w (sift_up_loop (w.len - 1) w (w.len - 1))
  sift_pushed v w x valid ordered (good, grown, size) =
      let count : w.len ≡ suc v.len = omega (
        arith,
        ap length grown,
        length-contents valid,
        length-contents good,
        length-append (contents v) (x ∷ []),
      ) in
      sift_up-Sifted w (w.len - 1) good (record {
        inside = omega arith;
        edges = λ c p q other.
            let below : c < v.len = omega arith in
            rw
              (
                slot-pushed v w x c valid grown count below,
                slot-pushed v w x (parent c) valid grown count (omega arith),
              )
              (ordered c p below (omega arith));
        bridged = λ c p q e r s. absurd (omega arith);
      })

module _ {ℓ κ} {A : Type ℓ} {H : Type κ} ⦃u : Uninit A⦄ ⦃o : Compare A⦄ ⦃al : Allocator H⦄ where
  -- With an allocator that refuses requests of more than PTRDIFF_MAX bytes, pqueue_push on a valid
  -- heap leaves a valid heap of the elements and the new one, or fails with all as it was, only
  -- where the vector is full and the allocator refuses the next block.
  pub pqueue_push_lem :
      (q : Pqueue A) (size : ℕ) (xs : List A) (x : A) (h : H)
      → IsBounded al
      → IsQueue size xs q
      → Grows q h
          (push (some q) (some x) h)
          ((v : Vec A) × (q.vec ≡ some v) × Blocked v h)
          (IsQueue size (x ∷ xs))
  unfolding push sift_up Array.len
  pqueue_push_lem q size xs x h b p = elim (vec_push_lem p.v x h b p.valid) [
    | inl (e, why) ↦ inl (rw (p.has, e), (p.v, p.has, why))
    | inr (w, h', e, held) ↦
        let s = sift_pushed p.v w x p.valid p.ordered held in
        inr (
          record { vec = some (sift_up_loop (w.len - 1) w (w.len - 1)) },
          h',
          rw (p.has, e),
          record {
            v = sift_up_loop (w.len - 1) w (w.len - 1);
            has = refl;
            valid = s.valid;
            sized = s.size ∙ held.2 ∙ p.sized;
            ordered = s.ordered;
            same = Perm.trans s.same (
                Perm.trans
                  (rw held.1
                    (rw (append-nil (contents p.v)) at (perm_middle {a = x} (contents p.v) [])))
                  (Perm.cons x p.same));
          },
        )
  ]
