-- ===== src/Pqueue/Drain.antt =====
-- pqueue_drain of src/pqueue/pqueue.c hands the elements out in order.
use mathlib.Core.List.{Perm}
use mathlib.Core.List.Perm
use seqc.Prelude.{
  ℕ, zero, suc, ◌≡◌, refl, sym, ap, ◌∙◌, ◌⊎◌, inl, inr, Option, none, some, List, [], ◌∷◌, length,
  ◌==◌, false, Option-cases, bytes, Uninit, Allocator, arith,
}
use seqc.Order.{Compare, Le}
use seqc.Order.Sorted.{All}
use seqc.Order.Bags.{All-perm, length-perm}
use seqc.Vec as Array
use seqc.Vec.Valid.{length-contents}
use seqc.Vec.Edit.{shorten-IsValid}
use seqc.Iter.Slice.{Slice}
use seqc.Pqueue.{Pqueue, pop_all, drain, len, clear}
use seqc.Pqueue.Order.{IsQueue}
use seqc.Pqueue.Pop.{pqueue_pop_lem}

module _ {ℓ} {A : Type ℓ} ⦃o : Compare A⦄ where
  -- No element comes before one that stands in front of it.
  abbrev pub IsOrdered : List A → Type 0
  IsOrdered [] = Unit
  IsOrdered (x ∷ xs) = All (Le x) xs × IsOrdered xs

module _ {ℓ} {A : Type ℓ} ⦃u : Uninit A⦄ ⦃o : Compare A⦄ where
  pop_all_lem :
      (n size : ℕ) (xs : List A) (q : Pqueue A)
      → IsQueue size xs q
      → length xs ≡ n
      → (ys : List A) × (r : Pqueue A) × (pop_all n q ≡ (ys, some r))
        × IsQueue size [] r
        × Perm ys xs
        × IsOrdered ys
  unfolding pop_all
  pop_all_lem zero size [] q p e = ([], q, refl, p, Perm.rfl, tt)
  pop_all_lem zero size (x ∷ xs) q p e = absurd (omega arith)
  pop_all_lem (suc n) size xs q p e = elim (pqueue_pop_lem q size xs p) [
    | inl (failed, empty) ↦ absurd (omega (arith, ap length empty))
    | inr (x, r, popped, (ys, left, same, least)) ↦
        let (zs, r', rest, done, sorted_of, sorted) =
          pop_all_lem n size ys r left (omega (arith, length-perm same)) in
        (
          x ∷ zs,
          r',
          rw (popped, pop_all, popped)
              (ap (λ (t : List A × Option (Pqueue A)). (x ∷ t.0, t.1)) rest),
          done,
          Perm.trans (Perm.cons x sorted_of) same,
          (All-perm x (Perm.symm sorted_of) (All-perm x (Perm.symm same) least).1, sorted),
        )
  ]

  queue_len : (size : ℕ) (xs : List A) (q : Pqueue A) → IsQueue size xs q → len (some q) ≡ length xs
  unfolding len Array.len
  queue_len size xs q p = rw p.has (sym (length-contents p.valid) ∙ length-perm p.same)

  queue_elem_size :
      (size : ℕ) (xs : List A) (q : Pqueue A) → IsQueue size xs q → Array.elem_size q.vec ≡ size
  unfolding Array.elem_size
  queue_elem_size size xs q p = rw p.has p.sized

  clear_lem :
      (size : ℕ) (xs : List A) (q : Pqueue A)
      → IsQueue size xs q
      → (r : Pqueue A) × (clear (some q) ≡ some r) × IsQueue size [] r
  unfolding clear Array.clear
  clear_lem size xs q p = (
    record { vec = some (record p.v { len = 0 }) },
    rw p.has refl,
    record {
      v = record p.v { len = 0 };
      has = refl;
      valid = shorten-IsValid p.v 0 p.valid (omega arith);
      sized = p.sized;
      ordered = λ c a b d. absurd (omega arith);
      same = Perm.rfl;
    },
  )

module _ {ℓ κ} {A : Type ℓ} {H : Type κ} ⦃u : Uninit A⦄ ⦃o : Compare A⦄ ⦃al : Allocator H⦄ where
  -- pqueue_drain of a valid heap leaves an empty valid one, and returns all elements with none in
  -- front of one that comes before it, or {NULL, 0}; the latter only if there are none or the
  -- allocator refuses the block.
  pub pqueue_drain_lem :
      (q : Pqueue A) (size : ℕ) (xs : List A) (h : H)
      → IsQueue size xs q
      → (s : Slice A) × (r : Pqueue A) × (h' : H) × (drain q h ≡ (s, some r, h'))
        × IsQueue size [] r
        × (((s ≡ record { ptr = none; len = 0; elem_size = size })
              × ((xs ≡ []) ⊎ (al.alloc (bytes (length xs) size) h ≡ none)))
            ⊎ ((ys : List A) × (s ≡ record { ptr = some ys; len = length xs; elem_size = size })
                × Perm ys xs
                × IsOrdered ys))
  unfolding drain
  pqueue_drain_lem q size [] h p =
      let none_left = queue_len size [] q p in
      (
        record { ptr = none; len = 0; elem_size = size },
        q,
        h,
        rw (none_left, queue_elem_size size [] q p) refl,
        p,
        inl (refl, inl refl),
      )
  pqueue_drain_lem q size (x ∷ xs) h p =
      let n = length (x ∷ xs) in
      let count : len (some q) ≡ n = queue_len size (x ∷ xs) q p in
      let filled : (n == 0) ≡ false = ground arith in
      let sized = queue_elem_size size (x ∷ xs) q p in
      elim (Option-cases (al.alloc (bytes n size) h)) [
        | inl refused ↦
            let (r, cleared, done) = clear_lem size (x ∷ xs) q p in
            (
              record { ptr = none; len = 0; elem_size = size },
              r,
              h,
              rw (count, filled, sized, refused, sized, cleared) refl,
              done,
              inl (refl, inr refused),
            )
        | inr (h', given) ↦
            let (ys, r, popped, done, same, sorted) = pop_all_lem n size (x ∷ xs) q p refl in
            (
              record { ptr = some ys; len = n; elem_size = size },
              r,
              h',
              rw (count, filled, sized, given, count, sized, popped) refl,
              done,
              inr (ys, refl, same, sorted),
            )
      ]
