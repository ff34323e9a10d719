-- ===== src/Pqueue/Pop.antt =====
-- pqueue_pop of src/pqueue/pqueue.c takes a first element off the heap.
use mathlib.Core.List.{Perm, perm_middle}
use mathlib.Core.List.Perm
use seqc.Prelude.{
  ℕ, suc, ◌-◌, ◌<◌, ◌≡◌, refl, sym, ap, ◌∙◌, inl, inr, true, false, some, List, [], ◌∷◌, ◌++◌,
  append-nil, take, set, length, get_or, get_or-set, get_or-take, length-set, length-take, take-set,
  take-suc, ltb, ◌==◌, if◌then◌else◌, Bool-cases, Uninit, Takes, arith,
}
use seqc.Order.{Compare, Le}
use seqc.Order.Sorted.{All}
use seqc.Order.Bags.{All-get_or, All-perm}
use seqc.Vec as Array
use seqc.Vec.{Vec, slot, store}
use seqc.Vec.Valid.{IsValid, contents, length-contents}
use seqc.Vec.Edit.{shorten-IsValid}
use seqc.Pqueue.{Pqueue, parent, pop, pop_root, sift_down, sift_down_loop}
use seqc.Pqueue.Order.{IsHeap, IsQueue, Sifted, slot-contents, root_least, set-trades}
use seqc.Pqueue.Down.{sift_down-Sifted}

module _ {ℓ} {A : Type ℓ} ⦃u : Uninit A⦄ ⦃o : Compare A⦄ where
  -- The vector that `pqueue_pop` sifts: the last element in the place of the first.
  unrooted : Vec A → Vec A
  unrooted v =
      let last = v.len - 1 in
      record v { buf = if ltb 0 last then set v.buf 0 (slot v last) else v.buf; len = last }

  unrooted-IsValid : (v : Vec A) → IsValid v → IsValid (unrooted v)
  unfolding unrooted
  unrooted-IsValid v valid = elim (Bool-cases (ltb 0 (v.len - 1))) [
    | inl more ↦ rw more (record {
      slots = length-set v.buf 0 (slot v (v.len - 1)) ∙ valid.slots;
      filled = omega (arith, valid.filled);
      sized = valid.sized;
      narrow = valid.narrow;
      small = valid.small;
    })
    | inr single ↦ rw single (shorten-IsValid v (v.len - 1) valid (omega arith))
  ]

  unrooted-Perm :
      (v : Vec A) → IsValid v → 0 < v.len → Perm (slot v 0 ∷ contents (unrooted v)) (contents v)
  unfolding unrooted slot
  unrooted-Perm v valid some_left =
      let last = v.len - 1 in
      let a = slot v last in
      let ys = take last v.buf in
      let count : v.len ≡ suc last = omega arith in
      let whole : contents v ≡ ys ++ (a ∷ []) =
        ap (λ (k : ℕ). take k v.buf) count
        ∙ take-suc last v.buf u.junk (omega (arith, valid.slots, valid.filled)) in
      elim (Bool-cases (ltb 0 last)) [
        | inl more ↦
            let pos : 0 < last = ground arith in
            let root : get_or ys 0 u.junk ≡ slot v 0 = get_or-take last v.buf 0 u.junk pos in
            let inside : 0 < length ys =
              omega (arith, length-take last v.buf, valid.slots, valid.filled) in
            let traded : Perm (slot v 0 ∷ set ys 0 a) (a ∷ ys) =
              Perm.symm (rw root at (set-trades u.junk 0 ys a inside)) in
            rw (more, take-set last v.buf 0 a, whole)
              (Perm.trans traded (Perm.symm (rw (append-nil ys) at (perm_middle {a = a} ys []))))
        | inr single ↦
            let none_left : last ≡ 0 = ground arith in rw (single, whole, none_left) Perm.rfl
      ]

  slot-unrooted :
      (v : Vec A) (c : ℕ) → IsValid v → 0 < c → c < v.len - 1 → slot (unrooted v) c ≡ slot v c
  unfolding unrooted slot
  slot-unrooted v c valid p q =
      let more : ltb 0 (v.len - 1) ≡ true = ground arith in
      let inside : 0 < length v.buf = omega (arith, valid.slots, valid.filled) in
      rw (more, get_or-set v.buf 0 c (slot v (v.len - 1)) u.junk inside) (ground arith)

  pop_root-Sifted :
      (v : Vec A)
      → IsValid v
      → IsHeap v
      → 0 < v.len
      → (w : Vec A) × (pop_root v ≡ some w) × Sifted 0 (unrooted v) w
  unfolding pop_root unrooted Array.pop Array.len sift_down store
  pop_root-Sifted v valid ordered some_left =
      let left : (v.len == 0) ≡ false = ground arith in
      let m = unrooted v in
      let good = unrooted-IsValid v valid in
      elim (Bool-cases (ltb 0 (v.len - 1))) [
        | inl more ↦ (
          sift_down_loop m.len m 0,
          rw (more, left, more) refl,
          sift_down-Sifted 0 m 0 good (record {
            edges = λ c p q r other.
                rw
                  (
                    slot-unrooted v c valid p q,
                    slot-unrooted v (parent c) valid (omega arith) (omega arith),
                  )
                  (ordered c p (omega arith) (omega arith));
            bridged = λ c p q e r s. absurd (omega arith);
          }),
        )
        | inr single ↦ (
          m,
          rw (single, left, single) refl,
          record {
            valid = good;
            ordered = λ c p q r. ground arith;
            same = Perm.rfl;
            count = refl;
            size = refl;
          },
        )
      ]

module _ {ℓ} {A : Type ℓ} ⦃u : Uninit A⦄ ⦃o : Compare A⦄ where
  -- pqueue_pop on a valid heap takes out an element that none of the elements comes before, hands
  -- it out, and leaves a valid heap of the others, or fails with all as it was because the queue is
  -- empty.
  pub pqueue_pop_lem :
      (q : Pqueue A) (size : ℕ) (xs : List A)
      → IsQueue size xs q
      → Takes q
          (pop (some q))
          (xs ≡ [])
          (λ x r. (ys : List A) × IsQueue size ys r × Perm (x ∷ ys) xs × All (Le x) xs)
  unfolding pop unrooted
  pqueue_pop_lem q size xs p =
      let v = p.v in
      elim (Bool-cases (v.len == 0)) [
        | inl empty ↦
            let none_left : v.len ≡ 0 = ground arith in
            inl (simp (p.has, empty), sym (Perm.nil-eq (rw none_left at p.same)))
        | inr some_left ↦
            let pos : 0 < v.len = ground arith in
            let (w, e, s) = pop_root-Sifted v p.valid p.ordered pos in
            let least : All (Le (slot v 0)) (contents v) =
              All-get_or (Le (slot v 0)) (contents v) u.junk (λ i below.
                let inside : i < v.len = omega (arith, length-contents p.valid) in
                rw (slot-contents v i inside) (root_least v i p.ordered inside)) in
            inr (
              slot v 0,
              record { vec = some w },
              rw (p.has, some_left, e),
              (
                contents w,
                record {
                  v = w;
                  has = refl;
                  valid = s.valid;
                  sized = s.size ∙ p.sized;
                  ordered = s.ordered;
                  same = Perm.rfl;
                },
                Perm.trans (Perm.cons (slot v 0) s.same)
                    (Perm.trans (unrooted-Perm v p.valid pos) p.same),
                All-perm (slot v 0) p.same least,
              ),
            )
      ]
