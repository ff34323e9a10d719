-- ===== src/Pqueue/Down.antt =====
-- sift_down of src/pqueue/pqueue.c makes a heap of a vector with one element too high, and Floyd's
-- heapify one of any vector.
use mathlib.Core.List.Perm
use seqc.Prelude.{
  ℕ, zero, suc, ◌+◌, ◌-◌, ◌*◌, ◌≤◌, ◌<◌, ◌≡◌, refl, ◌∙◌, ◌≢◌, ◌⊎◌, inl, inr, true, false, ◌&&◌,
  some, ltb, ◌==◌, Bool-cases, Uninit, arith,
}
use seqc.Order.{Compare, Le, Le-refl, Le_of_lt, Le-trans, is_lt_trans}
use seqc.Vec.{Vec, slot, store}
use seqc.Vec.Valid.{IsValid}
use seqc.Pqueue.{parent, swap_elems, less, smallest, sift_down_loop, sift_down, heapify}
use seqc.Pqueue.Order.{IsHeapFrom, IsBridged, Sifted, Sifted-swap, slot-swap, swap-IsValid}

child-cases : (c i : ℕ) → 0 < c → parent c ≡ i → (c ≡ 2 * i + 1) ⊎ (c ≡ 2 * i + 2)
child-cases c i p e = ground arith

module _ {ℓ} {A : Type ℓ} ⦃u : Uninit A⦄ ⦃o : Compare A⦄ where
  -- Only the edges below `i` may be out of order.
  pub record DownInv (lo : ℕ) (v : Vec A) (i : ℕ) : Type 0 where
    pub edges :
        (c : ℕ)
        → 0 < c
        → c < v.len
        → lo ≤ parent c
        → parent c ≢ i
        → Le (slot v (parent c)) (slot v c)
    pub bridged : IsBridged lo v i

  -- `m` is the child of `i` that no other comes before, and it comes before `i`.
  record IsSmallerChild (v : Vec A) (i m : ℕ) : Type 0 where
    inside : m < v.len
    child : (m ≡ 2 * i + 1) ⊎ (m ≡ 2 * i + 2)
    below : less v m i ≡ true
    least : (c : ℕ) → 0 < c → c < v.len → parent c ≡ i → Le (slot v m) (slot v c)

  IsSettled : Vec A → ℕ → Type 0
  IsSettled v i = (c : ℕ) → 0 < c → c < v.len → parent c ≡ i → Le (slot v i) (slot v c)

  -- What holds of both children holds of every child.
  both_children :
      (v : Vec A) (i m : ℕ)
      → (2 * i + 1 < v.len → Le (slot v m) (slot v (2 * i + 1)))
      → (2 * i + 2 < v.len → Le (slot v m) (slot v (2 * i + 2)))
      → (c : ℕ) → 0 < c
      → c < v.len
      → parent c ≡ i
      → Le (slot v m) (slot v c)
  both_children v i m on_left on_right c p q e = elim (child-cases c i p e) [
    | inl l ↦ rw l (on_left (omega arith))
    | inr r ↦ rw r (on_right (omega arith))
  ]

  smallest-cases :
      (v : Vec A) (i : ℕ) → ((smallest v i ≡ i) × IsSettled v i) ⊎ IsSmallerChild v i (smallest v i)
  unfolding smallest IsSettled
  smallest-cases v i =
      let l = 2 * i + 1 in
      let r = 2 * i + 2 in
      elim (Bool-cases (ltb l v.len && less v l i)) [
        | inl left ↦
            let below : less v l i ≡ true = ground arith in
            let inside : l < v.len = ground arith in
            elim (Bool-cases (ltb r v.len && less v r l)) [
              | inl right ↦
                  let lower : less v r l ≡ true = ground arith in
                  let inside_r : r < v.len = ground arith in
                  rw (left, right)
                    (inr (record {
                      inside = inside_r;
                      child = inr refl;
                      below = is_lt_trans (slot v r) (slot v l) (slot v i) lower below;
                      least =
                          both_children v i r (λ _. Le_of_lt (slot v r) (slot v l) lower)
                            (λ _. Le-refl (slot v r));
                    }))
              | inr stays ↦
                  rw (left, stays)
                    (inr (record {
                      inside = inside;
                      child = inl refl;
                      below = below;
                      least = both_children v i l (λ _. Le-refl (slot v l)) (λ q. ground arith);
                    }))
            ]
        | inr not_left ↦ elim (Bool-cases (ltb r v.len && less v r i)) [
          | inl right ↦
              let lower : less v r i ≡ true = ground arith in
              let inside_r : r < v.len = ground arith in
              rw (not_left, right)
                (inr (record {
                  inside = inside_r;
                  child = inr refl;
                  below = lower;
                  least =
                      both_children v i r
                        (λ q.
                          Le-trans (slot v r) (slot v i) (slot v l)
                            (Le_of_lt (slot v r) (slot v i) lower) (ground arith))
                        (λ _. Le-refl (slot v r));
                }))
          | inr stays ↦
              rw (not_left, stays)
                (inl (refl, both_children v i i (λ q. ground arith) (λ q. ground arith)))
        ]
      ]

  swap-DownInv :
      (lo : ℕ) (v : Vec A) (i m : ℕ)
      → IsValid v
      → DownInv lo v i
      → IsSmallerChild v i m
      → DownInv lo (swap_elems v i m) m
  unfolding swap_elems store
  swap-DownInv lo v i m valid inv s =
      let at = slot-swap v i m valid (omega (arith, s.inside, s.child)) s.inside in
      let lower = Le_of_lt (slot v m) (slot v i) s.below in
      let up : parent m ≡ i = ground (arith, s.child) in
      let larger : i < m = omega (arith, s.child) in
      record {
        edges = λ c p q r t.
            ground
              (arith, at c, at (parent c), lower, inv.edges c, inv.bridged m, s.least c, s.child);
        bridged = λ c p q r t low. rw up (
            ground (
              arith,
              at c,
              at i,
              r,
              larger,
              up,
              rw r at
                  (inv.edges c p q (omega (arith, low, larger, up, r)) (omega (arith, larger, r))),
            ));
      }

  sift_down_loop-Sifted :
      (fuel lo : ℕ) (v : Vec A) (i : ℕ)
      → IsValid v
      → v.len - i ≤ fuel
      → DownInv lo v i
      → Sifted lo v (sift_down_loop fuel v i)
  unfolding sift_down_loop swap_elems store IsSettled
  sift_down_loop-Sifted zero lo v i valid f inv = record {
    valid = valid;
    ordered = λ c p q r. inv.edges c p q r (omega arith);
    same = Perm.rfl;
    count = refl;
    size = refl;
  }
  sift_down_loop-Sifted (suc fuel) lo v i valid f inv = elim (smallest-cases v i) [
    | inl (e, settled) ↦
        let stops : (smallest v i == i) ≡ true = ground arith in
        rw stops (record {
          valid = valid;
          ordered = λ c p q r. elim (Bool-cases (parent c == i)) [
            | inl child ↦ let at_i : parent c ≡ i = ground arith in rw at_i (settled c p q at_i)
            | inr other ↦ inv.edges c p q r (ground arith)
          ];
          same = Perm.rfl;
          count = refl;
          size = refl;
        })
    | inr s ↦
        let m = smallest v i in
        let inside : i < v.len = omega (arith, s.inside, s.child) in
        let goes : (m == i) ≡ false = ground (arith, s.child) in
        rw goes (
          Sifted-swap valid inside s.inside (
            sift_down_loop-Sifted fuel lo (swap_elems v i m) m
              (swap-IsValid v i m valid inside s.inside) (omega (arith, s.child))
              (swap-DownInv lo v i m valid inv s)))
  ]

  -- An element at `i` that only the edges below it have out of order comes to its place.
  pub sift_down-Sifted :
      (lo : ℕ) (v : Vec A) (i : ℕ)
      → IsValid v
      → DownInv lo v i
      → Sifted lo v (sift_down_loop v.len v i)
  sift_down-Sifted lo v i valid inv = sift_down_loop-Sifted v.len lo v i valid (omega arith) inv

  -- Each round extends the ordered part of the vector by one parent.
  pub heapify-Sifted :
      (i : ℕ) (v : Vec A)
      → IsValid v
      → IsHeapFrom i v
      → (w : Vec A) × (heapify i (some v) ≡ some w) × Sifted 0 v w
  unfolding heapify sift_down
  heapify-Sifted zero v valid h =
      (v, refl, record { valid = valid; ordered = h; same = Perm.rfl; count = refl; size = refl })
  heapify-Sifted (suc i) v valid h =
      let s = sift_down-Sifted i v i valid (record {
        edges = λ c p q r t. h c p q (omega arith);
        bridged = λ c p q e t r. absurd (omega arith);
      }) in
      let (w, e, t) = heapify-Sifted i (sift_down_loop v.len v i) s.valid s.ordered in
      (
        w,
        e,
        record {
          valid = t.valid;
          ordered = t.ordered;
          same = Perm.trans t.same s.same;
          count = t.count ∙ s.count;
          size = t.size ∙ s.size;
        },
      )
