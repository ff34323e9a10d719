-- ===== src/Pqueue/Up.antt =====
-- sift_up of src/pqueue/pqueue.c makes a heap of a vector with one element too low.
use mathlib.Core.List.Perm
use seqc.Prelude.{
  ℕ, zero, suc, ◌≤◌, ◌<◌, ◌≡◌, refl, ◌≢◌, inl, inr, true, ◌&&◌, ltb, Bool-cases, Uninit, arith,
}
use seqc.Order.{Compare, Le, Le_of_lt, Le-trans}
use seqc.Vec.{Vec, slot, store}
use seqc.Vec.Valid.{IsValid}
use seqc.Pqueue.{parent, swap_elems, less, sift_up_loop}
use seqc.Pqueue.Order.{IsBridged, Sifted, Sifted-swap, slot-swap, swap-IsValid}

module _ {ℓ} {A : Type ℓ} ⦃u : Uninit A⦄ ⦃o : Compare A⦄ where
  -- Only the edge above `i` may be out of order.
  pub record UpInv (v : Vec A) (i : ℕ) : Type 0 where
    pub inside : i < v.len
    pub edges : (c : ℕ) → 0 < c → c < v.len → c ≢ i → Le (slot v (parent c)) (slot v c)
    pub bridged : IsBridged 0 v i

  swap-UpInv :
      (v : Vec A) (i : ℕ)
      → IsValid v
      → UpInv v i
      → 0 < i
      → less v i (parent i) ≡ true
      → UpInv (swap_elems v i (parent i)) (parent i)
  unfolding swap_elems store
  swap-UpInv v i valid inv pos below =
      let p = parent i in
      let inside : p < v.len = omega (arith, inv.inside) in
      let at = slot-swap v i p valid inv.inside inside in
      let lower = Le_of_lt (slot v i) (slot v p) below in
      record {
        inside = inside;
        edges = λ c pos_c in_c other. ground (
          arith,
          at c,
          at (parent c),
          lower,
          inv.edges c,
          inv.bridged c,
          Le-trans (slot v i) (slot v p) (slot v c),
        );
        bridged = λ c pos_c in_c child pos_p _. ground (
          arith,
          at c,
          at (parent p),
          inv.edges p,
          inv.edges c,
          Le-trans (slot v (parent p)) (slot v p) (slot v c),
        );
      }

  sift_up_loop-Sifted :
      (fuel : ℕ) (v : Vec A) (i : ℕ)
      → IsValid v
      → i ≤ fuel
      → UpInv v i
      → Sifted 0 v (sift_up_loop fuel v i)
  unfolding sift_up_loop swap_elems store
  sift_up_loop-Sifted zero v i valid f inv = record {
    valid = valid;
    ordered = λ c p q r. inv.edges c p q (omega arith);
    same = Perm.rfl;
    count = refl;
    size = refl;
  }
  sift_up_loop-Sifted (suc fuel) v i valid f inv =
      elim (Bool-cases (ltb 0 i && less v i (parent i))) [
        | inl goes ↦
            let pos : 0 < i = ground arith in
            let below : less v i (parent i) ≡ true = ground arith in
            let inside : parent i < v.len = omega (arith, inv.inside) in
            rw goes (
              Sifted-swap valid inv.inside inside (
                sift_up_loop-Sifted fuel (swap_elems v i (parent i)) (parent i)
                  (swap-IsValid v i (parent i) valid inv.inside inside) (omega arith)
                  (swap-UpInv v i valid inv pos below)))
        | inr stays ↦ rw stays (record {
          valid = valid;
          ordered = λ c p q r. ground (arith, inv.edges c);
          same = Perm.rfl;
          count = refl;
          size = refl;
        })
      ]

  -- An element at `i` that only the edge above it has out of order comes to its place.
  pub sift_up-Sifted : (v : Vec A) (i : ℕ) → IsValid v → UpInv v i → Sifted 0 v (sift_up_loop i v i)
  sift_up-Sifted v i valid inv = sift_up_loop-Sifted i v i valid (omega arith) inv
