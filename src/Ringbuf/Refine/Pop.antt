-- ===== src/Ringbuf/Refine/Pop.antt =====
-- ringbuf_pop_front, ringbuf_pop_back and the reading operations.
use native.Mathlib.Nat.{mod-eq_of_lt, mod-mod, mod-lt}
use seqc.Prelude.{
  ℕ, suc, ◌+◌, ◌-◌, ◌%◌, ◌<◌, ◌≡◌, refl, sym, ap, ap₂, ◌∙◌, inl, inr, some, [], ◌∷◌, ◌++◌, arith,
  get_elem?, get_elem?-none, leb, leb→le, leb→lt, ◌==◌, Bool-cases, size_mod, Uninit, Takes,
}
use seqc.Window.{window, length-window, window-suc, window_cong, get_elem?-window}
use seqc.Ringbuf.{Ringbuf, slot_of, at, pop_front, pop_back, get_ptr}
use seqc.Ringbuf.Valid.{IsValid, Holds, contents, cap_bound, mask_lem, slot_of_lem}

module _ {ℓ} {A : Type ℓ} ⦃u : Uninit A⦄ where
  -- ringbuf_pop_front on a valid buffer takes the first element off, hands it out and keeps the
  -- buffer valid, or fails with all as it was because the buffer is empty.
  pub ringbuf_pop_front_lem :
      (r : Ringbuf A)
      → IsValid r
      → Takes r
          (pop_front (some r))
          (contents r ≡ [])
          (λ x s. Holds r.elem_size (contents s) s × (contents r ≡ x ∷ contents s))
  unfolding pop_front at
  ringbuf_pop_front_lem r p = elim (Bool-cases (r.len == 0)) [
    | inl e ↦ inl (rw e, ap (window r.buf r.cap r.head) (let z : r.len ≡ 0 = ground arith in z))
    | inr e ↦
        let n = r.len - 1 in
        let count : r.len ≡ suc n = ground arith in
        let inside : r.head < r.cap = omega (arith, p.head_in, p.filled) in
        let exact : (r.head + 1) % size_mod ≡ suc r.head = omega (arith, cap_bound p) in
        let next = mask_lem r (suc r.head) p (omega arith) in
        let s = record r { head = suc r.head % r.cap; len = n } in
        inr (
          at r r.head,
          s,
          rw (e, exact, next),
          (
            (
              record {
                slots = p.slots;
                filled = omega (arith, p.filled);
                head_in = omega (arith, mod-lt (suc r.head) {m = r.cap} (omega arith));
                power = p.power;
                sized = p.sized;
                narrow = p.narrow;
                small = p.small;
              },
              refl,
              refl,
            ),
            ap (window r.buf r.cap r.head) count
                ∙ ap₂ ◌∷◌ (rw (mod-eq_of_lt inside))
                    (window_cong r.buf r.cap (suc r.head) s.head n (rw mod-mod)),
          ),
        )
  ]

  -- ringbuf_pop_back on a valid buffer takes the last element off, hands it out and keeps the
  -- buffer valid, or fails with all as it was because the buffer is empty.
  pub ringbuf_pop_back_lem :
      (r : Ringbuf A)
      → IsValid r
      → Takes r
          (pop_back (some r))
          (contents r ≡ [])
          (λ x s. Holds r.elem_size (contents s) s × (contents r ≡ contents s ++ (x ∷ [])))
  unfolding pop_back at
  ringbuf_pop_back_lem r p = elim (Bool-cases (r.len == 0)) [
    | inl e ↦ inl (rw e, ap (window r.buf r.cap r.head) (let z : r.len ≡ 0 = ground arith in z))
    | inr e ↦
        let n = r.len - 1 in
        let count : r.len ≡ suc n = ground arith in
        let slot = slot_of_lem r n p (omega (arith, p.filled)) (omega (arith, p.filled)) in
        inr (
          at r (slot_of r n),
          record r { len = n },
          rw e,
          (
            (
              record {
                slots = p.slots;
                filled = omega (arith, p.filled);
                head_in = p.head_in;
                power = p.power;
                sized = p.sized;
                narrow = p.narrow;
                small = p.small;
              },
              refl,
              refl,
            ),
            ap (window r.buf r.cap r.head) count ∙ window-suc r.buf r.cap r.head n ∙ rw slot,
          ),
        )
  ]

  -- ringbuf_get_ptr on a valid buffer finds the i-th element, and NULL past the end.
  pub ringbuf_get_ptr_lem :
      (r : Ringbuf A) (i : ℕ) → IsValid r → get_ptr (some r) i ≡ get_elem? (contents r) i
  unfolding get_ptr at
  ringbuf_get_ptr_lem r i p = elim (Bool-cases (leb r.len i)) [
    | inl past ↦
        let short = length-window r.buf r.cap r.head r.len in
        rw past (sym (get_elem?-none (contents r) i (omega (arith, short, leb→le r.len i past))))
    | inr inside ↦
        let below : i < r.len = leb→lt r.len i inside in
        rw (inside, slot_of_lem r i p (omega (arith, p.filled)) (omega (arith, p.filled)))
          (sym (get_elem?-window r.buf r.cap r.head r.len i below))
  ]
