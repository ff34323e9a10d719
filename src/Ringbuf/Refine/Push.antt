-- ===== src/Ringbuf/Refine/Push.antt =====
-- ringbuf_push_back and ringbuf_push_front.
use native.Mathlib.Nat.{mod-eq_of_lt, mod-mod, add-mod_right, mod-lt}
use seqc.Prelude.{
  ℕ, suc, ◌+◌, ◌-◌, ◌%◌, ◌≤◌, ◌<◌, ◌≡◌, refl, sym, ap, ap₂, ◌∙◌, inl, inr, none, some, List, [],
  ◌∷◌, ◌++◌, arith, length, set, get_or, get_or-set, length-set, ◌==◌, ==_iff, Bool-cases, size_mod,
  bytes, Grows, Allocator, IsBounded, Uninit,
}
use seqc.Window.{window, window-set, window-set_ne, window_cong, mod_ne, suc-mod_cong}
use seqc.Ringbuf.{Ringbuf, append, prepend, push_back, push_front, next_cap}
use seqc.Ringbuf.Valid.{IsValid, Holds, contents, cap_bound, mask_lem, slot_of_lem}
use seqc.Ringbuf.Grow.{ringbuf_grow_lem}

module _ {ℓ} {A : Type ℓ} ⦃u : Uninit A⦄ where
  ringbuf_append-Holds :
      {r : Ringbuf A} (x : A)
      → IsValid r
      → r.len < r.cap
      → Holds r.elem_size (contents r ++ (x ∷ [])) (append r x)
  unfolding append
  ringbuf_append-Holds {r} x p room =
      let slot = slot_of_lem r r.len p (omega arith) p.filled in
      let count : (r.len + 1) % size_mod ≡ suc r.len = omega (arith, cap_bound p) in
      (
        record {
          slots = length-set r.buf _ x ∙ p.slots;
          filled = omega arith;
          head_in = p.head_in;
          power = p.power;
          sized = p.sized;
          narrow = p.narrow;
          small = p.small;
        },
        rw (slot, count) (window-set r.buf r.cap x r.head r.len (omega (arith, p.slots)) room),
        refl,
      )

  -- Writing one slot before the window makes it one entry longer at the front.
  window_prepend :
      (buf : List A) (c h n : ℕ) (x : A)
      → c ≤ length buf
      → n < c
      → let k = (h + c - 1) % c in window (set buf k x) c k (suc n) ≡ x ∷ window buf c h n
  window_prepend buf c h n x whole room =
      let k = (h + c - 1) % c in
      let inside : k < c = mod-lt (h + c - 1) {m = c} (omega arith) in
      let here = get_or-set buf k k x u.junk (omega arith) in
      let round : suc k % c ≡ h % c =
        suc-mod_cong c k (h + c - 1) (mod-mod (h + c - 1) c)
        ∙ ap (λ (t : ℕ). t % c) (let e : suc (h + c - 1) ≡ h + c = omega arith in e)
        ∙ add-mod_right h c in
      let away = λ (j : ℕ) (p : suc k ≤ j) (q : j < suc k + n) (e : j % c ≡ k).
        mod_ne c k j (omega arith) (omega arith) (mod-eq_of_lt inside ∙ sym e) in
      ap₂ ◌∷◌
        (ap (λ (i : ℕ). get_or (set buf k x) i u.junk) (mod-eq_of_lt inside)
          ∙ here
          ∙ rw ((==_iff k k).1 refl))
        (window-set_ne buf c k x (suc k) n (omega arith) away ∙ window_cong buf c (suc k) h n round)

  prepend-Holds :
      {r : Ringbuf A} (x : A)
      → IsValid r
      → r.len < r.cap
      → Holds r.elem_size (x ∷ contents r) (prepend r x)
  unfolding prepend
  prepend-Holds {r} x p room =
      let exact : ((r.head + r.cap) % size_mod + size_mod - 1) % size_mod ≡ r.head + r.cap - 1 =
        omega (arith, cap_bound p, p.head_in) in
      let before = mask_lem r (r.head + r.cap - 1) p (omega arith) in
      let count : (r.len + 1) % size_mod ≡ suc r.len = omega (arith, cap_bound p) in
      let inside : (r.head + r.cap - 1) % r.cap < r.cap =
        mod-lt (r.head + r.cap - 1) {m = r.cap} (omega arith) in
      rw (exact, before, count)
        (
          record {
            slots = length-set r.buf _ x ∙ p.slots;
            filled = omega arith;
            head_in = omega arith;
            power = p.power;
            sized = p.sized;
            narrow = p.narrow;
            small = p.small;
          },
          window_prepend r.buf r.cap r.head r.len x (omega (arith, p.slots)) room,
          refl,
        )

module _ {ℓ κ} {A : Type ℓ} {H : Type κ} ⦃u : Uninit A⦄ ⦃al : Allocator H⦄ where
  -- With an allocator that refuses requests of more than PTRDIFF_MAX bytes, ringbuf_push_back on a
  -- valid buffer appends the element and keeps the buffer valid, or fails with all as it was, only
  -- where the buffer is full and the allocator refuses the next block.
  pub ringbuf_push_back_lem :
      (r : Ringbuf A) (x : A) (h : H)
      → IsBounded al
      → IsValid r
      → Grows r h
          (push_back (some r) (some x) h)
          ((r.len ≡ r.cap) × (al.alloc (bytes (next_cap r) r.elem_size) h ≡ none))
          (Holds r.elem_size (contents r ++ (x ∷ [])))
  unfolding push_back
  ringbuf_push_back_lem r x h b p = elim (Bool-cases (r.len == r.cap)) [
    | inr room ↦ inr (append r x, h, rw room, ringbuf_append-Holds x p (ground (arith, p.filled)))
    | inl full ↦ elim (ringbuf_grow_lem r h b p) [
      | inl (e, refused) ↦ inl (rw (full, e), (ground arith, refused))
      | inr (s, h', e, (v, same, size), larger, count) ↦
          let room : s.len < s.cap = ground arith in
          inr (append s x, h', rw (full, e), rw (← same, ← size) (ringbuf_append-Holds x v room))
    ]
  ]

  -- With an allocator that refuses requests of more than PTRDIFF_MAX bytes, ringbuf_push_front on a
  -- valid buffer puts the element before the others and keeps the buffer valid, or fails with all
  -- as it was, only where the buffer is full and the allocator refuses the next block.
  pub ringbuf_push_front_lem :
      (r : Ringbuf A) (x : A) (h : H)
      → IsBounded al
      → IsValid r
      → Grows r h
          (push_front (some r) (some x) h)
          ((r.len ≡ r.cap) × (al.alloc (bytes (next_cap r) r.elem_size) h ≡ none))
          (Holds r.elem_size (x ∷ contents r))
  unfolding push_front
  ringbuf_push_front_lem r x h b p = elim (Bool-cases (r.len == r.cap)) [
    | inr room ↦ inr (prepend r x, h, rw room, prepend-Holds x p (ground (arith, p.filled)))
    | inl full ↦ elim (ringbuf_grow_lem r h b p) [
      | inl (e, refused) ↦ inl (rw (full, e), (ground arith, refused))
      | inr (s, h', e, (v, same, size), larger, count) ↦
          let room : s.len < s.cap = ground arith in
          inr (prepend s x, h', rw (full, e), rw (← same, ← size) (prepend-Holds x v room))
    ]
  ]
