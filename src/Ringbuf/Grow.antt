-- ===== src/Ringbuf/Grow.antt =====
-- `rb_grow`: the elements are laid out from the first slot of the new block on.
use native.Mathlib.Nat.{mod-eq_of_lt, mod_self}
use seqc.Prelude.{
  ℕ, ◌+◌, ◌-◌, ◌/◌, ◌%◌, ◌≤◌, ◌<◌, ◌≡◌, refl, sym, ap, ap₂, ◌∙◌, false, ◌⊎◌, inl, inr, none, List,
  ◌++◌, append_assoc, arith, length, take, drop, length-append, length-take, length-drop,
  length-fresh, take-append_exact, ltb, leb, leb→le, leb→lt, ltb→lt, ltb→le, Bool-cases,
  Option-cases, ok, oom, size_mod, size_max, bytes, slots-bytes, bytes_eq, Allocator, IsBounded,
  Uninit, fresh, memcpy, length-memcpy,
}
use seqc.Window.{window, window_straight, window_cong, window-append}
use seqc.Ringbuf.{Ringbuf, next_cap, linearise, grow, free_buf}
use seqc.Ringbuf.Valid.{IsValid, Holds, contents, cap_bound, next_cap_lem}

module _ {ℓ} {A : Type ℓ} where
  -- What `memcpy` leaves at the start of a block behind `dst` slots.
  take-memcpy :
      (to : List A) (dst : ℕ) (from : List A) (src n k : ℕ)
      → dst ≤ length to
      → src + n ≤ length from
      → k ≡ dst + n
      → take k (memcpy to dst from src n) ≡ take dst to ++ take n (drop src from)
  unfolding memcpy
  take-memcpy to dst from src n k p q e =
      let front = take dst to ++ take n (drop src from) in
      let size : length front ≡ k = omega (
        arith,
        length-append (take dst to) (take n (drop src from)),
        length-take dst to,
        length-take n (drop src from),
        length-drop src from,
      ) in
      rw (← append_assoc) (take-append_exact k front (drop (dst + n) to) size)

  length-linearise :
      (r : Ringbuf A) (nd : List A)
      → IsValid r
      → r.len ≤ length nd
      → length (linearise r nd) ≡ length nd
  unfolding linearise
  length-linearise r nd p room = elim (Bool-cases (ltb 0 r.len)) [
    | inr empty ↦ rw empty
    | inl more ↦
        let exact : (r.head + r.len) % size_mod ≡ r.head + r.len =
          omega (arith, cap_bound p, p.head_in, p.filled) in
        elim (Bool-cases (leb (r.head + r.len) r.cap)) [
          | inl straight ↦
              rw (more, exact, straight)
                (length-memcpy nd 0 r.buf r.head r.len (omega arith)
                  (omega (arith, leb→le (r.head + r.len) r.cap straight, p.slots)))
          | inr wraps ↦
              let first = r.cap - r.head in
              let inside : r.head + first ≤ length r.buf =
                omega (arith, p.slots, p.head_in, p.filled, ltb→lt 0 r.len more) in
              let some_first : first ≤ r.len = omega (arith, leb→lt (r.head + r.len) r.cap wraps) in
              let once = length-memcpy nd 0 r.buf r.head first (omega arith) inside in
              rw (more, exact, wraps)
                (length-memcpy (memcpy nd 0 r.buf r.head first) first r.buf 0 (r.len - first)
                    (omega (arith, once)) (omega (arith, p.slots, p.filled))
                  ∙ once)
        ]
  ]

module _ {ℓ} {A : Type ℓ} ⦃u : Uninit A⦄ where
  -- The elements are the run_deque up to the end of the block and the run_deque from its start.
  contents_wrapped :
      (r : Ringbuf A)
      → IsValid r
      → r.cap ≤ r.head + r.len
      → 0 < r.len
      → contents r
        ≡ take (r.cap - r.head) (drop r.head r.buf)
          ++ take (r.len - (r.cap - r.head)) (drop 0 r.buf)
  contents_wrapped r p wraps more =
      let first = r.cap - r.head in
      let rest = r.len - first in
      let inside : r.head < r.cap = omega (arith, p.head_in, p.filled) in
      let ends : r.head + first ≡ r.cap = omega arith in
      let round : (r.head + first) % r.cap ≡ 0 % r.cap =
        rw ends (mod_self r.cap ∙ sym (mod-eq_of_lt {n = 0} {m = r.cap} (omega arith))) in
      ap (window r.buf r.cap r.head) (let e : r.len ≡ first + rest = omega arith in e)
      ∙ window-append r.buf r.cap r.head first rest
      ∙ ap₂ ◌++◌ (window_straight r.buf r.cap r.head first (omega arith) (omega (arith, p.slots))) (
          window_cong r.buf r.cap (r.head + first) 0 rest round
          ∙ window_straight r.buf r.cap 0 rest (omega (arith, p.filled)) (omega (arith, p.slots)))

  take-linearise :
      (r : Ringbuf A) (nd : List A)
      → IsValid r
      → r.len ≤ length nd
      → take r.len (linearise r nd) ≡ contents r
  unfolding linearise
  take-linearise r nd p room = elim (Bool-cases (ltb 0 r.len)) [
    | inr empty ↦ let z : r.len ≡ 0 = omega (arith, ltb→le 0 r.len empty) in rw (empty, z)
    | inl more ↦
        let exact : (r.head + r.len) % size_mod ≡ r.head + r.len =
          omega (arith, cap_bound p, p.head_in, p.filled) in
        elim (Bool-cases (leb (r.head + r.len) r.cap)) [
          | inl straight ↦
              let fits = leb→le (r.head + r.len) r.cap straight in
              rw (more, exact, straight)
                (take-memcpy nd 0 r.buf r.head r.len r.len (omega arith) (omega (arith, p.slots))
                    (omega arith)
                  ∙ sym (window_straight r.buf r.cap r.head r.len fits (omega (arith, p.slots))))
          | inr wraps ↦
              let past = leb→lt (r.head + r.len) r.cap wraps in
              let first = r.cap - r.head in
              let inside : r.head + first ≤ length r.buf =
                omega (arith, p.slots, p.head_in, p.filled, ltb→lt 0 r.len more) in
              let once = length-memcpy nd 0 r.buf r.head first (omega arith) inside in
              rw (more, exact, wraps)
                (take-memcpy (memcpy nd 0 r.buf r.head first) first r.buf 0 (r.len - first) r.len
                    (omega (arith, once)) (omega (arith, p.slots, p.filled)) (omega arith)
                  ∙ ap (λ (xs : List A). xs ++ take (r.len - first) (drop 0 r.buf))
                      (take-memcpy nd 0 r.buf r.head first first (omega arith) inside (omega arith))
                  ∙ sym (contents_wrapped r p (omega arith) (ltb→lt 0 r.len more)))
        ]
  ]

module _ {ℓ κ} {A : Type ℓ} {H : Type κ} ⦃u : Uninit A⦄ ⦃al : Allocator H⦄ where
  -- `rb_grow` keeps the elements, or leaves the buffer and the heap as they were.
  pub ringbuf_grow_lem :
      (r : Ringbuf A) (h : H)
      → IsBounded al
      → IsValid r
      → ((grow r h ≡ (oom, r, h)) × (al.alloc (bytes (next_cap r) r.elem_size) h ≡ none))
        ⊎ ((s : Ringbuf A) × (h' : H) × (grow r h ≡ (ok, s, h'))
            × Holds r.elem_size (contents r) s
            × (r.cap < s.cap)
            × (s.len ≡ r.len))
  unfolding grow
  ringbuf_grow_lem r h b p =
      let (larger, fits, power) = next_cap_lem p in
      let size = bytes (next_cap r) r.elem_size in
      let unguarded : ltb (size_max / 2) r.cap ≡ false = ground (arith, cap_bound p) in
      elim (Option-cases (al.alloc size h)) [
        | inl e ↦ inl (rw (unguarded, e), e)
        | inr (h', e) ↦
            let slots = slots-bytes (next_cap r) r.elem_size p.sized fits in
            let exact = bytes_eq (next_cap r) r.elem_size fits in
            let block = fresh size r.elem_size in
            let room : length block ≡ next_cap r = length-fresh A size r.elem_size ∙ slots in
            let enough : r.len ≤ length block = omega (arith, p.filled) in
            let whole : length (linearise r block) ≡ next_cap r =
              length-linearise r block p enough ∙ room in
            inr (
              record r { buf = linearise r block; cap = next_cap r; head = 0 },
              free_buf r h',
              rw (unguarded, e),
              (
                record {
                  slots = whole;
                  filled = omega (arith, p.filled);
                  head_in = omega arith;
                  power = power;
                  sized = p.sized;
                  narrow = p.narrow;
                  small = ground (arith, b.alloc_bound size h);
                },
                window_straight (linearise r block) (next_cap r) 0 r.len (omega (arith, p.filled))
                      (omega arith)
                    ∙ take-linearise r block p enough,
                refl,
              ),
              larger,
              refl,
            )
      ]
