-- ===== src/Ringbuf/Iter.antt =====
-- ringbuf_iter and ringbuf_iter_rev: the iterators' states, and what draining them yields.
mod Open
use mathlib.Core.List.{reverse-append}
use seqc.Prelude.{
  ℕ, zero, suc, ◌+◌, ◌-◌, ◌%◌, ◌≤◌, ◌<◌, ◌≡◌, refl, ap, ◌∙◌, true, false, Option, none, some, [],
  ◌∷◌, reverse, arith, get_or, leb, ◌==◌, if◌then◌else◌, drain, drain_stops, drain_yields, size_mod,
  Uninit,
}
use seqc.Window.{window, window-suc}
use seqc.Ringbuf.{Ringbuf, slot_of, at}
use seqc.Ringbuf.Valid.{IsValid, contents, cap_bound, slot_of_lem}

-- `ringbuf_iter_state_t`.
pub record IterState {ℓ} (A : Type ℓ) : Type ℓ where
  pub r : Ringbuf A
  pub pos : ℕ

module _ {ℓ} {A : Type ℓ} where
  -- The state that `ringbuf_iter` sets up.
  pub iter : Ringbuf A → IterState A
  iter r = record { r = r; pos = 0 }

  -- The state that `ringbuf_iter_rev` sets up.
  pub iter_rev : Ringbuf A → IterState A
  iter_rev r = record { r = r; pos = r.len }

module _ {ℓ} {A : Type ℓ} ⦃u : Uninit A⦄ where
  pub iter_next : IterState A → Option (A × IterState A)
  unfolding at slot_of
  iter_next s =
      if leb s.r.len s.pos
      then none
      else some (at s.r (slot_of s.r s.pos), record s { pos = (s.pos + 1) % size_mod })

  pub iter_rev_next : IterState A → Option (A × IterState A)
  unfolding at slot_of
  iter_rev_next s =
      if s.pos == 0
      then none
      else some (at s.r (slot_of s.r (s.pos - 1)), record s { pos = s.pos - 1 })

  drain_from :
      (r : Ringbuf A) (n pos fuel : ℕ)
      → IsValid r
      → pos + n ≡ r.len
      → n < fuel
      → drain iter_next fuel (record { r = r; pos = pos })
        ≡ some (window r.buf r.cap (r.head + pos) n)
  unfolding iter_next at
  drain_from r n pos zero p e less = absurd (omega arith)
  drain_from r zero pos (suc fuel) p e less =
      let ended : leb r.len pos ≡ true = ground arith in drain_stops iter_next fuel _ (rw ended)
  drain_from r (suc n) pos (suc fuel) p e less =
      let more : leb r.len pos ≡ false = ground arith in
      let exact : (pos + 1) % size_mod ≡ pos + 1 = omega (arith, cap_bound p, p.filled) in
      let slot = slot_of_lem r pos p (omega (arith, p.filled)) (omega (arith, p.filled)) in
      let on : suc (r.head + pos) ≡ r.head + (pos + 1) = omega arith in
      drain_yields iter_next fuel _ {s' = record { r = r; pos = pos + 1 }} (rw (more, exact, slot))
        (rw on (drain_from r n (pos + 1) fuel p (omega arith) (omega arith)))

  pub drain-iter :
      (r : Ringbuf A) → IsValid r → drain iter_next (suc r.len) (iter r) ≡ some (contents r)
  unfolding iter
  drain-iter r p =
      drain_from r r.len 0 (suc r.len) p (omega arith) (omega arith)
      ∙ ap (λ (k : ℕ). some (window r.buf r.cap k r.len))
          (let e : r.head + 0 ≡ r.head = omega arith in e)

  drain_back :
      (r : Ringbuf A) (n fuel : ℕ)
      → IsValid r
      → n ≤ r.len
      → n < fuel
      → drain iter_rev_next fuel (record { r = r; pos = n })
        ≡ some (reverse (window r.buf r.cap r.head n))
  unfolding iter_rev_next at
  drain_back r n zero p h less = absurd (omega arith)
  drain_back r zero (suc fuel) p h less = drain_stops iter_rev_next fuel _ refl
  drain_back r (suc n) (suc fuel) p h less =
      let more : (suc n == 0) ≡ false = ground arith in
      let e : suc n - 1 ≡ n = omega arith in
      let slot = slot_of_lem r n p (omega (arith, p.filled)) (omega (arith, p.filled)) in
      let x = get_or r.buf ((r.head + n) % r.cap) u.junk in
      let w = window r.buf r.cap r.head in
      let turned : reverse (w (suc n)) ≡ x ∷ reverse (w n) =
        ap reverse (window-suc r.buf r.cap r.head n) ∙ reverse-append (w n) (x ∷ []) in
      rw turned (
        drain_yields iter_rev_next fuel _ (rw (more, e, slot))
          (drain_back r n fuel p (omega arith) (omega arith)))

  pub drain-iter_rev :
      (r : Ringbuf A)
      → IsValid r
      → drain iter_rev_next (suc r.len) (iter_rev r) ≡ some (reverse (contents r))
  unfolding iter_rev
  drain-iter_rev r p = drain_back r r.len (suc r.len) p (omega arith) (omega arith)

  -- Over a valid buffer, draining the iterator of ringbuf_iter ends within len + 1 calls and yields
  -- the elements from the front on, and draining that of ringbuf_iter_rev does and yields them from
  -- the back on.
  pub drain-ringbuf_iters :
      (r : Ringbuf A)
      → IsValid r
      → (drain iter_next (suc r.len) (iter r) ≡ some (contents r))
        × (drain iter_rev_next (suc r.len) (iter_rev r) ≡ some (reverse (contents r)))
  drain-ringbuf_iters r p = (drain-iter r p, drain-iter_rev r p)
