-- ===== src/Queue/Iter.antt =====
-- queue_iter and queue_iter_rev: the iterators' states, and what draining them yields.
mod Open
use native.Mathlib.Nat.{mod-eq_of_lt, mod-mod, add-mod_right, mod-add-mod, mod-lt}
use seqc.Prelude.{
  ℕ, zero, suc, ◌+◌, ◌-◌, ◌%◌, ◌≤◌, ◌<◌, max, ◌≡◌, refl, ap, ◌∙◌, false, ◌||◌, inl, inr, Option,
  none, some, List, [], ◌∷◌, reverse, arith, get_or, ltb, ◌==◌, if◌then◌else◌, Bool-cases, drain,
  drain_stops, drain_yields, lt→ltb, get_elem?, size_mod, ptrdiff_max, minus_one, minus_one_lem,
  Uninit,
}
use mathlib.Core.List.{reverse-append}
use seqc.Window.{window, window-suc, suc-mod_cong, get_elem?-window}
use seqc.Queue.{Queue, slot, last, front_ptr, back_ptr}
use seqc.Queue.Valid.{IsValid, contents, cap_bound}

-- `queue_iter_state_t`; in `queue_iter_rev_state_t` the index is called `tail`.
pub record IterState {ℓ} (A : Type ℓ) : Type ℓ where
  pub buf : List A
  pub head : ℕ
  pub cap : ℕ
  pub remaining : ℕ

module _ {ℓ} {A : Type ℓ} where
  -- The state that `queue_iter` sets up.
  pub iter : Queue A → IterState A
  iter q = record { buf = q.buf; head = q.head; cap = q.cap; remaining = q.len }

  -- The state that `queue_iter_rev` sets up.
  pub iter_rev : Queue A → IterState A
  unfolding last
  iter_rev q = record {
    buf = q.buf;
    head = if ltb 0 q.len then last q else 0;
    cap = q.cap;
    remaining = q.len;
  }

-- One step back round the block.
back : (c h k n : ℕ) → 0 < c → 0 < n → k ≡ (h + n) % c → (k + c - 1) % c ≡ (h + n - 1) % c
back c h k n pos more at =
    ap (λ (t : ℕ). t % c) (let a : k + c - 1 ≡ k + (c - 1) = omega arith in a)
    ∙ ap (λ (t : ℕ). (t + (c - 1)) % c) at
    ∙ mod-add-mod (h + n) c (c - 1)
    ∙ ap (λ (t : ℕ). t % c) (let a : h + n + (c - 1) ≡ h + n - 1 + c = omega arith in a)
    ∙ add-mod_right (h + n - 1) c

module _ {ℓ} {A : Type ℓ} ⦃u : Uninit A⦄ where
  pub iter_next : IterState A → Option (A × IterState A)
  iter_next s =
      if s.remaining == 0 || s.cap == 0
      then none
      else some (
        get_or s.buf s.head u.junk,
        record s { head = (s.head + 1) % size_mod % s.cap; remaining = s.remaining - 1 },
      )

  pub iter_rev_next : IterState A → Option (A × IterState A)
  iter_rev_next s =
      if s.remaining == 0 || s.cap == 0
      then none
      else some (
        get_or s.buf s.head u.junk,
        record s { head = minus_one (s.head + s.cap) % s.cap; remaining = s.remaining - 1 },
      )

  -- The loop yields the window that is left.
  drain-window :
      (buf : List A) (c h k n fuel : ℕ)
      → n < fuel
      → n ≤ c
      → c ≤ ptrdiff_max
      → k < max 1 c
      → h % c ≡ k % c
      → drain iter_next fuel (record { buf = buf; head = k; cap = c; remaining = n })
        ≡ some (window buf c h n)
  unfolding iter_next
  drain-window buf c h k n zero less small bound inside at = absurd (omega arith)
  drain-window buf c h k zero (suc fuel) less small bound inside at =
      drain_stops iter_next fuel _ refl
  drain-window buf c h k (suc n) (suc fuel) less small bound inside at =
      let some_slots : (c == 0) ≡ false = ground arith in
      let some_left : (suc n == 0) ≡ false = ground arith in
      let e : suc n - 1 ≡ n = omega arith in
      let exact : (k + 1) % size_mod ≡ k + 1 = omega arith in
      drain_yields iter_next fuel _
        (rw (some_left, some_slots, e, exact, at, mod-eq_of_lt (let l : k < c = omega arith in l)))
        (drain-window buf c (suc h) ((k + 1) % c) n fuel (omega arith) (omega arith) bound
          (omega arith)
          (rw mod-mod (
            suc-mod_cong c h k at
            ∙ ap (λ (t : ℕ). t % c) (let f : suc k ≡ k + 1 = omega arith in f))))

  drain-window_rev :
      (buf : List A) (c h k n fuel : ℕ)
      → n < fuel
      → n ≤ c
      → c ≤ ptrdiff_max
      → (0 < n → k ≡ (h + n - 1) % c)
      → drain iter_rev_next fuel (record { buf = buf; head = k; cap = c; remaining = n })
        ≡ some (reverse (window buf c h n))
  unfolding iter_rev_next
  drain-window_rev buf c h k n zero less small bound at = absurd (omega arith)
  drain-window_rev buf c h k zero (suc fuel) less small bound at =
      drain_stops iter_rev_next fuel _ refl
  drain-window_rev buf c h k (suc n) (suc fuel) less small bound at =
      let some_slots : (c == 0) ≡ false = ground arith in
      let some_left : (suc n == 0) ≡ false = ground arith in
      let e : suc n - 1 ≡ n = omega arith in
      let here : k ≡ (h + n) % c = at (omega arith) ∙ ap (λ (t : ℕ). t % c) (omega arith) in
      let inside : (h + n) % c < c = mod-lt (h + n) {m = c} (omega arith) in
      let exact : minus_one ((h + n) % c + c) ≡ (h + n) % c + c - 1 =
        minus_one_lem ((h + n) % c + c) (omega arith) (omega arith) in
      let x = get_or buf ((h + n) % c) u.junk in
      let turned : reverse (window buf c h (suc n)) ≡ x ∷ reverse (window buf c h n) =
        ap reverse (window-suc buf c h n) ∙ reverse-append (window buf c h n) (x ∷ []) in
      let rest =
        drain-window_rev buf c h (((h + n) % c + c - 1) % c) n fuel (omega arith) (omega arith)
          bound (λ more. back c h ((h + n) % c) n (omega arith) more refl) in
      rw turned
        (drain_yields iter_rev_next fuel _ (rw (some_left, some_slots, e, here, exact)) rest)

  pub drain-iter :
      (q : Queue A) → IsValid q → drain iter_next (suc q.len) (iter q) ≡ some (contents q)
  unfolding iter
  drain-iter q p =
      drain-window q.buf q.cap q.head q.head q.len (suc q.len) (omega arith) p.filled (cap_bound p)
        p.head_in refl

  pub drain-iter_rev :
      (q : Queue A)
      → IsValid q
      → drain iter_rev_next (suc q.len) (iter_rev q) ≡ some (reverse (contents q))
  unfolding iter_rev last
  drain-iter_rev q p =
      drain-window_rev q.buf q.cap q.head _ q.len (suc q.len) (omega arith) p.filled (cap_bound p)
        (λ h. rw (
          lt→ltb 0 q.len h,
          minus_one_lem (q.head + q.len) (omega arith)
              (omega (arith, p.filled, p.head_in, cap_bound p)),
        ))

  -- queue_front_ptr and queue_back_ptr on a valid queue find the oldest and the newest element, and
  -- NULL in an empty one.
  pub queue_ends :
      (q : Queue A)
      → IsValid q
      → (front_ptr (some q) ≡ get_elem? (contents q) 0)
        × (back_ptr (some q) ≡ (if q.len == 0 then none else get_elem? (contents q) (q.len - 1)))
  unfolding front_ptr back_ptr slot last
  queue_ends q p = elim (Bool-cases (q.len == 0)) [
    | inl e ↦ (rw e (rw (let z : q.len ≡ 0 = ground arith in z)), rw e)
    | inr e ↦
        let inside : q.head < q.cap = ground (arith, p.head_in, p.filled) in
        let at = get_elem?-window q.buf q.cap q.head q.len in
        (
          rw (
            e,
            at 0 (ground arith),
            let z : q.head + 0 ≡ q.head = omega arith in z,
            mod-eq_of_lt inside,
          ),
          rw (
            e,
            at (q.len - 1) (ground arith),
            minus_one_lem (q.head + q.len) (ground arith)
                (omega (arith, p.filled, p.head_in, cap_bound p)),
            let z : q.head + (q.len - 1) ≡ q.head + q.len - 1 = ground arith in z,
          ),
        )
  ]

  -- Over a valid queue, draining the iterator of queue_iter ends within len + 1 calls and yields
  -- the elements oldest first, and draining that of queue_iter_rev does and yields them newest
  -- first.
  pub drain-queue_iters :
      (q : Queue A)
      → IsValid q
      → (drain iter_next (suc q.len) (iter q) ≡ some (contents q))
        × (drain iter_rev_next (suc q.len) (iter_rev q) ≡ some (reverse (contents q)))
  drain-queue_iters q p = (drain-iter q p, drain-iter_rev q p)
