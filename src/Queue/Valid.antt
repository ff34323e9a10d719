-- ===== src/Queue/Valid.antt =====
-- The representation invariant of `queue_t`, what a queue holds, and the growth of its block.
use native.Mathlib.Nat.{mod-eq_of_lt, zero-add, add-zero}
use native.Mathlib.Numerals.{add-one}
use seqc.Prelude.{
  ℕ, zero, suc, ◌+◌, ◌*◌, ◌/◌, ◌%◌, ◌≤◌, ◌<◌, max, ◌≡◌, refl, sym, ◌∙◌, false, ◌⊎◌, inl, inr, none,
  List, [], ◌∷◌, ◌++◌, append_assoc, append-nil, arith, length, take, set, get_or, take-set_last,
  length-set, length-fresh, ltb, ◌==◌, Bool-cases, Option-cases, ok, oom, size_mod, size_max,
  ptrdiff_max, bytes, slots-bytes, bytes_eq, Allocator, IsBounded, Uninit, fresh,
}
use seqc.Window.{window, window_straight}
use seqc.Queue.{Queue, initial_cap, slot, copy_from, next_cap, grow, free_buf}

module _ {ℓ} {A : Type ℓ} where
  -- `narrow` is what the first block asks of the element's size.
  pub record IsValid (q : Queue A) : Type 0 where
    pub slots : length q.buf ≡ q.cap
    pub filled : q.len ≤ q.cap
    pub head_in : q.head < max 1 q.cap
    pub sized : 0 < q.elem_size
    pub narrow : initial_cap * q.elem_size < size_mod
    pub small : q.cap * q.elem_size ≤ ptrdiff_max

  pub cap_bound : {q : Queue A} → IsValid q → q.cap ≤ ptrdiff_max
  cap_bound p = grind arith

  pub next_cap_lem :
      {q : Queue A} → IsValid q → (q.cap < next_cap q) × (next_cap q * q.elem_size < size_mod)
  unfolding next_cap
  next_cap_lem {q} p = elim (Bool-cases (q.cap == 0)) [
    | inl e ↦ rw e (ground arith, p.narrow)
    | inr e ↦
        let wraps_not : q.cap * 2 < size_mod = omega (arith, cap_bound p) in
        rw (e, mod-eq_of_lt wraps_not) (ground arith, omega (arith, p.small))
  ]

module _ {ℓ} {A : Type ℓ} ⦃u : Uninit A⦄ where
  -- The elements, oldest first.
  abbrev pub contents : Queue A → List A
  contents q = window q.buf q.cap q.head q.len

  -- `q` is a valid queue of elements of `size` bytes that holds exactly `xs`.
  abbrev pub Holds : ℕ → List A → Queue A → Type ℓ
  Holds size xs q = IsValid q × (contents q ≡ xs) × (q.elem_size ≡ size)

  length-copy_from :
      (q : Queue A) (n i : ℕ) (new_buf : List A) → length (copy_from q n i new_buf) ≡ length new_buf
  unfolding copy_from
  length-copy_from q zero i new_buf = refl
  length-copy_from q (suc n) i new_buf = length-copy_from q n (i + 1) _ ∙ length-set new_buf i _

  -- The loop lays the elements out in order from slot `i` on.
  take-copy_from :
      (q : Queue A) (n i : ℕ) (new_buf : List A)
      → IsValid q
      → i + n ≤ q.len
      → i + n ≤ length new_buf
      → take (i + n) (copy_from q n i new_buf) ≡ take i new_buf ++ window q.buf q.cap (q.head + i) n
  unfolding copy_from slot
  take-copy_from q zero i new_buf p h l =
      rw (let e : i + 0 ≡ i = omega arith in e) (sym (append-nil (take i new_buf)))
  take-copy_from q (suc n) i new_buf p h l =
      let some_slots : (q.cap == 0) ≡ false = ground arith in
      let exact : (q.head + i) % size_mod ≡ q.head + i = omega (arith, cap_bound p) in
      let x = get_or q.buf ((q.head + i) % q.cap) u.junk in
      let here : take (i + 1) (set new_buf i x) ≡ take i new_buf ++ (x ∷ []) =
        rw add-one (take-set_last i new_buf x (omega arith)) in
      let rest =
        take-copy_from q n (i + 1) (set new_buf i x) p (omega arith)
          (omega (arith, length-set new_buf i x)) in
      rw
        (
          some_slots,
          exact,
          let e : i + suc n ≡ i + 1 + n = omega arith in e,
          rest,
          here,
          let e : q.head + (i + 1) ≡ suc (q.head + i) = omega arith in e,
        )
        (append_assoc (take i new_buf) (x ∷ []) _)

  -- The new block holds the elements of the old one, from its first slot on.
  laid_out :
      (q : Queue A) (block : List A) {new_cap : ℕ}
      → q.len ≤ length block
      → IsValid q
      → length (copy_from q q.len 0 block) ≡ new_cap
      → window (copy_from q q.len 0 block) new_cap 0 q.len ≡ contents q
  laid_out q block {new_cap} room p whole =
      let size = length-copy_from q q.len 0 block in
      let copied = take-copy_from q q.len 0 block p (omega arith) (omega arith) in
      window_straight (copy_from q q.len 0 block) new_cap 0 q.len (omega arith) (omega arith)
      ∙ (simp (zero-add, add-zero) at copied)

module _ {ℓ κ} {A : Type ℓ} {H : Type κ} ⦃u : Uninit A⦄ ⦃al : Allocator H⦄ where
  -- `queue_grow` keeps the elements, or leaves the queue and the heap as they were.
  pub queue_grow_lem :
      (q : Queue A) (h : H)
      → IsBounded al
      → IsValid q
      → ((grow q h ≡ (oom, q, h)) × (al.alloc (bytes (next_cap q) q.elem_size) h ≡ none))
        ⊎ ((r : Queue A) × (h' : H) × (grow q h ≡ (ok, r, h'))
            × Holds q.elem_size (contents q) r
            × (q.cap < r.cap)
            × (r.len ≡ q.len))
  unfolding grow
  queue_grow_lem q h b p =
      let (larger, fits) = next_cap_lem p in
      let size = bytes (next_cap q) q.elem_size in
      let unguarded : ltb (size_max / 2) q.cap ≡ false = ground (arith, cap_bound p) in
      elim (Option-cases (al.alloc size h)) [
        | inl e ↦ inl (rw (unguarded, e), e)
        | inr (h', e) ↦
            let slots = slots-bytes (next_cap q) q.elem_size p.sized fits in
            let exact = bytes_eq (next_cap q) q.elem_size fits in
            let block = fresh size q.elem_size in
            let room : length block ≡ next_cap q = length-fresh A size q.elem_size ∙ slots in
            let whole : length (copy_from q q.len 0 block) ≡ next_cap q =
              length-copy_from q q.len 0 block ∙ room in
            let r = record q { buf = copy_from q q.len 0 block; cap = next_cap q; head = 0 } in
            inr (
              r,
              free_buf q h',
              rw (unguarded, e),
              (
                record {
                  slots = whole;
                  filled = omega (arith, p.filled);
                  head_in = omega arith;
                  sized = p.sized;
                  narrow = p.narrow;
                  small = ground (arith, b.alloc_bound size h);
                },
                laid_out q block (omega (arith, p.filled)) p whole,
                refl,
              ),
              larger,
              refl,
            )
      ]
