-- ===== src/Vec/Grow.antt =====
-- The operations that may move the block: vec_push, vec_reserve, vec_insert.
use native.Mathlib.Numerals.{add-one}
use seqc.Prelude.{
  ℕ, suc, ◌+◌, ◌-◌, ◌*◌, ◌/◌, ◌%◌, ◌≤◌, ◌<◌, ◌≡◌, refl, ◌∙◌, false, inl, inr, none, some, [], ◌∷◌,
  ◌++◌, arith, take, drop, length-set, take-set_last, memmove, length-memmove, take-set_gap,
  take-take, drop-take, ltb, leb, ◌==◌, size_mod, size_max, bytes, Allocator, IsBounded, Uninit,
  Bool-cases, Grows,
}
use seqc.Vec.{Vec, next_cap, push, append, reserve, insert, open_slot}
use seqc.Vec.Valid.{IsValid, contents, Holds, cap_bound, next_cap_lem, regrow_lem}

module _ {ℓ} {A : Type ℓ} where
  -- Writing behind the last element appends it.
  vec_append-Holds :
      {v : Vec A} (x : A)
      → IsValid v
      → v.len < v.cap
      → Holds v.elem_size (contents v ++ (x ∷ [])) (append v x)
  unfolding append
  vec_append-Holds {v} x p room =
      let count : (v.len + 1) % size_mod ≡ suc v.len = omega (arith, cap_bound p) in
      (
        record {
          slots = length-set v.buf v.len x ∙ p.slots;
          filled = omega arith;
          sized = p.sized;
          narrow = p.narrow;
          small = p.small;
        },
        rw count (take-set_last v.len v.buf x (omega (arith, p.slots))),
        refl,
      )

  -- Opening a slot puts the element before the `i`-th.
  open_slot-Holds :
      {v : Vec A} (i : ℕ) (x : A)
      → IsValid v
      → v.len < v.cap
      → i ≤ v.len
      → Holds v.elem_size (take i (contents v) ++ (x ∷ drop i (contents v))) (open_slot v i x)
  unfolding open_slot memmove
  open_slot-Holds {v} i x p room inside =
      let n = v.len - i in
      let opened =
        take-set_gap i n v.len v.buf (drop (suc i + n) v.buf) x (omega arith)
          (omega (arith, p.slots)) in
      let front : take i (contents v) ≡ take i v.buf = take-take i v.len v.buf inside in
      let back : drop i (contents v) ≡ take n (drop i v.buf) =
        drop-take i v.len n v.buf (omega arith) in
      let count : (v.len + 1) % size_mod ≡ suc v.len = omega (arith, cap_bound p) in
      (
        record {
          slots =
              length-set (memmove v.buf (i + 1) i n) i x
              ∙ length-memmove v.buf (i + 1) i n (omega (arith, p.slots)) (omega (arith, p.slots))
              ∙ p.slots;
          filled = omega arith;
          sized = p.sized;
          narrow = p.narrow;
          small = p.small;
        },
        rw (count, front, back, memmove, add-one) opened,
        refl,
      )

module _ {ℓ κ} {A : Type ℓ} {H : Type κ} ⦃u : Uninit A⦄ ⦃al : Allocator H⦄ where
  -- The vector is full and the allocator refuses the next block.
  abbrev pub Blocked : Vec A → H → Type κ
  Blocked v h =
      (v.len ≡ v.cap)
      × (al.realloc (bytes v.len v.elem_size) (bytes (next_cap v) v.elem_size) h ≡ none)

  -- With an allocator that refuses requests of more than PTRDIFF_MAX bytes, vec_push on a valid
  -- vector appends the element and keeps the vector valid, or fails with all as it was, only where
  -- the vector is full and the allocator refuses the next block.
  pub vec_push_lem :
      (v : Vec A) (x : A) (h : H)
      → IsBounded al
      → IsValid v
      → Grows v h
          (push (some v) (some x) h)
          (Blocked v h)
          (Holds v.elem_size (contents v ++ (x ∷ [])))
  unfolding push
  vec_push_lem v x h b p = elim (Bool-cases (v.len == v.cap)) [
    | inr room ↦ inr (append v x, h, rw room, vec_append-Holds x p (ground arith))
    | inl full ↦
        let (larger, fits) = next_cap_lem p in
        let unguarded : ltb (size_max / 2) v.cap ≡ false = ground (arith, cap_bound p) in
        elim (regrow_lem v (next_cap v) h b p (omega arith) fits) [
          | inl (e, refused) ↦ inl (rw (full, unguarded, e), (ground arith, refused))
          | inr (w, h', e, (q, same, size), grown, count) ↦
              let room : w.len < w.cap = ground arith in
              inr (
                append w x,
                h',
                rw (full, unguarded, e),
                rw (← same, ← size) (vec_append-Holds x q room),
              )
        ]
  ]

  -- With an allocator that refuses requests of more than PTRDIFF_MAX bytes, vec_reserve of a
  -- capacity whose bytes do not wrap on a valid vector leaves the elements as they were with room
  -- for the capacity, or fails with all as it was because the allocator refuses a larger block.
  pub vec_reserve_lem :
      (v : Vec A) (capacity : ℕ) (h : H)
      → IsBounded al
      → IsValid v
      → capacity * v.elem_size < size_mod
      → Grows v h
          (reserve (some v) capacity h)
          ((v.cap < capacity)
            × (al.realloc (bytes v.len v.elem_size) (bytes capacity v.elem_size) h ≡ none))
          (λ w. Holds v.elem_size (contents v) w × (capacity ≤ w.cap) × (w.len ≡ v.len))
  unfolding reserve
  vec_reserve_lem v capacity h b p fits = elim (Bool-cases (leb capacity v.cap)) [
    | inl enough ↦ inr (v, h, rw enough, ((p, refl, refl), ground arith, refl))
    | inr small ↦ elim (regrow_lem v capacity h b p (ground arith) fits) [
      | inl (e, refused) ↦ inl (rw (small, e), (ground arith, refused))
      | inr (w, h', e, q, grown, count) ↦ inr (w, h', rw (small, e), (q, omega arith, count))
    ]
  ]

  -- With an allocator that refuses requests of more than PTRDIFF_MAX bytes, vec_insert at an index
  -- up to len of a valid vector puts the element before the i-th and keeps the vector valid, or
  -- fails with all as it was, only where the vector is full and the allocator refuses the next
  -- block.
  pub vec_insert_lem :
      (v : Vec A) (i : ℕ) (x : A) (h : H)
      → IsBounded al
      → IsValid v
      → i ≤ v.len
      → Grows v h
          (insert (some v) i (some x) h)
          (Blocked v h)
          (Holds v.elem_size (take i (contents v) ++ (x ∷ drop i (contents v))))
  unfolding insert
  vec_insert_lem v i x h b p inside =
      let reached : ltb v.len i ≡ false = ground arith in
      elim (Bool-cases (v.len == v.cap)) [
        | inr room ↦
            inr
              (open_slot v i x, h, rw (reached, room), open_slot-Holds i x p (ground arith) inside)
        | inl full ↦
            let (larger, fits) = next_cap_lem p in
            elim (vec_reserve_lem v (next_cap v) h b p fits) [
              | inl (e, (less, refused)) ↦ inl (rw (reached, full, e), (ground arith, refused))
              | inr (w, h', e, ((q, same, size), grown, count)) ↦
                  let room : w.len < w.cap = ground arith in
                  inr (
                    open_slot w i x,
                    h',
                    rw (reached, full, e),
                    rw (← same, ← size) (open_slot-Holds i x q room (omega arith)),
                  )
            ]
      ]
