-- ===== src/Vec/Valid.antt =====
-- The representation invariant of `vec_t` and what a vector holds.
use native.Mathlib.Nat.{le-div_iff_mul-le, mod-eq_of_lt}
use seqc.Prelude.{
  ℕ, ◌*◌, ◌/◌, ◌≤◌, ◌<◌, min, ◌≡◌, refl, ◌∙◌, Bool, ◌⊎◌, inl, inr, none, some, List, [], arith,
  length, take, length-take, length-fresh, ◌==◌, ok, oom, size_mod, ptrdiff_max, bytes, slots-bytes,
  bytes_eq, Allocator, IsBounded, Uninit, moved, length-moved, take-moved, Option-cases, Bool-cases,
}
use seqc.Vec.{Vec, initial_cap, sizeof_vec, create, create_with_cap, regrow, next_cap}

module _ {ℓ} {A : Type ℓ} where
  -- The block has `cap` slots, and the doubling of `cap` cannot overflow. `narrow` is what the
  -- first block asks of the element's size.
  pub record IsValid (v : Vec A) : Type 0 where
    pub slots : length v.buf ≡ v.cap
    pub filled : v.len ≤ v.cap
    pub sized : 0 < v.elem_size
    pub narrow : initial_cap * v.elem_size < size_mod
    pub small : v.cap * v.elem_size ≤ ptrdiff_max

  -- The elements, in order.
  abbrev pub contents : Vec A → List A
  contents v = take v.len v.buf

  pub length-contents : {v : Vec A} → IsValid v → length (contents v) ≡ v.len
  length-contents {v} p = omega (arith, length-take v.len v.buf)

  pub cap_bound : {v : Vec A} → IsValid v → v.cap ≤ ptrdiff_max
  cap_bound p = grind arith

  pub next_cap_lem :
      {v : Vec A} → IsValid v → (v.cap < next_cap v) × (next_cap v * v.elem_size < size_mod)
  unfolding next_cap
  next_cap_lem {v} p = elim (Bool-cases (v.cap == 0)) [
    | inl e ↦ rw e (ground arith, p.narrow)
    | inr e ↦
        let wraps_not : v.cap * 2 < size_mod = omega (arith, cap_bound p) in
        rw (e, mod-eq_of_lt wraps_not) (ground arith, omega (arith, p.small))
  ]

-- `v` is a valid vector of elements of `size` bytes that holds exactly `xs`.
abbrev pub Holds {ℓ} : {A : Type ℓ} → ℕ → List A → Vec A → Type ℓ
Holds size xs v = IsValid v × (contents v ≡ xs) × (v.elem_size ≡ size)

module _ {ℓ κ} {A : Type ℓ} {H : Type κ} ⦃u : Uninit A⦄ ⦃al : Allocator H⦄ where
  -- Either the reallocation was refused and nothing changed, or the block has `new_cap` slots.
  pub regrow_lem :
      (v : Vec A) (new_cap : ℕ) (h : H)
      → IsBounded al
      → IsValid v
      → v.cap ≤ new_cap
      → new_cap * v.elem_size < size_mod
      → ((regrow v new_cap h ≡ (oom, v, h))
          × (al.realloc (bytes v.len v.elem_size) (bytes new_cap v.elem_size) h ≡ none))
        ⊎ ((w : Vec A) × (h' : H) × (regrow v new_cap h ≡ (ok, w, h'))
            × Holds v.elem_size (contents v) w
            × (w.cap ≡ new_cap)
            × (w.len ≡ v.len))
  unfolding regrow
  regrow_lem v new_cap h b p grows fits =
      let old = bytes v.len v.elem_size in
      let new = bytes new_cap v.elem_size in
      elim (Option-cases (al.realloc old new h)) [
        | inl e ↦ inl (rw (e, regrow), e)
        | inr (h', e) ↦
            let slots = slots-bytes new_cap v.elem_size p.sized fits in
            let exact = bytes_eq new_cap v.elem_size fits in
            let used : v.len * v.elem_size ≤ v.cap * v.elem_size = grind arith in
            let more : v.len * v.elem_size ≤ new_cap * v.elem_size = grind arith in
            let reach : v.len ≤ min old new / v.elem_size =
              (le-div_iff_mul-le p.sized).1 (omega arith) in
            inr (
              record v { buf = moved old new v.elem_size v.buf; cap = new_cap },
              h',
              rw (e, regrow),
              (
                record {
                  slots = length-moved old new v.elem_size v.buf (omega arith) ∙ slots;
                  filled = omega arith;
                  sized = p.sized;
                  narrow = p.narrow;
                  small = ground (arith, b.realloc_bound old new h);
                },
                take-moved v.len old new v.elem_size v.buf (omega arith) reach,
                refl,
              ),
              refl,
              refl,
            )
      ]

  -- What `vec_create` returns is empty and valid.
  pub vec_create-Holds :
      (size : ℕ) (has_vtable : Bool) (h : H) {v : Vec A}
      → initial_cap * size < size_mod
      → (create size has_vtable h).0 ≡ some v
      → Holds size [] v
  unfolding create
  vec_create-Holds size has_vtable h fits e = ground arith

  -- With an allocator that refuses requests of more than PTRDIFF_MAX bytes, where neither the first
  -- block nor the capacity wraps in bytes, a vector that vec_create_with_cap returns is valid and
  -- empty, with the capacity asked for.
  pub vec_create_with_cap-Holds :
      (size capacity : ℕ) (has_vtable : Bool) (h : H) {v : Vec A}
      → IsBounded al
      → initial_cap * size < size_mod
      → capacity * size < size_mod
      → (create_with_cap size capacity has_vtable h).0 ≡ some v
      → Holds size [] v × (v.cap ≡ capacity)
  unfolding create_with_cap
  vec_create_with_cap-Holds size capacity has_vtable h b fits whole e =
      elim (Option-cases (al.alloc (sizeof_vec al.handle_size) h)) [
        | inl refused ↦ ground arith
        | inr (h₁, given) ↦ ground (
          arith,
          slots-bytes capacity size,
          length-fresh A (bytes capacity size) size,
          bytes_eq capacity size whole,
          b.alloc_bound (bytes capacity size) h₁,
        )
      ]
