-- ===== src/Iter/Collect/Result.antt =====
-- What iter_collect returns: all elements of the source, or nothing.
use native.Mathlib.Nat.{le-div_iff_mul-le}
use seqc.Prelude.{
  ℕ, zero, suc, ◌*◌, ◌/◌, ◌%◌, ◌≤◌, ◌<◌, min, ◌≡◌, refl, sym, ap, ◌∙◌, ◌⊎◌, inl, inr, Option, none,
  some, List, [], ◌∷◌, ◌++◌, append_assoc, append-nil, length, take, length-take, length-append,
  ltb, ◌==◌, Bool-cases, Option-cases, size_mod, bytes, slots-bytes, bytes_eq, Allocator, IsBounded,
  Uninit, fresh, moved, take-moved, length-fresh, arith,
}
use seqc.Iter.{Source, iter_next, iter_destroy}
use seqc.Iter.Pair.{Steady, stops, writes}
use seqc.Iter.Slice.{Slice}
use seqc.Iter.Terminal.{scratch_max, scratch_acquire, scratch_release}
use seqc.Iter.Terminal.Result.{scratch_acquire-none}
use seqc.Iter.Collect.{
  initial_cap, Collecting, filled, refused, nothing, whole, collect_loop, shrink, collected,
  collect_sized, iter_collect,
}
use seqc.Iter.Collect.Block.{Block, Block-set, Block-moved}

module _ {μ} {H : Type μ} ⦃al : Allocator H⦄ where
  -- The allocator gives blocks of twice the capacity, for elements of `size` bytes, one after the
  -- other, from a capacity and a heap to a capacity and a heap.
  pub data Doubles (size : ℕ) : ℕ → H → ℕ → H → Type μ where
    done : {cap : ℕ} {h : H} → Doubles size cap h cap h
    double :
        {cap cap' : ℕ} {h h₁ h' : H}
        → al.realloc (bytes cap size) (bytes (cap * 2 % size_mod) size) h ≡ some h₁
        → Doubles size (cap * 2 % size_mod) h₁ cap' h'
        → Doubles size cap h cap' h'

  -- From the heap `h` on, a block that starts with `cap` elements cannot grow to more than some
  -- capacity, which is less than `n`.
  abbrev pub IsStopped : ℕ → ℕ → ℕ → H → Type μ
  IsStopped size n cap h =
      (cap' : ℕ) × (h' : H) × Doubles size cap h cap' h'
      × (al.realloc (bytes cap' size) (bytes (cap' * 2 % size_mod) size) h' ≡ none)
      × (cap' < n)

  -- Why iter_collect of `n` elements has no memory, from the heap `h` on: the allocator refuses the
  -- first block; or with it the temporary element, where that is allocated; or, with both, a block
  -- that the elements need.
  abbrev pub IsRefused : ℕ → ℕ → H → Type μ
  IsRefused size n h =
      (al.alloc (bytes initial_cap size) h ≡ none)
      ⊎ ((h₁ : H) × (al.alloc (bytes initial_cap size) h ≡ some h₁)
          × (((scratch_max < size) × (al.alloc size h₁ ≡ none))
              ⊎ ((h₂ : H) × (scratch_acquire size h₁ ≡ some h₂) × IsStopped size n initial_cap h₂)))

module _ {ℓ κ μ} {A : Type ℓ} {S : Type κ} {H : Type μ} ⦃u : Uninit A⦄ ⦃al : Allocator H⦄
    (src : Source A S H) (size : ℕ) where
  -- The loop has put `xs` into the block, or a reallocation was refused.
  abbrev Loops : ℕ → H → Option (Collecting A S H) → List A → Type (ℓ ⊔ κ ⊔ μ)
  Loops cap₀ h₀ result xs =
      ((buf : List A) × (len : ℕ) × (cap : ℕ) × (s : S) × (h : H) × (result
          ≡ some (filled buf len cap (some s) h))
        × Block buf len cap size
        × (take len buf ≡ xs))
      ⊎ ((cap : ℕ) × (s : S) × (h : H) × (result ≡ some (refused cap (some s) h))
          × Doubles size cap₀ h₀ cap h
          × (al.realloc (bytes cap size) (bytes (cap * 2 % size_mod) size) h ≡ none)
          × (cap < length xs))

  Loops-double :
      {cap c : ℕ} {h h₁ : H} {result : Option (Collecting A S H)} {xs : List A}
      → al.realloc (bytes cap size) (bytes (cap * 2 % size_mod) size) h ≡ some h₁
      → cap * 2 % size_mod ≡ c
      → Loops c h₁ result xs
      → Loops cap h result xs
  Loops-double given e₂ (inl read) = inl read
  Loops-double given e₂ (inr (cap, s, h, e, grown, no_room, needed)) =
      inr (cap, s, h, e, Doubles.double given (rw e₂ grown), no_room, needed)

  collect_loop_lem :
      (fuel : ℕ) {s s' : S} (h : H) {buf : List A} {len cap : ℕ} {xs : List A}
      → IsBounded al
      → Block buf len cap size
      → Steady src s xs s'
      → length xs < fuel
      → Loops cap h (collect_loop src size fuel buf len cap (some s) h) (take len buf ++ xs)
  unfolding iter_next collect_loop
  collect_loop_lem zero h bounded b p less = absurd (omega arith)
  collect_loop_lem (suc fuel) {s' = s'} h {buf} {len} {cap} bounded b (stops e) less =
      inl (buf, len, cap, s', h, rw (e h, collect_loop) refl, b, sym (append-nil (take len buf)))
  collect_loop_lem (suc fuel) h {buf} {len} {cap} {xs = x ∷ xs} bounded b (writes {s₁ = s₁} e p)
        less =
      elim (Bool-cases (len == cap)) [
        | inr room ↦
            let (b', front, count) = Block-set x b (ground (arith, b.in_block)) in
            let rest = collect_loop_lem fuel h bounded b' p (omega arith) in
            rw (e h, collect_loop, room, count, ← append_assoc (take len buf) (x ∷ []) xs, ← front)
              rest
        | inl full ↦
            elim (Option-cases (al.realloc (bytes cap size) (bytes (cap * 2 % size_mod) size) h)) [
              | inl no_room ↦ inr (
                cap,
                s₁,
                h,
                rw (e h, collect_loop, full, no_room) refl,
                Doubles.done,
                no_room,
                let count = length-append (take len buf) (x ∷ xs) in
                    ground (arith, count, length-take len buf, b.slots, b.in_block),
              )
              | inr (h₂, given) ↦
                  let (twice, b₂, kept) = Block-moved h h₂ bounded b given in
                  let (b', front, count) = Block-set x b₂ (ground (arith, b₂.some_slots)) in
                  let rest =
                    Loops-double given twice
                      (collect_loop_lem fuel h₂ bounded b' p (omega arith)) in
                  rw
                    (
                      e h,
                      collect_loop,
                      full,
                      given,
                      count,
                      twice,
                      ← append_assoc (take len buf) (x ∷ []) xs,
                      ← kept,
                      ← front,
                    )
                    rest
            ]
      ]

-- The slice has the elements `xs`.
abbrev pub Whole {ℓ} : {A : Type ℓ} → Slice A → List A → Type ℓ
Whole {A} s xs = (buf : List A) × (s.ptr ≡ some buf) × (s.len ≡ length xs) × (take s.len buf ≡ xs)

-- The slice is {NULL, 0}.
abbrev pub IsNothing {ℓ} : {A : Type ℓ} → Slice A → Type ℓ
IsNothing s = (s.ptr ≡ none) × (s.len ≡ 0)

module _ {ℓ κ μ} {A : Type ℓ} {S : Type κ} {H : Type μ} ⦃u : Uninit A⦄ ⦃al : Allocator H⦄
    (src : Source A S H) where
  shrink-Whole :
      (size : ℕ) {buf : List A} {len cap : ℕ} (h : H) {xs : List A}
      → Block buf len cap size
      → take len buf ≡ xs
      → Whole (shrink src size buf len cap h).0 xs
  unfolding shrink
  shrink-Whole size {buf} {len} {cap} h {xs} b front =
      let counted : len ≡ length xs =
        omega (arith, length-take len buf, b.slots, b.in_block, ap length front) in
      let whole_block : Whole (whole buf len size) xs = (buf, refl, counted, front) in
      let used : len * size ≤ cap * size = grind arith in
      let exact = bytes_eq cap size (omega arith) in
      let tight = bytes_eq len size (omega arith) in
      let reach : len ≤ min (bytes cap size) (bytes len size) / size =
        (le-div_iff_mul-le b.sized).1 (omega arith) in
      elim (Bool-cases (ltb len cap)) [
        | inr full ↦ rw (full, shrink) whole_block
        | inl loose ↦ elim (Option-cases (al.realloc (bytes cap size) (bytes len size) h)) [
          | inl no_room ↦ rw (loose, shrink, no_room) whole_block
          | inr (h', given) ↦
              rw (loose, shrink, given)
                (
                  moved (bytes cap size) (bytes len size) size buf,
                  refl,
                  counted,
                  take-moved len (bytes cap size) (bytes len size) size buf (omega (arith, b.slots))
                        reach
                      ∙ front,
                )
        ]
      ]

  -- The block that the loop starts with.
  first_Block :
      (size : ℕ) (h h₁ : H)
      → IsBounded al
      → 0 < size
      → initial_cap * size < size_mod
      → al.alloc (bytes initial_cap size) h ≡ some h₁
      → Block {A = A} (fresh (bytes initial_cap size) size) 0 initial_cap size
  first_Block size h h₁ bounded sized small given =
      let exact = bytes_eq initial_cap size small in
      record {
        slots =
            length-fresh A (bytes initial_cap size) size ∙ slots-bytes initial_cap size sized small;
        in_block = omega arith;
        some_slots = omega arith;
        sized = sized;
        small = ground (arith, bounded.alloc_bound (bytes initial_cap size) h);
      }

  -- With an allocator that refuses requests of more than PTRDIFF_MAX bytes, where 16 elements do
  -- not wrap in bytes and the source yields some elements without touching the heap, iter_collect
  -- with more rounds than there are elements returns a slice of all of them, or {NULL, 0}; the
  -- latter only if there are none, or, from the heap that it is given, the allocator refuses the
  -- block of 16 elements, or after that the temporary element, which has more than 512 bytes, or
  -- after both, having given some blocks of twice the size, one that the elements need.
  pub iter_collect_lem :
      (fuel : ℕ) {s s' : S} (h : H) {xs : List A}
      → IsBounded al
      → 0 < src.elem_size
      → initial_cap * src.elem_size < size_mod
      → Steady src s xs s'
      → length xs < fuel
      → (r : Slice A) × (h' : H) × (iter_collect src fuel (some s) h ≡ some (r, h'))
        × (Whole r xs ⊎ (IsNothing r × ((xs ≡ []) ⊎ IsRefused src.elem_size (length xs) h)))
  unfolding iter_collect iter_destroy
  iter_collect_lem fuel {s} h {xs} bounded sized small p less =
      let size = src.elem_size in
      elim (Option-cases (al.alloc (bytes initial_cap size) h)) [
        | inl no_room ↦ (
          nothing size,
          src.destroy s h,
          rw (no_room, collect_sized) refl,
          inr ((refl, refl), inr (inl no_room)),
        )
        | inr (h₁, given) ↦ elim (Option-cases (scratch_acquire size h₁)) [
          | inl no_room ↦ (
            nothing size,
            al.free (bytes initial_cap size) (src.destroy s h₁),
            rw (given, collect_sized, no_room) refl,
            inr ((refl, refl), inr (inr (h₁, given, inl (scratch_acquire-none size h₁ no_room)))),
          )
          | inr (h₂, scratch) ↦
              let first = first_Block size h h₁ bounded sized small given in
              elim (collect_loop_lem src size fuel h₂ bounded first p less) [
                | inr (cap, s₁, h₃, e, grown, no_room, needed) ↦ (
                  nothing size,
                  al.free (bytes cap size) (scratch_release size (src.destroy s₁ h₃)),
                  rw (given, collect_sized, scratch, e) refl,
                  inr (
                    (refl, refl),
                    inr (inr (h₁, given, inr (h₂, scratch, (cap, h₃, grown, no_room, needed)))),
                  ),
                )
                | inl (buf, len, cap, s₁, h₃, e, b, front) ↦
                    let after =
                      shrink src size buf len cap (scratch_release size (src.destroy s₁ h₃)) in
                    elim (Bool-cases (len == 0)) [
                      | inl none_read ↦ (
                        nothing size,
                        al.free (bytes cap size) (scratch_release size (src.destroy s₁ h₃)),
                        rw (given, collect_sized, scratch, e, collected, none_read) refl,
                        inr (
                          (refl, refl),
                          inl (
                              let zero_len : len ≡ 0 = ground arith in
                              sym front ∙ ap (λ n. take n buf) zero_len),
                        ),
                      )
                      | inr some_read ↦ (
                        after.0,
                        after.1,
                        rw (given, collect_sized, scratch, e, collected, some_read) refl,
                        inl (shrink-Whole size _ b front),
                      )
                    ]
              ]
        ]
      ]
