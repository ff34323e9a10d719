-- ===== src/Pqueue/Build.antt =====
-- pqueue_create_from_vec of src/pqueue/pqueue.c makes a heap of the elements of a vector.
use mathlib.Core.List.Perm
use seqc.Prelude.{
  ℕ, zero, suc, ◌+◌, ◌/◌, ◌≤◌, ◌<◌, ◌≡◌, refl, ap, ◌∙◌, ◌⊎◌, inl, inr, Bool, true, false, ◌==◌, ok,
  oom, Option, none, some, List, [], ◌∷◌, ◌++◌, append_assoc, append-nil, take, drop, length,
  get_or, drop-get_or, ltb, Option-cases, Bool-cases, Uninit, Allocator, IsBounded, if◌then◌else◌,
  arith,
}
use seqc.Order.{Compare}
use seqc.Vec as Array
use seqc.Vec.{Vec, sizeof_vec}
use seqc.Vec.Valid.{IsValid, contents, Holds, length-contents, vec_create-Holds}
use seqc.Vec.Grow.{Blocked, vec_push_lem}
use seqc.Vec.Iter.{as_slice, data_ptr}
use seqc.Pqueue.{Pqueue, create, sift_down, push_slots, heapify, create_from_vec, sizeof_pqueue}
use seqc.Pqueue.Order.{IsQueue}
use seqc.Pqueue.Down.{heapify-Sifted}

module _ {ℓ κ} {A : Type ℓ} {H : Type κ} ⦃u : Uninit A⦄ ⦃al : Allocator H⦄ where
  -- The vec_push of some elements, one after the other, from a vector and a heap to a vector and a
  -- heap: those that it appends, and those for which the vector is full and the allocator refuses a
  -- larger block, which are left out.
  pub data Pushes : Vec A → H → List A → List A → Vec A → H → Type (ℓ ⊔ κ) where
    done : {v : Vec A} {h : H} → Pushes v h [] [] v h
    pushed :
        {v v₁ w : Vec A} {h h₁ h' : H} {x : A} {xs ys : List A}
        → Array.push (some v) (some x) h ≡ (ok, some v₁, h₁)
        → Pushes v₁ h₁ xs ys w h'
        → Pushes v h (x ∷ xs) (x ∷ ys) w h'
    left_out :
        {v w : Vec A} {h h' : H} {x : A} {xs ys : List A}
        → Array.push (some v) (some x) h ≡ (oom, some v, h)
        → Blocked v h
        → Pushes v h xs ys w h'
        → Pushes v h (x ∷ xs) ys w h'

  Pushes-length :
      {v w : Vec A} {h h' : H} {xs ys : List A} → Pushes v h xs ys w h' → length ys ≤ length xs
  Pushes-length Pushes.done = omega arith
  Pushes-length (Pushes.pushed e p) = omega (arith, Pushes-length p)
  Pushes-length (Pushes.left_out e b p) = omega (arith, Pushes-length p)

-- A vector without elements and without a block.
abbrev pub empty {ℓ} : {A : Type ℓ} → ℕ → Vec A
empty size = record { buf = []; len = 0; cap = 0; elem_size = size }

module _ {ℓ} {A : Type ℓ} where
  block : (xs : List A) → elim (data_ptr xs) [ none ↦ [] | some b ↦ b ] ≡ xs
  block [] = refl
  block (x ∷ xs) = refl

module _ {ℓ} {A : Type ℓ} ⦃u : Uninit A⦄ ⦃o : Compare A⦄ where
  heapify-none : (i : ℕ) → heapify {A = A} i none ≡ none
  unfolding heapify sift_down
  heapify-none zero = refl
  heapify-none (suc i) = heapify-none i

  unbuilt : (n : ℕ) → (if ltb 1 n then heapify {A = A} (n / 2) none else none) ≡ none
  unbuilt n = rw (heapify-none (n / 2)) (ground arith)

  -- What the heapify of the elements leaves.
  built_lem :
      (n size : ℕ) (w : Vec A) (ys : List A)
      → Holds size ys w
      → length ys ≤ n
      → (r : Vec A) × ((if ltb 1 n then heapify (n / 2) (some w) else some w) ≡ some r)
        × IsQueue size ys (record { vec = some r })
  built_lem n size w ys (valid, same, sized) count =
      let few : w.len ≤ n = omega (arith, ap length same, length-contents valid) in
      elim (Bool-cases (ltb 1 n)) [
        | inl many ↦
            let (r, made, s) = heapify-Sifted (n / 2) w valid (λ c p q e. absurd (omega arith)) in
            (
              r,
              rw many made,
              record {
                v = r;
                has = refl;
                valid = s.valid;
                sized = s.size ∙ sized;
                ordered = s.ordered;
                same = Perm.trans s.same (rw same Perm.rfl);
              },
            )
        | inr single ↦ (
          w,
          rw single refl,
          record {
            v = w;
            has = refl;
            valid = valid;
            sized = sized;
            ordered = λ c p q r. absurd (ground (arith, single));
            same = rw same Perm.rfl;
          },
        )
      ]

module _ {ℓ κ} {A : Type ℓ} {H : Type κ} ⦃u : Uninit A⦄ ⦃o : Compare A⦄ ⦃al : Allocator H⦄ where
  push_slots_lem :
      (buf : List A) (i n size : ℕ) (v : Vec A) (xs : List A) (h : H)
      → IsBounded al
      → i + n ≤ length buf
      → Holds size xs v
      → (w : Vec A) × (h' : H) × (ys : List A) × (push_slots buf i n (some v) h ≡ (some w, h'))
        × Holds size (xs ++ ys) w
        × Pushes v h (take n (drop i buf)) ys w h'
  unfolding push_slots
  push_slots_lem buf i zero size v xs h b inside held =
      (v, h, [], refl, rw (append-nil xs) held, Pushes.done)
  push_slots_lem buf i (suc n) size v xs h b inside (valid, same, sized) =
      let x = get_or buf i u.junk in
      let next : drop i buf ≡ x ∷ drop (suc i) buf = drop-get_or i buf u.junk (omega arith) in
      elim (vec_push_lem v x h b valid) [
        | inl (failed, why) ↦
            let (w, h', ys, ends, holds, part) =
              push_slots_lem buf (suc i) n size v xs h b (omega arith) (valid, same, sized) in
            (
              w,
              h',
              ys,
              rw (push_slots, failed) ends,
              holds,
              rw next (Pushes.left_out failed why part),
            )
        | inr (v', h₁, fits, (good, grown, size')) ↦
            let (w, h', ys, ends, holds, part) =
              push_slots_lem buf (suc i) n size v' (xs ++ (x ∷ [])) h₁ b (omega arith)
                (good, grown ∙ ap (λ l. l ++ (x ∷ [])) same, size' ∙ sized) in
            (
              w,
              h',
              x ∷ ys,
              rw (push_slots, fits) ends,
              rw (append_assoc xs (x ∷ []) ys) at holds,
              rw next (Pushes.pushed fits part),
            )
      ]

  push_slots-none : (buf : List A) (i n : ℕ) (h : H) → push_slots buf i n none h ≡ (none, h)
  unfolding push_slots Array.push
  push_slots-none buf i zero h = refl
  push_slots-none buf i (suc n) h = push_slots-none buf (suc i) n h

  -- The vector that `pqueue_create` asks for.
  vec_create-cases :
      (size : ℕ) (has_vtable : Bool) (h : H)
      → 0 < size
      → ((Array.create {A = A} size has_vtable h ≡ (none, h))
          × ((has_vtable ≡ false) ⊎ (al.alloc (sizeof_vec al.handle_size) h ≡ none)))
        ⊎ ((h' : H) × (al.alloc (sizeof_vec al.handle_size) h ≡ some h')
            × (Array.create {A = A} size has_vtable h ≡ (some (empty size), h')))
  unfolding Array.create
  vec_create-cases size false h sized =
      let wide : (size == 0) ≡ false = ground arith in inl (rw wide refl, inl refl)
  vec_create-cases size true h sized =
      let wide : (size == 0) ≡ false = ground arith in
      elim (Option-cases (al.alloc (sizeof_vec al.handle_size) h)) [
        | inl refused ↦ inl (rw (wide, refused) refl, inr refused)
        | inr (h', given) ↦ inr (h', given, rw (wide, given) refl)
      ]

  create_given :
      (size : ℕ) (has_vtable : Bool) (h : H) {h₁ h₂ : H} {v : Option (Vec A)}
      → al.alloc (sizeof_pqueue al.handle_size) h ≡ some h₁
      → Array.create {A = A} size has_vtable h₁ ≡ (v, h₂)
      → create {A = A} size has_vtable h ≡ (some (record { vec = v }), h₂)
  unfolding create
  create_given size has_vtable h given made = rw (create, given, made) refl

  create_refused :
      (size : ℕ) (has_vtable : Bool) (h : H)
      → al.alloc (sizeof_pqueue al.handle_size) h ≡ none
      → create {A = A} size has_vtable h ≡ (none, h)
  unfolding create
  create_refused size has_vtable h refused = rw (create, refused) refl

  -- With an allocator that refuses requests of more than PTRDIFF_MAX bytes, pqueue_create_from_vec
  -- of a valid vector returns NULL because the allocator refuses the handle; or a queue without a
  -- vector because the allocator has no vtable or then refuses the vector; or a queue that is a
  -- valid heap of the elements which vec_push puts, one after the other, into the new vector, where
  -- each that is left out is one for which the vector is full and the allocator refuses the larger
  -- block.
  pub create_from_vec-IsQueue :
      (v : Vec A) (has_vtable : Bool) (h : H)
      → IsBounded al
      → IsValid v
      → ((create_from_vec (some v) has_vtable h ≡ (none, h))
          × (al.alloc (sizeof_pqueue al.handle_size) h ≡ none))
        ⊎ ((h₁ : H) × (al.alloc (sizeof_pqueue al.handle_size) h ≡ some h₁)
            × (((create_from_vec (some v) has_vtable h ≡ (some (record { vec = none }), h₁))
                  × ((has_vtable ≡ false) ⊎ (al.alloc (sizeof_vec al.handle_size) h₁ ≡ none)))
                ⊎ ((h₂ : H) × (al.alloc (sizeof_vec al.handle_size) h₁ ≡ some h₂)
                    × (q : Pqueue A) × (w : Vec A) × (h' : H) × (ys : List A) × (create_from_vec
                          (some v)
                          has_vtable
                          h
                        ≡ (some q, h'))
                    × Pushes (empty v.elem_size) h₂ (contents v) ys w h'
                    × IsQueue v.elem_size ys q)))
  unfolding create_from_vec as_slice
  create_from_vec-IsQueue v has_vtable h b valid =
      elim (Option-cases (al.alloc (sizeof_pqueue al.handle_size) h)) [
        | inl refused ↦
            let e = create_refused v.elem_size has_vtable h refused in
            inl (rw (create_from_vec, e, e) refl, refused)
        | inr (h₁, given) ↦ inr (
          h₁,
          given,
          elim (vec_create-cases v.elem_size has_vtable h₁ valid.sized) [
            | inl (no_vec, why) ↦
                let e = create_given v.elem_size has_vtable h given no_vec in
                inl (
                  rw (create_from_vec, e, e, block v.buf, push_slots-none v.buf 0 v.len h₁)
                      (ap (λ (r : Option (Vec A)). (some (record { vec = r }), h₁))
                        (unbuilt v.len)),
                  why,
                )
            | inr (h₂, room, created) ↦
                let e = create_given v.elem_size has_vtable h given created in
                let start : Holds v.elem_size [] (empty v.elem_size) =
                  vec_create-Holds v.elem_size has_vtable h₁ valid.narrow (ap (λ r. r.0) created) in
                let (w, h', ys, fits, held, part) =
                  push_slots_lem v.buf 0 v.len v.elem_size (empty v.elem_size) [] h₂ b
                    (omega (arith, valid.slots, valid.filled)) start in
                let (r, heaped, good) =
                  built_lem v.len v.elem_size w ys held
                    (omega (arith, Pushes-length part, length-contents valid)) in
                inr (
                  h₂,
                  room,
                  record { vec = some r },
                  w,
                  h',
                  ys,
                  rw (create_from_vec, e, e, block v.buf, fits)
                      (ap (λ (t : Option (Vec A)). (some (record { vec = t }), h')) heaped),
                  part,
                  good,
                )
          ],
        )
      ]
