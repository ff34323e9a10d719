-- ===== src/Extend/Adds.antt =====
-- What seqc_extend leaves in a collection whose `add` keeps its promise, and that the functions of
-- the queue and of the search tree do.
use seqc.Prelude.{
  ℕ, zero, suc, ◌<◌, ◌≡◌, refl, sym, ap, ◌∙◌, ◌⊎◌, inl, inr, true, Option, none, some, List, bytes,
  [], ◌∷◌, ◌++◌, append_assoc, append-nil, length, ◌==◌, Status, ok, oom, Bool, false, Allocator,
  IsBounded, Uninit, arith,
}
use seqc.Iter.{Source, iter_next, iter_destroy}
use seqc.Iter.Pair.{Steady, stops, writes}
use seqc.Queue.{Queue}
use seqc.Queue as Queues
use seqc.Queue.Valid
use seqc.Queue.Refine.{queue_push_lem}
use seqc.Extend.{AddFn, goes_on, extend_loop, extended, extend_with, seqc_extend, queue_extend}

-- The collection and the heap after `add` of one element after the other, whatever it returns.
abbrev pub add_all {ℓ κ μ} :
    {A : Type ℓ} {C : Type κ} {H : Type μ} → AddFn A C H → List A → Option C → H → Option C × H
add_all add [] coll h = (coll, h)
add_all add (x ∷ xs) coll h = let added = add coll x h in add_all add xs added.1 added.2

-- What the loop relies on. `P n xs c` says that the collection is valid, has the elements `xs`, and
-- can count `n` more, and `IsRefused c h` that there is no memory in the heap `h` for one more. An
-- `add` puts its element among them, or leaves all as it was for want of memory.
pub record Adds {ℓ κ μ} {A : Type ℓ} {C : Type κ} {H : Type μ} (goes : Status → Bool)
    (add : AddFn A C H) (put : List A → A → List A) (P : ℕ → List A → C → Type ℓ)
    (IsRefused : C → H → Type μ) : Type (ℓ ⊔ κ ⊔ μ) where
  pub at_oom : goes oom ≡ false
  pub adds :
      (n : ℕ) (xs : List A) (c : C) (x : A) (h : H)
      → P (suc n) xs c
      → ((st : Status) × (c' : C) × (h' : H) × (add (some c) x h ≡ (st, some c', h'))
          × (goes st ≡ true)
          × P n (put xs x) c')
        ⊎ ((add (some c) x h ≡ (oom, some c, h)) × IsRefused c h)

-- The elements are put into a list one after the other.
abbrev pub put_all {ℓ} : {A : Type ℓ} → (List A → A → List A) → List A → List A → List A
put_all put ys [] = ys
put_all put ys (x ∷ xs) = put_all put (put ys x) xs

module _ {ℓ κ μ ν} {A : Type ℓ} {S : Type κ} {H : Type μ} {C : Type ν} ⦃al : Allocator H⦄
    (src : Source A S H) (add : AddFn A C H) (IsRefused : C → H → Type μ)
    (Q : List A → C → Type ℓ) where
  -- What an extension by `xs` with an iterator that they leave at `s'` comes to, where the
  -- temporary element of `size` bytes left the heap `h₀`. Either it is SEQC_OK, with all of them
  -- added to `c₀` one after the other; or it is SEQC_OOM, with those in front of one added, where
  -- the collection and the heap that this leaves have no memory for that one. Then the iterator
  -- is destroyed and the temporary element released.
  abbrev pub Extended :
      ℕ → C → H → List A → S → Option (Status × Option C × H) → Type (ℓ ⊔ κ ⊔ μ ⊔ ν)
  Extended size c₀ h₀ xs s' result =
      ((c : C) × (h : H) × (add_all add xs (some c₀) h₀ ≡ (some c, h))
        × (result ≡ some (ok, some c, al.free size (src.destroy s' h)))
        × Q xs c)
      ⊎ ((c : C) × (h : H) × (s : S) × (front : List A) × (x : A) × (back : List A) × (xs
            ≡ front ++ (x ∷ back))
          × (add_all add front (some c₀) h₀ ≡ (some c, h))
          × IsRefused c h
          × (result ≡ some (oom, some c, al.free size (src.destroy s h)))
          × Q front c)

module _ {ℓ κ μ ν} {A : Type ℓ} {S : Type κ} {H : Type μ} {C : Type ν} (src : Source A S H)
    {goes : Status → Bool} {add : AddFn A C H} {put : List A → A → List A}
    {P : ℕ → List A → C → Type ℓ} {IsRefused : C → H → Type μ}
    (laws : Adds goes add put P IsRefused) where
  abbrev Loops :
      List A → C → H → List A → S → Option (Status × Option C × Option S × H) → Type (ℓ ⊔ κ ⊔ μ ⊔ ν)
  Loops ys c₀ h₀ xs s' result =
      ((c : C) × (h : H) × (add_all add xs (some c₀) h₀ ≡ (some c, h))
        × (result ≡ some (ok, some c, some s', h))
        × P 0 (put_all put ys xs) c)
      ⊎ ((c : C) × (h : H) × (s : S) × (front : List A) × (x : A) × (back : List A) × (xs
            ≡ front ++ (x ∷ back))
          × (add_all add front (some c₀) h₀ ≡ (some c, h))
          × IsRefused c h
          × (result ≡ some (oom, some c, some s, h))
          × P (suc (length back)) (put_all put ys front) c)

  extend_loop_lem :
      (fuel : ℕ) (ys : List A) (c : C) {s s' : S} (h : H) {xs : List A}
      → Steady src s xs s'
      → length xs < fuel
      → P (length xs) ys c
      → Loops ys c h xs s' (extend_loop src goes add fuel (some c) (some s) h)
  unfolding extend_loop iter_next
  extend_loop_lem zero ys c h p less holds = absurd (omega arith)
  extend_loop_lem (suc fuel) ys c {s' = s'} h (stops e) less holds =
      inl (c, h, refl, rw (e h, extend_loop) refl, holds)
  extend_loop_lem (suc fuel) ys c h {xs = x ∷ xs} (writes {s₁ = s₁} e p) less holds =
      elim (laws.adds (length xs) ys c x h holds) [
        | inr (no_room, refused) ↦ inr (
          c,
          h,
          s₁,
          [],
          x,
          xs,
          refl,
          refl,
          refused,
          rw (e h, extend_loop, no_room, laws.at_oom, no_room) refl,
          holds,
        )
        | inl (st, c', h', added, more, holds') ↦
            elim (extend_loop_lem fuel (put ys x) c' h' p (omega arith) holds') [
              | inl (c₂, h₂, all, result, whole) ↦ inl (
                c₂,
                h₂,
                rw (added, add_all) all,
                rw (e h, extend_loop, added, more, added) result,
                whole,
              )
              | inr (c₂, h₂, s₂, front, y, back, split, some_of, refused, result, kept) ↦ inr (
                c₂,
                h₂,
                s₂,
                x ∷ front,
                y,
                back,
                ap (λ r. x ∷ r) split,
                rw (added, add_all) some_of,
                refused,
                rw (e h, extend_loop, added, more, added) result,
                kept,
              )
            ]
      ]

module _ {ℓ κ μ ν} {A : Type ℓ} {S : Type κ} {H : Type μ} {C : Type ν} ⦃al : Allocator H⦄
    (src : Source A S H) {goes : Status → Bool} {add : AddFn A C H} {put : List A → A → List A}
    {P : ℕ → List A → C → Type ℓ} {IsRefused : C → H → Type μ}
    (laws : Adds goes add put P IsRefused) where
  pub extend_with_lem :
      (size fuel : ℕ) (ys : List A) (c : C) {s s' : S} (h h₁ : H) {xs : List A}
      {Q : List A → C → Type ℓ}
      → ((n : ℕ) (zs : List A) (c' : C) → P n (put_all put ys zs) c' → Q zs c')
      → src.elem_size ≡ size
      → al.alloc size h ≡ some h₁
      → Steady src s xs s'
      → length xs < fuel
      → P (length xs) ys c
      → Extended src add IsRefused Q size c h₁ xs s'
          (extend_with src add goes size fuel (some c) (some s) h)
  unfolding extend_with extended iter_destroy
  extend_with_lem size fuel ys c h h₁ show sized given p less holds =
      let same : (src.elem_size == size) ≡ true = ground arith in
      elim (extend_loop_lem src laws fuel ys c h₁ p less holds) [
        | inl (c₂, h₂, all, result, whole) ↦
            inl
              (c₂, h₂, all, rw (same, extend_with, given, result, extended) refl, show 0 _ c₂ whole)
        | inr (c₂, h₂, s₂, front, y, back, split, some_of, refused, result, kept) ↦ inr (
          c₂,
          h₂,
          s₂,
          front,
          y,
          back,
          split,
          some_of,
          refused,
          rw (same, extend_with, given, result, extended) refl,
          show (suc (length back)) front c₂ kept,
        )
      ]

unfoldable pub snoc {ℓ} : {A : Type ℓ} → List A → A → List A
snoc xs x = xs ++ (x ∷ [])

pub put_all-snoc {ℓ} : {A : Type ℓ} (ys xs : List A) → put_all snoc ys xs ≡ ys ++ xs
unfolding snoc
put_all-snoc ys [] = sym (append-nil ys)
put_all-snoc ys (x ∷ xs) = put_all-snoc (ys ++ (x ∷ [])) xs ∙ append_assoc ys (x ∷ []) xs

module _ {ℓ κ} {A : Type ℓ} {H : Type κ} ⦃al : Allocator H⦄ where
  -- The queue is full and the allocator refuses the next block.
  abbrev pub IsFull : Queue A → H → Type κ
  IsFull q h = (q.len ≡ q.cap) × (al.alloc (bytes (Queues.next_cap q) q.elem_size) h ≡ none)

module _ {ℓ κ} {A : Type ℓ} {H : Type κ} ⦃u : Uninit A⦄ ⦃al : Allocator H⦄ (size : ℕ)
    (bounded : IsBounded al) where
  queue-Adds :
      Adds {A = A} {C = Queue A} {H = H} goes_on
        (λ coll x. Queues.push coll (some x))
        snoc
        (λ n xs q. Valid.Holds size xs q)
        IsFull
  unfolding snoc
  queue-Adds = record {
    at_oom = refl;
    adds = λ n xs q x h holds. elim (queue_push_lem q x h bounded holds.0) [
      | inl failed ↦ inr failed
      | inr (r, h', pushed, (valid, same, kept)) ↦
          inl (
            ok,
            r,
            h',
            pushed,
            refl,
            (valid, same ∙ ap (λ l. l ++ (x ∷ [])) holds.1, kept ∙ holds.2),
          )
    ];
  }

module _ {ℓ κ μ} {A : Type ℓ} {S : Type κ} {H : Type μ} ⦃u : Uninit A⦄ ⦃al : Allocator H⦄
    (src : Source A S H) where
  -- With an allocator that refuses requests of more than PTRDIFF_MAX bytes but gives the temporary
  -- element, of a source that yields some elements of the queue's element size without touching the
  -- heap, queue_extend on a valid queue leaves the queue and the heap that queue_push of all of
  -- them leaves, holding them behind the elements before, and returns SEQC_OK; or it leaves those
  -- that queue_push of the elements in front of one leaves, where the queue is full and the
  -- allocator then refuses the next block, and returns SEQC_OOM. Either way the source is then
  -- destroyed, the temporary element released, and the queue valid.
  pub queue_extend-Holds :
      (q : Queue A) (fuel : ℕ) {s s' : S} (h h₁ : H) {xs : List A}
      → IsBounded al
      → Valid.IsValid q
      → src.elem_size ≡ q.elem_size
      → al.alloc q.elem_size h ≡ some h₁
      → Steady src s xs s'
      → length xs < fuel
      → Extended src
          (λ coll x. Queues.push coll (some x))
          IsFull
          (λ zs r. Valid.Holds q.elem_size (Valid.contents q ++ zs) r)
          q.elem_size
          q
          h₁
          xs
          s'
          (queue_extend src fuel (some q) (some s) h)
  unfolding queue_extend seqc_extend
  queue_extend-Holds q fuel h h₁ {xs} bounded valid same given p less =
      extend_with_lem src (queue-Adds q.elem_size bounded) q.elem_size fuel (Valid.contents q) q h
        h₁ (λ n zs r holds. rw (sym (put_all-snoc (Valid.contents q) zs)) holds) same given p less
        (valid, refl, refl)
