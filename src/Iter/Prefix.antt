-- ===== src/Iter/Prefix.antt =====
-- The adaptors of src/iter/iter.c that stop early: iter_take and iter_take_while.
use seqc.Prelude.{
  ℕ, zero, suc, ◌+◌, ◌-◌, ◌≡◌, refl, inl, inr, Bool, false, List, [], ◌∷◌, ◌==◌, if◌then◌else◌,
  take, Bool-cases, Allocator, arith,
}
use seqc.Iter.{Next, got, ended, Source, sizeof_iter, on_got, Produces, ends, gives, Yields}

-- `take_state_t`.
pub record Take {ℓ} (S : Type ℓ) : Type ℓ where
  pub source : S
  pub remaining : ℕ

-- `take_while_state_t`; the predicate is an argument of the functions.
pub record TakeWhile {ℓ} (S : Type ℓ) : Type ℓ where
  pub source : S

module _ {ℓ κ μ} {A : Type ℓ} {S : Type κ} {H : Type μ} ⦃al : Allocator H⦄
    (src : Source A S H) where
  pub take_next : Take S → H → Next A (Take S) H
  take_next s h =
      if s.remaining == 0
      then ended s h
      else on_got (src.next s.source h) (λ t. record s { source = t })
          (λ x t h'. got x (record { source = t; remaining = s.remaining - 1 }) h')

  abbrev pub sizeof_take : ℕ → ℕ
  sizeof_take handle = sizeof_iter handle + 8

  unfoldable pub take_drop : Take S → H → H
  take_drop s h = al.free (sizeof_take al.handle_size) (src.destroy s.source h)

  unfoldable pub take_source : Source A (Take S) H
  unfolding take_next take_drop
  take_source = record { next = take_next; destroy = take_drop; elem_size = src.elem_size }

  pub take_while_next : (A → Bool) → TakeWhile S → H → Next A (TakeWhile S) H
  take_while_next pred s h =
      on_got (src.next s.source h) (λ t. record { source = t })
        (λ x t h'.
          if pred x then got x (record { source = t }) h' else ended (record { source = t }) h')

  abbrev pub sizeof_take_while : ℕ → ℕ
  sizeof_take_while handle = sizeof_iter handle + 16

  unfoldable pub take_while_drop : TakeWhile S → H → H
  take_while_drop s h = al.free (sizeof_take_while al.handle_size) (src.destroy s.source h)

  unfoldable pub take_while_source : (A → Bool) → Source A (TakeWhile S) H
  unfolding take_while_next take_while_drop
  take_while_source pred = record {
    next = take_while_next pred;
    destroy = take_while_drop;
    elem_size = src.elem_size;
  }

-- The first elements, as long as the test holds.
abbrev pub while_holds {ℓ} : {A : Type ℓ} → (A → Bool) → List A → List A
while_holds pred [] = []
while_holds pred (x ∷ xs) = if pred x then x ∷ while_holds pred xs else []

module _ {ℓ κ μ} {A : Type ℓ} {S : Type κ} {H : Type μ} ⦃al : Allocator H⦄
    {src : Source A S H} where
  pub take-Yields :
      (n : ℕ) {s s' : S} {h h' : H} {xs : List A}
      → Produces src s h xs s' h'
      → Yields (take_source src) (record { source = s; remaining = n }) h (take n xs)
  unfolding take_source
  take-Yields zero {s} {h = h} p = (record { source = s; remaining = 0 }, h, ends refl)
  take-Yields (suc n) {s' = s'} {h' = h'} (ends e) =
      let more : (suc n == 0) ≡ false = ground arith in
      (record { source = s'; remaining = suc n }, h', ends (rw (more, e, take_next)))
  take-Yields (suc n) (gives e p) =
      let more : (suc n == 0) ≡ false = ground arith in
      let less : suc n - 1 ≡ n = omega arith in
      let (t, h₂, q) = take-Yields n p in (t, h₂, gives (rw (more, e, take_next, less)) q)

  pub take_while-Yields :
      (pred : A → Bool) {s s' : S} {h h' : H} {xs : List A}
      → Produces src s h xs s' h'
      → Yields (take_while_source src pred) (record { source = s }) h (while_holds pred xs)
  unfolding take_while_source
  take_while-Yields pred {s' = s'} {h' = h'} (ends e) =
      (record { source = s' }, h', ends (rw (e, take_while_next)))
  take_while-Yields pred (gives {s₁ = s₁} {h₁ = h₁} {x = x} e p) = elim (Bool-cases (pred x)) [
    | inl holds ↦
        let (t, h₂, q) = take_while-Yields pred p in
        rw holds (t, h₂, gives (rw (e, take_while_next, holds)) q)
    | inr fails ↦ rw fails (record { source = s₁ }, h₁, ends (rw (e, take_while_next, fails)))
  ]
