-- ===== src/Iter/Suffix.antt =====
-- The adaptors of src/iter/iter.c that leave the first elements out: iter_skip and iter_skip_while.
use seqc.Prelude.{
  ℕ, zero, suc, ◌+◌, ◌<◌, ◌≡◌, refl, sym, ap, inl, inr, Bool, true, false, not, ◌||◌, List, [], ◌∷◌,
  if◌then◌else◌, length, drop, Bool-cases, Allocator,
}
use seqc.Iter.Sift.{sift, sifted, sift-Produces}
use seqc.Iter.{Next, got, Source, sizeof_iter, on_got, Produces, ends, gives}

-- `skip_state_t`.
pub record Skip {ℓ} (S : Type ℓ) : Type ℓ where
  pub source : S
  pub remaining : ℕ

-- `skip_while_state_t`; the predicate is an argument of the functions.
pub record SkipWhile {ℓ} (S : Type ℓ) : Type ℓ where
  pub source : S
  pub done_skipping : Bool

module _ {ℓ κ μ} {A : Type ℓ} {S : Type κ} {H : Type μ} ⦃al : Allocator H⦄
    (src : Source A S H) where
  -- The `while (s->remaining > 0)` loop, and the call behind it.
  pub skip_loop : ℕ → S → H → Next A (Skip S) H
  skip_loop zero s h =
      on_got (src.next s h) (λ t. record { source = t; remaining = 0 })
        (λ x t h'. got x (record { source = t; remaining = 0 }) h')
  skip_loop (suc n) s h =
      on_got (src.next s h) (λ t. record { source = t; remaining = suc n })
        (λ x t h'. skip_loop n t h')

  pub skip_next : Skip S → H → Next A (Skip S) H
  unfolding skip_loop
  skip_next s h = skip_loop s.remaining s.source h

  abbrev pub sizeof_skip : ℕ → ℕ
  sizeof_skip handle = sizeof_iter handle + 8

  unfoldable pub skip_drop : Skip S → H → H
  skip_drop s h = al.free (sizeof_skip al.handle_size) (src.destroy s.source h)

  unfoldable pub skip_source : Source A (Skip S) H
  unfolding skip_next skip_drop
  skip_source = record { next = skip_next; destroy = skip_drop; elem_size = src.elem_size }

  -- `fuel` bounds the rounds of the loop.
  pub skip_while_next : (A → Bool) → ℕ → SkipWhile S → H → Next A (SkipWhile S) H
  skip_while_next pred fuel s h =
      sift src (λ done t. record { source = t; done_skipping = done })
        (λ done x. done || not (pred x)) (λ done x. true) fuel s.done_skipping s.source h

  abbrev pub sizeof_skip_while : ℕ → ℕ
  sizeof_skip_while handle = sizeof_iter handle + 24

  unfoldable pub skip_while_drop : SkipWhile S → H → H
  skip_while_drop s h = al.free (sizeof_skip_while al.handle_size) (src.destroy s.source h)

  unfoldable pub skip_while_source : (A → Bool) → ℕ → Source A (SkipWhile S) H
  unfolding skip_while_next skip_while_drop
  skip_while_source pred fuel = record {
    next = skip_while_next pred fuel;
    destroy = skip_while_drop;
    elem_size = src.elem_size;
  }

-- What is left without the first elements on which the test holds.
abbrev pub from_failing {ℓ} : {A : Type ℓ} → (A → Bool) → List A → List A
from_failing pred [] = []
from_failing pred (x ∷ xs) = if pred x then from_failing pred xs else x ∷ xs

module _ {ℓ} {A : Type ℓ} where
  done-passing :
      (pred : A → Bool) (xs : List A)
      → sifted (λ done x. done || not (pred x)) (λ done x. true) true xs ≡ xs
  done-passing pred [] = refl
  done-passing pred (x ∷ xs) = ap (λ r. x ∷ r) (done-passing pred xs)

  sifted-skip_while :
      (pred : A → Bool) (xs : List A)
      → sifted (λ done x. done || not (pred x)) (λ done x. true) false xs ≡ from_failing pred xs
  sifted-skip_while pred [] = refl
  sifted-skip_while pred (x ∷ xs) = elim (Bool-cases (pred x)) [
    | inl holds ↦ rw holds (sifted-skip_while pred xs)
    | inr fails ↦ rw fails (ap (λ r. x ∷ r) (done-passing pred xs))
  ]

module _ {ℓ κ μ} {A : Type ℓ} {S : Type κ} {H : Type μ} ⦃al : Allocator H⦄
    (src : Source A S H) where
  -- A step that skips one element more.
  skip-one :
      (n : ℕ) {s s₁ : S} {h h₁ : H} {x : A} {t : Skip S} {h' : H} {ys : List A}
      → src.next s h ≡ got x s₁ h₁
      → Produces (skip_source src) (record { source = s₁; remaining = n }) h₁ ys t h'
      → Produces (skip_source src) (record { source = s; remaining = suc n }) h ys t h'
  unfolding skip_source skip_next
  skip-one n e (ends f) = ends (rw (e, skip_loop) f)
  skip-one n e (gives f p) = gives (rw (e, skip_loop) f) p

module _ {ℓ κ μ} {A : Type ℓ} {S : Type κ} {H : Type μ} ⦃al : Allocator H⦄
    {src : Source A S H} where
  skip-passing :
      {s s' : S} {h h' : H} {xs : List A}
      → Produces src s h xs s' h'
      → Produces
          (skip_source src)
          (record { source = s; remaining = 0 })
          h
          xs
          (record { source = s'; remaining = 0 })
          h'
  unfolding skip_source skip_next
  skip-passing (ends e) = ends (rw (e, skip_loop))
  skip-passing (gives e p) = gives (rw (e, skip_loop)) (skip-passing p)

  pub skip-Produces :
      (n : ℕ) {s s' : S} {h h' : H} {xs : List A}
      → Produces src s h xs s' h'
      → (r : ℕ) × Produces
          (skip_source src)
          (record { source = s; remaining = n })
          h
          (drop n xs)
          (record { source = s'; remaining = r })
          h'
  unfolding skip_source skip_next
  skip-Produces zero p = (0, skip-passing p)
  skip-Produces (suc n) (ends e) = (suc n, ends (rw (e, skip_loop)))
  skip-Produces (suc n) (gives e p) = let (r, q) = skip-Produces n p in (r, skip-one src n e q)

  pub skip_while-Produces :
      (pred : A → Bool) (fuel : ℕ) {s s' : S} {h h' : H} {xs : List A}
      → Produces src s h xs s' h'
      → length xs < suc fuel
      → (r : Bool) × Produces
          (skip_while_source src pred (suc fuel))
          (record { source = s; done_skipping = false })
          h
          (from_failing pred xs)
          (record { source = s'; done_skipping = r })
          h'
  unfolding skip_while_source skip_while_next
  skip_while-Produces pred fuel {xs = xs} p k =
      let (r, q) =
        sift-Produces src (λ done t. record { source = t; done_skipping = done })
          (λ done x. done || not (pred x)) (λ done x. true) fuel
          (skip_while_source src pred (suc fuel)) (λ t s h. refl) false p k in
      (r, rw (sym (sifted-skip_while pred xs)) q)
