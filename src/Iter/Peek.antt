-- ===== src/Iter/Peek.antt =====
-- iter_peekable of src/iter/iter.c and iter_peek of include/seqc/iter.h.
use seqc.Prelude.{
  ℕ, ◌+◌, ◌≡◌, refl, ap, Bool, true, false, inl, inr, ◌⊎◌, Option, none, some, List, [], ◌∷◌,
  if◌then◌else◌, Allocator,
}
use seqc.Iter.{Next, got, ended, out_of_fuel, Source, sizeof_iter, on_got, ends, gives, Yields}

-- `peekable_state_t`: `peeked` is the element in `buf` if `has_peeked`.
pub record Peekable {ℓ κ} (A : Type ℓ) (S : Type κ) : Type (ℓ ⊔ κ) where
  pub source : S
  pub peeked : Option A
  pub source_done : Bool

module _ {ℓ κ μ} {A : Type ℓ} {S : Type κ} {H : Type μ} ⦃al : Allocator H⦄
    (src : Source A S H) where
  pub peekable_next : Peekable A S → H → Next A (Peekable A S) H
  peekable_next s h = elim s.peeked [
    | some x ↦ got x (record s { peeked = none }) h
    | none ↦
        if s.source_done
        then ended s h
        else on_got (src.next s.source h) (λ t. record s { source = t })
            (λ x t h'. got x (record s { source = t }) h')
  ]

  -- What follows the call of the source in a peek.
  pub on_peek : Next A S H → Next A (Peekable A S) H
  on_peek (got x t h) = got x (record { source = t; peeked = some x; source_done = false }) h
  on_peek (ended t h) = ended (record { source = t; peeked = none; source_done = true }) h
  on_peek out_of_fuel = out_of_fuel

  pub peekable_peek : Peekable A S → H → Next A (Peekable A S) H
  unfolding on_peek
  peekable_peek s h = elim s.peeked [
    | some x ↦ got x s h
    | none ↦ if s.source_done then ended s h else on_peek (src.next s.source h)
  ]

  abbrev pub sizeof_peekable : ℕ → ℕ
  sizeof_peekable handle = sizeof_iter handle + 16

  unfoldable pub peekable_drop : Peekable A S → H → H
  peekable_drop s h =
      al.free (sizeof_peekable al.handle_size) (al.free src.elem_size (src.destroy s.source h))

  unfoldable pub peekable_source : Source A (Peekable A S) H
  unfolding peekable_next peekable_drop
  peekable_source = record {
    next = peekable_next;
    destroy = peekable_drop;
    elem_size = src.elem_size;
  }

-- `Pending src s h xs`: the elements `xs` are still to come, the peeked one among them.
pub data Pending {ℓ κ μ} {A : Type ℓ} {S : Type κ} {H : Type μ} (src : Source A S H)
    : Peekable A S → H → List A → Type (ℓ ⊔ κ ⊔ μ) where
  held :
      {s : S} {h : H} {x : A} {xs : List A}
      → Yields src s h xs
      → Pending src (record { source = s; peeked = some x; source_done = false }) h (x ∷ xs)
  in_source :
      {s : S} {h : H} {xs : List A}
      → Yields src s h xs
      → Pending src (record { source = s; peeked = none; source_done = false }) h xs
  used_up :
      {s : S} {h : H} → Pending src (record { source = s; peeked = none; source_done = true }) h []

-- The call writes the first of `xs` and leaves a state with `Post`, or there is none.
abbrev pub Heads {ℓ κ μ ν} :
    {A : Type ℓ} {S : Type κ} {H : Type μ}
    → Next A S H
    → List A
    → (S → H → List A → Type ν)
    → Type (ℓ ⊔ κ ⊔ μ ⊔ ν)
Heads {A} {S} {H} result xs Post =
    ((x : A) × (ys : List A) × (t : S) × (h' : H) × (xs ≡ x ∷ ys)
      × (result ≡ got x t h')
      × Post t h' ys)
    ⊎ ((t : S) × (h' : H) × (xs ≡ []) × (result ≡ ended t h'))

module _ {ℓ κ μ} {A : Type ℓ} {S : Type κ} {H : Type μ} ⦃al : Allocator H⦄
    (src : Source A S H) where
  pub peekable-Pending :
      {s : Peekable A S} {h : H} {xs : List A}
      → Pending src s h xs
      → Heads (peekable_next src s h) xs (λ t h' ys. Pending src t h' ys)
  unfolding peekable_next
  peekable-Pending (held {x = x} {xs = xs} y) = inl (x, xs, _, _, refl, refl, in_source y)
  peekable-Pending (in_source (s', h', ends {s' = s₁} {h' = h₁} e)) = inr (
    _,
    h₁,
    refl,
    ap
        (λ r.
          on_got r (λ t. record { source = t; peeked = none; source_done = false })
            (λ x t h'. got x (record { source = t; peeked = none; source_done = false }) h'))
        e,
  )
  peekable-Pending (in_source (s', h', gives {s₁ = s₁} {h₁ = h₁} {x = x} {xs = xs} e p)) = inl (
    x,
    xs,
    _,
    h₁,
    refl,
    ap
        (λ r.
          on_got r (λ t. record { source = t; peeked = none; source_done = false })
            (λ x t h'. got x (record { source = t; peeked = none; source_done = false }) h'))
        e,
    in_source (s', h', p),
  )
  peekable-Pending used_up = inr (_, _, refl, refl)

  pub peek-Pending :
      {s : Peekable A S} {h : H} {xs : List A}
      → Pending src s h xs
      → Heads (peekable_peek src s h) xs (λ t h' ys. Pending src t h' xs)
  unfolding peekable_peek on_peek
  peek-Pending (held {x = x} {xs = xs} y) = inl (x, xs, _, _, refl, refl, held y)
  peek-Pending (in_source (s', h', ends {s' = s₁} {h' = h₁} e)) =
      inr (_, h₁, refl, ap (on_peek src) e)
  peek-Pending (in_source (s', h', gives {s₁ = s₁} {h₁ = h₁} {x = x} {xs = xs} e p)) =
      inl (x, xs, _, h₁, refl, ap (on_peek src) e, held (s', h', p))
  peek-Pending used_up = inr (_, _, refl, refl)

  -- Of a peekable iterator with some elements to come, iter_peek writes the first and leaves all of
  -- them to come, and a call of next writes the same one and leaves the others; both return false
  -- if there is none.
  pub peekable-Heads :
      {s : Peekable A S} {h : H} {xs : List A}
      → Pending src s h xs
      → Heads (peekable_peek src s h) xs (λ t h' ys. Pending src t h' xs)
        × Heads (peekable_next src s h) xs (λ t h' ys. Pending src t h' ys)
  peekable-Heads p = (peek-Pending p, peekable-Pending p)
