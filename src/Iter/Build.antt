-- ===== src/Iter/Build.antt =====
-- The functions of src/iter/iter.c that make an adaptor: each gets its state, and its buffer if it
-- has one, from the allocator of its source, and destroys the source if it cannot. A failed source
-- makes a failed adaptor.
pub mod Release
pub mod Account
mod Tests
use seqc.Prelude.{ℕ, ◌+◌, Bool, false, Option, none, some, Allocator}
use seqc.Iter.{Source, iter_destroy}
use seqc.Iter.Each.{Map, sizeof_map, Enum, sizeof_enum}
use seqc.Iter.Prefix.{Take, sizeof_take, TakeWhile, sizeof_take_while}
use seqc.Iter.Suffix.{Skip, sizeof_skip, SkipWhile, sizeof_skip_while}
use seqc.Iter.Select.{Filter, sizeof_filter, Dedup, sizeof_dedup}
use seqc.Iter.Peek.{Peekable, sizeof_peekable}
use seqc.Iter.Pair.{Chain, sizeof_chain, Zip, sizeof_zip}

module _ {ℓ κ μ} {A : Type ℓ} {S : Type κ} {H : Type μ} ⦃al : Allocator H⦄
    (src : Source A S H) where
  -- A state of `size` bytes and no buffer.
  pub adapt {ν} : {T : Type ν} → ℕ → (S → T) → Option S → H → Option T × H
  adapt size make none h = (none, h)
  adapt size make (some s) h = elim (al.alloc size h) [
    | none ↦ (none, src.destroy s h)
    | some h' ↦ (some (make s), h')
  ]

  pub iter_filter : Option S → H → Option (Filter S) × H
  unfolding adapt
  iter_filter it h = adapt (sizeof_filter src al.handle_size) (λ s. record { source = s }) it h

  pub iter_take : ℕ → Option S → H → Option (Take S) × H
  unfolding adapt
  iter_take n it h =
      adapt (sizeof_take src al.handle_size) (λ s. record { source = s; remaining = n }) it h

  pub iter_take_while : Option S → H → Option (TakeWhile S) × H
  unfolding adapt
  iter_take_while it h =
      adapt (sizeof_take_while src al.handle_size) (λ s. record { source = s }) it h

  pub iter_skip : ℕ → Option S → H → Option (Skip S) × H
  unfolding adapt
  iter_skip n it h =
      adapt (sizeof_skip src al.handle_size) (λ s. record { source = s; remaining = n }) it h

  pub iter_skip_while : Option S → H → Option (SkipWhile S) × H
  unfolding adapt
  iter_skip_while it h =
      adapt (sizeof_skip_while src al.handle_size)
        (λ s. record { source = s; done_skipping = false }) it h

  -- A state of `size` bytes and a buffer for one element: both are asked for before either is looked
  -- at.
  pub adapt_buffered {ν} : {T : Type ν} → ℕ → (S → T) → Option S → H → Option T × H
  adapt_buffered size make none h = (none, h)
  adapt_buffered size make (some s) h = elim (al.alloc size h) [
    | none ↦ elim (al.alloc src.elem_size h) [
      | none ↦ (none, src.destroy s h)
      | some h₂ ↦ (none, src.destroy s (al.free src.elem_size h₂))
    ]
    | some h₁ ↦ elim (al.alloc src.elem_size h₁) [
      | none ↦ (none, src.destroy s (al.free size h₁))
      | some h₂ ↦ (some (make s), h₂)
    ]
  ]

  pub iter_enumerate : Option S → H → Option (Enum S) × H
  unfolding adapt_buffered
  iter_enumerate it h =
      adapt_buffered (sizeof_enum src al.handle_size) (λ s. record { source = s; index = 0 }) it h

  pub iter_peekable : Option S → H → Option (Peekable A S) × H
  unfolding adapt_buffered
  iter_peekable it h =
      adapt_buffered (sizeof_peekable src al.handle_size)
        (λ s. record { source = s; peeked = none; source_done = false }) it h

  pub iter_dedup : Option S → H → Option (Dedup A S) × H
  unfolding adapt_buffered
  iter_dedup it h =
      adapt_buffered (sizeof_dedup src al.handle_size) (λ s. record { source = s; last = none }) it
        h

  -- The buffer is asked for only if the state was given.
  pub iter_map : Option S → H → Option (Map S) × H
  iter_map none h = (none, h)
  iter_map (some s) h = elim (al.alloc (sizeof_map src al.handle_size) h) [
    | none ↦ (none, src.destroy s h)
    | some h₁ ↦ elim (al.alloc src.elem_size h₁) [
      | none ↦ (none, src.destroy s (al.free (sizeof_map src al.handle_size) h₁))
      | some h₂ ↦ (some (record { source = s }), h₂)
    ]
  ]

module _ {ℓ κ μ ν} {A : Type ℓ} {S : Type κ} {T : Type μ} {H : Type ν} ⦃al : Allocator H⦄
    (a : Source A S H) (b : Source A T H) where
  pub iter_chain : Option S → Option T → H → Option (Chain S T) × H
  unfolding iter_destroy
  iter_chain (some s) (some t) h = elim (al.alloc (sizeof_chain a b al.handle_size) h) [
    | none ↦ (none, b.destroy t (a.destroy s h))
    | some h' ↦ (some (record { first = s; second = t; done_first = false }), h')
  ]
  iter_chain it_a it_b h = (none, iter_destroy b it_b (iter_destroy a it_a h))

module _ {ℓ κ μ ν ξ} {A : Type ℓ} {B : Type ξ} {S : Type κ} {T : Type μ} {H : Type ν}
    ⦃al : Allocator H⦄ (a : Source A S H) (b : Source B T H) where
  pub iter_zip : Option S → Option T → H → Option (Zip S T) × H
  unfolding iter_destroy
  iter_zip (some s) (some t) h = elim (al.alloc (sizeof_zip a b al.handle_size) h) [
    | none ↦ elim (al.alloc a.elem_size h) [
      | none ↦ (none, b.destroy t (a.destroy s h))
      | some h₂ ↦ (none, b.destroy t (a.destroy s (al.free a.elem_size h₂)))
    ]
    | some h₁ ↦ elim (al.alloc a.elem_size h₁) [
      | none ↦ (none, b.destroy t (a.destroy s (al.free (sizeof_zip a b al.handle_size) h₁)))
      | some h₂ ↦ (some (record { a = s; b = t }), h₂)
    ]
  ]
  iter_zip it_a it_b h = (none, iter_destroy b it_b (iter_destroy a it_a h))
