-- ===== src/Iter.antt =====
-- src/iter/iter.c: iterators, the adaptors between them and the terminals that use them up.
--
-- An `iter_t` is its two functions with its element size, a `Source`, and its state, an `Option S`
-- that is `none` for a failed iterator. A call of `next` moves the state and the heap on. The
-- functions of the client (predicates, maps, comparisons) are pure; what a visitor or a combiner
-- keeps in its `ctx` is a value that is passed on.
pub mod Slice
pub mod Each
pub mod Sift
pub mod Prefix
pub mod Suffix
pub mod Select
pub mod Pair
pub mod Group
pub mod Adaptors
pub mod Peek
pub mod Build
pub mod Terminal
pub mod Collect
pub mod Sample
mod Tests
use seqc.Prelude.{ℕ, suc, ◌+◌, ◌≡◌, Option, none, some, List, [], ◌∷◌, Allocator}

-- What a call of `next` does: it writes an element and returns true, or returns false, or its loop
-- is out of fuel.
pub data Next {ℓ κ μ} (A : Type ℓ) (S : Type κ) (H : Type μ) : Type (ℓ ⊔ κ ⊔ μ) where
  got : A → S → H → Next A S H
  ended : S → H → Next A S H
  out_of_fuel : Next A S H

-- The fields of `struct iter_t` but `state` and `allocator`; `peek` is the peekable iterator's.
pub record Source {ℓ κ μ} (A : Type ℓ) (S : Type κ) (H : Type μ) : Type (ℓ ⊔ κ ⊔ μ) where
  pub next : S → H → Next A S H
  pub destroy : S → H → H
  pub elem_size : ℕ

-- `sizeof(iter_t)`, with an `allocator_t` of `handle` bytes.
abbrev pub sizeof_iter : ℕ → ℕ
sizeof_iter handle = 40 + handle

-- A call of a source inside an adaptor: what the adaptor does with an element, and how it keeps the
-- source's state when the source has ended.
abbrev pub on_got {ℓ κ μ ν ξ} :
    {A : Type ℓ} {S : Type κ} {H : Type μ} {B : Type ν} {T : Type ξ}
    → Next A S H
    → (S → T)
    → (A → S → H → Next B T H)
    → Next B T H
on_got (got x s h) keep use_it = use_it x s h
on_got (ended s h) keep use_it = ended (keep s) h
on_got out_of_fuel keep use_it = out_of_fuel

module _ {ℓ κ μ} {A : Type ℓ} {S : Type κ} {H : Type μ} (src : Source A S H) where
  unfoldable pub iter_next : Option S → H → Next A (Option S) H
  iter_next none h = ended none h
  iter_next (some s) h = on_got (src.next s h) some (λ x s' h'. got x (some s') h')

  unfoldable pub iter_destroy : Option S → H → H
  iter_destroy none h = h
  iter_destroy (some s) h = src.destroy s h

-- `Produces src s h xs s' h'`: from the state `s` and the heap `h`, the calls of `next` write the
-- elements `xs`, and then one returns false and leaves `s'` and `h'`.
pub data Produces {ℓ κ μ} {A : Type ℓ} {S : Type κ} {H : Type μ} (src : Source A S H)
    : S → H → List A → S → H → Type (ℓ ⊔ κ ⊔ μ) where
  ends : {s s' : S} {h h' : H} → src.next s h ≡ ended s' h' → Produces src s h [] s' h'
  gives :
      {s s₁ s' : S} {h h₁ h' : H} {x : A} {xs : List A}
      → src.next s h ≡ got x s₁ h₁
      → Produces src s₁ h₁ xs s' h'
      → Produces src s h (x ∷ xs) s' h'

-- `xs` and then the end, with whatever is left.
abbrev pub Yields {ℓ κ μ} :
    {A : Type ℓ} {S : Type κ} {H : Type μ} → Source A S H → S → H → List A → Type (ℓ ⊔ κ ⊔ μ)
Yields {S} {H} src s h xs = (s' : S) × (h' : H) × Produces src s h xs s' h'
