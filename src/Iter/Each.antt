-- ===== src/Iter/Each.antt =====
-- The adaptors of src/iter/iter.c that hand every element on: iter_map and iter_enumerate.
use mathlib.Core.List.{map}
use seqc.Prelude.{ℕ, ◌+◌, ◌%◌, List, [], ◌∷◌, size_mod, Allocator}
use seqc.Iter.{Next, got, Source, sizeof_iter, on_got, Produces, ends, gives}

-- `map_state_t`; `in_buf` holds one element for the duration of a call.
pub record Map {ℓ} (S : Type ℓ) : Type ℓ where
  pub source : S

-- `enum_state_t`; `buf` holds the element that the last entry points to.
pub record Enum {ℓ} (S : Type ℓ) : Type ℓ where
  pub source : S
  pub index : ℕ

module _ {ℓ κ μ} {A : Type ℓ} {S : Type κ} {H : Type μ} ⦃al : Allocator H⦄
    (src : Source A S H) where
  pub map_next {ν} : {B : Type ν} → (A → B) → Map S → H → Next B (Map S) H
  map_next f s h =
      on_got (src.next s.source h) (λ t. record { source = t })
        (λ x t h'. got (f x) (record { source = t }) h')

  abbrev pub sizeof_map : ℕ → ℕ
  sizeof_map handle = sizeof_iter handle + 24

  unfoldable pub map_drop : Map S → H → H
  map_drop s h =
      al.free (sizeof_map al.handle_size) (al.free src.elem_size (src.destroy s.source h))

  unfoldable pub map_source {ν} : {B : Type ν} → (A → B) → ℕ → Source B (Map S) H
  unfolding map_next map_drop
  map_source f out_elem_size = record {
    next = map_next f;
    destroy = map_drop;
    elem_size = out_elem_size;
  }

  pub enum_next : Enum S → H → Next (ℕ × A) (Enum S) H
  enum_next s h =
      on_got (src.next s.source h) (λ t. record s { source = t })
        (λ x t h'. got (s.index, x) (record { source = t; index = (s.index + 1) % size_mod }) h')

  abbrev pub sizeof_enum : ℕ → ℕ
  sizeof_enum handle = sizeof_iter handle + 16

  unfoldable pub enum_drop : Enum S → H → H
  enum_drop s h =
      al.free (sizeof_enum al.handle_size) (al.free src.elem_size (src.destroy s.source h))

  -- The entries are a `size_t` and a pointer.
  unfoldable pub enum_source : Source (ℕ × A) (Enum S) H
  unfolding enum_next enum_drop
  enum_source = record { next = enum_next; destroy = enum_drop; elem_size = 16 }

-- The elements with their indices from `i` on, as `size_t` counts.
abbrev pub numbered {ℓ} : {A : Type ℓ} → ℕ → List A → List (ℕ × A)
numbered i [] = []
numbered i (x ∷ xs) = (i, x) ∷ numbered ((i + 1) % size_mod) xs

module _ {ℓ κ μ} {A : Type ℓ} {S : Type κ} {H : Type μ} ⦃al : Allocator H⦄
    {src : Source A S H} where
  pub map-Produces {ν} :
      {B : Type ν} (f : A → B) (size : ℕ) {s s' : S} {h h' : H} {xs : List A}
      → Produces src s h xs s' h'
      → Produces
          (map_source src f size)
          (record { source = s })
          h
          (map f xs)
          (record { source = s' })
          h'
  unfolding map_source
  map-Produces f size (ends e) = ends (rw (e, map_next))
  map-Produces f size (gives e p) = gives (rw (e, map_next)) (map-Produces f size p)

  pub enum-Produces :
      (i : ℕ) {s s' : S} {h h' : H} {xs : List A}
      → Produces src s h xs s' h'
      → (j : ℕ) × Produces
          (enum_source src)
          (record { source = s; index = i })
          h
          (numbered i xs)
          (record { source = s'; index = j })
          h'
  unfolding enum_source
  enum-Produces i (ends e) = (i, ends (rw (e, enum_next)))
  enum-Produces i (gives e p) =
      let (j, q) = enum-Produces ((i + 1) % size_mod) p in (j, gives (rw (e, enum_next)) q)
