-- ===== src/Iter/Collect.antt =====
-- The terminals of src/iter/iter.c that keep the elements: iter_collect and iter_sort.
pub mod Block
pub mod Result
use seqc.Prelude.{
  ℕ, zero, suc, ◌+◌, ◌*◌, ◌%◌, true, false, Option, none, some, List, length, set, ltb, ◌==◌,
  if◌then◌else◌, size_mod, bytes, Allocator, Uninit, fresh, moved,
}
use seqc.Iter.{Next, got, ended, out_of_fuel, Source, iter_next, iter_destroy}
use seqc.Iter.Slice.{Slice}
use seqc.Iter.Terminal.{scratch_acquire, scratch_release, iter_elem_size}

-- The first capacity.
abbrev pub initial_cap : ℕ
initial_cap = 16

-- How the loop of `iter_collect` is left: with the block, its length and its capacity, or at a
-- reallocation of the capacity that was refused.
pub data Collecting {ℓ κ μ} (A : Type ℓ) (S : Type κ) (H : Type μ) : Type (ℓ ⊔ κ ⊔ μ) where
  filled : List A → ℕ → ℕ → Option S → H → Collecting A S H
  refused : ℕ → Option S → H → Collecting A S H

-- `{NULL, 0, elem_size}`.
abbrev pub nothing {ℓ} : {A : Type ℓ} → ℕ → Slice A
nothing size = record { ptr = none; len = 0; elem_size = size }

abbrev pub whole {ℓ} : {A : Type ℓ} → List A → ℕ → ℕ → Slice A
whole buf len size = record { ptr = some buf; len = len; elem_size = size }

module _ {ℓ κ μ} {A : Type ℓ} {S : Type κ} {H : Type μ} ⦃u : Uninit A⦄ ⦃al : Allocator H⦄
    (src : Source A S H) (size : ℕ) where
  -- The loop, with fuel for its rounds; `size` is the element size.
  pub collect_loop : ℕ → List A → ℕ → ℕ → Option S → H → Option (Collecting A S H)
  unfolding fresh moved
  collect_loop zero buf len cap it h = none
  collect_loop (suc fuel) buf len cap it h = elim (iter_next src it h) [
    | got x it' h' ↦
        let new_cap = cap * 2 % size_mod in
        let old_bytes = bytes cap size in
        let new_bytes = bytes new_cap size in
        elim (len == cap) [
          | true ↦ elim (al.realloc old_bytes new_bytes h') [
            | none ↦ some (refused cap it' h')
            | some h'' ↦
                collect_loop fuel (set (moved old_bytes new_bytes size buf) len x)
                  ((len + 1) % size_mod) new_cap it' h''
          ]
          | false ↦ collect_loop fuel (set buf len x) ((len + 1) % size_mod) cap it' h'
        ]
    | ended it' h' ↦ some (filled buf len cap it' h')
    | out_of_fuel ↦ none
  ]

  -- The block is made as small as its elements allow, if the allocator can.
  pub shrink : List A → ℕ → ℕ → H → Slice A × H
  unfolding moved
  shrink buf len cap h =
      if ltb len cap
      then elim (al.realloc (bytes cap size) (bytes len size) h) [
        | none ↦ (whole buf len size, h)
        | some h' ↦ (whole (moved (bytes cap size) (bytes len size) size buf) len size, h')
      ]
      else (whole buf len size, h)

  -- What follows the loop.
  pub collected : Option (Collecting A S H) → Option (Slice A × H)
  unfolding shrink
  collected none = none
  collected (some (refused cap it h)) =
      some (nothing size, al.free (bytes cap size) (scratch_release size (iter_destroy src it h)))
  collected (some (filled buf len cap it h)) =
      let after = scratch_release size (iter_destroy src it h) in
      if len == 0
      then some (nothing size, al.free (bytes cap size) after)
      else some (shrink buf len cap after)

  -- `iter_collect` of an iterator with this element size.
  pub collect_sized : ℕ → Option S → H → Option (Slice A × H)
  unfolding collect_loop collected
  collect_sized fuel it h = elim (al.alloc (bytes initial_cap size) h) [
    | none ↦ some (nothing size, iter_destroy src it h)
    | some h₁ ↦ elim (scratch_acquire size h₁) [
      | none ↦ some (nothing size, al.free (bytes initial_cap size) (iter_destroy src it h₁))
      | some h₂ ↦
          collected (collect_loop fuel (fresh (bytes initial_cap size) size) 0 initial_cap it h₂)
    ]
  ]

module _ {ℓ κ μ} {A : Type ℓ} {S : Type κ} {H : Type μ} ⦃u : Uninit A⦄ ⦃al : Allocator H⦄
    (src : Source A S H) where
  pub iter_collect : ℕ → Option S → H → Option (Slice A × H)
  unfolding collect_sized
  iter_collect fuel it h = collect_sized src (iter_elem_size src it) fuel it h

  -- `qsort` is the C library's: it gets the slots and their number.
  pub iter_sort : (List A → ℕ → List A) → ℕ → Option S → H → Option (Slice A × H)
  unfolding iter_collect
  iter_sort qsort fuel it h = elim (iter_collect fuel it h) [
    | none ↦ none
    | some r ↦
        let s = r.0 in
        if ltb 1 s.len
        then some
            (record s { ptr = elim s.ptr [ none ↦ none | some buf ↦ some (qsort buf s.len) ] }, r.1)
        else some (s, r.1)
  ]
