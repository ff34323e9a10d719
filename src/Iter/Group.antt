-- ===== src/Iter/Group.antt =====
-- The adaptors of src/iter/iter.c that hand on several elements at once: iter_window and
-- iter_chunks.
--
-- Their elements are slices over their buffer, here the lists of the elements in them.
pub mod Fill
pub mod Runs
use seqc.Prelude.{
  ℕ, zero, suc, ◌+◌, ◌-◌, Bool, true, false, Option, none, some, List, [], take, set, ltb, ◌==◌,
  if◌then◌else◌, bytes, memmove, Allocator, Uninit, fresh,
}
use seqc.Iter.{Next, got, ended, out_of_fuel, Source, sizeof_iter, on_got}

-- `window_state_t`: `buf` is its block of `n` slots.
pub record Window {ℓ κ} (A : Type ℓ) (S : Type κ) : Type (ℓ ⊔ κ) where
  pub source : S
  pub buf : List A
  pub n : ℕ
  pub primed : Bool

-- `chunk_state_t`.
pub record Chunk {ℓ κ} (A : Type ℓ) (S : Type κ) : Type (ℓ ⊔ κ) where
  pub source : S
  pub buf : List A
  pub n : ℕ
  pub done : Bool

-- How the loop that fills a buffer ends: all slots are written, or the source ended after `count`.
pub data Filling {ℓ κ μ} (A : Type ℓ) (S : Type κ) (H : Type μ) : Type (ℓ ⊔ κ ⊔ μ) where
  full : List A → S → H → Filling A S H
  short : ℕ → List A → S → H → Filling A S H
  stuck : Filling A S H

module _ {ℓ κ μ} {A : Type ℓ} {S : Type κ} {H : Type μ} (src : Source A S H) where
  -- The loops of `window_next` and `chunk_next` that call the source for `k` slots from `i` on.
  unfoldable pub fill_slots : ℕ → ℕ → List A → S → H → Filling A S H
  fill_slots zero i buf s h = full buf s h
  fill_slots (suc k) i buf s h = elim (src.next s h) [
    | got x t h' ↦ fill_slots k (suc i) (set buf i x) t h'
    | ended t h' ↦ short i buf t h'
    | out_of_fuel ↦ stuck
  ]

module _ {ℓ κ μ} {A : Type ℓ} {S : Type κ} {H : Type μ} ⦃al : Allocator H⦄
    (src : Source A S H) where
  -- The first window.
  pub first_window : ℕ → Filling A S H → Next (List A) (Window A S) H
  first_window n (full buf s h) =
      got (take n buf) (record { source = s; buf = buf; n = n; primed = true }) h
  first_window n (short count buf s h) =
      ended (record { source = s; buf = buf; n = n; primed = false }) h
  first_window n stuck = out_of_fuel

  -- The next window: one slot to the left, and one element more.
  pub slide_window : Window A S → H → Next (List A) (Window A S) H
  unfolding memmove
  slide_window w h =
      let shifted = memmove w.buf 0 1 (w.n - 1) in
      on_got (src.next w.source h) (λ t. record w { source = t; buf = shifted })
        (λ x t h'.
          let buf = set shifted (w.n - 1) x in
          got (take w.n buf) (record w { source = t; buf = buf }) h')

  pub window_next : Window A S → H → Next (List A) (Window A S) H
  unfolding fill_slots first_window slide_window
  window_next w h =
      if w.n == 0
      then ended w h
      else if w.primed
      then slide_window w h
      else first_window w.n (fill_slots src w.n 0 w.buf w.source h)

  -- `if (count == 0) return false; if (count < s->n) s->done = 1;`
  pub close_chunk : ℕ → ℕ → List A → S → H → Next (List A) (Chunk A S) H
  close_chunk n count buf s h =
      if count == 0
      then ended (record { source = s; buf = buf; n = n; done = false }) h
      else got (take count buf) (record { source = s; buf = buf; n = n; done = ltb count n }) h

  pub filled_chunk : ℕ → Filling A S H → Next (List A) (Chunk A S) H
  unfolding close_chunk
  filled_chunk n (full buf s h) = close_chunk n n buf s h
  filled_chunk n (short count buf s h) = close_chunk n count buf s h
  filled_chunk n stuck = out_of_fuel

  pub chunk_next : Chunk A S → H → Next (List A) (Chunk A S) H
  unfolding fill_slots filled_chunk
  chunk_next c h =
      if c.done then ended c h else filled_chunk c.n (fill_slots src c.n 0 c.buf c.source h)

  -- `sizeof(window_state_t)`, which is that of `chunk_state_t`.
  abbrev pub sizeof_group : ℕ → ℕ
  sizeof_group handle = sizeof_iter handle + (32 + handle)

  -- The block of `n` slots, which is NULL for no slots.
  pub free_slots : ℕ → H → H
  free_slots n h = if n == 0 then h else al.free (bytes n src.elem_size) h

  pub window_drop : Window A S → H → H
  unfolding free_slots
  window_drop w h = al.free (sizeof_group al.handle_size) (free_slots w.n (src.destroy w.source h))

  pub chunk_drop : Chunk A S → H → H
  unfolding free_slots
  chunk_drop c h = al.free (sizeof_group al.handle_size) (free_slots c.n (src.destroy c.source h))

  -- The elements are `slice_t`s of 24 bytes.
  pub window_source : Source (List A) (Window A S) H
  unfolding window_next window_drop
  window_source = record { next = window_next; destroy = window_drop; elem_size = 24 }

  pub chunk_source : Source (List A) (Chunk A S) H
  unfolding chunk_next chunk_drop
  chunk_source = record { next = chunk_next; destroy = chunk_drop; elem_size = 24 }

module _ {ℓ κ μ} {A : Type ℓ} {S : Type κ} {H : Type μ} ⦃u : Uninit A⦄ ⦃al : Allocator H⦄
    (src : Source A S H) where
  -- The state and the block of `n` slots: both are asked for before either is looked at, and no
  -- block is asked for where `n` is 0.
  pub adapt_group {ν} : {T : Type ν} → ℕ → (S → List A → T) → S → H → Option T × H
  unfolding fresh
  adapt_group n make s h =
      let size = sizeof_group src al.handle_size in
      let block = bytes n src.elem_size in
      if n == 0
      then elim (al.alloc size h) [
        | none ↦ (none, src.destroy s h)
        | some h₁ ↦ (some (make s []), h₁)
      ]
      else elim (al.alloc size h) [
        | none ↦ elim (al.alloc block h) [
          | none ↦ (none, src.destroy s h)
          | some h₂ ↦ (none, src.destroy s (al.free block h₂))
        ]
        | some h₁ ↦ elim (al.alloc block h₁) [
          | none ↦ (none, src.destroy s (al.free size h₁))
          | some h₂ ↦ (some (make s (fresh block src.elem_size)), h₂)
        ]
      ]

  pub iter_window : ℕ → Option S → H → Option (Window A S) × H
  unfolding adapt_group
  iter_window n none h = (none, h)
  iter_window n (some s) h =
      adapt_group n (λ t buf. record { source = t; buf = buf; n = n; primed = false }) s h

  pub iter_chunks : ℕ → Option S → H → Option (Chunk A S) × H
  unfolding adapt_group
  iter_chunks n none h = (none, h)
  iter_chunks n (some s) h =
      adapt_group n (λ t buf. record { source = t; buf = buf; n = n; done = false }) s h
