-- ===== src/Iter/Terminal.antt =====
-- The terminals of src/iter/iter.c that keep no elements: iter_count, iter_foreach, iter_reduce,
-- iter_find, iter_any, iter_all, iter_min and iter_max.
--
-- Their loops have fuel for their rounds. `none` is a loop that is out of fuel.
pub mod Result
pub mod Folds
pub mod Extreme
mod Tests
use seqc.Prelude.{
  ℕ, zero, suc, ◌+◌, ◌%◌, Bool, true, false, not, Option, none, some, leb, if◌then◌else◌, size_mod,
  Allocator,
}
use Prim.Native.Nat.{Ordering}
use seqc.Order.{is_lt, is_gt}
use seqc.Iter.{Next, got, ended, out_of_fuel, Source, iter_next, iter_destroy}

-- SEQC_SCRATCH_MAX.
abbrev pub scratch_max : ℕ
scratch_max = 512

module _ {μ} {H : Type μ} ⦃al : Allocator H⦄ where
  -- `stack_buf` itself, or a block.
  pub scratch_acquire : ℕ → H → Option H
  scratch_acquire elem_size h = if leb elem_size scratch_max then some h else al.alloc elem_size h

  pub scratch_release : ℕ → H → H
  scratch_release elem_size h = if leb elem_size scratch_max then h else al.free elem_size h

module _ {ℓ κ μ} {A : Type ℓ} {S : Type κ} {H : Type μ} (src : Source A S H) where
  -- `it.elem_size`, 0 in a failed iterator.
  abbrev pub iter_elem_size : Option S → ℕ
  iter_elem_size none = 0
  iter_elem_size (some s) = src.elem_size

module _ {ℓ κ μ ν} {A : Type ℓ} {S : Type κ} {H : Type μ} {B : Type ν} (src : Source A S H) where
  -- `while (iter_next(&it, tmp))`: `body` works on what the terminal keeps, and the loop is left as
  -- soon as `stop` holds.
  pub each_next : (B → A → B) → (B → Bool) → ℕ → B → Option S → H → Option (B × Option S × H)
  each_next body stop zero b it h = none
  each_next body stop (suc fuel) b it h = elim (iter_next src it h) [
    | got x it' h' ↦
        let b' = body b x in
        elim (stop b') [ true ↦ some (b', it', h') | false ↦ each_next body stop fuel b' it' h' ]
    | ended it' h' ↦ some (b, it', h')
    | out_of_fuel ↦ none
  ]

module _ {ℓ κ μ ν} {A : Type ℓ} {S : Type κ} {H : Type μ} {B : Type ν} ⦃al : Allocator H⦄
    (src : Source A S H) where
  -- `iter_destroy(&it); scratch_release(sbuf, tmp, it.allocator, it.elem_size); return b;`
  pub finish : ℕ → Option (B × Option S × H) → Option (B × H)
  unfolding scratch_release
  finish size none = none
  finish size (some (b, it, h)) = some (b, scratch_release size (iter_destroy src it h))

  -- A terminal with one scratch buffer; `b` is what it returns when there is none.
  pub terminal : (B → A → B) → (B → Bool) → ℕ → B → Option S → H → Option (B × H)
  unfolding scratch_acquire each_next finish
  terminal body stop fuel b it h = elim (scratch_acquire (iter_elem_size src it) h) [
    | none ↦ some (b, iter_destroy src it h)
    | some h' ↦ finish (iter_elem_size src it) (each_next src body stop fuel b it h')
  ]

abbrev pub never {ℓ} : {B : Type ℓ} → B → Bool
never b = false

abbrev pub is_some {ℓ} : {B : Type ℓ} → Option B → Bool
is_some none = false
is_some (some b) = true

-- `if (!found || ...) memcpy(best, cur, elem_size); found = true;`
pub select {ℓ} : {A : Type ℓ} → (A → A → Bool) → Option A → A → Option A
select better none x = some x
select better (some y) x = if better x y then some x else some y

module _ {ℓ κ μ} {A : Type ℓ} {S : Type κ} {H : Type μ} ⦃al : Allocator H⦄
    (src : Source A S H) where
  pub iter_count : ℕ → Option S → H → Option (ℕ × H)
  unfolding terminal
  iter_count fuel it h = terminal src (λ n x. (n + 1) % size_mod) never fuel 0 it h

  -- `visit` moves on what `ctx` points to.
  pub iter_foreach {ν} : {C : Type ν} → (C → A → C) → ℕ → C → Option S → H → Option (C × H)
  unfolding terminal
  iter_foreach visit fuel ctx it h = terminal src visit never fuel ctx it h

  -- `combine` moves on the accumulator, and what `ctx` points to with it.
  pub iter_reduce {ν} : {C : Type ν} → (C → A → C) → ℕ → C → Option S → H → Option (C × H)
  unfolding terminal
  iter_reduce combine fuel acc it h = terminal src combine never fuel acc it h

  -- `some x` is true, with `x` in `out`.
  pub iter_find : (A → Bool) → ℕ → Option S → H → Option (Option A × H)
  unfolding terminal
  iter_find pred fuel it h =
      terminal src (λ found x. if pred x then some x else found) is_some fuel none it h

  pub iter_any : (A → Bool) → ℕ → Option S → H → Option (Bool × H)
  unfolding terminal
  iter_any pred fuel it h =
      terminal src (λ found x. if pred x then true else found) (λ found. found) fuel false it h

  -- Behind the check of the iterator. A terminal without a scratch buffer returns false.
  pub all_valid : (A → Bool) → ℕ → Option S → H → Option (Bool × H)
  unfolding scratch_acquire each_next finish
  all_valid pred fuel it h = elim (scratch_acquire (iter_elem_size src it) h) [
    | none ↦ some (false, iter_destroy src it h)
    | some h' ↦
        finish src (iter_elem_size src it)
          (each_next src (λ all x. if pred x then all else false) not fuel true it h')
  ]

  pub iter_all : (A → Bool) → ℕ → Option S → H → Option (Bool × H)
  unfolding all_valid
  iter_all pred fuel none h = some (false, h)
  iter_all pred fuel (some s) h = all_valid pred fuel (some s) h

  -- The loop of iter_min and iter_max with both buffers, and what follows it.
  pub extreme_loop : (A → A → Bool) → ℕ → ℕ → Option S → H → Option (Option A × H)
  unfolding scratch_release each_next finish select
  extreme_loop better size fuel it h =
      elim (finish src size (each_next src (select better) never fuel none it h)) [
        | none ↦ none
        | some r ↦ some (r.0, scratch_release size r.1)
      ]

  -- Both buffers `best` and `cur` are asked for before either is looked at. To give NULL back does
  -- nothing.
  pub extreme : (A → A → Bool) → ℕ → Option S → H → Option (Option A × H)
  unfolding scratch_acquire scratch_release extreme_loop
  extreme better fuel it h =
      let size = iter_elem_size src it in
      elim (scratch_acquire size h) [
        | none ↦ elim (scratch_acquire size h) [
          | none ↦ some (none, iter_destroy src it h)
          | some h₂ ↦ some (none, scratch_release size (iter_destroy src it h₂))
        ]
        | some h₁ ↦ elim (scratch_acquire size h₁) [
          | none ↦ some (none, scratch_release size (iter_destroy src it h₁))
          | some h₂ ↦ extreme_loop better size fuel it h₂
        ]
      ]

  pub iter_min : (A → A → Ordering) → ℕ → Option S → H → Option (Option A × H)
  unfolding extreme
  iter_min cmp fuel it h = extreme (λ x y. is_lt (cmp x y)) fuel it h

  pub iter_max : (A → A → Ordering) → ℕ → Option S → H → Option (Option A × H)
  unfolding extreme
  iter_max cmp fuel it h = extreme (λ x y. is_gt (cmp x y)) fuel it h
