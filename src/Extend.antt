-- ===== src/Extend.antt =====
-- src/collection.c: seqc_extend, which adds what an iterator has left to a collection, the functions
-- of the collections that call it, and vec_extend, which has the same steps.
--
-- `none` is a loop that is out of fuel. `coll` is the collection's handle, and `add` its function.
pub mod Adds
pub mod Trees
pub mod Vectors
mod Tests
use seqc.Prelude.{
  ℕ, zero, suc, Bool, true, false, Option, none, some, if◌then◌else◌, ◌==◌, Status, ok, not_found,
  duplicate, oom, invalid, Allocator, Uninit,
}
use seqc.Order.{Compare}
use seqc.Iter.{Next, got, ended, out_of_fuel, Source, iter_next, iter_destroy}
use seqc.Queue.{Queue}
use seqc.Queue as Queues
use seqc.Stack.{Stack}
use seqc.Stack
use seqc.Ringbuf.{Ringbuf}
use seqc.Ringbuf as Ringbufs
use seqc.Bstree.{Bstree}
use seqc.Bstree as Bstrees
use seqc.Avl.{Avl}
use seqc.Avl.Api
use seqc.Vec.{Vec}
use seqc.Vec as Vecs

-- `added != SEQC_OK && added != SEQC_DUPLICATE` stops the loop.
abbrev pub goes_on : Status → Bool
goes_on ok = true
goes_on duplicate = true
goes_on not_found = false
goes_on oom = false
goes_on invalid = false

-- `st != SEQC_OK` stops the loop of `vec_extend`.
abbrev pub only_ok : Status → Bool
only_ok ok = true
only_ok duplicate = false
only_ok not_found = false
only_ok oom = false
only_ok invalid = false

-- `seqc_add_fn`.
abbrev pub AddFn {ℓ κ μ} : Type ℓ → Type κ → Type μ → Type (ℓ ⊔ κ ⊔ μ)
AddFn A C H = Option C → A → H → Status × Option C × H

module _ {ℓ κ μ ν} {A : Type ℓ} {S : Type κ} {H : Type μ} {C : Type ν} (src : Source A S H)
    (goes : Status → Bool) (add : AddFn A C H) where
  -- The loop, with fuel for its rounds; `goes` says after which statuses it goes on.
  pub extend_loop : ℕ → Option C → Option S → H → Option (Status × Option C × Option S × H)
  extend_loop zero coll it h = none
  extend_loop (suc fuel) coll it h = elim (iter_next src it h) [
    | got x it' h' ↦
        let added = add coll x h' in
        elim (goes added.0) [
          | true ↦ extend_loop fuel added.1 it' added.2
          | false ↦ some (added.0, added.1, it', added.2)
        ]
    | ended it' h' ↦ some (ok, coll, it', h')
    | out_of_fuel ↦ none
  ]

module _ {ℓ κ μ ν} {A : Type ℓ} {S : Type κ} {H : Type μ} {C : Type ν} ⦃al : Allocator H⦄
    (src : Source A S H) (add : AddFn A C H) where
  -- What follows the loop.
  pub extended : ℕ → Option (Status × Option C × Option S × H) → Option (Status × Option C × H)
  extended size none = none
  extended size (some (st, coll, it, h)) = some (st, coll, al.free size (iter_destroy src it h))

  -- What `seqc_extend` and `vec_extend` share.
  pub extend_with :
      (Status → Bool) → ℕ → ℕ → Option C → Option S → H → Option (Status × Option C × H)
  unfolding extend_loop extended
  extend_with goes size fuel none it h = some (invalid, none, iter_destroy src it h)
  extend_with goes size fuel (some c) none h = some (invalid, some c, h)
  extend_with goes size fuel (some c) (some s) h =
      if src.elem_size == size
      then elim (al.alloc size h) [
        | none ↦ some (oom, some c, src.destroy s h)
        | some h' ↦ extended size (extend_loop src goes add fuel (some c) (some s) h')
      ]
      else some (invalid, some c, src.destroy s h)

  pub seqc_extend : ℕ → ℕ → Option C → Option S → H → Option (Status × Option C × H)
  unfolding extend_with
  seqc_extend size fuel coll it h = extend_with goes_on size fuel coll it h

module _ {ℓ κ μ} {A : Type ℓ} {S : Type κ} {H : Type μ} ⦃u : Uninit A⦄ ⦃al : Allocator H⦄
    (src : Source A S H) (fuel : ℕ) where
  pub vec_extend : Option (Vec A) → Option S → H → Option (Status × Option (Vec A) × H)
  unfolding extend_with
  vec_extend none it h = some (invalid, none, iter_destroy src it h)
  vec_extend (some v) it h =
      extend_with src (λ coll x. Vecs.push coll (some x)) only_ok v.elem_size fuel (some v) it h

  pub queue_extend : Option (Queue A) → Option S → H → Option (Status × Option (Queue A) × H)
  unfolding seqc_extend
  queue_extend none it h = some (invalid, none, iter_destroy src it h)
  queue_extend (some q) it h =
      seqc_extend src (λ coll x. Queues.push coll (some x)) q.elem_size fuel (some q) it h

  pub ringbuf_extend : Option (Ringbuf A) → Option S → H → Option (Status × Option (Ringbuf A) × H)
  unfolding seqc_extend
  ringbuf_extend none it h = some (invalid, none, iter_destroy src it h)
  ringbuf_extend (some r) it h =
      seqc_extend src (λ coll x. Ringbufs.push_back coll (some x)) r.elem_size fuel (some r) it h

  pub stack_extend : Option (Stack A) → Option S → H → Option (Status × Option (Stack A) × H)
  unfolding seqc_extend
  stack_extend none it h = some (invalid, none, iter_destroy src it h)
  stack_extend (some s) it h =
      seqc_extend src (λ coll x. Stack.push coll (some x)) (Vecs.elem_size s.vec) fuel (some s) it h

module _ {ℓ κ μ} {A : Type ℓ} {S : Type κ} {H : Type μ} ⦃o : Compare A⦄ ⦃al : Allocator H⦄
    (src : Source A S H) (fuel : ℕ) where
  pub bstree_extend : Option (Bstree A) → Option S → H → Option (Status × Option (Bstree A) × H)
  unfolding seqc_extend
  bstree_extend none it h = some (invalid, none, iter_destroy src it h)
  bstree_extend (some t) it h =
      seqc_extend src (λ coll x. Bstrees.add coll (some x)) t.elem_size fuel (some t) it h

  pub avl_extend : Option (Avl A) → Option S → H → Option (Status × Option (Avl A) × H)
  unfolding seqc_extend
  avl_extend none it h = some (invalid, none, iter_destroy src it h)
  avl_extend (some t) it h =
      seqc_extend src (λ coll x. Api.add coll (some x)) t.elem_size fuel (some t) it h
