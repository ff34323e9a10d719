-- ===== src/Avl/Iter/Range.antt =====
-- The range iterator of src/avl/avl.c, avl_iter_range, which src/omap/omap.c has too.
--
-- `below` and `above` are the tests of an element against the ends of the range,
-- `cmp(data, lo) < 0` and `cmp(data, hi) > 0`.
pub mod Reads
pub mod Walks
use seqc.Prelude.{
  ℕ, ◌+◌, ◌==◌, bytes, Bool, true, false, Option, none, some, if◌then◌else◌, List, [], ◌∷◌,
  Allocator,
}
use seqc.Order.{Compare, is_lt, is_gt}
use seqc.Avl.{Tree, leaf, node, Avl}
use seqc.Avl.Iter.{Node, IterState, stack_push, descend}

-- `avl_range_iter_state_t`: the walk, and the upper end.
pub record RangeState {ℓ κ} (A : Type ℓ) (B : Type κ) : Type (ℓ ⊔ κ) where
  pub walk : IterState A
  pub hi : Option B

-- `sizeof(avl_range_iter_state_t)`, with an `allocator_t` of `handle` bytes.
abbrev pub sizeof_range_state : ℕ → ℕ
sizeof_range_state handle = 56 + handle

module _ {ℓ κ} {A : Type ℓ} {B : Type κ} where
  -- `s->hi && s->cmp(data, s->hi) > 0`
  abbrev pub past_end : (A → B → Bool) → A → Option B → Bool
  past_end above x none = false
  past_end above x (some b) = above x b

module _ {ℓ κ μ} {A : Type ℓ} {B : Type κ} {H : Type μ} ⦃al : Allocator H⦄
    (above : A → B → Bool) where
  -- What follows the loop of `avl_range_iter_next`. `none` is the result false.
  unfoldable pub range_pop : Option B → Bool × IterState A × H → Option A × RangeState A B × H
  range_pop hi (pushed, s, h) =
      if pushed
      then elim s.stack [
        | [] ↦ (none, record { walk = s; hi = hi }, h)
        | n ∷ rest ↦
            if past_end above n.elem hi
            then (none, record { walk = record s { stack = []; current = leaf }; hi = hi }, h)
            else (
              some n.elem,
              record { walk = record s { stack = rest; current = n.right }; hi = hi },
              h,
            )
      ]
      else (none, record { walk = s; hi = hi }, h)

  unfoldable pub range_next : RangeState A B → H → Option A × RangeState A B × H
  unfolding range_pop
  range_next s h = range_pop s.hi (descend s.walk.current s.walk h)

module _ {ℓ μ} {A : Type ℓ} {H : Type μ} ⦃al : Allocator H⦄ (below : A → Bool) where
  -- The loop of `avl_push_lo`, which stops where a push fails.
  unfoldable pub push_lo : Tree A → IterState A → H → IterState A × H
  push_lo leaf s h = (s, h)
  push_lo (node l x k r) s h =
      if below x
      then push_lo r s h
      else elim (stack_push s (record { left = l; elem = x; right = r }) h) [
        | none ↦ (s, h)
        | some (s', h') ↦ push_lo l s' h'
      ]

module _ {ℓ μ} {A : Type ℓ} {H : Type μ} ⦃al : Allocator H⦄ where
  -- The walk that `avl_iter_range` sets up: from the root, or from the first element that `lo`, a
  -- test against the lower end, does not hold of.
  unfoldable pub start : Tree A → Option (A → Bool) → H → IterState A × H
  unfolding push_lo
  start t none h = (record { stack = []; stack_cap = 0; current = t }, h)
  start t (some below) h = push_lo below t (record { stack = []; stack_cap = 0; current = leaf }) h

module _ {ℓ κ μ} {A : Type ℓ} {B : Type κ} {H : Type μ} ⦃al : Allocator H⦄ where
  -- `avl_iter_range` behind its test of the handle. `size` is that of an element, which is copied
  -- for the upper end.
  unfoldable pub make_range :
      ℕ → Tree A → Option (A → Bool) → Option B → H → Option (RangeState A B) × H
  unfolding start
  make_range size t lo hi h = elim (al.alloc (sizeof_range_state al.handle_size) h) [
    | none ↦ (none, h)
    | some h₁ ↦
        let copied : Option H = elim hi [ none ↦ some h₁ | some b ↦ al.alloc size h₁ ] in
        elim copied [
          | none ↦ (none, al.free (sizeof_range_state al.handle_size) h₁)
          | some h₂ ↦ let (w, h₃) = start t lo h₂ in (some (record { walk = w; hi = hi }), h₃)
        ]
  ]

  -- `avl_range_iter_drop`. The stack is NULL until the first push.
  pub range_drop : ℕ → RangeState A B → H → H
  range_drop size s h =
      let h₁ = if s.walk.stack_cap == 0 then h else al.free (bytes s.walk.stack_cap 8) h in
      let h₂ : H = elim s.hi [ none ↦ h₁ | some b ↦ al.free size h₁ ] in
      al.free (sizeof_range_state al.handle_size) h₂

module _ {ℓ} {A : Type ℓ} ⦃o : Compare A⦄ where
  abbrev pub above : A → A → Bool
  above x hi = is_gt (o.cmp x hi)

  abbrev pub below : A → A → Bool
  below lo x = is_lt (o.cmp x lo)

  -- The test of `avl_push_lo` against `lo`, if there is one.
  abbrev pub low_test : Option A → Option (A → Bool)
  low_test none = none
  low_test (some lo) = some (below lo)

module _ {ℓ μ} {A : Type ℓ} {H : Type μ} ⦃o : Compare A⦄ ⦃al : Allocator H⦄ where
  unfoldable pub iter_range : Option (Avl A) → Option A → Option A → H → Option (RangeState A A) × H
  unfolding make_range
  iter_range none lo hi h = (none, h)
  iter_range (some t) lo hi h = make_range t.elem_size t.root (low_test lo) hi h

  unfoldable pub range_iter_next : RangeState A A → H → Option A × RangeState A A × H
  unfolding range_next
  range_iter_next s h = range_next above s h
