-- ===== src/Bstree/Iter/Range.antt =====
-- The range iterator of src/bstree/bstree.c, bstree_iter_range.
pub mod Reads
pub mod Walks
use seqc.Prelude.{
  ℕ, ◌+◌, ◌==◌, bytes, Bool, true, false, Option, none, some, if◌then◌else◌, List, [], ◌∷◌,
  Allocator,
}
use seqc.Order.{Compare, is_lt, is_gt}
use seqc.Bstree.{Tree, leaf, node, Bstree}
use seqc.Bstree.Iter.{Node, IterState, stack_push, descend}

-- `bstree_range_iter_state_t`: the walk, and the upper end.
pub record RangeState {ℓ} (A : Type ℓ) : Type ℓ where
  pub walk : IterState A
  pub hi : Option A

-- `sizeof(bstree_range_iter_state_t)`, with an `allocator_t` of `handle` bytes.
abbrev pub sizeof_range_state : ℕ → ℕ
sizeof_range_state handle = 56 + handle

module _ {ℓ} {A : Type ℓ} ⦃o : Compare A⦄ where
  -- `s->hi && s->cmp(data, s->hi) > 0`
  abbrev pub past_end : Option A → A → Bool
  past_end none x = false
  past_end (some hi) x = is_gt (o.cmp x hi)

  -- `s->cmp(node_data(node), lo) < 0`
  abbrev pub below : A → A → Bool
  below lo x = is_lt (o.cmp x lo)

module _ {ℓ κ} {A : Type ℓ} {H : Type κ} ⦃o : Compare A⦄ where
  -- The rest of `bstree_range_iter_next` after its loop. `none` is the result false.
  pub range_pop : Option A → Bool × IterState A × H → Option A × RangeState A × H
  range_pop hi (pushed, s, h) =
      if pushed
      then elim s.stack [
        | [] ↦ (none, record { walk = s; hi = hi }, h)
        | n ∷ rest ↦
            if past_end hi n.elem
            then (none, record { walk = record s { stack = []; current = leaf }; hi = hi }, h)
            else (
              some n.elem,
              record { walk = record s { stack = rest; current = n.right }; hi = hi },
              h,
            )
      ]
      else (none, record { walk = s; hi = hi }, h)

module _ {ℓ κ} {A : Type ℓ} {H : Type κ} ⦃o : Compare A⦄ ⦃al : Allocator H⦄ where
  pub range_iter_next : RangeState A → H → Option A × RangeState A × H
  unfolding range_pop
  range_iter_next s h = range_pop s.hi (descend s.walk.current s.walk h)

  -- `bstree_push_lo`, which stops where a push fails.
  pub push_lo : A → Tree A → IterState A → H → IterState A × H
  push_lo lo leaf s h = (s, h)
  push_lo lo (node l x r) s h =
      if below lo x
      then push_lo lo r s h
      else elim (stack_push s (record { left = l; elem = x; right = r }) h) [
        | none ↦ (s, h)
        | some (s', h') ↦ push_lo lo l s' h'
      ]

  -- The walk that `bstree_iter_range` sets up: from the root, or from the first element that is not
  -- less than `lo`.
  pub start : Tree A → Option A → H → IterState A × H
  unfolding push_lo
  start t none h = (record { stack = []; stack_cap = 0; current = t }, h)
  start t (some lo) h = push_lo lo t (record { stack = []; stack_cap = 0; current = leaf }) h

module _ {ℓ κ} {A : Type ℓ} {H : Type κ} ⦃al : Allocator H⦄ where
  -- The copy of the upper end, of `size` bytes; `none` where its allocation fails.
  pub copy_hi : ℕ → Option A → H → Option H
  copy_hi size none h = some h
  copy_hi size (some hi) h = al.alloc size h

  -- `bstree_range_iter_drop`. The stack is NULL until the first push.
  pub range_iter_drop : ℕ → RangeState A → H → H
  range_iter_drop size s h =
      let h₁ = if s.walk.stack_cap == 0 then h else al.free (bytes s.walk.stack_cap 8) h in
      let h₂ : H = elim s.hi [ none ↦ h₁ | some b ↦ al.free size h₁ ] in
      al.free (sizeof_range_state al.handle_size) h₂

module _ {ℓ κ} {A : Type ℓ} {H : Type κ} ⦃o : Compare A⦄ ⦃al : Allocator H⦄ where
  pub iter_range : Option (Bstree A) → Option A → Option A → H → Option (RangeState A) × H
  unfolding start copy_hi
  iter_range none lo hi h = (none, h)
  iter_range (some t) lo hi h = elim (al.alloc (sizeof_range_state al.handle_size) h) [
    | none ↦ (none, h)
    | some h₁ ↦ elim (copy_hi t.elem_size hi h₁) [
      | none ↦ (none, al.free (sizeof_range_state al.handle_size) h₁)
      | some h₂ ↦ let (w, h₃) = start t.root lo h₂ in (some (record { walk = w; hi = hi }), h₃)
    ]
  ]
