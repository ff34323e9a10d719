-- ===== src/Omap/Iter.antt =====
-- The iterators of src/omap/omap.c, and omap_extend. The walks with a stack of nodes are those of
-- src/avl/avl.c word for word; an element that they write is the pair of pointers to the key and the
-- value of a node.
pub mod Reads
pub mod Adds
use seqc.Prelude.{
  ℕ, zero, suc, List, [], ◌∷◌, ◌+◌, ◌*◌, ◌%◌, ◌==◌, bytes, Bool, true, false, Option, none, some,
  if◌then◌else◌, Status, ok, invalid, not_found, duplicate, oom, size_mod, Allocator,
}
use seqc.Order.{Compare, is_lt, is_gt}
use seqc.Avl.{Tree, leaf, node}
use seqc.Avl.Iter as Walk
use seqc.Avl.Iter.{IterState}
use seqc.Avl.Iter.Range as Ranges
use seqc.Avl.Iter.Range.{RangeState}
use seqc.Iter.{Source, Next, got, ended, out_of_fuel, iter_next, iter_destroy}
use seqc.Omap.{Entry, Omap, set}

-- `sizeof(omap_iter_state_t)`, with an `allocator_t` of `handle` bytes.
abbrev pub sizeof_iter_state : ℕ → ℕ
sizeof_iter_state handle = 40 + handle

-- `sizeof(omap_entry_t)`, two pointers.
abbrev pub sizeof_entry : ℕ
sizeof_entry = 16

module _ {ℓ κ μ} {K : Type ℓ} {V : Type κ} {H : Type μ} ⦃al : Allocator H⦄ where
  unfoldable pub iter : Option (Omap K V) → H → Option (IterState (Entry K V)) × H
  iter none h = (none, h)
  iter (some m) h = elim (al.alloc (sizeof_iter_state al.handle_size) h) [
    | none ↦ (none, h)
    | some h' ↦ (some (record { stack = []; stack_cap = 0; current = m.root }), h')
  ]

  unfoldable pub omap_iter_next :
      IterState (Entry K V) → H → Option (Entry K V) × IterState (Entry K V) × H
  omap_iter_next s h = Walk.iter_next s h

  unfoldable pub iter_rev : Option (Omap K V) → H → Option (IterState (Entry K V)) × H
  iter_rev none h = (none, h)
  iter_rev (some m) h = elim (al.alloc (sizeof_iter_state al.handle_size) h) [
    | none ↦ (none, h)
    | some h' ↦ (some (record { stack = []; stack_cap = 0; current = m.root }), h')
  ]

  unfoldable pub omap_iter_rev_next :
      IterState (Entry K V) → H → Option (Entry K V) × IterState (Entry K V) × H
  omap_iter_rev_next s h = Walk.iter_rev_next s h

  -- The stack is NULL until the first push.
  pub omap_iter_drop : IterState (Entry K V) → H → H
  omap_iter_drop s h =
      let h' = if s.stack_cap == 0 then h else al.free (bytes s.stack_cap 8) h in
      al.free (sizeof_iter_state al.handle_size) h'

module _ {ℓ κ} {K : Type ℓ} {V : Type κ} ⦃o : Compare K⦄ where
  -- `s->cmp(key, s->hi_key) > 0`
  abbrev pub above : Entry K V → K → Bool
  above e hi = is_gt (o.cmp e.key hi)

  -- `s->cmp(node_key(node), lo_key) < 0`
  abbrev pub below : K → Entry K V → Bool
  below lo e = is_lt (o.cmp e.key lo)

  abbrev pub low_test : Option K → Option (Entry K V → Bool)
  low_test none = none
  low_test (some lo) = some (below lo)

module _ {ℓ κ μ} {K : Type ℓ} {V : Type κ} {H : Type μ} ⦃o : Compare K⦄ ⦃al : Allocator H⦄ where
  unfoldable pub iter_range :
      Option (Omap K V) → Option K → Option K → H → Option (RangeState (Entry K V) K) × H
  iter_range none lo hi h = (none, h)
  iter_range (some m) lo hi h = Ranges.make_range m.key_size m.root (low_test lo) hi h

  unfoldable pub omap_range_iter_next :
      RangeState (Entry K V) K → H → Option (Entry K V) × RangeState (Entry K V) K × H
  omap_range_iter_next s h = Ranges.range_next above s h

  pub omap_range_iter_drop : ℕ → RangeState (Entry K V) K → H → H
  omap_range_iter_drop key_size s h = Ranges.range_drop key_size s h

-- `map_entry_t`: two pointers, either of which may be NULL.
pub record MapEntry {ℓ κ} (K : Type ℓ) (V : Type κ) : Type (ℓ ⊔ κ) where
  pub key : Option K
  pub value : Option V

-- The loop of `omap_extend` goes on while `st == SEQC_OK`.
abbrev pub set_ok : Status → Bool
set_ok ok = true
set_ok duplicate = false
set_ok not_found = false
set_ok oom = false
set_ok invalid = false

module _ {ℓ κ μ ν} {K : Type ℓ} {V : Type κ} {S : Type ν} {H : Type μ} ⦃o : Compare K⦄
    ⦃al : Allocator H⦄ (src : Source (MapEntry K V) S H) where
  -- The loop of `omap_extend`, with fuel for its rounds; `none` is a loop that is out of fuel.
  unfoldable pub extend_loop :
      ℕ → Option (Omap K V) → Option S → H → Option (Status × Option (Omap K V) × Option S × H)
  extend_loop zero m it h = none
  extend_loop (suc fuel) m it h = elim (iter_next src it h) [
    | got e it' h₁ ↦
        let done = set m e.key e.value h₁ in
        let rest = extend_loop fuel done.1 it' done.2 in
        if set_ok done.0 then rest else some (done.0, done.1, it', done.2)
    | ended it' h' ↦ some (ok, m, it', h')
    | out_of_fuel ↦ none
  ]

  unfoldable pub omap_extend :
      ℕ → Option (Omap K V) → Option S → H → Option (Status × Option (Omap K V) × H)
  unfolding extend_loop
  omap_extend fuel none it h = some (invalid, none, iter_destroy src it h)
  omap_extend fuel (some m) none h = some (invalid, some m, h)
  omap_extend fuel (some m) (some s) h =
      if src.elem_size == sizeof_entry
      then elim (extend_loop fuel (some m) (some s) h) [
        | none ↦ none
        | some (st, m', it, h') ↦ some (st, m', iter_destroy src it h')
      ]
      else some (invalid, some m, src.destroy s h)
