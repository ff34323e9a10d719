-- ===== src/Avl/Iter.antt =====
-- The in-order iterators of src/avl/avl.c, avl_iter and avl_iter_rev: their state, whose
-- stack of nodes grows by reallocation, and a step.
pub mod Forward
pub mod Backward
pub mod Both
pub mod Open
pub mod Range
use mathlib.Core.List.{reverse-append}
use seqc.Prelude.{
  ℕ, ◌*◌, ◌%◌, ◌≡◌, refl, sym, ap, ◌∙◌, ◌⊎◌, inl, inr, Bool, true, false, Option, none, some,
  if◌then◌else◌, ◌==◌, Bool-cases, Option-cases, List, [], ◌∷◌, ◌++◌, append_assoc, append-nil,
  reverse, length, size_mod, bytes, Allocator, arith,
}
use seqc.Prelude.Collect.{collect, Yields, collect_lem}
use seqc.Avl.{Tree, leaf, node, Avl}
use seqc.Avl.Inorder.{to_list}

-- What a pointer to a node shows: its left child, its element and its right child.
pub record Node {ℓ} (A : Type ℓ) : Type ℓ where
  pub left : Tree A
  pub elem : A
  pub right : Tree A

-- `avl_iter_state_t`. The head of the list is the top of the stack, its length is `stack_len`,
-- and `current` is the node to push next, or NULL.
pub record IterState {ℓ} (A : Type ℓ) : Type ℓ where
  pub stack : List (Node A)
  pub stack_cap : ℕ
  pub current : Tree A

abbrev init_cap : ℕ
init_cap = 16

module _ {ℓ} {A : Type ℓ} where
  -- The state that `avl_iter` and `avl_iter_rev` set up.
  unfoldable pub iter : Avl A → IterState A
  iter t = record { stack = []; stack_cap = 0; current = t.root }

  -- The capacity that a full stack is moved to.
  pub grown_cap : IterState A → ℕ
  grown_cap s = if s.stack_cap == 0 then init_cap else s.stack_cap * 2 % size_mod

module _ {ℓ κ} {A : Type ℓ} {H : Type κ} ⦃al : Allocator H⦄ where
  -- `avl_stack_push`, with pointers of 8 bytes; `none` is its result false.
  unfoldable pub stack_push : IterState A → Node A → H → Option (IterState A × H)
  stack_push s n h =
      if length s.stack == s.stack_cap
      then elim (al.realloc (bytes s.stack_cap 8) (bytes (grown_cap s) 8) h) [
        | none ↦ none
        | some h' ↦ some (record s { stack = n ∷ s.stack; stack_cap = grown_cap s }, h')
      ]
      else some (record s { stack = n ∷ s.stack }, h)

  -- The `while (s->current)` loop of `avl_iter_next`, from `current` on: false where a push
  -- failed.
  unfoldable pub descend : Tree A → IterState A → H → Bool × IterState A × H
  unfolding stack_push
  descend leaf s h = (true, record s { current = leaf }, h)
  descend (node l x k r) s h = elim (stack_push s (record { left = l; elem = x; right = r }) h) [
    | none ↦ (false, record s { current = node l x k r }, h)
    | some (s', h') ↦ descend l s' h'
  ]

  -- The rest of `avl_iter_next` after that loop. `none` is the result false.
  pub pop_top : Bool × IterState A × H → Option A × IterState A × H
  pop_top (pushed, s, h) =
      if pushed
      then elim s.stack [
        | [] ↦ (none, s, h)
        | n ∷ rest ↦ (some n.elem, record s { stack = rest; current = n.right }, h)
      ]
      else (none, s, h)

  unfoldable pub iter_next : IterState A → H → Option A × IterState A × H
  unfolding descend pop_top
  iter_next s h = pop_top (descend s.current s h)

  -- The same loop in `avl_iter_rev_next`.
  pub descend_rev : Tree A → IterState A → H → Bool × IterState A × H
  unfolding stack_push
  descend_rev leaf s h = (true, record s { current = leaf }, h)
  descend_rev (node l x k r) s h =
      elim (stack_push s (record { left = l; elem = x; right = r }) h) [
        | none ↦ (false, record s { current = node l x k r }, h)
        | some (s', h') ↦ descend_rev r s' h'
      ]

  -- The rest of `avl_iter_rev_next` after that loop. `none` is the result false.
  pub pop_top_rev : Bool × IterState A × H → Option A × IterState A × H
  pop_top_rev (pushed, s, h) =
      if pushed
      then elim s.stack [
        | [] ↦ (none, s, h)
        | n ∷ rest ↦ (some n.elem, record s { stack = rest; current = n.left }, h)
      ]
      else (none, s, h)

  unfoldable pub iter_rev_next : IterState A → H → Option A × IterState A × H
  unfolding descend_rev pop_top_rev
  iter_rev_next s h = pop_top_rev (descend_rev s.current s h)

module _ {ℓ} {A : Type ℓ} where
  -- The elements that the nodes of the stack still have to yield.
  unfoldable pub stacked : List (Node A) → List A
  stacked [] = []
  stacked (n ∷ ns) = n.elem ∷ (to_list n.right ++ stacked ns)

  pub stacked_rev : List (Node A) → List A
  stacked_rev [] = []
  stacked_rev (n ∷ ns) = n.elem ∷ (reverse (to_list n.left) ++ stacked_rev ns)

  -- What is left to yield.
  unfoldable pub pending : IterState A → List A
  unfolding stacked
  pending s = to_list s.current ++ stacked s.stack

  pub pending_rev : IterState A → List A
  unfolding stacked_rev
  pending_rev s = reverse (to_list s.current) ++ stacked_rev s.stack

module _ {ℓ κ} {A : Type ℓ} {H : Type κ} ⦃al : Allocator H⦄ where
  -- The stack is full and the allocator refuses to move it.
  abbrev pub Stuck : IterState A → H → Type κ
  Stuck s h =
      (length s.stack ≡ s.stack_cap)
      × (al.realloc (bytes s.stack_cap 8) (bytes (grown_cap s) 8) h ≡ none)

  pub stack_push_lem :
      (s : IterState A) (n : Node A) (h : H)
      → ((stack_push s n h ≡ none) × Stuck s h)
        ⊎ ((s' : IterState A) × (h' : H) × (stack_push s n h ≡ some (s', h'))
            × (s'.stack ≡ n ∷ s.stack)
            × (s'.current ≡ s.current))
  unfolding stack_push
  stack_push_lem s n h = elim (Bool-cases (length s.stack == s.stack_cap)) [
    | inr room ↦ inr (record s { stack = n ∷ s.stack }, h, rw room, refl, refl)
    | inl full ↦ elim (Option-cases (al.realloc (bytes s.stack_cap 8) (bytes (grown_cap s) 8) h)) [
      | inl e ↦ inl (rw (full, e), (ground arith, e))
      | inr (h', e) ↦
          inr (
            record s { stack = n ∷ s.stack; stack_cap = grown_cap s },
            h',
            rw (full, e),
            refl,
            refl,
          )
    ]
  ]
