-- ===== src/Avl/Balance.antt =====
-- `rebalance` restores the AVL balance after a subtree grew or shrank by one level.
use native.Mathlib.Decide.{dec_le}
use seqc.Prelude.{ℕ, suc, ◌+◌, ◌≤◌, ◌<◌, ◌≡◌, ◌∙◌, true, false, arith, lt→ltb, le→ltb, max}
use seqc.Prelude.Int.{above_one, below_minus_one, below_zero, above_zero, ltb_ℤ, sub_ℕ, pos, negsuc}
use seqc.Avl.{Tree, leaf, node, node_height, max2, update_height, rebalance}

max2_lem : (a b : ℕ) → max2 a b ≡ max a b
unfolding max2
max2_lem a b = ground arith

-- The tests of `rebalance`, from the heights that they compare.
module _ (a b : ℕ) where
  high : b + 1 < a → ltb_ℤ (pos 1) (sub_ℕ a b) ≡ true
  high h = above_one a b ∙ lt→ltb (b + 1) a h

  not_high : a ≤ b + 1 → ltb_ℤ (pos 1) (sub_ℕ a b) ≡ false
  not_high h = above_one a b ∙ le→ltb (b + 1) a h

  low : a + 1 < b → ltb_ℤ (sub_ℕ a b) (negsuc 0) ≡ true
  low h = below_minus_one a b ∙ lt→ltb (a + 1) b h

  not_low : b ≤ a + 1 → ltb_ℤ (sub_ℕ a b) (negsuc 0) ≡ false
  not_low h = below_minus_one a b ∙ le→ltb (a + 1) b h

  right_leaning : a < b → ltb_ℤ (sub_ℕ a b) (pos 0) ≡ true
  right_leaning h = below_zero a b ∙ lt→ltb a b h

  not_right_leaning : b ≤ a → ltb_ℤ (sub_ℕ a b) (pos 0) ≡ false
  not_right_leaning h = below_zero a b ∙ le→ltb a b h

  left_leaning : b < a → ltb_ℤ (pos 0) (sub_ℕ a b) ≡ true
  left_leaning h = above_zero a b ∙ lt→ltb b a h

  not_left_leaning : a ≤ b → ltb_ℤ (pos 0) (sub_ℕ a b) ≡ false
  not_left_leaning h = above_zero a b ∙ le→ltb b a h

module _ {ℓ} {A : Type ℓ} where
  -- Heights are right, and those of siblings differ by one at most.
  abbrev pub IsAvl : Tree A → Type 0
  IsAvl leaf = Unit
  IsAvl (node l x h r) =
      IsAvl l
      × IsAvl r
      × (h ≡ suc (max (node_height l) (node_height r)))
      × (node_height l ≤ node_height r + 1)
      × (node_height r ≤ node_height l + 1)

  height-update_height :
      (l : Tree A) (x : A) (r : Tree A)
      → node_height (update_height l x r) ≡ suc (max (node_height l) (node_height r))
  unfolding update_height
  height-update_height l x r = omega (arith, max2_lem (node_height l) (node_height r))

  update_height-IsAvl :
      (l : Tree A) (x : A) (r : Tree A)
      → IsAvl l
      → IsAvl r
      → node_height l ≤ node_height r + 1
      → node_height r ≤ node_height l + 1
      → IsAvl (update_height l x r)
  unfolding update_height
  update_height-IsAvl l x r p q s t =
      (p, q, omega (arith, max2_lem (node_height l) (node_height r)), s, t)

  -- Where the left subtree is two levels higher, and leans to the left or not at all.
  rebalance_ll :
      (a : Tree A) (y : A) (hy : ℕ) (b : Tree A) (x : A) (h : ℕ) (r : Tree A)
      → node_height r + 1 < hy
      → node_height b ≤ node_height a
      → rebalance (node (node a y hy b) x h r) ≡ update_height a y (update_height b x r)
  unfolding rebalance
  rebalance_ll a y hy b x h r p q =
      rw (high hy (node_height r) p, not_right_leaning (node_height a) (node_height b) q)

  rebalance_lr :
      (a : Tree A) (y : A) (hy : ℕ) (b₁ : Tree A) (z : A) (hz : ℕ) (b₂ : Tree A) (x : A) (h : ℕ)
      (r : Tree A)
      → node_height r + 1 < hy
      → node_height a < hz
      → rebalance (node (node a y hy (node b₁ z hz b₂)) x h r)
        ≡ update_height (update_height a y b₁) z (update_height b₂ x r)
  unfolding rebalance
  rebalance_lr a y hy b₁ z hz b₂ x h r p q =
      rw (high hy (node_height r) p, right_leaning (node_height a) hz q)

  rebalance_rr :
      (l : Tree A) (x : A) (h : ℕ) (a : Tree A) (y : A) (hy : ℕ) (b : Tree A)
      → node_height l + 1 < hy
      → node_height a ≤ node_height b
      → rebalance (node l x h (node a y hy b)) ≡ update_height (update_height l x a) y b
  unfolding rebalance
  rebalance_rr l x h a y hy b p q = rw (
    not_high (node_height l) hy (omega arith),
    low (node_height l) hy p,
    not_left_leaning (node_height a) (node_height b) q,
  )

  rebalance_rl :
      (l : Tree A) (x : A) (h : ℕ) (a₁ : Tree A) (z : A) (hz : ℕ) (a₂ : Tree A) (y : A) (hy : ℕ)
      (b : Tree A)
      → node_height l + 1 < hy
      → node_height b < hz
      → rebalance (node l x h (node (node a₁ z hz a₂) y hy b))
        ≡ update_height (update_height l x a₁) z (update_height a₂ y b)
  unfolding rebalance
  rebalance_rl l x h a₁ z hz a₂ y hy b p q = rw (
    not_high (node_height l) hy (omega arith),
    low (node_height l) hy p,
    left_leaning hz (node_height b) q,
  )

  rebalance_even :
      (l : Tree A) (x : A) (h : ℕ) (r : Tree A)
      → node_height l ≤ node_height r + 1
      → node_height r ≤ node_height l + 1
      → rebalance (node l x h r) ≡ update_height l x r
  unfolding rebalance
  rebalance_even l x h r p q =
      rw (not_high (node_height l) (node_height r) p, not_low (node_height l) (node_height r) q)

  -- What is proved of a node whose children differ by two levels at most.
  pub record Rebalanced (l r t : Tree A) : Type 0 where
    pub balanced : IsAvl t
    pub at_least : max (node_height l) (node_height r) ≤ node_height t
    pub at_most : node_height t ≤ suc (max (node_height l) (node_height r))
    pub even :
        node_height l ≤ node_height r + 1
        → node_height r ≤ node_height l + 1
        → node_height t ≡ suc (max (node_height l) (node_height r))

  -- One rotation: `mid` goes to the other side.
  single_right :
      (a : Tree A) (y : A) (hy : ℕ) (b : Tree A) (x : A) (h : ℕ) (r : Tree A)
      → IsAvl (node a y hy b)
      → IsAvl r
      → hy ≡ node_height r + 2
      → node_height b ≤ node_height a
      → Rebalanced (node a y hy b) r (rebalance (node (node a y hy b) x h r))
  unfolding node_height
  single_right a y hy b x h r (pa, pb, ph, pl, pr) q e s =
      let inner = height-update_height b x r in
      let outer = height-update_height a y (update_height b x r) in
      rw (rebalance_ll a y hy b x h r (omega arith) s) (record {
        balanced =
            update_height-IsAvl a y (update_height b x r) pa
              (update_height-IsAvl b x r pb q (omega arith) (omega arith)) (omega arith)
              (omega arith);
        at_least = omega arith;
        at_most = omega arith;
        even = λ s t. absurd (omega arith);
      })

  single_left :
      (l : Tree A) (x : A) (h : ℕ) (a : Tree A) (y : A) (hy : ℕ) (b : Tree A)
      → IsAvl l
      → IsAvl (node a y hy b)
      → hy ≡ node_height l + 2
      → node_height a ≤ node_height b
      → Rebalanced l (node a y hy b) (rebalance (node l x h (node a y hy b)))
  unfolding node_height
  single_left l x h a y hy b q (pa, pb, ph, pl, pr) e s =
      let inner = height-update_height l x a in
      let outer = height-update_height (update_height l x a) y b in
      rw (rebalance_rr l x h a y hy b (omega arith) s) (record {
        balanced =
            update_height-IsAvl (update_height l x a) y b
              (update_height-IsAvl l x a q pa (omega arith) (omega arith)) pb (omega arith)
              (omega arith);
        at_least = omega arith;
        at_most = omega arith;
        even = λ s t. absurd (omega arith);
      })

  -- Two rotations: the middle node `z` goes to the top.
  double_right :
      (a : Tree A) (y : A) (hy : ℕ) (b₁ : Tree A) (z : A) (hz : ℕ) (b₂ : Tree A) (x : A) (h : ℕ)
      (r : Tree A)
      → IsAvl (node a y hy (node b₁ z hz b₂))
      → IsAvl r
      → hy ≡ node_height r + 2
      → node_height a < hz
      → Rebalanced
          (node a y hy (node b₁ z hz b₂))
          r
          (rebalance (node (node a y hy (node b₁ z hz b₂)) x h r))
  unfolding node_height
  double_right a y hy b₁ z hz b₂ x h r (pa, (p₁, p₂, pz, pl, pr), ph, ql, qr) q e s =
      let left = height-update_height a y b₁ in
      let right = height-update_height b₂ x r in
      let outer = height-update_height (update_height a y b₁) z (update_height b₂ x r) in
      rw (rebalance_lr a y hy b₁ z hz b₂ x h r (omega arith) s) (record {
        balanced =
            update_height-IsAvl (update_height a y b₁) z (update_height b₂ x r)
              (update_height-IsAvl a y b₁ pa p₁ (omega arith) (omega arith))
              (update_height-IsAvl b₂ x r p₂ q (omega arith) (omega arith)) (omega arith)
              (omega arith);
        at_least = omega arith;
        at_most = omega arith;
        even = λ s t. absurd (omega arith);
      })

  double_left :
      (l : Tree A) (x : A) (h : ℕ) (a₁ : Tree A) (z : A) (hz : ℕ) (a₂ : Tree A) (y : A) (hy : ℕ)
      (b : Tree A)
      → IsAvl l
      → IsAvl (node (node a₁ z hz a₂) y hy b)
      → hy ≡ node_height l + 2
      → node_height b < hz
      → Rebalanced l
          (node (node a₁ z hz a₂) y hy b)
          (rebalance (node l x h (node (node a₁ z hz a₂) y hy b)))
  unfolding node_height
  double_left l x h a₁ z hz a₂ y hy b q ((p₁, p₂, pz, pl, pr), pb, ph, ql, qr) e s =
      let left = height-update_height l x a₁ in
      let right = height-update_height a₂ y b in
      let outer = height-update_height (update_height l x a₁) z (update_height a₂ y b) in
      rw (rebalance_rl l x h a₁ z hz a₂ y hy b (omega arith) s) (record {
        balanced =
            update_height-IsAvl (update_height l x a₁) z (update_height a₂ y b)
              (update_height-IsAvl l x a₁ q p₁ (omega arith) (omega arith))
              (update_height-IsAvl a₂ y b p₂ pb (omega arith) (omega arith)) (omega arith)
              (omega arith);
        at_least = omega arith;
        at_most = omega arith;
        even = λ s t. absurd (omega arith);
      })

  left_high :
      (l : Tree A) (x : A) (h : ℕ) (r : Tree A)
      → IsAvl l
      → IsAvl r
      → node_height l ≡ node_height r + 2
      → Rebalanced l r (rebalance (node l x h r))
  unfolding node_height
  left_high leaf x h r p q e = absurd (omega arith)
  left_high (node a y hy leaf) x h r p q e = single_right a y hy leaf x h r p q e (omega arith)
  left_high (node a y hy (node b₁ z hz b₂)) x h r p q e = elim (dec_le hz (node_height a)) [
    | yes le ↦ single_right a y hy (node b₁ z hz b₂) x h r p q e le
    | no gt ↦ double_right a y hy b₁ z hz b₂ x h r p q e (omega arith)
  ]

  right_high :
      (l : Tree A) (x : A) (h : ℕ) (r : Tree A)
      → IsAvl l
      → IsAvl r
      → node_height r ≡ node_height l + 2
      → Rebalanced l r (rebalance (node l x h r))
  unfolding node_height
  right_high l x h leaf p q e = absurd (omega arith)
  right_high l x h (node leaf y hy b) p q e = single_left l x h leaf y hy b p q e (omega arith)
  right_high l x h (node (node a₁ z hz a₂) y hy b) p q e = elim (dec_le hz (node_height b)) [
    | yes le ↦ single_left l x h (node a₁ z hz a₂) y hy b p q e le
    | no gt ↦ double_left l x h a₁ z hz a₂ y hy b p q e (omega arith)
  ]

  -- rebalance makes a balanced tree with right heights of any node whose balanced subtrees differ
  -- by two levels at most; its height is the greater of the subtrees or one more, and one more
  -- where they differ by at most one.
  pub rebalance-Rebalanced :
      (l : Tree A) (x : A) (h : ℕ) (r : Tree A)
      → IsAvl l
      → IsAvl r
      → node_height l ≤ node_height r + 2
      → node_height r ≤ node_height l + 2
      → Rebalanced l r (rebalance (node l x h r))
  rebalance-Rebalanced l x h r p q s t = elim (dec_le (node_height l) (node_height r + 1)) [
    | no high ↦ left_high l x h r p q (omega arith)
    | yes below ↦ elim (dec_le (node_height r) (node_height l + 1)) [
      | no high ↦ right_high l x h r p q (omega arith)
      | yes above ↦
          let size = height-update_height l x r in
          rw (rebalance_even l x h r below above) (record {
            balanced = update_height-IsAvl l x r p q below above;
            at_least = omega arith;
            at_most = omega arith;
            even = λ s t. size;
          })
    ]
  ]
