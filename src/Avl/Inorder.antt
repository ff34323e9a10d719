-- ===== src/Avl/Inorder.antt =====
-- The elements of a tree in order, which rotations leave alone.
use seqc.Prelude.{
  ℕ, ◌≡◌, refl, sym, ap, ◌∙◌, Bool, true, false, not, ◌&&◌, if◌then◌else◌, List, [], ◌∷◌, ◌++◌,
  append_assoc,
}
use seqc.Prelude.Int.{ltb_ℤ, pos, negsuc}
use seqc.Avl.{Tree, leaf, node, update_height, balance_factor, rotate_left, rotate_right, rebalance}

module _ {ℓ} {A : Type ℓ} where
  unfoldable pub to_list : Tree A → List A
  to_list leaf = []
  to_list (node l x h r) = to_list l ++ (x ∷ to_list r)

  to_list-rotate_right : (t : Tree A) → to_list (rotate_right t) ≡ to_list t
  unfolding to_list rotate_right
  to_list-rotate_right (node (node a x hx b) y hy c) =
      sym (append_assoc (to_list a) (x ∷ to_list b) (y ∷ to_list c))
  to_list-rotate_right (node leaf y hy c) = refl
  to_list-rotate_right leaf = refl

  to_list-rotate_left : (t : Tree A) → to_list (rotate_left t) ≡ to_list t
  unfolding to_list rotate_left
  to_list-rotate_left (node a x hx (node b y hy c)) =
      append_assoc (to_list a) (x ∷ to_list b) (y ∷ to_list c)
  to_list-rotate_left (node a x hx leaf) = refl
  to_list-rotate_left leaf = refl

  to_list-if :
      {xs : List A} (b : Bool) (s t : Tree A)
      → to_list s ≡ xs
      → to_list t ≡ xs
      → to_list (if b then s else t) ≡ xs
  to_list-if true s t p q = p
  to_list-if false s t p q = q

  -- rebalance leaves the elements and their order as they were.
  pub to_list-rebalance :
      (l : Tree A) (x : A) (h : ℕ) (r : Tree A)
      → to_list (rebalance (node l x h r)) ≡ to_list l ++ (x ∷ to_list r)
  unfolding to_list rebalance
  to_list-rebalance l x h r =
      let n = update_height l x r in
      let bf = balance_factor n in
      let two_left = rotate_right (node (rotate_left l) x h r) in
      let two_right = rotate_left (node l x h (rotate_right r)) in
      let rl = ltb_ℤ bf (negsuc 0) && ltb_ℤ (pos 0) (balance_factor r) in
      let rr = ltb_ℤ bf (negsuc 0) && not (ltb_ℤ (pos 0) (balance_factor r)) in
      let lr = ltb_ℤ (pos 1) bf && ltb_ℤ (balance_factor l) (pos 0) in
      let ll = ltb_ℤ (pos 1) bf && not (ltb_ℤ (balance_factor l) (pos 0)) in
      let fourth = if rl then two_right else n in
      let third = if rr then rotate_left n else fourth in
      let second = if lr then two_left else third in
      to_list-if ll (rotate_right n) second (to_list-rotate_right n) (
        to_list-if lr two_left third
          (to_list-rotate_right (node (rotate_left l) x h r)
            ∙ ap (λ (xs : List A). xs ++ (x ∷ to_list r)) (to_list-rotate_left l))
          (to_list-if rr (rotate_left n) fourth (to_list-rotate_left n) (
            to_list-if rl two_right n
              (to_list-rotate_left (node l x h (rotate_right r))
                ∙ ap (λ (xs : List A). to_list l ++ (x ∷ xs)) (to_list-rotate_right r))
              refl)))
