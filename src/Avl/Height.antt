-- ===== src/Avl/Height.antt =====
-- How high a tree of src/avl/avl.c gets, and stays whatever avl_add and avl_remove are called.
use native.Mathlib.Nat.{pow-suc, pow-le-pow_right}
use seqc.Prelude.{
  suc, ◌+◌, ◌-◌, ◌*◌, ◌/◌, ◌^◌, ◌≤◌, ◌≡◌, length, length-append, ◌∷◌, ◌<◌, refl, ap, List, [],
  Option, Allocator, size_mod, some, Bool-cases, inl, inr, ltb, arith,
}
use seqc.Order.{Compare}
use seqc.Avl.{Tree, leaf, node, Avl, node_height, height, len}
use seqc.Avl.Balance.{IsAvl}
use seqc.Avl.Inorder.{to_list}
use seqc.Avl.Methods.{IsValid, avl_add-Added, avl_remove-Taken}
use seqc.Avl.Api.{add, remove}
use seqc.Order.Sorted.{length-add, length-remove}

module _ {ℓ} {A : Type ℓ} where
  height_lem : (t : Tree A) → IsAvl t → 2 ^ (node_height t / 2) ≤ length (to_list t) + 1
  unfolding node_height to_list
  height_lem leaf p = omega arith
  height_lem (node l x h r) (pl, pr, ph, low, high) =
      let k = h / 2 - 1 in
      let count = length-append (to_list l) (x ∷ to_list r) in
      elim (Bool-cases (ltb h 2)) [
        | inl low_tree ↦ let flat : h / 2 ≡ 0 = ground arith in rw flat (omega arith)
        | inr tall ↦
            let up : h / 2 ≡ suc k = ground arith in
            let double : 2 ^ suc k ≡ 2 ^ k * 2 = pow-suc 2 k in
            let on_left : 2 ^ k ≤ 2 ^ (node_height l / 2) =
              pow-le-pow_right (omega arith) (ground (arith, ph, low, high, tall)) in
            let on_right : 2 ^ k ≤ 2 ^ (node_height r / 2) =
              pow-le-pow_right (omega arith) (ground (arith, ph, low, high, tall)) in
            rw (up, double)
              (omega (arith, on_left, on_right, height_lem l pl, height_lem r pr, count))
      ]

  room_lem : (t : Tree A) → IsAvl t → length (to_list t) + 1 ≤ 2 ^ node_height t
  unfolding node_height to_list
  room_lem leaf p = omega arith
  room_lem (node l x h r) (pl, pr, ph, low, high) =
      let k = h - 1 in
      let count = length-append (to_list l) (x ∷ to_list r) in
      let up : h ≡ suc k = ground (arith, ph) in
      let double : 2 ^ suc k ≡ 2 ^ k * 2 = pow-suc 2 k in
      let on_left : 2 ^ node_height l ≤ 2 ^ k =
        pow-le-pow_right (omega arith) (ground (arith, ph)) in
      let on_right : 2 ^ node_height r ≤ 2 ^ k =
        pow-le-pow_right (omega arith) (ground (arith, ph)) in
      rw (up, double) (omega (arith, on_left, on_right, room_lem l pl, room_lem r pr, count))

-- What a client calls: avl_add or avl_remove of an element.
pub data Change {ℓ} (A : Type ℓ) : Type ℓ where
  adding : A → Change A
  removing : A → Change A

module _ {ℓ κ} {A : Type ℓ} {H : Type κ} ⦃o : Compare A⦄ ⦃al : Allocator H⦄ where
  -- The handle and the heap after a sequence of calls.
  pub changed : List (Change A) → Option (Avl A) → H → Option (Avl A) × H
  changed [] t h = (t, h)
  changed (adding x ∷ cs) t h = let done = add t (some x) h in changed cs done.1 done.2
  changed (removing x ∷ cs) t h = let done = remove t (some x) h in changed cs done.1 done.2

module _ {ℓ} {A : Type ℓ} ⦃o : Compare A⦄ where
  -- The height fits the number of elements, from both sides.
  abbrev pub IsLow : Avl A → Type 0
  IsLow t =
      (2 ^ (height (some t) / 2) ≤ len (some t) + 1) × (len (some t) + 1 ≤ 2 ^ height (some t))

  IsValid-IsLow : (t : Avl A) → IsValid t → IsLow t
  unfolding height len
  IsValid-IsLow t valid = (
    omega (arith, valid.counted, height_lem t.root valid.balanced),
    omega (arith, valid.counted, room_lem t.root valid.balanced),
  )

module _ {ℓ κ} {A : Type ℓ} {H : Type κ} ⦃o : Compare A⦄ ⦃al : Allocator H⦄ where
  -- Whatever sequence of avl_add and avl_remove a client calls on a valid tree whose len can grow
  -- by their number, also where the allocator refuses nodes, the tree is valid and avl_height fits
  -- avl_len: two to the half of the height is at most len + 1, which is at most two to the height.
  pub avl_changed-IsLow :
      (cs : List (Change A)) (t : Avl A) (h : H)
      → IsValid t
      → t.len + length cs < size_mod
      → (t' : Avl A) × (h' : H) × (changed cs (some t) h ≡ (some t', h')) × IsValid t' × IsLow t'
  unfolding changed
  avl_changed-IsLow [] t h valid room = (t, h, refl, valid, IsValid-IsLow t valid)
  avl_changed-IsLow (adding x ∷ cs) t h valid room =
      elim (avl_add-Added t x h valid (omega arith)) [
        | inl (failed, refused) ↦
            let (t', h', e, good', low) = avl_changed-IsLow cs t h valid (omega arith) in
            (t', h', rw (failed, changed) e, good', low)
        | inr (t₁, h₁, done, good, elements, size) ↦
            let count = length-add x (to_list t.root) valid.ordered in
            let grown : t₁.len + length cs < size_mod =
              ground (arith, good.counted, valid.counted, ap length elements, count) in
            let (t', h', e, good', low) = avl_changed-IsLow cs t₁ h₁ good grown in
            (t', h', rw (done, changed) e, good', low)
      ]
  avl_changed-IsLow (removing x ∷ cs) t h valid room =
      let (t₁, h₁, done, good, elements, size) = avl_remove-Taken t x h valid in
      let count = length-remove x (to_list t.root) valid.ordered in
      let shrunk : t₁.len + length cs < size_mod =
        ground (arith, good.counted, valid.counted, ap length elements, count) in
      let (t', h', e, good', low) = avl_changed-IsLow cs t₁ h₁ good shrunk in
      (t', h', rw (done, changed) e, good', low)
