-- ===== src/Pqueue/Order.antt =====
-- The heap order of src/pqueue/pqueue.c, and what its swaps do to a vector.
use mathlib.Core.List.{Perm}
use mathlib.Core.List.Perm
use seqc.Prelude.{
  ℕ, zero, suc, ◌≤◌, ◌<◌, ◌≡◌, ◌∙◌, List, [], ◌∷◌, length, set, get_or, length-set, take-set,
  get_or-set, get_or-take, if◌then◌else◌, ◌==◌, Uninit, some, arith,
}
use seqc.Order.{Compare, Le, Le-refl, Le-trans}
use seqc.Vec.{Vec, slot, store}
use seqc.Vec.Valid.{IsValid, contents, length-contents}
use seqc.Pqueue.{Pqueue, parent, swap_elems}

module _ {ℓ} {A : Type ℓ} (d : A) where
  -- What is written takes the place of what was there.
  pub set-trades :
      (i : ℕ) (xs : List A) (new : A)
      → i < length xs
      → Perm (new ∷ xs) (get_or xs i d ∷ set xs i new)
  set-trades zero (old ∷ rest) new inside = Perm.swap old new rest
  set-trades i [] new inside = absurd (omega arith)
  set-trades (suc i) (first ∷ rest) new inside =
      let below = Perm.cons first (set-trades i rest new (omega arith)) in
      let front = Perm.trans (Perm.swap first new rest) below in
      Perm.trans front (Perm.swap (get_or rest i d) first (set rest i new))

  pub set_twice-perm :
      (xs : List A) (i j : ℕ)
      → i < length xs
      → j < length xs
      → Perm (set (set xs i (get_or xs j d)) j (get_or xs i d)) xs
  set_twice-perm xs i j left right =
      let a = get_or xs i d in
      let b = get_or xs j d in
      let half = set xs i b in
      let still_b : get_or half j d ≡ b = ground (arith, get_or-set xs i j b d) in
      let back = set-trades j half a (omega (arith, length-set xs i b)) in
      Perm.symm (Perm.cons_inv (Perm.trans (set-trades i xs b left) (rw still_b at back)))

module _ {ℓ} {A : Type ℓ} ⦃u : Uninit A⦄ where
  pub slot-contents : (v : Vec A) (i : ℕ) → i < v.len → get_or (contents v) i u.junk ≡ slot v i
  unfolding slot
  slot-contents v i p = get_or-take v.len v.buf i u.junk p

  module _ (v : Vec A) (i j : ℕ) (valid : IsValid v) (hi : i < v.len) (hj : j < v.len) where
    pub slot-swap :
        (c : ℕ)
        → slot (swap_elems v i j) c
          ≡ (if j == c then slot v i else if i == c then slot v j else slot v c)
    unfolding swap_elems slot store
    slot-swap c =
        get_or-set (set v.buf i (get_or v.buf j u.junk)) j c (get_or v.buf i u.junk) u.junk
          (omega (arith, length-set v.buf i (get_or v.buf j u.junk), valid.slots, valid.filled))
        ∙ rw (
            get_or-set v.buf i c (get_or v.buf j u.junk) u.junk
              (omega (arith, valid.slots, valid.filled)))

    pub swap-IsValid : IsValid (swap_elems v i j)
    unfolding swap_elems store
    swap-IsValid = record {
      slots =
          length-set (set v.buf i (slot v j)) j (slot v i)
          ∙ length-set v.buf i (slot v j)
          ∙ valid.slots;
      filled = valid.filled;
      sized = valid.sized;
      narrow = valid.narrow;
      small = valid.small;
    }

    pub swap-Perm : Perm (contents (swap_elems v i j)) (contents v)
    unfolding swap_elems store slot
    swap-Perm =
        let a = slot v i in
        let b = slot v j in
        rw (take-set v.len (set v.buf i b) j a, take-set v.len v.buf i b)
          (rw (slot-contents v i hi, slot-contents v j hj) at
            (set_twice-perm u.junk (contents v) i j (omega (arith, length-contents valid))
              (omega (arith, length-contents valid))))

module _ {ℓ} {A : Type ℓ} ⦃u : Uninit A⦄ ⦃o : Compare A⦄ where
  -- Every edge whose parent is at `lo` or later is in order.
  abbrev pub IsHeapFrom : ℕ → Vec A → Type 0
  IsHeapFrom lo v = (c : ℕ) → 0 < c → c < v.len → lo ≤ parent c → Le (slot v (parent c)) (slot v c)

  abbrev pub IsHeap : Vec A → Type 0
  IsHeap v = IsHeapFrom 0 v

  -- The edges past `i`, from its parent to its children, are in order.
  abbrev pub IsBridged : ℕ → Vec A → ℕ → Type 0
  IsBridged lo v i =
      (c : ℕ)
      → 0 < c
      → c < v.len
      → parent c ≡ i
      → 0 < i
      → lo ≤ parent i
      → Le (slot v (parent i)) (slot v c)

  -- `w` is valid and holds the elements of `v`, in order from `lo`.
  pub record Sifted (lo : ℕ) (v w : Vec A) : Type ℓ where
    pub valid : IsValid w
    pub ordered : IsHeapFrom lo w
    pub same : Perm (contents w) (contents v)
    pub count : w.len ≡ v.len
    pub size : w.elem_size ≡ v.elem_size

  pub Sifted-swap :
      {lo i j : ℕ} {v w : Vec A}
      → IsValid v
      → i < v.len
      → j < v.len
      → Sifted lo (swap_elems v i j) w
      → Sifted lo v w
  unfolding swap_elems store
  Sifted-swap {i = i} {j = j} {v = v} valid hi hj s = record {
    valid = s.valid;
    ordered = s.ordered;
    same = Perm.trans s.same (swap-Perm v i j valid hi hj);
    count = s.count;
    size = s.size;
  }

  root_least_below :
      (k : ℕ) (v : Vec A) (i : ℕ) → IsHeap v → i < k → i < v.len → Le (slot v 0) (slot v i)
  root_least_below zero v i h f p = absurd (omega arith)
  root_least_below (suc k) v zero h f p = Le-refl (slot v 0)
  root_least_below (suc k) v (suc i) h f p =
      Le-trans (slot v 0) (slot v (parent (suc i))) (slot v (suc i))
        (root_least_below k v (parent (suc i)) h (omega arith) (omega arith))
        (h (suc i) (omega arith) p (omega arith))

  -- No element of a heap comes before its root.
  pub root_least : (v : Vec A) (i : ℕ) → IsHeap v → i < v.len → Le (slot v 0) (slot v i)
  root_least v i h p = root_least_below (suc i) v i h (omega arith) p

  -- The queue stands on a valid vector of elements of `size` bytes, which is a heap with the
  -- elements `xs` in some order.
  pub record IsQueue (size : ℕ) (xs : List A) (q : Pqueue A) : Type ℓ where
    pub v : Vec A
    pub has : q.vec ≡ some v
    pub valid : IsValid v
    pub sized : v.elem_size ≡ size
    pub ordered : IsHeap v
    pub same : Perm (contents v) xs
