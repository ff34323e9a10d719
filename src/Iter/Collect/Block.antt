-- ===== src/Iter/Collect/Block.antt =====
-- The block of iter_collect: one element more, and twice as many slots.
use native.Mathlib.Nat.{le-div_iff_mul-le}
use seqc.Prelude.{
  ℕ, suc, ◌+◌, ◌*◌, ◌/◌, ◌%◌, ◌≤◌, ◌<◌, min, ◌≡◌, ◌∙◌, some, List, [], ◌∷◌, ◌++◌, length, take, set,
  length-set, take-set_last, size_mod, bytes, slots-bytes, bytes_eq, ptrdiff_max, Allocator,
  IsBounded, Uninit, moved, length-moved, take-moved, arith,
}

-- A block of `cap` slots with `len` elements in it.
pub record Block {ℓ} {A : Type ℓ} (buf : List A) (len cap size : ℕ) : Type 0 where
  pub slots : length buf ≡ cap
  pub in_block : len ≤ cap
  pub some_slots : 0 < cap
  pub sized : 0 < size
  pub small : cap * size ≤ ptrdiff_max

cap_small : (cap size : ℕ) → 0 < size → cap * size ≤ ptrdiff_max → cap ≤ ptrdiff_max
cap_small cap size p h = grind arith

module _ {ℓ} {A : Type ℓ} {size : ℕ} where
  -- One element more.
  pub Block-set :
      {buf : List A} {len cap : ℕ} (x : A)
      → Block buf len cap size
      → len < cap
      → Block (set buf len x) (suc len) cap size
        × (take (suc len) (set buf len x) ≡ take len buf ++ (x ∷ []))
        × ((len + 1) % size_mod ≡ suc len)
  Block-set {buf} {len} {cap} x b room =
      let bound = cap_small cap size b.sized b.small in
      (
        record {
          slots = length-set buf len x ∙ b.slots;
          in_block = omega arith;
          some_slots = b.some_slots;
          sized = b.sized;
          small = b.small;
        },
        take-set_last len buf x (omega (arith, b.slots)),
        omega arith,
      )

module _ {ℓ κ} {A : Type ℓ} {H : Type κ} {size : ℕ} ⦃u : Uninit A⦄ ⦃al : Allocator H⦄ where
  -- The block after the reallocation of a full one.
  pub Block-moved :
      {buf : List A} {len cap : ℕ} (h h' : H)
      → IsBounded al
      → Block buf len cap size
      → al.realloc (bytes cap size) (bytes (cap * 2 % size_mod) size) h ≡ some h'
      → (cap * 2 % size_mod ≡ cap * 2)
        × Block (moved (bytes cap size) (bytes (cap * 2) size) size buf) len (cap * 2) size
        × (take len (moved (bytes cap size) (bytes (cap * 2) size) size buf) ≡ take len buf)
  Block-moved {buf} {len} {cap} h h' bounded b e =
      let bound = cap_small cap size b.sized b.small in
      let twice : cap * 2 % size_mod ≡ cap * 2 = omega arith in
      let product : cap * 2 * size ≡ cap * size + cap * size = grind arith in
      let fits : cap * 2 * size < size_mod = omega arith in
      let exact = bytes_eq (cap * 2) size fits in
      let old_exact : bytes cap size ≡ cap * size = bytes_eq cap size (omega arith) in
      let slots = slots-bytes (cap * 2) size b.sized fits in
      let given : al.realloc (bytes cap size) (bytes (cap * 2) size) h ≡ some h' = rw twice at e in
      let used : len * size ≤ cap * size = grind arith in
      let reach : len ≤ min (bytes cap size) (bytes (cap * 2) size) / size =
        (le-div_iff_mul-le b.sized).1 (omega arith) in
      (
        twice,
        record {
          slots =
              length-moved (bytes cap size) (bytes (cap * 2) size) size buf (omega (arith, b.slots))
              ∙ slots;
          in_block = omega arith;
          some_slots = omega arith;
          sized = b.sized;
          small = ground (arith, bounded.realloc_bound (bytes cap size) (bytes (cap * 2) size) h);
        },
        take-moved len (bytes cap size) (bytes (cap * 2) size) size buf (omega (arith, b.slots))
            reach,
      )
