-- ===== src/Vec/Search.antt =====
-- The operations that read a vector: vec_get_ptr, vec_get, vec_find, vec_any.
use native.Mathlib.Numerals.{add-one}
use seqc.Prelude.{
  ℕ, zero, suc, ◌+◌, ◌≤◌, ◌<◌, ◌≡◌, refl, Bool, Option, none, some, List, [], ◌∷◌, arith, length,
  take, drop, get_elem?, length-take, get_elem?-get_or, get_elem?-none, get_or-take, drop-get_or,
  sym, inl, inr, leb, if◌then◌else◌, Uninit, Bool-cases, leb→le, leb→lt,
}
use seqc.Vec.{Vec, get_ptr, find_from, find}
use seqc.Vec.Valid.{IsValid, contents}

module _ {ℓ} {A : Type ℓ} where
  -- The first element that satisfies the test.
  abbrev pub first : (A → Bool) → List A → Option A
  first pred [] = none
  first pred (x ∷ xs) = if pred x then some x else first pred xs

module _ {ℓ} {A : Type ℓ} ⦃u : Uninit A⦄ where
  -- `vec_get_ptr` finds the `i`-th element, and NULL past the end.
  pub vec_get_ptr_lem :
      (v : Vec A) (i : ℕ) → IsValid v → get_ptr (some v) i ≡ get_elem? (contents v) i
  unfolding get_ptr
  vec_get_ptr_lem v i p = elim (Bool-cases (leb v.len i)) [
    | inl past ↦ rw past (
        sym (
          get_elem?-none (contents v) i
            (omega (arith, length-take v.len v.buf, leb→le v.len i past))))
    | inr inside ↦
        let below : i < v.len = leb→lt v.len i inside in
        rw (inside, ← get_or-take v.len v.buf i u.junk below)
          (sym (
            get_elem?-get_or (contents v) i u.junk
              (omega (arith, length-take v.len v.buf, p.slots, p.filled))))
  ]

  -- From slot `i` on, the loop looks at the elements that are left.
  find_from_lem :
      (v : Vec A) (pred : A → Bool) (n i : ℕ)
      → n + i ≤ length v.buf
      → find_from v pred n i ≡ first pred (take n (drop i v.buf))
  unfolding find_from
  find_from_lem v pred zero i h = refl
  find_from_lem v pred (suc n) i h = rw (
    find_from_lem v pred n (i + 1) (omega arith),
    drop-get_or i v.buf u.junk (omega arith),
    add-one,
  )

  -- vec_find on a valid vector finds the first element in order that satisfies the test, and NULL
  -- if there is none.
  pub vec_find_lem :
      (v : Vec A) (pred : A → Bool)
      → IsValid v
      → find (some v) (some pred) ≡ first pred (contents v)
  unfolding find
  vec_find_lem v pred p = find_from_lem v pred v.len 0 (omega (arith, p.slots, p.filled))
