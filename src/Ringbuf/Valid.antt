-- ===== src/Ringbuf/Valid.antt =====
-- The representation invariant of `ringbuf_t`, its masks as remainders, and what it holds.
use native.Mathlib.Nat.{mod-eq_of_lt, pow-suc}
use seqc.Prelude.{
  ℕ, suc, ◌+◌, ◌-◌, ◌*◌, ◌%◌, ◌^◌, ◌≤◌, ◌<◌, max, bit_and, ◌≡◌, refl, sym, ap, ◌∙◌, ◌⊎◌, inl, inr,
  List, arith, length, ◌==◌, Bool-cases, size_mod, ptrdiff_max, Uninit,
}
use seqc.Prelude.Bits.{bit_and-mask}
use seqc.Window.{window}
use seqc.Ringbuf.{Ringbuf, initial_cap, mask, slot_of, next_cap}

-- `cap` is 0 or a power of two, as the field's comment says.
abbrev pub IsPowerOrZero : ℕ → Type 0
IsPowerOrZero c = (c ≡ 0) ⊎ ((k : ℕ) × (c ≡ 2 ^ k))

module _ {ℓ} {A : Type ℓ} where
  pub record IsValid (r : Ringbuf A) : Type 0 where
    pub slots : length r.buf ≡ r.cap
    pub filled : r.len ≤ r.cap
    pub head_in : r.head < max 1 r.cap
    pub power : IsPowerOrZero r.cap
    pub sized : 0 < r.elem_size
    pub narrow : initial_cap * r.elem_size < size_mod
    pub small : r.cap * r.elem_size ≤ ptrdiff_max

  pub cap_bound : {r : Ringbuf A} → IsValid r → r.cap ≤ ptrdiff_max
  cap_bound {r} p = bound r.cap r.elem_size p.sized p.small
    where
      bound : (c e : ℕ) → 0 < e → c * e ≤ ptrdiff_max → c ≤ ptrdiff_max
      bound c e sized small = grind arith

  -- In a valid buffer that has slots, the bit mask with cap - 1 is the remainder by cap.
  pub mask_lem : (r : Ringbuf A) (a : ℕ) → IsValid r → 0 < r.cap → bit_and a (mask r) ≡ a % r.cap
  unfolding mask
  mask_lem r a p pos = elim p.power [
    | inl e ↦ absurd (omega arith)
    | inr (k, e) ↦
        let exact : (r.cap + size_mod - 1) % size_mod ≡ 2 ^ k - 1 = omega (arith, cap_bound p, e) in
        rw exact (bit_and-mask k a ∙ ap (λ (c : ℕ). a % c) (sym e))
  ]

  pub slot_of_lem :
      (r : Ringbuf A) (i : ℕ)
      → IsValid r
      → 0 < r.cap
      → i ≤ r.cap
      → slot_of r i ≡ (r.head + i) % r.cap
  unfolding slot_of
  slot_of_lem r i p pos h =
      let exact : (r.head + i) % size_mod ≡ r.head + i = omega (arith, cap_bound p, p.head_in) in
      rw exact (mask_lem r (r.head + i) p pos)

  pub next_cap_lem :
      {r : Ringbuf A}
      → IsValid r
      → (r.cap < next_cap r) × (next_cap r * r.elem_size < size_mod) × IsPowerOrZero (next_cap r)
  unfolding next_cap
  next_cap_lem {r} p = elim (Bool-cases (r.cap == 0)) [
    | inl e ↦ rw e (ground arith, p.narrow, inr (3, refl))
    | inr e ↦
        let wraps_not : r.cap * 2 < size_mod = omega (arith, cap_bound p) in
        rw (e, mod-eq_of_lt wraps_not)
          (
            ground arith,
            omega (arith, p.small),
            elim p.power [
              | inl z ↦ inl (omega (arith, z))
              | inr (k, z) ↦ inr (suc k, omega (arith, z, pow-suc 2 k))
            ],
          )
  ]

module _ {ℓ} {A : Type ℓ} ⦃u : Uninit A⦄ where
  -- The elements, from the front on.
  abbrev pub contents : Ringbuf A → List A
  contents r = window r.buf r.cap r.head r.len

  -- `r` is a valid buffer of elements of `size` bytes that holds exactly `xs`.
  abbrev pub Holds : ℕ → List A → Ringbuf A → Type ℓ
  Holds size xs r = IsValid r × (contents r ≡ xs) × (r.elem_size ≡ size)
