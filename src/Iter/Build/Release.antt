-- ===== src/Iter/Build/Release.antt =====
-- How bytes are given back: what an allocator counts, and what becomes of the state and the buffer
-- of an adaptor on every path of the functions that make one.
use seqc.Prelude.{
  ℕ, ◌+◌, ◌≤◌, ◌≡◌, refl, ◌⊎◌, inl, inr, Option, none, some, Option-cases, Allocator, arith,
}
use seqc.Iter.{Source}
use seqc.Iter.Build.{adapt, adapt_buffered}

-- `used` counts the bytes that an allocator has given and not got back.
pub record IsAccount {κ} {H : Type κ} (al : Allocator H) (used : H → ℕ) : Type κ where
  pub alloc_used : (n : ℕ) (h h' : H) → al.alloc n h ≡ some h' → used h' ≡ used h + n
  pub free_used : (n : ℕ) (h : H) → n ≤ used h → used (al.free n h) + n ≡ used h

-- To run `f` gives back `k` bytes.
abbrev pub Releases {μ} : {H : Type μ} → (H → ℕ) → (H → H) → ℕ → Type μ
Releases {H} used f k = (h : H) → k ≤ used h → used (f h) + k ≡ used h

-- The adaptor `out` was made, holds `extra` bytes more than the `k` of its sources, and gives all of
-- them back when it is destroyed; or it was not made, and the bytes of its sources were given back.
abbrev pub Built {ℓ κ μ} :
    {B : Type ℓ} {T : Type κ} {H : Type μ}
    → Source B T H
    → (H → ℕ)
    → ℕ
    → ℕ
    → H
    → Option T × H
    → Type (κ ⊔ μ)
Built {T} {H} out used k extra h result =
    ((t : T) × (h' : H) × (result ≡ (some t, h'))
      × (used h' ≡ used h + extra)
      × Releases used (out.destroy t) (k + extra))
    ⊎ ((h' : H) × (result ≡ (none, h')) × (used h' + k ≡ used h))

pub Releases-then {μ} :
    {H : Type μ} {used : H → ℕ} (f g : H → H) (i j : ℕ)
    → Releases used f i
    → Releases used g j
    → Releases used (λ h. g (f h)) (i + j)
Releases-then f g i j p q h enough =
    omega (arith, p h (omega arith), q (f h) (omega (arith, p h (omega arith))))

module _ {μ} {H : Type μ} ⦃al : Allocator H⦄ {used : H → ℕ} (acc : IsAccount al used) where
  -- What the adaptors without and with a buffer do when they are destroyed.
  pub Releases-free :
      (f : H → H) (k size : ℕ)
      → Releases used f k
      → Releases used (λ h. al.free size (f h)) (k + size)
  Releases-free f k size p = Releases-then f (al.free size) k size p (acc.free_used size)

  pub Releases-two :
      (f : H → H) (k size elem : ℕ)
      → Releases used f k
      → Releases used (λ h. al.free size (al.free elem (f h))) (k + (size + elem))
  Releases-two f k size elem p h enough =
      let both =
        Releases-free (λ h'. al.free elem (f h')) (k + elem) size (Releases-free f k elem p) in
      omega (arith, both h (omega arith))

  -- A block is got, the next is not, the first is given back, and then the sources are.
  pub undo :
      (f : H → H) (k n : ℕ) (h h₁ : H)
      → Releases used f k
      → k ≤ used h
      → al.alloc n h ≡ some h₁
      → used (f (al.free n h₁)) + k ≡ used h
  undo f k n h h₁ p enough given =
      let got_it = acc.alloc_used n h h₁ given in
      let back = acc.free_used n h₁ (omega arith) in omega (arith, p (al.free n h₁) (omega arith))

module _ {ℓ κ μ ν ξ} {A : Type ℓ} {S : Type κ} {H : Type μ} {B : Type ν} {T : Type ξ}
    ⦃al : Allocator H⦄ (src : Source A S H) (out : Source B T H) (used : H → ℕ)
    (acc : IsAccount al used) (size : ℕ) (make : S → T) (s : S) (k : ℕ) (h : H)
    (owns : Releases used (src.destroy s) k) (enough : k ≤ used h) where
  pub adapt-Built :
      Releases used (out.destroy (make s)) (k + size)
      → Built out used k size h (adapt src size make (some s) h)
  unfolding adapt
  adapt-Built drops = elim (Option-cases (al.alloc size h)) [
    | inl no_room ↦ inr (src.destroy s h, rw (no_room, adapt) refl, owns h enough)
    | inr (h', given) ↦
        inl (make s, h', rw (given, adapt) refl, acc.alloc_used size h h' given, drops)
  ]

  pub adapt_buffered-Built :
      Releases used (out.destroy (make s)) (k + (size + src.elem_size))
      → Built out used k (size + src.elem_size) h (adapt_buffered src size make (some s) h)
  unfolding adapt_buffered
  adapt_buffered-Built drops = elim (Option-cases (al.alloc size h)) [
    | inl no_room ↦ elim (Option-cases (al.alloc src.elem_size h)) [
      | inl neither ↦
          inr (src.destroy s h, rw (no_room, adapt_buffered, neither) refl, owns h enough)
      | inr (h₂, given) ↦ inr (
        src.destroy s (al.free src.elem_size h₂),
        rw (no_room, adapt_buffered, given) refl,
        undo acc (src.destroy s) k src.elem_size h h₂ owns enough given,
      )
    ]
    | inr (h₁, given) ↦ elim (Option-cases (al.alloc src.elem_size h₁)) [
      | inl no_room ↦ inr (
        src.destroy s (al.free size h₁),
        rw (given, adapt_buffered, no_room) refl,
        undo acc (src.destroy s) k size h h₁ owns enough given,
      )
      | inr (h₂, more) ↦ inl (
        make s,
        h₂,
        rw (given, adapt_buffered, more) refl,
        omega (arith, acc.alloc_used size h h₁ given, acc.alloc_used src.elem_size h₁ h₂ more),
        drops,
      )
    ]
  ]
