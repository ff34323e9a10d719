-- ===== src/Iter/Terminal/Result.antt =====
-- What the terminals return: their loops are folds of the elements that the source has left, and
-- the source is destroyed afterwards.
use seqc.Prelude.{
  ℕ, zero, suc, ◌<◌, ◌≡◌, refl, inl, inr, Bool, true, false, Option, none, some, List, [], ◌∷◌,
  length, if◌then◌else◌, Bool-cases, Allocator, arith,
}
use seqc.Iter.{Source, iter_next, iter_destroy, Produces, ends, gives}
use seqc.Iter.Terminal.{
  scratch_max, scratch_acquire, scratch_release, each_next, finish, terminal, never,
}

-- What is kept after `body` went over the elements, until `stop` holds.
abbrev pub walk {ℓ ν} : {A : Type ℓ} {B : Type ν} → (B → A → B) → (B → Bool) → B → List A → B
walk body stop b [] = b
walk body stop b (x ∷ xs) = if stop (body b x) then body b x else walk body stop (body b x) xs

abbrev pub foldl {ℓ ν} : {A : Type ℓ} {B : Type ν} → (B → A → B) → B → List A → B
foldl f b [] = b
foldl f b (x ∷ xs) = foldl f (f b x) xs

abbrev pub any {ℓ} : {A : Type ℓ} → (A → Bool) → List A → Bool
any pred [] = false
any pred (x ∷ xs) = if pred x then true else any pred xs

abbrev pub all {ℓ} : {A : Type ℓ} → (A → Bool) → List A → Bool
all pred [] = true
all pred (x ∷ xs) = if pred x then all pred xs else false

module _ {μ} {H : Type μ} ⦃al : Allocator H⦄ where
  pub scratch_acquire-none :
      (size : ℕ) (h : H)
      → scratch_acquire size h ≡ none
      → (scratch_max < size) × (al.alloc size h ≡ none)
  unfolding scratch_acquire
  scratch_acquire-none size h e = (ground arith, ground arith)

module _ {ℓ κ μ ν} {A : Type ℓ} {S : Type κ} {H : Type μ} {B : Type ν} ⦃al : Allocator H⦄
    (src : Source A S H) where
  -- A loop that never stops goes to the end.
  pub each_next-foldl :
      (body : B → A → B) (fuel : ℕ) (b : B) {s s' : S} {h h' : H} {xs : List A}
      → Produces src s h xs s' h'
      → length xs < fuel
      → each_next src body never fuel b (some s) h ≡ some (foldl body b xs, some s', h')
  unfolding each_next iter_next
  each_next-foldl body zero b (ends e) less = absurd (omega arith)
  each_next-foldl body zero b (gives e p) less = absurd (omega arith)
  each_next-foldl body (suc fuel) b (ends e) less = rw (e, each_next) refl
  each_next-foldl body (suc fuel) b (gives {x = x} e p) less =
      rw (e, each_next) (each_next-foldl body fuel (body b x) p (omega arith))

  pub each_next-walk :
      (body : B → A → B) (stop : B → Bool) (fuel : ℕ) (b : B) {s s' : S} {h h' : H} {xs : List A}
      → Produces src s h xs s' h'
      → length xs < fuel
      → (s₁ : S) × (h₁ : H) × (each_next src body stop fuel b (some s) h
          ≡ some (walk body stop b xs, some s₁, h₁))
  unfolding each_next iter_next
  each_next-walk body stop zero b (ends e) less = absurd (omega arith)
  each_next-walk body stop zero b (gives e p) less = absurd (omega arith)
  each_next-walk body stop (suc fuel) b (ends {s' = s'} {h' = h'} e) less =
      (s', h', rw (e, each_next) refl)
  each_next-walk body stop (suc fuel) b (gives {s₁ = s₁} {h₁ = h₁} {x = x} e p) less =
      elim (Bool-cases (stop (body b x))) [
        | inl stops ↦ (s₁, h₁, rw (e, each_next, stops) refl)
        | inr goes_on ↦
            let (s₂, h₂, q) = each_next-walk body stop fuel (body b x) p (omega arith) in
            (s₂, h₂, rw (e, each_next, goes_on) q)
      ]

  -- The terminal returns `b`, has destroyed the source, in whatever state that was, and has given
  -- its buffer back.
  abbrev pub Returns : Option (B × H) → B → Type (κ ⊔ μ ⊔ ν)
  Returns result b =
      (s₁ : S) × (h₁ : H) × (result ≡ some (b, scratch_release src.elem_size (src.destroy s₁ h₁)))

  pub terminal-foldl :
      (body : B → A → B) (fuel : ℕ) (b : B) {s s' : S} (h : H) {h₀ h' : H} {xs : List A}
      → scratch_acquire src.elem_size h ≡ some h₀
      → Produces src s h₀ xs s' h'
      → length xs < fuel
      → terminal src body never fuel b (some s) h
        ≡ some (foldl body b xs, scratch_release src.elem_size (src.destroy s' h'))
  unfolding terminal finish iter_destroy
  terminal-foldl body fuel b h room p less =
      rw (room, terminal, finish, each_next-foldl body fuel b p less) refl

  pub terminal-walk :
      (body : B → A → B) (stop : B → Bool) (fuel : ℕ) (b : B) {s s' : S} (h : H) {h₀ h' : H}
      {xs : List A}
      → scratch_acquire src.elem_size h ≡ some h₀
      → Produces src s h₀ xs s' h'
      → length xs < fuel
      → Returns (terminal src body stop fuel b (some s) h) (walk body stop b xs)
  unfolding terminal finish iter_destroy
  terminal-walk body stop fuel b h room p less =
      let (s₁, h₁, e) = each_next-walk body stop fuel b p less in
      (s₁, h₁, rw (room, terminal, e) refl)
