-- ===== src/Window.antt =====
-- What the two circular buffers, src/queue/queue.c and src/ringbuf/ringbuf.c, share: reading a
-- block of `cap` slots round its end.
use native.Mathlib.Nat.{mod-lt, mod-eq_of_lt, mod-add-mod, mod-add-div, mul-le-mul_left}
use native.Mathlib.Decide.{dec_le}
use seqc.Prelude.{
  ℕ, zero, suc, ◌+◌, ◌/◌, ◌%◌, ◌≤◌, ◌<◌, ◌≡◌, ◌≢◌, refl, sym, ap, ap₂, ◌∙◌, inl, inr, List, [], ◌∷◌,
  ◌++◌, arith, length, take, drop, set, get_or, get_or-set, drop-get_or, Bool-cases, ◌==◌, ==_iff,
  if◌then◌else◌, Uninit, some, get_elem?,
}

-- Two indices less than a round apart are different slots.
pub mod_ne : (cap a b : ℕ) → a < b → b < a + cap → a % cap ≢ b % cap
mod_ne cap a b less near e = elim (dec_le (b / cap) (a / cap)) [
  | yes p ↦ omega (arith, mul-le-mul_left cap p, mod-add-div a cap, mod-add-div b cap)
  | no p ↦
      let later : suc (a / cap) ≤ b / cap = omega arith in
      omega (arith, mul-le-mul_left cap later, mod-add-div a cap, mod-add-div b cap)
]

pub suc-mod_cong : (cap h k : ℕ) → h % cap ≡ k % cap → suc h % cap ≡ suc k % cap
suc-mod_cong cap h k e =
    ap (λ (t : ℕ). t % cap) (let a : suc h ≡ h + 1 = omega arith in a)
    ∙ sym (mod-add-mod h cap 1)
    ∙ ap (λ (t : ℕ). (t + 1) % cap) e
    ∙ mod-add-mod k cap 1
    ∙ ap (λ (t : ℕ). t % cap) (let b : k + 1 ≡ suc k = omega arith in b)

module _ {ℓ} {A : Type ℓ} ⦃u : Uninit A⦄ (buf : List A) (cap : ℕ) where
  -- The `n` entries from index `h` on, going round at `cap`.
  abbrev pub window : ℕ → ℕ → List A
  window h zero = []
  window h (suc n) = get_or buf (h % cap) u.junk ∷ window (suc h) n

  pub length-window : (h n : ℕ) → length (window h n) ≡ n
  length-window h zero = refl
  length-window h (suc n) = ap suc (length-window (suc h) n)

  pub window_cong : (h k n : ℕ) → h % cap ≡ k % cap → window h n ≡ window k n
  window_cong h k zero e = refl
  window_cong h k (suc n) e =
      ap₂ ◌∷◌ (ap (λ (i : ℕ). get_or buf i u.junk) e)
        (window_cong (suc h) (suc k) n (suc-mod_cong cap h k e))

  -- One more entry at the end.
  pub window-suc :
      (h n : ℕ) → window h (suc n) ≡ window h n ++ (get_or buf ((h + n) % cap) u.junk ∷ [])
  window-suc h zero = rw (let e : h + 0 ≡ h = omega arith in e)
  window-suc h (suc n) = rw (window-suc (suc h) n, let e : h + suc n ≡ suc h + n = omega arith in e)

  -- Before the end of the block the window is a plain run of entries.
  pub window_straight :
      (h n : ℕ) → h + n ≤ cap → cap ≤ length buf → window h n ≡ take n (drop h buf)
  window_straight h zero fits inside = refl
  window_straight h (suc n) fits inside = rw (
    drop-get_or h buf u.junk (omega arith),
    mod-eq_of_lt (let l : h < cap = omega arith in l),
    window_straight (suc h) n (omega arith) inside,
  )

  pub window-append : (h n m : ℕ) → window h (n + m) ≡ window h n ++ window (h + n) m
  window-append h zero m =
      rw (let e : h + 0 ≡ h = omega arith in e, let e : 0 + m ≡ m = omega arith in e)
  window-append h (suc n) m = rw (
    let e : suc n + m ≡ suc (n + m) = omega arith in e,
    let e : h + suc n ≡ suc h + n = omega arith in e,
    window-append (suc h) n m,
  )

module _ {ℓ} {A : Type ℓ} ⦃u : Uninit A⦄ (buf : List A) (cap : ℕ) where
  -- A write outside the window leaves it as it is.
  pub window-set_ne :
      (i : ℕ) (x : A) (h n : ℕ)
      → i < length buf
      → ((j : ℕ) → h ≤ j → j < h + n → j % cap ≢ i)
      → window (set buf i x) cap h n ≡ window buf cap h n
  window-set_ne i x h zero inside away = refl
  window-set_ne i x h (suc n) inside away =
      ap₂ ◌∷◌ (get_or-set buf i (h % cap) x u.junk inside ∙ kept)
        (window-set_ne i x (suc h) n inside (λ j p q. away j (omega arith) (omega arith)))
    where
      kept : (if i == h % cap then x else get_or buf (h % cap) u.junk) ≡ get_or buf (h % cap) u.junk
      kept = elim (Bool-cases (i == h % cap)) [
        | inl e ↦ absurd (away h (omega arith) (omega arith) (sym ((==_iff i (h % cap)).0 e)))
        | inr e ↦ rw e
      ]

  -- A write just behind the window makes it one entry longer.
  pub window-set :
      (x : A) (h n : ℕ)
      → cap ≤ length buf
      → n < cap
      → window (set buf ((h + n) % cap) x) cap h (suc n) ≡ window buf cap h n ++ (x ∷ [])
  window-set x h n whole room =
      let i = (h + n) % cap in
      let inside : i < length buf = omega (arith, mod-lt (h + n) {m = cap} (omega arith)) in
      window-suc (set buf i x) cap h n
      ∙ ap₂ (λ (xs : List A) (y : A). xs ++ (y ∷ []))
          (window-set_ne i x h n inside (λ j p q. mod_ne cap j (h + n) (omega arith) (omega arith)))
          (get_or-set buf i i x u.junk inside ∙ rw ((==_iff i i).1 refl))

module _ {ℓ} {A : Type ℓ} ⦃u : Uninit A⦄ (buf : List A) (cap : ℕ) where
  -- The entries by their place in the window.
  pub get_elem?-window :
      (h n i : ℕ)
      → i < n
      → get_elem? (window buf cap h n) i ≡ some (get_or buf ((h + i) % cap) u.junk)
  get_elem?-window h zero i less = absurd (omega arith)
  get_elem?-window h (suc n) zero less = rw (let e : h + 0 ≡ h = omega arith in e)
  get_elem?-window h (suc n) (suc i) less =
      rw (let e : h + suc i ≡ suc h + i = omega arith in e)
        (get_elem?-window (suc h) n i (omega arith))
