-- ===== src/Iter/Pair.antt =====
-- The adaptors of src/iter/iter.c on two sources: iter_chain and iter_zip.
use seqc.Prelude.{ℕ, ◌+◌, ◌≡◌, Bool, true, false, if◌then◌else◌, List, [], ◌∷◌, ◌++◌, Allocator}
use seqc.Iter.{
  Next, got, ended, out_of_fuel, Source, sizeof_iter, on_got, Produces, ends, gives, Yields,
}

-- `chain_state_t`.
pub record Chain {ℓ κ} (S : Type ℓ) (T : Type κ) : Type (ℓ ⊔ κ) where
  pub first : S
  pub second : T
  pub done_first : Bool

-- `zip_state_t`; `buf_a` holds one element for the duration of a call.
pub record Zip {ℓ κ} (S : Type ℓ) (T : Type κ) : Type (ℓ ⊔ κ) where
  pub a : S
  pub b : T

module _ {ℓ κ μ ν} {A : Type ℓ} {S : Type κ} {T : Type μ} {H : Type ν} ⦃al : Allocator H⦄
    (first : Source A S H) (second : Source A T H) where
  -- `return iter_next(&s->second, out);`
  pub chain_second : S → T → H → Next A (Chain S T) H
  chain_second s t h =
      on_got (second.next t h) (λ t'. record { first = s; second = t'; done_first = true })
        (λ x t' h'. got x (record { first = s; second = t'; done_first = true }) h')

  -- What follows a call of the first source.
  pub chain_first : Next A S H → T → Next A (Chain S T) H
  unfolding chain_second
  chain_first (got x s h) t = got x (record { first = s; second = t; done_first = false }) h
  chain_first (ended s h) t = chain_second s t h
  chain_first out_of_fuel t = out_of_fuel

  pub chain_next : Chain S T → H → Next A (Chain S T) H
  unfolding chain_first
  chain_next s h =
      if s.done_first
      then chain_second s.first s.second h
      else chain_first (first.next s.first h) s.second

  abbrev pub sizeof_chain : ℕ → ℕ
  sizeof_chain handle = sizeof_iter handle + (sizeof_iter handle + 8)

  unfoldable pub chain_drop : Chain S T → H → H
  chain_drop s h =
      al.free (sizeof_chain al.handle_size) (second.destroy s.second (first.destroy s.first h))

  unfoldable pub chain_source : Source A (Chain S T) H
  unfolding chain_next chain_drop
  chain_source = record { next = chain_next; destroy = chain_drop; elem_size = first.elem_size }

module _ {ℓ κ μ ν ξ} {A : Type ℓ} {B : Type ξ} {S : Type κ} {T : Type μ} {H : Type ν}
    ⦃al : Allocator H⦄ (fst : Source A S H) (snd : Source B T H) where
  pub zip_next : Zip S T → H → Next (A × B) (Zip S T) H
  zip_next s h =
      on_got (fst.next s.a h) (λ a'. record s { a = a' })
        (λ x a' h'.
          on_got (snd.next s.b h') (λ b'. record { a = a'; b = b' })
            (λ y b' h''. got (x, y) (record { a = a'; b = b' }) h''))

  abbrev pub sizeof_zip : ℕ → ℕ
  sizeof_zip handle = sizeof_iter handle + (sizeof_iter handle + 16)

  unfoldable pub zip_drop : Zip S T → H → H
  zip_drop s h =
      al.free (sizeof_zip al.handle_size)
        (al.free fst.elem_size (snd.destroy s.b (fst.destroy s.a h)))

  unfoldable pub zip_source : Source (A × B) (Zip S T) H
  unfolding zip_next zip_drop
  zip_source = record {
    next = zip_next;
    destroy = zip_drop;
    elem_size = fst.elem_size + snd.elem_size;
  }

-- `Steady src s xs s'`: like `Produces`, by calls that leave every heap as it is.
pub data Steady {ℓ κ μ} {A : Type ℓ} {S : Type κ} {H : Type μ} (src : Source A S H)
    : S → List A → S → Type (ℓ ⊔ κ ⊔ μ) where
  stops : {s s' : S} → ((h : H) → src.next s h ≡ ended s' h) → Steady src s [] s'
  writes :
      {s s₁ s' : S} {x : A} {xs : List A}
      → ((h : H) → src.next s h ≡ got x s₁ h)
      → Steady src s₁ xs s'
      → Steady src s (x ∷ xs) s'

abbrev pub zip {ℓ κ} : {A : Type ℓ} {B : Type κ} → List A → List B → List (A × B)
zip [] ys = []
zip (x ∷ xs) [] = []
zip (x ∷ xs) (y ∷ ys) = (x, y) ∷ zip xs ys

module _ {ℓ κ μ ν} {A : Type ℓ} {S : Type κ} {T : Type μ} {H : Type ν} ⦃al : Allocator H⦄
    (first : Source A S H) (second : Source A T H) where
  chain-second :
      {s : S} {t t' : T} {h h' : H} {ys : List A}
      → Produces second t h ys t' h'
      → Produces
          (chain_source first second)
          (record { first = s; second = t; done_first = true })
          h
          ys
          (record { first = s; second = t'; done_first = true })
          h'
  unfolding chain_source chain_next chain_second
  chain-second (ends e) = ends (rw e)
  chain-second (gives e p) = gives (rw e) (chain-second p)

  pub chain-Produces :
      {s s' : S} {t t' : T} {h h₁ h' : H} {xs ys : List A}
      → Produces first s h xs s' h₁
      → Produces second t h₁ ys t' h'
      → Produces
          (chain_source first second)
          (record { first = s; second = t; done_first = false })
          h
          (xs ++ ys)
          (record { first = s'; second = t'; done_first = true })
          h'
  unfolding chain_source chain_next chain_first chain_second
  chain-Produces (ends e) (ends f) = ends (rw (e, f))
  chain-Produces (ends e) (gives f q) = gives (rw (e, f)) (chain-second q)
  chain-Produces (gives e p) q = gives (rw e) (chain-Produces p q)

module _ {ℓ κ μ ν ξ} {A : Type ℓ} {B : Type ξ} {S : Type κ} {T : Type μ} {H : Type ν}
    ⦃al : Allocator H⦄ (fst : Source A S H) (snd : Source B T H) where
  pub zip-Yields :
      (h : H) {s s' : S} {t t' : T} {xs : List A} {ys : List B}
      → Steady fst s xs s'
      → Steady snd t ys t'
      → Yields (zip_source fst snd) (record { a = s; b = t }) h (zip xs ys)
  unfolding zip_source zip_next
  zip-Yields h {s' = s'} {t = t} (stops e) q = (record { a = s'; b = t }, h, ends (rw (e h)))
  zip-Yields h {t' = t'} (writes {s₁ = s₁} e p) (stops f) =
      (record { a = s₁; b = t' }, h, ends (rw (e h, f h)))
  zip-Yields h (writes e p) (writes f q) =
      let (r, h', w) = zip-Yields h p q in (r, h', gives (rw (e h, f h)) w)
