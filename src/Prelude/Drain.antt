-- ===== src/Prelude/Drain.antt =====
-- `while (iter_next(&it, out))` over an iterator's state: `none` means that the fuel ran out.
use Prim.Native.Nat.{ℕ, zero, suc}
use mathlib.Core.List.{List, [], ◌∷◌}
use mathlib.Core.Path.{◌≡◌}
use mathlib.Core.Option.{Option, none, some}

module _ {ℓ κ} {A : Type ℓ} {S : Type κ} (next : S → Option (A × S)) where
  unfoldable pub drain : ℕ → S → Option (List A)
  drain zero s = none
  drain (suc fuel) s = elim (next s) [
    | none ↦ some []
    | some (x, s') ↦ elim (drain fuel s') [ none ↦ none | some xs ↦ some (x ∷ xs) ]
  ]

  pub drain_stops : (fuel : ℕ) (s : S) → next s ≡ none → drain (suc fuel) s ≡ some []
  unfolding drain
  drain_stops fuel s e = rw (e, drain)

  pub drain_yields :
      (fuel : ℕ) (s : S) {x : A} {s' : S} {xs : List A}
      → next s ≡ some (x, s')
      → drain fuel s' ≡ some xs
      → drain (suc fuel) s ≡ some (x ∷ xs)
  unfolding drain
  drain_yields fuel s e rest = rw (e, drain, rest, drain)
