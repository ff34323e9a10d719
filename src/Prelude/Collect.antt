-- ===== src/Prelude/Collect.antt =====
-- Iterators of include/seqc/iter.h whose step may need memory: what a client's loop collects.
use Prim.Native.Nat.{ℕ, zero, suc, ◌<◌}
use mathlib.Core.Path.{◌≡◌, sym, ap, ◌∙◌}
use mathlib.Core.Logic.{◌⊎◌, inl, inr}
use mathlib.Core.List.{List, [], ◌∷◌, ◌++◌}
use mathlib.Core.Option.{Option, none, some}
use native.Mathlib.Omega.{arith}
use seqc.Prelude.Lists.{length}

module _ {ℓ κ μ} {A : Type ℓ} {S : Type κ} {H : Type μ} where
  -- `while (iter_next(&it, out))`, for at most as many rounds as there is fuel: what it reads, and
  -- the iterator and the heap that it leaves.
  unfoldable pub collect : (S → H → Option A × S × H) → ℕ → S → H → List A × S × H
  collect step zero s h = ([], s, h)
  collect step (suc fuel) s h =
      let (out, s', h') = step s h in
      let rest = collect step fuel s' h' in
      elim out [ none ↦ ([], s', h') | some x ↦ (x ∷ rest.0, rest.1, rest.2) ]

  -- A step yields the first element that is pending; where none is, it ends; and where it is stuck
  -- for memory, it fails and loses nothing.
  abbrev pub Yields : (S → List A) → (S → H → Type μ) → S → Option A × S × H → Type (ℓ ⊔ κ ⊔ μ)
  Yields pending Stuck s result =
      ((s' : S) × (h' : H) × (result ≡ (none, s', h')) × Stuck s' h' × (pending s' ≡ pending s))
      ⊎ ((s' : S) × (h' : H) × (result ≡ (none, s', h')) × (pending s ≡ []) × (pending s' ≡ []))
      ⊎ ((x : A) × (s' : S) × (h' : H) × (result ≡ (some x, s', h')) × (pending s ≡ x ∷ pending s'))

  -- What a loop leaves: it has read the first of the elements `xs`, and either nothing is pending or
  -- the iterator is stuck, with the others pending.
  abbrev pub Collected : (S → List A) → (S → H → Type μ) → List A → List A × S × H → Type (ℓ ⊔ μ)
  Collected pending Stuck xs result =
      (xs ≡ result.0 ++ pending result.1) × ((pending result.1 ≡ []) ⊎ Stuck result.1 result.2)

  -- After a step that yields, the loop goes on.
  collect_yields :
      (step : S → H → Option A × S × H) (fuel : ℕ) (s : S) (h : H) {x : A} {s' : S} {h' : H}
      → step s h ≡ (some x, s', h')
      → let rest = collect step fuel s' h' in
        collect step (suc fuel) s h ≡ (x ∷ rest.0, rest.1, rest.2)
  unfolding collect
  collect_yields step fuel s h e =
      ap
        (λ (r : Option A × S × H).
          let rest = collect step fuel r.1 r.2 in
          let ended : List A × S × H = ([], r.1, r.2) in
          let on : A → List A × S × H = λ x. (x ∷ rest.0, rest.1, rest.2) in
          elim r.0 [ none ↦ ended | some x ↦ on x ])
        e

  collect_ends :
      (step : S → H → Option A × S × H) (fuel : ℕ) (s : S) (h : H) {s' : S} {h' : H}
      → step s h ≡ (none, s', h')
      → collect step (suc fuel) s h ≡ ([], s', h')
  unfolding collect
  collect_ends step fuel s h e =
      ap
        (λ (r : Option A × S × H).
          let rest = collect step fuel r.1 r.2 in
          let ended : List A × S × H = ([], r.1, r.2) in
          let on : A → List A × S × H = λ x. (x ∷ rest.0, rest.1, rest.2) in
          elim r.0 [ none ↦ ended | some x ↦ on x ])
        e

  -- With more fuel than elements, the loop reads all that is pending in order, or ends stuck.
  pub collect_lem :
      (step : S → H → Option A × S × H) (pending : S → List A) (Stuck : S → H → Type μ)
      → ((s : S) (h : H) → Yields pending Stuck s (step s h))
      → (fuel : ℕ) (s : S) (h : H) → length (pending s) < fuel
      → Collected pending Stuck (pending s) (collect step fuel s h)
  collect_lem step pending Stuck y zero s h less = absurd (omega arith)
  collect_lem step pending Stuck y (suc fuel) s h less = elim (y s h) [
    | inl (s', h', e, stuck, same) ↦ rw (collect_ends step fuel s h e) (sym same, inr stuck)
    | inr (inl (s', h', e, empty, left)) ↦
        rw (collect_ends step fuel s h e) (empty ∙ sym left, inl left)
    | inr (inr (x, s', h', e, next)) ↦
        let shorter = ap length next in
        let (all, why) = collect_lem step pending Stuck y fuel s' h' (omega arith) in
        rw (collect_yields step fuel s h e) (next ∙ ap (◌∷◌ x) all, why)
  ]
