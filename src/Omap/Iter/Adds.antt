-- ===== src/Omap/Iter/Adds.antt =====
-- omap_extend of src/omap/omap.c: the entries of an iterator are set one after the other.
use seqc.Prelude.{
  ℕ, zero, suc, ◌+◌, ◌≤◌, ◌<◌, ◌≡◌, refl, ap, ap₂, ◌∙◌, ◌⊎◌, inl, inr, true, false, Option, none,
  some, List, [], ◌∷◌, ◌++◌, length, ◌==◌, Status, ok, oom, invalid, size_mod, Allocator, arith,
}
use seqc.Order.{Compare, Ordering-cases}
use seqc.Iter.{Source, iter_next, iter_destroy}
use seqc.Iter.Pair.{Steady, stops, writes}
use seqc.Omap.{Entry, Omap, set, node_sz}
use seqc.Omap.Entries.{put}
use seqc.Omap.Methods.{IsValid, entries, omap_set-Written}
use seqc.Omap.Iter.{MapEntry, set_ok, extend_loop, omap_extend, sizeof_entry}

module _ {ℓ κ} {K : Type ℓ} {V : Type κ} ⦃o : Compare K⦄ where
  -- The entries `es` set one after the other.
  abbrev pub put_entries : List (Entry K V) → List (Entry K V) → List (Entry K V)
  put_entries ms [] = ms
  put_entries ms (e ∷ es) = put_entries (put e.key e.value ms) es

  length_le-put : (k : K) (v : V) (es : List (Entry K V)) → length (put k v es) ≤ suc (length es)
  unfolding put
  length_le-put k v [] = omega arith
  length_le-put k v (e ∷ es) = elim (Ordering-cases (o.cmp k e.key)) [
    | inl c ↦ rw (c, put) (omega arith)
    | inr (inl c) ↦ rw (c, put) (omega arith)
    | inr (inr c) ↦ rw (c, put) (omega (arith, length_le-put k v es))
  ]

  -- What an iterator over a map writes for its entries.
  abbrev pub pointers : List (Entry K V) → List (MapEntry K V)
  pointers [] = []
  pointers (e ∷ es) = record { key = some e.key; value = some e.value } ∷ pointers es

module _ {ℓ κ μ} {K : Type ℓ} {V : Type κ} {H : Type μ} ⦃o : Compare K⦄ ⦃al : Allocator H⦄ where
  -- The map and the heap after omap_set of one entry after the other, whatever it returns.
  abbrev pub set_all : List (MapEntry K V) → Option (Omap K V) → H → Option (Omap K V) × H
  set_all [] m h = (m, h)
  set_all (x ∷ xs) m h = let done = set m x.key x.value h in set_all xs done.1 done.2

  -- Why omap_set of an entry fails: the allocator refuses the node, or a pointer is NULL.
  abbrev pub Fails : Omap K V → MapEntry K V → H → Status → Type (ℓ ⊔ κ ⊔ μ)
  Fails m x h st =
      ((st ≡ oom) × (al.alloc (node_sz m.key_size m.val_size) h ≡ none))
      ⊎ ((st ≡ invalid) × ((x.key ≡ none) ⊎ (x.value ≡ none)))

  -- One entry, set: as omap_set-Written says, or a failure that leaves all as it was.
  set_one :
      (m : Omap K V) (k : Option K) (v : Option V) (h : H)
      → IsValid m
      → m.len + 1 < size_mod
      → ((st : Status) × (set (some m) k v h ≡ (st, some m, h))
          × (set_ok st ≡ false)
          × Fails m (record { key = k; value = v }) h st)
        ⊎ ((e : Entry K V) × (m' : Omap K V) × (h' : H) × (k ≡ some e.key)
            × (v ≡ some e.value)
            × (set (some m) (some e.key) (some e.value) h ≡ (ok, some m', h'))
            × IsValid m'
            × (entries m' ≡ put e.key e.value (entries m)))
  unfolding set
  set_one m none v h valid room = inl (invalid, refl, refl, inr (refl, inl refl))
  set_one m (some k) none h valid room = inl (invalid, refl, refl, inr (refl, inr refl))
  set_one m (some k) (some v) h valid room = elim (omap_set-Written m k v h valid room) [
    | inl (failed, refused) ↦ inl (oom, failed, refl, inl (refl, refused))
    | inr (m', h', done, good, written, keys, vals) ↦
        inr (record { key = k; value = v }, m', h', refl, refl, done, good, written)
  ]

module _ {ℓ κ μ ν ρ} {K : Type ℓ} {V : Type κ} {S : Type ν} {H : Type μ} ⦃o : Compare K⦄
    ⦃al : Allocator H⦄ where
  -- What setting the entries `xs` of an iterator that they leave at `s'` comes to, in a map `m₀` and
  -- a heap `h₀`. Either it is SEQC_OK, and all are set one after the other; or those in front of one
  -- are, for which omap_set fails in the map and the heap that this leaves.
  abbrev pub Outcome :
      Omap K V
      → H
      → List (MapEntry K V)
      → S
      → (Status → Option (Omap K V) → S → H → Type ρ)
      → Type (ℓ ⊔ κ ⊔ μ ⊔ ν ⊔ ρ)
  Outcome m₀ h₀ xs s' Returns =
      ((m : Omap K V) × (h : H) × (es : List (Entry K V)) × (xs ≡ pointers es)
        × (set_all xs (some m₀) h₀ ≡ (some m, h))
        × Returns ok (some m) s' h
        × IsValid m
        × (entries m ≡ put_entries (entries m₀) es))
      ⊎ ((m : Omap K V) × (h : H) × (st : Status) × (s : S) × (front : List (Entry K V))
          × (x : MapEntry K V) × (back : List (MapEntry K V)) × (xs ≡ pointers front ++ (x ∷ back))
          × (set_all (pointers front) (some m₀) h₀ ≡ (some m, h))
          × Fails m x h st
          × Returns st (some m) s h
          × IsValid m
          × (entries m ≡ put_entries (entries m₀) front))

module _ {ℓ κ μ ν} {K : Type ℓ} {V : Type κ} {S : Type ν} {H : Type μ} ⦃o : Compare K⦄
    ⦃al : Allocator H⦄ (src : Source (MapEntry K V) S H) where
  extend_loop_lem :
      (fuel : ℕ) (m : Omap K V) {s s' : S} (h : H) {xs : List (MapEntry K V)}
      → Steady src s xs s'
      → length xs < fuel
      → IsValid m
      → m.len + length xs < size_mod
      → Outcome m h xs s'
          (λ st m' t h'. extend_loop src fuel (some m) (some s) h ≡ some (st, m', some t, h'))
  unfolding extend_loop iter_next
  extend_loop_lem zero m h p less valid room = absurd (omega arith)
  extend_loop_lem (suc fuel) m h (stops e) less valid room =
      inl (m, h, [], refl, refl, rw (e h, extend_loop) refl, valid, refl)
  extend_loop_lem (suc fuel) m h {xs = x ∷ xs} (writes {s₁ = s₁} e p) less valid room =
      elim (set_one m x.key x.value h valid (omega arith)) [
        | inl (st, failed, ends, why) ↦ inr (
          m,
          h,
          st,
          s₁,
          [],
          x,
          xs,
          refl,
          refl,
          why,
          rw (e h, extend_loop, failed, ends) refl,
          valid,
          refl,
        )
        | inr (x₁, m₁, h₁, key_at, value_at, done, good, written) ↦
            let known : x ≡ record { key = some x₁.key; value = some x₁.value } =
              ap₂ (λ k v. record { key = k; value = v }) key_at value_at in
            let count : m₁.len + length xs < size_mod = omega (
              arith,
              good.counted,
              valid.counted,
              ap length written,
              length_le-put x₁.key x₁.value (entries m),
            ) in
            elim (extend_loop_lem fuel m₁ h₁ p (omega arith) good count) [
              | inl (m₂, h₂, es, split, all, result, good₂, kept) ↦ inl (
                m₂,
                h₂,
                x₁ ∷ es,
                ap₂ (λ y ys. y ∷ ys) known split,
                rw (key_at, value_at, done, set_all) all,
                rw (e h, extend_loop, key_at, value_at, done) result,
                good₂,
                kept ∙ ap (λ ms. put_entries ms es) written,
              )
              | inr (m₂, h₂, st, s₂, front, y, back, split, some_of, why, result, good₂, kept) ↦
                  inr (
                    m₂,
                    h₂,
                    st,
                    s₂,
                    x₁ ∷ front,
                    y,
                    back,
                    ap₂ (λ z zs. z ∷ zs) known split,
                    rw (done, set_all) some_of,
                    why,
                    rw (e h, extend_loop, key_at, value_at, done) result,
                    good₂,
                    kept ∙ ap (λ ms. put_entries ms front) written,
                  )
            ]
      ]

  -- Of a source of pairs of pointers that yields some without touching the heap, with more rounds
  -- than there are, and where they can be counted, omap_extend on a valid map leaves the map that
  -- omap_set of all of them leaves, none of which has a NULL, and returns SEQC_OK; or the map that
  -- omap_set of those in front of one leaves, and SEQC_OOM because the allocator then refuses the
  -- node of that one, or SEQC_INVALID because one of its pointers is NULL. The source is then
  -- destroyed; the map is valid, and its entries are those before with the ones that were set.
  pub omap_extend-Written :
      (fuel : ℕ) (m : Omap K V) {s s' : S} (h : H) {xs : List (MapEntry K V)}
      → src.elem_size ≡ sizeof_entry
      → Steady src s xs s'
      → length xs < fuel
      → IsValid m
      → m.len + length xs < size_mod
      → Outcome m h xs s'
          (λ st m' t h'. omap_extend src fuel (some m) (some s) h ≡ some (st, m', src.destroy t h'))
  unfolding omap_extend iter_destroy
  omap_extend-Written fuel m h sized p less valid room =
      let same : (src.elem_size == sizeof_entry) ≡ true = ground arith in
      elim (extend_loop_lem fuel m h p less valid room) [
        | inl (m', h', es, split, all, result, good, kept) ↦
            inl (m', h', es, split, all, rw (same, omap_extend, result) refl, good, kept)
        | inr (m', h', st, s₁, front, x, back, split, some_of, why, result, good, kept) ↦ inr (
          m',
          h',
          st,
          s₁,
          front,
          x,
          back,
          split,
          some_of,
          why,
          rw (same, omap_extend, result) refl,
          good,
          kept,
        )
      ]
