-- ===== src/Omap/Iter/Reads.antt =====
-- A client's loop over the iterators of src/omap/omap.c.
use mathlib.Core.Bool.{true≢false}
use mathlib.Core.Option.{some-injective}
use Prim.Native.Nat.Ordering.{lt}
use seqc.Prelude.{
  ℕ, ◌≡◌, refl, sym, ◌⊎◌, inl, inr, ◌<◌, length, Bool, true, not, Option, none, some, Option-cases,
  List, [], ◌∷◌, reverse, Allocator,
}
use seqc.Prelude.Collect.{collect, Collected}
use seqc.Order.{Compare, is_lt, is_gt, Ordering-cases}
use seqc.Order.Sorted.{All-imp}
use seqc.Avl.{Avl}
use seqc.Avl.Iter as Walk
use seqc.Avl.Iter.{IterState, pending, pending_rev, Stuck}
use seqc.Avl.Iter.Both.{collect-avl_iters}
use seqc.Avl.Iter.Range.{RangeState, past_end, make_range, sizeof_range_state, start, range_next}
use seqc.Order.Cuts.{IsCut, allowed}
use seqc.Avl.Iter.Range.Walks.{pending_range, StuckRange, between, collect-start}
use seqc.Omap.{Entry, Omap}
use seqc.Omap.Entries.{IsAscending}
use seqc.Omap.Methods.{IsValid, entries}
use seqc.Omap.Iter.{
  iter, iter_rev, omap_iter_next, omap_iter_rev_next, sizeof_iter_state, iter_range, above, below,
  low_test, omap_range_iter_next,
}

module _ {ℓ κ} {K : Type ℓ} {V : Type κ} ⦃o : Compare K⦄ where
  upper-IsCut :
      (hi : Option K) (es : List (Entry K V)) → IsAscending es → IsCut (λ e. past_end above e hi) es
  upper-IsCut hi [] s = tt
  upper-IsCut none (e ∷ es) s = (λ h. absurd (true≢false (sym h)), upper-IsCut none es s.1)
  upper-IsCut (some b) (e ∷ es) s = (λ h. All-imp (further h) es s.0, upper-IsCut (some b) es s.1)
    where
      further :
          is_gt (o.cmp e.key b) ≡ true
          → (d : Entry K V) → o.cmp e.key d.key ≡ lt
          → is_gt (o.cmp d.key b) ≡ true
      further h d p = elim (Ordering-cases (o.cmp e.key b)) [
        | inl c ↦ absurd (cc (rw c at h))
        | inr (inl c) ↦ absurd (cc (rw c at h))
        | inr (inr c) ↦
            rw (o.gt_of_lt b d.key (o.lt_trans b e.key d.key (o.lt_of_gt e.key b c) p)) refl
      ]

  lower-IsCut : (lo : K) (es : List (Entry K V)) → IsAscending es → IsCut (allowed (below lo)) es
  lower-IsCut lo [] s = tt
  lower-IsCut lo (e ∷ es) s = (λ h. All-imp (later h) es s.0, lower-IsCut lo es s.1)
    where
      later :
          not (is_lt (o.cmp e.key lo)) ≡ true
          → (d : Entry K V) → o.cmp e.key d.key ≡ lt
          → not (is_lt (o.cmp d.key lo)) ≡ true
      later h d p = elim (Ordering-cases (o.cmp d.key lo)) [
        | inl c ↦ absurd (cc (rw (o.lt_trans e.key d.key lo p c) at h))
        | inr (inl c) ↦ rw c refl
        | inr (inr c) ↦ rw c refl
      ]

  low-IsCut :
      (lo : Option K) (es : List (Entry K V)) (p : Entry K V → Bool)
      → IsAscending es
      → low_test lo ≡ some p
      → IsCut (allowed p) es
  low-IsCut none es p s e = absurd (cc e)
  low-IsCut (some lo) es p s e = rw (sym (some-injective (below lo) p e)) (lower-IsCut lo es s)

module _ {ℓ κ μ} {K : Type ℓ} {V : Type κ} {H : Type μ} ⦃o : Compare K⦄ ⦃al : Allocator H⦄ where
  walked :
      (m : Omap K V) (lo hi : Option K) (fuel : ℕ) (h : H)
      → IsValid m
      → length (entries m) < fuel
      → let w = start m.root (low_test lo) h in
        Collected
          (pending_range above)
          StuckRange
          (between above (low_test lo) hi (entries m))
          (collect (range_next above) fuel (record { walk = w.0; hi = hi }) w.1)
        ⊎ Stuck w.0 w.1
  walked m lo hi fuel h valid less =
      collect-start above m.root (low_test lo) hi fuel h (upper-IsCut hi (entries m) valid.ordered)
        (λ p e. low-IsCut lo (entries m) p valid.ordered e) less

  -- omap_iter_range on a valid map fails because the allocator refuses the state or the copy of the
  -- upper key; or a loop over it with more rounds than the map has entries collects those between
  -- the two keys in order, cut short only where its stack is full and the allocator refuses the
  -- larger one; or that was so already on the way to the first entry.
  pub collect-omap_range :
      (m : Omap K V) (lo hi : Option K) (fuel : ℕ) (h : H)
      → IsValid m
      → length (entries m) < fuel
      → ((h' : H) × (iter_range (some m) lo hi h ≡ (none, h'))
          × ((al.alloc (sizeof_range_state al.handle_size) h ≡ none)
              ⊎ ((h₁ : H) × (al.alloc (sizeof_range_state al.handle_size) h ≡ some h₁)
                  × (al.alloc m.key_size h₁ ≡ none))))
        ⊎ ((s : RangeState (Entry K V) K) × (h' : H) × (iter_range (some m) lo hi h ≡ (some s, h'))
            × (Collected
                  (pending_range above)
                  StuckRange
                  (between above (low_test lo) hi (entries m))
                  (collect omap_range_iter_next fuel s h')
                ⊎ Stuck s.walk h'))
  unfolding iter_range omap_range_iter_next make_range
  collect-omap_range m lo none fuel h valid less =
      elim (Option-cases (al.alloc (sizeof_range_state al.handle_size) h)) [
        | inl refused ↦ inl (h, rw (refused, make_range) refl, inl refused)
        | inr (h₁, given) ↦
            let w = start m.root (low_test lo) h₁ in
            inr (
              record { walk = w.0; hi = none },
              w.1,
              rw (given, make_range) refl,
              walked m lo none fuel h₁ valid less,
            )
      ]
  collect-omap_range m lo (some b) fuel h valid less =
      elim (Option-cases (al.alloc (sizeof_range_state al.handle_size) h)) [
        | inl refused ↦ inl (h, rw (refused, make_range) refl, inl refused)
        | inr (h₁, given) ↦ elim (Option-cases (al.alloc m.key_size h₁)) [
          | inl refused ↦ inl (
            al.free (sizeof_range_state al.handle_size) h₁,
            rw (given, make_range, refused) refl,
            inr (h₁, given, refused),
          )
          | inr (h₂, copied) ↦
              let w = start m.root (low_test lo) h₂ in
              inr (
                record { walk = w.0; hi = some b },
                w.1,
                rw (given, make_range, copied) refl,
                walked m lo (some b) fuel h₂ valid less,
              )
        ]
      ]

  -- Where the allocator gives the state, omap_iter and omap_iter_rev on a map set up a walk whose
  -- loop, with more rounds than there are entries, collects them in order or in reverse order, cut
  -- short only where its stack is full and the allocator refuses the larger one.
  pub collect-omap_iters :
      (m : Omap K V) (fuel : ℕ) (h h' : H)
      → length (entries m) < fuel
      → al.alloc (sizeof_iter_state al.handle_size) h ≡ some h'
      → (s : IterState (Entry K V)) × (iter (some m) h ≡ (some s, h'))
        × (iter_rev (some m) h ≡ (some s, h'))
        × Collected pending Stuck (entries m) (collect omap_iter_next fuel s h')
        × Collected pending_rev Stuck (reverse (entries m)) (collect omap_iter_rev_next fuel s h')
  unfolding iter iter_rev omap_iter_next omap_iter_rev_next Walk.iter
  collect-omap_iters m fuel h h' less given =
      let t : Avl (Entry K V) = record { root = m.root; len = 0; elem_size = 0 } in
      let (forward, backward) = collect-avl_iters t fuel h' less in
      (_, rw (given, iter) refl, rw (given, iter_rev) refl, forward, backward)
