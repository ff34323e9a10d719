-- ===== src/Iter/Group/Runs.antt =====
-- What iter_window and iter_chunks hand on: the windows and the chunks of their source.
use seqc.Prelude.{
  ℕ, zero, suc, ◌+◌, ◌-◌, ◌≤◌, ◌<◌, ◌≡◌, refl, sym, ap, ◌∙◌, inl, inr, true, false, List, [], ◌∷◌,
  ◌++◌, append_assoc, length, take, drop, set, length-append, length-drop, take_all, drop_past,
  take-append_exact, memmove, ltb, ◌==◌, if◌then◌else◌, Allocator, arith,
}
use seqc.Iter.{got, Source, Produces, ends, gives, Yields}
use seqc.Iter.Group.{
  first_window, slide_window, window_next, close_chunk, filled_chunk, chunk_next, window_source,
  chunk_source,
}
use seqc.Iter.Group.Fill.{fill_slots_lem}

-- The first `n` elements, then the chunks of what is behind them, `m` chunks at most.
abbrev pub chunk_list {ℓ} : {A : Type ℓ} → ℕ → ℕ → List A → List (List A)
chunk_list zero n xs = []
chunk_list (suc m) n [] = []
chunk_list (suc m) n (x ∷ xs) = take n (x ∷ xs) ∷ chunk_list m n (drop n (x ∷ xs))

-- The chunks of `n` elements, with the last one that may be shorter.
abbrev pub chunks {ℓ} : {A : Type ℓ} → ℕ → List A → List (List A)
chunks n xs = chunk_list (length xs) n xs

-- Every `n` neighbours, none where `n` is 0.
abbrev pub windows {ℓ} : {A : Type ℓ} → ℕ → List A → List (List A)
windows zero xs = []
windows (suc k) [] = []
windows (suc k) (x ∷ xs) =
    if ltb (length xs) k then [] else take (suc k) (x ∷ xs) ∷ windows (suc k) xs

chunk_list-nil {ℓ} : {A : Type ℓ} (m n : ℕ) → chunk_list {A = A} m n [] ≡ []
chunk_list-nil zero n = refl
chunk_list-nil (suc m) n = refl

module _ {ℓ κ μ} {A : Type ℓ} {S : Type κ} {H : Type μ} ⦃al : Allocator H⦄
    (src : Source A S H) where
  pub chunk-Yields :
      (m n : ℕ) (buf : List A) {s s' : S} {h h' : H} {xs : List A}
      → 0 < n
      → length buf ≡ n
      → length xs ≤ m
      → Produces src s h xs s' h'
      → Yields
          (chunk_source src)
          (record { source = s; buf = buf; n = n; done = false })
          h
          (chunk_list m n xs)
  unfolding chunk_source chunk_next filled_chunk close_chunk
  chunk-Yields m n buf {s} {s'} {h} {h'} {xs = []} pos slots bound p =
      elim (fill_slots_lem src n 0 buf p (omega arith)) [
        | inl (enough, b, s₁, h₁, e, f, g, rest) ↦ absurd (omega arith)
        | inr (few, buf', result, front, same) ↦ rw (chunk_list-nil {A = A} m n) (
          record { source = s'; buf = buf'; n = n; done = false },
          h',
          ends (rw (chunk_next, result, close_chunk) refl),
        )
      ]
  chunk-Yields zero n buf {xs = x ∷ xs} pos slots bound p = absurd (omega arith)
  chunk-Yields (suc m) n buf {s} {s'} {h} {h'} {xs = x ∷ xs} pos slots bound p =
      elim (fill_slots_lem src n 0 buf p (omega arith)) [
        | inl (enough, buf', s₁, h₁, result, front, same, rest) ↦
            let some_read : (n == 0) ≡ false = ground arith in
            let complete : ltb n n ≡ false = ground arith in
            let shown : take n buf' ≡ take n (x ∷ xs) =
              ap (λ k. take k buf') (omega arith) ∙ front in
            let (t, h₂, q) =
              chunk-Yields m n buf' pos (same ∙ slots) (omega (arith, length-drop n (x ∷ xs)))
                rest in
            (t, h₂, gives (rw (chunk_next, result, close_chunk, some_read, complete, shown) refl) q)
        | inr (few, buf', result, front, same) ↦
            let count = length (x ∷ xs) in
            let some_read : (0 + count == 0) ≡ false = ground arith in
            let partial : ltb (0 + count) n ≡ true = ground arith in
            let shown : take (0 + count) buf' ≡ take n (x ∷ xs) =
              front ∙ sym (take_all n (x ∷ xs) (omega arith)) in
            let over : chunk_list m n (drop n (x ∷ xs)) ≡ [] =
              ap (chunk_list m n) (drop_past n (x ∷ xs) (omega arith)) ∙ chunk_list-nil m n in
            (
              record { source = s'; buf = buf'; n = n; done = true },
              h',
              gives {s₁ = record { source = s'; buf = buf'; n = n; done = true }} {h₁ = h'}
                  (rw (chunk_next, result, close_chunk, some_read, partial, shown) refl)
                  (rw over (ends refl)),
            )
      ]

windows_short {ℓ} : {A : Type ℓ} (k : ℕ) (xs : List A) → length xs ≤ k → windows (suc k) xs ≡ []
windows_short k [] h = refl
windows_short k (x ∷ xs) h = rw (let few : ltb (length xs) k ≡ true = ground arith in few) refl

module _ {ℓ} {A : Type ℓ} where
  windows_cons :
      (k : ℕ) (y : A) (w xs : List A)
      → length w ≡ k
      → windows (suc k) (y ∷ (w ++ xs)) ≡ (y ∷ w) ∷ windows (suc k) (w ++ xs)
  windows_cons k y w xs size =
      let enough : ltb (length (w ++ xs)) k ≡ false = ground (arith, length-append w xs) in
      rw (enough, take-append_exact k w xs size) refl

  set-last : (w z : List A) (x : A) → length z ≡ 1 → set (w ++ z) (length w) x ≡ w ++ (x ∷ [])
  set-last [] [] x one = absurd (omega arith)
  set-last [] (a ∷ []) x one = refl
  set-last [] (a ∷ (b ∷ z)) x one = absurd (omega arith)
  set-last (y ∷ w) z x one = ap (λ r. y ∷ r) (set-last w z x one)

  -- The buffer after a slide.
  slid :
      (k : ℕ) (y : A) (w : List A) (x : A)
      → length w ≡ k
      → set (memmove (y ∷ w) 0 1 (suc k - 1)) (suc k - 1) x ≡ w ++ (x ∷ [])
  unfolding memmove
  slid k y w x size =
      let count : suc k - 1 ≡ length w = omega arith in
      rw (count, take_all (length w) w (omega arith))
        (set-last w (drop (0 + length w) (y ∷ w)) x
          (omega (arith, length-drop (0 + length w) (y ∷ w))))

  split_first :
      (k : ℕ) (b : List A)
      → length b ≡ suc k
      → (y : A) × (w : List A) × (b ≡ y ∷ w) × (length w ≡ k)
  split_first k [] size = absurd (omega arith)
  split_first k (y ∷ w) size = (y, w, refl, omega arith)

module _ {ℓ κ μ} {A : Type ℓ} {S : Type κ} {H : Type μ} ⦃al : Allocator H⦄
    (src : Source A S H) where
  slide-Yields :
      (k : ℕ) (y : A) (w : List A) {s s' : S} {h h' : H} {xs : List A}
      → length w ≡ k
      → Produces src s h xs s' h'
      → Yields
          (window_source src)
          (record { source = s; buf = y ∷ w; n = suc k; primed = true })
          h
          (windows (suc k) (w ++ xs))
  unfolding window_source window_next
  slide-Yields k y w {s} {s'} {h} {h'} size (ends e) =
      let over : windows (suc k) (w ++ []) ≡ [] =
        windows_short k (w ++ []) (omega (arith, length-append w [])) in
      let some_slots : (suc k == 0) ≡ false = ground arith in
      rw over (
        record { source = s'; buf = memmove (y ∷ w) 0 1 (suc k - 1); n = suc k; primed = true },
        h',
        ends (rw (window_next, some_slots, slide_window, e) refl),
      )
  slide-Yields k y w {s} {s'} {h} {h'} size (gives {s₁ = s₁} {h₁ = h₁} {x = x} {xs = xs} e p) =
      let some_slots : (suc k == 0) ≡ false = ground arith in
      let (y', w', split, size') =
        split_first k (w ++ (x ∷ [])) (omega (arith, length-append w (x ∷ []))) in
      let buf = slid k y w x size ∙ split in
      let shown : take (suc k) (y' ∷ w') ≡ y' ∷ w' = take_all (suc k) (y' ∷ w') (omega arith) in
      let whole : w ++ (x ∷ xs) ≡ y' ∷ (w' ++ xs) =
        sym (append_assoc w (x ∷ []) xs) ∙ ap (λ r. r ++ xs) split in
      let (t, h₂, q) = slide-Yields k y' w' size' p in
      rw (whole, windows_cons k y' w' xs size')
        (t, h₂, gives (rw (window_next, some_slots, slide_window, e, buf, shown) refl) q)

take-drop {ℓ} : {A : Type ℓ} (n : ℕ) (xs : List A) → xs ≡ take n xs ++ drop n xs
take-drop zero xs = refl
take-drop (suc n) [] = refl
take-drop (suc n) (x ∷ xs) = ap (λ r. x ∷ r) (take-drop n xs)

module _ {ℓ κ μ} {A : Type ℓ} {S : Type κ} {H : Type μ} ⦃al : Allocator H⦄
    (src : Source A S H) where
  window-Yields :
      (n : ℕ) (buf : List A) {s s' : S} {h h' : H} {xs : List A}
      → length buf ≡ n
      → Produces src s h xs s' h'
      → Yields
          (window_source src)
          (record { source = s; buf = buf; n = n; primed = false })
          h
          (windows n xs)
  unfolding window_source window_next
  window-Yields zero buf {s} {s'} {h} slots p = (_, h, ends refl)
  window-Yields (suc k) buf {s} {s'} {h} {h'} {xs} slots p =
      let some_slots : (suc k == 0) ≡ false = ground arith in
      elim (fill_slots_lem src (suc k) 0 buf p (omega arith)) [
        | inl (enough, buf', s₁, h₁, result, front, same, rest) ↦
            let (y, w, split, size) = split_first k buf' (same ∙ slots) in
            let shown : take (suc k) (y ∷ w) ≡ y ∷ w = take_all (suc k) (y ∷ w) (omega arith) in
            let first : take (suc k) xs ≡ y ∷ w =
              sym (ap (λ n. take n buf') {x = suc k} {y = 0 + suc k} (omega arith) ∙ front)
              ∙ take_all (suc k) buf' (omega arith)
              ∙ split in
            let whole : xs ≡ y ∷ (w ++ drop (suc k) xs) =
              take-drop (suc k) xs ∙ ap (λ r. r ++ drop (suc k) xs) first in
            let (t, h₂, q) = slide-Yields src k y w size rest in
            let answer : windows (suc k) xs ≡ (y ∷ w) ∷ windows (suc k) (w ++ drop (suc k) xs) =
              ap (windows (suc k)) whole ∙ windows_cons k y w (drop (suc k) xs) size in
            let step : window_next src (record { source = s; buf = buf; n = suc k; primed = false })
                  h
                ≡ got (y ∷ w) (record { source = s₁; buf = y ∷ w; n = suc k; primed = true }) h₁ =
              rw (window_next, some_slots, result, first_window, split, shown) refl in
            rw answer (t, h₂, gives step q)
        | inr (few, buf', result, front, same) ↦ rw (windows_short k xs (omega arith)) (
          record { source = s'; buf = buf'; n = suc k; primed = false },
          h',
          ends (rw (window_next, some_slots, result, first_window) refl),
        )
      ]

  -- Of a source that yields some elements, and for n above 0 with a block of n slots, iter_window
  -- yields all runs of n neighbours, and iter_chunks the runs of n elements one behind the other
  -- and what is left as the last one.
  pub groups-Yields :
      (n : ℕ) (buf : List A) {s s' : S} {h h' : H} {xs : List A}
      → 0 < n
      → length buf ≡ n
      → Produces src s h xs s' h'
      → Yields
          (window_source src)
          (record { source = s; buf = buf; n = n; primed = false })
          h
          (windows n xs)
        × Yields
            (chunk_source src)
            (record { source = s; buf = buf; n = n; done = false })
            h
            (chunks n xs)
  groups-Yields n buf {xs = xs} pos slots p =
      (window-Yields n buf slots p, chunk-Yields src (length xs) n buf pos slots (omega arith) p)
