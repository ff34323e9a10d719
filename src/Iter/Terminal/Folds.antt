-- ===== src/Iter/Terminal/Folds.antt =====
-- The results of iter_count, iter_foreach, iter_reduce, iter_find, iter_any and iter_all, and what a
-- terminal returns where it can get no buffer.
use native.Mathlib.Nat.{mod-lt, mod-add-mod}
use seqc.Prelude.{
  ℕ, suc, ◌+◌, ◌%◌, ◌<◌, ◌≡◌, refl, sym, ap, ◌∙◌, inl, inr, Bool, true, false, not, none, some,
  List, [], ◌∷◌, length, if◌then◌else◌, Bool-cases, size_mod, Allocator, arith,
}
use seqc.Iter.{Source, iter_destroy, Produces}
use seqc.Iter.Slice.Reads.{find}
use seqc.Iter.Terminal.{
  scratch_acquire, scratch_release, finish, terminal, is_some, iter_count, iter_foreach,
  iter_reduce, iter_find, iter_any, all_valid, iter_all,
}
use seqc.Iter.Terminal.Result.{
  walk, foldl, any, all, Returns, each_next-walk, terminal-foldl, terminal-walk,
}

foldl-count {ℓ} :
    {A : Type ℓ} (n : ℕ) (xs : List A)
    → n < size_mod
    → foldl (λ k (x : A). (k + 1) % size_mod) n xs ≡ (n + length xs) % size_mod
foldl-count n [] small = omega arith
foldl-count n (x ∷ xs) small =
    foldl-count ((n + 1) % size_mod) xs (mod-lt (n + 1) {m = size_mod} (omega arith))
    ∙ mod-add-mod (n + 1) size_mod (length xs)
    ∙ ap (λ k. k % size_mod) (let a : n + 1 + length xs ≡ n + suc (length xs) = omega arith in a)

module _ {ℓ} {A : Type ℓ} (pred : A → Bool) where
  walk-find :
      (xs : List A)
      → walk (λ found x. if pred x then some x else found) is_some none xs ≡ find pred xs
  walk-find [] = refl
  walk-find (x ∷ xs) = elim (Bool-cases (pred x)) [
    | inl holds ↦ rw holds refl
    | inr fails ↦ rw fails (walk-find xs)
  ]

  walk-any :
      (xs : List A)
      → walk (λ found x. if pred x then true else found) (λ found. found) false xs ≡ any pred xs
  walk-any [] = refl
  walk-any (x ∷ xs) = elim (Bool-cases (pred x)) [
    | inl holds ↦ rw holds refl
    | inr fails ↦ rw fails (walk-any xs)
  ]

  walk-all :
      (xs : List A) → walk (λ whole x. if pred x then whole else false) not true xs ≡ all pred xs
  walk-all [] = refl
  walk-all (x ∷ xs) = elim (Bool-cases (pred x)) [
    | inl holds ↦ rw holds (walk-all xs)
    | inr fails ↦ rw fails refl
  ]

module _ {ℓ κ μ} {A : Type ℓ} {S : Type κ} {H : Type μ} ⦃al : Allocator H⦄
    (src : Source A S H) where
  -- Where the scratch buffer is got, of a source that yields some elements, with more rounds than
  -- there are, iter_count returns their number as a size_t, and iter_foreach and iter_reduce the
  -- fold of what they are given over the elements, and each has destroyed the source at its end and
  -- released its buffer.
  pub terminal_folds {ν} :
      {C : Type ν} (combine : C → A → C) (acc : C) (fuel : ℕ) {s s' : S} (h : H) {h₀ h' : H}
      {xs : List A}
      → scratch_acquire src.elem_size h ≡ some h₀
      → Produces src s h₀ xs s' h'
      → length xs < fuel
      → (let after = scratch_release src.elem_size (src.destroy s' h') in
          (iter_count src fuel (some s) h ≡ some (length xs % size_mod, after))
          × (iter_foreach src combine fuel acc (some s) h ≡ some (foldl combine acc xs, after))
          × (iter_reduce src combine fuel acc (some s) h ≡ some (foldl combine acc xs, after)))
  unfolding iter_count iter_foreach iter_reduce
  terminal_folds combine acc fuel h {xs = xs} room p less =
      let zero_first : 0 + length xs ≡ length xs = omega arith in
      let counted : length xs % size_mod ≡ foldl (λ k (x : A). (k + 1) % size_mod) 0 xs =
        ap (λ k. k % size_mod) (sym zero_first) ∙ sym (foldl-count 0 xs (omega arith)) in
      (
        rw counted (terminal-foldl src (λ k x. (k + 1) % size_mod) fuel 0 h room p less),
        terminal-foldl src combine fuel acc h room p less,
        terminal-foldl src combine fuel acc h room p less,
      )

  -- Where the scratch buffer is got, of a source that yields some elements, with more rounds than
  -- there are, iter_find returns the first element that passes the test, iter_any whether one does
  -- and iter_all whether all do, and each has destroyed the source and released its buffer.
  pub terminal_searches :
      (pred : A → Bool) (fuel : ℕ) {s s' : S} (h : H) {h₀ h' : H} {xs : List A}
      → scratch_acquire src.elem_size h ≡ some h₀
      → Produces src s h₀ xs s' h'
      → length xs < fuel
      → Returns src (iter_find src pred fuel (some s) h) (find pred xs)
        × Returns src (iter_any src pred fuel (some s) h) (any pred xs)
        × Returns src (iter_all src pred fuel (some s) h) (all pred xs)
  unfolding iter_find iter_any iter_all all_valid terminal finish iter_destroy
  terminal_searches pred fuel {s} h {xs = xs} room p less =
      let (s₁, h₁, e) =
        each_next-walk src (λ whole x. if pred x then whole else false) not fuel true p less in
      (
        rw (sym (walk-find pred xs)) (terminal-walk src _ is_some fuel none h room p less),
        rw (sym (walk-any pred xs)) (terminal-walk src _ (λ found. found) fuel false h room p less),
        rw (sym (walk-all pred xs)) (s₁, h₁, rw (room, all_valid, e) refl),
      )
