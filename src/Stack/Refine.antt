-- ===== src/Stack/Refine.antt =====
-- A stack over a valid vector is last-in-first-out.
use seqc.Prelude.{
  ℕ, ◌≡◌, refl, sym, ◌∙◌, inl, inr, some, List, [], ◌∷◌, ◌++◌, append-ne-nil, append_injective, ok,
  Allocator, IsBounded, Uninit, Grows,
}
use seqc.Vec.{Vec}
use seqc.Vec.Valid.{contents, Holds}
use seqc.Vec.Grow.{Blocked, vec_push_lem}
use seqc.Vec.Edit.{vec_pop_lem}
use seqc.Stack.{Stack, push, pop}

module _ {ℓ} {A : Type ℓ} where
  -- `s` stands on a valid vector of elements of `size` bytes, with `xs` in it, the top last.
  pub record IsStack (size : ℕ) (xs : List A) (s : Stack A) : Type ℓ where
    pub v : Vec A
    pub has : s.vec ≡ some v
    pub holds : Holds size xs v

module _ {ℓ κ} {A : Type ℓ} {H : Type κ} ⦃u : Uninit A⦄ ⦃al : Allocator H⦄ where
  -- With an allocator that refuses requests of more than PTRDIFF_MAX bytes, stack_push on a stack
  -- over a valid vector puts the element on top and keeps the vector valid, or fails with all as it
  -- was, only where the vector is full and the allocator refuses the next block.
  pub push-IsStack :
      (s : Stack A) (size : ℕ) (xs : List A) (x : A) (h : H)
      → IsBounded al
      → IsStack size xs s
      → Grows s h
          (push (some s) (some x) h)
          ((v : Vec A) × (s.vec ≡ some v) × Blocked v h)
          (IsStack size (xs ++ (x ∷ [])))
  unfolding push
  push-IsStack s size xs x h b p =
      let (valid, same, sized) = p.holds in
      elim (vec_push_lem p.v x h b valid) [
        | inl (e, (full, refused)) ↦ inl (rw (p.has, e), (p.v, p.has, (full, refused)))
        | inr (w, h', e, held) ↦ inr (
          record { vec = some w },
          h',
          rw (p.has, e),
          record { v = w; has = refl; holds = rw (same, sized) at held },
        )
      ]

  -- With an allocator that refuses requests of more than PTRDIFF_MAX bytes, after a stack_push that
  -- succeeded on a stack over a valid vector, stack_pop hands the same element out and leaves a
  -- stack with the elements before the push.
  pub pop-push :
      (s t : Stack A) (size : ℕ) (xs : List A) (x : A) (h h' : H)
      → IsBounded al
      → IsStack size xs s
      → push (some s) (some x) h ≡ (ok, some t, h')
      → (r : Stack A) × (pop (some t) ≡ (ok, some x, some r)) × IsStack size xs r
  unfolding pop push
  pop-push s t size xs x h h' b p done =
      let (valid, same, sized) = p.holds in
      elim (vec_push_lem p.v x h b valid) [
        | inl (e, (full, refused)) ↦ absurd (cc (rw (p.has, e) at done))
        | inr (w, h₂, e, (good, grown, size_w)) ↦
            let top : t.vec ≡ some w = cc (rw (p.has, e) at done) in
            elim (vec_pop_lem w good) [
              | inl (e₂, empty) ↦ absurd (append-ne-nil (contents p.v) x (sym grown ∙ empty))
              | inr (y, r, e₂, (left, shrunk, size_r)) ↦
                  let (front, last) =
                    append_injective (contents r) (contents p.v) y x (sym shrunk ∙ grown) in
                  (
                    record { vec = some r },
                    rw (top, e₂, last),
                    record {
                      v = r;
                      has = refl;
                      holds = (left, front ∙ same, size_r ∙ size_w ∙ sized);
                    },
                  )
            ]
      ]
