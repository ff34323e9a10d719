-- ===== src/Vec/Tests.antt =====
-- Runs of src/vec/vec.c on vectors of numbers of 8 bytes.
use seqc.Prelude.{ℕ, ◌≡◌, refl, some, ok, oom, [], ◌∷◌, arith, Grows}
use seqc.Samples.{budget, budget-IsBounded, zeroed, plenty, scarce}
use seqc.Vec.{Vec, push, insert, remove}
use seqc.Vec.Valid.{IsValid, Holds}
use seqc.Vec.Grow.{Blocked, vec_push_lem, vec_insert_lem}
use seqc.Vec.Edit.{vec_remove_lem}

-- Two elements in a block of two slots, and in a block of three.
abbrev full : Vec ℕ
full = record { buf = 4 ∷ (9 ∷ []); len = 2; cap = 2; elem_size = 8 }

abbrev roomy : Vec ℕ
roomy = record { buf = 4 ∷ (9 ∷ (0 ∷ [])); len = 2; cap = 3; elem_size = 8 }

full-IsValid : IsValid full
full-IsValid = record {
  slots = refl;
  filled = omega arith;
  sized = omega arith;
  narrow = omega arith;
  small = omega arith;
}

roomy-IsValid : IsValid roomy
roomy-IsValid = record {
  slots = refl;
  filled = omega arith;
  sized = omega arith;
  narrow = omega arith;
  small = omega arith;
}

-- A push moves the block where there is memory, and is refused where there is none.
push_moves : (push (some full) (some 7) plenty).0 ≡ ok
unfolding push
push_moves = refl

push_refused : push (some full) (some 7) scarce ≡ (oom, some full, scarce)
unfolding push
push_refused = refl

vec_push_example :
    Grows full plenty
      (push (some full) (some 7) plenty)
      (Blocked full plenty)
      (Holds 8 (4 ∷ (9 ∷ (7 ∷ []))))
vec_push_example = vec_push_lem full 7 plenty budget-IsBounded full-IsValid

vec_insert_example :
    Grows full plenty
      (insert (some full) 1 (some 7) plenty)
      (Blocked full plenty)
      (Holds 8 (4 ∷ (7 ∷ (9 ∷ []))))
vec_insert_example = vec_insert_lem full 1 7 plenty budget-IsBounded full-IsValid (omega arith)

vec_remove_example : (w : Vec ℕ) × (remove (some roomy) 0 ≡ some w) × Holds 8 (9 ∷ []) w
vec_remove_example = vec_remove_lem roomy 0 roomy-IsValid
