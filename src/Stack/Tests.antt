-- ===== src/Stack/Tests.antt =====
-- Runs of src/stack/stack.c on a stack of numbers of 8 bytes.
use seqc.Prelude.{ℕ, ◌≡◌, refl, some, ok, [], ◌∷◌, arith}
use seqc.Samples.{budget, budget-IsBounded, zeroed, plenty}
use seqc.Vec as Array
use seqc.Vec.{Vec}
use seqc.Stack.{Stack, push, pop}
use seqc.Stack.Refine.{IsStack, pop-push}

abbrev one_block : Vec ℕ
one_block = record { buf = 4 ∷ (0 ∷ []); len = 1; cap = 2; elem_size = 8 }

abbrev before : Stack ℕ
before = record { vec = some one_block }

abbrev after : Stack ℕ
after = record { vec = some (record { buf = 4 ∷ (7 ∷ []); len = 2; cap = 2; elem_size = 8 }) }

before-IsStack : IsStack 8 (4 ∷ []) before
before-IsStack = record {
  v = one_block;
  has = refl;
  holds = (
    record {
      slots = refl;
      filled = omega arith;
      sized = omega arith;
      narrow = omega arith;
      small = omega arith;
    },
    refl,
    refl,
  );
}

pushed : push (some before) (some 7) plenty ≡ (ok, some after, plenty)
unfolding push Array.push
pushed = refl

pop-push_example : (r : Stack ℕ) × (pop (some after) ≡ (ok, some 7, some r)) × IsStack 8 (4 ∷ []) r
pop-push_example =
    pop-push before after 8 (4 ∷ []) 7 plenty plenty budget-IsBounded before-IsStack pushed
