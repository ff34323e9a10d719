-- ===== src/Deque.antt =====
-- What src/ringbuf/ringbuf.c promises: a sequence with two ends, whose pushes may be refused.
use seqc.Prelude.{◌≡◌, List, [], ◌∷◌, ◌++◌}

-- A client's calls, and what each returns.
pub data Op {ℓ} (A : Type ℓ) : Type ℓ where
  put_back put_front : A → Op A
  get_front get_back : Op A

pub data Reply {ℓ} (A : Type ℓ) : Type ℓ where
  pushed refused nothing : Reply A
  got : A → Reply A

-- `Trace xs ops rs`: from the sequence `xs`, the calls `ops` may return `rs`. Only a put may be
-- refused, and then the sequence is as it was.
pub data Trace {ℓ} {A : Type ℓ} : List A → List (Op A) → List (Reply A) → Type ℓ where
  done : {xs : List A} → Trace xs [] []
  back_pushed :
      {xs : List A} {x : A} {ops : List (Op A)} {rs : List (Reply A)}
      → Trace (xs ++ (x ∷ [])) ops rs
      → Trace xs (Op.put_back x ∷ ops) (Reply.pushed ∷ rs)
  back_refused :
      {xs : List A} {x : A} {ops : List (Op A)} {rs : List (Reply A)}
      → Trace xs ops rs
      → Trace xs (Op.put_back x ∷ ops) (Reply.refused ∷ rs)
  front_pushed :
      {xs : List A} {x : A} {ops : List (Op A)} {rs : List (Reply A)}
      → Trace (x ∷ xs) ops rs
      → Trace xs (Op.put_front x ∷ ops) (Reply.pushed ∷ rs)
  front_refused :
      {xs : List A} {x : A} {ops : List (Op A)} {rs : List (Reply A)}
      → Trace xs ops rs
      → Trace xs (Op.put_front x ∷ ops) (Reply.refused ∷ rs)
  front_got :
      {xs : List A} {x : A} {ops : List (Op A)} {rs : List (Reply A)}
      → Trace xs ops rs
      → Trace (x ∷ xs) (Op.get_front ∷ ops) (Reply.got x ∷ rs)
  front_nothing :
      {ops : List (Op A)} {rs : List (Reply A)}
      → Trace [] ops rs
      → Trace [] (Op.get_front ∷ ops) (Reply.nothing ∷ rs)
  back_got :
      {xs ys : List A} {x : A} {ops : List (Op A)} {rs : List (Reply A)}
      → Trace xs ops rs
      → ys ≡ xs ++ (x ∷ [])
      → Trace ys (Op.get_back ∷ ops) (Reply.got x ∷ rs)
  back_nothing :
      {ops : List (Op A)} {rs : List (Reply A)}
      → Trace [] ops rs
      → Trace [] (Op.get_back ∷ ops) (Reply.nothing ∷ rs)
