-- ===== src/Fifo.antt =====
-- What src/queue/queue.c and src/ringbuf/ringbuf.c promise: a first-in-first-out sequence, whose
-- push may be refused.
use seqc.Prelude.{List, [], ◌∷◌, ◌++◌}

-- A client's calls, and what each returns.
pub data Op {ℓ} (A : Type ℓ) : Type ℓ where
  put : A → Op A
  get : Op A

pub data Reply {ℓ} (A : Type ℓ) : Type ℓ where
  pushed refused nothing : Reply A
  got : A → Reply A

-- `Trace xs ops rs`: from the sequence `xs`, the calls `ops` may return `rs`. Only a put may be
-- refused, and then the sequence is as it was.
pub data Trace {ℓ} {A : Type ℓ} : List A → List (Op A) → List (Reply A) → Type ℓ where
  done : {xs : List A} → Trace xs [] []
  put_pushed :
      {xs : List A} {x : A} {ops : List (Op A)} {rs : List (Reply A)}
      → Trace (xs ++ (x ∷ [])) ops rs
      → Trace xs (Op.put x ∷ ops) (Reply.pushed ∷ rs)
  put_refused :
      {xs : List A} {x : A} {ops : List (Op A)} {rs : List (Reply A)}
      → Trace xs ops rs
      → Trace xs (Op.put x ∷ ops) (Reply.refused ∷ rs)
  get_got :
      {xs : List A} {x : A} {ops : List (Op A)} {rs : List (Reply A)}
      → Trace xs ops rs
      → Trace (x ∷ xs) (Op.get ∷ ops) (Reply.got x ∷ rs)
  get_nothing :
      {ops : List (Op A)} {rs : List (Reply A)}
      → Trace [] ops rs
      → Trace [] (Op.get ∷ ops) (Reply.nothing ∷ rs)
