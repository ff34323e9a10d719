-- ===== src/Prelude/Memory.antt =====
-- The statuses of include/seqc/status.h, `size_t`, and `allocator_t`.
--
-- The allocator comes from the companion library arena_allocator, so it is an interface: `H` is
-- all that it keeps, `none` is NULL, and `handle_size` is `sizeof(allocator_t)`. Sizes are in bytes. What a block holds is the model's: a list
-- of element slots, with `junk` in the slots that nobody has written.
use Prim.Native.Nat.{ℕ, ◌+◌, ◌-◌, ◌*◌, ◌/◌, ◌%◌, ◌^◌, ◌≤◌, ◌<◌, min}
use mathlib.Core.Path.{◌≡◌, ◌∙◌}
use mathlib.Core.List.{List, ◌++◌}
use mathlib.Core.Logic.{◌⊎◌}
use mathlib.Core.Option.{Option, none, some}
use native.Mathlib.Nat.{mod-eq_of_lt, mul-div_cancel}
use native.Mathlib.Omega.{arith}
use seqc.Prelude.Lists.{
  length, take, drop, replicate, length-append, length-take, length-drop, length-replicate,
  take-take, take-append_left,
}

pub data Status : Type 0 where
  ok not_found duplicate oom invalid : Status

-- `seqc_copy_out` of src/collection.h: the copy half of an accessor pair.
abbrev pub copy_out {ℓ} : {A : Type ℓ} → Option A → Status × Option A
copy_out none = (not_found, none)
copy_out (some x) = (ok, some x)

-- `size_t` is 64 bits wide.
abbrev pub size_mod : ℕ
size_mod = 2 ^ 64

abbrev pub size_max : ℕ
size_max = 2 ^ 64 - 1

-- `n * elem_size` as `size_t` computes it.
abbrev pub bytes : ℕ → ℕ → ℕ
bytes n elem_size = n * elem_size % size_mod

-- `n - 1` as `size_t` computes it.
abbrev pub minus_one : ℕ → ℕ
minus_one n = (n % size_mod + (size_mod - 1)) % size_mod

pub minus_one_lem : (n : ℕ) → 0 < n → n < size_mod → minus_one n ≡ n - 1
minus_one_lem n p q = omega arith

-- Where the product does not wrap, the block has as many slots as were asked for.
pub slots-bytes :
    (n elem_size : ℕ) → 0 < elem_size → n * elem_size < size_mod → bytes n elem_size / elem_size ≡ n
slots-bytes n elem_size p h = rw (mod-eq_of_lt h) (mul-div_cancel n p)

pub bytes_eq : (n elem_size : ℕ) → n * elem_size < size_mod → bytes n elem_size ≡ n * elem_size
bytes_eq n elem_size h = mod-eq_of_lt h

pub record Allocator {κ} (H : Type κ) : Type κ where
  pub alloc : ℕ → H → Option H
  pub realloc : ℕ → ℕ → H → Option H
  pub free : ℕ → H → H
  pub handle_size : ℕ

-- No object of a C program is larger than PTRDIFF_MAX bytes, so a request for more fails.
abbrev pub ptrdiff_max : ℕ
ptrdiff_max = 2 ^ 63 - 1

pub record IsBounded {κ} {H : Type κ} (al : Allocator H) : Type κ where
  pub alloc_bound : (n : ℕ) (h : H) → ptrdiff_max < n → al.alloc n h ≡ none
  pub realloc_bound : (old n : ℕ) (h : H) → ptrdiff_max < n → al.realloc old n h ≡ none

-- What stands in memory that was never written.
pub record Uninit {ℓ} (A : Type ℓ) : Type ℓ where
  pub junk : A

-- `memcpy` of `n` slots from `src` on in one block to `dst` on in another.
unfoldable pub memcpy {ℓ} : {A : Type ℓ} → List A → ℕ → List A → ℕ → ℕ → List A
memcpy to dst from src n = take dst to ++ (take n (drop src from) ++ drop (dst + n) to)

-- `memmove` of `n` slots from `src` to `dst` in one block.
unfoldable pub memmove {ℓ} : {A : Type ℓ} → List A → ℕ → ℕ → ℕ → List A
memmove buf dst src n = take dst buf ++ (take n (drop src buf) ++ drop (dst + n) buf)

pub length-memcpy {ℓ} :
    {A : Type ℓ} (to : List A) (dst : ℕ) (from : List A) (src n : ℕ)
    → dst + n ≤ length to
    → src + n ≤ length from
    → length (memcpy to dst from src n) ≡ length to
unfolding memcpy
length-memcpy to dst from src n p q = omega (
  arith,
  length-append (take dst to) (take n (drop src from) ++ drop (dst + n) to),
  length-append (take n (drop src from)) (drop (dst + n) to),
  length-take dst to,
  length-take n (drop src from),
  length-drop src from,
  length-drop (dst + n) to,
)

pub length-memmove {ℓ} :
    {A : Type ℓ} (buf : List A) (dst src n : ℕ)
    → dst + n ≤ length buf
    → src + n ≤ length buf
    → length (memmove buf dst src n) ≡ length buf
unfolding memmove memcpy
length-memmove buf dst src n p q = length-memcpy buf dst buf src n p q

-- `if (st != SEQC_OK) return st;` between two parts of an operation.
abbrev pub on_ok {ℓ κ μ} :
    {S : Type ℓ} {T : Type μ} {H : Type κ}
    → Status × S × H
    → (S → T)
    → (S → H → Status × T × H)
    → Status × T × H
on_ok (ok, s, h) as_is next = next s h
on_ok (st, s, h) as_is next = (st, as_is s, h)

-- An operation on `s` either returns SEQC_OOM, for `Refusal`, and leaves all as it was, or returns
-- SEQC_OK with a state that has `Post`.
abbrev pub Grows {ℓ κ μ ν} :
    {S : Type ℓ} {H : Type κ}
    → S
    → H
    → Status × Option S × H
    → Type μ
    → (S → Type ν)
    → Type (ℓ ⊔ κ ⊔ μ ⊔ ν)
Grows {S} {H} s h result Refusal Post =
    ((result ≡ (oom, some s, h)) × Refusal)
    ⊎ ((t : S) × (h' : H) × (result ≡ (ok, some t, h')) × Post t)

-- An operation that takes an element out of `s` either returns SEQC_NOT_FOUND, for `Empty`, and
-- leaves all as it was, or returns SEQC_OK with an element and a state that have `Post`.
abbrev pub Takes {ℓ κ μ ν} :
    {A : Type κ} {S : Type ℓ}
    → S
    → Status × Option A × Option S
    → Type μ
    → (A → S → Type ν)
    → Type (ℓ ⊔ κ ⊔ μ ⊔ ν)
Takes {A} {S} s result Empty Post =
    ((result ≡ (not_found, none, some s)) × Empty)
    ⊎ ((x : A) × (t : S) × (result ≡ (ok, some x, some t)) × Post x t)

module _ {ℓ} {A : Type ℓ} ⦃u : Uninit A⦄ where
  -- The slots of a new block of `n` bytes.
  unfoldable pub fresh : ℕ → ℕ → List A
  fresh n elem_size = replicate (n / elem_size) u.junk

  -- The slots of a block after a reallocation, which keeps the first `old` of its bytes.
  unfoldable pub moved : ℕ → ℕ → ℕ → List A → List A
  moved old n elem_size buf =
      let kept = take (min old n / elem_size) buf in
      kept ++ replicate (n / elem_size - length kept) u.junk

  pub length-moved :
      (old n elem_size : ℕ) (buf : List A)
      → length buf ≤ n / elem_size
      → length (moved old n elem_size buf) ≡ n / elem_size
  unfolding moved
  length-moved old n elem_size buf h =
      let kept = take (min old n / elem_size) buf in
      omega (
        arith,
        length-append kept (replicate (n / elem_size - length kept) u.junk),
        length-replicate (n / elem_size - length kept) u.junk,
        length-take (min old n / elem_size) buf,
      )

  -- What the reallocation keeps.
  pub take-moved :
      (k old n elem_size : ℕ) (buf : List A)
      → k ≤ length buf
      → k ≤ min old n / elem_size
      → take k (moved old n elem_size buf) ≡ take k buf
  unfolding moved
  take-moved k old n elem_size buf h p =
      take-append_left k (take (min old n / elem_size) buf) _
        (omega (arith, length-take (min old n / elem_size) buf))
      ∙ take-take k (min old n / elem_size) buf p

pub length-fresh {ℓ} :
    (A : Type ℓ) ⦃u : Uninit A⦄ (n elem_size : ℕ)
    → length {A = A} (fresh n elem_size) ≡ n / elem_size
unfolding fresh
length-fresh A ⦃u⦄ n elem_size = length-replicate (n / elem_size) u.junk
