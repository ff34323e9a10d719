-- ===== src/Iter/Build/Account.antt =====
-- The bytes that the adaptors of src/iter/iter.c hold: what they get, what they give back when they
-- cannot be made, and what they give back when they are destroyed.
use seqc.Prelude.{
  Bool, false, ℕ, ◌+◌, ◌≤◌, refl, inl, inr, none, some, Option-cases, Allocator, arith,
}
use seqc.Iter.{Source, out_of_fuel}
use seqc.Iter.Each.{sizeof_map, sizeof_enum, enum_source, enum_drop, map_source, map_drop}
use seqc.Iter.Prefix.{
  sizeof_take, take_source, take_drop, sizeof_take_while, take_while_source, take_while_drop,
}
use seqc.Iter.Suffix.{
  sizeof_skip, sizeof_skip_while, skip_source, skip_while_source, skip_drop, skip_while_drop,
}
use seqc.Iter.Select.{
  sizeof_filter, sizeof_dedup, filter_source, filter_drop, dedup_source, dedup_drop,
}
use seqc.Iter.Peek.{sizeof_peekable, peekable_source, peekable_drop}
use seqc.Iter.Build.{
  iter_filter, iter_take, iter_take_while, iter_skip, iter_skip_while, iter_enumerate,
  iter_peekable, iter_dedup, iter_map,
}
use seqc.Iter.Build.Release.{
  IsAccount, Releases, Built, Releases-free, Releases-two, undo, adapt-Built, adapt_buffered-Built,
}

module _ {ℓ κ μ} {A : Type ℓ} {S : Type κ} {H : Type μ} ⦃al : Allocator H⦄ (src : Source A S H)
    (used : H → ℕ) (acc : IsAccount al used) (s : S) (k : ℕ) (h : H)
    (owns : Releases used (src.destroy s) k) (enough : k ≤ used h) where
  plain_adaptors-Built :
      (n : ℕ) (pred : A → Bool) (fuel : ℕ)
      → (let handle = al.handle_size in
          Built
            (filter_source src pred fuel)
            used
            k
            (sizeof_filter src handle)
            h
            (iter_filter src (some s) h)
          × Built (take_source src) used k (sizeof_take src handle) h (iter_take src n (some s) h)
          × Built
              (take_while_source src pred)
              used
              k
              (sizeof_take_while src handle)
              h
              (iter_take_while src (some s) h)
          × Built (skip_source src) used k (sizeof_skip src handle) h (iter_skip src n (some s) h)
          × Built
              (skip_while_source src pred fuel)
              used
              k
              (sizeof_skip_while src handle)
              h
              (iter_skip_while src (some s) h))
  unfolding iter_filter iter_take iter_take_while iter_skip iter_skip_while filter_source
      take_source take_while_source skip_source skip_while_source filter_drop take_drop
      take_while_drop skip_drop skip_while_drop
  plain_adaptors-Built n pred fuel =
      let drops = λ (size : ℕ). Releases-free acc (src.destroy s) k size owns in
      (
        adapt-Built src (filter_source src pred fuel) used acc _ (λ x. record { source = x }) s k h
            owns enough (drops _),
        adapt-Built src (take_source src) used acc _ (λ x. record { source = x; remaining = n }) s k
            h owns enough (drops _),
        adapt-Built src (take_while_source src pred) used acc _ (λ x. record { source = x }) s k h
            owns enough (drops _),
        adapt-Built src (skip_source src) used acc _ (λ x. record { source = x; remaining = n }) s k
            h owns enough (drops _),
        adapt-Built src (skip_while_source src pred fuel) used acc _
            (λ x. record { source = x; done_skipping = false }) s k h owns enough (drops _),
      )

  iter_map-Built :
      {B : Type ℓ} (f : A → B) (out_size : ℕ)
      → Built
          (map_source src f out_size)
          used
          k
          (sizeof_map src al.handle_size + src.elem_size)
          h
          (iter_map src (some s) h)
  unfolding iter_map map_source map_drop
  iter_map-Built f out_size =
      let size = sizeof_map src al.handle_size in
      elim (Option-cases (al.alloc size h)) [
        | inl no_room ↦ inr (src.destroy s h, rw (no_room, iter_map) refl, owns h enough)
        | inr (h₁, given) ↦ elim (Option-cases (al.alloc src.elem_size h₁)) [
          | inl no_room ↦ inr (
            src.destroy s (al.free size h₁),
            rw (given, iter_map, no_room) refl,
            undo acc (src.destroy s) k size h h₁ owns enough given,
          )
          | inr (h₂, more) ↦ inl (
            record { source = s },
            h₂,
            rw (given, iter_map, more) refl,
            omega (arith, acc.alloc_used size h h₁ given, acc.alloc_used src.elem_size h₁ h₂ more),
            Releases-two acc (src.destroy s) k size src.elem_size owns,
          )
        ]
      ]

  buffered_adaptors-Built :
      {B : Type ℓ} (f : A → B) (out_size : ℕ) (same : A → A → Bool) (fuel : ℕ)
      → (let handle = al.handle_size in
          Built
            (map_source src f out_size)
            used
            k
            (sizeof_map src handle + src.elem_size)
            h
            (iter_map src (some s) h)
          × Built
              (enum_source src)
              used
              k
              (sizeof_enum src handle + src.elem_size)
              h
              (iter_enumerate src (some s) h)
          × Built
              (dedup_source src same fuel)
              used
              k
              (sizeof_dedup src handle + src.elem_size)
              h
              (iter_dedup src (some s) h)
          × Built
              (peekable_source src)
              used
              k
              (sizeof_peekable src handle + src.elem_size)
              h
              (iter_peekable src (some s) h))
  unfolding iter_enumerate iter_dedup iter_peekable enum_source enum_drop dedup_source dedup_drop
      peekable_source peekable_drop
  buffered_adaptors-Built f out_size same fuel =
      let drops = λ (size : ℕ). Releases-two acc (src.destroy s) k size src.elem_size owns in
      (
        iter_map-Built f out_size,
        adapt_buffered-Built src (enum_source src) used acc _
            (λ x. record { source = x; index = 0 }) s k h owns enough (drops _),
        adapt_buffered-Built src (dedup_source src same fuel) used acc _
            (λ x. record { source = x; last = none }) s k h owns enough (drops _),
        adapt_buffered-Built src (peekable_source src) used acc _
            (λ x. record { source = x; peeked = none; source_done = false }) s k h owns enough
            (drops _),
      )

  -- With an allocator that counts its bytes, and a source that holds k of them and gives them back
  -- when it is destroyed, each of iter_filter, iter_take, iter_take_while, iter_skip,
  -- iter_skip_while, iter_map, iter_enumerate, iter_dedup and iter_peekable either makes an adaptor
  -- that holds its state and buffer and gives all back when it is destroyed, or fails and has given
  -- back the k bytes and nothing else.
  pub adaptors-Built :
      {B : Type ℓ} (f : A → B) (out_size n : ℕ) (pred : A → Bool) (same : A → A → Bool) (fuel : ℕ)
      → (let handle = al.handle_size in
          (Built
              (filter_source src pred fuel)
              used
              k
              (sizeof_filter src handle)
              h
              (iter_filter src (some s) h)
            × Built (take_source src) used k (sizeof_take src handle) h (iter_take src n (some s) h)
            × Built
                (take_while_source src pred)
                used
                k
                (sizeof_take_while src handle)
                h
                (iter_take_while src (some s) h)
            × Built (skip_source src) used k (sizeof_skip src handle) h (iter_skip src n (some s) h)
            × Built
                (skip_while_source src pred fuel)
                used
                k
                (sizeof_skip_while src handle)
                h
                (iter_skip_while src (some s) h))
          × (Built
                (map_source src f out_size)
                used
                k
                (sizeof_map src handle + src.elem_size)
                h
                (iter_map src (some s) h)
              × Built
                  (enum_source src)
                  used
                  k
                  (sizeof_enum src handle + src.elem_size)
                  h
                  (iter_enumerate src (some s) h)
              × Built
                  (dedup_source src same fuel)
                  used
                  k
                  (sizeof_dedup src handle + src.elem_size)
                  h
                  (iter_dedup src (some s) h)
              × Built
                  (peekable_source src)
                  used
                  k
                  (sizeof_peekable src handle + src.elem_size)
                  h
                  (iter_peekable src (some s) h)))
  adaptors-Built f out_size n pred same fuel =
      (plain_adaptors-Built n pred fuel, buffered_adaptors-Built f out_size same fuel)

module _ {ℓ κ μ ν} {A : Type ℓ} {S : Type κ} {T : Type μ} {H : Type ν} ⦃al : Allocator H⦄
    (a : Source A S H) (b : Source A T H) (used : H → ℕ) (acc : IsAccount al used) (s : S) (t : T)
    (i j : ℕ) (h : H) (owns_a : Releases used (a.destroy s) i)
    (owns_b : Releases used (b.destroy t) j) (enough : i + j ≤ used h) where
  -- The two sources as one that is destroyed like both.
  abbrev both : Source A (S × T) H
  both = record {
    next = λ p h'. out_of_fuel;
    destroy = λ p h'. b.destroy p.1 (a.destroy p.0 h');
    elem_size = a.elem_size;
  }
