-- ===== src/Omap/Laws.antt =====
-- What a client of src/omap/omap.c reads after a change.
use seqc.Prelude.{
  ◌+◌, ◌<◌, ◌≡◌, sym, ap, ◌∙◌, inl, inr, Option, none, some, if◌then◌else◌, Status, ok, size_mod,
  Allocator,
}
use seqc.Order.{Compare, is_eq}
use seqc.Omap.{Omap, get_ptr, set, remove}
use seqc.Omap.Entries.{lookup, lookup-put, lookup-delete}
use seqc.Omap.Methods.{IsValid, entries, omap_get_ptr_lem, omap_set-Written}
use seqc.Omap.Remove.{omap_remove-Taken}

module _ {ℓ κ μ} {K : Type ℓ} {V : Type κ} {H : Type μ} ⦃o : Compare K⦄ ⦃al : Allocator H⦄ where
  -- On a valid map whose len can grow, after an omap_set that succeeded, omap_get_ptr of a key that
  -- compares equal to the one that was set finds the new value, and of any other key what it found
  -- before.
  pub omap_get-set :
      (m m' : Omap K V) (j k : K) (v : V) (h h' : H)
      → IsValid m
      → m.len + 1 < size_mod
      → set (some m) (some k) (some v) h ≡ (ok, some m', h')
      → get_ptr (some m') (some j)
        ≡ (if is_eq (o.cmp j k) then some v else get_ptr (some m) (some j))
  omap_get-set m m' j k v h h' valid room done = elim (omap_set-Written m k v h valid room) [
    | inl (failed, refused) ↦ absurd (cc (sym failed ∙ done))
    | inr (w, h₂, e, good, written, keys, vals) ↦
        let same : some w ≡ some m' =
          ap (λ (r : Status × Option (Omap K V) × H). r.1) (sym e ∙ done) in
        ap (λ t. get_ptr t (some j)) (sym same)
        ∙ omap_get_ptr_lem w j good
        ∙ ap (lookup j) written
        ∙ lookup-put j k v (entries m)
        ∙ ap (λ t. if is_eq (o.cmp j k) then some v else t) (sym (omap_get_ptr_lem m j valid))
  ]

  -- On a valid map, after an omap_remove, omap_get_ptr of a key that compares equal to the one that
  -- was removed finds nothing, and of any other key what it found before.
  pub omap_get-remove :
      (m : Omap K V) (j k : K) (h : H)
      → IsValid m
      → get_ptr (remove (some m) (some k) h).1 (some j)
        ≡ (if is_eq (o.cmp j k) then none else get_ptr (some m) (some j))
  omap_get-remove m j k h valid =
      let (m', h', e, good, deleted, keys, vals) = omap_remove-Taken m k h valid in
      ap (λ (r : Status × Option (Omap K V) × H). get_ptr r.1 (some j)) e
      ∙ omap_get_ptr_lem m' j good
      ∙ ap (lookup j) deleted
      ∙ lookup-delete j k (entries m) valid.ordered
      ∙ ap (λ t. if is_eq (o.cmp j k) then none else t) (sym (omap_get_ptr_lem m j valid))
