-- ===== src/HashTable/Erase.antt =====
-- kernel/core/hashtable.c: deleting a key leaves a tombstone, which ends no search.
use yak_kernel.Prelude.{
  ℕ, ◌<◌, ◌≡◌, ◌≢◌, refl, sym, ◌∙◌, ap, true, false, List, none, arith, length, length-set, set,
  get_or-set_self, get_or-set_ne, inl, inr, if◌then◌else◌, Bool-cases,
}
use yak_kernel.HashTable.{Keys, Slot, at, zeroed, tombstone, stops, same_key}
use yak_kernel.HashTable.Slots.{
  IsLawful, busy, used, used-set, holds, lookup, lookup-absent, lookup-set_other, holds-busy,
}
use yak_kernel.HashTable.Probe.{probe}
use yak_kernel.HashTable.Invariant.{Placed, Placed-unique, at-set}
use yak_kernel.HashTable.Store.{hit_holds}

module _ {K : Type 0} ⦃keys : Keys K⦄ (law : IsLawful keys) (es : List (Slot K)) (cap : ℕ)
    (size : length es ≡ cap) (placed : Placed es cap) (key : K) (i : ℕ) (lt : i < cap)
    (has : holds key (at es i) ≡ true) where
  tomb_holds : (q : K) → holds q tombstone ≡ false
  unfolding holds
  tomb_holds q = refl

  tomb_stops : (q : K) → stops q tombstone ≡ false
  unfolding stops
  tomb_stops q = refl

  pub Placed-erased : Placed (set es i tombstone) cap
  Placed-erased k d d_in held j l =
      let es' = set es i tombstone in
      let away : probe k cap d ≢ i = λ x. cc (
        held,
        ap (λ p. holds k (at es' p)) x,
        ap (holds k) (get_or-set_self es i tombstone zeroed (omega arith)),
        tomb_holds k,
      ) in
      let was : holds k (at es (probe k cap d)) ≡ true =
        ap (holds k) (sym (get_or-set_ne es i (probe k cap d) tombstone zeroed (λ x. away (sym x))))
        ∙ held in
      ap (stops k) (at-set es i (probe k cap j) tombstone (omega arith))
      ∙ ground (arith, tomb_stops k, placed k d d_in was j l)

  pub lookup-erased :
      (q : K) → lookup q (set es i tombstone) ≡ (if same_key q key then none else lookup q es)
  lookup-erased q = elim (Bool-cases (same_key q key)) [
    | inr other ↦ rw other (
        lookup-set_other q es i tombstone
          (grind (arith, hit_holds law es cap size placed key 0 i lt has q)) (tomb_holds q))
    | inl same ↦ rw same (
        lookup-absent q (set es i tombstone) (λ j l.
          ap (holds q) (at-set es i j tombstone (omega arith))
          ∙ grind (
            arith,
            tomb_holds q,
            hit_holds law es cap size placed key 0 i lt has q,
            Placed-unique es cap size placed q j i,
            length-set es i tombstone,
          )))
  ]

  pub used-erased : used (set es i tombstone) ≡ used es
  unfolding busy
  used-erased = grind (arith, used-set es i tombstone (omega arith), holds-busy key (at es i) has)
