-- ===== src/HashTable/Invariant.antt =====
-- kernel/core/hashtable.c: the slots between a key's own slot and the one that has it are taken, by
-- tombstones or other keys. So no key is in two slots.
use yak_kernel.Prelude.{
  ℕ, ◌*◌, ◌%◌, ◌≤◌, ◌<◌, ◌≡◌, ◌∙◌, ap, true, false, List, some, arith, length, set, get_or-set_self,
  get_or-set_ne, ◌==◌, inl, inr, if◌then◌else◌, Bool-cases,
}
use yak_kernel.HashTable.{Keys, Slot, Table, at, zeroed, stops}
use yak_kernel.HashTable.Slots.{busy, used, holds, holds-stops, holds-busy, free-stops}
use yak_kernel.HashTable.Probe.{probe, distance}

abbrev pub stored : {K : Type 0} → K → ℕ → Slot K
stored key value = record { key = some key; value = value }

module _ {K : Type 0} ⦃keys : Keys K⦄ where
  -- A search for a key does not end before the slot that has it.
  abbrev pub Placed : List (Slot K) → ℕ → Type 0
  Placed es cap =
      (k : K) (d : ℕ)
      → d < cap
      → holds k (at es (probe k cap d)) ≡ true
      → (j : ℕ) → j < d
      → stops k (at es (probe k cap j)) ≡ false

  pub record IsValid (t : Table K) : Type 0 where
    pub size : length t.entries ≡ t.capacity
    pub counted : used t.entries ≤ t.count
    pub load : t.count * 4 ≤ t.capacity * 3
    pub placed : Placed t.entries t.capacity

  module _ (es : List (Slot K)) (cap : ℕ) (size : length es ≡ cap) (placed : Placed es cap) where
    -- No key is in two slots.
    pub Placed-unique :
        (q : K) (i j : ℕ)
        → i < cap
        → j < cap
        → holds q (at es i) ≡ true
        → holds q (at es j) ≡ true
        → i ≡ j
    Placed-unique q i j hi hj has_i has_j =
        let (d, d_in, is_i) = distance (keys.hash q % cap) cap i (omega arith) hi in
        let (e, e_in, is_j) = distance (keys.hash q % cap) cap j (omega arith) hj in
        let at_d : holds q (at es (probe q cap d)) ≡ true =
          ap (λ x. holds q (at es x)) is_i ∙ has_i in
        let at_e : holds q (at es (probe q cap e)) ≡ true =
          ap (λ x. holds q (at es x)) is_j ∙ has_j in
        grind (
          arith,
          placed q d d_in at_d e,
          placed q e e_in at_e d,
          holds-stops q (at es (probe q cap d)) at_d,
          holds-stops q (at es (probe q cap e)) at_e,
          ap (λ x. probe q cap x),
        )

    -- A search that ends at a free slot shows that the key is nowhere.
    pub absent :
        (q : K) (D : ℕ)
        → D < cap
        → ((j : ℕ) → j < D → stops q (at es (probe q cap j)) ≡ false)
        → busy (at es (probe q cap D)) ≡ false
        → (i : ℕ) → i < length es
        → holds q (at es i) ≡ false
    absent q D D_in before free i lt = elim (Bool-cases (holds q (at es i))) [
      | inr h ↦ h
      | inl has ↦
          let (d, d_in, is) = distance (keys.hash q % cap) cap i (omega arith) (omega arith) in
          let at_d : holds q (at es (probe q cap d)) ≡ true =
            ap (λ x. holds q (at es x)) is ∙ has in
          absurd (
            grind (
              arith,
              before d,
              placed q d d_in at_d D,
              holds-stops q (at es (probe q cap d)) at_d,
              holds-busy q (at es (probe q cap d)) at_d,
              free-stops q (at es (probe q cap D)) free,
              ap (λ x. probe q cap x),
            ))
    ]

pub at-set :
    {K : Type 0} (es : List (Slot K)) (i p : ℕ) (s : Slot K)
    → i < length es
    → at (set es i s) p ≡ (if p == i then s else at es p)
at-set es i p s h = elim (Bool-cases (p == i)) [
  | inl same ↦ let e : p ≡ i = ground arith in rw (same, e) (get_or-set_self es i s zeroed h)
  | inr other ↦ rw other (get_or-set_ne es i p s zeroed (λ e. ground arith))
]
