-- ===== src/HashTable/Store.antt =====
-- kernel/core/hashtable.c: what storing a key in the slot that `find_entry` returned leaves.
use yak_kernel.Prelude.{
  ℕ, ◌%◌, ◌≤◌, ◌<◌, ◌≡◌, ◌≢◌, refl, sym, ◌∙◌, ap, subst, true, false, List, none, some, arith,
  length, length-set, set, get_or-set_self, get_or-set_ne, ◌==◌, inl, inr, if◌then◌else◌,
  Bool-cases,
}
use yak_kernel.HashTable.{Keys, Slot, at, zeroed, stops, same_key}
use yak_kernel.HashTable.Slots.{
  IsLawful, busy, used, used-set, holds, holds_same, lookup, lookup-first, lookup-set_other,
  holds-busy,
}
use yak_kernel.HashTable.Probe.{probe, distance_ne}
use yak_kernel.HashTable.Invariant.{stored, Placed, Placed-unique, absent, at-set}

module _ {K : Type 0} ⦃keys : Keys K⦄ (law : IsLawful keys) (es : List (Slot K)) (cap : ℕ)
    (size : length es ≡ cap) (placed : Placed es cap) (key : K) (v i : ℕ) (lt : i < cap) where
  holds-stored : (q : K) → holds q (stored key v) ≡ same_key q key
  unfolding holds
  holds-stored q = refl

  stops-stored : (q : K) → stops q (stored key v) ≡ same_key q key
  unfolding stops
  stops-stored q = refl

  -- The only slot that had the key, if any had it, gets it.
  lookup-stored :
      ((j : ℕ) → j < length es → j ≢ i → holds key (at es j) ≡ false)
      → ((q : K) → holds q (at es i) ≡ true → q ≡ key)
      → (q : K)
      → lookup q (set es i (stored key v)) ≡ (if same_key q key then some v else lookup q es)
  lookup-stored only before q =
      let es' = set es i (stored key v) in
      let there : at es' i ≡ stored key v =
        get_or-set_self es i (stored key v) zeroed (omega arith) in
      elim (Bool-cases (same_key q key)) [
        | inl same ↦
            let e : q ≡ key = (law q key).0 same in
            rw same (
              lookup-first q es' i (omega (arith, length-set es i (stored key v)))
                (ap (holds q) there ∙ holds-stored q ∙ same)
                (λ j l.
                  ap (holds q) (get_or-set_ne es i j (stored key v) zeroed (λ x. omega arith))
                  ∙ ap (λ k. holds k (at es j)) e
                  ∙ only j (omega arith) (λ x. omega arith))
              ∙ ap (λ (s : Slot K). some s.value) there)
        | inr other ↦ rw other (
            lookup-set_other q es i (stored key v) (grind (arith, before q, law q key))
              (holds-stored q ∙ other))
      ]

  same-Placed :
      (s : Slot K)
      → ((q : K) → holds q s ≡ holds q (at es i))
      → ((q : K) → stops q s ≡ stops q (at es i))
      → Placed (set es i s) cap
  same-Placed s same_h same_s k d d_in has j l =
      let at_holds : (p : ℕ) → holds k (at (set es i s) p) ≡ holds k (at es p) =
        λ p. ap (holds k) (at-set es i p s (omega arith)) ∙ ground (arith, same_h k) in
      let at_stops : (p : ℕ) → stops k (at (set es i s) p) ≡ stops k (at es p) =
        λ p. ap (stops k) (at-set es i p s (omega arith)) ∙ ground (arith, same_s k) in
      at_stops (probe k cap j) ∙ placed k d d_in (sym (at_holds (probe k cap d)) ∙ has) j l

  pub hit_holds : holds key (at es i) ≡ true → (q : K) → same_key q key ≡ holds q (at es i)
  hit_holds has q = grind (arith, holds_both)
    where
      holds_both :
          (holds q (at es i) ≡ true → same_key q key ≡ true)
          × (same_key q key ≡ true → holds q (at es i) ≡ true)
      holds_both = (
        λ h. (law q key).1 (holds_same law q key (at es i) h has),
        λ h. ap (λ k. holds k (at es i)) ((law q key).0 h) ∙ has,
      )

  keyed_stops : (s : Slot K) → holds key s ≡ true → (q : K) → stops q s ≡ holds q s
  unfolding holds stops
  keyed_stops s has q = grind arith

  pub Placed-hit : holds key (at es i) ≡ true → Placed (set es i (stored key v)) cap
  Placed-hit has =
      same-Placed (stored key v) (λ q. holds-stored q ∙ hit_holds has q)
        (λ q. stops-stored q ∙ hit_holds has q ∙ sym (keyed_stops (at es i) has q))

  pub lookup-hit :
      holds key (at es i) ≡ true
      → (q : K)
      → lookup q (set es i (stored key v)) ≡ (if same_key q key then some v else lookup q es)
  lookup-hit has =
      lookup-stored (λ j l ne. grind (arith, Placed-unique es cap size placed key j i))
        (λ q h. holds_same law q key (at es i) h has)

  pub used-hit : holds key (at es i) ≡ true → used (set es i (stored key v)) ≡ used es
  unfolding busy
  used-hit has =
      grind (arith, used-set es i (stored key v) (omega arith), holds-busy key (at es i) has)

  no_key_holds : (s : Slot K) → s.key ≡ none → (q : K) → holds q s ≡ false
  unfolding holds
  no_key_holds s e q = rw e refl

  module _ (D e : ℕ) (D_in : D < cap)
      (before : (j : ℕ) → j < D → stops key (at es (probe key cap j)) ≡ false) (le : e ≤ D)
      (is : i ≡ probe key cap e) (empty : (at es i).key ≡ none)
      (free : busy (at es (probe key cap D)) ≡ false) where
    nowhere : (j : ℕ) → j < length es → holds key (at es j) ≡ false
    nowhere = absent es cap size placed key D D_in before free

    pub lookup-vacant :
        (q : K)
        → lookup q (set es i (stored key v)) ≡ (if same_key q key then some v else lookup q es)
    lookup-vacant =
        lookup-stored (λ j l ne. nowhere j l)
          (λ q h. absurd (cc (h, no_key_holds (at es i) empty q)))

    -- A slot other than the new one stops a search as before.
    other_stops :
        (k : K) (p : ℕ) → p ≢ i → stops k (at (set es i (stored key v)) p) ≡ stops k (at es p)
    other_stops k p ne = ap (stops k) (get_or-set_ne es i p (stored key v) zeroed (λ x. ne (sym x)))

    placed_new :
        (d : ℕ)
        → d < cap
        → probe key cap d ≡ i
        → (j : ℕ) → j < d
        → stops key (at (set es i (stored key v)) (probe key cap j)) ≡ false
    placed_new d d_in at_i j l =
        let home = keys.hash key % cap in
        let d_le : d ≤ e = grind (arith, distance_ne home cap d e (omega arith) d_in, at_i, is) in
        other_stops key (probe key cap j)
          (λ x. distance_ne home cap e j (omega arith) (omega arith) (omega arith) (x ∙ is))
        ∙ before j (omega arith)

    placed_old :
        (k : K) (d : ℕ)
        → d < cap
        → holds k (at es (probe k cap d)) ≡ true
        → (j : ℕ) → j < d
        → stops k (at (set es i (stored key v)) (probe k cap j)) ≡ false
    placed_old k d d_in has j l = elim (Bool-cases (probe k cap j == i)) [
      | inr ne ↦ other_stops k (probe k cap j) (λ x. ground arith) ∙ placed k d d_in has j l
      | inl eq ↦
          let e : probe k cap j ≡ i = ground arith in
          ap (λ p. stops k (at (set es i (stored key v)) p)) e
          ∙ ap (stops k) (get_or-set_self es i (stored key v) zeroed (omega arith))
          ∙ stops-stored k
          ∙ grind (arith, law k key, differs)
    ]
      where
        differs : ¬ (k ≡ key)
        differs same = cc (
          nowhere (probe k cap d) (omega arith),
          ap (λ x. holds x (at es (probe k cap d))) same,
          has,
        )

    pub Placed-vacant : Placed (set es i (stored key v)) cap
    Placed-vacant k d d_in has j l = elim (Bool-cases (probe k cap d == i)) [
      | inr ne ↦
          placed_old k d d_in
            (ap (holds k)
                (sym (get_or-set_ne es i (probe k cap d) (stored key v) zeroed (λ x. ground arith)))
              ∙ has)
            j l
      | inl eq ↦
          let e : probe k cap d ≡ i = ground arith in
          let there : holds k (stored key v) ≡ true =
            ap (holds k) (
              sym (get_or-set_self es i (stored key v) zeroed (omega arith))
              ∙ ap (at (set es i (stored key v))) (sym e))
            ∙ has in
          let same : k ≡ key = (law k key).0 (sym (holds-stored k) ∙ there) in
          subst
            (λ q.
              probe q cap d ≡ i → stops q (at (set es i (stored key v)) (probe q cap j)) ≡ false)
            (sym same) (λ x. placed_new d d_in x j l) e
    ]
