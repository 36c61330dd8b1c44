-- ===== src/HashTable/Slots.antt =====
-- kernel/core/hashtable.c: the slots of a table as a list, what a key is found to have there, and how many
-- slots are not free.
use yak_kernel.Prelude.{
  ℕ, zero, suc, ◌+◌, ◌≤◌, ◌<◌, ◌≡◌, ◌↔◌, refl, Bool, true, false, List, [], ◌∷◌, Option, none, some,
  arith, length, set, ◌==◌, ◌⊎◌, inl, inr, if◌then◌else◌, Bool-cases,
}
use yak_kernel.HashTable.{Keys, Slot, at, tomb_value, same_key, stops}

-- A lawful comparison tells keys apart: it holds of a key and itself only.
abbrev pub IsLawful : {K : Type 0} → Keys K → Type 0
IsLawful {K} keys = (a b : K) → (same_key ⦃keys = keys⦄ a b ≡ true) ↔ (a ≡ b)

-- Whether a slot is not free for a new key at the end of a search.
unfoldable pub busy : {K : Type 0} → Slot K → Bool
busy e = elim e.key [ none ↦ e.value == tomb_value | some k ↦ true ]

unfoldable pub used : {K : Type 0} → List (Slot K) → ℕ
used [] = 0
used (e ∷ es) = (if busy e then 1 else 0) + used es

-- The number of the slots that have a key.
unfoldable pub keyed : {K : Type 0} → List (Slot K) → ℕ
keyed [] = 0
keyed (e ∷ es) = (elim e.key [ none ↦ 0 | some k ↦ 1 ]) + keyed es

module _ {K : Type 0} where
  pub used-set :
      (es : List (Slot K)) (i : ℕ) (s : Slot K)
      → i < length es
      → used (set es i s) + (if busy (at es i) then 1 else 0) ≡ used es + (if busy s then 1 else 0)
  unfolding used
  used-set [] i s h = absurd (omega arith)
  used-set (e ∷ es) zero s h = omega arith
  used-set (e ∷ es) (suc i) s h = omega (arith, used-set es i s (omega arith))

  pub used_free :
      (es : List (Slot K))
      → used es < length es
      → (i : ℕ) × (i < length es) × (busy (at es i) ≡ false)
  unfolding used
  used_free [] h = absurd (omega arith)
  used_free (e ∷ es) h = elim (Bool-cases (busy e)) [
    | inr free ↦ (0, omega arith, free)
    | inl full ↦ let (i, lt, free) = used_free es (ground arith) in (suc i, omega arith, free)
  ]

  pub keyed-le-used : (es : List (Slot K)) → keyed es ≤ used es
  unfolding keyed used busy
  keyed-le-used [] = omega arith
  keyed-le-used (e ∷ es) = ground (arith, keyed-le-used es)

module _ {K : Type 0} ⦃keys : Keys K⦄ where
  unfoldable pub holds : K → Slot K → Bool
  holds q e = elim e.key [ none ↦ false | some k ↦ same_key q k ]

  -- What the first slot with a key has for it.
  unfoldable pub lookup : K → List (Slot K) → Option ℕ
  lookup q [] = none
  lookup q (e ∷ es) = if holds q e then some e.value else lookup q es

  pub lookup-absent :
      (q : K) (es : List (Slot K))
      → ((i : ℕ) → i < length es → holds q (at es i) ≡ false)
      → lookup q es ≡ none
  unfolding lookup
  lookup-absent q [] h = refl
  lookup-absent q (e ∷ es) h =
      rw (h 0 (omega arith)) (lookup-absent q es (λ i lt. h (suc i) (omega arith)))

  pub lookup_unused : (q : K) (es : List (Slot K)) → used es ≡ 0 → lookup q es ≡ none
  unfolding lookup used holds busy
  lookup_unused q [] h = refl
  lookup_unused q (e ∷ es) h = ground (arith, lookup_unused q es)

  pub lookup-none :
      (q : K) (es : List (Slot K)) (i : ℕ)
      → lookup q es ≡ none
      → i < length es
      → holds q (at es i) ≡ false
  unfolding lookup
  lookup-none q [] i n h = absurd (omega arith)
  lookup-none q (e ∷ es) zero n h = ground arith
  lookup-none q (e ∷ es) (suc i) n h = lookup-none q es i (ground arith) (omega arith)

  pub lookup-first :
      (q : K) (es : List (Slot K)) (i : ℕ)
      → i < length es
      → holds q (at es i) ≡ true
      → ((j : ℕ) → j < i → holds q (at es j) ≡ false)
      → lookup q es ≡ some ((at es i).value)
  unfolding lookup
  lookup-first q [] i lt h first = absurd (omega arith)
  lookup-first q (e ∷ es) zero lt h first = rw h refl
  lookup-first q (e ∷ es) (suc i) lt h first =
      rw (first 0 (omega arith))
        (lookup-first q es i (omega arith) h (λ j l. first (suc j) (omega arith)))

  -- A slot that held another key, or none, and does so again.
  pub lookup-set_other :
      (q : K) (es : List (Slot K)) (i : ℕ) (s : Slot K)
      → holds q (at es i) ≡ false
      → holds q s ≡ false
      → lookup q (set es i s) ≡ lookup q es
  unfolding lookup
  lookup-set_other q [] i s h k = refl
  lookup-set_other q (e ∷ es) zero s h k = rw (h, k) refl
  lookup-set_other q (e ∷ es) (suc i) s h k = rw (lookup-set_other q es i s h k) refl

  pub holds-stops : (q : K) (e : Slot K) → holds q e ≡ true → stops q e ≡ true
  unfolding holds stops
  holds-stops q e h = ground arith

  pub holds-busy : (q : K) (e : Slot K) → holds q e ≡ true → busy e ≡ true
  unfolding holds busy
  holds-busy q e h = ground arith

  pub free-stops : (q : K) (e : Slot K) → busy e ≡ false → stops q e ≡ true
  unfolding stops busy
  free-stops q e h = ground arith

  pub stops_cases : (q : K) (e : Slot K) → stops q e ≡ true → (busy e ≡ false) ⊎ (holds q e ≡ true)
  unfolding stops busy holds
  stops_cases q e h = grind arith

  module _ (law : IsLawful keys) where
    pub holds_same : (q k : K) (e : Slot K) → holds q e ≡ true → holds k e ≡ true → q ≡ k
    unfolding holds
    holds_same q k e h g = grind (arith, law q, law k)

    pub holds_key : (q : K) (e : Slot K) → holds q e ≡ true → e.key ≡ some q
    unfolding holds
    holds_key q e h = grind (arith, law q)
