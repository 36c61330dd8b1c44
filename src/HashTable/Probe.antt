-- ===== src/HashTable/Probe.antt =====
-- kernel/core/hashtable.c: the loop of `find_entry`. A search visits the slots at growing distances from the
-- key's own slot, and returns at the first that is free or has the key.
use native.Mathlib.Nat.{mod-eq_of_lt}
use yak_kernel.Prelude.{
  ℕ, zero, suc, ◌+◌, ◌-◌, ◌%◌, ◌≤◌, ◌<◌, ◌≡◌, refl, sym, ◌∙◌, ap, subst, Bool, true, false, List,
  Option, none, some, arith, length, ◌⊎◌, inl, inr, leb, if-true, if-false, Bool-cases,
  Option-cases,
}
use yak_kernel.RingBuffer.Bounds.{wrap_once, mod_step}
use yak_kernel.HashTable.{Keys, Slot, at, stops, answer, chosen, first_tomb, find_loop, find_entry}
use yak_kernel.HashTable.Slots.{busy, used, used_free, holds, free-stops, stops_cases}

-- The slot at a distance from a key's own.
abbrev pub probe : {K : Type 0} → ⦃keys : Keys K⦄ → K → ℕ → ℕ → ℕ
probe ⦃keys⦄ key cap d = (keys.hash key % cap + d) % cap

-- Every slot is at some distance.
pub distance :
    (home cap i : ℕ) → home < cap → i < cap → (d : ℕ) × (d < cap) × ((home + d) % cap ≡ i)
distance home cap i h k = elim (Bool-cases (leb home i)) [
  | inl le ↦ (i - home, ground arith, ground (arith, wrap_once (home + (i - home)) cap))
  | inr gt ↦ (i + cap - home, ground arith, ground (arith, wrap_once (home + (i + cap - home)) cap))
]

-- Different distances lead to different slots.
pub distance_ne :
    (home cap d e : ℕ) → home < cap → d < cap → e < d → ¬ ((home + e) % cap ≡ (home + d) % cap)
distance_ne home cap d e h k lt same =
    ground (arith, wrap_once (home + d) cap, wrap_once (home + e) cap)

-- The least distance at which a test holds.
pub least :
    (p : ℕ → Bool) (n : ℕ)
    → ((d : ℕ) × (d < n) × (p d ≡ true) × ((j : ℕ) → j < d → p j ≡ false))
      ⊎ ((d : ℕ) → d < n → p d ≡ false)
least p zero = inr (λ d lt. absurd (omega arith))
least p (suc n) = elim (least p n) [
  | inl (d, lt, stop, before) ↦ inl (d, omega arith, stop, before)
  | inr none_yet ↦ elim (Bool-cases (p n)) [
    | inl stop ↦ inl (n, omega arith, stop, none_yet)
    | inr last ↦ inr (λ d lt. ground (arith, none_yet d))
  ]
]

module _ {K : Type 0} where
  first_tomb-some :
      (s : Slot K) (i : ℕ) {t : ℕ} → first_tomb s i none ≡ some t → (t ≡ i) × (s.key ≡ none)
  unfolding first_tomb
  first_tomb-some s i h = grind arith

module _ {K : Type 0} ⦃keys : Keys K⦄ where
  answer-holds :
      (key : K) (s : Slot K) (i : ℕ) (tomb : Option ℕ) → holds key s ≡ true → answer s i tomb ≡ i
  unfolding answer holds
  answer-holds key s i tomb h = grind arith

  answer-free :
      (s : Slot K) (i : ℕ) (tomb : Option ℕ)
      → busy s ≡ false
      → (s.key ≡ none) × (answer s i tomb ≡ chosen tomb i)
  unfolding answer busy
  answer-free s i tomb h = grind arith

module _ {K : Type 0} ⦃keys : Keys K⦄ (es : List (Slot K)) (cap : ℕ) (key : K) where
  -- What `find_entry` returns when it stops at distance `D`: the slot of the key, or one without a key
  -- that it passed or stopped at.
  pub data Answers (D i : ℕ) : Type 0 where
    hit : holds key (at es i) ≡ true → i ≡ probe key cap D → Answers D i
    vacant :
        (e : ℕ)
        → e ≤ D
        → i ≡ probe key cap e
        → (at es i).key ≡ none
        → busy (at es (probe key cap D)) ≡ false
        → Answers D i

  -- The tombstone that a search keeps lies behind it.
  abbrev Kept : ℕ → Option ℕ → Type 0
  Kept d none = Unit
  Kept d (some t) = (e : ℕ) × (e < d) × (t ≡ probe key cap e) × ((at es t).key ≡ none)

  Kept-step :
      (d : ℕ) (tomb : Option ℕ)
      → Kept d tomb
      → Kept (suc d) (first_tomb (at es (probe key cap d)) (probe key cap d) tomb)
  unfolding first_tomb
  Kept-step d (some t) (e, lt, is, empty) = (e, omega arith, is, empty)
  Kept-step d none k =
      let i = probe key cap d in
      elim (Option-cases (first_tomb (at es i) i none)) [
        | inl is_none ↦ rw is_none tt
        | inr (t, is_some) ↦
            let (is, empty) = first_tomb-some (at es i) i is_some in
            rw is_some (d, omega arith, is, rw is empty)
      ]

  answer-Answers :
      (D : ℕ) (tomb : Option ℕ)
      → Kept D tomb
      → stops key (at es (probe key cap D)) ≡ true
      → Answers D (answer (at es (probe key cap D)) (probe key cap D) tomb)
  unfolding chosen
  answer-Answers D tomb k stop =
      let i = probe key cap D in
      elim (stops_cases key (at es i) stop) [
        | inr has ↦ rw (answer-holds key (at es i) i tomb has) (hit has refl)
        | inl free ↦ free_answer D tomb k free
      ]
    where
      free_answer :
          (D : ℕ) (tomb : Option ℕ)
          → Kept D tomb
          → busy (at es (probe key cap D)) ≡ false
          → Answers D (answer (at es (probe key cap D)) (probe key cap D) tomb)
      free_answer D none k free =
          let (empty, is) = answer-free (at es (probe key cap D)) (probe key cap D) none free in
          rw is (vacant D (omega arith) refl empty free)
      free_answer D (some t) (e, lt, at_t, empty) free =
          let (_, is) = answer-free (at es (probe key cap D)) (probe key cap D) (some t) free in
          rw is (vacant e (omega arith) at_t empty free)

  pub Answers-lt : 0 < cap → {D i : ℕ} → Answers D i → i < cap
  Answers-lt pos (hit has is) = omega (arith, is)
  Answers-lt pos (vacant e le is empty free) = omega (arith, is)

  loop_stops :
      (fuel d : ℕ) (tomb : Option ℕ)
      → stops key (at es (probe key cap d)) ≡ true
      → Kept d tomb
      → (i : ℕ) × (find_loop (suc fuel) es cap key (probe key cap d) tomb ≡ some i) × Answers d i
  unfolding find_loop
  loop_stops fuel d tomb stop k = (
    answer (at es (probe key cap d)) (probe key cap d) tomb,
    if-true _ stop,
    answer-Answers d tomb k stop,
  )

  -- With fuel beyond the distance of the first slot that stops it, the loop returns.
  find_loop-Answers :
      (n fuel d D : ℕ) (tomb : Option ℕ)
      → d + n ≡ D
      → n < fuel
      → ((j : ℕ) → d ≤ j → j < D → stops key (at es (probe key cap j)) ≡ false)
      → stops key (at es (probe key cap D)) ≡ true
      → Kept d tomb
      → (i : ℕ) × (find_loop fuel es cap key (probe key cap d) tomb ≡ some i) × Answers D i
  unfolding find_loop
  find_loop-Answers n zero d D tomb e lt before stop k = absurd (omega arith)
  find_loop-Answers zero (suc fuel) d D tomb e lt before stop k =
      let same : D ≡ d = omega arith in
      let (i, is, ans) =
        loop_stops fuel d tomb (ap (λ x. stops key (at es (probe key cap x))) (sym same) ∙ stop)
          k in
      (i, is, subst (λ x. Answers x i) (sym same) ans)
  find_loop-Answers (suc n) (suc fuel) d D tomb e lt before stop k =
      let tomb' = first_tomb (at es (probe key cap d)) (probe key cap d) tomb in
      let step : (probe key cap d + 1) % cap ≡ probe key cap (suc d) =
        mod_step (keys.hash key % cap) d 1 cap
        ∙ ap (λ x. (keys.hash key % cap + x) % cap) (omega arith) in
      let (i, is, ans) =
        find_loop-Answers n fuel (suc d) D tomb' (omega arith) (omega arith)
          (λ j le l. before j (omega arith) l) stop (Kept-step d tomb k) in
      (
        i,
        if-false _ (before d (omega arith) (omega arith))
            ∙ ap (λ x. find_loop fuel es cap key x tomb') step
            ∙ is,
        ans,
      )

  -- Where fewer slots are taken than there are, `find_entry` returns. It stops at the first slot, from
  -- the key's own on, that is free or has the key. What it returns is that slot, or, if the key is not
  -- found, a slot without a key on the way there.
  pub find_entry-Answers :
      length es ≡ cap
      → used es < cap
      → (i : ℕ) × (D : ℕ) × (find_entry es cap key ≡ some i)
        × (D < cap)
        × ((j : ℕ) → j < D → stops key (at es (probe key cap j)) ≡ false)
        × Answers D i
  unfolding find_entry
  find_entry-Answers size room =
      let home = keys.hash key % cap in
      let (f, f_in, free) = used_free es (omega arith) in
      let (d, lt, is_f) = distance home cap f (omega arith) (omega arith) in
      elim (least (λ j. stops key (at es (probe key cap j))) cap) [
        | inr never ↦ absurd (
            let stop : stops key (at es (probe key cap d)) ≡ true =
              free-stops key _ (ap (λ x. busy (at es x)) is_f ∙ free) in
            cc (never d lt, stop))
        | inl (D, in_cap, stop, before) ↦
            let (i, is, ans) =
              find_loop-Answers D cap 0 D none (omega arith) in_cap (λ j le l. before j l) stop
                tt in
            let start : home ≡ probe key cap 0 =
              sym (ap (λ x. x % cap) (omega arith) ∙ mod-eq_of_lt (omega arith)) in
            (i, D, ap (λ x. find_loop cap es cap key x none) start ∙ is, in_cap, before, ans)
      ]
