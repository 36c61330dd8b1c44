-- ===== src/HashTable/Resize.antt =====
-- kernel/core/hashtable.c: `ht_resize` moves the keys to new slots, and leaves the tombstones behind.
use yak_kernel.Prelude.{
  ℕ, suc, ◌+◌, ◌≤◌, ◌<◌, ◌≡◌, refl, sym, ◌∙◌, ap, Bool, true, false, List, [], ◌∷◌, Option, none,
  some, arith, length, length-set, set, inl, inr, if◌then◌else◌, Option-cases,
}
use yak_kernel.HashTable.{Keys, Slot, at, move_entries, find_entry, same_key}
use yak_kernel.HashTable.Slots.{
  IsLawful, busy, used, keyed, used-set, holds, lookup, lookup-absent, lookup-none,
}
use yak_kernel.HashTable.Invariant.{stored, Placed}
use yak_kernel.HashTable.Probe.{hit, vacant, Answers-lt, find_entry-Answers}
use yak_kernel.HashTable.Store.{Placed-vacant, lookup-vacant}

abbrev pub first_of : Option ℕ → Option ℕ → Option ℕ
first_of none o = o
first_of (some v) o = some v

swap_first :
    (same : Bool) (v : ℕ) (old fresh : Option ℕ)
    → (same ≡ true → old ≡ none)
    → first_of old (if same then some v else fresh) ≡ first_of (if same then some v else old) fresh
swap_first true v old fresh h = rw (h refl) refl
swap_first false v old fresh h = refl

module _ {K : Type 0} ⦃keys : Keys K⦄ where
  abbrev pub Unique : List (Slot K) → Type 0
  Unique es =
      (q : K) (i j : ℕ)
      → i < length es
      → j < length es
      → holds q (at es i) ≡ true
      → holds q (at es j) ≡ true
      → i ≡ j

  -- The slots after the moves.
  pub record Moved (es fresh : List (Slot K)) (cap count : ℕ) (es' : List (Slot K)) (count' : ℕ)
      : Type 0 where
    pub size : length es' ≡ cap
    pub placed : Placed es' cap
    pub counted : used es' ≤ count'
    pub total : count' ≡ count + keyed es
    pub kept : (q : K) → lookup q es' ≡ first_of (lookup q es) (lookup q fresh)

  abbrev pub Moves : List (Slot K) → List (Slot K) → ℕ → ℕ → Type 0
  Moves es fresh cap count =
      (es' : List (Slot K)) × (count' : ℕ) × (move_entries es cap fresh count ≡ some (es', count'))
      × Moved es fresh cap count es' count'

  Unique-tail : (e : Slot K) (es : List (Slot K)) → Unique (e ∷ es) → Unique es
  Unique-tail e es u q i j hi hj a b =
      omega (arith, u q (suc i) (suc j) (omega arith) (omega arith) a b)

  Unique-head :
      (e : Slot K) (es : List (Slot K))
      → Unique (e ∷ es)
      → (q : K) → holds q e ≡ true
      → lookup q es ≡ none
  Unique-head e es u q has =
      lookup-absent q es (λ i lt. grind (arith, u q 0 (suc i) (omega arith) (omega arith) has))

  skips :
      (e : Slot K) (es fresh : List (Slot K)) (cap count : ℕ)
      → e.key ≡ none
      → move_entries (e ∷ es) cap fresh count ≡ move_entries es cap fresh count
  unfolding move_entries
  skips e es fresh cap count h = rw h refl

  moves :
      (e : Slot K) (es fresh : List (Slot K)) (cap count : ℕ) (k : K) (i : ℕ)
      → e.key ≡ some k
      → find_entry fresh cap k ≡ some i
      → move_entries (e ∷ es) cap fresh count
        ≡ move_entries es cap (set fresh i (stored k e.value)) (count + 1)
  unfolding move_entries
  moves e es fresh cap count k i h f =
      let same : e ≡ stored k e.value = ap (λ x. record { key = x; value = e.value }) h in
      rw (h, f) (ap (λ s. move_entries es cap (set fresh i s) (count + 1)) same)

  lookup_skip :
      (q : K) (e : Slot K) (es : List (Slot K)) → e.key ≡ none → lookup q (e ∷ es) ≡ lookup q es
  unfolding lookup holds
  lookup_skip q e es h = rw h refl

  lookup_key :
      (q : K) (e : Slot K) (es : List (Slot K)) (k : K)
      → e.key ≡ some k
      → lookup q (e ∷ es) ≡ (if same_key q k then some e.value else lookup q es)
  unfolding lookup holds
  lookup_key q e es k h = rw h refl

  keyed_skip : (e : Slot K) (es : List (Slot K)) → e.key ≡ none → keyed (e ∷ es) ≡ keyed es
  unfolding keyed
  keyed_skip e es h = rw h (omega arith)

  keyed_key :
      (e : Slot K) (es : List (Slot K)) (k : K) → e.key ≡ some k → keyed (e ∷ es) ≡ 1 + keyed es
  unfolding keyed
  keyed_key e es k h = rw h refl

  key_holds : (q : K) (e : Slot K) (k : K) → e.key ≡ some k → holds q e ≡ same_key q k
  unfolding holds
  key_holds q e k h = rw h refl

  module _ (law : IsLawful keys) (cap : ℕ) where
    -- One slot with a key moved.
    move_one :
        (k : K) (v : ℕ) (fresh : List (Slot K)) (count : ℕ)
        → length fresh ≡ cap
        → Placed fresh cap
        → used fresh ≤ count
        → count < cap
        → lookup k fresh ≡ none
        → (i : ℕ) × (find_entry fresh cap k ≡ some i)
          × (i < cap)
          × Placed (set fresh i (stored k v)) cap
          × (used (set fresh i (stored k v)) ≤ count + 1)
          × ((q : K)
              → lookup q (set fresh i (stored k v))
                ≡ (if same_key q k then some v else lookup q fresh))
    unfolding busy
    move_one k v fresh count size placed counted room fresh_k =
        let (i, D, is, D_in, before, ans) = find_entry-Answers fresh cap k size (omega arith) in
        let lt : i < cap = Answers-lt fresh cap k (omega arith) ans in
        elim ans [
          | hit has at_D ↦ absurd (cc (has, lookup-none k fresh i fresh_k (omega arith)))
          | vacant e le at_e empty free ↦ (
            i,
            is,
            lt,
            Placed-vacant law fresh cap size placed k v i lt D e D_in before le at_e empty free,
            omega (arith, used-set fresh i (stored k v) (omega arith)),
            lookup-vacant law fresh cap size placed k v i lt D e D_in before le at_e empty free,
          )
        ]

    pub move_entries-Moves :
        (es fresh : List (Slot K)) (count : ℕ)
        → length fresh ≡ cap
        → Placed fresh cap
        → used fresh ≤ count
        → count + keyed es < cap
        → Unique es
        → ((q : K) (i : ℕ) → i < length es → holds q (at es i) ≡ true → lookup q fresh ≡ none)
        → Moves es fresh cap count
    unfolding move_entries keyed lookup
    move_entries-Moves [] fresh count size placed counted room u apart = (
      fresh,
      count,
      refl,
      record {
        size = size;
        placed = placed;
        counted = counted;
        total = omega arith;
        kept = λ q. refl;
      },
    )
    move_entries-Moves (e ∷ es) fresh count size placed counted room u apart =
        elim (Option-cases e.key) [
          | inl no_key ↦
              let (es', c', is, m) =
                move_entries-Moves es fresh count size placed counted
                  (omega (arith, keyed_skip e es no_key)) (Unique-tail e es u)
                  (λ q i lt h. apart q (suc i) (omega arith) h) in
              (
                es',
                c',
                skips e es fresh cap count no_key ∙ is,
                record {
                  size = m.size;
                  placed = m.placed;
                  counted = m.counted;
                  total = omega (arith, m.total, keyed_skip e es no_key);
                  kept = λ q.
                      m.kept q
                      ∙ ap (λ o. first_of o (lookup q fresh)) (sym (lookup_skip q e es no_key));
                },
              )
          | inr (k, key) ↦
              let self : holds k e ≡ true = key_holds k e k key ∙ (law k k).1 refl in
              let more = keyed_key e es k key in
              let (i, is_i, lt, placed', counted', kept') =
                move_one k e.value fresh count size placed counted (omega arith)
                  (apart k 0 (omega arith) self) in
              let gone : (q : K) → same_key q k ≡ true → lookup q es ≡ none =
                λ q h. Unique-head e es u q (key_holds q e k key ∙ h) in
              let (es', c', is, m) =
                move_entries-Moves es (set fresh i (stored k e.value)) (count + 1)
                  (length-set fresh i (stored k e.value) ∙ size) placed' counted' (omega arith)
                  (Unique-tail e es u)
                  (λ q j l h.
                    kept' q
                    ∙ ground (
                      arith,
                      apart q (suc j) (omega arith) h,
                      u q 0 (suc j) (omega arith) (omega arith),
                      key_holds q e k key,
                    )) in
              (
                es',
                c',
                moves e es fresh cap count k i key is_i ∙ is,
                record {
                  size = m.size;
                  placed = m.placed;
                  counted = m.counted;
                  total = omega (arith, m.total);
                  kept = λ q.
                      m.kept q
                      ∙ ap (first_of (lookup q es)) (kept' q)
                      ∙ swap_first (same_key q k) e.value (lookup q es) (lookup q fresh) (gone q)
                      ∙ ap (λ o. first_of o (lookup q fresh)) (sym (lookup_key q e es k key));
                },
              )
        ]
