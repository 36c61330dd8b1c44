-- ===== src/VmMap/Alloc/Free.antt =====
-- kernel/vm/map.c: the range that the search of `alloc_map_range_locked` reports.
use yak_kernel.Prelude.{
  ℕ, ◌+◌, ◌^◌, ◌≤◌, ◌<◌, ◌≡◌, refl, sym, ap, ◌∙◌, ◌==◌, List, [], ◌∷◌, arith, inl, inr, Bool-cases,
  some, none, ltb, leb,
}
use yak_kernel.VmMap.{Entry, lower_bound, rev_append}
use yak_kernel.VmMap.View.{IsFrom, view, view-below}
use yak_kernel.VmMap.Range.{EndBy, EndBy-weaken, lower_bound-all}
use yak_kernel.VmMap.Alloc.{
  Limits, search_gaps, second_pass, clamp, search_from, search_range, AllBelow,
}
use yak_kernel.VmMap.Alloc.Gaps.{Finds, BasesFrom, search_gaps-Finds}

IsFrom-BasesFrom : (es : List Entry) (lo base : ℕ) → base ≤ lo → IsFrom lo es → BasesFrom base es
IsFrom-BasesFrom [] lo base le f = tt
IsFrom-BasesFrom (e ∷ es) lo base le (k, p, f) =
    (omega arith, IsFrom-BasesFrom es e.end base (omega arith) f)

-- Where the entries passed end.
abbrev last_end : ℕ → List Entry → ℕ
last_end low [] = low
last_end low (p ∷ passed) = p.end

-- The entries passed and those to come, with all of them in order and within the limits.
record IsCut (l : Limits) (passed es : List Entry) : Type 0 where
  ends : EndBy (last_end l.low passed) passed
  order : IsFrom (last_end l.low passed) es
  high : AllBelow l.high es
  low_end : l.low ≤ last_end l.low passed
  high_end : last_end l.low passed ≤ l.high

lower_bound-IsCut :
    (l : Limits) (start : ℕ) (es passed : List Entry)
    → IsCut l passed es
    → IsCut l ((lower_bound start passed es).0) ((lower_bound start passed es).1)
      × BasesFrom start ((lower_bound start passed es).1)
lower_bound-IsCut l start [] passed c = (c, tt)
lower_bound-IsCut l start (e ∷ es) passed c = elim (Bool-cases (ltb e.base start)) [
  | inl k ↦ rw k (
      lower_bound-IsCut l start es (e ∷ passed) (record {
        ends = (
          c.order.1,
          omega arith,
          EndBy-weaken (last_end l.low passed) e.end passed (omega (arith, c.order.0, c.order.1))
              c.ends,
        );
        order = c.order.2;
        high = c.high.1;
        low_end = omega (arith, c.low_end, c.order.0, c.order.1);
        high_end = c.high.0;
      }))
  | inr k ↦ rw k (
    c,
    IsFrom-BasesFrom (e ∷ es) e.base start (ground (arith, k)) (omega arith, c.order.1, c.order.2),
  )
]

clamp-between :
    (l : Limits) (hint : ℕ) → l.low ≤ l.high → (l.low ≤ clamp l hint) × (clamp l hint ≤ l.high)
clamp-between l hint le = (ground arith, ground arith)

module _ (l : Limits) (small : l.high < 2 ^ 64) (hint length : ℕ) where
  second_pass-Finds :
      (es : List Entry)
      → l.low ≤ l.high
      → IsFrom l.low es
      → AllBelow l.high es
      → Finds l es length (second_pass l hint length es)
  second_pass-Finds es le f b = elim (Bool-cases (hint == 0)) [
    | inl k ↦ rw k tt
    | inr k ↦ rw k (
        search_gaps-Finds l small length l.low es es [] none (some none) refl tt f b (omega arith)
          le le (IsFrom-BasesFrom es l.low l.low (omega arith) f) tt)
  ]

  search_from-Finds :
      (all passed es : List Entry)
      → l.low ≤ l.high
      → IsFrom l.low all
      → AllBelow l.high all
      → rev_append passed es ≡ all
      → IsCut l passed es
      → BasesFrom (clamp l hint) es
      → Finds l all length (search_from l hint length all (passed, es))
  search_from-Finds all passed [] le f b e c bf = tt
  search_from-Finds all [] (n ∷ es) le f b e c bf =
      elim (Bool-cases (leb (l.low + length) n.base)) [
        | inl k ↦ rw k (record {
          above = omega arith;
          below = ground (arith, k, c.high.0, c.order.1);
          unmapped = λ a p q.
              ap (λ fs. view fs a) (sym e)
              ∙ view-below (n ∷ es) n.base a (omega arith, c.order.1, c.order.2)
                  (ground (arith, k, p, q));
        })
        | inr k ↦ rw k (
            search_gaps-Finds l small length (clamp l hint) all es (n ∷ []) (some n)
              (second_pass l hint length all) e (c.order.1, omega arith, tt) c.order.2 c.high.1
              (omega (arith, c.order.0, c.order.1)) c.high.0 (clamp-between l hint le).1 bf.1
              (second_pass-Finds all le f b))
      ]
  search_from-Finds all (p ∷ passed) (n ∷ es) le f b e c bf =
      search_gaps-Finds l small length (clamp l hint) all (n ∷ es) (p ∷ passed) (some p)
        (second_pass l hint length all) e c.ends c.order c.high c.low_end c.high_end
        (clamp-between l hint le).1 bf (second_pass-Finds all le f b)

  -- A range that the search for a place of a mapping reports lies within the limits of the map and holds no
  -- address that the map has an entry for.
  pub search_range-Finds :
      (es : List Entry)
      → l.low ≤ l.high
      → IsFrom l.low es
      → AllBelow l.high es
      → Finds l es length (search_range l hint length es)
  unfolding search_range search_gaps
  search_range-Finds [] le f b = elim (Bool-cases (ltb l.high (clamp l hint + length))) [
    | inl k ↦ elim (Bool-cases (ltb l.high (l.low + length))) [
      | inl q ↦ rw (k, q) tt
      | inr q ↦
          rw (k, q)
            (record { above = omega arith; below = ground (arith, q); unmapped = λ a p r. refl })
    ]
    | inr k ↦ rw k (record {
      above = (clamp-between l hint le).0;
      below = ground (arith, k);
      unmapped = λ a p r. refl;
    })
  ]
  search_range-Finds (e ∷ es) le f b =
      let (c, bf) =
        lower_bound-IsCut l (clamp l hint) (e ∷ es) []
          (record { ends = tt; order = f; high = b; low_end = omega arith; high_end = le }) in
      search_from-Finds (e ∷ es) ((lower_bound (clamp l hint) [] (e ∷ es)).0)
        ((lower_bound (clamp l hint) [] (e ∷ es)).1) le f b
        (lower_bound-all (e ∷ es) (clamp l hint) []) c bf
