-- ===== src/VmMap/Alloc/Gaps.antt =====
-- kernel/vm/map.c: the gaps that the loop of `alloc_map_range_locked` looks at.
use yak_kernel.Prelude.{
  ℕ, ◌+◌, ◌-◌, ◌^◌, ◌≤◌, ◌<◌, ◌≡◌, refl, sym, ap, ◌∙◌, true, false, List, [], ◌∷◌, arith, inl, inr,
  Bool-cases, Option, some, none, leb, sub_size_small,
}
use yak_kernel.VmMap.{Entry, rev_append, max_addr}
use yak_kernel.VmMap.View.{IsFrom, within, view, view-below}
use yak_kernel.VmMap.Range.{EndBy, EndBy-weaken}
use yak_kernel.VmMap.Alloc.{Limits, Search, end_of, gap_start, fits, search_gaps, AllBelow}

-- A range within the limits that no entry maps.
pub record IsFree (l : Limits) (es : List Entry) (base length : ℕ) : Type 0 where
  pub above : l.low ≤ base
  pub below : base + length ≤ l.high
  pub unmapped : (a : ℕ) → base ≤ a → a < base + length → view es a ≡ none

abbrev pub Finds : Limits → List Entry → ℕ → Search → Type 0
Finds l es length none = Unit {0}
Finds l es length (some (some base)) = IsFree l es base length
Finds l es length (some none) = Unit {0}

pub view-behind :
    (passed es : List Entry) (b a : ℕ)
    → EndBy b passed
    → b ≤ a
    → view (rev_append passed es) a ≡ view es a
view-behind [] es b a h le = refl
view-behind (p ∷ passed) es b a (n, q, h) le =
    let out : within p.base p.end a ≡ false = ground arith in
    view-behind passed (p ∷ es) b a h le ∙ rw out refl

-- No entry starts below `base`.
abbrev pub BasesFrom : ℕ → List Entry → Type 0
BasesFrom base [] = Unit {0}
BasesFrom base (e ∷ es) = (base ≤ e.base) × BasesFrom base es

module _ (l : Limits) (small : l.high < 2 ^ 64) (length : ℕ) (base : ℕ) (all : List Entry) where
  -- A gap that the test finds large enough is free.
  gap-IsFree :
      (passed es : List Entry) (prev : Option Entry) (gap_end : ℕ)
      → rev_append passed es ≡ all
      → EndBy (end_of l.low prev) passed
      → IsFrom gap_end es
      → l.low ≤ end_of l.low prev
      → end_of l.low prev ≤ gap_end
      → base ≤ gap_end
      → gap_end ≤ l.high
      → fits l length base prev gap_end ≡ true
      → IsFree l all (gap_start l base prev) length
  gap-IsFree passed es prev gap_end e h f low le above high k =
      let fit : length ≤ gap_end - gap_start l base prev = ground (
        arith,
        k,
        sub_size_small gap_end (gap_start l base prev) (start_le (end_of l.low prev) le above)
            (omega arith),
      ) in
      let (from, to) = starts (end_of l.low prev) in
      record {
        above = omega arith;
        below = omega (arith, start_le (end_of l.low prev) le above);
        unmapped = λ a p q.
            ap (λ fs. view fs a) (sym e)
            ∙ view-behind passed es (end_of l.low prev) a h (omega arith)
            ∙ view-below es gap_end a f (omega (arith, start_le (end_of l.low prev) le above));
      }
    where
      start_le : (n : ℕ) → n ≤ gap_end → base ≤ gap_end → max_addr n base ≤ gap_end
      start_le n a b = ground arith

      starts : (n : ℕ) → (n ≤ max_addr n base) × (base ≤ max_addr n base)
      starts n = (ground arith, ground arith)

  pub search_gaps-Finds :
      (es passed : List Entry) (prev : Option Entry) (again : Search)
      → rev_append passed es ≡ all
      → EndBy (end_of l.low prev) passed
      → IsFrom (end_of l.low prev) es
      → AllBelow l.high es
      → l.low ≤ end_of l.low prev
      → end_of l.low prev ≤ l.high
      → base ≤ l.high
      → BasesFrom base es
      → Finds l all length again
      → Finds l all length (search_gaps l length base again prev es)
  unfolding search_gaps
  search_gaps-Finds [] passed prev again e h f ab low high hb bf ag =
      elim (Bool-cases (fits l length base prev l.high)) [
        | inl k ↦ rw k (gap-IsFree passed [] prev l.high e h tt low high hb (omega arith) k)
        | inr k ↦ rw k tt
      ]
  search_gaps-Finds (n ∷ []) passed prev again e h f ab low high hb bf ag =
      elim (Bool-cases (fits l length base prev n.base)) [
        | inl k ↦ rw k (
            gap-IsFree passed (n ∷ []) prev n.base e h (omega arith, f.1, f.2) low f.0 bf.0
              (omega (arith, f.1, ab.0)) k)
        | inr k ↦ elim (Bool-cases (leb (n.end + length) l.high)) [
          | inl q ↦
              rw (k, q)
                (record {
                  above = omega (arith, low, f.0, f.1);
                  below = ground (arith, q);
                  unmapped = λ a p r.
                      ap (λ fs. view fs a) (sym e)
                      ∙ view-behind (n ∷ passed) [] n.end a
                          (
                            f.1,
                            omega arith,
                            EndBy-weaken (end_of l.low prev) n.end passed (omega (arith, f.0, f.1))
                                h,
                          )
                          p;
                })
          | inr q ↦ rw (k, q) ag
        ]
      ]
  search_gaps-Finds (n ∷ m ∷ es) passed prev again e h f ab low high hb bf ag =
      elim (Bool-cases (fits l length base prev n.base)) [
        | inl k ↦ rw k (
            gap-IsFree passed (n ∷ m ∷ es) prev n.base e h (omega arith, f.1, f.2) low f.0 bf.0
              (omega (arith, f.1, ab.0)) k)
        | inr k ↦ rw k (
            search_gaps-Finds (m ∷ es) (n ∷ passed) (some n) again e
              (
                f.1,
                omega arith,
                EndBy-weaken (end_of l.low prev) n.end passed (omega (arith, f.0, f.1)) h,
              )
              f.2 ab.1 (omega (arith, low, f.0, f.1)) ab.0 hb bf.1 ag)
      ]
