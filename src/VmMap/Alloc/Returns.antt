-- ===== src/VmMap/Alloc/Returns.antt =====
-- kernel/vm/map.c: when the search of `alloc_map_range_locked` returns.
use yak_kernel.Prelude.{
  ℕ, ◌+◌, ◌≤◌, ◌<◌, ◌≡◌, ◌≢◌, if-true, if-false, refl, sym, ◌∙◌, true, false, ◌==◌, if◌then◌else◌,
  List, [], ◌∷◌, arith, inl, inr, Bool-cases, Option, some, none, ltb, leb,
}
use yak_kernel.VmMap.{Entry, lower_bound}
use yak_kernel.VmMap.Alloc.{
  Limits, Search, fits, search_gaps, second_pass, clamp, search_from, search_range,
}

search_gaps-returns :
    (l : Limits) (length base : ℕ) (again : Search) (prev : Option Entry) (n : Entry)
    (es : List Entry)
    → again ≢ none
    → search_gaps l length base again prev (n ∷ es) ≢ none
unfolding search_gaps
search_gaps-returns l length base again prev n [] goes e =
    elim (Bool-cases (fits l length base prev n.base)) [
      | inl k ↦ absurd (cc)
      | inr k ↦ elim (Bool-cases (leb (n.end + length) l.high)) [
        | inl q ↦ absurd (cc)
        | inr q ↦ goes (sym (if-false _ k ∙ if-false _ q) ∙ e)
      ]
    ]
search_gaps-returns l length base again prev n (m ∷ es) goes e =
    elim (Bool-cases (fits l length base prev n.base)) [
      | inl k ↦ absurd (cc)
      | inr k ↦ search_gaps-returns l length base again (some n) m es goes (sym (if-false _ k) ∙ e)
    ]

second_pass-returns :
    (l : Limits) (hint length : ℕ) (e : Entry) (es : List Entry)
    → second_pass l hint length (e ∷ es) ≢ none
second_pass-returns l hint length e es n = elim (Bool-cases (hint == 0)) [
  | inl k ↦ absurd (cc)
  | inr k ↦
      search_gaps-returns l length l.low (some none) none e es (λ s. absurd (cc))
        (sym (if-false _ k) ∙ n)
]

-- On a map of two entries or more the search returns, with a range or without, if the hint, brought within
-- the limits, is not above the first entry.
pub search_range-returns :
    (l : Limits) (hint length : ℕ) (e d : Entry) (es : List Entry)
    → clamp l hint ≤ e.base
    → search_range l hint length (e ∷ d ∷ es) ≢ none
unfolding search_range
search_range-returns l hint length e d es le n =
    let first : ltb e.base (clamp l hint) ≡ false = ground arith in
    let at : search_range l hint length (e ∷ d ∷ es) ≡ (
        if leb (l.low + length) e.base
        then some (some l.low)
        else search_gaps l length (clamp l hint) (second_pass l hint length (e ∷ d ∷ es)) (some e)
            (d ∷ es)) =
      rw (search_range, first) refl in
    elim (Bool-cases (leb (l.low + length) e.base)) [
      | inl k ↦ let found : some (some l.low) ≡ none = sym (at ∙ if-true _ k) ∙ n in absurd (cc)
      | inr k ↦
          search_gaps-returns l length (clamp l hint) (second_pass l hint length (e ∷ d ∷ es))
            (some e) d es (second_pass-returns l hint length e (d ∷ es))
            (sym (at ∙ if-false _ k) ∙ n)
    ]

-- All entries start below `base`.
abbrev pub BasesBelow : ℕ → List Entry → Type 0
BasesBelow base [] = Unit {0}
BasesBelow base (e ∷ es) = (e.base < base) × BasesBelow base es

lower_bound-above :
    (base : ℕ) (es passed : List Entry) → BasesBelow base es → (lower_bound base passed es).1 ≡ []
lower_bound-above base [] passed b = refl
lower_bound-above base (e ∷ es) passed (lt, b) =
    let k : ltb e.base base ≡ true = ground arith in rw k (lower_bound-above base es (e ∷ passed) b)

search_from-above :
    (l : Limits) (hint length : ℕ) (all : List Entry) (c : List Entry × List Entry)
    → c.1 ≡ []
    → search_from l hint length all c ≡ none
search_from-above l hint length all (passed, []) e = refl
search_from-above l hint length all (passed, n ∷ es) e = absurd (cc)

-- On a map with entries, the search fails its assertion if the hint, brought within the limits, is above the
-- base of every entry.
pub search_range-above :
    (l : Limits) (hint length : ℕ) (e : Entry) (es : List Entry)
    → BasesBelow (clamp l hint) (e ∷ es)
    → search_range l hint length (e ∷ es) ≡ none
unfolding search_range
search_range-above l hint length e es b =
    search_from-above l hint length (e ∷ es) (lower_bound (clamp l hint) [] (e ∷ es))
      (lower_bound-above (clamp l hint) (e ∷ es) [] b)
