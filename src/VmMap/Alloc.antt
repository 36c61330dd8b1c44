-- ===== src/VmMap/Alloc.antt =====
-- kernel/vm/map.c, `alloc_map_range_locked`: the search for a free range. `none` is a failed assertion or the
-- step on from a null element. Addresses are below 2 ^ 64.
pub mod Gaps
pub mod Free
pub mod Returns
use yak_kernel.Prelude.{
  ℕ, ◌+◌, ◌-◌, ◌^◌, ◌≤◌, ◌<◌, ◌≡◌, ◌≢◌, if-true, if-false, refl, sym, ap, ◌∙◌, Bool, true, false,
  ◌==◌, if◌then◌else◌, List, [], ◌∷◌, arith, inl, inr, Bool-cases, Option, some, none, ltb, leb,
  sub_size, sub_size_small,
}
use yak_kernel.VmMap.{Entry, lower_bound, rev_append, max_addr}
use yak_kernel.VmMap.View.{IsFrom, within, view, view-below}
use yak_kernel.VmMap.Range.{EndBy, EndBy-weaken, lower_bound-all}

-- The addresses of a map, `min_addr` and `max_addr`.
pub record Limits : Type 0 where
  pub low : ℕ
  pub high : ℕ

-- The base of the range; `some none` is `YAK_NOSPACE`.
abbrev pub Search : Type 0
Search = Option (Option ℕ)

abbrev pub end_of : ℕ → Option Entry → ℕ
end_of low none = low
end_of low (some e) = e.end

-- `gap_start`, with the hint respected.
abbrev pub gap_start : Limits → ℕ → Option Entry → ℕ
gap_start l base prev = max_addr (end_of l.low prev) base

-- `gap_end - gap_start >= length`
abbrev pub fits : Limits → ℕ → ℕ → Option Entry → ℕ → Bool
fits l length base prev gap_end = leb length (sub_size gap_end (gap_start l base prev))

-- The loop on the gap between `prev` and the head of the list, which is `next`. `again` is what follows where
-- the last entry is reached: the second pass, or its end.
unfoldable pub search_gaps : Limits → ℕ → ℕ → Search → Option Entry → List Entry → Search
search_gaps l length base again prev [] =
    if fits l length base prev l.high then some (some (gap_start l base prev)) else none
search_gaps l length base again prev (n ∷ []) =
    if fits l length base prev n.base
    then some (some (gap_start l base prev))
    else if leb (n.end + length) l.high
    then some (some n.end)
    else again
search_gaps l length base again prev (n ∷ m ∷ es) =
    let rest = search_gaps l length base again (some n) (m ∷ es) in
    if fits l length base prev n.base then some (some (gap_start l base prev)) else rest

-- The pass from the start of the map, once.
abbrev pub second_pass : Limits → ℕ → ℕ → List Entry → Search
second_pass l hint length all =
    if hint == 0 then some none else search_gaps l length l.low (some none) none all

abbrev pub clamp : Limits → ℕ → ℕ
clamp l hint =
    let base = if ltb hint l.low then l.low else hint in if ltb l.high base then l.high else base

abbrev pub search_from : Limits → ℕ → ℕ → List Entry → List Entry × List Entry → Search
search_from l hint length all (passed, []) = none
search_from l hint length all ([], n ∷ es) =
    if leb (l.low + length) n.base
    then some (some l.low)
    else search_gaps l length (clamp l hint) (second_pass l hint length all) (some n) es
search_from l hint length all (p ∷ passed, n ∷ es) =
    search_gaps l length (clamp l hint) (second_pass l hint length all) (some p) (n ∷ es)

-- The range for a mapping that is not fixed.
unfoldable pub search_range : Limits → ℕ → ℕ → List Entry → Search
unfolding search_gaps
search_range l hint length [] =
    if ltb l.high (clamp l hint + length)
    then if ltb l.high (l.low + length) then some none else some (some l.low)
    else some (some (clamp l hint))
search_range l hint length (e ∷ es) =
    search_from l hint length (e ∷ es) (lower_bound (clamp l hint) [] (e ∷ es))

-- All entries end within the limits.
abbrev pub AllBelow : ℕ → List Entry → Type 0
AllBelow high [] = Unit {0}
AllBelow high (e ∷ es) = (e.end ≤ high) × AllBelow high es
