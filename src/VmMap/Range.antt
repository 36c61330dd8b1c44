-- ===== src/VmMap/Range.antt =====
-- `vm_unmap` (kernel/vm/map.c) from the search for its first entry on.
use yak_kernel.Prelude.{
  add_size, add_size_small, ◌^◌, ℕ, ◌+◌, ◌-◌, ◌%◌, ◌≤◌, ◌<◌, ◌≡◌, refl, sym, ap, ◌∙◌, true, List,
  [], ◌∷◌, arith, inl, inr, ltb→lt, Bool-cases, some, none, ltb, leb,
}
use yak_kernel.VmMap.{
  Entry, Env, Unmapped, Cut, lower_bound, or_max, or_previous, rev_append, behind, before,
  unmap_loop, vm_unmap, page_size,
}
use yak_kernel.VmMap.View.{IsFrom}

-- All entries end at `b` or before.
abbrev pub EndBy : ℕ → List Entry → Type 0
EndBy b [] = Unit {0}
EndBy b (e ∷ es) = (e.base < e.end) × (e.end ≤ b) × EndBy b es

pub EndBy-weaken : (b c : ℕ) (es : List Entry) → b ≤ c → EndBy b es → EndBy c es
EndBy-weaken b c [] le h = tt
EndBy-weaken b c (e ∷ es) le (p, q, h) = (p, omega arith, EndBy-weaken b c es le h)

-- Entries passed on the way to an address: the last one starts below it, the others end before that one.
abbrev pub Passed : ℕ → List Entry → Type 0
Passed start [] = Unit {0}
Passed start (e ∷ es) = (e.base < start) × (e.base < e.end) × EndBy e.base es

pub lower_bound-Passed :
    (es : List Entry) (lo start : ℕ) (passed : List Entry)
    → IsFrom lo es
    → EndBy lo passed
    → Passed start passed
    → Passed start ((lower_bound start passed es).0)
lower_bound-Passed [] lo start passed f b h = h
lower_bound-Passed (e ∷ es) lo start passed (l, p, f) b h = elim (Bool-cases (ltb e.base start)) [
  | inl k ↦ rw k (
      lower_bound-Passed es e.end start (e ∷ passed) f
        (p, omega arith, EndBy-weaken lo e.end passed (omega arith) b)
        (ltb→lt e.base start k, p, EndBy-weaken lo e.base passed l b))
  | inr k ↦ rw k h
]

pub lower_bound-all :
    (es : List Entry) (start : ℕ) (passed : List Entry)
    → rev_append ((lower_bound start passed es).0) ((lower_bound start passed es).1)
      ≡ rev_append passed es
lower_bound-all [] start passed = refl
lower_bound-all (e ∷ es) start passed = elim (Bool-cases (ltb e.base start)) [
  | inl k ↦ rw k (lower_bound-all es start (e ∷ passed))
  | inr k ↦ rw k refl
]

-- What a step back from the entries passed leaves.
abbrev pub Before : ℕ → List Entry → Cut → Type 0
Before start all c = (rev_append c.0 c.1 ≡ all) × EndBy start c.0

pub step_back :
    (start : ℕ) (all : List Entry) (c : Cut)
    → rev_append c.0 c.1 ≡ all
    → Passed start c.0
    → Before start all (or_previous start (or_max c))
step_back start all ([], []) e h = (e, tt)
step_back start all (p ∷ [], []) e h = (e, tt)
step_back start all (p ∷ q ∷ passed, []) e (b, pp, (qb, qe, h)) =
    elim (Bool-cases (ltb start q.end)) [
      | inl k ↦ rw k (e, EndBy-weaken p.base start passed (omega arith) h)
      | inr k ↦ rw k (e, (qb, omega arith, EndBy-weaken p.base start passed (omega arith) h))
    ]
step_back start all ([], d ∷ es) e h = (e, tt)
step_back start all (p ∷ passed, d ∷ es) e (b, pp, h) = elim (Bool-cases (ltb start p.end)) [
  | inl k ↦ rw k (e, EndBy-weaken p.base start passed (omega arith) h)
  | inr k ↦ rw k (e, (pp, ground (arith, k), EndBy-weaken p.base start passed (omega arith) h))
]

pub behind-before :
    (p : Entry) (passed : List Entry) (r : Unmapped)
    → behind passed (before (p ∷ []) r) ≡ behind (p ∷ passed) r
behind-before p passed none = refl
behind-before p passed (some (st, es, v)) = refl

-- The loop does nothing with entries that end before the range.
loop-behind :
    (passed rest : List Entry) (start stop : ℕ) (v : Env)
    → start ≤ stop
    → EndBy start passed
    → unmap_loop start stop (rev_append passed rest) v
      ≡ behind passed (unmap_loop start stop rest v)
unfolding unmap_loop
loop-behind [] rest start stop v le h = behind-nil (unmap_loop start stop rest v)
  where
    behind-nil : (r : Unmapped) → r ≡ behind [] r
    behind-nil none = refl
    behind-nil (some (st, es, v)) = refl
loop-behind (p ∷ passed) rest start stop v le (n, q, h) =
    loop-behind passed (p ∷ rest) start stop v le h
    ∙ ap (behind passed) skips
    ∙ behind-before p passed (unmap_loop start stop rest v)
  where
    skips : unmap_loop start stop (p ∷ rest) v ≡ before (p ∷ []) (unmap_loop start stop rest v)
    skips =
        let b : ltb p.base stop ≡ true = ground arith in
        let k : leb p.end start ≡ true = ground arith in rw (unmap_loop, b, k) refl

-- The range of whole pages that `vm_unmap` works on.
abbrev pub range_start : ℕ → ℕ
range_start va = va - va % page_size

abbrev pub range_stop : ℕ → ℕ → ℕ
range_stop va length =
    range_start va + (length + (page_size - 1) - (length + (page_size - 1)) % page_size)

-- A range that ends below 2^64 has the end that the code computes.
vm_unmap-stop :
    (va length : ℕ) (es : List Entry) (v : Env)
    → range_stop va length < 2 ^ 64
    → vm_unmap va length es v ≡ (
        let start = range_start va in
        let (passed, rest) = or_previous start (or_max (lower_bound start [] es)) in
        behind passed (unmap_loop start (range_stop va length) rest v))
unfolding vm_unmap
vm_unmap-stop va length es v fits =
    let reach : add_size length (page_size - 1) ≡ length + (page_size - 1) =
      add_size_small length (page_size - 1) (omega (arith, fits)) in
    let stop =
      add_size_small (range_start va)
        (length + (page_size - 1) - (length + (page_size - 1)) % page_size) fits in
    rw (vm_unmap, reach, stop) refl

-- The search for the first entry passes only entries that the loop would do nothing with.
pub vm_unmap-loop :
    (va length : ℕ) (es : List Entry) (v : Env)
    → IsFrom 0 es
    → range_stop va length < 2 ^ 64
    → vm_unmap va length es v ≡ unmap_loop (range_start va) (range_stop va length) es v
vm_unmap-loop va length es v f fits =
    let (all, ends) =
      step_back (range_start va) es (lower_bound (range_start va) [] es)
        (lower_bound-all es (range_start va) [])
        (lower_bound-Passed es 0 (range_start va) [] f tt tt) in
    let here = or_previous (range_start va) (or_max (lower_bound (range_start va) [] es)) in
    vm_unmap-stop va length es v fits
    ∙ sym (loop-behind here.0 here.1 (range_start va) (range_stop va length) v (omega arith) ends)
    ∙ ap (λ fs. unmap_loop (range_start va) (range_stop va length) fs v) all
