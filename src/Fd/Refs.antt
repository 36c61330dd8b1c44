-- ===== src/Fd/Refs.antt =====
-- The number of descriptors of a table that share an open file, and how the steps of
-- kernel/core/file.c change it.
use yak_kernel.Prelude.{
  ℕ, zero, suc, ◌+◌, ◌≤◌, ◌<◌, ◌≡◌, refl, ap, ap₂, ◌∙◌, ◌≢◌, List, [], ◌∷◌, Option, none, some,
  arith, ltb, if◌then◌else◌, ◌==◌, length, set, tabulate, tabulate-cong, length-tabulate,
  get_or-tabulate, get_or-outside,
}
use yak_kernel.Fd.Machine.{Fd, slot}
use yak_kernel.Fd.Alloc.{grown, first_free}

-- 1, if the descriptor `d` refers to the file at `p`.
abbrev pub refs_slot : ℕ → Option Fd → ℕ
refs_slot p none = 0
refs_slot p (some d) = elim d.file [ none ↦ 0 | some q ↦ if q == p then 1 else 0 ]

abbrev pub refs : ℕ → List (Option Fd) → ℕ
refs p [] = 0
refs p (d ∷ ds) = refs_slot p d + refs p ds

refs_slot-le : (p : ℕ) (d : Option Fd) → refs_slot p d ≤ 1
refs_slot-le p none = omega arith
refs_slot-le p (some d) = ground arith

pub refs-le-length : (p : ℕ) (ds : List (Option Fd)) → refs p ds ≤ length ds
refs-le-length p [] = omega arith
refs-le-length p (d ∷ ds) = omega (arith, refs-le-length p ds, refs_slot-le p d)

pub refs-set :
    (p : ℕ) (ds : List (Option Fd)) (i : ℕ) (d : Option Fd)
    → i < length ds
    → refs p (set ds i d) + refs_slot p (slot ds i) ≡ refs p ds + refs_slot p d
refs-set p [] i d h = absurd (omega arith)
refs-set p (x ∷ ds) zero d h = omega arith
refs-set p (x ∷ ds) (suc i) d h = omega (arith, refs-set p ds i d (omega arith))

pub refs-set_same :
    (p : ℕ) (ds : List (Option Fd)) (i : ℕ) (d : Option Fd)
    → refs_slot p d ≡ refs_slot p (slot ds i)
    → refs p (set ds i d) ≡ refs p ds
refs-set_same p [] i d h = refl
refs-set_same p (x ∷ ds) zero d h = omega arith
refs-set_same p (x ∷ ds) (suc i) d h = omega (arith, refs-set_same p ds i d h)

pub blank-set :
    (p : ℕ) (ds : List (Option Fd)) (i : ℕ) (d : Option Fd)
    → refs_slot p d ≡ 0
    → refs_slot p (slot (set ds i d) i) ≡ 0
blank-set p [] i d h = refl
blank-set p (x ∷ ds) zero d h = h
blank-set p (x ∷ ds) (suc i) d h = blank-set p ds i d h

pub slot-le-refs : (p : ℕ) (ds : List (Option Fd)) (i : ℕ) → refs_slot p (slot ds i) ≤ refs p ds
slot-le-refs p [] i = omega arith
slot-le-refs p (x ∷ ds) zero = omega arith
slot-le-refs p (x ∷ ds) (suc i) = omega (arith, slot-le-refs p ds i)

-- A descriptor that is in use stands inside the table.
pub lt_of_used : (ds : List (Option Fd)) (i : ℕ) {d : Fd} → slot ds i ≡ some d → i < length ds
lt_of_used [] i e = cc
lt_of_used (x ∷ ds) zero e = omega arith
lt_of_used (x ∷ ds) (suc i) e = omega (arith, lt_of_used ds i e)

refs-nulls : (p n : ℕ) → refs p (tabulate n (λ i. none)) ≡ 0
refs-nulls p zero = refl
refs-nulls p (suc n) = omega (arith, refs-nulls p n)

grown-cons :
    (x : Option Fd) (ds : List (Option Fd)) (n : ℕ) → grown (x ∷ ds) (suc n) ≡ x ∷ grown ds n
unfolding grown
grown-cons x ds n = ap₂ ◌∷◌ (ground arith) (tabulate-cong n _ _ (λ i lt. ground arith))

-- The new table holds the descriptors of the old one, and no others.
pub refs-grown :
    (p : ℕ) (ds : List (Option Fd)) (n : ℕ) → length ds ≤ n → refs p (grown ds n) ≡ refs p ds
unfolding grown
refs-grown p [] n h = ap (refs p) (tabulate-cong n _ _ (λ i lt. ground arith)) ∙ refs-nulls p n
refs-grown p (x ∷ ds) zero h = absurd (omega arith)
refs-grown p (x ∷ ds) (suc n) h =
    ap (refs p) (grown-cons x ds n) ∙ omega (arith, refs-grown p ds n (omega arith))

pub length-grown : (ds : List (Option Fd)) (n : ℕ) → length (grown ds n) ≡ n
unfolding grown
length-grown ds n = length-tabulate n _

pub slot-grown : (ds : List (Option Fd)) (n i : ℕ) → length ds ≤ n → slot (grown ds n) i ≡ slot ds i
unfolding grown
slot-grown ds n i h = ground (
  arith,
  get_or-tabulate n (λ j. if ltb j (length ds) then slot ds j else none) i none,
  get_or-outside (grown ds n) i none,
  get_or-outside ds i none,
  length-grown ds n,
)

pub first_free-some :
    (ds : List (Option Fd)) (k i : ℕ)
    → first_free ds k ≡ some i
    → (m : ℕ) × (i ≡ k + m)
      × (m < length ds)
      × (slot ds m ≡ none)
      × ((j : ℕ) → j < m → slot ds j ≢ none)
unfolding first_free
first_free-some [] k i e = cc
first_free-some (none ∷ ds) k i e =
    (0, ground arith, omega arith, refl, λ j lt. absurd (omega arith))
first_free-some (some d ∷ ds) k i e =
    let (m, at, lt, free, before) = first_free-some ds (suc k) i e in
    (suc m, omega arith, omega arith, free, used before)
  where
    used :
        {m : ℕ}
        → ((j : ℕ) → j < m → slot ds j ≢ none)
        → (j : ℕ) → j < suc m
        → slot (some d ∷ ds) j ≢ none
    used before zero lt = λ h. cc
    used before (suc j) lt = before j (omega arith)

pub first_free-none :
    (ds : List (Option Fd)) (k : ℕ)
    → first_free ds k ≡ none
    → (j : ℕ) → j < length ds
    → slot ds j ≢ none
unfolding first_free
first_free-none [] k e j lt = absurd (omega arith)
first_free-none (none ∷ ds) k e j lt = cc
first_free-none (some d ∷ ds) k e zero lt = λ h. cc
first_free-none (some d ∷ ds) k e (suc j) lt = first_free-none ds (suc k) e j (omega arith)

pub first_free-here :
    (ds : List (Option Fd)) (k : ℕ) → 0 < length ds → slot ds 0 ≡ none → first_free ds k ≡ some k
unfolding first_free
first_free-here [] k h e = absurd (omega arith)
first_free-here (none ∷ ds) k h e = refl
first_free-here (some d ∷ ds) k h e = cc
