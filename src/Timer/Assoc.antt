-- ===== src/Timer/Assoc.antt =====
-- A heap as an association list, for which what Timer.Heap asks of a heap holds.
use yak_kernel.Prelude.{
  ℕ, ◌≤◌, ◌<◌, ◌≡◌, ◌≢◌, refl, sym, subst, ◌∙◌, ap, false, List, [], ◌∷◌, length, Option, none,
  some, arith, ◌==◌, if◌then◌else◌, if-true, if-false, Bool-cases, Option-cases, leb, inl, inr,
}
use yak_kernel.Timer.{TimerHeap}
use yak_kernel.Timer.Heap.{IsHeap}

abbrev pub Assoc : Type 0
Assoc = List (ℕ × ℕ)

unfoldable pub find : Assoc → ℕ → Option ℕ
find [] j = none
find ((i, d) ∷ h) j = if i == j then some d else find h j

pub erase : ℕ → Assoc → Assoc
erase i [] = []
erase i ((k, d) ∷ h) = if i == k then erase i h else (k, d) ∷ erase i h

abbrev key : Assoc → ℕ → ℕ
key h i = elim (find h i) [ none ↦ 0 | some d ↦ d ]

unfoldable ids : Assoc → List ℕ
ids [] = []
ids ((i, d) ∷ h) = i ∷ ids h

unfoldable least_id : (ℕ → ℕ) → List ℕ → Option ℕ
least_id f [] = none
least_id f (i ∷ is) = elim (least_id f is) [
  | none ↦ some i
  | some j ↦ if leb (f i) (f j) then some i else some j
]

unfoldable pub first : Assoc → Option ℕ
unfolding ids least_id find
first h = least_id (key h) (ids h)

pub drop_first : Assoc → Assoc
drop_first h = elim (first h) [ none ↦ h | some i ↦ erase i h ]

abbrev pub assoc_heap : TimerHeap
assoc_heap = record {
  Heap = Assoc;
  empty = [];
  insert = λ d i h. (i, d) ∷ h;
  remove = erase;
  peek = first;
  pop = drop_first;
}

pub find-erase :
    (i : ℕ) (h : Assoc) (j : ℕ) → find (erase i h) j ≡ (if i == j then none else find h j)
unfolding find erase
find-erase i [] j = ground arith
find-erase i ((k, d) ∷ h) j = ground (arith, find-erase i h j)

length-erase_le : (i : ℕ) (h : Assoc) → length (erase i h) ≤ length h
unfolding erase
length-erase_le i [] = omega arith
length-erase_le i ((k, d) ∷ h) = ground (arith, length-erase_le i h)

pub length-erase : (i : ℕ) (h : Assoc) → find h i ≢ none → length (erase i h) < length h
unfolding erase find
length-erase i [] has = absurd (has refl)
length-erase i ((k, d) ∷ h) has = elim (Bool-cases (i == k)) [
  | inl same ↦ ground (arith, length-erase_le i h)
  | inr other ↦
      let ne : (k == i) ≡ false = ground arith in
      let later : find h i ≢ none = λ e. has (if-false _ ne ∙ e) in
      ground (arith, length-erase i h later)
]

data IsIn (j : ℕ) : List ℕ → Type 0 where
  at_head : (is : List ℕ) → IsIn j (j ∷ is)
  at_tail : (i : ℕ) (is : List ℕ) → IsIn j is → IsIn j (i ∷ is)

find-IsIn : (h : Assoc) (j : ℕ) → find h j ≢ none → IsIn j (ids h)
unfolding find ids
find-IsIn [] j has = absurd (has refl)
find-IsIn ((i, d) ∷ h) j has = elim (Bool-cases (i == j)) [
  | inl same ↦ let e : i ≡ j = ground arith in rw e (at_head (ids h))
  | inr other ↦ at_tail i (ids h) (find-IsIn h j (λ e. has (if-false _ other ∙ e)))
]

tail_of : {i j : ℕ} {is : List ℕ} → IsIn j (i ∷ is) → i ≢ j → IsIn j is
tail_of (at_head is) ne = absurd (ne refl)
tail_of (at_tail i is m) ne = m

IsIn-find : (h : Assoc) (j : ℕ) → IsIn j (ids h) → find h j ≢ none
unfolding find ids
IsIn-find [] j m e = elim m [ ]
IsIn-find ((i, d) ∷ h) j m e = elim (Bool-cases (i == j)) [
  | inl same ↦ cc (sym (if-true _ same) ∙ e)
  | inr other ↦ IsIn-find h j (tail_of m (λ x. ground arith)) (sym (if-false _ other) ∙ e)
]

least_id-IsIn : (f : ℕ → ℕ) (is : List ℕ) {i : ℕ} → least_id f is ≡ some i → IsIn i is
unfolding least_id
least_id-IsIn f [] e = absurd (cc e)
least_id-IsIn f (k ∷ is) {i} e = elim (Option-cases (least_id f is)) [
  | inl empty ↦ let self : k ≡ i = ground arith in subst (λ x. IsIn x (k ∷ is)) self (at_head is)
  | inr (j, some_j) ↦ elim (Bool-cases (leb (f k) (f j))) [
    | inl le ↦ let self : k ≡ i = ground arith in subst (λ x. IsIn x (k ∷ is)) self (at_head is)
    | inr gt ↦
        let other : j ≡ i = ground arith in
        subst (λ x. IsIn x (k ∷ is)) other (at_tail k is (least_id-IsIn f is some_j))
  ]
]

least_id-none : (f : ℕ → ℕ) (is : List ℕ) → least_id f is ≡ none → is ≡ []
unfolding least_id
least_id-none f [] e = refl
least_id-none f (k ∷ is) e = absurd (ground arith)

not-IsIn_nil : {j : ℕ} {is : List ℕ} → is ≡ [] → ¬ IsIn j is
not-IsIn_nil e (at_head is) = cc e
not-IsIn_nil e (at_tail i is m) = cc e

least_id-le :
    (f : ℕ → ℕ) (is : List ℕ) {i : ℕ} → least_id f is ≡ some i → (j : ℕ) → IsIn j is → f i ≤ f j
unfolding least_id
least_id-le f [] {i} e j m = elim m [ ]
least_id-le f (k ∷ is) {i} e j (at_head _) = elim (Option-cases (least_id f is)) [
  | inl empty ↦ let self : k ≡ i = ground arith in omega (arith, ap f self)
  | inr (l, some_l) ↦ elim (Bool-cases (leb (f k) (f l))) [
    | inl le ↦ let self : k ≡ i = ground arith in omega (arith, ap f self)
    | inr gt ↦ let other : l ≡ i = ground arith in ground (arith, ap f other)
  ]
]
least_id-le f (k ∷ is) {i} e j (at_tail _ _ m) = elim (Option-cases (least_id f is)) [
  | inl empty ↦ absurd (not-IsIn_nil (least_id-none f is empty) m)
  | inr (l, some_l) ↦
      let below : f l ≤ f j = least_id-le f is some_l j m in
      elim (Bool-cases (leb (f k) (f l))) [
        | inl le ↦ let self : k ≡ i = ground arith in ground (arith, ap f self)
        | inr gt ↦ let other : l ≡ i = ground arith in omega (arith, ap f other)
      ]
]

first_key : (h : Assoc) (i d : ℕ) → find h i ≡ some d → key h i ≡ d
first_key h i d e = ap (λ (o : Option ℕ). elim o as (λ _. ℕ) [ none ↦ 0 | some d ↦ d ]) e

ids_nil : (h : Assoc) → ids h ≡ [] → h ≡ []
unfolding ids
ids_nil [] e = refl
ids_nil ((i, d) ∷ h) e = cc e

pub drop_first-erase : (h : Assoc) (i : ℕ) → first h ≡ some i → drop_first h ≡ erase i h
unfolding drop_first
drop_first-erase h i e = rw (drop_first, e) refl

pub first_found : (h : Assoc) (i : ℕ) → first h ≡ some i → find h i ≢ none
unfolding first
first_found h i e = IsIn-find h i (least_id-IsIn (key h) (ids h) e)

pub first_least :
    (h : Assoc) (i j d e : ℕ) → first h ≡ some i → find h i ≡ some d → find h j ≡ some e → d ≤ e
unfolding first
first_least h i j d e top is_d is_e = omega (
  arith,
  least_id-le (key h) (ids h) top j (find-IsIn h j (λ x. cc (x, is_e))),
  first_key h i d is_d,
  first_key h j e is_e,
)

pub first-none : (h : Assoc) (j : ℕ) → first h ≡ none → find h j ≡ none
unfolding first find
first-none h j e = ap (λ l. find l j) (ids_nil h (least_id-none (key h) (ids h) e))

pub find_insert :
    (d i : ℕ) (h : Assoc) (j : ℕ) → find ((i, d) ∷ h) j ≡ (if i == j then some d else find h j)
unfolding find
find_insert d i h j = refl

pub find_nil : (j : ℕ) → find [] j ≡ none
unfolding find
find_nil j = refl

abbrev pub assoc_laws : IsHeap assoc_heap
assoc_laws = record {
  has = find;
  size = length;
  has_insert = λ d i h j new. find_insert d i h j;
  has_remove = λ i h d j has. find-erase i h j;
  has_pop = λ h i j top. ap (λ l. find l j) (drop_first-erase h i top) ∙ find-erase i h j;
  peek_has = first_found;
  peek_least = first_least;
  peek_none = first-none;
  size_pop = λ h i top. omega (
    arith,
    ap (λ (l : Assoc). length l) (drop_first-erase h i top),
    length-erase i h (first_found h i top),
  );
}
