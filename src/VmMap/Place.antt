-- ===== src/VmMap/Place.antt =====
-- kernel/vm/map.c, `alloc_map_range_locked`: a new entry in a range that is free, or was asked for.
use yak_kernel.Prelude.{
  ℕ, ◌+◌, ◌-◌, ◌^◌, ◌≤◌, ◌<◌, ◌≡◌, refl, sym, ◌∙◌, Bool, true, false, not, ◌||◌, ◌==◌,
  if◌then◌else◌, List, [], ◌∷◌, arith, inl, inr, if-true, if-false, Bool-cases, Option, some, none,
  ltb, leb, add_size,
}
use yak_kernel.Status.{Status, success, nospace, invalid_args, exists}
use yak_kernel.VmMap.{
  Prot, Inheritance, EntryType, Entry, Env, lower_bound, init_map_entry, alloc, vm_unmap,
}
use yak_kernel.VmMap.View.{IsFrom, within, at_address, view}
use yak_kernel.VmMap.Alloc.{Limits, Search, search_range, AllBelow}
use yak_kernel.VmMap.Alloc.Gaps.{IsFree, Finds}
use yak_kernel.VmMap.Alloc.Free.{search_range-Finds}

-- `RBT_INSERT`
abbrev pub insert_entry : Entry → List Entry → List Entry
insert_entry e [] = e ∷ []
insert_entry e (f ∷ es) =
    let rest = insert_entry e es in if ltb e.base f.base then e ∷ f ∷ es else f ∷ rest

-- What a caller asks for: the arguments of the new entry, and the flags.
pub record Request : Type 0 where
  pub hint : ℕ
  pub size : ℕ
  pub prot : Prot
  pub inheritance : Inheritance
  pub cache : ℕ
  pub offset : ℕ
  pub type : EntryType
  pub fixed : Bool
  pub overwrite : Bool

abbrev pub Allocated : Type 0
Allocated = Option (Status × Option Entry × List Entry × Env)

abbrev pub entry_at : Request → ℕ → Entry
entry_at r base = init_map_entry r.offset base (base + r.size) r.prot r.inheritance r.cache r.type

-- Behind `found`: the assertion, and the entry, whose allocation the code does not test.
unfoldable pub found : Limits → Request → ℕ → List Entry → Env → Allocated
found l r base es v =
    if leb l.low base || ltb (base + r.size) l.high
    then (let (got, v') = alloc v in
        elim got [
          | false ↦ none
          | true ↦ some (success, some (entry_at r base), insert_entry (entry_at r base) es, v')
        ])
    else none

-- `prev && prev->end > base`, and `next && next->base < base + length`.
abbrev pub conflicts : ℕ → ℕ → List Entry × List Entry → Bool
conflicts base stop ([], []) = false
conflicts base stop ([], n ∷ es) = ltb n.base stop
conflicts base stop (p ∷ passed, []) = ltb base p.end
conflicts base stop (p ∷ passed, n ∷ es) = ltb base p.end || ltb n.base stop

unfoldable pub alloc_fixed : Limits → Request → List Entry → Env → Allocated
unfolding found
alloc_fixed l r es v =
    if ltb r.hint l.low || ltb (add_size r.hint r.size) r.hint || ltb l.high (r.hint + r.size)
    then some (invalid_args, none, es, v)
    else if conflicts r.hint (r.hint + r.size) (lower_bound r.hint [] es)
    then if not r.overwrite
      then some (exists, none, es, v)
      else elim (vm_unmap r.hint r.size es v) [
        | none ↦ none
        | some (st, es', v') ↦ found l r r.hint es' v'
      ]
    else found l r r.hint es v

unfoldable pub alloc_searched : Limits → Request → List Entry → Env → Search → Allocated
unfolding found
alloc_searched l r es v none = none
alloc_searched l r es v (some (some base)) = found l r base es v
alloc_searched l r es v (some none) = some (nospace, none, es, v)

unfoldable pub alloc_map_range_locked : Limits → Request → List Entry → Env → Allocated
unfolding alloc_fixed alloc_searched search_range
alloc_map_range_locked l r es v =
    if r.size == 0
    then some (invalid_args, none, es, v)
    else if ltb (l.high - l.low) r.size
    then some (nospace, none, es, v)
    else if r.fixed
    then alloc_fixed l r es v
    else alloc_searched l r es v (search_range l r.hint r.size es)

-- No address from `lo` to `hi` is mapped.
abbrev pub Clear : ℕ → ℕ → List Entry → Type 0
Clear lo hi es = (a : ℕ) → lo ≤ a → a < hi → view es a ≡ none

-- An entry of a map lies before a clear range, or behind it.
Clear-apart :
    (f : Entry) (es : List Entry) (lo hi : ℕ)
    → f.base < f.end
    → lo < hi
    → Clear lo hi (f ∷ es)
    → ltb lo f.base ≡ false
    → f.end ≤ lo
Clear-apart f es lo hi p lt c k = elim (Bool-cases (leb f.end lo)) [
  | inl q ↦ ground (arith, q)
  | inr q ↦
      let is : within f.base f.end lo ≡ true = ground (arith, k, q) in
      let seen : some (at_address f lo) ≡ none = sym (if-true _ is) ∙ c lo (omega arith) lt in
      absurd (cc)
]

Clear-behind :
    (f : Entry) (es : List Entry) (lo hi : ℕ)
    → f.base < f.end
    → lo < hi
    → Clear lo hi (f ∷ es)
    → ltb lo f.base ≡ true
    → hi ≤ f.base
Clear-behind f es lo hi p lt c k = elim (Bool-cases (leb hi f.base)) [
  | inl q ↦ ground (arith, q)
  | inr q ↦
      let is : within f.base f.end f.base ≡ true = ground arith in
      let seen : some (at_address f f.base) ≡ none =
        sym (if-true _ is) ∙ c f.base (ground (arith, k)) (ground (arith, q)) in
      absurd (cc)
]

-- What an entry put into a clear range makes of the map, whose entries kept the range clear.
pub record IsPlaced (lo : ℕ) (e : Entry) (es es' : List Entry) : Type 0 where
  pub was_free : Clear e.base e.end es
  pub in_order : IsFrom lo es'
  pub says :
      (a : ℕ) → view es' a ≡ (if within e.base e.end a then some (at_address e a) else view es a)

pub insert_entry-IsPlaced :
    (es : List Entry) (lo : ℕ) (e : Entry)
    → lo ≤ e.base
    → e.base < e.end
    → IsFrom lo es
    → Clear e.base e.end es
    → IsPlaced lo e es (insert_entry e es)
insert_entry-IsPlaced [] lo e le p f c = record {
  was_free = c;
  in_order = (le, p, tt);
  says = λ a. refl;
}
insert_entry-IsPlaced (d ∷ es) lo e le p f c = elim (Bool-cases (ltb e.base d.base)) [
  | inl k ↦
      let apart = Clear-behind d es e.base e.end f.1 p c k in
      rw k (record { was_free = c; in_order = (le, p, (apart, f.1, f.2)); says = λ a. refl })
  | inr k ↦
      let apart = Clear-apart d es e.base e.end f.1 p c k in
      let w = insert_entry-IsPlaced es d.end e apart p f.2 (λ a q r.
        let out : within d.base d.end a ≡ false = ground (arith, apart) in
        sym (if-false _ out) ∙ c a q r) in
      rw k (record {
        was_free = c;
        in_order = (f.0, f.1, w.in_order);
        says = λ a. elim (Bool-cases (within d.base d.end a)) [
          | inl is ↦
              let out : within e.base e.end a ≡ false = ground (arith, is, apart) in
              rw (is, out) refl
          | inr is_not ↦ rw is_not (w.says a)
        ];
      })
]

-- What a result says of the map: where it is a success, the new entry has been placed.
abbrev pub Places : ℕ → List Entry → Allocated → Type 0
Places lo es none = Unit {0}
Places lo es (some (st, some e, es', v)) = IsPlaced lo e es es'
Places lo es (some (st, none, es', v)) = es' ≡ es

module _ (l : Limits) (small : l.high < 2 ^ 64) (r : Request) (es : List Entry) (v : Env) where
  found-Places :
      (base : ℕ)
      → 0 < r.size
      → IsFrom l.low es
      → IsFree l es base r.size
      → Places l.low es (found l r base es v)
  unfolding found
  found-Places base pos f free = elim (Bool-cases (leb l.low base || ltb (base + r.size) l.high)) [
    | inr k ↦ rw (found, k) tt
    | inl k ↦ elim (Bool-cases ((alloc v).0)) [
      | inl g ↦
          rw (found, k, g)
            (insert_entry-IsPlaced es l.low (entry_at r base) free.above (omega arith) f
              free.unmapped)
      | inr g ↦ rw (found, k, g) tt
    ]
  ]

  searched-Places :
      (s : Search)
      → 0 < r.size
      → IsFrom l.low es
      → Finds l es r.size s
      → Places l.low es (alloc_searched l r es v s)
  unfolding alloc_searched
  searched-Places none pos f free = tt
  searched-Places (some (some base)) pos f free = found-Places base pos f free
  searched-Places (some none) pos f free = refl

  -- A mapping that is not fixed, on a map of the limits whose entries are in order and apart: where
  -- `alloc_map_range_locked` returns an entry, no address of it was mapped, the entries are in order and apart,
  -- and the map says the entry's attributes of the new addresses and what it said before of all others;
  -- where it returns none, the map is as it was. Nothing is said where an assertion fails.
  pub alloc_map_range_locked-Places :
      r.fixed ≡ false
      → l.low ≤ l.high
      → IsFrom l.low es
      → AllBelow l.high es
      → Places l.low es (alloc_map_range_locked l r es v)
  unfolding alloc_map_range_locked
  alloc_map_range_locked-Places free le f b = elim (Bool-cases (r.size == 0)) [
    | inl k ↦ rw (alloc_map_range_locked, k) refl
    | inr k ↦ elim (Bool-cases (ltb (l.high - l.low) r.size)) [
      | inl q ↦ rw (alloc_map_range_locked, k, q) refl
      | inr q ↦
          rw (alloc_map_range_locked, k, q, free)
            (searched-Places (search_range l r.hint r.size es) (ground (arith, k)) f
              (search_range-Finds l small r.hint r.size es le f b))
    ]
  ]
