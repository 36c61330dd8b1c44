-- ===== src/VmMap/Tree.antt =====
-- The searches of kernel/vm/map.c in the tree of a map, against searches in the list of its entries.
use yak_kernel.Prelude.{
  ℕ, ◌≤◌, ◌<◌, ◌≡◌, refl, true, false, if◌then◌else◌, List, [], ◌∷◌, ◌++◌, arith, inl, inr, ltb→lt,
  Bool-cases, Option, some, none, ltb, leb,
}
use yak_kernel.VmMap.{Entry}
use yak_kernel.VmMap.View.{within, IsFrom}

-- `vm_map_tree_t`, without the colours.
pub data Tree : Type 0 where
  leaf : Tree
  node : Tree → Entry → Tree → Tree

abbrev pub inorder : Tree → List Entry
inorder leaf = []
inorder (node l e r) = inorder l ++ e ∷ inorder r

-- `vm_map_lookup_entry_locked`
unfoldable pub vm_map_lookup_entry_locked : Tree → ℕ → Option Entry
vm_map_lookup_entry_locked leaf a = none
vm_map_lookup_entry_locked (node l e r) a =
    let left = vm_map_lookup_entry_locked l a in
    let right = vm_map_lookup_entry_locked r a in
    if ltb a e.base then left else if leb e.end a then right else some e

-- `map_lower_bound`, with the best entry so far.
unfoldable pub map_lower_bound : Tree → ℕ → Option Entry → Option Entry
map_lower_bound leaf a best = best
map_lower_bound (node l e r) a best =
    let left = map_lower_bound l a (some e) in
    let right = map_lower_bound r a best in if ltb e.base a then right else left

abbrev pub find : List Entry → ℕ → Option Entry
find [] a = none
find (e ∷ es) a = if within e.base e.end a then some e else find es a

-- The first entry whose base is not below the address, or else the one given.
abbrev pub first_from : List Entry → ℕ → Option Entry → Option Entry
first_from [] a best = best
first_from (e ∷ es) a best = if ltb e.base a then first_from es a best else some e

-- In order: what is to the left of an entry, and what is to the right.
split-left :
    (es : List Entry) (e : Entry) (fs : List Entry) (lo : ℕ)
    → IsFrom lo (es ++ e ∷ fs)
    → IsFrom lo es × (lo ≤ e.base) × (e.base < e.end) × IsFrom e.end fs
split-left [] e fs lo (l, p, f) = (tt, l, p, f)
split-left (d ∷ es) e fs lo (l, p, f) =
    let (left, below, nonempty, right) = split-left es e fs d.end f in
    ((l, p, left), omega (arith, below, l, p), nonempty, right)

find-none : (es : List Entry) (lo a : ℕ) → IsFrom lo es → a < lo → find es a ≡ none
find-none [] lo a f lt = refl
find-none (e ∷ es) lo a (l, p, f) lt =
    let out : within e.base e.end a ≡ false = ground arith in
    rw out (find-none es e.end a f (omega arith))

-- An address below an entry is looked for to its left alone.
find-left :
    (es : List Entry) (e : Entry) (fs : List Entry) (lo a : ℕ)
    → IsFrom lo (es ++ e ∷ fs)
    → a < e.base
    → find (es ++ e ∷ fs) a ≡ find es a
find-left [] e fs lo a (l, p, f) lt =
    let out : within e.base e.end a ≡ false = ground arith in
    rw out (find-none fs e.end a f (omega arith))
find-left (d ∷ es) e fs lo a (l, p, f) lt = rw (find-left es e fs d.end a f lt) refl

find-right :
    (es : List Entry) (e : Entry) (fs : List Entry) (lo a : ℕ)
    → IsFrom lo (es ++ e ∷ fs)
    → e.base ≤ a
    → find (es ++ e ∷ fs) a ≡ find (e ∷ fs) a
find-right [] e fs lo a f le = refl
find-right (d ∷ es) e fs lo a (l, p, f) le =
    let (left, below, nonempty, right) = split-left es e fs d.end f in
    let out : within d.base d.end a ≡ false = ground (arith, below) in
    rw out (find-right es e fs d.end a f le)

-- In a tree whose entries are in order and apart, `vm_map_lookup_entry_locked` finds the first entry of the
-- list of its entries that contains the address, and none if no entry does.
pub vm_map_lookup_entry_locked-find :
    (t : Tree) (lo a : ℕ)
    → IsFrom lo (inorder t)
    → vm_map_lookup_entry_locked t a ≡ find (inorder t) a
unfolding vm_map_lookup_entry_locked
vm_map_lookup_entry_locked-find leaf lo a f = refl
vm_map_lookup_entry_locked-find (node l e r) lo a f =
    let (left, below, nonempty, right) = split-left (inorder l) e (inorder r) lo f in
    elim (Bool-cases (ltb a e.base)) [
      | inl k ↦
          rw
            (
              vm_map_lookup_entry_locked,
              k,
              find-left (inorder l) e (inorder r) lo a f (ltb→lt a e.base k),
            )
            (vm_map_lookup_entry_locked-find l lo a left)
      | inr k ↦ elim (Bool-cases (leb e.end a)) [
        | inl q ↦
            let out : within e.base e.end a ≡ false = ground (arith, q) in
            rw
              (
                vm_map_lookup_entry_locked,
                k,
                q,
                find-right (inorder l) e (inorder r) lo a f (ground (arith, k)),
                out,
              )
              (vm_map_lookup_entry_locked-find r e.end a right)
        | inr q ↦
            let is : within e.base e.end a ≡ true = ground (arith, k, q) in
            rw
              (
                vm_map_lookup_entry_locked,
                k,
                q,
                find-right (inorder l) e (inorder r) lo a f (ground (arith, k)),
                is,
              )
              refl
      ]
    ]

first_from-left :
    (es : List Entry) (e : Entry) (fs : List Entry) (a : ℕ) (best : Option Entry)
    → ltb e.base a ≡ false
    → first_from (es ++ e ∷ fs) a best ≡ first_from es a (some e)
first_from-left [] e fs a best k = rw k refl
first_from-left (d ∷ es) e fs a best k = rw (first_from-left es e fs a best k) refl

first_from-right :
    (es : List Entry) (e : Entry) (fs : List Entry) (lo a : ℕ) (best : Option Entry)
    → IsFrom lo (es ++ e ∷ fs)
    → e.base < a
    → first_from (es ++ e ∷ fs) a best ≡ first_from fs a best
first_from-right [] e fs lo a best f lt = let k : ltb e.base a ≡ true = ground arith in rw k refl
first_from-right (d ∷ es) e fs lo a best (l, p, f) lt =
    let (left, below, nonempty, right) = split-left es e fs d.end f in
    let k : ltb d.base a ≡ true = ground (arith, below) in
    rw k (first_from-right es e fs d.end a best f lt)

-- In a tree whose entries are in order and apart, `map_lower_bound` finds the first entry of the list of its
-- entries whose base is not below the address, or what it was given if there is none.
pub map_lower_bound-first_from :
    (t : Tree) (lo a : ℕ) (best : Option Entry)
    → IsFrom lo (inorder t)
    → map_lower_bound t a best ≡ first_from (inorder t) a best
unfolding map_lower_bound
map_lower_bound-first_from leaf lo a best f = refl
map_lower_bound-first_from (node l e r) lo a best f =
    let (left, below, nonempty, right) = split-left (inorder l) e (inorder r) lo f in
    elim (Bool-cases (ltb e.base a)) [
      | inl k ↦
          rw
            (
              map_lower_bound,
              k,
              first_from-right (inorder l) e (inorder r) lo a best f (ltb→lt e.base a k),
            )
            (map_lower_bound-first_from r e.end a best right)
      | inr k ↦
          rw (map_lower_bound, k, first_from-left (inorder l) e (inorder r) a best k)
            (map_lower_bound-first_from l lo a (some e) left)
    ]
