-- ===== src/VmMap/Carve.antt =====
-- `carve_entry` (kernel/vm/map.c): the pieces it leaves.
use yak_kernel.Prelude.{
  ℕ, ◌+◌, ◌-◌, ◌≤◌, ◌<◌, ◌≡◌, refl, ap, ◌∙◌, Bool, true, false, ◌&&◌, ◌||◌, List, [], ◌∷◌, arith,
  inl, inr, Bool-cases, some, ltb, leb,
}
use yak_kernel.Status.{success}
use yak_kernel.VmMap.{
  Entry, Env, Carved, is_obj, piece, carve_entry, carve_left, carve_right, ref_entry, alloc,
}
use yak_kernel.VmMap.View.{at_address, IsPlain}

-- A piece says of an address what the entry says.
pub at_address-piece :
    (e : Entry) (offset lo hi a : ℕ)
    → IsPlain e
    → offset + (a - lo) ≡ e.offset + (a - e.base)
    → at_address (piece e offset lo hi) a ≡ at_address e a
at_address-piece e offset lo hi a (cow, other, obj) same = elim (Bool-cases (is_obj e.type)) [
  | inl is ↦ rw (cow, is, same) refl
  | inr is_not ↦
      let (no_backing, no_amap) = other is_not in rw (cow, is_not, same, no_backing, no_amap) refl
]

-- The right piece of an entry carved from `lo` on.
abbrev pub right_piece : Entry → ℕ → ℕ → Entry
right_piece e lo hi = piece e (e.offset + (lo - e.base) + (hi - lo)) hi e.end

ref_entry-allocs : (e : Entry) (v : Env) → (ref_entry e v).allocs ≡ v.allocs
ref_entry-allocs e v = elim (Bool-cases (is_obj e.type)) [
  | inl is ↦ rw is refl
  | inr is_not ↦ rw is_not refl
]

-- What is left of the carving behind the left piece.
abbrev pub cut_right : Entry → List Entry → ℕ → ℕ → Carved
cut_right e left lo hi = record {
  status = success;
  left = left;
  middle = record e { end = hi } ∷ [];
  right = piece e (e.offset + (hi - lo)) hi e.end ∷ [];
}

carve_right-cuts :
    (e : Entry) (left : List Entry) (lo hi : ℕ) (v : Env) (rest : List Bool)
    → v.allocs ≡ true ∷ rest
    → hi < e.end
    → (v' : Env) × (carve_right e left lo hi v ≡ some (cut_right e left lo hi, v'))
unfolding carve_right
carve_right-cuts e left lo hi v rest enough lt =
    let h : ltb hi e.end ≡ true = ground arith in rw (carve_right, h, enough) (_, refl)

-- An entry carved at both ends.
abbrev pub carved_both : Entry → ℕ → ℕ → Carved
carved_both e lo hi =
    cut_right (record e { base = lo; offset = e.offset + (lo - e.base) })
      (piece e e.offset e.base lo ∷ []) lo hi

alloc-got :
    (v : Env) (b : Bool) (rest : List Bool)
    → v.allocs ≡ b ∷ rest
    → alloc v ≡ (b, record v { allocs = rest })
alloc-got v b rest e = rw e refl

carve_left-cuts :
    (e : Entry) (lo hi : ℕ) (v : Env) (rest : List Bool)
    → v.allocs ≡ true ∷ true ∷ rest
    → e.base < lo
    → hi < e.end
    → (v' : Env) × (carve_left e lo hi v ≡ some (carved_both e lo hi, v'))
unfolding carve_left
carve_left-cuts e lo hi v rest enough below lt =
    let l : ltb e.base lo ≡ true = ground arith in
    let got = alloc-got v true (true ∷ rest) enough in
    let given : (alloc v).0 ≡ true = ap (λ g. g.0) got in
    let (v', at) =
      carve_right-cuts (record e { base = lo; offset = e.offset + (lo - e.base) })
        (piece e e.offset e.base lo ∷ []) lo hi (ref_entry e (alloc v).1) rest
        (ref_entry-allocs e (alloc v).1 ∙ ap (λ g. g.1.allocs) got) lt in
    (v', rw (carve_left, l, given) at)

pub carve_entry-both :
    (e : Entry) (lo hi : ℕ) (v : Env) (rest : List Bool)
    → v.allocs ≡ true ∷ true ∷ rest
    → e.base < lo
    → lo ≤ hi
    → hi < e.end
    → (v' : Env) × (carve_entry e lo hi v ≡ some (carved_both e lo hi, v'))
unfolding carve_entry
carve_entry-both e lo hi v rest enough p q r =
    let (v', at) = carve_left-cuts e lo hi v rest enough p r in (v', rw (carve_entry, guards) at)
  where
    guards :
        (leb e.base lo
          && ltb lo e.end
          && (leb e.base hi && ltb hi e.end)
          && (ltb e.base lo || ltb hi e.end))
        ≡ true
    guards = ground arith

-- Carved at its end alone.
pub carve_entry-end :
    (e : Entry) (lo hi : ℕ) (v : Env) (rest : List Bool)
    → v.allocs ≡ true ∷ rest
    → e.base ≡ lo
    → lo ≤ hi
    → hi < e.end
    → (v' : Env) × (carve_entry e lo hi v ≡ some (cut_right e [] lo hi, v'))
unfolding carve_entry carve_left
carve_entry-end e lo hi v rest enough p q r =
    let (v', at) = carve_right-cuts e [] lo hi v rest enough r in
    (v', rw (carve_entry, guards, carve_left, l) at)
  where
    l : ltb e.base lo ≡ false
    l = ground arith

    guards :
        (leb e.base lo
          && ltb lo e.end
          && (leb e.base hi && ltb hi e.end)
          && (ltb e.base lo || ltb hi e.end))
        ≡ true
    guards = ground arith
