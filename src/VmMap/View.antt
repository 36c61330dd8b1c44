-- ===== src/VmMap/View.antt =====
-- What an address map (kernel/vm/map.c) says of an address.
use yak_kernel.Prelude.{
  ℕ, ◌+◌, ◌-◌, ◌≤◌, ◌<◌, ◌≡◌, refl, Bool, true, false, ◌&&◌, ◌==◌, if◌then◌else◌, List, [], ◌∷◌,
  arith, Option, some, none, ltb, leb,
}
use yak_kernel.VmMap.{Entry, is_copy, is_obj}

abbrev pub within : ℕ → ℕ → ℕ → Bool
within lo hi a = leb lo a && ltb a hi

-- The entry cut down to one address: its attributes, and the offset of that address in what backs it.
abbrev pub at_address : Entry → ℕ → Entry
at_address e a = record e { base = a; end = a; offset = e.offset + (a - e.base) }

-- What the map says of an address, if it maps it.
abbrev pub view : List Entry → ℕ → Option Entry
view [] a = none
view (e ∷ es) a = if within e.base e.end a then some (at_address e a) else view es a

-- The entries have addresses, in order, and do not overlap; none lies below `lo`.
abbrev pub IsFrom : ℕ → List Entry → Type 0
IsFrom lo [] = Unit {0}
IsFrom lo (e ∷ es) = (lo ≤ e.base) × (e.base < e.end) × IsFrom e.end es

-- The entries are as the operations of the map make them: copy-on-write exactly as they are inherited. An
-- entry without an object has no amap, and entries of device memory are left out.
abbrev pub IsPlain : Entry → Type 0
IsPlain e =
    (e.is_cow ≡ is_copy e.inheritance)
    × (is_obj e.type ≡ false → (e.backing ≡ 0) × (e.amap ≡ 0))
    × (is_obj e.type ≡ true → (e.backing == 0) ≡ false)

abbrev pub AllPlain : List Entry → Type 0
AllPlain [] = Unit {0}
AllPlain (e ∷ es) = IsPlain e × AllPlain es

-- Below the first entry nothing is mapped.
pub view-below : (es : List Entry) (lo a : ℕ) → IsFrom lo es → a < lo → view es a ≡ none
view-below [] lo a f lt = refl
view-below (e ∷ es) lo a (le, p, f) lt =
    let out : within e.base e.end a ≡ false = ground arith in
    rw out (view-below es e.end a f (omega arith))

pub weaken-IsFrom : (es : List Entry) (lo hi : ℕ) → hi ≤ lo → IsFrom lo es → IsFrom hi es
weaken-IsFrom [] lo hi le f = tt
weaken-IsFrom (e ∷ es) lo hi le (l, p, f) = (omega arith, p, f)
