-- ===== src/Pmm/Zones.antt =====
-- The zones and the regions of kernel/vm/pmm.c: their tables, and the entry points that look a zone up.
-- The lists are `SLIST`s; `p2v` and the memory behind a region descriptor are not part of the state.
use yak_kernel.Prelude.{
  ℕ, ◌+◌, ◌-◌, ◌/◌, ◌^◌, ◌≤◌, ◌<◌, ◌≡◌, refl, inl, inr, Bool-cases, Bool, true, false, ◌&&◌, List,
  [], ◌∷◌, Option, none, some, arith, ltb, leb, ◌==◌, if◌then◌else◌,
}
use yak_kernel.Pmm.{Zone, Memory, zone_alloc}

abbrev pub page_shift : ℕ
page_shift = 12

abbrev pub max_zones : ℕ
max_zones = 8

-- `struct region`, without its pages.
pub record Region : Type 0 where
  pub base : ℕ
  pub end : ℕ

-- `lookup_region`: the end is compared with `<=`.
abbrev pub lookup_region : ℕ → List Region → Option Region
lookup_region addr [] = none
lookup_region addr (region ∷ regions) =
    if leb region.base addr && leb addr region.end then some region else lookup_region addr regions

-- The page is its region and its index in `pages`.
abbrev pub pmm_lookup_page : ℕ → List Region → Option (Region × ℕ)
pmm_lookup_page addr regions = elim (lookup_region addr regions) [
  | none ↦ none
  | some region ↦ some (region, addr / 2 ^ page_shift - region.base / 2 ^ page_shift)
]

-- The loop over `region_list`, and the insertions.
abbrev pub insert_region : Region → List Region → List Region
insert_region desc [] = desc ∷ []
insert_region desc (ent ∷ ents) =
    if ltb desc.base ent.base then desc ∷ ent ∷ ents else ent ∷ insert_region desc ents

abbrev pub new_zone : ℕ → Bool → ℕ → ℕ → Zone
new_zone zone_id may_alloc base end = record {
  zone_id = zone_id;
  max_zone_order = 0;
  base = base;
  end = end;
  may_alloc = may_alloc;
  orders = λ o. [];
  npages = λ o. 0;
}

-- The loop over `zone_list`, up to the first entry with a larger base, and the insertions.
abbrev pub insert_zone : Zone → List Zone → List Zone
insert_zone zone [] = zone ∷ []
insert_zone zone (ent ∷ ents) =
    if ltb zone.base ent.base then zone ∷ ent ∷ ents else ent ∷ insert_zone zone ents

-- With `pos` the value of `static_zones_pos`; `none` is the panic.
abbrev pub pmm_zone_init : ℕ → Bool → ℕ → ℕ → ℕ → List Zone → Option (ℕ × List Zone)
pmm_zone_init zone_id may_alloc base end pos zones =
    if leb max_zones pos
    then none
    else some (pos + 1, insert_zone (new_zone zone_id may_alloc base end) zones)

abbrev pub lookup_zone : ℕ → List Zone → Option Zone
lookup_zone addr [] = none
lookup_zone addr (ent ∷ ents) =
    if leb ent.base addr && ltb addr ent.end then some ent else lookup_zone addr ents

abbrev pub lookup_zone_by_id : ℕ → List Zone → Option Zone
lookup_zone_by_id zone_id [] = none
lookup_zone_by_id zone_id (ent ∷ ents) =
    if ent.zone_id == zone_id then some ent else lookup_zone_by_id zone_id ents

-- The loop of `pmm_alloc_order`: the first zone that may be used and has a block. The zones come back
-- with it.
unfoldable pub pmm_alloc_order : ℕ → List Zone → Memory → Option (Option ℕ × List Zone × Memory)
pmm_alloc_order order [] mem = some (none, [], mem)
pmm_alloc_order order (zone ∷ zones) mem =
    let rest : Memory → Zone → Option (Option ℕ × List Zone × Memory) = λ m z.
      elim (pmm_alloc_order order zones m) [
        | none ↦ none
        | some (found, zs, m') ↦ some (found, z ∷ zs, m')
      ] in
    elim zone.may_alloc [
      | false ↦ rest mem zone
      | true ↦ elim (zone_alloc order zone mem) [
        | none ↦ none
        | some (none, z, m) ↦ rest m z
        | some (some page, z, m) ↦ some (some page, z ∷ zones, m)
      ]
    ]

-- The base addresses do not go down along the list, and none is below `low`.
abbrev pub IsSortedFrom : ℕ → List Zone → Type 0
IsSortedFrom low [] = Unit {0}
IsSortedFrom low (zone ∷ zones) = (low ≤ zone.base) × IsSortedFrom zone.base zones

insert_zone-IsSortedFrom :
    (zone : Zone) (zones : List Zone) (low : ℕ)
    → low ≤ zone.base
    → IsSortedFrom low zones
    → IsSortedFrom low (insert_zone zone zones)
insert_zone-IsSortedFrom zone [] low le s = (le, tt)
insert_zone-IsSortedFrom zone (ent ∷ ents) low le s = elim (Bool-cases (ltb zone.base ent.base)) [
  | inl e ↦ rw e (le, (ltb-le zone.base ent.base e, s.1))
  | inr e ↦ rw e (s.0, insert_zone-IsSortedFrom zone ents ent.base (ground arith) s.1)
]
  where
    ltb-le : (a b : ℕ) → ltb a b ≡ true → a ≤ b
    ltb-le a b e = ground arith

-- `pmm_zone_init` keeps the zones sorted by their base addresses, and panics only for the ninth zone.
pub pmm_zone_init-IsSortedFrom :
    (zone_id : ℕ) (may_alloc : Bool) (base end pos : ℕ) (zones : List Zone)
    → pos < max_zones
    → IsSortedFrom 0 zones
    → (zones' : List Zone) × (pmm_zone_init zone_id may_alloc base end pos zones
        ≡ some (pos + 1, zones'))
      × IsSortedFrom 0 zones'
pmm_zone_init-IsSortedFrom zone_id may_alloc base end pos zones lt s =
    let room : leb max_zones pos ≡ false = ground arith in
    (
      insert_zone (new_zone zone_id may_alloc base end) zones,
      rw room refl,
      insert_zone-IsSortedFrom (new_zone zone_id may_alloc base end) zones 0 (omega arith) s,
    )

-- Where one region ends at the address at which the next begins, `lookup_region` finds the first one for
-- that address, and `pmm_lookup_page` the index behind the end of its pages.
pub pmm_lookup_page-adjacent :
    (first second : Region) (regions : List Region)
    → first.base ≤ first.end
    → second.base ≡ first.end
    → pmm_lookup_page second.base (first ∷ second ∷ regions)
      ≡ some (first, second.base / 2 ^ page_shift - first.base / 2 ^ page_shift)
pmm_lookup_page-adjacent first second regions le e =
    let low : leb first.base second.base ≡ true = ground arith in
    let high : leb second.base first.end ≡ true = ground arith in
    rw (pmm_lookup_page, lookup_region, low, high)
