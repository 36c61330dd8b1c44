-- ===== src/VmMap.antt =====
-- kernel/vm/map.c: address maps. The tree of a map is the list of its entries by their bases; stepping to the
-- next or the previous element moves in the list. `none` is a failed assertion. The map's lock is held for
-- the length of an operation. The page tables are not part of the state.
pub mod View
pub mod Carve
pub mod Unmap
pub mod Tree
pub mod Alloc
pub mod Place
pub mod Range
pub mod Tail
pub mod Protection
pub mod Protect
pub mod Guard
mod Tests
use yak_kernel.Prelude.{
  add_size, ℕ, zero, suc, ◌+◌, ◌-◌, ◌%◌, Bool, true, false, ◌&&◌, ◌||◌, not, List, [], ◌∷◌, ◌++◌,
  Option, none, some, ltb, leb, ◌==◌, if◌then◌else◌, put, add_size, sub_size,
}
use yak_kernel.Status.{Status, success, oom}

-- `vm_prot_t`
pub record Prot : Type 0 where
  pub read : Bool
  pub write : Bool
  pub execute : Bool

pub data EntryType : Type 0 where
  ent_mmio ent_obj ent_reserved : EntryType

pub data Inheritance : Type 0 where
  inherit_none inherit_shared inherit_copy : Inheritance

-- `struct vm_map_entry`. `backing` is the union of `mmio_addr` and `object`; a null pointer is 0.
pub record Entry : Type 0 where
  pub base : ℕ
  pub end : ℕ
  pub type : EntryType
  pub backing : ℕ
  pub offset : ℕ
  pub is_cow : Bool
  pub amap : ℕ
  pub protection : Prot
  pub max_protection : Prot
  pub inheritance : Inheritance
  pub cache : ℕ

-- What the entries share: the reference counts of objects and amaps, and the outcomes of the allocations
-- to come.
pub record Env : Type 0 where
  pub objects : ℕ → ℕ
  pub amaps : ℕ → ℕ
  pub allocs : List Bool

abbrev pub alloc : Env → Bool × Env
alloc v = elim (v.allocs) [ [] ↦ (false, v) | b ∷ rest ↦ (b, record v { allocs = rest }) ]

abbrev pub is_copy : Inheritance → Bool
is_copy inherit_copy = true
is_copy _ = false

abbrev pub is_obj : EntryType → Bool
is_obj ent_obj = true
is_obj _ = false

-- `init_map_entry` on memory that `kzalloc` has cleared.
abbrev pub init_map_entry : ℕ → ℕ → ℕ → Prot → Inheritance → ℕ → EntryType → Entry
init_map_entry offset base end prot inheritance cache type = record {
  base = base;
  end = end;
  type = type;
  backing = 0;
  offset = offset;
  is_cow = is_copy inheritance;
  amap = 0;
  protection = prot;
  max_protection = prot;
  inheritance = inheritance;
  cache = cache;
}

-- A piece of an entry, from `base` to `end`, which is new.
abbrev pub piece : Entry → ℕ → ℕ → ℕ → Entry
piece e offset base end =
    let fresh = init_map_entry offset base end e.protection e.inheritance e.cache e.type in
    record fresh {
      max_protection = e.max_protection;
      backing = if is_obj e.type then e.backing else 0;
      amap = if is_obj e.type then e.amap else 0;
    }

-- `vm_object_ref` and `vm_amap_ref`, where the pointers are not null.
abbrev pub ref_count : (ℕ → ℕ) → ℕ → ℕ → ℕ
ref_count counts p = if p == 0 then counts else put counts p (add_size (counts p) 1)

abbrev pub ref_entry : Entry → Env → Env
ref_entry e v =
    if is_obj e.type
    then record v { objects = ref_count v.objects e.backing; amaps = ref_count v.amaps e.amap }
    else v

abbrev pub deref_count : (ℕ → ℕ) → ℕ → ℕ → ℕ
deref_count counts p = if p == 0 then counts else put counts p (sub_size (counts p) 1)

abbrev pub deref_entry : Entry → Env → Env
deref_entry e v =
    if is_obj e.type
    then record v { objects = deref_count v.objects e.backing; amaps = deref_count v.amaps e.amap }
    else v

-- What `carve_entry` leaves in the map of an entry: the pieces to its left and to its right, and the entry.
pub record Carved : Type 0 where
  pub status : Status
  pub left : List Entry
  pub middle : List Entry
  pub right : List Entry

-- The entry after its left piece is cut off, the map having all to the left.
unfoldable pub carve_right : Entry → List Entry → ℕ → ℕ → Env → Option (Carved × Env)
carve_right e left split_base split_end v =
    if ltb split_end e.end
    then (let (got, v') = alloc v in
        elim got [
          | false ↦ some (record { status = oom; left = left; middle = []; right = [] }, v')
          | true ↦ some (
            record {
              status = success;
              left = left;
              middle = record e { end = split_end } ∷ [];
              right = piece e (e.offset + (split_end - split_base)) split_end e.end ∷ [];
            },
            ref_entry e v',
          )
        ])
    else if e.end == split_end
    then some (record { status = success; left = left; middle = e ∷ []; right = [] }, v)
    else none

unfoldable pub carve_left : Entry → ℕ → ℕ → Env → Option (Carved × Env)
unfolding carve_right
carve_left e split_base split_end v =
    if ltb e.base split_base
    then (let (got, v') = alloc v in
        elim got [
          | false ↦ some (record { status = oom; left = []; middle = []; right = [] }, v')
          | true ↦
              carve_right
                (record e { base = split_base; offset = e.offset + (split_base - e.base) })
                (piece e e.offset e.base split_base ∷ []) split_base split_end (ref_entry e v')
        ])
    else carve_right e [] split_base split_end v

unfoldable pub carve_entry : Entry → ℕ → ℕ → Env → Option (Carved × Env)
unfolding carve_left
carve_entry e split_base split_end v =
    if leb e.base split_base
      && ltb split_base e.end
      && (leb e.base split_end && ltb split_end e.end)
      && (ltb e.base split_base || ltb split_end e.end)
    then carve_left e split_base split_end v
    else none

abbrev pub max_addr : ℕ → ℕ → ℕ
max_addr a b = if ltb b a then a else b

abbrev pub min_addr : ℕ → ℕ → ℕ
min_addr a b = if ltb a b then a else b

abbrev pub Unmapped : Type 0
Unmapped = Option (Status × List Entry × Env)

abbrev pub before : List Entry → Unmapped → Unmapped
before es none = none
before es (some (st, fs, v)) = some (st, es ++ fs, v)

-- The entry is dereferenced and removed: its object must not be null.
abbrev pub drop_entry : Entry → Env → Option Env
drop_entry e v = if is_obj e.type && (e.backing == 0) then none else some (deref_entry e v)

-- The loop of `vm_unmap`, on `current` and the entries behind it. A carved entry is found again by its
-- base, `split_base`.
unfoldable pub unmap_loop : ℕ → ℕ → List Entry → Env → Unmapped
unmap_loop start stop [] v = some (success, [], v)
unmap_loop start stop (e ∷ es) v = elim (ltb e.base stop) [
  | false ↦ some (success, e ∷ es, v)
  | true ↦ elim (leb e.end start || leb stop e.base) [
    | true ↦ before (e ∷ []) (unmap_loop start stop es v)
    | false ↦ elim (e.base == max_addr e.base start && e.end == min_addr e.end stop) [
      | true ↦ elim (drop_entry e v) [ none ↦ none | some v' ↦ unmap_loop start stop es v' ]
      | false ↦ elim (carve_entry e (max_addr e.base start) (min_addr e.end stop) v) [
        | none ↦ none
        | some (c, v') ↦ elim (c.status) [
          | success ↦ elim (drop_entry e v') [
            | none ↦ none
            | some v'' ↦ before (c.left ++ c.right) (unmap_loop start stop es v'')
          ]
          | st ↦ some (st, c.left ++ c.right ++ es, v')
        ]
      ]
    ]
  ]
]

-- The entries before `current`, the last one first, and those from `current` on.
abbrev pub Cut : Type 0
Cut = List Entry × List Entry

-- `map_lower_bound`: from the first entry on whose base is not below the address.
abbrev pub lower_bound : ℕ → List Entry → List Entry → Cut
lower_bound addr passed [] = (passed, [])
lower_bound addr passed (e ∷ es) =
    let rest = lower_bound addr (e ∷ passed) es in
    if ltb e.base addr then rest else (passed, e ∷ es)

-- `RBT_MAX` where there is no such entry.
abbrev pub or_max : Cut → Cut
or_max ([], []) = ([], [])
or_max (e ∷ passed, []) = (passed, e ∷ [])
or_max (passed, e ∷ es) = (passed, e ∷ es)

-- One step back where the previous entry reaches into the range.
abbrev pub or_previous : ℕ → Cut → Cut
or_previous start ([], es) = ([], es)
or_previous start (e ∷ passed, es) = if ltb start e.end then (passed, e ∷ es) else (e ∷ passed, es)

abbrev pub rev_append : List Entry → List Entry → List Entry
rev_append [] es = es
rev_append (e ∷ passed) es = rev_append passed (e ∷ es)

abbrev pub behind : List Entry → Unmapped → Unmapped
behind passed none = none
behind passed (some (st, es, v)) = some (st, rev_append passed es, v)

abbrev pub page_size : ℕ
page_size = 4096

-- `vm_unmap`, with `ALIGN_DOWN` and `ALIGN_UP`. The rounding up and the end of the range wrap at 2 ^ 64.
unfoldable pub vm_unmap : ℕ → ℕ → List Entry → Env → Unmapped
vm_unmap va length es v =
    let start = va - va % page_size in
    let reach = add_size length (page_size - 1) in
    let stop = add_size start (reach - reach % page_size) in
    let (passed, rest) = or_previous start (or_max (lower_bound start [] es)) in
    behind passed (unmap_loop start stop rest v)

-- `vm_check_prot`: writing is allowed by writing, executing also by writing, and reading by any.
abbrev pub vm_check_prot : Prot → Prot → Bool
vm_check_prot max_prot new_prot =
    if new_prot.write && not max_prot.write
    then false
    else if new_prot.execute && not (max_prot.execute || max_prot.write)
    then false
    else if new_prot.read && not (max_prot.read || max_prot.execute || max_prot.write)
    then false
    else true
