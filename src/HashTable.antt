-- ===== src/HashTable.antt =====
-- kernel/core/hashtable.c with kernel/include/yak/hashtable.h: the hash table with open addressing and
-- linear probing. A key is a value of a type with its hash, its length and the comparison, which the
-- table's two function pointers give: `Keys`. The slots are a list, `none` as a slot's key is NULL,
-- and a slot's `key_len` is its key's length. Values are addresses. An allocation's outcome is an argument.
-- The capacity is below 2 ^ 31, so that `int capacity` holds it and no sum wraps. `none` as a result is a
-- search that never ends.
pub mod Slots
pub mod Probe
pub mod Invariant
pub mod Store
pub mod Erase
pub mod Resize
pub mod Update
pub mod Map
pub mod Insert
pub mod Reach
pub mod Str
pub mod IdMap
mod Tests
use yak_kernel.Prelude.{
  ℕ, zero, suc, ◌+◌, ◌*◌, ◌%◌, Bool, true, false, not, ◌&&◌, List, [], ◌∷◌, Option, none, some,
  get_or, set, replicate, ltb, ◌==◌, if◌then◌else◌,
}
use yak_kernel.Status.{Status, success, exists, oom, is_err}

pub record Keys (K : Type 0) : Type 0 where
  pub hash : K → ℕ
  pub key_len : K → ℕ
  pub eq : K → K → Bool

-- `struct ht_entry`
pub record Slot (K : Type 0) : Type 0 where
  pub key : Option K
  pub value : ℕ

-- `hashtable_t`
pub record Table (K : Type 0) : Type 0 where
  pub count : ℕ
  pub capacity : ℕ
  pub entries : List (Slot K)

abbrev pub tomb_value : ℕ
tomb_value = 1

-- What `kzalloc` leaves in a slot.
abbrev pub zeroed : {K : Type 0} → Slot K
zeroed = record { key = none; value = 0 }

abbrev pub tombstone : {K : Type 0} → Slot K
tombstone = record { key = none; value = tomb_value }

abbrev pub at : {K : Type 0} → List (Slot K) → ℕ → Slot K
at es i = get_or es i zeroed

pub ht_init : (K : Type 0) → Table K
ht_init K = record { count = 0; capacity = 0; entries = [] }

-- The table is reset as by `ht_init`; what is freed is left out.
pub ht_destroy : {K : Type 0} → Table K → Table K
ht_destroy {K} t = ht_init K

-- `tombstone != NULL ? tombstone : entry`
pub chosen : Option ℕ → ℕ → ℕ
chosen none index = index
chosen (some t) index = t

-- The first tombstone that a search has met.
pub first_tomb : {K : Type 0} → Slot K → ℕ → Option ℕ → Option ℕ
first_tomb e index (some t) = some t
first_tomb e index none = elim e.key [
  | none ↦ if e.value == tomb_value then some index else none
  | some k ↦ none
]

pub new_capacity : ℕ → ℕ
new_capacity capacity = if capacity == 0 then 16 else capacity * 2

module _ {K : Type 0} ⦃keys : Keys K⦄ where
  pub same_key : K → K → Bool
  same_key a b = (keys.key_len a == keys.key_len b) && keys.eq a b

  -- Whether the loop of `find_entry` returns at a slot.
  pub stops : K → Slot K → Bool
  stops key e = elim e.key [ none ↦ not (e.value == tomb_value) | some k ↦ same_key key k ]

  -- The slot that `find_entry` returns where it stops.
  pub answer : Slot K → ℕ → Option ℕ → ℕ
  answer e index tomb = elim e.key [ none ↦ chosen tomb index | some k ↦ index ]

  pub find_loop : ℕ → List (Slot K) → ℕ → K → ℕ → Option ℕ → Option ℕ
  find_loop zero es cap key index tomb = none
  find_loop (suc fuel) es cap key index tomb =
      let e = at es index in
      let rest = find_loop fuel es cap key ((index + 1) % cap) (first_tomb e index tomb) in
      if stops key e then some (answer e index tomb) else rest

  -- A search that has passed every slot starts over, and never ends.
  pub find_entry : List (Slot K) → ℕ → K → Option ℕ
  find_entry es cap key = find_loop cap es cap key (keys.hash key % cap) none

  -- The loop of `ht_resize` over the old entries.
  pub move_entries : List (Slot K) → ℕ → List (Slot K) → ℕ → Option (List (Slot K) × ℕ)
  move_entries [] cap fresh count = some (fresh, count)
  move_entries (e ∷ es) cap fresh count = elim e.key [
    | none ↦ move_entries es cap fresh count
    | some k ↦ elim (find_entry fresh cap k) [
      | none ↦ none
      | some i ↦ move_entries es cap (set fresh i e) (count + 1)
    ]
  ]

  pub ht_resize : Table K → ℕ → Bool → Option (Status × Table K)
  ht_resize t new_cap memory =
      let moved : Option (Status × Table K) =
        elim (move_entries t.entries new_cap (replicate new_cap zeroed) 0) [
          | none ↦ none
          | some r ↦ some (success, record { count = r.1; capacity = new_cap; entries = r.0 })
        ] in
      if memory then moved else some (oom, t)

  -- The end of `ht_set`, from the slot that `find_entry` returned.
  pub set_slot : Table K → ℕ → K → ℕ → Bool → Bool → Status × Table K
  set_slot t i key value overwrite memory =
      let e = at t.entries i in
      let new_key : Bool = elim e.key [ none ↦ true | some k ↦ false ] in
      let count = if new_key && not (e.value == tomb_value) then t.count + 1 else t.count in
      let stored : Slot K = record { key = some key; value = value } in
      if not new_key && not overwrite
      then (exists, t)
      else if memory
      then (success, record t { count = count; entries = set t.entries i stored })
      else (oom, record t { count = count })

  pub set_entry : Table K → K → ℕ → Bool → Bool → Option (Status × Table K)
  set_entry t key value overwrite memory = elim (find_entry t.entries t.capacity key) [
    | none ↦ none
    | some i ↦ some (set_slot t i key value overwrite memory)
  ]

  -- The first test of `ht_set`: `grown` is the outcome of the allocation of `ht_resize`.
  pub make_room : Table K → Bool → Option (Status × Table K)
  make_room t grown =
      let bigger = ht_resize t (new_capacity t.capacity) grown in
      if ltb (t.capacity * 3) ((t.count + 1) * 4) then bigger else some (success, t)

  pub ht_set : Table K → K → ℕ → Bool → Bool → Bool → Option (Status × Table K)
  ht_set t key value overwrite grown copied = elim (make_room t grown) [
    | none ↦ none
    | some r ↦ if is_err r.0 then some r else set_entry r.1 key value overwrite copied
  ]

  -- 0 is NULL.
  pub ht_get : Table K → K → Option ℕ
  ht_get t key =
      let found : Option ℕ = elim (find_entry t.entries t.capacity key) [
        | none ↦ none
        | some i ↦ elim ((at t.entries i).key) [
          | none ↦ some 0
          | some k ↦ some ((at t.entries i).value)
        ]
      ] in
      if t.count == 0 then some 0 else found

  pub ht_del : Table K → K → Option (Bool × Table K)
  ht_del t key =
      let deleted : Option (Bool × Table K) = elim (find_entry t.entries t.capacity key) [
        | none ↦ none
        | some i ↦ elim ((at t.entries i).key) [
          | none ↦ some (false, t)
          | some k ↦ some (true, record t { entries = set t.entries i tombstone })
        ]
      ] in
      if t.count == 0 then some (false, t) else deleted
