-- ===== src/HashTable/Insert.antt =====
-- kernel/core/hashtable.c: what `ht_set` makes of a valid table, on all its branches.
use yak_kernel.Prelude.{
  ℕ, ◌+◌, ◌*◌, ◌≤◌, ◌<◌, ◌≡◌, refl, ◌∙◌, ap, Bool, true, false, not, ◌&&◌, ◌||◌, Option, none, some,
  arith, length-set, set, ◌==◌, if◌then◌else◌,
}
use yak_kernel.Status.{Status, success, exists, oom}
use yak_kernel.HashTable.{
  Keys, Slot, Table, at, same_key, make_room, ht_set, ht_get, set_entry, set_slot, tomb_value,
}
use yak_kernel.HashTable.Slots.{IsLawful, busy, used-set, holds, holds_key, lookup}
use yak_kernel.HashTable.Invariant.{stored, Placed, IsValid}
use yak_kernel.HashTable.Store.{Placed-hit, lookup-hit, used-hit}
use yak_kernel.HashTable.Update.{make_room-keeps}
use yak_kernel.HashTable.Map.{Found, there, gone, find_entry-Found, is_some, ht_get-lookup}

-- The status that `ht_set` promises, for the value that the key had.
abbrev pub set_status : Bool → Bool → Option ℕ → Status
set_status overwrite copied old =
    if is_some old && not overwrite then exists else if copied then success else oom

-- Whether it promises to store the value.
abbrev pub stores : Bool → Bool → Option ℕ → Bool
stores overwrite copied old = copied && (overwrite || not (is_some old))

empty_busy : {K : Type 0} (e : Slot K) → e.key ≡ none → busy e ≡ (e.value == tomb_value)
unfolding busy
empty_busy e h = rw h refl

module _ {K : Type 0} ⦃keys : Keys K⦄ (law : IsLawful keys) (t : Table K) (v : IsValid t) (key : K)
    (value : ℕ) where
  abbrev pub Sets : Bool → Bool → Option (Status × Table K) → Type 0
  Sets overwrite copied r =
      (t' : Table K) × (r ≡ some (set_status overwrite copied (lookup key t.entries), t'))
      × IsValid t'
      × ((q : K)
          → lookup q t'.entries ≡ (
              if stores overwrite copied (lookup key t.entries) && same_key q key
              then some value
              else lookup q t.entries))

  set_there :
      (overwrite copied : Bool) (i u : ℕ)
      → holds key (at t.entries i) ≡ true
      → lookup key t.entries ≡ some u
      → i < t.capacity
      → Sets overwrite copied (some (set_slot t i key value overwrite copied))
  unfolding set_slot
  set_there false copied i u has is_u lt =
      (t, rw (holds_key law key (at t.entries i) has, is_u) refl, v, λ q. ground (arith, is_u))
  set_there true false i u has is_u lt = (
    t,
    rw (holds_key law key (at t.entries i) has, is_u) refl,
    record { size = v.size; counted = v.counted; load = v.load; placed = v.placed },
    λ q. refl,
  )
  set_there true true i u has is_u lt =
      let es = t.entries in
      (
        record t { entries = set es i (stored key value) },
        rw (holds_key law key (at es i) has, is_u) refl,
        record {
          size = length-set es i (stored key value) ∙ v.size;
          counted =
              omega
                (arith, v.counted, used-hit law es t.capacity v.size v.placed key value i lt has);
          load = v.load;
          placed = Placed-hit law es t.capacity v.size v.placed key value i lt has;
        },
        λ q.
            ground (arith, is_u, lookup-hit law es t.capacity v.size v.placed key value i lt has q),
      )

  -- The count with a key that is new, in the slot of a tombstone or a free one.
  abbrev grown_count : ℕ → ℕ
  grown_count i = if not ((at t.entries i).value == tomb_value) then t.count + 1 else t.count

  set_gone :
      (overwrite copied : Bool) (i : ℕ)
      → (t.count + 1) * 4 ≤ t.capacity * 3
      → (at t.entries i).key ≡ none
      → lookup key t.entries ≡ none
      → i < t.capacity
      → Placed (set t.entries i (stored key value)) t.capacity
      → ((q : K)
          → lookup q (set t.entries i (stored key value))
            ≡ (if same_key q key then some value else lookup q t.entries))
      → Sets overwrite copied (some (set_slot t i key value overwrite copied))
  unfolding set_slot busy
  set_gone overwrite false i room empty no_key lt placed same = (
    record t { count = grown_count i },
    rw (empty, no_key) refl,
    record {
      size = v.size;
      counted = ground (arith, v.counted);
      load = ground (arith, v.load);
      placed = v.placed;
    },
    λ q. refl,
  )
  set_gone overwrite true i room empty no_key lt placed same =
      let es = t.entries in
      (
        record t { count = grown_count i; entries = set es i (stored key value) },
        rw (empty, no_key) refl,
        record {
          size = length-set es i (stored key value) ∙ v.size;
          counted = ground (
            arith,
            v.counted,
            used-set es i (stored key value) (omega (arith, v.size)),
            empty_busy (at es i) empty,
          );
          load = ground (arith, v.load);
          placed = placed;
        },
        λ q. ground (arith, no_key, same q),
      )

  set-Found :
      (overwrite copied : Bool) (i : ℕ)
      → (t.count + 1) * 4 ≤ t.capacity * 3
      → Found law t v key i
      → Sets overwrite copied (some (set_slot t i key value overwrite copied))
  set-Found overwrite copied i room (there u has is_u val lt) =
      set_there overwrite copied i u has is_u lt
  set-Found overwrite copied i room (gone empty no_key lt placed same) =
      set_gone overwrite copied i room empty no_key lt (placed value) (same value)

  set_entry-Sets :
      (overwrite copied : Bool)
      → (t.count + 1) * 4 ≤ t.capacity * 3
      → Sets overwrite copied (set_entry t key value overwrite copied)
  unfolding set_entry
  set_entry-Sets overwrite copied room =
      let (i, is, found) = find_entry-Found law t v key (omega (arith, room)) in
      let (t', is', v', same) = set-Found overwrite copied i room found in
      (t', rw (set_entry, is) is', v', same)

module _ {K : Type 0} ⦃keys : Keys K⦄ (law : IsLawful keys) (t : Table K) (v : IsValid t) (key : K)
    (value : ℕ) where
  set_after :
      (overwrite copied : Bool) (t1 : Table K)
      → make_room t true ≡ some (success, t1)
      → ht_set t key value overwrite true copied ≡ set_entry t1 key value overwrite copied
  unfolding ht_set
  set_after overwrite copied t1 is = rw (ht_set, is) refl

  -- `ht_set` on a valid table, whose comparison is lawful and where the allocation for growing
  -- succeeds, ends with a valid table. It reports a key that is there and not to be overwritten, and a
  -- failed allocation of the copy. Else the key has the new value. Every other key, and on a failure
  -- this one too, is as before.
  pub ht_set-Sets :
      (overwrite copied : Bool)
      → Sets law t v key value overwrite copied (ht_set t key value overwrite true copied)
  ht_set-Sets overwrite copied =
      let (t1, is, v1, room, same) = make_room-keeps law t v in
      let (t2, is2, v2, set2) = set_entry-Sets law t1 v1 key value overwrite copied room in
      (
        t2,
        set_after overwrite copied t1 is
            ∙ is2
            ∙ ap (λ o. some (set_status overwrite copied o, t2)) (same key),
        v2,
        λ q. rw (← same key, ← same q) (set2 q),
      )

  -- After `ht_set` with memory for what it allocates has overwritten or added a key in a valid table
  -- with a lawful comparison, `ht_get` returns the new value for this key, and for every other one what
  -- it returned before.
  pub ht_get-ht_set :
      (t' : Table K) × (ht_set t key value true true true ≡ some (success, t'))
      × ((q : K) → ht_get t' q ≡ (if same_key q key then some value else ht_get t q))
  ht_get-ht_set =
      let (t', is, v', same) = ht_set-Sets true true in
      (
        t',
        ground (arith, is),
        λ q. ht_get-lookup law t' v' q ∙ ground (arith, same q, ht_get-lookup law t v q),
      )
