-- ===== src/HashTable/Map.antt =====
-- kernel/core/hashtable.c: the operations of a valid table on the keys and values that it keeps.
use yak_kernel.Prelude.{
  ℕ, ◌<◌, ◌≡◌, refl, ◌∙◌, ap, Bool, true, false, Option, none, some, arith, length-set, set, ◌==◌,
  inl, inr, if◌then◌else◌, Bool-cases,
}
use yak_kernel.HashTable.{Keys, Table, at, find_entry, same_key, ht_init, tombstone, ht_get, ht_del}
use yak_kernel.HashTable.Slots.{
  IsLawful, used, holds, lookup, lookup_unused, holds_key, lookup-first, lookup-absent,
}
use yak_kernel.HashTable.Invariant.{stored, Placed, Placed-unique, absent, IsValid}
use yak_kernel.HashTable.Probe.{hit, vacant, Answers-lt, find_entry-Answers}
use yak_kernel.HashTable.Store.{Placed-vacant, lookup-vacant}
use yak_kernel.HashTable.Erase.{Placed-erased, lookup-erased, used-erased}

abbrev pub or_null : Option ℕ → ℕ
or_null none = 0
or_null (some v) = v

abbrev pub is_some : Option ℕ → Bool
is_some none = false
is_some (some v) = true

pub ht_init-IsValid : {K : Type 0} ⦃keys : Keys K⦄ → IsValid (ht_init K)
unfolding ht_init used
ht_init-IsValid = record {
  size = refl;
  counted = omega arith;
  load = omega arith;
  placed = λ k d lt. absurd (omega arith);
}

module _ {K : Type 0} ⦃keys : Keys K⦄ (law : IsLawful keys) (t : Table K) (v : IsValid t)
    (key : K) where
  -- What `find_entry` returns on a valid table with slots: the slot of the key, with its value, or a slot
  -- where the key can be stored.
  pub data Found (i : ℕ) : Type 0 where
    there :
        (u : ℕ)
        → holds key (at t.entries i) ≡ true
        → lookup key t.entries ≡ some u
        → (at t.entries i).value ≡ u
        → i < t.capacity
        → Found i
    gone :
        (at t.entries i).key ≡ none
        → lookup key t.entries ≡ none
        → i < t.capacity
        → ((x : ℕ) → Placed (set t.entries i (stored key x)) t.capacity)
        → ((x : ℕ) (q : K)
            → lookup q (set t.entries i (stored key x))
              ≡ (if same_key q key then some x else lookup q t.entries))
        → Found i

  pub find_entry-Found :
      0 < t.capacity → (i : ℕ) × (find_entry t.entries t.capacity key ≡ some i) × Found i
  find_entry-Found pos =
      let es = t.entries in
      let cap = t.capacity in
      let (i, D, is, D_in, before, ans) =
        find_entry-Answers es cap key v.size (omega (arith, v.counted, v.load)) in
      let lt : i < cap = Answers-lt es cap key pos ans in
      (
        i,
        is,
        elim ans [
          | hit has at_D ↦
              there ((at es i).value) has
                (lookup-first key es i (omega (arith, v.size)) has
                  (λ j l. grind (arith, Placed-unique es cap v.size v.placed key j i)))
                refl lt
          | vacant e le at_e empty free ↦
              gone empty
                (lookup-absent key es (absent es cap v.size v.placed key D D_in before free)) lt
                (λ x.
                  Placed-vacant law es cap v.size v.placed key x i lt D e D_in before le at_e empty
                    free)
                (λ x.
                  lookup-vacant law es cap v.size v.placed key x i lt D e D_in before le at_e empty
                    free)
        ],
      )

  get-Found :
      (i : ℕ)
      → find_entry t.entries t.capacity key ≡ some i
      → Found i
      → (t.count == 0) ≡ false
      → ht_get t key ≡ some (or_null (lookup key t.entries))
  unfolding ht_get
  get-Found i is (there u has is_u value lt) some_yet =
      rw (some_yet, is, holds_key law key (at t.entries i) has, value, is_u) refl
  get-Found i is (gone empty no_key lt _ _) some_yet = rw (some_yet, is, empty, no_key) refl

  -- `ht_get` on a valid table returns the value that is kept for the key, and NULL if there is none.
  pub ht_get-lookup : ht_get t key ≡ some (or_null (lookup key t.entries))
  unfolding ht_get
  ht_get-lookup = elim (Bool-cases (t.count == 0)) [
    | inl none_yet ↦ rw (none_yet, lookup_unused key t.entries (ground (arith, v.counted))) refl
    | inr some_yet ↦
        let (i, is, found) = find_entry-Found (ground (arith, v.load)) in
        get-Found i is found some_yet
  ]

  -- What `ht_del` comes to.
  abbrev pub Deletes : Type 0
  Deletes =
      (t' : Table K) × (ht_del t key ≡ some (is_some (lookup key t.entries), t'))
      × IsValid t'
      × ((q : K) → lookup q t'.entries ≡ (if same_key q key then none else lookup q t.entries))

  gone_already :
      lookup key t.entries ≡ none
      → (q : K) → lookup q t.entries ≡ (if same_key q key then none else lookup q t.entries)
  gone_already no_key q =
      grind (arith, law q key, λ (e : q ≡ key). ap (λ k. lookup k t.entries) e ∙ no_key)

  del_found :
      (i : ℕ)
      → find_entry t.entries t.capacity key ≡ some i
      → Found i
      → (t.count == 0) ≡ false
      → Deletes
  unfolding ht_del
  del_found i is (gone empty no_key lt _ _) some_yet =
      (t, rw (some_yet, is, empty, no_key) refl, v, gone_already no_key)
  del_found i is (there u has is_u value lt) some_yet =
      let es = t.entries in
      (
        record t { entries = set es i tombstone },
        rw (some_yet, is, holds_key law key (at es i) has, is_u) refl,
        record {
          size = length-set es i tombstone ∙ v.size;
          counted =
              omega (arith, v.counted, used-erased law es t.capacity v.size v.placed key i lt has);
          load = v.load;
          placed = Placed-erased law es t.capacity v.size v.placed key i lt has;
        },
        lookup-erased law es t.capacity v.size v.placed key i lt has,
      )

  -- `ht_del` on a valid table with a lawful comparison says whether the key was there, and leaves a
  -- valid table without the key and with every other key as it was.
  pub ht_del-Deletes : Deletes
  unfolding ht_del
  ht_del-Deletes = elim (Bool-cases (t.count == 0)) [
    | inl none_yet ↦
        let no_key : lookup key t.entries ≡ none =
          lookup_unused key t.entries (ground (arith, v.counted)) in
        (t, rw (none_yet, no_key) refl, v, gone_already no_key)
    | inr some_yet ↦
        let (i, is, found) = find_entry-Found (ground (arith, v.load)) in
        del_found i is found some_yet
  ]
