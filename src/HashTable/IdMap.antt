-- ===== src/HashTable/IdMap.antt =====
-- kernel/core/process.c: the maps of process, session and group ids, which are hash tables of pointers. The
-- key is the id, as many bytes as `pid_t` has, so that all keys are as long. The map's lock is held
-- throughout each operation. `none` is a failed assertion.
use yak_kernel.Prelude.{
  ℕ, ◌≡◌, ◌∙◌, refl, Bool, true, false, Option, none, some, arith, ◌==◌, if◌then◌else◌,
}
use yak_kernel.Status.{Status, success, noent, is_err}
use yak_kernel.HashTable.{Keys, Table, same_key, ht_init, ht_set, ht_get, ht_del}
use yak_kernel.HashTable.Slots.{IsLawful, lookup}
use yak_kernel.HashTable.Invariant.{IsValid}
use yak_kernel.HashTable.Map.{ht_get-lookup, ht_del-Deletes}
use yak_kernel.HashTable.Insert.{ht_set-Sets}

-- `hash_id` and `eq_id`
instance abbrev pub id_keys : Keys ℕ
id_keys = record { hash = λ id. id; key_len = λ id. 8; eq = λ a b. a == b }

pub id_map_init : Table ℕ
id_map_init = ht_init ℕ

-- `EXPECT` asserts that the status is no error.
pub id_map_push : Table ℕ → ℕ → ℕ → Bool → Bool → Option (Status × Table ℕ)
id_map_push t id p grown copied = elim (ht_set t id p false grown copied) [
  | none ↦ none
  | some r ↦ if is_err r.0 then none else some (success, r.1)
]

pub id_map_remove : Table ℕ → ℕ → Option (Status × Table ℕ)
id_map_remove t id = elim (ht_del t id) [ none ↦ none | some r ↦ some (noent, r.1) ]

pub id_map_find : Table ℕ → ℕ → Option ℕ
id_map_find t id = ht_get t id

pub id_keys-IsLawful : IsLawful id_keys
unfolding same_key
id_keys-IsLawful a b = ground arith

same_id : (a b : ℕ) → same_key a b ≡ (a == b)
unfolding same_key
same_id a b = ground arith

module _ (t : Table ℕ) (v : IsValid t) (id : ℕ) where
  -- Pushing an id that a valid map does not have, with memory, succeeds: the map finds the pointer under this
  -- id from then on, and under every other id what it found before.
  pub id_map_push-finds :
      (p : ℕ)
      → lookup id t.entries ≡ none
      → (t' : Table ℕ) × (id_map_push t id p true true ≡ some (success, t'))
        × IsValid t'
        × ((q : ℕ) → id_map_find t' q ≡ (if q == id then some p else id_map_find t q))
  unfolding id_map_push id_map_find
  id_map_push-finds p no_id =
      let (t', is, v', same) = ht_set-Sets id_keys-IsLawful t v id p false true in
      (
        t',
        rw (id_map_push, is, no_id) refl,
        v',
        λ q.
            ht_get-lookup id_keys-IsLawful t' v' q
            ∙ ground (arith, no_id, same q, same_id q id, ht_get-lookup id_keys-IsLawful t v q),
      )

  -- Pushing an id that a valid map has stops the kernel.
  pub id_map_push-panics :
      (p old : ℕ) (copied : Bool)
      → lookup id t.entries ≡ some old
      → id_map_push t id p true copied ≡ none
  unfolding id_map_push
  id_map_push-panics p old copied has =
      let (t', is, _, _) = ht_set-Sets id_keys-IsLawful t v id p false copied in
      rw (id_map_push, is, has) refl

  -- After a removal the map finds nothing under the id, and under every other id what it found before.
  pub id_map_remove-forgets :
      (t' : Table ℕ) × (id_map_remove t id ≡ some (noent, t'))
      × IsValid t'
      × ((q : ℕ) → id_map_find t' q ≡ (if q == id then some 0 else id_map_find t q))
  unfolding id_map_remove id_map_find
  id_map_remove-forgets =
      let (t', is, v', same) = ht_del-Deletes id_keys-IsLawful t v id in
      (
        t',
        rw (id_map_remove, is) refl,
        v',
        λ q.
            ht_get-lookup id_keys-IsLawful t' v' q
            ∙ ground (arith, same q, same_id q id, ht_get-lookup id_keys-IsLawful t v q),
      )
