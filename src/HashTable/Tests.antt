-- ===== src/HashTable/Tests.antt =====
-- Runs of the hash table of kernel/core/hashtable.c with ids as keys, and the theorems at them.
use yak_kernel.Prelude.{
  ℕ, ◌≡◌, ◌<◌, ◌^◌, ◌==◌, if◌then◌else◌, refl, true, false, none, some, arith, [], ◌∷◌, replicate,
  set,
}
use yak_kernel.Status.{success}
use yak_kernel.HashTable.{
  Table, at, zeroed, ht_init, ht_set, ht_get, make_room, ht_resize, move_entries, set_entry,
  set_slot, find_entry, find_loop, new_capacity, stops, same_key, first_tomb, answer, chosen,
}
use yak_kernel.HashTable.Slots.{lookup, holds, used, busy}
use yak_kernel.HashTable.Invariant.{stored, IsValid}
use yak_kernel.HashTable.Probe.{probe, Answers, find_entry-Answers}
use yak_kernel.HashTable.Map.{Deletes, ht_del-Deletes}
use yak_kernel.HashTable.Insert.{Sets, ht_set-Sets, ht_get-ht_set}
use yak_kernel.HashTable.IdMap.{
  id_keys, id_keys-IsLawful, id_map_push, id_map_find, id_map_push-finds,
}
use yak_kernel.HashTable.Str.{ht_hash_str}
use yak_kernel.HashTable.Reach.{Reached, fresh, after_set, Reached-IsValid, Reached-fits}

-- 3 and 19 share the slot 3.
abbrev one_id : Table ℕ
one_id = record { count = 1; capacity = 16; entries = set (replicate 16 zeroed) 3 (stored 3 70) }

abbrev two_ids : Table ℕ
two_ids = record {
  count = 2;
  capacity = 16;
  entries = set (set (replicate 16 zeroed) 3 (stored 3 70)) 4 (stored 19 80);
}

first_set : ht_set (ht_init ℕ) 3 70 true true true ≡ some (success, one_id)
unfolding ht_set ht_init make_room ht_resize move_entries set_entry set_slot find_entry find_loop
    new_capacity stops same_key first_tomb answer chosen
first_set = refl

second_set : ht_set one_id 19 80 true true true ≡ some (success, two_ids)
unfolding ht_set ht_init make_room ht_resize move_entries set_entry set_slot find_entry find_loop
    new_capacity stops same_key first_tomb answer chosen
second_set = refl

two_ids-Reached : Reached 2 two_ids
two_ids-Reached =
    after_set 1 one_id two_ids 19 80 true true true success
      (after_set 0 (ht_init ℕ) one_id 3 70 true true true success fresh first_set) second_set

found_behind : ht_get two_ids 19 ≡ some 80
unfolding ht_get find_entry find_loop stops same_key first_tomb answer chosen
found_behind = refl

hash_a : ht_hash_str (97 ∷ []) ≡ 0xaf63dc4c8601ec8c
unfolding ht_hash_str
hash_a = refl

two_ids-IsValid : IsValid two_ids
two_ids-IsValid = Reached-IsValid id_keys-IsLawful two_ids-Reached

no_five : lookup 5 two_ids.entries ≡ none
unfolding lookup holds same_key
no_five = refl

ht_get-ht_set_example :
    (t' : Table ℕ) × (ht_set two_ids 19 81 true true true ≡ some (success, t'))
    × ((q : ℕ) → ht_get t' q ≡ (if same_key q 19 then some 81 else ht_get two_ids q))
ht_get-ht_set_example = ht_get-ht_set id_keys-IsLawful two_ids two_ids-IsValid 19 81

ht_set-Sets_example :
    Sets id_keys-IsLawful two_ids two_ids-IsValid 19 81 false true
      (ht_set two_ids 19 81 false true true)
ht_set-Sets_example = ht_set-Sets id_keys-IsLawful two_ids two_ids-IsValid 19 81 false true

ht_del-Deletes_example : Deletes id_keys-IsLawful two_ids two_ids-IsValid 3
ht_del-Deletes_example = ht_del-Deletes id_keys-IsLawful two_ids two_ids-IsValid 3

Reached-IsValid_example : IsValid two_ids
Reached-IsValid_example = Reached-IsValid id_keys-IsLawful two_ids-Reached

Reached-fits_example : two_ids.capacity < 2 ^ 31
Reached-fits_example = Reached-fits id_keys-IsLawful two_ids-Reached (omega arith)

used_two : used two_ids.entries < 16
unfolding used busy
used_two = omega arith

find_entry-Answers_example :
    (i : ℕ) × (D : ℕ) × (find_entry two_ids.entries 16 19 ≡ some i)
    × (D < 16)
    × ((j : ℕ) → j < D → stops 19 (at two_ids.entries (probe ⦃keys = id_keys⦄ 19 16 j)) ≡ false)
    × Answers two_ids.entries 16 19 D i
find_entry-Answers_example = find_entry-Answers two_ids.entries 16 19 refl used_two

id_map_push-finds_example :
    (t' : Table ℕ) × (id_map_push two_ids 5 90 true true ≡ some (success, t'))
    × IsValid t'
    × ((q : ℕ) → id_map_find t' q ≡ (if q == 5 then some 90 else id_map_find two_ids q))
id_map_push-finds_example = id_map_push-finds two_ids two_ids-IsValid 5 90 no_five
