-- ===== src/HashTable/Reach.antt =====
-- kernel/core/hashtable.c: the tables that calls of `ht_set` and `ht_del` lead to, and their size.
use yak_kernel.Prelude.{
  ℕ, suc, ◌+◌, ◌*◌, ◌^◌, ◌≤◌, ◌<◌, ◌≡◌, sym, ◌∙◌, subst, Bool, true, false, some, arith, ltb, ◌==◌,
  if◌then◌else◌, if-true, if-false, Bool-cases, Option-cases, ◌⊎◌, inl, inr,
}
use yak_kernel.Status.{Status, oom}
use yak_kernel.HashTable.{
  Keys, Table, ht_init, ht_set, ht_del, make_room, new_capacity, ht_resize, set_entry, set_slot,
  find_entry,
}
use yak_kernel.HashTable.Slots.{IsLawful, keyed-le-used}
use yak_kernel.HashTable.Invariant.{IsValid}
use yak_kernel.HashTable.Update.{ht_resize-keeps}
use yak_kernel.HashTable.Map.{ht_init-IsValid, ht_del-Deletes}
use yak_kernel.HashTable.Insert.{ht_set-Sets}

second : {A B : Type 0} {x y : A × B} → some x ≡ some y → x.1 ≡ y.1
second e = ground arith

module _ {K : Type 0} ⦃keys : Keys K⦄ where
  -- A table after a number of calls of `ht_set`, with any outcomes, and any calls of `ht_del`.
  pub data Reached : ℕ → Table K → Type 0 where
    fresh : Reached 0 (ht_init K)
    after_set :
        (n : ℕ) (t t' : Table K) (key : K) (value : ℕ) (overwrite grown copied : Bool) (s : Status)
        → Reached n t
        → ht_set t key value overwrite grown copied ≡ some (s, t')
        → Reached (suc n) t'
    after_del :
        (n : ℕ) (t t' : Table K) (key : K) (found : Bool)
        → Reached n t
        → ht_del t key ≡ some (found, t')
        → Reached n t'

  slot_grows :
      (t : Table K) (i : ℕ) (key : K) (value : ℕ) (overwrite copied : Bool)
      → ((set_slot t i key value overwrite copied).1.count ≤ t.count + 1)
        × ((set_slot t i key value overwrite copied).1.capacity ≡ t.capacity)
  unfolding set_slot
  slot_grows t i key value overwrite copied = ground arith

  entry_grows :
      (t t' : Table K) (key : K) (value : ℕ) (overwrite copied : Bool) (s : Status)
      → set_entry t key value overwrite copied ≡ some (s, t')
      → (t'.count ≤ t.count + 1) × (t'.capacity ≡ t.capacity)
  unfolding set_entry
  entry_grows t t' key value overwrite copied s h =
      elim (Option-cases (find_entry t.entries t.capacity key)) [
        | inl lost ↦ ground arith
        | inr (i, is) ↦ ground (arith, slot_grows t i key value overwrite copied)
      ]

  del_keeps :
      (t t' : Table K) (key : K) (found : Bool)
      → ht_del t key ≡ some (found, t')
      → (t'.count ≡ t.count) × (t'.capacity ≡ t.capacity)
  unfolding ht_del
  del_keeps t t' key found h = ground arith

  resize_grows :
      (t t' : Table K) (cap : ℕ) (grown : Bool) (s : Status)
      → IsLawful keys
      → IsValid t
      → t.count < cap
      → ht_resize t cap grown ≡ some (s, t')
      → (t'.count ≤ t.count) × ((t'.capacity ≡ t.capacity) ⊎ (t'.capacity ≡ cap))
  unfolding ht_resize
  resize_grows t t' cap false s law v lt h = ground arith
  resize_grows t t' cap true s law v lt h =
      let few = keyed-le-used t.entries in
      let (u, is, is_cap, is_count, _, _, _, _) =
        ht_resize-keeps law t cap v (omega (arith, v.counted)) in
      let same = second (sym is ∙ h) in ground arith

  room_grows :
      (t t' : Table K) (grown : Bool) (s : Status)
      → IsLawful keys
      → IsValid t
      → make_room t grown ≡ some (s, t')
      → (t'.count ≤ t.count)
        × ((t'.capacity ≡ t.capacity) ⊎ (t'.capacity * 3 ≤ 48 + (t.count + 1) * 8))
  unfolding make_room new_capacity
  room_grows t t' grown s law v h = elim (Bool-cases (ltb (t.capacity * 3) ((t.count + 1) * 4))) [
    | inr fits ↦ ground arith
    | inl full ↦
        let cap = if t.capacity == 0 then 16 else t.capacity * 2 in
        let (le, or) =
          resize_grows t t' cap grown s law v (ground (arith, v.load)) (sym (if-true _ full) ∙ h) in
        (le, ground arith)
  ]

  set_grows :
      (t t' : Table K) (key : K) (value : ℕ) (overwrite grown copied : Bool) (s : Status)
      → IsLawful keys
      → IsValid t
      → ht_set t key value overwrite grown copied ≡ some (s, t')
      → (t'.count ≤ t.count + 1)
        × ((t'.capacity ≡ t.capacity) ⊎ (t'.capacity * 3 ≤ 48 + (t.count + 1) * 8))
  unfolding ht_set
  set_grows t t' key value overwrite grown copied s law v h =
      elim (Option-cases (make_room t grown)) [
        | inl lost ↦ ground arith
        | inr ((s1, t1), is) ↦
            let (le, or) = room_grows t t1 grown s1 law v is in
            ground (arith, entry_grows t1 t' key value overwrite copied s)
      ]

  -- Without memory to grow, a table that had to stays as it was.
  no_growth :
      (t : Table K) (key : K) (value : ℕ) (overwrite copied : Bool)
      → ht_set t key value overwrite false copied ≡ (
          if ltb (t.capacity * 3) ((t.count + 1) * 4)
          then some (oom, t)
          else ht_set t key value overwrite true copied)
  unfolding ht_set make_room ht_resize
  no_growth t key value overwrite copied = ground arith

  memory_IsValid :
      (t t' : Table K) (key : K) (value : ℕ) (overwrite copied : Bool) (s : Status)
      → IsLawful keys
      → IsValid t
      → ht_set t key value overwrite true copied ≡ some (s, t')
      → IsValid t'
  memory_IsValid t t' key value overwrite copied s law v h =
      let (u, is, v', _) = ht_set-Sets law t v key value overwrite copied in
      subst IsValid (second (sym is ∙ h)) v'

  set_IsValid :
      (t t' : Table K) (key : K) (value : ℕ) (overwrite grown copied : Bool) (s : Status)
      → IsLawful keys
      → IsValid t
      → ht_set t key value overwrite grown copied ≡ some (s, t')
      → IsValid t'
  set_IsValid t t' key value overwrite true copied s law v h =
      memory_IsValid t t' key value overwrite copied s law v h
  set_IsValid t t' key value overwrite false copied s law v h =
      elim (Bool-cases (ltb (t.capacity * 3) ((t.count + 1) * 4))) [
        | inl full ↦
            subst IsValid
              (second (sym (no_growth t key value overwrite copied ∙ if-true _ full) ∙ h)) v
        | inr fits ↦
            memory_IsValid t t' key value overwrite copied s law v
              (sym (no_growth t key value overwrite copied ∙ if-false _ fits) ∙ h)
      ]

  del_IsValid :
      (t t' : Table K) (key : K) (found : Bool)
      → IsLawful keys
      → IsValid t
      → ht_del t key ≡ some (found, t')
      → IsValid t'
  del_IsValid t t' key found law v h =
      let (u, is, v', _) = ht_del-Deletes law t v key in subst IsValid (second (sym is ∙ h)) v'

  -- With a lawful comparison, every table that calls of `ht_set` and `ht_del` lead to from an empty
  -- one, whether their allocations succeed or fail, is valid.
  pub Reached-IsValid : IsLawful keys → {n : ℕ} {t : Table K} → Reached n t → IsValid t
  Reached-IsValid law fresh = ht_init-IsValid
  Reached-IsValid law (after_set n t t' key value overwrite grown copied s r h) =
      set_IsValid t t' key value overwrite grown copied s law (Reached-IsValid law r) h
  Reached-IsValid law (after_del n t t' key found r h) =
      del_IsValid t t' key found law (Reached-IsValid law r) h

  reached_size :
      IsLawful keys
      → {n : ℕ} {t : Table K} → Reached n t
      → (t.count ≤ n) × (t.capacity * 3 ≤ 48 + n * 8)
  unfolding ht_init
  reached_size law fresh = (omega arith, omega arith)
  reached_size law (after_set n t t' key value overwrite grown copied s r h) =
      let v = Reached-IsValid law r in
      ground (arith, reached_size law r, set_grows t t' key value overwrite grown copied s law v h)
  reached_size law (after_del n t t' key found r h) =
      ground (arith, reached_size law r, del_keeps t t' key found h)

  -- With a lawful comparison, the capacity after fewer than 2 ^ 28 calls of `ht_set` is below 2 ^ 31,
  -- so that the `int` which `find_entry` takes it as holds it.
  pub Reached-fits :
      IsLawful keys → {n : ℕ} {t : Table K} → Reached n t → n < 2 ^ 28 → t.capacity < 2 ^ 31
  Reached-fits law r lt = omega (arith, (reached_size law r).1)
