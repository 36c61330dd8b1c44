-- ===== src/HashTable/Update.antt =====
-- kernel/core/hashtable.c: `ht_resize`, and `ht_set` up to its search.
use yak_kernel.Prelude.{
  ℕ, zero, suc, ◌+◌, ◌*◌, ◌≤◌, ◌<◌, ◌≡◌, refl, sym, ◌∙◌, ap, subst, true, false, Option, none, some,
  arith, length, length-replicate, replicate, ◌==◌, inl, inr, if◌then◌else◌, Bool-cases, ltb,
}
use yak_kernel.Status.{success}
use yak_kernel.HashTable.{Keys, Slot, Table, at, zeroed, ht_resize, make_room, new_capacity}
use yak_kernel.HashTable.Slots.{IsLawful, busy, used, keyed, keyed-le-used, holds, lookup}
use yak_kernel.HashTable.Invariant.{Placed, Placed-unique, IsValid}
use yak_kernel.HashTable.Probe.{probe}
use yak_kernel.HashTable.Resize.{move_entries-Moves, first_of}

module _ {K : Type 0} where
  at-zeroed : (n i : ℕ) → at (replicate {A = Slot K} n zeroed) i ≡ zeroed
  at-zeroed zero i = refl
  at-zeroed (suc n) zero = refl
  at-zeroed (suc n) (suc i) = at-zeroed n i

used-zeroed : (L : Type 0) (n : ℕ) → used (replicate {A = Slot L} n zeroed) ≡ 0
unfolding used busy
used-zeroed L zero = refl
used-zeroed L (suc n) = omega (arith, used-zeroed L n)

first_of-none : (o : Option ℕ) → first_of o none ≡ o
first_of-none none = refl
first_of-none (some v) = refl

module _ {K : Type 0} ⦃keys : Keys K⦄ where
  holds-zeroed : (q : K) → holds q zeroed ≡ false
  unfolding holds
  holds-zeroed q = refl

  Placed-zeroed : (n cap : ℕ) → Placed {K = K} (replicate n zeroed) cap
  Placed-zeroed n cap k d d_in has j l =
      absurd (cc (has, ap (holds k) (at-zeroed n (probe k cap d)), holds-zeroed k))

  lookup-zeroed : (n : ℕ) (q : K) → lookup q (replicate n zeroed) ≡ none
  unfolding lookup holds
  lookup-zeroed zero q = refl
  lookup-zeroed (suc n) q = lookup-zeroed n q

  -- With memory, and more slots than keys, `ht_resize` ends. It keeps every key with its value and
  -- counts only them.
  pub ht_resize-keeps :
      (law : IsLawful keys) (t : Table K) (new_cap : ℕ)
      → IsValid t
      → keyed t.entries < new_cap
      → (t' : Table K) × (ht_resize t new_cap true ≡ some (success, t'))
        × (t'.capacity ≡ new_cap)
        × (t'.count ≡ keyed t.entries)
        × (length t'.entries ≡ new_cap)
        × (used t'.entries ≤ t'.count)
        × Placed t'.entries new_cap
        × ((q : K) → lookup q t'.entries ≡ lookup q t.entries)
  unfolding ht_resize
  ht_resize-keeps law t new_cap v room =
      let fresh = replicate new_cap zeroed in
      let (es, count, is, m) =
        move_entries-Moves law new_cap t.entries fresh 0 (length-replicate new_cap zeroed)
          (Placed-zeroed new_cap new_cap) (omega (arith, used-zeroed K new_cap)) (omega arith)
          (λ q i j hi hj a b.
            Placed-unique t.entries t.capacity v.size v.placed q i j (omega (arith, v.size))
              (omega (arith, v.size)) a b)
          (λ q i lt h. lookup-zeroed new_cap q) in
      (
        record { count = count; capacity = new_cap; entries = es },
        rw is refl,
        refl,
        omega (arith, m.total),
        m.size,
        m.counted,
        m.placed,
        λ q.
            m.kept q
            ∙ ap (first_of (lookup q t.entries)) (lookup-zeroed new_cap q)
            ∙ first_of-none _,
      )

  -- With memory, the first test of `ht_set` leaves a valid table with the same keys and room for one more.
  pub make_room-keeps :
      (law : IsLawful keys) (t : Table K)
      → IsValid t
      → (t' : Table K) × (make_room t true ≡ some (success, t'))
        × IsValid t'
        × ((t'.count + 1) * 4 ≤ t'.capacity * 3)
        × ((q : K) → lookup q t'.entries ≡ lookup q t.entries)
  unfolding make_room new_capacity
  make_room-keeps law t v = elim (Bool-cases (ltb (t.capacity * 3) ((t.count + 1) * 4))) [
    | inr fits ↦ (t, rw fits refl, v, ground arith, λ q. refl)
    | inl full ↦
        let cap = if t.capacity == 0 then 16 else t.capacity * 2 in
        let few : keyed t.entries ≤ t.count = omega (arith, keyed-le-used t.entries, v.counted) in
        let (t', is, is_cap, is_count, size, counted, placed, same) =
          ht_resize-keeps law t cap v (ground (arith, v.load)) in
        (
          t',
          rw full is,
          record {
            size = size ∙ sym is_cap;
            counted = counted;
            load = ground (arith, v.load, is_cap, is_count);
            placed = subst (Placed t'.entries) (sym is_cap) placed;
          },
          ground (arith, v.load, is_cap, is_count),
          same,
        )
  ]
