-- ===== src/Pmm/ZoneAlloc.antt =====
-- `zone_alloc` of kernel/vm/pmm.c, on every path.
use yak_kernel.Prelude.{
  ℕ, zero, suc, ◌+◌, ◌-◌, ◌^◌, ◌≤◌, ◌<◌, ◌≡◌, refl, ◌∙◌, sym, ◌⊎◌, ap, inl, inr, true, false, List,
  [], ◌∷◌, none, some, arith, length, ltb, ltb→lt, lt→ltb, subst, sub_size, ◌≢◌, ◌==◌, Bool-cases,
  Option-cases,
}
use yak_kernel.Pmm.{
  Zone, Memory, buddy_orders, is_empty, zone_validate, remove_first, first_order, set_order,
  set_shares, split, hand_out, alloc_split, alloc_exact, zone_alloc,
}
use yak_kernel.Pmm.Alloc.{IsValid, zone_validate-counted, split-shares}
use yak_kernel.Pmm.HandOut.{Handed, after-Handed}

List-cases : (ps : List ℕ) → (ps ≡ []) ⊎ ((p : ℕ) × (rest : List ℕ) × (ps ≡ p ∷ rest))
List-cases [] = inl refl
List-cases (p ∷ ps) = inr (p, ps, refl)

true-ne-false : true ≢ false
true-ne-false = ground arith

first_order-none :
    (z : Zone) (o n : ℕ) → first_order z o n ≡ none → (i : ℕ) → o ≤ i → i < o + n → z.orders i ≡ []
unfolding first_order
first_order-none z o zero e i le lt = absurd (omega arith)
first_order-none z o (suc n) e i le lt = elim (List-cases (z.orders o)) [
  | inl empty ↦ elim (Bool-cases (o == i)) [
    | inl same ↦ let e' : o ≡ i = ground arith in rw (← e') empty
    | inr ne ↦
        first_order-none z (o + 1) n (rw (first_order, empty) at e) i (ground arith) (omega arith)
  ]
  | inr (p, rest, e') ↦ absurd (ground (arith, e, e'))
]

first_order-some :
    (z : Zone) (o n k : ℕ)
    → first_order z o n ≡ some k
    → (o ≤ k) × (k < o + n) × (is_empty (z.orders k) ≡ false)
unfolding first_order
first_order-some z o zero k e = absurd (cc)
first_order-some z o (suc n) k e = elim (Bool-cases (is_empty (z.orders o))) [
  | inl empty ↦
      let (a, b, c) = first_order-some z (o + 1) n k (rw (first_order, empty) at e) in
      (omega arith, omega arith, c)
  | inr full ↦ ground arith
]

-- A block of the order asked for.
alloc_exact-Handed :
    (d page : ℕ) (rest : List ℕ) (z : Zone) (mem : Memory)
    → d < buddy_orders
    → z.orders d ≡ page ∷ rest
    → IsValid z mem.pages
    → (z' : Zone) × (mem' : Memory) × (alloc_exact d z mem ≡ some (some page, z', mem'))
      × Handed d page z mem z' mem'
unfolding alloc_exact split
alloc_exact-Handed d page rest z mem lt listed v =
    let same : d - d ≡ 0 = omega arith in
    let le : d ≤ d = omega arith in
    let handed = after-Handed d d page rest z mem lt le listed v mem.pages (λ q. refl) in
    subst
      (λ n.
        let z' = (split n d page (remove_first z d rest) mem.pages).0 in
        let mem' : Memory = record {
          pages = set_shares mem.pages page 1;
          free_pagecnt = sub_size mem.free_pagecnt (2 ^ d);
        } in
        hand_out d page z' mem mem.pages ≡ some (some page, z', mem')
        → Handed d page z mem z' mem'
        → (z' : Zone) × (mem' : Memory) × (alloc_exact d z mem ≡ some (some page, z', mem'))
          × Handed d page z mem z' mem')
      (sym same) (λ e h. (_, _, rw (alloc_exact, listed) e, h)) handed.0 handed.1

-- A larger block, split.
alloc_split-Handed :
    (o d page : ℕ) (rest : List ℕ) (z : Zone) (mem : Memory)
    → o < buddy_orders
    → d ≤ o
    → z.orders o ≡ page ∷ rest
    → IsValid z mem.pages
    → (z' : Zone) × (mem' : Memory) × (alloc_split o d z mem ≡ some (some page, z', mem'))
      × Handed d page z mem z' mem'
unfolding alloc_split
alloc_split-Handed o d page rest z mem lt le listed v =
    let split_off = split (o - d) d page (remove_first z o rest) mem.pages in
    let (e, h) =
      after-Handed o d page rest z mem lt le listed v (set_order split_off.1 page d) (λ q.
        elim (Bool-cases (page == q)) [
          | inl same ↦
              let e' : page ≡ q = ground arith in
              rw same (
                split-shares (o - d) d page (remove_first z o rest) mem.pages page
                ∙ ap (λ x. (mem.pages x).shares) e')
          | inr ne ↦ rw ne (split-shares (o - d) d page (remove_first z o rest) mem.pages q)
        ]) in
    (_, _, rw (alloc_split, listed) e, h)

-- On a valid zone and an order in range no assertion of `zone_alloc` fails. It finds nothing, and
-- changes nothing, only if the order is above the zone's, or no block of the order or a larger one is
-- free. Otherwise it hands out a block: exactly its frames leave the free ones, all of them were free, it
-- has one user, the users of other pages stay, and the zone is valid again.
pub zone_alloc-hands_out :
    (d : ℕ) (z : Zone) (mem : Memory)
    → d < buddy_orders
    → IsValid z mem.pages
    → ((zone_alloc d z mem ≡ some (none, z, mem))
        × ((z.max_zone_order < d) ⊎ ((i : ℕ) → d ≤ i → i < buddy_orders → z.orders i ≡ [])))
      ⊎ ((page : ℕ) × (z' : Zone) × (mem' : Memory) × (zone_alloc d z mem
            ≡ some (some page, z', mem'))
          × Handed d page z mem z' mem')
unfolding zone_alloc
zone_alloc-hands_out d z mem lt v =
    let in_range : ltb d buddy_orders ≡ true = lt→ltb d buddy_orders lt in
    let checked = zone_validate-counted z v.counted in
    elim (Bool-cases (ltb z.max_zone_order d)) [
      | inl high ↦ inl (rw (zone_alloc, in_range, high), inl (ltb→lt z.max_zone_order d high))
      | inr fits ↦ elim (List-cases (z.orders d)) [
        | inr (page, rest, listed) ↦
            let (z', mem', e, h) = alloc_exact-Handed d page rest z mem lt listed v in
            inr (
              page,
              z',
              mem',
              rw
                  (
                    zone_alloc,
                    in_range,
                    fits,
                    checked,
                    nonempty rest (v.counted d ∙ ap length listed),
                  )
                  e,
              h,
            )
        | inl empty ↦ no_block in_range checked fits empty (v.counted d ∙ ap length empty)
      ]
    ]
  where
    nonempty : (rest : List ℕ) → z.npages d ≡ suc (length rest) → ltb 0 (z.npages d) ≡ true
    nonempty rest e = rw e (ground arith)

    no_block :
        ltb d buddy_orders ≡ true
        → zone_validate z ≡ true
        → ltb z.max_zone_order d ≡ false
        → z.orders d ≡ []
        → z.npages d ≡ 0
        → ((zone_alloc d z mem ≡ some (none, z, mem))
            × ((z.max_zone_order < d) ⊎ ((i : ℕ) → d ≤ i → i < buddy_orders → z.orders i ≡ [])))
          ⊎ ((page : ℕ) × (z' : Zone) × (mem' : Memory) × (zone_alloc d z mem
                ≡ some (some page, z', mem'))
              × Handed d page z mem z' mem')
    no_block in_range checked fits empty no_left =
        elim (Option-cases (first_order z (d + 1) (buddy_orders - 1 - d))) [
          | inl nothing ↦ inl (
            rw (zone_alloc, in_range, fits, checked, no_left, nothing),
            inr (λ i le below. elim (Bool-cases (d == i)) [
              | inl same ↦ let e' : d ≡ i = ground arith in rw (← e') empty
              | inr ne ↦
                  first_order-none z (d + 1) (buddy_orders - 1 - d) nothing i (ground arith)
                    (omega arith)
            ]),
          )
          | inr (o, found) ↦
              let (a, b, c) = first_order-some z (d + 1) (buddy_orders - 1 - d) o found in
              elim (List-cases (z.orders o)) [
                | inl empty' ↦ absurd (true-ne-false (ap is_empty (sym empty') ∙ c))
                | inr (page, rest, listed) ↦
                    let (z', mem', e, h) =
                      alloc_split-Handed o d page rest z mem (omega arith) (omega arith) listed v in
                    inr (
                      page,
                      z',
                      mem',
                      rw (zone_alloc, in_range, fits, checked, no_left, found) e,
                      h,
                    )
              ]
        ]
