-- ===== src/Pmm/Free.antt =====
-- `zone_free` of kernel/vm/pmm.c gives back exactly the frames of the block.
use yak_kernel.Prelude.{
  put, ℕ, zero, suc, ◌+◌, ◌-◌, ◌/◌, ◌%◌, ◌^◌, ◌≤◌, ◌<◌, ◌≡◌, ◌∙◌, sym, ◌≢◌, ap, inl, inr, Bool,
  true, false, ◌∷◌, Option, none, some, arith, ltb, ltb→lt, ◌==◌, ◌&&◌, Bool-cases, Option-cases,
  add_size,
}
use yak_kernel.Pmm.{
  Page, Zone, Memory, buddy_orders, zone_validate, buddy_of, lower_of, can_merge, remove_page,
  remove_buddy, bump_orders, is_in, free_end, merge, zone_free,
}
use native.Mathlib.Nat.{div-eq_of_lt}
use yak_kernel.Pmm.Cover.{Weight, IsAdditive, weight, weight-put, list_weight-remove_page, pow_pos}

one_up : (a b : ℕ) → a / b % 2 ≢ 0 → b ≤ a
one_up a b ne = elim (Bool-cases (ltb a b)) [
  | inl e ↦ absurd (ne (ap (λ x. x % 2) (div-eq_of_lt (ltb→lt a b e))))
  | inr e ↦ ground arith
]

-- A block and its buddy are the halves of the block at the lower of the two.
halves :
    (w : Weight)
    → IsAdditive w
    → (page o : ℕ) → w (lower_of page (buddy_of page o)) (suc o) ≡ w page o + w (buddy_of page o) o
halves w additive page o = elim (Bool-cases (page / 2 ^ o % 2 == 0)) [
  | inl e ↦ let up : ltb (page + 2 ^ o) page ≡ false = ground arith in rw (e, up) (additive page o)
  | inr e ↦
      let large : 2 ^ o ≤ page = one_up (page) (2 ^ o) (ground arith) in
      let down : ltb (page - 2 ^ o) page ≡ true = ground (arith, pow_pos o) in
      let back : page - 2 ^ o + 2 ^ o ≡ page = omega arith in
      rw (e, down)
        (additive (page - 2 ^ o) o ∙ ap (λ q. w (page - 2 ^ o) o + w q o) back ∙ omega arith)
]

remove_buddy-weight :
    (w : Weight) (z : Zone) (o buddy : ℕ)
    → o < buddy_orders
    → is_in buddy (z.orders o) ≡ true
    → weight w (remove_buddy z o buddy).orders + w buddy o ≡ weight w z.orders
remove_buddy-weight w z o buddy lt e = omega (
  arith,
  weight-put w z.orders o (remove_page buddy (z.orders o)) lt,
  list_weight-remove_page w o (z.orders o) buddy e,
)

none-ne-some : {A : Type 0} {a : A} → ◌≢◌ {A = Option A} none (some a)
none-ne-some e = cc

merge-weight :
    (w : Weight)
    → IsAdditive w
    → (n o page : ℕ) (exists : ℕ → Bool) (z : Zone) (pages : ℕ → Page) (last final : ℕ) (z' : Zone)
      (pages' : ℕ → Page)
    → o + n ≤ buddy_orders
    → merge n o page exists z pages ≡ some (last, final, z', pages')
    → (final < buddy_orders) × (weight w z'.orders + w last final ≡ weight w z.orders + w page o)
unfolding merge
merge-weight w additive zero o page exists z pages last final z' pages' le e = absurd (cc)
merge-weight w additive (suc n) o page exists z pages last final z' pages' le e =
    let buddy = buddy_of page o in
    let z1 = remove_buddy z o buddy in
    elim (Bool-cases (ltb o (pages page).max_order)) [
      | inr top ↦ stop (rw (merge, top) at e)
      | inl below ↦
          elim (Bool-cases (exists buddy && (pages buddy).max_order == (pages page).max_order)) [
            | inr missing ↦ absurd (none-ne-some (rw (merge, below, missing) at e))
            | inl found ↦ elim (Bool-cases (can_merge (pages page) (pages buddy))) [
              | inr kept ↦ stop (rw (merge, below, found, kept) at e)
              | inl free ↦ elim (Bool-cases (ltb 0 (z.npages o) && is_in buddy (z.orders o))) [
                | inr lost ↦ absurd (none-ne-some (rw (merge, below, found, free, lost) at e))
                | inl listed ↦
                    let on_list : is_in buddy (z.orders o) ≡ true = ground (arith, listed) in
                    let (a, b) =
                      merge-weight w additive n (o + 1) (lower_of page buddy) exists z1
                        (bump_orders pages buddy page) last final z' pages' (omega arith)
                        (rw (merge, below, found, free, listed) at e) in
                    let plus : suc o ≡ o + 1 = omega arith in
                    (
                      a,
                      omega (
                        arith,
                        b,
                        ap (w (lower_of page buddy)) plus,
                        halves w additive page o,
                        remove_buddy-weight w z o buddy (omega arith) on_list,
                      ),
                    )
              ]
            ]
          ]
    ]
  where
    stop :
        ◌≡◌ {A = Option (ℕ × ℕ × Zone × (ℕ → Page))}
          (some (page, o, z, pages))
          (some (last, final, z', pages'))
        → (final < buddy_orders)
          × (weight w z'.orders + w last final ≡ weight w z.orders + w page o)
    stop e = ground (arith, e)

false-ne-true : false ≢ true
false-ne-true e = cc

free_end-weight :
    (w : Weight) (initial o page : ℕ) (z : Zone) (mem : Memory) (pages : ℕ → Page) (z' : Zone)
    (mem' : Memory)
    → o < buddy_orders
    → free_end initial o page z mem pages ≡ some (z', mem')
    → weight w z'.orders ≡ weight w z.orders + w page o
unfolding free_end
free_end-weight w initial o page z mem pages z' mem' lt e =
    let z1 : Zone = record z {
      npages = put z.npages o (add_size (z.npages o) 1);
      orders = put z.orders o (page ∷ z.orders o);
    } in
    elim (Bool-cases ((pages page).order == o && zone_validate z1)) [
      | inr bad ↦ absurd (none-ne-some (rw (free_end, bad) at e))
      | inl good ↦
          let same = ap (result z mem) (rw (free_end, good) at e) in
          sym (ap (λ (r : Zone × Memory). weight w r.0.orders) same)
          ∙ omega (arith, weight-put w z.orders o (page ∷ z.orders o) lt)
    ]
  where
    result : Zone → Memory → Option (Zone × Memory) → Zone × Memory
    result z mem none = (z, mem)
    result z mem (some r) = r

-- Where `zone_free` returns, in an order in range, the free blocks weigh what they did and the block
-- given back, for every weight by which a block is as heavy as its halves: with `covers f`, exactly the
-- frames of the block join the free ones, however far it merged.
pub zone_free-weight :
    (w : Weight)
    → IsAdditive w
    → (page order : ℕ) (exists : ℕ → Bool) (z : Zone) (mem : Memory) (z' : Zone) (mem' : Memory)
    → zone_free page order exists z mem ≡ some (z', mem')
    → weight w z'.orders ≡ weight w z.orders + w page order
unfolding zone_free free_end
zone_free-weight w additive page order exists z mem z' mem' e =
    elim (Bool-cases
      (ltb order buddy_orders && (zone_validate z && (mem.pages page).shares == 0))) [
        | inr bad ↦ absurd (none-ne-some (rw (zone_free, bad) at e))
        | inl good ↦
            elim (Option-cases (merge (buddy_orders - order) order page exists z mem.pages)) [
              | inl lost ↦ absurd (none-ne-some (rw (zone_free, good, lost) at e))
              | inr ((last, final, z1, pages), found) ↦
                  let (lt, kept) =
                    merge-weight w additive (buddy_orders - order) order page exists z mem.pages
                      last final z1 pages (below good) found in
                  free_end-weight w order final last z1 mem pages z' mem' lt
                    (rw (zone_free, good, found) at e)
                  ∙ kept
            ]
      ]
  where
    below :
        (ltb order buddy_orders && (zone_validate z && (mem.pages page).shares == 0)) ≡ true
        → order + (buddy_orders - order) ≤ buddy_orders
    below good = elim (Bool-cases (ltb order buddy_orders)) [
      | inl lt ↦ omega (arith, ltb→lt order buddy_orders lt)
      | inr ge ↦ absurd (false-ne-true (rw ge at good))
    ]
