-- ===== src/Pmm/HandOut.antt =====
-- What `zone_alloc` of kernel/vm/pmm.c hands out.
use yak_kernel.Prelude.{
  ℕ, ◌+◌, ◌-◌, ◌^◌, ◌≤◌, ◌<◌, ◌≡◌, refl, ◌∙◌, sym, ◌≢◌, ap, inl, inr, List, ◌∷◌, some, arith,
  length, ◌==◌, Bool-cases, sub_size, sub_size_small,
}
use yak_kernel.Pmm.{Page, Zone, Memory, buddy_orders, remove_first, set_shares, split, hand_out}
use yak_kernel.Pmm.Cover.{
  Weight, covers, frames, IsAdditive, covers-IsAdditive, frames-IsAdditive, list_weight, weight,
  weight-put, weight-at, length-le-frames, pow_pos,
}
use yak_kernel.Pmm.Alloc.{IsValid, zone_validate-counted, split-weight, split-counted}

-- The block of order `d` at `page` has left the free blocks and has one user.
pub record Handed (d page : ℕ) (z : Zone) (mem : Memory) (z' : Zone) (mem' : Memory) : Type 0 where
  pub taken : (f : ℕ) → weight (covers f) z.orders ≡ weight (covers f) z'.orders + covers f page d
  pub fewer : weight frames z.orders ≡ weight frames z'.orders + 2 ^ d
  pub valid : IsValid z' mem'.pages
  pub used : (mem'.pages page).shares ≡ 1
  pub others : (q : ℕ) → q ≢ page → (mem'.pages q).shares ≡ (mem.pages q).shares
  pub counted : mem'.free_pagecnt ≡ sub_size mem.free_pagecnt (2 ^ d)

module _ (o d page : ℕ) (rest : List ℕ) (z : Zone) (mem : Memory) (below : o < buddy_orders)
    (le : d ≤ o) (listed : z.orders o ≡ page ∷ rest) (v : IsValid z mem.pages) where
  abbrev removed : Zone
  removed = remove_first z o rest

  removed-weight : (w : Weight) → weight w removed.orders + w page o ≡ weight w z.orders
  removed-weight w = omega (arith, weight-put w z.orders o rest below, ap (list_weight w o) listed)

  removed-counted : (i : ℕ) → removed.npages i ≡ length (removed.orders i)
  removed-counted i = elim (Bool-cases (o == i)) [
    | inl e ↦ rw e (
        omega (
          arith,
          v.counted o,
          ap length listed,
          length-le-frames o (z.orders o),
          weight-at frames z.orders o below,
          v.small,
          sub_size_small (z.npages o) 1,
        ))
    | inr e ↦ rw e (v.counted i)
  ]

  at_order : d + (o - d) ≡ o
  at_order = omega arith

  abbrev after : Zone
  after = (split (o - d) d page removed mem.pages).0

  after-weight : (w : Weight) → IsAdditive w → weight w after.orders + w page d ≡ weight w z.orders
  after-weight w additive =
      split-weight w additive (o - d) d page removed mem.pages (omega arith)
      ∙ ap (λ i. weight w removed.orders + w page i) at_order
      ∙ removed-weight w

  after-counted : (i : ℕ) → after.npages i ≡ length (after.orders i)
  after-counted =
      split-counted (o - d) d page removed mem.pages (omega arith)
        (rw at_order (omega (arith, v.small, removed-weight frames))) removed-counted

  -- The first frame of the block is free.
  covered : covers page page d ≡ 1
  covered = ground (arith, pow_pos d)

  page-unused : (mem.pages page).shares ≡ 0
  page-unused =
      v.unused page (omega (arith, after-weight (covers page) (covers-IsAdditive page), covered))

  pub after-Handed :
      (pages : ℕ → Page)
      → ((q : ℕ) → (pages q).shares ≡ (mem.pages q).shares)
      → let mem' : Memory = record {
        pages = set_shares pages page 1;
        free_pagecnt = sub_size mem.free_pagecnt (2 ^ d);
      } in
        (hand_out d page after mem pages ≡ some (some page, after, mem'))
        × Handed d page z mem after mem'
  unfolding hand_out
  after-Handed pages same = (
    rw (zone_validate-counted after after-counted, same page, page-unused, hand_out),
    record {
      taken = λ f. sym (after-weight (covers f) (covers-IsAdditive f));
      fewer = sym (after-weight frames frames-IsAdditive);
      valid = record {
        counted = after-counted;
        small = omega (arith, v.small, after-weight frames frames-IsAdditive);
        apart = λ f. omega (arith, v.apart f, after-weight (covers f) (covers-IsAdditive f));
        unused = λ f free. elim (Bool-cases (page == f)) [
          | inl e ↦
              let e' : page ≡ f = ground arith in
              absurd (
                omega (
                  arith,
                  v.apart page,
                  after-weight (covers page) (covers-IsAdditive page),
                  covered,
                  ap (λ g. weight (covers g) after.orders) e',
                ))
          | inr e ↦
              rw e
                (same f ∙ v.unused f (omega (arith, after-weight (covers f) (covers-IsAdditive f))))
        ];
      };
      used = ground arith;
      others = λ q ne. ground (arith, same q);
      counted = refl;
    },
  )
