-- ===== src/Pmm/Alloc.antt =====
-- `zone_alloc` of kernel/vm/pmm.c: no assertion fails, and a block that was free is handed out, alone.
use yak_kernel.Prelude.{
  ℕ, zero, suc, ◌+◌, ◌/◌, ◌^◌, ◌≤◌, ◌<◌, ◌≡◌, refl, ◌∙◌, ap, inl, inr, true, List, [], ◌∷◌, ◌++◌,
  arith, length, ltb, not, ◌==◌, ◌&&◌, if◌then◌else◌, Bool-cases, add_size_small,
}
use yak_kernel.Pmm.{
  Page, Zone, buddy_orders, is_empty, orders_valid, zone_validate, insert_tail, set_order, split,
}
use yak_kernel.Pmm.Cover.{
  Weight, covers, frames, IsAdditive, weight, weight-put, weight-at, list_weight-append,
  length-le-frames,
}

-- The counts are the lengths of the lists, and too small to wrap; no frame is in two free blocks, and
-- a frame in a free block has no user.
pub record IsValid (z : Zone) (pages : ℕ → Page) : Type 0 where
  pub counted : (o : ℕ) → z.npages o ≡ length (z.orders o)
  pub small : weight frames z.orders < 2 ^ 63
  pub apart : (f : ℕ) → weight (covers f) z.orders ≤ 1
  pub unused : (f : ℕ) → 0 < weight (covers f) z.orders → (pages f).shares ≡ 0

orders_valid-counted :
    (n : ℕ) (z : Zone) → ((o : ℕ) → z.npages o ≡ length (z.orders o)) → orders_valid n z ≡ true
unfolding orders_valid
orders_valid-counted zero z h = refl
orders_valid-counted (suc n) z h = rw (orders_valid-counted n z h) (by_list (z.orders n) (h n))
  where
    by_list :
        (ps : List ℕ)
        → z.npages n ≡ length ps
        → ((if ltb 0 (z.npages n) then not (is_empty ps) else is_empty ps) && true) ≡ true
    by_list [] e = ground arith
    by_list (p ∷ ps) e = ground arith

pub zone_validate-counted :
    (z : Zone) → ((o : ℕ) → z.npages o ≡ length (z.orders o)) → zone_validate z ≡ true
unfolding zone_validate
zone_validate-counted z h = orders_valid-counted buddy_orders z h

length-append_one : (ps : List ℕ) (p : ℕ) → length (ps ++ p ∷ []) ≡ length ps + 1
length-append_one [] p = refl
length-append_one (q ∷ ps) p = omega (arith, length-append_one ps p)

insert_tail-weight :
    (w : Weight) (z : Zone) (o p : ℕ)
    → o < buddy_orders
    → weight w (insert_tail z o p).orders ≡ weight w z.orders + w p o
insert_tail-weight w z o p lt = omega (
  arith,
  weight-put w z.orders o (z.orders o ++ p ∷ []) lt,
  list_weight-append w o (z.orders o) p,
)

insert_tail-counted :
    (z : Zone) (o p : ℕ)
    → o < buddy_orders
    → weight frames z.orders < 2 ^ 63
    → ((i : ℕ) → z.npages i ≡ length (z.orders i))
    → (i : ℕ) → (insert_tail z o p).npages i ≡ length ((insert_tail z o p).orders i)
insert_tail-counted z o p lt small h i = elim (Bool-cases (o == i)) [
  | inl e ↦ rw e (
      omega (
        arith,
        h o,
        length-append_one (z.orders o) p,
        length-le-frames o (z.orders o),
        weight-at frames z.orders o lt,
        add_size_small (z.npages o) 1,
      ))
  | inr e ↦ rw e (h i)
]

-- The loop keeps the weights, but for the block that is left of the one split.
pub split-weight :
    (w : Weight)
    → IsAdditive w
    → (n desired page : ℕ) (z : Zone) (pages : ℕ → Page) → desired + n ≤ buddy_orders
    → weight w (split n desired page z pages).0.orders + w page desired
      ≡ weight w z.orders + w page (desired + n)
unfolding split
split-weight w additive zero desired page z pages le =
    let e : desired + 0 ≡ desired = omega arith in rw e refl
split-weight w additive (suc n) desired page z pages le =
    let half : 2 ^ suc (desired + n) / 2 ≡ 2 ^ (desired + n) = omega arith in
    let e : desired + suc n ≡ suc (desired + n) = omega arith in
    let buddy = page + 2 ^ suc (desired + n) / 2 in
    let z' = insert_tail z (desired + n) buddy in
    rw (e, additive page (desired + n))
      (omega (
        arith,
        split-weight w additive n desired page z' (set_order pages buddy (desired + n))
            (omega arith),
        insert_tail-weight w z (desired + n) buddy (omega arith),
        ap (λ b. w (page + b) (desired + n)) half,
      ))

pub split-counted :
    (n desired page : ℕ) (z : Zone) (pages : ℕ → Page)
    → desired + n ≤ buddy_orders
    → weight frames z.orders + 2 ^ (desired + n) < 2 ^ 63
    → ((o : ℕ) → z.npages o ≡ length (z.orders o))
    → let z' = (split n desired page z pages).0 in (o : ℕ) → z'.npages o ≡ length (z'.orders o)
unfolding split
split-counted zero desired page z pages le small h = h
split-counted (suc n) desired page z pages le small h =
    let half : 2 ^ suc (desired + n) ≡ 2 ^ (desired + n) + 2 ^ (desired + n) = omega arith in
    let e : desired + suc n ≡ suc (desired + n) = omega arith in
    let total : weight frames z.orders + 2 ^ suc (desired + n) < 2 ^ 63 = rw (← e) small in
    let buddy = page + 2 ^ suc (desired + n) / 2 in
    split-counted n desired page (insert_tail z (desired + n) buddy)
      (set_order pages buddy (desired + n)) (omega arith)
      (omega (arith, insert_tail-weight frames z (desired + n) buddy (omega arith)))
      (insert_tail-counted z (desired + n) buddy (omega arith) (omega arith) h)

pub split-shares :
    (n desired page : ℕ) (z : Zone) (pages : ℕ → Page) (q : ℕ)
    → ((split n desired page z pages).1 q).shares ≡ (pages q).shares
unfolding split
split-shares zero desired page z pages q = refl
split-shares (suc n) desired page z pages q =
    let buddy = page + 2 ^ suc (desired + n) / 2 in
    let pages' = set_order pages buddy (desired + n) in
    split-shares n desired page (insert_tail z (desired + n) buddy) pages' q ∙ ground arith
