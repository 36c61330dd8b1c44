-- ===== src/Pmm/Cover.antt =====
-- Weights of the free blocks of a zone (kernel/vm/pmm.c), such as how many of them cover a frame, and how
-- many frames they have.
use yak_kernel.Prelude.{
  put, ℕ, zero, suc, ◌+◌, ◌^◌, ◌≤◌, ◌<◌, ◌≡◌, refl, inl, inr, true, false, List, [], ◌∷◌, ◌++◌,
  arith, length, ltb, leb, ◌==◌, ◌&&◌, if◌then◌else◌, Bool-cases,
}
use yak_kernel.Pmm.{buddy_orders, remove_page, is_in}

-- The weight of a block, by its first frame and its order.
abbrev pub Weight : Type 0
Weight = ℕ → ℕ → ℕ

-- Whether a block covers the frame `f`.
abbrev pub covers : ℕ → Weight
covers f p o = if leb p f && ltb f (p + 2 ^ o) then 1 else 0

abbrev pub frames : Weight
frames p o = 2 ^ o

-- A block is as heavy as its halves.
abbrev pub IsAdditive : Weight → Type 0
IsAdditive w = (p o : ℕ) → w p (suc o) ≡ w p o + w (p + 2 ^ o) o

pow_suc : (o : ℕ) → 2 ^ suc o ≡ 2 ^ o + 2 ^ o
pow_suc o = omega arith

pub covers-IsAdditive : (f : ℕ) → IsAdditive (covers f)
covers-IsAdditive f p o = ground (arith, pow_suc o)

pub frames-IsAdditive : IsAdditive frames
frames-IsAdditive p o = pow_suc o

abbrev pub list_weight : Weight → ℕ → List ℕ → ℕ
list_weight w o [] = 0
list_weight w o (p ∷ ps) = w p o + list_weight w o ps

-- Of the lists below `n`.
abbrev pub weight_below : ℕ → Weight → (ℕ → List ℕ) → ℕ
weight_below zero w orders = 0
weight_below (suc n) w orders = list_weight w n (orders n) + weight_below n w orders

abbrev pub weight : Weight → (ℕ → List ℕ) → ℕ
weight w orders = weight_below buddy_orders w orders

pub list_weight-append :
    (w : Weight) (o : ℕ) (ps : List ℕ) (p : ℕ)
    → list_weight w o (ps ++ p ∷ []) ≡ list_weight w o ps + w p o
list_weight-append w o [] p = omega arith
list_weight-append w o (q ∷ ps) p = omega (arith, list_weight-append w o ps p)

pub list_weight-remove_page :
    (w : Weight) (o : ℕ) (ps : List ℕ) (p : ℕ)
    → is_in p ps ≡ true
    → list_weight w o (remove_page p ps) + w p o ≡ list_weight w o ps
list_weight-remove_page w o [] p e = absurd (cc)
list_weight-remove_page w o (q ∷ ps) p e = ground (arith, list_weight-remove_page w o ps p)

weight_below-above :
    (n : ℕ) (w : Weight) (orders : ℕ → List ℕ) (o : ℕ) (ps : List ℕ)
    → n ≤ o
    → weight_below n w (put orders o ps) ≡ weight_below n w orders
weight_below-above zero w orders o ps le = refl
weight_below-above (suc n) w orders o ps le =
    let e : (o == n) ≡ false = ground arith in
    rw (e, weight_below-above n w orders o ps (omega arith))

weight_below-put :
    (n : ℕ) (w : Weight) (orders : ℕ → List ℕ) (o : ℕ) (ps : List ℕ)
    → o < n
    → weight_below n w (put orders o ps) + list_weight w o (orders o)
      ≡ weight_below n w orders + list_weight w o ps
weight_below-put zero w orders o ps lt = absurd (omega arith)
weight_below-put (suc n) w orders o ps lt = elim (Bool-cases (o == n)) [
  | inl e ↦
      let e' : o ≡ n = ground arith in
      rw (e, ← e', weight_below-above o w orders o ps (omega arith)) (omega arith)
  | inr e ↦ rw e (omega (arith, weight_below-put n w orders o ps (ground arith)))
]

pub weight-put :
    (w : Weight) (orders : ℕ → List ℕ) (o : ℕ) (ps : List ℕ)
    → o < buddy_orders
    → weight w (put orders o ps) + list_weight w o (orders o) ≡ weight w orders + list_weight w o ps
weight-put w orders o ps lt = weight_below-put buddy_orders w orders o ps lt

weight_below-at :
    (n : ℕ) (w : Weight) (orders : ℕ → List ℕ) (o : ℕ)
    → o < n
    → list_weight w o (orders o) ≤ weight_below n w orders
weight_below-at zero w orders o lt = absurd (omega arith)
weight_below-at (suc n) w orders o lt = elim (Bool-cases (o == n)) [
  | inl e ↦ let e' : o ≡ n = ground arith in rw e' (omega arith)
  | inr e ↦ omega (arith, weight_below-at n w orders o (ground arith))
]

pub weight-at :
    (w : Weight) (orders : ℕ → List ℕ) (o : ℕ)
    → o < buddy_orders
    → list_weight w o (orders o) ≤ weight w orders
weight-at w orders o lt = weight_below-at buddy_orders w orders o lt

pub pow_pos : (o : ℕ) → 0 < 2 ^ o
pow_pos zero = omega arith
pow_pos (suc o) = omega (arith, pow_pos o, pow_suc o)

pub length-le-frames : (o : ℕ) (ps : List ℕ) → length ps ≤ list_weight frames o ps
length-le-frames o [] = omega arith
length-le-frames o (p ∷ ps) = omega (arith, length-le-frames o ps, pow_pos o)
