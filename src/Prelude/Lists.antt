-- ===== src/Prelude/Lists.antt =====
-- Lists measured and indexed by native numbers, and lists given by a function of the index.
use Prim.Native.Nat.{ℕ, zero, suc, ◌+◌, ◌-◌, ◌≤◌, ◌<◌}
use mathlib.Core.Path.{◌≡◌, refl, sym, ap, ap₂, ◌∙◌}
use mathlib.Core.Logic.{◌≢◌}
use mathlib.Core.List.{List, [], ◌∷◌, ◌++◌}
use mathlib.Core.Option.{Option, none, some}
use native.Mathlib.Omega.{arith}

module _ {ℓ} {A : Type ℓ} where
  abbrev pub length : List A → ℕ
  length [] = 0
  length (x ∷ xs) = suc (length xs)

  abbrev pub get_elem? : List A → ℕ → Option A
  get_elem? [] i = none
  get_elem? (x ∷ xs) zero = some x
  get_elem? (x ∷ xs) (suc i) = get_elem? xs i

  abbrev pub get_or : List A → ℕ → A → A
  get_or [] i d = d
  get_or (x ∷ xs) zero d = x
  get_or (x ∷ xs) (suc i) d = get_or xs i d

  -- A write out of bounds changes nothing.
  abbrev pub set : List A → ℕ → A → List A
  set [] i v = []
  set (x ∷ xs) zero v = v ∷ xs
  set (x ∷ xs) (suc i) v = x ∷ set xs i v

  abbrev pub take : ℕ → List A → List A
  take zero xs = []
  take (suc n) [] = []
  take (suc n) (x ∷ xs) = x ∷ take n xs

  abbrev pub drop : ℕ → List A → List A
  drop zero xs = xs
  drop (suc n) [] = []
  drop (suc n) (x ∷ xs) = drop n xs

  abbrev pub replicate : ℕ → A → List A
  replicate zero a = []
  replicate (suc n) a = a ∷ replicate n a

  -- The list `f 0 ∷ f 1 ∷ …` of length `n`.
  abbrev pub tabulate : ℕ → (ℕ → A) → List A
  tabulate zero f = []
  tabulate (suc n) f = f 0 ∷ tabulate n (λ i. f (suc i))

  pub length-append : (xs ys : List A) → length (xs ++ ys) ≡ length xs + length ys
  length-append [] ys = omega arith
  length-append (x ∷ xs) ys = omega (arith, length-append xs ys)

  pub length-set : (xs : List A) (i : ℕ) (v : A) → length (set xs i v) ≡ length xs
  length-set [] i v = refl
  length-set (x ∷ xs) zero v = refl
  length-set (x ∷ xs) (suc i) v = ap suc (length-set xs i v)

  pub length-replicate : (n : ℕ) (a : A) → length (replicate n a) ≡ n
  length-replicate zero a = refl
  length-replicate (suc n) a = ap suc (length-replicate n a)

  pub length-tabulate : (n : ℕ) (f : ℕ → A) → length (tabulate n f) ≡ n
  length-tabulate zero f = refl
  length-tabulate (suc n) f = ap suc (length-tabulate n (λ i. f (suc i)))

  pub get_or-set_self :
      (xs : List A) (i : ℕ) (v d : A) → i < length xs → get_or (set xs i v) i d ≡ v
  get_or-set_self [] i v d h = absurd (omega arith)
  get_or-set_self (x ∷ xs) zero v d h = refl
  get_or-set_self (x ∷ xs) (suc i) v d h = get_or-set_self xs i v d (omega arith)

  pub get_or-set_ne :
      (xs : List A) (i j : ℕ) (v d : A) → i ≢ j → get_or (set xs i v) j d ≡ get_or xs j d
  get_or-set_ne [] i j v d h = refl
  get_or-set_ne (x ∷ xs) zero zero v d h = absurd (h refl)
  get_or-set_ne (x ∷ xs) zero (suc j) v d h = refl
  get_or-set_ne (x ∷ xs) (suc i) zero v d h = refl
  get_or-set_ne (x ∷ xs) (suc i) (suc j) v d h = get_or-set_ne xs i j v d (λ e. h (ap suc e))

  pub get_elem?-set_self :
      (xs : List A) (i : ℕ) (v : A) → i < length xs → get_elem? (set xs i v) i ≡ some v
  get_elem?-set_self [] i v h = absurd (omega arith)
  get_elem?-set_self (x ∷ xs) zero v h = refl
  get_elem?-set_self (x ∷ xs) (suc i) v h = get_elem?-set_self xs i v (omega arith)

  pub get_elem?-set_ne :
      (xs : List A) (i j : ℕ) (v : A) → i ≢ j → get_elem? (set xs i v) j ≡ get_elem? xs j
  get_elem?-set_ne [] i j v h = refl
  get_elem?-set_ne (x ∷ xs) zero zero v h = absurd (h refl)
  get_elem?-set_ne (x ∷ xs) zero (suc j) v h = refl
  get_elem?-set_ne (x ∷ xs) (suc i) zero v h = refl
  get_elem?-set_ne (x ∷ xs) (suc i) (suc j) v h = get_elem?-set_ne xs i j v (λ e. h (ap suc e))

  pub tabulate-cong :
      (n : ℕ) (f g : ℕ → A) → ((i : ℕ) → i < n → f i ≡ g i) → tabulate n f ≡ tabulate n g
  tabulate-cong zero f g h = refl
  tabulate-cong (suc n) f g h =
      ap₂ ◌∷◌ (h 0 (omega arith))
        (tabulate-cong n (λ i. f (suc i)) (λ i. g (suc i)) (λ i lt. h (suc i) (omega arith)))

  pub tabulate-append :
      (m n : ℕ) (f g h : ℕ → A)
      → ((i : ℕ) → i < m → h i ≡ f i)
      → ((i : ℕ) → i < n → h (m + i) ≡ g i)
      → tabulate (m + n) h ≡ tabulate m f ++ tabulate n g
  tabulate-append zero n f g h p q =
      let e : zero + n ≡ n = omega arith in
      rw e (tabulate-cong n h g (λ i lt. ap h (omega arith) ∙ q i lt))
  tabulate-append (suc m) n f g h p q =
      let e : suc m + n ≡ suc (m + n) = omega arith in
      rw e (
        ap₂ ◌∷◌ (p 0 (omega arith)) (
          tabulate-append m n (λ i. f (suc i)) g (λ i. h (suc i)) (λ i lt. p (suc i) (omega arith))
            (λ i lt. ap h (omega arith) ∙ q i lt)))

  -- A list is the table of its elements.
  pub take-tabulate :
      (n : ℕ) (xs : List A) (d : A) → n ≤ length xs → take n xs ≡ tabulate n (λ i. get_or xs i d)
  take-tabulate zero xs d h = refl
  take-tabulate (suc n) [] d h = absurd (omega arith)
  take-tabulate (suc n) (x ∷ xs) d h = ap (λ l. x ∷ l) (take-tabulate n xs d (omega arith))

  pub take-of-tabulate : (m n : ℕ) (f : ℕ → A) → m ≤ n → take m (tabulate n f) ≡ tabulate m f
  take-of-tabulate zero n f h = refl
  take-of-tabulate (suc m) zero f h = absurd (omega arith)
  take-of-tabulate (suc m) (suc n) f h =
      ap (λ l. f 0 ∷ l) (take-of-tabulate m n (λ i. f (suc i)) (omega arith))

  pub drop-of-tabulate :
      (m n : ℕ) (f g : ℕ → A)
      → ((i : ℕ) → i < n → g i ≡ f (m + i))
      → drop m (tabulate (m + n) f) ≡ tabulate n g
  drop-of-tabulate zero n f g h =
      let e : zero + n ≡ n = omega arith in
      rw e (tabulate-cong n f g (λ i lt. ap f (omega arith) ∙ sym (h i lt)))
  drop-of-tabulate (suc m) n f g h =
      let e : suc m + n ≡ suc (m + n) = omega arith in
      rw e (drop-of-tabulate m n (λ i. f (suc i)) g (λ i lt. h i lt ∙ ap f (omega arith)))

  pub get_or-tabulate :
      (n : ℕ) (f : ℕ → A) (i : ℕ) (d : A) → i < n → get_or (tabulate n f) i d ≡ f i
  get_or-tabulate zero f i d h = absurd (omega arith)
  get_or-tabulate (suc n) f zero d h = refl
  get_or-tabulate (suc n) f (suc i) d h = get_or-tabulate n (λ j. f (suc j)) i d (omega arith)

  pub get_or-outside : (xs : List A) (i : ℕ) (d : A) → length xs ≤ i → get_or xs i d ≡ d
  get_or-outside [] i d h = refl
  get_or-outside (x ∷ xs) zero d h = absurd (omega arith)
  get_or-outside (x ∷ xs) (suc i) d h = get_or-outside xs i d (omega arith)

  pub get_or-drop : (xs : List A) (m i : ℕ) (d : A) → get_or (drop m xs) i d ≡ get_or xs (m + i) d
  get_or-drop xs zero i d = ap (λ k. get_or xs k d) (omega arith)
  get_or-drop [] (suc m) i d = refl
  get_or-drop (x ∷ xs) (suc m) i d = get_or-drop xs m i d ∙ ap (λ k. get_or (x ∷ xs) k d) e
    where
      e : suc (m + i) ≡ suc m + i
      e = omega arith

  pub drop-outside : (n : ℕ) (xs : List A) → length xs ≤ n → drop n xs ≡ []
  drop-outside zero [] h = refl
  drop-outside zero (x ∷ xs) h = absurd (omega arith)
  drop-outside (suc n) [] h = refl
  drop-outside (suc n) (x ∷ xs) h = drop-outside n xs (omega arith)

  pub length-drop : (n : ℕ) (xs : List A) → length (drop n xs) ≡ length xs - n
  length-drop zero xs = omega arith
  length-drop (suc n) [] = omega arith
  length-drop (suc n) (x ∷ xs) = omega (arith, length-drop n xs)

pub get_or-set-none {ℓ} :
    {A : Type ℓ} (xs : List (Option A)) (i : ℕ) → get_or (set xs i none) i none ≡ none
get_or-set-none [] i = refl
get_or-set-none (x ∷ xs) zero = refl
get_or-set-none (x ∷ xs) (suc i) = get_or-set-none xs i

pub set-none_self {ℓ} :
    {A : Type ℓ} (xs : List (Option A)) (i : ℕ) → get_or xs i none ≡ none → set xs i none ≡ xs
set-none_self [] i e = refl
set-none_self (x ∷ xs) zero e = ap (λ y. y ∷ xs) (sym e)
set-none_self (x ∷ xs) (suc i) e = ap (λ l. x ∷ l) (set-none_self xs i e)
