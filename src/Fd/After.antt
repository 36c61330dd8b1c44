-- ===== src/Fd/After.antt =====
-- What holds after an operation of kernel/core/file.c, and how such facts compose.
use yak_kernel.Prelude.{Option, none, some}
use yak_kernel.Fd.Machine.{State, M}

-- `P` holds of the next state, unless the operation faulted.
abbrev pub After {ℓ} : {A : Type 0} → (A → State → Type ℓ) → Option (A × State) → Type ℓ
After P none = Unit
After P (some (a, t)) = P a t

pub After-bind {ℓ κ} :
    {A B : Type 0} (P : A → State → Type ℓ) (Q : B → State → Type κ) (m : Option (A × State))
    (f : A → M B)
    → After P m
    → ((a : A) (t : State) → P a t → After Q (f a t))
    → After Q (elim m [ none ↦ none | some (a, t) ↦ f a t ])
After-bind P Q none f h k = tt
After-bind P Q (some (a, t)) f h k = k a t h

pub After-and {ℓ κ} :
    {A : Type 0} (P : A → State → Type ℓ) (Q : A → State → Type κ) (m : Option (A × State))
    → After P m
    → After Q m
    → After (λ a t. P a t × Q a t) m
After-and P Q none p q = tt
After-and P Q (some (a, t)) p q = (p, q)

pub After-map {ℓ κ} :
    {A : Type 0} (P : A → State → Type ℓ) (Q : A → State → Type κ) (m : Option (A × State))
    → ((a : A) (t : State) → P a t → Q a t)
    → After P m
    → After Q m
After-map P Q none f p = tt
After-map P Q (some (a, t)) f p = f a t p
