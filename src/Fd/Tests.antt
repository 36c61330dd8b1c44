-- ===== src/Fd/Tests.antt =====
-- Runs of the descriptor table.
use yak_kernel.Prelude.{ℕ, [], Option, none, some, ◌≡◌, refl}
use yak_kernel.Prelude.Int.{ℤ, pos, negsuc}
use yak_kernel.Status.{success}
use yak_kernel.Fd.Machine.{State, alloc}
use yak_kernel.Fd.Alloc.{fd_alloc_file, grown}
use yak_kernel.Fd.Duplicate.{fd_duplicate}

abbrev started : State
started = record { slots = []; files = λ p. none; next = 0; allocs = []; vnode_derefs = [] }

abbrev result {ℓ} : {A : Type ℓ} → Option (A × State) → Option A
result none = none
result (some (a, s)) = some a

abbrev opened : Option State
opened = elim (fd_alloc_file started) [ none ↦ none | some (r, s) ↦ some s ]

first_open : result (fd_alloc_file started) ≡ some (success, some 0)
unfolding fd_alloc_file grown alloc
first_open = refl

abbrev dup : ℤ → ℤ → ℕ → Option (ℕ)
dup a b f = elim (fd_alloc_file started) [
  | none ↦ none
  | some (r, s) ↦ elim (fd_duplicate a b f s) [ none ↦ none | some ((rv, out), t) ↦ out ]
]

dup_next : dup (pos 0) (negsuc 0) 1 ≡ some 1
unfolding fd_alloc_file fd_duplicate grown alloc
dup_next = refl

-- `fcntl(0, F_DUPFD, 10)` returns 4
dup_min : dup (pos 0) (pos 10) 5 ≡ some 4
unfolding fd_alloc_file fd_duplicate grown alloc
dup_min = refl

dup_at : dup (pos 0) (pos 10) 1 ≡ some 10
unfolding fd_alloc_file fd_duplicate grown alloc
dup_at = refl
