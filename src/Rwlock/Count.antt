-- ===== src/Rwlock/Count.antt =====
-- What each place in kernel/core/rwlock.c contributes to the fields of the lock, and sums over the
-- threads.
use yak_kernel.Prelude.{
  ℕ, zero, suc, ◌+◌, ◌≤◌, ◌≡◌, refl, List, [], ◌∷◌, arith, length, get_elem?, set, some, ap, ◌≢◌,
}
use yak_kernel.Rwlock.{
  Pc, shared_count, shared_cas, reader, shared_release, exclusive_load, exclusive_cas,
  exclusive_check, exclusive_store, exclusive_wait, exclusive_give_up, writer, release_count,
  release_owner, release_state, upgrade_load, upgrade_add, upgrade_cas, upgrade_sub,
  upgrade_release, upgrade_drop,
}

-- A shared lock that `state` counts.
abbrev pub shares : Pc → ℕ
shares reader = 1
shares shared_release = 1
shares upgrade_load = 1
shares (upgrade_add s) = 1
shares upgrade_cas = 1
shares upgrade_sub = 1
shares upgrade_release = 1
shares upgrade_drop = 1
shares _ = 0

-- The thread is stored as the owner.
abbrev pub owns : Pc → ℕ
owns writer = 1
owns release_count = 1
owns release_owner = 1
owns _ = 0

-- `RWLOCK_EXCLUSIVE` is set, and no owner stored.
abbrev pub marks : Pc → ℕ
marks exclusive_check = 1
marks exclusive_store = 1
marks release_state = 1
marks _ = 0

-- One of `exclusive_count`.
abbrev pub counts : Pc → ℕ
counts exclusive_load = 1
counts exclusive_cas = 1
counts exclusive_check = 1
counts exclusive_store = 1
counts exclusive_wait = 1
counts exclusive_give_up = 1
counts writer = 1
counts release_count = 1
counts upgrade_cas = 1
counts upgrade_sub = 1
counts _ = 0

-- The value of `state` that a thread on its way to a shared lock has loaded.
abbrev pub loaded : Pc → ℕ
loaded (shared_count s) = s
loaded (shared_cas s) = s
loaded _ = 0

abbrev pub sum : (Pc → ℕ) → List Pc → ℕ
sum f [] = 0
sum f (pc ∷ pcs) = f pc + sum f pcs

pub sum-set :
    (f : Pc → ℕ) (pcs : List Pc) (i : ℕ) (pc pc' : Pc)
    → get_elem? pcs i ≡ some pc
    → sum f (set pcs i pc') + f pc ≡ sum f pcs + f pc'
sum-set f [] i pc pc' e = cc
sum-set f (x ∷ pcs) zero pc pc' e = ground arith
sum-set f (x ∷ pcs) (suc i) pc pc' e = omega (arith, sum-set f pcs i pc pc' e)

-- A sum of zeros and ones, with one thread's part known.
pub sum-le-length : (f : Pc → ℕ) → ((pc : Pc) → f pc ≤ 1) → (pcs : List Pc) → sum f pcs ≤ length pcs
sum-le-length f h [] = omega arith
sum-le-length f h (x ∷ pcs) = omega (arith, h x, sum-le-length f h pcs)

pub sum-le-others :
    (f : Pc → ℕ) (h : (pc : Pc) → f pc ≤ 1) (pcs : List Pc) (i : ℕ) (pc : Pc)
    → get_elem? pcs i ≡ some pc
    → (f pc ≤ sum f pcs) × (sum f pcs + 1 ≤ length pcs + f pc)
sum-le-others f h [] i pc e = absurd (cc)
sum-le-others f h (x ∷ pcs) zero pc e = ground (arith, sum-le-length f h pcs)
sum-le-others f h (x ∷ pcs) (suc i) pc e =
    let rest = sum-le-others f h pcs i pc e in (omega arith, omega (arith, h x))

pub shares-le-one : (pc : Pc) → shares pc ≤ 1
shares-le-one reader = omega arith
shares-le-one _ = omega arith

pub owns-le-one : (pc : Pc) → owns pc ≤ 1
owns-le-one writer = omega arith
owns-le-one _ = omega arith

pub marks-le-one : (pc : Pc) → marks pc ≤ 1
marks-le-one release_state = omega arith
marks-le-one _ = omega arith

pub counts-le-one : (pc : Pc) → counts pc ≤ 1
counts-le-one writer = omega arith
counts-le-one _ = omega arith

at-le-sum :
    (f : Pc → ℕ) (pcs : List Pc) (i : ℕ) (pc : Pc) → get_elem? pcs i ≡ some pc → f pc ≤ sum f pcs
at-le-sum f [] i pc e = absurd (cc)
at-le-sum f (x ∷ pcs) zero pc e = ground arith
at-le-sum f (x ∷ pcs) (suc i) pc e = omega (arith, at-le-sum f pcs i pc e)

pub two-le-sum :
    (f : Pc → ℕ) (pcs : List Pc) (i j : ℕ) (pc pc' : Pc)
    → i ≢ j
    → get_elem? pcs i ≡ some pc
    → get_elem? pcs j ≡ some pc'
    → f pc + f pc' ≤ sum f pcs
two-le-sum f [] i j pc pc' ne at at' = absurd (cc)
two-le-sum f (x ∷ pcs) zero zero pc pc' ne at at' = absurd (ne refl)
two-le-sum f (x ∷ pcs) zero (suc j) pc pc' ne at at' = ground (arith, at-le-sum f pcs j pc' at')
two-le-sum f (x ∷ pcs) (suc i) zero pc pc' ne at at' = ground (arith, at-le-sum f pcs i pc at)
two-le-sum f (x ∷ pcs) (suc i) (suc j) pc pc' ne at at' =
    omega (arith, two-le-sum f pcs i j pc pc' (λ e. ne (ap suc e)) at at')
