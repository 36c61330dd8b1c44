-- ===== src/Rwlock/Invariant.antt =====
-- One step of kernel/core/rwlock.c keeps the lock's fields in accord with where the threads are.
use yak_kernel.Prelude.{ℕ, ◌+◌, ◌-◌, ◌*◌, ◌^◌, ◌≤◌, ◌<◌, ◌≡◌, ◌≢◌, ◌⊎◌, none, some, arith}
use yak_kernel.Rwlock.{
  Rwlock, Pc, Choice, ran, assert_failed, step, idle, call_shared, call_exclusive, call_release,
  call_upgrade, wait_ok, wait_error, go, rwlock_exclusive,
}
use yak_kernel.Rwlock.Count.{shares, owns, marks, counts, loaded}

-- The lock, with `r` shared locks, `o` stored owners, `m` threads that set `RWLOCK_EXCLUSIVE` and are
-- not stored, and `c` threads in `exclusive_count`.
pub record Agrees (l : Rwlock) (r o m c : ℕ) : Type 0 where
  pub state_is : l.state ≡ r + rwlock_exclusive * (o + m)
  pub single : o + m ≤ 1
  pub excludes : (o + m ≡ 0) ⊎ (r ≡ 0)
  pub count_is : l.exclusive_count ≡ c
  pub no_owner : o ≡ 0 → l.exclusive_owner ≡ none

-- The facts about one thread that a step uses: its part of the sums, and that the threads are too few
-- to overflow them.
pub record Part (thread : ℕ) (pc : Pc) (l : Rwlock) (r o m c : ℕ) : Type 0 where
  pub shares_in : (shares pc ≤ r) × (r < 2 ^ 31 - 1 + shares pc)
  pub owns_in : owns pc ≤ o
  pub marks_in : marks pc ≤ m
  pub counts_in : (counts pc ≤ c) × (c < 2 ^ 32 - 1 + counts pc)
  pub owner_is : owns pc ≡ 1 → l.exclusive_owner ≡ some thread
  pub small : loaded pc < rwlock_exclusive

pub step-Agrees :
    (thread : ℕ) (choice : Choice) (pc : Pc) (l l' : Rwlock) (pc' : Pc) (r o m c r' o' m' c' : ℕ)
    → Agrees l r o m c
    → Part thread pc l r o m c
    → step thread choice pc l ≡ ran l' pc'
    → r' + shares pc ≡ r + shares pc'
    → o' + owns pc ≡ o + owns pc'
    → m' + marks pc ≡ m + marks pc'
    → c' + counts pc ≡ c + counts pc'
    → Agrees l' r' o' m' c'
unfolding step
step-Agrees thread call_shared idle l l' pc' r o m c r' o' m' c' a p e hr ho hm hc = ground arith
step-Agrees thread call_exclusive idle l l' pc' r o m c r' o' m' c' a p e hr ho hm hc = ground arith
step-Agrees thread call_release idle l l' pc' r o m c r' o' m' c' a p e hr ho hm hc = ground arith
step-Agrees thread call_upgrade idle l l' pc' r o m c r' o' m' c' a p e hr ho hm hc = ground arith
step-Agrees thread wait_ok idle l l' pc' r o m c r' o' m' c' a p e hr ho hm hc = ground arith
step-Agrees thread wait_error idle l l' pc' r o m c r' o' m' c' a p e hr ho hm hc = ground arith
step-Agrees thread go idle l l' pc' r o m c r' o' m' c' a p e hr ho hm hc = ground arith
step-Agrees thread choice pc l l' pc' r o m c r' o' m' c' a p e hr ho hm hc = ground arith

-- No assertion of the file fails.
pub step-ne-assert_failed :
    (thread : ℕ) (choice : Choice) (pc : Pc) (l : Rwlock) (r o m c : ℕ)
    → Agrees l r o m c
    → Part thread pc l r o m c
    → step thread choice pc l ≢ assert_failed
unfolding step
step-ne-assert_failed thread call_shared idle l r o m c a p = ground arith
step-ne-assert_failed thread call_exclusive idle l r o m c a p = ground arith
step-ne-assert_failed thread call_release idle l r o m c a p = ground arith
step-ne-assert_failed thread call_upgrade idle l r o m c a p = ground arith
step-ne-assert_failed thread wait_ok idle l r o m c a p = ground arith
step-ne-assert_failed thread wait_error idle l r o m c a p = ground arith
step-ne-assert_failed thread go idle l r o m c a p = ground arith
step-ne-assert_failed thread choice pc l r o m c a p = ground arith

-- The thread's own bookkeeping after its step: the owner that it stored, and what it loaded.
pub step-Part :
    (thread : ℕ) (choice : Choice) (pc : Pc) (l l' : Rwlock) (pc' : Pc) (r o m c : ℕ)
    → Agrees l r o m c
    → Part thread pc l r o m c
    → step thread choice pc l ≡ ran l' pc'
    → (owns pc' ≡ 1 → l'.exclusive_owner ≡ some thread) × (loaded pc' < rwlock_exclusive)
unfolding step
step-Part thread call_shared idle l l' pc' r o m c a p e = ground arith
step-Part thread call_exclusive idle l l' pc' r o m c a p e = ground arith
step-Part thread call_release idle l l' pc' r o m c a p e = ground arith
step-Part thread call_upgrade idle l l' pc' r o m c a p e = ground arith
step-Part thread wait_ok idle l l' pc' r o m c a p e = ground arith
step-Part thread wait_error idle l l' pc' r o m c a p e = ground arith
step-Part thread go idle l l' pc' r o m c a p e = ground arith
step-Part thread choice pc l l' pc' r o m c a p e = ground arith

-- The owner changes only at the hands of the thread that is stored, or while none is.
pub step-owner :
    (thread : ℕ) (choice : Choice) (pc : Pc) (l l' : Rwlock) (pc' : Pc)
    → step thread choice pc l ≡ ran l' pc'
    → (l'.exclusive_owner ≡ l.exclusive_owner) ⊎ (1 ≤ owns pc + marks pc)
unfolding step
step-owner thread call_shared idle l l' pc' e = ground arith
step-owner thread call_exclusive idle l l' pc' e = ground arith
step-owner thread call_release idle l l' pc' e = ground arith
step-owner thread call_upgrade idle l l' pc' e = ground arith
step-owner thread wait_ok idle l l' pc' e = ground arith
step-owner thread wait_error idle l l' pc' e = ground arith
step-owner thread go idle l l' pc' e = ground arith
step-owner thread choice pc l l' pc' e = ground arith
