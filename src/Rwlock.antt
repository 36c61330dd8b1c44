-- ===== src/Rwlock.antt =====
-- kernel/core/rwlock.c, as the interleaved atomic steps of any number of threads. `step` is one step
-- of one thread: an atomic access to the lock, with the local code up to the next one. Inside an upgrade
-- the code panics when its wait for the exclusive lock fails; here it may go on as after any other.
pub mod Count
pub mod Invariant
pub mod Reach
pub mod Exclusion
mod Tests
use yak_kernel.Prelude.{
  ℕ, ◌+◌, ◌-◌, ◌%◌, ◌^◌, Bool, true, false, ◌||◌, Option, none, some, ltb, leb, ◌==◌, if◌then◌else◌,
  not,
}

-- The fields of `struct rwlock` that its protocol is about. `state` is a `uint32_t`, and
-- `exclusive_count` an `unsigned int`.
pub record Rwlock : Type 0 where
  pub state : ℕ
  pub exclusive_count : ℕ
  pub exclusive_owner : Option ℕ

abbrev pub rwlock_exclusive : ℕ
rwlock_exclusive = 2 ^ 31

-- `rwlock_init`
abbrev pub rwlock_init : Rwlock
rwlock_init = record { state = 0; exclusive_count = 0; exclusive_owner = none }

-- Where a thread is. A constructor that carries a number has loaded `state`.
pub data Pc : Type 0 where
  -- outside
  idle : Pc
  -- `rwlock_acquire_shared`: the load, the load of `exclusive_count`, the exchange, the wait
  shared_load : Pc
  shared_count : ℕ → Pc
  shared_cas : ℕ → Pc
  shared_wait : Pc
  -- a shared lock is held; in `rwlock_release_shared`, behind its first assertion
  reader : Pc
  shared_release : Pc
  -- `rwlock_acquire_exclusive`: the increment, the load, the exchange (after a load of 0), the
  -- assertion on the owner, its store, the wait, and the decrement after a wait that failed
  exclusive_add : Pc
  exclusive_load : Pc
  exclusive_cas : Pc
  exclusive_check : Pc
  exclusive_store : Pc
  exclusive_wait : Pc
  exclusive_give_up : Pc
  -- the exclusive lock is held
  writer : Pc
  -- `rwlock_release_exclusive`: the decrement, the store of the owner, the update of `state`
  release_count : Pc
  release_owner : Pc
  release_state : Pc
  -- `rwlock_upgrade_to_exclusive`: the load, the increment, the exchange, the decrement and,
  -- in two steps, the release of the shared lock
  upgrade_load : Pc
  upgrade_add : ℕ → Pc
  upgrade_cas : Pc
  upgrade_sub : Pc
  upgrade_release : Pc
  upgrade_drop : Pc

-- What the thread's next step does not itself decide: the operation that it calls, and how
-- `sched_wait` ends.
pub data Choice : Type 0 where
  call_shared call_exclusive call_release call_upgrade : Choice
  wait_ok wait_error : Choice
  go : Choice

-- A step leads on, or fails an assertion, or is not one that the thread can take.
pub data Outcome : Type 0 where
  ran : Rwlock → Pc → Outcome
  assert_failed : Outcome
  disabled : Outcome

-- `__atomic_fetch_add` and `__atomic_fetch_sub` on 32 bits
abbrev pub inc32 : ℕ → ℕ
inc32 n = (n + 1) % 2 ^ 32

abbrev pub dec32 : ℕ → ℕ
dec32 n = (n + 2 ^ 32 - 1) % 2 ^ 32

-- `state & RWLOCK_EXCLUSIVE`, and `state & ~RWLOCK_EXCLUSIVE`
abbrev pub is_exclusive : ℕ → Bool
is_exclusive s = leb rwlock_exclusive s

abbrev pub reader_count : ℕ → ℕ
reader_count s = s % rwlock_exclusive

-- The exchange of 0 or 1 for `RWLOCK_EXCLUSIVE`.
unfoldable pub take_exclusive : ℕ → Rwlock → Pc → Outcome
take_exclusive expected l otherwise =
    if l.state == expected
    then ran (record l { state = rwlock_exclusive }) exclusive_check
    else ran l otherwise

-- The first assertion of `rwlock_release_shared`, and the decrement with the second one.
unfoldable pub assert_shared : Rwlock → Pc → Outcome
assert_shared l next = if reader_count l.state == 0 then assert_failed else ran l next

unfoldable pub release_shared : Rwlock → Pc → Outcome
release_shared l next =
    if reader_count l.state == 0
    then assert_failed
    else ran (record l { state = dec32 l.state }) next

-- `assert(rwlock_fetch_owner(rwlock) == NULL)`, and `== curthread()`.
unfoldable pub assert_no_owner : Option ℕ → Rwlock → Outcome
assert_no_owner none l = ran l exclusive_store
assert_no_owner (some t) l = assert_failed

unfoldable pub assert_owner : ℕ → Option ℕ → Rwlock → Outcome
assert_owner thread none l = assert_failed
assert_owner thread (some t) l = if t == thread then ran l release_count else assert_failed

unfoldable pub step : ℕ → Choice → Pc → Rwlock → Outcome
unfolding take_exclusive assert_shared release_shared assert_no_owner assert_owner
step thread call_shared idle l = ran l shared_load
step thread call_exclusive idle l = ran l exclusive_add
step thread call_release reader l = assert_shared l shared_release
step thread call_release writer l = assert_owner thread l.exclusive_owner l
step thread call_upgrade reader l = ran l upgrade_load
step thread wait_ok shared_wait l = ran l shared_load
step thread wait_error shared_wait l = ran l idle
step thread wait_ok exclusive_wait l = ran l exclusive_load
step thread wait_error exclusive_wait l = ran l exclusive_give_up
step thread go shared_load l =
    ran l (if is_exclusive l.state then shared_wait else shared_count l.state)
step thread go (shared_count s) l =
    ran l (if l.exclusive_count == 0 then shared_cas s else shared_wait)
step thread go (shared_cas s) l =
    if l.state == s then ran (record l { state = inc32 s }) reader else ran l shared_wait
step thread go shared_release l = release_shared l idle
step thread go exclusive_add l =
    ran (record l { exclusive_count = inc32 l.exclusive_count }) exclusive_load
step thread go exclusive_load l = ran l (if l.state == 0 then exclusive_cas else exclusive_wait)
step thread go exclusive_cas l = take_exclusive 0 l exclusive_wait
step thread go exclusive_check l = assert_no_owner l.exclusive_owner l
step thread go exclusive_store l = ran (record l { exclusive_owner = some thread }) writer
step thread go exclusive_give_up l =
    ran (record l { exclusive_count = dec32 l.exclusive_count }) idle
step thread go release_count l =
    ran (record l { exclusive_count = dec32 l.exclusive_count }) release_owner
step thread go release_owner l = ran (record l { exclusive_owner = none }) release_state
step thread go release_state l = ran (record l { state = reader_count l.state }) idle
step thread go upgrade_load l = ran l (upgrade_add l.state)
step thread go (upgrade_add s) l =
    ran (record l { exclusive_count = inc32 l.exclusive_count })
      (if s == 1 then upgrade_cas else upgrade_sub)
step thread go upgrade_cas l = take_exclusive 1 l upgrade_sub
step thread go upgrade_sub l =
    ran (record l { exclusive_count = dec32 l.exclusive_count }) upgrade_release
step thread go upgrade_release l = assert_shared l upgrade_drop
step thread go upgrade_drop l = release_shared l exclusive_add
step thread _ _ l = disabled
