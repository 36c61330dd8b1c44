-- ===== src/Rwlock/Tests.antt =====
-- Runs of kernel/core/rwlock.c, and the theorems at concrete interleavings.
use yak_kernel.Prelude.{ℕ, ◌+◌, ◌^◌, ◌<◌, ◌≡◌, refl, ◌≢◌, [], ◌∷◌, none, some, arith, get_elem?}
use yak_kernel.Rwlock.{
  Rwlock, Pc, ran, step, idle, call_exclusive, call_release, go, writer, shared_load, shared_wait,
  reader_count, exclusive_add, exclusive_load, exclusive_cas, exclusive_check, exclusive_store,
  release_count, release_owner, release_state, rwlock_init,
}
use yak_kernel.Rwlock.Count.{owns, marks, shares}
use yak_kernel.Rwlock.Reach.{System, start, by_thread, Reach, here, next}
use yak_kernel.Rwlock.Exclusion.{Exclusive-excludes, fields_exact}

-- Thread 0 takes the exclusive lock, and gives it back.
abbrev counted : Rwlock
counted = record { state = 0; exclusive_count = 1; exclusive_owner = none }

abbrev marked : Rwlock
marked = record { state = 2 ^ 31; exclusive_count = 1; exclusive_owner = none }

abbrev taken : Rwlock
taken = record { state = 2 ^ 31; exclusive_count = 1; exclusive_owner = some 0 }

abbrev at_write : System
at_write = record { lock = taken; pcs = writer ∷ idle ∷ [] }

write_run : Reach (start 2) at_write
unfolding step
write_run =
    next
      (next
        (next
          (next
            (next
              (next here (by_thread 0 call_exclusive idle exclusive_add rwlock_init refl refl refl))
              (by_thread 0 go exclusive_add exclusive_load counted refl refl refl))
            (by_thread 0 go exclusive_load exclusive_cas counted refl refl refl))
          (by_thread 0 go exclusive_cas exclusive_check marked refl refl refl))
        (by_thread 0 go exclusive_check exclusive_store marked refl refl refl))
      (by_thread 0 go exclusive_store writer taken refl refl refl)

abbrev released : Rwlock
released = record { state = 2 ^ 31; exclusive_count = 0; exclusive_owner = some 0 }

abbrev disowned : Rwlock
disowned = record { state = 2 ^ 31; exclusive_count = 0; exclusive_owner = none }

abbrev at_end : System
at_end = record { lock = rwlock_init; pcs = idle ∷ idle ∷ [] }

release_run : Reach (start 2) at_end
unfolding step
release_run =
    next
      (next
        (next (next write_run (by_thread 0 call_release writer release_count taken refl refl refl))
          (by_thread 0 go release_count release_owner released refl refl refl))
        (by_thread 0 go release_owner release_state disowned refl refl refl))
      (by_thread 0 go release_state idle rwlock_init refl refl refl)

two_small : 2 < 2 ^ 31
two_small = omega arith

zero_ne_one : (λ (n : ℕ). n) 0 ≢ 1
zero_ne_one = omega arith

-- While the exclusive lock is held, a thread that wants a shared lock waits.
shared_blocked : step 1 go shared_load taken ≡ ran taken shared_wait
unfolding step
shared_blocked = refl

Exclusive-excludes_example : (owns idle + marks idle ≡ 0) × (shares idle ≡ 0)
Exclusive-excludes_example =
    Exclusive-excludes 2 at_write two_small write_run 0 1 writer idle zero_ne_one refl refl refl

fields_exact_example :
    (reader_count taken.state ≡ 0)
    × (taken.exclusive_count ≡ 1)
    × ((i : ℕ) (pc : Pc)
        → get_elem? at_write.pcs i ≡ some pc
        → owns pc ≡ 1
        → taken.exclusive_owner ≡ some i)
fields_exact_example = fields_exact 2 at_write two_small write_run
