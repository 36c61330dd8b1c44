-- ===== src/Rwlock/Exclusion.antt =====
-- What any number of threads on one lock of kernel/core/rwlock.c can rely on, in every interleaving.
use yak_kernel.Prelude.{ℕ, ◌+◌, ◌^◌, ◌<◌, ◌≡◌, refl, ◌≢◌, some, arith, get_elem?, replicate, subst}
use yak_kernel.Rwlock.{Pc, idle, rwlock_init, reader_count}
use yak_kernel.Rwlock.Count.{
  shares, owns, marks, counts, sum, sum-le-length, two-le-sum, shares-le-one,
}
use yak_kernel.Rwlock.Invariant.{Agrees}
use yak_kernel.Rwlock.Reach.{System, start, Reach, IsSound, start-IsSound, Reach-IsSound, sum-idle}

-- The thread is stored as the owner, or has set `RWLOCK_EXCLUSIVE` itself.
abbrev pub Exclusive : Pc → Type 0
Exclusive pc = owns pc + marks pc ≡ 1

module _ (n : ℕ) (s : System) (few : n < 2 ^ 31) (r : Reach (start n) s) where
  sound : IsSound s
  sound = Reach-IsSound r (start-IsSound n few)

  -- In every state that fewer than 2 ^ 31 threads reach, while one thread is on the exclusive side of
  -- the lock, every other thread is off it and counted as no reader.
  pub Exclusive-excludes :
      (i j : ℕ) (pc pc' : Pc)
      → i ≢ j
      → get_elem? s.pcs i ≡ some pc
      → get_elem? s.pcs j ≡ some pc'
      → Exclusive pc
      → (owns pc' + marks pc' ≡ 0) × (shares pc' ≡ 0)
  Exclusive-excludes i j pc pc' ne at at' ex = ground (
    arith,
    two-le-sum owns s.pcs i j pc pc' ne at at',
    two-le-sum marks s.pcs i j pc pc' ne at at',
    two-le-sum shares s.pcs i j pc pc' ne at at',
    two-le-sum (λ q. owns q + marks q) s.pcs i j pc pc' ne at at',
    sound.agrees.single,
    sound.agrees.excludes,
  )

  -- In every state that fewer than 2 ^ 31 threads reach from a lock as `rwlock_init` leaves it, the fields are
  -- exact: the low 31 bits of `state` are the number of threads with a shared lock, `exclusive_count` is
  -- the number of threads in or at the exclusive lock, and the owner, once stored, is the thread that
  -- holds it.
  pub fields_exact :
      (reader_count s.lock.state ≡ sum shares s.pcs)
      × (s.lock.exclusive_count ≡ sum counts s.pcs)
      × ((i : ℕ) (pc : Pc)
          → get_elem? s.pcs i ≡ some pc
          → owns pc ≡ 1
          → s.lock.exclusive_owner ≡ some i)
  fields_exact =
      let a = sound.agrees in
      let below : sum shares s.pcs < 2 ^ 31 =
        omega (arith, sound.few, sum-le-length shares shares-le-one s.pcs) in
      (ground (arith, a.state_is, a.single), a.count_is, sound.owner_is)

  -- When every thread is back outside, the lock is as `rwlock_init` left it.
  pub idle-fresh : s.pcs ≡ replicate n idle → s.lock ≡ rwlock_init
  idle-fresh e =
      let a : Agrees s.lock 0 0 0 0 =
        subst (λ x. x)
          (rw
            (
              e,
              sum-idle shares refl n,
              sum-idle owns refl n,
              sum-idle marks refl n,
              sum-idle counts refl n,
            )
            refl)
          sound.agrees in
      ground (arith, a.state_is, a.count_is, a.no_owner refl)
