-- ===== src/Sched/Insert.antt =====
-- `sched_insert` (kernel/core/sched.c): what it does to the threads that wait for the processor.
use yak_kernel.Prelude.{
  ℕ, ◌+◌, ◌≤◌, ◌≡◌, ◌≢◌, refl, ap, Bool, true, false, ◌==◌, if◌then◌else◌, arith, inl, inr,
  Option-cases, Option, some, none,
}
use yak_kernel.Sched.{
  State, prio_max, prio_real_time, queue_up, made_ready, made_next, insert_loop, sched_insert,
  rival,
}
use yak_kernel.Sched.Select.{IsReady}
use yak_kernel.Sched.Join.{is_some, waits, Preempts, Joins, queue_up-Joins}

-- Priorities are at most `SCHED_PRIO_MAX`, and that of the idle thread is `SCHED_PRIO_IDLE`.
pub record HasPriorities (s : State) : Type 0 where
  pub bounded : (t : ℕ) → (s.threads t).priority ≤ prio_max
  pub idle : (s.threads s.cpu.idle_thread).priority ≡ 0

-- What `sched_insert` of a thread has done.
pub record IsInserted (t : ℕ) (s s' : State) (kicked : Bool) : Type 0 where
  pub ready : IsReady s'
  pub waiting : (u : ℕ) → waits u s' ≡ waits u s + (if t == u then 1 else 0)
  pub outranked :
      prio_real_time ≤ (s.threads t).priority
      → (s.threads t).priority ≤ (s'.threads (rival s'.cpu)).priority
  pub kicks : kicked ≡ true → s'.cpu.next_thread ≡ some t

module _ (cpu t : ℕ) (s : State) (has : HasPriorities s) (r : IsReady s) where
  same_priority : (u v : ℕ) → ((made_ready cpu u s).threads v).priority ≡ (s.threads v).priority
  same_priority u v = ground arith

  first_turn : (s' : State) → Joins t (made_ready cpu t s) (some s') → IsInserted t s s' false
  first_turn s' (q, y) = record {
    ready = q.ready;
    waiting = λ u. omega (arith, q.one_more u, ap (is_some u) q.same_next);
    outranked = λ h.
        rw (q.same_rival, q.same_threads)
          (omega (
            arith,
            y (omega (arith, h, same_priority t t)),
            same_priority t (rival s.cpu),
            same_priority t t,
            h,
          ));
    kicks = λ f. absurd (cc);
  }

  alone : s.cpu.next_thread ≡ none → IsInserted t s (made_next t (made_ready cpu t s)) true
  alone e = record {
    ready = r;
    waiting = λ u. ground (arith, e);
    outranked = λ h. ground arith;
    kicks = λ f. refl;
  }

  second_turn :
      (old : ℕ) (s' : State)
      → s.cpu.next_thread ≡ some old
      → Joins old (made_ready cpu old (made_next t (made_ready cpu t s))) (some s')
      → IsInserted t s s' false
  second_turn old s' e (q, y) = record {
    ready = q.ready;
    waiting = λ u. ground (arith, q.one_more u, ap (is_some u) q.same_next, ap (is_some u) e);
    outranked = λ h. rw (q.same_rival, q.same_threads) (ground arith);
    kicks = λ f. absurd (cc);
  }

  no_third_turn :
      (old : ℕ)
      → t ≢ s.cpu.idle_thread
      → s.cpu.next_thread ≡ some old
      → Preempts t (made_ready cpu t s)
      → ¬ Preempts old (made_ready cpu old (made_next t (made_ready cpu t s)))
  no_third_turn old ne e p q =
      let at : rival s.cpu ≡ old = rw e refl in
      ground (arith, at, ne, has.idle, has.bounded old, p, q)

abbrev pub Inserts : ℕ → State → Option (Bool × State) → Type 0
Inserts t s r = (kicked : Bool) × (s' : State) × (r ≡ some (kicked, s')) × IsInserted t s s' kicked

-- `sched_insert` of a thread other than the idle thread ends after at most two turns of its loop, where
-- priorities are at most `SCHED_PRIO_MAX`, that of the idle thread is `SCHED_PRIO_IDLE`, and the bits of
-- both run queues are exact. Then the thread waits for the processor once more, in a queue or as the next
-- thread, and every other thread as often as before; the bits are exact; and if the thread is a real-time
-- thread, the next thread or, without one, the running thread has no lower priority than it.
pub sched_insert-returns :
    (cpu t : ℕ) (s : State)
    → HasPriorities s
    → IsReady s
    → t ≢ s.cpu.idle_thread
    → Inserts t s (sched_insert cpu t s)
unfolding sched_insert insert_loop
sched_insert-returns cpu t s has r ne = turn (queue_up t (made_ready cpu t s)) refl (
    queue_up-Joins t (made_ready cpu t s) r
      (omega (arith, has.bounded t, same_priority cpu t s has r t t)))
  where
    twice :
        (old : ℕ)
        → ((made_ready cpu old (made_next t (made_ready cpu t s))).threads old).priority
          ≡ (s.threads old).priority
    twice old = ground arith

    again :
        (old : ℕ)
        → s.cpu.next_thread ≡ some old
        → (o : Option State)
        → queue_up old (made_ready cpu old (made_next t (made_ready cpu t s))) ≡ o
        → Joins old (made_ready cpu old (made_next t (made_ready cpu t s))) o
        → queue_up t (made_ready cpu t s) ≡ none
        → Preempts t (made_ready cpu t s)
        → Inserts t s (sched_insert cpu t s)
    again old n none o k e p = absurd (no_third_turn cpu t s has r old ne n p k)
    again old n (some s') o k e p = (
      false,
      s',
      rw (sched_insert, insert_loop, e, n, o) refl,
      second_turn cpu t s has r old s' n k,
    )

    turn :
        (o : Option State)
        → queue_up t (made_ready cpu t s) ≡ o
        → Joins t (made_ready cpu t s) o
        → Inserts t s (sched_insert cpu t s)
    turn (some s') e j =
        (false, s', rw (sched_insert, insert_loop, e) refl, first_turn cpu t s has r s' j)
    turn none e j = elim (Option-cases (s.cpu.next_thread)) [
      | inl n ↦ (
        true,
        made_next t (made_ready cpu t s),
        rw (sched_insert, insert_loop, e, n) refl,
        alone cpu t s has r n,
      )
      | inr (old, n) ↦
          again old n (queue_up old (made_ready cpu old (made_next t (made_ready cpu t s)))) refl
            (queue_up-Joins old (made_ready cpu old (made_next t (made_ready cpu t s))) r
              (omega (arith, has.bounded old, twice old)))
            e j
    ]
