-- ===== src/Sched/Tests.antt =====
-- A processor with threads in its queues (kernel/core/sched.c).
use yak_kernel.Prelude.{
  ℕ, ◌≡◌, refl, Bool, true, ◌==◌, if◌then◌else◌, [], ◌∷◌, arith, Option, some, none,
}
use yak_kernel.Sched.{thread_ready, Runqueue, State, select_next, sched_insert}
use yak_kernel.Sched.Queues.{levels}
use yak_kernel.Sched.Select.{IsReady, Takes, select_next-refines}
use yak_kernel.Sched.Insert.{HasPriorities, Inserts, sched_insert-returns}

-- Threads 1, 2 and 6 have priority 20, 3 has 18, and thread 7 has 25; the idle thread is 0.
abbrev priority_of : ℕ → ℕ
priority_of t =
    if t == 1
    then 20
    else if t == 2
    then 20
    else if t == 3
    then 18
    else if t == 6
    then 20
    else if t == 7
    then 25
    else if t == 4
    then 1
    else 0

abbrev current : Runqueue
current = record {
  ready_mask = λ k. if k == 19 then true else k == 17;
  queues = λ k. if k == 19 then 2 ∷ [] else if k == 17 then 3 ∷ [] else [];
}

abbrev shared : Runqueue
shared = record { ready_mask = λ k. k == 0; queues = λ k. if k == 0 then 4 ∷ [] else [] }

-- Thread 1 runs, and 6 is to be next.
abbrev busy : State
busy = record {
  cpu = record {
    current_rq = current;
    next_rq = shared;
    idle_rq = 5 ∷ [];
    idle_thread = 0;
    current_thread = 1;
    next_thread = some 6;
  };
  threads = λ t. record {
    priority = priority_of t;
    status = thread_ready;
    last_cpu = none;
    affinity_cpu = none;
  };
}

busy-IsReady : IsReady busy
busy-IsReady = (λ k. ground arith, λ k. ground arith)

busy-HasPriorities : HasPriorities busy
busy-HasPriorities = record { bounded = λ t. ground arith; idle = refl }

select_next-refines_example : Takes 2 (3 ∷ 4 ∷ 5 ∷ []) busy (select_next 0 busy)
unfolding levels
select_next-refines_example = select_next-refines busy busy-IsReady

-- Thread 7 takes the place of thread 6, which goes back to its queue.
sched_insert-returns_example : Inserts 7 busy (sched_insert 0 7 busy)
sched_insert-returns_example =
    sched_insert-returns 0 7 busy busy-HasPriorities busy-IsReady (λ e. absurd (omega (arith, e)))

abbrev next_of : Option (Bool × State) → Option ℕ
next_of none = none
next_of (some (kicked, s)) = s.cpu.next_thread

seven_is_next : next_of (sched_insert 0 7 busy) ≡ some 7
unfolding sched_insert
seven_is_next = refl
