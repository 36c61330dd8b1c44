-- ===== src/Sched.antt =====
-- kernel/core/sched.c: the run queues of a processor and what moves threads through them. Threads and
-- processors are known by numbers. Each function holds the processor's `sched_lock`. A uint32_t
-- `ready_mask` is the function of its 32 bits. `none` is a failed assertion.
pub mod Queues
pub mod Select
pub mod Join
pub mod Insert
mod Tests
use yak_kernel.Prelude.{
  ℕ, zero, suc, ◌+◌, ◌-◌, ◌%◌, Bool, true, false, ◌&&◌, ◌||◌, not, List, [], ◌∷◌, ◌++◌, Option,
  none, some, ltb, leb, ◌==◌, if◌then◌else◌, put, length, get_elem?, add_size,
}

-- `enum thread_state`
pub data ThreadState : Type 0 where
  thread_ready thread_running thread_next thread_switching thread_terminating thread_waiting :
      ThreadState
  thread_undefined : ThreadState

-- The fields of `struct kthread` that scheduling is about.
pub record Kthread : Type 0 where
  pub priority : ℕ
  pub status : ThreadState
  pub last_cpu : Option ℕ
  pub affinity_cpu : Option ℕ

-- `struct runqueue`
pub record Runqueue : Type 0 where
  pub ready_mask : ℕ → Bool
  pub queues : ℕ → List ℕ

-- The fields of `struct cpu` and of its `struct sched`. The two run queues are the ones that `current_rq` and
-- `next_rq` point to.
pub record Cpu : Type 0 where
  pub current_rq : Runqueue
  pub next_rq : Runqueue
  pub idle_rq : List ℕ
  pub idle_thread : ℕ
  pub current_thread : ℕ
  pub next_thread : Option ℕ

-- A processor with the threads that it may touch.
pub record State : Type 0 where
  pub cpu : Cpu
  pub threads : ℕ → Kthread

-- kernel/include/yak/sched.h
abbrev pub prio_time_share : ℕ
prio_time_share = 1

abbrev pub prio_real_time : ℕ
prio_real_time = 17

abbrev pub prio_max : ℕ
prio_max = 32

abbrev pub mask_bits : ℕ
mask_bits = 32

-- `31 - __builtin_clz(mask)`: the highest bit below `n` that is set, if one is.
unfoldable pub top_bit : ℕ → (ℕ → Bool) → Option ℕ
top_bit zero mask = none
top_bit (suc n) mask = if mask n then some n else top_bit n mask

abbrev pub is_empty : List ℕ → Bool
is_empty [] = true
is_empty (t ∷ ts) = false

abbrev pub set_status : ℕ → ThreadState → State → State
set_status t st s = record s { threads = put s.threads t (record (s.threads t) { status = st }) }

-- The first thread off a queue, with its bit cleared where the queue is empty.
abbrev pub take_first : ℕ → List ℕ → Runqueue → Runqueue
take_first k rest rq = record {
  ready_mask = if is_empty rest then put rq.ready_mask k false else rq.ready_mask;
  queues = put rq.queues k rest;
}

abbrev pub set_current_rq : Runqueue → State → State
set_current_rq rq s = record s { cpu = record (s.cpu) { current_rq = rq } }

abbrev pub set_idle_rq : List ℕ → State → State
set_idle_rq ts s = record s { cpu = record (s.cpu) { idle_rq = ts } }

-- From the queue of the priority that the mask has found.
abbrev pub select_at : ℕ → State → Option (Option ℕ × State)
select_at k s = elim (s.cpu.current_rq.queues k) [
  | [] ↦ none
  | t ∷ rest ↦ some (
    some t,
    set_status t thread_switching (set_current_rq (take_first k rest s.cpu.current_rq) s),
  )
]

abbrev pub select_current : ℕ → ℕ → State → Option (Option ℕ × State)
select_current priority k s = if ltb k priority then some (none, s) else select_at k s

abbrev pub select_idle : State → Option (Option ℕ × State)
select_idle s = elim (s.cpu.idle_rq) [
  | [] ↦ some (none, s)
  | t ∷ rest ↦ some (some t, set_status t thread_switching (set_idle_rq rest s))
]

abbrev pub swap_queues : State → State
swap_queues s = record s {
  cpu = record (s.cpu) { current_rq = s.cpu.next_rq; next_rq = s.cpu.current_rq };
}

-- Behind the swap of the two run queues `select_next` calls itself, and finds a bit set at once.
unfoldable pub select_next : ℕ → State → Option (Option ℕ × State)
select_next priority s = elim (top_bit mask_bits s.cpu.current_rq.ready_mask) [
  | some k ↦ select_current priority k s
  | none ↦ elim (top_bit mask_bits s.cpu.next_rq.ready_mask) [
    | some k ↦ select_current priority k (swap_queues s)
    | none ↦ select_idle s
  ]
]

-- `queues[thread->priority - 1]`, at the tail, with its bit.
abbrev pub rq_insert : ℕ → ℕ → Runqueue → Runqueue
rq_insert priority t rq = record {
  ready_mask = put rq.ready_mask (priority - 1) true;
  queues = put rq.queues (priority - 1) (rq.queues (priority - 1) ++ t ∷ []);
}

abbrev pub insert_current : ℕ → State → State
insert_current t s = set_current_rq (rq_insert ((s.threads t).priority) t s.cpu.current_rq) s

abbrev pub insert_next : ℕ → State → State
insert_next t s = record s {
  cpu = record (s.cpu) { next_rq = rq_insert ((s.threads t).priority) t s.cpu.next_rq };
}

abbrev pub insert_idle : ℕ → State → State
insert_idle t s = set_idle_rq (s.cpu.idle_rq ++ t ∷ []) s

-- `next ? next : current`
abbrev pub rival : Cpu → ℕ
rival c = elim (c.next_thread) [ none ↦ c.current_thread | some n ↦ n ]

-- Where a thread goes that may not preempt, and `none` where it may.
unfoldable pub queue_up : ℕ → State → Option State
queue_up t s =
    let prio = (s.threads t).priority in
    if leb prio_real_time prio
    then if leb prio ((s.threads (rival s.cpu)).priority) then some (insert_current t s) else none
    else if s.cpu.idle_thread == rival s.cpu
    then none
    else if prio == prio_time_share
    then some (insert_next t s)
    else some (insert_idle t s)

abbrev pub made_ready : ℕ → ℕ → State → State
made_ready cpu t s = record s {
  threads = put s.threads t (record (s.threads t) { last_cpu = some cpu; status = thread_ready });
}

abbrev pub made_next : ℕ → State → State
made_next t s =
    set_status t thread_next (record s { cpu = record (s.cpu) { next_thread = some t } })

-- The loop of `sched_insert` on fuel, and whether it ends in a software interrupt.
unfoldable pub insert_loop : ℕ → ℕ → ℕ → State → Option (Bool × State)
unfolding queue_up
insert_loop zero cpu t s = none
insert_loop (suc n) cpu t s = elim (queue_up t (made_ready cpu t s)) [
  | some s' ↦ some (false, s')
  | none ↦ elim (s.cpu.next_thread) [
    | none ↦ some (true, made_next t (made_ready cpu t s))
    | some old ↦ insert_loop n cpu old (made_next t (made_ready cpu t s))
  ]
]

-- Two turns are enough.
unfoldable pub sched_insert : ℕ → ℕ → State → Option (Bool × State)
unfolding insert_loop
sched_insert cpu t s = insert_loop 2 cpu t s

-- What `sched_yield` switches to: the thread that was to be next, the one selected, or the idle thread.
unfoldable pub sched_yield : State → Option (ℕ × State)
unfolding select_next
sched_yield s = elim (s.cpu.next_thread) [
  | some t ↦
      some (
        t,
        set_status t thread_switching (record s { cpu = record (s.cpu) { next_thread = none } }),
      )
  | none ↦ elim (select_next 0 s) [
    | none ↦ none
    | some (none, s') ↦ some (s'.cpu.idle_thread, s')
    | some (some t, s') ↦ some (t, s')
  ]
]

-- What `sched_preempt` switches to, if anything.
unfoldable pub sched_preempt : ℕ → State → Option (Option ℕ × State)
unfolding sched_insert
sched_preempt cpu s = elim (s.cpu.next_thread) [
  | none ↦ some (none, s)
  | some t ↦
      let s' =
        set_status t thread_switching (record s { cpu = record (s.cpu) { next_thread = none } }) in
      let back = sched_insert cpu s'.cpu.current_thread s' in
      if s'.cpu.current_thread == s'.cpu.idle_thread
      then some (some t, set_status s'.cpu.current_thread thread_ready s')
      else elim back [ none ↦ none | some (kicked, s'') ↦ some (some t, s'') ]
]

-- `find_cpu`, with the processors of `cpumask_active` in order and `count`.
abbrev pub find_cpu : List ℕ → ℕ → ℕ → Option (ℕ × ℕ)
find_cpu active here count =
    if length active == 0 then none else elim (get_elem? active (count % length active)) [
      | none ↦ some (here, add_size count 1)
      | some c ↦ some (c, add_size count 1)
    ]
