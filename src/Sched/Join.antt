-- ===== src/Sched/Join.antt =====
-- kernel/core/sched.c: how `sched_insert` puts a thread on a queue.
use yak_kernel.Prelude.{
  ℕ, zero, suc, ◌+◌, ◌-◌, ◌≤◌, ◌<◌, ◌≡◌, refl, ◌==◌, ◌⊎◌, if◌then◌else◌, List, [], ◌∷◌, ◌++◌, arith,
  inl, inr, Bool-cases, put, Option, some, none, leb,
}
use yak_kernel.Sched.{
  State, mask_bits, prio_max, prio_real_time, prio_time_share, insert_current, insert_next,
  insert_idle, queue_up, rival,
}
use yak_kernel.Sched.Queues.{levels, rq_insert-IsExact, levels-put_above}
use yak_kernel.Sched.Select.{order, IsReady}

abbrev pub count : ℕ → List ℕ → ℕ
count u [] = 0
count u (t ∷ ts) = if t == u then suc (count u ts) else count u ts

abbrev pub is_some : ℕ → Option ℕ → ℕ
is_some u none = 0
is_some u (some t) = if t == u then 1 else 0

-- How often a thread waits for the processor, chosen as the next one included.
abbrev pub waits : ℕ → State → ℕ
waits u s = count u (order s) + is_some u s.cpu.next_thread

count-append : (u : ℕ) (ts us : List ℕ) → count u (ts ++ us) ≡ count u ts + count u us
count-append u [] us = omega arith
count-append u (t ∷ ts) us = ground (arith, count-append u ts us)

levels-insert :
    (n u : ℕ) (qs : ℕ → List ℕ) (k t : ℕ)
    → k < n
    → count u (levels n (put qs k (qs k ++ t ∷ [])))
      ≡ count u (levels n qs) + (if t == u then 1 else 0)
unfolding levels
levels-insert zero u qs k t lt = absurd (omega arith)
levels-insert (suc n) u qs k t lt = elim (Bool-cases (k == n)) [
  | inl same ↦
      let at : k ≡ n = ground arith in
      rw (same, at, levels-put_above n qs n (qs n ++ t ∷ []) (omega arith))
        (ground (
          arith,
          count-append u (qs n ++ t ∷ []) (levels n qs),
          count-append u (qs n) (t ∷ []),
          count-append u (qs n) (levels n qs),
        ))
  | inr apart ↦
      rw
        (
          apart,
          count-append u (qs n) (levels n (put qs k (qs k ++ t ∷ []))),
          count-append u (qs n) (levels n qs),
        )
        (omega (arith, levels-insert n u qs k t (ground arith)))
]

order-count :
    (u : ℕ) (s : State)
    → count u (order s)
      ≡ count u (levels mask_bits s.cpu.current_rq.queues)
        + count u (levels mask_bits s.cpu.next_rq.queues)
        + count u (s.cpu.idle_rq)
order-count u s = omega (
  arith,
  count-append u (levels mask_bits s.cpu.current_rq.queues ++ levels mask_bits s.cpu.next_rq.queues)
      (s.cpu.idle_rq),
  count-append u (levels mask_bits s.cpu.current_rq.queues) (levels mask_bits s.cpu.next_rq.queues),
)

-- Thread `t` has joined the threads that wait.
pub record IsQueued (t : ℕ) (s s' : State) : Type 0 where
  pub ready : IsReady s'
  pub one_more : (u : ℕ) → count u (order s') ≡ count u (order s) + (if t == u then 1 else 0)
  pub same_next : s'.cpu.next_thread ≡ s.cpu.next_thread
  pub same_rival : rival s'.cpu ≡ rival s.cpu
  pub same_threads : s'.threads ≡ s.threads

module _ (t : ℕ) (s : State) (r : IsReady s) where
  insert_current-IsQueued :
      (s.threads t).priority ≤ prio_max
      → 0 < (s.threads t).priority
      → IsQueued t s (insert_current t s)
  insert_current-IsQueued le pos = record {
    ready = (rq_insert-IsExact ((s.threads t).priority) t s.cpu.current_rq r.0, r.1);
    one_more = λ u. omega (
      arith,
      order-count u s,
      order-count u (insert_current t s),
      levels-insert mask_bits u s.cpu.current_rq.queues ((s.threads t).priority - 1) t
          (omega arith),
    );
    same_next = refl;
    same_rival = refl;
    same_threads = refl;
  }

  insert_next-IsQueued :
      (s.threads t).priority ≤ prio_max
      → 0 < (s.threads t).priority
      → IsQueued t s (insert_next t s)
  insert_next-IsQueued le pos = record {
    ready = (r.0, rq_insert-IsExact ((s.threads t).priority) t s.cpu.next_rq r.1);
    one_more = λ u. omega (
      arith,
      order-count u s,
      order-count u (insert_next t s),
      levels-insert mask_bits u s.cpu.next_rq.queues ((s.threads t).priority - 1) t (omega arith),
    );
    same_next = refl;
    same_rival = refl;
    same_threads = refl;
  }

  insert_idle-IsQueued : IsQueued t s (insert_idle t s)
  insert_idle-IsQueued = record {
    ready = r;
    one_more = λ u. ground (
      arith,
      order-count u s,
      order-count u (insert_idle t s),
      count-append u (s.cpu.idle_rq) (t ∷ []),
    );
    same_next = refl;
    same_rival = refl;
    same_threads = refl;
  }

-- Why a thread may preempt, and what holds where it may not.
abbrev pub Preempts : ℕ → State → Type 0
Preempts t s =
    ((prio_real_time ≤ (s.threads t).priority)
      × ((s.threads (rival s.cpu)).priority < (s.threads t).priority))
    ⊎ (((s.threads t).priority < prio_real_time) × (s.cpu.idle_thread ≡ rival s.cpu))

abbrev pub Yields : ℕ → State → Type 0
Yields t s =
    prio_real_time ≤ (s.threads t).priority
    → (s.threads t).priority ≤ (s.threads (rival s.cpu)).priority

abbrev pub Joins : ℕ → State → Option State → Type 0
Joins t s none = Preempts t s
Joins t s (some s') = IsQueued t s s' × Yields t s

pub queue_up-Joins :
    (t : ℕ) (s : State) → IsReady s → (s.threads t).priority ≤ prio_max → Joins t s (queue_up t s)
unfolding queue_up
queue_up-Joins t s r le = elim (Bool-cases (leb prio_real_time ((s.threads t).priority))) [
  | inl high ↦
      elim (Bool-cases (leb ((s.threads t).priority) ((s.threads (rival s.cpu)).priority))) [
        | inl weak ↦
            rw (queue_up, high, weak)
              (insert_current-IsQueued t s r le (ground (arith, high)), λ h. ground (arith, weak))
        | inr strong ↦
            rw (queue_up, high, strong) (inl (ground (arith, high), ground (arith, strong)))
      ]
  | inr low ↦ elim (Bool-cases (s.cpu.idle_thread == rival s.cpu)) [
    | inl idle ↦ rw (queue_up, low, idle) (inr (ground (arith, low), ground (arith, idle)))
    | inr busy ↦ elim (Bool-cases ((s.threads t).priority == prio_time_share)) [
      | inl shares ↦
          rw (queue_up, low, busy, shares)
            (insert_next-IsQueued t s r le (ground (arith, shares)), λ h. ground (arith, low))
      | inr other ↦
          rw (queue_up, low, busy, other) (insert_idle-IsQueued t s r, λ h. ground (arith, low))
    ]
  ]
]
