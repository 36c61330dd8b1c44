-- ===== src/Sched/Select.antt =====
-- `select_next` (kernel/core/sched.c) against one list of the threads that wait for the processor.
use yak_kernel.Prelude.{
  ℕ, ◌≡◌, refl, sym, ap, ◌∙◌, true, false, List, [], ◌∷◌, ◌++◌, arith, inl, inr, Option-cases,
  Option, some, none, ltb,
}
use yak_kernel.Sched.{
  State, mask_bits, top_bit, take_first, select_next, select_current, select_at, select_idle,
  swap_queues, set_status, set_current_rq, set_idle_rq, thread_switching,
}
use yak_kernel.Sched.Queues.{
  levels, IsExact, levels-none, levels-some, levels-take, take_first-IsExact,
}

-- The threads that wait for the processor: those of the current run queue by priority, then those of the
-- next one by priority, then those of the idle queue.
abbrev pub order : State → List ℕ
order s =
    levels mask_bits s.cpu.current_rq.queues
    ++ levels mask_bits s.cpu.next_rq.queues
    ++ s.cpu.idle_rq

abbrev pub IsReady : State → Type 0
IsReady s = IsExact s.cpu.current_rq × IsExact s.cpu.next_rq

-- A thread has been taken off the front of the list.
abbrev pub Takes : ℕ → List ℕ → State → Option (Option ℕ × State) → Type 0
Takes t rest s r =
    (s' : State) × (r ≡ some (some t, s'))
    × (order s' ≡ rest)
    × IsReady s'
    × (s'.cpu.next_thread ≡ s.cpu.next_thread)

-- What selecting does to the list of the threads that wait.
abbrev pub Picks : List ℕ → State → Option (Option ℕ × State) → Type 0
Picks [] s r = r ≡ some (none, s)
Picks (t ∷ rest) s r = Takes t rest s r

-- The current run queue has a bit set.
select_current-Takes :
    (s : State) (k : ℕ)
    → IsReady s
    → top_bit mask_bits s.cpu.current_rq.ready_mask ≡ some k
    → (t : ℕ) × (rest : List ℕ) × (order s ≡ t ∷ rest) × Takes t rest s (select_current 0 k s)
select_current-Takes s k (x, y) e =
    let (lt, on, at) = levels-some mask_bits s.cpu.current_rq k x e in
    pick (s.cpu.current_rq.queues k) refl on at
  where
    never_above : ltb k 0 ≡ false
    never_above = ground arith

    pick :
        (ts : List ℕ)
        → s.cpu.current_rq.queues k ≡ ts
        → s.cpu.current_rq.ready_mask k ≡ true
        → levels mask_bits s.cpu.current_rq.queues
          ≡ s.cpu.current_rq.queues k ++ levels k s.cpu.current_rq.queues
        → (t : ℕ) × (rest : List ℕ) × (order s ≡ t ∷ rest) × Takes t rest s (select_current 0 k s)
    pick [] q on at = absurd (ground (arith, x k, q, on))
    pick (t ∷ rest) q on at = (
      t,
      rest
          ++ levels k s.cpu.current_rq.queues
          ++ levels mask_bits s.cpu.next_rq.queues
          ++ s.cpu.idle_rq,
      rw (at, q) refl,
      (
        set_status t thread_switching (set_current_rq (take_first k rest s.cpu.current_rq) s),
        rw (never_above, select_at, q) refl,
        ap (λ ts. ts ++ levels mask_bits s.cpu.next_rq.queues ++ s.cpu.idle_rq)
            (levels-take mask_bits s.cpu.current_rq k rest x e),
        (take_first-IsExact s.cpu.current_rq k t rest q x, y),
        refl,
      ),
    )

Takes-Picks :
    (s : State) (r : Option (Option ℕ × State))
    → (t : ℕ) × (rest : List ℕ) × (order s ≡ t ∷ rest) × Takes t rest s r
    → Picks (order s) s r
Takes-Picks s r (t, rest, e, w) = rw e w

append-nil : (ts : List ℕ) → ts ++ [] ≡ ts
append-nil [] = refl
append-nil (t ∷ ts) = ap (λ us. t ∷ us) (append-nil ts)

-- Behind an empty current run queue, the next one takes its place.
order-swap_queues :
    (s : State) → levels mask_bits s.cpu.current_rq.queues ≡ [] → order (swap_queues s) ≡ order s
order-swap_queues s e = rw (e, append-nil (levels mask_bits s.cpu.next_rq.queues)) refl

select_idle-Picks :
    (s : State)
    → IsReady s
    → levels mask_bits s.cpu.current_rq.queues ≡ []
    → levels mask_bits s.cpu.next_rq.queues ≡ []
    → Picks (order s) s (select_idle s)
select_idle-Picks s ready c n = pick (s.cpu.idle_rq) refl
  where
    pick : (ts : List ℕ) → s.cpu.idle_rq ≡ ts → Picks (order s) s (select_idle s)
    pick [] q = rw (c, n, q) refl
    pick (t ∷ rest) q =
        rw (c, n, q)
          (set_status t thread_switching (set_idle_rq rest s), refl, rw (c, n) refl, ready, refl)

-- `select_next` called with priority 0, as `sched_yield` calls it, returns with no assertion failed where
-- the bits of both run queues are exact. It takes the first thread of the list of those that wait for the
-- processor, which goes by priority in the current run queue, then by priority in the next one, and then
-- through the idle queue. It leaves the rest of the list, and the bits exact, and selects none exactly if
-- the list is empty.
pub select_next-refines : (s : State) → IsReady s → Picks (order s) s (select_next 0 s)
unfolding select_next
select_next-refines s (x, y) = elim (Option-cases (top_bit mask_bits s.cpu.current_rq.ready_mask)) [
  | inr (k, e) ↦
      rw (select_next, e) (Takes-Picks s (select_current 0 k s) (select_current-Takes s k (x, y) e))
  | inl c ↦ elim (Option-cases (top_bit mask_bits s.cpu.next_rq.ready_mask)) [
    | inr (k, e) ↦
        let (t, rest, at, w) = select_current-Takes (swap_queues s) k (y, x) e in
        rw (select_next, c, e)
          (Takes-Picks s (select_current 0 k (swap_queues s)) (
            t,
            rest,
            sym (order-swap_queues s (levels-none mask_bits s.cpu.current_rq x c)) ∙ at,
            w,
          ))
    | inl n ↦
        rw (select_next, c, n)
          (select_idle-Picks s (x, y) (levels-none mask_bits s.cpu.current_rq x c)
            (levels-none mask_bits s.cpu.next_rq y n))
  ]
]
