-- ===== src/Timer.antt =====
-- kernel/core/timer.c: timers, and the heap of the queued ones that each processor has. The heap is the
-- macros of the submodule vendor/pairing-heap: it is a parameter, `TimerHeap`. A timer's deadline does not
-- change while it is in a heap, so that an entry is given with its deadline. Each operation here holds the
-- locks that the code holds. `none` is a failed assertion, or a loop that is out of fuel.
pub mod Heap
pub mod Queued
pub mod Install
pub mod Update
mod Assoc
mod Tests
use yak_kernel.Prelude.{
  ℕ, zero, suc, ◌+◌, ◌^◌, ◌%◌, Bool, true, false, not, List, [], ◌∷◌, Option, none, some, ltb, ◌==◌,
  if◌then◌else◌, put, add_size,
}
use yak_kernel.Status.{Status, success, busy}

-- `timer_heap`: the operations of the macros on the heap of a processor.
pub record TimerHeap : Type 1 where
  pub Heap : Type 0
  pub empty : Heap
  pub insert : ℕ → ℕ → Heap → Heap
  pub remove : ℕ → Heap → Heap
  pub peek : Heap → Option ℕ
  pub pop : Heap → Heap

-- `TIMER_STATE_UNUSED` and so on
pub data TimerState : Type 0 where
  timer_unused timer_queued timer_canceled timer_fired : TimerState

abbrev pub is_queued : TimerState → Bool
is_queued timer_queued = true
is_queued _ = false

-- `struct timer`, with the counts of its header that the timers read or write.
pub record Timer : Type 0 where
  pub cpu : Option ℕ
  pub deadline : ℕ
  pub state : TimerState
  pub obj_signal_count : ℕ
  pub obj_wait_count : ℕ

-- What `plat_arm_timer` was last given, `none` as `TIMER_INFINITE`, is `armed`; `woken` are the timers whose
-- waiters were all signalled, the latest first, and `updates` the processors on which the update was enqueued.
pub record State (Heap : Type 0) : Type 0 where
  pub timers : ℕ → Timer
  pub heaps : ℕ → Heap
  pub armed : ℕ → Option ℕ
  pub woken : List ℕ
  pub updates : List ℕ

abbrev pub put_timer : {H : Type 0} → ℕ → Timer → State H → State H
put_timer i timer s = record s { timers = put s.timers i timer }

pub timer_init : {H : Type 0} → ℕ → State H → State H
timer_init i s =
    put_timer i
      (record {
        cpu = none;
        deadline = 0;
        state = timer_unused;
        obj_signal_count = 0;
        obj_wait_count = 0;
      })
      s

pub timer_reset : {H : Type 0} → ℕ → State H → Option (State H)
timer_reset i s =
    if is_queued ((s.timers i).state)
    then none
    else some (put_timer i (record (s.timers i) { obj_signal_count = 0 }) s)

module _ (heap : TimerHeap) where
  -- The part of `timer_uninstall` behind `keep lock order`, with both locks held: `c` is what `timer->cpu`
  -- was before.
  pub uninstall_locked : ℕ → ℕ → State heap.Heap → State heap.Heap
  uninstall_locked c i s =
      let timer = s.timers i in
      let same : Bool = elim timer.cpu [ none ↦ false | some d ↦ d == c ] in
      let out : Timer = record timer { cpu = none; state = timer_canceled } in
      if not same then s else if not (is_queued timer.state) then s else record s {
        timers = put s.timers i out;
        heaps = put s.heaps c (heap.remove i (s.heaps c));
      }

  -- `window` is what the other processors do while neither lock is held, such as firing the timer. A queued
  -- timer has a processor.
  pub timer_uninstall : (State heap.Heap → State heap.Heap) → ℕ → State heap.Heap → State heap.Heap
  timer_uninstall window i s =
      let timer = s.timers i in
      let out : State heap.Heap = elim timer.cpu [
        | none ↦ s
        | some c ↦ uninstall_locked c i (window s)
      ] in
      if not (is_queued timer.state) then s else out

  -- On the processor `c`, with the clock at `now`.
  pub timer_install : ℕ → ℕ → ℕ → ℕ → State heap.Heap → Status × State heap.Heap
  timer_install c now i ns_delta s =
      let timer = s.timers i in
      let deadline = add_size now ns_delta in
      let queued : Timer = record timer {
        cpu = some c;
        state = timer_queued;
        deadline = deadline;
        obj_signal_count = 0;
      } in
      let after = record s {
        timers = put s.timers i queued;
        heaps = put s.heaps c (heap.insert deadline i (s.heaps c));
        updates = c ∷ s.updates;
      } in
      elim timer.cpu [ none ↦ (success, after) | some d ↦ (busy, s) ]

  -- A turn of `timer_update` that fires the timer at the root.
  pub fire : ℕ → ℕ → State heap.Heap → State heap.Heap
  fire c root s =
      let timer = s.timers root in
      let fired : Timer = record timer {
        cpu = none;
        state = timer_fired;
        obj_signal_count = 1;
        obj_wait_count = 0;
      } in
      record s {
        timers = put s.timers root fired;
        heaps = put s.heaps c (heap.pop (s.heaps c));
        woken = if ltb 0 timer.obj_wait_count then root ∷ s.woken else s.woken;
      }

  abbrev pub arm : ℕ → Option ℕ → State heap.Heap → State heap.Heap
  arm c time s = record s { armed = put s.armed c time }

  -- The loop of `timer_update` on the processor `c`: `clock k` is what `uptime` returns at the turn `k`.
  pub timer_update : ℕ → ℕ → (ℕ → ℕ) → State heap.Heap → Option (State heap.Heap)
  timer_update zero c clock s = none
  timer_update (suc fuel) c clock s = elim (heap.peek (s.heaps c)) [
    | none ↦ some (arm c none s)
    | some root ↦
        let rest = timer_update fuel c (λ k. clock (suc k)) (fire c root s) in
        let deadline = (s.timers root).deadline in
        if ltb (clock 0) deadline then some (arm c (some deadline) s) else rest
  ]
