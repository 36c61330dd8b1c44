-- ===== src/Wait/Step.antt =====
-- kernel/core/wait.c: `sched_wait` in blocking mode as steps, one for each stretch under a lock, interleaved
-- with those of other threads and with the signals to objects.
use yak_kernel.Prelude.{
  ℕ, ◌+◌, ◌-◌, Bool, true, false, List, [], ◌∷◌, ◌++◌, Option, none, some, ltb, if◌then◌else◌, put,
}
use yak_kernel.Status.{success}
use yak_kernel.Wait.{
  Block, inline_block, timeout_block, block_eq, Kobject, State, running, waiting, phase_none,
  in_progress, comitted, timer_of, put_object, put_thread, block_at, is_ready, is_aborted, is_sync,
  event_alarm, event_clear, semaphore_signal, semaphore_reset, timer_fire, kernel_object,
}

-- Up to the release of the thread's lock. The wait is on `o`.
unfoldable pub wait_begin : ℕ → ℕ → State → State
wait_begin t o s =
    let th = s.threads t in
    put_thread t
      (record th {
        wait_phase = in_progress;
        inline = record { object = o; status = success; dequeued = false; unwaited = false };
        timeout = record (th.timeout) { dequeued = false; unwaited = false };
      })
      s

-- `is_obj_signaled`, and `obj_maybe_acquire`
abbrev pub is_obj_signaled : Kobject → Bool
is_obj_signaled obj = ltb 0 (obj.obj_signal_count)

abbrev pub obj_maybe_acquire : Kobject → Kobject
obj_maybe_acquire obj = record obj {
  obj_signal_count =
      if is_sync obj.obj_type then obj.obj_signal_count - 1 else obj.obj_signal_count;
}

abbrev pub enqueue : Block → Kobject → Kobject
enqueue b obj = record obj {
  obj_wait_count = obj.obj_wait_count + 1;
  obj_wait_list = obj.obj_wait_list ++ b ∷ [];
}

-- The signal taken, with the wait over; or the block enqueued.
abbrev pub taken : ℕ → ℕ → State → State
taken t o s =
    put_thread t (record (s.threads t) { wait_phase = phase_none })
      (put_object o (obj_maybe_acquire (s.objects o)) s)

abbrev pub enqueued : Block → ℕ → State → State
enqueued b o s = put_object o (enqueue b (s.objects o)) s

-- Under the object's lock: whether the object was signaled.
unfoldable pub wait_check : ℕ → ℕ → State → Bool × State
wait_check t o s =
    if is_obj_signaled (s.objects o)
    then (true, taken t o s)
    else (false, enqueued (inline_block t) o s)

-- `set_timeout`, of the timer's object: `timer_reset` and `timer_install` clear the signal. What they test of
-- the timer's state, and make of it, is in Timed.
unfoldable pub set_timeout : ℕ → State → State
set_timeout t s =
    let o = timer_of t in
    let obj = s.objects o in
    put_object o
      (record obj {
        obj_signal_count = 0;
        obj_wait_count = 1;
        obj_wait_list = obj.obj_wait_list ++ timeout_block t ∷ [];
      })
      s

-- The test under the thread's lock: whether the wait was aborted. If not, the start of `do_wait`.
abbrev pub asleep : ℕ → State → State
asleep t s = put_thread t (record (s.threads t) { wait_phase = comitted; status = waiting }) s

unfoldable pub wait_commit : ℕ → State → Bool × State
wait_commit t s = if is_aborted ((s.threads t).wait_phase) then (true, s) else (false, asleep t s)

-- The scheduler has switched back to the thread.
abbrev pub resumed : ℕ → State → State
resumed t s = put_thread t (record (s.threads t) { status = running }) s

abbrev pub is_on : Block → List Block → Bool
is_on b [] = false
is_on b (c ∷ bs) = if block_eq b c then true else is_on b bs

-- `TAILQ_REMOVE`
abbrev pub remove : Block → List Block → List Block
remove b [] = []
remove b (c ∷ bs) = if block_eq b c then bs else c ∷ remove b bs

abbrev pub dequeue : Block → Kobject → Kobject
dequeue b obj = record obj {
  obj_wait_count = obj.obj_wait_count - 1;
  obj_wait_list = remove b obj.obj_wait_list;
}

unfoldable pub wb_dequeue : Block → State → Option State
wb_dequeue b s =
    let wb = block_at b s in
    let obj = s.objects (wb.object) in
    if wb.dequeued
    then some s
    else if is_on b (obj.obj_wait_list)
    then some (put_object (wb.object) (dequeue b obj) s)
    else none

-- Where a thread is in `sched_wait`, with whether it has a timeout.
pub data Place : Type 0 where
  outside : Place
  at_check : ℕ → Bool → Place
  at_timeout : Place
  at_commit : Bool → Place
  at_sleep : Bool → Place
  -- at the dequeuing of the inline block and, where the first flag says so, of the timeout block behind it;
  -- at that of the timeout block, which comes first in an aborted wait. The last flag: it was aborted.
  at_inline : Bool → Bool → Place
  at_timer : Bool → Place

pub record Machine : Type 0 where
  pub state : State
  pub places : ℕ → Place

-- A call of `sched_wait` on an object, the thread's next step, and the operations on objects.
pub data Action : Type 0 where
  call_wait : ℕ → ℕ → Bool → Action
  go : ℕ → Action
  alarm : ℕ → Bool → Action
  clear : ℕ → Action
  signal : ℕ → Action
  reset : ℕ → Action
  fire : ℕ → Action

pub data Outcome : Type 0 where
  ran : Machine → Outcome
  assert_failed : Outcome
  disabled : Outcome

abbrev pub moved : ℕ → Place → Machine → State → Outcome
moved t p m s = ran (record { state = s; places = put m.places t p })

abbrev pub after : (State → Outcome) → Option State → Outcome
after f none = assert_failed
after f (some s) = f s

abbrev pub stays : Machine → State → Outcome
stays m s = ran (record m { state = s })

-- The end of an aborted wait: `thread->wait_phase = WAIT_PHASE_NONE`.
abbrev pub finish : ℕ → Bool → State → State
finish t true s = put_thread t (record (s.threads t) { wait_phase = phase_none }) s
finish t false s = s

abbrev pub checked : ℕ → Bool → Machine → Bool × State → Outcome
checked t h m (true, s) = moved t outside m s
checked t h m (false, s) = moved t (if h then at_timeout else at_commit false) m s

abbrev pub committed : ℕ → Bool → Machine → Bool × State → Outcome
committed t h m (true, s) = moved t (if h then at_timer true else at_inline false true) m s
committed t h m (false, s) = moved t (at_sleep h) m s

unfoldable pub go_on : ℕ → Place → Machine → Outcome
unfolding wait_check set_timeout wait_commit wb_dequeue
go_on t outside m = disabled
go_on t (at_check o h) m = checked t h m (wait_check t o m.state)
go_on t at_timeout m = moved t (at_commit true) m (set_timeout t m.state)
go_on t (at_commit h) m = committed t h m (wait_commit t m.state)
go_on t (at_sleep h) m =
    if is_ready ((m.state.threads t).status)
    then moved t (at_inline h false) m (resumed t m.state)
    else disabled
go_on t (at_inline true a) m = after (moved t (at_timer a) m) (wb_dequeue (inline_block t) m.state)
go_on t (at_inline false a) m =
    after (λ s. moved t outside m (finish t a s)) (wb_dequeue (inline_block t) m.state)
go_on t (at_timer true) m =
    after (moved t (at_inline false true) m) (wb_dequeue (timeout_block t) m.state)
go_on t (at_timer false) m = after (moved t outside m) (wb_dequeue (timeout_block t) m.state)

unfoldable pub begin : ℕ → ℕ → Bool → Place → Machine → Outcome
unfolding wait_begin
begin t n h outside m =
    moved t (at_check (kernel_object n) h) m (wait_begin t (kernel_object n) m.state)
begin t n h _ m = disabled

unfoldable pub step : Action → Machine → Outcome
unfolding go_on begin event_alarm event_clear semaphore_signal semaphore_reset timer_fire
step (call_wait t n h) m = begin t n h (m.places t) m
step (go t) m = go_on t (m.places t) m
step (alarm n all) m = after (stays m) (event_alarm (kernel_object n) all m.state)
step (clear n) m = stays m (event_clear (kernel_object n) m.state)
step (signal n) m = after (stays m) (semaphore_signal (kernel_object n) m.state)
step (reset n) m = stays m (semaphore_reset (kernel_object n) m.state)
step (fire t) m = after (stays m) (timer_fire (timer_of t) m.state)
