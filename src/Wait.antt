-- ===== src/Wait.antt =====
-- kernel/core/object.c, kevent.c, semaphore.c and wait.c: objects that threads wait on, one at a time
-- (`sched_wait`). Each function here is what the code does under one hold of an object's or a thread's lock.
-- `none` is a failed assertion, or the removal of a block from a list that it is not on.
pub mod Step
pub mod Lists
pub mod Sound
pub mod Keep
pub mod Wake
pub mod Signal
pub mod Objects
pub mod Waiting
pub mod Leaving
pub mod Dequeue
pub mod Finish
pub mod Account
pub mod Balance
pub mod Reach
pub mod Safety
pub mod Timed
mod Tests
use yak_kernel.Prelude.{
  ℕ, zero, suc, ◌+◌, ◌-◌, ◌*◌, Bool, true, false, ◌&&◌, ◌||◌, not, List, [], ◌∷◌, ◌++◌, Option,
  none, some, ltb, ◌==◌, if◌then◌else◌, put,
}
use yak_kernel.Status.{Status, success, timeout}

-- `enum kobject_type`
pub data ObjectType : Type 0 where
  obj_notif obj_sync : ObjectType

-- The wait blocks of thread `t`: `inline_wait_blocks[0]` and `timeout_wait_block`. Their `thread` is `t`.
pub data Block : Type 0 where
  inline_block timeout_block : ℕ → Block

abbrev pub block_eq : Block → Block → Bool
block_eq (inline_block t) (inline_block u) = t == u
block_eq (timeout_block t) (timeout_block u) = t == u
block_eq _ _ = false

-- `struct kobject`
pub record Kobject : Type 0 where
  pub obj_type : ObjectType
  pub obj_signal_count : ℕ
  pub obj_wait_count : ℕ
  pub obj_wait_list : List Block

-- `struct wait_block`, with the flags `WB_DEQUEUED` and `WB_UNWAITED`
pub record WaitBlock : Type 0 where
  pub object : ℕ
  pub status : Status
  pub dequeued : Bool
  pub unwaited : Bool

-- The part of `enum thread_state` that waiting is about. `ready` is a thread that the scheduler has.
pub data ThreadState : Type 0 where
  running waiting ready : ThreadState

-- `enum wait_phase`
pub data WaitPhase : Type 0 where
  phase_none in_progress comitted aborted : WaitPhase

-- The fields of `struct kthread` that waiting is about.
pub record Kthread : Type 0 where
  pub status : ThreadState
  pub wait_phase : WaitPhase
  pub wait_status : Status
  pub inline : WaitBlock
  pub timeout : WaitBlock

pub record State : Type 0 where
  pub objects : ℕ → Kobject
  pub threads : ℕ → Kthread

-- Objects by their address: `timeout_timer.hdr` of a thread, and the objects of the rest of the kernel.
abbrev pub timer_of : ℕ → ℕ
timer_of t = 2 * t + 1

abbrev pub kernel_object : ℕ → ℕ
kernel_object n = 2 * n

abbrev pub put_object : ℕ → Kobject → State → State
put_object o k s = record s { objects = put s.objects o k }

abbrev pub put_thread : ℕ → Kthread → State → State
put_thread t th s = record s { threads = put s.threads t th }

abbrev pub block_at : Block → State → WaitBlock
block_at (inline_block t) s = (s.threads t).inline
block_at (timeout_block t) s = (s.threads t).timeout

abbrev pub owner : Block → ℕ
owner (inline_block t) = t
owner (timeout_block t) = t

-- `wb->flags |= WB_DEQUEUED`
abbrev pub mark_dequeued : Block → Kthread → Kthread
mark_dequeued (inline_block t) th = record th { inline = record (th.inline) { dequeued = true } }
mark_dequeued (timeout_block t) th = record th { timeout = record (th.timeout) { dequeued = true } }

abbrev pub is_waiting : ThreadState → Bool
is_waiting waiting = true
is_waiting _ = false

abbrev pub is_running : ThreadState → Bool
is_running running = true
is_running _ = false

abbrev pub is_ready : ThreadState → Bool
is_ready ready = true
is_ready _ = false

abbrev pub is_in_progress : WaitPhase → Bool
is_in_progress in_progress = true
is_in_progress _ = false

abbrev pub is_aborted : WaitPhase → Bool
is_aborted aborted = true
is_aborted _ = false

-- The thread that `thread_unwait` leaves. Of `sched_resume_locked` it has the new state.
abbrev pub unwaited_thread : Status → Kthread → Kthread
unwaited_thread st th = record {
  status = if is_waiting th.status then ready else th.status;
  wait_phase = if is_running th.status then aborted else th.wait_phase;
  wait_status = st;
  inline = record (th.inline) { unwaited = true };
  timeout = record (th.timeout) { unwaited = true };
}

unfoldable pub thread_unwait : ℕ → Status → State → Option State
thread_unwait t st s =
    let th = s.threads t in
    if is_waiting th.status || is_in_progress th.wait_phase
    then some (put_thread t (unwaited_thread st th) s)
    else none

-- The first block off the list, as one turn of the loop of `kobject_signal_locked` leaves it.
abbrev pub popped : ℕ → Block → List Block → State → State
popped o b rest s =
    let obj = s.objects o in
    put_object o (record obj { obj_wait_count = obj.obj_wait_count - 1; obj_wait_list = rest })
      (put_thread (owner b) (mark_dequeued b (s.threads (owner b))) s)

-- One turn: whether it has woken a thread.
unfoldable pub signal_block : ℕ → Block → List Block → State → Option (Bool × State)
unfolding thread_unwait
signal_block o b rest s =
    if (block_at b s).unwaited
    then some (false, popped o b rest s)
    else elim (thread_unwait (owner b) ((block_at b s).status) (popped o b rest s)) [
      | none ↦ none
      | some s' ↦ some (true, s')
    ]

unfoldable pub signal_first : ℕ → State → Option (Bool × State)
unfolding signal_block
signal_first o s = elim ((s.objects o).obj_wait_list) [
  | [] ↦ none
  | b ∷ rest ↦ signal_block o b rest s
]

abbrev pub counted : Option (ℕ × State) → Option (ℕ × State)
counted none = none
counted (some (woken, s)) = some (suc woken, s)

-- `while (hdr->obj_wait_count)`, which each turn makes one less.
unfoldable pub signal_loop : ℕ → ℕ → Bool → State → Option (ℕ × State)
unfolding signal_first
signal_loop zero o unblock_all s = some (0, s)
signal_loop (suc n) o unblock_all s = elim (signal_first o s) [
  | none ↦ none
  | some (false, s') ↦ signal_loop n o unblock_all s'
  | some (true, s') ↦
      let rest = counted (signal_loop n o unblock_all s') in
      if not unblock_all then some (1, s') else rest
]

unfoldable pub kobject_signal_locked : ℕ → Bool → State → Option (ℕ × State)
unfolding signal_loop
kobject_signal_locked o unblock_all s = signal_loop ((s.objects o).obj_wait_count) o unblock_all s

abbrev pub kobject_init : ObjectType → ℕ → Kobject
kobject_init type signals = record {
  obj_type = type;
  obj_signal_count = signals;
  obj_wait_count = 0;
  obj_wait_list = [];
}

abbrev pub event_init : Bool → Bool → Kobject
event_init sigstate notif =
    kobject_init (if notif then obj_notif else obj_sync) (if sigstate then 1 else 0)

abbrev pub semaphore_init : ℕ → Kobject
semaphore_init signals = kobject_init obj_sync signals

abbrev pub set_signals : ℕ → ℕ → State → State
set_signals o n s = put_object o (record (s.objects o) { obj_signal_count = n }) s

abbrev pub is_sync : ObjectType → Bool
is_sync obj_sync = true
is_sync obj_notif = false

unfoldable pub event_alarm : ℕ → Bool → State → Option State
unfolding kobject_signal_locked
event_alarm o wake_all s =
    let obj = s.objects o in
    if not (obj.obj_signal_count == 0)
    then some s
    else if obj.obj_wait_count == 0
    then some (set_signals o 1 s)
    else elim (kobject_signal_locked o (if is_sync obj.obj_type then wake_all else true) s) [
      | none ↦ none
      | some (woken, s') ↦ some (if is_sync obj.obj_type then s' else set_signals o 1 s')
    ]

unfoldable pub event_clear : ℕ → State → State
event_clear o s = set_signals o 0 s

unfoldable pub semaphore_signal : ℕ → State → Option State
unfolding kobject_signal_locked
semaphore_signal o s = elim (kobject_signal_locked o false s) [
  | none ↦ none
  | some (woken, s') ↦
      some (if woken == 0 then set_signals o ((s'.objects o).obj_signal_count + 1) s' else s')
]

unfoldable pub semaphore_reset : ℕ → State → State
semaphore_reset o s = set_signals o 0 s

-- The part of `timer_update` under the timer's lock, with the timer off the heap.
unfoldable pub timer_fire : ℕ → State → Option State
unfolding kobject_signal_locked
timer_fire o s =
    if ltb 0 ((s.objects o).obj_wait_count)
    then elim (kobject_signal_locked o true s) [
      | none ↦ none
      | some (woken, s') ↦ some (set_signals o 1 s')
    ]
    else some (set_signals o 1 s)
