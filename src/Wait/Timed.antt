-- ===== src/Wait/Timed.antt =====
-- The timers of timed waits: what `set_timeout` and `sched_wait` (kernel/core/wait.c) ask of kernel/core/timer.c
-- around the steps of Step. `set_timeout` runs at IPL_DPC, so that its timer does not fire between the
-- installation and the insertion of the wait block: it is one step. `timer_uninstall` is one step as well: a timer
-- that fires while it holds neither lock is as one that fires just before.
pub mod Safety
use yak_kernel.Prelude.{
  ℕ, ◌≡◌, refl, Bool, true, false, ◌||◌, ◌==◌, if◌then◌else◌, put, Option, arith, inl, inr,
  Bool-cases, none, some,
}
use yak_kernel.Timer.{TimerState, timer_queued, timer_canceled, timer_fired, is_queued}
use yak_kernel.Wait.Step.{
  Place, outside, at_check, at_timeout, at_commit, at_sleep, at_inline, at_timer, Machine, Action,
  call_wait, go, alarm, clear, signal, reset, fire, Outcome, ran, assert_failed, disabled, go_on,
  begin, step,
}

-- The fields of `timeout_timer` beside its object: `on_cpu` is `cpu != NULL`.
pub record TimeoutTimer : Type 0 where
  pub state : TimerState
  pub on_cpu : Bool

-- `uninstalling t`: thread `t` is at the `timer_uninstall` at the end of `do_wait`.
pub record Timed : Type 0 where
  pub machine : Machine
  pub timers : ℕ → TimeoutTimer
  pub uninstalling : ℕ → Bool

abbrev pub is_armed : Timed → ℕ → Bool
is_armed k t = is_queued ((k.timers t).state)

-- What `timer_install`, `timer_update` and `timer_uninstall` make of a timer's state.
abbrev pub installed : TimeoutTimer
installed = record { state = timer_queued; on_cpu = true }

abbrev pub fired : TimeoutTimer
fired = record { state = timer_fired; on_cpu = false }

abbrev pub uninstalled : TimeoutTimer → TimeoutTimer
uninstalled timer =
    if is_queued timer.state then record { state = timer_canceled; on_cpu = false } else timer

abbrev pub with_timer : ℕ → TimeoutTimer → Timed → Timed
with_timer t timer k = record k { timers = put k.timers t timer }

abbrev pub with_uninstalling : ℕ → Bool → Timed → Timed
with_uninstalling t b k = record k { uninstalling = put k.uninstalling t b }

-- `install_refused`: `timer_install` has returned YAK_BUSY, which `set_timeout` does not look at.
pub data TimedOutcome : Type 0 where
  timed_ran : Timed → TimedOutcome
  timed_failed : TimedOutcome
  install_refused : TimedOutcome
  timed_disabled : TimedOutcome

-- A step of the machine, beside timers that are now those of `k`.
abbrev pub lifted : Timed → Outcome → TimedOutcome
lifted k (ran m) = timed_ran (record k { machine = m })
lifted k assert_failed = timed_failed
lifted k disabled = timed_disabled

-- The steps of a wait that deal with the timer: the assertion of `timer_reset` and the test of
-- `timer_install` before the thread's own step; the `timer_uninstall` of an aborted wait, before the
-- timeout block leaves the list; and that of `do_wait`, which is due behind it.
unfoldable pub timed_go : ℕ → Place → Timed → TimedOutcome
unfolding go_on
timed_go t outside k = lifted k (go_on t outside k.machine)
timed_go t (at_check o h) k = lifted k (go_on t (at_check o h) k.machine)
timed_go t at_timeout k =
    if is_armed k t
    then timed_failed
    else if (k.timers t).on_cpu
    then install_refused
    else lifted (with_timer t installed k) (go_on t at_timeout k.machine)
timed_go t (at_commit h) k = lifted k (go_on t (at_commit h) k.machine)
timed_go t (at_sleep h) k = lifted k (go_on t (at_sleep h) k.machine)
timed_go t (at_inline h a) k = lifted k (go_on t (at_inline h a) k.machine)
timed_go t (at_timer true) k =
    if is_armed k t
    then timed_ran (with_timer t (uninstalled (k.timers t)) k)
    else lifted k (go_on t (at_timer true) k.machine)
timed_go t (at_timer false) k =
    lifted (with_uninstalling t true k) (go_on t (at_timer false) k.machine)

-- A timer fires only from a heap, and a thread that has still to uninstall its timer does that next.
unfoldable pub timed_step : Action → Timed → TimedOutcome
unfolding timed_go step
timed_step (call_wait t n h) k =
    if k.uninstalling t then timed_disabled else lifted k (step (call_wait t n h) k.machine)
timed_step (go t) k =
    if k.uninstalling t
    then timed_ran (with_uninstalling t false (with_timer t (uninstalled (k.timers t)) k))
    else timed_go t (k.machine.places t) k
timed_step (fire t) k =
    if is_armed k t then lifted (with_timer t fired k) (step (fire t) k.machine) else timed_disabled
timed_step (alarm n all) k = lifted k (step (alarm n all) k.machine)
timed_step (clear n) k = lifted k (step (clear n) k.machine)
timed_step (signal n) k = lifted k (step (signal n) k.machine)
timed_step (reset n) k = lifted k (step (reset n) k.machine)
