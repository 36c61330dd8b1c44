-- ===== src/Wait/Tests.antt =====
-- Runs of `sched_wait` (kernel/core/wait.c) and of signals to what it waits on.
use yak_kernel.Prelude.{
  ◌⊎◌, ℕ, ◌≡◌, ◌≢◌, refl, true, false, List, [], ◌∷◌, arith, some, Option, none,
}
use yak_kernel.Status.{success, timeout}
use yak_kernel.Wait.{
  inline_block, State, Kthread, running, phase_none, event_init, semaphore_signal, timer_of,
}
use yak_kernel.Wait.Step.{
  outside, Machine, Outcome, ran, assert_failed, disabled, Action, call_wait, go, alarm, signal,
  fire, step,
}
use yak_kernel.Timer.{timer_unused, timer_canceled}
use yak_kernel.Wait.Lists.{occurs}
use yak_kernel.Wait.Signal.{Woken, has_live}
use yak_kernel.Wait.Timed.{
  Timed, timed_ran, timed_failed, install_refused, timed_disabled, timed_step,
}
use yak_kernel.Wait.Timed.Safety.{
  IsTimedFresh, TimedReached, timed_start, timed_next, timed_step-ne-failed,
}
use yak_kernel.Wait.Safety.{
  IsFresh, Reached, start, next, reached-IsSound, sleeping-listed, semaphore_signal-wakes_or_counts,
}

abbrev idle_thread : ℕ → Kthread
idle_thread t = record {
  status = running;
  wait_phase = phase_none;
  wait_status = success;
  inline = record { object = 0; status = success; dequeued = false; unwaited = false };
  timeout = record { object = timer_of t; status = timeout; dequeued = false; unwaited = false };
}

-- Every object is an unsignaled synchronization event.
abbrev at_rest : Machine
at_rest = record {
  state = record { objects = λ o. event_init false false; threads = idle_thread };
  places = λ t. outside;
}

at_rest-IsFresh : IsFresh at_rest
at_rest-IsFresh = record {
  calls = λ t. refl;
  runs = λ t. refl;
  timers = λ t. refl;
  targets = λ t u. λ e. absurd (omega (arith, e));
  no_count = λ o. refl;
  no_block = λ o. refl;
}

abbrev run : List Action → Machine → Option Machine
run [] m = some m
run (a ∷ rest) m = elim (step a m) [ ran k ↦ run rest k | assert_failed ↦ none | disabled ↦ none ]

abbrev got : Outcome → Machine
got (ran m) = m
got assert_failed = at_rest
got disabled = at_rest

-- Thread 0 waits on event 0 with a timeout, and goes to sleep.
abbrev called : Machine
called = got (step (call_wait 0 0 true) at_rest)

abbrev listed : Machine
listed = got (step (go 0) called)

abbrev armed : Machine
armed = got (step (go 0) listed)

abbrev slept : Machine
slept = got (step (go 0) armed)

slept-Reached : Reached at_rest slept
unfolding step
slept-Reached =
    next (go 0) armed slept
      (next (go 0) listed armed
        (next (go 0) called listed (next (call_wait 0 0 true) at_rest called start refl) refl) refl)
      refl

-- The same, with the timers of the waits.
abbrev timed_at_rest : Timed
timed_at_rest = record {
  machine = at_rest;
  timers = λ t. record { state = timer_unused; on_cpu = false };
  uninstalling = λ t. false;
}

timed_at_rest-IsTimedFresh : IsTimedFresh timed_at_rest
timed_at_rest-IsTimedFresh = record { fresh = at_rest-IsFresh; unused = λ t. refl }

abbrev timed_run : List Action → Timed → Timed
timed_run [] k = k
timed_run (a ∷ rest) k = elim (timed_step a k) [
  | timed_ran n ↦ timed_run rest n
  | timed_failed ↦ k
  | install_refused ↦ k
  | timed_disabled ↦ k
]

-- Behind the call, its check of the object.
abbrev timed_listed : Timed
timed_listed = timed_run (call_wait 0 0 true ∷ go 0 ∷ []) timed_at_rest

timed_listed-TimedReached : TimedReached timed_at_rest timed_listed
unfolding timed_step
timed_listed-TimedReached =
    timed_next (go 0) (timed_run (call_wait 0 0 true ∷ []) timed_at_rest) timed_listed
      (timed_next (call_wait 0 0 true) timed_at_rest
        (timed_run (call_wait 0 0 true ∷ []) timed_at_rest) timed_start refl)
      refl

timed_step-ne-failed_example :
    (timed_step (go 0) timed_listed ≢ timed_failed)
    × (timed_step (go 0) timed_listed ≢ install_refused)
timed_step-ne-failed_example =
    timed_step-ne-failed timed_at_rest timed_listed (go 0) timed_at_rest-IsTimedFresh
      timed_listed-TimedReached

-- A wait that is woken before its timeout, and leaves its timer uninstalled.
abbrev woken_run : List Action
woken_run = call_wait 0 0 true ∷ go 0 ∷ go 0 ∷ go 0 ∷ signal 0 ∷ go 0 ∷ go 0 ∷ go 0 ∷ go 0 ∷ []

left_canceled :
    (timed_run woken_run timed_at_rest).timers 0 ≡ record { state = timer_canceled; on_cpu = false }
unfolding timed_step
left_canceled = refl

sleeping-listed_example :
    (occurs (inline_block 0) ((slept.state.objects 0).obj_wait_list) ≡ 1)
    × ((slept.state.objects 0).obj_signal_count ≡ 0)
unfolding step
sleeping-listed_example =
    sleeping-listed at_rest slept 0 true at_rest-IsFresh slept-Reached refl refl

abbrev signals_of : Option Machine → ℕ
signals_of none = 7
signals_of (some m) = (m.state.objects 0).obj_signal_count

-- An alarm on an event whose only block is that of a wait that has timed out is lost.
lost_alarm :
    signals_of (run (call_wait 0 0 true ∷ go 0 ∷ go 0 ∷ go 0 ∷ fire 0 ∷ alarm 0 false ∷ []) at_rest)
    ≡ 0
unfolding step
lost_alarm = refl

-- A semaphore in its place is signaled.
kept_signal :
    signals_of (run (call_wait 0 0 true ∷ go 0 ∷ go 0 ∷ go 0 ∷ fire 0 ∷ signal 0 ∷ []) at_rest) ≡ 1
unfolding step
kept_signal = refl

semaphore_signal-wakes_or_counts_example :
    (s : State) × (semaphore_signal 0 slept.state ≡ some s)
    × (((has_live slept.state ((slept.state.objects 0).obj_wait_list) ≡ true)
          × ((s.objects 0).obj_signal_count ≡ 0)
          × Woken slept.state s ((slept.state.objects 0).obj_wait_list))
        ⊎ ((has_live slept.state ((slept.state.objects 0).obj_wait_list) ≡ false)
            × ((s.objects 0).obj_signal_count ≡ 1)))
unfolding step
semaphore_signal-wakes_or_counts_example =
    semaphore_signal-wakes_or_counts slept 0
      ((reached-IsSound at_rest slept at_rest-IsFresh slept-Reached).0)
