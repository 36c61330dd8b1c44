-- ===== src/Timer/Tests.antt =====
-- Runs of the timers of kernel/core/timer.c with the heap of Timer.Assoc, and the theorems at them.
use yak_kernel.Prelude.{add_size, ◌≡◌, some, length, ◌<◌, refl, none, arith, []}
use yak_kernel.Timer.{fire, Timer, State, timer_unused, timer_install, timer_uninstall}
use yak_kernel.Timer.Assoc.{first, Assoc, assoc_heap, assoc_laws, find_nil}
use yak_kernel.Timer.Queued.{fire-IsConsistent, IsConsistent, queued_on}
use yak_kernel.Timer.Install.{timer_install-IsConsistent, timer_uninstall-IsConsistent}
use yak_kernel.Timer.Update.{Updates, timer_update-Updates}

abbrev unused : Timer
unused = record {
  cpu = none;
  deadline = 0;
  state = timer_unused;
  obj_signal_count = 0;
  obj_wait_count = 0;
}

abbrev start : State Assoc
start = record {
  timers = λ i. unused;
  heaps = λ c. [];
  armed = λ c. none;
  woken = [];
  updates = [];
}

start-IsConsistent : IsConsistent assoc_heap assoc_laws start
unfolding queued_on
start-IsConsistent = record {
  exact = λ c i. find_nil i;
  on_cpu = λ i c e. absurd (cc e);
  off_cpu = λ i e. refl;
}

-- The timer 3 is due at 15, the timer 4 at 11.
abbrev two : State Assoc
two = (timer_install assoc_heap 0 10 4 1 (timer_install assoc_heap 0 10 3 5 start).1).1

two-IsConsistent : IsConsistent assoc_heap assoc_laws two
two-IsConsistent =
    timer_install-IsConsistent assoc_heap assoc_laws 0 10 4 1 _
      (timer_install-IsConsistent assoc_heap assoc_laws 0 10 3 5 start start-IsConsistent)

timer_install-IsConsistent_example :
    IsConsistent assoc_heap assoc_laws (timer_install assoc_heap 0 10 4 1 start).1
timer_install-IsConsistent_example =
    timer_install-IsConsistent assoc_heap assoc_laws 0 10 4 1 start start-IsConsistent

earliest : assoc_heap.peek (two.heaps 0) ≡ some 4
unfolding timer_install first add_size
earliest = refl

-- The timer 4 fires between the two looks at it.
timer_uninstall-IsConsistent_example :
    IsConsistent assoc_heap assoc_laws (timer_uninstall assoc_heap (fire assoc_heap 0 4) 4 two)
timer_uninstall-IsConsistent_example =
    timer_uninstall-IsConsistent assoc_heap assoc_laws (fire assoc_heap 0 4) 4 two two-IsConsistent
      (fire-IsConsistent assoc_heap assoc_laws 0 4 two earliest two-IsConsistent)

two_entries : length (two.heaps 0) < 3
unfolding timer_install
two_entries = omega arith

timer_update-Updates_example : Updates assoc_heap assoc_laws 0 12 3 two
timer_update-Updates_example =
    timer_update-Updates assoc_heap assoc_laws 0 12 3 two two-IsConsistent two_entries
