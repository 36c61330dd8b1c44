-- ===== src/Wait/Reach.antt =====
-- Each step of kernel/core/wait.c and of the operations on objects keeps the invariant and fails no
-- assertion, so that it holds wherever the machine can get to.
use yak_kernel.Prelude.{
  ℕ, ◌≡◌, refl, Bool, true, false, if◌then◌else◌, arith, inl, inr, Bool-cases, Option,
}
use yak_kernel.Wait.{inline_block, State, timer_of, kernel_object, is_ready, is_aborted}
use yak_kernel.Wait.Step.{
  Place, outside, at_check, at_timeout, at_commit, at_sleep, at_inline, at_timer, Machine, resumed,
  wait_commit, wait_check, after, stays, checked, committed, go_on, begin, step, Action, call_wait,
  go, alarm, clear, signal, reset, fire, is_obj_signaled, enqueued,
}
use yak_kernel.Wait.Sound.{IsSound}
use yak_kernel.Wait.Objects.{
  Keeps, set_signals-IsSound, event_alarm-Keeps, semaphore_signal-Keeps, timer_fire-Keeps,
}
use yak_kernel.Wait.Waiting.{at_place, begin-IsSound, taken-IsSound, enqueued-IsSound}
use yak_kernel.Wait.Leaving.{place-IsSound, same_queues, shift-IsSound, timeout-IsSound}
use yak_kernel.Wait.Finish.{Fine, engaged_at, inline-Fine, timer-Fine}

module _ (t : ℕ) (m : Machine) (v : IsSound m) where
  check-Fine :
      (o : ℕ) (h : Bool) → m.places t ≡ at_check o h → Fine (checked t h m (wait_check t o m.state))
  unfolding wait_check
  check-Fine o h e = elim (Bool-cases (is_obj_signaled (m.state.objects o))) [
    | inl signaled ↦ rw (wait_check, signaled) (taken-IsSound m t v o h e)
    | inr unset ↦ rw (wait_check, unset) (waits h e unset)
  ]
    where
      waits :
          (k : Bool)
          → m.places t ≡ at_check o k
          → is_obj_signaled (m.state.objects o) ≡ false
          → Fine (checked t k m (false, enqueued (inline_block t) o m.state))
      waits true e unset =
          enqueued-IsSound m t v o true e at_timeout refl refl
            (let (r, ph, iu, tu, id, td, o) = engaged_at m t v (at_check _ true) e in ground arith)
            unset
      waits false e unset =
          enqueued-IsSound m t v o false e (at_commit false) refl refl
            (let (r, ph, iu, tu, id, td, o) = engaged_at m t v (at_check _ false) e in ground arith)
            unset

  commit-Fine :
      (h : Bool) → m.places t ≡ at_commit h → Fine (committed t h m (wait_commit t m.state))
  unfolding wait_commit
  commit-Fine h e = elim (Bool-cases (is_aborted ((m.state.threads t).wait_phase))) [
    | inl was ↦ rw (wait_commit, was) (aborts h e (aborted_unwaited was))
    | inr goes ↦
        rw (wait_commit, goes)
          (shift-IsSound m t v (at_sleep h) _ (rw e refl) (rw e refl) refl refl
            (ground (arith, engaged_at m t v (at_commit h) e, goes)))
  ]
    where
      aborted_unwaited :
          is_aborted ((m.state.threads t).wait_phase) ≡ true
          → (m.state.threads t).inline.unwaited ≡ true
      aborted_unwaited was = ground (arith, engaged_at m t v (at_commit h) e)

      aborts :
          (k : Bool)
          → m.places t ≡ at_commit k
          → (m.state.threads t).inline.unwaited ≡ true
          → IsSound (at_place m t (if k then at_timer true else at_inline false true) m.state)
      aborts true e u =
          place-IsSound m t v (at_timer true)
            (same_queues m t v (at_timer true) (rw e refl) (rw e refl))
            (ground (arith, engaged_at m t v (at_commit true) e))
      aborts false e u =
          place-IsSound m t v (at_inline false true)
            (same_queues m t v (at_inline false true) (rw e refl) (rw e refl))
            (ground (arith, engaged_at m t v (at_commit false) e))

  sleep-Fine :
      (h : Bool)
      → m.places t ≡ at_sleep h
      → is_ready ((m.state.threads t).status) ≡ true
      → IsSound (at_place m t (at_inline h false) (resumed t m.state))
  sleep-Fine h e up =
      shift-IsSound m t v (at_inline h false) _ (rw e refl) (rw e refl) refl refl
        (ground (arith, engaged_at m t v (at_sleep h) e, up))

  pub go_on-Fine : (p : Place) → m.places t ≡ p → Fine (go_on t p m)
  unfolding go_on
  go_on-Fine outside e = tt
  go_on-Fine (at_check o h) e = check-Fine o h e
  go_on-Fine at_timeout e = timeout-IsSound m t v e
  go_on-Fine (at_commit h) e = commit-Fine h e
  go_on-Fine (at_sleep h) e = elim (Bool-cases (is_ready ((m.state.threads t).status))) [
    | inl up ↦ rw (go_on, up) (sleep-Fine h e up)
    | inr down ↦ rw (go_on, down) tt
  ]
  go_on-Fine (at_inline h a) e = inline-Fine t m v h a e
  go_on-Fine (at_timer a) e = timer-Fine t m v a e

  begin-Fine : (n : ℕ) (h : Bool) (p : Place) → m.places t ≡ p → Fine (begin t n h p m)
  unfolding begin
  begin-Fine n h outside e = begin-IsSound m t v n h e
  begin-Fine n h (at_check o k) e = tt
  begin-Fine n h at_timeout e = tt
  begin-Fine n h (at_commit k) e = tt
  begin-Fine n h (at_sleep k) e = tt
  begin-Fine n h (at_inline k a) e = tt
  begin-Fine n h (at_timer a) e = tt

Keeps-Fine : (m : Machine) (r : Option State) → Keeps m r → Fine (after (stays m) r)
Keeps-Fine m r (s, e, w, a) = rw e w

pub step-Fine : (a : Action) (m : Machine) → IsSound m → Fine (step a m)
unfolding step
step-Fine (call_wait t n h) m v = begin-Fine t m v n h (m.places t) refl
step-Fine (go t) m v = go_on-Fine t m v (m.places t) refl
step-Fine (alarm n all) m v = Keeps-Fine m _ (event_alarm-Keeps m (kernel_object n) all v)
step-Fine (clear n) m v = set_signals-IsSound m (kernel_object n) 0 (inl refl) v
step-Fine (signal n) m v = Keeps-Fine m _ (semaphore_signal-Keeps m (kernel_object n) v)
step-Fine (reset n) m v = set_signals-IsSound m (kernel_object n) 0 (inl refl) v
step-Fine (fire t) m v = Keeps-Fine m _ (timer_fire-Keeps m (timer_of t) v)
