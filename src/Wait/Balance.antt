-- ===== src/Wait/Balance.antt =====
-- Each step of kernel/core/wait.c leaves no thread off its list that has not been woken.
use yak_kernel.Prelude.{
  ℕ, ◌≡◌, refl, sym, ap, ◌∙◌, Bool, true, false, ◌==◌, if◌then◌else◌, arith, inl, inr, Bool-cases,
  Option, Option-cases, some, none,
}
use yak_kernel.Wait.{
  Block, inline_block, timeout_block, Kthread, State, block_at, timer_of, kernel_object, is_ready,
  is_aborted,
}
use yak_kernel.Wait.Step.{
  Place, outside, at_check, at_timeout, at_commit, at_sleep, at_inline, at_timer, Machine, finish,
  resumed, asleep, taken, set_timeout, wait_commit, wb_dequeue, is_on, wait_check, Outcome, ran,
  assert_failed, disabled, moved, after, stays, checked, committed, go_on, begin, step, Action,
  call_wait, go, alarm, clear, signal, reset, fire, is_obj_signaled, wait_begin, enqueued,
}
use yak_kernel.Wait.Sound.{inline_queued, IsSound}
use yak_kernel.Wait.Account.{Accounted, AccountedIn, move-Accounted}
use yak_kernel.Wait.Objects.{Keeps, event_alarm-Keeps, semaphore_signal-Keeps, timer_fire-Keeps}
use yak_kernel.Wait.Finish.{engaged_at}

-- What a step leaves of the account.
abbrev pub Accounts : Outcome → Type 0
Accounts (ran m) = Accounted m
Accounts assert_failed = Unit {0}
Accounts disabled = Unit {0}

module _ (t : ℕ) (m : Machine) (v : IsSound m) (a : Accounted m) where
  woken :
      inline_queued (m.places t) ≡ true
      → (m.state.threads t).inline.dequeued ≡ true
      → (m.state.threads t).inline.unwaited ≡ true
  woken q d = a t q d

  moved-Accounts :
      (p : Place) (s : State)
      → AccountedIn p (s.threads t)
      → ((u : ℕ) → (t == u) ≡ false → s.threads u ≡ m.state.threads u)
      → Accounts (moved t p m s)
  moved-Accounts p s e same = move-Accounted m t p s e same a

  check-Accounts :
      (o : ℕ) (h : Bool)
      → m.places t ≡ at_check o h
      → Accounts (checked t h m (wait_check t o m.state))
  unfolding wait_check
  check-Accounts o h e = elim (Bool-cases (is_obj_signaled (m.state.objects o))) [
    | inl signaled ↦
        rw (wait_check, signaled)
          (moved-Accounts outside (taken t o m.state) (λ q d. absurd (cc))
            (λ u apart. ground (arith, apart)))
    | inr unset ↦
        let (r, ph, iu, tu, id, td, at) = engaged_at m t v (at_check o h) e in
        rw (wait_check, unset)
          (moved-Accounts (if h then at_timeout else at_commit false)
            (enqueued (inline_block t) o m.state) (λ q d. absurd (ground (arith, id)))
            (λ u apart. refl))
  ]

  commit-Accounts :
      (h : Bool) → m.places t ≡ at_commit h → Accounts (committed t h m (wait_commit t m.state))
  unfolding wait_commit
  commit-Accounts h e = elim (Bool-cases (is_aborted ((m.state.threads t).wait_phase))) [
    | inl was ↦
        rw (wait_commit, was)
          (moved-Accounts (if h then at_timer true else at_inline false true) m.state
            (λ q d. woken (rw e refl) d) (λ u apart. refl))
    | inr goes ↦
        rw (wait_commit, goes)
          (moved-Accounts (at_sleep h) (asleep t m.state) (λ q d. ground (arith, woken (rw e refl)))
            (λ u apart. ground (arith, apart)))
  ]

  wb_dequeue-threads :
      (b : Block) (s : State) → wb_dequeue b m.state ≡ some s → s.threads ≡ m.state.threads
  unfolding wb_dequeue
  wb_dequeue-threads b s e = sym (ap threads_of e) ∙ kept
    where
      threads_of : Option State → ℕ → Kthread
      threads_of none = m.state.threads
      threads_of (some s) = s.threads

      kept : threads_of (wb_dequeue b m.state) ≡ m.state.threads
      kept = elim (Bool-cases ((block_at b m.state).dequeued)) [
        | inl already ↦ rw (wb_dequeue, already) refl
        | inr not_yet ↦
            elim (Bool-cases
              (is_on b ((m.state.objects ((block_at b m.state).object)).obj_wait_list))) [
                | inl on ↦ rw (wb_dequeue, not_yet, on) refl
                | inr off ↦ rw (wb_dequeue, not_yet, off) refl
              ]
      ]

  finish-inline : (c : Bool) (s : State) → ((finish t c s).threads t).inline ≡ (s.threads t).inline
  finish-inline false s = refl
  finish-inline true s = ground arith

  finish-others :
      (c : Bool) (s : State) (u : ℕ) → (t == u) ≡ false → (finish t c s).threads u ≡ s.threads u
  finish-others false s u apart = refl
  finish-others true s u apart = rw apart refl

  dequeue-Accounts :
      (b : Block) (p : Place) (c : Bool)
      → AccountedIn p (m.state.threads t)
      → Accounts (after (λ s. moved t p m (finish t c s)) (wb_dequeue b m.state))
  dequeue-Accounts b p c w = elim (Option-cases (wb_dequeue b m.state)) [
    | inl e ↦ rw e tt
    | inr (s, e) ↦ rw e (
        moved-Accounts p (finish t c s) (rw (finish-inline c s, wb_dequeue-threads b s e) w)
          (λ u apart. finish-others c s u apart ∙ ap (λ f. f u) (wb_dequeue-threads b s e)))
  ]

  go_on-Accounts : (p : Place) → m.places t ≡ p → Accounts (go_on t p m)
  unfolding go_on
  go_on-Accounts outside e = tt
  go_on-Accounts (at_check o h) e = check-Accounts o h e
  go_on-Accounts at_timeout e =
      moved-Accounts (at_commit true) (set_timeout t m.state) (λ q d. woken (rw e refl) d)
        (λ u apart. refl)
  go_on-Accounts (at_commit h) e = commit-Accounts h e
  go_on-Accounts (at_sleep h) e = elim (Bool-cases (is_ready ((m.state.threads t).status))) [
    | inl up ↦
        rw (go_on, up)
          (moved-Accounts (at_inline h false) (resumed t m.state)
            (λ q d. ground (arith, woken (rw e refl))) (λ u apart. ground (arith, apart)))
    | inr down ↦ rw (go_on, down) tt
  ]
  go_on-Accounts (at_inline true b) e =
      dequeue-Accounts (inline_block t) (at_timer b) false (λ q d. woken (rw e refl) d)
  go_on-Accounts (at_inline false b) e =
      dequeue-Accounts (inline_block t) outside b (λ q d. absurd (cc))
  go_on-Accounts (at_timer true) e =
      dequeue-Accounts (timeout_block t) (at_inline false true) false (λ q d. woken (rw e refl) d)
  go_on-Accounts (at_timer false) e =
      dequeue-Accounts (timeout_block t) outside false (λ q d. absurd (cc))

  begin-Accounts : (n : ℕ) (h : Bool) (p : Place) → m.places t ≡ p → Accounts (begin t n h p m)
  unfolding begin wait_begin
  begin-Accounts n h outside e =
      moved-Accounts (at_check (kernel_object n) h) (wait_begin t (kernel_object n) m.state)
        (λ q d. absurd (cc)) (λ u apart. ground (arith, apart))
  begin-Accounts n h (at_check o k) e = tt
  begin-Accounts n h at_timeout e = tt
  begin-Accounts n h (at_commit k) e = tt
  begin-Accounts n h (at_sleep k) e = tt
  begin-Accounts n h (at_inline k b) e = tt
  begin-Accounts n h (at_timer b) e = tt

Keeps-Accounts :
    (m : Machine) (r : Option State) → Accounted m → Keeps m r → Accounts (after (stays m) r)
Keeps-Accounts m r a (s, e, w, keep) = rw e (keep a)

pub step-Accounts : (c : Action) (m : Machine) → IsSound m → Accounted m → Accounts (step c m)
unfolding step
step-Accounts (call_wait t n h) m v a = begin-Accounts t m v a n h (m.places t) refl
step-Accounts (go t) m v a = go_on-Accounts t m v a (m.places t) refl
step-Accounts (alarm n all) m v a =
    Keeps-Accounts m _ a (event_alarm-Keeps m (kernel_object n) all v)
step-Accounts (clear n) m v a = a
step-Accounts (signal n) m v a = Keeps-Accounts m _ a (semaphore_signal-Keeps m (kernel_object n) v)
step-Accounts (reset n) m v a = a
step-Accounts (fire t) m v a = Keeps-Accounts m _ a (timer_fire-Keeps m (timer_of t) v)
