-- ===== src/Wait/Timed/Safety.antt =====
-- kernel/core/wait.c and timer.c: the timer of a wait is off every heap when the next wait sets it.
use yak_kernel.Prelude.{
  ℕ, ◌≡◌, ◌≢◌, refl, sym, ap, ◌∙◌, Bool, true, false, ◌==◌, put, Option, arith, inl, inr,
  Bool-cases, none, some, subst, if-true, if-false,
}
use yak_kernel.Timer.{timer_unused, is_queued}
use yak_kernel.Wait.{State, is_ready, timeout_block, kernel_object}
use yak_kernel.Wait.Step.{
  Place, outside, at_check, at_timeout, at_commit, at_sleep, at_inline, at_timer, Machine, Action,
  call_wait, go, alarm, clear, signal, reset, fire, Outcome, ran, assert_failed, disabled, go_on,
  begin, step, moved, set_timeout, resumed, wait_begin, after, stays, wait_check, wait_commit,
  wb_dequeue, checked, committed,
}
use yak_kernel.Wait.Sound.{IsSound}
use yak_kernel.Wait.Finish.{Fine}
use yak_kernel.Wait.Reach.{step-Fine, go_on-Fine}
use yak_kernel.Wait.Safety.{IsFresh, fresh-IsSound}
use yak_kernel.Wait.Timed.{
  Timed, TimeoutTimer, is_armed, installed, fired, uninstalled, with_timer, with_uninstalling,
  TimedOutcome, timed_ran, timed_failed, install_refused, timed_disabled, lifted, timed_go,
  timed_step,
}

-- Where in `sched_wait` the timer can be on a heap: from `set_timeout` to `timer_uninstall`.
abbrev pub may_arm : Bool → Place → Bool
may_arm true p = true
may_arm false outside = false
may_arm false (at_check o h) = false
may_arm false at_timeout = false
may_arm false (at_commit h) = h
may_arm false (at_sleep h) = h
may_arm false (at_inline h a) = h
may_arm false (at_timer a) = true

pub record IsTimed (k : Timed) : Type 0 where
  pub sound : IsSound k.machine
  pub in_wait :
      (t : ℕ) → is_armed k t ≡ true → may_arm (k.uninstalling t) (k.machine.places t) ≡ true
  pub on_heap : (t : ℕ) → (k.timers t).on_cpu ≡ is_armed k t

abbrev pub TimedFine : TimedOutcome → Type 0
TimedFine (timed_ran k) = IsTimed k
TimedFine timed_failed = ⊥
TimedFine install_refused = ⊥
TimedFine timed_disabled = Unit {0}

-- The timers of `k` suit the places that a step leads to.
abbrev Suits : Timed → Outcome → Type 0
Suits k (ran m) = (t : ℕ) → is_armed k t ≡ true → may_arm (k.uninstalling t) (m.places t) ≡ true
Suits k assert_failed = Unit {0}
Suits k disabled = Unit {0}

abbrev OnHeap : Timed → Type 0
OnHeap k = (t : ℕ) → (k.timers t).on_cpu ≡ is_armed k t

lifted-Fine : (k : Timed) (r : Outcome) → OnHeap k → Fine r → Suits k r → TimedFine (lifted k r)
lifted-Fine k (ran m) h f p = record { sound = f; in_wait = p; on_heap = h }
lifted-Fine k assert_failed h f p = f
lifted-Fine k disabled h f p = tt

-- A thread's own step leads to one place, and leaves the other threads where they were.
module _ (k : Timed) (t : ℕ) (m : Machine)
    (others : (u : ℕ)
      → (t == u) ≡ false
      → is_armed k u ≡ true
      → may_arm (k.uninstalling u) (m.places u) ≡ true) where
  moved-Suits :
      (p : Place) (s : State)
      → (is_armed k t ≡ true → may_arm (k.uninstalling t) p ≡ true)
      → Suits k (moved t p m s)
  moved-Suits p s own u on = elim (Bool-cases (t == u)) [
    | inl e ↦
        let same : t ≡ u = ground arith in
        rw e (
          subst (λ x. may_arm (k.uninstalling x) p ≡ true) same
            (own (ap (λ x. is_armed k x) same ∙ on)))
    | inr e ↦ rw e (others u e on)
  ]

  after-Suits :
      (p : Place) (f : State → State) (r : Option State)
      → (is_armed k t ≡ true → may_arm (k.uninstalling t) p ≡ true)
      → Suits k (after (λ s. moved t p m (f s)) r)
  after-Suits p f none own = tt
  after-Suits p f (some s) own = moved-Suits p (f s) own

stays-Suits :
    (k : Timed) (m : Machine) (s : State)
    → ((t : ℕ) → is_armed k t ≡ true → may_arm (k.uninstalling t) (m.places t) ≡ true)
    → Suits k (stays m s)
stays-Suits k m s h = h

kept-Suits :
    (k : Timed) (m : Machine) (r : Option State)
    → ((t : ℕ) → is_armed k t ≡ true → may_arm (k.uninstalling t) (m.places t) ≡ true)
    → Suits k (after (stays m) r)
kept-Suits k m none h = tt
kept-Suits k m (some s) h = h

-- A timer whose fields agree, in the place of another.
replaced-OnHeap :
    (k : Timed) (t : ℕ) (timer : TimeoutTimer)
    → timer.on_cpu ≡ is_queued timer.state
    → OnHeap k
    → OnHeap (with_timer t timer k)
replaced-OnHeap k t timer e h u = elim (Bool-cases (t == u)) [
  | inl same ↦ rw same e
  | inr other ↦ rw other (h u)
]

still_armed :
    (k : Timed) (t : ℕ) (timer : TimeoutTimer)
    → is_queued timer.state ≡ false
    → (u : ℕ) → is_armed (with_timer t timer k) u ≡ true
    → ((t == u) ≡ false) × (is_armed k u ≡ true)
still_armed k t timer off u on = elim (Bool-cases (t == u)) [
  | inl same ↦
      absurd (cc (sym (ap (λ (x : TimeoutTimer). is_queued x.state) (if-true _ same)) ∙ on, off))
  | inr other ↦ (other, sym (ap (λ (x : TimeoutTimer). is_queued x.state) (if-false _ other)) ∙ on)
]

uninstalled-off :
    (timer : TimeoutTimer)
    → timer.on_cpu ≡ is_queued timer.state
    → (is_queued ((uninstalled timer).state) ≡ false)
      × ((uninstalled timer).on_cpu ≡ is_queued ((uninstalled timer).state))
uninstalled-off timer e = elim (Bool-cases (is_queued timer.state)) [
  | inl on ↦ rw on (refl, refl)
  | inr off ↦ rw off (off, e)
]

uninstall-IsTimed :
    (k : Timed) (t : ℕ) → IsTimed k → IsTimed (with_timer t (uninstalled (k.timers t)) k)
uninstall-IsTimed k t v =
    let (off, agree) = uninstalled-off (k.timers t) (v.on_heap t) in
    record {
      sound = v.sound;
      in_wait = λ u on. v.in_wait u (still_armed k t (uninstalled (k.timers t)) off u on).1;
      on_heap = replaced-OnHeap k t (uninstalled (k.timers t)) agree v.on_heap;
    }

finished-IsTimed :
    (k : Timed) (t : ℕ)
    → IsTimed k
    → IsTimed (with_uninstalling t false (with_timer t (uninstalled (k.timers t)) k))
finished-IsTimed k t v =
    let (off, agree) = uninstalled-off (k.timers t) (v.on_heap t) in
    let w = uninstall-IsTimed k t v in
    record {
      sound = v.sound;
      in_wait = λ u on.
          let (other, was) = still_armed k t (uninstalled (k.timers t)) off u on in
          rw other (v.in_wait u was);
      on_heap = w.on_heap;
    }

module _ (k : Timed) (v : IsTimed k) (t : ℕ) (busy : k.uninstalling t ≡ false) where
  own_armed : (p : Place) → k.machine.places t ≡ p → is_armed k t ≡ true → may_arm false p ≡ true
  own_armed p e on =
      sym (ap (λ b. may_arm b p) busy) ∙ sym (ap (may_arm (k.uninstalling t)) e) ∙ v.in_wait t on

  others :
      (u : ℕ)
      → (t == u) ≡ false
      → is_armed k u ≡ true
      → may_arm (k.uninstalling u) (k.machine.places u) ≡ true
  others u ne on = v.in_wait u on

  -- A step to a place where the timer may be armed if it may before.
  leads :
      (p q : Place)
      → k.machine.places t ≡ p
      → (may_arm false p ≡ true → may_arm false q ≡ true)
      → is_armed k t ≡ true
      → may_arm (k.uninstalling t) q ≡ true
  leads p q e f on = ap (λ b. may_arm b q) busy ∙ f (own_armed p e on)

  checked-Suits :
      (o : ℕ) (h : Bool) (r : Bool × State)
      → k.machine.places t ≡ at_check o h
      → Suits k (checked t h k.machine r)
  checked-Suits o h (true, s) e =
      moved-Suits k t k.machine others outside s (leads (at_check o h) outside e (λ x. x))
  checked-Suits o true (false, s) e =
      moved-Suits k t k.machine others at_timeout s (leads (at_check o true) at_timeout e (λ x. x))
  checked-Suits o false (false, s) e =
      moved-Suits k t k.machine others (at_commit false) s
        (leads (at_check o false) (at_commit false) e (λ x. x))

  committed-Suits :
      (h : Bool) (r : Bool × State)
      → k.machine.places t ≡ at_commit h
      → Suits k (committed t h k.machine r)
  committed-Suits true (true, s) e =
      moved-Suits k t k.machine others (at_timer true) s
        (leads (at_commit true) (at_timer true) e (λ x. refl))
  committed-Suits false (true, s) e =
      moved-Suits k t k.machine others (at_inline false true) s
        (leads (at_commit false) (at_inline false true) e (λ x. x))
  committed-Suits h (false, s) e =
      moved-Suits k t k.machine others (at_sleep h) s (leads (at_commit h) (at_sleep h) e (λ x. x))

  go_on-Suits :
      (p : Place)
      → k.machine.places t ≡ p
      → (is_armed k t ≡ true → (a : Bool) → p ≢ at_timer a)
      → Suits k (go_on t p k.machine)
  unfolding go_on
  go_on-Suits outside e n = tt
  go_on-Suits (at_check o h) e n = checked-Suits o h (wait_check t o k.machine.state) e
  go_on-Suits at_timeout e n =
      moved-Suits k t k.machine others (at_commit true) (set_timeout t k.machine.state)
        (leads at_timeout (at_commit true) e (λ x. refl))
  go_on-Suits (at_commit h) e n = committed-Suits h (wait_commit t k.machine.state) e
  go_on-Suits (at_sleep h) e n = elim (Bool-cases (is_ready ((k.machine.state.threads t).status))) [
    | inl up ↦
        rw (go_on, up)
          (moved-Suits k t k.machine others (at_inline h false) (resumed t k.machine.state)
            (leads (at_sleep h) (at_inline h false) e (λ x. x)))
    | inr down ↦ rw (go_on, down) tt
  ]
  go_on-Suits (at_inline true a) e n =
      after-Suits k t k.machine others (at_timer a) (λ s. s) _
        (leads (at_inline true a) (at_timer a) e (λ x. refl))
  go_on-Suits (at_inline false a) e n =
      after-Suits k t k.machine others outside _ _ (leads (at_inline false a) outside e (λ x. x))
  go_on-Suits (at_timer true) e n =
      after-Suits k t k.machine others (at_inline false true) (λ s. s) _
        (λ on. absurd (n on true refl))
  go_on-Suits (at_timer false) e n =
      after-Suits k t k.machine others outside (λ s. s) _ (λ on. absurd (n on false refl))

  with_Fine : (r : Outcome) → Fine r → Suits k r → TimedFine (lifted k r)
  with_Fine r f p = lifted-Fine k r v.on_heap f p

  runs_at :
      (p : Place)
      → k.machine.places t ≡ p
      → (is_armed k t ≡ true → (a : Bool) → p ≢ at_timer a)
      → TimedFine (lifted k (go_on t p k.machine))
  runs_at p e n =
      with_Fine (go_on t p k.machine) (go_on-Fine t k.machine v.sound p e) (go_on-Suits p e n)

  sets_timeout :
      k.machine.places t ≡ at_timeout
      → TimedFine (lifted (with_timer t installed k) (go_on t at_timeout k.machine))
  unfolding go_on
  sets_timeout e =
      lifted-Fine (with_timer t installed k) (go_on t at_timeout k.machine)
        (replaced-OnHeap k t installed refl v.on_heap) (go_on-Fine t k.machine v.sound at_timeout e)
        (moved-Suits (with_timer t installed k) t k.machine
          (λ u ne on. v.in_wait u (ground (arith, on, ne))) (at_commit true)
          (set_timeout t k.machine.state) (λ on. ap (λ b. may_arm b (at_commit true)) busy))

  leaves_wait :
      k.machine.places t ≡ at_timer false
      → TimedFine (lifted (with_uninstalling t true k) (go_on t (at_timer false) k.machine))
  unfolding go_on
  leaves_wait e =
      lifted-Fine (with_uninstalling t true k) (go_on t (at_timer false) k.machine) v.on_heap
        (go_on-Fine t k.machine v.sound (at_timer false) e)
        (after-Suits (with_uninstalling t true k) t k.machine
          (λ u ne on. if_other u ne (v.in_wait u on)) outside (λ s. s)
          (wb_dequeue (timeout_block t) k.machine.state)
          (λ on. let self : (t == t) ≡ true = ground arith in rw self refl))
    where
      if_other :
          (u : ℕ)
          → (t == u) ≡ false
          → may_arm (k.uninstalling u) (k.machine.places u) ≡ true
          → may_arm (put k.uninstalling t true u) (k.machine.places u) ≡ true
      if_other u ne h = rw ne h

  timed_go-Fine : (p : Place) → k.machine.places t ≡ p → TimedFine (timed_go t p k)
  unfolding timed_go
  timed_go-Fine outside e = runs_at outside e (λ on a q. cc)
  timed_go-Fine (at_check o h) e = runs_at (at_check o h) e (λ on a q. cc)
  timed_go-Fine at_timeout e =
      let off : is_armed k t ≡ false = elim (Bool-cases (is_armed k t)) [
        | inl on ↦ absurd (cc (own_armed at_timeout e on))
        | inr off ↦ off
      ] in
      rw (timed_go, off, v.on_heap t ∙ off) (sets_timeout e)
  timed_go-Fine (at_commit h) e = runs_at (at_commit h) e (λ on a q. cc)
  timed_go-Fine (at_sleep h) e = runs_at (at_sleep h) e (λ on a q. cc)
  timed_go-Fine (at_inline h a) e = runs_at (at_inline h a) e (λ on b q. cc)
  timed_go-Fine (at_timer true) e = elim (Bool-cases (is_armed k t)) [
    | inl on ↦ subst TimedFine (sym (if-true _ on)) (uninstall-IsTimed k t v)
    | inr off ↦ rw (timed_go, off) (runs_at (at_timer true) e (λ on. absurd (cc (on, off))))
  ]
  timed_go-Fine (at_timer false) e = leaves_wait e

begin-Suits :
    (k : Timed) (v : IsTimed k) (t n : ℕ) (h : Bool) (p : Place)
    → k.uninstalling t ≡ false
    → k.machine.places t ≡ p
    → Suits k (begin t n h p k.machine)
unfolding begin
begin-Suits k v t n h outside busy e =
    moved-Suits k t k.machine (λ u ne on. v.in_wait u on) (at_check (kernel_object n) h)
      (wait_begin t (kernel_object n) k.machine.state)
      (leads k v t busy outside (at_check (kernel_object n) h) e (λ x. absurd (cc)))
begin-Suits k v t n h (at_check o k') busy e = tt
begin-Suits k v t n h at_timeout busy e = tt
begin-Suits k v t n h (at_commit k') busy e = tt
begin-Suits k v t n h (at_sleep k') busy e = tt
begin-Suits k v t n h (at_inline k' a) busy e = tt
begin-Suits k v t n h (at_timer a) busy e = tt

-- The steps that move no thread.
stays-Fine :
    (k : Timed) (a : Action)
    → IsTimed k
    → Suits k (step a k.machine)
    → TimedFine (lifted k (step a k.machine))
stays-Fine k a v p = lifted-Fine k (step a k.machine) v.on_heap (step-Fine a k.machine v.sound) p

timed_step-Fine : (a : Action) (k : Timed) → IsTimed k → TimedFine (timed_step a k)
unfolding timed_step step
timed_step-Fine (call_wait t n h) k v = elim (Bool-cases (k.uninstalling t)) [
  | inl busy ↦ rw (timed_step, busy) tt
  | inr free ↦
      rw (timed_step, free)
        (stays-Fine k (call_wait t n h) v (begin-Suits k v t n h (k.machine.places t) free refl))
]
timed_step-Fine (go t) k v = elim (Bool-cases (k.uninstalling t)) [
  | inl busy ↦ rw (timed_step, busy) (finished-IsTimed k t v)
  | inr free ↦ rw (timed_step, free) (timed_go-Fine k v t free (k.machine.places t) refl)
]
timed_step-Fine (fire t) k v = elim (Bool-cases (is_armed k t)) [
  | inl on ↦
      rw (timed_step, on)
        (lifted-Fine (with_timer t fired k) (step (fire t) k.machine)
          (replaced-OnHeap k t fired refl v.on_heap) (step-Fine (fire t) k.machine v.sound)
          (kept-Suits (with_timer t fired k) k.machine _
            (λ u x. v.in_wait u (still_armed k t fired refl u x).1)))
  | inr off ↦ rw (timed_step, off) tt
]
timed_step-Fine (alarm n all) k v =
    stays-Fine k (alarm n all) v (kept-Suits k k.machine _ v.in_wait)
timed_step-Fine (clear n) k v = stays-Fine k (clear n) v v.in_wait
timed_step-Fine (signal n) k v = stays-Fine k (signal n) v (kept-Suits k k.machine _ v.in_wait)
timed_step-Fine (reset n) k v = stays-Fine k (reset n) v v.in_wait

-- No thread is in `sched_wait`, nothing is on a list, and no timer of a wait is on a heap.
pub record IsTimedFresh (k : Timed) : Type 0 where
  pub fresh : IsFresh k.machine
  pub unused : (t : ℕ) → k.timers t ≡ record { state = timer_unused; on_cpu = false }

pub data TimedReached (k : Timed) : Timed → Type 0 where
  timed_start : TimedReached k k
  timed_next :
      (a : Action) (l n : Timed)
      → TimedReached k l
      → timed_step a l ≡ timed_ran n
      → TimedReached k n

from_fresh-IsTimed : (k n : Timed) → IsTimedFresh k → TimedReached k n → IsTimed n
from_fresh-IsTimed k _ f timed_start = record {
  sound = fresh-IsSound k.machine f.fresh;
  in_wait = λ t on. absurd (cc (on, f.unused t));
  on_heap = λ t. rw (f.unused t) refl;
}
from_fresh-IsTimed k _ f (timed_next a l n r e) =
    subst TimedFine e (timed_step-Fine a l (from_fresh-IsTimed k l f r))

-- From a state in which no thread waits and no timer of a wait is on a heap, no sequence of steps leads to
-- one in which a step fails an assertion, that of `timer_reset` among them, takes a wait block off a list
-- that it is not on, or has `timer_install` refuse the timer of a wait. The steps are those of `sched_wait`
-- with or without a timeout, by any number of threads in any order, with `set_timeout` and
-- `timer_uninstall`; `event_alarm`, `event_clear`, `semaphore_signal` and `semaphore_reset`; and the firing
-- of timers that are queued.
pub timed_step-ne-failed :
    (k n : Timed) (a : Action)
    → IsTimedFresh k
    → TimedReached k n
    → (timed_step a n ≢ timed_failed) × (timed_step a n ≢ install_refused)
timed_step-ne-failed k n a f r =
    let fine = timed_step-Fine a n (from_fresh-IsTimed k n f r) in
    (λ e. subst TimedFine e fine, λ e. subst TimedFine e fine)
