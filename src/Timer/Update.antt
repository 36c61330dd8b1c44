-- ===== src/Timer/Update.antt =====
-- kernel/core/timer.c: `timer_update` fires the timers that are due, and no others.
use yak_kernel.Prelude.{
  ℕ, zero, suc, ◌≤◌, ◌<◌, ◌≡◌, refl, sym, ◌∙◌, ap, true, false, inl, inr, Option, none, some, arith,
  ◌==◌, if◌then◌else◌, if-true, if-false, Bool-cases, Option-cases, put, ltb,
}
use yak_kernel.Timer.{TimerHeap, Timer, State, timer_fired, fire, arm, timer_update}
use yak_kernel.Timer.Heap.{IsHeap}
use yak_kernel.Timer.Queued.{
  queued_on, queued_none, queued_here, queued_cpu, IsConsistent, fire-IsConsistent,
}

armed_now : (c : ℕ) (time : Option ℕ) (f : ℕ → Option ℕ) → put f c time c ≡ time
armed_now c time f = let self : (c == c) ≡ true = ground arith in if-true _ self

-- A timer that has fired: signalled, and with no waiter left on it.
abbrev pub is_fired : Timer → Timer
is_fired timer = record timer {
  cpu = none;
  state = timer_fired;
  obj_signal_count = 1;
  obj_wait_count = 0;
}

module _ (heap : TimerHeap) (laws : IsHeap heap) (c now : ℕ) where
  -- What an update does to each timer: those queued on the processor with a deadline that has come have
  -- fired, and every other one is as before.
  pub after_update : Timer → Timer
  after_update timer = elim (queued_on c timer) [
    | none ↦ timer
    | some deadline ↦ if ltb now deadline then timer else is_fired timer
  ]

  -- What the update comes to. The platform's timer is armed for the first deadline that is left.
  pub record Updated (s s' : State heap.Heap) : Type 0 where
    pub kept : IsConsistent heap laws s'
    pub timers_are : (i : ℕ) → s'.timers i ≡ after_update (s.timers i)
    pub armed_early :
        (i d : ℕ) → queued_on c (s'.timers i) ≡ some d → (e : ℕ) × (s'.armed c ≡ some e) × (e ≤ d)
    pub armed_for : (e : ℕ) → s'.armed c ≡ some e → (i : ℕ) × (queued_on c (s'.timers i) ≡ some e)

  abbrev pub Updates : ℕ → State heap.Heap → Type 0
  Updates fuel s =
      (s' : State heap.Heap) × (timer_update heap fuel c (λ k. now) s ≡ some s') × Updated s s'

  after_none : (timer : Timer) → queued_on c timer ≡ none → after_update timer ≡ timer
  unfolding after_update
  after_none timer e = rw (after_update, e) refl

  after_later :
      (timer : Timer) (d : ℕ)
      → queued_on c timer ≡ some d
      → ltb now d ≡ true
      → after_update timer ≡ timer
  unfolding after_update
  after_later timer d e later = rw (after_update, e) (if-true _ later)

  after_due :
      (timer : Timer) (d : ℕ)
      → queued_on c timer ≡ some d
      → ltb now d ≡ false
      → after_update timer ≡ is_fired timer
  unfolding after_update
  after_due timer d e due = rw (after_update, e) (if-false _ due)

  turn_none :
      (fuel : ℕ) (s : State heap.Heap)
      → heap.peek (s.heaps c) ≡ none
      → timer_update heap (suc fuel) c (λ k. now) s ≡ some (arm heap c none s)
  unfolding timer_update
  turn_none fuel s empty = rw (timer_update, empty) refl

  turn_some :
      (fuel root : ℕ) (s : State heap.Heap)
      → heap.peek (s.heaps c) ≡ some root
      → timer_update heap (suc fuel) c (λ k. now) s ≡ (
          if ltb now ((s.timers root).deadline)
          then some (arm heap c (some ((s.timers root).deadline)) s)
          else timer_update heap fuel c (λ k. now) (fire heap c root s))
  unfolding timer_update
  turn_some fuel root s top = rw (timer_update, top) refl

  root_queued :
      (root : ℕ) (s : State heap.Heap)
      → heap.peek (s.heaps c) ≡ some root
      → IsConsistent heap laws s
      → queued_on c (s.timers root) ≡ some ((s.timers root).deadline)
  root_queued root s top v =
      queued_here c (s.timers root) (
        queued_cpu c (s.timers root) (λ e. laws.peek_has (s.heaps c) root top (v.exact c root ∙ e)))

  size_fire :
      (root : ℕ) (s : State heap.Heap)
      → laws.size ((fire heap c root s).heaps c) ≡ laws.size (heap.pop (s.heaps c))
  unfolding fire
  size_fire root s = let self : (c == c) ≡ true = ground arith in ap laws.size (if-true _ self)

  -- The timer that a turn fires is one of those that the update fires.
  fired_first :
      (root : ℕ) (s : State heap.Heap)
      → heap.peek (s.heaps c) ≡ some root
      → ltb now ((s.timers root).deadline) ≡ false
      → IsConsistent heap laws s
      → (i : ℕ) → after_update ((fire heap c root s).timers i) ≡ after_update (s.timers i)
  unfolding fire
  fired_first root s top due v i = elim (Bool-cases (root == i)) [
    | inr other ↦ ap after_update (if-false _ other)
    | inl same ↦
        let e : root ≡ i = ground arith in
        let gone = is_fired (s.timers root) in
        ap after_update (if-true _ same)
        ∙ after_none gone (queued_none c gone refl)
        ∙ sym (after_due (s.timers root) ((s.timers root).deadline) (root_queued root s top v) due)
        ∙ ap (λ x. after_update (s.timers x)) e
  ]

  ends_empty :
      (fuel : ℕ) (s : State heap.Heap)
      → heap.peek (s.heaps c) ≡ none
      → IsConsistent heap laws s
      → Updates (suc fuel) s
  ends_empty fuel s empty v =
      let nothing : (i : ℕ) → queued_on c (s.timers i) ≡ none =
        λ i. sym (v.exact c i) ∙ laws.peek_none (s.heaps c) i empty in
      (
        arm heap c none s,
        turn_none fuel s empty,
        record {
          kept = record { exact = v.exact; on_cpu = v.on_cpu; off_cpu = v.off_cpu };
          timers_are = λ i. sym (after_none (s.timers i) (nothing i));
          armed_early = λ i d e. absurd (cc (nothing i, e));
          armed_for = λ e h. absurd (cc (h, armed_now c none s.armed));
        },
      )

  ends_later :
      (fuel root : ℕ) (s : State heap.Heap)
      → heap.peek (s.heaps c) ≡ some root
      → ltb now ((s.timers root).deadline) ≡ true
      → IsConsistent heap laws s
      → Updates (suc fuel) s
  ends_later fuel root s top later v =
      let first = (s.timers root).deadline in
      let self = root_queued root s top v in
      let least : (i d : ℕ) → queued_on c (s.timers i) ≡ some d → first ≤ d = λ i d e.
        laws.peek_least (s.heaps c) root i first d top (v.exact c root ∙ self) (v.exact c i ∙ e) in
      (
        arm heap c (some first) s,
        turn_some fuel root s top ∙ if-true _ later,
        record {
          kept = record { exact = v.exact; on_cpu = v.on_cpu; off_cpu = v.off_cpu };
          timers_are = λ i. elim (Option-cases (queued_on c (s.timers i))) [
            | inl off ↦ sym (after_none (s.timers i) off)
            | inr (d, on) ↦ sym (after_later (s.timers i) d on (ground (arith, least i d on)))
          ];
          armed_early = λ i d e. (first, armed_now c (some first) s.armed, least i d e);
          armed_for = λ e h. (root, self ∙ sym (armed_now c (some first) s.armed) ∙ h);
        },
      )

  goes_on :
      (fuel root : ℕ) (s : State heap.Heap)
      → heap.peek (s.heaps c) ≡ some root
      → ltb now ((s.timers root).deadline) ≡ false
      → IsConsistent heap laws s
      → Updates fuel (fire heap c root s)
      → Updates (suc fuel) s
  goes_on fuel root s top due v (s', is, u) = (
    s',
    turn_some fuel root s top ∙ if-false _ due ∙ is,
    record {
      kept = u.kept;
      timers_are = λ i. u.timers_are i ∙ fired_first root s top due v i;
      armed_early = u.armed_early;
      armed_for = u.armed_for;
    },
  )

  -- Where the heaps have the laws and are exact, and the clock stands still, `timer_update` returns
  -- within one turn more than its processor's heap has entries. The timers queued there whose deadline
  -- has come have then fired, with no waiter left on them, and every other timer is as before; the heaps are still exact; and the
  -- platform's timer is armed for the least deadline that is left, or for none if no timer is left.
  pub timer_update-Updates :
      (fuel : ℕ) (s : State heap.Heap)
      → IsConsistent heap laws s
      → laws.size (s.heaps c) < fuel
      → Updates fuel s
  timer_update-Updates zero s v lt = absurd (omega arith)
  timer_update-Updates (suc fuel) s v lt = elim (Option-cases (heap.peek (s.heaps c))) [
    | inl empty ↦ ends_empty fuel s empty v
    | inr (root, top) ↦ elim (Bool-cases (ltb now ((s.timers root).deadline))) [
      | inl later ↦ ends_later fuel root s top later v
      | inr due ↦ goes_on fuel root s top due v (
          timer_update-Updates fuel (fire heap c root s)
            (fire-IsConsistent heap laws c root s top v)
            (omega (arith, laws.size_pop (s.heaps c) root top, size_fire root s)))
    ]
  ]
