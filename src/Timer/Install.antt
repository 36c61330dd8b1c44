-- ===== src/Timer/Install.antt =====
-- kernel/core/timer.c: `timer_install` and `timer_uninstall` keep the heaps exact.
use yak_kernel.Prelude.{
  if◌then◌else◌, ℕ, ◌≡◌, refl, sym, ◌∙◌, ap, subst, Bool, true, false, not, inl, inr, ◌∷◌, Option,
  none, some, arith, ◌==◌, if-true, if-false, Bool-cases, Option-cases, put, add_size,
}
use yak_kernel.Status.{success, busy}
use yak_kernel.Timer.{
  TimerHeap, Timer, State, is_queued, timer_queued, timer_canceled, uninstall_locked,
  timer_uninstall, timer_install,
}
use yak_kernel.Timer.Heap.{IsHeap}
use yak_kernel.Timer.Queued.{
  queued_on, queued_none, queued_here, queued_other, IsConsistent, taken_out,
}

module _ (heap : TimerHeap) (laws : IsHeap heap) where
  abbrev queued_now : ℕ → ℕ → ℕ → ℕ → State heap.Heap → State heap.Heap
  queued_now c now i ns_delta s =
      let deadline = add_size now ns_delta in
      let queued : Timer = record (s.timers i) {
        cpu = some c;
        state = timer_queued;
        deadline = deadline;
        obj_signal_count = 0;
      } in
      record s {
        timers = put s.timers i queued;
        heaps = put s.heaps c (heap.insert deadline i (s.heaps c));
        updates = c ∷ s.updates;
      }

  install_busy :
      (c now i ns_delta d : ℕ) (s : State heap.Heap)
      → (s.timers i).cpu ≡ some d
      → timer_install heap c now i ns_delta s ≡ (busy, s)
  unfolding timer_install
  install_busy c now i ns_delta d s on = rw (timer_install, on) refl

  install_queues :
      (c now i ns_delta : ℕ) (s : State heap.Heap)
      → (s.timers i).cpu ≡ none
      → timer_install heap c now i ns_delta s ≡ (success, queued_now c now i ns_delta s)
  unfolding timer_install
  install_queues c now i ns_delta s off = rw (timer_install, off) refl

  installed :
      (c now i ns_delta : ℕ) (s : State heap.Heap)
      → (s.timers i).cpu ≡ none
      → IsConsistent heap laws s
      → IsConsistent heap laws (queued_now c now i ns_delta s)
  installed c now i ns_delta s off v = record {
    exact = λ d j. exact_after d j;
    on_cpu = λ j d e. ground (arith, v.on_cpu j d);
    off_cpu = λ j e. ground (arith, v.off_cpu j);
  }
    where
      deadline : ℕ
      deadline = add_size now ns_delta

      after : State heap.Heap
      after = queued_now c now i ns_delta s

      nowhere : (d : ℕ) → laws.has (s.heaps d) i ≡ none
      nowhere d = v.exact d i ∙ queued_none d (s.timers i) off

      exact_after : (d j : ℕ) → laws.has (after.heaps d) j ≡ queued_on d (after.timers j)
      exact_after d j = elim (Bool-cases (c == d)) [
        | inr away ↦ elim (Bool-cases (i == j)) [
          | inr other ↦
              ap (λ x. laws.has x j) (if-false _ away)
              ∙ v.exact d j
              ∙ ap (queued_on d) (sym (if-false _ other))
          | inl same ↦
              let e : i ≡ j = ground arith in
              ap (λ x. laws.has x j) (if-false _ away)
              ∙ ap (laws.has (s.heaps d)) (sym e)
              ∙ nowhere d
              ∙ sym (ap (queued_on d) (if-true _ same) ∙ queued_other c d _ refl away)
        ]
        | inl here ↦
            let e : c ≡ d = ground arith in
            ap (λ x. laws.has x j) (if-true _ here)
            ∙ laws.has_insert deadline i (s.heaps c) j (nowhere c)
            ∙ elim (Bool-cases (i == j)) [
              | inr other ↦
                  if-false _ other
                  ∙ ap (λ x. laws.has (s.heaps x) j) e
                  ∙ v.exact d j
                  ∙ ap (queued_on d) (sym (if-false _ other))
              | inl same ↦
                  if-true _ same
                  ∙ sym (ap (queued_on d) (if-true _ same) ∙ queued_here d _ (ap some e))
            ]
      ]

  locked_at :
      (c i d : ℕ) (s : State heap.Heap)
      → (s.timers i).cpu ≡ some d
      → uninstall_locked heap c i s ≡ (
          if not (d == c) then s else if not (is_queued ((s.timers i).state)) then s else record s {
            timers = put s.timers i (record (s.timers i) { cpu = none; state = timer_canceled });
            heaps = put s.heaps c (heap.remove i (s.heaps c));
          })
  unfolding uninstall_locked
  locked_at c i d s on =
      let same = λ (o : Option ℕ). elim o as (λ _. Bool) [ none ↦ false | some d ↦ d == c ] in
      let out = record s {
        timers = put s.timers i (record (s.timers i) { cpu = none; state = timer_canceled });
        heaps = put s.heaps c (heap.remove i (s.heaps c));
      } in
      ap (λ o. if not (same o) then s else if not (is_queued ((s.timers i).state)) then s else out)
        on

  locked_nowhere :
      (c i : ℕ) (s : State heap.Heap) → (s.timers i).cpu ≡ none → uninstall_locked heap c i s ≡ s
  unfolding uninstall_locked
  locked_nowhere c i s off =
      let same = λ (o : Option ℕ). elim o as (λ _. Bool) [ none ↦ false | some d ↦ d == c ] in
      if-true _ (ap (λ o. not (same o)) off)

  -- Whatever processor the timer was on before, the second look decides.
  locked-IsConsistent :
      (c i : ℕ) (s : State heap.Heap)
      → IsConsistent heap laws s
      → IsConsistent heap laws (uninstall_locked heap c i s)
  locked-IsConsistent c i s v = elim (Option-cases ((s.timers i).cpu)) [
    | inl off ↦ subst (IsConsistent heap laws) (sym (locked_nowhere c i s off)) v
    | inr (d, on) ↦
        subst (IsConsistent heap laws) (sym (locked_at c i d s on)) (elim (Bool-cases (d == c)) [
          | inr moved ↦ subst (IsConsistent heap laws) (sym (if-true _ (ap not moved))) v
          | inl here ↦
              subst (IsConsistent heap laws) (sym (if-false _ (ap not here)))
                (elim (Bool-cases (is_queued ((s.timers i).state))) [
                  | inr idle ↦ subst (IsConsistent heap laws) (sym (if-true _ (ap not idle))) v
                  | inl queued ↦
                      let e : d ≡ c = ground arith in
                      let at_c : (s.timers i).cpu ≡ some c = on ∙ ap some e in
                      subst (IsConsistent heap laws) (sym (if-false _ (ap not queued))) (
                        taken_out heap laws c i _ _ s.woken s refl refl at_c
                          (λ j.
                            laws.has_remove i (s.heaps c) ((s.timers i).deadline) j
                              (v.exact c i ∙ queued_here c (s.timers i) at_c))
                          v)
                ])
        ])
  ]

  uninstall_idle :
      (window : State heap.Heap → State heap.Heap) (i : ℕ) (s : State heap.Heap)
      → is_queued ((s.timers i).state) ≡ false
      → timer_uninstall heap window i s ≡ s
  unfolding timer_uninstall
  uninstall_idle window i s idle = if-true _ (ap not idle)

  uninstall_queued :
      (window : State heap.Heap → State heap.Heap) (i c : ℕ) (s : State heap.Heap)
      → is_queued ((s.timers i).state) ≡ true
      → (s.timers i).cpu ≡ some c
      → timer_uninstall heap window i s ≡ uninstall_locked heap c i (window s)
  unfolding timer_uninstall
  uninstall_queued window i c s queued on =
      let at_cpu = λ (o : Option ℕ). elim o as (λ _. State heap.Heap) [
        | none ↦ s
        | some d ↦ uninstall_locked heap d i (window s)
      ] in
      if-false _ (ap not queued) ∙ ap at_cpu on

  -- With a heap that has the laws, installing a timer that is on no processor, and refusing one that
  -- is, keep the heaps exact: each has the timers queued on its processor, with their deadlines.
  pub timer_install-IsConsistent :
      (c now i ns_delta : ℕ) (s : State heap.Heap)
      → IsConsistent heap laws s
      → IsConsistent heap laws (timer_install heap c now i ns_delta s).1
  unfolding timer_install
  timer_install-IsConsistent c now i ns_delta s v = elim (Option-cases ((s.timers i).cpu)) [
    | inr (d, on) ↦
        subst (IsConsistent heap laws) (sym (ap (λ r. r.1) (install_busy c now i ns_delta d s on)))
          v
    | inl off ↦
        subst (IsConsistent heap laws) (sym (ap (λ r. r.1) (install_queues c now i ns_delta s off)))
          (installed c now i ns_delta s off v)
  ]

  -- With a heap that has the laws, cancelling a timer, queued or not, keeps the heaps exact, whatever the other
  -- processors do while `timer_uninstall` holds neither lock, if that keeps them exact: also where one
  -- of them fires the timer, or where it is installed on another.
  pub timer_uninstall-IsConsistent :
      (window : State heap.Heap → State heap.Heap) (i : ℕ) (s : State heap.Heap)
      → IsConsistent heap laws s
      → IsConsistent heap laws (window s)
      → IsConsistent heap laws (timer_uninstall heap window i s)
  timer_uninstall-IsConsistent window i s v w = elim (Bool-cases (is_queued ((s.timers i).state))) [
    | inr idle ↦ subst (IsConsistent heap laws) (sym (uninstall_idle window i s idle)) v
    | inl queued ↦ elim (Option-cases ((s.timers i).cpu)) [
      | inl off ↦ absurd (cc (queued, v.off_cpu i off))
      | inr (c, on) ↦
          subst (IsConsistent heap laws) (sym (uninstall_queued window i c s queued on))
            (locked-IsConsistent c i (window s) w)
    ]
  ]
