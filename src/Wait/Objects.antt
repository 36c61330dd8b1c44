-- ===== src/Wait/Objects.antt =====
-- kernel/core/kevent.c, semaphore.c and timer.c: the operations on objects pass their assertions and keep
-- the invariant.
use yak_kernel.Prelude.{
  ℕ, ◌+◌, ◌≡◌, refl, ◌∙◌, Bool, true, false, not, ◌⊎◌, ◌==◌, List, [], ◌∷◌, length, arith, inl, inr,
  Bool-cases, Option, some, ltb,
}
use yak_kernel.Wait.{
  Block, inline_block, timeout_block, State, block_at, is_sync, set_signals, event_alarm,
  semaphore_signal, timer_fire,
}
use yak_kernel.Wait.Step.{Machine}
use yak_kernel.Wait.Lists.{occurs}
use yak_kernel.Wait.Sound.{IsSound, expected}
use yak_kernel.Wait.Keep.{with_state}
use yak_kernel.Wait.Account.{Accounted}
use yak_kernel.Wait.Signal.{kobject_signal_locked-returns}

length-empty : (bs : List Block) → length bs ≡ 0 → bs ≡ []
length-empty [] e = refl
length-empty (b ∷ bs) e = absurd (omega arith)

module _ (m : Machine) (o n : ℕ) where
  same_list :
      (b : Block) (p : ℕ)
      → occurs b (((set_signals o n m.state).objects p).obj_wait_list)
        ≡ occurs b ((m.state.objects p).obj_wait_list)
  same_list b p = ground arith

  same_block : (b : Block) → block_at b (set_signals o n m.state) ≡ block_at b m.state
  same_block (inline_block t) = refl
  same_block (timeout_block t) = refl

  same_expected :
      (b : Block) (p : ℕ) → expected b m p ≡ expected b (with_state m (set_signals o n m.state)) p
  same_expected (inline_block t) p = refl
  same_expected (timeout_block t) p = refl

  -- An object may be signaled when nothing is on its list.
  pub set_signals-IsSound :
      (n ≡ 0) ⊎ ((m.state.objects o).obj_wait_list ≡ [])
      → IsSound m
      → IsSound (with_state m (set_signals o n m.state))
  set_signals-IsSound empty v = record {
    counts = λ p. ground (arith, v.counts p, v.counts o);
    lists = λ b p. same_list b p ∙ v.lists b p ∙ same_expected b p;
    timers = v.timers;
    targets = v.targets;
    engaged = v.engaged;
    quiet = λ p b lt on. rw (same_block b) (elim empty [
      | inl none_set ↦ v.quiet p b (ground (arith, none_set)) (omega (arith, same_list b p, on))
      | inr no_block ↦ v.quiet p b (ground (arith, no_block)) (omega (arith, same_list b p, on))
    ]);
  }

abbrev pub Keeps : Machine → Option State → Type 0
Keeps m r =
    (s : State) × (r ≡ some s)
    × IsSound (with_state m s)
    × (Accounted m → Accounted (with_state m s))

pub semaphore_signal-Keeps :
    (m : Machine) (o : ℕ) → IsSound m → Keeps m (semaphore_signal o m.state)
unfolding semaphore_signal
semaphore_signal-Keeps m o v =
    let (woken, s, r, w) = kobject_signal_locked-returns m o false v in
    elim (Bool-cases (woken == 0)) [
      | inl nobody ↦ (
        set_signals o ((s.objects o).obj_signal_count + 1) s,
        rw (semaphore_signal, r, nobody) refl,
        set_signals-IsSound (with_state m s) o ((s.objects o).obj_signal_count + 1)
            (elim w.ended [ inl empty ↦ inr empty | inr (f, one) ↦ absurd (ground (arith, one)) ])
            w.sound,
        w.accounted,
      )
      | inr somebody ↦ (s, rw (semaphore_signal, r, somebody) refl, w.sound, w.accounted)
    ]

pub timer_fire-Keeps : (m : Machine) (o : ℕ) → IsSound m → Keeps m (timer_fire o m.state)
unfolding timer_fire
timer_fire-Keeps m o v = elim (Bool-cases (ltb 0 ((m.state.objects o).obj_wait_count))) [
  | inl waited ↦
      let (woken, s, r, w) = kobject_signal_locked-returns m o true v in
      (
        set_signals o 1 s,
        rw (timer_fire, waited, r) refl,
        set_signals-IsSound (with_state m s) o 1
            (elim w.ended [ inl empty ↦ inr empty | inr (t, one) ↦ absurd (cc) ]) w.sound,
        w.accounted,
      )
  | inr alone ↦ (
    set_signals o 1 m.state,
    rw (timer_fire, alone) refl,
    set_signals-IsSound m o 1
        (inr (length-empty ((m.state.objects o).obj_wait_list) (ground (arith, alone, v.counts o))))
        v,
    λ a. a,
  )
]

pub event_alarm-Keeps :
    (m : Machine) (o : ℕ) (all : Bool) → IsSound m → Keeps m (event_alarm o all m.state)
unfolding event_alarm
event_alarm-Keeps m o all v = elim (Bool-cases (not ((m.state.objects o).obj_signal_count == 0))) [
  | inl signaled ↦ (m.state, rw (event_alarm, signaled) refl, v, λ a. a)
  | inr clear ↦ elim (Bool-cases ((m.state.objects o).obj_wait_count == 0)) [
    | inl alone ↦ (
      set_signals o 1 m.state,
      rw (event_alarm, clear, alone) refl,
      set_signals-IsSound m o 1
          (inr
            (length-empty ((m.state.objects o).obj_wait_list) (ground (arith, alone, v.counts o))))
          v,
      λ a. a,
    )
    | inr waited ↦ elim (Bool-cases (is_sync ((m.state.objects o).obj_type))) [
      | inl sync ↦
          let (woken, s, r, w) = kobject_signal_locked-returns m o all v in
          (s, rw (event_alarm, clear, waited, sync, r, sync) refl, w.sound, w.accounted)
      | inr notif ↦
          let (woken, s, r, w) = kobject_signal_locked-returns m o true v in
          (
            set_signals o 1 s,
            rw (event_alarm, clear, waited, notif, r, notif) refl,
            set_signals-IsSound (with_state m s) o 1
                (elim w.ended [ inl empty ↦ inr empty | inr (t, one) ↦ absurd (cc) ]) w.sound,
            w.accounted,
          )
    ]
  ]
]
