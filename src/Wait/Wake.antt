-- ===== src/Wait/Wake.antt =====
-- kernel/core/wait.c: `thread_unwait` on a thread that still waits passes its assertion and keeps the
-- invariant, and so does one turn of the loop of `kobject_signal_locked` (kernel/core/object.c).
use yak_kernel.Prelude.{
  ℕ, ◌≡◌, refl, sym, ap, ◌∙◌, true, false, not, ◌||◌, ◌==◌, if◌then◌else◌, List, ◌∷◌, arith, inl,
  inr, Bool-cases, some,
}
use yak_kernel.Status.{Status}
use yak_kernel.Wait.{
  Block, inline_block, timeout_block, WaitBlock, Kthread, State, block_at, popped, owner,
  mark_dequeued, thread_unwait, unwaited_thread, put_thread, is_waiting, is_in_progress,
  signal_block, signal_first,
}
use yak_kernel.Wait.Step.{
  Place, outside, at_check, at_timeout, at_commit, at_sleep, at_inline, at_timer, Machine,
}
use yak_kernel.Wait.Lists.{occurs}
use yak_kernel.Wait.Sound.{expected, Engaged, IsSound}
use yak_kernel.Wait.Keep.{
  with_state, is_queued, listed-is_queued, put_thread-Engaged, popped-IsSound,
}

abbrev pub block_in : Block → Kthread → WaitBlock
block_in (inline_block t) th = th.inline
block_in (timeout_block t) th = th.timeout

abbrev pub CanUnwait : Kthread → Type 0
CanUnwait th = (is_waiting th.status || is_in_progress th.wait_phase) ≡ true

can_unwait :
    (b : Block) (p : Place) (th : Kthread)
    → is_queued b p ≡ true
    → Engaged p th
    → (block_in b th).unwaited ≡ false
    → CanUnwait th
can_unwait (inline_block t) outside th q e u = absurd (cc)
can_unwait (inline_block t) (at_check o h) th q e u = absurd (cc)
can_unwait (inline_block t) at_timeout th q e u = ground arith
can_unwait (inline_block t) (at_commit h) th q e u = ground arith
can_unwait (inline_block t) (at_sleep h) th q e u = ground arith
can_unwait (inline_block t) (at_inline h a) th q e u = ground arith
can_unwait (inline_block t) (at_timer a) th q e u = ground arith
can_unwait (timeout_block t) outside th q e u = absurd (cc)
can_unwait (timeout_block t) (at_check o h) th q e u = absurd (cc)
can_unwait (timeout_block t) at_timeout th q e u = absurd (cc)
can_unwait (timeout_block t) (at_commit h) th q e u = ground arith
can_unwait (timeout_block t) (at_sleep h) th q e u = ground arith
can_unwait (timeout_block t) (at_inline h a) th q e u = ground arith
can_unwait (timeout_block t) (at_timer a) th q e u = ground arith

unwaited_thread-Engaged :
    (b : Block) (p : Place) (st : Status) (th : Kthread)
    → is_queued b p ≡ true
    → Engaged p th
    → (block_in b th).unwaited ≡ false
    → Engaged p (unwaited_thread st th)
unwaited_thread-Engaged (inline_block t) outside st th q e u = absurd (cc)
unwaited_thread-Engaged (timeout_block t) outside st th q e u = absurd (cc)
unwaited_thread-Engaged (inline_block t) (at_check o h) st th q e u = absurd (cc)
unwaited_thread-Engaged (timeout_block t) (at_check o h) st th q e u = absurd (cc)
unwaited_thread-Engaged b at_timeout st th q e u = ground arith
unwaited_thread-Engaged b (at_commit h) st th q e u = ground arith
unwaited_thread-Engaged (inline_block t) (at_sleep h) st th q e u = ground arith
unwaited_thread-Engaged (timeout_block t) (at_sleep h) st th q e u = ground arith
unwaited_thread-Engaged (inline_block t) (at_inline h a) st th q e u = ground arith
unwaited_thread-Engaged (timeout_block t) (at_inline h a) st th q e u = ground arith
unwaited_thread-Engaged (inline_block t) (at_timer a) st th q e u = ground arith
unwaited_thread-Engaged (timeout_block t) (at_timer a) st th q e u = ground arith

unwaited-lists :
    (m : Machine) (t : ℕ) (st : Status) (c : Block) (p : ℕ)
    → IsSound m
    → occurs c ((m.state.objects p).obj_wait_list)
      ≡ expected c (with_state m (put_thread t (unwaited_thread st (m.state.threads t)) m.state)) p
unwaited-lists m t st (inline_block u) p v = ground (arith, v.lists (inline_block u) p)
unwaited-lists m t st (timeout_block u) p v = ground (arith, v.lists (timeout_block u) p)

unwaited-quiet :
    (m : Machine) (t : ℕ) (st : Status) (c : Block)
    → (block_at c m.state).unwaited ≡ true
    → (block_at c (put_thread t (unwaited_thread st (m.state.threads t)) m.state)).unwaited ≡ true
unwaited-quiet m t st (inline_block u) e = ground arith
unwaited-quiet m t st (timeout_block u) e = ground arith

unwaited-IsSound :
    (m : Machine) (b : Block) (st : Status)
    → is_queued b (m.places (owner b)) ≡ true
    → (block_in b (m.state.threads (owner b))).unwaited ≡ false
    → IsSound m
    → IsSound (
        with_state m
          (put_thread (owner b) (unwaited_thread st (m.state.threads (owner b))) m.state))
unwaited-IsSound m b st q u v = record {
  counts = v.counts;
  lists = λ c p. unwaited-lists m (owner b) st c p v;
  timers = λ t. ground (arith, v.timers t);
  targets = λ t w. ground (arith, v.targets t w);
  engaged =
      put_thread-Engaged m (owner b) (unwaited_thread st (m.state.threads (owner b)))
        (unwaited_thread-Engaged b (m.places (owner b)) st (m.state.threads (owner b)) q
          (v.engaged (owner b)) u)
        v.engaged;
  quiet = λ p c lt on. unwaited-quiet m (owner b) st c (v.quiet p c lt on);
}

-- The block's thread woken, and the state behind one turn of the loop.
abbrev pub woken_by : ℕ → Block → List Block → State → State
woken_by o b rest s =
    let s' = popped o b rest s in
    put_thread (owner b) (unwaited_thread ((block_at b s).status) (s'.threads (owner b))) s'

abbrev pub turned : ℕ → Block → List Block → State → State
turned o b rest s = if (block_at b s).unwaited then popped o b rest s else woken_by o b rest s

popped-block :
    (b : Block) (o : ℕ) (rest : List Block) (s : State)
    → (block_in b ((popped o b rest s).threads (owner b))).unwaited ≡ (block_at b s).unwaited
popped-block (inline_block t) o rest s = ground arith
popped-block (timeout_block t) o rest s = ground arith

popped-thread :
    (b : Block) (o : ℕ) (rest : List Block) (s : State)
    → (popped o b rest s).threads (owner b) ≡ mark_dequeued b (s.threads (owner b))
popped-thread b o rest s = rw (block_eq_self (owner b)) refl
  where
    block_eq_self : (n : ℕ) → (n == n) ≡ true
    block_eq_self n = ground arith

mark_dequeued-CanUnwait : (b : Block) (th : Kthread) → CanUnwait th → CanUnwait (mark_dequeued b th)
mark_dequeued-CanUnwait (inline_block t) th c = c
mark_dequeued-CanUnwait (timeout_block t) th c = c

block_at_in : (b : Block) (s : State) → block_at b s ≡ block_in b (s.threads (owner b))
block_at_in (inline_block t) s = refl
block_at_in (timeout_block t) s = refl

module _ (m : Machine) (o : ℕ) (b : Block) (rest : List Block)
    (e : (m.state.objects o).obj_wait_list ≡ b ∷ rest) (v : IsSound m) where
  pub turned-IsSound : IsSound (with_state m (turned o b rest m.state))
  turned-IsSound = elim (Bool-cases ((block_at b m.state).unwaited)) [
    | inl u ↦ rw u (popped-IsSound m o b rest e v)
    | inr u ↦ rw u (
        unwaited-IsSound (with_state m (popped o b rest m.state)) b ((block_at b m.state).status)
          (listed-is_queued m o b rest e v) (popped-block b o rest m.state ∙ u)
          (popped-IsSound m o b rest e v))
  ]

  pub signal_first-turned :
      signal_first o m.state ≡ some (not ((block_at b m.state).unwaited), turned o b rest m.state)
  unfolding signal_first signal_block thread_unwait
  signal_first-turned = elim (Bool-cases ((block_at b m.state).unwaited)) [
    | inl u ↦ rw (signal_first, e, signal_block, u) refl
    | inr u ↦
        let ok : CanUnwait ((popped o b rest m.state).threads (owner b)) =
          rw (popped-thread b o rest m.state) (
            mark_dequeued-CanUnwait b (m.state.threads (owner b)) (
              can_unwait b (m.places (owner b)) (m.state.threads (owner b))
                (listed-is_queued m o b rest e v) (v.engaged (owner b))
                (sym (ap (λ wb. wb.unwaited) (block_at_in b m.state)) ∙ u))) in
        rw (signal_first, e, signal_block, u, thread_unwait, ok) refl
  ]
