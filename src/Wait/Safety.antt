-- ===== src/Wait/Safety.antt =====
-- What holds of kernel/core/wait.c and the objects it waits on, wherever the steps lead.
use yak_kernel.Prelude.{
  ◌⊎◌, true, sym, ltb, ℕ, ◌+◌, ◌≡◌, ◌≢◌, refl, ap, ◌∙◌, Bool, false, ◌==◌, [], arith, inl, inr,
  Bool-cases, some, subst,
}
use yak_kernel.Wait.{
  Block, inline_block, timeout_block, State, timer_of, running, waiting, semaphore_signal,
  set_signals,
}
use yak_kernel.Wait.Step.{outside, at_sleep, Machine, ran, Action, step}
use yak_kernel.Wait.Lists.{occurs}
use yak_kernel.Wait.Sound.{IsSound, expected}
use yak_kernel.Wait.Account.{Accounted}
use yak_kernel.Wait.Finish.{Fine, engaged_at}
use yak_kernel.Wait.Reach.{step-Fine}
use yak_kernel.Wait.Balance.{Accounts, step-Accounts}
use yak_kernel.Wait.Signal.{Woken, has_live, kobject_signal_locked-returns}

-- No thread is in `sched_wait`, and nothing is on a list.
pub record IsFresh (m : Machine) : Type 0 where
  pub calls : (t : ℕ) → m.places t ≡ outside
  pub runs : (t : ℕ) → (m.state.threads t).status ≡ running
  pub timers : (t : ℕ) → (m.state.threads t).timeout.object ≡ timer_of t
  pub targets : (t u : ℕ) → (m.state.threads t).inline.object ≢ timer_of u
  pub no_count : (o : ℕ) → (m.state.objects o).obj_wait_count ≡ 0
  pub no_block : (o : ℕ) → (m.state.objects o).obj_wait_list ≡ []

pub data Reached (m : Machine) : Machine → Type 0 where
  start : Reached m m
  next : (a : Action) (l k : Machine) → Reached m l → step a l ≡ ran k → Reached m k

pub fresh-IsSound : (m : Machine) → IsFresh m → IsSound m
fresh-IsSound m f = record {
  counts = λ o. f.no_count o ∙ rw (f.no_block o) refl;
  lists = λ b o. ap (occurs b) (f.no_block o) ∙ nothing b o;
  timers = f.timers;
  targets = f.targets;
  engaged = λ t. rw (f.calls t) (f.runs t);
  quiet = λ o b lt on. absurd (omega (arith, on, ap (occurs b) (f.no_block o)));
}
  where
    nothing : (b : Block) (o : ℕ) → 0 ≡ expected b m o
    nothing (inline_block t) o = rw (f.calls t) refl
    nothing (timeout_block t) o = rw (f.calls t) refl

fresh-Accounted : (m : Machine) → IsFresh m → Accounted m
fresh-Accounted m f t q d = absurd (ground (arith, f.calls t))

pub reached-IsSound : (m k : Machine) → IsFresh m → Reached m k → IsSound k × Accounted k
reached-IsSound m _ f start = (fresh-IsSound m f, fresh-Accounted m f)
reached-IsSound m _ f (next a l k r e) =
    let (v, c) = reached-IsSound m l f r in
    (subst Fine e (step-Fine a l v), subst Accounts e (step-Accounts a l v c))

-- A thread that sleeps in `sched_wait`, reached from a state in which no thread waits, has its wait block on
-- the wait list of its object, once, and the object is not signaled.
pub sleeping-listed :
    (m k : Machine) (t : ℕ) (h : Bool)
    → IsFresh m
    → Reached m k
    → k.places t ≡ at_sleep h
    → (k.state.threads t).status ≡ waiting
    → (occurs (inline_block t) ((k.state.objects ((k.state.threads t).inline.object)).obj_wait_list)
        ≡ 1)
      × ((k.state.objects ((k.state.threads t).inline.object)).obj_signal_count ≡ 0)
sleeping-listed m k t h f r e w =
    let (v, c) = reached-IsSound m k f r in
    let (st, same) = engaged_at k t v (at_sleep h) e in
    let o = (k.state.threads t).inline.object in
    let on : occurs (inline_block t)
          ((k.state.objects ((k.state.threads t).inline.object)).obj_wait_list)
        ≡ 1 =
      ground (arith, v.lists (inline_block t) ((k.state.threads t).inline.object), e, c t) in
    (on, ground (arith, v.quiet ((k.state.threads t).inline.object) (inline_block t), on))

-- `semaphore_signal` returns where the wait blocks, the lists and the threads' places agree, as they do in all
-- states reached from one in which no thread waits. If a block on the semaphore's list has not been
-- unwaited elsewhere, it leaves the count as it is and wakes the thread of such a block: the block is
-- now unwaited, the thread has its status, and is ready if it was asleep, or finds its wait aborted
-- before it sleeps. Otherwise it adds 1 to the count.
pub semaphore_signal-wakes_or_counts :
    (m : Machine) (o : ℕ)
    → IsSound m
    → let signals = (m.state.objects o).obj_signal_count in
      let live = has_live m.state ((m.state.objects o).obj_wait_list) in
      (s : State) × (semaphore_signal o m.state ≡ some s)
      × (((live ≡ true)
            × ((s.objects o).obj_signal_count ≡ signals)
            × Woken m.state s ((m.state.objects o).obj_wait_list))
          ⊎ ((live ≡ false) × ((s.objects o).obj_signal_count ≡ signals + 1)))
unfolding semaphore_signal
semaphore_signal-wakes_or_counts m o v =
    let (woken, s, r, w) = kobject_signal_locked-returns m o false v in
    elim (Bool-cases (woken == 0)) [
      | inl nobody ↦ (
        set_signals o ((s.objects o).obj_signal_count + 1) s,
        rw (semaphore_signal, r, nobody) refl,
        inr (sym w.wakes ∙ ground (arith, nobody), ground (arith, nobody, w.signals o)),
      )
      | inr somebody ↦
          let some_woken : ltb 0 woken ≡ true = ground (arith, somebody) in
          (
            s,
            rw (semaphore_signal, r, somebody) refl,
            inl (sym w.wakes ∙ some_woken, w.signals o, w.wakes_one refl some_woken),
          )
    ]
