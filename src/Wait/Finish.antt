-- ===== src/Wait/Finish.antt =====
-- kernel/core/wait.c: the end of `sched_wait` keeps the invariant.
use yak_kernel.Prelude.{ℕ, ◌≡◌, refl, Bool, true, false, arith, some, subst}
use yak_kernel.Wait.{Block, inline_block, timeout_block, block_eq, State, block_at, phase_none}
use yak_kernel.Wait.Step.{
  Place, outside, at_inline, at_timer, Machine, finish, wb_dequeue, Outcome, ran, assert_failed,
  disabled, moved, after, go_on,
}
use yak_kernel.Wait.Sound.{inline_queued, timeout_queued, queued, expected, Engaged, IsSound}
use yak_kernel.Wait.Lists.{occurs}
use yak_kernel.Wait.Keep.{with_state, put_thread-Engaged}
use yak_kernel.Wait.Waiting.{at_place}
use yak_kernel.Wait.Dequeue.{wb_dequeue-Keeps}

-- What a step may end in.
abbrev pub Fine : Outcome → Type 0
Fine (ran m) = IsSound m
Fine assert_failed = ⊥
Fine disabled = Unit {0}

pub engaged_at :
    (m : Machine) (t : ℕ) (v : IsSound m) (p : Place)
    → m.places t ≡ p
    → Engaged p (m.state.threads t)
engaged_at m t v p e = subst (λ p. Engaged p (m.state.threads t)) e (v.engaged t)

finish-IsSound :
    (t : ℕ) (a : Bool) (m : Machine)
    → m.places t ≡ outside
    → IsSound m
    → IsSound (with_state m (finish t a m.state))
finish-IsSound t false m e v = v
finish-IsSound t true m e v = record {
  counts = v.counts;
  lists = λ c o. same_lists c o;
  timers = λ u. ground (arith, v.timers u);
  targets = λ u w. ground (arith, v.targets u w);
  engaged =
      put_thread-Engaged m t (record (m.state.threads t) { wait_phase = phase_none })
        (rw e (subst (λ p. Engaged p (m.state.threads t)) e (v.engaged t))) v.engaged;
  quiet = λ o c lt on. same_unwaited c (v.quiet o c lt on);
}
  where
    same_lists :
        (c : Block) (o : ℕ)
        → occurs c ((m.state.objects o).obj_wait_list)
          ≡ expected c (with_state m (finish t true m.state)) o
    same_lists (inline_block u) o = ground (arith, v.lists (inline_block u) o)
    same_lists (timeout_block u) o = ground (arith, v.lists (timeout_block u) o)

    same_unwaited :
        (c : Block)
        → (block_at c m.state).unwaited ≡ true
        → (block_at c (finish t true m.state)).unwaited ≡ true
    same_unwaited (inline_block u) e = ground arith
    same_unwaited (timeout_block u) e = ground arith

module _ (t : ℕ) (m : Machine) (v : IsSound m) where
  dequeue-Fine :
      (b : Block) (next : Place) (f : State → State)
      → (s : State) × (wb_dequeue b m.state ≡ some s)
        × IsSound (at_place m t next s)
        × (s.threads ≡ m.state.threads)
      → ((s : State) → IsSound (at_place m t next s) → IsSound (at_place m t next (f s)))
      → Fine (after (λ s. moved t next m (f s)) (wb_dequeue b m.state))
  dequeue-Fine b next f (s, r, w, same) keep = rw r (keep s w)

  apart_inline :
      (next : Place)
      → timeout_queued (m.places t) ≡ timeout_queued next
      → (c : Block) → block_eq c (inline_block t) ≡ false
      → queued c m ≡ queued c (at_place m t next m.state)
  apart_inline next k (inline_block u) a = ground arith
  apart_inline next k (timeout_block u) a = ground arith

  apart_timeout :
      (next : Place)
      → inline_queued (m.places t) ≡ inline_queued next
      → (c : Block) → block_eq c (timeout_block t) ≡ false
      → queued c m ≡ queued c (at_place m t next m.state)
  apart_timeout next k (inline_block u) a = ground arith
  apart_timeout next k (timeout_block u) a = ground arith

  pub inline-Fine : (h a : Bool) → m.places t ≡ at_inline h a → Fine (go_on t (at_inline h a) m)
  unfolding go_on
  inline-Fine true true e =
      let (r, i, k, never) = engaged_at m t v (at_inline true true) e in absurd (cc)
  inline-Fine true false e =
      dequeue-Fine (inline_block t) (at_timer false) (λ s. s)
        (wb_dequeue-Keeps m v (inline_block t) t (at_timer false) (rw e refl) (ground arith)
          (apart_inline (at_timer false) (rw e refl))
          (let (r, i, k, n) = engaged_at m t v (at_inline true false) e in (r, i, k)))
        (λ s w. w)
  inline-Fine false a e =
      dequeue-Fine (inline_block t) outside (finish t a)
        (wb_dequeue-Keeps m v (inline_block t) t outside (rw e refl) (ground arith)
          (apart_inline outside (rw e refl)) (engaged_at m t v (at_inline false a) e).0)
        (λ s w. finish-IsSound t a (at_place m t outside s) (ground arith) w)

  pub timer-Fine : (a : Bool) → m.places t ≡ at_timer a → Fine (go_on t (at_timer a) m)
  unfolding go_on
  timer-Fine true e =
      dequeue-Fine (timeout_block t) (at_inline false true) (λ s. s)
        (wb_dequeue-Keeps m v (timeout_block t) t (at_inline false true) (rw e refl) (ground arith)
          (apart_timeout (at_inline false true) (rw e refl))
          (let (r, i, k) = engaged_at m t v (at_timer true) e in (r, i, k, refl)))
        (λ s w. w)
  timer-Fine false e =
      dequeue-Fine (timeout_block t) outside (λ s. s)
        (wb_dequeue-Keeps m v (timeout_block t) t outside (rw e refl) (ground arith)
          (apart_timeout outside (rw e refl)) (engaged_at m t v (at_timer false) e).0)
        (λ s w. w)
