-- ===== src/Wait/Keep.antt =====
-- kernel/core/object.c: one turn of the loop of `kobject_signal_locked` keeps the invariant.
use yak_kernel.Prelude.{
  ℕ, ◌<◌, ◌≡◌, ◌≢◌, Bool, true, ◌==◌, List, ◌∷◌, arith, inl, inr, Bool-cases, subst,
}
use yak_kernel.Wait.{
  Block, inline_block, timeout_block, Kthread, State, block_at, timer_of, popped, owner,
  mark_dequeued, put_thread,
}
use yak_kernel.Wait.Step.{
  Place, outside, at_check, at_timeout, at_commit, at_sleep, at_inline, at_timer, Machine,
}
use yak_kernel.Wait.Lists.{occurs}
use yak_kernel.Wait.Sound.{inline_queued, timeout_queued, expected, Engaged, IsSound}

abbrev pub with_state : Machine → State → Machine
with_state m s = record m { state = s }

popped-lists :
    (m : Machine) (o : ℕ) (b : Block) (rest : List Block) (c : Block) (p : ℕ)
    → (m.state.objects o).obj_wait_list ≡ b ∷ rest
    → IsSound m
    → occurs c (((popped o b rest m.state).objects p).obj_wait_list)
      ≡ expected c (with_state m (popped o b rest m.state)) p
popped-lists m o (inline_block t) rest (inline_block u) p e v =
    ground
      (arith, e, v.lists (inline_block u) p, v.lists (inline_block t) o, v.lists (inline_block t) p)
popped-lists m o (inline_block t) rest (timeout_block u) p e v =
    ground (arith, e, v.lists (timeout_block u) p, v.lists (timeout_block u) o)
popped-lists m o (timeout_block t) rest (inline_block u) p e v =
    ground (arith, e, v.lists (inline_block u) p, v.lists (inline_block u) o)
popped-lists m o (timeout_block t) rest (timeout_block u) p e v = ground (
  arith,
  e,
  v.lists (timeout_block u) p,
  v.lists (timeout_block t) o,
  v.lists (timeout_block t) p,
)

-- A block that is on a list is one that its thread has queued.
abbrev pub is_queued : Block → Place → Bool
is_queued (inline_block t) p = inline_queued p
is_queued (timeout_block t) p = timeout_queued p

mark_dequeued-Engaged :
    (b : Block) (p : Place) (th : Kthread)
    → is_queued b p ≡ true
    → Engaged p th
    → Engaged p (mark_dequeued b th)
mark_dequeued-Engaged (inline_block t) outside th q e = e
mark_dequeued-Engaged (inline_block t) (at_check o h) th q e = absurd (cc)
mark_dequeued-Engaged (inline_block t) at_timeout th q e = e
mark_dequeued-Engaged (inline_block t) (at_commit h) th q e = e
mark_dequeued-Engaged (inline_block t) (at_sleep h) th q e = e
mark_dequeued-Engaged (inline_block t) (at_inline h a) th q e = e
mark_dequeued-Engaged (inline_block t) (at_timer a) th q e = e
mark_dequeued-Engaged (timeout_block t) outside th q e = e
mark_dequeued-Engaged (timeout_block t) (at_check o h) th q e = absurd (cc)
mark_dequeued-Engaged (timeout_block t) at_timeout th q e = absurd (cc)
mark_dequeued-Engaged (timeout_block t) (at_commit h) th q e = e
mark_dequeued-Engaged (timeout_block t) (at_sleep h) th q e = e
mark_dequeued-Engaged (timeout_block t) (at_inline h a) th q e = e
mark_dequeued-Engaged (timeout_block t) (at_timer a) th q e = e

pub listed-is_queued :
    (m : Machine) (o : ℕ) (b : Block) (rest : List Block)
    → (m.state.objects o).obj_wait_list ≡ b ∷ rest
    → IsSound m
    → is_queued b (m.places (owner b)) ≡ true
listed-is_queued m o (inline_block t) rest e v = ground (arith, e, v.lists (inline_block t) o)
listed-is_queued m o (timeout_block t) rest e v = ground (arith, e, v.lists (timeout_block t) o)

-- The fields of one thread changed.
pub put_thread-Engaged :
    (m : Machine) (t : ℕ) (th : Kthread)
    → Engaged (m.places t) th
    → ((u : ℕ) → Engaged (m.places u) (m.state.threads u))
    → (u : ℕ) → Engaged (m.places u) ((put_thread t th m.state).threads u)
put_thread-Engaged m t th e others u = elim (Bool-cases (t == u)) [
  | inl same ↦ let at : t ≡ u = ground arith in rw same (subst (λ u. Engaged (m.places u) th) at e)
  | inr apart ↦ rw apart (others u)
]

popped-quiet :
    (m : Machine) (o : ℕ) (b : Block) (rest : List Block) (c : Block) (p : ℕ)
    → (m.state.objects o).obj_wait_list ≡ b ∷ rest
    → IsSound m
    → 0 < ((popped o b rest m.state).objects p).obj_signal_count
    → 0 < occurs c (((popped o b rest m.state).objects p).obj_wait_list)
    → (block_at c (popped o b rest m.state)).unwaited ≡ true
popped-quiet m o (inline_block t) rest (inline_block u) p e v =
    ground (arith, e, v.quiet o (inline_block u), v.quiet p (inline_block u))
popped-quiet m o (inline_block t) rest (timeout_block u) p e v =
    ground (arith, e, v.quiet o (timeout_block u), v.quiet p (timeout_block u))
popped-quiet m o (timeout_block t) rest (inline_block u) p e v =
    ground (arith, e, v.quiet o (inline_block u), v.quiet p (inline_block u))
popped-quiet m o (timeout_block t) rest (timeout_block u) p e v =
    ground (arith, e, v.quiet o (timeout_block u), v.quiet p (timeout_block u))

pub popped-IsSound :
    (m : Machine) (o : ℕ) (b : Block) (rest : List Block)
    → (m.state.objects o).obj_wait_list ≡ b ∷ rest
    → IsSound m
    → IsSound (with_state m (popped o b rest m.state))
popped-IsSound m o b rest e v = record {
  counts = λ p. ground (arith, e, v.counts p, v.counts o);
  lists = λ c p. popped-lists m o b rest c p e v;
  timers = λ t. mark_dequeued-timers b t;
  targets = λ t u. mark_dequeued-targets b t u;
  engaged =
      put_thread-Engaged m (owner b) (mark_dequeued b (m.state.threads (owner b)))
        (mark_dequeued-Engaged b (m.places (owner b)) (m.state.threads (owner b))
          (listed-is_queued m o b rest e v) (v.engaged (owner b)))
        v.engaged;
  quiet = λ p c. popped-quiet m o b rest c p e v;
}
  where
    mark_dequeued-timers :
        (c : Block) (t : ℕ)
        → ((put_thread (owner c) (mark_dequeued c (m.state.threads (owner c))) m.state).threads
            t).timeout.object
          ≡ timer_of t
    mark_dequeued-timers (inline_block u) t = ground (arith, v.timers t)
    mark_dequeued-timers (timeout_block u) t = ground (arith, v.timers t)

    mark_dequeued-targets :
        (c : Block) (t u : ℕ)
        → ((put_thread (owner c) (mark_dequeued c (m.state.threads (owner c))) m.state).threads
            t).inline.object
          ≢ timer_of u
    mark_dequeued-targets (inline_block w) t u = ground (arith, v.targets t u)
    mark_dequeued-targets (timeout_block w) t u = ground (arith, v.targets t u)
