-- ===== src/Wait/Leaving.antt =====
-- kernel/core/wait.c: the steps of `sched_wait` behind the enqueuing keep the invariant.
use yak_kernel.Prelude.{
  ℕ, ◌<◌, ◌≡◌, refl, ap, ◌∙◌, true, ◌==◌, [], ◌∷◌, length, length-append, arith, subst,
}
use yak_kernel.Wait.{Block, inline_block, timeout_block, Kthread, block_at, timer_of, put_thread}
use yak_kernel.Wait.Step.{Place, at_timeout, at_commit, Machine, set_timeout}
use yak_kernel.Wait.Lists.{occurs, occurs-append, occurs-empty}
use yak_kernel.Wait.Sound.{inline_queued, timeout_queued, expected, Engaged, IsSound}
use yak_kernel.Wait.Waiting.{at_place, move-Engaged}

module _ (m : Machine) (t : ℕ) (v : IsSound m) where
  -- Only the place changes.
  pub place-IsSound :
      (p : Place)
      → ((c : Block) (o : ℕ) → expected c m o ≡ expected c (at_place m t p m.state) o)
      → Engaged p (m.state.threads t)
      → IsSound (at_place m t p m.state)
  place-IsSound p same e = record {
    counts = v.counts;
    lists = λ c o. v.lists c o ∙ same c o;
    timers = v.timers;
    targets = v.targets;
    engaged = move-Engaged m t p m.state e (λ u apart. refl) v;
    quiet = v.quiet;
  }

  pub same_queues :
      (p : Place)
      → inline_queued p ≡ inline_queued (m.places t)
      → timeout_queued p ≡ timeout_queued (m.places t)
      → (c : Block) (o : ℕ) → expected c m o ≡ expected c (at_place m t p m.state) o
  same_queues p i k (inline_block u) o = ground (arith, i)
  same_queues p i k (timeout_block u) o = ground (arith, k)

  -- The place changes, and of the thread what is not in its blocks.
  module _ (p : Place) (th : Kthread) (i : inline_queued p ≡ inline_queued (m.places t))
      (k : timeout_queued p ≡ timeout_queued (m.places t))
      (same_inline : th.inline ≡ (m.state.threads t).inline)
      (same_timeout : th.timeout ≡ (m.state.threads t).timeout) where
    shift-lists :
        (c : Block) (o : ℕ)
        → occurs c ((m.state.objects o).obj_wait_list)
          ≡ expected c (at_place m t p (put_thread t th m.state)) o
    shift-lists (inline_block u) o = ground (arith, i, same_inline, v.lists (inline_block u) o)
    shift-lists (timeout_block u) o = ground (arith, k, same_timeout, v.lists (timeout_block u) o)

    shift-quiet :
        (c : Block) (o : ℕ)
        → 0 < (m.state.objects o).obj_signal_count
        → 0 < occurs c ((m.state.objects o).obj_wait_list)
        → (block_at c (put_thread t th m.state)).unwaited ≡ true
    shift-quiet (inline_block u) o lt on =
        ground (arith, same_inline, v.quiet o (inline_block u) lt on)
    shift-quiet (timeout_block u) o lt on =
        ground (arith, same_timeout, v.quiet o (timeout_block u) lt on)

    pub shift-IsSound : Engaged p th → IsSound (at_place m t p (put_thread t th m.state))
    shift-IsSound e = record {
      counts = v.counts;
      lists = shift-lists;
      timers = λ u. ground (arith, v.timers u, same_timeout, v.timers t);
      targets = λ u w. ground (arith, v.targets u w, same_inline, v.targets t w);
      engaged =
          move-Engaged m t p (put_thread t th m.state) (rw (t==t) e) (λ u apart. rw apart refl) v;
      quiet = λ o c. shift-quiet c o;
    }
      where
        t==t : (t == t) ≡ true
        t==t = ground arith

  module _ (e : m.places t ≡ at_timeout) where
    armed : Engaged at_timeout (m.state.threads t)
    armed = subst (λ p. Engaged p (m.state.threads t)) e (v.engaged t)

    nobody : (b : Block) → occurs b ((m.state.objects (timer_of t)).obj_wait_list) ≡ 0
    nobody (inline_block u) = ground (arith, v.lists (inline_block u) (timer_of t), v.targets u t)
    nobody (timeout_block u) = ground (arith, e, v.lists (timeout_block u) (timer_of t), v.timers u)

    timeout-lists :
        (c : Block) (o : ℕ)
        → occurs c (((set_timeout t m.state).objects o).obj_wait_list)
          ≡ expected c (at_place m t (at_commit true) (set_timeout t m.state)) o
    unfolding set_timeout
    timeout-lists (inline_block u) o = ground (
      arith,
      e,
      v.lists (inline_block u) o,
      occurs-append (inline_block u) (timeout_block t)
          ((m.state.objects (timer_of t)).obj_wait_list),
    )
    timeout-lists (timeout_block u) o = ground (
      arith,
      e,
      armed,
      v.timers u,
      v.lists (timeout_block u) o,
      occurs-append (timeout_block u) (timeout_block t)
          ((m.state.objects (timer_of t)).obj_wait_list),
    )

    timeout-quiet :
        (o : ℕ) (c : Block)
        → 0 < ((set_timeout t m.state).objects o).obj_signal_count
        → 0 < occurs c (((set_timeout t m.state).objects o).obj_wait_list)
        → (block_at c (set_timeout t m.state)).unwaited ≡ true
    unfolding set_timeout
    timeout-quiet o (inline_block u) lt on = ground (arith, v.quiet o (inline_block u))
    timeout-quiet o (timeout_block u) lt on = ground (arith, v.quiet o (timeout_block u))

    pub timeout-IsSound : IsSound (at_place m t (at_commit true) (set_timeout t m.state))
    unfolding set_timeout
    timeout-IsSound = record {
      counts = λ o. ground (
        arith,
        v.counts o,
        ap length (occurs-empty ((m.state.objects (timer_of t)).obj_wait_list) nobody),
        length-append ((m.state.objects (timer_of t)).obj_wait_list) (timeout_block t ∷ []),
      );
      lists = timeout-lists;
      timers = v.timers;
      targets = v.targets;
      engaged =
          let (a, b, c, d) = armed in
          move-Engaged m t (at_commit true) (set_timeout t m.state) (a, b, c) (λ u apart. refl) v;
      quiet = timeout-quiet;
    }
