-- ===== src/Wait/Waiting.antt =====
-- kernel/core/wait.c: the steps of a thread in `sched_wait` keep the invariant.
use yak_kernel.Prelude.{
  ℕ, ◌<◌, ◌≡◌, refl, Bool, true, false, ◌==◌, [], ◌∷◌, length-append, arith, inl, inr, Bool-cases,
  put, subst,
}
use yak_kernel.Wait.{Block, inline_block, timeout_block, State, block_at, kernel_object, running}
use yak_kernel.Wait.Step.{
  Place, outside, at_check, Machine, wait_begin, taken, enqueued, is_obj_signaled,
}
use yak_kernel.Wait.Lists.{occurs, occurs-append}
use yak_kernel.Wait.Sound.{inline_queued, timeout_queued, expected, Engaged, IsSound}

-- The machine once thread `t` has moved to `p`.
abbrev pub at_place : Machine → ℕ → Place → State → Machine
at_place m t p s = record { state = s; places = put m.places t p }

pub move-Engaged :
    (m : Machine) (t : ℕ) (p : Place) (s : State)
    → Engaged p (s.threads t)
    → ((u : ℕ) → (t == u) ≡ false → s.threads u ≡ m.state.threads u)
    → IsSound m
    → (u : ℕ) → Engaged (put m.places t p u) (s.threads u)
move-Engaged m t p s e same v u = elim (Bool-cases (t == u)) [
  | inl at ↦ let here : t ≡ u = ground arith in rw at (subst (λ u. Engaged p (s.threads u)) here e)
  | inr apart ↦ rw (apart, same u apart) (v.engaged u)
]

module _ (m : Machine) (t : ℕ) (v : IsSound m) where
  begin-lists :
      (n : ℕ) (h : Bool)
      → m.places t ≡ outside
      → (c : Block) (p : ℕ)
      → occurs c ((m.state.objects p).obj_wait_list)
        ≡ expected c
            (at_place m t (at_check (kernel_object n) h) (wait_begin t (kernel_object n) m.state))
            p
  unfolding wait_begin
  begin-lists n h e (inline_block u) p = ground (arith, e, v.lists (inline_block u) p)
  begin-lists n h e (timeout_block u) p = ground (arith, e, v.lists (timeout_block u) p)

  begin-quiet :
      (n : ℕ) (h : Bool)
      → m.places t ≡ outside
      → (p : ℕ) (c : Block) → 0 < (m.state.objects p).obj_signal_count
      → 0 < occurs c ((m.state.objects p).obj_wait_list)
      → (block_at c (wait_begin t (kernel_object n) m.state)).unwaited ≡ true
  unfolding wait_begin
  begin-quiet n h e p (inline_block u) lt on =
      ground (arith, e, v.lists (inline_block u) p, v.quiet p (inline_block u) lt on)
  begin-quiet n h e p (timeout_block u) lt on =
      ground (arith, e, v.lists (timeout_block u) p, v.quiet p (timeout_block u) lt on)

  pub begin-IsSound :
      (n : ℕ) (h : Bool)
      → m.places t ≡ outside
      → IsSound
          (at_place m t (at_check (kernel_object n) h) (wait_begin t (kernel_object n) m.state))
  unfolding wait_begin
  begin-IsSound n h e = record {
    counts = v.counts;
    lists = begin-lists n h e;
    timers = λ u. ground (arith, v.timers u);
    targets = λ u w. ground (arith, v.targets u w);
    engaged =
        move-Engaged m t (at_check (kernel_object n) h) (wait_begin t (kernel_object n) m.state)
          (rw (t==t) (calls, refl, refl, refl, refl, refl, refl)) (λ u apart. ground (arith, apart))
          v;
    quiet = begin-quiet n h e;
  }
    where
      t==t : (t == t) ≡ true
      t==t = ground arith

      calls : (m.state.threads t).status ≡ running
      calls = subst (λ p. Engaged p (m.state.threads t)) e (v.engaged t)

  module _ (o : ℕ) (h : Bool) (e : m.places t ≡ at_check o h) where
    checks : Engaged (at_check o h) (m.state.threads t)
    checks = subst (λ p. Engaged p (m.state.threads t)) e (v.engaged t)

    taken-lists :
        (c : Block) (p : ℕ)
        → occurs c (((taken t o m.state).objects p).obj_wait_list)
          ≡ expected c (at_place m t outside (taken t o m.state)) p
    taken-lists (inline_block u) p = ground (arith, e, v.lists (inline_block u) p)
    taken-lists (timeout_block u) p = ground (arith, e, v.lists (timeout_block u) p)

    taken-quiet :
        (p : ℕ) (c : Block)
        → 0 < ((taken t o m.state).objects p).obj_signal_count
        → 0 < occurs c (((taken t o m.state).objects p).obj_wait_list)
        → (block_at c (taken t o m.state)).unwaited ≡ true
    taken-quiet p (inline_block u) lt on = ground (arith, v.quiet p (inline_block u))
    taken-quiet p (timeout_block u) lt on = ground (arith, v.quiet p (timeout_block u))

    pub taken-IsSound : IsSound (at_place m t outside (taken t o m.state))
    taken-IsSound = record {
      counts = λ p. ground (arith, v.counts p, v.counts o);
      lists = taken-lists;
      timers = λ u. ground (arith, v.timers u);
      targets = λ u w. ground (arith, v.targets u w);
      engaged =
          move-Engaged m t outside (taken t o m.state) (ground (arith, checks))
            (λ u apart. ground (arith, apart)) v;
      quiet = taken-quiet;
    }

    enqueued-lists :
        (next : Place)
        → inline_queued next ≡ true
        → timeout_queued next ≡ false
        → (c : Block) (p : ℕ)
        → occurs c (((enqueued (inline_block t) o m.state).objects p).obj_wait_list)
          ≡ expected c (at_place m t next (enqueued (inline_block t) o m.state)) p
    enqueued-lists next i k (inline_block u) p =
        let (r, ph, iu, tu, id, td, at) = checks in
        ground (
          arith,
          e,
          i,
          id,
          at,
          v.lists (inline_block u) p,
          occurs-append (inline_block u) (inline_block t) ((m.state.objects o).obj_wait_list),
        )
    enqueued-lists next i k (timeout_block u) p = ground (
      arith,
      e,
      k,
      v.lists (timeout_block u) p,
      occurs-append (timeout_block u) (inline_block t) ((m.state.objects o).obj_wait_list),
    )

    enqueued-quiet :
        is_obj_signaled (m.state.objects o) ≡ false
        → (p : ℕ) (c : Block)
        → 0 < ((enqueued (inline_block t) o m.state).objects p).obj_signal_count
        → 0 < occurs c (((enqueued (inline_block t) o m.state).objects p).obj_wait_list)
        → (block_at c (enqueued (inline_block t) o m.state)).unwaited ≡ true
    enqueued-quiet clear p (inline_block u) lt on =
        ground (arith, clear, v.quiet p (inline_block u))
    enqueued-quiet clear p (timeout_block u) lt on =
        ground (arith, clear, v.quiet p (timeout_block u))

    pub enqueued-IsSound :
        (next : Place)
        → inline_queued next ≡ true
        → timeout_queued next ≡ false
        → Engaged next (m.state.threads t)
        → is_obj_signaled (m.state.objects o) ≡ false
        → IsSound (at_place m t next (enqueued (inline_block t) o m.state))
    enqueued-IsSound next i k eng clear = record {
      counts = λ p. ground (
        arith,
        v.counts p,
        v.counts o,
        length-append ((m.state.objects o).obj_wait_list) (inline_block t ∷ []),
      );
      lists = enqueued-lists next i k;
      timers = v.timers;
      targets = v.targets;
      engaged = move-Engaged m t next (enqueued (inline_block t) o m.state) eng (λ u apart. refl) v;
      quiet = enqueued-quiet clear;
    }
