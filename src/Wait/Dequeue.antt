-- ===== src/Wait/Dequeue.antt =====
-- kernel/core/wait.c: `wb_dequeue` of a block that its thread has enqueued finds it, and keeps the invariant.
use yak_kernel.Prelude.{
  ℕ, ◌+◌, ◌≡◌, refl, ◌∙◌, true, false, ◌==◌, if◌then◌else◌, arith, inl, inr, Bool-cases, some,
}
use yak_kernel.Wait.{Block, inline_block, timeout_block, block_eq, State, block_at, put_object}
use yak_kernel.Wait.Step.{Place, Machine, wb_dequeue, dequeue, is_on}
use yak_kernel.Wait.Lists.{
  occurs, occurs-remove, length-remove, occurs-is_on, block_eq-eq, block_eq_refl,
}
use yak_kernel.Wait.Sound.{queued, expected, Engaged, IsSound}
use yak_kernel.Wait.Waiting.{at_place, move-Engaged}
use yak_kernel.Wait.Leaving.{place-IsSound}

abbrev pub dequeued_state : Block → State → State
dequeued_state b s =
    put_object ((block_at b s).object) (dequeue b (s.objects ((block_at b s).object))) s

same_block : (b c : Block) (s : State) → block_at c (dequeued_state b s) ≡ block_at c s
same_block b (inline_block u) s = refl
same_block b (timeout_block u) s = refl

module _ (m : Machine) (v : IsSound m) (b : Block) (t : ℕ) (p : Place) (on : queued b m ≡ true)
    (off : queued b (at_place m t p m.state) ≡ false)
    (others : (c : Block) → block_eq c b ≡ false → queued c m ≡ queued c (at_place m t p m.state))
    (e : Engaged p (m.state.threads t)) where
  module _ (not_yet : (block_at b m.state).dequeued ≡ false) where
    found : occurs b ((m.state.objects ((block_at b m.state).object)).obj_wait_list) ≡ 1
    found = v.lists b ((block_at b m.state).object) ∙ rw (on, not_yet) (ground arith)

    listed : is_on b ((m.state.objects ((block_at b m.state).object)).obj_wait_list) ≡ true
    listed =
        occurs-is_on b ((m.state.objects ((block_at b m.state).object)).obj_wait_list)
          (omega (arith, found))

    queued_later :
        (c : Block)
        → queued c (at_place m t p (dequeued_state b m.state)) ≡ queued c (at_place m t p m.state)
    queued_later (inline_block u) = refl
    queued_later (timeout_block u) = refl

    expected_later :
        (c : Block) (o : ℕ)
        → expected c (at_place m t p (dequeued_state b m.state)) o
            + (if block_eq c b then (if (block_at b m.state).object == o then 1 else 0) else 0)
          ≡ expected c m o
    expected_later c o = elim (Bool-cases (block_eq c b)) [
      | inl same ↦
          rw
            (
              block_eq-eq c b same,
              block_eq_refl b,
              same_block b b m.state,
              queued_later b,
              off,
              on,
              not_yet,
            )
            (ground arith)
      | inr apart ↦
          rw (apart, same_block b c m.state, queued_later c, ← others c apart) (omega arith)
    ]

    dequeued-lists :
        (c : Block) (o : ℕ)
        → occurs c (((dequeued_state b m.state).objects o).obj_wait_list)
          ≡ expected c (at_place m t p (dequeued_state b m.state)) o
    dequeued-lists c o = ground (
      arith,
      v.lists c o,
      expected_later c o,
      occurs-remove c b ((m.state.objects ((block_at b m.state).object)).obj_wait_list) listed,
    )

    pub dequeued-IsSound : IsSound (at_place m t p (dequeued_state b m.state))
    dequeued-IsSound = record {
      counts = λ o. ground (
        arith,
        v.counts o,
        length-remove b ((m.state.objects ((block_at b m.state).object)).obj_wait_list) listed,
      );
      lists = dequeued-lists;
      timers = v.timers;
      targets = v.targets;
      engaged = move-Engaged m t p (dequeued_state b m.state) e (λ u apart. refl) v;
      quiet = λ o c lt is. rw (same_block b c m.state) (
          v.quiet o c (ground arith) (
            ground (
              arith,
              occurs-remove c b ((m.state.objects ((block_at b m.state).object)).obj_wait_list)
                  listed,
            )));
    }

  gone :
      (block_at b m.state).dequeued ≡ true
      → (c : Block) (o : ℕ) → expected c m o ≡ expected c (at_place m t p m.state) o
  gone already c o = elim (Bool-cases (block_eq c b)) [
    | inl same ↦ rw (block_eq-eq c b same, on, off, already) refl
    | inr apart ↦ rw (others c apart) refl
  ]

  -- The result of `wb_dequeue`, with the thread at its next place.
  pub wb_dequeue-Keeps :
      (s : State) × (wb_dequeue b m.state ≡ some s)
      × IsSound (at_place m t p s)
      × (s.threads ≡ m.state.threads)
  unfolding wb_dequeue
  wb_dequeue-Keeps = elim (Bool-cases ((block_at b m.state).dequeued)) [
    | inl already ↦
        (m.state, rw (wb_dequeue, already) refl, place-IsSound m t v p (gone already) e, refl)
    | inr not_yet ↦ (
      dequeued_state b m.state,
      rw (wb_dequeue, not_yet, listed not_yet) refl,
      dequeued-IsSound not_yet,
      refl,
    )
  ]
