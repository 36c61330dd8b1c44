-- ===== src/Wait/Sound.antt =====
-- The invariant of the objects of kernel/core/object.c and the threads that wait on them.
use yak_kernel.Prelude.{ℕ, ◌<◌, ◌≡◌, ◌≢◌, Bool, true, false, not, ◌&&◌, ◌==◌, if◌then◌else◌, length}
use yak_kernel.Wait.{
  Block, inline_block, timeout_block, Kthread, running, waiting, ready, in_progress, aborted,
  block_at, timer_of,
}
use yak_kernel.Wait.Step.{
  Place, outside, at_check, at_timeout, at_commit, at_sleep, at_inline, at_timer, Machine,
}
use yak_kernel.Wait.Lists.{occurs}

-- The inline block has been enqueued and not been dequeued by its own thread.
abbrev pub inline_queued : Place → Bool
inline_queued at_timeout = true
inline_queued (at_commit h) = true
inline_queued (at_sleep h) = true
inline_queued (at_inline h a) = true
inline_queued (at_timer a) = a
inline_queued _ = false

abbrev pub timeout_queued : Place → Bool
timeout_queued (at_commit h) = h
timeout_queued (at_sleep h) = h
timeout_queued (at_inline h a) = h
timeout_queued (at_timer a) = true
timeout_queued _ = false

abbrev pub queued : Block → Machine → Bool
queued (inline_block t) m = inline_queued (m.places t)
queued (timeout_block t) m = timeout_queued (m.places t)

-- How often a block is on the list of the object `o`.
abbrev pub expected : Block → Machine → ℕ → ℕ
expected b m o =
    let wb = block_at b m.state in
    if queued b m && not wb.dequeued && (wb.object == o) then 1 else 0

-- What a thread's fields are, by its place.
abbrev pub Engaged : Place → Kthread → Type 0
Engaged outside th = th.status ≡ running
Engaged (at_check o h) th =
    (th.status ≡ running)
    × (th.wait_phase ≡ in_progress)
    × (th.inline.unwaited ≡ false)
    × (th.timeout.unwaited ≡ false)
    × (th.inline.dequeued ≡ false)
    × (th.timeout.dequeued ≡ false)
    × (th.inline.object ≡ o)
Engaged at_timeout th =
    (th.status ≡ running)
    × (th.wait_phase ≡ (if th.inline.unwaited then aborted else in_progress))
    × (th.timeout.unwaited ≡ th.inline.unwaited)
    × (th.timeout.dequeued ≡ false)
Engaged (at_commit h) th =
    (th.status ≡ running)
    × (th.wait_phase ≡ (if th.inline.unwaited then aborted else in_progress))
    × (th.timeout.unwaited ≡ th.inline.unwaited)
Engaged (at_sleep h) th =
    (th.status ≡ (if th.inline.unwaited then ready else waiting))
    × (th.timeout.unwaited ≡ th.inline.unwaited)
Engaged (at_inline h a) th =
    (th.status ≡ running)
    × (th.inline.unwaited ≡ true)
    × (th.timeout.unwaited ≡ true)
    × ((h && a) ≡ false)
Engaged (at_timer a) th =
    (th.status ≡ running) × (th.inline.unwaited ≡ true) × (th.timeout.unwaited ≡ true)

pub record IsSound (m : Machine) : Type 0 where
  pub counts :
      (o : ℕ) → (m.state.objects o).obj_wait_count ≡ length ((m.state.objects o).obj_wait_list)
  pub lists : (b : Block) (o : ℕ) → occurs b ((m.state.objects o).obj_wait_list) ≡ expected b m o
  pub timers : (t : ℕ) → (m.state.threads t).timeout.object ≡ timer_of t
  pub targets : (t u : ℕ) → (m.state.threads t).inline.object ≢ timer_of u
  pub engaged : (t : ℕ) → Engaged (m.places t) (m.state.threads t)
  -- No block that still waits is on the list of a signaled object.
  pub quiet :
      (o : ℕ) (b : Block)
      → 0 < (m.state.objects o).obj_signal_count
      → 0 < occurs b ((m.state.objects o).obj_wait_list)
      → (block_at b m.state).unwaited ≡ true
