-- ===== src/Wait/Account.antt =====
-- kernel/core/object.c: a thread whose block has been taken off a list has been woken.
use yak_kernel.Prelude.{ℕ, ◌≡◌, true, false, List, arith, inl, inr, Bool-cases, put, ◌==◌, subst}
use yak_kernel.Wait.{Block, inline_block, timeout_block, Kthread, State}
use yak_kernel.Wait.Step.{Place, Machine}
use yak_kernel.Wait.Sound.{inline_queued}
use yak_kernel.Wait.Keep.{with_state}
use yak_kernel.Wait.Wake.{turned}

abbrev pub AccountedIn : Place → Kthread → Type 0
AccountedIn p th = inline_queued p ≡ true → th.inline.dequeued ≡ true → th.inline.unwaited ≡ true

abbrev pub Accounted : Machine → Type 0
Accounted m = (t : ℕ) → AccountedIn (m.places t) (m.state.threads t)

pub turned-Accounted :
    (m : Machine) (o : ℕ) (b : Block) (rest : List Block)
    → Accounted m
    → Accounted (with_state m (turned o b rest m.state))
turned-Accounted m o (inline_block u) rest a t q d = ground (arith, a t q)
turned-Accounted m o (timeout_block u) rest a t q d = ground (arith, a t q)

-- A step that touches one thread.
pub move-Accounted :
    (m : Machine) (t : ℕ) (p : Place) (s : State)
    → AccountedIn p (s.threads t)
    → ((u : ℕ) → (t == u) ≡ false → s.threads u ≡ m.state.threads u)
    → Accounted m
    → (u : ℕ) → AccountedIn (put m.places t p u) (s.threads u)
move-Accounted m t p s e same a u = elim (Bool-cases (t == u)) [
  | inl at ↦
      let here : t ≡ u = ground arith in rw at (subst (λ u. AccountedIn p (s.threads u)) here e)
  | inr apart ↦ rw (apart, same u apart) (a u)
]
