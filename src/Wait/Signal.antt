-- ===== src/Wait/Signal.antt =====
-- kernel/core/object.c: the loop of `kobject_signal_locked` returns, and what it leaves.
use yak_kernel.Status.{Status}
use yak_kernel.Prelude.{
  ◌==◌, sym, subst, ℕ, suc, ◌≡◌, refl, ap, ◌∙◌, Bool, true, false, not, ◌⊎◌, if◌then◌else◌, List,
  [], ◌∷◌, length, arith, inl, inr, Bool-cases, if-true, if-false, Option, some, ltb,
}
use yak_kernel.Wait.{
  owner, ready, aborted, running, waiting, block_eq, Kthread, ThreadState, unwaited_thread,
  mark_dequeued, Block, inline_block, timeout_block, State, block_at, popped, signal_loop, counted,
  kobject_signal_locked,
}
use yak_kernel.Wait.Step.{Machine, is_on}
use yak_kernel.Wait.Sound.{IsSound}
use yak_kernel.Wait.Keep.{with_state}
use yak_kernel.Wait.Account.{Accounted, turned-Accounted}
use yak_kernel.Wait.Wake.{woken_by, turned, turned-IsSound, signal_first-turned}

-- Whether a list has a block that nothing has unwaited.
abbrev pub has_live : State → List Block → Bool
has_live s [] = false
has_live s (b ∷ bs) = if (block_at b s).unwaited then has_live s bs else true

pub popped-unwaited :
    (o : ℕ) (b : Block) (rest : List Block) (s : State) (c : Block)
    → (block_at c (popped o b rest s)).unwaited ≡ (block_at c s).unwaited
popped-unwaited o (inline_block t) rest s (inline_block u) = ground arith
popped-unwaited o (inline_block t) rest s (timeout_block u) = ground arith
popped-unwaited o (timeout_block t) rest s (inline_block u) = ground arith
popped-unwaited o (timeout_block t) rest s (timeout_block u) = ground arith

popped-has_live :
    (o : ℕ) (b : Block) (rest : List Block) (s : State) (bs : List Block)
    → has_live (popped o b rest s) bs ≡ has_live s bs
popped-has_live o b rest s [] = refl
popped-has_live o b rest s (c ∷ bs) =
    rw (popped-unwaited o b rest s c, popped-has_live o b rest s bs) refl

turned-list :
    (o : ℕ) (b : Block) (rest : List Block) (s : State)
    → ((turned o b rest s).objects o).obj_wait_list ≡ rest
turned-list o b rest s = ground arith

turned-signals :
    (o : ℕ) (b : Block) (rest : List Block) (s : State) (p : ℕ)
    → ((turned o b rest s).objects p).obj_signal_count ≡ (s.objects p).obj_signal_count
turned-signals o b rest s p = ground arith

-- A block of the list that nothing had unwaited, and that now is: its thread has been given the block's
-- status, and is ready if it was asleep, or else finds its wait aborted.
pub record Woken (s s' : State) (bs : List Block) : Type 0 where
  pub block : Block
  pub listed : is_on block bs ≡ true
  pub was_waiting : (block_at block s).unwaited ≡ false
  pub unwaited : (block_at block s').unwaited ≡ true
  pub result : (s'.threads (owner block)).wait_status ≡ (block_at block s).status
  pub awake :
      ((s'.threads (owner block)).status ≡ ready)
      ⊎ ((s'.threads (owner block)).wait_phase ≡ aborted)

block_eq_self : (b : Block) → block_eq b b ≡ true
block_eq_self (inline_block t) = ground arith
block_eq_self (timeout_block t) = ground arith

popped-status :
    (o : ℕ) (b : Block) (rest : List Block) (s : State) (c : Block)
    → (block_at c (popped o b rest s)).status ≡ (block_at c s).status
popped-status o (inline_block t) rest s (inline_block u) = ground arith
popped-status o (inline_block t) rest s (timeout_block u) = ground arith
popped-status o (timeout_block t) rest s (inline_block u) = ground arith
popped-status o (timeout_block t) rest s (timeout_block u) = ground arith

is_on-behind : (b c : Block) (bs : List Block) → is_on c bs ≡ true → is_on c (b ∷ bs) ≡ true
is_on-behind b c bs h = elim (Bool-cases (block_eq c b)) [ inl e ↦ rw e refl | inr e ↦ rw e h ]

==-self : (n : ℕ) → (n == n) ≡ true
==-self n = ground arith

unwaited_thread-awake :
    (st : Status) (th : Kthread) (was : ThreadState)
    → th.status ≡ was
    → ((unwaited_thread st th).status ≡ ready) ⊎ ((unwaited_thread st th).wait_phase ≡ aborted)
unwaited_thread-awake st th running e = inr (rw e refl)
unwaited_thread-awake st th waiting e = inl (rw e refl)
unwaited_thread-awake st th ready e = inl (rw e refl)

woken_by-unwaited :
    (o : ℕ) (b : Block) (rest : List Block) (s : State)
    → (block_at b (woken_by o b rest s)).unwaited ≡ true
woken_by-unwaited o (inline_block t) rest s = ground arith
woken_by-unwaited o (timeout_block t) rest s = ground arith

-- The block at the head is woken by its turn.
woken_by-Woken :
    (o : ℕ) (b : Block) (rest : List Block) (s : State)
    → (block_at b s).unwaited ≡ false
    → Woken s (woken_by o b rest s) (b ∷ rest)
woken_by-Woken o b rest s u = record {
  block = b;
  listed = rw (block_eq_self b) refl;
  was_waiting = u;
  unwaited = woken_by-unwaited o b rest s;
  result = rw (==-self (owner b)) refl;
  awake = rw (==-self (owner b)) (
      unwaited_thread-awake ((block_at b s).status) (mark_dequeued b (s.threads (owner b)))
        ((mark_dequeued b (s.threads (owner b))).status) refl);
}

-- `kobject_signal_locked` has returned `woken` in the state `s`.
pub record IsSignalled (m : Machine) (o : ℕ) (unblock_all : Bool) (woken : ℕ) (s : State)
    : Type 0 where
  pub sound : IsSound (with_state m s)
  pub signals : (p : ℕ) → (s.objects p).obj_signal_count ≡ (m.state.objects p).obj_signal_count
  pub ended : ((s.objects o).obj_wait_list ≡ []) ⊎ ((unblock_all ≡ false) × (woken ≡ 1))
  pub accounted : Accounted m → Accounted (with_state m s)
  pub wakes_one :
      unblock_all ≡ false → ltb 0 woken ≡ true → Woken m.state s ((m.state.objects o).obj_wait_list)
  pub wakes : ltb 0 woken ≡ has_live m.state ((m.state.objects o).obj_wait_list)

abbrev pub Signals : Machine → ℕ → Bool → Option (ℕ × State) → Type 0
Signals m o unblock_all r =
    (woken : ℕ) × (s : State) × (r ≡ some (woken, s)) × IsSignalled m o unblock_all woken s

module _ (m : Machine) (o : ℕ) (unblock_all : Bool) (b : Block) (rest : List Block)
    (e : (m.state.objects o).obj_wait_list ≡ b ∷ rest) (v : IsSound m) where
  signal_loop-turn : signal_loop (length (b ∷ rest)) o unblock_all m.state ≡ (
      if (block_at b m.state).unwaited
      then signal_loop (length rest) o unblock_all (turned o b rest m.state)
      else if not unblock_all
      then some (1, turned o b rest m.state)
      else counted (signal_loop (length rest) o unblock_all (turned o b rest m.state)))
  unfolding signal_loop
  signal_loop-turn = elim (Bool-cases ((block_at b m.state).unwaited)) [
    | inl u ↦ rw (signal_loop, signal_first-turned m o b rest e v, u) refl
    | inr u ↦ rw (signal_loop, signal_first-turned m o b rest e v, u) refl
  ]

  -- What a later turn wakes was waiting before this one.
  past_Woken :
      (block_at b m.state).unwaited ≡ true
      → {s : State}
      → Woken (turned o b rest m.state) s (((turned o b rest m.state).objects o).obj_wait_list)
      → Woken m.state s ((m.state.objects o).obj_wait_list)
  past_Woken u {s} w =
      let x : Woken (popped o b rest m.state) s rest =
        subst (λ bs. Woken (popped o b rest m.state) s bs) (turned-list o b rest m.state)
          (subst (λ r. Woken r s (((turned o b rest m.state).objects o).obj_wait_list))
            (if-true _ u) w) in
      rw e (record {
        block = x.block;
        listed = is_on-behind b x.block rest x.listed;
        was_waiting = sym (popped-unwaited o b rest m.state x.block) ∙ x.was_waiting;
        unwaited = x.unwaited;
        result = x.result ∙ popped-status o b rest m.state x.block;
        awake = x.awake;
      })

  past_unwaited :
      (block_at b m.state).unwaited ≡ true
      → Signals
          (with_state m (turned o b rest m.state))
          o
          unblock_all
          (signal_loop (length rest) o unblock_all (turned o b rest m.state))
      → Signals m o unblock_all (signal_loop (length (b ∷ rest)) o unblock_all m.state)
  past_unwaited u (woken, s, r, w) = (
    woken,
    s,
    signal_loop-turn ∙ if-true _ u ∙ r,
    record {
      sound = w.sound;
      signals = λ p. w.signals p ∙ turned-signals o b rest m.state p;
      ended = w.ended;
      accounted = λ a. w.accounted (turned-Accounted m o b rest a);
      wakes_one = λ one k. past_Woken u (w.wakes_one one k);
      wakes =
          w.wakes ∙ rw (turned-list o b rest m.state, e, u) (popped-has_live o b rest m.state rest);
    },
  )

  past_all :
      (block_at b m.state).unwaited ≡ false
      → unblock_all ≡ true
      → Signals
          (with_state m (turned o b rest m.state))
          o
          unblock_all
          (signal_loop (length rest) o unblock_all (turned o b rest m.state))
      → Signals m o unblock_all (signal_loop (length (b ∷ rest)) o unblock_all m.state)
  past_all u all (woken, s, r, w) = (
    suc woken,
    s,
    signal_loop-turn ∙ if-false _ u ∙ if-false _ (ap not all) ∙ ap counted r,
    record {
      sound = w.sound;
      signals = λ p. w.signals p ∙ turned-signals o b rest m.state p;
      accounted = λ a. w.accounted (turned-Accounted m o b rest a);
      ended = elim w.ended [ inl empty ↦ inl empty | inr (one, k) ↦ absurd (cc) ];
      wakes_one = λ one. absurd (cc (all, one));
      wakes = rw (e, u) (ground arith);
    },
  )

  past_one :
      (block_at b m.state).unwaited ≡ false
      → unblock_all ≡ false
      → Signals m o unblock_all (signal_loop (length (b ∷ rest)) o unblock_all m.state)
  past_one u one = (
    1,
    turned o b rest m.state,
    signal_loop-turn ∙ if-false _ u ∙ if-true _ (ap not one),
    record {
      sound = turned-IsSound m o b rest e v;
      signals = turned-signals o b rest m.state;
      ended = inr (one, refl);
      accounted = turned-Accounted m o b rest;
      wakes_one = λ k q. rw (e, u) (woken_by-Woken o b rest m.state u);
      wakes = rw (e, u) refl;
    },
  )

signal_loop-Signals :
    (bs : List Block) (m : Machine) (o : ℕ) (unblock_all : Bool)
    → (m.state.objects o).obj_wait_list ≡ bs
    → IsSound m
    → Signals m o unblock_all (signal_loop (length bs) o unblock_all m.state)
unfolding signal_loop
signal_loop-Signals [] m o unblock_all e v = (
  0,
  m.state,
  refl,
  record {
    sound = v;
    signals = λ p. refl;
    ended = inl e;
    accounted = λ a. a;
    wakes_one = λ one k. absurd (cc (k));
    wakes = rw e refl;
  },
)
signal_loop-Signals (b ∷ rest) m o unblock_all e v =
    let later =
      signal_loop-Signals rest (with_state m (turned o b rest m.state)) o unblock_all
        (turned-list o b rest m.state) (turned-IsSound m o b rest e v) in
    elim (Bool-cases ((block_at b m.state).unwaited)) [
      | inl u ↦ past_unwaited m o unblock_all b rest e v u later
      | inr u ↦ elim (Bool-cases unblock_all) [
        | inl all ↦ past_all m o unblock_all b rest e v u all later
        | inr one ↦ past_one m o unblock_all b rest e v u one
      ]
    ]

-- In a sound machine `kobject_signal_locked` returns with no assertion failed. It leaves the machine sound
-- and each object's signal count as it was, and it has woken a thread exactly if the list had a block that
-- nothing had unwaited. It has emptied the list, unless it was asked to wake one thread and has.
pub kobject_signal_locked-returns :
    (m : Machine) (o : ℕ) (unblock_all : Bool)
    → IsSound m
    → Signals m o unblock_all (kobject_signal_locked o unblock_all m.state)
unfolding kobject_signal_locked
kobject_signal_locked-returns m o unblock_all v =
    rw (kobject_signal_locked, v.counts o)
      (signal_loop-Signals ((m.state.objects o).obj_wait_list) m o unblock_all refl v)
