-- ===== src/Timer/Queued.antt =====
-- kernel/core/timer.c: a heap has exactly the queued timers of its processor, with their deadlines.
use yak_kernel.Prelude.{
  ℕ, ◌≡◌, ◌≢◌, refl, sym, ◌∙◌, ap, true, false, inl, inr, List, Option, none, some, arith, ◌==◌,
  if◌then◌else◌, if-true, if-false, Bool-cases, Option-cases, put,
}
use yak_kernel.Timer.{TimerHeap, Timer, State, is_queued, fire}
use yak_kernel.Timer.Heap.{IsHeap}

-- The deadline with which a timer is queued on a processor.
unfoldable pub queued_on : ℕ → Timer → Option ℕ
queued_on c timer = elim timer.cpu [
  | none ↦ none
  | some d ↦ if d == c then some timer.deadline else none
]

pub queued_none : (c : ℕ) (timer : Timer) → timer.cpu ≡ none → queued_on c timer ≡ none
unfolding queued_on
queued_none c timer e = rw (queued_on, e) refl

pub queued_here :
    (c : ℕ) (timer : Timer) → timer.cpu ≡ some c → queued_on c timer ≡ some timer.deadline
unfolding queued_on
queued_here c timer e = rw (queued_on, e) (ground arith)

pub queued_other :
    (c d : ℕ) (timer : Timer) → timer.cpu ≡ some c → (c == d) ≡ false → queued_on d timer ≡ none
unfolding queued_on
queued_other c d timer e ne = rw (queued_on, e, ne) refl

pub queued_cpu : (c : ℕ) (timer : Timer) → queued_on c timer ≢ none → timer.cpu ≡ some c
unfolding queued_on
queued_cpu c timer h = elim (Option-cases timer.cpu) [
  | inl off ↦ absurd (h (queued_none c timer off))
  | inr (d, on) ↦ elim (Bool-cases (d == c)) [
    | inl same ↦ on ∙ ap some (ground arith)
    | inr other ↦ absurd (h (queued_other d c timer on other))
  ]
]

module _ (heap : TimerHeap) (laws : IsHeap heap) where
  -- A timer with a processor is queued, and one without is not.
  pub record IsConsistent (s : State heap.Heap) : Type 0 where
    pub exact : (c i : ℕ) → laws.has (s.heaps c) i ≡ queued_on c (s.timers i)
    pub on_cpu : (i c : ℕ) → (s.timers i).cpu ≡ some c → is_queued ((s.timers i).state) ≡ true
    pub off_cpu : (i : ℕ) → (s.timers i).cpu ≡ none → is_queued ((s.timers i).state) ≡ false

  -- A timer leaves its processor.
  pub taken_out :
      (c i : ℕ) (out : Timer) (h : heap.Heap) (w : List ℕ) (s : State heap.Heap)
      → out.cpu ≡ none
      → is_queued out.state ≡ false
      → (s.timers i).cpu ≡ some c
      → ((j : ℕ) → laws.has h j ≡ (if i == j then none else laws.has (s.heaps c) j))
      → IsConsistent s
      → IsConsistent (record s { timers = put s.timers i out; heaps = put s.heaps c h; woken = w })
  taken_out c i out h w s off idle on left v = record {
    exact = λ d j. exact_after d j;
    on_cpu = λ j d e. ground (arith, v.on_cpu j d, off);
    off_cpu = λ j e. ground (arith, v.off_cpu j, idle);
  }
    where
      exact_after : (d j : ℕ) → laws.has (put s.heaps c h d) j ≡ queued_on d (put s.timers i out j)
      exact_after d j = elim (Bool-cases (i == j)) [
        | inr other ↦ elim (Bool-cases (c == d)) [
          | inl here ↦
              let e : c ≡ d = ground arith in
              ap (λ x. laws.has x j) (if-true _ here)
              ∙ left j
              ∙ if-false _ other
              ∙ ap (λ x. laws.has (s.heaps x) j) e
              ∙ v.exact d j
              ∙ ap (queued_on d) (sym (if-false _ other))
          | inr away ↦
              ap (λ x. laws.has x j) (if-false _ away)
              ∙ v.exact d j
              ∙ ap (queued_on d) (sym (if-false _ other))
        ]
        | inl same ↦
            let e : i ≡ j = ground arith in
            let gone : queued_on d (put s.timers i out j) ≡ none =
              ap (queued_on d) (if-true _ same) ∙ queued_none d out off in
            elim (Bool-cases (c == d)) [
              | inl here ↦
                  ap (λ x. laws.has x j) (if-true _ here) ∙ left j ∙ if-true _ same ∙ sym gone
              | inr away ↦
                  ap (λ x. laws.has x j) (if-false _ away)
                  ∙ v.exact d j
                  ∙ queued_other c d (s.timers j) (ap (λ x. (s.timers x).cpu) (sym e) ∙ on) away
                  ∙ sym gone
            ]
      ]

  pub fire-IsConsistent :
      (c root : ℕ) (s : State heap.Heap)
      → heap.peek (s.heaps c) ≡ some root
      → IsConsistent s
      → IsConsistent (fire heap c root s)
  unfolding fire
  fire-IsConsistent c root s top v =
      taken_out c root _ _ _ s refl refl
        (queued_cpu c (s.timers root)
          (λ e. laws.peek_has (s.heaps c) root top (v.exact c root ∙ e)))
        (λ j. laws.has_pop (s.heaps c) root j top) v
