-- ===== src/Sched/Queues.antt =====
-- The threads of a run queue (kernel/core/sched.c) in the order of their priorities.
use yak_kernel.Prelude.{
  ℕ, zero, suc, ◌≤◌, ◌<◌, ◌≡◌, refl, ap, true, false, not, ◌==◌, List, [], ◌∷◌, ◌++◌, arith, inl,
  inr, Bool-cases, put, some, none,
}
use yak_kernel.Sched.{Runqueue, top_bit, is_empty, take_first, rq_insert}

-- The queues below `n`, the highest first.
unfoldable pub levels : ℕ → (ℕ → List ℕ) → List ℕ
levels zero qs = []
levels (suc n) qs = qs n ++ levels n qs

-- A bit is set exactly if its queue is not empty.
abbrev pub IsExact : Runqueue → Type 0
IsExact rq = (k : ℕ) → rq.ready_mask k ≡ not (is_empty (rq.queues k))

empty-nil : (ts : List ℕ) → is_empty ts ≡ true → ts ≡ []
empty-nil [] e = refl
empty-nil (t ∷ ts) e = absurd (cc)

pub levels-none :
    (n : ℕ) (rq : Runqueue) → IsExact rq → top_bit n rq.ready_mask ≡ none → levels n rq.queues ≡ []
unfolding levels top_bit
levels-none zero rq x e = refl
levels-none (suc n) rq x e = elim (Bool-cases (rq.ready_mask n)) [
  | inl on ↦ absurd (ground (arith, on))
  | inr off ↦
      rw (empty-nil (rq.queues n) (ground (arith, x n, off)))
        (levels-none n rq x (ground (arith, off)))
]

pub levels-some :
    (n : ℕ) (rq : Runqueue) (k : ℕ)
    → IsExact rq
    → top_bit n rq.ready_mask ≡ some k
    → (k < n) × (rq.ready_mask k ≡ true) × (levels n rq.queues ≡ rq.queues k ++ levels k rq.queues)
unfolding levels top_bit
levels-some zero rq k x e = absurd (cc)
levels-some (suc n) rq k x e = elim (Bool-cases (rq.ready_mask n)) [
  | inl on ↦ let same : n ≡ k = ground (arith, on) in rw (← same) (omega arith, on, refl)
  | inr off ↦
      let (lt, set_bit, at) = levels-some n rq k x (ground (arith, off)) in
      (omega arith, set_bit, rw (empty-nil (rq.queues n) (ground (arith, x n, off))) at)
]

pub levels-put_above :
    (n : ℕ) (qs : ℕ → List ℕ) (k : ℕ) (ts : List ℕ) → n ≤ k → levels n (put qs k ts) ≡ levels n qs
unfolding levels top_bit
levels-put_above zero qs k ts le = refl
levels-put_above (suc n) qs k ts le =
    let apart : (k == n) ≡ false = ground arith in
    rw (apart, levels-put_above n qs k ts (omega arith)) refl

-- The first thread of the highest queue that has one, taken off.
pub levels-take :
    (n : ℕ) (rq : Runqueue) (k : ℕ) (rest : List ℕ)
    → IsExact rq
    → top_bit n rq.ready_mask ≡ some k
    → levels n (put rq.queues k rest) ≡ rest ++ levels k rq.queues
unfolding levels top_bit
levels-take zero rq k rest x e = absurd (cc)
levels-take (suc n) rq k rest x e = elim (Bool-cases (rq.ready_mask n)) [
  | inl on ↦
      let same : n ≡ k = ground (arith, on) in
      rw (← same, levels-put_above n rq.queues n rest (omega arith))
        (ap (λ ts. ts ++ levels n rq.queues) (ground arith))
  | inr off ↦
      let below : top_bit n rq.ready_mask ≡ some k = ground (arith, off) in
      let (lt, set_bit, at) = levels-some n rq k x below in
      let apart : (k == n) ≡ false = ground arith in
      rw (apart, empty-nil (rq.queues n) (ground (arith, x n, off)))
        (levels-take n rq k rest x below)
]

nonempty-append : (ts : List ℕ) (t : ℕ) → is_empty (ts ++ t ∷ []) ≡ false
nonempty-append [] t = refl
nonempty-append (u ∷ ts) t = refl

pub take_first-IsExact :
    (rq : Runqueue) (k : ℕ) (t : ℕ) (rest : List ℕ)
    → rq.queues k ≡ t ∷ rest
    → IsExact rq
    → IsExact (take_first k rest rq)
take_first-IsExact rq k t rest e x j = ground (arith, e, x j, x k)

pub rq_insert-IsExact : (prio t : ℕ) (rq : Runqueue) → IsExact rq → IsExact (rq_insert prio t rq)
rq_insert-IsExact prio t rq x j = ground (arith, x j, nonempty-append (rq.queues j) t)
