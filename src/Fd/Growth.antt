-- ===== src/Fd/Growth.antt =====
-- `fd_grow` of kernel/core/file.c: the table grows, and no descriptor moves or is lost.
use yak_kernel.Prelude.{
  ℕ, ◌+◌, ◌-◌, ◌≤◌, ◌≡◌, refl, ◌∙◌, inl, inr, Bool, true, false, List, none, some, arith, length,
  get_or-outside, ltb, if◌then◌else◌, Bool-cases,
}
use yak_kernel.Status.{Status, success, oom, is_err}
use yak_kernel.Fd.Machine.{State, alloc, alloc-cases, slot}
use yak_kernel.Fd.Alloc.{fd_grow, fd_limit, fd_grow_by, fd_cap, grown}
use yak_kernel.Fd.Refs.{length-grown, slot-grown}
use yak_kernel.Fd.After.{After}

-- What `fd_grow n` does to the table `ds`, with result `rv`.
pub record Grew (n : ℕ) (s : State) (rv : Status) (t : State) : Type 0 where
  pub kept : (i : ℕ) → slot t.slots i ≡ slot s.slots i
  pub fits : length s.slots ≤ n → is_err rv ≡ false → (length t.slots ≡ n) × (n ≤ fd_limit)
  pub files : t.files ≡ s.files

pub fd_grow-Grew : (s : State) (n : ℕ) → After (Grew n s) (fd_grow n s)
unfolding fd_grow
fd_grow-Grew s n = elim (Bool-cases (ltb n (fd_cap s))) [
  | inl e ↦ rw e (record { kept = λ i. refl; fits = λ h k. absurd (ground arith); files = refl })
  | inr e ↦ elim (Bool-cases (ltb fd_limit n)) [
    | inl e' ↦ rw (e, e') (record { kept = λ i. refl; fits = λ h k. absurd (cc); files = refl })
    | inr e' ↦ rw (e, e') (after_alloc (ground arith) (ground arith) (alloc-cases s))
  ]
]
  where
    after_alloc :
        length s.slots ≤ n
        → n ≤ fd_limit
        → ((b : Bool) × (rest : List Bool) × (alloc s ≡ some (b, record s { allocs = rest })))
        → After (Grew n s) (elim (alloc s) [
          | none ↦ none
          | some (found, t) ↦
              some (if found then (success, record t { slots = grown t.slots n }) else (oom, t))
        ])
    after_alloc le small (true, rest, e) =
        rw (e, After)
          (record {
            kept = λ i. slot-grown s.slots n i le;
            fits = λ h k. (length-grown s.slots n, small);
            files = refl;
          })
    after_alloc le small (false, rest, e) =
        rw (e, After) (record { kept = λ i. refl; fits = λ h k. absurd (cc); files = refl })

-- The slot behind a table that was full is free in the grown one.
pub free_behind :
    {n : ℕ} {s t : State} {rv : Status}
    → Grew n s rv t
    → n ≡ fd_cap s + fd_grow_by
    → is_err rv ≡ false
    → (slot t.slots (fd_cap t - fd_grow_by) ≡ none) × (fd_cap t - fd_grow_by ≡ fd_cap s)
free_behind {n} {s} {t} {rv} g e ok =
    let (len, lim) = g.fits (omega arith) ok in
    let at : fd_cap t - fd_grow_by ≡ fd_cap s = omega arith in
    (rw at (g.kept (fd_cap s) ∙ get_or-outside s.slots (fd_cap s) none (omega arith)), at)
