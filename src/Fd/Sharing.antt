-- ===== src/Fd/Sharing.antt =====
-- Every operation of kernel/core/file.c keeps the reference counts of open files exact.
use yak_kernel.Prelude.{
  ℕ, zero, suc, ◌+◌, ◌-◌, ◌^◌, ◌≡◌, refl, ◌∙◌, sym, inl, inr, Bool, true, false, Option, none, some,
  arith, leb, ltb, if◌then◌else◌, Bool-cases, Option-cases, drop, get_or-drop, get_or-set-none,
}
use yak_kernel.Status.{Status, success, oom, is_err}
use yak_kernel.Fd.Machine.{State, slot}
use yak_kernel.Fd.Alloc.{
  add_int, fd_grow, fd_cap, fd_grow_by, first_free, grow_to, put_fd, put_checked, put_unchecked,
  next_grown, fd_allocate_next, fd_allocate_min_from, fd_allocate_min, fd_close, fd_close_old,
  fd_take, at_grown, fd_allocate_at,
}
use yak_kernel.Fd.Refs.{first_free-some}
use yak_kernel.Fd.Growth.{Grew, fd_grow-Grew, free_behind}
use yak_kernel.Fd.After.{After, After-bind, After-and, After-map}
use yak_kernel.Fd.Deref.{fd_close-slots}
use yak_kernel.Fd.Counted.{
  IsCounted, Blank, put_fd-IsCounted, fd_grow-IsCounted, fd_close-IsCounted,
}

module _ (ext : ℕ → ℕ) where
  -- What the allocators keep and hand out.
  abbrev pub Kept : Status × Option ℕ → State → Type 0
  Kept r t = IsCounted ext t × Blank r.1 t

  -- Growing the table keeps the counts, and the descriptors.
  abbrev Grown : ℕ → State → Status → State → Type 0
  Grown n s rv t = IsCounted ext t × Grew n s rv t

  fd_grow-Grown : (s : State) (n : ℕ) → IsCounted ext s → After (Grown n s) (fd_grow n s)
  fd_grow-Grown s n v = After-and _ _ (fd_grow n s) (fd_grow-IsCounted ext s n v) (fd_grow-Grew s n)

  grow_to-Grown : (s : State) (a b : ℕ) → IsCounted ext s → After (Grown (a + b) s) (grow_to a b s)
  unfolding grow_to add_int
  grow_to-Grown s a b v = elim (Bool-cases (ltb (a + b) (2 ^ 31))) [
    | inl e ↦ rw (e, After) (fd_grow-Grown s (a + b) v)
    | inr e ↦ rw (e, After) tt
  ]

  put_checked-IsCounted :
      (s : State) (i : ℕ) → slot s.slots i ≡ none → IsCounted ext s → After Kept (put_checked i s)
  unfolding put_checked
  put_checked-IsCounted s i free v =
      After-bind (λ b t. IsCounted ext t × Blank (some i) t) Kept (put_fd i s) _
        (put_fd-IsCounted ext s i free v) (λ b t w. w)

  put_unchecked-IsCounted :
      (s : State) (i : ℕ) → slot s.slots i ≡ none → IsCounted ext s → After Kept (put_unchecked i s)
  unfolding put_unchecked
  put_unchecked-IsCounted s i free v =
      After-bind (λ b t. IsCounted ext t × Blank (some i) t) Kept (put_fd i s) _
        (put_fd-IsCounted ext s i free v) (λ b t w. w)

  -- `fd_allocate_next` keeps the counts.
  pub fd_allocate_next-IsCounted : (s : State) → IsCounted ext s → After Kept (fd_allocate_next s)
  unfolding fd_allocate_next next_grown
  fd_allocate_next-IsCounted s v = elim (Option-cases (first_free s.slots 0)) [
    | inl e ↦
        rw (e, After)
          (After-bind (Grown (fd_cap s + fd_grow_by) s) Kept (grow_to (fd_cap s) fd_grow_by s) _
            (grow_to-Grown s (fd_cap s) fd_grow_by v) grown_next)
    | inr (i, e) ↦
        let (m, at, lt, free, before) = first_free-some s.slots 0 i e in
        let at' : i ≡ m = omega arith in rw (e, After) (put_checked-IsCounted s i (rw at' free) v)
  ]
    where
      grown_next :
          (rv : Status) (t : State)
          → Grown (fd_cap s + fd_grow_by) s rv t
          → After Kept (next_grown rv t)
      grown_next rv t (w, g) = elim (Bool-cases (is_err rv)) [
        | inl e ↦ rw (e, After) (w, tt)
        | inr e ↦
            rw (e, After)
              (put_unchecked-IsCounted t (fd_cap t - fd_grow_by) (free_behind g refl e).0 w)
      ]

  -- So does `fd_allocate_min`, in each round of its loop.
  fd_allocate_min_from-IsCounted :
      (fuel start : ℕ) (s : State)
      → IsCounted ext s
      → After Kept (fd_allocate_min_from fuel start s)
  unfolding fd_allocate_min_from
  fd_allocate_min_from-IsCounted zero start s v = tt
  fd_allocate_min_from-IsCounted (suc fuel) start s v =
      elim (Option-cases (first_free (drop start s.slots) start)) [
        | inl e ↦
            rw (e, After)
              (After-bind (Grown (fd_cap s + fd_grow_by) s) Kept (grow_to (fd_cap s) fd_grow_by s) _
                (grow_to-Grown s (fd_cap s) fd_grow_by v)
                (λ rv t g.
                  again rv t g (fd_allocate_min_from-IsCounted fuel (fd_cap t - fd_grow_by) t)))
        | inr (i, e) ↦
            let (m, at, lt, free, before) = first_free-some (drop start s.slots) start i e in
            rw (e, After)
              (put_unchecked-IsCounted s i (rw at (sym (get_or-drop s.slots start m none) ∙ free))
                v)
      ]
    where
      again :
          (rv : Status) (t : State)
          → Grown (fd_cap s + fd_grow_by) s rv t
          → (IsCounted ext t → After Kept (fd_allocate_min_from fuel (fd_cap t - fd_grow_by) t))
          → After Kept (elim (is_err rv) [
            | true ↦ some ((rv, none), t)
            | false ↦ fd_allocate_min_from fuel (fd_cap t - fd_grow_by) t
          ])
      again rv t g next = elim (Bool-cases (is_err rv)) [
        | inl e ↦ rw (e, After) (g.0, tt)
        | inr e ↦ rw (e, After) (next g.0)
      ]

  pub fd_allocate_min-IsCounted :
      (start : ℕ) (s : State) → IsCounted ext s → After Kept (fd_allocate_min start s)
  unfolding fd_allocate_min
  fd_allocate_min-IsCounted start s v = fd_allocate_min_from-IsCounted 2 start s v

  pub fd_close_old-IsCounted :
      (s : State) (fd : ℕ)
      → IsCounted ext s
      → After (λ u t. IsCounted ext t × (slot t.slots fd ≡ none)) (fd_close_old fd s)
  unfolding fd_close_old
  fd_close_old-IsCounted s fd v = elim (Option-cases (slot s.slots fd)) [
    | inl e ↦ rw (e, After) (v, e)
    | inr (desc, e) ↦
        rw (e, After)
          (After-map _ _ (fd_close fd s) (λ u t w. (w.0, rw w.1 (get_or-set-none s.slots fd)))
            (After-and _ _ (fd_close fd s) (fd_close-IsCounted ext s fd v) (fd_close-slots s fd)))
  ]

  fd_take-IsCounted : (s : State) (fd : ℕ) → IsCounted ext s → After Kept (fd_take fd s)
  unfolding fd_take
  fd_take-IsCounted s fd v =
      After-bind (λ u t. IsCounted ext t × (slot t.slots fd ≡ none)) Kept (fd_close_old fd s) _
        (fd_close_old-IsCounted s fd v)
        λ u t w.
          After-bind (λ b t. IsCounted ext t × Blank (some fd) t) Kept (put_fd fd t) _
            (put_fd-IsCounted ext t fd w.1 w.0) taken
    where
      taken :
          (found : Bool) (t : State)
          → IsCounted ext t × Blank (some fd) t
          → After Kept (some (if found then (success, some fd) else (oom, none), t))
      taken true t w = w
      taken false t w = (w.0, tt)

  pub fd_allocate_at-IsCounted :
      (s : State) (fd : ℕ) → IsCounted ext s → After Kept (fd_allocate_at fd s)
  unfolding fd_allocate_at at_grown
  fd_allocate_at-IsCounted s fd v = elim (Bool-cases (leb (fd_cap s) fd)) [
    | inl e ↦
        rw (e, After)
          (After-bind (Grown (fd + fd_grow_by) s) Kept (grow_to fd fd_grow_by s) _
            (grow_to-Grown s fd fd_grow_by v) grown_at)
    | inr e ↦ rw (e, After) (fd_take-IsCounted s fd v)
  ]
    where
      grown_at :
          (rv : Status) (t : State) → Grown (fd + fd_grow_by) s rv t → After Kept (at_grown fd rv t)
      grown_at rv t (w, g) = elim (Bool-cases (is_err rv)) [
        | inl e ↦ rw (e, After) (w, tt)
        | inr e ↦ rw (e, After) (fd_take-IsCounted t fd w)
      ]
