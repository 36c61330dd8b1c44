-- ===== src/Fd/Dup.antt =====
-- `fd_duplicate`, `fd_clone` and the closing of all descriptors keep the reference counts exact
-- (kernel/core/file.c, kernel/core/process.c).
use yak_kernel.Prelude.{
  ℕ, zero, suc, ◌+◌, ◌<◌, ◌≡◌, refl, inl, inr, not, ◌&&◌, List, [], ◌∷◌, Option, none, some, arith,
  ltb, Bool-cases, Option-cases, add_size, add_size_small,
}
use yak_kernel.Prelude.Int.{ℤ, pos, negsuc}
use yak_kernel.Status.{Status, success}
use yak_kernel.Fd.Machine.{File, State, Fd, slot, file_ref}
use yak_kernel.Fd.Alloc.{fd_safe_get, fd_close_old}
use yak_kernel.Fd.Duplicate.{
  fd_assign, fd_allocate, assign_to, fd_dup_to, dup_found, fd_duplicate, close_from, dupe_flags,
  has_bit, fd_dupe_minimum, eq_int,
}
use yak_kernel.Fd.Refs.{lt_of_used, refs-le-length}
use yak_kernel.Fd.After.{After, After-bind}
use yak_kernel.Fd.Counted.{IsCounted, Blank, relink-IsCounted}
use yak_kernel.Fd.Sharing.{
  Kept, fd_allocate_next-IsCounted, fd_allocate_min-IsCounted, fd_allocate_at-IsCounted,
  fd_close_old-IsCounted,
}

module _ (ext : ℕ → ℕ) where
  pub known : (s : State) (p : ℕ) (f : File) → s.files p ≡ some f → IsCounted ext s → p < s.next
  known s p f held v = elim (Bool-cases (ltb p s.next)) [
    | inl e ↦ ground arith
    | inr e ↦ absurd (ground (arith, v.fresh p))
  ]

  fd_assign-IsCounted :
      (s : State) (fd : ℕ) (src : Fd) (flags : ℕ)
      → Blank (some fd) s
      → IsCounted ext s
      → After (λ rv t. IsCounted ext t) (fd_assign fd src flags s)
  unfolding fd_assign file_ref
  fd_assign-IsCounted s fd src flags blank v = elim (Option-cases (slot s.slots fd)) [
    | inl e ↦ rw (e, After) tt
    | inr (dest, e) ↦ elim (Option-cases src.file) [
      | inl e' ↦ rw (e, After, e') tt
      | inr (p, e') ↦ elim (Option-cases (s.files p)) [
        | inl e'' ↦ rw (e, After, e', e'') tt
        | inr (f, e'') ↦
            rw (e, After, e', e'')
              (relink-IsCounted ext s p fd s.next (some (record f { refcnt = add_size f.refcnt 1 }))
                (some (record { file = src.file; flags = dupe_flags flags src.flags }))
                s.vnode_derefs (lt_of_used s.slots fd e) (λ q ne. ground (arith, blank q))
                (ground (arith, blank p, bound p f e'')) (λ f' h. ground (arith, bound p f e''))
                (omega arith) (known s p f e'' v) v)
      ]
    ]
  ]
    where
      bound : (p : ℕ) (f : File) → s.files p ≡ some f → add_size f.refcnt 1 ≡ f.refcnt + 1
      bound p f e =
          ground (arith, v.counted p, v.room p, refs-le-length p s.slots, add_size_small f.refcnt 1)

  fd_allocate-IsCounted :
      (s : State) (newfd : ℤ) (flags : ℕ)
      → IsCounted ext s
      → After (Kept ext) (fd_allocate newfd flags s)
  unfolding fd_allocate
  fd_allocate-IsCounted s (negsuc zero) flags v = fd_allocate_next-IsCounted ext s v
  fd_allocate-IsCounted s (negsuc (suc n)) flags v = tt
  fd_allocate-IsCounted s (pos n) flags v = elim (Bool-cases (has_bit flags fd_dupe_minimum)) [
    | inl e ↦ rw (e, After) (fd_allocate_min-IsCounted ext n s v)
    | inr e ↦ rw (e, After) (fd_allocate_at-IsCounted ext s n v)
  ]

  assign_to-IsCounted :
      (src : Fd) (flags : ℕ) (r : Status × Option ℕ) (t : State)
      → Kept ext r t
      → After (λ r' t'. IsCounted ext t') (assign_to src flags r t)
  unfolding assign_to
  assign_to-IsCounted src flags (success, some fd) t (v, blank) =
      After-bind (λ rv t'. IsCounted ext t') (λ r' t'. IsCounted ext t') (fd_assign fd src flags t)
        _ (fd_assign-IsCounted t fd src flags blank v) (λ rv t' w. w)
  assign_to-IsCounted src flags (rv, out) t w = w.0

  dup_found-IsCounted :
      (found : Option Fd) (s : State) (oldfd newfd : ℤ) (flags : ℕ)
      → IsCounted ext s
      → After (λ r t. IsCounted ext t) (dup_found found oldfd newfd flags s)
  unfolding dup_found fd_dup_to
  dup_found-IsCounted none s oldfd newfd flags v = v
  dup_found-IsCounted (some src) s oldfd newfd flags v =
      elim (Bool-cases (not (has_bit flags fd_dupe_minimum) && eq_int oldfd newfd)) [
        | inl e ↦ rw (e, After) v
        | inr e ↦
            rw (e, After)
              (After-bind (Kept ext) (λ r t. IsCounted ext t) (fd_allocate newfd flags s) _
                (fd_allocate-IsCounted s newfd flags v) (assign_to-IsCounted src flags))
      ]

  fd_safe_get-same : (s : State) (fd : ℤ) → After (λ r t. t ≡ s) (fd_safe_get fd s)
  unfolding fd_safe_get
  fd_safe_get-same s (pos n) = refl
  fd_safe_get-same s (negsuc n) = by_slots s.slots
    where
      by_slots :
          (ds : List (Option Fd))
          → After {A = Option Fd} (λ r t. t ≡ s) (elim ds [ [] ↦ some (none, s) | d ∷ rest ↦ none ])
      by_slots [] = refl
      by_slots (d ∷ rest) = tt

  -- With exact reference counts before, `fd_duplicate`, as `dup`, `dup2` and `fcntl` call it, keeps them
  -- exact on each path on which it returns.
  pub fd_duplicate-IsCounted :
      (s : State) (oldfd newfd : ℤ) (flags : ℕ)
      → IsCounted ext s
      → After (λ r t. IsCounted ext t) (fd_duplicate oldfd newfd flags s)
  unfolding fd_duplicate
  fd_duplicate-IsCounted s oldfd newfd flags v =
      After-bind (λ r t. t ≡ s) (λ r t. IsCounted ext t) (fd_safe_get oldfd s) _
        (fd_safe_get-same s oldfd)
        (λ found t e. dup_found-IsCounted found t oldfd newfd flags (rw e v))

  pub close_from-IsCounted :
      (n i : ℕ) (s : State) → IsCounted ext s → After (λ u t. IsCounted ext t) (close_from i n s)
  unfolding close_from
  close_from-IsCounted zero i s v = v
  close_from-IsCounted (suc n) i s v =
      After-bind (λ u t. IsCounted ext t × (slot t.slots i ≡ none)) (λ u t. IsCounted ext t)
        (fd_close_old i s) _ (fd_close_old-IsCounted ext s i v)
        (λ u t w. close_from-IsCounted n (suc i) t w.0)
