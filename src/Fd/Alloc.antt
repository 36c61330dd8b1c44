-- ===== src/Fd/Alloc.antt =====
-- Growing the table and finding a free descriptor: `fd_grow`, `fd_safe_get`, `fd_allocate_next`,
-- `fd_allocate_min`, `fd_allocate_at`, `fd_close` and `fd_alloc_file` of kernel/core/file.c.
use yak_kernel.Prelude.{
  ℕ, zero, suc, ◌+◌, ◌-◌, ◌^◌, Bool, true, false, List, [], ◌∷◌, Option, none, some, ltb, leb,
  if◌then◌else◌, length, tabulate, drop,
}
use yak_kernel.Prelude.Int.{ℤ, pos, negsuc}
use yak_kernel.Status.{Status, success, mfile, oom, is_err}
use yak_kernel.Fd.Machine.{
  Fd, State, M, pure, ◌>>=◌, ◌>>◌, alloc, slot, set_slot, empty_fd, file_deref, new_file,
}

abbrev pub fd_limit : ℕ
fd_limit = 65535

abbrev pub fd_grow_by : ℕ
fd_grow_by = 4

abbrev pub fd_cap : State → ℕ
fd_cap s = length s.slots

-- `a + b` on `int`: overflow is undefined.
unfoldable pub add_int : ℕ → ℕ → M ℕ
add_int a b s = if ltb (a + b) (2 ^ 31) then some (a + b, s) else none

-- The two loops that fill the new table.
unfoldable pub grown : List (Option Fd) → ℕ → List (Option Fd)
grown old new_cap = tabulate new_cap (λ i. if ltb i (length old) then slot old i else none)

unfoldable pub fd_grow : ℕ → M Status
fd_grow new_cap s =
    let grow : Option (Status × State) =
      (do
        found ← alloc
        λ t.
            some
              (if found then (success, record t { slots = grown t.slots new_cap }) else (oom, t)))
        s in
    if ltb new_cap (fd_cap s)
    then some (success, s)
    else if ltb fd_limit new_cap
    then some (mfile, s)
    else grow

-- A negative descriptor passes the test `fd >= proc->fd_cap`, and reads before the table.
unfoldable pub fd_safe_get : ℤ → M (Option Fd)
fd_safe_get (pos fd) s = some (if leb (fd_cap s) fd then none else slot s.slots fd, s)
fd_safe_get (negsuc n) s = elim s.slots [ [] ↦ some (none, s) | d ∷ ds ↦ none ]

-- `for (int i = start; i < fd_cap; i++) if (!fds[i])`, on the slots from `start` on.
unfoldable pub first_free : List (Option Fd) → ℕ → Option ℕ
first_free [] i = none
first_free (none ∷ ds) i = some i
first_free (some d ∷ ds) i = first_free ds (suc i)

-- `proc->fds[i] = kzalloc(sizeof(struct fd))`: whether it succeeded.
unfoldable pub put_fd : ℕ → M Bool
put_fd i = do found ← alloc; set_slot i (if found then some empty_fd else none); pure found

-- `fd_grow(proc, a + b)`
unfoldable pub grow_to : ℕ → ℕ → M Status
unfolding fd_grow add_int
grow_to a b = do new_cap ← add_int a b; fd_grow new_cap

-- `kzalloc` for a slot whose failure the code looks at, and for one where it does not. The result
-- is the status, and what was written through `outfd`.
unfoldable pub put_checked : ℕ → M (Status × Option ℕ)
unfolding put_fd
put_checked i = do found ← put_fd i; pure (if found then success else oom, some i)

unfoldable pub put_unchecked : ℕ → M (Status × Option ℕ)
unfolding put_fd
put_unchecked i = do found ← put_fd i; pure (success, some i)

-- What follows the growth in `fd_allocate_next`.
unfoldable pub next_grown : Status → M (Status × Option ℕ)
unfolding put_unchecked
next_grown rv t = elim (is_err rv) [
  | true ↦ some ((rv, none), t)
  | false ↦ put_unchecked (fd_cap t - fd_grow_by) t
]

unfoldable pub fd_allocate_next : M (Status × Option ℕ)
unfolding put_checked next_grown first_free grow_to
fd_allocate_next s = elim (first_free s.slots 0) [
  | some i ↦ put_checked i s
  | none ↦ (do rv ← grow_to (fd_cap s) fd_grow_by; next_grown rv) s
]

-- `while (true)`, on fuel; running out of it is `none`, and two rounds are enough.
unfoldable pub fd_allocate_min_from : ℕ → ℕ → M (Status × Option ℕ)
unfolding put_unchecked first_free grow_to
fd_allocate_min_from zero start s = none
fd_allocate_min_from (suc fuel) start s = elim (first_free (drop start s.slots) start) [
  | some i ↦ put_unchecked i s
  | none ↦
      (do
        rv ← grow_to (fd_cap s) fd_grow_by
        λ t. elim (is_err rv) [
          | true ↦ some ((rv, none), t)
          | false ↦ fd_allocate_min_from fuel (fd_cap t - fd_grow_by) t
        ])
        s
]

unfoldable pub fd_allocate_min : ℕ → M (Status × Option ℕ)
unfolding fd_allocate_min_from
fd_allocate_min min_fd = fd_allocate_min_from 2 min_fd

-- The caller holds the descriptor mutex.
unfoldable pub fd_close : ℕ → M (Unit {0})
unfolding file_deref
fd_close fd s = elim (slot s.slots fd) [
  | none ↦ none
  | some desc ↦ (do elim desc.file [ none ↦ pure tt | some p ↦ file_deref p ]; set_slot fd none) s
]

-- `if (old) fd_close(proc, fd)`
unfoldable pub fd_close_old : ℕ → M (Unit {0})
unfolding fd_close
fd_close_old fd s = elim (slot s.slots fd) [ none ↦ some (tt, s) | some desc ↦ fd_close fd s ]

-- The rest of `fd_allocate_at`, inside the table.
unfoldable pub fd_take : ℕ → M (Status × Option ℕ)
unfolding put_fd fd_close_old
fd_take fd = do
  fd_close_old fd
  found ← put_fd fd
  pure (if found then (success, some fd) else (oom, none))

-- What follows the growth in `fd_allocate_at`.
unfoldable pub at_grown : ℕ → Status → M (Status × Option ℕ)
unfolding fd_take
at_grown fd rv t = elim (is_err rv) [ true ↦ some ((rv, none), t) | false ↦ fd_take fd t ]

unfoldable pub fd_allocate_at : ℕ → M (Status × Option ℕ)
unfolding at_grown grow_to
fd_allocate_at fd s = elim (leb (fd_cap s) fd) [
  | true ↦ (do rv ← grow_to fd fd_grow_by; at_grown fd rv) s
  | false ↦ fd_take fd s
]

-- `desc->file = kzalloc(sizeof(struct file))` and what follows, for the new descriptor `fd`.
unfoldable pub fd_attach_file : ℕ → M (Status × Option ℕ)
unfolding alloc new_file fd_close
fd_attach_file fd s = elim (slot s.slots fd) [
  | none ↦ none
  | some desc ↦
      (do
        found ← alloc
        λ t. elim found [
          | false ↦ (do fd_close fd; pure (oom, none)) t
          | true ↦
              (do
                p ← new_file
                set_slot fd (some (record desc { file = some p }))
                pure (success, some fd))
                t
        ])
        s
]

unfoldable pub fd_alloc_file : M (Status × Option ℕ)
unfolding fd_allocate_next fd_attach_file
fd_alloc_file s = elim (fd_allocate_next s) [
  | none ↦ none
  | some ((success, some fd), t) ↦ fd_attach_file fd t
  | some ((rv, out), t) ↦ some ((rv, none), t)
]
