-- ===== src/Fd/Duplicate.antt =====
-- `fd_assign`, `fd_duplicate`, `fd_clone` of kernel/core/file.c, and the loop of `process_destroy`
-- (kernel/core/process.c) that closes the descriptors.
use yak_kernel.Prelude.{
  ℕ, zero, suc, ◌+◌, ◌-◌, ◌/◌, ◌%◌, Bool, true, false, ◌&&◌, not, List, [], ◌∷◌, Option, none, some,
  ◌==◌, if◌then◌else◌,
}
use yak_kernel.Prelude.Int.{ℤ, pos, negsuc}
use yak_kernel.Status.{Status, success, badf}
use yak_kernel.Fd.Machine.{Fd, State, M, pure, ◌>>=◌, ◌>>◌, alloc, slot, set_slot, file_ref}
use yak_kernel.Fd.Alloc.{
  fd_safe_get, fd_allocate_next, fd_allocate_min, fd_allocate_at, fd_close_old, fd_cap,
}

-- The `flags` argument of `fd_duplicate`.
abbrev pub fd_dupe_nocloexec : ℕ
fd_dupe_nocloexec = 1

abbrev pub fd_dupe_cloexec : ℕ
fd_dupe_cloexec = 2

abbrev pub fd_dupe_minimum : ℕ
fd_dupe_minimum = 4

-- `flags & bit`, for a power of two.
abbrev pub has_bit : ℕ → ℕ → Bool
has_bit flags bit = flags / bit % 2 == 1

-- `flags & ~FD_CLOEXEC` and `flags | FD_CLOEXEC`; `FD_CLOEXEC` is 1.
abbrev pub clear_cloexec : ℕ → ℕ
clear_cloexec flags = flags - flags % 2

abbrev pub set_cloexec : ℕ → ℕ
set_cloexec flags = clear_cloexec flags + 1

abbrev pub dupe_flags : ℕ → ℕ → ℕ
dupe_flags flags old =
    if has_bit flags fd_dupe_nocloexec
    then clear_cloexec old
    else if has_bit flags fd_dupe_cloexec
    then set_cloexec old
    else old

-- `src` is what `*src_fd` holds: no step between the lookup and this read changes it.
unfoldable pub fd_assign : ℕ → Fd → ℕ → M Status
unfolding file_ref
fd_assign fd src flags s = elim (slot s.slots fd) [
  | none ↦ none
  | some dest ↦
      (do
        file_ref src.file
        set_slot fd (some (record { file = src.file; flags = dupe_flags flags src.flags }))
        pure success)
        s
]

-- Which allocator `fd_duplicate` calls. With a negative `newfd` other than -1 the allocators index
-- the table below its start.
unfoldable pub fd_allocate : ℤ → ℕ → M (Status × Option ℕ)
unfolding fd_allocate_next fd_allocate_min fd_allocate_at
fd_allocate (negsuc zero) flags s = fd_allocate_next s
fd_allocate (negsuc (suc n)) flags s = none
fd_allocate (pos newfd) flags s =
    if has_bit flags fd_dupe_minimum then fd_allocate_min newfd s else fd_allocate_at newfd s

abbrev pub eq_int : ℤ → ℤ → Bool
eq_int (pos a) (pos b) = a == b
eq_int (negsuc a) (negsuc b) = a == b
eq_int (pos a) (negsuc b) = false
eq_int (negsuc a) (pos b) = false

-- `fd_assign` for the descriptor that was allocated; an error ends the call.
unfoldable pub assign_to : Fd → ℕ → Status × Option ℕ → M (Status × Option ℕ)
unfolding fd_assign
assign_to src flags (success, some fd) t = (do rv ← fd_assign fd src flags; pure (rv, some fd)) t
assign_to src flags (rv, out) t = some ((rv, none), t)

-- The part behind the lookup and the early exit.
unfoldable pub fd_dup_to : Fd → ℤ → ℕ → M (Status × Option ℕ)
unfolding fd_allocate assign_to
fd_dup_to src newfd flags = do r ← fd_allocate newfd flags; assign_to src flags r

unfoldable pub dup_found : Option Fd → ℤ → ℤ → ℕ → M (Status × Option ℕ)
unfolding fd_dup_to
dup_found none oldfd newfd flags t = some ((badf, none), t)
dup_found (some src) oldfd newfd flags t =
    if not (has_bit flags fd_dupe_minimum) && eq_int oldfd newfd
    then some ((success, none), t)
    else fd_dup_to src newfd flags t

-- The result is the status, and what was written through `outfd`.
unfoldable pub fd_duplicate : ℤ → ℤ → ℕ → M (Status × Option ℕ)
unfolding fd_safe_get dup_found
fd_duplicate oldfd newfd flags s = elim (fd_safe_get oldfd s) [
  | none ↦ none
  | some (found, t) ↦ dup_found found oldfd newfd flags t
]

-- A descriptor in use, after the allocation for its copy; `rest` is the loop's remainder.
unfoldable pub clone_some :
    Fd → M (List (Option Fd)) → Option (Bool × State) → Option (List (Option Fd) × State)
unfolding file_ref
clone_some old rest none = none
clone_some old rest (some (false, t)) = none
clone_some old rest (some (true, t)) = (do file_ref old.file; ds ← rest; pure (some old ∷ ds)) t

-- The loop of `fd_clone`: the new table's slots, the references taken in the shared files.
unfoldable pub clone_slots : List (Option Fd) → M (List (Option Fd))
unfolding clone_some
clone_slots [] s = some ([], s)
clone_slots (none ∷ ds) s = (do rest ← clone_slots ds; pure (none ∷ rest)) s
clone_slots (some old ∷ ds) s = clone_some old (clone_slots ds) (alloc s)

-- `fd_clone` starts with the new table. Without memory for it the kernel panics.
unfoldable pub clone_table : Option (Bool × State) → Option (List (Option Fd) × State)
unfolding clone_slots
clone_table none = none
clone_table (some (false, t)) = none
clone_table (some (true, t)) = clone_slots t.slots t

-- Returns the new process's table.
unfoldable pub fd_clone : M (List (Option Fd))
unfolding clone_table
fd_clone s = clone_table (alloc s)

-- `for (int i = 0; i < fd_cap; i++) if (fds[i] != NULL) fd_close(process, i);`, from `i` on with
-- `n` rounds left.
unfoldable pub close_from : ℕ → ℕ → M (Unit {0})
unfolding fd_close_old
close_from i zero s = some (tt, s)
close_from i (suc n) s = elim (fd_close_old i s) [
  | none ↦ none
  | some (u, t) ↦ close_from (suc i) n t
]

unfoldable pub close_all : M (Unit {0})
unfolding close_from
close_all s = close_from 0 (fd_cap s) s
