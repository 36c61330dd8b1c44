-- ===== src/Fd/Lowest.antt =====
-- Which descriptor the allocators of kernel/core/file.c hand out, while memory lasts.
use yak_kernel.Prelude.{
  ℕ, ◌+◌, ◌-◌, ◌^◌, ◌≤◌, ◌<◌, ◌≡◌, refl, ◌∙◌, sym, ◌≢◌, inl, inr, true, false, [], none, some,
  arith, length, set, ltb, Option-cases, ap, drop, drop-outside, get_or-drop, get_or-outside,
  length-drop, get_or-set_self, get_or-set_ne,
}
use yak_kernel.Status.{success, mfile}
use yak_kernel.Fd.Machine.{State, alloc, slot, empty_fd, ◌>>=◌}
use yak_kernel.Fd.Alloc.{
  add_int, fd_grow, fd_cap, fd_grow_by, fd_limit, first_free, grow_to, grown, put_checked,
  put_unchecked, next_grown, fd_allocate_next, fd_allocate_min_from, fd_allocate_min,
}
use yak_kernel.Fd.Refs.{first_free-some, first_free-none, first_free-here, length-grown, slot-grown}

module _ (s : State) (memory : s.allocs ≡ []) where
  alloc-ok : alloc s ≡ some (true, s)
  unfolding alloc
  alloc-ok = ground arith

  grow_to-ok :
      (a b : ℕ)
      → length s.slots ≤ a + b
      → a + b ≤ fd_limit
      → grow_to a b s ≡ some (success, record s { slots = grown s.slots (a + b) })
  unfolding grow_to fd_grow add_int
  grow_to-ok a b le small =
      let no_overflow : ltb (a + b) (2 ^ 31) ≡ true = ground arith in
      let grows : ltb (a + b) (fd_cap s) ≡ false = ground arith in
      let allowed : ltb fd_limit (a + b) ≡ false = ground arith in
      rw (grow_to, ◌>>=◌, add_int, no_overflow, fd_grow, grows, allowed, alloc-ok)

-- The state after the descriptor `i` is handed out.
pub record Took (s : State) (i : ℕ) (t : State) : Type 0 where
  pub new : slot t.slots i ≡ some empty_fd
  pub others : (j : ℕ) → j ≢ i → slot t.slots j ≡ slot s.slots j
  pub files : t.files ≡ s.files

put_unchecked-Took :
    (s : State) (i : ℕ)
    → s.allocs ≡ []
    → i < length s.slots
    → (t : State) × (put_unchecked i s ≡ some ((success, some i), t)) × Took s i t
unfolding put_unchecked alloc
put_unchecked-Took s i memory inside = (
  record s { slots = set s.slots i (some empty_fd) },
  rw memory,
  record {
    new = get_or-set_self s.slots i (some empty_fd) none inside;
    others = λ j ne. get_or-set_ne s.slots i j (some empty_fd) none (λ e. ne (sym e));
    files = refl;
  },
)

put_checked-Took :
    (s : State) (i : ℕ)
    → s.allocs ≡ []
    → i < length s.slots
    → (t : State) × (put_checked i s ≡ some ((success, some i), t)) × Took s i t
unfolding put_checked put_unchecked alloc
put_checked-Took s i memory inside =
    let (t, e, took) = put_unchecked-Took s i memory inside in
    (
      record s { slots = set s.slots i (some empty_fd) },
      rw memory,
      record {
        new = get_or-set_self s.slots i (some empty_fd) none inside;
        others = λ j ne. get_or-set_ne s.slots i j (some empty_fd) none (λ e. ne (sym e));
        files = refl;
      },
    )

-- A full table grows, and the first new slot is taken.
module _ (s : State) (memory : s.allocs ≡ []) (room : length s.slots + fd_grow_by ≤ fd_limit) where
  abbrev bigger : State
  bigger = record s { slots = grown s.slots (length s.slots + fd_grow_by) }

  last_new : length bigger.slots - fd_grow_by ≡ length s.slots
  last_new = omega (arith, length-grown s.slots (length s.slots + fd_grow_by))

  put_in_bigger :
      (t : State) × (put_unchecked (length bigger.slots - fd_grow_by) bigger
        ≡ some ((success, some (length s.slots)), t))
      × Took s (length s.slots) t
  put_in_bigger =
      let (t, e, took) =
        put_unchecked-Took bigger (length s.slots) memory
          (omega (arith, length-grown s.slots (length s.slots + fd_grow_by))) in
      (
        t,
        rw last_new e,
        record {
          new = took.new;
          others = λ j ne.
              took.others j ne ∙ slot-grown s.slots (length s.slots + fd_grow_by) j (omega arith);
          files = took.files;
        },
      )

  -- The second round of `fd_allocate_min` finds it at once.
  second_round :
      first_free
        (drop (length bigger.slots - fd_grow_by) bigger.slots)
        (length bigger.slots - fd_grow_by)
      ≡ some (length s.slots)
  second_round = rw last_new (
      first_free-here (drop (length s.slots) bigger.slots) (length s.slots)
        (omega (
          arith,
          length-drop (length s.slots) bigger.slots,
          length-grown s.slots (length s.slots + fd_grow_by),
        ))
        (get_or-drop bigger.slots (length s.slots) 0 none
          ∙ slot-grown s.slots (length s.slots + fd_grow_by) (length s.slots + 0) (omega arith)
          ∙ get_or-outside s.slots (length s.slots + 0) none (omega arith)))

  grow_here : grow_to (fd_cap s) fd_grow_by s ≡ some (success, bigger)
  grow_here = grow_to-ok s memory (length s.slots) fd_grow_by (omega arith) room

-- While memory and the limit on descriptors allow, `fd_allocate_next` hands out the lowest descriptor
-- that is not in use, growing a full table, and moves no other.
pub fd_allocate_next-lowest :
    (s : State)
    → s.allocs ≡ []
    → length s.slots + fd_grow_by ≤ fd_limit
    → (i : ℕ) × (t : State) × (fd_allocate_next s ≡ some ((success, some i), t))
      × (slot s.slots i ≡ none)
      × ((j : ℕ) → j < i → slot s.slots j ≢ none)
      × Took s i t
unfolding fd_allocate_next next_grown
fd_allocate_next-lowest s memory room = elim (Option-cases (first_free s.slots 0)) [
  | inl e ↦
      let (t, e', took) = put_in_bigger s memory room in
      (
        length s.slots,
        t,
        rw (fd_allocate_next, e, ◌>>=◌, grow_here s memory room) e',
        get_or-outside s.slots (length s.slots) none (omega arith),
        first_free-none s.slots 0 e,
        took,
      )
  | inr (i, e) ↦
      let (m, at, lt, free, before) = first_free-some s.slots 0 i e in
      let at' : i ≡ m = omega arith in
      let (t, e', took) = put_checked-Took s i memory (omega arith) in
      (i, t, rw (fd_allocate_next, e) e', rw at' free, λ j h. before j (omega arith), took)
]

-- At the limit, with every descriptor in use, it fails and changes nothing.
pub fd_allocate_next-mfile :
    (s : State)
    → fd_limit < length s.slots + fd_grow_by
    → length s.slots ≤ fd_limit
    → ((j : ℕ) → j < length s.slots → slot s.slots j ≢ none)
    → fd_allocate_next s ≡ some ((mfile, none), s)
unfolding fd_allocate_next next_grown grow_to fd_grow add_int
fd_allocate_next-mfile s full small used = elim (Option-cases (first_free s.slots 0)) [
  | inl e ↦
      let no_overflow : ltb (length s.slots + 4) (2 ^ 31) ≡ true = ground arith in
      let grows : ltb (length s.slots + 4) (fd_cap s) ≡ false = ground arith in
      let refused : ltb fd_limit (length s.slots + 4) ≡ true = ground arith in
      rw (fd_allocate_next, e, ◌>>=◌, grow_to, add_int, no_overflow, fd_grow, grows, refused)
  | inr (i, e) ↦
      let (m, at, lt, free, before) = first_free-some s.slots 0 i e in absurd (used m lt free)
]

-- With `min_fd` inside the table, `fd_allocate_min` hands out the lowest free descriptor from
-- `min_fd` on.
pub fd_allocate_min-lowest :
    (s : State) (min_fd : ℕ)
    → s.allocs ≡ []
    → length s.slots + fd_grow_by ≤ fd_limit
    → min_fd ≤ length s.slots
    → (i : ℕ) × (t : State) × (fd_allocate_min min_fd s ≡ some ((success, some i), t))
      × (min_fd ≤ i)
      × (slot s.slots i ≡ none)
      × ((j : ℕ) → min_fd ≤ j → j < i → slot s.slots j ≢ none)
      × Took s i t
unfolding fd_allocate_min fd_allocate_min_from
fd_allocate_min-lowest s min_fd memory room inside =
    elim (Option-cases (first_free (drop min_fd s.slots) min_fd)) [
      | inl e ↦
          let (t, e', took) = put_in_bigger s memory room in
          (
            length s.slots,
            t,
            rw
                (
                  fd_allocate_min,
                  fd_allocate_min_from,
                  e,
                  ◌>>=◌,
                  grow_here s memory room,
                  second_round s memory room,
                )
                (rw (last_new s memory room) at e'),
            inside,
            get_or-outside s.slots (length s.slots) none (omega arith),
            λ j le lt. full_from e j le lt,
            took,
          )
      | inr (i, e) ↦
          let (m, at, lt, free, before) = first_free-some (drop min_fd s.slots) min_fd i e in
          let (t, e', took) =
            put_unchecked-Took s i memory (omega (arith, length-drop min_fd s.slots)) in
          (
            i,
            t,
            rw (fd_allocate_min, fd_allocate_min_from, e) e',
            omega arith,
            rw at (sym (get_or-drop s.slots min_fd m none) ∙ free),
            λ j le h. used_before m at before j le h,
            took,
          )
    ]
  where
    shift : (j : ℕ) → min_fd ≤ j → slot s.slots j ≡ slot (drop min_fd s.slots) (j - min_fd)
    shift j le =
        let e : min_fd + (j - min_fd) ≡ j = omega arith in
        sym (get_or-drop s.slots min_fd (j - min_fd) none ∙ ap (slot s.slots) e)

    full_from :
        first_free (drop min_fd s.slots) min_fd ≡ none
        → (j : ℕ) → min_fd ≤ j
        → j < length s.slots
        → slot s.slots j ≢ none
    full_from e j le lt free =
        first_free-none (drop min_fd s.slots) min_fd e (j - min_fd)
          (omega (arith, length-drop min_fd s.slots)) (sym (shift j le) ∙ free)

    used_before :
        {i : ℕ} (m : ℕ)
        → i ≡ min_fd + m
        → ((j : ℕ) → j < m → slot (drop min_fd s.slots) j ≢ none)
        → (j : ℕ) → min_fd ≤ j
        → j < i
        → slot s.slots j ≢ none
    used_before m at before j le lt free =
        before (j - min_fd) (omega arith) (sym (shift j le) ∙ free)

-- With `min_fd` behind the end of the table it hands out a lower descriptor than asked for, the first
-- one behind the old table.
pub fd_allocate_min-below :
    (s : State) (min_fd : ℕ)
    → s.allocs ≡ []
    → length s.slots + fd_grow_by ≤ fd_limit
    → length s.slots < min_fd
    → (t : State) × (fd_allocate_min min_fd s ≡ some ((success, some (length s.slots)), t))
      × Took s (length s.slots) t
unfolding fd_allocate_min fd_allocate_min_from first_free
fd_allocate_min-below s min_fd memory room outside =
    let (t, e', took) = put_in_bigger s memory room in
    (
      t,
      rw
          (
            fd_allocate_min,
            fd_allocate_min_from,
            nothing,
            ◌>>=◌,
            grow_here s memory room,
            second_round s memory room,
          )
          (rw (last_new s memory room) at e'),
      took,
    )
  where
    nothing : first_free (drop min_fd s.slots) min_fd ≡ none
    nothing = rw (drop-outside min_fd s.slots (omega arith)) refl
