-- ===== src/Fd/Counted.antt =====
-- The reference counts of open files (kernel/core/file.c) are exact: `file->refcnt` is the number of
-- descriptors that share the file, in this table and elsewhere.
use yak_kernel.Prelude.{
  ℕ, ◌+◌, ◌^◌, ◌≤◌, ◌<◌, ◌≡◌, refl, ◌≢◌, inl, inr, Bool, true, false, List, Option, none, some,
  arith, length, length-set, set, ltb, if◌then◌else◌, ◌==◌, Option-cases, Bool-cases,
}
use yak_kernel.Status.{success, oom}
use yak_kernel.Fd.Machine.{
  File, Fd, State, ◌>>=◌, alloc, alloc-cases, slot, update, file_deref, empty_fd,
}
use yak_kernel.Fd.Alloc.{fd_grow, put_fd, fd_close, fd_limit, fd_cap, grown}
use yak_kernel.Fd.After.{After}
use yak_kernel.Fd.Deref.{count_of, file_deref-cases}
use yak_kernel.Fd.Refs.{
  refs, refs_slot, refs-set, refs-set_same, blank-set, refs-grown, refs-le-length, lt_of_used,
  length-grown,
}

-- `ext p` descriptors of other tables share the file at `p`.
pub record IsCounted (ext : ℕ → ℕ) (s : State) : Type 0 where
  pub counted : (p : ℕ) → count_of (s.files p) ≡ ext p + refs p s.slots
  pub live : (p : ℕ) (f : File) → s.files p ≡ some f → 0 < f.refcnt
  pub fresh : (p : ℕ) → s.next ≤ p → s.files p ≡ none
  pub small : length s.slots ≤ fd_limit
  pub room : (p : ℕ) → ext p ≤ 2 ^ 63

-- The descriptor that an allocator hands out refers to no file yet.
abbrev pub Blank : Option ℕ → State → Type 0
Blank none t = Unit {0}
Blank (some fd) t = (p : ℕ) → refs_slot p (slot t.slots fd) ≡ 0

module _ (ext : ℕ → ℕ) where
  -- A slot changed to one with the same references.
  pub set-slot-IsCounted :
      (s : State) (i : ℕ) (d : Option Fd) (rest : List Bool)
      → ((p : ℕ) → refs_slot p d ≡ refs_slot p (slot s.slots i))
      → IsCounted ext s
      → IsCounted ext (record s { slots = set s.slots i d; allocs = rest })
  set-slot-IsCounted s i d rest same v = record {
    counted = λ p. omega (arith, v.counted p, refs-set_same p s.slots i d (same p));
    live = v.live;
    fresh = v.fresh;
    small = omega (arith, v.small, length-set s.slots i d);
    room = v.room;
  }

  pub allocs-IsCounted :
      (s : State) (rest : List Bool) → IsCounted ext s → IsCounted ext (record s { allocs = rest })
  allocs-IsCounted s rest v = record {
    counted = v.counted;
    live = v.live;
    fresh = v.fresh;
    small = v.small;
    room = v.room;
  }

  -- The slot `fd` and the file at `p` changed together.
  pub relink-IsCounted :
      (s : State) (p fd next : ℕ) (g : Option File) (d : Option Fd) (trace : List ℕ)
      → fd < length s.slots
      → ((q : ℕ) → q ≢ p → refs_slot q d ≡ refs_slot q (slot s.slots fd))
      → count_of g + refs_slot p (slot s.slots fd) ≡ count_of (s.files p) + refs_slot p d
      → ((f : File) → g ≡ some f → 0 < f.refcnt)
      → s.next ≤ next
      → p < next
      → IsCounted ext s
      → IsCounted ext (record s {
        files = update s.files p g;
        slots = set s.slots fd d;
        next = next;
        vnode_derefs = trace;
      })
  relink-IsCounted s p fd next g d trace inside other here alive later known v = record {
    counted = λ q. elim (Bool-cases (p == q)) [
      | inl e ↦
          let e' : p ≡ q = ground arith in
          rw (e, ← e') (omega (arith, here, v.counted p, refs-set p s.slots fd d inside))
      | inr e ↦
          rw e (omega (arith, v.counted q, refs-set q s.slots fd d inside, other q (ground arith)))
    ];
    live = λ q f e. ground (arith, alive f, v.live q f);
    fresh = λ q le. ground (arith, v.fresh q);
    small = omega (arith, v.small, length-set s.slots fd d);
    room = v.room;
  }

  pub put_fd-IsCounted :
      (s : State) (i : ℕ)
      → slot s.slots i ≡ none
      → IsCounted ext s
      → After (λ b t. IsCounted ext t × Blank (some i) t) (put_fd i s)
  unfolding put_fd
  put_fd-IsCounted s i free v =
      let (found, rest, e) = alloc-cases s in rw (e, put_fd, ◌>>=◌, After) (by_outcome found rest)
    where
      by_outcome :
          (found : Bool) (rest : List Bool)
          → IsCounted ext (record s {
            slots = set s.slots i (if found then some empty_fd else none);
            allocs = rest;
          })
            × ((p : ℕ)
                → refs_slot p (slot (set s.slots i (if found then some empty_fd else none)) i) ≡ 0)
      by_outcome true rest = (
        set-slot-IsCounted s i (some empty_fd) rest (λ p. rw free) v,
        λ p. blank-set p s.slots i (some empty_fd) refl,
      )
      by_outcome false rest =
          (set-slot-IsCounted s i none rest (λ p. rw free) v, λ p. blank-set p s.slots i none refl)

  grow-IsCounted :
      (s : State) (n : ℕ) (rest : List Bool)
      → length s.slots ≤ n
      → n ≤ fd_limit
      → IsCounted ext s
      → IsCounted ext (record s { slots = grown s.slots n; allocs = rest })
  grow-IsCounted s n rest le small v = record {
    counted = λ p. omega (arith, v.counted p, refs-grown p s.slots n le);
    live = v.live;
    fresh = v.fresh;
    small = omega (arith, length-grown s.slots n);
    room = v.room;
  }

  pub fd_grow-IsCounted :
      (s : State) (n : ℕ) → IsCounted ext s → After (λ rv t. IsCounted ext t) (fd_grow n s)
  unfolding fd_grow
  fd_grow-IsCounted s n v = elim (Bool-cases (ltb n (fd_cap s))) [
    | inl e ↦ rw e v
    | inr e ↦ elim (Bool-cases (ltb fd_limit n)) [
      | inl e' ↦ rw (e, e') v
      | inr e' ↦ rw (e, e') (after_alloc (ground arith) (ground arith) (alloc-cases s))
    ]
  ]
    where
      after_alloc :
          length s.slots ≤ n
          → n ≤ fd_limit
          → ((b : Bool) × (rest : List Bool) × (alloc s ≡ some (b, record s { allocs = rest })))
          → After
              (λ rv t. IsCounted ext t)
              (elim (alloc s) [
                | none ↦ none
                | some (found, t) ↦
                    some
                      (if found then (success, record t { slots = grown t.slots n }) else (oom, t))
              ])
      after_alloc le small (true, rest, e) = rw (e, After) (grow-IsCounted s n rest le small v)
      after_alloc le small (false, rest, e) = rw (e, After) (allocs-IsCounted s rest v)

  -- The slot `fd` emptied, and the last reference or one of several given back.
  unlink-IsCounted :
      (s : State) (fd p : ℕ) (f : File) (desc : Fd) (g : Option File) (trace : List ℕ)
      → slot s.slots fd ≡ some desc
      → desc.file ≡ some p
      → s.files p ≡ some f
      → count_of g + 1 ≡ f.refcnt
      → ((f' : File) → g ≡ some f' → 0 < f'.refcnt)
      → IsCounted ext s
      → IsCounted ext (record s {
        files = update s.files p g;
        slots = set s.slots fd none;
        vnode_derefs = trace;
      })
  unlink-IsCounted s fd p f desc g trace used at held fewer alive v =
      relink-IsCounted s p fd s.next g none trace (lt_of_used s.slots fd used)
        (λ q ne. ground arith) (ground arith) alive (omega arith) known v
    where
      known : p < s.next
      known = elim (Bool-cases (ltb p s.next)) [
        | inl e ↦ ground arith
        | inr e ↦ absurd (ground (arith, v.fresh p))
      ]

  -- Where `fd_close` returns, it keeps exact reference counts exact.
  pub fd_close-IsCounted :
      (s : State) (fd : ℕ) → IsCounted ext s → After (λ u t. IsCounted ext t) (fd_close fd s)
  unfolding fd_close
  fd_close-IsCounted s fd v = elim (Option-cases (slot s.slots fd)) [
    | inl e ↦ rw (e, After) tt
    | inr (desc, e) ↦ elim (Option-cases desc.file) [
      | inl e' ↦
          rw (e, e', After) (set-slot-IsCounted s fd none s.allocs (λ p. rw (e, refs_slot, e')) v)
      | inr (p, e') ↦ elim (Option-cases (s.files p)) [
        | inl e'' ↦ rw (e, e', file_deref, e'', After) tt
        | inr (f, e'') ↦ elim (file_deref-cases s p f e'' (v.live p f e'') (small p f e'')) [
          | inl (stop, one, bare) ↦ rw (e, e', stop, After) tt
          | inr (g, trace, step, fewer, alive) ↦
              rw (e, e', step, After)
                (unlink-IsCounted s fd p f desc g trace e e' e'' fewer alive v)
        ]
      ]
    ]
  ]
    where
      small : (p : ℕ) (f : File) → s.files p ≡ some f → f.refcnt < 2 ^ 64
      small p f e = ground (arith, v.counted p, v.room p, refs-le-length p s.slots)
