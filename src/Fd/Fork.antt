-- ===== src/Fd/Fork.antt =====
-- `fd_clone` of kernel/core/file.c, and the loop of `process_destroy` (kernel/core/process.c) that
-- closes the descriptors: what they do to the reference counts.
use yak_kernel.Prelude.{
  ℕ, zero, suc, ◌+◌, ◌^◌, ◌≤◌, ◌<◌, ◌≡◌, refl, ◌∙◌, sym, inl, inr, Bool, true, false, List, [], ◌∷◌,
  Option, none, some, arith, length, length-set, set, ◌==◌, Bool-cases, Option-cases, add_size,
  add_size_small, get_or-set-none, set-none_self, ap, ==_iff, get_or-set_ne,
}
use yak_kernel.Fd.Machine.{File, State, Fd, alloc-cases, slot, update, file_ref}
use yak_kernel.Fd.Alloc.{fd_close_old, fd_cap}
use yak_kernel.Fd.Duplicate.{clone_slots, clone_some, clone_table, fd_clone, close_from, close_all}
use yak_kernel.Fd.Refs.{refs, refs_slot, refs-le-length}
use yak_kernel.Fd.After.{After, After-bind, After-and, After-map}
use yak_kernel.Fd.Deref.{count_of, fd_close-slots}
use yak_kernel.Fd.Counted.{IsCounted, allocs-IsCounted}
use yak_kernel.Fd.Dup.{close_from-IsCounted, known}

IsCounted-ext :
    {ext ext' : ℕ → ℕ} {s : State} → ((p : ℕ) → ext p ≡ ext' p) → IsCounted ext s → IsCounted ext' s
IsCounted-ext same v = record {
  counted = λ p. omega (arith, v.counted p, same p);
  live = v.live;
  fresh = v.fresh;
  small = v.small;
  room = λ p. omega (arith, v.room p, same p);
}

-- One more reference held elsewhere.
file_ref-IsCounted :
    (ext : ℕ → ℕ) (s : State) (d : Fd)
    → ((p : ℕ) → ext p + 1 ≤ 2 ^ 63)
    → IsCounted ext s
    → After
        (λ u t. IsCounted (λ p. ext p + refs_slot p (some d)) t × (t.slots ≡ s.slots))
        (file_ref d.file s)
unfolding file_ref
file_ref-IsCounted ext s d room v = elim (Option-cases d.file) [
  | inl e ↦ rw (e, After) tt
  | inr (p, e) ↦ elim (Option-cases (s.files p)) [
    | inl e' ↦ rw (e, After, e') tt
    | inr (f, e') ↦ rw (e, After, e') (held p f e e', refl)
  ]
]
  where
    held :
        (p : ℕ) (f : File)
        → d.file ≡ some p
        → s.files p ≡ some f
        → IsCounted
            (λ q. ext q + refs_slot q (some d))
            (record s {
              files = update s.files p (some (record f { refcnt = add_size f.refcnt 1 }));
            })
    held p f e e' =
        let bound : add_size f.refcnt 1 ≡ f.refcnt + 1 = ground (
          arith,
          v.counted p,
          v.room p,
          v.small,
          refs-le-length p s.slots,
          add_size_small f.refcnt 1,
        ) in
        record {
          counted = λ q. ground (arith, v.counted q);
          live = λ q g h. ground (arith, v.live q g);
          fresh = λ q le. ground (arith, v.fresh q, known ext s p f e' v);
          small = v.small;
          room = λ q. ground (arith, room q);
        }

abbrev Cloned : (ℕ → ℕ) → List (Option Fd) → State → List (Option Fd) → State → Type 0
Cloned ext ds s new t = IsCounted (λ p. ext p + refs p new) t × (t.slots ≡ s.slots) × (new ≡ ds)

clone_slots-IsCounted :
    (ext : ℕ → ℕ) (ds : List (Option Fd)) (s : State)
    → ((p : ℕ) → ext p + length ds ≤ 2 ^ 63)
    → IsCounted ext s
    → After (Cloned ext ds s) (clone_slots ds s)
unfolding clone_slots
clone_slots-IsCounted ext [] s room v = (IsCounted-ext (λ p. omega arith) v, refl, refl)
clone_slots-IsCounted ext (none ∷ ds) s room v =
    After-bind (Cloned ext ds s) (Cloned ext (none ∷ ds) s) (clone_slots ds s) _
      (clone_slots-IsCounted ext ds s (λ p. omega (arith, room p)) v)
      (λ new t w. (IsCounted-ext (λ p. omega arith) w.0, w.1, rw w.2))
clone_slots-IsCounted ext (some d ∷ ds) s room v =
    let (found, rest, e) = alloc-cases s in
    rw (e, After)
      (after_alloc found rest (λ u.
        clone_slots-IsCounted (λ p. ext p + refs_slot p (some d)) ds u
          (λ p. ground (arith, room p))))
  where
    after_alloc :
        (found : Bool) (rest : List Bool)
        → ((u : State)
            → IsCounted (λ p. ext p + refs_slot p (some d)) u
            → After (Cloned (λ p. ext p + refs_slot p (some d)) ds u) (clone_slots ds u))
        → After
            (Cloned ext (some d ∷ ds) s)
            (clone_some d (clone_slots ds) (some (found, record s { allocs = rest })))
    after_alloc false rest next = tt
    after_alloc true rest next =
        After-bind (λ u t. IsCounted (λ p. ext p + refs_slot p (some d)) t × (t.slots ≡ s.slots))
          (Cloned ext (some d ∷ ds) s) (file_ref d.file (record s { allocs = rest })) _
          (file_ref-IsCounted ext (record s { allocs = rest }) d (λ p. omega (arith, room p))
            (allocs-IsCounted ext s rest v))
          (λ u t w.
            After-bind (Cloned (λ p. ext p + refs_slot p (some d)) ds t)
              (Cloned ext (some d ∷ ds) s) (clone_slots ds t) _ (next t w.0)
              (λ new t' w'. (IsCounted-ext (λ p. omega arith) w'.0, w'.1 ∙ w.1, rw w'.2)))

-- Where `fd_clone` returns (it panics without memory), with room in the counts, the new process has the
-- descriptors of the old one, which keeps them, and every file counts both.
pub fd_clone-IsCounted :
    (ext : ℕ → ℕ) (s : State)
    → ((p : ℕ) → ext p + length s.slots ≤ 2 ^ 63)
    → IsCounted ext s
    → After
        (λ new t. IsCounted (λ p. ext p + refs p new) t × (t.slots ≡ s.slots) × (new ≡ s.slots))
        (fd_clone s)
unfolding fd_clone
fd_clone-IsCounted ext s room v =
    let (found, rest, e) = alloc-cases s in rw (e, After) (after_alloc found rest)
  where
    after_alloc :
        (found : Bool) (rest : List Bool)
        → After (Cloned ext s.slots s) (clone_table (some (found, record s { allocs = rest })))
    after_alloc false rest = tt
    after_alloc true rest =
        clone_slots-IsCounted ext s.slots (record s { allocs = rest }) room
          (allocs-IsCounted ext s rest v)

fd_close_old-slots :
    (s : State) (i : ℕ) → After (λ u t. t.slots ≡ set s.slots i none) (fd_close_old i s)
unfolding fd_close_old
fd_close_old-slots s i = elim (Option-cases (slot s.slots i)) [
  | inl e ↦ rw (e, After) (sym (set-none_self s.slots i e))
  | inr (d, e) ↦ rw (e, After) (fd_close-slots s i)
]

-- The loop empties the slots from `i` on, `n` of them.
close_from-slots :
    (n i : ℕ) (s : State)
    → ((j : ℕ) → j < i → slot s.slots j ≡ none)
    → After
        (λ u t. ((j : ℕ) → j < i + n → slot t.slots j ≡ none) × (length t.slots ≡ length s.slots))
        (close_from i n s)
unfolding close_from
close_from-slots zero i s h = (λ j lt. h j (omega arith), refl)
close_from-slots (suc n) i s h =
    After-bind (λ u t. t.slots ≡ set s.slots i none)
      (λ u t. ((j : ℕ) → j < i + suc n → slot t.slots j ≡ none) × (length t.slots ≡ length s.slots))
      (fd_close_old i s) _ (fd_close_old-slots s i)
      λ u t e.
        After-map _ _ (close_from (suc i) n t)
          (λ u' t' w. (λ j lt. w.0 j (omega arith), w.1 ∙ ap length e ∙ length-set s.slots i none))
          (close_from-slots n (suc i) t (λ j lt. emptied t j e lt))
  where
    emptied : (t : State) (j : ℕ) → t.slots ≡ set s.slots i none → j < suc i → slot t.slots j ≡ none
    emptied t j e lt = elim (Bool-cases (j == i)) [
      | inl eq ↦ rw ((==_iff j i).0 eq, e) (get_or-set-none s.slots i)
      | inr ne ↦ rw e (get_or-set_ne s.slots i j none none (ground arith) ∙ h j (ground arith))
    ]

refs-empty :
    (p : ℕ) (ds : List (Option Fd)) → ((j : ℕ) → j < length ds → slot ds j ≡ none) → refs p ds ≡ 0
refs-empty p [] h = refl
refs-empty p (d ∷ ds) h =
    omega (
      arith,
      refs-empty p ds (λ j lt. h (suc j) (omega arith)),
      ap (refs_slot p) (h 0 (omega arith)),
    )

-- Where the loop of `process_destroy` ends, with exact counts before, each open file counts just the
-- references that other tables hold, and a file that no other table shares is gone.
pub close_all-IsCounted :
    (ext : ℕ → ℕ) (s : State)
    → IsCounted ext s
    → After
        (λ u t. (p : ℕ) → (count_of (t.files p) ≡ ext p) × (ext p ≡ 0 → t.files p ≡ none))
        (close_all s)
unfolding close_all
close_all-IsCounted ext s v =
    After-map _ _ (close_from 0 (fd_cap s) s)
      (λ u t w p. (
        omega (arith, w.0.counted p, refs-empty p t.slots (λ j lt. w.1.0 j (omega (arith, w.1.1)))),
        λ none_left.
            gone t p w.0 (refs-empty p t.slots (λ j lt. w.1.0 j (omega (arith, w.1.1)))) none_left,
      ))
      (After-and _ _ (close_from 0 (fd_cap s) s) (close_from-IsCounted ext (fd_cap s) 0 s v)
        (close_from-slots (fd_cap s) 0 s (λ j lt. absurd (omega arith))))
  where
    gone : (t : State) (p : ℕ) → IsCounted ext t → refs p t.slots ≡ 0 → ext p ≡ 0 → t.files p ≡ none
    gone t p w r e = elim (Option-cases (t.files p)) [
      | inl h ↦ h
      | inr (f, h) ↦ absurd (omega (arith, w.live p f h, w.counted p, ap count_of h))
    ]
