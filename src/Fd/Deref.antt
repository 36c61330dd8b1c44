-- ===== src/Fd/Deref.antt =====
-- `file_deref` and `fd_close` of kernel/core/file.c, case by case.
use yak_kernel.Prelude.{
  ℕ, ◌+◌, ◌^◌, ◌<◌, ◌≡◌, refl, inl, inr, List, ◌∷◌, Option, none, some, arith, set, ◌==◌,
  Option-cases, Bool-cases, sub_size_small, sub_size, ◌⊎◌,
}
use yak_kernel.Fd.Machine.{File, State, slot, update, file_deref, file_cleanup}
use yak_kernel.Fd.Alloc.{fd_close}
use yak_kernel.Fd.After.{After, After-bind}

abbrev pub count_of : Option File → ℕ
count_of none = 0
count_of (some f) = f.refcnt

file_deref-slots : (s : State) (p : ℕ) → After (λ u t. t.slots ≡ s.slots) (file_deref p s)
unfolding file_deref
file_deref-slots s p = elim (Option-cases (s.files p)) [
  | inl e ↦ rw (e, After) tt
  | inr (f, e) ↦ elim (Bool-cases (f.refcnt == 1)) [
    | inl one ↦ elim (Option-cases f.vnode) [
      | inl e' ↦ rw (e, After, one, e') tt
      | inr (vn, e') ↦ rw (e, After, one, e') refl
    ]
    | inr more ↦ rw (e, After, more) refl
  ]
]

-- `fd_close` empties its slot, and no other.
pub fd_close-slots :
    (s : State) (fd : ℕ) → After (λ u t. t.slots ≡ set s.slots fd none) (fd_close fd s)
unfolding fd_close
fd_close-slots s fd = elim (Option-cases (slot s.slots fd)) [
  | inl e ↦ rw (e, After) tt
  | inr (desc, e) ↦ elim (Option-cases desc.file) [
    | inl e' ↦ rw (e, e', After) refl
    | inr (p, e') ↦
        rw (e, e', After)
          (After-bind (λ u t. t.slots ≡ s.slots) (λ u t. t.slots ≡ set s.slots fd none)
            (file_deref p s) _ (file_deref-slots s p) (λ u t h. rw h))
  ]
]

-- `file_deref` on a file that is there takes one reference away, the file with the last one; it faults
-- only on a last reference to a file without a vnode.
pub file_deref-cases :
    (s : State) (p : ℕ) (f : File)
    → s.files p ≡ some f
    → 0 < f.refcnt
    → f.refcnt < 2 ^ 64
    → ((file_deref p s ≡ none) × (f.refcnt ≡ 1) × (f.vnode ≡ none))
      ⊎ ((g : Option File) × (trace : List ℕ) × (file_deref p s
            ≡ some (tt, record s { files = update s.files p g; vnode_derefs = trace }))
          × (count_of g + 1 ≡ f.refcnt)
          × ((f' : File) → g ≡ some f' → 0 < f'.refcnt))
unfolding file_deref
file_deref-cases s p f held pos_ small = elim (Bool-cases (f.refcnt == 1)) [
  | inl one ↦ elim (Option-cases f.vnode) [
    | inl e ↦ inl (rw (file_deref, held, one, file_cleanup, e), ground arith, e)
    | inr (vn, e) ↦ inr (
      none,
      vn ∷ s.vnode_derefs,
      rw (file_deref, held, one, file_cleanup, e),
      ground arith,
      λ f' h. absurd (cc),
    )
  ]
  | inr more ↦ inr (
    some (record f { refcnt = sub_size f.refcnt 1 }),
    s.vnode_derefs,
    rw (file_deref, held, more),
    ground (arith, sub_size_small f.refcnt 1),
    λ f' h. ground (arith, sub_size_small f.refcnt 1),
  )
]
