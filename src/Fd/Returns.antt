-- ===== src/Fd/Returns.antt =====
-- Closing descriptors (kernel/core/file.c, kernel/core/process.c) runs to its end, where every open file
-- has its vnode.
use yak_kernel.Prelude.{
  ℕ, zero, suc, ◌≡◌, refl, ◌≢◌, inl, inr, ap, subst, none, some, arith, set, ◌==◌, Option-cases,
  Bool-cases,
}
use yak_kernel.Fd.Machine.{File, Fd, State, ◌>>=◌, slot, update, file_deref}
use yak_kernel.Fd.Alloc.{fd_close, fd_close_old, fd_cap}
use yak_kernel.Fd.Duplicate.{close_from, close_all}
use yak_kernel.Fd.After.{After}
use yak_kernel.Fd.Deref.{count_of, file_deref-cases}
use yak_kernel.Fd.Refs.{refs_slot, slot-le-refs, refs-le-length}
use yak_kernel.Fd.Counted.{IsCounted, fd_close-IsCounted}
use yak_kernel.Fd.Fork.{close_all-IsCounted}

abbrev pub HasVnodes : State → Type 0
HasVnodes s = (p : ℕ) (f : File) → s.files p ≡ some f → f.vnode ≢ none

file_deref-HasVnodes :
    (s : State) (p : ℕ) → HasVnodes s → After (λ u t. HasVnodes t) (file_deref p s)
unfolding file_deref
file_deref-HasVnodes s p h = elim (Option-cases (s.files p)) [
  | inl e ↦ rw (e, After) tt
  | inr (f, e) ↦ elim (Bool-cases (f.refcnt == 1)) [
    | inl one ↦ elim (Option-cases f.vnode) [
      | inl e' ↦ rw (e, After, one, e') tt
      | inr (vn, e') ↦ rw (e, After, one, e') (λ q g at. ground (arith, h q g))
    ]
    | inr more ↦ rw (e, After, more) (λ q g at. ground (arith, h q g, h p f e))
  ]
]

-- With exact counts and a vnode for each file, closing a used descriptor runs to its end, and both hold
-- afterwards.
pub fd_close-returns :
    (ext : ℕ → ℕ) (s : State) (fd : ℕ) (desc : Fd)
    → slot s.slots fd ≡ some desc
    → HasVnodes s
    → IsCounted ext s
    → (t : State) × (fd_close fd s ≡ some (tt, t)) × HasVnodes t × IsCounted ext t
unfolding fd_close
fd_close-returns ext s fd desc used h v = elim (Option-cases desc.file) [
  | inl e ↦ finish (record s { slots = set s.slots fd none }) (rw (fd_close, used, ◌>>=◌, e)) h
  | inr (p, e) ↦ elim (Option-cases (s.files p)) [
    | inl gone ↦
        let one : refs_slot p (slot s.slots fd) ≡ 1 = rw (used, refs_slot, e) (ground arith) in
        absurd (omega (arith, v.counted p, ap count_of gone, slot-le-refs p s.slots fd, one))
    | inr (f, held) ↦
        elim (file_deref-cases s p f held (v.live p f held) (
          ground
            (arith, v.counted p, v.room p, v.small, refs-le-length p s.slots, ap count_of held))) [
              | inl (stop, last, bare) ↦ absurd (h p f held bare)
              | inr (g, trace, runs, fewer, alive) ↦
                  finish
                    (record s {
                      files = update s.files p g;
                      slots = set s.slots fd none;
                      vnode_derefs = trace;
                    })
                    (rw (fd_close, used, ◌>>=◌, e, runs))
                    (rw (runs, After) at (file_deref-HasVnodes s p h))
            ]
  ]
]
  where
    finish :
        (t : State)
        → fd_close fd s ≡ some (tt, t)
        → HasVnodes t
        → (t : State) × (fd_close fd s ≡ some (tt, t)) × HasVnodes t × IsCounted ext t
    finish t e h' = (t, e, h', rw (e, After) at (fd_close-IsCounted ext s fd v))

close_from-returns :
    (ext : ℕ → ℕ) (n i : ℕ) (s : State)
    → HasVnodes s
    → IsCounted ext s
    → (t : State) × (close_from i n s ≡ some (tt, t))
unfolding close_from fd_close_old
close_from-returns ext zero i s h v = (s, refl)
close_from-returns ext (suc n) i s h v = elim (Option-cases (slot s.slots i)) [
  | inl free ↦
      let (t, e) = close_from-returns ext n (suc i) s h v in
      (t, rw (close_from, fd_close_old, free) e)
  | inr (desc, used) ↦
      let (t, e, h', v') = fd_close-returns ext s i desc used h v in
      let (t', e') = close_from-returns ext n (suc i) t h' v' in
      (t', rw (close_from, fd_close_old, used, e) e')
]

-- With exact counts and a vnode for each file, the loop of `process_destroy` ends; then every open file
-- counts just the references of other tables, and a file that no other table shares is gone.
pub close_all-returns :
    (ext : ℕ → ℕ) (s : State)
    → HasVnodes s
    → IsCounted ext s
    → (t : State) × (close_all s ≡ some (tt, t))
      × ((p : ℕ) → (count_of (t.files p) ≡ ext p) × (ext p ≡ 0 → t.files p ≡ none))
unfolding close_all
close_all-returns ext s h v =
    let (t, e) = close_from-returns ext (fd_cap s) 0 s h v in
    (t, e, subst (After _) e (close_all-IsCounted ext s v))
