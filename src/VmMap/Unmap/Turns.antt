-- ===== src/VmMap/Unmap/Turns.antt =====
-- kernel/vm/map.c: one turn of the loop of `vm_unmap`, by where the entry lies.
use yak_kernel.Prelude.{
  ℕ, ◌+◌, ◌-◌, ◌≤◌, ◌≡◌, refl, true, false, ◌&&◌, ◌||◌, ◌==◌, List, ◌∷◌, arith, inl, inr, ltb→lt,
  Bool-cases, some, ltb, leb,
}
use yak_kernel.VmMap.{
  Entry, Env, is_obj, piece, unmap_loop, drop_entry, deref_entry, max_addr, min_addr,
}
use yak_kernel.VmMap.View.{within, IsFrom, IsPlain, AllPlain, view-below, weaken-IsFrom}
use yak_kernel.VmMap.Carve.{at_address-piece, carve_entry-both, carve_entry-end}
use yak_kernel.VmMap.Unmap.{HasTwo, Unmaps}

drop_entry-plain : (e : Entry) (v : Env) → IsPlain e → drop_entry e v ≡ some (deref_entry e v)
drop_entry-plain e v (cow, other, obj) = elim (Bool-cases (is_obj e.type)) [
  | inl is ↦ rw (is, obj is) refl
  | inr is_not ↦ rw is_not refl
]

pub deref_entry-HasTwo : (e : Entry) (v : Env) → HasTwo v → HasTwo (deref_entry e v)
deref_entry-HasTwo e v (rest, h) = elim (Bool-cases (is_obj e.type)) [
  | inl is ↦ rw is (rest, h)
  | inr is_not ↦ rw is_not (rest, h)
]

module _ (lo start stop : ℕ) (le : start ≤ stop) (e : Entry) (es : List Entry) (v : Env)
    (f : IsFrom lo (e ∷ es)) (p : AllPlain (e ∷ es)) where
  -- Everything from here on lies behind the range.
  pub past : leb stop e.base ≡ true → Unmaps lo start stop (e ∷ es) v
  unfolding unmap_loop
  past k =
      let b : ltb e.base stop ≡ false = ground arith in
      (
        e ∷ es,
        v,
        rw (unmap_loop, b) refl,
        record {
          in_order = f;
          says = λ a. elim (Bool-cases (within start stop a)) [
            | inl is ↦
                rw is (view-below (e ∷ es) e.base a (omega arith, f.1, f.2) (ground (arith, is, k)))
            | inr is_not ↦ rw is_not refl
          ];
        },
      )

  -- The entry lies before the range.
  pub skip :
      ltb e.base stop ≡ true
      → leb e.end start ≡ true
      → Unmaps e.end start stop es v
      → Unmaps lo start stop (e ∷ es) v
  unfolding unmap_loop
  skip b k (es', v', r, w) = (
    e ∷ es',
    v',
    rw (unmap_loop, b, k, r) refl,
    record { in_order = (f.0, f.1, w.in_order); says = λ a. ground (arith, w.says a) },
  )

  -- The whole entry goes.
  pub whole :
      ltb e.base stop ≡ true
      → leb e.end start ≡ false
      → leb start e.base ≡ true
      → leb e.end stop ≡ true
      → Unmaps e.end start stop es (deref_entry e v)
      → Unmaps lo start stop (e ∷ es) v
  unfolding unmap_loop
  whole b k s t (es', v', r, w) =
      let k2 : (leb e.end start || leb stop e.base) ≡ false = ground arith in
      let same : (e.base == max_addr e.base start && e.end == min_addr e.end stop) ≡ true =
        ground arith in
      (
        es',
        v',
        rw (unmap_loop, b, k2, same, drop_entry-plain e v p.0) r,
        record {
          in_order = weaken-IsFrom es' e.end lo (omega (arith, f.0, f.1)) w.in_order;
          says = λ a. ground (arith, w.says a);
        },
      )

  -- The range ends inside the entry.
  pub ends :
      leb start e.base ≡ true
      → ltb e.base stop ≡ true
      → ltb stop e.end ≡ true
      → HasTwo v
      → ((v' : Env) → Unmaps e.end start stop es (deref_entry e v'))
      → Unmaps lo start stop (e ∷ es) v
  unfolding unmap_loop
  ends s b t (more, enough) go =
      let (v', c) =
        carve_entry-end e e.base stop v (true ∷ more) enough refl (ground (arith, b))
          (ground (arith, t)) in
      let (es', v'', r, w) = go v' in
      let k : (leb e.end start || leb stop e.base) ≡ false = ground arith in
      let differs : (e.base == max_addr e.base start && e.end == min_addr e.end stop) ≡ false =
        ground arith in
      let lower : max_addr e.base start ≡ e.base = ground arith in
      let upper : min_addr e.end stop ≡ stop = ground arith in
      (
        piece e (e.offset + (stop - e.base)) stop e.end ∷ es',
        v'',
        rw (unmap_loop, b, k, differs, lower, upper, c, drop_entry-plain e v' p.0, r) refl,
        record {
          in_order = (omega (arith, f.0, ltb→lt e.base stop b), ground (arith, t), w.in_order);
          says = λ a. elim (Bool-cases (within stop e.end a)) [
            | inl is ↦
                let out : within start stop a ≡ false = ground (arith, is) in
                let is_e : within e.base e.end a ≡ true = ground (arith, is, b) in
                rw
                  (
                    is,
                    out,
                    is_e,
                    at_address-piece e (e.offset + (stop - e.base)) stop e.end a p.0
                        (ground (arith, is, b)),
                  )
                  refl
            | inr is_not ↦ rw is_not (ground (arith, w.says a, is_not, s, b, t))
          ];
        },
      )

  -- The range lies inside the entry.
  pub splits :
      ltb e.base start ≡ true
      → ltb stop e.end ≡ true
      → HasTwo v
      → ((v' : Env) → Unmaps e.end start stop es (deref_entry e v'))
      → Unmaps lo start stop (e ∷ es) v
  unfolding unmap_loop
  splits s t (more, enough) go =
      let (v', c) =
        carve_entry-both e start stop v more enough (ltb→lt e.base start s) le
          (ltb→lt stop e.end t) in
      let (es', v'', r, w) = go v' in
      let b : ltb e.base stop ≡ true = ground (arith, s) in
      let k : (leb e.end start || leb stop e.base) ≡ false = ground (arith, s, t) in
      let differs : (e.base == max_addr e.base start && e.end == min_addr e.end stop) ≡ false =
        ground (arith, s) in
      let lower : max_addr e.base start ≡ start = ground (arith, s) in
      let upper : min_addr e.end stop ≡ stop = ground (arith, t) in
      (
        piece e e.offset e.base start
            ∷ piece (record e { base = start; offset = e.offset + (start - e.base) })
                (e.offset + (start - e.base) + (stop - start)) stop e.end
            ∷ es',
        v'',
        rw (unmap_loop, b, k, differs, lower, upper, c, drop_entry-plain e v' p.0, r) refl,
        record {
          in_order = (f.0, ltb→lt e.base start s, (le, ltb→lt stop e.end t, w.in_order));
          says = λ a. elim (Bool-cases (within e.base start a)) [
            | inl is ↦
                let out : within start stop a ≡ false = ground (arith, is) in
                let is_e : within e.base e.end a ≡ true = ground (arith, is, t) in
                rw (is, out, is_e, at_address-piece e e.offset e.base start a p.0 refl) refl
            | inr is_not ↦ elim (Bool-cases (within stop e.end a)) [
              | inl is ↦
                  let out : within start stop a ≡ false = ground (arith, is) in
                  let is_e : within e.base e.end a ≡ true = ground (arith, is, s) in
                  rw
                    (
                      is_not,
                      is,
                      out,
                      is_e,
                      at_address-piece e (e.offset + (start - e.base) + (stop - start)) stop e.end a
                          p.0 (ground (arith, is, s)),
                    )
                    refl
              | inr nor ↦ rw (is_not, nor) (ground (arith, w.says a, is_not, nor, s, t))
            ]
          ];
        },
      )
