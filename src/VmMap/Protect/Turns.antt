-- ===== src/VmMap/Protect/Turns.antt =====
-- kernel/vm/map.c: one turn of the loop of `vm_protect`, by where the entry lies.
use yak_kernel.Prelude.{
  ℕ, ◌+◌, ◌-◌, ◌≤◌, ◌≡◌, refl, sym, ap, ◌∙◌, Bool, true, false, ◌&&◌, ◌||◌, ◌==◌, List, ◌∷◌, arith,
  inl, inr, ltb→lt, if-false, Bool-cases, ltb, leb,
}
use yak_kernel.VmMap.{Prot, Entry, Env, piece, max_addr, min_addr}
use yak_kernel.VmMap.View.{within, IsFrom, AllPlain, view-below}
use yak_kernel.VmMap.Carve.{at_address-piece, carve_entry-both, carve_entry-end}
use yak_kernel.VmMap.Unmap.{HasTwo}
use yak_kernel.VmMap.Protect.{protected, allows, protect_loop, on_some, Protects}

module _ (prot : Prot) (setmax : Bool) (lo start stop : ℕ) (le : start ≤ stop) (e : Entry)
    (es : List Entry) (v : Env) (f : IsFrom lo (e ∷ es)) (p : AllPlain (e ∷ es)) where
  pub past : leb stop e.base ≡ true → Protects prot setmax lo start stop (e ∷ es) v
  unfolding protect_loop
  past k =
      let b : ltb e.base stop ≡ false = ground arith in
      (
        e ∷ es,
        v,
        rw (protect_loop, b) refl,
        record {
          in_order = f;
          says = λ a. elim (Bool-cases (within start stop a)) [
            | inl is ↦
                let low =
                  view-below (e ∷ es) e.base a (omega arith, f.1, f.2) (ground (arith, is, k)) in
                rw is (low ∙ sym (ap (on_some (protected prot setmax)) low))
            | inr is_not ↦ rw is_not refl
          ];
        },
      )

  pub skip :
      ltb e.base stop ≡ true
      → leb e.end start ≡ true
      → Protects prot setmax e.end start stop es v
      → Protects prot setmax lo start stop (e ∷ es) v
  unfolding protect_loop
  skip b k (es', v', r, w) = (
    e ∷ es',
    v',
    rw (protect_loop, b, k, r) refl,
    record {
      in_order = (f.0, f.1, w.in_order);
      says = λ a. elim (Bool-cases (within e.base e.end a)) [
        | inl is ↦
            let out : within start stop a ≡ false = ground (arith, is, k) in rw (is, out) refl
        | inr is_not ↦ rw is_not (w.says a)
      ];
    },
  )

  pub whole :
      ltb e.base stop ≡ true
      → leb e.end start ≡ false
      → leb start e.base ≡ true
      → leb e.end stop ≡ true
      → allows prot setmax e ≡ true
      → Protects prot setmax e.end start stop es v
      → Protects prot setmax lo start stop (e ∷ es) v
  unfolding protect_loop
  whole b k s t ok (es', v', r, w) =
      let k2 : (leb e.end start || leb stop e.base) ≡ false = ground arith in
      let same : (e.base == max_addr e.base start && e.end == min_addr e.end stop) ≡ true =
        ground arith in
      (
        protected prot setmax e ∷ es',
        v',
        rw (protect_loop, b, k2, same, ok, r) refl,
        record {
          in_order = (f.0, f.1, w.in_order);
          says = λ a. elim (Bool-cases (within e.base e.end a)) [
            | inl is ↦
                let inside : within start stop a ≡ true = ground (arith, is, s, t) in
                rw (is, inside) refl
            | inr is_not ↦ rw is_not (w.says a)
          ];
        },
      )

  -- The range ends inside the entry.
  pub ends :
      leb start e.base ≡ true
      → ltb e.base stop ≡ true
      → ltb stop e.end ≡ true
      → allows prot setmax e ≡ true
      → HasTwo v
      → ((v' : Env) → Protects prot setmax e.end start stop es v')
      → Protects prot setmax lo start stop (e ∷ es) v
  unfolding protect_loop
  ends s b t ok (more, enough) go =
      let (v', c) =
        carve_entry-end e e.base stop v (true ∷ more) enough refl (ground (arith, b))
          (ground (arith, t)) in
      let (es', v'', r, w) = go v' in
      let k : (leb e.end start || leb stop e.base) ≡ false = ground arith in
      let differs : (e.base == max_addr e.base start && e.end == min_addr e.end stop) ≡ false =
        ground arith in
      let lower : max_addr e.base start ≡ e.base = ground arith in
      let upper : min_addr e.end stop ≡ stop = ground arith in
      (
        protected prot setmax (record e { end = stop })
            ∷ piece e (e.offset + (stop - e.base)) stop e.end
            ∷ es',
        v'',
        rw (protect_loop, b, k, differs, lower, upper, c, ok, r) refl,
        record {
          in_order = (f.0, ltb→lt e.base stop b, (omega arith, ltb→lt stop e.end t, w.in_order));
          says = λ a. elim (Bool-cases (within e.base stop a)) [
            | inl is ↦
                let inside : within start stop a ≡ true = ground (arith, is, s) in
                let is_e : within e.base e.end a ≡ true = ground (arith, is, t) in
                rw (is, inside, is_e) refl
            | inr is_not ↦ elim (Bool-cases (within stop e.end a)) [
              | inl is ↦
                  let out : within start stop a ≡ false = ground (arith, is) in
                  let is_e : within e.base e.end a ≡ true = ground (arith, is, b) in
                  rw
                    (
                      is_not,
                      is,
                      out,
                      is_e,
                      at_address-piece e (e.offset + (stop - e.base)) stop e.end a p.0
                          (ground (arith, is, b)),
                    )
                    refl
              | inr nor ↦
                  let out : within e.base e.end a ≡ false = ground (arith, is_not, nor) in
                  rw (is_not, nor, out) (w.says a)
            ]
          ];
        },
      )

  -- The range lies inside the entry.
  pub splits :
      ltb e.base start ≡ true
      → ltb start stop ≡ true
      → ltb stop e.end ≡ true
      → allows prot setmax e ≡ true
      → HasTwo v
      → ((v' : Env) → Protects prot setmax e.end start stop es v')
      → Protects prot setmax lo start stop (e ∷ es) v
  unfolding protect_loop
  splits s b0 t ok (more, enough) go =
      let (v', c) =
        carve_entry-both e start stop v more enough (ltb→lt e.base start s) le
          (ltb→lt stop e.end t) in
      let (es', v'', r, w) = go v' in
      let b : ltb e.base stop ≡ true = ground (arith, s) in
      let k : (leb e.end start || leb stop e.base) ≡ false = ground (arith, s, t) in
      let differs : (e.base == max_addr e.base start && e.end == min_addr e.end stop) ≡ false =
        ground (arith, s) in
      let lower : max_addr e.base start ≡ start = ground (arith, s) in
      let upper : min_addr e.end stop ≡ stop = ground (arith, t) in
      (
        piece e e.offset e.base start
            ∷ protected prot setmax
                (record e { base = start; offset = e.offset + (start - e.base); end = stop })
            ∷ piece (record e { base = start; offset = e.offset + (start - e.base) })
                (e.offset + (start - e.base) + (stop - start)) stop e.end
            ∷ es',
        v'',
        rw (protect_loop, b, k, differs, lower, upper, c, ok, r) refl,
        record {
          in_order = (
            f.0,
            ltb→lt e.base start s,
            (omega arith, ltb→lt start stop b0, (omega arith, ltb→lt stop e.end t, w.in_order)),
          );
          says = λ a. elim (Bool-cases (within e.base start a)) [
            | inl is ↦
                let out : within start stop a ≡ false = ground (arith, is) in
                let is_e : within e.base e.end a ≡ true = ground (arith, is, t) in
                rw (is, out, is_e, at_address-piece e e.offset e.base start a p.0 refl) refl
            | inr is_not ↦ elim (Bool-cases (within start stop a)) [
              | inl is ↦
                  let is_e : within e.base e.end a ≡ true = ground (arith, is, s, t) in
                  let shift : e.offset + (start - e.base) + (a - start) ≡ e.offset + (a - e.base) =
                    ground (arith, is, s) in
                  rw (is_not, is, is_e, shift) refl
              | inr nor ↦ elim (Bool-cases (within stop e.end a)) [
                | inl is ↦
                    let is_e : within e.base e.end a ≡ true = ground (arith, is, s) in
                    rw
                      (
                        is_not,
                        nor,
                        is,
                        is_e,
                        at_address-piece e (e.offset + (start - e.base) + (stop - start)) stop e.end
                            a p.0 (ground (arith, is, s)),
                      )
                      refl
                | inr last ↦
                    let out : within e.base e.end a ≡ false = ground (arith, is_not, nor, last) in
                    rw (is_not, nor, last, out) (w.says a ∙ if-false _ nor)
              ]
            ]
          ];
        },
      )
