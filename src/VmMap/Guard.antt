-- ===== src/VmMap/Guard.antt =====
-- `vm_protect` (kernel/vm/map.c) from the search for its first entry on.
use yak_kernel.Prelude.{
  add_size_small, ◌^◌, ℕ, ◌+◌, ◌%◌, ◌≤◌, ◌<◌, ◌≡◌, refl, sym, ap, ◌∙◌, Bool, true, false, not, ◌||◌,
  ◌==◌, List, [], ◌∷◌, arith, inl, inr, if-false, Bool-cases, some, none, ltb, leb,
}
use yak_kernel.Status.{success}
use yak_kernel.VmMap.{
  Prot, Entry, Env, Unmapped, lower_bound, or_max, or_previous, rev_append, behind, before,
  page_size,
}
use yak_kernel.VmMap.View.{IsFrom, AllPlain}
use yak_kernel.VmMap.Unmap.{NoTail, HasTwo}
use yak_kernel.VmMap.Range.{EndBy, step_back, behind-before, lower_bound-all, lower_bound-Passed}
use yak_kernel.VmMap.Protect.{protect_loop, vm_protect, AllAllow, IsProtected, Protects}
use yak_kernel.VmMap.Protect.Turns.{past, skip, whole, ends, splits}

module _ (prot : Prot) (setmax : Bool) (start stop : ℕ) (lt : start < stop) where
  all_past :
      (es : List Entry) (lo : ℕ)
      → stop ≤ lo
      → IsFrom lo es
      → AllPlain es
      → (v : Env) → Protects prot setmax lo start stop es v
  unfolding protect_loop
  all_past [] lo k f p v = ([], v, refl, record { in_order = tt; says = λ a. ground arith })
  all_past (e ∷ es) lo k f p v =
      past prot setmax lo start stop (omega arith) e es v f p (ground (arith, k, f.0))

  protect_loop-Protects :
      (es : List Entry) (lo : ℕ)
      → IsFrom lo es
      → AllPlain es
      → NoTail start stop es
      → AllAllow prot setmax start stop es
      → (v : Env) → HasTwo v
      → Protects prot setmax lo start stop es v
  unfolding protect_loop
  protect_loop-Protects [] lo f p n g v two =
      ([], v, refl, record { in_order = tt; says = λ a. ground arith })
  protect_loop-Protects (e ∷ es) lo f p n g v two =
      let later = protect_loop-Protects es e.end f.2 p.1 n.1 g.1 v two in
      elim (Bool-cases (leb stop e.base)) [
        | inl k ↦ past prot setmax lo start stop (omega arith) e es v f p k
        | inr k ↦
            let b : ltb e.base stop ≡ true = ground (arith, k) in
            elim (Bool-cases (leb e.end start)) [
              | inl q ↦ skip prot setmax lo start stop (omega arith) e es v f p b q later
              | inr q ↦ elim (Bool-cases (leb e.end stop)) [
                | inl t ↦
                    whole prot setmax lo start stop (omega arith) e es v f p b q
                      (ground (arith, n.0, q, t)) t (g.0 b q) later
                | inr t ↦
                    let short : ltb stop e.end ≡ true = ground (arith, t) in
                    let rest : (v' : Env) → Protects prot setmax e.end start stop es v' =
                      λ v'. all_past es e.end (ground (arith, t)) f.2 p.1 v' in
                    elim (Bool-cases (ltb e.base start)) [
                      | inl s ↦
                          splits prot setmax lo start stop (omega arith) e es v f p s
                            (ground (arith, lt)) short (g.0 b q) two rest
                      | inr s ↦
                          ends prot setmax lo start stop (omega arith) e es v f p
                            (ground (arith, s)) b short (g.0 b q) two rest
                    ]
              ]
            ]
      ]

  -- The loop does nothing with entries that end before the range.
  loop-behind :
      (passed rest : List Entry) (v : Env)
      → EndBy start passed
      → protect_loop prot setmax start stop (rev_append passed rest) v
        ≡ behind passed (protect_loop prot setmax start stop rest v)
  unfolding protect_loop
  loop-behind [] rest v h = behind-nil (protect_loop prot setmax start stop rest v)
    where
      behind-nil : (r : Unmapped) → r ≡ behind [] r
      behind-nil none = refl
      behind-nil (some (st, es, w)) = refl
  loop-behind (p ∷ passed) rest v (n, q, h) =
      loop-behind passed (p ∷ rest) v h
      ∙ ap (behind passed) skips
      ∙ behind-before p passed (protect_loop prot setmax start stop rest v)
    where
      skips :
          protect_loop prot setmax start stop (p ∷ rest) v
          ≡ before (p ∷ []) (protect_loop prot setmax start stop rest v)
      skips =
          let b : ltb p.base stop ≡ true = ground (arith, lt) in
          let k : leb p.end start ≡ true = ground arith in rw (protect_loop, b, k) refl

-- `vm_protect` returns success for a range of whole pages, not empty and ending below 2^64, on a map whose entries are in order and
-- apart, of anonymous memory, objects or reserved addresses, where two allocations succeed, the range does
-- not start inside an entry of which it reaches the end, and each entry that it touches allows the
-- protection, or `VM_MAP_SETMAXPROT` is given. Then the entries are in order and apart, every mapped address
-- of the range has the new protection and otherwise what it had, and every other address has what it had.
pub vm_protect-protects :
    (va length : ℕ) (prot : Prot) (setmax : Bool) (es : List Entry) (v : Env)
    → va % page_size ≡ 0
    → length % page_size ≡ 0
    → 0 < length
    → IsFrom 0 es
    → AllPlain es
    → NoTail va (va + length) es
    → AllAllow prot setmax va (va + length) es
    → HasTwo v
    → va + length < 2 ^ 64
    → (es' : List Entry) × (v' : Env) × (vm_protect va length prot setmax es v
        ≡ some (success, es', v'))
      × IsProtected prot setmax 0 va (va + length) es es'
unfolding vm_protect
vm_protect-protects va length prot setmax es v page pages pos f p n g two fits =
    let (all, ends_by) =
      step_back va es (lower_bound va [] es) (lower_bound-all es va [])
        (lower_bound-Passed es 0 va [] f tt tt) in
    let (es', v', r, w) =
      protect_loop-Protects prot setmax va (va + length) (omega arith) es 0 f p n g v two in
    let here = or_previous va (or_max (lower_bound va [] es)) in
    let whole_pages : (not (va % page_size == 0) || not (length % page_size == 0)) ≡ false =
      ground (arith, page, pages) in
    (
      es',
      v',
      if-false _ whole_pages
          ∙ ap (λ stop. behind here.0 (protect_loop prot setmax va stop here.1 v))
              (add_size_small va length fits)
          ∙ sym (loop-behind prot setmax va (va + length) (omega arith) here.0 here.1 v ends_by)
          ∙ ap (λ fs. protect_loop prot setmax va (va + length) fs v) all
          ∙ r,
      w,
    )
