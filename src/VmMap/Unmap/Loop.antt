-- ===== src/VmMap/Unmap/Loop.antt =====
-- kernel/vm/map.c: the loop of `vm_unmap`.
use yak_kernel.Prelude.{
  ℕ, ◌≤◌, ◌≡◌, refl, true, false, ◌&&◌, ◌||◌, ◌==◌, List, [], ◌∷◌, arith, inl, inr, Bool-cases,
  none, ltb, leb,
}
use yak_kernel.VmMap.{Entry, Env, carve_entry, unmap_loop, deref_entry, max_addr, min_addr}
use yak_kernel.VmMap.View.{IsFrom, AllPlain}
use yak_kernel.VmMap.Unmap.{cuts_tail, NoTail, HasTwo, Unmaps}
use yak_kernel.VmMap.Unmap.Turns.{deref_entry-HasTwo, past, skip, whole, ends, splits}

-- Behind the range nothing changes.
all_past :
    (es : List Entry) (lo start stop : ℕ)
    → start ≤ stop
    → stop ≤ lo
    → IsFrom lo es
    → AllPlain es
    → (v : Env) → Unmaps lo start stop es v
unfolding unmap_loop
all_past [] lo start stop le k f p v =
    ([], v, refl, record { in_order = tt; says = λ a. ground arith })
all_past (e ∷ es) lo start stop le k f p v =
    past lo start stop le e es v f p (ground (arith, k, f.0))

-- On entries from any `lo` on, in order and apart, of anonymous memory, objects or reserved addresses, where
-- two allocations succeed and the range does not start inside an entry of which it reaches the end, the loop
-- of `vm_unmap` returns success. It leaves entries in order and apart, which map no address of the range,
-- and every other address with the attributes, to the object and to the offset in it that it had before.
pub unmap_loop-Unmaps :
    (es : List Entry) (lo start stop : ℕ)
    → start ≤ stop
    → IsFrom lo es
    → AllPlain es
    → NoTail start stop es
    → (v : Env) → HasTwo v
    → Unmaps lo start stop es v
unfolding unmap_loop
unmap_loop-Unmaps [] lo start stop le f p n v two =
    ([], v, refl, record { in_order = tt; says = λ a. ground arith })
unmap_loop-Unmaps (e ∷ es) lo start stop le f p n v two =
    let later : (v' : Env) → HasTwo v' → Unmaps e.end start stop es v' =
      λ v' two'. unmap_loop-Unmaps es e.end start stop le f.2 p.1 n.1 v' two' in
    elim (Bool-cases (leb stop e.base)) [
      | inl k ↦ past lo start stop le e es v f p k
      | inr k ↦
          let b : ltb e.base stop ≡ true = ground (arith, k) in
          elim (Bool-cases (leb e.end start)) [
            | inl q ↦ skip lo start stop le e es v f p b q (later v two)
            | inr q ↦ elim (Bool-cases (leb e.end stop)) [
              | inl t ↦
                  whole lo start stop le e es v f p b q (ground (arith, n.0, q, t)) t
                    (later (deref_entry e v) (deref_entry-HasTwo e v two))
              | inr t ↦
                  let short : ltb stop e.end ≡ true = ground (arith, t) in
                  let rest : (v' : Env) → Unmaps e.end start stop es (deref_entry e v') = λ v'.
                    all_past es e.end start stop le (ground (arith, t)) f.2 p.1
                      (deref_entry e v') in
                  elim (Bool-cases (ltb e.base start)) [
                    | inl s ↦ splits lo start stop le e es v f p s short two rest
                    | inr s ↦ ends lo start stop le e es v f p (ground (arith, s)) b short two rest
                  ]
            ]
          ]
    ]

-- Where the range starts inside the first entry and reaches its end, the loop fails an assertion of `carve_entry`.
pub unmap_loop-tail :
    (e : Entry) (es : List Entry) (start stop : ℕ) (v : Env)
    → start ≤ stop
    → cuts_tail start stop e ≡ true
    → unmap_loop start stop (e ∷ es) v ≡ none
unfolding unmap_loop carve_entry
unmap_loop-tail e es start stop v le k =
    let b : ltb e.base stop ≡ true = ground (arith, k) in
    let q : (leb e.end start || leb stop e.base) ≡ false = ground (arith, k) in
    let differs : (e.base == max_addr e.base start && e.end == min_addr e.end stop) ≡ false =
      ground (arith, k) in
    let upper : min_addr e.end stop ≡ e.end = ground (arith, k) in
    let never : ltb e.end e.end ≡ false = ground arith in
    let inside : leb e.base e.end ≡ true = ground (arith, k) in
    let lower : max_addr e.base start ≡ start = ground (arith, k) in
    let starts : leb e.base start ≡ true = ground (arith, k) in
    let within_e : ltb start e.end ≡ true = ground (arith, k) in
    rw (unmap_loop, b, q, differs, carve_entry, upper, lower, starts, within_e, inside, never) refl
