-- ===== src/Rwlock/Reach.antt =====
-- Any number of threads on one lock of kernel/core/rwlock.c, in any interleaving: mutual exclusion.
use yak_kernel.Prelude.{
  ℕ, zero, suc, ◌+◌, ◌^◌, ◌<◌, ◌≡◌, refl, ◌∙◌, sym, ◌≢◌, inl, inr, List, [], ◌∷◌, some, arith,
  length, length-set, replicate, length-replicate, get_elem?, set, get_elem?-set_self,
  get_elem?-set_ne, ◌==◌, Bool-cases,
}
use yak_kernel.Rwlock.{Rwlock, Pc, Choice, ran, step, idle, rwlock_init, rwlock_exclusive}
use yak_kernel.Rwlock.Count.{
  shares, owns, marks, counts, loaded, sum, sum-set, sum-le-others, shares-le-one, owns-le-one,
  marks-le-one, counts-le-one,
}
use yak_kernel.Rwlock.Invariant.{Agrees, Part, step-Agrees, step-Part, step-owner}

pub record System : Type 0 where
  pub lock : Rwlock
  pub pcs : List Pc

-- All threads outside a fresh lock.
abbrev pub start : ℕ → System
start n = record { lock = rwlock_init; pcs = replicate n idle }

-- One thread takes one step.
pub data Step (s : System) (t : System) : Type 0 where
  by_thread :
      (i : ℕ) (choice : Choice) (pc pc' : Pc) (l' : Rwlock)
      → get_elem? s.pcs i ≡ some pc
      → step i choice pc s.lock ≡ ran l' pc'
      → t ≡ record { lock = l'; pcs = set s.pcs i pc' }
      → Step s t

pub data Reach (s : System) : System → Type 0 where
  here : Reach s s
  next : {t u : System} → Reach s t → Step t u → Reach s u

pub record IsSound (s : System) : Type 0 where
  pub few : length s.pcs < 2 ^ 31
  pub agrees :
      Agrees s.lock (sum shares s.pcs) (sum owns s.pcs) (sum marks s.pcs) (sum counts s.pcs)
  pub owner_is :
      (i : ℕ) (pc : Pc)
      → get_elem? s.pcs i ≡ some pc
      → owns pc ≡ 1
      → s.lock.exclusive_owner ≡ some i
  pub small : (i : ℕ) (pc : Pc) → get_elem? s.pcs i ≡ some pc → loaded pc < rwlock_exclusive

pub thread-Part :
    (s : System) (i : ℕ) (pc : Pc)
    → IsSound s
    → get_elem? s.pcs i ≡ some pc
    → Part i pc s.lock (sum shares s.pcs) (sum owns s.pcs) (sum marks s.pcs) (sum counts s.pcs)
thread-Part s i pc v e =
    let sh = sum-le-others shares shares-le-one s.pcs i pc e in
    let ow = sum-le-others owns owns-le-one s.pcs i pc e in
    let ma = sum-le-others marks marks-le-one s.pcs i pc e in
    let co = sum-le-others counts counts-le-one s.pcs i pc e in
    record {
      shares_in = omega (arith, v.few);
      owns_in = ow.0;
      marks_in = ma.0;
      counts_in = omega (arith, v.few);
      owner_is = v.owner_is i pc e;
      small = v.small i pc e;
    }

lt_of_get : (pcs : List Pc) (i : ℕ) {pc : Pc} → get_elem? pcs i ≡ some pc → i < length pcs
lt_of_get [] i e = cc
lt_of_get (x ∷ pcs) zero e = omega arith
lt_of_get (x ∷ pcs) (suc i) e = omega (arith, lt_of_get pcs i e)

-- Of two threads, at most one is on the exclusive side.
pub one_owner :
    (s : System) (i j : ℕ) (pc pc' : Pc)
    → IsSound s
    → i ≢ j
    → get_elem? s.pcs i ≡ some pc
    → get_elem? s.pcs j ≡ some pc'
    → owns pc' ≡ 1
    → owns pc + marks pc ≡ 0
one_owner s i j pc pc' v ne at at' own =
    let this = thread-Part s i pc v at in
    let that = thread-Part s j pc' v at' in
    elim (Bool-cases (owns pc == 1)) [
      | inl e ↦
          let e' : owns pc ≡ 1 = ground arith in
          absurd (ground (arith, this.owner_is e', that.owner_is own))
      | inr e ↦ ground (
        arith,
        this.owns_in,
        this.marks_in,
        that.owns_in,
        v.agrees.single,
        owns-le-one pc,
        marks-le-one pc,
      )
    ]

Step-IsSound : {s t : System} → Step s t → IsSound s → IsSound t
Step-IsSound {s} {t} (by_thread i choice pc pc' l' at run e) v = rw e (record {
  few = omega (arith, v.few, length-set s.pcs i pc');
  agrees =
      step-Agrees i choice pc s.lock l' pc' _ _ _ _ _ _ _ _ v.agrees part run
        (sum-set shares s.pcs i pc pc' at) (sum-set owns s.pcs i pc pc' at)
        (sum-set marks s.pcs i pc pc' at) (sum-set counts s.pcs i pc pc' at);
  owner_is = λ j pc'' at' own. elim (Bool-cases (i == j)) [
    | inl same ↦ let (e1, e2) = stepped j pc'' (ground arith) at' in rw (e2) (mine.0 (rw e1 own))
    | inr other ↦
        let ne : i ≢ j = ground arith in
        let before = get_elem?-set_ne s.pcs i j pc' ne in
        elim (step-owner i choice pc s.lock l' pc' run) [
          | inl kept ↦ kept ∙ v.owner_is j pc'' (sym before ∙ at') own
          | inr acts ↦
              absurd (omega (arith, one_owner s i j pc pc'' v ne at (sym before ∙ at') own))
        ]
  ];
  small = λ j pc'' at'. elim (Bool-cases (i == j)) [
    | inl same ↦ let (e1, e2) = stepped j pc'' (ground arith) at' in rw (← e1) mine.1
    | inr other ↦ v.small j pc'' (sym (get_elem?-set_ne s.pcs i j pc' (ground arith)) ∙ at')
  ];
})
  where
    part : Part i pc s.lock (sum shares s.pcs) (sum owns s.pcs) (sum marks s.pcs) (sum counts s.pcs)
    part = thread-Part s i pc v at

    mine : (owns pc' ≡ 1 → l'.exclusive_owner ≡ some i) × (loaded pc' < rwlock_exclusive)
    mine = step-Part i choice pc s.lock l' pc' _ _ _ _ v.agrees part run

    stepped :
        (j : ℕ) (pc'' : Pc)
        → i ≡ j
        → get_elem? (set s.pcs i pc') j ≡ some pc''
        → (pc' ≡ pc'') × (j ≡ i)
    stepped j pc'' same at' =
        (ground (arith, get_elem?-set_self s.pcs i pc' (lt_of_get s.pcs i at)), sym same)

pub sum-idle : (f : Pc → ℕ) → f idle ≡ 0 → (n : ℕ) → sum f (replicate n idle) ≡ 0
sum-idle f e zero = refl
sum-idle f e (suc n) = omega (arith, e, sum-idle f e n)

at_start : (n i : ℕ) (pc : Pc) → get_elem? (replicate n idle) i ≡ some pc → pc ≡ idle
at_start zero i pc e = absurd (cc)
at_start (suc n) zero pc e = cc
at_start (suc n) (suc i) pc e = at_start n i pc e

pub start-IsSound : (n : ℕ) → n < 2 ^ 31 → IsSound (start n)
start-IsSound n few = record {
  few = omega (arith, length-replicate n idle);
  agrees = record {
    state_is = omega (arith, sum-idle shares refl n, sum-idle owns refl n, sum-idle marks refl n);
    single = omega (arith, sum-idle owns refl n, sum-idle marks refl n);
    excludes = inr (sum-idle shares refl n);
    count_is = sym (sum-idle counts refl n);
    no_owner = λ e. refl;
  };
  owner_is = λ i pc at own. ground (arith, at_start n i pc at);
  small = λ i pc at. rw (at_start n i pc at) (omega arith);
}

pub Reach-IsSound : {s t : System} → Reach s t → IsSound s → IsSound t
Reach-IsSound here v = v
Reach-IsSound (next r st) v = Step-IsSound st (Reach-IsSound r v)
