-- ===== src/Jobctl.antt =====
-- kernel/core/jobctl.c: sessions and process groups, with the tables of kernel/core/process.c that find
-- them by id. Processes, sessions and groups are known by their addresses. `none` is a panic, a failed
-- assertion or the use of a null pointer. The locks are held for the length of a call, which is one
-- step here.
pub mod Laws
mod Tests
use yak_kernel.Prelude.{
  put, ℕ, suc, ◌+◌, Bool, true, false, ◌&&◌, ◌||◌, List, [], ◌∷◌, Option, none, some, ◌==◌,
  if◌then◌else◌, add_size, sub_size,
}
use yak_kernel.Status.{Status, success, perm_denied, oom}

-- The fields of `struct session` that job control uses.
pub record Session : Type 0 where
  pub sid : ℕ
  pub refcount : ℕ
  pub members : List ℕ
  pub pgrps : List ℕ

-- `struct pgrp`
pub record Pgrp : Type 0 where
  pub pgid : ℕ
  pub refcount : ℕ
  pub session : ℕ
  pub members : List ℕ

-- The fields of `struct kprocess` that job control uses.
pub record Process : Type 0 where
  pub pid : ℕ
  pub ppid : ℕ
  pub session : Option ℕ
  pub pgrp : Option ℕ

-- `allocs` says which allocations succeed, all when it is used up; `next` is the next address.
pub record Jobs : Type 0 where
  pub processes : ℕ → Process
  pub sessions : ℕ → Option Session
  pub pgrps : ℕ → Option Pgrp
  pub sid_table : ℕ → Option ℕ
  pub pgid_table : ℕ → Option ℕ
  pub allocs : List Bool
  pub next : ℕ

abbrev pub J : Type 0 → Type 0
J A = Jobs → Option (A × Jobs)

infixl 5 ◌>>=◌ ◌>>◌
abbrev pub ◌>>=◌ : {A B : Type 0} → J A → (A → J B) → J B
◌>>=◌ m f j = elim (m j) [ none ↦ none | some (a, j') ↦ f a j' ]

abbrev pub ◌>>◌ : {B : Type 0} → J (Unit {0}) → J B → J B
m >> k = m >>= λ _. k

abbrev pub pure : {A : Type 0} → A → J A
pure a j = some (a, j)

-- `LIST_REMOVE`
abbrev pub remove : ℕ → List ℕ → List ℕ
remove p [] = []
remove p (q ∷ ps) = if p == q then ps else q ∷ remove p ps

abbrev pub put_session : ℕ → Session → J (Unit {0})
put_session s session j = some (tt, record j { sessions = put j.sessions s (some session) })

abbrev pub put_pgrp : ℕ → Pgrp → J (Unit {0})
put_pgrp g pgrp j = some (tt, record j { pgrps = put j.pgrps g (some pgrp) })

abbrev pub put_process : ℕ → Process → J (Unit {0})
put_process p process j = some (tt, record j { processes = put j.processes p process })

abbrev pub get_session : ℕ → J Session
get_session s j = elim (j.sessions s) [ none ↦ none | some session ↦ some (session, j) ]

abbrev pub get_pgrp : ℕ → J Pgrp
get_pgrp g j = elim (j.pgrps g) [ none ↦ none | some pgrp ↦ some (pgrp, j) ]

-- `session_deref` and `pgrp_deref`: the last reference ends in the panic of the cleanup.
unfoldable pub session_deref : ℕ → J (Unit {0})
session_deref s = do
  session ← get_session s
  elim (session.refcount == 1) [
    | true ↦ λ j. none
    | false ↦ put_session s (record session { refcount = sub_size session.refcount 1 })
  ]

unfoldable pub pgrp_deref : ℕ → J (Unit {0})
pgrp_deref g = do
  pgrp ← get_pgrp g
  elim (pgrp.refcount == 1) [
    | true ↦ λ j. none
    | false ↦ put_pgrp g (record pgrp { refcount = sub_size pgrp.refcount 1 })
  ]

abbrev pub is_none : Option ℕ → Bool
is_none none = true
is_none (some a) = false

unfoldable pub pgrp_insert : ℕ → ℕ → J (Unit {0})
pgrp_insert g p j =
    let process = j.processes p in
    if is_none process.pgrp
    then (do
      pgrp ← get_pgrp g
      put_process p (record process { pgrp = some g })
      put_pgrp g (record pgrp { refcount = add_size pgrp.refcount 1; members = p ∷ pgrp.members }))
        j
    else none

unfoldable pub session_insert : ℕ → ℕ → J (Unit {0})
session_insert s p j =
    let process = j.processes p in
    if is_none process.session
    then (do
      session ← get_session s
      put_session s
          (record session { refcount = add_size session.refcount 1; members = p ∷ session.members })
      put_process p (record process { session = some s }))
        j
    else none

unfoldable pub session_remove : ℕ → J (Unit {0})
unfolding session_deref
session_remove p j = elim (j.processes p).session [
  | none ↦ none
  | some s ↦
      (do
        session ← get_session s
        put_session s (record session { members = remove p session.members })
        put_process p (record (j.processes p) { session = none })
        session_deref s)
        j
]

unfoldable pub pgrp_remove : ℕ → J (Unit {0})
unfolding pgrp_deref
pgrp_remove p j = elim (j.processes p).pgrp [
  | none ↦ none
  | some g ↦
      (do
        pgrp ← get_pgrp g
        put_pgrp g (record pgrp { members = remove p pgrp.members })
        put_process p (record (j.processes p) { pgrp = none })
        pgrp_deref g)
        j
]

-- `kzalloc`: a fresh address, or NULL.
unfoldable pub alloc : J (Option ℕ)
alloc j = elim j.allocs [
  | [] ↦ some (some j.next, record j { next = suc j.next })
  | true ∷ rest ↦ some (some j.next, record j { next = suc j.next; allocs = rest })
  | false ∷ rest ↦ some (none, record j { allocs = rest })
]

-- What `pgrp_create` does with the memory.
unfoldable pub pgrp_fill : ℕ → ℕ → Option ℕ → J (Option ℕ)
pgrp_fill s leader none j = some (none, j)
pgrp_fill s leader (some g) j =
    (do
      put_pgrp g
          (record { pgid = (j.processes leader).pid; refcount = 1; session = s; members = [] })
      session ← get_session s
      put_session s
          (record session { refcount = add_size session.refcount 1; pgrps = g ∷ session.pgrps })
      pure (some g))
      j

unfoldable pub pgrp_create : ℕ → ℕ → J (Option ℕ)
unfolding alloc pgrp_fill
pgrp_create s leader = do g ← alloc; pgrp_fill s leader g

unfoldable pub session_fill : ℕ → Option ℕ → J (Option ℕ)
session_fill leader none j = some (none, j)
session_fill leader (some s) j =
    (do
      put_session s
          (record { sid = (j.processes leader).pid; refcount = 1; members = []; pgrps = [] })
      pure (some s))
      j

unfoldable pub session_create : ℕ → J (Option ℕ)
unfolding alloc session_fill
session_create leader = do s ← alloc; session_fill leader s

-- `insert_sid` and `insert_pgrp`: `ht_set` without `overwrite`, whose error is a panic.
unfoldable pub insert_sid : ℕ → J (Unit {0})
insert_sid s = do
  session ← get_session s
  λ j. elim (j.sid_table session.sid) [
    | some other ↦ none
    | none ↦ some (tt, record j { sid_table = put j.sid_table session.sid (some s) })
  ]

unfoldable pub insert_pgrp : ℕ → J (Unit {0})
insert_pgrp g = do
  pgrp ← get_pgrp g
  λ j. elim (j.pgid_table pgrp.pgid) [
    | some other ↦ none
    | none ↦ some (tt, record j { pgid_table = put j.pgid_table pgrp.pgid (some g) })
  ]

unfoldable pub process_getpgid : ℕ → J ℕ
process_getpgid p j = elim (j.processes p).pgrp [
  | none ↦ none
  | some g ↦ (do pgrp ← get_pgrp g; pure pgrp.pgid) j
]

unfoldable pub process_getsid : ℕ → J ℕ
process_getsid p j = elim (j.processes p).session [
  | none ↦ none
  | some s ↦ (do session ← get_session s; pure session.sid) j
]

-- `if (process->pgrp) pgrp_remove(process); if (process->session) session_remove(process);`
unfoldable pub leave_pgrp : ℕ → J (Unit {0})
unfolding pgrp_remove
leave_pgrp p j = if is_none (j.processes p).pgrp then some (tt, j) else pgrp_remove p j

unfoldable pub leave_session : ℕ → J (Unit {0})
unfolding session_remove
leave_session p j = if is_none (j.processes p).session then some (tt, j) else session_remove p j

-- What follows the two allocations in `jobctl_setsid`.
unfoldable pub setsid_into : ℕ → ℕ → ℕ → J Status
unfolding leave_pgrp leave_session session_insert pgrp_insert insert_sid insert_pgrp session_deref
    pgrp_deref
setsid_into p s g = do
  leave_pgrp p
  leave_session p
  session_insert s p
  pgrp_insert g p
  insert_sid s
  insert_pgrp g
  session_deref s
  pgrp_deref g
  pure success

-- The group was created or not, and the session before it.
unfoldable pub setsid_pgrp : ℕ → ℕ → Option ℕ → J Status
unfolding setsid_into session_deref
setsid_pgrp p s none = do session_deref s; pure oom
setsid_pgrp p s (some g) = setsid_into p s g

unfoldable pub setsid_session : ℕ → Option ℕ → J Status
unfolding setsid_pgrp pgrp_create
setsid_session p none = pure oom
setsid_session p (some s) = do g ← pgrp_create s p; setsid_pgrp p s g

unfoldable pub setsid_create : ℕ → J Status
unfolding setsid_session session_create
setsid_create p = do s ← session_create p; setsid_session p s

-- Whether a process with a session leads it or its group; without a session it must have the kernel as
-- its parent. `pgrp` is read only where the first test fails.
unfoldable pub setsid_member : ℕ → ℕ → J Status
unfolding setsid_create process_getpgid
setsid_member p s j = elim (j.sessions s) [
  | none ↦ none
  | some session ↦ elim (session.sid == (j.processes p).pid) [
    | true ↦ some (perm_denied, j)
    | false ↦ elim (process_getpgid p j) [
      | none ↦ none
      | some (pgid, t) ↦
          if pgid == (j.processes p).pid then some (perm_denied, j) else setsid_create p j
    ]
  ]
]

unfoldable pub jobctl_setsid : ℕ → J Status
unfolding setsid_member setsid_create
jobctl_setsid p j = elim (j.processes p).session [
  | some s ↦ setsid_member p s j
  | none ↦ if (j.processes p).ppid == 0 then setsid_create p j else none
]

-- `lookup_pgid`, and the test on its session.
unfoldable pub setpgid_lookup : ℕ → ℕ → J (Option ℕ)
setpgid_lookup s pgid j = elim (j.pgid_table pgid) [
  | none ↦ some (none, j)
  | some g ↦ elim (j.pgrps g) [
    | none ↦ none
    | some pgrp ↦ if pgrp.session == s then some (some g, j) else some (none, j)
  ]
]

-- Which group `jobctl_setpgid` takes, if any.
unfoldable pub setpgid_group : ℕ → ℕ → ℕ → J (Option ℕ)
unfolding pgrp_create setpgid_lookup
setpgid_group p s pgid j = elim (j.sessions s) [
  | none ↦ none
  | some session ↦
      let pid = (j.processes p).pid in
      if session.sid == pid
      then some (none, j)
      else if pgid == 0 || pgid == pid
      then pgrp_create s p j
      else setpgid_lookup s pgid j
]

unfoldable pub setpgid_into : ℕ → Option ℕ → J Status
unfolding leave_pgrp pgrp_insert
setpgid_into p none = pure perm_denied
setpgid_into p (some g) = do leave_pgrp p; pgrp_insert g p; pure success

unfoldable pub jobctl_setpgid : ℕ → ℕ → J Status
unfolding setpgid_group setpgid_into
jobctl_setpgid p pgid j = elim (j.processes p).session [
  | none ↦ none
  | some s ↦ (do g ← setpgid_group p s pgid; setpgid_into p g) j
]
