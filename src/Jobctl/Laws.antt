-- ===== src/Jobctl/Laws.antt =====
-- What the calls of kernel/core/jobctl.c do.
use yak_kernel.Prelude.{
  ℕ, suc, ◌≡◌, refl, ◌≢◌, ◌⊎◌, inl, inr, true, false, ◌||◌, [], ◌∷◌, none, some, arith, ◌==◌,
  Bool-cases, add_size, sub_size,
}
use yak_kernel.Status.{success, perm_denied}
use yak_kernel.Jobctl.{
  Session, Pgrp, Jobs, ◌>>=◌, session_deref, pgrp_deref, pgrp_insert, session_insert, alloc,
  pgrp_create, pgrp_fill, session_create, session_fill, insert_sid, insert_pgrp, process_getpgid,
  leave_pgrp, leave_session, setsid_into, setsid_pgrp, setsid_session, setsid_create, setsid_member,
  jobctl_setsid, setpgid_group, setpgid_into, jobctl_setpgid,
}

-- A process that leads its session or its group cannot start a session, and nothing changes.
pub jobctl_setsid-denied :
    (j : Jobs) (p s g : ℕ) (session : Session) (pgrp : Pgrp)
    → (j.processes p).session ≡ some s
    → (j.processes p).pgrp ≡ some g
    → j.sessions s ≡ some session
    → j.pgrps g ≡ some pgrp
    → (session.sid ≡ (j.processes p).pid) ⊎ (pgrp.pgid ≡ (j.processes p).pid)
    → jobctl_setsid p j ≡ some (perm_denied, j)
unfolding jobctl_setsid setsid_member process_getpgid
jobctl_setsid-denied j p s g session pgrp in_session in_group at_s at_g leads =
    elim (Bool-cases (session.sid == (j.processes p).pid)) [
      | inl e ↦ rw (jobctl_setsid, in_session, setsid_member, at_s, e)
      | inr e ↦
          let leader : (pgrp.pgid == (j.processes p).pid) ≡ true = ground (arith, leads, e) in
          rw (
            jobctl_setsid, in_session, setsid_member, at_s, e, process_getpgid, in_group, ◌>>=◌,
            at_g, leader,
          )
    ]

-- A session leader cannot change its group, and nothing changes.
pub jobctl_setpgid-denied :
    (j : Jobs) (p s pgid : ℕ) (session : Session)
    → (j.processes p).session ≡ some s
    → j.sessions s ≡ some session
    → session.sid ≡ (j.processes p).pid
    → jobctl_setpgid p pgid j ≡ some (perm_denied, j)
unfolding jobctl_setpgid setpgid_group setpgid_into
jobctl_setpgid-denied j p s pgid session in_session at_s leads =
    let leader : (session.sid == (j.processes p).pid) ≡ true = ground arith in
    rw (jobctl_setpgid, in_session, ◌>>=◌, setpgid_group, at_s, leader, setpgid_into)

==-self : (p : ℕ) → (p == p) ≡ true
==-self p = ground arith

-- With memory, a process in a session that it does not lead, and in no group, gets a group of its own when
-- it asks for group 0 or its own id. It is the only member, and the group counts two references.
pub jobctl_setpgid-creates :
    (j : Jobs) (p s pgid : ℕ) (session : Session)
    → j.allocs ≡ []
    → (j.processes p).session ≡ some s
    → (j.processes p).pgrp ≡ none
    → j.sessions s ≡ some session
    → session.sid ≢ (j.processes p).pid
    → (pgid ≡ 0) ⊎ (pgid ≡ (j.processes p).pid)
    → (t : Jobs) × (jobctl_setpgid p pgid j ≡ some (success, t))
      × (t.pgrps j.next
          ≡ some
              (record { pgid = (j.processes p).pid; refcount = 2; session = s; members = p ∷ [] }))
      × ((t.processes p).pgrp ≡ some j.next)
unfolding jobctl_setpgid setpgid_group setpgid_into pgrp_create alloc pgrp_fill leave_pgrp
    pgrp_insert add_size
jobctl_setpgid-creates j p s pgid session memory in_session alone at_s other asks =
    let no_leader : (session.sid == (j.processes p).pid) ≡ false = ground arith in
    let own : (pgid == 0 || pgid == (j.processes p).pid) ≡ true = ground (arith, asks) in
    rw
      (
        jobctl_setpgid,
        in_session,
        ◌>>=◌,
        setpgid_group,
        at_s,
        no_leader,
        own,
        pgrp_create,
        alloc,
        memory,
        pgrp_fill,
        at_s,
        setpgid_into,
        leave_pgrp,
        alone,
        pgrp_insert,
        alone,
        ==-self j.next,
      )
      (_, refl, ground arith, ground arith)

-- With memory, a process of the kernel, in no session and no group, becomes the leader of a new session and
-- a new group, if its id is new to both tables: it points to both, it is the only member of both, the group
-- counts its member, the session its member and its group, both tables find them, and every other process
-- is as before.
pub jobctl_setsid-leads :
    (j : Jobs) (p : ℕ)
    → j.allocs ≡ []
    → (j.processes p).session ≡ none
    → (j.processes p).pgrp ≡ none
    → (j.processes p).ppid ≡ 0
    → j.sid_table (j.processes p).pid ≡ none
    → j.pgid_table (j.processes p).pid ≡ none
    → let pid = (j.processes p).pid in
      (t : Jobs) × (jobctl_setsid p j ≡ some (success, t))
      × (t.sessions j.next
          ≡ some (record { sid = pid; refcount = 2; members = p ∷ []; pgrps = suc j.next ∷ [] }))
      × (t.pgrps (suc j.next)
          ≡ some (record { pgid = pid; refcount = 1; session = j.next; members = p ∷ [] }))
      × (t.sid_table pid ≡ some j.next)
      × (t.pgid_table pid ≡ some (suc j.next))
      × ((t.processes p).session ≡ some j.next)
      × ((t.processes p).pgrp ≡ some (suc j.next))
      × ((q : ℕ) → (p == q) ≡ false → t.processes q ≡ j.processes q)
unfolding jobctl_setsid setsid_create session_create alloc session_fill setsid_session pgrp_create
    pgrp_fill setsid_pgrp setsid_into leave_pgrp leave_session session_insert pgrp_insert insert_sid
    insert_pgrp session_deref pgrp_deref add_size sub_size
jobctl_setsid-leads j p memory no_session no_group kernel new_sid new_pgid =
    rw
      (
        jobctl_setsid,
        no_session,
        kernel,
        setsid_create,
        ◌>>=◌,
        session_create,
        alloc,
        memory,
        session_fill,
        setsid_session,
        pgrp_create,
        alloc,
        memory,
        pgrp_fill,
        ==-self j.next,
        setsid_pgrp,
        setsid_into,
        leave_pgrp,
        no_group,
        leave_session,
        no_session,
        session_insert,
        no_session,
        ==-self j.next,
        pgrp_insert,
        ==-self p,
        no_group,
        ==-self (suc j.next),
        insert_sid,
        ==-self j.next,
        new_sid,
        insert_pgrp,
        ==-self (suc j.next),
        new_pgid,
        session_deref,
        ==-self j.next,
        pgrp_deref,
        ==-self (suc j.next),
      )
      (
        _,
        refl,
        ground arith,
        ground arith,
        ground arith,
        ground arith,
        ground arith,
        ground arith,
        λ q other. ground (arith, other),
      )
