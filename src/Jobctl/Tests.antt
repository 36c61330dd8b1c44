-- ===== src/Jobctl/Tests.antt =====
-- The theorems on kernel/core/jobctl.c at a few processes: 1 has no session, 2 is alone in a session that
-- it does not lead, and 5 leads that session.
use yak_kernel.Prelude.{
  false, put, ℕ, ◌≡◌, refl, ◌≢◌, [], ◌∷◌, none, some, arith, ◌==◌, if◌then◌else◌,
}
use yak_kernel.Status.{success}
use yak_kernel.Jobctl.{Session, Pgrp, Process, Jobs, jobctl_setsid}
use yak_kernel.Jobctl.Laws.{jobctl_setsid-leads}

abbrev fifth : Session
fifth = record { sid = 5; refcount = 3; members = 2 ∷ 5 ∷ []; pgrps = 1 ∷ [] }

abbrev fifth_group : Pgrp
fifth_group = record { pgid = 5; refcount = 1; session = 0; members = 5 ∷ [] }

abbrev process : ℕ → Process
process p =
    if p == 2
    then record { pid = 2; ppid = 5; session = some 0; pgrp = none }
    else if p == 5
    then record { pid = 5; ppid = 0; session = some 0; pgrp = some 1 }
    else record { pid = p; ppid = 0; session = none; pgrp = none }

abbrev jobs : Jobs
jobs = record {
  processes = process;
  sessions = put (λ s. none) 0 (some fifth);
  pgrps = put (λ g. none) 1 (some fifth_group);
  sid_table = put (λ i. none) 5 (some 0);
  pgid_table = put (λ i. none) 5 (some 1);
  allocs = [];
  next = 2;
}

other_leader : fifth.sid ≢ 2
other_leader = omega arith

jobctl_setsid-leads_example :
    (t : Jobs) × (jobctl_setsid 1 jobs ≡ some (success, t))
    × (t.sessions 2 ≡ some (record { sid = 1; refcount = 2; members = 1 ∷ []; pgrps = 3 ∷ [] }))
    × (t.pgrps 3 ≡ some (record { pgid = 1; refcount = 1; session = 2; members = 1 ∷ [] }))
    × (t.sid_table 1 ≡ some 2)
    × (t.pgid_table 1 ≡ some 3)
    × ((t.processes 1).session ≡ some 2)
    × ((t.processes 1).pgrp ≡ some 3)
    × ((q : ℕ) → (1 == q) ≡ false → t.processes q ≡ process q)
jobctl_setsid-leads_example = jobctl_setsid-leads jobs 1 refl refl refl refl refl refl
