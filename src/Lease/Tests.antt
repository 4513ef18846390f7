-- ===== src/Lease/Tests.antt =====
-- Runs of the arbiter.
use first_fork.Common.{◌≡◌, ◌≢◌, refl, true, some, List, [], ◌∷◌, get, insert, arith}
use first_fork.Model.{ResourceId, backup_repo, disk_cleanup, resource_ord}
use first_fork.Lease.{
  LeaseEntry, LeaseArbiter, new, acquire, is_free, granted, conflict, granted_after_eviction,
}
use first_fork.Lease.Exclusion.{
  Op, acquires, releases, run, Decides, acquire-Decides, acquire_excludes,
  acquire_again_not_renewed,
}

abbrev by_run : LeaseEntry
by_run = record { holder = "run"; acquired_mono_secs = 10 }

abbrev one_lease : LeaseArbiter
one_lease = record { held = (backup_repo, by_run) ∷ []; max_ttl_secs = 100 }

first_acquire : acquire (new 100) backup_repo "run" 10 ≡ (one_lease, granted)
unfolding acquire new get insert
first_acquire = refl

acquire-Decides_example :
    let (b, result) = acquire one_lease backup_repo "other" 200 in
    ((e : LeaseEntry) × (get backup_repo b.held ≡ some e)
      × Decides 100 (get backup_repo one_lease.held) "other" 200 result e)
    × ((s : ResourceId) → s ≢ backup_repo → get s b.held ≡ get s one_lease.held)
acquire-Decides_example = acquire-Decides one_lease backup_repo "other" 200

held_by_run : get backup_repo one_lease.held ≡ some by_run
unfolding get
held_by_run = refl

another : by_run.holder ≢ "other"
another e = cc

abbrev meanwhile : List Op
meanwhile = acquires disk_cleanup "other" 60 ∷ releases disk_cleanup ∷ []

other_resource : backup_repo ≢ disk_cleanup
other_resource e = cc

acquire_excludes_example :
    acquire (run meanwhile one_lease) backup_repo "other" 109
    ≡ (run meanwhile one_lease, conflict "run")
acquire_excludes_example =
    acquire_excludes meanwhile one_lease backup_repo by_run "other" 109 held_by_run (omega arith)
      (omega arith, (other_resource, tt)) (omega arith) another

acquire_again_not_renewed_example :
    let b = (acquire one_lease backup_repo "run" 110).0 in
    ((acquire one_lease backup_repo "run" 110).1 ≡ granted)
    × (is_free b backup_repo 110 ≡ true)
    × ((acquire b backup_repo "other" 110).1 ≡ granted_after_eviction "run")
acquire_again_not_renewed_example =
    acquire_again_not_renewed one_lease backup_repo by_run "other" 110 held_by_run (omega arith)
      another
