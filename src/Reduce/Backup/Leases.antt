-- ===== src/Reduce/Backup/Leases.antt =====
-- Which leases a backup takes, and which it gives back.
use first_fork.Common.{
  ℕ, ◌≡◌, inl, inr, true, false, List, [], ◌∷◌, String, Memᴰ, Bool-cases, refl, sym, ◌∙◌,
  string_ord, leb, add32,
}
use mathlib.Core.List.Memᴰ
use mathlib.Core.Bool.{false≢true}
use first_fork.Model.{
  ServiceId, ServiceSnapshot, backup_repo, restic_running, EffectResult, acquire_lease,
  stop_service, release_lease, service,
}
use first_fork.Lease.{is_free}
use first_fork.Config.{CratonConfig, ServiceEntry, backup_stop_services}
use first_fork.State.{State}
use first_fork.Reduce.Base.{Ctx}
use first_fork.Reduce.Backup.{
  run_id_at, stop_commands, start_commands, failure_incident, start_backup, handle_backup_failure,
  finalize_backup, dispatch_phase, handle_backup_effect, handle_effect_completed, is_success,
  is_pending,
}

stop_commands-mem :
    (run_id : String) (es : List ServiceEntry) (e : ServiceEntry)
    → Memᴰ e es
    → Memᴰ (acquire_lease (service e.id) run_id) (stop_commands run_id es)
      × Memᴰ (stop_service e.id e.unit "backup") (stop_commands run_id es)
unfolding stop_commands
stop_commands-mem run_id [] e m = elim m [ ]
stop_commands-mem run_id (x ∷ es) e (Memᴰ.head q) =
    rw q (Memᴰ.head refl, Memᴰ.tail (Memᴰ.head refl))
stop_commands-mem run_id (x ∷ es) e (Memᴰ.tail m) =
    let (a, b) = stop_commands-mem run_id es e m in
    (Memᴰ.tail (Memᴰ.tail a), Memᴰ.tail (Memᴰ.tail b))

-- A backup that finds the repository free leases and stops every service that is to be stopped for
-- it, whether it runs or not, and leases the repository, all for the same run.
pub start_backup-leases :
    (config : CratonConfig) (ctx : Ctx) (state : State) (e : ServiceEntry)
    → is_free state.leases backup_repo ctx.mono_secs ≡ true
    → Memᴰ e (backup_stop_services config)
    → let cmds = (start_backup config ctx state).1 in
      Memᴰ (acquire_lease backup_repo (run_id_at ctx)) cmds
      × Memᴰ (acquire_lease (service e.id) (run_id_at ctx)) cmds
      × Memᴰ (stop_service e.id e.unit "backup") cmds
unfolding start_backup
start_backup-leases config ctx state e free m =
    let (a, b) = stop_commands-mem (run_id_at ctx) (backup_stop_services config) e m in
    rw free (
      Memᴰ.head refl,
      Memᴰ.tail (Memᴰ.tail (Memᴰ.tail (Memᴰ.append_left _ a))),
      Memᴰ.tail (Memᴰ.tail (Memᴰ.tail (Memᴰ.append_left _ b))),
    )

-- No snapshot of the service says that it ran.
abbrev pub NotRunning : ServiceId → List ServiceSnapshot → Type 0
NotRunning id pre = (s : ServiceSnapshot) → Memᴰ s pre → s.id ≡ id → s.was_running ≡ false

start_commands-NotRunning :
    (id : ServiceId) (pre : List ServiceSnapshot)
    → NotRunning id pre
    → ¬ Memᴰ (release_lease (service id)) (start_commands pre)
unfolding start_commands
start_commands-NotRunning id [] quiet m = elim m [ ]
start_commands-NotRunning id (s ∷ ss) quiet m = elim (Bool-cases s.was_running) [
  | inr e ↦ start_commands-NotRunning id ss (λ t n. quiet t (Memᴰ.tail n)) (rw e at m)
  | inl e ↦ elim (Memᴰ.cases_cons (rw e at m)) [
    | inl q ↦ absurd (cc)
    | inr k ↦ elim (Memᴰ.cases_cons k) [
      | inl q ↦ let same : s.id ≡ id = cc in false≢true (sym (quiet s (Memᴰ.head refl) same) ∙ e)
      | inr n ↦ start_commands-NotRunning id ss (λ t l. quiet t (Memᴰ.tail l)) n
    ]
  ]
]

no_release_in_incident :
    (ctx : Ctx) (failures : ℕ) (id : ServiceId)
    → ¬ Memᴰ (release_lease (service id)) (failure_incident ctx failures)
no_release_in_incident ctx failures id k = elim (Bool-cases (leb 3 failures)) [
  | inl e ↦ elim (Memᴰ.cases_cons (rw e at k)) [ inl q ↦ absurd (cc) | inr t ↦ elim t [ ] ]
  | inr e ↦ elim (rw e at k) [ ]
]

-- A service that did not run when the backup started keeps its lease when `restic backup` is over,
-- however it ended: no command releases it.
pub handle_effect_completed-keeps_lease :
    (config : CratonConfig) (ctx : Ctx) (cmd_id : ℕ) (result : EffectResult) (state : State)
    (run_id : String) (pre : List ServiceSnapshot) (id : ServiceId)
    → is_pending state.backup_pending_cmd cmd_id ≡ true
    → state.backup_phase ≡ restic_running run_id pre
    → NotRunning id pre
    → ¬ Memᴰ (release_lease (service id)) (handle_effect_completed config ctx cmd_id result state).1
unfolding handle_effect_completed handle_backup_effect dispatch_phase handle_backup_failure
    finalize_backup
handle_effect_completed-keeps_lease config ctx cmd_id result state run_id pre id h p quiet m =
    elim (Bool-cases (is_success result)) [
      | inl e ↦ elim (Memᴰ.append_cases (start_commands pre) (rw (h, p, e) at m)) [
        | inl k ↦ start_commands-NotRunning id pre quiet k
        | inr (Memᴰ.head q) ↦ absurd (cc)
        | inr (Memᴰ.tail (Memᴰ.head q)) ↦ absurd (cc)
        | inr (Memᴰ.tail (Memᴰ.tail k)) ↦ elim k [ ]
      ]
      | inr e ↦ elim (Memᴰ.append_cases (start_commands pre) (rw (h, p, e) at m)) [
        | inl k ↦ start_commands-NotRunning id pre quiet k
        | inr (Memᴰ.head q) ↦ absurd (cc)
        | inr (Memᴰ.tail (Memᴰ.head q)) ↦ absurd (cc)
        | inr (Memᴰ.tail (Memᴰ.tail (Memᴰ.head q))) ↦ absurd (cc)
        | inr (Memᴰ.tail (Memᴰ.tail (Memᴰ.tail (Memᴰ.head q)))) ↦ absurd (cc)
        | inr (Memᴰ.tail (Memᴰ.tail (Memᴰ.tail (Memᴰ.tail k)))) ↦
            no_release_in_incident ctx (add32 state.consecutive_backup_failures 1) id k
      ]
    ]
