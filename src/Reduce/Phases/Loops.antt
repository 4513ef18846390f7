-- ===== src/Reduce/Phases/Loops.antt =====
-- What the loops of the probe handlers and of the startup recovery do to the phase.
use first_fork.Common.{
  ℕ, ◌≡◌, ◌⊎◌, inl, inr, ◌∙◌, refl, none, some, List, [], ◌∷◌, TreeMap, get, Option-cases, arith,
  string_ord,
}
use first_fork.Model.{ServiceId, ProbeResult, service_id, BackupPhase, idle}
use first_fork.Config.{CratonConfig, ServiceEntry, find_service}
use first_fork.Policy.Backup.{CompensationAction}
use first_fork.Policy.Recovery.{Decision}
use first_fork.State.{State, SvcState}
use first_fork.Reduce.Base.{Ctx, Texts}
use first_fork.Reduce.Probes.{Acc, apply_decision, apply_one, apply_each, observe, observe_all}
use first_fork.Reduce.Startup.{compensate, compensate_all}

-- The loops over probe results and decisions leave the phase alone.
pub phase-observe_all :
    (blocked : TreeMap ServiceId ServiceId) (now : ℕ) (rs : List ProbeResult) (state : State)
    → (observe_all blocked now rs state).backup_phase ≡ state.backup_phase
unfolding observe_all observe
phase-observe_all blocked now [] state = refl
phase-observe_all blocked now (r ∷ rs) state =
    phase-observe_all blocked now rs (observe blocked now r state)
    ∙ one (Option-cases (get (service_id r) state.services))
  where
    one :
        (get (service_id r) state.services ≡ none)
          ⊎ ((svc : SvcState) × (get (service_id r) state.services ≡ some svc))
        → (observe blocked now r state).backup_phase ≡ state.backup_phase
    one (inl e) = rw (e, observe) refl
    one (inr (svc, e)) = rw (e, observe) refl

phase-apply_decision :
    (ctx : Ctx) (sid : ServiceId) (entry : ServiceEntry) (svc : SvcState) (d : Decision) (acc : Acc)
    → (apply_decision ctx sid entry svc d acc).state.backup_phase ≡ acc.state.backup_phase
unfolding apply_decision
phase-apply_decision ctx sid entry svc (Decision.restart u a s) acc = ground arith
phase-apply_decision ctx sid entry svc Decision.healthy acc = refl
phase-apply_decision ctx sid entry svc (Decision.failed x) acc = refl
phase-apply_decision ctx sid entry svc (Decision.blocked_by_dependency x) acc = refl
phase-apply_decision ctx sid entry svc Decision.breaker_open acc = refl
phase-apply_decision ctx sid entry svc Decision.in_maintenance acc = refl
phase-apply_decision ctx sid entry svc Decision.docker_root_cause acc = refl

pub phase-apply_each :
    (config : CratonConfig) (ctx : Ctx) (ds : TreeMap ServiceId Decision) (acc : Acc)
    → (apply_each config ctx ds acc).state.backup_phase ≡ acc.state.backup_phase
unfolding apply_each apply_one
phase-apply_each config ctx [] acc = refl
phase-apply_each config ctx ((sid, d) ∷ ds) acc =
    phase-apply_each config ctx ds (apply_one config ctx sid d acc) ∙ one
  where
    one : (apply_one config ctx sid d acc).state.backup_phase ≡ acc.state.backup_phase
    one = elim (Option-cases (get sid acc.state.services)) [
      | inl e ↦ rw (e, apply_one)
      | inr (svc, e) ↦ elim (Option-cases (find_service config sid)) [
        | inl q ↦ rw (e, q, apply_one)
        | inr (entry, q) ↦ rw (e, q, apply_one) (phase-apply_decision ctx sid entry svc d acc)
      ]
    ]

pub phase-compensate_all :
    (texts : Texts) (ctx : Ctx) (persisted : BackupPhase) (actions : List CompensationAction)
    (state : State)
    → let q = (compensate_all texts ctx persisted actions state).0.backup_phase in
      (q ≡ state.backup_phase) ⊎ (q ≡ idle)
unfolding compensate_all compensate
phase-compensate_all texts ctx persisted [] state = inl refl
phase-compensate_all texts ctx persisted (CompensationAction.restic_unlock ∷ more) state =
    phase-compensate_all texts ctx persisted more state
phase-compensate_all texts ctx persisted (CompensationAction.start_service i u ∷ more) state =
    phase-compensate_all texts ctx persisted more state
phase-compensate_all texts ctx persisted (CompensationAction.report_invariant_violation m ∷ more)
      state =
    phase-compensate_all texts ctx persisted more state
phase-compensate_all texts ctx persisted (CompensationAction.reset_to_idle ∷ more) state =
    elim (phase-compensate_all texts ctx persisted more (record state { backup_phase = idle })) [
      | inl e ↦ inr e
      | inr e ↦ inr e
    ]
