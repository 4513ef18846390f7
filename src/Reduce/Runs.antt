-- ===== src/Reduce/Runs.antt =====
-- Runs of the reducer over many events.
use first_fork.Common.{
  ℕ, ◌≡◌, refl, inl, inr, Bool, true, false, Option, List, [], ◌∷◌, ◌++◌, String, Memᴰ, Bool-cases,
  if◌then◌else◌,
}
use mathlib.Core.List.Memᴰ
use first_fork.Model.{
  ServiceSnapshot, BackupPhase, idle, restic_running, retention_running, verifying, Event,
  SignalKind,
}
use first_fork.Config.{CratonConfig}
use first_fork.Graph.{DepGraph}
use first_fork.Policy.Backup.{
  CompensationAction, report_invariant_violation, starts, crash_compensation, service_actions,
}
use first_fork.State.{State, new}
use first_fork.Reduce.{handle, reduce}
use first_fork.Reduce.Base.{Ctx, Texts, Step}
use first_fork.Reduce.Phases.{
  Follows, stays, begins, backed_up, not_backed_up, pruned, unverified, not_pruned, verified,
  dropped, reduce-Follows,
}
use first_fork.Reduce.Startup.{handle_shutdown}

module _ (texts : Texts) (config : CratonConfig) (graph : DepGraph) where
  -- The loop: each event with the context of its time, and all commands.
  unfoldable pub run_events : List (Ctx × Event) → State → Step
  run_events [] state = (state, [])
  run_events ((ctx, event) ∷ es) state =
      let (state', cmds) = reduce texts config graph ctx event state in
      let (state'', rest) = run_events es state' in (state'', cmds ++ rest)

-- The phases that the reducer goes through.
pub data IsUsed : BackupPhase → Type 0 where
  used_idle : IsUsed idle
  used_restic : {run_id : String} {pre : List ServiceSnapshot} → IsUsed (restic_running run_id pre)
  used_retention : {run_id : String} → IsUsed (retention_running run_id)
  used_verifying : {run_id : String} → IsUsed (verifying run_id)

Follows-IsUsed :
    {pending : Option ℕ} {verify : Bool} {event : Event} {p q : BackupPhase}
    → Follows pending verify event p q
    → IsUsed p
    → IsUsed q
Follows-IsUsed (stays h) u = u
Follows-IsUsed (begins h) u = used_restic
Follows-IsUsed (backed_up h) u = used_retention
Follows-IsUsed (not_backed_up h) u = used_idle
Follows-IsUsed (pruned h v) u = used_verifying
Follows-IsUsed (unverified h v) u = used_idle
Follows-IsUsed (not_pruned h) u = used_idle
Follows-IsUsed (verified h) u = used_idle
Follows-IsUsed (dropped h) u = used_idle

reduce-IsUsed :
    (texts : Texts) (config : CratonConfig) (graph : DepGraph) (ctx : Ctx) (event : Event)
    (state : State)
    → IsUsed state.backup_phase
    → IsUsed (reduce texts config graph ctx event state).0.backup_phase
unfolding reduce
reduce-IsUsed texts config graph ctx event state u = elim (Bool-cases state.shutting_down) [
  | inl q ↦ simp q u
  | inr q ↦ Follows-IsUsed (reduce-Follows texts config graph ctx event state q) u
]

run_events-IsUsed :
    (texts : Texts) (config : CratonConfig) (graph : DepGraph) (es : List (Ctx × Event))
    (state : State)
    → IsUsed state.backup_phase
    → IsUsed (run_events texts config graph es state).0.backup_phase
unfolding run_events
run_events-IsUsed texts config graph [] state u = u
run_events-IsUsed texts config graph ((ctx, event) ∷ es) state u =
    run_events-IsUsed texts config graph es _ (reduce-IsUsed texts config graph ctx event state u)

no_report_in_starts :
    (pre : List ServiceSnapshot) (message : String)
    → ¬ Memᴰ
        (report_invariant_violation message)
        (starts pre ++ CompensationAction.reset_to_idle ∷ [])
no_report_in_starts [] message (Memᴰ.head e) = cc
no_report_in_starts [] message (Memᴰ.tail m) = elim m [ ]
no_report_in_starts (s ∷ ss) message m = elim (Bool-cases s.was_running) [
  | inl e ↦ elim (Memᴰ.cases_cons (rw e at m)) [
    | inl q ↦ absurd (cc)
    | inr k ↦ no_report_in_starts ss message k
  ]
  | inr e ↦ no_report_in_starts ss message (rw e at m)
]

no_report :
    (debug_phase : BackupPhase → String) (message : String) {p : BackupPhase}
    → IsUsed p
    → ¬ Memᴰ (report_invariant_violation message) (crash_compensation debug_phase p)
unfolding crash_compensation service_actions
no_report debug_phase message used_idle m = elim m [ ]
no_report debug_phase message (used_restic {pre = pre}) (Memᴰ.head e) = cc
no_report debug_phase message (used_restic {pre = pre}) (Memᴰ.tail m) =
    no_report_in_starts pre message m
no_report debug_phase message used_retention (Memᴰ.head e) = cc
no_report debug_phase message used_retention (Memᴰ.tail m) = elim m [ ]
no_report debug_phase message used_verifying (Memᴰ.head e) = cc
no_report debug_phase message used_verifying (Memᴰ.tail m) = elim m [ ]

-- Whatever events come after a fresh start, the phase that the state is in at the end is one from
-- which recovery finds the services that it needs: it never reports that they were lost.
pub run_events-crash_compensation :
    (texts : Texts) (config : CratonConfig) (graph : DepGraph) (start_mono : ℕ)
    (es : List (Ctx × Event)) (message : String)
    → ¬ Memᴰ (report_invariant_violation message) (
        crash_compensation texts.debug_phase
          (run_events texts config graph es (new config start_mono)).0.backup_phase)
unfolding new
run_events-crash_compensation texts config graph start_mono es message =
    no_report texts.debug_phase message
      (run_events-IsUsed texts config graph es (new config start_mono) used_idle)

-- Under `if down`, the first branch.
taken : {A : Type 0} (down : Bool) (x y : A) → down ≡ true → (if down then x else y) ≡ x
taken true x y h = refl
taken false x y h = absurd (cc)

run_events_down :
    (texts : Texts) (config : CratonConfig) (graph : DepGraph) (es : List (Ctx × Event))
    (state : State)
    → state.shutting_down ≡ true
    → run_events texts config graph es state ≡ (state, [])
unfolding run_events reduce
run_events_down texts config graph [] state h = refl
run_events_down texts config graph ((ctx, event) ∷ es) state h =
    let stopped : reduce texts config graph ctx event state ≡ (state, []) =
      taken state.shutting_down (state, []) (handle texts config graph ctx event state) h in
    rw stopped (run_events_down texts config graph es state h)

-- The shutdown signal is final: after it no event changes the state or gives a command.
pub run_events-shutdown :
    (texts : Texts) (config : CratonConfig) (graph : DepGraph) (ctx : Ctx) (state : State)
    (es : List (Ctx × Event))
    → let down = (reduce texts config graph ctx (Event.signal SignalKind.shutdown) state).0 in
      run_events texts config graph es down ≡ (down, [])
unfolding reduce handle handle_shutdown
run_events-shutdown texts config graph ctx state es =
    run_events_down texts config graph es _ (signalled state.shutting_down refl)
  where
    signalled :
        (down : Bool)
        → state.shutting_down ≡ down
        → (if down then (state, []) else handle_shutdown state).0.shutting_down ≡ true
    signalled true e = e
    signalled false e = refl
