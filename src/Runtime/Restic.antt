-- ===== src/Runtime/Restic.antt =====
-- runtime.rs and reduce.rs together: how the threads that run `restic` move the backup on.
use first_fork.Common.{
  inl, inr, ◌≡◌, refl, ap, ◌∙◌, ℕ, Bool, true, false, Option, none, some, List, String, is_some,
  if◌then◌else◌, arith, Option-cases,
}
use first_fork.Model.{BackupPhase, EffectResult}
use first_fork.Config.{CratonConfig}
use first_fork.State.{State, alloc_cmd_id}
use first_fork.Reduce.Base.{Ctx}
use first_fork.Reduce.Backup.{handle_effect_completed, is_success, is_pending}
use first_fork.Reduce.Backup.Cycle.{phase_after, handle_effect_completed-phase}
use first_fork.Runtime.Machine.{Outside, World, spawn_restic}
use first_fork.Runtime.Frames.{IsApart, mark_degraded-frame}

abbrev waiting : State → BackupPhase × Option ℕ
waiting s = (s.backup_phase, s.backup_pending_cmd)

waiting-IsApart : IsApart waiting
unfolding IsApart
waiting-IsApart s reasons = refl

module _ (outside : Outside) (name : String) (argv : List String) (timeout : ℕ) (w : World) where
  abbrev spawned : World
  spawned = spawn_restic outside name argv timeout w

  spawn_restic-waiting : waiting spawned.state ≡ (
    w.state.backup_phase,
    if is_some (outside.spawn_error w.calls) then none else some w.state.next_cmd_id,
  )
  unfolding spawn_restic alloc_cmd_id
  spawn_restic-waiting = elim (Option-cases (outside.spawn_error w.calls)) [
    | inl e ↦ rw (e, spawn_restic) refl
    | inr (m, e) ↦ rw (e, spawn_restic) (mark_degraded-frame waiting waiting-IsApart _ _)
  ]

pending_if :
    (failed : Bool) (id : ℕ) (next same : BackupPhase)
    → (if is_pending (if failed then none else some id) id then next else same)
      ≡ (if failed then same else next)
pending_if true id next same = refl
pending_if false id next same = ground arith

-- The end of a `restic` command moves the backup on when its thread was started. When no thread could
-- be started, the end that the runtime reports in its place is not waited for any more, and the phase
-- stays as it is.
pub spawn_restic-phase :
    (outside : Outside) (config : CratonConfig) (ctx : Ctx) (name : String) (argv : List String)
    (timeout : ℕ) (w : World) (result : EffectResult)
    → let after = spawn_restic outside name argv timeout w in
      (handle_effect_completed config ctx w.state.next_cmd_id result after.state).0.backup_phase ≡ (
        if is_some (outside.spawn_error w.calls)
        then w.state.backup_phase
        else phase_after (is_success result) config.backup.verify w.state.backup_phase)
spawn_restic-phase outside config ctx name argv timeout w result =
    let after = spawn_restic outside name argv timeout w in
    let here = spawn_restic-waiting outside name argv timeout w in
    let phase = ap (λ p. p.0) here in
    let pending = ap (λ p. p.1) here in
    handle_effect_completed-phase config ctx w.state.next_cmd_id result after.state
    ∙ rw (phase, pending)
        (pending_if (is_some (outside.spawn_error w.calls)) w.state.next_cmd_id _ _)
