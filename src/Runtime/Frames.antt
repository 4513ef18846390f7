-- ===== src/Runtime/Frames.antt =====
-- runtime.rs: what the executors of single commands leave alone.
use first_fork.Common.{
  inl, inr, ◌≡◌, refl, ◌∙◌, ℕ, Bool, true, false, List, String, any, str_eq, Bool-cases,
  Option-cases,
}
use first_fork.State.{State, mark_degraded}
use first_fork.Runtime.Machine.{
  Outside, World, Deed, exec_command, atomic_write, exec_docker_restart, spawn_detached,
  degraded_if, exec_failed,
}

-- A part of the state that is not the list of reasons why it is degraded.
unfoldable pub IsApart {ℓ} : {B : Type ℓ} → (State → B) → Type ℓ
IsApart f = (s : State) (reasons : List String) → f (record s { degraded_reasons = reasons }) ≡ f s

module _ {ℓ} {B : Type ℓ} (f : State → B) (apart : IsApart f) where
  pub mark_degraded-frame : (s : State) (reason : String) → f (mark_degraded s reason) ≡ f s
  unfolding mark_degraded IsApart
  mark_degraded-frame s reason =
      elim (Bool-cases (any (λ existing. str_eq existing reason) s.degraded_reasons)) [
        | inl e ↦ rw (e, mark_degraded) refl
        | inr e ↦ rw (e, mark_degraded) (apart s _)
      ]

  degraded_if-frame :
      (bad : Bool) (reason : String) (w : World) → f (degraded_if bad reason w).state ≡ f w.state
  degraded_if-frame true reason w = mark_degraded-frame w.state reason
  degraded_if-frame false reason w = refl

  module _ (outside : Outside) where
    pub exec_command-frame :
        (reason : String) (argv : List String) (timeout : ℕ) (w : World)
        → f (exec_command outside reason argv timeout w).state ≡ f w.state
    unfolding exec_command
    exec_command-frame reason argv timeout w =
        degraded_if-frame (exec_failed (outside.exec w.calls argv timeout)) reason _

    pub atomic_write-frame :
        (deed : Deed) (reason : String) (w : World)
        → f (atomic_write outside deed reason w).state ≡ f w.state
    unfolding atomic_write
    atomic_write-frame deed reason w = elim (Bool-cases (outside.write_ok w.calls)) [
      | inl e ↦ rw (e, atomic_write) refl
      | inr e ↦ rw (e, atomic_write) (mark_degraded-frame w.state reason)
    ]

    pub spawn_detached-frame :
        (deed : Deed) (reason : String) (w : World)
        → f (spawn_detached outside deed reason w).state ≡ f w.state
    unfolding spawn_detached
    spawn_detached-frame deed reason w = elim (Option-cases (outside.spawn_error w.calls)) [
      | inl e ↦ rw (e, spawn_detached) refl
      | inr (m, e) ↦ rw (e, spawn_detached) (mark_degraded-frame w.state reason)
    ]

    pub exec_docker_restart-frame :
        (w : World) → f (exec_docker_restart outside w).state ≡ f w.state
    unfolding exec_docker_restart
    exec_docker_restart-frame w =
        exec_command-frame "docker_start_failed" _ 30 _
        ∙ exec_command-frame "docker_kill_failed" _ 15 w
