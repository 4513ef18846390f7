-- ===== src/Runtime/Leased.antt =====
-- runtime.rs: what carrying out a command does to the leases.
use first_fork.Common.{
  inl, inr, ◌⊎◌, ◌≡◌, refl, sym, ap, ◌∙◌, ℕ, Bool, true, false, not, Option, none, some, List,
  String, TreeMap, get, get-remove, arith, Bool-cases, Option-cases, subst, str_eq, eq_iff, key_eq,
  key_eq_iff,
}
use mathlib.Core.Bool.{false≢true}
use first_fork.Model.{
  ServiceId, ResourceId, resource_ord, Command, run_probes, acquire_lease, release_lease,
}
use first_fork.Lease.{LeaseEntry, LeaseArbiter, acquire, force_release}
use first_fork.Lease.Exclusion.{get-acquired, next_entry}
use first_fork.Config.{CratonConfig}
use first_fork.State.{State, alloc_cmd_id}
use first_fork.Runtime.Machine.{
  Outside, World, exec_service_action, exec_start_service, exec_restic_unlock, exec_persist_backup,
  exec_update_llm_context, exec_persist_maintenance, spawn_restic,
}
use first_fork.Runtime.Frames.{
  IsApart, mark_degraded-frame, exec_command-frame, atomic_write-frame, spawn_detached-frame,
  exec_docker_restart-frame,
}
use first_fork.Runtime.Commands.{
  exec_backup, exec_forget, exec_check, exec_check_disk_usage, exec_trigger, execute_one,
}

abbrev pub held : ResourceId → World → Option LeaseEntry
held r w = get r w.state.leases.held

-- Commands on which the leases of `r` do not stay as they are, except for a lease that `holder` takes.
abbrev pub disturbs : ResourceId → String → Command → Bool
disturbs r holder (run_probes sids) = true
disturbs r holder (release_lease s) = key_eq r s
disturbs r holder (acquire_lease s h) = not (str_eq h holder)
disturbs r holder _ = false

abbrev leases : State → LeaseArbiter
leases s = s.leases

leases-IsApart : IsApart leases
unfolding IsApart
leases-IsApart s reasons = refl

module _ (outside : Outside) (r : ResourceId) (holder : String) where
  -- `holder` has the lease since some reading of the clock.
  unfoldable pub IsLeased : World → Type 0
  IsLeased w =
      (n : ℕ) × (held r w
        ≡ some (record { holder = holder; acquired_mono_secs = outside.mono_secs n }))

  -- Nobody has it, or `holder` does.
  unfoldable pub IsOurs : World → Type 0
  unfolding IsLeased
  IsOurs w = (held r w ≡ none) ⊎ IsLeased w

  IsLeased-same : (w w' : World) → w'.state.leases ≡ w.state.leases → IsLeased w → IsLeased w'
  unfolding IsLeased
  IsLeased-same w w' e (n, p) = (n, ap (λ a. get r a.held) e ∙ p)

  IsOurs-same : (w w' : World) → w'.state.leases ≡ w.state.leases → IsOurs w → IsOurs w'
  unfolding IsOurs
  IsOurs-same w w' e (inl p) = inl (ap (λ a. get r a.held) e ∙ p)
  IsOurs-same w w' e (inr l) = inr (IsLeased-same w w' e l)

  module _ (config : CratonConfig) (probes : List ServiceId → World → Option World) where
    -- Any command but these three leaves the leases alone.
    abbrev pub on_leases : Command → Bool
    on_leases (run_probes sids) = true
    on_leases (release_lease s) = true
    on_leases (acquire_lease s h) = true
    on_leases _ = false

    spawn_restic-leases :
        (name : String) (argv : List String) (timeout : ℕ) (w : World)
        → (spawn_restic outside name argv timeout w).state.leases ≡ w.state.leases
    unfolding spawn_restic alloc_cmd_id
    spawn_restic-leases name argv timeout w = elim (Option-cases (outside.spawn_error w.calls)) [
      | inl e ↦ rw (e, spawn_restic) refl
      | inr (m, e) ↦ rw (e, spawn_restic) (mark_degraded-frame leases leases-IsApart _ _)
    ]

    exec_check_disk_usage-leases :
        (w : World) → (exec_check_disk_usage outside config w).state.leases ≡ w.state.leases
    unfolding exec_check_disk_usage
    exec_check_disk_usage-leases w =
        elim (Option-cases (outside.disk_usage w.calls (outside.mono_secs w.calls))) [
          | inl e ↦ rw (e, exec_check_disk_usage) refl
          | inr (m, e) ↦ rw (e, exec_check_disk_usage) refl
        ]

    exec_trigger-leases :
        (event_type : String) (details : TreeMap String String) (w : World)
        → (exec_trigger outside config event_type details w).state.leases ≡ w.state.leases
    unfolding exec_trigger
    exec_trigger-leases event_type details w =
        elim (Bool-cases (str_eq config.ai.picoclaw_url "")) [
          | inl e ↦ rw (e, exec_trigger) refl
          | inr e ↦ rw (e, exec_trigger) refl
        ]

    -- What a command that is carried out without probes makes of the world.
    abbrev pub world_of : Option World → World → World
    world_of none w = w
    world_of (some w') w = w'

    -- A command that touches leases by itself, or none.
    lease_cases :
        (c : Command)
        → (on_leases c ≡ false)
          ⊎ ((s : ResourceId) × (k : String) × (c ≡ acquire_lease s k))
          ⊎ ((s : ResourceId) × (c ≡ release_lease s))
          ⊎ ((sids : List ServiceId) × (c ≡ run_probes sids))
    lease_cases (run_probes sids) = inr (inr (inr (sids, refl)))
    lease_cases (acquire_lease s k) = inr (inl (s, k, refl))
    lease_cases (release_lease s) = inr (inr (inl (s, refl)))
    lease_cases _ = inl refl

    execute_one-leases :
        (c : Command) (w : World)
        → on_leases c ≡ false
        → (world_of (execute_one outside config probes c w) w).state.leases ≡ w.state.leases
    unfolding execute_one exec_service_action exec_start_service exec_restic_unlock
        exec_persist_backup exec_update_llm_context exec_persist_maintenance exec_backup exec_forget
        exec_check
    execute_one-leases (run_probes sids) w h = ground (arith, h)
    execute_one-leases (acquire_lease s k) w h = ground (arith, h)
    execute_one-leases (release_lease s) w h = ground (arith, h)
    execute_one-leases (Command.restart_service a b c) w h =
        exec_command-frame leases leases-IsApart outside _ _ 30 w
    execute_one-leases (Command.stop_service a b c) w h =
        exec_command-frame leases leases-IsApart outside _ _ 30 w
    execute_one-leases (Command.start_service a b) w h =
        exec_command-frame leases leases-IsApart outside _ _ 30 w
    execute_one-leases (Command.restart_docker_daemon a) w h =
        exec_docker_restart-frame leases leases-IsApart outside w
    execute_one-leases Command.restic_unlock w h =
        exec_command-frame leases leases-IsApart outside _ _ 120 w
    execute_one-leases (Command.restic_backup a) w h = spawn_restic-leases "backup" _ 3600 w
    execute_one-leases (Command.restic_forget a b c) w h = spawn_restic-leases "forget" _ 600 w
    execute_one-leases (Command.restic_check a) w h = spawn_restic-leases "check" _ 1800 w
    execute_one-leases (Command.send_alert a) w h = refl
    execute_one-leases (Command.persist_backup_state a) w h =
        atomic_write-frame leases leases-IsApart outside _ _ w
    execute_one-leases Command.persist_maintenance w h =
        atomic_write-frame leases leases-IsApart outside _ _ w
    execute_one-leases Command.publish_snapshot w h = refl
    execute_one-leases (Command.run_disk_cleanup a) w h =
        spawn_detached-frame leases leases-IsApart outside _ _ w
    execute_one-leases Command.check_disk_usage w h = exec_check_disk_usage-leases w
    execute_one-leases Command.check_apt_updates w h =
        spawn_detached-frame leases leases-IsApart outside _ _ w
    execute_one-leases Command.check_docker_updates w h = refl
    execute_one-leases (Command.write_incident a) w h =
        spawn_detached-frame leases leases-IsApart outside _ _ w
    execute_one-leases Command.update_llm_context w h =
        atomic_write-frame leases leases-IsApart outside _ _ _
    execute_one-leases (Command.trigger_pico_claw a b) w h = exec_trigger-leases a b w
    execute_one-leases Command.notify_watchdog w h = refl
    execute_one-leases (Command.shutdown a) w h = refl

    -- What an acquisition by `holder` makes of a lease that nobody else has.

    acquire_ours :
        (w : World)
        → IsOurs w
        → (n : ℕ) × (get r (acquire w.state.leases r holder (outside.mono_secs w.calls)).0.held
            ≡ some (record { holder = holder; acquired_mono_secs = outside.mono_secs n }))
    unfolding IsOurs IsLeased next_entry
    acquire_ours w (inl p) =
        let q : key_eq r r ≡ true = (key_eq_iff r r).1 refl in
        (
          w.calls,
          get-acquired w.state.leases r r holder (outside.mono_secs w.calls) ∙ rw (q, p) refl,
        )
    acquire_ours w (inr (n, p)) =
        let q : key_eq r r ≡ true = (key_eq_iff r r).1 refl in
        let mine = (eq_iff holder holder).1 refl in
        (
          n,
          get-acquired w.state.leases r r holder (outside.mono_secs w.calls) ∙ rw (q, p, mine) refl,
        )

    acquire_other :
        (s : ResourceId) (w : World)
        → key_eq r s ≡ false
        → get r (acquire w.state.leases s holder (outside.mono_secs w.calls)).0.held ≡ held r w
    acquire_other s w q =
        get-acquired w.state.leases s r holder (outside.mono_secs w.calls) ∙ rw q refl

    unfoldable pub world_after : Command → World → World
    world_after c w = world_of (execute_one outside config probes c w) w

    -- The lease stays ours, and taken if it was taken.
    unfoldable pub Keeps : Command → World → Type 0
    Keeps c w = (IsOurs w → IsOurs (world_after c w)) × (IsLeased w → IsLeased (world_after c w))

    -- When the entry of `r` is the same as before.
    same_entry-Keeps : (c : Command) (w : World) → held r (world_after c w) ≡ held r w → Keeps c w
    unfolding Keeps IsOurs IsLeased
    same_entry-Keeps c w e = (
      λ ours. elim ours [ inl p ↦ inl (e ∙ p) | inr (n, p) ↦ inr (n, e ∙ p) ],
      λ (n, p). (n, e ∙ p),
    )

    acquire-Keeps : (s : ResourceId) (w : World) → Keeps (acquire_lease s holder) w
    unfolding world_after execute_one Keeps IsOurs IsLeased
    acquire-Keeps s w = elim (Bool-cases (key_eq r s)) [
      | inl q ↦
          subst (λ x. Keeps (acquire_lease x holder) w) ((key_eq_iff r s).0 q)
            (λ ours. inr (acquire_ours w ours), λ l. acquire_ours w (inr l))
      | inr q ↦ same_entry-Keeps (acquire_lease s holder) w (acquire_other s w q)
    ]

    release-Keeps : (s : ResourceId) (w : World) → key_eq r s ≡ false → Keeps (release_lease s) w
    unfolding world_after execute_one force_release
    release-Keeps s w q =
        same_entry-Keeps (release_lease s) w (get-remove s r w.state.leases.held ∙ rw q refl)

    leases-Keeps :
        (c : Command) (w : World) → (world_after c w).state.leases ≡ w.state.leases → Keeps c w
    leases-Keeps c w e = same_entry-Keeps c w (ap (λ a. get r a.held) e)

    pub acquire-IsLeased :
        (w : World) → IsOurs w → IsLeased (world_after (acquire_lease r holder) w)
    unfolding world_after execute_one IsLeased
    acquire-IsLeased w ours = acquire_ours w ours

    -- The lease stays ours, unless the command disturbs it.
    pub execute_one-Keeps : (c : Command) (w : World) → disturbs r holder c ≡ false → Keeps c w
    unfolding world_after
    execute_one-Keeps c w d = elim (lease_cases c) [
      | inl other ↦ leases-Keeps c w (execute_one-leases c w other)
      | inr (inl (s, k, e)) ↦
          let named : k ≡ holder = (eq_iff k holder).0 (ground (arith, rw e at d)) in
          subst (λ x. Keeps x w) (sym (rw (← named) e)) (acquire-Keeps s w)
      | inr (inr (inl (s, e))) ↦ subst (λ x. Keeps x w) (sym e) (release-Keeps s w (rw e at d))
      | inr (inr (inr (sids, e))) ↦ absurd (false≢true (sym (rw e at d)))
    ]
