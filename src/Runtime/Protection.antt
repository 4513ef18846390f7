-- ===== src/Runtime/Protection.antt =====
-- runtime.rs and reduce.rs together: the services that a backup stops are leased once its commands
-- are carried out, and a probe cycle leaves them alone.
use first_fork.Common.{
  inl, inr, ◌≡◌, refl, sym, ap, ◌∙◌, ℕ, ◌+◌, ◌≤◌, ◌<◌, true, false, Option, none, some, List, [],
  ◌∷◌, String, get, any, any-append, arith, Bool-cases, Option-cases, subst, Memᴰ, eq_iff,
}
use mathlib.Core.List.Memᴰ
use mathlib.Core.Bool.{false≢true}
use first_fork.Model.{
  ServiceId, ResourceId, resource_ord, backup_repo, service, ProbeResult, Command, acquire_lease,
  restart_service,
}
use first_fork.Lease.{LeaseArbiter, is_free}
use first_fork.Config.{CratonConfig, ServiceEntry, backup_stop_services}
use first_fork.Graph.{DepGraph}
use first_fork.State.{State}
use first_fork.Reduce.Base.{Ctx, Texts}
use first_fork.Reduce.Backup.{start_backup, stop_commands, run_id_at}
use first_fork.Reduce.Backup.Leases.{start_backup-leases}
use first_fork.Reduce.Probes.{handle_probes}
use first_fork.Reduce.Probes.Cycle.{handle_probes-Justified}
use first_fork.Runtime.Machine.{Outside, World}
use first_fork.Runtime.Commands.{execute_one, execute_list, execute_commands}
use first_fork.Runtime.Leased.{
  held, disturbs, IsLeased, IsOurs, Keeps, world_after, execute_one-Keeps, acquire-IsLeased,
}

module _ (outside : Outside) (r : ResourceId) (holder : String) (config : CratonConfig)
    (probes : List ServiceId → World → Option World) where
  abbrev step : Command → World → World
  step c w = world_after outside r holder config probes c w

  abbrev Ours : World → Type 0
  Ours w = IsOurs outside r holder w

  abbrev Leased : World → Type 0
  Leased w = IsLeased outside r holder w

  -- The list goes on from the world after its first command.
  execute_list-cons :
      (c : Command) (cs : List Command) (w : World) {w' : World}
      → execute_list outside config probes (c ∷ cs) w ≡ some w'
      → execute_list outside config probes cs (step c w) ≡ some w'
  unfolding execute_list world_after
  execute_list-cons c cs w h = elim (Option-cases (execute_one outside config probes c w)) [
    | inl q ↦ ground (arith, rw (q, execute_list) at h)
    | inr (v, q) ↦ rw q (rw (q, execute_list) at h)
  ]

  execute_list-Leased :
      (cmds : List Command) (w : World) {w' : World}
      → any (disturbs r holder) cmds ≡ false
      → execute_list outside config probes cmds w ≡ some w'
      → Leased w
      → Leased w'
  unfolding execute_list Keeps
  execute_list-Leased [] w {w'} d h l = let e : w ≡ w' = cc in subst Leased e l
  execute_list-Leased (c ∷ cs) w d h l =
      let quiet : disturbs r holder c ≡ false = ground (arith, d) in
      execute_list-Leased cs (step c w) (ground (arith, d)) (execute_list-cons c cs w h)
        ((execute_one-Keeps outside r holder config probes c w quiet).1 l)

  -- A list that takes the lease, and does nothing to it but that, leaves it taken.
  execute_list-takes :
      (cmds : List Command) (w : World) {w' : World}
      → any (disturbs r holder) cmds ≡ false
      → execute_list outside config probes cmds w ≡ some w'
      → Memᴰ (acquire_lease r holder) cmds
      → Ours w
      → Leased w'
  unfolding Keeps
  execute_list-takes [] w d h m ours = elim m [ ]
  execute_list-takes (c ∷ cs) w d h m ours =
      let quiet : disturbs r holder c ≡ false = ground (arith, d) in
      let rest : any (disturbs r holder) cs ≡ false = ground (arith, d) in
      elim (Memᴰ.cases_cons m) [
        | inl e ↦ execute_list-Leased cs (step c w) rest (execute_list-cons c cs w h) (
            subst (λ x. Leased (step x w)) e
              (acquire-IsLeased outside r holder config probes w ours))
        | inr n ↦
            execute_list-takes cs (step c w) rest (execute_list-cons c cs w h) n
              ((execute_one-Keeps outside r holder config probes c w quiet).0 ours)
      ]

stop_commands-undisturbed :
    (r : ResourceId) (run_id : String) (es : List ServiceEntry)
    → any (disturbs r run_id) (stop_commands run_id es) ≡ false
unfolding stop_commands
stop_commands-undisturbed r run_id [] = refl
stop_commands-undisturbed r run_id (e ∷ es) =
    ground (arith, (eq_iff run_id run_id).1 refl, stop_commands-undisturbed r run_id es)

start_backup-undisturbed :
    (r : ResourceId) (config : CratonConfig) (ctx : Ctx) (state : State)
    → is_free state.leases backup_repo ctx.mono_secs ≡ true
    → any (disturbs r (run_id_at ctx)) (start_backup config ctx state).1 ≡ false
unfolding start_backup
start_backup-undisturbed r config ctx state free =
    let run = run_id_at ctx in
    let stops = stop_commands run (backup_stop_services config) in
    rw
      (
        free,
        (eq_iff run run).1 refl,
        any-append (disturbs r run) stops,
        stop_commands-undisturbed r run (backup_stop_services config),
      )
      refl

start_backup-same_leases :
    (config : CratonConfig) (ctx : Ctx) (state : State)
    → (start_backup config ctx state).0.leases ≡ state.leases
unfolding start_backup
start_backup-same_leases config ctx state =
    elim (Bool-cases (is_free state.leases backup_repo ctx.mono_secs)) [
      | inl e ↦ rw e refl
      | inr e ↦ rw e refl
    ]

not_free :
    (leases : LeaseArbiter) (r : ResourceId) (now since : ℕ) (holder : String)
    → get r leases.held ≡ some (record { holder = holder; acquired_mono_secs = since })
    → now < since + leases.max_ttl_secs
    → 0 < leases.max_ttl_secs
    → is_free leases r now ≡ false
unfolding is_free
not_free leases r now since holder h early lasting =
    rw (h, is_free) (ground (arith, early, lasting))

-- After the commands that start a backup are carried out, a probe cycle orders no restart of a service
-- that the backup stops, whatever the probes say. Conditions: the repository was free, nobody had a
-- lease on the service, the clock never goes back behind `since`, and the time to live of leases taken
-- since then is not 0 and has not run out.
pub start_backup-protects :
    (outside : Outside) (config : CratonConfig) (texts : Texts) (graph : DepGraph) (ctx : Ctx)
    (state : State) (e : ServiceEntry) (w w' : World) (since : ℕ)
    → is_free state.leases backup_repo ctx.mono_secs ≡ true
    → Memᴰ e (backup_stop_services config)
    → get (service e.id) state.leases.held ≡ none
    → w.state ≡ (start_backup config ctx state).0
    → execute_commands outside config texts graph 1 (start_backup config ctx state).1 w ≡ some w'
    → ((n : ℕ) → since ≤ outside.mono_secs n)
    → (later : Ctx) (results : List ProbeResult) (unit reason : String)
    → later.mono_secs < since + w'.state.leases.max_ttl_secs
    → 0 < w'.state.leases.max_ttl_secs
    → ¬ Memᴰ
        (restart_service e.id unit reason)
        (handle_probes config graph later results w'.state).1
unfolding execute_commands IsOurs IsLeased
start_backup-protects outside config texts graph ctx state e w w' since free m unleased start done
      clock later results unit reason early lasting order =
    let run = run_id_at ctx in
    let acquired = (start_backup-leases config ctx state e free m).1 in
    let before : held (service e.id) w ≡ none =
      ap (λ s. get (service e.id) s.leases.held) start
      ∙ ap (λ a. get (service e.id) a.held) (start_backup-same_leases config ctx state)
      ∙ unleased in
    let (n, taken) =
      execute_list-takes outside (service e.id) run config _ (start_backup config ctx state).1 w
        (start_backup-undisturbed (service e.id) config ctx state free) done acquired
        (inl before) in
    let closed =
      not_free w'.state.leases (service e.id) later.mono_secs (outside.mono_secs n) run taken
        (omega (arith, early, clock n)) lasting in
    let just = handle_probes-Justified config graph later results w'.state e.id unit reason order in
    false≢true (sym closed ∙ just.lease_free)
