-- ===== src/Runtime/Startup.antt =====
-- runtime.rs: what the control loop does before its first turn: it finds out how it was started, loads
-- what was persisted, recovers from a crash, and observes the services once.
use Prim.Native.String.{◌++◌ as text_append}
use first_fork.Common.{
  ℕ, Option, none, some, List, [], ◌∷◌, String, Result, ok, err, TreeMap, keys, adjust, leb, show,
  length, is_blank, if◌then◌else◌, string_ord,
}
use first_fork.Model.{
  Command, ServiceId, BackupPhase, idle, is_idle, startup_probe_results, startup_recovery,
  AlertPriority,
}
use first_fork.Config.{CratonConfig}
use first_fork.Graph.{DepGraph}
use first_fork.State.{State, SvcState, Maintenance, is_in_maintenance}
use first_fork.State
use first_fork.Reduce.Base.{Texts}
use first_fork.Runtime.Snapshot.{
  StartupKind, unknown, classify_startup_kind, alert_title, alert_body,
}
use first_fork.Runtime.Machine.{Outside, World, queued, does, mark_runtime_degraded}
use first_fork.Runtime.Commands.{run_all_probes, reduce_at, execute_commands}

-- What the files say: the boot id of the kernel with `none` for an empty file, the boot id of the last
-- start, with `none` when it is missing or not readable, and the two JSON files, parsed.
pub record Files : Type 0 where
  pub current_boot_id : Result (Option String) String
  pub last_boot_id : Option String
  pub maintenance : Result (Option (TreeMap String Maintenance)) String
  pub backup_state : Result (Option (Option BackupPhase)) String
  pub legacy_backup_state : Result (Option (Option BackupPhase)) String

-- A blank boot id of the last start counts as none. That the current one is written is left out.
unfoldable pub detect_startup_kind : Files → StartupKind
unfolding classify_startup_kind is_blank
detect_startup_kind files = elim files.current_boot_id [
  | err e ↦ unknown
  | ok none ↦ unknown
  | ok (some current) ↦ elim files.last_boot_id [
    | none ↦ classify_startup_kind (some current) none
    | some previous ↦
        classify_startup_kind (some current) (if is_blank previous then none else some previous)
  ]
]

-- The loop over the entries: an entry that has expired, or whose service is not known, is dropped.
unfoldable pub load_entries :
    ℕ → TreeMap String Maintenance → TreeMap ServiceId SvcState → TreeMap ServiceId SvcState
load_entries now [] services = services
load_entries now ((id, maint) ∷ entries) services =
    if leb maint.until_mono now
    then load_entries now entries services
    else load_entries now entries
        (adjust id (λ svc. record svc { maintenance = some maint }) services)

unfoldable pub load_persisted_maintenance : Files → ℕ → State → State
unfolding load_entries
load_persisted_maintenance files now state = elim files.maintenance [
  | ok (some entries) ↦ record state { services = load_entries now entries state.services }
  | ok none ↦ state
  | err e ↦ state
]

-- A file that does not parse counts as an idle backup.
abbrev parsed_or_idle : Option BackupPhase → BackupPhase
parsed_or_idle none = idle
parsed_or_idle (some phase) = phase

unfoldable pub load_persisted_backup_phase : Files → BackupPhase
load_persisted_backup_phase files = elim files.backup_state [
  | ok (some phase) ↦ parsed_or_idle phase
  | err e ↦ idle
  | ok none ↦ elim files.legacy_backup_state [ ok (some phase) ↦ parsed_or_idle phase | _ ↦ idle ]
]

unfoldable pub emit_startup_signal : StartupKind → ℕ → World → World
unfolding alert_title alert_body
emit_startup_signal kind service_count w =
    does
      (queued (record {
        title = alert_title kind;
        body =
            text_append (alert_body kind)
              (text_append "\nСервисов под наблюдением: " (show service_count));
        priority = AlertPriority.default;
        tags = "white_check_mark";
      }))
      w

module _ (outside : Outside) (config : CratonConfig) (texts : Texts) (graph : DepGraph) where
  abbrev after_startup_probe : World × List Command → World
  after_startup_probe (w, []) = w
  after_startup_probe (w, c ∷ cs) = mark_runtime_degraded "startup_probe_emitted_commands" w

  unfoldable pub run_startup_probe_cycle : World → World
  run_startup_probe_cycle w = elim (keys w.state.services) [
    | [] ↦ w
    | sid ∷ sids ↦
        let (w1, results) = run_all_probes outside config (sid ∷ sids) w in
        after_startup_probe
          (reduce_at outside config texts graph (startup_probe_results results) w1)
  ]

  -- Crash recovery from the persisted phase, if it is not idle.
  unfoldable pub recover_backup : BackupPhase → World → Option World
  recover_backup persisted w =
      if is_idle persisted
      then some w
      else let (w1, cmds) = reduce_at outside config texts graph (startup_recovery persisted) w in
        execute_commands outside config texts graph 1 cmds w1

  -- Up to the first turn of the loop. Publishing the snapshot and the messages to systemd are left out.
  unfoldable pub start : Files → Option World
  start files =
      let mono_start = outside.mono_secs 0 in
      let state = load_persisted_maintenance files mono_start (State.new config mono_start) in
      let w : World = record { state = state; sent = []; workers = []; deeds = []; calls = 1 } in
      elim (recover_backup (load_persisted_backup_phase files) w) [
        | none ↦ none
        | some w1 ↦ some (
            emit_startup_signal (detect_startup_kind files) (length config.services)
              (run_startup_probe_cycle w1))
      ]
