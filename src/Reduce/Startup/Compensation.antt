-- ===== src/Reduce/Startup/Compensation.antt =====
-- What recovery from an interrupted backup does.
use first_fork.Common.{
  ◌≡◌, ◌↔◌, inl, inr, true, none, some, List, [], ◌∷◌, ◌++◌, String, Memᴰ, Bool-cases, refl,
  string_ord,
}
use mathlib.Core.List.Memᴰ
use first_fork.Model.{
  ServiceId, ServiceSnapshot, BackupPhase, idle, services_stopping, restic_running, Command,
  start_service, pre_backup_services,
}
use first_fork.Policy.Backup.{CompensationAction, crash_compensation, starts, service_actions}
use first_fork.State.{State}
use first_fork.Reduce.Base.{Ctx, Texts}
use first_fork.Reduce.Startup.{compensate, compensate_all, announced, handle_startup_recovery}

-- A backup that was stopping its services or was running `restic`, with the services it noted and whether
-- they ran.
pub data Interrupted : BackupPhase → List ServiceSnapshot → Type 0 where
  while_stopping :
      {run_id : String} {pre : List ServiceSnapshot}
      → Interrupted (services_stopping run_id pre) pre
  while_running :
      {run_id : String} {pre : List ServiceSnapshot} → Interrupted (restic_running run_id pre) pre

-- The service ran when such a backup began.
abbrev pub WasRunning : BackupPhase → ServiceId → String → Type 0
WasRunning phase id unit =
    (pre : List ServiceSnapshot) × (s : ServiceSnapshot) × Interrupted phase pre
    × Memᴰ s pre
    × (s.was_running ≡ true)
    × (s.id ≡ id)
    × (s.unit ≡ unit)

Interrupted-noted :
    {phase : BackupPhase} {pre : List ServiceSnapshot}
    → Interrupted phase pre
    → pre_backup_services phase ≡ some pre
Interrupted-noted while_stopping = refl
Interrupted-noted while_running = refl

noted-Interrupted :
    (phase : BackupPhase) (pre : List ServiceSnapshot)
    → pre_backup_services phase ≡ some pre
    → Interrupted phase pre
noted-Interrupted (services_stopping r x) pre e = let same : x ≡ pre = cc in rw same while_stopping
noted-Interrupted (restic_running r x) pre e = let same : x ≡ pre = cc in rw same while_running
noted-Interrupted _ pre e = cc

mem-starts :
    (pre : List ServiceSnapshot) (id : ServiceId) (unit : String)
    → Memᴰ (CompensationAction.start_service id unit) (starts pre)
    → (s : ServiceSnapshot) × Memᴰ s pre × (s.was_running ≡ true) × (s.id ≡ id) × (s.unit ≡ unit)
mem-starts [] id unit m = elim m [ ]
mem-starts (s ∷ ss) id unit m = elim (Bool-cases s.was_running) [
  | inl e ↦ elim (Memᴰ.cases_cons (rw e at m)) [
    | inl q ↦ (s, Memᴰ.head refl, e, cc, cc)
    | inr k ↦ let (t, n, r, a, b) = mem-starts ss id unit k in (t, Memᴰ.tail n, r, a, b)
  ]
  | inr e ↦ let (t, n, r, a, b) = mem-starts ss id unit (rw e at m) in (t, Memᴰ.tail n, r, a, b)
]

starts-mem :
    (pre : List ServiceSnapshot) (s : ServiceSnapshot)
    → Memᴰ s pre
    → s.was_running ≡ true
    → Memᴰ (CompensationAction.start_service s.id s.unit) (starts pre)
starts-mem [] s m h = elim m [ ]
starts-mem (t ∷ ss) s (Memᴰ.head e) h =
    let r : t.was_running ≡ true = rw (← e) h in rw (r, e) (Memᴰ.head refl)
starts-mem (t ∷ ss) s (Memᴰ.tail m) h = elim (Bool-cases t.was_running) [
  | inl e ↦ rw e (Memᴰ.tail (starts-mem ss s m h))
  | inr e ↦ rw e (starts-mem ss s m h)
]

module _ (texts : Texts) (ctx : Ctx) (persisted : BackupPhase) where
  -- A start among the commands of a list of actions is one of the actions.
  mem-compensate_all :
      (actions : List CompensationAction) (state : State) (id : ServiceId) (unit : String)
      → Memᴰ (start_service id unit) (compensate_all texts ctx persisted actions state).1
      → Memᴰ (CompensationAction.start_service id unit) actions
  unfolding compensate_all compensate
  mem-compensate_all [] state id unit m = elim m [ ]
  mem-compensate_all (CompensationAction.restic_unlock ∷ more) state id unit m = elim m [
    | Memᴰ.head e ↦ absurd (cc)
    | Memᴰ.tail k ↦ Memᴰ.tail (mem-compensate_all more state id unit k)
  ]
  mem-compensate_all (CompensationAction.start_service j u ∷ more) state id unit m = elim m [
    | Memᴰ.head e ↦ Memᴰ.head (cc)
    | Memᴰ.tail k ↦ Memᴰ.tail (mem-compensate_all more state id unit k)
  ]
  mem-compensate_all (CompensationAction.report_invariant_violation x ∷ more) state id unit m =
      elim m [
        | Memᴰ.head e ↦ absurd (cc)
        | Memᴰ.tail k ↦ Memᴰ.tail (mem-compensate_all more state id unit k)
      ]
  mem-compensate_all (CompensationAction.reset_to_idle ∷ more) state id unit m = elim m [
    | Memᴰ.head e ↦ absurd (cc)
    | Memᴰ.tail k ↦ Memᴰ.tail (mem-compensate_all more _ id unit k)
  ]

  compensate_all-mem :
      (actions : List CompensationAction) (state : State) (id : ServiceId) (unit : String)
      → Memᴰ (CompensationAction.start_service id unit) actions
      → Memᴰ (start_service id unit) (compensate_all texts ctx persisted actions state).1
  unfolding compensate_all compensate
  compensate_all-mem [] state id unit m = elim m [ ]
  compensate_all-mem (CompensationAction.restic_unlock ∷ more) state id unit m = elim m [
    | Memᴰ.head e ↦ absurd (cc)
    | Memᴰ.tail k ↦ Memᴰ.tail (compensate_all-mem more state id unit k)
  ]
  compensate_all-mem (CompensationAction.start_service j u ∷ more) state id unit m = elim m [
    | Memᴰ.head e ↦ Memᴰ.head (cc)
    | Memᴰ.tail k ↦ Memᴰ.tail (compensate_all-mem more state id unit k)
  ]
  compensate_all-mem (CompensationAction.report_invariant_violation x ∷ more) state id unit m =
      elim m [
        | Memᴰ.head e ↦ absurd (cc)
        | Memᴰ.tail k ↦ Memᴰ.tail (compensate_all-mem more state id unit k)
      ]
  compensate_all-mem (CompensationAction.reset_to_idle ∷ more) state id unit m = elim m [
    | Memᴰ.head e ↦ absurd (cc)
    | Memᴰ.tail k ↦ Memᴰ.tail (compensate_all-mem more _ id unit k)
  ]

  mem-announced :
      (cmds : List Command) (id : ServiceId) (unit : String)
      → Memᴰ (start_service id unit) (announced texts ctx persisted cmds)
        ↔ Memᴰ (start_service id unit) cmds
  unfolding announced
  mem-announced [] id unit = (λ m. m, λ m. m)
  mem-announced (c ∷ cs) id unit = (
    λ m. elim (Memᴰ.append_cases (c ∷ cs) m) [
      | inl k ↦ k
      | inr (Memᴰ.head e) ↦ absurd (cc)
      | inr (Memᴰ.tail k) ↦ elim k [ ]
    ],
    λ m. Memᴰ.append_left _ m,
  )

lone : {x : CompensationAction} → ¬ Memᴰ x []
lone m = elim m [ ]

-- The starts of the services, with the reset behind them.
starts_then_reset :
    (pre : List ServiceSnapshot) (id : ServiceId) (unit : String)
    → Memᴰ
        (CompensationAction.start_service id unit)
        (starts pre ++ CompensationAction.reset_to_idle ∷ [])
    → Memᴰ (CompensationAction.start_service id unit) (starts pre)
starts_then_reset pre id unit m = elim (Memᴰ.append_cases (starts pre) m) [
  | inl k ↦ k
  | inr (Memᴰ.head e) ↦ absurd (cc)
  | inr (Memᴰ.tail k) ↦ elim k [ ]
]

no_snapshots :
    (phase : BackupPhase) {id : ServiceId} {unit : String}
    → pre_backup_services phase ≡ none
    → ¬ WasRunning phase id unit
no_snapshots phase h (pre, s, e, n, b, i, u) = let k = Interrupted-noted e in cc

WasRunning-starts :
    (phase : BackupPhase) (pre : List ServiceSnapshot) {id : ServiceId} {unit : String}
    → pre_backup_services phase ≡ some pre
    → WasRunning phase id unit
    → Memᴰ (CompensationAction.start_service id unit) (starts pre)
WasRunning-starts phase pre {id} {unit} h (pre', s, e, n, b, i, u) =
    let k = Interrupted-noted e in
    let p : pre ≡ pre' = cc in rw (← i, ← u, p) (starts-mem pre' s n b)

starts-WasRunning :
    (phase : BackupPhase) (pre : List ServiceSnapshot) {id : ServiceId} {unit : String}
    → pre_backup_services phase ≡ some pre
    → Memᴰ
        (CompensationAction.start_service id unit)
        (starts pre ++ CompensationAction.reset_to_idle ∷ [])
    → WasRunning phase id unit
starts-WasRunning phase pre {id} {unit} h m =
    let (s, n, b, i, u) = mem-starts pre id unit (starts_then_reset pre id unit m) in
    (pre, s, noted-Interrupted phase pre h, n, b, i, u)

-- The actions that a crash in `phase` asks for start exactly the services that ran before.
module _ (debug_phase : BackupPhase → String) where
  actions-WasRunning :
      (phase : BackupPhase) (id : ServiceId) (unit : String)
      → Memᴰ (CompensationAction.start_service id unit) (crash_compensation debug_phase phase)
        ↔ WasRunning phase id unit
  unfolding crash_compensation service_actions
  actions-WasRunning idle id unit = (λ m. elim m [ ], λ w. absurd (no_snapshots idle refl w))
  actions-WasRunning (BackupPhase.locked r) id unit = (
    λ m. elim m [ Memᴰ.head e ↦ absurd (cc) | Memᴰ.tail k ↦ elim k [ ] ],
    λ w. absurd (no_snapshots (BackupPhase.locked r) refl w),
  )
  actions-WasRunning (BackupPhase.restic_unlocking r) id unit = (
    λ m. elim m [
      | Memᴰ.head e ↦ absurd (cc)
      | Memᴰ.tail (Memᴰ.head e) ↦ absurd (cc)
      | Memᴰ.tail (Memᴰ.tail k) ↦ elim k [ ]
    ],
    λ w. absurd (no_snapshots (BackupPhase.restic_unlocking r) refl w),
  )
  actions-WasRunning (services_stopping r pre) id unit = (
    starts-WasRunning (services_stopping r pre) pre refl,
    λ w. Memᴰ.append_left _ (WasRunning-starts (services_stopping r pre) pre refl w),
  )
  actions-WasRunning (restic_running r pre) id unit = (
    (λ m. elim m [
      | Memᴰ.head e ↦ absurd (cc)
      | Memᴰ.tail k ↦ starts-WasRunning (restic_running r pre) pre refl k
    ]),
    λ w. Memᴰ.tail (Memᴰ.append_left _ (WasRunning-starts (restic_running r pre) pre refl w)),
  )
  actions-WasRunning (BackupPhase.services_starting r x) id unit = (
    λ m. elim m [
      | Memᴰ.head e ↦ absurd (cc)
      | Memᴰ.tail (Memᴰ.head e) ↦ absurd (cc)
      | Memᴰ.tail (Memᴰ.tail k) ↦ elim k [ ]
    ],
    λ w. absurd (no_snapshots (BackupPhase.services_starting r x) refl w),
  )
  actions-WasRunning (BackupPhase.services_verifying r x) id unit = (
    λ m. elim m [
      | Memᴰ.head e ↦ absurd (cc)
      | Memᴰ.tail (Memᴰ.head e) ↦ absurd (cc)
      | Memᴰ.tail (Memᴰ.tail k) ↦ elim k [ ]
    ],
    λ w. absurd (no_snapshots (BackupPhase.services_verifying r x) refl w),
  )
  actions-WasRunning (BackupPhase.retention_running r) id unit = (
    λ m. elim m [ Memᴰ.head e ↦ absurd (cc) | Memᴰ.tail k ↦ elim k [ ] ],
    λ w. absurd (no_snapshots (BackupPhase.retention_running r) refl w),
  )
  actions-WasRunning (BackupPhase.verifying r) id unit = (
    λ m. elim m [ Memᴰ.head e ↦ absurd (cc) | Memᴰ.tail k ↦ elim k [ ] ],
    λ w. absurd (no_snapshots (BackupPhase.verifying r) refl w),
  )

-- Recovery from a backup that was cut off while its services were being stopped or while `restic` ran starts
-- exactly the services that ran before. From any other phase it starts none, also from `ServicesStarting` with
-- the services that remain to be started.
pub handle_startup_recovery-starts :
    (texts : Texts) (ctx : Ctx) (persisted : BackupPhase) (state : State) (id : ServiceId)
    (unit : String)
    → Memᴰ (start_service id unit) (handle_startup_recovery texts ctx persisted state).1
      ↔ WasRunning persisted id unit
unfolding handle_startup_recovery
handle_startup_recovery-starts texts ctx persisted state id unit =
    let actions = crash_compensation texts.debug_phase persisted in
    let cmds = (compensate_all texts ctx persisted actions state).1 in
    let a = mem-announced texts ctx persisted cmds id unit in
    let b = actions-WasRunning texts.debug_phase persisted id unit in
    (
      λ m. b.0 (mem-compensate_all texts ctx persisted actions state id unit (a.0 m)),
      λ w. a.1 (compensate_all-mem texts ctx persisted actions state id unit (b.1 w)),
    )
