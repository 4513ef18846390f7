-- ===== src/Policy/Recovery/Single.antt =====
-- When one service is restarted: never where the policy forbids it, and always where it does not.
use first_fork.Common.{
  ℕ, ◌+◌, ◌%◌, ◌^◌, ◌∙◌, sym, ◌≤◌, ◌≡◌, ◌≢◌, ◌⊎◌, ◌↔◌, inl, inr, refl, ◌&&◌, ◌==◌, ltb, Bool, true,
  false, Option, none, some, String, TreeMap, get, string_ord, Bool-cases, arith,
}
use first_fork.Model.{
  ServiceId, ServiceKind, docker_systemd, Severity, info, warning, critical, ProbeResult,
  ProbeError, is_healthy, BreakerState, closed, open_until, half_open, max_restart_attempts,
}
use first_fork.Breaker.{allows_recovery}
use first_fork.Config.{ServiceEntry}
use first_fork.State.{ServiceStatus, Maintenance, SvcState, is_in_maintenance}
use first_fork.Policy.Recovery.{restart, evaluate_single, is_docker, current_attempt, cooling_down}

-- The probe found the service unhealthy.
pub data Failed : ProbeResult → Type 0 where
  failed_with :
      {id : ServiceId} {error : ProbeError} {at : ℕ} → Failed (ProbeResult.unhealthy id error at)

-- No maintenance is noted that lasts beyond `now`.
abbrev pub InService : Option Maintenance → ℕ → Type 0
InService none now = Unit {0}
InService (some m) now = m.until_mono ≤ now

-- The breaker is not open, or its deadline has come.
abbrev pub Lets : BreakerState → ℕ → Type 0
Lets (open_until until trips) now = until ≤ now
Lets _ now = Unit {0}

-- There was no restart, or a whole cooldown has passed since the last one; without a cooldown nothing is waited for.
abbrev pub Rested : Option ℕ → (cooldown now : ℕ) → Type 0
Rested none cooldown now = Unit {0}
Rested (some last) cooldown now = (last + cooldown ≤ now) ⊎ (cooldown ≡ 0)

-- The restarts that a severity allows.
abbrev pub allowed : Severity → ℕ
allowed info = 1
allowed warning = 2
allowed critical = 3

-- The attempt that follows a status: one more than the attempts or failures in a row that it counts.
abbrev pub attempt_after : ServiceStatus → ℕ
attempt_after (ServiceStatus.recovering attempt since) = (attempt + 1) % 2 ^ 32
attempt_after (ServiceStatus.unhealthy since error consecutive) = (consecutive + 1) % 2 ^ 32
attempt_after _ = 1

attempt_after_lem : (s : ServiceStatus) → current_attempt s ≡ attempt_after s
attempt_after_lem (ServiceStatus.recovering a since) = omega arith
attempt_after_lem (ServiceStatus.unhealthy since e n) = omega arith
attempt_after_lem _ = refl

-- Nothing stands in the way of a restart.
pub record MayRestart (sid : ServiceId) (probe : ProbeResult) (state : SvcState)
    (config : ServiceEntry) (blocked : TreeMap ServiceId ServiceId) (docker : Bool) (now : ℕ)
    : Type 0 where
  pub unwell : Failed probe
  pub in_service : InService state.maintenance now
  pub unblocked : get sid blocked ≡ none
  pub not_docker : (docker ≡ false) ⊎ (config.kind ≢ docker_systemd)
  pub breaker_allows : Lets state.breaker now
  pub cooled : Rested state.last_restart_mono config.restart_cooldown_secs now
  pub attempts_left : attempt_after state.status ≤ allowed config.severity

Failed-is_healthy : (probe : ProbeResult) → Failed probe ↔ (is_healthy probe ≡ false)
Failed-is_healthy (ProbeResult.healthy id at) = (λ f. elim f [ ], λ h. cc)
Failed-is_healthy (ProbeResult.unhealthy id error at) = (λ f. refl, λ h. failed_with)

InService-is_in_maintenance :
    (s : SvcState) (now : ℕ) → InService s.maintenance now ↔ (is_in_maintenance s now ≡ false)
unfolding is_in_maintenance
InService-is_in_maintenance s now = cases s.maintenance
  where
    cases :
        (m : Option Maintenance)
        → InService m now ↔ ((elim m [ none ↦ false | some m ↦ ltb now m.until_mono ]) ≡ false)
    cases none = (λ h. refl, λ h. tt)
    cases (some m) = (λ h. ground (arith, h), λ h. ground (arith, h))

Lets-allows_recovery : (b : BreakerState) (now : ℕ) → Lets b now ↔ (allows_recovery b now ≡ true)
unfolding allows_recovery
Lets-allows_recovery closed now = (λ h. refl, λ h. tt)
Lets-allows_recovery (open_until u t) now = (λ h. ground (arith, h), λ h. ground (arith, h))
Lets-allows_recovery (half_open k t) now = (λ h. refl, λ h. tt)

Rested-cooling_down :
    (last : Option ℕ) (cooldown now : ℕ)
    → Rested last cooldown now ↔ (cooling_down last cooldown now ≡ false)
Rested-cooling_down none cooldown now = (λ h. refl, λ h. tt)
Rested-cooling_down (some last) cooldown now = (
  λ h. elim h [ inl a ↦ ground (arith, a) | inr b ↦ ground (arith, b) ],
  λ h. elim (Bool-cases (cooldown == 0)) [
    | inl q ↦ inr (ground (arith, q))
    | inr q ↦ inl (ground (arith, h, q))
  ],
)

allowed_lem : (s : Severity) → max_restart_attempts s ≡ allowed s
unfolding max_restart_attempts
allowed_lem info = refl
allowed_lem warning = refl
allowed_lem critical = refl

NotDocker-is_docker :
    (docker : Bool) (kind : ServiceKind)
    → ((docker ≡ false) ⊎ (kind ≢ docker_systemd)) ↔ ((docker && is_docker kind) ≡ false)
NotDocker-is_docker false kind = (λ h. refl, λ h. inl refl)
NotDocker-is_docker true docker_systemd =
    (λ h. elim h [ inl e ↦ cc | inr ne ↦ absurd (ne refl) ], λ h. cc)
NotDocker-is_docker true ServiceKind.systemd = (λ h. refl, λ h. inr (λ e. cc))
NotDocker-is_docker true ServiceKind.virtual = (λ h. refl, λ h. inr (λ e. cc))

module _ (sid : ServiceId) (probe : ProbeResult) (state : SvcState) (config : ServiceEntry)
    (blocked : TreeMap ServiceId ServiceId) (docker : Bool) (now : ℕ) where
  -- The guards, as `evaluate_single` tests them.
  Guards : Type 0
  Guards =
      (is_healthy probe ≡ false)
      × (is_in_maintenance state now ≡ false)
      × (get sid blocked ≡ none)
      × ((docker && is_docker config.kind) ≡ false)
      × (allows_recovery state.breaker now ≡ true)
      × (cooling_down state.last_restart_mono config.restart_cooldown_secs now ≡ false)
      × (current_attempt state.status ≤ max_restart_attempts config.severity)

  Guards-MayRestart : Guards ↔ MayRestart sid probe state config blocked docker now
  unfolding Guards
  Guards-MayRestart = (
    λ (a, b, c, d, e, f, g). record {
      unwell = (Failed-is_healthy probe).1 a;
      in_service = (InService-is_in_maintenance state now).1 b;
      unblocked = c;
      not_docker = (NotDocker-is_docker docker config.kind).1 d;
      breaker_allows = (Lets-allows_recovery state.breaker now).1 e;
      cooled = (Rested-cooling_down state.last_restart_mono config.restart_cooldown_secs now).1 f;
      attempts_left = rw (allowed_lem config.severity, attempt_after_lem state.status) at g;
    },
    λ m. (
      (Failed-is_healthy probe).0 m.unwell,
      (InService-is_in_maintenance state now).0 m.in_service,
      m.unblocked,
      (NotDocker-is_docker docker config.kind).0 m.not_docker,
      (Lets-allows_recovery state.breaker now).0 m.breaker_allows,
      (Rested-cooling_down state.last_restart_mono config.restart_cooldown_secs now).0 m.cooled,
      rw (allowed_lem config.severity, attempt_after_lem state.status) m.attempts_left,
    ),
  )

  restart-Guards :
      (unit : String) (attempt : ℕ) (severity : Severity)
      → (evaluate_single sid probe state config blocked docker now ≡ restart unit attempt severity)
        ↔ (Guards
            × (unit ≡ config.unit)
            × (attempt ≡ current_attempt state.status)
            × (severity ≡ config.severity))
  unfolding evaluate_single Guards
  restart-Guards unit attempt severity = (
    λ h. (
      (
        ground arith,
        ground arith,
        ground arith,
        ground arith,
        ground arith,
        ground arith,
        ground arith,
      ),
      ground arith,
      ground arith,
      ground arith,
    ),
    λ h. ground arith,
  )

  -- A service is restarted exactly when its probe failed, no maintenance lasts beyond now, no dependency blocks
  -- it, it is not a Docker unit while Docker is down, its breaker is not open or its deadline has come, a whole
  -- cooldown has passed since its last restart, and the number of the attempt is within the one, two or three that
  -- its severity allows; then with its unit and the attempt that follows its status. The time since the daemon
  -- started is not looked at.
  pub evaluate_single-restart :
      (unit : String) (attempt : ℕ) (severity : Severity)
      → (evaluate_single sid probe state config blocked docker now ≡ restart unit attempt severity)
        ↔ (MayRestart sid probe state config blocked docker now
            × (unit ≡ config.unit)
            × (attempt ≡ attempt_after state.status)
            × (severity ≡ config.severity))
  evaluate_single-restart unit attempt severity =
      let (from, to) = restart-Guards unit attempt severity in
      let (up, down) = Guards-MayRestart in
      let number = attempt_after_lem state.status in
      (
        λ h. let (g, u, a, v) = from h in (up g, u, a ∙ number, v),
        λ (m, u, a, v). to (down m, u, a ∙ sym number, v),
      )
