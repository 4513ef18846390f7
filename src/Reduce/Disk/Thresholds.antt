-- ===== src/Reduce/Disk/Thresholds.antt =====
-- When a sample of the disk starts a cleanup.
use first_fork.Common.{ℕ, ◌≤◌, ◌<◌, ◌≡◌, ◌⊎◌, ◌↔◌, some, Option, ◌++◌, Memᴰ, arith}
use first_fork.Model.{DiskSample, run_disk_cleanup, CleanupLevel, standard, aggressive}
use first_fork.Config.{CratonConfig}
use first_fork.Policy.Disk.{DiskDecision, ok, warning, critical, cleanup_level, evaluate}
use first_fork.State.{State}
use first_fork.Reduce.Base.{Texts}
use first_fork.Reduce.Disk.{handle_disk_sample, cleanup_commands, disk_alerts, evaluate_disk}

-- A cleanup among the commands of a decision is the one of its level.
mem-decision :
    (texts : Texts) (d : DiskDecision) (free : Option ℕ) (level : CleanupLevel)
    → Memᴰ (run_disk_cleanup level) (cleanup_commands texts d ++ disk_alerts texts d free)
      ↔ (cleanup_level d ≡ some level)
unfolding cleanup_level
mem-decision texts ok free level = (λ m. elim m [ ], λ h. cc)
mem-decision texts (warning u) free level = (
  λ m. elim m [
    | Memᴰ.head e ↦ cc
    | Memᴰ.tail (Memᴰ.head e) ↦ absurd (cc)
    | Memᴰ.tail (Memᴰ.tail k) ↦ elim k [ ]
  ],
  λ h. Memᴰ.head (cc),
)
mem-decision texts (critical u) free level = (
  λ m. elim m [
    | Memᴰ.head e ↦ cc
    | Memᴰ.tail (Memᴰ.head e) ↦ absurd (cc)
    | Memᴰ.tail (Memᴰ.tail k) ↦ elim k [ ]
  ],
  λ h. Memᴰ.head (cc),
)

level_of_usage :
    (usage warn crit : ℕ) (level : CleanupLevel)
    → (cleanup_level (evaluate usage warn crit) ≡ some level) ↔ (
        ((level ≡ aggressive) × (crit ≤ usage))
        ⊎ ((level ≡ standard) × (warn ≤ usage) × (usage < crit)))
unfolding cleanup_level evaluate
level_of_usage usage warn crit aggressive = ground arith
level_of_usage usage warn crit standard = ground arith

-- A sample starts an aggressive cleanup exactly from the critical usage on, and a standard one
-- exactly between the warning and the critical usage, whatever is leased or backed up at the time.
pub handle_disk_sample-cleanup :
    (texts : Texts) (config : CratonConfig) (sample : DiskSample) (state : State)
    (level : CleanupLevel)
    → Memᴰ (run_disk_cleanup level) (handle_disk_sample texts config sample state).1 ↔ (
        ((level ≡ aggressive) × (config.disk.critical_percent ≤ sample.usage_percent))
        ⊎ ((level ≡ standard)
            × (config.disk.warn_percent ≤ sample.usage_percent)
            × (sample.usage_percent < config.disk.critical_percent)))
unfolding handle_disk_sample evaluate_disk
handle_disk_sample-cleanup texts config sample state level =
    let d = evaluate sample.usage_percent config.disk.warn_percent config.disk.critical_percent in
    let a = mem-decision texts d (some sample.free_bytes) level in
    let b =
      level_of_usage sample.usage_percent config.disk.warn_percent config.disk.critical_percent
        level in
    (λ m. b.0 (a.0 m), λ h. a.1 (b.1 h))
