-- ===== src/Policy/Disk.antt =====
-- policy/disk.rs: what to do about the usage of the disk. `predict` computes a regression in `f64`,
-- which the reducer never calls, and is not modelled.
use first_fork.Common.{ℕ, Option, none, some, leb, if◌then◌else◌}
use first_fork.Model.{CleanupLevel, standard, aggressive}

pub data DiskDecision : Type 0 where
  ok : DiskDecision
  warning : (usage_percent : ℕ) → DiskDecision
  critical : (usage_percent : ℕ) → DiskDecision

unfoldable pub cleanup_level : DiskDecision → Option CleanupLevel
cleanup_level ok = none
cleanup_level (warning _) = some standard
cleanup_level (critical _) = some aggressive

unfoldable pub evaluate : (usage_percent warn critical : ℕ) → DiskDecision
evaluate usage warn crit =
    if leb crit usage then critical usage else if leb warn usage then warning usage else ok
