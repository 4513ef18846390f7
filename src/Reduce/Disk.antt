-- ===== src/Reduce/Disk.antt =====
-- reduce.rs: a sample of the disk, and what is done about it.
pub mod Thresholds
use Prim.Native.String.{◌++◌ as text_append}
use first_fork.Common.{ℕ, Option, none, some, List, [], ◌∷◌, ◌++◌, String, show}
use first_fork.Model.{DiskSample, Command, run_disk_cleanup, AlertPriority}
use first_fork.History.{push}
use first_fork.Config.{CratonConfig}
use first_fork.Policy.Disk.{DiskDecision, ok, warning, critical, cleanup_level, evaluate}
use first_fork.State.{State}
use first_fork.Reduce.Base.{Texts, Step, alert}

abbrev or_zero : Option ℕ → ℕ
or_zero none = 0
or_zero (some n) = n

module _ (texts : Texts) where
  abbrev disk_body : ℕ → Option ℕ → String → String
  disk_body usage free tail = text_append "Использование: " (
      text_append (show usage)
        (text_append "%\nСвободно: " (text_append (texts.human_bytes (or_zero free)) tail)))

  abbrev pub disk_alerts : DiskDecision → Option ℕ → List Command
  disk_alerts ok free = []
  disk_alerts (warning usage) free =
      alert "⚠\u{fe0f} Диск заполняется" (disk_body usage free "\nЗапущена стандартная очистка")
        AlertPriority.high "warning"
      ∷ []
  disk_alerts (critical usage) free =
      alert "🔴 Диск критически заполнен" (disk_body usage free "\nЗапущена агрессивная очистка")
        AlertPriority.urgent "rotating_light"
      ∷ []

  abbrev pub cleanup_commands : DiskDecision → List Command
  cleanup_commands d = elim (cleanup_level d) [
    | none ↦ []
    | some level ↦ run_disk_cleanup level ∷ []
  ]

  unfoldable pub evaluate_disk : CratonConfig → State → List Command
  evaluate_disk config state = elim state.disk_usage_percent [
    | none ↦ []
    | some usage ↦
        let decision = evaluate usage config.disk.warn_percent config.disk.critical_percent in
        cleanup_commands decision ++ disk_alerts decision state.disk_free_bytes
  ]

  unfoldable pub handle_disk_sample : CratonConfig → DiskSample → State → Step
  unfolding evaluate_disk
  handle_disk_sample config sample state =
      let state' = record state {
        disk_usage_percent = some sample.usage_percent;
        disk_free_bytes = some sample.free_bytes;
        disk_samples = push state.disk_samples sample;
      } in
      (state', evaluate_disk config state')
