-- ===== src/Reduce/Tick/Summary.antt =====
-- reduce.rs: the daily summary, as a text.
use Prim.Native.String.{◌++◌ as text_append}
use first_fork.Common.{
  ℕ, Option, none, some, List, [], ◌∷◌, String, get, show, last?, if◌then◌else◌, string_ord,
}
use first_fork.Model.{Command, AlertPriority, publish_snapshot}
use first_fork.Config.{CratonConfig, ServiceEntry}
use first_fork.State.{State, BackupRecord, status_is_healthy}
use first_fork.Reduce.Base.{Texts, alert}

service_line : State → ServiceEntry → String
service_line state entry =
    let mark : String = elim (get entry.id state.services) [
      | none ↦ "❌"
      | some s ↦ if status_is_healthy s.status then "✅" else "❌"
    ] in
    text_append "  " (text_append mark (text_append " " (text_append entry.name "\n")))

service_lines : State → List ServiceEntry → String
unfolding service_line
service_lines state [] = ""
service_lines state (entry ∷ es) = text_append (service_line state entry) (service_lines state es)

or_zero : Option ℕ → ℕ
or_zero none = 0
or_zero (some n) = n

disk_lines : Texts → State → String
unfolding or_zero
disk_lines texts state = elim state.disk_usage_percent [
  | none ↦ ""
  | some usage ↦ text_append "\n💾 Диск: " (
      text_append (show usage) (
        text_append "% занято, "
          (text_append (texts.human_bytes (or_zero state.disk_free_bytes)) " свободно\n")))
]

backup_line : Option BackupRecord → String
backup_line none = "\n📦 Резервное копирование: нет данных\n"
backup_line (some b) =
    if b.success
    then "\n📦 Последнее резервное копирование: ✅ успешно\n"
    else text_append "\n📦 Последнее резервное копирование: ❌ "
        (text_append (elim b.error [ none ↦ "unknown" | some e ↦ e ]) "\n")

unfoldable pub build_daily_summary : Texts → CratonConfig → State → List Command
unfolding service_lines disk_lines backup_line
build_daily_summary texts config state =
    alert "📋 Ежедневная сводка"
      (text_append "📊 Сервисы:\n" (
        text_append (service_lines state config.services)
          (text_append (disk_lines texts state) (backup_line (last? state.backup_history.items)))))
      AlertPriority.min "memo"
    ∷ publish_snapshot
    ∷ []
