-- ===== src/Policy/Recovery/Alerts.antt =====
-- policy/recovery.rs: the text of the alert that stands for all failed services.
use Prim.Native.String.{◌++◌ as text_append}
use first_fork.Common.{
  Bool, List, [], ◌∷◌, String, TreeMap, keys, join, show, length, if◌then◌else◌, ◌==◌, string_ord,
}
use first_fork.Model.{ServiceId}

abbrev first_or_empty : List ServiceId → String
first_or_empty [] = ""
first_or_empty (id ∷ _) = id

-- The names of the blocked services, or `other` if there are none.
abbrev blocked_names : List ServiceId → String → String → String
blocked_names [] prefix other = other
blocked_names (id ∷ is) prefix other = text_append prefix (join ", " (id ∷ is))

-- Title and body.
unfoldable pub coalesce_alert :
    List ServiceId → TreeMap ServiceId ServiceId → Bool → String × String
coalesce_alert root_causes blocked docker_root =
    if docker_root
    then (
      "🔴 Сбой Docker daemon",
      text_append "Корень: Docker daemon\nЗатронуты: "
          (text_append (blocked_names (keys blocked) "" "нет") "\nЗапущено восстановление Docker"),
    )
    else if length root_causes == 1
    then (
      text_append "🔴 " (text_append (first_or_empty root_causes) " не работает"),
      blocked_names (keys blocked) "Зависимые сервисы затронуты: "
          "Автоматическое восстановление не удалось",
    )
    else (
      text_append "🔴 " (text_append (show (length root_causes)) " сервисов не работают"),
      text_append "Не удалось восстановить: " (join ", " root_causes),
    )
