-- ===== src/Reduce/Base.antt =====
-- reduce.rs: the context of a call, and what all handlers share.
use first_fork.Common.{ℕ, List, String, insert, string_ord}
use first_fork.Model.{ServiceId, BackupPhase, Command, AlertPriority, send_alert}
use first_fork.Schedule.{WallClock}
use first_fork.State.{State, SvcState}

pub record Ctx : Type 0 where
  pub mono_secs : ℕ
  pub epoch_secs : ℕ
  pub wall : WallClock

-- Texts that are made outside the model: `{:?}` of a backup phase, which the compiler derives, and
-- `human_bytes`, which divides in `f64`.
pub record Texts : Type 0 where
  pub debug_phase : BackupPhase → String
  pub human_bytes : ℕ → String

-- The new state and the commands.
abbrev pub Step : Type 0
Step = State × List Command

-- A write to a service that is there.
abbrev pub put_service : ServiceId → SvcState → State → State
put_service sid svc state = record state { services = insert sid svc state.services }

abbrev pub alert : String → String → AlertPriority → String → Command
alert title body priority tags =
    send_alert (record { title = title; body = body; priority = priority; tags = tags })
