-- ===== src/Reduce/Remediation/Limits.antt =====
-- The records that the rate limit of the remediation actions counts.
use first_fork.Common.{
  ℕ, ◌≤◌, ◌≡◌, refl, true, Option, none, some, String, last?, arith, eq_iff, string_ord,
}
use first_fork.Model.{ServiceId, RemediationAction}
use first_fork.History.Window.{last-push}
use first_fork.Config.{CratonConfig}
use first_fork.State.{State, RemediationRecord}
use first_fork.Reduce.Base.{Ctx, Texts}
use first_fork.Reduce.Remediation.{action_name, same_target, counts_for, record_remediation}

-- The record that every handling of an action leaves.
abbrev pub entry_of :
    RemediationAction → Option ServiceId → String → Ctx → String → RemediationRecord
entry_of action target source ctx result = record {
  mono = ctx.mono_secs;
  action = action_name action;
  target = target;
  source = source;
  result = result;
  error = none;
}

module _ (texts : Texts) (config : CratonConfig) (ctx : Ctx) where
  pub last-record_remediation :
      (action : RemediationAction) (target : Option ServiceId) (source result : String)
      (state : State)
      → last? (record_remediation action target source result ctx state).remediation_log.items
        ≡ some (entry_of action target source ctx result)
  unfolding record_remediation
  last-record_remediation action target source result state =
      last-push state.remediation_log (entry_of action target source ctx result)

same_target_refl : (t : Option ServiceId) → same_target t t ≡ true
same_target_refl none = refl
same_target_refl (some a) = (eq_iff a a).1 refl

pub counts_own :
    (action : RemediationAction) (target : Option ServiceId) (source result : String) (ctx : Ctx)
    (cutoff : ℕ)
    → cutoff ≤ ctx.mono_secs
    → counts_for action target cutoff (entry_of action target source ctx result) ≡ true
counts_own action target source result ctx cutoff h =
    ground (arith, same_target_refl target, eq_iff (action_name action) (action_name action))
