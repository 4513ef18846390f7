-- ===== src/Notify/Delivery.antt =====
-- notify.rs: what `NotifyConsumer::run` does with each alert that comes.
use first_fork.Common.{
  inl, inr, ◌≡◌, refl, ap, ◌∙◌, ℕ, suc, ◌+◌, ◌%◌, Bool, true, false, List, [], ◌∷◌, String, u64_mod,
  length, arith, Bool-cases, Result-cases,
}
use first_fork.Model.{Alert}
use first_fork.Notify.Send.{send_ntfy}
use first_fork.Notify.Consumer.{
  NotifyConfig, Outside, Consumer, dedup_key, is_duplicate, deliver, store, settle, handle_alert,
  handle_alerts, count_duplicate,
}

-- What the attempts leave alone, and what a failure of all of them does not change.
pub record Kept (before after : Consumer) : Type 0 where
  pub outbox : after.outbox ≡ before.outbox
  pub sent : after.sent_count ≡ before.sent_count
  pub failed : after.failed_count ≡ before.failed_count
  pub dedup_count : after.dedup_count ≡ before.dedup_count
  pub overflow : after.overflow_flag ≡ before.overflow_flag
  pub file : after.file ≡ before.file

-- The alerts that were handled.
abbrev pub handled : Consumer → ℕ
handled c = (c.sent_count + c.failed_count + c.dedup_count) % u64_mod

module _ (outside : Outside) (config : NotifyConfig) where
  pub deliver-Kept :
      (retries : List ℕ) (key : String) (alert : Alert) (c : Consumer)
      → Kept c (deliver outside config retries key alert c).0
  unfolding deliver
  deliver-Kept [] key alert c = record {
    outbox = refl;
    sent = refl;
    failed = refl;
    dedup_count = refl;
    overflow = refl;
    file = refl;
  }
  deliver-Kept (d ∷ retries) key alert c =
      elim (Result-cases (send_ntfy (outside.exchange c.calls) config.ntfy_url alert)) [
        | inl (u, q) ↦
            rw (q, deliver)
              (record {
                outbox = refl;
                sent = refl;
                failed = refl;
                dedup_count = refl;
                overflow = refl;
                file = refl;
              })
        | inr (e, q) ↦
            let later = deliver-Kept retries key alert (record c { calls = suc c.calls }) in
            rw (q, deliver)
              (record {
                outbox = later.outbox;
                sent = later.sent;
                failed = later.failed;
                dedup_count = later.dedup_count;
                overflow = later.overflow;
                file = later.file;
              })
      ]

  settle-handled :
      (key : String) (before : Consumer) (attempted : Consumer × Bool)
      → Kept before attempted.0
      → handled (settle outside config key attempted) ≡ (handled before + 1) % u64_mod
  unfolding settle
  settle-handled key before (c, true) k = omega (arith, k.sent, k.failed, k.dedup_count)
  settle-handled key before (c, false) k = omega (arith, k.sent, k.failed, k.dedup_count)

  is_duplicate-handled :
      (key : String) (c : Consumer) → handled (is_duplicate outside config key c).0 ≡ handled c
  unfolding is_duplicate
  is_duplicate-handled key c = refl

  store-handled :
      (key : String) (alert : Alert) (c : Consumer)
      → handled (store outside config key alert c) ≡ handled c
  unfolding store
  store-handled key alert c = refl

  -- A round for an alert that was sent a short while ago, and one for any other alert.

  pub handle_alert-duplicate :
      (alert : Alert) (c : Consumer)
      → let checked = is_duplicate outside config (dedup_key outside config alert) c in
        checked.1 ≡ true → handle_alert outside config alert c ≡ count_duplicate checked.0
  unfolding handle_alert
  handle_alert-duplicate alert c q = rw q refl

  pub handle_alert-new :
      (alert : Alert) (c : Consumer)
      → let key = dedup_key outside config alert in
        let checked = is_duplicate outside config key c in
        checked.1 ≡ false
        → handle_alert outside config alert c
          ≡ settle outside config key (
              deliver outside config config.retries key alert
                (store outside config key alert checked.0))
  unfolding handle_alert
  handle_alert-new alert c q = rw q refl

  handle_alert-handled :
      (alert : Alert) (c : Consumer)
      → handled (handle_alert outside config alert c) ≡ (handled c + 1) % u64_mod
  handle_alert-handled alert c =
      let key = dedup_key outside config alert in
      let seen = (is_duplicate outside config key c).0 in
      let same = is_duplicate-handled key c in
      elim (Bool-cases (is_duplicate outside config key c).1) [
        | inl q ↦ ap handled (handle_alert-duplicate alert c q) ∙ omega (arith, same)
        | inr q ↦
            let stored = store outside config key alert seen in
            ap handled (handle_alert-new alert c q)
            ∙ settle-handled key stored (deliver outside config config.retries key alert stored)
                (deliver-Kept config.retries key alert stored)
            ∙ omega (arith, same, store-handled key alert seen)
      ]

-- Every alert that comes is counted exactly once, as sent, as failed or as a duplicate (the three
-- counters have 64 bits each).
pub handle_alerts-handled :
    (outside : Outside) (config : NotifyConfig) (alerts : List Alert) (c : Consumer)
    → handled (handle_alerts outside config alerts c) ≡ (handled c + length alerts) % u64_mod
unfolding handle_alerts
handle_alerts-handled outside config [] c = omega arith
handle_alerts-handled outside config (a ∷ alerts) c =
    handle_alerts-handled outside config alerts (handle_alert outside config a c)
    ∙ omega (arith, handle_alert-handled outside config a c)
