-- ===== src/Notify/Consumer.antt =====
-- notify.rs: `DedupCache` and `NotifyConsumer::run`, which first replays what the outbox still holds
-- and then delivers the alerts of its channel. The clocks, the network, the file system, the hash and
-- the JSON library are parameters; `calls` numbers the questions put to them.
use first_fork.Common.{
  ℕ, suc, ◌+◌, Bool, true, false, not, Option, none, some, List, [], ◌∷◌, String, Result, ok, err,
  TreeMap, get, insert, filter, ltb, add64, if◌then◌else◌, string_ord,
}
use Prim.Native.String.{◌++◌ as text_append}
use first_fork.Model.{Alert}
use first_fork.Notify.Outbox.{
  OutboxEntry, Outbox, append, mark_delivered, compact_if_needed, Json, load, persisted,
}
use first_fork.Notify.Send.{
  NotifyRuntimeState, record_delivery_success, record_delivery_failure, Exchange, send_ntfy,
}

abbrev pub outbox_max : ℕ
outbox_max = 256

-- The queue's size concerns the channel, which is not modelled.
pub record NotifyConfig : Type 0 where
  pub ntfy_url : String
  pub retries : List ℕ
  pub dedup_ttl : ℕ

-- For each call: the monotonic clock, the wall clock, the network, and whether a write succeeds.
pub record Outside : Type 0 where
  pub instant : ℕ → ℕ
  pub epoch_secs : ℕ → ℕ
  pub exchange : ℕ → Exchange
  pub write_ok : ℕ → Bool
  pub hex_sha256 : String → String
  pub json : Json

-- The entry of an alert that comes in.
abbrev pub entry_for : String → Alert → ℕ → OutboxEntry
entry_for key alert now = record { id = key; alert = alert; created_at = now; delivered = false }

-- When each delivered alert may be sent again.
abbrev pub DedupCache : Type 0
DedupCache = TreeMap String ℕ

unfoldable pub evict_expired : ℕ → DedupCache → DedupCache
evict_expired now [] = []
evict_expired now ((key, expires) ∷ m) =
    if ltb now expires then (key, expires) ∷ evict_expired now m else evict_expired now m

-- The locals of `run`, the shared flag and health, and the file of the outbox.
pub record Consumer : Type 0 where
  pub outbox : Outbox
  pub dedup : DedupCache
  pub sent_count : ℕ
  pub failed_count : ℕ
  pub dedup_count : ℕ
  pub runtime_state : NotifyRuntimeState
  pub overflow_flag : Bool
  pub file : Option String
  pub calls : ℕ

abbrev pub count_sent : Consumer → Consumer
count_sent c = record c { sent_count = add64 c.sent_count 1 }

abbrev pub count_duplicate : Consumer → Consumer
count_duplicate c = record c { dedup_count = add64 c.dedup_count 1 }

abbrev pub mark : String → Consumer → Consumer
mark id c = record c { outbox = mark_delivered id c.outbox }

module _ (outside : Outside) (config : NotifyConfig) where
  unfoldable pub dedup_key : Alert → String
  dedup_key alert = outside.hex_sha256 (text_append alert.title (text_append "\0" alert.body))

  -- `is_duplicate` reads the clock twice, once to drop what has expired.
  unfoldable pub is_duplicate : String → Consumer → Consumer × Bool
  is_duplicate key c =
      let kept = evict_expired (outside.instant c.calls) c.dedup in
      (
        record c { dedup = kept; calls = suc (suc c.calls) },
        elim (get key kept) [
          | none ↦ false
          | some expires ↦ ltb (outside.instant (suc c.calls)) expires
        ],
      )

  -- `dedup.record` and `record_delivery_success`.
  abbrev pub record_sent : String → Consumer → Consumer
  record_sent key c = record c {
    dedup = insert key (outside.instant c.calls + config.dedup_ttl) c.dedup;
    runtime_state = record_delivery_success (outside.epoch_secs (suc c.calls)) c.runtime_state;
    calls = suc (suc c.calls);
  }

  -- The loop over the retries: it stops at the first success.
  unfoldable pub deliver : List ℕ → String → Alert → Consumer → Consumer × Bool
  deliver [] key alert c = (c, false)
  deliver (delay ∷ retries) key alert c =
      let c1 = record c { calls = suc c.calls } in
      let later = deliver retries key alert c1 in
      elim (send_ntfy (outside.exchange c.calls) config.ntfy_url alert) [
        | ok u ↦ (record_sent key c1, true)
        | err e ↦ later
      ]

  abbrev pub count_failed : Consumer → Consumer
  count_failed c = record c {
    failed_count = add64 c.failed_count 1;
    runtime_state = record_delivery_failure (outside.epoch_secs c.calls) c.runtime_state;
    calls = suc c.calls;
  }

  -- A write that fails leaves the file as it was.
  abbrev pub persist : Consumer → Consumer
  persist c = record c {
    file = if outside.write_ok c.calls then some (persisted outside.json c.outbox) else c.file;
    calls = suc c.calls;
  }

  -- What the main loop does before it sends: the alert is in the outbox, and the outbox in the file.
  unfoldable pub store : String → Alert → Consumer → Consumer
  store key alert c =
      let entry = entry_for key alert (outside.epoch_secs c.calls) in
      let (entries, lost) = compact_if_needed outbox_max (append entry c.outbox) in
      persist (record c {
        outbox = entries;
        overflow_flag = if lost then true else c.overflow_flag;
        calls = suc c.calls;
      })

  -- What follows the attempts.
  unfoldable pub settle : String → Consumer × Bool → Consumer
  settle key (c, true) = persist (mark key (count_sent c))
  settle key (c, false) = count_failed c

  -- One round of the main loop.
  unfoldable pub handle_alert : Alert → Consumer → Consumer
  handle_alert alert c =
      let key = dedup_key alert in
      let (seen, duplicate) = is_duplicate key c in
      if duplicate
      then count_duplicate seen
      else settle key (deliver config.retries key alert (store key alert seen))

  unfoldable pub handle_alerts : List Alert → Consumer → Consumer
  handle_alerts [] c = c
  handle_alerts (a ∷ alerts) c = handle_alerts alerts (handle_alert a c)

  unfoldable pub settle_replay : String → Consumer × Bool → Consumer
  settle_replay id (c, true) = count_sent (mark id c)
  settle_replay id (c, false) = count_failed c

  -- One round of the replay.
  unfoldable pub replay_one : OutboxEntry → Consumer → Consumer
  replay_one entry c =
      let (seen, duplicate) = is_duplicate entry.id c in
      if duplicate
      then count_duplicate seen
      else settle_replay entry.id (deliver config.retries entry.id entry.alert seen)

  unfoldable pub replay_each : List OutboxEntry → Consumer → Consumer
  replay_each [] c = c
  replay_each (e ∷ es) c = replay_each es (replay_one e c)

  unfoldable pub replay : Consumer → Consumer
  replay c = elim (filter (λ e. not e.delivered) c.outbox) [
    | [] ↦ c
    | e ∷ es ↦ persist (replay_each (e ∷ es) c)
  ]

  -- What `run` starts from: the outbox that the file holds, with the health and the flag it shares.
  unfoldable pub starting :
      Result (Option String) String → NotifyRuntimeState → Bool → Option String → Consumer
  starting read health overflow file = record {
    outbox = load outside.json read;
    dedup = [];
    sent_count = 0;
    failed_count = 0;
    dedup_count = 0;
    runtime_state = health;
    overflow_flag = overflow;
    file = file;
    calls = 0;
  }

  -- `run` until the channel is closed, when the alerts that came are these.
  unfoldable pub run :
      Result (Option String) String
      → NotifyRuntimeState
      → Bool
      → Option String
      → List Alert
      → Consumer
  run read health overflow file alerts =
      handle_alerts alerts (replay (starting read health overflow file))
