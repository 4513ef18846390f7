-- ===== src/Notify/Tests.antt =====
-- Runs of the notifier, and its theorems at concrete inputs.
use first_fork.Common.{
  inl, inr, ◌↔◌, ◌≡◌, refl, sym, ap, ℕ, ◌+◌, ◌%◌, true, false, Option, none, some, List, [], ◌∷◌,
  Memᴰ, String, ok, err, TreeMap, get, length, str_eq, if◌then◌else◌, arith, Bool-cases, subst,
  string_ord, key_eq, is_blank, u64_mod, ltb, insert, sort_by_key, strip_prefix, parse_u16,
}
use mathlib.Core.List.Memᴰ
use first_fork.Model.{Alert, high}
use first_fork.Notify.Outbox.{
  OutboxEntry, Outbox, Json, append, compact_if_needed, evict, evict_one, remove_delivered,
  collapse, load, persisted, mark_delivered,
}
use first_fork.Notify.Send.{new, send_ntfy}
use first_fork.Notify.Compaction.{undelivered, smaller, compact_if_needed-counts}
use first_fork.Notify.Restart.{ReadsBack, GivesValues, newest, load-persisted}
use first_fork.Notify.Consumer.{
  NotifyConfig, Outside, Consumer, entry_for, deliver, store, handle_alerts, handle_alert,
  is_duplicate, dedup_key, settle, evict_expired,
}
use first_fork.Notify.Delivery.{handled, handle_alerts-handled}
use first_fork.Notify.Redelivery.{AllOlder, store-deliver-durable}

abbrev disk_alert : Alert
disk_alert = record { title = "disk"; body = "full"; priority = high; tags = "warning" }

abbrev delivered_before : OutboxEntry
delivered_before = record { id = "k"; alert = disk_alert; created_at = 5; delivered = true }

abbrev waiting : ℕ → OutboxEntry
waiting at = entry_for "k" disk_alert at

abbrev line_of : OutboxEntry → String
line_of e = if e.delivered then "{old}" else "{new}"

abbrev read_line : String → Option OutboxEntry
read_line s =
    if str_eq s "{old}"
    then some delivered_before
    else if str_eq s "{new}"
    then some (waiting 9)
    else none

abbrev values : TreeMap String OutboxEntry → List OutboxEntry
values [] = []
values ((k, e) ∷ m) = e ∷ values m

abbrev two_lines : Json
two_lines = record { from_str = read_line; to_string = λ e. ok (line_of e); into_values = values }

-- The network answers from the sixth call on.
abbrev outside : Outside
outside = record {
  instant = λ n. n;
  epoch_secs = λ n. 9;
  exchange = λ n address request. if ltb n 5 then err "refused" else ok "HTTP/1.1 200 OK";
  write_ok = λ n. true;
  hex_sha256 = λ s. "k";
  json = two_lines;
}

abbrev config : NotifyConfig
config = record { ntfy_url = "http://127.0.0.1:8090/a"; retries = 0 ∷ 1 ∷ []; dedup_ttl = 60 }

abbrev consumer : Consumer
consumer = record {
  outbox = delivered_before ∷ [];
  dedup = [];
  sent_count = 0;
  failed_count = 0;
  dedup_count = 0;
  runtime_state = new;
  overflow_flag = false;
  file = none;
  calls = 0;
}

compact_if_needed-counts_example :
    let es = waiting 7 ∷ delivered_before ∷ waiting 3 ∷ [] in
    let compacted = compact_if_needed 1 es in
    (length compacted.0 ≡ smaller (length es) 1)
    × (length (undelivered compacted.0) ≡ smaller (length (undelivered es)) 1)
    × (compacted.1 ≡ ltb 1 (length (undelivered es)))
compact_if_needed-counts_example =
    compact_if_needed-counts 1 (waiting 7 ∷ delivered_before ∷ waiting 3 ∷ [])

-- The newer of the two undelivered entries is kept, and the loss of the other reported.
compaction_keeps_the_newest :
    compact_if_needed 1 (waiting 7 ∷ delivered_before ∷ waiting 3 ∷ []) ≡ (waiting 7 ∷ [], true)
unfolding compact_if_needed evict evict_one remove_delivered sort_by_key
compaction_keeps_the_newest = refl

handle_alerts-handled_example :
    handled (handle_alerts outside config (disk_alert ∷ disk_alert ∷ []) consumer)
    ≡ (handled consumer + length (disk_alert ∷ disk_alert ∷ [])) % u64_mod
handle_alerts-handled_example =
    handle_alerts-handled outside config (disk_alert ∷ disk_alert ∷ []) consumer

abbrev both : Outbox
both = delivered_before ∷ waiting 9 ∷ []

both-ReadsBack : ReadsBack two_lines both
unfolding ReadsBack is_blank
both-ReadsBack e m = elim (Memᴰ.cases_cons m) [
  | inl p ↦ rw p ("{old}", refl, refl, refl, refl, refl)
  | inr n ↦ rw (Memᴰ.eq_of_singleton n) ("{new}", refl, refl, refl, refl, refl)
]

both-GivesValues : GivesValues two_lines (collapse both [])
unfolding GivesValues collapse get insert
both-GivesValues e = (
  λ m. rw (Memᴰ.eq_of_singleton m) ("k", refl),
  λ found. elim (Bool-cases (key_eq found.0 "k")) [
    | inl q ↦ let p : waiting 9 ≡ e = ground (arith, found.1, q) in Memᴰ.head (sym p)
    | inr q ↦ ground (arith, found.1, q)
  ],
)

load-persisted_example :
    Memᴰ (waiting 9) (load two_lines (ok (some (persisted two_lines both))))
    ↔ (newest "k" both ≡ some (waiting 9))
load-persisted_example = load-persisted two_lines both both-ReadsBack both-GivesValues (waiting 9)

stored : (store outside config "k" disk_alert consumer).outbox ≡ both
unfolding store append compact_if_needed
stored = refl

only_older : AllOlder "k" 9 (delivered_before ∷ [])
unfolding AllOlder
only_older x m same =
    let p : x.created_at ≡ 5 = ap (λ y. y.created_at) (Memᴰ.eq_of_singleton m) in omega (arith, p)

store-deliver-durable_example :
    let during =
      (deliver outside config
        (0 ∷ [])
        "k"
        disk_alert
        (store outside config "k" disk_alert consumer)).0 in
    Memᴰ (waiting 9) (undelivered (load two_lines (ok during.file)))
store-deliver-durable_example =
    store-deliver-durable outside config (0 ∷ []) "k" disk_alert consumer (omega arith) only_older
      refl (subst (ReadsBack two_lines) (sym stored) both-ReadsBack)
      (subst (λ es. GivesValues two_lines (collapse es [])) (sym stored) both-GivesValues)

-- The first attempt fails, the second one gets through, and the entry is marked.
alert_delivered :
    let after = handle_alert outside config disk_alert (record consumer { outbox = [] }) in
    (after.sent_count ≡ 1) × (undelivered after.outbox ≡ [])
unfolding handle_alert is_duplicate dedup_key settle deliver store send_ntfy strip_prefix parse_u16
    evict_expired get append compact_if_needed persisted mark_delivered insert
alert_delivered = (refl, refl)

-- When an earlier alert of the same id is still waiting, that one is marked, and the new one, which
-- was sent, stays undelivered.
new_one_stays_undelivered :
    let after =
      handle_alert outside config disk_alert (record consumer { outbox = waiting 5 ∷ [] }) in
    (after.sent_count ≡ 1) × (undelivered after.outbox ≡ waiting 9 ∷ [])
unfolding handle_alert is_duplicate dedup_key settle deliver store send_ntfy strip_prefix parse_u16
    evict_expired get append compact_if_needed persisted mark_delivered insert
new_one_stays_undelivered = (refl, refl)
