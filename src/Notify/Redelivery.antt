-- ===== src/Notify/Redelivery.antt =====
-- notify.rs: an alert is in the file before it is sent, and comes back when it was not sent.
use first_fork.Common.{
  inl, inr, ◌≡◌, refl, sym, ◌∙◌, ℕ, suc, ◌+◌, ◌<◌, true, false, not, some, List, [], ◌∷◌, Memᴰ,
  String, ok, length, arith, subst, filter-append, filter-mem, length-append,
}
use mathlib.Core.List.Memᴰ
use first_fork.Model.{Alert}
use first_fork.Notify.Outbox.{
  OutboxEntry, Outbox, append, compact_if_needed, persisted, load, collapse,
}
use first_fork.Notify.Compaction.{undelivered, compact_if_needed-mem, compact_if_needed-undelivered}
use first_fork.Notify.Restart.{
  ReadsBack, GivesValues, IsNewest, newest, newest_of_IsNewest, load-persisted,
}
use first_fork.Notify.Consumer.{
  NotifyConfig, Outside, Consumer, entry_for, deliver, store, outbox_max,
}
use first_fork.Notify.Delivery.{deliver-Kept}

-- All entries of this id are older than `now`.
unfoldable pub AllOlder : String → ℕ → Outbox → Type 0
AllOlder key now es = (x : OutboxEntry) → Memᴰ x es → x.id ≡ key → x.created_at < now

IsNewest-append :
    (e : OutboxEntry) (es : Outbox) → AllOlder e.id e.created_at es → IsNewest e (append e es)
unfolding AllOlder IsNewest append
IsNewest-append e es older x m same = elim (Memᴰ.append_cases es m) [
  | inl n ↦ inr (older x n same)
  | inr n ↦ inl (Memᴰ.eq_of_singleton n)
]

length-undelivered-append :
    (e : OutboxEntry) (es : Outbox)
    → e.delivered ≡ false
    → length (undelivered (append e es)) ≡ length (undelivered es) + 1
unfolding append
length-undelivered-append e es u = ground (
  arith,
  u,
  filter-append (λ x. not x.delivered) es (e ∷ []),
  length-append (undelivered es) (e ∷ []),
)

mem-append_new : (e : OutboxEntry) (es : Outbox) → Memᴰ e (append e es)
unfolding append
mem-append_new e es = Memᴰ.append_right es (Memᴰ.head refl)

IsNewest-subset :
    (e : OutboxEntry) {es fewer : Outbox}
    → ((x : OutboxEntry) → Memᴰ x fewer → Memᴰ x es)
    → IsNewest e es
    → IsNewest e fewer
unfolding IsNewest
IsNewest-subset e sub h x m same = h x (sub x m) same

module _ (outside : Outside) (config : NotifyConfig) where
  -- The outbox after the alert was stored: the new entry is in it, and the newest of its id.
  store-outbox :
      (key : String) (alert : Alert) (c : Consumer)
      → let entry = entry_for key alert (outside.epoch_secs c.calls) in
        length (undelivered c.outbox) < outbox_max
        → AllOlder key (outside.epoch_secs c.calls) c.outbox
        → let es = (store outside config key alert c).outbox in
          Memᴰ entry es × (newest key es ≡ some entry)
  unfolding store
  store-outbox key alert c room older =
      let entry = entry_for key alert (outside.epoch_secs c.calls) in
      let all = append entry c.outbox in
      let kept : Memᴰ entry (compact_if_needed outbox_max all).0 =
        compact_if_needed-undelivered outbox_max all
          (omega (arith, room, length-undelivered-append entry c.outbox refl)) refl
          (mem-append_new entry c.outbox) in
      let newest_one : IsNewest entry (compact_if_needed outbox_max all).0 =
        IsNewest-subset entry (λ x m. compact_if_needed-mem outbox_max all m)
          (IsNewest-append entry c.outbox older) in
      (kept, newest_of_IsNewest entry (compact_if_needed outbox_max all).0 newest_one kept)

  store-file :
      (key : String) (alert : Alert) (c : Consumer)
      → outside.write_ok (suc c.calls) ≡ true
      → let after = store outside config key alert c in
        after.file ≡ some (persisted outside.json after.outbox)
  unfolding store
  store-file key alert c w = rw w refl

  -- From the moment an alert is stored and through all attempts to send it, a start of the notifier
  -- would find it in the file, not delivered. Conditions: fewer than 256 entries are undelivered, the
  -- entries of the same id are older than the clock says, the write succeeds, the JSON library reads
  -- back what it writes and the map of `load` gives its values.
  pub store-deliver-durable :
      (attempts : List ℕ) (key : String) (alert : Alert) (c : Consumer)
      → length (undelivered c.outbox) < outbox_max
      → AllOlder key (outside.epoch_secs c.calls) c.outbox
      → outside.write_ok (suc c.calls) ≡ true
      → let stored = store outside config key alert c in
        ReadsBack outside.json stored.outbox
        → GivesValues outside.json (collapse stored.outbox [])
        → let during = (deliver outside config attempts key alert stored).0 in
          let entry = entry_for key alert (outside.epoch_secs c.calls) in
          Memᴰ entry (undelivered (load outside.json (ok during.file)))
  store-deliver-durable attempts key alert c room older w reads gives =
      let stored = store outside config key alert c in
      let entry = entry_for key alert (outside.epoch_secs c.calls) in
      let (kept, newest_one) = store-outbox key alert c room older in
      let loaded = (load-persisted outside.json stored.outbox reads gives entry).1 newest_one in
      let same =
        (deliver-Kept outside config attempts key alert stored).file ∙ store-file key alert c w in
      subst (λ f. Memᴰ entry (undelivered (load outside.json (ok f)))) (sym same)
        (filter-mem (λ x. not x.delivered) loaded refl)
