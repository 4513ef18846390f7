-- ===== src/Notify/Restart.antt =====
-- notify.rs: what `Outbox::load` makes of a file that `Outbox::persist` wrote.
use first_fork.Common.{
  inl, inr, ◌⊎◌, ◌↔◌, ◌≡◌, refl, sym, ◌<◌, ◌≤◌, ap, true, false, Option, none, some, [], ◌∷◌, Memᴰ,
  String, ok, TreeMap, get, get-insert, key_eq_iff, leb, str_eq, eq_iff, if◌then◌else◌, arith,
  mem-sort_by_key, lines, lines-nil, lines-append, lacks, is_blank, string_ord, Bool-cases,
  Option-cases, subst,
}
use Prim.Native.String.{◌++◌ as text_append}
use mathlib.Core.List.Memᴰ
use first_fork.Notify.Outbox.{
  OutboxEntry, Outbox, collapse_one, collapse, Json, parse_lines, load, persisted,
}

-- The newer of two entries; the first one when they are equally old.
unfoldable pub newer : Option OutboxEntry → OutboxEntry → OutboxEntry
newer none e = e
newer (some x) e = if leb e.created_at x.created_at then x else e

unfoldable pub newest_from : Option OutboxEntry → String → Outbox → Option OutboxEntry
newest_from best id [] = best
newest_from best id (e ∷ es) =
    newest_from (if str_eq e.id id then some (newer best e) else best) id es

-- The newest entry of an id, the first of them in the outbox when several are.
abbrev pub newest : String → Outbox → Option OutboxEntry
newest id es = newest_from none id es

-- The JSON library writes each of these entries on one line that is not blank, and reads it back.
unfoldable pub ReadsBack : Json → Outbox → Type 0
ReadsBack json es =
    (e : OutboxEntry)
    → Memᴰ e es
    → (line : String) × (json.to_string e ≡ ok line)
      × (json.from_str line ≡ some e)
      × (lacks b'\n' line ≡ true)
      × (lacks b'\r' line ≡ true)
      × (is_blank line ≡ false)

-- The values of the map are given, and nothing else.
unfoldable pub GivesValues : Json → TreeMap String OutboxEntry → Type 0
GivesValues json m =
    (e : OutboxEntry) → Memᴰ e (json.into_values m) ↔ ((k : String) × (get k m ≡ some e))

get-collapse_one :
    (id : String) (e : OutboxEntry) (m : TreeMap String OutboxEntry)
    → get id (collapse_one e m) ≡ (if str_eq e.id id then some (newer (get id m) e) else get id m)
unfolding collapse_one newer
get-collapse_one id e m = elim (Option-cases (get e.id m)) [
  | inl q ↦ ground (arith, q, get-insert e.id id e m, key_eq_iff id e.id, eq_iff e.id id)
  | inr (x, q) ↦ ground (arith, q, get-insert e.id id e m, key_eq_iff id e.id, eq_iff e.id id)
]

get-collapse :
    (id : String) (es : Outbox) (m : TreeMap String OutboxEntry)
    → get id (collapse es m) ≡ newest_from (get id m) id es
unfolding collapse newest_from
get-collapse id [] m = refl
get-collapse id (e ∷ es) m =
    rw (get-collapse id es (collapse_one e m), get-collapse_one id e m) refl

newest_from-id :
    (best : Option OutboxEntry) (id : String) (es : Outbox) {e : OutboxEntry}
    → newest_from best id es ≡ some e
    → (e.id ≡ id) ⊎ (best ≡ some e)
unfolding newest_from newer
newest_from-id best id [] h = inr h
newest_from-id none id (x ∷ es) {e} h = elim (Bool-cases (str_eq x.id id)) [
  | inl q ↦ elim (newest_from-id (some x) id es (rw q at h)) [
    | inl r ↦ inl r
    | inr r ↦ inl (ground (arith, r, q, eq_iff x.id id))
  ]
  | inr q ↦ newest_from-id none id es (rw q at h)
]
newest_from-id (some b) id (x ∷ es) {e} h = elim (Bool-cases (str_eq x.id id)) [
  | inl q ↦ elim (newest_from-id (some (newer (some b) x)) id es (rw q at h)) [
    | inl r ↦ inl r
    | inr r ↦ ground (arith, r, q, eq_iff x.id id)
  ]
  | inr q ↦ newest_from-id (some b) id es (rw q at h)
]

persisted-nil : (json : Json) → persisted json [] ≡ ""
unfolding persisted
persisted-nil json = refl

persisted-cons :
    (json : Json) (e : OutboxEntry) (es : Outbox) {line : String}
    → json.to_string e ≡ ok line
    → persisted json (e ∷ es) ≡ text_append line (text_append "\n" (persisted json es))
unfolding persisted
persisted-cons json e es q = rw (q, persisted) refl

parse_lines-persisted :
    (json : Json) (es : Outbox)
    → ReadsBack json es
    → parse_lines json (lines (persisted json es)) ≡ es
unfolding parse_lines ReadsBack
parse_lines-persisted json [] h = rw (persisted-nil json, lines-nil) refl
parse_lines-persisted json (e ∷ es) h =
    let (line, written, read, no_end, no_return, not_blank) = h e (Memᴰ.head refl) in
    rw
      (
        persisted-cons json e es written,
        lines-append line (persisted json es) no_end no_return,
        not_blank,
        read,
        parse_lines-persisted json es (λ x m. h x (Memᴰ.tail m)),
      )
      refl

-- Loading what was persisted gives, for each id, the newest of its entries, and nothing else, when
-- the JSON library reads back what it writes and the map gives its values.
pub load-persisted :
    (json : Json) (es : Outbox)
    → ReadsBack json es
    → GivesValues json (collapse es [])
    → (e : OutboxEntry)
    → Memᴰ e (load json (ok (some (persisted json es)))) ↔ (newest e.id es ≡ some e)
unfolding load GivesValues get
load-persisted json es reads gives e =
    let kept = mem-sort_by_key (λ x. x.created_at) (json.into_values (collapse es [])) in
    rw (parse_lines-persisted json es reads) (
      λ m.
          let (k, g) = (gives e).0 (kept.0 m) in
          let found : newest k es ≡ some e = rw (get-collapse k es []) at g in
          elim (newest_from-id none k es found) [
            | inl same ↦ subst (λ j. newest j es ≡ some e) (sym same) found
            | inr none_is ↦ ground (arith, none_is)
          ],
      λ found. kept.1 ((gives e).1 (e.id, rw (get-collapse e.id es []) found)),
    )

-- So old, if there is an entry at all.
IsOlder : OutboxEntry → Option OutboxEntry → Type 0
IsOlder e none = Unit {0}
IsOlder e (some b) = b.created_at < e.created_at

-- The entry is newer than all others of its id.
unfoldable pub IsNewest : OutboxEntry → Outbox → Type 0
IsNewest e es =
    (x : OutboxEntry) → Memᴰ x es → x.id ≡ e.id → (x ≡ e) ⊎ (x.created_at < e.created_at)

newer-stays : (e x : OutboxEntry) → x.created_at ≤ e.created_at → newer (some e) x ≡ e
unfolding newer
newer-stays e x h = ground arith

newer-first : (e : OutboxEntry) (best : Option OutboxEntry) → IsOlder e best → newer best e ≡ e
unfolding newer IsOlder
newer-first e none o = refl
newer-first e (some b) o = ground arith

newer-IsOlder :
    (e x : OutboxEntry) (best : Option OutboxEntry)
    → IsOlder e best
    → x.created_at < e.created_at
    → IsOlder e (some (newer best x))
unfolding newer IsOlder
newer-IsOlder e x none o h = h
newer-IsOlder e x (some b) o h = ground arith

newest_from-stays :
    (e : OutboxEntry) (es : Outbox) → IsNewest e es → newest_from (some e) e.id es ≡ some e
unfolding newest_from IsNewest
newest_from-stays e [] h = refl
newest_from-stays e (x ∷ es) h =
    let later = newest_from-stays e es (λ y m. h y (Memᴰ.tail m)) in
    elim (Bool-cases (str_eq x.id e.id)) [
      | inl q ↦
          let not_newer : x.created_at ≤ e.created_at =
            elim (h x (Memᴰ.head refl) ((eq_iff x.id e.id).0 q)) [
              | inl same ↦ omega (arith, ap (λ y. y.created_at) same)
              | inr older ↦ omega (arith, older)
            ] in
          rw (q, newer-stays e x not_newer) later
      | inr q ↦ rw q later
    ]

newest_from-finds :
    (e : OutboxEntry) (best : Option OutboxEntry) (es : Outbox)
    → IsOlder e best
    → IsNewest e es
    → Memᴰ e es
    → newest_from best e.id es ≡ some e
unfolding newest_from IsNewest
newest_from-finds e best [] o h m = elim m [ ]
newest_from-finds e best (x ∷ es) o h m =
    let others : IsNewest e es = λ y n. h y (Memᴰ.tail n) in
    let found : (x ≡ e) → newest_from best e.id (x ∷ es) ≡ some e = λ same.
      rw (same, (eq_iff e.id e.id).1 refl, newer-first e best o) (newest_from-stays e es others) in
    elim (Memᴰ.cases_cons m) [
      | inl same ↦ found (sym same)
      | inr n ↦ elim (Bool-cases (str_eq x.id e.id)) [
        | inl q ↦ elim (h x (Memᴰ.head refl) ((eq_iff x.id e.id).0 q)) [
          | inl same ↦ found same
          | inr older ↦ rw q (
              newest_from-finds e (some (newer best x)) es (newer-IsOlder e x best o older) others
                n)
        ]
        | inr q ↦ rw q (newest_from-finds e best es o others n)
      ]
    ]

pub newest_of_IsNewest :
    (e : OutboxEntry) (es : Outbox) → IsNewest e es → Memᴰ e es → newest e.id es ≡ some e
unfolding IsOlder
newest_of_IsNewest e es h m = newest_from-finds e none es tt h m
