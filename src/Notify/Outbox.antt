-- ===== src/Notify/Outbox.antt =====
-- notify.rs: `Outbox`, the list of alerts that a file keeps, with `load`, `append`,
-- `mark_delivered`, `compact_if_needed` and `persist`. What the JSON library and the file system do
-- are parameters.
use first_fork.Common.{
  ℕ, zero, suc, ◌-◌, Bool, true, false, Option, none, some, List, [], ◌∷◌, ◌++◌, String, Result, ok,
  err, TreeMap, get, insert, length, leb, str_eq, if◌then◌else◌, sort_by_key, lines, is_blank,
  string_ord,
}
use Prim.Native.String.{◌++◌ as text_append}
use first_fork.Model.{Alert}

pub record OutboxEntry : Type 0 where
  pub id : String
  pub alert : Alert
  pub created_at : ℕ
  pub delivered : Bool

-- `Outbox` has one field, its entries.
abbrev pub Outbox : Type 0
Outbox = List OutboxEntry

unfoldable pub append : OutboxEntry → Outbox → Outbox
append entry entries = entries ++ entry ∷ []

abbrev pub delivering : OutboxEntry → OutboxEntry
delivering e = record e { delivered = true }

-- The first entry with the id is marked.
unfoldable pub mark_delivered : String → Outbox → Outbox
mark_delivered id [] = []
mark_delivered id (e ∷ es) = if str_eq e.id id then delivering e ∷ es else e ∷ mark_delivered id es

-- `entries.remove(entries.iter().position(|e| e.delivered))`, if there is one.
unfoldable pub remove_delivered : Outbox → Option Outbox
remove_delivered [] = none
remove_delivered (e ∷ es) =
    if e.delivered
    then some es
    else elim (remove_delivered es) [ none ↦ none | some rest ↦ some (e ∷ rest) ]

-- One round of the `while`: the entries left, and whether an undelivered one was lost.
unfoldable pub evict_one : Outbox → Outbox × Bool
evict_one [] = ([], false)
evict_one (e ∷ es) = elim (remove_delivered (e ∷ es)) [
  | some rest ↦ (rest, false)
  | none ↦ (es, true)
]

-- The `while`, with as many rounds as there are entries too many.
unfoldable pub evict : ℕ → Outbox → Bool → Outbox × Bool
evict zero entries undelivered_lost = (entries, undelivered_lost)
evict (suc rounds) entries undelivered_lost =
    let (rest, lost) = evict_one entries in
    evict rounds rest (if lost then true else undelivered_lost)

unfoldable pub compact_if_needed : ℕ → Outbox → Outbox × Bool
compact_if_needed max entries =
    if leb (length entries) max
    then (entries, false)
    else evict (length entries - max) (sort_by_key (λ e. e.created_at) entries) false

-- An entry is kept for its id unless one that is not older is there.
unfoldable pub collapse_one : OutboxEntry → TreeMap String OutboxEntry → TreeMap String OutboxEntry
collapse_one e latest = elim (get e.id latest) [
  | none ↦ insert e.id e latest
  | some existing ↦ if leb e.created_at existing.created_at then latest else insert e.id e latest
]

unfoldable pub collapse : List OutboxEntry → TreeMap String OutboxEntry → TreeMap String OutboxEntry
unfolding collapse_one
collapse [] latest = latest
collapse (e ∷ es) latest = collapse es (collapse_one e latest)

-- `serde_json` and the order in which a `HashMap` gives its values.
pub record Json : Type 0 where
  pub from_str : String → Option OutboxEntry
  pub to_string : OutboxEntry → Result String String
  pub into_values : TreeMap String OutboxEntry → List OutboxEntry

module _ (json : Json) where
  unfoldable pub parse_lines : List String → List OutboxEntry
  parse_lines [] = []
  parse_lines (l ∷ ls) =
      if is_blank l
      then parse_lines ls
      else elim (json.from_str l) [ none ↦ parse_lines ls | some e ↦ e ∷ parse_lines ls ]

  -- `data` is what `read_optional` gave, as text.
  unfoldable pub load : Result (Option String) String → Outbox
  unfolding parse_lines collapse
  load (ok none) = []
  load (err e) = []
  load (ok (some data_text)) =
      sort_by_key (λ e. e.created_at)
        (json.into_values (collapse (parse_lines (lines data_text)) []))

  -- What `persist` gives to `atomic_write`.
  unfoldable pub persisted : Outbox → String
  persisted [] = ""
  persisted (e ∷ es) = elim (json.to_string e) [
    | ok line ↦ text_append line (text_append "\n" (persisted es))
    | err reason ↦ persisted es
  ]
