-- ===== src/Notify/Compaction.antt =====
-- notify.rs: what `Outbox::compact_if_needed` keeps and what it loses.
use first_fork.Common.{
  inl, inr, ◌⊎◌, sym, subst, ap, ◌∙◌, Memᴰ, mem-sort_by_key, ℕ, zero, suc, ◌+◌, ◌-◌, ◌≤◌, ◌≡◌, refl,
  Bool, true, false, not, ◌||◌, none, some, [], ◌∷◌, filter, length, ltb, leb, if◌then◌else◌, arith,
  Bool-cases, Option-cases, sort_by_key, length-sort_by_key, length-filter-sort_by_key,
  length-filter-le,
}
use mathlib.Core.Bool.{false≢true}
use mathlib.Core.List.Memᴰ
use first_fork.Notify.Outbox.{
  OutboxEntry, Outbox, remove_delivered, evict_one, evict, compact_if_needed,
}

-- The entries that still have to be delivered.
abbrev pub undelivered : Outbox → Outbox
undelivered entries = filter (λ e. not e.delivered) entries

abbrev pub smaller : ℕ → ℕ → ℕ
smaller a b = if leb a b then a else b

remove_delivered-none :
    (es : Outbox) → remove_delivered es ≡ none → length (undelivered es) ≡ length es
unfolding remove_delivered
remove_delivered-none [] h = refl
remove_delivered-none (e ∷ es) h = elim (Option-cases (remove_delivered es)) [
  | inl q ↦ ground (arith, remove_delivered-none es q)
  | inr (rest, q) ↦ ground arith
]

-- A delivered entry is taken out alone.
remove_delivered-some :
    (es : Outbox) {rest : Outbox}
    → remove_delivered es ≡ some rest
    → (suc (length rest) ≡ length es)
      × (length (undelivered rest) ≡ length (undelivered es))
      × (length (undelivered es) ≤ length rest)
unfolding remove_delivered
remove_delivered-some [] h = ground arith
remove_delivered-some (e ∷ es) h = elim (Option-cases (remove_delivered es)) [
  | inl q ↦ ground (arith, length-filter-le (λ x. not x.delivered) es)
  | inr (r, q) ↦
      ground (arith, remove_delivered-some es q, length-filter-le (λ x. not x.delivered) es)
]

-- What is left of so many undelivered entries when `room` are kept, and whether some are lost.
HasRoom : ℕ → Outbox → Outbox × Bool → Type 0
HasRoom room es (rest, lost) =
    (length rest ≡ room)
    × (length (undelivered rest) ≡ smaller (length (undelivered es)) room)
    × (lost ≡ ltb room (length (undelivered es)))

evict_one-nil : evict_one [] ≡ ([], false)
unfolding evict_one
evict_one-nil = refl

evict_one-cases :
    (e : OutboxEntry) (es : Outbox)
    → ((remove_delivered (e ∷ es) ≡ none) × (evict_one (e ∷ es) ≡ (es, true)))
      ⊎ ((rest : Outbox) × (remove_delivered (e ∷ es) ≡ some rest)
          × (evict_one (e ∷ es) ≡ (rest, false)))
unfolding evict_one
evict_one-cases e es = elim (Option-cases (remove_delivered (e ∷ es))) [
  | inl q ↦ inl (q, rw (q, evict_one) refl)
  | inr (rest, q) ↦ inr (rest, q, rw (q, evict_one) refl)
]

evict_one-HasRoom :
    (e : OutboxEntry) (es : Outbox) → HasRoom (length es) (e ∷ es) (evict_one (e ∷ es))
unfolding HasRoom
evict_one-HasRoom e es = elim (evict_one-cases e es) [
  | inl (q, p) ↦
      let all = remove_delivered-none (e ∷ es) q in
      subst (HasRoom (length es) (e ∷ es)) (sym p)
        (ground (arith, all, length-filter-le (λ x. not x.delivered) es))
  | inr (rest, q, p) ↦
      let some_one = remove_delivered-some (e ∷ es) q in
      subst (HasRoom (length es) (e ∷ es)) (sym p) (ground (arith, some_one))
]

evict-HasRoom :
    (rounds room : ℕ) (es : Outbox) (lost : Bool)
    → length es ≡ rounds + room
    → let left = evict rounds es lost in
      (length left.0 ≡ room)
      × (length (undelivered left.0) ≡ smaller (length (undelivered es)) room)
      × (left.1 ≡ (lost || ltb room (length (undelivered es))))
unfolding evict HasRoom
evict-HasRoom zero room es lost h = ground (arith, length-filter-le (λ x. not x.delivered) es)
evict-HasRoom (suc n) room [] lost h = ground arith
evict-HasRoom (suc n) room (e ∷ es) lost h =
    let one = evict_one-HasRoom e es in
    ground (
      arith,
      one.0,
      one.1,
      one.2,
      evict-HasRoom n room (evict_one (e ∷ es)).0 (if (evict_one (e ∷ es)).1 then true else lost)
          (ground (arith, one.0)),
    )

-- Compaction leaves as many entries as there were, `max` at most. It loses undelivered entries only
-- when there are more than `max` of them, and then `max` are left; and it reports a loss exactly
-- in that case.
pub compact_if_needed-counts :
    (max : ℕ) (entries : Outbox)
    → let compacted = compact_if_needed max entries in
      (length compacted.0 ≡ smaller (length entries) max)
      × (length (undelivered compacted.0) ≡ smaller (length (undelivered entries)) max)
      × (compacted.1 ≡ ltb max (length (undelivered entries)))
unfolding compact_if_needed
compact_if_needed-counts max entries = elim (Bool-cases (leb (length entries) max)) [
  | inl e ↦ ground (arith, length-filter-le (λ x. not x.delivered) entries)
  | inr e ↦
      let sorted = sort_by_key (λ x. x.created_at) entries in
      let same = length-sort_by_key (λ x. x.created_at) entries in
      let same_undelivered =
        length-filter-sort_by_key (λ x. x.created_at) (λ x. not x.delivered) entries in
      let left = evict-HasRoom (length entries - max) max sorted false (ground (arith, same)) in
      ground (arith, left.0, left.1, left.2, same_undelivered)
]

remove_delivered-later :
    (x : OutboxEntry) (es : Outbox) {rest : Outbox}
    → x.delivered ≡ false
    → remove_delivered (x ∷ es) ≡ some rest
    → (r : Outbox) × (remove_delivered es ≡ some r) × (rest ≡ x ∷ r)
unfolding remove_delivered
remove_delivered-later x es d h = elim (Option-cases (remove_delivered es)) [
  | inl q ↦ ground arith
  | inr (r, q) ↦ (r, q, ground arith)
]

mem-remove_delivered :
    {e : OutboxEntry} (es : Outbox) {rest : Outbox}
    → remove_delivered es ≡ some rest
    → e.delivered ≡ false
    → Memᴰ e es
    → Memᴰ e rest
unfolding remove_delivered
mem-remove_delivered [] h u m = elim m [ ]
mem-remove_delivered {e} (x ∷ es) {rest} h u m = elim (Bool-cases x.delivered) [
  | inl d ↦ elim (Memᴰ.cases_cons m) [
    | inl same ↦ absurd (false≢true (sym u ∙ ap (λ y. y.delivered) same ∙ d))
    | inr n ↦ let k : es ≡ rest = ground arith in subst (Memᴰ e) k n
  ]
  | inr d ↦
      let (r, q, same) = remove_delivered-later x es d h in
      elim (Memᴰ.cases_cons m) [
        | inl p ↦ rw same (Memᴰ.head p)
        | inr n ↦ rw same (Memᴰ.tail (mem-remove_delivered es q u n))
      ]
]

-- An undelivered entry stays when there is room for all of them.
evict-undelivered :
    {e : OutboxEntry} (rounds room : ℕ) (es : Outbox) (lost : Bool)
    → length es ≡ rounds + room
    → length (undelivered es) ≤ room
    → e.delivered ≡ false
    → Memᴰ e es
    → Memᴰ e (evict rounds es lost).0
unfolding evict
evict-undelivered zero room es lost h fits u m = m
evict-undelivered (suc n) room [] lost h fits u m = elim m [ ]
evict-undelivered {e} (suc n) room (x ∷ es) lost h fits u m = elim (evict_one-cases x es) [
  | inl (q, p) ↦ let all = remove_delivered-none (x ∷ es) q in absurd (omega (arith, h, fits, all))
  | inr (rest, q, p) ↦
      let one = remove_delivered-some (x ∷ es) q in
      rw (p, evict)
        (evict-undelivered n room rest lost (omega (arith, h, one.0)) (omega (arith, fits, one.1)) u
          (mem-remove_delivered (x ∷ es) q u m))
]

pub compact_if_needed-undelivered :
    {e : OutboxEntry} (max : ℕ) (entries : Outbox)
    → length (undelivered entries) ≤ max
    → e.delivered ≡ false
    → Memᴰ e entries
    → Memᴰ e (compact_if_needed max entries).0
unfolding compact_if_needed
compact_if_needed-undelivered max entries fits u m = elim (Bool-cases (leb (length entries) max)) [
  | inl q ↦ rw q m
  | inr q ↦
      let sorted = sort_by_key (λ x. x.created_at) entries in
      let same = length-sort_by_key (λ x. x.created_at) entries in
      let same_undelivered =
        length-filter-sort_by_key (λ x. x.created_at) (λ x. not x.delivered) entries in
      rw q (
        evict-undelivered (length entries - max) max sorted false (ground (arith, same, q))
          (omega (arith, same_undelivered, fits)) u
          ((mem-sort_by_key (λ x. x.created_at) entries).1 m))
]

remove_delivered-mem :
    {e : OutboxEntry} (es : Outbox) {rest : Outbox}
    → remove_delivered es ≡ some rest
    → Memᴰ e rest
    → Memᴰ e es
unfolding remove_delivered
remove_delivered-mem [] h m = ground arith
remove_delivered-mem {e} (x ∷ es) {rest} h m = elim (Bool-cases x.delivered) [
  | inl d ↦ let k : es ≡ rest = ground arith in Memᴰ.tail (subst (Memᴰ e) (sym k) m)
  | inr d ↦
      let (r, q, same) = remove_delivered-later x es d h in
      elim (Memᴰ.cases_cons (rw same at m)) [
        | inl p ↦ Memᴰ.head p
        | inr n ↦ Memᴰ.tail (remove_delivered-mem es q n)
      ]
]

evict-mem :
    {e : OutboxEntry} (rounds : ℕ) (es : Outbox) (lost : Bool)
    → Memᴰ e (evict rounds es lost).0
    → Memᴰ e es
unfolding evict
evict-mem zero es lost m = m
evict-mem (suc n) [] lost m = evict-mem n [] lost (rw (evict_one-nil, evict) at m)
evict-mem {e} (suc n) (x ∷ es) lost m = elim (evict_one-cases x es) [
  | inl (q, p) ↦ Memᴰ.tail (evict-mem n es true (rw (p, evict) at m))
  | inr (rest, q, p) ↦ remove_delivered-mem (x ∷ es) q (evict-mem n rest lost (rw (p, evict) at m))
]

-- Compaction makes no entries.
pub compact_if_needed-mem :
    {e : OutboxEntry} (max : ℕ) (entries : Outbox)
    → Memᴰ e (compact_if_needed max entries).0
    → Memᴰ e entries
unfolding compact_if_needed
compact_if_needed-mem max entries m = elim (Bool-cases (leb (length entries) max)) [
  | inl q ↦ rw q at m
  | inr q ↦
      (mem-sort_by_key (λ x. x.created_at) entries).0 (
        evict-mem (length entries - max) (sort_by_key (λ x. x.created_at) entries) false
          (rw q at m))
]
