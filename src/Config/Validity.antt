-- ===== src/Config/Validity.antt =====
-- What a configuration that passes validation is known to be.
use first_fork.Common.{
  ◌<◌, ◌≡◌, ◌≢◌, ◌↔◌, refl, true, false, some, List, [], ◌∷◌, string_ord, Memᴰ, contains, str_eq,
  eq_iff, ok, arith, leb, find, ap, sym, ◌∙◌, key_eq_refl,
}
use mathlib.Core.Bool.{false≢true}
use first_fork.Model.{ServiceId}
use first_fork.Config.{
  ServiceEntry, CratonConfig, validate, check_unique, check_deps, check_references, ids,
  find_service, is_empty,
}

-- No service of the list has an identifier that is in `seen` or that stands above it in the list.
abbrev pub Distinct : List ServiceId → List ServiceEntry → Type 0
Distinct seen [] = Unit {0}
Distinct seen (s ∷ ss) = (contains s.id seen ≡ false) × Distinct (s.id ∷ seen) ss

abbrev pub AllKnown : List ServiceId → List ServiceId → Type 0
AllKnown known [] = Unit {0}
AllKnown known (d ∷ ds) = (contains d known ≡ true) × AllKnown known ds

abbrev pub Closed : List ServiceId → List ServiceEntry → Type 0
Closed known [] = Unit {0}
Closed known (s ∷ ss) = AllKnown known s.depends_on × Closed known ss

pub record IsValid (c : CratonConfig) : Type 0 where
  pub nonempty : c.services ≢ []
  pub distinct : Distinct [] c.services
  pub closed : Closed (ids c.services) c.services
  pub thresholds : c.disk.warn_percent < c.disk.critical_percent
  pub repo : c.backup.restic_repo ≢ ""
  pub password : c.backup.restic_password_file ≢ ""
  pub url : c.ntfy.url ≢ ""

check_unique_iff :
    (seen : List ServiceId) (ss : List ServiceEntry)
    → (check_unique seen ss ≡ ok tt) ↔ Distinct seen ss
unfolding check_unique
check_unique_iff seen [] = (λ _. tt, λ _. refl)
check_unique_iff seen (s ∷ ss) = ground (arith, check_unique_iff (s.id ∷ seen) ss)

check_deps_iff :
    (known : List ServiceId) (id : ServiceId) (ds : List ServiceId)
    → (check_deps known id ds ≡ ok tt) ↔ AllKnown known ds
unfolding check_deps
check_deps_iff known id [] = (λ _. tt, λ _. refl)
check_deps_iff known id (d ∷ ds) = ground (arith, check_deps_iff known id ds)

check_references_iff :
    (known : List ServiceId) (ss : List ServiceEntry)
    → (check_references known ss ≡ ok tt) ↔ Closed known ss
unfolding check_references
check_references_iff known [] = (λ _. tt, λ _. refl)
check_references_iff known (s ∷ ss) =
    ground (arith, check_deps_iff known s.id s.depends_on, check_references_iff known ss)

-- The seven tests, each passed.
validate_parts :
    (c : CratonConfig)
    → validate c ≡ ok tt
    → (is_empty c.services ≡ false)
      × (check_unique [] c.services ≡ ok tt)
      × (check_references (ids c.services) c.services ≡ ok tt)
      × (leb c.disk.critical_percent c.disk.warn_percent ≡ false)
      × (str_eq c.backup.restic_repo "" ≡ false)
      × (str_eq c.backup.restic_password_file "" ≡ false)
      × (str_eq c.ntfy.url "" ≡ false)
unfolding validate
validate_parts c h = ground arith

-- Validation accepts exactly the configurations with at least one service, distinct identifiers,
-- dependencies that are all defined, ordered disk thresholds, and the three texts that must be set.
pub validate_iff : (c : CratonConfig) → (validate c ≡ ok tt) ↔ IsValid c
unfolding validate
validate_iff c = (
  λ h. record {
    nonempty = ground (arith, validate_parts c h);
    distinct = (check_unique_iff [] c.services).0 (validate_parts c h).1;
    closed = (check_references_iff _ c.services).0 (validate_parts c h).2;
    thresholds = ground (arith, validate_parts c h);
    repo = ground (arith, validate_parts c h, eq_iff c.backup.restic_repo "");
    password = ground (arith, validate_parts c h, eq_iff c.backup.restic_password_file "");
    url = ground (arith, validate_parts c h, eq_iff c.ntfy.url "");
  },
  λ v. ground (
    arith,
    check_unique_iff [] c.services,
    check_references_iff (ids c.services) c.services,
    eq_iff c.backup.restic_repo "",
    eq_iff c.backup.restic_password_file "",
    eq_iff c.ntfy.url "",
  ),
)

seen-Distinct :
    (k : ServiceId) (seen : List ServiceId) (ss : List ServiceEntry) {s : ServiceEntry}
    → Distinct seen ss
    → contains k seen ≡ true
    → Memᴰ s ss
    → s.id ≢ k
seen-Distinct k seen [] d h m q = elim m [ ]
seen-Distinct k seen (x ∷ ss) {s} d h (Memᴰ.head e) q =
    let same : x.id ≡ k = ap (λ y. y.id) (sym e) ∙ q in false≢true (sym d.0 ∙ rw same h)
seen-Distinct k seen (x ∷ ss) d h (Memᴰ.tail m) q =
    seen-Distinct k (x.id ∷ seen) ss d.1 (ground arith) m q

find-mem :
    (seen : List ServiceId) (ss : List ServiceEntry) {s : ServiceEntry}
    → Distinct seen ss
    → Memᴰ s ss
    → find (λ x. str_eq x.id s.id) ss ≡ some s
find-mem seen [] d m = elim m [ ]
find-mem seen (x ∷ ss) {s} d (Memᴰ.head e) = ground (arith, eq_iff x.id s.id)
find-mem seen (x ∷ ss) {s} d (Memᴰ.tail m) = ground (
  arith,
  eq_iff x.id s.id,
  find-mem (x.id ∷ seen) ss d.1 m,
  seen-Distinct x.id (x.id ∷ seen) ss d.1 (ground (arith, key_eq_refl x.id)) m,
)

-- In a configuration that passes validation every service is found by its identifier.
find_service-mem :
    (c : CratonConfig) (s : ServiceEntry)
    → validate c ≡ ok tt
    → Memᴰ s c.services
    → find_service c s.id ≡ some s
unfolding find_service
find_service-mem c s h m = find-mem [] c.services ((validate_iff c).0 h).distinct m
