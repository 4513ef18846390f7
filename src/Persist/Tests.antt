-- ===== src/Persist/Tests.antt =====
-- Runs of atomic writes on a disk that loses what was not synced, and the theorems on it.
use Prim.Native.String.{◌++◌ as text_append}
use text.Mathlib.TextLemmas.{nil-append}
use mathlib.Core.List.Memᴰ
use first_fork.Common.{
  inl, inr, ◌≡◌, ◌≢◌, refl, sym, Bool, true, false, Option, none, some, List, [], ◌∷◌, ◌++◌, String,
  ok, arith, Memᴰ, str_eq, eq_iff, if◌then◌else◌, Bool-cases, map, filter, any, mem-filter,
}
use first_fork.Persist.{
  Call, create_dir_all, create, sync_all, sync_dir, write_all, Paths, Files, perform, tmp_path,
  sync_parent, rename_temp, replace, after_dir, atomic_write_with,
}
use first_fork.Persist.Crash.{Promises, Touches, AllKept, atomic_write_with-AllKept}
use first_fork.Persist.Durable.{Stays, atomic_write_with-Stays}

-- For each path, what it may read after a crash, and what its file may hold, the newest first. A file that was
-- made is lost as long as its directory is not synced, and the content is any that it had since the last sync.
record Disk : Type 0 where
  reads : String → List (Option String)
  holds : String → List String

abbrev newest : List String → List String
newest [] = []
newest (c ∷ cs) = c ∷ []

abbrev longer : List String → String → List String
longer [] content = []
longer (c ∷ cs) content = text_append c content ∷ c ∷ cs

abbrev is_held : List String → Option String → Bool
is_held held none = false
is_held held (some c) = any (λ d. str_eq d c) held

named : List String → List (Option String)
named = map (λ c. some c)

abbrev change : Call → Disk → Disk
change (create_dir_all p) disk = disk
change (create p) disk = record {
  reads = λ q. if str_eq p q then some "" ∷ disk.reads q else disk.reads q;
  holds = λ q. if str_eq p q then "" ∷ [] else disk.holds q;
}
change (write_all p content) disk = record {
  reads = λ q.
      if str_eq p q then named (longer (disk.holds q) content) ++ disk.reads q else disk.reads q;
  holds = λ q. if str_eq p q then longer (disk.holds q) content else disk.holds q;
}
change (sync_all p) disk = record {
  reads = disk.reads;
  holds = λ q. if str_eq p q then newest (disk.holds q) else disk.holds q;
}
change (sync_dir p) disk = record {
  reads = λ q. filter (is_held (disk.holds q)) (disk.reads q);
  holds = disk.holds;
}
change (Call.rename from to) disk = record {
  reads = λ q.
      if str_eq to q
      then named (disk.holds from) ++ disk.reads q
      else if str_eq from q
      then none ∷ disk.reads q
      else disk.reads q;
  holds = λ q. if str_eq to q then disk.holds from else if str_eq from q then [] else disk.holds q;
}

abbrev files : Files Disk
files = record { run = λ call disk. (change call disk, ok tt) }

differs : (p q : String) → (p ≡ q → ⊥) → str_eq p q ≡ false
differs p q other = elim (Bool-cases (str_eq p q)) [
  | inl e ↦ absurd (other ((eq_iff p q).0 e))
  | inr e ↦ e
]

same : (p : String) → str_eq p p ≡ true
same p = (eq_iff p p).1 refl

quiet :
    (call : Call) (disk : Disk) (path : String) (v : Option String)
    → (Touches call path → ⊥)
    → Memᴰ v ((change call disk).reads path)
    → Memᴰ v (disk.reads path)
quiet (create_dir_all p) disk path v silent m = m
quiet (sync_all p) disk path v silent m = m
quiet (sync_dir p) disk path v silent m =
    (mem-filter (is_held (disk.holds path)) v (disk.reads path) m).0
quiet (create p) disk path v silent m = rw (differs p path silent) at m
quiet (write_all p content) disk path v silent m = rw (differs p path silent) at m
quiet (Call.rename from to) disk path v silent m =
    rw (differs to path (λ e. silent (inr e)), differs from path (λ e. silent (inl e))) at m

mem-named :
    (held : List String) (v : Option String)
    → Memᴰ v (named held)
    → (c : String) × (v ≡ some c) × Memᴰ c held
unfolding named
mem-named [] v m = elim m [ ]
mem-named (c ∷ cs) v (Memᴰ.head e) = (c, e, Memᴰ.head refl)
mem-named (c ∷ cs) v (Memᴰ.tail m) = let (d, e, n) = mem-named cs v m in (d, e, Memᴰ.tail n)

mem-is_held :
    (held : List String) (v : Option String)
    → is_held held v ≡ true
    → (c : String) × (v ≡ some c) × Memᴰ c held
mem-is_held held none h = cc
mem-is_held [] (some c) h = cc
mem-is_held (d ∷ ds) (some c) h = elim (Bool-cases (str_eq d c)) [
  | inl q ↦ (c, refl, Memᴰ.head (sym ((eq_iff d c).0 q)))
  | inr q ↦ let (e, p, m) = mem-is_held ds (some c) (ground (arith, h, q)) in (e, p, Memᴰ.tail m)
]

abbrev paths : Paths
paths = record {
  parent = λ path. some "/s";
  file_name = λ path. some "state";
  join = λ dir name. text_append dir (text_append "/" name);
}

promises : Promises Disk files paths
promises = record {
  may = λ disk path v. Memᴰ v (disk.reads path);
  may_hold = λ disk path c. Memᴰ c (disk.holds path);
  anchored = λ disk dir. dir ≡ "/s";
  quiet = quiet;
  keeps_anchored = λ call disk dir silent found. found;
  synced = λ disk path content c made written flushed m.
      Memᴰ.eq_of_singleton (rw (same path, nil-append) at m);
  renamed = λ disk from to v m.
      let n : Memᴰ v (named (disk.holds from) ++ disk.reads to) = rw (same to) at m in
      elim (Memᴰ.append_cases (named (disk.holds from)) n) [
        | inl k ↦ inr (mem-named (disk.holds from) v k)
        | inr k ↦ inl k
      ];
  durable = λ disk from to dir v parent found moved flushed m.
      let n : Memᴰ v
          (filter (is_held (disk.holds from)) (named (disk.holds from) ++ disk.reads to)) =
        rw (same to) at m in
      mem-is_held (disk.holds from) v
        (mem-filter (is_held (disk.holds from)) v (named (disk.holds from) ++ disk.reads to) n).1;
}

abbrev old : Disk
old = record {
  reads = λ path. if str_eq path "/s/state" then some "old" ∷ [] else none ∷ [];
  holds = λ path. if str_eq path "/s/state" then "old" ∷ [] else [];
}

replaces : (atomic_write_with files paths "/s/state" "new" old).1 ≡ ok tt
unfolding atomic_write_with perform after_dir replace rename_temp sync_parent
replaces = refl

-- Behind the rename and before the directory is synced, either content may be read.
abbrev moved : Disk
moved = change (Call.rename "/s/.state.tmp" "/s/state") (
    change (sync_all "/s/.state.tmp")
      (change (write_all "/s/.state.tmp" "new") (change (create "/s/.state.tmp") old)))

either_content : moved.reads "/s/state" ≡ some "new" ∷ some "old" ∷ []
unfolding named
either_content = refl

apart :
    (dir : String) (p : String)
    → str_eq (tmp_path paths "/s" "state") p ≡ false
    → (name : String) → paths.parent p ≡ some dir
    → paths.file_name p ≡ some name
    → tmp_path paths dir name ≢ p
unfolding tmp_path
apart dir p h name parent file e =
    let d : dir ≡ "/s" = ground (arith, parent) in
    let n : name ≡ "state" = ground (arith, file) in
    let q = (eq_iff "/s/.state.tmp" p).1 (rw (d, n) at e) in ground (arith, h, q)

atomic_write_with-AllKept_example :
    AllKept files paths promises old "/s/state" "new"
      (atomic_write_with files paths "/s/state" "new" old).0
unfolding tmp_path
atomic_write_with-AllKept_example =
    atomic_write_with-AllKept files paths promises old "/s/state" "new"
      (λ dir name parent file. apart dir "/s/state" refl name parent file)

atomic_write_with-Stays_example :
    Stays files paths promises "/s/state" "new" old
      (atomic_write_with files paths "/s/state" "new" old)
unfolding tmp_path promises
atomic_write_with-Stays_example =
    atomic_write_with-Stays files paths promises "/s/state" "new" old "/s" refl
      (λ name file. apart "/s" "/s" refl name refl file) refl
