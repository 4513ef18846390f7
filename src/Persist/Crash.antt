-- ===== src/Persist/Crash.antt =====
-- persist.rs: what a crash during `atomic_write` leaves of the file.
use first_fork.Common.{
  ◌∙◌, ap, inl, inr, ◌≡◌, ◌≢◌, ◌⊎◌, Option, some, List, [], ◌∷◌, String, ok, Option-cases,
  Result-cases,
}
use first_fork.Persist.{
  Call, create_dir_all, create, sync_all, sync_dir, write_all, Paths, Files, Outcome, PersistError,
  perform, tmp_path, sync_parent, rename_temp, replace, after_dir, atomic_write_with,
}

-- The call may change what this path reads.
abbrev pub Touches : Call → String → Type 0
Touches (create_dir_all p) path = ⊥
Touches (create p) path = p ≡ path
Touches (sync_all p) path = ⊥
Touches (sync_dir p) path = ⊥
Touches (write_all p content) path = p ≡ path
Touches (Call.rename from to) path = (from ≡ path) ⊎ (to ≡ path)

-- What a journaling file system promises (ext4, for which `persist.rs` is written), where each file has one
-- name. A crash stops the machine, which starts again.
pub record Promises (Disk : Type 0) (files : Files Disk) (paths : Paths) : Type 1 where
  -- What a path may read after a crash; `none` when its name is lost.
  pub may : Disk → String → Option String → Type 0
  -- What the file that has this name now may hold after a crash, should a name of it be kept.
  pub may_hold : Disk → String → String → Type 0
  -- The directory, with all above it, is found again after a crash.
  pub anchored : Disk → String → Type 0
  -- A call leaves the files and directories alone that it does not name.
  pub quiet :
      (call : Call) (disk : Disk) (path : String) (v : Option String)
      → (Touches call path → ⊥)
      → may (files.run call disk).0 path v
      → may disk path v
  pub keeps_anchored :
      (call : Call) (disk : Disk) (dir : String)
      → (Touches call dir → ⊥)
      → anchored disk dir
      → anchored (files.run call disk).0 dir
  -- A new file that was written and synced holds what was written. Nothing is said of its name.
  pub synced :
      (disk : Disk) (path content c : String)
      → let made = files.run (create path) disk in
        let written = files.run (write_all path content) made.0 in
        let flushed = files.run (sync_all path) written.0 in
        made.1 ≡ ok tt
        → written.1 ≡ ok tt
        → flushed.1 ≡ ok tt
        → may_hold flushed.0 path c
        → c ≡ content
  -- A rename is atomic: the path reads what it could before, or what the renamed file holds.
  pub renamed :
      (disk : Disk) (from to : String) (v : Option String)
      → may (files.run (Call.rename from to) disk).0 to v
      → may disk to v ⊎ ((c : String) × (v ≡ some c) × may_hold disk from c)
  -- A rename is there to stay when the directory, which is itself found again, was synced after it.
  pub durable :
      (disk : Disk) (from to dir : String) (v : Option String)
      → paths.parent to ≡ some dir
      → anchored disk dir
      → let moved = files.run (Call.rename from to) disk in
        let flushed = files.run (sync_dir dir) moved.0 in
        moved.1 ≡ ok tt
        → flushed.1 ≡ ok tt
        → may flushed.0 to v
        → (c : String) × (v ≡ some c) × may_hold disk from c

module _ {Disk : Type 0} (files : Files Disk) (paths : Paths) (promises : Promises Disk files paths)
    (before : Disk) (path content : String) where
  -- After a crash the file reads what it could have read before, or the new content.
  abbrev pub Kept : Disk → Type 0
  Kept disk =
      (v : Option String)
      → promises.may disk path v
      → promises.may before path v ⊎ (v ≡ some content)

  abbrev pub AllKept : List Disk → Type 0
  AllKept [] = Unit {0}
  AllKept (disk ∷ disks) = Kept disk × AllKept disks

  perform-AllKept :
      (call : Call) (error : String → PersistError) (rest : Disk → Outcome Disk) (disk : Disk)
      → Kept (files.run call disk).0
      → ((files.run call disk).1 ≡ ok tt → AllKept (rest (files.run call disk).0).0)
      → AllKept (perform files call error rest disk).0
  unfolding perform
  perform-AllKept call error rest disk kept more = elim (Result-cases (files.run call disk).1) [
    | inl (u, q) ↦ rw (q, perform) (kept, more q)
    | inr (e, q) ↦ rw (q, perform) (kept, tt)
  ]

  quiet-Kept :
      (call : Call) (disk : Disk)
      → (Touches call path → ⊥)
      → Kept disk
      → Kept (files.run call disk).0
  quiet-Kept call disk silent kept v m = kept v (promises.quiet call disk path v silent m)

  sync_parent-AllKept :
      (dir : String) (disk : Disk) → Kept disk → AllKept (sync_parent files dir disk).0
  unfolding sync_parent
  sync_parent-AllKept dir disk kept =
      perform-AllKept (sync_dir dir) _ _ disk (quiet-Kept (sync_dir dir) disk (λ t. t) kept)
        (λ q. tt)

  rename_temp-AllKept :
      (dir tmp : String) (disk : Disk)
      → Kept disk
      → ((c : String) → promises.may_hold disk tmp c → c ≡ content)
      → AllKept (rename_temp files path dir tmp disk).0
  unfolding rename_temp
  rename_temp-AllKept dir tmp disk kept new =
      let moved : Kept (files.run (Call.rename tmp path) disk).0 = λ v m.
        elim (promises.renamed disk tmp path v m) [
          | inl old ↦ kept v old
          | inr (c, e, fresh) ↦ inr (e ∙ ap some (new c fresh))
        ] in
      perform-AllKept (Call.rename tmp path) _ _ disk moved
        (λ q. sync_parent-AllKept dir (files.run (Call.rename tmp path) disk).0 moved)

  replace-AllKept :
      (dir tmp : String) (disk : Disk)
      → tmp ≢ path
      → Kept disk
      → AllKept (replace files path dir tmp content disk).0
  unfolding replace
  replace-AllKept dir tmp disk other kept =
      let made = (files.run (create tmp) disk).0 in
      let written = (files.run (write_all tmp content) made).0 in
      let flushed = (files.run (sync_all tmp) written).0 in
      let made_kept : Kept made = quiet-Kept (create tmp) disk other kept in
      let written_kept : Kept written = quiet-Kept (write_all tmp content) made other made_kept in
      let flushed_kept : Kept flushed = quiet-Kept (sync_all tmp) written (λ t. t) written_kept in
      perform-AllKept (create tmp) _ _ disk made_kept (λ q.
        perform-AllKept (write_all tmp content) _ _ made written_kept (λ r.
          perform-AllKept (sync_all tmp) _ _ written flushed_kept (λ t.
            rename_temp-AllKept dir tmp flushed flushed_kept
              (λ c m. promises.synced disk tmp content c q r t m))))

  after_dir-AllKept :
      (dir : String) (disk : Disk)
      → ((name : String) → paths.file_name path ≡ some name → tmp_path paths dir name ≢ path)
      → Kept disk
      → AllKept (after_dir files paths path dir content disk).0
  unfolding after_dir
  after_dir-AllKept dir disk other kept = elim (Option-cases (paths.file_name path)) [
    | inl q ↦ rw (q, after_dir) tt
    | inr (name, q) ↦
        rw (q, after_dir) (replace-AllKept dir (tmp_path paths dir name) disk (other name q) kept)
  ]

  -- However far an atomic write gets, with calls that succeed or fail: a crash after any of its calls
  -- leaves the file with what it could have read before, or with the whole new content. The temporary
  -- file is another file, and the file system keeps its promises.
  pub atomic_write_with-AllKept :
      ((dir name : String)
        → paths.parent path ≡ some dir
        → paths.file_name path ≡ some name
        → tmp_path paths dir name ≢ path)
      → AllKept (atomic_write_with files paths path content before).0
  unfolding atomic_write_with
  atomic_write_with-AllKept other = elim (Option-cases (paths.parent path)) [
    | inl q ↦ rw (q, atomic_write_with) tt
    | inr (dir, q) ↦
        let kept = quiet-Kept (create_dir_all dir) before (λ t. t) (λ v m. inl m) in
        rw (q, atomic_write_with)
          (perform-AllKept (create_dir_all dir) _ _ before kept (λ r.
            after_dir-AllKept dir (files.run (create_dir_all dir) before).0
              (λ name e. other dir name q e) kept))
  ]
