-- ===== src/Persist/Durable.antt =====
-- persist.rs: what `atomic_write` promises when it returns.
use first_fork.Common.{
  inl, inr, ◌≡◌, ◌≢◌, ◌∙◌, ap, Option, some, List, [], ◌∷◌, String, Result, ok, arith, Option-cases,
  Result-cases,
}
use first_fork.Persist.{
  Call, create_dir_all, create, sync_all, sync_dir, write_all, Paths, Files, Outcome, PersistError,
  perform, tmp_path, sync_parent, rename_temp, replace, after_dir, atomic_write_with,
}
use first_fork.Persist.Crash.{Promises}

module _ {Disk : Type 0} (files : Files Disk) (paths : Paths) (promises : Promises Disk files paths)
    (path content : String) where
  -- When the result is no error, a crash after the last call leaves the file with the new content.
  abbrev Ends : Disk → List Disk → Result (Unit {0}) PersistError → Type 0
  Ends disk [] result =
      result ≡ ok tt → (v : Option String) → promises.may disk path v → v ≡ some content
  Ends disk (after ∷ disks) result = Ends after disks result

  abbrev pub Stays : Disk → Outcome Disk → Type 0
  Stays disk outcome = Ends disk outcome.0 outcome.1

  perform-Stays :
      (call : Call) (error : String → PersistError) (rest : Disk → Outcome Disk) (disk : Disk)
      → ((files.run call disk).1 ≡ ok tt
          → Stays (files.run call disk).0 (rest (files.run call disk).0))
      → Stays disk (perform files call error rest disk)
  unfolding perform
  perform-Stays call error rest disk more = elim (Result-cases (files.run call disk).1) [
    | inl (u, q) ↦ rw (q, perform) (more q)
    | inr (e, q) ↦ rw (q, perform) (λ h. ground (arith, h))
  ]

  replace-Stays :
      (dir tmp : String) (disk : Disk)
      → paths.parent path ≡ some dir
      → tmp ≢ dir
      → promises.anchored disk dir
      → Stays disk (replace files path dir tmp content disk)
  unfolding replace rename_temp sync_parent
  replace-Stays dir tmp disk parent other found =
      let made = (files.run (create tmp) disk).0 in
      let written = (files.run (write_all tmp content) made).0 in
      let flushed = (files.run (sync_all tmp) written).0 in
      let found_made = promises.keeps_anchored (create tmp) disk dir other found in
      let found_written =
        promises.keeps_anchored (write_all tmp content) made dir other found_made in
      let found_flushed =
        promises.keeps_anchored (sync_all tmp) written dir (λ t. t) found_written in
      perform-Stays (create tmp) _ _ disk (λ q. perform-Stays (write_all tmp content) _ _ made (λ r.
        perform-Stays (sync_all tmp) _ _ written (λ t.
          perform-Stays (Call.rename tmp path) _ _ flushed (λ u.
            perform-Stays (sync_dir dir) _ _ _ (λ w h v m.
              let (c, e, holds) =
                promises.durable flushed tmp path dir v parent found_flushed u w m in
              e ∙ ap some (promises.synced disk tmp content c q r t holds))))))

  after_dir-Stays :
      (dir : String) (disk : Disk)
      → paths.parent path ≡ some dir
      → ((name : String) → paths.file_name path ≡ some name → tmp_path paths dir name ≢ dir)
      → promises.anchored disk dir
      → Stays disk (after_dir files paths path dir content disk)
  unfolding after_dir
  after_dir-Stays dir disk parent other found = elim (Option-cases (paths.file_name path)) [
    | inl q ↦ rw (q, after_dir) (λ h. ground (arith, h))
    | inr (name, q) ↦
        rw (q, after_dir)
          (replace-Stays dir (tmp_path paths dir name) disk parent (other name q) found)
  ]

  -- When an atomic write returns without an error, a crash after its last call leaves the file with the new
  -- content. The directory of the file was there before and is found again after a crash (one that
  -- `create_dir_all` has just made need not be, since its own parent is not synced), the temporary file is not
  -- that directory, and the file system keeps its promises.
  pub atomic_write_with-Stays :
      (disk : Disk) (dir : String)
      → paths.parent path ≡ some dir
      → ((name : String) → paths.file_name path ≡ some name → tmp_path paths dir name ≢ dir)
      → promises.anchored disk dir
      → Stays disk (atomic_write_with files paths path content disk)
  unfolding atomic_write_with
  atomic_write_with-Stays disk dir parent other found =
      rw (parent, atomic_write_with)
        (perform-Stays (create_dir_all dir) _ _ disk (λ r.
          after_dir-Stays dir _ parent other
            (promises.keeps_anchored (create_dir_all dir) disk dir (λ t. t) found)))
