-- ===== src/Persist.antt =====
-- persist.rs: files that are replaced as a whole. The file system and `std::path` are parameters.
use Prim.Native.String.{◌++◌ as text_append}
use first_fork.Common.{◌≡◌, ◌≢◌, ◌⊎◌, Option, none, some, List, [], ◌∷◌, String, Result, ok, err}
pub mod Crash
pub mod Durable
mod Tests

pub data PersistError : Type 0 where
  no_parent_dir no_file_name : (path : String) → PersistError
  create_dir create_temp write fsync fsync_dir read : (path source : String) → PersistError
  rename : (from to source : String) → PersistError

-- The calls of `std::fs` and `libc` that change the disk.
pub data Call : Type 0 where
  create_dir_all create sync_all sync_dir : (path : String) → Call
  write_all : (path content : String) → Call
  rename : (from to : String) → Call

-- `Path::parent`, `Path::file_name` and `Path::join`.
pub record Paths : Type 0 where
  pub parent : String → Option String
  pub file_name : String → Option String
  pub join : (dir name : String) → String

-- What a call makes of the disk, also when it fails, and its answer.
pub record Files (Disk : Type 0) : Type 0 where
  pub run : Call → Disk → Disk × Result (Unit {0}) String

-- The disks after the calls that were made, in their order, and the result.
abbrev pub Outcome : Type 0 → Type 0
Outcome Disk = List Disk × Result (Unit {0}) PersistError

-- A call with `map_err` and `?`.
unfoldable pub perform :
    {Disk : Type 0}
    → Files Disk
    → Call
    → (String → PersistError)
    → (Disk → Outcome Disk)
    → Disk
    → Outcome Disk
perform files call error rest disk =
    let (after, answer) = files.run call disk in
    let then = rest after in
    elim answer [ ok _ ↦ (after ∷ then.0, then.1) | err e ↦ (after ∷ [], err (error e)) ]

unfoldable pub tmp_path : Paths → (dir name : String) → String
tmp_path paths dir name = paths.join dir (text_append "." (text_append name ".tmp"))

unfoldable pub sync_parent : {Disk : Type 0} → Files Disk → (dir : String) → Disk → Outcome Disk
sync_parent files dir = perform files (sync_dir dir) (fsync_dir dir) (λ disk. ([], ok tt))

unfoldable pub rename_temp :
    {Disk : Type 0} → Files Disk → (path dir tmp : String) → Disk → Outcome Disk
rename_temp files path dir tmp =
    perform files (Call.rename tmp path) (PersistError.rename tmp path) (sync_parent files dir)

-- From the temporary file to the end.
unfoldable pub replace :
    {Disk : Type 0} → Files Disk → (path dir tmp content : String) → Disk → Outcome Disk
replace files path dir tmp content = perform files (create tmp) (create_temp tmp) (
    perform files (write_all tmp content) (write tmp)
      (perform files (sync_all tmp) (fsync tmp) (rename_temp files path dir tmp)))

unfoldable pub after_dir :
    {Disk : Type 0} → Files Disk → Paths → (path dir content : String) → Disk → Outcome Disk
after_dir files paths path dir content disk = elim (paths.file_name path) [
  | none ↦ ([], err (no_file_name path))
  | some name ↦ replace files path dir (tmp_path paths dir name) content disk
]

unfoldable pub atomic_write_with :
    {Disk : Type 0} → Files Disk → Paths → (path content : String) → Disk → Outcome Disk
atomic_write_with files paths path content disk = elim (paths.parent path) [
  | none ↦ ([], err (no_parent_dir path))
  | some dir ↦
      perform files (create_dir_all dir) (create_dir dir) (after_dir files paths path dir content)
        disk
]
