-- ===== src/Main/CommandsLaws.antt =====
-- What the commands of main() do to the files that they replace.
use icmond.Prelude.{
  ℕ, ◌≡◌, refl, inl, inr, Bool, true, false, not, ◌&&◌, ◌||◌, ◌==◌, if◌then◌else◌, Option, none,
  some, Run, ok, exited, Bool-cases,
}
use icmond.Config.Lines.{run_as_user}
use icmond.Daemon.{exit_success, exit_failure}
use icmond.User.{Credentials, System, user_restore_eugid}
use icmond.User.Laws.{user_set_eugid-ends}
use icmond.Main.Commands.{
  exit_cancelled, Disk, Answers, is_there, clear_file, create_database, cmd_initdb, cmd_writeconfig,
}

-- A file may be replaced: it is not there, or it is accessible and the user confirms.
abbrev pub may_replace {ℓ} : {Content : Type ℓ} → Answers Content → Option Content → Bool
may_replace s file = not (is_there file) || (s.readable && s.confirmed)

-- A file cannot be replaced: it is not accessible, or the user confirms and it cannot be deleted.
abbrev pub is_kept {ℓ} : {Content : Type ℓ} → Answers Content → Bool
is_kept s = not s.readable || (s.confirmed && not s.unlinked)

-- How a command that replaces a file ends: it returns with the file as it was, and the code for a cancelled
-- command if the user could confirm and did not, or the one for a failure if the file is not accessible or
-- cannot be deleted; or the file could be replaced, and the process exits, the command fails, or the file is
-- what the call that makes it has left.
pub data Replaced {ℓ} {Content : Type ℓ} (s : Answers Content) (made : Option Content × Bool)
    (content_of : Disk Content → Option Content) (disk : Disk Content)
    : Run (ℕ × Disk Content) → Type ℓ where
  cancelled :
      is_there (content_of disk) ≡ true
      → s.readable ≡ true
      → s.confirmed ≡ false
      → Replaced s made content_of disk (ok (exit_cancelled, disk))
  refused :
      is_there (content_of disk) ≡ true
      → is_kept s ≡ true
      → Replaced s made content_of disk (ok (exit_failure, disk))
  stopped : may_replace s (content_of disk) ≡ true → Replaced s made content_of disk exited
  failed :
      {disk' : Disk Content}
      → may_replace s (content_of disk) ≡ true
      → Replaced s made content_of disk (ok (exit_failure, disk'))
  replaced :
      {disk' : Disk Content}
      → may_replace s (content_of disk) ≡ true
      → made.1 ≡ true
      → content_of disk' ≡ made.0
      → Replaced s made content_of disk (ok (exit_success, disk'))

module _ {ℓ} {Content : Type ℓ} (k : System) (s : Answers Content) where
  -- What clear_file() gives.
  data Cleared (file : Option Content) : Option ℕ × Option Content → Type ℓ where
    cancels :
        is_there file ≡ true
        → s.readable ≡ true
        → s.confirmed ≡ false
        → Cleared file (some exit_cancelled, file)
    refuses : is_there file ≡ true → is_kept s ≡ true → Cleared file (some exit_failure, file)
    clears : {file' : Option Content} → may_replace s file ≡ true → Cleared file (none, file')

  clear_file-Cleared : (file : Option Content) → Cleared file (clear_file s file)
  unfolding clear_file
  clear_file-Cleared none = clears refl
  clear_file-Cleared (some content) = elim (Bool-cases s.readable) [
    | inr unreadable ↦ rw unreadable (refuses refl refl)
    | inl readable ↦ elim (Bool-cases s.confirmed) [
      | inr no_ ↦ rw (readable, no_) (cancels refl refl refl)
      | inl yes_ ↦ elim (Bool-cases s.unlinked) [
        | inr locked ↦ rw (readable, yes_, locked) (refuses refl refl)
        | inl unlinked ↦ rw (readable, yes_, unlinked) (clears refl)
      ]
    ]
  ]

  abbrev database_of : Disk Content → Option Content
  database_of disk = disk.database

  abbrev config_file_of : Disk Content → Option Content
  config_file_of disk = disk.config_file

  create_database-Replaced :
      (disk : Disk Content) (file : Option Content)
      → may_replace s disk.database ≡ true
      → Replaced s s.initialized database_of disk
          (create_database k s (record disk { database = file }))
  unfolding create_database
  create_database-Replaced disk file may = elim (user_set_eugid-ends k run_as_user disk.ids) [
    | inl exits ↦ rw exits (stopped may)
    | inr ((rc, ids), run) ↦ rw run (after rc ids)
  ]
    where
      after :
          (rc : ℕ) (ids : Credentials)
          → Replaced s s.initialized database_of disk (
              let as_user = record disk { database = file; ids = ids } in
              let made = record as_user { database = s.initialized.0 } in
              let back = record made { ids = (user_restore_eugid k ids).1 } in
              ok (
                if rc == exit_failure
                then (exit_failure, as_user)
                else if not s.initialized.1
                then (exit_failure, made)
                else if not ((user_restore_eugid k ids).0 == 0)
                then (exit_failure, back)
                else (exit_success, back)))
      after rc ids = elim (Bool-cases (rc == exit_failure)) [
        | inl no_user ↦ rw no_user (failed may)
        | inr identified ↦ elim (Bool-cases s.initialized.1) [
          | inr no_database ↦ rw (identified, no_database) (failed may)
          | inl made ↦ elim (Bool-cases ((user_restore_eugid k ids).0 == 0)) [
            | inr unrestored ↦ rw (identified, made, unrestored) (failed may)
            | inl restored ↦ rw (identified, made, restored) (replaced may refl refl)
          ]
        ]
      ]

  pub cmd_initdb-Replaced :
      (disk : Disk Content) → Replaced s s.initialized database_of disk (cmd_initdb k s disk)
  unfolding cmd_initdb
  cmd_initdb-Replaced disk = cleared (clear_file s disk.database) (clear_file-Cleared disk.database)
    where
      cleared :
          (r : Option ℕ × Option Content)
          → Cleared disk.database r
          → Replaced s s.initialized database_of disk (
              let file = record disk { database = r.1 } in
              let rest = create_database k s file in
              elim r.0 [ some rc ↦ ok (rc, file) | none ↦ rest ])
      cleared _ (cancels there readable no_) = cancelled there readable no_
      cleared _ (refuses there kept) = refused there kept
      cleared (_, file) (clears may) = create_database-Replaced disk file may

  -- cmd_writeconfig() replaces an existing configuration file only if it is accessible and the user
  -- confirms; it leaves it as it was, and returns the code for a cancelled command, if the user does not
  -- confirm. Where it returns success, the file is what cfg_writefile() has successfully left.
  pub cmd_writeconfig-Replaced :
      (disk : Disk Content)
      → Replaced s s.written config_file_of disk (ok (cmd_writeconfig k s disk))
  unfolding cmd_writeconfig
  cmd_writeconfig-Replaced disk =
      cleared (clear_file s disk.config_file) (clear_file-Cleared disk.config_file)
    where
      cleared :
          (r : Option ℕ × Option Content)
          → Cleared disk.config_file r
          → Replaced s s.written config_file_of disk (
              let file = record disk { config_file = r.1 } in
              let made = record file { config_file = s.written.0 } in
              ok (elim r.0 [
                | some rc ↦ (rc, file)
                | none ↦ (if s.written.1 then exit_success else exit_failure, made)
              ]))
      cleared _ (cancels there readable no_) = cancelled there readable no_
      cleared _ (refuses there kept) = refused there kept
      cleared (_, file) (clears may) = elim (Bool-cases s.written.1) [
        | inl works ↦ rw works (replaced may refl refl)
        | inr fails ↦ rw fails (failed may)
      ]
