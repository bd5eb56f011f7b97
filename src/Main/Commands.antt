-- ===== src/Main/Commands.antt =====
-- main.c: the commands that replace a file, and that end the program instead of starting the daemon. The
-- files of the system are a parameter: what each call makes of the file in question.
use icmond.Prelude.{
  ℕ, Bool, true, false, not, ◌||◌, ◌==◌, if◌then◌else◌, Option, none, some, ℤ, pos, ltb_ℤ, Run, ok,
  exited, ◌>>=◌,
}
use icmond.Event.Time.{is_zero}
use icmond.Config.{Config}
use icmond.Config.Lines.{run_as_user}
use icmond.Daemon.{exit_success, exit_failure}
use icmond.User.{Credentials, System, user_set_eugid, user_restore_eugid}

-- EXIT_CANCELLED
abbrev pub exit_cancelled : ℕ
exit_cancelled = 2

-- What is at the two names that the commands are about, and the ids of the process.
pub record Disk {ℓ} (Content : Type ℓ) : Type ℓ where
  pub database : Option Content
  pub config_file : Option Content
  pub ids : Credentials

-- What the user and the calls answer: whether a file may be read and written, whether the user confirms,
-- whether the file can be deleted, what database_initialize() and cfg_writefile() leave at a name and
-- whether they succeed, and whether the write performance can be measured.
pub record Answers {ℓ} (Content : Type ℓ) : Type ℓ where
  pub readable : Bool
  pub confirmed : Bool
  pub unlinked : Bool
  pub initialized : Option Content × Bool
  pub written : Option Content × Bool
  pub measured : Bool

abbrev pub is_there {ℓ} : {Content : Type ℓ} → Option Content → Bool
is_there none = false
is_there (some content) = true

-- What cmd_initdb() and cmd_writeconfig() begin with: nothing to return where they go on, and the file.
unfoldable pub clear_file {ℓ} :
    {Content : Type ℓ} → Answers Content → Option Content → Option ℕ × Option Content
clear_file s file =
    if is_there file
    then (if not s.readable
        then (some exit_failure, file)
        else if not s.confirmed
        then (some exit_cancelled, file)
        else if not s.unlinked
        then (some exit_failure, file)
        else (none, none))
    else (none, file)

module _ {ℓ} {Content : Type ℓ} (k : System) (s : Answers Content) where
  -- cmd_testdbperf()
  unfoldable pub cmd_testdbperf : ℤ → ℕ
  cmd_testdbperf nsamples =
      if ltb_ℤ nsamples (pos 0)
      then exit_failure
      else if s.measured
      then exit_success
      else exit_failure

  -- cmd_initdb(), behind the deletion of the file
  unfoldable pub create_database : Disk Content → Run (ℕ × Disk Content)
  unfolding user_set_eugid user_restore_eugid
  create_database disk = do
    (rc, ids) ← user_set_eugid k run_as_user disk.ids
    let as_user = record disk { ids = ids }
    let made = record as_user { database = s.initialized.0 }
    let (restored, ids') = user_restore_eugid k ids
    let back = record made { ids = ids' }
    ok (
        if rc == exit_failure
        then (exit_failure, as_user)
        else if not s.initialized.1
        then (exit_failure, made)
        else if not (restored == 0)
        then (exit_failure, back)
        else (exit_success, back))

  -- cmd_initdb()
  unfoldable pub cmd_initdb : Disk Content → Run (ℕ × Disk Content)
  unfolding clear_file create_database
  cmd_initdb disk =
      let (stop, file) = clear_file s disk.database in
      let cleared = record disk { database = file } in
      let rest = create_database cleared in elim stop [ some rc ↦ ok (rc, cleared) | none ↦ rest ]

  -- cmd_writeconfig()
  unfoldable pub cmd_writeconfig : Disk Content → ℕ × Disk Content
  unfolding clear_file
  cmd_writeconfig disk =
      let (stop, file) = clear_file s disk.config_file in
      let cleared = record disk { config_file = file } in
      let made = record cleared { config_file = s.written.0 } in
      elim stop [
        | some rc ↦ (rc, cleared)
        | none ↦ (if s.written.1 then exit_success else exit_failure, made)
      ]

  -- exit(EXIT_FAILURE) where a command is cancelled or fails
  abbrev pub unless_exit : ℕ → Disk Content → Run (Disk Content)
  unless_exit rc disk =
      if rc == exit_cancelled then exited else if rc == exit_failure then exited else ok disk

  -- `if (cfg.cmd.createdatabase)`
  unfoldable pub command_initdb : Config → Disk Content → Run (Disk Content)
  unfolding cmd_initdb
  command_initdb cfg disk =
      let run = cmd_initdb disk >>= λ (rc, disk'). unless_exit rc disk' in
      if cfg.createdatabase then run else ok disk

  -- `if (cfg.cmd.createconfigfile)`
  unfoldable pub command_writeconfig : Config → Disk Content → Run (Disk Content)
  unfolding cmd_writeconfig
  command_writeconfig cfg disk =
      let (rc, disk') = cmd_writeconfig disk in
      if cfg.createconfigfile then unless_exit rc disk' else ok disk

  -- `if (cfg.cmd.testdbwriteperf)`
  unfoldable pub command_testdbperf : Config → Disk Content → Run (Disk Content)
  unfolding cmd_testdbperf
  command_testdbperf cfg disk =
      if is_zero cfg.testdbwriteperf
      then ok disk
      else if cmd_testdbperf cfg.testdbwriteperf == 0
      then ok disk
      else exited

  -- the special commands of main(): whether it goes on to start the daemon, or returns EXIT_SUCCESS
  unfoldable pub special_commands : Config → Disk Content → Run (Bool × Disk Content)
  unfolding command_initdb command_writeconfig command_testdbperf
  special_commands cfg disk = do
    disk1 ← command_initdb cfg disk
    disk2 ← command_writeconfig cfg disk1
    disk3 ← command_testdbperf cfg disk2
    ok (
      not (cfg.createdatabase || (cfg.createconfigfile || not (is_zero cfg.testdbwriteperf))),
      disk3,
    )
