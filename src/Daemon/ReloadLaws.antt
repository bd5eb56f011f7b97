-- ===== src/Daemon/ReloadLaws.antt =====
-- What handle_SIGHUP() does to the event list of the running configuration.
use icmond.Prelude.{
  ℕ, ◌≡◌, refl, Bool, false, ◌||◌, arith, List, [], ◌∷◌, Option, none, some, ℤ, fault,
}
use icmond.EventTypes.{Bytes, Event, codes}
use icmond.EventHeap.{Alloc}
use icmond.Event.Time.{TimeZone}
use icmond.Event.Parse.{ParseError}
use icmond.Config.{Config, with_defaults, default_fileconfig}
use icmond.Config.Blocks.{Buffers, Malloc, block}
use icmond.Config.Lines.{Files}
use icmond.Config.Argv.{is_option, preread_options, cfg_read_argv, read_arguments}
use icmond.Config.Check.{cfg_check, check_files, check_events, executing_username, string_at}
use icmond.Config.Owned.{Owned, Apart, cfg_init-fresh}
use icmond.Daemon.Initialize.{Calls}
use icmond.Daemon.Reload.{Settings, override_and_check, handle_sighup}

-- What cfg_preread_commandline() looks for, also in the name of the program.
abbrev pub is_startup_option : Bytes → Bool
is_startup_option arg =
    is_option (codes "-config=") arg
    || (is_option (codes "-createdb") arg || is_option (codes "-writeconfig") arg)

preread_name :
    (name : Bytes) (c : Config)
    → is_startup_option name ≡ false
    → preread_options (name ∷ []) c ≡ some c
unfolding preread_options
preread_name name c plain = ground arith

module _ (a : Alloc) (m : Malloc) (files : Files) (open_file : Bytes → Option (List Bytes))
    (tz : TimeZone) (now : ℤ) (sort : List Event → List Event) (ename : Bytes) (calls : Calls) where
  checks_freed :
      (cfg c new : Config) (b : Buffers) (p : ℕ) (g_parsed : Option (List Event))
      (g_errors : List ParseError)
      → cfg.liststring ≡ some p
      → block b p ≡ none
      → check_files files (executing_username ename new) new ≡ some c
      → cfg_check tz now sort files ename cfg new b g_parsed g_errors ≡ fault
  unfolding cfg_check check_events string_at
  checks_freed cfg c new b p g_parsed g_errors list dead passes =
      rw (cfg_check, passes, check_events, list, string_at, dead) refl

  override_and_check-fault :
      (name : Bytes) (s : Settings) (c new : Config) (p : ℕ)
      → s.cfg.liststring ≡ some p
      → block s.buffers p ≡ none
      → check_files files (executing_username ename new) new ≡ some c
      → override_and_check a m files open_file (name ∷ []) tz now sort ename calls new s ≡ fault
  unfolding override_and_check cfg_read_argv read_arguments
  override_and_check-fault name s c new p list dead pass =
      rw (checks_freed s.cfg c new s.buffers p s.g_parsed s.g_errors list dead pass) refl

  -- handle_SIGHUP() of a daemon that was started without arguments, by a name that does
  -- not begin like an option, and has no configuration file, whose
  -- running configuration owns its strings and has an event list, reads the event list behind its free(),
  -- whatever malloc() does, unless the default database and scrubber fail the checks of cfg_check().
  pub handle_sighup-fault :
      (name : Bytes) (s : Settings) (p : ℕ)
      → is_startup_option name ≡ false
      → Owned s.cfg s.buffers
      → Apart s.cfg s.cfg
      → s.cfg.liststring ≡ some p
      → files.exists default_fileconfig ≡ false
      → ((hosts : ℕ)
          → (c : Config) × (check_files files
                (executing_username ename (with_defaults hosts s.cfg))
                (with_defaults hosts s.cfg)
              ≡ some c))
      → handle_sighup a m files open_file (name ∷ []) tz now sort ename calls s ≡ fault
  unfolding handle_sighup
  handle_sighup-fault name s p plain owned apart list no_file passes =
      let ((new, b), run, (dead, faults, (hosts, is_fresh))) =
        cfg_init-fresh m s.cfg s.buffers p owned apart list in
      let (c, pass) = passes hosts in
      rw (run, preread_name name _ plain, is_fresh, no_file)
        (override_and_check-fault name (record s { buffers = b }) c (with_defaults hosts s.cfg) p
          list dead pass)
