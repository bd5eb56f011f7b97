-- ===== src/Config/Check.antt =====
-- config.c: cfg_check(), which resolves the file names of a configuration and parses an event list.
use mathlib.Core.Option
use icmond.Prelude.{
  ℕ, Bool, true, not, ltb_ℤ, if◌then◌else◌, List, Option, none, some, ℤ, pos, Run, ok, fault, ◌>>=◌,
}
use icmond.EventTypes.{Bytes, Event}
use icmond.Text.{str_eq}
use icmond.Arrays.{str2arr, arrlen}
use icmond.Event.Time.{TimeZone, EventCfg, is_zero}
use icmond.Event.Parse.{ParseError, event_test_parse}
use icmond.Config.{Config, default_fileconfig}
use icmond.Config.Blocks.{Buffers, block}
use icmond.Config.Lines.{Files, run_as_user, r_ok, rw_ok, x_ok}

-- A file must exist and grant the access, and its real path takes the place of its name.
unfoldable pub resolve : Files → Bytes → ℕ → Bytes → Option Bytes
resolve files username mode filename =
    if not (files.exists filename)
    then none
    else if not (files.useraccess filename username mode)
    then none
    else files.realpath filename

-- executing_username, where `ename` is user_get_ename()
abbrev pub executing_username : Bytes → Config → Bytes
executing_username ename config = if config.as_daemon then run_as_user else ename

-- The configuration file, which may be missing only by its default name.
unfoldable pub check_file : Files → Bytes → Config → Option Config
unfolding resolve str_eq Option.bind
check_file files username config =
    let found : Option Config =
      Option.bind (resolve files username r_ok config.filename)
        λ path. some (record config { filename = path }) in
    if files.exists config.filename
    then found
    else if str_eq config.filename default_fileconfig
    then some config
    else none

unfoldable pub check_database : Files → Bytes → Config → Option Config
unfolding resolve Option.bind
check_database files username config =
    Option.bind (resolve files username rw_ok config.database_filename)
      λ path. some (record config { database_filename = path })

unfoldable pub check_scrubber : Files → Bytes → Config → Option Config
unfolding resolve Option.bind
check_scrubber files username config =
    Option.bind (resolve files username x_ok config.scrubber_filename)
      λ path. some (record config { scrubber_filename = path })

-- The checks of the files. A configuration that fails them is used by no caller.
unfoldable pub check_files : Files → Bytes → Config → Option Config
unfolding check_file check_database check_scrubber Option.bind
check_files files username config =
    Option.bind (check_file files username config)
      λ c1. Option.bind (check_database files username c1) λ c2. check_scrubber files username c2

-- The string behind a pointer, where a block that is not live may not be read.
unfoldable pub string_at : Buffers → Option ℕ → Run (Option Bytes)
unfolding block
string_at b none = ok none
string_at b (some p) = elim (block b p) [ none ↦ fault | some s ↦ ok (some s) ]

abbrev pub event_cfg : Config → EventCfg
event_cfg c = record {
  apply_dst = c.apply_dst;
  powercontrol = if c.powercontrol then pos 1 else pos 0;
  powerupdelay = c.powerupdelay;
}

-- The configuration, unless the check fails, and g_parsed and g_errors afterwards.
pub record Verdict : Type 0 where
  pub config : Option Config
  pub g_parsed : Option (List Event)
  pub g_errors : List ParseError

module _ (tz : TimeZone) (now : ℤ) (sort : List Event → List Event) where
  -- "CHECK SCHEDULED EVENTS", on the event list of `cfg`: whether it passes. str2arr()
  -- leaves errno at 0.
  unfoldable pub check_events :
      Config
      → Buffers
      → Option (List Event)
      → List ParseError
      → Run (Bool × Option (List Event) × List ParseError)
  unfolding string_at str2arr arrlen event_test_parse
  check_events cfg b g_parsed g_errors = do
    liststring ← string_at b cfg.liststring
    let eventarray = str2arr liststring
    let t = event_test_parse tz (event_cfg cfg) now sort g_parsed g_errors 0 eventarray
    ok (
        if is_zero (arrlen eventarray)
        then (true, g_parsed, g_errors)
        else (not (ltb_ℤ (pos 0) t.result), t.g_parsed, t.g_errors))

  -- cfg_check()
  unfoldable pub cfg_check :
      Files
      → Bytes
      → Config
      → Config
      → Buffers
      → Option (List Event)
      → List ParseError
      → Run Verdict
  unfolding check_files check_events
  cfg_check files ename cfg config b g_parsed g_errors =
      elim (check_files files (executing_username ename config) config) [
        | none ↦ ok record { config = none; g_parsed = g_parsed; g_errors = g_errors }
        | some c ↦ do
          (passes, parsed, errors) ← check_events cfg b g_parsed g_errors
          ok record {
            config = if passes then some c else none;
            g_parsed = parsed;
            g_errors = errors;
          }
      ]
