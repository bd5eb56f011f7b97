-- ===== src/Daemon/Reload.antt =====
-- daemon.c: handle_SIGHUP(), which reads the configuration anew.
use icmond.Prelude.{List, Option, none, some, ℤ, Run, ok, ◌>>=◌, if◌then◌else◌}
use icmond.EventTypes.{Bytes, Event}
use icmond.EventHeap.{Alloc, Heap}
use icmond.Event.Time.{TimeZone}
use icmond.Event.Parse.{ParseError}
use icmond.Config.{Config, cfg_init, cfg_dup, cfg_commit, cfg_free}
use icmond.Config.Blocks.{Buffers, Malloc}
use icmond.Config.Lines.{Files}
use icmond.Config.File.{cfg_read_file}
use icmond.Config.Argv.{cfg_preread_commandline, cfg_read_argv}
use icmond.Config.Check.{Verdict, cfg_check}
use icmond.Daemon.Initialize.{Timers, Calls, daemon_initialize}
use icmond.Main.{arguments_of}

-- What the handler works on: `cfg`, the strings, the timers, and the schedule with the parsed events and
-- the errors of their strings.
pub record Settings : Type 0 where
  pub cfg : Config
  pub buffers : Buffers
  pub timers : Timers
  pub g_heap : Option Heap
  pub g_parsed : Option (List Event)
  pub g_errors : List ParseError

-- The result of cfg_preread_commandline() is not looked at; the arguments are those that main() has read.
abbrev pub or_unread : Option Config → Config → Config
or_unread none c = c
or_unread (some c') c = c'

-- `cmdline` is the command line that main() saved; `ename` is the name of the effective user.
module _ (a : Alloc) (m : Malloc) (files : Files) (open_file : Bytes → Option (List Bytes))
    (cmdline : List Bytes) (tz : TimeZone) (now : ℤ) (sort : List Event → List Event)
    (ename : Bytes) (calls : Calls) where
  -- cfg_commit(), cfg_free() and daemon_initialize(), behind the checks
  unfoldable pub apply_settings : Config → Settings → Run Settings
  unfolding cfg_commit cfg_free daemon_initialize
  apply_settings newcfg s = do
    (cfg, b1) ← cfg_commit s.cfg newcfg s.buffers
    b2 ← cfg_free cfg newcfg b1
    (timers, g_heap, g_parsed) ← daemon_initialize a calls cfg.interval s.timers s.g_heap s.g_parsed
    ok (record s { cfg = cfg; buffers = b2; timers = timers; g_heap = g_heap; g_parsed = g_parsed })

  -- the end of handle_SIGHUP(), for what cfg_check() gives
  abbrev pub judged : Verdict → Settings → Run Settings
  judged verdict s =
      let checked = record s { g_parsed = verdict.g_parsed; g_errors = verdict.g_errors } in
      elim verdict.config [ none ↦ ok checked | some newcfg ↦ apply_settings newcfg checked ]

  -- "We need to overwrite those values that are specified in the commandline", and cfg_check()
  unfoldable pub override_and_check : Config → Settings → Run Settings
  unfolding cfg_read_argv cfg_check apply_settings
  override_and_check newcfg s = do
    (success, new, b) ← cfg_read_argv m (arguments_of cmdline) 0 newcfg s.buffers
    verdict ← cfg_check tz now sort files ename s.cfg new b s.g_parsed s.g_errors
    judged verdict (record s { buffers = b })

  -- handle_SIGHUP()
  unfoldable pub handle_sighup : Settings → Run Settings
  unfolding cfg_init cfg_dup cfg_preread_commandline cfg_read_file cfg_free override_and_check
  handle_sighup s = do
    (fresh, b0) ← cfg_init m (cfg_dup s.cfg) s.buffers
    let newcfg = or_unread (cfg_preread_commandline files cmdline fresh) fresh
    (success, new, b1) ← cfg_read_file m files (open_file newcfg.filename) newcfg b0
    let unread : Run Settings = cfg_free s.cfg new b1 >>= λ b. ok (record s { buffers = b })
    let rest = override_and_check new (record s { buffers = b1 })
    (if success then rest else unread)
