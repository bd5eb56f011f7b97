-- ===== src/Main/Predaemon.antt =====
-- main.c: predaemon_initialize(), which decides whether the records go to a ramdisk first.
use icmond.Prelude.{ℕ, Bool, not, ◌==◌, if◌then◌else◌, Option, none, some, ℤ, pos, Run, ok, ◌>>=◌}
use icmond.EventTypes.{Bytes, codes, action_importtmpfs}
use icmond.EventHeap.{Alloc, Heap}
use icmond.Event.Time.{TimeZone, EventCfg, is_zero}
use icmond.Event.Store.{event_create}
use icmond.Config.{Config, tmpfs_false, tmpfs_true, tmpfs_auto}
use icmond.Config.Blocks.{Buffers, Malloc, allocate}
use icmond.Config.Lines.{run_as_user}
use icmond.Daemon.{exit_success, exit_failure}
use icmond.User.{Credentials, System, user_set_eugid, user_restore_eugid}

-- What the calls give: whether the database is too slow for the limits of config.h, if that can be
-- measured, and whether the ramdisk is mounted and its database made.
pub record Services : Type 0 where
  pub too_slow : Option Bool
  pub mounted : Bool
  pub initialized : Bool

-- What predaemon_initialize() changes: `cfg`, the buffers, the ids of the process, and g_heap.
pub record Process : Type 0 where
  pub cfg : Config
  pub buffers : Buffers
  pub ids : Credentials
  pub schedule : Option Heap

-- DAEMON_TMPFS_DATABASEFILE and DAEMON_IMPORTTMPFS_INTERVAL
abbrev pub tmpfs_databasefile : Bytes
tmpfs_databasefile = codes "/tmp/icmond.tmpfs/icmond.sqlite3"

abbrev pub importtmpfs_interval : ℤ
importtmpfs_interval = pos 600

-- "Test if so configured": `cfg.execute.tmpfs` behind the test, or none where the test fails
unfoldable pub decide_tmpfs : Option Bool → ℕ → Option ℕ
decide_tmpfs too_slow tmpfs =
    if tmpfs == tmpfs_auto
    then elim too_slow [ none ↦ none | some slow ↦ some (if slow then tmpfs_true else tmpfs_false) ]
    else some tmpfs

module _ (m : Malloc) (a : Alloc) (tz : TimeZone) (cfg : EventCfg) (now later : ℤ) (k : System)
    (s : Services) where
  -- The end of the branch for the ramdisk: the database, and the event that saves it.
  unfoldable pub fill_tmpfs : Process → Run (ℕ × Process)
  unfolding user_restore_eugid event_create
  fill_tmpfs p =
      let (rc, ids) = user_restore_eugid k p.ids in
      let back = record p { ids = ids } in
      let scheduled : Run (ℕ × Process) = do
        (time, g) ←
            event_create a tz cfg now later p.schedule (pos action_importtmpfs) importtmpfs_interval
        ok (if is_zero time then exit_success else exit_failure, record back { schedule = g })
      in if not s.initialized
        then ok (exit_failure, p)
        else if not (rc == 0)
        then ok (exit_failure, back)
        else scheduled

  -- `if (cfg.execute.tmpfs == TRUE)`
  unfoldable pub create_tmpfs : Process → Run (ℕ × Process)
  unfolding user_set_eugid fill_tmpfs
  create_tmpfs p =
      let (name, b) = allocate m tmpfs_databasefile p.buffers in
      let named = record p { cfg = record p.cfg { tmpfsfilename = some name }; buffers = b } in
      let filled : Run (ℕ × Process) = do
        (rc, ids) ← user_set_eugid k run_as_user p.ids
        let as_user = record named { ids = ids }
        let rest = fill_tmpfs as_user
        if rc == exit_failure then ok (exit_failure, as_user) else rest
      in if s.mounted then filled else ok (exit_failure, p)

  -- predaemon_initialize(), behind the test
  unfoldable pub with_decision : Process → Option ℕ → Run (ℕ × Process)
  unfolding create_tmpfs
  with_decision p none = ok (exit_failure, p)
  with_decision p (some tmpfs) =
      let decided = record p { cfg = record p.cfg { tmpfs = tmpfs } } in
      let with_tmpfs = create_tmpfs decided in
      if tmpfs == tmpfs_true then with_tmpfs else ok (exit_success, decided)

  -- predaemon_initialize()
  unfoldable pub predaemon_initialize : Process → Run (ℕ × Process)
  unfolding decide_tmpfs with_decision
  predaemon_initialize p = with_decision p (decide_tmpfs s.too_slow p.cfg.tmpfs)
