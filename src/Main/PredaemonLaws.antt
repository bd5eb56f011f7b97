-- ===== src/Main/PredaemonLaws.antt =====
-- What predaemon_initialize() makes of a configuration with the ramdisk, and without it.
use icmond.Prelude.{
  ℕ, ◌≡◌, refl, inl, inr, false, ◌==◌, if◌then◌else◌, Option, none, some, ℤ, pos, ◌<ℤ◌, Run, ok,
  exited, ◌>>=◌, Bool-cases, arith,
}
use icmond.EventTypes.{action_importtmpfs}
use icmond.EventHeap.{Alloc, Heap}
use icmond.EventHeap.Insert.{WellFormed}
use icmond.Event.Time.{TimeZone, EventCfg, is_zero, schedule_next_trigger}
use icmond.Event.Store.{created}
use icmond.Event.Store.Laws.{EntersOne, late, entered, event_create_correct}
use icmond.Config.{tmpfs_true}
use icmond.Config.Blocks.{Malloc}
use icmond.Config.Lines.{run_as_user}
use icmond.Daemon.{exit_success, exit_failure}
use icmond.User.{System, user_restore_eugid}
use icmond.User.Laws.{user_set_eugid-ends}
use icmond.Main.Predaemon.{
  Services, Process, importtmpfs_interval, decide_tmpfs, fill_tmpfs, create_tmpfs, with_decision,
  predaemon_initialize,
}

-- How predaemon_initialize() ends where it decides for a value of tmpfs, or cannot.
pub data Decided (p : Process) : Option ℕ → Run (ℕ × Process) → Type 0 where
  unmeasured : Decided p none (ok (exit_failure, p))
  direct :
      {tmpfs : ℕ}
      → (tmpfs == tmpfs_true) ≡ false
      → Decided p
          (some tmpfs)
          (ok (exit_success, record p { cfg = record p.cfg { tmpfs = tmpfs } }))
  failed : {p' : Process} → Decided p (some tmpfs_true) (ok (exit_failure, p'))
  stopped : Decided p (some tmpfs_true) exited

-- A call that fails or stops the process.
data Fails : Run (ℕ × Process) → Type 0 where
  returns_failure : {p : Process} → Fails (ok (exit_failure, p))
  exits : Fails exited

Fails-Decided : (p : Process) (r : Run (ℕ × Process)) → Fails r → Decided p (some tmpfs_true) r
Fails-Decided p _ returns_failure = failed
Fails-Decided p _ exits = stopped

module _ (m : Malloc) (a : Alloc) (tz : TimeZone) (cfg : EventCfg) (now later : ℤ) (k : System)
    (s : Services) where
  scheduled-Fails :
      (p : Process) (r : Run (ℤ × Option Heap))
      → pos 0 <ℤ later
      → EntersOne a p.schedule
          (schedule_next_trigger tz cfg now (created action_importtmpfs importtmpfs_interval))
          later
          r
      → Fails (
          r >>= λ (time, g).
          ok (if is_zero time then exit_success else exit_failure, record p { schedule = g }))
  scheduled-Fails p _ future (late before) = exits
  scheduled-Fails p _ future (entered after i) =
      let there : is_zero
            (schedule_next_trigger tz cfg now
              (created action_importtmpfs importtmpfs_interval)).next_trigger
          ≡ false =
        ground (arith, after, future) in
      rw there returns_failure

  fill_tmpfs-Fails :
      (p : Process)
      → pos 0 <ℤ later
      → WellFormed a p.schedule
      → Fails (fill_tmpfs m a tz cfg now later k s p)
  unfolding fill_tmpfs
  fill_tmpfs-Fails p future v = elim (Bool-cases s.initialized) [
    | inr no_database ↦ rw no_database returns_failure
    | inl database ↦ elim (Bool-cases ((user_restore_eugid k p.ids).0 == 0)) [
      | inr unrestored ↦ rw (database, unrestored) returns_failure
      | inl back ↦
          rw (database, back)
            (scheduled-Fails (record p { ids = (user_restore_eugid k p.ids).1 }) _ future
              (event_create_correct a tz cfg now later p.schedule action_importtmpfs
                importtmpfs_interval refl v))
    ]
  ]

  create_tmpfs-Fails :
      (p : Process)
      → pos 0 <ℤ later
      → WellFormed a p.schedule
      → Fails (create_tmpfs m a tz cfg now later k s p)
  unfolding create_tmpfs
  create_tmpfs-Fails p future v = elim (Bool-cases s.mounted) [
    | inr unmounted ↦ rw unmounted returns_failure
    | inl mounted ↦ elim (user_set_eugid-ends k run_as_user p.ids) [
      | inl exits_ ↦ rw (mounted, exits_) exits
      | inr ((rc, ids), run) ↦ elim (Bool-cases (rc == exit_failure)) [
        | inl fails ↦ rw (mounted, run, fails) returns_failure
        | inr works ↦ rw (mounted, run, works) (fill_tmpfs-Fails _ future v)
      ]
    ]
  ]

  with_decision-Decided :
      (p : Process) (decision : Option ℕ)
      → pos 0 <ℤ later
      → WellFormed a p.schedule
      → Decided p decision (with_decision m a tz cfg now later k s p decision)
  unfolding with_decision
  with_decision-Decided p none future v = unmeasured
  with_decision-Decided p (some tmpfs) future v = elim (Bool-cases (tmpfs == tmpfs_true)) [
    | inr without ↦ rw without (direct without)
    | inl with_ ↦
        let is_true : tmpfs ≡ tmpfs_true = ground arith in
        rw is_true (Fails-Decided p _ (create_tmpfs-Fails _ future v))
  ]

  -- predaemon_initialize(), on a well-formed schedule and at a time behind 1970, goes on only without the
  -- ramdisk: where the configuration asks for it, or leaves it open and the database is too slow, the call
  -- fails or the process exits, whatever the calls give; it fails too where it cannot measure that. In
  -- every other case it succeeds, and changes nothing but that the ramdisk is decided against.
  pub predaemon_initialize-Decided :
      (p : Process)
      → pos 0 <ℤ later
      → WellFormed a p.schedule
      → Decided p
          (decide_tmpfs s.too_slow p.cfg.tmpfs)
          (predaemon_initialize m a tz cfg now later k s p)
  unfolding predaemon_initialize
  predaemon_initialize-Decided p future v = with_decision-Decided p _ future v
