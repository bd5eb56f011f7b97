-- ===== src/Daemon.antt =====
-- daemon.c: the daemon's state, its signal handlers, and the branches of the main loop for the interval
-- timer and the timeouts; event_execute() of event.c, and build_fdset(). Logging is left out. The
-- results of fork(), waitpid() and kill() are arguments; a timer is what was last asked for it.
pub mod State
pub mod Execute
pub mod Pump
pub mod Due
pub mod Initialize
pub mod InitializeLaws
pub mod PumpLaws
pub mod Expired
pub mod Reload
pub mod ReloadLaws
pub mod Kept
pub mod Branches
pub mod Rounds
pub mod RoundsLaws
use icmond.Prelude.{
  ℕ, suc, ◌+◌, Bool, true, false, not, ◌||◌, ltb, leb, ◌==◌, if◌then◌else◌, List, [], ◌∷◌, Option,
  none, some, ℤ, pos, negsuc, ltb_ℤ, eqb_ℤ, Run, ok, exited, ◌>>=◌,
}
use icmond.EventTypes.{
  Event, action_suspend, action_resume, action_poweroff, action_poweron, action_importtmpfs,
  action_importtmpfstimeout,
}
use icmond.EventHeap.{Alloc, Heap}
use icmond.Event.Time.{TimeZone, EventCfg}
use icmond.Event.Store.{event_create}

-- struct daemon_t, without the file descriptors, and the counters of execstats
pub record Daemon : Type 0 where
  pub running : Bool
  pub suspended_by_command : Bool
  pub suspended_by_schedule : Bool
  pub worker_pid : ℤ
  pub worker_armed : Bool
  pub collecttmpfs_pid : ℤ
  pub collecttmpfs_armed : Bool
  pub n_interval_ticks : ℕ
  pub n_datalog_actions : ℕ
  pub n_datalog_success : ℕ

-- `this` and `execstats` as the daemon starts
abbrev pub started : Daemon
started = record {
  running = true;
  suspended_by_command = false;
  suspended_by_schedule = false;
  worker_pid = pos 0;
  worker_armed = false;
  collecttmpfs_pid = pos 0;
  collecttmpfs_armed = false;
  n_interval_ticks = 0;
  n_datalog_actions = 0;
  n_datalog_success = 0;
}

abbrev pub exit_success : ℕ
exit_success = 0

abbrev pub exit_failure : ℕ
exit_failure = 1

-- daemon_suspend()
unfoldable pub daemon_suspend : Daemon → ℕ × Daemon
daemon_suspend d = (exit_success, record d { suspended_by_schedule = true })

-- daemon_resume()
unfoldable pub daemon_resume : Daemon → ℕ × Daemon
daemon_resume d = (exit_success, record d { suspended_by_schedule = false })

-- handle_SIGTERM()
unfoldable pub handle_sigterm : Daemon → Daemon
handle_sigterm d = record d { running = false }

-- handle_SIGUSR1()
unfoldable pub handle_sigusr1 : Daemon → Daemon
handle_sigusr1 d = if d.suspended_by_command then d else record d { suspended_by_command = true }

-- handle_SIGUSR2()
unfoldable pub handle_sigusr2 : Daemon → Daemon
handle_sigusr2 d = if d.suspended_by_command then record d { suspended_by_command = false } else d

-- What waitpid() stores of a child: WEXITSTATUS, WTERMSIG, or neither.
pub data WaitStatus : Type 0 where
  exit_code signal_number : ℕ → WaitStatus
  neither : WaitStatus

abbrev pub is_success : WaitStatus → Bool
is_success (exit_code n) = n == 0
is_success (signal_number n) = false
is_success neither = false

-- handle_SIGCHLD(), for the result and the status of waitpid()
unfoldable pub handle_sigchld : ℤ → WaitStatus → Daemon → Daemon
handle_sigchld pid status d =
    if eqb_ℤ pid (pos 0)
    then d
    else if eqb_ℤ pid d.worker_pid
    then record d {
      worker_pid = pos 0;
      worker_armed = false;
      n_datalog_success =
          if is_success status then suc d.n_datalog_success else d.n_datalog_success;
    }
    else if eqb_ℤ pid d.collecttmpfs_pid
    then record d { collecttmpfs_pid = pos 0; collecttmpfs_armed = false }
    else d

-- Where the code behind fork() goes on: in the daemon, or in the child, which runs the datalogger and
-- ends.
pub data Forked : Type 0 where
  parent : Daemon → Forked
  child : Forked

-- the daemon's part behind fork()
unfoldable pub after_fork : ℤ → Daemon → Forked
after_fork fork d =
    if ltb_ℤ fork (pos 0)
    then parent (record d { worker_pid = pos 0 })
    else if ltb_ℤ (pos 0) fork
    then parent (record d {
      worker_pid = fork;
      worker_armed = true;
      n_datalog_actions = suc d.n_datalog_actions;
    })
    else child

-- the branch of daemon_main() for the interval timer; `fork` is what fork() returns if it is called
unfoldable pub interval_tick : ℤ → Daemon → Forked
unfolding after_fork
interval_tick fork d =
    let ticked = record d { n_interval_ticks = suc d.n_interval_ticks } in
    if d.suspended_by_command || d.suspended_by_schedule
    then parent ticked
    else if not (eqb_ℤ d.worker_pid (pos 0))
    then parent ticked
    else after_fork fork ticked

-- the branch of daemon_main() for the datalogger's timeout: the pid that SIGKILL goes to, and the state
unfoldable pub worker_timeout : Bool → Daemon → Run (ℤ × Daemon)
worker_timeout killed d =
    if killed then ok (d.worker_pid, record d { worker_armed = false }) else exited

-- the branch of daemon_main() for the timeout of the import of the tmpfs
unfoldable pub collecttmpfs_timeout : Bool → Daemon → Run (ℤ × Daemon)
collecttmpfs_timeout killed d =
    if killed then ok (d.collecttmpfs_pid, record d { collecttmpfs_armed = false }) else exited

-- The descriptors that are not zero, and the greatest of them and of a first bound.
unfoldable pub build_fdset : ℕ → List ℕ → List ℕ × ℕ
build_fdset range [] = ([], range)
build_fdset range (fd ∷ fds) =
    let (rest, r) = build_fdset (if ltb fd range then range else fd) fds in
    if fd == 0 then build_fdset range fds else (fd ∷ rest, r)

module _ (m : Alloc) (tz : TimeZone) (cfg : EventCfg) (timeout : ℤ) (now later : ℤ) where
  -- daemon_importtmpfs(); `timeout` is DAEMON_IMPORTTMPFS_TIMEOUT
  unfoldable pub daemon_importtmpfs : Option Heap → Run (ℕ × Option Heap)
  daemon_importtmpfs g = do
    (time, g') ← event_create m tz cfg now later g (pos action_importtmpfstimeout) timeout
    if ltb_ℤ time (pos 0) then exited else ok (exit_success, g')

  -- event_execute(): the result, the daemon's state and the schedule
  unfoldable pub event_execute : Event → Daemon → Option Heap → Run (ℕ × Daemon × Option Heap)
  unfolding daemon_suspend daemon_resume daemon_importtmpfs
  event_execute event d g =
      let imported : Run (ℕ × Daemon × Option Heap) = do
        (rc, g') ← daemon_importtmpfs g
        ok (rc, d, g')
      in let (suspend_rc, suspended) = daemon_suspend d in
        let (resume_rc, resumed) = daemon_resume d in
        if event.action == action_suspend
        then ok (suspend_rc, suspended, g)
        else if event.action == action_resume
        then ok (resume_rc, resumed, g)
        else if event.action == action_poweroff || event.action == action_poweron
        then ok (exit_success, d, g)
        else if event.action == action_importtmpfs
        then imported
        else ok (exit_failure, d, g)
