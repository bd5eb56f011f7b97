-- ===== src/Main/Daemonize.antt =====
-- main.c: daemonize(), in the process that becomes the daemon and in the one that waits for it, and the
-- lock of pidfile.c. Logging and the streams are left out.
use icmond.Prelude.{
  ℕ, Bool, not, ◌==◌, if◌then◌else◌, Option, none, some, ℤ, pos, ltb_ℤ, Run, ok, ◌>>=◌,
}
use icmond.EventTypes.{Bytes}
use icmond.Config.Lines.{run_as_user}
use icmond.Daemon.{exit_success, exit_failure}
use icmond.User.{Credentials, System, user_changeto}

-- The signals that the waiting process has a handler for, and any other.
pub data ParentSignal : Type 0 where
  sigusr1 sigusr2 sigchld sigalrm unknown : ParentSignal

-- daemonchild_handler(): the exit code
unfoldable pub daemonchild_handler : ParentSignal → ℕ
daemonchild_handler sigusr1 = exit_success
daemonchild_handler sigusr2 = exit_failure
daemonchild_handler sigchld = exit_failure
daemonchild_handler sigalrm = exit_failure
daemonchild_handler unknown = exit_failure

-- pidfile_lock(), for a file name, where the file is opened or not, and locked or not
unfoldable pub pidfile_lock : Option Bytes → Bool → Bool → ℕ
pidfile_lock none opened locked = exit_failure
pidfile_lock (some filename) opened locked =
    if not opened then exit_failure else if not locked then exit_failure else exit_success

-- What the calls of daemonize() return: whether the parent is init, whether the capabilities can be set,
-- what fork() returns, the signal that ends pause(), whether setsid() and chdir() succeed, and whether the
-- PID file is opened and locked.
pub record Launch : Type 0 where
  pub parent_is_init : Bool
  pub capable : Bool
  pub forked : ℤ
  pub awaited : ParentSignal
  pub session_created : Bool
  pub directory_changed : Bool
  pub pidfile_opened : Bool
  pub pidfile_locked : Bool

-- How daemonize() ends: it returns, in the daemon, or the process exits with a code; with the signal
-- that was sent to the parent.
pub data Launched : Type 0 where
  daemon : Credentials → Option ParentSignal → Launched
  ended : ℕ → Option ParentSignal → Launched

-- `if (run_as_daemon)`, a signal to the parent
abbrev pub signal_if : Bool → ParentSignal → Option ParentSignal
signal_if run_as_daemon signal = if run_as_daemon then some signal else none

-- `pidfile` is DAEMON_PIDFILE.
module _ (s : Launch) (pidfile : Bytes) where
  -- daemonize(), from "Executing as the child process" on
  unfoldable pub continue_as_daemon : Bool → Credentials → Launched
  unfolding pidfile_lock
  continue_as_daemon run_as_daemon ids =
      if not s.session_created
      then ended exit_failure none
      else if not s.directory_changed
      then ended exit_failure none
      else if not (pidfile_lock (some pidfile) s.pidfile_opened s.pidfile_locked == 0)
      then ended exit_failure (signal_if run_as_daemon sigusr2)
      else daemon ids (signal_if run_as_daemon sigusr1)

  -- `if (run_as_daemon)`: fork(), and the wait of the parent
  unfoldable pub fork_daemon : Bool → Credentials → Launched
  unfolding continue_as_daemon daemonchild_handler
  fork_daemon run_as_daemon ids =
      if not run_as_daemon
      then continue_as_daemon run_as_daemon ids
      else if ltb_ℤ s.forked (pos 0)
      then ended exit_failure none
      else if ltb_ℤ (pos 0) s.forked
      then ended (daemonchild_handler s.awaited) none
      else continue_as_daemon run_as_daemon ids

  -- daemonize()
  unfoldable pub daemonize : System → Bool → Credentials → Run Launched
  unfolding user_changeto fork_daemon
  daemonize k run_as_daemon c =
      let changed : Run Launched = do
        (rc, ids) ← user_changeto k run_as_user c
        ok (if s.capable then fork_daemon run_as_daemon ids else ended exit_failure none)
      in if s.parent_is_init then ok (ended exit_failure none) else changed
