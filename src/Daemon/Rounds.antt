-- ===== src/Daemon/Rounds.antt =====
-- daemon.c: a round of the main loop of daemon_main(), and the loop. A timer that has expired can be read.
use icmond.Prelude.{
  ℕ, ◌+◌, ◌*◌, Bool, List, [], ◌∷◌, Option, none, some, ℤ, pos, Run, ok, exited, out_of_fuel, ◌>>=◌,
  if◌then◌else◌,
}
use icmond.EventHeap.{Alloc, heap_size}
use icmond.Event.Time.{TimeZone}
use icmond.Config.Check.{event_cfg}
use icmond.Daemon.{
  Daemon, handle_sigterm, handle_sigusr1, handle_sigusr2, WaitStatus, handle_sigchld, Forked,
  parent, child, interval_tick, worker_timeout, collecttmpfs_timeout,
}
use icmond.Daemon.Pump.{schedule_expired}
use icmond.Daemon.Reload.{Settings}

-- What the signal descriptor has in a round: nothing, a read that fails, or a signal.
pub data DaemonSignal : Type 0 where
  no_signal unreadable sigterm sighup sigusr1 sigusr2 unexpected : DaemonSignal
  sigchld : ℤ → WaitStatus → DaemonSignal

-- A round: whether pselect() returns, the signal, which timers have expired, and the results of the calls
-- behind them: fork(), the two calls of kill(), time() and timerfd_start_abs().
pub record Round : Type 0 where
  pub selected : Bool
  pub signal : DaemonSignal
  pub interval_expired : Bool
  pub fork : ℤ
  pub worker_expired : Bool
  pub worker_killed : Bool
  pub collecttmpfs_expired : Bool
  pub collecttmpfs_killed : Bool
  pub schedule_timer_expired : Bool
  pub schedule_set : Bool
  pub now : ℤ
  pub clock : ℕ → ℤ

-- The state of the loop: the daemon's, and what handle_SIGHUP() works on.
abbrev pub Loop : Type 0
Loop = Daemon × Settings

-- DAEMON_IMPORTTMPFS_TIMEOUT
abbrev pub importtmpfs_timeout : ℤ
importtmpfs_timeout = pos 60

-- The daemon, where a branch has a pid too.
abbrev pub daemon_of : ℤ × Daemon → Daemon
daemon_of (pid, d) = d

-- `reload` is handle_SIGHUP().
module _ (m : Alloc) (tz : TimeZone) (reload : Settings → Run Settings) where
  -- "Signals"
  unfoldable pub dispatch_signal : DaemonSignal → Loop → Run Loop
  unfolding handle_sigterm handle_sigusr1 handle_sigusr2 handle_sigchld
  dispatch_signal no_signal (d, s) = ok (d, s)
  dispatch_signal unreadable (d, s) = exited
  dispatch_signal sigterm (d, s) = ok (handle_sigterm d, s)
  dispatch_signal sighup (d, s) = reload s >>= λ s'. ok (d, s')
  dispatch_signal sigusr1 (d, s) = ok (handle_sigusr1 d, s)
  dispatch_signal sigusr2 (d, s) = ok (handle_sigusr2 d, s)
  dispatch_signal unexpected (d, s) = ok (d, s)
  dispatch_signal (sigchld pid status) (d, s) = ok (handle_sigchld pid status d, s)

  -- "Worker/Datalogger timeout"
  unfoldable pub handle_worker_timeout : Round → Daemon → Run Daemon
  unfolding worker_timeout
  handle_worker_timeout r d =
      let expired = worker_timeout r.worker_killed d >>= λ x. ok (daemon_of x) in
      if r.worker_expired then expired else ok d

  -- "CollectTMPFS timeout"
  unfoldable pub handle_collecttmpfs_timeout : Round → Daemon → Run Daemon
  unfolding collecttmpfs_timeout
  handle_collecttmpfs_timeout r d =
      let expired = collecttmpfs_timeout r.collecttmpfs_killed d >>= λ x. ok (daemon_of x) in
      if r.collecttmpfs_expired then expired else ok d

  -- "Schedule timer"; the fuel is enough for every schedule
  unfoldable pub handle_schedule : Round → Loop → Run Loop
  unfolding schedule_expired
  handle_schedule r (d, s) =
      let expired : Run Loop =
        schedule_expired m tz (event_cfg s.cfg) importtmpfs_timeout r.now r.clock
          (2 * heap_size s.g_heap + 1) r.schedule_set d s.g_heap
        >>= λ (n_events, d', g', timer). ok (d', record s { g_heap = g' }) in
      if r.schedule_timer_expired then expired else ok (d, s)

  -- "Interval timer (Datalogger)"
  abbrev pub handle_interval : Round → Daemon → Forked
  handle_interval r d = if r.interval_expired then interval_tick r.fork d else parent d

  -- the branches behind the one for the interval timer; none in the child, which ends with datalogger()
  unfoldable pub behind_interval : Round → Settings → Forked → Run (Option Loop)
  unfolding handle_worker_timeout handle_collecttmpfs_timeout handle_schedule
  behind_interval r s child = ok none
  behind_interval r s (parent d) = do
    d1 ← handle_worker_timeout r d
    d2 ← handle_collecttmpfs_timeout r d1
    l ← handle_schedule r (d2, s)
    ok (some l)

  -- a round of the main loop of daemon_main()
  unfoldable pub round : Round → Loop → Run (Option Loop)
  unfolding dispatch_signal interval_tick behind_interval
  round r l =
      let body : Run (Option Loop) = do
        (d, s) ← dispatch_signal r.signal l
        behind_interval r s (handle_interval r d)
      in if r.selected then body else exited

  -- the main loop, over its rounds: none in a child, and the state where it ends
  unfoldable pub daemon_loop : List Round → Loop → Run (Option Loop)
  unfolding round
  daemon_loop [] l = out_of_fuel
  daemon_loop (r ∷ rs) l = round r l >>= λ next. elim next [
    | none ↦ ok none
    | some l' ↦ (let rest = daemon_loop rs l' in if l'.0.running then rest else ok (some l'))
  ]
