-- ===== src/Tests/Rounds.antt =====
-- Runs of the main loop of the daemon and of its reload.
use icmond.Prelude.{
  ◌≡◌, refl, Bool, true, false, not, [], ◌∷◌, Option, none, some, ℤ, pos, Run, ok, fault, arith,
  ◌>>=◌, ◌+ℤ◌,
}
use icmond.EventTypes.{codes}
use icmond.Text.{str_eq}
use icmond.EventHeap.{heap_size, insert, fetch, heapify, bubble_up}
use icmond.EventHeap.Order.{count}
use icmond.Event.Time.{schedule_next_trigger}
use icmond.Config.{default_fileconfig}
use icmond.Config.Lines.{Files}
use icmond.Config.Check.{check_files}
use icmond.Daemon.{Daemon, started}
use icmond.Daemon.State.{start}
use icmond.Daemon.Reload.{Settings, handle_sighup}
use icmond.Config.Argv.{is_option}
use icmond.Daemon.ReloadLaws.{handle_sighup-fault}
use icmond.Daemon.Rounds.{Round, Loop, round, daemon_loop}
use icmond.Daemon.Branches.{OrExits}
use icmond.Daemon.RoundsLaws.{Rounded, round-Rounded}
use icmond.Tests.Config.{bump, current, strings, current-Owned, current-Apart}
use icmond.Tests.Heap.{malloc}
use icmond.Tests.Schedule.{utc}
use icmond.Tests.Timer.{
  utc_days-tomorrow, utc_days, schedule, schedule-WellFormed, no_timers, calls,
}

abbrev settings : Settings
settings = record {
  cfg = current;
  buffers = strings;
  timers = no_timers;
  g_heap = some schedule;
  g_parsed = none;
  g_errors = [];
}

-- A system with every file but the configuration file.
abbrev no_config : Files
no_config = record {
  exists = λ name. not (str_eq name default_fileconfig);
  useraccess = λ name user mode. true;
  realpath = λ name. some name;
}

handle_sighup-fault_example :
    handle_sighup malloc bump no_config
      (λ name. none)
      (codes "icmond" ∷ [])
      utc
      (pos 9)
      (λ es. es)
      (codes "root")
      calls
      settings
    ≡ fault
unfolding str_eq check_files is_option
handle_sighup-fault_example =
    handle_sighup-fault malloc bump no_config (λ name. none) utc (pos 9) (λ es. es) (codes "root")
      calls (codes "icmond") settings 1 refl current-Owned current-Apart refl refl
      (λ hosts. (_, refl))

-- The interval timer and the schedule timer have expired.
abbrev busy : Round
busy = record {
  selected = true;
  signal = icmond.Daemon.Rounds.no_signal;
  interval_expired = true;
  fork = pos 300;
  worker_expired = false;
  worker_killed = true;
  collecttmpfs_expired = false;
  collecttmpfs_killed = true;
  schedule_timer_expired = true;
  schedule_set = true;
  now = pos 9;
  clock = λ k. pos 9;
}

round-Rounded_example :
    OrExits
      (Rounded malloc utc_days (λ s. ok s) busy true)
      (round malloc utc_days (λ s. ok s) busy (started, settings))
round-Rounded_example =
    round-Rounded malloc utc_days (λ s. ok s) busy started settings start
      (schedule-WellFormed, unfold count in refl)
      (record {
        since = λ k. omega arith;
        next_day = λ k localoffset since. utc_days-tomorrow _ localoffset;
        timeout_pos = omega arith;
      })
      refl refl

abbrev pids : Option Loop → Run (ℤ × Bool)
pids none = fault
pids (some (d, s)) = ok (d.worker_pid, d.suspended_by_schedule)

-- The loop starts a worker in the first round, and ends in the second one.
loop_runs :
    (daemon_loop malloc utc_days
        (λ s. ok s)
        (record busy { schedule_timer_expired = false }
          ∷ (record busy { signal = icmond.Daemon.Rounds.sigterm; interval_expired = false } ∷ []))
        (started, settings)
      >>= pids)
    ≡ ok (pos 300, false)
unfolding daemon_loop ◌+ℤ◌ schedule_next_trigger heapify bubble_up insert fetch heap_size
loop_runs = refl
