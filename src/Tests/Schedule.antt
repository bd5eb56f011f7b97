-- ===== src/Tests/Schedule.antt =====
-- Runs of event.c and daemon.c, and their theorems at concrete schedules, strings and states.
use icmond.Prelude.{
  ◌+◌, ◌≡◌, refl, true, false, none, some, List, [], ◌∷◌, All, pos, ◌<ℤ◌, ◌+ℤ◌, Returns, ◌==◌,
  if◌then◌else◌, arith, length,
}
use icmond.EventTypes.{Bytes, Event, codes, type_interval}
use icmond.Text.{is_space}
use icmond.Event.Time.{TimeZone, EventCfg}
use icmond.Event.Strtol.{strtol}
use icmond.Event.Parse.{
  parse_events, parse_event, event_test_parse, einval, read_type, read_hours, read_minutes,
  read_action, assemble, parse_minutes,
}
use icmond.Event.Accepted.{IsAccepted, parse_events-IsAccepted}
use icmond.Event.Check.{parse_events-out_of_range, event_test_parse_counts}
use icmond.Event.Store.{event_schedule_clear}
use icmond.Event.Store.Laws.{Cleared, event_schedule_clear_correct}
use icmond.Daemon.{Daemon, started, interval_tick, after_fork, worker_timeout, handle_sigusr1}
use icmond.Daemon.{event_execute}
use icmond.Daemon.Execute.{Executed, timeout_event, event_execute-Executed}
use icmond.Daemon.State.{
  Reachable, Step, IsSound, reachable-IsSound, worker_timeout-kills_worker, Step-starts_none,
}
use icmond.Arrays.Collapse.{nonempty_strings}
use icmond.Tests.Heap.{malloc, two, two-WellFormed}

-- A time zone of UTC whose days all fall on the first one.
abbrev pub utc : TimeZone
utc = record {
  localtime = λ t. record {
    year = pos 70;
    mon = pos 0;
    mday = pos 1;
    hour = pos 0;
    min = pos 0;
    sec = pos 0;
    isdst = pos 0;
  };
  mktime = λ tm. (pos 0, tm);
}

abbrev pub plain : EventCfg
plain = record { apply_dst = pos 0; powercontrol = pos 0; powerupdelay = pos 0 }

event_schedule_clear_correct_example :
    Returns (Cleared malloc 2 (some two)) (event_schedule_clear malloc 2 (some two))
event_schedule_clear_correct_example =
    event_schedule_clear_correct malloc 2 (some two) two-WellFormed

abbrev hourly : Event
hourly = record {
  next_trigger = pos 100;
  localoffset = pos 3600;
  type = type_interval;
  action = 7;
  source = 2;
}

abbrev strings : List Bytes
strings = codes "07:30 resume" ∷ codes "@25:00 watchdog" ∷ codes "24:00 suspend" ∷ []

parse_events-IsAccepted_example : All IsAccepted ((parse_events utc plain (pos 9) 0 strings).events)
parse_events-IsAccepted_example = parse_events-IsAccepted utc plain (pos 9) 0 strings

abbrev too_long : Bytes
too_long = codes "@99999999999:00 watchdog"

parse_events-out_of_range_example :
    (parse_events utc plain (pos 9) 0 (too_long ∷ codes "07:30 resume" ∷ [])).events ≡ []
unfolding strtol read_type is_space
parse_events-out_of_range_example =
    parse_events-out_of_range utc plain (pos 9) 0 b'@' (codes "99999999999:00 watchdog")
      (codes "07:30 resume" ∷ []) refl

event_test_parse_counts_example :
    let p = parse_events utc plain (pos 9) 0 (nonempty_strings strings) in
    let r = event_test_parse utc plain (pos 9) (λ es. es) none [] 0 (some strings) in
    (length p.events + length p.errors ≡ length (nonempty_strings strings))
    × (r.result ≡ pos (length p.errors))
    × (r.errno ≡ (if length p.errors == 0 then 0 else einval))
event_test_parse_counts_example =
    event_test_parse_counts utc plain (pos 9) (λ es. es) none [] 0 strings
      (unfold nonempty_strings in omega arith)

-- The daemon with a worker whose timeout runs.
abbrev working : Daemon
working = record started {
  worker_pid = pos 77;
  worker_armed = true;
  n_datalog_actions = 1;
  n_interval_ticks = 1;
}

working_Reachable : Reachable working
unfolding interval_tick after_fork
working_Reachable = Reachable.next Reachable.start (Step.tick (pos 77) refl)

reachable-IsSound_example : IsSound working
reachable-IsSound_example = reachable-IsSound working working_Reachable

worker_timeout-kills_worker_example :
    Returns (λ (pid, d'). (pos 0 <ℤ pid) × (d'.worker_armed ≡ false)) (worker_timeout true working)
worker_timeout-kills_worker_example = worker_timeout-kills_worker working working_Reachable refl

Step-starts_none_example : (handle_sigusr1 working).n_datalog_actions ≡ 1
Step-starts_none_example = Step-starts_none working (handle_sigusr1 working) Step.sigusr1 refl

event_execute-Executed_example :
    Executed malloc
      (some two)
      (record hourly { action = 5 })
      (timeout_event malloc utc plain (pos 60) (pos 9) (pos 9))
      (pos 9)
      started
      (event_execute malloc utc plain
        (pos 60)
        (pos 9)
        (pos 9)
        (record hourly { action = 5 })
        started
        (some two))
event_execute-Executed_example =
    event_execute-Executed malloc utc plain (pos 60) (pos 9) (pos 9) (record hourly { action = 5 })
      started (some two) (omega arith) two-WellFormed

-- The first two strings are accepted and the third is not: 24 is no hour of a day.
strings_read : (length ((parse_events utc plain (pos 9) 0 strings).events) ≡ 2)
unfolding parse_events parse_event read_type read_hours read_minutes read_action assemble
    parse_minutes strtol is_space ◌+ℤ◌
strings_read = refl
