-- ===== src/Tests/Timer.antt =====
-- Runs of the branch of daemon.c for the schedule timer.
use icmond.Prelude.{
  ◌-ℤ◌, Returns, List, [], ◌∷◌, ℕ, ◌≤◌, pos_part, int_laws, ◌+◌, ◌*◌, ◌≡◌, refl, Bool, true, false,
  if◌then◌else◌, ◌==◌, Option, none, some, ℤ, pos, ◌<ℤ◌, ◌+ℤ◌, Run, ok, out_of_fuel, ◌>>=◌, arith,
}
use icmond.EventTypes.{source_parsed, Event, type_interval, type_once}
use icmond.EventHeap.{Heap, heap_size, insert, fetch, heapify, bubble_up}
use icmond.Event.Store.{sift_events, insert_all}
use icmond.EventHeap.Insert.{count_in, WellFormed}
use icmond.Event.Time.{
  Tm, TimeZone, EventCfg, get_days, get_hours, get_minutes, get_seconds, quot_ℤ, update_today,
  daily_tm, schedule_next_trigger,
}
use icmond.Daemon.Due.{tomorrow}
use icmond.Daemon.{Daemon, started}
use icmond.Event.Store.Laws.{is_kept}
use icmond.EventHeap.Drain.{tally}
use icmond.Daemon.Initialize.{Timers, Calls, daemon_initialize}
use icmond.Daemon.InitializeLaws.{Works, IsTimed, events_of, daemon_initialize_correct}
use icmond.Daemon.Pump.{pump, schedule_expired}
use icmond.Daemon.Expired.{Expired}
use icmond.Tests.Heap.{malloc}
use icmond.Tests.Schedule.{plain}

-- UTC, with dates as days behind January 1, 1970.
abbrev utc_date : ℤ → Tm
utc_date t = record {
  year = pos 70;
  mon = pos 0;
  mday = get_days t;
  hour = get_hours t;
  min = get_minutes t;
  sec = get_seconds t;
  isdst = pos 0;
}

abbrev utc_time : Tm → ℤ
utc_time tm = pos (
    pos_part tm.mday * 86400 + (pos_part tm.hour * 3600 + (pos_part tm.min * 60 + pos_part tm.sec)))

abbrev pub utc_days : TimeZone
utc_days = record { localtime = utc_date; mktime = λ tm. (utc_time tm, utc_date (utc_time tm)) }

abbrev day_behind : ℤ → Tm
day_behind t = record (utc_date t) { mday = get_days t +ℤ pos 1 }

day_behind_late : (x : ℕ) → pos 9 <ℤ utc_time (day_behind (pos x))
unfolding get_days quot_ℤ
day_behind_late x =
    let later : 1 ≤ pos_part (get_days (pos x) +ℤ pos 1) = omega int_laws in omega (arith, later)

pub utc_days-tomorrow :
    (cfg : EventCfg) (localoffset : ℤ)
    → pos 9 <ℤ tomorrow utc_days cfg (update_today utc_days cfg (pos 9)) localoffset
utc_days-tomorrow cfg localoffset =
    day_behind_late
      (pos_part (utc_time (daily_tm utc_days cfg (update_today utc_days cfg (pos 9)) localoffset)))

abbrev pub suspend_every : ℕ → ℕ → Event
suspend_every seconds t = record {
  next_trigger = pos t;
  localoffset = pos seconds;
  type = type_interval;
  action = 1;
  source = 2;
}

abbrev pub resume_once : ℕ → Event
resume_once t = record {
  next_trigger = pos t;
  localoffset = pos 1;
  type = type_once;
  action = 2;
  source = 1;
}

abbrev pub schedule : Heap
schedule = record {
  usable_size = 1028;
  size = 2;
  slots = λ i.
      if i == 1 then some (suspend_every 60 8) else if i == 2 then some (resume_once 9) else none;
}

pub schedule-WellFormed : WellFormed malloc (some schedule)
schedule-WellFormed = record {
  room = omega arith;
  live = λ i p q. ground arith;
  order = λ c p q. ground arith;
}

abbrev seen : ℕ × Daemon × Option Heap × Option ℤ → Run (ℕ × Bool × ℕ × Option ℤ)
seen (n, d, g, timer) = ok (n, d.suspended_by_schedule, heap_size g, timer)

-- At the time 9 both events are executed, and the timer waits for the first one's next time.
timer_runs :
    (schedule_expired malloc utc_days plain
        (pos 60)
        (pos 9)
        (λ k. pos 9)
        5
        true
        started
        (some schedule)
      >>= seen)
    ≡ ok (2, false, 1, some (pos 68))
unfolding schedule_expired ◌+ℤ◌ schedule_next_trigger heapify bubble_up heap_size insert fetch
timer_runs = refl

-- An event with an interval of no time is due again as long as the clock stands.
spins :
    pump malloc utc_days plain
      (pos 60)
      (pos 9)
      (λ k. pos 9)
      9
      0
      started
      (some record {
        usable_size = 1028;
        size = 1;
        slots = λ i. if i == 1 then some (suspend_every 0 9) else none;
      })
    ≡ out_of_fuel
unfolding pump ◌+ℤ◌ schedule_next_trigger heapify bubble_up insert fetch
spins = refl

abbrev pub no_timers : Timers
no_timers = record {
  signal_fd = pos 0;
  interval_fd = pos 0;
  interval_value = pos 0;
  interval_interval = pos 0;
  schedule_fd = pos 0;
  schedule_value = pos 0;
  collecttmpfs_fd = pos 0;
  worker_fd = pos 0;
}

abbrev pub calls : Calls
calls = record {
  now = pos 9;
  signalfd = pos 3;
  interval_created = pos 4;
  interval_set = true;
  schedule_created = pos 5;
  schedule_set = true;
  collecttmpfs_created = pos 6;
  worker_created = pos 7;
}

calls-Works : Works calls
calls-Works = record {
  signal_works = refl;
  interval_works = refl;
  interval_is_set = refl;
  schedule_works = refl;
  schedule_is_set = refl;
  collecttmpfs_works = refl;
  worker_works = refl;
}

abbrev timers_seen : Timers × Option Heap × Option (List Event) → Run (ℤ × ℤ × ℕ)
timers_seen (t, g, parsed) = ok (t.schedule_fd, t.interval_value, heap_size g)

-- At the first start there is no schedule timer, although an event enters the schedule.
start_runs :
    (daemon_initialize malloc calls (pos 10) no_timers none (some (suspend_every 60 20 ∷ []))
      >>= timers_seen)
    ≡ ok (pos 0, pos 10, 1)
unfolding daemon_initialize ◌+ℤ◌ ◌-ℤ◌ heap_size insert bubble_up sift_events fetch insert_all
start_runs = refl

daemon_initialize_correct_example :
    Returns
      (λ (t', g', parsed).
        WellFormed malloc g'
        × ((p : Event → Bool)
            → count_in p g'
              ≡ count_in (is_kept source_parsed p) (some schedule)
                + tally p (events_of (some (suspend_every 60 20 ∷ []))))
        × (parsed ≡ none)
        × (t'.interval_interval ≡ pos 10)
        × IsTimed calls (some schedule) t')
      (daemon_initialize malloc calls
        (pos 10)
        no_timers
        (some schedule)
        (some (suspend_every 60 20 ∷ [])))
daemon_initialize_correct_example =
    daemon_initialize_correct calls calls-Works malloc (pos 10) no_timers (some schedule)
      (some (suspend_every 60 20 ∷ [])) schedule-WellFormed
