-- ===== src/Daemon/Initialize.antt =====
-- daemon.c: daemon_initialize(), which creates the timers and brings the parsed events into the schedule.
use icmond.Prelude.{
  Bool, true, not, if◌then◌else◌, List, Option, none, some, ℤ, pos, negsuc, eqb_ℤ, ◌+ℤ◌, ◌-ℤ◌, Run,
  ok, exited, ◌>>=◌,
}
use icmond.EventTypes.{Event, source_parsed}
use icmond.EventHeap.{Alloc, Heap, peek}
use icmond.Event.Time.{is_zero, rem_ℤ}
use icmond.Event.Store.{event_schedule_clear, event_commit_test_schedule}

-- The file descriptors of struct daemon_t, where 0 is none, and the it_value and it_interval of its timers
-- that daemon_initialize() sets from values that change.
pub record Timers : Type 0 where
  pub signal_fd : ℤ
  pub interval_fd : ℤ
  pub interval_value : ℤ
  pub interval_interval : ℤ
  pub schedule_fd : ℤ
  pub schedule_value : ℤ
  pub collecttmpfs_fd : ℤ
  pub worker_fd : ℤ

-- What the calls of the system return: the time, the descriptors or -1, and whether a timer can be set.
pub record Calls : Type 0 where
  pub now : ℤ
  pub signalfd : ℤ
  pub interval_created : ℤ
  pub interval_set : Bool
  pub schedule_created : ℤ
  pub schedule_set : Bool
  pub collecttmpfs_created : ℤ
  pub worker_created : ℤ

-- A descriptor, or the process exits.
abbrev pub or_exit : ℤ → Run ℤ
or_exit fd = if eqb_ℤ fd (negsuc 0) then exited else ok fd

abbrev pub require : Bool → Run Bool
require holds = if holds then ok true else exited

-- "Create fd for signals"
unfoldable pub initialize_signal : Calls → Timers → Run Timers
initialize_signal s t =
    let created : Run Timers = (do fd ← or_exit s.signalfd; ok (record t { signal_fd = fd })) in
    if is_zero t.signal_fd then created else ok t

-- "Datalogging Interval timer"
unfoldable pub initialize_interval : Calls → ℤ → Timers → Run Timers
unfolding rem_ℤ
initialize_interval s interval t =
    let created : Run Timers = do
      fd ← or_exit s.interval_created
      set ← require s.interval_set
      ok record t {
        interval_fd = fd;
        interval_value = s.now +ℤ (pos 10 -ℤ rem_ℤ s.now 10);
        interval_interval = interval;
      }
    in if not (eqb_ℤ interval t.interval_interval) then created else ok t

-- "Event Schedule Timer", for the next event of the schedule
unfoldable pub initialize_schedule : Calls → Option Event → Timers → Run Timers
initialize_schedule s event t =
    let stopped =
      if is_zero t.schedule_fd
      then t
      else record t { schedule_fd = pos 0; schedule_value = pos 0 } in
    elim event [
      | none ↦ ok stopped
      | some e ↦ do
        fd ← or_exit s.schedule_created
        set ← require s.schedule_set
        ok (record stopped { schedule_fd = fd; schedule_value = e.next_trigger })
    ]

-- "Collecttmpfs Timeout Timer" and "Worker Timeout Timer"
unfoldable pub initialize_timeouts : Calls → Timers → Run Timers
initialize_timeouts s t = do
  collecttmpfs ←
      (if is_zero t.collecttmpfs_fd then or_exit s.collecttmpfs_created else ok t.collecttmpfs_fd)
  worker ← (if is_zero t.worker_fd then or_exit s.worker_created else ok t.worker_fd)
  ok (record t { collecttmpfs_fd = collecttmpfs; worker_fd = worker })

-- daemon_initialize(), for the interval of `cfg`: the timers, g_heap and g_parsed
unfoldable pub daemon_initialize :
    Alloc
    → Calls
    → ℤ
    → Timers
    → Option Heap
    → Option (List Event)
    → Run (Timers × Option Heap × Option (List Event))
unfolding initialize_signal initialize_interval initialize_schedule initialize_timeouts peek
    event_schedule_clear event_commit_test_schedule
daemon_initialize m s interval t g g_parsed = do
  t1 ← initialize_signal s t
  t2 ← initialize_interval s interval t1
  event ← peek m g
  t3 ← initialize_schedule s event t2
  t4 ← initialize_timeouts s t3
  g1 ← event_schedule_clear m source_parsed g
  (g2, parsed) ← event_commit_test_schedule m g1 g_parsed
  ok (t4, g2, parsed)
