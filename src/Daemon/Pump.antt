-- ===== src/Daemon/Pump.antt =====
-- daemon.c: the branch of daemon_main() for the schedule timer. `clock` are the results of time() behind
-- the one that the branch starts with; each round of the loop has four of them.
use icmond.Prelude.{
  ℕ, zero, suc, ◌+◌, ◌*◌, Bool, ◌==◌, if◌then◌else◌, Option, none, some, ℤ, Run, ok, exited,
  out_of_fuel, ◌>>=◌,
}
use icmond.EventTypes.{type_once}
use icmond.EventHeap.{Alloc, Heap, fetch_triggered, peek}
use icmond.Event.Time.{TimeZone, EventCfg}
use icmond.Event.Store.{event_reschedule}
use icmond.Daemon.{Daemon, event_execute}

module _ (m : Alloc) (tz : TimeZone) (cfg : EventCfg) (timeout now : ℤ) (clock : ℕ → ℤ) where
  -- the `while ((event = event_gettriggered(now)))`, with fuel: how many events were executed, the
  -- daemon's state and the schedule
  unfoldable pub pump : ℕ → ℕ → Daemon → Option Heap → Run (ℕ × Daemon × Option Heap)
  unfolding fetch_triggered event_execute event_reschedule
  pump zero round d g = out_of_fuel
  pump (suc fuel) round d g = fetch_triggered m g now >>= λ (event, g1). elim event [
    | none ↦ ok (0, d, g1)
    | some e ↦ do
      (rc, d2, g2) ←
          event_execute m tz cfg timeout (clock (4 * round)) (clock (4 * round + 1)) e d g1
      (time, g3) ←
          (if e.type == type_once
            then ok (e.next_trigger, g2)
            else event_reschedule m tz cfg (clock (4 * round + 2)) (clock (4 * round + 3)) g2
                (some e))
      (n_events, d4, g4) ← pump fuel (suc round) d2 g3
      ok (suc n_events, d4, g4)
  ]

  -- the branch: the events that it executed, the state, the schedule and the time that the timer is set
  -- to, if there is a next event; `starts` is whether timerfd_start_abs() does
  unfoldable pub schedule_expired :
      ℕ → Bool → Daemon → Option Heap → Run (ℕ × Daemon × Option Heap × Option ℤ)
  unfolding pump peek
  schedule_expired fuel starts d g = do
    (n_events, d', g') ← pump fuel 0 d g
    next ← peek m g'
    elim next [
      | none ↦ ok (n_events, d', g', none)
      | some event ↦ if starts then ok (n_events, d', g', some event.next_trigger) else exited
    ]
