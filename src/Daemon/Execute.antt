-- ===== src/Daemon/Execute.antt =====
-- What event_execute() of event.c does to the schedule.
use icmond.Prelude.{
  ℕ, ◌≡◌, refl, false, not, ◌&&◌, ◌⊎◌, Bool, ◌||◌, ◌==◌, ltb_ℤ, Bool-cases, inl, inr, Option, some,
  arith, ℤ, pos, ◌<ℤ◌, Run, ok, exited, ◌>>=◌, if◌then◌else◌,
}
use icmond.EventTypes.{
  Event, action_suspend, action_resume, action_poweroff, action_poweron, action_importtmpfs,
  action_importtmpfstimeout,
}
use icmond.EventHeap.{Alloc, Heap}
use icmond.EventHeap.Insert.{WellFormed, Inserted}
use icmond.Event.Time.{TimeZone, EventCfg, schedule_next_trigger}
use icmond.Event.Store.{created}
use icmond.Event.Store.Laws.{EntersOne, late, entered, event_create_correct}
use icmond.Daemon.{
  Daemon, exit_success, exit_failure, daemon_suspend, daemon_resume, daemon_importtmpfs,
  event_execute,
}

-- What an action makes of the daemon's suspension by the schedule.
abbrev pub suspended_after : ℕ → Bool → Bool
suspended_after action suspended =
    (action == action_suspend) || (not (action == action_resume) && suspended)

-- An action that event_execute() knows.
abbrev pub is_action : ℕ → Bool
is_action action =
    action == action_suspend
    || (action == action_resume
        || ((action == action_poweroff || action == action_poweron)
            || action == action_importtmpfs))

-- How an action ends that does not import the tmpfs: its result, and the daemon.
abbrev pub executed_as : ℕ → Daemon → ℕ × Daemon
executed_as action d = (
  if is_action action then exit_success else exit_failure,
  record d { suspended_by_schedule = suspended_after action d.suspended_by_schedule },
)

-- How event_execute() ends. An action that does not import the tmpfs leaves the schedule `g` and has its
-- effect on the daemon; the one that does leaves the daemon and enters an event for the timeout of the
-- import, or the process exits because the time of this event is before the present, or negative.
pub data Executed (m : Alloc) (g : Option Heap) (event timeout_event : Event) (later : ℤ)
    (d : Daemon) : Run (ℕ × Daemon × Option Heap) → Type 0 where
  stopped :
      event.action ≡ action_importtmpfs
      → (timeout_event.next_trigger <ℤ later) ⊎ (timeout_event.next_trigger <ℤ pos 0)
      → Executed m g event timeout_event later d exited
  performed :
      {rc : ℕ} {d' : Daemon}
      → (event.action == action_importtmpfs) ≡ false
      → (rc, d') ≡ executed_as event.action d
      → Executed m g event timeout_event later d (ok (rc, d', g))
  imported :
      {h : Heap}
      → event.action ≡ action_importtmpfs
      → Inserted m g timeout_event h
      → Executed m g event timeout_event later d (ok (exit_success, d, some h))

-- What the call can do to the schedule: nothing, or, where the event imports the tmpfs, the process exits
-- or an event for the timeout of the import is entered.
pub data Ran (m : Alloc) (g : Option Heap) (event timeout_event : Event)
    : Run (ℕ × Daemon × Option Heap) → Type 0 where
  died : event.action ≡ action_importtmpfs → Ran m g event timeout_event exited
  unchanged : {rc : ℕ} {d : Daemon} → Ran m g event timeout_event (ok (rc, d, g))
  added :
      {rc : ℕ} {d : Daemon} {h : Heap}
      → Inserted m g timeout_event h
      → Ran m g event timeout_event (ok (rc, d, some h))

module _ (m : Alloc) (tz : TimeZone) (cfg : EventCfg) (timeout : ℤ) (now later : ℤ) where
  -- The event that daemon_importtmpfs() creates.
  abbrev pub timeout_event : Event
  timeout_event = schedule_next_trigger tz cfg now (created action_importtmpfstimeout timeout)

  importing :
      (event : Event) (d : Daemon) (g : Option Heap) (r : Run (ℤ × Option Heap))
      → event.action ≡ action_importtmpfs
      → EntersOne m g timeout_event later r
      → Executed m g event timeout_event later d (
          r >>= (λ (time, g'). if ltb_ℤ time (pos 0) then exited else ok (0, g')) >>= λ (rc, g').
          ok (rc, d, g'))
  importing event d g r a (late p) = stopped a (inl p)
  importing event d g r a (entered q i) =
      elim (Bool-cases (ltb_ℤ timeout_event.next_trigger (pos 0))) [
        | inl before ↦ rw before (stopped a (inr (ground arith)))
        | inr since ↦ rw since (imported a i)
      ]

  -- event_execute() on a well-formed schedule, with a timeout of at least one second for the import of
  -- the tmpfs. The action that suspends sets the daemon's suspension by the schedule, and the one that
  -- resumes clears it; those that switch the power succeed and change nothing, and an unknown action fails
  -- and changes nothing; all these leave the schedule. The action that imports the tmpfs leaves the daemon
  -- and enters an event for the timeout of the import, with every other event still in the schedule, or the
  -- process exits, but only if the time of this event is before the present, or negative.
  pub event_execute-Executed :
      (event : Event) (d : Daemon) (g : Option Heap)
      → pos 0 <ℤ timeout
      → WellFormed m g
      → Executed m g event timeout_event later d
          (event_execute m tz cfg timeout now later event d g)
  unfolding event_execute daemon_importtmpfs daemon_suspend daemon_resume
  event_execute-Executed event d g t v = elim (Bool-cases (event.action == action_suspend)) [
    | inl suspend ↦ rw suspend (performed (ground arith) (rw suspend refl))
    | inr other ↦ elim (Bool-cases (event.action == action_resume)) [
      | inl resume ↦ rw (other, resume) (performed (ground arith) (rw (other, resume) refl))
      | inr other' ↦
          elim (Bool-cases (event.action == action_poweroff || event.action == action_poweron)) [
            | inl power ↦
                rw (other, other', power)
                  (performed (ground arith) (rw (other, other', power) refl))
            | inr other'' ↦ elim (Bool-cases (event.action == action_importtmpfs)) [
              | inr unknown ↦
                  rw (other, other', other'', unknown)
                    (performed unknown (rw (other, other', other'', unknown) refl))
              | inl import ↦
                  rw (other, other', other'', import)
                    (importing event d g _ (ground arith) (
                      event_create_correct m tz cfg now later g action_importtmpfstimeout timeout
                        (ground arith) v))
            ]
          ]
    ]
  ]

  pub event_execute-Ran :
      (event : Event) (d : Daemon) (g : Option Heap)
      → pos 0 <ℤ timeout
      → WellFormed m g
      → Ran m g event timeout_event (event_execute m tz cfg timeout now later event d g)
  event_execute-Ran event d g t v = ran _ (event_execute-Executed event d g t v)
    where
      ran :
          (r : Run (ℕ × Daemon × Option Heap))
          → Executed m g event timeout_event later d r
          → Ran m g event timeout_event r
      ran _ (stopped a p) = died a
      ran _ (performed p e) = unchanged
      ran _ (imported a i) = added i
