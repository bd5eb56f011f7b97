-- ===== src/Daemon/RoundsLaws.antt =====
-- The rounds of daemon_main() are made of the steps of Daemon/State.
use icmond.Prelude.{
  ◌≡◌, refl, Bool, true, false, not, ◌&&◌, ◌||◌, if◌then◌else◌, Option, none, some, Run, exited,
}
use icmond.EventHeap.{Alloc}
use icmond.Event.Time.{TimeZone}
use icmond.Config.Check.{event_cfg}
use icmond.Daemon.{Daemon, Forked, parent, child}
use icmond.Daemon.State.{Reachable}
use icmond.Daemon.Due.{IsClock}
use icmond.Daemon.Reload.{Settings}
use icmond.Daemon.Kept.{Kept}
use icmond.Daemon.Branches.{
  OrExits, OrExits-bind, is_sigchld, is_sighup, runs_on, Dispatched, KeptForked, IsLoop, IsSchedule,
  dispatch_signal-Dispatched, handle_interval-KeptForked, worker_timeout-Kept,
  collecttmpfs_timeout-Kept, schedule-IsLoop,
}
use icmond.Daemon.Rounds.{
  Round, Loop, importtmpfs_timeout, dispatch_signal, handle_worker_timeout,
  handle_collecttmpfs_timeout, handle_schedule, handle_interval, behind_interval, round,
}

module _ (m : Alloc) (tz : TimeZone) (reload : Settings → Run Settings) where
  -- How a round ends where the process does not exit: in a child, if the interval timer has expired, or with
  -- the state.
  abbrev pub Rounded : Round → Bool → Option Loop → Type 0
  Rounded r runs none = r.interval_expired ≡ true
  Rounded r runs (some l) = IsLoop m tz reload runs l

  behind_interval-Rounded :
      (r : Round) (runs armed : Bool) (s : Settings) (f : Forked)
      → IsSchedule m tz reload s
      → IsClock m tz (event_cfg s.cfg) importtmpfs_timeout r.now r.clock
      → (not r.worker_expired) || armed ≡ true
      → KeptForked m tz reload r.interval_expired runs armed f
      → OrExits (Rounded r runs) (behind_interval m tz reload r s f)
  unfolding behind_interval
  behind_interval-Rounded r runs armed s child schedule clock timely expired = expired
  behind_interval-Rounded r runs armed s (parent d) schedule clock timely (kept, still) =
      OrExits-bind (Kept runs) (Rounded r runs) (handle_worker_timeout m tz reload r d) _
        (worker_timeout-Kept m tz reload r runs d
          (still_timely r.worker_expired armed d.worker_armed timely still) kept)
        λ d1 kept1.
          OrExits-bind (Kept runs) (Rounded r runs) (handle_collecttmpfs_timeout m tz reload r d1) _
            (collecttmpfs_timeout-Kept m tz reload r runs d1 kept1)
            λ d2 kept2.
              OrExits-bind (IsLoop m tz reload runs) (Rounded r runs)
                (handle_schedule m tz reload r (d2, s)) _
                (schedule-IsLoop m tz reload r runs d2 s clock kept2 schedule) λ l loop. loop
    where
      still_timely :
          (expired armed armed' : Bool)
          → (not expired) || armed ≡ true
          → (armed ≡ true → armed' ≡ true)
          → (not expired) || armed' ≡ true
      still_timely false armed armed' timely still = refl
      still_timely true armed armed' timely still = still timely

  -- A round of the main loop without SIGHUP, from a state that the steps reach with a well-formed schedule
  -- whose intervals are all of a second at least, with a clock that does not go back, where mktime()
  -- gives for each time of day on the day behind today a time that is still to come, and in which the worker's
  -- timeout expires only while it is armed and not in the round of a SIGCHLD, ends: the process exits, or it
  -- is the child that the interval timer has forked, or the round leaves a state that the steps reach and
  -- such a schedule. The daemon runs on behind the round as it did before, unless the signal is SIGTERM.
  pub round-Rounded :
      (r : Round) (d : Daemon) (s : Settings)
      → Reachable d
      → IsSchedule m tz reload s
      → IsClock m tz (event_cfg s.cfg) importtmpfs_timeout r.now r.clock
      → is_sighup r.signal ≡ false
      → (not r.worker_expired) || (d.worker_armed && not (is_sigchld r.signal)) ≡ true
      → OrExits (Rounded r (runs_on r.signal d)) (round m tz reload r (d, s))
  unfolding round
  round-Rounded r d s reach schedule clock plain timely = gate r.selected _ (
      OrExits-bind (Dispatched m tz reload r.signal (d, s)) (Rounded r (runs_on r.signal d))
        (dispatch_signal m tz reload r.signal (d, s)) _
        (dispatch_signal-Dispatched m tz reload r.signal d s plain reach)
        λ l (kept, same, armed). behind l.0 l.1 kept same armed)
    where
      gate :
          (b : Bool) (body : Run (Option Loop))
          → OrExits (Rounded r (runs_on r.signal d)) body
          → OrExits (Rounded r (runs_on r.signal d)) (if b then body else exited)
      gate true body h = h
      gate false body h = tt

      armed_after :
          (expired armed armed' chld : Bool)
          → (not expired) || (armed && not chld) ≡ true
          → (chld ≡ false → armed' ≡ armed)
          → (not expired) || armed' ≡ true
      armed_after false armed armed' chld timely_ same_ = refl
      armed_after true true armed' false timely_ same_ = same_ refl
      armed_after true true armed' true timely_ same_ = absurd (cc)
      armed_after true false armed' chld timely_ same_ = absurd (cc)

      behind :
          (d' : Daemon) (s' : Settings)
          → Kept (runs_on r.signal d) d'
          → s' ≡ s
          → (is_sigchld r.signal ≡ false → d'.worker_armed ≡ d.worker_armed)
          → OrExits
              (Rounded r (runs_on r.signal d))
              (behind_interval m tz reload r s' (handle_interval m tz reload r d'))
      behind d' s' kept same armed = rw same (
          behind_interval-Rounded r (runs_on r.signal d) d'.worker_armed s
            (handle_interval m tz reload r d') schedule clock
            (armed_after r.worker_expired d.worker_armed d'.worker_armed (is_sigchld r.signal)
              timely armed)
            (handle_interval-KeptForked m tz reload r (runs_on r.signal d) d' kept))
