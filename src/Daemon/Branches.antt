-- ===== src/Daemon/Branches.antt =====
-- The branches of daemon_main() take the daemon by the steps of Daemon/State.
use icmond.Prelude.{
  ℕ, ◌+◌, ◌*◌, ◌≡◌, refl, ◌∙◌, Bool, true, false, not, ◌||◌, if◌then◌else◌, Option, ℤ, pos, eqb_ℤ,
  ltb_ℤ, Run, ok, exited, fault, out_of_fuel, ◌>>=◌, Bool-cases, inl, inr, arith,
}
use icmond.EventHeap.{Alloc, Heap, heap_size}
use icmond.EventHeap.Insert.{WellFormed, count_in}
use icmond.Event.Time.{TimeZone}
use icmond.Config.Check.{event_cfg}
use icmond.Daemon.{
  Daemon, handle_sigterm, handle_sigusr1, handle_sigusr2, after_fork, WaitStatus, handle_sigchld,
  Forked, parent, child, interval_tick, worker_timeout, collecttmpfs_timeout,
}
use icmond.Daemon.State.{
  Reachable, next, sigterm, sigusr1, sigusr2, sigchld, tick, timeout, import_timeout,
}
use icmond.Daemon.Due.{IsClock, is_unsteady}
use icmond.Daemon.Expired.{Expired, passed, not_imported, not_set, waits, schedule_expired-Expired}
use icmond.Daemon.Reload.{Settings}
use icmond.Daemon.Kept.{IfReturns, Kept, KeptTimed, schedule_expired-KeptTimed}
use icmond.Daemon.Rounds.{
  DaemonSignal, Round, Loop, importtmpfs_timeout, dispatch_signal, handle_worker_timeout,
  handle_collecttmpfs_timeout, handle_schedule, handle_interval,
}

-- Whether a signal ends the daemon, is the end of a child, or reads the configuration anew.
abbrev pub is_sigterm : DaemonSignal → Bool
is_sigterm DaemonSignal.sigterm = true
is_sigterm _ = false

abbrev pub is_sigchld : DaemonSignal → Bool
is_sigchld (DaemonSignal.sigchld pid status) = true
is_sigchld _ = false

abbrev pub is_sighup : DaemonSignal → Bool
is_sighup DaemonSignal.sighup = true
is_sighup _ = false

-- `running` behind a signal.
abbrev pub runs_on : DaemonSignal → Daemon → Bool
runs_on signal d = if is_sigterm signal then false else d.running

-- The call returns with the property, or the process exits.
abbrev pub OrExits {ℓ} : {A : Type ℓ} → (A → Type 0) → Run A → Type 0
OrExits P (ok x) = P x
OrExits P exited = Unit
OrExits P fault = ⊥
OrExits P out_of_fuel = ⊥

pub OrExits-bind {ℓ ν} :
    {A : Type ℓ} {B : Type ν} (P : A → Type 0) (Q : B → Type 0) (call : Run A) (after : A → Run B)
    → OrExits P call
    → ((x : A) → P x → OrExits Q (after x))
    → OrExits Q (call >>= after)
OrExits-bind P Q (ok x) after p h = h x p
OrExits-bind P Q exited after p h = tt
OrExits-bind P Q fault after p h = absurd p
OrExits-bind P Q out_of_fuel after p h = absurd p

module _ (m : Alloc) (tz : TimeZone) (reload : Settings → Run Settings) where
  -- What a signal leaves of the state.
  abbrev pub Dispatched : DaemonSignal → Loop → Loop → Type 0
  Dispatched signal (d, s) (d', s') =
      Kept (runs_on signal d) d'
      × (s' ≡ s)
      × (is_sigchld signal ≡ false → d'.worker_armed ≡ d.worker_armed)

  handle_sigchld-running :
      (pid : ℤ) (status : WaitStatus) (d : Daemon)
      → (handle_sigchld pid status d).running ≡ d.running
  unfolding handle_sigchld
  handle_sigchld-running pid status d = ground arith

  pub dispatch_signal-Dispatched :
      (signal : DaemonSignal) (d : Daemon) (s : Settings)
      → is_sighup signal ≡ false
      → Reachable d
      → OrExits (Dispatched signal (d, s)) (dispatch_signal m tz reload signal (d, s))
  unfolding dispatch_signal handle_sigterm handle_sigusr1 handle_sigusr2
  dispatch_signal-Dispatched DaemonSignal.no_signal d s h r = ((r, refl), refl, λ e. refl)
  dispatch_signal-Dispatched DaemonSignal.unreadable d s h r = tt
  dispatch_signal-Dispatched DaemonSignal.sigterm d s h r =
      ((next r sigterm, refl), refl, λ e. refl)
  dispatch_signal-Dispatched DaemonSignal.sighup d s h r = absurd (cc)
  dispatch_signal-Dispatched DaemonSignal.sigusr1 d s h r =
      ((next r sigusr1, ground arith), refl, λ e. ground arith)
  dispatch_signal-Dispatched DaemonSignal.sigusr2 d s h r =
      ((next r sigusr2, ground arith), refl, λ e. ground arith)
  dispatch_signal-Dispatched DaemonSignal.unexpected d s h r = ((r, refl), refl, λ e. refl)
  dispatch_signal-Dispatched (DaemonSignal.sigchld pid status) d s h r =
      ((next r (sigchld pid status), handle_sigchld-running pid status d), refl, λ e. absurd (cc))

  -- What the interval timer leaves: the daemon runs on as it did, and a timeout that was armed still is.
  abbrev Ticked : Daemon → Forked → Type 0
  Ticked d (parent d') = (d'.running ≡ d.running) × (d.worker_armed ≡ true → d'.worker_armed ≡ true)
  Ticked d child = Unit

  interval_tick-Ticked : (fork : ℤ) (d : Daemon) → Ticked d (interval_tick fork d)
  unfolding interval_tick after_fork
  interval_tick-Ticked fork d =
      elim (Bool-cases (d.suspended_by_command || d.suspended_by_schedule)) [
        | inl asleep ↦ rw asleep (refl, λ h. h)
        | inr awake ↦ elim (Bool-cases (eqb_ℤ d.worker_pid (pos 0))) [
          | inr busy ↦ rw (awake, busy) (refl, λ h. h)
          | inl idle ↦ elim (Bool-cases (ltb_ℤ fork (pos 0))) [
            | inl failed ↦ rw (awake, idle, failed) (refl, λ h. h)
            | inr real ↦ elim (Bool-cases (ltb_ℤ (pos 0) fork)) [
              | inl forked ↦ rw (awake, idle, real, forked) (refl, λ h. refl)
              | inr in_child ↦ rw (awake, idle, real, in_child) tt
            ]
          ]
        ]
      ]

  abbrev pub KeptForked : Bool → Bool → Bool → Forked → Type 0
  KeptForked expired runs armed (parent d) = Kept runs d × (armed ≡ true → d.worker_armed ≡ true)
  KeptForked expired runs armed child = expired ≡ true

  pub handle_interval-KeptForked :
      (r : Round) (runs : Bool) (d : Daemon)
      → Kept runs d
      → KeptForked r.interval_expired runs d.worker_armed (handle_interval m tz reload r d)
  handle_interval-KeptForked r runs d (reach, same) = elim (Bool-cases r.interval_expired) [
    | inr no_ ↦ rw no_ ((reach, same), λ h. h)
    | inl yes_ ↦ rw yes_ (ticked (interval_tick r.fork d) refl (interval_tick-Ticked r.fork d))
  ]
    where
      ticked :
          (f : Forked)
          → interval_tick r.fork d ≡ f
          → Ticked d f
          → KeptForked true runs d.worker_armed f
      ticked (parent d') run (running, armed) =
          ((next reach (tick r.fork run), running ∙ same), armed)
      ticked child run k = refl

  pub worker_timeout-Kept :
      (r : Round) (runs : Bool) (d : Daemon)
      → (not r.worker_expired) || d.worker_armed ≡ true
      → Kept runs d
      → OrExits (Kept runs) (handle_worker_timeout m tz reload r d)
  unfolding handle_worker_timeout worker_timeout
  worker_timeout-Kept r runs d timely (reach, same) = elim (Bool-cases r.worker_expired) [
    | inr no_ ↦ rw no_ (reach, same)
    | inl yes_ ↦ elim (Bool-cases r.worker_killed) [
      | inr fails ↦ rw (yes_, fails) tt
      | inl killed ↦
          let armed : d.worker_armed ≡ true = ground (arith, timely, yes_) in
          rw (yes_, killed)
            (next reach (timeout d.worker_pid armed (unfold worker_timeout in refl)), same)
    ]
  ]

  pub collecttmpfs_timeout-Kept :
      (r : Round) (runs : Bool) (d : Daemon)
      → Kept runs d
      → OrExits (Kept runs) (handle_collecttmpfs_timeout m tz reload r d)
  unfolding handle_collecttmpfs_timeout collecttmpfs_timeout
  collecttmpfs_timeout-Kept r runs d (reach, same) = elim (Bool-cases r.collecttmpfs_expired) [
    | inr no_ ↦ rw no_ (reach, same)
    | inl yes_ ↦ elim (Bool-cases r.collecttmpfs_killed) [
      | inr fails ↦ rw (yes_, fails) tt
      | inl killed ↦ rw (yes_, killed) (next reach (import_timeout d.collecttmpfs_pid refl), same)
    ]
  ]

  -- The schedule is well-formed, and each of its intervals is a second at least.
  abbrev pub IsSchedule : Settings → Type 0
  IsSchedule s = WellFormed m s.g_heap × (count_in is_unsteady s.g_heap ≡ 0)

  -- A state of the loop that the steps reach, with a schedule.
  abbrev pub IsLoop : Bool → Loop → Type 0
  IsLoop runs (d, s) = Reachable d × (d.running ≡ runs) × IsSchedule s

  pub schedule-IsLoop :
      (r : Round) (runs : Bool) (d : Daemon) (s : Settings)
      → IsClock m tz (event_cfg s.cfg) importtmpfs_timeout r.now r.clock
      → Kept runs d
      → IsSchedule s
      → OrExits (IsLoop runs) (handle_schedule m tz reload r (d, s))
  unfolding handle_schedule
  schedule-IsLoop r runs d s clock (reach, same) (v, steady) =
      elim (Bool-cases r.schedule_timer_expired) [
        | inr no_ ↦ rw no_ (reach, same, (v, steady))
        | inl yes_ ↦ rw yes_ (
            both _
              (schedule_expired-Expired m tz (event_cfg s.cfg) importtmpfs_timeout r.now r.clock
                r.schedule_set d s.g_heap clock v steady)
              (schedule_expired-KeptTimed m tz (event_cfg s.cfg) importtmpfs_timeout r.now r.clock
                (2 * heap_size s.g_heap + 1) r.schedule_set runs d s.g_heap (reach, same)))
      ]
    where
      both :
          (run : Run (ℕ × Daemon × Option Heap × Option ℤ))
          → Expired m tz
              (event_cfg s.cfg)
              importtmpfs_timeout
              r.now
              r.clock
              r.schedule_set
              s.g_heap
              run
          → IfReturns (KeptTimed m tz (event_cfg s.cfg) importtmpfs_timeout r.now r.clock runs) run
          → OrExits
              (IsLoop runs)
              (run >>= λ (n_events, d', g', timer). ok (d', record s { g_heap = g' }))
      both _ (passed k k' e due late) kept = tt
      both _ (not_imported e i due) kept = tt
      both _ (not_set fails) kept = tt
      both _ (waits v' steady' executed others is_next) (reach', same') =
          (reach', same', (v', steady'))
