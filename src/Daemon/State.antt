-- ===== src/Daemon/State.antt =====
-- The states that the daemon of daemon.c reaches, one event at a time. A timeout is handled only where
-- its timer is armed: that is what the kernel reports.
use mathlib.Core.Path.{subst}
use icmond.Prelude.{
  ℕ, suc, ◌+◌, ◌≤◌, ◌<◌, ◌≡◌, refl, Bool, true, false, not, ◌||◌, ltb, ◌==◌, if◌then◌else◌, List,
  [], ◌∷◌, All, arith, ℤ, pos, ltb_ℤ, eqb_ℤ, ◌≤ℤ◌, ◌<ℤ◌, Run, ok, Returns, returns, Bool-cases, inl,
  inr,
}
use icmond.Daemon.{
  Daemon, started, daemon_suspend, daemon_resume, handle_sigterm, handle_sigusr1, handle_sigusr2,
  WaitStatus, is_success, handle_sigchld, Forked, parent, child, after_fork, interval_tick,
  worker_timeout, collecttmpfs_timeout, build_fdset,
}

pub data Step : Daemon → Daemon → Type 0 where
  sigterm : {d : Daemon} → Step d (handle_sigterm d)
  sigusr1 : {d : Daemon} → Step d (handle_sigusr1 d)
  sigusr2 : {d : Daemon} → Step d (handle_sigusr2 d)
  sigchld : {d : Daemon} (pid : ℤ) (status : WaitStatus) → Step d (handle_sigchld pid status d)
  suspend : {d : Daemon} → Step d (daemon_suspend d).1
  resume : {d : Daemon} → Step d (daemon_resume d).1
  tick : {d d' : Daemon} (fork : ℤ) → interval_tick fork d ≡ parent d' → Step d d'
  timeout :
      {d d' : Daemon} (pid : ℤ)
      → d.worker_armed ≡ true
      → worker_timeout true d ≡ ok (pid, d')
      → Step d d'
  import_timeout :
      {d d' : Daemon} (pid : ℤ) → collecttmpfs_timeout true d ≡ ok (pid, d') → Step d d'

pub data Reachable : Daemon → Type 0 where
  start : Reachable started
  next : {d d' : Daemon} → Reachable d → Step d d' → Reachable d'

abbrev pub one_if_running : Daemon → ℕ
one_if_running d = if eqb_ℤ d.worker_pid (pos 0) then 0 else 1

-- The worker's pid is zero or that of a process, a timer is armed only for a process, and the counters
-- agree: a successful run was started before, and each start belongs to a tick.
pub record IsSound (d : Daemon) : Type 0 where
  pid_ge : pos 0 ≤ℤ d.worker_pid
  armed : d.worker_armed ≡ true → pos 0 <ℤ d.worker_pid
  success : d.n_datalog_success + one_if_running d ≤ d.n_datalog_actions
  ticks : d.n_datalog_actions ≤ d.n_interval_ticks

abbrev SoundParent : Forked → Type 0
SoundParent (parent d) = IsSound d
SoundParent child = Unit

handle_sigchld-IsSound :
    (pid : ℤ) (status : WaitStatus) (d : Daemon) → IsSound d → IsSound (handle_sigchld pid status d)
unfolding handle_sigchld
handle_sigchld-IsSound pid status d v = elim (Bool-cases (eqb_ℤ pid (pos 0))) [
  | inl none_waiting ↦ rw none_waiting v
  | inr some_pid ↦ elim (Bool-cases (eqb_ℤ pid d.worker_pid)) [
    | inl worker ↦
        let run : one_if_running d ≡ 1 = ground arith in
        rw (some_pid, worker)
          record {
            pid_ge = omega arith;
            armed = λ p. ground arith;
            success = elim (Bool-cases (is_success status)) [
              | inl won ↦ rw won (omega (arith, run, v.success))
              | inr lost ↦ rw lost (omega (arith, run, v.success))
            ];
            ticks = v.ticks;
          }
    | inr other ↦
        rw (some_pid, other)
          (elim (Bool-cases (eqb_ℤ pid d.collecttmpfs_pid)) [
            | inl import ↦ rw import (record {
              pid_ge = v.pid_ge;
              armed = v.armed;
              success = v.success;
              ticks = v.ticks;
            })
            | inr unknown ↦ rw unknown v
          ])
  ]
]

ticked : (d : Daemon) → IsSound d → IsSound (record d { n_interval_ticks = suc d.n_interval_ticks })
ticked d v = record {
  pid_ge = v.pid_ge;
  armed = v.armed;
  success = v.success;
  ticks = omega (arith, v.ticks);
}

after_fork-IsSound :
    (fork : ℤ) (d : Daemon)
    → eqb_ℤ d.worker_pid (pos 0) ≡ true
    → d.n_datalog_actions < d.n_interval_ticks
    → IsSound d
    → SoundParent (after_fork fork d)
unfolding after_fork
after_fork-IsSound fork d idle more v =
    let none_running : one_if_running d ≡ 0 = ground arith in
    elim (Bool-cases (ltb_ℤ fork (pos 0))) [
      | inl failed ↦ rw failed record {
        pid_ge = omega arith;
        armed = λ p. ground (arith, v.armed p, idle);
        success = omega (arith, v.success);
        ticks = v.ticks;
      }
      | inr real ↦ elim (Bool-cases (ltb_ℤ (pos 0) fork)) [
        | inr zero_pid ↦ rw (real, zero_pid) tt
        | inl forked ↦
            let running : eqb_ℤ fork (pos 0) ≡ false = ground arith in
            rw (real, forked)
              record {
                pid_ge = ground arith;
                armed = λ p. ground arith;
                success = rw running (omega (arith, v.success, none_running));
                ticks = omega (arith, more);
              }
      ]
    ]

interval_tick-IsSound : (fork : ℤ) (d : Daemon) → IsSound d → SoundParent (interval_tick fork d)
unfolding interval_tick
interval_tick-IsSound fork d v =
    elim (Bool-cases (d.suspended_by_command || d.suspended_by_schedule)) [
      | inl asleep ↦ rw asleep (ticked d v)
      | inr awake ↦ elim (Bool-cases (eqb_ℤ d.worker_pid (pos 0))) [
        | inr busy ↦ rw (awake, busy) (ticked d v)
        | inl idle ↦
            rw (awake, idle) (after_fork-IsSound fork _ idle (omega (arith, v.ticks)) (ticked d v))
      ]
    ]

interval_tick-parent :
    {d d' : Daemon} (fork : ℤ) → interval_tick fork d ≡ parent d' → IsSound d → IsSound d'
interval_tick-parent {d} fork run v = subst SoundParent run (interval_tick-IsSound fork d v)

abbrev SoundRun : Run (ℤ × Daemon) → Type 0
SoundRun (ok (_, d)) = IsSound d
SoundRun _ = Unit

worker_timeout-IsSound :
    (killed : Bool) (d : Daemon) → IsSound d → SoundRun (worker_timeout killed d)
unfolding worker_timeout
worker_timeout-IsSound false d v = tt
worker_timeout-IsSound true d v = record {
  pid_ge = v.pid_ge;
  armed = λ p. ground arith;
  success = v.success;
  ticks = v.ticks;
}

IsSound-if : {d d' : Daemon} (b : Bool) → IsSound d → IsSound d' → IsSound (if b then d else d')
IsSound-if true v w = v
IsSound-if false v w = w

Step-IsSound : {d d' : Daemon} → Step d d' → IsSound d → IsSound d'
unfolding handle_sigterm handle_sigusr1 handle_sigusr2 daemon_suspend daemon_resume worker_timeout
    collecttmpfs_timeout
Step-IsSound (sigterm {d}) v = record {
  pid_ge = v.pid_ge;
  armed = v.armed;
  success = v.success;
  ticks = v.ticks;
}
Step-IsSound (sigusr1 {d}) v =
    IsSound-if d.suspended_by_command v
      (record { pid_ge = v.pid_ge; armed = v.armed; success = v.success; ticks = v.ticks })
Step-IsSound (sigusr2 {d}) v =
    IsSound-if d.suspended_by_command
      (record { pid_ge = v.pid_ge; armed = v.armed; success = v.success; ticks = v.ticks }) v
Step-IsSound (sigchld {d} pid status) v = handle_sigchld-IsSound pid status d v
Step-IsSound (suspend {d}) v = record {
  pid_ge = v.pid_ge;
  armed = v.armed;
  success = v.success;
  ticks = v.ticks;
}
Step-IsSound (resume {d}) v = record {
  pid_ge = v.pid_ge;
  armed = v.armed;
  success = v.success;
  ticks = v.ticks;
}
Step-IsSound (tick fork run) v = interval_tick-parent fork run v
Step-IsSound (import_timeout {d} pid run) v =
    subst SoundRun run
      (record { pid_ge = v.pid_ge; armed = v.armed; success = v.success; ticks = v.ticks })
Step-IsSound (timeout {d} pid armed run) v = subst SoundRun run (worker_timeout-IsSound true d v)

-- In every state that the daemon reaches by signals, ticks, timeouts and scheduled suspends and
-- resumes, its worker's pid is zero or positive and is positive while the timeout is armed. The
-- successes and the worker that may be running are together at most the workers started, and these are
-- at most the ticks.
pub reachable-IsSound : (d : Daemon) → Reachable d → IsSound d
reachable-IsSound d start = record {
  pid_ge = omega arith;
  armed = λ p. ground arith;
  success = omega arith;
  ticks = omega arith;
}
reachable-IsSound d (next r s) = Step-IsSound s (reachable-IsSound _ r)

-- In a state that the daemon reaches, where the datalogger's timeout is armed, its handler sends SIGKILL
-- to a single process: the pid is positive, so it names no process group. The state afterwards has no
-- timeout armed.
pub worker_timeout-kills_worker :
    (d : Daemon)
    → Reachable d
    → d.worker_armed ≡ true
    → Returns (λ (pid, d'). (pos 0 <ℤ pid) × (d'.worker_armed ≡ false)) (worker_timeout true d)
unfolding worker_timeout
worker_timeout-kills_worker d r armed =
    returns (d.worker_pid, record d { worker_armed = false })
      ((reachable-IsSound d r).armed armed, refl)

handle_sigchld-actions :
    (pid : ℤ) (status : WaitStatus) (d : Daemon)
    → (handle_sigchld pid status d).n_datalog_actions ≡ d.n_datalog_actions
unfolding handle_sigchld
handle_sigchld-actions pid status d = ground arith

abbrev SameActions : Daemon → Forked → Type 0
SameActions d (parent d') = d'.n_datalog_actions ≡ d.n_datalog_actions
SameActions d child = ⊥

abbrev SameRun : Daemon → Run (ℤ × Daemon) → Type 0
SameRun d (ok (_, d')) = d'.n_datalog_actions ≡ d.n_datalog_actions
SameRun d _ = ⊥

-- It is suspended, by a command or by the schedule, or a worker is running.
abbrev may_not_start : Daemon → Bool
may_not_start d =
    d.suspended_by_command || d.suspended_by_schedule || not (eqb_ℤ d.worker_pid (pos 0))

interval_tick-actions :
    (fork : ℤ) (d : Daemon) → may_not_start d ≡ true → SameActions d (interval_tick fork d)
unfolding interval_tick
interval_tick-actions fork d h =
    elim (Bool-cases (d.suspended_by_command || d.suspended_by_schedule)) [
      | inl asleep ↦ rw asleep refl
      | inr awake ↦
          let busy : eqb_ℤ d.worker_pid (pos 0) ≡ false = ground arith in rw (awake, busy) refl
    ]

-- No step of the daemon starts a worker while it is suspended by a command or by the schedule, or while
-- a worker is running.
pub Step-starts_none :
    (d d' : Daemon)
    → Step d d'
    → may_not_start d ≡ true
    → d'.n_datalog_actions ≡ d.n_datalog_actions
unfolding handle_sigterm handle_sigusr1 handle_sigusr2 daemon_suspend daemon_resume worker_timeout
    collecttmpfs_timeout
Step-starts_none d _ sigterm h = refl
Step-starts_none d _ sigusr1 h = ground arith
Step-starts_none d _ sigusr2 h = ground arith
Step-starts_none d _ (sigchld pid status) h = handle_sigchld-actions pid status d
Step-starts_none d _ suspend h = refl
Step-starts_none d _ resume h = refl
Step-starts_none d d' (tick fork run) h = subst (SameActions d) run (interval_tick-actions fork d h)
Step-starts_none d d' (timeout pid armed run) h = subst (SameRun d) run refl
Step-starts_none d d' (import_timeout pid run) h = subst (SameRun d) run refl

-- No descriptor of the set is greater than the bound that build_fdset() gives pselect(), and the bound
-- does not fall below the one before.
pub build_fdset-bound :
    (range : ℕ) (fds : List ℕ)
    → All (λ fd. fd ≤ (build_fdset range fds).1) (build_fdset range fds).0
      × (range ≤ (build_fdset range fds).1)
unfolding build_fdset
build_fdset-bound range [] = (tt, omega arith)
build_fdset-bound range (fd ∷ fds) = elim (Bool-cases (fd == 0)) [
  | inl absent ↦ rw absent (build_fdset-bound range fds)
  | inr there ↦
      let (below, up) = build_fdset-bound (if ltb fd range then range else fd) fds in
      rw there ((ground arith, below), ground arith)
]
