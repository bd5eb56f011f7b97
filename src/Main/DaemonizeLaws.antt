-- ===== src/Main/DaemonizeLaws.antt =====
-- Which user the daemon runs as, and what the process that started it reports.
use icmond.Prelude.{
  ◌≡◌, refl, ap, ◌∙◌, Bool, true, false, not, ◌&&◌, ◌==◌, if◌then◌else◌, Option, none, some, pos,
  Run, ok, exited, fault, ◌>>=◌, Bool-cases, inl, inr, arith,
}
use icmond.EventTypes.{Bytes}
use icmond.Config.Lines.{run_as_user}
use icmond.Daemon.{exit_success, exit_failure}
use icmond.User.{Credentials, System, Lookup, found, no_user, lookup_error, user_changeto}
use icmond.User.Laws.{
  Identifies, changed, regid_works, uid_works, with_group, with_identity, user_changeto_correct,
}
use icmond.Main.Daemonize.{
  ParentSignal, sigusr1, sigusr2, sigchld, daemonchild_handler, pidfile_lock, Launch, Launched,
  daemon, ended, signal_if, continue_as_daemon, fork_daemon, daemonize,
}

-- The signal that the waiting parent gets from the daemon's process: the one that it sends, or the one of
-- its end.
abbrev pub heard : Launched → Option ParentSignal
heard (daemon ids sent) = sent
heard (ended rc (some sent)) = some sent
heard (ended rc none) = some sigchld

abbrev pub is_daemon : Launched → Bool
is_daemon (daemon ids sent) = true
is_daemon (ended rc sent) = false

-- Whether every call of daemonize() behind fork() works.
abbrev pub all_work : Launch → Bool
all_work s = s.session_created && (s.directory_changed && (s.pidfile_opened && s.pidfile_locked))

-- The daemon that is started for what the lookup of its user gives.
abbrev pub started_as : System → Lookup → Bool → Credentials → Run Launched
started_as k (found pwd) run_as_daemon c =
    if not (regid_works k pwd c)
    then fault
    else if not (uid_works k pwd c)
    then ok (daemon (with_group k pwd c) (signal_if run_as_daemon sigusr1))
    else ok (daemon (with_identity k pwd c) (signal_if run_as_daemon sigusr1))
started_as k no_user run_as_daemon c = fault
started_as k lookup_error run_as_daemon c = exited

-- A daemon has these ids.
abbrev pub HasIds : Launched → Credentials → Type 0
HasIds (daemon ids' sent) ids = ids' ≡ ids
HasIds (ended rc sent) ids = Unit {0}

module _ (s : Launch) (pidfile : Bytes) where
  -- The child that daemonize() forks runs on as the daemon just if it can make its session, change its
  -- directory, and open and lock the PID file; it keeps the ids that it has. The parent hears of it in any
  -- case, and exits with success for the signal of a child that runs on, and with a failure for that
  -- of one that does not.
  pub continue_as_daemon_correct :
      (ids : Credentials)
      → let child = continue_as_daemon s pidfile true ids in
        (is_daemon child ≡ all_work s)
        × (HasIds child ids)
        × ((signal : ParentSignal) × (heard child ≡ some signal)
            × (daemonchild_handler signal
                ≡ (if is_daemon child then exit_success else exit_failure)))
  unfolding continue_as_daemon pidfile_lock daemonchild_handler
  continue_as_daemon_correct ids = elim (Bool-cases s.session_created) [
    | inr no_session ↦ rw no_session (refl, tt, (sigchld, refl, refl))
    | inl session ↦ elim (Bool-cases s.directory_changed) [
      | inr no_directory ↦ rw (session, no_directory) (refl, tt, (sigchld, refl, refl))
      | inl directory ↦ elim (Bool-cases s.pidfile_opened) [
        | inr unopened ↦ rw (session, directory, unopened) (refl, tt, (sigusr2, refl, refl))
        | inl opened ↦ elim (Bool-cases s.pidfile_locked) [
          | inr unlocked ↦
              rw (session, directory, opened, unlocked) (refl, tt, (sigusr2, refl, refl))
          | inl locked ↦ rw (session, directory, opened, locked) (refl, refl, (sigusr1, refl, refl))
        ]
      ]
    ]
  ]

  -- fork_daemon(), in the child or without a fork, where every call works.
  fork_daemon-works :
      (run_as_daemon : Bool) (ids : Credentials)
      → s.forked ≡ pos 0
      → all_work s ≡ true
      → fork_daemon s pidfile run_as_daemon ids ≡ daemon ids (signal_if run_as_daemon sigusr1)
  unfolding fork_daemon continue_as_daemon pidfile_lock
  fork_daemon-works run_as_daemon ids child works =
      let session : s.session_created ≡ true = ground (arith, works) in
      let directory : s.directory_changed ≡ true = ground (arith, works) in
      let opened : s.pidfile_opened ≡ true = ground (arith, works) in
      let locked : s.pidfile_locked ≡ true = ground (arith, works) in
      elim (Bool-cases run_as_daemon) [
        | inl forks ↦ rw (forks, child, session, directory, opened, locked) refl
        | inr stays ↦ rw (stays, session, directory, opened, locked) refl
      ]

  -- daemonize(), started by root, where each system call that succeeds does what is documented, and every
  -- call behind the change of the user works, goes on in the child that it forks, or in the process itself
  -- if it is not to fork: with all ids those of the daemon's user; but if setuid() fails it goes on too, with
  -- the user ids of root, since the result of user_changeto() is not looked at. If setregid() fails, or there
  -- is no such user, user_changeto() faults in its message, which has no string to format; the process exits on an error of the lookup.
  -- The parent gets SIGUSR1 if there was a fork and the daemon goes on.
  pub daemonize_correct :
      (k : System) (run_as_daemon : Bool) (c : Credentials)
      → Identifies k
      → (c.euid == 0) ≡ true
      → s.parent_is_init ≡ false
      → s.capable ≡ true
      → s.forked ≡ pos 0
      → all_work s ≡ true
      → daemonize s pidfile k run_as_daemon c
        ≡ started_as k (k.getpwnam run_as_user) run_as_daemon c
  unfolding daemonize
  daemonize_correct k run_as_daemon c d root child capable forked works =
      let as_root : user_changeto k run_as_user c ≡ changed k (k.getpwnam run_as_user) c =
        user_changeto_correct k d run_as_user c (rw root (ground arith)) ∙ rw root refl in
      rw (child, as_root, capable) (started (k.getpwnam run_as_user))
    where
      goes_on :
          (ids : Credentials)
          → ok (fork_daemon s pidfile run_as_daemon ids)
            ≡ ok (daemon ids (signal_if run_as_daemon sigusr1))
      goes_on ids = ap ok (fork_daemon-works run_as_daemon ids forked works)

      started :
          (l : Lookup)
          → (changed k l c >>= λ (rc, ids). ok (fork_daemon s pidfile run_as_daemon ids))
            ≡ started_as k l run_as_daemon c
      started (found pwd) = elim (Bool-cases (regid_works k pwd c)) [
        | inr no_group ↦ rw no_group refl
        | inl group ↦ elim (Bool-cases (uid_works k pwd c)) [
          | inr no_uid ↦ rw (group, no_uid) (goes_on (with_group k pwd c))
          | inl uid ↦ rw (group, uid) (goes_on (with_identity k pwd c))
        ]
      ]
      started no_user = refl
      started lookup_error = refl
