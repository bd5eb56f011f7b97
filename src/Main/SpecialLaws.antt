-- ===== src/Main/SpecialLaws.antt =====
-- The daemon is not started behind the special commands of main().
use icmond.Prelude.{
  ℕ, ◌≡◌, refl, ◌⊎◌, inl, inr, Bool, true, false, not, ◌||◌, ◌==◌, Run, ok, exited, ◌>>=◌,
  Bool-cases, arith,
}
use icmond.Event.Time.{is_zero}
use icmond.Config.{Config}
use icmond.Daemon.{exit_success, exit_failure}
use icmond.User.{System}
use icmond.Main.Commands.{
  exit_cancelled, Disk, Answers, cmd_testdbperf, cmd_initdb, cmd_writeconfig, unless_exit,
  command_initdb, command_writeconfig, command_testdbperf, special_commands,
}
use icmond.Main.CommandsLaws.{
  Replaced, cancelled, refused, stopped, failed, replaced, cmd_initdb-Replaced,
}

-- Whether the configuration has a special command.
abbrev pub is_commanded : Config → Bool
is_commanded cfg = cfg.createdatabase || (cfg.createconfigfile || not (is_zero cfg.testdbwriteperf))

-- How the special commands end: without one the program goes on, and nothing has changed; with one it does
-- not go on to start the daemon.
pub data Commanded {ℓ} {Content : Type ℓ} (commanded : Bool) (disk : Disk Content)
    : Run (Bool × Disk Content) → Type ℓ where
  goes_on : commanded ≡ false → Commanded commanded disk (ok (true, disk))
  ends : {disk' : Disk Content} → commanded ≡ true → Commanded commanded disk (ok (false, disk'))
  exits_ : commanded ≡ true → Commanded commanded disk exited

-- A part of the commands: it ends the process or goes on, and changes nothing without its command.
data Part {ℓ} {Content : Type ℓ} (commanded : Bool) (disk : Disk Content)
    : Run (Disk Content) → Type ℓ where
  skipped : commanded ≡ false → Part commanded disk (ok disk)
  executed : {disk' : Disk Content} → commanded ≡ true → Part commanded disk (ok disk')
  terminated : commanded ≡ true → Part commanded disk exited

module _ {ℓ} {Content : Type ℓ} (k : System) (s : Answers Content) where
  unless_exit-Part :
      (commanded : Bool) (disk disk' : Disk Content) (rc : ℕ)
      → commanded ≡ true
      → Part commanded disk (unless_exit k s rc disk')
  unless_exit-Part commanded disk disk' rc c = elim (Bool-cases (rc == exit_cancelled)) [
    | inl cancel ↦ rw cancel (terminated c)
    | inr other ↦ elim (Bool-cases (rc == exit_failure)) [
      | inl failure ↦ rw (other, failure) (terminated c)
      | inr success ↦ rw (other, success) (executed c)
    ]
  ]

  initdb-Part :
      (cfg : Config) (disk : Disk Content)
      → Part cfg.createdatabase disk (command_initdb k s cfg disk)
  unfolding command_initdb
  initdb-Part cfg disk = elim (Bool-cases cfg.createdatabase) [
    | inr no_ ↦ rw no_ (skipped refl)
    | inl yes_ ↦ rw yes_ (part (cmd_initdb k s disk) (cmd_initdb-Replaced k s disk))
  ]
    where
      part :
          (r : Run (ℕ × Disk Content))
          → Replaced s s.initialized (λ d. d.database) disk r
          → Part true disk (r >>= λ (rc, disk'). unless_exit k s rc disk')
      part _ (cancelled t a b) = unless_exit-Part true disk disk exit_cancelled refl
      part _ (refused t kept) = unless_exit-Part true disk disk exit_failure refl
      part _ (stopped m) = terminated refl
      part _ (failed {disk'} m) = unless_exit-Part true disk disk' exit_failure refl
      part _ (replaced {disk'} m a b) = unless_exit-Part true disk disk' exit_success refl

  writeconfig-Part :
      (cfg : Config) (disk : Disk Content)
      → Part cfg.createconfigfile disk (command_writeconfig k s cfg disk)
  unfolding command_writeconfig
  writeconfig-Part cfg disk = elim (Bool-cases cfg.createconfigfile) [
    | inr no_ ↦ rw no_ (skipped refl)
    | inl yes_ ↦
        rw yes_ (
          unless_exit-Part true disk (cmd_writeconfig k s disk).1 (cmd_writeconfig k s disk).0 refl)
  ]

  testdbperf-Part :
      (cfg : Config) (disk : Disk Content)
      → Part (not (is_zero cfg.testdbwriteperf)) disk (command_testdbperf k s cfg disk)
  unfolding command_testdbperf
  testdbperf-Part cfg disk = elim (Bool-cases (is_zero cfg.testdbwriteperf)) [
    | inl no_ ↦ rw no_ (skipped refl)
    | inr yes_ ↦ elim (Bool-cases (cmd_testdbperf k s cfg.testdbwriteperf == 0)) [
      | inl works ↦ rw (yes_, works) (executed refl)
      | inr fails ↦ rw (yes_, fails) (terminated refl)
    ]
  ]

  -- What is known between the parts: a command has run, or nothing has changed and it depends on the rest.
  abbrev Between : Bool → Bool → Disk Content → Disk Content → Type ℓ
  Between all rest disk d = (all ≡ true) ⊎ ((d ≡ disk) × (all ≡ rest))

  continue_commands :
      (all b rest : Bool) (disk d : Disk Content) (r : Run (Disk Content))
      → Between all (b || rest) disk d
      → Part b d r
      → ((r ≡ exited) × (all ≡ true))
        ⊎ ((d' : Disk Content) × (r ≡ ok d') × Between all rest disk d')
  continue_commands all b rest disk d _ (inl a) (skipped c) = inr (d, refl, inl a)
  continue_commands all b rest disk d _ (inl a) (executed c) = inr (_, refl, inl a)
  continue_commands all b rest disk d _ (inl a) (terminated c) = inl (refl, a)
  continue_commands all b rest disk d _ (inr (same, e)) (skipped c) =
      inr (d, refl, inr (same, ground (arith, e, c)))
  continue_commands all b rest disk d _ (inr (same, e)) (executed c) =
      inr (_, refl, inl (ground (arith, e, c)))
  continue_commands all b rest disk d _ (inr (same, e)) (terminated c) =
      inl (refl, ground (arith, e, c))

  end_commands :
      (all : Bool) (disk d : Disk Content)
      → Between all false disk d
      → Commanded all disk (ok (not all, d))
  end_commands all disk d (inl a) = rw a (ends refl)
  end_commands all disk d (inr (same, e)) = rw (same, e) (goes_on refl)

  -- main() with the command to create the database, to write the configuration file, or to test the
  -- write performance does not go on to start the daemon: it ends with success, or exits with a failure.
  -- Without a command it goes on, with the files and the ids of the process as they were.
  pub special_commands-Commanded :
      (cfg : Config) (disk : Disk Content)
      → Commanded (is_commanded cfg) disk (special_commands k s cfg disk)
  unfolding special_commands
  special_commands-Commanded cfg disk =
      let all = is_commanded cfg in
      let test = not (is_zero cfg.testdbwriteperf) in
      elim (continue_commands all cfg.createdatabase (cfg.createconfigfile || test) disk disk _
        (inr (refl, refl)) (initdb-Part cfg disk)) [
          | inl (run, c) ↦ rw run (exits_ c)
          | inr (d1, run1, b1) ↦
              elim (continue_commands all cfg.createconfigfile test disk d1 _ b1
                (writeconfig-Part cfg d1)) [
                  | inl (run, c) ↦ rw (run1, run) (exits_ c)
                  | inr (d2, run2, b2) ↦
                      let b2' : Between all (test || false) disk d2 = elim b2 [
                        | inl a ↦ inl a
                        | inr (same, e) ↦ inr (same, ground (arith, e))
                      ] in
                      elim (continue_commands all test false disk d2 _ b2'
                        (testdbperf-Part cfg d2)) [
                          | inl (run, c) ↦ rw (run1, run2, run) (exits_ c)
                          | inr (d3, run3, b3) ↦ rw (run1, run2, run3) (end_commands all disk d3 b3)
                        ]
                ]
        ]
