-- ===== src/Tests/Startup.antt =====
-- Runs of main() behind the configuration.
use icmond.Prelude.{ℕ, ◌≡◌, refl, true, false, if◌then◌else◌, [], none, some, pos, ok, arith}
use icmond.EventTypes.{codes}
use icmond.Text.{str_eq}
use icmond.Config.{Config, with_defaults, tmpfs_true}
use icmond.User.Laws.{with_identity}
use icmond.Main.Predaemon.{Services, Process, decide_tmpfs, predaemon_initialize}
use icmond.Main.PredaemonLaws.{Decided, predaemon_initialize-Decided}
use icmond.Main.Commands.{Disk, Answers, cmd_initdb, special_commands}
use icmond.Main.SpecialLaws.{Commanded, special_commands-Commanded}
use icmond.Main.Daemonize.{
  ParentSignal, sigusr1, daemonchild_handler, Launch, daemon, continue_as_daemon, daemonize,
}
use icmond.Main.DaemonizeLaws.{
  heard, is_daemon, HasIds, continue_as_daemon_correct, daemonize_correct,
}
use icmond.Tests.Config.{bump}
use icmond.Tests.Heap.{malloc, two, two-WellFormed}
use icmond.Tests.Schedule.{utc, plain}
use icmond.Tests.Users.{unix, unix-Identifies, root, daemon_user}

abbrev config : Config
config = with_defaults 0 (record {
  filename = [];
  as_daemon = true;
  tmpfs = 0;
  interval = pos 0;
  loglevel = pos 0;
  database_filename = [];
  tmpfsfilename = none;
  inet_pingtimeout = pos 0;
  pinghosts = none;
  powercontrol = false;
  powerupdelay = pos 0;
  ip = [];
  modem_pingtimeout = pos 0;
  scrubber_filename = [];
  scrubber_timeout = pos 0;
  createdatabase = false;
  createconfigfile = false;
  testdbwriteperf = pos 0;
  apply_dst = pos 0;
  liststring = none;
})

-- A database that is too slow, where all calls work.
abbrev slow : Services
slow = record { too_slow = some true; mounted = true; initialized = true }

abbrev process : Process
process = record { cfg = config; buffers = []; ids = root; schedule = some two }

predaemon_initialize-Decided_example :
    Decided process
      (some tmpfs_true)
      (predaemon_initialize bump malloc utc plain (pos 9) (pos 9) unix slow process)
unfolding decide_tmpfs
predaemon_initialize-Decided_example =
    predaemon_initialize-Decided bump malloc utc plain (pos 9) (pos 9) unix slow process
      (omega arith) two-WellFormed

-- Answers of a user who does not confirm.
abbrev declined : Answers ℕ
declined = record {
  readable = true;
  confirmed = false;
  unlinked = true;
  initialized = (some 2, true);
  written = (some 3, true);
  measured = true;
}

abbrev disk : Disk ℕ
disk = record { database = some 1; config_file = none; ids = root }

kept : cmd_initdb unix declined disk ≡ ok (2, disk)
unfolding cmd_initdb
kept = refl

abbrev write_config : Config
write_config = record config { createconfigfile = true }

special_commands-Commanded_example :
    Commanded true disk (special_commands unix declined write_config disk)
special_commands-Commanded_example = special_commands-Commanded unix declined write_config disk

abbrev launch : Launch
launch = record {
  parent_is_init = false;
  capable = true;
  forked = pos 0;
  awaited = sigusr1;
  session_created = true;
  directory_changed = true;
  pidfile_opened = true;
  pidfile_locked = true;
}

-- Another daemon has the lock.
abbrev second : Launch
second = record launch { pidfile_locked = false }

continue_as_daemon_correct_example :
    let child = continue_as_daemon second (codes "/tmp/icmond.pid") true root in
    (is_daemon child ≡ false)
    × (HasIds child root)
    × ((signal : ParentSignal) × (heard child ≡ some signal)
        × (daemonchild_handler signal ≡ (if is_daemon child then 0 else 1)))
continue_as_daemon_correct_example =
    continue_as_daemon_correct second (codes "/tmp/icmond.pid") root

daemonize_correct_example :
    daemonize launch (codes "/tmp/icmond.pid") unix true root
    ≡ ok (daemon (with_identity unix daemon_user root) (some sigusr1))
unfolding str_eq
daemonize_correct_example =
    daemonize_correct launch (codes "/tmp/icmond.pid") unix true root unix-Identifies refl refl refl
      refl refl
