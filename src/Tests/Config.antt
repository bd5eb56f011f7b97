-- ===== src/Tests/Config.antt =====
-- Runs of config.c, and its theorems at concrete configurations, files and arguments.
use icmond.Prelude.{
  ℤ, Option, Run, ◌≡◌, ◌≢◌, refl, ◌++◌, true, false, not, List, [], ◌∷◌, none, some, length, All,
  ok, fault, pos, ◌+ℤ◌, arith, Returns, ◌>>=◌, ◌⊎◌, inl, inr,
}
use icmond.EventTypes.{Bytes, Event, codes, type_interval}
use icmond.Event.Time.{schedule_next_trigger}
use icmond.Config.{Config, with_defaults, cfg_init, cfg_commit, cfg_free, default_pinghosts}
use icmond.Config.Blocks.{Buffers, Malloc, block, put}
use icmond.Config.Lines.{Files}
use icmond.Config.File.{cfg_read_file, setting_of}
use icmond.Text.{is_space, is_delim, str_eq, str_case_eq}
use icmond.Arrays.Collapse.{nonempty_strings}
use icmond.KeyVal.{remove_comments, keyval_create}
use icmond.KeyVal.Create.{equals}
use icmond.Config.Argv.{cfg_read_argv, option_of, is_option}
use icmond.Config.Check.{cfg_check, Verdict}
use mathlib.Core.Option
use mathlib.Core.Path.{subst}
use icmond.Main.{configure}
use icmond.Main.Laws.{IsConfigured, configure_correct}
use icmond.Config.Owned.{Owned, Apart, cfg_commit_correct}
use icmond.Config.Range.{InRange, SameCommands}
use icmond.Config.Reads.{AreReadable, cfg_read_file_correct}
use icmond.Config.Readable.{IsReadable}
use icmond.Config.ArgvLaws.{cfg_read_argv_correct, cfg_read_argv-fault}
use icmond.Config.CheckedFiles.{IsChecked, Answers, root_files, root_files-Answers}
use icmond.Config.CheckLaws.{relisted, cfg_check-IsChecked, cfg_check-liststring}
use icmond.KeyVal.Fields.{is_closed}
use icmond.Tests.Schedule.{utc}
use icmond.Tests.Users.{unix, unix-Documented, root}

pub block-length : (b : Buffers) → block b (length b) ≡ none
unfolding block
block-length [] = refl
block-length (s ∷ more) = block-length more

-- A malloc() that never uses a block again.
abbrev pub bump : Malloc
bump = record { choose = λ b. length b; fresh = block-length }

-- A system with every file, whose names are real paths, under root.
abbrev open_files : Files
open_files = root_files unix (λ name. some name) root

open_files-Answers : (user : Bytes) → Answers unix root open_files user
open_files-Answers user =
    root_files-Answers unix (λ name. some name) root user unix-Documented refl refl

-- The same without a database.
abbrev no_database : Files
no_database = record open_files { exists = λ name. not (str_eq name (codes "/db")) }

abbrev pub blank : Config
blank = record {
  filename = [];
  as_daemon = true;
  tmpfs = 0;
  interval = pos 0;
  loglevel = pos 0;
  database_filename = [];
  tmpfsfilename = none;
  inet_pingtimeout = pos 0;
  pinghosts = none;
  powercontrol = false;
  powerupdelay = pos 0;
  ip = [];
  modem_pingtimeout = pos 0;
  scrubber_filename = [];
  scrubber_timeout = pos 0;
  createdatabase = false;
  createconfigfile = false;
  testdbwriteperf = pos 0;
  apply_dst = pos 0;
  liststring = none;
}

-- The default configuration, with an event list.
abbrev pub current : Config
current = record (with_defaults 0 blank) { liststring = some 1 }

abbrev changed : Config
changed = record current { liststring = some 2 }

abbrev pub strings : Buffers
strings =
    some (codes "www.google.com")
    ∷ some (codes "@01:00 suspend")
    ∷ some (codes "@02:00 suspend")
    ∷ []

abbrev lines : List Bytes
lines =
    codes "interval = 30\n"
    ∷ codes "# none\n"
    ∷ codes "schedule = @01:00 suspend\n"
    ∷ codes "database = /db\n"
    ∷ []

pub current-Owned : Owned current strings
unfolding block
current-Owned = record { hosts_live = (_, refl); list_live = (_, refl); tmpfs_live = tt }

changed-Owned : Owned changed strings
unfolding block
changed-Owned = record { hosts_live = (_, refl); list_live = (_, refl); tmpfs_live = tt }

pub current-Apart : Apart current current
current-Apart = record {
  hosts_list = λ i. ground arith;
  hosts_tmpfs = λ i. ground arith;
  list_hosts = λ i. ground arith;
  list_tmpfs = λ i. ground arith;
  tmpfs_hosts = λ i. refl;
  tmpfs_list = λ i. refl;
}

changed-Apart : Apart current changed
changed-Apart = record {
  hosts_list = λ i. ground arith;
  hosts_tmpfs = λ i. ground arith;
  list_hosts = λ i. ground arith;
  list_tmpfs = λ i. ground arith;
  tmpfs_hosts = λ i. refl;
  tmpfs_list = λ i. refl;
}

abbrev arguments : List Bytes
arguments = codes "-interval=10" ∷ codes "-nodaemon" ∷ []

current-InRange : InRange current
current-InRange = ground arith

lines-AreReadable : AreReadable open_files lines
unfolding is_closed keyval_create setting_of is_space is_delim str_case_eq
lines-AreReadable = ((refl, refl), ((refl, refl), ((refl, refl), ((refl, refl), tt))))

-- A database that does not exist ends the reading.
missing_database :
    cfg_read_file bump no_database
      (some lines)
      (record current { filename = codes "/etc/icmond" })
      strings
    ≡ fault
unfolding cfg_read_file is_space is_delim put str_eq
missing_database = refl

arguments-IsReadable : All IsReadable arguments
unfolding is_closed option_of is_option equals remove_comments
arguments-IsReadable = (
  record { closed = refl; short = omega arith; one_equal = inr refl },
  (record { closed = refl; short = omega arith; one_equal = inl refl }, tt),
)

-- The reading of the lines stores the interval and a new event list.
read_runs :
    cfg_read_file bump open_files (some lines) current strings
    ≡ ok (
      true,
      record current { interval = pos 30; liststring = some 3; database_filename = codes "/db" },
      strings ++ some (codes "@01:00 suspend") ∷ [],
    )
unfolding cfg_read_file is_space is_delim put
read_runs = refl

argv_runs :
    cfg_read_argv bump arguments 0 current strings
    ≡ ok (true, record current { interval = pos 10; as_daemon = false }, strings)
unfolding cfg_read_argv is_space is_delim
argv_runs = refl

-- At the start, cfg_init() works on a configuration without strings.
init_runs : cfg_init bump blank [] ≡ ok (with_defaults 0 blank, some default_pinghosts ∷ [])
unfolding cfg_init
init_runs = refl

cfg_commit_correct_example :
    Returns
      (λ (cfg', b'). (cfg' ≡ changed) × Owned cfg' b' × (cfg_free cfg' changed b' ≡ ok b'))
      (cfg_commit current changed strings)
cfg_commit_correct_example =
    cfg_commit_correct current changed strings current-Owned changed-Owned current-Apart
      changed-Apart

cfg_read_file_correct_example :
    Returns
      (λ (success, c, b'). (success ≡ false) ⊎ (InRange c × SameCommands current c))
      (cfg_read_file bump open_files (some lines) current strings)
cfg_read_file_correct_example =
    cfg_read_file_correct bump open_files lines current strings current-InRange lines-AreReadable

cfg_read_argv_correct_example :
    Returns
      (λ (success, c, b'). (success ≡ false) ⊎ InRange c)
      (cfg_read_argv bump arguments 0 current strings)
cfg_read_argv_correct_example =
    cfg_read_argv_correct bump arguments 0 current strings current-InRange arguments-IsReadable

twice_equal : equals false (remove_comments false (codes "-interval=5=6")) ≢ 1
unfolding equals remove_comments
twice_equal e = ground arith

cfg_read_argv-fault_example :
    cfg_read_argv bump (codes "-interval=5=6" ∷ []) 0 current strings ≡ fault
cfg_read_argv-fault_example =
    cfg_read_argv-fault bump (codes "-interval=5=6") [] 0 current strings
      (unfold option_of is_option in refl) twice_equal

abbrev suspend_hourly : Event
suspend_hourly = record {
  next_trigger = pos 3600;
  localoffset = pos 3600;
  type = type_interval;
  action = 1;
  source = 2;
}

abbrev accepted : Verdict
accepted = record { config = some current; g_parsed = some (suspend_hourly ∷ []); g_errors = [] }

check_runs :
    cfg_check utc (pos 0) (λ events. events) open_files [] current current strings none []
    ≡ ok accepted
unfolding cfg_check is_space is_delim block nonempty_strings ◌+ℤ◌ schedule_next_trigger
check_runs = refl

cfg_check-IsChecked_example : IsChecked unix root open_files [] current current
cfg_check-IsChecked_example =
    cfg_check-IsChecked utc (pos 0) (λ events. events) unix root open_files [] current current
      current strings none [] accepted (open_files-Answers _) check_runs refl

cfg_check-liststring_example :
    cfg_check utc (pos 0) (λ events. events) open_files [] current changed strings none [] ≡ (
      cfg_check utc (pos 0) (λ events. events) open_files [] current current strings none []
      >>= λ v. ok (relisted (some 2) v))
cfg_check-liststring_example =
    cfg_check-liststring utc (pos 0) (λ events. events) open_files [] current current strings none
      [] (some 2)

abbrev argv : List Bytes
argv = codes "icmond" ∷ arguments

-- Every file has the same lines.
abbrev open_file : Bytes → Option (List Bytes)
open_file name = some lines

open_file-AreReadable :
    (name : Bytes) (text : List Bytes) → open_file name ≡ some text → AreReadable open_files text
open_file-AreReadable name text e =
    subst (λ t. AreReadable open_files t) (Option.some_inj.0 e) lines-AreReadable

abbrev interval_of : Option (Config × Buffers) → Run (Option ℤ)
interval_of none = ok none
interval_of (some (c, b)) = ok (some c.interval)

-- The command line has the last word.
configure_runs :
    (configure bump open_files open_file argv true blank [] >>= interval_of) ≡ ok (some (pos 10))
unfolding configure is_space is_delim put block
configure_runs = refl

configure_correct_example :
    Returns IsConfigured (configure bump open_files open_file argv true blank [])
configure_correct_example =
    configure_correct bump open_files open_file argv open_file-AreReadable arguments-IsReadable true
      blank [] refl refl
