-- ===== src/Config.antt =====
-- config.c and config.h: the configuration, its default values, and the copies of it that a reading of
-- the configuration works on.
pub mod Blocks
pub mod Lines
pub mod File
pub mod Owned
pub mod Range
pub mod Reads
pub mod Argv
pub mod Readable
pub mod ArgvLaws
pub mod Check
pub mod CheckedFiles
pub mod CheckLaws
use icmond.Prelude.{
  ℕ, ◌+◌, Bool, true, false, if◌then◌else◌, List, [], ◌∷◌, Option, none, some, length, get_elem?, ℤ,
  pos, negsuc, Run, ok, fault, ◌>>=◌,
}
use icmond.EventTypes.{Bytes, codes}
use icmond.Text.{str_case_eq, is_nonempty}
use icmond.Config.Blocks.{Buffers, Malloc, allocate, free, differs, free_if_replaced}

-- TRUE, FALSE and AUTO
abbrev pub tmpfs_false : ℕ
tmpfs_false = 0

abbrev pub tmpfs_true : ℕ
tmpfs_true = 1

abbrev pub tmpfs_auto : ℕ
tmpfs_auto = 2

-- config_t. The strings in arrays are values, the strings behind pointers are addresses of buffers.
pub record Config : Type 0 where
  pub filename : Bytes
  pub as_daemon : Bool
  pub tmpfs : ℕ
  pub interval : ℤ
  pub loglevel : ℤ
  pub database_filename : Bytes
  pub tmpfsfilename : Option ℕ
  pub inet_pingtimeout : ℤ
  pub pinghosts : Option ℕ
  pub powercontrol : Bool
  pub powerupdelay : ℤ
  pub ip : Bytes
  pub modem_pingtimeout : ℤ
  pub scrubber_filename : Bytes
  pub scrubber_timeout : ℤ
  pub createdatabase : Bool
  pub createconfigfile : Bool
  pub testdbwriteperf : ℤ
  pub apply_dst : ℤ
  pub liststring : Option ℕ

-- CFG_DEFAULT_FILECONFIG and the other default strings
abbrev pub default_fileconfig : Bytes
default_fileconfig = codes "/etc/icmond.conf"

abbrev pub default_filedatabase : Bytes
default_filedatabase = codes "/srv/icmond.sqlite3"

abbrev pub default_pinghosts : Bytes
default_pinghosts = codes "www.google.com"

abbrev pub default_scrubber : Bytes
default_scrubber = codes "/usr/local/bin/icmond.scrubber"

abbrev pub default_ip : Bytes
default_ip = codes "192.168.1.1"

-- LOG_INFO
abbrev pub log_info : ℤ
log_info = pos 6

-- The values that cfg_init() stores, with a buffer for the ping hosts.
abbrev pub with_defaults : ℕ → Config → Config
with_defaults hosts new = record new {
  filename = default_fileconfig;
  as_daemon = true;
  tmpfs = tmpfs_auto;
  interval = pos 10;
  loglevel = log_info;
  database_filename = default_filedatabase;
  tmpfsfilename = none;
  inet_pingtimeout = pos 1000;
  pinghosts = some hosts;
  powercontrol = false;
  powerupdelay = pos 45;
  ip = default_ip;
  modem_pingtimeout = pos 200;
  scrubber_filename = default_scrubber;
  scrubber_timeout = pos 4000;
  createdatabase = false;
  createconfigfile = false;
  testdbwriteperf = pos 0;
  apply_dst = pos 0;
  liststring = none;
}

-- cfg_init(): the configuration, and the buffers afterwards
unfoldable pub cfg_init : Malloc → Config → Buffers → Run (Config × Buffers)
unfolding free
cfg_init m new b = do
  b1 ← free new.pinghosts b
  let (hosts, b2) = allocate m default_pinghosts b1
  b3 ← free new.liststring b2
  ok (with_defaults hosts new, b3)

-- cfg_dup(): the pointers are copied, and what they point to is shared
unfoldable pub cfg_dup : Config → Config
cfg_dup config = config

-- cfg_commit(): `cfg`, and the buffers afterwards
unfoldable pub cfg_commit : Config → Config → Buffers → Run (Config × Buffers)
unfolding free_if_replaced
cfg_commit cfg config b = do
  b1 ← free_if_replaced cfg.pinghosts config.pinghosts b
  b2 ← free_if_replaced cfg.liststring config.liststring b1
  b3 ← free_if_replaced cfg.tmpfsfilename config.tmpfsfilename b2
  ok (config, b3)

-- `if (p != q) free(r)`
unfoldable pub free_if_differs : Option ℕ → Option ℕ → Option ℕ → Buffers → Run Buffers
unfolding free
free_if_differs p q r b = let freed = free r b in if differs p q then freed else ok b

-- cfg_free() of a copy of `cfg`: the buffers afterwards
unfoldable pub cfg_free : Config → Config → Buffers → Run Buffers
unfolding free_if_differs
cfg_free cfg config b = do
  b1 ← free_if_differs cfg.liststring config.liststring config.liststring b
  b2 ← free_if_differs cfg.pinghosts config.pinghosts config.pinghosts b1
  free_if_differs cfg.tmpfsfilename config.tmpfsfilename cfg.tmpfsfilename b2

-- _loglevel[]
abbrev pub loglevels : List Bytes
loglevels =
    codes "LOG_EMERG"
    ∷ codes "LOG_ALERT"
    ∷ codes "LOG_CRIT"
    ∷ codes "LOG_ERR"
    ∷ codes "LOG_WARNING"
    ∷ codes "LOG_NOTICE"
    ∷ codes "LOG_INFO"
    ∷ codes "LOG_DEBUG"
    ∷ []

-- cfg_loglevel_val2str(); the array is read out of bounds by a negative level
unfoldable pub cfg_loglevel_val2str : ℤ → Run (Option Bytes)
cfg_loglevel_val2str (negsuc n) = fault
cfg_loglevel_val2str (pos n) = ok (get_elem? loglevels n)

-- the `for` of cfg_loglevel_str2val(), from an index on
unfoldable pub find_loglevel : Bytes → ℕ → List Bytes → ℤ
find_loglevel logstr idx [] = negsuc 0
find_loglevel logstr idx (level ∷ more) =
    let rest = find_loglevel logstr (idx + 1) more in
    if str_case_eq logstr level then pos idx else rest

-- cfg_loglevel_str2val(); errno is EINVAL where the result is -1, and 0 where it is not
unfoldable pub cfg_loglevel_str2val : Bytes → ℤ
unfolding find_loglevel str_case_eq
cfg_loglevel_str2val logstr =
    if is_nonempty logstr then find_loglevel logstr 0 loglevels else negsuc 0
