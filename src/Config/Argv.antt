-- ===== src/Config/Argv.antt =====
-- config.c: cfg_preread_commandline() and cfg_read_argv(). The vector is the list of its strings.
use icmond.Prelude.{
  ℕ, suc, Bool, true, false, not, ◌&&◌, ◌||◌, ltb, ◌==◌, if◌then◌else◌, List, [], ◌∷◌, Option, none,
  some, length, ℤ, pos, negsuc, ltb_ℤ, eqb_ℤ, Run, ok, fault, ◌>>=◌,
}
use icmond.EventTypes.{Bytes, codes}
use icmond.Text.{str_case_eq, str_eq, is_nonempty}
use icmond.Event.Strtol.{strtol}
use icmond.Event.Parse.{errno_after, einval}
use icmond.KeyVal.{keyval_create, keyval_nvalues, keyval2valstr, drop}
use icmond.Config.{
  Config, tmpfs_false, tmpfs_true, tmpfs_auto, default_fileconfig, cfg_loglevel_str2val,
}
use icmond.Config.Blocks.{Buffers, Malloc, allocate}
use icmond.Config.Lines.{
  Files, max_filename_len, run_as_user, r_ok, set_interval, set_inet_pingtimeout,
}

-- isopt(): the argument begins with the option
unfoldable pub is_option : Bytes → Bytes → Bool
is_option [] arg = true
is_option (o ∷ option) [] = false
is_option (o ∷ option) (a ∷ arg) = o == a && is_option option arg

-- the `for` of cfg_preread_commandline(), where `none` is a file name that is too long
unfoldable pub preread_options : List Bytes → Config → Option Config
unfolding is_option
preread_options [] c = some c
preread_options (arg ∷ argv) c =
    let filename = drop 8 arg in
    let named = preread_options argv (record c { filename = filename }) in
    let creates = preread_options argv (record c { createdatabase = true }) in
    let writes = preread_options argv (record c { createconfigfile = true }) in
    let other = preread_options argv c in
    if is_option (codes "-config=") arg
    then (if ltb max_filename_len (length filename) then none else named)
    else if is_option (codes "-createdb") arg
    then creates
    else if is_option (codes "-writeconfig") arg
    then writes
    else other

-- cfg_preread_commandline(): the configuration, unless it fails
unfoldable pub cfg_preread_commandline : Files → List Bytes → Config → Option Config
unfolding preread_options str_eq
cfg_preread_commandline files argv cfgptr = elim (preread_options argv cfgptr) [
  | none ↦ none
  | some c ↦
      if not (str_eq c.filename default_fileconfig) && not c.createconfigfile
      then (if not (files.exists c.filename)
          then none
          else if not (files.useraccess c.filename run_as_user r_ok)
          then none
          else some c)
      else some c
]

-- `tmpcfg`, the buffers, errno and the counter of cfg_read_argv()
pub record Arguments : Type 0 where
  pub config : Config
  pub buffers : Buffers
  pub errno : ℕ
  pub n_errors : ℕ

abbrev pub wrong : Arguments → Arguments
wrong a = record a { n_errors = suc a.n_errors }

-- kv[1], where it is the only value
unfoldable pub only_value : Option (List Bytes) → Option Bytes
only_value (some (key ∷ (value ∷ []))) = some value
only_value _ = none

-- atoi(kv[1]); kv or kv[1] may be NULL
unfoldable pub atoi_value : Option (List Bytes) → Arguments → Run (ℤ × Arguments)
unfolding strtol
atoi_value (some (key ∷ (value ∷ _))) a =
    let n = strtol value in ok (n.value, record a { errno = errno_after a.errno n })
atoi_value _ a = fault

-- `-interval=` and `-timeout=`
unfoldable pub number_option :
    (ℤ → Config → Config) → ℕ → ℕ → Option (List Bytes) → Arguments → Run Arguments
unfolding atoi_value
number_option set min max kv a = do
  (n, b) ← atoi_value kv a
  let stored = record b { config = set n b.config }
  ok (if ltb_ℤ n (pos min) || ltb_ℤ (pos max) n then wrong stored else stored)

-- `-loglevel=`
unfoldable pub loglevel_option : Option Bytes → Arguments → Arguments
unfolding cfg_loglevel_str2val
loglevel_option value a =
    let read : Arguments = elim value [
      | none ↦ a
      | some v ↦
          let level = cfg_loglevel_str2val v in
          record a {
            config = record a.config { loglevel = level };
            errno = if eqb_ℤ level (negsuc 0) then einval else 0;
          }
    ] in
    if eqb_ℤ read.config.loglevel (negsuc 0) || not (read.errno == 0) then wrong read else read

-- `-hosts=`
unfoldable pub hosts_option : Malloc → Option (List Bytes) → Arguments → Arguments
unfolding keyval2valstr
hosts_option m none a =
    wrong (record a { config = record a.config { pinghosts = none }; errno = einval })
hosts_option m (some kv) a =
    let hosts = keyval2valstr kv in
    let (address, buffers) = allocate m hosts a.buffers in
    let stored = record a {
      config = record a.config { pinghosts = some address };
      buffers = buffers;
      errno = 0;
    } in
    if is_nonempty hosts then stored else wrong stored

-- `-daemon=`
unfoldable pub daemon_option : Option Bytes → Arguments → Arguments
unfolding str_case_eq
daemon_option none a = wrong a
daemon_option (some value) a =
    if str_case_eq value (codes "TRUE")
    then record a { config = record a.config { as_daemon = true } }
    else if str_case_eq value (codes "FALSE")
    then record a { config = record a.config { as_daemon = false } }
    else wrong a

-- `-ramdisk=`
unfoldable pub ramdisk_option : Option Bytes → Arguments → Arguments
unfolding str_case_eq
ramdisk_option none a = wrong a
ramdisk_option (some value) a =
    if str_case_eq value (codes "TRUE")
    then record a { config = record a.config { tmpfs = tmpfs_true } }
    else if str_case_eq value (codes "FALSE")
    then record a { config = record a.config { tmpfs = tmpfs_false } }
    else if str_case_eq value (codes "AUTO")
    then record a { config = record a.config { tmpfs = tmpfs_auto } }
    else wrong a

-- `-database=`: strcpy() into an array of max_filename_len + 1 bytes
unfoldable pub database_option : Bytes → Arguments → Run Arguments
database_option arg a =
    let filename = drop 10 arg in
    if ltb max_filename_len (length filename)
    then fault
    else ok (record a { config = record a.config { database_filename = filename } })

-- `-testdbwrite`
unfoldable pub testdbwrite_option : Option (List Bytes) → Arguments → Run Arguments
unfolding atoi_value keyval_nvalues
testdbwrite_option kv a =
    let read : Run Arguments = do
      (n, b) ← atoi_value kv a
      ok (record b { config = record b.config { testdbwriteperf = n } })
    in if keyval_nvalues kv == 0
      then ok (record a { config = record a.config { testdbwriteperf = pos 6 } })
      else read

-- The options, in the order in which cfg_read_argv() compares them.
pub data CommandOption : Type 0 where
  loglevel hosts daemon ramdisk_value ramdisk nodaemon interval timeout config database :
      CommandOption
  createdb writeconfig testdbwrite invalid : CommandOption

abbrev pub options : List (Bytes × CommandOption)
options =
    (codes "-loglevel=", loglevel)
    ∷ (codes "-hosts=", hosts)
    ∷ (codes "-daemon=", daemon)
    ∷ (codes "-ramdisk=", ramdisk_value)
    ∷ (codes "-ramdisk", ramdisk)
    ∷ (codes "-nodaemon", nodaemon)
    ∷ (codes "-interval=", interval)
    ∷ (codes "-timeout=", timeout)
    ∷ (codes "-config=", config)
    ∷ (codes "-database=", database)
    ∷ (codes "-createdb", createdb)
    ∷ (codes "-writeconfig", writeconfig)
    ∷ (codes "-testdbwrite", testdbwrite)
    ∷ []

-- the chain of `if (isopt(...))`
unfoldable pub option_of : Bytes → List (Bytes × CommandOption) → CommandOption
unfolding is_option
option_of arg [] = invalid
option_of arg ((name, option) ∷ more) =
    let rest = option_of arg more in if is_option name arg then option else rest

-- cfg_read_argv(), behind the loop: it fails if there were errors
abbrev pub finish_arguments : Arguments → Run (Bool × Config × Buffers)
finish_arguments a = ok (a.n_errors == 0, a.config, a.buffers)

module _ (m : Malloc) where
  -- what cfg_read_argv() does with an argument and its keyval_t
  unfoldable pub apply_option :
      CommandOption → Bytes → Option (List Bytes) → Arguments → Run Arguments
  unfolding only_value number_option loglevel_option hosts_option daemon_option ramdisk_option
      database_option testdbwrite_option
  apply_option loglevel arg kv a = ok (loglevel_option (only_value kv) a)
  apply_option hosts arg kv a = ok (hosts_option m kv a)
  apply_option daemon arg kv a = ok (daemon_option (only_value kv) a)
  apply_option ramdisk_value arg kv a = ok (ramdisk_option (only_value kv) a)
  apply_option ramdisk arg kv a = ok (record a { config = record a.config { tmpfs = tmpfs_true } })
  apply_option nodaemon arg kv a = ok (record a { config = record a.config { as_daemon = false } })
  apply_option interval arg kv a = number_option set_interval 5 3600 kv a
  apply_option timeout arg kv a = number_option set_inet_pingtimeout 100 3000 kv a
  apply_option config arg kv a = ok a
  apply_option database arg kv a = database_option arg a
  apply_option createdb arg kv a =
      ok (record a { config = record a.config { createdatabase = true } })
  apply_option writeconfig arg kv a =
      ok (record a { config = record a.config { createconfigfile = true } })
  apply_option testdbwrite arg kv a = testdbwrite_option kv a
  apply_option invalid arg kv a = ok (wrong a)

  -- the `for` of cfg_read_argv()
  unfoldable pub read_arguments : List Bytes → Arguments → Run Arguments
  unfolding keyval_create option_of apply_option
  read_arguments [] a = ok a
  read_arguments (arg ∷ argv) a = do
    kv ← keyval_create (some arg)
    b ← apply_option (option_of arg options) arg kv a
    read_arguments argv b

  -- cfg_read_argv(), for the arguments behind the program's name and errno before them: whether it
  -- succeeds, the configuration and the buffers
  unfoldable pub cfg_read_argv : List Bytes → ℕ → Config → Buffers → Run (Bool × Config × Buffers)
  unfolding read_arguments
  cfg_read_argv argv errno tmpcfg b = do
    a ← read_arguments argv record { config = tmpcfg; buffers = b; errno = errno; n_errors = 0 }
    finish_arguments a
