-- ===== src/Config/Lines.antt =====
-- config.c: cfg_read_file(), one line of the configuration file. A key with a value of its own kind is
-- read by one of the helpers; `kv[1]` is NULL where a line has no value, and its use is a fault.
use icmond.Prelude.{
  ℕ, suc, Bool, true, false, not, ◌||◌, ltb, ◌==◌, if◌then◌else◌, List, [], ◌∷◌, Option, none, some,
  length, ℤ, pos, negsuc, ltb_ℤ, eqb_ℤ, Run, ok, fault,
}
use icmond.EventTypes.{Bytes, codes}
use icmond.Text.{str_case_eq}
use icmond.Event.Strtol.{strtol}
use icmond.KeyVal.{keyval2valstr}
use icmond.Arrays.Collapse.{nonempty_strings}
use icmond.Config.{Config, tmpfs_false, tmpfs_true, tmpfs_auto, cfg_loglevel_str2val}
use icmond.Config.Blocks.{Buffers, Malloc, allocate}

-- The files of the system: file_exist(), what file_useraccess() of util.c answers (User.file_useraccess; what
-- it does to the ids is left out here, see Config/CheckedFiles), and realpath().
pub record Files : Type 0 where
  pub exists : Bytes → Bool
  pub useraccess : Bytes → Bytes → ℕ → Bool
  pub realpath : Bytes → Option Bytes

-- R_OK, W_OK and X_OK
abbrev pub r_ok : ℕ
r_ok = 4

abbrev pub rw_ok : ℕ
rw_ok = 6

abbrev pub x_ok : ℕ
x_ok = 1

-- DAEMON_RUN_AS_USER
abbrev pub run_as_user : Bytes
run_as_user = codes "daemon"

-- CFG_MAX_FILENAME_LEN
abbrev pub max_filename_len : ℕ
max_filename_len = 4096

-- INET_ADDRSTRLEN
abbrev pub inet_addrstrlen : ℕ
inet_addrstrlen = 16

-- `tmpcfg`, the buffers, and the two counters of cfg_read_file()
pub record Reading : Type 0 where
  pub config : Config
  pub buffers : Buffers
  pub n_errors : ℕ
  pub n_warnings : ℕ

abbrev pub error : Reading → Reading
error r = record r { n_errors = suc r.n_errors }

-- atoi()
unfoldable pub atoi : Bytes → ℤ
unfolding strtol
atoi s = (strtol s).value

-- kv[1]
unfoldable pub first_value : List Bytes → Run Bytes
first_value (key ∷ (value ∷ _)) = ok value
first_value _ = fault

-- A value TRUE or FALSE; any other is an error.
unfoldable pub read_bool : (Bool → Config → Config) → Bytes → Reading → Reading
unfolding str_case_eq
read_bool set value r =
    if str_case_eq value (codes "TRUE")
    then record r { config = set true r.config }
    else if str_case_eq value (codes "FALSE")
    then record r { config = set false r.config }
    else error r

-- A number, which is stored, and is an error out of bounds.
unfoldable pub read_number : (ℤ → Config → Config) → ℕ → ℕ → Bytes → Reading → Reading
unfolding atoi
read_number set min max value r =
    let n = atoi value in
    let stored = record r { config = set n r.config } in
    if ltb_ℤ n (pos min) || ltb_ℤ (pos max) n then error stored else stored

-- `ramdisk`
unfoldable pub read_ramdisk : Bytes → Reading → Reading
unfolding str_case_eq
read_ramdisk value r =
    if str_case_eq value (codes "TRUE")
    then record r { config = record r.config { tmpfs = tmpfs_true } }
    else if str_case_eq value (codes "FALSE")
    then record r { config = record r.config { tmpfs = tmpfs_false } }
    else if str_case_eq value (codes "AUTO")
    then record r { config = record r.config { tmpfs = tmpfs_auto } }
    else error r

-- `loglevel`
unfoldable pub read_loglevel : Bytes → Reading → Reading
unfolding cfg_loglevel_str2val
read_loglevel value r =
    let level = cfg_loglevel_str2val value in
    let stored = record r { config = record r.config { loglevel = level } } in
    if eqb_ℤ level (negsuc 0) then error stored else stored

-- `database`; where the file does not exist, logmsg() gets the number CFG_MAX_FILENAME_LEN for a `%s`
unfoldable pub read_database : Files → Bytes → Reading → Run Reading
read_database files value r =
    let stored = record r { config = record r.config { database_filename = value } } in
    if ltb max_filename_len (length value)
    then ok (error r)
    else if r.config.createdatabase
    then ok stored
    else if not (files.exists value)
    then fault
    else if not (files.useraccess value run_as_user rw_ok)
    then ok (error r)
    else ok stored

-- `inet pinghosts` and `schedule`: a new buffer with the values that are not empty, or NULL
unfoldable pub read_list : Malloc → (Option ℕ → Config → Config) → List Bytes → Reading → Reading
unfolding nonempty_strings keyval2valstr
read_list m set [] r = r
read_list m set (key ∷ values) r =
    let kept = nonempty_strings values in
    let (address, buffers) = allocate m (keyval2valstr (key ∷ kept)) r.buffers in
    if length kept == 0
    then record r { config = set none r.config }
    else record r { config = set (some address) r.config; buffers = buffers }

-- A single value of a limited length: `modem ip`, whose empty values are dropped, and `modem scrubber`.
unfoldable pub read_single : (Bytes → Config → Config) → ℕ → List Bytes → Reading → Reading
read_single set max (value ∷ []) r =
    if ltb max (length value) then error r else record r { config = set value r.config }
read_single set max _ r = error r

-- The members that the keys set.
abbrev pub set_as_daemon : Bool → Config → Config
set_as_daemon v c = record c { as_daemon = v }

abbrev pub set_interval : ℤ → Config → Config
set_interval v c = record c { interval = v }

abbrev pub set_pinghosts : Option ℕ → Config → Config
set_pinghosts v c = record c { pinghosts = v }

abbrev pub set_inet_pingtimeout : ℤ → Config → Config
set_inet_pingtimeout v c = record c { inet_pingtimeout = v }

abbrev pub set_powercontrol : Bool → Config → Config
set_powercontrol v c = record c { powercontrol = v }

abbrev pub set_powerupdelay : ℤ → Config → Config
set_powerupdelay v c = record c { powerupdelay = v }

abbrev pub set_ip : Bytes → Config → Config
set_ip v c = record c { ip = v }

abbrev pub set_modem_pingtimeout : ℤ → Config → Config
set_modem_pingtimeout v c = record c { modem_pingtimeout = v }

abbrev pub set_scrubber : Bytes → Config → Config
set_scrubber v c = record c { scrubber_filename = v }

abbrev pub set_scrubber_timeout : ℤ → Config → Config
set_scrubber_timeout v c = record c { scrubber_timeout = v }

abbrev pub set_apply_dst : Bool → Config → Config
set_apply_dst v c = record c { apply_dst = if v then pos 1 else pos 0 }

abbrev pub set_liststring : Option ℕ → Config → Config
set_liststring v c = record c { liststring = v }
