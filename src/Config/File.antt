-- ===== src/Config/File.antt =====
-- config.c: cfg_read_file(). The file is the list of the lines that fgets() returns.
use icmond.Prelude.{
  suc, Bool, false, not, ◌==◌, if◌then◌else◌, List, [], ◌∷◌, Option, none, some, Run, ok, ◌>>=◌,
}
use icmond.EventTypes.{Bytes, codes}
use icmond.Text.{str_case_eq, str_eq}
use icmond.KeyVal.{keyval_create}
use icmond.Arrays.Collapse.{nonempty_strings}
use icmond.Config.{Config, default_fileconfig}
use icmond.Config.Blocks.{Buffers, Malloc}
use icmond.Config.Lines.{
  Files, Reading, first_value, read_bool, read_number, read_ramdisk, read_loglevel, read_database,
  read_list, read_single, set_as_daemon, set_interval, set_pinghosts, set_inet_pingtimeout,
  set_powercontrol, set_powerupdelay, set_ip, set_modem_pingtimeout, set_scrubber,
  set_scrubber_timeout, set_apply_dst, set_liststring, max_filename_len, inet_addrstrlen,
}

-- The keys of the configuration file.
pub data Setting : Type 0 where
  daemon interval loglevel database ramdisk inet_pinghosts inet_pingtimeout : Setting
  modem_powercontrol modem_powerupdelay modem_ip modem_pingtimeout modem_scrubber : Setting
  modem_scrubbertimeout schedule_dst schedule unknown : Setting

-- Each key with its name, in the order in which cfg_read_file() compares them.
abbrev pub settings : List (Bytes × Setting)
settings =
    (codes "daemon", daemon)
    ∷ (codes "interval", interval)
    ∷ (codes "loglevel", loglevel)
    ∷ (codes "database", database)
    ∷ (codes "ramdisk", ramdisk)
    ∷ (codes "inet pinghosts", inet_pinghosts)
    ∷ (codes "inet pingtimeout", inet_pingtimeout)
    ∷ (codes "modem powercontrol", modem_powercontrol)
    ∷ (codes "modem powerupdelay", modem_powerupdelay)
    ∷ (codes "modem ip", modem_ip)
    ∷ (codes "modem pingtimeout", modem_pingtimeout)
    ∷ (codes "modem scrubber", modem_scrubber)
    ∷ (codes "modem scrubbertimeout", modem_scrubbertimeout)
    ∷ (codes "schedule dst", schedule_dst)
    ∷ (codes "schedule", schedule)
    ∷ []

-- The chain of `if (keyval_iskey(kv, ...))`
unfoldable pub setting_of : Bytes → List (Bytes × Setting) → Setting
setting_of key [] = unknown
setting_of key ((name, setting) ∷ more) =
    let rest = setting_of key more in if str_case_eq key name then setting else rest

-- `daemon`
abbrev pub daemon_setting : List Bytes → Reading → Run Reading
daemon_setting kv r = do v ← first_value kv; ok (read_bool set_as_daemon v r)

-- `interval`
abbrev pub interval_setting : List Bytes → Reading → Run Reading
interval_setting kv r = do v ← first_value kv; ok (read_number set_interval 5 3600 v r)

-- `loglevel`: cfg_loglevel_str2val() treats NULL like an empty string
abbrev pub loglevel_setting : List Bytes → Reading → Run Reading
loglevel_setting (key ∷ (value ∷ _)) r = ok (read_loglevel value r)
loglevel_setting _ r = ok (read_loglevel [] r)

-- `database`
abbrev pub database_setting : Files → List Bytes → Reading → Run Reading
database_setting files kv r = do v ← first_value kv; read_database files v r

-- `ramdisk`
abbrev pub ramdisk_setting : List Bytes → Reading → Run Reading
ramdisk_setting kv r = do v ← first_value kv; ok (read_ramdisk v r)

-- `inet pinghosts`
abbrev pub inet_pinghosts_setting : Malloc → List Bytes → Reading → Run Reading
inet_pinghosts_setting m kv r = ok (read_list m set_pinghosts kv r)

-- `inet pingtimeout`
abbrev pub inet_pingtimeout_setting : List Bytes → Reading → Run Reading
inet_pingtimeout_setting kv r = do
  v ← first_value kv
  ok (read_number set_inet_pingtimeout 100 3000 v r)

-- `modem powercontrol`
abbrev pub modem_powercontrol_setting : List Bytes → Reading → Run Reading
modem_powercontrol_setting kv r = do v ← first_value kv; ok (read_bool set_powercontrol v r)

-- `modem powerupdelay`
abbrev pub modem_powerupdelay_setting : List Bytes → Reading → Run Reading
modem_powerupdelay_setting kv r = do v ← first_value kv; ok (read_number set_powerupdelay 0 300 v r)

-- `modem ip`
abbrev pub modem_ip_setting : List Bytes → Reading → Run Reading
modem_ip_setting [] r = ok r
modem_ip_setting (key ∷ values) r =
    ok (read_single set_ip inet_addrstrlen (nonempty_strings values) r)

-- `modem pingtimeout`
abbrev pub modem_pingtimeout_setting : List Bytes → Reading → Run Reading
modem_pingtimeout_setting kv r = do
  v ← first_value kv
  ok (read_number set_modem_pingtimeout 100 3000 v r)

-- `modem scrubber`
abbrev pub modem_scrubber_setting : List Bytes → Reading → Run Reading
modem_scrubber_setting [] r = ok r
modem_scrubber_setting (key ∷ values) r = ok (read_single set_scrubber max_filename_len values r)

-- `modem scrubbertimeout`
abbrev pub modem_scrubbertimeout_setting : List Bytes → Reading → Run Reading
modem_scrubbertimeout_setting kv r = do
  v ← first_value kv
  ok (read_number set_scrubber_timeout 200 5000 v r)

-- `schedule dst`
abbrev pub schedule_dst_setting : List Bytes → Reading → Run Reading
schedule_dst_setting kv r = do v ← first_value kv; ok (read_bool set_apply_dst v r)

-- `schedule`
abbrev pub schedule_setting : Malloc → List Bytes → Reading → Run Reading
schedule_setting m kv r = ok (read_list m set_liststring kv r)

-- any other key
abbrev pub unknown_setting : List Bytes → Reading → Run Reading
unknown_setting kv r = ok (record r { n_warnings = suc r.n_warnings })

-- cfg_read_file(), behind the loop: it fails if there were errors
abbrev pub finish_reading : Reading → Run (Bool × Config × Buffers)
finish_reading r = ok (r.n_errors == 0, r.config, r.buffers)

module _ (m : Malloc) (files : Files) where
  -- what cfg_read_file() does with the keyval_t of a line
  unfoldable pub apply_setting : Setting → List Bytes → Reading → Run Reading
  unfolding read_bool read_number read_ramdisk read_loglevel read_database read_list read_single
      first_value nonempty_strings
  apply_setting daemon kv r = daemon_setting kv r
  apply_setting interval kv r = interval_setting kv r
  apply_setting loglevel kv r = loglevel_setting kv r
  apply_setting database kv r = database_setting files kv r
  apply_setting ramdisk kv r = ramdisk_setting kv r
  apply_setting inet_pinghosts kv r = inet_pinghosts_setting m kv r
  apply_setting inet_pingtimeout kv r = inet_pingtimeout_setting kv r
  apply_setting modem_powercontrol kv r = modem_powercontrol_setting kv r
  apply_setting modem_powerupdelay kv r = modem_powerupdelay_setting kv r
  apply_setting modem_ip kv r = modem_ip_setting kv r
  apply_setting modem_pingtimeout kv r = modem_pingtimeout_setting kv r
  apply_setting modem_scrubber kv r = modem_scrubber_setting kv r
  apply_setting modem_scrubbertimeout kv r = modem_scrubbertimeout_setting kv r
  apply_setting schedule_dst kv r = schedule_dst_setting kv r
  apply_setting schedule kv r = schedule_setting m kv r
  apply_setting unknown kv r = unknown_setting kv r

  -- one line of the file
  unfoldable pub read_line : Bytes → Reading → Run Reading
  unfolding keyval_create setting_of apply_setting
  read_line line r = keyval_create (some line) >>= λ kv. elim kv [
    | none ↦ ok r
    | some [] ↦ ok r
    | some (key ∷ values) ↦ apply_setting (setting_of key settings) (key ∷ values) r
  ]

  -- the `while (fgets(...))` of cfg_read_file()
  unfoldable pub read_lines : List Bytes → Reading → Run Reading
  unfolding read_line
  read_lines [] r = ok r
  read_lines (line ∷ lines) r = do r' ← read_line line r; read_lines lines r'

  -- cfg_read_file(), where `opened` is what fopen() gives: whether it succeeds, the configuration and the
  -- buffers
  unfoldable pub cfg_read_file :
      Option (List Bytes) → Config → Buffers → Run (Bool × Config × Buffers)
  unfolding read_lines str_eq
  cfg_read_file opened tmpcfg b =
      let start : Reading = record { config = tmpcfg; buffers = b; n_errors = 0; n_warnings = 0 } in
      let read : Run (Bool × Config × Buffers) = elim opened [
        | none ↦ ok (false, tmpcfg, b)
        | some lines ↦ read_lines lines start >>= finish_reading
      ] in
      if not (files.exists tmpcfg.filename)
      then ok (str_eq tmpcfg.filename default_fileconfig, tmpcfg, b)
      else read
