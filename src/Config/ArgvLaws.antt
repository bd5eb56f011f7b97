-- ===== src/Config/ArgvLaws.antt =====
-- cfg_read_argv() as a whole: where it returns and what it accepts, and where it reads through NULL.
use icmond.Prelude.{
  ℕ, ◌-◌, ◌≤◌, ◌≡◌, ◌≢◌, refl, Bool, true, false, ◌||◌, ltb, ◌==◌, if◌then◌else◌, List, [], ◌∷◌,
  Option, none, some, length, ℤ, pos, negsuc, ltb_ℤ, eqb_ℤ, fault, arith, Returns, returns,
  Returns-bind, Returns-map, Bool-cases, inl, inr, ◌⊎◌, All,
}
use icmond.EventTypes.{Bytes, codes}
use icmond.Text.{str_case_eq, is_nonempty}
use icmond.Event.Strtol.{strtol}
use icmond.Event.Parse.{errno_after, einval}
use icmond.KeyVal.{remove_comments, keyval2valstr, keyval_nvalues, drop}
use icmond.KeyVal.Create.{equals, keyval_create_correct}
use icmond.KeyVal.Values.{HasValue}
use icmond.Config.{Config, cfg_loglevel_str2val}
use icmond.Config.Blocks.{Buffers, Malloc}
use icmond.Config.Lines.{max_filename_len, set_interval, set_inet_pingtimeout}
use icmond.Config.Range.{InRange, Within, IsStable}
use icmond.Config.Reads.{AnyPointers, AnyPointers-IsStable}
use icmond.Config.Argv.{
  Arguments, wrong, only_value, atoi_value, number_option, loglevel_option, hosts_option,
  daemon_option, ramdisk_option, database_option, testdbwrite_option, CommandOption, loglevel,
  hosts, daemon, ramdisk_value, ramdisk, nodaemon, interval, timeout, config, database, createdb,
  writeconfig, testdbwrite, invalid, options, option_of, apply_option, read_arguments,
  cfg_read_argv,
}
use icmond.Config.Readable.{is_number, IsReadable, Numbered, readable_keyval}

module _ (m : Malloc) (E : Option ℕ → Option ℕ → Option ℕ → Buffers → Type 0)
    (stable : IsStable m E) where
  -- Within the bounds, with pointers that satisfy `E`.
  abbrev pub IsSound : Config → Buffers → Type 0
  IsSound c b = InRange c × E c.pinghosts c.liststring c.tmpfsfilename b

  -- An error was counted, or the configuration is within the bounds and its pointers satisfy `E`.
  pub data Checked (a : Arguments) : Type 0 where
    counted : 1 ≤ a.n_errors → Checked a
    sound : IsSound a.config a.buffers → Checked a

  Checked-if : {x y : Arguments} (b : Bool) → Checked x → Checked y → Checked (if b then x else y)
  Checked-if true p q = p
  Checked-if false p q = q

  Checked-wrong : (a : Arguments) → Checked (wrong a)
  Checked-wrong a = counted (omega arith)

  -- A step that keeps the numbers and the errors.
  same_numbers :
      (a b : Arguments)
      → (IsSound a.config a.buffers → IsSound b.config b.buffers)
      → a.n_errors ≤ b.n_errors
      → Checked a
      → Checked b
  same_numbers a b f le (counted e) = counted (omega arith)
  same_numbers a b f le (sound p) = sound (f p)

  number_option-Checked :
      (set : ℤ → Config → Config) (min max : ℕ) (key value : Bytes) (values : List Bytes)
      (a : Arguments)
      → ((n : ℤ) (c : Config) (b : Buffers) → Within min max n → IsSound c b → IsSound (set n c) b)
      → Checked a
      → Returns Checked (number_option set min max (some (key ∷ (value ∷ values))) a)
  unfolding number_option atoi_value
  number_option-Checked set min max key value values a keeps h =
      let n = (strtol value).value in
      let stored = record a {
        config = set n a.config;
        errno = errno_after a.errno (strtol value);
      } in
      returns _ (elim (Bool-cases (ltb_ℤ n (pos min) || ltb_ℤ (pos max) n)) [
        | inl outside ↦ rw outside (Checked-wrong stored)
        | inr inside ↦
            let within : Within min max n = ground arith in
            rw inside (same_numbers a stored (keeps n a.config a.buffers within) (omega arith) h)
      ])

  loglevel_option-Checked :
      (value : Option Bytes) (a : Arguments) → Checked a → Checked (loglevel_option value a)
  unfolding loglevel_option
  loglevel_option-Checked none a h = Checked-if _ (Checked-wrong a) h
  loglevel_option-Checked (some v) a h =
      let level = cfg_loglevel_str2val v in
      let read = record a {
        config = record a.config { loglevel = level };
        errno = if eqb_ℤ level (negsuc 0) then einval else 0;
      } in
      Checked-if _ (Checked-wrong read) (same_numbers a read (λ p. p) (omega arith) h)

  hosts_option-Checked :
      (kv : Option (List Bytes)) (a : Arguments) → Checked a → Checked (hosts_option m kv a)
  unfolding hosts_option
  hosts_option-Checked none a h = Checked-wrong _
  hosts_option-Checked (some kv) a h =
      Checked-if (is_nonempty (keyval2valstr kv))
        (same_numbers a _
          (λ (p, e). (
            p,
            stable.new_hosts a.config.pinghosts a.config.liststring a.config.tmpfsfilename a.buffers
                (keyval2valstr kv) e,
          ))
          (omega arith) h)
        (Checked-wrong _)

  daemon_option-Checked :
      (value : Option Bytes) (a : Arguments) → Checked a → Checked (daemon_option value a)
  unfolding daemon_option
  daemon_option-Checked none a h = Checked-wrong a
  daemon_option-Checked (some v) a h =
      Checked-if (str_case_eq v (codes "TRUE")) (same_numbers a _ (λ p. p) (omega arith) h) (
        Checked-if (str_case_eq v (codes "FALSE")) (same_numbers a _ (λ p. p) (omega arith) h)
          (Checked-wrong a))

  ramdisk_option-Checked :
      (value : Option Bytes) (a : Arguments) → Checked a → Checked (ramdisk_option value a)
  unfolding ramdisk_option
  ramdisk_option-Checked none a h = Checked-wrong a
  ramdisk_option-Checked (some v) a h =
      Checked-if (str_case_eq v (codes "TRUE")) (same_numbers a _ (λ p. p) (omega arith) h) (
        Checked-if (str_case_eq v (codes "FALSE")) (same_numbers a _ (λ p. p) (omega arith) h) (
          Checked-if (str_case_eq v (codes "AUTO")) (same_numbers a _ (λ p. p) (omega arith) h)
            (Checked-wrong a)))

  testdbwrite_option-Checked :
      (kv : Option (List Bytes)) (a : Arguments)
      → HasValue kv
      → Checked a
      → Returns Checked (testdbwrite_option kv a)
  unfolding testdbwrite_option atoi_value keyval_nvalues
  testdbwrite_option-Checked none a v h = returns _ (same_numbers a _ (λ p. p) (omega arith) h)
  testdbwrite_option-Checked (some []) a v h = elim v [ ]
  testdbwrite_option-Checked (some (key ∷ [])) a v h = elim v [ ]
  testdbwrite_option-Checked (some (key ∷ (value ∷ values))) a v h =
      let some_value : (length (key ∷ (value ∷ values)) - 1 == 0) ≡ false = ground arith in
      rw some_value (returns _ (same_numbers a _ (λ p. p) (omega arith) h))

  apply_option-Checked :
      (option : CommandOption) (arg : Bytes) (kv : Option (List Bytes)) (a : Arguments)
      → HasValue kv
      → Numbered option kv
      → length (drop 10 arg) ≤ max_filename_len
      → Checked a
      → Returns Checked (apply_option m option arg kv a)
  unfolding apply_option database_option
  apply_option-Checked loglevel arg kv a v n s h =
      returns _ (loglevel_option-Checked (only_value kv) a h)
  apply_option-Checked hosts arg kv a v n s h = returns _ (hosts_option-Checked kv a h)
  apply_option-Checked daemon arg kv a v n s h =
      returns _ (daemon_option-Checked (only_value kv) a h)
  apply_option-Checked ramdisk_value arg kv a v n s h =
      returns _ (ramdisk_option-Checked (only_value kv) a h)
  apply_option-Checked ramdisk arg kv a v n s h =
      returns _ (same_numbers a _ (λ p. p) (omega arith) h)
  apply_option-Checked nodaemon arg kv a v n s h =
      returns _ (same_numbers a _ (λ p. p) (omega arith) h)
  apply_option-Checked interval arg none a v n s h = absurd (bad n)
    where
      bad : (true ≡ false) → ⊥
      bad e = cc
  apply_option-Checked interval arg (some []) a v n s h = elim v [ ]
  apply_option-Checked interval arg (some (key ∷ [])) a v n s h = elim v [ ]
  apply_option-Checked interval arg (some (key ∷ (value ∷ values))) a v n s h =
      number_option-Checked set_interval 5 3600 key value values a
        (λ _ c b' w ((_, b, d, e, f), e'). ((w, b, d, e, f), e')) h
  apply_option-Checked timeout arg none a v n s h = absurd (bad n)
    where
      bad : (true ≡ false) → ⊥
      bad e = cc
  apply_option-Checked timeout arg (some []) a v n s h = elim v [ ]
  apply_option-Checked timeout arg (some (key ∷ [])) a v n s h = elim v [ ]
  apply_option-Checked timeout arg (some (key ∷ (value ∷ values))) a v n s h =
      number_option-Checked set_inet_pingtimeout 100 3000 key value values a
        (λ _ c b' w ((i, _, d, e, f), e'). ((i, w, d, e, f), e')) h
  apply_option-Checked config arg kv a v n s h = returns a h
  apply_option-Checked database arg kv a v n s h =
      let fits : ltb max_filename_len (length (drop 10 arg)) ≡ false = ground arith in
      rw fits (returns _ (same_numbers a _ (λ p. p) (omega arith) h))
  apply_option-Checked createdb arg kv a v n s h =
      returns _ (same_numbers a _ (λ p. p) (omega arith) h)
  apply_option-Checked writeconfig arg kv a v n s h =
      returns _ (same_numbers a _ (λ p. p) (omega arith) h)
  apply_option-Checked testdbwrite arg kv a v n s h = testdbwrite_option-Checked kv a v h
  apply_option-Checked invalid arg kv a v n s h = returns _ (Checked-wrong a)

  read_arguments-Checked :
      (argv : List Bytes) (a : Arguments)
      → All IsReadable argv
      → Checked a
      → Returns Checked (read_arguments m argv a)
  unfolding read_arguments
  read_arguments-Checked [] a r h = returns a h
  read_arguments-Checked (arg ∷ argv) a (r, rs) h =
      Returns-bind (readable_keyval arg r) λ kv (v, n).
        Returns-bind (apply_option-Checked (option_of arg options) arg kv a v n r.short h)
          λ b h'. read_arguments-Checked argv b rs h'

  pub cfg_read_argv-IsSound :
      (argv : List Bytes) (errno : ℕ) (tmpcfg : Config) (b : Buffers)
      → IsSound tmpcfg b
      → All IsReadable argv
      → Returns
          (λ (success, c, b'). (success ≡ false) ⊎ IsSound c b')
          (cfg_read_argv m argv errno tmpcfg b)
  unfolding cfg_read_argv
  cfg_read_argv-IsSound argv errno tmpcfg b fits r =
      Returns-bind (read_arguments-Checked argv _ r (sound fits)) λ a h. returns _ (finished a h)
    where
      finished :
          (a : Arguments) → Checked a → ((a.n_errors == 0) ≡ false) ⊎ IsSound a.config a.buffers
      finished a (counted e) = inl (ground arith)
      finished a (sound p) = inr p

-- cfg_read_argv() on a configuration within the bounds, and arguments that are readable, always returns.
-- It fails, or gives a configuration that is within the bounds.
pub cfg_read_argv_correct :
    (m : Malloc) (argv : List Bytes) (errno : ℕ) (tmpcfg : Config) (b : Buffers)
    → InRange tmpcfg
    → All IsReadable argv
    → Returns
        (λ (success, c, b'). (success ≡ false) ⊎ InRange c)
        (cfg_read_argv m argv errno tmpcfg b)
cfg_read_argv_correct m argv errno tmpcfg b fits r =
    Returns-map
      (cfg_read_argv-IsSound m AnyPointers (AnyPointers-IsStable m) argv errno tmpcfg b (fits, tt)
        r)
      λ (success, c, b') h. elim h [ inl fails ↦ inl fails | inr (good, e) ↦ inr good ]

-- A first argument for the interval or the timeout that has not exactly one unescaped `=` up to an unescaped
-- `#`, such as `-interval=5=6`, makes cfg_read_argv() read through a NULL pointer, whatever follows it.
pub cfg_read_argv-fault :
    (m : Malloc) (arg : Bytes) (argv : List Bytes) (errno : ℕ) (tmpcfg : Config) (b : Buffers)
    → is_number (option_of arg options) ≡ true
    → equals false (remove_comments false arg) ≢ 1
    → cfg_read_argv m (arg ∷ argv) errno tmpcfg b ≡ fault
unfolding cfg_read_argv read_arguments apply_option number_option atoi_value
cfg_read_argv-fault m arg argv errno tmpcfg b number many = elim (keyval_create_correct arg) [
  | inr (one, _) ↦ absurd (many one)
  | inl (_, run) ↦ rw (run, null_faults (option_of arg options) number)
]
  where
    bad : (false ≡ true) → ⊥
    bad e = cc

    null_faults :
        (option : CommandOption)
        → is_number option ≡ true
        → apply_option m option arg none
            record { config = tmpcfg; buffers = b; errno = errno; n_errors = 0 }
          ≡ fault
    null_faults interval h = refl
    null_faults timeout h = refl
    null_faults loglevel h = absurd (bad h)
    null_faults hosts h = absurd (bad h)
    null_faults daemon h = absurd (bad h)
    null_faults ramdisk_value h = absurd (bad h)
    null_faults ramdisk h = absurd (bad h)
    null_faults nodaemon h = absurd (bad h)
    null_faults config h = absurd (bad h)
    null_faults database h = absurd (bad h)
    null_faults createdb h = absurd (bad h)
    null_faults writeconfig h = absurd (bad h)
    null_faults testdbwrite h = absurd (bad h)
    null_faults invalid h = absurd (bad h)
