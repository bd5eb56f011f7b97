-- ===== src/Config/Range.antt =====
-- What cfg_read_file() lets through: every number within its bounds, and the members that no key sets.
use icmond.Prelude.{
  ℕ, ◌≤◌, ◌≡◌, Bool, true, false, not, ◌||◌, ltb, ◌==◌, if◌then◌else◌, List, [], ◌∷◌, Option, none,
  some, length, ℤ, pos, negsuc, ltb_ℤ, eqb_ℤ, ◌≤ℤ◌, arith, Bool-cases, inl, inr, Returns, returns,
  Returns-if,
}
use icmond.EventTypes.{Bytes, codes}
use icmond.Text.{str_case_eq}
use icmond.KeyVal.{keyval2valstr}
use icmond.Arrays.Collapse.{nonempty_strings}
use icmond.Config.{Config, cfg_loglevel_str2val}
use icmond.Config.Blocks.{Buffers, Malloc, put}
use icmond.Config.Lines.{
  Files, Reading, error, atoi, read_bool, read_number, read_ramdisk, read_loglevel, read_database,
  read_list, read_single, max_filename_len, run_as_user, rw_ok,
}

abbrev pub Within : ℕ → ℕ → ℤ → Type 0
Within min max n = (pos min ≤ℤ n) × (n ≤ℤ pos max)

-- The bounds of config.h.
abbrev pub InRange : Config → Type 0
InRange c =
    Within 5 3600 c.interval
    × Within 100 3000 c.inet_pingtimeout
    × Within 100 3000 c.modem_pingtimeout
    × Within 0 300 c.powerupdelay
    × Within 200 5000 c.scrubber_timeout

-- The members that no key of the file sets.
abbrev pub SameCommands : Config → Config → Type 0
SameCommands base c =
    (c.filename ≡ base.filename)
    × (c.createdatabase ≡ base.createdatabase)
    × (c.createconfigfile ≡ base.createconfigfile)
    × (c.testdbwriteperf ≡ base.testdbwriteperf)
    × (c.tmpfsfilename ≡ base.tmpfsfilename)

-- An error was counted, or the configuration and the buffers satisfy `P`.
pub data Counted (P : Config → Buffers → Type 0) (r : Reading) : Type 0 where
  counted : 1 ≤ r.n_errors → Counted P r
  sound : P r.config r.buffers → Counted P r

module _ (P : Config → Buffers → Type 0) where
  mapped :
      (r : Reading) (c : Config)
      → (P r.config r.buffers → P c r.buffers)
      → Counted P r
      → Counted P (record r { config = c })
  mapped r c f (counted e) = counted e
  mapped r c f (sound p) = sound (f p)

  Counted-if :
      {x y : Reading} (b : Bool) → Counted P x → Counted P y → Counted P (if b then x else y)
  Counted-if true p q = p
  Counted-if false p q = q

  Counted-error : (r : Reading) → Counted P (error r)
  Counted-error r = counted (omega arith)

  pub read_bool-Counted :
      (set : Bool → Config → Config) (value : Bytes) (r : Reading)
      → ((v : Bool) (c : Config) (b : Buffers) → P c b → P (set v c) b)
      → Counted P r
      → Counted P (read_bool set value r)
  unfolding read_bool
  read_bool-Counted set value r keeps h =
      Counted-if (str_case_eq value (codes "TRUE")) (mapped r _ (keeps true r.config r.buffers) h) (
        Counted-if (str_case_eq value (codes "FALSE"))
          (mapped r _ (keeps false r.config r.buffers) h) (Counted-error r))

  pub read_number-Counted :
      (set : ℤ → Config → Config) (min max : ℕ) (value : Bytes) (r : Reading)
      → ((n : ℤ) (c : Config) (b : Buffers) → Within min max n → P c b → P (set n c) b)
      → Counted P r
      → Counted P (read_number set min max value r)
  unfolding read_number
  read_number-Counted set min max value r keeps h =
      let n = atoi value in
      elim (Bool-cases (ltb_ℤ n (pos min) || ltb_ℤ (pos max) n)) [
        | inl outside ↦ rw outside (counted (omega arith))
        | inr inside ↦
            let within : Within min max n = ground arith in
            rw inside (mapped r (set n r.config) (keeps n r.config r.buffers within) h)
      ]

  pub read_ramdisk-Counted :
      (value : Bytes) (r : Reading)
      → ((v : ℕ) (c : Config) (b : Buffers) → P c b → P (record c { tmpfs = v }) b)
      → Counted P r
      → Counted P (read_ramdisk value r)
  unfolding read_ramdisk
  read_ramdisk-Counted value r keeps h =
      Counted-if (str_case_eq value (codes "TRUE")) (mapped r _ (keeps 1 r.config r.buffers) h) (
        Counted-if (str_case_eq value (codes "FALSE")) (mapped r _ (keeps 0 r.config r.buffers) h) (
          Counted-if (str_case_eq value (codes "AUTO")) (mapped r _ (keeps 2 r.config r.buffers) h)
            (Counted-error r)))

  pub read_loglevel-Counted :
      (value : Bytes) (r : Reading)
      → ((v : ℤ) (c : Config) (b : Buffers) → P c b → P (record c { loglevel = v }) b)
      → Counted P r
      → Counted P (read_loglevel value r)
  unfolding read_loglevel
  read_loglevel-Counted value r keeps h =
      let level = cfg_loglevel_str2val value in
      let stored = record r { config = record r.config { loglevel = level } } in
      Counted-if (eqb_ℤ level (negsuc 0)) (Counted-error stored)
        (mapped r _ (keeps level r.config r.buffers) h)

  pub read_database-Counted :
      (files : Files) (value : Bytes) (r : Reading)
      → ((v : Bytes) (c : Config) (b : Buffers) → P c b → P (record c { database_filename = v }) b)
      → (ltb max_filename_len (length value) || files.exists value) ≡ true
      → Counted P r
      → Returns (Counted P) (read_database files value r)
  unfolding read_database
  read_database-Counted files value r keeps there h =
      let stored =
        mapped r (record r.config { database_filename = value }) (keeps value r.config r.buffers)
          h in
      Returns-if (ltb max_filename_len (length value)) (λ long. returns _ (Counted-error r))
        λ short.
          Returns-if r.config.createdatabase (λ creates. returns _ stored)
            λ needs.
              Returns-if (not (files.exists value))
                (λ absent. absurd (ground (arith, there, short, absent)))
                (λ present.
                  Returns-if (not (files.useraccess value run_as_user rw_ok))
                    (λ denied. returns _ (Counted-error r)) (λ granted. returns _ stored))

  pub read_list-Counted :
      (m : Malloc) (set : Option ℕ → Config → Config) (kv : List Bytes) (r : Reading)
      → ((c : Config) (b : Buffers) → P c b → P (set none c) b)
      → ((c : Config) (b : Buffers) (s : Bytes)
          → P c b
          → P (set (some (m.choose b)) c) (put b (m.choose b) (some s)))
      → Counted P r
      → Counted P (read_list m set kv r)
  unfolding read_list
  read_list-Counted m set [] r empties keeps h = h
  read_list-Counted m set (key ∷ values) r empties keeps h =
      Counted-if (length (nonempty_strings values) == 0) (mapped r _ (empties r.config r.buffers) h)
        (stored_list r _ _
          (keeps r.config r.buffers (keyval2valstr (key ∷ nonempty_strings values))) h)
    where
      stored_list :
          (r : Reading) (c : Config) (b : Buffers)
          → (P r.config r.buffers → P c b)
          → Counted P r
          → Counted P (record r { config = c; buffers = b })
      stored_list r c b f (counted e) = counted e
      stored_list r c b f (sound p) = sound (f p)

  pub read_single-Counted :
      (set : Bytes → Config → Config) (max : ℕ) (values : List Bytes) (r : Reading)
      → ((v : Bytes) (c : Config) (b : Buffers) → P c b → P (set v c) b)
      → Counted P r
      → Counted P (read_single set max values r)
  unfolding read_single
  read_single-Counted set max [] r keeps h = Counted-error r
  read_single-Counted set max (v ∷ []) r keeps h =
      Counted-if (ltb max (length v)) (Counted-error r) (mapped r _ (keeps v r.config r.buffers) h)
  read_single-Counted set max (v ∷ (w ∷ more)) r keeps h = Counted-error r

-- A property of the three pointers and the buffers that a reading keeps: a pointer to a list may become
-- NULL, or point to a new block.
pub record IsStable (m : Malloc) (E : Option ℕ → Option ℕ → Option ℕ → Buffers → Type 0)
    : Type 0 where
  pub no_hosts :
      (hosts list tmpfs : Option ℕ) (b : Buffers) → E hosts list tmpfs b → E none list tmpfs b
  pub new_hosts :
      (hosts list tmpfs : Option ℕ) (b : Buffers) (s : Bytes)
      → E hosts list tmpfs b
      → E (some (m.choose b)) list tmpfs (put b (m.choose b) (some s))
  pub no_list :
      (hosts list tmpfs : Option ℕ) (b : Buffers) → E hosts list tmpfs b → E hosts none tmpfs b
  pub new_list :
      (hosts list tmpfs : Option ℕ) (b : Buffers) (s : Bytes)
      → E hosts list tmpfs b
      → E hosts (some (m.choose b)) tmpfs (put b (m.choose b) (some s))
