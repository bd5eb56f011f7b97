-- ===== src/Config/Reads.antt =====
-- cfg_read_file() as a whole: it returns, and what it accepts is within the bounds.
use icmond.Prelude.{
  ℕ, Returns-map, suc, ◌≡◌, refl, true, false, not, ◌==◌, ◌||◌, ltb, length, Bool, Run, List, [],
  ◌∷◌, Option, none, some, ok, arith, Returns, returns, Returns-bind, Returns-if, inl, inr, ◌⊎◌,
  All,
}
use icmond.EventTypes.{Bytes}
use icmond.Arrays.Collapse.{nonempty_strings}
use icmond.KeyVal.{keyval_create}
use icmond.KeyVal.Fields.{is_closed}
use icmond.KeyVal.Values.{HasValue, keyval_create-HasValue}
use icmond.Config.{Config}
use icmond.Config.Blocks.{Buffers, Malloc}
use icmond.Config.Lines.{
  Files, Reading, set_as_daemon, set_interval, set_pinghosts, set_inet_pingtimeout,
  set_powercontrol, set_powerupdelay, set_ip, set_modem_pingtimeout, set_scrubber,
  set_scrubber_timeout, set_apply_dst, set_liststring, max_filename_len, inet_addrstrlen,
  first_value,
}
use icmond.Config.File.{
  Setting, daemon, interval, loglevel, database, ramdisk, inet_pinghosts, inet_pingtimeout,
  modem_powercontrol, modem_powerupdelay, modem_ip, modem_pingtimeout, modem_scrubber,
  modem_scrubbertimeout, schedule_dst, schedule, unknown, settings, setting_of, apply_setting,
  read_line, read_lines, cfg_read_file,
}
use icmond.Config.Range.{
  IsStable, InRange, SameCommands, Counted, counted, sound, read_bool-Counted, read_number-Counted,
  read_ramdisk-Counted, read_loglevel-Counted, read_database-Counted, read_list-Counted,
  read_single-Counted,
}

-- A database that a key names is there, or its name is too long.
abbrev pub is_present : Files → Setting → Bytes → Bool
is_present files database value = ltb max_filename_len (length value) || files.exists value
is_present files _ value = true

-- The same of what keyval_create() makes of a line.
abbrev pub is_complete : Files → Run (Option (List Bytes)) → Bool
is_complete files (ok (some (key ∷ (value ∷ values)))) =
    is_present files (setting_of key settings) value
is_complete files _ = true

-- Lines in which no escape is pending at the end, and no database is missing.
abbrev pub AreReadable : Files → List Bytes → Type 0
AreReadable files lines =
    All
      (λ line.
        (is_closed false line ≡ true) × (is_complete files (keyval_create (some line)) ≡ true))
      lines

module _ (m : Malloc) (files : Files) (base : Config)
    (E : Option ℕ → Option ℕ → Option ℕ → Buffers → Type 0) (stable : IsStable m E) where
  abbrev IsGood : Config → Buffers → Type 0
  IsGood c b = (InRange c × SameCommands base c) × E c.pinghosts c.liststring c.tmpfsfilename b

  apply_setting-Counted :
      (setting : Setting) (key value : Bytes) (values : List Bytes) (r : Reading)
      → is_present files setting value ≡ true
      → Counted IsGood r
      → Returns (Counted IsGood) (apply_setting m files setting (key ∷ (value ∷ values)) r)
  unfolding apply_setting first_value
  apply_setting-Counted daemon key v vs r there h =
      returns _ (read_bool-Counted IsGood set_as_daemon v r (λ _ c b p. p) h)
  apply_setting-Counted interval key v vs r there h = returns _ (
      read_number-Counted IsGood set_interval 5 3600 v r
        (λ _ c b' w (((a, b, d, e, f), s), e'). (((w, b, d, e, f), s), e')) h)
  apply_setting-Counted loglevel key v vs r there h =
      returns _ (read_loglevel-Counted IsGood v r (λ _ c b p. p) h)
  apply_setting-Counted database key v vs r there h =
      read_database-Counted IsGood files v r (λ _ c b p. p) there h
  apply_setting-Counted ramdisk key v vs r there h =
      returns _ (read_ramdisk-Counted IsGood v r (λ _ c b p. p) h)
  apply_setting-Counted inet_pinghosts key v vs r there h = returns _ (
      read_list-Counted IsGood m set_pinghosts (key ∷ (v ∷ vs)) r
        (λ c b (p, e). (p, stable.no_hosts c.pinghosts c.liststring c.tmpfsfilename b e))
        (λ c b s (p, e). (p, stable.new_hosts c.pinghosts c.liststring c.tmpfsfilename b s e)) h)
  apply_setting-Counted inet_pingtimeout key v vs r there h = returns _ (
      read_number-Counted IsGood set_inet_pingtimeout 100 3000 v r
        (λ _ c b' w (((a, b, d, e, f), s), e'). (((a, w, d, e, f), s), e')) h)
  apply_setting-Counted modem_powercontrol key v vs r there h =
      returns _ (read_bool-Counted IsGood set_powercontrol v r (λ _ c b p. p) h)
  apply_setting-Counted modem_powerupdelay key v vs r there h = returns _ (
      read_number-Counted IsGood set_powerupdelay 0 300 v r
        (λ _ c b' w (((a, b, d, e, f), s), e'). (((a, b, d, w, f), s), e')) h)
  apply_setting-Counted modem_ip key v vs r there h = returns _ (
      read_single-Counted IsGood set_ip inet_addrstrlen (nonempty_strings (v ∷ vs)) r (λ _ c b p. p)
        h)
  apply_setting-Counted modem_pingtimeout key v vs r there h = returns _ (
      read_number-Counted IsGood set_modem_pingtimeout 100 3000 v r
        (λ _ c b' w (((a, b, d, e, f), s), e'). (((a, b, w, e, f), s), e')) h)
  apply_setting-Counted modem_scrubber key v vs r there h =
      returns _
        (read_single-Counted IsGood set_scrubber max_filename_len (v ∷ vs) r (λ _ c b p. p) h)
  apply_setting-Counted modem_scrubbertimeout key v vs r there h = returns _ (
      read_number-Counted IsGood set_scrubber_timeout 200 5000 v r
        (λ _ c b' w (((a, b, d, e, f), s), e'). (((a, b, d, e, w), s), e')) h)
  apply_setting-Counted schedule_dst key v vs r there h =
      returns _ (read_bool-Counted IsGood set_apply_dst v r (λ _ c b p. p) h)
  apply_setting-Counted schedule key v vs r there h = returns _ (
      read_list-Counted IsGood m set_liststring (key ∷ (v ∷ vs)) r
        (λ c b (p, e). (p, stable.no_list c.pinghosts c.liststring c.tmpfsfilename b e))
        (λ c b s (p, e). (p, stable.new_list c.pinghosts c.liststring c.tmpfsfilename b s e)) h)
  apply_setting-Counted unknown key v vs r there h = returns _ (warned h)
    where
      warned : Counted IsGood r → Counted IsGood (record r { n_warnings = suc r.n_warnings })
      warned (counted e) = counted e
      warned (sound p) = sound p

  read_line-Counted :
      (line : Bytes) (r : Reading)
      → is_closed false line ≡ true
      → is_complete files (keyval_create (some line)) ≡ true
      → Counted IsGood r
      → Returns (Counted IsGood) (read_line m files line r)
  unfolding read_line
  read_line-Counted line r closed there h =
      let (kv, run, v) = keyval_create-HasValue line closed in
      rw run (applied kv v (rw run at there))
    where
      applied :
          (kv : Option (List Bytes))
          → HasValue kv
          → is_complete files (ok kv) ≡ true
          → Returns (Counted IsGood) (elim kv [
            | none ↦ ok r
            | some [] ↦ ok r
            | some (key ∷ values) ↦ apply_setting m files (setting_of key settings) (key ∷ values) r
          ])
      applied none v there = returns r h
      applied (some []) v there = elim v [ ]
      applied (some (key ∷ [])) v there = elim v [ ]
      applied (some (key ∷ (value ∷ values))) v there =
          apply_setting-Counted (setting_of key settings) key value values r there h

  read_lines-Counted :
      (lines : List Bytes) (r : Reading)
      → AreReadable files lines
      → Counted IsGood r
      → Returns (Counted IsGood) (read_lines m files lines r)
  unfolding read_lines
  read_lines-Counted [] r closed h = returns r h
  read_lines-Counted (line ∷ lines) r ((closed, there), rest) h =
      Returns-bind (read_line-Counted line r closed there h)
        λ r' h'. read_lines-Counted lines r' rest h'

  pub cfg_read_file-IsGood :
      (lines : List Bytes) (b : Buffers)
      → IsGood base b
      → AreReadable files lines
      → Returns
          (λ (success, c, b'). (success ≡ false) ⊎ IsGood c b')
          (cfg_read_file m files (some lines) base b)
  unfolding cfg_read_file
  cfg_read_file-IsGood lines b unread closed =
      Returns-if (not (files.exists base.filename)) (λ absent. returns _ (inr unread))
        (λ there.
          Returns-bind (read_lines-Counted lines _ closed (sound unread))
            λ r h. returns _ (finished r h))
    where
      finished :
          (r : Reading) → Counted IsGood r → ((r.n_errors == 0) ≡ false) ⊎ IsGood r.config r.buffers
      finished r (counted e) = inl (ground arith)
      finished r (sound p) = inr p

abbrev pub AnyPointers : Option ℕ → Option ℕ → Option ℕ → Buffers → Type 0
AnyPointers hosts list tmpfs b = Unit

pub AnyPointers-IsStable : (m : Malloc) → IsStable m AnyPointers
AnyPointers-IsStable m = record {
  no_hosts = λ hosts list tmpfs b e. tt;
  new_hosts = λ hosts list tmpfs b s e. tt;
  no_list = λ hosts list tmpfs b e. tt;
  new_list = λ hosts list tmpfs b s e. tt;
}

-- cfg_read_file() on a configuration within the bounds, and a file of lines in which no escape is
-- pending at the end, and every database that is named exists, unless its name is too long, always returns.
-- It fails, or gives a configuration that is within the bounds and
-- has the file name, the commands and the tmpfs file name that it had.
pub cfg_read_file_correct :
    (m : Malloc) (files : Files) (lines : List Bytes) (tmpcfg : Config) (b : Buffers)
    → InRange tmpcfg
    → AreReadable files lines
    → Returns
        (λ (success, c, b'). (success ≡ false) ⊎ (InRange c × SameCommands tmpcfg c))
        (cfg_read_file m files (some lines) tmpcfg b)
cfg_read_file_correct m files lines tmpcfg b fits closed =
    Returns-map
      (cfg_read_file-IsGood m files tmpcfg AnyPointers (AnyPointers-IsStable m) lines b
        ((fits, (refl, refl, refl, refl, refl)), tt) closed)
      λ (success, c, b') h. elim h [ inl fails ↦ inl fails | inr (good, e) ↦ inr good ]
