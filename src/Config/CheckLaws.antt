-- ===== src/Config/CheckLaws.antt =====
-- What cfg_check() accepts, and what it does not look at.
use mathlib.Core.Option
use icmond.Prelude.{
  ℕ, ◌≡◌, refl, ◌∙◌, ap, Bool, true, false, if◌then◌else◌, List, Option, none, some, ℤ, Run, ok,
  exited, fault, out_of_fuel, ◌>>=◌, Bool-cases, Option-cases, inl, inr,
}
use icmond.User.{Credentials, System}
use icmond.EventTypes.{Bytes, Event}
use icmond.Text.{str_eq}
use icmond.Event.Time.{TimeZone}
use icmond.Event.Parse.{ParseError}
use icmond.Config.{Config, default_fileconfig}
use icmond.Config.Blocks.{Buffers}
use icmond.Config.Lines.{Files, rw_ok, x_ok}
use icmond.Config.Check.{
  resolve, executing_username, check_file, check_database, check_scrubber, check_files,
  check_events, Verdict, cfg_check,
}
use icmond.Config.CheckedFiles.{Answers, IsChecked, check_files-some, Resolved-IsChecked}

abbrev pub with_list : Option ℕ → Config → Config
with_list list c = record c { liststring = list }

bind_mapped :
    (o : Option Bytes) (f g : Bytes → Config) (list : Option ℕ)
    → ((path : Bytes) → g path ≡ with_list list (f path))
    → Option.bind o (λ path. some (g path))
      ≡ Option.map (with_list list) (Option.bind o (λ path. some (f path)))
unfolding Option.bind
bind_mapped none f g list same = refl
bind_mapped (some path) f g list same = ap some (same path)

check_file-with_list :
    (files : Files) (username : Bytes) (list : Option ℕ) (c : Config)
    → check_file files username (with_list list c)
      ≡ Option.map (with_list list) (check_file files username c)
unfolding check_file
check_file-with_list files username list c = elim (Bool-cases (files.exists c.filename)) [
  | inl there ↦
      rw (check_file, there)
        (bind_mapped _ (λ path. record c { filename = path })
          (λ path. record c { filename = path; liststring = list }) list (λ path. refl))
  | inr absent ↦ elim (Bool-cases (str_eq c.filename default_fileconfig)) [
    | inl default ↦ rw (check_file, absent, default) refl
    | inr other ↦ rw (check_file, absent, other) refl
  ]
]

map_bind :
    (o o' : Option Config) (f : Config → Option Config) (list : Option ℕ)
    → o' ≡ Option.map (with_list list) o
    → ((c : Config) → f (with_list list c) ≡ Option.map (with_list list) (f c))
    → Option.bind o' f ≡ Option.map (with_list list) (Option.bind o f)
unfolding Option.bind
map_bind none o' f list e same = rw e refl
map_bind (some c) o' f list e same = rw e (same c)

check_files-with_list :
    (files : Files) (username : Bytes) (list : Option ℕ) (c : Config)
    → check_files files username (with_list list c)
      ≡ Option.map (with_list list) (check_files files username c)
unfolding check_files check_database check_scrubber
check_files-with_list files username list c =
    map_bind (check_file files username c) (check_file files username (with_list list c)) _ list
      (check_file-with_list files username list c)
      λ c1.
        map_bind (check_database files username c1)
          (check_database files username (with_list list c1)) (check_scrubber files username) list
          (bind_mapped (resolve files username rw_ok c1.database_filename)
            (λ path. record c1 { database_filename = path })
            (λ path. record c1 { database_filename = path; liststring = list }) list (λ path. refl))
          λ c2.
            bind_mapped (resolve files username x_ok c2.scrubber_filename)
              (λ path. record c2 { scrubber_filename = path })
              (λ path. record c2 { scrubber_filename = path; liststring = list }) list
              (λ path. refl)

-- The verdict on the same configuration with another event list.
abbrev pub relisted : Option ℕ → Verdict → Verdict
relisted list v = record v { config = Option.map (with_list list) v.config }

abbrev Checked : Type 0
Checked = Bool × Option (List Event) × List ParseError

-- The verdict on an accepted or refused event list.
abbrev conclude : Config → Checked → Run Verdict
conclude c (passes, parsed, errors) =
    ok record { config = if passes then some c else none; g_parsed = parsed; g_errors = errors }

conclude-relisted :
    (events : Run Checked) (c : Config) (list : Option ℕ)
    → (events >>= conclude (with_list list c))
      ≡ (events >>= conclude c >>= λ v. ok (relisted list v))
conclude-relisted exited c list = refl
conclude-relisted fault c list = refl
conclude-relisted out_of_fuel c list = refl
conclude-relisted (ok (true, _, _)) c list = refl
conclude-relisted (ok (false, _, _)) c list = refl

returned : {v w : Verdict} → ok v ≡ ok w → v ≡ w
returned e = cc

concluded :
    (events : Run Checked) (c' c : Config) (v : Verdict)
    → (events >>= conclude c') ≡ ok v
    → v.config ≡ some c
    → c' ≡ c
concluded exited c' c v run h = absurd (stops run)
  where
    stops : (exited ≡ ok v) → ⊥
    stops e = cc
concluded fault c' c v run h = absurd (stops run)
  where
    stops : (fault ≡ ok v) → ⊥
    stops e = cc
concluded out_of_fuel c' c v run h = absurd (stops run)
  where
    stops : (out_of_fuel ≡ ok v) → ⊥
    stops e = cc
concluded (ok (true, _, _)) c' c v run h =
    Option.some_inj.0 (ap (λ (w : Verdict). w.config) (returned run) ∙ h)
concluded (ok (false, _, _)) c' c v run h =
    absurd (Option.none-ne-some c (ap (λ (w : Verdict). w.config) (returned run) ∙ h))

module _ (tz : TimeZone) (now : ℤ) (sort : List Event → List Event) where
  -- Where cfg_check() accepts a configuration, and the answers of the files are those of file_useraccess(),
  -- file_useraccess() has returned true for the user that the program will run as, for reading and writing
  -- the database and for executing the scrubber, which under root is what root may do; their names become
  -- their real paths, and of the other members only the name of the configuration file may change.
  pub cfg_check-IsChecked :
      (k : System) (ids : Credentials) (files : Files) (ename : Bytes) (cfg config c : Config)
      (b : Buffers) (g_parsed : Option (List Event)) (g_errors : List ParseError) (v : Verdict)
      → Answers k ids files (executing_username ename config)
      → cfg_check tz now sort files ename cfg config b g_parsed g_errors ≡ ok v
      → v.config ≡ some c
      → IsChecked k ids files ename config c
  unfolding cfg_check
  cfg_check-IsChecked k ids files ename cfg config c b g_parsed g_errors v answers run h =
      elim (Option-cases (check_files files (executing_username ename config) config)) [
        | inl fails ↦ absurd (
            Option.none-ne-some c
              (ap (λ (w : Verdict). w.config) (returned (rw (cfg_check, fails) at run)) ∙ h))
        | inr (c', found) ↦ Resolved-IsChecked k ids files ename config c answers (
            check_files-some files _ config c (
              found
              ∙ ap some (
                  concluded (check_events tz now sort cfg b g_parsed g_errors) c' c v
                    (rw (cfg_check, found) at run) h)))
      ]

  -- cfg_check() parses the event list of `cfg`, not the one of the configuration that it is given: if that
  -- is another configuration, as on SIGHUP, its event list changes neither whether it is accepted nor
  -- the parsed events.
  pub cfg_check-liststring :
      (files : Files) (ename : Bytes) (cfg config : Config) (b : Buffers)
      (g_parsed : Option (List Event)) (g_errors : List ParseError) (list : Option ℕ)
      → cfg_check tz now sort files ename cfg (with_list list config) b g_parsed g_errors ≡ (
          cfg_check tz now sort files ename cfg config b g_parsed g_errors >>= λ v.
          ok (relisted list v))
  unfolding cfg_check
  cfg_check-liststring files ename cfg config b g_parsed g_errors list =
      let user = executing_username ename config in
      let e = check_files-with_list files user list config in
      elim (Option-cases (check_files files user config)) [
        | inl fails ↦ rw (cfg_check, e, fails) refl
        | inr (c, run) ↦
            rw (cfg_check, e, run)
              (conclude-relisted (check_events tz now sort cfg b g_parsed g_errors) c list)
      ]
