-- ===== src/Config/CheckedFiles.antt =====
-- What the checks of the files by cfg_check() establish.
use mathlib.Core.Option
use mathlib.Core.Path.{subst}
use icmond.Prelude.{
  ℕ, ◌≡◌, refl, sym, ◌∙◌, ap, true, false, ◌==◌, ok, Option, some, arith, Bool-cases, inl, inr,
}
use icmond.EventTypes.{Bytes}
use icmond.User.{Credentials, System, Lookup, found, no_user, lookup_error, file_useraccess}
use icmond.User.Laws.{Documented, restored, is_another, file_useraccess_correct}
use icmond.Text.{str_eq}
use icmond.Config.{Config, default_fileconfig}
use icmond.Config.Lines.{Files, rw_ok, x_ok}
use icmond.Config.Check.{
  resolve, executing_username, check_file, check_database, check_scrubber, check_files,
}

-- What the files answer for a user is what file_useraccess() of util.c returns, which leaves the ids.
abbrev pub Answers : System → Credentials → Files → Bytes → Type 0
Answers k ids files user =
    (filename : Bytes) (mode : ℕ)
    → file_useraccess k filename user mode ids ≡ ok (files.useraccess filename user mode, ids)

-- The files of a system under root: the access is the one of root, whichever user is asked about.
abbrev pub root_files : System → (Bytes → Option Bytes) → Credentials → Files
root_files k realpath ids = record {
  exists = λ filename. k.stat filename;
  useraccess = λ filename user mode. k.euidaccess filename mode ids;
  realpath = realpath;
}

pub root_files-Answers :
    (k : System) (realpath : Bytes → Option Bytes) (ids : Credentials) (user : Bytes)
    → Documented k
    → (ids.euid == 0) ≡ true
    → restored ids ≡ ids
    → Answers k ids (root_files k realpath ids) user
root_files-Answers k realpath ids user d root same filename mode =
    file_useraccess_correct k d filename user mode ids (not_another (k.getpwnam user))
    ∙ rw (root, same) refl
  where
    not_another : (l : Lookup) → is_another l ids ≡ false
    not_another (found pwd) = rw root refl
    not_another no_user = refl
    not_another lookup_error = refl

-- file_useraccess() returned true for reading and writing the database and for executing the scrubber, of the
-- user that the program will run as, and their names are replaced by their real paths; the rest but the
-- name of the configuration file is as it was.
pub record IsChecked (k : System) (ids : Credentials) (files : Files) (ename : Bytes)
    (config c : Config) : Type 0 where
  pub database : files.realpath config.database_filename ≡ some c.database_filename
  pub database_access :
      file_useraccess k config.database_filename (executing_username ename config) rw_ok ids
      ≡ ok (true, ids)
  pub scrubber : files.realpath config.scrubber_filename ≡ some c.scrubber_filename
  pub scrubber_access :
      file_useraccess k config.scrubber_filename (executing_username ename config) x_ok ids
      ≡ ok (true, ids)
  pub rest : c ≡ record config {
    filename = c.filename;
    database_filename = c.database_filename;
    scrubber_filename = c.scrubber_filename;
  }

resolve-some :
    (files : Files) (username : Bytes) (mode : ℕ) (filename path : Bytes)
    → resolve files username mode filename ≡ some path
    → (files.useraccess filename username mode ≡ true) × (files.realpath filename ≡ some path)
unfolding resolve
resolve-some files username mode filename path h = ground arith

-- A member that a check replaces by a path.
replaced :
    (o : Option Bytes) (f : Bytes → Config) (c : Config)
    → Option.bind o (λ path. some (f path)) ≡ some c
    → (path : Bytes) × (o ≡ some path) × (f path ≡ c)
replaced o f c h =
    let (path, e, d) = (Option.bind-eq-some_iff o (λ path. some (f path))).0 h in
    (path, e, Option.some_inj.0 d)

check_file-some :
    (files : Files) (username : Bytes) (config c : Config)
    → check_file files username config ≡ some c
    → (path : Bytes) × (c ≡ record config { filename = path })
unfolding check_file
check_file-some files username config c h = elim (Bool-cases (files.exists config.filename)) [
  | inl there ↦
      let (path, _, e) =
        replaced _ (λ path. record config { filename = path }) c (rw (check_file, there) at h) in
      (path, sym e)
  | inr absent ↦ elim (Bool-cases (str_eq config.filename default_fileconfig)) [
    | inl default ↦
        (config.filename, sym (Option.some_inj.0 (rw (check_file, absent, default) at h)))
    | inr other ↦ absurd (Option.none-ne-some c (rw (check_file, absent, other) at h))
  ]
]

-- The three checks, one behind the other.
abbrev pub Resolved : Files → Bytes → Config → Config → Type 0
Resolved files username config c =
    (name database scrubber : Bytes) × (resolve files username rw_ok config.database_filename
      ≡ some database)
    × (resolve files username x_ok config.scrubber_filename ≡ some scrubber)
    × (record config { filename = name; database_filename = database; scrubber_filename = scrubber }
        ≡ c)

chained :
    (files : Files) (username : Bytes) (config c1 c2 c : Config) (name database scrubber : Bytes)
    → c1 ≡ record config { filename = name }
    → resolve files username rw_ok c1.database_filename ≡ some database
    → record c1 { database_filename = database } ≡ c2
    → resolve files username x_ok c2.scrubber_filename ≡ some scrubber
    → record c2 { scrubber_filename = scrubber } ≡ c
    → Resolved files username config c
chained files username config c1 c2 c name database scrubber e1 d e2 s e3 =
    let f2 : c2 ≡ record config { filename = name; database_filename = database } =
      sym e2 ∙ ap (λ (x : Config). record x { database_filename = database }) e1 in
    (
      name,
      database,
      scrubber,
      ap (λ (x : Config). resolve files username rw_ok x.database_filename) (sym e1) ∙ d,
      ap (λ (x : Config). resolve files username x_ok x.scrubber_filename) (sym f2) ∙ s,
      ap (λ (x : Config). record x { scrubber_filename = scrubber }) (sym f2) ∙ e3,
    )

pub check_files-some :
    (files : Files) (username : Bytes) (config c : Config)
    → check_files files username config ≡ some c
    → Resolved files username config c
unfolding check_files check_database check_scrubber
check_files-some files username config c h =
    let (c1, first, h1) = (Option.bind-eq-some_iff (check_file files username config) _).0 h in
    let (c2, second, third) = (Option.bind-eq-some_iff (check_database files username c1) _).0 h1 in
    let (name, e1) = check_file-some files username config c1 first in
    let (database, d, e2) = replaced _ (λ path. record c1 { database_filename = path }) c2 second in
    let (scrubber, s, e3) = replaced _ (λ path. record c2 { scrubber_filename = path }) c third in
    chained files username config c1 c2 c name database scrubber e1 d e2 s e3

pub Resolved-IsChecked :
    (k : System) (ids : Credentials) (files : Files) (ename : Bytes) (config c : Config)
    → Answers k ids files (executing_username ename config)
    → Resolved files (executing_username ename config) config c
    → IsChecked k ids files ename config c
Resolved-IsChecked k ids files ename config c answers (name, database, scrubber, d, s, e) =
    let user = executing_username ename config in
    let (access_d, path_d) = resolve-some files user rw_ok config.database_filename database d in
    let (access_s, path_s) = resolve-some files user x_ok config.scrubber_filename scrubber s in
    subst (IsChecked k ids files ename config) e record {
      database = path_d;
      database_access = answers config.database_filename rw_ok ∙ ap (λ a. ok (a, ids)) access_d;
      scrubber = path_s;
      scrubber_access = answers config.scrubber_filename x_ok ∙ ap (λ a. ok (a, ids)) access_s;
      rest = refl;
    }
