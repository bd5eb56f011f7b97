-- ===== src/User.antt =====
-- user.c: the calls that change the effective or the whole identity of the process, and the test of a
-- user's access of util.c. The system's calls are a parameter; the buffer of __get_user_pwd() is left out.
pub mod Laws
use icmond.Prelude.{
  ℕ, Bool, true, false, not, ◌&&◌, ◌||◌, ◌==◌, if◌then◌else◌, List, [], ◌∷◌, Option, none, some,
  Run, ok, exited, fault, ◌>>=◌, or_fault,
}
use icmond.EventTypes.{Bytes}
use icmond.Daemon.{exit_success, exit_failure}

-- The ids of a process.
pub record Credentials : Type 0 where
  pub ruid : ℕ
  pub euid : ℕ
  pub suid : ℕ
  pub rgid : ℕ
  pub egid : ℕ
  pub sgid : ℕ
  pub groups : List ℕ

-- pw_uid and pw_gid of struct passwd
pub record Passwd : Type 0 where
  pub pw_uid : ℕ
  pub pw_gid : ℕ

-- What getpwnam_r() gives: a record, no such user, or an error.
pub data Lookup : Type 0 where
  found : Passwd → Lookup
  no_user lookup_error : Lookup

-- The calls of the system: each gives the new ids, or none where it fails; `none` stands for an id -1.
pub record System : Type 0 where
  pub getpwnam : Bytes → Lookup
  pub setreuid : Option ℕ → Option ℕ → Credentials → Option Credentials
  pub setregid : Option ℕ → Option ℕ → Credentials → Option Credentials
  pub setuid : ℕ → Credentials → Option Credentials
  pub setgroups : List ℕ → Credentials → Option Credentials
  pub euidaccess : Bytes → ℕ → Credentials → Bool
  pub stat : Bytes → Bool

-- What a call that may fail leaves.
abbrev pub or_same : Option Credentials → Credentials → Credentials
or_same none c = c
or_same (some c') c = c'

-- The rest of a function behind a call, which ends with EXIT_FAILURE where the call fails.
abbrev pub unless_failed :
    Option Credentials → Credentials → (Credentials → ℕ × Credentials) → ℕ × Credentials
unless_failed none failed next = (exit_failure, failed)
unless_failed (some c) failed next = next c

module _ (k : System) where
  -- __get_user_pwd()
  unfoldable pub get_user_pwd : Bytes → Run (Option Passwd)
  get_user_pwd uname = elim (k.getpwnam uname) [
    | found pwd ↦ ok (some pwd)
    | no_user ↦ ok none
    | lookup_error ↦ exited
  ]

  -- The calls of user_set_eugid() for a user that exists.
  unfoldable pub set_eugid : Passwd → Credentials → ℕ × Credentials
  set_eugid pwd c = unless_failed (k.setregid none (some pwd.pw_gid) c) c λ c1.
      unless_failed (k.setreuid none (some pwd.pw_uid) c1)
        (or_same (k.setregid none (some c1.rgid) c1) c1) λ c2. (exit_success, c2)

  -- user_set_eugid(). The log is left out: for a user that does not exist the source formats a message
  -- whose `%s` has no argument, which is undefined, and the model goes on as if this call returned.
  unfoldable pub user_set_eugid : Bytes → Credentials → Run (ℕ × Credentials)
  unfolding get_user_pwd set_eugid
  user_set_eugid username c = do
    userpwd ← get_user_pwd username
    ok (elim userpwd [ none ↦ (exit_failure, c) | some pwd ↦ set_eugid pwd c ])

  -- user_get_uid(): it reads through the pointer whether or not the user exists
  unfoldable pub user_get_uid : Bytes → Run ℕ
  unfolding get_user_pwd
  user_get_uid uname = do usr ← get_user_pwd uname; pwd ← or_fault usr; ok pwd.pw_uid

  -- user_get_gid()
  unfoldable pub user_get_gid : Bytes → Run ℕ
  unfolding get_user_pwd
  user_get_gid uname = do usr ← get_user_pwd uname; pwd ← or_fault usr; ok pwd.pw_gid

  -- user_restore_eugid()
  unfoldable pub user_restore_eugid : Credentials → ℕ × Credentials
  user_restore_eugid c =
      unless_failed (k.setreuid none (some c.ruid) c) c
        λ c1. unless_failed (k.setregid none (some c1.rgid) c1) c1 λ c2. (exit_success, c2)

  -- The calls of user_changeto() for a user that exists.
  -- Where setregid() fails, logerr() gets a number for its `%s`.
  unfoldable pub change_ids : Passwd → Credentials → Run (ℕ × Credentials)
  change_ids pwd c =
      let c1 = or_same (k.setgroups (pwd.pw_gid ∷ []) c) c in
      elim (k.setregid (some pwd.pw_gid) (some pwd.pw_gid) c1) [
        | none ↦ fault
        | some c2 ↦ ok (unless_failed (k.setuid pwd.pw_uid c2) c2 λ c3. (exit_success, c3))
      ]

  -- user_changeto(): where there is no user, logerr() gets no argument for its `%s`
  unfoldable pub user_changeto : Bytes → Credentials → Run (ℕ × Credentials)
  unfolding get_user_pwd change_ids
  user_changeto username c =
      let as_root : Run (ℕ × Credentials) = do
        userpwd ← get_user_pwd username
        elim userpwd [ none ↦ fault | some pwd ↦ change_ids pwd c ]
      in if (c.ruid == 0) || (c.euid == 0) then as_root else ok (exit_success, c)

  -- file_exist()
  unfoldable pub file_exist : Bytes → Bool
  file_exist filename = k.stat filename

  -- The end of file_useraccess(): the test, and back to the real user.
  unfoldable pub access_and_restore : Bytes → ℕ → Credentials → Bool × Credentials
  unfolding user_restore_eugid
  access_and_restore filename accessflags c =
      let acc = k.euidaccess filename accessflags c in (acc, (user_restore_eugid c).1)

  -- file_useraccess()
  unfoldable pub file_useraccess : Bytes → Bytes → ℕ → Credentials → Run (Bool × Credentials)
  unfolding user_get_uid user_set_eugid access_and_restore
  file_useraccess filename username accessflags c =
      let as_user : Run (Bool × Credentials) = do
        (rc, c1) ← user_set_eugid username c
        ok (if rc == 0 then access_and_restore filename accessflags c1 else (false, c1))
      in let not_root : Run (Bool × Credentials) = do
        uid ← user_get_uid username
        (if c.euid == uid then ok (access_and_restore filename accessflags c) else as_user)
        in if c.euid == 0 then ok (access_and_restore filename accessflags c) else not_root
