-- ===== src/Tests/Users.antt =====
-- Runs of user.c under a small system that behaves as documented.
use icmond.Prelude.{
  ℕ, ◌≡◌, refl, true, false, ◌||◌, ◌==◌, if◌then◌else◌, [], ◌∷◌, Option, none, some, ok, arith,
}
use icmond.EventTypes.{codes}
use icmond.Text.{str_eq}
use icmond.User.{
  Credentials, Passwd, found, no_user, System, user_set_eugid, user_restore_eugid, user_changeto,
  file_useraccess, get_user_pwd, change_ids,
}
use icmond.User.Laws.{
  is_own_uid, is_own_gid, Documented, Identifies, with_identity, seen_by, restored,
  user_changeto_correct, user_restore_eugid-user_set_eugid, file_useraccess_correct,
}

abbrev pub daemon_user : Passwd
daemon_user = record { pw_uid = 1; pw_gid = 7 }

abbrev pub root : Credentials
root = record { ruid = 0; euid = 0; suid = 0; rgid = 0; egid = 0; sgid = 0; groups = 0 ∷ (4 ∷ []) }

abbrev guest : Credentials
guest = record { ruid = 5; euid = 5; suid = 5; rgid = 5; egid = 5; sgid = 5; groups = [] }

abbrev set_euid : Option ℕ → Option ℕ → Credentials → Option Credentials
set_euid none (some id) c =
    if (c.euid == 0) || is_own_uid id c
    then some (record c { euid = id; suid = if id == c.ruid then c.suid else id })
    else none
set_euid _ _ c = none

abbrev set_gids : Option ℕ → Option ℕ → Credentials → Option Credentials
set_gids none (some id) c =
    if (c.euid == 0) || is_own_gid id c
    then some (record c { egid = id; sgid = if id == c.rgid then c.sgid else id })
    else none
set_gids (some real) (some id) c =
    if c.euid == 0 then some (record c { rgid = real; egid = id; sgid = id }) else none
set_gids _ _ c = none

-- A system with the one user "daemon", in which root alone may access a file.
abbrev pub unix : System
unix = record {
  getpwnam = λ name. if str_eq name (codes "daemon") then found daemon_user else no_user;
  setreuid = set_euid;
  setregid = set_gids;
  setuid =
      λ id c. if c.euid == 0 then some (record c { ruid = id; euid = id; suid = id }) else none;
  setgroups = λ ids c. if c.euid == 0 then some (record c { groups = ids }) else none;
  euidaccess = λ filename flags c. c.euid == 0;
  stat = λ filename. true;
}

pub unix-Documented : Documented unix
unix-Documented = record {
  setreuid_effective = λ id c h. rw h refl;
  setregid_effective = λ id c h. rw h refl;
}

pub unix-Identifies : Identifies unix
unix-Identifies = record {
  setgroups_lem = λ ids c c' h. ground arith;
  setregid_both = λ id c c' h. ground arith;
  setuid_root = λ id c c' root h. ground arith;
}

-- The same system, in which root's setuid() and setgroups() fail.
abbrev pub limited : System
limited = record unix { setuid = λ id c. none; setgroups = λ ids c. none }

user_changeto_correct_example :
    user_changeto unix (codes "daemon") root ≡ ok (0, with_identity unix daemon_user root)
unfolding str_eq
user_changeto_correct_example =
    user_changeto_correct unix unix-Identifies (codes "daemon") root refl

uid_kept :
    user_changeto limited (codes "daemon") root
    ≡ ok (1, record root { rgid = 7; egid = 7; sgid = 7 })
unfolding user_changeto get_user_pwd change_ids str_eq
uid_kept = refl

user_restore_eugid-user_set_eugid_example :
    (user_set_eugid unix (codes "daemon") root ≡ ok (0, seen_by daemon_user root))
    × (user_restore_eugid unix (seen_by daemon_user root)
        ≡ (0, restored (seen_by daemon_user root)))
unfolding str_eq
user_restore_eugid-user_set_eugid_example =
    user_restore_eugid-user_set_eugid unix unix-Documented (codes "daemon") daemon_user root refl
      refl

-- Root asks for the user "daemon", who has no access, and hears that there is access.
file_useraccess_correct_example :
    file_useraccess unix (codes "/etc/shadow") (codes "daemon") 4 root ≡ ok (true, restored root)
unfolding str_eq
file_useraccess_correct_example =
    file_useraccess_correct unix unix-Documented (codes "/etc/shadow") (codes "daemon") 4 root refl

denied :
    file_useraccess unix (codes "/etc/shadow") (codes "daemon") 4 (seen_by daemon_user root)
    ≡ ok (false, record (seen_by daemon_user root) { euid = 0; egid = 0 })
unfolding file_useraccess str_eq
denied = refl
