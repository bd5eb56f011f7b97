-- ===== src/User/Laws.antt =====
-- What user.c does to the ids of the process, under the documented behaviour of the system's calls.
use icmond.Prelude.{
  ℕ, ◌≡◌, refl, ◌⊎◌, inl, inr, Bool, true, false, not, ◌&&◌, ◌||◌, ◌==◌, if◌then◌else◌, List, [],
  ◌∷◌, Option, none, some, Option-cases, ap, ◌∙◌, Run, ok, exited, fault, or_fault, ◌>>=◌,
  Bool-cases, arith,
}
use icmond.EventTypes.{Bytes}
use icmond.Daemon.{exit_success, exit_failure}
use icmond.User.{
  Credentials, Passwd, Lookup, found, no_user, lookup_error, System, get_user_pwd, set_eugid,
  user_set_eugid, user_get_uid, user_restore_eugid, change_ids, user_changeto, access_and_restore,
  file_useraccess, or_same, unless_failed,
}

-- An id that a process without privileges may take as its effective one: the real, the effective or the
-- saved one.
abbrev pub is_own_uid : ℕ → Credentials → Bool
is_own_uid id c = (id == c.ruid) || ((id == c.euid) || (id == c.suid))

abbrev pub is_own_gid : ℕ → Credentials → Bool
is_own_gid id c = (id == c.rgid) || ((id == c.egid) || (id == c.sgid))

-- The calls as their manual pages have them, for the arguments that the code passes.
pub record Documented (k : System) : Type 0 where
  pub setreuid_effective :
      (id : ℕ) (c : Credentials)
      → (c.euid == 0) || is_own_uid id c ≡ true
      → k.setreuid none (some id) c
        ≡ some (record c { euid = id; suid = if id == c.ruid then c.suid else id })
  pub setregid_effective :
      (id : ℕ) (c : Credentials)
      → (c.euid == 0) || is_own_gid id c ≡ true
      → k.setregid none (some id) c
        ≡ some (record c { egid = id; sgid = if id == c.rgid then c.sgid else id })

-- What the calls of user_changeto() leave where they succeed, as their manual pages have it.
pub record Identifies (k : System) : Type 0 where
  pub setgroups_lem :
      (ids : List ℕ) (c c' : Credentials)
      → k.setgroups ids c ≡ some c'
      → c' ≡ record c { groups = ids }
  pub setregid_both :
      (id : ℕ) (c c' : Credentials)
      → k.setregid (some id) (some id) c ≡ some c'
      → c' ≡ record c { rgid = id; egid = id; sgid = id }
  pub setuid_root :
      (id : ℕ) (c c' : Credentials)
      → (c.euid == 0) ≡ true
      → k.setuid id c ≡ some c'
      → c' ≡ record c { ruid = id; euid = id; suid = id }

-- The groups behind setgroups(), whose result is not looked at.
abbrev pub groups_after : Option Credentials → ℕ → Credentials → List ℕ
groups_after none gid c = c.groups
groups_after (some c') gid c = gid ∷ []

-- All group ids are a user's.
abbrev pub with_group : System → Passwd → Credentials → Credentials
with_group k pwd c = record c {
  rgid = pwd.pw_gid;
  egid = pwd.pw_gid;
  sgid = pwd.pw_gid;
  groups = groups_after (k.setgroups (pwd.pw_gid ∷ []) c) pwd.pw_gid c;
}

-- All ids are a user's.
abbrev pub with_identity : System → Passwd → Credentials → Credentials
with_identity k pwd c = record (with_group k pwd c) {
  ruid = pwd.pw_uid;
  euid = pwd.pw_uid;
  suid = pwd.pw_uid;
}

-- Whether setregid() and setuid() work for the ids of a user.
abbrev pub is_done : Option Credentials → Bool
is_done none = false
is_done (some c) = true

abbrev pub regid_works : System → Passwd → Credentials → Bool
regid_works k pwd c = is_done (
    k.setregid (some pwd.pw_gid) (some pwd.pw_gid)
      (record c { groups = groups_after (k.setgroups (pwd.pw_gid ∷ []) c) pwd.pw_gid c }))

abbrev pub uid_works : System → Passwd → Credentials → Bool
uid_works k pwd c = is_done (k.setuid pwd.pw_uid (with_group k pwd c))

-- What user_changeto() does for root and a user that exists.
abbrev pub changed_ids : System → Passwd → Credentials → Run (ℕ × Credentials)
changed_ids k pwd c =
    if not (regid_works k pwd c)
    then fault
    else if not (uid_works k pwd c)
    then ok (exit_failure, with_group k pwd c)
    else ok (exit_success, with_identity k pwd c)

-- What user_changeto() does for root.
abbrev pub changed : System → Lookup → Credentials → Run (ℕ × Credentials)
changed k (found pwd) c = changed_ids k pwd c
changed k no_user c = fault
changed k lookup_error c = exited

-- What file_useraccess() gives for a user with the ids `pwd`, who is not the effective one.
abbrev pub seen_by : Passwd → Credentials → Credentials
seen_by pwd c = record c {
  euid = pwd.pw_uid;
  suid = if pwd.pw_uid == c.ruid then c.suid else pwd.pw_uid;
  egid = pwd.pw_gid;
  sgid = if pwd.pw_gid == c.rgid then c.sgid else pwd.pw_gid;
}

-- The real ids as the effective ones.
abbrev pub restored : Credentials → Credentials
restored c = record c { euid = c.ruid; egid = c.rgid }

-- user_set_eugid() returns, or the process exits.
pub user_set_eugid-ends :
    (k : System) (username : Bytes) (c : Credentials)
    → (user_set_eugid k username c ≡ exited)
      ⊎ ((x : ℕ × Credentials) × (user_set_eugid k username c ≡ ok x))
unfolding user_set_eugid get_user_pwd
user_set_eugid-ends k username c = ends (k.getpwnam username)
  where
    ends :
        (l : Lookup)
        → let r : Run (ℕ × Credentials) =
            (elim l [ found pwd ↦ ok (some pwd) | no_user ↦ ok none | lookup_error ↦ exited ])
            >>= λ userpwd.
                ok (elim userpwd [ none ↦ (exit_failure, c) | some pwd ↦ set_eugid k pwd c ]) in
          (r ≡ exited) ⊎ ((x : ℕ × Credentials) × (r ≡ ok x))
    ends (found pwd) = inr (_, refl)
    ends no_user = inr (_, refl)
    ends lookup_error = inl refl

-- Whether file_useraccess() has to take another identity.
abbrev pub is_another : Lookup → Credentials → Bool
is_another (found pwd) c = not (c.euid == 0) && not (c.euid == pwd.pw_uid)
is_another no_user c = false
is_another lookup_error c = false

-- What it gives if not, for the lookup of its user and what the effective user sees.
abbrev pub seen_as : Bool → Lookup → Bool × Credentials → Run (Bool × Credentials)
seen_as true l seen = ok seen
seen_as false (found pwd) seen = ok seen
seen_as false no_user seen = fault
seen_as false lookup_error seen = exited

module _ (k : System) (d : Identifies k) where
  or_same-groups :
      (ids : ℕ) (c : Credentials)
      → or_same (k.setgroups (ids ∷ []) c) c
        ≡ record c { groups = groups_after (k.setgroups (ids ∷ []) c) ids c }
  or_same-groups id c = elim (Option-cases (k.setgroups (id ∷ []) c)) [
    | inl fails ↦ rw fails refl
    | inr (c', works) ↦ rw works (d.setgroups_lem (id ∷ []) c c' works)
  ]

  change_ids-changed_ids :
      (pwd : Passwd) (c : Credentials)
      → (c.euid == 0) ≡ true
      → change_ids k pwd c ≡ changed_ids k pwd c
  unfolding change_ids
  change_ids-changed_ids pwd c root =
      rw (change_ids, or_same-groups pwd.pw_gid c)
        (grouped (record c { groups = groups_after (k.setgroups (pwd.pw_gid ∷ []) c) pwd.pw_gid c })
          root)
    where
      grouped :
          (c1 : Credentials)
          → (c1.euid == 0) ≡ true
          → let c2 = record c1 { rgid = pwd.pw_gid; egid = pwd.pw_gid; sgid = pwd.pw_gid } in
            let c3 = record c2 { ruid = pwd.pw_uid; euid = pwd.pw_uid; suid = pwd.pw_uid } in
            (elim (k.setregid (some pwd.pw_gid) (some pwd.pw_gid) c1) [
              | none ↦ fault
              | some c2 ↦ ok (unless_failed (k.setuid pwd.pw_uid c2) c2 λ c3. (exit_success, c3))
            ])
            ≡ (if not (is_done (k.setregid (some pwd.pw_gid) (some pwd.pw_gid) c1))
                then fault
                else if not (is_done (k.setuid pwd.pw_uid c2))
                then ok (exit_failure, c2)
                else ok (exit_success, c3))
      grouped c1 root =
          let id = pwd.pw_gid in
          elim (Option-cases (k.setregid (some id) (some id) c1)) [
            | inl fails ↦ rw fails refl
            | inr (c', works) ↦
                let same = d.setregid_both id c1 c' works in
                let works' = works ∙ ap some same in
                rw works'
                  (elim (Option-cases
                    (k.setuid pwd.pw_uid (record c1 { rgid = id; egid = id; sgid = id }))) [
                      | inl fails ↦ rw fails refl
                      | inr (c3, works3) ↦
                          rw (works3, d.setuid_root pwd.pw_uid _ c3 root works3) refl
                    ])
          ]

  changeto-lookup :
      (username : Bytes) (c : Credentials)
      → (c.euid == 0) ≡ true
      → user_changeto k username c ≡ changed k (k.getpwnam username) c
  unfolding user_changeto get_user_pwd
  changeto-lookup username c root =
      let either : (c.ruid == 0) || (c.euid == 0) ≡ true = rw root (ground arith) in
      rw either (looked (k.getpwnam username))
    where
      looked :
          (l : Lookup)
          → ((elim l [ found pwd ↦ ok (some pwd) | no_user ↦ ok none | lookup_error ↦ exited ])
              >>= λ userpwd. elim userpwd [ none ↦ fault | some pwd ↦ change_ids k pwd c ])
            ≡ changed k l c
      looked (found pwd) = change_ids-changed_ids pwd c root
      looked no_user = refl
      looked lookup_error = refl

  -- user_changeto(), where each system call that succeeds does what is documented, of a process that is not
  -- root in the real id alone. For the effective user root and a user that exists, all real, effective and
  -- saved ids become those of the user; the user's group is the only one left if setgroups() works, and if
  -- it fails, which is not looked at, all groups stay. If setuid() fails, it returns a failure with the
  -- group ids changed; if setregid() fails, or there is no such user, it faults in its message, which has no
  -- string to format; and the process exits on an error of the lookup. For any other user it succeeds and changes nothing.
  pub user_changeto_correct :
      (username : Bytes) (c : Credentials)
      → (c.ruid == 0) && not (c.euid == 0) ≡ false
      → user_changeto k username c
        ≡ (if c.euid == 0 then changed k (k.getpwnam username) c else ok (exit_success, c))
  user_changeto_correct username c same = elim (Bool-cases (c.euid == 0)) [
    | inl root ↦ rw root (changeto-lookup username c root)
    | inr other ↦
        let real : (c.ruid == 0) ≡ false = ground (arith, same) in
        unfold user_changeto in rw (other, real) refl
  ]

module _ (k : System) (d : Documented k) where
  user_restore_eugid-restored :
      (c : Credentials) → user_restore_eugid k c ≡ (exit_success, restored c)
  unfolding user_restore_eugid
  user_restore_eugid-restored c =
      let c1 = record c { euid = c.ruid } in
      let own : (c.euid == 0) || is_own_uid c.ruid c ≡ true = ground arith in
      let own_group : (c1.euid == 0) || is_own_gid c1.rgid c1 ≡ true = ground arith in
      let real : (c.ruid == c.ruid) ≡ true = ground arith in
      let real_group : (c.rgid == c.rgid) ≡ true = ground arith in
      rw
        (
          d.setreuid_effective c.ruid c own,
          real,
          d.setregid_effective c.rgid c1 own_group,
          real_group,
        )
        refl

  set_eugid-seen_by :
      (pwd : Passwd) (c : Credentials)
      → (c.euid == 0) ≡ true
      → set_eugid k pwd c ≡ (exit_success, seen_by pwd c)
  unfolding set_eugid
  set_eugid-seen_by pwd c root =
      let c1 = record c {
        egid = pwd.pw_gid;
        sgid = if pwd.pw_gid == c.rgid then c.sgid else pwd.pw_gid;
      } in
      rw
        (
          d.setregid_effective pwd.pw_gid c (rw root refl),
          d.setreuid_effective pwd.pw_uid c1 (rw root refl),
        )
        refl

  -- user_set_eugid() and then user_restore_eugid(), where the system's calls behave as documented: for the
  -- effective user root and a user that exists, the first succeeds and makes the user's ids the effective
  -- ones, and the second succeeds, makes the real ids the effective ones, and leaves the saved ids as the
  -- first made them.
  pub user_restore_eugid-user_set_eugid :
      (username : Bytes) (pwd : Passwd) (c : Credentials)
      → (c.euid == 0) ≡ true
      → k.getpwnam username ≡ found pwd
      → (user_set_eugid k username c ≡ ok (exit_success, seen_by pwd c))
        × (user_restore_eugid k (seen_by pwd c) ≡ (exit_success, restored (seen_by pwd c)))
  unfolding user_set_eugid get_user_pwd
  user_restore_eugid-user_set_eugid username pwd c root user = (
    rw (user_set_eugid, get_user_pwd, user, set_eugid-seen_by pwd c root) refl,
    user_restore_eugid-restored (seen_by pwd c),
  )

  -- file_useraccess(), where the system's calls behave as documented, of a process whose effective user is
  -- root or the user in question, or for a user that does not exist: under root it tests the access of root,
  -- whichever user is asked about; under the user itself it tests that user's access; both make the real ids
  -- the effective ones. Without root it reads through a NULL pointer if there is no such user, and the
  -- process exits on an error of the lookup.
  pub file_useraccess_correct :
      (filename username : Bytes) (accessflags : ℕ) (c : Credentials)
      → is_another (k.getpwnam username) c ≡ false
      → file_useraccess k filename username accessflags c
        ≡ seen_as
            (c.euid == 0)
            (k.getpwnam username)
            (k.euidaccess filename accessflags c, restored c)
  unfolding file_useraccess user_get_uid get_user_pwd access_and_restore
  file_useraccess_correct filename username accessflags c same =
      let back = user_restore_eugid-restored c in
      elim (Bool-cases (c.euid == 0)) [
        | inl root ↦ rw (root, back) refl
        | inr other ↦ rw (other, back) (looked other _ _ (k.getpwnam username) same)
      ]
    where
      looked :
          (c.euid == 0) ≡ false
          → (seen : Bool × Credentials) (as_user : Run (Bool × Credentials)) (l : Lookup)
          → is_another l c ≡ false
          → ((elim l [ found pwd ↦ ok (some pwd) | no_user ↦ ok none | lookup_error ↦ exited ])
              >>= (λ usr. or_fault usr >>= λ pwd. ok pwd.pw_uid)
              >>= λ uid. if c.euid == uid then ok seen else as_user)
            ≡ seen_as false l seen
      looked other seen as_user (found pwd) same =
          let effective : (c.euid == pwd.pw_uid) ≡ true = ground (arith, other, same) in
          rw effective refl
      looked other seen as_user no_user same = refl
      looked other seen as_user lookup_error same = refl
