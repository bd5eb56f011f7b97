-- ===== src/Main/Laws.antt =====
-- The configuration that main() starts with.
use icmond.Prelude.{
  ℕ, ◌≡◌, refl, sym, Bool, false, not, ◌==◌, if◌then◌else◌, List, Option, none, some, ok, ◌>>=◌,
  arith, Returns, returns, Returns-bind, Returns-map, Returns-if, Bool-cases, inl, inr, ◌⊎◌, All,
}
use mathlib.Core.Path.{subst}
use icmond.EventTypes.{Bytes}
use icmond.Config.{
  Config, cfg_init, cfg_dup, cfg_commit, cfg_free, with_defaults, default_pinghosts,
}
use icmond.Config.Blocks.{Buffers, Malloc, put, free, IsLive}
use icmond.Config.Lines.{Files}
use icmond.Config.Range.{InRange}
use icmond.Config.File.{cfg_read_file}
use icmond.Config.Reads.{AreReadable, cfg_read_file-IsGood}
use icmond.Config.Argv.{cfg_preread_commandline}
use icmond.Config.Readable.{IsReadable}
use icmond.Config.ArgvLaws.{cfg_read_argv-IsSound}
use icmond.Config.Owned.{Owned, Apart, points, cfg_commit_correct}
use icmond.Main.{arguments_of, configure_argv, configure_file, configure}
use icmond.Main.Pointers.{
  Separate, new-IsLive, Separate-IsStable, IsStarted, preread_commandline-IsStarted,
}

-- What main() goes on with: no configuration, or one within the bounds whose pointers are NULL or live.
abbrev pub IsConfigured : Option (Config × Buffers) → Type 0
IsConfigured none = Unit
IsConfigured (some (c, b)) = InRange c × Owned c b

-- The pointers of a reading and of the default configuration.
started-Owned : (a : ℕ) (c : Config) (b : Buffers) → IsStarted a c b → Owned c b
started-Owned a c b (fits, e) = record {
  hosts_live = e.hosts_live;
  list_live = e.list_live;
  tmpfs_live = subst (λ p. IsLive p b) (sym e.no_tmpfs) tt;
}

started-Apart :
    (a : ℕ) (start c : Config) (b : Buffers) → IsStarted a c b → Apart (with_defaults a start) c
started-Apart a start c b (fits, e) = record {
  hosts_list = λ i. elim (Bool-cases (a == i)) [
    | inl same ↦
        let here : a ≡ i = ground arith in
        rw same (subst (λ k. points c.liststring k ≡ false) here e.list_other)
    | inr other ↦ rw other refl
  ];
  hosts_tmpfs = λ i. rw e.no_tmpfs (ground arith);
  list_hosts = λ i. refl;
  list_tmpfs = λ i. refl;
  tmpfs_hosts = λ i. refl;
  tmpfs_list = λ i. refl;
}

default-IsStarted :
    (a : ℕ) (start : Config) (b : Buffers)
    → IsLive (some a) b
    → IsStarted a (with_defaults a start) b
default-IsStarted a start b live = (
  ground arith,
  record { first = live; hosts_live = live; list_live = tt; list_other = refl; no_tmpfs = refl },
)

module _ (m : Malloc) (files : Files) (open_file : Bytes → Option (List Bytes)) (argv : List Bytes)
    (closed : (name : Bytes) (lines : List Bytes)
      → open_file name ≡ some lines
      → AreReadable files lines)
    (readable : All IsReadable (arguments_of argv)) where
  module _ (a : ℕ) (start : Config) where
    abbrev cfg : Config
    cfg = with_defaults a start

    committed-IsConfigured :
        (new : Config) (b : Buffers)
        → IsStarted a new b
        → Returns IsConfigured (
            cfg_commit cfg new b >>= λ (cfg', b2).
            cfg_free cfg' new b2 >>= λ b3. ok (some (cfg', b3)))
    committed-IsConfigured new b h =
        let default = default-IsStarted a start b h.1.first in
        Returns-bind
          (cfg_commit_correct cfg new b (started-Owned a cfg b default) (started-Owned a new b h)
            (started-Apart a start cfg b default) (started-Apart a start new b h))
          λ (cfg', b2) (same, owned, freed).
            rw freed (returns (some (cfg', b2)) (subst InRange (sym same) h.0, owned))

    argv-IsConfigured :
        (new : Config) (b : Buffers)
        → IsStarted a new b
        → Returns IsConfigured (configure_argv m files open_file argv cfg new b)
    unfolding configure_argv
    argv-IsConfigured new b h =
        Returns-bind
          (cfg_read_argv-IsSound m (Separate a) (Separate-IsStable m a) (arguments_of argv) 0 new b
            h readable)
          λ (success, c, b1) r. elim r [
            | inl fails ↦ rw fails (returns none tt)
            | inr good ↦
                Returns-if (not success) (λ no_. returns none tt)
                  (λ yes_. committed-IsConfigured c b1 good)
          ]

    read-IsConfigured :
        (success : Bool) (c : Config) (b : Buffers)
        → (success ≡ false) ⊎ IsStarted a c b
        → Returns IsConfigured
            (if not success then ok none else configure_argv m files open_file argv cfg c b)
    read-IsConfigured success c b (inl fails) = rw fails (returns none tt)
    read-IsConfigured success c b (inr good) =
        Returns-if (not success) (λ no_. returns none tt) (λ yes_. argv-IsConfigured c b good)

    -- A file that cannot be opened fails, and a default one that is missing is skipped.
    unopened :
        (new : Config) (b : Buffers)
        → IsStarted a new b
        → Returns
            (λ (success, c, b'). (success ≡ false) ⊎ IsStarted a c b')
            (cfg_read_file m files none new b)
    unfolding cfg_read_file
    unopened new b h =
        Returns-if (not (files.exists new.filename)) (λ absent. returns _ (inr h))
          (λ there. returns _ (inl refl))

    file-IsConfigured :
        (new : Config) (b : Buffers)
        → IsStarted a new b
        → Returns IsConfigured (configure_file m files open_file argv cfg new b)
    unfolding configure_file
    file-IsConfigured new b h =
        Returns-bind (opened (open_file new.filename) (closed new.filename))
          λ (success, c, b1) r. read-IsConfigured success c b1 r
      where
        opened :
            (content : Option (List Bytes))
            → ((lines : List Bytes) → content ≡ some lines → AreReadable files lines)
            → Returns
                (λ (success, c, b'). (success ≡ false) ⊎ IsStarted a c b')
                (cfg_read_file m files content new b)
        opened none ends = unopened new b h
        opened (some lines) ends =
            Returns-map
              (cfg_read_file-IsGood m files new (Separate a) (Separate-IsStable m a) lines b
                ((h.0, (refl, refl, refl, refl, refl)), h.1) (ends lines refl))
              λ (success, c, b') r. elim r [
                | inl fails ↦ inl fails
                | inr ((fits, same), e) ↦ inr (fits, e)
              ]

  -- main() from its start, where `cfg` has no strings, up to the end of the configuration, with a file of
  -- lines in which no escape is pending at the end and every database that is named exists, unless its name
  -- is too long, and readable arguments, always returns: it ends the program with a failure, or gives a configuration with every number within its bounds, whose pointers
  -- are NULL or point to live strings.
  pub configure_correct :
      (is_root : Bool) (start : Config) (b : Buffers)
      → start.pinghosts ≡ none
      → start.liststring ≡ none
      → Returns IsConfigured (configure m files open_file argv is_root start b)
  unfolding configure cfg_init cfg_dup free
  configure_correct is_root start b hosts list =
      let a = m.choose b in
      let b1 = put b a (some default_pinghosts) in
      let first = default-IsStarted a start b1 (new-IsLive m b default_pinghosts) in
      rw (hosts, list)
        (Returns-if (not is_root) (λ no_. returns none tt) (λ yes_. preread a b1 first _ refl))
    where
      preread :
          (a : ℕ) (b1 : Buffers)
          → IsStarted a (with_defaults a start) b1
          → (newcfg : Option Config)
          → cfg_preread_commandline files argv (with_defaults a start) ≡ newcfg
          → Returns IsConfigured (elim newcfg [
            | none ↦ ok none
            | some c ↦ configure_file m files open_file argv (with_defaults a start) c b1
          ])
      preread a b1 first none run = returns none tt
      preread a b1 first (some c) run =
          file-IsConfigured a start c b1
            (preread_commandline-IsStarted files a argv (with_defaults a start) c b1 run first)
