-- ===== src/Main/Pointers.antt =====
-- The numbers and pointers of the configuration while main() reads it.
use mathlib.Core.Option
use icmond.Prelude.{
  ℕ, ◌≡◌, refl, ◌∙◌, Bool, true, false, ltb, ◌==◌, if◌then◌else◌, List, [], ◌∷◌, Option, none, some,
  length, arith, Bool-cases, Option-cases, inl, inr,
}
use mathlib.Core.Path.{subst}
use icmond.EventTypes.{Bytes, codes}
use icmond.KeyVal.{drop}
use icmond.Config.{Config}
use icmond.Config.Blocks.{Buffers, Malloc, put, block-put, IsLive}
use icmond.Config.Lines.{Files, max_filename_len}
use icmond.Config.Range.{InRange, IsStable}
use icmond.Config.Argv.{preread_options, is_option, cfg_preread_commandline}
use icmond.Config.Owned.{points, not_fresh}

-- The pointers of a reading beside the default configuration, whose hosts are block `a`: they are NULL or
-- live, and the event list is another block.
pub record Separate (a : ℕ) (hosts list tmpfs : Option ℕ) (b : Buffers) : Type 0 where
  pub first : IsLive (some a) b
  pub hosts_live : IsLive hosts b
  pub list_live : IsLive list b
  pub list_other : points list a ≡ false
  pub no_tmpfs : tmpfs ≡ none

-- A live block stays as it is where a new one is made.
put-IsLive :
    (m : Malloc) (b : Buffers) (s : Bytes) (p : Option ℕ)
    → IsLive p b
    → IsLive p (put b (m.choose b) (some s))
put-IsLive m b s none l = tt
put-IsLive m b s (some p) (t, live) = (
  t,
  block-put b (m.choose b) (some s) p ∙ rw (not_fresh b (m.choose b) p t (m.fresh b) live) live,
)

pub new-IsLive :
    (m : Malloc) (b : Buffers) (s : Bytes)
    → IsLive (some (m.choose b)) (put b (m.choose b) (some s))
new-IsLive m b s =
    let self : (m.choose b == m.choose b) ≡ true = ground arith in
    (s, block-put b (m.choose b) (some s) (m.choose b) ∙ rw self refl)

pub Separate-IsStable : (m : Malloc) (a : ℕ) → IsStable m (Separate a)
Separate-IsStable m a = record {
  no_hosts = λ hosts list tmpfs b e. record {
    first = e.first;
    hosts_live = tt;
    list_live = e.list_live;
    list_other = e.list_other;
    no_tmpfs = e.no_tmpfs;
  };
  new_hosts = λ hosts list tmpfs b s e. record {
    first = put-IsLive m b s (some a) e.first;
    hosts_live = new-IsLive m b s;
    list_live = put-IsLive m b s list e.list_live;
    list_other = e.list_other;
    no_tmpfs = e.no_tmpfs;
  };
  no_list = λ hosts list tmpfs b e. record {
    first = e.first;
    hosts_live = e.hosts_live;
    list_live = tt;
    list_other = refl;
    no_tmpfs = e.no_tmpfs;
  };
  new_list = λ hosts list tmpfs b s e. record {
    first = put-IsLive m b s (some a) e.first;
    hosts_live = put-IsLive m b s hosts e.hosts_live;
    list_live = new-IsLive m b s;
    list_other = not_fresh b (m.choose b) a e.first.0 (m.fresh b) e.first.1;
    no_tmpfs = e.no_tmpfs;
  };
}

-- The bounds and the pointers of `c`.
abbrev pub IsStarted : ℕ → Config → Buffers → Type 0
IsStarted a c b = InRange c × Separate a c.pinghosts c.liststring c.tmpfsfilename b

preread-IsStarted :
    (a : ℕ) (argv : List Bytes) (c c' : Config) (b : Buffers)
    → preread_options argv c ≡ some c'
    → IsStarted a c b
    → IsStarted a c' b
unfolding preread_options
preread-IsStarted a [] c c' b run h = subst (λ x. IsStarted a x b) (Option.some_inj.0 run) h
preread-IsStarted a (arg ∷ argv) c c' b run h =
    elim (Bool-cases (is_option (codes "-config=") arg)) [
      | inl config ↦ elim (Bool-cases (ltb max_filename_len (length (drop 8 arg)))) [
        | inl long ↦ absurd (Option.none-ne-some c' (rw (preread_options, config, long) at run))
        | inr short ↦
            preread-IsStarted a argv (record c { filename = drop 8 arg }) c' b
              (rw (preread_options, config, short) at run) h
      ]
      | inr other ↦ elim (Bool-cases (is_option (codes "-createdb") arg)) [
        | inl create ↦
            preread-IsStarted a argv (record c { createdatabase = true }) c' b
              (rw (preread_options, other, create) at run) h
        | inr other' ↦ elim (Bool-cases (is_option (codes "-writeconfig") arg)) [
          | inl write ↦
              preread-IsStarted a argv (record c { createconfigfile = true }) c' b
                (rw (preread_options, other, other', write) at run) h
          | inr ignored ↦
              preread-IsStarted a argv c c' b (rw (preread_options, other, other', ignored) at run)
                h
        ]
      ]
    ]

kept_file :
    (named missing unreadable : Bool) (found c' : Config)
    → (if named
        then (if missing then none else if unreadable then none else some found)
        else some found)
      ≡ some c'
    → found ≡ c'
kept_file true true unreadable found c' h = absurd (Option.none-ne-some c' h)
kept_file true false true found c' h = absurd (Option.none-ne-some c' h)
kept_file true false false found c' h = Option.some_inj.0 h
kept_file false missing unreadable found c' h = Option.some_inj.0 h

pub preread_commandline-IsStarted :
    (files : Files) (a : ℕ) (argv : List Bytes) (c c' : Config) (b : Buffers)
    → cfg_preread_commandline files argv c ≡ some c'
    → IsStarted a c b
    → IsStarted a c' b
unfolding cfg_preread_commandline
preread_commandline-IsStarted files a argv c c' b run h =
    elim (Option-cases (preread_options argv c)) [
      | inl fails ↦ absurd (Option.none-ne-some c' (rw (cfg_preread_commandline, fails) at run))
      | inr (found, options) ↦
          subst (λ x. IsStarted a x b)
            (kept_file _ _ _ found c' (rw (cfg_preread_commandline, options) at run))
            (preread-IsStarted a argv c found b options h)
    ]
