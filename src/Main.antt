-- ===== src/Main.antt =====
-- main.c: how main() makes the configuration of its defaults, the configuration file and the command line.
pub mod Pointers
pub mod Laws
pub mod Predaemon
pub mod PredaemonLaws
pub mod Commands
pub mod CommandsLaws
pub mod SpecialLaws
pub mod Daemonize
pub mod DaemonizeLaws
use icmond.Prelude.{ℕ, Bool, not, if◌then◌else◌, List, [], ◌∷◌, Option, none, some, Run, ok, ◌>>=◌}
use icmond.EventTypes.{Bytes}
use icmond.Config.{Config, cfg_init, cfg_dup, cfg_commit, cfg_free}
use icmond.Config.Blocks.{Buffers, Malloc}
use icmond.Config.Lines.{Files}
use icmond.Config.File.{cfg_read_file}
use icmond.Config.Argv.{cfg_preread_commandline, cfg_read_argv}

-- The arguments behind the name of the program.
abbrev pub arguments_of : List Bytes → List Bytes
arguments_of [] = []
arguments_of (name ∷ arguments) = arguments

module _ (m : Malloc) (files : Files) (open_file : Bytes → Option (List Bytes))
    (argv : List Bytes) where
  -- "STEP 2", behind a file that has been read: the command line, and the commit
  unfoldable pub configure_argv : Config → Config → Buffers → Run (Option (Config × Buffers))
  unfolding cfg_read_argv cfg_commit cfg_free
  configure_argv cfg newcfg b = do
    (success, new, b1) ← cfg_read_argv m (arguments_of argv) 0 newcfg b
    let committed : Run (Option (Config × Buffers)) = do
      (cfg', b2) ← cfg_commit cfg new b1
      b3 ← cfg_free cfg' new b2
      ok (some (cfg', b3))
    if not success then ok none else committed

  -- "STEP 1": the configuration file, where `open_file` is what fopen() and fgets() give
  unfoldable pub configure_file : Config → Config → Buffers → Run (Option (Config × Buffers))
  unfolding cfg_read_file configure_argv
  configure_file cfg newcfg b = do
    (success, new, b1) ← cfg_read_file m files (open_file newcfg.filename) newcfg b
    if not success then ok none else configure_argv cfg new b1

  -- main(), up to "All configuration values have been processed": `cfg` and the buffers, or none where it
  -- returns EXIT_FAILURE; `is_root` is `geteuid() == 0`
  unfoldable pub configure : Bool → Config → Buffers → Run (Option (Config × Buffers))
  unfolding cfg_init cfg_dup cfg_preread_commandline configure_file
  configure is_root start b = do
    (cfg, b1) ← cfg_init m start b
    let configured : Run (Option (Config × Buffers)) =
        elim (cfg_preread_commandline files argv (cfg_dup cfg)) [
          | none ↦ ok none
          | some newcfg ↦ configure_file cfg newcfg b1
        ]
    if not is_root then ok none else configured
