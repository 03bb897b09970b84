-- ===== src/Argv0.antt =====
-- src/decodeArgv0.cc: what the name that a program was called by says.
use kvnorcom.Prelude.{Bool, true, false, Option, none, some, ◌++◌, if◌then◌else◌}
use kvnorcom.Prelude.Bytes.{Bytes, codes}
use kvnorcom.Outcome.{fault}
use kvnorcom.System.{Action, ◌>>=◌, done, call}

-- What is called of boost::filesystem::path: the last component, and operator/.
pub record Paths : Type 0 where
  pub filename : Bytes → Bytes
  pub join : Bytes → Bytes → Bytes

module _ (paths : Paths) where
  -- getCmdNameFromArgv0
  unfoldable pub cmd_name_from_argv0 : Bytes → Bytes
  cmd_name_from_argv0 argv0 = paths.filename argv0

  -- getConfFileFromArgv0, with boost::filesystem::exists, where none is a filesystem_error, which
  -- nobody catches. A result of none is exit( 2 ).
  unfoldable pub conf_file_from_argv0 :
      {W : Type 0} → (Bytes → W → Option Bool × W) → Bytes → Bytes → Bool → Action W (Option Bytes)
  conf_file_from_argv0 exists confdir argv0 check_if_file_exist =
      let confile = paths.join confdir (paths.filename argv0 ++ codes ".conf") in
      elim check_if_file_exist [
        | false ↦ done (some confile)
        | true ↦ (do
          there ← call (exists confile)
          elim there [ none ↦ λ w. fault | some b ↦ done (if b then some confile else none) ])
      ]
