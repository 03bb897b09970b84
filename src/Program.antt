-- ===== src/Program.antt =====
-- The process: main and rundir of src/norcom2kv.cc.
pub mod Start
use kvnorcom.Prelude.{
  ℕ, Bool, true, false, Option, none, some, List, ◌∷◌, ◌++◌, is_empty, if◌then◌else◌,
}
use kvnorcom.Prelude.Bytes.{Bytes, codes}
use kvnorcom.System.{System, Action, ◌>>=◌, done, call, command}
use kvnorcom.System.Conf.{Section}
use kvnorcom.Argv0.{Paths, cmd_name_from_argv0}
use kvnorcom.Raport.Handlers.{Library}
use kvnorcom.Config.{Config}
use kvnorcom.Delivery.Saved.{fix_path}
use kvnorcom.Startup.{Directories, get_dir_of, start}
use kvnorcom.Logging.Setup.{Milog, init_logger}
use kvnorcom.Collector.StateFile.{Reader}
use kvnorcom.Collector.Run.{run}

-- What the process calls in other libraries.
pub record Process (W : Type 0) : Type 0 where
  pub paths : Paths
  pub open paths use *
  -- KvBaseApp: getConfiguration behind setConfFile, a null pointer if the file cannot be read; and
  -- the constructor.
  pub configuration : Bytes → Option Section
  pub base_app : List Bytes → W → W
  -- kvPath( rundir )
  pub kv_rundir : Bytes
  -- dnmi::file: createPidFileName, isRunningPidFile with its `error`, and createPidFile.
  pub pid_file_name : Bytes → Bytes → Bytes
  pub is_running : Bytes → W → (Bool × Bool) × W
  pub create_pid_file : Bytes → W → W

module _ {W : Type 0} (sys : System W) (dirs : Directories W) (milog : Milog W)
    (process : Process W) (reader : Reader) (lib : Library) (upper lower : Bytes → Bytes)
    (strcasecmp : Bytes → Bytes → Bool) where
  -- rundir
  unfoldable pub rundir : Option Section → Action W Bytes
  rundir conf = do
    rdir ← get_dir_of sys dirs lib.trim conf (codes "rundir")
    done (fix_path (if is_empty rdir then process.kv_rundir else rdir))

  module _ (junk fuel rounds rounds_of_run : ℕ) where
    -- main, where the pid file shows no other process; the collector is run.
    unfoldable pub collect : Config → Bytes → Bytes → Action W ℕ
    collect conf pidfile progname = do
      u ← command (process.create_pid_file pidfile)
      run sys conf reader lib junk fuel rounds rounds_of_run progname

    -- main, behind the constructor of App; with `error` or without it the status is 1.
    unfoldable pub run_alone : Config → Bytes → Bytes → Action W ℕ
    run_alone conf pidfile progname = do
      r ← call (process.is_running pidfile)
      elim r.0 [ true ↦ done 1 | false ↦ collect conf pidfile progname ]

    unfoldable pub on_app : Bytes → Bytes → Option Config → Action W ℕ
    on_app pidfile progname none = done 1
    on_app pidfile progname (some conf) = run_alone conf pidfile progname

    -- main, behind InitLogger; what has exited there has the status 1.
    unfoldable pub on_log : List Bytes → Option Section → Bytes → Option (Unit {0}) → Action W ℕ
    on_log argv conf progname none = done 1
    on_log argv conf progname (some u) = do
      dir ← rundir conf
      u ← command (process.base_app argv)
      app ← start sys dirs lib.trim upper lower conf
      on_app (process.pid_file_name dir progname) progname app

    -- main in a process of that name, with further arguments: its exit status.
    unfoldable pub main : Bytes → List Bytes → Action W ℕ
    main argv0 args =
        let progname = cmd_name_from_argv0 process.paths argv0 in
        let conf = process.configuration (progname ++ codes ".conf") in
        do
          log ← init_logger sys dirs lib.trim milog strcasecmp (argv0 ∷ args) conf progname
          on_log (argv0 ∷ args) conf progname log
