-- ===== src/Program/Start.antt =====
-- What a process does before it collects.
use kvnorcom.Prelude.{
  ℕ, ◌≡◌, refl, ◌∙◌, Bool, false, Bool-cases, inl, inr, Option, none, some, List, is_empty,
  if◌then◌else◌, ◌∷◌, ◌++◌,
}
use kvnorcom.Prelude.Bytes.{Bytes, codes}
use kvnorcom.Outcome.{Outcome, returns, fault, running, Returns, Returns-both, Returns-Yields}
use kvnorcom.Outcome as Outcome
use kvnorcom.System.{System, Action, ◌>>=◌}
use kvnorcom.System.Conf.{Section}
use kvnorcom.Raport.Handlers.{Library}
use kvnorcom.Config.{Config}
use kvnorcom.Delivery.Saved.{fix_path}
use kvnorcom.Startup.{Directories, get_dir, require, get_dir_of, start}
use kvnorcom.Startup.Places.{OrExit, IsPlaced, start-IsPlaced}
use kvnorcom.Startup.Quiet.{IsQuiet, Keeps, Keeps-and_then, Keeps-require, start-Keeps}
use kvnorcom.Logging.{LogLevel, Levels}
use kvnorcom.Logging.Setup.{Milog, set_levels, open_streams, init_logger}
use kvnorcom.Collector.StateFile.{Reader}
use kvnorcom.Collector.Run.{run}
use kvnorcom.Argv0.{cmd_name_from_argv0}
use kvnorcom.Program.{Process, rundir, collect, run_alone, on_app, on_log, main}

-- The log and the process's own calls leave what `seen` sees of the surroundings as it is.
pub record IsQuietProcess {W V : Type 0} (milog : Milog W) (process : Process W) (seen : W → V)
    : Type 0 where
  pub open_log : (name : Bytes) (w : W) → seen (milog.open_log name w).1 ≡ seen w
  pub create_logger : (name : Bytes) (w : W) → seen (milog.create_logger name w).1 ≡ seen w
  pub add_stream : (name : Bytes) (w : W) → seen (milog.add_stream name w).1 ≡ seen w
  pub set_trace_level : (l : LogLevel) (w : W) → seen (milog.set_trace_level l w) ≡ seen w
  pub set_log_level : (l : LogLevel) (w : W) → seen (milog.set_log_level l w) ≡ seen w
  pub set_default_logger : (name : Bytes) (w : W) → seen (milog.set_default_logger name w) ≡ seen w
  pub base_app : (argv : List Bytes) (w : W) → seen (process.base_app argv w) ≡ seen w
  pub is_running : (name : Bytes) (w : W) → seen (process.is_running name w).1 ≡ seen w

module _ {W V : Type 0} (seen : W → V) (sys : System W) (dirs : Directories W) (milog : Milog W)
    (process : Process W) (reader : Reader) (lib : Library) (upper lower : Bytes → Bytes)
    (strcasecmp : Bytes → Bytes → Bool) (junk fuel rounds rounds_of_run : ℕ) where
  -- How a process ends up: it exits with the status 1, or it has found that no other one runs,
  -- writes its pid file and runs the collector, whose directories have names to which that of a
  -- file can be appended. Up to then nothing that is seen has changed.
  pub data Starts (pidfile progname : Bytes) (w : W) : Outcome (ℕ × W) → Type 0 where
    exits : (v : W) → seen v ≡ seen w → Starts pidfile progname w (returns (1, v))
    collects :
        (conf : Config) (v : W)
        → IsPlaced conf
        → seen v ≡ seen w
        → (process.is_running pidfile v).0.0 ≡ false
        → Starts pidfile progname w (
            run sys conf reader lib junk fuel rounds rounds_of_run progname
              (process.create_pid_file pidfile (process.is_running pidfile v).1))

  module _ (quiet : IsQuiet sys dirs seen) (quiet_process : IsQuietProcess milog process seen) where
    open_streams-Keeps :
        (filename : Bytes) (levels : Levels) (logname : Bytes)
        → Keeps seen (open_streams sys dirs lib.trim milog strcasecmp filename levels logname)
    unfolding open_streams set_levels
    open_streams-Keeps filename levels logname =
        Keeps-and_then seen (require (milog.open_log filename)) _
          (Keeps-require seen (milog.open_log filename) (quiet_process.open_log filename))
          (λ u.
            Keeps-and_then seen (require (milog.create_logger logname)) _
              (Keeps-require seen (milog.create_logger logname)
                (quiet_process.create_logger logname))
              (λ u.
                Keeps-and_then seen (require (milog.add_stream logname)) _
                  (Keeps-require seen (milog.add_stream logname) (quiet_process.add_stream logname))
                  (λ u w.
                    quiet_process.set_default_logger logname _
                    ∙ quiet_process.set_log_level levels.log_level _
                    ∙ quiet_process.set_trace_level levels.trace_level w)))

    init_logger-Keeps :
        (argv : List Bytes) (conf : Section) (logname : Bytes)
        → Keeps seen (init_logger sys dirs lib.trim milog strcasecmp argv (some conf) logname)
    unfolding init_logger get_dir_of
    init_logger-Keeps argv conf logname = open_streams-Keeps _ _ logname

    -- The end of a process behind an action that returns and keeps what is seen.
    Starts-bind {ℓ} :
        {A : Type ℓ} (P : A × W → Type 0) (pidfile progname : Bytes) (m : Action W A)
        (f : A → Action W ℕ) (v w : W)
        → seen v ≡ seen w
        → Returns P (m v)
        → Keeps seen m
        → ((a : A) (u : W) → P (a, u) → seen u ≡ seen w → Starts pidfile progname w (f a u))
        → Starts pidfile progname w ((m >>= f) v)
    Starts-bind {A = A} P pidfile progname m f v w e h keeps k = from (m v) (
        Returns-both P (λ p. seen p.1 ≡ seen v) (m v) h
          (Returns-Yields (λ p. seen p.1 ≡ seen v) (m v) (keeps v)))
      where
        from :
            (r : Outcome (A × W))
            → Returns (λ p. P p × (seen p.1 ≡ seen v)) r
            → Starts pidfile progname w (Outcome.◌>>=◌ r (λ p. f p.0 p.1))
        from (returns (a, u)) (h', e') = k a u h' (e' ∙ e)
        from fault h' = absurd h'
        from running h' = absurd h'

    run_alone-Starts :
        (conf : Config) (pidfile progname : Bytes) (v w : W)
        → IsPlaced conf
        → seen v ≡ seen w
        → Starts pidfile progname w (
            run_alone sys dirs milog process reader lib upper lower strcasecmp junk fuel rounds
              rounds_of_run conf pidfile progname v)
    unfolding run_alone collect
    run_alone-Starts conf pidfile progname v w h e =
        elim (Bool-cases (process.is_running pidfile v).0.0) [
          | inl runs ↦ rw (run_alone, runs) (exits _ (quiet_process.is_running pidfile v ∙ e))
          | inr alone ↦ rw (run_alone, alone) (collects conf v h e alone)
        ]

    on_app-Starts :
        (pidfile progname : Bytes) (app : Option Config) (v w : W)
        → OrExit IsPlaced (app, v)
        → seen v ≡ seen w
        → Starts pidfile progname w (
            on_app sys dirs milog process reader lib upper lower strcasecmp junk fuel rounds
              rounds_of_run pidfile progname app v)
    unfolding on_app
    on_app-Starts pidfile progname none v w h e = exits v e
    on_app-Starts pidfile progname (some conf) v w h e =
        run_alone-Starts conf pidfile progname v w h e

    -- The name of the pid file that main makes for a configuration.
    abbrev pub pid_file : Section → Bytes → Bytes
    pid_file section progname =
        let dir = get_dir sys dirs lib.trim section (codes "rundir") in
        process.pid_file_name (fix_path (if is_empty dir then process.kv_rundir else dir)) progname

    on_log-Starts :
        (argv : List Bytes) (section : Section) (progname : Bytes) (log : Option (Unit {0}))
        (v w : W)
        → seen v ≡ seen w
        → Starts (pid_file section progname) progname w (
            on_log sys dirs milog process reader lib upper lower strcasecmp junk fuel rounds
              rounds_of_run argv
              (some section)
              progname
              log
              v)
    unfolding on_log rundir get_dir_of
    on_log-Starts argv section progname none v w e = exits v e
    on_log-Starts argv section progname (some u) v w e =
        let based = process.base_app argv v in
        Starts-bind (OrExit IsPlaced) (pid_file section progname) progname
          (start sys dirs lib.trim upper lower (some section)) _ based w
          (quiet_process.base_app argv v ∙ e)
          (start-IsPlaced sys dirs lib.trim upper lower (some section) based)
          (start-Keeps seen sys dirs lib.trim quiet upper lower (some section))
          (λ app u. on_app-Starts (pid_file section progname) progname app u w)

    -- The process has a configuration, and neither what it calls for its start nor its log changes
    -- what is seen of the surroundings. Then it exits with the status 1, and what is seen is as it
    -- was; or its pid file shows no other process, it writes that file and goes on to run, with
    -- directories to whose names those of files can be appended, and nothing that is seen has
    -- changed but for the pid file.
    pub main-Starts :
        (argv0 : Bytes) (args : List Bytes) (section : Section) (w : W)
        → let progname = process.filename argv0 in
          process.configuration (progname ++ codes ".conf") ≡ some section
          → Starts (pid_file section progname) progname w (
              main sys dirs milog process reader lib upper lower strcasecmp junk fuel rounds
                rounds_of_run argv0 args w)
    unfolding main cmd_name_from_argv0
    main-Starts argv0 args section w configured =
        let progname = process.filename argv0 in
        let log = init_logger-Keeps (argv0 ∷ args) section progname in
        rw (main, configured)
          (Starts-bind (λ p. seen p.1 ≡ seen w) (pid_file section progname) progname
            (init_logger sys dirs lib.trim milog strcasecmp (argv0 ∷ args) (some section) progname)
            _ w w refl (log w) log (λ r u h. on_log-Starts (argv0 ∷ args) section progname r u w))
