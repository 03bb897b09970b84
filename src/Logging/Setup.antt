-- ===== src/Logging/Setup.antt =====
-- InitLogger of src/InitLogger.cc as a whole: the log's file and streams, and their levels.
use kvnorcom.Prelude.{Bool, Option, some, List, ◌++◌, is_empty, if◌then◌else◌}
use kvnorcom.Prelude.Bytes.{Bytes, codes}
use kvnorcom.System.{System, Action, ◌>>=◌, done, command}
use kvnorcom.System.Conf.{Section}
use kvnorcom.Delivery.Saved.{fix_path}
use kvnorcom.Startup.{Directories, get_dir_of, and_then, require}
use kvnorcom.Logging.{LogLevel, Levels, init_levels}

-- What InitLogger calls of milog, where none is an exception: FLogStream::open behind its
-- constructor, createLogger behind that of the StdErrStream, addStream, and what cannot fail.
pub record Milog (W : Type 0) : Type 0 where
  pub open_log : Bytes → W → Option Bool × W
  pub create_logger : Bytes → W → Option Bool × W
  pub add_stream : Bytes → W → Option Bool × W
  pub set_trace_level : LogLevel → W → W
  pub set_log_level : LogLevel → W → W
  pub set_default_logger : Bytes → W → W

module _ {W : Type 0} (sys : System W) (dirs : Directories W) (trim : Bytes → Bytes)
    (milog : Milog W) (strcasecmp : Bytes → Bytes → Bool) where
  -- The name of the log's file, from what getDir gives.
  unfoldable pub log_file : Bytes → Bytes → Bytes
  log_file logdir logname =
      fix_path (if is_empty logdir then dirs.kv_path (codes "logdir") else logdir)
      ++ (logname ++ codes ".log")

  -- The levels of the two streams, and the default logger.
  unfoldable pub set_levels : Levels → Bytes → Action W (Option (Unit {0}))
  set_levels levels logname = do
    u ← command (milog.set_trace_level levels.trace_level)
    u ← command (milog.set_log_level levels.log_level)
    u ← command (milog.set_default_logger logname)
    done (some tt)

  -- The body of the try block; whatever is caught exits.
  unfoldable pub open_streams : Bytes → Levels → Bytes → Action W (Option (Unit {0}))
  open_streams filename levels logname = and_then (require (milog.open_log filename)) λ u.
      and_then (require (milog.create_logger logname))
        λ u. and_then (require (milog.add_stream logname)) λ u. set_levels levels logname

  -- InitLogger: none is exit( 1 ).
  unfoldable pub init_logger : List Bytes → Option Section → Bytes → Action W (Option (Unit {0}))
  init_logger argv conf logname = do
    logdir ← get_dir_of sys dirs trim conf (codes "logdir")
    open_streams (log_file logdir logname) (init_levels strcasecmp conf argv) logname
