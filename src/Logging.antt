-- ===== src/Logging.antt =====
-- The levels of src/InitLogger.cc: what the configuration and the arguments make of them.
pub mod Names
pub mod Options
pub mod Setup
use kvnorcom.Prelude.{ℕ, Bool, true, false, List, [], ◌∷◌, Option, none, some, if◌then◌else◌}
use kvnorcom.Prelude.Bytes.{Bytes, codes, equal}
use kvnorcom.System.Conf.{Section}

-- milog::LogLevel
pub data LogLevel : Type 0 where
  notset fatal error warn info debug debug1 debug2 debug3 debug4 debug5 debug6 : LogLevel

-- The texts that getLogLevel compares with, in its order.
abbrev pub level_texts : List (Bytes × LogLevel)
level_texts =
    (codes "FATAL", fatal)
    ∷ (codes "ERROR", error)
    ∷ (codes "WARN", warn)
    ∷ (codes "DEBUG", debug)
    ∷ (codes "DEBUG", debug)
    ∷ (codes "DEBUG1", debug1)
    ∷ (codes "DEBUG2", debug2)
    ∷ (codes "DEBUG3", debug3)
    ∷ (codes "DEBUG4", debug4)
    ∷ (codes "DEBUG5", debug5)
    ∷ (codes "DEBUG6", debug6)
    ∷ (codes "INFO", info)
    ∷ (codes "0", fatal)
    ∷ (codes "1", error)
    ∷ (codes "2", warn)
    ∷ (codes "3", info)
    ∷ (codes "4", debug)
    ∷ (codes "5", debug1)
    ∷ (codes "6", debug2)
    ∷ (codes "7", debug3)
    ∷ (codes "8", debug4)
    ∷ (codes "9", debug5)
    ∷ (codes "10", debug5)
    ∷ (codes "11", debug6)
    ∷ []

-- traceLevel and logLevel of InitLogger.
pub record Levels : Type 0 where
  pub trace_level : LogLevel
  pub log_level : LogLevel

-- strcasecmp, as the test for 0.
module _ (strcasecmp : Bytes → Bytes → Bool) where
  level_named : List (Bytes × LogLevel) → Bytes → LogLevel
  level_named [] str = notset
  level_named ((name, l) ∷ names) str =
      let rest = level_named names str in if strcasecmp name str then l else rest

  -- getLogLevel
  unfoldable pub get_log_level : Bytes → LogLevel
  unfolding level_named
  get_log_level str = level_named level_texts str

  -- InitLogger: the levels of the configuration, where there is one.
  unfoldable pub configured : Option Section → Levels
  unfolding get_log_level
  configured none = record { trace_level = notset; log_level = notset }
  configured (some conf) = record {
    trace_level = get_log_level (conf.text (codes "tracelevel") (codes "DEBUG"));
    log_level = get_log_level (conf.text (codes "loglevel") (codes "INFO"));
  }

  -- InitLogger: the loop over the arguments. An option takes the argument behind it; the last one
  -- has none.
  unfoldable pub read_arguments : List Bytes → Levels → Levels
  read_arguments [] v = v
  read_arguments (a ∷ []) v = v
  read_arguments (a ∷ b ∷ args) v =
      let traced = read_arguments args (record v { trace_level = get_log_level b }) in
      let logged = read_arguments args (record v { log_level = get_log_level b }) in
      let other = read_arguments (b ∷ args) v in
      if equal (codes "--tracelevel") a
      then traced
      else if equal (codes "--loglevel") a
      then logged
      else other

  -- InitLogger: the levels that the two streams get.
  unfoldable pub init_levels : Option Section → List Bytes → Levels
  unfolding configured read_arguments
  init_levels conf argv = read_arguments argv (configured conf)
