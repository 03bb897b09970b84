-- ===== src/Tests/Logging.antt =====
-- The levels of the log at concrete texts and arguments.
use kvnorcom.Prelude.{◌≡◌, refl, Bool, [], ◌∷◌, map}
use kvnorcom.Prelude.Bytes.{Bytes, codes, equal}
use kvnorcom.Logging.{debug5, notset, Levels, get_log_level, read_arguments}
use kvnorcom.Logging.Names.{to_lower}
use kvnorcom.Logging.Options.{trace, log, word, levels_given, read_arguments-levels_given}

abbrev compare_lower : Bytes → Bytes → Bool
compare_lower a b = equal (map to_lower a) (map to_lower b)

get_log_level_test : get_log_level compare_lower (codes "Debug5") ≡ debug5
unfolding get_log_level equal
get_log_level_test = refl

abbrev unset : Levels
unset = record { trace_level = notset; log_level = notset }

read_arguments-levels_given_example :
    read_arguments compare_lower
      (codes "norcom2kv"
        ∷ codes "--tracelevel"
        ∷ codes "--loglevel"
        ∷ codes "--loglevel"
        ∷ codes "4"
        ∷ [])
      unset
    ≡ levels_given compare_lower
        (word (codes "norcom2kv") ∷ trace (codes "--loglevel") ∷ log (codes "4") ∷ [])
        unset
unfolding equal
read_arguments-levels_given_example =
    read_arguments-levels_given compare_lower
      (word (codes "norcom2kv") ∷ trace (codes "--loglevel") ∷ log (codes "4") ∷ []) unset
      (refl, refl, tt)
