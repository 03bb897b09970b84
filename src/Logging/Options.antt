-- ===== src/Logging/Options.antt =====
-- What the arguments make of the levels.
use kvnorcom.Prelude.{◌≡◌, refl, ◌∙◌, Bool, false, List, [], ◌∷◌}
use kvnorcom.Prelude.Bytes.{Bytes, codes, equal}
use kvnorcom.Logging.{Levels, get_log_level, read_arguments}

-- What a user gives: an option with its value, or any other word.
pub data Given : Type 0 where
  trace : Bytes → Given
  log : Bytes → Given
  word : Bytes → Given

abbrev pub print_given : List Given → List Bytes
print_given [] = []
print_given (trace v ∷ gs) = codes "--tracelevel" ∷ v ∷ print_given gs
print_given (log v ∷ gs) = codes "--loglevel" ∷ v ∷ print_given gs
print_given (word w ∷ gs) = w ∷ print_given gs

-- The other words are not spelled like an option.
abbrev pub AllOther : List Given → Type 0
AllOther [] = Unit
AllOther (trace v ∷ gs) = AllOther gs
AllOther (log v ∷ gs) = AllOther gs
AllOther (word w ∷ gs) =
    (equal (codes "--tracelevel") w ≡ false) × (equal (codes "--loglevel") w ≡ false) × AllOther gs

module _ (strcasecmp : Bytes → Bytes → Bool) where
  -- Each option sets its level, in the order given; the other words count for nothing.
  abbrev pub levels_given : List Given → Levels → Levels
  levels_given [] v = v
  levels_given (trace t ∷ gs) v =
      levels_given gs (record v { trace_level = get_log_level strcasecmp t })
  levels_given (log t ∷ gs) v =
      levels_given gs (record v { log_level = get_log_level strcasecmp t })
  levels_given (word w ∷ gs) v = levels_given gs v

  read_arguments-word :
      (w : Bytes) (args : List Bytes) (v : Levels)
      → equal (codes "--tracelevel") w ≡ false
      → equal (codes "--loglevel") w ≡ false
      → read_arguments strcasecmp (w ∷ args) v ≡ read_arguments strcasecmp args v
  unfolding read_arguments
  read_arguments-word w [] v t l = refl
  read_arguments-word w (b ∷ args) v t l = rw (t, l) refl

  -- The arguments are options with their values, in any order and any number, and other words that
  -- are not spelled like one of the two options. Each option sets its level, so that the last one of
  -- a kind counts, and nothing else changes a level.
  pub read_arguments-levels_given :
      (gs : List Given) (v : Levels)
      → AllOther gs
      → read_arguments strcasecmp (print_given gs) v ≡ levels_given gs v
  unfolding read_arguments equal
  read_arguments-levels_given [] v h = refl
  read_arguments-levels_given (trace t ∷ gs) v h =
      read_arguments-levels_given gs (record v { trace_level = get_log_level strcasecmp t }) h
  read_arguments-levels_given (log t ∷ gs) v h =
      read_arguments-levels_given gs (record v { log_level = get_log_level strcasecmp t }) h
  read_arguments-levels_given (word w ∷ gs) v (t, l, h) =
      read_arguments-word w (print_given gs) v t l ∙ read_arguments-levels_given gs v h
