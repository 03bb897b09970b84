-- ===== src/Logging/Names.antt =====
-- Which level a text means.
use kvnorcom.Prelude.{
  ℕ, ◌+◌, ◌≡◌, refl, ap, ◌∙◌, Bool, ◌&&◌, List, [], ◌∷◌, map, leb, if◌then◌else◌,
}
use kvnorcom.Prelude.Bytes.{Bytes, codes, equal}
use kvnorcom.Logging.{
  LogLevel, notset, fatal, error, warn, info, debug, debug1, debug2, debug3, debug4, debug5, debug6,
  level_named, level_texts, get_log_level,
}

-- The small letter of a capital one.
abbrev pub to_lower : ℕ → ℕ
to_lower c = if leb b'A' c && leb c b'Z' then c + 32 else c

-- strcasecmp in the POSIX locale: texts are compared without regard to case.
abbrev pub IsCaseBlind : (Bytes → Bytes → Bool) → Type 0
IsCaseBlind strcasecmp = (a b : Bytes) → strcasecmp a b ≡ equal (map to_lower a) (map to_lower b)

-- The name of a level, as the program's usage gives it; notset has none.
abbrev pub level_name : LogLevel → Bytes
level_name notset = []
level_name fatal = codes "FATAL"
level_name error = codes "ERROR"
level_name warn = codes "WARN"
level_name info = codes "INFO"
level_name debug = codes "DEBUG"
level_name debug1 = codes "DEBUG1"
level_name debug2 = codes "DEBUG2"
level_name debug3 = codes "DEBUG3"
level_name debug4 = codes "DEBUG4"
level_name debug5 = codes "DEBUG5"
level_name debug6 = codes "DEBUG6"

module _ (strcasecmp : Bytes → Bytes → Bool) (blind : IsCaseBlind strcasecmp) where
  -- The search in which both texts are in small letters.
  abbrev named_lower : List (Bytes × LogLevel) → Bytes → LogLevel
  named_lower [] str = notset
  named_lower ((name, l) ∷ names) str =
      if equal (map to_lower name) str then l else named_lower names str

  level_named-named_lower :
      (names : List (Bytes × LogLevel)) (str : Bytes)
      → level_named strcasecmp names str ≡ named_lower names (map to_lower str)
  unfolding level_named
  level_named-named_lower [] str = refl
  level_named-named_lower ((name, l) ∷ names) str =
      rw (blind name str, level_named-named_lower names str) refl

  named_lower-level_name :
      (l : LogLevel) → named_lower level_texts (map to_lower (level_name l)) ≡ l
  unfolding equal
  named_lower-level_name l =
      elim l as (λ k. named_lower level_texts (map to_lower (level_name k)) ≡ k) [
        | notset ↦ refl
        | fatal ↦ refl
        | error ↦ refl
        | warn ↦ refl
        | info ↦ refl
        | debug ↦ refl
        | debug1 ↦ refl
        | debug2 ↦ refl
        | debug3 ↦ refl
        | debug4 ↦ refl
        | debug5 ↦ refl
        | debug6 ↦ refl
      ]

  -- A text that is the name of a level but for the case of its letters is read as that level; the
  -- empty text as notset.
  pub get_log_level-level_name :
      (l : LogLevel) (str : Bytes)
      → map to_lower str ≡ map to_lower (level_name l)
      → get_log_level strcasecmp str ≡ l
  unfolding get_log_level
  get_log_level-level_name l str e =
      level_named-named_lower level_texts str
      ∙ ap (named_lower level_texts) e
      ∙ named_lower-level_name l
