-- ===== src/Config/RoundTrip.antt =====
-- The definitions of the types to collect, written as values of the configuration.
use kvnorcom.Prelude.{◌≡◌, refl, true, false, List, [], ◌∷◌, ◌++◌, some, is_empty, take-append}
use kvnorcom.Prelude.Bytes.{Bytes, equal, lacks}
use kvnorcom.Lines.Find.{find_char-append, drop_one-append}
use kvnorcom.Raport.Kinds.{
  WmoRaport, synop, metar, temp, pilo, arep, drau, bath, tide, bufr_surface, wmoraport_to_string,
}
use kvnorcom.Config.{
  RaportDef, raport_names, raport_named, report_type, decoder_text, raport_value, raport_values,
  get_raport_conf,
}

-- The value of a definition: the name of the type and, behind a ':', the decoder.
abbrev pub print_def : Bytes × WmoRaport → Bytes
print_def (decoder, k) = wmoraport_to_string k ++ b':' ∷ decoder

abbrev pub print_defs : RaportDef → List Bytes
print_defs [] = []
print_defs (d ∷ ds) = print_def d ∷ print_defs ds

-- The decoders have names with no blanks around them: `trim` leaves them as they are.
abbrev pub AllTrimmed : (Bytes → Bytes) → RaportDef → Type 0
AllTrimmed trim [] = Unit
AllTrimmed trim ((decoder, k) ∷ ds) =
    (is_empty decoder ≡ false) × (trim decoder ≡ decoder) × AllTrimmed trim ds

wmoraport_to_string-lacks : (k : WmoRaport) → lacks b':' (wmoraport_to_string k) ≡ true
unfolding wmoraport_to_string
wmoraport_to_string-lacks k = elim k as (λ j. lacks b':' (wmoraport_to_string j) ≡ true) [
  | synop ↦ refl
  | metar ↦ refl
  | temp ↦ refl
  | pilo ↦ refl
  | arep ↦ refl
  | drau ↦ refl
  | bath ↦ refl
  | tide ↦ refl
  | bufr_surface ↦ refl
]

raport_named-wmoraport_to_string :
    (k : WmoRaport) → raport_named raport_names (wmoraport_to_string k) ≡ some k
unfolding wmoraport_to_string raport_named equal
raport_named-wmoraport_to_string k =
    elim k as (λ j. raport_named raport_names (wmoraport_to_string j) ≡ some j) [
      | synop ↦ refl
      | metar ↦ refl
      | temp ↦ refl
      | pilo ↦ refl
      | arep ↦ refl
      | drau ↦ refl
      | bath ↦ refl
      | tide ↦ refl
      | bufr_surface ↦ refl
    ]

module _ (trim upper lower : Bytes → Bytes)
    (names : (k : WmoRaport) → upper (trim (wmoraport_to_string k)) ≡ wmoraport_to_string k) where
  report_type-print_def :
      (decoder : Bytes) (k : WmoRaport)
      → report_type trim upper lower (print_def (decoder, k)) ≡ wmoraport_to_string k
  unfolding report_type
  report_type-print_def decoder k =
      rw
        (
          report_type,
          find_char-append b':' (wmoraport_to_string k) decoder (wmoraport_to_string-lacks k),
          take-append (wmoraport_to_string k) (b':' ∷ decoder),
        )
        (names k)

  decoder_text-print_def :
      (decoder : Bytes) (k : WmoRaport)
      → decoder_text trim upper lower (print_def (decoder, k)) ≡ decoder
  unfolding decoder_text
  decoder_text-print_def decoder k =
      rw
        (
          decoder_text,
          find_char-append b':' (wmoraport_to_string k) decoder (wmoraport_to_string-lacks k),
        )
        (drop_one-append b':' (wmoraport_to_string k) decoder)

  raport_value-print_def :
      (decoder : Bytes) (k : WmoRaport)
      → is_empty decoder ≡ false
      → trim decoder ≡ decoder
      → raport_value trim upper lower (print_def (decoder, k)) ≡ some (decoder, k)
  unfolding raport_value
  raport_value-print_def decoder k given trimmed =
      rw
        (
          raport_value,
          report_type-print_def decoder k,
          raport_named-wmoraport_to_string k,
          decoder_text-print_def decoder k,
          given,
          trimmed,
        )
        refl

  raport_values-print_defs :
      (ds : RaportDef) → AllTrimmed trim ds → raport_values trim upper lower (print_defs ds) ≡ ds
  unfolding raport_values
  raport_values-print_defs [] h = refl
  raport_values-print_defs ((decoder, k) ∷ ds) (given, trimmed, h) =
      rw
        (
          raport_values,
          raport_value-print_def decoder k given trimmed,
          raport_values-print_defs ds h,
        )
        refl

  -- The names that wmoraportToString gives are not changed by trim and to_upper. Definitions whose
  -- decoders have a name with no blanks around it, written as values, each the name of the type, a
  -- ':' and the decoder, are read back by getRaportConf, in their order, if there are any.
  pub get_raport_conf-print_defs :
      (d : Bytes × WmoRaport) (ds : RaportDef)
      → AllTrimmed trim (d ∷ ds)
      → get_raport_conf trim upper lower (print_defs (d ∷ ds)) ≡ d ∷ ds
  unfolding get_raport_conf
  get_raport_conf-print_defs d ds h = rw (raport_values-print_defs (d ∷ ds) h) refl
