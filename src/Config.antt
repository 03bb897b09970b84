-- ===== src/Config.antt =====
-- What class App of src/App.cc holds for the collector: its directories and flags, and the types of
-- bulletin to collect with their decoders (getRaportConf, getRaportsToCollect, getDecoder).
pub mod Decoders
pub mod RoundTrip
use kvnorcom.Prelude.{
  ℕ, zero, suc, ◌+◌, Bool, true, false, ◌||◌, Option, none, some, List, [], ◌∷◌, ◌++◌, ◌==◌, take,
  drop, is_empty, if◌then◌else◌,
}
use kvnorcom.Prelude.Bytes.{Bytes, codes, equal}
use kvnorcom.Lines.{find_char}
use kvnorcom.Raport.Kinds.{
  WmoRaport, WmoRaports, synop, metar, temp, pilo, arep, drau, bath, tide, bufr_surface,
  same_raport, insert,
}

-- RaportDef: decoders with the type of bulletin of each.
abbrev pub RaportDef : Type 0
RaportDef = List (Bytes × WmoRaport)

pub record Config : Type 0 where
  pub synopdir : Bytes
  pub workdir : Bytes
  pub tmpdir : Bytes
  pub data2kvdir : Bytes
  pub logdir : Bytes
  pub test : Bool
  pub debug : Bool
  -- refDataList
  pub servers : List Bytes
  pub raports : RaportDef
  -- Whether a time of change is before ignoreFilesBeforeStartup.
  pub ignored : ℕ → Bool

-- getRaportsToCollect
unfoldable pub raports_to_collect : RaportDef → WmoRaports → WmoRaports
raports_to_collect [] ret = ret
raports_to_collect ((decoder, k) ∷ ds) ret = raports_to_collect ds (insert k ret)

-- getDecoder; the empty text means that there is none.
unfoldable pub get_decoder : WmoRaport → RaportDef → Bytes
get_decoder k [] = []
get_decoder k ((decoder, j) ∷ ds) =
    let rest = get_decoder k ds in if same_raport j k then decoder else rest

-- The names that getRaportConf compares with, in its order.
abbrev pub raport_names : List (Bytes × WmoRaport)
raport_names =
    (codes "AREP", arep)
    ∷ (codes "BATH", bath)
    ∷ (codes "DRAU", drau)
    ∷ (codes "METAR", metar)
    ∷ (codes "PILO", pilo)
    ∷ (codes "SYNOP", synop)
    ∷ (codes "TEMP", temp)
    ∷ (codes "TIDE", tide)
    ∷ (codes "BUFR_SURFACE", bufr_surface)
    ∷ []

unfoldable pub raport_named : List (Bytes × WmoRaport) → Bytes → Option WmoRaport
raport_named [] name = none
raport_named ((n, k) ∷ ns) name =
    let rest = raport_named ns name in if equal name n then some k else rest

-- boost::trim, to_upper and to_lower of the C++ locale in use.
module _ (trim upper lower : Bytes → Bytes) where
  -- One value of the key `raports`, split at the first ':'.
  unfoldable pub report_type : Bytes → Bytes
  report_type val = upper (trim (elim (find_char b':' val) [ none ↦ val | some i ↦ take i val ]))

  unfoldable pub decoder_text : Bytes → Bytes
  decoder_text val = elim (find_char b':' val) [ none ↦ [] | some i ↦ drop (i + 1) val ]

  unfoldable pub raport_value : Bytes → Option (Bytes × WmoRaport)
  raport_value val =
      let decoder =
        if is_empty (decoder_text val) then lower (report_type val) else decoder_text val in
      elim (raport_named raport_names (report_type val)) [
        | none ↦ none
        | some k ↦ some (trim decoder, k)
      ]

  raport_values : List Bytes → RaportDef
  unfolding raport_value
  raport_values [] = []
  raport_values (v ∷ vs) =
      let rest = raport_values vs in elim (raport_value v) [ none ↦ rest | some d ↦ d ∷ rest ]

  -- getRaportConf
  unfoldable pub get_raport_conf : List Bytes → RaportDef
  unfolding raport_values
  get_raport_conf values =
      if is_empty (raport_values values)
      then (codes "synop", synop) ∷ (codes "bufr", bufr_surface) ∷ []
      else raport_values values
