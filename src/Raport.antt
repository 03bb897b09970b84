-- ===== src/Raport.antt =====
-- Class WMORaport of src/WMORaport.cc and .h: the dispatch on a bulletin's header, `split` and what
-- it goes through, and `getRaports`. The state, the maps and the handlers are in the children.
pub mod Kinds
pub mod Messages
pub mod Handlers
pub mod Effects
pub mod Total
pub mod Split
pub mod Asked
pub mod Sections
pub mod Collected
pub mod Print
use kvnorcom.Prelude.{
  ℕ, zero, suc, Bool, true, false, not, ◌&&◌, Option, none, some, List, [], ◌∷◌, ◌++◌, is_empty,
  if◌then◌else◌,
}
use kvnorcom.Prelude.Bytes.{Bytes, codes}
use kvnorcom.Map.{modify}
use kvnorcom.Outcome.{Outcome, returns, running, ◌>>=◌}
use kvnorcom.Stream.{IStream, reading}
use kvnorcom.Framing.{Message, get_message}
use kvnorcom.Lines.{skip_empty_lines}
use Kinds.{
  WmoRaport, WmoRaports, synop, metar, temp, pilo, arep, drau, bath, tide, bufr_surface, contains,
  less_raport,
}
use Messages.{MsgMap}
use Handlers.{
  Library, WmoRaportState, c_str, do_synop, do_metar, do_bufr_surface, do_not_implemented,
}

-- The headers' patterns in the order of the tests, with the type of bulletin of each.
abbrev pub header_patterns : List (Bytes × WmoRaport)
header_patterns =
    (codes "^ *S(I|M|N)\\w{4} +\\w+ +\\d+ *\\w*", synop)
    ∷ (codes "^ *S(A|P)\\w{4} +\\w+ +\\d+ *\\w*", metar)
    ∷ (codes "^ *U(E|F|K|L|M|S|Z)\\w{4} +\\w+ +\\d+ *\\w*", temp)
    ∷ (codes "^ *U(G|H|I|P|Q|Y)\\w{4} +\\w+ +\\d+ *\\w*", pilo)
    ∷ (codes "^ *U(A|D)\\w{4} +\\w+ +\\d+ *\\w*", arep)
    ∷ (codes "^ *SS\\w{4} +\\w+ +\\d+ *\\w*", drau)
    ∷ (codes "^ *SO\\w{4} +\\w+ +\\d+ *\\w*", bath)
    ∷ (codes "^ *ISRZ\\w{2}+ +\\w+ +\\d+ *\\w*", tide)
    ∷ (codes "^ *IS(I|M|N)\\w{3} +\\w+ +\\d+ *\\w*", bufr_surface)
    ∷ []

abbrev pub no_messages : WmoRaports → WmoRaportState
no_messages collect = record {
  error_str = [];
  not_matched = [];
  synop_map = [];
  temp_map = [];
  metar_map = [];
  pilo_map = [];
  arep_map = [];
  drau_map = [];
  bath_map = [];
  tide_map = [];
  bufr_surface_map = [];
  error_map = [];
  raports_to_collect = collect;
}

-- The copy constructor: what its list does not name is constructed anew.
unfoldable pub copy : WmoRaportState → WmoRaportState
copy r = record (no_messages []) {
  synop_map = r.synop_map;
  temp_map = r.temp_map;
  metar_map = r.metar_map;
  pilo_map = r.pilo_map;
  arep_map = r.arep_map;
  drau_map = r.drau_map;
  bath_map = r.bath_map;
  tide_map = r.tide_map;
}

-- operator=
unfoldable pub assign : WmoRaportState → WmoRaportState → WmoRaportState
assign lhs rhs = record lhs {
  synop_map = rhs.synop_map;
  temp_map = rhs.temp_map;
  metar_map = rhs.metar_map;
  pilo_map = rhs.pilo_map;
  arep_map = rhs.arep_map;
  drau_map = rhs.drau_map;
  bath_map = rhs.bath_map;
  tide_map = rhs.tide_map;
}

-- The map that a type of bulletin is collected in.
unfoldable pub messages_of : WmoRaportState → WmoRaport → MsgMap
messages_of r synop = r.synop_map
messages_of r metar = r.metar_map
messages_of r temp = r.temp_map
messages_of r pilo = r.pilo_map
messages_of r arep = r.arep_map
messages_of r drau = r.drau_map
messages_of r bath = r.bath_map
messages_of r tide = r.tide_map
messages_of r bufr_surface = r.bufr_surface_map

get_raports_loop :
    WmoRaportState → List (WmoRaport × MsgMap) → WmoRaports → List (WmoRaport × MsgMap)
unfolding messages_of
get_raports_loop r ret [] = ret
get_raports_loop r ret (k ∷ ks) =
    get_raports_loop r (modify less_raport k [] (λ _. messages_of r k) ret) ks

-- getRaports: a map from the types asked for to their messages.
unfoldable pub get_raports : WmoRaportState → WmoRaports → List (WmoRaport × MsgMap)
unfolding get_raports_loop
get_raports r ks = get_raports_loop r [] ks

module _ (lib : Library) (junk : ℕ) where
  -- The handler that a type of bulletin is dispatched to.
  unfoldable pub handler :
      WmoRaport → ℕ → Bytes → Bytes → IStream → WmoRaportState → Outcome (Bool × WmoRaportState)
  handler synop fuel header line s r = do_synop lib junk fuel s r
  handler metar fuel header line s r = do_metar lib junk fuel s r
  handler temp fuel header line s r = returns (do_not_implemented (codes "TEMP") header r)
  handler pilo fuel header line s r = returns (do_not_implemented (codes "PILO") header r)
  handler arep fuel header line s r = returns (do_not_implemented (codes "AREP") header r)
  handler drau fuel header line s r = returns (do_not_implemented (codes "DRAU") header r)
  handler bath fuel header line s r = returns (do_not_implemented (codes "BATH") header r)
  handler tide fuel header line s r = returns (do_not_implemented (codes "TIDE") header r)
  handler bufr_surface fuel header line s r = do_bufr_surface lib fuel header line s r

  -- doDispatch
  unfoldable pub do_dispatch :
      WmoRaport → ℕ → Bytes → Bytes → IStream → WmoRaportState → Outcome (Bool × WmoRaportState)
  unfolding handler
  do_dispatch k fuel header line s r =
      if not (is_empty r.raports_to_collect) && not (contains r.raports_to_collect k)
      then returns (true, r)
      else handler k fuel header line s r

  -- The type of the first pattern that the header matches.
  unfoldable pub classify : List (Bytes × WmoRaport) → Bytes → Option WmoRaport
  classify [] header = none
  classify ((pattern_text, k) ∷ ps) header = elim (lib.regex_match pattern_text (c_str header)) [
    | none ↦ classify ps header
    | some _ ↦ some k
  ]

  dispatch_on : ℕ → Bytes → WmoRaportState → Bytes × IStream → Outcome (Bool × WmoRaportState)
  dispatch_on fuel line r (header, s) =
      if is_empty header then returns (true, r) else elim (classify header_patterns header) [
        | none ↦ returns (true, r)
        | some k ↦ do_dispatch k fuel header line s r
      ]

  -- dispatch
  unfoldable pub dispatch : ℕ → Bytes → IStream → WmoRaportState → Outcome (Bool × WmoRaportState)
  unfolding dispatch_on
  dispatch fuel line s r = do h ← skip_empty_lines junk fuel s; dispatch_on fuel line r h

  -- What decode writes if a bulletin cannot be split.
  split_error : Bytes → Bytes
  split_error msg = codes "ERROR: can't split bulletin segment[\n" ++ (msg ++ codes "]\n")

  unfoldable pub noted : Bytes → Bool × WmoRaportState → WmoRaportState
  unfolding split_error
  noted msg (true, r) = r
  noted msg (false, r) = record r { error_str = r.error_str ++ split_error msg }

  -- The body of decode's loop behind getMessage.
  unfoldable pub on_message : ℕ → Bytes × Message → WmoRaportState → Outcome WmoRaportState
  unfolding noted
  on_message fuel (line, m) r =
      if m.complete
      then (do d ← dispatch fuel line (reading true [] m.msg) r; returns (noted m.msg d))
      else returns r

  -- `while( ! ist.eof() )`: a round of the loop has `fuel` rounds for the loops inside it.
  unfoldable pub decode_loop : ℕ → ℕ → IStream → WmoRaportState → Outcome WmoRaportState
  decode_loop fuel zero s r = running
  decode_loop fuel (suc rounds) s r =
      let again : Bytes × Message → WmoRaportState → Outcome WmoRaportState =
        λ p r'. decode_loop fuel rounds p.1.stream r' in
      let body : Outcome WmoRaportState = (do
        p ← get_message lib.trimstr junk fuel s
        r' ← on_message fuel p r
        again p r') in
      if s.eofbit then returns r else body

  -- The end of decode: what getMessage did not match. Nothing is ever written there.
  unfoldable pub not_matched_report : WmoRaportState → WmoRaportState
  not_matched_report r = if is_empty (lib.trim r.not_matched) then r else record r {
    error_str =
        r.error_str
        ++ (codes " ----- BEGIN NOT MATCHED ---- \n"
            ++ (r.not_matched ++ codes "\n ----- END NOT MATCHED ---- \n"));
  }

  -- decode
  unfoldable pub decode : ℕ → ℕ → IStream → WmoRaportState → Outcome (Bool × WmoRaportState)
  unfolding decode_loop not_matched_report
  decode fuel rounds s r = do
    r' ← decode_loop fuel rounds s (record r { not_matched = [] })
    returns (true, not_matched_report r')

  -- split
  unfoldable pub split :
      ℕ → ℕ → Bytes → WmoRaports → WmoRaportState → Outcome (Bool × WmoRaportState)
  unfolding decode
  split fuel rounds raport collect r =
      decode fuel rounds (reading false [] raport)
        (record r { error_str = []; raports_to_collect = collect })
