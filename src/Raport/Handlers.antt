-- ===== src/Raport/Handlers.antt =====
-- The handlers of the types of bulletin: doSYNOP, doMETAR, doTEMP, ..., doBUFR_SURFACE.
use kvnorcom.Prelude.{
  ℕ, zero, suc, Bool, true, false, not, ◌||◌, Option, none, some, [], ◌∷◌, ◌++◌, ltb, length, take,
  is_empty, ◌==◌, if◌then◌else◌,
}
use kvnorcom.Prelude.Bytes.{Bytes, codes, equal}
use kvnorcom.Outcome.{Outcome, returns, running, ◌>>=◌}
use kvnorcom.Stream.{IStream}
use kvnorcom.Lines.{TextLibrary, Report, read_report, read_to_eof}
use kvnorcom.Raport.Kinds.{WmoRaports}
use kvnorcom.Raport.Messages.{MsgMap, msg_info, msg_info_extra, push_back, remove_empty_keys}

-- What the program calls in other libraries: boost::algorithm and miutil on texts,
-- boost::regex_match (of a pattern and a text: the sub-matches, an empty text for one that took no
-- part), and miutil::encode64.
pub record Library : Type 0 where
  pub texts : TextLibrary
  pub open texts use *
  pub regex_match : Bytes → Bytes → Option (ℕ → Bytes)
  pub encode64 : Bytes → Bytes

-- The object; `lineno` and `warnAsError` are never read.
pub record WmoRaportState : Type 0 where
  pub error_str : Bytes
  pub not_matched : Bytes
  pub synop_map : MsgMap
  pub temp_map : MsgMap
  pub metar_map : MsgMap
  pub pilo_map : MsgMap
  pub arep_map : MsgMap
  pub drau_map : MsgMap
  pub bath_map : MsgMap
  pub tide_map : MsgMap
  pub bufr_surface_map : MsgMap
  pub error_map : MsgMap
  pub raports_to_collect : WmoRaports

-- What string::c_str gives to a function that takes a C string.
unfoldable pub c_str : Bytes → Bytes
c_str [] = []
c_str (c ∷ cs) = elim (c == 0) [ true ↦ [] | false ↦ c ∷ c_str cs ]

-- The patterns that are not of headers.
abbrev pub synop_type : Bytes
synop_type = codes "(^ *((AA|BB|OO)XX *(\\d{4}.)? *(\\w+)?))?(.*)"

abbrev pub synop_is_nil : Bytes
synop_is_nil = codes "^\\s*(\\d+)? *NIL *=?\\s*"

abbrev pub metar_type : Bytes
metar_type = codes "(^ *(METAR|SPECI))?(.*)"

-- The variables of doSYNOP, and of doMETAR, which has no `skip`.
pub record Section : Type 0 where
  pub skip : Bool
  pub ident : Bytes
  pub messages : MsgMap

module _ (lib : Library) where
  -- The part of doSYNOP's loop that looks at one sub-match list.
  synop_match : (ℕ → Bytes) → Section → Section
  synop_match what v =
      if ltb 0 (length (what 2))
      then record v { ident = what 2; skip = equal (what 3) (codes "OO") }
      else v

  synop_text : Bytes → Section → Section
  synop_text line v =
      if is_empty line || v.skip || is_empty v.ident
      then v
      else elim (lib.regex_match synop_is_nil (c_str (lib.trim line))) [
        | some _ ↦ v
        | none ↦ record v {
          messages = push_back (msg_info v.ident true) (lib.trim line) v.messages;
        }
      ]

  -- The body of doSYNOP's loop.
  unfoldable pub synop_report : Bytes → Section → Section
  unfolding synop_match synop_text
  synop_report line v = elim (lib.regex_match synop_type (c_str (lib.trim_right line))) [
    | none ↦ v
    | some what ↦ synop_text (what 6) (synop_match what v)
  ]

  metar_match : (ℕ → Bytes) → Section → Section
  metar_match what v = if length (what 2) == 0 then v else record v { ident = what 2 }

  -- The body of doMETAR's loop.
  unfoldable pub metar_report : Bytes → Section → Section
  unfolding metar_match
  metar_report line v = elim (lib.regex_match metar_type (c_str line)) [
    | none ↦ v
    | some what ↦
        let text = lib.trim (what 3) in
        let w = metar_match what v in
        if is_empty text
        then w
        else record w { messages = push_back (msg_info w.ident true) text w.messages }
  ]

  -- `do ... while( readReport( ist, line ) )`
  unfoldable pub report_rounds :
      (Bytes → Section → Section) → ℕ → ℕ → Bytes → Section → IStream → Outcome Section
  report_rounds body junk zero line v s = running
  report_rounds body junk (suc fuel) line v s =
      let again : Report → Outcome Section =
        λ r. report_rounds body junk fuel r.text (body line v) r.stream in
      do
        r ← read_report lib.texts junk (suc fuel) s
        elim r.filled [ true ↦ again r | false ↦ returns (body line v) ]

  -- The whole of both handlers: `messages` is the map, with its empty keys removed.
  unfoldable pub read_section :
      (Bytes → Section → Section) → ℕ → ℕ → IStream → MsgMap → Outcome MsgMap
  unfolding report_rounds
  read_section body junk fuel s m = do
    r ← read_report lib.texts junk fuel s
    if not r.filled then returns m else (do
      v ←
          report_rounds body junk fuel r.text (record { skip = false; ident = []; messages = m })
            r.stream
      returns (remove_empty_keys lib.trim v.messages))

  -- doSYNOP
  unfoldable pub do_synop : ℕ → ℕ → IStream → WmoRaportState → Outcome (Bool × WmoRaportState)
  do_synop junk fuel s r = do
    m ← read_section synop_report junk fuel s r.synop_map
    returns (true, record r { synop_map = m })

  -- doMETAR
  unfoldable pub do_metar : ℕ → ℕ → IStream → WmoRaportState → Outcome (Bool × WmoRaportState)
  do_metar junk fuel s r = do
    m ← read_section metar_report junk fuel s r.metar_map
    returns (true, record r { metar_map = m })

  -- doBUFR_SURFACE on all that the stream holds.
  unfoldable pub bufr_message : Bytes → Bytes → WmoRaportState → Bytes → Bool × WmoRaportState
  bufr_message header line r bytes =
      if ltb (length bytes) 4 || not (equal (take 4 bytes) (codes "BUFR")) then (false, r) else (
        true,
        record r {
          bufr_surface_map =
              push_back (msg_info_extra (codes "bufr_surface") (codes "encoding=base64") false)
                (lib.encode64 (line ++ (b'\n' ∷ (header ++ b'\n' ∷ bytes)))) r.bufr_surface_map;
        },
      )

  -- doBUFR_SURFACE
  unfoldable pub do_bufr_surface :
      ℕ → Bytes → Bytes → IStream → WmoRaportState → Outcome (Bool × WmoRaportState)
  unfolding bufr_message
  do_bufr_surface fuel header line s r = do
    p ← read_to_eof fuel [] s
    returns (bufr_message header line r p.0)

-- doTEMP, doPILO, doAREP, doDRAU, doBATH and doTIDE, which differ by the name in the text.
unfoldable pub do_not_implemented : Bytes → Bytes → WmoRaportState → Bool × WmoRaportState
do_not_implemented name header r = (
  true,
  record r {
    error_str = r.error_str ++ (name ++ (codes ": not implemented: " ++ (header ++ b'\n' ∷ [])));
  },
)
