-- ===== src/Raport/Collected.antt =====
-- What a bulletin gives: from its message to the maps.
pub mod File
use kvnorcom.Prelude.{
  ℕ, zero, suc, ◌+◌, ◌<◌, ◌≤◌, ◌≡◌, refl, sym, ap, ◌∙◌, Bool, true, false, not, ◌&&◌, Bool-cases,
  inl, inr, List, [], ◌∷◌, ◌++◌, map, append_assoc, length, length-append, all, is_empty,
  is_empty-append, Option, none, some, if◌then◌else◌, arith,
}
use mathlib.Core.Path.{subst}
use kvnorcom.Prelude.Bytes.{Bytes, codes, lacks}
use kvnorcom.Outcome.{Outcome, returns, Returns, Returns-bind, Returns-exact, ◌>>=◌}
use kvnorcom.Stream.{IStream, reading}
use kvnorcom.Framing.Bulletins.{Bulletin, IsFramed, message, print_all, size, line_of}
use kvnorcom.Lines.{skip_empty_lines, read_to_eof}
use kvnorcom.Lines.Reports.{
  At, live, IsFirst, StartsOther, is_empty-IsFirst, line_end, skip_empty_lines-At,
}
use kvnorcom.Lines.Reports.Eof.{read_to_eof-At}
use kvnorcom.Lines.Reports.Whole.{IsTrimRight, all-eol}
use kvnorcom.Raport.Kinds.{
  WmoRaport, WmoRaports, synop, metar, temp, pilo, arep, drau, bath, tide, bufr_surface, contains,
}
use kvnorcom.Raport.Messages.{MsgMap, remove_empty_keys}
use kvnorcom.Raport.Handlers.{
  Library, WmoRaportState, Section, synop_report, metar_report, read_section, do_synop, do_metar,
  do_not_implemented, bufr_message, do_bufr_surface,
}
use kvnorcom.Raport.{
  header_patterns, classify, handler, do_dispatch, dispatch_on, dispatch, noted, split,
  not_matched_report,
}
use kvnorcom.Raport.Split.{AllFramed, dispatch_one, dispatch_all, messages, split-print_all}
use kvnorcom.Raport.Sections.{
  handled, print_reports, AllReports, starts-AllReports, begin_section, read_section-handled,
}

-- What stands behind a header: reports, of which there is one at least, or anything else.
pub data Payload : Type 0 where
  section : Bytes × List Bytes → List (Bytes × List Bytes) → Payload
  bytes : Bytes → Payload

-- A bulletin with what it holds; the type is that of its header.
pub record Content : Type 0 where
  pub bulletin : Bulletin
  pub header : Bytes
  pub kind : Option WmoRaport
  pub payload : Payload

-- The bulletins of SYNOP and METAR hold reports.
abbrev pub Fits : Option WmoRaport → Payload → Type 0
Fits (some synop) (bytes b) = ⊥
Fits (some metar) (bytes b) = ⊥
Fits kind payload = Unit

module _ (lib : Library) (trims : IsTrimRight lib.trim_right) (crs : Bytes)
    (only_ends : all line_end crs ≡ true) (one_line : lacks b'\n' crs ≡ true) (junk : ℕ) where
  -- The map of a type, with the reports handed to the body of its handler one by one.
  abbrev pub messages_with :
      (Bytes → Section → Section) → List (Bytes × List Bytes) → MsgMap → MsgMap
  messages_with body rs m =
      remove_empty_keys lib.trim
        (handled body rs (begin_section lib trims crs only_ends one_line junk true m)).messages

  abbrev pub text_of : Payload → Bytes
  text_of (section r0 rs) = print_reports lib trims crs only_ends one_line (r0 ∷ rs)
  text_of (bytes b) = b

  -- What a handler returns and leaves, by its type: SYNOP and METAR have their reports put into the
  -- map, a BUFR message is put into its map as a whole, and the others are not implemented.
  abbrev pub collected :
      WmoRaport → Bytes → Bytes → Payload → WmoRaportState → Bool × WmoRaportState
  collected synop header line (section r0 rs) r =
      (true, record r { synop_map = messages_with (synop_report lib) (r0 ∷ rs) r.synop_map })
  collected synop header line (bytes b) r = (true, r)
  collected metar header line (section r0 rs) r =
      (true, record r { metar_map = messages_with (metar_report lib) (r0 ∷ rs) r.metar_map })
  collected metar header line (bytes b) r = (true, r)
  collected temp header line p r = do_not_implemented (codes "TEMP") header r
  collected pilo header line p r = do_not_implemented (codes "PILO") header r
  collected arep header line p r = do_not_implemented (codes "AREP") header r
  collected drau header line p r = do_not_implemented (codes "DRAU") header r
  collected bath header line p r = do_not_implemented (codes "BATH") header r
  collected tide header line p r = do_not_implemented (codes "TIDE") header r
  collected bufr_surface header line p r = bufr_message lib header line r (text_of p)

  -- A type that is not asked for, and a header of no type, are left out.
  abbrev pub result_of :
      Option WmoRaport → Bytes → Bytes → Payload → WmoRaportState → Bool × WmoRaportState
  result_of none header line p r = (true, r)
  result_of (some k) header line p r =
      if not (is_empty r.raports_to_collect) && not (contains r.raports_to_collect k)
      then (true, r)
      else collected k header line p r

  abbrev pub collected_of : Content → WmoRaportState → WmoRaportState
  collected_of c r =
      noted lib junk (message c.bulletin)
        (result_of c.kind c.header (line_of lib.trimstr junk true c.bulletin) c.payload r)

  abbrev pub collected_all : List Content → WmoRaportState → WmoRaportState
  collected_all [] r = r
  collected_all (c ∷ cs) r = collected_all cs (collected_of c r)

  abbrev pub IsPayload : Payload → Type 0
  IsPayload (section r0 rs) = AllReports lib trims crs only_ends one_line (r0 ∷ rs)
  IsPayload (bytes b) = StartsOther (codes "\t\r\n") b

  -- The bulletin's message is its header and what stands behind it, and the header is of its type.
  abbrev pub IsContent : Content → Type 0
  IsContent c =
      Fits c.kind c.payload
      × (classify lib junk header_patterns c.header ≡ c.kind)
      × IsFirst c.header
      × IsPayload c.payload
      × (message c.bulletin ≡ c.header ++ (crs ++ b'\n' ∷ text_of c.payload))

  starts-IsPayload : (p : Payload) → IsPayload p → StartsOther (codes "\t\r\n") (text_of p)
  starts-IsPayload (section r0 rs) h = starts-AllReports lib trims crs only_ends one_line r0 rs h
  starts-IsPayload (bytes b) h = h

  section-collected :
      (body : Bytes → Section → Section) (f : ℕ) (m : MsgMap) (s : IStream)
      (put : MsgMap → WmoRaportState) (r0 : Bytes × List Bytes) (rs : List (Bytes × List Bytes))
      → IsPayload (section r0 rs)
      → At true (text_of (section r0 rs)) s
      → length (text_of (section r0 rs)) + 1 < f
      → Returns {A = Bool × WmoRaportState}
          (λ u. u ≡ (true, put (messages_with body (r0 ∷ rs) m)))
          (read_section lib body junk f s m >>= λ m'. returns (true, put m'))
  section-collected body f m s put r0 rs h at n =
      Returns-bind (λ m'. m' ≡ messages_with body (r0 ∷ rs) m)
        (λ u. u ≡ (true, put (messages_with body (r0 ∷ rs) m))) (read_section lib body junk f s m) _
        (read_section-handled lib trims crs only_ends one_line junk true body f r0 rs m s h at n)
        (λ m' e. ap (λ x. (true, put x)) e)

  bufr-collected :
      (f : ℕ) (header line : Bytes) (p : Payload) (r : WmoRaportState) (s : IStream)
      → At true (text_of p) s
      → length (text_of p) + 1 < f
      → Returns {A = Bool × WmoRaportState}
          (λ u. u ≡ bufr_message lib header line r (text_of p))
          (do_bufr_surface lib f header line s r)
  unfolding do_bufr_surface
  bufr-collected f header line p r s at n =
      Returns-bind (λ q. q.0 ≡ text_of p) (λ u. u ≡ bufr_message lib header line r (text_of p))
        (read_to_eof f [] s) _ (read_to_eof-At f [] (text_of p) true s at n)
        (λ q e. ap (bufr_message lib header line r) e)

  handler-collected :
      (k : WmoRaport) (f : ℕ) (header line : Bytes) (p : Payload) (r : WmoRaportState) (s : IStream)
      → Fits (some k) p
      → IsPayload p
      → At true (text_of p) s
      → length (text_of p) + 1 < f
      → Returns {A = Bool × WmoRaportState}
          (λ u. u ≡ collected k header line p r)
          (handler lib junk k f header line s r)
  unfolding handler do_synop do_metar
  handler-collected synop f header line (section r0 rs) r s fits h at n =
      section-collected (synop_report lib) f r.synop_map s (λ m. record r { synop_map = m }) r0 rs h
        at n
  handler-collected synop f header line (bytes b) r s fits h at n = absurd fits
  handler-collected metar f header line (section r0 rs) r s fits h at n =
      section-collected (metar_report lib) f r.metar_map s (λ m. record r { metar_map = m }) r0 rs h
        at n
  handler-collected metar f header line (bytes b) r s fits h at n = absurd fits
  handler-collected temp f header line p r s fits h at n = refl
  handler-collected pilo f header line p r s fits h at n = refl
  handler-collected arep f header line p r s fits h at n = refl
  handler-collected drau f header line p r s fits h at n = refl
  handler-collected bath f header line p r s fits h at n = refl
  handler-collected tide f header line p r s fits h at n = refl
  handler-collected bufr_surface f header line p r s fits h at n =
      bufr-collected f header line p r s at n

  do_dispatch-collected :
      (k : WmoRaport) (f : ℕ) (header line : Bytes) (p : Payload) (r : WmoRaportState) (s : IStream)
      → Fits (some k) p
      → IsPayload p
      → At true (text_of p) s
      → length (text_of p) + 1 < f
      → Returns {A = Bool × WmoRaportState}
          (λ u. u ≡ result_of (some k) header line p r)
          (do_dispatch lib junk k f header line s r)
  unfolding do_dispatch
  do_dispatch-collected k f header line p r s fits h at n =
      elim (Bool-cases
        (not (is_empty r.raports_to_collect) && not (contains r.raports_to_collect k))) [
          | inl left ↦ rw (do_dispatch, left) refl
          | inr asked ↦
              rw (do_dispatch, asked) (handler-collected k f header line p r s fits h at n)
        ]

  length-message :
      (header : Bytes) (rest : Bytes)
      → length (header ++ (crs ++ b'\n' ∷ rest)) ≡ length header + length crs + 1 + length rest
  length-message header rest =
      omega (arith, length-append header (crs ++ b'\n' ∷ rest), length-append crs (b'\n' ∷ rest))

  dispatch_on-collected :
      (kind : Option WmoRaport) (f : ℕ) (header line : Bytes) (p : Payload) (r : WmoRaportState)
      (s : IStream)
      → Fits kind p
      → classify lib junk header_patterns header ≡ kind
      → IsFirst header
      → IsPayload p
      → At true (text_of p) s
      → length (text_of p) + 1 < f
      → Returns {A = Bool × WmoRaportState}
          (λ u. u ≡ result_of kind header line p r)
          (dispatch_on lib junk f line r (header, s))
  unfolding dispatch_on
  dispatch_on-collected none f header line p r s fits matches first h at n =
      rw (dispatch_on, is_empty-IsFirst header first, matches) refl
  dispatch_on-collected (some k) f header line p r s fits matches first h at n =
      rw (dispatch_on, is_empty-IsFirst header first, matches)
        (do_dispatch-collected k f header line p r s fits h at n)

  pub dispatch-collected :
      (c : Content) (f : ℕ) (line : Bytes) (r : WmoRaportState)
      → IsContent c
      → length (message c.bulletin) + 1 < f
      → Returns {A = Bool × WmoRaportState}
          (λ u. u ≡ result_of c.kind c.header line c.payload r)
          (dispatch lib junk f line (reading true [] (message c.bulletin)) r)
  unfolding dispatch
  dispatch-collected c f line r (fits, matches, first, h, text) n =
      let rest = text_of c.payload in
      let long = ap length text ∙ length-message c.header rest in
      let parts : message c.bulletin ≡ c.header ++ ((crs ++ b'\n' ∷ []) ++ rest) =
        text ∙ ap (λ x. c.header ++ x) (sym (append_assoc crs (b'\n' ∷ []) rest)) in
      Returns-bind (λ p. (p.0 ≡ c.header) × At true rest p.1)
        (λ u. u ≡ result_of c.kind c.header line c.payload r)
        (skip_empty_lines junk f (reading true [] (message c.bulletin)))
        (dispatch_on lib junk f line r)
        (skip_empty_lines-At junk f c.header (crs ++ b'\n' ∷ []) rest true
          (reading true [] (message c.bulletin)) first (is_empty-append crs [] b'\n')
          (all-eol lib.texts trims crs only_ends one_line crs only_ends)
          (starts-IsPayload c.payload h) (rw parts (live [] _))
          (omega (arith, long, length-append crs (b'\n' ∷ []))))
        (λ (header, s) (e, at).
          subst
            (λ x.
              Returns {A = Bool × WmoRaportState}
                (λ u. u ≡ result_of c.kind c.header line c.payload r)
                (dispatch_on lib junk f line r (x, s)))
            (sym e)
            (dispatch_on-collected c.kind f c.header line c.payload r s fits matches first h at
              (omega (arith, long))))
