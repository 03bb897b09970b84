-- ===== src/Raport/Collected/File.antt =====
-- What split makes of a file of bulletins: from the bytes to the maps.
use kvnorcom.Prelude.{
  ℕ, suc, ◌<◌, ◌≤◌, ◌≡◌, refl, ap, ◌∙◌, Bool, true, false, not, ◌&&◌, ◌||◌, Bool-cases, inl, inr,
  Option, none, some, List, [], ◌∷◌, map, length, take, ltb, all, is_empty, arith,
}
use kvnorcom.Prelude.Bytes.{Bytes, codes, equal, lacks}
use kvnorcom.Outcome.{returns, Returns-exact, ◌>>=◌}
use kvnorcom.Framing.Bulletins.{IsFramed, message, print_all, size, line_of}
use kvnorcom.Lines.Reports.{line_end}
use kvnorcom.Lines.Reports.Whole.{IsTrimRight}
use kvnorcom.Raport.Kinds.{
  WmoRaport, WmoRaports, synop, metar, temp, pilo, arep, drau, bath, tide, bufr_surface, contains,
}
use kvnorcom.Raport.Handlers.{Library, WmoRaportState, do_not_implemented, bufr_message}
use kvnorcom.Raport.{noted, split, not_matched_report}
use kvnorcom.Raport.Split.{AllFramed, dispatch_one, dispatch_all, messages, split-print_all}
use kvnorcom.Raport.Collected.{
  Payload, section, bytes, Content, IsContent, text_of, collected, result_of, collected_of,
  collected_all, dispatch-collected,
}

module _ (lib : Library) (trims : IsTrimRight lib.trim_right) (crs : Bytes)
    (only_ends : all line_end crs ≡ true) (one_line : lacks b'\n' crs ≡ true) (junk : ℕ) where
  -- Each bulletin is in its frame, and there are rounds for it.
  abbrev pub AllContent : ℕ → List Content → Type 0
  AllContent fuel [] = Unit
  AllContent fuel (c ∷ cs) =
      IsFramed c.bulletin
      × (size c.bulletin ≤ fuel)
      × IsContent lib trims crs only_ends one_line junk c
      × AllContent fuel cs

  AllFramed-AllContent :
      (fuel : ℕ) (cs : List Content)
      → AllContent fuel cs
      → AllFramed fuel (map (λ c. c.bulletin) cs)
  AllFramed-AllContent fuel [] h = tt
  AllFramed-AllContent fuel (c ∷ cs) (framed, enough, content, others) =
      (framed, enough, AllFramed-AllContent fuel cs others)

  dispatch_one-collected :
      (fuel : ℕ) (c : Content) (r : WmoRaportState)
      → IsContent lib trims crs only_ends one_line junk c
      → size c.bulletin ≤ fuel
      → dispatch_one lib junk fuel (line_of lib.trimstr junk true c.bulletin, message c.bulletin) r
        ≡ returns (collected_of lib trims crs only_ends one_line junk c r)
  unfolding dispatch_one
  dispatch_one-collected fuel c r h enough =
      rw
        (
          dispatch_one,
          Returns-exact _ _ (
              dispatch-collected lib trims crs only_ends one_line junk c fuel
                (line_of lib.trimstr junk true c.bulletin) r h (omega arith)),
        )
        refl

  dispatch_all-collected :
      (fuel : ℕ) (cs : List Content) (r : WmoRaportState)
      → AllContent fuel cs
      → dispatch_all lib junk fuel (messages lib junk fuel (map (λ c. c.bulletin) cs)) r
        ≡ returns (collected_all lib trims crs only_ends one_line junk cs r)
  unfolding dispatch_all
  dispatch_all-collected fuel [] r h = refl
  dispatch_all-collected fuel (c ∷ cs) r (framed, enough, content, others) =
      rw (dispatch_one-collected fuel c r content enough) (
        dispatch_all-collected fuel cs (collected_of lib trims crs only_ends one_line junk c r)
          others)

  length-bulletins : (cs : List Content) → length (map (λ (c : Content). c.bulletin) cs) ≡ length cs
  length-bulletins [] = refl
  length-bulletins (c ∷ cs) = ap suc (length-bulletins cs)

  bufr_message-not_matched :
      (header line : Bytes) (r : WmoRaportState) (t : Bytes)
      → (bufr_message lib header line r t).1.not_matched ≡ r.not_matched
  unfolding bufr_message
  bufr_message-not_matched header line r t =
      elim (Bool-cases (ltb (length t) 4 || not (equal (take 4 t) (codes "BUFR")))) [
        | inl left ↦ rw left refl
        | inr put ↦ rw put refl
      ]

  collected-not_matched :
      (k : WmoRaport) (header line : Bytes) (p : Payload) (r : WmoRaportState)
      → (collected lib trims crs only_ends one_line junk k header line p r).1.not_matched
        ≡ r.not_matched
  unfolding do_not_implemented
  collected-not_matched synop header line (section r0 rs) r = refl
  collected-not_matched synop header line (bytes b) r = refl
  collected-not_matched metar header line (section r0 rs) r = refl
  collected-not_matched metar header line (bytes b) r = refl
  collected-not_matched temp header line p r = refl
  collected-not_matched pilo header line p r = refl
  collected-not_matched arep header line p r = refl
  collected-not_matched drau header line p r = refl
  collected-not_matched bath header line p r = refl
  collected-not_matched tide header line p r = refl
  collected-not_matched bufr_surface header line p r =
      bufr_message-not_matched header line r (text_of lib trims crs only_ends one_line junk p)

  result_of-not_matched :
      (kind : Option WmoRaport) (header line : Bytes) (p : Payload) (r : WmoRaportState)
      → (result_of lib trims crs only_ends one_line junk kind header line p r).1.not_matched
        ≡ r.not_matched
  result_of-not_matched none header line p r = refl
  result_of-not_matched (some k) header line p r =
      elim (Bool-cases
        (not (is_empty r.raports_to_collect) && not (contains r.raports_to_collect k))) [
          | inl left ↦ rw left refl
          | inr asked ↦ rw asked (collected-not_matched k header line p r)
        ]

  noted-not_matched :
      (msg : Bytes) (d : Bool × WmoRaportState)
      → (noted lib junk msg d).not_matched ≡ d.1.not_matched
  unfolding noted
  noted-not_matched msg (true, r) = refl
  noted-not_matched msg (false, r) = refl

  collected_of-not_matched :
      (c : Content) (r : WmoRaportState)
      → (collected_of lib trims crs only_ends one_line junk c r).not_matched ≡ r.not_matched
  collected_of-not_matched c r =
      noted-not_matched (message c.bulletin) _
      ∙ result_of-not_matched c.kind c.header (line_of lib.trimstr junk true c.bulletin) c.payload r

  collected_all-not_matched :
      (cs : List Content) (r : WmoRaportState)
      → (collected_all lib trims crs only_ends one_line junk cs r).not_matched ≡ r.not_matched
  collected_all-not_matched [] r = refl
  collected_all-not_matched (c ∷ cs) r =
      collected_all-not_matched cs (collected_of lib trims crs only_ends one_line junk c r)
      ∙ collected_of-not_matched c r

  nothing_to_report :
      (r : WmoRaportState)
      → lib.trim [] ≡ []
      → r.not_matched ≡ []
      → not_matched_report lib junk r ≡ r
  unfolding not_matched_report
  nothing_to_report r blank e = rw (not_matched_report, ap lib.trim e ∙ blank) refl

  -- A file of bulletins in their frames, of any type or of none. Behind a header stands anything that
  -- begins with no tab or line end; behind that of a SYNOP or METAR bulletin stand reports, one at
  -- least. A header has only letters, digits, blanks, '/' and '=', begins with no blank, and its type
  -- is that of the first pattern that it matches, if there is one. A report is lines that end in text:
  -- the first one has such characters too, the others have no line feed and begin with no tab or line
  -- end, and there is one '=', at the end of the last line. Behind the header, and between reports and
  -- lines, stands a line feed with `crs` in front of it, tabs or carriage returns. trim_right takes off
  -- what is blank at the end of a text, and trim leaves the empty text. There is a round for each
  -- bulletin and one more, and for the loops inside as many as the frame of each has characters, and
  -- five more. Then split returns true, and has gone through the bulletins in the order of the file.
  -- One of no type, or of a type that is not asked for where types are, has changed nothing. The
  -- map of SYNOP or METAR has gained what its handler's body makes of the reports one by one: of
  -- the whole text of each, in their order, with the empty keys removed behind the bulletin. A BUFR
  -- bulletin has been put into its map as a whole, encoded with its line and its header, or, where it
  -- does not begin with BUFR, into the text of the errors; that text has a line for each bulletin of
  -- the other types too. The rest of the object is as it was at the start.
  pub split-collected :
      (fuel rounds : ℕ) (c : Content) (cs : List Content) (asked : WmoRaports) (r : WmoRaportState)
      → lib.trim [] ≡ []
      → AllContent fuel (c ∷ cs)
      → length (c ∷ cs) < rounds
      → split lib junk fuel rounds (print_all (map (λ d. d.bulletin) (c ∷ cs))) asked r
        ≡ returns (
          true,
          collected_all lib trims crs only_ends one_line junk
              (c ∷ cs)
              (record r { error_str = []; raports_to_collect = asked; not_matched = [] }),
        )
  split-collected fuel rounds c cs asked r blank h n =
      let start = record r { error_str = []; raports_to_collect = asked; not_matched = [] } in
      let end = collected_all lib trims crs only_ends one_line junk (c ∷ cs) start in
      split-print_all lib junk fuel rounds c.bulletin (map (λ d. d.bulletin) cs) asked r
        (AllFramed-AllContent fuel (c ∷ cs) h) (omega (arith, length-bulletins cs))
      ∙ ap (λ m. m >>= λ r'. returns (true, not_matched_report lib junk r'))
          (dispatch_all-collected fuel (c ∷ cs) start h)
      ∙ ap (λ r'. returns (true, r'))
          (nothing_to_report end blank (collected_all-not_matched (c ∷ cs) start))
