-- ===== src/Collector/Sent/Bulletins.antt =====
-- From the bytes of a file of bulletins to what kvalobs is given.
use kvnorcom.Prelude.{ℕ, ◌<◌, ◌≡◌, true, false, List, [], ◌∷◌, map, length, all}
use kvnorcom.Prelude.Bytes.{Bytes, lacks}
use kvnorcom.Outcome.{Returns}
use kvnorcom.Framing.Bulletins.{print_all}
use kvnorcom.Lines.Reports.{line_end}
use kvnorcom.Lines.Reports.Whole.{IsTrimRight}
use kvnorcom.Raport.{no_messages}
use kvnorcom.Raport.Handlers.{Library, WmoRaportState}
use kvnorcom.Raport.Collected.{Content, collected_all}
use kvnorcom.Raport.Collected.File.{AllContent, split-collected}
use kvnorcom.Config.{Config, raports_to_collect}
use kvnorcom.System.{System}
use kvnorcom.Delivery.Sent.{IsLog, Adds}
use kvnorcom.Collector.{do_new_obs}
use kvnorcom.Collector.Sent.{sent_of, do_new_obs-Adds}

module _ {W : Type 0} (sys : System W) (log : W → List (Bytes × Bytes)) (is_log : IsLog sys log)
    (conf : Config) (lib : Library) (trims : IsTrimRight lib.trim_right) (crs : Bytes)
    (only_ends : all line_end crs ≡ true) (one_line : lacks b'\n' crs ≡ true)
    (junk fuel rounds : ℕ) where
  -- The object that doNewObs has when it has split the bulletins.
  abbrev pub object : List Content → WmoRaportState
  object cs =
      collected_all lib trims crs only_ends one_line junk cs
        (no_messages (raports_to_collect conf.raports []))

  -- A new part of a file holds bulletins in their frames, of any type or of none, and the program
  -- is not in test mode. Behind a header stands anything that
  -- begins with no tab or line end; behind that of a SYNOP or METAR bulletin stand reports, one at
  -- least. A header has only letters, digits, blanks, '/' and '=', begins with no blank, and its type
  -- is that of the first pattern that it matches, if there is one. A report is lines that end in text:
  -- the first one has such characters too, the others have no line feed and begin with no tab or line
  -- end, and there is one '=', at the end of the last line. Behind the header, and between reports and
  -- lines, stands a line feed with `crs` in front of it, tabs or carriage returns. trim_right takes off
  -- what is blank at the end of a text, and trim leaves the empty text. There is a round for each
  -- bulletin and one more, and for the loops inside as many as the frame of each has characters, and
  -- five more. Then doNewObs returns, whatever the system and kvalobs answer, and has given
  -- to the main kvalobs what the handlers make of the bulletins that are asked for, of the types that
  -- have a decoder: the text of each message with its decoder, once, in the order of the types, of the
  -- maps and of their lists; and nothing else.
  pub do_new_obs-bulletins :
      (file_name : Bytes) (c : Content) (cs : List Content) (w : W)
      → conf.test ≡ false
      → lib.trim [] ≡ []
      → AllContent lib trims crs only_ends one_line junk fuel (c ∷ cs)
      → length (c ∷ cs) < rounds
      → Returns
          (Adds sys log is_log
            (sent_of sys log is_log conf lib junk fuel rounds (object (c ∷ cs)))
            w)
          (do_new_obs sys conf lib junk fuel rounds file_name
            (print_all (map (λ d. d.bulletin) (c ∷ cs)))
            w)
  do_new_obs-bulletins file_name c cs w no_test blank h n =
      do_new_obs-Adds sys log is_log conf lib junk fuel rounds file_name _ (object (c ∷ cs)) w
        no_test
        (split-collected lib trims crs only_ends one_line junk fuel rounds c cs
          (raports_to_collect conf.raports []) (no_messages []) blank h n)
