-- ===== src/Tests/Split.antt =====
-- split on a concrete file of two bulletins.
use kvnorcom.Prelude.{[], ◌∷◌, ◌≡◌, refl, true, Bool, arith}
use kvnorcom.Prelude.Bytes.{codes}
use kvnorcom.Outcome.{returns, Returns, ◌>>=◌}
use kvnorcom.Framing.{valid_char}
use kvnorcom.Framing.Bulletins.{Bulletin, IsFramed, print_all}
use kvnorcom.Raport.{no_messages, split, not_matched_report}
use kvnorcom.Raport.Kinds.{WmoRaports, synop, bufr_surface}
use kvnorcom.Raport.Handlers.{WmoRaportState}
use kvnorcom.Raport.Split.{AllFramed, dispatch_all, messages, split-print_all}
use kvnorcom.Raport.Asked.{OnlyAsked, split-OnlyAsked}
use kvnorcom.Tests.Raport.{plain}

abbrev synop_bulletin : Bulletin
synop_bulletin = record {
  before = codes "\n";
  header = codes " 123\r\r\n";
  first = b'S';
  body = codes "MNO01 ENMI 010600\r\r\nAAXX 01061\r\r\n01001 NIL=";
  eols = codes "\r\r\n\n\n\n";
  crs = codes "\r\r";
}

abbrev bufr_bulletin : Bulletin
bufr_bulletin = record synop_bulletin { first = b'I'; body = codes "SMN01 ENMI 010600\nBUFR7777." }

IsFramed-synop : IsFramed synop_bulletin
unfolding valid_char
IsFramed-synop = record {
  before_lacks = refl;
  header_chars = refl;
  header_line = refl;
  first_other = refl;
  unmarked = refl;
  body_ends = refl;
  eols_are = refl;
  eols_enough = omega arith;
  crs_are = refl;
}

IsFramed-bufr : IsFramed bufr_bulletin
unfolding valid_char
IsFramed-bufr = record {
  before_lacks = refl;
  header_chars = refl;
  header_line = refl;
  first_other = refl;
  unmarked = refl;
  body_ends = refl;
  eols_are = refl;
  eols_enough = omega arith;
  crs_are = refl;
}

two_framed : AllFramed 200 (synop_bulletin ∷ bufr_bulletin ∷ [])
two_framed = (IsFramed-synop, (omega arith), (IsFramed-bufr, (omega arith), tt))

abbrev asked : WmoRaports
asked = synop ∷ bufr_surface ∷ []

split-print_all_example :
    split plain 0 200 3 (print_all (synop_bulletin ∷ bufr_bulletin ∷ [])) asked (no_messages []) ≡ (
      dispatch_all plain 0 200
        (messages plain 0 200 (synop_bulletin ∷ bufr_bulletin ∷ []))
        (record (no_messages []) { error_str = []; raports_to_collect = asked; not_matched = [] })
      >>= λ r'. returns (true, not_matched_report plain 0 r'))
split-print_all_example =
    split-print_all plain 0 200 3 synop_bulletin (bufr_bulletin ∷ []) asked (no_messages [])
      two_framed (omega arith)

split-OnlyAsked_example :
    Returns
      (λ (p : Bool × WmoRaportState). (p.0 ≡ true) × OnlyAsked asked p.1)
      (split plain 0 200 3 (print_all (synop_bulletin ∷ bufr_bulletin ∷ [])) asked (no_messages []))
split-OnlyAsked_example =
    split-OnlyAsked asked refl plain 0 200 3 synop_bulletin (bufr_bulletin ∷ []) two_framed
      (omega arith)
