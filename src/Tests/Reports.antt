-- ===== src/Tests/Reports.antt =====
-- A file with bulletins of several types, from its bytes to what kvalobs is given.
use kvnorcom.Prelude.{
  ℕ, ◌≡◌, refl, true, false, ◌&&◌, ◌==◌, none, some, List, [], ◌∷◌, ◌++◌, map, all, all-head,
  all-tail, take, is_empty, if◌then◌else◌, arith,
}
use kvnorcom.Prelude.Bytes.{Bytes, codes, equal, last_or}
use kvnorcom.Framing.{valid_char}
use kvnorcom.Framing.Zczc.{in_header}
use kvnorcom.Framing.Steps.{is_mark, no_nnnn}
use kvnorcom.Framing.Bulletins.{Bulletin, IsFramed, print_all}
use kvnorcom.Lines.{is_alnum}
use kvnorcom.Raport.{no_messages, classify, noted, split}
use kvnorcom.Map.{modify}
use kvnorcom.Map.Order.{less}
use kvnorcom.Outcome.{returns, Returns}
use kvnorcom.Raport.Kinds.{WmoRaports, synop, bufr_surface}
use kvnorcom.Raport.Messages.{msg_info, msg_info_extra, push_back, remove_empty_keys}
use kvnorcom.Delivery.Sent.{Adds}
use kvnorcom.Tests.Delivery.{recorder, recorder-IsLog, for_synop}
use kvnorcom.Raport.Handlers.{
  Library, WmoRaportState, c_str, synop_type, synop_report, bufr_message,
}
use kvnorcom.Raport.Collected.{section, bytes, Content, collected_all}
use kvnorcom.Raport.Collected.File.{AllContent, split-collected}
use kvnorcom.Collector.{do_new_obs}
use kvnorcom.Collector.Sent.{sent_of}
use kvnorcom.Collector.Sent.Bulletins.{object, do_new_obs-bulletins}
use kvnorcom.Lines.Reports.{line_end}
use kvnorcom.Lines.Reports.Whole.{is_space, IsTrimRight}

-- The text without what is blank at its end.
trim_blank : Bytes → Bytes
trim_blank [] = []
trim_blank (c ∷ t) = let rest = trim_blank t in if is_empty rest && is_space c then [] else c ∷ rest

trim_blank-blanks : (ws : Bytes) → all is_space ws ≡ true → trim_blank ws ≡ []
unfolding trim_blank
trim_blank-blanks [] h = refl
trim_blank-blanks (c ∷ ws) h =
    rw (trim_blank-blanks ws (all-tail is_space c ws h), all-head is_space c ws h) refl

trim_blank-text : (c y : ℕ) (t ys : Bytes) → trim_blank t ≡ y ∷ ys → trim_blank (c ∷ t) ≡ c ∷ y ∷ ys
unfolding trim_blank
trim_blank-text c y t ys e = rw e refl

trim_blank-IsTrimRight : IsTrimRight trim_blank
unfolding trim_blank
trim_blank-IsTrimRight [] ws h hs = trim_blank-blanks ws hs
trim_blank-IsTrimRight (c ∷ []) ws h hs = rw (trim_blank-blanks ws hs, h) refl
trim_blank-IsTrimRight (c ∷ d ∷ t) ws h hs =
    trim_blank-text c d (d ∷ t ++ ws) t (trim_blank-IsTrimRight (d ∷ t) ws h hs)

-- A header that begins with S is that of a SYNOP bulletin, one that begins with I that of a BUFR
-- bulletin, and each report stands under AAXX as it is.
abbrev library : Library
library = record {
  texts = record { trim = trim_blank; trim_right = trim_blank; trimstr = λ t. t };
  regex_match = λ p t.
      if equal p (codes "^ *S(I|M|N)\\w{4} +\\w+ +\\d+ *\\w*") && equal (take 1 t) (codes "S")
      then some (λ i. [])
      else if equal p (codes "^ *IS(I|M|N)\\w{3} +\\w+ +\\d+ *\\w*") && equal (take 1 t) (codes "I")
      then some (λ i. [])
      else if equal p synop_type
      then some (λ i. if i == 6 then t else codes "AAXX")
      else none;
  encode64 = λ t. t;
}

-- Two reports, the second one of two lines.
abbrev content : Content
content = record {
  bulletin = record {
    before = codes "\n";
    header = codes " 123\r\r\n";
    first = b'S';
    body = codes "MNO01 ENMI 010600\r\r\n01001 NIL=\r\r\n01002 12345\r\r\n  333 6789=";
    eols = codes "\r\r\n\n\n\n";
    crs = codes "\r\r";
  };
  kind = some synop;
  header = codes "SMNO01 ENMI 010600";
  payload = section (codes "01001 NIL=", []) ((codes "01002 12345", codes "  333 6789=" ∷ []) ∷ []);
}

-- A bulletin in such a frame, with a header of one line.
abbrev bulletin_with : ℕ → Bytes → Bulletin
bulletin_with first body = record content.bulletin { first = first; body = body }

abbrev bufr_content : Content
bufr_content = record {
  bulletin = bulletin_with b'I' (codes "SMN01 ENMI 010600\r\r\nBUFR7777");
  kind = some bufr_surface;
  header = codes "ISMN01 ENMI 010600";
  payload = bytes (codes "BUFR7777");
}

-- A bulletin of no type.
abbrev other_content : Content
other_content = record {
  bulletin = bulletin_with b'F' (codes "PNO01 ENMI 010600\r\r\nfine weather");
  kind = none;
  header = codes "FPNO01 ENMI 010600";
  payload = bytes (codes "fine weather");
}

abbrev contents : List Content
contents = bufr_content ∷ other_content ∷ []

IsFramed-content : IsFramed content.bulletin
unfolding valid_char
IsFramed-content = record {
  before_lacks = refl;
  header_chars = refl;
  header_line = refl;
  first_other = refl;
  unmarked = refl;
  body_ends = refl;
  eols_are = refl;
  eols_enough = omega arith;
  crs_are = refl;
}

IsFramed-bulletin_with :
    (first : ℕ) (body : Bytes)
    → in_header first ≡ false
    → no_nnnn 0 (first ∷ body) ≡ true
    → is_mark (last_or first body) ≡ false
    → IsFramed (bulletin_with first body)
unfolding valid_char
IsFramed-bulletin_with first body other unmarked ends = record {
  before_lacks = refl;
  header_chars = refl;
  header_line = refl;
  first_other = other;
  unmarked = unmarked;
  body_ends = ends;
  eols_are = refl;
  eols_enough = omega arith;
  crs_are = refl;
}

crs_are_ends : all line_end (codes "\r\r") ≡ true
unfolding valid_char
crs_are_ends = refl

AllContent-content :
    AllContent library trim_blank-IsTrimRight
      (codes "\r\r")
      crs_are_ends
      refl
      0
      200
      (content ∷ contents)
unfolding valid_char is_alnum classify equal c_str
AllContent-content = (
  IsFramed-content,
  omega arith,
  (
    tt,
    refl,
    (refl, refl),
    (
      ((refl, refl), refl, (codes "01001 NIL", refl, refl), tt),
      (
        ((refl, refl), refl, (refl, (codes "  333 6789", refl, refl)), ((refl, refl, refl), tt)),
        tt,
      ),
    ),
    refl,
  ),
  (
    IsFramed-bulletin_with b'I' _ refl refl refl,
    omega arith,
    (tt, refl, (refl, refl), refl, refl),
    (
      IsFramed-bulletin_with b'F' _ refl refl refl,
      omega arith,
      (tt, refl, (refl, refl), refl, refl),
      tt,
    ),
  ),
)

-- What the bulletins leave.
abbrev collected_test : WmoRaports → WmoRaportState
collected_test asked =
    collected_all library trim_blank-IsTrimRight (codes "\r\r") crs_are_ends refl 0
      (content ∷ contents) (no_messages asked)

synop_test :
    (collected_test []).synop_map
    ≡ (msg_info (codes "AAXX") true, codes "01001 NIL=" ∷ codes "01002 12345\n  333 6789=" ∷ [])
      ∷ []
unfolding synop_report push_back modify remove_empty_keys msg_info trim_blank equal c_str less noted
    bufr_message
synop_test = refl

bufr_test :
    (collected_test []).bufr_surface_map
    ≡ (
      msg_info_extra (codes "bufr_surface") (codes "encoding=base64") false,
      codes "ZCZC 123\r\r\n\nISMN01 ENMI 010600\nBUFR7777" ∷ [],
    )
      ∷ []
unfolding push_back modify msg_info_extra equal c_str less noted bufr_message
bufr_test = refl

split-collected_example :
    split library 0 200 4
      (print_all (map (λ c. c.bulletin) (content ∷ contents)))
      (synop ∷ bufr_surface ∷ [])
      (no_messages [])
    ≡ returns (
      true,
      collected_all library trim_blank-IsTrimRight
          (codes "\r\r")
          crs_are_ends
          refl
          0
          (content ∷ contents)
          (no_messages (synop ∷ bufr_surface ∷ [])),
    )
unfolding trim_blank
split-collected_example =
    split-collected library trim_blank-IsTrimRight (codes "\r\r") crs_are_ends refl 0 200 4 content
      contents (synop ∷ bufr_surface ∷ []) (no_messages []) refl AllContent-content (omega arith)

do_new_obs-bulletins_example :
    Returns
      (Adds recorder
        (λ w. w)
        recorder-IsLog
        (sent_of recorder
          (λ w. w)
          recorder-IsLog
          for_synop
          library
          0
          200
          4
          (object recorder
            (λ w. w)
            recorder-IsLog
            for_synop
            library
            trim_blank-IsTrimRight
            (codes "\r\r")
            crs_are_ends
            refl
            0
            200
            4
            (content ∷ contents)))
        [])
      (do_new_obs recorder for_synop library 0 200 4
        (codes "/in/a")
        (print_all (map (λ c. c.bulletin) (content ∷ contents)))
        [])
unfolding trim_blank
do_new_obs-bulletins_example =
    do_new_obs-bulletins recorder (λ w. w) recorder-IsLog for_synop library trim_blank-IsTrimRight
      (codes "\r\r") crs_are_ends refl 0 200 4 (codes "/in/a") content contents [] refl refl
      AllContent-content (omega arith)
