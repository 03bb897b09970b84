-- ===== src/Tests/Raport.antt =====
-- The object and its handlers on concrete inputs.
use kvnorcom.Prelude.{Bool, arith, refl, [], ◌∷◌, ◌≡◌, true, false, none}
use kvnorcom.Prelude.Bytes.{codes}
use kvnorcom.Stream.{reading}
use kvnorcom.Raport.{no_messages, messages_of, copy, assign, do_dispatch}
use kvnorcom.Raport.Kinds.{synop, bufr_surface}
use kvnorcom.Raport.Messages.{msg_info}
use kvnorcom.Raport.Handlers.{Library, WmoRaportState}
use kvnorcom.Raport.Effects.{OnlyMessagesOf}
use kvnorcom.Raport.Total.{do_dispatch-Returns}
use kvnorcom.Lines.{read_report}
use kvnorcom.Lines.Rest.{Rest}
use kvnorcom.Lines.Total.{Leaves, read_report-Rest}
use kvnorcom.Outcome.{Returns, returns}

-- Texts as they are, and a pattern that nothing matches.
abbrev pub plain : Library
plain = record {
  texts = record { trim = λ t. t; trim_right = λ t. t; trimstr = λ t. t };
  regex_match = λ p t. none;
  encode64 = λ t. t;
}

abbrev pub with_bufr : WmoRaportState
with_bufr = record (no_messages []) {
  synop_map = (msg_info (codes "AAXX") true, codes "01001" ∷ []) ∷ [];
  bufr_surface_map = (msg_info (codes "bufr_surface") false, codes "QlVGUg" ∷ []) ∷ [];
}

copy_test :
    (messages_of (copy with_bufr) bufr_surface ≡ [])
    × (messages_of (copy with_bufr) synop ≡ with_bufr.synop_map)
    × (messages_of (assign (no_messages []) with_bufr) bufr_surface ≡ [])
unfolding messages_of copy assign
copy_test = (refl, refl, refl)

do_dispatch-Returns_example :
    Returns
      (λ (p : Bool × WmoRaportState). OnlyMessagesOf synop with_bufr (returns p))
      (do_dispatch plain 0 synop 30
        (codes "SMNO01")
        (codes "ZCZC 1")
        (reading true [] (codes "AAXX 01001=\n"))
        with_bufr)
do_dispatch-Returns_example =
    do_dispatch-Returns plain 0 30 (codes "SMNO01") (codes "ZCZC 1") true [] (codes "AAXX 01001=\n")
      with_bufr synop (omega arith)

read_report-Rest_example :
    Returns
      (Leaves plain.texts 14)
      (read_report plain.texts 0 30 (reading true [] (codes "\nAAXX 01001=\n")))
read_report-Rest_example =
    read_report-Rest plain.texts 0 30 14 (reading true [] (codes "\nAAXX 01001=\n"))
      (Rest.live true [] (codes "\nAAXX 01001=\n") refl (omega arith)) (omega arith)
