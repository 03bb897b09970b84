-- ===== src/Tests/Tester.antt =====
-- The test program on a file with one bulletin.
use kvnorcom.Prelude.{◌≡◌, refl, true, false, none, some, [], ◌∷◌, ◌++◌, if◌then◌else◌, arith}
use kvnorcom.Prelude.Bytes.{Bytes, codes, equal}
use kvnorcom.Outcome.{Returns, returns}
use kvnorcom.Map.{modify}
use kvnorcom.Stream.{get, putback, line_ahead, getline, read}
use kvnorcom.Framing.{
  valid_char, match_zczc, find_start, read_header, find_zczc, send_message, match_nnnn, read_end,
  send_rest, read_message, get_message,
}
use kvnorcom.Lines.{is_alnum, skip, find_char, read_line, read_to_eof, skip_empty_lines}
use kvnorcom.Raport.Kinds.{synop, metar, bufr_surface, insert}
use kvnorcom.Raport.Messages.{msg_info_extra, push_back}
use kvnorcom.Raport.Handlers.{Library, WmoRaportState, c_str, bufr_message, do_bufr_surface}
use kvnorcom.Raport.{
  no_messages, handler, do_dispatch, classify, dispatch, on_message, decode_loop,
  not_matched_report, decode, split,
}
use kvnorcom.Config.{Config}
use kvnorcom.Delivery.Sent.{Adds}
use kvnorcom.Collector.{do_new_obs}
use kvnorcom.Tester.{rap_def, what_to_collect, main}
use kvnorcom.Tester.File.{Buffer}
use kvnorcom.Tests.Raport.{plain}
use kvnorcom.Tests.Run.{conf}
use kvnorcom.Tester.Shown.{shown_all, messages, report, main-messages}
use kvnorcom.Tests.Delivery.{recorder, recorder-IsLog}
use kvnorcom.Tests.Program.{norcom2kv}

abbrev text : Bytes
text = codes "ZCZC 1\nISMN01 ENMI 010600\nBUFR7777.\n\n\nNNNN\n"

-- Any header is that of a BUFR message.
abbrev library : Library
library = record plain {
  regex_match = λ p t.
      if equal p (codes "^ *IS(I|M|N)\\w{3} +\\w+ +\\d+ *\\w*")
      then some (λ i. codes "ISMN01")
      else none;
}

abbrev with_message : WmoRaportState
with_message = record (no_messages []) {
  bufr_surface_map =
      (
        msg_info_extra (codes "bufr_surface") (codes "encoding=base64") false,
        codes "ZCZC 1\n\nISMN01 ENMI 010600\nBUFR7777." ∷ [],
      )
      ∷ [];
  raports_to_collect = synop ∷ metar ∷ bufr_surface ∷ [];
}

text-split :
    split library 0 60 3 text what_to_collect (no_messages []) ≡ returns (true, with_message)
unfolding split decode decode_loop on_message dispatch do_dispatch handler classify
    not_matched_report get_message find_zczc find_start match_zczc read_header read_message
    match_nnnn read_end send_message send_rest valid_char skip_empty_lines read_line read_to_eof
    do_bufr_surface bufr_message c_str get putback line_ahead getline read find_char push_back
    msg_info_extra modify what_to_collect insert equal skip is_alnum
text-split = refl

abbrev plain_buffer : Buffer
plain_buffer = λ a b. (a ++ b, none)

abbrev as_shown : Config
as_shown = record conf { servers = codes "reference" ∷ []; raports = rap_def }

main-messages_example :
    (main norcom2kv plain_buffer library 0 60 3 90
        (λ name. some (text, true))
        (codes "testWMORaport")
        (codes "file" ∷ [])
        (record { cout = []; cerr = [] })
      ≡ returns (
        0,
        report recorder
            (λ w. w)
            recorder-IsLog
            norcom2kv
            plain_buffer
            library
            0
            60
            3
            90
            (λ name. some (text, true))
            text
            with_message
            (shown_all (messages recorder (λ w. w) recorder-IsLog as_shown with_message))
            (record { cout = []; cerr = [] }),
      ))
    × Returns
        (Adds recorder
          (λ w. w)
          recorder-IsLog
          (messages recorder (λ w. w) recorder-IsLog as_shown with_message)
          [])
        (do_new_obs recorder as_shown library 0 60 3 (codes "/in/file") text [])
main-messages_example =
    main-messages recorder (λ w. w) recorder-IsLog norcom2kv plain_buffer library 0 60 3 90
      (λ name. some (text, true)) as_shown (codes "testWMORaport") (codes "file") text
      (codes "/in/file") with_message (record { cout = []; cerr = [] }) [] (λ a b. refl) refl
      (omega arith) text-split refl refl
