-- ===== src/Tests/Framing.antt =====
-- findZCZC and getMessage on concrete inputs.
use kvnorcom.Prelude.{true, false, [], ◌++◌, ◌∷◌, ◌≡◌, refl, arith}
use kvnorcom.Prelude.Bytes.{Bytes, codes, onto}
use kvnorcom.Outcome.{returns, running}
use kvnorcom.Stream.{reading}
use kvnorcom.Framing.{find_zczc, get_message, read_message, scan_from, Message, valid_char}
use kvnorcom.Framing.Zczc.{find_zczc-found, find_zczc-hangs}
use kvnorcom.Framing.Mark.{end_mark}
use kvnorcom.Framing.Frame.{framed, get_message-frame, get_message-unmarked}
use kvnorcom.Framing.Sound.{Ends, read_message-Ends}

-- No trimming: it does not matter here.
abbrev same : Bytes → Bytes
same s = s

abbrev header : Bytes
header = codes " 123\r\r\n"

find_zczc-found_example :
    find_zczc same 0 40
      (reading false [] (codes "\n\n" ++ (codes "ZCZC" ++ (header ++ b'S' ∷ codes "M"))))
    ≡ returns (record {
      found = true;
      line = codes "ZCZC 123\r\r\n";
      stream =
          reading false (onto (onto (onto [] (codes "\n\n")) (codes "ZCZC")) header) (codes "SM");
    })
unfolding valid_char
find_zczc-found_example =
    find_zczc-found same 0 false [] (codes "\n\n") header 40 b'S' (codes "M") refl refl refl
      (omega arith)

find_zczc-hangs_example :
    find_zczc same 0 1000 (reading false [] (codes "\n\n" ++ (codes "ZCZC" ++ header))) ≡ running
unfolding valid_char
find_zczc-hangs_example =
    find_zczc-hangs same 0 false [] (codes "\n\n") header 1000 refl refl (λ e. cc)

abbrev switch_eols : Bytes
switch_eols = codes "\n\n\n"

-- What lies behind the reader at the end of that message.
abbrev passed : Bytes
passed =
    onto (onto (onto (onto (onto [] (codes "\n")) (codes "ZCZC")) header) (codes "SMNO01 NIL="))
      (end_mark switch_eols (codes "\r\r"))

get_message-frame_example :
    get_message same 0 200 (
      reading false [] (
        framed
          (codes "\n")
          header
          b'S'
          (codes "MNO01 NIL=")
          switch_eols
          (codes "\r\r")
          (codes "ZCZC")))
    ≡ returns (
      codes "ZCZC 123\r\r\n",
      record {
        complete = true;
        msg = codes "SMNO01 NIL=";
        stream = reading false passed (codes "ZCZC");
      },
    )
unfolding valid_char
get_message-frame_example =
    get_message-frame same 0 false [] (codes "\n") header 200 b'S' (codes "MNO01 NIL=") switch_eols
      (codes "\r\r") b'Z' (codes "CZC") refl refl refl refl refl refl refl (omega arith) refl
      (omega arith)

get_message-unmarked_example :
    (m : Message) × (get_message same 0 200
        (reading false [] (codes "\n" ++ (codes "ZCZC" ++ (header ++ b'S' ∷ codes "MNO01 NIL="))))
      ≡ returns (codes "ZCZC 123\r\r\n", m))
    × (m.complete ≡ false)
    × (m.msg ≡ [])
unfolding valid_char
get_message-unmarked_example =
    get_message-unmarked same 0 false [] (codes "\n") header 200 b'S' (codes "MNO01 NIL=") refl refl
      refl refl (omega arith)

read_message-Ends_example :
    Ends
      (codes "01001=\n\n\nNNNN\n")
      (read_message 20 (scan_from 0 (reading false [] (codes "01001=\n\n\nNNNN\n"))))
read_message-Ends_example =
    read_message-Ends 20 0 false [] (codes "01001=\n\n\nNNNN\n") (omega arith)
