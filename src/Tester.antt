-- ===== src/Tester.antt =====
-- src/testWMORaport.cc: the program that shows what a file of bulletins holds. Its readFile is in
-- Tester.File; here are getDecoder, printWmoRaport and main.
pub mod Output
pub mod File
pub mod Shown
use kvnorcom.Prelude.{
  ℕ, Bool, true, false, Option, none, some, List, [], ◌∷◌, ◌++◌, is_empty, if◌then◌else◌,
}
use kvnorcom.Prelude.Bytes.{Bytes, codes}
use kvnorcom.Raport.Kinds.{
  WmoRaport, WmoRaports, synop, metar, bufr_surface, same_raport, print_raport, insert,
}
use kvnorcom.Raport.Messages.{MsgInfo, MsgList, MsgMap}
use kvnorcom.Raport.Handlers.{Library, WmoRaportState}
use kvnorcom.Raport.{no_messages, get_raports, split}
use kvnorcom.Config.{RaportDef}
use kvnorcom.System.{Action, ◌>>=◌, done, inside}
use kvnorcom.Argv0.{Paths, cmd_name_from_argv0}
use Output.{Printed, to_cout, to_cerr}
use File.{Buffer, read_file}

-- getDecoder
unfoldable pub decoder_in : WmoRaport → RaportDef → Bytes
decoder_in k [] = []
decoder_in k ((decoder, j) ∷ ds) =
    let rest = decoder_in k ds in if same_raport j k then decoder else rest

-- printWmoRaport: `decoder` behind the insertion of decoderExtra.
unfoldable pub shown_decoder : Bytes → MsgInfo → Bytes
shown_decoder the_decoder info =
    the_decoder ++ (if is_empty info.decoder_extra then [] else codes "/" ++ info.decoder_extra)

-- printWmoRaport: what `ost` holds.
unfoldable pub shown_text : MsgInfo → Bytes → Bytes
shown_text info msg =
    if info.add_what_in_front then info.what ++ (codes " " ++ (codes "\n" ++ msg)) else msg

-- printWmoRaport: what it writes for a message.
unfoldable pub shown : Bytes → Bytes → Bytes
shown decoder text =
    codes "-------- To Send -----------------------------\n"
    ++ (decoder
        ++ (codes "\n"
            ++ (text
                ++ (codes "\n\n\n" ++ codes "-------- End Send ----------------------------\n"))))

-- printWmoRaport: its loops over a list, a map and the maps, as what they write to cerr.
unfoldable pub print_list : Bytes → MsgInfo → MsgList → Bytes
print_list the_decoder info [] = []
print_list the_decoder info (msg ∷ msgs) =
    shown (shown_decoder the_decoder info) (shown_text info msg) ++ print_list the_decoder info msgs

unfoldable pub print_map : Bytes → MsgMap → Bytes
unfolding print_list
print_map the_decoder [] = []
print_map the_decoder ((info, l) ∷ m) = print_list the_decoder info l ++ print_map the_decoder m

no_decoder_text : WmoRaport → Bytes
no_decoder_text k =
    codes "No decoder defined for wmo report <"
    ++ (print_raport k ++ codes ">. Cant send data to kvalobs.\n")

unfoldable pub print_maps : RaportDef → List (WmoRaport × MsgMap) → Bytes
unfolding no_decoder_text
print_maps rap_def [] = []
print_maps rap_def ((k, m) ∷ ms) =
    (if is_empty (decoder_in k rap_def)
      then no_decoder_text k
      else print_map (decoder_in k rap_def) m)
    ++ print_maps rap_def ms

-- printWmoRaport
unfoldable pub print_wmo_raport : WmoRaportState → WmoRaports → RaportDef → Bytes
print_wmo_raport r what_to_collect rap_def = print_maps rap_def (get_raports r what_to_collect)

-- main: whatToCollect and rapDef.
unfoldable pub what_to_collect : WmoRaports
unfolding insert
what_to_collect = insert bufr_surface (insert metar (insert synop []))

abbrev pub rap_def : RaportDef
rap_def = (codes "bufr", bufr_surface) ∷ (codes "metar", metar) ∷ (codes "synop", synop) ∷ []

module _ (paths : Paths) (buffer : Buffer) (lib : Library) (junk fuel rounds blocks : ℕ)
    (open_file : Bytes → Option (Bytes × Bool)) where
  -- main, behind split.
  unfoldable pub show : Bool × WmoRaportState → Action Printed ℕ
  show (ok, wmo) = do
    u ← to_cerr (if ok then [] else wmo.error_str ++ codes "\n")
    u ← to_cerr (print_wmo_raport wmo what_to_collect rap_def)
    u ← to_cout (codes " ------- ERROR BEGIN ---------- \n")
    u ← to_cerr (wmo.error_str ++ codes "\n")
    u ← to_cout (codes " ------- ERROR END ---------- \n")
    done 0

  -- main, behind readFile.
  unfoldable pub on_file : Bytes → Option Bytes → Action Printed ℕ
  on_file filename none = do
    u ← to_cout (codes "Cant open file <" ++ (filename ++ codes ">\n\n"))
    done 1
  on_file filename (some raport) = do
    r ← inside (split lib junk fuel rounds raport what_to_collect (no_messages []))
    show r

  -- main
  unfoldable pub main : Bytes → List Bytes → Action Printed ℕ
  main argv0 [] = do
    u ← to_cout (codes "\nBruk\n\n\t" ++ (cmd_name_from_argv0 paths argv0 ++ codes " filename\n\n"))
    done 1
  main argv0 (filename ∷ args) = do
    content ← read_file buffer blocks (open_file filename)
    on_file filename content
