-- ===== src/Tester/Shown.antt =====
-- What the program shows is what the collector sends.
use kvnorcom.Prelude.{
  ℕ, ◌<◌, ◌≡◌, refl, sym, ap, ◌∙◌, Bool, true, false, Bool-cases, inl, inr, Option, some, List, [],
  ◌∷◌, ◌++◌, append-nil, append_assoc, length, is_empty,
}
use kvnorcom.Prelude.Bytes.{Bytes, codes}
use kvnorcom.Outcome.{Returns, returns}
use mathlib.Core.Path.{subst}
use kvnorcom.Map.{modify}
use kvnorcom.Raport.Kinds.{WmoRaport, insert}
use kvnorcom.Raport.Messages.{MsgInfo, MsgList, MsgMap}
use kvnorcom.Raport.Handlers.{Library, WmoRaportState}
use kvnorcom.Raport.{no_messages, messages_of, get_raports, split}
use kvnorcom.Config.{Config, RaportDef, get_decoder, raports_to_collect}
use kvnorcom.System.{System}
use kvnorcom.Delivery.{message_text, decoder_of}
use kvnorcom.Delivery.Sent.{IsLog, Adds, sent_list, sent_map, sent_maps}
use kvnorcom.Collector.{do_new_obs}
use kvnorcom.Collector.Sent.{do_new_obs-Adds}
use kvnorcom.Argv0.{Paths}
use kvnorcom.Tester.Output.{Printed}
use kvnorcom.Tester.File.{Buffer, content_text}
use kvnorcom.Tester.File.Whole.{IsFaithful, counted, read_file-whole}
use kvnorcom.Tester.{
  decoder_in, shown_decoder, shown_text, shown, print_list, print_map, print_maps, print_wmo_raport,
  what_to_collect, rap_def, show, on_file, main,
}

-- The messages shown one behind the other.
abbrev pub shown_all : List (Bytes × Bytes) → Bytes
shown_all [] = []
shown_all ((text, decoder) ∷ l) = shown decoder text ++ shown_all l

shown_all-append : (l k : List (Bytes × Bytes)) → shown_all (l ++ k) ≡ shown_all l ++ shown_all k
shown_all-append [] k = refl
shown_all-append ((text, decoder) ∷ l) k =
    rw (shown_all-append l k) (sym (append_assoc (shown decoder text) (shown_all l) (shown_all k)))

decoder_in-get_decoder : (k : WmoRaport) (ds : RaportDef) → decoder_in k ds ≡ get_decoder k ds
unfolding decoder_in get_decoder
decoder_in-get_decoder k [] = refl
decoder_in-get_decoder k ((decoder, j) ∷ ds) = rw (decoder_in-get_decoder k ds) refl

-- Each type in the list has a decoder.
abbrev pub AllDecoded : RaportDef → List (WmoRaport × MsgMap) → Type 0
AllDecoded ds [] = Unit
AllDecoded ds ((k, m) ∷ ms) = (is_empty (get_decoder k ds) ≡ false) × AllDecoded ds ms

module _ {W : Type 0} (sys : System W) (log : W → List (Bytes × Bytes))
    (is_log : IsLog sys log) where
  shown_decoder-decoder_of :
      (decoder : Bytes) (info : MsgInfo) → shown_decoder decoder info ≡ decoder_of sys decoder info
  unfolding shown_decoder decoder_of
  shown_decoder-decoder_of decoder info = elim (Bool-cases (is_empty info.decoder_extra)) [
    | inl plain ↦ rw plain (append-nil decoder)
    | inr extra ↦ rw extra refl
  ]

  shown_text-message_text :
      (info : MsgInfo) (msg : Bytes) → shown_text info msg ≡ message_text sys info msg
  unfolding shown_text message_text
  shown_text-message_text info msg = refl

  print_list-sent_list :
      (decoder : Bytes) (info : MsgInfo) (l : MsgList)
      → print_list decoder info l ≡ shown_all (sent_list sys log is_log decoder info l)
  unfolding print_list
  print_list-sent_list decoder info [] = refl
  print_list-sent_list decoder info (msg ∷ l) =
      rw
        (
          shown_decoder-decoder_of decoder info,
          shown_text-message_text info msg,
          print_list-sent_list decoder info l,
        )
        refl

  print_map-sent_map :
      (decoder : Bytes) (m : MsgMap)
      → print_map decoder m ≡ shown_all (sent_map sys log is_log decoder m)
  unfolding print_map
  print_map-sent_map decoder [] = refl
  print_map-sent_map decoder ((info, l) ∷ m) =
      rw
        (
          print_list-sent_list decoder info l,
          print_map-sent_map decoder m,
          shown_all-append (sent_list sys log is_log decoder info l)
              (sent_map sys log is_log decoder m),
        )
        refl

  print_maps-sent_maps :
      (conf : Config) (ms : List (WmoRaport × MsgMap))
      → AllDecoded conf.raports ms
      → print_maps conf.raports ms ≡ shown_all (sent_maps sys log is_log conf ms)
  unfolding print_maps
  print_maps-sent_maps conf [] h = refl
  print_maps-sent_maps conf ((k, m) ∷ ms) (h, hs) =
      rw
        (
          decoder_in-get_decoder k conf.raports,
          h,
          print_maps-sent_maps conf ms hs,
          print_map-sent_map (get_decoder k conf.raports) m,
          shown_all-append (sent_map sys log is_log (get_decoder k conf.raports) m)
              (sent_maps sys log is_log conf ms),
        )
        refl

  get_raports-AllDecoded : (r : WmoRaportState) → AllDecoded rap_def (get_raports r what_to_collect)
  unfolding what_to_collect get_decoder insert modify get_raports messages_of
  get_raports-AllDecoded r = (refl, (refl, (refl, tt)))

  what_to_collect-raports : raports_to_collect rap_def [] ≡ what_to_collect
  unfolding what_to_collect raports_to_collect insert
  what_to_collect-raports = refl

  -- The messages that the collector sends of a text that it has split.
  abbrev pub messages : Config → WmoRaportState → List (Bytes × Bytes)
  messages conf r =
      sent_maps sys log is_log conf (get_raports r (raports_to_collect conf.raports []))

  print_wmo_raport-messages :
      (conf : Config) (r : WmoRaportState)
      → conf.raports ≡ rap_def
      → print_wmo_raport r what_to_collect rap_def ≡ shown_all (messages conf r)
  unfolding print_wmo_raport
  print_wmo_raport-messages conf r defined =
      let maps = get_raports r what_to_collect in
      let keys : raports_to_collect conf.raports [] ≡ what_to_collect =
        ap (λ ds. raports_to_collect ds []) defined ∙ what_to_collect-raports in
      let decoded : AllDecoded conf.raports maps =
        subst (λ ds. AllDecoded ds maps) (sym defined) (get_raports-AllDecoded r) in
      ap (λ ds. print_maps ds maps) (sym defined)
      ∙ print_maps-sent_maps conf maps decoded
      ∙ ap (λ ks. shown_all (sent_maps sys log is_log conf (get_raports r ks))) (sym keys)

  module _ (paths : Paths) (buffer : Buffer) (lib : Library) (junk fuel rounds blocks : ℕ)
      (open_file : Bytes → Option (Bytes × Bool)) where
    -- What a run has printed of a text and its messages.
    abbrev pub report : Bytes → WmoRaportState → Bytes → Printed → Printed
    report text r messages_shown p = record {
      cout =
          p.cout
          ++ codes " ------- ERROR BEGIN ---------- \n"
          ++ codes " ------- ERROR END ---------- \n";
      cerr =
          p.cerr
          ++ content_text buffer (counted text)
          ++ []
          ++ messages_shown
          ++ (r.error_str ++ codes "\n");
    }

    -- A file that can be opened and read to its end holds a text that can be split, the writes to
    -- a string stream succeed, and there are more rounds for the blocks than characters. The
    -- collector is configured with the decoders of the test program, and out of test mode. Then the
    -- program prints to the standard error, between the line on the file and the errors, the
    -- messages that the collector gives to the main kvalobs of the same text: each once, with its
    -- decoder, in the same order, and no others. To the standard output it prints no message, but
    -- only the two lines that were to stand round the errors.
    pub main-messages :
        (conf : Config) (argv0 filename text name : Bytes) (r : WmoRaportState) (p : Printed)
        (w : W)
        → IsFaithful buffer
        → open_file filename ≡ some (text, true)
        → length text < blocks
        → split lib junk fuel rounds text what_to_collect (no_messages []) ≡ returns (true, r)
        → conf.raports ≡ rap_def
        → conf.test ≡ false
        → (main paths buffer lib junk fuel rounds blocks open_file argv0 (filename ∷ []) p
            ≡ returns (0, report text r (shown_all (messages conf r)) p))
          × Returns
              (Adds sys log is_log (messages conf r) w)
              (do_new_obs sys conf lib junk fuel rounds name text w)
    unfolding main on_file show
    main-messages conf argv0 filename text name r p w faithful opened enough splits defined
          no_test =
        let keys : raports_to_collect conf.raports [] ≡ what_to_collect =
          ap (λ ds. raports_to_collect ds []) defined ∙ what_to_collect-raports in
        let splits' : split lib junk fuel rounds text (raports_to_collect conf.raports [])
              (no_messages [])
            ≡ returns (true, r) =
          ap (λ ks. split lib junk fuel rounds text ks (no_messages [])) keys ∙ splits in
        (
          rw
              (
                main,
                opened,
                read_file-whole buffer faithful blocks text p enough,
                on_file,
                splits,
                show,
                print_wmo_raport-messages conf r defined,
              )
              refl,
          do_new_obs-Adds sys log is_log conf lib junk fuel rounds name text r w no_test splits',
        )
