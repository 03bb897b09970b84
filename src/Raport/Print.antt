-- ===== src/Raport/Print.antt =====
-- operator<< of a WMORaport.
use kvnorcom.Prelude.{[], ◌∷◌, ◌++◌, is_empty, if◌then◌else◌}
use kvnorcom.Prelude.Bytes.{Bytes, codes}
use kvnorcom.Raport.Messages.{MsgList, MsgMap}
use kvnorcom.Raport.Handlers.{WmoRaportState}

print_list : (Bytes → Bytes) → MsgList → Bytes
print_list item [] = []
print_list item (m ∷ ms) = item m ++ print_list item ms

-- The entries of a map: `head` is what stands in front of an entry's messages, `item` what is
-- written for a message of it, `end` what stands behind them.
print_map : (Bytes → Bytes) → (Bytes → Bytes → Bytes) → Bytes → MsgMap → Bytes
unfolding print_list
print_map head item end [] = []
print_map head item end ((info, l) ∷ m) =
    head info.what ++ (print_list (item info.what) l ++ (end ++ print_map head item end m))

-- What is written only for a map that is not empty.
framed_by : Bytes → Bytes → MsgMap → Bytes → Bytes
framed_by begin end m text = if is_empty m then [] else begin ++ (text ++ end)

abbrev line_of : Bytes → Bytes
line_of t = t ++ b'\n' ∷ []

abbrev angled : Bytes → Bytes
angled what = codes "<<" ++ (what ++ codes ">>\n")

abbrev newline : Bytes
newline = codes "\n"

-- An entry of the kinds with no frame.
abbrev print_plain : MsgMap → Bytes
print_plain = print_map line_of (λ what m. m) newline

-- The kind's name twice, as it is written: the second was to be the entry's decoderExtra.
abbrev print_twice : Bytes → Bytes
print_twice what = what ++ (codes " (" ++ (what ++ codes ")\n"))

-- operator<<
unfoldable pub print : WmoRaportState → Bytes
unfolding print_map framed_by
print r =
    framed_by (codes " ---- SYNOP BEGIN ----\n") (codes " ---- SYNOP END ----\n") r.synop_map
      (print_map angled (λ what m. codes "[" ++ (m ++ codes "]\n")) newline r.synop_map)
    ++ (framed_by (codes " ---- TEMP BEGIN ----\n") (codes " ---- TEMP END ----\n") r.temp_map
          (print_map line_of (λ what m. line_of m) newline r.temp_map)
        ++ (framed_by (codes " ---- METAR BEGIN ----\n") (codes " ---- METAR END ----\n")
              r.metar_map (print_map angled (λ what m. line_of m) newline r.metar_map)
            ++ (print_plain r.pilo_map
                ++ (print_plain r.arep_map
                    ++ (print_plain r.drau_map
                        ++ (print_plain r.bath_map
                            ++ (print_plain r.tide_map
                                ++ (framed_by (codes " ---- BUFR BEGIN ----\n")
                                      (codes " ---- BUFR END ----\n") r.bufr_surface_map
                                      (print_map print_twice
                                        (λ what m. print_twice what ++ line_of m) newline
                                        r.bufr_surface_map)
                                    ++ (newline
                                        ++ framed_by (codes "-------ERROR MAP (BEGIN) ---------\n")
                                            [] r.error_map
                                            (print_map line_of (λ what m. m)
                                              (codes "-------ERROR MAP (END) ---------\n")
                                              r.error_map))))))))))
