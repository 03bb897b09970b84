-- ===== src/Tests/Delivery.antt =====
-- What goes to kvalobs, on a system that only records it and refuses everything.
use kvnorcom.Prelude.{refl, true, false, none, List, [], ◌∷◌, ◌++◌}
use kvnorcom.Prelude.Bytes.{Bytes, codes}
use kvnorcom.Outcome.{Returns}
use kvnorcom.System.{System, answers, not_saved}
use kvnorcom.Config.{Config, raports_to_collect}
use kvnorcom.Raport.{get_raports}
use kvnorcom.Raport.Kinds.{synop, bufr_surface}
use kvnorcom.Delivery.{send_wmo_raport}
use kvnorcom.Delivery.Sent.{Adds, IsLog, sent_maps, send_wmo_raport-Adds}
use kvnorcom.Tests.Raport.{with_bufr}
use kvnorcom.Tests.Run.{conf}

abbrev pub recorder : System (List (Bytes × Bytes))
recorder = record {
  stat = λ name w. (none, w);
  copyfile = λ a b w. (false, w);
  unlink = λ name w. w;
  read_stream = λ name w. (none, w);
  open_read = λ name w. (false, w);
  open_write = λ name w. (true, w);
  write = λ name text w. (true, w);
  list_dir = λ path p w. (none, w);
  now = λ w. (codes "20240101T000000", w);
  time = λ w. (0, w);
  sleep = λ n w. w;
  shutdown = λ w. (false, w);
  host = codes "kvalobs";
  new_data = λ m t w. (answers (record { res = not_saved; message = [] }), w ++ (m, t) ∷ []);
  new_data_to = λ server m t w. (answers (record { res = not_saved; message = [] }), w);
}

pub recorder-IsLog : IsLog recorder (λ w. w)
recorder-IsLog = record {
  new_data = λ m t w. refl;
  new_data_to = λ s m t w. refl;
  now = λ w. refl;
  open_read = λ name w. refl;
  open_write = λ name w. refl;
  write = λ name text w. refl;
  unlink = λ name w. refl;
}

abbrev pub for_synop : Config
for_synop = record conf {
  servers = codes "reference" ∷ [];
  raports = (codes "synop", synop) ∷ (codes "bufr", bufr_surface) ∷ [];
}

send_wmo_raport-Adds_example :
    Returns
      (Adds recorder
        (λ w. w)
        recorder-IsLog
        (sent_maps recorder
          (λ w. w)
          recorder-IsLog
          for_synop
          (get_raports with_bufr (raports_to_collect for_synop.raports [])))
        [])
      (send_wmo_raport recorder for_synop with_bufr [])
send_wmo_raport-Adds_example =
    send_wmo_raport-Adds recorder (λ w. w) recorder-IsLog for_synop with_bufr []
