-- ===== src/Collector/Sent.antt =====
-- What of a new text goes to kvalobs.
pub mod Bulletins
use kvnorcom.Prelude.{ℕ, ◌≡◌, refl, true, false, Bool-cases, inl, inr, List, [], is_empty}
use kvnorcom.Prelude.Bytes.{Bytes}
use kvnorcom.Outcome.{returns, Returns}
use kvnorcom.Raport.Handlers.{Library, WmoRaportState}
use kvnorcom.Raport.{no_messages, get_raports, split}
use kvnorcom.Config.{Config, raports_to_collect}
use kvnorcom.System.{System}
use kvnorcom.System.File.{name_part}
use kvnorcom.Delivery.{write_file}
use kvnorcom.Delivery.Sent.{
  IsLog, Adds, Adds-bind, same, write_file-Adds, sent_maps, send_wmo_raport-Adds,
}
use kvnorcom.Collector.{write_warning, on_split, do_new_obs}

module _ {W : Type 0} (sys : System W) (log : W → List (Bytes × Bytes)) (is_log : IsLog sys log)
    (conf : Config) where
  write_warning-Adds :
      (filename obs : Bytes) (r : WmoRaportState) (w : W)
      → Returns (Adds sys log is_log [] w) (write_warning sys conf filename obs r w)
  unfolding write_warning
  write_warning-Adds filename obs r w = elim (Bool-cases (is_empty r.error_str)) [
    | inl good ↦ rw (write_warning, good) (same sys log is_log w w refl)
    | inr bad ↦
        rw (write_warning, bad)
          (Adds-bind sys log is_log [] [] (write_file sys _ _ true obs) _ w
            (write_file-Adds sys log is_log _ _ obs w) (λ f v. same sys log is_log v v refl))
  ]

  module _ (lib : Library) (junk fuel rounds : ℕ) where
    -- The messages of a text that has been split.
    abbrev pub sent_of : WmoRaportState → List (Bytes × Bytes)
    sent_of r = sent_maps sys log is_log conf (get_raports r (raports_to_collect conf.raports []))

    -- A text that can be split goes to kvalobs outside of test mode, whether there is something
    -- wrong in it or not.
    pub do_new_obs-Adds :
        (file_name obs : Bytes) (r : WmoRaportState) (w : W)
        → conf.test ≡ false
        → split lib junk fuel rounds obs (raports_to_collect conf.raports []) (no_messages [])
          ≡ returns (true, r)
        → Returns
            (Adds sys log is_log (sent_of r) w)
            (do_new_obs sys conf lib junk fuel rounds file_name obs w)
    unfolding do_new_obs on_split
    do_new_obs-Adds file_name obs r w no_test splits =
        rw (do_new_obs, splits, on_split, no_test)
          (Adds-bind sys log is_log [] (sent_of r)
            (write_warning sys conf (name_part file_name) obs r) _ w
            (write_warning-Adds (name_part file_name) obs r w)
            (λ u v. send_wmo_raport-Adds sys log is_log conf r v))
