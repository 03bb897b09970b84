-- ===== src/Delivery/Saved/Resend.antt =====
-- A message that was saved is sent again as it was, but for one '\n'.
use kvnorcom.Prelude.{◌≡◌, true, ◌⊎◌, ◌++◌, is_empty}
use kvnorcom.Prelude.Bytes.{Bytes, codes}
use kvnorcom.Config.{Config}
use kvnorcom.System.{System, ◌>>=◌}
use kvnorcom.Delivery.{send_message}
use kvnorcom.Delivery.Written.{Written}
use kvnorcom.Delivery.Saved.{after_send, send_saved}

module _ {W : Type 0} (sys : System W) (conf : Config) where
  -- The file of a message is gone through: what goes to kvalobs.
  abbrev pub Resent : Bytes → Bytes → Bytes × W → Type 0
  Resent decoder text (file, w) =
      (is_empty file ≡ true)
      ⊎ (send_saved sys conf file w
          ≡ (send_message sys conf (text ++ codes "\n") decoder >>= after_send sys file)
              (sys.read_stream file w).1)
