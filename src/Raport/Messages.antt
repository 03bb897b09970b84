-- ===== src/Raport/Messages.antt =====
-- MsgInfo and the maps of messages.
use kvnorcom.Prelude.{Bool, List, [], ◌∷◌, ◌++◌, is_empty, if◌then◌else◌}
use kvnorcom.Prelude.Bytes.{Bytes}
use kvnorcom.Map.{modify}
use kvnorcom.Map.Order.{less, less-StrictWeakOrder, StrictWeakOrder}

pub record MsgInfo : Type 0 where
  pub what : Bytes
  pub decoder_extra : Bytes
  pub add_what_in_front : Bool

-- MsgInfo( what, whatInFront )
unfoldable pub msg_info : Bytes → Bool → MsgInfo
msg_info what in_front = record { what = what; decoder_extra = []; add_what_in_front = in_front }

-- MsgInfo( what_, decoderExtra_, whatInFront )
unfoldable pub msg_info_extra : Bytes → Bytes → Bool → MsgInfo
msg_info_extra what extra in_front = record {
  what = what;
  decoder_extra = extra;
  add_what_in_front = in_front;
}

-- MsgInfo::operator<
abbrev pub less_info : MsgInfo → MsgInfo → Bool
less_info a b = less a.what b.what

abbrev pub MsgList : Type 0
MsgList = List Bytes

abbrev pub MsgMap : Type 0
MsgMap = List (MsgInfo × MsgList)

-- `map[info].push_back( msg )`
unfoldable pub push_back : MsgInfo → Bytes → MsgMap → MsgMap
push_back info msg = modify less_info info [] (λ l. l ++ msg ∷ [])

-- removeEmptyKeys
unfoldable pub remove_empty_keys : (Bytes → Bytes) → MsgMap → MsgMap
remove_empty_keys trim [] = []
remove_empty_keys trim ((info, l) ∷ m) =
    let rest = remove_empty_keys trim m in
    if is_empty (trim info.what) then rest else (info, l) ∷ rest

pub less_info-StrictWeakOrder : StrictWeakOrder less_info
less_info-StrictWeakOrder = record {
  irrefl = λ a. o.irrefl a.what;
  trans = λ a b c. o.trans a.what b.what c.what;
  negative_trans = λ a b c. o.negative_trans a.what b.what c.what;
}
  where
    o : StrictWeakOrder less
    o = less-StrictWeakOrder
