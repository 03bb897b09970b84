-- ===== src/Delivery.antt =====
-- What goes to kvalobs: App::sendDataToKvalobs (src/App.cc), and of src/CollectWmoReports.cc
-- sendMessageToKvalobs, writeFile, sendWMORaport and tryToSendSavedObservations.
pub mod Answers
pub mod Saved
pub mod Written
pub mod Sent
pub mod Unsaved
use kvnorcom.Prelude.{
  ℕ, zero, suc, ◌+◌, ◌-◌, ◌/◌, ◌%◌, Bool, true, false, not, ◌&&◌, ◌||◌, Option, none, some, List,
  [], ◌∷◌, ◌++◌, ◌==◌, ltb, take, drop, is_empty, if◌then◌else◌,
}
use kvnorcom.Prelude.Bytes.{Bytes, codes}
use kvnorcom.Prelude.Decimal.{decimal}
use kvnorcom.Lines.{find_char}
use kvnorcom.Raport.Kinds.{WmoRaport}
use kvnorcom.Raport.Messages.{MsgInfo, MsgList, MsgMap}
use kvnorcom.Raport.Handlers.{WmoRaportState}
use kvnorcom.Raport.{get_raports}
use kvnorcom.Config.{Config, get_decoder, raports_to_collect}
use kvnorcom.Outcome.{Tried, gives, raises, caught, map_tried}
use kvnorcom.System.{
  System, Action, ◌>>=◌, done, call, command, Result, ResultCode, ok, not_saved, error, no_decoder,
  decode_error, unknown, Answer, answers, throws,
}
use kvnorcom.Files.{read_file}

-- string::find of a text.
begins : Bytes → Bytes → Bool
begins [] text = true
begins (p ∷ ps) [] = false
begins (p ∷ ps) (c ∷ cs) = p == c && begins ps cs

unfoldable pub contains_text : Bytes → Bytes → Bool
unfolding begins
contains_text part [] = is_empty part
contains_text part (c ∷ cs) = begins part (c ∷ cs) || contains_text part cs

-- MAX_COUNT, kept folded.
unfoldable pub max_count : ℕ
max_count = 10000

-- What sendMessageToKvalobs returns and puts into its two reference parameters.
pub record Delivery : Type 0 where
  pub delivered : Bool
  pub kv_server_is_up : Bool
  pub try_to_resend : Bool

-- sendMessageToKvalobs: its answer to a result.
unfoldable pub on_result : Result → Delivery
on_result r = elim r.res [
  | ok ↦ record { delivered = true; kv_server_is_up = true; try_to_resend = false }
  | not_saved ↦ record { delivered = false; kv_server_is_up = true; try_to_resend = true }
  | error ↦ record { delivered = false; kv_server_is_up = true; try_to_resend = true }
  | no_decoder ↦ record { delivered = false; kv_server_is_up = true; try_to_resend = false }
  | decode_error ↦ record {
    delivered =
        contains_text (codes "unknown station/position") r.message
        || contains_text (codes "Missing or unknown stationid!") r.message;
    kv_server_is_up = true;
    try_to_resend = false;
  }
  | unknown n ↦ record { delivered = false; kv_server_is_up = true; try_to_resend = false }
]

-- sendMessageToKvalobs, behind sendDataToKvalobs: its catch clause, and its answer to a result.
unfoldable pub on_sent : Tried (Result × Bytes) → Delivery
unfolding on_result
on_sent (raises what) = record { delivered = false; kv_server_is_up = false; try_to_resend = true }
on_sent (gives p) = on_result p.0

-- newData: a result, or an exception for the try block around it.
abbrev pub tried_data : Answer → Tried Result
tried_data (answers r) = gives r
tried_data (throws what) = raises what

-- What follows a statement, which an exception of it leaves out.
abbrev pub unless_raised {ℓ κ} :
    {W : Type 0} {A : Type ℓ} {B : Type κ} → (A → Action W (Tried B)) → Tried A → Action W (Tried B)
unless_raised f (gives a) = f a
unless_raised f (raises what) = done (raises what)

module _ {W : Type 0} (sys : System W) where
  -- The loop of sendDataToKvalobs over the other servers: the result and `ost`.
  send_to_servers : Bytes → Bytes → List Bytes → Result → Bytes → Action W (Tried (Result × Bytes))
  send_to_servers message obs_type [] res sent = done (gives (res, sent))
  send_to_servers message obs_type (server ∷ servers) res sent =
      let again : Result → Bytes → Action W (Tried (Result × Bytes)) =
        λ r s. send_to_servers message obs_type servers r s in
      do
        a ← call (sys.new_data_to server message obs_type)
        unless_raised (λ (p : Result × Bytes). again p.0 p.1)
            (caught (λ what. (res, sent ++ (codes ", " ++ (server ++ codes " (FAILED)"))))
              (map_tried (λ r. (r, sent ++ (codes ", " ++ server))) (tried_data a)))

  -- The first try block of sendDataToKvalobs, with its catch clause.
  first_result : Answer → Tried (Result × Bytes)
  first_result a =
      caught (λ what. (record { res = error; message = what }, sys.host ++ codes " (FAILED)"))
        (map_tried (λ r. (r, sys.host)) (tried_data a))

  -- App::sendDataToKvalobs: the result and `sentTo`, or an exception that leaves it.
  unfoldable pub send_data : List Bytes → Bytes → Bytes → Action W (Tried (Result × Bytes))
  unfolding send_to_servers first_result
  send_data servers message obs_type = do
    a ← call (sys.new_data message obs_type)
    unless_raised (λ (p : Result × Bytes). send_to_servers message obs_type servers p.0 p.1)
        (first_result a)

  -- sendMessageToKvalobs
  unfoldable pub send_message : Config → Bytes → Bytes → Action W Delivery
  unfolding send_data on_sent
  send_message conf msg obs_type = do t ← send_data conf.servers msg obs_type; done (on_sent t)

  -- The end of writeFile, on a file opened for writing: the empty text for a failure.
  write_content : Bytes → Bytes → Action W Bytes
  write_content file content = do
    written ← call (sys.write file content)
    elim written [ true ↦ done file | false ↦ (do u ← command (sys.unlink file); done []) ]

  -- A name that writeFile tries: the number follows the first name without one.
  unfoldable pub candidate : Bytes → ℕ → Bytes
  candidate stem i = if i == 0 then stem else stem ++ b'_' ∷ decimal i

  -- The names that writeFile tries: `count` of them, from number `i` on.
  write_template : ℕ → ℕ → Bytes → Bytes → Action W Bytes
  unfolding write_content
  write_template zero i stem content = done []
  write_template (suc count) i stem content =
      let file = candidate stem i in
      let again : Action W Bytes = write_template count (i + 1) stem content in
      do
        exists ← call (sys.open_read file)
        elim exists [
          | true ↦ again
          | false ↦ (do
            opened ← call (sys.open_write file)
            elim opened [ true ↦ write_content file content | false ↦ again ])
        ]

  -- writeFile. Without a template the name follows what `ost` holds already.
  unfoldable pub write_file : Bytes → Bytes → Bool → Bytes → Action W Bytes
  unfolding write_template
  write_file dir fname is_template content = do
    ts ← call sys.now
    elim is_template [
      | true ↦ write_template max_count 0 (dir ++ (fname ++ ts)) content
      | false ↦ (do
        opened ← call (sys.open_write (dir ++ (fname ++ (ts ++ (dir ++ fname)))))
        elim opened [
          | true ↦ write_content (dir ++ (fname ++ (ts ++ (dir ++ fname)))) content
          | false ↦ done []
        ])
    ]

  -- The text that goes to kvalobs.
  unfoldable pub message_text : MsgInfo → Bytes → Bytes
  message_text info msg = if info.add_what_in_front then info.what ++ (codes " \n" ++ msg) else msg

  unfoldable pub decoder_of : Bytes → MsgInfo → Bytes
  decoder_of decoder info =
      if is_empty info.decoder_extra then decoder else decoder ++ b'/' ∷ info.decoder_extra

  -- sendWMORaport: a message is saved with its decoder on the first line.
  unfoldable pub save_message : Config → Bytes → Bytes → Action W Bytes
  unfolding write_file
  save_message conf decoder text =
      write_file conf.data2kvdir (codes "kvdata_" ++ (decoder ++ codes "_")) true
        (decoder ++ (b'\n' ∷ (text ++ codes "\n")))

  -- sendWMORaport, behind a message: it is saved if it was not taken and may be sent again.
  after_message : Config → Bytes → Bytes → Delivery → Action W (Unit {0})
  unfolding save_message
  after_message conf decoder text d = elim (not d.delivered && d.try_to_resend) [
    | true ↦ (do f ← save_message conf decoder text; done tt)
    | false ↦ done tt
  ]

  -- sendWMORaport: one message.
  unfoldable pub send_one : Config → Bytes → Bytes → Action W (Unit {0})
  unfolding send_message after_message
  send_one conf decoder text = do
    d ← send_message conf text decoder
    after_message conf decoder text d

  send_list : Config → Bytes → MsgInfo → MsgList → Action W (Unit {0})
  unfolding send_one
  send_list conf decoder info [] = done tt
  send_list conf decoder info (m ∷ ms) =
      let again : Action W (Unit {0}) = send_list conf decoder info ms in
      do u ← send_one conf (decoder_of decoder info) (message_text info m); again

  send_map : Config → Bytes → MsgMap → Action W (Unit {0})
  unfolding send_list
  send_map conf decoder [] = done tt
  send_map conf decoder ((info, l) ∷ m) =
      let again : Action W (Unit {0}) = send_map conf decoder m in
      do u ← send_list conf decoder info l; again

  send_maps : Config → List (WmoRaport × MsgMap) → Action W (Unit {0})
  unfolding send_map
  send_maps conf [] = done tt
  send_maps conf ((k, m) ∷ ms) =
      let again : Action W (Unit {0}) = send_maps conf ms in
      if is_empty (get_decoder k conf.raports)
      then again
      else (do u ← send_map conf (get_decoder k conf.raports) m; again)

  -- sendWMORaport
  unfoldable pub send_wmo_raport : Config → WmoRaportState → Action W (Unit {0})
  unfolding send_maps
  send_wmo_raport conf r = send_maps conf (get_raports r (raports_to_collect conf.raports []))
