-- ===== src/Delivery/Sent.antt =====
-- What goes to kvalobs, and in which order.
use kvnorcom.Prelude.{
  ℕ, zero, suc, ◌+◌, ◌≡◌, refl, sym, ap, ◌∙◌, true, not, ◌&&◌, Bool-cases, inl, inr, List, [], ◌∷◌,
  ◌++◌, append-nil, append_assoc, is_empty, if◌then◌else◌,
}
use kvnorcom.Prelude.Bytes.{Bytes, codes}
use kvnorcom.Outcome.{Returns, Returns-bind, Returns-map}
use kvnorcom.Raport.Kinds.{WmoRaport}
use kvnorcom.Raport.Messages.{MsgInfo, MsgList, MsgMap}
use kvnorcom.Raport.Handlers.{WmoRaportState}
use kvnorcom.Raport.{get_raports}
use kvnorcom.Config.{Config, get_decoder, raports_to_collect}
use kvnorcom.System.{System, Action, ◌>>=◌, done, Result}
use kvnorcom.Delivery.Answers.{Answer-cases}
use kvnorcom.Delivery.{
  max_count, candidate, Delivery, send_to_servers, first_result, send_data, on_sent, send_message,
  write_content, write_template, write_file, save_message, message_text, decoder_of, after_message,
  send_one, send_list, send_map, send_maps, send_wmo_raport,
}

-- A record of what has been given to the main kvalobs: newData adds to it, and nothing else does.
pub record IsLog {W : Type 0} (sys : System W) (log : W → List (Bytes × Bytes)) : Type 0 where
  pub new_data : (m t : Bytes) (w : W) → log (sys.new_data m t w).1 ≡ log w ++ (m, t) ∷ []
  pub new_data_to : (s m t : Bytes) (w : W) → log (sys.new_data_to s m t w).1 ≡ log w
  pub now : (w : W) → log (sys.now w).1 ≡ log w
  pub open_read : (name : Bytes) (w : W) → log (sys.open_read name w).1 ≡ log w
  pub open_write : (name : Bytes) (w : W) → log (sys.open_write name w).1 ≡ log w
  pub write : (name text : Bytes) (w : W) → log (sys.write name text w).1 ≡ log w
  pub unlink : (name : Bytes) (w : W) → log (sys.unlink name w) ≡ log w

module _ {W : Type 0} (sys : System W) (log : W → List (Bytes × Bytes))
    (is_log : IsLog sys log) where
  -- The record has become longer by `xs`.
  abbrev pub Adds {ℓ} : {A : Type ℓ} → List (Bytes × Bytes) → W → A × W → Type 0
  Adds xs w p = log p.1 ≡ log w ++ xs

  pub Adds-bind {ℓ κ} :
      {A : Type ℓ} {B : Type κ} (xs ys : List (Bytes × Bytes)) (m : Action W A) (f : A → Action W B)
      (w : W)
      → Returns (Adds xs w) (m w)
      → ((a : A) (v : W) → Returns (Adds ys v) (f a v))
      → Returns (Adds (xs ++ ys) w) ((m >>= f) w)
  Adds-bind xs ys m f w h k = Returns-bind (Adds xs w) (Adds (xs ++ ys) w) (m w) _ h (λ p e.
      Returns-map (Adds ys p.1) (Adds (xs ++ ys) w) (f p.0 p.1)
        (λ q e'. e' ∙ ap (λ (l : List (Bytes × Bytes)). l ++ ys) e ∙ append_assoc (log w) xs ys)
        (k p.0 p.1))

  -- The same record.
  pub same : (v w : W) → log v ≡ log w → log v ≡ log w ++ []
  same v w e = e ∙ sym (append-nil (log w))

  write_content-Adds :
      (file content : Bytes) (v w : W)
      → log v ≡ log w
      → Returns (Adds [] w) (write_content sys file content v)
  unfolding write_content
  write_content-Adds file content v w e = elim (Bool-cases (sys.write file content v).0) [
    | inl good ↦ rw good (same _ w (is_log.write file content v ∙ e))
    | inr bad ↦ rw bad (same _ w (is_log.unlink file _ ∙ is_log.write file content v ∙ e))
  ]

  write_template-Adds :
      (count i : ℕ) (stem content : Bytes) (v w : W)
      → log v ≡ log w
      → Returns (Adds [] w) (write_template sys count i stem content v)
  unfolding write_template
  write_template-Adds zero i stem content v w e = same v w e
  write_template-Adds (suc count) i stem content v w e =
      let file = candidate sys stem i in
      let looked = (sys.open_read file v).1 in
      let seen : log looked ≡ log w = is_log.open_read file v ∙ e in
      let made : log (sys.open_write file looked).1 ≡ log w =
        is_log.open_write file looked ∙ seen in
      elim (Bool-cases (sys.open_read file v).0) [
        | inl exists ↦ rw exists (write_template-Adds count (i + 1) stem content looked w seen)
        | inr new ↦ elim (Bool-cases (sys.open_write file looked).0) [
          | inl opened ↦ rw (new, opened) (write_content-Adds file content _ w made)
          | inr closed ↦ rw (new, closed) (write_template-Adds count (i + 1) stem content _ w made)
        ]
      ]

  -- A file that is written gives nothing to kvalobs.
  pub write_file-Adds :
      (dir fname content : Bytes) (w : W)
      → Returns (Adds [] w) (write_file sys dir fname true content w)
  unfolding write_file
  write_file-Adds dir fname content w =
      write_template-Adds max_count 0 _ _ (sys.now w).1 w (is_log.now w)

  save_message-Adds :
      (conf : Config) (decoder text : Bytes) (w : W)
      → Returns (Adds [] w) (save_message sys conf decoder text w)
  unfolding save_message
  save_message-Adds conf decoder text w =
      write_file-Adds conf.data2kvdir (codes "kvdata_" ++ (decoder ++ codes "_"))
        (decoder ++ (b'\n' ∷ (text ++ codes "\n"))) w

  send_to_servers-Adds :
      (message obs_type : Bytes) (servers : List Bytes) (res : Result) (sent : Bytes) (v w : W)
      → log v ≡ log w
      → Returns (Adds [] w) (send_to_servers sys message obs_type servers res sent v)
  unfolding send_to_servers
  send_to_servers-Adds message obs_type [] res sent v w e = same v w e
  send_to_servers-Adds message obs_type (server ∷ servers) res sent v w e =
      let told = is_log.new_data_to server message obs_type v ∙ e in
      elim (Answer-cases (sys.new_data_to server message obs_type v).0) [
        | inl (r, answered) ↦
            rw (send_to_servers, answered)
              (send_to_servers-Adds message obs_type servers r _ _ w told)
        | inr (what, failed) ↦
            rw (send_to_servers, failed)
              (send_to_servers-Adds message obs_type servers res _ _ w told)
      ]

  servers-Adds :
      (conf : Config) (message obs_type : Bytes) (r : Result) (sent : Bytes) (w : W)
      → Returns (Adds ((message, obs_type) ∷ []) w) (
          (send_to_servers sys message obs_type conf.servers r sent >>= λ t. done (on_sent t))
            (sys.new_data message obs_type w).1)
  servers-Adds conf message obs_type r sent w =
      let v = (sys.new_data message obs_type w).1 in
      Returns-bind (Adds [] v) (Adds ((message, obs_type) ∷ []) w)
        (send_to_servers sys message obs_type conf.servers r sent v) _
        (send_to_servers-Adds message obs_type conf.servers r sent v v refl)
        (λ p e. e ∙ append-nil (log v) ∙ is_log.new_data message obs_type w)

  send_message-Adds :
      (conf : Config) (message obs_type : Bytes) (w : W)
      → Returns (Adds ((message, obs_type) ∷ []) w) (send_message sys conf message obs_type w)
  unfolding send_message send_data first_result
  send_message-Adds conf message obs_type w =
      elim (Answer-cases (sys.new_data message obs_type w).0) [
        | inl (r, answered) ↦ rw (send_message, answered) (servers-Adds conf message obs_type r _ w)
        | inr (what, failed) ↦ rw (send_message, failed) (servers-Adds conf message obs_type _ _ w)
      ]

  -- A message that is refused is saved, which gives nothing to kvalobs.
  after_message-Adds :
      (conf : Config) (decoder text : Bytes) (d : Delivery) (w : W)
      → Returns (Adds [] w) (after_message sys conf decoder text d w)
  unfolding after_message
  after_message-Adds conf decoder text d w =
      elim (Bool-cases (not d.delivered && d.try_to_resend)) [
        | inl again ↦
            rw (after_message, again)
              (Returns-bind (Adds [] w) (Adds [] w) (save_message sys conf decoder text w) _
                (save_message-Adds conf decoder text w) (λ p e. e))
        | inr good ↦ rw (after_message, good) (same w w refl)
      ]

  send_one-Adds :
      (conf : Config) (decoder text : Bytes) (w : W)
      → Returns (Adds ((text, decoder) ∷ []) w) (send_one sys conf decoder text w)
  unfolding send_one
  send_one-Adds conf decoder text w =
      Adds-bind ((text, decoder) ∷ []) [] (send_message sys conf text decoder) _ w
        (send_message-Adds conf text decoder w) (λ d v. after_message-Adds conf decoder text d v)

  -- What of a list, a map and the maps goes to kvalobs: the text of each message with its decoder.
  abbrev pub sent_list : Bytes → MsgInfo → MsgList → List (Bytes × Bytes)
  sent_list decoder info [] = []
  sent_list decoder info (m ∷ ms) =
      (message_text sys info m, decoder_of sys decoder info) ∷ sent_list decoder info ms

  abbrev pub sent_map : Bytes → MsgMap → List (Bytes × Bytes)
  sent_map decoder [] = []
  sent_map decoder ((info, l) ∷ m) = sent_list decoder info l ++ sent_map decoder m

  -- A type without a decoder has its messages left out.
  abbrev pub sent_maps : Config → List (WmoRaport × MsgMap) → List (Bytes × Bytes)
  sent_maps conf [] = []
  sent_maps conf ((k, m) ∷ ms) =
      if is_empty (get_decoder k conf.raports)
      then sent_maps conf ms
      else sent_map (get_decoder k conf.raports) m ++ sent_maps conf ms

  send_list-Adds :
      (conf : Config) (decoder : Bytes) (info : MsgInfo) (ms : MsgList) (w : W)
      → Returns (Adds (sent_list decoder info ms) w) (send_list sys conf decoder info ms w)
  unfolding send_list
  send_list-Adds conf decoder info [] w = same w w refl
  send_list-Adds conf decoder info (m ∷ ms) w =
      Adds-bind ((message_text sys info m, decoder_of sys decoder info) ∷ [])
        (sent_list decoder info ms)
        (send_one sys conf (decoder_of sys decoder info) (message_text sys info m)) _ w
        (send_one-Adds conf (decoder_of sys decoder info) (message_text sys info m) w)
        (λ u v. send_list-Adds conf decoder info ms v)

  send_map-Adds :
      (conf : Config) (decoder : Bytes) (m : MsgMap) (w : W)
      → Returns (Adds (sent_map decoder m) w) (send_map sys conf decoder m w)
  unfolding send_map
  send_map-Adds conf decoder [] w = same w w refl
  send_map-Adds conf decoder ((info, l) ∷ m) w =
      Adds-bind (sent_list decoder info l) (sent_map decoder m) (send_list sys conf decoder info l)
        _ w (send_list-Adds conf decoder info l w) (λ u v. send_map-Adds conf decoder m v)

  send_maps-Adds :
      (conf : Config) (ms : List (WmoRaport × MsgMap)) (w : W)
      → Returns (Adds (sent_maps conf ms) w) (send_maps sys conf ms w)
  unfolding send_maps
  send_maps-Adds conf [] w = same w w refl
  send_maps-Adds conf ((k, m) ∷ ms) w = elim (Bool-cases (is_empty (get_decoder k conf.raports))) [
    | inl unknown_type ↦ rw (send_maps, unknown_type) (send_maps-Adds conf ms w)
    | inr known ↦
        rw (send_maps, known)
          (Adds-bind (sent_map (get_decoder k conf.raports) m) (sent_maps conf ms)
            (send_map sys conf (get_decoder k conf.raports) m) _ w
            (send_map-Adds conf (get_decoder k conf.raports) m w) (λ u v. send_maps-Adds conf ms v))
  ]

  -- sendWMORaport returns, whatever the system and kvalobs answer. It has then given to the main
  -- kvalobs the text of each message that was collected, of a type that is asked for and has a
  -- decoder, once, with its decoder, and in the order of the types, of the maps and of their lists;
  -- and nothing else, refused messages or not.
  pub send_wmo_raport-Adds :
      (conf : Config) (r : WmoRaportState) (w : W)
      → Returns
          (Adds (sent_maps conf (get_raports r (raports_to_collect conf.raports []))) w)
          (send_wmo_raport sys conf r w)
  unfolding send_wmo_raport
  send_wmo_raport-Adds conf r w =
      send_maps-Adds conf (get_raports r (raports_to_collect conf.raports [])) w
