-- ===== src/Delivery/Saved/Each.antt =====
-- Which of the saved messages a pass over them comes to.
use kvnorcom.Prelude.{
  ◌≡◌, refl, Bool, true, false, not, ◌||◌, Bool-cases, Option-cases, inl, inr, List, [], ◌∷◌, ℕ,
  is_empty, drop, take, ◌+◌, arith,
}
use kvnorcom.Prelude.Bytes.{Bytes, codes}
use kvnorcom.Lines.{find_char}
use kvnorcom.Outcome.{
  returns, Returns, Returns-bind, Returns-map, Returns-both, Yields-self, Tried, gives,
}
use kvnorcom.Config.{Config}
use kvnorcom.System.{System, Result}
use kvnorcom.System.File.{File}
use kvnorcom.Files.{read_file}
use kvnorcom.Delivery.{
  Delivery, first_result, on_result, on_sent, send_to_servers, send_data, send_message,
}
use kvnorcom.Delivery.Saved.{
  get_file_list, after_send, send_content, send_saved, send_saved_loop, try_to_send_saved,
}
use kvnorcom.Delivery.Saved.Names.{AllNamed, get_file_list-AllNamed}
use kvnorcom.Delivery.Answers.{Answer-cases}

module _ {W : Type 0} (sys : System W) where
  -- No exception leaves the loop over the servers.
  send_to_servers-gives :
      (message obs_type : Bytes) (servers : List Bytes) (res : Result) (sent : Bytes) (w : W)
      → Returns
          (λ (p : Tried (Result × Bytes) × W). (q : Result × Bytes) × (p.0 ≡ gives q))
          (send_to_servers sys message obs_type servers res sent w)
  unfolding send_to_servers
  send_to_servers-gives message obs_type [] res sent w = ((res, sent), refl)
  send_to_servers-gives message obs_type (server ∷ servers) res sent w =
      elim (Answer-cases (sys.new_data_to server message obs_type w).0) [
        | inl (r, e) ↦ rw e (send_to_servers-gives message obs_type servers r _ _)
        | inr (t, e) ↦ rw e (send_to_servers-gives message obs_type servers res _ _)
      ]

  send_data-gives :
      (servers : List Bytes) (message obs_type : Bytes) (w : W)
      → Returns
          (λ (p : Tried (Result × Bytes) × W). (q : Result × Bytes) × (p.0 ≡ gives q))
          (send_data sys servers message obs_type w)
  unfolding send_data first_result
  send_data-gives servers message obs_type w =
      elim (Answer-cases (sys.new_data message obs_type w).0) [
        | inl (r, e) ↦ rw e (send_to_servers-gives message obs_type servers r _ _)
        | inr (t, e) ↦ rw e (send_to_servers-gives message obs_type servers _ _ _)
      ]

  on_result-up : (r : Result) → (on_result r).kv_server_is_up ≡ true
  unfolding on_result
  on_result-up r = ground arith

  send_message-up :
      (conf : Config) (msg obs_type : Bytes) (w : W)
      → Returns
          (λ (p : Delivery × W). p.0.kv_server_is_up ≡ true)
          (send_message sys conf msg obs_type w)
  unfolding send_message on_sent
  send_message-up conf msg obs_type w =
      Returns-bind _ (λ (p : Delivery × W). p.0.kv_server_is_up ≡ true)
        (send_data sys conf.servers msg obs_type w) _ (send_data-gives conf.servers msg obs_type w)
        (λ p (q, e). rw e (on_result-up q.0))

  -- A saved message never ends the pass.
  abbrev GoesOn : Bool × W → Type 0
  GoesOn p = p.0 ≡ true

  after_send-GoesOn :
      (name : Bytes) (d : Delivery) (w : W)
      → d.kv_server_is_up ≡ true
      → Returns GoesOn (after_send sys name d w)
  unfolding after_send
  after_send-GoesOn name d w up = elim (Bool-cases (d.delivered || not d.try_to_resend)) [
    | inl gone ↦ rw (after_send, gone) (ground arith)
    | inr kept ↦ rw (after_send, kept) up
  ]

  send_content-GoesOn :
      (conf : Config) (name content : Bytes) (i : ℕ) (w : W)
      → conf.test ≡ false
      → Returns GoesOn (send_content sys conf name content i w)
  unfolding send_content send_message
  send_content-GoesOn conf name content i w test = elim (Bool-cases (is_empty (take i content))) [
    | inl blank ↦ rw (send_content, blank) refl
    | inr typed ↦
        rw (send_content, typed, test)
          (Returns-bind (λ (p : Delivery × W). p.0.kv_server_is_up ≡ true) GoesOn
            (send_message sys conf (drop (i + 1) content) (take i content) w) _
            (send_message-up conf (drop (i + 1) content) (take i content) w)
            (λ (d, v) up. after_send-GoesOn name d v up))
  ]

  send_saved-GoesOn :
      (conf : Config) (name : Bytes) (w : W)
      → conf.test ≡ false
      → Returns GoesOn (send_saved sys conf name w)
  unfolding send_saved read_file
  send_saved-GoesOn conf name w test = elim (Option-cases (sys.read_stream name w).0) [
    | inl closed ↦ rw (send_saved, closed) refl
    | inr ((content, met), opened) ↦ elim (Bool-cases met) [
      | inr broken ↦ rw (send_saved, opened, broken) refl
      | inl whole ↦ elim (Option-cases (find_char b'\n' content)) [
        | inl one_line ↦ rw (send_saved, opened, whole, one_line) refl
        | inr (i, found) ↦
            rw (send_saved, opened, whole, found) (send_content-GoesOn conf name content i _ test)
      ]
    ]
  ]

  -- The pass: each file is tried behind the one in front of it, up to a shutdown.
  pub data TriesEach (conf : Config) : List File → W → W → Type 0 where
    none_left : (w : W) → TriesEach conf [] w w
    shut_down :
        (f : File) (fs : List File) (w : W)
        → (sys.shutdown w).0 ≡ true
        → TriesEach conf (f ∷ fs) w (sys.shutdown w).1
    tries :
        (f : File) (fs : List File) (on : Bool) (w v v' : W)
        → (sys.shutdown w).0 ≡ false
        → send_saved sys conf f.name (sys.shutdown w).1 ≡ returns (on, v)
        → TriesEach conf fs v v'
        → TriesEach conf (f ∷ fs) w v'

  send_saved_loop-TriesEach :
      (conf : Config) (fs : List File) (w : W)
      → conf.test ≡ false
      → Returns (λ p. TriesEach conf fs w p.1) (send_saved_loop sys conf fs w)
  unfolding send_saved_loop
  send_saved_loop-TriesEach conf [] w test = none_left w
  send_saved_loop-TriesEach conf (f ∷ fs) w test = elim (Bool-cases (sys.shutdown w).0) [
    | inl stop ↦ rw (send_saved_loop, stop) (shut_down f fs w stop)
    | inr go ↦
        let sends = send_saved sys conf f.name (sys.shutdown w).1 in
        rw (send_saved_loop, go)
          (Returns-bind (λ p. GoesOn p × (sends ≡ returns p)) (λ p. TriesEach conf (f ∷ fs) w p.1)
            sends _
            (Returns-both GoesOn (λ p. sends ≡ returns p) sends
              (send_saved-GoesOn conf f.name (sys.shutdown w).1 test) (Yields-self sends))
            (λ (on, v) (goes_on, sent). rw goes_on (
              Returns-map (λ p. TriesEach conf fs v p.1) (λ p. TriesEach conf (f ∷ fs) w p.1)
                (send_saved_loop sys conf fs v) (λ p each. tries f fs on w v p.1 go sent each)
                (send_saved_loop-TriesEach conf fs v test))))
  ]

  -- The files of the directory of saved messages have been tried.
  abbrev pub Passed : Config → W → Unit {0} × W → Type 0
  Passed conf w (u, v') =
      (fs : List File) × (v : W) × (get_file_list sys conf conf.data2kvdir (codes "kvdata_*") w
        ≡ returns (fs, v))
      × TriesEach conf fs v v'

  -- tryToSendSavedObservations, out of test mode: it returns, whatever the system and kvalobs answer,
  -- their exceptions included, and has gone through the files of saved messages to the end, or to a
  -- shutdown. No file is left out because of what became of one in front of it.
  pub try_to_send_saved-TriesEach :
      (conf : Config) (w : W)
      → conf.test ≡ false
      → Returns (Passed conf w) (try_to_send_saved sys conf w)
  unfolding try_to_send_saved
  try_to_send_saved-TriesEach conf w test =
      let lists = get_file_list sys conf conf.data2kvdir (codes "kvdata_*") w in
      Returns-bind (λ p. AllNamed p.0 × (lists ≡ returns p)) (Passed conf w) lists _
        (Returns-both (λ p. AllNamed p.0) (λ p. lists ≡ returns p) lists
          (get_file_list-AllNamed sys conf conf.data2kvdir (codes "kvdata_*") w)
          (Yields-self lists))
        (λ (fs, v) (named, listed).
          Returns-map (λ p. TriesEach conf fs v p.1) (Passed conf w) (send_saved_loop sys conf fs v)
            (λ p each. (fs, v, listed, each)) (send_saved_loop-TriesEach conf fs v test))
