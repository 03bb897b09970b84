-- ===== src/Delivery/Answers.antt =====
-- What kvalobs answers and what becomes of the message.
use kvnorcom.Prelude.{◌≡◌, refl, List, [], ◌∷◌, ◌++◌, ◌⊎◌, inl, inr}
use kvnorcom.Prelude.Bytes.{Bytes}
use kvnorcom.Outcome.{returns, gives}
use kvnorcom.System.{System, Result, Answer, answers, throws}
use kvnorcom.Delivery.{first_result, send_data, send_to_servers}

pub Answer-cases : (a : Answer) → ((r : Result) × (a ≡ answers r)) ⊎ ((t : Bytes) × (a ≡ throws t))
Answer-cases (answers r) = inl (r, refl)
Answer-cases (throws t) = inr (t, refl)

module _ {W : Type 0} (sys : System W) (message obs_type : Bytes) where
  -- The last server that answers decides.
  send_to_servers-last :
      (servers : List Bytes) (server : Bytes) (res r : Result) (sent : Bytes) (w : W)
      → ((v : W) → (sys.new_data_to server message obs_type v).0 ≡ answers r)
      → (text : Bytes) × (v : W) × (send_to_servers sys message obs_type
            (servers ++ server ∷ [])
            res
            sent
            w
          ≡ returns (gives (r, text), v))
  unfolding send_to_servers
  send_to_servers-last [] server res r sent w h = rw (h w) (_, _, refl)
  send_to_servers-last (s ∷ ss) server res r sent w h =
      elim (Answer-cases (sys.new_data_to s message obs_type w).0) [
        | inl (q, e) ↦ rw e (send_to_servers-last ss server q r _ _ h)
        | inr (t, e) ↦ rw e (send_to_servers-last ss server res r _ _ h)
      ]

  -- Where the last of the other servers answers, its answer is the result, whatever the answers in
  -- front of it are: those of the main kvalobs too.
  pub send_data-last :
      (servers : List Bytes) (server : Bytes) (r : Result) (w : W)
      → ((v : W) → (sys.new_data_to server message obs_type v).0 ≡ answers r)
      → (text : Bytes) × (v : W) × (send_data sys (servers ++ server ∷ []) message obs_type w
          ≡ returns (gives (r, text), v))
  unfolding send_data first_result
  send_data-last servers server r w h = elim (Answer-cases (sys.new_data message obs_type w).0) [
    | inl (q, e) ↦ rw e (send_to_servers-last servers server _ r _ _ h)
    | inr (t, e) ↦ rw e (send_to_servers-last servers server _ r _ _ h)
  ]
