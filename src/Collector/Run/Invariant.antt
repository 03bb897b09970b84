-- ===== src/Collector/Run/Invariant.antt =====
-- The states that run goes through, with surroundings that change between its rounds as they like.
use kvnorcom.Prelude.{ℕ, ◌<◌, ◌^◌, ◌≡◌, Bool, true, false, Bool-cases, inl, inr, some, [], ◌∷◌}
use kvnorcom.Prelude.Bytes.{Bytes}
use kvnorcom.Map.Order.{less}
use kvnorcom.Map.Sorted.{IsAbove}
use kvnorcom.Outcome.{returns, Yields-of}
use kvnorcom.Raport.Handlers.{Library}
use kvnorcom.Config.{Config}
use kvnorcom.System.{System}
use kvnorcom.System.Steps.{Gives, Gives-bind, Gives-any, Returns-Gives}
use kvnorcom.Files.{FInfo, to_be_collected, collect_entry}
use kvnorcom.Files.Kept.{IsEntry, collect_entry-IsEntry}
use kvnorcom.Delivery.Saved.{try_to_send_saved}
use kvnorcom.Collector.{
  FInfoList, check_for_new_observations, collect_one, collect_observations, do_if_any,
}
use kvnorcom.Collector.Invariant.{IsKept, check_for_new_observations-IsKept}
use kvnorcom.Collector.StateFile.{Reader, save_finfo_list, read_finfo_list}
use kvnorcom.Collector.StateFile.Kept.{read_finfo_list-IsKept}
use kvnorcom.Collector.Run.{
  RunState, begin, is_due, on_poll, poll, poll_if_due, resend_if_due, rest_if_idle, run_round,
}

module _ {W : Type 0} (sys : System W) (conf : Config) (lib : Library) (junk fuel rounds : ℕ) where
  collect_one-IsEntry :
      (name : Bytes) (fi : FInfo) (w : W)
      → IsEntry name fi
      → Gives (IsEntry name) (collect_one sys conf lib junk fuel rounds name fi w)
  unfolding collect_one
  collect_one-IsEntry name fi w h = elim (Bool-cases (to_be_collected fi)) [
    | inr idle ↦ rw (collect_one, idle) h
    | inl due ↦
        rw (collect_one, due)
          (Gives-bind (λ (r : FInfo × Bytes). IsEntry name r.0) (IsEntry name)
            (collect_entry sys conf.debug fi) _ w
            (Returns-Gives (λ (r : FInfo × Bytes). IsEntry name r.0) _
              (collect_entry-IsEntry sys conf.debug conf.tmpdir name fi w h))
            (λ r v k.
              Gives-any (IsEntry name) (do_if_any sys conf lib junk fuel rounds name r.1) _ v
                (λ u v'. k)))
  ]

  -- A list in order, with keys from those of `l`.
  abbrev KeptFrom : FInfoList → FInfoList → Type 0
  KeptFrom l l' = IsKept l' × ((k : Bytes) → IsAbove less k l → IsAbove less k l')

  -- The rest of the list behind an entry.
  KeptFrom-entry :
      (name : Bytes) (fi fi' : FInfo) (l l' : FInfoList)
      → IsAbove less name l
      → IsEntry name fi'
      → KeptFrom l l'
      → KeptFrom ((name, fi) ∷ l) ((name, fi') ∷ l')
  KeptFrom-entry name fi fi' l l' above p ((s, h), keys) =
      (((keys name above, s), (p, h)), λ k a. (a.0, keys k a.1))

  collect_observations-KeptFrom :
      (l : FInfoList) (w : W)
      → IsKept l
      → Gives (KeptFrom l) (collect_observations sys conf lib junk fuel rounds l w)
  unfolding collect_observations
  collect_observations-KeptFrom [] w h = (h, λ k a. a)
  collect_observations-KeptFrom ((name, fi) ∷ l) w ((above, s), (p, h)) =
      elim (Bool-cases (sys.shutdown w).0) [
        | inl stop ↦ rw (collect_observations, stop) (((above, s), (p, h)), λ k a. a)
        | inr on ↦
            rw (collect_observations, on)
              (Gives-bind (IsEntry name) (KeptFrom ((name, fi) ∷ l))
                (collect_one sys conf lib junk fuel rounds name fi) _ (sys.shutdown w).1
                (collect_one-IsEntry name fi (sys.shutdown w).1 p)
                (λ fi' v q.
                  Gives-bind (KeptFrom l) (KeptFrom ((name, fi) ∷ l))
                    (collect_observations sys conf lib junk fuel rounds l) _ v
                    (collect_observations-KeptFrom l v (s, h))
                    (λ l' v' k. KeptFrom-entry name fi fi' l l' above q k)))
      ]

module _ {W : Type 0} (sys : System W) (conf : Config) (reader : Reader) (lib : Library)
    (junk fuel rounds : ℕ) where
  on_poll-IsKept :
      (state_file : Bytes) (r : FInfoList × Bool) (w : W)
      → IsKept r.0
      → Gives IsKept (on_poll sys conf reader lib junk fuel rounds state_file r w)
  unfolding on_poll
  on_poll-IsKept state_file (l, false) w h = h
  on_poll-IsKept state_file (l, true) w h =
      Gives-bind (KeptFrom sys conf lib junk fuel rounds l) IsKept
        (collect_observations sys conf lib junk fuel rounds l) _ w
        (collect_observations-KeptFrom sys conf lib junk fuel rounds l w h)
        (λ l' v k. Gives-any IsKept (save_finfo_list sys state_file l') _ v (λ ok v'. k.0))

  poll-IsKept :
      (state_file : Bytes) (l : FInfoList) (w : W)
      → IsKept l
      → Gives IsKept (poll sys conf reader lib junk fuel rounds state_file l w)
  unfolding poll
  poll-IsKept state_file l w h =
      Gives-bind (λ (r : FInfoList × Bool). IsKept r.0) IsKept
        (check_for_new_observations sys conf l) _ w
        (Returns-Gives (λ (r : FInfoList × Bool). IsKept r.0) _
          (check_for_new_observations-IsKept sys conf l w h))
        (λ r v k. on_poll-IsKept state_file r v k)

  poll_if_due-IsKept :
      (state_file : Bytes) (now : ℕ) (s : RunState) (w : W)
      → IsKept s.file_info_list
      → Gives
          (λ (t : RunState). IsKept t.file_info_list)
          (poll_if_due sys conf reader lib junk fuel rounds state_file now s w)
  unfolding poll_if_due
  poll_if_due-IsKept state_file now s w h = elim (Bool-cases (is_due 3 s.new_obs_check_time now)) [
    | inr early ↦ rw (poll_if_due, early) h
    | inl due ↦
        rw (poll_if_due, due)
          (Gives-bind IsKept (λ (t : RunState). IsKept t.file_info_list)
            (poll sys conf reader lib junk fuel rounds state_file s.file_info_list) _ w
            (poll-IsKept state_file s.file_info_list w h) (λ l v k. k))
  ]

  resend_if_due-IsKept :
      (now : ℕ) (s : RunState) (w : W)
      → IsKept s.file_info_list
      → Gives
          (λ (t : RunState). IsKept t.file_info_list)
          (resend_if_due sys conf reader lib junk fuel rounds now s w)
  unfolding resend_if_due
  resend_if_due-IsKept now s w h = elim (Bool-cases (is_due 60 s.saved_obs_check_time now)) [
    | inr early ↦ rw (resend_if_due, early) h
    | inl due ↦
        rw (resend_if_due, due)
          (Gives-any (λ (t : RunState). IsKept t.file_info_list) (try_to_send_saved sys conf) _ w
            (λ u v. h))
  ]

  run_round-IsKept :
      (state_file : Bytes) (s : RunState) (w : W)
      → IsKept s.file_info_list
      → Gives
          (λ (t : RunState). IsKept t.file_info_list)
          (run_round sys conf reader lib junk fuel rounds state_file s w)
  unfolding run_round
  run_round-IsKept state_file s w h =
      Gives-bind (λ (t : RunState). IsKept t.file_info_list)
        (λ (t : RunState). IsKept t.file_info_list)
        (poll_if_due sys conf reader lib junk fuel rounds state_file (sys.time w).0 s) _
        (sys.time w).1 (poll_if_due-IsKept state_file (sys.time w).0 s (sys.time w).1 h)
        (λ t v k.
          Gives-bind (λ (t : RunState). IsKept t.file_info_list)
            (λ (t : RunState). IsKept t.file_info_list)
            (resend_if_due sys conf reader lib junk fuel rounds (sys.time w).0 t) _ v
            (resend_if_due-IsKept (sys.time w).0 t v k)
            (λ t' v' k'.
              Gives-any (λ (t : RunState). IsKept t.file_info_list)
                (rest_if_idle sys conf reader lib junk fuel rounds (sys.time w).0 s) _ v'
                (λ u v''. k')))

  -- The states of the loop: it starts with the list read from the state file, a round that returns
  -- gives the next one, and between two rounds the surroundings may have become any other.
  pub data Reachable (state_file : Bytes) : RunState → W → Type 0 where
    begun :
        (l : FInfoList) (w w' : W)
        → read_finfo_list sys reader state_file [] w ≡ returns (l, w')
        → Reachable state_file (begin l) w'
    next :
        (s s' : RunState) (w w' : W)
        → Reachable state_file s w
        → run_round sys conf reader lib junk fuel rounds state_file s w ≡ returns (s', w')
        → Reachable state_file s' w'
    meanwhile : (s : RunState) (w v : W) → Reachable state_file s w → Reachable state_file s v

  -- In every state that run reaches the list of known files is in order: sorted, each entry under
  -- the name of its file and with a checksum of 32 bits, and none that is collected with a copy. A
  -- lexical_cast to an unsigned int gives one of 32 bits, and the surroundings may change between
  -- the rounds as they like.
  pub Reachable-IsKept :
      (state_file : Bytes) (s : RunState) (w : W)
      → ((ds : Bytes) (n : ℕ) → reader.cast_unsigned ds ≡ some n → n < 2 ^ 32)
      → Reachable state_file s w
      → IsKept s.file_info_list
  Reachable-IsKept state_file t u in_range (begun l w w' e) =
      Yields-of (λ (p : FInfoList × W). IsKept p.0) _ (l, w')
        (read_finfo_list-IsKept sys reader in_range state_file w) e
  Reachable-IsKept state_file t u in_range (next s s' w w' r e) =
      Yields-of (λ (p : RunState × W). IsKept p.0.file_info_list) _ (s', w')
        (run_round-IsKept state_file s w (Reachable-IsKept state_file s w in_range r)) e
  Reachable-IsKept state_file t u in_range (meanwhile s w v r) =
      Reachable-IsKept state_file s w in_range r
