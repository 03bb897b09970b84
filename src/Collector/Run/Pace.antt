-- ===== src/Collector/Run/Pace.antt =====
-- When run polls, when it sends what was saved, and when it sleeps.
use mathlib.Core.Path.{subst}
use kvnorcom.Prelude.{
  ℕ, zero, suc, ◌+◌, ◌≤◌, ◌<◌, ◌≡◌, refl, Bool, true, false, ◌||◌, Bool-cases, inl, inr, ◌↔◌, List,
  [], ◌∷◌, ◌++◌, sym, ◌∙◌, is_empty, if◌then◌else◌, arith,
}
use kvnorcom.Prelude.Bytes.{Bytes, codes}
use kvnorcom.Outcome.{returns, Yields, Yields-bind, Yields-map, Yields-self}
use kvnorcom.Raport.Handlers.{Library}
use kvnorcom.Config.{Config}
use kvnorcom.System.{System}
use kvnorcom.Delivery.Saved.{try_to_send_saved}
use kvnorcom.Collector.{FInfoList}
use kvnorcom.Collector.StateFile.{Reader, read_finfo_list}
use kvnorcom.Collector.Run.{
  RunState, begin, is_due, poll, poll_if_due, resend_if_due, rest_if_idle, run_round, run_loop, run,
}

-- What a round of the loop has done: the time that it found, and whether it has polled the
-- directory and gone through the saved messages.
pub record Round : Type 0 where
  pub now : ℕ
  pub polled : Bool
  pub resent : Bool

-- The rounds behind a poll and a resending at the given times: each polls exactly where 3 seconds
-- have passed since the last poll, and resends exactly where 60 have since the last resending.
abbrev pub Paced : ℕ → ℕ → List Round → Type 0
Paced poll_time resend_time [] = Unit
Paced poll_time resend_time (r ∷ rs) =
    ((r.polled ≡ true) ↔ (poll_time + 3 ≤ r.now))
    × ((r.resent ≡ true) ↔ (resend_time + 60 ≤ r.now))
    × Paced (if r.polled then r.now else poll_time) (if r.resent then r.now else resend_time) rs

is_due_iff :
    (delay last now : ℕ) → 0 < delay → (is_due delay last now ≡ true) ↔ (last + delay ≤ now)
unfolding is_due
is_due_iff delay last now h = ground arith

module _ {W : Type 0} (sys : System W) (conf : Config) (reader : Reader) (lib : Library)
    (junk fuel rounds : ℕ) (state_file : Bytes) where
  -- With a poll, or without one: then the list and the surroundings stay.
  abbrev pub Polls : Bool → FInfoList → W → FInfoList → W → Type 0
  Polls true l w l' w' = poll sys conf reader lib junk fuel rounds state_file l w ≡ returns (l', w')
  Polls false l w l' w' = (l' ≡ l) × (w' ≡ w)

  abbrev pub Resends : Bool → W → W → Type 0
  Resends true w w' = try_to_send_saved sys conf w ≡ returns (tt, w')
  Resends false w w' = w' ≡ w

  -- A round that has done neither ends with the sleep of a second.
  abbrev pub Makes : Round → FInfoList → W → FInfoList → W → Type 0
  Makes r l w l' w' =
      (r.now ≡ (sys.time w).0)
      × (v : W) × Polls r.polled l (sys.time w).1 l' v
      × (v' : W) × Resends r.resent v v'
      × (w' ≡ (if r.polled || r.resent then v' else sys.sleep 1 v'))

  -- The rounds of a run up to the shutdown.
  pub data Rounds : List Round → FInfoList → W → FInfoList → W → Type 0 where
    stopped :
        (l : FInfoList) (w : W) → (sys.shutdown w).0 ≡ true → Rounds [] l w l (sys.shutdown w).1
    goes_on :
        (r : Round) (rs : List Round) (l l' l'' : FInfoList) (w w' w'' : W)
        → (sys.shutdown w).0 ≡ false
        → Makes r l (sys.shutdown w).1 l' w'
        → Rounds rs l' w' l'' w''
        → Rounds (r ∷ rs) l w l'' w''

  abbrev round_of : ℕ → RunState → Round
  round_of now s = record {
    now = now;
    polled = is_due 3 s.new_obs_check_time now;
    resent = is_due 60 s.saved_obs_check_time now;
  }

  -- A round that returns, with the times that the state holds behind it.
  abbrev Made : RunState → W → RunState × W → Type 0
  Made s w (t, w') =
      let r = round_of (sys.time w).0 s in
      Makes r s.file_info_list w t.file_info_list w'
      × (t.new_obs_check_time ≡ (if r.polled then r.now else s.new_obs_check_time))
      × (t.saved_obs_check_time ≡ (if r.resent then r.now else s.saved_obs_check_time))

  poll_if_due-Polls :
      (now : ℕ) (s : RunState) (w : W)
      → Yields
          (λ (p : RunState × W).
            Polls (is_due 3 s.new_obs_check_time now) s.file_info_list w p.0.file_info_list p.1
            × (p.0.new_obs_check_time
                ≡ (if is_due 3 s.new_obs_check_time now then now else s.new_obs_check_time))
            × (p.0.saved_obs_check_time ≡ s.saved_obs_check_time))
          (poll_if_due sys conf reader lib junk fuel rounds state_file now s w)
  unfolding poll_if_due
  poll_if_due-Polls now s w = elim (Bool-cases (is_due 3 s.new_obs_check_time now)) [
    | inr early ↦ rw (poll_if_due, early) ((refl, refl), refl, refl)
    | inl due ↦
        rw (poll_if_due, due)
          (Yields-bind _ _ (poll sys conf reader lib junk fuel rounds state_file s.file_info_list w)
            _ (Yields-self _) (λ p e. (e, refl, refl)))
  ]

  resend_if_due-Resends :
      (now before : ℕ) (s : RunState) (w : W)
      → s.saved_obs_check_time ≡ before
      → Yields
          (λ (p : RunState × W).
            Resends (is_due 60 before now) w p.1
            × (p.0.saved_obs_check_time ≡ (if is_due 60 before now then now else before))
            × (p.0.new_obs_check_time ≡ s.new_obs_check_time)
            × (p.0.file_info_list ≡ s.file_info_list))
          (resend_if_due sys conf reader lib junk fuel rounds now s w)
  unfolding resend_if_due
  resend_if_due-Resends now before s w at = elim (Bool-cases (is_due 60 before now)) [
    | inr early ↦ rw (resend_if_due, at, early) (refl, at, refl, refl)
    | inl due ↦
        rw (resend_if_due, at, due)
          (Yields-bind _ _ (try_to_send_saved sys conf w) _ (Yields-self _)
            (λ (u, v) e. (e, refl, refl, refl)))
  ]

  rest_if_idle-sleeps :
      (now : ℕ) (s : RunState) (w : W)
      → rest_if_idle sys conf reader lib junk fuel rounds now s w
        ≡ returns (
          tt,
          if is_due 3 s.new_obs_check_time now || is_due 60 s.saved_obs_check_time now
              then w
              else sys.sleep 1 w,
        )
  unfolding rest_if_idle
  rest_if_idle-sleeps now s w =
      elim (Bool-cases
        (is_due 3 s.new_obs_check_time now || is_due 60 s.saved_obs_check_time now)) [
          | inl busy ↦ rw (rest_if_idle, busy) refl
          | inr idle ↦ rw (rest_if_idle, idle) refl
        ]

  run_round-Made :
      (s : RunState) (w : W)
      → Yields (Made s w) (run_round sys conf reader lib junk fuel rounds state_file s w)
  unfolding run_round
  run_round-Made s w =
      let now = (sys.time w).0 in
      Yields-bind _ (Made s w)
        (poll_if_due sys conf reader lib junk fuel rounds state_file now s (sys.time w).1) _
        (poll_if_due-Polls now s (sys.time w).1)
        (λ (t, v) (polls, set, kept).
          Yields-bind _ (Made s w) (resend_if_due sys conf reader lib junk fuel rounds now t v) _
            (resend_if_due-Resends now s.saved_obs_check_time t v kept)
            (λ (t', v') (resends, set', kept', same). rw (rest_if_idle-sleeps now s v') (
              (
                refl,
                v,
                subst
                    (λ l.
                      Polls (is_due 3 s.new_obs_check_time now) s.file_info_list (sys.time w).1 l v)
                    (sym same) polls,
                v',
                resends,
                refl,
              ),
              kept' ∙ set,
              set',
            )))

  -- What a run of the loop from a state has done.
  abbrev Ran : RunState → W → RunState × W → Type 0
  Ran s w (t, w') =
      (rs : List Round) × Rounds rs s.file_info_list w t.file_info_list w'
      × Paced s.new_obs_check_time s.saved_obs_check_time rs

  run_loop-Ran :
      (n : ℕ) (s : RunState) (w : W)
      → Yields (Ran s w) (run_loop sys conf reader lib junk fuel rounds n state_file s w)
  unfolding run_loop
  run_loop-Ran zero s w = tt
  run_loop-Ran (suc n) s w = elim (Bool-cases (sys.shutdown w).0) [
    | inl stop ↦ rw (run_loop, stop) ([], stopped s.file_info_list w stop, tt)
    | inr on ↦
        rw (run_loop, on)
          (Yields-bind (Made s (sys.shutdown w).1) (Ran s w)
            (run_round sys conf reader lib junk fuel rounds state_file s (sys.shutdown w).1) _
            (run_round-Made s (sys.shutdown w).1)
            (λ (t, v) (makes, set, set').
              Yields-map (Ran t v) (Ran s w)
                (run_loop sys conf reader lib junk fuel rounds n state_file t v)
                (λ (u, v') (rs, ran, paced).
                  let r = round_of (sys.time (sys.shutdown w).1).0 s in
                  (
                    r ∷ rs,
                    goes_on r rs s.file_info_list t.file_info_list u.file_info_list w v v' on makes
                        ran,
                    (
                      is_due_iff 3 s.new_obs_check_time r.now (omega arith),
                      is_due_iff 60 s.saved_obs_check_time r.now (omega arith),
                      subst (λ a. Paced a (if r.resent then r.now else s.saved_obs_check_time) rs)
                          set (subst (λ b. Paced t.new_obs_check_time b rs) set' paced),
                    ),
                  ))
                (run_loop-Ran n t v)))
  ]

module _ {W : Type 0} (sys : System W) (conf : Config) (reader : Reader) (lib : Library)
    (junk fuel rounds : ℕ) where
  -- A run that has been ended by a shutdown has read the list of known files from its state file,
  -- has gone through rounds, and returns 0.
  abbrev pub RanPaced : Bytes → W → ℕ × W → Type 0
  RanPaced state_file w (status, w') =
      (status ≡ 0)
      × (l : FInfoList) × (v : W) × (l' : FInfoList) × (rs : List Round) × (read_finfo_list sys
            reader state_file [] w
          ≡ returns (l, v))
      × Rounds sys conf reader lib junk fuel rounds state_file rs l v l' w'
      × Paced 0 0 rs

  -- run has a directory to look into, and returns within the rounds that it is given. Then it was a
  -- shutdown that ended it, and its status is 0. From the list that it read at its start it has gone
  -- through rounds: each polled the directory, collecting and saving what the poll found, exactly
  -- where 3 seconds had passed since the last poll; it then went through the saved messages exactly
  -- where 60 seconds had passed since the last time; and it slept for a second exactly where it did
  -- neither. Besides, it only looked at the clock and for a shutdown.
  pub run-Paced :
      (n : ℕ) (progname : Bytes) (w : W)
      → is_empty conf.synopdir ≡ false
      → Yields
          (RanPaced (conf.workdir ++ (progname ++ codes "_finfo.dat")) w)
          (run sys conf reader lib junk fuel rounds n progname w)
  unfolding run
  run-Paced n progname w given =
      let state_file = conf.workdir ++ (progname ++ codes "_finfo.dat") in
      rw (run, given)
        (Yields-bind _ (RanPaced state_file w) (read_finfo_list sys reader state_file [] w) _
          (Yields-self _)
          (λ (l, v) read.
            Yields-bind _ (RanPaced state_file w)
              (run_loop sys conf reader lib junk fuel rounds n state_file (begin l) v) _
              (run_loop-Ran sys conf reader lib junk fuel rounds state_file n (begin l) v)
              (λ (s, w') (rs, ran, paced). (refl, l, v, s.file_info_list, rs, read, ran, paced))))
