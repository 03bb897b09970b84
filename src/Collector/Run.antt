-- ===== src/Collector/Run.antt =====
-- CollectWmoReports::run of src/CollectWmoReports.cc: the loop around the polls and the sending of
-- what was saved.
pub mod Invariant
pub mod Restart
pub mod Pace
use kvnorcom.Prelude.{
  ℕ, zero, suc, ◌-◌, Bool, true, false, not, ◌||◌, [], ◌++◌, leb, is_empty, if◌then◌else◌,
}
use kvnorcom.Prelude.Bytes.{Bytes, codes}
use kvnorcom.Outcome.{running}
use kvnorcom.Raport.Handlers.{Library}
use kvnorcom.Config.{Config}
use kvnorcom.System.{System, Action, ◌>>=◌, done, call, command}
use kvnorcom.Delivery.Saved.{try_to_send_saved}
use kvnorcom.Collector.{FInfoList, check_for_new_observations, collect_observations}
use kvnorcom.Collector.StateFile.{Reader, save_finfo_list, read_finfo_list}

-- What run holds from round to round: the list of known files and the times of the last checks,
-- in seconds.
pub record RunState : Type 0 where
  pub file_info_list : FInfoList
  pub new_obs_check_time : ℕ
  pub saved_obs_check_time : ℕ

-- The state that the loop starts with.
abbrev pub begin : FInfoList → RunState
begin l = record { file_info_list = l; new_obs_check_time = 0; saved_obs_check_time = 0 }

-- `tNow - last >= delay` on time_t: a clock that was set back is not due.
unfoldable pub is_due : ℕ → ℕ → ℕ → Bool
is_due delay last now = leb delay (now - last)

module _ {W : Type 0} (sys : System W) (conf : Config) (reader : Reader) (lib : Library)
    (junk fuel rounds : ℕ) where
  -- What follows a poll: with something to collect, the collection and the saving of the list.
  unfoldable pub on_poll : Bytes → FInfoList × Bool → Action W FInfoList
  on_poll state_file (l, false) = done l
  on_poll state_file (l, true) = do
    l' ← collect_observations sys conf lib junk fuel rounds l
    ok ← save_finfo_list sys state_file l'
    done l'

  unfoldable pub poll : Bytes → FInfoList → Action W FInfoList
  poll state_file l = do r ← check_for_new_observations sys conf l; on_poll state_file r

  -- DELAY is 3.
  poll_if_due : Bytes → ℕ → RunState → Action W RunState
  poll_if_due state_file now s = elim (is_due 3 s.new_obs_check_time now) [
    | false ↦ done s
    | true ↦ (do
      l ← poll state_file s.file_info_list
      done (record s { file_info_list = l; new_obs_check_time = now }))
  ]

  -- RESEND_DELAY is 60.
  resend_if_due : ℕ → RunState → Action W RunState
  resend_if_due now s = elim (is_due 60 s.saved_obs_check_time now) [
    | false ↦ done s
    | true ↦ (do u ← try_to_send_saved sys conf; done (record s { saved_obs_check_time = now }))
  ]

  -- The end of a round: a second's sleep where nothing was due.
  rest_if_idle : ℕ → RunState → Action W (Unit {0})
  rest_if_idle now s =
      elim (is_due 3 s.new_obs_check_time now || is_due 60 s.saved_obs_check_time now) [
        | true ↦ done tt
        | false ↦ command (sys.sleep 1)
      ]

  -- The loop's body.
  unfoldable pub run_round : Bytes → RunState → Action W RunState
  unfolding poll_if_due resend_if_due rest_if_idle
  run_round state_file s = do
    now ← call sys.time
    s' ← poll_if_due state_file now s
    s'' ← resend_if_due now s'
    u ← rest_if_idle now s
    done s''

  -- `while( ! app.inShutdown() )`, for a number of rounds.
  run_loop : ℕ → Bytes → RunState → Action W RunState
  unfolding run_round
  run_loop zero state_file s = λ w. running
  run_loop (suc n) state_file s =
      let again : RunState → Action W RunState = λ s'. run_loop n state_file s' in
      do
        stop ← call sys.shutdown
        elim stop [ true ↦ done s | false ↦ (do s' ← run_round state_file s; again s') ]

  -- run: the program's exit status.
  unfoldable pub run : ℕ → Bytes → Action W ℕ
  unfolding run_loop
  run n progname w =
      if is_empty conf.synopdir
      then done 1 w
      else (do
        l ← read_finfo_list sys reader (conf.workdir ++ (progname ++ codes "_finfo.dat")) []
        s ← run_loop n (conf.workdir ++ (progname ++ codes "_finfo.dat")) (begin l)
        done 0)
          w
