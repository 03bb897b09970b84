-- ===== src/Collector.antt =====
-- Class CollectWmoReports of src/CollectWmoReports.cc: the list of known files over a poll, and
-- what becomes of the new observations.
pub mod Invariant
pub mod Listed
pub mod Sent
pub mod StateFile
pub mod Run
use kvnorcom.Prelude.{
  ℕ, Bool, true, false, ◌||◌, Option, none, some, List, [], ◌∷◌, ◌++◌, any, is_empty, if◌then◌else◌,
}
use kvnorcom.Prelude.Bytes.{Bytes, codes, equal}
use kvnorcom.Map.{find, modify, erase}
use kvnorcom.Map.Order.{less}
use kvnorcom.Raport.{no_messages, split}
use kvnorcom.Raport.Handlers.{Library, WmoRaportState}
use kvnorcom.Raport.Print.{print}
use kvnorcom.Config.{Config, raports_to_collect}
use kvnorcom.System.{System, Action, ◌>>=◌, done, call, inside}
use kvnorcom.System.File.{File, name_part}
use kvnorcom.Files.{FInfo, new_info, to_be_collected, check_entry, collect_entry}
use kvnorcom.Delivery.{write_file, send_wmo_raport}
use kvnorcom.Delivery.Saved.{get_file_list}

-- FInfoList: std::map<std::string, FInfo>
abbrev pub FInfoList : Type 0
FInfoList = List (Bytes × FInfo)

abbrev pub listed : Bytes → List File → Bool
listed name files = any (λ f. equal f.name name) files

-- checkForNewObservations: the entries whose files are gone are erased.
unfoldable pub erase_gone : List File → FInfoList → FInfoList
erase_gone files [] = []
erase_gone files ((name, fi) ∷ l) =
    let rest = erase_gone files l in if listed name files then (name, fi) ∷ rest else rest

module _ {W : Type 0} (sys : System W) (conf : Config) where
  -- A known file, behind check_entry: the list, and whether there is something to collect.
  put_entry : Bytes → FInfoList → Option FInfo → FInfoList × Bool
  put_entry name l none = (erase less name l, false)
  put_entry name l (some fi) = (modify less name fi (λ _. fi) l, to_be_collected fi)

  -- The body of the loop over the directory's files.
  unfoldable pub check_file : File → FInfoList → Action W (FInfoList × Bool)
  unfolding put_entry
  check_file f l = elim (find less f.name l) [
    | none ↦ done (modify less f.name (new_info f) (λ _. new_info f) l, false)
    | some fi ↦ (do r ← check_entry sys conf.debug conf.tmpdir f fi; done (put_entry f.name l r))
  ]

  unfoldable pub check_files : List File → FInfoList → Bool → Action W (FInfoList × Bool)
  unfolding check_file
  check_files [] l found = done (l, found)
  check_files (f ∷ fs) l found =
      let again : FInfoList → Bool → Action W (FInfoList × Bool) = λ l' b. check_files fs l' b in
      do r ← check_file f l; again r.0 (found || r.1)

  -- checkForNewObservations behind getFileList.
  unfoldable pub poll_files : FInfoList → List File → Action W (FInfoList × Bool)
  poll_files l [] = done (l, false)
  poll_files l (f ∷ fs) = check_files (f ∷ fs) (erase_gone (f ∷ fs) l) false

  -- checkForNewObservations
  unfoldable pub check_for_new_observations : FInfoList → Action W (FInfoList × Bool)
  check_for_new_observations l = do
    files ← get_file_list sys conf conf.synopdir []
    poll_files l files

  -- doNewObs in test mode.
  write_test : Bytes → Bytes → WmoRaportState → Action W (Unit {0})
  write_test filename obs r = do
    a ←
        write_file sys conf.data2kvdir (codes "WMORaport_" ++ (filename ++ codes "_")) true
          (print r ++ (codes "\n--------- ERROR(S) ---------\n" ++ (r.error_str ++ codes "\n")))
    b ← write_file sys conf.data2kvdir (filename ++ codes "_") true obs
    done tt

  -- A split that has found something wrong, behind which it goes on.
  write_warning : Bytes → Bytes → WmoRaportState → Action W (Unit {0})
  write_warning filename obs r = elim (is_empty r.error_str) [
    | true ↦ done tt
    | false ↦ (do
      f ←
          write_file sys (conf.logdir ++ codes "norcom2kv/")
            (codes "datawarn_" ++ (filename ++ codes "_")) true obs
      done tt)
  ]

  on_split : Bytes → Bytes → Bool × WmoRaportState → Action W (Unit {0})
  unfolding write_test write_warning
  on_split filename obs (false, r) = do
    f ←
        write_file sys (conf.logdir ++ codes "norcom2kv/")
          (codes "dataerror_" ++ (filename ++ codes "_")) true obs
    done tt
  on_split filename obs (true, r) = do
    u ← write_warning filename obs r
    elim conf.test [ true ↦ write_test filename obs r | false ↦ send_wmo_raport sys conf r ]

  -- The splitting's library, what its unset variables hold, and the rounds given to its loops.
  module _ (lib : Library) (junk fuel rounds : ℕ) where
    -- doNewObs
    unfoldable pub do_new_obs : Bytes → Bytes → Action W (Unit {0})
    unfolding on_split
    do_new_obs file_name obs = do
      r ←
          inside
            (split lib junk fuel rounds obs (raports_to_collect conf.raports []) (no_messages []))
      on_split (name_part file_name) obs r

    -- collectObservations: a new part that is not empty.
    unfoldable pub do_if_any : Bytes → Bytes → Action W (Unit {0})
    unfolding do_new_obs
    do_if_any name part = if is_empty part then done tt else do_new_obs name part

    -- The body of collectObservations' loop.
    unfoldable pub collect_one : Bytes → FInfo → Action W FInfo
    unfolding do_if_any
    collect_one name fi = elim (to_be_collected fi) [
      | false ↦ done fi
      | true ↦ (do r ← collect_entry sys conf.debug fi; u ← do_if_any name r.1; done r.0)
    ]

    -- collectObservations; a shutdown leaves the rest of the list as it is.
    unfoldable pub collect_observations : FInfoList → Action W FInfoList
    unfolding collect_one
    collect_observations [] = done []
    collect_observations ((name, fi) ∷ l) =
        let again : Action W FInfoList = collect_observations l in
        do
          stop ← call sys.shutdown
          elim stop [
            | true ↦ done ((name, fi) ∷ l)
            | false ↦ (do fi' ← collect_one name fi; l' ← again; done ((name, fi') ∷ l'))
          ]
