-- ===== src/Startup.antt =====
-- The start of the program: the constructor of class App (src/App.cc) with getDir, getKvServers,
-- createDir and checkdir.
pub mod Places
pub mod Quiet
use kvnorcom.Prelude.{
  ℕ, Bool, true, false, not, ◌&&◌, ◌||◌, Option, none, some, List, [], ◌∷◌, ◌++◌, ◌==◌, any, ltb,
  is_empty, if◌then◌else◌,
}
use kvnorcom.Prelude.Bytes.{Bytes, codes, equal, last_or}
use kvnorcom.Config.{Config, get_raport_conf}
use kvnorcom.Outcome.{fault}
use kvnorcom.System.{System, Action, ◌>>=◌, done, call}
use kvnorcom.System.Conf.{Section}
use kvnorcom.Delivery.Saved.{fix_path}

-- The signals that end the program.
pub data Signal : Type 0 where
  sigterm sigint : Signal

-- What the start calls of boost::filesystem, where none is a filesystem_error, and of the system.
pub record Directories (W : Type 0) : Type 0 where
  pub exists : Bytes → W → Option Bool × W
  pub create_directories : Bytes → W → Option (Unit {0}) × W
  pub is_directory : Bytes → W → Option Bool × W
  -- stat and S_ISDIR; none if the file cannot be stat'ed.
  pub stat_directory : Bytes → W → Option Bool × W
  -- access, for reading or for reading and writing.
  pub access : Bytes → Bool → W → Bool × W
  -- sigaction with sig_term for the handler: whether it is set.
  pub sigaction : Signal → W → Bool × W
  -- kvPath of one name and of two.
  pub kv_path : Bytes → Bytes
  pub kv_path_in : Bytes → Bytes → Bytes

-- getKvServers
unfoldable pub get_kv_servers : Option Section → List Bytes
get_kv_servers none = [] ∷ []
get_kv_servers (some conf) = elim (conf.values (codes "kvservers")) [
  | [] ↦ [] ∷ []
  | s ∷ ss ↦ s ∷ ss
]

-- App::options, which nothing calls: what it makes of test_.
unfoldable pub options : List Bytes → Bool → Bool
options [] test = test
options (name ∷ args) test = test || any (equal (codes "--test")) args

-- A part of the start that may call exit: none is exit( 1 ).
abbrev pub unless_exit {ℓ κ} :
    {W : Type 0} {A : Type ℓ} {B : Type κ}
    → (A → Action W (Option B))
    → Option A
    → Action W (Option B)
unless_exit f none = done none
unless_exit f (some a) = f a

abbrev pub and_then {ℓ κ} :
    {W : Type 0} {A : Type ℓ} {B : Type κ}
    → Action W (Option A)
    → (A → Action W (Option B))
    → Action W (Option B)
and_then m f = m >>= unless_exit f

-- Goes on, or exits.
abbrev pub require : {W : Type 0} → (W → Option Bool × W) → Action W (Option (Unit {0}))
require test = do
  r ← call test
  done (elim r [ none ↦ none | some b ↦ if b then some tt else none ])

module _ {W : Type 0} (sys : System W) (dirs : Directories W) (trim : Bytes → Bytes) where
  -- getDir
  unfoldable pub get_dir : Section → Bytes → Bytes
  get_dir conf key = fix_path (trim (conf.text key []))

  -- getDir through the pointer that getConfiguration gives: a null pointer is a fault.
  unfoldable pub get_dir_of : Option Section → Bytes → Action W Bytes
  get_dir_of none key w = fault
  get_dir_of (some conf) key w = done (get_dir conf key) w

  -- createDir behind the creation.
  checked_dir : Bytes → Action W (Option Bytes)
  checked_dir dir = and_then (require (dirs.is_directory dir)) (λ u. done (some (fix_path dir)))

  -- createDir: what becomes of the answer of exists.
  on_exists : Bytes → Option Bool → Action W (Option Bytes)
  unfolding checked_dir
  on_exists dir none = done none
  on_exists dir (some true) = checked_dir dir
  on_exists dir (some false) = and_then (call (dirs.create_directories dir)) (λ u. checked_dir dir)

  -- createDir: what it leaves in its parameter.
  unfoldable pub create_dir : Bytes → Action W (Option Bytes)
  unfolding on_exists
  create_dir dir = do there ← call (dirs.exists dir); on_exists dir there

  -- checkdir
  unfoldable pub check_dir : Bytes → Bool → Action W (Option Bytes)
  check_dir dir rwaccess = and_then (require (dirs.stat_directory dir)) λ u. do
    ok ← call (dirs.access dir rwaccess)
    done (
        if not ok
        then none
        else if not (is_empty dir) && not (last_or 0 dir == b'/')
        then some (dir ++ b'/' ∷ [])
        else some dir)

  -- The names of the directories: workdir, data2kvdir, tmpdir and logdir.
  unfoldable pub workdir_of : Section → Bytes
  workdir_of conf = fix_path (
      if is_empty (get_dir conf (codes "workdir"))
      then dirs.kv_path_in (codes "localstatedir") (codes "norcom2kv")
      else get_dir conf (codes "workdir"))

  unfoldable pub data2kvdir_of : Section → Bytes
  data2kvdir_of conf = fix_path (workdir_of conf ++ codes "/data2kv/")

  unfoldable pub tmpdir_of : Section → Bytes
  tmpdir_of conf = fix_path (data2kvdir_of conf ++ codes "/tmp/")

  unfoldable pub logdir_of : Section → Bytes
  logdir_of conf = fix_path (
      if is_empty (get_dir conf (codes "logdir"))
      then dirs.kv_path (codes "logdir")
      else get_dir conf (codes "logdir"))

  -- setSigHandlers: a handler that cannot be set exits.
  set_handler : Signal → Action W (Option (Unit {0}))
  set_handler signal = do set ← call (dirs.sigaction signal); done (if set then some tt else none)

  set_sig_handlers : Action W (Option (Unit {0}))
  unfolding set_handler
  set_sig_handlers = and_then (set_handler sigterm) (λ u. set_handler sigint)

  -- The end of the constructor.
  finish : Config → Action W (Option Config)
  unfolding set_sig_handlers
  finish c = and_then set_sig_handlers (λ u. done (some c))

  -- The constructor, from the creation of the directories on; `upper` and `lower` are those of
  -- getRaportConf, `servers` is refDataList behind pop_front.
  module _ (upper lower : Bytes → Bytes) where
    -- The members, with the directories as createDir and checkdir have left them.
    unfoldable pub members :
        Section → List Bytes → (ℕ → Bool) → Bytes → Bytes → Bytes → Bytes → Config
    members conf servers ignored data2kvdir tmpdir logdir synopdir = record {
      synopdir = synopdir;
      workdir = workdir_of conf;
      tmpdir = tmpdir;
      data2kvdir = data2kvdir;
      logdir = logdir;
      test = false;
      debug = conf.flag (codes "debug");
      servers = servers;
      raports = get_raport_conf trim upper lower (conf.values (codes "raports"));
      ignored = ignored;
    }

    -- getDir of synopdir; without one, usage exits.
    synopdir_or_usage : Section → Action W (Option Bytes)
    synopdir_or_usage conf =
        if is_empty (get_dir conf (codes "synopdir"))
        then done none
        else check_dir (get_dir conf (codes "synopdir")) false

    start_in : Section → List Bytes → (ℕ → Bool) → Action W (Option Config)
    unfolding finish synopdir_or_usage
    start_in conf servers ignored = and_then (create_dir (data2kvdir_of conf)) λ data2kvdir.
        and_then (create_dir (tmpdir_of conf)) λ tmpdir.
          and_then (create_dir (logdir_of conf)) λ logdir.
            and_then (synopdir_or_usage conf)
              λ synopdir. finish (members conf servers ignored data2kvdir tmpdir logdir synopdir)

    -- ignoreFilesBeforeStartup: what is before the time of the start, or nothing.
    ignored_before : Section → Action W (ℕ → Bool)
    ignored_before conf w =
        if conf.flag (codes "ignore_files_before_startup")
        then (do now ← call sys.time; done (λ t. ltb t now)) w
        else done (λ t. false) w

    -- The first server is that of the http client, and leaves the list; without one the program
    -- exits.
    start_with : Section → List Bytes → Action W (Option Config)
    unfolding start_in ignored_before
    start_with conf [] w = done none w
    start_with conf (s ∷ ss) w =
        if is_empty s && is_empty ss
        then done none w
        else (do ignored ← ignored_before conf; start_in conf ss ignored) w

    -- The constructor: without a configuration it exits.
    unfoldable pub start : Option Section → Action W (Option Config)
    unfolding start_with
    start none = done none
    start (some conf) = start_with conf (get_kv_servers (some conf))
