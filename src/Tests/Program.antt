-- ===== src/Tests/Program.antt =====
-- The start of the process, on a system that records what kvalobs is given.
use kvnorcom.Prelude.{◌≡◌, refl, true, false, Option, none, some, List, [], ◌++◌}
use kvnorcom.Prelude.Bytes.{Bytes, codes, equal}
use kvnorcom.Outcome.{fault, returns}
use kvnorcom.System.Conf.{Section}
use kvnorcom.Delivery.Saved.{fix_path}
use kvnorcom.Startup.{Directories, get_dir, get_dir_of}
use kvnorcom.Startup.Quiet.{IsQuiet}
use kvnorcom.Logging.Setup.{Milog, log_file, init_logger}
use kvnorcom.Argv0.{Paths, cmd_name_from_argv0, conf_file_from_argv0}
use kvnorcom.Program.{Process, main}
use kvnorcom.Program.Start.{IsQuietProcess, Starts, main-Starts}
use kvnorcom.Tests.Raport.{plain}
use kvnorcom.Tests.StateFile.{plain_reader}
use kvnorcom.Tests.Startup.{section}
use kvnorcom.Tests.Delivery.{recorder}

abbrev Given : Type 0
Given = List (Bytes × Bytes)

abbrev dirs : Directories Given
dirs = record {
  exists = λ dir w. (some true, w);
  create_directories = λ dir w. (some tt, w);
  is_directory = λ dir w. (some true, w);
  stat_directory = λ dir w. (some true, w);
  access = λ dir write w. (true, w);
  sigaction = λ signal w. (true, w);
  kv_path = λ name. codes "/usr";
  kv_path_in = λ name sub. codes "/usr/lib";
}

abbrev milog : Milog Given
milog = record {
  open_log = λ name w. (some true, w);
  create_logger = λ name w. (some true, w);
  add_stream = λ name w. (some true, w);
  set_trace_level = λ l w. w;
  set_log_level = λ l w. w;
  set_default_logger = λ name w. w;
}

abbrev pub norcom2kv : Paths
norcom2kv = record {
  filename = λ path. codes "norcom2kv";
  join = λ dir name. dir ++ codes "/" ++ name;
}

abbrev process : Option Section → Process Given
process conf = record {
  paths = norcom2kv;
  configuration = λ name. conf;
  base_app = λ argv w. w;
  kv_rundir = codes "/run";
  pid_file_name = λ dir name. dir ++ name ++ codes ".pid";
  is_running = λ name w. ((false, false), w);
  create_pid_file = λ name w. w;
}

dirs-IsQuiet : IsQuiet recorder dirs (λ w. w)
dirs-IsQuiet = record {
  time = λ w. refl;
  exists = λ dir w. refl;
  create_directories = λ dir w. refl;
  is_directory = λ dir w. refl;
  stat_directory = λ dir w. refl;
  access = λ dir write w. refl;
  sigaction = λ signal w. refl;
}

process-IsQuietProcess : IsQuietProcess milog (process (some section)) (λ w. w)
process-IsQuietProcess = record {
  open_log = λ name w. refl;
  create_logger = λ name w. refl;
  add_stream = λ name w. refl;
  set_trace_level = λ l w. refl;
  set_log_level = λ l w. refl;
  set_default_logger = λ name w. refl;
  base_app = λ argv w. refl;
  is_running = λ name w. refl;
}

log_file_test :
    log_file recorder dirs (λ t. t) milog equal [] (codes "norcom2kv") ≡ codes "/usr/norcom2kv.log"
unfolding log_file fix_path
log_file_test = refl

conf_file_test :
    conf_file_from_argv0 norcom2kv dirs.exists (codes "/etc") (codes "bin/norcom2kv") true []
    ≡ returns (some (codes "/etc/norcom2kv.conf"), [])
unfolding conf_file_from_argv0
conf_file_test = refl

main-Starts_example :
    Starts
      (λ w. w)
      recorder
      dirs
      milog
      (process (some section))
      plain_reader
      plain
      (λ t. t)
      (λ t. t)
      equal
      0
      9
      9
      9
      (codes "/in/norcom2kv.pid")
      (codes "norcom2kv")
      []
      (main recorder dirs milog
        (process (some section))
        plain_reader
        plain
        (λ t. t)
        (λ t. t)
        equal
        0
        9
        9
        9
        (codes "norcom2kv")
        []
        [])
unfolding get_dir fix_path equal
main-Starts_example =
    main-Starts (λ w. w) recorder dirs milog (process (some section)) plain_reader plain (λ t. t)
      (λ t. t) equal 0 9 9 9 dirs-IsQuiet process-IsQuietProcess (codes "norcom2kv") [] section []
      refl

-- The configuration file cannot be read: main does not get to the constructor of App.
unconfigured_test :
    main recorder dirs milog
      (process none)
      plain_reader
      plain
      (λ t. t)
      (λ t. t)
      equal
      0
      9
      9
      9
      (codes "norcom2kv")
      []
      []
    ≡ fault
unfolding main cmd_name_from_argv0 init_logger get_dir_of
unconfigured_test = refl
