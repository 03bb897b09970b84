-- ===== src/Tests/Startup.antt =====
-- The start of the program with a concrete configuration.
use kvnorcom.Prelude.{◌≡◌, refl, true, false, some, [], ◌∷◌, if◌then◌else◌}
use kvnorcom.Prelude.Bytes.{Bytes, codes, equal}
use kvnorcom.Outcome.{Returns}
use kvnorcom.Raport.Kinds.{synop, bufr_surface}
use kvnorcom.Config.{get_raport_conf}
use kvnorcom.Config.RoundTrip.{print_defs, get_raport_conf-print_defs}
use kvnorcom.Delivery.Saved.{fix_path}
use kvnorcom.System.Conf.{Section}
use kvnorcom.Startup.{Directories, workdir_of, data2kvdir_of, get_dir, start}
use kvnorcom.Startup.Places.{OrExit, IsPlaced, start-IsPlaced}
use kvnorcom.Tests.StateFile.{one_file}

abbrev pub section : Section
section = record {
  values = λ key. if equal key (codes "kvservers") then codes "kvalobs" ∷ [] else [];
  text = λ key d. if equal key (codes "workdir") then codes "/var//norcom2kv" else codes "/in";
  flag = λ key. false;
}

-- Every directory is there, and can be read.
abbrev all_there : Directories Bytes
all_there = record {
  exists = λ dir w. (some true, w);
  create_directories = λ dir w. (some tt, w);
  is_directory = λ dir w. (some true, w);
  stat_directory = λ dir w. (some true, w);
  access = λ dir rwaccess w. (true, w);
  sigaction = λ signal w. (true, w);
  kv_path = λ name. codes "/usr";
  kv_path_in = λ name sub. codes "/usr/lib";
}

data2kvdir_test :
    data2kvdir_of one_file all_there (λ t. t) section ≡ codes "/var/norcom2kv/data2kv/"
unfolding data2kvdir_of workdir_of get_dir fix_path equal
data2kvdir_test = refl

-- A run of '/' is only halved: what is fixed may be fixed once more.
fix_path_test :
    (fix_path (codes "a////b") ≡ codes "a//b/") × (fix_path (codes "a//b/") ≡ codes "a/b/")
unfolding fix_path
fix_path_test = (refl, refl)

start-IsPlaced_example :
    Returns
      (OrExit IsPlaced)
      (start one_file all_there (λ t. t) (λ t. t) (λ t. t) (some section) [])
start-IsPlaced_example =
    start-IsPlaced one_file all_there (λ t. t) (λ t. t) (λ t. t) (some section) []

get_raport_conf-print_defs_example :
    get_raport_conf
      (λ t. t)
      (λ t. t)
      (λ t. t)
      (print_defs ((codes "synop", synop) ∷ (codes "bufr:x", bufr_surface) ∷ []))
    ≡ (codes "synop", synop) ∷ (codes "bufr:x", bufr_surface) ∷ []
get_raport_conf-print_defs_example =
    get_raport_conf-print_defs (λ t. t) (λ t. t) (λ t. t) (λ k. refl) (codes "synop", synop)
      ((codes "bufr:x", bufr_surface) ∷ []) (refl, refl, (refl, refl, tt))
