-- ===== src/Tests/Run.antt =====
-- The collector and its loop, on a directory of one file that nobody has written to yet.
use kvnorcom.Prelude.{
  ℕ, suc, ◌+◌, leb, ◌≡◌, refl, not, ◌&&◌, ◌==◌, Bool, true, false, none, some, [], ◌∷◌, arith,
}
use kvnorcom.Prelude.Bytes.{Bytes, codes, equal}
use kvnorcom.Lines.{find_char}
use kvnorcom.Map.{find, modify}
use kvnorcom.Map.Order.{less}
use kvnorcom.Outcome.{returns, Returns, Yields}
use kvnorcom.Config.{Config}
use kvnorcom.System.{System, ◌>>=◌, throws}
use kvnorcom.System.File.{File}
use kvnorcom.Files.{read_file, new_info, check_entry, assign_info}
use kvnorcom.Delivery.{save_message, decoder_of, send_message}
use kvnorcom.Delivery.Unsaved.{save_message-decoder_of}
use kvnorcom.Raport.Messages.{msg_info_extra}
use kvnorcom.Delivery.Saved.{get_file_list, send_saved, try_to_send_saved}
use kvnorcom.Delivery.Saved.Each.{Passed, try_to_send_saved-TriesEach}
use kvnorcom.Collector.{FInfoList, erase_gone, check_files, poll_files, check_for_new_observations}
use kvnorcom.Collector.Invariant.{IsKept}
use kvnorcom.Collector.Listed.{AllListed, check_for_new_observations-AllListed}
use kvnorcom.Collector.StateFile.{save_finfo_list, read_finfo_list, saved_info}
use kvnorcom.Collector.StateFile.Restart.{survivors}
use kvnorcom.Collector.Run.{RunState, begin, is_due, on_poll, poll, run}
use kvnorcom.Collector.Run.Invariant.{Reachable, begun, Reachable-IsKept}
use kvnorcom.Collector.Run.Pace.{RanPaced, run-Paced}
use kvnorcom.Collector.Run.Restart.{restart-Reachable}
use kvnorcom.Tests.Raport.{plain}
use kvnorcom.Tests.StateFile.{
  plain_reader, plain_reader_in_range, plain_reader-IsLawful, one_file, one_file-KeepsText,
  two_files, entry, three_parts,
}

abbrev pub conf : Config
conf = record {
  synopdir = codes "/in";
  workdir = codes "/work/";
  tmpdir = codes "/tmp/";
  data2kvdir = codes "/kv/";
  logdir = codes "/log/";
  test = false;
  debug = false;
  servers = [];
  raports = [];
  ignored = λ t. false;
}

abbrev one_dir : System Bytes
one_dir = record one_file {
  stat = λ name w. (some (record { mtime = 7; regular = true }), w);
  list_dir = λ path p w. (some (codes "a" ∷ []), w);
}

abbrev there : File
there = record { name = codes "/in/a"; stat = record { mtime = 7; regular = true } }

check_for_new_observations-AllListed_example :
    Returns
      (λ (p : (FInfoList × Bool) × Bytes). IsKept p.0.0 × AllListed (there ∷ []) p.0.0)
      (check_for_new_observations one_dir conf two_files [])
unfolding less new_info get_file_list equal
check_for_new_observations-AllListed_example =
    check_for_new_observations-AllListed one_dir conf two_files there [] [] []
      (
        ((refl, tt), (tt, tt)),
        ((refl, refl, omega arith, refl), ((refl, refl, omega arith, refl), tt)),
      )
      refl

-- The state that run starts with where the state file holds one entry.
abbrev started : RunState
started = begin (
    (
      codes "a",
      record (entry (codes "a") 12).1 {
        file = record { name = codes "a"; stat = record { mtime = 7; regular = true } };
        mtime = 7;
        collected = false;
        crc = 3;
      },
    )
    ∷ [])

started-Reachable :
    Reachable one_file conf plain_reader plain 0 9 9 (codes "state") started (codes "a:12:3\n")
unfolding read_finfo_list saved_info three_parts new_info modify assign_info
started-Reachable = begun started.file_info_list (codes "a:12:3\n") (codes "a:12:3\n") refl

Reachable-IsKept_example : IsKept started.file_info_list
Reachable-IsKept_example =
    Reachable-IsKept one_file conf plain_reader plain 0 9 9 (codes "state") started
      (codes "a:12:3\n") plain_reader_in_range started-Reachable

restart-Reachable_example :
    Returns
      (λ (p : FInfoList × Bytes).
        p.0
        ≡ survivors one_file plain_reader plain_reader-IsLawful
            (λ name w. refl)
            p.1
            started.file_info_list)
      ((save_finfo_list one_file (codes "state") started.file_info_list >>= λ ok.
          read_finfo_list one_file plain_reader (codes "state") [])
        (codes "a:12:3\n"))
restart-Reachable_example =
    restart-Reachable one_file conf plain_reader plain 0 9 9 plain_reader-IsLawful
      plain_reader_in_range (λ name w. refl) (codes "state") started (codes "a:12:3\n")
      started-Reachable ((refl, omega arith), tt) (one_file-KeepsText (codes "state"))

-- Each look at the clock or for a shutdown takes a second, and the shutdown comes at the tenth.
abbrev ticking : System ℕ
ticking = record {
  stat = λ name w. (some (record { mtime = 5; regular = true }), w);
  copyfile = λ a b w. (false, w);
  unlink = λ name w. w;
  read_stream = λ name w. (none, w);
  open_read = λ name w. (false, w);
  open_write = λ name w. (false, w);
  write = λ name text w. (false, w);
  list_dir = λ path p w. (some (codes "a" ∷ []), w);
  now = λ w. (codes "20240101T000000", w);
  time = λ w. (w, suc w);
  sleep = λ n w. n + w;
  shutdown = λ w. (leb 10 w, suc w);
  host = codes "kvalobs";
  new_data = λ m t w. (throws (codes "refused"), w);
  new_data_to = λ server m t w. (throws (codes "refused"), w);
}

-- Rounds at the times 1, 4, 6 and 9; those at 4 and 9 poll, and the others sleep.
run_test : run ticking conf plain_reader plain 0 9 9 9 (codes "norcom2kv") 0 ≡ returns (0, 11)
unfolding run read_finfo_list is_due poll check_for_new_observations get_file_list equal poll_files
    check_files find erase_gone on_poll modify less check_entry new_info
run_test = refl

run-Paced_example :
    Yields
      (RanPaced ticking conf plain_reader plain 0 9 9 (codes "/work/norcom2kv_finfo.dat") 0)
      (run ticking conf plain_reader plain 0 9 9 9 (codes "norcom2kv") 0)
run-Paced_example = run-Paced ticking conf plain_reader plain 0 9 9 9 (codes "norcom2kv") 0 refl

-- Two saved messages, each try of which takes a hundred seconds and ends in an exception.
abbrev two_saved : System ℕ
two_saved = record ticking {
  list_dir = λ path p w. (some (codes "kvdata_a" ∷ codes "kvdata_b" ∷ []), w);
  stat = λ name w. (some (record { mtime = 5; regular = true }), w);
  read_stream = λ name w. (some (codes "synop\nAAXX 01001=", true), w);
  shutdown = λ w. (false, w);
  new_data = λ m t w. (throws (codes "refused"), 100 + w);
}

try_to_send_saved_test : try_to_send_saved two_saved conf 0 ≡ returns (tt, 200)
unfolding try_to_send_saved send_saved send_message equal read_file find_char
try_to_send_saved_test = refl

try_to_send_saved-TriesEach_example :
    Returns (Passed two_saved conf 0) (try_to_send_saved two_saved conf 0)
try_to_send_saved-TriesEach_example = try_to_send_saved-TriesEach two_saved conf 0 refl

-- A directory with no file so far.
abbrev no_file : System Bytes
no_file = record one_file { open_read = λ name w. (false, w) }

abbrev starts : Bytes → Bytes → Bool
starts [] text = true
starts (p ∷ ps) [] = false
starts (p ∷ ps) (c ∷ cs) = p == c && starts ps cs

-- A directory with no subdirectory `kvdata_bufr_surface`.
abbrev flat : System Bytes
flat = record no_file {
  open_write = λ name w. (not (starts (codes "/kv/kvdata_bufr_surface/") name), []);
}

save_message-decoder_of_example :
    Returns
      (λ (p : Bytes × Bytes). p.0 ≡ [])
      (save_message flat conf
        (decoder_of flat
          (codes "bufr_surface")
          (msg_info_extra (codes "bufr_surface") (codes "encoding=base64") false))
        (codes "QlVGUg")
        [])
unfolding msg_info_extra
save_message-decoder_of_example =
    save_message-decoder_of flat conf (codes "bufr_surface") (codes "QlVGUg")
      (msg_info_extra (codes "bufr_surface") (codes "encoding=base64") false) b'e'
      (codes "ncoding=base64") [] refl (λ name w. refl)
