-- ===== src/Tests/Collector.antt =====
-- The watched files, the decoders and kvalobs' answers at concrete inputs.
use kvnorcom.Prelude.{
  arith, ℕ, suc, ◌+◌, ◌==◌, [], ◌++◌, ◌∷◌, ◌≡◌, refl, true, false, Option, none, some,
  if◌then◌else◌, flatten, ◌⊎◌, length,
}
use kvnorcom.Prelude.Bytes.{Bytes, codes}
use kvnorcom.Outcome.{returns, Returns, gives}
use kvnorcom.Crc.{crc_ccitt, crc_loop}
use kvnorcom.System.{System, answers, throws, ok}
use kvnorcom.System.File.{File}
use kvnorcom.Files.{FInfo, new_info, new_obs_part, collect_entry}
use kvnorcom.Files.Growth.{Sent, handed_on, handed_on-appended, new_obs_part-suffix}
use kvnorcom.Files.Rewritten.{new_obs_part-rewritten}
use kvnorcom.Files.Entry.{Collected, collect_entry-Collected}
use kvnorcom.Files.Stuck.{IsMissing, unseen, collect_and_poll, collect_and_poll-stuck}
use kvnorcom.Raport.Kinds.{synop, temp, bufr_surface, contains}
use kvnorcom.Config.{RaportDef, raports_to_collect, get_decoder}
use kvnorcom.Config.Decoders.{defined, raports_to_collect-defined}
use kvnorcom.Delivery.{send_data}
use kvnorcom.Delivery.Answers.{send_data-last}

-- A system whose files were changed at 5 and cannot be opened, at the time that it counts; the main
-- kvalobs cannot be reached, and every other server takes what it gets.
abbrev broken : System ℕ
broken = record {
  stat = λ name w. (some (record { mtime = 5; regular = true }), w);
  copyfile = λ a b w. (true, w);
  unlink = λ name w. suc w;
  read_stream = λ name w. (none, w);
  open_read = λ name w. (false, w);
  open_write = λ name w. (false, w);
  write = λ name text w. (false, w);
  list_dir = λ path p w. (none, w);
  now = λ w. (codes "20240101T000000", w);
  time = λ w. (0, w);
  sleep = λ n w. w;
  shutdown = λ w. (false, w);
  host = codes "kvalobs";
  new_data = λ m t w. (throws (codes "refused"), w);
  new_data_to = λ server m t w. (answers (record { res = ok; message = [] }), w);
}

abbrev bulletin : File
bulletin = record { name = codes "/synop/a"; stat = record { mtime = 5; regular = true } }

abbrev seen_once : FInfo
seen_once = record (new_info bulletin) { seen = true; mtime = 5 }

abbrev with_copy : FInfo
with_copy = record seen_once { fcopy = codes "/tmp/a_1" }

handed_on-appended_example :
    handed_on [] (codes "ZCZC" ∷ [] ∷ codes "NNNN" ∷ []) (new_info bulletin)
    ≡ flatten (codes "ZCZC" ∷ [] ∷ codes "NNNN" ∷ [])
unfolding new_info crc_ccitt crc_loop
handed_on-appended_example =
    handed_on-appended [] (codes "ZCZC" ∷ [] ∷ codes "NNNN" ∷ []) (new_info bulletin) (refl, refl)

new_obs_part-suffix_example :
    ((before : Bytes) × (before ++ (new_obs_part (codes "ZCZC") seen_once).0 ≡ codes "ZCZC")
      × ((before ≡ []) ⊎ ((length before ≡ seen_once.offset) × (crc_ccitt before ≡ seen_once.crc))))
    × Sent (codes "ZCZC") (new_obs_part (codes "ZCZC") seen_once).1
new_obs_part-suffix_example = new_obs_part-suffix (codes "ZCZC") seen_once

collect_entry-Collected_example :
    Returns
      (Collected broken false (codes "/tmp/") with_copy)
      (collect_entry broken false with_copy 0)
collect_entry-Collected_example = collect_entry-Collected broken false (codes "/tmp/") with_copy 0

-- One copy, which cannot be read, and nothing behind its removal; but `copyfile` makes two.
abbrev one_copy : System ℕ
one_copy = record broken {
  copyfile = λ a b w. (true, 2);
  unlink = λ name w. 0;
  read_stream = λ name w. (if w == 2 then some (codes "AAXX", true) else none, w);
}

one_copy-IsMissing : IsMissing one_copy (codes "/tmp/") bulletin with_copy.fcopy (λ w. w ≡ 0)
one_copy-IsMissing = record {
  unreadable = λ w e. rw e refl;
  read = λ w e. e;
  removed = λ w e. refl;
}

collect_and_poll-stuck_example :
    Returns
      (λ (p : (Option FInfo × Bytes) × ℕ).
        p.0 ≡ (some (unseen one_copy (codes "/tmp/") bulletin with_copy), []))
      (collect_and_poll one_copy
        (codes "/tmp/")
        bulletin
        ((λ w. w) ∷ (λ w. w + w) ∷ (λ w. w) ∷ [])
        with_copy
        1)
unfolding new_info
collect_and_poll-stuck_example =
    collect_and_poll-stuck one_copy (codes "/tmp/") bulletin (λ w. w ≡ 0) with_copy
      ((λ w. w) ∷ (λ w. w + w) ∷ (λ w. w) ∷ []) 1 one_copy-IsMissing
      ((λ w e. e), ((λ w e. omega (arith, e)), ((λ w e. e), tt))) refl refl refl refl

abbrev decoders : RaportDef
decoders = (codes "synop", synop) ∷ (codes "bufr", bufr_surface) ∷ []

raports_to_collect-defined_example :
    (contains (raports_to_collect decoders []) temp ≡ defined temp decoders)
    × ((contains (raports_to_collect decoders []) temp ≡ true) ⊎ (get_decoder temp decoders ≡ []))
raports_to_collect-defined_example = raports_to_collect-defined decoders temp

-- The main kvalobs gets nothing, and the result is `ok`.
send_data-last_example :
    (text : Bytes) × (v : ℕ) × (send_data broken
        ([] ++ codes "backup" ∷ [])
        (codes "01001=")
        (codes "synop")
        0
      ≡ returns (gives (record { res = ok; message = [] }, text), v))
send_data-last_example =
    send_data-last broken (codes "01001=") (codes "synop") [] (codes "backup")
      (record { res = ok; message = [] }) 0 (λ v. refl)

new_obs_part-rewritten_example :
    (new_obs_part
      ((codes "ZCZ" ++ b'C' ∷ b'2' ∷ codes " A") ++ codes "B")
      (record (new_info bulletin) { offset = 7; crc = crc_ccitt (codes "ZCZC1 A") })).0
    ≡ (codes "ZCZ" ++ b'C' ∷ b'2' ∷ codes " A") ++ codes "B"
new_obs_part-rewritten_example =
    new_obs_part-rewritten (codes "ZCZ") (codes " A") (codes "B") b'C' b'1' b'C' b'2'
      (record (new_info bulletin) { offset = 7; crc = crc_ccitt (codes "ZCZC1 A") }) (omega arith)
      (omega arith) (omega arith) (omega arith) (λ e. absurd (ground (arith, e))) (refl, refl)

-- A file that stays as it is, with a copy that can be read.
abbrev steady : System ℕ
steady = record broken { read_stream = λ name w. (some (codes "ZCZC", true), w) }
