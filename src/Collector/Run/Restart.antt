-- ===== src/Collector/Run/Restart.antt =====
-- The program is stopped and started again: what it knows of the files stays known.
use kvnorcom.Prelude.{ℕ, ◌<◌, ◌^◌, ◌≡◌, true, some, [], ◌∷◌}
use kvnorcom.Prelude.Bytes.{Bytes, lacks}
use kvnorcom.Map.Entries.{Entries}
use kvnorcom.Outcome.{Returns}
use kvnorcom.Raport.Handlers.{Library}
use kvnorcom.Config.{Config}
use kvnorcom.System.{System, ◌>>=◌}
use kvnorcom.Files.{FInfo}
use kvnorcom.Files.Kept.{IsEntry}
use kvnorcom.Collector.{FInfoList}
use kvnorcom.Collector.StateFile.{Reader, save_finfo_list, read_finfo_list}
use kvnorcom.Collector.StateFile.Restart.{
  IsLawful, AllSavable, KeepsText, survivors, read_finfo_list-save_finfo_list,
}
use kvnorcom.Collector.Run.{RunState}
use kvnorcom.Collector.Run.Invariant.{Reachable, Reachable-IsKept}

-- A name without a '\n', and an offset that a long holds.
abbrev pub IsPrintable : Bytes → FInfo → Type 0
IsPrintable name fi = (lacks b'\n' name ≡ true) × (fi.offset < 2 ^ 63)

AllSavable-of : (l : FInfoList) → Entries IsEntry l → Entries IsPrintable l → AllSavable l
AllSavable-of [] h p = tt
AllSavable-of ((name, fi) ∷ l) ((keyed, named, crc, bare), h) ((line, offset), p) = (
  record { named = named; one_line = line; offset_long = offset; crc_unsigned = crc },
  AllSavable-of l h p,
)

module _ {W : Type 0} (sys : System W) (conf : Config) (reader : Reader) (lib : Library)
    (junk fuel rounds : ℕ) (lawful : IsLawful reader)
    (in_range : (ds : Bytes) (n : ℕ) → reader.cast_unsigned ds ≡ some n → n < 2 ^ 32)
    (still : (name : Bytes) (w : W) → (sys.stat name w).1 ≡ w) where
  -- The program has come to any state that it can reach, no name of a known file holds a '\n', and
  -- the offsets fit a long. If the list is then saved to a file that keeps its text, and the program
  -- is started anew, it starts with the entries of the files that are still there then, with the
  -- offsets and the checksums that they had. A stat changes nothing, and the casts and the match of
  -- the reading are as boost documents them.
  pub restart-Reachable :
      (state_file : Bytes) (s : RunState) (w : W)
      → Reachable sys conf reader lib junk fuel rounds state_file s w
      → Entries IsPrintable s.file_info_list
      → KeepsText sys state_file
      → Returns
          (λ (p : FInfoList × W). p.0 ≡ survivors sys reader lawful still p.1 s.file_info_list)
          ((save_finfo_list sys state_file s.file_info_list >>= λ ok.
              read_finfo_list sys reader state_file [])
            w)
  restart-Reachable state_file s w r printable keeps =
      let kept = Reachable-IsKept sys conf reader lib junk fuel rounds state_file s w in_range r in
      read_finfo_list-save_finfo_list sys reader lawful still state_file s.file_info_list w keeps
        kept.0 (AllSavable-of s.file_info_list kept.1 printable)
