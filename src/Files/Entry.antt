-- ===== src/Files/Entry.antt =====
-- An entry of the list of files over a poll and a collection.
use kvnorcom.Prelude.{◌≡◌, Bool, true, false, Option, none, some, [], arith, ◌⊎◌}
use kvnorcom.Prelude.Bytes.{Bytes}
use kvnorcom.Outcome.{Returns}
use kvnorcom.System.{System}
use kvnorcom.System.File.{File, file_mtime}
use kvnorcom.Files.{
  FInfo, to_be_collected, remove_copy, read_file, collect_entry, collect_content, copy_exists,
  new_obs_part,
}

module _ {W : Type 0} (sys : System W) (debug : Bool) (tmpdir : Bytes) where
  -- What a poll makes of the entry of a file of the directory: the entry is gone, or is not to be
  -- collected, or is to be collected. Then the poll found the time that the entry had, the entry
  -- had been seen with it before, and the file's time is the same behind the copying.
  abbrev pub Checked : File → FInfo → Option FInfo × W → Type 0
  Checked f fi (none, w) = Unit
  Checked f fi (some g, w) =
      (g.offset ≡ fi.offset)
      × (g.crc ≡ fi.crc)
      × ((to_be_collected g ≡ false)
          ⊎ ((fi.seen ≡ true)
              × (fi.collected ≡ false)
              × (fi.mtime ≡ file_mtime f)
              × (g.mtime ≡ fi.mtime)
              × (g.mtime ≡ file_mtime g.file)))

  -- What an entry that is to be collected may come to: it is collected and without a copy, or it
  -- has to be seen anew, its record of what has been sent is as before, and nothing is handed on.
  abbrev pub Collected : FInfo → (FInfo × Bytes) × W → Type 0
  Collected fi ((g, part), w) =
      (to_be_collected g ≡ false)
      × (((g.collected ≡ true) × (g.fcopy ≡ []))
          ⊎ ((g.seen ≡ false) × (g.offset ≡ fi.offset) × (g.crc ≡ fi.crc) × (part ≡ [])))

  -- The collection of an entry returns, whatever the system answers. Behind it the entry is not to
  -- be collected; either it is collected and has no copy, or it has to be seen anew, its record of
  -- what has been sent is as before, and nothing is handed on.
  pub collect_entry-Collected :
      (fi : FInfo) (w : W) → Returns (Collected fi) (collect_entry sys debug fi w)
  unfolding collect_entry collect_content remove_copy read_file copy_exists new_obs_part
  collect_entry-Collected fi w = ground arith
