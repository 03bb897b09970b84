-- ===== src/Files/Kept.antt =====
-- What holds of every entry of the list of files, behind a poll and behind a collection.
use kvnorcom.Prelude.{◌<◌, ◌^◌, ◌≡◌, Bool, false, not, ◌&&◌, Option, none, some, is_empty, arith}
use kvnorcom.Prelude.Bytes.{Bytes}
use kvnorcom.Crc.{crc_ccitt}
use kvnorcom.Outcome.{Returns}
use kvnorcom.System.{System}
use kvnorcom.System.File.{File}
use kvnorcom.Files.{
  FInfo, check_entry, collect_entry, copy_file, copied, mtime_now, re_stat, remove_copy, read_file,
  collect_content, copy_exists, new_obs_part,
}

-- An entry is kept under the name of its file, its checksum is an unsigned int, and it has no copy
-- once it is collected.
abbrev pub IsEntry : Bytes → FInfo → Type 0
IsEntry name fi =
    (fi.file.name ≡ name)
    × (is_empty name ≡ false)
    × (fi.crc < 2 ^ 32)
    × (fi.collected && not (is_empty fi.fcopy) ≡ false)

crc_ccitt-lt : (buf : Bytes) → crc_ccitt buf < 2 ^ 32
unfolding crc_ccitt
crc_ccitt-lt buf = omega arith

module _ {W : Type 0} (sys : System W) (debug : Bool) (tmpdir : Bytes) where
  -- What a known entry becomes.
  abbrev pub OrGone : Bytes → Option FInfo × W → Type 0
  OrGone name (none, w) = Unit
  OrGone name (some fi, w) = IsEntry name fi

  pub check_entry-IsEntry :
      (f : File) (fi : FInfo) (w : W)
      → IsEntry f.name fi
      → Returns (OrGone f.name) (check_entry sys debug tmpdir f fi w)
  unfolding check_entry copy_file copied mtime_now re_stat remove_copy
  check_entry-IsEntry f fi w (a, b, c, d) = ground arith

  pub collect_entry-IsEntry :
      (name : Bytes) (fi : FInfo) (w : W)
      → IsEntry name fi
      → Returns (λ (p : (FInfo × Bytes) × W). IsEntry name p.0.0) (collect_entry sys debug fi w)
  unfolding collect_entry collect_content remove_copy read_file copy_exists new_obs_part
  collect_entry-IsEntry name fi w (a, b, c, d) = grind (arith, crc_ccitt-lt)
