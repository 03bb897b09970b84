-- ===== src/Files/Arrival.antt =====
-- A file that stays as it is, from the poll that finds it to its collection.
use kvnorcom.Prelude.{◌≡◌, Bool, true, false, Option, none, some, [], ◌∷◌, ◌++◌, is_empty}
use kvnorcom.Prelude.Bytes.{Bytes}
use kvnorcom.System.{System, Action, ◌>>=◌, done}
use kvnorcom.System.File.{Stat, File, name_part}
use kvnorcom.Files.{FInfo, to_be_collected, check_entry, collect_entry}
use kvnorcom.Files.Growth.{Sent}

module _ {W : Type 0} (sys : System W) (debug : Bool) (tmpdir : Bytes) where
  -- The file stays as it is, it can be copied, and its copies hold the content.
  pub record IsStill (f : File) (content : Bytes) : Type 0 where
    pub named : is_empty f.name ≡ false
    pub stats : (w : W) → (sys.stat f.name w).0 ≡ some f.stat
    pub copies : (to : Bytes) (w : W) → (sys.copyfile f.name to w).0 ≡ true
    pub there :
        (time : Bytes) (w : W)
        → (st : Stat) × ((sys.stat (tmpdir ++ (name_part f.name ++ b'_' ∷ time)) w).0 ≡ some st)
    pub reads :
        (time : Bytes) (w : W)
        → (sys.read_stream (tmpdir ++ (name_part f.name ++ b'_' ∷ time)) w).0 ≡ some (content, true)

  -- The name of a copy that is made at a time.
  abbrev copy_name : File → Bytes → Bytes
  copy_name f time = tmpdir ++ (name_part f.name ++ b'_' ∷ time)

  -- An entry with the record of `fi` that awaits its collection from the copy `to`.
  abbrev Awaits : FInfo → Bytes → Option FInfo × W → Type 0
  Awaits fi to (none, w) = ⊥
  Awaits fi to (some g, w) =
      (to_be_collected g ≡ true) × (g.fcopy ≡ to) × (g.offset ≡ fi.offset) × (g.crc ≡ fi.crc)

  -- What is done with an entry that is still in the list.
  abbrev pub if_listed :
      (FInfo → Action W (Option (FInfo × Bytes))) → Option FInfo → Action W (Option (FInfo × Bytes))
  if_listed f none = done none
  if_listed f (some fi) = f fi

  -- Two polls that find the file as it is, and the collection behind them.
  abbrev pub polled_twice : FInfo → Action W (Option (FInfo × Bytes))
  polled_twice fi =
      check_entry sys debug tmpdir fi.file fi
      >>= if_listed (λ seen.
        check_entry sys debug tmpdir seen.file seen
        >>= if_listed (λ g. collect_entry sys debug g >>= λ r. done (some r)))

  -- The entry records the content as sent, has been collected, and has no copy; `new` has been handed
  -- on.
  abbrev pub Handed : Bytes → Bytes → Option (FInfo × Bytes) × W → Type 0
  Handed content new (none, w) = ⊥
  Handed content new (some (g, part), w) =
      (part ≡ new) × Sent content g × (g.collected ≡ true) × (g.fcopy ≡ [])
