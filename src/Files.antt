-- ===== src/Files.antt =====
-- The files that are watched: class FInfo of src/FInfo.h, and what the collector does to one entry
-- of its list (src/CollectWmoReports.cc: copyFile, getNewObsPart, the bodies of the loops of
-- checkForNewObservations and collectObservations).
pub mod Growth
pub mod Entry
pub mod Kept
pub mod Rewritten
pub mod Arrival
pub mod Stuck
use kvnorcom.Prelude.{
  ℕ, zero, suc, ◌+◌, Bool, true, false, not, ◌&&◌, ◌||◌, Option, none, some, List, [], ◌∷◌, ◌++◌,
  ltb, leb, ◌==◌, length, take, drop, is_empty, if◌then◌else◌,
}
use kvnorcom.Prelude.Bytes.{Bytes, codes}
use kvnorcom.Crc.{crc_ccitt}
use kvnorcom.System.{System, Action, ◌>>=◌, done, call, command}
use kvnorcom.System.File.{Stat, File, file_mtime, name_part}

pub record FInfo : Type 0 where
  pub file : File
  pub mtime : ℕ
  -- How much of the file has been sent, and its checksum.
  pub offset : ℕ
  pub crc : ℕ
  pub collected : Bool
  pub seen : Bool
  pub fcopy : Bytes

-- FInfo( f ), assigned to an entry that was not there.
unfoldable pub new_info : File → FInfo
new_info f = record {
  file = f;
  mtime = file_mtime f;
  offset = 0;
  crc = 0;
  collected = false;
  seen = false;
  fcopy = [];
}

-- The copy constructor leaves mtime_ as the memory has it, and has no copy of the file.
unfoldable pub copy_info : ℕ → FInfo → FInfo
copy_info junk f = record f { mtime = junk; fcopy = [] }

-- operator=: fcopy stays.
unfoldable pub assign_info : FInfo → FInfo → FInfo
assign_info lhs rhs = record rhs { fcopy = lhs.fcopy }

-- FInfo::toBeCollected
abbrev pub to_be_collected : FInfo → Bool
to_be_collected fi = not fi.collected && fi.seen && not (is_empty fi.fcopy)

-- getNewObsPart: what is new of the content, and the entry.
unfoldable pub new_obs_part : Bytes → FInfo → Bytes × FInfo
new_obs_part obs fi = (
  if ltb 0 fi.offset
      then (if leb fi.offset (length obs)
          then (if crc_ccitt (take fi.offset obs) == fi.crc then drop fi.offset obs else obs)
          else obs)
      else obs,
  record fi { offset = length obs; crc = crc_ccitt obs },
)

module _ {W : Type 0} (sys : System W) where
  -- File::reStat
  unfoldable pub re_stat : File → Action W (Option File)
  re_stat f w =
      if is_empty f.name
      then done none w
      else (do
        st ← call (sys.stat f.name)
        done (elim st [ none ↦ none | some s ↦ some (record f { stat = s }) ]))
          w

  -- FInfo::mtimeNow: none for a StatException.
  unfoldable pub mtime_now : FInfo → Action W (Option FInfo)
  unfolding re_stat
  mtime_now fi = do
    r ← re_stat fi.file
    done (elim r [ none ↦ none | some f ↦ some (record fi { file = f; mtime = file_mtime f }) ])

  -- FInfo::removecopy
  unfoldable pub remove_copy : Bool → FInfo → Action W FInfo
  remove_copy removefile fi w =
      if is_empty fi.fcopy
      then done fi w
      else done (record fi { fcopy = [] }) (if removefile then sys.unlink fi.fcopy w else w)

  -- copyFile behind the copying; `debug` is App::debug. None means that the entry is erased.
  copied : Bool → Bytes → ℕ → Option FInfo → Action W (Option FInfo)
  unfolding remove_copy
  copied debug tofile oldtime none = done none
  copied debug tofile oldtime (some fi) =
      if not (fi.mtime == oldtime)
      then (do
        u ← command (sys.unlink tofile)
        done (some (record fi { seen = false; collected = false })))
      else (do r ← remove_copy (not debug) fi; done (some (record r { fcopy = tofile })))

  -- copyFile
  unfoldable pub copy_file : Bool → Bytes → FInfo → Action W (Option FInfo)
  unfolding copied mtime_now
  copy_file debug tmpdir fi = do
    now ← call sys.now
    ok ← call (sys.copyfile fi.file.name (tmpdir ++ (name_part fi.file.name ++ b'_' ∷ now)))
    elim ok [
      | false ↦ done none
      | true ↦ (do
        r ← mtime_now fi
        copied debug (tmpdir ++ (name_part fi.file.name ++ b'_' ∷ now)) fi.mtime r)
    ]

  -- checkForNewObservations: a file of the directory that is in the list already.
  unfoldable pub check_entry : Bool → Bytes → File → FInfo → Action W (Option FInfo)
  unfolding mtime_now copy_file
  check_entry debug tmpdir f fi =
      if not (fi.mtime == file_mtime f)
      then (do
        r ← mtime_now fi
        done
            (elim r [ none ↦ none | some g ↦ some (record g { seen = false; collected = false }) ]))
      else if fi.seen
      then (if not fi.collected then copy_file debug tmpdir fi else done (some fi))
      else done (some (record fi { seen = true }))

  -- readFile: none if it returns false.
  unfoldable pub read_file : Bytes → Action W (Option Bytes)
  read_file file = do
    r ← call (sys.read_stream file)
    done (elim r [ none ↦ none | some p ↦ if p.1 then some p.0 else none ])

  -- `File f( fromfile ); f.ok()`
  unfoldable pub copy_exists : Bytes → Action W Bool
  copy_exists name w =
      if is_empty name
      then done false w
      else (do st ← call (sys.stat name); done (elim st [ none ↦ false | some s ↦ true ])) w

  -- collectObservations behind readFile: the entry, and the new part if there is one to be split.
  unfoldable pub collect_content : Bool → Bytes → FInfo → Action W (FInfo × Bytes)
  unfolding remove_copy copy_exists
  collect_content debug content fi = do
    ok ← copy_exists fi.fcopy
    r ← remove_copy (not debug) fi
    done (
        if ok
        then (record ((new_obs_part content r).1) { collected = true }, (new_obs_part content r).0)
        else (record r { seen = false; collected = false }, []))

  -- collectObservations: an entry that is to be collected.
  unfoldable pub collect_entry : Bool → FInfo → Action W (FInfo × Bytes)
  unfolding read_file collect_content
  collect_entry debug fi = do
    content ← read_file fi.fcopy
    elim content [
      | some obs ↦ collect_content debug obs fi
      | none ↦ (do
        u ← command (if debug then (λ w. w) else sys.unlink fi.fcopy)
        done (record fi { seen = false; collected = false }, []))
    ]
