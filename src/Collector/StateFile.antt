-- ===== src/Collector/StateFile.antt =====
-- The list of known files on disk: saveFInfoList and readFInfoList of src/App.cc.
pub mod Restart
pub mod Kept
use kvnorcom.Prelude.{
  ℕ, Bool, true, false, Option, none, some, List, [], ◌∷◌, ◌++◌, ◌==◌, is_empty, if◌then◌else◌,
}
use kvnorcom.Prelude.Bytes.{Bytes, codes}
use kvnorcom.Prelude.Decimal.{decimal}
use kvnorcom.Map.{modify}
use kvnorcom.Map.Order.{less}
use kvnorcom.Outcome.{returns, fault}
use kvnorcom.System.{System, Action, ◌>>=◌, done, call}
use kvnorcom.System.File.{Stat, File, file_mtime}
use kvnorcom.Files.{FInfo, assign_info}
use kvnorcom.Collector.{FInfoList}

-- What readFInfoList calls in boost: regex_match, with the text of each sub-match, and the two
-- lexical_casts, where none is the exception bad_lexical_cast.
pub record Reader : Type 0 where
  pub regex_match : Bytes → Bytes → Option (ℕ → Bytes)
  pub cast_long : Bytes → Option ℕ
  pub cast_unsigned : Bytes → Option ℕ

-- The line of an entry.
abbrev pub entry_line : Bytes → FInfo → Bytes
entry_line name fi = name ++ b':' ∷ (decimal fi.offset ++ b':' ∷ decimal fi.crc)

unfoldable pub save_text : FInfoList → Bytes
save_text [] = []
save_text ((name, fi) ∷ l) = entry_line name fi ++ b'\n' ∷ save_text l

-- What `while( getline( fist, line ) )` goes through: the lines of a text; nothing behind the last
-- '\n' is no line.
unfoldable pub lines_of : Bytes → Bytes → List Bytes
lines_of line [] = if is_empty line then [] else line ∷ []
lines_of line (c ∷ cs) =
    let ended = lines_of [] cs in
    let more = lines_of (line ++ c ∷ []) cs in if c == b'\n' then line ∷ ended else more

module _ {W : Type 0} (sys : System W) where
  -- saveFInfoList: errors of the writing are not looked at.
  unfoldable pub save_finfo_list : Bytes → FInfoList → Action W Bool
  unfolding save_text
  save_finfo_list name l = do
    opened ← call (sys.open_write name)
    elim opened [
      | false ↦ done false
      | true ↦ elim (is_empty l) [
        | true ↦ done true
        | false ↦ (do ok ← call (sys.write name (save_text l)); done true)
      ]
    ]

  module _ (reader : Reader) where
    -- FInfo( fd, offset, crc )
    unfoldable pub saved_info : File → ℕ → ℕ → FInfo
    saved_info f offset crc = record {
      file = f;
      mtime = file_mtime f;
      offset = offset;
      crc = crc;
      collected = false;
      seen = false;
      fcopy = [];
    }

    -- The two numbers of a line; an exception of lexical_cast is caught by nobody.
    with_numbers : File → Bytes → Bytes → FInfoList → Action W FInfoList
    unfolding saved_info
    with_numbers f offset crc l w = elim (reader.cast_long offset) [
      | none ↦ fault
      | some o ↦ elim (reader.cast_unsigned crc) [
        | none ↦ fault
        | some c ↦
            returns (
              modify less f.name (saved_info f o c) (λ old. assign_info old (saved_info f o c)) l,
              w,
            )
      ]
    ]

    -- `File fd( fname )`: a file that cannot be stat'ed is passed over.
    with_file : Bytes → Bytes → Bytes → FInfoList → Action W FInfoList
    unfolding with_numbers
    with_file fname offset crc l w =
        if is_empty fname
        then done l w
        else (do
          st ← call (sys.stat fname)
          elim st [
            | none ↦ done l
            | some s ↦ with_numbers (record { name = fname; stat = s }) offset crc l
          ])
            w

    read_lines : List Bytes → FInfoList → Action W FInfoList
    read_lines [] l = done l
    read_lines (line ∷ lines) l =
        let again : FInfoList → Action W FInfoList = λ k. read_lines lines k in
        elim (reader.regex_match (codes "(.*):(.*):(.*)") line) [
          | none ↦ again l
          | some what ↦ (do k ← with_file (what 1) (what 2) (what 3) l; again k)
        ]

    -- readFInfoList: a file that does not open leaves the list as it is.
    unfoldable pub read_finfo_list : Bytes → FInfoList → Action W FInfoList
    unfolding read_lines with_file lines_of
    read_finfo_list name l = do
      r ← call (sys.read_stream name)
      elim r [ none ↦ done l | some p ↦ read_lines (lines_of [] p.0) l ]
