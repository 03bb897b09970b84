-- ===== src/Collector/StateFile/Restart.antt =====
-- What readFInfoList makes of the file that saveFInfoList has written.
use kvnorcom.Prelude.{
  ℕ, ◌^◌, ◌<◌, ◌≡◌, refl, ◌∙◌, true, false, inl, inr, Bool-cases, Option-cases, Option, none, some,
  [], ◌∷◌, ◌++◌, ◌==◌, append_assoc, append-nil, is_empty, arith,
}
use kvnorcom.Prelude.Bytes.{Bytes, codes, lacks}
use kvnorcom.Prelude.Decimal.{decimal, decimal-digits, digits-lacks}
use kvnorcom.Map.Order.{less, less-StrictWeakOrder}
use kvnorcom.Map.Sorted.{IsSorted, IsBelow, IsBelow-trans, IsBelow-append, modify-IsBelow}
use kvnorcom.Outcome.{returns, Returns}
use kvnorcom.System.{System, ◌>>=◌}
use kvnorcom.System.File.{Stat}
use kvnorcom.Files.{FInfo, assign_info}
use kvnorcom.Collector.{FInfoList}
use kvnorcom.Collector.StateFile.{
  Reader, entry_line, save_text, lines_of, save_finfo_list, saved_info, with_numbers, with_file,
  read_lines, read_finfo_list,
}

-- The documented behaviour of boost: the greedy groups split at the last two colons, and a
-- lexical_cast reads the digits of a number that its type holds.
pub record IsLawful (reader : Reader) : Type 0 where
  pub matches :
      (a b c : Bytes)
      → lacks b':' b ≡ true
      → lacks b':' c ≡ true
      → (what : ℕ → Bytes) × (reader.regex_match
            (codes "(.*):(.*):(.*)")
            (a ++ b':' ∷ (b ++ b':' ∷ c))
          ≡ some what)
        × (what 1 ≡ a)
        × (what 2 ≡ b)
        × (what 3 ≡ c)
  pub longs : (n : ℕ) → n < 2 ^ 63 → reader.cast_long (decimal n) ≡ some n
  pub unsigneds : (n : ℕ) → n < 2 ^ 32 → reader.cast_unsigned (decimal n) ≡ some n

-- An entry that can stand on a line: its name has a character and no '\n', and its numbers are in
-- the range of their types.
pub record IsSavable (name : Bytes) (fi : FInfo) : Type 0 where
  pub named : is_empty name ≡ false
  pub one_line : lacks b'\n' name ≡ true
  pub offset_long : fi.offset < 2 ^ 63
  pub crc_unsigned : fi.crc < 2 ^ 32

-- A file that can be opened for writing, and that holds then what is written to it.
pub record KeepsText {W : Type 0} (sys : System W) (name : Bytes) : Type 0 where
  pub opens : (w : W) → (sys.open_write name w).0 ≡ true
  pub emptied : (w : W) → (sys.read_stream name (sys.open_write name w).1).0 ≡ some ([], true)
  pub kept :
      (text : Bytes) (w : W)
      → (sys.read_stream name (sys.write name text (sys.open_write name w).1).1).0
        ≡ some (text, true)

abbrev pub AllSavable : FInfoList → Type 0
AllSavable [] = Unit
AllSavable ((name, fi) ∷ l) = IsSavable name fi × AllSavable l

lacks-append :
    (c : ℕ) (xs ys : Bytes) → lacks c xs ≡ true → lacks c ys ≡ true → lacks c (xs ++ ys) ≡ true
lacks-append c [] ys h e = e
lacks-append c (x ∷ xs) ys h e = ground (arith, lacks-append c xs ys)

lines_of-append :
    (line xs rest : Bytes)
    → lacks b'\n' xs ≡ true
    → lines_of line (xs ++ b'\n' ∷ rest) ≡ (line ++ xs) ∷ lines_of [] rest
unfolding lines_of
lines_of-append line [] rest h = rw append-nil
lines_of-append line (x ∷ xs) rest h = elim (Bool-cases (x == b'\n')) [
  | inl end ↦ absurd (ground arith)
  | inr inside ↦
      rw inside (lines_of-append (line ++ x ∷ []) xs rest (ground arith) ∙ rw append_assoc)
]

decimal-lacks_nl : (n : ℕ) → lacks b'\n' (decimal n) ≡ true
decimal-lacks_nl n = digits-lacks b'\n' (decimal n) refl (decimal-digits n)

decimal-lacks_colon : (n : ℕ) → lacks b':' (decimal n) ≡ true
decimal-lacks_colon n = digits-lacks b':' (decimal n) refl (decimal-digits n)

entry_line-lacks :
    (name : Bytes) (fi : FInfo) → lacks b'\n' name ≡ true → lacks b'\n' (entry_line name fi) ≡ true
entry_line-lacks name fi h = lacks-append b'\n' name _ h (
    lacks-append b'\n' (decimal fi.offset) (b':' ∷ decimal fi.crc) (decimal-lacks_nl fi.offset)
      (decimal-lacks_nl fi.crc))

module _ {W : Type 0} (sys : System W) (reader : Reader) (lawful : IsLawful reader)
    (still : (name : Bytes) (w : W) → (sys.stat name w).1 ≡ w) where
  -- The entry that a start makes of one that was saved: its file as it is now, to be seen anew.
  abbrev pub restored : Bytes → FInfo → Stat → FInfo
  restored name fi st = saved_info sys reader (record { name = name; stat = st }) fi.offset fi.crc

  abbrev pub entry_of : Bytes → FInfo → Option Stat → FInfoList
  entry_of name fi none = []
  entry_of name fi (some st) = (name, restored name fi st) ∷ []

  -- What is left of a list: the entries of the files that are still there, in the surroundings `w`.
  abbrev pub survivors : W → FInfoList → FInfoList
  survivors w [] = []
  survivors w ((name, fi) ∷ l) = entry_of name fi (sys.stat name w).0 ++ survivors w l

  with_numbers-entry :
      (name : Bytes) (fi : FInfo) (st : Stat) (l : FInfoList) (w : W)
      → IsSavable name fi
      → IsBelow less-StrictWeakOrder name l
      → with_numbers sys reader
          (record { name = name; stat = st })
          (decimal fi.offset)
          (decimal fi.crc)
          l
          w
        ≡ returns (l ++ (name, restored name fi st) ∷ [], w)
  unfolding with_numbers saved_info assign_info
  with_numbers-entry name fi st l w h below = rw (
    with_numbers,
    lawful.longs fi.offset h.offset_long,
    lawful.unsigneds fi.crc h.crc_unsigned,
    modify-IsBelow less-StrictWeakOrder name (restored name fi st)
        (λ old. assign_info old (restored name fi st)) l below,
  )

  -- One line, behind entries with lower names.
  with_file-entry :
      (name : Bytes) (fi : FInfo) (l : FInfoList) (w : W)
      → IsSavable name fi
      → IsBelow less-StrictWeakOrder name l
      → with_file sys reader name (decimal fi.offset) (decimal fi.crc) l w
        ≡ returns (l ++ entry_of name fi (sys.stat name w).0, w)
  unfolding with_file
  with_file-entry name fi l w h below = elim (Option-cases (sys.stat name w).0) [
    | inl gone ↦ rw (h.named, still name w, gone) (rw append-nil)
    | inr (st, there) ↦
        rw (h.named, still name w, there) (with_numbers-entry name fi st l w h below)
  ]

  -- The names of the list are above those of the entries read so far.
  abbrev Behind : FInfoList → FInfoList → Type 0
  Behind acc [] = Unit
  Behind acc ((name, fi) ∷ l) = IsBelow less-StrictWeakOrder name acc

  entry_of-IsBelow :
      (name next : Bytes) (fi : FInfo) (st : Option Stat)
      → less name next ≡ true
      → IsBelow less-StrictWeakOrder next (entry_of name fi st)
  entry_of-IsBelow name next fi none h = tt
  entry_of-IsBelow name next fi (some st) h = (h, tt)

  Behind-entry_of :
      (w : W) (name : Bytes) (fi : FInfo) (acc l : FInfoList)
      → IsSorted less ((name, fi) ∷ l)
      → IsBelow less-StrictWeakOrder name acc
      → Behind (acc ++ entry_of name fi (sys.stat name w).0) l
  Behind-entry_of w name fi acc [] s below = tt
  Behind-entry_of w name fi acc ((next, fi') ∷ l) ((lt, above), s) below =
      IsBelow-append less-StrictWeakOrder next acc _
        (IsBelow-trans less-StrictWeakOrder name next acc lt below)
        (entry_of-IsBelow name next fi (sys.stat name w).0 lt)

  read_lines-save_text :
      (l acc : FInfoList) (w : W)
      → IsSorted less l
      → AllSavable l
      → Behind acc l
      → read_lines sys reader (lines_of [] (save_text l)) acc w ≡ returns (acc ++ survivors w l, w)
  unfolding read_lines save_text lines_of
  read_lines-save_text [] acc w s h b = rw append-nil
  read_lines-save_text ((name, fi) ∷ l) acc w s (one, others) b =
      let (what, matched, first, second, third) =
        lawful.matches name (decimal fi.offset) (decimal fi.crc) (decimal-lacks_colon fi.offset)
          (decimal-lacks_colon fi.crc) in
      rw
        (
          lines_of-append [] (entry_line name fi) (save_text l)
              (entry_line-lacks name fi one.one_line),
          read_lines,
          matched,
          first,
          second,
          third,
          with_file-entry name fi acc w one b,
        )
        (read_lines-save_text l (acc ++ entry_of name fi (sys.stat name w).0) w s.1 others
            (Behind-entry_of w name fi acc l s b)
          ∙ cc (append_assoc acc (entry_of name fi (sys.stat name w).0) (survivors w l)))

  -- A sorted list whose names hold no '\n' and whose numbers fit their types is saved to a file that
  -- keeps its text and, in a later run of the program, read into an empty one. Where a stat changes
  -- nothing, that gives the entries of the files that are still there then, in their order, with the
  -- offsets and the checksums that they had.
  pub read_finfo_list-save_finfo_list :
      (file : Bytes) (l : FInfoList) (w : W)
      → KeepsText sys file
      → IsSorted less l
      → AllSavable l
      → Returns
          (λ (p : FInfoList × W). p.0 ≡ survivors p.1 l)
          ((save_finfo_list sys file l >>= λ ok. read_finfo_list sys reader file []) w)
  unfolding save_finfo_list read_finfo_list
  read_finfo_list-save_finfo_list file [] w k s h = rw (k.opens w) (rw (k.emptied w) refl)
  read_finfo_list-save_finfo_list file ((name, fi) ∷ l) w k s h = rw (k.opens w) (
      rw (k.kept (save_text ((name, fi) ∷ l)) w)
        (rw (read_lines-save_text ((name, fi) ∷ l) [] _ s h tt) refl))
