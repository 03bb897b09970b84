-- ===== src/Lines.antt =====
-- Reading a message line by line: skip, readToEof, skipEmptyLines and readReport of
-- src/WMORaport.cc. The loops take fuel, one unit a round.
pub mod Find
pub mod Rest
pub mod Reports
pub mod Total
use kvnorcom.Prelude.{
  ℕ, zero, suc, ◌+◌, Bool, true, false, not, ◌&&◌, ◌||◌, Option, none, some, [], ◌∷◌, ◌++◌, leb,
  ◌==◌, take, is_empty, if◌then◌else◌,
}
use kvnorcom.Prelude.Bytes.{Bytes, codes}
use kvnorcom.Outcome.{Outcome, returns, running, ◌>>=◌}
use kvnorcom.Stream.{IStream, fails, get, putback, getline, read}
use kvnorcom.Framing.{valid_char}

-- What boost::algorithm and miutil do to a text.
pub record TextLibrary : Type 0 where
  pub trim : Bytes → Bytes
  pub trim_right : Bytes → Bytes
  pub trimstr : Bytes → Bytes

-- isalnum in the C locale.
unfoldable pub is_alnum : ℕ → Bool
is_alnum c = (leb b'0' c && leb c b'9') || (leb b'A' c && leb c b'Z') || (leb b'a' c && leb c b'z')

-- string::find of one character.
unfoldable pub find_char : ℕ → Bytes → Option ℕ
find_char c [] = none
find_char c (x ∷ xs) =
    let rest : Option ℕ = elim (find_char c xs) [ none ↦ none | some i ↦ some (suc i) ] in
    if x == c then some 0 else rest

-- readToEof: blocks of 256 characters.
unfoldable pub read_to_eof : ℕ → Bytes → IStream → Outcome (Bytes × IStream)
read_to_eof zero sent s = running
read_to_eof (suc fuel) sent s =
    let (block, s') = read 256 s in
    let again = read_to_eof fuel (sent ++ block) s' in
    if s.eofbit
    then returns (sent, s)
    else if fails s' && not s'.eofbit
    then returns (sent, s')
    else again

-- skip
unfoldable pub skip : ℕ → Bytes → IStream → Outcome IStream
skip zero what s = running
skip (suc fuel) what s =
    let (ch, s') = get 0 s in
    let again = skip fuel what s' in
    if s.eofbit
    then returns s
    else if fails s'
    then returns s'
    else if not (valid_char ch what)
    then returns (putback ch s')
    else again

-- The loop of skipEmptyLines: `line` is what has been written, `ch` the last character.
unfoldable pub read_line : ℕ → Bytes → ℕ → IStream → Outcome (Bytes × IStream)
read_line zero line ch s = running
read_line (suc fuel) line ch s =
    let (c, s') = get ch s in
    let again = read_line fuel (line ++ c ∷ []) c s' in
    let over : Outcome (Bytes × IStream) = (do
      s'' ← skip fuel (codes "\t\r\n") s'
      returns (line, s'')) in
    if s.eofbit
    then returns (line, s)
    else if fails s' && not s'.eofbit
    then returns (line, s')
    else if is_alnum c || valid_char c (codes " /=")
    then again
    else over

-- skipEmptyLines; `junk` is the value of `ch` before the first read.
unfoldable pub skip_empty_lines : ℕ → ℕ → IStream → Outcome (Bytes × IStream)
skip_empty_lines junk fuel s = do s' ← skip fuel (codes " \t\r\n") s; read_line fuel [] junk s'

-- What a call of readReport leaves: its result, `report` and the stream.
pub record Report : Type 0 where
  pub filled : Bool
  pub text : Bytes
  pub stream : IStream

module _ (lib : TextLibrary) where
  -- The loop's end: what was read holds no '='.
  end_of_report : Bytes → IStream → Report
  end_of_report buf s =
      if is_empty (lib.trim buf)
      then record { filled = false; text = []; stream = s }
      else record { filled = true; text = buf ++ b'\n' ∷ []; stream = s }

  -- `do ... while( getline( ist, line, '\n' ) )`
  unfoldable pub report_loop : ℕ → Bytes → Bytes → IStream → Outcome Report
  unfolding end_of_report
  report_loop zero buf line s = running
  report_loop (suc fuel) buf line s =
      let trimmed = lib.trim_right line in
      let sent = buf ++ (trimmed ++ b'\n' ∷ []) in
      let (next, s') = getline trimmed s in
      let again = report_loop fuel sent next s' in
      elim (find_char b'=' trimmed) [
        | some i ↦ returns (record {
          filled = true;
          text = buf ++ (take (i + 1) trimmed ++ b'\n' ∷ []);
          stream = s;
        })
        | none ↦ if not (fails s') then again else returns (end_of_report sent s')
      ]

  after_empty_lines : ℕ → Bytes × IStream → Outcome Report
  unfolding report_loop
  after_empty_lines fuel (line, s) =
      if is_empty line
      then returns (record { filled = false; text = []; stream = s })
      else report_loop fuel [] line s

  -- readReport
  unfoldable pub read_report : ℕ → ℕ → IStream → Outcome Report
  unfolding after_empty_lines skip_empty_lines
  read_report junk fuel s = do r ← skip_empty_lines junk fuel s; after_empty_lines fuel r
