-- ===== src/Framing.antt =====
-- The frame of a message in the input of src/WMORaport.cc: findZCZC and getMessage.
-- The loops take fuel, one unit a round.
pub mod Zczc
pub mod Steps
pub mod Runs
pub mod Mark
pub mod Frame
pub mod Bulletins
pub mod Invariant
pub mod Sound
use kvnorcom.Prelude.{
  ℕ, zero, suc, ◌+◌, ◌-◌, Bool, true, false, not, ◌&&◌, ◌||◌, [], ◌∷◌, ◌++◌, ltb, leb, ◌==◌, length,
  take, is_empty, get_elem?, if◌then◌else◌,
}
use kvnorcom.Prelude.Bytes.{Bytes, codes}
use kvnorcom.Outcome.{Outcome, returns, fault, running, ◌>>=◌, or_fault}
use kvnorcom.Stream.{IStream, fails, get, putback}

-- validChar: whether `valid` has the character in front of its terminator.
unfoldable pub valid_char : ℕ → Bytes → Bool
valid_char ch [] = false
valid_char ch (v ∷ vs) = v == ch || valid_char ch vs

-- The marks with their terminators.
abbrev pub zczc : Bytes
zczc = codes "ZCZC" ++ 0 ∷ []

abbrev pub nnnn : Bytes
nnnn = codes "NNNN" ++ 0 ∷ []

-- Blanks, digits and line ends: what may follow ZCZC.
abbrev pub header_chars : Bytes
header_chars = codes " 1234567890\r\n"

-- findZCZC: the variables of its first loop. `ch` has no value before the first read.
pub record Search : Type 0 where
  pub izc : ℕ
  pub line : Bytes
  pub ch : ℕ
  pub stream : IStream

-- The rest of the first loop's body, on the character in `ch`.
unfoldable pub match_zczc : Search → Outcome Search
match_zczc v = do
  z ← or_fault (get_elem? zczc v.izc)
  returns (
      if v.ch == z
      then record v { izc = v.izc + 1; line = v.line ++ v.ch ∷ [] }
      else record v { izc = 0; line = [] })

-- `while( ! found && ! ist.eof() )`: whether ZCZC was found.
unfoldable pub find_start : ℕ → Search → Outcome (Bool × Search)
unfolding match_zczc
find_start zero v = running
find_start (suc fuel) v =
    let (ch, s) = get v.ch v.stream in
    let again : Search → Outcome (Bool × Search) = λ w. find_start fuel w in
    let body : Outcome (Bool × Search) = (do
      w ← match_zczc (record v { ch = ch; stream = s })
      z ← or_fault (get_elem? zczc w.izc)
      elim (z == 0) [ true ↦ returns (true, w) | false ↦ again w ]) in
    if v.stream.eofbit
    then returns (false, v)
    else if fails s && not s.eofbit
    then returns (false, record v { ch = ch; stream = s })
    else body

-- `do ... while( isValidCh )`: the characters behind ZCZC. The result says whether the loop ended
-- by its test, and what `prevch` was.
unfoldable pub read_header : ℕ → Search → Outcome (Bool × ℕ × Search)
read_header zero v = running
read_header (suc fuel) v =
    let (ch, s) = get v.ch v.stream in
    let w = record v { ch = ch; stream = s } in
    let again = read_header fuel (record w { line = v.line ++ ch ∷ [] }) in
    if fails s && not s.eofbit
    then returns (false, v.ch, w)
    else if valid_char ch header_chars
    then again
    else returns (true, v.ch, w)

-- What a call of findZCZC leaves: its result, `theZCZCline` and the stream.
pub record Header : Type 0 where
  pub found : Bool
  pub line : Bytes
  pub stream : IStream

-- miutil::trimstr is a parameter, and so is the value of `ch` before anything is assigned to it.
module _ (trimstr : Bytes → Bytes) (junk : ℕ) where
  find_end : Bool × ℕ × Search → Outcome Header
  find_end (false, prev, v) = returns (record { found = false; line = v.line; stream = v.stream })
  find_end (true, prev, v) =
      returns
        (record { found = prev == b'\n'; line = trimstr v.line; stream = putback v.ch v.stream })

  after_start : ℕ → Bool × Search → Outcome Header
  unfolding find_end read_header
  after_start fuel (false, v) = returns (record { found = false; line = v.line; stream = v.stream })
  after_start fuel (true, v) = do r ← read_header fuel v; find_end r

  -- findZCZC
  unfoldable pub find_zczc : ℕ → IStream → Outcome Header
  unfolding after_start find_start
  find_zczc fuel s = do
    r ← find_start fuel (record { izc = 0; line = []; ch = junk; stream = s })
    after_start fuel r

-- getMessage: the variables of its loops; `sent` is what `ost` holds.
pub record Scan : Type 0 where
  pub innn : ℕ
  pub rn_count : ℕ
  pub count : ℕ
  pub sent : Bytes
  pub ch : ℕ
  pub stream : IStream

-- What a call leaves: its result, what it wrote to `msg`, and the stream.
pub record Message : Type 0 where
  pub complete : Bool
  pub msg : Bytes
  pub stream : IStream

-- `return false`
abbrev pub no_message : IStream → Outcome Message
no_message s = returns (record { complete = false; msg = []; stream = s })

-- `buf.erase( buf.size() - count ); msg << buf; return true`: a position behind the end is an
-- std::out_of_range.
unfoldable pub send_message : Scan → IStream → Outcome Message
send_message v s =
    if leb v.count (length v.sent)
    then returns
        (record { complete = true; msg = take (length v.sent - v.count) v.sent; stream = s })
    else fault

-- The character in `ch` against the end mark: the part of the loop's body up to the test of
-- `! NNNN[iNNN]`.
unfoldable pub match_nnnn : Scan → Outcome Scan
match_nnnn v = do
  n ← or_fault (get_elem? nnnn v.innn)
  returns (
      if n == v.ch || v.ch == b'\n' || v.ch == b'\r'
      then (if n == v.ch
          then record v { count = v.count + 1; innn = v.innn + 1 }
          else record v { count = v.count + 1; rn_count = v.rn_count + 1; innn = 0 })
      else record v { count = 0; innn = 0; rn_count = 0 })

-- `while( true )`: the line ends behind NNNN.
unfoldable pub read_end : ℕ → Scan → Outcome Message
unfolding send_message
read_end zero v = running
read_end (suc fuel) v =
    let (ch, s) = get v.ch v.stream in
    let again = read_end fuel (record v {
      rn_count = v.rn_count + 1;
      count = v.count + 1;
      sent = v.sent ++ ch ∷ [];
      ch = ch;
      stream = s;
    }) in
    if fails s
    then (if ltb 0 v.rn_count && s.eofbit then send_message v s else no_message s)
    else if v.ch == b'\n' && ltb 0 v.rn_count
    then send_message v (putback ch s)
    else if valid_char ch (codes "\r\n")
    then again
    else no_message s

-- Behind the loop: the input ended with no end mark.
unfoldable pub send_rest : Scan → Outcome Message
send_rest v =
    if is_empty v.sent
    then no_message v.stream
    else returns (record { complete = true; msg = v.sent; stream = v.stream })

-- `while( ! ist.eof() )`: the search for the end mark.
unfoldable pub read_message : ℕ → Scan → Outcome Message
unfolding read_end send_rest
read_message zero v = running
read_message (suc fuel) v =
    let (ch, s) = get v.ch v.stream in
    let again : Scan → Outcome Message = λ w. read_message fuel w in
    let body : Outcome Message = (do
      w ← match_nnnn (record v { ch = ch; stream = s; sent = v.sent ++ ch ∷ [] })
      n ← or_fault (get_elem? nnnn w.innn)
      elim (n == 0 && ltb 2 w.rn_count) [
        | true ↦ read_end fuel (record w { rn_count = 0 })
        | false ↦ again w
      ]) in
    if v.stream.eofbit then send_rest v else if fails s then no_message s else body

abbrev pub scan_from : ℕ → IStream → Scan
scan_from junk s = record { innn = 0; rn_count = 0; count = 0; sent = []; ch = junk; stream = s }

module _ (trimstr : Bytes → Bytes) (junk : ℕ) where
  after_zczc : ℕ → Header → Outcome (Bytes × Message)
  unfolding read_message
  after_zczc fuel h =
      if h.found
      then (do m ← read_message fuel (scan_from junk h.stream); returns (h.line, m))
      else (do m ← no_message h.stream; returns (h.line, m))

  -- getMessage: `theZCZCline` and the rest.
  unfoldable pub get_message : ℕ → IStream → Outcome (Bytes × Message)
  unfolding after_zczc find_zczc
  get_message fuel s = do h ← find_zczc trimstr junk fuel s; after_zczc fuel h
