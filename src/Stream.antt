-- ===== src/Stream.antt =====
-- std::istream over a string buffer, as src/WMORaport.cc uses it: `get`, `putback`, `read`,
-- `getline`, `eof` and `fail`, with their effect on the stream's state.
use kvnorcom.Prelude.{
  ℕ, Bool, true, false, not, ◌||◌, [], ◌∷◌, ◌++◌, ltb, ◌==◌, ==_iff, ◌≡◌, refl, length, take, drop,
  is_empty, if◌then◌else◌,
}
use kvnorcom.Prelude.Bytes.{Bytes, onto}

pub record IStream : Type 0 where
  -- The characters that have been read, the latest first, and those to be read.
  pub behind : Bytes
  pub ahead : Bytes
  pub eofbit : Bool
  pub failbit : Bool
  pub badbit : Bool
  -- Whether the buffer was opened for output too.
  pub writable : Bool

-- A stream in which nothing has gone wrong.
abbrev pub reading : Bool → Bytes → Bytes → IStream
reading w b a = record {
  behind = b;
  ahead = a;
  eofbit = false;
  failbit = false;
  badbit = false;
  writable = w;
}

-- A stream that has met its end in a read.
abbrev pub ended : Bool → Bytes → IStream
ended w b = record {
  behind = b;
  ahead = [];
  eofbit = true;
  failbit = true;
  badbit = false;
  writable = w;
}

abbrev pub good : IStream → Bool
good s = not (s.eofbit || s.failbit || s.badbit)

abbrev pub fails : IStream → Bool
fails s = s.failbit || s.badbit

get_ahead : Bytes → ℕ → IStream → ℕ × IStream
get_ahead [] ch s = (ch, record s { eofbit = true; failbit = true })
get_ahead (c ∷ cs) ch s = (c, record s { behind = c ∷ s.behind; ahead = cs })

-- istream::get( ch ): the variable and the stream after the call. Where no character is read the
-- variable keeps its value.
unfoldable pub get : ℕ → IStream → ℕ × IStream
unfolding get_ahead
get ch s = if good s then get_ahead s.ahead ch s else (ch, record s { failbit = true })

-- streambuf::sputbackc: another character than the last one is put back only into a buffer that
-- may be written.
put_behind : Bytes → ℕ → IStream → IStream
put_behind [] c s = record s { badbit = true }
put_behind (b ∷ bs) c s =
    if b == c || s.writable
    then record s { behind = bs; ahead = c ∷ s.ahead }
    else record s { badbit = true }

-- istream::putback: it clears eofbit first.
unfoldable pub putback : ℕ → IStream → IStream
unfolding put_behind
putback c s =
    let s' = record s { eofbit = false } in
    if good s' then put_behind s'.behind c s' else record s' { failbit = true }

-- The characters of getline, from those ahead.
unfoldable pub line_ahead : Bytes → Bytes → IStream → Bytes × IStream
line_ahead [] line s = (line, record s { ahead = []; eofbit = true; failbit = is_empty line })
line_ahead (c ∷ cs) line s =
    let rest = line_ahead cs (line ++ c ∷ []) (record s { behind = c ∷ s.behind }) in
    if c == b'\n' then (line, record s { behind = c ∷ s.behind; ahead = cs }) else rest

-- std::getline( ist, line, '\n' ): the text and the stream. The '\n' is taken and not kept; the end
-- of the input fails only if nothing stood in front of it. The string `old` stays on a bad stream.
unfoldable pub getline : Bytes → IStream → Bytes × IStream
unfolding line_ahead
getline old s = if good s then line_ahead s.ahead [] s else (old, record s { failbit = true })

-- istream::read: at most `n` characters; fewer set eofbit and failbit.
unfoldable pub read : ℕ → IStream → Bytes × IStream
read n s =
    if good s
    then (
      take n s.ahead,
      record s {
        behind = onto s.behind (take n s.ahead);
        ahead = drop n s.ahead;
        eofbit = ltb (length s.ahead) n;
        failbit = ltb (length s.ahead) n;
      },
    )
    else ([], record s { failbit = true })

-- The character read last goes back on any stream.
pub putback_back :
    (w : Bool) (c : ℕ) (b a : Bytes) → putback c (reading w (c ∷ b) a) ≡ reading w b (c ∷ a)
unfolding putback
putback_back w c b a = rw ((==_iff c c).1 refl)
