-- ===== src/Framing/Bulletins.antt =====
-- A file of messages in their frames, and getMessage on the first of them.
use kvnorcom.Prelude.{
  ℕ, ◌+◌, ◌≤◌, ◌<◌, ◌≡◌, refl, Bool, true, false, List, [], ◌∷◌, ◌++◌, ◌==◌, ==_iff, length, all,
  append-nil, arith,
}
use kvnorcom.Prelude.Bytes.{Bytes, codes, onto, last_or, lacks}
use kvnorcom.Outcome.{returns}
use kvnorcom.Stream.{IStream, reading, ended}
use kvnorcom.Framing.{get_message}
use kvnorcom.Framing.Zczc.{in_header, find_zczc-found}
use kvnorcom.Framing.Steps.{is_eol, is_mark, no_nnnn}
use kvnorcom.Framing.Mark.{end_mark}
use kvnorcom.Framing.Frame.{framed, get_message-frame, read_message-last}

-- A message and what stands round it: text in front of its ZCZC, the header line behind ZCZC, the
-- message, the line ends in front of NNNN and the carriage returns behind it.
pub record Bulletin : Type 0 where
  pub before : Bytes
  pub header : Bytes
  pub first : ℕ
  pub body : Bytes
  pub eols : Bytes
  pub crs : Bytes

-- The frame is that of the message switch.
pub record IsFramed (x : Bulletin) : Type 0 where
  pub before_lacks : lacks b'Z' x.before ≡ true
  pub header_chars : all in_header x.header ≡ true
  pub header_line : last_or b'C' x.header ≡ b'\n'
  pub first_other : in_header x.first ≡ false
  pub unmarked : no_nnnn 0 (x.first ∷ x.body) ≡ true
  pub body_ends : is_mark (last_or x.first x.body) ≡ false
  pub eols_are : all is_eol x.eols ≡ true
  pub eols_enough : 2 < length x.eols
  pub crs_are : all (λ c. c == b'\r') x.crs ≡ true

abbrev pub message : Bulletin → Bytes
message x = x.first ∷ x.body

abbrev pub print : Bulletin → Bytes → Bytes
print x rest = framed x.before x.header x.first x.body x.eols x.crs rest

-- The bulletins of a file, one behind the other.
abbrev pub print_all : List Bulletin → Bytes
print_all [] = []
print_all (x ∷ xs) = print x (print_all xs)

-- Rounds that suffice for getMessage.
abbrev pub size : Bulletin → ℕ
size x = length x.before + length x.header + length x.body + length (end_mark x.eols x.crs) + 5

-- The stream in front of `rest`: where a message's end is the end of the input, it has been met.
abbrev pub left : Bool → Bytes → Bytes → IStream
left w b [] = ended w b
left w b (c ∷ cs) = reading w b (c ∷ cs)

pub left-print :
    (w : Bool) (b : Bytes) (x : Bulletin) (rest : Bytes)
    → left w b (print x rest) ≡ reading w b (print x rest)
left-print w b x rest = at x.before
  where
    at :
        (pre : Bytes)
        → left w b (framed pre x.header x.first x.body x.eols x.crs rest)
          ≡ reading w b (framed pre x.header x.first x.body x.eols x.crs rest)
    at [] = refl
    at (c ∷ cs) = refl

module _ (trimstr : Bytes → Bytes) (junk : ℕ) (w : Bool) where
  abbrev pub line_of : Bulletin → Bytes
  line_of x = trimstr (codes "ZCZC" ++ x.header)

  abbrev pub behind : Bytes → Bulletin → Bytes
  behind b x =
      onto (onto (onto (onto (onto b x.before) (codes "ZCZC")) x.header) (message x))
        (end_mark x.eols x.crs)

  get_message-last :
      (f : ℕ) (b : Bytes) (x : Bulletin)
      → IsFramed x
      → size x ≤ f
      → get_message trimstr junk f (reading w b (print x []))
        ≡ returns
            (line_of x, record { complete = true; msg = message x; stream = ended w (behind b x) })
  unfolding get_message
  get_message-last f b x h l = rw (
    append-nil (end_mark x.eols x.crs),
    find_zczc-found trimstr junk w b x.before x.header f x.first (x.body ++ end_mark x.eols x.crs)
        h.before_lacks h.header_chars h.first_other (omega arith),
    (==_iff (last_or b'C' x.header) b'\n').1 h.header_line,
    read_message-last w f junk (onto (onto (onto b x.before) (codes "ZCZC")) x.header) (message x)
        x.eols x.crs h.unmarked h.body_ends h.eols_are h.eols_enough h.crs_are (omega arith),
  )

  -- getMessage on a file that begins with a bulletin.
  pub get_message-print :
      (f : ℕ) (b : Bytes) (x : Bulletin) (rest : Bytes)
      → IsFramed x
      → size x ≤ f
      → get_message trimstr junk f (reading w b (print x rest))
        ≡ returns (
          line_of x,
          record { complete = true; msg = message x; stream = left w (behind b x) rest },
        )
  get_message-print f b x [] h l = get_message-last f b x h l
  get_message-print f b x (d ∷ rest) h l =
      get_message-frame trimstr junk w b x.before x.header f x.first x.body x.eols x.crs d rest
        h.before_lacks h.header_chars h.header_line h.first_other h.unmarked h.body_ends h.eols_are
        h.eols_enough h.crs_are (omega arith)
