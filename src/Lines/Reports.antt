-- ===== src/Lines/Reports.antt =====
-- Where the loops over a stream of src/WMORaport.cc leave it, on a text of lines.
pub mod Whole
pub mod Last
pub mod Eof
use kvnorcom.Prelude.{
  ℕ, zero, suc, ◌+◌, ◌<◌, ◌≤◌, ◌≡◌, refl, sym, ap, ◌∙◌, Bool, true, false, not, ◌&&◌, ◌||◌,
  Bool-cases, inl, inr, none, some, List, [], ◌∷◌, ◌++◌, append-nil, append_assoc, ◌==◌, leb,
  length, length-append, take, take-append, all, all-head, all-tail, is_empty, arith,
}
use kvnorcom.Prelude.Bytes.{Bytes, codes, lacks, last_or, onto}
use kvnorcom.Outcome.{Outcome, returns, Returns, Returns-bind, Returns-map}
use kvnorcom.Stream.{IStream, reading, ended, get, putback_back, getline, line_ahead, fails}
use kvnorcom.Framing.{valid_char}
use kvnorcom.Lines.{
  TextLibrary, Report, is_alnum, find_char, skip, read_line, skip_empty_lines, report_loop,
  after_empty_lines, read_report,
}

-- A stream of which `rest` is still to be read, or of which all has been read and the end met.
pub data At (w : Bool) : Bytes → IStream → Type 0 where
  live : (b rest : Bytes) → At w rest (reading w b rest)
  over : (s : IStream) → s.eofbit ≡ true → At w [] s

-- The text does not begin with one of the characters.
abbrev pub StartsOther : Bytes → Bytes → Type 0
StartsOther what [] = Unit
StartsOther what (c ∷ cs) = valid_char c what ≡ false

skip-At :
    (f : ℕ) (what blanks rest : Bytes) (w : Bool) (b : Bytes)
    → all (λ c. valid_char c what) blanks ≡ true
    → StartsOther what rest
    → length blanks < f
    → Returns (At w rest) (skip f what (reading w b (blanks ++ rest)))
unfolding skip get
skip-At zero what blanks rest w b h o l = absurd (omega arith)
skip-At (suc f) what [] [] w b h o l = over (ended w b) refl
skip-At (suc f) what [] (c ∷ cs) w b h o l = rw (o, putback_back w c b cs) (live b (c ∷ cs))
skip-At (suc f) what (c ∷ blanks) rest w b h o l =
    rw (all-head (λ d. valid_char d what) c blanks h) (
      skip-At f what blanks rest w (c ∷ b) (all-tail (λ d. valid_char d what) c blanks h) o
        (omega arith))

-- The characters that skipEmptyLines keeps.
abbrev pub text_char : ℕ → Bool
text_char c = is_alnum c || valid_char c (codes " /=")

abbrev pub line_end : ℕ → Bool
line_end c = valid_char c (codes "\t\r\n")

line_end-text_char : (c : ℕ) → line_end c ≡ true → text_char c ≡ false
unfolding valid_char is_alnum
line_end-text_char c h = ground arith

read_line-At :
    (f : ℕ) (l sent : Bytes) (ch e : ℕ) (eol rest : Bytes) (w : Bool) (b : Bytes)
    → all text_char l ≡ true
    → all line_end (e ∷ eol) ≡ true
    → StartsOther (codes "\t\r\n") rest
    → length l + length (e ∷ eol) < f
    → Returns
        (λ p. (p.0 ≡ sent ++ l) × At w rest p.1)
        (read_line f sent ch (reading w b (l ++ (e ∷ eol ++ rest))))
unfolding read_line get
read_line-At zero l sent ch e eol rest w b t h o n = absurd (omega arith)
read_line-At (suc f) [] sent ch e eol rest w b t h o n =
    rw (line_end-text_char e (all-head line_end e eol h)) (
      Returns-bind (At w rest) (λ p. (p.0 ≡ sent ++ []) × At w rest p.1)
        (skip f (codes "\t\r\n") (reading w (e ∷ b) (eol ++ rest))) (λ s. returns (sent, s))
        (skip-At f (codes "\t\r\n") eol rest w (e ∷ b) (all-tail line_end e eol h) o (omega arith))
        (λ s at. (sym (append-nil sent), at)))
read_line-At (suc f) (x ∷ l) sent ch e eol rest w b t h o n = rw (all-head text_char x l t) (
    Returns-map (λ p. (p.0 ≡ (sent ++ x ∷ []) ++ l) × At w rest p.1)
      (λ p. (p.0 ≡ sent ++ x ∷ l) × At w rest p.1)
      (read_line f (sent ++ x ∷ []) x (reading w (x ∷ b) (l ++ (e ∷ eol ++ rest))))
      (λ p (q, at). (q ∙ append_assoc sent (x ∷ []) l, at))
      (read_line-At f l (sent ++ x ∷ []) x e eol rest w (x ∷ b) (all-tail text_char x l t) h o
        (omega arith)))

-- A line that skipEmptyLines finds and takes as a whole.
abbrev pub IsFirst : Bytes → Type 0
IsFirst [] = ⊥
IsFirst (x ∷ l) = (valid_char x (codes " \t\r\n") ≡ false) × (all text_char (x ∷ l) ≡ true)

pub is_empty-IsFirst : (l : Bytes) → IsFirst l → is_empty l ≡ false
is_empty-IsFirst [] h = absurd h
is_empty-IsFirst (x ∷ l) h = refl

pub skip_empty_lines-At :
    (junk f : ℕ) (l eol rest : Bytes) (w : Bool) (s : IStream)
    → IsFirst l
    → is_empty eol ≡ false
    → all line_end eol ≡ true
    → StartsOther (codes "\t\r\n") rest
    → At w (l ++ (eol ++ rest)) s
    → length l + length eol < f
    → Returns (λ p. (p.0 ≡ l) × At w rest p.1) (skip_empty_lines junk f s)
unfolding skip_empty_lines
skip_empty_lines-At junk f [] eol rest w s first some_end h o at n = absurd first
skip_empty_lines-At junk f (x ∷ l) [] rest w s first some_end h o at n = ground arith
skip_empty_lines-At junk f (x ∷ l) (e ∷ eol) rest w s (other, text) some_end h o (live b _) n =
    Returns-bind (At w (x ∷ (l ++ (e ∷ eol ++ rest)))) (λ p. (p.0 ≡ x ∷ l) × At w rest p.1)
      (skip f (codes " \t\r\n") s) (read_line f [] junk)
      (skip-At f (codes " \t\r\n") [] (x ∷ (l ++ (e ∷ eol ++ rest))) w b refl other (omega arith))
      next
  where
    next :
        (t : IStream)
        → At w (x ∷ (l ++ (e ∷ eol ++ rest))) t
        → Returns (λ p. (p.0 ≡ x ∷ l) × At w rest p.1) (read_line f [] junk t)
    next t (live b' _) = read_line-At f (x ∷ l) [] junk e eol rest w b' text h o n

lacks-head : (c x : ℕ) (xs : Bytes) → lacks c (x ∷ xs) ≡ true → (x == c) ≡ false
lacks-head c x xs h = ground arith

lacks-tail : (c x : ℕ) (xs : Bytes) → lacks c (x ∷ xs) ≡ true → lacks c xs ≡ true
lacks-tail c x xs h = ground arith

pub lacks-append :
    (c : ℕ) (xs ys : Bytes) → lacks c xs ≡ true → lacks c ys ≡ true → lacks c (xs ++ ys) ≡ true
lacks-append c [] ys h k = k
lacks-append c (x ∷ xs) ys h k = ground (arith, lacks-append c xs ys (lacks-tail c x xs h) k)

line_ahead-append :
    (l sent rest : Bytes) (w : Bool) (b all_ahead : Bytes)
    → lacks b'\n' l ≡ true
    → line_ahead (l ++ b'\n' ∷ rest) sent (reading w b all_ahead)
      ≡ (sent ++ l, reading w (b'\n' ∷ onto b l) rest)
unfolding line_ahead
line_ahead-append [] sent rest w b all_ahead h = rw (append-nil sent) refl
line_ahead-append (c ∷ l) sent rest w b all_ahead h = rw (lacks-head b'\n' c l h) (
    line_ahead-append l (sent ++ c ∷ []) rest w (c ∷ b) all_ahead (lacks-tail b'\n' c l h)
    ∙ ap (λ t. (t, reading w (b'\n' ∷ onto (c ∷ b) l) rest)) (append_assoc sent (c ∷ []) l))

pub getline-append :
    (old l rest : Bytes) (w : Bool) (b : Bytes)
    → lacks b'\n' l ≡ true
    → getline old (reading w b (l ++ b'\n' ∷ rest)) ≡ (l, reading w (b'\n' ∷ onto b l) rest)
unfolding getline
getline-append old l rest w b h = line_ahead-append l [] rest w b _ h

pub At-live :
    {w : Bool} {a : Bytes} {s : IStream}
    → At w a s
    → is_empty a ≡ false
    → (b : Bytes) × (s ≡ reading w b a)
At-live (live b a) h = (b, refl)
At-live (over s e) h = ground arith

pub find_char-lacks : (c : ℕ) (xs : Bytes) → lacks c xs ≡ true → find_char c xs ≡ none
unfolding find_char
find_char-lacks c [] h = refl
find_char-lacks c (x ∷ xs) h = ground (arith, find_char-lacks c xs)

pub take_one-append : (t ys : Bytes) (c : ℕ) → take (length t + 1) (t ++ c ∷ ys) ≡ t ++ c ∷ []
take_one-append [] ys c = refl
take_one-append (x ∷ t) ys c =
    ap (λ n. take n (x ∷ t ++ c ∷ ys)) {y = suc (length t + 1)} (omega arith)
    ∙ ap (◌∷◌ x) (take_one-append t ys c)
