-- ===== src/Lines/Reports/Whole.antt =====
-- What readReport makes of a text of reports.
use mathlib.Core.Path.{subst}
use kvnorcom.Prelude.{
  ℕ, zero, suc, ◌+◌, ◌<◌, ◌≤◌, ◌≡◌, refl, sym, ap, ◌∙◌, Bool, true, false, ◌&&◌, ◌||◌, List, [],
  ◌∷◌, ◌++◌, append-nil, append_assoc, ◌==◌, leb, length, length-append, all, all-head, all-tail,
  is_empty-append, arith,
}
use kvnorcom.Prelude.Bytes.{Bytes, codes, lacks, last_or, onto}
use kvnorcom.Outcome.{returns, Returns, Returns-bind, Returns-map}
use kvnorcom.Stream.{IStream, reading, get, getline, fails}
use kvnorcom.Framing.{valid_char}
use kvnorcom.Lines.{
  TextLibrary, Report, find_char, skip, read_line, skip_empty_lines, report_loop, after_empty_lines,
  read_report,
}
use kvnorcom.Lines.Find.{find_char-append}
use kvnorcom.Lines.Total.{report_loop_on, read_report_over}
use kvnorcom.Lines.Reports.{
  At, live, over, StartsOther, IsFirst, is_empty-IsFirst, line_end, skip_empty_lines-At,
  getline-append, At-live, find_char-lacks, take_one-append, lacks-append,
}

-- Lines with what stands at the end of each, and the text that readReport makes of them.
abbrev pub print_lines : Bytes → List Bytes → Bytes → Bytes
print_lines crs [] rest = rest
print_lines crs (l ∷ ls) rest = l ++ (crs ++ b'\n' ∷ print_lines crs ls rest)

abbrev pub text_lines : List Bytes → Bytes
text_lines [] = []
text_lines (l ∷ ls) = l ++ b'\n' ∷ text_lines ls

-- Only the last line holds an '=', at its end.
abbrev pub IsMarked : Bytes → List Bytes → Type 0
IsMarked l [] = (t : Bytes) × (l ≡ t ++ b'=' ∷ []) × (lacks b'=' t ≡ true)
IsMarked l (m ∷ ms) = (lacks b'=' l ≡ true) × IsMarked m ms

-- isspace in the C locale.
abbrev pub is_space : ℕ → Bool
is_space c = c == b' ' || (leb 9 c && leb c 13)

abbrev pub EndsInText : Bytes → Type 0
EndsInText t = is_space (last_or b' ' t) ≡ false

line_end-is_space : (c : ℕ) → line_end c ≡ true → is_space c ≡ true
unfolding valid_char
line_end-is_space c h = ground arith

all-is_space : (ws : Bytes) → all line_end ws ≡ true → all is_space ws ≡ true
all-is_space [] h = refl
all-is_space (c ∷ ws) h =
    rw (line_end-is_space c (all-head line_end c ws h)) (all-is_space ws (all-tail line_end c ws h))

-- boost::trim_right: what is of class space at the end is taken off, and nothing else.
abbrev pub IsTrimRight : (Bytes → Bytes) → Type 0
IsTrimRight trim_right =
    (t blanks : Bytes) → EndsInText t → all is_space blanks ≡ true → trim_right (t ++ blanks) ≡ t

module _ (lib : TextLibrary) (trims : IsTrimRight lib.trim_right) (crs : Bytes)
    (only_ends : all line_end crs ≡ true) (one_line : lacks b'\n' crs ≡ true) where
  pub trim-EndsInText : (t : Bytes) → EndsInText t → lib.trim_right t ≡ t
  trim-EndsInText t h = ap lib.trim_right (sym (append-nil t)) ∙ trims t [] h refl

  trim-crs : (t : Bytes) → EndsInText t → lib.trim_right (t ++ crs) ≡ t
  trim-crs t h = trims t crs h (all-is_space crs only_ends)

  -- A line behind the first one.
  abbrev pub IsMore : Bytes → Type 0
  IsMore [] = ⊥
  IsMore (x ∷ m) = (line_end x ≡ false) × (lacks b'\n' (x ∷ m) ≡ true) × EndsInText (x ∷ m)

  abbrev pub AllMore : List Bytes → Type 0
  AllMore [] = Unit
  AllMore (m ∷ ms) = IsMore m × AllMore ms

  abbrev pub IsRead : Bool → Bytes → Bytes → Report → Type 0
  IsRead w text rest r = (r.filled ≡ true) × (r.text ≡ text) × At w rest r.stream

  -- What stands behind the '=' is left out.
  pub report_loop-marked :
      (f : ℕ) (buf raw t behind : Bytes) (s : IStream)
      → lib.trim_right raw ≡ t ++ b'=' ∷ behind
      → lacks b'=' t ≡ true
      → report_loop lib (suc f) buf raw s
        ≡ returns
            (record { filled = true; text = buf ++ ((t ++ b'=' ∷ []) ++ b'\n' ∷ []); stream = s })
  unfolding report_loop
  report_loop-marked f buf raw t behind s trimmed h =
      let found = ap (find_char b'=') trimmed ∙ find_char-append b'=' t behind h in
      rw (report_loop, found, trimmed, take_one-append t behind b'=') refl

  pub trim-IsMore : (m : Bytes) → IsMore m → lib.trim_right (m ++ crs) ≡ m
  trim-IsMore [] h = absurd h
  trim-IsMore (x ∷ m) (starts, one, ends) = trim-crs (x ∷ m) ends

  -- A line that getline finds.
  pub getline-At :
      (old m : Bytes) (ms : List Bytes) (rest : Bytes) (w : Bool) (s : IStream)
      → IsMore m
      → At w (print_lines crs (m ∷ ms) rest) s
      → (b : Bytes) × (getline old s ≡ (m ++ crs, reading w b (print_lines crs ms rest)))
  getline-At old [] ms rest w s is_more at = absurd is_more
  getline-At old (x ∷ m) ms rest w s (starts, one, ends) at =
      let (b, e) = At-live at refl in
      let ahead = sym (append_assoc (x ∷ m) crs (b'\n' ∷ print_lines crs ms rest)) in
      (
        b'\n' ∷ onto b (x ∷ m ++ crs),
        ap (getline old) (e ∙ ap (reading w b) ahead)
            ∙ getline-append old (x ∷ m ++ crs) (print_lines crs ms rest) w b
                (lacks-append b'\n' (x ∷ m) crs one one_line),
      )

  -- A line without an '=' goes to what is made of the report, where getline finds another.
  pub report_loop-next :
      (f : ℕ) (buf raw l m : Bytes) (s t : IStream)
      → lib.trim_right raw ≡ l
      → lacks b'=' l ≡ true
      → getline l s ≡ (m, t)
      → fails t ≡ false
      → report_loop lib (suc f) buf raw s ≡ report_loop lib f (buf ++ (l ++ b'\n' ∷ [])) m t
  report_loop-next f buf raw l m s t trimmed h next good =
      let on : fails (getline (lib.trim_right raw) s).1 ≡ false =
        ap (λ x. fails (getline x s).1) trimmed ∙ ap (λ p. fails p.1) next ∙ good in
      report_loop_on lib f buf raw s (ap (find_char b'=') trimmed ∙ find_char-lacks b'=' l h) on
      ∙ ap (λ x. report_loop lib f (buf ++ (x ++ b'\n' ∷ [])) (getline x s).0 (getline x s).1)
          trimmed
      ∙ ap (λ p. report_loop lib f (buf ++ (l ++ b'\n' ∷ [])) p.0 p.1) next

  -- The text of the line, and that of the others behind it.
  pub text-append :
      (buf l : Bytes) (ms : List Bytes)
      → (buf ++ (l ++ b'\n' ∷ [])) ++ text_lines ms ≡ buf ++ (l ++ b'\n' ∷ text_lines ms)
  text-append buf l ms =
      append_assoc buf (l ++ b'\n' ∷ []) (text_lines ms)
      ∙ ap (◌++◌ buf) (append_assoc l (b'\n' ∷ []) (text_lines ms))

  report_loop-At :
      (f : ℕ) (buf raw l : Bytes) (ls : List Bytes) (rest : Bytes) (w : Bool) (s : IStream)
      → lib.trim_right raw ≡ l
      → IsMarked l ls
      → AllMore ls
      → At w (print_lines crs ls rest) s
      → length ls < f
      → Returns (IsRead w (buf ++ text_lines (l ∷ ls)) rest) (report_loop lib f buf raw s)
  report_loop-At zero buf raw l ls rest w s trimmed marked more at n = absurd (omega arith)
  report_loop-At (suc f) buf raw l [] rest w s trimmed (t, e, h) more at n =
      rw (report_loop-marked f buf raw t [] s (trimmed ∙ e) h)
        (refl, ap (λ x. buf ++ (x ++ b'\n' ∷ [])) (sym e), at)
  report_loop-At (suc f) buf raw l (m ∷ ms) rest w s trimmed (h, marked) (is_more, more) at n =
      let (b, next) = getline-At l m ms rest w s is_more at in
      rw
        (report_loop-next f buf raw l (m ++ crs) s (reading w b (print_lines crs ms rest)) trimmed h
          next refl)
        (Returns-map (IsRead w ((buf ++ (l ++ b'\n' ∷ [])) ++ text_lines (m ∷ ms)) rest)
          (IsRead w (buf ++ text_lines (l ∷ m ∷ ms)) rest)
          (report_loop lib f (buf ++ (l ++ b'\n' ∷ [])) (m ++ crs)
            (reading w b (print_lines crs ms rest)))
          (λ r (filled, t, at'). (filled, t ∙ text-append buf l (m ∷ ms), at'))
          (report_loop-At f (buf ++ (l ++ b'\n' ∷ [])) (m ++ crs) m ms rest w _
            (trim-IsMore m is_more) marked more (live b (print_lines crs ms rest)) (omega arith)))

  pub length-print_lines :
      (l : Bytes) (ls : List Bytes) (rest : Bytes)
      → length (print_lines crs (l ∷ ls) rest)
        ≡ length l + length (crs ++ b'\n' ∷ []) + length (print_lines crs ls rest)
  length-print_lines l ls rest = omega (
    arith,
    length-append l (crs ++ b'\n' ∷ print_lines crs ls rest),
    length-append crs (b'\n' ∷ print_lines crs ls rest),
    length-append crs (b'\n' ∷ []),
  )

  -- Each line has its end.
  pub enough_rounds :
      (ls : List Bytes) (rest : Bytes) → length ls ≤ length (print_lines crs ls rest)
  enough_rounds [] rest = omega arith
  enough_rounds (l ∷ ls) rest =
      omega
        (arith, length-print_lines l ls rest, enough_rounds ls rest, length-append crs (b'\n' ∷ []))

  pub starts-AllMore :
      (ls : List Bytes) (rest : Bytes)
      → AllMore ls
      → StartsOther (codes "\t\r\n") rest
      → StartsOther (codes "\t\r\n") (print_lines crs ls rest)
  starts-AllMore [] rest more starts = starts
  starts-AllMore ([] ∷ ls) rest more starts = absurd more.0
  starts-AllMore ((x ∷ m) ∷ ls) rest more starts = more.0.0

  pub all-eol : (a : Bytes) → all line_end a ≡ true → all line_end (a ++ b'\n' ∷ []) ≡ true
  unfolding valid_char
  all-eol [] h = refl
  all-eol (x ∷ a) h = rw (all-head line_end x a h) (all-eol a (all-tail line_end x a h))

  -- A report by its lines, which readReport takes as a whole.
  abbrev pub IsReport : Bytes → List Bytes → Type 0
  IsReport l ls = IsFirst l × EndsInText l × IsMarked l ls × AllMore ls

  -- readReport takes one report, and leaves what is behind it.
  pub read_report-At :
      (junk f : ℕ) (l : Bytes) (ls : List Bytes) (rest : Bytes) (w : Bool) (s : IStream)
      → IsReport l ls
      → StartsOther (codes "\t\r\n") rest
      → At w (print_lines crs (l ∷ ls) rest) s
      → length (print_lines crs (l ∷ ls) rest) < f
      → Returns (IsRead w (text_lines (l ∷ ls)) rest) (read_report lib junk f s)
  unfolding read_report after_empty_lines
  read_report-At junk f l ls rest w s (first, ends, marked, more) starts at n =
      let behind = print_lines crs ls rest in
      let long = length-print_lines l ls rest in
      let eol = crs ++ b'\n' ∷ [] in
      Returns-bind (λ p. (p.0 ≡ l) × At w behind p.1) (IsRead w (text_lines (l ∷ ls)) rest)
        (skip_empty_lines junk f s) (after_empty_lines lib f)
        (skip_empty_lines-At junk f l eol behind w s first (is_empty-append crs [] b'\n')
          (all-eol crs only_ends) (starts-AllMore ls rest more starts)
          (subst (λ a. At w (l ++ a) s) (sym (append_assoc crs (b'\n' ∷ []) behind)) at)
          (omega (arith, long)))
        (λ (line, t) (e, at').
          rw (after_empty_lines, e, is_empty-IsFirst l first)
            (report_loop-At f [] l l ls rest w t (trim-EndsInText l ends) marked more at'
              (omega (arith, long, enough_rounds ls rest, length-append crs (b'\n' ∷ [])))))

  -- At the end readReport finds nothing.
  pub read_report-end :
      (junk f : ℕ) (w : Bool) (s : IStream)
      → At w [] s
      → Returns (λ r. r.filled ≡ false) (read_report lib junk (suc f) s)
  unfolding read_report after_empty_lines skip_empty_lines skip get read_line
  read_report-end junk f w s (over _ e) = rw (read_report_over lib junk f s e) refl
  read_report-end junk f w s (live b _) = refl
